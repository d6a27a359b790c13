-- ===== src/Payment/Messages.antt =====
-- src/payment/datastructures: PaymentRequirements, PaymentRequiredResponse, SettlementRequest,
-- SettlementResponse and VerifyResponse; src/x402_protocol/HttpError; JsonUtils::mustContainString.
use machinepal.Prelude.{
  Bool, true, false, not, Text, str, List, [], ◌∷◌, ◌++◌, Option, none, some, if◌then◌else◌,
  is_empty,
}
use machinepal.Result.{Result, ok, ◌>>=◌, ◌>>◌, check_state_json}
use machinepal.Platform.{Platform, ℤ, pos}
use machinepal.Crypto.Encoding.{base64_encode}
use machinepal.Crypto.Values.{address_to_hex}
use machinepal.Config.Resources.{
  ResourceConfig, NetworkConfig, MachinePalConfig, get_token_address, get_token_version,
}
use machinepal.Payment.Payload.{PaymentPayload}
use machinepal.Payment.Payload.Json.{payment_payload_from_json, text_at}
use machinepal.Payment.Payload.ToJson.{payment_payload_to_json}

pub data ErrorType : Type 0 where
  err_bad_request err_internal_server_error err_bad_gateway : ErrorType

pub record HttpError : Type 0 where
  pub type : ErrorType
  pub message : Text

pub record SettlementResponse : Type 0 where
  pub success : Bool
  pub error_reason : Option Text
  pub transaction : Text
  pub network : Text
  pub payer : Text
  pub original_json : Text

pub record VerifyResponse : Type 0 where
  pub success : Bool
  pub invalid_reason : Option Text
  pub payer : Text

pub record PaymentRequirements (p : Platform) : Type 0 where
  pub scheme : Text
  pub network : Text
  pub max_amount_required : Text
  pub resource : Text
  pub description : Text
  pub mime_type : Text
  pub output_schema : Option p.Json
  pub pay_to : Text
  pub max_timeout_seconds : ℤ
  pub asset : Text
  pub extra : p.Json

pub record SettlementRequest (p : Platform) : Type 0 where
  pub payment_payload : PaymentPayload
  pub payment_requirements : PaymentRequirements p

module _ (p : Platform) where
  unfoldable pub must_contain_string : p.Json → Text → Result Text
  must_contain_string j key = do
    check_state_json (p.contains j key) (str "Missing required " ++ key)
    v ← p.at j key
    check_state_json (p.is_string v) (key ++ str " must be string")
    p.get_string v

  abbrev optional_text : Text → Option Text → List (Text × p.Json)
  optional_text key none = []
  optional_text key (some t) = (key, p.from_text t) ∷ []

  abbrev optional_json : Text → Option p.Json → List (Text × p.Json)
  optional_json key none = []
  optional_json key (some j) = (key, j) ∷ []

  unfoldable pub make_payment_requirements : ResourceConfig → NetworkConfig → PaymentRequirements p
  make_payment_requirements resource network_config =
      let token_name = resource.token in
      let extra_version = get_token_version token_name in
      record {
        scheme = resource.payment_scheme;
        network = network_config.name;
        max_amount_required = p.dec resource.price;
        resource = resource.location;
        description = resource.description;
        mime_type = resource.mime_type;
        output_schema = none;
        pay_to = address_to_hex p network_config.wallet_address true;
        max_timeout_seconds = pos 600;
        asset = get_token_address token_name;
        extra = p.from_object (
            (str "name", p.from_text token_name)
            ∷ (if is_empty extra_version
                then []
                else (str "version", p.from_text extra_version) ∷ []));
      }

  unfoldable pub payment_requirements_to_json : PaymentRequirements p → p.Json
  payment_requirements_to_json r = p.from_object (
      ((str "scheme", p.from_text r.scheme)
        ∷ (str "network", p.from_text r.network)
        ∷ (str "maxAmountRequired", p.from_text r.max_amount_required)
        ∷ (str "resource", p.from_text r.resource)
        ∷ (str "description", p.from_text r.description)
        ∷ (str "mimeType", p.from_text r.mime_type)
        ∷ (str "payTo", p.from_text r.pay_to)
        ∷ (str "maxTimeoutSeconds", p.from_int r.max_timeout_seconds)
        ∷ (str "asset", p.from_text r.asset)
        ∷ (str "extra", r.extra)
        ∷ [])
      ++ optional_json (str "outputSchema") r.output_schema)

  unfoldable pub output_schema_of : p.Json → Result (Option p.Json)
  output_schema_of j =
      if p.contains j (str "outputSchema")
      then (do v ← p.at j (str "outputSchema"); ok (if p.is_null v then none else some v))
      else ok none

  unfoldable pub payment_requirements_from_json : p.Json → Result (PaymentRequirements p)
  payment_requirements_from_json j = do
    scheme ← must_contain_string j (str "scheme")
    network ← must_contain_string j (str "network")
    max_amount_required ← must_contain_string j (str "maxAmountRequired")
    resource ← must_contain_string j (str "resource")
    description ← must_contain_string j (str "description")
    mime_type ← must_contain_string j (str "mimeType")
    output_schema ← output_schema_of j
    pay_to ← must_contain_string j (str "payTo")
    timeout_json ← p.at j (str "maxTimeoutSeconds")
    max_timeout_seconds ← p.get_int timeout_json
    asset ← must_contain_string j (str "asset")
    extra ← p.at j (str "extra")
    ok (record {
      scheme = scheme;
      network = network;
      max_amount_required = max_amount_required;
      resource = resource;
      description = description;
      mime_type = mime_type;
      output_schema = output_schema;
      pay_to = pay_to;
      max_timeout_seconds = max_timeout_seconds;
      asset = asset;
      extra = extra;
    })

  -- PaymentRequiredResponse::getPaymentRequiredResponseAsString
  unfoldable pub get_payment_required_response_as_string :
      ResourceConfig → MachinePalConfig → Option Text → Result Text
  get_payment_required_response_as_string resource config error_message =
      let req = make_payment_requirements resource config.network in
      let error : Text = elim error_message [
        | none ↦ str "X-PAYMENT header is required"
        | some m ↦ m
      ] in
      p.dump (
        p.from_object (
          (str "x402Version", p.from_int (pos 1))
          ∷ (str "accepts", p.from_array (payment_requirements_to_json req ∷ []))
          ∷ (str "error", p.from_text error)
          ∷ []))

  unfoldable pub settlement_request_to_json : SettlementRequest p → p.Json
  settlement_request_to_json r = p.from_object (
      (str "paymentPayload", payment_payload_to_json p r.payment_payload)
      ∷ (str "paymentRequirements", payment_requirements_to_json r.payment_requirements)
      ∷ [])

  -- j.contains( key ) && !j[key].is_null(), and j[key]
  unfoldable pub present_at : p.Json → Text → Result p.Json
  present_at j key = do
    check_state_json (p.contains j key) []
    v ← p.at j key
    check_state_json (not (p.is_null v)) []
    ok v

  unfoldable pub settlement_request_from_json : p.Json → Result (SettlementRequest p)
  settlement_request_from_json j = do
    payload_json ← present_at j (str "paymentPayload")
    payload ← payment_payload_from_json p payload_json
    requirements_json ← present_at j (str "paymentRequirements")
    requirements ← payment_requirements_from_json requirements_json
    ok (record { payment_payload = payload; payment_requirements = requirements })

  unfoldable pub settlement_response_to_json : Bool → Option Text → Text → Text → Text → p.Json
  settlement_response_to_json success error_reason transaction network payer = p.from_object (
      ((str "success", p.from_bool success)
        ∷ (str "transaction", p.from_text transaction)
        ∷ (str "network", p.from_text network)
        ∷ (str "payer", p.from_text payer)
        ∷ [])
      ++ optional_text (str "errorReason") error_reason)

  -- The constructor, where no original JSON is given.
  unfoldable pub make_settlement_response :
      Bool → Option Text → Text → Text → Text → Result SettlementResponse
  make_settlement_response success error_reason transaction network payer = do
    original_json ←
        p.dump (settlement_response_to_json success error_reason transaction network payer)
    ok (record {
      success = success;
      error_reason = error_reason;
      transaction = transaction;
      network = network;
      payer = payer;
      original_json = original_json;
    })

  unfoldable pub get_error_settlement_response : HttpError → Text → Text → Result SettlementResponse
  get_error_settlement_response error network payer =
      make_settlement_response false (some error.message) [] network payer

  unfoldable pub error_reason_of : p.Json → Result (Option Text)
  error_reason_of j =
      if p.contains j (str "errorReason")
      then (do
        v ← p.at j (str "errorReason")
        if p.is_string v then (do m ← p.get_string v; ok (some m)) else ok none)
      else ok none

  unfoldable pub settlement_response_from_json_string : Text → Result SettlementResponse
  settlement_response_from_json_string json_string = do
    j ← p.parse json_string
    success_json ← p.at j (str "success")
    success ← p.get_bool success_json
    transaction ← text_at p j (str "transaction")
    network ← text_at p j (str "network")
    payer ← text_at p j (str "payer")
    error_reason ← error_reason_of j
    ok (record {
      success = success;
      error_reason = error_reason;
      transaction = transaction;
      network = network;
      payer = payer;
      original_json = json_string;
    })

  unfoldable pub original_json_to_base64 : SettlementResponse → Text
  original_json_to_base64 r = base64_encode p r.original_json

  unfoldable pub verify_response_to_json : VerifyResponse → p.Json
  verify_response_to_json r = p.from_object (
      ((str "isValid", p.from_bool r.success) ∷ (str "payer", p.from_text r.payer) ∷ [])
      ++ optional_text (str "invalidReason") r.invalid_reason)
