-- ===== src/Payment/Payload/Json.antt =====
-- src/payment/datastructures: fromJson of Authorization, Payload and PaymentPayload.
use machinepal.Prelude.{Text, str}
use machinepal.Result.{Result, ok, ◌>>=◌, ◌>>◌, check_state_json, rethrow_nested}
use machinepal.Platform.{Platform, is_one}
use machinepal.Crypto.Values.{
  token_amount_from_hex_or_decimal, validity_time_from_hex_or_decimal, parse_hex_address,
  nonce_from_hex, signature_from_hex,
}
use machinepal.Crypto.Domain.{Authorization}
use machinepal.Payment.Payload.{Payload, PaymentPayload}

module _ (p : Platform) where
  -- Authorization( fromStr, toStr, value, validAfter, validBefore, nonce )
  unfoldable pub make_authorization : Text → Text → Text → Text → Text → Text → Result Authorization
  make_authorization from_str to_str value valid_after valid_before nonce = do
    v ← token_amount_from_hex_or_decimal p value
    after ← validity_time_from_hex_or_decimal p valid_after
    before ← validity_time_from_hex_or_decimal p valid_before
    from ← parse_hex_address p from_str
    to ← parse_hex_address p to_str
    n ← nonce_from_hex p nonce
    ok (record {
      from = from;
      to = to;
      value = v;
      valid_after = after;
      valid_before = before;
      nonce = n;
    })

  -- j.at( key ).is_string()
  abbrev pub string_at : p.Json → Text → Text → Result (Unit {0})
  string_at j key m = do v ← p.at j key; check_state_json (p.is_string v) m

  -- j.at( key ).get< std::string >()
  abbrev pub text_at : p.Json → Text → Result Text
  text_at j key = do v ← p.at j key; p.get_string v

  unfoldable pub authorization_from_json : p.Json → Result Authorization
  authorization_from_json j = do
    check_state_json (p.contains j (str "from"))
        (str "Missing required field 'from' in Authorization JSON")
    check_state_json (p.contains j (str "to"))
        (str "Missing required field 'to' in Authorization JSON")
    check_state_json (p.contains j (str "value"))
        (str "Missing required field 'value' in Authorization JSON")
    check_state_json (p.contains j (str "validAfter"))
        (str "Missing required field 'validAfter' in Authorization JSON")
    check_state_json (p.contains j (str "validBefore"))
        (str "Missing required field 'validBefore' in Authorization JSON")
    check_state_json (p.contains j (str "nonce"))
        (str "Missing required field 'nonce' in Authorization JSON")
    string_at j (str "from") (str "'from' must be a string in Authorization JSON")
    string_at j (str "to") (str "'to' must be a string in Authorization JSON")
    string_at j (str "value") (str "'value' must be a string in Authorization JSON")
    string_at j (str "validAfter") (str "'validAfter' must be a string in Authorization JSON")
    string_at j (str "validBefore") (str "'validBefore' must be a string in Authorization JSON")
    string_at j (str "nonce") (str "'nonce' must be a string in Authorization JSON")
    from ← text_at j (str "from")
    to ← text_at j (str "to")
    value ← text_at j (str "value")
    valid_after ← text_at j (str "validAfter")
    valid_before ← text_at j (str "validBefore")
    nonce ← text_at j (str "nonce")
    make_authorization from to value valid_after valid_before nonce

  unfoldable pub payload_from_json : p.Json → Result Payload
  payload_from_json j = rethrow_nested (str "Payload::fromJson") (do
    check_state_json (p.contains j (str "signature"))
        (str "Missing required field 'signature' in Payload JSON")
    check_state_json (p.contains j (str "authorization"))
        (str "Missing required field 'authorization' in Payload JSON")
    string_at j (str "signature") (str "'signature' must be a string in Payload JSON")
    a ← p.at j (str "authorization")
    check_state_json (p.is_object a) (str "'authorization' must be an object in Payload JSON")
    authorization ← authorization_from_json a
    signature_text ← text_at j (str "signature")
    signature ← signature_from_hex p signature_text
    ok (record { signature = signature; authorization = authorization }))

  unfoldable pub payment_payload_from_json : p.Json → Result PaymentPayload
  payment_payload_from_json j = rethrow_nested (str "PaymentPayload::fromJson") (do
    check_state_json (p.contains j (str "x402Version"))
        (str "Missing required field 'x402Version' in PaymentPayload JSON")
    check_state_json (p.contains j (str "scheme"))
        (str "Missing required field 'scheme' in PaymentPayload JSON")
    check_state_json (p.contains j (str "network"))
        (str "Missing required field 'network' in PaymentPayload JSON")
    check_state_json (p.contains j (str "payload"))
        (str "Missing required field 'payload' in PaymentPayload JSON")
    version_json ← p.at j (str "x402Version")
    check_state_json (p.is_integer version_json)
        (str "'x402Version' must be an integer in PaymentPayload JSON")
    string_at j (str "scheme") (str "'scheme' must be a string in PaymentPayload JSON")
    string_at j (str "network") (str "'network' must be a string in PaymentPayload JSON")
    payload_json ← p.at j (str "payload")
    check_state_json (p.is_object payload_json)
        (str "'payload' must be an object in PaymentPayload JSON")
    version ← p.get_int version_json
    check_state_json (is_one version) (str "x402Version must be 1 in PaymentPayload JSON")
    scheme ← text_at j (str "scheme")
    network ← text_at j (str "network")
    payload ← payload_from_json payload_json
    ok (record { x402_version = version; scheme = scheme; network = network; payload = payload }))
