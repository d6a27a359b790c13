-- ===== src/X402/Responses.antt =====
-- src/x402_protocol/X402Processor.cpp: the processor's state, and the replies it sends.
pub mod Evolving
use machinepal.Prelude.{
  ℕ, ◌%◌, ◌^◌, Text, str, List, [], ◌∷◌, ◌++◌, Bool, true, false, ◌&&◌, leb, ltb, if◌then◌else◌,
  Option, none, some,
}
use machinepal.Result
use machinepal.Result.{Result, ok, err, logic_error, nested, check_state, rethrow_nested}
use machinepal.Exec.{Exec, pure, throw, lift, gets, modify, try_catch, ◌>>=◌, ◌>>◌}
use machinepal.Platform.{Platform}
use machinepal.Http.{HttpMethod, HttpResponse}
use machinepal.Http.Channel.{Channel, ProcessorState, error_sent, reply_sent, answer}
use machinepal.Config.Resources.{ResourceConfig, OrganizationConfig, MachinePalConfig}
use machinepal.Payment.Messages.{
  HttpError, err_bad_request, err_internal_server_error, err_bad_gateway, SettlementResponse,
  get_payment_required_response_as_string, get_error_settlement_response, original_json_to_base64,
}
use machinepal.Crypto.Values.{address_to_hex}
use machinepal.Crypto.Domain.{Authorization}
use machinepal.Payment.Manager.{Settlements}
use machinepal.X402.Backend.{BackendError, backend_curl_error, backend_http_error, BackendReply}

-- A processor, with the payments that all of them share.
pub record X402State (p : Platform) : Type 0 where
  pub channel : Channel p
  pub decoded_path : Text
  pub sub_domain_name : Text
  pub organization : Option OrganizationConfig
  pub resource : Option ResourceConfig
  pub method : HttpMethod
  pub settlements : Settlements p

-- static_cast< uint16_t >, and the conversion to it where a status is passed on
abbrev pub to_uint16 : ℕ → ℕ
to_uint16 status = status % 2 ^ 16

-- The value of a pointer that CHECK_STATE has found not to be null.
abbrev pub checked {ℓ} : {A : Type ℓ} → Text → Option A → Result A
checked m (some a) = ok a
checked m none = err (logic_error m)

module _ (p : Platform) where
  unfoldable pub get_application_json_headers : p.Headers
  get_application_json_headers = p.add p.no_headers (str "Content-Type") (str "application/json")

  -- The body where not all of the three pointers are set.
  unfoldable pub plain_error_body : Text → Result Text
  plain_error_body message = p.dump (p.from_object ((str "error", p.from_text message) ∷ []))

  module _ (config : MachinePalConfig) where
    unfoldable pub get_json_error_body :
        Option OrganizationConfig → Option ResourceConfig → Text → Result Text
    unfolding plain_error_body
    get_json_error_body (some organization) (some resource) message =
        get_payment_required_response_as_string p resource config (some message)
    get_json_error_body _ _ message = plain_error_body message

    -- sendResponse, and the state that the reply then sets.
    abbrev pub reply_with :
        ProcessorState → ℕ → Text → p.Headers → Text → Exec (X402State p) (Unit {0})
    reply_with state status reason headers body = modify (λ s. record s {
      channel =
          answer state (record { status = status; reason = reason; headers = headers; body = body })
            s.channel;
    })

    abbrev pub error_body : Text → Exec (X402State p) Text
    error_body message s = (get_json_error_body s.organization s.resource message, s)

    -- The replies with a fixed status: 400, 404, 500 and 502.
    abbrev reply_error : ℕ → Text → Text → Exec (X402State p) (Unit {0})
    reply_error status reason message = do
      body ← error_body message
      reply_with error_sent status reason get_application_json_headers body

    unfoldable pub reply_400_bad_request : Text → Exec (X402State p) (Unit {0})
    reply_400_bad_request message = reply_error 400 (str "Bad Request") message

    unfoldable pub reply_404_resource_not_found : Text → Exec (X402State p) (Unit {0})
    reply_404_resource_not_found message = reply_error 404 (str "Not Found") message

    unfoldable pub reply_500_internal_error : Text → Exec (X402State p) (Unit {0})
    reply_500_internal_error message = reply_error 500 (str "Server Error") message

    unfoldable pub reply_502_bad_gateway : Text → Exec (X402State p) (Unit {0})
    reply_502_bad_gateway message = reply_error 502 (str "Bad Gateway") message

    unfoldable pub reply_generic_http_error : ℕ → p.Headers → Exec (X402State p) (Unit {0})
    reply_generic_http_error status response_headers = do
      body ← error_body (p.get_default_reason (to_uint16 status))
      reply_with error_sent (to_uint16 status) (p.get_default_reason (to_uint16 status))
          response_headers body

    unfoldable pub reply_pass_through_error :
        BackendError → p.Headers → Exec (X402State p) (Unit {0})
    reply_pass_through_error (backend_curl_error message) response_headers =
        reply_502_bad_gateway message
    reply_pass_through_error (backend_http_error status) response_headers =
        reply_generic_http_error status response_headers

    unfoldable pub reply_x402_resource_success :
        ℕ → Text → p.Headers → Text → Exec (X402State p) (Unit {0})
    reply_x402_resource_success status settlement_info headers response_body = do
      lift (
          check_state (leb 200 status && ltb status 300)
            (str "statusCode >= 200 && statusCode < 300"))
      reply_with reply_sent (to_uint16 status) (p.get_default_reason (to_uint16 status))
          (p.add headers (str "X-PAYMENT-RESPONSE") settlement_info) response_body

    abbrev error_string : Option SettlementResponse → Option Text
    error_string none = none
    error_string (some response) = some (elim response.error_reason [
      | none ↦ str "Payment required to access resource"
      | some reason ↦ reason
    ])

    abbrev payment_required_headers : Option SettlementResponse → p.Headers
    payment_required_headers none = get_application_json_headers
    payment_required_headers (some response) =
        p.add get_application_json_headers (str "X-PAYMENT-RESPONSE")
          (original_json_to_base64 p response)

    abbrev pub payment_required : Option SettlementResponse → Exec (X402State p) (Unit {0})
    payment_required error_response = do
      resource ← λ s. (checked (str "resource_") s.resource, s)
      organization ← λ s. (checked (str "organization_") s.organization, s)
      body ←
          lift (
            get_payment_required_response_as_string p resource config (error_string error_response))
      reply_with reply_sent 402 (str "Payment Required") (payment_required_headers error_response)
          body

    unfoldable pub reply_402_payment_required :
        Option SettlementResponse → Exec (X402State p) (Unit {0})
    reply_402_payment_required error_response =
        try_catch (payment_required error_response) (λ e. throw (nested [] e))

    -- An exception of the reply is logged, and true is returned all the same.
    unfoldable pub reply_402_if_no_payment_header : p.Headers → Exec (X402State p) Bool
    reply_402_if_no_payment_header request_headers =
        if p.exists request_headers (str "X-PAYMENT")
        then pure false
        else (do try_catch (reply_402_payment_required none) (λ e. pure tt); pure true)

    abbrev payer_of : Option Authorization → Text
    payer_of none = []
    payer_of (some a) = address_to_hex p a.from true

    abbrev send_as_payment_required :
        Option Authorization → HttpError → Exec (X402State p) (Unit {0})
    send_as_payment_required authorization error = do
      response ←
          lift (get_error_settlement_response p error config.network.name (payer_of authorization))
      reply_402_payment_required (some response)

    unfoldable pub send_settlement_error_response :
        Option Authorization → HttpError → Exec (X402State p) (Unit {0})
    send_settlement_error_response authorization error = elim error.type [
      | err_internal_server_error ↦ reply_500_internal_error error.message
      | err_bad_request ↦ send_as_payment_required authorization error
      | err_bad_gateway ↦ send_as_payment_required authorization error
    ]
