-- ===== src/X402/Processor/Leaves.antt =====
-- The methods of X402Processor that leave the payments alone.
use machinepal.Prelude.{ℕ, ◌≡◌, Text, Option, none, some, arith}
use machinepal.Exec.{Exec}
use machinepal.Platform.{Platform}
use machinepal.Http.{HttpRequest}
use machinepal.Payment.Messages.{SettlementResponse, original_json_to_base64}
use machinepal.X402.Backend.{BackendError, backend_curl_error, backend_http_error, BackendReply}
use machinepal.X402.Responses.{
  X402State, reply_400_bad_request, reply_500_internal_error, reply_502_bad_gateway,
  reply_generic_http_error, reply_pass_through_error, reply_x402_resource_success,
  reply_402_payment_required, payment_required, reply_402_if_no_payment_header,
}
use machinepal.X402.Processor.{Env, validate_method, sell_back}

abbrev pub Leaves : {p : Platform} {A : Type 0} → Exec (X402State p) A → Type 0
Leaves {p} m = (s : X402State p) → (m s).1.settlements ≡ s.settlements

module _ (p : Platform) (v : Env p) where
  reply_400-Leaves : (message : Text) → Leaves (reply_400_bad_request p v.config message)
  unfolding reply_400_bad_request
  reply_400-Leaves message s = ground arith

  pub reply_500-Leaves : (message : Text) → Leaves (reply_500_internal_error p v.config message)
  unfolding reply_500_internal_error
  reply_500-Leaves message s = ground arith

  pass_through_error-Leaves :
      (e : BackendError) (headers : p.Headers)
      → Leaves (reply_pass_through_error p v.config e headers)
  unfolding reply_pass_through_error reply_502_bad_gateway reply_generic_http_error
  pass_through_error-Leaves (backend_curl_error m) headers s = ground arith
  pass_through_error-Leaves (backend_http_error n) headers s = ground arith

  payment_required-Leaves : (e : Option SettlementResponse) → Leaves (payment_required p v.config e)
  payment_required-Leaves e s = ground arith

  success-Leaves :
      (status : ℕ) (info : Text) (headers : p.Headers) (body : Text)
      → Leaves (reply_x402_resource_success p v.config status info headers body)
  unfolding reply_x402_resource_success
  success-Leaves status info headers body s = ground arith

  pub reply_402_if_no_payment_header-Leaves :
      (headers : p.Headers) → Leaves (reply_402_if_no_payment_header p v.config headers)
  unfolding reply_402_if_no_payment_header reply_402_payment_required
  reply_402_if_no_payment_header-Leaves headers s = ground (arith, payment_required-Leaves none s)

  pub method-Leaves : (request : HttpRequest p) → Leaves (validate_method p v request)
  unfolding validate_method reply_400_bad_request
  method-Leaves request s = ground arith

  pub sell_back-Leaves :
      (r : SettlementResponse) (a : Option BackendError × BackendReply p)
      → Leaves (sell_back p v r a)
  sell_back-Leaves r (some e, reply) s = pass_through_error-Leaves e reply.response_headers s
  sell_back-Leaves r (none, reply) s =
      success-Leaves reply.http_status_code (original_json_to_base64 p r) reply.response_headers
        reply.response_body s
