-- ===== src/X402/Responses/Evolving.antt =====
-- The responses that the replies of X402Processor hand over.
use machinepal.Prelude.{
  ℕ, ◌≤◌, Text, str, [], true, ◌&&◌, leb, ltb, Option, none, some, inl, inr, Bool-cases, arith,
}
use machinepal.Result.{Result, ok, err, Exception, nested, check_state}
use machinepal.Exec.{Exec, continue, recover, pure, throw, lift, try_catch, ◌>>=◌}
use machinepal.Platform.{Platform}
use machinepal.Http.Channel.{Channel, error_sent, reply_sent}
use machinepal.Http.Channel.Evolves.{
  Evolves, Evolves-refl, Evolves-trans, answer-Evolves, error_final, reply_final,
}
use machinepal.Config.Resources.{MachinePalConfig}
use machinepal.Crypto.Domain.{Authorization}
use machinepal.Payment.Messages.{
  HttpError, err_bad_request, err_internal_server_error, err_bad_gateway, ErrorType,
  SettlementResponse, get_payment_required_response_as_string, get_error_settlement_response,
}
use machinepal.Payment.Manager.{bad_request}
use machinepal.X402.Backend.{BackendError, backend_curl_error, backend_http_error}
use machinepal.X402.Responses.{
  X402State, checked, to_uint16, get_application_json_headers, reply_with, error_body,
  reply_400_bad_request, reply_404_resource_not_found, reply_500_internal_error,
  reply_502_bad_gateway, reply_generic_http_error, reply_pass_through_error,
  reply_x402_resource_success, reply_402_payment_required, error_string, payment_required_headers,
  payment_required, reply_402_if_no_payment_header, payer_of, send_as_payment_required,
  send_settlement_error_response,
}

-- Every run of a method lets the channel evolve.
abbrev pub By : {p : Platform} {A : Type 0} → (ℕ → Type 0) → Exec (X402State p) A → Type 0
By {p} P m = (s : X402State p) → Evolves P s.channel (m s).1.channel

module _ {p : Platform} {P : ℕ → Type 0} where
  pub continue-By :
      {A B : Type 0} (c : Channel p) (m : Result A × X402State p) (k : A → Exec (X402State p) B)
      → Evolves P c m.1.channel
      → ((a : A) → By P (k a))
      → Evolves P c (continue m k).1.channel
  continue-By c (ok a, s) k e f = Evolves-trans e (f a s)
  continue-By c (err x, s) k e f = e

  pub recover-By :
      {A : Type 0} (c : Channel p) (m : Result A × X402State p)
      (h : Exception → Exec (X402State p) A)
      → Evolves P c m.1.channel
      → ((x : Exception) → By P (h x))
      → Evolves P c (recover m h).1.channel
  recover-By c (ok a, s) h e f = e
  recover-By c (err x, s) h e f = Evolves-trans e (f x s)

  pub then-By :
      {A B : Type 0} (m : Exec (X402State p) A) (k : A → Exec (X402State p) B)
      → By P m
      → ((a : A) → By P (k a))
      → By P (m >>= k)
  then-By m k e f s = continue-By s.channel (m s) k (e s) f

  pub catch-By :
      {A : Type 0} (m : Exec (X402State p) A) (h : Exception → Exec (X402State p) A)
      → By P m
      → ((x : Exception) → By P (h x))
      → By P (try_catch m h)
  catch-By m h e f s = recover-By s.channel (m s) h (e s) f

-- Refusals: where the property of statuses holds of those from 400.
module _ (p : Platform) (config : MachinePalConfig) (P : ℕ → Type 0)
    (refuses : (n : ℕ) → 400 ≤ n → P n) where
  reply_error-By :
      (status : ℕ) (reason message : Text)
      → 400 ≤ status
      → By P (
          error_body p config message
          >>= reply_with p config error_sent status reason (get_application_json_headers p))
  reply_error-By status reason message large =
      then-By (error_body p config message)
        (reply_with p config error_sent status reason (get_application_json_headers p))
        (λ s. Evolves-refl s.channel)
        (λ body s. answer-Evolves s.channel error_sent _ error_final (refuses status large))

  pub reply_400-By : (message : Text) → By P (reply_400_bad_request p config message)
  unfolding reply_400_bad_request
  reply_400-By message = reply_error-By 400 (str "Bad Request") message (omega arith)

  pub reply_404-By : (message : Text) → By P (reply_404_resource_not_found p config message)
  unfolding reply_404_resource_not_found
  reply_404-By message = reply_error-By 404 (str "Not Found") message (omega arith)

  pub reply_500-By : (message : Text) → By P (reply_500_internal_error p config message)
  unfolding reply_500_internal_error
  reply_500-By message = reply_error-By 500 (str "Server Error") message (omega arith)

  pub reply_502-By : (message : Text) → By P (reply_502_bad_gateway p config message)
  unfolding reply_502_bad_gateway
  reply_502-By message = reply_error-By 502 (str "Bad Gateway") message (omega arith)

  payment_required-By : (e : Option SettlementResponse) → By P (payment_required p config e)
  payment_required-By e =
      then-By (λ s. (checked (str "resource_") s.resource, s)) _ (λ s. Evolves-refl s.channel)
        (λ resource.
          then-By (λ s. (checked (str "organization_") s.organization, s)) _
            (λ s. Evolves-refl s.channel)
            (λ organization.
              then-By
                (lift (
                  get_payment_required_response_as_string p resource config
                    (error_string p config e)))
                (reply_with p config reply_sent 402 (str "Payment Required")
                  (payment_required_headers p config e))
                (λ s. Evolves-refl s.channel)
                (λ body s.
                  answer-Evolves s.channel reply_sent _ reply_final (refuses 402 (omega arith)))))

  pub reply_402-By : (e : Option SettlementResponse) → By P (reply_402_payment_required p config e)
  unfolding reply_402_payment_required
  reply_402-By e =
      catch-By (payment_required p config e) (λ x. throw (nested [] x)) (payment_required-By e)
        (λ x s. Evolves-refl s.channel)

  pub reply_402_if_no_payment_header-By :
      (headers : p.Headers) → By P (reply_402_if_no_payment_header p config headers)
  unfolding reply_402_if_no_payment_header
  reply_402_if_no_payment_header-By headers s =
      elim (Bool-cases (p.exists headers (str "X-PAYMENT"))) [
        | inl there ↦ rw there (Evolves-refl s.channel)
        | inr absent ↦ rw absent (
            then-By (try_catch (reply_402_payment_required p config none) (λ e. pure tt))
              (λ _. pure true)
              (catch-By (reply_402_payment_required p config none) (λ e. pure tt)
                (reply_402-By none) (λ x s. Evolves-refl s.channel))
              (λ _ s. Evolves-refl s.channel) s)
      ]

  send_as_payment_required-By :
      (a : Option Authorization) (e : HttpError) → By P (send_as_payment_required p config a e)
  send_as_payment_required-By a e =
      then-By (lift (get_error_settlement_response p e config.network.name (payer_of p config a)))
        (λ response. reply_402_payment_required p config (some response))
        (λ s. Evolves-refl s.channel) (λ response. reply_402-By (some response))

  By-type :
      (a : Option Authorization) (t : ErrorType) (m : Text)
      → By P (send_settlement_error_response p config a (record { type = t; message = m }))
  unfolding send_settlement_error_response
  By-type a err_internal_server_error m = reply_500-By m
  By-type a err_bad_request m = send_as_payment_required-By a (bad_request m)
  By-type a err_bad_gateway m =
      send_as_payment_required-By a (record { type = err_bad_gateway; message = m })

  pub send_settlement_error_response-By :
      (a : Option Authorization) (e : HttpError)
      → By P (send_settlement_error_response p config a e)
  send_settlement_error_response-By a e = By-type a e.type e.message

-- The replies whose status is the backend's.
module _ (p : Platform) (config : MachinePalConfig) where
  abbrev pub AnyStatus : ℕ → Type 0
  AnyStatus n = Unit

  pub reply_pass_through_error-By :
      (e : BackendError) (headers : p.Headers)
      → By AnyStatus (reply_pass_through_error p config e headers)
  unfolding reply_pass_through_error reply_generic_http_error
  reply_pass_through_error-By (backend_curl_error message) headers =
      reply_502-By p config AnyStatus (λ _ _. tt) message
  reply_pass_through_error-By (backend_http_error status) headers =
      then-By (error_body p config (p.get_default_reason (to_uint16 status)))
        (reply_with p config error_sent (to_uint16 status) (p.get_default_reason (to_uint16 status))
          headers)
        (λ s. Evolves-refl s.channel)
        (λ body s. answer-Evolves s.channel error_sent _ error_final tt)

  pub reply_x402_resource_success-By :
      (status : ℕ) (info : Text) (headers : p.Headers) (body : Text)
      → By AnyStatus (reply_x402_resource_success p config status info headers body)
  unfolding reply_x402_resource_success
  reply_x402_resource_success-By status info headers body =
      then-By
        (lift (
          check_state (leb 200 status && ltb status 300)
            (str "statusCode >= 200 && statusCode < 300")))
        (λ _.
          reply_with p config reply_sent (to_uint16 status)
            (p.get_default_reason (to_uint16 status))
            (p.add headers (str "X-PAYMENT-RESPONSE") info) body)
        (λ s. Evolves-refl s.channel) (λ _ s. answer-Evolves s.channel reply_sent _ reply_final tt)
