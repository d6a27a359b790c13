-- ===== src/X402/Processor/Evolving.antt =====
-- The responses that the events of X402Processor hand over.
use machinepal.Prelude.{
  ℕ, ◌≤◌, ◌≡◌, refl, Text, str, ◌++◌, Bool, true, false, not, ltb, Option, none, some, ◌⊎◌, inl,
  inr, if◌then◌else◌, Option-cases,
}
use machinepal.Result.{Exception}
use machinepal.Exec.{Exec, try_catch, pure, ◌>>=◌}
use machinepal.Platform.{Platform}
use machinepal.Http.{HttpRequest}
use machinepal.Http.Channel.{ProcessorState, start, error_sent, reply_sent}
use machinepal.Http.Channel.Evolves.{Evolves-refl, answer-Evolves, reply_final}
use machinepal.Config.Resources.{
  ResourceConfig, PassThroughConfig, OrganizationConfig, get_resource_by_path,
  get_organization_by_subdomain_name,
}
use machinepal.Url.{decode_path}
use machinepal.Payment.Messages.{SettlementResponse, original_json_to_base64}
use machinepal.Crypto.Domain.{Authorization}
use machinepal.Payment.Manager.{Settled, decode_pre_validate_and_settle_with_facilitator}
use machinepal.X402.Backend.{BackendError, BackendReply, do_request}
use machinepal.X402.Host.{extract_sub_domain_name}
use machinepal.X402.Responses.{
  X402State, reply_400_bad_request, reply_500_internal_error, reply_402_if_no_payment_header,
}
use machinepal.X402.Responses.Evolving.{
  By, then-By, catch-By, reply_400-By, reply_404-By, reply_500-By,
  reply_402_if_no_payment_header-By, send_settlement_error_response-By, AnyStatus,
  reply_pass_through_error-By, reply_x402_resource_success-By,
}
use machinepal.X402.Processor.{
  Env, is_supported, max_body_size, refuse, validate_and_extract_sub_domain_name,
  validate_and_decode_path, unknown_subdomain, matched, match_organization, validate_method,
  unless_refused, request_start, on_request_start, pass_back, pass_through, do_pass_through,
  handle_pass_throw_or_error_on_no_resource_match, on_settlements, sell_back, serve_settled,
  serve_resource, serve, request_fully_received, unless_error_sent, on_request_fully_received,
  body_too_large, on_body_size_increase,
}

sum_cases {ℓ κ} :
    {A : Type ℓ} {B : Type κ} (r : A ⊎ B) → ((a : A) × (r ≡ inl a)) ⊎ ((b : B) × (r ≡ inr b))
sum_cases (inl a) = inl (a, refl)
sum_cases (inr b) = inr (b, refl)

module _ (p : Platform) (v : Env p) (P : ℕ → Type 0) (refuses : (n : ℕ) → 400 ≤ n → P n) where
  refuse-By : (message : Text) → By P (refuse p v message)
  refuse-By message =
      then-By (reply_400_bad_request p v.config message) (λ _. pure false)
        (reply_400-By p v.config P refuses message) (λ _ s. Evolves-refl s.channel)

  host-By : (request : HttpRequest p) → By P (validate_and_extract_sub_domain_name p v request)
  unfolding validate_and_extract_sub_domain_name
  host-By request s =
      elim (sum_cases (
        extract_sub_domain_name v.url v.config.host_name
          (p.get_single_or_empty request.headers (str "host")))) [
            | inl (sub, e) ↦ rw (e, validate_and_extract_sub_domain_name) (Evolves-refl s.channel)
            | inr (m, e) ↦ rw (e, validate_and_extract_sub_domain_name) (refuse-By m s)
          ]

  path-By : (request : HttpRequest p) → By P (validate_and_decode_path p v request)
  unfolding validate_and_decode_path
  path-By request s = elim (sum_cases (decode_path v.url request.path)) [
    | inl (path, e) ↦ rw (e, validate_and_decode_path) (Evolves-refl s.channel)
    | inr (m, e) ↦ rw (e, validate_and_decode_path) (refuse-By m s)
  ]

  matched-By : (sub : Text) (o : Option OrganizationConfig) → By P (matched p v sub o)
  matched-By sub none = refuse-By (unknown_subdomain p v sub)
  matched-By sub (some o) = λ s. Evolves-refl s.channel

  organization-By : By P (match_organization p v)
  unfolding match_organization
  organization-By s =
      let found = get_organization_by_subdomain_name v.config s.sub_domain_name in
      matched-By s.sub_domain_name found (record s { organization = found })

  supported-By :
      (request : HttpRequest p) (b : Bool)
      → By P (
          if b
          then pure true
          else refuse p v (str "Unsupported HTTP method." ++ request.method_string))
  supported-By request true = λ s. Evolves-refl s.channel
  supported-By request false = refuse-By (str "Unsupported HTTP method." ++ request.method_string)

  pub method-By : (request : HttpRequest p) → By P (validate_method p v request)
  unfolding validate_method
  method-By request s = elim (Option-cases request.method) [
    | inl e ↦ rw e (refuse-By (str "Missing HTTP method") s)
    | inr (m, e) ↦ rw e (supported-By request (is_supported m) (record s { method = m }))
  ]

  pub unless_refused-By :
      (b : Bool) (rest : Exec (X402State p) (Unit {0}))
      → By P rest
      → By P (unless_refused p v b rest)
  unless_refused-By true rest e = e
  unless_refused-By false rest e = λ s. Evolves-refl s.channel

  abbrev check_path : HttpRequest p → Bool → Exec (X402State p) (Unit {0})
  check_path request matches =
      unless_refused p v matches (validate_and_decode_path p v request >>= λ _. pure tt)

  abbrev check_organization : HttpRequest p → Bool → Exec (X402State p) (Unit {0})
  check_organization request fine =
      unless_refused p v fine (match_organization p v >>= check_path request)

  start-By : (request : HttpRequest p) → By P (request_start p v request)
  unfolding request_start
  start-By request =
      then-By (validate_and_extract_sub_domain_name p v request) (check_organization request)
        (host-By request)
        (λ fine. unless_refused-By fine (match_organization p v >>= check_path request) (
          then-By (match_organization p v) (check_path request) organization-By (λ matches.
            unless_refused-By matches (validate_and_decode_path p v request >>= λ _. pure tt) (
              then-By (validate_and_decode_path p v request) (λ _. pure tt) (path-By request)
                (λ _ s. Evolves-refl s.channel)))))

  pub on_request_start-By : (request : HttpRequest p) → By P (on_request_start p v request)
  unfolding on_request_start
  on_request_start-By request =
      catch-By (request_start p v request)
        (λ e. reply_500_internal_error p v.config (str "Could not process x402 request start."))
        (start-By request)
        (λ e. reply_500-By p v.config P refuses (str "Could not process x402 request start."))

  unless_error_sent-By :
      (state : ProcessorState) (rest : Exec (X402State p) (Unit {0}))
      → By P rest
      → By P (unless_error_sent p v state rest)
  unless_error_sent-By error_sent rest e = λ s. Evolves-refl s.channel
  unless_error_sent-By start rest e = e
  unless_error_sent-By reply_sent rest e = e

  too_large-By :
      (b : Bool)
      → By P (if b then reply_400_bad_request p v.config (body_too_large p v) else pure tt)
  too_large-By true = reply_400-By p v.config P refuses (body_too_large p v)
  too_large-By false = λ s. Evolves-refl s.channel

  pub on_body_size_increase-By : (size : ℕ) → By P (on_body_size_increase p v size)
  unfolding on_body_size_increase
  on_body_size_increase-By size s =
      unless_error_sent-By s.channel.state
        (if ltb max_body_size size
          then reply_400_bad_request p v.config (body_too_large p v)
          else pure tt)
        (too_large-By (ltb max_body_size size)) s

-- What asks the backend.
module _ (p : Platform) (v : Env p) where
  abbrev any_refusal : (n : ℕ) → 400 ≤ n → AnyStatus p v.config n
  any_refusal n h = tt

  abbrev ask :
      Text → HttpRequest p → Text → Exec (X402State p) (Option BackendError × BackendReply p)
  ask url request body s = (do_request p v.curl url s.method request.headers body, s)

  pass_back-By :
      (a : Option BackendError × BackendReply p) → By (AnyStatus p v.config) (pass_back p v a)
  pass_back-By (some error, reply) =
      reply_pass_through_error-By p v.config error reply.response_headers
  pass_back-By (none, reply) = λ s. answer-Evolves s.channel reply_sent _ reply_final tt

  sell_back-By :
      (r : SettlementResponse) (a : Option BackendError × BackendReply p)
      → By (AnyStatus p v.config) (sell_back p v r a)
  sell_back-By r (some error, reply) =
      reply_pass_through_error-By p v.config error reply.response_headers
  sell_back-By r (none, reply) =
      reply_x402_resource_success-By p v.config reply.http_status_code (original_json_to_base64 p r)
        reply.response_headers reply.response_body

  pass_through-By :
      (target : PassThroughConfig) (request : HttpRequest p) (body : Text)
      → By (AnyStatus p v.config) (pass_through p v target request body)
  unfolding pass_through
  pass_through-By target request body =
      let rest = ask (target.target_url ++ request.path) request body >>= pass_back p v in
      then-By (validate_method p v request) (λ fine. unless_refused p v fine rest)
        (method-By p v (AnyStatus p v.config) any_refusal request)
        (λ fine. unless_refused-By p v (AnyStatus p v.config) any_refusal fine rest (
          then-By (ask (target.target_url ++ request.path) request body) (pass_back p v)
            (λ s. Evolves-refl s.channel) pass_back-By))

  unmatched-By :
      (o : OrganizationConfig) (request : HttpRequest p) (body : Text)
      → By
          (AnyStatus p v.config)
          (handle_pass_throw_or_error_on_no_resource_match p v o request body)
  unfolding handle_pass_throw_or_error_on_no_resource_match do_pass_through
  unmatched-By o request body s = elim (Option-cases o.pass_through_config) [
    | inl e ↦
        rw (e, handle_pass_throw_or_error_on_no_resource_match)
          (reply_404-By p v.config (AnyStatus p v.config) any_refusal
            (str "Requested resource not found: " ++ s.decoded_path) s)
    | inr (target, e) ↦
        rw (e, handle_pass_throw_or_error_on_no_resource_match)
          (catch-By (pass_through p v target request body)
            (λ e.
              reply_500_internal_error p v.config (str "Could not process pass-through request."))
            (pass_through-By target request body)
            (λ e.
              reply_500-By p v.config (AnyStatus p v.config) any_refusal
                (str "Could not process pass-through request."))
            s)
  ]

  settled-By :
      (resource : ResourceConfig) (request : HttpRequest p) (body : Text)
      (r : Option Authorization × Settled)
      → By (AnyStatus p v.config) (serve_settled p v resource request body r)
  unfolding serve_settled
  settled-By resource request body (a, inr error) =
      send_settlement_error_response-By p v.config (AnyStatus p v.config) any_refusal a error
  settled-By resource request body (a, inl response) =
      then-By (ask resource.location request body) (sell_back p v response)
        (λ s. Evolves-refl s.channel) (sell_back-By response)

  abbrev pub settle_then_serve :
      OrganizationConfig → ResourceConfig → HttpRequest p → Text → Exec (X402State p) (Unit {0})
  settle_then_serve o resource request body =
      on_settlements p v
        (decode_pre_validate_and_settle_with_facilitator p v.payments request v.config resource o)
      >>= serve_settled p v resource request body

  abbrev pub unless_unpaid :
      OrganizationConfig
      → ResourceConfig
      → HttpRequest p
      → Text
      → Bool
      → Exec (X402State p) (Unit {0})
  unless_unpaid o resource request body unpaid =
      unless_refused p v (not unpaid) (settle_then_serve o resource request body)

  resource-By :
      (o : OrganizationConfig) (resource : ResourceConfig) (request : HttpRequest p) (body : Text)
      → By (AnyStatus p v.config) (serve_resource p v o resource request body)
  unfolding serve_resource
  resource-By o resource request body =
      let paid = reply_402_if_no_payment_header p v.config request.headers in
      then-By (validate_method p v request)
        (λ fine. unless_refused p v fine (paid >>= unless_unpaid o resource request body))
        (method-By p v (AnyStatus p v.config) any_refusal request)
        (λ fine.
          unless_refused-By p v (AnyStatus p v.config) any_refusal fine
            (paid >>= unless_unpaid o resource request body)
            (then-By paid (unless_unpaid o resource request body)
              (reply_402_if_no_payment_header-By p v.config (AnyStatus p v.config) any_refusal
                request.headers)
              (λ unpaid.
                unless_refused-By p v (AnyStatus p v.config) any_refusal (not unpaid)
                  (settle_then_serve o resource request body)
                  (then-By
                    (on_settlements p v (
                      decode_pre_validate_and_settle_with_facilitator p v.payments request v.config
                        resource o))
                    (serve_settled p v resource request body) (λ s. Evolves-refl s.channel)
                    (settled-By resource request body)))))

  serve-By :
      (o : OrganizationConfig) (r : Option ResourceConfig) (request : HttpRequest p) (body : Text)
      → By (AnyStatus p v.config) (serve p v o r request body)
  serve-By o none request body = unmatched-By o request body
  serve-By o (some resource) request body = resource-By o resource request body

  received-By :
      (request : HttpRequest p) (body : Text)
      → By (AnyStatus p v.config) (request_fully_received p v request body)
  unfolding request_fully_received
  received-By request body s = elim (Option-cases s.organization) [
    | inl e ↦ rw (e, request_fully_received) (Evolves-refl s.channel)
    | inr (o, e) ↦
        rw (e, request_fully_received)
          (serve-By o (get_resource_by_path o s.decoded_path) request body
            (record s { organization = some o; resource = get_resource_by_path o s.decoded_path }))
  ]

  pub on_request_fully_received-By :
      (request : HttpRequest p) (body : Text)
      → By (AnyStatus p v.config) (on_request_fully_received p v request body)
  unfolding on_request_fully_received
  on_request_fully_received-By request body s =
      let handler : Exception → Exec (X402State p) (Unit {0}) =
        λ e. reply_500_internal_error p v.config (str "Could not process x402 request.") in
      unless_error_sent-By p v (AnyStatus p v.config) any_refusal s.channel.state
        (try_catch (request_fully_received p v request body) handler)
        (catch-By (request_fully_received p v request body) handler (received-By request body) (λ e.
          reply_500-By p v.config (AnyStatus p v.config) any_refusal
            (str "Could not process x402 request.")))
        s
