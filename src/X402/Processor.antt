-- ===== src/X402/Processor.antt =====
-- src/x402_protocol/X402Processor.cpp: the checks on a request, and what is done once its body is
-- there. The events are noexcept: an exception that leaves one ends the program.
pub mod Evolving
pub mod Events
pub mod Leaves
pub mod Paid
use machinepal.Prelude.{
  ℕ, ◌+◌, ◌*◌, Text, str, List, [], ◌∷◌, ◌++◌, Bool, true, false, not, ltb, if◌then◌else◌, is_empty,
  Option, none, some, ◌⊎◌, inl, inr,
}
use machinepal.Result.{Result, ok, err, Exception}
use machinepal.Exec.{Exec, pure, lift, modify, try_catch, ◌>>=◌, ◌>>◌}
use machinepal.Platform.{Platform}
use machinepal.Http.{HttpMethod, get, post, head, options, put, delete, trace, other, HttpRequest}
use machinepal.Http.Channel.{error_sent, reply_sent, ProcessorState, start, is_reply_sent}
use machinepal.Config.Resources.{
  ResourceConfig, PassThroughConfig, OrganizationConfig, MachinePalConfig, get_resource_by_path,
  get_organization_by_subdomain_name,
}
use machinepal.Url.{UrlParser, decode_path}
use machinepal.Crypto.Domain.{Authorization}
use machinepal.Payment.Messages.{SettlementResponse, HttpError, original_json_to_base64}
use machinepal.Payment.Manager.{
  Settlements, Context, Settled, decode_pre_validate_and_settle_with_facilitator,
}
use machinepal.X402.Backend.{Curl, BackendError, BackendReply, do_request}
use machinepal.X402.Host.{extract_sub_domain_name}
use machinepal.X402.Responses.{
  X402State, checked, to_uint16, reply_with, reply_400_bad_request, reply_404_resource_not_found,
  reply_500_internal_error, reply_pass_through_error, reply_x402_resource_success,
  reply_402_if_no_payment_header, send_settlement_error_response,
}

pub record Env (p : Platform) : Type 0 where
  pub config : MachinePalConfig
  pub url : UrlParser
  pub curl : Curl
  pub payments : Context p

abbrev pub is_supported : HttpMethod → Bool
is_supported trace = false
is_supported other = false
is_supported _ = true

-- constexpr size_t MAX_BODY_SIZE
abbrev pub max_body_size : ℕ
max_body_size = 1024 * 1024

module _ (p : Platform) (v : Env p) where
  abbrev pub Run : Type 0 → Type 0
  Run A = Exec (X402State p) A

  -- A refusal of a check: the reply 400, and false.
  abbrev pub refuse : Text → Run Bool
  refuse message = do reply_400_bad_request p v.config message; pure false

  unfoldable pub validate_and_extract_sub_domain_name : HttpRequest p → Run Bool
  validate_and_extract_sub_domain_name request =
      elim (extract_sub_domain_name v.url v.config.host_name
        (p.get_single_or_empty request.headers (str "host"))) [
          | inr message ↦ refuse message
          | inl sub_domain ↦ do modify (λ s. record s { sub_domain_name = sub_domain }); pure true
        ]

  unfoldable pub validate_and_decode_path : HttpRequest p → Run Bool
  validate_and_decode_path request = elim (decode_path v.url request.path) [
    | inr message ↦ refuse message
    | inl path ↦ do modify (λ s. record s { decoded_path = path }); pure true
  ]

  unfoldable pub unknown_subdomain : Text → Text
  unknown_subdomain sub_domain =
      str "Unknown subdomain  "
      ++ (sub_domain
          ++ (str "."
              ++ (v.config.host_name
                  ++ str
                      " Please use a valid subdomain specified in machinepal config (like localhost or xyz.com) to access this service.")))

  abbrev matched : Text → Option OrganizationConfig → Run Bool
  matched sub_domain none = refuse (unknown_subdomain sub_domain)
  matched sub_domain (some o) = pure true

  unfoldable pub match_organization : Run Bool
  match_organization s =
      let found = get_organization_by_subdomain_name v.config s.sub_domain_name in
      matched s.sub_domain_name found (record s { organization = found })

  unfoldable pub validate_method : HttpRequest p → Run Bool
  validate_method request = elim request.method [
    | none ↦ refuse (str "Missing HTTP method")
    | some m ↦ do
      modify (λ s. record s { method = m })
      if is_supported m
          then pure true
          else refuse (str "Unsupported HTTP method." ++ request.method_string)
  ]

  abbrev unless_refused : Bool → Run (Unit {0}) → Run (Unit {0})
  unless_refused true rest = rest
  unless_refused false rest = pure tt

  unfoldable pub request_start : HttpRequest p → Run (Unit {0})
  request_start request = do
    host_fine ← validate_and_extract_sub_domain_name request
    unless_refused host_fine (do
      matches ← match_organization
      unless_refused matches (do path_fine ← validate_and_decode_path request; pure tt))

  unfoldable pub on_request_start : HttpRequest p → Run (Unit {0})
  on_request_start request =
      try_catch (request_start request)
        (λ e. reply_500_internal_error p v.config (str "Could not process x402 request start."))

  -- What is done with the backend's answer where nothing is charged.
  abbrev pub pass_back : Option BackendError × BackendReply p → Run (Unit {0})
  pass_back (some error, reply) = reply_pass_through_error p v.config error reply.response_headers
  pass_back (none, reply) =
      reply_with p v.config reply_sent (to_uint16 reply.http_status_code)
        (p.get_default_reason (to_uint16 reply.http_status_code)) reply.response_headers
        reply.response_body

  unfoldable pub pass_through : PassThroughConfig → HttpRequest p → Text → Run (Unit {0})
  pass_through target request request_body = do
    fine ← validate_method request
    unless_refused fine (do
      answer ← λ s. (
        do_request p v.curl (target.target_url ++ request.path) s.method request.headers
            request_body,
        s,
      )
      pass_back answer)

  unfoldable pub do_pass_through : PassThroughConfig → HttpRequest p → Text → Run (Unit {0})
  do_pass_through target request request_body =
      try_catch (pass_through target request request_body)
        (λ e. reply_500_internal_error p v.config (str "Could not process pass-through request."))

  unfoldable pub handle_pass_throw_or_error_on_no_resource_match :
      OrganizationConfig → HttpRequest p → Text → Run (Unit {0})
  handle_pass_throw_or_error_on_no_resource_match organization request body =
      elim organization.pass_through_config [
        | some target ↦ do_pass_through target request body
        | none ↦ λ s.
            reply_404_resource_not_found p v.config
              (str "Requested resource not found: " ++ s.decoded_path) s
      ]

  -- app_.paymentManager()->…, on the payments that the processors share
  abbrev on_settlements : {A : Type 0} → Exec (Settlements p) A → Run A
  on_settlements m s = let after = m s.settlements in (after.0, record s { settlements = after.1 })

  -- A priced resource whose payment has been settled.
  abbrev pub sell_back : SettlementResponse → Option BackendError × BackendReply p → Run (Unit {0})
  sell_back settlement (some error, reply) =
      reply_pass_through_error p v.config error reply.response_headers
  sell_back settlement (none, reply) =
      reply_x402_resource_success p v.config reply.http_status_code
        (original_json_to_base64 p settlement) reply.response_headers reply.response_body

  unfoldable pub serve_settled :
      ResourceConfig → HttpRequest p → Text → Option Authorization × Settled → Run (Unit {0})
  serve_settled resource request body (authorization, inr error) =
      send_settlement_error_response p v.config authorization error
  serve_settled resource request body (authorization, inl settlement) = do
    answer ← λ s. (do_request p v.curl resource.location s.method request.headers body, s)
    sell_back settlement answer

  unfoldable pub serve_resource :
      OrganizationConfig → ResourceConfig → HttpRequest p → Text → Run (Unit {0})
  serve_resource organization resource request body = do
    fine ← validate_method request
    unless_refused fine (do
      unpaid ← reply_402_if_no_payment_header p v.config request.headers
      unless_refused (not unpaid) (do
        result ← on_settlements (
            decode_pre_validate_and_settle_with_facilitator p v.payments request v.config resource
              organization)
        serve_settled resource request body result))

  abbrev serve : OrganizationConfig → Option ResourceConfig → HttpRequest p → Text → Run (Unit {0})
  serve organization none request body =
      handle_pass_throw_or_error_on_no_resource_match organization request body
  serve organization (some resource) request body =
      serve_resource organization resource request body

  unfoldable pub request_fully_received : HttpRequest p → Text → Run (Unit {0})
  request_fully_received request body = do
    organization ← λ s. (checked (str "organization_") s.organization, s)
    path ← λ s. (ok s.decoded_path, s)
    modify (λ s. record s { resource = get_resource_by_path organization path })
    serve organization (get_resource_by_path organization path) request body

  abbrev unless_error_sent : ProcessorState → Run (Unit {0}) → Run (Unit {0})
  unless_error_sent error_sent rest = pure tt
  unless_error_sent start rest = rest
  unless_error_sent reply_sent rest = rest

  unfoldable pub on_request_fully_received : HttpRequest p → Text → Run (Unit {0})
  on_request_fully_received request body s =
      unless_error_sent s.channel.state
        (try_catch (request_fully_received request body)
          (λ e. reply_500_internal_error p v.config (str "Could not process x402 request.")))
        s

  unfoldable pub body_too_large : Text
  body_too_large =
      str
        "Request body too large. Maximum allowed is 1MByte. You can increase this limit in machinepal config if needed."

  unfoldable pub on_body_size_increase : ℕ → Run (Unit {0})
  on_body_size_increase new_size s =
      unless_error_sent s.channel.state
        (if ltb max_body_size new_size
          then reply_400_bad_request p v.config body_too_large
          else pure tt)
        s
