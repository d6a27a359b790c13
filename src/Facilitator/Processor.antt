-- ===== src/Facilitator/Processor.antt =====
-- src/x402_protocol/FacilitatorProcessor.cpp: the HTTP side of the facilitator.
pub mod Reaching
use machinepal.Prelude.{
  ℕ, ◌+◌, ◌*◌, Text, str, List, [], ◌∷◌, ◌++◌, Bool, true, false, ◌&&◌, ◌||◌, not, ltb, ◌==◌,
  if◌then◌else◌, text_eq, starts_with, Option, none, some,
}
use machinepal.Result
use machinepal.Result.{Result, ok, err, Exception, check_state}
use machinepal.Exec.{Exec, pure, lift, modify, try_catch, ◌>>=◌, ◌>>◌}
use machinepal.Platform.{Platform}
use machinepal.Http.{HttpMethod, get, post, head, options, put, delete, trace, other, HttpRequest}
use machinepal.Http.Channel.{Channel, ProcessorState, error_sent, reply_sent, is_reply_sent, answer}
use machinepal.Db.EasyNet.Tables.{Tables}
use machinepal.X402.Responses.{get_application_json_headers, plain_error_body}
use machinepal.Facilitator.EasyNet.{EasyNet, process_settle_request, process_verify_request}

-- A processor, with the tables that all of them share.
pub record FacilitatorState (p : Platform) : Type 0 where
  pub channel : Channel p
  pub path : Text
  pub tables : Tables

unfoldable pub easynet_facilitator_prefix : Text
easynet_facilitator_prefix = str "/machinepal-facilitator-easynet"

unfoldable pub settle_path : Text
unfolding easynet_facilitator_prefix
settle_path = easynet_facilitator_prefix ++ str "/settle"

unfoldable pub verify_path : Text
unfolding easynet_facilitator_prefix
verify_path = easynet_facilitator_prefix ++ str "/verify"

-- contentType.erase( 0, contentType.find_first_not_of( " \t" ) ); of nothing but blanks all goes
unfoldable pub trim_left : Text → Text
trim_left [] = []
trim_left (c ∷ t) = if c == 32 || c == 9 then trim_left t else c ∷ t

abbrev pub is_post : Option HttpMethod → Bool
is_post (some post) = true
is_post _ = false

abbrev pub max_body_size : ℕ
max_body_size = 1024 * 1024

module _ (p : Platform) where
  abbrev pub Run : Type 0 → Type 0
  Run A = Exec (FacilitatorState p) A

  abbrev reply_with : ProcessorState → ℕ → Text → p.Headers → Text → Run (Unit {0})
  reply_with state status reason headers body = modify (λ s. record s {
    channel =
        answer state (record { status = status; reason = reason; headers = headers; body = body })
          s.channel;
  })

  abbrev reply_error : ℕ → Text → p.Headers → Text → Run (Unit {0})
  reply_error status reason headers message = do
    body ← lift (plain_error_body p message)
    reply_with error_sent status reason headers body

  unfoldable pub reply_400_bad_request : Text → Run (Unit {0})
  reply_400_bad_request message =
      reply_error 400 (str "Bad request") (get_application_json_headers p) message

  unfoldable pub reply_500_internal_error : Text → Run (Unit {0})
  reply_500_internal_error message =
      reply_error 500 (str "Server Error") (get_application_json_headers p) message

  unfoldable pub reply_405_method_not_allowed : Text → Run (Unit {0})
  reply_405_method_not_allowed message =
      reply_error 405 (str "Method Not Allowed")
        (p.add (get_application_json_headers p) (str "Allow") (str "POST")) message

  unfoldable pub reply_413_payload_too_large : Text → Run (Unit {0})
  reply_413_payload_too_large message =
      reply_error 413 (str "Payload Too Large") (get_application_json_headers p) message

  unfoldable pub reply_415_unsupported_media_type : Text → Run (Unit {0})
  reply_415_unsupported_media_type message =
      reply_error 415 (str "Unsupported Media Type")
        (p.add (get_application_json_headers p) (str "Accept-Post") (str "application/json"))
        message

  unfoldable pub is_json : HttpRequest p → Bool
  unfolding trim_left
  is_json request =
      starts_with (trim_left (p.get_single_or_empty request.headers (str "Content-Type")))
        (str "application/json")

  unfoldable pub is_endpoint : Text → Bool
  unfolding settle_path verify_path
  is_endpoint path = text_eq path settle_path || text_eq path verify_path

  unfoldable pub request_start : HttpRequest p → Run (Unit {0})
  request_start request =
      if not (is_post request.method)
      then reply_405_method_not_allowed (str "Only POST method is allowed.")
      else if not (is_json request)
      then reply_415_unsupported_media_type (str "Content-Type must be application/json.")
      else if not (is_endpoint request.path)
      then reply_400_bad_request (str "Invalid endpoint. Use settle or verify.")
      else modify (λ s. record s { path = request.path })

  unfoldable pub on_request_start : HttpRequest p → Run (Unit {0})
  on_request_start request =
      try_catch (request_start request)
        (λ e. reply_500_internal_error (str "Could not process x402 request start."))

  unfoldable pub on_body_size_increase : ℕ → Run (Unit {0})
  on_body_size_increase new_size s =
      if is_reply_sent s.channel.state
      then (ok tt, s)
      else if ltb max_body_size new_size
      then reply_413_payload_too_large
          (str
            "Request body too large. Maximum allowed is 1MByte. You can increase this limit in machinepal config if needed.")
          s
      else (ok tt, s)

  module _ (f : EasyNet) where
    -- The facilitator's answer to the parsed body.
    unfoldable pub ask_facilitator : p.Json → Run p.Json
    unfolding settle_path verify_path
    ask_facilitator json_body s =
        if text_eq s.path settle_path
        then (let after = process_settle_request p f json_body s.tables in
            (after.0, record s { tables = after.1 }))
        else (
          Result.◌>>◌ (check_state (text_eq s.path verify_path) (str "path_ == VERIFY_PATH"))
              (process_verify_request p f json_body s.tables),
          s,
        )

    -- A body that parses.
    unfoldable pub answer_json : p.Json → Run (Unit {0})
    answer_json json_body = do
      result ← ask_facilitator json_body
      response_body ← lift (p.dump result)
      reply_with reply_sent 200 (str "OK") (get_application_json_headers p) response_body

    unfoldable pub request_fully_received : Text → Run (Unit {0})
    request_fully_received body = elim (p.parse body) [
      | err e ↦ reply_400_bad_request (str "Invalid JSON in request body.")
      | ok json_body ↦ answer_json json_body
    ]

    unfoldable pub on_request_fully_received : Text → Run (Unit {0})
    on_request_fully_received body s =
        if is_reply_sent s.channel.state
        then (ok tt, s)
        else try_catch (request_fully_received body)
            (λ e. reply_500_internal_error (str "Could not process settlement request.")) s
