-- ===== src/Facilitator/Processor/Reaching.antt =====
-- Which requests reach the facilitator (FacilitatorProcessor).
use machinepal.Prelude.{
  ◌≡◌, ◌≢◌, ◌∙◌, sym, ap, Text, true, false, text_eq, text_eq_iff, ◌⊎◌, inl, inr, Bool-cases, arith,
}
use machinepal.Result.{ok, Result-cases}
use machinepal.Platform.{Platform}
use machinepal.Http.{HttpRequest}
use machinepal.Http.Channel.{is_reply_sent, answer}
use machinepal.Facilitator.EasyNet.{EasyNet, process_settle_request}
use machinepal.Facilitator.EasyNet.Settling.{IsAuthorized, process_settle_request-IsAuthorized}
use machinepal.Facilitator.Processor.{
  FacilitatorState, settle_path, is_post, is_json, request_start, on_request_start,
  reply_400_bad_request, reply_405_method_not_allowed, reply_415_unsupported_media_type,
  reply_500_internal_error, ask_facilitator, answer_json, request_fully_received,
  on_request_fully_received,
}

module _ (p : Platform) where
  -- What a start leaves: a reply, or a path that is an endpoint.
  started :
      (request : HttpRequest p) (s : FacilitatorState p)
      → (on_request_start p request s).0 ≡ ok tt
      → is_reply_sent (on_request_start p request s).1.channel.state ≡ false
      → (is_post request.method ≡ true)
        × (is_json p request ≡ true)
        × ((on_request_start p request s).1 ≡ record s { path = request.path })
  unfolding on_request_start request_start reply_400_bad_request reply_405_method_not_allowed
      reply_415_unsupported_media_type reply_500_internal_error answer is_reply_sent
  started request s done h = ground arith

  started_tables :
      (request : HttpRequest p) (s : FacilitatorState p)
      → (on_request_start p request s).1.tables ≡ s.tables
  unfolding on_request_start request_start reply_400_bad_request reply_405_method_not_allowed
      reply_415_unsupported_media_type reply_500_internal_error
  started_tables request s = ground arith

  module _ (f : EasyNet) where
    asked_tables :
        (j : p.Json) (s : FacilitatorState p)
        → (ask_facilitator p f j s).1.tables ≢ s.tables
        → (s.path ≡ settle_path) × ((process_settle_request p f j s.tables).1 ≢ s.tables)
    unfolding ask_facilitator
    asked_tables j s moved = elim (Bool-cases (text_eq s.path settle_path)) [
      | inl same ↦ ((text_eq_iff s.path settle_path).0 same, rw (same, ask_facilitator) at moved)
      | inr differs ↦ absurd (moved (rw (differs, ask_facilitator)))
    ]

    answered_tables :
        (j : p.Json) (s : FacilitatorState p)
        → (answer_json p f j s).1.tables ≡ (ask_facilitator p f j s).1.tables
    unfolding answer_json
    answered_tables j s = ground arith

    received_tables :
        (body : Text) (s : FacilitatorState p)
        → ((on_request_fully_received p f body s).1.tables ≡ s.tables)
          ⊎ ((j : p.Json) × (p.parse body ≡ ok j)
              × ((on_request_fully_received p f body s).1.tables ≡ (answer_json p f j s).1.tables))
    unfolding on_request_fully_received request_fully_received reply_400_bad_request
        reply_500_internal_error
    received_tables body s = elim (Result-cases (p.parse body)) [
      | inr (x, e) ↦ inl (ground (arith, e))
      | inl (j, e) ↦ elim (Bool-cases (is_reply_sent s.channel.state)) [
        | inl sent ↦ inl (rw (sent, on_request_fully_received))
        | inr free ↦ inr (j, e, ground (arith, e, free))
      ]
    ]

    closed :
        (body : Text) (s : FacilitatorState p)
        → is_reply_sent s.channel.state ≡ true
        → (on_request_fully_received p f body s).1 ≡ s
    unfolding on_request_fully_received
    closed body s sent = rw (sent, on_request_fully_received)

    received_moves :
        (body : Text) (s : FacilitatorState p)
        → (on_request_fully_received p f body s).1.tables ≢ s.tables
        → (j : p.Json) × (p.parse body ≡ ok j) × (s.path ≡ settle_path) × IsAuthorized p f j
    received_moves body s moved = elim (received_tables body s) [
      | inl same ↦ absurd (moved same)
      | inr (j, parsed, same) ↦
          let (path, changed) = asked_tables j s (λ e. moved (same ∙ (answered_tables j s ∙ e))) in
          (j, parsed, path, process_settle_request-IsAuthorized p f j s.tables changed)
    ]

-- The tables change through the facilitator's endpoint only where the start of the request ended
-- without an exception, the request is a POST of application/json to exactly the path of
-- settlements, and its body parses to a settlement request whose payment is acceptable.
pub on_request_fully_received-IsAuthorized :
    (p : Platform) (f : EasyNet) (request : HttpRequest p) (body : Text) (s : FacilitatorState p)
    → (on_request_start p request s).0 ≡ ok tt
    → (on_request_fully_received p f body (on_request_start p request s).1).1.tables ≢ s.tables
    → (is_post request.method ≡ true)
      × (is_json p request ≡ true)
      × (request.path ≡ settle_path)
      × ((j : p.Json) × (p.parse body ≡ ok j) × IsAuthorized p f j)
on_request_fully_received-IsAuthorized p f request body s done moved =
    let s1 = (on_request_start p request s).1 in
    elim (Bool-cases (is_reply_sent s1.channel.state)) [
      | inl sent ↦
          absurd (moved (ap (λ t. t.tables) (closed p f body s1 sent) ∙ started_tables p request s))
      | inr unsent ↦
          let (posted, typed, same) = started p request s done unsent in
          let (j, parsed, path, authorized) =
            received_moves p f body s1 (λ e. moved (e ∙ started_tables p request s)) in
          (posted, typed, sym (ap (λ t. t.path) same) ∙ path, (j, parsed, authorized))
    ]
