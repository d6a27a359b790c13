-- ===== src/X402/Processor/Events.antt =====
-- Sequences of events on one X402Processor, in any order.
use machinepal.Prelude.{
  ℕ, ◌≤◌, ◌≡◌, refl, ◌∙◌, ap, Text, List, [], ◌∷◌, length, ◌⊎◌, inl, inr, arith,
}
use machinepal.Platform.{Platform}
use machinepal.Http.{HttpRequest, HttpResponse}
use machinepal.Http.Channel.{Channel, drop_sender}
use machinepal.Http.Channel.Evolves.{IsSent, Evolves}
use machinepal.X402.Responses.{X402State}
use machinepal.X402.Responses.Evolving.{AnyStatus}
use machinepal.X402.Processor.{
  Env, on_request_start, on_request_fully_received, on_body_size_increase,
}
use machinepal.X402.Processor.Evolving.{
  on_request_start-By, on_body_size_increase-By, on_request_fully_received-By,
}

-- The calls of X402Handler, and the loss of the connection.
pub data Event (p : Platform) : Type 0 where
  request_started : HttpRequest p → Event p
  body_grew : ℕ → Event p
  fully_received : HttpRequest p → Text → Event p
  connection_lost : Event p

module _ (p : Platform) (v : Env p) where
  unfoldable pub handle : Event p → X402State p → X402State p
  handle (request_started request) s = (on_request_start p v request s).1
  handle (body_grew size) s = (on_body_size_increase p v size s).1
  handle (fully_received request body) s = (on_request_fully_received p v request body s).1
  handle connection_lost s = record s { channel = drop_sender s.channel }

  unfoldable pub handle_all : List (Event p) → X402State p → X402State p
  handle_all [] s = s
  handle_all (e ∷ events) s = handle_all events (handle e s)

  handle-Evolves :
      (e : Event p) (s : X402State p)
      → Evolves (AnyStatus p v.config) s.channel (handle e s).channel
  unfolding handle drop_sender
  handle-Evolves (request_started request) s =
      on_request_start-By p v (AnyStatus p v.config) (λ n h. tt) request s
  handle-Evolves (body_grew size) s =
      on_body_size_increase-By p v (AnyStatus p v.config) (λ n h. tt) size s
  handle-Evolves (fully_received request body) s = on_request_fully_received-By p v request body s
  handle-Evolves connection_lost s = record { closed = λ h. (h, refl); hands = inl refl }

  -- Nothing has been handed over, or one response and the reply counts as sent.
  abbrev AtMostOne : Channel p → Type 0
  AtMostOne c = (c.handed ≡ []) ⊎ (IsSent c × (r : HttpResponse p) × (c.handed ≡ r ∷ []))

  evolved : (c d : Channel p) → Evolves (AnyStatus p v.config) c d → AtMostOne c → AtMostOne d
  evolved c d e (inl none) = elim e.hands [
    | inl same ↦ inl (same ∙ none)
    | inr (sent, r, _, more) ↦ inr (sent, r, more ∙ ap (λ l. r ∷ l) none)
  ]
  evolved c d e (inr (sent, r, one)) =
      let (sent', same) = e.closed sent in inr (sent', r, same ∙ one)

  all_evolved :
      (events : List (Event p)) (s : X402State p)
      → AtMostOne s.channel
      → AtMostOne (handle_all events s).channel
  unfolding handle_all
  all_evolved [] s a = a
  all_evolved (e ∷ events) s a =
      all_evolved events (handle e s)
        (evolved s.channel (handle e s).channel (handle-Evolves e s) a)

  length-AtMostOne : (c : Channel p) → AtMostOne c → length c.handed ≤ 1
  length-AtMostOne c (inl none) = omega (arith, ap length none)
  length-AtMostOne c (inr (sent, r, one)) = omega (arith, ap length one)

-- Whatever events a processor gets, in whatever order, it hands over at most one response: a start,
-- the growth of the body, its end and the loss of the connection can come any number of times.
pub handle_all-at_most_one :
    (p : Platform) (v : Env p) (events : List (Event p)) (s : X402State p)
    → s.channel.handed ≡ []
    → length (handle_all p v events s).channel.handed ≤ 1
handle_all-at_most_one p v events s none =
    length-AtMostOne p v (handle_all p v events s).channel (all_evolved p v events s (inl none))
