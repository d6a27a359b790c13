-- ===== src/Server/Handler/Bounds.antt =====
-- The size of the bodies that a processor is given (X402Handler::onBody and onEOM).
use machinepal.Prelude.{
  ℕ, ◌≤◌, ◌<◌, ◌≡◌, refl, ◌∙◌, sym, ap, subst, Text, List, [], ◌∷◌, ◌++◌, Bool, true, false, length,
  if◌then◌else◌, All, Option, none, some, ◌⊎◌, inl, inr, Bool-cases, ltb, arith,
}
use machinepal.Result.{Result, ok, err}
use machinepal.Platform.{Platform}
use machinepal.Http.{HttpRequest}
use machinepal.X402.Processor.{max_body_size}
use machinepal.Server.Handler.{
  Processor, Handler, on_request, on_body, on_eom, send_internal_error, finish, finish_noexcept,
  add_chunk,
}

-- The callbacks of proxygen on one handler.
pub data Callback (p : Platform) : Type 0 where
  request_came : HttpRequest p → Callback p
  body_came : Option Text → Callback p
  end_came : HttpRequest p → Callback p

true_ne_false : ◌≡◌ {A = Bool} true false → ⊥
true_ne_false h = cc

module _ {p : Platform} (i : Processor p) where
  unfoldable pub call : Callback p → Handler i → Handler i
  call (request_came request) h = on_request i request h
  call (body_came chunk) h = on_body i chunk h
  call (end_came request) h = on_eom i request h

  unfoldable pub call_all : List (Callback p) → Handler i → Handler i
  call_all [] h = h
  call_all (c ∷ callbacks) h = call_all callbacks (call c h)

  abbrev pub IsSmall : Text → Type 0
  IsSmall body = length body ≤ max_body_size

  -- The buffer is small, or nothing is added to it or handed on any more.
  abbrev Guarded : Handler i → Type 0
  Guarded h =
      IsSmall h.body_buffer
      ⊎ ((h.internal_error_sent ≡ true) ⊎ (i.is_reply_sent h.processor ≡ true))

  abbrev Fine : Handler i → Type 0
  Fine h = Guarded h × All IsSmall h.received

  finished_small :
      (h : Handler i) (m : Result (Unit {0}) × i.State)
      → IsSmall h.body_buffer
      → All IsSmall h.received
      → Fine (finish i h m)
  unfolding send_internal_error
  finished_small h (ok u, s) small all_small = (inl small, all_small)
  finished_small h (err e, s) small all_small = (inl small, all_small)

  ended_small :
      (h : Handler i) (m : Result (Unit {0}) × i.State)
      → IsSmall h.body_buffer
      → All IsSmall h.received
      → Fine (finish_noexcept i h m)
  ended_small h (ok u, s) small all_small = (inl small, all_small)
  ended_small h (err e, s) small all_small = (inl small, all_small)

  ended_sent :
      (h : Handler i) (m : Result (Unit {0}) × i.State)
      → i.is_reply_sent m.1 ≡ true
      → All IsSmall h.received
      → Fine (finish_noexcept i h m)
  ended_sent h (ok u, s) sent all_small = (inr (inr sent), all_small)
  ended_sent h (err e, s) sent all_small = (inr (inr sent), all_small)

  finished_large :
      (h : Handler i) (size : ℕ) (s : i.State) (m : Result (Unit {0}) × i.State)
      → i.on_body_size_increase size s ≡ m
      → max_body_size < size
      → i.is_reply_sent s ≡ false
      → All IsSmall h.received
      → Fine (finish i h m)
  unfolding send_internal_error
  finished_large h size s (ok u, s') e large unsent all_small =
      let sent = i.large-is_reply_sent size s large unsent (ap (λ m. m.0) e) in
      (inr (inr (ap (λ m. i.is_reply_sent m.1) (sym e) ∙ sent)), all_small)
  finished_large h size s (err x, s') e large unsent all_small = (inr (inl refl), all_small)

  chunk_fine :
      (chunk : Text) (h : Handler i)
      → i.is_reply_sent h.processor ≡ false
      → All IsSmall h.received
      → Fine (add_chunk i chunk h)
  chunk_fine chunk h unsent all_small =
      let buffer = h.body_buffer ++ chunk in
      let h' : Handler i = record h { body_buffer = buffer } in
      elim (Bool-cases (ltb max_body_size (length buffer))) [
        | inl large ↦
            finished_large h' (length buffer) h.processor _ refl (ground arith) unsent all_small
        | inr small ↦ finished_small h' _ (ground arith) all_small
      ]

  -- Where the handler still works, the buffer is small.
  still-IsSmall :
      (h : Handler i)
      → Guarded h
      → h.internal_error_sent ≡ false
      → i.is_reply_sent h.processor ≡ false
      → IsSmall h.body_buffer
  still-IsSmall h (inl small) a b = small
  still-IsSmall h (inr (inl sent)) a b = absurd (true_ne_false (sym sent ∙ a))
  still-IsSmall h (inr (inr sent)) a b = absurd (true_ne_false (sym sent ∙ b))

  -- The guards, where the program runs, the handler has not failed, and no reply has been sent.
  running :
      (h : Handler i) (rest : Handler i)
      → Fine h
      → Fine rest
      → Fine (if h.terminated then h else rest)
  running h rest f g = elim (Bool-cases h.terminated) [
    | inl over ↦ subst Fine (sym (ap (λ b. if b then h else rest) over)) f
    | inr free ↦ subst Fine (sym (ap (λ b. if b then h else rest) free)) g
  ]

  guarded :
      (h : Handler i) (rest : Handler i)
      → Fine h
      → (h.internal_error_sent ≡ false → Fine rest)
      → Fine (if h.internal_error_sent then h else rest)
  guarded h rest f g = elim (Bool-cases h.internal_error_sent) [
    | inl over ↦ subst Fine (sym (ap (λ b. if b then h else rest) over)) f
    | inr free ↦ subst Fine (sym (ap (λ b. if b then h else rest) free)) (g free)
  ]

  unless_sent :
      (h : Handler i) (rest : Handler i)
      → Fine h
      → (i.is_reply_sent h.processor ≡ false → Fine rest)
      → Fine (if i.is_reply_sent h.processor then h else rest)
  unless_sent h rest f g = elim (Bool-cases (i.is_reply_sent h.processor)) [
    | inl sent ↦ subst Fine (sym (ap (λ b. if b then h else rest) sent)) f
    | inr unsent ↦ subst Fine (sym (ap (λ b. if b then h else rest) unsent)) (g unsent)
  ]

  started_fine : (request : HttpRequest p) (h : Handler i) → Fine h → Fine (on_request i request h)
  unfolding on_request
  started_fine request h (g, all_small) =
      let rest = finish_noexcept i h (i.on_request_start request h.processor) in
      running h (if h.internal_error_sent then h else rest) (g, all_small)
        (guarded h rest (g, all_small)
          (λ free. elim g [
            | inl small ↦ ended_small h (i.on_request_start request h.processor) small all_small
            | inr (inl over) ↦ absurd (true_ne_false (sym over ∙ free))
            | inr (inr sent) ↦
                ended_sent h (i.on_request_start request h.processor)
                  (i.start-is_reply_sent request h.processor sent) all_small
          ]))

  body_fine : (chunk : Text) (h : Handler i) → Fine h → Fine (on_body i (some chunk) h)
  unfolding on_body
  body_fine chunk h (g, all_small) =
      let unless = if i.is_reply_sent h.processor then h else add_chunk i chunk h in
      running h (if h.internal_error_sent then h else unless) (g, all_small)
        (guarded h unless (g, all_small)
          (λ free.
            unless_sent h (add_chunk i chunk h) (g, all_small)
              (λ unsent. chunk_fine chunk h unsent all_small)))

  end_fine : (request : HttpRequest p) (h : Handler i) → Fine h → Fine (on_eom i request h)
  unfolding on_eom
  end_fine request h (g, all_small) =
      let rest =
        finish_noexcept i (record h { received = h.body_buffer ∷ h.received })
          (i.on_request_fully_received request h.body_buffer h.processor) in
      let unless = if i.is_reply_sent h.processor then h else rest in
      running h (if h.internal_error_sent then h else unless) (g, all_small)
        (guarded h unless (g, all_small)
          (λ free.
            unless_sent h rest (g, all_small)
              (λ unsent.
                let small = still-IsSmall h g free unsent in
                ended_small (record h { received = h.body_buffer ∷ h.received })
                  (i.on_request_fully_received request h.body_buffer h.processor) small
                  (small, all_small))))

  call_fine : (c : Callback p) (h : Handler i) → Fine h → Fine (call c h)
  unfolding call on_body
  call_fine (request_came request) h f = started_fine request h f
  call_fine (body_came none) h f = f
  call_fine (body_came (some chunk)) h f = body_fine chunk h f
  call_fine (end_came request) h f = end_fine request h f

  all_fine : (callbacks : List (Callback p)) (h : Handler i) → Fine h → Fine (call_all callbacks h)
  unfolding call_all
  all_fine [] h f = f
  all_fine (c ∷ callbacks) h f = all_fine callbacks (call c h) (call_fine c h f)

-- Whatever the chunks and in whatever order the callbacks come, the bodies that a new handler gives
-- to its processor are at most 1 MiB long.
pub call_all-IsSmall :
    {p : Platform} (i : Processor p) (callbacks : List (Callback p)) (h : Handler i)
    → h.body_buffer ≡ []
    → h.received ≡ []
    → All (IsSmall i) (call_all i callbacks h).received
call_all-IsSmall i callbacks h empty nothing =
    (all_fine i callbacks h (inl (omega (arith, ap length empty)), rw nothing tt)).1
