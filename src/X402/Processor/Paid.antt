-- ===== src/X402/Processor/Paid.antt =====
-- When a priced resource is served (X402Processor::onRequestFullyReceived).
use machinepal.Prelude.{
  ℕ, ◌≤◌, ◌<◌, ◌≡◌, refl, ◌∙◌, sym, ap, subst, Text, str, List, ◌∷◌, length, Bool, true, false, not,
  Option, some, ◌⊎◌, inl, inr, arith,
}
use machinepal.Result.{Result, ok, err, Exception, Result-cases}
use machinepal.Exec.{Exec, continue, recover, try_catch, ◌>>=◌}
use machinepal.Platform.{Platform}
use machinepal.Http.{HttpRequest, HttpResponse}
use machinepal.Http.Channel.{Channel, ProcessorState, start, error_sent, reply_sent}
use machinepal.Http.Channel.Evolves.{Evolves, Evolves-refl, Evolves-trans}
use machinepal.Config.Resources.{ResourceConfig, OrganizationConfig, get_resource_by_path}
use machinepal.Crypto.Domain.{Authorization}
use machinepal.Db.Payments.{payment_key}
use machinepal.Db.Payments.Unique.{HasGained}
use machinepal.Payment.Payload.{PaymentPayload}
use machinepal.Payment.Payload.Validation.{IsAcceptable}
use machinepal.Payment.Messages.{SettlementResponse}
use machinepal.Payment.Manager.{
  Settlements, Settled, decode_and_parse_payment, decode_pre_validate_and_settle_with_facilitator,
}
use machinepal.Payment.Manager.Entry.{decode_pre_validate_and_settle_with_facilitator-settled}
use machinepal.X402.Backend.{do_request}
use machinepal.X402.Responses.{X402State, reply_500_internal_error, reply_402_if_no_payment_header}
use machinepal.X402.Responses.Evolving.{
  reply_500-By, reply_402_if_no_payment_header-By, send_settlement_error_response-By,
}
use machinepal.X402.Processor.{
  Env, validate_method, unless_refused, serve_settled, serve_resource, request_fully_received,
  unless_error_sent, on_request_fully_received,
}
use machinepal.X402.Processor.Evolving.{method-By, settle_then_serve, unless_unpaid}
use machinepal.X402.Processor.Leaves.{
  Leaves, reply_500-Leaves, method-Leaves, reply_402_if_no_payment_header-Leaves, sell_back-Leaves,
}

head_same {ℓ} : {A : Type ℓ} {x y : A} {l : List A} → x ∷ l ≡ y ∷ l → x ≡ y
head_same h = cc

abbrev pub IsError : ℕ → Type 0
IsError n = 400 ≤ n

module _ (p : Platform) (v : Env p) (resource : ResourceConfig) (request : HttpRequest p) where
  -- The payment of the request was acceptable and has been settled.
  pub record IsPaid (before after : Settlements p) : Type 0 where
    pub payment : PaymentPayload
    pub carried : decode_and_parse_payment p request ≡ inl payment
    pub acceptable :
        IsAcceptable p v.payments.clock v.config resource.price v.config.network.wallet_address
          resource.payment_scheme payment
    pub gained :
        HasGained
          (payment_key p payment v.config.network.eip712_domain)
          before.payments
          after.payments

  -- Either the request has been paid for, or what was handed over is an error.
  abbrev PaidOrError : X402State p → X402State p → Type 0
  PaidOrError s s' = IsPaid s.settlements s'.settlements ⊎ Evolves IsError s.channel s'.channel

  module _ (o : OrganizationConfig) (body : Text) where
    IsPaid-by :
        (s : X402State p) (a : Option Authorization) (response : SettlementResponse)
        (after : Settlements p)
        → decode_pre_validate_and_settle_with_facilitator p v.payments request v.config resource o
            s.settlements
          ≡ (ok (a, inl response), after)
        → IsPaid s.settlements after
    IsPaid-by s a response after h =
        let (pp, carried, acceptable, gained, _) =
          decode_pre_validate_and_settle_with_facilitator-settled p v.payments request v.config
            resource o s.settlements after a response h in
        record { payment = pp; carried = carried; acceptable = acceptable; gained = gained }

    sold-Leaves :
        (a : Option Authorization) (response : SettlementResponse)
        → Leaves (serve_settled p v resource request body (a, inl response))
    unfolding serve_settled
    sold-Leaves a response s =
        elim (Result-cases (do_request p v.curl resource.location s.method request.headers body)) [
          | inl (r, e) ↦ rw (e, serve_settled) (sell_back-Leaves p v response r s)
          | inr (x, e) ↦ rw (e, serve_settled)
        ]

    settled_result :
        (s : X402State p) (m : Result (Option Authorization × Settled) × Settlements p)
        → decode_pre_validate_and_settle_with_facilitator p v.payments request v.config resource o
            s.settlements
          ≡ m
        → PaidOrError s
            (continue {S = X402State p}
              (m.0, record s { settlements = m.1 })
              (serve_settled p v resource request body)).1
    unfolding serve_settled
    settled_result s (err x, after) h = inr (Evolves-refl s.channel)
    settled_result s (ok (a, inr error), after) h = inr (
        send_settlement_error_response-By p v.config IsError (λ n h. h) a error
          (record s { settlements = after }))
    settled_result s (ok (a, inl response), after) h = inl (
        subst (IsPaid s.settlements)
          (sym (sold-Leaves a response (record s { settlements = after })))
          (IsPaid-by s a response after h))

    before :
        (s s1 s2 : X402State p)
        → Evolves IsError s.channel s1.channel
        → s1.settlements ≡ s.settlements
        → PaidOrError s1 s2
        → PaidOrError s s2
    before s s1 s2 e same (inl paid) = inl (subst (λ t. IsPaid t s2.settlements) same paid)
    before s s1 s2 e same (inr f) = inr (Evolves-trans e f)

    pub continue-paid :
        {A B : Type 0} (s : X402State p) (m : Result A × X402State p) (k : A → Exec (X402State p) B)
        → Evolves IsError s.channel m.1.channel
        → m.1.settlements ≡ s.settlements
        → ((a : A) (s1 : X402State p) → PaidOrError s1 (k a s1).1)
        → PaidOrError s (continue m k).1
    continue-paid s (ok a, s1) k e same f = before s s1 (k a s1).1 e same (f a s1)
    continue-paid s (err x, s1) k e same f = inr e

    recover-paid :
        {A : Type 0} (s : X402State p) (m : Result A × X402State p)
        (h : Exception → Exec (X402State p) A)
        → PaidOrError s m.1
        → ((x : Exception) (s1 : X402State p) → Evolves IsError s1.channel (h x s1).1.channel)
        → ((x : Exception) → Leaves (h x))
        → PaidOrError s (recover m h).1
    recover-paid s (ok a, s1) h d f g = d
    recover-paid s (err x, s1) h (inl paid) f g =
        inl (subst (IsPaid s.settlements) (sym (g x s1)) paid)
    recover-paid s (err x, s1) h (inr e) f g = inr (Evolves-trans e (f x s1))

    unless_refused-paid :
        (b : Bool) (rest : Exec (X402State p) (Unit {0}))
        → ((s : X402State p) → PaidOrError s (rest s).1)
        → (s : X402State p) → PaidOrError s (unless_refused p v b rest s).1
    unless_refused-paid true rest f s = f s
    unless_refused-paid false rest f s = inr (Evolves-refl s.channel)

    settle-paid :
        (s : X402State p) → PaidOrError s (settle_then_serve p v o resource request body s).1
    settle-paid s = settled_result s _ refl

    serve_resource-paid :
        (s : X402State p) → PaidOrError s (serve_resource p v o resource request body s).1
    unfolding serve_resource
    serve_resource-paid s =
        let paid = reply_402_if_no_payment_header p v.config request.headers in
        continue-paid s (validate_method p v request s)
          (λ fine. unless_refused p v fine (paid >>= unless_unpaid p v o resource request body))
          (method-By p v IsError (λ n h. h) request s) (method-Leaves p v request s)
          (λ fine.
            unless_refused-paid fine (paid >>= unless_unpaid p v o resource request body) (λ s1.
              continue-paid s1 (paid s1) (unless_unpaid p v o resource request body)
                (reply_402_if_no_payment_header-By p v.config IsError (λ n h. h) request.headers s1)
                (reply_402_if_no_payment_header-Leaves p v request.headers s1)
                (λ unpaid.
                  unless_refused-paid (not unpaid) (settle_then_serve p v o resource request body)
                    settle-paid)))

    received-paid :
        (s : X402State p)
        → s.organization ≡ some o
        → get_resource_by_path o s.decoded_path ≡ some resource
        → PaidOrError s (request_fully_received p v request body s).1
    unfolding request_fully_received
    received-paid s e f =
        rw (e, request_fully_received)
          (rw f
            (serve_resource-paid (record s { organization = some o; resource = some resource })))

    handled-paid :
        (s : X402State p)
        → s.organization ≡ some o
        → get_resource_by_path o s.decoded_path ≡ some resource
        → PaidOrError s
            (try_catch
              (request_fully_received p v request body)
              (λ e. reply_500_internal_error p v.config (str "Could not process x402 request."))
              s).1
    handled-paid s e f =
        recover-paid s (request_fully_received p v request body s) _ (received-paid s e f)
          (λ x. reply_500-By p v.config IsError (λ n h. h) (str "Could not process x402 request."))
          (λ x. reply_500-Leaves p v (str "Could not process x402 request."))

    unless-paid :
        (state : ProcessorState) (s : X402State p) (rest : Exec (X402State p) (Unit {0}))
        → PaidOrError s (rest s).1
        → PaidOrError s (unless_error_sent p v state rest s).1
    unless-paid start s rest d = d
    unless-paid error_sent s rest d = inr (Evolves-refl s.channel)
    unless-paid reply_sent s rest d = d

    pub paid_or_error :
        (s : X402State p)
        → s.organization ≡ some o
        → get_resource_by_path o s.decoded_path ≡ some resource
        → PaidOrError s (on_request_fully_received p v request body s).1
    unfolding on_request_fully_received
    paid_or_error s e f = unless-paid s.channel.state s _ (handled-paid s e f)

    error_status :
        (c d : Channel p) (r : HttpResponse p)
        → Evolves IsError c d
        → d.handed ≡ r ∷ c.handed
        → 400 ≤ r.status
    error_status c d r e more = elim e.hands [
      | inl same ↦ absurd (omega (arith, ap length (sym same ∙ more)))
      | inr (sent, q, large, there) ↦
          subst (λ q. 400 ≤ q.status) (head_same (sym there ∙ more)) large
    ]

-- When the path names a priced resource of the request's organization, a response with a status
-- below 400 is handed over only where the request's payment was acceptable, the table had no row
-- with its key before, and has one now.
pub on_request_fully_received-IsPaid :
    (p : Platform) (v : Env p) (request : HttpRequest p) (body : Text) (s : X402State p)
    (o : OrganizationConfig) (resource : ResourceConfig) (r : HttpResponse p)
    → s.organization ≡ some o
    → get_resource_by_path o s.decoded_path ≡ some resource
    → (on_request_fully_received p v request body s).1.channel.handed ≡ r ∷ s.channel.handed
    → r.status < 400
    → IsPaid p v resource request s.settlements
        (on_request_fully_received p v request body s).1.settlements
on_request_fully_received-IsPaid p v request body s o resource r e f more small =
    elim (paid_or_error p v resource request o body s e f) [
      | inl paid ↦ paid
      | inr evolved ↦
          let large = error_status p v resource request o body s.channel _ r evolved more in
          absurd (omega arith)
    ]
