-- ===== src/Payment/Manager/Settles.antt =====
-- What PaymentManager reads of the facilitator's answer: checkPaymentIsNewAndSettleIt for two answers
-- that differ in all but their transactions.
use machinepal.Prelude.{◌≡◌, refl, ap, true, false, Text, ◌∷◌, ◌⊎◌, inl, inr, Bool-cases}
use machinepal.Result.{Result, ok, err, Exception, Result-cases, ◌>>=◌, >>=-eq-ok, catch}
use machinepal.Platform.{Platform}
use machinepal.Crypto.Encoding.{from_hex_to_hash}
use machinepal.Config.Resources.{ResourceConfig, OrganizationConfig, MachinePalConfig}
use machinepal.Db.Payments.{settled_payment_exists, save_settled_payment}
use machinepal.Payment.Payload.{PaymentPayload}
use machinepal.Payment.Messages.{
  HttpError, SettlementRequest, SettlementResponse, settlement_response_from_json_string,
}
use machinepal.Payment.Manager.{
  Settlements, Context, Settled, settlement_failed, being_processed, is_settling, lock_key,
  check_against_already_settled_payments, record_successful_settlement, settlement_request_for,
  record_response, route_to_facilitator_and_settle, settle_new_payment,
  check_payment_is_new_and_settle_it_unsafe, check_payment_is_new_and_settle_it,
}
use machinepal.Payment.Manager.Locking.{free-eq, busy-eq, locked_state}

-- The response that a facilitator's client gets to a request.
unfoldable pub response_of :
    (p : Platform) → Context p → SettlementRequest p → Result SettlementResponse
response_of p c request =
    c.settle request >>= (λ j. p.dump j >>= settlement_response_from_json_string p)

-- Two results of which each is the settlement with its own response, or both are the same error.
abbrev pub HasSameOutcome :
    SettlementResponse → SettlementResponse → Result Settled → Result Settled → Type 0
HasSameOutcome response other a b =
    ((a ≡ ok (inl response)) × (b ≡ ok (inl other)))
    ⊎ ((e : HttpError) × (a ≡ ok (inr e)) × (b ≡ ok (inr e)))

-- Two results that are alike before exceptions are caught: each settles with its own response, or both fail in the same way.
abbrev IsAlike : SettlementResponse → SettlementResponse → Result Settled → Result Settled → Type 0
IsAlike response other a b =
    ((a ≡ ok (inl response)) × (b ≡ ok (inl other)))
    ⊎ (((e : HttpError) × (a ≡ ok (inr e)) × (b ≡ ok (inr e)))
        ⊎ ((e : Exception) × (a ≡ err e) × (b ≡ err e)))

module _ (p : Platform) (c : Context p) (settle : SettlementRequest p → Result p.Json)
    (config : MachinePalConfig) (resource : ResourceConfig) (organization : OrganizationConfig)
    (pp : PaymentPayload) (ip : Text) (response other : SettlementResponse) where
  -- The same context, but for the facilitator.
  abbrev pub asking_other : Context p
  asking_other = record c { settle = settle }

  routed :
      (d : Context p) (r : SettlementResponse) (q : SettlementRequest p) (s : Settlements p)
      → response_of p d q ≡ ok r
      → route_to_facilitator_and_settle p d q s ≡ (ok r, record s { asked = q ∷ s.asked })
  unfolding route_to_facilitator_and_settle response_of
  routed d r q s h =
      let (j, answered, h1) = >>=-eq-ok (d.settle q) _ h in
      let (text, dumped, read) = >>=-eq-ok (p.dump j) _ h1 in rw answered (rw dumped (rw read))

  recorded :
      (s : Settlements p)
      → response.transaction ≡ other.transaction
      → ((record_response p c config resource organization pp ip response s).1
          ≡ (record_response p asking_other config resource organization pp ip other s).1)
        × IsAlike response other
            (record_response p c config resource organization pp ip response s).0
            (record_response p asking_other config resource organization pp ip other s).0
  unfolding record_response record_successful_settlement
  recorded s same = elim (Result-cases (from_hex_to_hash p other.transaction)) [
    | inr (e, h) ↦ rw same (rw h (refl, inr (inr (e, refl, refl))))
    | inl (hash, h) ↦
        elim (Result-cases (
          save_settled_payment p c.engine c.clock.now pp config.network.eip712_domain resource
            organization hash ip s.payments)) [
              | inr (e, x) ↦ rw same (rw h (rw x (refl, inr (inr (e, refl, refl)))))
              | inl (rows, x) ↦ rw same (rw h (rw x (refl, inl (refl, refl))))
            ]
  ]

  -- The request that both facilitators get.
  abbrev q : SettlementRequest p
  q = settlement_request_for p c config resource pp

  Alike : Result Settled × Settlements p → Result Settled × Settlements p → Type 0
  Alike a b = (a.1 ≡ b.1) × IsAlike response other a.0 b.0

  settled :
      (s : Settlements p)
      → response_of p c q ≡ ok response
      → response_of p asking_other q ≡ ok other
      → response.transaction ≡ other.transaction
      → Alike
          (settle_new_payment p c config resource organization pp ip s)
          (settle_new_payment p asking_other config resource organization pp ip s)
  unfolding Alike settle_new_payment settlement_request_for
  settled s answer other_answer same = rw (routed c response q s answer) (
      rw (routed asking_other other q s other_answer)
        (recorded (record s { asked = q ∷ s.asked }) same))

  checked :
      (s : Settlements p)
      → response_of p c q ≡ ok response
      → response_of p asking_other q ≡ ok other
      → response.transaction ≡ other.transaction
      → Alike (check_payment_is_new_and_settle_it_unsafe p c config resource organization pp ip s) (
          check_payment_is_new_and_settle_it_unsafe p asking_other config resource organization pp
            ip s)
  unfolding Alike check_payment_is_new_and_settle_it_unsafe check_against_already_settled_payments
  checked s answer other_answer same =
      elim (Result-cases
        (settled_payment_exists p c.engine pp config.network.eip712_domain s.payments)) [
          | inr (e, h) ↦ rw h (refl, inr (inr (e, refl, refl)))
          | inl (true, h) ↦ rw h (refl, inr (inl (_, refl, refl)))
          | inl (false, h) ↦ rw h (settled s answer other_answer same)
        ]

  caught :
      (a b : Result Settled)
      → IsAlike response other a b
      → HasSameOutcome response other
          (ok (catch a (λ e. inr settlement_failed)))
          (ok (catch b (λ e. inr settlement_failed)))
  caught a b (inl (x, y)) = rw (x, y) (inl (refl, refl))
  caught a b (inr (inl (e, x, y))) = rw (x, y) (inr (e, refl, refl))
  caught a b (inr (inr (e, x, y))) = rw (x, y) (inr (settlement_failed, refl, refl))

abbrev unlocked_state : (p : Platform) → Settlements p → Settlements p → Settlements p
unlocked_state p s t = record t { currently_settling = s.currently_settling }

-- Two facilitators whose responses have the same transaction leave the manager in the same state,
-- table and requests included, and get the same result but for the response that is handed on, or
-- the same error: the field `success`, like all others of the response, decides nothing.
pub check_payment_is_new_and_settle_it_ignores_success :
    (p : Platform) (c : Context p) (settle : SettlementRequest p → Result p.Json)
    (config : MachinePalConfig) (resource : ResourceConfig) (organization : OrganizationConfig)
    (pp : PaymentPayload) (ip : Text) (response other : SettlementResponse) (s : Settlements p)
    → response_of p c (settlement_request_for p c config resource pp) ≡ ok response
    → response_of p (record c { settle = settle }) (settlement_request_for p c config resource pp)
      ≡ ok other
    → response.transaction ≡ other.transaction
    → ((check_payment_is_new_and_settle_it p c config resource organization pp ip s).1
        ≡ (check_payment_is_new_and_settle_it p
            (record c { settle = settle })
            config
            resource
            organization
            pp
            ip
            s).1)
      × HasSameOutcome response other
          (check_payment_is_new_and_settle_it p c config resource organization pp ip s).0
          (check_payment_is_new_and_settle_it p
            (record c { settle = settle })
            config
            resource
            organization
            pp
            ip
            s).0
unfolding Alike
check_payment_is_new_and_settle_it_ignores_success p c settle config resource organization pp ip
      response other s answer other_answer same =
    let d : Context p = record c { settle = settle } in
    let key = lock_key p pp.payload.authorization config.network.eip712_domain in
    elim (Bool-cases (is_settling key s.currently_settling)) [
      | inl busy ↦ rw (busy-eq p c config resource organization pp ip s busy) (
          rw (busy-eq p d config resource organization pp ip s busy)
            (refl, inr (being_processed, refl, refl)))
      | inr free ↦
          let l = locked_state p c config resource organization pp ip s in
          let (states, results) =
            checked p c settle config resource organization pp ip response other l answer
              other_answer same in
          rw (free-eq p c config resource organization pp ip s free) (
            rw (free-eq p d config resource organization pp ip s free) (
              ap (unlocked_state p s) states,
              caught p c settle config resource organization pp ip response other _ _ results,
            ))
    ]
