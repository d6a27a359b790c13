-- ===== src/Payment/Manager/Spending.antt =====
-- What settling a payment does to the table of settled payments
-- (PaymentManager::checkPaymentIsNewAndSettleItUnsafe and checkPaymentIsNewAndSettleIt).
use machinepal.Prelude.{
  ◌≡◌, ◌≢◌, refl, ◌∙◌, sym, ap, subst, true, false, Text, ◌∷◌, ◌⊎◌, inl, inr, Bool-cases, arith,
}
use machinepal.Result.{Result, ok, err, catch, Result-cases}
use machinepal.Exec.{Exec, continue, pure}
use machinepal.Platform.{Platform}
use machinepal.Crypto.Encoding.{from_hex_to_hash}
use machinepal.Crypto.Values.{Hash}
use machinepal.Config.Resources.{ResourceConfig, OrganizationConfig, MachinePalConfig}
use machinepal.Db.Payments.{PaymentKey, payment_key, settled_payment_exists, save_settled_payment}
use machinepal.Db.Payments.Unique.{HasGained, save_settled_payment-HasGained}
use machinepal.Payment.Payload.{PaymentPayload}
use machinepal.Payment.Messages.{SettlementRequest, SettlementResponse}
use machinepal.Payment.Manager.{
  Settlements, Context, Settled, settlement_failed, is_settling, lock_key,
  check_against_already_settled_payments, record_successful_settlement, settlement_request_for,
  record_response, route_to_facilitator_and_settle, settle_new_payment,
  check_payment_is_new_and_settle_it_unsafe, check_payment_is_new_and_settle_it,
}
use machinepal.Payment.Manager.Locking.{free-eq, busy-eq, locked_state}

-- What a result says of the tables before and after.
abbrev pub Explains :
    (p : Platform) (k : PaymentKey) (q : SettlementRequest p) (before : Settlements p)
    → Result Settled
    → Settlements p
    → Type 0
Explains p k q before (ok (inl response)) after =
    HasGained k before.payments after.payments × (after.asked ≡ q ∷ before.asked)
Explains p k q before (ok (inr e)) after =
    (after.payments ≡ before.payments)
    × ((after.asked ≡ before.asked) ⊎ (after.asked ≡ q ∷ before.asked))
Explains p k q before (err e) after =
    (after.payments ≡ before.payments)
    × ((after.asked ≡ before.asked) ⊎ (after.asked ≡ q ∷ before.asked))

module _ (p : Platform) (c : Context p) (config : MachinePalConfig) (resource : ResourceConfig)
    (organization : OrganizationConfig) (pp : PaymentPayload) (ip : Text) where
  abbrev k : PaymentKey
  k = payment_key p pp config.network.eip712_domain

  abbrev q : SettlementRequest p
  q = settlement_request_for p c config resource pp

  pub recorded :
      (hash : Hash) (s : Settlements p) (m : Result (Unit {0}) × Settlements p)
      → record_successful_settlement p c pp config.network.eip712_domain resource organization hash
          ip s
        ≡ m
      → ((m.0 ≡ ok tt) × HasGained k s.payments m.1.payments × (m.1.asked ≡ s.asked))
        ⊎ ((m.0 ≢ ok tt) × (m.1 ≡ s))
  unfolding record_successful_settlement
  recorded hash s m h =
      elim (Result-cases (
        save_settled_payment p c.engine c.clock.now pp config.network.eip712_domain resource
          organization hash ip s.payments)) [
            | inl (rows, e) ↦
                let g =
                  save_settled_payment-HasGained p c.engine c.clock.now pp
                    config.network.eip712_domain resource organization hash ip s.payments rows e in
                let e' : m ≡ (ok tt, record s { payments = rows }) = sym h ∙ rw e in
                inl (rw e' (refl, g, refl))
            | inr (x, e) ↦ let e' : m ≡ (err x, s) = sym h ∙ rw e in inr (rw e' ((λ d. cc), refl))
          ]

  abbrev answer : SettlementResponse → Unit {0} → Exec (Settlements p) Settled
  answer response _ = pure (inl response)

  abbrev asked_state : Settlements p → Settlements p
  asked_state s = record s { asked = q ∷ s.asked }

  after_record :
      (s0 : Settlements p) (response : SettlementResponse) (m : Result (Unit {0}) × Settlements p)
      → ((m.0 ≡ ok tt) × HasGained k s0.payments m.1.payments × (m.1.asked ≡ q ∷ s0.asked))
        ⊎ ((m.0 ≢ ok tt) × (m.1 ≡ asked_state s0))
      → Explains p k q s0 (continue m (answer response)).0 (continue m (answer response)).1
  after_record s0 response (ok u, s) (inl (done, g, a)) = (g, a)
  after_record s0 response (ok u, s) (inr (failed, e)) = absurd (failed refl)
  after_record s0 response (err x, s) (inl (done, g, a)) = cc
  after_record s0 response (err x, s) (inr (failed, e)) =
      (ap (λ s. s.payments) e, inr (ap (λ s. s.asked) e))

  -- Once the facilitator has been asked.
  responded :
      (s0 : Settlements p) (response : SettlementResponse)
      → Explains p k q s0
          (record_response p c config resource organization pp ip response (asked_state s0)).0
          (record_response p c config resource organization pp ip response (asked_state s0)).1
  unfolding record_response
  responded s0 response = elim (Result-cases (from_hex_to_hash p response.transaction)) [
    | inr (x, e) ↦ rw e (refl, inr refl)
    | inl (hash, e) ↦ rw e (
        after_record s0 response
          (record_successful_settlement p c pp config.network.eip712_domain resource organization
            hash ip (asked_state s0))
          (recorded hash (asked_state s0) _ refl))
  ]

  routed : (s : Settlements p) → (route_to_facilitator_and_settle p c q s).1 ≡ asked_state s
  unfolding route_to_facilitator_and_settle
  routed s = ground arith

  explained_answer :
      (s : Settlements p) (m : Result SettlementResponse × Settlements p)
      → m.1 ≡ asked_state s
      → let after = continue m (record_response p c config resource organization pp ip) in
        Explains p k q s after.0 after.1
  explained_answer s (ok response, s') e = rw e (responded s response)
  explained_answer s (err x, s') e = (ap (λ s. s.payments) e, inr (ap (λ s. s.asked) e))

  explained_new :
      (s : Settlements p)
      → Explains p k q s
          (settle_new_payment p c config resource organization pp ip s).0
          (settle_new_payment p c config resource organization pp ip s).1
  unfolding settle_new_payment
  explained_new s = explained_answer s (route_to_facilitator_and_settle p c q s) (routed s)

  explained_unsafe :
      (s : Settlements p)
      → Explains p k q s
          (check_payment_is_new_and_settle_it_unsafe p c config resource organization pp ip s).0
          (check_payment_is_new_and_settle_it_unsafe p c config resource organization pp ip s).1
  unfolding check_payment_is_new_and_settle_it_unsafe check_against_already_settled_payments
  explained_unsafe s =
      elim (Result-cases
        (settled_payment_exists p c.engine pp config.network.eip712_domain s.payments)) [
          | inr (x, e) ↦ rw e (refl, inl refl)
          | inl (true, e) ↦ rw e (refl, inl refl)
          | inl (false, e) ↦ rw e (explained_new s)
        ]

  -- The handler, and the lock, change neither table.
  handled :
      (s0 s : Settlements p) (r : Result Settled) (after : Settlements p)
      → s.payments ≡ s0.payments
      → s.asked ≡ s0.asked
      → Explains p k q s r after
      → Explains p k q s0
          (ok (catch r (λ e. inr settlement_failed)))
          (record after { currently_settling = s0.currently_settling })
  handled s0 s (ok (inl response)) after e f (g, a) =
      (subst (λ rows. HasGained k rows after.payments) e g, a ∙ ap (λ l. q ∷ l) f)
  handled s0 s (ok (inr x)) after e f (g, inl a) = (g ∙ e, inl (a ∙ f))
  handled s0 s (ok (inr x)) after e f (g, inr a) = (g ∙ e, inr (a ∙ ap (λ l. q ∷ l) f))
  handled s0 s (err x) after e f (g, inl a) = (g ∙ e, inl (a ∙ f))
  handled s0 s (err x) after e f (g, inr a) = (g ∙ e, inr (a ∙ ap (λ l. q ∷ l) f))

-- When settling a payment succeeds, the facilitator was asked once, for this payment, the table had
-- no row with the payment's key, and has gained one; when it does not succeed, the table is as it
-- was and the facilitator was asked at most once, for this payment.
pub check_payment_is_new_and_settle_it-Explains :
    (p : Platform) (c : Context p) (config : MachinePalConfig) (resource : ResourceConfig)
    (organization : OrganizationConfig) (pp : PaymentPayload) (ip : Text) (s : Settlements p)
    → Explains p
        (payment_key p pp config.network.eip712_domain)
        (settlement_request_for p c config resource pp)
        s
        (check_payment_is_new_and_settle_it p c config resource organization pp ip s).0
        (check_payment_is_new_and_settle_it p c config resource organization pp ip s).1
check_payment_is_new_and_settle_it-Explains p c config resource organization pp ip s =
    elim (Bool-cases (
      is_settling (lock_key p pp.payload.authorization config.network.eip712_domain)
        s.currently_settling)) [
          | inl busy ↦ rw (busy-eq p c config resource organization pp ip s busy) (refl, inl refl)
          | inr free ↦ rw (free-eq p c config resource organization pp ip s free) (
              handled p c config resource organization pp ip s
                (locked_state p c config resource organization pp ip s) _ _ refl refl
                (explained_unsafe p c config resource organization pp ip
                  (locked_state p c config resource organization pp ip s)))
        ]
