-- ===== src/Payment/Manager/Replay.antt =====
-- Submitting a settled payment again (PaymentManager::checkAgainstAlreadySettledPayments).
use machinepal.Prelude.{
  ◌≡◌, ◌≢◌, refl, subst, true, false, Text, List, ◌++◌, inl, inr, any, any-append, Bool-cases,
  arith,
}
use machinepal.Result.{Result, ok, Result-cases}
use machinepal.Platform.{Platform}
use machinepal.Config.Resources.{ResourceConfig, OrganizationConfig, MachinePalConfig}
use machinepal.Db.Payments.{
  PaymentRow, row_has_key, payment_key, payment_exists, settled_payment_exists,
}
use machinepal.Db.Payments.Unique.{HasGained-there}
use machinepal.Payment.Payload.{PaymentPayload}
use machinepal.Payment.Messages.{SettlementResponse, HttpError}
use machinepal.Payment.Manager.{
  Settlements, Context, Settled, settlement_failed, being_processed, is_settling, lock_key,
  already_spent, check_against_already_settled_payments, settlement_request_for,
  check_payment_is_new_and_settle_it_unsafe, check_payment_is_new_and_settle_it,
}
use machinepal.Payment.Manager.Locking.{free-eq, busy-eq}
use machinepal.Payment.Manager.Spending.{Explains, check_payment_is_new_and_settle_it-Explains}

-- What a refusal leaves: an error, and the state as it was.
abbrev pub Refuses : (p : Platform) → Settlements p → Result Settled × Settlements p → Type 0
Refuses p s m = ((e : HttpError) × (m.0 ≡ ok (inr e))) × (m.1 ≡ s)

module _ (p : Platform) (c : Context p) (config : MachinePalConfig) (resource : ResourceConfig)
    (organization : OrganizationConfig) (pp : PaymentPayload) (ip : Text) where
  found :
      (rows : List PaymentRow)
      → any (row_has_key (payment_key p pp config.network.eip712_domain)) rows ≡ true
      → settled_payment_exists p c.engine pp config.network.eip712_domain rows ≢ ok false
  unfolding settled_payment_exists payment_exists
  found rows there h = ground arith

  pub refused :
      (s : Settlements p)
      → any (row_has_key (payment_key p pp config.network.eip712_domain)) s.payments ≡ true
      → Refuses p s (check_payment_is_new_and_settle_it p c config resource organization pp ip s)
  unfolding check_payment_is_new_and_settle_it_unsafe check_against_already_settled_payments
  refused s there =
      elim (Bool-cases (
        is_settling (lock_key p pp.payload.authorization config.network.eip712_domain)
          s.currently_settling)) [
            | inl busy ↦
                rw (busy-eq p c config resource organization pp ip s busy)
                  ((being_processed, refl), refl)
            | inr free ↦
                rw (free-eq p c config resource organization pp ip s free)
                  (elim (Result-cases (
                    settled_payment_exists p c.engine pp config.network.eip712_domain s.payments)) [
                      | inr (x, e) ↦ rw e ((settlement_failed, refl), refl)
                      | inl (true, e) ↦
                          rw e ((already_spent p pp config.network.eip712_domain, refl), refl)
                      | inl (false, e) ↦ absurd (found s.payments there e)
                    ])
          ]

-- Once a payment has been settled, whoever submits it again, for whatever resource and whatever the
-- clock, the engine and the facilitator do by then, gets an error, the facilitator is not asked and
-- the table does not change, as long as the rows of that moment are kept.
pub check_payment_is_new_and_settle_it-replay :
    (p : Platform) (c c' : Context p) (config : MachinePalConfig)
    (resource resource' : ResourceConfig) (organization organization' : OrganizationConfig)
    (pp : PaymentPayload) (ip ip' : Text) (s later : Settlements p) (response : SettlementResponse)
    (more : List PaymentRow)
    → (check_payment_is_new_and_settle_it p c config resource organization pp ip s).0
      ≡ ok (inl response)
    → later.payments
      ≡ (check_payment_is_new_and_settle_it p c config resource organization pp ip s).1.payments
        ++ more
    → Refuses p later
        (check_payment_is_new_and_settle_it p c' config resource' organization' pp ip' later)
check_payment_is_new_and_settle_it-replay p c c' config resource resource' organization
      organization' pp ip ip' s later response more won kept =
    let k = payment_key p pp config.network.eip712_domain in
    let after = (check_payment_is_new_and_settle_it p c config resource organization pp ip s).1 in
    let gained =
      subst (λ r. Explains p k (settlement_request_for p c config resource pp) s r after) won
        (check_payment_is_new_and_settle_it-Explains p c config resource organization pp ip s) in
    refused p c' config resource' organization' pp ip' later (
      rw kept (rw (any-append (row_has_key k) after.payments more) (rw (HasGained-there gained.0))))
