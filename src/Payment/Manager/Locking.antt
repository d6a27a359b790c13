-- ===== src/Payment/Manager/Locking.antt =====
-- The lock on a payment (PaymentManager::lockPaymentAsBeingSettled and the guard that unlocks it).
use machinepal.Prelude.{
  ◌≡◌, refl, ◌∙◌, ap, true, false, Text, List, [], ◌∷◌, inl, inr, text_eq_refl, Bool-cases, arith,
}
use machinepal.Result.{Result, ok, err, catch}
use machinepal.Exec.{Exec, continue-keeps}
use machinepal.Platform.{Platform}
use machinepal.Config.Resources.{ResourceConfig, OrganizationConfig, MachinePalConfig}
use machinepal.Payment.Payload.{PaymentPayload}
use machinepal.Payment.Messages.{SettlementRequest, SettlementResponse}
use machinepal.Payment.Manager.{
  Settlements, Context, Settled, settlement_failed, being_processed, is_settling, erase_key,
  lock_key, lock_payment_as_being_settled, unlock_payment_as_being_settled,
  check_against_already_settled_payments, record_successful_settlement, settlement_request_for,
  record_response, route_to_facilitator_and_settle, settle_new_payment,
  check_payment_is_new_and_settle_it_unsafe, settle_locked, check_payment_is_new_and_settle_it,
}

pub erase_key-absent :
    (key : Text) (keys : List Text) → is_settling key keys ≡ false → erase_key key keys ≡ keys
unfolding erase_key
erase_key-absent key [] h = refl
erase_key-absent key (k ∷ keys) h = ground (arith, erase_key-absent key keys)

abbrev settling : {p : Platform} → Settlements p → List Text
settling s = s.currently_settling

module _ (p : Platform) (c : Context p) where
  route-settling :
      (q : SettlementRequest p) (s : Settlements p)
      → (route_to_facilitator_and_settle p c q s).1.currently_settling ≡ s.currently_settling
  unfolding route_to_facilitator_and_settle
  route-settling q s = ground arith

  module _ (config : MachinePalConfig) (resource : ResourceConfig)
      (organization : OrganizationConfig) (pp : PaymentPayload) (ip : Text) where
    response-settling :
        (response : SettlementResponse) (s : Settlements p)
        → settling (record_response p c config resource organization pp ip response s).1
          ≡ settling s
    unfolding record_response record_successful_settlement
    response-settling response s = ground arith

    new-settling :
        (s : Settlements p)
        → settling (settle_new_payment p c config resource organization pp ip s).1 ≡ settling s
    unfolding settle_new_payment
    new-settling s =
        continue-keeps settling
          (route_to_facilitator_and_settle p c (settlement_request_for p c config resource pp) s)
          (record_response p c config resource organization pp ip) (settling s)
          (route-settling (settlement_request_for p c config resource pp) s) response-settling

    unsafe-settling :
        (s : Settlements p)
        → (check_payment_is_new_and_settle_it_unsafe p c config resource organization pp ip
            s).1.currently_settling
          ≡ s.currently_settling
    unfolding check_payment_is_new_and_settle_it_unsafe check_against_already_settled_payments
    unsafe-settling s = ground (arith, new-settling s)

    -- The key of the payment.
    abbrev key : Text
    key = lock_key p pp.payload.authorization config.network.eip712_domain

    abbrev run : Exec (Settlements p) Settled
    run = check_payment_is_new_and_settle_it_unsafe p c config resource organization pp ip

    unlocked :
        (s : Settlements p) (keys : List Text)
        → settling s ≡ key ∷ keys
        → is_settling key keys ≡ false
        → unlock_payment_as_being_settled p pp.payload.authorization config.network.eip712_domain s
          ≡ (ok tt, record s { currently_settling = keys })
    unfolding unlock_payment_as_being_settled erase_key
    unlocked s keys e free = rw e (rw (text_eq_refl key, erase_key-absent key keys free))

    -- Behind the lock: a result is returned, and the set is what it was without the key.
    released :
        (s : Settlements p) (keys : List Text) (m : Result Settled × Settlements p)
        → run s ≡ m
        → settling m.1 ≡ key ∷ keys
        → is_settling key keys ≡ false
        → settle_locked p c config resource organization pp ip s
          ≡ (ok (catch m.0 (λ e. inr settlement_failed)), record m.1 { currently_settling = keys })
    unfolding settle_locked
    released s keys (ok r, s') h e free = rw h (rw (unlocked s' keys e free))
    released s keys (err r, s') h e free = rw h (rw (unlocked s' keys e free))

    pub settle_locked-eq :
        (s : Settlements p) (keys : List Text)
        → settling s ≡ key ∷ keys
        → is_settling key keys ≡ false
        → settle_locked p c config resource organization pp ip s ≡ (
          ok (catch (run s).0 (λ e. inr settlement_failed)),
          record (run s).1 { currently_settling = keys },
        )
    settle_locked-eq s keys e free = released s keys (run s) refl (unsafe-settling s ∙ e) free

    abbrev pub locked_state : Settlements p → Settlements p
    locked_state s = record s { currently_settling = key ∷ s.currently_settling }

    -- Where the payment is not being settled.
    pub free-eq :
        (s : Settlements p)
        → is_settling key s.currently_settling ≡ false
        → check_payment_is_new_and_settle_it p c config resource organization pp ip s ≡ (
          ok (catch (run (locked_state s)).0 (λ e. inr settlement_failed)),
          record (run (locked_state s)).1 { currently_settling = s.currently_settling },
        )
    unfolding check_payment_is_new_and_settle_it lock_payment_as_being_settled
    free-eq s free = rw free (settle_locked-eq (locked_state s) s.currently_settling refl free)

    -- Where it is.
    pub busy-eq :
        (s : Settlements p)
        → is_settling key s.currently_settling ≡ true
        → check_payment_is_new_and_settle_it p c config resource organization pp ip s
          ≡ (ok (inr being_processed), s)
    unfolding check_payment_is_new_and_settle_it lock_payment_as_being_settled
    busy-eq s busy = rw busy

-- Whatever the database and the facilitator do, settling a payment returns a result and never
-- throws, and the payments that are being settled afterwards are those that were being settled
-- before: the lock is given back on every branch.
pub settling-check_payment_is_new_and_settle_it :
    (p : Platform) (c : Context p) (config : MachinePalConfig) (resource : ResourceConfig)
    (organization : OrganizationConfig) (pp : PaymentPayload) (ip : Text) (s : Settlements p)
    → ((r : Settled) × ((check_payment_is_new_and_settle_it p c config resource organization pp ip
            s).0
          ≡ ok r))
      × ((check_payment_is_new_and_settle_it p c config resource organization pp ip
            s).1.currently_settling
          ≡ s.currently_settling)
settling-check_payment_is_new_and_settle_it p c config resource organization pp ip s =
    elim (Bool-cases (
      is_settling (lock_key p pp.payload.authorization config.network.eip712_domain)
        s.currently_settling)) [
          | inl busy ↦
              let e = busy-eq p c config resource organization pp ip s busy in
              ((inr being_processed, ap (λ m. m.0) e), ap (λ m. m.1.currently_settling) e)
          | inr free ↦
              let e = free-eq p c config resource organization pp ip s free in
              ((_, ap (λ m. m.0) e), ap (λ m. m.1.currently_settling) e)
        ]
