-- ===== src/Payment/Manager/Interleaving/Threads.antt =====
-- Requests that settle payments at the same time (PaymentManager): what the threads'
-- table and the operations' results say.
use machinepal.Prelude.{
  ℕ, ◌≡◌, ◌≢◌, ◌∙◌, sym, ap, true, false, Text, List, [], ◌∷◌, Option, none, some, ◌⊎◌, inl, inr,
  any, text_eq, text_eq_iff, Bool-cases, arith,
}
use machinepal.Result.{ok}
use machinepal.Platform.{Platform}
use machinepal.Crypto.Values.{address_to_hex}
use machinepal.Crypto.Encoding.{to_hex}
use machinepal.Crypto.Domain.{unique_payment_key}
use machinepal.Config.Resources.{MachinePalConfig}
use machinepal.Db.Payments.{
  PaymentRow, row_has_key, payment_key, key_of, payment_exists, settled_payment_exists,
}
use machinepal.Payment.Payload.{PaymentPayload}
use machinepal.Payment.Manager.{
  Settlements, Context, is_settling, erase_key, lock_key, lock_payment_as_being_settled,
  check_against_already_settled_payments,
}
use machinepal.Payment.Manager.Interleaving.{
  locked, checked, finished, Thread, put, lock_key_of, payment_key_of,
}

abbrev pub Threads : Type 0
Threads = ℕ → Option Thread

pub put-cases :
    (i j : ℕ) (v : Option Thread) (threads : Threads) (t : Thread)
    → put i v threads j ≡ some t
    → ((j ≡ i) × (v ≡ some t)) ⊎ ((j ≢ i) × (threads j ≡ some t))
unfolding put
put-cases i j v threads t h = ground arith

pub some-injective : {t u : Thread} → some t ≡ some u → t ≡ u
some-injective h = cc

pub locked_ne_checked : locked ≢ checked
locked_ne_checked h = cc

pub finished_ne_checked : finished ≢ checked
finished_ne_checked h = cc

pub none_ne_some : {t : Thread} → ◌≡◌ {A = Option Thread} none (some t) → ⊥
none_ne_some h = cc

pub false_ne_true : false ≢ true
false_ne_true h = cc

pub is_settling-erase :
    (gone key : Text) (keys : List Text)
    → key ≢ gone
    → is_settling key keys ≡ true
    → is_settling key (erase_key gone keys) ≡ true
unfolding erase_key
is_settling-erase gone key [] other h = h
is_settling-erase gone key (k ∷ keys) other h = elim (Bool-cases (text_eq gone k)) [
  | inl same ↦
      let e : gone ≡ k = (text_eq_iff gone k).0 same in
      rw same
        (is_settling-erase gone key keys other (ground (arith, text_eq_iff key k, h, other, e)))
  | inr differs ↦ rw differs (ground (arith, is_settling-erase gone key keys other))
]

module _ (p : Platform) (c : Context p) (config : MachinePalConfig) where
  -- Payments with the same key in the table have the same lock.
  pub same_lock :
      (t u : PaymentPayload) (r : PaymentRow)
      → key_of r ≡ payment_key_of p c config t
      → row_has_key (payment_key_of p c config u) r ≡ true
      → lock_key_of p c config t ≡ lock_key_of p c config u
  unfolding lock_key unique_payment_key payment_key
  same_lock t u r e h =
      let from : address_to_hex p t.payload.authorization.from false
          ≡ address_to_hex p u.payload.authorization.from false =
        ap (λ k. k.from_address) (sym e) ∙ (text_eq_iff r.from_address _).0 (ground arith) in
      let nonce : to_hex p t.payload.authorization.nonce false
          ≡ to_hex p u.payload.authorization.nonce false =
        ap (λ k. k.nonce) (sym e) ∙ (text_eq_iff r.nonce _).0 (ground arith) in
      rw (from, nonce)

  pub lock_succeeds :
      (s s' : Settlements p) (pp : PaymentPayload)
      → lock_payment_as_being_settled p pp.payload.authorization config.network.eip712_domain s
        ≡ (ok true, s')
      → (s' ≡ record s { currently_settling = lock_key_of p c config pp ∷ s.currently_settling })
        × (is_settling (lock_key_of p c config pp) s.currently_settling ≡ false)
  unfolding lock_payment_as_being_settled
  lock_succeeds s s' pp h = ground arith

  pub check_succeeds :
      (s s' : Settlements p) (pp : PaymentPayload)
      → check_against_already_settled_payments p c pp config.network.eip712_domain s ≡ (ok none, s')
      → (s' ≡ s) × (any (row_has_key (payment_key_of p c config pp)) s.payments ≡ false)
  unfolding check_against_already_settled_payments settled_payment_exists payment_exists
  check_succeeds s s' pp h = ground arith
