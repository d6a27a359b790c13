-- ===== src/Db/Payments/Unique.antt =====
-- The unique index of `payments` (src/db/MachinePalDb.cpp): what a settled payment adds to the table.
use machinepal.Prelude.{
  ℕ, ◌≡◌, refl, sym, ap, subst, true, false, Text, List, [], ◌∷◌, ◌++◌, any, any-append, text_eq,
  text_eq_iff, text_eq_refl, arith,
}
use machinepal.Result.{Result, ok, >>=-eq-ok, ok-injective}
use machinepal.Platform.{Platform}
use machinepal.Crypto.Values.{Hash}
use machinepal.Crypto.Domain.{Eip712Domain}
use machinepal.Config.Resources.{ResourceConfig, OrganizationConfig}
use machinepal.Payment.Payload.{PaymentPayload}
use machinepal.Payment.Payload.ToJson.{payment_payload_to_json}
use machinepal.Db.Payments.{
  PaymentRow, PaymentRecord, PaymentStatement, PaymentKey, row_has_key, key_of,
  create_payment_record, row_of, payment_key, write_payment, save_settled_payment,
}

-- No two rows have the same key.
abbrev pub HasUniqueKeys : List PaymentRow → Type 0
HasUniqueKeys [] = Unit
HasUniqueKeys (r ∷ rows) = (any (row_has_key (key_of r)) rows ≡ false) × HasUniqueKeys rows

-- The rows got one more, with that key, which no row had.
pub record HasGained (k : PaymentKey) (rows rows' : List PaymentRow) : Type 0 where
  pub row : PaymentRow
  pub key_same : key_of row ≡ k
  pub appended : rows' ≡ rows ++ row ∷ []
  pub fresh : any (row_has_key k) rows ≡ false

pub row_has_key_self : (r : PaymentRow) → row_has_key (key_of r) r ≡ true
row_has_key_self r = simp (
  text_eq_refl r.from_address,
  text_eq_refl r.chain_id,
  text_eq_refl r.asset_address,
  text_eq_refl r.nonce,
)

pub text_eq-sym : (s t : Text) → text_eq s t ≡ text_eq t s
text_eq-sym s t = ground (arith, text_eq_iff s t, text_eq_iff t s)

pub row_has_key-sym : (r q : PaymentRow) → row_has_key (key_of r) q ≡ row_has_key (key_of q) r
row_has_key-sym r q = simp (
  text_eq-sym q.from_address r.from_address,
  text_eq-sym q.chain_id r.chain_id,
  text_eq-sym q.asset_address r.asset_address,
  text_eq-sym q.nonce r.nonce,
)

append-HasUniqueKeys :
    (rows : List PaymentRow) (r : PaymentRow)
    → HasUniqueKeys rows
    → any (row_has_key (key_of r)) rows ≡ false
    → HasUniqueKeys (rows ++ r ∷ [])
append-HasUniqueKeys [] r u fresh = (refl, tt)
append-HasUniqueKeys (q ∷ rows) r (lone, u) fresh = (
  ground (arith, any-append (row_has_key (key_of q)) rows (r ∷ []), row_has_key-sym q r),
  append-HasUniqueKeys rows r u (ground arith),
)

pub HasGained-HasUniqueKeys :
    {k : PaymentKey} {rows rows' : List PaymentRow}
    → HasGained k rows rows'
    → HasUniqueKeys rows
    → HasUniqueKeys rows'
HasGained-HasUniqueKeys {k} {rows} {rows'} g u =
    rw g.appended (append-HasUniqueKeys rows g.row u (rw g.key_same g.fresh))

pub HasGained-there :
    {k : PaymentKey} {rows rows' : List PaymentRow}
    → HasGained k rows rows'
    → any (row_has_key k) rows' ≡ true
HasGained-there {k} {rows} {rows'} g = rw g.appended (
    ground (
      arith,
      any-append (row_has_key k) rows (g.row ∷ []),
      ap (λ key. row_has_key key g.row) g.key_same,
      row_has_key_self g.row,
    ))

module _ (p : Platform) (engine : PaymentStatement → Result (Unit {0})) where
  write_payment-ok :
      (r : PaymentRecord) (rows rows' : List PaymentRow)
      → write_payment p engine r rows ≡ ok rows'
      → HasGained (key_of (row_of p r)) rows rows'
  unfolding write_payment
  write_payment-ok r rows rows' h = record {
    row = row_of p r;
    key_same = refl;
    appended = ground arith;
    fresh = ground arith;
  }

  created_key :
      (now : ℕ) (pp : PaymentPayload) (d : Eip712Domain) (resource : ResourceConfig)
      (organization : OrganizationConfig) (hash : Hash) (ip : Text) (r : PaymentRecord)
      → create_payment_record p now pp d resource organization hash ip ≡ ok r
      → key_of (row_of p r) ≡ payment_key p pp d
  unfolding create_payment_record row_of payment_key
  created_key now pp d resource organization hash ip r h =
      let (json_info, dumped, e) = >>=-eq-ok (p.dump (payment_payload_to_json p pp)) _ h in
      let same = ok-injective e in ap (λ r. key_of (row_of p r)) (sym same)

  -- A payment that is saved was not in the table under its key, and is its last row.
  pub save_settled_payment-HasGained :
      (now : ℕ) (pp : PaymentPayload) (d : Eip712Domain) (resource : ResourceConfig)
      (organization : OrganizationConfig) (hash : Hash) (ip : Text) (rows rows' : List PaymentRow)
      → save_settled_payment p engine now pp d resource organization hash ip rows ≡ ok rows'
      → HasGained (payment_key p pp d) rows rows'
  unfolding save_settled_payment
  save_settled_payment-HasGained now pp d resource organization hash ip rows rows' h =
      let (r, created, written) =
        >>=-eq-ok (create_payment_record p now pp d resource organization hash ip)
          (λ r. write_payment p engine r rows) h in
      subst (λ k. HasGained k rows rows')
        (created_key now pp d resource organization hash ip r created)
        (write_payment-ok r rows rows' written)
