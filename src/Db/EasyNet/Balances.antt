-- ===== src/Db/EasyNet/Balances.antt =====
-- Reading balances of a well-formed table (EasyNetDb.cpp): the texts that SELECT returns, as
-- numbers.
use machinepal.Prelude.{
  ℕ, ◌<◌, ◌≡◌, refl, inl, inr, ap, ◌∙◌, sym, true, false, Text, List, [], ◌∷◌, All, All-append,
  arith, is_empty, Bool-cases,
}
use machinepal.Result.{ok}
use machinepal.Platform.{Platform, IsDocumented, u256_mod, decimal_value_from, HasNoLeadingZero}
use machinepal.Crypto.Encoding.{u256_from_hex_or_decimal, u256_to_decimal}
use machinepal.Crypto.Encoding.Decimal.{u256_from_hex_or_decimal-u256_to_decimal}
use machinepal.Db.EasyNet.Tables.{
  StateRow, row_matches, select_value, update_state, insert_into_state,
}
use machinepal.Db.EasyNet.Rows.{
  has_row, IsBalance, IsLedger, update_state-Distinct, insert_into_state-Distinct,
}

-- The balance of a wallet in an asset; 0 where it has no row.
abbrev pub balance : Text → Text → List StateRow → ℕ
balance w a rows = decimal_value_from 0 (select_value w a rows)

pub select_value_absent :
    (w a : Text) (rows : List StateRow) → has_row w a rows ≡ false → select_value w a rows ≡ []
unfolding select_value
select_value_absent w a [] h = refl
select_value_absent w a (r ∷ rows) h = ground (arith, select_value_absent w a rows)

nonempty : (t : Text) → HasNoLeadingZero t → is_empty t ≡ false
unfolding is_empty
nonempty [] h = absurd h
nonempty (c ∷ t) h = refl

module _ (p : Platform) (doc : IsDocumented p) where
  pub is_empty-dec : (n : ℕ) → is_empty (p.dec n) ≡ false
  is_empty-dec n = nonempty (p.dec n) (doc.dec-IsDecimal n).canonical

  pub read-dec : (n : ℕ) → n < u256_mod → u256_from_hex_or_decimal p (p.dec n) ≡ ok n
  unfolding u256_to_decimal
  read-dec n small = u256_from_hex_or_decimal-u256_to_decimal p n doc small

  -- The text of a row that is there is the decimal of its balance.
  pub select_value_present :
      (w a : Text) (rows : List StateRow)
      → All (IsBalance p) rows
      → has_row w a rows ≡ true
      → (balance w a rows < u256_mod) × (select_value w a rows ≡ p.dec (balance w a rows))
  unfolding select_value
  select_value_present w a [] b h = cc
  select_value_present w a (r ∷ rows) b h = elim (Bool-cases (row_matches w a r)) [
    | inl hit ↦
        let (n, small, text) = b.0 in
        let v : decimal_value_from 0 r.value ≡ n =
          ap (decimal_value_from 0) text ∙ doc.value-dec n in
        rw hit (omega arith, text ∙ ap p.dec (sym v))
    | inr miss ↦ rw miss (select_value_present w a rows b.1 (ground arith))
  ]

  pub balance_small :
      (w a : Text) (rows : List StateRow) → All (IsBalance p) rows → balance w a rows < u256_mod
  unfolding decimal_value_from
  balance_small w a rows b = elim (Bool-cases (has_row w a rows)) [
    | inl there ↦ (select_value_present w a rows b there).0
    | inr absent ↦ rw (select_value_absent w a rows absent) (omega arith)
  ]

  update_state-balances :
      (w a : Text) (n : ℕ) (rows : List StateRow)
      → n < u256_mod
      → All (IsBalance p) rows
      → All (IsBalance p) (update_state w a (p.dec n) rows)
  unfolding update_state
  update_state-balances w a n [] small b = tt
  update_state-balances w a n (r ∷ rows) small b = elim (Bool-cases (row_matches w a r)) [
    | inl hit ↦ rw hit ((n, small, refl), update_state-balances w a n rows small b.1)
    | inr miss ↦ rw miss (b.0, update_state-balances w a n rows small b.1)
  ]

  pub update_state-IsLedger :
      (w a : Text) (n : ℕ) (rows : List StateRow)
      → n < u256_mod
      → IsLedger p rows
      → IsLedger p (update_state w a (p.dec n) rows)
  update_state-IsLedger w a n rows small l = record {
    balances = update_state-balances w a n rows small l.balances;
    distinct = update_state-Distinct w a (p.dec n) rows l.distinct;
  }

  pub insert_into_state-IsLedger :
      (w a : Text) (n : ℕ) (rows : List StateRow)
      → n < u256_mod
      → has_row w a rows ≡ false
      → IsLedger p rows
      → IsLedger p (insert_into_state w a (p.dec n) rows)
  unfolding insert_into_state
  insert_into_state-IsLedger w a n rows small absent l = record {
    balances = All-append (IsBalance p) rows _ l.balances ((n, small, refl), tt);
    distinct = insert_into_state-Distinct w a (p.dec n) rows absent l.distinct;
  }
