-- ===== src/Db/EasyNet/Rows.antt =====
-- Laws of the statements on the table `state` (EasyNetDb.cpp): what a SELECT reads after an UPDATE
-- or an INSERT, the invariant that the table keeps, and the sum of an asset's balances.
use machinepal.Prelude.{
  ℕ, ◌+◌, ◌<◌, ◌≡◌, refl, Bool, true, false, ◌&&◌, ◌||◌, Text, List, [], ◌∷◌, any, All, arith,
  if◌then◌else◌, text_eq, text_eq_iff, text_eq_refl, Bool-cases, inl, inr,
}
use machinepal.Platform.{Platform, u256_mod, decimal_value_from}
use machinepal.Db.EasyNet.Tables.{
  StateRow, row_matches, select_value, update_state, insert_into_state,
}

abbrev pub has_row : Text → Text → List StateRow → Bool
has_row wallet asset rows = any (row_matches wallet asset) rows

abbrev same_key : Text → Text → Text → Text → Bool
same_key w a w' a' = text_eq w w' && text_eq a a'

-- At most one row for each wallet and asset.
abbrev pub Distinct : List StateRow → Type 0
Distinct [] = Unit
Distinct (r ∷ rows) = (has_row r.wallet_address r.asset_address rows ≡ false) × Distinct rows

-- The row's text is the decimal of a 256-bit number.
abbrev pub IsBalance : Platform → StateRow → Type 0
IsBalance p r = (n : ℕ) × (n < u256_mod) × (r.value ≡ p.dec n)

pub record IsLedger (p : Platform) (rows : List StateRow) : Type 0 where
  pub balances : All (IsBalance p) rows
  pub distinct : Distinct rows

matches_both :
    (r : StateRow) (w a w' a' : Text)
    → row_matches w a r ≡ true
    → row_matches w' a' r ≡ same_key w a w' a'
matches_both r w a w' a' h =
    ground (arith, text_eq_iff r.wallet_address w, text_eq_iff r.asset_address a)

pub select_value-update_state_self :
    (w a v : Text) (rows : List StateRow)
    → has_row w a rows ≡ true
    → select_value w a (update_state w a v rows) ≡ v
unfolding select_value update_state
select_value-update_state_self w a v [] h = cc
select_value-update_state_self w a v (r ∷ rows) h =
    ground (arith, select_value-update_state_self w a v rows)

pub select_value-update_state_ne :
    (w a w' a' v : Text) (rows : List StateRow)
    → same_key w a w' a' ≡ false
    → select_value w' a' (update_state w a v rows) ≡ select_value w' a' rows
unfolding select_value update_state
select_value-update_state_ne w a w' a' v [] h = refl
select_value-update_state_ne w a w' a' v (r ∷ rows) h =
    ground (arith, matches_both r w a w' a', select_value-update_state_ne w a w' a' v rows h)

pub select_value-insert :
    (w a w' a' v : Text) (rows : List StateRow)
    → has_row w a rows ≡ false
    → select_value w' a' (insert_into_state w a v rows)
      ≡ (if same_key w a w' a' then v else select_value w' a' rows)
unfolding select_value insert_into_state
select_value-insert w a w' a' v [] h = refl
select_value-insert w a w' a' v (r ∷ rows) h = ground (
  arith,
  text_eq_iff r.wallet_address w',
  text_eq_iff r.asset_address a',
  text_eq_iff w w',
  text_eq_iff a a',
  text_eq_refl w,
  text_eq_refl a,
  text_eq_refl r.wallet_address,
  select_value-insert w a w' a' v rows,
)

pub has_row-update_state :
    (w a w' a' v : Text) (rows : List StateRow)
    → has_row w' a' (update_state w a v rows) ≡ has_row w' a' rows
unfolding update_state
has_row-update_state w a w' a' v [] = refl
has_row-update_state w a w' a' v (r ∷ rows) = ground (arith, has_row-update_state w a w' a' v rows)

pub update_state-Distinct :
    (w a v : Text) (rows : List StateRow) → Distinct rows → Distinct (update_state w a v rows)
unfolding update_state
update_state-Distinct w a v [] d = tt
update_state-Distinct w a v (r ∷ rows) d = (
  ground (arith, has_row-update_state w a r.wallet_address r.asset_address v rows),
  update_state-Distinct w a v rows d.1,
)

pub has_row-insert :
    (w a v w' a' : Text) (rows : List StateRow)
    → has_row w' a' (insert_into_state w a v rows) ≡ has_row w' a' rows || same_key w a w' a'
unfolding insert_into_state
has_row-insert w a v w' a' [] = ground arith
has_row-insert w a v w' a' (r ∷ rows) = ground (arith, has_row-insert w a v w' a' rows)

pub insert_into_state-Distinct :
    (w a v : Text) (rows : List StateRow)
    → has_row w a rows ≡ false
    → Distinct rows
    → Distinct (insert_into_state w a v rows)
unfolding insert_into_state
insert_into_state-Distinct w a v [] h d = (refl, tt)
insert_into_state-Distinct w a v (r ∷ rows) h d = (
  ground (
    arith,
    has_row-insert w a v r.wallet_address r.asset_address rows,
    text_eq_iff w r.wallet_address,
    text_eq_iff a r.asset_address,
    text_eq_refl w,
    text_eq_refl a,
  ),
  insert_into_state-Distinct w a v rows (ground arith) d.1,
)

-- The sum of an asset's balances.
unfoldable pub supply : Text → List StateRow → ℕ
supply a [] = 0
supply a (r ∷ rows) =
    (if text_eq r.asset_address a then decimal_value_from 0 r.value else 0) + supply a rows

update_state_absent :
    (w a v : Text) (rows : List StateRow)
    → has_row w a rows ≡ false
    → update_state w a v rows ≡ rows
unfolding update_state
update_state_absent w a v [] h = refl
update_state_absent w a v (r ∷ rows) h = ground (arith, update_state_absent w a v rows)

absent_below :
    (w a : Text) (r : StateRow) (rows : List StateRow)
    → row_matches w a r ≡ true
    → has_row r.wallet_address r.asset_address rows ≡ false
    → has_row w a rows ≡ false
absent_below w a r rows hit h =
    let same_w : r.wallet_address ≡ w = ground (arith, text_eq_iff r.wallet_address w) in
    let same_a : r.asset_address ≡ a = ground (arith, text_eq_iff r.asset_address a) in
    rw (← same_w, ← same_a) h

pub supply-update_state :
    (w a v : Text) (rows : List StateRow)
    → Distinct rows
    → has_row w a rows ≡ true
    → supply a (update_state w a v rows) + decimal_value_from 0 (select_value w a rows)
      ≡ supply a rows + decimal_value_from 0 v
unfolding supply update_state select_value
supply-update_state w a v [] d h = cc
supply-update_state w a v (r ∷ rows) d h = elim (Bool-cases (row_matches w a r)) [
  | inl hit ↦ ground (
    arith,
    absent_below w a r rows hit d.0,
    update_state_absent w a v rows (absent_below w a r rows hit d.0),
  )
  | inr miss ↦ ground (arith, supply-update_state w a v rows d.1)
]

pub supply-insert :
    (w a v : Text) (rows : List StateRow)
    → supply a (insert_into_state w a v rows) ≡ supply a rows + decimal_value_from 0 v
unfolding supply insert_into_state
supply-insert w a v [] = ground (arith, text_eq_refl a)
supply-insert w a v (r ∷ rows) = omega (arith, supply-insert w a v rows)
