-- ===== src/Db/EasyNet/Funding.antt =====
-- EasyNetDb::processTransferRequest, which funds a sender without a row first.
use machinepal.Prelude.{
  ℕ, ◌^◌, ◌≡◌, ◌≢◌, refl, ap, sym, ◌∙◌, true, false, not, Text, str, List, arith, inl, inr, ◌⊎◌,
  Bool-cases, none, some, Option, is_empty, text_eq_refl,
}
use machinepal.Result.{Result, ok, err}
use machinepal.Platform.{Platform, IsDocumented, decimal_value_from}
use machinepal.Crypto.Encoding.{u256_from_hex_or_decimal, u256_to_decimal}
use machinepal.Crypto.Encoding.Decimal.{u256_from_hex_or_decimal-IsDecimal}
use machinepal.Crypto.Values.{EthAddress, address_to_hex, token_amount_to_db_string}
use machinepal.Facilitator.Errors.{FacilitatorError}
use machinepal.Db.EasyNet.Tables.{
  Tables, Statement, StateRow, TransferRequest, select_value, insert_into_state,
}
use machinepal.Db.EasyNet.Operations.{
  fund_user_wallet_with_funds_if_new_wallet_unsafe, process_transfer_request,
}
use machinepal.Db.EasyNet.Transferring.{transfer_value_unsafe}
use machinepal.Db.EasyNet.Attempts.{attempted, concluded, transfer_value_unsafe-eq}
use machinepal.Db.EasyNet.Rows.{has_row, has_row-insert, IsLedger}
use machinepal.Db.EasyNet.Balances.{
  balance, select_value_absent, select_value_present, is_empty-dec, read-dec,
  insert_into_state-IsLedger,
}
use machinepal.Db.EasyNet.Transfer.{sender, receiver, asset, IsCovered, after, transfer_commits}
use machinepal.Db.EasyNet.Conservation.{after-IsLedger}
use machinepal.Db.EasyNet.Failures.{committed_anyway, refused_unchanged}

abbrev pub initial_funding : ℕ
initial_funding = 10 ^ 27

module _ (p : Platform) (doc : IsDocumented p) where
  initial_funding_text :
      u256_from_hex_or_decimal p (str "1000000000000000000000000000") ≡ ok initial_funding
  unfolding str decimal_value_from
  initial_funding_text =
      u256_from_hex_or_decimal-IsDecimal p doc (str "1000000000000000000000000000")
        (record { digits = omega arith; canonical = omega arith }) (omega arith)

  -- A row that is there has a text.
  is_empty-select_value :
      (w a : Text) (rows : List StateRow)
      → IsLedger p rows
      → is_empty (select_value w a rows) ≡ not (has_row w a rows)
  unfolding is_empty
  is_empty-select_value w a rows l = elim (Bool-cases (has_row w a rows)) [
    | inl there ↦
        rw ((select_value_present p doc w a rows l.balances there).1, there) (is_empty-dec p doc _)
    | inr absent ↦ rw (select_value_absent w a rows absent, absent)
  ]

  funded_rows :
      (engine : Statement → Result (Unit {0})) (wallet asset_address : EthAddress) (t t' : Tables)
      → fund_user_wallet_with_funds_if_new_wallet_unsafe p engine wallet asset_address t ≡ ok t'
      → ((t'.state ≡ t.state)
          × (is_empty (
                select_value
                  (address_to_hex p wallet false)
                  (address_to_hex p asset_address false)
                  t.state)
              ≡ false))
        ⊎ ((t'.state
              ≡ insert_into_state
                  (address_to_hex p wallet false)
                  (address_to_hex p asset_address false)
                  (p.dec initial_funding)
                  t.state)
            × (is_empty (
                  select_value
                    (address_to_hex p wallet false)
                    (address_to_hex p asset_address false)
                    t.state)
                ≡ true))
  unfolding fund_user_wallet_with_funds_if_new_wallet_unsafe token_amount_to_db_string
      u256_to_decimal
  funded_rows engine wallet asset_address t t' h = ground (arith, initial_funding_text)

  -- After funding the wallet has a row, and the table is well formed.
  funded-IsLedger :
      (engine : Statement → Result (Unit {0})) (wallet asset_address : EthAddress) (t t' : Tables)
      → IsLedger p t.state
      → fund_user_wallet_with_funds_if_new_wallet_unsafe p engine wallet asset_address t ≡ ok t'
      → IsLedger p t'.state
        × (has_row (address_to_hex p wallet false) (address_to_hex p asset_address false) t'.state
            ≡ true)
  funded-IsLedger engine wallet asset_address t t' l h =
      let w = address_to_hex p wallet false in
      let a = address_to_hex p asset_address false in
      let read = is_empty-select_value w a t.state l in
      elim (funded_rows engine wallet asset_address t t' h) [
        | inl (same, old) ↦ rw same (l, ground (arith, read))
        | inr (grown, new) ↦
            let absent : has_row w a t.state ≡ false = ground (arith, read) in
            rw grown (
              insert_into_state-IsLedger p doc w a initial_funding t.state (omega arith) absent l,
              ground (
                arith,
                has_row-insert w a (p.dec initial_funding) w a t.state,
                text_eq_refl w,
                text_eq_refl a,
              ),
            )
      ]

  -- A transfer from a wallet with a row either does nothing or is covered.
  IsCovered-of_commit :
      (q : TransferRequest) (t t' : Tables)
      → IsLedger p t.state
      → has_row (sender p q) (asset p q) t.state ≡ true
      → attempted p (λ _. ok tt) q t ≡ ok (none, t')
      → IsCovered p q t
  unfolding attempted is_empty decimal_value_from
  IsCovered-of_commit q t t' l known h =
      let (s_small, s_text) =
        select_value_present p doc (sender p q) (asset p q) t.state l.balances known in
      let s_read = read-dec p doc (balance (sender p q) (asset p q) t.state) s_small in
      let s_there = is_empty-dec p doc (balance (sender p q) (asset p q) t.state) in
      elim (Bool-cases (has_row (receiver p q) (asset p q) t.state)) [
        | inl there ↦
            let (r_small, r_text) =
              select_value_present p doc (receiver p q) (asset p q) t.state l.balances there in
            let r_read = read-dec p doc (balance (receiver p q) (asset p q) t.state) r_small in
            let r_there = is_empty-dec p doc (balance (receiver p q) (asset p q) t.state) in
            record { known = known; funded = ground arith; fits = ground arith }
        | inr absent ↦
            let r_text = select_value_absent (receiver p q) (asset p q) t.state absent in
            record { known = known; funded = ground arith; fits = ground arith }
      ]

  committed-IsLedger :
      (engine : Statement → Result (Unit {0})) (q : TransferRequest) (t t' : Tables)
      → IsLedger p t.state
      → has_row (sender p q) (asset p q) t.state ≡ true
      → attempted p engine q t ≡ ok (none, t')
      → IsLedger p t'.state
  committed-IsLedger engine q t t' l known h =
      let h' = committed_anyway p engine q t (none, t') h in
      let c = IsCovered-of_commit q t t' l known h' in
      let run = transfer_commits p doc (λ _. ok tt) (λ _. refl) q t l c in
      let eq : transfer_value_unsafe p (λ _. ok tt) q t
          ≡ concluded p (λ _. ok tt) t (attempted p (λ _. ok tt) q t) =
        transfer_value_unsafe-eq p (λ _. ok tt) q t in
      let same : t' ≡ after p doc q t =
        ap (λ (x : Result (Option FacilitatorError) × Tables). x.1) (sym (rw h' at eq) ∙ run) in
      rw same (after-IsLedger p doc q t l c)

  transfer-IsLedger :
      (engine : Statement → Result (Unit {0})) (q : TransferRequest) (t : Tables)
      → IsLedger p t.state
      → has_row (sender p q) (asset p q) t.state ≡ true
      → (r : Result (Option FacilitatorError × Tables)) → attempted p engine q t ≡ r
      → IsLedger p (concluded p engine t r).1.state
  transfer-IsLedger engine q t l known (ok (none, t')) e =
      committed-IsLedger engine q t t' l known e
  transfer-IsLedger engine q t l known (ok (some er, t')) e =
      rw (refused_unchanged p engine q t er t' e) l
  transfer-IsLedger engine q t l known (err er) e = l

  process-IsLedger :
      (engine : Statement → Result (Unit {0})) (q : TransferRequest) (t : Tables)
      → IsLedger p t.state
      → (r : Result Tables)
      → fund_user_wallet_with_funds_if_new_wallet_unsafe p engine q.from_address q.asset_address t
        ≡ r
      → IsLedger p (process_transfer_request p engine q t).1.state
  unfolding process_transfer_request
  process-IsLedger engine q t l (ok f) e =
      let (lf, known) = funded-IsLedger engine q.from_address q.asset_address t f l e in
      rw (e, process_transfer_request)
        (rw (transfer_value_unsafe-eq p engine q f) (transfer-IsLedger engine q f lf known _ refl))
  process-IsLedger engine q t l (err er) e = rw (e, process_transfer_request) l

  IsCovered-of_change :
      (engine : Statement → Result (Unit {0})) (q : TransferRequest) (t : Tables)
      → IsLedger p t.state
      → has_row (sender p q) (asset p q) t.state ≡ true
      → (r : Result (Option FacilitatorError × Tables)) → attempted p engine q t ≡ r
      → (concluded p engine t r).1 ≢ t
      → IsCovered p q t
  IsCovered-of_change engine q t l known (ok (none, t')) e changed =
      IsCovered-of_commit q t t' l known (committed_anyway p engine q t (none, t') e)
  IsCovered-of_change engine q t l known (ok (some er, t')) e changed =
      absurd (changed (refused_unchanged p engine q t er t' e))
  IsCovered-of_change engine q t l known (err er) e changed = absurd (changed refl)

  not_funded :
      (engine : Statement → Result (Unit {0})) (q : TransferRequest) (t : Tables)
      → ((s : Statement) → engine s ≡ ok tt)
      → is_empty (select_value (sender p q) (asset p q) t.state) ≡ false
      → fund_user_wallet_with_funds_if_new_wallet_unsafe p engine q.from_address q.asset_address t
        ≡ ok t
  unfolding fund_user_wallet_with_funds_if_new_wallet_unsafe
  not_funded engine q t works row = simp (works, row)

  -- A sender with a row is not funded, and a settlement that changes the tables was covered.
  pub process_transfer_request-IsCovered :
      (engine : Statement → Result (Unit {0})) (q : TransferRequest) (t : Tables)
      → ((s : Statement) → engine s ≡ ok tt)
      → IsLedger p t.state
      → has_row (sender p q) (asset p q) t.state ≡ true
      → (process_transfer_request p engine q t).1 ≢ t
      → IsCovered p q t
        × (process_transfer_request p engine q t ≡ transfer_value_unsafe p engine q t)
  unfolding process_transfer_request
  process_transfer_request-IsCovered engine q t works l known changed =
      let row : is_empty (select_value (sender p q) (asset p q) t.state) ≡ false =
        ground (arith, is_empty-select_value (sender p q) (asset p q) t.state l) in
      let same : process_transfer_request p engine q t ≡ transfer_value_unsafe p engine q t =
        rw (not_funded engine q t works row, process_transfer_request) in
      let moved = rw (transfer_value_unsafe-eq p engine q t) at (rw same at changed) in
      (IsCovered-of_change engine q t l known _ refl moved, same)

-- Whatever the request and whichever statements the engine refuses, a settlement keeps the table
-- `state` well formed: each balance is the decimal of a number below 2^256, and no wallet has two
-- rows for one asset.
pub process_transfer_request-IsLedger :
    (p : Platform) (engine : Statement → Result (Unit {0})) (q : TransferRequest) (t : Tables)
    → IsDocumented p
    → IsLedger p t.state
    → IsLedger p (process_transfer_request p engine q t).1.state
process_transfer_request-IsLedger p engine q t doc l = process-IsLedger p doc engine q t l _ refl
