-- ===== src/Db/EasyNet/Transfer.antt =====
-- What EasyNetDb::transferValueUnsafe does to the balances, on every branch.
use machinepal.Prelude.{
  ℕ, ◌+◌, ◌-◌, ◌%◌, ◌<◌, ◌≤◌, ◌≡◌, refl, Bool, true, false, Text, [], none, arith, ltb, is_empty,
}
use machinepal.Result.{Result, ok}
use machinepal.Platform.{Platform, IsDocumented, u256_mod, decimal_value_from}
use machinepal.Crypto.Encoding.{u256_to_decimal}
use machinepal.Crypto.Values.{address_to_hex}
use machinepal.Db.EasyNet.Tables.{
  Tables, Statement, TransferRequest, select_value, update_state, insert_transaction,
}
use machinepal.Db.EasyNet.Transferring.{write_receiver_row, transfer_value_unsafe}
use machinepal.Db.EasyNet.Attempts.{attempted, persisted, transfer_value_unsafe-eq}
use machinepal.Db.EasyNet.Rows.{has_row, IsLedger}
use machinepal.Db.EasyNet.Balances.{
  balance, select_value_absent, select_value_present, is_empty-dec, read-dec,
}

-- The texts by which a request's three addresses stand in the tables.
abbrev pub sender : Platform → TransferRequest → Text
sender p q = address_to_hex p q.from_address false

abbrev pub receiver : Platform → TransferRequest → Text
receiver p q = address_to_hex p q.to_address false

abbrev pub asset : Platform → TransferRequest → Text
asset p q = address_to_hex p q.asset_address false

-- What the checks of the code ask of the balances.
pub record IsCovered (p : Platform) (q : TransferRequest) (t : Tables) : Type 0 where
  pub known : has_row (sender p q) (asset p q) t.state ≡ true
  pub funded : q.value ≤ balance (sender p q) (asset p q) t.state
  pub fits : balance (receiver p q) (asset p q) t.state + q.value < u256_mod

module _ (p : Platform) (doc : IsDocumented p) where
  -- The tables that a transfer leaves, from the balances that it has read.
  unfoldable pub moved : TransferRequest → Tables → ℕ → Bool → ℕ → Tables
  moved q t s there r = record {
    state =
        write_receiver_row there (receiver p q) (asset p q) (p.dec (r + q.value))
          (update_state (sender p q) (asset p q) (p.dec (s - q.value)) t.state);
    transactions =
        insert_transaction (sender p q) (receiver p q) (asset p q) (p.hex_lower q.nonce)
          (p.dec q.value) (p.dec q.chain_id) q t.transactions;
  }

  -- The tables that a covered transfer leaves.
  unfoldable pub after : TransferRequest → Tables → Tables
  unfolding moved
  after q t =
      moved q t (balance (sender p q) (asset p q) t.state)
        (has_row (receiver p q) (asset p q) t.state) (balance (receiver p q) (asset p q) t.state)

  -- What a SELECT of the receiver's balance has read.
  abbrev Reads : Text → Bool → ℕ → Type 0
  Reads text true r = (r < u256_mod) × (text ≡ p.dec r)
  Reads text false r = (text ≡ []) × (r ≡ 0)

  module _ (engine : Statement → Result (Unit {0}))
      (works : (s : Statement) → engine s ≡ ok tt) where
    persisted-moved :
        (q : TransferRequest) (t : Tables) (there : Bool) (s r : ℕ)
        → s < u256_mod
        → q.value ≤ s
        → r + q.value < u256_mod
        → persisted p engine q t s there r ≡ ok (moved q t s there r)
    unfolding persisted u256_to_decimal moved
    persisted-moved q t there s r small funded fits =
        let debit : (s + u256_mod - q.value) % u256_mod ≡ s - q.value = omega arith in
        let credit : (r + q.value) % u256_mod ≡ r + q.value = omega arith in
        simp (works, debit, credit)

    committed :
        (q : TransferRequest) (t : Tables) (there : Bool) (s r : ℕ)
        → s < u256_mod
        → select_value (sender p q) (asset p q) t.state ≡ p.dec s
        → Reads (select_value (receiver p q) (asset p q) t.state) there r
        → q.value ≤ s
        → r + q.value < u256_mod
        → attempted p engine q t ≡ ok (none, moved q t s there r)
    unfolding attempted is_empty
    committed q t true s r small text reads funded fits =
        let covered : ltb s q.value ≡ false = ground arith in
        let bounded : ltb (u256_mod - 1 - r) q.value ≡ false = ground arith in
        simp (
          works,
          text,
          is_empty-dec p doc,
          read-dec p doc s small,
          covered,
          reads.1,
          read-dec p doc r reads.0,
          bounded,
          persisted-moved q t true s r small funded fits,
        )
    committed q t false s r small text reads funded fits =
        let covered : ltb s q.value ≡ false = ground arith in
        let bounded : ltb (u256_mod - 1 - 0) q.value ≡ false = ground arith in
        rw reads.1 (
          simp (
            works,
            text,
            is_empty-dec p doc,
            read-dec p doc s small,
            covered,
            reads.0,
            bounded,
            persisted-moved q t false s 0 small funded (omega arith),
          ))

    Reads-receiver :
        (q : TransferRequest) (t : Tables) (there : Bool)
        → IsLedger p t.state
        → has_row (receiver p q) (asset p q) t.state ≡ there
        → Reads
            (select_value (receiver p q) (asset p q) t.state)
            there
            (balance (receiver p q) (asset p q) t.state)
    unfolding decimal_value_from
    Reads-receiver q t true l h =
        select_value_present p doc (receiver p q) (asset p q) t.state l.balances h
    Reads-receiver q t false l h =
        let gone = select_value_absent (receiver p q) (asset p q) t.state h in (gone, rw gone)

    pub transfer_commits :
        (q : TransferRequest) (t : Tables)
        → IsLedger p t.state
        → IsCovered p q t
        → transfer_value_unsafe p engine q t ≡ (ok none, after q t)
    unfolding after
    transfer_commits q t l c =
        let (small, text) =
          select_value_present p doc (sender p q) (asset p q) t.state l.balances c.known in
        let done =
          committed q t (has_row (receiver p q) (asset p q) t.state)
            (balance (sender p q) (asset p q) t.state) (balance (receiver p q) (asset p q) t.state)
            small text (Reads-receiver q t _ l refl) c.funded c.fits in
        rw (transfer_value_unsafe-eq p engine q t) (rw done)
