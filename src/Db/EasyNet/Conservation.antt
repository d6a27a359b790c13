-- ===== src/Db/EasyNet/Conservation.antt =====
-- The balances, the total supply and the invariant of the table after a transfer that commits
-- (EasyNetDb::transferValueUnsafe).
use machinepal.Prelude.{
  ℕ, ◌+◌, ◌-◌, ◌≡◌, refl, ap, ◌∙◌, Bool, true, false, Text, List, arith, inl, inr, if◌then◌else◌,
  text_eq, text_eq_iff, text_eq_refl, Bool-cases, none,
}
use machinepal.Result.{Result, ok}
use machinepal.Platform.{Platform, IsDocumented, decimal_value_from}
use machinepal.Db.EasyNet.Tables.{StateRow, Tables, Statement, TransferRequest, update_state}
use machinepal.Db.EasyNet.Transferring.{write_receiver_row, transfer_value_unsafe}
use machinepal.Db.EasyNet.Rows.{
  has_row, IsLedger, supply, supply-update_state, supply-insert, select_value-update_state_self,
  select_value-update_state_ne, select_value-insert, has_row-update_state,
}
use machinepal.Db.EasyNet.Balances.{
  balance, balance_small, select_value_absent, update_state-IsLedger, insert_into_state-IsLedger,
}
use machinepal.Db.EasyNet.Transfer.{sender, receiver, asset, IsCovered, after, transfer_commits}

module _ (p : Platform) (doc : IsDocumented p) where
  balance-update_state :
      (from a w : Text) (n : ℕ) (rows : List StateRow)
      → has_row from a rows ≡ true
      → balance w a (update_state from a (p.dec n) rows)
        ≡ (if text_eq from w then n else balance w a rows)
  balance-update_state from a w n rows there = elim (Bool-cases (text_eq from w)) [
    | inl hit ↦
        let same : from ≡ w = (text_eq_iff from w).0 hit in
        rw (hit, ← same, select_value-update_state_self from a (p.dec n) rows there)
          (doc.value-dec n)
    | inr miss ↦ rw (miss, select_value-update_state_ne from a w a (p.dec n) rows (ground arith))
  ]

  balance-write_receiver_row :
      (there : Bool) (to a w : Text) (n : ℕ) (rows : List StateRow)
      → has_row to a rows ≡ there
      → balance w a (write_receiver_row there to a (p.dec n) rows)
        ≡ (if text_eq to w then n else balance w a rows)
  unfolding write_receiver_row
  balance-write_receiver_row true to a w n rows h = balance-update_state to a w n rows h
  balance-write_receiver_row false to a w n rows h =
      let read = select_value-insert to a w a (p.dec n) rows h in
      elim (Bool-cases (text_eq to w)) [
        | inl hit ↦ simp (read, hit, text_eq_refl a) (doc.value-dec n)
        | inr miss ↦ simp (read, miss)
      ]

  module _ (q : TransferRequest) (t : Tables) (l : IsLedger p t.state) (c : IsCovered p q t) where
    abbrev held : Text → ℕ
    held w = balance w (asset p q) t.state

    -- The rows once the sender's is written.
    abbrev debited : List StateRow
    debited = update_state (sender p q) (asset p q) (p.dec (held (sender p q) - q.value)) t.state

    kept_row : (w a : Text) → has_row w a debited ≡ has_row w a t.state
    kept_row w a = has_row-update_state (sender p q) (asset p q) w a _ t.state

    pub balance-after :
        (w : Text)
        → balance w (asset p q) (after p doc q t).state ≡ (
            if text_eq (receiver p q) w
            then held (receiver p q) + q.value
            else if text_eq (sender p q) w
            then held (sender p q) - q.value
            else held w)
    unfolding after
    balance-after w = rw (
      balance-write_receiver_row (has_row (receiver p q) (asset p q) t.state) (receiver p q)
          (asset p q) w (held (receiver p q) + q.value) debited (kept_row _ _),
      balance-update_state (sender p q) (asset p q) w (held (sender p q) - q.value) t.state c.known,
    )

    debited-IsLedger : IsLedger p debited
    debited-IsLedger =
        let small = balance_small p doc (sender p q) (asset p q) t.state l.balances in
        update_state-IsLedger p doc (sender p q) (asset p q) (held (sender p q) - q.value) t.state
          (omega arith) l

    write_receiver_row-IsLedger :
        (there : Bool)
        → has_row (receiver p q) (asset p q) t.state ≡ there
        → IsLedger p (
            write_receiver_row there
              (receiver p q)
              (asset p q)
              (p.dec (held (receiver p q) + q.value))
              debited)
    unfolding write_receiver_row
    write_receiver_row-IsLedger true h =
        update_state-IsLedger p doc (receiver p q) (asset p q) (held (receiver p q) + q.value)
          debited c.fits debited-IsLedger
    write_receiver_row-IsLedger false h =
        insert_into_state-IsLedger p doc (receiver p q) (asset p q) (held (receiver p q) + q.value)
          debited c.fits (kept_row _ _ ∙ h) debited-IsLedger

    pub after-IsLedger : IsLedger p (after p doc q t).state
    unfolding after
    after-IsLedger = write_receiver_row-IsLedger _ refl

    supply-debited : supply (asset p q) debited + q.value ≡ supply (asset p q) t.state
    supply-debited = omega (
      arith,
      supply-update_state (sender p q) (asset p q) (p.dec (held (sender p q) - q.value)) t.state
          l.distinct c.known,
      doc.value-dec (held (sender p q) - q.value),
      c.funded,
    )

    supply-write_receiver_row :
        (there : Bool)
        → has_row (receiver p q) (asset p q) t.state ≡ there
        → supply (asset p q) (
              write_receiver_row there
                (receiver p q)
                (asset p q)
                (p.dec (held (receiver p q) + q.value))
                debited)
            + balance (receiver p q) (asset p q) debited
          ≡ supply (asset p q) debited + (held (receiver p q) + q.value)
    unfolding write_receiver_row decimal_value_from
    supply-write_receiver_row true h = omega (
      arith,
      supply-update_state (receiver p q) (asset p q) (p.dec (held (receiver p q) + q.value)) debited
          debited-IsLedger.distinct (kept_row _ _ ∙ h),
      doc.value-dec (held (receiver p q) + q.value),
    )
    supply-write_receiver_row false h = omega (
      arith,
      supply-insert (receiver p q) (asset p q) (p.dec (held (receiver p q) + q.value)) debited,
      doc.value-dec (held (receiver p q) + q.value),
      ap (decimal_value_from 0)
          (select_value_absent (receiver p q) (asset p q) debited (kept_row _ _ ∙ h)),
    )

    pub supply-after : supply (asset p q) (after p doc q t).state ≡ (
        if text_eq (sender p q) (receiver p q)
        then supply (asset p q) t.state + q.value
        else supply (asset p q) t.state)
    unfolding after
    supply-after =
        let written = supply-write_receiver_row _ refl in
        let left =
          balance-update_state (sender p q) (asset p q) (receiver p q) (held (sender p q) - q.value)
            t.state c.known in
        elim (Bool-cases (text_eq (sender p q) (receiver p q))) [
          | inl self ↦
              let same : held (sender p q) ≡ held (receiver p q) =
                ap held ((text_eq_iff _ _).0 self) in
              rw self (omega (arith, written, rw self at left, same, supply-debited, c.funded))
          | inr other ↦ rw other (omega (arith, written, rw other at left, supply-debited))
        ]

-- On an engine that works and a ledger that is well formed, a transfer whose sender has a row and at
-- least the amount, and whose receiver's balance stays below 2^256, returns no error; afterwards the
-- receiver has the amount more, the sender, if it is another wallet, the amount less, and every other
-- wallet what it had. Where the two wallets are one, its balance grows by the amount.
pub transfer_value_unsafe-balances :
    (p : Platform) (engine : Statement → Result (Unit {0})) (q : TransferRequest) (t : Tables)
    → IsDocumented p
    → ((s : Statement) → engine s ≡ ok tt)
    → IsLedger p t.state
    → IsCovered p q t
    → ((transfer_value_unsafe p engine q t).0 ≡ ok none)
      × ((w : Text)
          → balance w (asset p q) (transfer_value_unsafe p engine q t).1.state ≡ (
              if text_eq (receiver p q) w
              then balance (receiver p q) (asset p q) t.state + q.value
              else if text_eq (sender p q) w
              then balance (sender p q) (asset p q) t.state - q.value
              else balance w (asset p q) t.state))
transfer_value_unsafe-balances p engine q t doc works l c =
    rw (transfer_commits p doc engine works q t l c) (refl, balance-after p doc q t l c)

-- On an engine that works and a ledger that is well formed, a transfer whose sender has a row and at
-- least the amount, and whose receiver's balance stays below 2^256, keeps the sum of the asset's
-- balances where sender and receiver differ. Where they are one wallet, the sum grows by the amount.
pub supply-transfer_value_unsafe :
    (p : Platform) (engine : Statement → Result (Unit {0})) (q : TransferRequest) (t : Tables)
    → IsDocumented p
    → ((s : Statement) → engine s ≡ ok tt)
    → IsLedger p t.state
    → IsCovered p q t
    → supply (asset p q) (transfer_value_unsafe p engine q t).1.state ≡ (
        if text_eq (sender p q) (receiver p q)
        then supply (asset p q) t.state + q.value
        else supply (asset p q) t.state)
supply-transfer_value_unsafe p engine q t doc works l c =
    rw (transfer_commits p doc engine works q t l c) (supply-after p doc q t l c)
