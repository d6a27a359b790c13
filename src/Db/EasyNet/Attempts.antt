-- ===== src/Db/EasyNet/Attempts.antt =====
-- A transfer as a function of the tables (EasyNetDb::transferValueUnsafe): what its session and
-- transaction come to.
use machinepal.Prelude.{
  ℕ, ◌+◌, ◌-◌, ◌%◌, ◌≡◌, Bool, false, not, str, Option, none, some, ltb, if◌then◌else◌, is_empty,
  arith,
}
use machinepal.Result.{Result, ok, err, runtime_error, ◌>>=◌, ◌>>◌, rethrow_nested}
use machinepal.Platform.{Platform, u256_mod}
use machinepal.Crypto.Encoding.{u256_from_hex_or_decimal, u256_to_decimal}
use machinepal.Crypto.Values.{address_to_hex}
use machinepal.Facilitator.Errors.{FacilitatorError, insufficient_funds}
use machinepal.Db.EasyNet.Tables.{
  Tables, Statement, open_session, begin_transaction, commit, select_sender, select_receiver,
  update_sender, write_receiver, insert_journal, TransferRequest, select_value, update_state,
  insert_transaction,
}
use machinepal.Db.EasyNet.Transferring.{
  begin_scope, execute, commit_scope, persist_transfer, transfer_covered, transfer_in_transaction,
  transfer_value_unsafe, write_receiver_row,
}

module _ (p : Platform) (engine : Statement → Result (Unit {0})) where
  -- The tables that the writes leave where no statement is refused.
  unfoldable pub persisted : TransferRequest → Tables → ℕ → Bool → ℕ → Result Tables
  persisted q t sender_balance receiver_exists receiver_balance =
      let from = address_to_hex p q.from_address false in
      let to = address_to_hex p q.to_address false in
      let asset = address_to_hex p q.asset_address false in
      let sender_updated = u256_to_decimal p ((sender_balance + u256_mod - q.value) % u256_mod) in
      let receiver_updated = u256_to_decimal p ((receiver_balance + q.value) % u256_mod) in
      do
        engine update_sender
        let sent = update_state from asset sender_updated t.state
        engine write_receiver
        let received = write_receiver_row receiver_exists to asset receiver_updated sent
        engine insert_journal
        let journal =
            insert_transaction from to asset (p.hex_lower q.nonce) (u256_to_decimal p q.value)
              (u256_to_decimal p q.chain_id) q t.transactions
        engine commit
        ok (record { state = received; transactions = journal })

  -- The tables that a transfer leaves, on every branch, and what it returns.
  unfoldable pub attempted : TransferRequest → Tables → Result (Option FacilitatorError × Tables)
  attempted q t = do
    engine open_session
    engine begin_transaction
    let from = address_to_hex p q.from_address false
    let to = address_to_hex p q.to_address false
    let asset = address_to_hex p q.asset_address false
    engine select_sender
    let sender_text = select_value from asset t.state
    if is_empty sender_text
        then err (runtime_error (str "Sender wallet state row not found"))
        else (do
          sender_balance ← u256_from_hex_or_decimal p sender_text
          if ltb sender_balance q.value then ok (some insufficient_funds, t) else (do
            engine select_receiver
            let receiver_text = select_value to asset t.state
            receiver_balance ←
                if is_empty receiver_text then ok 0 else u256_from_hex_or_decimal p receiver_text
            if ltb (u256_mod - 1 - receiver_balance) q.value
                then ok (some insufficient_funds, t)
                else (do
                  t' ← persisted q t sender_balance (not (is_empty receiver_text)) receiver_balance
                  ok (none, t'))))

  -- An exception leaves the tables as they were.
  abbrev pub concluded :
      Tables → Result (Option FacilitatorError × Tables) → Result (Option FacilitatorError) × Tables
  concluded t (ok (r, t')) = (ok r, t')
  concluded t (err e) = (rethrow_nested (str "Failed to transfer value: ") (err e), t)

  pub transfer_value_unsafe-eq :
      (q : TransferRequest) (t : Tables)
      → transfer_value_unsafe p engine q t ≡ concluded t (attempted q t)
  unfolding transfer_value_unsafe transfer_in_transaction transfer_covered persist_transfer
      begin_scope execute commit_scope attempted persisted
  transfer_value_unsafe-eq q t = ground arith
