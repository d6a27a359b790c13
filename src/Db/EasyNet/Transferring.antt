-- ===== src/Db/EasyNet/Transferring.antt =====
-- src/db/EasyNetDb.cpp: transferValueUnsafe on a session of the database. A statement writes the
-- tables of the session at once; the scope of soci::transaction keeps what a rollback restores from
-- its start to its commit, and its end, by return or exception, rolls back what is not committed.
use machinepal.Prelude.{
  ℕ, ◌+◌, ◌-◌, ◌%◌, Bool, false, not, Text, str, List, Option, none, some, ltb, if◌then◌else◌,
  is_empty,
}
use machinepal.Result.{Result, ok, runtime_error, rethrow_nested}
use machinepal.Exec.{Exec, pure, throw, lift, gets, modify, ◌>>=◌, ◌>>◌}
use machinepal.Platform.{Platform, u256_mod}
use machinepal.Crypto.Encoding.{u256_from_hex_or_decimal, u256_to_decimal}
use machinepal.Crypto.Values.{address_to_hex}
use machinepal.Facilitator.Errors.{FacilitatorError, insufficient_funds}
use machinepal.Db.EasyNet.Tables.{
  StateRow, Tables, Statement, open_session, begin_transaction, commit, select_sender,
  select_receiver, update_sender, write_receiver, insert_journal, TransferRequest, select_value,
  update_state, insert_into_state, insert_transaction,
}

-- The receiver's row is written, or made where it has none.
unfoldable pub write_receiver_row : Bool → Text → Text → Text → List StateRow → List StateRow
write_receiver_row exists_row wallet asset v rows =
    if exists_row then update_state wallet asset v rows else insert_into_state wallet asset v rows

-- The tables as the statements of a session leave them, and what a rollback would restore.
pub record Session : Type 0 where
  pub tables : Tables
  pub restore : Option Tables

-- ~transaction()
abbrev pub roll_back : Option Tables → Tables → Tables
roll_back none tables = tables
roll_back (some restored) tables = restored

module _ (p : Platform) (engine : Statement → Result (Unit {0})) where
  -- soci::transaction( databaseSession )
  unfoldable pub begin_scope : Exec Session (Unit {0})
  begin_scope = do
    lift (engine begin_transaction)
    modify (λ s. record s { restore = some s.tables })

  -- A statement that writes.
  unfoldable pub execute : Statement → (Tables → Tables) → Exec Session (Unit {0})
  execute statement change = do
    lift (engine statement)
    modify (λ s. record s { tables = change s.tables })

  unfoldable pub commit_scope : Exec Session (Unit {0})
  commit_scope = do lift (engine commit); modify (λ s. record s { restore = none })

  -- What follows the reads of the two balances, with the commit.
  unfoldable pub persist_transfer : TransferRequest → ℕ → Bool → ℕ → Exec Session (Unit {0})
  persist_transfer q sender_balance receiver_exists receiver_balance =
      let from = address_to_hex p q.from_address false in
      let to = address_to_hex p q.to_address false in
      let asset = address_to_hex p q.asset_address false in
      let sender_updated = u256_to_decimal p ((sender_balance + u256_mod - q.value) % u256_mod) in
      let receiver_updated = u256_to_decimal p ((receiver_balance + q.value) % u256_mod) in
      do
        execute update_sender
            (λ t. record t { state = update_state from asset sender_updated t.state })
        execute write_receiver (λ t. record t {
          state = write_receiver_row receiver_exists to asset receiver_updated t.state;
        })
        execute insert_journal (λ t. record t {
          transactions =
              insert_transaction from to asset (p.hex_lower q.nonce) (u256_to_decimal p q.value)
                (u256_to_decimal p q.chain_id) q t.transactions;
        })
        commit_scope

  abbrev receiver_balance_of : Text → Result ℕ
  receiver_balance_of text = if is_empty text then ok 0 else u256_from_hex_or_decimal p text

  -- Once the sender's balance covers the amount.
  unfoldable pub transfer_covered : TransferRequest → ℕ → Exec Session (Option FacilitatorError)
  transfer_covered q sender_balance = do
    lift (engine select_receiver)
    receiver_text ← gets (λ s.
        select_value (address_to_hex p q.to_address false) (address_to_hex p q.asset_address false)
          s.tables.state)
    receiver_balance ← lift (receiver_balance_of receiver_text)
    if ltb (u256_mod - 1 - receiver_balance) q.value then pure (some insufficient_funds) else (do
      persist_transfer q sender_balance (not (is_empty receiver_text)) receiver_balance
      pure none)

  -- The body of transferValueUnsafe's `try`.
  unfoldable pub transfer_in_transaction : TransferRequest → Exec Session (Option FacilitatorError)
  transfer_in_transaction q = do
    lift (engine open_session)
    begin_scope
    lift (engine select_sender)
    sender_text ← gets (λ s.
        select_value (address_to_hex p q.from_address false)
          (address_to_hex p q.asset_address false) s.tables.state)
    if is_empty sender_text
        then throw (runtime_error (str "Sender wallet state row not found"))
        else (do
          sender_balance ← lift (u256_from_hex_or_decimal p sender_text)
          if ltb sender_balance q.value
              then pure (some insufficient_funds)
              else transfer_covered q sender_balance)

  -- The scope has ended when the handler runs.
  abbrev pub end_scope :
      Result (Option FacilitatorError) × Session → Result (Option FacilitatorError) × Tables
  end_scope (r, s) =
      (rethrow_nested (str "Failed to transfer value: ") r, roll_back s.restore s.tables)

  -- The tables afterwards and what is returned or thrown.
  unfoldable pub transfer_value_unsafe :
      TransferRequest → Tables → Result (Option FacilitatorError) × Tables
  transfer_value_unsafe q t =
      end_scope (transfer_in_transaction q (record { tables = t; restore = none }))
