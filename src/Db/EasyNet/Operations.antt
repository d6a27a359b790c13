-- ===== src/Db/EasyNet/Operations.antt =====
-- src/db/EasyNetDb.cpp: EasyNetDb's operations. What the engine does on a statement is the parameter
-- `engine`: it runs it or throws. Each operation holds the mutex `stateMutex_` throughout, so it is
-- one step. The transfer is in Db/EasyNet/Transferring.
use machinepal.Prelude.{ℕ, false, not, str, Option, none, some, if◌then◌else◌, is_empty}
use machinepal.Result.{Result, ok, err, ◌>>=◌, ◌>>◌, rethrow_nested}
use machinepal.Platform.{Platform}
use machinepal.Crypto.Encoding.{u256_from_hex_or_decimal}
use machinepal.Crypto.Values.{EthAddress, address_to_hex, token_amount_to_db_string}
use machinepal.Facilitator.Errors.{FacilitatorError}
use machinepal.Db.EasyNet.Tables.{
  Tables, Statement, open_session, select_existing, insert_funding, select_balance, insert_wallet,
  TransferRequest, select_value, insert_into_state,
}
use machinepal.Db.EasyNet.Transferring.{transfer_value_unsafe}

module _ (p : Platform) (engine : Statement → Result (Unit {0})) where
  unfoldable pub fund_user_wallet_with_funds_if_new_wallet_unsafe :
      EthAddress → EthAddress → Tables → Result Tables
  fund_user_wallet_with_funds_if_new_wallet_unsafe wallet_address asset_address t =
      rethrow_nested (str "Failed to fund user wallet: ") (do
        engine open_session
        let wallet = address_to_hex p wallet_address false
        let asset = address_to_hex p asset_address false
        engine select_existing
        if not (is_empty (select_value wallet asset t.state)) then ok t else (do
          initial ← u256_from_hex_or_decimal p (str "1000000000000000000000000000")
          engine insert_funding
          ok (record t {
            state = insert_into_state wallet asset (token_amount_to_db_string p initial) t.state;
          })))

  unfoldable pub process_transfer_request :
      TransferRequest → Tables → Result (Option FacilitatorError) × Tables
  process_transfer_request q t =
      elim (fund_user_wallet_with_funds_if_new_wallet_unsafe q.from_address q.asset_address t) [
        | ok funded ↦ transfer_value_unsafe p engine q funded
        | err e ↦ (err e, t)
      ]

  unfoldable pub get_balance : EthAddress → EthAddress → Tables → Result (Option ℕ)
  get_balance wallet_address asset_address t = rethrow_nested (str "Failed to read balance: ") (do
    engine open_session
    engine select_balance
    let balance_text =
        select_value (address_to_hex p wallet_address false) (address_to_hex p asset_address false)
          t.state
    if is_empty balance_text
        then ok none
        else (do balance ← u256_from_hex_or_decimal p balance_text; ok (some balance)))

  unfoldable pub new_wallet_unsafe : EthAddress → EthAddress → ℕ → Tables → Result Tables
  new_wallet_unsafe wallet_address asset_address value t =
      rethrow_nested (str "Failed to insert state row:") (do
        engine open_session
        engine insert_wallet
        ok (record t {
          state =
              insert_into_state (address_to_hex p wallet_address false)
                (address_to_hex p asset_address false) (token_amount_to_db_string p value) t.state;
        }))
