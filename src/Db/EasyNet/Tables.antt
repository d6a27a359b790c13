-- ===== src/Db/EasyNet/Tables.antt =====
-- src/db/EasyNetDb.cpp: the tables of the test network and the statements on them. A table is the
-- list of its rows in order of insertion: SELECT reads the first row that matches, UPDATE writes
-- each, INSERT appends. Balances are texts, as in the schema.
use machinepal.Prelude.{ℕ, Bool, ◌&&◌, Text, List, [], ◌∷◌, ◌++◌, if◌then◌else◌, text_eq}
use machinepal.Crypto.Values.{EthAddress, Eip3009Nonce}

pub record StateRow : Type 0 where
  pub wallet_address : Text
  pub asset_address : Text
  pub value : Text

pub record TransactionRow : Type 0 where
  pub chain_id : Text
  pub from_address : Text
  pub to_address : Text
  pub asset_address : Text
  pub value : Text
  pub nonce : Text
  pub resource_location : Text
  pub settlement_time : ℕ
  pub authorization_signature_hash : Text
  pub transaction_hash : Text
  pub from_ip_address : Text
  pub json_info : Text

pub record Tables : Type 0 where
  pub state : List StateRow
  pub transactions : List TransactionRow

-- The statements that the engine may refuse.
pub data Statement : Type 0 where
  open_session begin_transaction commit : Statement
  select_sender select_receiver update_sender write_receiver insert_journal : Statement
  select_existing insert_funding select_balance insert_wallet : Statement

-- The arguments of processTransferRequest, with the clock's reading.
pub record TransferRequest : Type 0 where
  pub from_address : EthAddress
  pub to_address : EthAddress
  pub asset_address : EthAddress
  pub value : ℕ
  pub nonce : Eip3009Nonce
  pub resource_location : Text
  pub from_ip_address : Text
  pub json_info : Text
  pub transaction_hash : Text
  pub chain_id : ℕ
  pub authorization_signature_hash : Text
  pub now : ℕ

abbrev pub row_matches : Text → Text → StateRow → Bool
row_matches wallet asset r = text_eq r.wallet_address wallet && text_eq r.asset_address asset

-- SELECT value FROM state WHERE walletAddress = … AND assetAddress = …; empty where no row matches
unfoldable pub select_value : Text → Text → List StateRow → Text
select_value wallet asset [] = []
select_value wallet asset (r ∷ rows) =
    if row_matches wallet asset r then r.value else select_value wallet asset rows

-- UPDATE state SET value = … WHERE walletAddress = … AND assetAddress = …
unfoldable pub update_state : Text → Text → Text → List StateRow → List StateRow
update_state wallet asset v [] = []
update_state wallet asset v (r ∷ rows) =
    (if row_matches wallet asset r then record r { value = v } else r)
    ∷ update_state wallet asset v rows

-- INSERT INTO state
unfoldable pub insert_into_state : Text → Text → Text → List StateRow → List StateRow
insert_into_state wallet asset v rows =
    rows ++ record { wallet_address = wallet; asset_address = asset; value = v } ∷ []

-- INSERT INTO transactions
unfoldable pub insert_transaction :
    Text
    → Text
    → Text
    → Text
    → Text
    → Text
    → TransferRequest
    → List TransactionRow
    → List TransactionRow
insert_transaction from to asset nonce amount chain q rows =
    rows
    ++ record {
      chain_id = chain;
      from_address = from;
      to_address = to;
      asset_address = asset;
      value = amount;
      nonce = nonce;
      resource_location = q.resource_location;
      settlement_time = q.now;
      authorization_signature_hash = q.authorization_signature_hash;
      transaction_hash = q.transaction_hash;
      from_ip_address = q.from_ip_address;
      json_info = q.json_info;
    }
      ∷ []
