-- ===== src/Db/Payments.antt =====
-- src/db/MachinePalDb.cpp and PaymentRecord.cpp: the table `payments`, with its unique index on
-- (fromAddress, chainId, assetAddress, nonce). What the engine does on a statement is the parameter
-- `engine`: it runs it or throws.
pub mod Unique
use machinepal.Prelude.{
  ℕ, Bool, true, false, ◌&&◌, Text, str, List, [], ◌∷◌, ◌++◌, any, if◌then◌else◌, text_eq, not,
}
use machinepal.Result.{Result, ok, err, runtime_error, ◌>>=◌, ◌>>◌, rethrow_nested}
use machinepal.Platform.{Platform}
use machinepal.Crypto.Encoding.{hash_to_hex, to_hex}
use machinepal.Crypto.Values.{
  EthAddress, Eip3009Nonce, Hash, address_to_hex, token_amount_to_db_string,
}
use machinepal.Crypto.Domain.{Eip712Domain}
use machinepal.Config.Resources.{ResourceConfig, OrganizationConfig}
use machinepal.Payment.Payload.{PaymentPayload}
use machinepal.Payment.Payload.ToJson.{payment_payload_to_json}

pub record PaymentRecord : Type 0 where
  pub organization_name : Text
  pub chain_id : ℕ
  pub from_address : EthAddress
  pub to_address : EthAddress
  pub asset_address : EthAddress
  pub value : ℕ
  pub nonce : Eip3009Nonce
  pub resource_location : Text
  pub settlement_time : ℕ
  pub authorization_signature_hash : Hash
  pub transaction_hash : Hash
  pub from_ip_address : Text
  pub json_info : Text

-- A row of `payments`.
pub record PaymentRow : Type 0 where
  pub organization_name : Text
  pub chain_id : Text
  pub from_address : Text
  pub to_address : Text
  pub asset_address : Text
  pub value : Text
  pub nonce : Text
  pub resource_location : Text
  pub settlement_time : ℕ
  pub authorization_signature_hash : Text
  pub transaction_hash : Text
  pub from_ip_address : Text
  pub json_info : Text

pub data PaymentStatement : Type 0 where
  open_session count_payments insert_payment : PaymentStatement

-- The columns of the unique index, in its order.
pub record PaymentKey : Type 0 where
  pub from_address : Text
  pub chain_id : Text
  pub asset_address : Text
  pub nonce : Text

abbrev pub row_has_key : PaymentKey → PaymentRow → Bool
row_has_key k r =
    text_eq r.from_address k.from_address
    && (text_eq r.chain_id k.chain_id
        && (text_eq r.asset_address k.asset_address && text_eq r.nonce k.nonce))

abbrev pub key_of : PaymentRow → PaymentKey
key_of r = record {
  from_address = r.from_address;
  chain_id = r.chain_id;
  asset_address = r.asset_address;
  nonce = r.nonce;
}

module _ (p : Platform) where
  -- now is the clock's reading in seconds
  unfoldable pub create_payment_record :
      ℕ
      → PaymentPayload
      → Eip712Domain
      → ResourceConfig
      → OrganizationConfig
      → Hash
      → Text
      → Result PaymentRecord
  create_payment_record now pp domain resource organization transaction_hash from_ip_address = do
    json_info ← p.dump (payment_payload_to_json p pp)
    ok (record {
      organization_name = organization.organization_name;
      chain_id = domain.chain_id;
      from_address = pp.payload.authorization.from;
      to_address = pp.payload.authorization.to;
      asset_address = domain.asset_address;
      value = pp.payload.authorization.value;
      nonce = pp.payload.authorization.nonce;
      resource_location = resource.location;
      settlement_time = now;
      authorization_signature_hash = p.keccak256 pp.payload.signature;
      transaction_hash = transaction_hash;
      from_ip_address = from_ip_address;
      json_info = json_info;
    })

  -- The texts that writePayment binds.
  unfoldable pub row_of : PaymentRecord → PaymentRow
  row_of r = record {
    organization_name = r.organization_name;
    chain_id = p.dec r.chain_id;
    from_address = address_to_hex p r.from_address false;
    to_address = address_to_hex p r.to_address false;
    asset_address = address_to_hex p r.asset_address false;
    value = token_amount_to_db_string p r.value;
    nonce = to_hex p r.nonce false;
    resource_location = r.resource_location;
    settlement_time = r.settlement_time;
    authorization_signature_hash = hash_to_hex p r.authorization_signature_hash;
    transaction_hash = hash_to_hex p r.transaction_hash;
    from_ip_address = r.from_ip_address;
    json_info = r.json_info;
  }

  -- The key that settledPaymentExists asks for.
  unfoldable pub payment_key : PaymentPayload → Eip712Domain → PaymentKey
  payment_key pp domain = record {
    from_address = address_to_hex p pp.payload.authorization.from false;
    chain_id = p.dec domain.chain_id;
    asset_address = address_to_hex p domain.asset_address false;
    nonce = to_hex p pp.payload.authorization.nonce false;
  }

  module _ (engine : PaymentStatement → Result (Unit {0})) where
    -- The INSERT, which the unique index refuses where a row has the same key.
    unfoldable pub write_payment : PaymentRecord → List PaymentRow → Result (List PaymentRow)
    write_payment r rows = rethrow_nested (str "Failed to write payment:") (do
      engine open_session
      engine insert_payment
      if any (row_has_key (key_of (row_of r))) rows
          then err (runtime_error (str "UNIQUE constraint failed"))
          else ok (rows ++ row_of r ∷ []))

    unfoldable pub payment_exists : PaymentKey → List PaymentRow → Result Bool
    payment_exists k rows =
        rethrow_nested (str "Failed to check if payment exists:")
          (do engine open_session; engine count_payments; ok (any (row_has_key k) rows))

    unfoldable pub save_settled_payment :
        ℕ
        → PaymentPayload
        → Eip712Domain
        → ResourceConfig
        → OrganizationConfig
        → Hash
        → Text
        → List PaymentRow
        → Result (List PaymentRow)
    save_settled_payment now pp domain resource organization transaction_hash from_ip_address rows =
        do
          r ←
              create_payment_record now pp domain resource organization transaction_hash
                from_ip_address
          write_payment r rows

    unfoldable pub settled_payment_exists :
        PaymentPayload → Eip712Domain → List PaymentRow → Result Bool
    settled_payment_exists pp domain rows = payment_exists (payment_key pp domain) rows
