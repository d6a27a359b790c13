-- ===== src/Facilitator/EasyNet.antt =====
-- src/facilitators/EasyNetFacilitator.cpp over EasyNetDb. A settlement holds the mutex alone, a
-- verification shares it, so each is one step on the tables. The app's database is an EasyNetDb.
pub mod Settling
use machinepal.Prelude.{
  ℕ, ◌-◌, ◌^◌, Text, str, List, [], ◌∷◌, Bool, true, false, ltb, if◌then◌else◌, Option, none, some,
}
use machinepal.Result.{Result, ok, err, catch, ◌>>=◌}
use machinepal.Exec
use machinepal.Exec.{Exec}
use machinepal.Platform.{Platform, u256_mod}
use machinepal.Crypto.Encoding.{to_hex, hash_to_hex}
use machinepal.Crypto.Values.{
  EthAddress, address_to_hex, parse_flexible, token_amount_from_hex_or_decimal,
}
use machinepal.Config.Resources.{MachinePalConfig}
use machinepal.Facilitator.Errors.{
  FacilitatorError, invalid_payload, insufficient_funds, unexpected_settle_error,
  unexpected_verify_error, get_error_string,
}
use machinepal.Db.EasyNet.Tables.{Tables, Statement, TransferRequest}
use machinepal.Db.EasyNet.Operations.{get_balance, process_transfer_request}
use machinepal.Payment.Payload.{PaymentPayload, Clock}
use machinepal.Payment.Payload.ToJson.{payment_payload_to_json}
use machinepal.Payment.Payload.Validation.{validate_and_verify_signature}
use machinepal.Payment.Messages.{
  PaymentRequirements, SettlementRequest, SettlementResponse, VerifyResponse,
  settlement_request_from_json, make_settlement_response, settlement_response_to_json,
  verify_response_to_json,
}

pub record EasyNet : Type 0 where
  pub config : MachinePalConfig
  pub clock : Clock
  pub engine : Statement → Result (Unit {0})
  pub chain_id : ℕ

-- The parsed request, with the error's text where the verification found one.
pub record Verified (p : Platform) : Type 0 where
  pub error : Option Text
  pub payment_payload : PaymentPayload
  pub payment_requirements : PaymentRequirements p

-- The balance that a wallet without a row is taken to have.
abbrev pub assumed_balance : Option ℕ → ℕ
assumed_balance none = 10 ^ 27
assumed_balance (some n) = n

-- transferValue > maxVal - receiverBalance, where the receiver has a row
abbrev pub overflows : Option ℕ → ℕ → Bool
overflows none value = false
overflows (some n) value = ltb (u256_mod - 1 - n) value

module _ (p : Platform) (f : EasyNet) where
  -- The two checks of balances.
  unfoldable pub check_balances :
      EthAddress → EthAddress → EthAddress → ℕ → Tables → Result (Option Text)
  check_balances from to asset value t = do
    sender_balance ← get_balance p f.engine from asset t
    receiver_balance ← get_balance p f.engine to asset t
    ok (
        if overflows receiver_balance value
        then some (get_error_string insufficient_funds)
        else if ltb (assumed_balance sender_balance) value
        then some (get_error_string insufficient_funds)
        else none)

  unfoldable pub process_verify_request_unsafe : p.Json → Tables → Result (Verified p)
  process_verify_request_unsafe verify_request_json t = do
    request ← settlement_request_from_json p verify_request_json
    let payload = request.payment_payload
    let requirements = request.payment_requirements
    let authorization = payload.payload.authorization
    asset ← parse_flexible p requirements.asset true
    pay_to ← parse_flexible p requirements.pay_to true
    price ← token_amount_from_hex_or_decimal p requirements.max_amount_required
    error ←
        elim (validate_and_verify_signature p f.clock f.config price pay_to requirements.scheme
          payload) [
            | some e ↦ ok (some (get_error_string invalid_payload))
            | none ↦ check_balances authorization.from authorization.to asset authorization.value t
          ]
    ok (record { error = error; payment_payload = payload; payment_requirements = requirements })

  -- SettlementResponse( success, … ).toJson(), with no transaction and no network
  unfoldable pub settle_reply : Bool → Option Text → Text → Result p.Json
  settle_reply success error payer = do
    response ← make_settlement_response p success error [] [] payer
    ok (
        settlement_response_to_json p response.success response.error_reason response.transaction
          response.network response.payer)

  -- The arguments of processTransferRequest.
  unfoldable pub transfer_request : Verified p → EthAddress → Text → TransferRequest
  transfer_request verified asset json_info =
      let payload = verified.payment_payload in
      let authorization = payload.payload.authorization in
      let signature = payload.payload.signature in
      record {
        from_address = authorization.from;
        to_address = authorization.to;
        asset_address = asset;
        value = authorization.value;
        nonce = authorization.nonce;
        resource_location = verified.payment_requirements.resource;
        from_ip_address = str "0.0.0.0";
        json_info = json_info;
        transaction_hash = to_hex p signature true;
        chain_id = f.chain_id;
        authorization_signature_hash = hash_to_hex p (p.keccak256 signature);
        now = f.clock.now;
      }

  -- The transfer of a verified payment, and the answer.
  unfoldable pub settle_verified : Verified p → Exec Tables p.Json
  settle_verified verified =
      let payer = address_to_hex p verified.payment_payload.payload.authorization.from true in
      elim verified.error [
        | some error ↦ Exec.lift (settle_reply false (some error) payer)
        | none ↦
            Exec.◌>>=◌ (Exec.lift (parse_flexible p verified.payment_requirements.asset true))
              (λ asset.
                Exec.◌>>=◌ (Exec.lift (p.dump (payment_payload_to_json p verified.payment_payload)))
                  (λ json_info.
                    Exec.◌>>=◌
                      (process_transfer_request p f.engine
                        (transfer_request verified asset json_info))
                      (λ e. Exec.lift (elim e [
                        | none ↦ settle_reply true none payer
                        | some error ↦ settle_reply false (some (get_error_string error)) payer
                      ]))))
      ]

  unfoldable pub settle_request : p.Json → Exec Tables p.Json
  settle_request settlement_request_json t =
      Exec.continue (process_verify_request_unsafe settlement_request_json t, t) settle_verified

  unfoldable pub process_settle_request : p.Json → Exec Tables p.Json
  process_settle_request settlement_request_json =
      Exec.try_catch (settle_request settlement_request_json)
        (λ e. Exec.lift (settle_reply false (some (get_error_string unexpected_settle_error)) []))

  -- VerifyResponse( success, … ).toJson(); its constructor dumps the same JSON.
  unfoldable pub verify_reply : Bool → Option Text → Text → Result p.Json
  verify_reply success invalid_reason payer =
      let j =
        verify_response_to_json p
          (record { success = success; invalid_reason = invalid_reason; payer = payer }) in
      do text ← p.dump j; ok j

  abbrev is_missing : Option Text → Bool
  is_missing none = true
  is_missing (some e) = false

  unfoldable pub process_verify_request : p.Json → Tables → Result p.Json
  process_verify_request verify_request_json t =
      let answer : Result p.Json = (do
        verified ← process_verify_request_unsafe verify_request_json t
        verify_reply (is_missing verified.error) verified.error
            (address_to_hex p verified.payment_payload.payload.authorization.from false)) in
      elim answer [
        | ok j ↦ ok j
        | err e ↦ verify_reply false (some (get_error_string unexpected_verify_error)) []
      ]
