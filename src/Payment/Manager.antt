-- ===== src/Payment/Manager.antt =====
-- src/payment/PaymentManager.cpp and facilitator_clients/FacilitatorClientManager.cpp. The state is
-- the table `payments`, the set of payments that are being settled, and, for the statements of
-- theorems, the requests that were handed to the facilitator. A run takes the clock, the database
-- engine and the facilitator's client from its context.
pub mod Locking
pub mod Spending
pub mod Settles
pub mod Replay
pub mod Entry
pub mod Interleaving
use machinepal.Prelude.{
  ℕ, Bool, true, false, ◌&&◌, not, Text, str, List, [], ◌∷◌, ◌++◌, Option, none, some, ◌⊎◌, inl,
  inr, any, if◌then◌else◌, text_eq, is_empty,
}
use machinepal.Result
use machinepal.Result.{Result, ok, err, Exception, what, logic_error, catch, check_state}
use machinepal.Exec.{Exec, pure, throw, lift, gets, modify, try_catch, ◌>>=◌, ◌>>◌}
use machinepal.Platform.{Platform}
use machinepal.Http.{HttpRequest}
use machinepal.Crypto.Encoding.{base64_decode, from_hex_to_hash, to_hex}
use machinepal.Crypto.Values.{Hash, address_to_hex}
use machinepal.Crypto.Domain.{Authorization, Eip712Domain, unique_payment_key}
use machinepal.Config.Resources.{ResourceConfig, OrganizationConfig, MachinePalConfig}
use machinepal.Facilitator.Errors.{get_error_string}
use machinepal.Db.Payments.{
  PaymentRow, PaymentStatement, save_settled_payment, settled_payment_exists,
}
use machinepal.Payment.Payload.{PaymentPayload, Clock}
use machinepal.Payment.Payload.Json.{payment_payload_from_json}
use machinepal.Payment.Payload.Validation.{validate_and_verify_signature}
use machinepal.Payment.Messages.{
  HttpError, err_bad_request, err_internal_server_error, SettlementRequest, SettlementResponse,
  make_payment_requirements, settlement_response_from_json_string,
}

pub record Settlements (p : Platform) : Type 0 where
  pub payments : List PaymentRow
  pub currently_settling : List Text
  pub asked : List (SettlementRequest p)

pub record Context (p : Platform) : Type 0 where
  pub clock : Clock
  pub engine : PaymentStatement → Result (Unit {0})
  -- facilitatorClient()->settle
  pub settle : SettlementRequest p → Result p.Json

-- variant<SettlementResponse, HttpError>
abbrev pub Settled : Type 0
Settled = SettlementResponse ⊎ HttpError

abbrev pub bad_request : Text → HttpError
bad_request m = record { type = err_bad_request; message = m }

abbrev pub internal_server_error : Text → HttpError
internal_server_error m = record { type = err_internal_server_error; message = m }

-- What the handler of checkPaymentIsNewAndSettleIt answers, and what stands for a second submission.
unfoldable pub settlement_failed : HttpError
settlement_failed =
    internal_server_error (str "Error during payment settlement request to facilitator: ")

unfoldable pub being_processed : HttpError
being_processed = bad_request (
    str
      "Your payment is currently being processed. Looks like you submitted the same payment twice.")

abbrev pub is_settling : Text → List Text → Bool
is_settling key keys = any (text_eq key) keys

-- currentlySettlingPayments_.erase( key )
unfoldable pub erase_key : Text → List Text → List Text
erase_key key [] = []
erase_key key (k ∷ keys) = if text_eq key k then erase_key key keys else k ∷ erase_key key keys

module _ (p : Platform) where
  -- The base64 decoder of boost does not throw, so its handler is never entered.
  unfoldable pub decode_and_parse_payment : HttpRequest p → PaymentPayload ⊎ HttpError
  decode_and_parse_payment req =
      let payment = p.get_single_or_empty req.headers (str "X-PAYMENT") in
      let decoded = base64_decode p payment in
      catch
        (Result.◌>>◌ (check_state (not (is_empty payment)) (str "!payment.empty()"))
          (elim (p.parse decoded) [
            | ok j ↦ Result.◌>>=◌ (payment_payload_from_json p j) (λ pp. ok (inl pp))
            | err e ↦
                ok (
                  inr
                    (bad_request (str "X-PAYMENT header is not valid JSON after base64 decoding")))
          ]))
        (λ e. inr (internal_server_error (str "Error parsing X-PAYMENT header: " ++ what e)))

  unfoldable pub already_spent : PaymentPayload → Eip712Domain → HttpError
  already_spent pp domain = bad_request (
      str "This payment has already been spent: "
      ++ (str "from="
          ++ (address_to_hex p pp.payload.authorization.from true
              ++ (str " nonce="
                  ++ (to_hex p pp.payload.authorization.nonce true
                      ++ (str " token="
                          ++ (domain.name
                              ++ (str " tokenAddress="
                                  ++ (address_to_hex p domain.asset_address true
                                      ++ (str " chainId=" ++ p.dec domain.chain_id))))))))))

  -- The key under which a payment is locked.
  unfoldable pub lock_key : Authorization → Eip712Domain → Text
  lock_key a domain = unique_payment_key p domain a.from a.nonce

  -- True where the key was not in the set, which has it now.
  unfoldable pub lock_payment_as_being_settled :
      Authorization → Eip712Domain → Exec (Settlements p) Bool
  lock_payment_as_being_settled a domain s =
      let key = lock_key a domain in
      if is_settling key s.currently_settling
      then (ok false, s)
      else (ok true, record s { currently_settling = key ∷ s.currently_settling })

  unfoldable pub unlock_payment_as_being_settled :
      Authorization → Eip712Domain → Exec (Settlements p) (Unit {0})
  unlock_payment_as_being_settled a domain s =
      let key = lock_key a domain in
      (
        check_state (is_settling key s.currently_settling)
            (str "currentlySettlingPayments_.erase( uniquePaymentKey ) == 1"),
        record s { currently_settling = erase_key key s.currently_settling },
      )

  module _ (c : Context p) where
    unfoldable pub check_against_already_settled_payments :
        PaymentPayload → Eip712Domain → Exec (Settlements p) (Option HttpError)
    check_against_already_settled_payments pp domain = do
      exists ← λ s. (settled_payment_exists p c.engine pp domain s.payments, s)
      pure (if exists then some (already_spent pp domain) else none)

    unfoldable pub record_successful_settlement :
        PaymentPayload
        → Eip712Domain
        → ResourceConfig
        → OrganizationConfig
        → Hash
        → Text
        → Exec (Settlements p) (Unit {0})
    record_successful_settlement pp domain resource organization transaction_hash ip_address = do
      rows ← λ s. (
        save_settled_payment p c.engine c.clock.now pp domain resource organization transaction_hash
            ip_address s.payments,
        s,
      )
      modify (λ s. record s { payments = rows })

    -- FacilitatorClientManager::routeToFacilitatorAndSettle
    unfoldable pub route_to_facilitator_and_settle :
        SettlementRequest p → Exec (Settlements p) SettlementResponse
    route_to_facilitator_and_settle request = do
      modify (λ s. record s { asked = request ∷ s.asked })
      result ← lift (c.settle request)
      text ← lift (p.dump result)
      lift (settlement_response_from_json_string p text)

    unfoldable pub settlement_request_for :
        MachinePalConfig → ResourceConfig → PaymentPayload → SettlementRequest p
    settlement_request_for config resource pp = record {
      payment_payload = pp;
      payment_requirements = make_payment_requirements p resource config.network;
    }

    -- Once the facilitator has answered.
    unfoldable pub record_response :
        MachinePalConfig
        → ResourceConfig
        → OrganizationConfig
        → PaymentPayload
        → Text
        → SettlementResponse
        → Exec (Settlements p) Settled
    record_response config resource organization pp ip_address response = do
      transaction_hash ← lift (from_hex_to_hash p response.transaction)
      record_successful_settlement pp config.network.eip712_domain resource organization
          transaction_hash ip_address
      pure (inl response)

    -- Where the payment is new.
    unfoldable pub settle_new_payment :
        MachinePalConfig
        → ResourceConfig
        → OrganizationConfig
        → PaymentPayload
        → Text
        → Exec (Settlements p) Settled
    settle_new_payment config resource organization pp ip_address = do
      response ← route_to_facilitator_and_settle (settlement_request_for config resource pp)
      record_response config resource organization pp ip_address response

    unfoldable pub check_payment_is_new_and_settle_it_unsafe :
        MachinePalConfig
        → ResourceConfig
        → OrganizationConfig
        → PaymentPayload
        → Text
        → Exec (Settlements p) Settled
    check_payment_is_new_and_settle_it_unsafe config resource organization pp ip_address = do
      error ← check_against_already_settled_payments pp config.network.eip712_domain
      elim error [
        | some e ↦ pure (inr e)
        | none ↦ settle_new_payment config resource organization pp ip_address
      ]

    -- The body behind the lock, whose guard unlocks at its end.
    unfoldable pub settle_locked :
        MachinePalConfig
        → ResourceConfig
        → OrganizationConfig
        → PaymentPayload
        → Text
        → Exec (Settlements p) Settled
    settle_locked config resource organization pp ip_address = do
      result ←
          try_catch
            (check_payment_is_new_and_settle_it_unsafe config resource organization pp ip_address)
            (λ e. pure (inr settlement_failed))
      unlock_payment_as_being_settled pp.payload.authorization config.network.eip712_domain
      pure result

    unfoldable pub check_payment_is_new_and_settle_it :
        MachinePalConfig
        → ResourceConfig
        → OrganizationConfig
        → PaymentPayload
        → Text
        → Exec (Settlements p) Settled
    check_payment_is_new_and_settle_it config resource organization pp ip_address = do
      locked ← lock_payment_as_being_settled pp.payload.authorization config.network.eip712_domain
      if locked
          then settle_locked config resource organization pp ip_address
          else pure (inr being_processed)

    unfoldable pub settle_decoded :
        HttpRequest p
        → MachinePalConfig
        → ResourceConfig
        → OrganizationConfig
        → PaymentPayload
        → Exec (Settlements p) Settled
    settle_decoded req config resource organization pp =
        elim (validate_and_verify_signature p c.clock config resource.price
          config.network.wallet_address resource.payment_scheme pp) [
            | some e ↦ pure (inr (bad_request (get_error_string e)))
            | none ↦
                check_payment_is_new_and_settle_it config resource organization pp
                  req.client_address
          ]

    -- The authorization that is handed back is there once the header has been decoded.
    unfoldable pub decode_pre_validate_and_settle_with_facilitator :
        HttpRequest p
        → MachinePalConfig
        → ResourceConfig
        → OrganizationConfig
        → Exec (Settlements p) (Option Authorization × Settled)
    decode_pre_validate_and_settle_with_facilitator req config resource organization =
        elim (decode_and_parse_payment req) [
          | inr e ↦ pure (none, inr e)
          | inl pp ↦ do
            result ← try_catch (settle_decoded req config resource organization pp) (λ e. pure (
                inr (
                  internal_server_error
                    (str "decodeValidateAndSettlePayment had exception" ++ what e))))
            pure (some pp.payload.authorization, result)
        ]
