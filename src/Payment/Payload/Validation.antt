-- ===== src/Payment/Payload/Validation.antt =====
-- src/payment/datastructures: Authorization::validate, PaymentPayload::validateAndVerifySignature.
use machinepal.Prelude.{
  ℕ, ◌≤◌, ◌≡◌, true, false, Text, Option, none, some, ltb, ◌==◌, not, if◌then◌else◌, text_eq,
  text_eq_iff, arith, ◌↔◌,
}
use machinepal.Platform.{Platform, pos, is_one, is_one_iff}
use machinepal.Crypto.Values.{EthAddress}
use machinepal.Crypto.Domain.{Authorization, verify_authorization_signature}
use machinepal.Config.Resources.{MachinePalConfig, is_scheme_supported}
use machinepal.Facilitator.Errors.{
  FacilitatorError, invalid_exact_evm_payload_authorization_valid_after,
  invalid_exact_evm_payload_authorization_valid_before,
  invalid_exact_evm_payload_recipient_mismatch, invalid_exact_evm_payload_authorization_value,
  invalid_x402_version, invalid_scheme, invalid_network,
}
use machinepal.Payment.Payload.{PaymentPayload, Clock}

unfoldable pub check_validity_time : Clock → Authorization → Option FacilitatorError
check_validity_time c a =
    if c.time_check_disabled
    then none
    else if ltb c.now a.valid_after
    then some invalid_exact_evm_payload_authorization_valid_after
    else if ltb a.valid_before c.now
    then some invalid_exact_evm_payload_authorization_valid_before
    else none

unfoldable pub validate : Clock → ℕ → EthAddress → Authorization → Option FacilitatorError
unfolding check_validity_time
validate c price destination_address a =
    if not (text_eq a.to destination_address)
    then some invalid_exact_evm_payload_recipient_mismatch
    else if not (a.value == price)
    then some invalid_exact_evm_payload_authorization_value
    else check_validity_time c a

-- An error where the option holds one.
abbrev or_else : Option FacilitatorError → Option FacilitatorError → Option FacilitatorError
or_else none r = r
or_else (some e) r = some e

unfoldable pub validate_and_verify_signature :
    Platform
    → Clock
    → MachinePalConfig
    → ℕ
    → EthAddress
    → Text
    → PaymentPayload
    → Option FacilitatorError
validate_and_verify_signature p c config price destination_address payment_scheme pp =
    if not (is_one pp.x402_version)
    then some invalid_x402_version
    else if not (is_scheme_supported pp.scheme)
    then some invalid_scheme
    else if not (text_eq pp.scheme payment_scheme)
    then some invalid_scheme
    else if not (text_eq pp.network config.network.name)
    then some invalid_network
    else or_else (validate c price destination_address pp.payload.authorization) (
        verify_authorization_signature p config.network.eip712_domain pp.payload.authorization
          pp.payload.signature)

-- What a payment must satisfy.
pub record IsAcceptable (p : Platform) (c : Clock) (config : MachinePalConfig) (price : ℕ)
    (destination : EthAddress) (scheme : Text) (pp : PaymentPayload) : Type 0 where
  pub version : pp.x402_version ≡ pos 1
  pub scheme_exact : is_scheme_supported pp.scheme ≡ true
  pub scheme_same : pp.scheme ≡ scheme
  pub network_same : pp.network ≡ config.network.name
  pub recipient : pp.payload.authorization.to ≡ destination
  pub amount : pp.payload.authorization.value ≡ price
  pub time :
      c.time_check_disabled ≡ false
      → (pp.payload.authorization.valid_after ≤ c.now)
        × (c.now ≤ pp.payload.authorization.valid_before)
  pub signed :
      verify_authorization_signature p config.network.eip712_domain pp.payload.authorization
        pp.payload.signature
      ≡ none

module _ (p : Platform) (c : Clock) (config : MachinePalConfig) (price : ℕ)
    (destination : EthAddress) (scheme : Text) (pp : PaymentPayload) where
  accepted :
      validate_and_verify_signature p c config price destination scheme pp ≡ none
      → IsAcceptable p c config price destination scheme pp
  unfolding validate_and_verify_signature validate
  accepted h = record {
    version = ground (arith, is_one_iff pp.x402_version);
    scheme_exact = ground arith;
    scheme_same = ground (arith, text_eq_iff pp.scheme scheme);
    network_same = ground (arith, text_eq_iff pp.network config.network.name);
    recipient = ground (arith, text_eq_iff pp.payload.authorization.to destination);
    amount = ground arith;
    time = λ enabled. ground arith;
    signed = ground arith;
  }

  complete :
      IsAcceptable p c config price destination scheme pp
      → validate_and_verify_signature p c config price destination scheme pp ≡ none
  unfolding validate_and_verify_signature validate
  complete a = ground (
    arith,
    is_one_iff pp.x402_version,
    text_eq_iff pp.scheme scheme,
    text_eq_iff pp.network config.network.name,
    text_eq_iff pp.payload.authorization.to destination,
  )

-- A payment passes validateAndVerifySignature exactly when its version is 1, its scheme is "exact"
-- and the resource's, its network is the configured one, it pays the price to the wallet, the clock
-- lies from validAfter to validBefore, both included, unless the check of times is disabled, and
-- its signature verifies.
pub validate_and_verify_signature_iff :
    (p : Platform) (c : Clock) (config : MachinePalConfig) (price : ℕ) (destination : EthAddress)
    (scheme : Text) (pp : PaymentPayload)
    → (validate_and_verify_signature p c config price destination scheme pp ≡ none)
      ↔ IsAcceptable p c config price destination scheme pp
validate_and_verify_signature_iff p c config price destination scheme pp = (
  accepted p c config price destination scheme pp,
  complete p c config price destination scheme pp,
)
