-- ===== src/Facilitator/Errors.antt =====
-- src/facilitators/FacilitatorErrors.h and FacilitatorErrors.cpp.
pub mod Lookup
use machinepal.Prelude.{
  Text, str, Option, none, some, List, [], ◌∷◌, map, contains_text, if◌then◌else◌,
}

pub data FacilitatorError : Type 0 where
  insufficient_funds : FacilitatorError
  invalid_exact_evm_payload_authorization_valid_after : FacilitatorError
  invalid_exact_evm_payload_authorization_valid_before : FacilitatorError
  invalid_exact_evm_payload_authorization_value : FacilitatorError
  invalid_exact_evm_payload_signature : FacilitatorError
  invalid_exact_evm_payload_recipient_mismatch : FacilitatorError
  invalid_network : FacilitatorError
  invalid_payload : FacilitatorError
  invalid_payment_requirements : FacilitatorError
  invalid_scheme : FacilitatorError
  unsupported_scheme : FacilitatorError
  invalid_x402_version : FacilitatorError
  invalid_transaction_state : FacilitatorError
  unexpected_verify_error : FacilitatorError
  unexpected_settle_error : FacilitatorError

unfoldable pub get_error_string : FacilitatorError → Text
get_error_string insufficient_funds = str "insufficient_funds"
get_error_string invalid_exact_evm_payload_authorization_valid_after =
    str "invalid_exact_evm_payload_authorization_valid_after"
get_error_string invalid_exact_evm_payload_authorization_valid_before =
    str "invalid_exact_evm_payload_authorization_valid_before"
get_error_string invalid_exact_evm_payload_authorization_value =
    str "invalid_exact_evm_payload_authorization_value"
get_error_string invalid_exact_evm_payload_signature = str "invalid_exact_evm_payload_signature"
get_error_string invalid_exact_evm_payload_recipient_mismatch =
    str "invalid_exact_evm_payload_recipient_mismatch"
get_error_string invalid_network = str "invalid_network"
get_error_string invalid_payload = str "invalid_payload"
get_error_string invalid_payment_requirements = str "invalid_payment_requirements"
get_error_string invalid_scheme = str "invalid_scheme"
get_error_string unsupported_scheme = str "unsupported_scheme"
get_error_string invalid_x402_version = str "invalid_x402_version"
get_error_string invalid_transaction_state = str "invalid_transaction_state"
get_error_string unexpected_verify_error = str "unexpected_verify_error"
get_error_string unexpected_settle_error = str "unexpected_settle_error"

abbrev pub all_errors : List FacilitatorError
all_errors =
    insufficient_funds ∷ invalid_exact_evm_payload_authorization_valid_after
    ∷ invalid_exact_evm_payload_authorization_valid_before
    ∷ invalid_exact_evm_payload_authorization_value ∷ invalid_exact_evm_payload_signature
    ∷ invalid_exact_evm_payload_recipient_mismatch ∷ invalid_network ∷ invalid_payload
    ∷ invalid_payment_requirements ∷ invalid_scheme ∷ unsupported_scheme ∷ invalid_x402_version
    ∷ invalid_transaction_state ∷ unexpected_verify_error ∷ unexpected_settle_error ∷ []

-- kErrorStringToEnum, in the order in which it is written. The source's table is an unordered_map,
-- so a walk may meet its entries in any order.
unfoldable pub error_string_to_enum : List (Text × FacilitatorError)
unfolding get_error_string
error_string_to_enum = map (λ e. (get_error_string e, e)) all_errors

-- The loop of getErrorFromString over the entries, in the order in which the table yields them.
unfoldable pub get_error_from_string :
    List (Text × FacilitatorError) → Text → Option FacilitatorError
unfolding contains_text
get_error_from_string [] s = none
get_error_from_string ((key, value) ∷ entries) s =
    if contains_text s key then some value else get_error_from_string entries s

-- kErrorDescriptions, through getErrorDescription.
unfoldable pub get_error_description : FacilitatorError → Text
get_error_description insufficient_funds = str "Insufficient funds"
get_error_description invalid_exact_evm_payload_authorization_valid_after =
    str "Payment authorization is not yet valid (before validAfter timestamp)"
get_error_description invalid_exact_evm_payload_authorization_valid_before =
    str "Payment authorization has expired (after validBefore timestamp)"
get_error_description invalid_exact_evm_payload_authorization_value =
    str "Payment amount is insufficient for the required payment"
get_error_description invalid_exact_evm_payload_signature =
    str "Payment authorization signature is invalid or improperly signed"
get_error_description invalid_exact_evm_payload_recipient_mismatch =
    str "Recipient address does not match payment requirements"
get_error_description invalid_network = str "Specified blockchain network is not supported"
get_error_description invalid_payload = str "Payment payload is malformed or contains invalid data"
get_error_description invalid_payment_requirements =
    str "Payment requirements object is invalid or malformed"
get_error_description invalid_scheme = str "Specified payment scheme is not supported"
get_error_description unsupported_scheme = str "Payment scheme is not supported by the facilitator"
get_error_description invalid_x402_version = str "Protocol version is not supported"
get_error_description invalid_transaction_state =
    str "Blockchain transaction failed or was rejected"
get_error_description unexpected_verify_error =
    str "Unexpected error occurred during payment verification"
get_error_description unexpected_settle_error =
    str "Unexpected error occurred during payment settlement"
