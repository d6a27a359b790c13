-- ===== src/Payment/Payload.antt =====
-- src/payment/datastructures: Authorization, Payload and PaymentPayload, read from JSON and checked.
pub mod Json
pub mod ToJson
pub mod Validation
use machinepal.Prelude.{ℕ, Bool, Text}
use machinepal.Platform.{ℤ}
use machinepal.Crypto.Values.{Eip712Signature}
use machinepal.Crypto.Domain.{Authorization}

pub record Payload : Type 0 where
  pub signature : Eip712Signature
  pub authorization : Authorization

pub record PaymentPayload : Type 0 where
  pub x402_version : ℤ
  pub scheme : Text
  pub network : Text
  pub payload : Payload

-- The clock's reading, and whether TEST_DISABLE_AUTHORIZATION_TIME_CHECK is set.
pub record Clock : Type 0 where
  pub now : ℕ
  pub time_check_disabled : Bool
