-- ===== src/Payment/Payload/ToJson.antt =====
-- src/payment/datastructures: toJson of Authorization, Payload and PaymentPayload.
use machinepal.Prelude.{true, str, [], ◌∷◌}
use machinepal.Platform.{Platform}
use machinepal.Crypto.Encoding.{u256_to_decimal, to_hex}
use machinepal.Crypto.Values.{to_checksum_hex}
use machinepal.Crypto.Domain.{Authorization}
use machinepal.Payment.Payload.{Payload, PaymentPayload}

module _ (p : Platform) where
  unfoldable pub authorization_to_json : Authorization → p.Json
  authorization_to_json a = p.from_object (
      (str "from", p.from_text (to_checksum_hex p a.from))
      ∷ (str "to", p.from_text (to_checksum_hex p a.to))
      ∷ (str "value", p.from_text (u256_to_decimal p a.value))
      ∷ (str "validAfter", p.from_text (u256_to_decimal p a.valid_after))
      ∷ (str "validBefore", p.from_text (u256_to_decimal p a.valid_before))
      ∷ (str "nonce", p.from_text (to_hex p a.nonce true))
      ∷ [])

  unfoldable pub payload_to_json : Payload → p.Json
  payload_to_json l = p.from_object (
      (str "signature", p.from_text (to_hex p l.signature true))
      ∷ (str "authorization", authorization_to_json l.authorization)
      ∷ [])

  unfoldable pub payment_payload_to_json : PaymentPayload → p.Json
  payment_payload_to_json pp = p.from_object (
      (str "x402Version", p.from_int pp.x402_version)
      ∷ (str "scheme", p.from_text pp.scheme)
      ∷ (str "network", p.from_text pp.network)
      ∷ (str "payload", payload_to_json pp.payload)
      ∷ [])
