-- ===== src/Crypto/Keys/Canonical.antt =====
-- The signatures that the recovery of a signer takes (EthPrivateKey::recoverAddressFromSigRSV and
-- eip712VerifyRaw).
use machinepal.Prelude.{
  ℕ, zero, suc, ◌+◌, ◌-◌, ◌≤◌, ◌≡◌, ◌↔◌, refl, ◌∙◌, sym, true, false, str, List, [], ◌∷◌, All,
  length, arith, inl, inr, ◌⊎◌, none, some, Bool-cases,
}
use machinepal.Result.{require, ok, err, >>=-eq-ok, Result-cases, invalid_argument}
use machinepal.Platform.{Platform}
use machinepal.Crypto.Values.{EthAddress, Eip712Signature, Hash}
use machinepal.Crypto.Domain.{eip712_verify_raw}
use machinepal.Facilitator.Errors.{invalid_exact_evm_payload_signature}
use machinepal.Crypto.Keys.{
  Secp256k1, take_bytes, drop_bytes, byte_at, be_value, curve_order, rs_low_s_and_in_range,
  normalize_v, recover_address_from_sig_rsv, or_invalid,
}
use machinepal.Crypto.Keys.Order.{IsByte, IsCanonical, rs_low_s_and_in_range_iff}

pub length-take_bytes : (n : ℕ) (l : List ℕ) → n ≤ length l → length (take_bytes n l) ≡ n
unfolding take_bytes
length-take_bytes zero l h = refl
length-take_bytes (suc n) [] h = absurd (omega arith)
length-take_bytes (suc n) (b ∷ l) h = omega (arith, length-take_bytes n l (omega arith))

pub length-drop_bytes : (n : ℕ) (l : List ℕ) → length (drop_bytes n l) ≡ length l - n
unfolding drop_bytes
length-drop_bytes zero l = omega arith
length-drop_bytes (suc n) [] = omega arith
length-drop_bytes (suc n) (b ∷ l) = omega (arith, length-drop_bytes n l)

all-take_bytes : (n : ℕ) (l : List ℕ) → All IsByte l → All IsByte (take_bytes n l)
unfolding take_bytes
all-take_bytes zero l h = tt
all-take_bytes (suc n) [] h = tt
all-take_bytes (suc n) (b ∷ l) (hb, h) = (hb, all-take_bytes n l h)

all-drop_bytes : (n : ℕ) (l : List ℕ) → All IsByte l → All IsByte (drop_bytes n l)
unfolding drop_bytes
all-drop_bytes zero l h = h
all-drop_bytes (suc n) [] h = tt
all-drop_bytes (suc n) (b ∷ l) (hb, h) = all-drop_bytes n l h

-- Sixty-five bytes: the numbers r and s, and v.
pub record IsSignature (sig : Eip712Signature) : Type 0 where
  pub size : length sig ≡ 65
  pub bytes : All IsByte sig

abbrev pub r_of : Eip712Signature → ℕ
r_of sig = be_value 0 (take_bytes 32 sig)

abbrev pub s_of : Eip712Signature → ℕ
s_of sig = be_value 0 (take_bytes 32 (drop_bytes 32 sig))

abbrev pub HasCanonicalTest : Eip712Signature → Type 0
HasCanonicalTest sig =
    (rs_low_s_and_in_range (take_bytes 32 sig) (take_bytes 32 (drop_bytes 32 sig)) ≡ true)
    ↔ IsCanonical (r_of sig) (s_of sig)

canonical_test : (sig : Eip712Signature) → IsSignature sig → HasCanonicalTest sig
canonical_test sig h =
    let rest = all-drop_bytes 32 sig h.bytes in
    rs_low_s_and_in_range_iff _ _ (length-take_bytes 32 sig (omega (arith, h.size)))
      (length-take_bytes 32 (drop_bytes 32 sig) (omega (arith, h.size, length-drop_bytes 32 sig)))
      (all-take_bytes 32 sig h.bytes) (all-take_bytes 32 (drop_bytes 32 sig) rest)

module _ (p : Platform) (curve : Secp256k1) where
  pub recover_address_from_sig_rsv-IsCanonical :
      (msg : List ℕ) (sig : Eip712Signature) (a : EthAddress)
      → IsSignature sig
      → recover_address_from_sig_rsv p curve msg sig ≡ ok a
      → IsCanonical (r_of sig) (s_of sig) × ((byte_at 64 sig ≡ 27) ⊎ (byte_at 64 sig ≡ 28))
  unfolding recover_address_from_sig_rsv normalize_v
  recover_address_from_sig_rsv-IsCanonical msg sig a h e =
      let (u, tested, r0) =
        >>=-eq-ok
          (require (rs_low_s_and_in_range (take_bytes 32 sig) (take_bytes 32 (drop_bytes 32 sig)))
            _)
          _ e in
      let (recid, normal, r1) = >>=-eq-ok (or_invalid _ (normalize_v (byte_at 64 sig))) _ r0 in
      ((canonical_test sig h).0 (ground arith), ground arith)

  refused :
      (msg : List ℕ) (sig : Eip712Signature)
      → rs_low_s_and_in_range (take_bytes 32 sig) (take_bytes 32 (drop_bytes 32 sig)) ≡ false
      → recover_address_from_sig_rsv p curve msg sig ≡ err (invalid_argument (str "invalid r/s"))
  unfolding recover_address_from_sig_rsv
  refused msg sig e = rw e refl

  not_low : (r s r' s' : ℕ) → IsCanonical r s → s + s' ≡ curve_order → IsCanonical r' s' → ⊥
  not_low r s r' s' h e h' = omega (arith, h.s_low, h'.s_low)

  pub recover_address_from_sig_rsv-twin :
      (msg other : List ℕ) (sig twin : Eip712Signature) (a : EthAddress)
      → IsSignature sig
      → IsSignature twin
      → s_of sig + s_of twin ≡ curve_order
      → recover_address_from_sig_rsv p curve msg sig ≡ ok a
      → recover_address_from_sig_rsv p curve other twin ≡ err (invalid_argument (str "invalid r/s"))
  recover_address_from_sig_rsv-twin msg other sig twin a h h' e done =
      let (canonical, v) = recover_address_from_sig_rsv-IsCanonical msg sig a h done in
      elim (Bool-cases
        (rs_low_s_and_in_range (take_bytes 32 twin) (take_bytes 32 (drop_bytes 32 twin)))) [
          | inl t ↦ absurd (not_low _ _ (r_of twin) _ canonical e ((canonical_test twin h').0 t))
          | inr f ↦ refused other twin f
        ]

  -- With the recovery of EthPrivateKey, a verified signature has 0 < r < n and 0 < s < n / 2, and
  -- the signature with n - s for s, which is valid for the same key, is refused for every message
  -- and address.
  pub eip712_verify_raw-twin :
      (hash other : Hash) (sig twin : Eip712Signature) (a b : EthAddress)
      → ((m : List ℕ) (t : Eip712Signature)
          → p.recover_address m t ≡ recover_address_from_sig_rsv p curve m t)
      → IsSignature sig
      → IsSignature twin
      → s_of sig + s_of twin ≡ curve_order
      → eip712_verify_raw p hash sig a ≡ none
      → IsCanonical (r_of sig) (s_of sig)
        × (eip712_verify_raw p other twin b ≡ some invalid_exact_evm_payload_signature)
  unfolding eip712_verify_raw
  eip712_verify_raw-twin hash other sig twin a b is_key h h' e verified =
      elim (Result-cases (p.recover_address hash sig)) [
        | inl (found, done) ↦
            let done' = sym (is_key hash sig) ∙ done in
            let thrown =
              is_key other twin
              ∙ recover_address_from_sig_rsv-twin hash other sig twin found h h' e done' in
            (
              (recover_address_from_sig_rsv-IsCanonical hash sig found h done').0,
              rw (eip712_verify_raw, thrown) refl,
            )
        | inr (x, failed) ↦ absurd (ground arith)
      ]
