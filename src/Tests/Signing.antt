-- ===== src/Tests/Signing.antt =====
-- Signatures over a curve that signs every message by r = s = 1.
use machinepal.Prelude.{ℕ, ◌≡◌, refl, true, str, List, [], ◌∷◌, ◌++◌, some, arith, length, text_eq}
use machinepal.Result.{ok}
use machinepal.Platform.{Platform}
use machinepal.Crypto.Encoding.{zeros}
use machinepal.Crypto.Values.{EthAddress, Eip712Signature}
use machinepal.Crypto.Domain.{eip712_verify_raw}
use machinepal.Facilitator.Errors.{invalid_exact_evm_payload_signature}
use machinepal.Crypto.Keys.{
  Secp256k1, order_bytes, be_value, be_lt, be_le, be_is_zero, take_bytes, drop_bytes,
  rs_low_s_and_in_range, normalize_v, get_address, compute_public_key, sign_auth_raw,
  recover_address_from_sig_rsv,
}
use machinepal.Crypto.Keys.Order.{IsCanonical, all-IsByte}
use machinepal.Crypto.Keys.Canonical.{r_of, s_of, eip712_verify_raw-twin}
use machinepal.Crypto.Keys.Signing.{IsDocumentedCurve, recover_address_from_sig_rsv-sign_auth_raw}
use machinepal.Tests.Demo.{demo, keccak_demo, bytes}

abbrev one32 : List ℕ
one32 = zeros 31 ++ (1 ∷ [])

-- The order less one.
abbrev high32 : List ℕ
high32 = take_bytes 31 order_bytes ++ (0x40 ∷ [])

abbrev curve_demo : Secp256k1
curve_demo = record {
  can_create = true;
  seckey_verify = λ k. true;
  RecoverableSignature = Unit {0};
  Pubkey = Unit {0};
  sign_recoverable = λ m k. some tt;
  serialize_compact = λ r. some (one32 ++ one32, 0);
  parse_compact = λ l v. some tt;
  recover = λ r m. some tt;
  pubkey_serialize = λ k. some (4 ∷ (one32 ++ one32));
  allocates = λ f. true;
  point_mul = λ k. true;
  affine_coordinates = λ k. some (one32, one32);
}

abbrev signed_demo : Eip712Signature
signed_demo = one32 ++ (one32 ++ (27 ∷ []))

abbrev twin_demo : Eip712Signature
twin_demo = one32 ++ (high32 ++ (28 ∷ []))

-- The platform whose recovery is that of the keys.
abbrev keyed : Platform
keyed = record demo { recover_address = λ m t. recover_address_from_sig_rsv demo curve_demo m t }

whole_demo :
    (out : List ℕ)
    → one32 ++ one32 ≡ out
    → (length out ≡ 64)
      × (rs_low_s_and_in_range (take_bytes 32 out) (take_bytes 32 (drop_bytes 32 out)) ≡ true)
unfolding zeros take_bytes drop_bytes rs_low_s_and_in_range be_is_zero be_lt be_le
whole_demo out e = rw (← e) (refl, refl)

curve_demo-IsDocumentedCurve : IsDocumentedCurve curve_demo
unfolding zeros
curve_demo-IsDocumentedCurve = record {
  compact = λ rsig out recid e. (let w = whole_demo out (cc e) in (w.0, w.1, refl));
  recovers = λ msg k rsig e. (tt, one32, one32, refl, refl, refl, refl, refl);
}

recover_address_from_sig_rsv-sign_auth_raw_example :
    recover_address_from_sig_rsv demo curve_demo (str "m") signed_demo
    ≡ ok (get_address demo (one32 ++ one32))
unfolding sign_auth_raw zeros take_bytes compute_public_key
recover_address_from_sig_rsv-sign_auth_raw_example =
    recover_address_from_sig_rsv-sign_auth_raw demo curve_demo curve_demo-IsDocumentedCurve
      (str "m") one32 (one32 ++ one32) tt (one32 ++ one32) 0 signed_demo refl refl (omega arith)
      refl refl

abbrev signer : EthAddress
signer = zeros 20

eip712_verify_raw-twin_example :
    IsCanonical (r_of signed_demo) (s_of signed_demo)
    × (eip712_verify_raw keyed (str "n") twin_demo signer
        ≡ some invalid_exact_evm_payload_signature)
unfolding zeros take_bytes drop_bytes rs_low_s_and_in_range be_is_zero be_lt be_le be_value
    recover_address_from_sig_rsv normalize_v eip712_verify_raw text_eq keccak_demo bytes str
eip712_verify_raw-twin_example =
    eip712_verify_raw-twin keyed curve_demo (str "m") (str "n") signed_demo twin_demo signer signer
      (λ m t. refl) (record { size = refl; bytes = all-IsByte signed_demo refl })
      (record { size = refl; bytes = all-IsByte twin_demo refl }) refl refl
