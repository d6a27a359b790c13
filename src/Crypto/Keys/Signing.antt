-- ===== src/Crypto/Keys/Signing.antt =====
-- What EthPrivateKey::signAuthRaw signs, recoverAddressFromSigRSV recovers.
use machinepal.Prelude.{
  ℕ, zero, suc, ◌+◌, ◌%◌, ◌<◌, ◌≤◌, ◌≡◌, refl, ◌∙◌, sym, ap, true, List, [], ◌∷◌, ◌++◌, length,
  length-append, arith, Option, some,
}
use machinepal.Result.{require, ok, >>=-eq-ok, ok-injective}
use machinepal.Platform.{Platform}
use machinepal.Crypto.Values.{Eip712Signature}
use machinepal.Crypto.Keys.{
  Secp256k1, v27_28, take_bytes, drop_bytes, byte_at, rs_low_s_and_in_range, normalize_v,
  recover_address_from_sig_rsv, sign_auth_raw, compute_public_key, get_address, or_failed,
}
use machinepal.Crypto.Keys.Canonical.{length-drop_bytes}

-- What libsecp256k1 documents: signatures are serialized with s in the lower half of the order, and
-- give back the key that has signed; its serialization is 04 and the two coordinates.
pub record IsDocumentedCurve (curve : Secp256k1) : Type 0 where
  pub compact :
      (rsig : curve.RecoverableSignature) (out : List ℕ) (recid : ℕ)
      → curve.serialize_compact rsig ≡ some (out, recid)
      → (length out ≡ 64)
        × (rs_low_s_and_in_range (take_bytes 32 out) (take_bytes 32 (drop_bytes 32 out)) ≡ true)
        × (curve.parse_compact out recid ≡ some rsig)
  pub recovers :
      (msg k : List ℕ) (rsig : curve.RecoverableSignature)
      → curve.sign_recoverable msg k ≡ some rsig
      → (key : curve.Pubkey) × (x : List ℕ) × (y : List ℕ) × (curve.recover rsig msg ≡ some key)
        × (curve.pubkey_serialize key ≡ some (4 ∷ (x ++ y)))
        × (length x ≡ 32)
        × (length y ≡ 32)
        × (curve.affine_coordinates k ≡ some (x, y))

take_all : (n : ℕ) (l rest : List ℕ) → length l ≡ n → take_bytes n (l ++ rest) ≡ l
unfolding take_bytes
take_all zero [] rest e = refl
take_all zero (b ∷ l) rest e = absurd (omega arith)
take_all (suc n) [] rest e = absurd (omega arith)
take_all (suc n) (b ∷ l) rest e = ap (λ t. b ∷ t) (take_all n l rest (omega arith))

take_self : (n : ℕ) (l : List ℕ) → length l ≡ n → take_bytes n l ≡ l
unfolding take_bytes
take_self zero [] e = refl
take_self zero (b ∷ l) e = absurd (omega arith)
take_self (suc n) [] e = absurd (omega arith)
take_self (suc n) (b ∷ l) e = ap (λ t. b ∷ t) (take_self n l (omega arith))

drop_all : (n : ℕ) (l rest : List ℕ) → length l ≡ n → drop_bytes n (l ++ rest) ≡ rest
unfolding drop_bytes
drop_all zero [] rest e = refl
drop_all zero (b ∷ l) rest e = absurd (omega arith)
drop_all (suc n) [] rest e = absurd (omega arith)
drop_all (suc n) (b ∷ l) rest e = drop_all n l rest (omega arith)

take_before : (n : ℕ) (l rest : List ℕ) → n ≤ length l → take_bytes n (l ++ rest) ≡ take_bytes n l
unfolding take_bytes
take_before zero l rest h = refl
take_before (suc n) [] rest h = absurd (omega arith)
take_before (suc n) (b ∷ l) rest h = ap (λ t. b ∷ t) (take_before n l rest (omega arith))

drop_before :
    (n : ℕ) (l rest : List ℕ) → n ≤ length l → drop_bytes n (l ++ rest) ≡ drop_bytes n l ++ rest
unfolding drop_bytes
drop_before zero l rest h = refl
drop_before (suc n) [] rest h = absurd (omega arith)
drop_before (suc n) (b ∷ l) rest h = drop_before n l rest (omega arith)

abbrev packed : List ℕ → ℕ → Eip712Signature
packed out recid = out ++ ((27 + recid) ∷ [])

module _ (out : List ℕ) (recid : ℕ) (size : length out ≡ 64) where
  packed-r : take_bytes 32 (packed out recid) ≡ take_bytes 32 out
  packed-r = take_before 32 out _ (omega (arith, size))

  packed-s : take_bytes 32 (drop_bytes 32 (packed out recid)) ≡ take_bytes 32 (drop_bytes 32 out)
  packed-s =
      ap (take_bytes 32) (drop_before 32 out _ (omega (arith, size)))
      ∙ take_before 32 (drop_bytes 32 out) _ (omega (arith, size, length-drop_bytes 32 out))

  packed-v : byte_at 64 (packed out recid) ≡ 27 + recid
  packed-v = rw (byte_at, drop_all 64 out ((27 + recid) ∷ []) size) refl

  packed-rs : take_bytes 64 (packed out recid) ≡ out
  packed-rs = take_all 64 out _ size

whole :
    (out : List ℕ) (recid : ℕ)
    → length out ≡ 64
    → recid < 2
    → take_bytes 64 out ++ ((27 + recid % 2) ∷ []) ≡ packed out recid
whole out recid size small =
    let parity : recid % 2 ≡ recid = omega arith in simp (take_self 64 out size, parity) refl

normal : (recid : ℕ) → recid < 2 → normalize_v (27 + recid) ≡ some recid
unfolding normalize_v
normal recid h = ground arith

module _ (p : Platform) (curve : Secp256k1) (documented : IsDocumentedCurve curve) where
  recovered_key :
      (msg out x y : List ℕ) (recid : ℕ) (rsig : curve.RecoverableSignature) (key : curve.Pubkey)
      → length out ≡ 64
      → rs_low_s_and_in_range (take_bytes 32 out) (take_bytes 32 (drop_bytes 32 out)) ≡ true
      → recid < 2
      → curve.can_create ≡ true
      → curve.parse_compact out recid ≡ some rsig
      → curve.recover rsig msg ≡ some key
      → curve.pubkey_serialize key ≡ some (4 ∷ (x ++ y))
      → length x ≡ 32
      → length y ≡ 32
      → recover_address_from_sig_rsv p curve msg (packed out recid) ≡ ok (get_address p (x ++ y))
  unfolding recover_address_from_sig_rsv get_address drop_bytes
  recovered_key msg out x y recid rsig key size low small created parsed recovered bytes lx ly =
      let long : length (4 ∷ (x ++ y)) ≡ 65 = omega (arith, length-append x y) in
      simp
        (
          packed-r out recid size,
          packed-s out recid size,
          packed-v out recid size,
          packed-rs out recid size,
          low,
          normal recid small,
          created,
          parsed,
          recovered,
          bytes,
          long,
        )
        refl

  public_key-eq :
      (k public_key x y : List ℕ)
      → curve.affine_coordinates k ≡ some (x, y)
      → compute_public_key p curve k ≡ ok public_key
      → public_key ≡ x ++ y
  unfolding compute_public_key
  public_key-eq k public_key x y affine e = ground (arith, affine, e)

  made :
      (msg k : List ℕ) (rsig : curve.RecoverableSignature) (out : List ℕ) (recid : ℕ)
      (sig : Eip712Signature)
      → curve.sign_recoverable msg k ≡ some rsig
      → curve.serialize_compact rsig ≡ some (out, recid)
      → length out ≡ 64
      → recid < 2
      → sign_auth_raw p curve msg k v27_28 ≡ ok sig
      → (curve.can_create ≡ true) × (sig ≡ packed out recid)
  unfolding sign_auth_raw
  made msg k rsig out recid sig signed serialized size small e =
      let (u0, created, r0) = >>=-eq-ok (require curve.can_create _) _ e in
      let (u1, verified, r1) = >>=-eq-ok (require (curve.seckey_verify k) _) _ r0 in
      let (rsig', signed', r2) = >>=-eq-ok (or_failed _ (curve.sign_recoverable msg k)) _ r1 in
      let ((out', recid'), serialized', r3) =
        >>=-eq-ok (or_failed _ (curve.serialize_compact rsig')) _ r2 in
      let same : rsig ≡ rsig' = ground (arith, signed, signed') in
      let same_out : ◌≡◌ {A = Option (List ℕ × ℕ)} (some (out, recid)) (some (out', recid')) =
        ground (arith, serialized, serialized', same) in
      let eo : out ≡ out' = cc (same_out) in
      let er : recid ≡ recid' = cc (same_out) in
      (
        ground (arith, created),
        sym (ok-injective r3) ∙ rw (← eo, ← er) (whole out recid size small),
      )

  -- Where the recovery id is 0 or 1, which it is unless r has been reduced by the order, the signer
  -- of a signature with v = 27 or 28 is recovered, as the address of the key's public key.
  pub recover_address_from_sig_rsv-sign_auth_raw :
      (msg k public_key : List ℕ) (rsig : curve.RecoverableSignature) (out : List ℕ) (recid : ℕ)
      (sig : Eip712Signature)
      → curve.sign_recoverable msg k ≡ some rsig
      → curve.serialize_compact rsig ≡ some (out, recid)
      → recid < 2
      → sign_auth_raw p curve msg k v27_28 ≡ ok sig
      → compute_public_key p curve k ≡ ok public_key
      → recover_address_from_sig_rsv p curve msg sig ≡ ok (get_address p public_key)
  recover_address_from_sig_rsv-sign_auth_raw msg k public_key rsig out recid sig signed serialized
        small e computed =
      let (key, x, y, recovered, bytes, lx, ly, affine) = documented.recovers msg k rsig signed in
      let (size, low, parsed) = documented.compact rsig out recid serialized in
      let (created, same) = made msg k rsig out recid sig signed serialized size small e in
      rw (public_key-eq k public_key x y affine computed) (
        ap (recover_address_from_sig_rsv p curve msg) same
        ∙ recovered_key msg out x y recid rsig key size low small created parsed recovered bytes lx
            ly)
