-- ===== src/Crypto/Keys.antt =====
-- src/crypto/EthPrivateKey.cpp and EthPublicKey.cpp: keys, signatures and the recovery of the
-- signer. libsecp256k1 and OpenSSL's arithmetic of points are the record Secp256k1.
pub mod Order
pub mod Canonical
pub mod Signing
use machinepal.Prelude.{
  ℕ, zero, suc, ◌+◌, ◌-◌, ◌*◌, ◌%◌, Bool, true, false, ◌&&◌, ◌||◌, not, all, Text, str, List, [],
  ◌∷◌, ◌++◌, length, ltb, leb, ◌==◌, if◌then◌else◌, text_eq, starts_with, Option, none, some,
}
use machinepal.Result.{
  Result, ok, err, Exception, invalid_argument, runtime_error, logic_error, what, require, ◌>>=◌,
  ◌>>◌,
}
use machinepal.Platform.{Platform}
use machinepal.Crypto.Encoding.{drop_two, is_space}
use machinepal.Crypto.Values.{EthAddress, Eip712Signature, is_xdigit}

pub record Secp256k1 : Type 1 where
  -- secp256k1_context_create succeeds
  pub can_create : Bool
  pub seckey_verify : List ℕ → Bool
  pub RecoverableSignature : Type 0
  pub Pubkey : Type 0
  pub sign_recoverable : List ℕ → List ℕ → Option RecoverableSignature
  -- r || s and the recovery id
  pub serialize_compact : RecoverableSignature → Option (List ℕ × ℕ)
  pub parse_compact : List ℕ → ℕ → Option RecoverableSignature
  pub recover : RecoverableSignature → List ℕ → Option Pubkey
  -- SECP256K1_EC_UNCOMPRESSED
  pub pubkey_serialize : Pubkey → Option (List ℕ)
  -- whether a function of OpenSSL that makes an object succeeds
  pub allocates : Text → Bool
  -- EC_POINT_mul, and EC_POINT_get_affine_coordinates of what it gives, as 32 bytes each
  pub point_mul : List ℕ → Bool
  pub affine_coordinates : List ℕ → Option (List ℕ × List ℕ)

pub data VEncoding : Type 0 where
  v27_28 v0_1 : VEncoding

unfoldable pub take_bytes : ℕ → List ℕ → List ℕ
take_bytes zero l = []
take_bytes (suc n) [] = []
take_bytes (suc n) (b ∷ l) = b ∷ take_bytes n l

unfoldable pub drop_bytes : ℕ → List ℕ → List ℕ
drop_bytes zero l = l
drop_bytes (suc n) [] = []
drop_bytes (suc n) (b ∷ l) = drop_bytes n l

-- sig65[ 64 ] of an array of 65 bytes
abbrev pub byte_at : ℕ → List ℕ → ℕ
byte_at n l = elim (drop_bytes n l) [ [] ↦ 0 | b ∷ rest ↦ b ]

-- BN_bin2bn: big-endian
unfoldable pub be_value : ℕ → List ℕ → ℕ
be_value acc [] = acc
be_value acc (b ∷ l) = be_value (acc * 256 + b) l

-- 0xFFFFFFFFFFFFFFFFFFFFFFFFFFFFFFFEBAAEDCE6AF48A03BBFD25E8CD0364141
abbrev pub curve_order : ℕ
curve_order = 115792089237316195423570985008687907852837564279074904382605163141518161494337

abbrev pub order_bytes : List ℕ
order_bytes =
    0xFF ∷ 0xFF ∷ 0xFF ∷ 0xFF ∷ 0xFF ∷ 0xFF ∷ 0xFF ∷ 0xFF ∷ 0xFF ∷ 0xFF ∷ 0xFF ∷ 0xFF ∷ 0xFF ∷ 0xFF
    ∷ 0xFF ∷ 0xFE ∷ 0xBA ∷ 0xAE ∷ 0xDC ∷ 0xE6 ∷ 0xAF ∷ 0x48 ∷ 0xA0 ∷ 0x3B ∷ 0xBF ∷ 0xD2 ∷ 0x5E
    ∷ 0x8C ∷ 0xD0 ∷ 0x36 ∷ 0x41 ∷ 0x41 ∷ []

abbrev pub half_order_bytes : List ℕ
half_order_bytes =
    0x7F ∷ 0xFF ∷ 0xFF ∷ 0xFF ∷ 0xFF ∷ 0xFF ∷ 0xFF ∷ 0xFF ∷ 0xFF ∷ 0xFF ∷ 0xFF ∷ 0xFF ∷ 0xFF ∷ 0xFF
    ∷ 0xFF ∷ 0xFF ∷ 0x5D ∷ 0x57 ∷ 0x6E ∷ 0x73 ∷ 0x57 ∷ 0xA4 ∷ 0x50 ∷ 0x1D ∷ 0xDF ∷ 0xE9 ∷ 0x2F
    ∷ 0x46 ∷ 0x68 ∷ 0x1B ∷ 0x20 ∷ 0xA0 ∷ []

-- std::memcmp( a, b, n ) < 0, and <= 0, on two arrays of n bytes
unfoldable pub be_lt : List ℕ → List ℕ → Bool
be_lt [] b = false
be_lt (x ∷ a) [] = false
be_lt (x ∷ a) (y ∷ b) = let rest = be_lt a b in if x == y then rest else ltb x y

unfoldable pub be_le : List ℕ → List ℕ → Bool
be_le [] b = true
be_le (x ∷ a) [] = true
be_le (x ∷ a) (y ∷ b) = let rest = be_le a b in if x == y then rest else ltb x y

unfoldable pub be_is_zero : List ℕ → Bool
be_is_zero bytes = all (λ b. b == 0) bytes

unfoldable pub is_valid_range : List ℕ → Bool
is_valid_range k = not (be_value 0 k == 0) && ltb (be_value 0 k) curve_order

unfoldable pub rs_low_s_and_in_range : List ℕ → List ℕ → Bool
rs_low_s_and_in_range r s =
    not (be_is_zero r) && be_lt r order_bytes && not (be_is_zero s) && be_le s half_order_bytes

-- The recovery id.
unfoldable pub normalize_v : ℕ → Option ℕ
normalize_v v = if v == 27 || v == 28 then some (v - 27) else none

abbrev trim_front : Text → Text
trim_front [] = []
trim_front (c ∷ t) = if is_space c then trim_front t else c ∷ t

abbrev trim_back : Text → Text
trim_back [] = []
trim_back (c ∷ t) = elim (trim_back t) [
  | [] ↦ if is_space c then [] else c ∷ []
  | d ∷ rest ↦ c ∷ d ∷ rest
]

-- trimCopy
unfoldable pub trim_copy : Text → Text
trim_copy s = trim_back (trim_front s)

abbrev without_prefix : Text → Text
without_prefix s = if starts_with s (str "0x") || starts_with s (str "0X") then drop_two s else s

abbrev pub or_invalid : {A : Type 0} → Text → Option A → Result A
or_invalid m none = err (invalid_argument m)
or_invalid m (some a) = ok a

abbrev pub or_failed : {A : Type 0} → Text → Option A → Result A
or_failed m none = err (runtime_error m)
or_failed m (some a) = ok a

module _ (p : Platform) where
  abbrev decoded : Text → Result (List ℕ)
  decoded s = elim (p.unhex s) [
    | ok bytes ↦ ok bytes
    | err e ↦ err (invalid_argument (str "Invalid hex input: " ++ what e))
  ]

  -- hexToBytesFlexible of EthPrivateKey.cpp; the length stands in the message of the second check.
  unfoldable pub private_hex_to_bytes_flexible : Text → Result (List ℕ)
  private_hex_to_bytes_flexible hex = do
    let s = without_prefix hex
    require (length s % 2 == 0) (invalid_argument (str "Hex string must have even length"))
    require (length s == 64) (
        invalid_argument
          (str "Private key must be 32 bytes (64 hex chars); got " ++ p.dec (length s)))
    decoded s

  unfoldable pub parse_flexible_private_key : Text → Result (List ℕ)
  parse_flexible_private_key hex = do
    k ← private_hex_to_bytes_flexible hex
    require (not (be_is_zero k)) (invalid_argument (str "Private key must not be zero"))
    require (is_valid_range k) (invalid_argument (str "Private key out of range for secp256k1"))
    ok k

  -- EthPrivateKey( const std::string& hex )
  unfoldable pub make_private_key : Text → Result (List ℕ)
  make_private_key hex = do
    k ← private_hex_to_bytes_flexible hex
    require (is_valid_range k) (invalid_argument (str "Private key out of range for secp256k1"))
    ok k

  unfoldable pub private_key_to_hex : List ℕ → Text
  private_key_to_hex k = str "0x" ++ p.hex_lower k

  -- hexToBytesFlexible of EthPublicKey.cpp: the prefix byte 04 and the 64 bytes after it
  unfoldable pub public_hex_to_bytes_flexible : Text → Result (List ℕ)
  public_hex_to_bytes_flexible hex = do
    let s = without_prefix (trim_copy hex)
    require (length s == 130 && starts_with s (str "04")) (
        invalid_argument
          (str "Public key hex must be 130 characters (0x04 + 64 bytes); got " ++ p.dec (length s)))
    require (all is_xdigit s) (invalid_argument (str "Invalid hex character in public key"))
    p.unhex s

  unfoldable pub is_valid_public_key : List ℕ → Bool
  is_valid_public_key k = not (all (λ b. b == 0) k)

  unfoldable pub public_key_to_hex : List ℕ → Result Text
  public_key_to_hex k = do
    let hex_string = str "0x04" ++ p.hex_lower k
    require (length hex_string == 132) (logic_error (str "Invalid hex string size"))
    ok hex_string

  -- EthPublicKey::getAddress
  unfoldable pub get_address : List ℕ → EthAddress
  get_address k = take_bytes 20 (drop_bytes 12 (p.keccak256 k))

  module _ (curve : Secp256k1) where
    unfoldable pub compute_public_key : List ℕ → Result (List ℕ)
    compute_public_key k = do
      require (curve.allocates (str "EC_GROUP_new_by_curve_name"))
          (runtime_error (str "Failed to create EC_GROUP"))
      require (curve.allocates (str "BN_CTX_new")) (runtime_error (str "Failed to create BN_CTX"))
      require (curve.allocates (str "BN_bin2bn"))
          (runtime_error (str "Failed to create BIGNUM for private key"))
      require (curve.allocates (str "EC_POINT_new"))
          (runtime_error (str "Failed to create EC_POINT"))
      require (curve.point_mul k) (runtime_error (str "EC_POINT_mul failed"))
      require (curve.allocates (str "BN_new")) (runtime_error (str "BN_new failed"))
      coordinates ←
          or_failed (str "EC_POINT_get_affine_coordinates failed") (curve.affine_coordinates k)
      ok (coordinates.0 ++ coordinates.1)

    abbrev pub v_byte : VEncoding → ℕ → ℕ
    v_byte v27_28 parity = 27 + parity
    v_byte v0_1 parity = parity

    unfoldable pub sign_auth_raw : List ℕ → List ℕ → VEncoding → Result Eip712Signature
    sign_auth_raw msg32 priv32 v_enc = do
      require curve.can_create (runtime_error (str "context_create failed"))
      require (curve.seckey_verify priv32) (invalid_argument (str "invalid secp256k1 private key"))
      rsig ← or_failed (str "sign_recoverable failed") (curve.sign_recoverable msg32 priv32)
      compact ← or_failed (str "serialize_compact failed") (curve.serialize_compact rsig)
      ok (take_bytes 64 compact.0 ++ (v_byte v_enc (compact.1 % 2) ∷ []))

    unfoldable pub recover_address_from_sig_rsv : List ℕ → Eip712Signature → Result EthAddress
    recover_address_from_sig_rsv msg32 sig65 = do
      let r = take_bytes 32 sig65
      let s = take_bytes 32 (drop_bytes 32 sig65)
      require (rs_low_s_and_in_range r s) (invalid_argument (str "invalid r/s"))
      recid ← or_invalid (str "invalid v (0/1/27/28 expected)") (normalize_v (byte_at 64 sig65))
      require curve.can_create (invalid_argument (str "context_create failed"))
      rsig ←
          or_invalid (str "parse_compact failed") (curve.parse_compact (take_bytes 64 sig65) recid)
      pub_key ← or_invalid (str "ecdsa_recover failed") (curve.recover rsig msg32)
      pubkey ← or_invalid (str "pubkey_serialize failed") (curve.pubkey_serialize pub_key)
      require (length pubkey == 65) (invalid_argument (str "pubkey_serialize failed"))
      ok (take_bytes 20 (drop_bytes 12 (p.keccak256 (drop_bytes 1 pubkey))))
