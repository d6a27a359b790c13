-- ===== src/Crypto/Encoding.antt =====
-- src/crypto/Encoding.cpp over the conversions of the platform.
pub mod Decimal
pub mod Folding
pub mod Uint256
use machinepal.Prelude.{
  ℕ, zero, suc, ◌+◌, ◌-◌, ◌*◌, ◌%◌, ◌<◌, ◌≤◌, ◌≡◌, Bool, true, false, ◌&&◌, ◌||◌, not, Text, str,
  List, [], ◌∷◌, ◌++◌, any, length, leb, ltb, ◌==◌, if◌then◌else◌, is_empty,
}
use machinepal.Result.{Result, ok, err, invalid_argument, ◌>>=◌, ◌>>◌}
use machinepal.Platform.{Platform, u256_mod}

-- view[0] == '0' && ( view[1] == 'x' || view[1] == 'X' )
unfoldable pub has_hex_prefix : Text → Bool
has_hex_prefix [] = false
has_hex_prefix (a ∷ []) = false
has_hex_prefix (a ∷ b ∷ t) = a == b'0' && (b == b'x' || b == b'X')

unfoldable pub drop_two : Text → Text
drop_two [] = []
drop_two (a ∷ []) = []
drop_two (a ∷ b ∷ t) = t

-- isspace in the C locale
unfoldable pub is_space : ℕ → Bool
is_space c = c == 32 || (leb 9 c && leb c 13)

unfoldable pub first_is : ℕ → Text → Bool
first_is c [] = false
first_is c (a ∷ t) = a == c

-- val = ( val << 8 ) | b, on uint256_t
unfoldable pub fold_bytes : ℕ → List ℕ → ℕ
fold_bytes val [] = val
fold_bytes val (b ∷ bytes) = fold_bytes (val * 256 % u256_mod + b) bytes

unfoldable pub zeros : ℕ → List ℕ
zeros zero = []
zeros (suc n) = 0 ∷ zeros n

-- Left-pad to 32 bytes.
unfoldable pub pad32 : List ℕ → List ℕ
unfolding zeros
pad32 bytes = zeros (32 - length bytes) ++ bytes

module _ (p : Platform) where
  unfoldable pub from_hex : Text → Result (List ℕ)
  unfolding has_hex_prefix drop_two
  from_hex hex_str =
      let view = if has_hex_prefix hex_str then drop_two hex_str else hex_str in
      if not (length view % 2 == 0)
      then err (invalid_argument (str "Hex string must have even length"))
      else p.unhex view

  unfoldable pub u256_from_hex_or_decimal : Text → Result ℕ
  unfolding has_hex_prefix is_space first_is is_empty fold_bytes from_hex
  u256_from_hex_or_decimal s =
      if is_empty s
      then err (invalid_argument (str "Empty input for uint256"))
      else if any is_space s
      then err (invalid_argument (str "Whitespace not allowed in uint256 input"))
      else if first_is b'-' s
      then err (invalid_argument (str "Negative numbers not allowed for uint256"))
      else if has_hex_prefix s
      then (do
        bytes ← from_hex s
        if length bytes == 0
            then err (invalid_argument (str "Empty hex input for uint256"))
            else if ltb 32 (length bytes)
            then err (invalid_argument (str "Hex input too long for uint256"))
            else ok (fold_bytes 0 bytes))
      else p.parse_dec s

  unfoldable pub u256_to_decimal : ℕ → Text
  u256_to_decimal val = p.dec val

  -- Encoding::toHex of bytes, and hashToHex
  unfoldable pub to_hex : List ℕ → Bool → Text
  to_hex bytes with_prefix = (if with_prefix then str "0x" else []) ++ p.hex_lower bytes

  unfoldable pub hash_to_hex : List ℕ → Text
  hash_to_hex arr = p.hex_lower arr

  unfoldable pub from_hex_to_hash : Text → Result (List ℕ)
  unfolding from_hex pad32
  from_hex_to_hash hex_str = do
    bytes ← from_hex hex_str
    if ltb 32 (length bytes)
        then err (invalid_argument (str "Hex input too long for array32"))
        else ok (pad32 bytes)

  unfoldable pub base64_encode : Text → Text
  unfolding is_empty
  base64_encode input = if is_empty input then [] else p.base64_encode input

  unfoldable pub base64_decode : Text → Text
  unfolding is_empty
  base64_decode input = if is_empty input then [] else p.base64_decode input
