-- ===== src/Crypto/Encoding/Decimal.antt =====
-- Numbers of 256 bits written in decimal and read back (Encoding.cpp).
use machinepal.Prelude.{ℕ, ◌<◌, ◌≡◌, false, Text, [], ◌∷◌, any, All, arith, is_empty, refl}
use machinepal.Result.{ok}
use machinepal.Platform.{
  Platform, IsDocumented, IsDecimal, IsDigit, HasNoLeadingZero, u256_mod, decimal_value_from,
}
use machinepal.Crypto.Encoding.{
  is_space, first_is, has_hex_prefix, u256_from_hex_or_decimal, u256_to_decimal,
}

no_space : (t : Text) → All IsDigit t → any is_space t ≡ false
unfolding is_space
no_space [] h = refl
no_space (c ∷ t) h = ground (arith, no_space t h.1)

not_minus : (t : Text) → All IsDigit t → first_is b'-' t ≡ false
unfolding first_is
not_minus [] h = refl
not_minus (c ∷ t) h = ground arith

not_hex : (t : Text) → All IsDigit t → has_hex_prefix t ≡ false
unfolding has_hex_prefix
not_hex [] h = refl
not_hex (c ∷ []) h = refl
not_hex (c ∷ d ∷ t) h = ground arith

not_empty : (t : Text) → HasNoLeadingZero t → is_empty t ≡ false
unfolding is_empty
not_empty [] h = absurd h
not_empty (c ∷ t) h = refl

-- A decimal text that fits in 256 bits passes the checks and is read as its value.
pub u256_from_hex_or_decimal-IsDecimal :
    (p : Platform)
    → IsDocumented p
    → (t : Text) → IsDecimal t
    → decimal_value_from 0 t < u256_mod
    → u256_from_hex_or_decimal p t ≡ ok (decimal_value_from 0 t)
unfolding u256_from_hex_or_decimal
u256_from_hex_or_decimal-IsDecimal p doc t d small =
    simp (not_empty t d.canonical, no_space t d.digits, not_minus t d.digits, not_hex t d.digits)
      (doc.parse_dec-value t d small)

-- What u256ToDecimal writes of a number below 2^256, u256FromHexOrDecimal reads back as it.
pub u256_from_hex_or_decimal-u256_to_decimal :
    (p : Platform) (n : ℕ)
    → IsDocumented p
    → n < u256_mod
    → u256_from_hex_or_decimal p (u256_to_decimal p n) ≡ ok n
unfolding u256_to_decimal
u256_from_hex_or_decimal-u256_to_decimal p n doc small =
    let v = doc.value-dec n in
    rw (u256_from_hex_or_decimal-IsDecimal p doc (p.dec n) (doc.dec-IsDecimal n) (omega arith), v)
