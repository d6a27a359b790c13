-- ===== src/Crypto/Encoding/Folding.antt =====
-- Bytes folded into a number of 256 bits (u256FromHexOrDecimal of src/crypto/Encoding.cpp).
use machinepal.Prelude.{
  ℕ, zero, suc, ◌+◌, ◌*◌, ◌%◌, ◌<◌, ◌≤◌, ◌≡◌, refl, List, [], ◌∷◌, All, length, arith,
}
use machinepal.Platform.{u256_mod}
use machinepal.Crypto.Encoding.{fold_bytes}
use machinepal.Crypto.Keys.{be_value}
use machinepal.Crypto.Keys.Order.{IsByte}

abbrev power : ℕ → ℕ
power zero = 1
power (suc n) = 256 * power n

power_positive : (n : ℕ) → 1 ≤ power n
power_positive zero = omega arith
power_positive (suc n) = omega (arith, power_positive n)

power_mono : (n m : ℕ) → n ≤ m → power n ≤ power m
power_mono zero m h = power_positive m
power_mono (suc n) zero h = absurd (omega arith)
power_mono (suc n) (suc m) h = omega (arith, power_mono n m (omega arith))

be_value-lt :
    (bytes : List ℕ) (acc : ℕ)
    → All IsByte bytes
    → be_value acc bytes < (acc + 1) * power (length bytes)
unfolding be_value
be_value-lt [] acc h = omega arith
be_value-lt (b ∷ bytes) acc (hb, h) = grind (arith, be_value-lt bytes (acc * 256 + b) h)

be_value-le : (bytes : List ℕ) (acc : ℕ) → acc ≤ be_value acc bytes
unfolding be_value
be_value-le [] acc = omega arith
be_value-le (b ∷ bytes) acc = omega (arith, be_value-le bytes (acc * 256 + b))

-- Nothing is shifted out of a number that stays below 2^256.
pub fold_bytes-be_value :
    (bytes : List ℕ) (acc : ℕ)
    → be_value acc bytes < u256_mod
    → fold_bytes acc bytes ≡ be_value acc bytes
unfolding fold_bytes be_value
fold_bytes-be_value [] acc h = refl
fold_bytes-be_value (b ∷ bytes) acc h =
    let small : acc * 256 % u256_mod ≡ acc * 256 =
      omega (arith, be_value-le bytes (acc * 256 + b)) in
    rw small (fold_bytes-be_value bytes (acc * 256 + b) h)

pub be_value_small :
    (bytes : List ℕ) → All IsByte bytes → length bytes ≤ 32 → be_value 0 bytes < u256_mod
be_value_small bytes h few = omega (arith, be_value-lt bytes 0 h, power_mono (length bytes) 32 few)
