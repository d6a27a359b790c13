-- ===== src/Vibemarket/Math.antt =====
-- src/vibemarket/VibeSwap.cpp: quote, getAmountOut, getAmountIn and integerSqrt.
pub mod Product
pub mod Roots
use machinepal.Prelude.{
  ℕ, zero, suc, ◌+◌, ◌-◌, ◌*◌, ◌/◌, ◌%◌, Bool, true, false, ◌||◌, str, Option, none, some, ltb, leb,
  ◌==◌, if◌then◌else◌,
}
use machinepal.Result
use machinepal.Result.{Result, ok, err, invalid_argument}
use machinepal.Platform.{u256_mod}
use machinepal.Vibemarket.Words.{add_u256, sub_u256, mul_u256, div_u256}

abbrev pub fee_numerator : ℕ
fee_numerator = 997

abbrev pub fee_denominator : ℕ
fee_denominator = 1000

abbrev pub minimum_liquidity : ℕ
minimum_liquidity = 1000

unfoldable pub quote : ℕ → ℕ → ℕ → Result ℕ
quote amount_a reserve_a reserve_b =
    if amount_a == 0
    then err (invalid_argument (str "Amount must be positive"))
    else if reserve_a == 0 || reserve_b == 0
    then err (invalid_argument (str "Reserves must be positive"))
    else div_u256 (mul_u256 amount_a reserve_b) reserve_a

unfoldable pub get_amount_out : ℕ → ℕ → ℕ → Result ℕ
get_amount_out amount_in reserve_in reserve_out =
    if amount_in == 0
    then err (invalid_argument (str "Amount in must be positive"))
    else if reserve_in == 0 || reserve_out == 0
    then err (invalid_argument (str "Reserves must be positive"))
    else let amount_in_with_fee = mul_u256 amount_in fee_numerator in
      let numerator = mul_u256 amount_in_with_fee reserve_out in
      let denominator = add_u256 (mul_u256 reserve_in fee_denominator) amount_in_with_fee in
      div_u256 numerator denominator

unfoldable pub get_amount_in : ℕ → ℕ → ℕ → Result ℕ
get_amount_in amount_out reserve_in reserve_out =
    if amount_out == 0
    then err (invalid_argument (str "Amount out must be positive"))
    else if reserve_in == 0 || reserve_out == 0
    then err (invalid_argument (str "Reserves must be positive"))
    else if leb reserve_out amount_out
    then err (invalid_argument (str "Amount out exceeds reserves"))
    else let numerator = mul_u256 (mul_u256 reserve_in amount_out) fee_denominator in
      let denominator = mul_u256 (sub_u256 reserve_out amount_out) fee_numerator in
      Result.◌>>=◌ (div_u256 numerator denominator) (λ n. ok (add_u256 n 1))

-- while (high * high <= rawValue) { high <<= 1; }
unfoldable pub double_high : ℕ → ℕ → ℕ → Option ℕ
double_high zero raw_value high = none
double_high (suc fuel) raw_value high =
    let rest = double_high fuel raw_value (mul_u256 high 2) in
    if leb (mul_u256 high high) raw_value then rest else some high

-- while (low + 1 < high) { … }
unfoldable pub bisect : ℕ → ℕ → ℕ → ℕ → Option ℕ
bisect zero raw_value low high = none
bisect (suc fuel) raw_value low high =
    let mid = add_u256 low high / 2 in
    let rest =
      bisect fuel raw_value (if leb (mul_u256 mid mid) raw_value then mid else low)
        (if leb (mul_u256 mid mid) raw_value then high else mid) in
    if ltb (add_u256 low 1) high then rest else some low

-- `none` where a loop does not end within the fuel.
unfoldable pub integer_sqrt : ℕ → ℕ → Option ℕ
integer_sqrt fuel raw_value =
    if raw_value == 0 then some 0 else elim (double_high fuel raw_value 1) [
      | none ↦ none
      | some high ↦ bisect fuel raw_value 0 high
    ]
