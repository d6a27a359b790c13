-- ===== src/Vibemarket/Math/Product.antt =====
-- The constant product of a pair's reserves (VibeSwap::getAmountOut and getAmountIn).
use machinepal.Prelude.{ℕ, ◌+◌, ◌-◌, ◌*◌, ◌/◌, ◌≤◌, ◌<◌, ◌≡◌, refl, arith}
use machinepal.Result.{ok}
use machinepal.Platform.{u256_mod}
use machinepal.Vibemarket.Math.{get_amount_out, get_amount_in}

pub div_bounds : (n d : ℕ) → 0 < d → ((n / d) * d ≤ n) × (n < (n / d) * d + d)
div_bounds n d h = grind arith

-- What the division leaves of the reserves' product.
below : (f r k q : ℕ) → 0 < r → 0 < k → q * (r + f) ≤ f * k → q < k
below f r k q h h' e = grind arith

product_kept : (f r k q j : ℕ) → q + j ≡ k → q * (r + f) ≤ f * k → r * k ≤ (r + f) * j
product_kept f r k q j e h = grind arith

abbrev pub FitsOut : ℕ → ℕ → ℕ → Type 0
FitsOut amount_in reserve_in reserve_out =
    (amount_in * 997 * reserve_out < u256_mod) × (reserve_in * 1000 + amount_in * 997 < u256_mod)

-- The quotient that getAmountOut returns where nothing wraps.
pub get_amount_out-eq :
    (amount_in reserve_in reserve_out out : ℕ)
    → FitsOut amount_in reserve_in reserve_out
    → get_amount_out amount_in reserve_in reserve_out ≡ ok out
    → (0 < amount_in)
      × (0 < reserve_in)
      × (0 < reserve_out)
      × (out ≡ (amount_in * 997 * reserve_out) / (reserve_in * 1000 + amount_in * 997))
unfolding get_amount_out
get_amount_out-eq amount_in reserve_in reserve_out out (n, d) h = ground arith

product_after :
    (f r k q : ℕ) → 0 < r → 0 < k → q ≡ (f * k) / (r + f) → (q < k) × (r * k ≤ (r + f) * (k - q))
product_after f r k q hr hk e =
    let d : q * (r + f) ≤ f * k = rw e (div_bounds (f * k) (r + f) (omega arith)).0 in
    let small : q < k = below f r k q hr hk d in
    (small, product_kept f r k q (k - q) (omega arith) d)

-- A swap of an input that wraps nothing takes less than the whole reserve, and the product of the
-- reserves, the fee of 0.3 % put aside, does not fall.
pub get_amount_out_product :
    (amount_in reserve_in reserve_out out : ℕ)
    → FitsOut amount_in reserve_in reserve_out
    → get_amount_out amount_in reserve_in reserve_out ≡ ok out
    → (out < reserve_out)
      × (1000 * (reserve_in * reserve_out)
          ≤ (1000 * reserve_in + 997 * amount_in) * (reserve_out - out))
get_amount_out_product amount_in reserve_in reserve_out out fits h =
    let e = get_amount_out-eq amount_in reserve_in reserve_out out fits h in
    let k =
      product_after (amount_in * 997) (reserve_in * 1000) reserve_out out (omega arith) e.2 e.3 in
    (k.0, grind (arith, k.1))

abbrev pub FitsIn : ℕ → ℕ → ℕ → Type 0
FitsIn amount_out reserve_in reserve_out =
    (reserve_in * amount_out * 1000 + 1 < u256_mod) × (reserve_out * 997 < u256_mod)

get_amount_in-eq :
    (amount_out reserve_in reserve_out amount : ℕ)
    → FitsIn amount_out reserve_in reserve_out
    → get_amount_in amount_out reserve_in reserve_out ≡ ok amount
    → (0 < amount_out)
      × (0 < reserve_in)
      × (amount_out < reserve_out)
      × (amount ≡ (reserve_in * amount_out * 1000) / ((reserve_out - amount_out) * 997) + 1)
unfolding get_amount_in
get_amount_in-eq amount_out reserve_in reserve_out amount (n, d) h = ground arith

covers :
    (r k x q j n : ℕ)
    → q + j ≡ k
    → n < x * (j * 997)
    → n ≡ r * q * 1000
    → q * (r * 1000 + x * 997) ≤ x * 997 * k
covers r k x q j n e l h = grind arith

le-div : (q n d : ℕ) → 0 < d → q * d ≤ n → q ≤ n / d
le-div q n d h l = grind (arith, div_bounds n d h)

-- Where none of the products and sums of getAmountIn and getAmountOut reaches 2^256, what getAmountIn
-- asks for buys at least the amount that was wanted.
pub get_amount_out-get_amount_in :
    (amount_out reserve_in reserve_out amount out : ℕ)
    → FitsIn amount_out reserve_in reserve_out
    → FitsOut amount reserve_in reserve_out
    → get_amount_in amount_out reserve_in reserve_out ≡ ok amount
    → get_amount_out amount reserve_in reserve_out ≡ ok out
    → amount_out ≤ out
get_amount_out-get_amount_in amount_out reserve_in reserve_out amount out fi fo hi ho =
    let i = get_amount_in-eq amount_out reserve_in reserve_out amount fi hi in
    let o = get_amount_out-eq amount reserve_in reserve_out out fo ho in
    let d : ℕ = (reserve_out - amount_out) * 997 in
    let n : ℕ = reserve_in * amount_out * 1000 in
    let above = (div_bounds n d (omega arith)).1 in
    let c : amount_out * (reserve_in * 1000 + amount * 997) ≤ amount * 997 * reserve_out =
      covers reserve_in reserve_out amount amount_out (reserve_out - amount_out) n (omega arith)
        (rw i.3 (grind arith)) refl in
    rw o.3 (le-div amount_out _ _ (omega arith) c)
