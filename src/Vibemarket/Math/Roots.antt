-- ===== src/Vibemarket/Math/Roots.antt =====
-- Where VibeSwap::integerSqrt ends, and what it returns.
use machinepal.Prelude.{
  ℕ, zero, suc, ◌+◌, ◌-◌, ◌*◌, ◌/◌, ◌%◌, ◌^◌, ◌≤◌, ◌<◌, ◌≡◌, refl, false, none, some, arith, ltb,
  leb, ◌==◌, true, if◌then◌else◌, Bool-cases, inl, inr,
}
use machinepal.Vibemarket.Words.{add_u256, mul_u256}
use machinepal.Vibemarket.Math.{double_high, bisect, integer_sqrt}

square_zero : (m : ℕ) → mul_u256 (2 ^ 128 * m) (2 ^ 128 * m) ≡ 0
square_zero m = grind arith

-- `high` after g doublings
abbrev shifted : ℕ → ℕ → ℕ
shifted zero high = high
shifted (suc g) high = shifted g (high * 2)

le-shifted : (g high : ℕ) → high ≤ shifted g high
le-shifted zero high = omega arith
le-shifted (suc g) high = omega (arith, le-shifted g (high * 2))

square_small : (x : ℕ) → x ≤ 2 ^ 127 → x * x ≤ 2 ^ 254
square_small x h = grind arith

double_high_ends :
    (g fuel raw high : ℕ)
    → g < fuel
    → 0 < high
    → shifted g high ≡ 2 ^ 127
    → raw < 2 ^ 254
    → (top : ℕ) × (double_high fuel raw high ≡ some top) × (raw < top * top) × (top ≤ 2 ^ 127)
unfolding double_high
double_high_ends g zero raw high l p e s = absurd (omega arith)
double_high_ends zero (suc fuel) raw high l p e s =
    let sq : high * high ≡ 2 ^ 254 = rw e in (high, ground arith, omega arith, omega arith)
double_high_ends (suc g) (suc fuel) raw high l p e s =
    let small = le-shifted g (high * 2) in
    let fits = square_small high (omega arith) in
    let next : mul_u256 high 2 ≡ high * 2 = omega arith in
    elim (Bool-cases (leb (mul_u256 high high) raw)) [
      | inl more ↦
          rw (more, next) (double_high_ends g fuel raw (high * 2) (omega arith) (omega arith) e s)
      | inr done ↦ (high, rw done, ground arith, omega arith)
    ]

-- A power of two that is at least the width of the interval bounds the rounds left.
abbrev pow2 : ℕ → ℕ
pow2 zero = 1
pow2 (suc n) = 2 * pow2 n

bisect_more :
    (fuel raw low high mid : ℕ)
    → mid ≡ (low + high) / 2
    → high ≤ 2 ^ 127
    → low + 1 < high
    → bisect (suc fuel) raw low high
      ≡ (if leb (mid * mid) raw then bisect fuel raw mid high else bisect fuel raw low mid)
unfolding bisect
bisect_more fuel raw low high mid e s l =
    let fits = square_small mid (omega arith) in
    let m : add_u256 low high / 2 ≡ mid = omega arith in
    let q : mul_u256 mid mid ≡ mid * mid = omega arith in
    let t : ltb (add_u256 low 1) high ≡ true = ground arith in
    elim (Bool-cases (leb (mid * mid) raw)) [
      | inl up ↦ rw (t, m, q, up)
      | inr down ↦ rw (t, m, q, down)
    ]

bisect_done :
    (fuel raw low high : ℕ)
    → high ≡ low + 1
    → high ≤ 2 ^ 127
    → bisect (suc fuel) raw low high ≡ some low
unfolding bisect
bisect_done fuel raw low high e s = ground arith

bisect_ends :
    (n raw low high : ℕ)
    → high - low ≤ pow2 n
    → low < high
    → high ≤ 2 ^ 127
    → low * low ≤ raw
    → raw < high * high
    → (r : ℕ) × (bisect (suc n) raw low high ≡ some r) × (r * r ≤ raw) × (raw < (r + 1) * (r + 1))
bisect_ends zero raw low high w l s b a =
    let e : high ≡ low + 1 = omega arith in (low, bisect_done 0 raw low high e s, b, rw (← e) a)
bisect_ends (suc n) raw low high w l s b a =
    let mid : ℕ = (low + high) / 2 in
    elim (Bool-cases (ltb (low + 1) high)) [
      | inr done ↦
          let e : high ≡ low + 1 = ground arith in
          (low, bisect_done (suc n) raw low high e s, b, rw (← e) a)
      | inl more ↦
          rw (bisect_more (suc n) raw low high mid refl s (ground arith))
            (elim (Bool-cases (leb (mid * mid) raw)) [
              | inl up ↦
                  rw up (bisect_ends n raw mid high (omega arith) (ground arith) s (ground arith) a)
              | inr down ↦ rw down (
                  bisect_ends n raw low mid (omega arith) (ground arith) (omega arith) b
                    (ground arith))
            ])
    ]

-- The result is the root rounded down. 256 rounds are enough.
pub integer_sqrt_root :
    (raw : ℕ)
    → raw < 2 ^ 254
    → (r : ℕ) × (integer_sqrt 256 raw ≡ some r) × (r * r ≤ raw) × (raw < (r + 1) * (r + 1))
unfolding integer_sqrt
integer_sqrt_root raw s = elim (Bool-cases (raw == 0)) [
  | inl z ↦ (0, rw z, omega arith, ground arith)
  | inr nz ↦
      let t = double_high_ends 127 256 raw 1 (omega arith) (omega arith) refl s in
      rw (nz, t.1) (bisect_ends 255 raw 0 t.0 (omega arith) (grind arith) t.3 (omega arith) t.2)
]

doubles_zero : (fuel raw high m : ℕ) → high ≡ 2 ^ 128 * m → double_high fuel raw high ≡ none
unfolding double_high
doubles_zero zero raw high m e = refl
doubles_zero (suc fuel) raw high m e =
    let z : mul_u256 high high ≡ 0 = rw e (square_zero m) in
    let t : leb (mul_u256 high high) raw ≡ true = ground arith in
    rw t (doubles_zero fuel raw (mul_u256 high 2) (2 * m % 2 ^ 128) (omega arith))

doubles_forever :
    (g fuel raw high : ℕ)
    → shifted g high ≡ 2 ^ 127
    → 2 ^ 254 ≤ raw
    → double_high fuel raw high ≡ none
unfolding double_high
doubles_forever g zero raw high e b = refl
doubles_forever zero (suc fuel) raw high e b =
    let t : leb (mul_u256 high high) raw ≡ true = rw e (ground arith) in
    rw t (doubles_zero fuel raw (mul_u256 high 2) 1 (omega arith))
doubles_forever (suc g) (suc fuel) raw high e b =
    let small = le-shifted g (high * 2) in
    let fits = square_small high (omega arith) in
    let next : mul_u256 high 2 ≡ high * 2 = omega arith in
    let t : leb (mul_u256 high high) raw ≡ true = ground arith in
    rw (t, next) (doubles_forever g fuel raw (high * 2) e b)

-- From 2^254 on the square of `high` wraps to zero before it exceeds the number, and the loop that
-- doubles it never ends.
pub integer_sqrt_diverges : (fuel raw : ℕ) → 2 ^ 254 ≤ raw → integer_sqrt fuel raw ≡ none
unfolding integer_sqrt
integer_sqrt_diverges fuel raw b =
    let nz : (raw == 0) ≡ false = ground arith in rw (nz, doubles_forever 127 fuel raw 1 refl b)
