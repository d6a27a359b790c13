-- ===== src/Crypto/Keys/Order.antt =====
-- Arrays of bytes compared as memcmp does, and as the numbers that they stand for
-- (be_cmp32, be_is_zero32 and rs_low_s_and_in_range of EthPrivateKey.cpp).
use machinepal.Prelude.{
  ℕ, ◌+◌, ◌*◌, ◌<◌, ◌≤◌, ◌≡◌, ◌↔◌, refl, ap, ◌∙◌, Bool, true, List, [], ◌∷◌, All, all, length, ltb,
  leb, ◌==◌, arith, not, ◌&&◌,
}
use machinepal.Crypto.Keys.{
  be_value, be_lt, be_le, be_is_zero, order_bytes, half_order_bytes, curve_order,
  rs_low_s_and_in_range,
}

abbrev pub IsByte : ℕ → Type 0
IsByte b = b < 256

pub be_value_mono :
    (a b : List ℕ) (x y : ℕ)
    → length a ≡ length b
    → All IsByte a
    → All IsByte b
    → x < y
    → be_value x a < be_value y b
unfolding be_value
be_value_mono [] [] x y e ha hb h = h
be_value_mono [] (c ∷ b) x y e ha hb h = absurd (omega arith)
be_value_mono (c ∷ a) [] x y e ha hb h = absurd (omega arith)
be_value_mono (c ∷ a) (d ∷ b) x y e (hc, ha) (hd, hb) h =
    be_value_mono a b (x * 256 + c) (y * 256 + d) (omega arith) ha hb (omega arith)

pub be_lt-be_value :
    (a b : List ℕ) (x : ℕ)
    → length a ≡ length b
    → All IsByte a
    → All IsByte b
    → be_lt a b ≡ ltb (be_value x a) (be_value x b)
unfolding be_lt be_value
be_lt-be_value [] [] x e ha hb = ground arith
be_lt-be_value [] (c ∷ b) x e ha hb = absurd (omega arith)
be_lt-be_value (c ∷ a) [] x e ha hb = absurd (omega arith)
be_lt-be_value (c ∷ a) (d ∷ b) x e (hc, ha) (hd, hb) = ground (
  arith,
  be_lt-be_value a b (x * 256 + c) (omega arith) ha hb,
  be_value_mono a b (x * 256 + c) (x * 256 + d) (omega arith) ha hb,
  be_value_mono b a (x * 256 + d) (x * 256 + c) (omega arith) hb ha,
)

pub be_le-be_value :
    (a b : List ℕ) (x : ℕ)
    → length a ≡ length b
    → All IsByte a
    → All IsByte b
    → be_le a b ≡ leb (be_value x a) (be_value x b)
unfolding be_le be_value
be_le-be_value [] [] x e ha hb = ground arith
be_le-be_value [] (c ∷ b) x e ha hb = absurd (omega arith)
be_le-be_value (c ∷ a) [] x e ha hb = absurd (omega arith)
be_le-be_value (c ∷ a) (d ∷ b) x e (hc, ha) (hd, hb) = ground (
  arith,
  be_le-be_value a b (x * 256 + c) (omega arith) ha hb,
  be_value_mono a b (x * 256 + c) (x * 256 + d) (omega arith) ha hb,
  be_value_mono b a (x * 256 + d) (x * 256 + c) (omega arith) hb ha,
)

be_value_grows : (a : List ℕ) (x : ℕ) → x ≤ be_value x a
unfolding be_value
be_value_grows [] x = omega arith
be_value_grows (c ∷ a) x = omega (arith, be_value_grows a (x * 256 + c))

pub be_is_zero-be_value : (a : List ℕ) → be_is_zero a ≡ (be_value 0 a == 0)
unfolding be_is_zero be_value
be_is_zero-be_value [] = refl
be_is_zero-be_value (c ∷ a) = ground (arith, be_is_zero-be_value a, be_value_grows a c)

-- The range that Ethereum asks of the two halves of a signature.
pub record IsCanonical (r s : ℕ) : Type 0 where
  pub r_positive : 0 < r
  pub r_below : r < curve_order
  pub s_positive : 0 < s
  pub s_low : s + s < curve_order

pub all-IsByte : (l : List ℕ) → all (λ b. ltb b 256) l ≡ true → All IsByte l
all-IsByte [] h = tt
all-IsByte (b ∷ l) h = (ground arith, all-IsByte l (ground arith))

in_range_iff :
    (r s : List ℕ) (below low : Bool) (n half : ℕ)
    → half + half + 1 ≡ n
    → below ≡ ltb (be_value 0 r) n
    → low ≡ leb (be_value 0 s) half
    → ((not (be_is_zero r) && below && not (be_is_zero s) && low) ≡ true) ↔ (
        (0 < be_value 0 r)
        × (be_value 0 r < n)
        × (0 < be_value 0 s)
        × (be_value 0 s + be_value 0 s < n))
in_range_iff r s below low n half e b l = (
  λ h. ground (arith, be_is_zero-be_value r, be_is_zero-be_value s),
  λ h. ground (arith, be_is_zero-be_value r, be_is_zero-be_value s),
)

order-be_value : be_value 0 order_bytes ≡ curve_order
unfolding be_value
order-be_value = refl

half-be_value : be_value 0 half_order_bytes + be_value 0 half_order_bytes + 1 ≡ curve_order
unfolding be_value
half-be_value = refl

-- The test on bytes is the test on the numbers that they stand for.
pub rs_low_s_and_in_range_iff :
    (r s : List ℕ)
    → length r ≡ 32
    → length s ≡ 32
    → All IsByte r
    → All IsByte s
    → (rs_low_s_and_in_range r s ≡ true) ↔ IsCanonical (be_value 0 r) (be_value 0 s)
unfolding rs_low_s_and_in_range
rs_low_s_and_in_range_iff r s lr ls hr hs =
    let below : be_lt r order_bytes ≡ ltb (be_value 0 r) curve_order =
      be_lt-be_value r order_bytes 0 lr hr (all-IsByte order_bytes refl)
      ∙ ap (ltb (be_value 0 r)) order-be_value in
    let low = be_le-be_value s half_order_bytes 0 ls hs (all-IsByte half_order_bytes refl) in
    let test =
      in_range_iff r s _ _ curve_order (be_value 0 half_order_bytes) half-be_value below low in
    (
      λ h.
          let (a, b, c, d) = test.0 h in
          record { r_positive = a; r_below = b; s_positive = c; s_low = d },
      λ h. test.1 (h.r_positive, h.r_below, h.s_positive, h.s_low),
    )
