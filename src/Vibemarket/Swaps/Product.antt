-- ===== src/Vibemarket/Swaps/Product.antt =====
-- The product of a pair's reserves across a swap between its two tokens
-- (VibeSwap::swapExactTokensForTokens).
use machinepal.Prelude.{
  ℕ, ◌+◌, ◌-◌, ◌*◌, ◌≤◌, ◌<◌, ◌≡◌, refl, sym, ap, ◌∙◌, Text, List, [], ◌∷◌, some, arith,
  text_eq_refl, Bool-cases, inl, inr,
}
use machinepal.Result.{ok, >>=-eq-ok, ok-injective}
use machinepal.Vibemarket.Words.{add_u256, sub_u256}
use machinepal.Exec.{continue-eq-ok, read-eq-ok}
use machinepal.Crypto.Values.{EthAddress}
use machinepal.Vibemarket.Math.{get_amount_out}
use machinepal.Vibemarket.Math.Product.{FitsOut, get_amount_out-eq, get_amount_out_product}
use machinepal.Vibemarket.Maps.{find, put, find-put, text_key}
use machinepal.Vibemarket.Market.{
  Pair, Market, sort_tokens, pair_key, get_pair_checked, get_reserves, ensure_balance, debit,
  credit,
}
use machinepal.Vibemarket.Market.Keys.{HasNoBar, AreSound}
use machinepal.Vibemarket.Market.Supply.{ensure_balance-eq, debit-pairs, credit-pairs}
use machinepal.Vibemarket.Swaps.{
  Hop, reserve_in, reserve_out, hop_between, moved, with_reserves, swap_hop, swap_hops, swap_along,
  get_amounts_out, amounts_out, swap_with_known_amounts, swap_exact_tokens_for_tokens,
}
use machinepal.Vibemarket.Swaps.Hops.{IsHop, hop_between-IsHop, swap_hop-eq, moved-tokens}

-- Only the pairs are read.
get_pair_checked-pairs :
    (a b : Text) (s s1 : Market)
    → s1.pairs ≡ s.pairs
    → get_pair_checked a b s1 ≡ get_pair_checked a b s
unfolding get_pair_checked
get_pair_checked-pairs a b s s1 e =
    ap (λ ps. get_pair_checked a b (record { pairs = ps; balances = [] })) e

hop_between-pairs :
    (a b : Text) (s s1 : Market) → s1.pairs ≡ s.pairs → hop_between a b s1 ≡ hop_between a b s
unfolding hop_between
hop_between-pairs a b s s1 e = rw (get_pair_checked-pairs a b s s1 e)

get_pair_checked-found :
    (a b k : Text) (pair : Pair) (s : Market)
    → sort_tokens a b ≡ ok (pair.token0, pair.token1)
    → k ≡ pair_key pair.token0 pair.token1
    → find k s.pairs ≡ some pair
    → get_pair_checked a b s ≡ ok (k, pair)
unfolding get_pair_checked
get_pair_checked-found a b k pair s sorted e there = ground arith

-- The one hop of the path, and the amount that it gives.
one_amount :
    (a b : Text) (amount_in : ℕ) (amounts : List ℕ) (s : Market)
    → get_amounts_out amount_in (a ∷ b ∷ []) s ≡ ok amounts
    → (h : Hop) × (out : ℕ) × (hop_between a b s ≡ ok h)
      × (get_amount_out amount_in (reserve_in h) (reserve_out h) ≡ ok out)
      × (amounts ≡ amount_in ∷ out ∷ [])
unfolding get_amounts_out amounts_out
one_amount a b amount_in amounts s e =
    let (h, between, r0) = >>=-eq-ok (hop_between a b s) _ e in
    let (out, priced, r1) =
      >>=-eq-ok (get_amount_out amount_in (reserve_in h) (reserve_out h)) _ r0 in
    (h, out, between, priced, cc)

-- The pairs after the swap.
pairs_after :
    (trader to : EthAddress) (a b : Text) (i o : ℕ) (s s' : Market) (r : List ℕ)
    → swap_along trader i (o ∷ []) a (b ∷ []) to s ≡ (ok r, s')
    → (h : Hop) × (hop_between a b s ≡ ok h)
      × (o < reserve_out h)
      × (s'.pairs ≡ put h.key (moved h i o) s.pairs)
unfolding swap_along swap_hops
pairs_after trader to a b i o s s' r e =
    let (u0, s0, e0, r0) = continue-eq-ok (ensure_balance trader a i s) _ e in
    let (u1, s1, e1, r1) = continue-eq-ok (debit trader a i s0) _ r0 in
    let (u2, s2, e2, r2) = continue-eq-ok (swap_hops i (o ∷ []) a (b ∷ []) s1) _ r1 in
    let (u3, s3, e3, r3) = continue-eq-ok (credit to b o s2) _ r2 in
    let (u4, s4, e4, r4) = continue-eq-ok (swap_hop a b i o s1) _ e2 in
    let (h, between, less, after) = swap_hop-eq a b i o s1 s4 e4 in
    let before : s1.pairs ≡ s.pairs =
      debit-pairs trader a i s0 s1 e1
      ∙ ap (λ (m : Market). m.pairs) (ensure_balance-eq trader a i s s0 e0) in
    let last : s3 ≡ s' = cc in
    let hopped : s4 ≡ s2 = cc in
    let written : s4.pairs ≡ put h.key (moved h i o) s1.pairs =
      ap (λ (m : Market). m.pairs) after in
    let pairs : s'.pairs ≡ s4.pairs =
      ap (λ (m : Market). m.pairs) (sym last)
      ∙ (credit-pairs to b o s2 s3 e3 ∙ ap (λ (m : Market). m.pairs) (sym hopped)) in
    (
      h,
      sym (hop_between-pairs a b s s1 before) ∙ between,
      less,
      pairs ∙ (written ∙ ap (put h.key (moved h i o)) before),
    )

-- The pair of the hop, once it is written.
found_after :
    (a b : Text) (h : Hop) (i o : ℕ) (s s' : Market)
    → IsHop a b h s
    → s'.pairs ≡ put h.key (moved h i o) s.pairs
    → get_reserves a b s' ≡ ok ((moved h i o).reserve0, (moved h i o).reserve1)
unfolding get_reserves
found_after a b h i o s s' hop pairs =
    let there : find h.key s'.pairs ≡ some (moved h i o) =
      ground (arith, find-put h.key h.key (moved h i o) s.pairs, text_eq_refl h.key) in
    let same = moved-tokens h i o in
    let again =
      get_pair_checked-found a b h.key (moved h i o) s' (ground (arith, hop.found.sorted))
        (ground (arith, hop.found.placed.key)) there in
    rw again

hop-reserves :
    (a b : Text) (h : Hop) (s : Market)
    → IsHop a b h s
    → get_reserves a b s ≡ ok (h.pair.reserve0, h.pair.reserve1)
unfolding get_reserves
hop-reserves a b h s hop = rw (
    get_pair_checked-found a b h.key h.pair s hop.found.sorted hop.found.placed.key hop.found.there)

less_fee : (r i k p : ℕ) → 1000 * (r * k) ≤ (1000 * r + 997 * i) * p → r * k ≤ (r + i) * p
less_fee r i k p h = grind arith

ordered :
    (h : Hop) (into out : ℕ) (k : ℕ)
    → k ≤ into * out
    → k ≤ (with_reserves h into out).reserve0 * (with_reserves h into out).reserve1
ordered h into out k e = elim (Bool-cases h.input_is_token0) [
  | inl t ↦ rw t e
  | inr f ↦ rw f (grind arith)
]

reserves_commute : (h : Hop) → h.pair.reserve0 * h.pair.reserve1 ≡ reserve_in h * reserve_out h
reserves_commute h = elim (Bool-cases h.input_is_token0) [
  | inl t ↦ rw t refl
  | inr f ↦ rw f (grind arith)
]

FitsOut-hop :
    (h : Hop) (i x y : ℕ)
    → h.pair.reserve0 ≡ x
    → h.pair.reserve1 ≡ y
    → FitsOut i x y
    → FitsOut i y x
    → FitsOut i (reserve_in h) (reserve_out h)
FitsOut-hop h i x y ex ey fxy fyx = elim (Bool-cases h.input_is_token0) [
  | inl t ↦ rw (t, ex, ey) fxy
  | inr f ↦ rw (f, ex, ey) fyx
]

le-times : (i k : ℕ) → 0 < i → k ≤ i * 997 * k
le-times i k h = grind arith

moved-product :
    (h : Hop) (i o : ℕ)
    → FitsOut i (reserve_in h) (reserve_out h)
    → get_amount_out i (reserve_in h) (reserve_out h) ≡ ok o
    → h.pair.reserve0 * h.pair.reserve1 ≤ (moved h i o).reserve0 * (moved h i o).reserve1
unfolding moved
moved-product h i o fits e =
    let (less, kept) = get_amount_out_product i (reserve_in h) (reserve_out h) o fits e in
    let grown = less_fee (reserve_in h) i (reserve_out h) (reserve_out h - o) kept in
    let positive = (get_amount_out-eq i (reserve_in h) (reserve_out h) o fits e).0 in
    let small = le-times i (reserve_out h) positive in
    let into : add_u256 (reserve_in h) i ≡ reserve_in h + i = omega arith in
    let out : sub_u256 (reserve_out h) o ≡ reserve_out h - o = omega arith in
    let step : reserve_in h * reserve_out h
        ≤ add_u256 (reserve_in h) i * sub_u256 (reserve_out h) o =
      rw (into, out) grown in
    rw (reserves_commute h) (
      ordered h (add_u256 (reserve_in h) i) (sub_u256 (reserve_out h) o)
        (reserve_in h * reserve_out h) step)

-- A swap between two tokens, of an input that wraps nothing, does not make the product of their
-- reserves smaller.
pub swap_exact_tokens_for_tokens-product :
    (trader to : EthAddress) (a b : Text) (amount_in amount_out_min x y : ℕ) (s s' : Market)
    (r : List ℕ)
    → AreSound s.pairs
    → HasNoBar a
    → HasNoBar b
    → get_reserves a b s ≡ ok (x, y)
    → FitsOut amount_in x y
    → FitsOut amount_in y x
    → swap_exact_tokens_for_tokens trader amount_in amount_out_min (a ∷ b ∷ []) to s ≡ (ok r, s')
    → (x' : ℕ) × (y' : ℕ) × (get_reserves a b s' ≡ ok (x', y')) × (x * y ≤ x' * y')
unfolding swap_exact_tokens_for_tokens swap_with_known_amounts
swap_exact_tokens_for_tokens-product trader to a b i least x y s s' r sound na nb e fxy fyx done =
    let (amounts, quoted, r0) = read-eq-ok (get_amounts_out i (a ∷ b ∷ []) s) s _ done in
    let (h, o, between, priced, two) = one_amount a b i amounts s quoted in
    let ran : swap_along trader i (o ∷ []) a (b ∷ []) to s ≡ (ok r, s') = ground arith in
    let (h', between', less, pairs) = pairs_after trader to a b i o s s' r ran in
    let same : h ≡ h' = ok-injective (sym between ∙ between') in
    let hop = hop_between-IsHop a b h s na nb sound between in
    let reserves = ok-injective (sym (hop-reserves a b h s hop) ∙ e) in
    let ex : h.pair.reserve0 ≡ x = ap (λ (p : ℕ × ℕ). p.0) reserves in
    let ey : h.pair.reserve1 ≡ y = ap (λ (p : ℕ × ℕ). p.1) reserves in
    (
      (moved h i o).reserve0,
      (moved h i o).reserve1,
      found_after a b h i o s s' hop
          (pairs ∙ ap (λ (g : Hop). put g.key (moved g i o) s.pairs) (sym same)),
      rw (← ex, ← ey) (moved-product h i o (FitsOut-hop h i x y ex ey fxy fyx) priced),
    )
