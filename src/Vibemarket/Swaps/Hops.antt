-- ===== src/Vibemarket/Swaps/Hops.antt =====
-- One hop of a swap: what it does to a pair (VibeSwap::swapWithKnownAmounts).
use machinepal.Prelude.{ℕ, ◌+◌, ◌<◌, ◌≡◌, Text, arith, text_eq, text_eq_iff, Bool-cases, inl, inr}
use machinepal.Result.{ok, >>=-eq-ok}
use machinepal.Exec.{continue-eq-ok}
use machinepal.Platform.{u256_mod}
use machinepal.Vibemarket.Words.{add_u256, sub_u256}
use machinepal.Vibemarket.Maps.{put, text_key}
use machinepal.Vibemarket.Market.{Market, get_pair_checked, sort_tokens}
use machinepal.Vibemarket.Market.Keys.{
  HasNoBar, AreSound, AreSound-put, IsSound, IsFound, get_pair_checked-IsFound,
}
use machinepal.Vibemarket.Market.Supply.{
  supply, reserved, of_token, in_pairs-put, reserved-le-total,
}
use machinepal.Vibemarket.Swaps.{Hop, reserve_in, reserve_out, hop_between, moved, swap_hop}

pub record IsHop (a b : Text) (h : Hop) (s : Market) : Type 0 where
  pub found : IsFound a b h.key h.pair s.pairs
  pub input : h.input_is_token0 ≡ text_eq a h.pair.token0

pub hop_between-IsHop :
    (a b : Text) (h : Hop) (s : Market)
    → HasNoBar a
    → HasNoBar b
    → AreSound s.pairs
    → hop_between a b s ≡ ok h
    → IsHop a b h s
unfolding hop_between
hop_between-IsHop a b h s na nb keyed e =
    let (found, checked, rest) = >>=-eq-ok (get_pair_checked a b s) _ e in
    let (tokens, sorted, last) = >>=-eq-ok (sort_tokens a b) _ rest in
    let same : found ≡ (h.key, h.pair) = cc in
    let place = get_pair_checked-IsFound a b h.key h.pair s na nb keyed (ground arith) in
    record { found = place; input = ground (arith, place.sorted) }

module _ (t a b : Text) (h : Hop) (s : Market) (hop : IsHop a b h s) where
  pub reserved-hop :
      reserved t h.key h.pair ≡ of_token t a (reserve_in h) + of_token t b (reserve_out h)
  reserved-hop = ground (arith, hop.found.tokens, hop.input)

  pub reserved-moved :
      (i o : ℕ)
      → reserved t h.key (moved h i o)
        ≡ of_token t a (add_u256 (reserve_in h) i) + of_token t b (sub_u256 (reserve_out h) o)
  unfolding moved
  reserved-moved i o = ground (arith, hop.found.tokens, hop.input)

pub moved-tokens :
    (h : Hop) (i o : ℕ)
    → ((moved h i o).token0 ≡ h.pair.token0) × ((moved h i o).token1 ≡ h.pair.token1)
unfolding moved
moved-tokens h i o = ground arith

-- A write of the pair that was found.
supply-moved :
    (t a b : Text) (i o : ℕ) (h : Hop) (s : Market)
    → IsHop a b h s
    → supply a s + i < u256_mod
    → supply b s < u256_mod
    → o < reserve_out h
    → supply t (record s { pairs = put h.key (moved h i o) s.pairs }) + of_token t b o
      ≡ supply t s + of_token t a i
supply-moved t a b i o h s hop fa fb l = ground (
  arith,
  in_pairs-put t h.key h.pair (moved h i o) s.pairs hop.found.there,
  reserved-hop t a b h s hop,
  reserved-moved t a b h s hop i o,
  reserved-hop a a b h s hop,
  reserved-hop b a b h s hop,
  reserved-le-total a h.key h.pair s.pairs hop.found.there,
  reserved-le-total b h.key h.pair s.pairs hop.found.there,
  text_eq_iff a a,
  text_eq_iff b b,
)

moved-IsSound : (k : Text) (h : Hop) (i o : ℕ) → IsSound k h.pair → IsSound k (moved h i o)
unfolding moved
moved-IsSound k h i o p = elim (Bool-cases h.input_is_token0) [
  | inl e ↦ rw e (record {
    key = p.key;
    no_bar = p.no_bar;
    distinct = p.distinct;
    backed = p.backed;
    small = p.small;
  })
  | inr e ↦ rw e (record {
    key = p.key;
    no_bar = p.no_bar;
    distinct = p.distinct;
    backed = p.backed;
    small = p.small;
  })
]

pub swap_hop-eq :
    (a b : Text) (i o : ℕ) (s s' : Market)
    → swap_hop a b i o s ≡ (ok tt, s')
    → (h : Hop) × (hop_between a b s ≡ ok h)
      × (o < reserve_out h)
      × (s' ≡ record s { pairs = put h.key (moved h i o) s.pairs })
unfolding swap_hop
swap_hop-eq a b i o s s' e =
    let (h, s0, first, rest) = continue-eq-ok (hop_between a b s, s) _ e in
    (h, ground arith, ground arith, ground arith)

-- What a hop takes in and gives out, token by token.
pub supply-swap_hop :
    (a b : Text) (i o : ℕ) (s s' : Market)
    → HasNoBar a
    → HasNoBar b
    → AreSound s.pairs
    → supply a s + i < u256_mod
    → supply b s < u256_mod
    → swap_hop a b i o s ≡ (ok tt, s')
    → AreSound s'.pairs × ((t : Text) → supply t s' + of_token t b o ≡ supply t s + of_token t a i)
supply-swap_hop a b i o s s' na nb keyed fa fb e =
    let (h, between, l, after) = swap_hop-eq a b i o s s' e in
    let hop = hop_between-IsHop a b h s na nb keyed between in
    rw after (
      AreSound-put h.key (moved h i o) s.pairs (moved-IsSound h.key h i o hop.found.placed) keyed,
      λ t. supply-moved t a b i o h s hop fa fb l,
    )
