-- ===== src/Vibemarket/Market/Keys.antt =====
-- The keys of the pairs (VibeSwap::pairKey and sortTokens).
use machinepal.Prelude.{
  ℕ, ◌<◌, ◌≡◌, ◌≢◌, refl, Bool, true, false, Text, str, List, [], ◌∷◌, ◌++◌, some, any, arith, ◌==◌,
  text_eq, text_eq_iff, eq_of_text_eq, sym, ◌∙◌, ◌⊎◌, inl, inr, Bool-cases,
}
use machinepal.Result.{ok, >>=-eq-ok}
use machinepal.Platform.{u256_mod}
use machinepal.Crypto.Values.{EthAddress}
use machinepal.Vibemarket.Maps.Sums.{total}
use machinepal.Vibemarket.Maps.{find, put, find-put, text_key}
use machinepal.Vibemarket.Market.{Pair, Market, sort_tokens, pair_key, text_lt, get_pair_checked}

abbrev is_bar : ℕ → Bool
is_bar c = c == b'|'

abbrev pub HasNoBar : Text → Type 0
HasNoBar token = any is_bar token ≡ false

split_at_bar :
    (a b c d : Text)
    → HasNoBar a
    → HasNoBar c
    → a ++ (b'|' ∷ b) ≡ c ++ (b'|' ∷ d)
    → (a ≡ c) × (b ≡ d)
split_at_bar [] b [] d p q e = (refl, cc)
split_at_bar [] b (y ∷ c) d p q e = ground arith
split_at_bar (x ∷ a) b [] d p q e = ground arith
split_at_bar (x ∷ a) b (y ∷ c) d p q e = ground (arith, split_at_bar a b c d)

-- Two pairs of tokens whose first ones have no bar have two keys.
pub pair_key-injective :
    (a b c d : Text) → HasNoBar a → HasNoBar c → pair_key a b ≡ pair_key c d → (a ≡ c) × (b ≡ d)
unfolding pair_key str
pair_key-injective a b c d p q e = split_at_bar a b c d p q e

abbrev pub shares : List (EthAddress × ℕ) → ℕ
shares lp_balances = total (λ owner amount. amount) lp_balances

-- The pair stands under its key, and the shares in it are as many as its supply says.
pub record IsSound (k : Text) (pair : Pair) : Type 0 where
  pub key : k ≡ pair_key pair.token0 pair.token1
  pub no_bar : HasNoBar pair.token0
  pub distinct : pair.token0 ≢ pair.token1
  pub backed : shares pair.lp_balances ≡ pair.total_supply
  pub small : pair.total_supply < u256_mod

abbrev pub AreSound : List (Text × Pair) → Type 0
AreSound pairs = (k : Text) (pair : Pair) → find k pairs ≡ some pair → IsSound k pair

pub AreSound-put :
    (k : Text) (pair : Pair) (pairs : List (Text × Pair))
    → IsSound k pair
    → AreSound pairs
    → AreSound (put k pair pairs)
AreSound-put k pair pairs h all j other e = elim (Bool-cases (text_eq k j)) [
  | inl same ↦
      let here : pair ≡ other = ground (arith, find-put k j pair pairs) in
      rw (← here) (rw (← eq_of_text_eq k j same) h)
  | inr differ ↦ all j other (ground (arith, find-put k j pair pairs))
]

pub record IsSorted (token_a token_b token0 token1 : Text) : Type 0 where
  pub distinct : token0 ≢ token1
  pub which : ((token0 ≡ token_a) × (token1 ≡ token_b)) ⊎ ((token0 ≡ token_b) × (token1 ≡ token_a))

pub sort_tokens-IsSorted :
    (a b token0 token1 : Text) → sort_tokens a b ≡ ok (token0, token1) → IsSorted a b token0 token1
unfolding sort_tokens
sort_tokens-IsSorted a b token0 token1 h = ground (arith, text_eq_iff a b)

pub record IsFound (token_a token_b k : Text) (pair : Pair) (pairs : List (Text × Pair))
    : Type 0 where
  pub there : find k pairs ≡ some pair
  pub sorted : sort_tokens token_a token_b ≡ ok (pair.token0, pair.token1)
  pub placed : IsSound k pair
  pub tokens :
      (text_eq token_a pair.token0 ≡ true) × (pair.token0 ≡ token_a) × (pair.token1 ≡ token_b)
      ⊎ (text_eq token_a pair.token0 ≡ false) × (pair.token0 ≡ token_b) × (pair.token1 ≡ token_a)

get_pair_checked-eq :
    (a b k : Text) (pair : Pair) (s : Market)
    → get_pair_checked a b s ≡ ok (k, pair)
    → (token0 : Text) × (token1 : Text) × (sort_tokens a b ≡ ok (token0, token1))
      × (k ≡ pair_key token0 token1)
      × (find k s.pairs ≡ some pair)
unfolding get_pair_checked
get_pair_checked-eq a b k pair s h =
    let (tokens, sorted, rest) = >>=-eq-ok (sort_tokens a b) _ h in
    (tokens.0, tokens.1, sorted, ground arith, ground arith)

-- The pair under the key of two tokens is one of these two tokens.
pub IsFound-sort_tokens :
    (a b token0 token1 k : Text) (pair : Pair) (pairs : List (Text × Pair))
    → HasNoBar a
    → HasNoBar b
    → AreSound pairs
    → sort_tokens a b ≡ ok (token0, token1)
    → k ≡ pair_key token0 token1
    → find k pairs ≡ some pair
    → IsFound a b k pair pairs
IsFound-sort_tokens a b token0 token1 k pair pairs na nb sound sorted e there =
    let order = sort_tokens-IsSorted a b token0 token1 sorted in
    let placed = sound k pair there in
    let clean : HasNoBar token0 = elim (order.which) [
      | inl (p, q) ↦ rw p na
      | inr (p, q) ↦ rw p nb
    ] in
    let same =
      pair_key-injective pair.token0 pair.token1 token0 token1 placed.no_bar clean
        (sym placed.key ∙ e) in
    record {
      there = there;
      sorted = cc (sorted, same.0, same.1);
      placed = placed;
      tokens = ground (arith, text_eq_iff a pair.token0, same, order.which, placed.distinct);
    }

pub get_pair_checked-IsFound :
    (a b k : Text) (pair : Pair) (s : Market)
    → HasNoBar a
    → HasNoBar b
    → AreSound s.pairs
    → get_pair_checked a b s ≡ ok (k, pair)
    → IsFound a b k pair s.pairs
get_pair_checked-IsFound a b k pair s na nb sound h =
    let (token0, token1, sorted, e, there) = get_pair_checked-eq a b k pair s h in
    IsFound-sort_tokens a b token0 token1 k pair s.pairs na nb sound sorted e there

text_lt_total : (a b : Text) → text_eq a b ≡ false → text_lt a b ≡ false → text_lt b a ≡ true
unfolding text_lt text_eq
text_lt_total [] [] e l = cc
text_lt_total [] (y ∷ b) e l = cc
text_lt_total (x ∷ a) [] e l = refl
text_lt_total (x ∷ a) (y ∷ b) e l = ground (arith, text_lt_total a b)

pub sort_tokens_sorted :
    (a b token0 token1 : Text)
    → sort_tokens a b ≡ ok (token0, token1)
    → sort_tokens token0 token1 ≡ ok (token0, token1)
unfolding sort_tokens
sort_tokens_sorted a b token0 token1 h =
    ground (arith, text_lt_total a b, text_eq_iff a b, text_eq_iff b a)
