-- ===== src/Tests/Trading.antt =====
-- A VibeSwap with two tokens: a provider's liquidity, and a trader's swap.
use machinepal.Prelude.{
  ℕ, ◌+◌, ◌-◌, ◌*◌, ◌^◌, ◌<◌, ◌≤◌, none, ◌≡◌, refl, Text, str, List, [], ◌∷◌, some, text_eq,
  is_empty, arith,
}
use machinepal.Result.{ok}
use machinepal.Crypto.Values.{EthAddress}
use machinepal.Vibemarket.Maps.{find, put}
use machinepal.Vibemarket.Math.{get_amount_out, get_amount_in, integer_sqrt, double_high, bisect}
use machinepal.Vibemarket.Market.{
  Market, Pair, burn_address, mint_token, get_reserves, get_or_create_pair, get_pair_checked,
  sort_tokens, text_lt, pair_key, make_pair_address, balance_of, ensure_balance, debit, credit,
}
use machinepal.Vibemarket.Market.Supply.{of_token}
use machinepal.Vibemarket.Liquidity.{
  AddLiquidityResult, add_liquidity, remove_liquidity, add_to_pair, first_deposit, settle_deposit,
  deposited, share_of, withdrawn,
}
use machinepal.Vibemarket.Swaps.{
  swap_exact_tokens_for_tokens, swap_with_known_amounts, swap_along, swap_hops, swap_hop, moved,
  hop_between, get_amounts_out, amounts_out,
}
use machinepal.Vibemarket.Trading.{
  new_market, adds, swaps_exact_in, Reached, starts, mints, moves, HoldsMinted, Reached-HoldsMinted,
}
use machinepal.Vibemarket.Liquidity.Adding.{RoomFor}
use machinepal.Vibemarket.Swaps.Product.{swap_exact_tokens_for_tokens-product}
use machinepal.Vibemarket.Math.Product.{get_amount_out_product, get_amount_out-get_amount_in}
use machinepal.Vibemarket.Math.Roots.{integer_sqrt_root, integer_sqrt_diverges}

abbrev provider : EthAddress
provider = 1 ∷ []

abbrev trader : EthAddress
trader = 2 ∷ []

abbrev token_a : Text
token_a = str "A"

abbrev token_b : Text
token_b = str "B"

abbrev no_hash : Text → ℕ
no_hash key = 7

-- Both have tokens.
abbrev funded : Market
funded = record {
  pairs = [];
  balances =
      ((provider, token_a), 100000)
      ∷ ((provider, token_b), 100000)
      ∷ ((trader, token_a), 10000)
      ∷ [];
}

abbrev pool : ℕ → ℕ → List (Text × Pair)
pool reserve0 reserve1 =
    (
      str "A|B",
      record {
        token0 = token_a;
        token1 = token_b;
        contract_address =
            0 ∷ 0 ∷ 0 ∷ 0 ∷ 0 ∷ 0 ∷ 0 ∷ 7 ∷ 0 ∷ 0 ∷ 0 ∷ 0 ∷ 0 ∷ 0 ∷ 0 ∷ 7 ∷ 0 ∷ 0 ∷ 0 ∷ 0 ∷ [];
        reserve0 = reserve0;
        reserve1 = reserve1;
        total_supply = 50000;
        lp_balances = (burn_address, 1000) ∷ (provider, 49000) ∷ [];
      },
    )
    ∷ []

-- The provider has put half of its tokens into the pair.
abbrev pooled : Market
pooled = record {
  pairs = pool 50000 50000;
  balances =
      ((provider, token_a), 50000) ∷ ((provider, token_b), 50000) ∷ ((trader, token_a), 10000) ∷ [];
}

-- The trader has swapped 1000 of the one token.
abbrev traded : Market
traded = record {
  pairs = pool 51000 49023;
  balances =
      ((provider, token_a), 50000)
      ∷ ((provider, token_b), 50000)
      ∷ ((trader, token_a), 9000)
      ∷ ((trader, token_b), 977)
      ∷ [];
}

abbrev added_demo : AddLiquidityResult
added_demo = record { amount_a = 50000; amount_b = 50000; liquidity = 49000 }

runs :
    (add_liquidity no_hash provider token_a token_b 50000 50000 1 1 funded
      ≡ some (ok added_demo, pooled))
    × (swap_exact_tokens_for_tokens trader 1000 900 (token_a ∷ token_b ∷ []) trader pooled
        ≡ (ok (1000 ∷ 977 ∷ []), traded))
    × (remove_liquidity provider token_a token_b 49000 1 1 traded).0
      ≡ ok (record { amount_a = 49980; amount_b = 48042 })
unfolding add_liquidity add_to_pair get_or_create_pair sort_tokens text_lt text_eq str find put
    pair_key first_deposit integer_sqrt double_high bisect settle_deposit deposited ensure_balance
    debit credit balance_of make_pair_address swap_exact_tokens_for_tokens swap_with_known_amounts
    swap_along swap_hops swap_hop moved hop_between get_pair_checked get_amounts_out amounts_out
    get_amount_out remove_liquidity share_of withdrawn is_empty
runs = (refl, refl, refl)

-- What has been minted of each token.
abbrev minted_demo : ℕ → ℕ → Text → ℕ
minted_demo of_a of_b t = of_token t token_a of_a + of_token t token_b of_b

funded-Reached : Reached no_hash funded (minted_demo 110000 100000)
unfolding mint_token balance_of find put text_eq str is_empty
funded-Reached =
    let none_yet : Reached no_hash new_market (λ t. 0) = starts refl (λ t. refl) in
    let (r0, s0) = mint_token provider token_a 100000 new_market in
    let first : Reached no_hash s0 (minted_demo 100000 0) =
      mints none_yet provider token_a 100000 (omega arith) refl (λ t. ground arith) in
    let (r1, s1) = mint_token provider token_b 100000 s0 in
    let second : Reached no_hash s1 (minted_demo 100000 100000) =
      mints first provider token_b 100000 (omega arith) refl (λ t. ground arith) in
    mints second trader token_a 10000 (omega arith) refl (λ t. ground arith)

pooled-Reached : Reached no_hash pooled (minted_demo 110000 100000)
unfolding str find
pooled-Reached =
    let room : RoomFor 49000 funded = (λ k pair e. cc, omega arith) in
    moves funded-Reached
      (adds provider token_a token_b 50000 50000 1 1 added_demo refl refl room runs.0)

traded-Reached : Reached no_hash traded (minted_demo 110000 100000)
unfolding str
traded-Reached = moves pooled-Reached (
    swaps_exact_in trader trader 1000 900 (token_a ∷ token_b ∷ []) (1000 ∷ 977 ∷ [])
      (refl, (refl, tt)) runs.1)

Reached-HoldsMinted_example : HoldsMinted traded (minted_demo 110000 100000)
Reached-HoldsMinted_example = Reached-HoldsMinted no_hash traded-Reached

swap_exact_tokens_for_tokens-product_example :
    (x : ℕ) × (y : ℕ) × (get_reserves token_a token_b traded ≡ ok (x, y)) × (50000 * 50000 ≤ x * y)
unfolding get_reserves get_pair_checked sort_tokens text_lt text_eq str find pair_key is_empty
swap_exact_tokens_for_tokens-product_example =
    swap_exact_tokens_for_tokens-product trader trader token_a token_b 1000 900 50000 50000 pooled
      traded (1000 ∷ 977 ∷ []) (Reached-HoldsMinted no_hash pooled-Reached).0 refl refl refl
      (omega arith, omega arith) (omega arith, omega arith) runs.1

get_amount_out_product_example :
    (977 < 50000) × (1000 * (50000 * 50000) ≤ (1000 * 50000 + 997 * 1000) * (50000 - 977))
unfolding get_amount_out
get_amount_out_product_example =
    get_amount_out_product 1000 50000 50000 977 (omega arith, omega arith) refl

get_amount_out-get_amount_in_example : 977 ≤ 977
unfolding get_amount_out get_amount_in
get_amount_out-get_amount_in_example =
    get_amount_out-get_amount_in 977 50000 50000 1000 977 (omega arith, omega arith)
      (omega arith, omega arith) refl refl

integer_sqrt_root_example :
    (r : ℕ) × (integer_sqrt 256 24 ≡ some r) × (r * r ≤ 24) × (24 < (r + 1) * (r + 1))
integer_sqrt_root_example = integer_sqrt_root 24 (omega arith)

integer_sqrt_diverges_example : integer_sqrt 1000 (2 ^ 255) ≡ none
integer_sqrt_diverges_example = integer_sqrt_diverges 1000 (2 ^ 255) (omega arith)
