-- ===== src/Vibemarket/Liquidity/Shares.antt =====
-- The shares in a pair, and its reserves, when liquidity comes and goes (VibeSwap::addLiquidity and
-- removeLiquidity).
use machinepal.Prelude.{
  ℕ, ◌+◌, ◌-◌, ◌*◌, ◌/◌, ◌≤◌, ◌<◌, ◌≡◌, true, false, Bool, Text, List, arith, Bool-cases, inl, inr,
  ◌==◌,
}
use machinepal.Result.{ok}
use machinepal.Platform.{u256_mod}
use machinepal.Crypto.Values.{EthAddress}
use machinepal.Vibemarket.Words.{add_u256, mul_u256}
use machinepal.Vibemarket.Math.{minimum_liquidity}
use machinepal.Vibemarket.Math.Product.{div_bounds}
use machinepal.Vibemarket.Maps.{find, put, text_key}
use machinepal.Vibemarket.Maps.Sums.{total-put, weight_of-le-total}
use machinepal.Vibemarket.Market.{Pair, or_zero, burn_address}
use machinepal.Vibemarket.Market.Keys.{shares, IsSound}
use machinepal.Vibemarket.Market.Supply.{reserved, of_token}
use machinepal.Vibemarket.Liquidity.{Deposit, deposited, withdrawn, share_of}

or_zero-shares :
    (owner : EthAddress) (lp : List (EthAddress × ℕ)) → or_zero (find owner lp) ≤ shares lp
or_zero-shares owner lp =
    ground (arith, weight_of-le-total (λ (o : EthAddress) (n : ℕ). n) owner lp)

shares-put :
    (owner : EthAddress) (n : ℕ) (lp : List (EthAddress × ℕ))
    → shares (put owner n lp) + or_zero (find owner lp) ≡ shares lp + n
shares-put owner n lp = ground (arith, total-put (λ (o : EthAddress) (n : ℕ). n) owner n lp)

more : EthAddress → ℕ → List (EthAddress × ℕ) → List (EthAddress × ℕ)
more owner n lp = put owner (add_u256 (or_zero (find owner lp)) n) lp

shares-more :
    (owner : EthAddress) (n : ℕ) (lp : List (EthAddress × ℕ))
    → shares lp + n < u256_mod
    → shares (more owner n lp) ≡ shares lp + n
unfolding more
shares-more owner n lp fits =
    ground (arith, or_zero-shares owner lp, shares-put owner (or_zero (find owner lp) + n) lp)

-- A deposit adds its shares to the supply of them, 1000 more the first time.
pub deposited-IsSound :
    (k : Text) (provider : EthAddress) (d : Deposit) (pair : Pair)
    → IsSound k pair
    → pair.total_supply + d.liquidity + minimum_liquidity < u256_mod
    → IsSound k (deposited provider (pair.total_supply == 0) d pair)
unfolding deposited more
deposited-IsSound k provider d pair sound fits = elim (Bool-cases (pair.total_supply == 0)) [
  | inl first ↦ rw first (record {
    key = sound.key;
    no_bar = sound.no_bar;
    distinct = sound.distinct;
    backed =
        let burnt = shares-more burn_address minimum_liquidity pair.lp_balances (ground arith) in
        let given =
          shares-more provider d.liquidity (more burn_address minimum_liquidity pair.lp_balances)
            (ground arith) in
        ground arith;
    small = ground arith;
  })
  | inr later ↦ rw later (record {
    key = sound.key;
    no_bar = sound.no_bar;
    distinct = sound.distinct;
    backed = ground (arith, shares-more provider d.liquidity pair.lp_balances);
    small = ground arith;
  })
]

-- The reserves with a deposit.
pub reserved-deposited :
    (t k : Text) (provider : EthAddress) (first : Bool) (d : Deposit) (pair : Pair)
    → pair.reserve0 + d.amount0 < u256_mod
    → pair.reserve1 + d.amount1 < u256_mod
    → reserved t k (deposited provider first d pair)
      ≡ reserved t k pair + of_token t pair.token0 d.amount0 + of_token t pair.token1 d.amount1
unfolding deposited
reserved-deposited t k provider true d pair f0 f1 = ground arith
reserved-deposited t k provider false d pair f0 f1 = ground arith

div-le : (q n t r : ℕ) → 0 < t → q * t ≤ n → n ≤ t * r → q ≤ r
div-le q n t r p a b = grind arith

-- A share is worth at most the reserves.
share_bound : (l r t : ℕ) → 0 < t → l ≤ t → mul_u256 l r / t ≤ r
share_bound l r t p h =
    let small : l * r ≤ t * r = grind arith in
    div-le (mul_u256 l r / t) (mul_u256 l r) t r p (div_bounds (mul_u256 l r) t p).0 (omega arith)

pub share_of-bounds :
    (pair : Pair) (provider : EthAddress) (liquidity : ℕ) (d : Deposit)
    → shares pair.lp_balances ≡ pair.total_supply
    → share_of pair provider liquidity ≡ ok d
    → (d.liquidity ≡ liquidity)
      × (liquidity ≤ or_zero (find provider pair.lp_balances))
      × (liquidity ≤ pair.total_supply)
      × (d.amount0 ≤ pair.reserve0)
      × (d.amount1 ≤ pair.reserve1)
unfolding share_of
share_of-bounds pair provider liquidity d backed e = ground (
  arith,
  or_zero-shares provider pair.lp_balances,
  share_bound liquidity pair.reserve0 pair.total_supply,
  share_bound liquidity pair.reserve1 pair.total_supply,
)

pub withdrawn-IsSound :
    (k : Text) (provider : EthAddress) (d : Deposit) (pair : Pair)
    → IsSound k pair
    → d.liquidity ≤ or_zero (find provider pair.lp_balances)
    → IsSound k (withdrawn provider d pair)
unfolding withdrawn
withdrawn-IsSound k provider d pair sound le = record {
  key = sound.key;
  no_bar = sound.no_bar;
  distinct = sound.distinct;
  backed = ground (
    arith,
    sound.backed,
    or_zero-shares provider pair.lp_balances,
    shares-put provider (or_zero (find provider pair.lp_balances) - d.liquidity) pair.lp_balances,
  );
  small = omega arith;
}

pub reserved-withdrawn :
    (t k : Text) (provider : EthAddress) (d : Deposit) (pair : Pair)
    → pair.reserve0 < u256_mod
    → pair.reserve1 < u256_mod
    → d.amount0 ≤ pair.reserve0
    → d.amount1 ≤ pair.reserve1
    → reserved t k (withdrawn provider d pair)
        + of_token t pair.token0 d.amount0
        + of_token t pair.token1 d.amount1
      ≡ reserved t k pair
unfolding withdrawn
reserved-withdrawn t k provider d pair f0 f1 l0 l1 = ground arith
