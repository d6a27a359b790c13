-- ===== src/Vibemarket/Liquidity.antt =====
-- src/vibemarket/VibeSwap.cpp: addLiquidity and removeLiquidity.
pub mod Shares
pub mod Adding
pub mod Removing
use machinepal.Prelude.{
  ℕ, ◌*◌, ◌/◌, Bool, ◌||◌, Text, str, Option, none, some, ltb, leb, ◌==◌, if◌then◌else◌, text_eq,
}
use machinepal.Result
use machinepal.Result.{Result, ok, err, invalid_argument, runtime_error}
use machinepal.Exec.{Exec, pure, throw, modify, lift, ◌>>=◌, ◌>>◌}
use machinepal.Crypto.Values.{EthAddress}
use machinepal.Vibemarket.Words.{add_u256, sub_u256, mul_u256, div_u256}
use machinepal.Vibemarket.Math.{integer_sqrt, quote, minimum_liquidity}
use machinepal.Vibemarket.Maps.{find, put, text_key}
use machinepal.Vibemarket.Market.{
  Pair, Market, burn_address, or_zero, sort_tokens, get_or_create_pair, get_pair_checked,
  ensure_balance, debit, credit, write_pair,
}

-- What is put into a pair, or what is taken out of it, in the order of its tokens.
pub record Deposit : Type 0 where
  pub amount0 : ℕ
  pub amount1 : ℕ
  pub liquidity : ℕ

-- What a provider offers, in the order of the pair's tokens.
pub record Offer : Type 0 where
  pub desired0 : ℕ
  pub desired1 : ℕ
  pub min0 : ℕ
  pub min1 : ℕ

pub record AddLiquidityResult : Type 0 where
  pub amount_a : ℕ
  pub amount_b : ℕ
  pub liquidity : ℕ

pub record RemoveLiquidityResult : Type 0 where
  pub amount_a : ℕ
  pub amount_b : ℕ

abbrev pub swapped {ℓ} : {A : Type ℓ} → Bool → A → A → A × A
swapped same a b = if same then (a, b) else (b, a)

abbrev enough_root : ℕ → Offer → Result Deposit
enough_root root o =
    if leb root minimum_liquidity
    then err (runtime_error (str "Insufficient liquidity minted"))
    else ok (record {
      amount0 = o.desired0;
      amount1 = o.desired1;
      liquidity = sub_u256 root minimum_liquidity;
    })

-- `none` where integerSqrt does not end.
unfoldable pub first_deposit : Offer → Option (Result Deposit)
first_deposit o =
    if ltb o.desired0 o.min0 || ltb o.desired1 o.min1
    then some (err (runtime_error (str "Insufficient amounts for initial liquidity")))
    else elim (integer_sqrt 256 (mul_u256 o.desired0 o.desired1)) [
      | none ↦ none
      | some root ↦ some (enough_root root o)
    ]

-- The amounts that keep the ratio of the reserves.
unfoldable pub matched_amounts : Pair → Offer → Result (ℕ × ℕ)
matched_amounts pair o =
    Result.◌>>=◌ (quote o.desired0 pair.reserve0 pair.reserve1) (λ amount1_optimal.
      if leb amount1_optimal o.desired1
      then (if ltb amount1_optimal o.min1
          then err (runtime_error (str "Insufficient amount1 provided"))
          else ok (o.desired0, amount1_optimal))
      else Result.◌>>=◌ (quote o.desired1 pair.reserve1 pair.reserve0) (λ amount0_optimal.
        if ltb amount0_optimal o.min0
        then err (runtime_error (str "Insufficient amount0 provided"))
        else ok (amount0_optimal, o.desired1)))

unfoldable pub minted : Pair → ℕ × ℕ → Result Deposit
minted pair (amount0, amount1) =
    Result.◌>>=◌ (div_u256 (mul_u256 amount0 pair.total_supply) pair.reserve0) (λ liquidity0.
      Result.◌>>=◌ (div_u256 (mul_u256 amount1 pair.total_supply) pair.reserve1) (λ liquidity1.
        let liquidity = if ltb liquidity1 liquidity0 then liquidity1 else liquidity0 in
        if liquidity == 0
        then err (runtime_error (str "Insufficient liquidity minted"))
        else ok (record { amount0 = amount0; amount1 = amount1; liquidity = liquidity })))

unfoldable pub later_deposit : Pair → Offer → Result Deposit
later_deposit pair o = Result.◌>>=◌ (matched_amounts pair o) (minted pair)

abbrev pub deposit_for : Bool → Pair → Offer → Option (Result Deposit)
deposit_for is_first_mint pair o =
    if is_first_mint then first_deposit o else some (later_deposit pair o)

-- lpBalances[owner] = lpBalances[owner] + liquidity
abbrev pub with_shares : EthAddress → ℕ → Pair → Pair
with_shares owner liquidity pair = record pair {
  lp_balances =
      put owner (add_u256 (or_zero (find owner pair.lp_balances)) liquidity) pair.lp_balances;
}

abbrev with_supply : Bool → ℕ → Pair → Pair
with_supply is_first_mint liquidity pair =
    if is_first_mint
    then with_shares burn_address minimum_liquidity
        (record pair { total_supply = add_u256 liquidity minimum_liquidity })
    else record pair { total_supply = add_u256 pair.total_supply liquidity }

-- The pair once the deposit is in it.
unfoldable pub deposited : EthAddress → Bool → Deposit → Pair → Pair
deposited provider is_first_mint d pair =
    let supplied = with_supply is_first_mint d.liquidity pair in
    with_shares provider d.liquidity (record supplied {
      reserve0 = add_u256 supplied.reserve0 d.amount0;
      reserve1 = add_u256 supplied.reserve1 d.amount1;
    })

unfoldable pub settle_deposit :
    EthAddress → Text → Text → Text → Pair → Bool → Deposit → Exec Market (Unit {0})
settle_deposit provider token0 token1 k pair is_first_mint d = do
  ensure_balance provider token0 d.amount0
  ensure_balance provider token1 d.amount1
  debit provider token0 d.amount0
  debit provider token1 d.amount1
  write_pair k (deposited provider is_first_mint d pair)

abbrev added : Bool → Deposit → AddLiquidityResult
added a_is_0 d =
    let amounts = swapped a_is_0 d.amount0 d.amount1 in
    record { amount_a = amounts.0; amount_b = amounts.1; liquidity = d.liquidity }

abbrev pub report_deposit :
    EthAddress → Text → Text → Text → Pair → Bool → Bool → Deposit → Exec Market AddLiquidityResult
report_deposit provider token0 token1 k pair is_first_mint a_is_0 d = do
  settle_deposit provider token0 token1 k pair is_first_mint d
  pure (added a_is_0 d)

-- Once the pair is there. `none` where the call does not return.
unfoldable pub add_to_pair :
    EthAddress
    → Text × Text
    → Text × Pair
    → Bool
    → Offer
    → Market
    → Option (Result AddLiquidityResult × Market)
add_to_pair provider (token0, token1) (k, pair) a_is_0 o s =
    let is_first_mint = pair.total_supply == 0 in
    elim (deposit_for is_first_mint pair o) [
      | none ↦ none
      | some (err e) ↦ some (err e, s)
      | some (ok d) ↦ some (report_deposit provider token0 token1 k pair is_first_mint a_is_0 d s)
    ]

abbrev pub offer : Bool → ℕ → ℕ → ℕ → ℕ → Offer
offer a_is_0 a_desired b_desired a_min b_min =
    let desired = swapped a_is_0 a_desired b_desired in
    let least = swapped a_is_0 a_min b_min in
    record { desired0 = desired.0; desired1 = desired.1; min0 = least.0; min1 = least.1 }

unfoldable pub add_liquidity :
    (Text → ℕ)
    → EthAddress
    → Text
    → Text
    → ℕ
    → ℕ
    → ℕ
    → ℕ
    → Market
    → Option (Result AddLiquidityResult × Market)
add_liquidity hasher provider token_a token_b a_desired b_desired a_min b_min s =
    if a_desired == 0 || b_desired == 0
    then some (err (invalid_argument (str "Desired amounts must be positive")), s)
    else elim (sort_tokens token_a token_b) [
      | err e ↦ some (err e, s)
      | ok (token0, token1) ↦
          let a_is_0 = text_eq token_a token0 in
          let (found, s') = get_or_create_pair hasher token0 token1 s in
          elim found [
            | err e ↦ some (err e, s')
            | ok pair ↦
                add_to_pair provider (token0, token1) pair a_is_0
                  (offer a_is_0 a_desired b_desired a_min b_min) s'
          ]
    ]

-- The amounts that a share of the supply is worth.
unfoldable pub share_of : Pair → EthAddress → ℕ → Result Deposit
share_of pair provider liquidity =
    if pair.total_supply == 0
    then err (runtime_error (str "Pair has no liquidity"))
    else if ltb (or_zero (find provider pair.lp_balances)) liquidity
    then err (runtime_error (str "Insufficient LP balance"))
    else let amount0 = mul_u256 liquidity pair.reserve0 / pair.total_supply in
      let amount1 = mul_u256 liquidity pair.reserve1 / pair.total_supply in
      if amount0 == 0 || amount1 == 0
      then err (runtime_error (str "Insufficient liquidity burned"))
      else ok (record { amount0 = amount0; amount1 = amount1; liquidity = liquidity })

-- The pair once the share is out of it.
unfoldable pub withdrawn : EthAddress → Deposit → Pair → Pair
withdrawn provider d pair = record pair {
  reserve0 = sub_u256 pair.reserve0 d.amount0;
  reserve1 = sub_u256 pair.reserve1 d.amount1;
  total_supply = sub_u256 pair.total_supply d.liquidity;
  lp_balances =
      put provider (sub_u256 (or_zero (find provider pair.lp_balances)) d.liquidity)
        pair.lp_balances;
}

abbrev pub removed : Bool → Deposit → RemoveLiquidityResult
removed a_is_0 d =
    let amounts = swapped a_is_0 d.amount0 d.amount1 in
    record { amount_a = amounts.0; amount_b = amounts.1 }

abbrev pub credited_both :
    EthAddress → Text → Text → Deposit → RemoveLiquidityResult → Exec Market RemoveLiquidityResult
credited_both provider token0 token1 d result = do
  credit provider token0 d.amount0
  credit provider token1 d.amount1
  pure result

abbrev pub pay_out :
    EthAddress
    → Text × Text
    → Text × Pair
    → Bool
    → Deposit
    → ℕ
    → ℕ
    → Exec Market RemoveLiquidityResult
pay_out provider (token0, token1) (k, pair) a_is_0 d a_min b_min =
    let result = removed a_is_0 d in
    if ltb result.amount_a a_min || ltb result.amount_b b_min
    then throw (runtime_error (str "Minimum amount constraints not met"))
    else (do
      write_pair k (withdrawn provider d pair)
      credited_both provider token0 token1 d result)

abbrev pub found_and_paid : EthAddress → Text → Text → ℕ → ℕ → ℕ → Exec Market RemoveLiquidityResult
found_and_paid provider token_a token_b liquidity a_min b_min = do
  found ← λ s. (get_pair_checked token_a token_b s, s)
  d ← lift (share_of found.1 provider liquidity)
  tokens ← lift (sort_tokens token_a token_b)
  pay_out provider tokens found (text_eq token_a tokens.0) d a_min b_min

unfoldable pub remove_liquidity :
    EthAddress → Text → Text → ℕ → ℕ → ℕ → Exec Market RemoveLiquidityResult
remove_liquidity provider token_a token_b liquidity a_min b_min =
    if liquidity == 0
    then throw (invalid_argument (str "Liquidity must be positive"))
    else found_and_paid provider token_a token_b liquidity a_min b_min
