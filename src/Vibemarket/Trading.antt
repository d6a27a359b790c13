-- ===== src/Vibemarket/Trading.antt =====
-- Sequences of calls of a VibeSwap, by any callers.
use machinepal.Prelude.{ℕ, ◌+◌, ◌<◌, ◌≡◌, ◌∙◌, Text, List, [], All, some, arith, text_eq_iff}
use machinepal.Result.{ok}
use machinepal.Platform.{u256_mod}
use machinepal.Crypto.Values.{EthAddress}
use machinepal.Vibemarket.Maps.{find, text_key}
use machinepal.Vibemarket.Maps.Sums.{total}
use machinepal.Vibemarket.Market.{Market, mint_token}
use machinepal.Vibemarket.Market.Keys.{HasNoBar, AreSound}
use machinepal.Vibemarket.Market.Supply.{Keeps, supply, of_token, supply-mint_token}
use machinepal.Vibemarket.Liquidity.{
  AddLiquidityResult, RemoveLiquidityResult, add_liquidity, remove_liquidity,
}
use machinepal.Vibemarket.Liquidity.Adding.{RoomFor, add_liquidity-Keeps}
use machinepal.Vibemarket.Liquidity.Removing.{remove_liquidity-Keeps}
use machinepal.Vibemarket.Swaps.{swap_exact_tokens_for_tokens, swap_tokens_for_exact_tokens}
use machinepal.Vibemarket.Swaps.Conservation.{
  swap_exact_tokens_for_tokens-Keeps, swap_tokens_for_exact_tokens-Keeps,
}

-- VibeSwap()
abbrev pub new_market : Market
new_market = record { pairs = []; balances = [] }

-- Pairs well formed, and each token as much as was minted of it, which fits in a word.
abbrev pub HoldsMinted : Market → (Text → ℕ) → Type 0
HoldsMinted s minted =
    AreSound s.pairs × ((t : Text) → supply t s ≡ minted t) × ((t : Text) → minted t < u256_mod)

module _ (hasher : Text → ℕ) where
  -- A call that moves tokens and returns. Names of tokens have no bar, and a pair's shares fit in
  -- a word.
  pub data Moves : Market → Market → Type 0 where
    adds :
        {s s' : Market} (provider : EthAddress) (a b : Text) (a_desired b_desired a_min b_min : ℕ)
        (r : AddLiquidityResult)
        → HasNoBar a
        → HasNoBar b
        → RoomFor r.liquidity s
        → add_liquidity hasher provider a b a_desired b_desired a_min b_min s ≡ some (ok r, s')
        → Moves s s'
    removes :
        {s s' : Market} (provider : EthAddress) (a b : Text) (liquidity a_min b_min : ℕ)
        (r : RemoveLiquidityResult)
        → HasNoBar a
        → HasNoBar b
        → remove_liquidity provider a b liquidity a_min b_min s ≡ (ok r, s')
        → Moves s s'
    swaps_exact_in :
        {s s' : Market} (trader to : EthAddress) (amount_in amount_out_min : ℕ) (path : List Text)
        (amounts : List ℕ)
        → All HasNoBar path
        → swap_exact_tokens_for_tokens trader amount_in amount_out_min path to s ≡ (ok amounts, s')
        → Moves s s'
    swaps_exact_out :
        {s s' : Market} (trader to : EthAddress) (amount_out amount_in_max : ℕ) (path : List Text)
        (amounts : List ℕ)
        → All HasNoBar path
        → swap_tokens_for_exact_tokens trader amount_out amount_in_max path to s ≡ (ok amounts, s')
        → Moves s s'

  -- The markets that calls lead to, with how much of each token has been minted, which fits in a
  -- word.
  pub data Reached : Market → (Text → ℕ) → Type 0 where
    starts :
        {s : Market} {minted : Text → ℕ}
        → s ≡ new_market
        → ((t : Text) → minted t ≡ 0)
        → Reached s minted
    mints :
        {s s' : Market} {minted minted' : Text → ℕ}
        → Reached s minted
        → (to : EthAddress) (token : Text) (amount : ℕ) → minted token + amount < u256_mod
        → mint_token to token amount s ≡ (ok tt, s')
        → ((t : Text) → minted' t ≡ minted t + of_token t token amount)
        → Reached s' minted'
    moves : {s s' : Market} {minted : Text → ℕ} → Reached s minted → Moves s s' → Reached s' minted

  Moves-Keeps :
      {s s' : Market}
      → Moves s s'
      → AreSound s.pairs
      → ((t : Text) → supply t s < u256_mod)
      → Keeps s s'
  Moves-Keeps {s} {s'} (adds provider a b da db ma mb r na nb room e) sound fits =
      add_liquidity-Keeps hasher provider a b da db ma mb s s' r sound fits na nb room e
  Moves-Keeps {s} {s'} (removes provider a b l ma mb r na nb e) sound fits =
      remove_liquidity-Keeps provider a b l ma mb s s' r sound fits na nb e
  Moves-Keeps {s} {s'} (swaps_exact_in trader to i o path amounts ns e) sound fits =
      swap_exact_tokens_for_tokens-Keeps s s' sound fits trader to i o path amounts ns e
  Moves-Keeps {s} {s'} (swaps_exact_out trader to o i path amounts ns e) sound fits =
      swap_tokens_for_exact_tokens-Keeps s s' sound fits trader to o i path amounts ns e

  -- From an empty market, after any sequence of mints and of liquidity and swap calls that return,
  -- where no token that liquidity or a swap names has a bar in its name, no more than 2^256 - 1 of a
  -- token is ever minted, and the shares of each addition leave every pair's supply below 2^256 with
  -- room for the minimum liquidity: each pair is well formed (its tokens differ, its shares add up to
  -- its supply), and the wallets and reserves together hold as much of each token as was minted.
  pub Reached-HoldsMinted :
      {s : Market} {minted : Text → ℕ} → Reached s minted → HoldsMinted s minted
  unfolding total find
  Reached-HoldsMinted (starts e zero_minted) =
      rw e
        (λ k pair absent. cc, λ t. omega (arith, zero_minted t), λ t. omega (arith, zero_minted t))
  Reached-HoldsMinted {s = s'} (mints {s = s} before to token amount room e after) =
      let (sound, held, fits) = Reached-HoldsMinted before in
      let grown =
        λ (t : Text). supply-mint_token t to token amount s s' (omega (arith, held token)) e in
      (
        rw (grown token).1 sound,
        λ t. omega (arith, (grown t).0, held t, after t),
        λ t. ground (arith, after t, fits t, text_eq_iff token t),
      )
  Reached-HoldsMinted (moves before step) =
      let (sound, held, fits) = Reached-HoldsMinted before in
      let (sound', kept) = Moves-Keeps step sound (λ t. omega (arith, held t, fits t)) in
      (sound', λ t. kept t ∙ held t, fits)
