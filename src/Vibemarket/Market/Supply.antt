-- ===== src/Vibemarket/Market/Supply.antt =====
-- How much of a token there is in the wallets and in the reserves together (VibeSwap).
use machinepal.Prelude.{
  ℕ, ◌+◌, ◌-◌, ◌≤◌, ◌<◌, ◌≡◌, Text, List, some, arith, if◌then◌else◌, text_eq, text_eq_iff,
}
use machinepal.Result.{ok}
use machinepal.Platform.{u256_mod}
use machinepal.Crypto.Values.{EthAddress}
use machinepal.Vibemarket.Maps.{find, put, text_key, texts_key}
use machinepal.Vibemarket.Maps.Sums.{total, weight_of, total-put, weight_of-le-total}
use machinepal.Vibemarket.Market.{
  Pair, Market, balance_of, debit, credit, mint_token, ensure_balance,
}
use machinepal.Vibemarket.Market.Keys.{AreSound}

abbrev pub held : Text → EthAddress × Text → ℕ → ℕ
held t (owner, token) amount = if text_eq token t then amount else 0

abbrev pub reserved : Text → Text → Pair → ℕ
reserved t k pair =
    (if text_eq pair.token0 t then pair.reserve0 else 0)
    + (if text_eq pair.token1 t then pair.reserve1 else 0)

abbrev pub in_wallets : Text → Market → ℕ
in_wallets t s = total (held t) s.balances

abbrev pub in_pairs : Text → Market → ℕ
in_pairs t s = total (reserved t) s.pairs

abbrev pub supply : Text → Market → ℕ
supply t s = in_wallets t s + in_pairs t s

-- The amount, if the token is `t`.
abbrev pub of_token : Text → Text → ℕ → ℕ
of_token t token amount = if text_eq token t then amount else 0

pub of_token_self : (t : Text) (amount : ℕ) → of_token t t amount ≡ amount
of_token_self t amount = ground (arith, text_eq_iff t t)

weight_of-held :
    (t : Text) (owner : EthAddress) (token : Text) (s : Market)
    → weight_of (held t) (owner, token) (find (owner, token) s.balances)
      ≡ of_token t token (balance_of owner token s)
unfolding balance_of
weight_of-held t owner token s = ground (arith)

-- A wallet's balance is written.
pub in_wallets-put :
    (t : Text) (owner : EthAddress) (token : Text) (amount : ℕ) (s : Market)
    → total (held t) (put (owner, token) amount s.balances)
        + of_token t token (balance_of owner token s)
      ≡ in_wallets t s + of_token t token amount
in_wallets-put t owner token amount s =
    ground
      (arith, total-put (held t) (owner, token) amount s.balances, weight_of-held t owner token s)

pub balance-le-supply :
    (owner : EthAddress) (token : Text) (s : Market) → balance_of owner token s ≤ in_wallets token s
balance-le-supply owner token s = ground (
  arith,
  weight_of-le-total (held token) (owner, token) s.balances,
  weight_of-held token owner token s,
  text_eq_iff token token,
)

-- A pair is written over another.
pub in_pairs-put :
    (t k : Text) (old new : Pair) (pairs : List (Text × Pair))
    → find k pairs ≡ some old
    → total (reserved t) (put k new pairs) + reserved t k old
      ≡ total (reserved t) pairs + reserved t k new
in_pairs-put t k old new pairs e = ground (arith, total-put (reserved t) k new pairs)

pub reserved-le-total :
    (t k : Text) (pair : Pair) (pairs : List (Text × Pair))
    → find k pairs ≡ some pair
    → reserved t k pair ≤ total (reserved t) pairs
reserved-le-total t k pair pairs e = ground (arith, weight_of-le-total (reserved t) k pairs)

-- What debit takes is of the token alone.
pub supply-debit :
    (t : Text) (owner : EthAddress) (token : Text) (amount : ℕ) (s s' : Market)
    → in_wallets token s < u256_mod
    → debit owner token amount s ≡ (ok tt, s')
    → (supply t s' + of_token t token amount ≡ supply t s) × (s'.pairs ≡ s.pairs)
unfolding debit
supply-debit t owner token amount s s' fits h = ground (
  arith,
  balance-le-supply owner token s,
  in_wallets-put t owner token (balance_of owner token s - amount) s,
)

pub supply-credit :
    (t : Text) (owner : EthAddress) (token : Text) (amount : ℕ) (s s' : Market)
    → in_wallets token s + amount < u256_mod
    → credit owner token amount s ≡ (ok tt, s')
    → (supply t s' ≡ supply t s + of_token t token amount) × (s'.pairs ≡ s.pairs)
unfolding credit
supply-credit t owner token amount s s' fits h = ground (
  arith,
  balance-le-supply owner token s,
  in_wallets-put t owner token (balance_of owner token s + amount) s,
)

pub ensure_balance-eq :
    (owner : EthAddress) (token : Text) (amount : ℕ) (s s' : Market)
    → ensure_balance owner token amount s ≡ (ok tt, s')
    → s' ≡ s
unfolding ensure_balance
ensure_balance-eq owner token amount s s' h = ground arith

pub debit-pairs :
    (owner : EthAddress) (token : Text) (amount : ℕ) (s s' : Market)
    → debit owner token amount s ≡ (ok tt, s')
    → s'.pairs ≡ s.pairs
unfolding debit
debit-pairs owner token amount s s' h = ground arith

pub credit-pairs :
    (owner : EthAddress) (token : Text) (amount : ℕ) (s s' : Market)
    → credit owner token amount s ≡ (ok tt, s')
    → s'.pairs ≡ s.pairs
unfolding credit
credit-pairs owner token amount s s' h = ground arith

pub supply-mint_token :
    (t : Text) (owner : EthAddress) (token : Text) (amount : ℕ) (s s' : Market)
    → in_wallets token s + amount < u256_mod
    → mint_token owner token amount s ≡ (ok tt, s')
    → (supply t s' ≡ supply t s + of_token t token amount) × (s'.pairs ≡ s.pairs)
unfolding mint_token
supply-mint_token t owner token amount s s' fits h = ground (
  arith,
  balance-le-supply owner token s,
  in_wallets-put t owner token (balance_of owner token s + amount) s,
)

-- What a market keeps: its pairs under their keys, and of every token as much as there was.
abbrev pub Keeps : Market → Market → Type 0
Keeps s s' = AreSound s'.pairs × ((t : Text) → supply t s' ≡ supply t s)
