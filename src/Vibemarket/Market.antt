-- ===== src/Vibemarket/Market.antt =====
-- src/vibemarket/VibeSwap.cpp: the pairs and the wallets' balances, and how they are read and
-- written. `hasher` is std::hash of texts.
pub mod Keys
pub mod Supply
use machinepal.Prelude.{
  ℕ, ◌+◌, ◌-◌, ◌*◌, ◌/◌, ◌%◌, ◌^◌, Bool, true, false, ◌||◌, Text, str, List, [], ◌∷◌, ◌++◌, Option,
  none, some, ltb, ◌==◌, if◌then◌else◌, text_eq, is_empty,
}
use machinepal.Result
use machinepal.Result.{Result, ok, err, invalid_argument, runtime_error}
use machinepal.Exec.{Exec, throw, modify, ◌>>=◌, ◌>>◌}
use machinepal.Crypto.Values.{EthAddress}
use machinepal.Vibemarket.Words.{add_u256, sub_u256}
use machinepal.Vibemarket.Maps.{find, put, text_key, texts_key}

pub record Pair : Type 0 where
  pub token0 : Text
  pub token1 : Text
  pub contract_address : EthAddress
  pub reserve0 : ℕ
  pub reserve1 : ℕ
  pub total_supply : ℕ
  pub lp_balances : List (EthAddress × ℕ)

-- `balances` is the map of maps by owner and token; an entry that is not there stands for zero.
pub record Market : Type 0 where
  pub pairs : List (Text × Pair)
  pub balances : List ((EthAddress × Text) × ℕ)

pub record PairSnapshot : Type 0 where
  pub token0 : Text
  pub token1 : Text
  pub contract_address : EthAddress
  pub reserve0 : ℕ
  pub reserve1 : ℕ
  pub total_supply : ℕ

-- a < b on std::string
unfoldable pub text_lt : Text → Text → Bool
text_lt [] [] = false
text_lt [] (b ∷ t) = true
text_lt (a ∷ s) [] = false
text_lt (a ∷ s) (b ∷ t) = if a == b then text_lt s t else ltb a b

unfoldable pub sort_tokens : Text → Text → Result (Text × Text)
sort_tokens token_a token_b =
    if is_empty token_a || is_empty token_b
    then err (invalid_argument (str "Token cannot be empty"))
    else if text_eq token_a token_b
    then err (invalid_argument (str "Tokens must be distinct"))
    else if text_lt token_a token_b
    then ok (token_a, token_b)
    else ok (token_b, token_a)

unfoldable pub pair_key : Text → Text → Text
pair_key token0 token1 = token0 ++ (str "|" ++ token1)

-- static_cast< uint8_t >((h >> (8 * (7 - i))) & 0xFF)
abbrev byte_of : ℕ → ℕ → ℕ
byte_of h i = (h / 2 ^ (8 * (7 - i))) % 256

abbrev four_bytes : ℕ → ℕ → List ℕ
four_bytes h i = byte_of h i ∷ byte_of h (i + 1) ∷ byte_of h (i + 2) ∷ byte_of h (i + 3) ∷ []

unfoldable pub make_pair_address : (Text → ℕ) → Text → Text → EthAddress
make_pair_address hasher token0 token1 =
    let key = token0 ++ (str "|" ++ token1) in
    let h1 = hasher key in
    let h2 = hasher (str "vibeswap:" ++ key) in
    let h3 = hasher (key ++ str ":vibeswap") in
    four_bytes h1 0
    ++ (four_bytes h1 4 ++ (four_bytes h2 0 ++ (four_bytes h2 4 ++ four_bytes h3 0)))

abbrev pub burn_address : EthAddress
burn_address = 0 ∷ 0 ∷ 0 ∷ 0 ∷ 0 ∷ 0 ∷ 0 ∷ 0 ∷ 0 ∷ 0 ∷ 0 ∷ 0 ∷ 0 ∷ 0 ∷ 0 ∷ 0 ∷ 0 ∷ 0 ∷ 0 ∷ 0 ∷ []

abbrev pub or_zero : Option ℕ → ℕ
or_zero none = 0
or_zero (some amount) = amount

unfoldable pub balance_of : EthAddress → Text → Market → ℕ
balance_of owner token s = or_zero (find (owner, token) s.balances)

unfoldable pub mint_token : EthAddress → Text → ℕ → Exec Market (Unit {0})
unfolding balance_of
mint_token to token amount s =
    if is_empty token then (err (invalid_argument (str "Token cannot be empty")), s) else (
      ok tt,
      record s { balances = put (to, token) (add_u256 (balance_of to token s) amount) s.balances },
    )

unfoldable pub ensure_balance : EthAddress → Text → ℕ → Exec Market (Unit {0})
ensure_balance owner token amount s =
    if ltb (balance_of owner token s) amount
    then (err (runtime_error (str "Insufficient balance for token " ++ token)), s)
    else (ok tt, s)

unfoldable pub debit : EthAddress → Text → ℕ → Exec Market (Unit {0})
debit owner token amount s =
    let balance = balance_of owner token s in
    if ltb balance amount
    then (
      err (runtime_error (str "Insufficient balance for token " ++ token)),
      record s { balances = put (owner, token) balance s.balances },
    )
    else (ok tt, record s { balances = put (owner, token) (sub_u256 balance amount) s.balances })

unfoldable pub credit : EthAddress → Text → ℕ → Exec Market (Unit {0})
credit owner token amount s = (
  ok tt,
  record s {
    balances = put (owner, token) (add_u256 (balance_of owner token s) amount) s.balances;
  },
)

-- The pair of two tokens, with the key under which it stands.
unfoldable pub get_pair_checked : Text → Text → Market → Result (Text × Pair)
get_pair_checked token_a token_b s = Result.◌>>=◌ (sort_tokens token_a token_b) (λ tokens.
    elim (find (pair_key tokens.0 tokens.1) s.pairs) [
      | none ↦ err (
          runtime_error
            (str "Pair not found for tokens " ++ (tokens.0 ++ (str " and " ++ tokens.1))))
      | some pair ↦ ok (pair_key tokens.0 tokens.1, pair)
    ])

abbrev pub empty_pair : (Text → ℕ) → Text → Text → Pair
empty_pair hasher token0 token1 = record {
  token0 = token0;
  token1 = token1;
  contract_address = make_pair_address hasher token0 token1;
  reserve0 = 0;
  reserve1 = 0;
  total_supply = 0;
  lp_balances = [];
}

-- emplace( key, … ), which leaves an entry that is there
abbrev pub emplaced : Text → Pair → Market → (Text × Pair) × Market
emplaced k fresh s = elim (find k s.pairs) [
  | none ↦ ((k, fresh), record s { pairs = put k fresh s.pairs })
  | some pair ↦ ((k, pair), s)
]

unfoldable pub get_or_create_pair : (Text → ℕ) → Text → Text → Exec Market (Text × Pair)
get_or_create_pair hasher token_a token_b s = elim (sort_tokens token_a token_b) [
  | err e ↦ (err e, s)
  | ok (token0, token1) ↦
      let after = emplaced (pair_key token0 token1) (empty_pair hasher token0 token1) s in
      (ok after.0, after.1)
]

unfoldable pub lp_balance_of : EthAddress → Text → Text → Market → Result ℕ
lp_balance_of owner token_a token_b s =
    Result.◌>>=◌ (get_pair_checked token_a token_b s)
      (λ found. ok (or_zero (find owner found.1.lp_balances)))

unfoldable pub get_pair_snapshot : Text → Text → Market → Result PairSnapshot
get_pair_snapshot token_a token_b s = Result.◌>>=◌ (get_pair_checked token_a token_b s) (λ found.
    ok (record {
      token0 = found.1.token0;
      token1 = found.1.token1;
      contract_address = found.1.contract_address;
      reserve0 = found.1.reserve0;
      reserve1 = found.1.reserve1;
      total_supply = found.1.total_supply;
    }))

unfoldable pub get_reserves : Text → Text → Market → Result (ℕ × ℕ)
get_reserves token_a token_b s =
    Result.◌>>=◌ (get_pair_checked token_a token_b s)
      (λ found. ok (found.1.reserve0, found.1.reserve1))

-- A write through the reference to a pair.
abbrev pub write_pair : Text → Pair → Exec Market (Unit {0})
write_pair k pair = modify (λ s. record s { pairs = put k pair s.pairs })
