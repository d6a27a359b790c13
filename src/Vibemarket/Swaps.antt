-- ===== src/Vibemarket/Swaps.antt =====
-- src/vibemarket/VibeSwap.cpp: the amounts along a path of tokens, and the swaps.
pub mod Product
pub mod Conservation
pub mod Hops
use machinepal.Prelude.{
  ℕ, Bool, ◌||◌, not, Text, str, List, [], ◌∷◌, length, ltb, leb, ◌==◌, if◌then◌else◌, text_eq,
}
use machinepal.Result
use machinepal.Result.{Result, ok, err, invalid_argument, runtime_error}
use machinepal.Exec.{Exec, pure, throw, lift, ◌>>=◌, ◌>>◌}
use machinepal.Crypto.Values.{EthAddress}
use machinepal.Vibemarket.Words.{add_u256, sub_u256}
use machinepal.Vibemarket.Math.{get_amount_out, get_amount_in}
use machinepal.Vibemarket.Maps.{put, text_key}
use machinepal.Vibemarket.Market.{
  Pair, Market, sort_tokens, get_pair_checked, ensure_balance, debit, credit, write_pair,
}

-- A pair as a swap from one of its tokens to the other sees it.
pub record Hop : Type 0 where
  pub key : Text
  pub pair : Pair
  pub input_is_token0 : Bool

abbrev pub reserve_in : Hop → ℕ
reserve_in h = if h.input_is_token0 then h.pair.reserve0 else h.pair.reserve1

abbrev pub reserve_out : Hop → ℕ
reserve_out h = if h.input_is_token0 then h.pair.reserve1 else h.pair.reserve0

unfoldable pub hop_between : Text → Text → Market → Result Hop
hop_between token next s = Result.◌>>=◌ (get_pair_checked token next s) (λ found.
    Result.◌>>=◌ (sort_tokens token next) (λ tokens.
      ok (record { key = found.0; pair = found.1; input_is_token0 = text_eq token tokens.0 })))

-- The amounts from a token on, along the rest of the path.
unfoldable pub amounts_out : ℕ → Text → List Text → Market → Result (List ℕ)
amounts_out amount token [] s = ok (amount ∷ [])
amounts_out amount token (next ∷ path) s = Result.◌>>=◌ (hop_between token next s) (λ h.
    Result.◌>>=◌ (get_amount_out amount (reserve_in h) (reserve_out h))
      (λ out. Result.◌>>=◌ (amounts_out out next path s) (λ more. ok (amount ∷ more))))

abbrev pub front : List ℕ → ℕ
front [] = 0
front (a ∷ amounts) = a

abbrev pub back : List ℕ → ℕ
back [] = 0
back (a ∷ []) = a
back (a ∷ b ∷ amounts) = back (b ∷ amounts)

-- The loop runs from the end of the path.
unfoldable pub amounts_in : ℕ → Text → List Text → Market → Result (List ℕ)
amounts_in amount token [] s = ok (amount ∷ [])
amounts_in amount token (next ∷ path) s = Result.◌>>=◌ (amounts_in amount next path s) (λ more.
    Result.◌>>=◌ (hop_between token next s) (λ h.
      Result.◌>>=◌ (get_amount_in (front more) (reserve_in h) (reserve_out h))
        (λ input. ok (input ∷ more))))

abbrev too_short {ℓ} : {A : Type ℓ} → Result A
too_short = err (invalid_argument (str "Path must have at least two tokens"))

unfoldable pub get_amounts_out : ℕ → List Text → Market → Result (List ℕ)
get_amounts_out amount [] s = too_short
get_amounts_out amount (token ∷ []) s = too_short
get_amounts_out amount (token ∷ next ∷ path) s = amounts_out amount token (next ∷ path) s

unfoldable pub get_amounts_in : ℕ → List Text → Market → Result (List ℕ)
get_amounts_in amount [] s = too_short
get_amounts_in amount (token ∷ []) s = too_short
get_amounts_in amount (token ∷ next ∷ path) s = amounts_in amount token (next ∷ path) s

-- The pair with other reserves of the token that comes in and of the one that goes out.
abbrev pub with_reserves : Hop → ℕ → ℕ → Pair
with_reserves h into out =
    if h.input_is_token0
    then record (h.pair) { reserve0 = into; reserve1 = out }
    else record (h.pair) { reserve1 = into; reserve0 = out }

unfoldable pub moved : Hop → ℕ → ℕ → Pair
moved h amount_in amount_out =
    with_reserves h (add_u256 (reserve_in h) amount_in) (sub_u256 (reserve_out h) amount_out)

unfoldable pub swap_hop : Text → Text → ℕ → ℕ → Exec Market (Unit {0})
swap_hop token next amount_in amount_out = do
  h ← λ s. (hop_between token next s, s)
  if leb (reserve_out h) amount_out
      then throw (runtime_error (str "Insufficient liquidity for swap"))
      else write_pair h.key (moved h amount_in amount_out)

-- The loop over the path; the lists have one length.
unfoldable pub swap_hops : ℕ → List ℕ → Text → List Text → Exec Market (Unit {0})
swap_hops amount amounts token [] = pure tt
swap_hops amount [] token (next ∷ path) = pure tt
swap_hops amount (out ∷ amounts) token (next ∷ path) = do
  swap_hop token next amount out
  swap_hops out amounts next path

abbrev last_token : Text → List Text → Text
last_token token [] = token
last_token token (next ∷ path) = last_token next path

abbrev pub last_amount : ℕ → List ℕ → ℕ
last_amount amount [] = amount
last_amount amount (out ∷ amounts) = last_amount out amounts

-- From the path's first token and amount on.
unfoldable pub swap_along :
    EthAddress → ℕ → List ℕ → Text → List Text → EthAddress → Exec Market (List ℕ)
swap_along trader amount amounts token path to = do
  ensure_balance trader token amount
  debit trader token amount
  swap_hops amount amounts token path
  credit to (last_token token path) (last_amount amount amounts)
  pure (amount ∷ amounts)

unfoldable pub swap_with_known_amounts :
    EthAddress → List ℕ → List Text → EthAddress → Exec Market (List ℕ)
swap_with_known_amounts trader amounts [] to = lift too_short
swap_with_known_amounts trader amounts (token ∷ []) to = lift too_short
swap_with_known_amounts trader [] (token ∷ next ∷ path) to =
    throw (invalid_argument (str "Amounts/path size mismatch"))
swap_with_known_amounts trader (amount ∷ amounts) (token ∷ next ∷ path) to =
    if length amounts == length (next ∷ path)
    then swap_along trader amount amounts token (next ∷ path) to
    else throw (invalid_argument (str "Amounts/path size mismatch"))

unfoldable pub swap_exact_tokens_for_tokens :
    EthAddress → ℕ → ℕ → List Text → EthAddress → Exec Market (List ℕ)
swap_exact_tokens_for_tokens trader amount_in amount_out_min path to = do
  amounts ← λ s. (get_amounts_out amount_in path s, s)
  if ltb (back amounts) amount_out_min
      then throw (runtime_error (str "Insufficient output amount"))
      else swap_with_known_amounts trader amounts path to

unfoldable pub swap_tokens_for_exact_tokens :
    EthAddress → ℕ → ℕ → List Text → EthAddress → Exec Market (List ℕ)
swap_tokens_for_exact_tokens trader amount_out amount_in_max path to = do
  amounts ← λ s. (get_amounts_in amount_out path s, s)
  if ltb amount_in_max (front amounts)
      then throw (runtime_error (str "Excessive input amount"))
      else swap_with_known_amounts trader amounts path to
