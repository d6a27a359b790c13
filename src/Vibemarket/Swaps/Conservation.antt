-- ===== src/Vibemarket/Swaps/Conservation.antt =====
-- The supply of every token across a swap (VibeSwap::swapWithKnownAmounts).
use machinepal.Prelude.{
  ℕ, ◌+◌, ◌<◌, ◌≡◌, refl, Text, List, [], ◌∷◌, All, arith, length, ◌==◌, Bool-cases, inl, inr,
}
use machinepal.Result.{ok}
use machinepal.Exec.{continue-eq-ok}
use machinepal.Platform.{u256_mod}
use machinepal.Crypto.Values.{EthAddress}
use machinepal.Vibemarket.Market.{Market, ensure_balance, debit, credit}
use machinepal.Vibemarket.Market.Keys.{HasNoBar, AreSound}
use machinepal.Vibemarket.Market.Supply.{
  Keeps, supply, in_wallets, of_token, of_token_self, ensure_balance-eq, supply-debit,
  supply-credit,
}
use machinepal.Vibemarket.Swaps.{
  swap_hop, swap_hops, swap_along, swap_with_known_amounts, swap_exact_tokens_for_tokens,
  swap_tokens_for_exact_tokens, last_token, last_amount, get_amounts_out, get_amounts_in,
}
use machinepal.Vibemarket.Swaps.Hops.{supply-swap_hop}

-- Between two hops an amount is out of the market: what there was is what there is and this amount.
abbrev Carries : (Text → ℕ) → Text → ℕ → Market → Type 0
Carries whole token amount s = (t : Text) → supply t s + of_token t token amount ≡ whole t

-- The market's tokens are what they were, and each fits in a word.
module _ (whole : Text → ℕ) (fits : (t : Text) → whole t < u256_mod) where
  hops_carry :
      (amount : ℕ) (amounts : List ℕ) (token : Text) (path : List Text) (s s' : Market)
      → HasNoBar token
      → All HasNoBar path
      → length amounts ≡ length path
      → AreSound s.pairs
      → Carries whole token amount s
      → swap_hops amount amounts token path s ≡ (ok tt, s')
      → AreSound s'.pairs × Carries whole (last_token token path) (last_amount amount amounts) s'
  unfolding swap_hops
  hops_carry amount [] token [] s s' n ns l keyed c e =
      let same : s ≡ s' = cc in rw (← same) (keyed, c)
  hops_carry amount (o ∷ amounts) token [] s s' n ns l keyed c e = absurd (omega arith)
  hops_carry amount [] token (next ∷ path) s s' n ns l keyed c e = absurd (omega arith)
  hops_carry amount (o ∷ amounts) token (next ∷ path) s s' n (m, ns) l keyed c e =
      let (u, s1, first, rest) = continue-eq-ok (swap_hop token next amount o s) _ e in
      let (keyed1, hop) =
        supply-swap_hop token next amount o s s1 n m keyed
          (omega (arith, c token, fits token, of_token_self token amount))
          (omega (arith, c next, fits next)) first in
      hops_carry o amounts next path s1 s' m ns (omega arith) keyed1
        (λ t. omega (arith, hop t, c t)) rest

  along_carry :
      (trader : EthAddress) (amount : ℕ) (amounts : List ℕ) (token : Text) (path : List Text)
      (to : EthAddress) (s s' : Market) (r : List ℕ)
      → HasNoBar token
      → All HasNoBar path
      → length amounts ≡ length path
      → AreSound s.pairs
      → ((t : Text) → supply t s ≡ whole t)
      → swap_along trader amount amounts token path to s ≡ (ok r, s')
      → AreSound s'.pairs × ((t : Text) → supply t s' ≡ whole t)
  unfolding swap_along
  along_carry trader amount amounts token path to s s' r n ns l keyed c e =
      let (u0, s0, ensured, rest0) = continue-eq-ok (ensure_balance trader token amount s) _ e in
      let (u1, s1, taken, rest1) = continue-eq-ok (debit trader token amount s0) _ rest0 in
      let (u2, s2, hopped, rest2) =
        continue-eq-ok (swap_hops amount amounts token path s1) _ rest1 in
      let last = last_token token path in
      let out = last_amount amount amounts in
      let (u3, s3, given, rest3) = continue-eq-ok (credit to last out s2) _ rest2 in
      let same0 = ensure_balance-eq trader token amount s s0 ensured in
      let same3 : s3 ≡ s' = cc in
      let start : (t : Text) → supply t s0 ≡ whole t = λ t. rw same0 (c t) in
      let fit : in_wallets token s0 < u256_mod = omega (arith, start token, fits token) in
      let debited = λ (t : Text). supply-debit t trader token amount s0 s1 fit taken in
      let (keyed2, carried) =
        hops_carry amount amounts token path s1 s2 n ns l (rw (debited token).1 (rw same0 keyed))
          (λ t. omega (arith, (debited t).0, start t)) hopped in
      let fit2 : in_wallets last s2 + out < u256_mod =
        omega (arith, carried last, fits last, of_token_self last out) in
      let credited = λ (t : Text). supply-credit t to last out s2 s3 fit2 given in
      rw (← same3) (rw (credited token).1 keyed2, λ t. omega (arith, (credited t).0, carried t))

  with_known_carry :
      (trader : EthAddress) (amounts : List ℕ) (path : List Text) (to : EthAddress) (s s' : Market)
      (r : List ℕ)
      → All HasNoBar path
      → AreSound s.pairs
      → ((t : Text) → supply t s ≡ whole t)
      → swap_with_known_amounts trader amounts path to s ≡ (ok r, s')
      → AreSound s'.pairs × ((t : Text) → supply t s' ≡ whole t)
  unfolding swap_with_known_amounts
  with_known_carry trader amounts [] to s s' r ns keyed c e = cc
  with_known_carry trader amounts (token ∷ []) to s s' r ns keyed c e = cc
  with_known_carry trader [] (token ∷ next ∷ path) to s s' r ns keyed c e = cc
  with_known_carry trader (amount ∷ amounts) (token ∷ next ∷ path) to s s' r (n, ns) keyed c e =
      elim (Bool-cases (length amounts == length (next ∷ path))) [
        | inl l ↦
            along_carry trader amount amounts token (next ∷ path) to s s' r n ns (ground arith)
              keyed c (rw l at e)
        | inr wrong ↦ absurd (ground arith)
      ]

module _ (s s' : Market) (keyed : AreSound s.pairs)
    (fits : (t : Text) → supply t s < u256_mod) where
  pub swap_exact_tokens_for_tokens-Keeps :
      (trader to : EthAddress) (amount_in amount_out_min : ℕ) (path : List Text) (r : List ℕ)
      → All HasNoBar path
      → swap_exact_tokens_for_tokens trader amount_in amount_out_min path to s ≡ (ok r, s')
      → Keeps s s'
  unfolding swap_exact_tokens_for_tokens
  swap_exact_tokens_for_tokens-Keeps trader to amount_in amount_out_min path r ns e =
      let (amounts, s0, first, rest) = continue-eq-ok (get_amounts_out amount_in path s, s) _ e in
      with_known_carry (λ t. supply t s) fits trader amounts path to s s' r ns keyed (λ t. refl)
        (ground arith)

  pub swap_tokens_for_exact_tokens-Keeps :
      (trader to : EthAddress) (amount_out amount_in_max : ℕ) (path : List Text) (r : List ℕ)
      → All HasNoBar path
      → swap_tokens_for_exact_tokens trader amount_out amount_in_max path to s ≡ (ok r, s')
      → Keeps s s'
  unfolding swap_tokens_for_exact_tokens
  swap_tokens_for_exact_tokens-Keeps trader to amount_out amount_in_max path r ns e =
      let (amounts, s0, first, rest) = continue-eq-ok (get_amounts_in amount_out path s, s) _ e in
      with_known_carry (λ t. supply t s) fits trader amounts path to s s' r ns keyed (λ t. refl)
        (ground arith)
