-- ===== src/Vibemarket/Liquidity/Removing.antt =====
-- The supply of every token when liquidity is removed (VibeSwap::removeLiquidity).
use machinepal.Prelude.{
  ℕ, ◌+◌, ◌<◌, ◌≡◌, sym, subst, ◌∙◌, Bool, Text, some, arith, ◌==◌, ◌||◌, text_eq, text_eq_refl,
  Bool-cases, inl, inr, ltb,
}
use machinepal.Result.{ok, ok-injective}
use machinepal.Exec.{continue-eq-ok, read-eq-ok}
use machinepal.Platform.{u256_mod}
use machinepal.Crypto.Values.{EthAddress}
use machinepal.Vibemarket.Maps.{find, put, text_key}
use machinepal.Vibemarket.Market.{Pair, Market, sort_tokens, get_pair_checked, credit}
use machinepal.Vibemarket.Market.Keys.{HasNoBar, AreSound, AreSound-put, get_pair_checked-IsFound}
use machinepal.Vibemarket.Market.Supply.{
  Keeps, supply, of_token, of_token_self, in_pairs-put, reserved-le-total, supply-credit,
}
use machinepal.Vibemarket.Liquidity.{
  Deposit, RemoveLiquidityResult, pay_out, removed, credited_both, found_and_paid, withdrawn,
  share_of, remove_liquidity,
}
use machinepal.Vibemarket.Liquidity.Shares.{withdrawn-IsSound, reserved-withdrawn, share_of-bounds}

-- The write of the pair without the share; what is paid out is still to come.
withdrawal_written :
    (k : Text) (provider : EthAddress) (pair : Pair) (d : Deposit) (s : Market)
    → find k s.pairs ≡ some pair
    → AreSound s.pairs
    → ((t : Text) → supply t s < u256_mod)
    → share_of pair provider d.liquidity ≡ ok d
    → AreSound (put k (withdrawn provider d pair) s.pairs)
      × ((t : Text)
          → supply t (record s { pairs = put k (withdrawn provider d pair) s.pairs })
              + of_token t pair.token0 d.amount0
              + of_token t pair.token1 d.amount1
            ≡ supply t s)
withdrawal_written k provider pair d s there sound fits share =
    let placed = sound k pair there in
    let (same, owned, some_left, le0, le1) =
      share_of-bounds pair provider d.liquidity d placed.backed share in
    let room0 : pair.reserve0 < u256_mod = ground (
      arith,
      reserved-le-total pair.token0 k pair s.pairs there,
      fits pair.token0,
      text_eq_refl pair.token0,
    ) in
    let room1 : pair.reserve1 < u256_mod = ground (
      arith,
      reserved-le-total pair.token1 k pair s.pairs there,
      fits pair.token1,
      text_eq_refl pair.token1,
    ) in
    (
      AreSound-put k (withdrawn provider d pair) s.pairs
          (withdrawn-IsSound k provider d pair placed owned) sound,
      λ t. omega (
        arith,
        in_pairs-put t k pair (withdrawn provider d pair) s.pairs there,
        reserved-withdrawn t k provider d pair room0 room1 le0 le1,
      ),
    )

paid_out :
    (provider k : Text) (pair : Pair) (a_is_0 : Bool) (d : Deposit) (a_min b_min : ℕ)
    (s s' : Market) (r : RemoveLiquidityResult)
    → find k s.pairs ≡ some pair
    → AreSound s.pairs
    → ((t : Text) → supply t s < u256_mod)
    → share_of pair provider d.liquidity ≡ ok d
    → pay_out provider (pair.token0, pair.token1) (k, pair) a_is_0 d a_min b_min s ≡ (ok r, s')
    → Keeps s s'
paid_out provider k pair a_is_0 d a_min b_min s s' r there sound fits share e =
    elim (Bool-cases
      (ltb (removed a_is_0 d).amount_a a_min || ltb (removed a_is_0 d).amount_b b_min)) [
        | inl short ↦ absurd (ground arith)
        | inr enough ↦
            let s1 : Market = record s { pairs = put k (withdrawn provider d pair) s.pairs } in
            let ran : credited_both provider pair.token0 pair.token1 d (removed a_is_0 d) s1
                ≡ (ok r, s') =
              ground arith in
            let (sound1, less) = withdrawal_written k provider pair d s there sound fits share in
            let (u0, s2, e0, r0) =
              continue-eq-ok (credit provider pair.token0 d.amount0 s1) _ ran in
            let (u1, s3, e1, r1) = continue-eq-ok (credit provider pair.token1 d.amount1 s2) _ r0 in
            let same : s3 ≡ s' = cc in
            let paid0 = λ (t : Text).
              supply-credit t provider pair.token0 d.amount0 s1 s2
                (omega
                  (arith, less pair.token0, fits pair.token0, of_token_self pair.token0 d.amount0))
                e0 in
            let paid1 = λ (t : Text).
              supply-credit t provider pair.token1 d.amount1 s2 s3
                (omega (
                  arith,
                  less pair.token1,
                  fits pair.token1,
                  (paid0 pair.token1).0,
                  of_token_self pair.token1 d.amount1,
                ))
                e1 in
            subst (Keeps s) same (
              rw ((paid1 pair.token0).1, (paid0 pair.token0).1) sound1,
              λ t. omega (arith, less t, (paid0 t).0, (paid1 t).0),
            )
      ]

found_and_paid-Keeps :
    (provider a b : Text) (liquidity a_min b_min : ℕ) (s s' : Market) (r : RemoveLiquidityResult)
    → AreSound s.pairs
    → ((t : Text) → supply t s < u256_mod)
    → HasNoBar a
    → HasNoBar b
    → found_and_paid provider a b liquidity a_min b_min s ≡ (ok r, s')
    → Keeps s s'
found_and_paid-Keeps provider a b liquidity a_min b_min s s' r sound fits na nb e =
    let (found, checked, r0) = read-eq-ok (get_pair_checked a b s) s _ e in
    let (d, share, r1) = read-eq-ok (share_of found.1 provider liquidity) s _ r0 in
    let (tokens, sorted, r2) = read-eq-ok (sort_tokens a b) s _ r1 in
    let place = get_pair_checked-IsFound a b found.0 found.1 s na nb sound checked in
    let same : d.liquidity ≡ liquidity =
      (share_of-bounds found.1 provider liquidity d place.placed.backed share).0 in
    let both : ◌≡◌ {A = Text × Text} tokens (found.1.token0, found.1.token1) =
      ok-injective (sym sorted ∙ place.sorted) in
    paid_out provider found.0 found.1 (text_eq a tokens.0) d a_min b_min s s' r place.there sound
      fits (subst (λ n. share_of found.1 provider n ≡ ok d) (sym same) share)
      (subst (λ x. pay_out provider x found (text_eq a tokens.0) d a_min b_min s ≡ (ok r, s')) both
        r2)

pub remove_liquidity-Keeps :
    (provider a b : Text) (liquidity a_min b_min : ℕ) (s s' : Market) (r : RemoveLiquidityResult)
    → AreSound s.pairs
    → ((t : Text) → supply t s < u256_mod)
    → HasNoBar a
    → HasNoBar b
    → remove_liquidity provider a b liquidity a_min b_min s ≡ (ok r, s')
    → Keeps s s'
unfolding remove_liquidity
remove_liquidity-Keeps provider a b liquidity a_min b_min s s' r sound fits na nb e =
    elim (Bool-cases (liquidity == 0)) [
      | inl nothing ↦ absurd (ground arith)
      | inr some_shares ↦
          found_and_paid-Keeps provider a b liquidity a_min b_min s s' r sound fits na nb
            (ground arith)
    ]
