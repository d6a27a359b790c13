-- ===== src/Vibemarket/Liquidity/Adding.antt =====
-- The supply of every token when liquidity is added (VibeSwap::addLiquidity).
use machinepal.Prelude.{
  ℕ, ◌+◌, ◌<◌, ◌≡◌, ◌⊎◌, refl, sym, subst, ap, ap₂, ◌∙◌, Bool, Text, some, arith, ◌==◌, ◌||◌,
  text_eq, text_eq_iff, text_eq_refl, Bool-cases, Option-cases, inl, inr,
}
use machinepal.Result.{ok, Result-cases, ok-injective}
use machinepal.Exec.{continue-eq-ok}
use machinepal.Platform.{u256_mod}
use machinepal.Crypto.Values.{EthAddress}
use machinepal.Vibemarket.Math.{minimum_liquidity}
use machinepal.Vibemarket.Maps.{find, put, text_key, find-put}
use machinepal.Vibemarket.Maps.Sums.{total, total-put}
use machinepal.Vibemarket.Market.{
  Pair, Market, sort_tokens, get_or_create_pair, ensure_balance, debit, pair_key, empty_pair,
}
use machinepal.Vibemarket.Market.Keys.{
  HasNoBar, AreSound, AreSound-put, IsSound, IsFound, IsFound-sort_tokens, sort_tokens_sorted,
  sort_tokens-IsSorted,
}
use machinepal.Vibemarket.Market.Supply.{
  Keeps, supply, reserved, of_token, in_pairs-put, reserved-le-total, supply-debit,
  ensure_balance-eq,
}
use machinepal.Vibemarket.Liquidity.{
  Deposit, Offer, offer, AddLiquidityResult, deposited, settle_deposit, deposit_for, report_deposit,
  add_to_pair, add_liquidity,
}
use machinepal.Vibemarket.Liquidity.Shares.{deposited-IsSound, reserved-deposited}

empty-IsSound :
    (hasher : Text → ℕ) (a b t0 t1 : Text)
    → HasNoBar a
    → HasNoBar b
    → sort_tokens a b ≡ ok (t0, t1)
    → IsSound (pair_key t0 t1) (empty_pair hasher t0 t1)
unfolding total
empty-IsSound hasher a b t0 t1 na nb sorted =
    let order = sort_tokens-IsSorted a b t0 t1 sorted in
    record {
      key = refl;
      no_bar = elim (order.which) [ inl (p, q) ↦ rw p na | inr (p, q) ↦ rw p nb ];
      distinct = order.distinct;
      backed = refl;
      small = omega arith;
    }

created :
    (hasher : Text → ℕ) (a b k : Text) (pair : Pair) (s s1 : Market)
    → HasNoBar a
    → HasNoBar b
    → AreSound s.pairs
    → get_or_create_pair hasher a b s ≡ (ok (k, pair), s1)
    → Keeps s s1
      × IsFound a b k pair s1.pairs
      × ((find k s.pairs ≡ some pair) ⊎ (pair.total_supply ≡ 0))
unfolding get_or_create_pair
created hasher a b k pair s s1 na nb sound e = elim (Result-cases (sort_tokens a b)) [
  | inr (thrown, failed) ↦ absurd (ground arith)
  | inl ((t0, t1), sorted) ↦ elim (Option-cases (find (pair_key t0 t1) s.pairs)) [
    | inr (old, there) ↦
        let same : s ≡ s1 = ground arith in
        let place : IsFound a b k pair s.pairs =
          IsFound-sort_tokens a b t0 t1 k pair s.pairs na nb sound sorted (ground arith)
            (ground arith) in
        rw (← same) ((sound, λ t. refl), place, inl place.there)
    | inl missing ↦
        let new : Pair = empty_pair hasher t0 t1 in
        let key : pair_key t0 t1 ≡ k = ground arith in
        let fresh : new ≡ pair = ground arith in
        let after : record s { pairs = put (pair_key t0 t1) new s.pairs } ≡ s1 = ground arith in
        let well =
          AreSound-put (pair_key t0 t1) new s.pairs (empty-IsSound hasher a b t0 t1 na nb sorted)
            sound in
        let place =
          IsFound-sort_tokens a b t0 t1 (pair_key t0 t1) new (put (pair_key t0 t1) new s.pairs) na
            nb well sorted refl
            (ground (
              arith,
              find-put (pair_key t0 t1) (pair_key t0 t1) new s.pairs,
              text_eq_iff (pair_key t0 t1) (pair_key t0 t1),
            )) in
        rw (← after, ← key, ← fresh)
          (
            (well, λ t. ground (arith, total-put (reserved t) (pair_key t0 t1) new s.pairs)),
            place,
            inr refl,
          )
  ]
]

-- The write that follows the two debits.
deposit_written :
    (k : Text) (provider : EthAddress) (pair : Pair) (d : Deposit) (s s3 : Market)
    → find k s.pairs ≡ some pair
    → AreSound s.pairs
    → ((t : Text) → supply t s < u256_mod)
    → pair.total_supply + d.liquidity + minimum_liquidity < u256_mod
    → s3.pairs ≡ s.pairs
    → ((t : Text)
        → supply t s3 + of_token t pair.token1 d.amount1 + of_token t pair.token0 d.amount0
          ≡ supply t s)
    → Keeps s
        (record s3 { pairs = put k (deposited provider (pair.total_supply == 0) d pair) s3.pairs })
deposit_written k provider pair d s s3 found sound fits share pairs taken =
    let there : find k s3.pairs ≡ some pair = rw pairs found in
    let sound3 : AreSound s3.pairs = rw pairs sound in
    let new : Pair = deposited provider (pair.total_supply == 0) d pair in
    let room0 : pair.reserve0 + d.amount0 < u256_mod = ground (
      arith,
      reserved-le-total pair.token0 k pair s3.pairs there,
      taken pair.token0,
      fits pair.token0,
      text_eq_refl pair.token0,
    ) in
    let room1 : pair.reserve1 + d.amount1 < u256_mod = ground (
      arith,
      reserved-le-total pair.token1 k pair s3.pairs there,
      taken pair.token1,
      fits pair.token1,
      text_eq_refl pair.token1,
    ) in
    (
      AreSound-put k new s3.pairs (deposited-IsSound k provider d pair (sound k pair found) share)
          sound3,
      λ t. omega (
        arith,
        in_pairs-put t k pair new s3.pairs there,
        reserved-deposited t k provider (pair.total_supply == 0) d pair room0 room1,
        taken t,
      ),
    )

settled :
    (provider k : Text) (pair : Pair) (d : Deposit) (s s' : Market)
    → find k s.pairs ≡ some pair
    → AreSound s.pairs
    → ((t : Text) → supply t s < u256_mod)
    → pair.total_supply + d.liquidity + minimum_liquidity < u256_mod
    → settle_deposit provider pair.token0 pair.token1 k pair (pair.total_supply == 0) d s
      ≡ (ok tt, s')
    → Keeps s s'
unfolding settle_deposit
settled provider k pair d s s' found sound fits share e =
    let (u0, s0, e0, r0) = continue-eq-ok (ensure_balance provider pair.token0 d.amount0 s) _ e in
    let (u1, s1, e1, r1) = continue-eq-ok (ensure_balance provider pair.token1 d.amount1 s0) _ r0 in
    let (u2, s2, e2, r2) = continue-eq-ok (debit provider pair.token0 d.amount0 s1) _ r1 in
    let (u3, s3, e3, r3) = continue-eq-ok (debit provider pair.token1 d.amount1 s2) _ r2 in
    let unchanged : s1 ≡ s =
      ensure_balance-eq provider pair.token1 d.amount1 s0 s1 e1
      ∙ ensure_balance-eq provider pair.token0 d.amount0 s s0 e0 in
    let start : (t : Text) → supply t s1 ≡ supply t s = λ t. ap (supply t) unchanged in
    let taken0 = λ (t : Text).
      supply-debit t provider pair.token0 d.amount0 s1 s2
        (omega (arith, start pair.token0, fits pair.token0)) e2 in
    let taken1 = λ (t : Text).
      supply-debit t provider pair.token1 d.amount1 s2 s3
        (omega (arith, start pair.token1, fits pair.token1, (taken0 pair.token1).0)) e3 in
    let pairs : s3.pairs ≡ s.pairs =
      (taken1 pair.token0).1 ∙ ((taken0 pair.token0).1 ∙ ap (λ (m : Market). m.pairs) unchanged) in
    let after : record s3 {
      pairs = put k (deposited provider (pair.total_supply == 0) d pair) s3.pairs;
    }
        ≡ s' =
      cc in
    subst (Keeps s) after (
      deposit_written k provider pair d s s3 found sound fits share pairs
        (λ t. omega (arith, (taken1 t).0, (taken0 t).0, start t)))

-- Every pair has room for new shares, and so has a new one.
abbrev pub RoomFor : ℕ → Market → Type 0
RoomFor liquidity s =
    ((k : Text) (pair : Pair)
      → find k s.pairs ≡ some pair
      → pair.total_supply + liquidity + minimum_liquidity < u256_mod)
    × (liquidity + minimum_liquidity < u256_mod)

add_to_pair-Keeps :
    (provider k : Text) (pair : Pair) (a_is_0 : Bool) (o : Offer) (s s' : Market)
    (r : AddLiquidityResult)
    → find k s.pairs ≡ some pair
    → AreSound s.pairs
    → ((t : Text) → supply t s < u256_mod)
    → pair.total_supply + r.liquidity + minimum_liquidity < u256_mod
    → add_to_pair provider (pair.token0, pair.token1) (k, pair) a_is_0 o s ≡ some (ok r, s')
    → Keeps s s'
unfolding add_to_pair
add_to_pair-Keeps provider k pair a_is_0 o s s' r found sound fits share e =
    elim (Option-cases (deposit_for (pair.total_supply == 0) pair o)) [
      | inl hung ↦ absurd (ground arith)
      | inr (result, made) ↦ elim (Result-cases result) [
        | inr (thrown, failed) ↦ absurd (ground arith)
        | inl (d, fine) ↦
            let ran : report_deposit provider pair.token0 pair.token1 k pair
                  (pair.total_supply == 0) a_is_0 d s
                ≡ (ok r, s') =
              ground arith in
            let (u, s1, first, rest) =
              continue-eq-ok
                (settle_deposit provider pair.token0 pair.token1 k pair (pair.total_supply == 0) d
                  s)
                _ ran in
            let same : s1 ≡ s' = ground arith in
            subst (Keeps s) same
              (settled provider k pair d s s1 found sound fits (ground arith) first)
      ]
    ]

-- Once the tokens have been sorted and the pair has been found or made.
added_after :
    (hasher : Text → ℕ) (provider a b t0 t1 k : Text) (pair : Pair) (a_is_0 : Bool) (o : Offer)
    (s s' : Market) (r : AddLiquidityResult)
    → AreSound s.pairs
    → ((t : Text) → supply t s < u256_mod)
    → HasNoBar a
    → HasNoBar b
    → RoomFor r.liquidity s
    → sort_tokens a b ≡ ok (t0, t1)
    → (get_or_create_pair hasher t0 t1 s).0 ≡ ok (k, pair)
    → add_to_pair provider (t0, t1) (k, pair) a_is_0 o (get_or_create_pair hasher t0 t1 s).1
      ≡ some (ok r, s')
    → Keeps s s'
added_after hasher provider a b t0 t1 k pair a_is_0 o s s' r sound fits na nb room sorted got ran =
    let s1 = (get_or_create_pair hasher t0 t1 s).1 in
    let order = sort_tokens-IsSorted a b t0 t1 sorted in
    let clean : HasNoBar t0 × HasNoBar t1 = elim (order.which) [
      | inl (p, q) ↦ rw (p, q) (na, nb)
      | inr (p, q) ↦ rw (p, q) (nb, na)
    ] in
    let ((sound1, supply1), place, origin) =
      created hasher t0 t1 k pair s s1 clean.0 clean.1 sound (ap₂ (λ x y. (x, y)) got refl) in
    let tokens : ◌≡◌ {A = Text × Text} (t0, t1) (pair.token0, pair.token1) =
      ok-injective (sym (sort_tokens_sorted a b t0 t1 sorted) ∙ place.sorted) in
    let space : pair.total_supply + r.liquidity + minimum_liquidity < u256_mod = elim origin [
      | inl old ↦ room.0 k pair old
      | inr new ↦ omega (arith, room.1)
    ] in
    let kept =
      add_to_pair-Keeps provider k pair a_is_0 o s1 s' r place.there sound1
        (λ t. omega (arith, supply1 t, fits t)) space
        (subst (λ x. add_to_pair provider x (k, pair) a_is_0 o s1 ≡ some (ok r, s')) tokens ran) in
    (kept.0, λ t. kept.1 t ∙ supply1 t)

pub add_liquidity-Keeps :
    (hasher : Text → ℕ) (provider a b : Text) (a_desired b_desired a_min b_min : ℕ) (s s' : Market)
    (r : AddLiquidityResult)
    → AreSound s.pairs
    → ((t : Text) → supply t s < u256_mod)
    → HasNoBar a
    → HasNoBar b
    → RoomFor r.liquidity s
    → add_liquidity hasher provider a b a_desired b_desired a_min b_min s ≡ some (ok r, s')
    → Keeps s s'
unfolding add_liquidity
add_liquidity-Keeps hasher provider a b a_desired b_desired a_min b_min s s' r sound fits na nb room
      e =
    elim (Bool-cases (a_desired == 0 || b_desired == 0)) [
      | inl none_given ↦ absurd (ground arith)
      | inr given ↦ elim (Result-cases (sort_tokens a b)) [
        | inr (thrown, failed) ↦ absurd (ground arith)
        | inl ((t0, t1), sorted) ↦ elim (Result-cases (get_or_create_pair hasher t0 t1 s).0) [
          | inr (thrown, failed) ↦ absurd (ground arith)
          | inl ((k, pair), got) ↦
              let ran : add_to_pair provider (t0, t1) (k, pair) (text_eq a t0)
                    (offer (text_eq a t0) a_desired b_desired a_min b_min)
                    (get_or_create_pair hasher t0 t1 s).1
                  ≡ some (ok r, s') =
                ground arith in
              added_after hasher provider a b t0 t1 k pair _ _ s s' r sound fits na nb room sorted
                got ran
        ]
      ]
    ]
