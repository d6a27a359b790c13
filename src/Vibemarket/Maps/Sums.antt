-- ===== src/Vibemarket/Maps/Sums.antt =====
-- Sums over the entries of a map.
use machinepal.Prelude.{ℕ, ◌+◌, ◌≤◌, ◌≡◌, List, [], ◌∷◌, Option, none, some, arith}
use machinepal.Vibemarket.Maps.{Key, find, put}

module _ {K V : Type 0} ⦃key : Key K⦄ (weight : K → V → ℕ) where
  unfoldable pub total : List (K × V) → ℕ
  total [] = 0
  total ((k, v) ∷ m) = weight k v + total m

  abbrev pub weight_of : K → Option V → ℕ
  weight_of k none = 0
  weight_of k (some v) = weight k v

  -- A write takes the weight of the old entry out and puts that of the new one in.
  pub total-put :
      (k : K) (v : V) (m : List (K × V))
      → total (put k v m) + weight_of k (find k m) ≡ total m + weight k v
  unfolding total find put
  total-put k v [] = omega arith
  total-put k v ((j, w) ∷ m) = ground (arith, key.same_iff j k, total-put k v m)

  pub weight_of-le-total : (k : K) (m : List (K × V)) → weight_of k (find k m) ≤ total m
  unfolding total find
  weight_of-le-total k [] = omega arith
  weight_of-le-total k ((j, w) ∷ m) = ground (arith, key.same_iff j k, weight_of-le-total k m)
