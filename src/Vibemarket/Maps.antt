-- ===== src/Vibemarket/Maps.antt =====
-- std::map as the list of its entries, one for each key.
pub mod Sums
use machinepal.Prelude.{
  ℕ, ◌+◌, ◌≡◌, ◌↔◌, Bool, true, ◌&&◌, Text, List, [], ◌∷◌, Option, none, some, arith, ap₂,
  if◌then◌else◌, text_eq, text_eq_iff,
}

pub record Key (K : Type 0) : Type 0 where
  pub same : K → K → Bool
  pub same_iff : (a b : K) → (same a b ≡ true) ↔ (a ≡ b)

instance abbrev pub text_key : Key Text
text_key = record { same = text_eq; same_iff = text_eq_iff }

abbrev pub both_eq : Text × Text → Text × Text → Bool
both_eq (a, b) (c, d) = text_eq a c && text_eq b d

pub both_eq_iff : (x y : Text × Text) → (both_eq x y ≡ true) ↔ (x ≡ y)
both_eq_iff (a, b) (c, d) = (
  λ h. ground (arith, text_eq_iff a c, text_eq_iff b d),
  λ h. ground (arith, text_eq_iff a c, text_eq_iff b d),
)

-- An owner's address and a token.
instance abbrev pub texts_key : Key (Text × Text)
texts_key = record { same = both_eq; same_iff = both_eq_iff }

module _ {K V : Type 0} ⦃key : Key K⦄ where
  unfoldable pub find : K → List (K × V) → Option V
  find k [] = none
  find k ((j, v) ∷ m) = if key.same j k then some v else find k m

  -- m[k] = v
  unfoldable pub put : K → V → List (K × V) → List (K × V)
  put k v [] = (k, v) ∷ []
  put k v ((j, w) ∷ m) = if key.same j k then (j, v) ∷ m else (j, w) ∷ put k v m

  pub find-put :
      (k j : K) (v : V) (m : List (K × V))
      → find j (put k v m) ≡ (if key.same k j then some v else find j m)
  unfolding find put
  find-put k j v [] = ground arith
  find-put k j v ((i, w) ∷ m) =
      ground (arith, key.same_iff i k, key.same_iff i j, key.same_iff k j, find-put k j v m)
