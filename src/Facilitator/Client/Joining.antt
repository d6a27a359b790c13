-- ===== src/Facilitator/Client/Joining.antt =====
-- The URL of a request to the facilitator (FacilitatorClient::joinUrl).
use machinepal.Prelude.{ℕ, ◌≡◌, ◌≢◌, refl, true, false, Text, str, [], ◌∷◌, ◌++◌, arith}
use machinepal.Config.Resources.{last_is}
use machinepal.Facilitator.Client.{join_url}

last_is-append : (base : Text) → last_is b'/' (base ++ str "/") ≡ true
unfolding last_is str
last_is-append [] = refl
last_is-append (a ∷ []) = refl
last_is-append (a ∷ b ∷ base) = last_is-append (b ∷ base)

append_slash : (base path : Text) → (base ++ str "/") ++ path ≡ base ++ (b'/' ∷ path)
unfolding str
append_slash [] path = refl
append_slash (a ∷ base) path = ground (arith, append_slash base path)

-- A base that is not empty and does not end with a slash, and a path that is not empty and does not
-- start with one, are joined by one slash, whichever of the two is written with it.
pub join_url_slash :
    (a : ℕ) (base : Text) (c : ℕ) (path : Text)
    → last_is b'/' (a ∷ base) ≡ false
    → c ≢ b'/'
    → let joined = (a ∷ base) ++ (b'/' ∷ c ∷ path) in
      (join_url (a ∷ base) (c ∷ path) ≡ joined)
      × (join_url (a ∷ base) (b'/' ∷ c ∷ path) ≡ joined)
      × (join_url ((a ∷ base) ++ str "/") (c ∷ path) ≡ joined)
      × (join_url ((a ∷ base) ++ str "/") (b'/' ∷ c ∷ path) ≡ joined)
unfolding join_url str
join_url_slash a base c path ends starts =
    let last = last_is-append (a ∷ base) in
    let more = append_slash (a ∷ base) (c ∷ path) in
    (ground arith, ground arith, ground arith, ground arith)
