-- ===== src/Config/Labels/Segments.antt =====
-- The texts that the regular expression of names and subdomains matches
-- (OrganizationConfig::validateOrgName and createFromJson).
use machinepal.Prelude.{
  ℕ, ◌≡◌, ◌≢◌, ◌↔◌, refl, Bool, true, false, Text, List, [], ◌∷◌, ◌++◌, All, ◌==◌, arith,
  Bool-cases, inl, inr,
}
use machinepal.Crypto.Values.{is_lower}
use machinepal.Config.Labels.{is_label_char, label_from, is_label}

-- Parts joined by hyphens.
unfoldable pub join : Text → List Text → Text
join first [] = first
join first (next ∷ rest) = first ++ (b'-' ∷ join next rest)

abbrev pub IsLabelChar : ℕ → Type 0
IsLabelChar c = is_label_char c ≡ true

-- A part: characters of the class, one at least.
abbrev pub IsPart : Text → Type 0
IsPart part = All IsLabelChar part × (part ≢ [])

-- What is left to read, after a character of the class or not.
abbrev IsRest : Bool → Text → Type 0
IsRest after t =
    (first : Text) × (rest : List Text) × All IsLabelChar first
    × (after ≡ false → first ≢ [])
    × All IsPart rest
    × (t ≡ join first rest)

join-cons : (c : ℕ) (first : Text) (rest : List Text) → join (c ∷ first) rest ≡ c ∷ join first rest
unfolding join
join-cons c first [] = refl
join-cons c first (next ∷ rest) = refl

label_from-IsRest : (after : Bool) (t : Text) → label_from after t ≡ true → IsRest after t
unfolding label_from join
label_from-IsRest after [] h = ([], [], tt, (λ e. cc), tt, refl)
label_from-IsRest after (c ∷ t) h = elim (Bool-cases (c == b'-')) [
  | inl hyphen ↦
      let (first, rest, chars, some_char, parts, same) = label_from-IsRest false t (ground arith) in
      ([], first ∷ rest, tt, (λ e. ground arith), ((chars, some_char refl), parts), ground arith)
  | inr char ↦
      let (first, rest, chars, some_char, parts, same) = label_from-IsRest true t (ground arith) in
      (
        c ∷ first,
        rest,
        (ground arith, chars),
        (λ e. cc),
        parts,
        ground (arith, join-cons c first rest),
      )
]

not_hyphen : (c : ℕ) → IsLabelChar c → (c == b'-') ≡ false
unfolding is_label_char is_lower
not_hyphen c h = ground arith

label_from-join :
    (rest : List Text) (first : Text) (after : Bool)
    → All IsLabelChar first
    → (after ≡ false → first ≢ [])
    → All IsPart rest
    → label_from after (join first rest) ≡ true
unfolding label_from join
label_from-join [] [] true chars some_char parts = refl
label_from-join [] [] false chars some_char parts = absurd (some_char refl refl)
label_from-join (next ∷ rest) [] true chars some_char ((more, not_empty), parts) =
    label_from-join rest next false more (λ e. not_empty) parts
label_from-join (next ∷ rest) [] false chars some_char parts = absurd (some_char refl refl)
label_from-join rest (c ∷ first) after (char, chars) some_char parts =
    let tail = label_from-join rest first true chars (λ e. cc) parts in
    rw (join-cons c first rest) (ground (arith, not_hyphen c char, char, tail))

-- The names that are accepted are those of one or more parts joined by single hyphens, each part of
-- one or more lower-case letters and digits.
pub is_label_iff :
    (t : Text)
    → (is_label t ≡ true) ↔ (
        (first : Text) × (rest : List Text) × IsPart first
        × All IsPart rest
        × (t ≡ join first rest))
unfolding is_label
is_label_iff t = (
  λ h.
      let (first, rest, chars, some_char, parts, same) = label_from-IsRest false t h in
      (first, rest, (chars, some_char refl), parts, same),
  λ h.
      let (first, rest, (chars, not_empty), parts, same) = h in
      rw same (label_from-join rest first false chars (λ e. not_empty) parts),
)
