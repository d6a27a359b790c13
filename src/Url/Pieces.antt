-- ===== src/Url/Pieces.antt =====
-- Percent-encoding as RFC 3986 and boost::urls have it, and the components that a path decoded by
-- URLUtils::decodePath has.
use machinepal.Prelude.{
  ℕ, ◌+◌, ◌-◌, ◌*◌, ◌≤◌, ◌≡◌, ◌≢◌, refl, sym, ◌∙◌, Bool, true, false, Text, str, List, [], ◌∷◌,
  ◌++◌, All, map, any, leb, ◌==◌, if◌then◌else◌, text_eq, starts_with, contains_text, ◌⊎◌, inl, inr,
  arith,
}
use machinepal.Url.{UriReference, UrlParser, decode_path}
use machinepal.Url.Paths.{decode_path_iff}

-- A byte of a path as it is written: itself, or % with two hexadecimal digits.
pub data Piece : Type 0 where
  plain : ℕ → Piece
  escaped : ℕ → ℕ → Piece

abbrev hex_value : ℕ → ℕ
hex_value c = if leb c 57 then c - 48 else if leb c 70 then c - 55 else c - 87

abbrev pub byte_of : Piece → ℕ
byte_of (plain c) = c
byte_of (escaped a b) = hex_value a * 16 + hex_value b

abbrev IsHexDigit : ℕ → Type 0
IsHexDigit c = ((48 ≤ c) × (c ≤ 57)) ⊎ (((65 ≤ c) × (c ≤ 70)) ⊎ ((97 ≤ c) × (c ≤ 102)))

abbrev pub IsEncoding : Piece → Type 0
IsEncoding (plain c) = Unit
IsEncoding (escaped a b) = IsHexDigit a × IsHexDigit b

-- The pieces as they are written, with what follows.
abbrev pub spell : List Piece → Text → Text
spell [] after = after
spell (plain c ∷ pieces) after = c ∷ spell pieces after
spell (escaped a b ∷ pieces) after = b'%' ∷ a ∷ b ∷ spell pieces after

abbrev pub is_slash : ℕ → Bool
is_slash c = c == b'/'

abbrev pub is_plain_slash : Piece → Bool
is_plain_slash (plain c) = c == b'/'
is_plain_slash (escaped a b) = false

module _ {A : Type 0} where
  abbrev extend : Bool → A → List (List A) → List (List A)
  extend true a cs = [] ∷ cs
  extend false a [] = (a ∷ []) ∷ []
  extend false a (c ∷ cs) = (a ∷ c) ∷ cs

  -- What stands between the separators.
  abbrev pub components : (A → Bool) → List A → List (List A)
  components separates [] = [] ∷ []
  components separates (a ∷ l) = extend (separates a) a (components separates l)

extend-map :
    {A B : Type 0} (f : A → B) (sep : Bool) (a : A) (cs : List (List A))
    → extend sep (f a) (map (map f) cs) ≡ map (map f) (extend sep a cs)
extend-map f true a cs = refl
extend-map f false a [] = refl
extend-map f false a (c ∷ cs) = refl

pub components-map :
    {A B : Type 0} (f : A → B) (sa : A → Bool) (sb : B → Bool) (l : List A)
    → All (λ a. sb (f a) ≡ sa a) l
    → components sb (map f l) ≡ map (map f) (components sa l)
components-map f sa sb [] h = refl
components-map f sa sb (a ∷ l) (e, h) =
    rw (e, components-map f sa sb l h) (extend-map f (sa a) a (components sa l))

contains-after :
    (before t q : Text) → contains_text (before ++ t) q ≡ false → contains_text t q ≡ false
unfolding contains_text
contains-after [] t q h = h
contains-after (c ∷ before) t q h = contains-after before t q (ground arith)

same_slashes :
    (pieces : List Piece) (after : Text)
    → All IsEncoding pieces
    → contains_text (spell pieces after) (str "%2F") ≡ false
    → contains_text (spell pieces after) (str "%2f") ≡ false
    → All (λ piece. is_slash (byte_of piece) ≡ is_plain_slash piece) pieces
unfolding contains_text starts_with str
same_slashes [] after h upper lower = tt
same_slashes (plain c ∷ pieces) after (e, h) upper lower =
    (refl, same_slashes pieces after h (ground arith) (ground arith))
same_slashes (escaped a b ∷ pieces) after (e, h) upper lower =
    (ground arith, same_slashes pieces after h (ground arith) (ground arith))

-- What boost's parser gives for a text that it takes: the path is a part of it, made of pieces; its
-- decoding decodes each piece; and each component between slashes that are written as such, but for
-- empty ones and those of one dot, is decoded to a segment.
pub record IsParsed (path : Text) (r : UriReference) : Type 0 where
  pub before : Text
  pub pieces : List Piece
  pub after : Text
  pub written : path ≡ before ++ spell pieces after
  pub encoded : All IsEncoding pieces
  pub decoded : r.decoded_path ≡ map byte_of pieces
  pub segmented :
      All
        (λ c.
          (map byte_of c ≡ [])
          ⊎ ((map byte_of c ≡ str ".")
              ⊎ (any (λ segment. text_eq segment (map byte_of c)) r.segments ≡ true)))
        (components is_plain_slash pieces)

abbrev pub IsDocumentedParser : UrlParser → Type 0
IsDocumentedParser u =
    (path : Text) (r : UriReference) → u.parse_uri_reference path ≡ inl r → IsParsed path r

nil_ne_cons : {c : ℕ} {t : Text} → [] ≢ c ∷ t
nil_ne_cons h = cc

one_ne_two : {a b c : ℕ} → ◌≢◌ {A = Text} (a ∷ []) (b ∷ c ∷ [])
one_ne_two h = cc

false_ne_true : false ≢ true
false_ne_true h = cc

no_dots :
    (segments : List Text) (t : Text)
    → any (λ segment. text_eq segment (str "..")) segments ≡ false
    → (t ≡ []) ⊎ ((t ≡ str ".") ⊎ (any (λ segment. text_eq segment t) segments ≡ true))
    → t ≢ str ".."
unfolding str
no_dots segments t clean (inl e) same = absurd (nil_ne_cons (sym e ∙ same))
no_dots segments t clean (inr (inl e)) same = absurd (one_ne_two (sym e ∙ same))
no_dots segments t clean (inr (inr there)) same =
    absurd (false_ne_true (sym clean ∙ rw same at there))

no_dots-All :
    (segments : List Text) (cs : List (List Piece))
    → any (λ segment. text_eq segment (str "..")) segments ≡ false
    → All
        (λ c.
          (map byte_of c ≡ [])
          ⊎ ((map byte_of c ≡ str ".")
              ⊎ (any (λ segment. text_eq segment (map byte_of c)) segments ≡ true)))
        cs
    → All (λ t. t ≢ str "..") (map (map byte_of) cs)
no_dots-All segments [] clean h = tt
no_dots-All segments (c ∷ cs) clean (s, h) =
    (no_dots segments (map byte_of c) clean s, no_dots-All segments cs clean h)

-- Over boost's documented parser, a path that is decoded and in which no slash is written as %2F or
-- %2f has no component ".." once it is decoded.
pub decode_path_stays_inside :
    (u : UrlParser) (path decoded : Text)
    → IsDocumentedParser u
    → contains_text path (str "%2F") ≡ false
    → contains_text path (str "%2f") ≡ false
    → decode_path u path ≡ inl decoded
    → All (λ t. t ≢ str "..") (components is_slash decoded)
decode_path_stays_inside u path decoded documented upper lower h =
    let safe = (decode_path_iff u path decoded).0 h in
    let parsed = documented path safe.reference safe.parsed in
    let rest = spell parsed.pieces parsed.after in
    let upper_rest = contains-after parsed.before rest (str "%2F") (rw parsed.written at upper) in
    let lower_rest = contains-after parsed.before rest (str "%2f") (rw parsed.written at lower) in
    let slashes = same_slashes parsed.pieces parsed.after parsed.encoded upper_rest lower_rest in
    let same : decoded ≡ map byte_of parsed.pieces = sym safe.decoded_same ∙ parsed.decoded in
    let split = components-map byte_of is_plain_slash is_slash parsed.pieces slashes in
    rw (same, split)
      (no_dots-All safe.reference.segments (components is_plain_slash parsed.pieces)
        safe.no_traversal parsed.segmented)
