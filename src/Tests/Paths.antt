-- ===== src/Tests/Paths.antt =====
-- Conversions of paths and numbers over parsers that take what their manuals say.
use machinepal.Prelude.{
  ℕ, ◌%◌, ◌≡◌, ◌≢◌, ◌↔◌, ◌⊎◌, refl, ap, true, false, Text, str, List, [], ◌∷◌, All, map, any, ◌==◌,
  if◌then◌else◌, text_eq, text_eq_refl, Bool-cases, contains_text, inl, inr, arith,
}
use machinepal.Result.{ok, ok-injective}
use machinepal.Platform.{Platform}
use machinepal.Crypto.Encoding.{u256_from_hex_or_decimal}
use machinepal.Crypto.Encoding.Uint256.{
  IsVisible, IsHexText, IsOtherText, u256_from_hex_or_decimal_iff,
}
use machinepal.Crypto.Keys.Order.{IsByte}
use machinepal.Url.{UriReference, UrlParser, decode_path}
use machinepal.Url.Pieces.{
  Piece, plain, byte_of, IsEncoding, spell, is_slash, is_plain_slash, components, IsParsed,
  IsDocumentedParser, components-map, decode_path_stays_inside,
}
use machinepal.Tests.Demo.{demo, decode_hex}
use machinepal.Tests.World.{url_demo}

-- A parser of paths that have no escapes.
abbrev plain_reference : Text → UriReference
plain_reference path = record {
  encoded_path = path;
  encoded_query = [];
  segments = components is_slash path;
  decoded_path = path;
}

abbrev plain_parser : UrlParser
plain_parser = record url_demo {
  parse_uri_reference =
      λ path. if any (λ c. c == b'%') path then inr (str "escape") else inl (plain_reference path);
}

written_back : (path : Text) → path ≡ spell (map plain path) []
written_back [] = refl
written_back (c ∷ path) = ap (λ t. c ∷ t) (written_back path)

plain_bytes : (path : Text) → path ≡ map byte_of (map plain path)
plain_bytes [] = refl
plain_bytes (c ∷ path) = ap (λ t. c ∷ t) (plain_bytes path)

plain_encoded : (path : Text) → All IsEncoding (map plain path)
plain_encoded [] = tt
plain_encoded (c ∷ path) = (tt, plain_encoded path)

plain_slashes :
    (path : Text) → All (λ piece. is_slash (byte_of piece) ≡ is_plain_slash piece) (map plain path)
plain_slashes [] = tt
plain_slashes (c ∷ path) = (refl, plain_slashes path)

abbrev Segmented : List Text → List Piece → Type 0
Segmented segments c =
    (map byte_of c ≡ [])
    ⊎ ((map byte_of c ≡ str ".")
        ⊎ (any (λ segment. text_eq segment (map byte_of c)) segments ≡ true))

more_segments :
    (s : Text) (segments : List Text) (cs : List (List Piece))
    → All (Segmented segments) cs
    → All (Segmented (s ∷ segments)) cs
more_segments s segments [] h = tt
more_segments s segments (c ∷ cs) (inl e, h) = (inl e, more_segments s segments cs h)
more_segments s segments (c ∷ cs) (inr (inl e), h) = (inr (inl e), more_segments s segments cs h)
more_segments s segments (c ∷ cs) (inr (inr e), h) =
    (inr (inr (ground arith)), more_segments s segments cs h)

all_segments : (cs : List (List Piece)) → All (Segmented (map (map byte_of) cs)) cs
all_segments [] = tt
all_segments (c ∷ cs) = (
  inr (inr (ground (arith, text_eq_refl (map byte_of c)))),
  more_segments (map byte_of c) (map (map byte_of) cs) cs (all_segments cs),
)

plain_reference-IsParsed : (path : Text) → IsParsed path (plain_reference path)
plain_reference-IsParsed path = record {
  before = [];
  pieces = map plain path;
  after = [];
  written = written_back path;
  encoded = plain_encoded path;
  decoded = plain_bytes path;
  segmented =
      let split =
        components-map byte_of is_plain_slash is_slash (map plain path) (plain_slashes path) in
      let same : components is_slash path
          ≡ map (map byte_of) (components is_plain_slash (map plain path)) =
        rw (← plain_bytes path) at split in
      rw same (all_segments (components is_plain_slash (map plain path)));
}

no_escape : {p : Text} {r : UriReference} → ◌≡◌ {A = UriReference ⊎ Text} (inr p) (inl r) → ⊥
no_escape h = cc

same_reference : {r s : UriReference} → ◌≡◌ {A = UriReference ⊎ Text} (inl r) (inl s) → r ≡ s
same_reference h = cc

plain_parser-IsDocumented : IsDocumentedParser plain_parser
plain_parser-IsDocumented path r h = elim (Bool-cases (any (λ c. c == b'%') path)) [
  | inl escape ↦ absurd (no_escape (rw escape at h))
  | inr fine ↦ rw (← same_reference (rw fine at h)) (plain_reference-IsParsed path)
]

path_runs :
    (contains_text (str "/a/r") (str "%2F") ≡ false)
    × (contains_text (str "/a/r") (str "%2f") ≡ false)
    × (decode_path plain_parser (str "/a/r") ≡ inl (str "/a/r"))
unfolding contains_text str decode_path text_eq
path_runs = (refl, refl, refl)

decode_path_stays_inside_example : All (λ t. t ≢ str "..") (components is_slash (str "/a/r"))
decode_path_stays_inside_example =
    decode_path_stays_inside plain_parser (str "/a/r") (str "/a/r") plain_parser-IsDocumented
      path_runs.0 path_runs.1 path_runs.2

-- Conversions that give bytes.
abbrev byte_platform : Platform
byte_platform = record demo { unhex = λ t. ok (map (λ b. b % 256) (decode_hex t)) }

all_bytes : (l : List ℕ) → All IsByte (map (λ b. b % 256) l)
all_bytes [] = tt
all_bytes (b ∷ l) = (omega arith, all_bytes l)

gives_bytes : (t : Text) (bytes : List ℕ) → byte_platform.unhex t ≡ ok bytes → All IsByte bytes
gives_bytes t bytes h = rw (← ok-injective h) (all_bytes (decode_hex t))

u256_from_hex_or_decimal_iff_example :
    (u256_from_hex_or_decimal byte_platform (str "0x0102") ≡ ok 258) ↔ (
      All IsVisible (str "0x0102")
      × (IsHexText byte_platform (str "0x0102") 258 ⊎ IsOtherText byte_platform (str "0x0102") 258))
u256_from_hex_or_decimal_iff_example =
    u256_from_hex_or_decimal_iff byte_platform (str "0x0102") 258 gives_bytes

-- Both sides hold.
number_reads : u256_from_hex_or_decimal byte_platform (str "0x0102") ≡ ok 258
unfolding u256_from_hex_or_decimal str decode_hex
number_reads = refl
