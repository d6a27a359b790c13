-- ===== src/Url/Paths.antt =====
-- The paths that URLUtils::decodePath lets through.
use machinepal.Prelude.{
  ◌≡◌, refl, Text, str, true, false, any, ◌==◌, text_eq, ◌⊎◌, inl, inr, ◌↔◌, arith,
}
use machinepal.Crypto.Encoding.{first_is}
use machinepal.Url.{UriReference, UrlParser, decode_path}

-- What a path must satisfy, with what it decodes to.
pub record IsSafePath (u : UrlParser) (path decoded : Text) : Type 0 where
  pub absolute : first_is b'/' path ≡ true
  pub reference : UriReference
  pub parsed : u.parse_uri_reference path ≡ inl reference
  pub no_traversal : any (λ segment. text_eq segment (str "..")) reference.segments ≡ false
  pub no_null : any (λ c. c == 0) decoded ≡ false
  pub decoded_same : reference.decoded_path ≡ decoded

reference_cases :
    (r : UriReference ⊎ Text) → ((a : UriReference) × (r ≡ inl a)) ⊎ ((m : Text) × (r ≡ inr m))
reference_cases (inl a) = inl (a, refl)
reference_cases (inr m) = inr (m, refl)

let_through :
    (u : UrlParser) (path decoded : Text)
    → decode_path u path ≡ inl decoded
    → IsSafePath u path decoded
unfolding decode_path
let_through u path decoded h = elim (reference_cases (u.parse_uri_reference path)) [
  | inr (m, e) ↦ absurd (ground (arith, e, h))
  | inl (r, e) ↦ record {
    absolute = ground (arith, e, h);
    reference = r;
    parsed = e;
    no_traversal = ground (arith, e, h);
    no_null = ground (arith, e, h);
    decoded_same = ground (arith, e, h);
  }
]

safe_passes :
    (u : UrlParser) (path decoded : Text)
    → IsSafePath u path decoded
    → decode_path u path ≡ inl decoded
unfolding decode_path
safe_passes u path decoded s =
    rw (s.absolute, s.parsed, s.no_traversal) (rw s.decoded_same (rw s.no_null))

-- A path is decoded exactly when it begins with a slash, the parser takes it, no decoded segment is
-- "..", and its decoding, which is the result, has no zero byte.
pub decode_path_iff :
    (u : UrlParser) (path decoded : Text)
    → (decode_path u path ≡ inl decoded) ↔ IsSafePath u path decoded
decode_path_iff u path decoded = (let_through u path decoded, safe_passes u path decoded)
