-- ===== src/Url.antt =====
-- src/url/URLUtils.cpp over the parsers of boost::urls.
pub mod Paths
pub mod Pieces
use machinepal.Prelude.{
  ℕ, ◌-◌, Text, str, List, [], ◌∷◌, ◌++◌, Bool, true, false, ◌&&◌, ◌||◌, not, any, length, leb,
  ◌==◌, if◌then◌else◌, text_eq, is_empty, Option, none, some, ◌⊎◌, inl, inr,
}
use machinepal.Result.{Result, ok, err, invalid_argument}
use machinepal.Crypto.Encoding.{first_is}
use machinepal.Config.Resources.{last_is, drop_last}

-- What a parsed URI reference gives: `segments` are decoded one by one, `decoded_path` as a whole.
pub record UriReference : Type 0 where
  pub encoded_path : Text
  pub encoded_query : Text
  pub segments : List Text
  pub decoded_path : Text

pub data HostType : Type 0 where
  host_none host_name host_ipv4 host_ipv6 host_ipvfuture : HostType

-- boost::urls' parsers; a failed parse of a reference has its error's message.
pub record UrlParser : Type 0 where
  pub parse_uri_reference : Text → UriReference ⊎ Text
  pub parse_ipv4_address : Text → Bool
  pub parse_ipv6_address : Text → Bool
  pub parse_authority : Text → Option HostType
  pub parse_uri : Text → Bool

abbrev is_name : Option HostType → Bool
is_name (some host_name) = true
is_name _ = false

-- h.substr( 1, … )
unfoldable pub drop_first : Text → Text
drop_first [] = []
drop_first (a ∷ t) = t

module _ (u : UrlParser) where
  unfoldable pub get_location_from_url : Text → Result Text
  get_location_from_url url_str = elim (u.parse_uri_reference url_str) [
    | inr message ↦ err (invalid_argument (str "Invalid URL: " ++ url_str))
    | inl r ↦ ok (
        (if is_empty r.encoded_path then str "/" else r.encoded_path)
        ++ (if is_empty r.encoded_query then [] else str "?" ++ r.encoded_query))
  ]

  unfoldable pub is_ip_address : Text → Bool
  unfolding first_is last_is drop_first drop_last
  is_ip_address host =
      if u.parse_ipv4_address host
      then true
      else u.parse_ipv6_address (
          if leb 2 (length host) && (first_is b'[' host && last_is b']' host)
          then drop_last (drop_first host)
          else host)

  unfoldable pub is_domain_name : Text → Bool
  is_domain_name host = is_name (u.parse_authority host)

  unfoldable pub is_valid_url : Text → Bool
  is_valid_url url = u.parse_uri url

  -- The decoded path, or the message of the refusal.
  unfoldable pub decode_path : Text → Text ⊎ Text
  unfolding first_is
  decode_path path =
      if not (first_is b'/' path)
      then inr (str "Path must start with /")
      else elim (u.parse_uri_reference path) [
        | inr message ↦ inr (str "Path contains invalid encoding: " ++ message)
        | inl r ↦
            if any (λ segment. text_eq segment (str "..")) r.segments
            then inr (str "Path traversal attempt (..) detected")
            else if any (λ c. c == 0) r.decoded_path
            then inr (str "Null byte detected")
            else inl r.decoded_path
      ]
