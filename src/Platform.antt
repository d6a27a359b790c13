-- ===== src/Platform.antt =====
-- The libraries that the program calls and this repository does not hold: nlohmann::json, the
-- conversions of boost, OpenSSL and secp256k1 behind two functions, proxygen's header table, and
-- libcurl's transfer. `Platform` has their operations; `IsDocumented` what their manuals promise
-- of the conversions, in the form that theorems assume.
use machinepal.Prelude.{
  ℕ, ◌+◌, ◌-◌, ◌*◌, ◌^◌, ◌<◌, ◌≤◌, ◌≡◌, ◌≢◌, Bool, true, false, Text, List, [], ◌∷◌, All, ◌==◌, ◌↔◌,
  arith,
}
use machinepal.Result.{Result, ok}

-- `negsuc n` is -(n + 1).
pub data ℤ : Type 0 where
  pos : ℕ → ℤ
  negsuc : ℕ → ℤ

abbrev pub is_one : ℤ → Bool
is_one (pos n) = n == 1
is_one (negsuc n) = false

pub is_one_iff : (n : ℤ) → (is_one n ≡ true) ↔ (n ≡ pos 1)
is_one_iff (pos n) = (λ h. ground arith, λ h. ground arith)
is_one_iff (negsuc n) = (λ h. cc, λ h. cc)

pub record Platform : Type 1 where
  pub Json : Type 0
  pub contains : Json → Text → Bool
  pub at : Json → Text → Result Json
  pub is_string : Json → Bool
  pub is_integer : Json → Bool
  pub is_object : Json → Bool
  pub is_null : Json → Bool
  pub get_string : Json → Result Text
  pub get_int : Json → Result ℤ
  pub get_bool : Json → Result Bool
  pub from_object : List (Text × Json) → Json
  pub from_array : List Json → Json
  pub from_text : Text → Json
  pub from_int : ℤ → Json
  pub from_bool : Bool → Json
  pub parse : Text → Result Json
  pub dump : Json → Result Text
  -- boost::beast::detail::base64
  pub base64_encode : Text → Text
  pub base64_decode : Text → Text
  -- boost::algorithm::hex_lower and unhex
  pub hex_lower : List ℕ → Text
  pub unhex : Text → Result (List ℕ)
  -- uint256_t's str() and its constructor from text
  pub dec : ℕ → Text
  pub parse_dec : Text → Result ℕ
  -- export_bits( val, …, 8 ): the bytes of a number, most significant first
  pub export_bits : ℕ → List ℕ
  -- KeccakHash::keccak256 and EthPrivateKey::recoverAddressFromSigRSV
  pub keccak256 : List ℕ → List ℕ
  pub recover_address : List ℕ → List ℕ → Result (List ℕ)
  -- proxygen::HTTPHeaders and HTTPMessage::getDefaultReason
  pub Headers : Type 0
  pub no_headers : Headers
  pub add : Headers → Text → Text → Headers
  pub exists : Headers → Text → Bool
  pub get_single_or_empty : Headers → Text → Text
  pub visited : Headers → List (Text × Text)
  pub get_default_reason : ℕ → Text

abbrev pub u256_mod : ℕ
u256_mod = 2 ^ 256

abbrev pub IsDigit : ℕ → Type 0
IsDigit c = (48 ≤ c) × (c ≤ 57)

-- The number that a text of decimal digits denotes.
unfoldable pub decimal_value_from : ℕ → Text → ℕ
decimal_value_from acc [] = acc
decimal_value_from acc (c ∷ t) = decimal_value_from (acc * 10 + (c - 48)) t

abbrev pub HasNoLeadingZero : Text → Type 0
HasNoLeadingZero [] = ⊥
HasNoLeadingZero (c ∷ []) = Unit
HasNoLeadingZero (c ∷ d ∷ t) = c ≢ 48

pub record IsDecimal (t : Text) : Type 0 where
  pub digits : All IsDigit t
  pub canonical : HasNoLeadingZero t

pub record IsDocumented (p : Platform) : Type 0 where
  pub dec-IsDecimal : (n : ℕ) → IsDecimal (p.dec n)
  pub value-dec : (n : ℕ) → decimal_value_from 0 (p.dec n) ≡ n
  pub parse_dec-value :
      (t : Text)
      → IsDecimal t
      → decimal_value_from 0 t < u256_mod
      → p.parse_dec t ≡ ok (decimal_value_from 0 t)
