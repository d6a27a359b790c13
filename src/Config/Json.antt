-- ===== src/Config/Json.antt =====
-- src/config/JsonUtils.h: the members of an object as values of a type, or the exception.
use machinepal.Prelude.{
  ℕ, Bool, ◌&&◌, ◌||◌, Text, str, List, ◌++◌, map, leb, ltb, if◌then◌else◌, text_eq, Option, none,
  some,
}
use machinepal.Result.{Result, ok, err, json_error, ◌>>=◌, ◌>>◌, check_state_json}
use machinepal.Platform.{Platform, ℤ, pos}
use machinepal.Crypto.Values.{to_lower}

-- Further operations of nlohmann::json, and what is done with a double.
pub record Documents (p : Platform) : Type 1 where
  pub is_boolean : p.Json → Bool
  pub is_array : p.Json → Bool
  pub elements : p.Json → List p.Json
  pub is_number_float : p.Json → Bool
  pub get_uint64 : p.Json → Result ℕ
  pub Double : Type 0
  pub get_double : p.Json → Result Double
  pub is_not_negative : Double → Bool
  -- value * 1e18, converted to uint256_t
  pub times_1e18 : Double → ℕ

unfoldable pub as_bool : Text → Bool
as_bool s =
    let lower_s = map to_lower s in
    text_eq lower_s (str "1")
    || (text_eq lower_s (str "true") || (text_eq lower_s (str "yes") || text_eq lower_s (str "on")))

abbrev pub uint16_of : ℤ → Option ℕ
uint16_of (pos n) = if ltb 0 n && leb n 65535 then some n else none
uint16_of (ℤ.negsuc n) = none

abbrev pub in_range : Option ℕ → Text → Result ℕ
in_range none key =
    err (json_error (str "Value for key '" ++ (key ++ str "' is out of range for uint16: ")))
in_range (some n) key = ok n

module _ (p : Platform) (d : Documents p) where
  unfoldable pub get_string_with_default : p.Json → Text → Text → Result Text
  get_string_with_default j key default_value =
      if p.contains j key
      then (do
        v ← p.at j key
        check_state_json (p.is_string v) (key ++ str " must be string")
        p.get_string v)
      else ok default_value

  unfoldable pub get_bool_with_default : p.Json → Text → Bool → Result Bool
  get_bool_with_default j key default_value =
      if p.contains j key
      then (do
        v ← p.at j key
        check_state_json (d.is_boolean v) (key ++ str " must be boolean")
        p.get_bool v)
      else ok default_value

  unfoldable pub get_uint16_with_default : p.Json → Text → ℕ → Result ℕ
  get_uint16_with_default j key default_value =
      if p.contains j key
      then (do
        v ← p.at j key
        check_state_json (p.is_integer v) (key ++ str " must be uint16")
        value ← p.get_int v
        in_range (uint16_of value) key)
      else ok default_value

  unfoldable pub must_contain_object : p.Json → Text → Result p.Json
  must_contain_object j key = do
    check_state_json (p.contains j key) (str "Missing required object: " ++ key)
    v ← p.at j key
    check_state_json (p.is_object v) (key ++ str " must be object")
    ok v

  unfoldable pub must_contain_array : p.Json → Text → Result p.Json
  must_contain_array j key = do
    check_state_json (p.contains j key) (str "Missing required array: " ++ key)
    v ← p.at j key
    check_state_json (d.is_array v) (key ++ str " must be array")
    ok v

  unfoldable pub get_string_if_exists : p.Json → Text → Result (Option Text)
  get_string_if_exists j key =
      if p.contains j key
      then (do
        v ← p.at j key
        check_state_json (p.is_string v) (key ++ str " must be string")
        s ← p.get_string v
        ok (some s))
      else ok none

  unfoldable pub must_contain_price : p.Json → Text → Result ℕ
  must_contain_price j key = do
    check_state_json (p.contains j key) (str "Missing required: " ++ key)
    v ← p.at j key
    check_state_json (d.is_number_float v || p.is_integer v)
        (key ++ str " must be integer or float price")
    value ← d.get_double v
    check_state_json (d.is_not_negative value) (key ++ str " must be non-negative")
    ok (d.times_1e18 value)

  -- is_number_unsigned implies is_number_integer
  unfoldable pub must_contain_uint64 : p.Json → Text → Result ℕ
  must_contain_uint64 j key = do
    check_state_json (p.contains j key) (str "Missing required: " ++ key)
    v ← p.at j key
    check_state_json (p.is_integer v) (key ++ str " must be unsigned integer")
    d.get_uint64 v
