-- ===== src/Tests/Demo.antt =====
-- A concrete instance of the libraries: decimals and hexadecimals as their manuals say, JSON as a
-- tree, and texts that stand for the few documents that the tests parse.
use machinepal.Prelude.{
  ℕ, zero, suc, ◌+◌, ◌-◌, ◌*◌, ◌/◌, ◌%◌, ◌<◌, ◌≤◌, ◌≡◌, ◌≢◌, refl, ◌∙◌, ap, Bool, true, false, Text,
  str, List, [], ◌∷◌, All, length, ltb, leb, ◌==◌, if◌then◌else◌, text_eq, Option, none, some, inl,
  inr, Bool-cases, arith,
}
use machinepal.Result.{Result, ok, err, json_error}
use machinepal.Platform.{
  ℤ, pos, Platform, IsDigit, HasNoLeadingZero, IsDocumented, decimal_value_from,
}

-- The decimal digits of a number in front of a text.
unfoldable pub digits : ℕ → ℕ → Text → Text
digits zero n rest = rest
digits (suc fuel) n rest =
    let more = digits fuel (n / 10) ((48 + n % 10) ∷ rest) in
    if ltb n 10 then (48 + n) ∷ rest else more

value-digits :
    (fuel n : ℕ) (rest : Text)
    → n < fuel
    → decimal_value_from 0 (digits fuel n rest) ≡ decimal_value_from n rest
unfolding digits decimal_value_from
value-digits zero n rest h = omega arith
value-digits (suc fuel) n rest h = elim (Bool-cases (ltb n 10)) [
  | inl small ↦ rw small (ap (λ m. decimal_value_from m rest) (omega arith))
  | inr large ↦ rw large (
      value-digits fuel (n / 10) ((48 + n % 10) ∷ rest) (ground arith)
      ∙ ap (λ m. decimal_value_from m rest) (omega arith))
]

all-digits : (fuel n : ℕ) (rest : Text) → All IsDigit rest → All IsDigit (digits fuel n rest)
unfolding digits
all-digits zero n rest h = h
all-digits (suc fuel) n rest h = elim (Bool-cases (ltb n 10)) [
  | inl small ↦ rw small ((omega arith, ground arith), h)
  | inr large ↦
      rw large (all-digits fuel (n / 10) ((48 + n % 10) ∷ rest) ((omega arith, omega arith), h))
]

starts_nonzero : (c : ℕ) (rest : Text) → c ≢ 48 → HasNoLeadingZero (c ∷ rest)
starts_nonzero c [] h = tt
starts_nonzero c (d ∷ rest) h = h

canonical-digits :
    (fuel n : ℕ) (rest : Text) → n < fuel → 1 ≤ n → HasNoLeadingZero (digits fuel n rest)
unfolding digits
canonical-digits zero n rest h g = absurd (omega arith)
canonical-digits (suc fuel) n rest h g = elim (Bool-cases (ltb n 10)) [
  | inl small ↦ rw small (starts_nonzero (48 + n) rest (omega arith))
  | inr large ↦
      rw large (canonical-digits fuel (n / 10) ((48 + n % 10) ∷ rest) (ground arith) (ground arith))
]

canonical-dec : (n : ℕ) → HasNoLeadingZero (digits (suc n) n [])
unfolding digits
canonical-dec zero = tt
canonical-dec (suc n) = canonical-digits (suc (suc n)) (suc n) [] (omega arith) (omega arith)

abbrev nibble : ℕ → ℕ
nibble c = if leb 97 c then c - 87 else if leb 65 c then c - 55 else c - 48

abbrev hex_digit : ℕ → ℕ
hex_digit n = if ltb n 10 then 48 + n else 87 + n

unfoldable pub encode_hex : List ℕ → Text
encode_hex [] = []
encode_hex (b ∷ bytes) = hex_digit (b / 16) ∷ hex_digit (b % 16) ∷ encode_hex bytes

unfoldable pub decode_hex : Text → List ℕ
decode_hex [] = []
decode_hex (a ∷ []) = []
decode_hex (a ∷ b ∷ t) = (nibble a * 16 + nibble b) ∷ decode_hex t

pub data Tree : Type 0 where
  leaf_text : Text → Tree
  leaf_int : ℤ → Tree
  leaf_bool : Bool → Tree
  fields : Text → Tree → Tree → Tree
  leaf_null : Tree

-- `fields key value rest` is an object's first field and the others.
unfoldable pub at_key : Tree → Text → Option Tree
at_key (fields k v rest) key = if text_eq k key then some v else at_key rest key
at_key _ key = none

unfoldable pub tree_of : List (Text × Tree) → Tree
tree_of [] = leaf_null
tree_of ((k, v) ∷ more) = fields k v (tree_of more)

abbrev is_some {ℓ} : {A : Type ℓ} → Option A → Bool
is_some none = false
is_some (some a) = true

abbrev found {ℓ} : {A : Type ℓ} → Option A → Result A
found none = err (json_error [])
found (some a) = ok a

abbrev text_of : Tree → Result Text
text_of (leaf_text t) = ok t
text_of _ = err (json_error [])

abbrev int_of : Tree → Result ℤ
int_of (leaf_int n) = ok n
int_of _ = err (json_error [])

abbrev bool_of : Tree → Result Bool
bool_of (leaf_bool b) = ok b
bool_of _ = err (json_error [])

abbrev is_leaf_text : Tree → Bool
is_leaf_text (leaf_text t) = true
is_leaf_text _ = false

abbrev is_leaf_int : Tree → Bool
is_leaf_int (leaf_int n) = true
is_leaf_int _ = false

abbrev is_fields : Tree → Bool
is_fields (fields k v rest) = true
is_fields _ = false

abbrev is_leaf_null : Tree → Bool
is_leaf_null leaf_null = true
is_leaf_null _ = false

-- Twenty equal bytes: an address, and their hexadecimal text.
unfoldable pub bytes : ℕ → ℕ → List ℕ
bytes zero b = []
bytes (suc n) b = b ∷ bytes n b

abbrev pub authorization_tree : Tree
authorization_tree = tree_of (
    (str "from", leaf_text (encode_hex (bytes 20 1)))
    ∷ (str "to", leaf_text (encode_hex (bytes 20 2)))
    ∷ (str "value", leaf_text (str "7"))
    ∷ (str "validAfter", leaf_text (str "1"))
    ∷ (str "validBefore", leaf_text (str "9"))
    ∷ (str "nonce", leaf_text (str "05"))
    ∷ [])

abbrev pub payment_tree : Tree
payment_tree = tree_of (
    (str "x402Version", leaf_int (pos 1))
    ∷ (str "scheme", leaf_text (str "exact"))
    ∷ (str "network", leaf_text (str "easynet"))
    ∷ (
      str "payload",
      tree_of (
          (str "signature", leaf_text (encode_hex (bytes 65 1)))
          ∷ (str "authorization", authorization_tree)
          ∷ []),
    )
    ∷ [])

-- What a facilitator answers, in favour or not.
abbrev pub answer_tree : Bool → Tree
answer_tree success = tree_of (
    (str "success", leaf_bool success)
    ∷ (str "transaction", leaf_text [])
    ∷ (str "network", leaf_text [])
    ∷ (str "payer", leaf_text [])
    ∷ [])

abbrev pub requirements_tree : Tree
requirements_tree = tree_of (
    (str "scheme", leaf_text (str "exact"))
    ∷ (str "network", leaf_text (str "easynet"))
    ∷ (str "maxAmountRequired", leaf_text (str "7"))
    ∷ (str "resource", leaf_text (str "r"))
    ∷ (str "description", leaf_text [])
    ∷ (str "mimeType", leaf_text [])
    ∷ (str "payTo", leaf_text (encode_hex (bytes 20 2)))
    ∷ (str "maxTimeoutSeconds", leaf_int (pos 600))
    ∷ (str "asset", leaf_text (encode_hex (bytes 20 3)))
    ∷ (str "extra", leaf_null)
    ∷ [])

abbrev pub settlement_tree : Tree
settlement_tree =
    tree_of
      ((str "paymentPayload", payment_tree) ∷ (str "paymentRequirements", requirements_tree) ∷ [])

unfoldable pub parse_demo : Text → Result Tree
parse_demo t =
    if text_eq t (str "pay")
    then ok payment_tree
    else if text_eq t (str "settle")
    then ok settlement_tree
    else if text_eq t (str "answer")
    then ok (answer_tree false)
    else if text_eq t (str "accepted")
    then ok (answer_tree true)
    else err (json_error [])

-- An answer whose first field is true.
abbrev is_accepted : Tree → Bool
is_accepted (fields k (leaf_bool true) rest) = true
is_accepted _ = false

-- The first text under a key, or the empty one.
unfoldable pub single : Text → List (Text × Text) → Text
single key [] = []
single key ((k, v) ∷ headers) = if text_eq k key then v else single key headers

unfoldable pub keccak_demo : List ℕ → List ℕ
keccak_demo l =
    if text_eq l
      (str "EIP712Domain(string name,string version,uint256 chainId,address verifyingContract)")
    then decode_hex (str "8b73c3c69bb8fe3d512ecc4cf759cc79239f7b179b0ffacaa9a75d522b39400f")
    else bytes 32 0

-- Whoever has signed is named by the first twenty bytes of the signature.
unfoldable pub first_bytes : ℕ → List ℕ → List ℕ
first_bytes zero l = []
first_bytes (suc n) [] = []
first_bytes (suc n) (b ∷ l) = b ∷ first_bytes n l

abbrev pub demo : Platform
demo = record {
  Json = Tree;
  contains = λ j key. is_some (at_key j key);
  at = λ j key. found (at_key j key);
  is_string = is_leaf_text;
  is_integer = is_leaf_int;
  is_object = is_fields;
  is_null = is_leaf_null;
  get_string = text_of;
  get_int = int_of;
  get_bool = bool_of;
  from_object = tree_of;
  from_array = λ items. leaf_null;
  from_text = leaf_text;
  from_int = leaf_int;
  from_bool = leaf_bool;
  parse = parse_demo;
  dump = λ j. ok (if is_accepted j then str "accepted" else str "answer");
  base64_encode = λ t. t;
  base64_decode = λ t. t;
  hex_lower = encode_hex;
  unhex = λ t. ok (decode_hex t);
  dec = λ n. digits (suc n) n [];
  parse_dec = λ t. ok (decimal_value_from 0 t);
  export_bits = λ n. if n == 0 then [] else n % 256 ∷ [];
  keccak256 = keccak_demo;
  recover_address = λ hash signature. ok (first_bytes 20 signature);
  Headers = List (Text × Text);
  no_headers = [];
  add = λ headers key value. (key, value) ∷ headers;
  exists = λ headers key. ltb 0 (length (single key headers));
  get_single_or_empty = λ headers key. single key headers;
  visited = λ headers. headers;
  get_default_reason = λ status. [];
}

pub demo-IsDocumented : IsDocumented demo
unfolding decimal_value_from
demo-IsDocumented = record {
  dec-IsDecimal = λ n. record { digits = all-digits (suc n) n [] tt; canonical = canonical-dec n };
  value-dec = λ n. value-digits (suc n) n [] (omega arith);
  parse_dec-value = λ t d small. refl;
}
