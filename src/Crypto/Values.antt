-- ===== src/Crypto/Values.antt =====
-- src/crypto: TokenAmount, EIP3009ValidityTime, EIP3009Nonce, EIP712Signature and EthAddress.
-- Amounts and times are numbers below 2^256. An address is its 20 bytes, a nonce its 32, and a
-- signature its 65.
use machinepal.Prelude.{
  ℕ, ◌+◌, ◌-◌, ◌/◌, ◌%◌, Bool, ◌&&◌, ◌||◌, not, Text, str, List, [], ◌∷◌, ◌++◌, map, any, all,
  length, ltb, leb, ◌==◌, if◌then◌else◌, text_eq, starts_with,
}
use machinepal.Result.{Result, ok, err, invalid_argument, ◌>>=◌}
use machinepal.Platform.{Platform}
use machinepal.Crypto.Encoding.{
  from_hex, u256_from_hex_or_decimal, u256_to_decimal, pad32, drop_two,
}

abbrev pub EthAddress : Type 0
EthAddress = List ℕ

abbrev pub Eip3009Nonce : Type 0
Eip3009Nonce = List ℕ

abbrev pub Eip712Signature : Type 0
Eip712Signature = List ℕ

abbrev pub Hash : Type 0
Hash = List ℕ

-- toupper's and tolower's letters in the C locale
unfoldable pub is_upper : ℕ → Bool
is_upper c = leb b'A' c && leb c b'Z'

unfoldable pub is_lower : ℕ → Bool
is_lower c = leb b'a' c && leb c b'z'

unfoldable pub to_lower : ℕ → ℕ
unfolding is_upper
to_lower c = if is_upper c then c + 32 else c

unfoldable pub is_xdigit : ℕ → Bool
is_xdigit c =
    (leb b'0' c && leb c b'9') || ((leb b'a' c && leb c b'f') || (leb b'A' c && leb c b'F'))

-- lower_hex[n], and upper_hex[n] where the nibble of the hash is 8 or more
unfoldable pub checksum_digit : ℕ → ℕ → ℕ
checksum_digit n h =
    if ltb n 10 then b'0' + n else if leb 8 h then b'A' + (n - 10) else b'a' + (n - 10)

-- The loop of toChecksumHex over the bytes of the address and of the hash.
unfoldable pub checksum_digits : List ℕ → List ℕ → Text
unfolding checksum_digit
checksum_digits [] hash = []
checksum_digits (b ∷ bytes) [] = []
checksum_digits (b ∷ bytes) (h ∷ hash) =
    checksum_digit (b / 16) (h / 16) ∷ checksum_digit (b % 16) (h % 16) ∷ checksum_digits bytes hash

module _ (p : Platform) where
  unfoldable pub to_checksum_hex : EthAddress → Text
  unfolding checksum_digits
  to_checksum_hex bytes = str "0x" ++ checksum_digits bytes (p.keccak256 (p.hex_lower bytes))

  unfoldable pub address_to_hex : EthAddress → Bool → Text
  address_to_hex bytes with_prefix = (if with_prefix then str "0x" else []) ++ p.hex_lower bytes

  unfoldable pub parse_hex_address : Text → Result EthAddress
  unfolding starts_with drop_two
  parse_hex_address hex =
      let s =
        if starts_with hex (str "0x") || starts_with hex (str "0X") then drop_two hex else hex in
      if not (length s == 40)
      then err (invalid_argument (str "Address hex must be 40 characters (20 bytes)"))
      else elim (p.unhex s) [
        | ok bytes ↦ ok bytes
        | err e ↦ err (invalid_argument (str "Invalid hex character in address: "))
      ]

  unfoldable pub parse_flexible : Text → Bool → Result EthAddress
  unfolding starts_with drop_two is_xdigit is_upper is_lower to_lower parse_hex_address
  parse_flexible hex validate_checksum =
      let s = if starts_with (map to_lower hex) (str "0x") then drop_two hex else hex in
      if not (length s == 40)
      then err (invalid_argument (str "Address hex must be 40 characters (20 bytes)"))
      else if not (all is_xdigit s)
      then err (invalid_argument (str "Invalid hex character in address"))
      else (do
        let mixed = any is_upper s && any is_lower s
        addr ← parse_hex_address (map to_lower s)
        if validate_checksum && mixed && not (text_eq (drop_two (to_checksum_hex addr)) s)
            then err (invalid_argument (str "Checksum mismatch for address"))
            else ok addr)

  unfoldable pub token_amount_from_hex_or_decimal : Text → Result ℕ
  token_amount_from_hex_or_decimal dec_str = u256_from_hex_or_decimal p dec_str

  unfoldable pub validity_time_from_hex_or_decimal : Text → Result ℕ
  validity_time_from_hex_or_decimal dec_str = u256_from_hex_or_decimal p dec_str

  unfoldable pub token_amount_to_db_string : ℕ → Text
  unfolding u256_to_decimal
  token_amount_to_db_string value = u256_to_decimal p value

  unfoldable pub nonce_from_hex : Text → Result Eip3009Nonce
  unfolding from_hex pad32
  nonce_from_hex hex_str = do
    vec ← from_hex p hex_str
    if ltb 32 (length vec)
        then err (invalid_argument (str "EIP3009Nonce must be at most 32 bytes"))
        else ok (pad32 vec)

  -- EIP712Signature( const std::string& hex ); unhex fills bytes_ from the front
  unfoldable pub signature_from_hex : Text → Result Eip712Signature
  unfolding starts_with drop_two
  signature_from_hex hex =
      if ltb 132 (length hex)
      then err (invalid_argument (str "Hex string too long to be a valid signature"))
      else (let s =
            if starts_with hex (str "0x") || starts_with hex (str "0X")
            then drop_two hex
            else hex in
          if not (length s == 130)
          then err (invalid_argument (str "Hex string must have 130 chars for 65 bytes"))
          else p.unhex s)
