-- ===== src/Config/Domains.antt =====
-- src/crypto/EIP712Domain: the domains of the networks that a configuration may name.
use machinepal.Prelude.{ℕ, Bool, true, Text, str, [], text_eq, Option, none, some}
use machinepal.Result.{Result, ok, check_state, ◌>>=◌, ◌>>◌}
use machinepal.Platform.{Platform}
use machinepal.Crypto.Encoding.{to_hex}
use machinepal.Crypto.Values.{EthAddress, parse_hex_address}
use machinepal.Crypto.Domain.{Eip712Domain, hash_domain}

-- The separator that is expected, where one is.
abbrev agrees : Option Text → Text → Bool
agrees none separator = true
agrees (some expected) separator = text_eq separator expected

abbrev domain_of : Text → Text → ℕ → EthAddress → Text → Eip712Domain
domain_of name version chain_id contract separator = record {
  name = name;
  version = version;
  chain_id = chain_id;
  asset_address = contract;
  domain_separator = separator;
}

module _ (p : Platform) where
  unfoldable pub make_eip712_domain :
      Text → Text → ℕ → EthAddress → Option Text → Result Eip712Domain
  make_eip712_domain name version chain_id contract expected = do
    hash ← hash_domain p (domain_of name version chain_id contract [])
    let separator = to_hex p hash true
    check_state (agrees expected separator) (str "domainSeparator_ == domainSeparator.value()")
    ok (domain_of name version chain_id contract separator)

  unfoldable pub machine_pal_easy_net : Result Eip712Domain
  machine_pal_easy_net = do
    contract ← parse_hex_address p (str "0x036CbD53842c5426634e7929541eC2318f3dCF7e")
    make_eip712_domain (str "USDC") (str "2") 84542 contract none

  unfoldable pub base_sepolia : Result Eip712Domain
  base_sepolia = do
    contract ← parse_hex_address p (str "0x036CbD53842c5426634e7929541eC2318f3dCF7e")
    make_eip712_domain (str "USDC") (str "2") 84532 contract
        (some (str "0x71f17a3b2ff373b803d70a5a07c046c1a2bc8e89c09ef722fcb047abe94c9818"))

  unfoldable pub base_mainnet : Result Eip712Domain
  base_mainnet = do
    contract ← parse_hex_address p (str "0x833589fCD6eDb6E08f4c7C32D4f71b54bdA02913")
    make_eip712_domain (str "USD Coin") (str "2") 8453 contract
        (some (str "0x02fa7265e7c5d81118673727957699e4d68f74cd74b7db77da710fe8a2c7834f"))
