-- ===== src/Config/Reading/Networks.antt =====
-- The networks that a configuration may name (NetworkConfig::createFromJson).
use machinepal.Prelude.{
  ℕ, ◌≡◌, true, ◌||◌, Text, str, List, [], arith, ◌⊎◌, Option, none, some, text_eq, text_eq_iff,
}
use machinepal.Result.{ok, >>=-eq-ok, rethrow_nested-eq-ok, ok-injective, check_state_json}
use machinepal.Platform.{Platform}
use machinepal.Files.{FileManager}
use machinepal.Url.{UrlParser}
use machinepal.Crypto.Values.{EthAddress}
use machinepal.Crypto.Domain.{Eip712Domain}
use machinepal.Config.Json.{Documents}
use machinepal.Config.Sections.{Checks, is_some}
use machinepal.Config.Reading.{
  NetworkSettings, network_config_from_json, network_settings_of, wallet_address_of, supported,
  supported_domain, funding_wallet_key_of, network_name, facilitator_member,
}
use machinepal.Config.Domains.{base_mainnet, base_sepolia, machine_pal_easy_net}

-- One of the three networks, and a facilitator unless it is the built-in one's.
abbrev pub IsSupported : NetworkSettings → Type 0
IsSupported n =
    ((n.network.name ≡ str "machinepal-easynet")
      ⊎ (n.network.name ≡ str "base-sepolia")
      ⊎ (n.network.name ≡ str "base"))
    × ((n.network.name ≡ str "machinepal-easynet") ⊎ (is_some n.facilitator ≡ true))

module _ (p : Platform) (d : Documents p) (u : UrlParser) (m : FileManager) (checks : Checks) where
  supported-eq :
      (name : Text) (easynet sepolia mainnet domain : Eip712Domain)
      → supported p d u m checks name easynet sepolia mainnet ≡ some domain
      → (name ≡ str "machinepal-easynet") ⊎ (name ≡ str "base-sepolia") ⊎ (name ≡ str "base")
  supported-eq name easynet sepolia mainnet domain h = ground (
    arith,
    text_eq_iff name (str "machinepal-easynet"),
    text_eq_iff name (str "base-sepolia"),
    text_eq_iff name (str "base"),
  )

  domain-eq :
      (name : Text) (o : Option Eip712Domain) (domain : Eip712Domain)
      → supported_domain p d u m checks name o ≡ ok domain
      → o ≡ some domain
  domain-eq name none domain h = cc
  domain-eq name (some found) domain h = ground arith

  settings-IsSupported :
      (network_json : p.Json) (address : EthAddress) (key : Option (List ℕ)) (n : NetworkSettings)
      → network_settings_of p d u m checks network_json address key ≡ ok n
      → IsSupported n
  unfolding network_settings_of
  settings-IsSupported network_json address key n h =
      let (name, e9, r9) = >>=-eq-ok (network_name p d u m checks network_json) _ h in
      let (easynet, ea, ra) = >>=-eq-ok (machine_pal_easy_net p) _ r9 in
      let (sepolia, eb, rb) = >>=-eq-ok (base_sepolia p) _ ra in
      let (mainnet, ec, rc) = >>=-eq-ok (base_mainnet p) _ rb in
      let (domain, ed, rd) = >>=-eq-ok (supported_domain p d u m checks name _) _ rc in
      let (facilitator, ee, re) = >>=-eq-ok (facilitator_member p d u m checks network_json) _ rd in
      let (uf, ef, rf) =
        >>=-eq-ok
          (check_state_json (text_eq name (str "machinepal-easynet") || is_some facilitator) _) _
          re in
      let one_of = supported-eq name easynet sepolia mainnet domain (domain-eq name _ domain ed) in
      let has : (name ≡ str "machinepal-easynet") ⊎ (is_some facilitator ≡ true) =
        ground (arith, ef, text_eq_iff name (str "machinepal-easynet")) in
      rw (← ok-injective rf) (one_of, has)

  pub network-IsSupported :
      (j : p.Json) (n : NetworkSettings)
      → network_config_from_json p d u m checks j ≡ ok n
      → IsSupported n
  unfolding network_config_from_json
  network-IsSupported j n h =
      let e = rethrow_nested-eq-ok [] _ h in
      let (u0, e0, r0) = >>=-eq-ok (check_state_json (p.contains j (str "network")) _) _ e in
      let (network_json, e1, r1) = >>=-eq-ok (p.at j (str "network")) _ r0 in
      let (u2, e2, r2) = >>=-eq-ok (check_state_json (p.is_object network_json) _) _ r1 in
      let (address, e3, r3) = >>=-eq-ok (wallet_address_of p d u m checks network_json) _ r2 in
      let (key, e4, r4) = >>=-eq-ok (funding_wallet_key_of p d u m checks network_json) _ r3 in
      settings-IsSupported network_json address key n r4
