-- ===== src/Config/Reading.antt =====
-- src/config/subconfigs: ResourceConfig, PassThroughConfig, OrganizationConfig and NetworkConfig from
-- JSON, and src/config/MachinePalConfig.cpp.
pub mod Networks
pub mod Accepted
use machinepal.Prelude.{
  ℕ, Bool, true, false, ◌||◌, not, Text, str, List, [], ◌∷◌, ◌++◌, map, ltb, length, if◌then◌else◌,
  text_eq, is_empty, Option, none, some,
}
use machinepal.Result.{
  Result, ok, err, json_error, logic_error, require, rethrow_nested, check_state, check_state_json,
  ◌>>=◌, ◌>>◌,
}
use machinepal.Platform.{Platform, u256_mod}
use machinepal.Files.{FileManager, check_file_exists_and_readable_and_resolve}
use machinepal.Url.{UrlParser, get_location_from_url, is_valid_url}
use machinepal.Crypto.Encoding.{to_hex}
use machinepal.Crypto.Values.{EthAddress, to_lower, parse_hex_address}
use machinepal.Crypto.Domain.{Eip712Domain, hash_domain}
use machinepal.Crypto.Keys.{trim_copy, parse_flexible_private_key}
use machinepal.Payment.Messages.{must_contain_string}
use machinepal.Facilitator.Client.{FacilitatorClient, make_easynet_facilitator_client, to_string}
use machinepal.Facilitator.Processor.{easynet_facilitator_prefix}
use machinepal.Config.Labels.{is_label}
use machinepal.Config.Json.{Documents, must_contain_price}
use machinepal.Config.Sections.{
  Checks, ServerConfig, HttpConfig, HttpsConfig, LogConfig, FacilitatorConfig, default_log_config,
  is_some, server_config_from_json, log_config_from_json, facilitator_config_from_json,
}
use machinepal.Config.Domains.{machine_pal_easy_net, base_sepolia, base_mainnet}
use machinepal.Config.Organizations.{
  resources_from_json, organizations_from_json, pass_through_member, default_organization,
}
use machinepal.Config.Resources.{
  ResourceConfig, PassThroughConfig, OrganizationConfig, NetworkConfig, MachinePalConfig,
  make_config,
}

-- NetworkConfig with the members that only the start of the program reads.
pub record NetworkSettings : Type 0 where
  pub network : NetworkConfig
  pub funding_wallet_key : Option (List ℕ)
  pub facilitator : Option FacilitatorConfig

-- MachinePalConfig with its sections.
pub record LoadedConfig : Type 0 where
  pub server : ServerConfig
  pub log : LogConfig
  pub settings : NetworkSettings
  pub config : MachinePalConfig
  pub facilitator_client : FacilitatorClient

-- The protocol and port of the built-in facilitator: HTTPS where it is enabled.
abbrev pub endpoint_of : Option HttpConfig → Option HttpsConfig → Result (Text × ℕ)
endpoint_of http (some https) = ok (str "https://", https.port)
endpoint_of (some http) none = ok (str "http://", http.port)
endpoint_of none none = err (logic_error (str "Neither HTTP nor HTTPS is enabled in server config"))

abbrev pub append_one : {A : Type 0} → List A → A → List A
append_one l a = l ++ (a ∷ [])

module _ (p : Platform) (d : Documents p) (u : UrlParser) (m : FileManager) (checks : Checks) where
  abbrev opened : Option Text → Result Text
  opened none = err (json_error (str "Unable to open funding wallet key file"))
  opened (some contents) = ok contents

  unfoldable pub funding_wallet_key_of : p.Json → Result (Option (List ℕ))
  funding_wallet_key_of network_json =
      if p.contains network_json (str "client_wallet_key_file")
      then (do
        v ← p.at network_json (str "client_wallet_key_file")
        check_state_json (p.is_string v) (str "'client_wallet_key_file' must be a string path")
        file ← p.get_string v
        path ← check_file_exists_and_readable_and_resolve m file
        contents ← opened (m.file_system.contents path)
        let hex = trim_copy contents
        check_state_json (not (is_empty hex)) (str "Funding wallet key file is empty")
        key ← parse_flexible_private_key p hex
        ok (some key))
      else ok none

  -- networkJson.value( "name", "machinepal-easynet" )
  abbrev pub network_name : p.Json → Result Text
  network_name network_json =
      if p.contains network_json (str "name")
      then (do v ← p.at network_json (str "name"); p.get_string v)
      else ok (str "machinepal-easynet")

  abbrev pub supported : Text → Eip712Domain → Eip712Domain → Eip712Domain → Option Eip712Domain
  supported name easynet sepolia mainnet =
      if text_eq name (str "machinepal-easynet")
      then some easynet
      else if text_eq name (str "base-sepolia")
      then some sepolia
      else if text_eq name (str "base")
      then some mainnet
      else none

  abbrev pub supported_domain : Text → Option Eip712Domain → Result Eip712Domain
  supported_domain name none = err (json_error (str "Unsupported network name in config:" ++ name))
  supported_domain name (some domain) = ok domain

  abbrev pub facilitator_member : p.Json → Result (Option FacilitatorConfig)
  facilitator_member network_json =
      if p.contains network_json (str "facilitator")
      then (do
        v ← p.at network_json (str "facilitator")
        if p.is_object v
            then (do
              facilitator ← facilitator_config_from_json p d m checks v
              ok (some facilitator))
            else ok none)
      else ok none

  unfoldable pub wallet_address_of : p.Json → Result EthAddress
  wallet_address_of network_json = do
    check_state_json (p.contains network_json (str "payment_address"))
        (str "Missing required 'payment_address' in network config")
    v ← p.at network_json (str "payment_address")
    check_state_json (p.is_string v) (str "'payment_address' in network config must be a string")
    address_text ← p.get_string v
    parse_hex_address p address_text

  -- The domain by the name of the network, and the facilitator.
  unfoldable pub network_settings_of :
      p.Json → EthAddress → Option (List ℕ) → Result NetworkSettings
  network_settings_of network_json address funding_wallet_key = do
    name ← network_name network_json
    easynet ← machine_pal_easy_net p
    sepolia ← base_sepolia p
    mainnet ← base_mainnet p
    domain ← supported_domain name (supported name easynet sepolia mainnet)
    facilitator ← facilitator_member network_json
    check_state_json (text_eq name (str "machinepal-easynet") || is_some facilitator)
        (str "Facilitator config is required")
    ok (record {
      network = record { name = name; wallet_address = address; eip712_domain = domain };
      funding_wallet_key = funding_wallet_key;
      facilitator = facilitator;
    })

  unfoldable pub network_config_from_json : p.Json → Result NetworkSettings
  network_config_from_json j = rethrow_nested [] (do
    check_state_json (p.contains j (str "network"))
        (str "Missing required 'network' config section")
    network_json ← p.at j (str "network")
    check_state_json (p.is_object network_json) (str "'network' config section must be an object")
    address ← wallet_address_of network_json
    funding_wallet_key ← funding_wallet_key_of network_json
    network_settings_of network_json address funding_wallet_key)

  unfoldable pub log_section : p.Json → Result LogConfig
  log_section j =
      if p.contains j (str "log")
      then (do v ← p.at j (str "log"); log_config_from_json p d m checks v)
      else ok default_log_config

  -- The constructor: the maps of organizations, and the client of the built-in facilitator.
  unfoldable pub make_machine_pal_config :
      ServerConfig → LogConfig → List OrganizationConfig → NetworkSettings → Result LoadedConfig
  make_machine_pal_config server log organizations settings = do
    config ← make_config server.host_name settings.network organizations
    endpoint ← endpoint_of server.http server.https
    client ← make_easynet_facilitator_client (
        endpoint.0
        ++ (server.host_name ++ (str ":" ++ (to_string endpoint.1 ++ easynet_facilitator_prefix))))
    ok (record {
      server = server;
      log = log;
      settings = settings;
      config = config;
      facilitator_client = client;
    })

  unfoldable pub machine_pal_config_from_json : p.Json → Result LoadedConfig
  machine_pal_config_from_json j = rethrow_nested [] (do
    check_state_json (p.contains j (str "server")) (str "Missing required 'server' config section")
    server_json ← p.at j (str "server")
    server ← server_config_from_json p d m checks server_json
    log ← log_section j
    resources ← resources_from_json p d u m j
    pass_through_config ← pass_through_member p d j
    settings ← network_config_from_json j
    organizations ← organizations_from_json p d u m j
    make_machine_pal_config server log
        (append_one organizations (default_organization resources pass_through_config)) settings)
