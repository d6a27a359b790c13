-- ===== src/Tests/Configuring.antt =====
-- A configuration of one organization, read and accepted.
use machinepal.Prelude.{
  map, some, text_eq, ℕ, ◌≡◌, ◌↔◌, refl, Bool, true, false, Text, str, List, [], ◌∷◌, All, none,
  ◌==◌, if◌then◌else◌, contains_text, is_empty, starts_with,
}
use machinepal.Config.Organizations.{
  each, make_resource_config, must_contain_resource_type, organization_config_from_json,
  organizations_from_json, pass_through_config_from_json, pass_through_member,
  resource_config_from_json, resources_from_json, validate_org_name,
}
use machinepal.Config.Domains.{base_mainnet, base_sepolia, machine_pal_easy_net, make_eip712_domain}
use machinepal.Config.Resources.{find_organization, index_organizations, make_config}
use machinepal.Crypto.Domain.{get_domain_type_hash, hash_domain}
use machinepal.Crypto.Encoding.{drop_two, is_space, pad32, to_hex, zeros}
use machinepal.Crypto.Values.{is_lower, is_upper, parse_hex_address, to_lower}
use machinepal.Facilitator.Client.{make_easynet_facilitator_client, make_facilitator_client}
use machinepal.Facilitator.Processor.{easynet_facilitator_prefix}
use machinepal.Payment.Messages.{must_contain_string}
use machinepal.Url.{get_location_from_url, is_valid_url}
use machinepal.Result.{Result, ok, err, json_error, what}
use machinepal.Platform.{Platform, pos}
use machinepal.Files.{FileManager, check_file_exists_and_readable_and_resolve}
use machinepal.Crypto.Keys.{
  byte_at, be_is_zero, be_value, drop_bytes, is_valid_range, parse_flexible_private_key,
  private_hex_to_bytes_flexible, take_bytes, trim_copy,
}
use machinepal.Config.Labels.{is_label, host_name_from, is_host_name, is_label_char, label_from}
use machinepal.Config.Labels.Segments.{IsPart, join, is_label_iff}
use machinepal.Config.Json.{
  Documents, get_bool_with_default, get_string_with_default, get_uint16_with_default,
  must_contain_price,
}
use machinepal.Config.Sections.{
  Checks, facilitator_config_from_json, http_config_from_json, https_config_from_json,
  log_config_from_json, make_http_config, make_https_config, make_server_config,
  must_contain_facilitator_type, optional_file, parse_log_level, parse_log_type, required_file,
  server_config_from_json,
}
use machinepal.Config.Reading.{
  LoadedConfig, machine_pal_config_from_json, funding_wallet_key_of, log_section,
  make_machine_pal_config, network_config_from_json, network_settings_of, wallet_address_of,
}
use machinepal.Tests.Demo.{
  parse_demo, leaf_null, demo, Tree, tree_of, leaf_int, leaf_bool, fields, keccak_demo, decode_hex,
  at_key, bytes, encode_hex,
}
use machinepal.Tests.World.{url_demo}
use machinepal.Vibemarket.Maps.{find, put}
use machinepal.Config.Yaml.{
  YamlNode, YamlEntries, yaml_scalar, yaml_sequence, yaml_map, node_and, no_nodes, entry_and,
  no_entries, Loader, yaml_to_json, yaml_node_to_json, scalar_to_json, yaml_tag_is,
}
use machinepal.Config.Loading.{
  load_from_yaml_file, validate_json, apply_env_overrides, apply_string_env, apply_bool_env,
  apply_int_env, getenv_opt, resolve_secrets,
}
use machinepal.Config.Loading.Schema.{validate_json_iff}

-- The separators of the two public networks, by the last byte of their chains.
abbrev keccak_networks : List ℕ → List ℕ
keccak_networks l =
    if byte_at 127 l == 52
    then decode_hex (str "71f17a3b2ff373b803d70a5a07c046c1a2bc8e89c09ef722fcb047abe94c9818")
    else if byte_at 127 l == 5
    then decode_hex (str "02fa7265e7c5d81118673727957699e4d68f74cd74b7db77da710fe8a2c7834f")
    else keccak_demo l

abbrev pub networks : Platform
networks = record demo {
  keccak256 = keccak_networks;
  from_array = λ items. tree_of (map (λ j. (str "item", j)) items);
}

abbrev is_tree_bool : Tree → Bool
is_tree_bool (leaf_bool b) = true
is_tree_bool _ = false

abbrev is_tree_fields : Tree → Bool
is_tree_fields (fields k v rest) = true
is_tree_fields _ = false

abbrev values : Tree → List Tree
values (fields k v rest) = v ∷ values rest
values _ = []

abbrev number_of : Tree → Result ℕ
number_of (leaf_int (pos n)) = ok n
number_of _ = err (json_error [])

abbrev pub documents_demo : Documents networks
documents_demo = record {
  is_boolean = is_tree_bool;
  is_array = is_tree_fields;
  elements = values;
  is_number_float = λ j. false;
  get_uint64 = number_of;
  Double = ℕ;
  get_double = number_of;
  is_not_negative = λ n. true;
  times_1e18 = λ n. n;
}

abbrev pub files_demo : FileManager
files_demo = record {
  file_system = record {
    is_absolute = λ t. true;
    append = λ a b. b;
    weakly_canonical = λ t. ok t;
    absolute = λ t. ok t;
    current_path = ok [];
    exists = λ t. ok true;
    is_directory = λ t. ok false;
    is_regular_file = λ t. ok true;
    is_readable = λ t. true;
    file_size = λ t. ok 1;
    contents = λ t. none;
  };
  canonical_config_path = [];
  canonical_config_dir_path = [];
}

abbrev pub checks_demo : Checks
checks_demo = record {
  inet_pton_ipv4 = λ t. true;
  inet_pton_ipv6 = λ t. false;
  do_thorough_key_cert_format_check = λ c k. ok tt;
}

abbrev plain : Text → YamlNode
plain s = yaml_scalar [] s

abbrev entry : Text → YamlNode → YamlEntries → YamlEntries
entry key value entries = entry_and (plain key) value entries

abbrev organization_yaml : YamlNode
organization_yaml = yaml_map (
    entry (str "name") (plain (str "Acme-1"))
      (entry (str "subdomain") (plain (str "acme")) no_entries))

abbrev config_yaml : YamlNode
config_yaml = yaml_map (
    entry (str "server")
      (yaml_map (
        entry (str "hostname") (plain (str "h.org")) (
          entry (str "http") (yaml_map (entry (str "port") (plain (str "80")) no_entries))
            no_entries)))
      (entry (str "network")
        (yaml_map (
          entry (str "payment_address")
            (yaml_scalar (str "!!str") (str "0x0101010101010101010101010101010101010101"))
            no_entries))
        (entry (str "organizations") (yaml_sequence (node_and organization_yaml no_nodes))
          no_entries)))

-- The validator refuses every document.
abbrev pub loader_demo : Loader networks documents_demo
loader_demo = record {
  as_boolean = λ s. none;
  as_int64 = λ s. if text_eq s (str "80") then some (pos 80) else none;
  as_uint64 = λ s. none;
  as_double = λ s. none;
  is_finite = λ x. true;
  dump_yaml = λ node. [];
  load_file = λ path. ok config_yaml;
  null_json = leaf_null;
  from_double = λ x. leaf_int (pos x);
  set_at = λ j path v. ok j;
  is_empty_json = λ j. false;
  schema_text = str "settle";
  validate = λ schema j. err (json_error []);
  first_line = λ path. none;
}

abbrev read_demo : Result LoadedConfig
read_demo =
    load_from_yaml_file networks documents_demo loader_demo [] url_demo files_demo checks_demo
      (str "/c")

abbrev pub is_ok {ℓ} : {A : Type ℓ} → Result A → Bool
is_ok (ok a) = true
is_ok (err e) = false

reads : is_ok read_demo ≡ true
unfolding load_from_yaml_file validate_json yaml_to_json yaml_node_to_json scalar_to_json
    yaml_tag_is apply_env_overrides apply_string_env apply_bool_env apply_int_env getenv_opt find
    put resolve_secrets parse_demo machine_pal_config_from_json at_key tree_of text_eq str
    server_config_from_json http_config_from_json get_bool_with_default get_uint16_with_default
    make_http_config get_string_with_default make_server_config is_empty is_host_name host_name_from
    log_section resources_from_json pass_through_member base_mainnet base_sepolia
    machine_pal_easy_net make_eip712_domain must_contain_price is_label is_label_char label_from
    each make_resource_config must_contain_resource_type organization_config_from_json
    organizations_from_json pass_through_config_from_json resource_config_from_json
    validate_org_name funding_wallet_key_of make_machine_pal_config network_config_from_json
    network_settings_of wallet_address_of find_organization index_organizations make_config
    facilitator_config_from_json https_config_from_json log_config_from_json make_https_config
    must_contain_facilitator_type optional_file parse_log_level parse_log_type required_file
    get_domain_type_hash hash_domain drop_two is_space pad32 to_hex zeros be_is_zero be_value
    is_valid_range parse_flexible_private_key private_hex_to_bytes_flexible trim_copy is_lower
    is_upper parse_hex_address to_lower make_easynet_facilitator_client make_facilitator_client
    easynet_facilitator_prefix check_file_exists_and_readable_and_resolve must_contain_string
    contains_text starts_with what get_location_from_url is_valid_url encode_hex bytes take_bytes
    drop_bytes keccak_demo decode_hex
reads = refl

is_label_iff_example : (is_label (str "acme-1") ≡ true) ↔ (
    (first : Text) × (rest : List Text) × IsPart first
    × All IsPart rest
    × (str "acme-1" ≡ join first rest))
is_label_iff_example = is_label_iff (str "acme-1")

ok_of {ℓ} : {A : Type ℓ} (r : Result A) → is_ok r ≡ true → (a : A) × (r ≡ ok a)
ok_of (ok a) h = (a, refl)
ok_of (err e) h = cc

pub loaded : (c : LoadedConfig) × (read_demo ≡ ok c)
loaded = ok_of read_demo reads

validate_json_iff_example :
    (validate_json networks documents_demo loader_demo (leaf_int (pos 1)) ≡ ok tt) ↔ (
      (loader_demo.is_empty_json (leaf_int (pos 1)) ≡ false)
      × (schema : Tree) × (networks.parse loader_demo.schema_text ≡ ok schema))
validate_json_iff_example = validate_json_iff networks documents_demo loader_demo (leaf_int (pos 1))
