-- ===== src/Config/Sections.antt =====
-- src/config/subconfigs: HTTPConfig, HTTPSConfig, ServerConfig, LogConfig and FacilitatorConfig.
pub mod Served
use machinepal.Prelude.{
  ℕ, Bool, true, false, ◌||◌, not, Text, str, [], ◌++◌, ltb, if◌then◌else◌, text_eq, is_empty,
  Option, none, some,
}
use machinepal.Result.{
  Result, ok, err, invalid_argument, json_error, require, rethrow_nested, check_state,
  check_state_json, ◌>>=◌, ◌>>◌,
}
use machinepal.Platform.{Platform}
use machinepal.Files.{FileManager, check_file_exists_and_readable_and_resolve}
use machinepal.Payment.Messages.{must_contain_string}
use machinepal.Config.Json.{
  Documents, get_bool_with_default, get_uint16_with_default, get_string_with_default,
}
use machinepal.Config.Labels.{is_host_name}

pub record HttpConfig : Type 0 where
  pub port : ℕ

pub record HttpsConfig : Type 0 where
  pub port : ℕ
  pub cert_file : Text
  pub key_file : Text
  pub key_pass_file : Option Text
  pub ca_file : Option Text

pub record ServerConfig : Type 0 where
  pub host_name : Text
  pub bind_ip : Text
  pub http : Option HttpConfig
  pub https : Option HttpsConfig

pub data LogLevel : Type 0 where
  log_trace log_debug log_info log_warn log_error log_fatal : LogLevel

pub data LogType : Type 0 where
  log_text log_json : LogType

pub record LogConfig : Type 0 where
  pub level : LogLevel
  pub type : LogType

pub data FacilitatorType : Type 0 where
  facilitator_cdp facilitator_base : FacilitatorType

pub record FacilitatorConfig : Type 0 where
  pub type : FacilitatorType
  pub base_url : Text
  pub api_key_file : Option Text

-- inet_pton, and CertManager::doThoroughKeyCertFormatCheck, which reads both files by OpenSSL
pub record Checks : Type 0 where
  pub inet_pton_ipv4 : Text → Bool
  pub inet_pton_ipv6 : Text → Bool
  pub do_thorough_key_cert_format_check : Text → Text → Result (Unit {0})

unfoldable pub make_http_config : ℕ → Result HttpConfig
make_http_config port = do check_state (ltb 0 port) (str "port_ > 0"); ok (record { port = port })

unfoldable pub make_https_config :
    Checks → ℕ → Text → Text → Option Text → Option Text → Result HttpsConfig
make_https_config checks port cert_file key_file key_pass_file ca_file = do
  check_state (ltb 0 port) (str "port_ > 0")
  checks.do_thorough_key_cert_format_check cert_file key_file
  ok (record {
    port = port;
    cert_file = cert_file;
    key_file = key_file;
    key_pass_file = key_pass_file;
    ca_file = ca_file;
  })

abbrev pub is_some {ℓ} : {A : Type ℓ} → Option A → Bool
is_some none = false
is_some (some a) = true

unfoldable pub make_server_config :
    Checks → Text → Text → Option HttpConfig → Option HttpsConfig → Result ServerConfig
make_server_config checks host_name bind_ip http https = do
  require (not (is_empty host_name)) (invalid_argument (str "hostName cannot be empty."))
  require (is_host_name host_name) (
      invalid_argument
        (str "hostname is not a valid local or internet hostname: '" ++ (host_name ++ str "'")))
  require (not (is_empty bind_ip)) (invalid_argument (str "bindIp cannot be empty."))
  require (checks.inet_pton_ipv4 bind_ip || checks.inet_pton_ipv6 bind_ip)
      (invalid_argument (str "bindIp is not a valid IPv4 or IPv6 address."))
  require (is_some http || is_some https) (
      invalid_argument
        (str "At least one protocol (HTTP or HTTPS) must be enabled in the server configuration."))
  ok (record { host_name = host_name; bind_ip = bind_ip; http = http; https = https })

unfoldable pub parse_log_level : Text → Result LogLevel
parse_log_level level =
    if text_eq level (str "trace")
    then ok log_trace
    else if text_eq level (str "debug")
    then ok log_debug
    else if text_eq level (str "info")
    then ok log_info
    else if text_eq level (str "warn")
    then ok log_warn
    else if text_eq level (str "error")
    then ok log_error
    else if text_eq level (str "fatal")
    then ok log_fatal
    else err (invalid_argument (str "Invalid log level: " ++ level))

unfoldable pub parse_log_type : Text → Result LogType
parse_log_type type =
    if text_eq type (str "text")
    then ok log_text
    else if text_eq type (str "json")
    then ok log_json
    else err (invalid_argument (str "Invalid log type: " ++ type))

abbrev pub default_log_config : LogConfig
default_log_config = record { level = log_info; type = log_text }

module _ (p : Platform) (d : Documents p) (m : FileManager) (checks : Checks) where
  unfoldable pub http_config_from_json : p.Json → Result (Option HttpConfig)
  http_config_from_json j = rethrow_nested [] (do
    check_state (p.is_object j) (str "j.is_object()")
    enabled ← get_bool_with_default p d j (str "enabled") true
    if not enabled then ok none else (do
      port ← get_uint16_with_default p d j (str "port") 8080
      config ← make_http_config port
      ok (some config)))

  -- A member that is there and not null, as the path of a file.
  unfoldable pub optional_file : p.Json → Text → Result (Option Text)
  optional_file j key =
      if p.contains j key
      then (do
        v ← p.at j key
        if p.is_null v then ok none else (do
          file ← p.get_string v
          resolved ← check_file_exists_and_readable_and_resolve m file
          ok (some resolved)))
      else ok none

  unfoldable pub required_file : p.Json → Text → Result Text
  required_file j key = do
    file ← get_string_with_default p d j key []
    check_file_exists_and_readable_and_resolve m file

  unfoldable pub https_config_from_json : p.Json → Result (Option HttpsConfig)
  https_config_from_json j = rethrow_nested [] (do
    is_enabled ← get_bool_with_default p d j (str "enabled") true
    if not is_enabled then ok none else (do
      ca_file ← optional_file j (str "ca_file")
      key_pass_file ← optional_file j (str "key_pass_file")
      cert_file ← required_file j (str "cert_file")
      key_file ← required_file j (str "key_file")
      port ← get_uint16_with_default p d j (str "port") 8080
      config ← make_https_config checks port cert_file key_file key_pass_file ca_file
      ok (some config)))

  abbrev pub optional_section :
      {A : Type 0} → p.Json → Text → (p.Json → Result (Option A)) → Result (Option A)
  optional_section j key read =
      if p.contains j key
      then (do
        v ← p.at j key
        check_state_json (p.is_object v) (key ++ str " must be object")
        read v)
      else ok none

  unfoldable pub server_config_from_json : p.Json → Result ServerConfig
  server_config_from_json j = rethrow_nested [] (do
    check_state (p.is_object j) (str "j.is_object()")
    http ← optional_section j (str "http") http_config_from_json
    https ← optional_section j (str "https") https_config_from_json
    require (is_some http || is_some https)
        (json_error (str "At least one of HTTP or HTTPS must be configured in server config"))
    check_state_json (p.contains j (str "hostname"))
        (str "Missing required hostname in server config")
    v ← p.at j (str "hostname")
    check_state_json (p.is_string v) (str "hostname must be string")
    host_name ← p.get_string v
    bind_ip ← get_string_with_default p d j (str "bind_ip") (str "0.0.0.0")
    make_server_config checks host_name bind_ip http https)

  unfoldable pub log_config_from_json : p.Json → Result LogConfig
  log_config_from_json j = rethrow_nested [] (do
    check_state (p.is_object j) (str "j.is_object()")
    level_text ← get_string_with_default p d j (str "level") (str "info")
    type_text ← get_string_with_default p d j (str "type") (str "text")
    level ← parse_log_level level_text
    type ← parse_log_type type_text
    ok (record { level = level; type = type }))

  unfoldable pub must_contain_facilitator_type : p.Json → Result FacilitatorType
  must_contain_facilitator_type j = do
    type_string ← must_contain_string p j (str "type")
    if text_eq type_string (str "cdp")
        then ok facilitator_cdp
        else if text_eq type_string (str "base")
        then ok facilitator_base
        else err (json_error (str "Invalid facilitator type: " ++ type_string))

  abbrev facilitator_of_type : FacilitatorType → p.Json → Result FacilitatorConfig
  facilitator_of_type facilitator_cdp j = do
    base_url ← must_contain_string p j (str "base_url")
    user_provided_api_key_file ← must_contain_string p j (str "api_key_file")
    resolved ← check_file_exists_and_readable_and_resolve m user_provided_api_key_file
    ok (record { type = facilitator_cdp; base_url = base_url; api_key_file = some resolved })
  facilitator_of_type facilitator_base j = err (json_error (str "Unsupported facilitator type"))

  unfoldable pub facilitator_config_from_json : p.Json → Result FacilitatorConfig
  facilitator_config_from_json j = rethrow_nested [] (do
    check_state (p.is_object j) (str "j.is_object()")
    type ← must_contain_facilitator_type j
    facilitator_of_type type j)
