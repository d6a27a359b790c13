-- ===== src/Config/Loading.antt =====
-- src/config/ConfigLoader.cpp: the overrides of the environment, the secrets, the validation against
-- the schema, and the whole of loadFromYamlFile.
pub mod Schema
use machinepal.Prelude.{
  ℕ, zero, suc, ◌+◌, ◌-◌, ◌*◌, ◌<◌, Bool, true, false, ◌&&◌, ◌||◌, not, Text, str, List, [], ◌∷◌,
  ◌++◌, ltb, leb, ◌==◌, if◌then◌else◌, text_eq, Option, none, some,
}
use machinepal.Result.{
  Result, ok, err, runtime_error, invalid_argument, logic_error, rethrow_nested, check_state, ◌>>=◌,
  ◌>>◌,
}
use machinepal.Platform.{Platform, ℤ, pos}
use machinepal.Files.{FileManager}
use machinepal.Url.{UrlParser}
use machinepal.Crypto.Encoding.{is_space}
use machinepal.Vibemarket.Maps.{find, put, text_key}
use machinepal.Config.Json.{Documents, as_bool}
use machinepal.Config.Labels.{is_digit}
use machinepal.Config.Sections.{Checks}
use machinepal.Config.Reading.{LoadedConfig, machine_pal_config_from_json}
use machinepal.Config.Yaml.{Loader, yaml_to_json}

-- getenvOpt, over the overrides from the command line and the environment
unfoldable pub getenv_opt : List (Text × Text) → Text → Option Text
getenv_opt overrides key = find key overrides

abbrev skip_spaces : Text → Text
skip_spaces [] = []
skip_spaces (c ∷ t) = if is_space c then skip_spaces t else c ∷ t

-- The value of the digits in front, where there is one.
abbrev digits_in_front : Option ℕ → Text → Option ℕ
digits_in_front acc [] = acc
digits_in_front none (c ∷ t) = if is_digit c then digits_in_front (some (c - 48)) t else none
digits_in_front (some n) (c ∷ t) =
    if is_digit c then digits_in_front (some (n * 10 + (c - 48))) t else some n

abbrev negated : ℕ → ℤ
negated zero = pos 0
negated (suc n) = ℤ.negsuc n

abbrev in_int : Bool → Option ℕ → Result ℤ
in_int negative none = err (invalid_argument (str "stoi"))
in_int true (some n) = if leb n 2147483648 then ok (negated n) else err (logic_error (str "stoi"))
in_int false (some n) = if leb n 2147483647 then ok (pos n) else err (logic_error (str "stoi"))

abbrev signed_int : Text → Result ℤ
signed_int [] = in_int false none
signed_int (c ∷ t) =
    if c == b'-'
    then in_int true (digits_in_front none t)
    else if c == b'+'
    then in_int false (digits_in_front none t)
    else in_int false (digits_in_front none (c ∷ t))

-- std::stoi; std::out_of_range is a logic_error.
unfoldable pub stoi : Text → Result ℤ
stoi t = signed_int (skip_spaces t)

module _ (p : Platform) (d : Documents p) (loader : Loader p d) where
  module _ (overrides : List (Text × Text)) where
    unfoldable pub apply_string_env : Text → Text → p.Json → Result p.Json
    apply_string_env path env_var j = rethrow_nested [] (elim (getenv_opt overrides env_var) [
      | none ↦ ok j
      | some v ↦ loader.set_at j path (p.from_text v)
    ])

    unfoldable pub apply_bool_env : Text → Text → p.Json → Result p.Json
    apply_bool_env path env_var j = rethrow_nested [] (elim (getenv_opt overrides env_var) [
      | none ↦ ok j
      | some v ↦ loader.set_at j path (p.from_bool (as_bool v))
    ])

    unfoldable pub apply_int_env : Text → Text → p.Json → Result p.Json
    apply_int_env path env_var j =
        rethrow_nested [] (elim (getenv_opt overrides (str "MACHINE_PAY_" ++ env_var)) [
          | none ↦ ok j
          | some v ↦ stoi v >>= λ n. loader.set_at j path (p.from_int n)
        ])

    unfoldable pub apply_env_overrides : p.Json → Result p.Json
    apply_env_overrides j0 = rethrow_nested [] (do
      j1 ← apply_bool_env (str "/server/enable_http") (str "ENABLE_HTTP") j0
      j2 ← apply_bool_env (str "/server/enable_https") (str "ENABLE_HTTPS") j1
      j3 ← apply_int_env (str "/server/http_listen_port") (str "HTTP_PORT") j2
      j4 ← apply_int_env (str "/server/https_listen_port") (str "HTTPS_PORT") j3
      j5 ← apply_int_env (str "/server/bind_ip") (str "BIND_IP") j4
      j6 ← apply_int_env (str "/server/hostname") (str "HOSTNAME") j5
      j7 ← apply_string_env (str "/server/tls/cert_file") (str "SERVER_TLS_CERT_FILE") j6
      j8 ← apply_string_env (str "/server/tls/key_file") (str "SERVER_TLS_KEY_FILE") j7
      j9 ← apply_string_env (str "/server/tls/key_pass_file") (str "SERVER_TLS_KEY_PASS_FILE") j8
      j10 ← apply_string_env (str "/server/tls/ca_file") (str "SERVER_TLS_CA_FILE") j9
      j11 ← apply_string_env (str "/facilitator/type") (str "FACILITATOR_TYPE") j10
      j12 ← apply_string_env (str "/facilitator/base_url") (str "FACILITATOR_BASE_URL") j11
      j13 ← apply_string_env (str "/facilitator/api_key_file") (str "FACILITATOR_API_KEY_FILE") j12
      j14 ← apply_string_env (str "/log/level") (str "LOG_LEVEL") j13
      apply_string_env (str "/log/type") (str "LOG_TYPE") j14)

  unfoldable pub read_secret_file_first_line : Text → Text → Text
  read_secret_file_first_line path fallback = elim (loader.first_line path) [
    | none ↦ fallback
    | some line ↦ line
  ]

  abbrev password_file : p.Json → Result Text
  password_file database =
      if p.contains database (str "passwordFile")
      then (do v ← p.at database (str "passwordFile"); p.get_string v)
      else ok []

  unfoldable pub resolve_secrets : p.Json → Result p.Json
  resolve_secrets j = rethrow_nested [] (
      if p.contains j (str "database")
      then (do
        database ← p.at j (str "database")
        if p.is_object database
            then (do
              file ← password_file database
              loader.set_at j (str "/database/password")
                  (p.from_text (read_secret_file_first_line file [])))
            else ok j)
      else ok j)

  -- An error of the validator is logged.
  abbrev pub logged : Result (Unit {0}) → Result (Unit {0})
  logged (ok u) = ok tt
  logged (err e) = ok tt

  unfoldable pub validate_json : p.Json → Result (Unit {0})
  validate_json j = do
    check_state (not (loader.is_empty_json j)) (str "Empty config file")
    schema ← rethrow_nested [] (p.parse loader.schema_text)
    logged (loader.validate schema j)

  unfoldable pub load_from_yaml_file :
      List (Text × Text) → UrlParser → FileManager → Checks → Text → Result LoadedConfig
  load_from_yaml_file overrides u m checks yaml_path =
      rethrow_nested (str "Could not load MachinePalConfig from: " ++ yaml_path) (do
        check_state (m.file_system.is_absolute yaml_path) (str "yamlPath.is_absolute()")
        j ← yaml_to_json p d loader yaml_path
        overridden ← apply_env_overrides overrides j
        resolved ← resolve_secrets overridden
        validate_json resolved
        result ← machine_pal_config_from_json p d u m checks resolved
        validate_json resolved
        ok result)
