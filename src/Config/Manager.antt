-- ===== src/Config/Manager.antt =====
-- src/config/ConfigManager.cpp: the configuration in place, its start and its reload, each under the
-- lock of the configuration.
pub mod Reloading
pub mod InPlace
use machinepal.Prelude.{
  ℕ, not, Text, str, List, [], if◌then◌else◌, text_eq, is_empty, Option, none, some,
}
use machinepal.Result.{Result, ok, err, logic_error, check_state, rethrow_nested, nested}
use machinepal.Exec.{Exec, pure, gets, modify, lift, throw, try_catch, ◌>>=◌, ◌>>◌}
use machinepal.Platform.{Platform}
use machinepal.Files.{FileManager}
use machinepal.Url.{UrlParser}
use machinepal.Vibemarket.Maps.{find, text_key}
use machinepal.Config.Json.{Documents}
use machinepal.Config.Sections.{Checks}
use machinepal.Config.Reading.{LoadedConfig}
use machinepal.Config.Loading.{load_from_yaml_file}
use machinepal.Config.Environment.{Surroundings, has_value, compute_blake_hash, make_file_manager}

-- The fields of ConfigManager; a time of the file system is a number.
pub record ConfigManager : Type 0 where
  pub file_manager : Option FileManager
  pub latest_config : Option LoadedConfig
  pub latest_config_modification_time : ℕ
  pub latest_config_hash : Text
  pub config_values_from_cli_and_env : List (Text × Text)

abbrev pub initial_manager : List (Text × Text) → ConfigManager
initial_manager values = record {
  file_manager = none;
  latest_config = none;
  latest_config_modification_time = 0;
  latest_config_hash = [];
  config_values_from_cli_and_env = values;
}

abbrev pub required {ℓ} : {A : Type ℓ} → Text → Option A → Result A
required name none = err (logic_error name)
required name (some a) = ok a

unfoldable pub file_manager_of : ConfigManager → Result FileManager
file_manager_of s = required (str "fileManager_") s.file_manager

-- latestConfig
unfoldable pub latest_config_of : ConfigManager → Result LoadedConfig
latest_config_of s = required (str "latestConfig_") s.latest_config

abbrev has_config : ConfigManager → Result (Unit {0})
has_config s = check_state (has_value s.latest_config) (str "latestConfig_")

abbrev pub manager_after : {A : Type 0} → Result A × ConfigManager → Result ConfigManager
manager_after (ok a, s) = ok s
manager_after (err e, s) = err e

module _ (p : Platform) (d : Documents p) (u : UrlParser) (checks : Checks)
    (world : Surroundings p d) where
  -- The manager of files, among the files of the moment.
  abbrev pub refreshed : FileManager → FileManager
  refreshed m = record m { file_system = world.file_system }

  abbrev pub load_now : ConfigManager → FileManager → Result LoadedConfig
  load_now s m =
      load_from_yaml_file p d world.loader s.config_values_from_cli_and_env u (refreshed m) checks
        m.canonical_config_path

  abbrev pub load_changed : FileManager → Text → Exec ConfigManager (Unit {0})
  load_changed m hash = do
    modify (λ s. record s { latest_config_hash = hash })
    s ← gets (λ s. s)
    config ← lift (load_now s m)
    modify (λ s. record s { latest_config = some config })
    time ← lift (world.last_write_time m.canonical_config_path)
    modify (λ s. record s { latest_config_modification_time = time })

  abbrev pub load_if_changed : FileManager → Text → Exec ConfigManager (Unit {0})
  load_if_changed m hash = do
    s ← gets (λ s. s)
    if text_eq hash s.latest_config_hash then lift (has_config s) else load_changed m hash

  abbrev pub reload_in_try : Exec ConfigManager (Unit {0})
  reload_in_try = do
    s ← gets (λ s. s)
    m ← lift (file_manager_of s)
    hash ← lift (compute_blake_hash p d world m.canonical_config_path)
    load_if_changed m hash

  -- The early return has made the last check itself.
  unfoldable pub reload_config : Exec ConfigManager (Unit {0})
  unfolding file_manager_of
  reload_config = do
    try_catch reload_in_try (λ e. throw (nested [] e))
    s ← gets (λ s. s)
    lift (has_config s)

  abbrev pub init_config_file_path : List (Text × Text) → Exec ConfigManager (Unit {0})
  init_config_file_path values = do
    modify (λ s. record s { config_values_from_cli_and_env = values })
    path ← lift (required (str "values.contains( \"CONFIG\" )") (find (str "CONFIG") values))
    lift (check_state (not (is_empty path)) (str "!userProvidedConfigPath_.empty()"))
    s ← gets (λ s. s)
    lift (check_state (not (has_value s.file_manager)) (str "!fileManager_"))
    m ← lift (make_file_manager p d world path)
    modify (λ s. record s { file_manager = some m })

  unfoldable pub init_config_file_path_using_config_values_from_cli_and_env :
      List (Text × Text) → Exec ConfigManager (Unit {0})
  init_config_file_path_using_config_values_from_cli_and_env values =
      try_catch (init_config_file_path values) (λ e. throw (nested [] e))

  unfoldable pub create_instance : List (Text × Text) → Result ConfigManager
  create_instance values = rethrow_nested [] (
      manager_after (
        init_config_file_path_using_config_values_from_cli_and_env values (initial_manager values)))

  abbrev reloaded : Result ConfigManager → Result ConfigManager
  reloaded (ok s) = manager_after (reload_config s)
  reloaded (err e) = err e

  unfoldable pub init_manager : List (Text × Text) → Result ConfigManager
  init_manager values = rethrow_nested [] (reloaded (create_instance values))
