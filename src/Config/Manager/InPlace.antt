-- ===== src/Config/Manager/InPlace.antt =====
-- The configurations that a manager can have in place (ConfigManager).
use mathlib.Core.List.{Memᴰ}
use machinepal.Prelude.{◌≡◌, Text, [], List, ◌∷◌, some, ◌⊎◌}
use machinepal.Result.{Result, ok}
use machinepal.Platform.{Platform}
use machinepal.Files.{FileManager}
use machinepal.Url.{UrlParser}
use machinepal.Vibemarket.Maps.{text_key}
use machinepal.Config.Json.{Documents}
use machinepal.Config.Sections.{Checks}
use machinepal.Config.Reading.{LoadedConfig, machine_pal_config_from_json}
use machinepal.Config.Yaml.{yaml_to_json}
use machinepal.Config.Loading.{apply_env_overrides, resolve_secrets}
use machinepal.Config.Reading.Accepted.{IsAccepted}
use machinepal.Config.Environment.{Surroundings}
use machinepal.Config.Manager.{ConfigManager, load_now, refreshed, reload_config, create_instance}

module _ (p : Platform) (d : Documents p) (u : UrlParser) (checks : Checks) where
  -- A manager that was created with some values and reloaded, each time in one of the surroundings.
  pub data Running : List (Surroundings p d) → List (Text × Text) → ConfigManager → Type 0 where
    created :
        (world : Surroundings p d) (values : List (Text × Text)) {s : ConfigManager}
        → create_instance p d u checks world values ≡ ok s
        → Running (world ∷ []) values s
    reload :
        (world : Surroundings p d) {worlds : List (Surroundings p d)} {values : List (Text × Text)}
        (s : ConfigManager)
        → Running worlds values s
        → Running (world ∷ worlds) values (reload_config p d u checks world s).1

  -- A configuration that was read from the document of a file as it was in one of the surroundings,
  -- with the overrides among the values and the secrets, and accepted by all checks of createFromJson
  -- on it: what they make sure of is in IsAccepted.
  pub record IsLoaded (worlds : List (Surroundings p d)) (values : List (Text × Text))
      (c : LoadedConfig) : Type 0 where
    pub world : Surroundings p d
    pub there : Memᴰ world worlds
    pub manager : FileManager
    pub document : p.Json
    pub overridden : p.Json
    pub resolved : p.Json
    pub written : yaml_to_json p d world.loader manager.canonical_config_path ≡ ok document
    pub with_overrides : apply_env_overrides p d world.loader values document ≡ ok overridden
    pub with_secrets : resolve_secrets p d world.loader overridden ≡ ok resolved
    pub read :
        machine_pal_config_from_json p d u (refreshed p d u checks world manager) checks resolved
        ≡ ok c
    pub accepted : IsAccepted p d u (refreshed p d u checks world manager) checks c

  -- The values stay, and a configuration is the one before, or one that has been loaded with them.
  abbrev IsNewer : Surroundings p d → ConfigManager → ConfigManager → Type 0
  IsNewer world before after =
      (after.config_values_from_cli_and_env ≡ before.config_values_from_cli_and_env)
      × ((after.latest_config ≡ before.latest_config)
          ⊎ ((m : FileManager) × (c : LoadedConfig) × (load_now p d u checks world before m ≡ ok c)
              × (after.latest_config ≡ some c)))

  abbrev WasLoaded : List (Surroundings p d) → List (Text × Text) → ConfigManager → Type 0
  WasLoaded worlds values s =
      (s.config_values_from_cli_and_env ≡ values)
      × ((c : LoadedConfig) → s.latest_config ≡ some c → IsLoaded worlds values c)
