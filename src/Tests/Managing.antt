-- ===== src/Tests/Managing.antt =====
-- A manager of configurations that is created, loads a file, and finds it changed and broken.
use machinepal.Prelude.{some, text_eq, ◌≡◌, refl, false, Text, str, List, [], ◌∷◌, none}
use machinepal.Result.{ok, err, json_error}
use machinepal.Files.{FileManager}
use machinepal.Tests.Demo.{encode_hex}
use machinepal.Tests.World.{url_demo}
use machinepal.Config.Yaml.{yaml_to_json}
use machinepal.Config.Loading.{load_from_yaml_file}
use machinepal.Result.{Exception, nested}
use machinepal.Config.Environment.{Surroundings, compute_blake_hash}
use machinepal.Config.Manager.{ConfigManager, reload_config, load_now}
use machinepal.Config.Manager.Reloading.{reload_config-twice}
use machinepal.Tests.Configuring.{
  networks, documents_demo, files_demo, checks_demo, loader_demo, loaded,
}

abbrev world_demo : Surroundings networks documents_demo
world_demo = record {
  file_system = record files_demo.file_system { contents = λ path. some (str "server:") };
  loader = loader_demo;
  parent_path = λ path. [];
  last_write_time = λ path. ok 7;
  blake2b512 = λ contents. ok (1 ∷ []);
}

abbrev values_demo : List (Text × Text)
values_demo = (str "CONFIG", str "/c") ∷ []

abbrev created_demo : ConfigManager
created_demo = record {
  file_manager = some (record {
    file_system = world_demo.file_system;
    canonical_config_path = str "/c";
    canonical_config_dir_path = [];
  });
  latest_config = none;
  latest_config_modification_time = 0;
  latest_config_hash = [];
  config_values_from_cli_and_env = values_demo;
}

abbrev reloaded_demo : ConfigManager
reloaded_demo =
    (reload_config networks documents_demo url_demo checks_demo world_demo created_demo).1

-- A file that yaml-cpp refuses, behind a configuration that was loaded before.
abbrev broken_world : Surroundings networks documents_demo
broken_world = record world_demo {
  loader = record loader_demo { load_file = λ path. err (json_error []) };
}

abbrev serving : ConfigManager
serving = record created_demo { latest_config = some loaded.0; latest_config_hash = str "00" }

abbrev broken : ConfigManager
broken = record serving { latest_config_hash = str "01" }

abbrev broken_file : Exception
broken_file =
    nested (str "Could not load MachinePalConfig from: /c")
      (nested (str "Error loading YAML file '/c': ") (json_error []))

abbrev files_now : FileManager
files_now = record {
  file_system = world_demo.file_system;
  canonical_config_path = str "/c";
  canonical_config_dir_path = [];
}

hashes : compute_blake_hash networks documents_demo broken_world (str "/c") ≡ ok (str "01")
unfolding compute_blake_hash str encode_hex
hashes = refl

differs : text_eq (str "01") (str "00") ≡ false
unfolding text_eq str
differs = refl

breaks :
    load_now networks documents_demo url_demo checks_demo broken_world broken files_now
    ≡ err broken_file
unfolding load_from_yaml_file yaml_to_json str
breaks = refl

reload_config-twice_example :
    (reload_config networks documents_demo url_demo checks_demo broken_world serving
      ≡ (err (nested [] broken_file), broken))
    × (reload_config networks documents_demo url_demo checks_demo broken_world broken
        ≡ (ok tt, broken))
reload_config-twice_example =
    reload_config-twice networks documents_demo url_demo checks_demo broken_world serving files_now
      (str "01") broken_file loaded.0 refl refl hashes differs breaks
