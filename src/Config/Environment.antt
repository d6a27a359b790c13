-- ===== src/Config/Environment.antt =====
-- What ConfigManager (src/config/ConfigManager.cpp) reads of its surroundings: the overrides that
-- Init::getMachinePalEnvironmentOverloads takes from the environment, the hash of a file, the checks
-- of the file and its manager.
use machinepal.Prelude.{
  ℕ, Bool, true, false, not, Text, str, List, [], ◌∷◌, ◌++◌, ◌==◌, if◌then◌else◌, is_empty,
  starts_with, Option, none, some,
}
use machinepal.Result.{
  Result, ok, err, runtime_error, check_state, require, rethrow_nested, ◌>>=◌, ◌>>◌,
}
use machinepal.Platform.{Platform}
use machinepal.Files.{
  FileSystem, FileManager, about, check_file_exists_and_readable_cwd,
  resolve_canonical_path_against_cwd,
}
use machinepal.Vibemarket.Maps.{find, put, text_key}
use machinepal.X402.Host.{drop_text}
use machinepal.Config.Json.{Documents}
use machinepal.Config.Yaml.{Loader}

abbrev pub has_value {ℓ} : {A : Type ℓ} → Option A → Bool
has_value none = false
has_value (some a) = true

-- What stands left and right of the first '='.
abbrev at_equals : Text → Option (Text × Text)
at_equals [] = none
at_equals (c ∷ t) =
    let rest = at_equals t in
    if c == b'='
    then some ([], t)
    else elim rest [ none ↦ none | some (key, value) ↦ some (c ∷ key, value) ]

abbrev add_overload : Text → Text → List (Text × Text) → Result (List (Text × Text))
add_overload key value overloads =
    if is_empty (drop_text 12 key)
    then ok overloads
    else if has_value (find (drop_text 12 key) overloads)
    then err (runtime_error (str "Duplicate environment variable: " ++ key))
    else ok (put (drop_text 12 key) value overloads)

abbrev overload_of : Text → List (Text × Text) → Result (List (Text × Text))
overload_of variable overloads =
    if starts_with variable (str "MACHINE_PAY_")
    then elim (at_equals variable) [
      | none ↦ ok overloads
      | some (key, value) ↦ add_overload key value overloads
    ]
    else ok overloads

abbrev overloads_from : List Text → List (Text × Text) → Result (List (Text × Text))
overloads_from [] overloads = ok overloads
overloads_from (variable ∷ environ) overloads =
    overload_of variable overloads >>= overloads_from environ

unfoldable pub get_machine_pal_environment_overloads : List Text → Result (List (Text × Text))
get_machine_pal_environment_overloads environ = overloads_from environ []

-- What the manager finds at one moment: the files, what they are read by, and BLAKE2b-512 of
-- OpenSSL.
pub record Surroundings (p : Platform) (d : Documents p) : Type 0 where
  pub file_system : FileSystem
  pub loader : Loader p d
  pub parent_path : Text → Text
  pub last_write_time : Text → Result ℕ
  pub blake2b512 : Text → Result (List ℕ)

module _ (p : Platform) (d : Documents p) (world : Surroundings p d) where
  abbrev hash_of : Text → Option Text → Result Text
  hash_of path none = err (runtime_error (str "Failed to open file for hashing: " ++ path))
  hash_of path (some contents) = do hash ← world.blake2b512 contents; ok (p.hex_lower hash)

  unfoldable pub compute_blake_hash : Text → Result Text
  compute_blake_hash path = hash_of path (world.file_system.contents path)

  unfoldable pub check_file_exists_and_readable : Text → Result (Unit {0})
  check_file_exists_and_readable config_file = do
    exists ← world.file_system.exists config_file
    require exists
        (runtime_error (about (str "Config file '") config_file (str "' does not exist.")))
    is_directory ← world.file_system.is_directory config_file
    require (not is_directory) (
        runtime_error
          (about (str "Config file '") config_file (str "' is a directory, not a file")))
    require (has_value (world.file_system.contents config_file))
        (runtime_error (about (str "Config file '") config_file (str "' is not readable.")))

  -- The constructor of FileManager.
  unfoldable pub make_file_manager : Text → Result FileManager
  make_file_manager user_provided_config_path = rethrow_nested [] (do
    check_file_exists_and_readable_cwd world.file_system user_provided_config_path
    path ← resolve_canonical_path_against_cwd world.file_system user_provided_config_path
    check_state (not (is_empty path)) (str "!canonicalConfigPath_.empty()")
    ok (record {
      file_system = world.file_system;
      canonical_config_path = path;
      canonical_config_dir_path = world.parent_path path;
    }))
