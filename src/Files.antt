-- ===== src/Files.antt =====
-- src/filesystem/FileManager.cpp over std::filesystem and access().
use machinepal.Prelude.{
  ℕ, Bool, not, Text, str, [], ◌++◌, ◌==◌, if◌then◌else◌, is_empty, contains_text, Option,
}
use machinepal.Result.{Result, ok, runtime_error, require, rethrow_nested, ◌>>=◌, ◌>>◌}

pub record FileSystem : Type 0 where
  pub is_absolute : Text → Bool
  -- operator/
  pub append : Text → Text → Text
  pub weakly_canonical : Text → Result Text
  pub absolute : Text → Result Text
  pub current_path : Result Text
  pub exists : Text → Result Bool
  pub is_directory : Text → Result Bool
  pub is_regular_file : Text → Result Bool
  -- access( path, R_OK ) == 0
  pub is_readable : Text → Bool
  pub file_size : Text → Result ℕ
  -- What an ifstream that opens reads.
  pub contents : Text → Option Text

pub record FileManager : Type 0 where
  pub file_system : FileSystem
  pub canonical_config_path : Text
  pub canonical_config_dir_path : Text

abbrev pub about : Text → Text → Text → Text
about before path after = before ++ (path ++ after)

abbrev in_config_dir : FileManager → Text → Text
in_config_dir m rest = rest ++ (str " Current config dir: " ++ m.canonical_config_dir_path)

unfoldable pub check_file_exists_and_readable_and_resolve : FileManager → Text → Result Text
check_file_exists_and_readable_and_resolve m user_provided_path = rethrow_nested [] (do
  require (not (contains_text user_provided_path (str ".."))) (
      runtime_error (
        in_config_dir m (
          about (str "Parent directory traversal ('..') is not allowed in file path: '")
            user_provided_path (str "'."))))
  require (not (is_empty user_provided_path))
      (runtime_error (in_config_dir m (str "File path is empty.")))
  let path =
      if m.file_system.is_absolute user_provided_path
      then user_provided_path
      else m.file_system.append m.canonical_config_dir_path user_provided_path
  p ← m.file_system.weakly_canonical path
  exists ← m.file_system.exists p
  require exists (
      runtime_error
        (in_config_dir m (about (str "File '") user_provided_path (str "' does not exist."))))
  is_directory ← m.file_system.is_directory p
  require (not is_directory) (
      runtime_error (
        in_config_dir m
          (about (str "File '") user_provided_path (str "' is a directory, not a file."))))
  is_regular_file ← m.file_system.is_regular_file p
  require is_regular_file (
      runtime_error (
        in_config_dir m (
          about (str "File '") user_provided_path (str "' is not a regular file (a directory?)."))))
  require (m.file_system.is_readable p) (
      runtime_error
        (in_config_dir m (about (str "File '") user_provided_path (str "' is not readable."))))
  ok p)

abbrev in_directory : Text → Text → Text
in_directory cwd rest = rest ++ (str " Current working directory: " ++ cwd)

unfoldable pub check_file_exists_and_readable_cwd : FileSystem → Text → Result (Unit {0})
check_file_exists_and_readable_cwd fs path = rethrow_nested [] (do
  cwd ← fs.current_path
  require (not (is_empty path)) (runtime_error (in_directory cwd (str "File path is empty.")))
  exists ← fs.exists path
  require exists
      (runtime_error (in_directory cwd (about (str "File '") path (str "' does not exist."))))
  is_directory ← fs.is_directory path
  require (not is_directory) (
      runtime_error
        (in_directory cwd (about (str "File '") path (str "' is a directory, not a file."))))
  is_regular_file ← fs.is_regular_file path
  require is_regular_file (
      runtime_error (
        in_directory cwd
          (about (str "File '") path (str "' is not a regular file (a directory?)."))))
  require (fs.is_readable path)
      (runtime_error (in_directory cwd (about (str "File '") path (str "' is not readable."))))
  file_size ← fs.file_size path
  require (not (file_size == 0))
      (runtime_error (in_directory cwd (about (str "File '") path (str "' is empty."))))
  ok tt)

unfoldable pub resolve_canonical_path_against_cwd : FileSystem → Text → Result Text
resolve_canonical_path_against_cwd fs path =
    rethrow_nested [] (do absolute ← fs.absolute path; fs.weakly_canonical absolute)

unfoldable pub resolve_canonical_path : FileManager → Text → Result Text
resolve_canonical_path m path = rethrow_nested [] (
    if m.file_system.is_absolute path
    then m.file_system.weakly_canonical path
    else m.file_system.weakly_canonical (m.file_system.append m.canonical_config_path path))
