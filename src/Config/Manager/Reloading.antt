-- ===== src/Config/Manager/Reloading.antt =====
-- What a reload of the configuration does (ConfigManager::reloadConfig).
use machinepal.Prelude.{◌≡◌, true, false, Text, [], text_eq, text_eq_iff, some, arith}
use machinepal.Result.{ok, err, Exception, nested}
use machinepal.Platform.{Platform}
use machinepal.Files.{FileManager}
use machinepal.Url.{UrlParser}
use machinepal.Config.Json.{Documents}
use machinepal.Config.Sections.{Checks}
use machinepal.Config.Reading.{LoadedConfig}
use machinepal.Config.Environment.{Surroundings, compute_blake_hash}
use machinepal.Config.Manager.{ConfigManager, file_manager_of, load_now, reload_config}

module _ (p : Platform) (d : Documents p) (u : UrlParser) (checks : Checks)
    (world : Surroundings p d) where
  -- A reload of a file that has changed and cannot be loaded throws and leaves the configuration as
  -- it was, but keeps the hash of the file: where a configuration is in place, the next reload of the
  -- same file returns without loading it.
  pub reload_config-twice :
      (s : ConfigManager) (m : FileManager) (hash : Text) (e : Exception) (config : LoadedConfig)
      → s.file_manager ≡ some m
      → s.latest_config ≡ some config
      → compute_blake_hash p d world m.canonical_config_path ≡ ok hash
      → text_eq hash s.latest_config_hash ≡ false
      → load_now p d u checks world (record s { latest_config_hash = hash }) m ≡ err e
      → (reload_config p d u checks world s
          ≡ (err (nested [] e), record s { latest_config_hash = hash }))
        × (reload_config p d u checks world (record s { latest_config_hash = hash })
            ≡ (ok tt, record s { latest_config_hash = hash }))
  unfolding reload_config file_manager_of
  reload_config-twice s m hash e config managed configured hashed changed fails =
      let same : text_eq hash hash ≡ true = ground (arith, text_eq_iff hash hash) in
      (simp (managed, hashed, changed, fails), simp (managed, hashed, same, configured))

  -- A file that has not changed is not loaded again.
  pub reload_config-unchanged :
      (s : ConfigManager) (m : FileManager) (config : LoadedConfig)
      → s.file_manager ≡ some m
      → s.latest_config ≡ some config
      → compute_blake_hash p d world m.canonical_config_path ≡ ok s.latest_config_hash
      → reload_config p d u checks world s ≡ (ok tt, s)
  unfolding reload_config file_manager_of
  reload_config-unchanged s m config managed configured hashed =
      let same : text_eq s.latest_config_hash s.latest_config_hash ≡ true =
        ground (arith, text_eq_iff s.latest_config_hash s.latest_config_hash) in
      simp (managed, hashed, same, configured)
