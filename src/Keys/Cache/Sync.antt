-- ===== src/Keys/Cache/Sync.antt =====
-- router/internal/store/platform.go: the refresh of the cache of keys.
use aether_code.Base.{ℕ, List, Text, ◌==◌, nat_eq, if◌then◌else◌, Result, ok, err}
use aether_code.Store.Provider.{Time}
use aether_code.Store.Database.{Database}
use aether_code.Store.Versions.{api_key_version}
use aether_code.Keys.{ApiKey}
use aether_code.Keys.Validation.{active_api_keys}
use aether_code.Keys.Lifecycle.{KeyStore}
use aether_code.Keys.Cache.{ApiKeyCache, replace}

module _ (d : Database) (s : KeyStore d) (now : Time) where
  abbrev with_keys :
      ℕ → ApiKeyCache → d.Db → Result Text (List ApiKey) → Result Text ℕ × ApiKeyCache × d.Db
  with_keys version c db (err e) = (err e, c, db)
  with_keys version c db (ok keys) = (ok version, replace keys version now, db)

  abbrev with_version :
      ApiKeyCache → d.Db → Result Text (ℕ × d.Db) → Result Text ℕ × ApiKeyCache × d.Db
  with_version c db (err e) = (err e, c, db)
  with_version c db (ok (version, db')) =
      with_keys version c db' (active_api_keys d s.accounts s.keys db')

  -- `ReloadAPIKeyCache`
  unfoldable pub reload_api_key_cache : ApiKeyCache → d.Db → Result Text ℕ × ApiKeyCache × d.Db
  reload_api_key_cache c db = with_version c db (api_key_version d s.versions now db)

  abbrev ticked : ApiKeyCache → d.Db → Result Text (ℕ × d.Db) → ApiKeyCache × d.Db
  ticked c db (err e) = (c, db)
  ticked c db (ok (version, db')) =
      if c.version == version
      then (c, db')
      else let (r, c', db'') = reload_api_key_cache c db' in (c', db'')

  -- One tick of `SyncAPIKeyCache`
  unfoldable pub sync_api_key_cache_tick : ApiKeyCache → d.Db → ApiKeyCache × d.Db
  unfolding reload_api_key_cache
  sync_api_key_cache_tick c db = ticked c db (api_key_version d s.versions now db)
