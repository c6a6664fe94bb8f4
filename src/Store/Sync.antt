-- ===== src/Store/Sync.antt =====
-- router/internal/store: the refresh of the routing cache while other requests write to the database. A
-- reload reads the version, the providers and the channels in turn and then replaces the cache; the
-- refresh loop and the administration handlers run reloads side by side.
pub mod Laws
pub mod Ticks
use aether_code.Base.{
  ℕ, ◌+◌, Bool, true, false, not, ◌&&◌, ◌||◌, List, [], ◌∷◌, ◌++◌, map, Option, none, some, Text,
  codes, ◌==◌, nat_eq, ltb, if◌then◌else◌, Result, ok, err, ◌>>=◌, ◌≡◌,
}
use aether_code.Store.Provider.{Provider, Time}
use aether_code.Store.Channel.{ProviderChannel, to_provider}
use aether_code.Store.Cache.{Cache, replace}
use aether_code.Store.Database.{Database, Table}
use aether_code.Store.Versions.{config_version, provider_config_version_name}
use aether_code.Store.Versions.Bump.{version_in}
use aether_code.Store.Mutations.{Store, Mutation, mutate}

-- A reload that is under way, with what it has read.
pub data Reload : Type 0 where
  read_version : ℕ → Reload
  read_providers : ℕ → List Provider → Reload
  read_channels : ℕ → List Provider → List ProviderChannel → Reload

-- The test of `/readyz`, given the version in the database, or `none` on an error, and the version of the
-- cache; the same test serves the API keys.
unfoldable pub is_loaded : Option ℕ → ℕ → Bool
is_loaded none version = false
is_loaded (some db_version) version = not (version == 0 || ltb version db_version)

module _ (getenv : Text → Text) (read_file : Text → Option Text) (d : Database) (s : Store d) where
  -- The rows that `RoutingProviders` makes of the two tables.
  unfoldable pub routing_rows : List Provider → List ProviderChannel → List Provider
  routing_rows providers channels = providers ++ map (to_provider getenv read_file) channels

  unfoldable pub routing_providers : d.Db → Result Text (List Provider)
  routing_providers db = s.providers.find (λ p. true) db >>= λ providers.
      s.channels.find (λ c. true) db >>= λ channels. ok (routing_rows providers channels)

  -- A reload that nothing interrupts: the version it has loaded, the cache and the database.
  abbrev pub reloaded : Time → Cache → d.Db → Result Text (ℕ × d.Db) → Result Text ℕ × Cache × d.Db
  reloaded now c db (err e) = (err e, c, db)
  reloaded now c db (ok (version, db')) = with_rows (routing_providers db')
    where
      with_rows : Result Text (List Provider) → Result Text ℕ × Cache × d.Db
      with_rows (err e) = (err e, c, db')
      with_rows (ok rows) = (ok version, replace rows version now, db')

  unfoldable pub reload_cache : Time → Cache → d.Db → Result Text ℕ × Cache × d.Db
  reload_cache now c db =
      reloaded now c db (config_version d s.versions provider_config_version_name now db)

  -- One tick of the refresh loop.
  abbrev pub ticked : Time → Cache → d.Db → Result Text (ℕ × d.Db) → Cache × d.Db
  ticked now c db (err e) = (c, db)
  ticked now c db (ok (version, db')) =
      if c.version == version
      then (c, db')
      else let (r, c', db'') = reload_cache now c db' in (c', db'')

  unfoldable pub sync_tick : Time → Cache → d.Db → Cache × d.Db
  sync_tick now c db =
      ticked now c db (config_version d s.versions provider_config_version_name now db)

  -- The database, the cache of one router, and its reloads.
  pub record System : Type 0 where
    pub db : d.Db
    pub cache : Cache
    pub reloads : List Reload

  -- One statement of one of the actors. A reload may end with an error at any point.
  pub data Step (x : System) : System → Type 0 where
    writes : (m : Mutation) (now : Time) → Step x (record x { db = (mutate d s m now x.db).1 })
    starts :
        (version : ℕ)
        → version_in provider_config_version_name (s.versions.rows x.db) ≡ some version
        → Step x (record x { reloads = read_version version ∷ x.reloads })
    reads_providers :
        (before after : List Reload) (version : ℕ)
        → x.reloads ≡ before ++ read_version version ∷ after
        → Step x (record x {
          reloads = before ++ read_providers version (s.providers.rows x.db) ∷ after;
        })
    reads_channels :
        (before after : List Reload) (version : ℕ) (providers : List Provider)
        → x.reloads ≡ before ++ read_providers version providers ∷ after
        → Step x (record x {
          reloads = before ++ read_channels version providers (s.channels.rows x.db) ∷ after;
        })
    replaces :
        (before after : List Reload) (version : ℕ) (providers : List Provider)
        (channels : List ProviderChannel) (now : Time)
        → x.reloads ≡ before ++ read_channels version providers channels ∷ after
        → Step x (record x {
          cache = replace (routing_rows providers channels) version now;
          reloads = before ++ after;
        })
    fails :
        (before after : List Reload) (r : Reload)
        → x.reloads ≡ before ++ r ∷ after
        → Step x (record x { reloads = before ++ after })

  pub data Reaches (x : System) : System → Type 0 where
    here : Reaches x x
    then_step : {y z : System} → Reaches x y → Step y z → Reaches x z
