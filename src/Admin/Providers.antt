-- ===== src/Admin/Providers.antt =====
-- router/internal/app/admin.go: the handlers of `/internal/providers` and `/internal/providers/`. An answer
-- shows a saved row without the time stamps that gorm sets.
pub mod Writes
pub mod Laws
use aether_code.Base.{
  ℕ, Bool, true, false, ◌||◌, List, [], ◌∷◌, map, Option, none, some, Text, codes, ◌==◌, text_eq,
  nat_eq, Result, ok, err, if◌then◌else◌,
}
use aether_code.Text.{trim_prefix, parse_id}
use aether_code.Store.Provider.{Time, Provider, public, apply_defaults}
use aether_code.Store.Cache.{Cache}
use aether_code.Store.Cache.Models.{stats}
use aether_code.Store.Database.{Database, Table}
use aether_code.Store.Mutations.{Store, create_provider, save_provider, delete_provider}
use aether_code.Store.Sync.{reload_cache}
use aether_code.Keys.Lifecycle.{queried}
use aether_code.Http.{Write, writes_status, http_error, write_json, refuse_method}
use aether_code.Relay.Auth.{AuthConfig}
use aether_code.Admin.{
  Value, provider_list, one_provider, synced, Codec, Request, Handled, then_reload, with_admin_auth,
}

abbrev pub is_incomplete : Provider → Bool
is_incomplete p = p.provider == [] || p.models == []

module _ (codec : Codec) (getenv : Text → Text) (read_file : Text → Option Text) (d : Database)
    (s : Store d) (cfg : AuthConfig) (now : Time) where
  -- `Store.Providers` and `Store.Provider`
  unfoldable pub providers : d.Db → Result Text (List Provider)
  providers db = s.providers.find (λ p. true) db

  unfoldable pub provider : ℕ → d.Db → Result Text Provider
  provider id db = queried (s.providers.first (λ p. p.id == id) db)

  abbrev pub reloading : List Write → Cache → d.Db → Handled getenv read_file d s
  reloading answer c db = then_reload getenv read_file d s now (λ c' db'. (answer, c', db')) c db

  abbrev pub show_provider : ℕ → Provider → List Write
  show_provider status p = write_json status (codec.encode (one_provider (public p)))

  abbrev pub listed : Cache → d.Db → Result Text (List Provider) → Handled getenv read_file d s
  listed c db (err e) = (http_error e 500, c, db)
  listed c db (ok ps) = (write_json 200 (codec.encode (provider_list (map public ps))), c, db)

  abbrev pub created : Cache → Result Text Provider × d.Db → Handled getenv read_file d s
  created c (err e, db) = (http_error e 500, c, db)
  created c (ok p, db) = reloading (show_provider 201 p) c db

  abbrev pub post_provider : Cache → d.Db → Option Provider → Handled getenv read_file d s
  post_provider c db none = (http_error (codes "invalid JSON body") 400, c, db)
  post_provider c db (some p) =
      if is_incomplete p
      then (http_error (codes "provider and models are required") 400, c, db)
      else created c (create_provider d s p now db)

  unfoldable pub admin_providers : Request → Cache → d.Db → Handled getenv read_file d s
  unfolding providers
  admin_providers r c db = with_admin_auth getenv read_file d s cfg r c db (
      if r.method == codes "GET"
      then listed c db (providers db)
      else if r.method == codes "POST"
      then post_provider c db (codec.decode_provider r.body)
      else (refuse_method (codes "GET, POST"), c, db))

  abbrev pub shown : Cache → d.Db → Result Text Provider → Handled getenv read_file d s
  shown c db (err e) = (http_error e 404, c, db)
  shown c db (ok p) = (show_provider 200 p, c, db)

  abbrev pub saved :
      List Write → Cache → Result Text (Unit {0}) × d.Db → Handled getenv read_file d s
  saved answer c (err e, db) = (http_error e 500, c, db)
  saved answer c (ok _, db) = reloading answer c db

  abbrev pub put_provider : ℕ → Cache → d.Db → Option Provider → Handled getenv read_file d s
  put_provider id c db none = (http_error (codes "invalid JSON body") 400, c, db)
  put_provider id c db (some sent) =
      let p : Provider = record sent { id = id } in
      if is_incomplete p
      then (http_error (codes "provider and models are required") 400, c, db)
      else saved (show_provider 200 (apply_defaults p)) c (save_provider d s p now db)

  abbrev pub resynced : Result Text ℕ × Cache × d.Db → Handled getenv read_file d s
  resynced (err e, c, db) = (http_error e 500, c, db)
  resynced (ok version, c, db) = (write_json 200 (codec.encode (synced (stats c))), c, db)

  abbrev pub sync : Request → Cache → d.Db → Handled getenv read_file d s
  sync r c db =
      if r.method == codes "POST"
      then resynced (reload_cache getenv read_file d s now c db)
      else (refuse_method (codes "POST"), c, db)

  abbrev pub one_row : Request → Cache → d.Db → Option ℕ → Handled getenv read_file d s
  one_row r c db none = (http_error (codes "invalid provider id") 400, c, db)
  one_row r c db (some id) =
      if r.method == codes "GET"
      then shown c db (provider id db)
      else if r.method == codes "PUT"
      then put_provider id c db (codec.decode_provider r.body)
      else if r.method == codes "DELETE"
      then saved (writes_status 204 ∷ []) c (delete_provider d s id now db)
      else (refuse_method (codes "GET, PUT, DELETE"), c, db)

  unfoldable pub admin_provider_by_id : Request → Cache → d.Db → Handled getenv read_file d s
  unfolding provider
  admin_provider_by_id r c db =
      let part = trim_prefix r.path (codes "/internal/providers/") in
      with_admin_auth getenv read_file d s cfg r c db
        (if part == codes "sync" then sync r c db else one_row r c db (parse_id part))
