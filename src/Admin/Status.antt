-- ===== src/Admin/Status.antt =====
-- router/internal/app/admin.go: the handler of `/internal/status`. A query for a version that is missing
-- stores it, so the database is passed on from one to the next.
use aether_code.Base.{ℕ, Option, Text, codes, ◌==◌, text_eq, nat_eq, Result, ok, err, if◌then◌else◌}
use aether_code.Store.Provider.{Time}
use aether_code.Store.Cache.{Cache}
use aether_code.Store.Cache.Models.{stats}
use aether_code.Store.Database.{Database}
use aether_code.Store.Versions.{provider_version, provider_channel_version, api_key_version}
use aether_code.Store.Mutations.{Store}
use aether_code.Http.{http_error, write_json, refuse_method}
use aether_code.Relay.Auth.{AuthConfig}
use aether_code.Admin.{report, Codec, Request, Handled, with_admin_auth}

module _ (codec : Codec) (getenv : Text → Text) (read_file : Text → Option Text) (d : Database)
    (s : Store d) (cfg : AuthConfig) (instance_id : Text) (now : Time) where
  abbrev probed :
      Cache
      → d.Db
      → Result Text (ℕ × d.Db)
      → (ℕ → d.Db → Handled getenv read_file d s)
      → Handled getenv read_file d s
  probed c db (err e) next = (http_error e 500, c, db)
  probed c db (ok (version, db')) next = next version db'

  abbrev reported : Cache → d.Db → Handled getenv read_file d s
  reported c db = probed c db (provider_version d s.versions now db) (λ db_version db1.
      probed c db1 (api_key_version d s.versions now db1) (λ key_version db2.
        probed c db2 (provider_channel_version d s.versions now db2) (λ channel_version db3. (
          write_json 200 (
              codec.encode (
                report instance_id db_version channel_version key_version (stats c)
                  ((stats c).version == db_version))),
          c,
          db3,
        ))))

  unfoldable pub admin_status : Request → Cache → d.Db → Handled getenv read_file d s
  admin_status r c db =
      with_admin_auth getenv read_file d s cfg r c db
        (if r.method == codes "GET" then reported c db else (refuse_method (codes "GET"), c, db))
