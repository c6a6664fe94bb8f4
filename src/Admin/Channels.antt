-- ===== src/Admin/Channels.antt =====
-- router/internal/app/admin_channels.go: the handlers of `/internal/provider-channels` and
-- `/internal/provider-channels/`. An answer shows a saved row without the time stamps that gorm sets.
pub mod Writes
pub mod Laws
use aether_code.Base.{
  ℕ, Bool, true, false, List, [], ◌∷◌, map, Option, none, some, Text, codes, ◌==◌, text_eq, nat_eq,
  Result, ok, err, if◌then◌else◌,
}
use aether_code.Text.{trim, trim_prefix, split, parse_id}
use aether_code.Store.Provider.{Time}
use aether_code.Store.Channel.{ProviderChannel, apply_defaults}
use aether_code.Store.Channel.Public.{public}
use aether_code.Store.Cache.{Cache}
use aether_code.Store.Database.{Database, Table}
use aether_code.Store.Mutations.{
  Store, create_provider_channel, save_provider_channel, disable_provider_channel,
  delete_provider_channel,
}
use aether_code.Keys.Lifecycle.{queried}
use aether_code.Http.{Write, writes_status, http_error, http_not_found, write_json, refuse_method}
use aether_code.Relay.Auth.{AuthConfig}
use aether_code.Admin.{
  Value, channel_list, one_channel, Codec, Request, Handled, then_reload, with_admin_auth,
}

-- The row that a successful save has left behind its pointer.
abbrev pub defaulted : ProviderChannel → Result Text ProviderChannel → ProviderChannel
defaulted c (ok c') = c'
defaulted c (err e) = c

module _ (codec : Codec) (getenv : Text → Text) (read_file : Text → Option Text) (d : Database)
    (s : Store d) (cfg : AuthConfig) (now : Time) where
  -- `Store.ProviderChannels` and `Store.ProviderChannel`
  unfoldable pub provider_channels : d.Db → Result Text (List ProviderChannel)
  provider_channels db = s.channels.find (λ c. true) db

  unfoldable pub provider_channel : ℕ → d.Db → Result Text ProviderChannel
  provider_channel id db = queried (s.channels.first (λ c. c.id == id) db)

  abbrev pub reloading : List Write → Cache → d.Db → Handled getenv read_file d s
  reloading answer c db = then_reload getenv read_file d s now (λ c' db'. (answer, c', db')) c db

  abbrev pub show_channel : ℕ → ProviderChannel → List Write
  show_channel status c = write_json status (codec.encode (one_channel (public c)))

  abbrev pub listed :
      Cache → d.Db → Result Text (List ProviderChannel) → Handled getenv read_file d s
  listed c db (err e) = (http_error e 500, c, db)
  listed c db (ok cs) = (write_json 200 (codec.encode (channel_list (map public cs))), c, db)

  abbrev pub created : Cache → Result Text ProviderChannel × d.Db → Handled getenv read_file d s
  created c (err e, db) = (http_error e 400, c, db)
  created c (ok channel, db) = reloading (show_channel 201 channel) c db

  abbrev pub post_channel : Cache → d.Db → Option ProviderChannel → Handled getenv read_file d s
  post_channel c db none = (http_error (codes "invalid JSON body") 400, c, db)
  post_channel c db (some channel) = created c (create_provider_channel d s channel now db)

  unfoldable pub admin_provider_channels : Request → Cache → d.Db → Handled getenv read_file d s
  unfolding provider_channels
  admin_provider_channels r c db = with_admin_auth getenv read_file d s cfg r c db (
      if r.method == codes "GET"
      then listed c db (provider_channels db)
      else if r.method == codes "POST"
      then post_channel c db (codec.decode_channel r.body)
      else (refuse_method (codes "GET, POST"), c, db))

  abbrev pub shown : Cache → d.Db → Result Text ProviderChannel → Handled getenv read_file d s
  shown c db (err e) = (http_error e 404, c, db)
  shown c db (ok channel) = (show_channel 200 channel, c, db)

  abbrev pub saved :
      ℕ → List Write → Cache → Result Text (Unit {0}) × d.Db → Handled getenv read_file d s
  saved status answer c (err e, db) = (http_error e status, c, db)
  saved status answer c (ok _, db) = reloading answer c db

  abbrev pub put_channel : ℕ → Cache → d.Db → Option ProviderChannel → Handled getenv read_file d s
  put_channel id c db none = (http_error (codes "invalid JSON body") 400, c, db)
  put_channel id c db (some sent) =
      let channel : ProviderChannel = record sent { id = id } in
      saved 400 (show_channel 200 (defaulted channel (apply_defaults channel))) c
        (save_provider_channel d s channel now db)

  -- The row is read again once the cache is reloaded.
  abbrev pub disabled : ℕ → Cache → Result Text (Unit {0}) × d.Db → Handled getenv read_file d s
  disabled id c (err e, db) = (http_error e 500, c, db)
  disabled id c (ok _, db) =
      then_reload getenv read_file d s now (λ c' db'. shown c' db' (provider_channel id db')) c db

  abbrev pub disable : ℕ → Request → Cache → d.Db → Handled getenv read_file d s
  disable id r c db =
      if r.method == codes "POST"
      then disabled id c (disable_provider_channel d s id now db)
      else (refuse_method (codes "POST"), c, db)

  abbrev pub one_row : ℕ → Request → Cache → d.Db → Handled getenv read_file d s
  one_row id r c db =
      if r.method == codes "GET"
      then shown c db (provider_channel id db)
      else if r.method == codes "PUT"
      then put_channel id c db (codec.decode_channel r.body)
      else if r.method == codes "DELETE"
      then saved 500 (writes_status 204 ∷ []) c (delete_provider_channel d s id now db)
      else (refuse_method (codes "GET, PUT, DELETE"), c, db)

  -- What stands behind the id in the path.
  abbrev pub behind_id : ℕ → List Text → Request → Cache → d.Db → Handled getenv read_file d s
  behind_id id [] r c db = one_row id r c db
  behind_id id (word ∷ []) r c db =
      if word == codes "disable" then disable id r c db else (http_not_found, c, db)
  behind_id id (word ∷ next ∷ rest) r c db = (http_not_found, c, db)

  abbrev pub with_id : Option ℕ → List Text → Request → Cache → d.Db → Handled getenv read_file d s
  with_id none rest r c db = (http_error (codes "invalid provider channel id") 400, c, db)
  with_id (some id) rest r c db = behind_id id rest r c db

  abbrev pub with_parts : List Text → Request → Cache → d.Db → Handled getenv read_file d s
  with_parts [] r c db = (http_error (codes "invalid provider channel id") 400, c, db)
  with_parts (first ∷ rest) r c db =
      if first == []
      then (http_error (codes "invalid provider channel id") 400, c, db)
      else with_id (parse_id first) rest r c db

  unfoldable pub admin_provider_channel_by_id :
      Request → Cache → d.Db → Handled getenv read_file d s
  unfolding provider_channel
  admin_provider_channel_by_id r c db =
      let rest = trim (trim_prefix r.path (codes "/internal/provider-channels/")) b'/' in
      with_admin_auth getenv read_file d s cfg r c db (with_parts (split rest b'/') r c db)
