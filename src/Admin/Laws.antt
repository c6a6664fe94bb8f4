-- ===== src/Admin/Laws.antt =====
-- Nobody administers a router without its key.
use aether_code.Base.{
  none, ℕ, Bool, true, false, List, [], ◌∷◌, Option, some, Text, ◌==◌, text_eq, text_beq_iff,
  if◌then◌else◌, Bool-cases, inl, inr, ◌⊎◌, ◌≡◌, ◌≢◌, refl, ==_ne,
}
use aether_code.Store.Provider.{Time}
use aether_code.Store.Cache.{Cache}
use aether_code.Store.Database.{Database}
use aether_code.Store.Mutations.{Store}
use aether_code.Http.{Write, statuses}
use aether_code.Http.Laws.{statuses-http_error}
use aether_code.Relay.Auth.{AuthConfig, key_from_request, check_admin_auth}
use aether_code.Admin.{Codec, Request, Handled, with_admin_auth}
use aether_code.Admin.Providers.{admin_providers, admin_provider_by_id}
use aether_code.Admin.Channels.{admin_provider_channels, admin_provider_channel_by_id}
use aether_code.Admin.Status.{admin_status}
use aether_code.Admin.Effects.{Effect, Asks, AsksSync, Performs, Reloaded}
use aether_code.Store.Mutations.{
  Mutation, creates_provider, saves_provider, deletes_provider, creates_channel, saves_channel,
  disables_channel, deletes_channel,
}
use aether_code.Admin.Providers.Laws.{admin_providers-Effect, admin_provider_by_id-Effect}
use aether_code.Admin.Providers.Writes.{
  creates_provider-Performs, saves_provider-Performs, deletes_provider-Performs, syncs-Reloaded,
}
use aether_code.Admin.Channels.Laws.{
  admin_provider_channels-Effect, admin_provider_channel_by_id-Effect,
}
use aether_code.Admin.Channels.Writes.{
  creates_channel-Performs, saves_channel-Performs, disables_channel-Performs,
  deletes_channel-Performs,
}
use aether_code.Admin.Routes.{administer}
use aether_code.Admin.{Endpoint, status, providers, provider_by_id, channels, channel_by_id}

check_admin_auth-some :
    (cfg : AuthConfig) (header : Text → Text)
    → (cfg.admin_key ≡ []) ⊎ (key_from_request header ≢ cfg.admin_key)
    → (ws : List Write) × (check_admin_auth cfg header ≡ some ws)
      × (statuses ws ≡ (if cfg.admin_key == [] then 403 else 401) ∷ [])
unfolding check_admin_auth
check_admin_auth-some cfg header h = elim (Bool-cases (cfg.admin_key == [])) [
  | inl t ↦ rw t (_, refl, statuses-http_error _ 403)
  | inr f ↦ elim h [
    | inl e ↦ absurd (clash f ((text_beq_iff cfg.admin_key []).1 e))
    | inr ne ↦
        rw (f, ==_ne (key_from_request header) cfg.admin_key ne)
          (_, refl, statuses-http_error _ 401)
  ]
]
  where
    clash : {b : Bool} → b ≡ false → b ≡ true → ⊥
    clash f t = cc

module _ (codec : Codec) (getenv : Text → Text) (read_file : Text → Option Text) (d : Database)
    (s : Store d) (cfg : AuthConfig) (instance_id : Text) (now : Time) where
  -- The request is answered with the status, and neither the cache nor the database has changed.
  abbrev pub IsRefused : ℕ → Cache → d.Db → Handled getenv read_file d s → Type 0
  IsRefused k c db handled = (ws : List Write) × (handled ≡ (ws, c, db)) × (statuses ws ≡ k ∷ [])

  with_admin_auth-IsRefused :
      (r : Request) (c : Cache) (db : d.Db) (handled : Handled getenv read_file d s)
      → (cfg.admin_key ≡ []) ⊎ (key_from_request r.header ≢ cfg.admin_key)
      → IsRefused
          (if cfg.admin_key == [] then 403 else 401)
          c
          db
          (with_admin_auth getenv read_file d s cfg r c db handled)
  unfolding with_admin_auth
  with_admin_auth-IsRefused r c db handled h =
      let (ws, e, k) = check_admin_auth-some cfg r.header h in rw e (ws, refl, k)

  -- A request for the administration that does not present the configured key is refused, whatever it
  -- asks: with 403 where no key is configured and with 401 otherwise. Neither the cache nor the database
  -- has changed.
  pub administer-IsRefused :
      (e : Endpoint) (r : Request) (c : Cache) (db : d.Db)
      → (cfg.admin_key ≡ []) ⊎ (key_from_request r.header ≢ cfg.admin_key)
      → IsRefused
          (if cfg.admin_key == [] then 403 else 401)
          c
          db
          (administer codec getenv read_file d s cfg instance_id now e r c db)
  unfolding administer admin_status admin_providers admin_provider_by_id admin_provider_channels
      admin_provider_channel_by_id
  administer-IsRefused status r c db h = with_admin_auth-IsRefused r c db _ h
  administer-IsRefused providers r c db h = with_admin_auth-IsRefused r c db _ h
  administer-IsRefused provider_by_id r c db h = with_admin_auth-IsRefused r c db _ h
  administer-IsRefused channels r c db h = with_admin_auth-IsRefused r c db _ h
  administer-IsRefused channel_by_id r c db h = with_admin_auth-IsRefused r c db _ h

  -- With the right key, a reload or a write that the request asks for is carried out.
  abbrev pub IsObeyed : Endpoint → Request → Cache → d.Db → Handled getenv read_file d s → Type 0
  IsObeyed e r c db handled =
      check_admin_auth cfg r.header ≡ none
      → (AsksSync codec e r → Reloaded getenv read_file d s now c db handled)
        × ((m : Mutation) → Asks codec e r m → Performs getenv read_file d s now m c db handled)

  administer-Performs :
      (e : Endpoint) (r : Request) (c : Cache) (db : d.Db) (m : Mutation)
      → check_admin_auth cfg r.header ≡ none
      → Asks codec e r m
      → Performs getenv read_file d s now m c db
          (administer codec getenv read_file d s cfg instance_id now e r c db)
  unfolding administer
  administer-Performs e r c db (creates_provider p) admitted (at, post, sent, full) = rw at (
      creates_provider-Performs codec getenv read_file d s cfg now r c db admitted p post sent full)
  administer-Performs e r c db (saves_provider p) admitted (at, put, id, (sent, body, same), full) =
      rw at (
        saves_provider-Performs codec getenv read_file d s cfg now r c db admitted p sent put id
          body same full)
  administer-Performs e r c db (deletes_provider id) admitted (at, delete, named) =
      rw at (
        deletes_provider-Performs codec getenv read_file d s cfg now r c db admitted id delete
          named)
  administer-Performs e r c db (creates_channel channel) admitted (at, post, sent) = rw at (
      creates_channel-Performs codec getenv read_file d s cfg now r c db admitted channel post sent)
  administer-Performs e r c db (saves_channel channel) admitted (at, put, id, (sent, body, same)) =
      rw at (
        saves_channel-Performs codec getenv read_file d s cfg now r c db admitted channel sent put
          id body same)
  administer-Performs e r c db (disables_channel id) admitted (at, post, named) =
      rw at
        (disables_channel-Performs codec getenv read_file d s cfg now r c db admitted id post named)
  administer-Performs e r c db (deletes_channel id) admitted (at, delete, named) =
      rw at (
        deletes_channel-Performs codec getenv read_file d s cfg now r c db admitted id delete named)

  administer-Reloaded :
      (e : Endpoint) (r : Request) (c : Cache) (db : d.Db)
      → check_admin_auth cfg r.header ≡ none
      → AsksSync codec e r
      → Reloaded getenv read_file d s now c db
          (administer codec getenv read_file d s cfg instance_id now e r c db)
  unfolding administer
  administer-Reloaded e r c db admitted (at, post, named) =
      rw at (syncs-Reloaded codec getenv read_file d s cfg now r c db admitted (refl, post, named))

  endpoint-Effect :
      (e : Endpoint) (r : Request) (c : Cache) (db : d.Db)
      → e ≢ status
      → Effect getenv read_file d s now codec e r c db
          (administer codec getenv read_file d s cfg instance_id now e r c db)
  unfolding administer
  endpoint-Effect status r c db h = absurd (h refl)
  endpoint-Effect providers r c db h =
      admin_providers-Effect codec getenv read_file d s cfg now r c db
  endpoint-Effect provider_by_id r c db h =
      admin_provider_by_id-Effect codec getenv read_file d s cfg now r c db
  endpoint-Effect channels r c db h =
      admin_provider_channels-Effect codec getenv read_file d s cfg now r c db
  endpoint-Effect channel_by_id r c db h =
      admin_provider_channel_by_id-Effect codec getenv read_file d s cfg now r c db

  -- What a request for providers or channels does. Either nothing has changed, and the request is a GET or
  -- is answered with an error; or it is the POST that asks for a reload, and the cache is reloaded; or it
  -- asks for a write, by its endpoint, method, path and body, and the write is carried out: it has failed,
  -- is answered with an error and has changed nothing, or it has succeeded, and the cache is reloaded from
  -- the database behind it. With the right key, a request that asks for the reload or for a write gets it.
  -- A reload that fails is answered with 500.
  pub administer-Effect :
      (e : Endpoint) (r : Request) (c : Cache) (db : d.Db)
      → e ≢ status
      → Effect getenv read_file d s now codec e r c db
          (administer codec getenv read_file d s cfg instance_id now e r c db)
        × IsObeyed e r c db (administer codec getenv read_file d s cfg instance_id now e r c db)
  administer-Effect e r c db h = (
    endpoint-Effect e r c db h,
    λ admitted. (
      administer-Reloaded e r c db admitted,
      λ m asks. administer-Performs e r c db m admitted asks,
    ),
  )
