-- ===== src/Store/Sync/Ticks.antt =====
-- A tick of the refresh loop that nothing interrupts.
use aether_code.Base.{
  ℕ, ◌<◌, Bool, true, List, Option, some, Text, ◌==◌, nat_eq, text_eq, nat_beq_iff, ok, >>=-eq-ok,
  ok-injective, Bool-cases, inl, inr, ◌⊎◌, ◌≡◌, ◌≢◌, refl, sym, ap, ◌∙◌, arith, keep_all,
}
use aether_code.Store.Provider.{Provider, Time}
use aether_code.Store.Channel.{ProviderChannel}
use aether_code.Store.Cache.{Cache, replace}
use aether_code.Store.Database.{Database, IsTable}
use aether_code.Store.Versions.{config_version, provider_config_version_name}
use aether_code.Store.Versions.Found.{HasOneVersion, config_version-found}
use aether_code.Store.Versions.Bump.{version_in, same_name, SameRow}
use aether_code.Store.Mutations.{Store}
use aether_code.Store.Sync.{is_loaded, routing_rows, routing_providers, reload_cache, sync_tick}

module _ (getenv : Text → Text) (read_file : Text → Option Text) (d : Database) (s : Store d)
    {conflict : Provider → Provider → Bool} {assigned : Provider → Provider → Type 0}
    {conflict' : ProviderChannel → ProviderChannel → Bool}
    {assigned' : ProviderChannel → ProviderChannel → Type 0}
    (versions_lawful : IsTable s.versions same_name SameRow)
    (providers_lawful : IsTable s.providers conflict assigned)
    (channels_lawful : IsTable s.channels conflict' assigned') where
  routing_providers-rows :
      (db : d.Db) (rows : List Provider)
      → routing_providers getenv read_file d s db ≡ ok rows
      → rows ≡ routing_rows getenv read_file d s (s.providers.rows db) (s.channels.rows db)
  unfolding routing_providers
  routing_providers-rows db rows h =
      let (ps, found, h1) = >>=-eq-ok (s.providers.find (λ p. true) db) _ h in
      let (cs, found', h2) = >>=-eq-ok (s.channels.find (λ c. true) db) _ h1 in
      sym (ok-injective h2)
      ∙ ap (λ (x : List Provider). routing_rows getenv read_file d s x cs)
          (providers_lawful.find-ok _ db ps found ∙ keep_all (s.providers.rows db))
      ∙ ap (λ (x : List ProviderChannel). routing_rows getenv read_file d s (s.providers.rows db) x)
          (channels_lawful.find-ok _ db cs found' ∙ keep_all (s.channels.rows db))

  is_loaded_self : (v : ℕ) → 0 < v → is_loaded (some v) v ≡ true
  unfolding is_loaded
  is_loaded_self v h = ground arith

  reload_cache-ok :
      (now : Time) (c : Cache) (db : d.Db) (v : ℕ) (rows : List Provider)
      → config_version d s.versions provider_config_version_name now db ≡ ok (v, db)
      → routing_providers getenv read_file d s db ≡ ok rows
      → reload_cache getenv read_file d s now c db ≡ (ok v, replace rows v now, db)
  unfolding reload_cache
  reload_cache-ok now c db v rows asked listed = rw (asked, listed) refl

  version-replace : (rows : List Provider) (v : ℕ) (now : Time) → (replace rows v now).version ≡ v
  unfolding replace
  version-replace rows v now = refl

  -- What a tick leaves when its queries answer: the database as it was, and a cache that passes the
  -- readiness test.
  abbrev pub IsRefreshed : ℕ → Time → Cache → d.Db → Cache × d.Db → Type 0
  IsRefreshed v now c db out =
      (out.1 ≡ db)
      × (out.0.version ≡ v)
      × (is_loaded (some v) out.0.version ≡ true)
      × ((c.version ≡ v) × (out.0 ≡ c)
          ⊎ (c.version ≢ v)
            × (out.0
                ≡ replace
                    (routing_rows getenv read_file d s (s.providers.rows db) (s.channels.rows db)) v
                    now))

  -- A tick of the refresh loop whose queries answer makes the router ready: the cache has the version of
  -- the database, and passes the readiness test. A cache of another version is replaced by the one made
  -- of the rows that the database holds, and the database is as it was. The version is at least 1 and its
  -- name is a primary key, nothing writes in between, and the tables answer as their interface says.
  pub sync_tick-IsRefreshed :
      (now : Time) (c : Cache) (db : d.Db) (v w : ℕ) (db1 : d.Db) (rows : List Provider)
      → HasOneVersion provider_config_version_name (s.versions.rows db)
      → version_in provider_config_version_name (s.versions.rows db) ≡ some v
      → 0 < v
      → config_version d s.versions provider_config_version_name now db ≡ ok (w, db1)
      → routing_providers getenv read_file d s db ≡ ok rows
      → IsRefreshed v now c db (sync_tick getenv read_file d s now c db)
  unfolding sync_tick
  sync_tick-IsRefreshed now c db v w db1 rows one there positive asked listed =
      let (same, kept) =
        config_version-found d s.versions versions_lawful _ now db v w db1 one there asked in
      let asked' : config_version d s.versions provider_config_version_name now db ≡ ok (v, db) =
        asked ∙ ap ok (ap (λ (x : ℕ). (x, db1)) same ∙ ap (λ (x : d.Db). (v, x)) kept) in
      let made = routing_providers-rows db rows listed in
      rw asked' (elim (Bool-cases (c.version == v)) [
        | inl t ↦
            let e = (nat_beq_iff c.version v).0 t in
            rw t (refl, e, rw e (is_loaded_self v positive), inl (e, refl))
        | inr f ↦
            let version = version-replace rows v now in
            rw (f, reload_cache-ok now c db v rows asked' listed)
              (
                refl,
                version,
                rw version (is_loaded_self v positive),
                inr (
                  λ e. cc (f, (nat_beq_iff c.version v).1 e),
                  ap (λ (x : List Provider). replace x v now) made,
                ),
              )
      ])
