-- ===== src/Store/Sync/Laws.antt =====
-- The cache is never ahead of the database, and is current once it has the version of the database.
use aether_code.Base.{
  ℕ, suc, ◌+◌, ◌≤◌, ◌<◌, true, List, [], ◌∷◌, ◌++◌, Option, some, Text, nat_eq, inl, inr, ◌≡◌, refl,
  sym, ap, ◌∙◌, subst, arith, All, some-injective,
}
use aether_code.Store.Provider.{Provider, Time}
use aether_code.Store.Channel.{ProviderChannel}
use aether_code.Store.Cache.{Cache, replace, new_cache}
use aether_code.Store.Database.{Database}
use aether_code.Store.Versions.{provider_config_version_name}
use aether_code.Store.Versions.Bump.{version_in, next}
use aether_code.Store.Mutations.{Store, Mutation, mutate}
use aether_code.Store.Mutations.Laws.{IsStore, mutate-Raises}
use aether_code.Store.Sync.{
  Reload, read_version, read_providers, read_channels, is_loaded, routing_rows, System, Step,
  Reaches, writes, starts, reads_providers, reads_channels, replaces, fails, here, then_step,
}

All-remove :
    (P : Reload → Type 0) (before after : List Reload) (r : Reload)
    → All P (before ++ r ∷ after)
    → P r × All P (before ++ after)
All-remove P [] after r h = h
All-remove P (q ∷ before) after r h =
    let (this, rest) = All-remove P before after r h.1 in (this, (h.0, rest))

All-replace :
    (P : Reload → Type 0) (before after : List Reload) (r r' : Reload)
    → (P r → P r')
    → All P (before ++ r ∷ after)
    → All P (before ++ r' ∷ after)
All-replace P [] after r r' f h = (f h.0, h.1)
All-replace P (q ∷ before) after r r' f h = (h.0, All-replace P before after r r' f h.1)

All-map :
    (P Q : Reload → Type 0) → ((r : Reload) → P r → Q r) → (rs : List Reload) → All P rs → All Q rs
All-map P Q f [] h = tt
All-map P Q f (r ∷ rs) h = (f r h.0, All-map P Q f rs h.1)

module _ (getenv : Text → Text) (read_file : Text → Option Text) (d : Database) (s : Store d)
    (lawful : IsStore s) where
  abbrev pub db_version : d.Db → Option ℕ
  db_version db = version_in provider_config_version_name (s.versions.rows db)

  -- The cache that a reload makes of the current rows.
  abbrev pub Current : d.Db → Cache → Type 0
  Current db c =
      (now : Time) × (c
        ≡ replace (routing_rows getenv read_file d s (s.providers.rows db) (s.channels.rows db))
            c.version now)

  -- What a reload has read is current if the version it has read still is.
  abbrev IsSound : d.Db → ℕ → Reload → Type 0
  IsSound db w (read_version v) = v ≤ w
  IsSound db w (read_providers v ps) = (v ≤ w) × (v ≡ w → ps ≡ s.providers.rows db)
  IsSound db w (read_channels v ps cs) =
      (v ≤ w) × (v ≡ w → (ps ≡ s.providers.rows db) × (cs ≡ s.channels.rows db))

  abbrev pub IsSynced : System getenv read_file d s → Type 0
  IsSynced x =
      (w : ℕ) × (db_version x.db ≡ some w)
      × (0 < w)
      × (x.cache.version ≤ w)
      × (x.cache.version ≡ w → Current x.db x.cache)
      × All (IsSound x.db w) x.reloads

  -- After a write every version that has been read is an old one.
  older : (db db' : d.Db) (w : ℕ) (r : Reload) → IsSound db w r → IsSound db' (w + 1) r
  older db db' w (read_version v) h = omega (arith, h)
  older db db' w (read_providers v ps) h = (omega (arith, h.0), λ e. absurd (omega (arith, h.0, e)))
  older db db' w (read_channels v ps cs) h =
      (omega (arith, h.0), λ e. absurd (omega (arith, h.0, e)))

  writes-IsSynced :
      (x : System getenv read_file d s) (m : Mutation) (now : Time)
      → IsSynced x
      → IsSynced (record x { db = (mutate d s m now x.db).1 })
  writes-IsSynced x m now (w, at, positive, behind, current, sound) =
      elim (mutate-Raises d s lawful m now x.db) [
        | inl (_, same) ↦
            subst
              (λ (db : d.Db). IsSynced (record { db = db; cache = x.cache; reloads = x.reloads }))
              (sym same) (w, at, positive, behind, current, sound)
        | inr (_, raised) ↦ (
          w + 1,
          raised ∙ ap (λ (o : Option ℕ). some (next o)) at,
          omega arith,
          omega (arith, behind),
          λ e. absurd (omega (arith, behind, e)),
          All-map (IsSound x.db w) (IsSound (mutate d s m now x.db).1 (w + 1))
              (older x.db (mutate d s m now x.db).1 w) x.reloads sound,
        )
      ]

  Step-IsSynced :
      {x y : System getenv read_file d s} → Step getenv read_file d s x y → IsSynced x → IsSynced y
  unfolding replace
  Step-IsSynced {x} (writes m now) h = writes-IsSynced x m now h
  Step-IsSynced {x} (starts v e) (w, at, positive, behind, current, sound) =
      let same : v ≡ w = some-injective (sym e ∙ at) in
      (w, at, positive, behind, current, (omega (arith, same), sound))
  Step-IsSynced {x} (reads_providers before after v e) (w, at, positive, behind, current, sound) = (
    w,
    at,
    positive,
    behind,
    current,
    All-replace (IsSound x.db w) before after (read_version v)
        (read_providers v (s.providers.rows x.db)) (λ p. (p, λ _. refl))
        (subst (All (IsSound x.db w)) e sound),
  )
  Step-IsSynced {x} (reads_channels before after v ps e) (w, at, positive, behind, current, sound) =
      (
        w,
        at,
        positive,
        behind,
        current,
        All-replace (IsSound x.db w) before after (read_providers v ps)
            (read_channels v ps (s.channels.rows x.db)) (λ p. (p.0, λ same. (p.1 same, refl)))
            (subst (All (IsSound x.db w)) e sound),
      )
  Step-IsSynced {x} (replaces before after v ps cs now e)
        (w, at, positive, behind, current, sound) =
      let (read, rest) =
        All-remove (IsSound x.db w) before after (read_channels v ps cs)
          (subst (All (IsSound x.db w)) e sound) in
      (w, at, positive, read.0, λ same. made read.1 same, rest)
    where
      made :
          (v ≡ w → (ps ≡ s.providers.rows x.db) × (cs ≡ s.channels.rows x.db))
          → v ≡ w
          → Current x.db (replace (routing_rows getenv read_file d s ps cs) v now)
      made h same =
          let (a, b) = h same in
          (
            now,
            ap (λ (ps' : List Provider). replace (routing_rows getenv read_file d s ps' cs) v now) a
                ∙ ap
                    (λ (cs' : List ProviderChannel).
                      replace (routing_rows getenv read_file d s (s.providers.rows x.db) cs') v now)
                    b,
          )
  Step-IsSynced {x} (fails before after r e) (w, at, positive, behind, current, sound) =
      let (_, rest) =
        All-remove (IsSound x.db w) before after r (subst (All (IsSound x.db w)) e sound) in
      (w, at, positive, behind, current, rest)

  Reaches-IsSynced :
      {x y : System getenv read_file d s}
      → Reaches getenv read_file d s x y
      → IsSynced x
      → IsSynced y
  Reaches-IsSynced here h = h
  Reaches-IsSynced (then_step r step) h = Step-IsSynced step (Reaches-IsSynced r h)

  ready_means : (v w : ℕ) → is_loaded (some w) v ≡ true → v ≤ w → v ≡ w
  unfolding is_loaded
  ready_means v w h le = ground (arith, h, le)

  -- A router starts with an empty cache and no reload, on a database whose version is at least 1.
  -- However writes and the statements of its reloads are interleaved, whenever the readiness test
  -- passes, the cache is the one that a reload makes of the rows that the database holds at that
  -- moment. The tables answer as their interface says.
  pub ready-Current :
      (start x : System getenv read_file d s) (v : ℕ)
      → db_version start.db ≡ some (suc v)
      → start.cache ≡ new_cache
      → start.reloads ≡ []
      → Reaches getenv read_file d s start x
      → is_loaded (db_version x.db) x.cache.version ≡ true
      → Current x.db x.cache
  unfolding new_cache
  ready-Current start x v at empty idle reached ready =
      let nothing : start.cache.version ≡ 0 = ap (λ (c : Cache). c.version) empty in
      let (w, at', _, behind, current, _) = Reaches-IsSynced reached (
        suc v,
        at,
        omega arith,
        omega (arith, nothing),
        λ e. absurd (omega (arith, nothing, e)),
        subst (All (IsSound start.db (suc v))) (sym idle) tt,
      ) in
      current (
        ready_means x.cache.version w
          (sym (ap (λ (o : Option ℕ). is_loaded o x.cache.version) at') ∙ ready) behind)
