-- ===== src/Server/Laws.antt =====
-- When the router reports that it is ready.
use aether_code.Base.{
  ℕ, ◌≤◌, Bool, true, false, List, [], ◌∷◌, Option, none, some, Text, Result, ok, err, Bool-cases,
  inl, inr, ◌⊎◌, ◌≡◌, if◌then◌else◌, refl, sym, subst, ap, arith,
}
use aether_code.Store.Provider.{Time}
use aether_code.Store.Cache.{Cache}
use aether_code.Store.Cache.Models.{CacheStats, stats}
use aether_code.Store.Database.{Database, Table, IsTable}
use aether_code.Store.Versions.{
  ConfigVersion, provider_version, api_key_version, provider_config_version_name,
  api_key_config_version_name,
}
use aether_code.Store.Versions.Bump.{version_in, same_name, SameRow}
use aether_code.Store.Versions.Found.{HasOneVersion, config_version-found}
use aether_code.Store.Sync.{is_loaded}
use aether_code.Keys.Cache.{ApiKeyCache}
use aether_code.Http.{Write, statuses, write_json}
use aether_code.Http.Laws.{statuses-write_json}
use aether_code.Server.{
  Readiness, version_read, ready_answer, cached_version, keys_answer, answer, serve_ready,
}

-- What a client sees of an answer: its first status, which is 200 where none is set.
abbrev pub seen_status : List ℕ → ℕ
seen_status [] = 200
seen_status (k ∷ ks) = k

-- A cache is loaded and not older than the database.
abbrev pub IsFresh : ℕ → ℕ → Type 0
IsFresh db_version version = (1 ≤ version) × (db_version ≤ version)

is_loaded_cases :
    (v n : ℕ)
    → (is_loaded (some v) n ≡ true) × IsFresh v n
      ⊎ (is_loaded (some v) n ≡ false) × (IsFresh v n → ⊥)
unfolding is_loaded
is_loaded_cases v n = elim (Bool-cases (is_loaded (some v) n)) [
  | inl t ↦ inl (t, (ground arith, ground arith))
  | inr f ↦ inr (f, λ h. ground arith)
]

version-stats : (c : Cache) → (stats c).version ≡ c.version
unfolding stats
version-stats c = refl

none_loaded : (n : ℕ) → is_loaded none n ≡ false
unfolding is_loaded
none_loaded n = refl

module _ (encode : Readiness → Text) (d : Database) (versions : Table d ConfigVersion)
    (lawful : IsTable versions same_name SameRow) (now : Time) (db : d.Db) where
  ready-status :
      (cached : CacheStats) (version : ℕ)
      → seen_status (statuses (ready_answer encode d versions now cached version)) ≡ 200
  unfolding statuses
  ready-status cached version = refl

  refused-status : (value : Text) → seen_status (statuses (write_json 503 value)) ≡ 503
  refused-status value = ap seen_status (statuses-write_json 503 value)

  -- The keys are not asked for, or their cache is fresh.
  abbrev pub HasKeys : Bool → ℕ → Option ApiKeyCache → Type 0
  HasKeys account_key_auth w keys =
      (account_key_auth ≡ false) ⊎ IsFresh w (cached_version encode d versions now keys)

  -- A query for a version has failed.
  abbrev pub Fails : Type 0
  Fails =
      (e : Text) × ((provider_version d versions now db ≡ err e)
        ⊎ (api_key_version d versions now db ≡ err e))

  abbrev pub Answers : Bool → Cache → Option ApiKeyCache → ℕ → ℕ → List Write × d.Db → Type 0
  Answers account_key_auth c keys v w out =
      (out.1 ≡ db)
      × ((seen_status (statuses out.0) ≡ 200)
            × IsFresh v c.version
            × HasKeys account_key_auth w keys
          ⊎ (seen_status (statuses out.0) ≡ 503)
            × (Fails ⊎ (IsFresh v c.version × HasKeys account_key_auth w keys → ⊥)))

  module _ (c : Cache) (keys : Option ApiKeyCache) (cached : CacheStats) (v w : ℕ)
      (same_cache : cached.version ≡ c.version)
      (one : HasOneVersion provider_config_version_name (versions.rows db))
      (there : version_in provider_config_version_name (versions.rows db) ≡ some v)
      (one' : HasOneVersion api_key_config_version_name (versions.rows db))
      (there' : version_in api_key_config_version_name (versions.rows db) ≡ some w) where
    keys-Answers :
        (version : ℕ) (q : Result Text (ℕ × d.Db))
        → IsFresh v c.version
        → api_key_version d versions now db ≡ q
        → Answers true c keys v w (
            keys_answer encode d versions now keys cached version
              (version_read encode d versions now db q))
    unfolding api_key_version
    keys-Answers version (err e) fresh failed =
        rw (none_loaded (cached_version encode d versions now keys))
          (refl, inr (refused-status _, inl (e, inr failed)))
    keys-Answers version (ok (n, db1)) fresh found =
        let (same, kept) =
          config_version-found d versions lawful _ now db w n db1 one' there' found in
        rw (same, kept)
          (elim (is_loaded_cases w (cached_version encode d versions now keys)) [
            | inl (t, h) ↦ rw t (refl, inl (ready-status cached version, fresh, inr h))
            | inr (f, h) ↦ rw f (refl, inr (refused-status _, inr (λ k. stale h k.1)))
          ])
      where
        stale :
            (IsFresh w (cached_version encode d versions now keys) → ⊥) → HasKeys true w keys → ⊥
        stale h (inl a) = cc
        stale h (inr g) = h g

    loaded-Answers :
        (account_key_auth : Bool)
        → IsFresh v c.version
        → Answers account_key_auth c keys v w (
            if account_key_auth
            then keys_answer encode d versions now keys cached v
                (version_read encode d versions now db (api_key_version d versions now db))
            else (ready_answer encode d versions now cached v, db))
    loaded-Answers true fresh = keys-Answers v (api_key_version d versions now db) fresh refl
    loaded-Answers false fresh = (refl, inl (ready-status cached v, fresh, inl refl))

    answer-Answers :
        (account_key_auth : Bool) (q : Result Text (ℕ × d.Db))
        → provider_version d versions now db ≡ q
        → Answers account_key_auth c keys v w (
            answer encode d versions now account_key_auth keys cached
              (version_read encode d versions now db q))
    unfolding provider_version
    answer-Answers account_key_auth (err e) failed =
        rw (none_loaded cached.version) (refl, inr (refused-status _, inl (e, inl failed)))
    answer-Answers account_key_auth (ok (n, db1)) found =
        let (same, kept) =
          config_version-found d versions lawful _ now db v n db1 one there found in
        rw (same, kept)
          (elim (is_loaded_cases v cached.version) [
            | inl (t, h) ↦ rw t (loaded-Answers account_key_auth (subst (IsFresh v) same_cache h))
            | inr (f, h) ↦ rw f (
              refl,
              inr (refused-status _, inr (λ k. h (subst (IsFresh v) (sym same_cache) k.0))),
            )
          ])

  -- The readiness probe changes nothing, and answers 200 exactly if the routing cache has been loaded and is
  -- not older than the version that the database holds, and the same holds of the cache of keys where accounts
  -- authenticate with them; but a failed query for a version also gives 503, as everything else does. Each
  -- version is stored under its name once, and the table answers as its interface says.
  pub serve_ready-Answers :
      (account_key_auth : Bool) (c : Cache) (keys : Option ApiKeyCache) (v w : ℕ)
      → HasOneVersion provider_config_version_name (versions.rows db)
      → version_in provider_config_version_name (versions.rows db) ≡ some v
      → HasOneVersion api_key_config_version_name (versions.rows db)
      → version_in api_key_config_version_name (versions.rows db) ≡ some w
      → Answers account_key_auth c keys v w
          (serve_ready encode d versions now account_key_auth c keys db)
  unfolding serve_ready
  serve_ready-Answers account_key_auth c keys v w one there one' there' =
      answer-Answers c keys (stats c) v w (version-stats c) one there one' there' account_key_auth
        (provider_version d versions now db) refl
