-- ===== src/Admin/Effects.antt =====
-- What an administration request does to the database and the cache, told by its answer.
use aether_code.Base.{
  ◌≤◌, false, ℕ, true, false, List, [], ◌∷◌, Option, some, Text, codes, text_eq, nat_eq, Result, ok,
  err, inl, inr, ◌⊎◌, ◌≡◌, refl, sym, ap, ◌∙◌,
}
use aether_code.Text.{trim, trim_prefix, split, parse_id}
use aether_code.Store.Provider.{Time, Provider}
use aether_code.Store.Channel.{ProviderChannel}
use aether_code.Store.Cache.{Cache}
use aether_code.Store.Database.{Database}
use aether_code.Store.Mutations.{
  Store, Mutation, creates_provider, saves_provider, deletes_provider, creates_channel,
  saves_channel, disables_channel, deletes_channel, mutate, bumping, then_bump,
}
use aether_code.Store.Sync.{reload_cache}
use aether_code.Http.{http_error, Write, statuses}
use aether_code.Http.Laws.{IsError, statuses-http_error, http_error-IsError}
use aether_code.Admin.{
  Endpoint, providers, provider_by_id, channels, channel_by_id, Codec, Request, Handled,
  then_reload, reloaded_then,
}
use aether_code.Admin.Providers.{is_incomplete}

module _ (codec : Codec) where
  -- The id behind the prefix of a path, and what stands behind the id.
  abbrev pub IdInPath : Text → Text → ℕ → List Text → Type 0
  IdInPath prefix path id rest =
      (first : Text) × (split (trim (trim_prefix path prefix) b'/') b'/' ≡ first ∷ rest)
      × (parse_id first ≡ some id)

  -- The request at the endpoint asks for the write.
  abbrev pub Asks : Endpoint → Request → Mutation → Type 0
  Asks e r (creates_provider p) =
      (e ≡ providers)
      × (r.method ≡ codes "POST")
      × (codec.decode_provider r.body ≡ some p)
      × (is_incomplete p ≡ false)
  Asks e r (saves_provider p) =
      (e ≡ provider_by_id)
      × (r.method ≡ codes "PUT")
      × (parse_id (trim_prefix r.path (codes "/internal/providers/")) ≡ some p.id)
      × ((sent : Provider) × (codec.decode_provider r.body ≡ some sent)
          × (p ≡ record sent { id = p.id }))
      × (is_incomplete p ≡ false)
  Asks e r (deletes_provider id) =
      (e ≡ provider_by_id)
      × (r.method ≡ codes "DELETE")
      × (parse_id (trim_prefix r.path (codes "/internal/providers/")) ≡ some id)
  Asks e r (creates_channel c) =
      (e ≡ channels) × (r.method ≡ codes "POST") × (codec.decode_channel r.body ≡ some c)
  Asks e r (saves_channel c) =
      (e ≡ channel_by_id)
      × (r.method ≡ codes "PUT")
      × IdInPath (codes "/internal/provider-channels/") r.path c.id []
      × ((sent : ProviderChannel) × (codec.decode_channel r.body ≡ some sent)
          × (c ≡ record sent { id = c.id }))
  Asks e r (disables_channel id) =
      (e ≡ channel_by_id)
      × (r.method ≡ codes "POST")
      × IdInPath (codes "/internal/provider-channels/") r.path id (codes "disable" ∷ [])
  Asks e r (deletes_channel id) =
      (e ≡ channel_by_id)
      × (r.method ≡ codes "DELETE")
      × IdInPath (codes "/internal/provider-channels/") r.path id []

  -- The request at the endpoint asks for a reload of the cache and no more.
  abbrev pub AsksSync : Endpoint → Request → Type 0
  AsksSync e r =
      (e ≡ provider_by_id)
      × (r.method ≡ codes "POST")
      × (trim_prefix r.path (codes "/internal/providers/") ≡ codes "sync")

module _ (getenv : Text → Text) (read_file : Text → Option Text) (d : Database) (s : Store d)
    (now : Time) where
  -- The cache and the database are those of a reload, and a reload that fails is answered with 500.
  abbrev pub Reloaded : Cache → d.Db → Handled getenv read_file d s → Type 0
  Reloaded c db (ws, c', db') =
      ((version : ℕ) × (reload_cache getenv read_file d s now c db ≡ (ok version, c', db')))
      ⊎ ((e : Text) × (reload_cache getenv read_file d s now c db ≡ (err e, c', db'))
          × (statuses ws ≡ 500 ∷ []))

  -- The write has failed, which is answered with an error, and nothing has changed; or it has succeeded, and
  -- the cache is reloaded from the database behind it.
  abbrev pub Performs : Mutation → Cache → d.Db → Handled getenv read_file d s → Type 0
  Performs m c db (ws, c', db') =
      ((mutate d s m now db ≡ (false, db)) × (c' ≡ c) × (db' ≡ db) × IsError ws)
      ⊎ ((done : d.Db) × (mutate d s m now db ≡ (true, done)) × Reloaded c done (ws, c', db'))

  -- Nothing has changed, and only a read is not answered with an error; or the cache is reloaded, as the
  -- request asks; or a write that the request asks for is carried out.
  abbrev pub Effect :
      Codec → Endpoint → Request → Cache → d.Db → Handled getenv read_file d s → Type 0
  Effect codec e r c db (ws, c', db') =
      ((c' ≡ c) × (db' ≡ db) × ((r.method ≡ codes "GET") ⊎ IsError ws))
      ⊎ (AsksSync codec e r × Reloaded c db (ws, c', db'))
      ⊎ ((m : Mutation) × Asks codec e r m × Performs m c db (ws, c', db'))

  -- What follows a reload leaves the cache and the database alone.
  abbrev pub Keeps : (Cache → d.Db → Handled getenv read_file d s) → Type 0
  Keeps next = (c : Cache) (db : d.Db) → (ws : List Write) × (next c db ≡ (ws, c, db))

  reloaded_then-Reloaded :
      (next : Cache → d.Db → Handled getenv read_file d s) (c : Cache) (db : d.Db)
      (out : Result Text ℕ × Cache × d.Db)
      → Keeps next
      → reload_cache getenv read_file d s now c db ≡ out
      → Reloaded c db (reloaded_then getenv read_file d s next out)
  reloaded_then-Reloaded next c db (ok v, c', db') keeps e =
      let (ws, same) = keeps c' db' in rw same (inl (v, e))
  reloaded_then-Reloaded next c db (err x, c', db') keeps e = inr (x, e, statuses-http_error x 500)

  pub then_reload-Reloaded :
      (next : Cache → d.Db → Handled getenv read_file d s) (c : Cache) (db : d.Db)
      → Keeps next
      → Reloaded c db (then_reload getenv read_file d s now next c db)
  unfolding then_reload
  then_reload-Reloaded next c db keeps = reloaded_then-Reloaded next c db _ keeps refl

  -- A write whose transaction fails has changed nothing.
  pub bumping-err :
      (A : Type 0) (names : List Text) (statement : d.Db → Result Text (A × d.Db)) (db : d.Db)
      {e : Text} {db' : d.Db}
      → bumping d s A names now statement db ≡ (err e, db')
      → db' ≡ db
  bumping-err A names statement db {e} {db'} h =
      elim (d.transaction_cases A (then_bump d s names now statement) db) [
        | inl (a, db1, _, out) ↦
            absurd (clash (ap (λ (x : Result Text A × d.Db). x.0) (sym out ∙ h)))
        | inr (x, out) ↦ ap (λ (y : Result Text A × d.Db). y.1) (sym h ∙ out)
      ]
    where
      clash : {a : A} → ok a ≡ err e → ⊥
      clash k = cc

  pub failed-Performs :
      (m : Mutation) (c : Cache) (db : d.Db) (message : Text) (k : ℕ) (db' : d.Db)
      → 400 ≤ k
      → mutate d s m now db ≡ (false, db)
      → db' ≡ db
      → Performs m c db (http_error message k, c, db')
  failed-Performs m c db message k db' bad made e =
      inl (made, refl, e, http_error-IsError message k bad)

  pub done-Performs :
      (m : Mutation) (c : Cache) (db done : d.Db)
      (next : Cache → d.Db → Handled getenv read_file d s)
      → mutate d s m now db ≡ (true, done)
      → Keeps next
      → Performs m c db (then_reload getenv read_file d s now next c done)
  done-Performs m c db done next made keeps =
      inr (done, made, then_reload-Reloaded next c done keeps)

  pub answering : (ws : List Write) → Keeps (λ c db. (ws, c, db))
  answering ws c db = (ws, refl)

  module _ (codec : Codec) (e : Endpoint) (r : Request) (c : Cache) (db : d.Db) where
    pub refused-Effect : (ws : List Write) → IsError ws → Effect codec e r c db (ws, c, db)
    refused-Effect ws h = inl (refl, refl, inr h)

    pub read-Effect : (ws : List Write) → r.method ≡ codes "GET" → Effect codec e r c db (ws, c, db)
    read-Effect ws h = inl (refl, refl, inl h)

    pub asked-Effect :
        (m : Mutation) (handled : Handled getenv read_file d s)
        → Asks codec e r m
        → Performs m c db handled
        → Effect codec e r c db handled
    asked-Effect m handled asks performs = inr (inr (m, asks, performs))
