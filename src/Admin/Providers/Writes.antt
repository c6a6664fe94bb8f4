-- ===== src/Admin/Providers/Writes.antt =====
-- The writes of providers, and that a request which asks for one gets it.
use aether_code.Base.{
  false, sym, ap, subst, text_beq, ◌∙◌, ℕ, List, Option, none, some, Text, codes, ◌==◌, text_eq,
  text_beq_iff, Result, ok, err, Bool-cases, inl, inr, ◌≡◌, refl, arith,
}
use aether_code.Text.{trim_prefix, parse_id, parse_uint, scan_digits}
use aether_code.Store.Provider.{Time, Provider}
use aether_code.Store.Cache.{Cache}
use aether_code.Store.Database.{Database}
use aether_code.Store.Mutations.{
  Store, creates_provider, saves_provider, deletes_provider, mutate, create_provider, save_provider,
  delete_provider,
}
use aether_code.Store.Sync.{reload_cache}
use aether_code.Http.{Write}
use aether_code.Http.Laws.{statuses-http_error}
use aether_code.Relay.Auth.{AuthConfig, check_admin_auth}
use aether_code.Admin.{provider_by_id, Codec, Request, with_admin_auth}
use aether_code.Admin.Providers
use aether_code.Admin.Providers.{
  is_incomplete, show_provider, admin_providers, admin_provider_by_id,
}
use aether_code.Admin.Effects.{
  AsksSync, Reloaded, Performs, bumping-err, failed-Performs, done-Performs, answering,
}

module _ (codec : Codec) (getenv : Text → Text) (read_file : Text → Option Text) (d : Database)
    (s : Store d) (cfg : AuthConfig) (now : Time) (r : Request) (c : Cache) (db : d.Db) where
  pub created-Performs :
      (p : Provider) (out : Result Text Provider × d.Db)
      → create_provider d s p now db ≡ out
      → Performs getenv read_file d s now
          (creates_provider p)
          c
          db
          (Providers.created codec getenv read_file d s cfg now c out)
  unfolding mutate create_provider
  created-Performs p (err e, db') made =
      let kept = bumping-err getenv read_file d s now Provider _ _ db made in
      failed-Performs getenv read_file d s now (creates_provider p) c db e 500 db' (omega arith)
        (rw made (ap (λ (x : d.Db). (false, x)) kept)) kept
  created-Performs p (ok q, db') made =
      done-Performs getenv read_file d s now (creates_provider p) c db db' _ (rw made refl) (
        answering getenv read_file d s now (show_provider codec getenv read_file d s cfg now 201 q))

  pub saved-Performs :
      (p : Provider) (ws : List Write) (out : Result Text (Unit {0}) × d.Db)
      → save_provider d s p now db ≡ out
      → Performs getenv read_file d s now
          (saves_provider p)
          c
          db
          (Providers.saved codec getenv read_file d s cfg now ws c out)
  unfolding mutate save_provider
  saved-Performs p ws (err e, db') made =
      let kept = bumping-err getenv read_file d s now (Unit {0}) _ _ db made in
      failed-Performs getenv read_file d s now (saves_provider p) c db e 500 db' (omega arith)
        (rw made (ap (λ (x : d.Db). (false, x)) kept)) kept
  saved-Performs p ws (ok q, db') made =
      done-Performs getenv read_file d s now (saves_provider p) c db db' _ (rw made refl)
        (answering getenv read_file d s now ws)

  pub deleted-Performs :
      (id : ℕ) (ws : List Write) (out : Result Text (Unit {0}) × d.Db)
      → delete_provider d s id now db ≡ out
      → Performs getenv read_file d s now
          (deletes_provider id)
          c
          db
          (Providers.saved codec getenv read_file d s cfg now ws c out)
  unfolding mutate delete_provider
  deleted-Performs id ws (err e, db') made =
      let kept = bumping-err getenv read_file d s now (Unit {0}) _ _ db made in
      failed-Performs getenv read_file d s now (deletes_provider id) c db e 500 db' (omega arith)
        (rw made (ap (λ (x : d.Db). (false, x)) kept)) kept
  deleted-Performs id ws (ok q, db') made =
      done-Performs getenv read_file d s now (deletes_provider id) c db db' _ (rw made refl)
        (answering getenv read_file d s now ws)

  pub resynced-Reloaded :
      (out : Result Text ℕ × Cache × d.Db)
      → reload_cache getenv read_file d s now c db ≡ out
      → Reloaded getenv read_file d s now c db
          (Providers.resynced codec getenv read_file d s cfg now out)
  resynced-Reloaded (err e, c', db') made = inr (e, made, statuses-http_error e 500)
  resynced-Reloaded (ok v, c', db') made = inl (v, made)

  -- A request with the right key that asks for a write gets it.
  module _ (admitted : check_admin_auth cfg r.header ≡ none) where
    pub creates_provider-Performs :
        (p : Provider)
        → r.method ≡ codes "POST"
        → codec.decode_provider r.body ≡ some p
        → is_incomplete p ≡ false
        → Performs getenv read_file d s now
            (creates_provider p)
            c
            db
            (admin_providers codec getenv read_file d s cfg now r c db)
    unfolding admin_providers with_admin_auth text_beq
    creates_provider-Performs p post sent full =
        rw (admitted, post, sent, full) (created-Performs p _ refl)

    not_sync : (part : Text) (id : ℕ) → parse_id part ≡ some id → (part == codes "sync") ≡ false
    unfolding parse_id parse_uint scan_digits
    not_sync part id h = elim (Bool-cases (part == codes "sync")) [
      | inl t ↦ absurd (no_id (rw ((text_beq_iff part (codes "sync")).0 t) at h))
      | inr f ↦ f
    ]
      where
        no_id : none ≡ some id → ⊥
        no_id e = cc

    saves_row-Performs :
        (id : ℕ) (sent : Provider)
        → r.method ≡ codes "PUT"
        → parse_id (trim_prefix r.path (codes "/internal/providers/")) ≡ some id
        → codec.decode_provider r.body ≡ some sent
        → is_incomplete (record sent { id = id }) ≡ false
        → Performs getenv read_file d s now
            (saves_provider (record sent { id = id }))
            c
            db
            (admin_provider_by_id codec getenv read_file d s cfg now r c db)
    unfolding admin_provider_by_id with_admin_auth text_beq
    saves_row-Performs id sent put at body full =
        rw (admitted, not_sync _ id at, put, at, body, full)
          (saved-Performs (record sent { id = id }) _ _ refl)

    pub saves_provider-Performs :
        (p sent : Provider)
        → r.method ≡ codes "PUT"
        → parse_id (trim_prefix r.path (codes "/internal/providers/")) ≡ some p.id
        → codec.decode_provider r.body ≡ some sent
        → p ≡ record sent { id = p.id }
        → is_incomplete p ≡ false
        → Performs getenv read_file d s now
            (saves_provider p)
            c
            db
            (admin_provider_by_id codec getenv read_file d s cfg now r c db)
    saves_provider-Performs p sent put at body same full =
        subst
          (λ (x : Provider).
            Performs getenv read_file d s now (saves_provider x) c db
              (admin_provider_by_id codec getenv read_file d s cfg now r c db))
          (sym same)
          (saves_row-Performs p.id sent put at body
            (sym (ap (λ (x : Provider). is_incomplete x) same) ∙ full))

    pub deletes_provider-Performs :
        (id : ℕ)
        → r.method ≡ codes "DELETE"
        → parse_id (trim_prefix r.path (codes "/internal/providers/")) ≡ some id
        → Performs getenv read_file d s now
            (deletes_provider id)
            c
            db
            (admin_provider_by_id codec getenv read_file d s cfg now r c db)
    unfolding admin_provider_by_id with_admin_auth text_beq
    deletes_provider-Performs id delete at =
        rw (admitted, not_sync _ id at, delete, at) (deleted-Performs id _ _ refl)

    pub syncs-Reloaded :
        AsksSync codec provider_by_id r
        → Reloaded getenv read_file d s now c db
            (admin_provider_by_id codec getenv read_file d s cfg now r c db)
    unfolding admin_provider_by_id with_admin_auth text_beq
    syncs-Reloaded (_, post, at) = rw (admitted, post, at) (resynced-Reloaded _ refl)
