-- ===== src/Admin/Providers/Laws.antt =====
-- The effect of each request for providers.
use aether_code.Base.{
  ℕ, List, Option, none, some, Text, codes, ◌==◌, text_eq, text_beq_iff, Result, ok, err,
  Bool-cases, inl, inr, ◌≡◌, refl, arith,
}
use aether_code.Text.{trim_prefix, parse_id}
use aether_code.Store.Provider.{Time, Provider}
use aether_code.Store.Cache.{Cache}
use aether_code.Store.Database.{Database}
use aether_code.Store.Mutations.{Store, creates_provider, saves_provider, deletes_provider}
use aether_code.Relay.Auth.{AuthConfig}
use aether_code.Admin.{providers, provider_by_id, Codec, Request, Handled}
use aether_code.Admin.Providers
use aether_code.Admin.Providers.{
  is_incomplete, show_provider, admin_providers, admin_provider_by_id,
}
use aether_code.Admin.Effects.{read-Effect, asked-Effect}
use aether_code.Admin.Answers.{HasEffect, refusal, method_refusal, admitted-Effect}
use aether_code.Admin.Providers.Writes.{
  created-Performs, saved-Performs, deleted-Performs, resynced-Reloaded,
}

module _ (codec : Codec) (getenv : Text → Text) (read_file : Text → Option Text) (d : Database)
    (s : Store d) (cfg : AuthConfig) (now : Time) (r : Request) (c : Cache) (db : d.Db) where
  abbrev OfList : Handled getenv read_file d s → Type 0
  OfList handled = HasEffect codec getenv read_file d s cfg now providers r c db handled

  abbrev OfRow : Handled getenv read_file d s → Type 0
  OfRow handled = HasEffect codec getenv read_file d s cfg now provider_by_id r c db handled

  post_provider-Effect :
      (o : Option Provider)
      → r.method ≡ codes "POST"
      → codec.decode_provider r.body ≡ o
      → OfList (Providers.post_provider codec getenv read_file d s cfg now c db o)
  post_provider-Effect none post sent =
      refusal codec getenv read_file d s cfg now providers r c db _ 400 (omega arith)
  post_provider-Effect (some p) post sent = elim (Bool-cases (is_incomplete p)) [
    | inl t ↦ rw t (refusal codec getenv read_file d s cfg now providers r c db _ 400 (omega arith))
    | inr f ↦ rw f (
        asked-Effect getenv read_file d s now codec providers r c db (creates_provider p) _
          (refl, post, sent, f)
          (created-Performs codec getenv read_file d s cfg now r c db p _ refl))
  ]

  listed-Effect :
      (o : Result Text (List Provider))
      → r.method ≡ codes "GET"
      → OfList (Providers.listed codec getenv read_file d s cfg now c db o)
  listed-Effect (err e) get =
      refusal codec getenv read_file d s cfg now providers r c db e 500 (omega arith)
  listed-Effect (ok ps) get = read-Effect getenv read_file d s now codec providers r c db _ get

  shown-Effect :
      (o : Result Text Provider)
      → r.method ≡ codes "GET"
      → OfRow (Providers.shown codec getenv read_file d s cfg now c db o)
  shown-Effect (err e) get =
      refusal codec getenv read_file d s cfg now provider_by_id r c db e 404 (omega arith)
  shown-Effect (ok p) get = read-Effect getenv read_file d s now codec provider_by_id r c db _ get

  put_provider-Effect :
      (id : ℕ) (o : Option Provider)
      → r.method ≡ codes "PUT"
      → parse_id (trim_prefix r.path (codes "/internal/providers/")) ≡ some id
      → codec.decode_provider r.body ≡ o
      → OfRow (Providers.put_provider codec getenv read_file d s cfg now id c db o)
  put_provider-Effect id none put at sent =
      refusal codec getenv read_file d s cfg now provider_by_id r c db _ 400 (omega arith)
  put_provider-Effect id (some p) put at sent =
      elim (Bool-cases (is_incomplete (record p { id = id }))) [
        | inl t ↦
            rw t
              (refusal codec getenv read_file d s cfg now provider_by_id r c db _ 400 (omega arith))
        | inr f ↦ rw f (
            asked-Effect getenv read_file d s now codec provider_by_id r c db
              (saves_provider (record p { id = id })) _ (refl, put, at, (p, sent, refl), f)
              (saved-Performs codec getenv read_file d s cfg now r c db (record p { id = id }) _ _
                refl))
      ]

  one_row-Effect :
      (o : Option ℕ)
      → parse_id (trim_prefix r.path (codes "/internal/providers/")) ≡ o
      → OfRow (Providers.one_row codec getenv read_file d s cfg now r c db o)
  one_row-Effect none at =
      refusal codec getenv read_file d s cfg now provider_by_id r c db _ 400 (omega arith)
  one_row-Effect (some id) at = elim (Bool-cases (r.method == codes "GET")) [
    | inl t ↦ rw t (shown-Effect _ ((text_beq_iff r.method (codes "GET")).0 t))
    | inr f ↦ rw f (elim (Bool-cases (r.method == codes "PUT")) [
      | inl t ↦ rw t (put_provider-Effect id _ ((text_beq_iff r.method (codes "PUT")).0 t) at refl)
      | inr g ↦ rw g (elim (Bool-cases (r.method == codes "DELETE")) [
        | inl t ↦ rw t (
            asked-Effect getenv read_file d s now codec provider_by_id r c db (deletes_provider id)
              _ (refl, (text_beq_iff r.method (codes "DELETE")).0 t, at)
              (deleted-Performs codec getenv read_file d s cfg now r c db id _ _ refl))
        | inr h ↦ rw h (
            method_refusal codec getenv read_file d s cfg now provider_by_id r c db
              (codes "GET, PUT, DELETE"))
      ])
    ])
  ]

  sync-Effect :
      trim_prefix r.path (codes "/internal/providers/") ≡ codes "sync"
      → OfRow (Providers.sync codec getenv read_file d s cfg now r c db)
  sync-Effect at = elim (Bool-cases (r.method == codes "POST")) [
    | inl t ↦ rw t (
        inr (
          inl (
            (refl, (text_beq_iff r.method (codes "POST")).0 t, at),
            resynced-Reloaded codec getenv read_file d s cfg now r c db _ refl,
          )))
    | inr f ↦
        rw f
          (method_refusal codec getenv read_file d s cfg now provider_by_id r c db (codes "POST"))
  ]

  pub admin_providers-Effect : OfList (admin_providers codec getenv read_file d s cfg now r c db)
  unfolding admin_providers
  admin_providers-Effect =
      admitted-Effect codec getenv read_file d s cfg now providers r c db _
        (elim (Bool-cases (r.method == codes "GET")) [
          | inl t ↦ rw t (listed-Effect _ ((text_beq_iff r.method (codes "GET")).0 t))
          | inr f ↦ rw f (elim (Bool-cases (r.method == codes "POST")) [
            | inl t ↦
                rw t (post_provider-Effect _ ((text_beq_iff r.method (codes "POST")).0 t) refl)
            | inr g ↦ rw g (
                method_refusal codec getenv read_file d s cfg now providers r c db
                  (codes "GET, POST"))
          ])
        ])

  pub admin_provider_by_id-Effect :
      OfRow (admin_provider_by_id codec getenv read_file d s cfg now r c db)
  unfolding admin_provider_by_id
  admin_provider_by_id-Effect =
      let part = trim_prefix r.path (codes "/internal/providers/") in
      admitted-Effect codec getenv read_file d s cfg now provider_by_id r c db _
        (elim (Bool-cases (part == codes "sync")) [
          | inl t ↦ rw t (sync-Effect ((text_beq_iff part (codes "sync")).0 t))
          | inr f ↦ rw f (one_row-Effect _ refl)
        ])
