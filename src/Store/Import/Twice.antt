-- ===== src/Store/Import/Twice.antt =====
-- A whole import, and a second one behind it.
use aether_code.Base.{
  ℕ, Bool, true, List, [], Text, codes, ◌==◌, text_eq, nat_eq, text_beq_iff, nat_beq_iff, Result,
  ok, err, >>=-eq-ok, ok-injective, Bool-cases, In, All, All-In, keep_all, inl, inr, ◌⊎◌, ◌≡◌, ◌≢◌,
  refl, sym, ap, ◌∙◌, subst, arith,
}
use aether_code.Store.Provider.{Time, Provider, model_list}
use aether_code.Store.Provider.Laws.{IsModelId, model_list-IsModelId}
use aether_code.Store.Channel.{ProviderChannel}
use aether_code.Store.Database.{Database, Table, IsTable, Apart}
use aether_code.Store.Versions.{bump_config_versions}
use aether_code.Store.Versions.Apart.{bump_config_versions-Apart}
use aether_code.Store.Mutations.{Store, channel_names}
use aether_code.Store.Import.{
  is_import_of, is_skipped, import_providers, bump_if_imported, import_body, import_found,
  import_legacy_providers_as_channels,
}
use aether_code.Store.Import.Laws.{AreDone, Keeps, import_providers-AreDone, import_providers-idle}
use aether_code.Store.Import.Apart.{import_providers-Apart}

-- What the import relies on of its tables: the queries answer as the rows say, an insert keeps the legacy id
-- and the model of a channel, and no table is touched through another.
pub record IsImportStore {d : Database} (s : Store d)
    (conflict : ProviderChannel → ProviderChannel → Bool)
    (assigned : ProviderChannel → ProviderChannel → Type 0)
    (provider_conflict : Provider → Provider → Bool)
    (provider_assigned : Provider → Provider → Type 0) : Type 0 where
  pub channels_lawful : IsTable s.channels conflict assigned
  pub providers_lawful : IsTable s.providers provider_conflict provider_assigned
  pub kept :
      (c c' : ProviderChannel)
      → assigned c c'
      → (c'.legacy_provider_id ≡ c.legacy_provider_id) × (c'.public_model_id ≡ c.public_model_id)
  pub channels_apart : Apart s.channels s.providers
  pub versions_apart_channels : Apart s.versions s.channels
  pub versions_apart_providers : Apart s.versions s.providers

module _ (d : Database) (s : Store d) {conflict : ProviderChannel → ProviderChannel → Bool}
    {assigned : ProviderChannel → ProviderChannel → Type 0}
    {provider_conflict : Provider → Provider → Bool}
    {provider_assigned : Provider → Provider → Type 0}
    (lawful : IsImportStore s conflict assigned provider_conflict provider_assigned) where
  bumped-rows :
      {Row : Type 0} (other : Table d Row) (apart : Apart s.versions other) (now : Time) (k : ℕ)
      (db : d.Db) (n : ℕ) (db' : d.Db)
      → bump_if_imported d s now (k, db) ≡ ok (n, db')
      → other.rows db' ≡ other.rows db
  bumped-rows other apart now k db n db' h = elim (Bool-cases (k == 0)) [
    | inl t ↦ ap (λ (x : ℕ × d.Db). other.rows x.1) (sym (ok-injective (rw t at h)))
    | inr f ↦
        let (db1, bumped, h1) =
          >>=-eq-ok (bump_config_versions d s.versions channel_names now db) _ (rw f at h) in
        ap (λ (x : ℕ × d.Db). other.rows x.1) (sym (ok-injective h1))
        ∙ bump_config_versions-Apart d s.versions other apart channel_names now db db1 bumped
  ]

  -- The channels stand for every model of every provider, and the earlier channels are there still.
  abbrev pub IsComplete : d.Db → d.Db → Type 0
  IsComplete db db' =
      ((p : Provider) (m : Text)
        → In p (s.providers.rows db)
        → In m (model_list p)
        → m ≢ codes "*"
        → (c : ProviderChannel) × In c (s.channels.rows db')
          × (c.legacy_provider_id ≡ p.id)
          × (c.public_model_id ≡ m))
      × ((c : ProviderChannel) → In c (s.channels.rows db) → In c (s.channels.rows db'))

  -- What a successful import has done, in its own terms.
  imported-AreDone :
      (ps : List Provider) (now : Time) (db : d.Db) (n : ℕ) (db' : d.Db)
      → import_body d s ps now db ≡ ok (n, db')
      → AreDone d s lawful.channels_lawful lawful.kept ps db'
        × Keeps d s lawful.channels_lawful lawful.kept db db'
        × (s.providers.rows db' ≡ s.providers.rows db)
  imported-AreDone ps now db n db' h =
      let ((k, db1), loop, h1) = >>=-eq-ok (import_providers d s ps 0 db) _ h in
      let (done, keeps) =
        import_providers-AreDone d s lawful.channels_lawful lawful.kept ps 0 db k db1 loop in
      let same = bumped-rows s.channels lawful.versions_apart_channels now k db1 n db' h1 in
      let providers =
        bumped-rows s.providers lawful.versions_apart_providers now k db1 n db' h1
        ∙ import_providers-Apart d s s.providers lawful.channels_apart ps 0 db k db1 loop in
      (
        subst
            (λ (rs : List ProviderChannel).
              All
                (λ p.
                  All
                    (λ m.
                      (is_skipped m ≡ true)
                      ⊎ ((c : ProviderChannel) × In c rs × (is_import_of p m c ≡ true)))
                    (model_list p))
                ps)
            (sym same) done,
        λ c i. subst (λ (rs : List ProviderChannel). In c rs) (sym same) (keeps c i),
        providers,
      )

  import-eq-ok :
      (now : Time) (db : d.Db) (n : ℕ) (db' : d.Db)
      → import_legacy_providers_as_channels d s now db ≡ (ok n, db')
      → import_body d s (s.providers.rows db) now db ≡ ok (n, db')
  unfolding import_legacy_providers_as_channels
  import-eq-ok now db n db' h = go (s.providers.find (λ p. true) db) refl h
    where
      go :
          (r : Result Text (List Provider))
          → s.providers.find (λ p. true) db ≡ r
          → import_found d s now db r ≡ (ok n, db')
          → import_body d s (s.providers.rows db) now db ≡ ok (n, db')
      go (err e) found k = absurd (failed (ap (λ (x : Result Text ℕ × d.Db). x.0) k))
        where
          failed : {e : Text} → ◌≡◌ {A = Result Text ℕ} (err e) (ok n) → ⊥
          failed k = cc
      go (ok ps) found k = elim (d.transaction_cases ℕ (import_body d s ps now) db) [
        | inl (m, db1, made, out) ↦
            ap (λ (qs : List Provider). import_body d s qs now db)
              (sym (lawful.providers_lawful.find-ok _ db ps found ∙ keep_all (s.providers.rows db)))
            ∙ made
            ∙ same_out (sym out ∙ k)
        | inr (e, out) ↦ absurd (failed (ap (λ (x : Result Text ℕ × d.Db). x.0) (sym out ∙ k)))
      ]
        where
          failed : {e : Text} → ◌≡◌ {A = Result Text ℕ} (err e) (ok n) → ⊥
          failed k = cc

          same_out :
              {m : ℕ} {db1 : d.Db}
              → ◌≡◌ {A = Result Text ℕ × d.Db} (ok m, db1) (ok n, db')
              → ◌≡◌ {A = Result Text (ℕ × d.Db)} (ok (m, db1)) (ok (n, db'))
          same_out k = cc

  star_of_skipped : (m : Text) → m ≢ [] → is_skipped m ≡ true → m ≡ codes "*"
  star_of_skipped m named t = ground (arith, text_beq_iff m [], text_beq_iff m (codes "*"))

  named :
      (p : Provider) (c : ProviderChannel) (m : Text)
      → is_import_of p m c ≡ true
      → (c.legacy_provider_id ≡ p.id) × (c.public_model_id ≡ m)
  named p c m t = (
    ground (arith, nat_beq_iff c.legacy_provider_id p.id),
    ground (arith, text_beq_iff c.public_model_id m),
  )

  -- A successful import leaves a channel for each model of each provider, but for the wildcard, and keeps
  -- the channels that were there. A second import, at any later time, that nothing has come before and that
  -- succeeds too, imports nothing and leaves the database as it was. The tables answer as their interface
  -- says.
  pub import-IsComplete :
      (now : Time) (db : d.Db) (n : ℕ) (db1 : d.Db)
      → import_legacy_providers_as_channels d s now db ≡ (ok n, db1)
      → IsComplete db db1
        × ((later : Time) (k : ℕ) (db2 : d.Db)
            → import_legacy_providers_as_channels d s later db1 ≡ (ok k, db2)
            → (k ≡ 0) × (db2 ≡ db1))
  import-IsComplete now db n db1 h =
      let ps = s.providers.rows db in
      let (done, keeps, same) = imported-AreDone ps now db n db1 (import-eq-ok now db n db1 h) in
      (
        (
          λ p m at lists star. elim (All-In _ m _ (All-In _ p ps done at) lists) [
            | inl t ↦
                absurd (
                  star
                    (star_of_skipped m (All-In IsModelId m _ (model_list-IsModelId p) lists).0 t))
            | inr (c, i, t) ↦ let e = named p c m t in (c, i, e.0, e.1)
          ],
          keeps,
        ),
        λ later k db2 h2.
            let ((j, db3), loop, h3) =
              >>=-eq-ok (import_providers d s (s.providers.rows db1) 0 db1) _
                (import-eq-ok later db1 k db2 h2) in
            let idle =
              import_providers-idle d s lawful.channels_lawful lawful.kept (s.providers.rows db1) 0
                db1 j db3
                (subst
                  (λ (qs : List Provider). AreDone d s lawful.channels_lawful lawful.kept qs db1)
                  (sym same) done)
                loop in
            let e = ok-injective (rw idle.0 at h3) in
            (ap (λ (x : ℕ × d.Db). x.0) (sym e), ap (λ (x : ℕ × d.Db). x.1) (sym e) ∙ idle.1),
      )
