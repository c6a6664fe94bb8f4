-- ===== src/Keys/Lifecycle/Laws.antt =====
-- A key that is disabled or revoked is refused from then on, and only the owner's key is.
use aether_code.Base.{
  ℕ, Bool, true, false, ◌&&◌, List, [], ◌∷◌, Option, some, Text, ◌==◌, text_eq, nat_eq,
  text_beq_iff, nat_beq_iff, Result, ok, err, >>=-eq-ok, inl, inr, ◌⊎◌, ◌≡◌, refl, sym, ap, ◌∙◌,
  subst, Bool-cases, In, ok-injective, arith,
}
use aether_code.Text.{trim_space, drop_left, drop_right}
use aether_code.Store.Provider.{Time}
use aether_code.Store.Database.{Database, IsTable, Apart, QueryError, not_found, failed, updated}
use aether_code.Store.Versions.{ConfigVersion, bump_config_versions, api_key_config_version_name}
use aether_code.Store.Versions.Bump.{
  same_name, SameRow, version_in, next, bump_config_versions-head,
}
use aether_code.Store.Versions.Apart.{bump_config_versions-Apart}
use aether_code.Keys.{ApiKey, ApiKeyMetadata}
use aether_code.Keys.Lifecycle.{
  KeyStore, key_names, queried, with_status, owner, set_status_body, set_api_key_status,
}

-- What the keys rely on of their tables.
pub record IsKeyStore {d : Database} (s : KeyStore d) (conflict : ApiKey → ApiKey → Bool)
    (assigned : ApiKey → ApiKey → Type 0) : Type 0 where
  pub keys_lawful : IsTable s.keys conflict assigned
  pub versions_lawful : IsTable s.versions same_name SameRow
  pub keys_apart : Apart s.keys s.versions
  pub versions_apart : Apart s.versions s.keys

queried-eq-ok : {A : Type 0} (r : Result QueryError A) {a : A} → queried r ≡ ok a → r ≡ ok a
queried-eq-ok (ok b) h = ap ok (ok-injective h)
queried-eq-ok (err not_found) h = cc
queried-eq-ok (err (failed e)) h = cc

clean_name : trim_space api_key_config_version_name ≡ api_key_config_version_name
unfolding trim_space drop_left drop_right
clean_name = refl

-- After the update every row of the id has the status.
updated-status :
    (id : ℕ) (status : Text) (now : Time) (rows : List ApiKey) (key : ApiKey)
    → In key (updated (λ k. k.id == id) (with_status status now) rows)
    → key.id ≡ id
    → key.status ≡ status
unfolding with_status
updated-status id status now [] key h e = elim h [ ]
updated-status id status now (r ∷ rows) key (inr h) e = updated-status id status now rows key h e
updated-status id status now (r ∷ rows) key (inl h) e = elim (Bool-cases (r.id == id)) [
  | inl t ↦ ap (λ (k : ApiKey). k.status) (rw t at h)
  | inr f ↦
      let same : key ≡ r = rw f at h in
      absurd
        (clash (r.id == id) f ((nat_beq_iff r.id id).1 (sym (ap (λ (k : ApiKey). k.id) same) ∙ e)))
]
  where
    clash : (b : Bool) → b ≡ false → b ≡ true → ⊥
    clash b h k = cc

module _ (d : Database) (s : KeyStore d) (conflict : ApiKey → ApiKey → Bool)
    (assigned : ApiKey → ApiKey → Type 0) (lawful : IsKeyStore s conflict assigned) where
  abbrev pub key_version : d.Db → Option ℕ
  key_version db = version_in api_key_config_version_name (s.versions.rows db)

  -- The database after a change of the status of one key.
  abbrev pub Changed : Text → ℕ → Text → Time → d.Db → d.Db → Type 0
  Changed external_id id status now db db' =
      ((key : ApiKey) × In key (s.keys.rows db) × (key.id ≡ id) × (owner d s db key ≡ external_id))
      × (s.keys.rows db' ≡ updated (λ k. k.id == id) (with_status status now) (s.keys.rows db))
      × ((key : ApiKey) → In key (s.keys.rows db') → key.id ≡ id → key.status ≡ status)
      × (key_version db' ≡ some (next (key_version db)))

  body-Changed :
      (external_id : Text) (id : ℕ) (status : Text) (now : Time) (db : d.Db) (key : ApiKey)
      (db' : d.Db)
      → set_status_body d s external_id id status now db ≡ ok (key, db')
      → Changed external_id id status now db db'
  body-Changed external_id id status now db key db' h =
      let test = λ (k : ApiKey). k.id == id && (owner d s db k == external_id) in
      let (found, q, h1) = >>=-eq-ok (queried (s.keys.first test db)) _ h in
      let (db1, u, h2) =
        >>=-eq-ok (s.keys.update (λ k. k.id == found.id) (with_status status now) db) _ h1 in
      let (row, _, h3) = >>=-eq-ok (queried (s.keys.first (λ k. k.id == found.id) db1)) _ h2 in
      let (db2, b, h4) = >>=-eq-ok (bump_config_versions d s.versions key_names now db1) _ h3 in
      let same : db2 ≡ db' = ap (λ (x : ApiKey × d.Db). x.1) (ok-injective h4) in
      let (at, passes) =
        lawful.keys_lawful.first-ok test db found (queried-eq-ok (s.keys.first test db) q) in
      let split = both (found.id == id) (owner d s db found == external_id) passes in
      let named : found.id ≡ id = (nat_beq_iff found.id id).0 split.0 in
      let rows : s.keys.rows db'
          ≡ updated (λ k. k.id == id) (with_status status now) (s.keys.rows db) =
        ap s.keys.rows (sym same)
        ∙ bump_config_versions-Apart d s.versions s.keys lawful.versions_apart key_names now db1 db2
            b
        ∙ lawful.keys_lawful.update-ok _ _ db db1 u
        ∙ ap (λ (x : ℕ). updated (λ k. k.id == x) (with_status status now) (s.keys.rows db))
            named in
      (
        (found, at, named, (text_beq_iff (owner d s db found) external_id).0 split.1),
        rows,
        λ k i e.
            updated-status id status now (s.keys.rows db) k
              (subst (λ (ks : List ApiKey). In k ks) rows i) e,
        ap key_version (sym same)
            ∙ bump_config_versions-head d s.versions lawful.versions_lawful
                api_key_config_version_name [] now db1 db2 clean_name tt b
            ∙ ap
                (λ (rs : List ConfigVersion).
                  some (next (version_in api_key_config_version_name rs)))
                (lawful.keys_apart.update-apart _ _ db db1 u),
      )
    where
      both : (a b : Bool) → (a && b) ≡ true → (a ≡ true) × (b ≡ true)
      both a b t = ground arith

  -- Setting the status of a key fails and changes nothing, or the key is one of the named account,
  -- every key of that id has the status afterwards, all other keys are as they were, and the
  -- version of the keys has gone up by one. The tables answer as their interface says.
  pub set_api_key_status-Changed :
      (account : Text) (id : ℕ) (status : Text) (now : Time) (db : d.Db)
      → let out = set_api_key_status d s account id status now db in
        ((e : Text) × (out ≡ (err e, db)))
        ⊎ ((m : ApiKeyMetadata) × (out.0 ≡ ok m)
            × (m.account ≡ trim_space account)
            × Changed (trim_space account) id status now db out.1)
  unfolding set_api_key_status
  set_api_key_status-Changed account id status now db =
      elim (Bool-cases (trim_space account == [])) [
        | inl t ↦ rw t (inl (_, refl))
        | inr f ↦
            rw f
              (elim (d.transaction_cases ApiKey
                (set_status_body d s (trim_space account) id status now) db) [
                  | inl (key, db', made, e) ↦ rw e (
                      inr (
                        _,
                        refl,
                        refl,
                        body-Changed (trim_space account) id status now db key db' made,
                      ))
                  | inr (x, e) ↦ rw e (inl (x, refl))
                ])
      ]
