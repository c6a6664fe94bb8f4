-- ===== src/Store/Import/Laws.antt =====
-- An import leaves a channel for each model of each provider, and a second import adds nothing.
use aether_code.Base.{
  ℕ, ◌<◌, Bool, true, ◌&&◌, List, [], ◌∷◌, ◌++◌, Text, ◌==◌, text_eq, nat_eq, text_beq_iff,
  nat_beq_iff, ltb, Result, ok, err, >>=-eq-ok, ok-injective, Bool-cases, In, In-append_left,
  In-append_right, All, keep, keep-In, length, inl, inr, ◌⊎◌, ◌≡◌, refl, sym, ap, ◌∙◌, subst, arith,
}
use aether_code.Text.{trim_space}
use aether_code.Store.Provider.{Provider, model_list}
use aether_code.Store.Provider.Laws.{IsModelId, model_list-IsModelId}
use aether_code.Store.Channel.{ProviderChannel}
use aether_code.Store.Channel
use aether_code.Store.Database.{Database, IsTable}
use aether_code.Store.Mutations.{Store}
use aether_code.Store.Import.{
  imported_channel, is_import_of, is_skipped, insert_channel, import_model, import_models,
  import_providers,
}

-- The checks keep the legacy id, and trim the public model id.
apply_defaults-names :
    (c : ProviderChannel) {c' : ProviderChannel}
    → Channel.apply_defaults c ≡ ok c'
    → (c'.legacy_provider_id ≡ c.legacy_provider_id)
      × (c'.public_model_id ≡ trim_space c.public_model_id)
unfolding Channel.apply_defaults Channel.trimmed Channel.filled
apply_defaults-names c {c'} h = elim (Bool-cases (trim_space c.provider == [])) [
  | inl t ↦ absurd (failed (rw t at h))
  | inr f ↦ elim (Bool-cases (Channel.is_bad_model_id (trim_space c.public_model_id))) [
    | inl t ↦ absurd (failed (rw (f, t) at h))
    | inr g ↦
        let e = ok-injective (rw (f, g) at h) in
        (
          ap (λ (x : ProviderChannel). x.legacy_provider_id) (sym e),
          ap (λ (x : ProviderChannel). x.public_model_id) (sym e),
        )
  ]
]
  where
    failed : {e : Text} → ◌≡◌ {A = Result Text ProviderChannel} (err e) (ok c') → ⊥
    failed k = cc

length_pos : {A : Type 0} (a : A) (xs : List A) → In a xs → 0 < length xs
length_pos a [] i = elim i [ ]
length_pos a (x ∷ xs) i = omega arith

module _ (d : Database) (s : Store d) {conflict : ProviderChannel → ProviderChannel → Bool}
    {assigned : ProviderChannel → ProviderChannel → Type 0}
    (lawful : IsTable s.channels conflict assigned)
    (kept : (c c' : ProviderChannel)
      → assigned c c'
      → (c'.legacy_provider_id ≡ c.legacy_provider_id)
        × (c'.public_model_id ≡ c.public_model_id)) where
  -- A channel stands for the model of the provider.
  abbrev pub IsCovered : Provider → Text → d.Db → Type 0
  IsCovered p m db = (c : ProviderChannel) × In c (s.channels.rows db) × (is_import_of p m c ≡ true)

  -- Every channel of the first database is in the second one.
  abbrev pub Keeps : d.Db → d.Db → Type 0
  Keeps db db' = (c : ProviderChannel) → In c (s.channels.rows db) → In c (s.channels.rows db')

  insert_channel-IsCovered :
      (p : Provider) (m : Text) (n : ℕ) (db : d.Db) (n' : ℕ) (db' : d.Db)
      → trim_space m ≡ m
      → insert_channel d s (imported_channel p m) n db ≡ ok (n', db')
      → IsCovered p m db' × Keeps db db'
  unfolding imported_channel
  insert_channel-IsCovered p m n db n' db' clean h =
      let c = imported_channel p m in
      let (c1, e1, h1) = >>=-eq-ok (Channel.apply_defaults c) _ h in
      let (c2, e2, h2) = >>=-eq-ok (Channel.apply_defaults c1) _ h1 in
      let ((row, db1), made, h3) = >>=-eq-ok (s.channels.create c2 db) _ h2 in
      let (l1, m1) = apply_defaults-names c e1 in
      let (l2, m2) = apply_defaults-names c1 e2 in
      let (filled, rows) = lawful.create-ok c2 db row db1 made in
      let (l3, m3) = kept c2 row filled in
      let same : db1 ≡ db' = ap (λ (x : ℕ × d.Db). x.1) (ok-injective h3) in
      let rows' : s.channels.rows db' ≡ s.channels.rows db ++ row ∷ [] =
        ap s.channels.rows (sym same) ∙ rows in
      let name : row.public_model_id ≡ m = m3 ∙ m2 ∙ ap trim_space (m1 ∙ clean) ∙ clean in
      (
        (
          row,
          subst (λ (rs : List ProviderChannel). In row rs) (sym rows')
              (In-append_right row (s.channels.rows db) (row ∷ []) (inl refl)),
          both _ _ ((nat_beq_iff row.legacy_provider_id p.id).1 (l3 ∙ l2 ∙ l1))
              ((text_beq_iff row.public_model_id m).1 name),
        ),
        λ k i.
            subst (λ (rs : List ProviderChannel). In k rs) (sym rows')
              (In-append_left k (s.channels.rows db) (row ∷ []) i),
      )
    where
      both : (a b : Bool) → a ≡ true → b ≡ true → (a && b) ≡ true
      both a b t u = ground arith

  -- The loop has dealt with the model: it leaves it out, or there is a channel for it.
  abbrev pub IsDone : Provider → Text → d.Db → Type 0
  IsDone p m db = (is_skipped m ≡ true) ⊎ IsCovered p m db

  IsDone-Keeps :
      (p : Provider) (m : Text) (db db' : d.Db) → Keeps db db' → IsDone p m db → IsDone p m db'
  IsDone-Keeps p m db db' keeps (inl t) = inl t
  IsDone-Keeps p m db db' keeps (inr (c, i, t)) = inr (c, keeps c i, t)

  In-of_keep :
      (t : ProviderChannel → Bool) (xs : List ProviderChannel)
      → 0 < length (keep t xs)
      → (c : ProviderChannel) × In c xs × (t c ≡ true)
  unfolding keep
  In-of_keep t [] h = absurd (omega arith)
  In-of_keep t (x ∷ xs) h = elim (Bool-cases (t x)) [
    | inl e ↦ (x, inl refl, e)
    | inr f ↦ let (c, i, e) = In-of_keep t xs (rw (f, keep) at h) in (c, inr i, e)
  ]

  import_model-IsDone :
      (p : Provider) (m : Text) (n : ℕ) (db : d.Db) (n' : ℕ) (db' : d.Db)
      → trim_space m ≡ m
      → import_model d s p m n db ≡ ok (n', db')
      → IsDone p m db' × Keeps db db'
  unfolding import_model
  import_model-IsDone p m n db n' db' clean h = elim (Bool-cases (is_skipped m)) [
    | inl t ↦
        let same : db ≡ db' = ap (λ (x : ℕ × d.Db). x.1) (ok-injective (rw t at h)) in
        (inl t, λ c i. subst (λ (x : d.Db). In c (s.channels.rows x)) same i)
    | inr f ↦
        let (count, asked, h1) = >>=-eq-ok (s.channels.count (is_import_of p m) db) _ (rw f at h) in
        elim (Bool-cases (ltb 0 count)) [
          | inl t ↦
              let same : db ≡ db' = ap (λ (x : ℕ × d.Db). x.1) (ok-injective (rw t at h1)) in
              let there =
                In-of_keep (is_import_of p m) (s.channels.rows db)
                  (positive count t (lawful.count-ok (is_import_of p m) db count asked)) in
              (
                inr (subst (λ (x : d.Db). IsCovered p m x) same there),
                λ c i. subst (λ (x : d.Db). In c (s.channels.rows x)) same i,
              )
          | inr g ↦
              let made = insert_channel-IsCovered p m n db n' db' clean (rw g at h1) in
              (inr made.0, made.1)
        ]
  ]
    where
      positive : (count : ℕ) → ltb 0 count ≡ true → {k : ℕ} → count ≡ k → 0 < k
      positive count t e = ground arith

  -- A model that is dealt with already is left alone.
  import_model-idle :
      (p : Provider) (m : Text) (n : ℕ) (db : d.Db) (n' : ℕ) (db' : d.Db)
      → IsDone p m db
      → import_model d s p m n db ≡ ok (n', db')
      → (n' ≡ n) × (db' ≡ db)
  unfolding import_model
  import_model-idle p m n db n' db' (inl t) h =
      let e = ok-injective (rw t at h) in
      (ap (λ (x : ℕ × d.Db). x.0) (sym e), ap (λ (x : ℕ × d.Db). x.1) (sym e))
  import_model-idle p m n db n' db' (inr (c, i, t)) h = elim (Bool-cases (is_skipped m)) [
    | inl u ↦
        let e = ok-injective (rw u at h) in
        (ap (λ (x : ℕ × d.Db). x.0) (sym e), ap (λ (x : ℕ × d.Db). x.1) (sym e))
    | inr f ↦
        let (count, asked, h1) = >>=-eq-ok (s.channels.count (is_import_of p m) db) _ (rw f at h) in
        let found : ltb 0 count ≡ true =
          counted count (lawful.count-ok (is_import_of p m) db count asked)
            (length_pos c _ (keep-In (is_import_of p m) c (s.channels.rows db) i t)) in
        let e = ok-injective (rw found at h1) in
        (ap (λ (x : ℕ × d.Db). x.0) (sym e), ap (λ (x : ℕ × d.Db). x.1) (sym e))
  ]
    where
      counted : (count : ℕ) {k : ℕ} → count ≡ k → 0 < k → ltb 0 count ≡ true
      counted count e h = ground arith

  import_models-IsDone :
      (p : Provider) (ms : List Text) (n : ℕ) (db : d.Db) (n' : ℕ) (db' : d.Db)
      → All IsModelId ms
      → import_models d s p ms n db ≡ ok (n', db')
      → All (λ m. IsDone p m db') ms × Keeps db db'
  unfolding import_models
  import_models-IsDone p [] n db n' db' clean h =
      (tt, λ c i. subst (λ (x : ℕ × d.Db). In c (s.channels.rows x.1)) (ok-injective h) i)
  import_models-IsDone p (m ∷ ms) n db n' db' clean h =
      let ((n1, db1), first, h1) = >>=-eq-ok (import_model d s p m n db) _ h in
      let (done, keeps) = import_model-IsDone p m n db n1 db1 clean.0.1 first in
      let (rest, keeps') = import_models-IsDone p ms n1 db1 n' db' clean.1 h1 in
      ((IsDone-Keeps p m db1 db' keeps' done, rest), λ c i. keeps' c (keeps c i))

  import_models-idle :
      (p : Provider) (ms : List Text) (n : ℕ) (db : d.Db) (n' : ℕ) (db' : d.Db)
      → All (λ m. IsDone p m db) ms
      → import_models d s p ms n db ≡ ok (n', db')
      → (n' ≡ n) × (db' ≡ db)
  unfolding import_models
  import_models-idle p [] n db n' db' done h = (
    ap (λ (x : ℕ × d.Db). x.0) (sym (ok-injective h)),
    ap (λ (x : ℕ × d.Db). x.1) (sym (ok-injective h)),
  )
  import_models-idle p (m ∷ ms) n db n' db' done h =
      let ((n1, db1), first, h1) = >>=-eq-ok (import_model d s p m n db) _ h in
      let (e, same) = import_model-idle p m n db n1 db1 done.0 first in
      let done' = subst (λ (x : d.Db). All (λ m'. IsDone p m' x) ms) (sym same) done.1 in
      let (e', same') = import_models-idle p ms n1 db1 n' db' done' h1 in (e' ∙ e, same' ∙ same)

  -- Every model of every provider is dealt with.
  abbrev pub AreDone : List Provider → d.Db → Type 0
  AreDone ps db = All (λ p. All (λ m. IsDone p m db) (model_list p)) ps

  All-IsDone-Keeps :
      (p : Provider) (ms : List Text) (db db' : d.Db)
      → Keeps db db'
      → All (λ m. IsDone p m db) ms
      → All (λ m. IsDone p m db') ms
  All-IsDone-Keeps p [] db db' keeps h = tt
  All-IsDone-Keeps p (m ∷ ms) db db' keeps h =
      (IsDone-Keeps p m db db' keeps h.0, All-IsDone-Keeps p ms db db' keeps h.1)

  pub import_providers-AreDone :
      (ps : List Provider) (n : ℕ) (db : d.Db) (n' : ℕ) (db' : d.Db)
      → import_providers d s ps n db ≡ ok (n', db')
      → AreDone ps db' × Keeps db db'
  unfolding import_providers
  import_providers-AreDone [] n db n' db' h =
      (tt, λ c i. subst (λ (x : ℕ × d.Db). In c (s.channels.rows x.1)) (ok-injective h) i)
  import_providers-AreDone (p ∷ ps) n db n' db' h =
      let ((n1, db1), first, h1) = >>=-eq-ok (import_models d s p (model_list p) n db) _ h in
      let (done, keeps) =
        import_models-IsDone p (model_list p) n db n1 db1 (model_list-IsModelId p) first in
      let (rest, keeps') = import_providers-AreDone ps n1 db1 n' db' h1 in
      ((All-IsDone-Keeps p (model_list p) db1 db' keeps' done, rest), λ c i. keeps' c (keeps c i))

  pub import_providers-idle :
      (ps : List Provider) (n : ℕ) (db : d.Db) (n' : ℕ) (db' : d.Db)
      → AreDone ps db
      → import_providers d s ps n db ≡ ok (n', db')
      → (n' ≡ n) × (db' ≡ db)
  unfolding import_providers
  import_providers-idle [] n db n' db' done h = (
    ap (λ (x : ℕ × d.Db). x.0) (sym (ok-injective h)),
    ap (λ (x : ℕ × d.Db). x.1) (sym (ok-injective h)),
  )
  import_providers-idle (p ∷ ps) n db n' db' done h =
      let ((n1, db1), first, h1) = >>=-eq-ok (import_models d s p (model_list p) n db) _ h in
      let (e, same) = import_models-idle p (model_list p) n db n1 db1 done.0 first in
      let done' = subst (AreDone ps) (sym same) done.1 in
      let (e', same') = import_providers-idle ps n1 db1 n' db' done' h1 in (e' ∙ e, same' ∙ same)
