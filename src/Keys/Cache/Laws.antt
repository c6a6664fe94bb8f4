-- ===== src/Keys/Cache/Laws.antt =====
-- The cache answers as the database does.
use aether_code.Base.{
  ℕ, Bool, true, false, ◌&&◌, List, [], ◌∷◌, ◌++◌, map, Text, ◌==◌, text_eq, nat_eq, text_beq_iff,
  keep, ok, >>=-eq-ok, inl, inr, ◌≡◌, refl, sym, ap, ◌∙◌, Bool-cases, lookup, insert, lookup-insert,
  arith, append_assoc, append-nil, ok-injective,
}
use aether_code.Store.Provider.{Time}
use aether_code.Store.Database.{Database, Table, IsTable}
use aether_code.Keys.{Account, ApiKey, is_active, api_key_prefix, validate_api_key_candidates}
use aether_code.Keys.Validation.{preload, active_api_keys, api_keys_by_prefix, validate_api_key}
use aether_code.Keys.Cache.{keys_at, index_keys, replace, validate}

abbrev test : Text → ApiKey → Bool
test prefix key = key.key_prefix == prefix && is_active key

abbrev one_if : Bool → ApiKey → List ApiKey
one_if true key = key ∷ []
one_if false key = []

keys_at-insert :
    (prefix : Text) (key : ApiKey) (by_prefix : List (Text × List ApiKey))
    → keys_at prefix
        (insert key.key_prefix (keys_at key.key_prefix by_prefix ++ key ∷ []) by_prefix)
      ≡ keys_at prefix by_prefix ++ one_if (key.key_prefix == prefix) key
keys_at-insert prefix key by_prefix = elim (Bool-cases (key.key_prefix == prefix)) [
  | inl t ↦
      let same : key.key_prefix ≡ prefix = (text_beq_iff key.key_prefix prefix).0 t in
      rw
        (
          lookup-insert key.key_prefix prefix (keys_at key.key_prefix by_prefix ++ key ∷ [])
              by_prefix,
          t,
        )
        (ap (λ (p : Text). keys_at p by_prefix ++ key ∷ []) same)
  | inr f ↦
      rw
        (
          lookup-insert key.key_prefix prefix (keys_at key.key_prefix by_prefix ++ key ∷ [])
              by_prefix,
          f,
        )
        (sym (append-nil (keys_at prefix by_prefix)))
]

keep-cons :
    (prefix : Text) (key : ApiKey) (keys : List ApiKey)
    → is_active key ≡ true
    → keep (test prefix) (key ∷ keys)
      ≡ one_if (key.key_prefix == prefix) key ++ keep (test prefix) keys
unfolding keep
keep-cons prefix key keys t = elim (Bool-cases (key.key_prefix == prefix)) [
  | inl u ↦ rw (t, u) refl
  | inr u ↦ rw (t, u) refl
]

keep-skip :
    (prefix : Text) (key : ApiKey) (keys : List ApiKey)
    → is_active key ≡ false
    → keep (test prefix) (key ∷ keys) ≡ keep (test prefix) keys
unfolding keep
keep-skip prefix key keys f = elim (Bool-cases (key.key_prefix == prefix)) [
  | inl u ↦ rw (f, u) refl
  | inr u ↦ rw (f, u) refl
]

-- The cache holds under each prefix the active keys with that prefix, in order.
keys_at-index_keys :
    (prefix : Text) (keys : List ApiKey) (by_prefix : List (Text × List ApiKey))
    → keys_at prefix (index_keys keys by_prefix)
      ≡ keys_at prefix by_prefix ++ keep (test prefix) keys
unfolding index_keys
keys_at-index_keys prefix [] by_prefix = unfold keep in sym (append-nil (keys_at prefix by_prefix))
keys_at-index_keys prefix (key ∷ keys) by_prefix = elim (Bool-cases (is_active key)) [
  | inl t ↦ rw t (
      keys_at-index_keys prefix keys
        (insert key.key_prefix (keys_at key.key_prefix by_prefix ++ key ∷ []) by_prefix)
      ∙ ap (λ (ks : List ApiKey). ks ++ keep (test prefix) keys)
          (keys_at-insert prefix key by_prefix)
      ∙ append_assoc (keys_at prefix by_prefix) (one_if (key.key_prefix == prefix) key)
          (keep (test prefix) keys)
      ∙ ap (λ (ks : List ApiKey). keys_at prefix by_prefix ++ ks)
          (sym (keep-cons prefix key keys t)))
  | inr f ↦ rw f (
      keys_at-index_keys prefix keys by_prefix
      ∙ ap (λ (ks : List ApiKey). keys_at prefix by_prefix ++ ks)
          (sym (keep-skip prefix key keys f)))
]

-- A test that ignores what a function changes, and refuses what another test refuses.
keep-map :
    {A : Type 0} (p q : A → Bool) (f : A → A) (xs : List A)
    → ((x : A) → p (f x) ≡ p x)
    → ((x : A) → q x ≡ false → p x ≡ false)
    → keep p (map f (keep q xs)) ≡ map f (keep p xs)
unfolding keep
keep-map p q f [] h k = refl
keep-map p q f (x ∷ xs) h k = elim (Bool-cases (q x)) [
  | inl t ↦ elim (Bool-cases (p x)) [
    | inl u ↦ rw (t, h x, u) (ap (λ ys. f x ∷ ys) (keep-map p q f xs h k))
    | inr u ↦ rw (t, h x, u) (keep-map p q f xs h k)
  ]
  | inr v ↦ rw (v, k x v) (keep-map p q f xs h k)
]

and_false : (a b : Bool) → b ≡ false → (a && b) ≡ false
and_false a b h = ground arith

module _ (d : Database) (accounts : Table d Account) (keys : Table d ApiKey)
    (conflict : ApiKey → ApiKey → Bool) (assigned : ApiKey → ApiKey → Type 0)
    (lawful : IsTable keys conflict assigned) where
  found_active :
      (db : d.Db) (ks : List ApiKey)
      → active_api_keys d accounts keys db ≡ ok ks
      → ks ≡ map (preload (accounts.rows db)) (keep is_active (keys.rows db))
  unfolding active_api_keys
  found_active db ks h =
      let (found, e, r) = >>=-eq-ok (keys.find is_active db) _ h in
      sym (ok-injective r)
      ∙ ap (map (preload (accounts.rows db))) (lawful.find-ok is_active db found e)

  found_prefix :
      (prefix : Text) (db : d.Db) (ks : List ApiKey)
      → api_keys_by_prefix d accounts keys prefix db ≡ ok ks
      → ks ≡ map (preload (accounts.rows db)) (keep (test prefix) (keys.rows db))
  unfolding api_keys_by_prefix
  found_prefix prefix db ks h =
      let (found, e, r) = >>=-eq-ok (keys.find (test prefix) db) _ h in
      sym (ok-injective r)
      ∙ ap (map (preload (accounts.rows db))) (lawful.find-ok (test prefix) db found e)

  -- A cache that is rebuilt from the active keys of a database gives every presented key the answer
  -- that the database gives, as long as the database answers the query for the prefix. The tables
  -- answer as their interface says.
  pub validate-replace :
      (hmac : Text → Text → Text) (raw secret : Text) (version : ℕ) (now : Time) (db : d.Db)
      (active found : List ApiKey)
      → active_api_keys d accounts keys db ≡ ok active
      → api_keys_by_prefix d accounts keys (api_key_prefix raw) db ≡ ok found
      → validate hmac (replace active version now) raw secret
        ≡ validate_api_key d accounts keys hmac raw secret db
  unfolding validate validate_api_key replace lookup
  validate-replace hmac raw secret version now db active found loaded queried =
      let prefix = api_key_prefix raw in
      elim (Bool-cases (prefix == [])) [
        | inl t ↦ rw t refl
        | inr f ↦
            rw (f, queried)
              (ap (validate_api_key_candidates hmac raw secret) (
                keys_at-index_keys prefix active []
                ∙ ap (keep (test prefix)) (found_active db active loaded)
                ∙ keep-map (test prefix) is_active (preload (accounts.rows db)) (keys.rows db)
                    (λ key. refl)
                    (λ key inactive. and_false (key.key_prefix == prefix) (is_active key) inactive)
                ∙ sym (found_prefix prefix db found queried)))
      ]
