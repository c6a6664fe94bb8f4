-- ===== src/Keys/Validation.antt =====
-- router/internal/store/platform.go: the check of a key against the database, and what any check accepts.
use aether_code.Base.{
  ℕ, Bool, false, ◌&&◌, List, [], ◌∷◌, Text, codes, ◌==◌, text_eq, nat_eq, text_beq_iff, keep,
  if◌then◌else◌, Result, ok, err, ◌>>=◌, In, inl, inr, ◌≡◌, ◌≢◌, refl, sym, ok-injective,
  Bool-cases, map,
}
use aether_code.Text.{trim_space}
use aether_code.Store.Database.{Database, Table}
use aether_code.Keys.{
  Account, zero_account, ApiKey, AuthIdentity, is_active, status_active, api_key_prefix,
  identity_of, hash_api_key, first_match, validate_api_key_candidates,
}

-- The account of an id, or the zero row.
abbrev pub account_at : ℕ → List Account → Account
account_at id [] = zero_account
account_at id (a ∷ accounts) = if a.id == id then a else account_at id accounts

-- `Preload("Account")`
abbrev pub preload : List Account → ApiKey → ApiKey
preload accounts key = record key { account = account_at key.account_id accounts }

module _ (d : Database) (accounts : Table d Account) (keys : Table d ApiKey) where
  unfoldable pub active_api_keys : d.Db → Result Text (List ApiKey)
  active_api_keys db =
      keys.find is_active db >>= λ found. ok (map (preload (accounts.rows db)) found)

  unfoldable pub api_keys_by_prefix : Text → d.Db → Result Text (List ApiKey)
  api_keys_by_prefix prefix db =
      keys.find (λ key. key.key_prefix == prefix && is_active key) db >>= λ found.
      ok (map (preload (accounts.rows db)) found)

  unfoldable pub validate_api_key :
      (Text → Text → Text) → Text → Text → d.Db → Result Text AuthIdentity
  validate_api_key hmac raw secret db =
      let prefix = api_key_prefix raw in
      if prefix == []
      then err (codes "api key is required")
      else api_keys_by_prefix prefix db >>= λ found.
          validate_api_key_candidates hmac raw secret found

-- The identity is that of an active key of the list, whose hash is the one presented.
abbrev pub Matches : Text → List ApiKey → AuthIdentity → Type 0
Matches presented keys identity =
    (key : ApiKey) × In key keys
    × (key.status ≡ status_active)
    × (key.key_hash ≡ presented)
    × (identity ≡ identity_of key)

Matches-cons :
    (presented : Text) (key : ApiKey) (keys : List ApiKey) (identity : AuthIdentity)
    → Matches presented keys identity
    → Matches presented (key ∷ keys) identity
Matches-cons presented key keys identity (found, at, active, hash, same) =
    (found, inr at, active, hash, same)

module _ (hmac : Text → Text → Text) where
  first_match-Matches :
      (presented : Text) (keys : List ApiKey) (identity : AuthIdentity)
      → first_match hmac presented keys ≡ ok identity
      → Matches presented keys identity
  unfolding first_match
  first_match-Matches presented [] identity e = cc
  first_match-Matches presented (key ∷ keys) identity e = elim (Bool-cases (is_active key)) [
    | inl t ↦ elim (Bool-cases (presented == key.key_hash)) [
      | inl u ↦
          let found : ◌≡◌ {A = Result Text AuthIdentity} (ok (identity_of key)) (ok identity) =
            rw (t, u, first_match) at e in
          (
            key,
            inl refl,
            (text_beq_iff key.status status_active).0 t,
            sym ((text_beq_iff presented key.key_hash).0 u),
            sym (ok-injective found),
          )
      | inr u ↦
          Matches-cons presented key keys identity
            (first_match-Matches presented keys identity (rw (t, u, first_match) at e))
    ]
    | inr f ↦
        Matches-cons presented key keys identity
          (first_match-Matches presented keys identity (rw (f, first_match) at e))
  ]

  -- A check that accepts a key has found an active one among the candidates, with the hash of what was
  -- presented, and returns the identity of that key: what was presented is not blank.
  pub validate_api_key_candidates-Matches :
      (raw secret : Text) (keys : List ApiKey) {identity : AuthIdentity}
      → validate_api_key_candidates hmac raw secret keys ≡ ok identity
      → (trim_space raw ≢ []) × Matches (hash_api_key hmac raw secret) keys identity
  unfolding validate_api_key_candidates
  validate_api_key_candidates-Matches raw secret keys {identity} h =
      elim (Bool-cases (trim_space raw == [])) [
        | inl t ↦
            let refused : ◌≡◌ {A = Result Text AuthIdentity} (err _) (ok identity) =
              rw (t, validate_api_key_candidates) at h in
            cc
        | inr f ↦ (
          λ blank. cc (f, (text_beq_iff (trim_space raw) []).1 blank),
          first_match-Matches (hash_api_key hmac raw secret) keys identity
              (rw (f, validate_api_key_candidates) at h),
        )
      ]

  -- A key that is not active does not change what a check answers.
  first_match-keep :
      (presented : Text) (test : ApiKey → Bool) (keys : List ApiKey)
      → ((key : ApiKey) → test key ≡ false → is_active key ≡ false)
      → first_match hmac presented (keep test keys) ≡ first_match hmac presented keys
  unfolding first_match keep
  first_match-keep presented test [] h = refl
  first_match-keep presented test (key ∷ keys) h = elim (Bool-cases (test key)) [
    | inl t ↦ rw (t, first_match-keep presented test keys h) refl
    | inr f ↦ rw (f, h key f) (first_match-keep presented test keys h)
  ]
