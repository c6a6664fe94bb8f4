-- ===== src/Store/Import/Apart.antt =====
-- An import touches no table but that of the channels.
use aether_code.Base.{
  ℕ, List, [], ◌∷◌, Text, text_eq, nat_eq, ltb, ok, >>=-eq-ok, ok-injective, Bool-cases, inl, inr,
  ◌≡◌, sym, ap, ◌∙◌,
}
use aether_code.Store.Provider.{Provider, model_list}
use aether_code.Store.Channel.{ProviderChannel}
use aether_code.Store.Channel
use aether_code.Store.Database.{Database, Table, Apart}
use aether_code.Store.Mutations.{Store}
use aether_code.Store.Import.{
  imported_channel, is_import_of, is_skipped, insert_channel, import_model, import_models,
  import_providers,
}

-- An import touches the channels only.
module _ (d : Database) (s : Store d) {Row : Type 0} (other : Table d Row)
    (apart : Apart s.channels other) where
  insert_channel-Apart :
      (c : ProviderChannel) (n : ℕ) (db : d.Db) (n' : ℕ) (db' : d.Db)
      → insert_channel d s c n db ≡ ok (n', db')
      → other.rows db' ≡ other.rows db
  insert_channel-Apart c n db n' db' h =
      let (c1, _, h1) = >>=-eq-ok (Channel.apply_defaults c) _ h in
      let (c2, _, h2) = >>=-eq-ok (Channel.apply_defaults c1) _ h1 in
      let ((row, db1), made, h3) = >>=-eq-ok (s.channels.create c2 db) _ h2 in
      ap (λ (x : ℕ × d.Db). other.rows x.1) (sym (ok-injective h3))
      ∙ apart.create-apart c2 db row db1 made

  import_model-Apart :
      (p : Provider) (m : Text) (n : ℕ) (db : d.Db) (n' : ℕ) (db' : d.Db)
      → import_model d s p m n db ≡ ok (n', db')
      → other.rows db' ≡ other.rows db
  unfolding import_model
  import_model-Apart p m n db n' db' h = elim (Bool-cases (is_skipped m)) [
    | inl t ↦ ap (λ (x : ℕ × d.Db). other.rows x.1) (sym (ok-injective (rw t at h)))
    | inr f ↦
        let (count, _, h1) = >>=-eq-ok (s.channels.count (is_import_of p m) db) _ (rw f at h) in
        elim (Bool-cases (ltb 0 count)) [
          | inl t ↦ ap (λ (x : ℕ × d.Db). other.rows x.1) (sym (ok-injective (rw t at h1)))
          | inr g ↦ insert_channel-Apart (imported_channel p m) n db n' db' (rw g at h1)
        ]
  ]

  import_models-Apart :
      (p : Provider) (ms : List Text) (n : ℕ) (db : d.Db) (n' : ℕ) (db' : d.Db)
      → import_models d s p ms n db ≡ ok (n', db')
      → other.rows db' ≡ other.rows db
  unfolding import_models
  import_models-Apart p [] n db n' db' h =
      ap (λ (x : ℕ × d.Db). other.rows x.1) (sym (ok-injective h))
  import_models-Apart p (m ∷ ms) n db n' db' h =
      let ((n1, db1), first, h1) = >>=-eq-ok (import_model d s p m n db) _ h in
      import_models-Apart p ms n1 db1 n' db' h1 ∙ import_model-Apart p m n db n1 db1 first

  pub import_providers-Apart :
      (ps : List Provider) (n : ℕ) (db : d.Db) (n' : ℕ) (db' : d.Db)
      → import_providers d s ps n db ≡ ok (n', db')
      → other.rows db' ≡ other.rows db
  unfolding import_providers
  import_providers-Apart [] n db n' db' h =
      ap (λ (x : ℕ × d.Db). other.rows x.1) (sym (ok-injective h))
  import_providers-Apart (p ∷ ps) n db n' db' h =
      let ((n1, db1), first, h1) = >>=-eq-ok (import_models d s p (model_list p) n db) _ h in
      import_providers-Apart ps n1 db1 n' db' h1
      ∙ import_models-Apart p (model_list p) n db n1 db1 first
