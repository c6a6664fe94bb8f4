-- ===== src/Store/Mutations/Laws.antt =====
-- Every write raises the version that the routers poll, or changes nothing.
use aether_code.Base.{
  ℕ, Bool, true, false, List, [], ◌∷◌, Option, some, Text, codes, Result, ok, err, >>=-eq-ok, inl,
  inr, ◌⊎◌, ◌≡◌, ◌≢◌, refl, sym, ap, ◌∙◌, All, ok-injective, text_beq,
}
use aether_code.Text.{trim_space, drop_left, drop_right}
use aether_code.Store.Provider.{Time, Provider}
use aether_code.Store.Channel.{ProviderChannel}
use aether_code.Store.Channel
use aether_code.Store.Channel.{zero_channel}
use aether_code.Store.Database.{Database, IsTable, Apart}
use aether_code.Store.Versions.{ConfigVersion, bump_config_versions, provider_config_version_name}
use aether_code.Store.Versions.Bump.{
  same_name, SameRow, version_in, next, bump_config_versions-head,
}
use aether_code.Store.Mutations.{
  Store, Mutation, creates_provider, saves_provider, deletes_provider, creates_channel,
  saves_channel, disables_channel, deletes_channel, mutate, bumping, then_bump, unit_of, succeeded,
  create_provider, save_provider, delete_provider, create_provider_channel, save_provider_channel,
  disable_provider_channel, delete_provider_channel, disable_statement, channel_names,
}

-- What the store relies on: the version table answers as its rows say, and the statements on the other
-- tables leave it alone.
pub record IsStore {d : Database} (s : Store d) : Type 0 where
  pub versions_lawful : IsTable s.versions same_name SameRow
  pub providers_apart : Apart s.providers s.versions
  pub channels_apart : Apart s.channels s.versions

clean_name : trim_space provider_config_version_name ≡ provider_config_version_name
unfolding trim_space drop_left drop_right
clean_name = refl

others : All (λ n. trim_space n ≢ provider_config_version_name) (codes "provider_channels" ∷ [])
unfolding trim_space drop_left drop_right
others = (cc, tt)

module _ (d : Database) (s : Store d) (lawful : IsStore s) where
  -- The version of the routing configuration.
  abbrev pub provider_version : d.Db → Option ℕ
  provider_version db = version_in provider_config_version_name (s.versions.rows db)

  -- A write that fails leaves the database as it was; one that succeeds raises the version by one.
  abbrev pub Raises : d.Db → Bool → d.Db → Type 0
  Raises db done db' =
      ((done ≡ false) × (db' ≡ db))
      ⊎ ((done ≡ true) × (provider_version db' ≡ some (next (provider_version db))))

  then_bump-version :
      (A : Type 0) (rest : List Text) (now : Time) (statement : d.Db → Result Text (A × d.Db))
      (db : d.Db) (a : A) (db' : d.Db)
      → All (λ n. trim_space n ≢ provider_config_version_name) rest
      → ((a' : A) (db1 : d.Db)
          → statement db ≡ ok (a', db1)
          → s.versions.rows db1 ≡ s.versions.rows db)
      → then_bump d s (provider_config_version_name ∷ rest) now statement db ≡ ok (a, db')
      → provider_version db' ≡ some (next (provider_version db))
  unfolding then_bump
  then_bump-version A rest now statement db a db' h apart made =
      let ((a1, db1), first, then') = >>=-eq-ok (statement db) _ made in
      let (db2, second, last) =
        >>=-eq-ok (bump_config_versions d s.versions (provider_config_version_name ∷ rest) now db1)
          _ then' in
      let same : db2 ≡ db' = ap (λ (x : A × d.Db). x.1) (ok-injective last) in
      let raised =
        bump_config_versions-head d s.versions lawful.versions_lawful provider_config_version_name
          rest now db1 db2 clean_name h second in
      ap provider_version (sym same)
      ∙ raised
      ∙ ap (λ (rs : List ConfigVersion). some (next (version_in provider_config_version_name rs)))
          (apart a1 db1 first)

  bumping-Raises :
      (A : Type 0) (rest : List Text) (now : Time) (statement : d.Db → Result Text (A × d.Db))
      (db : d.Db)
      → All (λ n. trim_space n ≢ provider_config_version_name) rest
      → ((a' : A) (db1 : d.Db)
          → statement db ≡ ok (a', db1)
          → s.versions.rows db1 ≡ s.versions.rows db)
      → let out = bumping d s A (provider_config_version_name ∷ rest) now statement db in
        Raises db (succeeded out.0) out.1
  bumping-Raises A rest now statement db h apart =
      elim (d.transaction_cases A
        (then_bump d s (provider_config_version_name ∷ rest) now statement) db) [
          | inl (a, db', made, e) ↦
              rw e (inr (refl, then_bump-version A rest now statement db a db' h apart made))
          | inr (x, e) ↦ rw e (inl (refl, refl))
        ]

  unit_of-ok :
      (r : Result Text d.Db) {u : Unit {0}} {db1 : d.Db} → unit_of d s r ≡ ok (u, db1) → r ≡ ok db1
  unit_of-ok (ok db2) h = ap ok (ap (λ (x : Unit {0} × d.Db). x.1) (ok-injective h))
  unit_of-ok (err e) h = cc

  -- Each write of a provider or a channel, through its transaction, raises the version of the
  -- routing configuration by one when it succeeds, and changes nothing when it fails. The tables
  -- answer as their interface says.
  pub mutate-Raises :
      (m : Mutation) (now : Time) (db : d.Db)
      → Raises db (mutate d s m now db).0 (mutate d s m now db).1
  unfolding mutate create_provider save_provider delete_provider create_provider_channel
      save_provider_channel disable_provider_channel delete_provider_channel
  mutate-Raises (creates_provider p) now db =
      bumping-Raises Provider [] now _ db tt
        (λ a db1 e. lawful.providers_apart.create-apart _ db a db1 e)
  mutate-Raises (saves_provider p) now db =
      bumping-Raises (Unit {0}) [] now _ db tt
        (λ a db1 e. lawful.providers_apart.save-apart _ db db1 (unit_of-ok _ e))
  mutate-Raises (deletes_provider id) now db =
      bumping-Raises (Unit {0}) [] now _ db tt
        (λ a db1 e. lawful.providers_apart.delete-apart _ db db1 (unit_of-ok _ e))
  mutate-Raises (creates_channel c) now db =
      bumping-Raises ProviderChannel _ now _ db others (λ a db1 e.
        let (c1, _, e1) = >>=-eq-ok (Channel.apply_defaults c) _ e in
        let (c2, _, e2) = >>=-eq-ok (Channel.apply_defaults c1) _ e1 in
        lawful.channels_apart.create-apart c2 db a db1 e2)
  mutate-Raises (saves_channel c) now db = bumping-Raises (Unit {0}) _ now _ db others (λ a db1 e.
      let (c1, _, e1) = >>=-eq-ok (Channel.apply_defaults c) _ e in
      lawful.channels_apart.save-apart c1 db db1 (unit_of-ok _ e1))
  mutate-Raises (disables_channel id) now db =
      bumping-Raises (Unit {0}) _ now _ db others (λ a db1 e.
        let (_, _, e1) = >>=-eq-ok (Channel.apply_defaults zero_channel) _ e in
        lawful.channels_apart.update-apart _ _ db db1 (unit_of-ok _ e1))
  mutate-Raises (deletes_channel id) now db =
      bumping-Raises (Unit {0}) _ now _ db others
        (λ a db1 e. lawful.channels_apart.delete-apart _ db db1 (unit_of-ok _ e))

module _ (d : Database) (s : Store d) where
  -- Disabling a channel fails and changes nothing: the hook that checks a channel before it is saved sees
  -- the empty channel of the update.
  pub disable_provider_channel-fails :
      (id : ℕ) (now : Time) (db : d.Db)
      → (e : Text) × (disable_provider_channel d s id now db ≡ (err e, db))
  unfolding disable_provider_channel then_bump Channel.apply_defaults Channel.trimmed trim_space
      drop_left drop_right text_beq
  disable_provider_channel-fails id now db =
      elim (d.transaction_cases (Unit {0})
        (then_bump d s channel_names now (disable_statement d s id now)) db) [
          | inl (a, db', made, _) ↦ cc
          | inr failed ↦ failed
        ]
