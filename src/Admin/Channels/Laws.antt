-- ===== src/Admin/Channels/Laws.antt =====
-- The effect of each request for channels.
use aether_code.Base.{
  subst, ℕ, List, [], ◌∷◌, Option, none, some, Text, codes, ◌==◌, text_eq, text_beq_iff, Result, ok,
  err, Bool-cases, inl, inr, ◌≡◌, refl, arith,
}
use aether_code.Text.{trim, trim_prefix, split, parse_id}
use aether_code.Store.Provider.{Time}
use aether_code.Store.Channel.{ProviderChannel}
use aether_code.Store.Cache.{Cache}
use aether_code.Store.Database.{Database}
use aether_code.Store.Mutations.{
  Store, creates_channel, saves_channel, disables_channel, deletes_channel,
}
use aether_code.Http.{http_not_found}
use aether_code.Http.Laws.{http_not_found-IsError}
use aether_code.Relay.Auth.{AuthConfig}
use aether_code.Admin.{channels, channel_by_id, Codec, Request, Handled}
use aether_code.Admin.Channels
use aether_code.Admin.Channels.{show_channel, admin_provider_channels, admin_provider_channel_by_id}
use aether_code.Admin.Effects.{IdInPath, refused-Effect, read-Effect, asked-Effect}
use aether_code.Admin.Answers.{HasEffect, refusal, method_refusal, admitted-Effect}
use aether_code.Admin.Channels.Writes.{
  created-Performs, saved-Performs, deleted-Performs, disabled-Performs,
}

module _ (codec : Codec) (getenv : Text → Text) (read_file : Text → Option Text) (d : Database)
    (s : Store d) (cfg : AuthConfig) (now : Time) (r : Request) (c : Cache) (db : d.Db) where
  abbrev OfList : Handled getenv read_file d s → Type 0
  OfList handled = HasEffect codec getenv read_file d s cfg now channels r c db handled

  abbrev OfRow : Handled getenv read_file d s → Type 0
  OfRow handled = HasEffect codec getenv read_file d s cfg now channel_by_id r c db handled

  abbrev AtId : ℕ → List Text → Type 0
  AtId id rest = IdInPath codec (codes "/internal/provider-channels/") r.path id rest

  post_channel-Effect :
      (o : Option ProviderChannel)
      → r.method ≡ codes "POST"
      → codec.decode_channel r.body ≡ o
      → OfList (Channels.post_channel codec getenv read_file d s cfg now c db o)
  post_channel-Effect none post sent =
      refusal codec getenv read_file d s cfg now channels r c db _ 400 (omega arith)
  post_channel-Effect (some channel) post sent =
      asked-Effect getenv read_file d s now codec channels r c db (creates_channel channel) _
        (refl, post, sent)
        (created-Performs codec getenv read_file d s cfg now r c db channel _ refl)

  listed-Effect :
      (o : Result Text (List ProviderChannel))
      → r.method ≡ codes "GET"
      → OfList (Channels.listed codec getenv read_file d s cfg now c db o)
  listed-Effect (err e) get =
      refusal codec getenv read_file d s cfg now channels r c db e 500 (omega arith)
  listed-Effect (ok cs) get = read-Effect getenv read_file d s now codec channels r c db _ get

  shown-Effect :
      (o : Result Text ProviderChannel)
      → r.method ≡ codes "GET"
      → OfRow (Channels.shown codec getenv read_file d s cfg now c db o)
  shown-Effect (err e) get =
      refusal codec getenv read_file d s cfg now channel_by_id r c db e 404 (omega arith)
  shown-Effect (ok channel) get =
      read-Effect getenv read_file d s now codec channel_by_id r c db _ get

  put_channel-Effect :
      (id : ℕ) (o : Option ProviderChannel)
      → r.method ≡ codes "PUT"
      → AtId id []
      → codec.decode_channel r.body ≡ o
      → OfRow (Channels.put_channel codec getenv read_file d s cfg now id c db o)
  put_channel-Effect id none put at sent =
      refusal codec getenv read_file d s cfg now channel_by_id r c db _ 400 (omega arith)
  put_channel-Effect id (some channel) put at sent =
      asked-Effect getenv read_file d s now codec channel_by_id r c db
        (saves_channel (record channel { id = id })) _ (refl, put, at, (channel, sent, refl))
        (saved-Performs codec getenv read_file d s cfg now r c db (record channel { id = id }) _ _
          refl)

  one_row-Effect :
      (id : ℕ) → AtId id [] → OfRow (Channels.one_row codec getenv read_file d s cfg now id r c db)
  one_row-Effect id at = elim (Bool-cases (r.method == codes "GET")) [
    | inl t ↦ rw t (shown-Effect _ ((text_beq_iff r.method (codes "GET")).0 t))
    | inr f ↦ rw f (elim (Bool-cases (r.method == codes "PUT")) [
      | inl t ↦ rw t (put_channel-Effect id _ ((text_beq_iff r.method (codes "PUT")).0 t) at refl)
      | inr g ↦ rw g (elim (Bool-cases (r.method == codes "DELETE")) [
        | inl t ↦ rw t (
            asked-Effect getenv read_file d s now codec channel_by_id r c db (deletes_channel id) _
              (refl, (text_beq_iff r.method (codes "DELETE")).0 t, at)
              (deleted-Performs codec getenv read_file d s cfg now r c db id _ _ refl))
        | inr h ↦ rw h (
            method_refusal codec getenv read_file d s cfg now channel_by_id r c db
              (codes "GET, PUT, DELETE"))
      ])
    ])
  ]

  not_found : OfRow (http_not_found, c, db)
  not_found =
      refused-Effect getenv read_file d s now codec channel_by_id r c db _ http_not_found-IsError

  disable-Effect :
      (id : ℕ)
      → AtId id (codes "disable" ∷ [])
      → OfRow (Channels.disable codec getenv read_file d s cfg now id r c db)
  disable-Effect id at = elim (Bool-cases (r.method == codes "POST")) [
    | inl t ↦ rw t (
        asked-Effect getenv read_file d s now codec channel_by_id r c db (disables_channel id) _
          (refl, (text_beq_iff r.method (codes "POST")).0 t, at)
          (disabled-Performs codec getenv read_file d s cfg now r c db id _ refl))
    | inr f ↦
        rw f (method_refusal codec getenv read_file d s cfg now channel_by_id r c db (codes "POST"))
  ]

  behind_id-Effect :
      (id : ℕ) (rest : List Text)
      → AtId id rest
      → OfRow (Channels.behind_id codec getenv read_file d s cfg now id rest r c db)
  behind_id-Effect id [] at = one_row-Effect id at
  behind_id-Effect id (word ∷ []) at = elim (Bool-cases (word == codes "disable")) [
    | inl t ↦ rw t (
        disable-Effect id
          (subst (λ (w : Text). AtId id (w ∷ [])) ((text_beq_iff word (codes "disable")).0 t) at))
    | inr f ↦ rw f not_found
  ]
  behind_id-Effect id (word ∷ next ∷ rest) at = not_found

  with_id-Effect :
      (o : Option ℕ) (first : Text) (rest : List Text)
      → split (trim (trim_prefix r.path (codes "/internal/provider-channels/")) b'/') b'/'
        ≡ first ∷ rest
      → parse_id first ≡ o
      → OfRow (Channels.with_id codec getenv read_file d s cfg now o rest r c db)
  with_id-Effect none first rest parts at =
      refusal codec getenv read_file d s cfg now channel_by_id r c db _ 400 (omega arith)
  with_id-Effect (some id) first rest parts at = behind_id-Effect id rest (first, parts, at)

  with_parts-Effect :
      (parts : List Text)
      → split (trim (trim_prefix r.path (codes "/internal/provider-channels/")) b'/') b'/' ≡ parts
      → OfRow (Channels.with_parts codec getenv read_file d s cfg now parts r c db)
  with_parts-Effect [] e =
      refusal codec getenv read_file d s cfg now channel_by_id r c db _ 400 (omega arith)
  with_parts-Effect (first ∷ rest) e = elim (Bool-cases (first == [])) [
    | inl t ↦
        rw t (refusal codec getenv read_file d s cfg now channel_by_id r c db _ 400 (omega arith))
    | inr f ↦ rw f (with_id-Effect _ first rest e refl)
  ]

  pub admin_provider_channels-Effect :
      OfList (admin_provider_channels codec getenv read_file d s cfg now r c db)
  unfolding admin_provider_channels
  admin_provider_channels-Effect =
      admitted-Effect codec getenv read_file d s cfg now channels r c db _
        (elim (Bool-cases (r.method == codes "GET")) [
          | inl t ↦ rw t (listed-Effect _ ((text_beq_iff r.method (codes "GET")).0 t))
          | inr f ↦ rw f (elim (Bool-cases (r.method == codes "POST")) [
            | inl t ↦ rw t (post_channel-Effect _ ((text_beq_iff r.method (codes "POST")).0 t) refl)
            | inr g ↦ rw g (
                method_refusal codec getenv read_file d s cfg now channels r c db
                  (codes "GET, POST"))
          ])
        ])

  pub admin_provider_channel_by_id-Effect :
      OfRow (admin_provider_channel_by_id codec getenv read_file d s cfg now r c db)
  unfolding admin_provider_channel_by_id
  admin_provider_channel_by_id-Effect =
      admitted-Effect codec getenv read_file d s cfg now channel_by_id r c db _
        (with_parts-Effect _ refl)
