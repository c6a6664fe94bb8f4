-- ===== src/Admin/Channels/Writes.antt =====
-- The writes of channels, and that a request which asks for one gets it.
use aether_code.Base.{
  false, sym, ap, subst, text_beq, ℕ, List, [], ◌∷◌, Option, none, some, Text, codes, ◌==◌, text_eq,
  text_beq_iff, Result, ok, err, Bool-cases, inl, inr, ◌≡◌, refl, arith,
}
use aether_code.Text.{parse_id, parse_uint}
use aether_code.Store.Provider.{Time}
use aether_code.Store.Channel.{ProviderChannel}
use aether_code.Store.Cache.{Cache}
use aether_code.Store.Database.{Database}
use aether_code.Store.Mutations.{
  Store, creates_channel, saves_channel, disables_channel, deletes_channel, mutate,
  create_provider_channel, save_provider_channel, disable_provider_channel, delete_provider_channel,
}
use aether_code.Http.{Write}
use aether_code.Relay.Auth.{AuthConfig, check_admin_auth}
use aether_code.Admin.{Codec, Request, with_admin_auth}
use aether_code.Admin.Channels
use aether_code.Admin.Channels.{show_channel, admin_provider_channels, admin_provider_channel_by_id}
use aether_code.Admin.Effects.{
  IdInPath, Performs, bumping-err, failed-Performs, done-Performs, answering,
}

module _ (codec : Codec) (getenv : Text → Text) (read_file : Text → Option Text) (d : Database)
    (s : Store d) (cfg : AuthConfig) (now : Time) (r : Request) (c : Cache) (db : d.Db) where
  abbrev AtId : ℕ → List Text → Type 0
  AtId id rest = IdInPath codec (codes "/internal/provider-channels/") r.path id rest

  pub created-Performs :
      (channel : ProviderChannel) (out : Result Text ProviderChannel × d.Db)
      → create_provider_channel d s channel now db ≡ out
      → Performs getenv read_file d s now
          (creates_channel channel)
          c
          db
          (Channels.created codec getenv read_file d s cfg now c out)
  unfolding mutate create_provider_channel
  created-Performs channel (err e, db') made =
      let kept = bumping-err getenv read_file d s now ProviderChannel _ _ db made in
      failed-Performs getenv read_file d s now (creates_channel channel) c db e 400 db'
        (omega arith) (rw made (ap (λ (x : d.Db). (false, x)) kept)) kept
  created-Performs channel (ok q, db') made =
      done-Performs getenv read_file d s now (creates_channel channel) c db db' _ (rw made refl)
        (answering getenv read_file d s now (show_channel codec getenv read_file d s cfg now 201 q))

  pub saved-Performs :
      (channel : ProviderChannel) (ws : List Write) (out : Result Text (Unit {0}) × d.Db)
      → save_provider_channel d s channel now db ≡ out
      → Performs getenv read_file d s now
          (saves_channel channel)
          c
          db
          (Channels.saved codec getenv read_file d s cfg now 400 ws c out)
  unfolding mutate save_provider_channel
  saved-Performs channel ws (err e, db') made =
      let kept = bumping-err getenv read_file d s now (Unit {0}) _ _ db made in
      failed-Performs getenv read_file d s now (saves_channel channel) c db e 400 db' (omega arith)
        (rw made (ap (λ (x : d.Db). (false, x)) kept)) kept
  saved-Performs channel ws (ok q, db') made =
      done-Performs getenv read_file d s now (saves_channel channel) c db db' _ (rw made refl)
        (answering getenv read_file d s now ws)

  pub deleted-Performs :
      (id : ℕ) (ws : List Write) (out : Result Text (Unit {0}) × d.Db)
      → delete_provider_channel d s id now db ≡ out
      → Performs getenv read_file d s now
          (deletes_channel id)
          c
          db
          (Channels.saved codec getenv read_file d s cfg now 500 ws c out)
  unfolding mutate delete_provider_channel
  deleted-Performs id ws (err e, db') made =
      let kept = bumping-err getenv read_file d s now (Unit {0}) _ _ db made in
      failed-Performs getenv read_file d s now (deletes_channel id) c db e 500 db' (omega arith)
        (rw made (ap (λ (x : d.Db). (false, x)) kept)) kept
  deleted-Performs id ws (ok q, db') made =
      done-Performs getenv read_file d s now (deletes_channel id) c db db' _ (rw made refl)
        (answering getenv read_file d s now ws)

  shown-Keeps :
      (c' : Cache) (db' : d.Db) (o : Result Text ProviderChannel)
      → (ws : List Write) × (Channels.shown codec getenv read_file d s cfg now c' db' o
          ≡ (ws, c', db'))
  shown-Keeps c' db' (err e) = (_, refl)
  shown-Keeps c' db' (ok channel) = (_, refl)

  pub disabled-Performs :
      (id : ℕ) (out : Result Text (Unit {0}) × d.Db)
      → disable_provider_channel d s id now db ≡ out
      → Performs getenv read_file d s now
          (disables_channel id)
          c
          db
          (Channels.disabled codec getenv read_file d s cfg now id c out)
  unfolding mutate disable_provider_channel
  disabled-Performs id (err e, db') made =
      let kept = bumping-err getenv read_file d s now (Unit {0}) _ _ db made in
      failed-Performs getenv read_file d s now (disables_channel id) c db e 500 db' (omega arith)
        (rw made (ap (λ (x : d.Db). (false, x)) kept)) kept
  disabled-Performs id (ok q, db') made =
      done-Performs getenv read_file d s now (disables_channel id) c db db' _ (rw made refl)
        (λ c1 db1. shown-Keeps c1 db1 _)

  -- A request with the right key that asks for a write gets it.
  module _ (admitted : check_admin_auth cfg r.header ≡ none) where
    pub creates_channel-Performs :
        (channel : ProviderChannel)
        → r.method ≡ codes "POST"
        → codec.decode_channel r.body ≡ some channel
        → Performs getenv read_file d s now
            (creates_channel channel)
            c
            db
            (admin_provider_channels codec getenv read_file d s cfg now r c db)
    unfolding admin_provider_channels with_admin_auth text_beq
    creates_channel-Performs channel post sent =
        rw (admitted, post, sent) (created-Performs channel _ refl)

    filled : (first : Text) (id : ℕ) → parse_id first ≡ some id → (first == []) ≡ false
    unfolding parse_id parse_uint
    filled first id h = elim (Bool-cases (first == [])) [
      | inl t ↦ absurd (no_id (rw ((text_beq_iff first []).0 t) at h))
      | inr f ↦ f
    ]
      where
        no_id : none ≡ some id → ⊥
        no_id e = cc

    saves_row-Performs :
        (id : ℕ) (sent : ProviderChannel)
        → r.method ≡ codes "PUT"
        → AtId id []
        → codec.decode_channel r.body ≡ some sent
        → Performs getenv read_file d s now
            (saves_channel (record sent { id = id }))
            c
            db
            (admin_provider_channel_by_id codec getenv read_file d s cfg now r c db)
    unfolding admin_provider_channel_by_id with_admin_auth text_beq
    saves_row-Performs id sent put (first, parts, at) body =
        rw (admitted, parts, filled first id at, at, put, body)
          (saved-Performs (record sent { id = id }) _ _ refl)

    pub saves_channel-Performs :
        (channel sent : ProviderChannel)
        → r.method ≡ codes "PUT"
        → AtId channel.id []
        → codec.decode_channel r.body ≡ some sent
        → channel ≡ record sent { id = channel.id }
        → Performs getenv read_file d s now
            (saves_channel channel)
            c
            db
            (admin_provider_channel_by_id codec getenv read_file d s cfg now r c db)
    saves_channel-Performs channel sent put at body same =
        subst
          (λ (x : ProviderChannel).
            Performs getenv read_file d s now (saves_channel x) c db
              (admin_provider_channel_by_id codec getenv read_file d s cfg now r c db))
          (sym same) (saves_row-Performs channel.id sent put at body)

    pub disables_channel-Performs :
        (id : ℕ)
        → r.method ≡ codes "POST"
        → AtId id (codes "disable" ∷ [])
        → Performs getenv read_file d s now
            (disables_channel id)
            c
            db
            (admin_provider_channel_by_id codec getenv read_file d s cfg now r c db)
    unfolding admin_provider_channel_by_id with_admin_auth text_beq
    disables_channel-Performs id post (first, parts, at) =
        rw (admitted, parts, filled first id at, at, post) (disabled-Performs id _ refl)

    pub deletes_channel-Performs :
        (id : ℕ)
        → r.method ≡ codes "DELETE"
        → AtId id []
        → Performs getenv read_file d s now
            (deletes_channel id)
            c
            db
            (admin_provider_channel_by_id codec getenv read_file d s cfg now r c db)
    unfolding admin_provider_channel_by_id with_admin_auth text_beq
    deletes_channel-Performs id delete (first, parts, at) =
        rw (admitted, parts, filled first id at, at, delete) (deleted-Performs id _ _ refl)
