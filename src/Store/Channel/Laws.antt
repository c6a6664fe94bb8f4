-- ===== src/Store/Channel/Laws.antt =====
-- What an accepted channel is, the provider that it is projected to, and its upstream key.
use aether_code.Base.{
  ℕ, ◌+◌, ◌<◌, ◌≤◌, false, [], ◌∷◌, Text, text_beq_iff, ◌==◌, text_eq, nat_eq, int_eq, pos,
  Bool-cases, ==_ne, inl, inr, ◌≢◌, ◌≡◌, refl, subst, arith, length, if◌then◌else◌, Option, Result,
  ok, err, ok-injective, two_64, lookup, lookup-insert_self,
}
use aether_code.Text.{trim_space, is_space, contains, fields, strip_prefix, drop_left, drop_right}
use aether_code.Text.Trim.{trim_space_idem}
use aether_code.Text.Split.{Lacks, put_left_of}
use aether_code.Store.Provider.{model_list, upstream_model, auth_prefix_or_default}
use aether_code.Store.Provider.Laws.{IsModelId, split_csv-IsModelId}
use aether_code.Store.Channel.{
  ProviderChannel, provider_channel_id_offset, trimmed, is_bad_model_id, filled, apply_defaults,
  resolve_secret_ref, to_provider, legacy_secret_ref,
}

contains-Lacks : (m : Text) (c : ℕ) → contains m c ≡ false → Lacks (λ d. d == c) m
contains-Lacks [] c h = tt
contains-Lacks (d ∷ m) c h = (ground arith, contains-Lacks m c (ground arith))

trim_space-IsModelId :
    (m : Text) → is_bad_model_id (trim_space m) ≡ false → IsModelId (trim_space m)
unfolding is_bad_model_id
trim_space-IsModelId m h =
    let t = trim_space m in
    let comma : contains t b',' ≡ false = ground arith in
    let nonempty : (t == []) ≡ false = ground arith in
    (λ e. cc (nonempty, (text_beq_iff t []).1 e), trim_space_idem m, contains-Lacks t b',' comma)

abbrev pub Accepted : ProviderChannel → ProviderChannel → Type 0
Accepted c d =
    (d.provider ≢ [])
    × IsModelId d.public_model_id
    × (length (fields d.public_model_id) ≡ 1)
    × (d.status ≢ pos 0)
    × (d.auth_prefix ≡ trim_space c.auth_prefix)
    × (d.id ≡ c.id)

one_field : (m : Text) → is_bad_model_id m ≡ false → length (fields m) ≡ 1
unfolding is_bad_model_id
one_field m h = ground arith

filled-Accepted :
    (c : ProviderChannel)
    → (trim_space c.provider == []) ≡ false
    → is_bad_model_id (trim_space c.public_model_id) ≡ false
    → Accepted c (filled (trimmed c))
unfolding filled trimmed
filled-Accepted c named good = (
  λ e. cc (named, (text_beq_iff _ []).1 e),
  trim_space-IsModelId c.public_model_id good,
  one_field _ good,
  ground arith,
  refl,
  refl,
)

-- A channel that passes the checks has a provider and exactly one public model id, which is trimmed
-- and has no comma, and its status is set.
pub apply_defaults-eq-ok :
    (c : ProviderChannel) {d : ProviderChannel} → apply_defaults c ≡ ok d → Accepted c d
unfolding apply_defaults trimmed
apply_defaults-eq-ok c {d} h = elim (Bool-cases (trim_space c.provider == [])) [
  | inl e ↦
      let refused : ◌≡◌ {A = Result Text ProviderChannel} (err _) (ok d) =
        rw (e, apply_defaults) at h in
      cc
  | inr e ↦ elim (Bool-cases (is_bad_model_id (trim_space c.public_model_id))) [
    | inl f ↦
        let refused : ◌≡◌ {A = Result Text ProviderChannel} (err _) (ok d) =
          rw (e, f, apply_defaults) at h in
        cc
    | inr f ↦
        let accepted : ◌≡◌ {A = Result Text ProviderChannel} (ok (filled (trimmed c))) (ok d) =
          rw (e, f, apply_defaults) at h in
        subst (Accepted c) (ok-injective accepted) (filled-Accepted c e f)
  ]
]

-- The provider of an accepted channel lists exactly the channel's model.
pub model_list-to_provider :
    (getenv : Text → Text) (read_file : Text → Option Text) (c : ProviderChannel)
    → IsModelId c.public_model_id
    → model_list (to_provider getenv read_file c) ≡ c.public_model_id ∷ []
unfolding model_list to_provider
model_list-to_provider getenv read_file c h = split_csv-IsModelId c.public_model_id h

-- The model that is asked for upstream is the channel's own name for it, or the public one where the
-- channel has none (a trimmed name is empty or not blank).
pub upstream_model-to_provider :
    (getenv : Text → Text) (read_file : Text → Option Text) (c : ProviderChannel)
    → trim_space c.upstream_model ≡ c.upstream_model
    → upstream_model (to_provider getenv read_file c) c.public_model_id
      ≡ (if c.upstream_model == [] then c.public_model_id else c.upstream_model)
unfolding upstream_model to_provider lookup
upstream_model-to_provider getenv read_file c h = ground (
  arith,
  h,
  text_beq_iff c.upstream_model [],
  text_beq_iff c.upstream_model c.public_model_id,
  text_beq_iff (trim_space c.upstream_model) [],
  lookup-insert_self c.public_model_id c.upstream_model [],
)

-- The reference of an imported channel names neither a variable nor a file: it resolves to no key.
pub resolve-legacy_secret_ref :
    (getenv : Text → Text) (read_file : Text → Option Text) (id : ℕ)
    → resolve_secret_ref getenv read_file (legacy_secret_ref id) ≡ []
unfolding resolve_secret_ref legacy_secret_ref trim_space drop_left drop_right strip_prefix
resolve-legacy_secret_ref getenv read_file id = rw (put_left_of is_space b'l' _ refl) refl

-- A prefix that is configured on a channel reaches the upstream request without its outer blanks: only
-- a channel with no prefix sends `Bearer` with a blank behind it.
pub auth_prefix-to_provider :
    (getenv : Text → Text) (read_file : Text → Option Text) (c : ProviderChannel)
    {d : ProviderChannel}
    → apply_defaults c ≡ ok d
    → trim_space c.auth_prefix ≢ []
    → auth_prefix_or_default (to_provider getenv read_file d) ≡ trim_space c.auth_prefix
unfolding auth_prefix_or_default to_provider
auth_prefix-to_provider getenv read_file c {d} h nonblank =
    let (_, _, _, _, e, _) = apply_defaults-eq-ok c h in
    rw (e, ==_ne (trim_space c.auth_prefix) [] nonblank) refl

-- The id of the provider of a channel is offset. If the id of the channel is positive, the offset id
-- differs from every legacy id up to the offset, and two channels have different ids, as long as neither
-- sum wraps.
pub id-to_provider :
    (getenv : Text → Text) (read_file : Text → Option Text) (c d : ProviderChannel) (legacy : ℕ)
    → provider_channel_id_offset + c.id < two_64
    → provider_channel_id_offset + d.id < two_64
    → 0 < c.id
    → legacy ≤ provider_channel_id_offset
    → let p = to_provider getenv read_file c in
      let q = to_provider getenv read_file d in (p.id ≢ legacy) × (p.id ≡ q.id → c.id ≡ d.id)
unfolding to_provider
id-to_provider getenv read_file c d legacy hc hd positive h = (ground arith, ground arith)
