-- ===== src/Store/Tests/Rows.antt =====
-- The theorems about the rows at concrete inputs.
use aether_code.Base.{
  List, [], ◌∷◌, Option, none, some, Text, codes, ◌==◌, text_eq, text_beq, ok, ◌≡◌, ◌≢◌, ◌↔◌, refl,
  All, In, pos, if◌then◌else◌, arith, keep,
}
use aether_code.Text.{trim_space, drop_left, drop_right, to_lower, split_by}
use aether_code.Store.Capability.{
  normalize_endpoint_capability, normalize_endpoint_capabilities, normalize_unseen,
  default_endpoint_capabilities,
}
use aether_code.Store.Capability.Laws.{
  IsNormal, IsDistinct, normalize_endpoint_capabilities_lem, In-normalize_endpoint_capabilities,
}
use aether_code.Store.Provider.{auth_prefix_or_default}
use aether_code.Store.Channel.{
  ProviderChannel, to_provider, resolve_secret_ref, legacy_secret_ref, trimmed, filled,
  is_bad_model_id, provider_channel_id_offset,
}
use aether_code.Store.Channel
use aether_code.Store.Channel.Laws.{
  Accepted, apply_defaults-eq-ok, resolve-legacy_secret_ref, auth_prefix-to_provider,
  id-to_provider,
}

-- What evaluating a row unfolds.
row_runs : Unit {0}
unfolding normalize_endpoint_capability normalize_endpoint_capabilities normalize_unseen trim_space
    drop_left drop_right to_lower text_beq Channel.apply_defaults trimmed filled is_bad_model_id
    split_by default_endpoint_capabilities keep
row_runs = tt

abbrev names : List Text
names =
    codes " OpenAI.Chat_Completions" ∷ codes "openai.chat_completions" ∷ codes "" ∷ codes "b" ∷ []

normalize_endpoint_capabilities_lem_example :
    let out = normalize_endpoint_capabilities names in
    All IsNormal out × IsDistinct out × (normalize_endpoint_capabilities out ≡ out)
normalize_endpoint_capabilities_lem_example = normalize_endpoint_capabilities_lem names

In-normalize_endpoint_capabilities_example :
    In (codes "b") (normalize_endpoint_capabilities names)
    ↔ ((v : Text) × In v names × (codes "b" ≡ normalize_endpoint_capability v))
In-normalize_endpoint_capabilities_example =
    In-normalize_endpoint_capabilities names (codes "b") (λ e. cc)

abbrev channel : ProviderChannel
channel = record {
  id = 3;
  name = codes " main ";
  legacy_provider_id = 0;
  provider = codes "openai ";
  public_model_id = codes " gpt-4o";
  endpoint_capabilities = [];
  status = pos 0;
  priority = pos 1;
  weight = 2;
  upstream_base_url = codes "http://up";
  upstream_model = codes "gpt-4o-2024";
  upstream_api_key_secret_ref = codes "env:KEY";
  auth_header = [];
  auth_prefix = codes "Bearer ";
  headers = none;
  channel_type = [];
  relay_format = [];
  billing_class = [];
  created_at = 0;
  updated_at = 0;
}

abbrev accepted : ProviderChannel
accepted = record channel {
  name = codes "main";
  provider = codes "openai";
  public_model_id = codes "gpt-4o";
  endpoint_capabilities = default_endpoint_capabilities;
  status = pos 1;
  auth_prefix = codes "Bearer";
  headers = some [];
}

accepts : Channel.apply_defaults channel ≡ ok accepted
unfolding row_runs
accepts = refl

apply_defaults-eq-ok_example : Accepted channel accepted
apply_defaults-eq-ok_example = apply_defaults-eq-ok channel accepts

abbrev getenv : Text → Text
getenv name = if name == codes "KEY" then codes "sk" else []

abbrev read_file : Text → Option Text
read_file path = none

resolve-legacy_secret_ref_example : resolve_secret_ref getenv read_file (legacy_secret_ref 12) ≡ []
resolve-legacy_secret_ref_example = resolve-legacy_secret_ref getenv read_file 12

auth_prefix-to_provider_example :
    auth_prefix_or_default (to_provider getenv read_file accepted) ≡ trim_space (codes "Bearer ")
auth_prefix-to_provider_example =
    auth_prefix-to_provider getenv read_file channel accepts (unfold row_runs in λ e. cc)

id-to_provider_example :
    let p = to_provider getenv read_file channel in
    let q = to_provider getenv read_file (record channel { id = 4 }) in
    (p.id ≢ 1000000) × (p.id ≡ q.id → channel.id ≡ (record channel { id = 4 }).id)
id-to_provider_example =
    id-to_provider getenv read_file channel (record channel { id = 4 }) 1000000 (omega arith)
      (omega arith) (omega arith) (omega arith)
