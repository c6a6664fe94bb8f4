-- ===== src/Store/Channel.antt =====
-- router/internal/store/platform.go: provider channels, their defaults, their projection to the
-- providers that the router selects among, and the references to upstream keys.
pub mod Laws
pub mod Public
use aether_code.Base.{
  ℕ, ◌+◌, ◌%◌, Bool, true, false, not, ◌||◌, List, [], ◌∷◌, ◌++◌, Option, none, some, Text, codes,
  ◌==◌, text_eq, nat_eq, int_eq, ℤ, pos, two_64, if◌then◌else◌, Result, ok, err, length, insert,
}
use aether_code.Text.{trim_space, or_else, has_prefix, trim_prefix, contains, fields, format_uint}
use aether_code.Store.Capability.{normalize_endpoint_capabilities}
use aether_code.Store.Provider.{
  Time, StringMap, entries, status_enabled, default_group, Provider, or_default_capabilities,
}

abbrev pub provider_channel_id_offset : ℕ
provider_channel_id_offset = 1000000

pub record ProviderChannel : Type 0 where
  pub id : ℕ
  pub name : Text
  pub legacy_provider_id : ℕ
  pub provider : Text
  pub public_model_id : Text
  pub endpoint_capabilities : List Text
  pub status : ℤ
  pub priority : ℤ
  pub weight : ℕ
  pub upstream_base_url : Text
  pub upstream_model : Text
  pub upstream_api_key_secret_ref : Text
  pub auth_header : Text
  pub auth_prefix : Text
  pub headers : StringMap
  pub channel_type : Text
  pub relay_format : Text
  pub billing_class : Text
  pub created_at : Time
  pub updated_at : Time

-- `ProviderChannel{}`
abbrev pub zero_channel : ProviderChannel
zero_channel = record {
  id = 0;
  name = [];
  legacy_provider_id = 0;
  provider = [];
  public_model_id = [];
  endpoint_capabilities = [];
  status = pos 0;
  priority = pos 0;
  weight = 0;
  upstream_base_url = [];
  upstream_model = [];
  upstream_api_key_secret_ref = [];
  auth_header = [];
  auth_prefix = [];
  headers = none;
  channel_type = [];
  relay_format = [];
  billing_class = [];
  created_at = 0;
  updated_at = 0;
}

-- The first half of `applyDefaults`: every text field is trimmed.
unfoldable pub trimmed : ProviderChannel → ProviderChannel
trimmed c = record c {
  name = trim_space c.name;
  provider = trim_space c.provider;
  public_model_id = trim_space c.public_model_id;
  upstream_base_url = trim_space c.upstream_base_url;
  upstream_model = trim_space c.upstream_model;
  upstream_api_key_secret_ref = trim_space c.upstream_api_key_secret_ref;
  auth_header = trim_space c.auth_header;
  auth_prefix = trim_space c.auth_prefix;
  channel_type = trim_space c.channel_type;
  relay_format = trim_space c.relay_format;
  billing_class = trim_space c.billing_class;
}

-- The test that refuses a public model id.
unfoldable pub is_bad_model_id : Text → Bool
is_bad_model_id m = m == [] || contains m b',' || not (length (fields m) == 1)

unfoldable pub filled : ProviderChannel → ProviderChannel
filled c = record c {
  status = if c.status == pos 0 then status_enabled else c.status;
  headers = some (entries c.headers);
  endpoint_capabilities =
      or_default_capabilities (normalize_endpoint_capabilities c.endpoint_capabilities);
}

unfoldable pub apply_defaults : ProviderChannel → Result Text ProviderChannel
apply_defaults channel =
    let c = trimmed channel in
    if c.provider == []
    then err (codes "provider is required")
    else if is_bad_model_id c.public_model_id
    then err (codes "provider channel must have exactly one non-empty public modelId")
    else ok (filled c)

-- `os.Getenv` and `os.ReadFile`, `none` on an error, are parameters.
module _ (getenv : Text → Text) (read_file : Text → Option Text) where
  abbrev file_text : Option Text → Text
  file_text none = []
  file_text (some data') = trim_space data'

  abbrev read_path : Text → Text
  read_path path = if path == [] then [] else file_text (read_file path)

  unfoldable pub resolve_secret_ref : Text → Text
  resolve_secret_ref raw =
      let ref = trim_space raw in
      if has_prefix ref (codes "env:")
      then getenv (trim_space (trim_prefix ref (codes "env:")))
      else if has_prefix ref (codes "file:")
      then read_path (trim_space (trim_prefix ref (codes "file:")))
      else []

  unfoldable pub to_provider : ProviderChannel → Provider
  unfolding resolve_secret_ref
  to_provider c = record {
    id = (provider_channel_id_offset + c.id) % two_64;
    platform_channel_id = c.id;
    name = c.name;
    provider = c.provider;
    base_url = c.upstream_base_url;
    api_key = resolve_secret_ref c.upstream_api_key_secret_ref;
    auth_header = c.auth_header;
    auth_prefix = c.auth_prefix;
    models = c.public_model_id;
    groups = default_group;
    model_mapping =
        if c.upstream_model == [] || c.upstream_model == c.public_model_id
        then some []
        else some (insert c.public_model_id c.upstream_model []);
    headers = c.headers;
    endpoint_capabilities = c.endpoint_capabilities;
    channel_type = c.channel_type;
    relay_format = c.relay_format;
    status = c.status;
    weight = c.weight;
    priority = c.priority;
    created_at = c.created_at;
    updated_at = c.updated_at;
  }

-- The reference that `ImportLegacyProvidersAsChannels` gives a channel whose provider has a key.
unfoldable pub legacy_secret_ref : ℕ → Text
legacy_secret_ref provider_id =
    codes "legacy-router-providers/" ++ (format_uint provider_id ++ codes "/api_key")
