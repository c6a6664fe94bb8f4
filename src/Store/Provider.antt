-- ===== src/Store/Provider.antt =====
-- router/internal/store/provider.go: the row of a provider and what is derived from one row.
pub mod Laws
use aether_code.Base.{
  ℕ, zero, suc, Bool, true, false, List, [], ◌∷◌, Option, none, some, Text, codes, text_beq, ◌==◌,
  text_eq, int_eq, nat_eq, ℤ, pos, if◌then◌else◌, any, lookup, length,
}
use aether_code.Text.{trim_space, trim, or_else, has_prefix, equal_fold, split}
use aether_code.Store.Capability.{
  normalize_endpoint_capability, normalize_endpoint_capabilities, default_endpoint_capabilities,
  compact_strings, split_csv,
}

-- A moment, as nanoseconds since the zero `time.Time`; the zero value is 0.
abbrev pub Time : Type 0
Time = ℕ

-- A Go map from string to string: `none` is the nil map.
abbrev pub StringMap : Type 0
StringMap = Option (List (Text × Text))

abbrev pub entries : StringMap → List (Text × Text)
entries m = or_else m []

abbrev pub status_enabled : ℤ
status_enabled = pos 1

abbrev pub status_disabled : ℤ
status_disabled = pos 2

abbrev pub default_group : Text
default_group = codes "default"

pub record Provider : Type 0 where
  pub id : ℕ
  pub platform_channel_id : ℕ
  pub name : Text
  pub provider : Text
  pub base_url : Text
  pub api_key : Text
  pub auth_header : Text
  pub auth_prefix : Text
  pub models : Text
  pub groups : Text
  pub model_mapping : StringMap
  pub headers : StringMap
  pub endpoint_capabilities : List Text
  pub channel_type : Text
  pub relay_format : Text
  pub status : ℤ
  pub weight : ℕ
  pub priority : ℤ
  pub created_at : Time
  pub updated_at : Time

-- A capability list that is empty after normalisation stands for the default one.
abbrev pub or_default_capabilities : List Text → List Text
or_default_capabilities [] = default_endpoint_capabilities
or_default_capabilities (c ∷ cs) = c ∷ cs

unfoldable pub apply_defaults : Provider → Provider
apply_defaults p = record p {
  provider = trim_space p.provider;
  name = trim_space p.name;
  base_url = trim_space p.base_url;
  channel_type = trim_space p.channel_type;
  relay_format = trim_space p.relay_format;
  models = trim (trim_space p.models) b',';
  groups =
      let groups = trim (trim_space p.groups) b',' in
      if groups == [] then default_group else groups;
  status = if p.status == pos 0 then status_enabled else p.status;
  model_mapping = some (entries p.model_mapping);
  headers = some (entries p.headers);
  endpoint_capabilities =
      or_default_capabilities (normalize_endpoint_capabilities p.endpoint_capabilities);
}

pub record PublicProvider : Type 0 where
  pub id : ℕ
  pub platform_channel_id : ℕ
  pub name : Text
  pub provider : Text
  pub base_url : Text
  pub auth_header : Text
  pub auth_prefix : Text
  pub models : Text
  pub groups : Text
  pub model_mapping : StringMap
  pub headers : StringMap
  pub endpoint_capabilities : List Text
  pub channel_type : Text
  pub relay_format : Text
  pub status : ℤ
  pub weight : ℕ
  pub priority : ℤ
  pub created_at : Time
  pub updated_at : Time

unfoldable pub group_list : Provider → List Text
group_list p = split_csv p.groups default_group

unfoldable pub model_list : Provider → List Text
model_list p = split_csv p.models []

unfoldable pub normalized_endpoint_capabilities : Provider → List Text
normalized_endpoint_capabilities p =
    or_default_capabilities (normalize_endpoint_capabilities p.endpoint_capabilities)

unfoldable pub public : Provider → PublicProvider
public p = record {
  id = p.id;
  platform_channel_id = p.platform_channel_id;
  name = p.name;
  provider = p.provider;
  base_url = p.base_url;
  auth_header = p.auth_header;
  auth_prefix = p.auth_prefix;
  models = p.models;
  groups = p.groups;
  model_mapping = p.model_mapping;
  headers = p.headers;
  endpoint_capabilities = normalized_endpoint_capabilities p;
  channel_type = p.channel_type;
  relay_format = p.relay_format;
  status = p.status;
  weight = p.weight;
  priority = p.priority;
  created_at = p.created_at;
  updated_at = p.updated_at;
}

unfoldable pub supports_capability : Provider → Text → Bool
supports_capability p capability =
    let wanted = normalize_endpoint_capability capability in
    if wanted == []
    then true
    else any (λ configured. configured == wanted) (normalized_endpoint_capabilities p)

-- What a mapping entry gives: a blank one counts as absent.
abbrev mapped_or : Text → Option Text → Text
mapped_or model none = model
mapped_or model (some mapped) = if trim_space mapped == [] then model else mapped

unfoldable pub upstream_model : Provider → Text → Text
upstream_model p model = mapped_or model (lookup model (entries p.model_mapping))

-- `json.Unmarshal` into `[]string`, `none` on an error, and `rand.Intn` are parameters.
module _ (unmarshal_strings : Text → Option (List Text)) (intn : ℕ → ℕ) where
  abbrev lines : Text → List Text
  lines value = compact_strings (split (trim value b'\n') b'\n')

  abbrev parsed_or_lines : Text → Option (List Text) → List Text
  parsed_or_lines value none = lines value
  parsed_or_lines value (some keys) = compact_strings keys

  unfoldable pub split_keys : Text → List Text
  split_keys raw =
      let value = trim_space raw in
      if value == []
      then []
      else if has_prefix value (codes "[")
      then parsed_or_lines value (unmarshal_strings value)
      else lines value

  -- `keys[i]`; an index past the end would panic.
  abbrev key_at : List Text → ℕ → Option Text
  key_at [] i = none
  key_at (k ∷ ks) zero = some k
  key_at (k ∷ ks) (suc i) = key_at ks i

  -- The text `""` if there is no key; `none` is a panic.
  unfoldable pub pick_api_key : Provider → Option Text
  unfolding split_keys
  pick_api_key p =
      let keys = split_keys p.api_key in
      if length keys == 0 then some [] else key_at keys (intn (length keys))

unfoldable pub auth_header_or_default : Provider → Text
auth_header_or_default p =
    if trim_space p.auth_header == [] then codes "Authorization" else trim_space p.auth_header

unfoldable pub auth_prefix_or_default : Provider → Text
unfolding auth_header_or_default
auth_prefix_or_default p =
    if p.auth_prefix == []
    then if equal_fold (auth_header_or_default p) (codes "Authorization")
      then codes "Bearer "
      else []
    else p.auth_prefix
