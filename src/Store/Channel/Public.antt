-- ===== src/Store/Channel/Public.antt =====
-- router/internal/store/platform.go: what the administration shows of a channel.
use aether_code.Base.{ℕ, ℤ, List, Text}
use aether_code.Store.Provider.{Time, StringMap}
use aether_code.Store.Channel.{ProviderChannel}

pub record PublicProviderChannel : Type 0 where
  pub id : ℕ
  pub name : Text
  pub legacy_provider_id : ℕ
  pub provider : Text
  pub model_id : Text
  pub endpoint_capabilities : List Text
  pub status : ℤ
  pub priority : ℤ
  pub weight : ℕ
  pub upstream_base_url : Text
  pub upstream_model : Text
  pub upstream_api_key_secret_ref : Text
  pub auth_header : Text
  pub auth_prefix : Text
  pub headers : StringMap
  pub channel_type : Text
  pub relay_format : Text
  pub billing_class : Text
  pub created_at : Time
  pub updated_at : Time

unfoldable pub public : ProviderChannel → PublicProviderChannel
public c = record {
  id = c.id;
  name = c.name;
  legacy_provider_id = c.legacy_provider_id;
  provider = c.provider;
  model_id = c.public_model_id;
  endpoint_capabilities = c.endpoint_capabilities;
  status = c.status;
  priority = c.priority;
  weight = c.weight;
  upstream_base_url = c.upstream_base_url;
  upstream_model = c.upstream_model;
  upstream_api_key_secret_ref = c.upstream_api_key_secret_ref;
  auth_header = c.auth_header;
  auth_prefix = c.auth_prefix;
  headers = c.headers;
  channel_type = c.channel_type;
  relay_format = c.relay_format;
  billing_class = c.billing_class;
  created_at = c.created_at;
  updated_at = c.updated_at;
}
