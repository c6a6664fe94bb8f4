-- ===== src/Upstream/Client.antt =====
-- router/internal/upstream/client.go: the request to a provider. The registry of gollm and `net/http` are an
-- interface; the lock around the registry makes each use of it one step.
use aether_code.Base.{
  ℕ, Bool, true, false, not, ◌&&◌, List, [], ◌∷◌, ◌++◌, Option, none, some, Text, codes, ◌==◌,
  text_eq, keep, if◌then◌else◌, Result, ok, err, ◌>>=◌,
}
use aether_code.Text.{trim_space, format_uint}
use aether_code.Store.Provider.{
  Provider, entries, upstream_model, pick_api_key, auth_header_or_default, auth_prefix_or_default,
}
use aether_code.Relay.Body.{Kind, chat_completions, completions}
use aether_code.Upstream.{normalize_endpoint}

unfoldable pub kind_text : Kind → Text
kind_text chat_completions = codes "chat_completions"
kind_text completions = codes "completions"

-- `providers.ProviderConfig`
pub record GenericConfig : Type 0 where
  pub name : Text
  pub endpoint : Text
  pub auth_header : Text
  pub auth_prefix : Text
  pub required_headers : List (Text × Text)

-- gollm: a provider by its name, key, model and extra headers, one of a registered configuration, and what
-- the client asks of it.
pub record Gollm : Type 1 where
  pub Client : Type 0
  pub get_default : Text → Text → Text → List (Text × Text) → Result Text Client
  pub get_generic : GenericConfig → Text → Text → List (Text × Text) → Result Text Client
  pub endpoint : Client → Text
  pub headers : Client → List (Text × Text)

-- A request that is sent: always a POST.
pub record UpstreamRequest : Type 0 where
  pub url : Text
  pub headers : List (Text × Text)
  pub body : Text

abbrev is_chat : Kind → Bool
is_chat chat_completions = true
is_chat completions = false

module _ (g : Gollm) (unmarshal_strings : Text → Option (List Text)) (intn : ℕ → ℕ) where
  unfoldable pub generic_config : Provider → Kind → Text → GenericConfig
  unfolding kind_text
  generic_config p kind base_url = record {
    name = codes "aether-router-" ++ (format_uint p.id ++ (codes "-" ++ kind_text kind));
    endpoint = normalize_endpoint base_url kind;
    auth_header = auth_header_or_default p;
    auth_prefix = auth_prefix_or_default p;
    required_headers = (codes "Content-Type", codes "application/json") ∷ [];
  }

  unfoldable pub generic_provider : Provider → Kind → Text → Text → Text → Result Text g.Client
  generic_provider p kind model api_key base_url =
      g.get_generic (generic_config p kind base_url) api_key model (entries p.headers)

  -- The default client, where nothing is configured and it exists.
  abbrev by_default :
      Provider
      → Kind
      → Text
      → Text
      → Result Text g.Client
      → Result Text g.Client
      → Result Text g.Client
  by_default p kind model api_key (err e) otherwise = otherwise
  by_default p kind model api_key (ok client) otherwise =
      if is_chat kind then ok client else generic_provider p kind model api_key (g.endpoint client)

  abbrev build_with_key : Provider → Kind → Text → Text → Result Text g.Client
  build_with_key p kind model api_key =
      let found = g.get_default p.provider api_key model (entries p.headers) in
      let addressed =
        if p.base_url == []
        then (found >>= λ client. generic_provider p kind model api_key (g.endpoint client))
        else generic_provider p kind model api_key p.base_url in
      if p.base_url == [] && p.auth_header == [] && p.auth_prefix == []
      then by_default p kind model api_key found addressed
      else addressed

  abbrev with_key : Provider → Kind → Text → Option Text → Option (Result Text g.Client)
  with_key p kind model none = none
  with_key p kind model (some api_key) = some (build_with_key p kind model api_key)

  -- `none` is a panic of the draw of a key.
  unfoldable pub build_provider : Provider → Kind → Text → Option (Result Text g.Client)
  unfolding generic_provider
  build_provider p kind request_model =
      with_key p kind (upstream_model p request_model) (pick_api_key unmarshal_strings intn p)

  module _ {A : Type 0} (is_url : Text → Bool) (send : UpstreamRequest → Result Text A) where
    abbrev request_of : g.Client → Text → UpstreamRequest
    request_of client body = record {
      url = g.endpoint client;
      headers = keep (λ h. not (trim_space h.0 == [])) (g.headers client);
      body = body;
    }

    abbrev sent : Text → Option (Result Text g.Client) → Option (Result Text A)
    sent body none = none
    sent body (some (err e)) = some (err e)
    sent body (some (ok client)) =
        if is_url (g.endpoint client)
        then some (send (request_of client body))
        else some (err (codes "invalid request"))

    -- `Client.Do`; the error for a bad address is that of `http.NewRequest`.
    unfoldable pub do_request : Provider → Kind → Text → Text → Option (Result Text A)
    unfolding build_provider
    do_request p kind request_model body = sent body (build_provider p kind request_model)
