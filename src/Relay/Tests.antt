-- ===== src/Relay/Tests.antt =====
-- The theorems about the relay at a concrete request, and a run of it.
mod Codec
mod Requests
use aether_code.Base.{
  Text, Bool, true, false, Option, none, some, inl, inr, ◌⊎◌, ◌≢◌, sym, ap, ◌∙◌, Bool-cases,
  text_beq_iff, ok-injective, text_eq, Result, err, ℕ, ◌<◌, List, [], ◌∷◌, map, codes, text_beq,
  ◌==◌, nat_eq, ℤ, pos, two_63, if◌then◌else◌, ok, ◌≡◌, refl, arith, lookup, insert, keep, length,
}
use aether_code.Text.{take, drop, trim_space, trim, drop_left, drop_right, split_by, to_lower}
use aether_code.Store.Capability.{
  normalize_endpoint_capability, normalize_endpoint_capabilities, normalize_unseen, split_csv,
  compact_strings, default_endpoint_capabilities,
}
use aether_code.Store.Provider.{
  upstream_model, Provider, apply_defaults, model_list, supports_capability,
  normalized_endpoint_capabilities,
}
use aether_code.Store.Cache.{
  new_cache, Cache, replace, candidates, zero_provider, select_for_capability, index_rows,
  add_models, sort_entries, before, sort_stable, ids_for, top_of, row_of, place,
}
use aether_code.Store.Cache.Pick.{pick_weighted, add_weights, walk}
use aether_code.Store.Cache.Pick.Shares.{sum_weights, IsDraw}
use aether_code.Store.Cache.Select.Fresh.{IsServing, replace-IsServing}
use aether_code.Http.{Json, statuses}
use aether_code.Relay.Body.{
  model_key, group_key, new_replayable_body, encode_for, openai_compatible_envelope,
  model_from_request, chat_completions, Envelope, openai_compatible_format,
}
use aether_code.Relay.Response.{
  Response, more, eof, Writer, new_tracker, copy_upstream_response, committed,
}
use aether_code.Relay.Response.Laws.{copy-status}
use aether_code.Relay.Response.Body.{IsWriter, Copies, copy-Copies, bytes_of}
use aether_code.Relay.Attempts.{
  World, Config, Event, unknown, relay_openai_compatible, attempts_allowed,
}
use aether_code.Relay.Attempts.Runs.{IsRun, relay-IsRun}
use aether_code.Keys.{AuthIdentity}
use aether_code.Relay.Handler.{Request, openai_route}
use aether_code.Relay.Handler.Laws.{IsRefused, IsRecorded, openai_route-answers}
use aether_code.Relay.Listings.{Listing}
use aether_code.Routes.{RelayRouteDescriptor}
use aether_code.Relay.Serve.{relay_route_handler}
use aether_code.Relay.Serve.Laws.{Serves, relay_route_handler-Serves}
use aether_code.Relay.Body.Laws.{IsCodec, IsAccepted, encode_for-fields, envelope-IsAccepted}
use aether_code.Relay.Auth.{
  AuthConfig, authenticate_public_request, key_from_request, bearer_token, static_identity,
  by_account,
}
use aether_code.Relay.Auth.Laws.{IsAuthenticated, authenticate-IsAuthenticated}

-- What evaluating the cache unfolds.
relay_runs : Unit {0}
unfolding replace candidates select_for_capability index_rows add_models sort_entries before
    sort_stable ids_for top_of pick_weighted add_weights walk lookup insert keep text_beq trim_space
    trim drop_left drop_right split_by to_lower normalize_endpoint_capability
    normalize_endpoint_capabilities normalize_unseen split_csv compact_strings
    default_endpoint_capabilities apply_defaults model_list supports_capability
    normalized_endpoint_capabilities sum_weights place
relay_runs = tt

abbrev row : ℕ → ℤ → Provider
row id priority = record zero_provider {
  id = id;
  provider = codes "openai";
  models = codes "m";
  status = pos 1;
  priority = priority;
  weight = 1;
}

abbrev cache : Cache
cache = replace (row 1 (pos 2) ∷ row 2 (pos 1) ∷ []) 3 0

abbrev json : Json
json = record {
  decode_object = λ t. none;
  decode_string = λ t. some t;
  encode_string = λ t. t;
  encode_object = λ fields. ok (codes "{}");
  encode_error = λ message type code. message;
}

abbrev writer : Writer
writer i s = (length s, none)

writer-IsWriter : IsWriter writer
writer-IsWriter i s h = refl

abbrev response : ℕ → Response
response status = record {
  status = status;
  header = (codes "X-Cache", codes "HIT" ∷ []) ∷ [];
  body = (codes "he", more) ∷ (codes "y", eof) ∷ [];
}

-- The first provider is out of service, the second one answers.
abbrev reply : ℕ → Response
reply id = if id == 1 then response 503 else response 200

abbrev world : World
world = record {
  json = json;
  cache = λ n. cache;
  version = λ n. 3;
  intn = λ n k. 0;
  do_request = λ n p kind model body. ok (reply p.id);
  clock = λ n. 0;
  quote = λ t. t;
  writer = writer;
  can_flush = true;
}

abbrev config : Config
config = record { max_retries = pos 2; instance_id = codes "r"; max_body_bytes = pos 100 }

abbrev envelope : Envelope
envelope = record {
  format = openai_compatible_format;
  kind = chat_completions;
  body = record { fields = []; model = codes "m" };
}

draws : (n : ℕ) → IsDraw (λ k. 0)
draws n k h = h

light : sum_weights (map (row_of cache.by_id) (ids_for cache (trim_space (codes "m")))) < two_63
unfolding relay_runs
light = omega arith

serves : (n : ℕ) → IsServing cache (trim_space (codes "m"))
serves n = replace-IsServing (row 1 (pos 2) ∷ row 2 (pos 1) ∷ []) 3 0 (trim_space (codes "m")) light

relay-IsRun_example :
    (es : List Event) × (relay_openai_compatible world config 0 envelope ≡ some es)
    × IsRun world config 0 envelope (attempts_allowed config.max_retries) 0 [] none es
relay-IsRun_example = relay-IsRun world config 0 envelope draws serves refl

copy-Copies_example :
    Copies
      (bytes_of (response 200).body)
      (copy_upstream_response writer true (response 200) new_tracker)
copy-Copies_example = copy-Copies writer writer-IsWriter true (response 200) new_tracker

copy-status_example :
    let (ws, t, e) = copy_upstream_response writer false (response 200) new_tracker in
    (statuses ws ≡ 200 ∷ []) × (t.status_code ≡ 200) × (committed t ≡ true)
copy-status_example = copy-status writer false (response 200)

-- Every model that this cache serves.
serves_all : (n : ℕ) (model : Text) → IsServing new_cache model
unfolding new_cache lookup ids_for sum_weights
serves_all n model = (λ id p e. cc, tt, omega arith)

abbrev cold_world : World
cold_world = record world { cache = λ n. new_cache }

abbrev request : Request
request = record { method = codes "POST"; body = some (codes "{}"); auth = ok none }

openai_route-answers_example :
    (es : List Event) × (openai_route cold_world config 0 chat_completions request ≡ some es)
    × (((request.method ≢ codes "POST") × IsRefused 405 es)
        ⊎ ((request.method ≡ codes "POST") × (e : Text) × (request.auth ≡ err e) × IsRefused 401 es)
        ⊎ ((request.method ≡ codes "POST")
            × (i : Option AuthIdentity) × (request.auth ≡ ok i)
            × IsRecorded es))
openai_route-answers_example =
    openai_route-answers cold_world config 0 chat_completions draws serves_all request

abbrev encode_listing : Listing → Text
encode_listing l = codes "{}"

abbrev encode_unsupported : RelayRouteDescriptor → Text
encode_unsupported descriptor = descriptor.path_pattern

abbrev unescape : Text → Option Text
unescape t = some t

relay_route_handler-Serves_example :
    Serves cold_world config encode_listing encode_unsupported new_cache 0 draws serves_all request
      (relay_route_handler cold_world config encode_listing encode_unsupported new_cache 0 unescape
        (codes "/v1/chat/completions")
        request)
relay_route_handler-Serves_example =
    relay_route_handler-Serves cold_world config encode_listing encode_unsupported new_cache 0 draws
      serves_all unescape (codes "/v1/chat/completions") request
