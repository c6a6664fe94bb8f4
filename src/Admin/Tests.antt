-- ===== src/Admin/Tests.antt =====
-- The theorems about the administration at concrete requests, on a database in memory.
use aether_code.Base.{
  false, [], Option, none, some, Text, codes, ◌==◌, text_eq, text_beq, if◌then◌else◌, pos, inr, ◌≡◌,
  refl,
}
use aether_code.Text.{trim_space, drop_left, drop_right, strip_prefix, to_lower, take, drop}
use aether_code.Store.Provider.{Provider}
use aether_code.Store.Cache.{new_cache, zero_provider}
use aether_code.Store.Memory.{memory}
use aether_code.Store.Memory.Routing.{State, store}
use aether_code.Relay.Auth.{AuthConfig, key_from_request, bearer_token}
use aether_code.Admin.{Codec, Request}
use aether_code.Admin.Effects.{Effect}
use aether_code.Admin.Routes.{administer}
use aether_code.Admin.{providers, provider_by_id}
use aether_code.Admin.Laws.{IsObeyed, IsRefused, administer-IsRefused, administer-Effect}

abbrev sent : Provider
sent = record zero_provider { provider = codes "openai"; models = codes "a"; status = pos 1 }

abbrev codec : Codec
codec = record {
  decode_provider = λ t. some sent;
  decode_channel = λ t. none;
  encode = λ v. codes "{}";
}

abbrev cfg : AuthConfig
cfg = record {
  api_key = codes "public";
  admin_key = codes "admin";
  account_key_auth = false;
  api_key_hash_secret = [];
}

abbrev getenv : Text → Text
getenv name = []

abbrev read_file : Text → Option Text
read_file path = none

abbrev start : State
start = record { providers = []; channels = []; versions = [] }

-- A request with the public key.
abbrev intrusion : Request
intrusion = record {
  method = codes "DELETE";
  path = codes "/internal/providers/3";
  header = λ name. if name == codes "Authorization" then codes "Bearer public" else [];
  body = [];
}

presents : key_from_request intrusion.header ≡ codes "public"
unfolding key_from_request bearer_token trim_space drop_left drop_right text_beq strip_prefix
    to_lower take drop
presents = refl

administer-IsRefused_example :
    IsRefused codec getenv read_file
      (memory State)
      store
      cfg
      (codes "r")
      7
      (if cfg.admin_key == [] then 403 else 401)
      new_cache
      start
      (administer codec getenv read_file
        (memory State)
        store
        cfg
        (codes "r")
        7
        provider_by_id
        intrusion
        new_cache
        start)
administer-IsRefused_example =
    administer-IsRefused codec getenv read_file (memory State) store cfg (codes "r") 7
      provider_by_id intrusion new_cache start (inr (λ e. cc (e, presents)))

abbrev creation : Request
creation = record {
  method = codes "POST";
  path = codes "/internal/providers";
  header = λ name. if name == codes "Authorization" then codes "Bearer admin" else [];
  body = codes "{}";
}

administer-Effect_example :
    Effect getenv read_file (memory State) store 7 codec providers creation new_cache start (
      administer codec getenv read_file
        (memory State)
        store
        cfg
        (codes "r")
        7
        providers
        creation
        new_cache
        start)
    × IsObeyed codec getenv read_file
        (memory State)
        store
        cfg
        (codes "r")
        7
        providers
        creation
        new_cache
        start
        (administer codec getenv read_file
          (memory State)
          store
          cfg
          (codes "r")
          7
          providers
          creation
          new_cache
          start)
administer-Effect_example =
    administer-Effect codec getenv read_file (memory State) store cfg (codes "r") 7 providers
      creation new_cache start (λ e. cc)
