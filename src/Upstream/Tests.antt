-- ===== src/Upstream/Tests.antt =====
-- The theorem about endpoint addresses at a concrete address, and runs.
use aether_code.Base.{codes, ◌≡◌, refl, text_eq, nat_eq, text_beq}
use aether_code.Text.{trim_space, trim_right, drop_left, drop_right, strip_suffix}
use aether_code.Relay.Body.{chat_completions, completions}
use aether_code.Upstream.{base_of, normalize_endpoint}
use aether_code.Upstream.Laws.{IsEndpoint, normalize_endpoint-IsEndpoint}

endpoints :
    (normalize_endpoint (codes "http://u/v1/") chat_completions
      ≡ codes "http://u/v1/chat/completions")
    × (normalize_endpoint (codes "http://u/v1/completions") chat_completions
        ≡ codes "http://u/v1/chat/completions")
    × (normalize_endpoint (codes "http://u/v1/chat/completions") completions
        ≡ codes "http://u/v1/completions")
unfolding normalize_endpoint trim_space trim_right drop_left drop_right strip_suffix text_beq
endpoints = (refl, refl, refl)

normalize_endpoint-IsEndpoint_example :
    IsEndpoint
      (base_of (codes "http://u/v1/"))
      completions
      (normalize_endpoint (codes "http://u/v1/") completions)
normalize_endpoint-IsEndpoint_example =
    normalize_endpoint-IsEndpoint (codes "http://u/v1/") completions
