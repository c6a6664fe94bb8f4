-- ===== src/Upstream.antt =====
-- router/internal/upstream/client.go: the address of an upstream endpoint.
pub mod Laws
pub mod Client
mod Tests
use aether_code.Base.{Bool, true, false, List, [], ◌∷◌, ◌++◌, Text, codes, if◌then◌else◌}
use aether_code.Text.{trim_space, trim_right, has_suffix, trim_suffix}
use aether_code.Relay.Body.{Kind, chat_completions, completions}

abbrev pub chat_path : Text
chat_path = codes "/chat/completions"

abbrev pub completions_path : Text
completions_path = codes "/completions"

abbrev pub base_of : Text → Text
base_of base_url = trim_right (trim_space base_url) b'/'

unfoldable pub normalize_endpoint : Text → Kind → Text
normalize_endpoint base_url chat_completions =
    let base = base_of base_url in
    if has_suffix base chat_path
    then base
    else if has_suffix base completions_path
    then trim_suffix base completions_path ++ chat_path
    else base ++ chat_path
normalize_endpoint base_url completions =
    let base = base_of base_url in
    if has_suffix base chat_path
    then trim_suffix base chat_path ++ completions_path
    else if has_suffix base completions_path
    then base
    else base ++ completions_path
