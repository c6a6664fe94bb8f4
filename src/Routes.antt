-- ===== src/Routes.antt =====
-- router/internal/app/routes.go: the table of relay routes. Match compares a path with a pattern, and
-- Dispatch chooses the route of a request.
pub mod Match
pub mod Dispatch
mod Tests
use aether_code.Base.{List, [], ◌∷◌, Text, codes}
use aether_code.Store.Capability.{
  endpoint_capability_openai_chat_completions, endpoint_capability_openai_completions,
}

pub record RelayRouteDescriptor : Type 0 where
  pub method : Text
  pub path_pattern : Text
  pub route_family : Text
  pub capability : Text
  pub response_format : Text
  pub implementation : Text
  pub implementation_id : Text

abbrev pub status_implemented : Text
status_implemented = codes "implemented"

abbrev pub status_metadata : Text
status_metadata = codes "metadata"

abbrev pub status_unsupported : Text
status_unsupported = codes "unsupported"

abbrev get : Text
get = codes "GET"

abbrev pub post : Text
post = codes "POST"

abbrev model_metadata : Text
model_metadata = codes "metadata.models"

abbrev unsupported_route : Text → Text → Text → Text → Text → RelayRouteDescriptor
unsupported_route method pattern family capability format = record {
  method = method;
  path_pattern = pattern;
  route_family = family;
  capability = capability;
  response_format = format;
  implementation = status_unsupported;
  implementation_id = [];
}

abbrev metadata_route : Text → Text → Text → RelayRouteDescriptor
metadata_route pattern family format = record {
  method = get;
  path_pattern = pattern;
  route_family = family;
  capability = model_metadata;
  response_format = format;
  implementation = status_metadata;
  implementation_id = [];
}

abbrev implemented_route : Text → Text → Text → RelayRouteDescriptor
implemented_route pattern capability id = record {
  method = post;
  path_pattern = pattern;
  route_family = codes "openai";
  capability = capability;
  response_format = codes "openai";
  implementation = status_implemented;
  implementation_id = id;
}

abbrev openai : Text
openai = codes "openai"

abbrev gemini : Text
gemini = codes "gemini"

abbrev json : Text
json = codes "json"

unfoldable pub relay_route_matrix : List RelayRouteDescriptor
relay_route_matrix =
    implemented_route (codes "/v1/chat/completions") endpoint_capability_openai_chat_completions
      (codes "chat_completions")
    ∷ implemented_route (codes "/v1/completions") endpoint_capability_openai_completions
        (codes "completions")
    ∷ metadata_route (codes "/v1/models") openai openai
    ∷ metadata_route (codes "/v1/models/{model}") openai openai
    ∷ metadata_route (codes "/v1beta/models") gemini gemini
    ∷ metadata_route (codes "/v1beta/openai/models") openai openai
    ∷ unsupported_route post (codes "/v1/responses") openai (codes "openai.responses") openai
    ∷ unsupported_route post (codes "/v1/responses/compact") openai (codes "openai.responses")
        openai
    ∷ unsupported_route post (codes "/v1/embeddings") openai (codes "openai.embeddings") openai
    ∷ unsupported_route post (codes "/v1/images/generations") openai (codes "openai.images") openai
    ∷ unsupported_route post (codes "/v1/images/edits") openai (codes "openai.images") openai
    ∷ unsupported_route post (codes "/v1/audio/transcriptions") openai (codes "openai.audio") openai
    ∷ unsupported_route post (codes "/v1/audio/translations") openai (codes "openai.audio") openai
    ∷ unsupported_route post (codes "/v1/audio/speech") openai (codes "openai.audio") openai
    ∷ unsupported_route post (codes "/v1/rerank") openai (codes "openai.rerank") openai
    ∷ unsupported_route post (codes "/v1/messages") (codes "claude") (codes "claude.messages") json
    ∷ unsupported_route post (codes "/v1beta/models/{model}:generateContent") gemini
        (codes "gemini.generate") gemini
    ∷ unsupported_route post (codes "/v1beta/models/{model}:streamGenerateContent") gemini
        (codes "gemini.generate") gemini
    ∷ unsupported_route get (codes "/v1/realtime") (codes "realtime") (codes "realtime") json
    ∷ unsupported_route post (codes "/v1/tasks/video") (codes "task") (codes "task.video") json
    ∷ unsupported_route get (codes "/v1/tasks/{task_id}") (codes "task") (codes "task.video") json
    ∷ unsupported_route post (codes "/v1/videos/generations") (codes "task") (codes "task.video")
        json
    ∷ unsupported_route get (codes "/v1/videos/{task_id}") (codes "task") (codes "task.video") json
    ∷ []
