-- ===== src/Relay/Listings.antt =====
-- router/internal/app/models.go: the listings of the models, in the shapes of OpenAI and Gemini.
use aether_code.Base.{
  ℕ, List, [], ◌∷◌, ◌++◌, map, any, Option, none, some, Text, codes, ◌==◌, text_eq, lookup,
  if◌then◌else◌,
}
use aether_code.Text.{or_else, equal_fold}
use aether_code.Store.Capability.{endpoint_capability_gemini_generate}
use aether_code.Store.Cache.{Cache}
use aether_code.Store.Cache.Models.{ModelMetadata, models, model}
use aether_code.Http.{Json, Write, write_json, write_openai_error}

pub record OpenaiModelObject : Type 0 where
  pub id : Text
  pub object : Text
  pub created : ℕ
  pub owned_by : Text

pub record GeminiModelObject : Type 0 where
  pub name : Text
  pub version : Text
  pub display_name : Text
  pub supported_generation_methods : List Text

-- The answers: a list of models with its `object`, one model, and the list of Gemini.
pub data Listing : Type 0 where
  openai_list : Text → List OpenaiModelObject → Listing
  openai_model : OpenaiModelObject → Listing
  gemini_list : List GeminiModelObject → Listing

abbrev pub openai_object : ModelMetadata → OpenaiModelObject
openai_object m = record {
  id = m.id;
  object = codes "model";
  created = 0;
  owned_by = codes "aethercode";
}

unfoldable pub gemini_generation_methods : ModelMetadata → List Text
gemini_generation_methods m =
    if any (λ k. equal_fold k endpoint_capability_gemini_generate) m.capabilities
    then codes "generateContent" ∷ codes "streamGenerateContent" ∷ []
    else []

abbrev pub gemini_object : ModelMetadata → GeminiModelObject
gemini_object m = record {
  name = codes "models/" ++ m.id;
  version = [];
  display_name = m.id;
  supported_generation_methods = gemini_generation_methods m;
}

-- `encode` is `encoding/json` at the listings.
module _ (json : Json) (encode : Listing → Text) (c : Cache) where
  unfoldable pub write_openai_models : List Write
  write_openai_models =
      write_json 200 (encode (openai_list (codes "list") (map openai_object (models c))))

  abbrev pub write_found : Option ModelMetadata → List Write
  write_found none =
      write_openai_error json 404 (codes "invalid_request_error") (codes "model_not_found")
        (codes "model not found")
  write_found (some m) = write_json 200 (encode (openai_model (openai_object m)))

  unfoldable pub write_openai_model : Text → List Write
  write_openai_model id = write_found (model c id)

  unfoldable pub write_gemini_models : List Write
  write_gemini_models = write_json 200 (encode (gemini_list (map gemini_object (models c))))

  unfoldable pub handle_model_metadata_route : Text → List (Text × Text) → List Write
  handle_model_metadata_route response_format params =
      let id = or_else (lookup (codes "model") params) [] in
      if response_format == codes "openai"
      then if id == [] then write_openai_models else write_openai_model id
      else if response_format == codes "gemini"
      then write_gemini_models
      else write_openai_error json 500 (codes "api_error") (codes "unsupported_model_format")
          (codes "unsupported model response format")
