-- ===== src/Server/Tests.antt =====
-- The theorem about the readiness probe at a concrete database.
use aether_code.Base.{
  ℕ, true, List, [], ◌∷◌, none, some, Text, codes, inl, inr, ◌≡◌, ◌≢◌, sym, ap, ◌∙◌, text_eq,
}
use aether_code.Store.Cache.{new_cache}
use aether_code.Store.Versions.{
  ConfigVersion, provider_config_version_name, api_key_config_version_name,
}
use aether_code.Store.Versions.Bump.{version_in, version_in-head, version_in-tail}
use aether_code.Store.Versions.Found.{HasOneVersion}
use aether_code.Store.Memory.{memory}
use aether_code.Store.Memory.Routing.{State, versions, versions-IsTable}
use aether_code.Server.{Readiness, serve_ready}
use aether_code.Server.Laws.{Answers, serve_ready-Answers}

abbrev row : Text → ℕ → ConfigVersion
row name version = record { name = name; version = version; updated_at = 0 }

abbrev rows : List ConfigVersion
rows = row provider_config_version_name 4 ∷ row api_key_config_version_name 2 ∷ []

abbrev start : State
start = record { providers = []; channels = []; versions = rows }

names_differ : provider_config_version_name ≢ api_key_config_version_name
names_differ e = cc

two_names : (a b : ConfigVersion) (name : Text) → a.name ≢ b.name → HasOneVersion name (a ∷ b ∷ [])
two_names a b name ne q r (inl e) (inl e') _ _ = e ∙ sym e'
two_names a b name ne q r (inl e) (inr (inl e')) h h' = absurd (
    ne (
      ap (λ (x : ConfigVersion). x.name) (sym e)
      ∙ h
      ∙ sym h'
      ∙ ap (λ (x : ConfigVersion). x.name) e'))
two_names a b name ne q r (inr (inl e)) (inl e') h h' = absurd (
    ne (
      ap (λ (x : ConfigVersion). x.name) (sym e')
      ∙ h'
      ∙ sym h
      ∙ ap (λ (x : ConfigVersion). x.name) e))
two_names a b name ne q r (inr (inl e)) (inr (inl e')) _ _ = e ∙ sym e'
two_names a b name ne q r (inr (inr i)) j _ _ = elim i [ ]
two_names a b name ne q r (inl e) (inr (inr j)) _ _ = elim j [ ]
two_names a b name ne q r (inr (inl e)) (inr (inr j)) _ _ = elim j [ ]

abbrev encode : Readiness → Text
encode r = codes "{}"

holds_keys : version_in api_key_config_version_name rows ≡ some 2
holds_keys =
    version_in-tail api_key_config_version_name (row provider_config_version_name 4) _ names_differ
    ∙ version_in-head api_key_config_version_name 2 0 []

serve_ready-Answers_example :
    Answers encode
      (memory State)
      versions
      versions-IsTable
      9
      start
      true
      new_cache
      none
      4
      2
      (serve_ready encode (memory State) versions 9 true new_cache none start)
serve_ready-Answers_example =
    serve_ready-Answers encode (memory State) versions versions-IsTable 9 start true new_cache none
      4 2 (two_names _ _ provider_config_version_name names_differ)
      (version_in-head provider_config_version_name 4 0 (row api_key_config_version_name 2 ∷ []))
      (two_names _ _ api_key_config_version_name names_differ) holds_keys
