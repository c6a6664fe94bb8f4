-- ===== src/Upstream/Laws.antt =====
-- Which root the address of an endpoint has, and that it ends with the path of its kind.
use aether_code.Base.{
  true, false, Bool, ◌≢◌, sym, ap, ◌∙◌, ◌++◌, Option, none, some, Text, inl, inr, ◌⊎◌, ◌≡◌, refl,
  Bool-cases,
}
use aether_code.Text.{has_suffix, trim_suffix, strip_suffix, is_some, or_else}
use aether_code.Text.Affix.{strip_suffix_sound, strip_suffix-append}
use aether_code.Relay.Body.{Kind, chat_completions, completions}
use aether_code.Upstream.{chat_path, completions_path, base_of, normalize_endpoint}

abbrev pub path_of : Kind → Text
path_of chat_completions = chat_path
path_of completions = completions_path

abbrev pub Lacks : Text → Text → Type 0
Lacks base path = (root : Text) → base ≢ root ++ path

-- The address is a root with the path of the kind. The root is what is left of the configured address
-- without the path of chats at its end; where that is not there, without the path of completions; and
-- where neither is there, it is the whole address.
abbrev pub IsEndpoint : Text → Kind → Text → Type 0
IsEndpoint base kind out =
    (root : Text) × (out ≡ root ++ path_of kind)
    × ((base ≡ root ++ chat_path)
        ⊎ (Lacks base chat_path × (base ≡ root ++ completions_path))
        ⊎ (Lacks base chat_path × Lacks base completions_path × (base ≡ root)))

lacks : (base path : Text) → has_suffix base path ≡ false → Lacks base path
lacks base path h root e = clash (
    sym h
    ∙ ap (λ (s : Text). has_suffix s path) e
    ∙ ap (λ (o : Option Text). is_some o) (strip_suffix-append root path))
  where
    clash : ◌≡◌ {A = Bool} false true → ⊥
    clash k = cc

rooted : (base path : Text) → has_suffix base path ≡ true → base ≡ trim_suffix base path ++ path
rooted base path h = go (strip_suffix path base) (λ t e. strip_suffix_sound path base e) h
  where
    go :
        (o : Option Text)
        → ((t : Text) → o ≡ some t → base ≡ t ++ path)
        → is_some o ≡ true
        → base ≡ or_else o base ++ path
    go (some t) k i = k t refl
    go none k i = cc

-- The address of an endpoint is a root with the path of its kind. The configured address, without its outer
-- blanks and its last slashes, loses the path of chats for it, if it ends with that, or else the path of
-- completions, if it ends with that, and is the root itself if it ends with neither.
pub normalize_endpoint-IsEndpoint :
    (base_url : Text) (kind : Kind)
    → IsEndpoint (base_of base_url) kind (normalize_endpoint base_url kind)
unfolding normalize_endpoint
normalize_endpoint-IsEndpoint base_url chat_completions =
    let base = base_of base_url in
    elim (Bool-cases (has_suffix base chat_path)) [
      | inl t ↦
          let whole = rooted base chat_path t in rw t (trim_suffix base chat_path, whole, inl whole)
      | inr f ↦ elim (Bool-cases (has_suffix base completions_path)) [
        | inl t ↦
            rw (f, t)
              (
                trim_suffix base completions_path,
                refl,
                inr (inl (lacks base chat_path f, rooted base completions_path t)),
              )
        | inr g ↦
            rw (f, g)
              (base, refl, inr (inr (lacks base chat_path f, lacks base completions_path g, refl)))
      ]
    ]
normalize_endpoint-IsEndpoint base_url completions =
    let base = base_of base_url in
    elim (Bool-cases (has_suffix base chat_path)) [
      | inl t ↦ rw t (trim_suffix base chat_path, refl, inl (rooted base chat_path t))
      | inr f ↦ elim (Bool-cases (has_suffix base completions_path)) [
        | inl t ↦
            let whole = rooted base completions_path t in
            rw (f, t)
              (trim_suffix base completions_path, whole, inr (inl (lacks base chat_path f, whole)))
        | inr g ↦
            rw (f, g)
              (base, refl, inr (inr (lacks base chat_path f, lacks base completions_path g, refl)))
      ]
    ]
