-- ===== src/Billing/Prices.antt =====
-- router/internal/store/platform.go: the choice of the price for a usage event.
pub mod Laws
use aether_code.Base.{
  ℕ, suc, ◌+◌, ◌≤◌, ◌<◌, Bool, true, false, ◌||◌, not, List, [], ◌∷◌, Option, none, some, Text,
  ◌==◌, text_eq, nat_eq, ltb, if◌then◌else◌, Result, ok, err, ◌>>=◌, In, ◌⊎◌, ◌↔◌, ◌≡◌, All,
}
use aether_code.Text.{trim_space}
use aether_code.Store.Provider.{Time}
use aether_code.Store.Database.{Database, Table}
use aether_code.Billing.{PriceConfig, usage_class_request, cache_state_unknown, text_or, time_or}

pub record PriceResolutionInput : Type 0 where
  pub account_id : ℕ
  pub public_model_id : Text
  pub provider_channel_id : Option ℕ
  pub usage_class : Text
  pub cache_state : Text
  pub at : Time

-- One test of `matches`: what it adds to the score, or a refusal.
abbrev pub account_score : Option ℕ → ℕ → Option ℕ
account_score none account = some 0
account_score (some id) account = if account == 0 || not (id == account) then none else some 8

abbrev pub channel_score : Option ℕ → Option ℕ → Option ℕ
channel_score none channel = some 0
channel_score (some id) none = none
channel_score (some id) (some channel) = if id == channel then some 4 else none

abbrev pub text_score : ℕ → Text → Text → Option ℕ
text_score score [] wanted = some 0
text_score score (c ∷ text) wanted = if (c ∷ text) == wanted then some score else none

abbrev pub cache_score : Text → Text → Option ℕ
cache_score state wanted =
    if state == cache_state_unknown then some 0 else text_score 1 state wanted

infixl 60 ◌+score◌
abbrev pub ◌+score◌ : Option ℕ → Option ℕ → Option ℕ
none +score o = none
some a +score none = none
some a +score some b = some (a + b)

unfoldable pub matches : PriceConfig → PriceResolutionInput → Option ℕ
matches p input =
    account_score p.account_id input.account_id
    +score channel_score p.provider_channel_id input.provider_channel_id
    +score text_score 2 p.public_model_id input.public_model_id
    +score text_score 1 p.usage_class input.usage_class
    +score cache_score p.cache_state input.cache_state

abbrev pub Chosen : Type 0
Chosen = Option (PriceConfig × ℕ)

abbrev pub better : Chosen → PriceConfig → Option ℕ → Chosen
better best p none = best
better none p (some score) = some (p, score)
better (some (q, best)) p (some score) = if ltb best score then some (p, score) else some (q, best)

-- The loop, with the price that is selected so far and its score.
unfoldable pub choose : PriceResolutionInput → Chosen → List PriceConfig → Chosen
choose input best [] = best
choose input best (p ∷ ps) = choose input (better best p (matches p input)) ps

abbrev pub selected : Chosen → Option PriceConfig
selected none = none
selected (some (p, score)) = some p

unfoldable pub normalized_input : Time → PriceResolutionInput → PriceResolutionInput
normalized_input now input = record input {
  at = time_or now input.at;
  public_model_id = trim_space input.public_model_id;
  usage_class = text_or usage_class_request input.usage_class;
  cache_state = text_or cache_state_unknown input.cache_state;
}

-- The first price is not newer than the second: it took effect earlier, or at the same time with an id
-- that is not larger.
abbrev pub IsNotNewer : PriceConfig → PriceConfig → Type 0
IsNotNewer p q =
    (p.effective_at < q.effective_at) ⊎ ((p.effective_at ≡ q.effective_at) × (p.id ≤ q.id))

abbrev pub NewestFirst : List PriceConfig → Type 0
NewestFirst [] = Unit
NewestFirst (p ∷ ps) = All (λ q. IsNotNewer q p) ps × NewestFirst ps

-- The table of prices, with the query for the prices in effect, newest first.
pub record PriceTable (d : Database) : Type 0 where
  pub prices : Table d PriceConfig
  pub in_effect : Time → d.Db → Result Text (List PriceConfig)
  pub in_effect-In :
      (at : Time) (db : d.Db) (ps : List PriceConfig)
      → in_effect at db ≡ ok ps
      → (p : PriceConfig) → In p ps ↔ (In p (prices.rows db) × (p.effective_at ≤ at))
  pub in_effect-NewestFirst :
      (at : Time) (db : d.Db) (ps : List PriceConfig) → in_effect at db ≡ ok ps → NewestFirst ps

module _ (d : Database) (t : PriceTable d) where
  unfoldable pub resolve_price :
      Time → PriceResolutionInput → d.Db → Result Text (Option PriceConfig)
  resolve_price now raw db =
      let input = normalized_input now raw in
      t.in_effect input.at db >>= λ ps. ok (selected (choose input none ps))
