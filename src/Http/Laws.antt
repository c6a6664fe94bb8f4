-- ===== src/Http/Laws.antt =====
-- The status of an answer that is an error.
use aether_code.Base.{ℕ, ◌≤◌, List, [], ◌∷◌, Text, codes, All, ◌≡◌, refl, arith}
use aether_code.Http.{Write, http_error, http_not_found, refuse_method, write_json, statuses}

-- Every status of the answer is one of an error.
abbrev pub IsError : List Write → Type 0
IsError ws = All (λ k. 400 ≤ k) (statuses ws)

pub statuses-http_error : (message : Text) (k : ℕ) → statuses (http_error message k) ≡ k ∷ []
unfolding statuses http_error
statuses-http_error message k = refl

pub statuses-write_json : (k : ℕ) (value : Text) → statuses (write_json k value) ≡ k ∷ []
unfolding statuses write_json
statuses-write_json k value = refl

pub http_error-IsError : (message : Text) (k : ℕ) → 400 ≤ k → IsError (http_error message k)
http_error-IsError message k h = rw (statuses-http_error message k) (h, tt)

pub http_not_found-IsError : IsError http_not_found
unfolding http_not_found
http_not_found-IsError = http_error-IsError (codes "404 page not found") 404 (omega arith)

pub refuse_method-IsError : (allowed : Text) → IsError (refuse_method allowed)
unfolding refuse_method statuses
refuse_method-IsError allowed = http_error-IsError (codes "method not allowed") 405 (omega arith)
