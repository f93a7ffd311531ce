-- ===== src/Examples/RateLimitRuns.antt =====
-- The theorems on the rate limits at short runs.
use ampla.Shared.{◌≡◌, List, [], ◌∷◌, arith}
use ampla.RateLimit.{new_limiter}
use ampla.RateLimit.Spec.{Call, answers, granted}
use ampla.RateLimit.Refines.{new_limiter-granted}

abbrev calls : List Call
calls = (1, "a") ∷ (2, "a") ∷ (3, "b") ∷ (4, "a") ∷ (20, "a") ∷ []

new_limiter-granted_example : answers (new_limiter 2 10) calls ≡ granted 2 10 (λ _. []) calls
new_limiter-granted_example = new_limiter-granted 2 10 calls (omega arith)
