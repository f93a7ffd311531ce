-- ===== src/RateLimit/Bucket.antt =====
-- How much a token bucket bucket_grants (hub/app/core/ratelimit.py, `TokenBucket`).
use ampla.Shared.{
  ℕ, suc, ◌+◌, ◌-◌, ◌*◌, ◌≤◌, ◌≡◌, inl, inr, Option, List, [], ◌∷◌, arith, Bool-cases, leb, leb→le,
  if◌then◌else◌,
}
use ampla.RateLimit.{TokenBucket, new_bucket, burst_or, refilled, bucket_allow, token}

-- The times of the calls, none before the last and none after the end.
abbrev pub Between : ℕ → ℕ → List ℕ → Type 0
Between last end [] = last ≤ end
Between last end (now ∷ times) = (last ≤ now) × Between now end times

-- How many calls at those times are granted.
abbrev pub bucket_grants : TokenBucket → List ℕ → ℕ
bucket_grants b [] = 0
bucket_grants b (now ∷ times) =
    let rest = bucket_grants (bucket_allow b now).1 times in
    if (bucket_allow b now).0 then suc rest else rest

Between-le : (last end : ℕ) (times : List ℕ) → Between last end times → last ≤ end
Between-le last end [] h = h
Between-le last end (now ∷ times) h = omega (arith, h.0, Between-le now end times h.1)

spans : (a b c r : ℕ) → a ≤ b → b ≤ c → (b - a) * r + (c - b) * r ≡ (c - a) * r
spans a b c r h k = grind (arith, h, k)

-- The bucket after a grant.
abbrev spend : TokenBucket → TokenBucket
spend b = record b { tokens = b.tokens - token }

grants-bound :
    (b : TokenBucket) (end : ℕ) (times : List ℕ)
    → Between b.last end times
    → bucket_grants b times * token ≤ b.tokens + (end - b.last) * b.rate
unfolding bucket_allow
grants-bound b end [] h = omega arith
grants-bound b end (now ∷ times) h = elim (Bool-cases (leb token (refilled b now).tokens)) [
  | inl f ↦ rw f (
      omega (
        arith,
        grants-bound (spend (refilled b now)) end times h.1,
        spans b.last now end b.rate h.0 (Between-le now end times h.1),
        leb→le token (refilled b now).tokens f,
      ))
  | inr f ↦ rw f (
      omega (
        arith,
        grants-bound (refilled b now) end times h.1,
        spans b.last now end b.rate h.0 (Between-le now end times h.1),
      ))
]

-- On a clock that does not go back, a new bucket grants no more calls up to a time than its burst and
-- the tokens that its rate brought since it began.
pub new_bucket-bound :
    (rate_per_minute : ℕ) (burst : Option ℕ) (begin end : ℕ) (times : List ℕ)
    → Between begin end times
    → bucket_grants (new_bucket rate_per_minute burst begin) times * token
      ≤ burst_or rate_per_minute burst * token + (end - begin) * rate_per_minute
new_bucket-bound rate_per_minute burst begin end times h =
    grants-bound (new_bucket rate_per_minute burst begin) end times h
