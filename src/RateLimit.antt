-- ===== src/RateLimit.antt =====
-- The rate limits of the hub (hub/app/core/ratelimit.py). A point in time and a length of time are
-- numbers of a unit of the clock.
pub mod Spec
pub mod Window
pub mod Refines
pub mod Bound
pub mod Bucket
use ampla.Shared.{
  ℕ, ◌+◌, ◌-◌, ◌*◌, ◌/◌, min, max, String, Bool, true, false, ◌==◌, eq_string, Option, none, some,
  List, [], ◌∷◌, ◌++◌, length, ltb, leb, if◌then◌else◌,
}

-- ---- SlidingWindowLimiter ----

pub record SlidingWindowLimiter : Type 0 where
  pub max_events : ℕ
  pub window : ℕ
  -- a `defaultdict` of deques, oldest event first
  pub events : String → List ℕ

abbrev pub new_limiter : ℕ → ℕ → SlidingWindowLimiter
new_limiter max_events window = record {
  max_events = max_events;
  window = window;
  events = λ _. [];
}

-- The loop that drops the events that have left the window.
abbrev pub popped : ℕ → ℕ → List ℕ → List ℕ
popped window now [] = []
popped window now (e ∷ es) = if ltb window (now - e) then popped window now es else e ∷ es

abbrev pub put : String → List ℕ → (String → List ℕ) → String → List ℕ
put key es events k = if k == key then es else events k

-- The decision on the events that are left.
abbrev pub decide_on : SlidingWindowLimiter → ℕ → String → List ℕ → Bool × SlidingWindowLimiter
decide_on l now key es =
    if leb l.max_events (length es)
    then (false, record l { events = put key es l.events })
    else (true, record l { events = put key (es ++ now ∷ []) l.events })

-- `SlidingWindowLimiter.allow`, at the time that the clock shows
unfoldable pub allow : SlidingWindowLimiter → ℕ → String → Bool × SlidingWindowLimiter
allow l now key = decide_on l now key (popped l.window now (l.events key))

-- ---- TokenBucket ----

-- The code counts tokens in floating point and the clock in seconds. Here the clock counts
-- microseconds and a token is 60,000,000 shares, so that a minute's rate adds whole shares.
abbrev pub token : ℕ
token = 60_000_000

pub record TokenBucket : Type 0 where
  -- rate_per_minute: the shares of a microsecond
  pub rate : ℕ
  pub capacity : ℕ
  pub tokens : ℕ
  pub last : ℕ

abbrev pub burst_or : ℕ → Option ℕ → ℕ
burst_or rate_per_minute none = max (rate_per_minute / 4) 5
burst_or rate_per_minute (some burst) = burst

abbrev pub new_bucket : ℕ → Option ℕ → ℕ → TokenBucket
new_bucket rate_per_minute burst now = record {
  rate = rate_per_minute;
  capacity = burst_or rate_per_minute burst * token;
  tokens = burst_or rate_per_minute burst * token;
  last = now;
}

abbrev pub refilled : TokenBucket → ℕ → TokenBucket
refilled b now = record b {
  tokens = min b.capacity (b.tokens + (now - b.last) * b.rate);
  last = now;
}

abbrev pub take_token : TokenBucket → Bool × TokenBucket
take_token b =
    if leb token b.tokens then (true, record b { tokens = b.tokens - token }) else (false, b)

-- `TokenBucket.allow`, at the time that the clock shows
unfoldable pub bucket_allow : TokenBucket → ℕ → Bool × TokenBucket
bucket_allow b now = take_token (refilled b now)
