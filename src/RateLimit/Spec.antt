-- ===== src/RateLimit/Spec.antt =====
-- What the sliding window promises (hub/app/core/ratelimit.py): a limiter that forgets nothing, and
-- counts the grants of the last window.
use ampla.Shared.{
  ℕ, ◌+◌, ◌-◌, ◌≤◌, String, Bool, true, false, not, ◌&&◌, ◌==◌, eq_string, List, [], ◌∷◌, ◌++◌,
  select, length, ltb, leb, if◌then◌else◌,
}
use ampla.RateLimit.{SlidingWindowLimiter, allow, put}

-- The grant is in the window that ends now.
abbrev pub recent : ℕ → ℕ → ℕ → Bool
recent window now e = not (ltb window (now - e))

-- All grants of each key, oldest first.
abbrev pub Log : Type 0
Log = String → List ℕ

abbrev pub grant : ℕ → ℕ → ℕ → String → Log → Bool × Log
grant max_events window now key log =
    if leb max_events (length (select (recent window now) (log key)))
    then (false, log)
    else (true, put key (log key ++ now ∷ []) log)

-- A call: the time and the key.
abbrev pub Call : Type 0
Call = ℕ × String

-- The answers to a sequence of calls, by the limiter and by the log.
abbrev pub answers : SlidingWindowLimiter → List Call → List Bool
answers l [] = []
answers l ((now, key) ∷ calls) = (allow l now key).0 ∷ answers (allow l now key).1 calls

abbrev pub granted : ℕ → ℕ → Log → List Call → List Bool
granted max_events window log [] = []
granted max_events window log ((now, key) ∷ calls) =
    (grant max_events window now key log).0
    ∷ granted max_events window (grant max_events window now key log).1 calls

-- The grants after a sequence of calls.
abbrev pub log_after : ℕ → ℕ → Log → List Call → Log
log_after max_events window log [] = log
log_after max_events window log ((now, key) ∷ calls) =
    log_after max_events window (grant max_events window now key log).1 calls

-- The clock does not go back.
abbrev pub Forward : ℕ → List Call → Type 0
Forward last [] = Unit
Forward last ((now, key) ∷ calls) = (last ≤ now) × Forward now calls

-- The time lies in the window that begins at a time.
abbrev pub within : ℕ → ℕ → ℕ → Bool
within window begin e = leb begin e && leb e (begin + window)

-- The times at which a key was granted.
abbrev pub grants_of : String → List Call → List Bool → List ℕ
grants_of key ((now, k) ∷ calls) (b ∷ answered) =
    if b && key == k then now ∷ grants_of key calls answered else grants_of key calls answered
grants_of key _ _ = []
