-- ===== src/RateLimit/Refines.antt =====
-- The sliding window implements its specification, and the bound that follows
-- (hub/app/core/ratelimit.py, `SlidingWindowLimiter`).
use ampla.Shared.{
  ℕ, ◌≤◌, ◌≡◌, inl, inr, refl, String, ◌==◌, eq_string, List, [], ◌∷◌, ◌++◌, arith, Bool-cases,
  select, length, leb,
}
use text.Mathlib.TextEquality.{eq_iff as str_eq_iff}
use ampla.RateLimit.{SlidingWindowLimiter, new_limiter, put, allow}
use ampla.RateLimit.Spec.{recent, Log, grant, Call, answers, granted, Forward}
use ampla.RateLimit.Window.{
  Ordered-later, Simulates, popped-Keeps, later-Keeps, granted-Keeps, put-Simulates,
}

denied-Simulates :
    (l : SlidingWindowLimiter) (log : Log) (last now : ℕ) (key : String)
    → Simulates l log last
    → last ≤ now
    → Simulates
        (record l { events = put key (select (recent l.window now) (log key)) l.events })
        log
        now
denied-Simulates l log last now key sim h k = elim (Bool-cases (k == key)) [
  | inl e ↦
      rw (e, (str_eq_iff k key).0 e)
        (Ordered-later last now (log key) h (sim key).0, (now, omega arith, refl))
  | inr e ↦ rw e (later-Keeps l.window last now (l.events k) (log k) (sim k) h)
]

-- One call is answered as by the log, and the limiter still keeps what it needs.
allow-grant :
    (l : SlidingWindowLimiter) (log : Log) (last now : ℕ) (key : String)
    → Simulates l log last
    → last ≤ now
    → ((allow l now key).0 ≡ (grant l.max_events l.window now key log).0)
      × Simulates (allow l now key).1 (grant l.max_events l.window now key log).1 now
      × ((allow l now key).1.max_events ≡ l.max_events)
      × ((allow l now key).1.window ≡ l.window)
unfolding allow
allow-grant l log last now key sim h =
    rw (popped-Keeps l.window last now (l.events key) (log key) (sim key) h)
      (elim (Bool-cases (leb l.max_events (length (select (recent l.window now) (log key))))) [
        | inl f ↦ rw f (refl, denied-Simulates l log last now key sim h, refl, refl)
        | inr f ↦ rw f (
          refl,
          put-Simulates l log last now key _ (log key ++ now ∷ []) sim h
              (granted-Keeps l.window last now (log key) (sim key).0 h),
          refl,
          refl,
        )
      ])

answers-granted :
    (l : SlidingWindowLimiter) (log : Log) (last : ℕ) (calls : List Call)
    → Simulates l log last
    → Forward last calls
    → answers l calls ≡ granted l.max_events l.window log calls
answers-granted l log last [] sim f = refl
answers-granted l log last ((now, key) ∷ calls) sim f =
    let (same, next, m, w) = allow-grant l log last now key sim f.0 in
    rw
      (
        same,
        answers-granted (allow l now key).1 (grant l.max_events l.window now key log).1 now calls
            next f.1,
        m,
        w,
      )
      refl

-- On a clock that does not go back, the limiter answers every sequence of calls as the log of all
-- grants does: a call is granted as long as the window that ends with it holds fewer grants of its
-- key than the maximum.
pub new_limiter-granted :
    (max_events window : ℕ) (calls : List Call)
    → Forward 0 calls
    → answers (new_limiter max_events window) calls ≡ granted max_events window (λ _. []) calls
new_limiter-granted max_events window calls f =
    answers-granted (new_limiter max_events window) (λ _. []) 0 calls
      (λ k. (tt, (0, omega arith, refl))) f
