-- ===== src/Schedules/Later.antt =====
-- A schedule never fires at or before the time given (hub/app/services/scheduler.py, `next_run`).
use ampla.Shared.{
  ℕ, ◌+◌, ◌*◌, ◌≤◌, ◌<◌, ◌≡◌, ◌⊎◌, inl, inr, refl, ℤ, pos, negsuc, String, Bool, Option, none, some,
  arith, Bool-cases, ltb, leb, leb→le, ltb→lt,
}
use ampla.Text.Split.{split}
use ampla.Models.{Time, Kind, cron, interval, once}
use ampla.Hub.{second}
use ampla.Schedules.Outcomes.{
  Outcome, returned, value_error, overflow_error, endless, ◌>>=◌, ◌>>◌, check, int, Instant, aware,
  naive, in_utc, or_value_error, FromIsoFormat, parse_interval, if_later,
}
use ampla.Schedules.Calendar.{max_time}
use ampla.Schedules.Cron.{
  CronSpec, matches, restricted, search, horizon, cron_fuel, next_minute, within_calendar,
  parse_cron, cron_next, next_run,
}
use ampla.Schedules.Times.{Found, search-Found, le_refl}

after_next : (after : Time) → after < next_minute after
after_next after = omega arith

-- A time that is returned is after the one given.
abbrev pub Later : Time → Outcome (Option Time) → Type 0
Later after (returned (some t)) = after < t
Later after _ = Unit

Found-Later :
    (hit : Time → Bool) (limit t after : Time) (r : Outcome (Option Time))
    → after < t
    → Found hit limit t r
    → Later after r
Found-Later hit limit t after (returned (some u)) h (k, e, l, y, m) = omega (arith, e, h)
Found-Later hit limit t after (returned none) h f = tt
Found-Later hit limit t after value_error h f = tt
Found-Later hit limit t after overflow_error h f = tt
Found-Later hit limit t after endless h f = tt

-- Where a step before the search raises, so does the whole.
steps-Later :
    (p : Outcome CronSpec) (q : Outcome Time) (r : Bool × Bool) (after t bound : Time)
    → after < t
    → bound ≤ t + horizon
    → ((q ≡ returned bound) × (bound ≤ max_time)) ⊎ (q ≡ overflow_error)
    → Later after (p >>= λ d. q >>= λ l. search cron_fuel (matches d r) l t)
steps-Later (returned c) q r after t bound h k (inl (e, l)) =
    rw e (Found-Later (matches c r) bound t after _ h (search-Found (matches c r) bound t k l))
steps-Later (returned c) q r after t bound h k (inr e) = rw e tt
steps-Later value_error q r after t bound h k e = tt
steps-Later overflow_error q r after t bound h k e = tt
steps-Later endless q r after t bound h k e = tt

within_calendar-cases :
    (t : Time)
    → ((within_calendar t ≡ returned t) × (t ≤ max_time)) ⊎ (within_calendar t ≡ overflow_error)
within_calendar-cases t = elim (Bool-cases (leb t max_time)) [
  | inl e ↦ inl (rw e refl, leb→le t max_time e)
  | inr e ↦ inr (rw e refl)
]

interval-Later :
    (o : Outcome ℕ) (after : Time)
    → Later after (
        o >>= (λ secs. check (leb 1 secs) >> returned secs) >>= λ secs.
        within_calendar (after + secs * second) >>= λ t. returned (some t))
interval-Later (returned n) after = elim (Bool-cases (leb 1 n)) [
  | inr f ↦ rw f tt
  | inl f ↦ rw f (
      cased (after + n * second) (omega (arith, leb→le 1 n f))
        (within_calendar-cases (after + n * second)))
]
  where
    cased :
        (t : Time)
        → after < t
        → ((within_calendar t ≡ returned t) × (t ≤ max_time)) ⊎ (within_calendar t ≡ overflow_error)
        → Later after (within_calendar t >>= λ u. returned (some u))
    cased t h (inl (e, l)) = rw e h
    cased t h (inr e) = rw e tt
interval-Later value_error after = tt
interval-Later overflow_error after = tt
interval-Later endless after = tt

if_later-Later : (z : ℤ) (after : Time) → Later after (returned (if_later after z))
if_later-Later (negsuc n) after = tt
if_later-Later (pos t) after = elim (Bool-cases (ltb after t)) [
  | inl f ↦ rw f (ltb→lt after t f)
  | inr f ↦ rw f tt
]

once-Later :
    (o : Option Instant) (after : Time)
    → Later after
        (or_value_error o >>= (λ i. returned (in_utc i)) >>= λ z. returned (if_later after z))
once-Later none after = tt
once-Later (some (aware z)) after = if_later-Later z after
once-Later (some (naive z)) after = if_later-Later z after

-- The next time of a schedule of any kind, where there is one, is strictly after the time given.
pub next_run-Later :
    (fromisoformat : FromIsoFormat) (kind : Kind) (spec : String) (after : Time)
    → Later after (next_run fromisoformat kind spec after)
unfolding next_run cron_next parse_interval
next_run-Later fromisoformat interval spec after = interval-Later (int spec) after
next_run-Later fromisoformat once spec after = once-Later (fromisoformat spec) after
next_run-Later fromisoformat cron spec after =
    steps-Later (parse_cron spec) (within_calendar (next_minute after + horizon))
      (restricted (split spec)) after (next_minute after) (next_minute after + horizon)
      (after_next after) (le_refl (next_minute after + horizon))
      (within_calendar-cases (next_minute after + horizon))
