-- ===== src/Schedules/Cron.antt =====
-- Cron expressions and the next time of a schedule (hub/app/services/scheduler.py).
use ampla.Shared.{
  ℕ, zero, suc, ◌+◌, ◌-◌, ◌*◌, ◌/◌, ◌%◌, ◌≡◌, refl, String, Bool, true, false, not, ◌&&◌, ◌||◌,
  ◌==◌, eq_string, Option, none, some, List, [], ◌∷◌, ◌++◌, any, nat_eq, leb, if◌then◌else◌,
}
use ampla.Text.{is_empty}
use ampla.Text.Split.{split, split_on, partition}
use ampla.Models.{Time, Kind, cron, interval, once}
use ampla.Hub.{second}
use ampla.Schedules.Outcomes.{
  Outcome, returned, value_error, overflow_error, endless, ◌>>=◌, ◌>>◌, check, int, FromIsoFormat,
  parse_interval, parse_instant, if_later,
}
use ampla.Schedules.Calendar.{minute, minute_of, hour_of, weekday, day_of, month_of, max_time}

-- ---- cron ----

-- A row of _CRON_BOUNDS, and what it bounds.
pub record CronSpec : Type 0 where
  pub minutes : List ℕ
  pub hours : List ℕ
  pub doms : List ℕ
  pub months : List ℕ
  pub dows : List ℕ

-- `range(start, …, step)` with so many elements
abbrev pub range : ℕ → ℕ → ℕ → List ℕ
range zero start step = []
range (suc n) start step = start ∷ range n (start + step) step

-- start and end
abbrev ends : String → ℕ → ℕ → String × Bool × String → Outcome (ℕ × ℕ)
ends rng lo hi (a, true, b) = do start ← int a; end ← int b; returned (start, end)
ends rng lo hi (a, false, b) = do start ← int a; returned (start, start)

abbrev span : String → ℕ → ℕ → Outcome (ℕ × ℕ)
span rng lo hi = if rng == "*" then returned (lo, hi) else ends rng lo hi (partition b'-' rng)

abbrev step_of : String → Outcome ℕ
step_of step_s = if is_empty step_s then returned 1 else int step_s

abbrev stepped : ℕ → ℕ → ℕ → ℕ × ℕ → Outcome (List ℕ)
stepped lo hi step (start, end) = do
  check (leb lo start && (leb end hi && leb start end))
  returned (range ((end - start) / step + 1) start step)

abbrev parse_range : ℕ → ℕ → String × Bool × String → Outcome (List ℕ)
parse_range lo hi (rng, found, step_s) = do
  step ← step_of step_s
  check (leb 1 step)
  both_ends ← span rng lo hi
  stepped lo hi step both_ends

abbrev parse_parts : ℕ → ℕ → List String → Outcome (List ℕ)
parse_parts lo hi [] = returned []
parse_parts lo hi (part ∷ parts) = do
  here ← parse_range lo hi (partition b'/' part)
  rest ← parse_parts lo hi parts
  returned (here ++ rest)

-- The list of parts is never empty, and a part gives at least its start.
unfoldable pub parse_field : String → ℕ → ℕ → Outcome (List ℕ)
unfolding int partition split_on
parse_field field lo hi = parse_parts lo hi (split_on b',' field)

-- The five fields, or ValueError.
abbrev pub parse_fields : List String → Outcome CronSpec
parse_fields (m ∷ h ∷ dom ∷ mon ∷ dow ∷ []) = do
  minutes ← parse_field m 0 59
  hours ← parse_field h 0 23
  doms ← parse_field dom 1 31
  months ← parse_field mon 1 12
  dows ← parse_field dow 0 6
  returned (record { minutes = minutes; hours = hours; doms = doms; months = months; dows = dows })
parse_fields _ = value_error

unfoldable pub parse_cron : String → Outcome CronSpec
unfolding split
parse_cron spec = parse_fields (split spec)

abbrev pub in_set : ℕ → List ℕ → Bool
in_set n set = any (nat_eq n) set

-- Whether the fields of the day of the month and of the week are restricted.
abbrev pub restricted : List String → Bool × Bool
restricted (m ∷ h ∷ dom ∷ mon ∷ dow ∷ []) = (not (dom == "*"), not (dow == "*"))
restricted _ = (false, false)

abbrev day_matches : Bool × Bool → Bool → Bool → Bool
day_matches (true, true) dom_ok dow_ok = dom_ok || dow_ok
day_matches _ dom_ok dow_ok = dom_ok && dow_ok

unfoldable pub matches : CronSpec → Bool × Bool → Time → Bool
matches c r t =
    in_set (minute_of t) c.minutes
    && (in_set (hour_of t) c.hours
        && (in_set (month_of t) c.months
            && day_matches r (in_set (day_of t) c.doms) (in_set ((weekday t + 1) % 7) c.dows)))

-- The loop `while t <= limit`, on fuel; the addition behind the last minute of the calendar raises.
unfoldable pub search : ℕ → (Time → Bool) → Time → Time → Outcome (Option Time)
search zero hit limit t = endless
search (suc fuel) hit limit t =
    let rest = search fuel hit limit (t + minute) in
    if leb t limit
    then (if hit t
        then returned (some t)
        else if leb (t + minute) max_time
        then rest
        else overflow_error)
    else returned none

-- _CRON_HORIZON
abbrev pub horizon : ℕ
horizon = 366 * (1440 * minute)

-- A round for each minute of the horizon, both ends included, and one more.
unfoldable pub cron_fuel : ℕ
cron_fuel = 527_042

-- The next whole minute after a time.
abbrev pub next_minute : Time → Time
next_minute after = after / minute * minute + minute

-- Past the greatest `datetime` an addition raises OverflowError.
abbrev pub within_calendar : Time → Outcome Time
within_calendar t = if leb t max_time then returned t else overflow_error

unfoldable pub cron_next : String → Time → Outcome (Option Time)
unfolding search matches parse_cron split cron_fuel
cron_next spec after = do
  c ← parse_cron spec
  limit ← within_calendar (next_minute after + horizon)
  search cron_fuel (matches c (restricted (split spec))) limit (next_minute after)

-- ---- the schedule's kinds ----

unfoldable pub validate_spec : FromIsoFormat → Kind → String → Outcome Unit
unfolding parse_interval parse_cron
validate_spec fromisoformat interval spec = parse_interval spec >>= λ _. returned tt
validate_spec fromisoformat once spec = parse_instant fromisoformat spec >>= λ _. returned tt
validate_spec fromisoformat cron spec = parse_cron spec >>= λ _. returned tt

unfoldable pub next_run : FromIsoFormat → Kind → String → Time → Outcome (Option Time)
unfolding parse_interval cron_next
next_run fromisoformat interval spec after = do
  secs ← parse_interval spec
  t ← within_calendar (after + secs * second)
  returned (some t)
next_run fromisoformat once spec after = do
  instant ← parse_instant fromisoformat spec
  returned (if_later after instant)
next_run fromisoformat cron spec after = cron_next spec after

-- At half past nine on weekdays, from ten minutes before on a Monday.
monday : cron_next "30 9 * * 1-5" 1_709_544_000_000_000 ≡ returned (some 1_709_544_600_000_000)
unfolding cron_next parse_field
monday = refl
