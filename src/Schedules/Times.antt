-- ===== src/Schedules/Times.antt =====
-- When a schedule fires next (hub/app/services/scheduler.py, `_cron_next` and `next_run`).
use ampla.Shared.{
  ℕ, zero, suc, ◌+◌, ◌*◌, ◌≤◌, ◌<◌, ◌≡◌, inl, inr, Bool, true, false, Option, none, some, arith,
  Bool-cases, leb, leb→le, leb-false,
}
use ampla.Models.{Time}
use ampla.Schedules.Outcomes.{Outcome, returned, value_error, overflow_error, endless}
use ampla.Schedules.Calendar.{minute, max_time}
use ampla.Schedules.Cron.{search, horizon, cron_fuel}

-- No hit in the first minutes from a time on.
abbrev pub Misses : (Time → Bool) → Time → ℕ → Type 0
Misses hit t k = (j : ℕ) → j < k → hit (t + j * minute) ≡ false

-- The first hit from a time on, by whole minutes up to a limit; or none up to the limit, and then an
-- overflow if the minute behind the limit is past the calendar.
abbrev pub Found : (Time → Bool) → Time → Time → Outcome (Option Time) → Type 0
Found hit limit t (returned (some u)) =
    (k : ℕ) × (u ≡ t + k * minute) × (u ≤ limit) × (hit u ≡ true) × Misses hit t k
Found hit limit t (returned none) = (k : ℕ) → t + k * minute ≤ limit → hit (t + k * minute) ≡ false
Found hit limit t overflow_error =
    (max_time < limit + minute) × ((k : ℕ) → t + k * minute ≤ limit → hit (t + k * minute) ≡ false)
Found hit limit t _ = ⊥

pub le_refl : (n : ℕ) → n ≤ n
le_refl n = omega arith

zero_more : (t : ℕ) → t + 0 * minute ≡ t
zero_more t = omega arith

one_more : (t i : ℕ) → t + suc i * minute ≡ t + minute + i * minute
one_more t i = omega arith

-- From the next minute to this one.
earlier :
    (hit : Time → Bool) (limit t : Time) (r : Outcome (Option Time))
    → t ≤ limit
    → hit t ≡ false
    → Found hit limit (t + minute) r
    → Found hit limit t r
earlier hit limit t (returned (some u)) h miss (k, e, l, y, before) =
    (suc k, omega (arith, e), l, y, shifted)
  where
    shifted : Misses hit t (suc k)
    shifted zero j = rw (zero_more t) miss
    shifted (suc i) j = rw (one_more t i) (before i (omega (arith, j)))
earlier hit limit t (returned none) h miss none_later = shifted
  where
    shifted : (k : ℕ) → t + k * minute ≤ limit → hit (t + k * minute) ≡ false
    shifted zero l = rw (zero_more t) miss
    shifted (suc i) l = rw (one_more t i) (none_later i (omega (arith, l)))
earlier hit limit t value_error h miss r = r
earlier hit limit t overflow_error h miss (past, none_later) = (past, shifted)
  where
    shifted : (k : ℕ) → t + k * minute ≤ limit → hit (t + k * minute) ≡ false
    shifted zero l = rw (zero_more t) miss
    shifted (suc i) l = rw (one_more t i) (none_later i (omega (arith, l)))
earlier hit limit t endless h miss r = r

-- The last minute of the calendar is the last one up to the limit.
last_minute :
    (hit : Time → Bool) (limit t : Time)
    → limit ≤ max_time
    → hit t ≡ false
    → max_time < t + minute
    → t ≤ limit
    → Found hit limit t overflow_error
last_minute hit limit t inside miss past here = (omega (arith, past, here), only)
  where
    only : (k : ℕ) → t + k * minute ≤ limit → hit (t + k * minute) ≡ false
    only zero l = rw (zero_more t) miss
    only (suc i) l =
        let m = one_more t i in let out : ⊥ = omega (arith, l, inside, past, m) in elim out [ ]

-- The loop ends, with the first hit, on enough fuel.
search_lem :
    (fuel : ℕ) (hit : Time → Bool) (limit t : Time)
    → limit < t + fuel * minute
    → limit ≤ max_time
    → Found hit limit t (search (suc fuel) hit limit t)
unfolding search
search_lem zero hit limit t enough inside =
    rw (beyond t limit (omega (arith, enough)))
      (λ k l. let out : ⊥ = omega (arith, l, enough) in elim out [ ])
  where
    beyond : (a b : ℕ) → b < a → leb a b ≡ false
    beyond a b h = ground (arith, h)
search_lem (suc fuel) hit limit t enough inside = elim (Bool-cases (leb t limit)) [
  | inr past ↦
      rw past (λ k l. let out : ⊥ = omega (arith, l, leb-false t limit past) in elim out [ ])
  | inl here ↦ elim (Bool-cases (hit t)) [
    | inl y ↦
        rw (here, y)
          (
            0,
            omega arith,
            leb→le t limit here,
            y,
            λ j l. let out : ⊥ = omega (arith, l) in elim out [ ],
          )
    | inr miss ↦ elim (Bool-cases (leb (t + minute) max_time)) [
      | inl within ↦
          rw (here, miss, within)
            (earlier hit limit t _ (leb→le t limit here) miss
              (search_lem fuel hit limit (t + minute) (omega (arith, enough)) inside))
      | inr past ↦
          rw (here, miss, past)
            (last_minute hit limit t inside miss (leb-false (t + minute) max_time past)
              (leb→le t limit here))
    ]
  ]
]

pub search-Found :
    (hit : Time → Bool) (limit t : Time)
    → limit ≤ t + horizon
    → limit ≤ max_time
    → Found hit limit t (search cron_fuel hit limit t)
unfolding cron_fuel
search-Found hit limit t h inside = search_lem 527_041 hit limit t (omega (arith, h)) inside
