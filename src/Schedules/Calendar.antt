-- ===== src/Schedules/Calendar.antt =====
-- What the scheduler reads of a `datetime`: a point in time is a number of microseconds since
-- 1970-01-01 in UTC.
use ampla.Shared.{ℕ, ◌+◌, ◌-◌, ◌*◌, ◌/◌, ◌%◌, ◌≡◌, refl, ltb, if◌then◌else◌}
use ampla.Models.{Time}

-- timedelta(minutes=1)
abbrev pub minute : ℕ
minute = 60_000_000

abbrev days : Time → ℕ
days t = t / (1440 * minute)

abbrev pub minute_of : Time → ℕ
minute_of t = t / minute % 60

abbrev pub hour_of : Time → ℕ
hour_of t = t / (60 * minute) % 24

-- `weekday()`: Monday is 0, and the first day was a Thursday.
abbrev pub weekday : Time → ℕ
weekday t = (days t + 3) % 7

-- The year is taken to begin on the first of March: the day of that year, of its era of 400 years.
abbrev day_of_era : Time → ℕ
day_of_era t = (days t + 719_468) % 146_097

abbrev year_of_era : ℕ → ℕ
year_of_era doe = (doe - doe / 1460 + doe / 36_524 - doe / 146_096) / 365

abbrev day_of_year : ℕ → ℕ
day_of_year doe = doe - (365 * year_of_era doe + year_of_era doe / 4 - year_of_era doe / 100)

-- Months from March on: those of 31 and 30 days come in groups of five with 153 days.
abbrev month_from_march : ℕ → ℕ
month_from_march doy = (5 * doy + 2) / 153

abbrev pub day_of : Time → ℕ
day_of t = let doy = day_of_year (day_of_era t) in doy - (153 * month_from_march doy + 2) / 5 + 1

abbrev pub month_of : Time → ℕ
month_of t =
    let m = month_from_march (day_of_year (day_of_era t)) in if ltb m 10 then m + 3 else m - 9

-- The last microsecond of the year 9999, the greatest `datetime`.
abbrev pub max_time : Time
max_time = 253_402_300_799_999_999

-- 2024-02-29 12:34, a Thursday
leap_day :
    ◌≡◌ {A = ℕ × ℕ × ℕ × ℕ × ℕ}
      (
        month_of 1_709_210_040_000_000,
        day_of 1_709_210_040_000_000,
        hour_of 1_709_210_040_000_000,
        minute_of 1_709_210_040_000_000,
        weekday 1_709_210_040_000_000,
      )
      (2, 29, 12, 34, 3)
leap_day = refl

-- 2025-12-31 23:59, a Wednesday
last_minute :
    ◌≡◌ {A = ℕ × ℕ × ℕ × ℕ × ℕ}
      (
        month_of 1_767_225_540_000_000,
        day_of 1_767_225_540_000_000,
        hour_of 1_767_225_540_000_000,
        minute_of 1_767_225_540_000_000,
        weekday 1_767_225_540_000_000,
      )
      (12, 31, 23, 59, 2)
last_minute = refl
