-- ===== src/Schedules/Outcomes.antt =====
-- Intervals and instants (hub/app/services/scheduler.py), and how its functions end.
use ampla.Shared.{
  ℕ, ℤ, pos, negsuc, String, Bool, true, false, eq_string, Option, none, some, ltb, leb,
  if◌then◌else◌,
}
use ampla.Text.{parse_int}
use ampla.Models.{Time}

-- What a function of the module does: it returns, raises one of two exceptions, or does not return.
pub data Outcome (A : Type 0) : Type 0 where
  returned : A → Outcome A
  value_error overflow_error endless : Outcome A

infixl 5 ◌>>=◌ ◌>>◌
abbrev pub ◌>>=◌ : {A B : Type 0} → Outcome A → (A → Outcome B) → Outcome B
returned a >>= f = f a
value_error >>= f = value_error
overflow_error >>= f = overflow_error
endless >>= f = endless

abbrev pub ◌>>◌ : {B : Type 0} → Outcome Unit → Outcome B → Outcome B
m >> k = m >>= λ _. k

abbrev pub or_value_error : {A : Type 0} → Option A → Outcome A
or_value_error none = value_error
or_value_error (some a) = returned a

abbrev pub check : Bool → Outcome Unit
check true = returned tt
check false = value_error

-- An integer that must not be negative: where one is, the tests of the code raise ValueError too.
abbrev pub natural : Option ℤ → Outcome ℕ
natural none = value_error
natural (some (negsuc n)) = value_error
natural (some (pos n)) = returned n

unfoldable pub int : String → Outcome ℕ
unfolding parse_int
int s = natural (parse_int s)

unfoldable pub parse_interval : String → Outcome ℕ
unfolding int
parse_interval spec = do secs ← int spec; check (leb 1 secs); returned secs

-- ---- once ----

-- What `datetime.fromisoformat` gives, in microseconds since 1970 by the clock that the text shows: a
-- time with an offset, brought to UTC, or one without.
pub data Instant : Type 0 where
  aware naive : ℤ → Instant

-- A naive value is read as UTC.
abbrev pub in_utc : Instant → ℤ
in_utc (aware t) = t
in_utc (naive t) = t

-- `fromisoformat` is the standard library's; None stands for its ValueError.
abbrev pub FromIsoFormat : Type 0
FromIsoFormat = String → Option Instant

abbrev pub parse_instant : FromIsoFormat → String → Outcome ℤ
parse_instant fromisoformat spec = do
  instant ← or_value_error (fromisoformat spec)
  returned (in_utc instant)

-- `instant if instant > after else None`
abbrev pub if_later : Time → ℤ → Option Time
if_later after (negsuc n) = none
if_later after (pos t) = if ltb after t then some t else none
