-- ===== src/RateLimit/Window.antt =====
-- The sliding window against its specification (hub/app/core/ratelimit.py, `SlidingWindowLimiter`).
use ampla.Shared.{
  All-select, All-snoc, ℕ, ◌-◌, ◌≤◌, ◌≡◌, inl, inr, refl, ◌∙◌, String, Bool, true, false, ◌==◌,
  eq_string, List, [], ◌∷◌, ◌++◌, arith, Bool-cases, All, select, select-append, ltb,
}
use ampla.RateLimit.{SlidingWindowLimiter, popped, put}
use ampla.RateLimit.Spec.{recent, Log}

-- In the order of time, and none after the time given.
abbrev pub Ordered : ℕ → List ℕ → Type 0
Ordered last [] = Unit
Ordered last (e ∷ es) = (e ≤ last) × All (λ f. e ≤ f) es × Ordered last es

pub Ordered-later : (last now : ℕ) (es : List ℕ) → last ≤ now → Ordered last es → Ordered now es
Ordered-later last now [] h o = tt
Ordered-later last now (e ∷ es) h o = (omega (arith, o.0), o.1, Ordered-later last now es h o.2)

Ordered-snoc : (now : ℕ) (es : List ℕ) → Ordered now es → Ordered now (es ++ now ∷ [])
Ordered-snoc now [] o = (omega arith, tt, tt)
Ordered-snoc now (e ∷ es) o = (o.0, All-snoc (λ f. e ≤ f) es now o.1 o.0, Ordered-snoc now es o.2)

-- Where the first event is recent, all are.
select-recent :
    (window now e : ℕ) (es : List ℕ)
    → ltb window (now - e) ≡ false
    → All (λ f. e ≤ f) es
    → select (recent window now) es ≡ es
select-recent window now e [] h a = refl
select-recent window now e (f ∷ fs) h a =
    rw (still f a.0) (rw (select-recent window now e fs h a.1) refl)
  where
    still : (f : ℕ) → e ≤ f → ltb window (now - f) ≡ false
    still f k = ground (arith, h)

-- In order of time, dropping from the front drops all that is not recent.
popped-select :
    (window now last : ℕ) (es : List ℕ)
    → Ordered last es
    → popped window now es ≡ select (recent window now) es
popped-select window now last [] o = refl
popped-select window now last (e ∷ es) o = elim (Bool-cases (ltb window (now - e))) [
  | inl h ↦ rw h (popped-select window now last es o.2)
  | inr h ↦ rw h (rw (select-recent window now e es h o.1) refl)
]

-- What was dropped earlier is not recent now.
select-select :
    (window before now : ℕ) (es : List ℕ)
    → before ≤ now
    → select (recent window now) (select (recent window before) es) ≡ select (recent window now) es
select-select window before now [] h = refl
select-select window before now (e ∷ es) h = elim (Bool-cases (ltb window (before - e))) [
  | inr a ↦ elim (Bool-cases (ltb window (now - e))) [
    | inl b ↦ rw (a, b) (select-select window before now es h)
    | inr b ↦ rw (a, b) (rw (select-select window before now es h) refl)
  ]
  | inl a ↦ rw (a, older a) (select-select window before now es h)
]
  where
    older : ltb window (before - e) ≡ true → ltb window (now - e) ≡ true
    older a = ground (arith, a, h)

Ordered-select :
    (last : ℕ) (p : ℕ → Bool) (es : List ℕ) → Ordered last es → Ordered last (select p es)
Ordered-select last p [] o = tt
Ordered-select last p (e ∷ es) o = elim (Bool-cases (p e)) [
  | inl h ↦ rw h (o.0, All-select (λ f. e ≤ f) p es o.1, Ordered-select last p es o.2)
  | inr h ↦ rw h (Ordered-select last p es o.2)
]

-- ---- the simulation ----

-- The events kept for a key are the grants that were recent at some time before.
abbrev pub Keeps : ℕ → ℕ → List ℕ → List ℕ → Type 0
Keeps window last events log =
    Ordered last log × ((t : ℕ) × (t ≤ last) × (events ≡ select (recent window t) log))

abbrev pub Simulates : SlidingWindowLimiter → Log → ℕ → Type 0
Simulates l log last = (key : String) → Keeps l.window last (l.events key) (log key)

pub popped-Keeps :
    (window last now : ℕ) (events log : List ℕ)
    → Keeps window last events log
    → last ≤ now
    → popped window now events ≡ select (recent window now) log
popped-Keeps window last now events log (o, (t, before, e)) h = rw e (
    popped-select window now last (select (recent window t) log)
      (Ordered-select last (recent window t) log o)
    ∙ select-select window t now log (omega (arith, before, h)))

-- A key that is not called keeps its events.
pub later-Keeps :
    (window last now : ℕ) (events log : List ℕ)
    → Keeps window last events log
    → last ≤ now
    → Keeps window now events log
later-Keeps window last now events log (o, (t, before, e)) h =
    (Ordered-later last now log h o, (t, omega (arith, before, h), e))

pub granted-Keeps :
    (window last now : ℕ) (log : List ℕ)
    → Ordered last log
    → last ≤ now
    → Keeps window now (select (recent window now) log ++ now ∷ []) (log ++ now ∷ [])
granted-Keeps window last now log o h = (
  Ordered-snoc now log (Ordered-later last now log h o),
  (now, omega arith, rw (select-append (recent window now) log (now ∷ []), now_recent) refl),
)
  where
    now_recent : recent window now now ≡ true
    now_recent = ground arith

pub put-Simulates :
    (l : SlidingWindowLimiter) (log : Log) (last now : ℕ) (key : String) (events grants : List ℕ)
    → Simulates l log last
    → last ≤ now
    → Keeps l.window now events grants
    → Simulates (record l { events = put key events l.events }) (put key grants log) now
put-Simulates l log last now key events grants sim h new k = elim (Bool-cases (k == key)) [
  | inl e ↦ rw e new
  | inr e ↦ rw e (later-Keeps l.window last now (l.events k) (log k) (sim k) h)
]
