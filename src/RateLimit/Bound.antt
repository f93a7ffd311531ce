-- ===== src/RateLimit/Bound.antt =====
-- How many calls of a key the limiter grants (hub/app/core/ratelimit.py, `SlidingWindowLimiter`).
use ampla.Shared.{
  ℕ, ◌+◌, ◌≤◌, ◌≡◌, inl, inr, refl, sym, ap, ◌∙◌, String, true, false, ◌==◌, eq_string, List, [],
  ◌∷◌, ◌++◌, arith, Bool-cases, select, select-append, length, length-append, leb, leb-false,
  if◌then◌else◌,
}
use mathlib.Core.List.{append-nil, append_assoc}
use text.Mathlib.TextEquality.{eq_iff as str_eq_iff}
use ampla.RateLimit.{new_limiter, put}
use ampla.RateLimit.Spec.{
  recent, Log, grant, Call, answers, granted, log_after, Forward, within, grants_of,
}
use ampla.RateLimit.Refines.{new_limiter-granted}

within-recent :
    (window now begin : ℕ) (es : List ℕ)
    → now ≤ begin + window
    → length (select (within window begin) es) ≤ length (select (recent window now) es)
within-recent window now begin [] h = omega arith
within-recent window now begin (e ∷ es) h = elim (Bool-cases (within window begin e)) [
  | inl a ↦ rw (a, inside a) (omega (arith, within-recent window now begin es h))
  | inr a ↦ elim (Bool-cases (recent window now e)) [
    | inl b ↦ rw (a, b) (omega (arith, within-recent window now begin es h))
    | inr b ↦ rw (a, b) (within-recent window now begin es h)
  ]
]
  where
    inside : within window begin e ≡ true → recent window now e ≡ true
    inside a = ground (arith, a, h)

-- No window holds more grants of a key than the maximum.
abbrev pub Bounded : ℕ → ℕ → Log → Type 0
Bounded max_events window log =
    (key : String) (begin : ℕ) → length (select (within window begin) (log key)) ≤ max_events

add-Bounded :
    (max_events window now begin : ℕ) (es : List ℕ)
    → length (select (within window begin) es) ≤ max_events
    → leb max_events (length (select (recent window now) es)) ≡ false
    → length (select (within window begin) (es ++ now ∷ [])) ≤ max_events
add-Bounded max_events window now begin es b free =
    rw (select-append (within window begin) es (now ∷ []))
      (elim (Bool-cases (within window begin now)) [
        | inr o ↦ rw o (omega (arith, b, length-append (select (within window begin) es) []))
        | inl i ↦ rw i (
            omega (
              arith,
              within-recent window now begin es (end i),
              leb-false _ _ free,
              length-append (select (within window begin) es) (now ∷ []),
            ))
      ])
  where
    end : within window begin now ≡ true → now ≤ begin + window
    end i = ground (arith, i)

grant-Bounded :
    (max_events window now : ℕ) (key : String) (log : Log)
    → Bounded max_events window log
    → Bounded max_events window (grant max_events window now key log).1
grant-Bounded max_events window now key log b k begin =
    elim (Bool-cases (leb max_events (length (select (recent window now) (log key))))) [
      | inl f ↦ rw f (b k begin)
      | inr f ↦ elim (Bool-cases (k == key)) [
        | inl e ↦ rw (f, e) (add-Bounded max_events window now begin (log key) (b key begin) f)
        | inr e ↦ rw (f, e) (b k begin)
      ]
    ]

log_after-Bounded :
    (max_events window : ℕ) (log : Log) (calls : List Call)
    → Bounded max_events window log
    → Bounded max_events window (log_after max_events window log calls)
log_after-Bounded max_events window log [] b = b
log_after-Bounded max_events window log ((now, key) ∷ calls) b =
    log_after-Bounded max_events window (grant max_events window now key log).1 calls
      (grant-Bounded max_events window now key log b)

one_more :
    (key k : String) (now : ℕ) (log : Log) (rest : List ℕ)
    → put k (log k ++ now ∷ []) log key ++ rest ≡ log key ++ (if key == k then now ∷ rest else rest)
one_more key k now log rest = elim (Bool-cases (key == k)) [
  | inl e ↦ rw e (
      append_assoc (log k) (now ∷ []) rest
      ∙ ap (λ j. log j ++ now ∷ rest) (sym ((str_eq_iff key k).0 e)))
  | inr e ↦ rw e refl
]

-- The log holds what was granted.
log_after-grants_of :
    (max_events window : ℕ) (log : Log) (calls : List Call) (key : String)
    → log_after max_events window log calls key
      ≡ log key ++ grants_of key calls (granted max_events window log calls)
log_after-grants_of max_events window log [] key = sym (append-nil (log key))
log_after-grants_of max_events window log ((now, k) ∷ calls) key =
    elim (Bool-cases (leb max_events (length (select (recent window now) (log k))))) [
      | inl f ↦ rw f (log_after-grants_of max_events window log calls key)
      | inr f ↦ rw f (
          log_after-grants_of max_events window (put k (log k ++ now ∷ []) log) calls key
          ∙ one_more key k now log _)
    ]

-- Of the calls of a key that the limiter grants, no window of time holds more than the maximum,
-- wherever it begins, on a clock that does not go back.
answers-Bounded :
    (max_events window : ℕ) (calls : List Call) (key : String) (begin : ℕ)
    → Forward 0 calls
    → length (
        select
          (within window begin)
          (grants_of key calls (answers (new_limiter max_events window) calls)))
      ≤ max_events
answers-Bounded max_events window calls key begin f =
    rw
      (
        new_limiter-granted max_events window calls f,
        ← log_after-grants_of max_events window (λ _. []) calls key,
      )
      (log_after-Bounded max_events window (λ _. []) calls (λ k b. omega arith) key begin)
