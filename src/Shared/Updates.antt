-- ===== src/Shared/Updates.antt =====
-- What an update leaves to be found, and what a query finds in two lists.
use mathlib.Core.Path.{◌≡◌, refl}
use mathlib.Core.Logic.{inl, inr}
use mathlib.Core.Bool.{Bool, true, false}
use mathlib.Core.Option.{some}
use mathlib.Core.List.{List, [], ◌∷◌, ◌++◌}
use native.Mathlib.Omega.{arith}
use ampla.Shared.Tests.{Bool-cases}
use ampla.Shared.Rows.{any, find_row, select, update_rows}

module _ {A : Type 0} where
  some_same : (a b : A) → some a ≡ some b → a ≡ b
  some_same a b h = cc

  pub find_row-passes :
      (p : A → Bool) (a : A) (rows : List A) → find_row p rows ≡ some a → p a ≡ true
  find_row-passes p a [] h = let out : ⊥ = ground (arith, h) in elim out [ ]
  find_row-passes p a (x ∷ xs) h = elim (Bool-cases (p x)) [
    | inl e ↦ rw (← some_same x a (rw e at h)) e
    | inr e ↦ find_row-passes p a xs (rw e at h)
  ]

  -- The row that is found, overwritten by one that passes the same test, is found again.
  pub find_row-update_rows :
      (p q : A → Bool) (a new : A) (rows : List A)
      → find_row p rows ≡ some a
      → q a ≡ true
      → p new ≡ true
      → find_row p (update_rows q (λ _. new) rows) ≡ some new
  find_row-update_rows p q a new [] h k l = let out : ⊥ = ground (arith, h) in elim out [ ]
  find_row-update_rows p q a new (x ∷ xs) h k l = elim (Bool-cases (q x)) [
    | inl e ↦ rw (e, l) refl
    | inr e ↦ elim (Bool-cases (p x)) [
      | inl f ↦ let out : ⊥ = absurd_test x e (rw f at h) in elim out [ ]
      | inr f ↦ rw (e, f) (find_row-update_rows p q a new xs (rw f at h) k l)
    ]
  ]
    where
      absurd_test : (x : A) → q x ≡ false → some x ≡ some a → ⊥
      absurd_test x e h = let k' = rw (← some_same x a h) at k in cc

  -- An update of the rows of another key leaves what is found.
  pub find_row-away :
      (p q : A → Bool) (a new : A) (rows : List A)
      → ((x : A) → q x ≡ true → p x ≡ false)
      → p new ≡ false
      → find_row p rows ≡ some a
      → find_row p (update_rows q (λ _. new) rows) ≡ some a
  find_row-away p q a new [] d k h = h
  find_row-away p q a new (x ∷ xs) d k h = elim (Bool-cases (q x)) [
    | inl e ↦ rw (e, k) (find_row-away p q a new xs d k (rw (d x e) at h))
    | inr e ↦ elim (Bool-cases (p x)) [
      | inl f ↦ rw (e, f) (rw f at h)
      | inr f ↦ rw (e, f) (find_row-away p q a new xs d k (rw f at h))
    ]
  ]

  pub any-update_rows :
      (p q : A → Bool) (new : A) (rows : List A)
      → p new ≡ false
      → any p rows ≡ false
      → any p (update_rows q (λ _. new) rows) ≡ false
  any-update_rows p q new [] k h = refl
  any-update_rows p q new (x ∷ xs) k h = elim (Bool-cases (p x)) [
    | inl f ↦ let out : ⊥ = ground (arith, rw f at h) in elim out [ ]
    | inr f ↦ elim (Bool-cases (q x)) [
      | inl e ↦ rw (e, k) (any-update_rows p q new xs k (rw f at h))
      | inr e ↦ rw (e, f) (any-update_rows p q new xs k (rw f at h))
    ]
  ]

  pub select-append :
      (p : A → Bool) (xs ys : List A) → select p (xs ++ ys) ≡ select p xs ++ select p ys
  select-append p [] ys = refl
  select-append p (x ∷ xs) ys = elim (Bool-cases (p x)) [
    | inl e ↦ rw e (rw (select-append p xs ys) refl)
    | inr e ↦ rw e (select-append p xs ys)
  ]
