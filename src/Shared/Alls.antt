-- ===== src/Shared/Alls.antt =====
-- A property of all rows, through the queries and the writes.
use mathlib.Core.Path.{◌≡◌}
use mathlib.Core.Logic.{inl, inr}
use mathlib.Core.Bool.{Bool, true}
use mathlib.Core.Option.{some}
use mathlib.Core.List.{List, [], ◌∷◌, ◌++◌}
use native.Mathlib.Omega.{arith}
use ampla.Shared.Tests.{Bool-cases}
use ampla.Shared.Rows.{All, select, find_row, update_rows, insert_sorted, order_by}

module _ {A : Type 0} (P : A → Type 0) where
  pub All-select : (p : A → Bool) (rows : List A) → All P rows → All P (select p rows)
  All-select p [] h = tt
  All-select p (x ∷ xs) h = elim (Bool-cases (p x)) [
    | inl e ↦ rw e (h.0, All-select p xs h.1)
    | inr e ↦ rw e (All-select p xs h.1)
  ]

  All-insert_sorted :
      (le : A → A → Bool) (x : A) (rows : List A)
      → P x
      → All P rows
      → All P (insert_sorted le x rows)
  All-insert_sorted le x [] h k = (h, tt)
  All-insert_sorted le x (y ∷ ys) h k = elim (Bool-cases (le x y)) [
    | inl e ↦ rw e (h, k)
    | inr e ↦ rw e (k.0, All-insert_sorted le x ys h k.1)
  ]

  pub All-order_by : (le : A → A → Bool) (rows : List A) → All P rows → All P (order_by le rows)
  All-order_by le [] h = tt
  All-order_by le (x ∷ xs) h = All-insert_sorted le x (order_by le xs) h.0 (All-order_by le xs h.1)

  pub All-snoc : (rows : List A) (x : A) → All P rows → P x → All P (rows ++ x ∷ [])
  All-snoc [] x h k = (k, tt)
  All-snoc (y ∷ ys) x h k = (h.0, All-snoc ys x h.1 k)

  pub All-update_rows :
      (p : A → Bool) (f : A → A) (rows : List A)
      → ((x : A) → P (f x))
      → All P rows
      → All P (update_rows p f rows)
  All-update_rows p f [] h k = tt
  All-update_rows p f (x ∷ xs) h k = elim (Bool-cases (p x)) [
    | inl e ↦ rw e (h x, All-update_rows p f xs h k.1)
    | inr e ↦ rw e (k.0, All-update_rows p f xs h k.1)
  ]

  -- The row that is found has the property, and passes the test.
  pub All-find_row :
      (p : A → Bool) (rows : List A) (x : A)
      → All P rows
      → find_row p rows ≡ some x
      → P x × (p x ≡ true)
  All-find_row p [] x h e = let out : ⊥ = ground (arith, e) in elim out [ ]
  All-find_row p (y ∷ ys) x h e = elim (Bool-cases (p y)) [
    | inl f ↦ rw (← same (rw f at e)) (h.0, f)
    | inr f ↦ All-find_row p ys x h.1 (rw f at e)
  ]
    where
      same : some y ≡ some x → y ≡ x
      same k = cc

  -- What is selected passes the test.
  pub All-passes :
      (p : A → Bool) (rows : List A) → All P rows → All (λ x. P x × (p x ≡ true)) (select p rows)
  All-passes p [] h = tt
  All-passes p (x ∷ xs) h = elim (Bool-cases (p x)) [
    | inl e ↦ rw e ((h.0, e), All-passes p xs h.1)
    | inr e ↦ rw e (All-passes p xs h.1)
  ]

  pub All-map : (Q : A → Type 0) (rows : List A) → ((x : A) → P x → Q x) → All P rows → All Q rows
  All-map Q [] f h = tt
  All-map Q (x ∷ xs) f h = (f x h.0, All-map Q xs f h.1)
