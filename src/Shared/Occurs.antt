-- ===== src/Shared/Occurs.antt =====
-- Occurrence in a list, through the queries of `Shared/Rows`.
use mathlib.Core.Path.{◌≡◌, refl}
use mathlib.Core.Logic.{◌↔◌, ◌⊎◌, inl, inr}
use mathlib.Core.Bool.{Bool, true}
use mathlib.Core.List.{List, [], ◌∷◌}
use ampla.Shared.Tests.{Bool-cases}
use ampla.Shared.Rows.{any, select, insert_sorted, order_by}

module _ {A : Type 0} where
  abbrev pub In : A → List A → Type 0
  In x [] = ⊥
  In x (y ∷ ys) = (y ≡ x) ⊎ In x ys

  select→In :
      (p : A → Bool) (x : A) (rows : List A) → In x (select p rows) → In x rows × (p x ≡ true)
  select→In p x [] h = elim h [ ]
  select→In p x (y ∷ ys) h = elim (Bool-cases (p y)) [
    | inl e ↦ elim (rw e at h) [
      | inl same ↦ (inl same, rw (← same) e)
      | inr i ↦ let found = select→In p x ys i in (inr found.0, found.1)
    ]
    | inr e ↦ let found = select→In p x ys (rw e at h) in (inr found.0, found.1)
  ]

  In→select : (p : A → Bool) (x : A) (rows : List A) → In x rows → p x ≡ true → In x (select p rows)
  In→select p x [] h k = elim h [ ]
  In→select p x (y ∷ ys) (inl same) k = rw (same, k) (inl refl)
  In→select p x (y ∷ ys) (inr i) k = elim (Bool-cases (p y)) [
    | inl e ↦ rw e (inr (In→select p x ys i k))
    | inr e ↦ rw e (In→select p x ys i k)
  ]

  pub In-select :
      (p : A → Bool) (x : A) (rows : List A) → In x (select p rows) ↔ (In x rows × (p x ≡ true))
  In-select p x rows = (select→In p x rows, λ h. In→select p x rows h.0 h.1)

  insert_sorted→In :
      (le : A → A → Bool) (x y : A) (rows : List A)
      → In x (insert_sorted le y rows)
      → (y ≡ x) ⊎ In x rows
  insert_sorted→In le x y [] h = h
  insert_sorted→In le x y (z ∷ zs) h = elim (Bool-cases (le y z)) [
    | inl e ↦ rw e at h
    | inr e ↦ elim (rw e at h) [
      | inl i ↦ inr (inl i)
      | inr i ↦ elim (insert_sorted→In le x y zs i) [ inl j ↦ inl j | inr j ↦ inr (inr j) ]
    ]
  ]

  In→insert_sorted :
      (le : A → A → Bool) (x y : A) (rows : List A)
      → (y ≡ x) ⊎ In x rows
      → In x (insert_sorted le y rows)
  In→insert_sorted le x y [] h = h
  In→insert_sorted le x y (z ∷ zs) h = elim (Bool-cases (le y z)) [
    | inl e ↦ rw e h
    | inr e ↦ rw e (elim h [
      | inl i ↦ inr (In→insert_sorted le x y zs (inl i))
      | inr (inl i) ↦ inl i
      | inr (inr i) ↦ inr (In→insert_sorted le x y zs (inr i))
    ])
  ]

  order_by→In : (le : A → A → Bool) (x : A) (rows : List A) → In x (order_by le rows) → In x rows
  order_by→In le x [] h = h
  order_by→In le x (y ∷ ys) h = elim (insert_sorted→In le x y (order_by le ys) h) [
    | inl i ↦ inl i
    | inr i ↦ inr (order_by→In le x ys i)
  ]

  In→order_by : (le : A → A → Bool) (x : A) (rows : List A) → In x rows → In x (order_by le rows)
  In→order_by le x [] h = h
  In→order_by le x (y ∷ ys) (inl h) = In→insert_sorted le x y (order_by le ys) (inl h)
  In→order_by le x (y ∷ ys) (inr h) =
      In→insert_sorted le x y (order_by le ys) (inr (In→order_by le x ys h))

  pub In-order_by :
      (le : A → A → Bool) (x : A) (rows : List A) → In x (order_by le rows) ↔ In x rows
  In-order_by le x rows = (order_by→In le x rows, In→order_by le x rows)

pub any-In :
    {A : Type 0} (p : A → Bool) (x : A) (rows : List A) → In x rows → p x ≡ true → any p rows ≡ true
any-In p x [] i h = elim i [ ]
any-In p x (y ∷ ys) (inl same) h = rw (same, h) refl
any-In p x (y ∷ ys) (inr i) h = elim (Bool-cases (p y)) [
  | inl e ↦ rw e refl
  | inr e ↦ rw e (any-In p x ys i h)
]
