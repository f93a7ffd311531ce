-- ===== src/Agents/Names.antt =====
-- Rows found by their slug, under the writes of the agent and group services.
use ampla.Shared.{
  ◌≡◌, ◌⊎◌, inl, inr, refl, String, Bool, true, false, ◌==◌, eq_string, Option, none, some, List,
  [], ◌∷◌, ◌++◌, ◌∙◌, arith, Bool-cases, select, find_row, update_rows,
}
use ampla.Agents.Service.{is_there}

pub eq_refl : (s : String) → (s == s) ≡ true
eq_refl s = (eq_string.same_iff s s).1 refl

pub eq_same : (s t : String) → (s == t) ≡ true → s ≡ t
eq_same s t h = (eq_string.same_iff s t).0 h

module _ {A : Type 0} where
  pub is_there-none : (o : Option A) → is_there o ≡ false → o ≡ none
  is_there-none none h = refl
  is_there-none (some a) h = let out : ⊥ = ground (arith, h) in elim out [ ]

  -- What a query finds stays found when a row is added, and a row is found if it passes.
  pub find_row-snoc :
      (p : A → Bool) (a : A) (rows : List A)
      → p a ≡ false
      → find_row p (rows ++ a ∷ []) ≡ find_row p rows
  find_row-snoc p a [] h = rw h refl
  find_row-snoc p a (x ∷ xs) h = elim (Bool-cases (p x)) [
    | inl e ↦ rw e refl
    | inr e ↦ rw e (find_row-snoc p a xs h)
  ]

  pub there-snoc :
      (p : A → Bool) (a : A) (rows : List A)
      → (is_there (find_row p rows) ≡ true) ⊎ (p a ≡ true)
      → is_there (find_row p (rows ++ a ∷ [])) ≡ true
  there-snoc p a [] (inl h) = let out : ⊥ = ground (arith, h) in elim out [ ]
  there-snoc p a [] (inr h) = rw h refl
  there-snoc p a (x ∷ xs) h = elim (Bool-cases (p x)) [
    | inl e ↦ rw e refl
    | inr e ↦ rw e (there-snoc p a xs (rw e at h))
  ]

  pub find_row-select :
      (p q : A → Bool) (rows : List A) → find_row p rows ≡ none → find_row p (select q rows) ≡ none
  find_row-select p q [] h = refl
  find_row-select p q (x ∷ xs) h = elim (Bool-cases (p x)) [
    | inl e ↦ let out : ⊥ = found (rw e at h) in elim out [ ]
    | inr e ↦ elim (Bool-cases (q x)) [
      | inl f ↦ rw (f, e) (find_row-select p q xs (rw e at h))
      | inr f ↦ rw f (find_row-select p q xs (rw e at h))
    ]
  ]
    where
      found : some x ≡ none → ⊥
      found k = cc

  -- Rows that the selection does not touch are still found.
  pub there-select :
      (p q : A → Bool) (rows : List A)
      → ((x : A) → p x ≡ true → q x ≡ true)
      → is_there (find_row p rows) ≡ true
      → is_there (find_row p (select q rows)) ≡ true
  there-select p q [] k h = h
  there-select p q (x ∷ xs) k h = elim (Bool-cases (p x)) [
    | inl e ↦ rw (k x e, e) refl
    | inr e ↦ elim (Bool-cases (q x)) [
      | inl f ↦ rw (f, e) (there-select p q xs k (rw e at h))
      | inr f ↦ rw f (there-select p q xs k (rw e at h))
    ]
  ]

  -- Overwriting a row by one with the same key changes nothing of what is there.
  pub there-update_rows :
      (p q : A → Bool) (new : A) (rows : List A)
      → ((x : A) → q x ≡ true → p new ≡ p x)
      → is_there (find_row p (update_rows q (λ _. new) rows)) ≡ is_there (find_row p rows)
  there-update_rows p q new [] k = refl
  there-update_rows p q new (x ∷ xs) k = elim (Bool-cases (q x)) [
    | inl f ↦ elim (Bool-cases (p x)) [
      | inl e ↦ let g = k x f ∙ e in rw (f, g, e) refl
      | inr e ↦ let g = k x f ∙ e in rw (f, g, e) (there-update_rows p q new xs k)
    ]
    | inr f ↦ elim (Bool-cases (p x)) [
      | inl e ↦ rw (f, e) refl
      | inr e ↦ rw (f, e) (there-update_rows p q new xs k)
    ]
  ]
