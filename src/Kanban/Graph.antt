-- ===== src/Kanban/Graph.antt =====
-- The graph of the dependencies, for `_would_create_cycle` of
-- hub/app/services/kanban_service.py: its edges, its paths, and what the look-ups on lists answer.
use ampla.Shared.{
  ℕ, ◌+◌, ◌≡◌, refl, ◌⊎◌, inl, inr, true, ◌==◌, eq_nat, List, [], ◌∷◌, length, arith, Bool-cases,
  nat_eq_iff,
}
use ampla.Kanban.Deps.{Edges, successors, extend, elem}

-- The dependency of a on b is one of the edges.
abbrev pub HasEdge : ℕ → ℕ → Edges → Type 0
HasEdge a b [] = ⊥
HasEdge a b ((x, y) ∷ edges) = ((x ≡ a) × (y ≡ b)) ⊎ HasEdge a b edges

-- A path along the edges.
pub data Reach (edges : Edges) : ℕ → ℕ → Type 0 where
  here : {a : ℕ} → Reach edges a a
  step : {a b c : ℕ} → HasEdge a b edges → Reach edges b c → Reach edges a c

abbrev pub In : ℕ → List ℕ → Type 0
In n [] = ⊥
In n (m ∷ ms) = (m ≡ n) ⊎ In n ms

pub elem→In : (n : ℕ) (ms : List ℕ) → elem n ms ≡ true → In n ms
elem→In n [] h = ground (arith, h)
elem→In n (m ∷ ms) h = elim (Bool-cases (m == n)) [
  | inl e ↦ inl ((nat_eq_iff m n).0 e)
  | inr e ↦ inr (elem→In n ms (rw e at h))
]

pub In→elem : (n : ℕ) (ms : List ℕ) → In n ms → elem n ms ≡ true
In→elem n [] x = elim x [ ]
In→elem n (m ∷ ms) (inl e) = rw ((nat_eq_iff m n).1 e) refl
In→elem n (m ∷ ms) (inr h) = elim (Bool-cases (m == n)) [
  | inl e ↦ rw e refl
  | inr e ↦ rw e (In→elem n ms h)
]

pub In-extend : (n : ℕ) (xs stack : List ℕ) → In n (extend xs stack) → In n xs ⊎ In n stack
In-extend n [] stack h = inr h
In-extend n (x ∷ xs) stack h = elim (In-extend n xs (x ∷ stack) h) [
  | inl i ↦ inl (inr i)
  | inr (inl e) ↦ inl (inl e)
  | inr (inr i) ↦ inr i
]

pub In-extend_right : (n : ℕ) (xs stack : List ℕ) → In n stack → In n (extend xs stack)
In-extend_right n [] stack h = h
In-extend_right n (x ∷ xs) stack h = In-extend_right n xs (x ∷ stack) (inr h)

pub In-extend_left : (n : ℕ) (xs stack : List ℕ) → In n xs → In n (extend xs stack)
In-extend_left n [] stack i = elim i [ ]
In-extend_left n (x ∷ xs) stack (inl e) = In-extend_right n xs (x ∷ stack) (inl e)
In-extend_left n (x ∷ xs) stack (inr h) = In-extend_left n xs (x ∷ stack) h

pub length-extend : (xs stack : List ℕ) → length (extend xs stack) ≡ length xs + length stack
length-extend [] stack = omega arith
length-extend (x ∷ xs) stack = omega (arith, length-extend xs (x ∷ stack))

pub In-successors : (a b : ℕ) (edges : Edges) → In b (successors a edges) → HasEdge a b edges
In-successors a b [] h = elim h [ ]
In-successors a b ((x, y) ∷ edges) h = elim (Bool-cases (x == a)) [
  | inl e ↦ elim (rw e at h) [
    | inl f ↦ inl ((nat_eq_iff x a).0 e, f)
    | inr i ↦ inr (In-successors a b edges i)
  ]
  | inr e ↦ inr (In-successors a b edges (rw e at h))
]

pub HasEdge-successors : (a b : ℕ) (edges : Edges) → HasEdge a b edges → In b (successors a edges)
HasEdge-successors a b [] h = elim h [ ]
HasEdge-successors a b ((x, y) ∷ edges) (inl e) = rw ((nat_eq_iff x a).1 e.0) (inl e.1)
HasEdge-successors a b ((x, y) ∷ edges) (inr h) = elim (Bool-cases (x == a)) [
  | inl e ↦ rw e (inr (HasEdge-successors a b edges h))
  | inr e ↦ rw e (HasEdge-successors a b edges h)
]
