-- ===== src/Kanban/Cycles.antt =====
-- The search for dependency cycles (`_would_create_cycle` of hub/app/services/kanban_service.py)
-- against reachability.
use ampla.Shared.{
  ℕ, zero, suc, ◌+◌, ◌<◌, ◌≡◌, refl, sym, ap, subst, ◌⊎◌, inl, inr, ◌↔◌, Bool, true, false, ◌==◌,
  eq_nat, some, List, [], ◌∷◌, length, arith, Bool-cases, nat_eq_iff, if◌then◌else◌,
}
use ampla.Kanban.Deps.{Edges, successors, extend, elem, search_cycle, closes_cycle}
use ampla.Kanban.Graph.{
  HasEdge, Reach, here, step, In, elem→In, In-extend, In-extend_right, In-extend_left,
  length-extend, In-successors, HasEdge-successors,
}

-- ---- the loop ends ----

-- The edges whose source the loop has not seen.
abbrev unseen : List ℕ → Edges → ℕ
unseen seen [] = 0
unseen seen ((a, b) ∷ edges) = if elem a seen then unseen seen edges else suc (unseen seen edges)

nat_eq_symm : (a b : ℕ) → (a == b) ≡ false → (b == a) ≡ false
nat_eq_symm a b h = ground (arith, h)

-- Seeing a node moves its edges from the unseen ones to the stack.
unseen-cons :
    (node : ℕ) (seen : List ℕ) (edges : Edges)
    → elem node seen ≡ false
    → unseen seen edges ≡ length (successors node edges) + unseen (node ∷ seen) edges
unseen-cons node seen [] h = refl
unseen-cons node seen ((a, b) ∷ edges) h = elim (Bool-cases (a == node)) [
  | inl e ↦
      rw (e, seen_here ((nat_eq_iff a node).0 e), elem-same ((nat_eq_iff a node).0 e))
        (omega (arith, unseen-cons node seen edges h))
  | inr e ↦ elim (Bool-cases (elem a seen)) [
    | inl f ↦ rw (e, f, nat_eq_symm a node e) (unseen-cons node seen edges h)
    | inr f ↦ rw (e, f, nat_eq_symm a node e) (omega (arith, unseen-cons node seen edges h))
  ]
]
  where
    seen_here : a ≡ node → elem a seen ≡ false
    seen_here e = rw e h

    elem-same : a ≡ node → (node == a) ≡ true
    elem-same e = (nat_eq_iff node a).1 (sym e)

-- Each turn takes one from the edges unseen and the nodes on the stack.
search_cycle-returns :
    (fuel : ℕ) (edges : Edges) (card_id : ℕ) (seen stack : List ℕ)
    → unseen seen edges + length stack < fuel
    → (b : Bool) × (search_cycle fuel edges card_id seen stack ≡ some b)
unfolding search_cycle
search_cycle-returns zero edges card_id seen stack h = let out : ⊥ = omega arith in elim out [ ]
search_cycle-returns (suc fuel) edges card_id seen [] h = (false, refl)
search_cycle-returns (suc fuel) edges card_id seen (node ∷ stack) h =
    elim (Bool-cases (node == card_id)) [
      | inl e ↦ (true, rw e refl)
      | inr e ↦ elim (Bool-cases (elem node seen)) [
        | inl f ↦ rw (e, f) (search_cycle-returns fuel edges card_id seen stack (omega arith))
        | inr f ↦
            rw (e, f)
              (search_cycle-returns fuel edges card_id (node ∷ seen)
                (extend (successors node edges) stack)
                (omega (
                  arith,
                  unseen-cons node seen edges f,
                  length-extend (successors node edges) stack,
                )))
      ]
    ]

-- ---- what it answers ----

abbrev Reaches : Edges → ℕ → List ℕ → Type 0
Reaches edges card_id stack = (n : ℕ) × In n stack × Reach edges n card_id

Reaches-further :
    (edges : Edges) (card_id node : ℕ) (stack : List ℕ)
    → Reaches edges card_id (extend (successors node edges) stack)
    → Reaches edges card_id (node ∷ stack)
Reaches-further edges card_id node stack (n, i, r) =
    elim (In-extend n (successors node edges) stack i) [
      | inl j ↦ (node, inl refl, step (In-successors node n edges j) r)
      | inr j ↦ (n, inr j, r)
    ]

search_cycle-true :
    (fuel : ℕ) (edges : Edges) (card_id : ℕ) (seen stack : List ℕ)
    → search_cycle fuel edges card_id seen stack ≡ some true
    → Reaches edges card_id stack
unfolding search_cycle
search_cycle-true zero edges card_id seen stack h = ground (arith, h)
search_cycle-true (suc fuel) edges card_id seen [] h = ground (arith, h)
search_cycle-true (suc fuel) edges card_id seen (node ∷ stack) h =
    elim (Bool-cases (node == card_id)) [
      | inl e ↦ (node, inl refl, subst (Reach edges node) ((nat_eq_iff node card_id).0 e) here)
      | inr e ↦ elim (Bool-cases (elem node seen)) [
        | inl f ↦ keep (search_cycle-true fuel edges card_id seen stack (rw (e, f) at h))
        | inr f ↦ Reaches-further edges card_id node stack (
            search_cycle-true fuel edges card_id (node ∷ seen)
              (extend (successors node edges) stack) (rw (e, f) at h))
      ]
    ]
  where
    keep : Reaches edges card_id stack → Reaches edges card_id (node ∷ stack)
    keep (n, i, r) = (n, inr i, r)

-- The successors of the nodes seen are seen or on the stack.
abbrev IsClosed : Edges → List ℕ → List ℕ → Type 0
IsClosed edges seen stack = (a b : ℕ) → In a seen → HasEdge a b edges → In b seen ⊎ In b stack

stays_seen :
    (edges : Edges) (seen : List ℕ)
    → IsClosed edges seen []
    → (a b : ℕ) → Reach edges a b
    → In a seen
    → In b seen
stays_seen edges seen closed a _ here i = i
stays_seen edges seen closed a c (step {b = b} e r) i = elim (closed a b i e) [
  | inl j ↦ stays_seen edges seen closed b c r j
  | inr j ↦ elim j [ ]
]

-- A node that was seen before leaves the stack.
IsClosed-again :
    (edges : Edges) (node : ℕ) (seen stack : List ℕ)
    → In node seen
    → IsClosed edges seen (node ∷ stack)
    → IsClosed edges seen stack
IsClosed-again edges node seen stack i closed a b j e = elim (closed a b j e) [
  | inl k ↦ inl k
  | inr (inl p) ↦ inl (subst (λ n. In n seen) p i)
  | inr (inr k) ↦ inr k
]

-- A new node goes to the seen ones, and its successors go to the stack.
IsClosed-further :
    (edges : Edges) (node : ℕ) (seen stack : List ℕ)
    → IsClosed edges seen (node ∷ stack)
    → IsClosed edges (node ∷ seen) (extend (successors node edges) stack)
IsClosed-further edges node seen stack closed a b (inl p) e = inr (
    In-extend_left b (successors node edges) stack
      (HasEdge-successors node b edges (subst (λ n. HasEdge n b edges) (sym p) e)))
IsClosed-further edges node seen stack closed a b (inr j) e = elim (closed a b j e) [
  | inl k ↦ inl (inr k)
  | inr (inl p) ↦ inl (inl p)
  | inr (inr k) ↦ inr (In-extend_right b (successors node edges) stack k)
]

search_cycle-false :
    (fuel : ℕ) (edges : Edges) (card_id : ℕ) (seen stack : List ℕ)
    → IsClosed edges seen stack
    → ¬ (In card_id seen)
    → search_cycle fuel edges card_id seen stack ≡ some false
    → (n : ℕ) → In n seen ⊎ In n stack
    → ¬ (Reach edges n card_id)
unfolding search_cycle
search_cycle-false zero edges card_id seen stack closed absent h n i r = ground (arith, h)
search_cycle-false (suc fuel) edges card_id seen [] closed absent h n (inl i) r =
    absent (stays_seen edges seen closed n card_id r i)
search_cycle-false (suc fuel) edges card_id seen [] closed absent h n (inr i) r = elim i [ ]
search_cycle-false (suc fuel) edges card_id seen (node ∷ stack) closed absent h n i r =
    elim (Bool-cases (node == card_id)) [
      | inl e ↦ true_is_false (rw e at h)
      | inr e ↦ elim (Bool-cases (elem node seen)) [
        | inl f ↦
            search_cycle-false fuel edges card_id seen stack
              (IsClosed-again edges node seen stack (elem→In node seen f) closed) absent
              (rw (e, f) at h) n (off_stack (elem→In node seen f) i) r
        | inr f ↦
            search_cycle-false fuel edges card_id (node ∷ seen)
              (extend (successors node edges) stack) (IsClosed-further edges node seen stack closed)
              (still_absent e) (rw (e, f) at h) n (onto_seen i) r
      ]
    ]
  where
    true_is_false : some true ≡ some false → ⊥
    true_is_false p = ground (arith, p)

    off_stack : In node seen → In n seen ⊎ In n (node ∷ stack) → In n seen ⊎ In n stack
    off_stack j (inl k) = inl k
    off_stack j (inr (inl p)) = inl (subst (λ m. In m seen) p j)
    off_stack j (inr (inr k)) = inr k

    still_absent : (node == card_id) ≡ false → ¬ (In card_id (node ∷ seen))
    still_absent e (inl p) = ground (arith, nat_eq_iff node card_id)
    still_absent e (inr k) = absent k

    onto_seen :
        In n seen ⊎ In n (node ∷ stack)
        → In n (node ∷ seen) ⊎ In n (extend (successors node edges) stack)
    onto_seen (inl k) = inl (inr k)
    onto_seen (inr (inl p)) = inl (inl p)
    onto_seen (inr (inr k)) = inr (In-extend_right n (successors node edges) stack k)

abbrev pub Answers : Edges → ℕ → ℕ → Bool → Type 0
Answers edges a b answer = (answer ≡ true) ↔ Reach edges a b

answers :
    (edges : Edges) (card_id depends_on_id : ℕ) (b : Bool)
    → closes_cycle edges card_id depends_on_id ≡ some b
    → Answers edges depends_on_id card_id b
unfolding closes_cycle
answers edges card_id depends_on_id true h = (
  λ _. only (search_cycle-true (length edges + 2) edges card_id [] (depends_on_id ∷ []) h),
  λ _. refl,
)
  where
    only : Reaches edges card_id (depends_on_id ∷ []) → Reach edges depends_on_id card_id
    only (n, inl p, r) = subst (λ m. Reach edges m card_id) (sym p) r
    only (n, inr j, r) = elim j [ ]
answers edges card_id depends_on_id false h = (
  λ p. ground (arith, p),
  λ r.
      elim (search_cycle-false (length edges + 2) edges card_id [] (depends_on_id ∷ [])
        (λ a b i e. elim i [ ]) (λ i. i) h depends_on_id (inr (inl refl)) r) [ ],
)

unseen-none : (edges : Edges) → unseen [] edges ≡ length edges
unseen-none [] = refl
unseen-none ((a, b) ∷ edges) = ap suc (unseen-none edges)

walk_ends :
    (edges : Edges) (card_id depends_on_id : ℕ)
    → (b : Bool) × (closes_cycle edges card_id depends_on_id ≡ some b)
unfolding closes_cycle
walk_ends edges card_id depends_on_id =
    search_cycle-returns (length edges + 2) edges card_id [] (depends_on_id ∷ [])
      (omega (arith, unseen-none edges))

-- The search for a cycle always ends, within a turn for each dependency of the board and two more,
-- and it answers that the new dependency closes a cycle exactly if there is a path of dependencies
-- from the card depended on to the card.
pub closes_cycle_lem :
    (edges : Edges) (card_id depends_on_id : ℕ)
    → (b : Bool) × (closes_cycle edges card_id depends_on_id ≡ some b)
      × ((b ≡ true) ↔ Reach edges depends_on_id card_id)
closes_cycle_lem edges card_id depends_on_id =
    let e = walk_ends edges card_id depends_on_id in
    (e.0, e.1, answers edges card_id depends_on_id e.0 e.1)
