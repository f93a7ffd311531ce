-- ===== src/Kanban/Acyclic.antt =====
-- The dependencies of a board have no cycle (hub/app/services/kanban_service.py, `add_dependency`).
use mathlib.Core.List.{map-append}
use ampla.Shared.{
  ℕ, ◌≡◌, refl, sym, subst, ◌⊎◌, inl, inr, Bool, true, false, ◌==◌, eq_nat, some, List, [], ◌∷◌,
  ◌++◌, any, arith, Bool-cases, Option-cases, nat_eq_iff, select, ◌&&◌, find_row, ◌∙◌,
}
use ampla.Models.{User, KanbanCard, KanbanCardDep}
use ampla.Hub.{Db, Env}
use ampla.Hub.Exec.{ok, audit}
use ampla.Kanban.Cards.{get_card_row, get_dep, add_dep, new_dep_id, deps_for_board}
use ampla.Kanban.Deps.{Edges, would_create_cycle, insert_dependency, add_dependency, on_board_of}
use ampla.Kanban.Graph.{HasEdge, Reach, here, step}
use ampla.Kanban.Cycles.{closes_cycle_lem}
use ampla.Kanban.Reads.{get_card-cases, with_dependencies}
use ampla.Kanban.CardOps.{get_card}

-- No card can be reached from a card that it depends on.
abbrev pub Acyclic : Edges → Type 0
Acyclic edges = (a b : ℕ) → HasEdge a b edges → ¬ (Reach edges b a)

Reach-trans : {edges : Edges} {a b c : ℕ} → Reach edges a b → Reach edges b c → Reach edges a c
Reach-trans here s = s
Reach-trans (step e r) s = step e (Reach-trans r s)

HasEdge-snoc :
    (a b x y : ℕ) (edges : Edges)
    → HasEdge a b (edges ++ (x, y) ∷ [])
    → HasEdge a b edges ⊎ ((x ≡ a) × (y ≡ b))
HasEdge-snoc a b x y [] (inl p) = inr p
HasEdge-snoc a b x y [] (inr h) = elim h [ ]
HasEdge-snoc a b x y (e ∷ edges) (inl p) = inl (inl p)
HasEdge-snoc a b x y (e ∷ edges) (inr h) = elim (HasEdge-snoc a b x y edges h) [
  | inl i ↦ inl (inr i)
  | inr p ↦ inr p
]

-- A path in the graph with a new edge is a path without it, or leads to its source and from its target.
Reach-snoc :
    (edges : Edges) (x y a b : ℕ)
    → Reach (edges ++ (x, y) ∷ []) a b
    → Reach edges a b ⊎ (Reach edges a x × Reach edges y b)
Reach-snoc edges x y a _ here = inl here
Reach-snoc edges x y a b (step {b = m} e r) = elim (HasEdge-snoc a m x y edges e) [
  | inl i ↦ elim (Reach-snoc edges x y m b r) [
    | inl s ↦ inl (step i s)
    | inr (s, t) ↦ inr (step i s, t)
  ]
  | inr (p, q) ↦ elim (Reach-snoc edges x y m b r) [
    | inl s ↦ inr (subst (λ n. Reach edges n x) p here, subst (λ n. Reach edges n b) (sym q) s)
    | inr (s, t) ↦ inr (subst (λ n. Reach edges n x) p here, t)
  ]
]

Acyclic-snoc :
    (edges : Edges) (x y : ℕ) → Acyclic edges → ¬ (Reach edges y x) → Acyclic (edges ++ (x, y) ∷ [])
Acyclic-snoc edges x y acyclic apart a b e r = elim (Reach-snoc edges x y b a r) [
  | inl s ↦ elim (HasEdge-snoc a b x y edges e) [
    | inl i ↦ acyclic a b i s
    | inr (p, q) ↦
        apart (subst (λ n. Reach edges n x) (sym q) (subst (λ n. Reach edges b n) (sym p) s))
  ]
  | inr (s, t) ↦ elim (HasEdge-snoc a b x y edges e) [
    | inl i ↦ apart (Reach-trans t (step i s))
    | inr (p, q) ↦ apart (subst (λ n. Reach edges n x) (sym q) s)
  ]
]

select-snoc :
    {A : Type 0} (p : A → Bool) (xs : List A) (x : A)
    → p x ≡ true
    → select p (xs ++ x ∷ []) ≡ select p xs ++ x ∷ []
select-snoc p [] x h = rw h refl
select-snoc p (y ∷ ys) x h = elim (Bool-cases (p y)) [
  | inl e ↦ rw (e, select-snoc p ys x h) refl
  | inr e ↦ rw (e, select-snoc p ys x h) refl
]

-- The row that is found is on its board.
pub found-on_board :
    (card_id : ℕ) (c : KanbanCard) (cards : List KanbanCard)
    → find_row (λ (d : KanbanCard). d.id == card_id) cards ≡ some c
    → any (λ (d : KanbanCard). d.id == card_id && d.board_id == c.board_id) cards ≡ true
found-on_board card_id c [] h = let out : ⊥ = ground (arith, h) in elim out [ ]
found-on_board card_id c (d ∷ ds) h = elim (Bool-cases (d.id == card_id)) [
  | inl e ↦ rw (e, same (rw e at h)) refl
  | inr e ↦ rw e (found-on_board card_id c ds (rw e at h))
]
  where
    same : some d ≡ some c → (d.board_id == c.board_id) ≡ true
    same p = (nat_eq_iff d.board_id c.board_id).1 (cc p)

insert_dependency-Acyclic :
    (env : Env) (user : User) (board_id card_id depends_on_id : ℕ) (db : Db)
    → any (λ (d : KanbanCard). d.id == card_id && d.board_id == board_id) db.cards ≡ true
    → Acyclic (deps_for_board board_id db)
    → Acyclic
        (deps_for_board board_id (insert_dependency env user board_id card_id depends_on_id db).1)
unfolding deps_for_board insert_dependency would_create_cycle add_dep audit
insert_dependency-Acyclic env user board_id card_id depends_on_id db on acyclic =
    let edges = deps_for_board board_id db in
    let found = closes_cycle_lem edges card_id depends_on_id in
    elim (Bool-cases found.0) [
      | inl e ↦ rw (found.1, e) acyclic
      | inr e ↦
          rw (found.1, e)
            (rw
              (
                select-snoc
                    (λ (d : KanbanCardDep).
                      any (λ (c : KanbanCard). c.id == d.card_id && c.board_id == board_id)
                        db.cards)
                    db.deps
                    (record {
                      id = new_dep_id env db;
                      card_id = card_id;
                      depends_on_id = depends_on_id;
                    })
                    on,
                map-append,
              )
              (Acyclic-snoc edges card_id depends_on_id acyclic
                (λ r. true_is_false (sym (found.2.1 r) ∙ e))))
    ]
  where
    true_is_false : true ≡ false → ⊥
    true_is_false p = ground (arith, p)

module _ (env : Env) (user : User) (card_id depends_on_id : ℕ) (db : Db) where
  -- The dependencies of the card's board, before and after.
  abbrev Keeps : KanbanCard → Type 0
  Keeps c =
      Acyclic (deps_for_board c.board_id db)
      → Acyclic (deps_for_board c.board_id (add_dependency env user card_id depends_on_id db).1)

  add_dependency-Keeps :
      (c : KanbanCard)
      → get_card_row card_id db ≡ some c
      → get_card user card_id db ≡ (ok (with_dependencies user card_id db c), db)
      → Keeps c
  unfolding add_dependency
  add_dependency-Keeps c f e acyclic = elim (Bool-cases (depends_on_id == card_id)) [
    | inl g ↦ rw (e, g) acyclic
    | inr g ↦
        elim (Bool-cases
          (on_board_of (with_dependencies user card_id db c) (get_card_row depends_on_id db))) [
            | inl h ↦ elim (Option-cases (get_dep card_id depends_on_id db)) [
              | inl k ↦
                  rw (e, g, h, k)
                    (insert_dependency-Acyclic env user c.board_id card_id depends_on_id db
                      (found-on_board card_id c db.cards f) acyclic)
              | inr (x, k) ↦ rw (e, g, h, k) acyclic
            ]
            | inr h ↦ rw (e, g, h) acyclic
          ]
  ]

  -- Adding a dependency, whatever it answers, leaves the dependencies of the card's board without a
  -- cycle, if they had none.
  pub add_dependency-Acyclic :
      (c : KanbanCard)
      → get_card_row card_id db ≡ some c
      → Acyclic (deps_for_board c.board_id db)
      → Acyclic (deps_for_board c.board_id (add_dependency env user card_id depends_on_id db).1)
  unfolding add_dependency
  add_dependency-Acyclic c here_is acyclic = elim (get_card-cases user card_id db) [
    | inl e ↦ rw e acyclic
    | inr (d, f, e) ↦ subst Keeps (same d c (sym f ∙ here_is)) (add_dependency-Keeps d f e) acyclic
  ]
    where
      same : (d c : KanbanCard) → some d ≡ some c → d ≡ c
      same d c p = cc
