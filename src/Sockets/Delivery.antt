-- ===== src/Sockets/Delivery.antt =====
-- Whom the broadcasts of hub/app/ws/connection_manager.py reach. The frames of boards are sent by
-- hub/app/api/routes/ws.py with the owner, the visibility and the members of the board.
use ampla.Shared.{
  ℕ, ◌≡◌, refl, sym, ap, ◌∙◌, inl, inr, Bool, true, false, ◌&&◌, ◌||◌, ◌==◌, eq_int, int_eq_iff,
  eq_nat, List, [], ◌∷◌, ◌++◌, map, select, any, arith, Bool-cases, if◌then◌else◌,
}
use ampla.Models.{User, UserId, KanbanBoard, KanbanBoardMember, is_team, is_admin}
use ampla.Hub.{Db}
use ampla.Hub.Exec.{Result, ok}
use ampla.Kanban.Tables.{is_member}
use ampla.Kanban.Access.{can_see, human_can_see}
use ampla.Kanban.Agents.{board_member_ids}
use ampla.Sockets.{ObserverConn, ConnectionManager, send_all, is_authorized, notify_board}

pub append-snoc :
    {A : Type 0} (xs : List A) (x : A) (ys : List A) → (xs ++ x ∷ []) ++ ys ≡ xs ++ x ∷ ys
append-snoc [] x ys = refl
append-snoc (z ∷ xs) x ys = ap (λ l. z ∷ l) (append-snoc xs x ys)

pub append_nil : {A : Type 0} (xs : List A) → xs ++ [] ≡ xs
append_nil [] = refl
append_nil (x ∷ xs) = ap (λ l. x ∷ l) (append_nil xs)

module _ {Payload : Type 0} (alive : ℕ → Bool) where
  -- The frames that arrive are those on live connections, in order.
  pub arrived-send_all :
      (sockets : List ℕ) (payload : Payload) (m : ConnectionManager Payload)
      → (send_all alive sockets payload m).arrived
        ≡ m.arrived ++ map (λ ws. (ws, payload)) (select alive sockets)
  arrived-send_all [] payload m = sym (append_nil m.arrived)
  arrived-send_all (ws ∷ rest) payload m = sent (alive ws) (arrived-send_all rest payload)
    where
      sent :
          (live : Bool)
          → ((n : ConnectionManager Payload)
              → (send_all alive rest payload n).arrived
                ≡ n.arrived ++ map (λ w. (w, payload)) (select alive rest))
          → (send_all alive rest payload
              (if live then record m { arrived = m.arrived ++ (ws, payload) ∷ [] } else m)).arrived
            ≡ m.arrived
              ++ map
                  (λ w. (w, payload))
                  (if live then ws ∷ select alive rest else select alive rest)
      sent false h = h m
      sent true h =
          h (record m { arrived = m.arrived ++ (ws, payload) ∷ [] })
          ∙ append-snoc m.arrived (ws, payload) (map (λ w. (w, payload)) (select alive rest))

-- ---- who may see a board ----

any-map :
    {A B : Type 0} (p : B → Bool) (f : A → B) (xs : List A)
    → any p (map f xs) ≡ any (λ x. p (f x)) xs
any-map p f [] = refl
any-map p f (x ∷ xs) = elim (Bool-cases (p (f x))) [
  | inl e ↦ rw e refl
  | inr e ↦ rw e (any-map p f xs)
]

any-select :
    {A : Type 0} (p q : A → Bool) (xs : List A) → any p (select q xs) ≡ any (λ x. q x && p x) xs
any-select p q [] = refl
any-select p q (x ∷ xs) = elim (Bool-cases (q x)) [
  | inl e ↦ elim (Bool-cases (p x)) [
    | inl f ↦ rw (e, f) refl
    | inr f ↦ rw (e, f) (any-select p q xs)
  ]
  | inr e ↦ rw e (any-select p q xs)
]

abbrev ids : Result (List UserId) → List UserId
ids (ok user_ids) = user_ids
ids _ = []

-- The members that the socket route passes: none for a board of the team.
abbrev pub members_for : KanbanBoard → Db → List UserId
members_for b db = if is_team b.visibility then [] else ids (board_member_ids b.id db).0

shared_with :
    (b : KanbanBoard) (user_id : UserId) (db : Db)
    → any
        (λ i. i == user_id)
        (map
          (λ (m : KanbanBoardMember). m.user_id)
          (select (λ (m : KanbanBoardMember). m.board_id == b.id) db.members))
      ≡ is_member b.id user_id db
shared_with b user_id db =
    any-map (λ i. i == user_id) (λ (m : KanbanBoardMember). m.user_id) _
    ∙ any-select (λ (m : KanbanBoardMember). m.user_id == user_id) _ db.members

int_sym : (a c : UserId) → (a == c) ≡ (c == a)
int_sym a c = elim (Bool-cases (a == c)) [
  | inl e ↦ rw ((int_eq_iff a c).0 e) refl
  | inr e ↦ elim (Bool-cases (c == a)) [
    | inr f ↦ rw (e, f) refl
    | inl f ↦ rw ((int_eq_iff c a).0 f) refl
  ]
]

-- The observer is of a user with its id and role.
is_authorized-can_see :
    (o : ObserverConn) (u : User) (b : KanbanBoard) (db : Db)
    → u.id ≡ o.user_id
    → u.role ≡ o.role
    → is_authorized b.owner_id (is_team b.visibility) (members_for b db) o ≡ can_see u b db
unfolding can_see human_can_see board_member_ids
is_authorized-can_see o u b db i r = elim (Bool-cases (is_team b.visibility)) [
  | inl t ↦ rw t (ground arith)
  | inr t ↦
      rw (t, shared_with b o.user_id db, i, r, int_sym o.user_id b.owner_id)
        (by_parts (is_admin o.role) (b.owner_id == o.user_id) (is_member b.id o.user_id db))
]
  where
    by_parts :
        (role owner shared : Bool)
        → (owner || (role || shared)) ≡ ((role || (owner || false)) || shared)
    by_parts role owner shared = ground arith

-- A frame of a board, sent with the data that the socket route reads, arrives at exactly the live
-- observers whose user may see the board, in the order of their registration, where `user_of` gives
-- each observer's user with the same id and role.
pub notify_board-can_see :
    {Payload : Type 0} (alive : ℕ → Bool) (user_of : ObserverConn → User) (payload : Payload)
    (b : KanbanBoard) (db : Db) (m : ConnectionManager Payload)
    → ((o : ObserverConn) → ((user_of o).id ≡ o.user_id) × ((user_of o).role ≡ o.role))
    → (notify_board alive payload b.owner_id (is_team b.visibility) (members_for b db) m).arrived
      ≡ m.arrived
        ++ map
            (λ ws. (ws, payload))
            (select alive (
              map
                (λ (o : ObserverConn). o.ws)
                (select (λ o. can_see (user_of o) b db) m.observers)))
unfolding notify_board
notify_board-can_see alive user_of payload b db m users =
    arrived-send_all alive (map (λ (o : ObserverConn). o.ws) (select wanted m.observers)) payload m
    ∙ ap
        (λ os.
          m.arrived
          ++ map (λ ws. (ws, payload)) (select alive (map (λ (o : ObserverConn). o.ws) os)))
        (same_choice m.observers)
  where
    wanted : ObserverConn → Bool
    wanted = is_authorized b.owner_id (is_team b.visibility) (members_for b db)

    same_choice :
        (os : List ObserverConn)
        → select (is_authorized b.owner_id (is_team b.visibility) (members_for b db)) os
          ≡ select (λ o. can_see (user_of o) b db) os
    same_choice [] = refl
    same_choice (o ∷ os) =
        rw (is_authorized-can_see o (user_of o) b db (users o).0 (users o).1, same_choice os) refl
