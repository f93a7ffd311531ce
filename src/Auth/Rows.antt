-- ===== src/Auth/Rows.antt =====
-- The users table under the writes of the services: the keys stay distinct, and how many
-- administrators there are.
use ampla.Shared.{
  ℕ, ◌+◌, ◌<◌, ◌≡◌, inl, inr, refl, sym, Bool, true, false, ◌==◌, eq_int, some, List, [], ◌∷◌, ◌++◌,
  arith, Bool-cases, All, select, length, find_row, update_rows, int_eq_iff,
}
use ampla.Models.{User, UserId}
use ampla.Hub.{Db}
use ampla.Auth.Repo.{with_id, admin_row, count_admins}

-- No row has the key.
abbrev pub Free : UserId → List User → Type 0
Free i rows = All (λ (v : User). with_id i v ≡ false) rows

abbrev pub DistinctUsers : List User → Type 0
DistinctUsers [] = Unit
DistinctUsers (u ∷ us) = Free u.id us × DistinctUsers us

-- Keys are distinct, and there is an administrator.
abbrev pub Governed : Db → Type 0
Governed db = DistinctUsers db.users × (0 < count_admins db)

abbrev pub admins : List User → ℕ
admins rows = length (select admin_row rows)

abbrev pub bit : Bool → ℕ
bit true = 1
bit false = 0

pub same_key : (a b : UserId) → (a == b) ≡ true → a ≡ b
same_key a b h = (int_eq_iff a b).0 h

pub other_key : (a b : UserId) → (a == b) ≡ false → (b == a) ≡ false
other_key a b h = elim (Bool-cases (b == a)) [
  | inr e ↦ e
  | inl e ↦
      let same = (int_eq_iff a b).1 (sym (same_key b a e)) in
      let out : ⊥ = ground (arith, h, same) in elim out [ ]
]

untouched :
    (i : UserId) (new : User) (rows : List User)
    → Free i rows
    → update_rows (with_id i) (λ _. new) rows ≡ rows
untouched i new [] h = refl
untouched i new (v ∷ vs) h = rw (h.0, untouched i new vs h.1) refl

admins-head : (u : User) (us : List User) → admins (u ∷ us) ≡ bit (admin_row u) + admins us
admins-head u us = elim (Bool-cases (admin_row u)) [
  | inl e ↦ rw e (omega arith)
  | inr e ↦ rw e (omega arith)
]

-- Overwriting the row of a key moves the count by what the row was and what it is.
pub admins-update_rows :
    (i : UserId) (old new : User) (rows : List User)
    → DistinctUsers rows
    → find_row (with_id i) rows ≡ some old
    → admins (update_rows (with_id i) (λ _. new) rows) + bit (admin_row old)
      ≡ admins rows + bit (admin_row new)
admins-update_rows i old new [] d h = let out : ⊥ = ground (arith, h) in elim out [ ]
admins-update_rows i old new (v ∷ vs) d h = elim (Bool-cases (with_id i v)) [
  | inl e ↦
      let same : v ≡ old = same_row (rw e at h) in
      let tail = untouched i new vs (rw (same_key v.id i e) at d.0) in
      rw (e, tail, ← same) (omega (arith, admins-head new vs, admins-head v vs))
  | inr e ↦ rw e (
      omega (
        arith,
        admins-update_rows i old new vs d.1 (rw e at h),
        admins-head v vs,
        admins-head v (update_rows (with_id i) (λ _. new) vs),
      ))
]
  where
    same_row : some v ≡ some old → v ≡ old
    same_row k = cc

Free-update_rows :
    (j : UserId) (new : User) (rows : List User)
    → Free j rows
    → Free j (update_rows (with_id new.id) (λ _. new) rows)
Free-update_rows j new [] h = tt
Free-update_rows j new (v ∷ vs) h = elim (Bool-cases (with_id new.id v)) [
  | inl e ↦ rw e (rw (same_key v.id new.id e) at h.0, Free-update_rows j new vs h.1)
  | inr e ↦ rw e (h.0, Free-update_rows j new vs h.1)
]

pub DistinctUsers-update_rows :
    (new : User) (rows : List User)
    → DistinctUsers rows
    → DistinctUsers (update_rows (with_id new.id) (λ _. new) rows)
DistinctUsers-update_rows new [] d = tt
DistinctUsers-update_rows new (v ∷ vs) d = elim (Bool-cases (with_id new.id v)) [
  | inl e ↦ rw e (
    Free-update_rows new.id new vs (rw (same_key v.id new.id e) at d.0),
    DistinctUsers-update_rows new vs d.1,
  )
  | inr e ↦ rw e (Free-update_rows v.id new vs d.0, DistinctUsers-update_rows new vs d.1)
]

-- ---- one more row ----

Free-add :
    (j : UserId) (new : User) (rows : List User)
    → Free j rows
    → with_id j new ≡ false
    → Free j (rows ++ new ∷ [])
Free-add j new [] h k = (k, tt)
Free-add j new (v ∷ vs) h k = (h.0, Free-add j new vs h.1 k)

pub DistinctUsers-add :
    (new : User) (rows : List User)
    → DistinctUsers rows
    → Free new.id rows
    → DistinctUsers (rows ++ new ∷ [])
DistinctUsers-add new [] d f = (tt, tt)
DistinctUsers-add new (v ∷ vs) d f =
    (Free-add v.id new vs d.0 (other_key v.id new.id f.0), DistinctUsers-add new vs d.1 f.1)

pub admins-add :
    (new : User) (rows : List User) → admins (rows ++ new ∷ []) ≡ admins rows + bit (admin_row new)
admins-add new [] = elim (Bool-cases (admin_row new)) [ inl e ↦ rw e refl | inr e ↦ rw e refl ]
admins-add new (v ∷ vs) =
    omega (arith, admins-head v (vs ++ new ∷ []), admins-head v vs, admins-add new vs)
