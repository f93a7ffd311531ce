-- ===== src/Auth/Governed.antt =====
-- The writes that keep an administrator (hub/app/services/auth_service.py).
use ampla.Shared.{
  ℕ, ◌+◌, ◌<◌, ◌≡◌, ◌≢◌, inl, inr, refl, ap, Bool, false, ◌==◌, eq_int, ℤ, pos, negsuc, some, List,
  [], ◌∷◌, map, arith, Bool-cases, All, find_row, int_eq_iff, nat_eq, nat_eq_iff,
}
use ampla.Models.{User}
use ampla.Hub.{Db, Env}
use ampla.Inbox.Keys.{FreshIds}
use ampla.Auth.Repo.{
  with_id, admin_row, count_admins, get_by_id, save_user, add_user, user_keys, key_of,
}
use ampla.Auth.Rows.{
  Free, DistinctUsers, Governed, bit, admins-update_rows, admins-add, DistinctUsers-update_rows,
  DistinctUsers-add, same_key, other_key,
}

-- With distinct keys a row that some test finds is the row of its key.
pub found_by_key :
    (p : User → Bool) (u : User) (rows : List User)
    → DistinctUsers rows
    → find_row p rows ≡ some u
    → find_row (with_id u.id) rows ≡ some u
found_by_key p u [] d h = let out : ⊥ = ground (arith, h) in elim out [ ]
found_by_key p u (v ∷ vs) d h = elim (Bool-cases (p v)) [
  | inl e ↦ let same = same_row (rw e at h) in rw (same, (int_eq_iff u.id u.id).1 refl) refl
  | inr e ↦
      let found = found_by_key p u vs d.1 (rw e at h) in
      rw (other_key u.id v.id (apart vs d.0 found)) found
]
  where
    same_row : some v ≡ some u → v ≡ u
    same_row k = cc

    apart :
        (rows : List User)
        → Free v.id rows
        → find_row (with_id u.id) rows ≡ some u
        → (u.id == v.id) ≡ false
    apart [] f k = let out : ⊥ = ground (arith, k) in elim out [ ]
    apart (w ∷ ws) f k = elim (Bool-cases (with_id u.id w)) [
      | inl e ↦ rw (same_key w.id u.id e) at f.0
      | inr e ↦ apart ws f.1 (rw e at k)
    ]

pub save_user-Governed :
    (old new : User) (db : Db)
    → Governed db
    → get_by_id new.id db ≡ some old
    → admin_row new ≡ admin_row old
    → Governed (save_user new db).1
unfolding save_user
save_user-Governed old new db g h same = (
  DistinctUsers-update_rows new db.users g.0,
  omega (arith, g.1, ap bit same, admins-update_rows new.id old new db.users g.0 h),
)

-- A change of role where another administrator is left, or the user is one.
pub assign-Governed :
    (old new : User) (db : Db)
    → Governed db
    → get_by_id new.id db ≡ some old
    → bit (admin_row old) < count_admins db + bit (admin_row new)
    → Governed (save_user new db).1
unfolding save_user
assign-Governed old new db g h left = (
  DistinctUsers-update_rows new db.users g.0,
  omega (arith, left, admins-update_rows new.id old new db.users g.0 h),
)

key_of-Free :
    (k : ℕ) (rows : List User)
    → All (λ i. i ≢ k) (map (λ (u : User). key_of u.id) rows)
    → Free (pos k) rows
key_of-Free k [] h = tt
key_of-Free k (v ∷ vs) h = (apart v.id h.0, key_of-Free k vs h.1)
  where
    apart : (i : ℤ) → key_of i ≢ k → (i == pos k) ≡ false
    apart (pos n) h = elim (Bool-cases (nat_eq n k)) [
      | inl e ↦ let out : ⊥ = h ((nat_eq_iff n k).0 e) in elim out [ ]
      | inr e ↦ e
    ]
    apart (negsuc n) h = refl

pub add_user-Governed :
    (env : Env) (new : User) (db : Db)
    → FreshIds env
    → Governed db
    → new.id ≡ pos (env.new_id (user_keys db))
    → Governed (add_user new db).1
unfolding add_user
add_user-Governed env new db fresh g e = (
  DistinctUsers-add new db.users g.0
      (rw e (key_of-Free (env.new_id (user_keys db)) db.users (fresh (user_keys db)))),
  omega (arith, g.1, admins-add new db.users),
)
