-- ===== src/Races.antt =====
-- Calls that overlap. Each request has its own session (hub/app/core/db.py), and a call gives way at
-- every await. SQLite's driver opens a transaction at the first write only, so that what a call has
-- read may be out of date when it writes. A call is split here where it turns from its reads and
-- checks to its writes, and the other call runs between the two phases.
pub mod Moves
pub mod Admins
pub mod Invites
pub mod Slots
pub mod Decisions
pub mod Steps
pub mod Places
use ampla.Shared.{◌≡◌, refl}
use ampla.Hub.{Db}
use ampla.Hub.Exec.{Result, ok, err, hung, Service, resume}

-- The first phase gives the second.
abbrev pub Phases : Type 0 → Type 0
Phases A = Service (Service A)

module _ {A : Type 0} where
  -- One phase right after the other.
  abbrev pub in_turn : Phases A → Service A
  in_turn p db = resume (p db) (λ k. k)

  pub resume_assoc :
      {B C : Type 0} (r : Result A × Db) (f : A → Service B) (g : B → Service C)
      → resume (resume r f) g ≡ resume r (λ a db. resume (f a db) g)
  resume_assoc (ok a, db) f g = refl
  resume_assoc (err e, db) f g = refl
  resume_assoc (hung, db) f g = refl

  pub resume_cong :
      {B : Type 0} (r : Result A × Db) (f g : A → Service B)
      → ((a : A) (db : Db) → f a db ≡ g a db)
      → resume r f ≡ resume r g
  resume_cong (ok a, db) f g h = h a db
  resume_cong (err e, db) f g h = refl
  resume_cong (hung, db) f g h = refl

-- The outcomes of both calls and the database they leave.
abbrev pub Both : Type 0 → Type 0 → Type 0
Both A B = Result A × Result B × Db

module _ {A B : Type 0} where
  abbrev writes : Result A × Db → Service B → Both A B
  writes (a, db) second = let r = second db in (a, r.0, r.1)

  abbrev pub second_reads : Service A → Result (Service B) × Db → Both A B
  second_reads first (ok second, db) = writes (first db) second
  second_reads first (err e, db) = let r = first db in (r.0, err e, r.1)
  second_reads first (hung, db) = let r = first db in (r.0, hung, r.1)

  abbrev pub first_reads : Result (Service A) × Db → Phases B → Both A B
  first_reads (ok first, db) q = second_reads first (q db)
  first_reads (err e, db) q = let r = in_turn q db in (err e, r.0, r.1)
  first_reads (hung, db) q = let r = in_turn q db in (hung, r.0, r.1)

  -- The first call reads, the second reads, the first writes, the second writes.
  abbrev pub race : Phases A → Phases B → Db → Both A B
  race p q db = first_reads (p db) q

  pub race-passes :
      (p : Phases A) (q : Phases B) (first : Service A) (second : Service B) (a : A) (b : B)
      → (db db1 db2 : Db) → p db ≡ (ok first, db)
      → q db ≡ (ok second, db)
      → first db ≡ (ok a, db1)
      → second db1 ≡ (ok b, db2)
      → race p q db ≡ (ok a, ok b, db2)
  race-passes p q first second a b db db1 db2 e f g h = rw (e, f, g, h) refl
