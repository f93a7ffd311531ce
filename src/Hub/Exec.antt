-- ===== src/Hub/Exec.antt =====
-- The monad of the service methods, hub/app/services/errors.py and repositories/audit_repo.py.
use ampla.Shared.{String, Bool, true, false, Option, none, some, List, [], ◌∷◌, ◌++◌}
use ampla.Hub.{Db}

-- The domain errors; `unexpected` is any other exception.
pub data Exception : Type 0 where
  not_found conflict permission_denied auth_failed account_locked invalid_input : Exception
  unexpected : Exception

-- `hung`: the call does not return, as `rank_between` on bounds that break its contract.
pub data Result (A : Type 0) : Type 0 where
  ok : A → Result A
  err : Exception → Result A
  hung : Result A

abbrev pub Service : Type 0 → Type 0
Service A = Db → Result A × Db

module _ {A : Type 0} where
  abbrev pub pure : A → Service A
  pure a db = (ok a, db)

  abbrev pub raise : Exception → Service A
  raise e db = (err e, db)

  abbrev pub gets : (Db → A) → Service A
  gets f db = (ok (f db), db)

  -- The value, or the exception for None.
  abbrev pub or_raise : Option A → Exception → Service A
  or_raise none e db = (err e, db)
  or_raise (some a) e db = (ok a, db)

  -- The value, or no return.
  abbrev pub or_hang : Option A → Service A
  or_hang none db = (hung, db)
  or_hang (some a) db = (ok a, db)

-- The state as it is now.
abbrev pub current : Service Db
current db = (ok db, db)

abbrev pub modify : (Db → Db) → Service Unit
modify f db = (ok tt, f db)

-- `if b: raise e`
abbrev pub raise_if : Bool → Exception → Service Unit
raise_if true e db = (err e, db)
raise_if false e db = (ok tt, db)

abbrev pub resume : {A B : Type 0} → Result A × Db → (A → Service B) → Result B × Db
resume (ok a, db) f = f a db
resume (err e, db) f = (err e, db)
resume (hung, db) f = (hung, db)

infixl 5 ◌>>=◌ ◌>>◌
abbrev pub ◌>>=◌ : {A B : Type 0} → Service A → (A → Service B) → Service B
◌>>=◌ m f db = resume (m db) f

abbrev pub ◌>>◌ : {A B : Type 0} → Service A → Service B → Service B
m >> k = m >>= λ _. k

-- `if b: m`
abbrev pub when : Bool → Service Unit → Service Unit
when true m = m
when false m = pure tt

abbrev pub handled : {A : Type 0} → Result A × Db → Result Unit × Db
handled (ok a, db) = (ok tt, db)
handled (err e, db) = (ok tt, db)
handled (hung, db) = (hung, db)

-- `try: m` with `except Exception: logger.warning(…)`: what `m` wrote before it raised stays.
abbrev pub attempt : {A : Type 0} → Service A → Service Unit
attempt m db = handled (m db)

-- `for x in xs: body(x)`
unfoldable pub for_each : {A : Type 0} → (A → Service Unit) → List A → Service Unit
for_each body [] = pure tt
for_each body (x ∷ xs) = body x >> for_each body xs

-- AuditRepository.record
unfoldable pub audit : String → String → Service Unit
audit event actor db =
    (ok tt, record db { audit = db.audit ++ record { event = event; actor = actor } ∷ [] })
