-- ===== src/Races/Steps.antt =====
-- Any number of calls that overlap, each in two phases, as a step relation.
use ampla.Shared.{List, [], ◌∷◌, All}
use ampla.Hub.{Db}
use ampla.Hub.Exec.{Result, ok, err, hung, Service, resume}
use ampla.Races.{Phases, Both, race, second_reads, first_reads}

pub data Call (A : Type 0) : Type 0 where
  waiting : Phases A → Call A
  ready : Service A → Call A
  over : Result A → Call A

abbrev pub Pool : Type 0 → Type 0
Pool A = List (Call A) × Db

module _ {A : Type 0} where
  abbrev pub after_reads : Result (Service A) → Call A
  after_reads (ok writes) = ready writes
  after_reads (err e) = over (err e)
  after_reads hung = over hung

  -- Both calls are over.
  abbrev pub ended : Both A A → Pool A
  ended (a, b, db) = (over a ∷ over b ∷ [], db)

  -- One step: some call of the pool runs its next phase.
  pub data Step : Pool A → Pool A → Type 0 where
    reading :
        (p : Phases A) (cs : List (Call A)) (db : Db)
        → Step (waiting p ∷ cs, db) (after_reads (p db).0 ∷ cs, (p db).1)
    writing :
        (s : Service A) (cs : List (Call A)) (db : Db)
        → Step (ready s ∷ cs, db) (over (s db).0 ∷ cs, (s db).1)
    another :
        (c : Call A) {cs ds : List (Call A)} {db db' : Db}
        → Step (cs, db) (ds, db')
        → Step (c ∷ cs, db) (c ∷ ds, db')

  pub data Run (start : Pool A) : Pool A → Type 0 where
    none_yet : Run start start
    then_one : {s t : Pool A} → Run start s → Step s t → Run start t

  module _ (Kept : Db → Type 0) where
    -- The write leaves what is kept, in whatever database it comes to.
    abbrev pub Writes : Service A → Type 0
    Writes s = (db : Db) → Kept db → Kept (s db).1

    abbrev pub Prepared : Result (Service A) → Type 0
    Prepared (ok writes) = Writes writes
    Prepared (err e) = Unit
    Prepared hung = Unit

    abbrev pub Keeps : Call A → Type 0
    Keeps (waiting p) = (db : Db) → Kept db → Kept (p db).1 × Prepared (p db).0
    Keeps (ready s) = Writes s
    Keeps (over r) = Unit

    after_reads-Keeps : (r : Result (Service A)) → Prepared r → Keeps (after_reads r)
    after_reads-Keeps (ok writes) h = h
    after_reads-Keeps (err e) h = tt
    after_reads-Keeps hung h = tt

    abbrev Good : Pool A → Type 0
    Good (cs, db) = All Keeps cs × Kept db

    Step-Good : {s t : Pool A} → Step s t → Good s → Good t
    Step-Good (reading p cs db) (h, k) =
        ((after_reads-Keeps (p db).0 (h.0 db k).1, h.1), (h.0 db k).0)
    Step-Good (writing s cs db) (h, k) = ((tt, h.1), h.0 db k)
    Step-Good (another c st) (h, k) = let later = Step-Good st (h.1, k) in ((h.0, later.0), later.1)

    Run-Good : {s t : Pool A} → Good s → Run s t → Good t
    Run-Good h none_yet = h
    Run-Good h (then_one r st) = Step-Good st (Run-Good h r)

    -- What every phase keeps, every run keeps.
    pub Run-Kept : {s t : Pool A} → All Keeps s.0 → Kept s.1 → Run s t → Kept t.1
    Run-Kept h k r = (Run-Good (h, k) r).1

module _ {A : Type 0} (q : Phases A) {start : Pool A} where
  both_write :
      (first : Service A) (r : Result (Service A) × Db)
      → Run start (ready first ∷ after_reads r.0 ∷ [], r.1)
      → Run start (ended (second_reads first r))
  both_write first (ok second, db) run =
      then_one (then_one run (writing first (ready second ∷ []) db))
        (another (over (first db).0) (writing second [] (first db).1))
  both_write first (err e, db) run = then_one run (writing first (over (err e) ∷ []) db)
  both_write first (hung, db) run = then_one run (writing first (over hung ∷ []) db)

  one_writes :
      (a : Result A) (r : Result (Service A) × Db)
      → Run start (over a ∷ after_reads r.0 ∷ [], r.1)
      → Run start (ended (a, (resume r (λ k. k)).0, (resume r (λ k. k)).1))
  one_writes a (ok second, db) run = then_one run (another (over a) (writing second [] db))
  one_writes a (err e, db) run = run
  one_writes a (hung, db) run = run

  second_reads-Run :
      (r : Result (Service A) × Db)
      → Run start (after_reads r.0 ∷ waiting q ∷ [], r.1)
      → Run start (ended (first_reads r q))
  second_reads-Run (ok first, db) run =
      both_write first (q db) (then_one run (another (ready first) (reading q [] db)))
  second_reads-Run (err e, db) run =
      one_writes (err e) (q db) (then_one run (another (over (err e)) (reading q [] db)))
  second_reads-Run (hung, db) run =
      one_writes hung (q db) (then_one run (another (over hung) (reading q [] db)))

-- What `race` does is one of the runs of the two calls.
pub race-Run :
    {A : Type 0} (p q : Phases A) (db : Db)
    → Run (waiting p ∷ waiting q ∷ [], db) (ended (race p q db))
race-Run p q db = second_reads-Run q (p db) (then_one none_yet (reading p (waiting q ∷ []) db))
