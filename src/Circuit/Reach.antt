-- ===== src/Circuit/Reach.antt =====
-- backend/internal/routinghealth: the operations of Store as steps on the tables, in any order and
-- at any times, and the invariant that every reachable table satisfies.
use simple_up_manage.Prelude.{ℕ, ◌≡◌, subst, String, Bool, Option, Float64}
use simple_up_manage.Domain.Settings.{SchedulerSettings}
use simple_up_manage.Domain.Routing.{Scope, Dimension}
use simple_up_manage.Circuit.Store.{ok, OnOk, Db}
use simple_up_manage.Circuit.Admission.{Admission, admit_request, release_on_output}
use simple_up_manage.Circuit.Observe.{Outcome, observe}
use simple_up_manage.Circuit.Check.{claim_check, finish_check}
use simple_up_manage.Circuit.Claims.{claim_check-circuits}
use simple_up_manage.Circuit.Sound.{
  AllSound, admit_request-AllSound, release_on_output-AllSound, claim_circuits-AllSound,
  finish_check-AllSound, observe-AllSound,
}

-- One operation of the store that commits.
pub data Step (F : Type 0) (fl : Float64 F) (sha : Dimension → ℕ) : Db → Db → Type 0 where
  admits :
      {db db' : Db} {a : Admission} (d : Dimension) (recovery : Bool) (now : ℕ) (token : String)
      → admit_request sha d recovery now token db ≡ ok (db', a)
      → Step F fl sha db db'
  releases :
      {db : Db} (d : Dimension) (a : Admission) (now : ℕ)
      → Step F fl sha db (release_on_output sha d a now db).0
  observes :
      {db : Db} (settings : SchedulerSettings F) (now : ℕ) (d : Dimension) (token : String)
      (o : Outcome)
      → Step F fl sha db (observe ⦃fl = fl⦄ sha settings now d token o db)
  claims :
      {db db' : Db} (concurrency : ℕ) (scope : Scope) (d : Dimension) (expected : Option ℕ)
      (now : ℕ) (token : String)
      → claim_check concurrency scope d expected now token db ≡ ok db'
      → Step F fl sha db db'
  finishes :
      {db db' : Db} (scope : Scope) (token : String) (now : ℕ) (success neutral : Bool)
      (message : String) (retry_after : ℕ)
      → finish_check scope token now success neutral message retry_after db ≡ ok db'
      → Step F fl sha db db'

pub data Reach (F : Type 0) (fl : Float64 F) (sha : Dimension → ℕ) (db : Db) : Db → Type 0 where
  here : Reach F fl sha db db
  next : {u v : Db} → Reach F fl sha db u → Step F fl sha u v → Reach F fl sha db v

module _ {F : Type 0} {fl : Float64 F} {sha : Dimension → ℕ} where
  Step-AllSound : {u v : Db} → Step F fl sha u v → AllSound u.circuits → AllSound v.circuits
  Step-AllSound (admits {db = db} d recovery now token e) h =
      subst (OnOk (λ y. AllSound y.0.circuits)) e
        (admit_request-AllSound sha d recovery now token db h)
  Step-AllSound (releases {db = db} d a now) h = release_on_output-AllSound sha d a now db h
  Step-AllSound (observes {db = db} settings now d token o) h =
      observe-AllSound ⦃fl = fl⦄ sha settings now d token o db h
  Step-AllSound (claims {db = db} {db' = db'} concurrency scope d expected now token e) h =
      subst (OnOk AllSound) (claim_check-circuits concurrency scope d expected now token db db' e)
        (claim_circuits-AllSound concurrency scope d expected now token db.circuits h)
  Step-AllSound (finishes {db = db} scope token now success neutral message retry_after e) h =
      subst (OnOk (λ y. AllSound y.circuits)) e
        (finish_check-AllSound scope token now success neutral message retry_after db h)

  -- From tables whose rows are all sound, whatever operations run, in whatever order and at
  -- whatever times, all rows stay sound.
  pub Reach-AllSound : {u v : Db} → AllSound u.circuits → Reach F fl sha u v → AllSound v.circuits
  Reach-AllSound h here = h
  Reach-AllSound h (next r s) = Step-AllSound s (Reach-AllSound h r)
