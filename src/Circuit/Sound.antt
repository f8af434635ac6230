-- ===== src/Circuit/Sound.antt =====
-- backend/internal/routinghealth: every operation of Store keeps all the rows of the table sound.
use simple_up_manage.Prelude.{
  ℕ, ◌≡◌, inl, inr, subst, ap, String, Bool, true, not, ◌&&◌, Option, none, some, List, [], ◌∷◌,
  if◌then◌else◌, arith, Bool-cases, Option-cases, if_pred, All, All-append, OnSome, Float64, str_eq,
  ltb,
}
use simple_up_manage.Domain.Settings.{SchedulerSettings, normalize}
use simple_up_manage.Domain.Settings.Normal.{normalize-IsNormal}
use simple_up_manage.Domain.Routing.{Scope, key_scope, digest, scope_eq, Dimension, RoutingCircuit}
use simple_up_manage.Circuit.Store.{
  Result, ok, OnOk, Db, find_circuit, save_circuit, lock, busy_elsewhere,
}
use simple_up_manage.Circuit.Admission.{
  Admission, admit_gate, admit_request, release_gate, release_on_output, still_owned, gate_refuses,
}
use simple_up_manage.Circuit.Observe.{Outcome, observe_row, observe, save_some}
use simple_up_manage.Circuit.Check.{settle_check, holds_check, claim_circuits, finish_check}
use simple_up_manage.Circuit.Invariant.{
  IsSound, new_circuit-IsSound, close_circuit-IsSound, observe_row-IsSound, take_lease-IsSound,
  take_check-IsSound, settle_check-IsSound,
}
use simple_up_manage.Circuit.Exclusion.{taken_ok}
use simple_up_manage.Circuit.Claims.{claim_circuits_rule}

abbrev pub AllSound : List RoutingCircuit → Type 0
AllSound = All IsSound

abbrev GatesSound : List RoutingCircuit × List (Scope × ℕ) → Type 0
GatesSound x = AllSound x.0

abbrev AdmittedSound : Db × Admission → Type 0
AdmittedSound x = AllSound x.0.circuits

find-IsSound :
    (s : Scope) (rows : List RoutingCircuit) (r : RoutingCircuit)
    → AllSound rows
    → find_circuit s rows ≡ some r
    → IsSound r
unfolding find_circuit
find-IsSound s [] r h e = cc
find-IsSound s (q ∷ rows) r h e = elim (Bool-cases (scope_eq q.scope s)) [
  | inl hit ↦ subst IsSound (cc hit) h.0
  | inr miss ↦ find-IsSound s rows r h.1 (ground (arith, e))
]

pub save-AllSound :
    (r : RoutingCircuit) (rows : List RoutingCircuit)
    → IsSound r
    → AllSound rows
    → AllSound (save_circuit r rows)
unfolding save_circuit
save-AllSound r [] s h = (s, tt)
save-AllSound r (q ∷ rows) s h =
    if_pred AllSound (scope_eq q.scope r.scope) (s, h.1) (h.0, save-AllSound r rows s h.1)

pub lock-AllSound :
    (d : Dimension) (s : Scope) (rows : List RoutingCircuit)
    → AllSound rows
    → AllSound (lock d s rows).0 × IsSound (lock d s rows).1
unfolding lock
lock-AllSound d s rows h = elim (Option-cases (find_circuit s rows)) [
  | inl missing ↦
      rw (missing, lock)
        (All-append IsSound rows _ h (new_circuit-IsSound d s, tt), new_circuit-IsSound d s)
  | inr (r, found) ↦ rw (found, lock) (h, find-IsSound s rows r h found)
]

-- A round of the admission loop leases only open rows.
pub admit_gate-AllSound :
    (d : Dimension) (recovery : Bool) (now : ℕ) (token : String) (s : Scope)
    (x : List RoutingCircuit × List (Scope × ℕ))
    → AllSound x.0
    → OnOk (λ y. AllSound y.0) (admit_gate d recovery now token s x)
unfolding admit_gate
admit_gate-AllSound d recovery now token s (rows, gens) h =
    let locked = lock-AllSound d s rows h in
    elim (Bool-cases (lock d s rows).1.is_open) [
      | inr shut ↦
          let not_open : not (lock d s rows).1.is_open ≡ true = ap not shut in rw not_open locked.0
      | inl opened ↦ if_pred Sound (not (lock d s rows).1.is_open) locked.0 (
          if_pred Sound (gate_refuses (lock d s rows).1 recovery now) tt (
            if_pred Sound
              (scope_eq s (key_scope d.key_id)
                && ltb 0 (busy_elsewhere d.key_id s now (lock d s rows).0))
              tt (save-AllSound _ _ (take_lease-IsSound _ token now opened locked.1) locked.0)))
    ]
  where
    Sound : Result (List RoutingCircuit × List (Scope × ℕ)) → Type 0
    Sound = OnOk (λ y. AllSound y.0)

pub release_gate-AllSound :
    (d : Dimension) (a : Admission) (now : ℕ) (s : Scope)
    (x : List RoutingCircuit × List (Scope × ℕ))
    → AllSound x.0
    → AllSound (release_gate d a now s x).0
unfolding release_gate
release_gate-AllSound d a now s (rows, changed) h =
    if_pred (λ (y : List RoutingCircuit × List (Scope × ℕ)). AllSound y.0)
      (still_owned a now s (lock d s rows).1)
      (save-AllSound _ _ (close_circuit-IsSound _ now locked.1) locked.0) locked.0
  where
    locked : AllSound (lock d s rows).0 × IsSound (lock d s rows).1
    locked = lock-AllSound d s rows h

pub admit_request-AllSound :
    (sha : Dimension → ℕ) (d : Dimension) (recovery : Bool) (now : ℕ) (token : String) (db : Db)
    → AllSound db.circuits
    → OnOk (λ y. AllSound y.0.circuits) (admit_request sha d recovery now token db)
unfolding admit_request
admit_request-AllSound sha d recovery now token db h =
    taken_ok GatesSound AdmittedSound _ _
      (admit_gate-AllSound d recovery now token (key_scope d.key_id) (db.circuits, []) h)
      (λ x sx.
        taken_ok GatesSound AdmittedSound _ _
          (admit_gate-AllSound d recovery now token (digest (sha d)) x sx) (λ y sy. sy))

pub release_on_output-AllSound :
    (sha : Dimension → ℕ) (d : Dimension) (a : Admission) (now : ℕ) (db : Db)
    → AllSound db.circuits
    → AllSound (release_on_output sha d a now db).0.circuits
unfolding release_on_output
release_on_output-AllSound sha d a now db h =
    if_pred (λ (y : Db × Admission × Bool). AllSound y.0.circuits) (str_eq a.token "") h
      (release_gate-AllSound d a now (digest (sha d)) _
        (release_gate-AllSound d a now (key_scope d.key_id) (db.circuits, []) h))

pub claim_circuits-AllSound :
    (concurrency : ℕ) (scope : Scope) (d : Dimension) (expected : Option ℕ) (now : ℕ)
    (token : String) (rows : List RoutingCircuit)
    → AllSound rows
    → OnOk AllSound (claim_circuits concurrency scope d expected now token rows)
claim_circuits-AllSound concurrency scope d expected now token rows h =
    let locked = (lock-AllSound d (key_scope d.key_id) rows h).0 in
    claim_circuits_rule AllSound concurrency scope d expected now token rows
      (λ r room found checkable.
        save-AllSound _ _
          (take_check-IsSound r d token now checkable (find-IsSound scope _ r locked found)) locked)

pub holds_check-open :
    (r : RoutingCircuit) (token : String) (now : ℕ)
    → holds_check r token now ≡ true
    → r.is_open ≡ true
unfolding holds_check
holds_check-open r token now e = ground arith

pub finish_check-AllSound :
    (scope : Scope) (token : String) (now : ℕ) (success neutral : Bool) (message : String)
    (retry_after : ℕ) (db : Db)
    → AllSound db.circuits
    → OnOk
        (λ y. AllSound y.circuits)
        (finish_check scope token now success neutral message retry_after db)
unfolding finish_check
finish_check-AllSound scope token now success neutral message retry_after db h =
    elim (Option-cases (find_circuit scope db.circuits)) [
      | inl missing ↦ rw (missing, finish_check) tt
      | inr (r, found) ↦
          rw (found, finish_check) (settled r (find-IsSound scope db.circuits r h found))
    ]
  where
    settled :
        (r : RoutingCircuit)
        → IsSound r
        → OnOk
            (λ y. AllSound y.circuits)
            (if holds_check r token now
              then ok (record db {
                circuits =
                    save_circuit
                      (settle_check r now success neutral message retry_after)
                      db.circuits;
              })
              else ok db)
    settled r sound = elim (Bool-cases (holds_check r token now)) [
      | inl held ↦ rw held (
          save-AllSound _ db.circuits
            (settle_check-IsSound r now success neutral message retry_after
              (holds_check-open r token now held) sound)
            h)
      | inr other ↦ rw other h
    ]

pub save_some-AllSound :
    (o : Option RoutingCircuit) (rows : List RoutingCircuit)
    → OnSome IsSound o
    → AllSound rows
    → AllSound (save_some o rows)
save_some-AllSound none rows s h = h
save_some-AllSound (some r) rows s h = save-AllSound r rows s h

module _ {F : Type 0} ⦃fl : Float64 F⦄ where
  pub observe-AllSound :
      (sha : Dimension → ℕ) (settings : SchedulerSettings F) (now : ℕ) (d : Dimension)
      (token : String) (o : Outcome) (db : Db)
      → AllSound db.circuits
      → AllSound (observe sha settings now d token o db).circuits
  unfolding observe
  observe-AllSound sha settings now d token o db h =
      let key = lock-AllSound d (key_scope d.key_id) db.circuits h in
      let own =
        lock-AllSound d (digest (sha d)) (lock d (key_scope d.key_id) db.circuits).0 key.0 in
      if_pred (λ (y : Db). AllSound y.circuits) _ own.0 (saved _ _ own.1 (saved _ _ key.1 own.0))
    where
      saved :
          (r : RoutingCircuit) (rows : List RoutingCircuit)
          → IsSound r
          → AllSound rows
          → AllSound (save_some (observe_row (normalize settings) now d token o r) rows)
      saved r rows sound all =
          save_some-AllSound (observe_row (normalize settings) now d token o r) rows
            (observe_row-IsSound (normalize settings) now d token o r (normalize-IsNormal settings)
              sound)
            all
