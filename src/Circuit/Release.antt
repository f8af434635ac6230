-- ===== src/Circuit/Release.antt =====
-- backend/internal/routinghealth: what ReleaseOnOutput and FinishCheck do to a gate.
use simple_up_manage.Prelude.{
  ℕ, zero, suc, ◌+◌, ◌≡◌, ◌≢◌, inl, inr, refl, ◌∙◌, String, Bool, true, false, not, ◌&&◌, none,
  some, List, [], if◌then◌else◌, arith, Bool-cases, max, str_eq, eq_iff,
}
use simple_up_manage.Domain.Routing.{
  Scope, key_scope, digest, scope_eq, Dimension, RoutingCircuit, next_u64, seconds,
}
use simple_up_manage.Circuit.Row.{close_circuit}
use simple_up_manage.Circuit.Store.{ok, Db, find_circuit, save_circuit, lock}
use simple_up_manage.Circuit.Tables.{
  scope_eq_iff, find-save, find-lock_ne, lock-found, lock-scope, find_circuit-scope,
}
use simple_up_manage.Circuit.Admission.{Admission, still_owned, release_gate, release_on_output}
use simple_up_manage.Circuit.Check.{next_backoff, settle_check, holds_check, finish_check}
use simple_up_manage.Circuit.Exclusion.{IsGate}
use simple_up_manage.Circuit.Sound.{holds_check-open}

-- The gate after a release: closed if the admission still owns it.
abbrev pub released : Admission → ℕ → Scope → RoutingCircuit → RoutingCircuit
released a now s r = if still_owned a now s r then close_circuit r now else r

module _ (d : Dimension) (a : Admission) (now : ℕ) where
  release_gate_self :
      (s : Scope) (rows : List RoutingCircuit) (changed : List (Scope × ℕ)) (r : RoutingCircuit)
      → find_circuit s rows ≡ some r
      → find_circuit s (release_gate d a now s (rows, changed)).0 ≡ some (released a now s r)
  unfolding release_gate
  release_gate_self s rows changed r found =
      rw (lock-found d s rows found) (elim (Bool-cases (still_owned a now s r)) [
        | inl owned ↦ rw owned (
            find-save s (close_circuit r now) rows
            ∙ rw (closed_scope, find_circuit-scope s rows found))
        | inr other ↦ rw other found
      ])
    where
      closed_scope : (close_circuit r now).scope ≡ r.scope
      closed_scope = unfold close_circuit in refl

  release_gate_ne :
      (s t : Scope) (x : List RoutingCircuit × List (Scope × ℕ))
      → scope_eq s t ≡ false
      → find_circuit t (release_gate d a now s x).0 ≡ find_circuit t x.0
  unfolding release_gate close_circuit
  release_gate_ne s t (rows, changed) e = ground (
    arith,
    find-lock_ne d s t rows e,
    lock-scope d s rows,
    scope_eq_iff (lock d s rows).1.scope s,
    scope_eq_iff (lock d s rows).1.scope t,
    scope_eq_iff s t,
    find-save t (close_circuit (lock d s rows).1 now) (lock d s rows).0,
  )

-- With a token that is not empty, ReleaseOnOutput closes a gate of the request that the admission
-- still owns, and leaves a gate that it does not own as it was.
release_on_output-gate :
    (sha : Dimension → ℕ) (d : Dimension) (a : Admission) (now : ℕ) (db : Db) (s : Scope)
    (r : RoutingCircuit)
    → IsGate sha d s
    → a.token ≢ ""
    → find_circuit s db.circuits ≡ some r
    → find_circuit s (release_on_output sha d a now db).0.circuits ≡ some (released a now s r)
unfolding release_on_output
release_on_output-gate sha d a now db s r g named found =
    let not_empty : str_eq a.token "" ≡ false = ground (arith, eq_iff a.token "") in
    rw not_empty (elim g [
      | inl e ↦ rw e (
          release_gate_ne d a now (digest (sha d)) (key_scope d.key_id) _ refl
          ∙ release_gate_self d a now (key_scope d.key_id) db.circuits [] r (rw e at found))
      | inr e ↦ rw e (
          release_gate_self d a now (digest (sha d))
            (release_gate d a now (key_scope d.key_id) (db.circuits, [])).0
            (release_gate d a now (key_scope d.key_id) (db.circuits, [])).1 r
            (release_gate_ne d a now (key_scope d.key_id) (digest (sha d)) (db.circuits, []) refl
              ∙ (rw e at found)))
    ])

settle_check_facts :
    (r : RoutingCircuit) (now : ℕ) (success neutral : Bool) (message : String) (retry_after : ℕ)
    → r.is_open ≡ true
    → let r' = settle_check r now success neutral message retry_after in
      (r'.scope ≡ r.scope)
      × (r'.is_open ≡ not (success && not neutral))
      × (r'.generation ≡ (if success && not neutral then next_u64 r.generation else r.generation))
      × (r'.next_check_at ≡ (
          if success && not neutral
          then none
          else some (
              now
              + max (seconds (if neutral then 60 else next_backoff r.check_backoff)) retry_after)))
      × (r'.check_until ≡ none)
unfolding settle_check close_circuit
settle_check_facts r now success neutral message retry_after e =
    (ground arith, ground arith, ground arith, ground arith, ground arith)

-- FinishCheck with the live check lease of a gate: a success that is not neutral closes it; otherwise it stays open under the same
-- generation, and the next check waits for the backoff, a neutral one for a minute, and at least
-- for Retry-After.
finish_check_settles :
    (scope : Scope) (token : String) (now : ℕ) (success neutral : Bool) (message : String)
    (retry_after : ℕ) (db : Db) (r : RoutingCircuit)
    → find_circuit scope db.circuits ≡ some r
    → holds_check r token now ≡ true
    → (r' : RoutingCircuit) × (db' : Db) × (finish_check scope token now success neutral message
          retry_after db
        ≡ ok db')
      × (find_circuit scope db'.circuits ≡ some r')
      × (r'.is_open ≡ not (success && not neutral))
      × (r'.generation ≡ (if success && not neutral then next_u64 r.generation else r.generation))
      × (r'.next_check_at ≡ (
          if success && not neutral
          then none
          else some (
              now
              + max (seconds (if neutral then 60 else next_backoff r.check_backoff)) retry_after)))
      × (r'.check_until ≡ none)
unfolding finish_check
finish_check_settles scope token now success neutral message retry_after db r found held =
    let r' = settle_check r now success neutral message retry_after in
    let facts =
      settle_check_facts r now success neutral message retry_after
        (holds_check-open r token now held) in
    (
      r',
      record db { circuits = save_circuit r' db.circuits },
      rw (found, finish_check) (rw held),
      find-save scope r' db.circuits ∙ rw (facts.0, find_circuit-scope scope db.circuits found),
      facts.1,
      facts.2,
      facts.3,
      facts.4,
    )

-- The backoff after n failed checks in a row.
pub backoff_after : ℕ → ℕ
backoff_after zero = 0
backoff_after (suc n) = next_backoff (backoff_after n)

-- Failed checks are repeated after 1, 30 and 60 seconds, and from the fourth on after 90.
backoff_after_schedule :
    (n : ℕ)
    → (backoff_after 1 ≡ 1)
      × (backoff_after 2 ≡ 30)
      × (backoff_after 3 ≡ 60)
      × (backoff_after (suc (suc (suc (suc n)))) ≡ 90)
unfolding backoff_after next_backoff
backoff_after_schedule zero = (refl, refl, refl, refl)
backoff_after_schedule (suc n) = (refl, refl, refl, ground (arith, (backoff_after_schedule n).3))
