-- ===== src/Circuit/Replay.antt =====
-- backend/internal/routinghealth/store.go: what Observe does to the tables as a whole.
use simple_up_manage.Prelude.{ℕ, ◌≡◌, ◌∙◌, String, Bool, false, some, List, arith, if_pred, Float64}
use simple_up_manage.Domain.Settings.{SchedulerSettings, normalize}
use simple_up_manage.Domain.Routing.{Scope, key_scope, digest, scope_eq, Dimension, RoutingCircuit}
use simple_up_manage.Circuit.Store.{Db, find_circuit, lock}
use simple_up_manage.Circuit.Tables.{scope_eq_iff, find-save, find-lock_ne, lock-scope}
use simple_up_manage.Circuit.Row.{open_circuit, close_circuit}
use simple_up_manage.Circuit.Observe.{
  Outcome, observe_row, observe, save_some, settle_outcome, settle_success, settle_failure,
  track_attempt, is_owned,
}
use simple_up_manage.Circuit.Transitions.{count_failure-keeps}

-- The row is there.
abbrev IsPresent : Scope → List RoutingCircuit → Type 0
IsPresent s rows = (r : RoutingCircuit) × (find_circuit s rows ≡ some r)

-- The table after both locks.
abbrev locked_rows : (Dimension → ℕ) → Dimension → List RoutingCircuit → List RoutingCircuit
locked_rows sha d rows = (lock d (digest (sha d)) (lock d (key_scope d.key_id) rows).0).0

module _ {F : Type 0} ⦃fl : Float64 F⦄ where
  -- The row that an outcome saves keeps its scope.
  settle_outcome-scope :
      (cfg : SchedulerSettings F) (now : ℕ) (d : Dimension) (on_key owned : Bool) (o : Outcome)
      (r : RoutingCircuit)
      → (settle_outcome cfg now d on_key owned o r).scope ≡ r.scope
  unfolding settle_outcome settle_success settle_failure close_circuit open_circuit track_attempt
  settle_outcome-scope cfg now d on_key owned o r = ground (arith, count_failure-keeps cfg now o r)

  save_some_elsewhere :
      (cfg : SchedulerSettings F) (now : ℕ) (d : Dimension) (token : String) (o : Outcome)
      (r : RoutingCircuit) (t : Scope) (rows : List RoutingCircuit)
      → scope_eq r.scope t ≡ false
      → find_circuit t (save_some (observe_row cfg now d token o r) rows) ≡ find_circuit t rows
  unfolding observe_row
  save_some_elsewhere cfg now d token o r t rows e =
      let settled =
        settle_outcome cfg now d (scope_eq r.scope (key_scope d.key_id)) (is_owned r token now) o
          r in
      ground (
        arith,
        find-save t settled rows,
        settle_outcome-scope cfg now d (scope_eq r.scope (key_scope d.key_id))
            (is_owned r token now) o r,
      )

  module _ (sha : Dimension → ℕ) (settings : SchedulerSettings F) (now : ℕ) (d : Dimension)
      (token : String) (o : Outcome) (db : Db) where
    own_scope :
        (lock d (digest (sha d)) (lock d (key_scope d.key_id) db.circuits).0).1.scope
        ≡ digest (sha d)
    own_scope = (scope_eq_iff _ _).0 (lock-scope d (digest (sha d)) _)

    -- Observe leaves every row as it was but those of the request's two gates.
    observe_frame :
        (t : Scope)
        → scope_eq (key_scope d.key_id) t ≡ false
        → scope_eq (digest (sha d)) t ≡ false
        → find_circuit t (observe sha settings now d token o db).circuits
          ≡ find_circuit t db.circuits
    unfolding observe
    observe_frame t not_key not_own =
        let rows1 = (lock d (key_scope d.key_id) db.circuits).0 in
        let key = (lock d (key_scope d.key_id) db.circuits).1 in
        let own = (lock d (digest (sha d)) rows1).1 in
        let locked =
          find-lock_ne d (digest (sha d)) t rows1 not_own
          ∙ find-lock_ne d (key_scope d.key_id) t db.circuits not_key in
        let key_scope_eq =
          (scope_eq_iff key.scope (key_scope d.key_id)).0
            (lock-scope d (key_scope d.key_id) db.circuits) in
        if_pred (λ (x : Db). find_circuit t x.circuits ≡ find_circuit t db.circuits) _ locked
          (save_some_elsewhere (normalize settings) now d token o own t _ (rw own_scope not_own)
            ∙ save_some_elsewhere (normalize settings) now d token o key t _
                (rw key_scope_eq not_key)
            ∙ locked)
