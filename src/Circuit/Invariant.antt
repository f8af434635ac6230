-- ===== src/Circuit/Invariant.antt =====
-- backend/internal/routinghealth/store.go: what holds of every circuit row between two operations.
use simple_up_manage.Prelude.{
  ℕ, ◌-◌, ◌≤◌, ◌<◌, ◌≡◌, String, Bool, true, false, none, List, [], ◌∷◌, ◌++◌, length, select,
  length-drop, replicate, Float64, arith, Bool-cases, inl, inr, ltb, if◌then◌else◌, ◌==◌, if_pred,
  OnSome, ◌||◌,
}
use simple_up_manage.Domain.Settings.{SchedulerSettings}
use simple_up_manage.Domain.Settings.Normal.{IsNormal}
use simple_up_manage.Domain.Routing.{
  key_scope, scope_eq, Dimension, RoutingCircuit, Scope, unix_milli,
}
use simple_up_manage.Circuit.Row.{
  track_timestamp, open_seconds, open_circuit, close_circuit, max_tracked_attempts,
  max_tracked_failures,
}
use simple_up_manage.Circuit.Store.{new_circuit}
use simple_up_manage.Circuit.Admission.{take_lease}
use simple_up_manage.Circuit.Observe.{
  Outcome, is_owned, is_stale, settle_neutral, settle_success, track_attempt, count_failure,
  settle_failure, observe_row, settle_outcome, is_leased_by_other, is_stale, window_cut,
  failure_weight,
}
use simple_up_manage.Circuit.Check.{take_check, next_backoff, settle_check, is_checkable}

pub record IsSound (r : RoutingCircuit) : Type 0 where
  -- A closed row holds no lease, waits for nothing and has no backoff.
  pub no_lease : r.is_open ≡ false → (r.lease ≡ "") × (r.lease_until ≡ 0)
  pub no_check : r.is_open ≡ false → (r.check_lease ≡ "") × (r.check_until ≡ none)
  pub no_wait : r.is_open ≡ false → (r.backoff_sec ≡ 0) × (r.until ≡ 0)
  -- An open row stays open for some time.
  pub waits : r.is_open ≡ true → (0 < r.backoff_sec) × (r.opened_at < r.until)
  pub counted : r.failures ≡ length r.failure_times
  pub attempts_bounded : length r.attempt_times ≤ max_tracked_attempts
  pub failures_bounded : length r.failure_times ≤ max_tracked_failures
  pub backoff_bounded : r.backoff_sec ≤ 3600
  pub check_backoff_bounded : r.check_backoff ≤ 90

-- At most `bound` timestamps are kept.
pub length-track_timestamp :
    (times : List ℕ) (at cut bound : ℕ) → length (track_timestamp times at cut bound) ≤ bound
unfolding track_timestamp
length-track_timestamp times at cut bound = ground (arith, length-drop (length kept - bound) kept)
  where
    kept : List ℕ
    kept =
        let passed = select (λ t. ltb cut t) times in if at == 0 then passed else passed ++ at ∷ []

-- The row that lock inserts is sound.
pub new_circuit-IsSound : (d : Dimension) (scope : Scope) → IsSound (new_circuit d scope)
new_circuit-IsSound d scope = ground arith

pub close_circuit-IsSound :
    (r : RoutingCircuit) (now : ℕ) → IsSound r → IsSound (close_circuit r now)
unfolding close_circuit
close_circuit-IsSound r now h = ground arith

settle_neutral-IsSound :
    (owned : Bool) (r : RoutingCircuit) → IsSound r → IsSound (settle_neutral owned r)
settle_neutral-IsSound owned r h = ground arith

module _ {F : Type 0} ⦃fl : Float64 F⦄ where
  pub open_seconds-pos :
      (r : RoutingCircuit) (retry : ℕ) (cfg : SchedulerSettings F)
      → IsNormal cfg
      → 0 < open_seconds r retry cfg
  unfolding open_seconds
  open_seconds-pos r retry cfg n = ground arith

  pub open_circuit-IsSound :
      (r : RoutingCircuit) (now : ℕ) (reason : String) (retry : ℕ) (cfg : SchedulerSettings F)
      → IsNormal cfg
      → IsSound r
      → IsSound (open_circuit r now reason retry cfg)
  unfolding open_circuit
  open_circuit-IsSound r now reason retry cfg n h = ground (arith, open_seconds-pos r retry cfg n)

  track_attempt-IsSound :
      (cfg : SchedulerSettings F) (now : ℕ) (r : RoutingCircuit)
      → IsSound r
      → IsSound (track_attempt cfg now r)
  unfolding track_attempt
  track_attempt-IsSound cfg now r h =
      ground
        (arith, length-track_timestamp r.attempt_times (unix_milli now) (window_cut cfg now) 120)

  settle_success-IsSound :
      (cfg : SchedulerSettings F) (now : ℕ) (on_key owned : Bool) (r : RoutingCircuit)
      → IsSound r
      → IsSound (settle_success cfg now on_key owned r)
  unfolding settle_success close_circuit track_attempt
  settle_success-IsSound cfg now on_key owned r h =
      ground (arith, track_attempt-IsSound cfg now r h)

  count_failure-IsSound :
      (cfg : SchedulerSettings F) (now : ℕ) (o : Outcome) (r : RoutingCircuit)
      → IsSound r
      → IsSound (count_failure cfg now o r)
  unfolding count_failure track_attempt
  count_failure-IsSound cfg now o r h = ground (
    arith,
    track_attempt-IsSound cfg now r h,
    length-track_timestamp
        (select (λ t. ltb (window_cut cfg now) t) r.failure_times
          ++ replicate (failure_weight cfg o) (unix_milli now))
        0 (window_cut cfg now) 64,
  )

  settle_failure-IsSound :
      (cfg : SchedulerSettings F) (now : ℕ) (d : Dimension) (on_key owned : Bool) (o : Outcome)
      (r : RoutingCircuit)
      → IsNormal cfg
      → IsSound r
      → IsSound (settle_failure cfg now d on_key owned o r)
  unfolding settle_failure
  settle_failure-IsSound cfg now d on_key owned o r n h =
      let counted = count_failure-IsSound cfg now o r h in
      if_pred IsSound on_key
        (if_pred IsSound _ (open_circuit-IsSound _ now o.reason o.retry_after cfg n (ground arith))
          h)
        (if_pred IsSound _
          (if_pred IsSound _ (open_circuit-IsSound _ now o.reason o.retry_after cfg n counted)
            counted)
          h)

  settle_outcome-IsSound :
      (cfg : SchedulerSettings F) (now : ℕ) (d : Dimension) (on_key owned : Bool) (o : Outcome)
      (r : RoutingCircuit)
      → IsNormal cfg
      → IsSound r
      → IsSound (settle_outcome cfg now d on_key owned o r)
  unfolding settle_outcome
  settle_outcome-IsSound cfg now d on_key owned o r n h =
      if_pred IsSound o.neutral (settle_neutral-IsSound owned r h) (
        if_pred IsSound o.success (settle_success-IsSound cfg now on_key owned r h)
          (settle_failure-IsSound cfg now d on_key owned o r n h))

  -- A saved row is sound again, whatever the outcome says.
  pub observe_row-IsSound :
      (cfg : SchedulerSettings F) (now : ℕ) (d : Dimension) (token : String) (o : Outcome)
      (r : RoutingCircuit)
      → IsNormal cfg
      → IsSound r
      → OnSome IsSound (observe_row cfg now d token o r)
  unfolding observe_row
  observe_row-IsSound cfg now d token o r n h =
      let owned = is_owned r token now in
      let settled =
        settle_outcome-IsSound cfg now d (scope_eq r.scope (key_scope d.key_id)) owned o r n h in
      elim (Bool-cases (is_stale o owned r || is_leased_by_other owned r)) [
        | inl skipped ↦ rw skipped tt
        | inr saved ↦ rw saved settled
      ]

-- Leases and checks are taken on rows that the guards have passed.
pub take_lease-IsSound :
    (r : RoutingCircuit) (token : String) (now : ℕ)
    → r.is_open ≡ true
    → IsSound r
    → IsSound (take_lease r token now)
take_lease-IsSound r token now e h = ground arith

pub take_check-IsSound :
    (r : RoutingCircuit) (d : Dimension) (token : String) (now : ℕ)
    → is_checkable r now ≡ true
    → IsSound r
    → IsSound (take_check r d token now)
unfolding is_checkable
take_check-IsSound r d token now e h = ground arith

pub settle_check-IsSound :
    (r : RoutingCircuit) (now : ℕ) (success neutral : Bool) (message : String) (retry_after : ℕ)
    → r.is_open ≡ true
    → IsSound r
    → IsSound (settle_check r now success neutral message retry_after)
unfolding settle_check next_backoff close_circuit
settle_check-IsSound r now success neutral message retry_after e h = ground arith
