-- ===== src/Circuit/Observe.antt =====
-- backend/internal/routinghealth/store.go: Outcome and Observe. The caller's settings pass through
-- Normalize first, as in the source.
use simple_up_manage.Prelude.{
  ℕ, ◌-◌, String, Bool, true, false, not, ◌&&◌, ◌||◌, Option, none, some, List, [], ◌∷◌, ◌++◌,
  length, select, replicate, ltb, leb, ◌==◌, if◌then◌else◌, str_eq, Float64,
}
use simple_up_manage.Domain.Settings.{SchedulerSettings, normalize}
use simple_up_manage.Domain.Routing.{
  Scope, key_scope, digest, scope_eq, Dimension, RoutingCircuit, RoutingObservation, after, seconds,
  unix_milli, failure_first_token_timeout,
}
use simple_up_manage.Circuit.Row.{
  track_timestamp, circuit_threshold, sustained_failure, open_circuit, close_circuit,
  max_tracked_attempts, max_tracked_failures,
}
use simple_up_manage.Circuit.Store.{Db, save_circuit, lock}
use simple_up_manage.Circuit.Admission.{Admission, generation_of}

pub record Outcome : Type 0 where
  pub admission : Option Admission
  pub request_id : String
  pub started_at : ℕ
  pub success : Bool
  pub neutral : Bool
  pub auth_failure : Bool
  pub limited : Bool
  pub immediate : Bool
  pub retry_after : ℕ
  pub reason : String

-- The caller holds the row's live lease.
unfoldable pub is_owned : RoutingCircuit → String → ℕ → Bool
is_owned row token now =
    not (str_eq row.lease "") && str_eq row.lease token && after row.lease_until now

-- The first `continue`: the outcome is older than the row.
unfoldable pub is_stale : Outcome → Bool → RoutingCircuit → Bool
is_stale o owned row = elim o.admission [
  | none ↦ not owned && ltb o.started_at row.opened_at
  | some a ↦ elim (generation_of row.scope a.generations) [
    | none ↦ true
    | some g ↦ not (g == row.generation) || row.is_open && not owned
  ]
]

-- The second `continue`: someone else is validating the open row.
unfoldable pub is_leased_by_other : Bool → RoutingCircuit → Bool
is_leased_by_other owned row = row.is_open && not owned && not (str_eq row.lease "")

abbrev pub settle_neutral : Bool → RoutingCircuit → RoutingCircuit
settle_neutral owned row =
    if owned
    then record row { lease = ""; lease_until = 0; check_lease = ""; check_until = none }
    else row

-- The assignments after a success on a closed or owned row.
abbrev pub settle : RoutingCircuit → RoutingCircuit
settle row = record row {
  failures = 0;
  failure_times = [];
  backoff_sec = 0;
  reason = "";
  lease = "";
  lease_until = 0;
  check_lease = "";
  check_until = none;
}

abbrev pub save_some : Option RoutingCircuit → List RoutingCircuit → List RoutingCircuit
save_some none rows = rows
save_some (some r) rows = save_circuit r rows

-- The unique index on (scope, request_id).
unfoldable pub is_recorded : Scope → String → List RoutingObservation → Bool
is_recorded scope id [] = false
is_recorded scope id (x ∷ xs) =
    scope_eq x.scope scope && str_eq x.request_id id || is_recorded scope id xs

module _ {F : Type 0} ⦃fl : Float64 F⦄ where
  -- The window's cut in milliseconds. Clock readings lie far above an hour, so `-` is exact.
  unfoldable pub window_cut : SchedulerSettings F → ℕ → ℕ
  window_cut cfg now = unix_milli (now - seconds cfg.circuit_window_sec)

  unfoldable pub track_attempt : SchedulerSettings F → ℕ → RoutingCircuit → RoutingCircuit
  unfolding window_cut
  track_attempt cfg now row = record row {
    attempt_times =
        track_timestamp row.attempt_times (unix_milli now) (window_cut cfg now)
          max_tracked_attempts;
  }

  unfoldable pub settle_success :
      SchedulerSettings F → ℕ → Bool → Bool → RoutingCircuit → RoutingCircuit
  settle_success cfg now on_key owned row =
      let tracked = if on_key then row else track_attempt cfg now row in
      let closed = if tracked.is_open then close_circuit tracked now else tracked in
      if not tracked.is_open || owned then settle closed else tracked

  -- Failures of a dimension that stalls before its first token weigh more.
  unfoldable pub failure_weight : SchedulerSettings F → Outcome → ℕ
  failure_weight cfg o =
      if str_eq o.reason failure_first_token_timeout && ltb 1 cfg.ftt_failure_weight
      then cfg.ftt_failure_weight
      else 1

  unfoldable pub count_failure : SchedulerSettings F → ℕ → Outcome → RoutingCircuit → RoutingCircuit
  unfolding failure_weight track_attempt
  count_failure cfg now o row =
      let cut = window_cut cfg now in
      let kept = select (λ t. ltb cut t) row.failure_times in
      let times =
        track_timestamp (kept ++ replicate (failure_weight cfg o) (unix_milli now)) 0 cut
          max_tracked_failures in
      record (track_attempt cfg now row) { failure_times = times; failures = length times }

  -- Whether a counted failure opens the row.
  unfoldable pub must_open : SchedulerSettings F → Bool → Outcome → RoutingCircuit → Bool
  must_open cfg owned o row =
      owned
      || o.limited
      || o.immediate
      || leb (circuit_threshold row cfg) row.failures
      || sustained_failure row cfg

  unfoldable pub settle_failure :
      SchedulerSettings F → ℕ → Dimension → Bool → Bool → Outcome → RoutingCircuit → RoutingCircuit
  settle_failure cfg now d on_key owned o row =
      let at_d = record row {
        protocol = d.protocol;
        model = d.model;
        path = d.path;
        stream = d.stream;
      } in
      let counted = count_failure cfg now o row in
      if on_key
      then (if o.auth_failure || owned
          then open_circuit at_d now o.reason o.retry_after cfg
          else row)
      else if owned || not o.auth_failure
      then (if must_open cfg owned o counted
          then open_circuit counted now o.reason o.retry_after cfg
          else counted)
      else row

  -- The three kinds of outcome.
  unfoldable pub settle_outcome :
      SchedulerSettings F → ℕ → Dimension → Bool → Bool → Outcome → RoutingCircuit → RoutingCircuit
  settle_outcome cfg now d on_key owned o row =
      if o.neutral
      then settle_neutral owned row
      else if o.success
      then settle_success cfg now on_key owned row
      else settle_failure cfg now d on_key owned o row

  -- One round of Observe's loop: none is `continue`, and some row is saved.
  unfoldable pub observe_row :
      SchedulerSettings F
      → ℕ
      → Dimension
      → String
      → Outcome
      → RoutingCircuit
      → Option RoutingCircuit
  observe_row cfg now d token o row =
      let owned = is_owned row token now in
      let on_key = scope_eq row.scope (key_scope d.key_id) in
      if is_stale o owned row || is_leased_by_other owned row
      then none
      else some (settle_outcome cfg now d on_key owned o row)

  unfoldable pub observe :
      (Dimension → ℕ) → SchedulerSettings F → ℕ → Dimension → String → Outcome → Db → Db
  observe sha settings now d token o db =
      let cfg = normalize settings in
      let (rows1, key) = lock d (key_scope d.key_id) db.circuits in
      let (rows2, r) = lock d (digest (sha d)) rows1 in
      let seen = not (str_eq o.request_id "") && is_recorded r.scope o.request_id db.observations in
      let observations =
        if str_eq o.request_id ""
        then db.observations
        else record { scope = r.scope; request_id = o.request_id } ∷ db.observations in
      let rows3 = save_some (observe_row cfg now d token o key) rows2 in
      let rows4 = save_some (observe_row cfg now d token o r) rows3 in
      if seen
      then record db { circuits = rows2 }
      else record db { circuits = rows4; observations = observations }
