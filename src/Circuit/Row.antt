-- ===== src/Circuit/Row.antt =====
-- backend/internal/routinghealth/store.go: the functions on one circuit row.
use simple_up_manage.Prelude.{
  ℕ, ◌+◌, ◌-◌, ◌*◌, ◌/◌, min, max, String, Bool, true, false, ◌&&◌, none, List, [], ◌∷◌, ◌++◌,
  length, drop, select, ltb, ◌==◌, if◌then◌else◌, Float64,
}
use simple_up_manage.Domain.Settings.{SchedulerSettings}
use simple_up_manage.Domain.Routing.{RoutingCircuit, seconds, next_u64}

abbrev pub max_tracked_attempts : ℕ
max_tracked_attempts = 120

abbrev pub max_tracked_failures : ℕ
max_tracked_failures = 64

abbrev pub circuit_max_failure_threshold : ℕ
circuit_max_failure_threshold = 8

abbrev pub sustained_min_attempts : ℕ
sustained_min_attempts = 8

-- trackTimestamp.
unfoldable pub track_timestamp : List ℕ → ℕ → ℕ → ℕ → List ℕ
track_timestamp times at cut cap =
    let kept = select (λ t. ltb cut t) times in
    let kept' = if at == 0 then kept else kept ++ at ∷ [] in
    if ltb cap (length kept') then drop (length kept' - cap) kept' else kept'

module _ {F : Type 0} ⦃fl : Float64 F⦄ where
  open fl use {ltf, lef, mul, lit, of_int, ceil_int}

  -- circuitThreshold.
  unfoldable pub circuit_threshold : RoutingCircuit → SchedulerSettings F → ℕ
  circuit_threshold r cfg =
      let threshold = cfg.circuit_failure_threshold in
      let dynamic = ceil_int (mul (of_int (length r.attempt_times)) cfg.circuit_rate_factor) in
      let at_least = if ltb dynamic threshold then threshold else dynamic in
      if ltf (lit 0 0) cfg.circuit_rate_factor && ltb 0 (length r.attempt_times)
      then (if ltb circuit_max_failure_threshold at_least
          then circuit_max_failure_threshold
          else at_least)
      else threshold

  -- sustainedFailure. The constant 1 - sustainedSuccessFloor is 0.4, exact until it is rounded.
  unfoldable pub sustained_failure : RoutingCircuit → SchedulerSettings F → Bool
  sustained_failure r cfg =
      let attempts = length r.attempt_times in
      if ltb attempts sustained_min_attempts
      then false
      else lef (mul (of_int attempts) (lit 4 1)) (of_int r.failures)

  open fl use {add, div, trunc_int}

  -- Duration.Seconds: whole seconds plus the nanoseconds over 1e9.
  unfoldable pub duration_seconds : ℕ → F
  duration_seconds d =
      add (of_int (d / 1000000000))
        (div (of_int (d - d / 1000000000 * 1000000000)) (lit 1000000000 0))

  -- The whole seconds that open waits.
  unfoldable pub open_seconds : RoutingCircuit → ℕ → SchedulerSettings F → ℕ
  unfolding duration_seconds
  open_seconds r retry cfg =
      let doubled =
        min (max r.backoff_sec cfg.circuit_cooldown_sec * 2) cfg.circuit_max_cooldown_sec in
      let grown =
        if ltb (cfg.circuit_max_cooldown_sec / 2) doubled
        then cfg.circuit_max_cooldown_sec
        else doubled in
      let backoff = if r.is_open && ltb 0 r.backoff_sec then grown else cfg.circuit_cooldown_sec in
      if ltb 0 retry then max 1 (trunc_int (add (duration_seconds retry) (lit 999 3))) else backoff

  -- open.
  unfoldable pub open_circuit :
      RoutingCircuit → ℕ → String → ℕ → SchedulerSettings F → RoutingCircuit
  open_circuit r now reason retry cfg =
      let waited = open_seconds r retry cfg in
      record r {
        is_open = true;
        generation = next_u64 r.generation;
        backoff_sec = min waited cfg.circuit_max_cooldown_sec;
        opened_at = now;
        until = now + seconds waited;
        reason = reason;
        lease = "";
        lease_until = 0;
        check_ok = false;
        check_lease = "";
        check_until = none;
        next_check_at = none;
        check_backoff = 0;
      }

-- closeCircuit.
unfoldable pub close_circuit : RoutingCircuit → ℕ → RoutingCircuit
close_circuit r now = record r {
  generation = next_u64 r.generation;
  is_open = false;
  opened_at = now;
  until = 0;
  failures = 0;
  backoff_sec = 0;
  failure_times = [];
  attempt_times = [];
  reason = "";
  lease = "";
  check_lease = "";
  lease_until = 0;
  check_until = none;
  next_check_at = none;
  check_backoff = 0;
}
