-- ===== src/Circuit/Transitions.antt =====
-- backend/internal/routinghealth/store.go: how one outcome moves one circuit row.
use simple_up_manage.Prelude.{
  ℕ, ◌+◌, ◌*◌, ◌≤◌, ◌<◌, ◌≡◌, ◌≢◌, ◌⊎◌, String, Bool, true, false, some, none, length, Float64,
  arith, OnSome, refl,
}
use simple_up_manage.Domain.Settings.{SchedulerSettings}
use simple_up_manage.Domain.Settings.Normal.{IsNormal}
use simple_up_manage.Domain.Routing.{
  key_scope, scope_eq, Dimension, RoutingCircuit, next_u64, seconds,
}
use simple_up_manage.Circuit.Row.{circuit_threshold, open_seconds, open_circuit, close_circuit}
use simple_up_manage.Circuit.Admission.{Admission, generation_of}
use simple_up_manage.Circuit.Observe.{
  Outcome, is_owned, is_stale, settle_success, settle_failure, count_failure, track_attempt,
  settle_outcome, observe_row,
}

module _ {F : Type 0} ⦃fl : Float64 F⦄ where
  -- With a base of at most 8, the threshold lies between the base and 8.
  pub circuit_threshold_bounds :
      (r : RoutingCircuit) (cfg : SchedulerSettings F)
      → cfg.circuit_failure_threshold ≤ 8
      → (cfg.circuit_failure_threshold ≤ circuit_threshold r cfg) × (circuit_threshold r cfg ≤ 8)
  unfolding circuit_threshold
  circuit_threshold_bounds r cfg h = ground arith

  -- A base above 8 is lowered to 8 when at least one attempt is tracked and the rate factor is
  -- positive.
  circuit_threshold_lowered :
      (r : RoutingCircuit) (cfg : SchedulerSettings F)
      → 8 < cfg.circuit_failure_threshold
      → fl.ltf (fl.lit 0 0) cfg.circuit_rate_factor ≡ true
      → 0 < length r.attempt_times
      → circuit_threshold r cfg ≡ 8
  unfolding circuit_threshold
  circuit_threshold_lowered r cfg h f a = ground arith

  -- Under normalized settings, reopening an open row whose backoff is positive and at most the
  -- maximum, without Retry-After, at least doubles the backoff or sets it to the maximum; it does
  -- not shrink, stays at most the maximum, and the row waits exactly that long from now.
  open_circuit_doubles :
      (r : RoutingCircuit) (now : ℕ) (reason : String) (cfg : SchedulerSettings F)
      → IsNormal cfg
      → r.is_open ≡ true
      → 0 < r.backoff_sec
      → r.backoff_sec ≤ cfg.circuit_max_cooldown_sec
      → let r' = open_circuit r now reason 0 cfg in
        ((2 * r.backoff_sec ≤ r'.backoff_sec) ⊎ (r'.backoff_sec ≡ cfg.circuit_max_cooldown_sec))
        × (r.backoff_sec ≤ r'.backoff_sec)
        × (r'.backoff_sec ≤ cfg.circuit_max_cooldown_sec)
        × (r'.until ≡ now + seconds r'.backoff_sec)
  unfolding open_circuit open_seconds
  open_circuit_doubles r now reason cfg n o p b = ground arith

  -- Counting leaves the gate alone.
  pub count_failure-keeps :
      (cfg : SchedulerSettings F) (now : ℕ) (o : Outcome) (r : RoutingCircuit)
      → ((count_failure cfg now o r).is_open ≡ r.is_open)
        × ((count_failure cfg now o r).generation ≡ r.generation)
        × ((count_failure cfg now o r).scope ≡ r.scope)
  unfolding count_failure track_attempt
  count_failure-keeps cfg now o r = (refl, refl, refl)

  module _ (cfg : SchedulerSettings F) (now : ℕ) (d : Dimension) (token : String) (o : Outcome)
      (r : RoutingCircuit) where
    -- The row's gate moves only together with its generation.
    abbrev pub MovesWithGeneration : RoutingCircuit → Type 0
    MovesWithGeneration r' =
        ((r'.is_open ≡ r.is_open) × (r'.generation ≡ r.generation))
        ⊎ (r'.generation ≡ next_u64 r.generation)

    settle_outcome-generation :
        (on_key owned : Bool) → MovesWithGeneration (settle_outcome cfg now d on_key owned o r)
    unfolding settle_outcome settle_success settle_failure close_circuit open_circuit track_attempt
    settle_outcome-generation on_key owned = ground (arith, count_failure-keeps cfg now o r)

    -- In a row that an outcome saves, either the open flag and the generation are as before, or the
    -- generation is the next one.
    observe_row_generation : OnSome MovesWithGeneration (observe_row cfg now d token o r)
    unfolding observe_row
    observe_row_generation = ground (
      arith,
      settle_outcome-generation (scope_eq r.scope (key_scope d.key_id)) (is_owned r token now),
    )

    -- An outcome of a request that does not hold the row's live lease never closes an open row: if
    -- a row is saved, it is open.
    observe_row_stays_open :
        r.is_open ≡ true
        → is_owned r token now ≡ false
        → OnSome (λ r'. r'.is_open ≡ true) (observe_row cfg now d token o r)
    unfolding observe_row settle_outcome settle_success settle_failure count_failure open_circuit
        track_attempt
    observe_row_stays_open e f = ground arith

    -- An outcome whose admission saw another generation of the row saves nothing.
    observe_row_late :
        (a : Admission) (g : ℕ)
        → o.admission ≡ some a
        → generation_of r.scope a.generations ≡ some g
        → g ≢ r.generation
        → observe_row cfg now d token o r ≡ none
    unfolding observe_row is_stale
    observe_row_late a g e h n = ground arith
