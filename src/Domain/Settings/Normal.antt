-- ===== src/Domain/Settings/Normal.antt =====
-- backend/internal/domain/scheduler.go: the ranges that Normalize establishes, which the
-- components rely on.
use simple_up_manage.Prelude.{
  ◌≤◌, ◌<◌, ◌≡◌, inl, inr, String, true, Float64, arith, if◌then◌else◌, eq_iff, refl, Bool-cases,
}
use simple_up_manage.Prelude.Text.{trim_space}
use simple_up_manage.Domain.Settings.{SchedulerSettings, normalize, is_ranking_mode}

-- The ranges of the integer settings.
pub record IsNormal {F : Type 0} (s : SchedulerSettings F) : Type 0 where
  pub window : (0 < s.circuit_window_sec) × (s.circuit_window_sec ≤ 3600)
  pub threshold : (0 < s.circuit_failure_threshold) × (s.circuit_failure_threshold ≤ 100)
  pub cooldown : (0 < s.circuit_cooldown_sec) × (s.circuit_cooldown_sec ≤ 600)
  pub max_cooldown :
      (s.circuit_cooldown_sec ≤ s.circuit_max_cooldown_sec) × (s.circuit_max_cooldown_sec ≤ 3600)
  pub ftt_weight : (0 < s.ftt_failure_weight) × (s.ftt_failure_weight ≤ 10)
  pub recovery_budget : (0 < s.recovery_budget_per_min) × (s.recovery_budget_per_min ≤ 10)
  pub check_timeout : (0 < s.recovery_check_timeout_sec) × (s.recovery_check_timeout_sec ≤ 300)
  pub first_token_wait :
      (0 < s.failover_first_token_wait_sec) × (s.failover_first_token_wait_sec ≤ 30)
  pub failover : (0 < s.failover_max) × (s.failover_max ≤ 5)
  pub retries : s.retry_max ≤ 5
  pub samples : (0 < s.min_samples) × (0 < s.window_max_samples)
  pub failure_window : (0 < s.failure_window_sec) × (s.failure_window_sec ≤ 3600)
  pub failure_threshold : (0 < s.failure_threshold) × (s.failure_threshold ≤ 100)
  pub ranking : is_ranking_mode s.ranking_mode ≡ true
  pub stable_window :
      s.ranking_mode ≡ "stable_latency"
      → (5 ≤ s.min_samples) × (s.min_samples ≤ s.window_max_samples)

chosen_mode : (m : String) → is_ranking_mode (if is_ranking_mode m then m else "adaptive") ≡ true
chosen_mode m = elim (Bool-cases (is_ranking_mode m)) [
  | inl e ↦ rw e e
  | inr e ↦ rw e (unfold is_ranking_mode in refl)
]

module _ {F : Type 0} ⦃fl : Float64 F⦄ where
  -- Whatever is stored, the normalized settings lie in the ranges of `IsNormal`.
  pub normalize-IsNormal : (s : SchedulerSettings F) → IsNormal (normalize s)
  unfolding normalize
  normalize-IsNormal s = record {
    window = ground arith;
    threshold = ground arith;
    cooldown = ground arith;
    max_cooldown = ground arith;
    ftt_weight = ground arith;
    recovery_budget = ground arith;
    check_timeout = ground arith;
    first_token_wait = ground arith;
    failover = ground arith;
    retries = ground arith;
    samples = ground arith;
    failure_window = ground arith;
    failure_threshold = ground arith;
    ranking = chosen_mode (trim_space s.ranking_mode);
    stable_window = λ h. ground (arith, eq_iff (normalize s).ranking_mode "stable_latency");
  }
