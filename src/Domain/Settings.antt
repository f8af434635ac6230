-- ===== src/Domain/Settings.antt =====
-- backend/internal/domain/scheduler.go: the scheduler's settings, their defaults and Normalize.
-- An `int` is a natural number: a negative value that a client sends is represented by 0, which
-- every test of Normalize treats as it treats the negative ones.
pub mod Normal
use simple_up_manage.Prelude.{
  ℕ, max, String, Bool, true, false, ◌||◌, Option, none, some, ltb, ◌==◌, if◌then◌else◌, str_eq,
  Float64,
}
use simple_up_manage.Prelude.Text.{trim_space}

pub record SchedulerSettings (F : Type 0) : Type 0 where
  pub circuit_window_sec : ℕ
  pub circuit_failure_threshold : ℕ
  pub circuit_cooldown_sec : ℕ
  pub circuit_max_cooldown_sec : ℕ
  pub circuit_rate_factor : F
  pub ftt_failure_weight : ℕ
  pub recovery_budget_per_min : ℕ
  pub recovery_check_timeout_sec : ℕ
  pub failover_first_token_wait_sec : ℕ
  pub switch_improvement_ratio : F
  pub switch_improvement_ms : ℕ
  pub switch_confirm_sec : ℕ
  pub exploration_ratio : F
  pub probe_timeout_sec : ℕ
  pub weight_success : F
  pub weight_cache : F
  pub weight_ttft : F
  pub epsilon : F
  pub window_minutes : ℕ
  pub window_max_samples : ℕ
  pub min_samples : ℕ
  pub prior_success : F
  pub ttft_cap_ms : ℕ
  pub sticky_anthropic : Bool
  pub sticky_openai : Bool
  pub sticky_ttl_sec : ℕ
  pub failover_max : ℕ
  pub failover_exhaust_pool : Bool
  pub stream_hold_until_token : Bool
  pub retry_max : ℕ
  pub cooldown_sec : ℕ
  pub failure_window_sec : ℕ
  pub failure_threshold : ℕ
  pub ranking_mode : String
  pub probe_openai_model : String
  pub probe_anthropic_model : String
  pub probe_grok_model : String
  pub probe_zhipu_model : String
  pub probe_moonshot_model : String
  pub probe_deepseek_model : String
  pub filter_by_models : Option Bool

-- ModelFilterEnabled.
unfoldable pub model_filter_enabled : {F : Type 0} → SchedulerSettings F → Bool
model_filter_enabled s = elim s.filter_by_models [ none ↦ true | some b ↦ b ]

-- `if x <= 0 { x = low }` and then `if x > high { x = high }`.
clamp_int : ℕ → ℕ → ℕ → ℕ
clamp_int low high x = let y = if x == 0 then low else x in if ltb high y then high else y

pub is_ranking_mode : String → Bool
is_ranking_mode m =
    str_eq m "adaptive"
    || str_eq m "fixed_order"
    || str_eq m "cache_affinity"
    || str_eq m "load_balance"
    || str_eq m "stable_latency"

probe_model_or : String → String → String
unfolding trim_space
probe_model_or fallback m =
    let trimmed = trim_space m in if str_eq trimmed "" then fallback else trimmed

module _ {F : Type 0} ⦃fl : Float64 F⦄ where
  open fl use {ltf, lef, add, lit}

  -- DefaultSchedulerSettings.
  unfoldable pub default_scheduler_settings : SchedulerSettings F
  default_scheduler_settings = record {
    circuit_window_sec = 60;
    circuit_failure_threshold = 3;
    circuit_cooldown_sec = 30;
    circuit_max_cooldown_sec = 300;
    circuit_rate_factor = lit 15 2;
    ftt_failure_weight = 2;
    recovery_budget_per_min = 3;
    recovery_check_timeout_sec = 60;
    failover_first_token_wait_sec = 10;
    switch_improvement_ratio = lit 20 2;
    switch_improvement_ms = 2000;
    switch_confirm_sec = 60;
    exploration_ratio = lit 5 2;
    probe_timeout_sec = 30;
    weight_success = lit 45 2;
    weight_cache = lit 30 2;
    weight_ttft = lit 25 2;
    epsilon = lit 8 2;
    window_minutes = 15;
    window_max_samples = 50;
    min_samples = 5;
    prior_success = lit 70 2;
    ttft_cap_ms = 8000;
    sticky_anthropic = true;
    sticky_openai = false;
    sticky_ttl_sec = 3600;
    failover_max = 2;
    failover_exhaust_pool = false;
    stream_hold_until_token = false;
    retry_max = 1;
    cooldown_sec = 30;
    failure_window_sec = 60;
    failure_threshold = 8;
    ranking_mode = "adaptive";
    probe_openai_model = "gpt-4o-mini";
    probe_anthropic_model = "claude-3-haiku-20240307";
    probe_grok_model = "grok-3-mini";
    probe_zhipu_model = "glm-4.5-flash";
    probe_moonshot_model = "kimi-k2-turbo-preview";
    probe_deepseek_model = "deepseek-chat";
    filter_by_models = some true;
  }

  -- Normalize, in the order of the source: the circuit's settings first.
  normalize_circuit : SchedulerSettings F → SchedulerSettings F
  normalize_circuit s =
      let cooldown =
        if s.circuit_cooldown_sec == 0 || ltb 600 s.circuit_cooldown_sec
        then 30
        else s.circuit_cooldown_sec in
      let factor = if ltf s.circuit_rate_factor (lit 0 0) then lit 0 0 else s.circuit_rate_factor in
      record s {
        circuit_window_sec =
            if s.circuit_window_sec == 0 || ltb 3600 s.circuit_window_sec
            then 60
            else s.circuit_window_sec;
        circuit_failure_threshold =
            if s.circuit_failure_threshold == 0 || ltb 100 s.circuit_failure_threshold
            then 3
            else s.circuit_failure_threshold;
        circuit_cooldown_sec = cooldown;
        circuit_max_cooldown_sec =
            if ltb s.circuit_max_cooldown_sec cooldown || ltb 3600 s.circuit_max_cooldown_sec
            then max 300 cooldown
            else s.circuit_max_cooldown_sec;
        circuit_rate_factor = if ltf (lit 1 0) factor then lit 1 0 else factor;
      }

  normalize_recovery : SchedulerSettings F → SchedulerSettings F
  unfolding clamp_int
  normalize_recovery s = record s {
    ftt_failure_weight = clamp_int 1 10 s.ftt_failure_weight;
    recovery_budget_per_min = clamp_int 3 10 s.recovery_budget_per_min;
    recovery_check_timeout_sec =
        if s.recovery_check_timeout_sec == 0 || ltb 300 s.recovery_check_timeout_sec
        then 60
        else s.recovery_check_timeout_sec;
    failover_first_token_wait_sec = clamp_int 10 30 s.failover_first_token_wait_sec;
    switch_improvement_ratio =
        if lef s.switch_improvement_ratio (lit 0 0) || ltf (lit 1 0) s.switch_improvement_ratio
        then lit 20 2
        else s.switch_improvement_ratio;
    switch_improvement_ms = if s.switch_improvement_ms == 0 then 2000 else s.switch_improvement_ms;
    switch_confirm_sec = if s.switch_confirm_sec == 0 then 60 else s.switch_confirm_sec;
    exploration_ratio =
        if ltf s.exploration_ratio (lit 0 0) || ltf (lit 5 2) s.exploration_ratio
        then lit 5 2
        else s.exploration_ratio;
    probe_timeout_sec = clamp_int 30 300 s.probe_timeout_sec;
  }

  positive_weight : F → F
  positive_weight w = if ltf w (lit 0 0) then lit 0 0 else w

  normalize_scores : SchedulerSettings F → SchedulerSettings F
  unfolding positive_weight
  normalize_scores s =
      let success = positive_weight s.weight_success in
      let cache = positive_weight s.weight_cache in
      let ttft = positive_weight s.weight_ttft in
      let reset = lef (add (add success cache) ttft) (lit 0 0) in
      record s {
        weight_success = if reset then lit 45 2 else success;
        weight_cache = if reset then lit 30 2 else cache;
        weight_ttft = if reset then lit 25 2 else ttft;
        epsilon = if lef s.epsilon (lit 0 0) || ltf (lit 5 1) s.epsilon then lit 8 2 else s.epsilon;
        window_minutes = if s.window_minutes == 0 then 15 else s.window_minutes;
        window_max_samples = if s.window_max_samples == 0 then 50 else s.window_max_samples;
        min_samples = if s.min_samples == 0 then 5 else s.min_samples;
        prior_success =
            if lef s.prior_success (lit 0 0) || ltf (lit 1 0) s.prior_success
            then lit 70 2
            else s.prior_success;
        ttft_cap_ms = if s.ttft_cap_ms == 0 then 8000 else s.ttft_cap_ms;
        sticky_ttl_sec = if s.sticky_ttl_sec == 0 then 3600 else s.sticky_ttl_sec;
      }

  normalize_failover : SchedulerSettings F → SchedulerSettings F
  unfolding clamp_int
  normalize_failover s = record s {
    failover_max = clamp_int 1 5 s.failover_max;
    retry_max = if ltb 5 s.retry_max then 5 else s.retry_max;
    cooldown_sec = if s.cooldown_sec == 0 then 30 else s.cooldown_sec;
    failure_window_sec = clamp_int 60 3600 s.failure_window_sec;
    failure_threshold = clamp_int 8 100 s.failure_threshold;
  }

  normalize_ranking : SchedulerSettings F → SchedulerSettings F
  unfolding is_ranking_mode trim_space
  normalize_ranking s =
      let trimmed = trim_space s.ranking_mode in
      let mode = if is_ranking_mode trimmed then trimmed else "adaptive" in
      let least = if str_eq mode "stable_latency" then max s.min_samples 5 else s.min_samples in
      record s {
        ranking_mode = mode;
        min_samples = least;
        window_max_samples =
            if str_eq mode "stable_latency"
            then max s.window_max_samples least
            else s.window_max_samples;
      }

  normalize_probes : SchedulerSettings F → SchedulerSettings F
  unfolding probe_model_or
  normalize_probes s = record s {
    probe_openai_model = probe_model_or "gpt-4o-mini" s.probe_openai_model;
    probe_anthropic_model = probe_model_or "claude-3-haiku-20240307" s.probe_anthropic_model;
    probe_grok_model = probe_model_or "grok-3-mini" s.probe_grok_model;
    probe_zhipu_model = probe_model_or "glm-4.5-flash" s.probe_zhipu_model;
    probe_moonshot_model = probe_model_or "kimi-k2-turbo-preview" s.probe_moonshot_model;
    probe_deepseek_model = probe_model_or "deepseek-chat" s.probe_deepseek_model;
    filter_by_models = elim s.filter_by_models [ none ↦ some true | some b ↦ some b ];
  }

  unfoldable pub normalize : SchedulerSettings F → SchedulerSettings F
  unfolding normalize_circuit normalize_recovery normalize_scores normalize_failover
      normalize_ranking normalize_probes
  normalize s = normalize_probes (
      normalize_ranking
        (normalize_failover (normalize_scores (normalize_recovery (normalize_circuit s)))))
