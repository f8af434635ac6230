-- ===== src/Picker/Candidates.antt =====
-- backend/internal/picker/picker.go, score.go, and inspect, hardReject and effectiveRankingMode of
-- band.go: which keys may serve a request. Of Candidate the columns that the selection reads are
-- kept. What the metrics say of a key (package metrics, through redis) is an argument; hardReject
-- reads the clock twice in a row, here once.
use simple_up_manage.Prelude.{
  ℕ, String, Bool, true, false, not, ◌&&◌, ◌||◌, Option, none, some, List, [], ◌∷◌, ltb, leb, ◌==◌,
  if◌then◌else◌, str_eq, Float64,
}
use simple_up_manage.Prelude.Text.{trim_space}
use simple_up_manage.Domain.Settings.{SchedulerSettings, model_filter_enabled}
use simple_up_manage.Domain.Routing.{after?}
use simple_up_manage.Domain.Provider.{
  Upstream, PlatformKey, TextLib, supports_protocol, supports_model,
}
use simple_up_manage.Metrics.Window.{Window}
use simple_up_manage.Picker.Runtime.{RuntimeState, resource_snapshot}

-- The maps that are sets of ids are lists; a nil AllowKeys is none.
pub record Request : Type 0 where
  pub protocol : String
  pub model : String
  pub session : String
  pub allow_keys : Option (List ℕ)
  pub drift_keys : List ℕ
  pub route_reasons : ℕ → String

pub record Candidate (F : Type 0) : Type 0 where
  pub recovery_last_at : Option ℕ
  pub circuit_until : ℕ
  pub latency_samples : ℕ
  pub last_sample_at : ℕ
  pub reliable : Bool
  pub key_id : ℕ
  pub upstream_id : ℕ
  pub eligible : Bool
  pub skip_reason : String
  pub quality : F
  pub rate : F
  pub effective_cost : F
  pub success_rate : F
  pub cache_rate : F
  pub ttft_p50 : ℕ
  pub samples : ℕ
  pub ranking_mode : String
  pub current_rpm : ℕ
  pub key_inflight : ℕ
  pub provider_inflight : ℕ

unfoldable pub has : ℕ → List ℕ → Bool
has i [] = false
has i (j ∷ ids) = i == j || has i ids

unfoldable pub effective_ranking_mode : String → String → String
unfolding trim_space
effective_ranking_mode configured session =
    if str_eq configured "adaptive"
    then (if str_eq (trim_space session) "" then "load_balance" else "cache_affinity")
    else configured

-- The test of AllowKeys, DriftKeys and RouteReasons.
unfoldable pub route_skip : Request → ℕ → Option String
unfolding has
route_skip req id = elim req.allow_keys [
  | none ↦ none
  | some allowed ↦
      if has id allowed
      then none
      else if has id req.drift_keys
      then some "route_rate_drift"
      else if str_eq (req.route_reasons id) ""
      then some "not_in_route_group"
      else some (req.route_reasons id)
]

module _ {F : Type 0} where
  -- The last three tests of inspect.
  unfoldable pub capacity_skip : PlatformKey F → ℕ × ℕ × ℕ → Option String
  capacity_skip key (rpm, key_inflight, provider_inflight) =
      if ltb 0 key.rpm_limit && leb key.rpm_limit rpm
      then some "key_rpm_exceeded"
      else if ltb 0 key.max_concurrency && leb key.max_concurrency key_inflight
      then some "key_concurrency_exceeded"
      else elim key.upstream [
        | none ↦ none
        | some up ↦
            if ltb 0 up.concurrency && leb up.concurrency provider_inflight
            then some "provider_concurrency_exceeded"
            else none
      ]

module _ {F : Type 0} ⦃fl : Float64 F⦄ where
  open fl use {ltf, lef, add, sub, mul, div, lit, of_int}

  unfoldable pub clamp01 : F → F
  clamp01 v = if ltf v (lit 0 0) then lit 0 0 else if ltf (lit 1 0) v then lit 1 0 else v

  -- One weighted term of Quality.
  unfoldable pub weigh : Bool → F → F → F × F → F × F
  weigh used weight value (num, den) =
      if used && ltf (lit 0 0) weight
      then (add num (mul weight value), add den weight)
      else (num, den)

  -- Quality.
  unfoldable pub quality_of : Window F → SchedulerSettings F → F
  unfolding clamp01 weigh
  quality_of w cfg =
      let success = if ltb w.samples cfg.min_samples then cfg.prior_success else w.success_rate in
      let latency =
        if ltb 0 cfg.ttft_cap_ms
        then sub (lit 1 0) (clamp01 (div (of_int w.ttft_p50) (of_int cfg.ttft_cap_ms)))
        else lit 1 0 in
      let terms = weigh w.has_cache cfg.weight_cache (clamp01 w.cache_rate) (
        weigh w.has_latency cfg.weight_ttft latency
          (weigh true cfg.weight_success (clamp01 success) (lit 0 0, lit 0 0))) in
      if lef terms.1 (lit 0 0) then lit 0 0 else div terms.0 terms.1

  -- effectiveCost.
  unfoldable pub cost_of : F → F → F
  unfolding clamp01
  cost_of rate cache_rate =
      let paid = if ltf rate (lit 0 0) then lit 0 0 else rate in
      mul paid (sub (lit 1 0) (mul (lit 5 1) (clamp01 cache_rate)))

  -- hardReject behind the test of the provider.
  unfoldable pub provider_reject :
      TextLib → ℕ → PlatformKey F → Upstream F → String → String → Bool → String
  provider_reject lib t key up protocol model filter =
      if not (str_eq up.status "enabled")
      then "upstream_disabled"
      else if after? up.cooldown_until t
      then "provider_cooldown"
      else if not (supports_protocol lib key protocol)
      then "protocol_mismatch"
      else if filter && not (supports_model lib key model)
      then "model_not_supported"
      else if after? key.cooldown_until t
      then "cooldown"
      else if elim up.last_balance [ none ↦ false | some b ↦ lef b (lit 0 0) ]
      then "low_balance"
      else if str_eq key.health_status "disabled"
      then "disabled"
      else if str_eq key.health_status "low_balance"
      then "low_balance"
      else ""

  -- hardReject.
  unfoldable pub hard_reject :
      TextLib → ℕ → PlatformKey F → String → String → Bool → List ℕ → String
  unfolding provider_reject
  hard_reject lib t key protocol model filter excluded =
      if has key.id excluded
      then "excluded"
      else if not (str_eq key.status "enabled")
      then "key_disabled"
      else elim key.upstream [
        | none ↦ "upstream_disabled"
        | some up ↦ provider_reject lib t key up protocol model filter
      ]

  -- The early returns of inspect, in their order: none is a candidate that may be picked.
  unfoldable pub skip_of :
      TextLib
      → ℕ
      → PlatformKey F
      → Request
      → SchedulerSettings F
      → (excluded excluded_providers excluded_key_models model_cooldowns : List ℕ) → ℕ × ℕ × ℕ
      → Option String
  skip_of lib t key req cfg excluded excluded_providers excluded_key_models model_cooldowns used =
      let rejected =
        hard_reject lib t key req.protocol req.model (model_filter_enabled cfg) excluded in
      elim (route_skip req key.id) [
        | some reason ↦ some reason
        | none ↦
            if not (str_eq rejected "")
            then some rejected
            else if has key.upstream_id excluded_providers
            then some "provider_excluded"
            else if has key.id excluded_key_models
            then some "key_model_excluded"
            else if has key.id model_cooldowns
            then some "key_model_cooldown"
            else capacity_skip key used
      ]

  -- The candidate before the early returns.
  abbrev pub new_candidate : PlatformKey F → Request → SchedulerSettings F → ℕ × ℕ × ℕ → Candidate F
  new_candidate key req cfg (rpm, key_inflight, provider_inflight) = record {
    recovery_last_at = none;
    circuit_until = 0;
    latency_samples = 0;
    last_sample_at = 0;
    reliable = false;
    key_id = key.id;
    upstream_id = key.upstream_id;
    eligible = false;
    skip_reason = "";
    quality = lit 0 0;
    rate = key.rate_multiplier;
    effective_cost = lit 0 0;
    success_rate = lit 0 0;
    cache_rate = lit 0 0;
    ttft_p50 = 0;
    samples = 0;
    ranking_mode = effective_ranking_mode cfg.ranking_mode req.session;
    current_rpm = rpm;
    key_inflight = key_inflight;
    provider_inflight = provider_inflight;
  }

  -- The candidate behind them, with what the metrics say of the key and the model.
  unfoldable pub scored : SchedulerSettings F → Window F → Candidate F → Candidate F
  scored cfg w c =
      if str_eq cfg.ranking_mode "stable_latency" then record c { eligible = true } else record c {
        success_rate = w.success_rate;
        cache_rate = w.cache_rate;
        ttft_p50 = w.ttft_p50;
        samples = w.samples;
        quality = quality_of w cfg;
        effective_cost = cost_of c.rate w.cache_rate;
        eligible = true;
      }

  abbrev pub decided : SchedulerSettings F → Window F → Candidate F → Option String → Candidate F
  decided cfg w c none = scored cfg w c
  decided cfg w c (some reason) = record c { skip_reason = reason }

  -- inspect.
  unfoldable pub inspect :
      TextLib
      → (ℕ → String → Window F)
      → (now t : ℕ) → PlatformKey F
      → Request
      → SchedulerSettings F
      → (excluded excluded_providers excluded_key_models model_cooldowns : List ℕ) → RuntimeState
      → RuntimeState × Candidate F
  inspect lib metrics now t key req cfg excluded excluded_providers excluded_key_models
        model_cooldowns st =
      let (st', used) = resource_snapshot now key.id key.upstream_id st in
      let c = new_candidate key req cfg used in
      let skip =
        skip_of lib t key req cfg excluded excluded_providers excluded_key_models model_cooldowns
          used in
      (st', decided cfg (metrics key.id req.model) c skip)
