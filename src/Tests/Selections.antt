-- ===== src/Tests/Selections.antt =====
-- backend/internal/picker and metrics: the theorems on the selection and the windows at concrete
-- candidates.
use simple_up_manage.Prelude.{
  str_eq, if◌then◌else◌, ℕ, ◌≡◌, refl, true, false, String, none, some, List, [], ◌∷◌,
}
use simple_up_manage.Domain.Settings.{default_scheduler_settings, model_filter_enabled}
use simple_up_manage.Domain.Routing.{seconds}
use simple_up_manage.Domain.Provider.{
  Upstream, PlatformKey, TextLib, supports_protocol, effective_protocols, supports_model, contains,
  split_csv, normalize_strings, normalize_from, valid_protocol,
}
use simple_up_manage.Metrics.Window.{Window, no_window}
use simple_up_manage.Picker.Runtime.{new_runtime, acquire, resource_snapshot}
use simple_up_manage.Picker.Capacity.{is_granted}
use simple_up_manage.Picker.Candidates.{
  Candidate, Request, new_candidate, inspect, skip_of, hard_reject, provider_reject, route_skip,
  has, capacity_skip, scored,
}
use simple_up_manage.Picker.Eligible.{inspect_eligible_granted}
use simple_up_manage.Picker.State.{StableState, no_state}
use simple_up_manage.Picker.Stable.{AttemptRow, find_key, stable_decide}
use simple_up_manage.Picker.Sessions.{stable_decide_keeps, Kept}
use simple_up_manage.Tests.Data.{fixed, settings, key, provider}

-- Texts that are in lower case already, and no JSON.
abbrev plain_text : TextLib
plain_text = record { to_lower = λ s. s; json_strings = λ s. none }

abbrev any_key : Request
any_key = record {
  protocol = "openai";
  model = "m";
  session = "";
  allow_keys = none;
  drift_keys = [];
  route_reasons = λ k. "";
}

abbrev provider_on : Upstream ℕ
provider_on = record provider { status = "enabled" }

abbrev key_on : PlatformKey ℕ
key_on = record key { status = "enabled"; upstream = some provider_on }

abbrev unmeasured : ℕ → String → Window ℕ
unmeasured k m = no_window

is_eligible :
    (inspect plain_text unmeasured
      (seconds 1000)
      (seconds 1000)
      key_on
      any_key
      settings
      []
      []
      []
      []
      new_runtime).1.eligible
    ≡ true
unfolding inspect resource_snapshot skip_of hard_reject provider_reject route_skip has capacity_skip
    model_filter_enabled default_scheduler_settings supports_protocol supports_model
    effective_protocols split_csv normalize_strings normalize_from contains valid_protocol scored
is_eligible = refl

inspect_eligible_granted_example :
    is_granted
      (acquire
        (seconds 1000)
        key_on
        provider_on
        (inspect plain_text unmeasured
          (seconds 1000)
          (seconds 1000)
          key_on
          any_key
          settings
          []
          []
          []
          []
          new_runtime).0).1
    ≡ true
inspect_eligible_granted_example =
    inspect_eligible_granted plain_text unmeasured (seconds 1000) (seconds 1000) key_on provider_on
      any_key settings [] [] [] [] new_runtime refl refl is_eligible

abbrev base : Candidate ℕ
base = new_candidate key any_key settings (0, 0, 0)

abbrev cand : ℕ → ℕ → ℕ → Candidate ℕ
cand id samples ttft = record base {
  key_id = id;
  eligible = true;
  samples = samples;
  latency_samples = samples;
  ttft_p50 = ttft;
  success_rate = 900000;
}

-- The session "s" is bound to key 5; key 4 is faster.
abbrev sticky : StableState
sticky = record no_state {
  bindings = λ s.
      if str_eq s "s"
      then some (record { key = 5; expires = 9000000; challenger = 0; since = 0 })
      else none;
}

abbrev no_rows : ℕ → List AttemptRow
no_rows k = []

abbrev pair : List (Candidate ℕ)
pair = cand 4 9 700 ∷ record (cand 5 9 750) { reliable = true } ∷ []

stable_decide_keeps_example :
    let v =
      stable_decide settings 70000 true false false false "s" no_rows pair
        (0, cand 4 9 700)
        sticky in
    Kept settings 70000 false false "s" no_rows pair
      (0, cand 4 9 700)
      sticky
      (record { key = 5; expires = 9000000; challenger = 0; since = 0 })
      (1, record (cand 5 9 750) { reliable = true })
      v
unfolding find_key
stable_decide_keeps_example =
    stable_decide_keeps settings 70000 false false "s" no_rows pair (0, cand 4 9 700) sticky true
      (record { key = 5; expires = 9000000; challenger = 0; since = 0 })
      (1, record (cand 5 9 750) { reliable = true }) refl refl refl refl refl
