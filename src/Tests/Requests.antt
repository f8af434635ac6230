-- ===== src/Tests/Requests.antt =====
-- backend/internal/handler/gateway.go and backend/internal/ops/routegroup.go: the theorems on limits,
-- keys, HTTP failures and route groups at concrete data.
use Prim.Native.String.{◌++◌ as str_append}
use text.Mathlib.TextBridge.{IsPrefix}
use simple_up_manage.Prelude.{
  ℕ, ◌≡◌, ◌≢◌, ◌⊎◌, ◌↔◌, refl, String, true, false, not, ◌&&◌, ◌||◌, none, some, List, [], ◌∷◌, ltb,
  ◌==◌, arith, OnSome,
}
use simple_up_manage.Prelude.Text.{trim_space}
use simple_up_manage.Domain.Routing.{seconds}
use simple_up_manage.Domain.Provider.{TextLib}
use simple_up_manage.Picker.Candidates.{has}
use simple_up_manage.Circuit.Observe.{is_owned, observe_row}
use simple_up_manage.Circuit.Admission.{Admission}
use simple_up_manage.Routes.Groups.{
  RouteGroup, Tables, matched_groups, matched_members, resolve_group_allow_keys, match_model,
}
use simple_up_manage.Routes.Allowed.{any, places_key, resolve_group_allow_keys_iff}
use simple_up_manage.Routes.Patterns.{match_model_iff}
use simple_up_manage.Gateway.Outcome.{Body, classify_http_failure}
use simple_up_manage.Gateway.Classes.{told, rejection_leaves_row}
use simple_up_manage.Gateway.Limits.{
  ConsumerKey, accepted, refused, allow, conc_acquire, check_limits, check_key, auth_consumer,
}
use simple_up_manage.Gateway.Rates.{Calls, start, call, in_minute, allow_exact}
use simple_up_manage.Gateway.Slots.{Uses, acquires, held_of, conc_acquire_exact}
use simple_up_manage.Gateway.Auth.{
  OverLimit, Refusal, auth_consumer_refused, auth_consumer_accepted,
}
use simple_up_manage.Tests.Data.{fixed, settings, route, own, closed_gate, ticket}

abbrev plain : TextLib
plain = record { to_lower = λ s. s; json_strings = λ s. none }

-- One call of the key 3 at second 1000, under a limit of one call.
abbrev one_window : ℕ → List ℕ
one_window = (allow (seconds 1000) 3 1 (λ id. [])).0

one_call : Calls (seconds 1000) one_window ((3, seconds 1000) ∷ [])
unfolding allow
one_call = call (seconds 1000) 3 1 start (ground arith) (ground arith)

allow_exact_example :
    (allow (seconds 1030) 3 1 one_window).1
    ≡ ltb (in_minute (seconds 1030) 3 ((3, seconds 1000) ∷ [])) 1
allow_exact_example = allow_exact (seconds 1030) 3 1 one_call (ground arith) (ground arith)

abbrev one_slot : ℕ → ℕ
one_slot = (conc_acquire 1 1 (λ id. 0)).0

one_use : Uses one_slot ((1, 1) ∷ [])
unfolding conc_acquire
one_use = acquires 1 1 simple_up_manage.Gateway.Slots.Uses.start refl

conc_acquire_exact_example :
    (conc_acquire 1 1 one_slot).1 ≡ 1 == 0 || ltb (held_of 1 ((1, 1) ∷ [])) 1
conc_acquire_exact_example = conc_acquire_exact 1 1 one_use

abbrev consumer : ConsumerKey ℕ
consumer = record { id = 3; status = "enabled"; quota_usd = 0; quota_used = 0; rpm = 1 }

abbrev token : String
token = "sk"

abbrev too_many : ℕ
too_many = 429

auth_refused :
    (auth_consumer (seconds 1030) true token (λ s. some consumer) one_window).1
    ≡ refused too_many "rate_limit_error" "RPM exceeded"
unfolding auth_consumer check_key check_limits allow
auth_refused = refl

auth_consumer_refused_example :
    ((too_many ≡ 401) × ((token ≡ "") ⊎ (some consumer ≡ none)))
    ⊎ ((k : ConsumerKey ℕ) × (token ≢ "")
        × (some consumer ≡ some k)
        × Refusal (seconds 1030) ((3, seconds 1000) ∷ []) true k too_many)
auth_consumer_refused_example =
    auth_consumer_refused (seconds 1000) (seconds 1030) true token (λ s. some consumer) one_window
      ((3, seconds 1000) ∷ []) too_many "rate_limit_error" "RPM exceeded" one_call (ground arith)
      auth_refused

auth_accepted :
    (auth_consumer (seconds 1070) true token (λ s. some consumer) one_window).1 ≡ accepted consumer
unfolding auth_consumer check_key check_limits allow
auth_accepted = refl

auth_consumer_accepted_example :
    (token ≢ "")
    × (some consumer ≡ some consumer)
    × (consumer.status ≡ "enabled")
    × (true ≡ true → OverLimit (seconds 1070) ((3, seconds 1000) ∷ []) consumer → ⊥)
auth_consumer_accepted_example =
    auth_consumer_accepted (seconds 1000) (seconds 1070) true token (λ s. some consumer) one_window
      ((3, seconds 1000) ∷ []) consumer one_call (ground arith) auth_accepted

abbrev no_body : Body
no_body = record { envelope = none; codes = none }

rejects_422 : (classify_http_failure plain (λ a b. false) 422 no_body).fail_over ≡ false
unfolding classify_http_failure
rejects_422 = refl

rejection_leaves_row_example :
    OnSome
      (λ r'. r' ≡ closed_gate)
      (observe_row settings
        (seconds 20000)
        route
        "a"
        (told plain
          (λ a b. false)
          settings
          (seconds 20000)
          route
          "a"
          ticket
          "r1"
          (seconds 19990)
          false
          closed_gate
          422
          no_body)
        closed_gate)
unfolding is_owned
rejection_leaves_row_example =
    rejection_leaves_row plain (λ a b. false) settings (seconds 20000) route "a" ticket "r1"
      (seconds 19990) false closed_gate 422 no_body (ground arith) (ground arith) rejects_422

-- An admission of the closed gate.
abbrev fresh : Admission
fresh = record ticket { generations = (own, 0) ∷ [] }

-- A group for one half of the rates, with a member inside and one outside.
abbrev cheap : RouteGroup ℕ
cheap = record {
  id = 4;
  protocol = "openai";
  models = "gpt*" ∷ [];
  rate_min = none;
  rate_max = some 2000000;
  status = "enabled";
}

abbrev tables : Tables ℕ
tables = record {
  groups = cheap ∷ [];
  members =
      record { route_group_id = 4; platform_key_id = 7 }
      ∷ record { route_group_id = 4; platform_key_id = 8 }
      ∷ [];
  rates = (7, 1000000) ∷ (8, 3000000) ∷ [];
}

resolve_group_allow_keys_iff_example :
    let matched = matched_groups plain (4 ∷ []) "openai" "gpt-4" tables in
    let members = matched_members matched tables in
    let sets = resolve_group_allow_keys plain (4 ∷ []) "openai" "gpt-4" tables in
    let inside = any (places_key matched tables.rates 8 true) members in
    (has 8 sets.0 ≡ inside)
    × (has 8 sets.1 ≡ any (places_key matched tables.rates 8 false) members && not inside)
resolve_group_allow_keys_iff_example =
    resolve_group_allow_keys_iff plain (4 ∷ []) "openai" "gpt-4" tables 8

abbrev pattern : String
pattern = "gpt*"

abbrev stem : String
stem = "gpt"

match_model_iff_example : (match_model plain pattern "gpt-4" ≡ true) ↔ (
    (trim_space pattern ≡ "*")
    ⊎ ((trim_space pattern ≡ trim_space "gpt-4")
        ⊎ ((q : String) × (trim_space pattern ≡ str_append q "*")
            × IsPrefix q (trim_space "gpt-4"))))
match_model_iff_example = match_model_iff plain pattern "gpt-4"
