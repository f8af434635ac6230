-- ===== src/Gateway/Setup.antt =====
-- backend/internal/handler/gateway.go and dash_hooks.go: Gateway.proxy from behind authConsumer to the
-- failover loop, and both together.
use simple_up_manage.Prelude.{
  ℕ, String, Bool, true, false, not, ◌&&◌, Option, none, some, List, [], ◌∷◌, map, length, is_empty,
  select, ltb, if◌then◌else◌, str_eq,
}
use simple_up_manage.Domain.Settings.{SchedulerSettings}
use simple_up_manage.Domain.Routing.{seconds}
use simple_up_manage.Domain.Provider.{PlatformKey, allows_probe}
use simple_up_manage.Picker.Candidates.{has}
use simple_up_manage.Gateway.Rounds.{
  Plan, no_exclusions, Loop, allowed, Round, Event, no_route, Ending, answered,
}
use simple_up_manage.Gateway.Failover.{proxy_loop}

-- What ResolveSnapshotAllowKeys answers: the allowed and the drifted keys, and whether the client is
-- bound; or the text of an error.
pub data Resolved : Type 0 where
  resolved : List ℕ → List ℕ → Bool → Resolved
  unresolved : String → Resolved

-- What the request and the picker are, as far as the failover is concerned.
pub record Setting : Type 0 where
  pub controlled : Bool
  pub runtime : Bool
  pub model : String
  pub request_id : String

-- How the request goes on: an answer, with what was recorded, or the loop.
pub data Begun : Type 0 where
  ended : List Event → Ending → Begun
  loops : Plan → Loop → Begun

-- How the body of the request was read: whole, over the limit of image requests, or with an error.
pub data BodyRead : Type 0 where
  read_whole too_large unreadable : BodyRead

-- proxy between authConsumer and the settings, with the error of snapshotConsumerBinding, if any.
unfoldable pub open_request : Option String → BodyRead → Begun → Begun
open_request (some msg) body next = ended [] (answered 500 msg "api_error")
open_request none too_large next =
    ended [] (answered 413 "request body too large" "invalid_request_error")
open_request none unreadable next =
    ended [] (answered 400 "failed to read body" "invalid_request_error")
open_request none read_whole next = next

-- restrictProbeEnabled: the keys that allow probes, and whether that emptied the pool. `keys` is the
-- table of keys.
module _ {F : Type 0} where
  unfoldable pub restrict_probe_enabled :
      List (PlatformKey F) → Option (List ℕ) → Bool → Option (List ℕ) × Bool
  restrict_probe_enabled keys allow bound =
      let enabled = select (λ k. str_eq k.status "enabled") keys in
      let found : List (PlatformKey F) = elim allow [
        | none ↦ enabled
        | some ids ↦ if bound then select (λ k. has k.id ids) enabled else enabled
      ] in
      let out = map (λ k. k.id) (select (λ k. allows_probe k) found) in
      if elim allow [ none ↦ false | some ids ↦ bound && is_empty ids ]
      then (allow, true)
      else (some out, not (is_empty found) && is_empty out)

  -- `attempts`, before the pool counts.
  abbrev pub attempts_of : Option (SchedulerSettings F) → ℕ
  attempts_of none = 2
  attempts_of (some s) = if ltb 0 s.failover_max then s.failover_max else 2

  abbrev pub retries_of : Option (SchedulerSettings F) → ℕ
  retries_of none = 1
  retries_of (some s) = s.retry_max

  abbrev pub failover_wait_of : Option (SchedulerSettings F) → ℕ
  failover_wait_of none = seconds 10
  failover_wait_of (some s) = seconds s.failover_first_token_wait_sec

  abbrev pub exhausts_pool : Option (SchedulerSettings F) → Bool
  exhausts_pool none = false
  exhausts_pool (some s) = s.failover_exhaust_pool

  -- The loop's start, with the keys that are allowed.
  unfoldable pub start_loop :
      Option (SchedulerSettings F) → Setting → Bool → Option (List ℕ) → Begun
  start_loop settings setting bound allow =
      loops
        (record {
          attempts =
              if exhausts_pool settings && bound && not (is_empty (allowed allow))
              then length (allowed allow)
              else attempts_of settings;
          retries = retries_of settings;
          failover_wait = failover_wait_of settings;
          bound = bound;
          controlled = setting.controlled;
          runtime = setting.runtime;
          model = setting.model;
          request_id = setting.request_id;
        })
        (record {
          attempt = 0;
          excluded = no_exclusions;
          allow = allow;
          last_resort = false;
          last_fail_action = "";
          last_msg = "no enabled upstream for protocol";
          written = false;
        })

  -- From the allowed keys on; `probe` is requiresProbePermission, and `keys` the table of keys, none
  -- if reading it fails.
  unfoldable pub begin_proxy :
      Option (SchedulerSettings F)
      → Setting
      → Resolved
      → Bool
      → Option (List (PlatformKey F))
      → Begun
  begin_proxy settings setting (unresolved msg) probe keys = ended [] (answered 500 msg "api_error")
  begin_proxy settings setting (resolved allow drift bound) probe keys =
      let restricted : Option (List ℕ) × Bool = elim keys [
        | none ↦ (none, false)
        | some rows ↦ restrict_probe_enabled rows (if bound then some allow else none) bound
      ] in
      if bound && is_empty allow
      then ended (no_route ∷ []) (
          answered 503
            (if is_empty drift
              then "route group has no available key for this protocol/model"
              else "route group members' rate multipliers are all outside the group's rate range")
            "no_available_route")
      else if not probe
      then start_loop settings setting bound (if bound then some allow else none)
      else if elim keys [ none ↦ true | some rows ↦ false ]
      then ended [] (answered 500 "failed to check probe settings" "api_error")
      else if restricted.1
      then ended [] (answered 503 "probe_disabled" "api_error")
      else start_loop settings setting bound restricted.0

-- The rest of the request, over what the outside answers pass by pass.
abbrev pub go_on : List Round → Begun → List Event × Option Ending
go_on rounds (ended events ending) = (events, some ending)
go_on rounds (loops plan l) = proxy_loop plan rounds l
