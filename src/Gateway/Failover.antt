-- ===== src/Gateway/Failover.antt =====
-- backend/internal/handler/gateway.go: the failover loop of Gateway.proxy. A pass gives the events
-- that it causes and how it ends.
use simple_up_manage.Prelude.{
  ℕ, zero, suc, ◌+◌, String, Bool, true, false, not, ◌&&◌, ◌||◌, Option, none, some, List, [], ◌∷◌,
  ◌++◌, length, is_empty, select, ltb, leb, ◌==◌, if◌then◌else◌, str_eq,
}
use simple_up_manage.Domain.Routing.{seconds}
use simple_up_manage.Circuit.Admission.{Admission}
use simple_up_manage.Gateway.Outcome.{
  ForwardOutcome, is_transient_failure_action, apply_failure, routing_outcome,
}
use simple_up_manage.Gateway.Rounds.{
  Plan, Exclusions, no_exclusions, Loop, allowed, Picked, chosen, no_upstream, pick_error,
  Admitting, admitted, unavailable, broken, Round, Event, no_route, selected, admits, forwarded,
  retried, switched, failed, observed, committed, cooled, Ending, served, answered, cancelled,
  closed, Turn, again, done, Tried, delivered, interrupted, given_up,
}

-- proxyOverallTimeout.
abbrev pub overall_timeout : ℕ
overall_timeout = seconds 300

-- forwardOnce as the loop uses it: a validation of a recovering route is never retried.
abbrev pub outcome_of : Bool → ForwardOutcome → ForwardOutcome
outcome_of validation o = if validation then record o { retry_same = false } else o

-- The event behind the last try.
abbrev pub last_event : Plan → ℕ → ForwardOutcome → Event
last_event plan attempt o =
    if o.fail_over && ltb (attempt + 1) plan.attempts then switched o.action else failed o.msg

-- `for r := 0; r <= retries; r++`, from the r-th try with `left` further ones; `short` is
-- shortWait before the loop.
unfoldable pub forward_tries : Plan → Round → ℕ → ℕ → Bool → ℕ → ℕ → ℕ → List Event × Tried
forward_tries plan round attempt key validation short r zero =
    let o = outcome_of validation (round.forward r) in
    let sent = forwarded key (if ltb 0 r then plan.failover_wait else short) in
    if o.ok then (sent ∷ [], delivered o) else (sent ∷ last_event plan attempt o ∷ [], given_up o)
forward_tries plan round attempt key validation short r (suc left) =
    let rest = forward_tries plan round attempt key validation short (suc r) left in
    let o = outcome_of validation (round.forward r) in
    let sent = forwarded key (if ltb 0 r then plan.failover_wait else short) in
    if o.ok
    then (sent ∷ [], delivered o)
    else if not o.retry_same
    then (sent ∷ last_event plan attempt o ∷ [], given_up o)
    else if round.may_retry r
    then (sent ∷ retried o.action ∷ rest.0, rest.1)
    else (sent ∷ [], interrupted o)

-- finishRouting, where the request was admitted.
abbrev pub observing : Plan → Round → Option Admission → ForwardOutcome → List Event
observing plan round none o = []
observing plan round (some a) o =
    observed (routing_outcome a plan.request_id round.started_at round.gone_after o) ∷ []

-- The switch on outcome.scope.
unfoldable pub exclude : ForwardOutcome → ℕ → ℕ → Exclusions → Exclusions
exclude o key up ex =
    if str_eq o.scope "provider"
    then record ex { providers = ex.providers ++ up ∷ [] }
    else if str_eq o.scope "key_model"
    then record ex { key_models = ex.key_models ++ key ∷ [] }
    else if str_eq o.scope "key"
    then record ex { keys = ex.keys ++ key ∷ [] }
    else ex

-- `if !c.Writer.Written() { gatewayError(502, lastMsg) }`.
abbrev pub fail_unless_begun : Bool → String → Ending
fail_unless_begun begun msg = if begun then closed else answered 502 msg "api_error"

-- delete(allow, id), of a map that is there.
unfoldable pub delete : ℕ → List ℕ → List ℕ
delete key allow = select (λ k. not (k == key)) allow

abbrev pub delete_allowed : ℕ → Option (List ℕ) → Option (List ℕ)
delete_allowed key none = none
delete_allowed key (some keys) = some (delete key keys)

-- The body behind the retries, on a failure.
unfoldable pub after_failure : Plan → Round → ℕ → ℕ → Loop → ForwardOutcome → Turn
after_failure plan round key up l o =
    let next = record l {
      excluded = exclude o key up l.excluded;
      last_fail_action = o.action;
      last_msg = o.msg;
      written = round.begun;
    } in
    let allow = delete_allowed key l.allow in
    if str_eq o.action "probe_disabled"
    then (if is_empty (allowed allow)
        then done (answered 503 "probe_disabled" "api_error")
        else again (record next { allow = allow }))
    else if not o.fail_over
    then done (fail_unless_begun round.begun o.msg)
    else again (record next { attempt = l.attempt + 1 })

-- The body from the retries on.
abbrev pub settle_tried : Plan → Round → ℕ → ℕ → Loop → Option Admission → Tried → List Event × Turn
settle_tried plan round key up l admission (delivered o) = (
  observing plan round admission o
      ++ (if o.valid_success then committed key o.response_id ∷ [] else []),
  done served,
)
settle_tried plan round key up l admission (interrupted o) =
    (observing plan round admission o, done (fail_unless_begun round.begun o.msg))
settle_tried plan round key up l admission (given_up o) = (
  observing plan round admission o
      ++ (if not plan.controlled && o.fail_over && not o.capacity_busy
          then cooled (apply_failure plan.runtime key up plan.model o) ∷ []
          else []),
  after_failure plan round key up l o,
)

-- All tries on the chosen key.
abbrev pub tries_of : Plan → Round → ℕ → String → Loop → List Event × Tried
tries_of plan round key reason l =
    let short = if ltb 0 l.attempt then plan.failover_wait else 0 in
    let validation = str_eq reason "recovery_validation" in
    forward_tries plan round l.attempt key validation short 0 plan.retries

unfoldable pub try_key : Plan → Round → ℕ → ℕ → String → Loop → Option Admission → List Event × Turn
try_key plan round key up reason l admission =
    let (sends, tried) = tries_of plan round key reason l in
    let (events, turn) = settle_tried plan round key up l admission tried in (sends ++ events, turn)

-- The messages of a request that finds no route.
abbrev pub no_route_message : Plan → Round → String
no_route_message plan round =
    if round.timed_out
    then "route recovery is still in progress; retry shortly"
    else if plan.bound
    then "no healthy key in bound route groups"
    else "no enabled upstream for protocol"

-- The test for the last resort.
unfoldable pub may_resort : Round → Loop → Bool
may_resort round l =
    ltb 0 l.attempt
    && not l.last_resort
    && is_transient_failure_action l.last_fail_action
    && ltb 0 (length l.excluded.keys + length l.excluded.providers + length l.excluded.key_models)
    && ltb round.picked_at (seconds 285)

-- The branch of ErrNoUpstream.
unfoldable pub without_upstream : Plan → Round → Loop → List Event × Turn
without_upstream plan round l =
    if may_resort round l
    then ([], again (record l { last_resort = true; excluded = no_exclusions }))
    else if l.attempt == 0 || str_eq l.last_msg "probe_disabled"
    then (no_route ∷ [], done (answered 503 (no_route_message plan round) "no_available_route"))
    else (no_route ∷ [], done (answered 502 l.last_msg "api_error"))

-- The branch of a request that the gates refuse.
unfoldable pub not_admitted : Round → Loop → List Event × Turn
not_admitted round l =
    if leb overall_timeout round.admitted_at || round.wait_over
    then (
      no_route ∷ [],
      done (
          if ltb 0 l.attempt
          then answered 502 l.last_msg "api_error"
          else answered 503 "route recovery is still in progress; retry shortly"
              "no_available_route"),
    )
    else if round.may_reselect
    then ([], again l)
    else ([], done closed)

-- What AdmitRequest's answer leads to.
abbrev pub on_admission : Plan → Round → ℕ → ℕ → String → Loop → Admitting → List Event × Turn
on_admission plan round key up reason l (admitted a) =
    let (events, turn) = try_key plan round key up reason l (some a) in (admits key ∷ events, turn)
on_admission plan round key up reason l unavailable = not_admitted round l
on_admission plan round key up reason l broken =
    ([], done (answered 503 "routing state unavailable" "api_error"))

-- What the pick leads to.
abbrev pub on_pick : Plan → Round → Loop → Picked → List Event × Turn
on_pick plan round l (chosen key up reason) =
    let (events, turn) =
      if plan.controlled
      then on_admission plan round key up reason l round.admission
      else try_key plan round key up reason l none in
    (selected key (if ltb 0 l.attempt then "failover" else "picker") ∷ events, turn)
on_pick plan round l no_upstream = without_upstream plan round l
on_pick plan round l (pick_error msg) =
    ([], done (if round.gone then cancelled else answered 500 msg "api_error"))

-- One pass through the loop's body.
unfoldable pub pass : Plan → Round → Loop → List Event × Turn
pass plan round l = on_pick plan round l (round.pick l.excluded l.allow)

-- The events of a pass, and of those that follow it.
abbrev pub follow :
    (Loop → List Event × Option Ending) → List Event → Turn → List Event × Option Ending
follow loop events (done ending) = (events, some ending)
follow loop events (again next) = (events ++ (loop next).0, (loop next).1)

-- The loop, over what the outside answers pass by pass: none if the answers run out first.
unfoldable pub proxy_loop : Plan → List Round → Loop → List Event × Option Ending
proxy_loop plan [] l = (
  [],
  if ltb l.attempt plan.attempts then none else some (fail_unless_begun l.written l.last_msg),
)
proxy_loop plan (round ∷ rounds) l =
    if ltb l.attempt plan.attempts
    then follow (proxy_loop plan rounds) (pass plan round l).0 (pass plan round l).1
    else ([], some (fail_unless_begun l.written l.last_msg))
