-- ===== src/Tests/Failover.antt =====
-- backend/internal/handler/gateway.go: the theorems on the failover loop at concrete passes.
use simple_up_manage.Prelude.{
  ℕ, ◌*◌, ◌≤◌, ◌<◌, ◌≡◌, ◌↔◌, ◌⊎◌, refl, Bool, true, false, not, ◌&&◌, Option, none, some, List, [],
  ◌∷◌, if◌then◌else◌, arith, Bool-cases, inl, inr, subst, replicate, All, OnSome, String,
}
use simple_up_manage.Domain.Settings.{default_scheduler_settings}
use simple_up_manage.Domain.Routing.{seconds}
use simple_up_manage.Picker.Candidates.{has}
use simple_up_manage.Gateway.Outcome.{ForwardOutcome, no_outcome}
use simple_up_manage.Gateway.Rounds.{
  Plan, Exclusions, no_exclusions, Loop, Picked, chosen, no_upstream, pick_error, admitted, Round,
  Ending, answered, again,
}
use simple_up_manage.Gateway.Failover.{
  exclude, after_failure, forward_tries, try_key, pass, proxy_loop,
}
use simple_up_manage.Gateway.Returns.{IsHonest, proxy_loop_returns}
use simple_up_manage.Gateway.Sends.{sends, proxy_loop-sends}
use simple_up_manage.Gateway.Admissions.{bracketed, proxy_loop-bracketed}
use simple_up_manage.Gateway.Answers.{IsAnswer}
use simple_up_manage.Gateway.Excluded.{sends_to}
use simple_up_manage.Gateway.Excluded.Drops.{no_second_chance}
use simple_up_manage.Gateway.Setup.{
  Setting, Begun, resolved, start_loop, begin_proxy, open_request, read_whole, too_large,
  unreadable, go_on,
}
use simple_up_manage.Gateway.Request.{proxy_confined, proxy_answers}
use simple_up_manage.Tests.Data.{settings, ticket, key}

-- A picker with two keys of one provider, which takes the first that it may.
abbrev is_free : ℕ → Exclusions → Bool
is_free k ex = not (has k ex.keys) && not (has 1 ex.providers) && not (has k ex.key_models)

abbrev may_pick : ℕ → Exclusions → Option (List ℕ) → Bool
may_pick k ex none = is_free k ex
may_pick k ex (some ids) = is_free k ex && has k ids

abbrev pick_first : Exclusions → Option (List ℕ) → Picked
pick_first ex allow =
    if may_pick 7 ex allow
    then chosen 7 1 ""
    else if may_pick 8 ex allow
    then chosen 8 1 ""
    else no_upstream

abbrev failing : ForwardOutcome
failing = record no_outcome {
  fail_over = true;
  retry_same = true;
  status = 503;
  scope = "key_model";
  action = "request_scope_failure";
  msg = "upstream 503";
}

-- A pass in which every try fails, 300 seconds after the request came in.
abbrev failing_round : Round
failing_round = record {
  pick = pick_first;
  timed_out = false;
  wait_over = false;
  picked_at = seconds 300;
  gone = false;
  admission = admitted ticket;
  admitted_at = seconds 300;
  may_reselect = true;
  may_retry = λ r. true;
  started_at = seconds 20000;
  forward = λ r. failing;
  gone_after = false;
  begun = false;
}

may_pick_key :
    (k : ℕ) (ex : Exclusions) (allow : Option (List ℕ))
    → may_pick k ex allow ≡ true
    → (has k ex.keys ≡ false)
      × (has 1 ex.providers ≡ false)
      × (has k ex.key_models ≡ false)
      × OnSome (λ ids. has k ids ≡ true) allow
may_pick_key k ex none h = ground arith
may_pick_key k ex (some ids) h = ground arith

abbrev Permitted : Exclusions → Option (List ℕ) → Picked → Type 0
Permitted ex allow (chosen key up reason) =
    (has key ex.keys ≡ false)
    × (has up ex.providers ≡ false)
    × (has key ex.key_models ≡ false)
    × OnSome (λ ids. has key ids ≡ true) allow
Permitted ex allow no_upstream = Unit
Permitted ex allow (pick_error msg) = Unit

pick_first-Permitted :
    (ex : Exclusions) (allow : Option (List ℕ)) → Permitted ex allow (pick_first ex allow)
pick_first-Permitted ex allow = elim (Bool-cases (may_pick 7 ex allow)) [
  | inl e ↦ rw e (may_pick_key 7 ex allow e)
  | inr e ↦ rw e (elim (Bool-cases (may_pick 8 ex allow)) [
    | inl f ↦ rw f (may_pick_key 8 ex allow f)
    | inr f ↦ rw f tt
  ])
]

failing_round-IsHonest : IsHonest failing_round
failing_round-IsHonest = record {
  respects =
      λ ex allow key up reason e. subst (Permitted ex allow) e (pick_first-Permitted ex allow);
}

abbrev setting : Setting
setting = record { controlled = true; runtime = true; model = "m"; request_id = "r1" }

abbrev plan : Plan
plan = record {
  attempts = 2;
  retries = 1;
  failover_wait = seconds 10;
  bound = true;
  controlled = true;
  runtime = true;
  model = "m";
  request_id = "r1";
}

abbrev first : Loop
first = record {
  attempt = 0;
  excluded = no_exclusions;
  allow = some (7 ∷ 8 ∷ []);
  last_resort = false;
  last_fail_action = "";
  last_msg = "no enabled upstream for protocol";
  written = false;
}

abbrev two_rounds : List Round
two_rounds = failing_round ∷ failing_round ∷ []

two_rounds-IsHonest : All IsHonest two_rounds
two_rounds-IsHonest = (failing_round-IsHonest, (failing_round-IsHonest, tt))

abbrev six_rounds : List Round
six_rounds = replicate 6 failing_round

-- 300 seconds have passed, so no pause is left.
proxy_loop_returns_example :
    (ending : Ending) × ((proxy_loop plan six_rounds first).1 ≡ some ending)
proxy_loop_returns_example =
    let p = failing_round-IsHonest in
    let late : 30000 * 10000000 ≤ seconds 300 = ground arith in
    proxy_loop_returns plan 30000 six_rounds first
      (p, late, (p, late, (p, late, (p, late, (p, late, (p, late, tt)))))) (ground arith)

-- Two keys, each tried twice.
proxy_loop-sends_example : sends (proxy_loop plan two_rounds first).0 ≤ 2 * 4
proxy_loop-sends_example = proxy_loop-sends plan two_rounds first two_rounds-IsHonest

proxy_loop-bracketed_example : bracketed false (proxy_loop plan two_rounds first).0 ≡ true
proxy_loop-bracketed_example = proxy_loop-bracketed plan two_rounds first refl

-- The last resort is spent, and key 7 fails.
abbrev resorted : Loop
resorted = record first { last_resort = true }

abbrev after_seven : Loop
after_seven = record resorted {
  attempt = 1;
  excluded = record no_exclusions { key_models = 7 ∷ [] };
  last_fail_action = "request_scope_failure";
  last_msg = "upstream 503";
}

passes_seven : (pass plan failing_round resorted).1 ≡ again after_seven
unfolding pass try_key forward_tries after_failure exclude has
passes_seven = refl

sends_seven : 0 < sends_to 7 (pass plan failing_round resorted).0
unfolding pass try_key forward_tries has
sends_seven = ground arith

no_second_chance_example : sends_to 7 (proxy_loop plan (failing_round ∷ []) after_seven).0 ≡ 0
no_second_chance_example =
    no_second_chance plan failing_round (failing_round ∷ []) resorted after_seven 7
      (failing_round-IsHonest, tt) (λ r. inr refl) refl passes_seven sends_seven

-- A client bound to the keys 7 and 8.
abbrev begun_bound : Begun
begun_bound =
    begin_proxy (some settings) setting (resolved (7 ∷ 8 ∷ []) [] true) false (some (key ∷ []))

not_nine : has 9 (7 ∷ 8 ∷ []) ≡ false
unfolding has
not_nine = refl

proxy_confined_example : sends_to 9 (go_on two_rounds begun_bound).0 ≡ 0
proxy_confined_example =
    proxy_confined (some settings) setting (7 ∷ 8 ∷ []) [] false (some (key ∷ [])) two_rounds 9
      two_rounds-IsHonest not_nine

-- The same request from its beginning, with a body that was read.
abbrev opened_bound : Begun
opened_bound = open_request none read_whole begun_bound

ends_bound : (go_on two_rounds opened_bound).1 ≡ some (answered 502 "upstream 503" "api_error")
unfolding default_scheduler_settings open_request begin_proxy start_loop proxy_loop pass try_key
    forward_tries after_failure exclude has
ends_bound = refl

proxy_answers_example :
    let run = go_on two_rounds opened_bound in
    let status : ℕ = 502 in
    let snapshot : Option String = none in
    ((status ≡ 413) ↔ ((snapshot ≡ none) × (read_whole ≡ too_large)))
    × ((status ≡ 400) ↔ ((snapshot ≡ none) × (read_whole ≡ unreadable)))
    × (((sends run.0 ≡ 0) × ((status ≡ 413) ⊎ (status ≡ 400))) ⊎ IsAnswer (sends run.0) status)
proxy_answers_example =
    proxy_answers none read_whole (some settings) setting (resolved (7 ∷ 8 ∷ []) [] true) false
      (some (key ∷ [])) two_rounds 502 "upstream 503" "api_error" ends_bound
