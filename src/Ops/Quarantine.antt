-- ===== src/Ops/Quarantine.antt =====
-- backend/internal/ops/intel_quarantine.go with the types of domain/models.go: keys that fail the
-- intelligence tests of a plan leave its route group, and come back when they pass again. The tables
-- are lists of rows, the results with the newest first; the outcomes of one key come one after the
-- other. The columns that only name or explain a row are left out, and so are failures of the database.
use simple_up_manage.Prelude.{
  ℕ, ◌+◌, ◌*◌, String, Bool, true, false, not, ◌&&◌, ◌||◌, Option, none, some, List, [], ◌∷◌, ◌++◌,
  length, take, select, count_if, ltb, leb, ◌==◌, if◌then◌else◌, str_eq, Float64,
}
use simple_up_manage.Domain.Routing.{seconds}
use simple_up_manage.Picker.Candidates.{has}
use simple_up_manage.Routes.Groups.{RouteGroupKey}

-- IntelTestPlan; a number of samples below 1 is 0.
pub record IntelTestPlan (F : Type 0) : Type 0 where
  pub id : ℕ
  pub route_group_id : ℕ
  pub question_kind : String
  pub quarantine_enabled : Bool
  pub quarantine_min_samples : ℕ
  pub quarantine_threshold : F

pub record IntelTestResult : Type 0 where
  pub plan_id : ℕ
  pub platform_key_id : ℕ
  pub verdict : String
  pub created_at : ℕ

pub record IntelQuarantineState : Type 0 where
  pub plan_id : ℕ
  pub platform_key_id : ℕ
  pub status : String
  pub backoff_sec : ℕ
  pub next_test_at : Option ℕ
  pub pass_streak : ℕ
  pub quarantine_count : ℕ
  pub quarantined_at : ℕ
  pub restored_at : Option ℕ
  pub last_tested_at : Option ℕ

pub record Tables : Type 0 where
  pub groups : List ℕ
  pub members : List RouteGroupKey
  pub results : List IntelTestResult
  pub states : List IntelQuarantineState

abbrev pub intel_quarantine_base_sec : ℕ
intel_quarantine_base_sec = 60

abbrev pub intel_quarantine_max_sec : ℕ
intel_quarantine_max_sec = 1800

abbrev pub intel_quarantine_restore_at : ℕ
intel_quarantine_restore_at = 2

unfoldable pub next_intel_backoff : ℕ → ℕ
next_intel_backoff cur =
    let doubled = (if ltb cur 60 then 60 else cur) * 2 in if ltb 1800 doubled then 1800 else doubled

-- The row of a plan and a key.
abbrev pub is_state_of : ℕ → ℕ → IntelQuarantineState → Bool
is_state_of plan key s = s.plan_id == plan && s.platform_key_id == key

unfoldable pub find_state : ℕ → ℕ → List IntelQuarantineState → Option IntelQuarantineState
find_state plan key [] = none
find_state plan key (s ∷ states) =
    if is_state_of plan key s then some s else find_state plan key states

-- Save or Create.
unfoldable pub save_state :
    IntelQuarantineState → List IntelQuarantineState → List IntelQuarantineState
save_state s [] = s ∷ []
save_state s (t ∷ states) =
    if is_state_of s.plan_id s.platform_key_id t then s ∷ states else t ∷ save_state s states

abbrev pub is_member : ℕ → ℕ → RouteGroupKey → Bool
is_member group key m = m.route_group_id == group && m.platform_key_id == key

unfoldable pub has_member : ℕ → ℕ → List RouteGroupKey → Bool
has_member group key [] = false
has_member group key (m ∷ members) = is_member group key m || has_member group key members

-- Create with OnConflict DoNothing.
unfoldable pub add_member : ℕ → ℕ → List RouteGroupKey → List RouteGroupKey
add_member group key members =
    if has_member group key members
    then members
    else members ++ record { route_group_id = group; platform_key_id = key } ∷ []

-- Delete.
unfoldable pub remove_member : ℕ → ℕ → List RouteGroupKey → List RouteGroupKey
remove_member group key members = select (λ m. not (is_member group key m)) members

unfoldable pub is_quarantined : Option IntelQuarantineState → Bool
is_quarantined none = false
is_quarantined (some s) = str_eq s.status "quarantined"

-- The state of a retest at this time, with the next one after the backoff.
abbrev pub retested : ℕ → ℕ → ℕ → IntelQuarantineState → IntelQuarantineState
retested now streak backoff s = record s {
  pass_streak = streak;
  backoff_sec = backoff;
  last_tested_at = some now;
  next_test_at = some (now + seconds backoff);
}

-- The row of a key that is back in the group. The columns that the update does not name stay as they
-- are stored.
abbrev pub restored :
    ℕ → Option IntelQuarantineState → List IntelQuarantineState → List IntelQuarantineState
restored now none states = states
restored now (some s) states =
    save_state
      (record s {
        status = "restored";
        restored_at = some now;
        pass_streak = 0;
        next_test_at = none;
      })
      states

-- restoreIntelKey.
unfoldable pub restore_intel_key : ℕ → ℕ → ℕ → ℕ → Tables → Tables
restore_intel_key group now plan key t =
    if not (has group t.groups)
    then record t { states = select (λ s. not (is_state_of plan key s)) t.states }
    else record t {
      members = add_member group key t.members;
      states = restored now (find_state plan key t.states) t.states;
    }

abbrev pub save : IntelQuarantineState → Tables → Tables
save s t = record t { states = save_state s t.states }

-- The results that count for a key: those since it was restored.
abbrev pub since_restored : Option IntelQuarantineState → IntelTestResult → Bool
since_restored none r = true
since_restored (some s) r = elim s.restored_at [
  | none ↦ true
  | some at ↦ not (str_eq s.status "restored") || ltb at r.created_at
]

abbrev pub is_judged : ℕ → ℕ → Option IntelQuarantineState → IntelTestResult → Bool
is_judged plan key state r =
    r.plan_id == plan
    && r.platform_key_id == key
    && not (str_eq r.verdict "error")
    && since_restored state r

abbrev pub is_correct : IntelTestResult → Bool
is_correct r = str_eq r.verdict "correct"

-- The new state of a key that is quarantined.
abbrev pub quarantined : ℕ → ℕ → ℕ → Option IntelQuarantineState → IntelQuarantineState
quarantined now plan key none = record {
  plan_id = plan;
  platform_key_id = key;
  status = "quarantined";
  backoff_sec = intel_quarantine_base_sec;
  next_test_at = some (now + seconds intel_quarantine_base_sec);
  pass_streak = 0;
  quarantine_count = 1;
  quarantined_at = now;
  restored_at = none;
  last_tested_at = some now;
}
quarantined now plan key (some s) = record s {
  status = "quarantined";
  quarantine_count = s.quarantine_count + 1;
  pass_streak = 0;
  backoff_sec = intel_quarantine_base_sec;
  quarantined_at = now;
  restored_at = none;
  next_test_at = some (now + seconds intel_quarantine_base_sec);
  last_tested_at = some now;
}

module _ {F : Type 0} ⦃fl : Float64 F⦄ where
  abbrev pub hundred : F
  hundred = fl.lit 100 0

  -- QuarantineRule.
  unfoldable pub quarantine_samples : IntelTestPlan F → ℕ
  quarantine_samples plan =
      if ltb plan.quarantine_min_samples 1 || ltb 10 plan.quarantine_min_samples
      then 3
      else plan.quarantine_min_samples

  unfoldable pub quarantine_threshold_of : IntelTestPlan F → F
  quarantine_threshold_of plan =
      if fl.lef plan.quarantine_threshold (fl.lit 0 0) || fl.ltf hundred plan.quarantine_threshold
      then fl.lit 50 0
      else plan.quarantine_threshold

  abbrev pub accuracy : List IntelTestResult → F
  accuracy rows =
      fl.mul (fl.div (fl.of_int (count_if is_correct rows)) (fl.of_int (length rows))) hundred

  -- The window of the last results that count.
  abbrev pub window_of :
      IntelTestPlan F → ℕ → Option IntelQuarantineState → Tables → List IntelTestResult
  window_of plan key state t =
      take (quarantine_samples plan) (select (is_judged plan.id key state) t.results)

  -- The guards of evaluateIntelQuarantine.
  unfoldable pub must_quarantine : IntelTestPlan F → ℕ → Option IntelQuarantineState → Tables → Bool
  must_quarantine plan key state t =
      let rows = window_of plan key state t in
      not (ltb (length rows) (quarantine_samples plan))
      && not (fl.ltf (quarantine_threshold_of plan) (accuracy rows))
      && not (fl.lef hundred (accuracy rows))
      && has_member plan.route_group_id key t.members

  -- evaluateIntelQuarantine.
  unfoldable pub evaluate_intel_quarantine :
      IntelTestPlan F → ℕ → Option IntelQuarantineState → ℕ → Tables → Tables
  evaluate_intel_quarantine plan key state now t =
      if must_quarantine plan key state t
      then record t {
        members = remove_member plan.route_group_id key t.members;
        states = save_state (quarantined now plan.id key state) t.states;
      }
      else t

  -- The switch on the verdict for a key in quarantine.
  unfoldable pub retest :
      IntelTestPlan F → ℕ → String → ℕ → ℕ → IntelQuarantineState → Tables → Tables
  retest plan key verdict now later s t =
      if str_eq verdict "correct"
      then if leb intel_quarantine_restore_at (s.pass_streak + 1)
        then restore_intel_key plan.route_group_id later plan.id key t
        else save (retested now (s.pass_streak + 1) intel_quarantine_base_sec s) t
      else if str_eq verdict "incorrect" || str_eq verdict "invalid"
      then save (retested now 0 (next_intel_backoff s.backoff_sec) s) t
      else save (retested now s.pass_streak (next_intel_backoff s.backoff_sec) s) t

  abbrev pub by_state :
      IntelTestPlan F → ℕ → String → ℕ → ℕ → Option IntelQuarantineState → Tables → Tables
  by_state plan key verdict now later none t =
      if str_eq verdict "correct" || str_eq verdict "incorrect" || str_eq verdict "invalid"
      then evaluate_intel_quarantine plan key none now t
      else t
  by_state plan key verdict now later (some s) t =
      if str_eq s.status "quarantined"
      then retest plan key verdict now later s t
      else if str_eq verdict "correct" || str_eq verdict "incorrect" || str_eq verdict "invalid"
      then evaluate_intel_quarantine plan key (some s) now t
      else t

  -- applyIntelOutcome; `later` is the clock when the key is restored.
  unfoldable pub apply_intel_outcome : IntelTestPlan F → ℕ → String → ℕ → ℕ → Tables → Tables
  apply_intel_outcome plan key verdict now later t =
      if not plan.quarantine_enabled || not (str_eq plan.question_kind "candy")
      then t
      else by_state plan key verdict now later (find_state plan.id key t.states) t
