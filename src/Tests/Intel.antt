-- ===== src/Tests/Intel.antt =====
-- backend/internal/ops/intel_quarantine.go: the theorems on the quarantine at concrete data.
use simple_up_manage.Prelude.{
  ℕ, ◌+◌, ◌*◌, ◌≡◌, refl, String, true, false, none, List, [], ◌∷◌, ltb, leb, if◌then◌else◌, ◌==◌,
  arith, Float64,
}
use simple_up_manage.Picker.Candidates.{has}
use simple_up_manage.Ops.Quarantine.{
  IntelTestPlan, IntelTestResult, Tables, find_state, has_member, is_quarantined,
  apply_intel_outcome, evaluate_intel_quarantine, must_quarantine, quarantine_samples, quarantined,
  quarantine_threshold_of, save_state,
}
use simple_up_manage.Ops.Cases.{TestOutcome, apply_outcomes}
use simple_up_manage.Ops.Sentence.{is_inside, apply_outcomes-KeepsOut}
use simple_up_manage.Ops.Backoffs.{AllSound, apply_outcomes-AllSound}
use simple_up_manage.Ops.Returns.{Exact, Waits, perfect_stays, two_passes_restore}

-- Whole numbers, with n / n as the only quotient that matters.
abbrev whole : Float64 ℕ
whole = record {
  ltf = ltb;
  lef = leb;
  eqf = λ a b. a == b;
  add = λ a b. a + b;
  sub = λ a b. a;
  mul = λ a b. a * b;
  div = λ a b. if a == b then 1 else 0;
  lit = λ m k. m;
  of_int = λ n. n;
  ceil_int = λ a. a;
  trunc_int = λ a. a;
}

whole-Exact : Exact ℕ whole
whole-Exact n h = ground arith

abbrev plan : IntelTestPlan ℕ
plan = record {
  id = 1;
  route_group_id = 2;
  question_kind = "candy";
  quarantine_enabled = true;
  quarantine_min_samples = 1;
  quarantine_threshold = 50;
}

abbrev result_of : String → IntelTestResult
result_of verdict = record { plan_id = 1; platform_key_id = 7; verdict = verdict; created_at = 5 }

abbrev before : Tables
before = record {
  groups = 2 ∷ [];
  members = record { route_group_id = 2; platform_key_id = 7 } ∷ [];
  results = result_of "incorrect" ∷ [];
  states = [];
}

abbrev outcome : String → TestOutcome
outcome verdict = record { key = 7; verdict = verdict; now = 10; later = 11 }

abbrev failing : List TestOutcome
failing = outcome "incorrect" ∷ outcome "error" ∷ outcome "invalid" ∷ []

-- The key leaves the group.
apply_outcomes-KeepsOut_example :
    is_inside ⦃fl = whole⦄ plan (apply_outcomes ⦃fl = whole⦄ plan failing before) 7 ≡ false
unfolding is_quarantined find_state
apply_outcomes-KeepsOut_example =
    apply_outcomes-KeepsOut ⦃fl = whole⦄ plan failing before (λ k. refl) 7

apply_outcomes-AllSound_example : AllSound (apply_outcomes ⦃fl = whole⦄ plan failing before)
apply_outcomes-AllSound_example = apply_outcomes-AllSound ⦃fl = whole⦄ plan failing before tt

abbrev perfect : Tables
perfect = record before { results = result_of "correct" ∷ [] }

perfect_stays_example : apply_intel_outcome ⦃fl = whole⦄ plan 7 "correct" 10 11 perfect ≡ perfect
unfolding is_quarantined find_state quarantine_samples
perfect_stays_example =
    perfect_stays ⦃fl = whole⦄ plan 7 "correct" 10 11 perfect whole-Exact refl refl

-- The key in quarantine after a wrong answer.
abbrev waiting : Tables
waiting = apply_intel_outcome ⦃fl = whole⦄ plan 7 "incorrect" 10 11 before

waiting-Waits : Waits ⦃fl = whole⦄ plan 7 0 waiting
unfolding apply_intel_outcome is_quarantined evaluate_intel_quarantine must_quarantine
    quarantine_samples find_state quarantine_threshold_of has_member save_state has
waiting-Waits = record {
  state = quarantined 10 1 7 none;
  found = refl;
  status = refl;
  passes = refl;
  group = refl;
  enabled = refl;
}

-- After a correct answer, an error and a correct answer.
abbrev passed : Tables
passed = apply_intel_outcome ⦃fl = whole⦄ plan 7 "correct" 30 31 (
    apply_outcomes ⦃fl = whole⦄ plan (outcome "error" ∷ [])
      (apply_intel_outcome ⦃fl = whole⦄ plan 7 "correct" 20 21 waiting))

two_passes_restore_example :
    (has_member 2 7 passed.members ≡ true) × (is_quarantined (find_state 1 7 passed.states) ≡ false)
two_passes_restore_example =
    two_passes_restore ⦃fl = whole⦄ plan 7 20 21 30 31 (outcome "error" ∷ []) waiting waiting-Waits
      (refl, tt) (refl, tt)
