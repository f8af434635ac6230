-- ===== src/Ops/Backoffs.antt =====
-- backend/internal/ops/intel_quarantine.go: the backoffs and the streaks of keys in quarantine.
use simple_up_manage.Prelude.{
  ℕ, ◌≤◌, ◌≡◌, Bool, not, Option, none, some, List, [], ◌∷◌, All, select, if_pred, OnSome, arith,
  Float64,
}
use simple_up_manage.Picker.Candidates.{has}
use simple_up_manage.Ops.Quarantine.{
  IntelTestPlan, IntelQuarantineState, Tables, next_intel_backoff, is_state_of, find_state,
  save_state, restore_intel_key, quarantined,
}
use simple_up_manage.Ops.Cases.{Writes, apply_rule, TestOutcome, apply_outcomes}

-- A retest comes a minute to half an hour after the last one, and a second pass in a row ends the
-- quarantine.
pub record IsSound (s : IntelQuarantineState) : Type 0 where
  pub low : 60 ≤ s.backoff_sec
  pub high : s.backoff_sec ≤ 1800
  pub streak : s.pass_streak ≤ 1

module _ (P : IntelQuarantineState → Type 0) where
  find-P :
      (plan key : ℕ) (states : List IntelQuarantineState)
      → All P states
      → OnSome P (find_state plan key states)
  unfolding find_state
  find-P plan key [] h = tt
  find-P plan key (s ∷ states) h =
      if_pred (OnSome P) (is_state_of plan key s) h.0 (find-P plan key states h.1)

  All-save :
      (s : IntelQuarantineState) (states : List IntelQuarantineState)
      → P s
      → All P states
      → All P (save_state s states)
  unfolding save_state
  All-save s [] h k = (h, tt)
  All-save s (t ∷ states) h k =
      if_pred (All P) (is_state_of s.plan_id s.platform_key_id t) (h, k.1)
        (k.0, All-save s states h k.1)

  All-select :
      (p : IntelQuarantineState → Bool) (states : List IntelQuarantineState)
      → All P states
      → All P (select p states)
  All-select p [] h = tt
  All-select p (s ∷ states) h =
      if_pred (All P) (p s) (h.0, All-select p states h.1) (All-select p states h.1)

next_intel_backoff_bounds : (n : ℕ) → (60 ≤ next_intel_backoff n) × (next_intel_backoff n ≤ 1800)
unfolding next_intel_backoff
next_intel_backoff_bounds n = (ground arith, ground arith)

quarantined-IsSound :
    (now plan key : ℕ) (o : Option IntelQuarantineState) → IsSound (quarantined now plan key o)
quarantined-IsSound now plan key none = omega arith
quarantined-IsSound now plan key (some s) = omega arith

abbrev pub AllSound : Tables → Type 0
AllSound t = All IsSound t.states

found-IsSound :
    (plan key : ℕ) (t : Tables) (s : IntelQuarantineState)
    → AllSound t
    → find_state plan key t.states ≡ some s
    → IsSound s
found-IsSound plan key t s h e = rw e at (find-P IsSound plan key t.states h)

module _ {F : Type 0} ⦃fl : Float64 F⦄ where
  Writes-AllSound :
      (plan : IntelTestPlan F) (key now later : ℕ) (t : Tables)
      → AllSound t
      → Writes AllSound plan key now later t
  unfolding restore_intel_key
  Writes-AllSound plan key now later t h = record {
    expelled = λ o e q.
        All-save IsSound (quarantined now plan.id key o) t.states
          (quarantined-IsSound now plan.id key o) h;
    passed = λ s e few.
        All-save IsSound _ t.states
          (record { low = omega arith; high = omega arith; streak = ground (arith, few) }) h;
    back = λ s e.
        if_pred AllSound (not (has plan.route_group_id t.groups)) (All-select IsSound _ t.states h)
          (rw e (
            All-save IsSound _ t.states (restored_sound s later (found-IsSound plan.id key t s h e))
              h));
    failed = λ s streak e le.
        let sound = found-IsSound plan.id key t s h e in
        All-save IsSound _ t.states
          (record {
            low = (next_intel_backoff_bounds s.backoff_sec).0;
            high = (next_intel_backoff_bounds s.backoff_sec).1;
            streak = omega (arith, sound.streak);
          })
          h;
  }
    where
      restored_sound :
          (s : IntelQuarantineState) (later : ℕ)
          → IsSound s
          → IsSound (record s {
            status = "restored";
            restored_at = some later;
            pass_streak = 0;
            next_test_at = none;
          })
      restored_sound s later k = record { low = k.low; high = k.high; streak = omega arith }

  -- Whatever outcomes of the tests of a plan come in, in whatever order and at whatever times: from
  -- states with a backoff from 60 to 1800 seconds and at most one pass in a row, all states keep to
  -- that.
  pub apply_outcomes-AllSound :
      (plan : IntelTestPlan F) (outcomes : List TestOutcome) (t : Tables)
      → AllSound t
      → AllSound (apply_outcomes plan outcomes t)
  unfolding apply_outcomes
  apply_outcomes-AllSound plan [] t h = h
  apply_outcomes-AllSound plan (o ∷ outcomes) t h = apply_outcomes-AllSound plan outcomes _ (
      apply_rule AllSound plan o.key o.verdict o.now o.later t h
        (Writes-AllSound plan o.key o.now o.later t h))
