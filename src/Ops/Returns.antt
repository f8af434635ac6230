-- ===== src/Ops/Returns.antt =====
-- backend/internal/ops/intel_quarantine.go: who is never sent away, and how a key comes back.
use simple_up_manage.Prelude.{
  ℕ, ◌≤◌, ◌<◌, ◌≡◌, refl, sym, subst, ◌∙◌, String, Bool, true, false, not, ◌&&◌, ◌||◌, Option, none,
  some, List, [], ◌∷◌, All, length, count_if, ltb, ==_iff, Bool-cases, inl, inr, arith, str_eq,
  if_pred, Float64,
}
use simple_up_manage.Picker.Candidates.{has}
use simple_up_manage.Ops.Quarantine.{
  IntelTestPlan, IntelTestResult, IntelQuarantineState, Tables, next_intel_backoff, find_state,
  has_member, is_quarantined, retested, restore_intel_key, save, evaluate_intel_quarantine,
  must_quarantine, retest, by_state, apply_intel_outcome, window_of, is_correct, quarantine_samples,
  accuracy,
}
use simple_up_manage.Ops.Cases.{find-save, has_member-add, found_key, TestOutcome, apply_outcomes}

-- n / n * 100 is at least 100, for every count.
abbrev pub Exact : (F : Type 0) → Float64 F → Type 0
Exact F fl =
    (n : ℕ)
    → 0 < n
    → fl.lef (fl.lit 100 0) (fl.mul (fl.div (fl.of_int n) (fl.of_int n)) (fl.lit 100 0)) ≡ true

-- The outcomes that neither pass nor fail.
abbrev pub is_neutral : TestOutcome → Bool
is_neutral o =
    not (str_eq o.verdict "correct")
    && not (str_eq o.verdict "incorrect")
    && not (str_eq o.verdict "invalid")

ltb_ge : (a b : ℕ) → ltb a b ≡ false → b ≤ a
ltb_ge a b h = ground arith

perfect_accuracy :
    (F : Type 0) (fl : Float64 F) (rows : List IntelTestResult)
    → Exact F fl
    → count_if is_correct rows ≡ length rows
    → 0 < length rows
    → fl.lef (fl.lit 100 0) (accuracy ⦃fl = fl⦄ rows) ≡ true
perfect_accuracy F fl rows exact perfect some_rows =
    subst
      (λ (n : ℕ).
        fl.lef (fl.lit 100 0)
          (fl.mul (fl.div (fl.of_int n) (fl.of_int (length rows))) (fl.lit 100 0))
        ≡ true)
      (sym perfect) (exact (length rows) some_rows)

module _ {F : Type 0} ⦃fl : Float64 F⦄ where
  samples_pos : (plan : IntelTestPlan F) → 0 < quarantine_samples plan
  unfolding quarantine_samples
  samples_pos plan = ground arith

  perfect_passes :
      (plan : IntelTestPlan F) (key : ℕ) (o : Option IntelQuarantineState) (t : Tables)
      → Exact F fl
      → count_if is_correct (window_of plan key o t) ≡ length (window_of plan key o t)
      → must_quarantine plan key o t ≡ false
  unfolding must_quarantine
  perfect_passes plan key o t exact perfect =
      elim (Bool-cases (ltb (length (window_of plan key o t)) (quarantine_samples plan))) [
        | inl few ↦ rw few
        | inr full ↦
            rw
              (
                full,
                perfect_accuracy F fl (window_of plan key o t) exact perfect
                    (omega (arith, samples_pos plan, ltb_ge _ _ full)),
              )
              (ground arith)
      ]

  left_alone :
      (plan : IntelTestPlan F) (key : ℕ) (verdict : String) (now later : ℕ) (t : Tables)
      (o : Option IntelQuarantineState)
      → is_quarantined o ≡ false
      → must_quarantine plan key o t ≡ false
      → by_state plan key verdict now later o t ≡ t
  unfolding evaluate_intel_quarantine is_quarantined
  left_alone plan key verdict now later t none free n = rw n (ground arith)
  left_alone plan key verdict now later t (some s) free n = rw (free, n) (ground arith)

  -- A key with a perfect window is left alone, where n / n * 100 is at least 100 for every count: with
  -- all results in the window correct, the outcome of a key that is not in quarantine changes nothing.
  pub perfect_stays :
      (plan : IntelTestPlan F) (key : ℕ) (verdict : String) (now later : ℕ) (t : Tables)
      → Exact F fl
      → is_quarantined (find_state plan.id key t.states) ≡ false
      → count_if is_correct (window_of plan key (find_state plan.id key t.states) t)
        ≡ length (window_of plan key (find_state plan.id key t.states) t)
      → apply_intel_outcome plan key verdict now later t ≡ t
  unfolding apply_intel_outcome
  perfect_stays plan key verdict now later t exact free perfect =
      if_pred (λ x. x ≡ t) (not plan.quarantine_enabled || not (str_eq plan.question_kind "candy"))
        refl
        (left_alone plan key verdict now later t (find_state plan.id key t.states) free
          (perfect_passes plan key (find_state plan.id key t.states) t exact perfect))

  -- A key that the plan keeps in quarantine, with this many passes in a row.
  pub record Waits (plan : IntelTestPlan F) (key streak : ℕ) (t : Tables) : Type 0 where
    pub state : IntelQuarantineState
    pub found : find_state plan.id key t.states ≡ some state
    pub status : str_eq state.status "quarantined" ≡ true
    pub passes : state.pass_streak ≡ streak
    pub group : has plan.route_group_id t.groups ≡ true
    pub enabled : (plan.quarantine_enabled && str_eq plan.question_kind "candy") ≡ true

  -- The outcome of such a key is a retest.
  apply-retest :
      (plan : IntelTestPlan F) (key streak : ℕ) (verdict : String) (now later : ℕ) (t : Tables)
      (w : Waits plan key streak t)
      → apply_intel_outcome plan key verdict now later t
        ≡ retest plan key verdict now later w.state t
  unfolding apply_intel_outcome
  apply-retest plan key streak verdict now later t w =
      let off : (not plan.quarantine_enabled || not (str_eq plan.question_kind "candy")) ≡ false =
        ground (arith, w.enabled) in
      rw (off, w.found, w.status)

  saved-Waits :
      (plan : IntelTestPlan F) (key streak streak' now backoff : ℕ) (t : Tables)
      (w : Waits plan key streak t)
      → Waits plan key streak' (save (retested now streak' backoff w.state) t)
  saved-Waits plan key streak streak' now backoff t w = record {
    state = retested now streak' backoff w.state;
    found =
        find-save plan.id key (retested now streak' backoff w.state) t.states
        ∙ rw (found_key plan.id key key t.states w.state w.found) (ground arith);
    status = w.status;
    passes = refl;
    group = w.group;
    enabled = w.enabled;
  }

  neutral_once :
      (plan : IntelTestPlan F) (key streak : ℕ) (o : TestOutcome) (t : Tables)
      → o.key ≡ key
      → is_neutral o ≡ true
      → Waits plan key streak t
      → Waits plan key streak (apply_intel_outcome plan o.key o.verdict o.now o.later t)
  unfolding retest
  neutral_once plan key streak o t same neutral w =
      let kept =
        subst
          (λ (n : ℕ). Waits plan key n (
            save
              (retested o.now w.state.pass_streak (next_intel_backoff w.state.backoff_sec) w.state)
              t))
          w.passes
          (saved-Waits plan key streak w.state.pass_streak o.now
            (next_intel_backoff w.state.backoff_sec) t w) in
      let correct : str_eq o.verdict "correct" ≡ false = ground (arith, neutral) in
      let wrong : (str_eq o.verdict "incorrect" || str_eq o.verdict "invalid") ≡ false =
        ground (arith, neutral) in
      subst
        (λ (k : ℕ). Waits plan key streak (apply_intel_outcome plan k o.verdict o.now o.later t))
        (sym same)
        (rw (apply-retest plan key streak o.verdict o.now o.later t w, correct, wrong) kept)

  neutral-Waits :
      (plan : IntelTestPlan F) (key streak : ℕ) (outcomes : List TestOutcome) (t : Tables)
      → All (λ o. o.key ≡ key) outcomes
      → All (λ o. is_neutral o ≡ true) outcomes
      → Waits plan key streak t
      → Waits plan key streak (apply_outcomes plan outcomes t)
  unfolding apply_outcomes
  neutral-Waits plan key streak [] t same neutral w = w
  neutral-Waits plan key streak (o ∷ outcomes) t same neutral w =
      neutral-Waits plan key streak outcomes _ same.1 neutral.1
        (neutral_once plan key streak o t same.0 neutral.0 w)

  first_pass :
      (plan : IntelTestPlan F) (key now later : ℕ) (t : Tables)
      → Waits plan key 0 t
      → Waits plan key 1 (apply_intel_outcome plan key "correct" now later t)
  unfolding retest
  first_pass plan key now later t w =
      rw (apply-retest plan key 0 "correct" now later t w, w.passes)
        (saved-Waits plan key 0 1 now 60 t w)

  second_pass :
      (plan : IntelTestPlan F) (key now later : ℕ) (t : Tables)
      → Waits plan key 1 t
      → (has_member plan.route_group_id key
            (apply_intel_outcome plan key "correct" now later t).members
          ≡ true)
        × (is_quarantined
              (find_state plan.id key (apply_intel_outcome plan key "correct" now later t).states)
            ≡ false)
  unfolding retest restore_intel_key is_quarantined
  second_pass plan key now later t w =
      rw (apply-retest plan key 1 "correct" now later t w, w.passes, w.group, w.found)
        (
          has_member-add plan.route_group_id key key t.members ∙ ground arith,
          rw (
            find-save plan.id key
                (record w.state {
                  status = "restored";
                  restored_at = some later;
                  pass_streak = 0;
                  next_test_at = none;
                })
                t.states,
            found_key plan.id key key t.states w.state w.found,
            (==_iff key key).1 refl,
          ),
        )

  -- Two correct answers bring a key back: a key that waits in quarantine with no pass yet, while the
  -- plan is enabled and its group exists, is in the group again, and no longer in quarantine, after a
  -- correct answer, any outcomes of it that are neither correct nor incorrect nor invalid, and a
  -- correct answer; whenever these come.
  pub two_passes_restore :
      (plan : IntelTestPlan F) (key now later now' later' : ℕ) (between : List TestOutcome)
      (t : Tables)
      → Waits plan key 0 t
      → All (λ o. o.key ≡ key) between
      → All (λ o. is_neutral o ≡ true) between
      → let t1 = apply_outcomes plan between (apply_intel_outcome plan key "correct" now later t) in
        let t2 = apply_intel_outcome plan key "correct" now' later' t1 in
        (has_member plan.route_group_id key t2.members ≡ true)
        × (is_quarantined (find_state plan.id key t2.states) ≡ false)
  two_passes_restore plan key now later now' later' between t w same neutral =
      second_pass plan key now' later' _
        (neutral-Waits plan key 1 between _ same neutral (first_pass plan key now later t w))
