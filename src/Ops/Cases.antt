-- ===== src/Ops/Cases.antt =====
-- backend/internal/ops/intel_quarantine.go: the laws of the tables, and a rule for applyIntelOutcome.
use simple_up_manage.Prelude.{
  ℕ, ◌+◌, ◌≤◌, ◌≡◌, refl, String, true, false, not, ◌&&◌, ◌||◌, Option, none, some, List, [], ◌∷◌,
  ◌++◌, select, if_pred, leb, ◌==◌, ==_iff, if◌then◌else◌, Bool-cases, inl, inr, arith, str_eq,
  Float64,
}
use mathlib.Core.Option.{some-injective}
use simple_up_manage.Routes.Groups.{RouteGroupKey}
use simple_up_manage.Ops.Quarantine.{
  IntelTestPlan, IntelQuarantineState, Tables, next_intel_backoff, is_state_of, find_state,
  save_state, has_member, add_member, remove_member, is_quarantined, retested, restore_intel_key,
  save, quarantined, evaluate_intel_quarantine, must_quarantine, retest, by_state,
  apply_intel_outcome,
}

pub find-save :
    (plan k : ℕ) (s : IntelQuarantineState) (states : List IntelQuarantineState)
    → find_state plan k (save_state s states)
      ≡ (if is_state_of plan k s then some s else find_state plan k states)
unfolding find_state save_state
find-save plan k s [] = refl
find-save plan k s (t ∷ states) = ground (arith, find-save plan k s states)

pub find-delete :
    (plan key k : ℕ) (states : List IntelQuarantineState)
    → find_state plan k (select (λ s. not (is_state_of plan key s)) states)
      ≡ (if key == k then none else find_state plan k states)
unfolding find_state
find-delete plan key k [] = ground arith
find-delete plan key k (t ∷ states) = ground (arith, find-delete plan key k states)

has_member-append :
    (g key k : ℕ) (members : List RouteGroupKey)
    → has_member g k (members ++ record { route_group_id = g; platform_key_id = key } ∷ [])
      ≡ (has_member g k members || key == k)
unfolding has_member
has_member-append g key k [] = ground arith
has_member-append g key k (m ∷ members) = ground (arith, has_member-append g key k members)

pub has_member-add :
    (g key k : ℕ) (members : List RouteGroupKey)
    → has_member g k (add_member g key members) ≡ (has_member g k members || key == k)
unfolding add_member
has_member-add g key k members = elim (Bool-cases (has_member g key members)) [
  | inl e ↦ rw e (elim (Bool-cases (key == k)) [
    | inl same ↦
        let there : has_member g k members ≡ true = rw ((==_iff key k).0 same) at e in rw there
    | inr other ↦ rw other (ground arith)
  ])
  | inr e ↦ rw e (has_member-append g key k members)
]

pub has_member-remove :
    (g key k : ℕ) (members : List RouteGroupKey)
    → has_member g k (remove_member g key members) ≡ (not (key == k) && has_member g k members)
unfolding has_member remove_member
has_member-remove g key k [] = ground arith
has_member-remove g key k (m ∷ members) = ground (arith, has_member-remove g key k members)

-- Outcomes of one plan: the key, the verdict, and the clock when it comes and when a key is restored.
pub record TestOutcome : Type 0 where
  pub key : ℕ
  pub verdict : String
  pub now : ℕ
  pub later : ℕ

-- The row that is found is one of the key, and of no other.
pub found_key :
    (plan key k : ℕ) (states : List IntelQuarantineState) (s : IntelQuarantineState)
    → find_state plan key states ≡ some s
    → is_state_of plan k s ≡ (key == k)
unfolding find_state
found_key plan key k [] s e = cc
found_key plan key k (t ∷ states) s e = elim (Bool-cases (is_state_of plan key t)) [
  | inl here ↦
      let same : t ≡ s = some-injective t s (rw here at e) in rw (← same) (ground (arith, here))
  | inr other ↦ found_key plan key k states s (rw other at e)
]

pub quarantined_key :
    (now plan key k : ℕ) (states : List IntelQuarantineState) (o : Option IntelQuarantineState)
    → find_state plan key states ≡ o
    → is_state_of plan k (quarantined now plan key o) ≡ (key == k)
quarantined_key now plan key k states none e = ground arith
quarantined_key now plan key k states (some s) e = found_key plan key k states s e

module _ {F : Type 0} ⦃fl : Float64 F⦄ where
  -- The cases of applyIntelOutcome that write.
  pub record Writes (P : Tables → Type 0) (plan : IntelTestPlan F) (key : ℕ) (now later : ℕ)
      (t : Tables) : Type 0 where
    pub expelled :
        (o : Option IntelQuarantineState)
        → find_state plan.id key t.states ≡ o
        → is_quarantined o ≡ false
        → P (record t {
          members = remove_member plan.route_group_id key t.members;
          states = save_state (quarantined now plan.id key o) t.states;
        })
    pub passed :
        (s : IntelQuarantineState)
        → find_state plan.id key t.states ≡ some s
        → leb 2 (s.pass_streak + 1) ≡ false
        → P (save (retested now (s.pass_streak + 1) 60 s) t)
    pub back :
        (s : IntelQuarantineState)
        → find_state plan.id key t.states ≡ some s
        → P (restore_intel_key plan.route_group_id later plan.id key t)
    pub failed :
        (s : IntelQuarantineState) (streak : ℕ)
        → find_state plan.id key t.states ≡ some s
        → streak ≤ s.pass_streak
        → P (save (retested now streak (next_intel_backoff s.backoff_sec) s) t)

  pub apply_rule :
      (P : Tables → Type 0) (plan : IntelTestPlan F) (key : ℕ) (verdict : String) (now later : ℕ)
      (t : Tables)
      → P t
      → Writes P plan key now later t
      → P (apply_intel_outcome plan key verdict now later t)
  unfolding apply_intel_outcome evaluate_intel_quarantine is_quarantined retest
  apply_rule P plan key verdict now later t h w =
      if_pred P (not plan.quarantine_enabled || not (str_eq plan.question_kind "candy")) h
        (by_found (find_state plan.id key t.states) refl)
    where
      expel :
          (o : Option IntelQuarantineState)
          → find_state plan.id key t.states ≡ o
          → is_quarantined o ≡ false
          → P (evaluate_intel_quarantine plan key o now t)
      expel o e q = if_pred P (must_quarantine plan key o t) (w.expelled o e q) h

      by_found :
          (o : Option IntelQuarantineState)
          → find_state plan.id key t.states ≡ o
          → P (by_state plan key verdict now later o t)
      by_found none e = if_pred P _ (expel none e refl) h
      by_found (some s) e = elim (Bool-cases (str_eq s.status "quarantined")) [
        | inl q ↦ rw q (
            if_pred P (str_eq verdict "correct")
              (elim (Bool-cases (leb 2 (s.pass_streak + 1))) [
                | inl enough ↦ rw enough (w.back s e)
                | inr few ↦ rw few (w.passed s e few)
              ])
              (if_pred P (str_eq verdict "incorrect" || str_eq verdict "invalid")
                (w.failed s 0 e (omega arith)) (w.failed s s.pass_streak e (omega arith))))
        | inr q ↦ rw q (if_pred P _ (expel (some s) e q) h)
      ]

  unfoldable pub apply_outcomes : IntelTestPlan F → List TestOutcome → Tables → Tables
  apply_outcomes plan [] t = t
  apply_outcomes plan (o ∷ outcomes) t =
      apply_outcomes plan outcomes (apply_intel_outcome plan o.key o.verdict o.now o.later t)
