-- ===== src/Ops/Sentence.antt =====
-- backend/internal/ops/intel_quarantine.go: a key in quarantine stays out of its group.
use simple_up_manage.Prelude.{
  ℕ, ◌≡◌, refl, Bool, true, false, ◌&&◌, Option, none, some, List, [], ◌∷◌, ◌==◌, ==_iff,
  Bool-cases, inl, inr, arith, Float64,
}
use simple_up_manage.Picker.Candidates.{has}
use simple_up_manage.Ops.Quarantine.{
  IntelTestPlan, IntelQuarantineState, Tables, is_state_of, find_state, save_state, has_member,
  remove_member, is_quarantined, restore_intel_key, save, quarantined,
}
use simple_up_manage.Ops.Cases.{
  find-save, find-delete, has_member-add, has_member-remove, found_key, quarantined_key, Writes,
  apply_rule, TestOutcome, apply_outcomes,
}

and_false : (b : Bool) → (b && false) ≡ false
and_false true = refl
and_false false = refl

module _ {F : Type 0} ⦃fl : Float64 F⦄ where
  -- A key in quarantine that is in the group.
  abbrev pub is_inside : IntelTestPlan F → Tables → ℕ → Bool
  is_inside plan t k =
      is_quarantined (find_state plan.id k t.states) && has_member plan.route_group_id k t.members

  abbrev pub KeepsOut : IntelTestPlan F → Tables → Type 0
  KeepsOut plan t = (k : ℕ) → is_inside plan t k ≡ false

  -- A row that stays what it is, quarantined or not, keeps the keys out.
  same_status :
      (plan : IntelTestPlan F) (key k : ℕ) (s s' : IntelQuarantineState) (t : Tables)
      → find_state plan.id key t.states ≡ some s
      → is_state_of plan.id k s' ≡ is_state_of plan.id k s
      → s'.status ≡ s.status
      → is_inside plan t k ≡ false
      → is_inside plan (save s' t) k ≡ false
  unfolding is_quarantined
  same_status plan key k s s' t e same kept h =
      rw (find-save plan.id k s' t.states, same, found_key plan.id key k t.states s e)
        (elim (Bool-cases (key == k)) [
          | inl here ↦
              let found : find_state plan.id k t.states ≡ some s = rw (← (==_iff key k).0 here) e in
              rw here (rw kept (rw found at h))
          | inr other ↦ rw other h
        ])

  expelled_out :
      (plan : IntelTestPlan F) (key k now : ℕ) (t : Tables) (o : Option IntelQuarantineState)
      → find_state plan.id key t.states ≡ o
      → is_inside plan t k ≡ false
      → is_inside plan
          (record t {
            members = remove_member plan.route_group_id key t.members;
            states = save_state (quarantined now plan.id key o) t.states;
          })
          k
        ≡ false
  expelled_out plan key k now t o e h =
      rw
        (
          find-save plan.id k (quarantined now plan.id key o) t.states,
          quarantined_key now plan.id key k t.states o e,
          has_member-remove plan.route_group_id key k t.members,
        )
        (elim (Bool-cases (key == k)) [ inl here ↦ rw here (and_false _) | inr other ↦ rw other h ])

  back_out :
      (plan : IntelTestPlan F) (key k later : ℕ) (t : Tables) (s : IntelQuarantineState)
      → find_state plan.id key t.states ≡ some s
      → is_inside plan t k ≡ false
      → is_inside plan (restore_intel_key plan.route_group_id later plan.id key t) k ≡ false
  unfolding restore_intel_key is_quarantined
  back_out plan key k later t s e h = elim (Bool-cases (has plan.route_group_id t.groups)) [
    | inr gone ↦ rw gone (
        rw (find-delete plan.id key k t.states)
          (elim (Bool-cases (key == k)) [ inl here ↦ rw here | inr other ↦ rw other h ]))
    | inl there ↦ rw there (
        rw
          (
            e,
            find-save plan.id k
                (record s {
                  status = "restored";
                  restored_at = some later;
                  pass_streak = 0;
                  next_test_at = none;
                })
                t.states,
            found_key plan.id key k t.states s e,
            has_member-add plan.route_group_id key k t.members,
          )
          (elim (Bool-cases (key == k)) [
            | inl here ↦ rw here
            | inr other ↦ rw other (ground (arith, h))
          ]))
  ]

  Writes-KeepsOut :
      (plan : IntelTestPlan F) (key now later : ℕ) (t : Tables)
      → KeepsOut plan t
      → Writes (KeepsOut plan) plan key now later t
  Writes-KeepsOut plan key now later t h = record {
    expelled = λ o e q k. expelled_out plan key k now t o e (h k);
    passed = λ s e few k. same_status plan key k s _ t e refl refl (h k);
    back = λ s e k. back_out plan key k later t s e (h k);
    failed = λ s streak e le k. same_status plan key k s _ t e refl refl (h k);
  }

  -- Whatever outcomes of the tests of a plan come in, in whatever order and at whatever times: if no
  -- key in quarantine was in the plan's group before, none is afterwards.
  pub apply_outcomes-KeepsOut :
      (plan : IntelTestPlan F) (outcomes : List TestOutcome) (t : Tables)
      → KeepsOut plan t
      → KeepsOut plan (apply_outcomes plan outcomes t)
  unfolding apply_outcomes
  apply_outcomes-KeepsOut plan [] t h = h
  apply_outcomes-KeepsOut plan (o ∷ outcomes) t h = apply_outcomes-KeepsOut plan outcomes _ (
      apply_rule (KeepsOut plan) plan o.key o.verdict o.now o.later t h
        (Writes-KeepsOut plan o.key o.now o.later t h))
