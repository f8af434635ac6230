-- ===== src/Picker/Sessions.antt =====
-- backend/internal/picker/stable.go: previews, bound sessions and the pace of explorations.
use simple_up_manage.Prelude.{
  ℕ, ◌+◌, ◌-◌, ◌*◌, ◌<◌, ◌≤◌, ◌≡◌, ◌≢◌, ◌⊎◌, refl, String, Bool, true, false, not, ◌&&◌, ◌||◌,
  Option, none, some, List, leb, if◌then◌else◌, str_eq, Float64, arith, OnSome, if_pred, ap, subst,
  inl, inr, Bool-cases,
}
use simple_up_manage.Domain.Settings.{SchedulerSettings}
use simple_up_manage.Picker.Candidates.{Candidate}
use simple_up_manage.Picker.Selection.{best_of, places, nano}
use simple_up_manage.Picker.Choices.{best_of-fits}
use simple_up_manage.Picker.State.{Binding, StableState}
use simple_up_manage.Picker.Stable.{
  AttemptRow, new_samples, is_improved, challenged, Placed, find_key, Choice, Verdict, reuse, bound,
  is_explorable, is_older, is_trial, holds_trial, explore, keep, explore_free, stored, explore_step,
  stable_choice, bound_candidate, is_bound, stable_decide,
}

stored-explored :
    (mutate : Bool) (session : String) (o : Option Binding) (st : StableState)
    → (stored mutate session o st).explored ≡ st.explored
stored-explored mutate session none st = refl
stored-explored true session (some b) st = refl
stored-explored false session (some b) st = refl

stored-preview :
    (session : String) (o : Option Binding) (st : StableState) → stored false session o st ≡ st
stored-preview session none st = refl
stored-preview session (some b) st = refl

module _ {F : Type 0} ⦃fl : Float64 F⦄ where
  module _ (cfg : SchedulerSettings F) (now : ℕ) (slot degraded : Bool) (session : String)
      (rows : ℕ → List AttemptRow) (cands : List (Candidate F)) (best : Placed F)
      (st : StableState) where
    free_preview :
        (s s' : StableState) (c : Choice F) (o : Option (Placed F))
        → ((explore_free false now s c o).chosen ≡ (explore_free true now s' c o).chosen)
          × ((explore_free false now s c o).reason ≡ (explore_free true now s' c o).reason)
          × ((explore_free false now s c o).state ≡ s)
    free_preview s s' c none = (refl, refl, refl)
    free_preview s s' c (some t) = (refl, refl, refl)

    -- A preview leaves the state as it is, and tells the choice and the reason that the request
    -- would get.
    stable_decide_preview :
        (failover : Bool)
        → let preview =
            stable_decide cfg now false failover slot degraded session rows cands best st in
          let real = stable_decide cfg now true failover slot degraded session rows cands best st in
          (preview.state ≡ st) × (preview.chosen ≡ real.chosen) × (preview.reason ≡ real.reason)
    unfolding stable_decide explore_step
    stable_decide_preview failover =
        let binding = st.bindings session in
        let c = stable_choice cfg now rows degraded binding (places 0 cands) best in
        let left = stored-preview session c.binding st in
        let same = stored-explored true session c.binding st in
        rw (left, same)
          (ground (
            arith,
            free_preview st (stored true session c.binding st) c
                (best_of (is_explorable now st.explored c.chosen.0) is_older (places 0 cands) none),
          ))

    -- What a verdict says of its exploration.
    abbrev IsSpaced : Bool → (ℕ → ℕ) → Verdict F → Type 0
    IsSpaced mutate explored v =
        v.exploration ≡ true
        → (leb (explored v.chosen.1.key_id + 60000) now ≡ true)
          × (mutate ≡ true → v.state.explored v.chosen.1.key_id ≡ now)

    explore-IsSpaced :
        (mutate : Bool) (s : StableState) (reason : String) (t : Placed F)
        → leb (s.explored t.1.key_id + 60000) now ≡ true
        → IsSpaced mutate s.explored (explore mutate now s reason t)
    explore-IsSpaced mutate s reason t h e = (h, λ m. ground arith)

    explore_free-IsSpaced :
        (mutate : Bool) (s : StableState) (c : Choice F) (o : Option (Placed F))
        → OnSome (λ t. is_explorable now s.explored c.chosen.0 t ≡ true) o
        → IsSpaced mutate s.explored (explore_free mutate now s c o)
    unfolding is_explorable
    explore_free-IsSpaced mutate s c none h e = ground arith
    explore_free-IsSpaced mutate s c (some t) h e =
        explore-IsSpaced mutate s "exploration" t (ground (arith, h)) e

    holds_trial-spaced :
        (explored : ℕ → ℕ) (chosen : ℕ) (current : Option (Placed F))
        → holds_trial cfg now explored chosen current best ≡ true
        → leb (explored best.1.key_id + 60000) now ≡ true
    unfolding holds_trial is_trial
    holds_trial-spaced explored chosen none h = ground arith
    holds_trial-spaced explored chosen (some t) h = ground arith

    explore_step-IsSpaced :
        (mutate bound has_session : Bool) (current : Option (Placed F)) (placed : List (Placed F))
        (s : StableState) (c : Choice F)
        → IsSpaced mutate s.explored
            (explore_step cfg now mutate bound has_session slot current best placed s c)
    unfolding explore_step
    explore_step-IsSpaced mutate bound has_session current placed s c =
        if_pred (IsSpaced mutate s.explored) (has_session && bound)
          (by_trial (str_eq c.reason "reuse") (slot && fl.ltf (fl.lit 0 0) cfg.exploration_ratio))
          (if_pred (IsSpaced mutate s.explored) (slot && fl.ltf (fl.lit 0 0) cfg.exploration_ratio)
            (explore_free-IsSpaced mutate s c _
              (best_of-fits (is_explorable now s.explored c.chosen.0) is_older placed none tt))
            (λ e. ground arith))
      where
        by_trial :
            (reuses allowed : Bool)
            → IsSpaced mutate s.explored (
                if reuses && allowed && holds_trial cfg now s.explored c.chosen.0 current best
                then explore mutate now s "challenger_trial" best
                else keep s c)
        by_trial reuses allowed = ground (
          arith,
          holds_trial-spaced s.explored c.chosen.0 current,
          explore-IsSpaced mutate s "challenger_trial" best,
        )

    -- An exploration goes to a key that was not explored for a minute, and one of a real request
    -- stamps the key with its time.
    stable_decide_spaced :
        (mutate failover : Bool)
        → let v = stable_decide cfg now mutate failover slot degraded session rows cands best st in
          v.exploration ≡ true
          → (leb (st.explored v.chosen.1.key_id + 60000) now ≡ true)
            × (mutate ≡ true → v.state.explored v.chosen.1.key_id ≡ now)
    unfolding stable_decide
    stable_decide_spaced mutate failover =
        let binding = st.bindings session in
        let c = stable_choice cfg now rows degraded binding (places 0 cands) best in
        let left = stored mutate session c.binding st in
        subst
          (λ ex.
            IsSpaced mutate ex
              (stable_decide cfg now mutate failover slot degraded session rows cands best st))
          (stored-explored mutate session c.binding st)
          (if_pred (IsSpaced mutate left.explored) failover (λ e. ground arith)
            (explore_step-IsSpaced mutate (is_bound binding) (not (str_eq session ""))
              (bound_candidate binding (places 0 cands)) (places 0 cands) left c))

    -- The best candidate is another one, both are measured often enough, and its median is smaller by
    -- one of the margins and its success rate not; and it has been the binding's challenger for the
    -- time of confirmation and had three successes with a first token since, or had them since now,
    -- where that time is 0.
    abbrev pub Confirmed : Binding → Placed F → Type 0
    Confirmed b current =
        let gap = current.1.ttft_p50 - best.1.ttft_p50 in
        (best.0 ≢ current.0)
        × (best.1.ttft_p50 < current.1.ttft_p50)
        × ((cfg.switch_improvement_ms ≤ gap)
            ⊎ (fl.lef (fl.mul (fl.of_int current.1.ttft_p50) cfg.switch_improvement_ratio)
                  (fl.of_int gap)
                ≡ true))
        × (fl.lef current.1.success_rate best.1.success_rate ≡ true)
        × (cfg.min_samples ≤ best.1.latency_samples)
        × (cfg.min_samples ≤ current.1.latency_samples)
        × (((b.challenger ≡ best.1.key_id)
              × (b.since + cfg.switch_confirm_sec * 1000 ≤ now)
              × (3 ≤ new_samples rows best.1.key_id b.since))
            ⊎ ((cfg.switch_confirm_sec ≡ 0) × (3 ≤ new_samples rows best.1.key_id now)))

    -- The bound candidate is chosen, or the best one was confirmed.
    abbrev KeepsOrImproves : Binding → Placed F → Choice F → Type 0
    KeepsOrImproves b current c =
        (c.chosen ≡ current)
        ⊎ ((c.chosen ≡ best) × (c.reason ≡ "latency_improved") × Confirmed b current)

    reuse-KeepsOrImproves :
        (b : Binding) (current : Placed F)
        → KeepsOrImproves b current (reuse cfg now rows b current best)
    unfolding reuse is_improved challenged
    reuse-KeepsOrImproves b current = ground arith

    bound-KeepsOrImproves :
        (b : Binding) (current : Placed F)
        → current.1.eligible ≡ true
        → current.1.reliable ≡ true
        → KeepsOrImproves b current (bound cfg now rows degraded b (some current) best)
    unfolding bound
    bound-KeepsOrImproves b current e r =
        let eligible : not current.1.eligible ≡ false = ap not e in
        let fit : (current.1.reliable
              || degraded && fl.lef best.1.quality (fl.add current.1.quality nano))
            ≡ true =
          ground arith in
        rw eligible (rw fit (reuse-KeepsOrImproves b current))

    -- What the decision on a bound session gives.
    abbrev pub Kept : Binding → Placed F → Verdict F → Type 0
    Kept b current v =
        (v.chosen ≡ current)
        ⊎ ((v.chosen ≡ best)
            × (((v.exploration ≡ false) × Confirmed b current)
                ⊎ ((v.exploration ≡ true)
                    × (slot ≡ true)
                    × (st.explored best.1.key_id + 60000 ≤ now))))

    keep-Kept :
        (b : Binding) (current : Placed F) (s : StableState) (c : Choice F)
        → KeepsOrImproves b current c
        → Kept b current (keep s c)
    keep-Kept b current s c (inl e) = inl e
    keep-Kept b current s c (inr (e, r, f)) = inr (e, inl (refl, f))

    stays_or_tries :
        (mutate reuses ratio : Bool) (b : Binding) (current : Placed F) (s : StableState)
        (c : Choice F)
        → s.explored best.1.key_id ≡ st.explored best.1.key_id
        → KeepsOrImproves b current c
        → Kept b current (
            if reuses
              && (slot && ratio)
              && holds_trial cfg now s.explored c.chosen.0 (some current) best
            then explore mutate now s "challenger_trial" best
            else keep s c)
    stays_or_tries mutate reuses ratio b current s c same h =
        let trial = holds_trial cfg now s.explored c.chosen.0 (some current) best in
        elim (Bool-cases (reuses && (slot && ratio) && trial)) [
          | inr e ↦ rw e (keep-Kept b current s c h)
          | inl e ↦ rw e (
              inr (
                refl,
                inr (
                  refl,
                  ground (arith, e),
                  ground (arith, e, same, holds_trial-spaced s.explored c.chosen.0 (some current)),
                ),
              ))
        ]

    -- For a named session that is bound to a key whose candidate is eligible and reliable, in a
    -- request that is no failover: the bound candidate is chosen or the best one. The best one is
    -- chosen without an exploration only if it was confirmed: it is another candidate, both are
    -- measured often enough, its median is smaller by one of the margins and its success rate not,
    -- and it has been the binding's challenger for the time of confirmation and had three successes
    -- with a first token since, or since now where that time is 0. And it is chosen with an
    -- exploration only in the slot of one, if its key was not explored for a minute.
    pub stable_decide_keeps :
        (mutate : Bool) (b : Binding) (current : Placed F)
        → st.bindings session ≡ some b
        → find_key b.key (places 0 cands) ≡ some current
        → current.1.eligible ≡ true
        → current.1.reliable ≡ true
        → str_eq session "" ≡ false
        → let v = stable_decide cfg now mutate false slot degraded session rows cands best st in
          Kept b current v
    unfolding stable_decide explore_step stable_choice
    stable_decide_keeps mutate b current e f el re named =
        let c = bound cfg now rows degraded b (some current) best in
        let s = stored mutate session c.binding st in
        rw (e, f, named)
          (stays_or_tries mutate (str_eq c.reason "reuse")
            (fl.ltf (fl.lit 0 0) cfg.exploration_ratio) b current s c
            (ap (λ g. g best.1.key_id) (stored-explored mutate session c.binding st))
            (bound-KeepsOrImproves b current el re))
