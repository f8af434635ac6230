-- ===== src/Picker/Stable.antt =====
-- backend/internal/picker/stable.go: the decision that stableDecision takes in withStableState. Times
-- are in milliseconds, and the state that redis keeps is an argument. Differences of times are
-- compared as sums.
use simple_up_manage.Prelude.{
  ℕ, ◌+◌, ◌-◌, ◌*◌, String, Bool, true, false, not, ◌&&◌, ◌||◌, Option, none, some, List, [], ◌∷◌,
  count_if, ltb, leb, ◌==◌, if◌then◌else◌, str_eq, Float64,
}
use simple_up_manage.Domain.Settings.{SchedulerSettings}
use simple_up_manage.Picker.Candidates.{Candidate}
use simple_up_manage.Picker.Selection.{best_of, places, nano}
use simple_up_manage.Picker.State.{Binding, StableState}

-- The columns of RequestAttempt that the confirmation reads.
pub record AttemptRow : Type 0 where
  pub is_success : Bool
  pub ttft_ms : ℕ
  pub completed_at : ℕ

-- A candidate with its place.
abbrev pub Placed : Type 0 → Type 0
Placed F = ℕ × Candidate F

-- The first candidate of the bound key.
unfoldable pub find_key : {F : Type 0} → ℕ → List (Placed F) → Option (Placed F)
find_key key [] = none
find_key key ((i, c) ∷ cs) = if c.key_id == key then some (i, c) else find_key key cs

-- What the first part of the decision leaves: the choice, its reason, and the binding to store.
pub record Choice (F : Type 0) : Type 0 where
  pub chosen : Placed F
  pub reason : String
  pub binding : Option Binding

-- The decision and the state after it.
pub record Verdict (F : Type 0) : Type 0 where
  pub chosen : Placed F
  pub reason : String
  pub exploration : Bool
  pub state : StableState

-- The binding with its challenger.
unfoldable pub challenged : Bool → ℕ → ℕ → Binding → Binding
challenged improved key now b =
    if improved
    then (if b.challenger == key then b else record b { challenger = key; since = now })
    else record b { challenger = 0; since = 0 }

unfoldable pub new_samples : (ℕ → List AttemptRow) → ℕ → ℕ → ℕ
new_samples rows key since =
    count_if (λ r. r.is_success && ltb 0 r.ttft_ms && ltb since r.completed_at) (rows key)

abbrev pub stamp : ℕ → ℕ → StableState → StableState
stamp key now st = record st { explored = λ k. if k == key then now else st.explored k }

-- The state with the binding of the session, if the decision is real and there is one to store.
abbrev pub stored : Bool → String → Option Binding → StableState → StableState
stored mutate session none st = st
stored mutate session (some b) st =
    if mutate
    then record st { bindings = λ s. if str_eq s session then some b else st.bindings s }
    else st

abbrev pub is_bound : Option Binding → Bool
is_bound none = false
is_bound (some b) = true

module _ {F : Type 0} ⦃fl : Float64 F⦄ where
  open fl use {ltf, lef, add, mul, lit, of_int}

  -- improved: the best candidate is measured, as successful, and faster by the margins.
  unfoldable pub is_improved : SchedulerSettings F → Placed F → Placed F → Bool
  is_improved cfg (i, c) (j, b) =
      let gap = c.ttft_p50 - b.ttft_p50 in
      not (j == i)
      && leb cfg.min_samples b.latency_samples
      && leb cfg.min_samples c.latency_samples
      && lef c.success_rate b.success_rate
      && ltb b.ttft_p50 c.ttft_p50
      && (leb cfg.switch_improvement_ms gap
          || lef (mul (of_int c.ttft_p50) cfg.switch_improvement_ratio) (of_int gap))

  -- The bound key can stay: the challenger takes over when it was faster for long enough.
  unfoldable pub reuse :
      SchedulerSettings F → ℕ → (ℕ → List AttemptRow) → Binding → Placed F → Placed F → Choice F
  reuse cfg now rows binding current best =
      let improved = is_improved cfg current best in
      let next = challenged improved best.1.key_id now binding in
      let confirmed =
        improved
        && leb (next.since + cfg.switch_confirm_sec * 1000) now
        && leb 3 (new_samples rows best.1.key_id next.since) in
      if confirmed
      then record { chosen = best; reason = "latency_improved"; binding = some next }
      else record { chosen = current; reason = "reuse"; binding = some next }

  -- A bound session, whose key has this candidate.
  unfoldable pub bound :
      SchedulerSettings F
      → ℕ
      → (ℕ → List AttemptRow)
      → Bool
      → Binding
      → Option (Placed F)
      → Placed F
      → Choice F
  unfolding reuse
  bound cfg now rows degraded binding none best = record {
    chosen = best;
    reason = "binding_unavailable";
    binding = none;
  }
  bound cfg now rows degraded binding (some current) best =
      if not current.1.eligible
      then record { chosen = best; reason = current.1.skip_reason; binding = none }
      else if current.1.reliable || degraded && lef best.1.quality (add current.1.quality nano)
      then reuse cfg now rows binding current best
      else record { chosen = best; reason = "reliability_dropped"; binding = none }

  -- The candidates that a free request may explore.
  unfoldable pub is_explorable : ℕ → (ℕ → ℕ) → ℕ → Placed F → Bool
  is_explorable now explored chosen (i, c) =
      c.eligible
      && not (i == chosen)
      && leb (explored c.key_id + 60000) now
      && not (leb 3 c.samples && ltf c.success_rate (lit 8 1))

  unfoldable pub is_older : Placed F → Placed F → Bool
  is_older (i, c) (j, b) =
      ltb c.last_sample_at b.last_sample_at
      || c.last_sample_at == b.last_sample_at && ltb c.key_id b.key_id

  -- The best candidate may be tried in place of the bound one.
  unfoldable pub is_trial : SchedulerSettings F → ℕ → (ℕ → ℕ) → Placed F → Placed F → Bool
  is_trial cfg now explored (i, c) (j, b) =
      not (j == i)
      && (ltb b.latency_samples cfg.min_samples
          || leb cfg.min_samples c.latency_samples && ltb b.ttft_p50 c.ttft_p50)
      && leb (explored b.key_id + 60000) now

  -- An exploration, in a state that is kept only if the request is real.
  abbrev pub explore : Bool → ℕ → StableState → String → Placed F → Verdict F
  explore mutate now st reason target = record {
    chosen = target;
    reason = reason;
    exploration = true;
    state = if mutate then stamp target.1.key_id now st else st;
  }

  abbrev pub keep : StableState → Choice F → Verdict F
  keep st c = record { chosen = c.chosen; reason = c.reason; exploration = false; state = st }

  -- The exploration of a request that is not bound.
  abbrev pub explore_free : Bool → ℕ → StableState → Choice F → Option (Placed F) → Verdict F
  explore_free mutate now st c none = keep st c
  explore_free mutate now st c (some target) = explore mutate now st "exploration" target

  -- The choice is the bound candidate, and the best one may be tried in its place.
  unfoldable pub holds_trial :
      SchedulerSettings F → ℕ → (ℕ → ℕ) → ℕ → Option (Placed F) → Placed F → Bool
  unfolding is_trial
  holds_trial cfg now explored chosen none best = false
  holds_trial cfg now explored chosen (some current) best =
      chosen == current.0 && is_trial cfg now explored current best

  -- The part behind the failover's return.
  unfoldable pub explore_step :
      SchedulerSettings F
      → ℕ
      → Bool
      → (is_bound has_session slot : Bool) → Option (Placed F)
      → Placed F
      → List (Placed F)
      → StableState
      → Choice F
      → Verdict F
  explore_step cfg now mutate is_bound has_session slot current best cands st c =
      let allowed = slot && ltf (lit 0 0) cfg.exploration_ratio in
      let trial = holds_trial cfg now st.explored c.chosen.0 current best in
      if has_session && is_bound
      then (if str_eq c.reason "reuse" && allowed && trial
          then explore mutate now st "challenger_trial" best
          else keep st c)
      else if allowed
      then explore_free mutate now st c
          (best_of (is_explorable now st.explored c.chosen.0) is_older cands none)
      else keep st c

  unfoldable pub stable_choice :
      SchedulerSettings F
      → ℕ
      → (ℕ → List AttemptRow)
      → Bool
      → Option Binding
      → List (Placed F)
      → Placed F
      → Choice F
  unfolding bound
  stable_choice cfg now rows degraded none cands best = record {
    chosen = best;
    reason = "initial_selection";
    binding = none;
  }
  stable_choice cfg now rows degraded (some b) cands best =
      bound cfg now rows degraded b (find_key b.key cands) best

  abbrev pub bound_candidate : Option Binding → List (Placed F) → Option (Placed F)
  bound_candidate none cands = none
  bound_candidate (some b) cands = find_key b.key cands

  -- The function that stableDecision passes to withStableState.
  unfoldable pub stable_decide :
      SchedulerSettings F
      → ℕ
      → (mutate failover slot degraded : Bool) → String
      → (ℕ → List AttemptRow)
      → List (Candidate F)
      → Placed F
      → StableState
      → Verdict F
  stable_decide cfg now mutate failover slot degraded session rows candidates best st =
      let cands = places 0 candidates in
      let binding = st.bindings session in
      let c = stable_choice cfg now rows degraded binding cands best in
      let st' = stored mutate session c.binding st in
      if failover
      then keep st' (record c { reason = "failover" })
      else explore_step cfg now mutate (is_bound binding) (not (str_eq session "")) slot
          (bound_candidate binding cands) best cands st' c
