-- ===== src/Picker/Eligible.antt =====
-- backend/internal/picker: what the selection promises of the candidates it names.
use simple_up_manage.Prelude.{
  ℕ, ◌≡◌, ◌≢◌, refl, String, true, false, not, ◌&&◌, Option, none, some, List, length, ltb, Float64,
  arith,
}
use simple_up_manage.Domain.Settings.{SchedulerSettings}
use simple_up_manage.Domain.Routing.{RoutingCircuit}
use simple_up_manage.Domain.Provider.{Upstream, PlatformKey, TextLib}
use simple_up_manage.Circuit.Admission.{gate_refuses}
use simple_up_manage.Circuit.Check.{backs_off}
use simple_up_manage.Metrics.Window.{Window}
use simple_up_manage.Picker.Runtime.{
  RuntimeState, put, minute_ago, keep_after, resource_snapshot, acquire,
}
use simple_up_manage.Picker.Capacity.{has_room, is_granted, acquire_granted_iff}
use simple_up_manage.Picker.Recount.{select_idem}
use simple_up_manage.Picker.Candidates.{
  Candidate, Request, capacity_skip, skip_of, inspect, decided, new_candidate,
}
use simple_up_manage.Picker.Selection.{recovery_before, circuit_before, recovery_gate_priority}

module _ {F : Type 0} ⦃fl : Float64 F⦄ where
  skip_of-capacity :
      (lib : TextLib) (t : ℕ) (key : PlatformKey F) (req : Request) (cfg : SchedulerSettings F)
      (ex exp exm cool : List ℕ) (used : ℕ × ℕ × ℕ)
      → skip_of lib t key req cfg ex exp exm cool used ≡ none
      → capacity_skip key used ≡ none
  unfolding skip_of
  skip_of-capacity lib t key req cfg ex exp exm cool used e = ground arith

  capacity_skip-room :
      (key : PlatformKey F) (up : Upstream F) (rpm key_inflight provider_inflight : ℕ)
      → key.upstream ≡ some up
      → capacity_skip key (rpm, key_inflight, provider_inflight) ≡ none
      → (has_room key.rpm_limit rpm
          && has_room key.max_concurrency key_inflight
          && has_room up.concurrency provider_inflight)
        ≡ true
  unfolding capacity_skip
  capacity_skip-room key up rpm key_inflight provider_inflight e h = ground arith

  eligible-none :
      (cfg : SchedulerSettings F) (w : Window F) (c : Candidate F) (skip : Option String)
      → c.eligible ≡ false
      → (decided cfg w c skip).eligible ≡ true
      → skip ≡ none
  eligible-none cfg w c none f e = refl
  eligible-none cfg w c (some reason) f e = ground arith

  -- If inspect calls a key eligible whose provider is loaded, a reservation of the key and its
  -- provider at the same clock reading, on the state that inspect leaves, is granted.
  pub inspect_eligible_granted :
      (lib : TextLib) (metrics : ℕ → String → Window F) (now t : ℕ) (key : PlatformKey F)
      (up : Upstream F) (req : Request) (cfg : SchedulerSettings F) (ex exp exm cool : List ℕ)
      (st : RuntimeState)
      → key.upstream ≡ some up
      → key.upstream_id ≡ up.id
      → (inspect lib metrics now t key req cfg ex exp exm cool st).1.eligible ≡ true
      → is_granted
          (acquire now key up (inspect lib metrics now t key req cfg ex exp exm cool st).0).1
        ≡ true
  unfolding inspect resource_snapshot
  inspect_eligible_granted lib metrics now t key up req cfg ex exp exm cool st e f g =
      let rpm = length (keep_after (minute_ago now) (st.rpm key.id)) in
      let used : ℕ × ℕ × ℕ = (rpm, st.key_inflight key.id, st.provider_inflight key.upstream_id) in
      let none_skipped = skip_of-capacity lib t key req cfg ex exp exm cool used (
        eligible-none cfg (metrics key.id req.model) (new_candidate key req cfg used)
          (skip_of lib t key req cfg ex exp exm cool used) refl g) in
      let room = capacity_skip-room key up rpm used.1 used.2 e none_skipped in
      ground (
        arith,
        acquire_granted_iff now key up
            (record st { rpm = put st.rpm key.id (keep_after (minute_ago now) (st.rpm key.id)) }),
        select_idem (λ at. ltb (minute_ago now) at) (st.rpm key.id),
      )

module _ {F : Type 0} where
  pub recovery_before_irrefl : (a : Candidate F) → recovery_before a a ≡ false
  unfolding recovery_before circuit_before
  recovery_before_irrefl a = ground arith

  -- recoveryBefore is transitive.
  recovery_before_trans :
      (a b c : Candidate F)
      → recovery_before a b ≡ true
      → recovery_before b c ≡ true
      → recovery_before a c ≡ true
  unfolding recovery_before circuit_before
  recovery_before_trans a b c h k = ground arith

  -- Of two candidates of different keys, recoveryBefore puts exactly one first.
  recovery_before_total :
      (a b : Candidate F) → a.key_id ≢ b.key_id → recovery_before a b ≡ not (recovery_before b a)
  unfolding recovery_before circuit_before
  recovery_before_total a b h = ground arith

-- A gate has a recovery priority below 3 exactly when it lets a recovery request pass and does not
-- wait for the next check after a failed one.
recovery_gate_priority_low :
    (r : RoutingCircuit) (now : ℕ)
    → ltb (recovery_gate_priority r now) 3
      ≡ (not (gate_refuses r true now) && not (backs_off r now))
unfolding recovery_gate_priority gate_refuses
recovery_gate_priority_low r now = ground arith
