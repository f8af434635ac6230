-- ===== src/Picker/Selection.antt =====
-- backend/internal/picker: candidatePool and fastestCandidate of stable.go, coldestOutBand and
-- candidateLess of band.go, recoveryBefore and recoveryGatePriority of routing_health.go. A place in
-- the list of candidates is a natural number, and -1 is none.
use simple_up_manage.Prelude.{
  ℕ, suc, ◌-◌, min, String, Bool, true, false, not, ◌&&◌, ◌||◌, Option, none, some, List, [], ◌∷◌,
  is_empty, ltb, leb, ◌==◌, if◌then◌else◌, str_eq, Float64,
}
use simple_up_manage.Domain.Routing.{RoutingCircuit, after, after?}
use simple_up_manage.Picker.Candidates.{Candidate, has}

-- The candidates with their places from i on.
abbrev pub places {ℓ} : {A : Type ℓ} → ℕ → List A → List (ℕ × A)
places i [] = []
places i (c ∷ cs) = (i, c) ∷ places (suc i) cs

-- A loop that keeps the best so far: `if chosen < 0 || better(c, cands[chosen]) { chosen = i }`.
abbrev pub best_of {ℓ} : {A : Type ℓ} → (A → Bool) → (A → A → Bool) → List A → Option A → Option A
best_of fits better [] chosen = chosen
best_of fits better (c ∷ cs) none =
    if fits c then best_of fits better cs (some c) else best_of fits better cs none
best_of fits better (c ∷ cs) (some b) =
    if fits c && better c b
    then best_of fits better cs (some c)
    else best_of fits better cs (some b)

-- The smallest value that the loop meets; none is math.MaxInt.
abbrev pub smallest {ℓ} : {A : Type ℓ} → (A → Bool) → (A → ℕ) → List A → Option ℕ
smallest fits value [] = none
smallest fits value (c ∷ cs) =
    let rest = smallest fits value cs in
    if fits c then some (elim rest [ none ↦ value c | some n ↦ min (value c) n ]) else rest

module _ {F : Type 0} ⦃fl : Float64 F⦄ where
  open fl use {ltf, lef, eqf, add, sub, mul, lit, of_int}

  -- math.Max over a loop, from a first value.
  abbrev pub largest : (Candidate F → Bool) → (Candidate F → F) → List (Candidate F) → F → F
  largest fits value [] best = best
  largest fits value (c ∷ cs) best =
      largest fits value cs (if fits c && ltf best (value c) then value c else best)

  abbrev pub nano : F
  nano = lit 1 9

  -- The value of Reliable.
  unfoldable pub is_reliable : ℕ → F → Candidate F → Bool
  is_reliable min_samples best c =
      c.eligible
      && leb min_samples c.samples
      && lef (lit 9 1) c.success_rate
      && lef best (add (add c.success_rate (lit 5 2)) nano)

  -- The pool of the loop that stands at place i.
  unfoldable pub reliable_places : (Candidate F → Bool) → ℕ → List (Candidate F) → List ℕ
  reliable_places fits i [] = []
  reliable_places fits i (c ∷ cs) =
      let rest = reliable_places fits (suc i) cs in if fits c then i ∷ rest else rest

  -- The candidates with their Reliable set.
  unfoldable pub mark_reliable : (Candidate F → Bool) → List (Candidate F) → List (Candidate F)
  mark_reliable fits [] = []
  mark_reliable fits (c ∷ cs) = record c { reliable = fits c } ∷ mark_reliable fits cs

  abbrev pub best_success : ℕ → List (Candidate F) → F
  best_success min_samples cands =
      largest (λ c. c.eligible && leb min_samples c.samples) (λ c. c.success_rate) cands (lit 0 0)

  -- The members of a degraded pool; -1 is 0 - 1.
  unfoldable pub is_best_quality : List (Candidate F) → Candidate F → Bool
  is_best_quality cands c =
      let best = largest (λ q. q.eligible) (λ q. q.quality) cands (sub (lit 0 0) (lit 1 0)) in
      c.eligible && lef best (add c.quality nano)

  -- candidatePool: the candidates with Reliable set, the pool, and whether it is degraded.
  unfoldable pub candidate_pool : List (Candidate F) → ℕ → List (Candidate F) × (List ℕ × Bool)
  candidate_pool cands min_samples =
      let fits = is_reliable min_samples (best_success min_samples cands) in
      let marked = mark_reliable fits cands in
      let pool = reliable_places fits 0 cands in
      let degraded = is_empty pool in
      (
        marked,
        (if degraded then reliable_places (is_best_quality cands) 0 cands else pool, degraded),
      )

  -- math.Max(500, float64(fastest)*.1).
  abbrev pub latency_slack : ℕ → F
  latency_slack fastest =
      let tenth = mul (of_int fastest) (lit 1 1) in
      if ltf (lit 500 0) tenth then tenth else lit 500 0

  -- The members that the second loop of fastestCandidate does not pass over.
  unfoldable pub is_fast : ℕ → Option ℕ → Candidate F → Bool
  is_fast min_samples none c = true
  is_fast min_samples (some fastest) c = not (
      ltb c.latency_samples min_samples
      || ltf (latency_slack fastest) (of_int (c.ttft_p50 - fastest)))

  -- Lower cost, then lower id.
  unfoldable pub is_cheaper : Candidate F → Candidate F → Bool
  is_cheaper c b =
      ltf c.effective_cost b.effective_cost
      || eqf c.effective_cost b.effective_cost && ltb c.key_id b.key_id

  -- fastestCandidate, on the members of the pool.
  unfoldable pub fastest_candidate : List (Candidate F) → ℕ → Option (Candidate F)
  fastest_candidate pool min_samples =
      let fastest = smallest (λ c. leb min_samples c.latency_samples) (λ c. c.ttft_p50) pool in
      best_of (is_fast min_samples fastest) is_cheaper pool none

  -- The candidates that coldestOutBand may choose.
  unfoldable pub may_explore : List ℕ → ℕ × Candidate F → Bool
  may_explore band (i, c) =
      c.eligible && not (has i band) && not (leb 3 c.samples && ltf c.success_rate (lit 8 1))

  unfoldable pub is_colder : ℕ × Candidate F → ℕ × Candidate F → Bool
  is_colder (i, c) (j, b) =
      ltb c.samples b.samples || c.samples == b.samples && ltb c.key_id b.key_id

  -- coldestOutBand, with the place of its choice.
  unfoldable pub coldest_out_band : List (Candidate F) → List ℕ → Option (ℕ × Candidate F)
  coldest_out_band cands band = best_of (may_explore band) is_colder (places 0 cands) none

  -- candidateLess; affinityScore (package hash/fnv) is an argument.
  unfoldable pub candidate_less : (ℕ → ℕ) → String → Candidate F → Candidate F → Bool
  candidate_less affinity mode a b =
      let by_cost =
        if eqf a.effective_cost b.effective_cost
        then ltb a.key_id b.key_id
        else ltf a.effective_cost b.effective_cost in
      if str_eq mode "fixed_order"
      then ltb a.key_id b.key_id
      else if str_eq mode "cache_affinity"
      then (if affinity a.key_id == affinity b.key_id
          then by_cost
          else ltb (affinity b.key_id) (affinity a.key_id))
      else if str_eq mode "load_balance"
      then (if a.key_inflight == b.key_inflight
          then (if a.provider_inflight == b.provider_inflight
              then by_cost
              else ltb a.provider_inflight b.provider_inflight)
          else ltb a.key_inflight b.key_inflight)
      else by_cost

module _ {F : Type 0} where
  -- The last two tests of recoveryBefore.
  unfoldable pub circuit_before : Candidate F → Candidate F → Bool
  circuit_before a b =
      if a.circuit_until == b.circuit_until
      then ltb a.key_id b.key_id
      else ltb a.circuit_until b.circuit_until

  -- recoveryBefore: never validated first, then the longest ago.
  unfoldable pub recovery_before : Candidate F → Candidate F → Bool
  recovery_before a b = elim a.recovery_last_at [
    | none ↦ elim b.recovery_last_at [ some v ↦ true | none ↦ circuit_before a b ]
    | some u ↦ elim b.recovery_last_at [
      | none ↦ false
      | some v ↦ if u == v then circuit_before a b else ltb u v
    ]
  ]

-- recoveryGatePriority.
unfoldable pub recovery_gate_priority : RoutingCircuit → ℕ → ℕ
recovery_gate_priority r now =
    if after r.lease_until now
    then 5
    else if after? r.check_until now
    then 4
    else if after r.until now
    then 3
    else if not r.check_ok && after? r.next_check_at now
    then 3
    else if not r.check_ok && not (str_eq r.path "")
    then 2
    else 1
