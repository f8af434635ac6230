-- ===== src/Circuit/Allowance.antt =====
-- backend/internal/routinghealth: how often Slot and RecoverySlot grant.
use simple_up_manage.Prelude.{
  ℕ, zero, suc, ◌+◌, ◌*◌, ◌/◌, ◌%◌, ◌≤◌, ◌<◌, ◌≡◌, refl, ap, ◌∙◌, String, Bool, true, false, not,
  Option, none, some, List, [], ◌∷◌, ltb, ◌==◌, if◌then◌else◌, arith, Option-cases, inl, inr,
  Float64, eq_iff,
}
use native.Mathlib.Nat.{
  div-add-mod, mul-add-div, mod-lt, mod-mod, div-eq_of_lt, div_self, add-div_right, add-zero,
  le-div_iff_mul-le, div-le_self,
}
use native.Mathlib.Decide.{dec_lt}
use simple_up_manage.Domain.Settings.{SchedulerSettings, normalize}
use simple_up_manage.Domain.Settings.Normal.{normalize-IsNormal}
use simple_up_manage.Domain.Routing.{RoutingBudget, seconds}
use simple_up_manage.Circuit.Budget.{
  new_budget, find_budget, create_budget, update_budget, bump_counter, slot, recovery_spacing,
  recovery_scope, spend_until, recovery_slot,
}

-- The counter that the next request reads: a missing row starts at 0.
abbrev pub counter_of : Option RoutingBudget → ℕ
counter_of none = 0
counter_of (some b) = b.counter

abbrev pub counter_at : String → List RoutingBudget → ℕ
counter_at scope rows = counter_of (find_budget scope rows)

abbrev existing : String → Option RoutingBudget → RoutingBudget
existing scope none = new_budget scope
existing scope (some b) = b

find-create :
    (scope : String) (rows : List RoutingBudget)
    → find_budget scope (create_budget scope rows) ≡ some (existing scope (find_budget scope rows))
unfolding find_budget create_budget
find-create scope [] = ground (arith, eq_iff scope scope)
find-create scope (b ∷ rows) = ground (arith, find-create scope rows)

find-update :
    (scope : String) (f : RoutingBudget → RoutingBudget) (rows : List RoutingBudget)
    (b : RoutingBudget)
    → find_budget scope rows ≡ some b
    → (f b).scope ≡ b.scope
    → find_budget scope (update_budget scope f rows) ≡ some (f b)
unfolding find_budget update_budget
find-update scope f [] b e k = cc
find-update scope f (q ∷ rows) b e k = ground (arith, find-update scope f rows b)

bumped :
    (scope : String) (interval : ℕ) (rows : List RoutingBudget)
    → (b : RoutingBudget) × (find_budget scope
          (update_budget scope (bump_counter interval) (create_budget scope rows))
        ≡ some b)
      × (b.counter ≡ (counter_at scope rows + 1) % interval)
bumped scope interval rows = elim (Option-cases (find_budget scope rows)) [
  | inl missing ↦ (
    bump_counter interval (new_budget scope),
    find-update scope (bump_counter interval) _ (new_budget scope)
        (find-create scope rows ∙ rw missing) refl,
    rw missing,
  )
  | inr (b, found) ↦ (
    bump_counter interval b,
    find-update scope (bump_counter interval) _ b (find-create scope rows ∙ rw found) refl,
    rw found,
  )
]

-- For an interval above 1, a preview tells what the next request would get.
slot-preview :
    (scope : String) (interval : ℕ) (rows : List RoutingBudget)
    → 1 < interval
    → (slot scope interval false rows).1 ≡ (slot scope interval true rows).1
unfolding slot
slot-preview scope interval rows h = ground (
  arith,
  find-create scope rows,
  bumped scope interval rows,
  mod-mod (counter_at scope rows + 1) interval,
)

-- A request moves the counter on, and is granted when it reaches a multiple of the interval.
slot_step :
    (scope : String) (interval : ℕ) (rows : List RoutingBudget)
    → 0 < interval
    → (counter_at scope (slot scope interval true rows).0 ≡ (counter_at scope rows + 1) % interval)
      × ((slot scope interval true rows).1
          ≡ ((counter_at scope rows + 1) % interval % interval == 0))
unfolding slot
slot_step scope interval rows pos = ground (arith, bumped scope interval rows)

-- The number of grants among n requests in a row.
pub granted_among : String → ℕ → ℕ → List RoutingBudget → ℕ
granted_among scope interval zero rows = 0
granted_among scope interval (suc n) rows =
    let (rows', granted) = slot scope interval true rows in
    let rest = granted_among scope interval n rows' in if granted then suc rest else rest

wrap_mod : (c n m : ℕ) → 0 < m → (c % m + n) / m + c / m ≡ (c + n) / m
wrap_mod c n m pos =
    omega (arith, ap (λ (x : ℕ). x / m) regrouped, mul-add-div pos (c / m) (c % m + n))
  where
    regrouped : m * (c / m) + (c % m + n) ≡ c + n
    regrouped = omega (arith, div-add-mod c m)

wrap_low : (c m : ℕ) → 0 < m → c % m + 1 < m → ((c + 1) / m ≡ c / m) × ((c + 1) % m ≡ c % m + 1)
wrap_low c m pos h =
    (e, omega (arith, div-add-mod c m, div-add-mod (c + 1) m, ap (λ (x : ℕ). m * x) e))
  where
    e : (c + 1) / m ≡ c / m
    e = omega (arith, wrap_mod c 1 m pos, div-eq_of_lt h)

wrap_high : (c m : ℕ) → 0 < m → c % m + 1 ≡ m → ((c + 1) / m ≡ c / m + 1) × ((c + 1) % m ≡ 0)
wrap_high c m pos h =
    (e, omega (arith, div-add-mod c m, div-add-mod (c + 1) m, ap (λ (x : ℕ). m * x) e))
  where
    e : (c + 1) / m ≡ c / m + 1
    e = omega (arith, wrap_mod c 1 m pos, ap (λ (x : ℕ). x / m) h, div_self pos)

wrap_step : (c m : ℕ) → 0 < m → (c + 1) / m ≡ (if (c + 1) % m == 0 then suc (c / m) else c / m)
wrap_step c m pos = elim (dec_lt (c % m + 1) m) [
  | yes low ↦ ground (arith, wrap_low c m pos low)
  | no high ↦ ground (arith, wrap_high c m pos (omega (arith, mod-lt c pos)))
]

-- The grants among n requests, by the counter that the first of them reads.
granted_among-counter :
    (scope : String) (interval n : ℕ) (rows : List RoutingBudget)
    → 0 < interval
    → granted_among scope interval n rows + counter_at scope rows / interval
      ≡ (counter_at scope rows + n) / interval
unfolding granted_among
granted_among-counter scope interval zero rows pos =
    omega (arith, ap (λ (x : ℕ). x / interval) (add-zero (counter_at scope rows)))
granted_among-counter scope interval (suc n) rows pos =
    let c = counter_at scope rows in
    let rest =
      rw (slot_step scope interval rows pos).0 at
        (granted_among-counter scope interval n (slot scope interval true rows).0 pos) in
    let shifted : c + suc n ≡ c + 1 + n = omega arith in
    ground (
      arith,
      rest,
      div-eq_of_lt (mod-lt (c + 1) pos),
      wrap_mod (c + 1) n interval pos,
      wrap_step c interval pos,
      mod-mod (c + 1) interval,
      (slot_step scope interval rows pos).1,
      ap (λ (x : ℕ). x / interval) shifted,
    )

-- For a positive interval, exactly one of `interval` requests in a row is granted, whatever the
-- counter says.
pub granted_among-interval :
    (scope : String) (interval : ℕ) (rows : List RoutingBudget)
    → 0 < interval
    → granted_among scope interval interval rows ≡ 1
granted_among-interval scope interval rows pos = omega (
  arith,
  granted_among-counter scope interval interval rows pos,
  add-div_right (counter_at scope rows) pos,
)

module _ {F : Type 0} ⦃fl : Float64 F⦄ where
  -- The spacing lies between 6 and 60 seconds.
  recovery_spacing_bounds :
      (settings : SchedulerSettings F)
      → (seconds 6 ≤ recovery_spacing settings) × (recovery_spacing settings ≤ seconds 60)
  unfolding recovery_spacing
  recovery_spacing_bounds settings =
      let budget = (normalize-IsNormal settings).recovery_budget in
      ground (
        arith,
        budget,
        (le-div_iff_mul-le {x = 6} {y = 60} budget.0).1 (omega arith),
        div-le_self 60 (normalize settings).recovery_budget_per_min,
      )

  -- After a granted validation no further one of the scope is granted, and no preview promises
  -- one, before the spacing has passed; then the next one is granted.
  recovery_slot_spaced :
      (settings settings' : SchedulerSettings F) (now t : ℕ) (scope : String) (mutate : Bool)
      (rows : List RoutingBudget)
      → (recovery_slot settings now scope true rows).1 ≡ true
      → (recovery_slot settings' t scope mutate (recovery_slot settings now scope true rows).0).1
        ≡ not (ltb t (now + recovery_spacing settings))
  unfolding recovery_slot
  recovery_slot_spaced settings settings' now t scope mutate rows granted =
      let key = recovery_scope scope in
      let first = existing key (find_budget key rows) in
      let next = now + recovery_spacing settings in
      let spent = update_budget key (spend_until next) (create_budget key rows) in
      ground (
        arith,
        find-create key rows,
        find-update key (spend_until next) (create_budget key rows) first (find-create key rows)
            refl,
        find-create key spent,
      )
