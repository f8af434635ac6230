-- ===== src/Circuit/Budget.antt =====
-- backend/internal/routinghealth: the shared allowances, Slot of store.go, and recoverySpacing and
-- RecoverySlot of recovery.go. A scope of a budget is a text.
use simple_up_manage.Prelude.{
  ℕ, ◌+◌, ◌/◌, ◌%◌, String, Bool, true, false, not, Option, none, some, List, [], ◌∷◌, ltb, ◌==◌,
  if◌then◌else◌, str_eq, Float64,
}
use Prim.Native.String.{◌++◌}
use simple_up_manage.Domain.Settings.{SchedulerSettings, normalize}
use simple_up_manage.Domain.Routing.{RoutingBudget, after?, seconds}

abbrev pub new_budget : String → RoutingBudget
new_budget scope = record { scope = scope; counter = 0; recovery_after = none }

unfoldable pub find_budget : String → List RoutingBudget → Option RoutingBudget
find_budget scope [] = none
find_budget scope (b ∷ rows) = if str_eq b.scope scope then some b else find_budget scope rows

-- INSERT … ON CONFLICT DO NOTHING.
unfoldable pub create_budget : String → List RoutingBudget → List RoutingBudget
create_budget scope [] = new_budget scope ∷ []
create_budget scope (b ∷ rows) =
    if str_eq b.scope scope then b ∷ rows else b ∷ create_budget scope rows

-- UPDATE … WHERE scope = ?.
unfoldable pub update_budget :
    String → (RoutingBudget → RoutingBudget) → List RoutingBudget → List RoutingBudget
update_budget scope f [] = []
update_budget scope f (b ∷ rows) =
    if str_eq b.scope scope then f b ∷ rows else b ∷ update_budget scope f rows

-- `counter = (counter + 1) % interval`.
abbrev pub bump_counter : ℕ → RoutingBudget → RoutingBudget
bump_counter interval b = record b { counter = (b.counter + 1) % interval }

-- The slot that a counter grants.
abbrev pub grants : ℕ → ℕ → Bool
grants interval count = count % interval == 0

-- Slot: the new budgets and whether the request may explore. A preview reads the counter only.
unfoldable pub slot : String → ℕ → Bool → List RoutingBudget → List RoutingBudget × Bool
slot scope interval mutate rows =
    let bumped = update_budget scope (bump_counter interval) (create_budget scope rows) in
    if interval == 0
    then (rows, false)
    else if mutate
    then (
      bumped,
      elim (find_budget scope bumped) [ none ↦ false | some b ↦ grants interval b.counter ],
    )
    else (
      rows,
      elim (find_budget scope rows) [ none ↦ false | some b ↦ grants interval (b.counter + 1) ],
    )

abbrev pub recovery_scope : String → String
recovery_scope scope = "recovery:" ++ scope

abbrev pub may_recover : ℕ → RoutingBudget → Bool
may_recover now b = not (after? b.recovery_after now)

-- A missing budget allows: a preview finds none before the first request.
abbrev pub is_allowed : ℕ → Option RoutingBudget → Bool
is_allowed now none = true
is_allowed now (some b) = may_recover now b

abbrev pub spend_until : ℕ → RoutingBudget → RoutingBudget
spend_until t b = record b { recovery_after = some t }

module _ {F : Type 0} ⦃fl : Float64 F⦄ where
  -- recoverySpacing, in nanoseconds.
  unfoldable pub recovery_spacing : SchedulerSettings F → ℕ
  recovery_spacing settings =
      let budget = (normalize settings).recovery_budget_per_min in
      let at_least_one = if ltb budget 1 then 1 else budget in seconds (60 / at_least_one)

  -- RecoverySlot: the new budgets and whether a real request may validate a circuit.
  unfoldable pub recovery_slot :
      SchedulerSettings F → ℕ → String → Bool → List RoutingBudget → List RoutingBudget × Bool
  recovery_slot settings now scope mutate rows =
      let key = recovery_scope scope in
      let created = create_budget key rows in
      let allowed = is_allowed now (find_budget key (if mutate then created else rows)) in
      let next = now + recovery_spacing settings in
      if mutate
      then (if allowed
          then (update_budget key (spend_until next) created, true)
          else (created, false))
      else (rows, allowed)
