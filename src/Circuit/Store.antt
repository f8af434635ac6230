-- ===== src/Circuit/Store.antt =====
-- backend/internal/routinghealth/store.go: the tables behind Store, and lock. A table is the list
-- of its rows; a transaction either returns the new tables or an error, and then nothing of it is
-- kept. Failures of the database itself are left out.
use simple_up_manage.Prelude.{
  ℕ, Bool, false, not, ◌&&◌, ◌||◌, Option, none, some, List, [], ◌∷◌, ◌++◌, count_if, ◌==◌,
  if◌then◌else◌,
}
use simple_up_manage.Domain.Routing.{
  Scope, scope_eq, Dimension, RoutingCircuit, RoutingObservation, RoutingBudget, after, after?,
}

-- ErrUnavailable, ErrCheckCapacity and gorm.ErrRecordNotFound.
pub data Error : Type 0 where
  unavailable check_capacity not_found : Error

pub data Result {ℓ} (A : Type ℓ) : Type ℓ where
  ok : A → Result A
  err : Error → Result A

infixl 5 ◌>>=◌
abbrev pub ◌>>=◌ {ℓ κ} : {A : Type ℓ} {B : Type κ} → Result A → (A → Result B) → Result B
ok a >>= f = f a
err e >>= f = err e

-- A predicate of the value, if there is no error.
abbrev pub OnOk {ℓ κ} : {A : Type ℓ} → (A → Type κ) → Result A → Type κ
OnOk P (ok a) = P a
OnOk P (err e) = Unit

pub bind_ok {ℓ κ μ} :
    {A : Type ℓ} {B : Type κ} (P : B → Type μ) (m : Result A) (f : A → Result B)
    → OnOk (λ a. OnOk P (f a)) m
    → OnOk P (m >>= f)
bind_ok P (ok a) f h = h
bind_ok P (err e) f h = tt

pub record Db : Type 0 where
  pub circuits : List RoutingCircuit
  pub observations : List RoutingObservation
  pub budgets : List RoutingBudget

-- The row that lock inserts: every column not named in the source has its zero value.
abbrev pub new_circuit : Dimension → Scope → RoutingCircuit
new_circuit d scope = record {
  generation = 0;
  scope = scope;
  platform_key_id = d.key_id;
  is_open = false;
  failures = 0;
  failure_times = [];
  attempt_times = [];
  opened_at = 0;
  until = 0;
  backoff_sec = 0;
  reason = "";
  lease = "";
  lease_until = 0;
  protocol = d.protocol;
  model = d.model;
  path = d.path;
  stream = d.stream;
  recovery_at = none;
  check_lease = "";
  check_until = none;
  check_at = none;
  check_ok = false;
  check_error = "";
  next_check_at = none;
  check_backoff = 0;
}

-- First(&r, "scope = ?", scope).
unfoldable pub find_circuit : Scope → List RoutingCircuit → Option RoutingCircuit
find_circuit scope [] = none
find_circuit scope (r ∷ rows) = if scope_eq r.scope scope then some r else find_circuit scope rows

-- tx.Save(&r): the row with this primary key is replaced, or inserted.
unfoldable pub save_circuit : RoutingCircuit → List RoutingCircuit → List RoutingCircuit
save_circuit r [] = r ∷ []
save_circuit r (q ∷ rows) = if scope_eq q.scope r.scope then r ∷ rows else q ∷ save_circuit r rows

-- lock: insert the row if it is missing, and read it.
unfoldable pub lock : Dimension → Scope → List RoutingCircuit → List RoutingCircuit × RoutingCircuit
lock d scope rows = elim (find_circuit scope rows) [
  | none ↦ (rows ++ new_circuit d scope ∷ [], new_circuit d scope)
  | some r ↦ (rows, r)
]

-- `lease_until > now OR check_until > now`.
abbrev pub is_leased : ℕ → RoutingCircuit → Bool
is_leased now r = after r.lease_until now || after? r.check_until now

-- The rows of a key under other scopes that hold a live lease.
unfoldable pub busy_elsewhere : ℕ → Scope → ℕ → List RoutingCircuit → ℕ
busy_elsewhere key scope now rows =
    count_if (λ q. q.platform_key_id == key && not (scope_eq q.scope scope) && is_leased now q) rows
