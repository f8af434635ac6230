-- ===== src/Circuit/Tables.antt =====
-- backend/internal/routinghealth/store.go: the laws of the circuit table under First, Save and lock.
use simple_up_manage.Prelude.{
  ◌+◌, ◌≤◌, ◌<◌, ◌≡◌, ◌↔◌, refl, Bool, true, false, none, some, List, [], ◌∷◌, ◌++◌, count_if, ◌∙◌,
  arith, Bool-cases, Option-cases, inl, inr, if◌then◌else◌,
}
use simple_up_manage.Domain.Routing.{Scope, key_scope, digest, scope_eq, Dimension, RoutingCircuit}
use simple_up_manage.Circuit.Store.{find_circuit, save_circuit, lock, new_circuit}

pub scope_eq_iff : (a b : Scope) → (scope_eq a b ≡ true) ↔ (a ≡ b)
scope_eq_iff (key_scope i) (key_scope j) = ground arith
scope_eq_iff (key_scope i) (digest n) = ground arith
scope_eq_iff (digest m) (key_scope j) = ground arith
scope_eq_iff (digest m) (digest n) = ground arith

pub scope_eq_refl : (a : Scope) → scope_eq a a ≡ true
scope_eq_refl a = (scope_eq_iff a a).1 refl

-- A row that is found has the scope that was asked for.
pub find_circuit-scope :
    (s : Scope) (rows : List RoutingCircuit) {r : RoutingCircuit}
    → find_circuit s rows ≡ some r
    → scope_eq r.scope s ≡ true
unfolding find_circuit
find_circuit-scope s [] e = cc
find_circuit-scope s (q ∷ rows) {r} e = ground (arith, find_circuit-scope s rows {r = r})

-- The row that Save writes is read back, and the other scopes keep their rows.
pub find-save :
    (s : Scope) (r : RoutingCircuit) (rows : List RoutingCircuit)
    → find_circuit s (save_circuit r rows)
      ≡ (if scope_eq r.scope s then some r else find_circuit s rows)
unfolding find_circuit save_circuit
find-save s r [] = refl
find-save s r (q ∷ rows) = ground (
  arith,
  find-save s r rows,
  scope_eq_iff q.scope r.scope,
  scope_eq_iff r.scope s,
  scope_eq_iff q.scope s,
)

find-append :
    (s : Scope) (r : RoutingCircuit) (rows : List RoutingCircuit)
    → scope_eq r.scope s ≡ false
    → find_circuit s (rows ++ r ∷ []) ≡ find_circuit s rows
unfolding find_circuit
find-append s r [] e = ground arith
find-append s r (q ∷ rows) e = ground (arith, find-append s r rows e)

find-append_self :
    (s : Scope) (r : RoutingCircuit) (rows : List RoutingCircuit)
    → scope_eq r.scope s ≡ true
    → find_circuit s rows ≡ none
    → find_circuit s (rows ++ r ∷ []) ≡ some r
unfolding find_circuit
find-append_self s r [] e h = ground arith
find-append_self s r (q ∷ rows) e h = ground (arith, find-append_self s r rows e)

-- lock returns the row that the table then holds.
pub find-lock_self :
    (d : Dimension) (s : Scope) (rows : List RoutingCircuit)
    → find_circuit s (lock d s rows).0 ≡ some (lock d s rows).1
unfolding lock
find-lock_self d s rows = elim (Option-cases (find_circuit s rows)) [
  | inl missing ↦ rw (missing, lock) (find-append_self s _ rows (scope_eq_refl s) missing)
  | inr (r, found) ↦ rw (found, lock) found
]

pub find-lock_ne :
    (d : Dimension) (s t : Scope) (rows : List RoutingCircuit)
    → scope_eq s t ≡ false
    → find_circuit t (lock d s rows).0 ≡ find_circuit t rows
unfolding lock
find-lock_ne d s t rows e = elim (Option-cases (find_circuit s rows)) [
  | inl missing ↦ rw (missing, lock) (find-append t _ rows e)
  | inr (r, found) ↦ rw (found, lock)
]

-- A present row is locked as it is.
pub lock-found :
    (d : Dimension) (s : Scope) (rows : List RoutingCircuit) {r : RoutingCircuit}
    → find_circuit s rows ≡ some r
    → lock d s rows ≡ (rows, r)
unfolding lock
lock-found d s rows e = rw (e, lock)

-- A row that is there stays as it is, whatever scope is locked.
pub find-lock_found :
    (d : Dimension) (t s : Scope) (rows : List RoutingCircuit) (r : RoutingCircuit)
    → find_circuit s rows ≡ some r
    → find_circuit s (lock d t rows).0 ≡ some r
find-lock_found d t s rows r e = elim (Bool-cases (scope_eq t s)) [
  | inl same ↦
      let there : find_circuit t rows ≡ some r = rw ((scope_eq_iff t s).0 same) e in
      rw (lock-found d t rows there) e
  | inr other ↦ find-lock_ne d t s rows other ∙ e
]

pub lock-scope :
    (d : Dimension) (s : Scope) (rows : List RoutingCircuit)
    → scope_eq (lock d s rows).1.scope s ≡ true
lock-scope d s rows = find_circuit-scope s (lock d s rows).0 (find-lock_self d s rows)

-- Counting rows: lock adds a row without leases, and Save changes one row.
module _ (p : RoutingCircuit → Bool) where
  count-append :
      (rows : List RoutingCircuit) (r : RoutingCircuit)
      → count_if p (rows ++ r ∷ []) ≡ count_if p rows + (if p r then 1 else 0)
  count-append [] r = ground arith
  count-append (q ∷ rows) r = ground (arith, count-append rows r)

  pub count-lock :
      (d : Dimension) (s : Scope) (rows : List RoutingCircuit)
      → p (new_circuit d s) ≡ false
      → count_if p (lock d s rows).0 ≡ count_if p rows
  unfolding lock
  count-lock d s rows e = elim (Option-cases (find_circuit s rows)) [
    | inl missing ↦ rw (missing, lock) (ground (arith, count-append rows (new_circuit d s)))
    | inr (r, found) ↦ rw (found, lock)
  ]

  pub count-save-le :
      (r : RoutingCircuit) (rows : List RoutingCircuit)
      → count_if p (save_circuit r rows) ≤ count_if p rows + 1
  unfolding save_circuit
  count-save-le r [] = ground arith
  count-save-le r (q ∷ rows) = ground (arith, count-save-le r rows)

  -- A row that is found is counted.
  pub count-pos_of_find :
      (s : Scope) (rows : List RoutingCircuit) (r : RoutingCircuit)
      → find_circuit s rows ≡ some r
      → p r ≡ true
      → 0 < count_if p rows
  unfolding find_circuit
  count-pos_of_find s [] r e h = cc
  count-pos_of_find s (q ∷ rows) r e h = ground (arith, count-pos_of_find s rows r)
