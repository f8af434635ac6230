-- ===== src/Circuit/Claims.antt =====
-- backend/internal/routinghealth/recovery.go: what ClaimCheck grants, and whom it shuts out.
use simple_up_manage.Prelude.{
  ℕ, ◌+◌, ◌≤◌, ◌<◌, ◌≡◌, inl, inr, refl, sym, subst, ap, ◌∙◌, String, Bool, true, false, not, ◌&&◌,
  ◌||◌, Option, none, some, List, ltb, leb, ◌==◌, arith, Bool-cases, if_pred,
}
use mathlib.Core.Option.{some-injective}
use simple_up_manage.Domain.Routing.{
  Scope, key_scope, scope_eq, Dimension, RoutingCircuit, after?, seconds,
}
use simple_up_manage.Circuit.Store.{
  Result, ok, err, unavailable, not_found, OnOk, Db, find_circuit, save_circuit, lock, is_leased,
}
use simple_up_manage.Circuit.Tables.{
  find-save, find_circuit-scope, find-lock_found, count-lock, count-save-le, count-pos_of_find,
}
use simple_up_manage.Circuit.Admission.{Admission, take_lease, gate_refuses, admit_request}
use simple_up_manage.Circuit.Check.{
  check_limit, active_checks, key_gate_blocks, conflicting, is_checkable, take_check, claim_row,
  claim_circuits, claim_check, is_expected, check_lease_sec, worker_scope,
}
use simple_up_manage.Circuit.Budget.{create_budget}
use simple_up_manage.Circuit.Exclusion.{
  IsGate, IsLeased, admit_request_refused, admit_request_leases,
}
use simple_up_manage.Circuit.Leases.{is_ok}

claim_row_rule :
    (P : List RoutingCircuit → Type 0) (d : Dimension) (expected : Option ℕ) (now : ℕ)
    (token : String) (r : RoutingCircuit) (rows : List RoutingCircuit)
    → (is_checkable r now ≡ true → P (save_circuit (take_check r d token now) rows))
    → OnOk P (claim_row d expected now token r rows)
unfolding claim_row
claim_row_rule P d expected now token r rows h =
    if_pred (OnOk P) (not (is_expected expected r.generation)) tt
      (elim (Bool-cases (is_checkable r now)) [ inl e ↦ rw e (h e) | inr e ↦ rw e tt ])

-- A claim that passes every guard on the table is decided by the row.
pub claim_circuits_rule :
    (P : List RoutingCircuit → Type 0) (concurrency : ℕ) (scope : Scope) (d : Dimension)
    (expected : Option ℕ) (now : ℕ) (token : String) (rows : List RoutingCircuit)
    → ((r : RoutingCircuit)
        → leb (check_limit concurrency) (active_checks now rows) ≡ false
        → find_circuit scope (lock d (key_scope d.key_id) rows).0 ≡ some r
        → is_checkable r now ≡ true
        → P (save_circuit (take_check r d token now) (lock d (key_scope d.key_id) rows).0))
    → OnOk P (claim_circuits concurrency scope d expected now token rows)
unfolding claim_circuits
claim_circuits_rule P concurrency scope d expected now token rows h =
    elim (Bool-cases (leb (check_limit concurrency) (active_checks now rows))) [
      | inl full ↦ rw full tt
      | inr room ↦ rw room (
          if_pred (OnOk P) (key_gate_blocks scope d (lock d (key_scope d.key_id) rows).1 now) tt (
            if_pred (OnOk P) (ltb 0 (conflicting scope d now (lock d (key_scope d.key_id) rows).0))
              tt (by_row room (find_circuit scope (lock d (key_scope d.key_id) rows).0) refl)))
    ]
  where
    by_row :
        leb (check_limit concurrency) (active_checks now rows) ≡ false
        → (found : Option RoutingCircuit)
        → find_circuit scope (lock d (key_scope d.key_id) rows).0 ≡ found
        → OnOk P (elim found [
          | none ↦ err not_found
          | some r ↦ claim_row d expected now token r (lock d (key_scope d.key_id) rows).0
        ])
    by_row room none e = tt
    by_row room (some r) e = claim_row_rule P d expected now token r _ (h r room e)

-- The worker allowance: a claim that is granted leaves at most check_limit checks running.
pub claim_circuits_capacity :
    (concurrency : ℕ) (scope : Scope) (d : Dimension) (expected : Option ℕ) (now : ℕ)
    (token : String) (rows : List RoutingCircuit)
    → OnOk
        (λ rows'. active_checks now rows' ≤ check_limit concurrency)
        (claim_circuits concurrency scope d expected now token rows)
unfolding active_checks
claim_circuits_capacity concurrency scope d expected now token rows =
    let p = λ (q : RoutingCircuit). after? q.check_until now in
    claim_circuits_rule (λ rows'. active_checks now rows' ≤ check_limit concurrency) concurrency
      scope d expected now token rows
      (λ r room found checkable. ground (
        arith,
        count-lock p d (key_scope d.key_id) rows refl,
        count-save-le p (take_check r d token now) (lock d (key_scope d.key_id) rows).0,
      ))

-- What a granted claim leaves: the row could be checked, and its check lease runs for 45 seconds.
abbrev pub IsClaimed :
    Scope → Dimension → ℕ → String → RoutingCircuit → List RoutingCircuit → Type 0
IsClaimed scope d now token r rows =
    (is_checkable r now ≡ true) × (find_circuit scope rows ≡ some (take_check r d token now))

pub claim_circuits_takes :
    (concurrency : ℕ) (scope : Scope) (d : Dimension) (expected : Option ℕ) (now : ℕ)
    (token : String) (rows : List RoutingCircuit) (r : RoutingCircuit)
    → find_circuit scope rows ≡ some r
    → OnOk
        (IsClaimed scope d now token r)
        (claim_circuits concurrency scope d expected now token rows)
claim_circuits_takes concurrency scope d expected now token rows r found =
    claim_circuits_rule (IsClaimed scope d now token r) concurrency scope d expected now token rows
      (λ q room there checkable.
        let same : q ≡ r =
          some-injective q r
            (sym there ∙ find-lock_found d (key_scope d.key_id) scope rows r found) in
        (
          rw (← same) checkable,
          find-save scope (take_check q d token now) _
              ∙ rw (find_circuit-scope scope _ there)
                  (ap (λ x. some (take_check x d token now)) same),
        ))

pub claim_check-circuits :
    (concurrency : ℕ) (scope : Scope) (d : Dimension) (expected : Option ℕ) (now : ℕ)
    (token : String) (db db' : Db)
    → claim_check concurrency scope d expected now token db ≡ ok db'
    → claim_circuits concurrency scope d expected now token db.circuits ≡ ok db'.circuits
unfolding claim_check
claim_check-circuits concurrency scope d expected now token db db' e =
    go (claim_circuits concurrency scope d expected now token db.circuits) e
  where
    go :
        (m : Result (List RoutingCircuit))
        → (elim m [
          | err x ↦ err x
          | ok rows ↦
              ok (record db { circuits = rows; budgets = create_budget worker_scope db.budgets })
        ])
          ≡ ok db'
        → m ≡ ok db'.circuits
    go (ok rows) h = ground arith
    go (err x) h = cc

module _ (concurrency : ℕ) (scope : Scope) (d : Dimension) (expected : Option ℕ) (now : ℕ)
    (token : String) (db db' : Db)
    (claimed : claim_check concurrency scope d expected now token db ≡ ok db') where
  -- On the tables that a granted claim leaves, at most check_limit checks are running.
  pub claim_check_capacity : active_checks now db'.circuits ≤ check_limit concurrency
  claim_check_capacity =
      subst (OnOk (λ rows. active_checks now rows ≤ check_limit concurrency))
        (claim_check-circuits concurrency scope d expected now token db db' claimed)
        (claim_circuits_capacity concurrency scope d expected now token db.circuits)

  -- On the tables that a granted claim of an existing gate leaves, every request through that gate
  -- is refused until the 45 seconds of the check lease are over.
  pub claim_check_excludes_requests :
      (sha : Dimension → ℕ) (d' : Dimension) (recovery : Bool) (t : ℕ) (token' : String)
      (r : RoutingCircuit)
      → IsGate sha d' scope
      → find_circuit scope db.circuits ≡ some r
      → t < now + seconds check_lease_sec
      → admit_request sha d' recovery t token' db' ≡ err unavailable
  unfolding gate_refuses is_checkable
  claim_check_excludes_requests sha d' recovery t token' r g found lt =
      admit_request_refused sha d' scope g recovery t token' db' (take_check r d token now) taken.1
        (ground (arith, taken.0)) (ground arith)
    where
      taken : IsClaimed scope d now token r db'.circuits
      taken =
          subst (OnOk (IsClaimed scope d now token r))
            (claim_check-circuits concurrency scope d expected now token db db' claimed)
            (claim_circuits_takes concurrency scope d expected now token db.circuits r found)

not_ok {ℓ κ} :
    {A : Type ℓ} (P : A → Type κ) (m : Result A) → OnOk P m → ((a : A) → P a → ⊥) → is_ok m ≡ false
not_ok P (ok a) h no_value = absurd (no_value a h)
not_ok P (err e) h no_value = refl

claim_check-is_ok :
    (concurrency : ℕ) (scope : Scope) (d : Dimension) (expected : Option ℕ) (now : ℕ)
    (token : String) (db : Db)
    → is_ok (claim_check concurrency scope d expected now token db)
      ≡ is_ok (claim_circuits concurrency scope d expected now token db.circuits)
unfolding claim_check
claim_check-is_ok concurrency scope d expected now token db = ground arith

-- On the tables that an admission through an open gate leaves, no check of that gate is granted
-- until the 330 seconds of the lease are over.
pub admit_request_excludes_checks :
    (sha : Dimension → ℕ) (d d' : Dimension) (s : Scope) (recovery : Bool) (now t : ℕ)
    (token token' : String) (concurrency : ℕ) (expected : Option ℕ) (db db' : Db) (a : Admission)
    (r : RoutingCircuit)
    → IsGate sha d s
    → find_circuit s db.circuits ≡ some r
    → r.is_open ≡ true
    → admit_request sha d recovery now token db ≡ ok (db', a)
    → t < now + seconds 330
    → is_ok (claim_check concurrency s d' expected t token' db') ≡ false
unfolding is_checkable
admit_request_excludes_checks sha d d' s recovery now t token token' concurrency expected db db' a r
      g found opened e lt =
    claim_check-is_ok concurrency s d' expected t token' db'
    ∙ not_ok _ _
        (claim_circuits_takes concurrency s d' expected t token' db'.circuits
          (take_lease r token now) leased.1)
        (λ rows c. ground (arith, c.0))
  where
    leased : IsLeased sha d recovery now token db r opened s (db', a)
    leased =
        subst (OnOk (IsLeased sha d recovery now token db r opened s)) e
          (admit_request_leases sha d s g recovery now token db r found opened)

-- While a row of the key is leased to a request or a check, no check of the key's own gate is
-- granted.
claim_check_waits_for_key :
    (concurrency : ℕ) (d : Dimension) (expected : Option ℕ) (now : ℕ) (token : String) (db : Db)
    (s : Scope) (q : RoutingCircuit)
    → find_circuit s db.circuits ≡ some q
    → q.platform_key_id ≡ d.key_id
    → is_leased now q ≡ true
    → is_ok (claim_check concurrency (key_scope d.key_id) d expected now token db) ≡ false
unfolding claim_circuits conflicting
claim_check_waits_for_key concurrency d expected now token db s q found owner leased =
    claim_check-is_ok concurrency (key_scope d.key_id) d expected now token db
    ∙ ground (
      arith,
      count-pos_of_find
          (λ x.
            x.platform_key_id == d.key_id
            && is_leased now x
            && (scope_eq (key_scope d.key_id) (key_scope d.key_id)
                || scope_eq x.scope (key_scope d.key_id)
                || scope_eq x.scope (key_scope d.key_id)))
          s (lock d (key_scope d.key_id) db.circuits).0 q
          (find-lock_found d (key_scope d.key_id) s db.circuits q found) (ground arith),
    )
