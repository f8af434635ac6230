-- ===== src/Circuit/Exclusion.antt =====
-- backend/internal/routinghealth/store.go: what AdmitRequest grants, and whom it shuts out.
use simple_up_manage.Prelude.{
  ℕ, ◌≡◌, ◌⊎◌, inl, inr, refl, ap, ◌∙◌, String, Bool, true, false, not, ◌&&◌, some, List, [], ltb,
  arith, Bool-cases, if_pred,
}
use simple_up_manage.Domain.Routing.{Scope, key_scope, digest, scope_eq, Dimension, RoutingCircuit}
use simple_up_manage.Circuit.Store.{
  Result, ok, err, unavailable, ◌>>=◌, OnOk, Db, find_circuit, save_circuit, lock, busy_elsewhere,
}
use simple_up_manage.Circuit.Tables.{
  scope_eq_iff, find-save, find-lock_ne, find_circuit-scope, lock-found, lock-scope,
}
use simple_up_manage.Circuit.Admission.{
  Admission, take_lease, gate_refuses, admit_gate, admit_request,
}

-- The gates of a request: its key's and its own dimension's.
abbrev pub IsGate : (Dimension → ℕ) → Dimension → Scope → Type 0
IsGate sha d s = (s ≡ key_scope d.key_id) ⊎ (s ≡ digest (sha d))

-- What one round of the loop leaves alone.
abbrev IsFramed :
    Scope → List RoutingCircuit → Result (List RoutingCircuit × List (Scope × ℕ)) → Type 0
IsFramed s rows (err e) = e ≡ unavailable
IsFramed s rows (ok x) =
    (t : Scope) → scope_eq s t ≡ false → find_circuit t x.0 ≡ find_circuit t rows

module _ (d : Dimension) (recovery : Bool) (now : ℕ) (token : String) (s : Scope) where
  saved_elsewhere :
      (rows : List RoutingCircuit) (t : Scope)
      → scope_eq s t ≡ false
      → find_circuit t (save_circuit (take_lease (lock d s rows).1 token now) (lock d s rows).0)
        ≡ find_circuit t rows
  saved_elsewhere rows t e =
      find-save t (take_lease (lock d s rows).1 token now) (lock d s rows).0
      ∙ ground (
        arith,
        find-lock_ne d s t rows e,
        lock-scope d s rows,
        scope_eq_iff (lock d s rows).1.scope s,
        scope_eq_iff s t,
        scope_eq_iff (lock d s rows).1.scope t,
      )

  admit_gate-IsFramed :
      (rows : List RoutingCircuit) (gens : List (Scope × ℕ))
      → IsFramed s rows (admit_gate d recovery now token s (rows, gens))
  unfolding admit_gate
  admit_gate-IsFramed rows gens =
      if_pred (IsFramed s rows) (not (lock d s rows).1.is_open) (λ t e. find-lock_ne d s t rows e)
        (if_pred (IsFramed s rows) (gate_refuses (lock d s rows).1 recovery now) refl (
          if_pred (IsFramed s rows)
            (scope_eq s (key_scope d.key_id)
              && ltb 0 (busy_elsewhere d.key_id s now (lock d s rows).0))
            refl (saved_elsewhere rows)))

  -- An open gate that refuses ends the loop with an error.
  admit_gate_refused :
      (rows : List RoutingCircuit) (gens : List (Scope × ℕ)) (r : RoutingCircuit)
      → find_circuit s rows ≡ some r
      → r.is_open ≡ true
      → gate_refuses r recovery now ≡ true
      → admit_gate d recovery now token s (rows, gens) ≡ err unavailable
  unfolding admit_gate
  admit_gate_refused rows gens r found opened refused =
      let not_closed : not r.is_open ≡ false = ap not opened in
      rw (lock-found d s rows found) (rw not_closed (rw refused refl))

  -- An open gate that is passed is leased.
  abbrev IsTaken : RoutingCircuit → List RoutingCircuit × List (Scope × ℕ) → Type 0
  IsTaken r x =
      (gate_refuses r recovery now ≡ false) × (find_circuit s x.0 ≡ some (take_lease r token now))

  admit_gate-IsTaken :
      (rows : List RoutingCircuit) (gens : List (Scope × ℕ)) (r : RoutingCircuit)
      → find_circuit s rows ≡ some r
      → r.is_open ≡ true
      → OnOk (IsTaken r) (admit_gate d recovery now token s (rows, gens))
  unfolding admit_gate
  admit_gate-IsTaken rows gens r found opened =
      let not_closed : not r.is_open ≡ false = ap not opened in
      rw (lock-found d s rows found) (
        rw not_closed (elim (Bool-cases (gate_refuses r recovery now)) [
          | inl refused ↦ rw refused tt
          | inr passed ↦ rw passed (
              if_pred (OnOk (IsTaken r))
                (scope_eq s (key_scope d.key_id) && ltb 0 (busy_elsewhere d.key_id s now rows)) tt
                (passed, leased))
        ]))
    where
      leased :
          find_circuit s (save_circuit (take_lease r token now) rows)
          ≡ some (take_lease r token now)
      leased = find-save s (take_lease r token now) rows ∙ rw (find_circuit-scope s rows found)

-- The rest of the loop after a framed round.
framed_err {ℓ} :
    {B : Type ℓ} (s : Scope) (rows : List RoutingCircuit)
    (m : Result (List RoutingCircuit × List (Scope × ℕ)))
    (k : List RoutingCircuit × List (Scope × ℕ) → Result B)
    → IsFramed s rows m
    → ((x : List RoutingCircuit × List (Scope × ℕ))
        → IsFramed s rows (ok x)
        → k x ≡ err unavailable)
    → (m >>= k) ≡ err unavailable
framed_err s rows (ok x) k f h = h x f
framed_err s rows (err e) k f h = ap err f

framed_ok {ℓ κ} :
    {B : Type ℓ} (P : B → Type κ) (s : Scope) (rows : List RoutingCircuit)
    (m : Result (List RoutingCircuit × List (Scope × ℕ)))
    (k : List RoutingCircuit × List (Scope × ℕ) → Result B)
    → IsFramed s rows m
    → ((x : List RoutingCircuit × List (Scope × ℕ)) → IsFramed s rows (ok x) → OnOk P (k x))
    → OnOk P (m >>= k)
framed_ok P s rows (ok x) k f h = h x f
framed_ok P s rows (err e) k f h = tt

pub taken_ok {ℓ κ} :
    {A : Type ℓ} {B : Type κ} (Q : A → Type 0) (P : B → Type 0) (m : Result A) (k : A → Result B)
    → OnOk Q m
    → ((a : A) → Q a → OnOk P (k a))
    → OnOk P (m >>= k)
taken_ok Q P (ok a) k q h = h a q
taken_ok Q P (err e) k q h = tt

module _ (sha : Dimension → ℕ) (d : Dimension) (recovery : Bool) (now : ℕ) (token : String)
    (db : Db) (r : RoutingCircuit) (opened : r.is_open ≡ true) where
  key_gate_refused :
      find_circuit (key_scope d.key_id) db.circuits ≡ some r
      → gate_refuses r recovery now ≡ true
      → admit_request sha d recovery now token db ≡ err unavailable
  unfolding admit_request
  key_gate_refused found refused = rw (
      admit_gate_refused d recovery now token (key_scope d.key_id) db.circuits [] r found opened
        refused)

  dimension_gate_refused :
      find_circuit (digest (sha d)) db.circuits ≡ some r
      → gate_refuses r recovery now ≡ true
      → admit_request sha d recovery now token db ≡ err unavailable
  unfolding admit_request
  dimension_gate_refused found refused =
      framed_err (key_scope d.key_id) db.circuits
        (admit_gate d recovery now token (key_scope d.key_id) (db.circuits, [])) _
        (admit_gate-IsFramed d recovery now token (key_scope d.key_id) db.circuits [])
        (λ x f. rw (
          admit_gate_refused d recovery now token (digest (sha d)) x.0 x.1 r
            (f (digest (sha d)) refl ∙ found) opened refused))

  -- What an admission leaves at one of its open gates.
  abbrev pub IsLeased : Scope → Db × Admission → Type 0
  IsLeased s x =
      (gate_refuses r recovery now ≡ false)
      × (find_circuit s x.0.circuits ≡ some (take_lease r token now))

  key_gate-IsLeased :
      find_circuit (key_scope d.key_id) db.circuits ≡ some r
      → OnOk (IsLeased (key_scope d.key_id)) (admit_request sha d recovery now token db)
  unfolding admit_request
  key_gate-IsLeased found =
      taken_ok (IsTaken d recovery now token (key_scope d.key_id) r) (IsLeased (key_scope d.key_id))
        _ _
        (admit_gate-IsTaken d recovery now token (key_scope d.key_id) db.circuits [] r found opened)
        (λ x q.
          framed_ok (IsLeased (key_scope d.key_id)) (digest (sha d)) x.0 _ _
            (admit_gate-IsFramed d recovery now token (digest (sha d)) x.0 x.1)
            (λ y f. (q.0, f (key_scope d.key_id) refl ∙ q.1)))

  dimension_gate-IsLeased :
      find_circuit (digest (sha d)) db.circuits ≡ some r
      → OnOk (IsLeased (digest (sha d))) (admit_request sha d recovery now token db)
  unfolding admit_request
  dimension_gate-IsLeased found =
      framed_ok (IsLeased (digest (sha d))) (key_scope d.key_id) db.circuits
        (admit_gate d recovery now token (key_scope d.key_id) (db.circuits, [])) _
        (admit_gate-IsFramed d recovery now token (key_scope d.key_id) db.circuits [])
        (λ x f.
          taken_ok (IsTaken d recovery now token (digest (sha d)) r) (IsLeased (digest (sha d))) _ _
            (admit_gate-IsTaken d recovery now token (digest (sha d)) x.0 x.1 r
              (f (digest (sha d)) refl ∙ found) opened)
            (λ y q. q))

module _ (sha : Dimension → ℕ) (d : Dimension) (s : Scope) (gate : IsGate sha d s) where
  -- If one of the request's gates is open and refuses it, the request is refused.
  pub admit_request_refused :
      (recovery : Bool) (now : ℕ) (token : String) (db : Db) (r : RoutingCircuit)
      → find_circuit s db.circuits ≡ some r
      → r.is_open ≡ true
      → gate_refuses r recovery now ≡ true
      → admit_request sha d recovery now token db ≡ err unavailable
  admit_request_refused recovery now token db r found opened refused = elim gate [
    | inl e ↦ key_gate_refused sha d recovery now token db r opened (rw e at found) refused
    | inr e ↦ dimension_gate_refused sha d recovery now token db r opened (rw e at found) refused
  ]

  -- A request that is admitted leases each of its open gates: the gate did not refuse it, and its
  -- row now carries the request's token until 330 seconds from now.
  pub admit_request_leases :
      (recovery : Bool) (now : ℕ) (token : String) (db : Db) (r : RoutingCircuit)
      → find_circuit s db.circuits ≡ some r
      → (opened : r.is_open ≡ true)
      → OnOk
          (IsLeased sha d recovery now token db r opened s)
          (admit_request sha d recovery now token db)
  admit_request_leases recovery now token db r found opened = elim gate [
    | inl e ↦ rw e (key_gate-IsLeased sha d recovery now token db r opened (rw e at found))
    | inr e ↦ rw e (dimension_gate-IsLeased sha d recovery now token db r opened (rw e at found))
  ]
