-- ===== src/Circuit/Leases.antt =====
-- backend/internal/routinghealth: business validations and synthetic checks shut one another out.
use simple_up_manage.Prelude.{
  ℕ, ◌+◌, ◌<◌, ◌≡◌, inl, inr, refl, subst, String, Bool, true, false, not, ◌&&◌, Option, none, some,
  List, arith, Option-cases,
}
use simple_up_manage.Domain.Routing.{Scope, key_scope, digest, Dimension, RoutingCircuit, seconds}
use simple_up_manage.Circuit.Store.{Result, ok, err, unavailable, OnOk, Db, find_circuit, lock}
use simple_up_manage.Circuit.Tables.{find-lock_ne}
use simple_up_manage.Circuit.Admission.{
  Admission, take_lease, gate_refuses, admit_gate, admit_request,
}
use simple_up_manage.Circuit.Exclusion.{
  IsGate, IsLeased, admit_request_refused, admit_request_leases,
}

abbrev pub is_ok {ℓ} : {A : Type ℓ} → Result A → Bool
is_ok (ok a) = true
is_ok (err e) = false

-- The gate is missing or closed.
abbrev pub is_closed : Option RoutingCircuit → Bool
is_closed none = true
is_closed (some r) = not r.is_open

abbrev pub is_closed_at : Scope → List RoutingCircuit → Bool
is_closed_at s rows = is_closed (find_circuit s rows)

lock-is_closed :
    (d : Dimension) (s : Scope) (rows : List RoutingCircuit)
    → not (lock d s rows).1.is_open ≡ is_closed_at s rows
unfolding lock
lock-is_closed d s rows = elim (Option-cases (find_circuit s rows)) [
  | inl missing ↦ rw (missing, lock)
  | inr (r, found) ↦ rw (found, lock)
]

-- An ordinary request is admitted exactly when both its gates are closed.
admit_request_plain :
    (sha : Dimension → ℕ) (d : Dimension) (now : ℕ) (token : String) (db : Db)
    → is_ok (admit_request sha d false now token db)
      ≡ (is_closed_at (key_scope d.key_id) db.circuits && is_closed_at (digest (sha d)) db.circuits)
unfolding admit_request admit_gate gate_refuses
admit_request_plain sha d now token db = ground (
  arith,
  lock-is_closed d (key_scope d.key_id) db.circuits,
  lock-is_closed d (digest (sha d)) (lock d (key_scope d.key_id) db.circuits).0,
  find-lock_ne d (key_scope d.key_id) (digest (sha d)) db.circuits refl,
)

-- On the tables that an admission through an open gate leaves, every further request through that
-- gate is refused until the 330 seconds of the lease are over.
pub admit_request_exclusive :
    (sha : Dimension → ℕ) (d d' : Dimension) (s : Scope) (recovery recovery' : Bool) (now t : ℕ)
    (token token' : String) (db db' : Db) (a : Admission) (r : RoutingCircuit)
    → IsGate sha d s
    → IsGate sha d' s
    → find_circuit s db.circuits ≡ some r
    → r.is_open ≡ true
    → admit_request sha d recovery now token db ≡ ok (db', a)
    → t < now + seconds 330
    → admit_request sha d' recovery' t token' db' ≡ err unavailable
unfolding gate_refuses
admit_request_exclusive sha d d' s recovery recovery' now t token token' db db' a r g g' found
      opened e lt =
    admit_request_refused sha d' s g' recovery' t token' db' (take_lease r token now) leased.1
      opened (ground arith)
  where
    leased : IsLeased sha d recovery now token db r opened s (db', a)
    leased =
        subst (OnOk (IsLeased sha d recovery now token db r opened s)) e
          (admit_request_leases sha d s g recovery now token db r found opened)
