-- ===== src/Circuit/Admission.antt =====
-- backend/internal/routinghealth/store.go: Admission, AdmitRequest, Admit and ReleaseOnOutput. The
-- clock reading, the digest of a dimension (package crypto/sha256) and the fresh token (package
-- google/uuid) are arguments.
use simple_up_manage.Prelude.{
  ℕ, ◌+◌, String, Bool, false, not, ◌&&◌, ◌||◌, Option, none, some, List, [], ◌∷◌, ◌++◌, is_empty,
  ltb, ◌==◌, if◌then◌else◌, str_eq,
}
use simple_up_manage.Domain.Routing.{
  Scope, key_scope, digest, scope_eq, Dimension, RoutingCircuit, after, after?, seconds,
}
use simple_up_manage.Circuit.Row.{close_circuit}
use simple_up_manage.Circuit.Store.{
  Result, ok, err, unavailable, ◌>>=◌, Db, save_circuit, lock, busy_elsewhere,
}

-- The map from scopes to generations: the newest entry of a scope counts.
pub record Admission : Type 0 where
  pub token : String
  pub generations : List (Scope × ℕ)

unfoldable pub generation_of : Scope → List (Scope × ℕ) → Option ℕ
generation_of scope [] = none
generation_of scope ((s, g) ∷ gens) = if scope_eq s scope then some g else generation_of scope gens

-- The lease that a recovery admission takes on an open gate.
abbrev pub take_lease : RoutingCircuit → String → ℕ → RoutingCircuit
take_lease r token now = record r {
  lease = token;
  lease_until = now + seconds 330;
  recovery_at = some now;
}

-- `!recovery || r.Until.After(now) || …`: an open gate refuses the request.
unfoldable pub gate_refuses : RoutingCircuit → Bool → ℕ → Bool
gate_refuses r recovery now =
    not recovery || after r.until now || after r.lease_until now || after? r.check_until now

-- One round of AdmitRequest's loop: a gate of the request.
unfoldable pub admit_gate :
    Dimension
    → Bool
    → ℕ
    → String
    → Scope
    → List RoutingCircuit × List (Scope × ℕ)
    → Result (List RoutingCircuit × List (Scope × ℕ))
admit_gate d recovery now token scope (rows, gens) =
    let (rows', r) = lock d scope rows in
    let gens' = (scope, r.generation) ∷ gens in
    if not r.is_open
    then ok (rows', gens')
    else if gate_refuses r recovery now
    then err unavailable
    else if scope_eq scope (key_scope d.key_id) && ltb 0 (busy_elsewhere d.key_id scope now rows')
    then err unavailable
    else ok (save_circuit (take_lease r token now) rows', gens')

unfoldable pub admit_request :
    (Dimension → ℕ) → Dimension → Bool → ℕ → String → Db → Result (Db × Admission)
admit_request sha d recovery now token db = do
  first ← admit_gate d recovery now token (key_scope d.key_id) (db.circuits, [])
  (rows, gens) ← admit_gate d recovery now token (digest (sha d)) first
  ok (record db { circuits = rows }, record { token = token; generations = gens })

-- Admit returns the token alone.
unfoldable pub admit : (Dimension → ℕ) → Dimension → Bool → ℕ → String → Db → Result (Db × String)
admit sha d recovery now token db = do
  (db', a) ← admit_request sha d recovery now token db
  ok (db', a.token)

-- The test of ReleaseOnOutput: the admission still owns the open gate that it saw.
unfoldable pub still_owned : Admission → ℕ → Scope → RoutingCircuit → Bool
still_owned a now scope r = elim (generation_of scope a.generations) [
  | none ↦ false
  | some g ↦ r.generation == g && r.is_open && str_eq r.lease a.token && after r.lease_until now
]

-- One round of ReleaseOnOutput's loop; the second part lists what changed.
unfoldable pub release_gate :
    Dimension
    → Admission
    → ℕ
    → Scope
    → List RoutingCircuit × List (Scope × ℕ)
    → List RoutingCircuit × List (Scope × ℕ)
release_gate d a now scope (rows, changed) =
    let (rows', r) = lock d scope rows in
    let closed = close_circuit r now in
    if still_owned a now scope r
    then (save_circuit closed rows', (scope, closed.generation) ∷ changed)
    else (rows', changed)

-- The new tables, the admission with the generations after the release, and whether any gate was
-- closed. The nil admission and an empty token return at once.
unfoldable pub release_on_output :
    (Dimension → ℕ) → Dimension → Admission → ℕ → Db → Db × Admission × Bool
unfolding release_gate
release_on_output sha d a now db =
    let (rows, changed) =
      release_gate d a now (digest (sha d))
        (release_gate d a now (key_scope d.key_id) (db.circuits, [])) in
    if str_eq a.token "" then (db, a, false) else (
      record db { circuits = rows },
      record a { generations = changed ++ a.generations },
      not (is_empty changed),
    )
