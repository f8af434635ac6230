-- ===== src/Gateway/Wait.antt =====
-- backend/internal/handler/recovery_wait.go: which gates a request without a route waits for, and how
-- long it looks at them. The polls answer for recoveryPoller.get; the digest of a dimension (package
-- crypto/sha256) is an argument.
pub mod Polls
use simple_up_manage.Prelude.{
  ℕ, Bool, true, false, not, ◌&&◌, ◌||◌, Option, none, some, List, [], ◌∷◌, ◌++◌, String, ltb, ◌==◌,
  if◌then◌else◌, str_eq,
}
use simple_up_manage.Domain.Routing.{Scope, key_scope, digest, scope_eq, Dimension}

-- The columns of a candidate that are read.
pub record Skipped : Type 0 where
  pub key_id : ℕ
  pub skip_reason : String
  pub recovery_scopes : List Scope

abbrev pub is_waiting : Skipped → Bool
is_waiting c =
    str_eq c.skip_reason "recovery_inflight" || str_eq c.skip_reason "recovery_check_inflight"

-- The scopes of a candidate: its key's, its dimension's, and those it names.
abbrev pub scopes_of : (Dimension → ℕ) → Dimension → Skipped → List Scope
scopes_of sha d c =
    key_scope c.key_id ∷ digest (sha (record d { key_id = c.key_id })) ∷ c.recovery_scopes

unfoldable pub is_seen : Scope → List Scope → Bool
is_seen scope [] = false
is_seen scope (s ∷ scopes) = scope_eq s scope || is_seen scope scopes

-- The inner loop; the scopes that were seen are those in the result.
unfoldable pub add_scopes : List Scope → List Scope → List Scope
add_scopes [] scopes = scopes
add_scopes (s ∷ rest) scopes =
    add_scopes rest (if is_seen s scopes then scopes else scopes ++ s ∷ [])

-- The outer loop, and recoveryWaitScopes; `d` has the request's columns.
unfoldable pub wait_scopes_from :
    (Dimension → ℕ) → Dimension → List Skipped → List Scope → List Scope
wait_scopes_from sha d [] scopes = scopes
wait_scopes_from sha d (c ∷ candidates) scopes =
    wait_scopes_from sha d candidates
      (if is_waiting c then add_scopes (scopes_of sha d c) scopes else scopes)

unfoldable pub recovery_wait_scopes : (Dimension → ℕ) → Dimension → List Skipped → List Scope
recovery_wait_scopes sha d candidates = wait_scopes_from sha d candidates []

-- recoveryGateState.
pub record GateState : Type 0 where
  pub generation : ℕ
  pub is_open : Bool
  pub until : ℕ
  pub lease_until : ℕ
  pub check_until : ℕ
  pub next_check_at : ℕ
  pub check_ok : Bool

abbrev pub same_flag : Bool → Bool → Bool
same_flag true b = b
same_flag false b = not b

-- recoveryGateState.equal.
unfoldable pub gate_equal : GateState → GateState → Bool
gate_equal s t =
    s.generation == t.generation
    && same_flag s.is_open t.is_open
    && same_flag s.check_ok t.check_ok
    && s.until == t.until
    && s.lease_until == t.lease_until
    && s.check_until == t.check_until
    && s.next_check_at == t.next_check_at

-- A gate whose recovery still runs.
abbrev pub is_active : ℕ → GateState → Bool
is_active now s = s.is_open && (ltb now s.lease_until || ltb now s.check_until)

unfoldable pub any_active : ℕ → List GateState → Bool
any_active now [] = false
any_active now (s ∷ states) = is_active now s || any_active now states

-- Every state equals the one before it at its place.
unfoldable pub all_equal : List GateState → List GateState → Bool
all_equal (s ∷ states) (b ∷ before) = gate_equal s b && all_equal states before
all_equal [] before = true
all_equal (s ∷ states) [] = true

-- One round of waitRecoveryChange: its time and the gates, none where a read fails.
pub record Poll : Type 0 where
  pub now : ℕ
  pub states : Option (List GateState)

pub data Waited : Type 0 where
  changed : Waited
  unchanged : Waited
  poll_failed : Waited

-- waitRecoveryChange, until the context ends behind the last poll; `before` is nil in the first
-- round.
unfoldable pub wait_recovery_change : Option (List GateState) → List Poll → Waited
wait_recovery_change before [] = unchanged
wait_recovery_change before (p ∷ polls) = elim p.states [
  | none ↦ poll_failed
  | some states ↦
      let later = wait_recovery_change (some states) polls in
      if not (any_active p.now states)
      then changed
      else if elim before [ none ↦ false | some b ↦ not (all_equal states b) ]
      then changed
      else later
]
