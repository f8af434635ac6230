-- ===== src/Domain/Routing.antt =====
-- backend/internal/domain/routing.go and the types of backend/internal/routinghealth/store.go:
-- the rows that routing health keeps in the database. A time is a number of nanoseconds; the zero
-- time.Time{} is 0, before every clock reading. A `*time.Time` is an Option. The column
-- updated_at, which the database layer fills in and no code reads, is left out.
use simple_up_manage.Prelude.{
  ℕ, ◌+◌, ◌*◌, ◌/◌, ◌%◌, String, Bool, false, ◌||◌, Option, none, some, List, ltb, ◌==◌, str_eq,
}

abbrev pub failure_first_token_timeout : String
failure_first_token_timeout = "first_token_timeout"

-- IsAvailabilityFailureAction.
unfoldable pub is_availability_failure_action : String → Bool
is_availability_failure_action action =
    str_eq action "key_quota_exhausted"
    || str_eq action "credential_disabled"
    || str_eq action "quota_rate_limited"

-- t.After(u), and p != nil && p.After(u).
abbrev pub after : ℕ → ℕ → Bool
after t u = ltb u t

abbrev pub after? : Option ℕ → ℕ → Bool
after? none u = false
after? (some t) u = after t u

-- time.Duration(n) * time.Second, and t.UnixMilli().
abbrev pub seconds : ℕ → ℕ
seconds n = n * 1000000000

abbrev pub unix_milli : ℕ → ℕ
unix_milli t = t / 1000000

-- A uint64 counter wraps.
abbrev pub next_u64 : ℕ → ℕ
next_u64 n = (n + 1) % 18446744073709551616

pub record Dimension : Type 0 where
  pub key_id : ℕ
  pub protocol : String
  pub model : String
  pub path : String
  pub stream : Bool

-- A scope is the text "key:<id>" or the hexadecimal SHA-256 digest of a dimension, kept here as
-- the number that it writes; no digest is spelled like a key scope.
pub data Scope : Type 0 where
  key_scope : ℕ → Scope
  digest : ℕ → Scope

abbrev pub scope_eq : Scope → Scope → Bool
scope_eq (key_scope i) (key_scope j) = i == j
scope_eq (key_scope i) (digest n) = false
scope_eq (digest m) (key_scope j) = false
scope_eq (digest m) (digest n) = m == n

pub record RoutingCircuit : Type 0 where
  pub generation : ℕ
  pub scope : Scope
  pub platform_key_id : ℕ
  pub is_open : Bool
  pub failures : ℕ
  pub failure_times : List ℕ
  pub attempt_times : List ℕ
  pub opened_at : ℕ
  pub until : ℕ
  pub backoff_sec : ℕ
  pub reason : String
  pub lease : String
  pub lease_until : ℕ
  pub protocol : String
  pub model : String
  pub path : String
  pub stream : Bool
  pub recovery_at : Option ℕ
  pub check_lease : String
  pub check_until : Option ℕ
  pub check_at : Option ℕ
  pub check_ok : Bool
  pub check_error : String
  pub next_check_at : Option ℕ
  pub check_backoff : ℕ

pub record RoutingObservation : Type 0 where
  pub scope : Scope
  pub request_id : String

pub record RoutingBudget : Type 0 where
  pub scope : String
  pub counter : ℕ
  pub recovery_after : Option ℕ
