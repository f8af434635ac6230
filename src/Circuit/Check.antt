-- ===== src/Circuit/Check.antt =====
-- backend/internal/routinghealth/recovery.go: the synthetic recovery checks, SupportsCheck,
-- checkLimit, ClaimCheck and FinishCheck.
use simple_up_manage.Prelude.{
  ℕ, ◌+◌, ◌*◌, min, max, String, Bool, true, false, not, ◌&&◌, ◌||◌, Option, none, some, List,
  count_if, ltb, leb, ◌==◌, if◌then◌else◌, str_eq,
}
use simple_up_manage.Domain.Routing.{
  Scope, key_scope, scope_eq, Dimension, RoutingCircuit, after, after?, seconds,
}
use simple_up_manage.Circuit.Row.{close_circuit}
use simple_up_manage.Circuit.Store.{
  Result, ok, err, unavailable, check_capacity, not_found, Db, find_circuit, save_circuit, lock,
  is_leased,
}
use simple_up_manage.Circuit.Budget.{create_budget}

abbrev pub default_check_concurrency : ℕ
default_check_concurrency = 8

-- CheckLeaseDuration, in seconds.
abbrev pub check_lease_sec : ℕ
check_lease_sec = 45

abbrev pub check_backoff_base_sec : ℕ
check_backoff_base_sec = 30

abbrev pub check_backoff_max_sec : ℕ
check_backoff_max_sec = 90

unfoldable pub supports_check : String → Bool
supports_check path =
    str_eq path "/v1/responses" || str_eq path "/v1/chat/completions" || str_eq path "/v1/messages"

unfoldable pub check_limit : ℕ → ℕ
check_limit concurrency =
    if leb 1 concurrency && leb concurrency 64 then concurrency else default_check_concurrency

-- `check_until > now`, over the whole table.
unfoldable pub active_checks : ℕ → List RoutingCircuit → ℕ
active_checks now rows = count_if (λ q. after? q.check_until now) rows

-- A failed check that has to wait: `!CheckOK && NextCheckAt != nil && NextCheckAt.After(now)`.
abbrev pub backs_off : RoutingCircuit → ℕ → Bool
backs_off r now = not r.check_ok && after? r.next_check_at now

-- The key's gate holds back a check of one of its dimensions.
unfoldable pub key_gate_blocks : Scope → Dimension → RoutingCircuit → ℕ → Bool
key_gate_blocks scope d key_gate now =
    not (scope_eq scope (key_scope d.key_id))
    && key_gate.is_open
    && (after key_gate.until now || backs_off key_gate now)

-- The leases that exclude the check: all of the key's for a key-wide check, and else those of the
-- scope and of the key.
unfoldable pub conflicting : Scope → Dimension → ℕ → List RoutingCircuit → ℕ
conflicting scope d now rows =
    count_if
      (λ q.
        q.platform_key_id == d.key_id
        && is_leased now q
        && (scope_eq scope (key_scope d.key_id)
            || scope_eq q.scope scope
            || scope_eq q.scope (key_scope d.key_id)))
      rows

-- expectedGeneration, if it is given, is the row's.
abbrev pub is_expected : Option ℕ → ℕ → Bool
is_expected none g = true
is_expected (some e) g = e == g

-- The row can be checked now.
unfoldable pub is_checkable : RoutingCircuit → ℕ → Bool
is_checkable r now =
    r.is_open
    && not (after r.until now)
    && not (after r.lease_until now)
    && not (after? r.check_until now)
    && not (backs_off r now)

abbrev pub take_check : RoutingCircuit → Dimension → String → ℕ → RoutingCircuit
take_check r d token now = record r {
  check_lease = token;
  check_until = some (now + seconds check_lease_sec);
  check_ok = false;
  protocol = d.protocol;
  model = d.model;
  path = d.path;
  stream = d.stream;
}

-- The row that is read after the guards on the whole table, and the claim on it.
unfoldable pub claim_row :
    Dimension
    → Option ℕ
    → ℕ
    → String
    → RoutingCircuit
    → List RoutingCircuit
    → Result (List RoutingCircuit)
claim_row d expected now token r rows =
    if not (is_expected expected r.generation)
    then err unavailable
    else if not (is_checkable r now)
    then err unavailable
    else ok (save_circuit (take_check r d token now) rows)

unfoldable pub claim_circuits :
    ℕ
    → Scope
    → Dimension
    → Option ℕ
    → ℕ
    → String
    → List RoutingCircuit
    → Result (List RoutingCircuit)
claim_circuits concurrency scope d expected now token rows =
    let (rows', key_gate) = lock d (key_scope d.key_id) rows in
    if leb (check_limit concurrency) (active_checks now rows)
    then err check_capacity
    else if key_gate_blocks scope d key_gate now
    then err unavailable
    else if ltb 0 (conflicting scope d now rows')
    then err unavailable
    else elim (find_circuit scope rows') [
      | none ↦ err not_found
      | some r ↦ claim_row d expected now token r rows'
    ]

abbrev pub worker_scope : String
worker_scope = "recovery-check-workers"

-- ClaimCheck: the new tables; its first result is the token.
unfoldable pub claim_check : ℕ → Scope → Dimension → Option ℕ → ℕ → String → Db → Result Db
claim_check concurrency scope d expected now token db =
    elim (claim_circuits concurrency scope d expected now token db.circuits) [
      | err e ↦ err e
      | ok rows ↦
          ok (record db { circuits = rows; budgets = create_budget worker_scope db.budgets })
    ]

-- The next value of CheckBackoff after a failed check: 1, 30, 60, 90, 90, …
unfoldable pub next_backoff : ℕ → ℕ
next_backoff b =
    if b == 0
    then 1
    else if ltb b check_backoff_base_sec
    then check_backoff_base_sec
    else min (b * 2) check_backoff_max_sec

-- The row after its check: closed on success, else with the time of the next check.
unfoldable pub settle_check : RoutingCircuit → ℕ → Bool → Bool → String → ℕ → RoutingCircuit
settle_check r now success neutral message retry_after =
    let good = success && not neutral in
    let checked = record r {
      check_lease = "";
      check_until = none;
      check_at = some now;
      check_ok = good;
      check_error = message;
    } in
    let backoff = if neutral then r.check_backoff else next_backoff r.check_backoff in
    let delay = if neutral then seconds 60 else seconds backoff in
    if good then close_circuit checked now else record checked {
      check_backoff = backoff;
      next_check_at = some (now + max delay retry_after);
    }

-- Only the current unexpired lease settles the check.
unfoldable pub holds_check : RoutingCircuit → String → ℕ → Bool
holds_check r token now =
    r.is_open && str_eq r.check_lease token && not (str_eq token "") && after? r.check_until now

unfoldable pub finish_check : Scope → String → ℕ → Bool → Bool → String → ℕ → Db → Result Db
finish_check scope token now success neutral message retry_after db =
    elim (find_circuit scope db.circuits) [
      | none ↦ err not_found
      | some r ↦
          if holds_check r token now
          then ok (record db {
            circuits =
                save_circuit (settle_check r now success neutral message retry_after) db.circuits;
          })
          else ok db
    ]
