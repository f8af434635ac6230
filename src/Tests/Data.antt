-- ===== src/Tests/Data.antt =====
-- Concrete data for the tests: a fixed-point `float64`, a route, gates and tables.
use simple_up_manage.Prelude.{
  ℕ, ◌+◌, ◌-◌, ◌*◌, ◌/◌, ◌^◌, true, false, none, some, [], ◌∷◌, ltb, leb, ◌==◌, Float64,
}
use simple_up_manage.Domain.Settings.{SchedulerSettings, default_scheduler_settings}
use simple_up_manage.Domain.Routing.{Dimension, Scope, key_scope, digest, RoutingCircuit, seconds}
use simple_up_manage.Domain.Provider.{Upstream, PlatformKey}
use simple_up_manage.Circuit.Store.{Db, new_circuit}
use simple_up_manage.Circuit.Admission.{Admission}
use simple_up_manage.Circuit.Observe.{Outcome}

-- Millionths.
instance abbrev pub fixed : Float64 ℕ
fixed = record {
  ltf = ltb;
  lef = leb;
  eqf = λ a b. a == b;
  add = λ a b. a + b;
  sub = λ a b. a - b;
  mul = λ a b. a * b / 1000000;
  div = λ a b. a * 1000000 / b;
  lit = λ m k. m * 1000000 / 10 ^ k;
  of_int = λ n. n * 1000000;
  ceil_int = λ a. (a + 999999) / 1000000;
  trunc_int = λ a. a / 1000000;
}

abbrev pub settings : SchedulerSettings ℕ
settings = default_scheduler_settings

abbrev pub sha : Dimension → ℕ
sha d = d.key_id

abbrev pub route : Dimension
route = record {
  key_id = 7;
  protocol = "openai";
  model = "m";
  path = "/v1/responses";
  stream = true;
}

abbrev pub own : Scope
own = digest 7

abbrev pub closed_gate : RoutingCircuit
closed_gate = new_circuit route own

abbrev pub open_gate : RoutingCircuit
open_gate = record closed_gate {
  is_open = true;
  generation = 4;
  backoff_sec = 30;
  opened_at = seconds 10000;
  until = seconds 10030;
  reason = "upstream_error";
}

abbrev pub open_db : Db
open_db = record { circuits = open_gate ∷ []; observations = []; budgets = [] }

-- The open gate while the request "a" validates it.
abbrev pub leased_gate : RoutingCircuit
leased_gate = record open_gate {
  lease = "a";
  lease_until = seconds 20330;
  recovery_at = some (seconds 20000);
}

abbrev pub key_gate : RoutingCircuit
key_gate = new_circuit route (key_scope 7)

abbrev pub leased_db : Db
leased_db = record { circuits = leased_gate ∷ key_gate ∷ []; observations = []; budgets = [] }

abbrev pub ticket : Admission
ticket = record { token = "a"; generations = (own, 4) ∷ (key_scope 7, 0) ∷ [] }

-- The open gate while the check "c" runs.
abbrev pub checked_gate : RoutingCircuit
checked_gate = record open_gate { check_lease = "c"; check_until = some (seconds 20045) }

abbrev pub checked_db : Db
checked_db = record {
  circuits = checked_gate ∷ key_gate ∷ [];
  observations = [];
  budgets = record { scope = "recovery-check-workers"; counter = 0; recovery_after = none } ∷ [];
}

abbrev pub failure : Outcome
failure = record {
  admission = none;
  request_id = "r1";
  started_at = seconds 20000;
  success = false;
  neutral = false;
  auth_failure = false;
  limited = false;
  immediate = false;
  retry_after = 0;
  reason = "upstream_error";
}

abbrev pub validated : Outcome
validated = record failure { admission = some ticket; success = true }

abbrev pub provider : Upstream ℕ
provider = record {
  id = 1;
  name = "p";
  protocols = "openai";
  status = "active";
  concurrency = 2;
  health_status = "ok";
  cooldown_until = none;
  last_error = "";
  last_balance = none;
}

abbrev pub key : PlatformKey ℕ
key = record {
  protocols = "openai";
  id = 7;
  upstream_id = 1;
  name = "k";
  rate_multiplier = 1000000;
  status = "active";
  rpm_limit = 5;
  max_concurrency = 1;
  last_balance = none;
  cooldown_until = none;
  health_status = "ok";
  probe_enabled = none;
  last_models = [];
  upstream = some provider;
}
