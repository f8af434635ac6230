-- ===== src/Tests/Accounts.antt =====
-- backend/internal/dashboard: the theorems on the accounting at concrete data.
use simple_up_manage.Prelude.{
  ℕ, ◌+◌, ◌*◌, ◌/◌, ◌≡◌, String, refl, true, false, none, some, List, [], ◌∷◌, arith, HasSome,
}
use simple_up_manage.Domain.Provider.{TextLib}
use simple_up_manage.Dashboard.Money.{Rounding}
use simple_up_manage.Dashboard.Cost.{ModelPrice, UsageTokens, written_tokens, compute_cost}
use simple_up_manage.Dashboard.Cost.Writes.{
  billed_writes, total_of, written_tokens-sum, priority_write_ignored,
}
use simple_up_manage.Dashboard.Facts.{RequestStart, RequestEnd, AttemptFact, AggKey}
use simple_up_manage.Dashboard.Balance.{Counter, minutes_of, day_of}
use simple_up_manage.Dashboard.Settle.{
  QueuedEvent, Payload, request_start, attempt_end, request_end, Db,
}
use simple_up_manage.Dashboard.Ledger.{no_tables, process_all, process_all-IsBalanced}
use simple_up_manage.Dashboard.Counted.{IsCounted, process_all-IsCounted}
use simple_up_manage.Dashboard.Attested.{IsAttested, process_all-IsAttested}
use simple_up_manage.Dashboard.Queue.{Round, drain_final}
use simple_up_manage.Dashboard.Drained.{Drained, drain_final-Drained}
use simple_up_manage.Tests.Data.{fixed}

abbrev plain : TextLib
plain = record { to_lower = λ s. s; json_strings = λ s. none }

-- Rounding of millionths.
instance abbrev nearest : Rounding ℕ
nearest = record {
  round = λ a. (a + 500000) / 1000000 * 1000000;
  is_nan = λ a. false;
  is_inf = λ a. false;
  to_int64 = λ a. a / 1000000;
  of_int64 = λ n. n * 1000000;
}

abbrev usage : UsageTokens
usage = record {
  input = 1000;
  output = 100;
  cache_read = 0;
  cache_write = 40;
  cache_write_5m = 30;
  cache_write_1h = 30;
  service_tier = "priority";
  usage_known = true;
}

-- The details exceed the aggregate of 40.
written_tokens-sum_example :
    (written_tokens ℕ usage).0 + (written_tokens ℕ usage).1 ≡ billed_writes usage
written_tokens-sum_example = written_tokens-sum ℕ usage

billed_writes_capped : billed_writes usage ≡ 40
billed_writes_capped = refl

abbrev card : ModelPrice ℕ
card = record {
  input = 3000000;
  output = 15000000;
  cache_read_coeff = 0;
  cache_write_coeff = 0;
  matched = "m";
  is_ok = true;
  cache_read = none;
  cache_write_5m = some 4;
  cache_write_1h = none;
  input_priority = some 6000000;
  output_priority = none;
  cache_read_priority = none;
  cache_write_5m_priority = none;
  long_ctx_threshold = 0;
  long_ctx_input_mult = 0;
  long_ctx_output_mult = 0;
}

priority_write_ignored_example :
    total_of (
      compute_cost plain
        (record card { cache_write_5m_priority = some 8 })
        "anthropic"
        1000000
        1000000
        usage)
    ≡ total_of (
        compute_cost plain
          (record card { cache_write_5m_priority = some 80 })
          "anthropic"
          1000000
          1000000
          usage)
priority_write_ignored_example =
    priority_write_ignored plain card "anthropic" 1000000 1000000 usage 8 80 refl

-- A request of business with one attempt; its end comes before its attempt.
abbrev start : RequestStart ℕ
start = record {
  uuid = "r";
  route_group_id = some 2;
  sale_multiplier = some 2000000;
  protocol = "openai";
  source = "business";
  started_at = 90000000000;
}

abbrev end_of : RequestEnd ℕ
end_of = record {
  uuid = "r";
  model = "m";
  protocol = "openai";
  success = true;
  interrupted = false;
  completed_at = 150000000000;
  http_attempts = 1;
  input_tokens = 1000;
  output_tokens = 100;
  cache_read_tokens = 0;
  cache_write_tokens = 0;
  usage_known = true;
  input_price = some 3000000;
  output_price = none;
  cache_read_coeff = 0;
  cache_write_coeff = 0;
  base_cost_usd = none;
  ttft_ms = 400;
  ttft_status = "measured";
  final_provider_id = some 1;
}

abbrev attempt : AttemptFact ℕ
attempt = record {
  uuid = "a";
  request_uuid = "r";
  provider_id = 1;
  completed_at = 140000000000;
  outcome = "success";
  http_sent = true;
  ttft_ms = 400;
  ttft_status = "measured";
  source = "business";
  estimated_cost_usd = some 5000;
  reported_cost_usd = none;
  consumption_usd = some 5000;
}

abbrev event : String → Payload ℕ → QueuedEvent ℕ
event key payload = record {
  key = key;
  payload = payload;
  attempts = 0;
  next = 0;
  at = 150000000000;
}

abbrev events : List (ℕ × QueuedEvent ℕ)
events =
    (160000000000, event "req:r:start" (request_start start))
    ∷ (160000000000, event "req:r:end" (request_end end_of))
    ∷ (160000000000, event "att:a" (attempt_end attempt))
    ∷ (170000000000, event "req:r:end" (request_end end_of))
    ∷ (170000000000, event "req:r:end" (request_end end_of))
    ∷ []

abbrev first_day : AggKey
first_day = record { bucket = 0; family = "request"; dim = "provider"; dim_id = 1 }

abbrev settled : Db ℕ
settled = process_all plain 1000000 events no_tables

process_all-IsBalanced_example :
    minutes_of Counter.completed first_day settled.aggs.minutes
    ≡ day_of Counter.completed first_day settled.aggs.days
process_all-IsBalanced_example =
    process_all-IsBalanced plain 1000000 events Counter.completed first_day

process_all-IsCounted_example : IsCounted settled
process_all-IsCounted_example = process_all-IsCounted plain 1000000 events

process_all-IsAttested_example : IsAttested settled
process_all-IsAttested_example = process_all-IsAttested plain 1000000 events

abbrev late : Round ℕ
late = record {
  now = 160000000000;
  processed_at = λ e. 160000000000;
  failed_at = λ e. 160000000000;
}

-- The end is rejected in the first pass, and settled in the second.
abbrev queue : List (QueuedEvent ℕ)
queue =
    event "req:r:start" (request_start start)
    ∷ event "req:r:end" (request_end end_of)
    ∷ event "att:a" (attempt_end attempt)
    ∷ []

drain_final-Drained_example :
    HasSome
      (Drained plain 1000000)
      (drain_final plain 1000000 (late ∷ late ∷ late ∷ []) (queue, no_tables))
drain_final-Drained_example =
    drain_final-Drained plain 1000000 (late ∷ late ∷ late ∷ []) (queue, no_tables) (omega arith)
