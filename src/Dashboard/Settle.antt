-- ===== src/Dashboard/Settle.antt =====
-- backend/internal/dashboard/settle.go: the settlement of the events of requests. An event carries its
-- payload, which the source writes and reads as JSON. The tables are lists of rows; a transaction
-- gives the new tables or an error, and then keeps nothing. No failure of the database is modelled.
use simple_up_manage.Prelude.{
  ℕ, ◌-◌, String, Bool, true, false, not, ◌&&◌, ◌||◌, Option, none, some, List, [], ◌∷◌, ◌++◌,
  select, count_if, ltb, if◌then◌else◌, str_eq, Float64,
}
use simple_up_manage.Domain.Provider.{TextLib, contains}
use simple_up_manage.Dashboard.Money.{Rounding, round8}
use simple_up_manage.Dashboard.Cost.{ModelPrice, UsageTokens, base_cost_usd}
use simple_up_manage.Dashboard.Facts.{
  RequestFact, AttemptFact, RequestEnd, RequestStart, MinuteSample,
}
use simple_up_manage.Dashboard.Aggregate.{
  Aggs, apply_request_agg, apply_attempt_agg, apply_conc_sample,
}

pub data Payload (F : Type 0) : Type 0 where
  request_start : RequestStart F → Payload F
  attempt_end : AttemptFact F → Payload F
  request_end : RequestEnd F → Payload F
  conc_sample : MinuteSample F → Payload F

-- queuedEvent.
pub record QueuedEvent (F : Type 0) : Type 0 where
  pub key : String
  pub payload : Payload F
  pub attempts : ℕ
  pub next : ℕ
  pub at : ℕ

pub record Db (F : Type 0) : Type 0 where
  pub ledger : List String
  pub requests : List (RequestFact F)
  pub attempts : List (AttemptFact F)
  pub aggs : Aggs F

-- gorm.ErrRecordNotFound, and "waiting for attempts".
pub data SettleError : Type 0 where
  not_found waiting_for_attempts : SettleError

pub data Settled (F : Type 0) : Type 0 where
  committed : Db F → Settled F
  rejected : SettleError → Settled F

-- ReplayRejectAge.
abbrev pub replay_reject_age : ℕ
replay_reject_age = 2592000000000000

abbrev pub when : Bool → String → List String
when b s = if b then s ∷ [] else []

abbrev pub no_id : Option ℕ → Bool
no_id none = true
no_id (some a) = false

module _ {F : Type 0} where
  abbrev pub is_none : Option F → Bool
  is_none none = true
  is_none (some a) = false

  unfoldable pub find_request : String → List (RequestFact F) → Option (RequestFact F)
  find_request uuid [] = none
  find_request uuid (f ∷ rows) = if str_eq f.uuid uuid then some f else find_request uuid rows

  -- tx.Save(&fact), of a row that is there.
  unfoldable pub save_request : RequestFact F → List (RequestFact F) → List (RequestFact F)
  save_request f [] = f ∷ []
  save_request f (g ∷ rows) = if str_eq g.uuid f.uuid then f ∷ rows else g ∷ save_request f rows

  -- Create with OnConflict DoNothing.
  unfoldable pub create_request : RequestFact F → List (RequestFact F) → List (RequestFact F)
  create_request f [] = f ∷ []
  create_request f (g ∷ rows) = if str_eq g.uuid f.uuid then g ∷ rows else g ∷ create_request f rows

  unfoldable pub create_attempt : AttemptFact F → List (AttemptFact F) → List (AttemptFact F)
  create_attempt a [] = a ∷ []
  create_attempt a (b ∷ rows) = if str_eq b.uuid a.uuid then b ∷ rows else b ∷ create_attempt a rows

  abbrev pub attempts_for : String → List (AttemptFact F) → List (AttemptFact F)
  attempts_for uuid rows = select (λ a. str_eq a.request_uuid uuid) rows

  abbrev pub sent_of : List (AttemptFact F) → ℕ
  sent_of rows = count_if (λ a. a.http_sent) rows

  -- attemptCostKnown, negated: an attempt was sent whose cost is not known.
  abbrev pub has_unknown_cost : List (AttemptFact F) → Bool
  has_unknown_cost attempts =
      ltb 0 (count_if (λ a. a.http_sent && is_none a.estimated_cost_usd) attempts)

module _ {F : Type 0} ⦃fl : Float64 F⦄ where
  -- The row that a start inserts; the columns that it does not name are zero.
  abbrev pub started_fact : RequestStart F → RequestFact F
  started_fact p = record {
    uuid = p.uuid;
    route_group_id = p.route_group_id;
    sale_multiplier = p.sale_multiplier;
    model = "";
    protocol = p.protocol;
    source = p.source;
    started_at = p.started_at;
    completed_at = none;
    success = false;
    interrupted = false;
    http_attempts = 0;
    input_tokens = 0;
    output_tokens = 0;
    cache_read_tokens = 0;
    cache_write_tokens = 0;
    usage_known = false;
    input_price = none;
    output_price = none;
    cache_read_coeff = fl.lit 0 0;
    cache_write_coeff = fl.lit 0 0;
    base_cost_usd = none;
    revenue_usd = none;
    covered = false;
    reasons = [];
    final_provider_id = none;
    ttft_ms = 0;
    ttft_status = "";
  }

  abbrev pub or_default : F → F → F
  or_default v default = if fl.eqf v (fl.lit 0 0) then default else v

  -- The columns that updateRequestFact copies.
  abbrev pub copied : RequestFact F → RequestEnd F → RequestFact F
  copied f p = record f {
    model = p.model;
    protocol = p.protocol;
    success = p.success;
    interrupted = p.interrupted;
    completed_at = some p.completed_at;
    http_attempts = p.http_attempts;
    input_tokens = p.input_tokens;
    output_tokens = p.output_tokens;
    cache_read_tokens = p.cache_read_tokens;
    cache_write_tokens = p.cache_write_tokens;
    usage_known = p.usage_known;
    input_price = p.input_price;
    output_price = p.output_price;
    cache_read_coeff = or_default p.cache_read_coeff (fl.lit 1 1);
    cache_write_coeff = or_default p.cache_write_coeff (fl.lit 125 2);
    ttft_ms = p.ttft_ms;
    ttft_status = p.ttft_status;
    final_provider_id = p.final_provider_id;
  }

  abbrev pub price_ok : RequestEnd F → Bool
  price_ok p = not (is_none p.input_price) && not (is_none p.output_price)

  -- The reasons why the finances of a request are not covered.
  unfoldable pub reasons_for : RequestFact F → RequestEnd F → List (AttemptFact F) → List String
  reasons_for f p attempts =
      when (no_id f.route_group_id) "unbound"
      ++ when (is_none f.sale_multiplier) "missing_sale"
      ++ when (not (price_ok p)) "missing_price"
      ++ when (not p.usage_known && not p.interrupted) "missing_usage"
      ++ when p.interrupted "interrupted"
      ++ when (has_unknown_cost attempts && p.usage_known) "missing_usage"

  unfoldable pub is_covered : RequestFact F → RequestEnd F → List (AttemptFact F) → Bool
  is_covered f p attempts =
      not (no_id f.route_group_id)
      && not (is_none f.sale_multiplier)
      && price_ok p
      && (p.usage_known || not p.success && not p.interrupted)
      && not (has_unknown_cost attempts)
      && not p.interrupted

module _ {F : Type 0} ⦃fl : Float64 F⦄ ⦃ro : Rounding F⦄ where
  -- The card that is made of the prices of the end, for BaseCostUSD.
  abbrev pub legacy_card : RequestFact F → F → F → ModelPrice F
  legacy_card f input output = record {
    input = input;
    output = output;
    cache_read_coeff = f.cache_read_coeff;
    cache_write_coeff = f.cache_write_coeff;
    matched = "";
    is_ok = true;
    cache_read = none;
    cache_write_5m = none;
    cache_write_1h = none;
    input_priority = none;
    output_priority = none;
    cache_read_priority = none;
    cache_write_5m_priority = none;
    long_ctx_threshold = 0;
    long_ctx_input_mult = fl.lit 0 0;
    long_ctx_output_mult = fl.lit 0 0;
  }

  abbrev pub usage_of : RequestFact F → UsageTokens
  usage_of f = record {
    input = f.input_tokens;
    output = f.output_tokens;
    cache_read = f.cache_read_tokens;
    cache_write = f.cache_write_tokens;
    cache_write_5m = 0;
    cache_write_1h = 0;
    service_tier = "";
    usage_known = f.usage_known;
  }

  abbrev pub priced : TextLib → F → RequestFact F → Option F → Option F → Option F
  priced lib time f (some i) (some o) =
      base_cost_usd lib time (legacy_card f i o) f.protocol (usage_of f)
  priced lib time f none o = f.base_cost_usd
  priced lib time f (some i) none = f.base_cost_usd

  -- The base cost that the handler has computed, or the legacy one.
  abbrev pub base_cost_of : TextLib → F → RequestFact F → Option F → Option F
  base_cost_of lib time f (some b) = some b
  base_cost_of lib time f none = priced lib time f f.input_price f.output_price

  abbrev pub revenue_of : Bool → Bool → Option F → Option F → Option F → Option F
  revenue_of true interrupted (some sale) (some base) before = some (round8 (fl.mul base sale))
  revenue_of true interrupted none base before = before
  revenue_of true interrupted (some sale) none before = before
  revenue_of false interrupted sale base before = if interrupted then before else some (fl.lit 0 0)

  -- updateRequestFact; a failure that is covered has a revenue of 0.
  unfoldable pub update_request_fact :
      TextLib → F → RequestFact F → RequestEnd F → List (AttemptFact F) → RequestFact F
  update_request_fact lib time f p attempts =
      let g = copied f p in
      let base = base_cost_of lib time g p.base_cost_usd in
      let revenue = revenue_of p.success p.interrupted f.sale_multiplier base f.revenue_usd in
      let covered = is_covered f p attempts in
      record g {
        base_cost_usd = base;
        revenue_usd =
            if covered && is_none revenue && not p.success then some (fl.lit 0 0) else revenue;
        covered = covered;
        reasons = reasons_for f p attempts;
      }

  -- The end of a request whose row is there and not completed yet.
  unfoldable pub settle_end : TextLib → F → RequestFact F → RequestEnd F → Db F → Settled F
  settle_end lib time f p db =
      let attempts = attempts_for p.uuid db.attempts in
      let fact = update_request_fact lib time f p attempts in
      let requests = save_request fact db.requests in
      if not p.interrupted && ltb (sent_of attempts) p.http_attempts
      then rejected waiting_for_attempts
      else if not (str_eq fact.source "business")
      then committed (record db { requests = requests })
      else committed
          (record db { requests = requests; aggs = apply_request_agg fact attempts db.aggs })

  abbrev pub settle_found : TextLib → F → Option (RequestFact F) → RequestEnd F → Db F → Settled F
  settle_found lib time none p db = rejected not_found
  settle_found lib time (some f) p db =
      if no_id f.completed_at then settle_end lib time f p db else committed db

  -- The switch of process, behind the ledger.
  unfoldable pub settle_payload : TextLib → F → Payload F → Db F → Settled F
  settle_payload lib time (request_start p) db =
      committed (record db { requests = create_request (started_fact p) db.requests })
  settle_payload lib time (attempt_end a) db = committed (record db {
    attempts = create_attempt a db.attempts;
    aggs = apply_attempt_agg a (str_eq a.source "business") db.aggs;
  })
  settle_payload lib time (request_end p) db =
      settle_found lib time (find_request p.uuid db.requests) p db
  settle_payload lib time (conc_sample s) db =
      committed (record db { aggs = apply_conc_sample s db.aggs })

  -- process. `time` is what TimeMultiplier says of no model.
  unfoldable pub process : TextLib → F → ℕ → QueuedEvent F → Db F → Settled F
  process lib time now e db =
      if ltb replay_reject_age (now - e.at) || contains db.ledger e.key
      then committed db
      else settle_payload lib time e.payload (record db { ledger = db.ledger ++ e.key ∷ [] })
