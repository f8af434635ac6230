-- ===== src/Dashboard/Aggregate.antt =====
-- backend/internal/dashboard/settle.go: how a settled request, an attempt or a sample changes the
-- aggregates by minute and by day: applyRequestAgg, applyAttemptAgg and applyConcSample.
use simple_up_manage.Prelude.{
  ℕ, ◌+◌, String, Bool, false, ◌&&◌, ◌||◌, Option, none, some, List, [], ◌∷◌, ◌++◌, ltb, leb, ◌==◌,
  if◌then◌else◌, str_eq, Float64,
}
use simple_up_manage.Dashboard.Money.{
  Rounding, Amount, amount_from_float, amount_float, add_amount, round8,
}
use simple_up_manage.Dashboard.Facts.{
  RequestFact, AttemptFact, MinuteSample, AggKey, key_eq, Agg, empty_agg, empty_hist, parse_hist,
  add_hist, observe_ttft, minute_of, shanghai_day,
}

-- The columns that the switch on a reason chooses among.
pub data Reason : Type 0 where
  unbound missing_sale missing_price missing_usage interrupted : Reason

unfoldable pub reason_of : String → Option Reason
reason_of r =
    if str_eq r "unbound"
    then some unbound
    else if str_eq r "missing_sale"
    then some missing_sale
    else if str_eq r "missing_price"
    then some missing_price
    else if str_eq r "missing_usage"
    then some missing_usage
    else if str_eq r "interrupted"
    then some interrupted
    else none

-- The tables of aggregates.
pub record Aggs (F : Type 0) : Type 0 where
  pub minutes : List (Agg F)
  pub days : List (Agg F)

-- A contribution of a request to one dimension.
pub record Contribution (F : Type 0) : Type 0 where
  pub dim : String
  pub id : ℕ
  pub cost : Amount
  pub revenue : Option F
  pub success : Bool

abbrev pub add_some : {F : Type 0} ⦃fl : Float64 F⦄ ⦃ro : Rounding F⦄ → F → Option F → F
add_some a none = a
add_some ⦃fl⦄ a (some b) = round8 (fl.add a b)

abbrev pub or_zero : {F : Type 0} ⦃fl : Float64 F⦄ → Option F → F
or_zero ⦃fl⦄ none = fl.lit 0 0
or_zero (some b) = b

-- Adds to the entry of a provider.
unfoldable pub add_provider : ℕ → Amount → List (ℕ × Amount) → List (ℕ × Amount)
add_provider id c [] = (id, c) ∷ []
add_provider id c (p ∷ costs) =
    if p.0 == id then (id, add_amount p.1 c) ∷ costs else p ∷ add_provider id c costs

abbrev pub is_final : Option ℕ → ℕ → Bool
is_final none id = false
is_final (some p) id = p == id

module _ {F : Type 0} where
  -- incReason.
  unfoldable pub bump : Reason → Agg F → Agg F
  bump unbound r = record r { unbound_count = r.unbound_count + 1 }
  bump missing_sale r = record r { missing_sale_count = r.missing_sale_count + 1 }
  bump missing_price r = record r { missing_price_count = r.missing_price_count + 1 }
  bump missing_usage r = record r { missing_usage_count = r.missing_usage_count + 1 }
  bump interrupted r = record r { interrupted_count = r.interrupted_count + 1 }

  unfoldable pub mark : Reason → Agg F → Agg F
  mark unbound r = record r { unbound_count = 1 }
  mark missing_sale r = record r { missing_sale_count = 1 }
  mark missing_price r = record r { missing_price_count = 1 }
  mark missing_usage r = record r { missing_usage_count = 1 }
  mark interrupted r = record r { interrupted_count = 1 }

  abbrev pub on_reason : (Reason → Agg F → Agg F) → Option Reason → Agg F → Agg F
  on_reason f none r = r
  on_reason f (some k) r = f k r

  -- The loop over the reasons, for the row and for the delta.
  unfoldable pub over_reasons : (Reason → Agg F → Agg F) → List String → Agg F → Agg F
  over_reasons f [] r = r
  over_reasons f (s ∷ reasons) r = over_reasons f reasons (on_reason f (reason_of s) r)

  unfoldable pub find_agg : AggKey → List (Agg F) → Option (Agg F)
  find_agg k [] = none
  find_agg k (r ∷ rows) = if key_eq r.key k then some r else find_agg k rows

  -- tx.Save(&row), which adds the row that getMinute or getDay has created.
  unfoldable pub save_agg : Agg F → List (Agg F) → List (Agg F)
  save_agg r [] = r ∷ []
  save_agg r (q ∷ rows) = if key_eq q.key r.key then r ∷ rows else q ∷ save_agg r rows

module _ {F : Type 0} ⦃fl : Float64 F⦄ where
  abbrev pub found_or_new : AggKey → Option (Agg F) → Agg F
  found_or_new k (some r) = r
  found_or_new k none = record (empty_agg k) { ttft_hist = empty_hist }

  -- getMinute and getDay.
  unfoldable pub get_agg : AggKey → List (Agg F) → Agg F
  get_agg k rows = found_or_new k (find_agg k rows)

module _ {F : Type 0} ⦃fl : Float64 F⦄ ⦃ro : Rounding F⦄ where
  -- addDayFromMinuteDelta, on the row.
  unfoldable pub add_delta : Agg F → Agg F → Agg F
  add_delta row d = record row {
    requests_started = row.requests_started + d.requests_started;
    requests_completed = row.requests_completed + d.requests_completed;
    requests_success = row.requests_success + d.requests_success;
    requests_retried = row.requests_retried + d.requests_retried;
    provider_success = row.provider_success + d.provider_success;
    provider_failure = row.provider_failure + d.provider_failure;
    inflight_integral_sec = fl.add row.inflight_integral_sec d.inflight_integral_sec;
    inflight_peak =
        if ltb row.inflight_peak d.inflight_peak then d.inflight_peak else row.inflight_peak;
    ttft_hist = add_hist (parse_hist row.ttft_hist) (parse_hist d.ttft_hist);
    ttft_samples = row.ttft_samples + d.ttft_samples;
    known_revenue_usd = round8 (fl.add row.known_revenue_usd d.known_revenue_usd);
    known_cost_usd = round8 (fl.add row.known_cost_usd d.known_cost_usd);
    consumption_usd = round8 (fl.add row.consumption_usd d.consumption_usd);
    reported_consumption_usd =
        round8 (fl.add row.reported_consumption_usd d.reported_consumption_usd);
    estimated_consumption_usd =
        round8 (fl.add row.estimated_consumption_usd d.estimated_consumption_usd);
    unknown_consumption = row.unknown_consumption + d.unknown_consumption;
    covered_revenue_usd = round8 (fl.add row.covered_revenue_usd d.covered_revenue_usd);
    covered_cost_usd = round8 (fl.add row.covered_cost_usd d.covered_cost_usd);
    covered_count = row.covered_count + d.covered_count;
    unbound_count = row.unbound_count + d.unbound_count;
    missing_sale_count = row.missing_sale_count + d.missing_sale_count;
    missing_price_count = row.missing_price_count + d.missing_price_count;
    missing_usage_count = row.missing_usage_count + d.missing_usage_count;
    interrupted_count = row.interrupted_count + d.interrupted_count;
  }

  -- One update of a minute and of the day of a time: the new row of the minute, and the delta.
  unfoldable pub post : ℕ → ℕ → String → String → ℕ → (Agg F → Agg F) → Agg F → Aggs F → Aggs F
  post bucket time family dim id change delta t =
      let minute : AggKey = record { bucket = bucket; family = family; dim = dim; dim_id = id } in
      let day : AggKey = record {
        bucket = shanghai_day time;
        family = family;
        dim = dim;
        dim_id = id;
      } in
      record {
        minutes = save_agg (change (get_agg minute t.minutes)) t.minutes;
        days = save_agg (add_delta (get_agg day t.days) delta) t.days;
      }

  abbrev pub blank : Agg F
  blank = empty_agg (record { bucket = 0; family = ""; dim = ""; dim_id = 0 })

  abbrev pub is_measured : RequestFact F → Contribution F → Bool
  is_measured f d = str_eq f.ttft_status "measured" && d.success

  -- What applyRequestAgg writes into the row of the minute of completion, and into the delta.
  unfoldable pub request_row : RequestFact F → Contribution F → Agg F → Agg F
  request_row f d row = over_reasons bump f.reasons (record row {
    requests_completed = row.requests_completed + 1;
    requests_success = if d.success then row.requests_success + 1 else row.requests_success;
    requests_retried =
        if leb 2 f.http_attempts then row.requests_retried + 1 else row.requests_retried;
    ttft_hist =
        if is_measured f d
        then add_hist (parse_hist row.ttft_hist) (observe_ttft f.ttft_ms)
        else row.ttft_hist;
    ttft_samples = if is_measured f d then row.ttft_samples + 1 else row.ttft_samples;
    known_revenue_usd = add_some row.known_revenue_usd d.revenue;
    known_cost_usd =
        if d.cost == 0
        then row.known_cost_usd
        else round8 (fl.add row.known_cost_usd (amount_float d.cost));
    covered_count = if f.covered then row.covered_count + 1 else row.covered_count;
    covered_revenue_usd =
        if f.covered then add_some row.covered_revenue_usd d.revenue else row.covered_revenue_usd;
    covered_cost_usd =
        if f.covered
        then round8 (fl.add row.covered_cost_usd (amount_float d.cost))
        else row.covered_cost_usd;
  })

  unfoldable pub request_delta : RequestFact F → Contribution F → Agg F
  request_delta f d = over_reasons mark f.reasons (record blank {
    requests_completed = 1;
    requests_success = if d.success then 1 else 0;
    requests_retried = if leb 2 f.http_attempts then 1 else 0;
    ttft_hist = if is_measured f d then observe_ttft f.ttft_ms else [];
    ttft_samples = if is_measured f d then 1 else 0;
    known_revenue_usd = or_zero d.revenue;
    known_cost_usd = if d.cost == 0 then fl.lit 0 0 else amount_float d.cost;
    covered_count = if f.covered then 1 else 0;
    covered_revenue_usd = if f.covered then or_zero d.revenue else fl.lit 0 0;
    covered_cost_usd = if f.covered then amount_float d.cost else fl.lit 0 0;
  })

  -- The body of the loop over the contributions; `completed` is the time of completion.
  unfoldable pub apply_contribution : RequestFact F → ℕ → Contribution F → Aggs F → Aggs F
  apply_contribution f completed d t =
      post (minute_of completed) completed "request" d.dim d.id (request_row f d)
        (request_delta f d)
        (post (minute_of f.started_at) f.started_at "request" d.dim d.id
          (λ row. record row { requests_started = row.requests_started + 1 })
          (record blank { requests_started = 1 }) t)

  unfoldable pub apply_contributions : RequestFact F → ℕ → List (Contribution F) → Aggs F → Aggs F
  apply_contributions f completed [] t = t
  apply_contributions f completed (d ∷ dims) t =
      apply_contributions f completed dims (apply_contribution f completed d t)

  abbrev pub estimated : Option F → Amount
  estimated none = 0
  estimated (some c) = amount_from_float c

  -- providerCosts: an entry for each provider that was sent an attempt.
  unfoldable pub provider_costs : List (AttemptFact F) → List (ℕ × Amount) → List (ℕ × Amount)
  provider_costs [] costs = costs
  provider_costs (a ∷ attempts) costs = provider_costs attempts (
      if a.http_sent
      then add_provider a.provider_id (estimated a.estimated_cost_usd) costs
      else costs)

  unfoldable pub total_cost : List (AttemptFact F) → Amount → Amount
  total_cost [] cost = cost
  total_cost (a ∷ attempts) cost =
      total_cost attempts
        (elim a.estimated_cost_usd [ none ↦ cost | some c ↦ add_amount cost (amount_from_float c) ])

  abbrev pub provider_contribution : RequestFact F → ℕ × Amount → Contribution F
  provider_contribution f p =
      let success = f.success && is_final f.final_provider_id p.0 in
      record {
        dim = "provider";
        id = p.0;
        cost = p.1;
        revenue = if success then f.revenue_usd else some (fl.lit 0 0);
        success = success;
      }

  abbrev pub contribution : String → ℕ → Amount → RequestFact F → Contribution F
  contribution dim id cost f = record {
    dim = dim;
    id = id;
    cost = cost;
    revenue = f.revenue_usd;
    success = f.success;
  }

  abbrev pub group_contribution : Option ℕ → Amount → RequestFact F → List (Contribution F)
  group_contribution none cost f = []
  group_contribution (some g) cost f = contribution "group" g cost f ∷ []

  unfoldable pub provider_contributions : RequestFact F → List (ℕ × Amount) → List (Contribution F)
  provider_contributions f [] = []
  provider_contributions f (p ∷ costs) = provider_contribution f p ∷ provider_contributions f costs

  -- The list dims; Go goes through the providers in any order.
  unfoldable pub contributions : RequestFact F → List (AttemptFact F) → List (Contribution F)
  contributions f attempts =
      let cost = total_cost attempts 0 in
      contribution "global" 0 cost f
      ∷ (group_contribution f.route_group_id cost f
          ++ provider_contributions f (provider_costs attempts []))

  -- applyRequestAgg.
  unfoldable pub apply_request_agg : RequestFact F → List (AttemptFact F) → Aggs F → Aggs F
  apply_request_agg f attempts t = elim f.completed_at [
    | none ↦ t
    | some completed ↦ apply_contributions f completed (contributions f attempts) t
  ]

  abbrev pub succeeded : AttemptFact F → Bool
  succeeded a = str_eq a.outcome "success"

  abbrev pub is_quality : Bool → AttemptFact F → Bool
  is_quality business a = business && (succeeded a || str_eq a.outcome "upstream_failure")

  abbrev pub is_timed : Bool → AttemptFact F → Bool
  is_timed business a = business && str_eq a.ttft_status "measured" && succeeded a

  abbrev pub is_unknown : AttemptFact F → Bool
  is_unknown a = elim a.consumption_usd [ none ↦ a.http_sent | some c ↦ false ]

  -- The costs that are estimated and not reported.
  abbrev pub only_estimated : AttemptFact F → Option F
  only_estimated a = elim a.reported_cost_usd [ none ↦ a.estimated_cost_usd | some c ↦ none ]

  -- What applyAttemptAgg writes into the row of the minute, and into the delta.
  unfoldable pub attempt_row : AttemptFact F → Bool → Agg F → Agg F
  attempt_row a business row = record row {
    provider_success =
        if is_quality business a && succeeded a
        then row.provider_success + 1
        else row.provider_success;
    provider_failure =
        if is_quality business a
        then if succeeded a then row.provider_failure else row.provider_failure + 1
        else row.provider_failure;
    ttft_hist =
        if is_timed business a
        then add_hist (parse_hist row.ttft_hist) (observe_ttft a.ttft_ms)
        else row.ttft_hist;
    ttft_samples = if is_timed business a then row.ttft_samples + 1 else row.ttft_samples;
    known_cost_usd =
        if business then add_some row.known_cost_usd a.estimated_cost_usd else row.known_cost_usd;
    consumption_usd = add_some row.consumption_usd a.consumption_usd;
    unknown_consumption =
        if is_unknown a then row.unknown_consumption + 1 else row.unknown_consumption;
    reported_consumption_usd = add_some row.reported_consumption_usd a.reported_cost_usd;
    estimated_consumption_usd = add_some row.estimated_consumption_usd (only_estimated a);
  }

  unfoldable pub attempt_delta : AttemptFact F → Bool → Agg F
  attempt_delta a business = record blank {
    provider_success = if is_quality business a && succeeded a then 1 else 0;
    provider_failure = if is_quality business a then if succeeded a then 0 else 1 else 0;
    ttft_hist = if is_timed business a then observe_ttft a.ttft_ms else [];
    ttft_samples = if is_timed business a then 1 else 0;
    known_cost_usd = if business then or_zero a.estimated_cost_usd else fl.lit 0 0;
    consumption_usd = or_zero a.consumption_usd;
    unknown_consumption = if is_unknown a then 1 else 0;
    reported_consumption_usd = or_zero a.reported_cost_usd;
    estimated_consumption_usd = or_zero (only_estimated a);
  }

  -- applyAttemptAgg, for all and for the provider.
  unfoldable pub apply_attempt_agg : AttemptFact F → Bool → Aggs F → Aggs F
  apply_attempt_agg a business t =
      post (minute_of a.completed_at) a.completed_at "attempt" "provider" a.provider_id
        (attempt_row a business) (attempt_delta a business)
        (post (minute_of a.completed_at) a.completed_at "attempt" "global" 0
          (attempt_row a business) (attempt_delta a business) t)

  -- applyConcSample.
  unfoldable pub apply_conc_sample : MinuteSample F → Aggs F → Aggs F
  apply_conc_sample s t =
      post s.bucket s.bucket s.family "global" 0
        (λ row. record row {
          inflight_integral_sec = fl.add row.inflight_integral_sec s.integral;
          inflight_peak = if ltb row.inflight_peak s.peak then s.peak else row.inflight_peak;
        })
        (record blank { inflight_integral_sec = s.integral; inflight_peak = s.peak }) t
