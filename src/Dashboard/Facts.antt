-- ===== src/Dashboard/Facts.antt =====
-- backend/internal/dashboard/models.go and the events of settle.go: what the accounting stores of
-- requests and attempts, with the columns that the settlement reads or computes. Counters and token
-- counts are natural numbers, a time is a number of nanoseconds since the zero time. The reasons,
-- which the table keeps as JSON, are a list of texts, a histogram is the list of its counts.
use simple_up_manage.Prelude.{
  ℕ, ◌+◌, ◌-◌, ◌*◌, ◌/◌, String, Bool, Option, List, [], ◌∷◌, ◌==◌, ◌&&◌, leb, if◌then◌else◌,
  replicate, str_eq, Float64,
}

pub record RequestFact (F : Type 0) : Type 0 where
  pub uuid : String
  pub route_group_id : Option ℕ
  pub sale_multiplier : Option F
  pub model : String
  pub protocol : String
  pub source : String
  pub started_at : ℕ
  pub completed_at : Option ℕ
  pub success : Bool
  pub interrupted : Bool
  pub http_attempts : ℕ
  pub input_tokens : ℕ
  pub output_tokens : ℕ
  pub cache_read_tokens : ℕ
  pub cache_write_tokens : ℕ
  pub usage_known : Bool
  pub input_price : Option F
  pub output_price : Option F
  pub cache_read_coeff : F
  pub cache_write_coeff : F
  pub base_cost_usd : Option F
  pub revenue_usd : Option F
  pub covered : Bool
  pub reasons : List String
  pub final_provider_id : Option ℕ
  pub ttft_ms : ℕ
  pub ttft_status : String

pub record AttemptFact (F : Type 0) : Type 0 where
  pub uuid : String
  pub request_uuid : String
  pub provider_id : ℕ
  pub completed_at : ℕ
  pub outcome : String
  pub http_sent : Bool
  pub ttft_ms : ℕ
  pub ttft_status : String
  pub source : String
  pub estimated_cost_usd : Option F
  pub reported_cost_usd : Option F
  pub consumption_usd : Option F

-- RequestEnd, the payload of a request's end.
pub record RequestEnd (F : Type 0) : Type 0 where
  pub uuid : String
  pub model : String
  pub protocol : String
  pub success : Bool
  pub interrupted : Bool
  pub completed_at : ℕ
  pub http_attempts : ℕ
  pub input_tokens : ℕ
  pub output_tokens : ℕ
  pub cache_read_tokens : ℕ
  pub cache_write_tokens : ℕ
  pub usage_known : Bool
  pub input_price : Option F
  pub output_price : Option F
  pub cache_read_coeff : F
  pub cache_write_coeff : F
  pub base_cost_usd : Option F
  pub ttft_ms : ℕ
  pub ttft_status : String
  pub final_provider_id : Option ℕ

-- RequestStart.
pub record RequestStart (F : Type 0) : Type 0 where
  pub uuid : String
  pub route_group_id : Option ℕ
  pub sale_multiplier : Option F
  pub protocol : String
  pub source : String
  pub started_at : ℕ

-- minuteSample.
pub record MinuteSample (F : Type 0) : Type 0 where
  pub bucket : ℕ
  pub family : String
  pub integral : F
  pub peak : ℕ

-- The unique index of a table of aggregates.
pub record AggKey : Type 0 where
  pub bucket : ℕ
  pub family : String
  pub dim : String
  pub dim_id : ℕ

unfoldable pub key_eq : AggKey → AggKey → Bool
key_eq a b =
    a.bucket == b.bucket && str_eq a.family b.family && str_eq a.dim b.dim && a.dim_id == b.dim_id

-- A row of MinuteAgg or of DayAgg, which have the same columns.
pub record Agg (F : Type 0) : Type 0 where
  pub key : AggKey
  pub requests_started : ℕ
  pub requests_completed : ℕ
  pub requests_success : ℕ
  pub requests_retried : ℕ
  pub provider_success : ℕ
  pub provider_failure : ℕ
  pub inflight_integral_sec : F
  pub inflight_peak : ℕ
  pub ttft_hist : List ℕ
  pub ttft_samples : ℕ
  pub known_revenue_usd : F
  pub known_cost_usd : F
  pub consumption_usd : F
  pub reported_consumption_usd : F
  pub estimated_consumption_usd : F
  pub unknown_consumption : ℕ
  pub covered_revenue_usd : F
  pub covered_cost_usd : F
  pub covered_count : ℕ
  pub unbound_count : ℕ
  pub missing_sale_count : ℕ
  pub missing_price_count : ℕ
  pub missing_usage_count : ℕ
  pub interrupted_count : ℕ

-- MinuteAgg{…} with no column but the key.
abbrev pub empty_agg : {F : Type 0} ⦃fl : Float64 F⦄ → AggKey → Agg F
empty_agg ⦃fl⦄ key = record {
  key = key;
  requests_started = 0;
  requests_completed = 0;
  requests_success = 0;
  requests_retried = 0;
  provider_success = 0;
  provider_failure = 0;
  inflight_integral_sec = fl.lit 0 0;
  inflight_peak = 0;
  ttft_hist = [];
  ttft_samples = 0;
  known_revenue_usd = fl.lit 0 0;
  known_cost_usd = fl.lit 0 0;
  consumption_usd = fl.lit 0 0;
  reported_consumption_usd = fl.lit 0 0;
  estimated_consumption_usd = fl.lit 0 0;
  unknown_consumption = 0;
  covered_revenue_usd = fl.lit 0 0;
  covered_cost_usd = fl.lit 0 0;
  covered_count = 0;
  unbound_count = 0;
  missing_sale_count = 0;
  missing_price_count = 0;
  missing_usage_count = 0;
  interrupted_count = 0;
}

-- HistBoundsMS.
abbrev pub hist_bounds_ms : List ℕ
hist_bounds_ms =
    100 ∷ 250 ∷ 500 ∷ 1000 ∷ 2000 ∷ 3000 ∷ 5000 ∷ 7500 ∷ 10000 ∷ 15000 ∷ 20000 ∷ 30000 ∷ 60000
    ∷ 120000 ∷ 300000 ∷ []

unfoldable pub empty_hist : List ℕ
empty_hist = replicate 16 0

-- parseHist, of the counts that are stored: the missing ones are 0, the surplus ones are dropped.
unfoldable pub overlay : List ℕ → List ℕ → List ℕ
overlay [] raw = []
overlay (h ∷ hist) [] = h ∷ hist
overlay (h ∷ hist) (r ∷ raw) = r ∷ overlay hist raw

unfoldable pub parse_hist : List ℕ → List ℕ
parse_hist raw = overlay empty_hist raw

unfoldable pub add_hist : List ℕ → List ℕ → List ℕ
add_hist [] src = []
add_hist (d ∷ dst) [] = d ∷ dst
add_hist (d ∷ dst) (s ∷ src) = (d + s) ∷ add_hist dst src

-- The loop of observeTTFT: one sample in the first bucket that holds it, or in the last.
unfoldable pub observe_from : ℕ → List ℕ → List ℕ → List ℕ
observe_from ms bounds [] = []
observe_from ms [] (h ∷ hist) = (h + 1) ∷ hist
observe_from ms (b ∷ bounds) (h ∷ hist) =
    let rest = observe_from ms bounds hist in if leb ms b then (h + 1) ∷ hist else h ∷ rest

unfoldable pub observe_ttft : ℕ → List ℕ
observe_ttft ms = observe_from ms hist_bounds_ms empty_hist

-- t.UTC().Truncate(time.Minute).
unfoldable pub minute_of : ℕ → ℕ
minute_of t = t / 60000000000 * 60000000000

-- shanghaiDay: the midnight before, 8 hours ahead of UTC as Shanghai has been since 1992.
unfoldable pub shanghai_day : ℕ → ℕ
shanghai_day t = (t + 28800000000000) / 86400000000000 * 86400000000000 - 28800000000000
