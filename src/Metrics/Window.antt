-- ===== src/Metrics/Window.antt =====
-- backend/internal/metrics/window.go: NewStore, Configure, Observe, Backfill, Snapshot, pushMem and
-- summarize, on the memory of the process (the rows that snapshotRedis reads are an argument of
-- Snapshot). A bucket is the pair that its name "<key>:<model>" spells. Token counts are natural
-- numbers. sort.Slice may leave entries of one time in any order; here they keep theirs.
use simple_up_manage.Prelude.{
  ℕ, zero, suc, ◌+◌, ◌-◌, ◌*◌, ◌/◌, String, Bool, false, ◌&&◌, ◌||◌, Option, none, some, List, [],
  ◌∷◌, ◌++◌, length, is_empty, drop, take, select, count_if, ltb, leb, ◌==◌, if◌then◌else◌, str_eq,
  Float64, map, not,
}
use simple_up_manage.Domain.Routing.{seconds}

pub record Window (F : Type 0) : Type 0 where
  pub success_rate : F
  pub cache_rate : F
  pub has_cache : Bool
  pub ttft_p50 : ℕ
  pub has_latency : Bool
  pub samples : ℕ

pub record Observation : Type 0 where
  pub key_id : ℕ
  pub model : String
  pub success : Bool
  pub input_tokens : ℕ
  pub cache_read_tokens : ℕ
  pub cache_creation_tokens : ℕ
  pub ttft_ms : ℕ
  pub at : ℕ

pub record Store : Type 0 where
  pub mem : ℕ → String → List Observation
  pub max_samples : ℕ
  pub window : ℕ

unfoldable pub new_store : ℕ → ℕ → Store
new_store window max_samples = record {
  mem = λ k m. [];
  max_samples = if max_samples == 0 then 50 else max_samples;
  window = if window == 0 then seconds 900 else window;
}

unfoldable pub configure : ℕ → ℕ → Store → Store
configure window max_samples s = record s {
  window = if ltb 0 window then window else s.window;
  max_samples = if ltb 0 max_samples then max_samples else s.max_samples;
}

-- The second part of a bucket's name.
abbrev pub bucket_model : String → String
bucket_model model = if str_eq model "" then "_" else model

-- One bucket after pushMem.
unfoldable pub pushed : ℕ → List Observation → Observation → List Observation
pushed max_samples items obs =
    let all = items ++ obs ∷ [] in
    if ltb (max_samples * 2) (length all) then drop (length all - max_samples) all else all

unfoldable pub push_mem : ℕ → String → Observation → Store → Store
push_mem key model obs s = record s {
  mem =
      λ k m. if k == key && str_eq m model then pushed s.max_samples (s.mem k m) obs else s.mem k m;
}

-- Observe; a zero time is the clock's.
unfoldable pub observe_sample : ℕ → Observation → Store → Store
unfolding push_mem pushed
observe_sample now obs s =
    let timed = if obs.at == 0 then record obs { at = now } else obs in
    let first = push_mem obs.key_id (bucket_model obs.model) timed s in
    if str_eq obs.model "" then first else push_mem obs.key_id "_" timed first

-- Backfill, with one clock reading for all items without a time.
unfoldable pub backfill : ℕ → List Observation → Store → Store
unfolding observe_sample
backfill now [] s = s
backfill now (obs ∷ items) s = backfill now items (observe_sample now obs s)

-- sort.Slice with `filtered[i].At.After(filtered[j].At)`: the newest first.
unfoldable pub insert_newest : Observation → List Observation → List Observation
insert_newest o [] = o ∷ []
insert_newest o (q ∷ items) = if leb q.at o.at then o ∷ q ∷ items else q ∷ insert_newest o items

unfoldable pub sort_newest : List Observation → List Observation
unfolding insert_newest
sort_newest [] = []
sort_newest (o ∷ items) = insert_newest o (sort_newest items)

-- sort.Ints.
unfoldable pub insert_int : ℕ → List ℕ → List ℕ
insert_int n [] = n ∷ []
insert_int n (m ∷ ns) = if leb n m then n ∷ m ∷ ns else m ∷ insert_int n ns

unfoldable pub sort_ints : List ℕ → List ℕ
unfolding insert_int
sort_ints [] = []
sort_ints (n ∷ ns) = insert_int n (sort_ints ns)

-- `ttfts[i]`, which is in range.
abbrev pub at_index : ℕ → List ℕ → ℕ
at_index i [] = 0
at_index zero (n ∷ ns) = n
at_index (suc i) (n ∷ ns) = at_index i ns

abbrev pub sum_of : (Observation → ℕ) → List Observation → ℕ
sum_of f [] = 0
sum_of f (o ∷ items) = f o + sum_of f items

-- The samples that summarize counts.
unfoldable pub recent : List Observation → ℕ → ℕ → List Observation
unfolding sort_newest
recent items cut max_samples =
    take max_samples (sort_newest (select (λ o. o.at == 0 || ltb cut o.at) items))

-- The latencies in ascending order.
unfoldable pub latencies : List Observation → List ℕ
unfolding sort_ints
latencies filtered =
    sort_ints (map (λ o. o.ttft_ms) (select (λ o. o.success && ltb 0 o.ttft_ms) filtered))

module _ {F : Type 0} ⦃fl : Float64 F⦄ where
  open fl use {div, lit, of_int, ltf}

  abbrev pub no_window : Window F
  no_window = record {
    success_rate = lit 0 0;
    cache_rate = lit 0 0;
    has_cache = false;
    ttft_p50 = 0;
    has_latency = false;
    samples = 0;
  }

  -- summarize, of the time now - window.
  unfoldable pub summarize : ℕ → List Observation → ℕ → ℕ → Window F
  summarize now items window max_samples =
      let filtered = recent items (now - window) max_samples in
      let ttfts = latencies filtered in
      let read = sum_of (λ o. o.cache_read_tokens) filtered in
      let den = of_int (
        sum_of (λ o. o.input_tokens) filtered
        + read
        + sum_of (λ o. o.cache_creation_tokens) filtered) in
      let cached = ltf (lit 0 0) den in
      if is_empty filtered then no_window else record {
        success_rate = div (of_int (count_if (λ o. o.success) filtered)) (of_int (length filtered));
        samples = length filtered;
        cache_rate = if cached then div (of_int read) den else lit 0 0;
        has_cache = cached;
        ttft_p50 = at_index ((length ttfts - 1) / 2) ttfts;
        has_latency = not (is_empty ttfts);
      }

  -- Snapshot: redis answers if it is there and has samples of the bucket.
  unfoldable pub snapshot : ℕ → Option (List Observation) → ℕ → String → Store → Window F
  snapshot now (some items) key model s = summarize now items s.window s.max_samples
  snapshot now none key model s =
      summarize now (s.mem key (bucket_model model)) s.window s.max_samples
