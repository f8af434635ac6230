-- ===== src/Metrics/Bounds.antt =====
-- backend/internal/metrics/window.go: the sizes of the windows, and what a summary can say.
use simple_up_manage.Prelude.{
  ℕ, zero, suc, ◌-◌, ◌*◌, ◌/◌, min, ◌≤◌, ◌<◌, ◌≡◌, refl, ◌∙◌, String, true, not, ◌&&◌, ◌||◌, List,
  [], ◌∷◌, ◌++◌, length, is_empty, select, ltb, leb, ◌==◌, if◌then◌else◌, str_eq, Float64, map, All,
  length-drop, length-take, arith, Bool-cases, ap, inl, inr, if_pred,
}
use simple_up_manage.Metrics.Window.{
  Window, Observation, Store, pushed, push_mem, observe_sample, backfill, insert_newest,
  sort_newest, insert_int, sort_ints, at_index, recent, latencies, summarize, bucket_model,
}

-- No bucket holds more than twice the samples of a window.
abbrev pub IsBounded : Store → Type 0
IsBounded s = (k : ℕ) (m : String) → length (s.mem k m) ≤ s.max_samples * 2

length-pushed :
    (n : ℕ) (items : List Observation) (obs : Observation) → length (pushed n items obs) ≤ n * 2
unfolding pushed
length-pushed n items obs =
    ground (arith, length-drop (length (items ++ obs ∷ []) - n) (items ++ obs ∷ []))

push_mem-IsBounded :
    (key : ℕ) (model : String) (obs : Observation) (s : Store)
    → IsBounded s
    → IsBounded (push_mem key model obs s)
unfolding push_mem
push_mem-IsBounded key model obs s h k m =
    ground (arith, length-pushed s.max_samples (s.mem k m) obs, h k m)

observe_sample-IsBounded :
    (now : ℕ) (obs : Observation) (s : Store) → IsBounded s → IsBounded (observe_sample now obs s)
unfolding observe_sample
observe_sample-IsBounded now obs s h = if_pred IsBounded (str_eq obs.model "") first (
    push_mem-IsBounded obs.key_id "_" timed (push_mem obs.key_id (bucket_model obs.model) timed s)
      first)
  where
    timed : Observation
    timed = if obs.at == 0 then record obs { at = now } else obs

    first : IsBounded (push_mem obs.key_id (bucket_model obs.model) timed s)
    first = push_mem-IsBounded obs.key_id (bucket_model obs.model) timed s h

-- From buckets that hold at most twice the samples of a window, however many observations are
-- recorded, every bucket still does.
backfill-IsBounded :
    (now : ℕ) (items : List Observation) (s : Store)
    → IsBounded s
    → IsBounded (backfill now items s)
unfolding backfill
backfill-IsBounded now [] s h = h
backfill-IsBounded now (obs ∷ items) s h =
    backfill-IsBounded now items (observe_sample now obs s) (observe_sample-IsBounded now obs s h)

length-insert_newest :
    (o : Observation) (items : List Observation)
    → length (insert_newest o items) ≡ suc (length items)
unfolding insert_newest
length-insert_newest o [] = refl
length-insert_newest o (q ∷ items) = ground (arith, length-insert_newest o items)

length-sort_newest : (items : List Observation) → length (sort_newest items) ≡ length items
unfolding sort_newest
length-sort_newest [] = refl
length-sort_newest (o ∷ items) =
    ground (arith, length-insert_newest o (sort_newest items), length-sort_newest items)

AllPositive : List ℕ → Type 0
AllPositive = All (λ n. 0 < n)

insert_int-AllPositive :
    (n : ℕ) (ns : List ℕ) → 0 < n → AllPositive ns → AllPositive (insert_int n ns)
unfolding insert_int AllPositive
insert_int-AllPositive n [] h k = (h, tt)
insert_int-AllPositive n (m ∷ ns) h k = elim (Bool-cases (leb n m)) [
  | inl e ↦ rw e (h, k)
  | inr e ↦ rw e (k.0, insert_int-AllPositive n ns h k.1)
]

sort_ints-AllPositive : (ns : List ℕ) → AllPositive ns → AllPositive (sort_ints ns)
unfolding sort_ints AllPositive
sort_ints-AllPositive [] h = h
sort_ints-AllPositive (n ∷ ns) h =
    insert_int-AllPositive n (sort_ints ns) h.0 (sort_ints-AllPositive ns h.1)

positive_latencies :
    (items : List Observation)
    → AllPositive (map (λ o. o.ttft_ms) (select (λ o. o.success && ltb 0 o.ttft_ms) items))
unfolding AllPositive
positive_latencies [] = tt
positive_latencies (o ∷ items) = elim (Bool-cases (o.success && ltb 0 o.ttft_ms)) [
  | inl e ↦ rw e (ground arith, positive_latencies items)
  | inr e ↦ rw e (positive_latencies items)
]

at_index-pos : (i : ℕ) (ns : List ℕ) → i < length ns → AllPositive ns → 0 < at_index i ns
unfolding AllPositive
at_index-pos i [] lt h = omega arith
at_index-pos zero (n ∷ ns) lt h = h.0
at_index-pos (suc i) (n ∷ ns) lt h = at_index-pos i ns (omega arith) h.1

median_pos :
    (ns : List ℕ) → AllPositive ns → not (is_empty ns) ≡ ltb 0 (at_index ((length ns - 1) / 2) ns)
median_pos [] h = refl
median_pos (n ∷ ns) h =
    ground (arith, at_index-pos ((length (n ∷ ns) - 1) / 2) (n ∷ ns) (omega arith) h)

latencies-AllPositive : (items : List Observation) → AllPositive (latencies items)
unfolding latencies
latencies-AllPositive items = sort_ints-AllPositive _ (positive_latencies items)

length-recent :
    (items : List Observation) (cut n : ℕ)
    → length (recent items cut n) ≡ min n (length (select (λ o. o.at == 0 || ltb cut o.at) items))
unfolding recent
length-recent items cut n =
    let kept = select (λ (o : Observation). o.at == 0 || ltb cut o.at) items in
    length-take n (sort_newest kept) ∙ ap (λ x. min n x) (length-sort_newest kept)

length-is_empty : (items : List Observation) → is_empty items ≡ true → length items ≡ 0
length-is_empty [] e = refl
length-is_empty (o ∷ items) e = ground (arith, e)

module _ (F : Type 0) ⦃fl : Float64 F⦄ where
  -- A summary counts the samples inside the window, at most the configured number, and it has a
  -- latency exactly when its median is positive.
  summarize_counts :
      (now : ℕ) (items : List Observation) (window n : ℕ)
      → let w : Window F = summarize now items window n in
        (w.samples ≡ min n (length (select (λ o. o.at == 0 || ltb (now - window) o.at) items)))
        × (w.has_latency ≡ ltb 0 w.ttft_p50)
  unfolding summarize
  summarize_counts now items window n =
      let filtered = recent items (now - window) n in
      (
        ground (arith, length-recent items (now - window) n, length-is_empty filtered),
        ground (arith, median_pos (latencies filtered) (latencies-AllPositive filtered)),
      )
