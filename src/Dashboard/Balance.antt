-- ===== src/Dashboard/Balance.antt =====
-- backend/internal/dashboard/settle.go: the days are the sums of their minutes. The counters of a
-- row, and what one update does to them.
use simple_up_manage.Prelude.{
  ℕ, ◌+◌, ◌≡◌, refl, sym, ap, ◌∙◌, String, Bool, true, false, Option, none, some, List, [], ◌∷◌,
  if◌then◌else◌, eq_iff, ◌↔◌, inl, inr, Bool-cases, Option-cases, arith, Float64,
}
use mathlib.Core.Option.{some-injective}
use simple_up_manage.Dashboard.Money.{Rounding}
use simple_up_manage.Dashboard.Facts.{AggKey, key_eq, Agg, shanghai_day, minute_of}
use simple_up_manage.Dashboard.Aggregate.{
  Reason, unbound, missing_sale, missing_price, missing_usage, interrupted, Aggs, find_agg,
  save_agg, get_agg, found_or_new, add_delta, post,
}

-- The columns that count.
pub data Counter : Type 0 where
  started completed success retried provider_success provider_failure ttft unknown covered : Counter
  because : Reason → Counter

abbrev pub value : {F : Type 0} → Counter → Agg F → ℕ
value started r = r.requests_started
value completed r = r.requests_completed
value success r = r.requests_success
value retried r = r.requests_retried
value provider_success r = r.provider_success
value provider_failure r = r.provider_failure
value ttft r = r.ttft_samples
value unknown r = r.unknown_consumption
value covered r = r.covered_count
value (because unbound) r = r.unbound_count
value (because missing_sale) r = r.missing_sale_count
value (because missing_price) r = r.missing_price_count
value (because missing_usage) r = r.missing_usage_count
value (because interrupted) r = r.interrupted_count

pub key_eq_iff : (a b : AggKey) → (key_eq a b ≡ true) ↔ (a ≡ b)
unfolding key_eq
key_eq_iff a b = ground (arith, eq_iff a.family b.family, eq_iff a.dim b.dim)

pub minute_day : (t : ℕ) → shanghai_day (minute_of t) ≡ shanghai_day t
unfolding shanghai_day minute_of
minute_day t = omega arith

-- The key of the day that a key of a minute belongs to.
abbrev pub day_key : AggKey → AggKey
day_key k = record k { bucket = shanghai_day k.bucket }

module _ {F : Type 0} (c : Counter) where
  -- The sum of a counter over the rows whose key passes a test, and over the minutes of a day.
  abbrev pub sum_of : (AggKey → Bool) → List (Agg F) → ℕ
  sum_of p [] = 0
  sum_of p (r ∷ rows) = (if p r.key then value c r else 0) + sum_of p rows

  abbrev pub minutes_of : AggKey → List (Agg F) → ℕ
  minutes_of day rows = sum_of (λ k. key_eq (day_key k) day) rows

  abbrev value_or_zero : Option (Agg F) → ℕ
  value_or_zero none = 0
  value_or_zero (some r) = value c r

  -- The counter in the row of a day, 0 if there is none.
  abbrev pub day_of : AggKey → List (Agg F) → ℕ
  day_of day rows = value_or_zero (find_agg day rows)

  -- Saving a row moves the sum by what the row gains.
  sum_of-save :
      (p : AggKey → Bool) (r : Agg F) (rows : List (Agg F))
      → sum_of p (save_agg r rows) + (if p r.key then value_or_zero (find_agg r.key rows) else 0)
        ≡ sum_of p rows + (if p r.key then value c r else 0)
  unfolding save_agg find_agg
  sum_of-save p r [] = ground arith
  sum_of-save p r (q ∷ rows) = elim (Bool-cases (key_eq q.key r.key)) [
    | inl e ↦ rw (e, (key_eq_iff q.key r.key).0 e) (ground arith)
    | inr e ↦ rw e (omega (arith, sum_of-save p r rows))
  ]

  find-save :
      (k : AggKey) (r : Agg F) (rows : List (Agg F))
      → find_agg k (save_agg r rows) ≡ (if key_eq r.key k then some r else find_agg k rows)
  unfolding save_agg find_agg
  find-save k r [] = refl
  find-save k r (q ∷ rows) =
      ground
        (arith, find-save k r rows, key_eq_iff q.key r.key, key_eq_iff r.key k, key_eq_iff q.key k)

module _ {F : Type 0} (c : Counter) where
  value_or_zero-if :
      (b : Bool) (r : Agg F) (o : Option (Agg F))
      → value_or_zero c (if b then some r else o) ≡ (if b then value c r else value_or_zero c o)
  value_or_zero-if true r o = refl
  value_or_zero-if false r o = refl

  day_of-save :
      (day : AggKey) (r : Agg F) (rows : List (Agg F))
      → day_of c day (save_agg r rows) ≡ (if key_eq r.key day then value c r else day_of c day rows)
  day_of-save day r rows =
      ap (value_or_zero c) (find-save c day r rows) ∙ value_or_zero-if (key_eq r.key day) r _

value-new :
    (F : Type 0) (fl : Float64 F) (c : Counter) (k : AggKey)
    → value {F = F} c (found_or_new ⦃fl = fl⦄ k none) ≡ 0
value-new F fl started k = refl
value-new F fl (because unbound) k = refl
value-new F fl (because _) k = refl
value-new F fl _ k = refl

module _ {F : Type 0} ⦃fl : Float64 F⦄ where
  value-get :
      (c : Counter) (k : AggKey) (rows : List (Agg F))
      → value c (get_agg k rows) ≡ value_or_zero c (find_agg k rows)
  unfolding get_agg
  value-get c k rows = elim (Option-cases (find_agg k rows)) [
    | inl e ↦ rw (e, get_agg) (value-new F fl c k)
    | inr (r, e) ↦ rw (e, get_agg)
  ]

  find_agg-key :
      (k : AggKey) (rows : List (Agg F)) {r : Agg F} → find_agg k rows ≡ some r → r.key ≡ k
  unfolding find_agg
  find_agg-key k [] e = cc
  find_agg-key k (q ∷ rows) {r} e = elim (Bool-cases (key_eq q.key k)) [
    | inl same ↦
        let here : q ≡ r = some-injective q r (rw same at e) in
        ap (λ x. x.key) (sym here) ∙ (key_eq_iff q.key k).0 same
    | inr other ↦ find_agg-key k rows {r = r} (rw other at e)
  ]

  get_agg-key : (k : AggKey) (rows : List (Agg F)) → (get_agg k rows).key ≡ k
  unfolding get_agg
  get_agg-key k rows = elim (Option-cases (find_agg k rows)) [
    | inl e ↦ rw (e, get_agg)
    | inr (r, e) ↦ rw (e, get_agg) (find_agg-key k rows e)
  ]

-- Every counter of every day is the sum over the minutes of that day.
abbrev pub IsBalanced : {F : Type 0} → Aggs F → Type 0
IsBalanced t = (c : Counter) (day : AggKey) → minutes_of c day t.minutes ≡ day_of c day t.days

-- A change of a row and a delta that agree.
pub record Agrees {F : Type 0} (change : Agg F → Agg F) (delta : Agg F) : Type 0 where
  pub same_key : (r : Agg F) → (change r).key ≡ r.key
  pub gains : (c : Counter) (r : Agg F) → value c (change r) ≡ value c r + value c delta

module _ {F : Type 0} ⦃fl : Float64 F⦄ ⦃ro : Rounding F⦄ where
  value-add_delta : (c : Counter) (r d : Agg F) → value c (add_delta r d) ≡ value c r + value c d
  unfolding add_delta
  value-add_delta started r d = refl
  value-add_delta (because unbound) r d = refl
  value-add_delta (because _) r d = refl
  value-add_delta _ r d = refl

  key-add_delta : (r d : Agg F) → (add_delta r d).key ≡ r.key
  unfolding add_delta
  key-add_delta r d = refl

  -- What the saved rows add, on both sides.
  pub sum_of-post :
      (c : Counter) (p : AggKey → Bool) (k : AggKey) (change : Agg F → Agg F) (delta : Agg F)
      (rows : List (Agg F))
      → Agrees change delta
      → sum_of c p (save_agg (change (get_agg k rows)) rows)
        ≡ sum_of c p rows + (if p k then value c delta else 0)
  sum_of-post c p k change delta rows a =
      let r = change (get_agg k rows) in
      let key : r.key ≡ k = a.same_key (get_agg k rows) ∙ get_agg-key k rows in
      let saved = sum_of-save c p r rows in
      let gained : value c r ≡ value_or_zero c (find_agg k rows) + value c delta =
        a.gains c (get_agg k rows) ∙ ap (λ (n : ℕ). n + value c delta) (value-get c k rows) in
      ground (arith, rw key at saved, gained)

  day_of-post :
      (c : Counter) (day k : AggKey) (delta : Agg F) (rows : List (Agg F))
      → day_of c day (save_agg (add_delta (get_agg k rows) delta) rows)
        ≡ day_of c day rows + (if key_eq k day then value c delta else 0)
  day_of-post c day k delta rows =
      let r = add_delta (get_agg k rows) delta in
      let key : r.key ≡ k = key-add_delta (get_agg k rows) delta ∙ get_agg-key k rows in
      day_of-save c day r rows
      ∙ ap (λ x. if key_eq x day then value c r else day_of c day rows) key
      ∙ elim (Bool-cases (key_eq k day)) [
        | inl e ↦ rw e (
            value-add_delta c (get_agg k rows) delta
            ∙ ap (λ (n : ℕ). n + value c delta)
                (value-get c k rows ∙ ap (λ x. day_of c x rows) ((key_eq_iff k day).0 e)))
        | inr e ↦ rw e (omega arith)
      ]

  -- An update whose change agrees with its delta keeps the tables balanced, if the minute lies in the
  -- day of the time.
  pub post-IsBalanced :
      (bucket time : ℕ) (family dim : String) (id : ℕ) (change : Agg F → Agg F) (delta : Agg F)
      (t : Aggs F)
      → shanghai_day bucket ≡ shanghai_day time
      → Agrees change delta
      → IsBalanced t
      → IsBalanced (post bucket time family dim id change delta t)
  unfolding post
  post-IsBalanced bucket time family dim id change delta t e a h c day =
      let minute : AggKey = record { bucket = bucket; family = family; dim = dim; dim_id = id } in
      let key : AggKey = record minute { bucket = shanghai_day time } in
      sum_of-post c (λ k. key_eq (day_key k) day) minute change delta t.minutes a
      ∙ ap (λ (n : ℕ). n + (if key_eq (day_key minute) day then value c delta else 0)) (h c day)
      ∙ ap
          (λ (d : ℕ).
            day_of c day t.days
            + (if key_eq (record minute { bucket = d }) day then value c delta else 0))
          e
      ∙ sym (day_of-post c day key delta t.days)
