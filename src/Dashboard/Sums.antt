-- ===== src/Dashboard/Sums.antt =====
-- backend/internal/dashboard/settle.go: the settlement keeps every day the sum of its minutes.
use simple_up_manage.Prelude.{
  ℕ, ◌+◌, ◌≤◌, ◌≡◌, refl, ◌∙◌, String, Bool, false, inl, inr, Option, none, some, List, [], ◌∷◌,
  if◌then◌else◌, ltb, Option-cases, arith, Float64,
}
use simple_up_manage.Dashboard.Money.{Rounding}
use simple_up_manage.Dashboard.Facts.{RequestFact, AttemptFact, MinuteSample, Agg, minute_of}
use simple_up_manage.Dashboard.Aggregate.{
  Aggs, blank, Contribution, Reason, reason_of, bump, on_reason, over_reasons, request_row,
  request_delta, apply_contribution, apply_contributions, contributions, apply_request_agg,
  attempt_row, attempt_delta, apply_attempt_agg, apply_conc_sample,
}
use simple_up_manage.Dashboard.Balance.{
  Counter, started, because, value, Agrees, IsBalanced, post-IsBalanced, minute_day,
}
use simple_up_manage.Dashboard.Reasons.{hits, named, over_reasons-agree}

module _ {F : Type 0} where
  key-bump : (k : Reason) (r : Agg F) → (bump k r).key ≡ r.key
  unfolding bump
  key-bump Reason.unbound r = refl
  key-bump _ r = refl

  key-on_bump : (o : Option Reason) (r : Agg F) → (on_reason bump o r).key ≡ r.key
  key-on_bump none r = refl
  key-on_bump (some k) r = key-bump k r

  key-over_bump : (reasons : List String) (r : Agg F) → (over_reasons bump reasons r).key ≡ r.key
  unfolding over_reasons
  key-over_bump [] r = refl
  key-over_bump (s ∷ reasons) r =
      key-over_bump reasons (on_reason bump (reason_of s) r) ∙ key-on_bump (reason_of s) r

pub named-zero :
    (c : Counter)
    → ((o : Option Reason) → hits c o ≡ false)
    → (reasons : List String) → named c reasons ≡ 0
named-zero c h [] = refl
named-zero c h (s ∷ reasons) = ground (arith, h (reason_of s), named-zero c h reasons)

module _ {F : Type 0} ⦃fl : Float64 F⦄ ⦃ro : Rounding F⦄ where
  -- The reasons of a fact are named at most once.
  abbrev pub Once : RequestFact F → Type 0
  Once f = (c : Counter) → named c f.reasons ≤ 1

  request-gains :
      (f : RequestFact F) (d : Contribution F)
      → Once f
      → (c : Counter) (r : Agg F)
      → value c (request_row f d r) ≡ value c r + value c (request_delta f d)
  unfolding request_row request_delta
  request-gains f d h (because Reason.unbound) r =
      over_reasons-agree (because Reason.unbound) f.reasons r _ _ (h (because Reason.unbound))
        (inl refl) (omega arith)
  request-gains f d h (because k) r =
      over_reasons-agree (because k) f.reasons r _ _ (h (because k)) (inl refl) (omega arith)
  request-gains f d h started r =
      over_reasons-agree started f.reasons r _ _ (h started)
        (inr (named-zero started (λ o. refl) f.reasons)) (ground arith)
  request-gains f d h c r =
      over_reasons-agree c f.reasons r _ _ (h c) (inr (named-zero c (λ o. refl) f.reasons))
        (ground arith)

  pub request-Agrees :
      (f : RequestFact F) (d : Contribution F)
      → Once f
      → Agrees (request_row f d) (request_delta f d)
  unfolding request_row
  request-Agrees f d h = record {
    same_key = λ r. key-over_bump f.reasons _;
    gains = request-gains f d h;
  }

  pub started-Agrees :
      Agrees
        (λ (row : Agg F). record row { requests_started = row.requests_started + 1 })
        (record blank { requests_started = 1 })
  started-Agrees = record { same_key = λ r. refl; gains = by_counter }
    where
      by_counter :
          (c : Counter) (r : Agg F)
          → value c (record r { requests_started = r.requests_started + 1 })
            ≡ value c r + value {F = F} c (record blank { requests_started = 1 })
      by_counter started r = refl
      by_counter (because Reason.unbound) r = omega arith
      by_counter (because k) r = omega arith
      by_counter c r = omega arith

  attempt-gains :
      (a : AttemptFact F) (business : Bool) (c : Counter) (r : Agg F)
      → value c (attempt_row a business r) ≡ value c r + value c (attempt_delta a business)
  unfolding attempt_row attempt_delta
  attempt-gains a business (because Reason.unbound) r = omega arith
  attempt-gains a business (because k) r = omega arith
  attempt-gains a business started r = omega arith
  attempt-gains a business c r = ground arith

  pub attempt-Agrees :
      (a : AttemptFact F) (business : Bool)
      → Agrees (attempt_row a business) (attempt_delta a business)
  unfolding attempt_row
  attempt-Agrees a business = record { same_key = λ r. refl; gains = attempt-gains a business }

  abbrev pub sampled : MinuteSample F → Agg F → Agg F
  sampled s row = record row {
    inflight_integral_sec = fl.add row.inflight_integral_sec s.integral;
    inflight_peak = if ltb row.inflight_peak s.peak then s.peak else row.inflight_peak;
  }

  pub sample-Agrees :
      (s : MinuteSample F)
      → Agrees
          (sampled s)
          (record blank { inflight_integral_sec = s.integral; inflight_peak = s.peak })
  sample-Agrees s = record { same_key = λ r. refl; gains = by_counter }
    where
      by_counter :
          (c : Counter) (r : Agg F)
          → value c (sampled s r)
            ≡ value c r
              + value c
                  (record blank { inflight_integral_sec = s.integral; inflight_peak = s.peak })
      by_counter started r = omega arith
      by_counter (because Reason.unbound) r = omega arith
      by_counter (because k) r = omega arith
      by_counter c r = omega arith

  apply_contributions-IsBalanced :
      (f : RequestFact F) (completed : ℕ) (dims : List (Contribution F)) (t : Aggs F)
      → Once f
      → IsBalanced t
      → IsBalanced (apply_contributions f completed dims t)
  unfolding apply_contributions apply_contribution
  apply_contributions-IsBalanced f completed [] t h b = b
  apply_contributions-IsBalanced f completed (d ∷ dims) t h b =
      apply_contributions-IsBalanced f completed dims _ h (
        post-IsBalanced (minute_of completed) completed "request" d.dim d.id (request_row f d)
          (request_delta f d) _ (minute_day completed) (request-Agrees f d h)
          (post-IsBalanced (minute_of f.started_at) f.started_at "request" d.dim d.id _ _ t
            (minute_day f.started_at) started-Agrees b))

  pub apply_request_agg-IsBalanced :
      (f : RequestFact F) (attempts : List (AttemptFact F)) (t : Aggs F)
      → Once f
      → IsBalanced t
      → IsBalanced (apply_request_agg f attempts t)
  unfolding apply_request_agg
  apply_request_agg-IsBalanced f attempts t h b = elim (Option-cases f.completed_at) [
    | inl e ↦ rw (e, apply_request_agg) b
    | inr (completed, e) ↦
        rw (e, apply_request_agg)
          (apply_contributions-IsBalanced f completed (contributions f attempts) t h b)
  ]

  pub apply_attempt_agg-IsBalanced :
      (a : AttemptFact F) (business : Bool) (t : Aggs F)
      → IsBalanced t
      → IsBalanced (apply_attempt_agg a business t)
  unfolding apply_attempt_agg
  apply_attempt_agg-IsBalanced a business t b =
      post-IsBalanced (minute_of a.completed_at) a.completed_at "attempt" "provider" a.provider_id
        (attempt_row a business) (attempt_delta a business) _ (minute_day a.completed_at)
        (attempt-Agrees a business)
        (post-IsBalanced (minute_of a.completed_at) a.completed_at "attempt" "global" 0
          (attempt_row a business) (attempt_delta a business) t (minute_day a.completed_at)
          (attempt-Agrees a business) b)

  pub apply_conc_sample-IsBalanced :
      (s : MinuteSample F) (t : Aggs F) → IsBalanced t → IsBalanced (apply_conc_sample s t)
  unfolding apply_conc_sample
  apply_conc_sample-IsBalanced s t b =
      post-IsBalanced s.bucket s.bucket s.family "global" 0 (sampled s) _ t refl (sample-Agrees s) b
