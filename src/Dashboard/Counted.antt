-- ===== src/Dashboard/Counted.antt =====
-- backend/internal/dashboard/settle.go: the minutes count every completed request of business, once.
use simple_up_manage.Prelude.{
  ℕ, suc, ◌+◌, ◌≡◌, refl, sym, ap, ◌∙◌, String, Bool, true, false, not, ◌&&◌, Option, none, some,
  List, [], ◌∷◌, ◌++◌, count_if, if◌then◌else◌, Bool-cases, inl, inr, arith, str_eq, eq_iff,
  Float64,
}
use mathlib.Core.Option.{some-injective}
use simple_up_manage.Domain.Provider.{TextLib}
use simple_up_manage.Dashboard.Money.{Rounding}
use simple_up_manage.Dashboard.Facts.{
  RequestFact, AttemptFact, MinuteSample, AggKey, Agg, minute_of,
}
use simple_up_manage.Dashboard.Aggregate.{
  Aggs, Contribution, blank, post, request_row, request_delta, apply_contribution,
  apply_contributions, contributions, group_contribution, provider_contributions, provider_costs,
  apply_request_agg, attempt_row, attempt_delta, apply_attempt_agg, apply_conc_sample,
}
use simple_up_manage.Dashboard.Balance.{completed, value, sum_of, sum_of-post, Agrees}
use simple_up_manage.Dashboard.Reasons.{value-over_mark, reasons_for-once}
use simple_up_manage.Dashboard.Settle.{
  Db, QueuedEvent, Payload, request_start, attempt_end, request_end, conc_sample, no_id,
  find_request, save_request, create_request, started_fact, attempts_for, update_request_fact,
  settle_payload,
}
use simple_up_manage.Dashboard.Sums.{
  Once, named-zero, started-Agrees, request-Agrees, attempt-Agrees, sample-Agrees, sampled,
}
use simple_up_manage.Dashboard.Ledger.{
  tables, no_tables, process_all, process_all_rule, settle_end_rule, ended,
}

-- The rows that count the requests of all groups and providers.
abbrev pub is_global : AggKey → Bool
is_global k = str_eq k.family "request" && str_eq k.dim "global"

-- A request of business that is completed.
abbrev pub is_done : {F : Type 0} → RequestFact F → Bool
is_done f = not (no_id f.completed_at) && str_eq f.source "business"

module _ {F : Type 0} ⦃fl : Float64 F⦄ ⦃ro : Rounding F⦄ where
  -- The completed requests that the minutes of all groups and providers count.
  abbrev pub counted : Aggs F → ℕ
  counted t = sum_of completed is_global t.minutes

  counted-post :
      (bucket time : ℕ) (family dim : String) (id : ℕ) (change : Agg F → Agg F) (delta : Agg F)
      (t : Aggs F)
      → Agrees change delta
      → counted (post bucket time family dim id change delta t)
        ≡ counted t
          + (if str_eq family "request" && str_eq dim "global" then value completed delta else 0)
  unfolding post
  counted-post bucket time family dim id change delta t a =
      sum_of-post completed is_global _ change delta t.minutes a

  completed-delta :
      (f : RequestFact F) (d : Contribution F) → value completed (request_delta f d) ≡ 1
  unfolding request_delta
  completed-delta f d =
      value-over_mark completed f.reasons _ ∙ rw (named-zero completed (λ o. refl) f.reasons)

  counted-contributions :
      (f : RequestFact F) (at : ℕ) (dims : List (Contribution F)) (t : Aggs F)
      → Once f
      → counted (apply_contributions f at dims t)
        ≡ counted t + count_if (λ d. str_eq d.dim "global") dims
  unfolding apply_contributions apply_contribution
  counted-contributions f at [] t h = omega arith
  counted-contributions f at (d ∷ dims) t h = ground (
    arith,
    counted-contributions f at dims (apply_contribution f at d t) h,
    counted-post (minute_of at) at "request" d.dim d.id (request_row f d) (request_delta f d)
        (post (minute_of f.started_at) f.started_at "request" d.dim d.id
          (λ row. record row { requests_started = row.requests_started + 1 })
          (record blank { requests_started = 1 }) t)
        (request-Agrees f d h),
    counted-post (minute_of f.started_at) f.started_at "request" d.dim d.id
        (λ row. record row { requests_started = row.requests_started + 1 })
        (record blank { requests_started = 1 }) t started-Agrees,
    completed-delta f d,
  )

  globals-providers :
      (f : RequestFact F) (costs : List (ℕ × ℕ))
      → count_if (λ d. str_eq d.dim "global") (provider_contributions f costs) ≡ 0
  unfolding provider_contributions
  globals-providers f [] = refl
  globals-providers f (p ∷ costs) = globals-providers f costs

  -- Of the contributions of a request exactly one is to all groups and providers.
  globals-contributions :
      (f : RequestFact F) (attempts : List (AttemptFact F))
      → count_if (λ d. str_eq d.dim "global") (contributions f attempts) ≡ 1
  unfolding contributions
  globals-contributions f attempts = by_group f.route_group_id _
    where
      by_group :
          (g : Option ℕ) (cost : ℕ)
          → suc (
              count_if
                (λ d. str_eq d.dim "global")
                (group_contribution g cost f
                  ++ provider_contributions f (provider_costs attempts [])))
            ≡ 1
      by_group none cost = ap suc (globals-providers f (provider_costs attempts []))
      by_group (some g) cost = ap suc (globals-providers f (provider_costs attempts []))

  counted-request :
      (f : RequestFact F) (attempts : List (AttemptFact F)) (at : ℕ) (t : Aggs F)
      → f.completed_at ≡ some at
      → Once f
      → counted (apply_request_agg f attempts t) ≡ counted t + 1
  unfolding apply_request_agg
  counted-request f attempts at t e h =
      rw (e, apply_request_agg)
        (counted-contributions f at (contributions f attempts) t h
          ∙ ap (λ (n : ℕ). counted t + n) (globals-contributions f attempts))

  counted-attempt :
      (a : AttemptFact F) (business : Bool) (t : Aggs F)
      → counted (apply_attempt_agg a business t) ≡ counted t
  unfolding apply_attempt_agg
  counted-attempt a business t = ground (
    arith,
    counted-post (minute_of a.completed_at) a.completed_at "attempt" "provider" a.provider_id
        (attempt_row a business) (attempt_delta a business)
        (post (minute_of a.completed_at) a.completed_at "attempt" "global" 0
          (attempt_row a business) (attempt_delta a business) t)
        (attempt-Agrees a business),
    counted-post (minute_of a.completed_at) a.completed_at "attempt" "global" 0
        (attempt_row a business) (attempt_delta a business) t (attempt-Agrees a business),
  )

  counted-sample : (s : MinuteSample F) (t : Aggs F) → counted (apply_conc_sample s t) ≡ counted t
  unfolding apply_conc_sample
  counted-sample s t =
      counted-post s.bucket s.bucket s.family "global" 0 (sampled s) _ t (sample-Agrees s)
      ∙ ground arith

  -- Completing a row that was not completed counts it, if it is of business.
  count-save :
      (uuid : String) (f g : RequestFact F) (rows : List (RequestFact F))
      → find_request uuid rows ≡ some f
      → g.uuid ≡ uuid
      → is_done f ≡ false
      → count_if is_done (save_request g rows)
        ≡ count_if is_done rows + (if is_done g then 1 else 0)
  unfolding find_request save_request
  count-save uuid f g [] e u n = cc
  count-save uuid f g (q ∷ rows) e u n = elim (Bool-cases (str_eq q.uuid uuid)) [
    | inl same ↦
        let here : is_done q ≡ false = ap is_done (some-injective q f (rw same at e)) ∙ n in
        let saved : str_eq q.uuid g.uuid ≡ true = ap (str_eq q.uuid) u ∙ same in
        rw (saved, here) (ground arith)
    | inr other ↦
        let saved : str_eq q.uuid g.uuid ≡ false = ap (str_eq q.uuid) u ∙ other in
        rw saved (ground (arith, count-save uuid f g rows (rw other at e) u n))
  ]

  count-create :
      (f : RequestFact F) (rows : List (RequestFact F))
      → is_done f ≡ false
      → count_if is_done (create_request f rows) ≡ count_if is_done rows
  unfolding create_request
  count-create f [] n = ground arith
  count-create f (g ∷ rows) n = ground (arith, count-create f rows n)

  pub find_request-uuid :
      (uuid : String) (rows : List (RequestFact F)) (f : RequestFact F)
      → find_request uuid rows ≡ some f
      → f.uuid ≡ uuid
  unfolding find_request
  find_request-uuid uuid [] f e = cc
  find_request-uuid uuid (q ∷ rows) f e = elim (Bool-cases (str_eq q.uuid uuid)) [
    | inl same ↦
        ap (λ x. x.uuid) (sym (some-injective q f (rw same at e))) ∙ (eq_iff q.uuid uuid).0 same
    | inr other ↦ find_request-uuid uuid rows f (rw other at e)
  ]

  -- The minutes count the completed requests of business.
  abbrev pub IsCounted : Db F → Type 0
  IsCounted db = counted db.aggs ≡ count_if is_done db.requests

  settle_payload-IsCounted :
      (lib : TextLib) (time : F) (payload : Payload F) (db : Db F)
      → IsCounted db
      → IsCounted (tables db (settle_payload lib time payload db))
  unfolding settle_payload update_request_fact
  settle_payload-IsCounted lib time (request_start p) db h =
      h ∙ sym (count-create (started_fact p) db.requests refl)
  settle_payload-IsCounted lib time (attempt_end a) db h =
      counted-attempt a (str_eq a.source "business") db.aggs ∙ h
  settle_payload-IsCounted lib time (conc_sample s) db h = counted-sample s db.aggs ∙ h
  settle_payload-IsCounted lib time (request_end p) db h =
      settle_end_rule IsCounted lib time p db h
        (λ f e fresh go b.
          h
          ∙ sym (
              count-save p.uuid f (ended lib time f p db) db.requests e
                (find_request-uuid p.uuid db.requests f e) (ground (arith, fresh))
              ∙ rw b (omega arith)))
        (λ f e fresh go b.
          counted-request (ended lib time f p db) (attempts_for p.uuid db.attempts) p.completed_at
            db.aggs refl (λ c. reasons_for-once c f p (attempts_for p.uuid db.attempts))
          ∙ ap (λ (n : ℕ). n + 1) h
          ∙ sym (
              count-save p.uuid f (ended lib time f p db) db.requests e
                (find_request-uuid p.uuid db.requests f e) (ground (arith, fresh))
              ∙ rw b))

  -- Whatever events are processed, from no tables and in whatever order, at whatever times and however
  -- often, the minutes count, over all groups and providers, as many completed requests as there are
  -- completed requests of business among the facts.
  pub process_all-IsCounted :
      (lib : TextLib) (time : F) (events : List (ℕ × QueuedEvent F))
      → IsCounted (process_all lib time events no_tables)
  process_all-IsCounted lib time events =
      process_all_rule IsCounted lib time (λ db keys h. h) (settle_payload-IsCounted lib time)
        events no_tables refl
