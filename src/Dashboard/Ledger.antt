-- ===== src/Dashboard/Ledger.antt =====
-- backend/internal/dashboard/settle.go: what holds of the tables after any events, processed in any
-- order, at any times and as often as one likes.
use simple_up_manage.Prelude.{
  ℕ, ◌-◌, ◌≡◌, refl, String, true, false, not, ◌&&◌, ◌||◌, some, List, [], ◌∷◌, ◌++◌, ltb,
  Bool-cases, Option-cases, inl, inr, str_eq, Float64,
}
use simple_up_manage.Domain.Provider.{TextLib, contains}
use simple_up_manage.Dashboard.Money.{Rounding}
use simple_up_manage.Dashboard.Facts.{RequestFact, RequestEnd}
use simple_up_manage.Dashboard.Aggregate.{find_agg, apply_request_agg}
use simple_up_manage.Dashboard.Balance.{IsBalanced}
use simple_up_manage.Dashboard.Reasons.{reasons_for-once}
use simple_up_manage.Dashboard.Settle.{
  Db, save_request, Settled, committed, rejected, QueuedEvent, Payload, request_start, attempt_end,
  request_end, conc_sample, replay_reject_age, no_id, attempts_for, sent_of, find_request,
  update_request_fact, settle_end, settle_payload, process,
}
use simple_up_manage.Dashboard.Sums.{
  apply_request_agg-IsBalanced, apply_attempt_agg-IsBalanced, apply_conc_sample-IsBalanced,
}

-- The tables that a call of process leaves.
abbrev pub tables : {F : Type 0} → Db F → Settled F → Db F
tables db (committed db') = db'
tables db (rejected e) = db

-- Tables without rows.
abbrev pub no_tables : {F : Type 0} → Db F
no_tables = record {
  ledger = [];
  requests = [];
  attempts = [];
  aggs = record { minutes = []; days = [] };
}

module _ {F : Type 0} ⦃fl : Float64 F⦄ ⦃ro : Rounding F⦄ where
  -- Events that are processed one after the other, each with the clock at its turn.
  pub process_all : TextLib → F → List (ℕ × QueuedEvent F) → Db F → Db F
  process_all lib time [] db = db
  process_all lib time ((now, e) ∷ events) db =
      process_all lib time events (tables db (process lib time now e db))

  -- A rule for process: a property of the tables that every payload keeps, with whatever ledger.
  pub process_rule :
      (P : Db F → Type 0) (lib : TextLib) (time : F)
      → ((db : Db F) (keys : List String) → P db → P (record db { ledger = keys }))
      → ((payload : Payload F) (db : Db F)
          → P db
          → P (tables db (settle_payload lib time payload db)))
      → (now : ℕ) (e : QueuedEvent F) (db : Db F) → P db
      → P (tables db (process lib time now e db))
  unfolding process
  process_rule P lib time any step now e db h =
      elim (Bool-cases (ltb replay_reject_age (now - e.at) || contains db.ledger e.key)) [
        | inl skip ↦ rw skip h
        | inr new ↦ rw new (
            by_result (settle_payload lib time e.payload _)
              (step e.payload (record db { ledger = db.ledger ++ e.key ∷ [] }) (any db _ h)))
      ]
    where
      by_result :
          (r : Settled F)
          → P (tables (record db { ledger = db.ledger ++ e.key ∷ [] }) r)
          → P (tables db r)
      by_result (committed db') k = k
      by_result (rejected x) k = h

  pub process_all_rule :
      (P : Db F → Type 0) (lib : TextLib) (time : F)
      → ((db : Db F) (keys : List String) → P db → P (record db { ledger = keys }))
      → ((payload : Payload F) (db : Db F)
          → P db
          → P (tables db (settle_payload lib time payload db)))
      → (events : List (ℕ × QueuedEvent F)) (db : Db F) → P db
      → P (process_all lib time events db)
  unfolding process_all
  process_all_rule P lib time any step [] db h = h
  process_all_rule P lib time any step ((now, e) ∷ events) db h =
      process_all_rule P lib time any step events _ (process_rule P lib time any step now e db h)

  -- The row of a request as its end leaves it.
  abbrev pub ended : TextLib → F → RequestFact F → RequestEnd F → Db F → RequestFact F
  ended lib time f p db = update_request_fact lib time f p (attempts_for p.uuid db.attempts)

  -- A rule for the end of a request: the tables stay, or the row is completed, and, if the request is
  -- of business, counted.
  pub settle_end_rule :
      (P : Db F → Type 0) (lib : TextLib) (time : F) (p : RequestEnd F) (db : Db F)
      → P db
      → ((f : RequestFact F)
          → find_request p.uuid db.requests ≡ some f
          → no_id f.completed_at ≡ true
          → (not p.interrupted && ltb (sent_of (attempts_for p.uuid db.attempts)) p.http_attempts)
            ≡ false
          → str_eq f.source "business" ≡ false
          → P (record db { requests = save_request (ended lib time f p db) db.requests }))
      → ((f : RequestFact F)
          → find_request p.uuid db.requests ≡ some f
          → no_id f.completed_at ≡ true
          → (not p.interrupted && ltb (sent_of (attempts_for p.uuid db.attempts)) p.http_attempts)
            ≡ false
          → str_eq f.source "business" ≡ true
          → P (record db {
            requests = save_request (ended lib time f p db) db.requests;
            aggs =
                apply_request_agg (ended lib time f p db) (attempts_for p.uuid db.attempts) db.aggs;
          }))
      → P (tables db (settle_payload lib time (request_end p) db))
  unfolding settle_payload settle_end update_request_fact
  settle_end_rule P lib time p db h other business =
      elim (Option-cases (find_request p.uuid db.requests)) [
        | inl e ↦ rw (e, settle_payload) h
        | inr (f, e) ↦
            rw (e, settle_payload)
              (elim (Bool-cases (no_id f.completed_at)) [
                | inr late ↦ rw late h
                | inl fresh ↦
                    rw fresh
                      (elim (Bool-cases (
                        not p.interrupted
                        && ltb (sent_of (attempts_for p.uuid db.attempts)) p.http_attempts)) [
                          | inl wait ↦ rw wait h
                          | inr go ↦ rw go (elim (Bool-cases (str_eq f.source "business")) [
                            | inl b ↦ rw b (business f e fresh go b)
                            | inr b ↦ rw b (other f e fresh go b)
                          ])
                        ])
              ])
      ]

  settle_payload-IsBalanced :
      (lib : TextLib) (time : F) (payload : Payload F) (db : Db F)
      → IsBalanced db.aggs
      → IsBalanced (tables db (settle_payload lib time payload db)).aggs
  unfolding settle_payload update_request_fact
  settle_payload-IsBalanced lib time (request_start p) db h = h
  settle_payload-IsBalanced lib time (attempt_end a) db h =
      apply_attempt_agg-IsBalanced a (str_eq a.source "business") db.aggs h
  settle_payload-IsBalanced lib time (conc_sample s) db h = apply_conc_sample-IsBalanced s db.aggs h
  settle_payload-IsBalanced lib time (request_end p) db h =
      settle_end_rule (λ d. IsBalanced d.aggs) lib time p db h (λ f e fresh go b. h)
        (λ f e fresh go b.
          apply_request_agg-IsBalanced (ended lib time f p db) (attempts_for p.uuid db.attempts)
            db.aggs (λ c. reasons_for-once c f p (attempts_for p.uuid db.attempts)) h)

  -- Whatever events are processed, from no tables and in whatever order, at whatever times and however
  -- often, every counter in the row of a day is the sum of that counter over the minutes of the day.
  pub process_all-IsBalanced :
      (lib : TextLib) (time : F) (events : List (ℕ × QueuedEvent F))
      → IsBalanced (process_all lib time events no_tables).aggs
  unfolding find_agg
  process_all-IsBalanced lib time events =
      process_all_rule (λ db. IsBalanced db.aggs) lib time (λ db keys h. h)
        (settle_payload-IsBalanced lib time) events no_tables (λ c day. refl)
