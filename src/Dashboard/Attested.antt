-- ===== src/Dashboard/Attested.antt =====
-- backend/internal/dashboard/settle.go: a request is completed only when its attempts are there.
use simple_up_manage.Prelude.{
  ℕ, ◌≤◌, ◌≡◌, refl, ap, String, Bool, true, false, not, ◌&&◌, ◌||◌, some, List, [], ◌∷◌, All, leb,
  ltb, Bool-cases, inl, inr, arith, str_eq, Float64,
}
use simple_up_manage.Domain.Provider.{TextLib}
use simple_up_manage.Dashboard.Money.{Rounding}
use simple_up_manage.Dashboard.Facts.{RequestFact, AttemptFact, RequestEnd}
use simple_up_manage.Dashboard.Counted.{find_request-uuid}
use simple_up_manage.Dashboard.Settle.{
  Db, QueuedEvent, Payload, request_start, attempt_end, request_end, conc_sample, no_id,
  find_request, save_request, create_request, started_fact, create_attempt, attempts_for, sent_of,
  update_request_fact, settle_payload,
}
use simple_up_manage.Dashboard.Ledger.{
  tables, no_tables, process_all, process_all_rule, settle_end_rule, ended,
}

module _ {F : Type 0} where
  abbrev pub sent_for : String → List (AttemptFact F) → ℕ
  sent_for uuid attempts = sent_of (attempts_for uuid attempts)

  -- A request that is completed, and not interrupted, has as many sent attempts as its end names.
  abbrev pub is_attested : List (AttemptFact F) → RequestFact F → Bool
  is_attested attempts f =
      no_id f.completed_at || f.interrupted || leb f.http_attempts (sent_for f.uuid attempts)

  abbrev pub IsAttested : Db F → Type 0
  IsAttested db = All (λ f. is_attested db.attempts f ≡ true) db.requests

  sent_for-create :
      (uuid : String) (a : AttemptFact F) (rows : List (AttemptFact F))
      → sent_for uuid rows ≤ sent_for uuid (create_attempt a rows)
  unfolding create_attempt
  sent_for-create uuid a [] = ground arith
  sent_for-create uuid a (b ∷ rows) = ground (arith, sent_for-create uuid a rows)

  All-create :
      (P : RequestFact F → Type 0) (f : RequestFact F) (rows : List (RequestFact F))
      → P f
      → All P rows
      → All P (create_request f rows)
  unfolding create_request
  All-create P f [] h k = (h, tt)
  All-create P f (g ∷ rows) h k = elim (Bool-cases (str_eq g.uuid f.uuid)) [
    | inl e ↦ rw e k
    | inr e ↦ rw e (k.0, All-create P f rows h k.1)
  ]

  All-save :
      (P : RequestFact F → Type 0) (f : RequestFact F) (rows : List (RequestFact F))
      → P f
      → All P rows
      → All P (save_request f rows)
  unfolding save_request
  All-save P f [] h k = (h, tt)
  All-save P f (g ∷ rows) h k = elim (Bool-cases (str_eq g.uuid f.uuid)) [
    | inl e ↦ rw e (h, k.1)
    | inr e ↦ rw e (k.0, All-save P f rows h k.1)
  ]

  attested-more :
      (old new : List (AttemptFact F))
      → ((uuid : String) → sent_for uuid old ≤ sent_for uuid new)
      → (rows : List (RequestFact F)) → All (λ f. is_attested old f ≡ true) rows
      → All (λ f. is_attested new f ≡ true) rows
  attested-more old new more [] h = tt
  attested-more old new more (f ∷ rows) h =
      (ground (arith, h.0, more f.uuid), attested-more old new more rows h.1)

module _ {F : Type 0} ⦃fl : Float64 F⦄ ⦃ro : Rounding F⦄ where
  ended-attested :
      (lib : TextLib) (time : F) (f : RequestFact F) (p : RequestEnd F) (db : Db F)
      → f.uuid ≡ p.uuid
      → (not p.interrupted && ltb (sent_for p.uuid db.attempts) p.http_attempts) ≡ false
      → is_attested db.attempts (ended lib time f p db) ≡ true
  unfolding update_request_fact
  ended-attested lib time f p db u go =
      let same : sent_for f.uuid db.attempts ≡ sent_for p.uuid db.attempts =
        ap (λ x. sent_for x db.attempts) u in
      ground (arith, same, go)

  settle_payload-IsAttested :
      (lib : TextLib) (time : F) (payload : Payload F) (db : Db F)
      → IsAttested db
      → IsAttested (tables db (settle_payload lib time payload db))
  unfolding settle_payload
  settle_payload-IsAttested lib time (request_start p) db h =
      All-create (λ f. is_attested db.attempts f ≡ true) (started_fact p) db.requests refl h
  settle_payload-IsAttested lib time (attempt_end a) db h =
      attested-more db.attempts (create_attempt a db.attempts)
        (λ uuid. sent_for-create uuid a db.attempts) db.requests h
  settle_payload-IsAttested lib time (conc_sample s) db h = h
  settle_payload-IsAttested lib time (request_end p) db h =
      let saved =
        λ (f : RequestFact F) (e : find_request p.uuid db.requests ≡ some f)
            (go : (not p.interrupted && ltb (sent_for p.uuid db.attempts) p.http_attempts) ≡ false).
          All-save (λ f. is_attested db.attempts f ≡ true) (ended lib time f p db) db.requests
            (ended-attested lib time f p db (find_request-uuid p.uuid db.requests f e) go) h in
      settle_end_rule IsAttested lib time p db h (λ f e fresh go b. saved f e go)
        (λ f e fresh go b. saved f e go)

  -- Whatever events are processed, from no tables and in whatever order, at whatever times and however
  -- often, every fact of a completed request that was not interrupted is there with at least as many
  -- sent attempts as the end of the request has named.
  pub process_all-IsAttested :
      (lib : TextLib) (time : F) (events : List (ℕ × QueuedEvent F))
      → IsAttested (process_all lib time events no_tables)
  process_all-IsAttested lib time events =
      process_all_rule IsAttested lib time (λ db keys h. h) (settle_payload-IsAttested lib time)
        events no_tables tt
