-- ===== src/Gateway/Classes.antt =====
-- backend/internal/handler/gateway.go: the classes of HTTP failures, and what each does to the
-- circuit breaker.
use simple_up_manage.Prelude.{
  ℕ, ◌≤◌, ◌<◌, ◌≡◌, ◌⊎◌, String, Bool, true, false, none, if◌then◌else◌, ◌&&◌, ◌||◌, leb, ltb, ◌==◌,
  arith, str_eq, if_pred, OnSome, HasSome, Float64,
}
use simple_up_manage.Domain.Settings.{SchedulerSettings}
use simple_up_manage.Domain.Provider.{TextLib}
use simple_up_manage.Domain.Routing.{key_scope, scope_eq, Dimension, RoutingCircuit}
use simple_up_manage.Circuit.Admission.{Admission}
use simple_up_manage.Circuit.Row.{open_circuit}
use simple_up_manage.Circuit.Observe.{
  Outcome, is_owned, is_stale, is_leased_by_other, must_open, settle_failure, settle_outcome,
  observe_row,
}
use simple_up_manage.Gateway.Outcome.{
  ForwardOutcome, Body, body_kind, classify_http_failure, is_quota_exhausted_body,
  unsupported_capability, routing_outcome,
}

module _ (lib : TextLib) (equal_fold : String → String → Bool) where
  -- An HTTP failure is sent to another key exactly for the statuses 401, 402, 403, 404, 429 and from
  -- 500 on, and for 400 if the body says that the capability is missing.
  pub classify_http_failure_iff :
      (code : ℕ) (b : Body)
      → (classify_http_failure lib equal_fold code b).fail_over ≡ (
          leb 401 code && leb code 404
          || code == 429
          || leb 500 code
          || code == 400 && unsupported_capability lib equal_fold b)
  unfolding classify_http_failure
  classify_http_failure_iff code b = ground arith

  -- The other fields: a failure that goes to another key is never neutral and blames the key or the
  -- key with the model, and only from 500 on is the same key tried again; any other has no scope
  -- and is neutral exactly between 400 and 499.
  pub classify_http_failure_fields :
      (code : ℕ) (b : Body)
      → let o = classify_http_failure lib equal_fold code b in
        (o.ok ≡ false)
        × (o.valid_success ≡ false)
        × (o.status ≡ code)
        × (o.retry_same ≡ true → 500 ≤ code)
        × (o.fail_over ≡ true → (o.neutral ≡ false) × ((o.scope ≡ "key") ⊎ (o.scope ≡ "key_model")))
        × (o.fail_over ≡ false → (o.scope ≡ "") × (o.neutral ≡ (leb 400 code && ltb code 500)))
  unfolding classify_http_failure
  classify_http_failure_fields code b = ground arith

-- Outcomes that reach the circuit breaker from the gateway.
module _ {F : Type 0} ⦃fl : Float64 F⦄ (lib : TextLib) (equal_fold : String → String → Bool)
    (cfg : SchedulerSettings F) (now : ℕ) (d : Dimension) (token : String) (a : Admission)
    (request_id : String) (started_at : ℕ) (gone : Bool) (r : RoutingCircuit) where
  abbrev pub told : ℕ → Body → Outcome
  told code b =
      routing_outcome a request_id started_at gone (classify_http_failure lib equal_fold code b)

  -- A row without the leases of the request and of the check.
  abbrev pub unleased : RoutingCircuit → RoutingCircuit
  unleased x = record x { lease = ""; lease_until = 0; check_lease = ""; check_until = none }

  -- An answer between 400 and 499 that is not sent to another key is the client's own fault: if it
  -- saves a row, every column but those of the two leases is as before, and so are these unless the
  -- request holds the row's live lease, which it then gives back.
  pub rejection_leaves_row :
      (code : ℕ) (b : Body)
      → 400 ≤ code
      → code < 500
      → (classify_http_failure lib equal_fold code b).fail_over ≡ false
      → OnSome
          (λ r'. r' ≡ (if is_owned r token now then unleased r else r))
          (observe_row cfg now d token (told code b) r)
  unfolding observe_row settle_outcome routing_outcome
  rejection_leaves_row code b g l f =
      ground (arith, classify_http_failure_fields lib equal_fold code b)

  -- What counts of an outcome: neutral, success, authentication failure, limited.
  abbrev Counts : Outcome → Bool → Bool → Type 0
  Counts o auth limited =
      (o.neutral ≡ false) × (o.success ≡ false) × (o.auth_failure ≡ auth) × (o.limited ≡ limited)

  told-unauthorized : (b : Body) → gone ≡ false → Counts (told 401 b) true false
  unfolding classify_http_failure routing_outcome
  told-unauthorized b g =
      let observed : ForwardOutcome → Outcome =
        λ o. routing_outcome a request_id started_at gone o in
      if_pred {A = ForwardOutcome} (λ o. Counts (observed o) true false)
        (str_eq (body_kind lib equal_fold b) "credential_disabled") (ground arith) (ground arith)

  told-rate_limit : (b : Body) → gone ≡ false → Counts (told 429 b) false true
  unfolding classify_http_failure routing_outcome
  told-rate_limit b g =
      let observed : ForwardOutcome → Outcome =
        λ o. routing_outcome a request_id started_at gone o in
      if_pred {A = ForwardOutcome} (λ o. Counts (observed o) false true)
        (is_quota_exhausted_body lib equal_fold b) (ground arith) (ground arith)

  -- A 401 that is no matter of the client leaving opens the key's own row at once, unless the row
  -- has moved on or another request validates it.
  pub unauthorized_opens_key :
      (b : Body)
      → gone ≡ false
      → scope_eq r.scope (key_scope d.key_id) ≡ true
      → is_stale (told 401 b) (is_owned r token now) r ≡ false
      → is_leased_by_other (is_owned r token now) r ≡ false
      → HasSome (λ r'. r'.is_open ≡ true) (observe_row cfg now d token (told 401 b) r)
  unfolding observe_row settle_outcome settle_failure open_circuit
  unauthorized_opens_key b g k s n = ground (arith, told-unauthorized b g)

  -- A 429 that is no matter of the client leaving opens the row of the dimension at once, unless the
  -- row has moved on or another request validates it.
  rate_limit_opens_dimension :
      (b : Body)
      → gone ≡ false
      → scope_eq r.scope (key_scope d.key_id) ≡ false
      → is_stale (told 429 b) (is_owned r token now) r ≡ false
      → is_leased_by_other (is_owned r token now) r ≡ false
      → HasSome (λ r'. r'.is_open ≡ true) (observe_row cfg now d token (told 429 b) r)
  unfolding observe_row settle_outcome settle_failure must_open open_circuit
  rate_limit_opens_dimension b g k s n = ground (arith, told-rate_limit b g)
