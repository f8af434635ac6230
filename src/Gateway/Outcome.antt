-- ===== src/Gateway/Outcome.antt =====
-- backend/internal/handler/gateway.go and failure_scope.go: what one forwarded attempt comes to, the
-- classes of HTTP failures, and what a failure does to the picker that has no circuit breaker.
use simple_up_manage.Prelude.{
  ℕ, String, Bool, true, false, not, ◌&&◌, ◌||◌, Option, none, some, ltb, leb, ◌==◌, if◌then◌else◌,
  str_eq, [], ◌∷◌,
}
use simple_up_manage.Domain.Provider.{TextLib, contains}
use simple_up_manage.Domain.Routing.{seconds, failure_first_token_timeout}
use simple_up_manage.Circuit.Admission.{Admission}
use simple_up_manage.Circuit.Observe.{Outcome}
use simple_up_manage.Gateway.Errors.{Envelope, parse_error, kind}

-- forwardOutcome. A scope of failure is "key", "key_model", "provider", or "" for none.
pub record ForwardOutcome : Type 0 where
  pub neutral : Bool
  pub retry_after : ℕ
  pub valid_success : Bool
  pub response_id : String
  pub ok : Bool
  pub fail_over : Bool
  pub retry_same : Bool
  pub low_balance : Bool
  pub capacity_busy : Bool
  pub status : ℕ
  pub scope : String
  pub action : String
  pub msg : String

abbrev pub no_outcome : ForwardOutcome
no_outcome = record {
  neutral = false;
  retry_after = 0;
  valid_success = false;
  response_id = "";
  ok = false;
  fail_over = false;
  retry_same = false;
  low_balance = false;
  capacity_busy = false;
  status = 0;
  scope = "";
  action = "";
  msg = "";
}

-- What the libraries read from an error body: `envelope` for ParseError, `codes` the code and the
-- type that isQuotaExhaustedBody decodes, none where that fails.
pub record Body : Type 0 where
  pub envelope : Option Envelope
  pub codes : Option (String × String)

module _ (lib : TextLib) (equal_fold : String → String → Bool) where
  abbrev pub body_kind : Body → String
  body_kind b = kind lib equal_fold (parse_error b.envelope)

  -- isQuotaExhaustedBody.
  unfoldable pub is_quota_exhausted_body : Body → Bool
  is_quota_exhausted_body b =
      let known =
        "insufficient_user_quota" ∷ "pre_consume_token_quota_failed" ∷ "insufficient_quota" ∷ [] in
      str_eq (body_kind b) "quota"
      || elim b.codes [ none ↦ false | some c ↦ contains known c.0 || contains known c.1 ]

  -- unsupportedCapability.
  unfoldable pub unsupported_capability : Body → Bool
  unsupported_capability b = str_eq (body_kind b) "capability"

  -- authenticationFailure.
  unfoldable pub authentication_failure : Body → Bool
  authentication_failure b =
      str_eq (body_kind b) "authentication" || str_eq (body_kind b) "credential_disabled"

  -- classifyHTTPFailure.
  unfoldable pub classify_http_failure : ℕ → Body → ForwardOutcome
  classify_http_failure code b =
      let failing = record no_outcome { fail_over = true; status = code } in
      if (code == 401 || code == 403) && str_eq (body_kind b) "credential_disabled"
      then record failing {
        scope = "key";
        action = "credential_disabled";
        retry_after = seconds 3600;
      }
      else if code == 402 || code == 403 && is_quota_exhausted_body b
      then record failing {
        scope = "key";
        action = "key_quota_exhausted";
        retry_after = seconds 900;
      }
      else if code == 401 || code == 403 && authentication_failure b
      then record failing { scope = "key"; action = "cooldown_key" }
      else if code == 429 && is_quota_exhausted_body b
      then record failing { scope = "key_model"; action = "quota_rate_limited" }
      else if code == 429
      then record failing { scope = "key_model"; action = "cooldown_key_model" }
      else if (code == 400 || code == 404 || code == 503) && unsupported_capability b
      then record failing {
        scope = "key_model";
        action = "capability_unsupported";
        retry_after = seconds 900;
      }
      else if code == 403 || code == 404 || code == 529 || leb 500 code
      then record failing {
        scope = "key_model";
        action = "request_scope_failure";
        retry_same = leb 500 code;
      }
      else record no_outcome {
        status = code;
        neutral = leb 400 code && ltb code 500;
        action = "request_rejected";
      }

  -- shouldFailoverStatus: a nil body is no JSON.
  unfoldable pub should_failover_status : ℕ → Bool
  should_failover_status code =
      (classify_http_failure code (record { envelope = none; codes = none })).fail_over

-- isTransientFailureAction.
unfoldable pub is_transient_failure_action : String → Bool
is_transient_failure_action action =
    contains (failure_first_token_timeout ∷ "transport_failure" ∷ "upstream_timeout" ∷ []) action

-- proxyTimeoutMessage: the error's text, if there is an error, and whether isTimeoutErr holds of it.
unfoldable pub proxy_timeout_message : Option String → Bool → Bool → String
proxy_timeout_message none timeout first_token = "upstream request failed"
proxy_timeout_message (some text) timeout first_token =
    if first_token && timeout
    then "first token timeout"
    else if timeout
    then "upstream timeout"
    else text

-- What applyFailure asks of the picker.
pub data Cooling : Type 0 where
  low_balance_key : ℕ → Cooling
  cooldown_key : ℕ → Cooling
  cooldown_provider : ℕ → String → Cooling
  cooldown_key_model : ℕ → String → String → ℕ → Cooling
  nothing : Cooling

-- applyFailure, for a picker, a key and a provider that are there; `runtime` is whether the picker
-- is a RuntimeController.
unfoldable pub apply_failure : Bool → ℕ → ℕ → String → ForwardOutcome → Cooling
apply_failure runtime key_id up_id model o =
    if o.low_balance
    then low_balance_key key_id
    else if not runtime
    then (if str_eq o.scope "key" then cooldown_key key_id else nothing)
    else if str_eq o.scope "provider"
    then cooldown_provider up_id o.msg
    else if str_eq o.scope "key_model"
    then cooldown_key_model key_id model o.msg o.status
    else if str_eq o.scope "key"
    then cooldown_key key_id
    else nothing

-- finishRouting: what the circuit breaker is told of an outcome. `gone` is whether the client's
-- context has ended.
unfoldable pub routing_outcome : Admission → String → ℕ → Bool → ForwardOutcome → Outcome
routing_outcome admission request_id started_at gone o = record {
  admission = some admission;
  request_id = request_id;
  started_at = started_at;
  success = o.valid_success;
  neutral =
      o.capacity_busy
      || o.neutral
      || not o.valid_success && gone
      || not o.valid_success && str_eq o.action "";
  auth_failure = str_eq o.scope "key";
  limited = o.status == 429;
  immediate = str_eq o.action "capability_unsupported";
  retry_after = o.retry_after;
  reason = o.action;
}
