-- ===== src/Gateway/Errors.antt =====
-- backend/internal/upstream/errors.go: what a provider's error answer says. What encoding/json
-- reads from the body is an argument, and so are the parsers of Retry-After.
use simple_up_manage.Prelude.{
  ℕ, ◌-◌, String, Bool, not, ◌&&◌, ◌||◌, Option, none, some, List, [], ◌∷◌, min, ltb, if◌then◌else◌,
  str_eq,
}
use simple_up_manage.Prelude.Text.{trim_space}
use simple_up_manage.Domain.Provider.{TextLib, contains}
use simple_up_manage.Domain.Routing.{seconds}

pub record ErrorInfo : Type 0 where
  pub code : String
  pub kind_name : String
  pub message : String

-- A nested raw message: missing or null, an object with readable fields, or something else.
pub data Nested : Type 0 where
  absent : Nested
  fields : ErrorInfo → Nested
  mistyped : Nested

-- The envelope, its code read as a text ("" when it is not one).
pub record Envelope : Type 0 where
  pub top : ErrorInfo
  pub error : Nested
  pub response_error : Nested

-- The loop over the nested messages, which the first readable one ends.
unfoldable pub first_fields : List Nested → ErrorInfo → ErrorInfo
first_fields [] info = info
first_fields (absent ∷ rest) info = first_fields rest info
first_fields (mistyped ∷ rest) info = first_fields rest info
first_fields (fields nested ∷ rest) info = nested

abbrev pub no_error : ErrorInfo
no_error = record { code = ""; kind_name = ""; message = "" }

-- ParseError: none is a body that is not such an object.
unfoldable pub parse_error : Option Envelope → ErrorInfo
parse_error none = no_error
parse_error (some envelope) =
    first_fields (envelope.error ∷ envelope.response_error ∷ []) envelope.top

-- The switch of Kind on one value, already trimmed and in lower case; "" is no case.
unfoldable pub kind_of : String → String
kind_of value =
    if contains ("api_key_disabled" ∷ "group_deleted" ∷ "key_disabled" ∷ "account_deactivated" ∷ [])
      value
    then "credential_disabled"
    else if contains
        ("invalid_api_key" ∷ "authentication_error" ∷ "invalid_token" ∷ "token_expired" ∷ []) value
    then "authentication"
    else if contains
        ("insufficient_quota" ∷ "insufficient_user_quota" ∷ "pre_consume_token_quota_failed"
          ∷ "quota_exceeded" ∷ "insufficient_balance" ∷ "credit_balance_exhausted"
          ∷ "usage_limit_reached" ∷ [])
        value
    then "quota"
    else if contains
        ("model_not_found" ∷ "model_not_supported" ∷ "unsupported_model" ∷ "unsupported_endpoint"
          ∷ [])
        value
    then "capability"
    else if contains ("rate_limit_error" ∷ "rate_limit_exceeded" ∷ "gateway_queue_full" ∷ []) value
    then "rate_limit"
    else ""

-- ErrorInfo.Kind, with strings.EqualFold.
unfoldable pub kind : TextLib → (String → String → Bool) → ErrorInfo → String
unfolding trim_space
kind lib equal_fold e =
    let by_code = kind_of (lib.to_lower (trim_space e.code)) in
    let by_type = kind_of (lib.to_lower (trim_space e.kind_name)) in
    let text = lib.to_lower (trim_space e.message) in
    if not (str_eq by_code "")
    then by_code
    else if not (str_eq by_type "")
    then by_type
    else if equal_fold e.kind_name "billing_error"
        && (str_eq text "insufficient balance" || str_eq text "insufficient account balance")
    then "quota"
    else ""

-- RetryAfter: `parse_int` is strconv.ParseInt of the trimmed text where that is a positive number,
-- and `parse_time` is http.ParseTime.
unfoldable pub retry_after : (parse_int parse_time : String → Option ℕ) → String → ℕ → ℕ
retry_after parse_int parse_time value now =
    let by_date : ℕ = elim (parse_time value) [
      | none ↦ 0
      | some at ↦ if ltb now at then min (at - now) (seconds 86400) else 0
    ] in
    elim (parse_int (trim_space value)) [ none ↦ by_date | some n ↦ seconds (min n 86400) ]
