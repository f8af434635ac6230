-- ===== src/Gateway/Rounds.antt =====
-- backend/internal/handler/gateway.go: the settings of Gateway.proxy's failover loop, its variables,
-- what it does to the outside, and what the outside answers in one pass through its body. A reading
-- of the clock is the time since the request came in; passes answer for the calls that they make.
use simple_up_manage.Prelude.{ℕ, String, Bool, Option, none, some, List, []}
use simple_up_manage.Circuit.Admission.{Admission}
use simple_up_manage.Circuit.Observe.{Outcome}
use simple_up_manage.Gateway.Outcome.{ForwardOutcome, Cooling}

-- The loop's constants. `controlled` is whether the picker is a CircuitController, `runtime` whether
-- it is a RuntimeController.
pub record Plan : Type 0 where
  pub attempts : ℕ
  pub retries : ℕ
  pub failover_wait : ℕ
  pub bound : Bool
  pub controlled : Bool
  pub runtime : Bool
  pub model : String
  pub request_id : String

pub record Exclusions : Type 0 where
  pub keys : List ℕ
  pub providers : List ℕ
  pub key_models : List ℕ

abbrev pub no_exclusions : Exclusions
no_exclusions = record { keys = []; providers = []; key_models = [] }

-- The variables that a pass hands to the next one. An `allow` of nil is none.
-- `written` is whether the response has been begun.
pub record Loop : Type 0 where
  pub attempt : ℕ
  pub excluded : Exclusions
  pub allow : Option (List ℕ)
  pub last_resort : Bool
  pub last_fail_action : String
  pub last_msg : String
  pub written : Bool

-- The members of the map; nil has none.
abbrev pub allowed : Option (List ℕ) → List ℕ
allowed none = []
allowed (some keys) = keys

-- pickWithRecoveryWait: a key, its provider and the decision's reason; ErrNoUpstream; another error.
pub data Picked : Type 0 where
  chosen : ℕ → ℕ → String → Picked
  no_upstream : Picked
  pick_error : String → Picked

-- AdmitRequest: an admission; ErrUnavailable; another error.
pub data Admitting : Type 0 where
  admitted : Admission → Admitting
  unavailable : Admitting
  broken : Admitting

pub record Round : Type 0 where
  pub pick : Exclusions → Option (List ℕ) → Picked
  -- waitState after the pick: timedOut, and whether its deadline is set and reached.
  pub timed_out : Bool
  pub wait_over : Bool
  pub picked_at : ℕ
  -- The client's context has ended when the pick fails.
  pub gone : Bool
  pub admission : Admitting
  pub admitted_at : ℕ
  -- sleepCtx before a new selection, and before the retry after the r-th try, comes to its end.
  pub may_reselect : Bool
  pub may_retry : ℕ → Bool
  pub started_at : ℕ
  pub forward : ℕ → ForwardOutcome
  -- The client's context has ended when the outcome is observed.
  pub gone_after : Bool
  pub begun : Bool

-- What the loop does to the outside, in order; `committed` is CommitSuccess, or SetSticky of a picker
-- without decisions.
pub data Event : Type 0 where
  no_route : Event
  selected : ℕ → String → Event
  admits : ℕ → Event
  -- A call of forwardOnce, which may return before it sends.
  forwarded : ℕ → ℕ → Event
  retried : String → Event
  switched : String → Event
  failed : String → Event
  observed : Outcome → Event
  committed : ℕ → String → Event
  cooled : Cooling → Event

-- How the request ends: the upstream's response was delivered; an error with its status, its
-- message and its code; status 499; nothing more is written.
pub data Ending : Type 0 where
  served : Ending
  answered : ℕ → String → String → Ending
  cancelled : Ending
  closed : Ending

-- The end of a pass.
pub data Turn : Type 0 where
  again : Loop → Turn
  done : Ending → Turn

-- The end of the retries on one key.
pub data Tried : Type 0 where
  delivered : ForwardOutcome → Tried
  interrupted : ForwardOutcome → Tried
  given_up : ForwardOutcome → Tried
