-- ===== src/Gateway/Excluded.antt =====
-- backend/internal/handler/gateway.go and backend/internal/picker: keys that a request has given up.
pub mod Passes
pub mod Drops
use simple_up_manage.Prelude.{
  ℕ, zero, suc, ◌+◌, ◌<◌, ◌≡◌, ◌⊎◌, refl, String, Bool, true, false, ◌||◌, Option, none, some, List,
  [], ◌∷◌, ◌++◌, is_empty, ltb, ◌==◌, if◌then◌else◌, arith, All, str_eq, Bool-cases, if_pred,
  ==_iff, inl, inr, count_if, count_if-append,
}
use simple_up_manage.Circuit.Admission.{Admission}
use simple_up_manage.Picker.Candidates.{has}
use simple_up_manage.Routes.Allowed.{has-append}
use simple_up_manage.Gateway.Outcome.{ForwardOutcome}
use simple_up_manage.Gateway.Rounds.{
  Plan, Exclusions, Loop, Picked, chosen, no_upstream, pick_error, Round, Admitting, admitted,
  unavailable, broken, Event, no_route, selected, admits, forwarded, retried, switched, failed,
  observed, committed, cooled, Ending, Turn, again, done, Tried, delivered, interrupted, given_up,
}
use simple_up_manage.Gateway.Failover.{
  exclude, after_failure, forward_tries, settle_tried, tries_of, try_key, on_admission, on_pick,
  follow, pass, without_upstream, may_resort, not_admitted, proxy_loop,
}
use simple_up_manage.Gateway.Returns.{IsHonest, settle_tried-again}

abbrev pub is_send_to : ℕ → Event → Bool
is_send_to k no_route = false
is_send_to k (selected key reason) = false
is_send_to k (admits key) = false
is_send_to k (forwarded key wait) = key == k
is_send_to k (retried action) = false
is_send_to k (switched action) = false
is_send_to k (failed msg) = false
is_send_to k (observed o) = false
is_send_to k (committed key id) = false
is_send_to k (cooled c) = false

abbrev pub sends_to : ℕ → List Event → ℕ
sends_to k events = count_if (is_send_to k) events

abbrev pub is_excluded : ℕ → Exclusions → Bool
is_excluded k ex = has k ex.keys || has k ex.key_models

-- Every failure of the pass is the key's own: of the key, or of the key with this model.
abbrev pub IsKeyScoped : Round → Type 0
IsKeyScoped round =
    (r : ℕ) → ((round.forward r).scope ≡ "key") ⊎ ((round.forward r).scope ≡ "key_model")

has_self : (k : ℕ) → has k (k ∷ []) ≡ true
unfolding has
has_self k = ground arith

-- Exclusions stay.
pub exclude-keeps :
    (o : ForwardOutcome) (key up k : ℕ) (ex : Exclusions)
    → is_excluded k ex ≡ true
    → is_excluded k (exclude o key up ex) ≡ true
unfolding exclude
exclude-keeps o key up k ex h =
    ground (arith, has-append k ex.keys (key ∷ []), has-append k ex.key_models (key ∷ []))

pub exclude-adds :
    (o : ForwardOutcome) (key up : ℕ) (ex : Exclusions)
    → (o.scope ≡ "key") ⊎ (o.scope ≡ "key_model")
    → is_excluded key (exclude o key up ex) ≡ true
unfolding exclude
exclude-adds o key up ex (inl h) =
    rw h (ground (arith, has-append key ex.keys (key ∷ []), has_self key))
exclude-adds o key up ex (inr h) =
    rw h (ground (arith, has-append key ex.key_models (key ∷ []), has_self key))

forward_tries-sends_to :
    (plan : Plan) (round : Round) (attempt key : ℕ) (v : Bool) (short r left k : ℕ)
    → key == k ≡ false
    → sends_to k (forward_tries plan round attempt key v short r left).0 ≡ 0
unfolding forward_tries
forward_tries-sends_to plan round attempt key v short r zero k h = ground arith
forward_tries-sends_to plan round attempt key v short r (suc left) k h =
    ground (arith, forward_tries-sends_to plan round attempt key v short (suc r) left k h)

settle_tried-sends_to :
    (plan : Plan) (round : Round) (key up k : ℕ) (l : Loop) (a : Option Admission) (t : Tried)
    → sends_to k (settle_tried plan round key up l a t).0 ≡ 0
settle_tried-sends_to plan round key up k l none (delivered o) = ground arith
settle_tried-sends_to plan round key up k l (some a) (delivered o) = ground arith
settle_tried-sends_to plan round key up k l none (interrupted o) = ground arith
settle_tried-sends_to plan round key up k l (some a) (interrupted o) = ground arith
settle_tried-sends_to plan round key up k l none (given_up o) = ground arith
settle_tried-sends_to plan round key up k l (some a) (given_up o) = ground arith

-- A pass that chooses another key does not send to this one.
pub try_key-sends_to :
    (plan : Plan) (round : Round) (key up k : ℕ) (reason : String) (l : Loop)
    → (a : Option Admission) → key == k ≡ false
    → sends_to k (try_key plan round key up reason l a).0 ≡ 0
unfolding try_key
try_key-sends_to plan round key up k reason l a h =
    let tries : List Event × Tried = tries_of plan round key reason l in
    let settled : List Event × Turn = settle_tried plan round key up l a tries.1 in
    let apart = count_if-append (is_send_to k) tries.0 settled.0 in
    ground (
      arith,
      apart,
      settle_tried-sends_to plan round key up k l a tries.1,
      forward_tries-sends_to plan round l.attempt key (str_eq reason "recovery_validation")
          (if ltb 0 l.attempt then plan.failover_wait else 0) 0 plan.retries k h,
    )

-- The outcome that the retries give up with has the scope of one of the tries.
pub forward_tries-scope :
    (plan : Plan) (round : Round) (attempt key : ℕ) (v : Bool) (short r left : ℕ)
    → (o : ForwardOutcome) → IsKeyScoped round
    → (forward_tries plan round attempt key v short r left).1 ≡ given_up o
    → (o.scope ≡ "key") ⊎ (o.scope ≡ "key_model")
unfolding forward_tries
forward_tries-scope plan round attempt key v short r zero o h e = ground (arith, h r)
forward_tries-scope plan round attempt key v short r (suc left) o h e =
    ground (arith, h r, forward_tries-scope plan round attempt key v short (suc r) left o h)

-- A key that is not excluded is not the excluded one.
pub excluded_apart :
    (key k : ℕ) (ex : Exclusions)
    → is_excluded k ex ≡ true
    → has key ex.keys ≡ false
    → has key ex.key_models ≡ false
    → key == k ≡ false
excluded_apart key k ex x p q = elim (Bool-cases (key == k)) [
  | inr e ↦ e
  | inl e ↦ (let same : key ≡ k = (==_iff key k).0 e in ground (arith, same, x, p, q))
]
