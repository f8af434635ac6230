-- ===== src/Gateway/Sends.antt =====
-- backend/internal/handler/gateway.go: how often the failover loop sends a request upstream.
use native.Mathlib.Nat.{mul-le-mul_left}
use simple_up_manage.Prelude.{
  ℕ, zero, suc, ◌+◌, ◌-◌, ◌*◌, ◌≤◌, ◌<◌, ◌≡◌, ◌⊎◌, refl, String, Bool, true, false, Option, none,
  some, List, [], ◌∷◌, ◌++◌, length, is_empty, ltb, if◌then◌else◌, arith, All, count_if,
  count_if-append, str_eq, Bool-cases, if_pred, ltb→lt, inl, inr,
}
use simple_up_manage.Circuit.Admission.{Admission}
use simple_up_manage.Picker.Candidates.{has}
use simple_up_manage.Gateway.Outcome.{ForwardOutcome}
use simple_up_manage.Gateway.Rounds.{
  Plan, Loop, allowed, Picked, chosen, no_upstream, pick_error, Round, Admitting, admitted,
  unavailable, broken, Event, no_route, selected, admits, forwarded, retried, switched, failed,
  observed, committed, cooled, Ending, Turn, again, done, Tried, delivered, interrupted, given_up,
}
use simple_up_manage.Gateway.Failover.{
  after_failure, forward_tries, settle_tried, tries_of, try_key, on_admission, on_pick, follow,
  pass, without_upstream, not_admitted, proxy_loop,
}
use simple_up_manage.Gateway.Returns.{
  IsHonest, allowed-delete, chosen_allowed, length-delete, is_empty-delete, settle_tried-again,
}

abbrev pub is_send : Event → Bool
is_send no_route = false
is_send (selected key reason) = false
is_send (admits key) = false
is_send (forwarded key wait) = true
is_send (retried action) = false
is_send (switched action) = false
is_send (failed msg) = false
is_send (observed o) = false
is_send (committed key id) = false
is_send (cooled c) = false

abbrev pub sends : List Event → ℕ
sends events = count_if is_send events

-- The passes that may still send: one for every attempt left and every allowed key.
abbrev pub sending_passes : Plan → Loop → ℕ
sending_passes plan l = plan.attempts - l.attempt + length (allowed l.allow)

pub forward_tries-sends :
    (plan : Plan) (round : Round) (attempt key : ℕ) (v : Bool) (short r left : ℕ)
    → (1 ≤ sends (forward_tries plan round attempt key v short r left).0)
      × (sends (forward_tries plan round attempt key v short r left).0 ≤ suc left)
unfolding forward_tries
forward_tries-sends plan round attempt key v short r zero = ground arith
forward_tries-sends plan round attempt key v short r (suc left) =
    ground (arith, forward_tries-sends plan round attempt key v short (suc r) left)

settle_tried-sends :
    (plan : Plan) (round : Round) (key up : ℕ) (l : Loop) (a : Option Admission) (t : Tried)
    → sends (settle_tried plan round key up l a t).0 ≡ 0
settle_tried-sends plan round key up l none (delivered o) = ground arith
settle_tried-sends plan round key up l (some a) (delivered o) = ground arith
settle_tried-sends plan round key up l none (interrupted o) = ground arith
settle_tried-sends plan round key up l (some a) (interrupted o) = ground arith
settle_tried-sends plan round key up l none (given_up o) = ground arith
settle_tried-sends plan round key up l (some a) (given_up o) = ground arith

sends-append :
    (n : ℕ) (xs ys : List Event)
    → sends ys ≡ 0
    → (1 ≤ sends xs) × (sends xs ≤ n)
    → (1 ≤ sends (xs ++ ys)) × (sends (xs ++ ys) ≤ n)
sends-append n xs ys e h = ground (arith, count_if-append is_send xs ys)

-- One key is sent the request at least once and at most once more than there are retries.
pub try_key-sends :
    (plan : Plan) (round : Round) (key up : ℕ) (reason : String) (l : Loop) (a : Option Admission)
    → (1 ≤ sends (try_key plan round key up reason l a).0)
      × (sends (try_key plan round key up reason l a).0 ≤ suc plan.retries)
unfolding try_key
try_key-sends plan round key up reason l a =
    let tries = tries_of plan round key reason l in
    sends-append (suc plan.retries) tries.0 (settle_tried plan round key up l a tries.1).0
      (settle_tried-sends plan round key up l a tries.1)
      (forward_tries-sends plan round l.attempt key (str_eq reason "recovery_validation")
        (if ltb 0 l.attempt then plan.failover_wait else 0) 0 plan.retries)

after_failure-sending_passes :
    (plan : Plan) (round : Round) (key up : ℕ) (l next : Loop) (o : ForwardOutcome)
    → after_failure plan round key up l o ≡ again next
    → l.attempt < plan.attempts
    → (is_empty (allowed l.allow) ≡ false → has key (allowed l.allow) ≡ true)
    → sending_passes plan next < sending_passes plan l
unfolding after_failure
after_failure-sending_passes plan round key up l next o e b h = ground (
  arith,
  allowed-delete key l.allow,
  is_empty-delete key (allowed l.allow),
  length-delete key (allowed l.allow),
)

-- A pass that sends n requests and may be followed by passes that send `left` each.
abbrev Spends : Plan → Loop → ℕ → Turn → Type 0
Spends plan l n (done ending) = n ≤ suc plan.retries
Spends plan l n (again next) =
    ((n ≡ 0) × (sending_passes plan next ≤ sending_passes plan l))
    ⊎ ((n ≤ suc plan.retries) × (sending_passes plan next < sending_passes plan l))

try_key-Spends :
    (plan : Plan) (round : Round) (key up : ℕ) (reason : String) (l : Loop) (a : Option Admission)
    → l.attempt < plan.attempts
    → (is_empty (allowed l.allow) ≡ false → has key (allowed l.allow) ≡ true)
    → (t : Turn) → (try_key plan round key up reason l a).1 ≡ t
    → Spends plan l (sends (try_key plan round key up reason l a).0) t
unfolding try_key
try_key-Spends plan round key up reason l a b h (done ending) e =
    (try_key-sends plan round key up reason l a).1
try_key-Spends plan round key up reason l a b h (again next) e =
    let (o, f) = settle_tried-again plan round key up l next a _ e in
    inr (
      (try_key-sends plan round key up reason l a).1,
      after_failure-sending_passes plan round key up l next o f b h,
    )

not_admitted-Spends :
    (plan : Plan) (round : Round) (l : Loop) (t : Turn)
    → (not_admitted round l).1 ≡ t
    → Spends plan l (sends (not_admitted round l).0) t
unfolding not_admitted
not_admitted-Spends plan round l (done ending) e = ground arith
not_admitted-Spends plan round l (again next) e = ground arith

without_upstream-Spends :
    (plan : Plan) (round : Round) (l : Loop) (t : Turn)
    → (without_upstream plan round l).1 ≡ t
    → Spends plan l (sends (without_upstream plan round l).0) t
unfolding without_upstream
without_upstream-Spends plan round l (done ending) e = ground arith
without_upstream-Spends plan round l (again next) e = ground arith

on_admission-Spends :
    (plan : Plan) (round : Round) (key up : ℕ) (reason : String) (l : Loop) (a : Admitting)
    → l.attempt < plan.attempts
    → (is_empty (allowed l.allow) ≡ false → has key (allowed l.allow) ≡ true)
    → let r = on_admission plan round key up reason l a in Spends plan l (sends r.0) r.1
on_admission-Spends plan round key up reason l (admitted a) b h =
    try_key-Spends plan round key up reason l (some a) b h _ refl
on_admission-Spends plan round key up reason l unavailable b h =
    not_admitted-Spends plan round l _ refl
on_admission-Spends plan round key up reason l broken b h = ground arith

on_pick-Spends :
    (plan : Plan) (round : Round) (l : Loop) (p : Picked)
    → round.pick l.excluded l.allow ≡ p
    → l.attempt < plan.attempts
    → IsHonest round
    → Spends plan l (sends (on_pick plan round l p).0) (on_pick plan round l p).1
on_pick-Spends plan round l (chosen key up reason) q b h =
    let permitted = chosen_allowed key l.allow (h.respects l.excluded l.allow key up reason q).3 in
    if_pred {A = List Event × Turn} (λ r. Spends plan l (sends r.0) r.1) plan.controlled
      (on_admission-Spends plan round key up reason l round.admission b permitted)
      (try_key-Spends plan round key up reason l none b permitted _ refl)
on_pick-Spends plan round l no_upstream q b h = without_upstream-Spends plan round l _ refl
on_pick-Spends plan round l (pick_error msg) q b h = ground arith

mul_gap : (s a b : ℕ) → a < b → s + s * a ≤ s * b
mul_gap zero a b h = ground arith
mul_gap (suc s) a b h = ground (arith, mul_gap s a b h)

follow-sends :
    (plan : Plan) (l : Loop) (f : Loop → List Event × Option Ending) (events : List Event)
    (t : Turn)
    → Spends plan l (sends events) t
    → l.attempt < plan.attempts
    → ((next : Loop) → sends (f next).0 ≤ suc plan.retries * sending_passes plan next)
    → sends (follow f events t).0 ≤ suc plan.retries * sending_passes plan l
follow-sends plan l f events (done ending) s b h =
    ground (arith, mul_gap (suc plan.retries) 0 (sending_passes plan l))
follow-sends plan l f events (again next) (inl s) b h = ground (
  arith,
  h next,
  count_if-append is_send events (f next).0,
  mul-le-mul_left {m = sending_passes plan next} {n = sending_passes plan l} (suc plan.retries),
)
follow-sends plan l f events (again next) (inr s) b h = ground (
  arith,
  h next,
  count_if-append is_send events (f next).0,
  mul_gap (suc plan.retries) (sending_passes plan next) (sending_passes plan l),
)

-- A request is sent upstream at most once and one time for each retry per attempt left and per
-- allowed key, whatever fails, where every pass chooses a key that is allowed and not excluded; the
-- last resort sends no more.
pub proxy_loop-sends :
    (plan : Plan) (rounds : List Round) (l : Loop)
    → All IsHonest rounds
    → sends (proxy_loop plan rounds l).0 ≤ suc plan.retries * sending_passes plan l
unfolding proxy_loop pass
proxy_loop-sends plan [] l h = ground arith
proxy_loop-sends plan (round ∷ rounds) l h = elim (Bool-cases (ltb l.attempt plan.attempts)) [
  | inr e ↦ rw e (ground arith)
  | inl e ↦
      let less = ltb→lt l.attempt plan.attempts e in
      rw e (
        follow-sends plan l (proxy_loop plan rounds) _ _
          (on_pick-Spends plan round l _ refl less h.0) less
          (λ next. proxy_loop-sends plan rounds next h.1))
]
