-- ===== src/Gateway/Admissions.antt =====
-- backend/internal/handler/gateway.go: what the failover loop tells the circuit breaker of every
-- admitted request.
use simple_up_manage.Prelude.{
  ℕ, zero, suc, ◌≡◌, refl, String, Bool, true, false, not, ◌&&◌, Option, some, List, [], ◌∷◌, ◌++◌,
  ltb, if◌then◌else◌, arith, str_eq, Bool-cases, inl, inr,
}
use simple_up_manage.Circuit.Admission.{Admission}
use simple_up_manage.Gateway.Rounds.{
  Plan, Loop, Picked, chosen, no_upstream, pick_error, Round, Admitting, admitted, unavailable,
  broken, Event, no_route, selected, admits, forwarded, retried, switched, failed, observed,
  committed, cooled, Ending, Turn, again, done, Tried, delivered, interrupted, given_up,
}
use simple_up_manage.Gateway.Failover.{
  forward_tries, settle_tried, tries_of, try_key, on_admission, on_pick, follow, pass,
  without_upstream, not_admitted, proxy_loop,
}

-- Whether an admission stands open behind some events, and they are in order: every admission comes
-- with none open, every send and every observation with one open, and an observation ends it. The
-- first argument is whether one is open before.
abbrev pub bracketed : Bool → List Event → Bool
bracketed is_open [] = not is_open
bracketed is_open (admits key ∷ events) = not is_open && bracketed true events
bracketed is_open (forwarded key wait ∷ events) = is_open && bracketed true events
bracketed is_open (observed o ∷ events) = is_open && bracketed false events
bracketed is_open (no_route ∷ events) = bracketed is_open events
bracketed is_open (selected key reason ∷ events) = bracketed is_open events
bracketed is_open (retried action ∷ events) = bracketed is_open events
bracketed is_open (switched action ∷ events) = bracketed is_open events
bracketed is_open (failed msg ∷ events) = bracketed is_open events
bracketed is_open (committed key id ∷ events) = bracketed is_open events
bracketed is_open (cooled c ∷ events) = bracketed is_open events

bracketed-append :
    (b : Bool) (xs ys : List Event)
    → bracketed b xs ≡ true
    → bracketed false ys ≡ true
    → bracketed b (xs ++ ys) ≡ true
bracketed-append true [] ys h k = ground arith
bracketed-append false [] ys h k = k
bracketed-append b (admits key ∷ xs) ys h k = ground (arith, bracketed-append true xs ys)
bracketed-append b (forwarded key wait ∷ xs) ys h k = ground (arith, bracketed-append true xs ys)
bracketed-append b (observed o ∷ xs) ys h k = ground (arith, bracketed-append false xs ys)
bracketed-append b (no_route ∷ xs) ys h k = bracketed-append b xs ys h k
bracketed-append b (selected key reason ∷ xs) ys h k = bracketed-append b xs ys h k
bracketed-append b (retried action ∷ xs) ys h k = bracketed-append b xs ys h k
bracketed-append b (switched action ∷ xs) ys h k = bracketed-append b xs ys h k
bracketed-append b (failed msg ∷ xs) ys h k = bracketed-append b xs ys h k
bracketed-append b (committed key id ∷ xs) ys h k = bracketed-append b xs ys h k
bracketed-append b (cooled c ∷ xs) ys h k = bracketed-append b xs ys h k

-- The tries on a key leave the admission open.
forward_tries-bracketed :
    (plan : Plan) (round : Round) (attempt key : ℕ) (v : Bool) (short r left : ℕ) (ys : List Event)
    → bracketed true ys ≡ true
    → bracketed true ((forward_tries plan round attempt key v short r left).0 ++ ys) ≡ true
unfolding forward_tries
forward_tries-bracketed plan round attempt key v short r zero ys h = ground arith
forward_tries-bracketed plan round attempt key v short r (suc left) ys h =
    ground (arith, forward_tries-bracketed plan round attempt key v short (suc r) left ys h)

settle_tried-bracketed :
    (plan : Plan) (round : Round) (key up : ℕ) (l : Loop) (a : Admission) (t : Tried)
    → bracketed true (settle_tried plan round key up l (some a) t).0 ≡ true
settle_tried-bracketed plan round key up l a (delivered o) = ground arith
settle_tried-bracketed plan round key up l a (interrupted o) = ground arith
settle_tried-bracketed plan round key up l a (given_up o) = ground arith

try_key-bracketed :
    (plan : Plan) (round : Round) (key up : ℕ) (reason : String) (l : Loop) (a : Admission)
    → bracketed true (try_key plan round key up reason l (some a)).0 ≡ true
unfolding try_key
try_key-bracketed plan round key up reason l a =
    forward_tries-bracketed plan round l.attempt key (str_eq reason "recovery_validation")
      (if ltb 0 l.attempt then plan.failover_wait else 0) 0 plan.retries _
      (settle_tried-bracketed plan round key up l a (tries_of plan round key reason l).1)

not_admitted-bracketed :
    (round : Round) (l : Loop) → bracketed false (not_admitted round l).0 ≡ true
unfolding not_admitted
not_admitted-bracketed round l = ground arith

without_upstream-bracketed :
    (plan : Plan) (round : Round) (l : Loop)
    → bracketed false (without_upstream plan round l).0 ≡ true
unfolding without_upstream
without_upstream-bracketed plan round l = ground arith

on_admission-bracketed :
    (plan : Plan) (round : Round) (key up : ℕ) (reason : String) (l : Loop) (a : Admitting)
    → bracketed false (on_admission plan round key up reason l a).0 ≡ true
on_admission-bracketed plan round key up reason l (admitted a) =
    try_key-bracketed plan round key up reason l a
on_admission-bracketed plan round key up reason l unavailable = not_admitted-bracketed round l
on_admission-bracketed plan round key up reason l broken = refl

on_pick-bracketed :
    (plan : Plan) (round : Round) (l : Loop) (p : Picked)
    → plan.controlled ≡ true
    → bracketed false (on_pick plan round l p).0 ≡ true
on_pick-bracketed plan round l (chosen key up reason) c =
    ground (arith, on_admission-bracketed plan round key up reason l round.admission)
on_pick-bracketed plan round l no_upstream c = without_upstream-bracketed plan round l
on_pick-bracketed plan round l (pick_error msg) c = refl

follow-bracketed :
    (f : Loop → List Event × Option Ending) (events : List Event) (t : Turn)
    → bracketed false events ≡ true
    → ((next : Loop) → bracketed false (f next).0 ≡ true)
    → bracketed false (follow f events t).0 ≡ true
follow-bracketed f events (done ending) e h = e
follow-bracketed f events (again next) e h = bracketed-append false events (f next).0 e (h next)

-- With a circuit breaker, a request is sent upstream only while an admission is open, and every
-- admission is closed by exactly one observation before the next one and before the loop ends.
pub proxy_loop-bracketed :
    (plan : Plan) (rounds : List Round) (l : Loop)
    → plan.controlled ≡ true
    → bracketed false (proxy_loop plan rounds l).0 ≡ true
unfolding proxy_loop pass
proxy_loop-bracketed plan [] l c = refl
proxy_loop-bracketed plan (round ∷ rounds) l c = elim (Bool-cases (ltb l.attempt plan.attempts)) [
  | inr e ↦ rw e refl
  | inl e ↦ rw e (
      follow-bracketed (proxy_loop plan rounds) (pass plan round l).0 (pass plan round l).1
        (on_pick-bracketed plan round l (round.pick l.excluded l.allow) c)
        (λ next. proxy_loop-bracketed plan rounds next c))
]
