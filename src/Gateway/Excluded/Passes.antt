-- ===== src/Gateway/Excluded/Passes.antt =====
-- backend/internal/handler/gateway.go: excluded keys stay excluded and are not sent to.
use simple_up_manage.Prelude.{
  ℕ, ◌≡◌, refl, String, true, false, Option, none, some, List, [], ◌∷◌, ltb, ◌==◌, arith, All,
  Bool-cases, if_pred, inl, inr, count_if-append,
}
use simple_up_manage.Circuit.Admission.{Admission}
use simple_up_manage.Gateway.Outcome.{ForwardOutcome}
use simple_up_manage.Gateway.Rounds.{
  Plan, Loop, Picked, chosen, no_upstream, pick_error, Round, Admitting, admitted, unavailable,
  broken, Event, Ending, Turn, again, done,
}
use simple_up_manage.Gateway.Failover.{
  after_failure, tries_of, try_key, on_admission, on_pick, follow, pass, without_upstream,
  may_resort, not_admitted, proxy_loop,
}
use simple_up_manage.Gateway.Returns.{IsHonest, settle_tried-again}
use simple_up_manage.Gateway.Excluded.{
  sends_to, is_send_to, is_excluded, exclude-keeps, try_key-sends_to, excluded_apart,
}

-- After a pass: the last resort stays spent and the excluded keys stay excluded, unless the pass is
-- the last resort itself.
abbrev pub Keeps : ℕ → Loop → Turn → Type 0
Keeps k l (done ending) = Unit
Keeps k l (again next) =
    l.last_resort ≡ true
    → (next.last_resort ≡ true)
      × (is_excluded k l.excluded ≡ true → is_excluded k next.excluded ≡ true)

after_failure-Keeps :
    (plan : Plan) (round : Round) (key up k : ℕ) (l next : Loop) (o : ForwardOutcome)
    → after_failure plan round key up l o ≡ again next
    → Keeps k l (again next)
unfolding after_failure
after_failure-Keeps plan round key up k l next o e r =
    (ground arith, λ h. ground (arith, exclude-keeps o key up k l.excluded h))

try_key-Keeps :
    (plan : Plan) (round : Round) (key up k : ℕ) (reason : String) (l : Loop)
    → (a : Option Admission) (t : Turn) → (try_key plan round key up reason l a).1 ≡ t
    → Keeps k l t
unfolding try_key
try_key-Keeps plan round key up k reason l a (done ending) e = tt
try_key-Keeps plan round key up k reason l a (again next) e =
    let (o, f) =
      settle_tried-again plan round key up l next a (tries_of plan round key reason l).1 e in
    after_failure-Keeps plan round key up k l next o f

not_admitted-Keeps :
    (round : Round) (k : ℕ) (l : Loop) (t : Turn) → (not_admitted round l).1 ≡ t → Keeps k l t
unfolding not_admitted
not_admitted-Keeps round k l (done ending) e = tt
not_admitted-Keeps round k l (again next) e = λ r. (ground arith, λ h. ground arith)

without_upstream-Keeps :
    (plan : Plan) (round : Round) (k : ℕ) (l : Loop) (t : Turn)
    → (without_upstream plan round l).1 ≡ t
    → Keeps k l t
unfolding without_upstream may_resort
without_upstream-Keeps plan round k l (done ending) e = tt
without_upstream-Keeps plan round k l (again next) e = λ r. (ground arith, λ h. ground arith)

on_admission-Keeps :
    (plan : Plan) (round : Round) (key up k : ℕ) (reason : String) (l : Loop) (a : Admitting)
    → Keeps k l (on_admission plan round key up reason l a).1
on_admission-Keeps plan round key up k reason l (admitted a) =
    try_key-Keeps plan round key up k reason l (some a) _ refl
on_admission-Keeps plan round key up k reason l unavailable = not_admitted-Keeps round k l _ refl
on_admission-Keeps plan round key up k reason l broken = tt

pub on_pick-Keeps :
    (plan : Plan) (round : Round) (k : ℕ) (l : Loop) (p : Picked)
    → Keeps k l (on_pick plan round l p).1
on_pick-Keeps plan round k l (chosen key up reason) =
    if_pred {A = List Event × Turn} (λ r. Keeps k l r.1) plan.controlled
      (on_admission-Keeps plan round key up k reason l round.admission)
      (try_key-Keeps plan round key up k reason l none _ refl)
on_pick-Keeps plan round k l no_upstream = without_upstream-Keeps plan round k l _ refl
on_pick-Keeps plan round k l (pick_error msg) = tt

pub not_admitted-sends_to :
    (round : Round) (k : ℕ) (l : Loop) → sends_to k (not_admitted round l).0 ≡ 0
unfolding not_admitted
not_admitted-sends_to round k l = ground arith

pub without_upstream-sends_to :
    (plan : Plan) (round : Round) (k : ℕ) (l : Loop)
    → sends_to k (without_upstream plan round l).0 ≡ 0
unfolding without_upstream
without_upstream-sends_to plan round k l = ground arith

pub on_admission-sends_to :
    (plan : Plan) (round : Round) (key up k : ℕ) (reason : String) (l : Loop) (a : Admitting)
    → key == k ≡ false
    → sends_to k (on_admission plan round key up reason l a).0 ≡ 0
on_admission-sends_to plan round key up k reason l (admitted a) h =
    try_key-sends_to plan round key up k reason l (some a) h
on_admission-sends_to plan round key up k reason l unavailable h = not_admitted-sends_to round k l
on_admission-sends_to plan round key up k reason l broken h = refl

pub on_pick-sends_to :
    (plan : Plan) (round : Round) (k : ℕ) (l : Loop) (p : Picked)
    → round.pick l.excluded l.allow ≡ p
    → IsHonest round
    → is_excluded k l.excluded ≡ true
    → sends_to k (on_pick plan round l p).0 ≡ 0
on_pick-sends_to plan round k l (chosen key up reason) q h x =
    let apart =
      (let r = h.respects l.excluded l.allow key up reason q in
        excluded_apart key k l.excluded x r.0 r.2) in
    if_pred {A = List Event × Turn} (λ r. sends_to k r.0 ≡ 0) plan.controlled
      (on_admission-sends_to plan round key up k reason l round.admission apart)
      (try_key-sends_to plan round key up k reason l none apart)
on_pick-sends_to plan round k l no_upstream q h x = without_upstream-sends_to plan round k l
on_pick-sends_to plan round k l (pick_error msg) q h x = refl

follow-sends_to :
    (f : Loop → List Event × Option Ending) (events : List Event) (t : Turn) (k : ℕ) (l : Loop)
    → sends_to k events ≡ 0
    → Keeps k l t
    → l.last_resort ≡ true
    → is_excluded k l.excluded ≡ true
    → ((next : Loop)
        → next.last_resort ≡ true
        → is_excluded k next.excluded ≡ true
        → sends_to k (f next).0 ≡ 0)
    → sends_to k (follow f events t).0 ≡ 0
follow-sends_to f events (done ending) k l z s r h n = z
follow-sends_to f events (again next) k l z s r h n =
    ground (arith, count_if-append (is_send_to k) events (f next).0, n next (s r).0 ((s r).1 h))

pub proxy_loop-sends_to :
    (plan : Plan) (rounds : List Round) (l : Loop) (k : ℕ)
    → All IsHonest rounds
    → l.last_resort ≡ true
    → is_excluded k l.excluded ≡ true
    → sends_to k (proxy_loop plan rounds l).0 ≡ 0
unfolding proxy_loop pass
proxy_loop-sends_to plan [] l k h r x = refl
proxy_loop-sends_to plan (round ∷ rounds) l k h r x =
    elim (Bool-cases (ltb l.attempt plan.attempts)) [
      | inr e ↦ rw e refl
      | inl e ↦ rw e (
          follow-sends_to (proxy_loop plan rounds) (pass plan round l).0 (pass plan round l).1 k l
            (on_pick-sends_to plan round k l (round.pick l.excluded l.allow) refl h.0 x)
            (on_pick-Keeps plan round k l (round.pick l.excluded l.allow)) r x
            (λ next s y. proxy_loop-sends_to plan rounds next k h.1 s y))
    ]
