-- ===== src/Gateway/Excluded/Drops.antt =====
-- backend/internal/handler/gateway.go: a key that the request has given up is not sent to again.
use simple_up_manage.Prelude.{
  ℕ, ◌<◌, ◌≡◌, ◌⊎◌, refl, String, true, Option, none, some, List, ltb, ◌==◌, if◌then◌else◌, arith,
  All, str_eq, Bool-cases, if_pred, ==_iff, subst, inl, inr,
}
use simple_up_manage.Circuit.Admission.{Admission}
use simple_up_manage.Gateway.Outcome.{ForwardOutcome}
use simple_up_manage.Gateway.Rounds.{
  Plan, Loop, Picked, chosen, no_upstream, pick_error, Round, Admitting, admitted, unavailable,
  broken, Event, Turn, again, done, Tried, delivered, interrupted, given_up,
}
use simple_up_manage.Gateway.Failover.{
  after_failure, settle_tried, tries_of, try_key, on_admission, on_pick, pass, without_upstream,
  not_admitted, proxy_loop,
}
use simple_up_manage.Gateway.Returns.{IsHonest}
use simple_up_manage.Gateway.Excluded.{
  sends_to, is_excluded, IsKeyScoped, exclude-adds, try_key-sends_to, forward_tries-scope,
}
use simple_up_manage.Gateway.Excluded.Passes.{
  Keeps, not_admitted-sends_to, without_upstream-sends_to, on_pick-Keeps, proxy_loop-sends_to,
}

settle_tried-excludes :
    (plan : Plan) (round : Round) (key up : ℕ) (l next : Loop) (a : Option Admission) (t : Tried)
    → ((o : ForwardOutcome) → t ≡ given_up o → (o.scope ≡ "key") ⊎ (o.scope ≡ "key_model"))
    → (settle_tried plan round key up l a t).1 ≡ again next
    → is_excluded key next.excluded ≡ true
unfolding after_failure
settle_tried-excludes plan round key up l next a (delivered o) h e = ground arith
settle_tried-excludes plan round key up l next a (interrupted o) h e = ground arith
settle_tried-excludes plan round key up l next a (given_up o) h e =
    ground (arith, exclude-adds o key up l.excluded (h o refl))

try_key-excludes :
    (plan : Plan) (round : Round) (key up : ℕ) (reason : String) (l next : Loop)
    → (a : Option Admission) → IsKeyScoped round
    → (try_key plan round key up reason l a).1 ≡ again next
    → is_excluded key next.excluded ≡ true
unfolding try_key
try_key-excludes plan round key up reason l next a h e =
    settle_tried-excludes plan round key up l next a (tries_of plan round key reason l).1
      (λ o f.
        forward_tries-scope plan round l.attempt key (str_eq reason "recovery_validation")
          (if ltb 0 l.attempt then plan.failover_wait else 0) 0 plan.retries o h f)
      e

-- What a pass that sends to a key does to it.
abbrev Drops : ℕ → ℕ → Turn → Type 0
Drops k n (done ending) = Unit
Drops k n (again next) = 0 < n → is_excluded k next.excluded ≡ true

try_key-Drops :
    (plan : Plan) (round : Round) (key up k : ℕ) (reason : String) (l : Loop)
    → (a : Option Admission) (t : Turn) → IsKeyScoped round
    → (try_key plan round key up reason l a).1 ≡ t
    → Drops k (sends_to k (try_key plan round key up reason l a).0) t
try_key-Drops plan round key up k reason l a (done ending) h e = tt
try_key-Drops plan round key up k reason l a (again next) h e = elim (Bool-cases (key == k)) [
  | inr f ↦ λ n. ground (arith, try_key-sends_to plan round key up k reason l a f)
  | inl f ↦ λ n.
      let same : key ≡ k = (==_iff key k).0 f in
      subst (λ x. is_excluded x next.excluded ≡ true) same
        (try_key-excludes plan round key up reason l next a h e)
]

Drops-none : (k n : ℕ) → n ≡ 0 → (t : Turn) → Drops k n t
Drops-none k n z (done ending) = tt
Drops-none k n z (again next) = λ p. ground arith

on_admission-Drops :
    (plan : Plan) (round : Round) (key up k : ℕ) (reason : String) (l : Loop) (a : Admitting)
    → IsKeyScoped round
    → let r = on_admission plan round key up reason l a in Drops k (sends_to k r.0) r.1
on_admission-Drops plan round key up k reason l (admitted a) h =
    try_key-Drops plan round key up k reason l (some a) _ h refl
on_admission-Drops plan round key up k reason l unavailable h =
    Drops-none k _ (not_admitted-sends_to round k l) (not_admitted round l).1
on_admission-Drops plan round key up k reason l broken h = tt

on_pick-Drops :
    (plan : Plan) (round : Round) (k : ℕ) (l : Loop) (p : Picked)
    → IsKeyScoped round
    → Drops k (sends_to k (on_pick plan round l p).0) (on_pick plan round l p).1
on_pick-Drops plan round k l (chosen key up reason) h =
    if_pred {A = List Event × Turn} (λ r. Drops k (sends_to k r.0) r.1) plan.controlled
      (on_admission-Drops plan round key up k reason l round.admission h)
      (try_key-Drops plan round key up k reason l none _ h refl)
on_pick-Drops plan round k l no_upstream h =
    Drops-none k _ (without_upstream-sends_to plan round k l) (without_upstream plan round l).1
on_pick-Drops plan round k l (pick_error msg) h = tt

-- Once the last resort is spent, a key that fails on its own account is given up for the request: if
-- a pass sends to the key and the loop goes on, the rest of the loop never sends to it again, where
-- every failure of that pass has the scope of the key, and every pass chooses a key that is not
-- excluded.
pub no_second_chance :
    (plan : Plan) (round : Round) (rounds : List Round) (l next : Loop) (k : ℕ)
    → All IsHonest rounds
    → IsKeyScoped round
    → l.last_resort ≡ true
    → (pass plan round l).1 ≡ again next
    → 0 < sends_to k (pass plan round l).0
    → sends_to k (proxy_loop plan rounds next).0 ≡ 0
unfolding pass
no_second_chance plan round rounds l next k h s r e n =
    proxy_loop-sends_to plan rounds next k h
      (subst (Keeps k l) e (on_pick-Keeps plan round k l (round.pick l.excluded l.allow)) r).0
      (subst (Drops k (sends_to k (pass plan round l).0)) e
        (on_pick-Drops plan round k l (round.pick l.excluded l.allow) s) n)
