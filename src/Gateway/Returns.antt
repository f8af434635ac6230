-- ===== src/Gateway/Returns.antt =====
-- backend/internal/handler/gateway.go: the failover loop comes to an end.
use simple_up_manage.Prelude.{
  ℕ, ◌+◌, ◌-◌, ◌*◌, ◌≤◌, ◌<◌, ◌≡◌, refl, String, Bool, true, false, Option, none, some, List, [],
  ◌∷◌, length, is_empty, ltb, ◌==◌, not, if◌then◌else◌, arith, OnSome, Bool-cases, inl, inr,
  length-select-le,
}
use simple_up_manage.Circuit.Admission.{Admission}
use simple_up_manage.Picker.Candidates.{has}
use simple_up_manage.Gateway.Outcome.{ForwardOutcome}
use simple_up_manage.Gateway.Rounds.{
  Plan, Exclusions, Loop, allowed, chosen, Round, Admitting, admitted, unavailable, broken, Ending,
  Turn, Event, Picked, no_upstream, pick_error, again, done, Tried, delivered, interrupted,
  given_up,
}
use simple_up_manage.Gateway.Failover.{
  delete, delete_allowed, after_failure, try_key, on_admission, on_pick, fail_unless_begun, follow,
  pass, without_upstream, not_admitted, proxy_loop, may_resort, settle_tried,
}

-- The picker chooses no excluded key or provider, and where keys are allowed, one of those.
pub record IsHonest (round : Round) : Type 0 where
  pub respects :
      (ex : Exclusions) (allow : Option (List ℕ)) (key up : ℕ) (reason : String)
      → round.pick ex allow ≡ chosen key up reason
      → (has key ex.keys ≡ false)
        × (has up ex.providers ≡ false)
        × (has key ex.key_models ≡ false)
        × OnSome (λ keys. has key keys ≡ true) allow

abbrev pub is_unavailable : Admitting → Bool
is_unavailable (admitted a) = false
is_unavailable unavailable = true
is_unavailable broken = false

abbrev pub tick : Round → ℕ → ℕ
tick round ticks = if is_unavailable round.admission then ticks + 1 else ticks

-- Honest passes, each refusal of the gates 10 milliseconds after the one before: the loop sleeps
-- that long behind each.
abbrev pub Paced : ℕ → List Round → Type 0
Paced ticks [] = Unit
Paced ticks (round ∷ rounds) =
    IsHonest round × (ticks * 10000000 ≤ round.admitted_at) × Paced (tick round ticks) rounds

-- How many passes there can still be.
abbrev pub passes_left : Plan → ℕ → Loop → ℕ
passes_left plan ticks l =
    plan.attempts
    - l.attempt
    + (if l.last_resort then 0 else 1)
    + length (allowed l.allow)
    + (30000 - ticks)

-- A key that is there is deleted.
pub length-delete :
    (key : ℕ) (allow : List ℕ) → has key allow ≡ true → length (delete key allow) < length allow
unfolding has delete
length-delete key [] h = ground arith
length-delete key (k ∷ allow) h =
    ground (arith, length-delete key allow, length-select-le (λ j. not (j == key)) allow)

pub is_empty-delete :
    (key : ℕ) (allow : List ℕ) → is_empty (delete key allow) ≡ false → is_empty allow ≡ false
unfolding delete
is_empty-delete key [] h = h
is_empty-delete key (k ∷ allow) h = refl

pub allowed-delete :
    (key : ℕ) (allow : Option (List ℕ))
    → allowed (delete_allowed key allow) ≡ delete key (allowed allow)
unfolding delete
allowed-delete key none = refl
allowed-delete key (some keys) = refl

-- Where something is allowed, the chosen key is.
pub chosen_allowed :
    (key : ℕ) (allow : Option (List ℕ))
    → OnSome (λ keys. has key keys ≡ true) allow
    → is_empty (allowed allow) ≡ false
    → has key (allowed allow) ≡ true
chosen_allowed key none h e = ground arith
chosen_allowed key (some keys) h e = h

after_failure-passes_left :
    (plan : Plan) (round : Round) (key up ticks : ℕ) (l next : Loop) (o : ForwardOutcome)
    → after_failure plan round key up l o ≡ again next
    → l.attempt < plan.attempts
    → (is_empty (allowed l.allow) ≡ false → has key (allowed l.allow) ≡ true)
    → passes_left plan ticks next < passes_left plan ticks l
unfolding after_failure
after_failure-passes_left plan round key up ticks l next o e b h = ground (
  arith,
  allowed-delete key l.allow,
  is_empty-delete key (allowed l.allow),
  length-delete key (allowed l.allow),
)

-- Only a failure leads to another pass.
pub settle_tried-again :
    (plan : Plan) (round : Round) (key up : ℕ) (l next : Loop) (a : Option Admission) (t : Tried)
    → (settle_tried plan round key up l a t).1 ≡ again next
    → (o : ForwardOutcome) × (after_failure plan round key up l o ≡ again next)
settle_tried-again plan round key up l next a (delivered o) e = ground arith
settle_tried-again plan round key up l next a (interrupted o) e = ground arith
settle_tried-again plan round key up l next a (given_up o) e = (o, e)

try_key-passes_left :
    (plan : Plan) (round : Round) (key up ticks : ℕ) (reason : String) (l next : Loop)
    → (a : Option Admission) → (try_key plan round key up reason l a).1 ≡ again next
    → l.attempt < plan.attempts
    → (is_empty (allowed l.allow) ≡ false → has key (allowed l.allow) ≡ true)
    → passes_left plan ticks next < passes_left plan ticks l
unfolding try_key
try_key-passes_left plan round key up ticks reason l next a e b h =
    let (o, f) = settle_tried-again plan round key up l next a _ e in
    after_failure-passes_left plan round key up ticks l next o f b h

without_upstream-passes_left :
    (plan : Plan) (round : Round) (ticks : ℕ) (l next : Loop)
    → (without_upstream plan round l).1 ≡ again next
    → passes_left plan ticks next < passes_left plan ticks l
unfolding without_upstream may_resort
without_upstream-passes_left plan round ticks l next e = ground arith

-- Less time is left after a refusal.
not_admitted-passes_left :
    (plan : Plan) (round : Round) (ticks : ℕ) (l next : Loop)
    → (not_admitted round l).1 ≡ again next
    → ticks * 10000000 ≤ round.admitted_at
    → passes_left plan (ticks + 1) next < passes_left plan ticks l
unfolding not_admitted
not_admitted-passes_left plan round ticks l next e t = ground arith

on_admission-passes_left :
    (plan : Plan) (round : Round) (key up ticks : ℕ) (reason : String) (l next : Loop)
    → (a : Admitting) → (on_admission plan round key up reason l a).1 ≡ again next
    → l.attempt < plan.attempts
    → (is_empty (allowed l.allow) ≡ false → has key (allowed l.allow) ≡ true)
    → ticks * 10000000 ≤ round.admitted_at
    → passes_left plan (if is_unavailable a then ticks + 1 else ticks) next
      < passes_left plan ticks l
on_admission-passes_left plan round key up ticks reason l next (admitted a) e b h t =
    try_key-passes_left plan round key up ticks reason l next (some a) e b h
on_admission-passes_left plan round key up ticks reason l next unavailable e b h t =
    not_admitted-passes_left plan round ticks l next e t
on_admission-passes_left plan round key up ticks reason l next broken e b h t = ground arith

on_pick-passes_left :
    (plan : Plan) (round : Round) (ticks : ℕ) (l next : Loop) (p : Picked)
    → round.pick l.excluded l.allow ≡ p
    → (on_pick plan round l p).1 ≡ again next
    → l.attempt < plan.attempts
    → IsHonest round
    → ticks * 10000000 ≤ round.admitted_at
    → passes_left plan (tick round ticks) next < passes_left plan ticks l
on_pick-passes_left plan round ticks l next (chosen key up reason) q e b h t = ground (
  arith,
  try_key-passes_left plan round key up ticks reason l next none,
  on_admission-passes_left plan round key up ticks reason l next round.admission,
  h.respects l.excluded l.allow key up reason,
)
on_pick-passes_left plan round ticks l next no_upstream q e b h t =
    ground (arith, without_upstream-passes_left plan round ticks l next e)
on_pick-passes_left plan round ticks l next (pick_error msg) q e b h t = ground arith

pass-passes_left :
    (plan : Plan) (round : Round) (ticks : ℕ) (l next : Loop)
    → (pass plan round l).1 ≡ again next
    → l.attempt < plan.attempts
    → IsHonest round
    → ticks * 10000000 ≤ round.admitted_at
    → passes_left plan (tick round ticks) next < passes_left plan ticks l
unfolding pass
pass-passes_left plan round ticks l next e b h t =
    on_pick-passes_left plan round ticks l next _ refl e b h t

follow_ends :
    (f : Loop → List Event × Option Ending) (events : List Event) (t : Turn)
    → ((next : Loop) → t ≡ again next → (ending : Ending) × ((f next).1 ≡ some ending))
    → (ending : Ending) × ((follow f events t).1 ≡ some ending)
follow_ends f events (done ending) h = (ending, refl)
follow_ends f events (again next) h = h next refl

-- The loop ends with an answer, or closes the connection, within one pass for every attempt left,
-- for every allowed key, for the last resort and for each of the 10-millisecond pauses of 300
-- seconds: with more passes than that at hand, of which each chooses a key that is allowed and not
-- excluded and each refusal of the gates comes 10 milliseconds after the one before.
pub proxy_loop_returns :
    (plan : Plan) (ticks : ℕ) (rounds : List Round) (l : Loop)
    → Paced ticks rounds
    → passes_left plan ticks l < length rounds
    → (ending : Ending) × ((proxy_loop plan rounds l).1 ≡ some ending)
unfolding proxy_loop
proxy_loop_returns plan ticks [] l p h = ground arith
proxy_loop_returns plan ticks (round ∷ rounds) l p h =
    elim (Bool-cases (ltb l.attempt plan.attempts)) [
      | inr e ↦ rw e (fail_unless_begun l.written l.last_msg, refl)
      | inl e ↦ rw e (
          follow_ends (proxy_loop plan rounds) _ _ (λ next f.
            let less = pass-passes_left plan round ticks l next f (ground arith) p.0 p.1 in
            proxy_loop_returns plan (tick round ticks) rounds next p.2 (ground (arith, less))))
    ]
