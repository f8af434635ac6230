-- ===== src/Gateway/Confined.antt =====
-- backend/internal/handler/gateway.go: the failover loop sends to allowed keys alone.
use simple_up_manage.Prelude.{
  ℕ, ◌≡◌, refl, String, true, false, str_eq, is_empty, leb, ◌||◌, not, Option, none, some, List, [],
  ◌∷◌, ltb, ◌==◌, arith, All, HasSome, OnSome, Bool-cases, if_pred, ==_iff, inl, inr,
  count_if-append,
}
use simple_up_manage.Circuit.Admission.{Admission}
use simple_up_manage.Picker.Candidates.{has}
use simple_up_manage.Routes.Allowed.{has-select}
use simple_up_manage.Gateway.Outcome.{ForwardOutcome}
use simple_up_manage.Gateway.Rounds.{
  Plan, Loop, Picked, chosen, no_upstream, pick_error, Round, Admitting, admitted, unavailable,
  broken, Event, Ending, Turn, again, done, Tried, delivered, interrupted, given_up, allowed,
}
use simple_up_manage.Gateway.Failover.{
  overall_timeout, settle_tried, delete, delete_allowed, after_failure, tries_of, try_key,
  on_admission, on_pick, follow, pass, without_upstream, may_resort, not_admitted, proxy_loop,
}
use simple_up_manage.Gateway.Returns.{IsHonest}
use simple_up_manage.Gateway.Excluded.{sends_to, is_send_to, try_key-sends_to}
use simple_up_manage.Gateway.Excluded.Passes.{on_admission-sends_to, without_upstream-sends_to}

-- There is a set of allowed keys, and the key is not in it.
abbrev pub IsBarred : ℕ → Option (List ℕ) → Type 0
IsBarred k allow = HasSome (λ ids. has k ids ≡ false) allow

-- Another pass bars the key as this one does.
abbrev Bars : ℕ → Loop → Turn → Type 0
Bars k l (done ending) = Unit
Bars k l (again next) = IsBarred k l.allow → IsBarred k next.allow

delete_allowed-IsBarred :
    (k key : ℕ) (allow : Option (List ℕ)) → IsBarred k allow → IsBarred k (delete_allowed key allow)
unfolding delete
delete_allowed-IsBarred k key none h = h
delete_allowed-IsBarred k key (some ids) h = ground (arith, has-select k (λ j. not (j == key)) ids)

barred_apart :
    (key k : ℕ) (allow : Option (List ℕ))
    → IsBarred k allow
    → OnSome (λ ids. has key ids ≡ true) allow
    → key == k ≡ false
barred_apart key k none h p = ground arith
barred_apart key k (some ids) h p = elim (Bool-cases (key == k)) [
  | inr e ↦ e
  | inl e ↦ (let same : key ≡ k = (==_iff key k).0 e in ground (arith, same, h, p))
]

after_failure-Bars :
    (plan : Plan) (round : Round) (key up k : ℕ) (l : Loop) (o : ForwardOutcome)
    → Bars k l (after_failure plan round key up l o)
unfolding after_failure
after_failure-Bars plan round key up k l o =
    if_pred (Bars k l) (str_eq o.action "probe_disabled")
      (if_pred (Bars k l) (is_empty (allowed (delete_allowed key l.allow))) tt
        (λ h. delete_allowed-IsBarred k key l.allow h))
      (if_pred (Bars k l) (not o.fail_over) tt (λ h. h))

settle_tried-Bars :
    (plan : Plan) (round : Round) (key up k : ℕ) (l : Loop) (a : Option Admission) (t : Tried)
    → Bars k l (settle_tried plan round key up l a t).1
settle_tried-Bars plan round key up k l a (delivered o) = tt
settle_tried-Bars plan round key up k l a (interrupted o) = tt
settle_tried-Bars plan round key up k l a (given_up o) = after_failure-Bars plan round key up k l o

try_key-Bars :
    (plan : Plan) (round : Round) (key up k : ℕ) (reason : String) (l : Loop)
    → (a : Option Admission) → Bars k l (try_key plan round key up reason l a).1
unfolding try_key
try_key-Bars plan round key up k reason l a =
    settle_tried-Bars plan round key up k l a (tries_of plan round key reason l).1

not_admitted-Bars : (round : Round) (k : ℕ) (l : Loop) → Bars k l (not_admitted round l).1
unfolding not_admitted
not_admitted-Bars round k l =
    if_pred {A = List Event × Turn} (λ r. Bars k l r.1)
      (leb overall_timeout round.admitted_at || round.wait_over) tt
      (if_pred {A = List Event × Turn} (λ r. Bars k l r.1) round.may_reselect (λ h. h) tt)

without_upstream-Bars :
    (plan : Plan) (round : Round) (k : ℕ) (l : Loop) → Bars k l (without_upstream plan round l).1
unfolding without_upstream
without_upstream-Bars plan round k l =
    if_pred {A = List Event × Turn} (λ r. Bars k l r.1) (may_resort round l) (λ h. h)
      (if_pred {A = List Event × Turn} (λ r. Bars k l r.1)
        (l.attempt == 0 || str_eq l.last_msg "probe_disabled") tt tt)

on_admission-Bars :
    (plan : Plan) (round : Round) (key up k : ℕ) (reason : String) (l : Loop) (a : Admitting)
    → Bars k l (on_admission plan round key up reason l a).1
on_admission-Bars plan round key up k reason l (admitted a) =
    try_key-Bars plan round key up k reason l (some a)
on_admission-Bars plan round key up k reason l unavailable = not_admitted-Bars round k l
on_admission-Bars plan round key up k reason l broken = tt

on_pick-Bars :
    (plan : Plan) (round : Round) (k : ℕ) (l : Loop) (p : Picked)
    → Bars k l (on_pick plan round l p).1
on_pick-Bars plan round k l (chosen key up reason) =
    if_pred {A = List Event × Turn} (λ r. Bars k l r.1) plan.controlled
      (on_admission-Bars plan round key up k reason l round.admission)
      (try_key-Bars plan round key up k reason l none)
on_pick-Bars plan round k l no_upstream = without_upstream-Bars plan round k l
on_pick-Bars plan round k l (pick_error msg) = tt

on_pick-barred :
    (plan : Plan) (round : Round) (k : ℕ) (l : Loop) (p : Picked)
    → round.pick l.excluded l.allow ≡ p
    → IsHonest round
    → IsBarred k l.allow
    → sends_to k (on_pick plan round l p).0 ≡ 0
on_pick-barred plan round k l (chosen key up reason) q h b =
    let apart = barred_apart key k l.allow b (h.respects l.excluded l.allow key up reason q).3 in
    if_pred {A = List Event × Turn} (λ r. sends_to k r.0 ≡ 0) plan.controlled
      (on_admission-sends_to plan round key up k reason l round.admission apart)
      (try_key-sends_to plan round key up k reason l none apart)
on_pick-barred plan round k l no_upstream q h b = without_upstream-sends_to plan round k l
on_pick-barred plan round k l (pick_error msg) q h b = refl

follow-barred :
    (f : Loop → List Event × Option Ending) (events : List Event) (t : Turn) (k : ℕ) (l : Loop)
    → sends_to k events ≡ 0
    → Bars k l t
    → IsBarred k l.allow
    → ((next : Loop) → IsBarred k next.allow → sends_to k (f next).0 ≡ 0)
    → sends_to k (follow f events t).0 ≡ 0
follow-barred f events (done ending) k l z s b n = z
follow-barred f events (again next) k l z s b n =
    ground (arith, count_if-append (is_send_to k) events (f next).0, n next (s b))

-- The loop never sends to a key outside the allowed ones, where every pass chooses an allowed key.
pub proxy_loop-barred :
    (plan : Plan) (rounds : List Round) (l : Loop) (k : ℕ)
    → All IsHonest rounds
    → IsBarred k l.allow
    → sends_to k (proxy_loop plan rounds l).0 ≡ 0
unfolding proxy_loop pass
proxy_loop-barred plan [] l k h b = refl
proxy_loop-barred plan (round ∷ rounds) l k h b = elim (Bool-cases (ltb l.attempt plan.attempts)) [
  | inr e ↦ rw e refl
  | inl e ↦ rw e (
      follow-barred (proxy_loop plan rounds) (pass plan round l).0 (pass plan round l).1 k l
        (on_pick-barred plan round k l (round.pick l.excluded l.allow) refl h.0 b)
        (on_pick-Bars plan round k l (round.pick l.excluded l.allow)) b
        (λ next c. proxy_loop-barred plan rounds next k h.1 c))
]
