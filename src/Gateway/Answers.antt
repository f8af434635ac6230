-- ===== src/Gateway/Answers.antt =====
-- backend/internal/handler/gateway.go: what the client is told at the end of the failover loop.
use simple_up_manage.Prelude.{
  ℕ, ◌+◌, ◌≤◌, ◌<◌, ◌≡◌, ◌⊎◌, refl, String, Option, none, some, List, [], ◌∷◌, ltb, arith,
  Bool-cases, if_pred, inl, inr, count_if-append,
}
use simple_up_manage.Circuit.Admission.{Admission}
use simple_up_manage.Gateway.Rounds.{
  Plan, Loop, Picked, chosen, no_upstream, pick_error, Round, Admitting, admitted, unavailable,
  broken, Event, Ending, served, answered, cancelled, closed, Turn, again, done, Tried, delivered,
  interrupted, given_up,
}
use simple_up_manage.Gateway.Failover.{
  after_failure, settle_tried, tries_of, try_key, on_admission, on_pick, follow, pass,
  without_upstream, not_admitted, proxy_loop,
}
use simple_up_manage.Gateway.Returns.{settle_tried-again}
use simple_up_manage.Gateway.Sends.{is_send, sends, try_key-sends}

-- An error after n requests that attempts had been counted before: its status is 500 or 503, or
-- 502 behind a request or in a later attempt.
abbrev pub IsAnswer : ℕ → ℕ → Type 0
IsAnswer n status = (status ≡ 500) ⊎ ((status ≡ 503) ⊎ ((status ≡ 502) × (0 < n)))

-- How a pass that sends n requests may end; an attempt is counted only behind a request.
abbrev Blames : Loop → ℕ → Turn → Type 0
Blames l n (again next) = next.attempt ≤ l.attempt + n
Blames l n (done served) = Unit
Blames l n (done (answered status msg code)) = IsAnswer (l.attempt + n) status
Blames l n (done cancelled) = Unit
Blames l n (done closed) = Unit

try_key-attempt :
    (plan : Plan) (round : Round) (key up : ℕ) (reason : String) (l next : Loop)
    → (a : Option Admission) → (try_key plan round key up reason l a).1 ≡ again next
    → next.attempt ≤ l.attempt + 1
unfolding try_key after_failure
try_key-attempt plan round key up reason l next a e =
    let (o, f) =
      settle_tried-again plan round key up l next a (tries_of plan round key reason l).1 e in
    ground (arith, f)

settle_tried-status :
    (plan : Plan) (round : Round) (key up : ℕ) (l : Loop) (a : Option Admission) (t : Tried)
    → (status : ℕ) (msg code : String)
    → (settle_tried plan round key up l a t).1 ≡ done (answered status msg code)
    → (status ≡ 502) ⊎ (status ≡ 503)
unfolding after_failure
settle_tried-status plan round key up l a (delivered o) status msg code e = ground arith
settle_tried-status plan round key up l a (interrupted o) status msg code e = ground arith
settle_tried-status plan round key up l a (given_up o) status msg code e = ground arith

try_key-status :
    (plan : Plan) (round : Round) (key up : ℕ) (reason : String) (l : Loop) (a : Option Admission)
    → (status : ℕ) (msg code : String)
    → (try_key plan round key up reason l a).1 ≡ done (answered status msg code)
    → (status ≡ 502) ⊎ (status ≡ 503)
unfolding try_key
try_key-status plan round key up reason l a =
    settle_tried-status plan round key up l a (tries_of plan round key reason l).1

try_key-Blames :
    (plan : Plan) (round : Round) (key up : ℕ) (reason : String) (l : Loop) (a : Option Admission)
    → (t : Turn) → (try_key plan round key up reason l a).1 ≡ t
    → Blames l (sends (try_key plan round key up reason l a).0) t
try_key-Blames plan round key up reason l a (done served) e = tt
try_key-Blames plan round key up reason l a (done (answered status msg code)) e = ground (
  arith,
  try_key-sends plan round key up reason l a,
  try_key-status plan round key up reason l a status msg code e,
)
try_key-Blames plan round key up reason l a (done cancelled) e = tt
try_key-Blames plan round key up reason l a (done closed) e = tt
try_key-Blames plan round key up reason l a (again next) e = ground (
  arith,
  try_key-sends plan round key up reason l a,
  try_key-attempt plan round key up reason l next a e,
)

not_admitted-Blames :
    (round : Round) (l : Loop) (t : Turn)
    → (not_admitted round l).1 ≡ t
    → Blames l (sends (not_admitted round l).0) t
unfolding not_admitted
not_admitted-Blames round l (done served) e = tt
not_admitted-Blames round l (done (answered status msg code)) e = ground arith
not_admitted-Blames round l (done cancelled) e = tt
not_admitted-Blames round l (done closed) e = tt
not_admitted-Blames round l (again next) e = ground arith

without_upstream-Blames :
    (plan : Plan) (round : Round) (l : Loop) (t : Turn)
    → (without_upstream plan round l).1 ≡ t
    → Blames l (sends (without_upstream plan round l).0) t
unfolding without_upstream
without_upstream-Blames plan round l (done served) e = tt
without_upstream-Blames plan round l (done (answered status msg code)) e = ground arith
without_upstream-Blames plan round l (done cancelled) e = tt
without_upstream-Blames plan round l (done closed) e = tt
without_upstream-Blames plan round l (again next) e = ground arith

on_admission-Blames :
    (plan : Plan) (round : Round) (key up : ℕ) (reason : String) (l : Loop) (a : Admitting)
    → let r = on_admission plan round key up reason l a in Blames l (sends r.0) r.1
on_admission-Blames plan round key up reason l (admitted a) =
    try_key-Blames plan round key up reason l (some a) _ refl
on_admission-Blames plan round key up reason l unavailable = not_admitted-Blames round l _ refl
on_admission-Blames plan round key up reason l broken = inr (inl refl)

on_pick-Blames :
    (plan : Plan) (round : Round) (l : Loop) (p : Picked)
    → Blames l (sends (on_pick plan round l p).0) (on_pick plan round l p).1
on_pick-Blames plan round l (chosen key up reason) =
    if_pred {A = List Event × Turn} (λ r. Blames l (sends r.0) r.1) plan.controlled
      (on_admission-Blames plan round key up reason l round.admission)
      (try_key-Blames plan round key up reason l none _ refl)
on_pick-Blames plan round l no_upstream = without_upstream-Blames plan round l _ refl
on_pick-Blames plan round l (pick_error msg) =
    if_pred (λ ending. Blames l 0 (done ending)) round.gone tt (inl refl)

pass-Blames :
    (plan : Plan) (round : Round) (l : Loop)
    → Blames l (sends (pass plan round l).0) (pass plan round l).1
unfolding pass
pass-Blames plan round l = on_pick-Blames plan round l (round.pick l.excluded l.allow)

follow-Blames :
    (l : Loop) (f : Loop → List Event × Option Ending) (events : List Event) (t : Turn)
    → Blames l (sends events) t
    → (status : ℕ) (msg code : String)
    → ((next : Loop)
        → (f next).1 ≡ some (answered status msg code)
        → IsAnswer (next.attempt + sends (f next).0) status)
    → (follow f events t).1 ≡ some (answered status msg code)
    → IsAnswer (l.attempt + sends (follow f events t).0) status
follow-Blames l f events (done served) b status msg code h e = ground arith
follow-Blames l f events (done (answered s m c)) b status msg code h e = ground arith
follow-Blames l f events (done cancelled) b status msg code h e = ground arith
follow-Blames l f events (done closed) b status msg code h e = ground arith
follow-Blames l f events (again next) b status msg code h e =
    ground (arith, h next e, count_if-append is_send events (f next).0)

-- An error that the loop answers has status 500, 503 or 502; with 502 it blames the upstream, and
-- then, if the loop began with its first attempt, the request was forwarded at least once.
pub proxy_loop_answers :
    (plan : Plan) (rounds : List Round) (l : Loop) (status : ℕ) (msg code : String)
    → 0 < plan.attempts
    → (proxy_loop plan rounds l).1 ≡ some (answered status msg code)
    → IsAnswer (l.attempt + sends (proxy_loop plan rounds l).0) status
unfolding proxy_loop
proxy_loop_answers plan [] l status msg code p = λ e. ground arith
proxy_loop_answers plan (round ∷ rounds) l status msg code p =
    elim (Bool-cases (ltb l.attempt plan.attempts)) [
      | inr e ↦ rw e (λ f. ground arith)
      | inl e ↦ rw e (
          follow-Blames l (proxy_loop plan rounds) (pass plan round l).0 (pass plan round l).1
            (pass-Blames plan round l) status msg code
            (λ next. proxy_loop_answers plan rounds next status msg code p))
    ]
