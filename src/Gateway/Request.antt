-- ===== src/Gateway/Request.antt =====
-- backend/internal/handler/gateway.go: Gateway.proxy from the settings to its end.
use simple_up_manage.Prelude.{
  ℕ, ◌<◌, ◌≡◌, ◌↔◌, ◌⊎◌, refl, String, Bool, true, false, not, Option, none, some, List, [], ◌∷◌,
  map, select, length, is_empty, ◌==◌, arith, All, Bool-cases, if_pred, ==_iff, ap, inl, inr,
  str_eq,
}
use simple_up_manage.Domain.Settings.{SchedulerSettings}
use simple_up_manage.Domain.Provider.{PlatformKey, allows_probe}
use simple_up_manage.Picker.Candidates.{has}
use simple_up_manage.Gateway.Rounds.{allowed, Round, Ending, served, answered, cancelled, closed}
use simple_up_manage.Gateway.Returns.{IsHonest}
use simple_up_manage.Gateway.Sends.{sends}
use simple_up_manage.Gateway.Excluded.{sends_to}
use simple_up_manage.Gateway.Answers.{IsAnswer, proxy_loop_answers}
use simple_up_manage.Gateway.Confined.{IsBarred, proxy_loop-barred}
use simple_up_manage.Gateway.Setup.{
  Resolved, resolved, unresolved, Setting, Begun, ended, loops, restrict_probe_enabled, attempts_of,
  BodyRead, read_whole, too_large, unreadable, open_request, start_loop, begin_proxy, go_on,
}

abbrev ids_of : {F : Type 0} → List (PlatformKey F) → List ℕ
ids_of keys = map (λ k. k.id) keys

-- Rows chosen by a list of ids have no other id.
has-chosen :
    {F : Type 0} (keys : List (PlatformKey F)) (ids : List ℕ) (k : ℕ)
    → has k ids ≡ false
    → has k (ids_of (select (λ x. has x.id ids) keys)) ≡ false
unfolding has
has-chosen [] ids k h = refl
has-chosen (x ∷ keys) ids k h = elim (Bool-cases (k == x.id)) [
  | inr e ↦ ground (arith, has-chosen keys ids k h)
  | inl e ↦
      (let same : k ≡ x.id = (==_iff k x.id).0 e in
        ground (arith, has-chosen keys ids k h, ap (λ j. has j ids) same))
]

has-fewer :
    {F : Type 0} (q : PlatformKey F → Bool) (keys : List (PlatformKey F)) (k : ℕ)
    → has k (ids_of keys) ≡ false
    → has k (ids_of (select (λ x. q x) keys)) ≡ false
unfolding has
has-fewer q [] k h = refl
has-fewer q (x ∷ keys) k h = ground (arith, has-fewer q keys k)

-- An answer before the loop.
abbrev IsEarly : Ending → Type 0
IsEarly served = ⊥
IsEarly (answered status msg code) = (status ≡ 500) ⊎ (status ≡ 503)
IsEarly cancelled = ⊥
IsEarly closed = ⊥

-- What a request is after its beginning: either answered with nothing sent, or at the start of a loop that has attempts,
-- with a key barred under a condition.
abbrev Starts : ℕ → Type 0 → Begun → Type 0
Starts k P (ended events ending) = (sends events ≡ 0) × (sends_to k events ≡ 0) × IsEarly ending
Starts k P (loops plan l) = (l.attempt ≡ 0) × (0 < plan.attempts) × (P → IsBarred k l.allow)

length_positive : {A : Type 0} (xs : List A) → is_empty xs ≡ false → 0 < length xs
length_positive [] h = ground arith
length_positive (x ∷ xs) h = ground arith

weaken : {P : Type 0} (k : ℕ) (b : Begun) → P → Starts k P b → Starts k Unit b
weaken k (ended events ending) p s = s
weaken k (loops plan l) p s = (s.0, s.1, λ u. s.2 p)

go_on-barred :
    (rounds : List Round) (k : ℕ) (b : Begun)
    → All IsHonest rounds
    → Starts k Unit b
    → sends_to k (go_on rounds b).0 ≡ 0
go_on-barred rounds k (ended events ending) h s = s.1
go_on-barred rounds k (loops plan l) h s = proxy_loop-barred plan rounds l k h (s.2 tt)

go_on-answers :
    (rounds : List Round) (k : ℕ) (P : Type 0) (b : Begun) (status : ℕ) (msg code : String)
    → Starts k P b
    → (go_on rounds b).1 ≡ some (answered status msg code)
    → IsAnswer (sends (go_on rounds b).0) status
go_on-answers rounds k P (ended events served) status msg code s e = ground arith
go_on-answers rounds k P (ended events (answered t m c)) status msg code s e = ground arith
go_on-answers rounds k P (ended events cancelled) status msg code s e = ground arith
go_on-answers rounds k P (ended events closed) status msg code s e = ground arith
go_on-answers rounds k P (loops plan l) status msg code s e =
    ground (arith, proxy_loop_answers plan rounds l status msg code s.1 e)

-- Whether the key is outside the pool of a bound client.
abbrev IsOutside : Bool → ℕ → List ℕ → Type 0
IsOutside bound k allow = (bound ≡ true) × (has k allow ≡ false)

module _ {F : Type 0} where
  restrict-IsBarred :
      (keys : List (PlatformKey F)) (allow : List ℕ) (k : ℕ)
      → has k allow ≡ false
      → IsBarred k (restrict_probe_enabled keys (some allow) true).0
  unfolding restrict_probe_enabled
  restrict-IsBarred keys allow k h =
      if_pred {A = Option (List ℕ) × Bool} (λ r. IsBarred k r.0) (is_empty allow) h
        (has-fewer allows_probe _ k
          (has-chosen (select (λ x. str_eq x.status "enabled") keys) allow k h))

  attempts_positive : (settings : Option (SchedulerSettings F)) → 0 < attempts_of settings
  attempts_positive none = ground arith
  attempts_positive (some s) = ground arith

  start_loop-Starts :
      (settings : Option (SchedulerSettings F)) (setting : Setting) (bound : Bool)
      (allow : Option (List ℕ)) (k : ℕ) (P : Type 0)
      → (P → IsBarred k allow)
      → Starts k P (start_loop settings setting bound allow)
  unfolding start_loop
  start_loop-Starts settings setting bound allow k P h =
      (refl, ground (arith, length_positive (allowed allow), attempts_positive settings), h)

  begin_proxy-Starts :
      (settings : Option (SchedulerSettings F)) (setting : Setting) (allow drift : List ℕ)
      (bound probe : Bool) (keys : Option (List (PlatformKey F))) (k : ℕ)
      → Starts k
          (IsOutside bound k allow)
          (begin_proxy settings setting (resolved allow drift bound) probe keys)
  unfolding begin_proxy
  begin_proxy-Starts settings setting allow drift true probe none k =
      let S : Begun → Type 0 = Starts k (IsOutside true k allow) in
      if_pred S (is_empty allow) (refl, refl, inr refl)
        (if_pred S (not probe) (start_loop-Starts settings setting true (some allow) k _ (λ e. e.1))
          (refl, refl, inl refl))
  begin_proxy-Starts settings setting allow drift true probe (some rows) k =
      let S : Begun → Type 0 = Starts k (IsOutside true k allow) in
      let r = restrict_probe_enabled rows (some allow) true in
      if_pred S (is_empty allow) (refl, refl, inr refl)
        (if_pred S (not probe) (start_loop-Starts settings setting true (some allow) k _ (λ e. e.1))
          (if_pred S r.1 (refl, refl, inr refl)
            (start_loop-Starts settings setting true r.0 k _
              (λ e. restrict-IsBarred rows allow k e.1))))
  begin_proxy-Starts settings setting allow drift false probe none k =
      let S : Begun → Type 0 = Starts k (IsOutside false k allow) in
      if_pred S (not probe)
        (start_loop-Starts settings setting false none k _ (λ e. ground (arith, e.0)))
        (refl, refl, inl refl)
  begin_proxy-Starts settings setting allow drift false probe (some rows) k =
      let S : Begun → Type 0 = Starts k (IsOutside false k allow) in
      let r = restrict_probe_enabled rows none false in
      if_pred S (not probe)
        (start_loop-Starts settings setting false none k _ (λ e. ground (arith, e.0)))
        (if_pred S r.1 (refl, refl, inr refl)
          (start_loop-Starts settings setting false r.0 k _ (λ e. ground (arith, e.0))))

  unresolved-IsAnswer :
      (settings : Option (SchedulerSettings F)) (setting : Setting) (text : String) (probe : Bool)
      (keys : Option (List (PlatformKey F))) (rounds : List Round) (status : ℕ) (msg code : String)
      → let run = go_on rounds (begin_proxy settings setting (unresolved text) probe keys) in
        run.1 ≡ some (answered status msg code) → IsAnswer (sends run.0) status
  unfolding begin_proxy
  unresolved-IsAnswer settings setting text probe keys rounds status msg code e = ground (arith, e)

  -- Where a client is bound to route groups, a key outside the keys that these allow is never sent
  -- the request, whatever fails: not by the failover, the last resort or a probe; provided that
  -- every pass chooses a key of the pool it is given.
  pub proxy_confined :
      (settings : Option (SchedulerSettings F)) (setting : Setting) (allow drift : List ℕ)
      (probe : Bool) (keys : Option (List (PlatformKey F))) (rounds : List Round) (k : ℕ)
      → All IsHonest rounds
      → has k allow ≡ false
      → sends_to k
          (go_on rounds (begin_proxy settings setting (resolved allow drift true) probe keys)).0
        ≡ 0
  proxy_confined settings setting allow drift probe keys rounds k h o =
      let b = begin_proxy settings setting (resolved allow drift true) probe keys in
      go_on-barred rounds k b h
        (weaken k b (refl, o) (begin_proxy-Starts settings setting allow drift true probe keys k))

  begin_proxy-answers :
      (settings : Option (SchedulerSettings F)) (setting : Setting) (r : Resolved) (probe : Bool)
      (keys : Option (List (PlatformKey F))) (rounds : List Round) (status : ℕ) (msg code : String)
      → let run = go_on rounds (begin_proxy settings setting r probe keys) in
        run.1 ≡ some (answered status msg code) → IsAnswer (sends run.0) status
  begin_proxy-answers settings setting (resolved allow drift bound) probe keys rounds status msg
        code e =
      go_on-answers rounds 0 _
        (begin_proxy settings setting (resolved allow drift bound) probe keys) status msg code
        (begin_proxy-Starts settings setting allow drift bound probe keys 0) e
  begin_proxy-answers settings setting (unresolved text) probe keys rounds status msg code e =
      unresolved-IsAnswer settings setting text probe keys rounds status msg code e

  -- An error that proxy itself answers behind authConsumer has status 413 exactly if the body is too
  -- large and 400 exactly if it cannot be read, where the binding of the client was found, and then
  -- nothing is forwarded; otherwise it has status 500 or 503, or 502, and then forwardOnce was called
  -- at least once before.
  pub proxy_answers :
      (snapshot : Option String) (body : BodyRead) (settings : Option (SchedulerSettings F))
      (setting : Setting) (r : Resolved) (probe : Bool) (keys : Option (List (PlatformKey F)))
      (rounds : List Round) (status : ℕ) (msg code : String)
      → let run =
          go_on rounds (open_request snapshot body (begin_proxy settings setting r probe keys)) in
        run.1 ≡ some (answered status msg code)
        → ((status ≡ 413) ↔ ((snapshot ≡ none) × (body ≡ too_large)))
          × ((status ≡ 400) ↔ ((snapshot ≡ none) × (body ≡ unreadable)))
          × (((sends run.0 ≡ 0) × ((status ≡ 413) ⊎ (status ≡ 400)))
              ⊎ IsAnswer (sends run.0) status)
  unfolding open_request
  proxy_answers (some text) body settings setting r probe keys rounds status msg code e =
      ground (arith, e)
  proxy_answers none too_large settings setting r probe keys rounds status msg code e =
      ground (arith, e)
  proxy_answers none unreadable settings setting r probe keys rounds status msg code e =
      ground (arith, e)
  proxy_answers none read_whole settings setting r probe keys rounds status msg code e =
      ground (arith, begin_proxy-answers settings setting r probe keys rounds status msg code e)
