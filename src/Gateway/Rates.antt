-- ===== src/Gateway/Rates.antt =====
-- backend/internal/handler/gateway.go: the limiters against the calls that were made before.
use simple_up_manage.Prelude.{
  ℕ, ◌+◌, ◌≤◌, ◌<◌, ◌≡◌, refl, Bool, ◌&&◌, List, [], ◌∷◌, ◌++◌, length, count_if, ltb, ◌==◌,
  if◌then◌else◌, arith,
}
use simple_up_manage.Picker.Runtime.{minute_ago, keep_after}
use simple_up_manage.Gateway.Limits.{allow}

-- A call that a limiter let through: its key and its time.
abbrev pub Call : Type 0
Call = ℕ × ℕ

abbrev pub is_recent : ℕ → ℕ → Call → Bool
is_recent now id c = c.0 == id && ltb (minute_ago now) c.1

-- The calls of a key that were let through in the minute before a time.
abbrev pub in_minute : ℕ → ℕ → List Call → ℕ
in_minute now id log = count_if (is_recent now id) log

-- A new limiter after calls in the order of their times: the last time, the windows, and the calls
-- that were let through.
pub data Calls : ℕ → (ℕ → List ℕ) → List Call → Type 0 where
  start : Calls 0 (λ id. []) []
  call :
      {t : ℕ} {windows : ℕ → List ℕ} {log : List Call} (now id rpm : ℕ)
      → Calls t windows log
      → t ≤ now
      → 0 < rpm
      → Calls now
          (allow now id rpm windows).0
          (if (allow now id rpm windows).1 then (id, now) ∷ log else log)

length-keep_after_twice :
    (cut later : ℕ) (xs : List ℕ)
    → cut ≤ later
    → length (keep_after later (keep_after cut xs)) ≡ length (keep_after later xs)
length-keep_after_twice cut later [] h = refl
length-keep_after_twice cut later (x ∷ xs) h =
    ground (arith, length-keep_after_twice cut later xs h)

keep_after-append :
    (cut : ℕ) (xs : List ℕ) (x : ℕ)
    → length (keep_after cut (xs ++ x ∷ []))
      ≡ length (keep_after cut xs) + (if ltb cut x then 1 else 0)
keep_after-append cut [] x = ground arith
keep_after-append cut (y ∷ xs) x = ground (arith, keep_after-append cut xs x)

-- The windows hold what counts from now on.
Calls-length :
    {t : ℕ} {windows : ℕ → List ℕ} {log : List Call}
    → Calls t windows log
    → (now id : ℕ) → t ≤ now
    → length (keep_after (minute_ago now) (windows id)) ≡ in_minute now id log
unfolding allow
Calls-length start now id h = refl
Calls-length (call {t = t} {windows = w} {log = log} at k rpm c o p) now id h =
    let before = length-keep_after_twice (minute_ago at) (minute_ago now) (w k) (ground arith) in
    ground (
      arith,
      before,
      Calls-length c now id,
      Calls-length c now k,
      keep_after-append (minute_ago now) (keep_after (minute_ago at) (w k)) at,
    )

-- The limiter lets a call through exactly when fewer calls of its key than the limit were let
-- through in the minute before: the windows, which forget, decide as the whole history does, while
-- the calls come in the order of their times and have a positive limit.
pub allow_exact :
    {t : ℕ} {windows : ℕ → List ℕ} {log : List Call} (now id rpm : ℕ)
    → Calls t windows log
    → t ≤ now
    → 0 < rpm
    → (allow now id rpm windows).1 ≡ ltb (in_minute now id log) rpm
unfolding allow
allow_exact now id rpm c o p = ground (arith, Calls-length c now id o)
