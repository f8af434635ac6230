-- ===== src/Picker/Runtime.antt =====
-- backend/internal/picker/band.go: runtimeState, resourceSnapshot, tryAcquire, Release and
-- TryAcquireAttempt. A map from ids to numbers is a function that is 0 where the map has no entry.
-- Each call works under the state's mutex; the clock reading, which tryAcquire makes before it takes
-- the mutex, is an argument.
use simple_up_manage.Prelude.{
  ℕ, ◌+◌, ◌-◌, String, Bool, true, ◌&&◌, Option, none, some, List, [], ◌∷◌, ◌++◌, length, drop,
  select, ltb, leb, ◌==◌, if◌then◌else◌,
}
use simple_up_manage.Domain.Provider.{Upstream, PlatformKey}
use simple_up_manage.Domain.Routing.{seconds}

pub record RuntimeState : Type 0 where
  pub key_inflight : ℕ → ℕ
  pub provider_inflight : ℕ → ℕ
  pub rpm : ℕ → List ℕ

abbrev pub new_runtime : RuntimeState
new_runtime = record { key_inflight = λ k. 0; provider_inflight = λ k. 0; rpm = λ k. [] }

abbrev pub put {ℓ} : {A : Type ℓ} → (ℕ → A) → ℕ → A → ℕ → A
put f k v i = if i == k then v else f i

-- now.Add(-time.Minute). Clock readings lie far above a minute, so `-` is exact.
abbrev pub minute_ago : ℕ → ℕ
minute_ago now = now - seconds 60

-- `for _, at := range window { if at.After(cut) { keep = append(keep, at) } }`.
abbrev pub keep_after : ℕ → List ℕ → List ℕ
keep_after cut window = select (λ at. ltb cut at) window

-- What the old slice reads after the loop: `keep` shares its array, so its first entries are the
-- kept ones, and the rest are as before.
abbrev pub overwritten : ℕ → List ℕ → List ℕ
overwritten cut window = let keep = keep_after cut window in keep ++ drop (length keep) window

-- resourceSnapshot.
unfoldable pub resource_snapshot : ℕ → ℕ → ℕ → RuntimeState → RuntimeState × (ℕ × ℕ × ℕ)
resource_snapshot now key_id provider_id st =
    let keep = keep_after (minute_ago now) (st.rpm key_id) in
    (
      record st { rpm = put st.rpm key_id keep },
      (length keep, st.key_inflight key_id, st.provider_inflight provider_id),
    )

-- The result of tryAcquire: the time of the slot, or the scope that is exhausted.
pub data Acquired : Type 0 where
  granted : ℕ → Acquired
  denied : String → Acquired

-- `if n := count - 1; n > 0 { store n } else { delete }`.
abbrev pub count_down : (ℕ → ℕ) → ℕ → ℕ → ℕ
count_down counts k = let n = counts k - 1 in put counts k (if ltb 0 n then n else 0)

-- The slot that a request did not use is given back: its first entry is removed.
abbrev pub remove_first : ℕ → List ℕ → List ℕ
remove_first at [] = []
remove_first at (t ∷ window) = if t == at then window else t ∷ remove_first at window

unfoldable pub refund : ℕ → ℕ → RuntimeState → RuntimeState
refund key_id at st = record st { rpm = put st.rpm key_id (remove_first at (st.rpm key_id)) }

-- The closure that TryAcquireAttempt returns, with its sync.Once.
pub record Attempt (F : Type 0) : Type 0 where
  pub at : ℕ
  pub key : PlatformKey F
  pub up : Upstream F
  pub done : Bool

module _ {F : Type 0} where
  -- The part of tryAcquire behind the test for nil.
  unfoldable pub acquire : ℕ → PlatformKey F → Upstream F → RuntimeState → RuntimeState × Acquired
  acquire now key up st =
      let cut = minute_ago now in
      let keep = keep_after cut (st.rpm key.id) in
      let stored = record st { rpm = put st.rpm key.id keep } in
      let shared = record st { rpm = put st.rpm key.id (overwritten cut (st.rpm key.id)) } in
      if ltb 0 key.rpm_limit && leb key.rpm_limit (length keep)
      then (stored, denied "key")
      else if ltb 0 key.max_concurrency && leb key.max_concurrency (st.key_inflight key.id)
      then (shared, denied "key")
      else if ltb 0 up.concurrency && leb up.concurrency (st.provider_inflight up.id)
      then (shared, denied "provider")
      else (
        record st {
          rpm = put st.rpm key.id (keep ++ now ∷ []);
          key_inflight = put st.key_inflight key.id (st.key_inflight key.id + 1);
          provider_inflight = put st.provider_inflight up.id (st.provider_inflight up.id + 1);
        },
        granted now,
      )

  -- tryAcquire.
  unfoldable pub try_acquire :
      ℕ → Option (PlatformKey F) → Option (Upstream F) → RuntimeState → RuntimeState × Acquired
  try_acquire now (some key) (some up) st = acquire now key up st
  try_acquire now none up st = (st, denied "key")
  try_acquire now (some key) none st = (st, denied "key")

  -- Release, of a key and a provider that are there.
  unfoldable pub release : PlatformKey F → Upstream F → RuntimeState → RuntimeState
  release key up st = record st {
    key_inflight = count_down st.key_inflight key.id;
    provider_inflight = count_down st.provider_inflight up.id;
  }

  -- One call of the closure.
  unfoldable pub finish_attempt : Bool → Attempt F → RuntimeState → Attempt F × RuntimeState
  unfolding release refund
  finish_attempt sent a st =
      let refunded = if sent then st else refund a.key.id a.at st in
      if a.done then (a, st) else (record a { done = true }, release a.key a.up refunded)
