-- ===== src/Picker/Capacity.antt =====
-- backend/internal/picker/band.go: the reservations of tryAcquire against the attempts that hold
-- them.
use simple_up_manage.Prelude.{
  ℕ, zero, suc, ◌+◌, ◌-◌, ◌≡◌, String, Bool, true, false, not, ◌&&◌, List, [], ◌∷◌, length,
  length-append, count_if, ltb, leb, ◌==◌, if◌then◌else◌, arith,
}
use simple_up_manage.Domain.Provider.{Upstream, PlatformKey}
use simple_up_manage.Picker.Runtime.{
  RuntimeState, minute_ago, keep_after, resource_snapshot, Acquired, granted, denied, acquire,
  Attempt, finish_attempt,
}

-- A limit of 0 is no limit.
abbrev pub has_room : ℕ → ℕ → Bool
has_room limit n = not (ltb 0 limit && leb limit n)

abbrev pub is_granted : Acquired → Bool
is_granted (granted at) = true
is_granted (denied scope) = false

module _ {F : Type 0} where
  -- A reservation is granted exactly when the requests of the last minute, the key's attempts and
  -- the provider's attempts all leave room under their limits.
  pub acquire_granted_iff :
      (now : ℕ) (key : PlatformKey F) (up : Upstream F) (st : RuntimeState)
      → is_granted (acquire now key up st).1 ≡ (
          has_room key.rpm_limit (length (keep_after (minute_ago now) (st.rpm key.id)))
          && has_room key.max_concurrency (st.key_inflight key.id)
          && has_room up.concurrency (st.provider_inflight up.id))
  unfolding acquire
  acquire_granted_iff now key up st = ground arith

  -- After a grant every positive limit still holds, with the new attempt counted.
  acquire_within_limits :
      (now : ℕ) (key : PlatformKey F) (up : Upstream F) (st : RuntimeState)
      → is_granted (acquire now key up st).1 ≡ true
      → let st' = (acquire now key up st).0 in
        (has_room key.rpm_limit (length (st'.rpm key.id) - 1) ≡ true)
        × (has_room key.max_concurrency (st'.key_inflight key.id - 1) ≡ true)
        × (has_room up.concurrency (st'.provider_inflight up.id - 1) ≡ true)
  unfolding acquire
  acquire_within_limits now key up st g =
      ground (arith, length-append (keep_after (minute_ago now) (st.rpm key.id)) (now ∷ []))

-- The attempts of a key, or of a provider, whose closure has not been called.
abbrev pub holds_key : {F : Type 0} → ℕ → Attempt F → Bool
holds_key k a = not a.done && a.key.id == k

abbrev pub holds_provider : {F : Type 0} → ℕ → Attempt F → Bool
holds_provider u a = not a.done && a.up.id == u

-- The process: its counters and every attempt that was ever granted.
pub record Pool (F : Type 0) : Type 0 where
  pub runtime : RuntimeState
  pub attempts : List (Attempt F)

-- The counters are those of the outstanding attempts.
pub record Tracks {F : Type 0} (p : Pool F) : Type 0 where
  pub keys : (k : ℕ) → p.runtime.key_inflight k ≡ count_if (holds_key k) p.attempts
  pub providers : (u : ℕ) → p.runtime.provider_inflight u ≡ count_if (holds_provider u) p.attempts

-- Calls the closure of the attempt at a position; elsewhere it does nothing.
pub finish_at :
    {F : Type 0} → ℕ → Bool → List (Attempt F) → RuntimeState → List (Attempt F) × RuntimeState
finish_at i sent [] st = ([], st)
finish_at zero sent (a ∷ held) st = let (a', st') = finish_attempt sent a st in (a' ∷ held, st')
finish_at (suc i) sent (a ∷ held) st =
    let (held', st') = finish_at i sent held st in (a ∷ held', st')

-- What the goroutines of the gateway do to the pool, one call at a time.
pub data Move {F : Type 0} : Pool F → Pool F → Type 0 where
  grants :
      {p : Pool F} (now t : ℕ) (key : PlatformKey F) (up : Upstream F)
      → (acquire now key up p.runtime).1 ≡ granted t
      → Move p (record {
        runtime = (acquire now key up p.runtime).0;
        attempts = record { at = t; key = key; up = up; done = false } ∷ p.attempts;
      })
  denies :
      {p : Pool F} (now : ℕ) (scope : String) (key : PlatformKey F) (up : Upstream F)
      → (acquire now key up p.runtime).1 ≡ denied scope
      → Move p (record { runtime = (acquire now key up p.runtime).0; attempts = p.attempts })
  finishes :
      {p : Pool F} (i : ℕ) (sent : Bool)
      → Move p (record {
        runtime = (finish_at i sent p.attempts p.runtime).1;
        attempts = (finish_at i sent p.attempts p.runtime).0;
      })
  snapshots :
      {p : Pool F} (now key_id provider_id : ℕ)
      → Move p (record {
        runtime = (resource_snapshot now key_id provider_id p.runtime).0;
        attempts = p.attempts;
      })

pub data Run {F : Type 0} (p : Pool F) : Pool F → Type 0 where
  here : Run p p
  next : {q r : Pool F} → Run p q → Move q r → Run p r

module _ {F : Type 0} where
  grants-Tracks :
      (now t : ℕ) (key : PlatformKey F) (up : Upstream F) (p : Pool F)
      → (acquire now key up p.runtime).1 ≡ granted t
      → Tracks p
      → Tracks (record {
        runtime = (acquire now key up p.runtime).0;
        attempts = record { at = t; key = key; up = up; done = false } ∷ p.attempts;
      })
  unfolding acquire
  grants-Tracks now t key up p e h = record {
    keys = λ k. ground (arith, h.keys k);
    providers = λ u. ground (arith, h.providers u);
  }

  denies-Tracks :
      (now : ℕ) (scope : String) (key : PlatformKey F) (up : Upstream F) (p : Pool F)
      → (acquire now key up p.runtime).1 ≡ denied scope
      → Tracks p
      → Tracks (record { runtime = (acquire now key up p.runtime).0; attempts = p.attempts })
  unfolding acquire
  denies-Tracks now scope key up p e h = record {
    keys = λ k. ground (arith, h.keys k);
    providers = λ u. ground (arith, h.providers u);
  }

  snapshots-Tracks :
      (now key_id provider_id : ℕ) (p : Pool F)
      → Tracks p
      → Tracks (record {
        runtime = (resource_snapshot now key_id provider_id p.runtime).0;
        attempts = p.attempts;
      })
  unfolding resource_snapshot
  snapshots-Tracks now key_id provider_id p h = record { keys = h.keys; providers = h.providers }

  -- `extra` stands for the attempts in front.
  finish_at-keys :
      (i k extra : ℕ) (sent : Bool) (held : List (Attempt F)) (st : RuntimeState)
      → st.key_inflight k ≡ extra + count_if (holds_key k) held
      → (finish_at i sent held st).1.key_inflight k
        ≡ extra + count_if (holds_key k) (finish_at i sent held st).0
  unfolding finish_at finish_attempt
  finish_at-keys i k extra sent [] st h = h
  finish_at-keys zero k extra sent (a ∷ held) st h = ground arith
  finish_at-keys (suc i) k extra sent (a ∷ held) st h =
      let ih =
        finish_at-keys i k (extra + (if holds_key k a then 1 else 0)) sent held st (ground arith) in
      ground (arith, ih)

  finish_at-providers :
      (i u extra : ℕ) (sent : Bool) (held : List (Attempt F)) (st : RuntimeState)
      → st.provider_inflight u ≡ extra + count_if (holds_provider u) held
      → (finish_at i sent held st).1.provider_inflight u
        ≡ extra + count_if (holds_provider u) (finish_at i sent held st).0
  unfolding finish_at finish_attempt
  finish_at-providers i u extra sent [] st h = h
  finish_at-providers zero u extra sent (a ∷ held) st h = ground arith
  finish_at-providers (suc i) u extra sent (a ∷ held) st h =
      let ih =
        finish_at-providers i u (extra + (if holds_provider u a then 1 else 0)) sent held st
          (ground arith) in
      ground (arith, ih)

  Move-Tracks : (p q : Pool F) → Move p q → Tracks p → Tracks q
  Move-Tracks p q (grants now t key up e) h = grants-Tracks now t key up p e h
  Move-Tracks p q (denies now scope key up e) h = denies-Tracks now scope key up p e h
  Move-Tracks p q (finishes i sent) h = record {
    keys = λ k. ground (arith, finish_at-keys i k 0 sent p.attempts p.runtime, h.keys k);
    providers =
        λ u. ground (arith, finish_at-providers i u 0 sent p.attempts p.runtime, h.providers u);
  }
  Move-Tracks p q (snapshots now key_id provider_id) h = snapshots-Tracks now key_id provider_id p h

  -- In every run from counters that are exact, the attempts that the process counts for a key and
  -- for a provider are those whose closure has not been called yet.
  pub Run-Tracks : (p q : Pool F) → Run p q → Tracks p → Tracks q
  Run-Tracks p q here h = h
  Run-Tracks p q (next {q = r} run move) h = Move-Tracks r q move (Run-Tracks p r run h)
