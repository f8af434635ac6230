-- ===== src/Gateway/Slots.antt =====
-- backend/internal/handler/gateway.go: concLimiter against the requests that hold its slots. A
-- request releases with the limit that it acquired with, for both read the same provider record.
use simple_up_manage.Prelude.{
  ℕ, zero, suc, ◌+◌, ◌≡◌, refl, Bool, true, not, ◌&&◌, ◌||◌, List, [], ◌∷◌, count_if, ltb, ◌==◌,
  if◌then◌else◌, arith, Option, none, some,
}
use simple_up_manage.Gateway.Limits.{conc_acquire, conc_release}

-- A slot: the provider and the limit it was acquired with.
abbrev pub Slot : Type 0
Slot = ℕ × ℕ

-- A request without a limit holds nothing.
abbrev pub is_held : ℕ → Slot → Bool
is_held id s = s.0 == id && not (s.1 == 0)

abbrev pub held_of : ℕ → List Slot → ℕ
held_of id slots = count_if (is_held id) slots

-- The slot at a position, and the slots without it.
abbrev pub slot_at : ℕ → List Slot → Option Slot
slot_at i [] = none
slot_at zero (s ∷ slots) = some s
slot_at (suc i) (s ∷ slots) = slot_at i slots

abbrev pub without : ℕ → List Slot → List Slot
without i [] = []
without zero (s ∷ slots) = slots
without (suc i) (s ∷ slots) = s ∷ without i slots

-- What a new limiter comes to: its counters and the slots that are held.
pub data Uses : (ℕ → ℕ) → List Slot → Type 0 where
  start : Uses (λ id. 0) []
  acquires :
      {inflight : ℕ → ℕ} {slots : List Slot} (id limit : ℕ)
      → Uses inflight slots
      → (conc_acquire id limit inflight).1 ≡ true
      → Uses (conc_acquire id limit inflight).0 ((id, limit) ∷ slots)
  releases :
      {inflight : ℕ → ℕ} {slots : List Slot} (i id limit : ℕ)
      → Uses inflight slots
      → slot_at i slots ≡ some (id, limit)
      → Uses (conc_release id limit inflight) (without i slots)

held_of-without :
    (i id limit k : ℕ) (slots : List Slot)
    → slot_at i slots ≡ some (id, limit)
    → held_of k (without i slots) + (if is_held k (id, limit) then 1 else 0) ≡ held_of k slots
held_of-without i id limit k [] e = ground arith
held_of-without zero id limit k (s ∷ slots) e = ground arith
held_of-without (suc i) id limit k (s ∷ slots) e =
    ground (arith, held_of-without i id limit k slots e)

-- Whatever was acquired and released, the counter of a provider is the number of slots of it that
-- are held under a limit.
pub Uses-inflight :
    {inflight : ℕ → ℕ} {slots : List Slot}
    → Uses inflight slots
    → (k : ℕ) → inflight k ≡ held_of k slots
unfolding conc_acquire conc_release
Uses-inflight start k = refl
Uses-inflight (acquires {inflight = f} id limit u g) k =
    ground (arith, Uses-inflight u k, Uses-inflight u id)
Uses-inflight (releases {slots = slots} i id limit u e) k = ground (
  arith,
  Uses-inflight u k,
  Uses-inflight u id,
  held_of-without i id limit k slots e,
  held_of-without i id limit id slots e,
)

-- A slot is given out exactly when the provider has no limit or fewer slots of it are held than
-- that, whatever was acquired and released before.
pub conc_acquire_exact :
    {inflight : ℕ → ℕ} {slots : List Slot} (id limit : ℕ)
    → Uses inflight slots
    → (conc_acquire id limit inflight).1 ≡ limit == 0 || ltb (held_of id slots) limit
unfolding conc_acquire
conc_acquire_exact id limit u = ground (arith, Uses-inflight u id)
