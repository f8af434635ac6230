-- ===== src/Gateway/Wait/Polls.antt =====
-- backend/internal/handler/recovery_wait.go: what the wait for a recovery has seen.
use simple_up_manage.Prelude.{◌≡◌, ◌↔◌, refl, Bool, true, Option, none, some, List, [], ◌∷◌, arith}
use simple_up_manage.Gateway.Wait.{
  GateState, any_active, all_equal, Poll, unchanged, wait_recovery_change,
}

abbrev is_steady : Option (List GateState) → List GateState → Bool
is_steady none states = true
is_steady (some before) states = all_equal states before

-- Every poll reads the gates, one of them is active, and none differs from the poll before.
abbrev pub Steady : Option (List GateState) → List Poll → Type 0
Steady before [] = Unit
Steady before (p ∷ polls) =
    (states : List GateState) × (p.states ≡ some states)
    × (any_active p.now states ≡ true)
    × (is_steady before states ≡ true)
    × Steady (some states) polls

step :
    (before : Option (List GateState)) (p : Poll) (polls : List Poll)
    (read : Option (List GateState))
    → p.states ≡ read
    → wait_recovery_change before (p ∷ polls) ≡ unchanged
    → (states : List GateState) × (p.states ≡ some states)
      × (any_active p.now states ≡ true)
      × (is_steady before states ≡ true)
      × (wait_recovery_change (some states) polls ≡ unchanged)
unfolding wait_recovery_change
step before p polls none r e = ground (arith, r, e)
step none p polls (some states) r e = (states, r, ground (arith, r, e), refl, ground (arith, r, e))
step (some b) p polls (some states) r e =
    (states, r, ground (arith, r, e), ground (arith, r, e), ground (arith, r, e))

unchanged-Steady :
    (before : Option (List GateState)) (polls : List Poll)
    → wait_recovery_change before polls ≡ unchanged
    → Steady before polls
unchanged-Steady before [] e = tt
unchanged-Steady before (p ∷ polls) e =
    let (states, r, a, s, n) = step before p polls p.states refl e in
    (states, r, a, s, unchanged-Steady (some states) polls n)

Steady-unchanged :
    (before : Option (List GateState)) (polls : List Poll)
    → Steady before polls
    → wait_recovery_change before polls ≡ unchanged
unfolding wait_recovery_change
Steady-unchanged before [] h = refl
Steady-unchanged none (p ∷ polls) (states, r, a, s, n) =
    ground (arith, r, a, Steady-unchanged (some states) polls n)
Steady-unchanged (some b) (p ∷ polls) (states, r, a, s, n) =
    ground (arith, r, a, s, Steady-unchanged (some states) polls n)

-- The wait ends unchanged exactly if it has seen nothing change: each poll could read the gates, found
-- one whose recovery still runs, and found every gate as the poll before it had.
wait_unchanged_iff :
    (before : Option (List GateState)) (polls : List Poll)
    → (wait_recovery_change before polls ≡ unchanged) ↔ Steady before polls
wait_unchanged_iff before polls = (unchanged-Steady before polls, Steady-unchanged before polls)
