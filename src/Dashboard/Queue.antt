-- ===== src/Dashboard/Queue.antt =====
-- backend/internal/dashboard/settle.go: the queue of the settler, Enqueue, drainOnce and drainFinal. The
-- mutex makes each of their steps on the queue one step; drainFinal is taken alone, without events that
-- come in while it runs.
use simple_up_manage.Prelude.{
  ℕ, ◌+◌, ◌-◌, ◌^◌, min, String, Bool, true, not, Option, none, some, List, [], ◌∷◌, ◌++◌, map,
  length, select, is_empty, ltb, leb, ◌==◌, if◌then◌else◌, Float64,
}
use simple_up_manage.Domain.Provider.{TextLib}
use simple_up_manage.Domain.Routing.{seconds}
use simple_up_manage.Dashboard.Money.{Rounding}
use simple_up_manage.Dashboard.Settle.{
  Payload, QueuedEvent, Db, Settled, committed, rejected, replay_reject_age, process,
}

-- QueueLimit.
abbrev pub queue_limit : ℕ
queue_limit = 10000

-- The settler with the gaps that it has noted, by their times.
pub record Settler (F : Type 0) : Type 0 where
  pub queue : List (QueuedEvent F)
  pub overflow : Bool
  pub gaps : List ℕ

-- The clock at the turn of each event, when it is processed and when it is put back.
pub record Round (F : Type 0) : Type 0 where
  pub now : ℕ
  pub processed_at : QueuedEvent F → ℕ
  pub failed_at : QueuedEvent F → ℕ

-- The wait before an event is tried again.
unfoldable pub retry_wait : ℕ → ℕ
retry_wait attempts = min (seconds (2 ^ min attempts 5)) (seconds 30)

module _ {F : Type 0} where
  -- Enqueue.
  unfoldable pub enqueue : ℕ → String → Payload F → ℕ → Settler F → Settler F
  enqueue now key payload at s =
      let time = if at == 0 then now else at in
      if ltb replay_reject_age (now - time)
      then s
      else if leb queue_limit (length s.queue)
      then record s { overflow = true; gaps = s.gaps ++ time ∷ [] }
      else record s {
        queue =
            s.queue
            ++ record { key = key; payload = payload; attempts = 0; next = now; at = time } ∷ [];
      }

  -- An event that has failed, as it is put back.
  unfoldable pub put_back : Round F → QueuedEvent F → QueuedEvent F
  put_back r e = record e {
    attempts = e.attempts + 1;
    next = r.failed_at e + retry_wait (e.attempts + 1);
  }

  -- The body of the loop of drainOnce, with what process says.
  abbrev pub step_due :
      Round F
      → QueuedEvent F
      → Settled F
      → List (QueuedEvent F) × Db F
      → List (QueuedEvent F) × Db F
  step_due r e (committed db') s = (s.0, db')
  step_due r e (rejected x) s = (s.0 ++ put_back r e ∷ [], s.1)

module _ {F : Type 0} ⦃fl : Float64 F⦄ ⦃ro : Rounding F⦄ where
  -- The loop of drainOnce over the due events.
  unfoldable pub drain_due :
      TextLib
      → F
      → Round F
      → List (QueuedEvent F)
      → List (QueuedEvent F) × Db F
      → List (QueuedEvent F) × Db F
  drain_due lib time r [] s = s
  drain_due lib time r (e ∷ due) s =
      drain_due lib time r due (step_due r e (process lib time (r.processed_at e) e s.1) s)

  -- drainOnce.
  unfoldable pub drain_once :
      TextLib → F → Round F → List (QueuedEvent F) × Db F → List (QueuedEvent F) × Db F
  drain_once lib time r s =
      drain_due lib time r (select (λ e. leb e.next r.now) s.0)
        (select (λ e. not (leb e.next r.now)) s.0, s.1)

  abbrev pub due_now : QueuedEvent F → QueuedEvent F
  due_now e = record e { next = 0 }

  -- A pass of drainFinal: every event is due at once.
  abbrev pub final_pass :
      TextLib → F → Round F → List (QueuedEvent F) × Db F → List (QueuedEvent F) × Db F
  final_pass lib time r s = drain_once lib time r (map due_now s.0, s.1)

  -- drainFinal, with the clocks of its passes; nothing is returned if they run out.
  unfoldable pub drain_final :
      TextLib
      → F
      → List (Round F)
      → List (QueuedEvent F) × Db F
      → Option (List (QueuedEvent F) × Db F)
  drain_final lib time [] s = if is_empty s.0 then some s else none
  drain_final lib time (r ∷ rounds) s =
      let after = final_pass lib time r s in
      let rest = drain_final lib time rounds after in
      if is_empty s.0
      then some s
      else if leb (length s.0) (length after.0)
      then some after
      else rest
