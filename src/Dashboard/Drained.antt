-- ===== src/Dashboard/Drained.antt =====
-- backend/internal/dashboard/settle.go: drainFinal comes to an end, and what it leaves in the queue
-- cannot be settled.
use simple_up_manage.Prelude.{
  ℕ, suc, ◌+◌, ◌≤◌, ◌≡◌, ◌⊎◌, refl, sym, ap, ◌∙◌, inl, inr, Bool, true, false, not, List, [], ◌∷◌,
  ◌++◌, map, All, length, length-append, select, leb, Bool-cases, HasSome, arith, Float64,
}
use mathlib.Core.List.{append_assoc, append-nil}
use simple_up_manage.Domain.Provider.{TextLib}
use simple_up_manage.Dashboard.Money.{Rounding}
use simple_up_manage.Dashboard.Settle.{
  QueuedEvent, Db, SettleError, Settled, committed, rejected, process,
}
use simple_up_manage.Dashboard.Queue.{
  Round, put_back, step_due, drain_due, drain_once, due_now, final_pass, drain_final,
}

module _ {F : Type 0} ⦃fl : Float64 F⦄ ⦃ro : Rounding F⦄ where
  abbrev pub is_rejected : Settled F → Bool
  is_rejected (committed db) = false
  is_rejected (rejected e) = true

  Settled-cases :
      (x : Settled F) → ((db : Db F) × (x ≡ committed db)) ⊎ ((e : SettleError) × (x ≡ rejected e))
  Settled-cases (committed db) = inl (db, refl)
  Settled-cases (rejected e) = inr (e, refl)

  -- All these events are rejected on the tables.
  abbrev pub Hopeless : TextLib → F → Round F → Db F → List (QueuedEvent F) → Type 0
  Hopeless lib time r db due =
      All (λ e. is_rejected (process lib time (r.processed_at e) e db) ≡ true) due

  -- What a loop does that settles nothing.
  record Stays (lib : TextLib) (time : F) (r : Round F) (due : List (QueuedEvent F))
      (s s' : List (QueuedEvent F) × Db F) : Type 0 where
    queue : s'.0 ≡ s.0 ++ map (put_back r) due
    db : s'.1 ≡ s.1
    hopeless : Hopeless lib time r s.1 due

  drain_due-step :
      (lib : TextLib) (time : F) (r : Round F) (e : QueuedEvent F) (due : List (QueuedEvent F))
      (s : List (QueuedEvent F) × Db F) (x : Settled F)
      → process lib time (r.processed_at e) e s.1 ≡ x
      → drain_due lib time r (e ∷ due) s ≡ drain_due lib time r due (step_due r e x s)
  unfolding drain_due
  drain_due-step lib time r e due s x q = ap (λ y. drain_due lib time r due (step_due r e y s)) q

  drain_due-le :
      (lib : TextLib) (time : F) (r : Round F) (due : List (QueuedEvent F))
      (s : List (QueuedEvent F) × Db F)
      → length (drain_due lib time r due s).0 ≤ length s.0 + length due
  unfolding drain_due
  drain_due-le lib time r [] s = omega arith
  drain_due-le lib time r (e ∷ due) s =
      elim (Settled-cases (process lib time (r.processed_at e) e s.1)) [
        | inl (db', q) ↦
            rw (drain_due-step lib time r e due s _ q)
              (omega (arith, drain_due-le lib time r due (s.0, db')))
        | inr (x, q) ↦ rw (drain_due-step lib time r e due s _ q) (
            omega (
              arith,
              drain_due-le lib time r due (s.0 ++ put_back r e ∷ [], s.1),
              length-append s.0 (put_back r e ∷ []),
            ))
      ]

  drain_due-Stays :
      (lib : TextLib) (time : F) (r : Round F) (due : List (QueuedEvent F))
      (s : List (QueuedEvent F) × Db F)
      → length s.0 + length due ≤ length (drain_due lib time r due s).0
      → Stays lib time r due s (drain_due lib time r due s)
  unfolding drain_due
  drain_due-Stays lib time r [] s h = record {
    queue = sym (append-nil s.0);
    db = refl;
    hopeless = tt;
  }
  drain_due-Stays lib time r (e ∷ due) s h =
      elim (Settled-cases (process lib time (r.processed_at e) e s.1)) [
        | inl (db', q) ↦ absurd (
            omega (
              arith,
              drain_due-le lib time r due (s.0, db'),
              rw (drain_due-step lib time r e due s _ q) at h,
            ))
        | inr (x, q) ↦ rw (drain_due-step lib time r e due s _ q) (
            let rest =
              drain_due-Stays lib time r due (s.0 ++ put_back r e ∷ [], s.1)
                (omega (
                  arith,
                  rw (drain_due-step lib time r e due s _ q) at h,
                  length-append s.0 (put_back r e ∷ []),
                )) in
            record {
              queue = rest.queue ∙ append_assoc s.0 (put_back r e ∷ []) (map (put_back r) due);
              db = rest.db;
              hopeless = (ap is_rejected q, rest.hopeless);
            })
      ]

  -- Every event is due at once in a pass of drainFinal.
  all_due :
      (now : ℕ) (q : List (QueuedEvent F))
      → (select (λ e. leb e.next now) (map due_now q) ≡ map due_now q)
        × (select (λ e. not (leb e.next now)) (map due_now q) ≡ [])
  all_due now [] = (refl, refl)
  all_due now (e ∷ q) = (ground (arith, (all_due now q).0), ground (arith, (all_due now q).1))

  length-due : (q : List (QueuedEvent F)) → length (map due_now q) ≡ length q
  length-due [] = refl
  length-due (e ∷ q) = ap suc (length-due q)

  -- The tables that drainFinal leaves: nothing is queued, or what is queued has just been put back
  -- and is rejected on the tables, with whatever else is queued.
  abbrev pub Drained : TextLib → F → List (QueuedEvent F) × Db F → Type 0
  Drained lib time s =
      (s.0 ≡ [])
      ⊎ ((r : Round F) × (due : List (QueuedEvent F)) × (s.0 ≡ map (put_back r) due)
          × Hopeless lib time r s.1 due)

  final_pass-due :
      (lib : TextLib) (time : F) (r : Round F) (s : List (QueuedEvent F) × Db F)
      → final_pass lib time r s ≡ drain_due lib time r (map due_now s.0) ([], s.1)
  unfolding drain_once
  final_pass-due lib time r s = rw ((all_due r.now s.0).0, (all_due r.now s.0).1)

  final_pass-Drained :
      (lib : TextLib) (time : F) (r : Round F) (s : List (QueuedEvent F) × Db F)
      → length s.0 ≤ length (final_pass lib time r s).0
      → Drained lib time (final_pass lib time r s)
  final_pass-Drained lib time r s h = rw (final_pass-due lib time r s) (
      let stays =
        drain_due-Stays lib time r (map due_now s.0) ([], s.1)
          (omega (arith, length-due s.0, rw (final_pass-due lib time r s) at h)) in
      inr (r, map due_now s.0, stays.queue, rw stays.db stays.hopeless))

  -- With the clocks of as many passes as events are queued, drainFinal comes to an end; and then the
  -- queue is empty, or every event in it is one that the last pass has put back and that process still
  -- rejects on the tables as they then are.
  pub drain_final-Drained :
      (lib : TextLib) (time : F) (rounds : List (Round F)) (s : List (QueuedEvent F) × Db F)
      → length s.0 ≤ length rounds
      → HasSome (Drained lib time) (drain_final lib time rounds s)
  unfolding drain_final
  drain_final-Drained lib time [] ([], db) h = inl refl
  drain_final-Drained lib time [] (e ∷ q, db) h = absurd (omega arith)
  drain_final-Drained lib time (r ∷ rounds) ([], db) h = inl refl
  drain_final-Drained lib time (r ∷ rounds) (e ∷ q, db) h =
      elim (Bool-cases (leb (length (e ∷ q)) (length (final_pass lib time r (e ∷ q, db)).0))) [
        | inl stuck ↦ rw stuck (final_pass-Drained lib time r (e ∷ q, db) (ground (arith, stuck)))
        | inr less ↦ rw less (
            drain_final-Drained lib time rounds (final_pass lib time r (e ∷ q, db))
              (ground (arith, less)))
      ]
