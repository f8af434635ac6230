-- ===== src/Circuit/Failures.antt =====
-- backend/internal/routinghealth/store.go: which observations open and close a gate, in terms of the
-- failures in the window and of who reports.
use simple_up_manage.Prelude.{
  ℕ, ◌+◌, ◌≤◌, ◌≡◌, ◌↔◌, ◌⊎◌, inl, inr, min, String, true, false, Option, some, [], length,
  count_if, ltb, Float64, arith, OnSome, HasSome, Option-cases, Bool-cases, Bool-cases,
}
use simple_up_manage.Domain.Settings.{SchedulerSettings}
use simple_up_manage.Domain.Routing.{Dimension, RoutingCircuit, next_u64}
use simple_up_manage.Circuit.Row.{open_circuit, close_circuit}
use simple_up_manage.Circuit.Admission.{Admission, generation_of}
use simple_up_manage.Circuit.Observe.{
  Outcome, is_owned, is_stale, is_leased_by_other, count_failure, failure_weight, track_attempt,
  window_cut, settle_success, settle_failure, settle_outcome, observe_row,
}

-- At least 8 attempts, of which at least two fifths failed.
abbrev pub IsSustained : (F : Type 0) ⦃fl : Float64 F⦄ → RoutingCircuit → Type 0
IsSustained F ⦃fl⦄ r =
    (8 ≤ length r.attempt_times)
    × (fl.lef (fl.mul (fl.of_int (length r.attempt_times)) (fl.lit 4 1)) (fl.of_int r.failures)
        ≡ true)

module _ {F : Type 0} ⦃fl : Float64 F⦄ where
  -- The failures in the window, with the new ones.
  abbrev pub in_window : SchedulerSettings F → ℕ → Outcome → RoutingCircuit → ℕ
  in_window cfg now o r =
      count_if (λ t. ltb (window_cut cfg now) t) r.failure_times + failure_weight cfg o

  module _ (cfg : SchedulerSettings F) (now : ℕ) (d : Dimension) (token : String) (o : Outcome)
      (r : RoutingCircuit) where
    -- The row after a counted failure: what opens it, and what alone opens it.
    abbrev pub CountsTo : RoutingCircuit → Type 0
    CountsTo r' =
        ((o.limited ≡ true)
            ⊎ ((o.immediate ≡ true) ⊎ ((8 ≤ in_window cfg now o r) ⊎ IsSustained F r'))
          → r'.is_open ≡ true)
        × (r'.is_open ≡ true
            → (o.limited ≡ true)
              ⊎ ((o.immediate ≡ true)
                  ⊎ ((cfg.circuit_failure_threshold ≤ in_window cfg now o r) ⊎ IsSustained F r')))
        × (r'.failures ≡ min 64 (in_window cfg now o r))

    -- The admission of the request, if it had one, saw this generation of the row.
    abbrev pub IsCurrent : Option Admission → Type 0
    IsCurrent a = OnSome (λ x. generation_of r.scope x.generations ≡ some r.generation) a

    is_stale_iff : (is_stale o true r ≡ false) ↔ IsCurrent o.admission
    unfolding is_stale
    is_stale_iff = elim (Option-cases o.admission) [
      | inl e ↦ rw e (ground arith)
      | inr (x, e) ↦ rw e (elim (Option-cases (generation_of r.scope x.generations)) [
        | inl f ↦ (ground (arith, f), ground (arith, f))
        | inr (g, f) ↦ (ground (arith, f), ground (arith, f))
      ])
    ]

    -- The success of the request that holds the row's live lease and saw its generation.
    abbrev pub Validates : Type 0
    Validates =
        (is_owned r token now ≡ true)
        × (o.neutral ≡ false)
        × (o.success ≡ true)
        × IsCurrent o.admission

    -- A row that is closed: of the next generation, with no lease, check or failure left.
    abbrev pub IsFresh : RoutingCircuit → Type 0
    IsFresh r' =
        (r'.is_open ≡ false)
        × (r'.generation ≡ next_u64 r.generation)
        × (r'.lease ≡ "")
        × (r'.check_lease ≡ "")
        × (r'.failures ≡ 0)
        × (r'.failure_times ≡ [])
        × (r'.until ≡ 0)

    -- An observation closes an open row exactly when it is of a success that is not neutral, of the
    -- request that holds the row's live lease, whose admission, if it had one, saw the row's
    -- generation; and the row is then of the next generation, with no lease, check or failure left.
    pub success_closes_iff :
        r.is_open ≡ true
        → (HasSome (λ r'. r'.is_open ≡ false) (observe_row cfg now d token o r) → Validates)
          × (Validates → HasSome IsFresh (observe_row cfg now d token o r))
    unfolding observe_row settle_outcome settle_success settle_failure count_failure
        is_leased_by_other open_circuit close_circuit track_attempt
    success_closes_iff e = elim (Bool-cases (is_owned r token now)) [
      | inl w ↦ rw w (ground (arith, e, is_stale_iff), ground (arith, e, is_stale_iff))
      | inr w ↦ rw w (ground (arith, e), ground (arith, e))
    ]
