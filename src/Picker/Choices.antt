-- ===== src/Picker/Choices.antt =====
-- backend/internal/picker: what coldestOutBand and fastestCandidate choose.
use simple_up_manage.Prelude.{
  ℕ, ◌-◌, ◌≡◌, inl, inr, refl, min, Bool, true, false, not, ◌&&◌, ◌||◌, Option, none, some, List,
  [], ◌∷◌, is_empty, leb, ◌==◌, if◌then◌else◌, Float64, arith, Bool-cases, OnSome, All, ◌∙◌,
}
use simple_up_manage.Picker.Candidates.{Candidate}
use simple_up_manage.Picker.Selection.{
  best_of, smallest, places, is_fast, is_cheaper, latency_slack, fastest_candidate, may_explore,
  is_colder, coldest_out_band,
}

abbrev pub is_found {ℓ} : {A : Type ℓ} → Option A → Bool
is_found none = false
is_found (some a) = true

abbrev pub any {ℓ} : {A : Type ℓ} → (A → Bool) → List A → Bool
any p [] = false
any p (x ∷ xs) = p x || any p xs

OnSome-map {ℓ κ μ} :
    {A : Type ℓ} {P : A → Type κ} {Q : A → Type μ} (o : Option A)
    → ((a : A) → P a → Q a)
    → OnSome P o
    → OnSome Q o
OnSome-map none f h = tt
OnSome-map (some a) f h = f a h

OnSome-pair {ℓ κ μ} :
    {A : Type ℓ} (P : A → Type κ) (Q : A → Type μ) (o : Option A)
    → OnSome P o
    → OnSome Q o
    → OnSome (λ a. P a × Q a) o
OnSome-pair P Q none p q = tt
OnSome-pair P Q (some a) p q = (p, q)

module _ {ℓ} {A : Type ℓ} (fits : A → Bool) (better : A → A → Bool) where
  best_of-found_from : (cs : List A) (b : A) → is_found (best_of fits better cs (some b)) ≡ true
  best_of-found_from [] b = refl
  best_of-found_from (c ∷ cs) b = ground (arith, best_of-found_from cs b, best_of-found_from cs c)

  -- The loop finds something exactly when something fits.
  best_of-found : (cs : List A) → is_found (best_of fits better cs none) ≡ any fits cs
  best_of-found [] = refl
  best_of-found (c ∷ cs) = ground (arith, best_of-found cs, best_of-found_from cs c)

  pub best_of-fits :
      (cs : List A) (chosen : Option A)
      → OnSome (λ c. fits c ≡ true) chosen
      → OnSome (λ c. fits c ≡ true) (best_of fits better cs chosen)
  best_of-fits [] chosen h = h
  best_of-fits (c ∷ cs) none h = elim (Bool-cases (fits c)) [
    | inl e ↦ rw e (best_of-fits cs (some c) e)
    | inr e ↦ rw e (best_of-fits cs none tt)
  ]
  best_of-fits (c ∷ cs) (some b) h = elim (Bool-cases (fits c && better c b)) [
    | inl e ↦ rw e (best_of-fits cs (some c) (ground arith))
    | inr e ↦ rw e (best_of-fits cs (some b) h)
  ]

  -- Nothing that fits is better than the choice.
  abbrev pub IsLeast : List A → A → Type 0
  IsLeast cs b = All (λ c. fits c && better c b ≡ false) cs

  module _ (irrefl : (a : A) → better a a ≡ false)
      (trans : (a b c : A) → better a b ≡ true → better b c ≡ true → better a c ≡ true) where
    -- The choice is no worse than the first one, and nothing that was met is better.
    abbrev IsLeastFrom : List A → A → A → Type ℓ
    IsLeastFrom cs b r = ((x : A) → better x b ≡ false → better x r ≡ false) × IsLeast cs r

    best_of-from :
        (cs : List A) (b : A) → OnSome (IsLeastFrom cs b) (best_of fits better cs (some b))
    best_of-from [] b = (λ x h. h, tt)
    best_of-from (c ∷ cs) b = elim (Bool-cases (fits c && better c b)) [
      | inl e ↦ rw e (
          OnSome-map (best_of fits better cs (some c))
            (λ r h.
              (λ x k. h.0 x (ground (arith, trans x c b)), (ground (arith, h.0 c (irrefl c)), h.1)))
            (best_of-from cs c))
      | inr e ↦ rw e (
          OnSome-map (best_of fits better cs (some b)) (λ r h. (h.0, (ground (arith, h.0 c), h.1)))
            (best_of-from cs b))
    ]

    best_of-IsLeast : (cs : List A) → OnSome (IsLeast cs) (best_of fits better cs none)
    best_of-IsLeast [] = tt
    best_of-IsLeast (c ∷ cs) = elim (Bool-cases (fits c)) [
      | inl e ↦ rw e (
          OnSome-map (best_of fits better cs (some c))
            (λ r h. (ground (arith, h.0 c (irrefl c)), h.1)) (best_of-from cs c))
      | inr e ↦
          rw e (
            OnSome-map (best_of fits better cs none) (λ r h. (ground arith, h))
              (best_of-IsLeast cs))
    ]

-- A measured member of the pool is no slower than the fastest.
smallest-attained :
    {A : Type 0} (fits : A → Bool) (value : A → ℕ) (cs : List A)
    → OnSome (λ n. any (λ c. fits c && value c == n) cs ≡ true) (smallest fits value cs)
smallest-attained fits value [] = tt
smallest-attained fits value (c ∷ cs) =
    by_rest (smallest fits value cs) (smallest-attained fits value cs)
  where
    by_rest :
        (rest : Option ℕ)
        → OnSome (λ n. any (λ q. fits q && value q == n) cs ≡ true) rest
        → OnSome
            (λ n. (fits c && value c == n || any (λ q. fits q && value q == n) cs) ≡ true)
            (if fits c
              then some (elim rest [ none ↦ value c | some n ↦ min (value c) n ])
              else rest)
    by_rest none h = ground arith
    by_rest (some n) h = elim (Bool-cases (fits c)) [
      | inr e ↦ rw e h
      | inl e ↦ rw e (elim (Bool-cases (leb (value c) n)) [
        | inl le ↦ let m : min (value c) n ≡ value c = ground arith in rw m (ground arith)
        | inr gt ↦ let m : min (value c) n ≡ n = ground arith in rw m (ground (arith, h))
      ])
    ]

module _ {A : Type 0} (p q : A → Bool) where
  any_mono : (cs : List A) → ((c : A) → p c ≡ true → q c ≡ true) → any p cs ≡ true → any q cs ≡ true
  any_mono [] h e = e
  any_mono (c ∷ cs) h e = ground (arith, h c, any_mono cs h)

module _ {A : Type 0} (p : A → Bool) where
  any_nonempty : (cs : List A) → any p cs ≡ true → any p cs ≡ not (is_empty cs)
  any_nonempty [] e = refl
  any_nonempty (c ∷ cs) e = e

  any_all : (cs : List A) → ((c : A) → p c ≡ true) → any p cs ≡ not (is_empty cs)
  any_all [] h = refl
  any_all (c ∷ cs) h = ground (arith, h c)

module _ {F : Type 0} ⦃fl : Float64 F⦄ where
  is_colder_irrefl : (a : ℕ × Candidate F) → is_colder a a ≡ false
  unfolding is_colder
  is_colder_irrefl a = ground arith

  is_colder_trans :
      (a b c : ℕ × Candidate F) → is_colder a b ≡ true → is_colder b c ≡ true → is_colder a c ≡ true
  unfolding is_colder
  is_colder_trans a b c h k = ground arith

  -- coldestOutBand chooses a candidate exactly when there is an eligible one outside the band
  -- without a bad record, and then one of these such that none of them has fewer samples, or as few
  -- and a lower id.
  coldest_out_band-IsLeast :
      (cands : List (Candidate F)) (band : List ℕ)
      → (is_found (coldest_out_band cands band) ≡ any (may_explore band) (places 0 cands))
        × OnSome
            (λ chosen.
              (may_explore band chosen ≡ true)
              × IsLeast (may_explore band) is_colder (places 0 cands) chosen)
            (coldest_out_band cands band)
  unfolding coldest_out_band
  coldest_out_band-IsLeast cands band =
      let fits = may_explore ⦃fl = fl⦄ band in
      (
        best_of-found fits is_colder (places 0 cands),
        OnSome-pair _ _ (best_of fits is_colder (places 0 cands) none)
            (best_of-fits fits is_colder (places 0 cands) none tt)
            (best_of-IsLeast fits is_colder is_colder_irrefl is_colder_trans (places 0 cands)),
      )

  is_fast_at :
      (min_samples n : ℕ) (c : Candidate F)
      → fl.ltf (latency_slack n) (fl.of_int 0) ≡ false
      → leb min_samples c.latency_samples ≡ true
      → c.ttft_p50 ≡ n
      → is_fast min_samples (some n) c ≡ true
  unfolding is_fast
  is_fast_at min_samples n c slack measured e =
      let level : c.ttft_p50 - n ≡ 0 = omega arith in rw (level, slack) (ground arith)

  is_fast-any :
      (min_samples : ℕ) (pool : List (Candidate F)) (fastest : Option ℕ)
      → ((n : ℕ) → fl.ltf (latency_slack n) (fl.of_int 0) ≡ false)
      → OnSome
          (λ n. any (λ q. leb min_samples q.latency_samples && q.ttft_p50 == n) pool ≡ true)
          fastest
      → any (is_fast min_samples fastest) pool ≡ not (is_empty pool)
  unfolding is_fast
  is_fast-any min_samples pool none slack h =
      any_all (is_fast ⦃fl = fl⦄ min_samples none) pool (λ c. refl)
  is_fast-any min_samples pool (some n) slack h = any_nonempty _ pool (
      any_mono _ _ pool (λ c k. is_fast_at min_samples n c (slack n) (ground arith) (ground arith))
        h)

  -- If float64 never puts the latency slack below zero, fastestCandidate chooses a candidate exactly
  -- when the pool is not empty, and one that is measured and within the slack of the fastest
  -- measured one, if any is measured.
  fastest_candidate_found :
      (pool : List (Candidate F)) (min_samples : ℕ)
      → ((n : ℕ) → fl.ltf (latency_slack n) (fl.of_int 0) ≡ false)
      → (is_found (fastest_candidate pool min_samples) ≡ not (is_empty pool))
        × OnSome
            (λ c.
              is_fast min_samples
                (smallest (λ q. leb min_samples q.latency_samples) (λ q. q.ttft_p50) pool)
                c
              ≡ true)
            (fastest_candidate pool min_samples)
  unfolding fastest_candidate
  fastest_candidate_found pool min_samples slack =
      let fits : Candidate F → Bool = λ q. leb min_samples q.latency_samples in
      let fastest = smallest fits (λ q. q.ttft_p50) pool in
      (
        best_of-found (is_fast min_samples fastest) is_cheaper pool
            ∙ is_fast-any min_samples pool fastest slack
                (smallest-attained fits (λ q. q.ttft_p50) pool),
        best_of-fits (is_fast min_samples fastest) is_cheaper pool none tt,
      )
