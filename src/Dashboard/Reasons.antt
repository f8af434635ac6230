-- ===== src/Dashboard/Reasons.antt =====
-- backend/internal/dashboard/settle.go: the reasons of a settled request, each named at most once, and
-- what the loop over them does to a row and to its delta.
use simple_up_manage.Prelude.{
  ℕ, ◌+◌, ◌≤◌, ◌≡◌, refl, String, Bool, true, false, ◌&&◌, Option, none, some, List, [], ◌∷◌, ◌++◌,
  count_if, count_if-append, ltb, if◌then◌else◌, ◌⊎◌, arith, Float64,
}
use simple_up_manage.Dashboard.Facts.{RequestFact, AttemptFact, RequestEnd, Agg}
use simple_up_manage.Dashboard.Aggregate.{
  Reason, unbound, missing_sale, missing_price, missing_usage, interrupted, reason_of, bump, mark,
  on_reason, over_reasons,
}
use simple_up_manage.Dashboard.Balance.{Counter, started, because, value}
use simple_up_manage.Dashboard.Settle.{when, reasons_for}

abbrev same : Reason → Reason → Bool
same unbound unbound = true
same missing_sale missing_sale = true
same missing_price missing_price = true
same missing_usage missing_usage = true
same interrupted interrupted = true
same _ _ = false

-- A reason moves this counter.
abbrev pub hits : Counter → Option Reason → Bool
hits (because k) (some j) = same k j
hits (because k) none = false
hits _ _ = false

abbrev pub named : Counter → List String → ℕ
named c reasons = count_if (λ s. hits c (reason_of s)) reasons

named-when :
    (c : Counter) (b : Bool) (s : String)
    → named c (when b s) ≡ (if b then if hits c (reason_of s) then 1 else 0 else 0)
named-when c true s = ground arith
named-when c false s = refl

hits-none : (c : Counter) → hits c none ≡ false
hits-none (because k) = refl
hits-none started = refl
hits-none _ = refl

-- The reasons as conditions: the last two of the same name exclude each other.
named_le_one :
    (c : Counter) (a b d e g h : Bool)
    → (e && h) ≡ false
    → named c (
        when a "unbound"
        ++ when b "missing_sale"
        ++ when d "missing_price"
        ++ when e "missing_usage"
        ++ when g "interrupted"
        ++ when h "missing_usage")
      ≤ 1
unfolding reason_of
named_le_one (because unbound) a b d e g h k = simp (count_if-append, named-when) (ground arith)
named_le_one (because missing_sale) a b d e g h k =
    simp (count_if-append, named-when) (ground arith)
named_le_one (because missing_price) a b d e g h k =
    simp (count_if-append, named-when) (ground arith)
named_le_one (because missing_usage) a b d e g h k =
    simp (count_if-append, named-when) (ground arith)
named_le_one (because interrupted) a b d e g h k = simp (count_if-append, named-when) (ground arith)
named_le_one started a b d e g h k = simp (count_if-append, named-when) (ground arith)
named_le_one _ a b d e g h k = simp (count_if-append, named-when) (ground arith)

module _ {F : Type 0} where
  value-bump :
      (c : Counter) (k : Reason) (r : Agg F)
      → value c (bump k r) ≡ value c r + (if hits c (some k) then 1 else 0)
  unfolding bump
  value-bump (because j) k r = grind arith
  value-bump started k r = grind arith
  value-bump _ k r = grind arith

  value-mark :
      (c : Counter) (k : Reason) (r : Agg F)
      → value c (mark k r) ≡ (if hits c (some k) then 1 else value c r)
  unfolding mark
  value-mark (because j) k r = grind arith
  value-mark started k r = grind arith
  value-mark _ k r = grind arith

  value-on_bump :
      (c : Counter) (o : Option Reason) (r : Agg F)
      → value c (on_reason bump o r) ≡ value c r + (if hits c o then 1 else 0)
  value-on_bump c none r = rw (hits-none c) (omega arith)
  value-on_bump c (some k) r = value-bump c k r

  value-on_mark :
      (c : Counter) (o : Option Reason) (r : Agg F)
      → value c (on_reason mark o r) ≡ (if hits c o then 1 else value c r)
  value-on_mark c none r = rw (hits-none c)
  value-on_mark c (some k) r = value-mark c k r

  -- The row gains one for each mention of a reason, the delta one if it is mentioned at all.
  value-over_bump :
      (c : Counter) (reasons : List String) (r : Agg F)
      → value c (over_reasons bump reasons r) ≡ value c r + named c reasons
  unfolding over_reasons
  value-over_bump c [] r = omega arith
  value-over_bump c (s ∷ reasons) r = ground (
    arith,
    value-over_bump c reasons (on_reason bump (reason_of s) r),
    value-on_bump c (reason_of s) r,
  )

  pub value-over_mark :
      (c : Counter) (reasons : List String) (r : Agg F)
      → value c (over_reasons mark reasons r) ≡ (if ltb 0 (named c reasons) then 1 else value c r)
  unfolding over_reasons
  value-over_mark c [] r = refl
  value-over_mark c (s ∷ reasons) r = ground (
    arith,
    value-over_mark c reasons (on_reason mark (reason_of s) r),
    value-on_mark c (reason_of s) r,
  )

  -- With reasons that are named at most once, the two gain the same.
  pub over_reasons-agree :
      (c : Counter) (reasons : List String) (row row' delta : Agg F)
      → named c reasons ≤ 1
      → (value c delta ≡ 0) ⊎ (named c reasons ≡ 0)
      → value c row' ≡ value c row + value c delta
      → value c (over_reasons bump reasons row')
        ≡ value c row + value c (over_reasons mark reasons delta)
  over_reasons-agree c reasons row row' delta once free e =
      ground (arith, value-over_bump c reasons row', value-over_mark c reasons delta)

  -- The reasons of a request name each reason at most once.
  pub reasons_for-once :
      ⦃fl : Float64 F⦄ (c : Counter) (f : RequestFact F) (p : RequestEnd F)
      (attempts : List (AttemptFact F))
      → named c (reasons_for f p attempts) ≤ 1
  unfolding reasons_for
  reasons_for-once c f p attempts = named_le_one c _ _ _ _ _ _ (ground arith)
