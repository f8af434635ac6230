-- ===== src/Dashboard/Cost/Writes.antt =====
-- backend/internal/dashboard/catalog.go: how many tokens ComputeCost bills as cache writes, and the
-- price that it takes for them.
use simple_up_manage.Prelude.{
  ℕ, ◌+◌, ◌≡◌, refl, ap, sym, ◌∙◌, inl, inr, Bool, true, false, not, ◌||◌, Option, none, some, ltb,
  ◌==◌, if◌then◌else◌, String, Float64, arith, Bool-cases,
}
use simple_up_manage.Domain.Provider.{TextLib}
use simple_up_manage.Dashboard.Money.{Rounding, round8}
use simple_up_manage.Dashboard.Cost.{
  ModelPrice, UsageTokens, Prices, Costs, CostDetail, normalize_cache_write, written_tokens,
  is_some, is_priority_tier, has_priority_prices, resolve_item_prices, long_context, scale_prices,
  LongCtx, sum_costs, scale_costs, scale_costs_but_writes, item_costs, tier_multiplier_for,
  compute_cost,
}

-- What the details say, cut at the aggregate, where there is one.
abbrev pub billed_writes : UsageTokens → ℕ
billed_writes u =
    let details = u.cache_write_5m + u.cache_write_1h in
    if u.cache_write == 0
    then details
    else if details == 0 || ltb u.cache_write details
    then u.cache_write
    else details

module _ (F : Type 0) ⦃fl : Float64 F⦄ ⦃ro : Rounding F⦄ where
  -- For a card with prices by duration (breakdown mode), and counts that are not negative: as many
  -- tokens are billed as cache writes, those of both durations together, as the details sum up to, or
  -- the aggregate where it is positive and the details are missing or exceed it; whatever the
  -- rounding of the shares gives.
  pub written_tokens-sum :
      (u : UsageTokens) → (written_tokens F u).0 + (written_tokens F u).1 ≡ billed_writes u
  unfolding written_tokens normalize_cache_write
  written_tokens-sum u = ground arith

module _ {F : Type 0} ⦃fl : Float64 F⦄ ⦃ro : Rounding F⦄ where
  -- The total of the receipt, if there is one.
  abbrev pub total_of : Option (CostDetail F) → Option F
  total_of none = none
  total_of (some d) = some d.total

  total_of-if :
      (b : Bool) (d : CostDetail F)
      → total_of (if b then none else some d) ≡ (if b then none else some d.total)
  total_of-if true d = refl
  total_of-if false d = refl

  -- The total from the costs of the items.
  abbrev total_at : Bool → F → F → F → Costs F → Option F
  total_at refused tier time effort c =
      let total =
        sum_costs (scale_costs effort (scale_costs_but_writes time (scale_costs tier c))) in
      if refused || (ro.is_nan total || ro.is_inf total) then none else some (round8 total)

  compute_cost-total :
      (lib : TextLib) (price : ModelPrice F) (protocol : String) (time effort : F) (u : UsageTokens)
      → total_of (compute_cost lib price protocol time effort u)
        ≡ total_at
            (not price.is_ok || not u.usage_known)
            (tier_multiplier_for lib price u.service_tier)
            time
            effort
            (item_costs
              (scale_prices
                (long_context price protocol u)
                (resolve_item_prices lib price u.service_tier))
              protocol
              u)
  unfolding compute_cost
  compute_cost-total lib price protocol time effort u = elim (Bool-cases price.is_ok) [
    | inl e ↦
        rw e (elim (Bool-cases u.usage_known) [ inl k ↦ rw k (total_of-if _ _) | inr k ↦ rw k ])
    | inr e ↦ rw e
  ]

  -- Prices with a breakdown that agree but for the price of the aggregate.
  record Agree (p q : Prices F) : Type 0 where
    inp : p.inp ≡ q.inp
    out : p.out ≡ q.out
    read : p.read ≡ q.read
    w5 : p.w5 ≡ q.w5
    w1 : p.w1 ≡ q.w1
    left : p.breakdown ≡ true
    right : q.breakdown ≡ true

  scale_prices-Agree :
      (l : LongCtx F) (p q : Prices F) → Agree p q → Agree (scale_prices l p) (scale_prices l q)
  unfolding scale_prices
  scale_prices-Agree l p q h = elim (Bool-cases l.applied) [
    | inl e ↦ rw e (ground arith)
    | inr e ↦ rw e h
  ]

  item_costs-Agree :
      (p q : Prices F) (protocol : String) (u : UsageTokens)
      → Agree p q
      → item_costs p protocol u ≡ item_costs q protocol u
  item_costs-Agree p q protocol u h = ground arith

  resolve_item_prices-Agree :
      (lib : TextLib) (price : ModelPrice F) (tier : String) (a b : F)
      → (is_some price.cache_write_5m || is_some price.cache_write_1h) ≡ true
      → Agree
          (resolve_item_prices lib (record price { cache_write_5m_priority = some a }) tier)
          (resolve_item_prices lib (record price { cache_write_5m_priority = some b }) tier)
  unfolding resolve_item_prices has_priority_prices
  resolve_item_prices-Agree lib price tier a b h = elim (Bool-cases (is_priority_tier lib tier)) [
    | inl e ↦ rw (e, h) (ground arith)
    | inr e ↦ rw (e, h) (ground arith)
  ]

  -- For a card that prices cache writes by duration, the card's price of the priority tier for cache
  -- writes changes no cost: the totals at two such prices are the same, for every usage and tier.
  pub priority_write_ignored :
      (lib : TextLib) (price : ModelPrice F) (protocol : String) (time effort : F) (u : UsageTokens)
      (a b : F)
      → (is_some price.cache_write_5m || is_some price.cache_write_1h) ≡ true
      → total_of (
          compute_cost lib
            (record price { cache_write_5m_priority = some a })
            protocol
            time
            effort
            u)
        ≡ total_of (
            compute_cost lib
              (record price { cache_write_5m_priority = some b })
              protocol
              time
              effort
              u)
  unfolding tier_multiplier_for has_priority_prices long_context
  priority_write_ignored lib price protocol time effort u a b h =
      compute_cost-total lib (record price { cache_write_5m_priority = some a }) protocol time
        effort u
      ∙ ap
          (total_at (not price.is_ok || not u.usage_known)
            (tier_multiplier_for lib (record price { cache_write_5m_priority = some a })
              u.service_tier)
            time effort)
          (item_costs-Agree _ _ protocol u (
            scale_prices-Agree (long_context price protocol u) _ _
              (resolve_item_prices-Agree lib price u.service_tier a b h)))
      ∙ sym (
          compute_cost-total lib (record price { cache_write_5m_priority = some b }) protocol time
            effort u)
