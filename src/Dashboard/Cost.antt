-- ===== src/Dashboard/Cost.antt =====
-- backend/internal/dashboard/catalog.go: ComputeCost, which prices the tokens of one request from a
-- price card. Counts of tokens are natural numbers: the negative ones that an upstream could report,
-- which normalizeCacheWrite cuts to 0, are left out.
pub mod Writes
use simple_up_manage.Prelude.{
  ℕ, ◌+◌, ◌-◌, String, Bool, true, false, not, ◌&&◌, ◌||◌, Option, none, some, ltb, leb, ◌==◌,
  if◌then◌else◌, str_eq, Float64,
}
use mathlib.Core.Option
use simple_up_manage.Prelude.Text.{trim_space}
use simple_up_manage.Domain.Provider.{TextLib}
use simple_up_manage.Dashboard.Money.{Rounding, round8}
use simple_up_manage.Dashboard.Rules.{one}

pub record ModelPrice (F : Type 0) : Type 0 where
  pub input : F
  pub output : F
  pub cache_read_coeff : F
  pub cache_write_coeff : F
  pub matched : String
  pub is_ok : Bool
  pub cache_read : Option F
  pub cache_write_5m : Option F
  pub cache_write_1h : Option F
  pub input_priority : Option F
  pub output_priority : Option F
  pub cache_read_priority : Option F
  pub cache_write_5m_priority : Option F
  pub long_ctx_threshold : ℕ
  pub long_ctx_input_mult : F
  pub long_ctx_output_mult : F

pub record UsageTokens : Type 0 where
  pub input : ℕ
  pub output : ℕ
  pub cache_read : ℕ
  pub cache_write : ℕ
  pub cache_write_5m : ℕ
  pub cache_write_1h : ℕ
  pub service_tier : String
  pub usage_known : Bool

-- The results of resolveItemPrices; `breakdown` stands for the write mode of this name.
pub record Prices (F : Type 0) : Type 0 where
  pub inp : F
  pub out : F
  pub read : F
  pub breakdown : Bool
  pub w5 : F
  pub w1 : F
  pub write_agg : F

-- The costs of the items.
pub record Costs (F : Type 0) : Type 0 where
  pub input : F
  pub output : F
  pub read : F
  pub write : F

-- LongCtxDetail.
pub record LongCtx (F : Type 0) : Type 0 where
  pub threshold : ℕ
  pub total_tokens : ℕ
  pub applied : Bool
  pub input_multiplier : F
  pub output_multiplier : F

-- What ComputeCost fills into a CostDetail, besides copies of its arguments; a multiplier is there if it is not 1.
pub record CostDetail (F : Type 0) : Type 0 where
  pub input_uncached : Option ℕ
  pub prices : Prices F
  pub costs : Costs F
  pub service_tier : String
  pub tier_multiplier : Option F
  pub long_ctx : LongCtx F
  pub time_multiplier : Option F
  pub effort_multiplier : Option F
  pub total : F

unfoldable pub is_priority_tier : TextLib → String → Bool
is_priority_tier lib tier =
    let t = lib.to_lower (trim_space tier) in
    str_eq t "priority" || str_eq t "fast" || str_eq t "ultrafast"

-- totalContextTokens.
unfoldable pub total_context_tokens : String → UsageTokens → ℕ
total_context_tokens protocol u =
    if str_eq protocol "openai" then u.input else u.input + u.cache_read + u.cache_write

-- The prompt tokens that are billed at the input price.
unfoldable pub uncached_tokens : String → UsageTokens → ℕ
uncached_tokens protocol u =
    if str_eq protocol "openai" then u.input - u.cache_read - u.cache_write else u.input

module _ {F : Type 0} ⦃fl : Float64 F⦄ where
  abbrev zero_f : F
  zero_f = fl.lit 0 0

  abbrev million : F
  million = fl.lit 1000000 0

  abbrev pub or_one : F → F
  or_one v = if fl.lef v zero_f then one else v

  abbrev pub or_coeff : F → F → F
  or_coeff v fallback = if fl.lef v zero_f then fallback else v

  abbrev pub or_first : Option F → Option F → F
  or_first (some a) b = a
  or_first none (some b) = b
  or_first none none = zero_f

  abbrev pub or_else : Option F → F → F
  or_else (some a) b = a
  or_else none b = b

  abbrev pub is_some : Option F → Bool
  is_some none = false
  is_some (some a) = true

  unfoldable pub has_priority_prices : ModelPrice F → Bool
  has_priority_prices price =
      is_some price.input_priority
      || is_some price.output_priority
      || is_some price.cache_read_priority
      || is_some price.cache_write_5m_priority

  -- tierMultiplierFor.
  unfoldable pub tier_multiplier_for : TextLib → ModelPrice F → String → F
  tier_multiplier_for lib price tier =
      if is_priority_tier lib tier
      then if has_priority_prices price then one else fl.lit 2 0
      else if str_eq (lib.to_lower (trim_space tier)) "flex"
      then fl.lit 5 1
      else one

  -- resolveItemPrices: the prices of the card by item, with the coefficients for the missing ones.
  abbrev pub coefficient_prices : ModelPrice F → Prices F
  coefficient_prices price =
      let inp = fl.div price.input million in
      let agg = fl.mul inp (or_coeff price.cache_write_coeff (fl.lit 125 2)) in
      record {
        inp = inp;
        out = fl.div price.output million;
        read = or_else price.cache_read (fl.mul inp (or_coeff price.cache_read_coeff (fl.lit 1 1)));
        breakdown = false;
        w5 = agg;
        w1 = agg;
        write_agg = agg;
      }

  -- The price of a write for an hour counts where it is above that for five minutes.
  abbrev pub hour_price : Option F → F → F
  hour_price none w5 = w5
  hour_price (some p) w5 = if fl.ltf w5 p then p else w5

  abbrev pub with_breakdown : ModelPrice F → Prices F → Prices F
  with_breakdown price p =
      if is_some price.cache_write_5m || is_some price.cache_write_1h
      then (let w5 = or_first price.cache_write_5m price.cache_write_1h in
          record p { w5 = w5; w1 = hour_price price.cache_write_1h w5; breakdown = true })
      else p

  abbrev pub per_token : Option F → F → F
  per_token (some a) b = fl.div a million
  per_token none b = b

  -- The substitution of the priority tier; the price of the input is looked at as it then is.
  abbrev pub with_priority : ModelPrice F → Prices F → Prices F
  with_priority price p =
      let inp = per_token price.input_priority p.inp in
      record p {
        inp = inp;
        out = per_token price.output_priority p.out;
        read = or_else price.cache_read_priority p.read;
        write_agg =
            or_else price.cache_write_5m_priority
              (fl.mul inp (or_coeff price.cache_write_coeff (fl.lit 125 2)));
      }

  -- resolveItemPrices.
  unfoldable pub resolve_item_prices : TextLib → ModelPrice F → String → Prices F
  resolve_item_prices lib price tier =
      let p = with_breakdown price (coefficient_prices price) in
      if is_priority_tier lib tier && has_priority_prices price then with_priority price p else p

  -- The ladder of long contexts in ComputeCost.
  unfoldable pub long_context : ModelPrice F → String → UsageTokens → LongCtx F
  long_context price protocol u =
      let total = total_context_tokens protocol u in
      let applied = ltb 0 price.long_ctx_threshold && ltb price.long_ctx_threshold total in
      record {
        threshold = price.long_ctx_threshold;
        total_tokens = if ltb 0 price.long_ctx_threshold then total else 0;
        applied = applied;
        input_multiplier = if applied then or_one price.long_ctx_input_mult else one;
        output_multiplier = if applied then or_one price.long_ctx_output_mult else one;
      }

  unfoldable pub scale_prices : LongCtx F → Prices F → Prices F
  scale_prices l p =
      if l.applied
      then record p {
        inp = fl.mul p.inp l.input_multiplier;
        out = fl.mul p.out l.output_multiplier;
        read = fl.mul p.read l.input_multiplier;
        w5 = fl.mul p.w5 l.input_multiplier;
        w1 = fl.mul p.w1 l.input_multiplier;
        write_agg = fl.mul p.write_agg l.input_multiplier;
      }
      else p

  -- A multiplier on every item, and one on all but the writes; one that is 1 is not applied.
  abbrev pub scale_costs : F → Costs F → Costs F
  scale_costs m c = if fl.eqf m one then c else record {
    input = fl.mul c.input m;
    output = fl.mul c.output m;
    read = fl.mul c.read m;
    write = fl.mul c.write m;
  }

  abbrev pub scale_costs_but_writes : F → Costs F → Costs F
  scale_costs_but_writes m c =
      if fl.eqf m one
      then c
      else record c { input = fl.mul c.input m; output = fl.mul c.output m; read = fl.mul c.read m }

  abbrev pub unless_one : F → Option F
  unless_one m = if fl.eqf m one then none else some m

  -- The effective prices of the receipt.
  abbrev pub effective_prices : F → F → F → Prices F → Prices F
  effective_prices tier time effort p =
      let all = fl.mul (fl.mul tier time) effort in
      record p {
        inp = fl.mul p.inp all;
        out = fl.mul p.out all;
        read = fl.mul p.read all;
        w5 = fl.mul p.w5 (fl.mul tier effort);
        w1 = fl.mul p.w1 (fl.mul tier effort);
      }

module _ (F : Type 0) ⦃fl : Float64 F⦄ ⦃ro : Rounding F⦄ where
  -- normalizeCacheWrite: the tokens written for five minutes and for an hour.
  unfoldable pub normalize_cache_write : UsageTokens → ℕ × ℕ
  normalize_cache_write u =
      let n5 = u.cache_write_5m in
      let n1 = u.cache_write_1h in
      let agg = u.cache_write in
      let detail = fl.add (fl.of_int n5) (fl.of_int n1) in
      let scaled =
        fl.trunc_int (ro.round (fl.div (fl.mul (fl.of_int agg) (fl.of_int n5)) detail)) in
      if agg == 0 || leb n5 agg && leb n1 (agg - n5)
      then (n5, n1)
      else if fl.lef detail (fl.lit 0 0)
      then (0, 0)
      else if leb agg scaled
      then (agg, agg - agg)
      else (scaled, agg - scaled)

  -- The tokens that are billed as written, by duration.
  unfoldable pub written_tokens : UsageTokens → ℕ × ℕ
  written_tokens u =
      let (n5, n1) = normalize_cache_write u in
      if n5 == 0 && n1 == 0 && ltb 0 u.cache_write then (u.cache_write, 0) else (n5, n1)

module _ {F : Type 0} ⦃fl : Float64 F⦄ ⦃ro : Rounding F⦄ where
  abbrev pub write_cost : Prices F → UsageTokens → F
  write_cost p u =
      if p.breakdown
      then fl.add (fl.mul (fl.of_int (written_tokens F u).0) p.w5)
          (fl.mul (fl.of_int (written_tokens F u).1) p.w1)
      else fl.mul (fl.of_int u.cache_write) p.write_agg

  abbrev pub item_costs : Prices F → String → UsageTokens → Costs F
  item_costs p protocol u = record {
    input = fl.mul (fl.of_int (uncached_tokens protocol u)) p.inp;
    output = fl.mul (fl.of_int u.output) p.out;
    read = fl.mul (fl.of_int u.cache_read) p.read;
    write = write_cost p u;
  }

  abbrev pub sum_costs : Costs F → F
  sum_costs c = fl.add (fl.add (fl.add c.input c.output) c.read) c.write

  -- ComputeCost, with what TimeMultiplier and EffortMultiplier give.
  unfoldable pub compute_cost :
      TextLib → ModelPrice F → String → F → F → UsageTokens → Option (CostDetail F)
  compute_cost lib price protocol time effort u =
      let l = long_context price protocol u in
      let p = scale_prices l (resolve_item_prices lib price u.service_tier) in
      let tier = tier_multiplier_for lib price u.service_tier in
      let c =
        scale_costs effort
          (scale_costs_but_writes time (scale_costs tier (item_costs p protocol u))) in
      let total = sum_costs c in
      let uncached = uncached_tokens protocol u in
      if not price.is_ok || not u.usage_known || ro.is_nan total || ro.is_inf total
      then none
      else some (record {
        input_uncached =
            if str_eq protocol "openai" && not (uncached == u.input) then some uncached else none;
        prices = effective_prices tier time effort p;
        costs = c;
        service_tier = trim_space u.service_tier;
        tier_multiplier = unless_one tier;
        long_ctx = l;
        time_multiplier = unless_one time;
        effort_multiplier = unless_one effort;
        total = round8 total;
      })

  abbrev pub legacy_price : ModelPrice F → ModelPrice F
  legacy_price price = record price {
    cache_read = none;
    cache_write_5m = none;
    cache_write_1h = none;
    input_priority = none;
    output_priority = none;
    cache_read_priority = none;
    cache_write_5m_priority = none;
    long_ctx_threshold = 0;
    long_ctx_input_mult = fl.lit 0 0;
    long_ctx_output_mult = fl.lit 0 0;
  }

  -- BaseCostUSD; its options name no model and no effort, so no rule but one without a model applies.
  unfoldable pub base_cost_usd : TextLib → F → ModelPrice F → String → UsageTokens → Option F
  base_cost_usd lib time price protocol u =
      Option.map (λ d. d.total) (compute_cost lib (legacy_price price) protocol time one u)
