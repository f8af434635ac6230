-- ===== src/Dashboard/Rules.antt =====
-- backend/internal/dashboard/billing_rules.go: the surcharges by the time of day and by the
-- reasoning effort. A `*time.Location` is given by what it says of an instant; minutes of a day and
-- weekdays (0 is Sunday) are numbers.
use text.Mathlib.Text.{starts_with}
use simple_up_manage.Prelude.{
  ℕ, ◌+◌, ◌*◌, String, Bool, true, not, ◌&&◌, ◌||◌, Option, none, some, List, [], ◌∷◌, is_empty,
  ltb, leb, ◌==◌, if◌then◌else◌, str_eq, Float64,
}
use simple_up_manage.Prelude.Text.{trim_space}
use simple_up_manage.Domain.Provider.{TextLib}
use simple_up_manage.Picker.Candidates.{has}

pub record Zone : Type 0 where
  pub weekday : ℕ → ℕ
  pub hour : ℕ → ℕ
  pub minute : ℕ → ℕ

pub record TimeWindow (F : Type 0) : Type 0 where
  pub days : List ℕ
  pub start_min : ℕ
  pub end_min : ℕ
  pub multiplier : F

pub record TimeRule (F : Type 0) : Type 0 where
  pub pattern : String
  pub tz : Zone
  pub weekend_tz : Zone
  pub skip_weekend : Bool
  pub windows : List (TimeWindow F)

pub record EffortRule (F : Type 0) : Type 0 where
  pub pattern : String
  pub multipliers : List (String × F)

-- strings.Contains.
unfoldable pub has_text : String → String → Bool
has_text String.[] t = str_eq t ""
has_text (String.◌∷◌ c s) t = starts_with (String.◌∷◌ c s) t || has_text s t

-- The test of a window: an end before the start runs over midnight.
unfoldable pub in_window : ℕ → ℕ → ℕ → Bool
in_window start end minute =
    if leb start end then leb start minute && ltb minute end else leb start minute || ltb minute end

abbrev pub is_weekend : ℕ → Bool
is_weekend day = day == 6 || day == 0

module _ {F : Type 0} ⦃fl : Float64 F⦄ where
  abbrev pub one : F
  one = fl.lit 1 0

  -- builtinDeepSeekTimeRules, with time.UTC and the fixed zone of Shanghai.
  unfoldable pub builtin_deep_seek_time_rules : Zone → Zone → List (TimeRule F)
  builtin_deep_seek_time_rules utc shanghai =
      record {
        pattern = "deepseek";
        tz = utc;
        weekend_tz = shanghai;
        skip_weekend = true;
        windows =
            record { days = []; start_min = 60; end_min = 240; multiplier = fl.lit 2 0 }
            ∷ record { days = []; start_min = 360; end_min = 600; multiplier = fl.lit 2 0 }
            ∷ [];
      }
      ∷ []

  -- The time rules of snapshotRules.
  unfoldable pub snapshot_time_rules : Zone → Zone → List (TimeRule F) → List (TimeRule F)
  snapshot_time_rules utc shanghai rules =
      if is_empty rules then builtin_deep_seek_time_rules utc shanghai else rules

  -- The loop over the windows of a rule.
  unfoldable pub window_multiplier : ℕ → ℕ → List (TimeWindow F) → F
  window_multiplier day minute [] = one
  window_multiplier day minute (w ∷ windows) =
      if (is_empty w.days || has day w.days) && in_window w.start_min w.end_min minute
      then w.multiplier
      else window_multiplier day minute windows

  -- A rule that matches the model.
  unfoldable pub rule_multiplier : ℕ → TimeRule F → F
  rule_multiplier at r =
      if r.skip_weekend && is_weekend (r.weekend_tz.weekday at)
      then one
      else window_multiplier (r.tz.weekday at) (r.tz.hour at * 60 + r.tz.minute at) r.windows

  -- The loop over the rules: the first that matches decides.
  unfoldable pub rules_multiplier : String → ℕ → List (TimeRule F) → F
  rules_multiplier name at [] = one
  rules_multiplier name at (r ∷ rules) =
      if not (str_eq r.pattern "") && not (has_text name r.pattern)
      then rules_multiplier name at rules
      else rule_multiplier at r

  -- TimeMultiplier, from the configured rules.
  unfoldable pub time_multiplier : TextLib → Zone → Zone → List (TimeRule F) → ℕ → String → ℕ → F
  time_multiplier lib utc shanghai rules now model at =
      rules_multiplier (lib.to_lower model) (if at == 0 then now else at)
        (snapshot_time_rules utc shanghai rules)

  unfoldable pub find_level : String → List (String × F) → Option F
  find_level level [] = none
  find_level level (m ∷ rest) = if str_eq m.0 level then some m.1 else find_level level rest

  -- A level that is there with a positive multiplier.
  abbrev pub level_multiplier : Option F → F
  level_multiplier none = one
  level_multiplier (some m) = if fl.ltf (fl.lit 0 0) m then m else one

  -- The loop over the effort rules.
  unfoldable pub effort_rules_multiplier : String → String → List (EffortRule F) → F
  effort_rules_multiplier name level [] = one
  effort_rules_multiplier name level (r ∷ rules) =
      if not (has_text name r.pattern)
      then effort_rules_multiplier name level rules
      else level_multiplier (find_level level r.multipliers)

  -- EffortMultiplier, from the configured rules.
  unfoldable pub effort_multiplier : TextLib → List (EffortRule F) → String → String → F
  effort_multiplier lib rules model effort =
      if is_empty rules || str_eq (trim_space effort) ""
      then one
      else effort_rules_multiplier (lib.to_lower model) (lib.to_lower (trim_space effort)) rules
