-- ===== src/Domain/Provider.antt =====
-- backend/internal/domain/models.go: Upstream and PlatformKey, with the columns that routing reads.
-- The functions of the Go library that need Unicode
-- tables or a JSON reader are arguments.
use simple_up_manage.Prelude.{
  ℕ, String, Bool, true, false, ◌&&◌, ◌||◌, Option, none, some, List, [], ◌∷◌, ◌++◌, map, is_empty,
  select, if◌then◌else◌, str_eq,
}
use text.Mathlib.Text.{starts_with}
use simple_up_manage.Prelude.Text.{trim_space, split_on}

pub record Upstream (F : Type 0) : Type 0 where
  pub id : ℕ
  pub name : String
  pub protocols : String
  pub status : String
  pub concurrency : ℕ
  pub health_status : String
  pub cooldown_until : Option ℕ
  pub last_error : String
  pub last_balance : Option F

pub record PlatformKey (F : Type 0) : Type 0 where
  pub protocols : String
  pub id : ℕ
  pub upstream_id : ℕ
  pub name : String
  pub rate_multiplier : F
  pub status : String
  pub rpm_limit : ℕ
  pub max_concurrency : ℕ
  pub last_balance : Option F
  pub cooldown_until : Option ℕ
  pub health_status : String
  pub probe_enabled : Option Bool
  pub last_models : List String
  pub upstream : Option (Upstream F)

-- What the code calls of packages strings and encoding/json.
pub record TextLib : Type 0 where
  pub to_lower : String → String
  pub json_strings : String → Option (List String)

unfoldable pub contains : List String → String → Bool
contains [] p = false
contains (q ∷ qs) p = str_eq q p || contains qs p

-- NormalizeStrings, from the items left and those seen, which are the ones in `out`.
unfoldable pub normalize_from : TextLib → List String → List String → List String
unfolding trim_space contains
normalize_from lib [] out = out
normalize_from lib (it ∷ items) out =
    let item = lib.to_lower (trim_space it) in
    normalize_from lib items (if str_eq item "" || contains out item then out else out ++ item ∷ [])

unfoldable pub normalize_strings : TextLib → List String → List String
unfolding normalize_from
normalize_strings lib items = normalize_from lib items []

abbrev parts_or : Option (List String) → List String → List String
parts_or none parts = parts
parts_or (some items) parts = items

-- SplitCSV: a JSON list, or the parts between commas.
unfoldable pub split_csv : TextLib → String → List String
unfolding trim_space split_on normalize_strings
split_csv lib text =
    let s = trim_space text in
    let parts = split_on b',' s in
    if str_eq s ""
    then []
    else normalize_strings lib
        (if starts_with s "[" then parts_or (lib.json_strings s) parts else parts)

unfoldable pub valid_protocol : String → Bool
valid_protocol p = str_eq p "openai" || str_eq p "anthropic"

module _ {F : Type 0} where
  -- EffectiveProtocols: the key's own list, or the provider's, below the provider's ceiling.
  unfoldable pub effective_protocols : TextLib → PlatformKey F → List String
  unfolding split_csv valid_protocol contains
  effective_protocols lib k = elim k.upstream [
    | none ↦ []
    | some up ↦
        let ceiling = split_csv lib up.protocols in
        let own = split_csv lib k.protocols in
        let configured = if is_empty own then ceiling else own in
        select (λ p. valid_protocol p && contains ceiling p) configured
  ]

  unfoldable pub supports_protocol : TextLib → PlatformKey F → String → Bool
  unfolding effective_protocols contains
  supports_protocol lib k protocol = contains (effective_protocols lib k) protocol

  -- SupportsModel: an empty list or an empty model is no restriction.
  unfoldable pub supports_model : TextLib → PlatformKey F → String → Bool
  unfolding trim_space contains
  supports_model lib k model =
      let wanted = lib.to_lower (trim_space model) in
      if str_eq wanted "" || is_empty k.last_models
      then true
      else contains (map (λ id. lib.to_lower (trim_space id)) k.last_models) wanted

  -- AllowsProbe, of a key that is there.
  unfoldable pub allows_probe : PlatformKey F → Bool
  allows_probe k = elim k.probe_enabled [ none ↦ true | some b ↦ b ]
