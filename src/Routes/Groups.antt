-- ===== src/Routes/Groups.antt =====
-- backend/internal/ops/routegroup.go and the types of backend/internal/domain/models.go: which
-- platform keys a route group lets serve a request, and which models a client sees. A query is a
-- selection from a table; a Go map that stands for a set is the list of its members, each once.
use Prim.Native.Char.{code}
use text.Mathlib.Text.{starts_with}
use simple_up_manage.Prelude.{
  ℕ, String, Bool, true, false, not, ◌&&◌, ◌||◌, Option, none, some, List, [], ◌∷◌, ◌++◌, map,
  is_empty, select, ◌==◌, if◌then◌else◌, str_eq, Float64,
}
use simple_up_manage.Prelude.Text.{trim_space}
use simple_up_manage.Domain.Provider.{TextLib}
use simple_up_manage.Picker.Candidates.{has}

-- The columns of RouteGroup that routing reads.
pub record RouteGroup (F : Type 0) : Type 0 where
  pub id : ℕ
  pub protocol : String
  pub models : List String
  pub rate_min : Option F
  pub rate_max : Option F
  pub status : String

-- RouteGroupKey.
pub record RouteGroupKey : Type 0 where
  pub route_group_id : ℕ
  pub platform_key_id : ℕ

-- The tables that are read.
pub record Tables (F : Type 0) : Type 0 where
  pub groups : List (RouteGroup F)
  pub members : List RouteGroupKey
  pub rates : List (ℕ × F)

-- strings.TrimSuffix(s, "*"), where strings.HasSuffix(s, "*") holds.
unfoldable pub without_star : String → Option String
without_star String.[] = none
without_star (String.◌∷◌ c String.[]) = if code c == b'*' then some String.[] else none
without_star (String.◌∷◌ c (String.◌∷◌ d s)) = elim (without_star (String.◌∷◌ d s)) [
  | none ↦ none
  | some p ↦ some (String.◌∷◌ c p)
]

-- strings.HasPrefix(m, strings.TrimSuffix(p, "*")), where the pattern ends with a star.
abbrev pub prefix_matches : Option String → String → Bool
prefix_matches none m = false
prefix_matches (some prefix) m = starts_with m prefix

-- MatchModel.
unfoldable pub match_model : TextLib → String → String → Bool
match_model lib pattern model =
    let p = lib.to_lower (trim_space pattern) in
    let m = lib.to_lower (trim_space model) in
    str_eq p "*" || str_eq p m || prefix_matches (without_star p) m

-- The loop over the patterns in RouteGroupMatches.
unfoldable pub any_pattern : TextLib → String → List String → Bool
any_pattern lib model [] = false
any_pattern lib model (p ∷ patterns) =
    match_model lib p model || str_eq model "" && str_eq p "*" || any_pattern lib model patterns

-- Puts an id into a set.
abbrev pub insert : ℕ → List ℕ → List ℕ
insert k set = if has k set then set else set ++ k ∷ []

module _ {F : Type 0} where
  -- MatchesProtocol.
  unfoldable pub matches_protocol : RouteGroup F → String → Bool
  matches_protocol g protocol = str_eq g.protocol "" || str_eq g.protocol protocol

  -- RouteGroupMatches, of a group that is there.
  unfoldable pub route_group_matches : TextLib → String → String → RouteGroup F → Bool
  route_group_matches lib protocol model g =
      str_eq g.status "enabled"
      && matches_protocol g protocol
      && (is_empty g.models || any_pattern lib (trim_space model) g.models)

  unfoldable pub find_group : ℕ → List (RouteGroup F) → Option (RouteGroup F)
  find_group id [] = none
  find_group id (g ∷ groups) = if g.id == id then some g else find_group id groups

module _ {F : Type 0} ⦃fl : Float64 F⦄ where
  -- RateInRange.
  unfoldable pub rate_in_range : Option (RouteGroup F) → F → Bool
  rate_in_range none rate = true
  rate_in_range (some g) rate =
      not (elim g.rate_min [ none ↦ false | some low ↦ fl.ltf rate low ])
      && not (elim g.rate_max [ none ↦ false | some high ↦ fl.lef high rate ])

  -- rateByKey.
  unfoldable pub rate_of : ℕ → List (ℕ × F) → Option F
  rate_of key [] = none
  rate_of key (r ∷ rates) = if r.0 == key then some r.1 else rate_of key rates

  -- The body of the loop over the members, with the rate of the key: a key that is not there is
  -- passed over.
  abbrev pub place :
      List (RouteGroup F) → RouteGroupKey → Option F → List ℕ × List ℕ → List ℕ × List ℕ
  place matched m none sets = sets
  place matched m (some rate) sets =
      if rate_in_range (find_group m.route_group_id matched) rate
      then (insert m.platform_key_id sets.0, sets.1)
      else (sets.0, insert m.platform_key_id sets.1)

  -- That loop: the keys inside the range of a group, and those outside.
  unfoldable pub sort_members :
      List (RouteGroup F) → List (ℕ × F) → List RouteGroupKey → List ℕ × List ℕ → List ℕ × List ℕ
  sort_members matched rates [] sets = sets
  sort_members matched rates (m ∷ members) sets =
      sort_members matched rates members (place matched m (rate_of m.platform_key_id rates) sets)

  abbrev pub matched_groups : TextLib → List ℕ → String → String → Tables F → List (RouteGroup F)
  matched_groups lib ids protocol model t =
      select (λ g. has g.id ids && route_group_matches lib protocol model g) t.groups

  -- The members of the groups that match.
  abbrev pub matched_members : List (RouteGroup F) → Tables F → List RouteGroupKey
  matched_members matched t = select (λ m. has m.route_group_id (map (λ g. g.id) matched)) t.members

  -- resolveGroupAllowKeys: the allowed keys and those whose rate has drifted out of range. Without
  -- matching groups or members both are empty.
  unfoldable pub resolve_group_allow_keys :
      TextLib → List ℕ → String → String → Tables F → List ℕ × List ℕ
  resolve_group_allow_keys lib ids protocol model t =
      let matched = matched_groups lib ids protocol model t in
      let (allow, drift) = sort_members matched t.rates (matched_members matched t) ([], []) in
      (allow, select (λ k. not (has k allow)) drift)

  -- ResolveSnapshotAllowKeys: the sets, and whether the client is bound.
  unfoldable pub resolve_snapshot_allow_keys :
      TextLib → Option ℕ → String → String → Tables F → (List ℕ × List ℕ) × Bool
  resolve_snapshot_allow_keys lib none protocol model t = (([], []), false)
  resolve_snapshot_allow_keys lib (some group_id) protocol model t =
      (resolve_group_allow_keys lib (group_id ∷ []) protocol model t, true)
