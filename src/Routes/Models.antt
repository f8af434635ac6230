-- ===== src/Routes/Models.antt =====
-- backend/internal/ops/routegroup.go: ListVisibleModels.
pub mod Visible
use Prim.Native.Char.{code}
use simple_up_manage.Prelude.{
  ℕ, String, Bool, true, false, not, ◌&&◌, ◌||◌, Option, none, some, List, [], ◌∷◌, ◌++◌, is_empty,
  select, ◌==◌, if◌then◌else◌, str_eq, Float64,
}
use simple_up_manage.Prelude.Text.{trim_space}
use simple_up_manage.Domain.Provider.{TextLib, Upstream, PlatformKey, contains}
use simple_up_manage.Routes.Groups.{RouteGroup, find_group, match_model, rate_in_range}

-- isModelGlob.
unfoldable pub is_model_glob : String → Bool
is_model_glob String.[] = false
is_model_glob (String.◌∷◌ c s) = code c == b'*' || is_model_glob s

-- The closure `add`; the ids that were seen are those in the result.
unfoldable pub add_model : String → List String → List String
add_model text out =
    let id = trim_space text in if str_eq id "" || contains out id then out else out ++ id ∷ []

-- The closure `addLast`.
unfoldable pub add_models : List String → List String → List String
add_models [] out = out
add_models (id ∷ ids) out = add_models ids (add_model id out)

-- The loop of the closure `addFromGroup`, for the models of a key.
unfoldable pub add_patterns : TextLib → List String → List String → List String → List String
add_patterns lib last [] out = out
add_patterns lib last (text ∷ patterns) out =
    let pattern = trim_space text in
    add_patterns lib last patterns (
      if str_eq pattern ""
      then out
      else if is_model_glob pattern
      then add_models (select (λ id. match_model lib pattern id) last) out
      else add_model pattern out)

module _ {F : Type 0} ⦃fl : Float64 F⦄ where
  -- The closure `addFromGroup`.
  unfoldable pub add_from_group : TextLib → RouteGroup F → List String → List String → List String
  add_from_group lib g last out =
      if is_empty g.models then add_models last out else add_patterns lib last g.models out

  -- A group of a key: one that is not there, or not enabled, or whose range the key has left, gives
  -- nothing.
  abbrev pub add_group : TextLib → PlatformKey F → Option (RouteGroup F) → List String → List String
  add_group lib k none out = out
  add_group lib k (some g) out =
      if rate_in_range (some g) k.rate_multiplier
      then add_from_group lib g k.last_models out
      else out

  -- The loop over the groups of a key.
  unfoldable pub add_groups :
      TextLib → List (RouteGroup F) → PlatformKey F → List ℕ → List String → List String
  add_groups lib enabled k [] out = out
  add_groups lib enabled k (gid ∷ gids) out =
      add_groups lib enabled k gids (add_group lib k (find_group gid enabled) out)

  abbrev pub is_usable : PlatformKey F → Bool
  is_usable k =
      str_eq k.status "enabled"
      && elim k.upstream [ none ↦ false | some up ↦ str_eq up.status "enabled" ]

  -- The loop over the keys.
  unfoldable pub add_keys :
      TextLib
      → Bool
      → List (RouteGroup F)
      → (ℕ → List ℕ)
      → List (PlatformKey F)
      → List String
      → List String
  add_keys lib bound enabled member_of [] out = out
  add_keys lib bound enabled member_of (k ∷ keys) out = add_keys lib bound enabled member_of keys (
      if not (is_usable k)
      then out
      else if not bound
      then add_models k.last_models out
      else add_groups lib enabled k (member_of k.id) out)

  -- ListVisibleModels.
  unfoldable pub list_visible_models :
      TextLib → Bool → List (RouteGroup F) → List (PlatformKey F) → (ℕ → List ℕ) → List String
  list_visible_models lib bound groups keys member_of =
      add_keys lib bound (select (λ g. str_eq g.status "enabled") groups) member_of keys []
