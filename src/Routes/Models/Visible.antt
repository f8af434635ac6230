-- ===== src/Routes/Models/Visible.antt =====
-- backend/internal/ops/routegroup.go: what a client sees of the models.
use simple_up_manage.Prelude.{
  ℕ, ◌≤◌, ◌≡◌, ◌≢◌, refl, String, Bool, false, not, ◌&&◌, ◌||◌, Option, none, some, List, [], ◌∷◌,
  ◌++◌, select, count_if, count_if-append, if◌then◌else◌, arith, str_eq, eq_iff, Float64,
  Bool-cases, if_pred, subst, inl, inr, ap,
}
use simple_up_manage.Prelude.Text.{trim_space}
use simple_up_manage.Domain.Provider.{TextLib, PlatformKey, contains}
use simple_up_manage.Routes.Groups.{RouteGroup, find_group}
use simple_up_manage.Routes.Allowed.{any}
use simple_up_manage.Routes.Models.{
  add_model, add_models, add_patterns, add_from_group, add_group, add_groups, is_usable, add_keys,
  list_visible_models,
}

-- How often a text stands in a list.
abbrev pub times : String → List String → ℕ
times m ids = count_if (λ id. str_eq id m) ids

-- No text twice, and none empty.
pub record IsClean (ids : List String) : Type 0 where
  pub once : (m : String) → times m ids ≤ 1
  pub full : times "" ids ≡ 0

contains-times : (m : String) (ids : List String) → contains ids m ≡ false → times m ids ≡ 0
unfolding contains
contains-times m [] h = refl
contains-times m (id ∷ ids) h = ground (arith, contains-times m ids)

contains-append :
    (m : String) (xs ys : List String) → contains (xs ++ ys) m ≡ contains xs m || contains ys m
unfolding contains
contains-append m [] ys = refl
contains-append m (x ∷ xs) ys = ground (arith, contains-append m xs ys)

times-one : (id m : String) → times m (id ∷ []) ≡ (if str_eq id m then 1 else 0)
times-one id m = refl

append_new-IsClean :
    (id : String) (out : List String)
    → contains out id ≡ false
    → str_eq id "" ≡ false
    → IsClean out
    → IsClean (out ++ id ∷ [])
append_new-IsClean id out new full h = record {
  once = λ m. elim (Bool-cases (str_eq id m)) [
    | inl e ↦
        (let none_yet : times m out ≡ 0 =
            subst (λ x. times x out ≡ 0) ((eq_iff id m).0 e) (contains-times id out new) in
          ground (arith, count_if-append (λ x. str_eq x m) out (id ∷ []), none_yet))
    | inr e ↦ ground (arith, count_if-append (λ x. str_eq x m) out (id ∷ []), h.once m)
  ];
  full = ground (arith, count_if-append (λ x. str_eq x "") out (id ∷ []), h.full);
}

add_model-IsClean : (text : String) (out : List String) → IsClean out → IsClean (add_model text out)
unfolding add_model
add_model-IsClean text out h =
    let id = trim_space text in
    elim (Bool-cases (str_eq id "" || contains out id)) [
      | inl e ↦ rw e h
      | inr e ↦ rw e (append_new-IsClean id out (ground (arith, e)) (ground (arith, e)) h)
    ]

add_models-IsClean : (ids out : List String) → IsClean out → IsClean (add_models ids out)
unfolding add_models
add_models-IsClean [] out h = h
add_models-IsClean (id ∷ ids) out h =
    add_models-IsClean ids (add_model id out) (add_model-IsClean id out h)

add_patterns-IsClean :
    (lib : TextLib) (last patterns out : List String)
    → IsClean out
    → IsClean (add_patterns lib last patterns out)
unfolding add_patterns
add_patterns-IsClean lib last [] out h = h
add_patterns-IsClean lib last (text ∷ patterns) out h = add_patterns-IsClean lib last patterns _ (
    if_pred IsClean _ h
      (if_pred IsClean _ (add_models-IsClean _ out h) (add_model-IsClean _ out h)))

module _ {F : Type 0} ⦃fl : Float64 F⦄ where
  add_from_group-IsClean :
      (lib : TextLib) (g : RouteGroup F) (last out : List String)
      → IsClean out
      → IsClean (add_from_group lib g last out)
  unfolding add_from_group
  add_from_group-IsClean lib g last out h =
      if_pred IsClean _ (add_models-IsClean last out h)
        (add_patterns-IsClean lib last g.models out h)

  add_group-IsClean :
      (lib : TextLib) (k : PlatformKey F) (g : Option (RouteGroup F)) (out : List String)
      → IsClean out
      → IsClean (add_group lib k g out)
  add_group-IsClean lib k none out h = h
  add_group-IsClean lib k (some g) out h =
      if_pred IsClean _ (add_from_group-IsClean lib g k.last_models out h) h

  add_groups-IsClean :
      (lib : TextLib) (enabled : List (RouteGroup F)) (k : PlatformKey F) (gids : List ℕ)
      (out : List String)
      → IsClean out
      → IsClean (add_groups lib enabled k gids out)
  unfolding add_groups
  add_groups-IsClean lib enabled k [] out h = h
  add_groups-IsClean lib enabled k (gid ∷ gids) out h =
      add_groups-IsClean lib enabled k gids _
        (add_group-IsClean lib k (find_group gid enabled) out h)

  add_keys-IsClean :
      (lib : TextLib) (bound : Bool) (enabled : List (RouteGroup F)) (member_of : ℕ → List ℕ)
      (keys : List (PlatformKey F)) (out : List String)
      → IsClean out
      → IsClean (add_keys lib bound enabled member_of keys out)
  unfolding add_keys
  add_keys-IsClean lib bound enabled member_of [] out h = h
  add_keys-IsClean lib bound enabled member_of (k ∷ keys) out h =
      add_keys-IsClean lib bound enabled member_of keys _ (
        if_pred IsClean _ h (
          if_pred IsClean _ (add_models-IsClean k.last_models out h)
            (add_groups-IsClean lib enabled k (member_of k.id) out h)))

  -- The list of models that a client sees holds no id twice and no empty id, whatever the groups
  -- and the keys name.
  list_visible_models-IsClean :
      (lib : TextLib) (bound : Bool) (groups : List (RouteGroup F)) (keys : List (PlatformKey F))
      (member_of : ℕ → List ℕ)
      → IsClean (list_visible_models lib bound groups keys member_of)
  unfolding list_visible_models
  list_visible_models-IsClean lib bound groups keys member_of =
      add_keys-IsClean lib bound _ member_of keys []
        (record { once = λ m. ground arith; full = refl })

-- Whether one of a key's models is this one, spaces around it apart.
abbrev pub names_model : String → String → Bool
names_model m id = str_eq (trim_space id) m

contains-one : (m id : String) → contains (id ∷ []) m ≡ str_eq id m
unfolding contains
contains-one m id = ground arith

add_model-contains :
    (m id : String) (out : List String)
    → str_eq m "" ≡ false
    → contains (add_model id out) m ≡ contains out m || names_model m id
unfolding add_model
add_model-contains m id out h =
    let x = trim_space id in
    elim (Bool-cases (str_eq x m)) [
      | inl e ↦
          (let same : x ≡ m = (eq_iff x m).0 e in
            ground (
              arith,
              contains-append m out (x ∷ []),
              contains-one m x,
              ap (contains out) same,
              ap (λ y. str_eq y "") same,
            ))
      | inr e ↦ ground (arith, contains-append m out (x ∷ []), contains-one m x)
    ]

add_models-contains :
    (m : String) (ids out : List String)
    → str_eq m "" ≡ false
    → contains (add_models ids out) m ≡ contains out m || any (names_model m) ids
unfolding add_models
add_models-contains m [] out h = ground arith
add_models-contains m (id ∷ ids) out h =
    ground (arith, add_model-contains m id out h, add_models-contains m ids (add_model id out) h)

module _ {F : Type 0} ⦃fl : Float64 F⦄ where
  add_keys-contains :
      (lib : TextLib) (enabled : List (RouteGroup F)) (member_of : ℕ → List ℕ)
      (keys : List (PlatformKey F)) (out : List String) (m : String)
      → str_eq m "" ≡ false
      → contains (add_keys lib false enabled member_of keys out) m
        ≡ contains out m || any (λ k. is_usable k && any (names_model m) k.last_models) keys
  unfolding add_keys
  add_keys-contains lib enabled member_of [] out m h = ground arith
  add_keys-contains lib enabled member_of (k ∷ keys) out m h =
      let next = if not (is_usable k) then out else add_models k.last_models out in
      ground (
        arith,
        add_models-contains m k.last_models out h,
        add_keys-contains lib enabled member_of keys next m h,
      )

  -- A client that no group binds sees a model with a name exactly when an enabled key of an enabled
  -- provider has it in its list, spaces around it apart.
  list_visible_models_unbound :
      (lib : TextLib) (groups : List (RouteGroup F)) (keys : List (PlatformKey F))
      (member_of : ℕ → List ℕ) (m : String)
      → m ≢ ""
      → contains (list_visible_models lib false groups keys member_of) m
        ≡ any (λ k. is_usable k && any (names_model m) k.last_models) keys
  unfolding list_visible_models contains
  list_visible_models_unbound lib groups keys member_of m n =
      add_keys-contains lib (select (λ g. str_eq g.status "enabled") groups) member_of keys [] m
        (ground (arith, eq_iff m ""))
