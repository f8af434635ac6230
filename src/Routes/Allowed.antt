-- ===== src/Routes/Allowed.antt =====
-- backend/internal/ops/routegroup.go: which keys end up allowed, and which count as drifted.
use simple_up_manage.Prelude.{
  ℕ, ◌≡◌, refl, String, Bool, true, false, not, ◌&&◌, ◌||◌, Option, none, some, List, [], ◌∷◌, ◌++◌,
  select, ◌==◌, if◌then◌else◌, arith, Float64, Bool-cases, ==_iff, inl, inr, ap,
}
use simple_up_manage.Domain.Provider.{TextLib}
use simple_up_manage.Picker.Candidates.{has}
use simple_up_manage.Routes.Groups.{
  RouteGroup, RouteGroupKey, Tables, insert, place, find_group, rate_in_range, rate_of,
  sort_members, matched_groups, matched_members, resolve_group_allow_keys,
}

-- Some entry passes a test.
abbrev pub any {ℓ} : {A : Type ℓ} → (A → Bool) → List A → Bool
any p [] = false
any p (x ∷ xs) = p x || any p xs

pub has-append : (k : ℕ) (xs ys : List ℕ) → has k (xs ++ ys) ≡ has k xs || has k ys
unfolding has
has-append k [] ys = refl
has-append k (x ∷ xs) ys = ground (arith, has-append k xs ys)

has-nil : (k : ℕ) → has k [] ≡ false
unfolding has
has-nil k = refl

has-one : (k j : ℕ) → has k (j ∷ []) ≡ k == j
unfolding has
has-one k j = ground arith

has-same : (k j : ℕ) (xs : List ℕ) → k == j ≡ true → has k xs ≡ has j xs
unfolding has
has-same k j [] e = refl
has-same k j (x ∷ xs) e = ground (arith, has-same k j xs e)

has-insert : (k j : ℕ) (set : List ℕ) → has k (insert j set) ≡ has k set || k == j
has-insert k j set = ground (arith, has-append k set (j ∷ []), has-one k j, has-same k j set)

pub has-select :
    (k : ℕ) (p : ℕ → Bool) (xs : List ℕ) → has k (select (λ j. p j) xs) ≡ has k xs && p k
unfolding has
has-select k p [] = refl
has-select k p (x ∷ xs) = elim (Bool-cases (k == x)) [
  | inr e ↦ ground (arith, has-select k p xs)
  | inl e ↦ (let same : k ≡ x = (==_iff k x).0 e in ground (arith, has-select k p xs, ap p same))
]

module _ {F : Type 0} ⦃fl : Float64 F⦄ where
  -- Whether the group of a membership has the rate, if the key has one, inside its range, or
  -- outside.
  abbrev pub is_placed : List (RouteGroup F) → RouteGroupKey → Bool → Option F → Bool
  is_placed matched m inside none = false
  is_placed matched m inside (some rate) =
      let r = rate_in_range (find_group m.route_group_id matched) rate in
      if inside then r else not r

  -- A membership of the key that puts it inside, or outside, a range.
  abbrev pub places_key : List (RouteGroup F) → List (ℕ × F) → ℕ → Bool → RouteGroupKey → Bool
  places_key matched rates key inside m =
      key == m.platform_key_id && is_placed matched m inside (rate_of m.platform_key_id rates)

  place-has :
      (matched : List (RouteGroup F)) (m : RouteGroupKey) (rate : Option F) (sets : List ℕ × List ℕ)
      (key : ℕ)
      → (has key (place matched m rate sets).0
          ≡ has key sets.0 || key == m.platform_key_id && is_placed matched m true rate)
        × (has key (place matched m rate sets).1
            ≡ has key sets.1 || key == m.platform_key_id && is_placed matched m false rate)
  place-has matched m none sets key = ground arith
  place-has matched m (some rate) sets key =
      ground
        (arith, has-insert key m.platform_key_id sets.0, has-insert key m.platform_key_id sets.1)

  sort_members-has :
      (matched : List (RouteGroup F)) (rates : List (ℕ × F)) (members : List RouteGroupKey)
      (sets : List ℕ × List ℕ) (key : ℕ)
      → (has key (sort_members matched rates members sets).0
          ≡ has key sets.0 || any (places_key matched rates key true) members)
        × (has key (sort_members matched rates members sets).1
            ≡ has key sets.1 || any (places_key matched rates key false) members)
  unfolding sort_members
  sort_members-has matched rates [] sets key = ground arith
  sort_members-has matched rates (m ∷ members) sets key =
      let rate = rate_of m.platform_key_id rates in
      ground (
        arith,
        place-has matched m rate sets key,
        sort_members-has matched rates members (place matched m rate sets) key,
      )

  -- A key is allowed exactly when some membership in a group that matches has its rate in that
  -- group's range, and it has drifted exactly when it is not allowed and some such membership has
  -- its rate outside; a key without a rate is neither.
  pub resolve_group_allow_keys_iff :
      (lib : TextLib) (ids : List ℕ) (protocol model : String) (t : Tables F) (key : ℕ)
      → let matched = matched_groups lib ids protocol model t in
        let members = matched_members matched t in
        let sets = resolve_group_allow_keys lib ids protocol model t in
        let inside = any (places_key matched t.rates key true) members in
        (has key sets.0 ≡ inside)
        × (has key sets.1 ≡ any (places_key matched t.rates key false) members && not inside)
  unfolding resolve_group_allow_keys
  resolve_group_allow_keys_iff lib ids protocol model t key =
      let matched : List (RouteGroup F) = matched_groups lib ids protocol model t in
      let members : List RouteGroupKey = matched_members matched t in
      let sets : List ℕ × List ℕ = sort_members matched t.rates members ([], []) in
      ground (
        arith,
        sort_members-has matched t.rates members ([], []) key,
        has-select key (λ k. not (has k sets.0)) sets.1,
        has-nil key,
      )
