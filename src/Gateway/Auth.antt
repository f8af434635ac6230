-- ===== src/Gateway/Auth.antt =====
-- backend/internal/handler/gateway.go: whom authConsumer turns away, and with what.
use simple_up_manage.Prelude.{
  ℕ, ◌<◌, ◌≤◌, ◌≡◌, ◌≢◌, ◌⊎◌, refl, String, Bool, true, Option, none, some, List, str_eq, Float64,
  arith, eq_iff, inl, inr, Bool-cases, subst,
}
use simple_up_manage.Gateway.Limits.{
  ConsumerKey, accepted, refused, quota_exhausted, check_limits, check_key, auth_consumer,
}
use simple_up_manage.Gateway.Rates.{Call, Calls, in_minute, allow_exact}

module _ {F : Type 0} ⦃fl : Float64 F⦄ where
  -- The limits that a key is over after some calls, if they are enforced.
  abbrev pub OverLimit : ℕ → List Call → ConsumerKey F → Type 0
  OverLimit now log k =
      (quota_exhausted k ≡ true) ⊎ ((0 < k.rpm) × (k.rpm ≤ in_minute now k.id log))

  check_limits_refused :
      (t now : ℕ) (windows : ℕ → List ℕ) (log : List Call) (k : ConsumerKey F) (status : ℕ)
      (kind msg : String)
      → Calls t windows log
      → t ≤ now
      → (check_limits now k windows).1 ≡ refused status kind msg
      → (status ≡ 429) × OverLimit now log k
  unfolding check_limits
  check_limits_refused t now windows log k status kind msg c o e =
      ground (arith, allow_exact now k.id k.rpm c o)

  check_limits_accepted :
      (t now : ℕ) (windows : ℕ → List ℕ) (log : List Call) (k k' : ConsumerKey F)
      → Calls t windows log
      → t ≤ now
      → (check_limits now k windows).1 ≡ accepted k'
      → (k ≡ k') × (OverLimit now log k → ⊥)
  unfolding check_limits
  check_limits_accepted t now windows log k k' c o e =
      (ground arith, λ over. ground (arith, allow_exact now k.id k.rpm c o))

  -- Why a key that was found is turned away.
  abbrev pub Refusal : ℕ → List Call → Bool → ConsumerKey F → ℕ → Type 0
  Refusal now log enforce k status =
      ((status ≡ 403) × (k.status ≢ "enabled"))
      ⊎ ((status ≡ 429) × (enforce ≡ true) × (k.status ≡ "enabled") × OverLimit now log k)

  check_key_refused :
      (t now : ℕ) (enforce : Bool) (windows : ℕ → List ℕ) (log : List Call) (k : ConsumerKey F)
      (status : ℕ) (kind msg : String)
      → Calls t windows log
      → t ≤ now
      → (check_key now enforce (some k) windows).1 ≡ refused status kind msg
      → Refusal now log enforce k status
  unfolding check_key
  check_key_refused t now enforce windows log k status kind msg c o e = ground (
    arith,
    eq_iff k.status "enabled",
    check_limits_refused t now windows log k status kind msg c o,
  )

  check_key_accepted :
      (t now : ℕ) (enforce : Bool) (windows : ℕ → List ℕ) (log : List Call) (k k' : ConsumerKey F)
      → Calls t windows log
      → t ≤ now
      → (check_key now enforce (some k) windows).1 ≡ accepted k'
      → (k ≡ k') × (k.status ≡ "enabled") × (enforce ≡ true → OverLimit now log k → ⊥)
  unfolding check_key
  check_key_accepted t now enforce windows log k k' c o e = (
    ground (arith, check_limits_accepted t now windows log k k' c o),
    ground (arith, eq_iff k.status "enabled"),
    λ f over. ground (arith, check_limits_accepted t now windows log k k' c o),
  )

  missing_status :
      (now : ℕ) (enforce : Bool) (windows : ℕ → List ℕ) (status : ℕ) (kind msg : String)
      → (check_key {F = F} now enforce none windows).1 ≡ refused status kind msg
      → status ≡ 401
  unfolding check_key
  missing_status now enforce windows status kind msg e = ground arith

  missing_refused {ℓ} :
      (now : ℕ) (enforce : Bool) (windows : ℕ → List ℕ) (k : ConsumerKey F) {A : Type ℓ}
      → (check_key {F = F} now enforce none windows).1 ≡ accepted k
      → A
  unfolding check_key
  missing_refused now enforce windows k e = ground arith

  check_found_refused :
      (t now : ℕ) (enforce : Bool) (found : Option (ConsumerKey F)) (windows : ℕ → List ℕ)
      (log : List Call) (status : ℕ) (kind msg : String)
      → Calls t windows log
      → t ≤ now
      → (check_key now enforce found windows).1 ≡ refused status kind msg
      → ((status ≡ 401) × (found ≡ none))
        ⊎ ((k : ConsumerKey F) × (found ≡ some k) × Refusal now log enforce k status)
  check_found_refused t now enforce none windows log status kind msg c o e =
      inl (missing_status now enforce windows status kind msg e, refl)
  check_found_refused t now enforce (some k) windows log status kind msg c o e =
      inr (k, refl, check_key_refused t now enforce windows log k status kind msg c o e)

  check_found_accepted :
      (t now : ℕ) (enforce : Bool) (found : Option (ConsumerKey F)) (windows : ℕ → List ℕ)
      (log : List Call) (k : ConsumerKey F)
      → Calls t windows log
      → t ≤ now
      → (check_key now enforce found windows).1 ≡ accepted k
      → (found ≡ some k) × (k.status ≡ "enabled") × (enforce ≡ true → OverLimit now log k → ⊥)
  check_found_accepted t now enforce none windows log k c o e =
      missing_refused now enforce windows k e
  check_found_accepted t now enforce (some found) windows log k c o e =
      let r = check_key_accepted t now enforce windows log found k c o e in
      subst
        (λ x.
          (some found ≡ some x)
          × (x.status ≡ "enabled")
          × (enforce ≡ true → OverLimit now log x → ⊥))
        r.0 (refl, r.1, r.2)

  -- A client that is turned away gets 401 if its key is missing or unknown; any other refusal is of a
  -- key that is not missing and was found: 403 if it is not enabled, and 429 if it is enabled, limits are
  -- enforced, and its quota is used up or as many of its calls as its limit, which is positive, were
  -- let through in the last minute. The windows are those of calls in the order of their times.
  pub auth_consumer_refused :
      (t now : ℕ) (enforce : Bool) (raw : String) (lookup : String → Option (ConsumerKey F))
      (windows : ℕ → List ℕ) (log : List Call) (status : ℕ) (kind msg : String)
      → Calls t windows log
      → t ≤ now
      → (auth_consumer now enforce raw lookup windows).1 ≡ refused status kind msg
      → ((status ≡ 401) × ((raw ≡ "") ⊎ (lookup raw ≡ none)))
        ⊎ ((k : ConsumerKey F) × (raw ≢ "")
            × (lookup raw ≡ some k)
            × Refusal now log enforce k status)
  unfolding auth_consumer
  auth_consumer_refused t now enforce raw lookup windows log status kind msg c o e =
      elim (Bool-cases (str_eq raw "")) [
        | inl f ↦ inl (ground arith, inl ((eq_iff raw "").0 f))
        | inr f ↦
            elim (check_found_refused t now enforce (lookup raw) windows log status kind msg c o
              (ground arith)) [
                | inl r ↦ inl (r.0, inr r.1)
                | inr (k, found, r) ↦ inr (k, λ g. ground (arith, eq_iff raw ""), found, r)
              ]
      ]

  -- A key that is accepted is the one that was found, and it is enabled; where limits are enforced,
  -- its quota is not used up and fewer of its calls than its limit, if that is positive, were let
  -- through in the last minute. The windows are those of calls in the order of their times.
  pub auth_consumer_accepted :
      (t now : ℕ) (enforce : Bool) (raw : String) (lookup : String → Option (ConsumerKey F))
      (windows : ℕ → List ℕ) (log : List Call) (k : ConsumerKey F)
      → Calls t windows log
      → t ≤ now
      → (auth_consumer now enforce raw lookup windows).1 ≡ accepted k
      → (raw ≢ "")
        × (lookup raw ≡ some k)
        × (k.status ≡ "enabled")
        × (enforce ≡ true → OverLimit now log k → ⊥)
  unfolding auth_consumer
  auth_consumer_accepted t now enforce raw lookup windows log k c o e =
      elim (Bool-cases (str_eq raw "")) [
        | inl f ↦ ground arith
        | inr f ↦
            (let r =
                check_found_accepted t now enforce (lookup raw) windows log k c o (ground arith) in
              (λ g. ground (arith, eq_iff raw ""), r.0, r.1, r.2))
      ]
