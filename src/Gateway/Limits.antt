-- ===== src/Gateway/Limits.antt =====
-- backend/internal/handler/gateway.go: authConsumer, rpmLimiter and concLimiter. The limiters work
-- under their mutex; a map from ids is a function that is empty, or 0, where there is no entry. A
-- limit is an `int` that is at least 0, since every test treats the negative ones as 0.
use simple_up_manage.Prelude.{
  ℕ, ◌+◌, String, Bool, true, false, not, ◌&&◌, Option, none, some, List, [], ◌∷◌, ◌++◌, length,
  ltb, leb, ◌==◌, if◌then◌else◌, str_eq, Float64,
}
use simple_up_manage.Picker.Runtime.{put, minute_ago, keep_after, count_down}

-- rpmLimiter.Allow. Every path stores `alive`, so the array that it shares with `hits` is read no
-- more.
unfoldable pub allow : ℕ → ℕ → ℕ → (ℕ → List ℕ) → (ℕ → List ℕ) × Bool
allow now id rpm windows =
    let alive = keep_after (minute_ago now) (windows id) in
    if rpm == 0
    then (windows, true)
    else if leb rpm (length alive)
    then (put windows id alive, false)
    else (put windows id (alive ++ now ∷ []), true)

-- concLimiter.Acquire.
unfoldable pub conc_acquire : ℕ → ℕ → (ℕ → ℕ) → (ℕ → ℕ) × Bool
conc_acquire id limit inflight =
    if limit == 0
    then (inflight, true)
    else if leb limit (inflight id)
    then (inflight, false)
    else (put inflight id (inflight id + 1), true)

-- concLimiter.Release: an entry at or below 0 is deleted.
unfoldable pub conc_release : ℕ → ℕ → (ℕ → ℕ) → (ℕ → ℕ)
conc_release id limit inflight = if limit == 0 then inflight else count_down inflight id

-- The columns of ConsumerKey that the gateway reads.
pub record ConsumerKey (F : Type 0) : Type 0 where
  pub id : ℕ
  pub status : String
  pub quota_usd : F
  pub quota_used : F
  pub rpm : ℕ

-- The results of authConsumer: the key, or an error with its status, its type and its message.
pub data Auth (F : Type 0) : Type 0 where
  accepted : ConsumerKey F → Auth F
  refused : ℕ → String → String → Auth F

module _ {F : Type 0} ⦃fl : Float64 F⦄ where
  abbrev pub quota_exhausted : ConsumerKey F → Bool
  quota_exhausted k = fl.ltf (fl.lit 0 0) k.quota_usd && fl.lef k.quota_usd k.quota_used

  -- The limits of authConsumer.
  unfoldable pub check_limits : ℕ → ConsumerKey F → (ℕ → List ℕ) → (ℕ → List ℕ) × Auth F
  check_limits now k windows =
      if quota_exhausted k
      then (windows, refused 429 "rate_limit_error" "Quota exhausted")
      else if ltb 0 k.rpm && not (allow now k.id k.rpm windows).1
      then ((allow now k.id k.rpm windows).0, refused 429 "rate_limit_error" "RPM exceeded")
      else (if ltb 0 k.rpm then (allow now k.id k.rpm windows).0 else windows, accepted k)

  -- authConsumer behind the lookup of the key.
  unfoldable pub check_key :
      ℕ → Bool → Option (ConsumerKey F) → (ℕ → List ℕ) → (ℕ → List ℕ) × Auth F
  check_key now enforce none windows =
      (windows, refused 401 "authentication_error" "Invalid API key")
  check_key now enforce (some k) windows =
      if not (str_eq k.status "enabled")
      then (windows, refused 403 "permission_error" "API key disabled")
      else if enforce
      then check_limits now k windows
      else (windows, accepted k)

  -- authConsumer; `lookup` is the query for the key.
  unfoldable pub auth_consumer :
      ℕ → Bool → String → (String → Option (ConsumerKey F)) → (ℕ → List ℕ) → (ℕ → List ℕ) × Auth F
  auth_consumer now enforce raw lookup windows =
      if str_eq raw ""
      then (windows, refused 401 "authentication_error" "Missing API key")
      else check_key now enforce (lookup raw) windows
