-- ===== src/Picker/State.antt =====
-- backend/internal/picker/stable.go: stableState, prepare, and what CommitSuccess writes there. Times
-- are in milliseconds and a Go map is a function. SetSticky, which CommitSuccess calls in the other
-- ranking modes, is left out.
use simple_up_manage.Prelude.{
  ℕ, ◌+◌, ◌*◌, String, Bool, not, ◌&&◌, ◌||◌, Option, none, some, leb, ◌==◌, if◌then◌else◌, str_eq,
}
use Prim.Native.String.{◌++◌}
use simple_up_manage.Domain.Settings.{SchedulerSettings}

pub record Binding : Type 0 where
  pub key : ℕ
  pub expires : ℕ
  pub challenger : ℕ
  pub since : ℕ

pub record ResponseSession : Type 0 where
  pub session : String
  pub expires : ℕ

pub record StableState : Type 0 where
  pub bindings : String → Option Binding
  pub responses : String → Option ResponseSession
  pub explored : ℕ → ℕ
  pub expires : ℕ

abbrev pub no_state : StableState
no_state = record { bindings = λ s. none; responses = λ s. none; explored = λ k. 0; expires = 0 }

-- An entry that has not expired.
abbrev pub unexpired {ℓ} : {A : Type ℓ} → (A → ℕ) → ℕ → Option A → Option A
unexpired expires now none = none
unexpired expires now (some a) = if leb (expires a) now then none else some a

-- prepare.
unfoldable pub prepare : ℕ → StableState → StableState
prepare now s =
    let kept = if leb s.expires now then no_state else s in
    record kept {
      bindings = λ k. unexpired (λ (b : Binding). b.expires) now (kept.bindings k);
      responses = λ k. unexpired (λ (r : ResponseSession). r.expires) now (kept.responses k);
    }

-- The entry of a map at a text.
abbrev pub put_text {ℓ} : {A : Type ℓ} → (String → A) → String → A → String → A
put_text f k v s = if str_eq s k then v else f s

-- The binding after a success: a late completion does not overwrite a newer decision.
unfoldable pub rebound : ℕ → ℕ → ℕ → Option Binding → Option Binding
rebound key previous until none =
    some (record { key = key; expires = until; challenger = 0; since = 0 })
rebound key previous until (some old) =
    if old.key == key
    then some (record old { expires = until })
    else if old.key == previous
    then some (record { key = key; expires = until; challenger = 0; since = 0 })
    else some old

-- CommitSuccess in the ranking mode stable_latency. `digest_of` is sessionDigest, and `previous` is
-- the decision's PreviousKeyID.
unfoldable pub commit_success :
    {F : Type 0}
    → (String → String)
    → SchedulerSettings F
    → ℕ
    → (session response_id reason : String) → Bool
    → (previous key : ℕ) → StableState
    → StableState
commit_success digest_of cfg now session response_id reason exploration previous key st =
    let ttl = if str_eq session "" then 900 else cfg.sticky_ttl_sec in
    let binds =
      not (str_eq reason "challenger_trial") && (not exploration || not (str_eq session "")) in
    let bound_state =
      if binds
      then record st {
        bindings =
            put_text st.bindings session
              (rebound key previous (now + ttl * 1000) (st.bindings session));
      }
      else st in
    let sticky_until = now + cfg.sticky_ttl_sec * 1000 in
    let answer = digest_of ("response:" ++ response_id) in
    let named = if str_eq session "" then answer else session in
    let own : Binding = record { key = key; expires = sticky_until; challenger = 0; since = 0 } in
    let with_answer =
      if str_eq session ""
      then record bound_state { bindings = put_text bound_state.bindings answer (some own) }
      else bound_state in
    if str_eq reason "recovery_validation" || not (str_eq cfg.ranking_mode "stable_latency")
    then st
    else if str_eq response_id ""
    then bound_state
    else record with_answer {
      responses =
          put_text with_answer.responses (digest_of response_id)
            (some (record { session = named; expires = sticky_until }));
    }
