-- ===== src/Picker/Recount.antt =====
-- backend/internal/picker/band.go: the request window of a key when tryAcquire refuses.
use simple_up_manage.Prelude.{
  ℕ, ◌+◌, ◌≡◌, refl, Bool, true, false, List, [], ◌∷◌, ◌++◌, length, length-append, drop, select,
  ltb, arith,
}
use simple_up_manage.Domain.Provider.{Upstream, PlatformKey}
use simple_up_manage.Picker.Runtime.{
  RuntimeState, minute_ago, keep_after, overwritten, resource_snapshot, acquire,
}
use simple_up_manage.Picker.Capacity.{has_room}

module _ {A : Type 0} (p : A → Bool) where
  select-append : (xs ys : List A) → select p (xs ++ ys) ≡ select p xs ++ select p ys
  select-append [] ys = refl
  select-append (x ∷ xs) ys = ground (arith, select-append xs ys)

  pub select_idem : (xs : List A) → select p (select p xs) ≡ select p xs
  select_idem [] = refl
  select_idem (x ∷ xs) = ground (arith, select_idem xs)

-- Another pass over the shared array counts the kept entries and then the late ones again.
length-keep_after-overwritten :
    (cut : ℕ) (window : List ℕ)
    → length (keep_after cut (overwritten cut window))
      ≡ length (keep_after cut window)
        + length (keep_after cut (drop (length (keep_after cut window)) window))
length-keep_after-overwritten cut window =
    let p : ℕ → Bool = λ at. ltb cut at in
    let keep = select p window in
    let rest = drop (length keep) window in
    rw (select-append p keep rest, select_idem p window, length-append keep (select p rest))

module _ {F : Type 0} where
  -- What resourceSnapshot counts for a key that has room for requests but none for attempts, right
  -- after a refused reservation: the requests of the last minute, and once more those that
  -- stand behind the position where the refusal stopped writing.
  pub refused_recount :
      (now : ℕ) (key : PlatformKey F) (up : Upstream F) (st : RuntimeState)
      → has_room key.rpm_limit (length (keep_after (minute_ago now) (st.rpm key.id))) ≡ true
      → has_room key.max_concurrency (st.key_inflight key.id) ≡ false
      → let window = st.rpm key.id in
        let kept = length (keep_after (minute_ago now) window) in
        (resource_snapshot now key.id up.id (acquire now key up st).0).1.0
        ≡ kept + length (keep_after (minute_ago now) (drop kept window))
  unfolding acquire resource_snapshot
  refused_recount now key up st room full =
      ground (arith, length-keep_after-overwritten (minute_ago now) (st.rpm key.id))
