-- ===== src/Tests/Attempts.antt =====
-- backend/internal/picker/band.go: the theorems on reservations at a concrete key and provider.
use simple_up_manage.Prelude.{ℕ, ◌≡◌, refl, true, false, [], ◌∷◌}
use simple_up_manage.Domain.Routing.{seconds}
use simple_up_manage.Picker.Runtime.{RuntimeState, new_runtime, acquire, granted, resource_snapshot}
use simple_up_manage.Picker.Capacity.{
  Pool, Tracks, here, next, grants, finishes, finish_at, Run-Tracks,
}
use simple_up_manage.Picker.Recount.{refused_recount}
use simple_up_manage.Tests.Data.{key, provider}

-- One attempt runs; a request was sent 65 seconds ago and one 5 seconds ago.
abbrev busy : RuntimeState
busy = record {
  key_inflight = λ k. 1;
  provider_inflight = λ k. 1;
  rpm = λ k. seconds 935 ∷ seconds 995 ∷ [];
}

-- The refused reservation makes the one request of the last minute count twice.
refused_recount_example :
    (resource_snapshot (seconds 1000) 7 1 (acquire (seconds 1000) key provider busy).0).1.0 ≡ 2
refused_recount_example = refused_recount (seconds 1000) key provider busy refl refl

abbrev empty : Pool ℕ
empty = record { runtime = new_runtime; attempts = [] }

abbrev one : Pool ℕ
one = record {
  runtime = (acquire (seconds 1000) key provider new_runtime).0;
  attempts = record { at = seconds 1000; key = key; up = provider; done = false } ∷ [];
}

granted_one : (acquire (seconds 1000) key provider new_runtime).1 ≡ granted (seconds 1000)
unfolding acquire
granted_one = refl

empty-Tracks : Tracks empty
empty-Tracks = record { keys = λ k. refl; providers = λ u. refl }

Run-Tracks_example : Tracks (record {
  runtime = (finish_at 0 true one.attempts one.runtime).1;
  attempts = (finish_at 0 true one.attempts one.runtime).0;
})
Run-Tracks_example =
    Run-Tracks empty _
      (next (next here (grants (seconds 1000) (seconds 1000) key provider granted_one))
        (finishes 0 true))
      empty-Tracks
