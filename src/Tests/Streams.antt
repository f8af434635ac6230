-- ===== src/Tests/Streams.antt =====
-- backend/internal/handler/gateway.go and recovery_wait.go: the theorems on the hold of a stream and on the wait
-- for a recovery at concrete data.
use simple_up_manage.Prelude.{◌≡◌, refl, true, false, [], ◌∷◌, arith}
use simple_up_manage.Gateway.Hold.{
  Relay, new_relay, hold_buffer, release_held, reading, holding, failed, take_chunk, stash,
  release_relay, write_tail,
}
use simple_up_manage.Gateway.Hold.Interleaved.{
  Runs, start, takes, stashes, releases, writes, IsOrdered, held_bytes, Runs-bytes, stash_raced,
}
use simple_up_manage.Gateway.Wait.{GateState}

-- Two bytes are buffered and released, and two more go through the tail.
abbrev buffered : Relay
buffered = stash 10 (1 ∷ 2 ∷ []) (take_chunk (1 ∷ 2 ∷ []) new_relay)

abbrev relayed : Relay
relayed = write_tail (take_chunk (3 ∷ 4 ∷ []) (release_relay buffered))

relayed_run : Runs 10 (1 ∷ 2 ∷ 3 ∷ 4 ∷ []) relayed
unfolding take_chunk stash release_relay hold_buffer release_held
relayed_run =
    writes
      (takes (3 ∷ 4 ∷ []) (releases (stashes (1 ∷ 2 ∷ []) (takes (1 ∷ 2 ∷ []) start refl) refl))
        refl)
      refl refl

Runs-bytes_example : ((1 ∷ 2 ∷ 3 ∷ 4 ∷ []) ≡ held_bytes relayed) × IsOrdered relayed
Runs-bytes_example = Runs-bytes relayed_run

abbrev looked : Relay
looked = record new_relay { phase = holding (1 ∷ []) }

stash_raced_example :
    ((stash 10 (1 ∷ []) looked).phase ≡ reading)
    × ((stash 10 (1 ∷ []) (release_relay looked)).phase ≡ failed (1 ∷ []))
    × ((release_relay looked).hold.committed ≡ 1)
stash_raced_example = stash_raced 10 (1 ∷ []) looked refl refl (ground arith)

-- An open gate whose lease runs to 90.
abbrev leased : GateState
leased = record {
  generation = 2;
  is_open = true;
  until = 10;
  lease_until = 90;
  check_until = 0;
  next_check_at = 0;
  check_ok = false;
}
