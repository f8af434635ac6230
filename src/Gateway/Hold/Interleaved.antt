-- ===== src/Gateway/Hold/Interleaved.antt =====
-- backend/internal/handler/gateway.go: what the client receives of a stream, however the reader and
-- the timer interleave.
use mathlib.Core.List.{append_assoc, append-nil}
use simple_up_manage.Prelude.{
  ℕ, ◌+◌, ◌≤◌, ◌≡◌, refl, ap, true, false, List, [], ◌++◌, length, arith,
}
use simple_up_manage.Gateway.Hold.{
  hold_buffer, release_held, Phase, reading, holding, failed, finished, Relay, new_relay,
  take_chunk, stash, release_relay, write_tail, finish,
}

-- The runs of copySSE and the timer: the bytes that feed has let through, and the state. The timer
-- may release at any time, so may the reader, which writes its tail once the hold is released.
pub data Runs (max_bytes : ℕ) : List ℕ → Relay → Type 0 where
  start : Runs max_bytes [] new_relay
  takes :
      {fed : List ℕ} {r : Relay} (chunk : List ℕ)
      → Runs max_bytes fed r
      → r.phase ≡ reading
      → Runs max_bytes (fed ++ chunk) (take_chunk chunk r)
  stashes :
      {fed : List ℕ} {r : Relay} (chunk : List ℕ)
      → Runs max_bytes fed r
      → r.phase ≡ holding chunk
      → Runs max_bytes fed (stash max_bytes chunk r)
  releases :
      {fed : List ℕ} {r : Relay} → Runs max_bytes fed r → Runs max_bytes fed (release_relay r)
  writes :
      {fed : List ℕ} {r : Relay}
      → Runs max_bytes fed r
      → r.phase ≡ reading
      → r.hold.released ≡ true
      → Runs max_bytes fed (write_tail r)
  finishes :
      {fed : List ℕ} {r : Relay}
      → Runs max_bytes fed r
      → r.phase ≡ reading
      → Runs max_bytes fed (finish r)

-- The chunk that the reader has in its hand.
abbrev pub in_hand : Phase → List ℕ
in_hand reading = []
in_hand (holding chunk) = chunk
in_hand (failed chunk) = chunk
in_hand finished = []

-- Before the release the client has nothing, and behind it the headers were committed once and
-- nothing is pending.
pub record IsOrdered (r : Relay) : Type 0 where
  pub before : r.hold.released ≡ false → (r.hold.sent ≡ []) × (r.hold.committed ≡ 0) × (r.tail ≡ [])
  pub behind : r.hold.released ≡ true → (r.hold.pending ≡ []) × (r.hold.committed ≡ 1)

Runs-IsOrdered : {m : ℕ} {fed : List ℕ} {r : Relay} → Runs m fed r → IsOrdered r
unfolding take_chunk stash release_relay write_tail finish hold_buffer release_held
Runs-IsOrdered start = record { before = λ e. (refl, refl, refl); behind = λ e. ground (arith, e) }
Runs-IsOrdered {m = m} (takes {r = r} chunk p e) =
    let i = Runs-IsOrdered p in
    record { before = λ f. ground (arith, i.before, f); behind = λ f. ground (arith, i.behind, f) }
Runs-IsOrdered (stashes {r = r} chunk p e) =
    let i = Runs-IsOrdered p in
    record { before = λ f. ground (arith, i.before, f); behind = λ f. ground (arith, i.behind, f) }
Runs-IsOrdered (releases {r = r} p) =
    let i = Runs-IsOrdered p in
    record {
      before = λ f. ground (arith, i.before, f);
      behind = λ f. ground (arith, i.behind, i.before, f);
    }
Runs-IsOrdered (writes {r = r} p q e) =
    let i = Runs-IsOrdered p in
    record {
      before = λ f. ground (arith, i.before, f, e);
      behind = λ f. ground (arith, i.behind, f);
    }
Runs-IsOrdered (finishes {r = r} p q) =
    let i = Runs-IsOrdered p in
    record { before = λ f. ground (arith, i.before, f); behind = λ f. ground (arith, i.behind, f) }

-- All bytes that were let through: those sent, those pending, those of the tail, the chunk in hand.
abbrev pub held_bytes : Relay → List ℕ
held_bytes r = r.hold.sent ++ r.hold.pending ++ r.tail ++ in_hand r.phase

-- The places that bytes can move between, as plain lists: sent, pending, tail and chunk.
module _ (s p t c : List ℕ) where
  to_tail : s ++ p ++ t ++ [] ++ c ≡ s ++ p ++ (t ++ c) ++ []
  to_tail = simp (append_assoc, append-nil)

  to_hand : s ++ p ++ [] ++ [] ++ c ≡ s ++ p ++ [] ++ c
  to_hand = simp (append_assoc, append-nil)

  to_pending : s ++ p ++ [] ++ c ≡ s ++ (p ++ c) ++ [] ++ []
  to_pending = simp (append_assoc, append-nil)

  to_client : s ++ p ++ t ++ c ≡ s ++ p ++ [] ++ t ++ c
  to_client = simp (append_assoc, append-nil)

  tail_to_client : s ++ [] ++ t ++ [] ≡ s ++ t ++ [] ++ [] ++ []
  tail_to_client = simp (append_assoc, append-nil)

bytes : {m : ℕ} {fed : List ℕ} {r : Relay} → Runs m fed r → fed ≡ held_bytes r
unfolding take_chunk stash release_relay write_tail finish hold_buffer release_held
bytes start = refl
bytes (takes {r = r} chunk p e) =
    let i = Runs-IsOrdered p in
    let more = ap (λ x. x ++ chunk) (bytes p) in
    ground (
      arith,
      more,
      ap in_hand e,
      i.before,
      to_tail r.hold.sent r.hold.pending r.tail chunk,
      to_hand r.hold.sent r.hold.pending r.tail chunk,
    )
bytes (stashes {r = r} chunk p e) =
    let i = Runs-IsOrdered p in
    ground
      (arith, bytes p, ap in_hand e, i.before, to_pending r.hold.sent r.hold.pending r.tail chunk)
bytes (releases {r = r} p) =
    let i = Runs-IsOrdered p in
    ground (arith, bytes p, to_client r.hold.sent r.hold.pending r.tail (in_hand r.phase))
bytes (writes {r = r} p q e) =
    let i = Runs-IsOrdered p in
    ground
      (arith, bytes p, ap in_hand q, i.behind, tail_to_client r.hold.sent r.hold.pending r.tail [])
bytes (finishes {r = r} p q) = ground (arith, bytes p, ap in_hand q)

-- However the reader, its releases and the timer interleave, the bytes that were let through are those
-- the client has received, then those pending, then those of the tail, then the chunk in hand: none is
-- lost, doubled or out of order, where the chunk given up by an error counts as in hand. Nothing is
-- received before the headers are committed, and they are committed once.
pub Runs-bytes :
    {m : ℕ} {fed : List ℕ} {r : Relay} → Runs m fed r → (fed ≡ held_bytes r) × IsOrdered r
Runs-bytes p = (bytes p, Runs-IsOrdered p)

-- A chunk that fits is buffered; but if the hold is released between copySSE's look at the flag and
-- its call of holdBuffer, the same chunk makes the stream fail, after its headers were committed: for
-- a hold that is neither released nor dead when copySSE looks.
pub stash_raced :
    (max_bytes : ℕ) (chunk : List ℕ) (r : Relay)
    → r.hold.released ≡ false
    → r.hold.dead ≡ false
    → length r.hold.pending + length chunk ≤ max_bytes
    → ((stash max_bytes chunk r).phase ≡ reading)
      × ((stash max_bytes chunk (release_relay r)).phase ≡ failed chunk)
      × ((release_relay r).hold.committed ≡ r.hold.committed + 1)
unfolding stash release_relay hold_buffer release_held
stash_raced max_bytes chunk r f d l = ground (arith, f, d, l)
