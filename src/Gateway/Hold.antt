-- ===== src/Gateway/Hold.antt =====
-- backend/internal/handler/gateway.go: the hold of a stream's first bytes (streamCollector.holdBuffer
-- and releaseHeld) and copySSE as it uses them, with the timer of the first token in between. The
-- functions that take the lock are single steps; copySSE reads the released flag in one step and
-- buffers in another. What a chunk says of the stream, when the reader releases and when it writes its
-- tail are choices of the steps. Writing to the client is taken to succeed.
pub mod Interleaved
use simple_up_manage.Prelude.{
  ℕ, ◌+◌, Bool, true, false, ◌||◌, List, [], ◌++◌, length, ltb, if◌then◌else◌,
}

-- `committed` counts the calls of commitHeaders, and `sent` is what the client has received.
pub record Hold : Type 0 where
  pub pending : List ℕ
  pub released : Bool
  pub dead : Bool
  pub committed : ℕ
  pub sent : List ℕ

abbrev pub new_hold : Hold
new_hold = record { pending = []; released = false; dead = false; committed = 0; sent = [] }

-- holdBuffer, with upstream.MaxSSEEventBytes.
unfoldable pub hold_buffer : ℕ → List ℕ → Hold → Hold × Bool
hold_buffer max_bytes chunk h =
    if h.released || h.dead
    then (h, false)
    else if ltb max_bytes (length h.pending + length chunk)
    then (h, false)
    else (record h { pending = h.pending ++ chunk }, true)

-- releaseHeld, where there are headers to commit.
unfoldable pub release_held : Hold → Hold
release_held h = if h.released || h.dead then h else record h {
  released = true;
  committed = h.committed + 1;
  sent = h.sent ++ h.pending;
  pending = [];
}

-- Where copySSE stands: before a read; with a chunk, behind the reading of a released flag that was
-- not set; returned with an error, the chunk given up; returned.
pub data Phase : Type 0 where
  reading : Phase
  holding : List ℕ → Phase
  failed : List ℕ → Phase
  finished : Phase

pub record Relay : Type 0 where
  pub hold : Hold
  pub tail : List ℕ
  pub phase : Phase

abbrev pub new_relay : Relay
new_relay = record { hold = new_hold; tail = []; phase = reading }

-- A chunk that feed has consumed: `if !col.holdReleasedState()`.
unfoldable pub take_chunk : List ℕ → Relay → Relay
take_chunk chunk r =
    if r.hold.released
    then record r { tail = r.tail ++ chunk }
    else record r { phase = holding chunk }

-- `if !col.holdBuffer(chunk) { return … }`, with the deferred holdDead.
unfoldable pub stash : ℕ → List ℕ → Relay → Relay
stash max_bytes chunk r =
    if (hold_buffer max_bytes chunk r.hold).1
    then record r { hold = (hold_buffer max_bytes chunk r.hold).0; phase = reading }
    else record r { hold = record r.hold { dead = true }; phase = failed chunk }

-- releaseHeld, by the reader or by the timer.
unfoldable pub release_relay : Relay → Relay
release_relay r = record r { hold = release_held r.hold }

-- writeTail.
unfoldable pub write_tail : Relay → Relay
write_tail r = record r { hold = record r.hold { sent = r.hold.sent ++ r.tail }; tail = [] }

-- A return of copySSE, with the deferred holdDead.
unfoldable pub finish : Relay → Relay
finish r = record r { hold = record r.hold { dead = true }; phase = finished }
