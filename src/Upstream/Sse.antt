-- ===== src/Upstream/Sse.antt =====
-- backend/internal/upstream/sse_reader.go: SSEReader, which passes a stream of events on and puts a
-- missing blank line before an event that follows a complete one. Bytes are numbers. What the buffered
-- reader underneath gives is a list of slices, each the result of one ReadSlice.
pub mod Lines
pub mod Errors
pub mod Chunks
use simple_up_manage.Prelude.{
  ℕ, ◌+◌, Bool, true, false, not, ◌&&◌, Option, none, some, List, [], ◌∷◌, ◌++◌, length, is_empty,
  take, drop, ltb, ◌==◌, if◌then◌else◌,
}

-- bytes.TrimSpace, strings.TrimSpace and json.Valid.
pub record ByteLib : Type 0 where
  pub trim_space : List ℕ → List ℕ
  pub json_valid : List ℕ → Bool

-- io.EOF or another error of the stream, and ErrSSEEventTooLarge.
pub data ReadError : Type 0 where
  stream_end : ℕ → ReadError
  too_large : ReadError

-- A result of ReadSlice: a full buffer without a line end, a line with its end, or the last bytes with
-- the error of the stream.
pub data Slice : Type 0 where
  full_buffer : List ℕ → Slice
  whole_line : List ℕ → Slice
  last_bytes : List ℕ → ℕ → Slice

-- The results of readLine, with the slices that are left.
pub data LineRead : Type 0 where
  got : List ℕ → Option ReadError → List Slice → LineRead
  overflow : LineRead

-- readLine, from the bytes of the line so far. A reader at its end keeps giving io.EOF, error 0.
unfoldable pub read_line : ℕ → List ℕ → List Slice → LineRead
read_line max acc [] = got acc (some (stream_end 0)) []
read_line max acc (full_buffer b ∷ slices) =
    let rest = read_line max (acc ++ b) slices in
    if ltb max (length acc + length b) then overflow else rest
read_line max acc (whole_line b ∷ slices) =
    if ltb max (length acc + length b) then overflow else got (acc ++ b) none slices
read_line max acc (last_bytes b e ∷ slices) =
    if ltb max (length acc + length b) then overflow else got (acc ++ b) (some (stream_end e)) []

pub record SseReader : Type 0 where
  pub slices : List Slice
  pub pending : List ℕ
  pub err : Option ReadError
  pub json : List ℕ
  pub event_name : List ℕ
  pub event_bytes : ℕ

-- bytes.HasPrefix and bytes.TrimPrefix.
unfoldable pub has_prefix : List ℕ → List ℕ → Bool
has_prefix s [] = true
has_prefix [] (c ∷ prefix) = false
has_prefix (b ∷ s) (c ∷ prefix) = b == c && has_prefix s prefix

unfoldable pub trim_prefix : List ℕ → List ℕ → List ℕ
trim_prefix s prefix = if has_prefix s prefix then drop (length prefix) s else s

-- bytes.TrimSuffix, of one byte.
unfoldable pub trim_last : ℕ → List ℕ → List ℕ
trim_last c [] = []
trim_last c (b ∷ []) = if b == c then [] else b ∷ []
trim_last c (b ∷ d ∷ s) = b ∷ trim_last c (d ∷ s)

abbrev pub event_prefix : List ℕ
event_prefix = b'e' ∷ b'v' ∷ b'e' ∷ b'n' ∷ b't' ∷ b':' ∷ []

abbrev pub data_prefix : List ℕ
data_prefix = b'd' ∷ b'a' ∷ b't' ∷ b'a' ∷ b':' ∷ []

-- The line without its end.
unfoldable pub field_of : List ℕ → List ℕ
field_of line = trim_last 13 (trim_last 10 line)

abbrev pub is_event : List ℕ → Bool
is_event line = has_prefix (field_of line) event_prefix

abbrev pub starts_object : List ℕ → Bool
starts_object [] = false
starts_object (b ∷ s) = b == b'{'

-- completeSSEObject.
unfoldable pub complete_sse_object : ByteLib → List ℕ → Bool
complete_sse_object lib json =
    starts_object (lib.trim_space json) && lib.json_valid (lib.trim_space json)

-- The blank line is missing before this line.
unfoldable pub must_repair : ByteLib → SseReader → List ℕ → Bool
must_repair lib r line =
    is_event line && not (is_empty r.event_name) && complete_sse_object lib r.json

abbrev pub cleared : SseReader → SseReader
cleared r = record r { json = []; event_name = []; event_bytes = 0 }

-- What a line says of the event: a blank line ends it, event: names it, data: adds to its data.
unfoldable pub note_line : ByteLib → List ℕ → SseReader → SseReader
note_line lib line r =
    let field = field_of line in
    if is_empty field
    then cleared r
    else if is_event line
    then record r { event_name = lib.trim_space (drop 6 field) }
    else if has_prefix field data_prefix
    then record r {
      json =
          r.json
          ++ ((if is_empty r.json then [] else 10 ∷ []) ++ trim_prefix (drop 5 field) (32 ∷ []));
    }
    else r

-- The line is counted, noted and made pending.
unfoldable pub keep_line : ByteLib → ℕ → Bool → List ℕ → SseReader → SseReader
keep_line lib max repair line s =
    let counted = record s { event_bytes = s.event_bytes + length line } in
    if ltb max counted.event_bytes
    then record counted { err = some too_large }
    else record (note_line lib line counted) { pending = if repair then 10 ∷ line else line }

-- Read behind readLine, for a line with at least one byte.
unfoldable pub accept_line : ByteLib → ℕ → List ℕ → SseReader → SseReader
accept_line lib max line r =
    let repair = must_repair lib r line in
    keep_line lib max repair line (if repair then cleared r else r)

abbrev pub take_line : ByteLib → ℕ → LineRead → SseReader → SseReader
take_line lib max overflow r = record r { err = some too_large }
take_line lib max (got [] e rest) r = record r { err = e; slices = rest }
take_line lib max (got (b ∷ line) e rest) r =
    accept_line lib max (b ∷ line) (record r { err = e; slices = rest })

abbrev pub on_err : Option ReadError → SseReader → SseReader → SseReader
on_err none r r' = r'
on_err (some e) r r' = r

-- The part of Read that looks for pending bytes.
unfoldable pub refill : ByteLib → ℕ → SseReader → SseReader
refill lib max r = on_err r.err r (take_line lib max (read_line max [] r.slices) r)

-- Read into a buffer of this size: the bytes, or an error where there are none.
unfoldable pub read : ByteLib → ℕ → ℕ → SseReader → SseReader × List ℕ × Option ReadError
read lib max size r =
    let s = if is_empty r.pending then refill lib max r else r in
    if size == 0
    then (r, [], none)
    else if is_empty s.pending
    then (s, [], s.err)
    else (record s { pending = drop size s.pending }, take size s.pending, none)

-- NewSSEReader.
abbrev pub new_sse_reader : List Slice → SseReader
new_sse_reader slices = record {
  slices = slices;
  pending = [];
  err = none;
  json = [];
  event_name = [];
  event_bytes = 0;
}
