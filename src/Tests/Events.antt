-- ===== src/Tests/Events.antt =====
-- Tests: an event stream that is read in small pieces, backend/internal/upstream.
use simple_up_manage.Prelude.{
  ℕ, zero, suc, ◌+◌, ◌<◌, ◌≡◌, refl, true, [], ◌∷◌, All, length, replicate, length-replicate, arith,
}
use simple_up_manage.Upstream.Sse.{
  ByteLib, SseReader, whole_line, new_sse_reader, read_line, refill, accept_line, keep_line,
  note_line, must_repair, field_of, has_prefix, trim_prefix, trim_last, complete_sse_object,
}
use simple_up_manage.Upstream.Sse.Lines.{all_of, lines_left}
use simple_up_manage.Upstream.Sse.Chunks.{reads, Gives, reads_whole}

abbrev lib : ByteLib
lib = record { trim_space = λ b. b; json_valid = λ b. true }

-- A blank line is missing before the second event.
abbrev reader : SseReader
reader = new_sse_reader (
    whole_line (b'e' ∷ b'v' ∷ b'e' ∷ b'n' ∷ b't' ∷ b':' ∷ b'a' ∷ 10 ∷ [])
    ∷ whole_line (b'd' ∷ b'a' ∷ b't' ∷ b'a' ∷ b':' ∷ b'{' ∷ 10 ∷ [])
    ∷ whole_line (b'e' ∷ b'v' ∷ b'e' ∷ b'n' ∷ b't' ∷ b':' ∷ 10 ∷ [])
    ∷ [])

positive : (n : ℕ) → All (λ size. 0 < size) (replicate n 3)
positive zero = tt
positive (suc n) = (omega arith, positive n)

repaired_length : length (all_of lib 1000 reader) + lines_left reader ≡ 27
unfolding read_line refill accept_line keep_line note_line must_repair field_of has_prefix
    trim_prefix trim_last complete_sse_object
repaired_length = refl

reads_whole_example : Gives lib 1000 (reads lib 1000 (replicate 30 3) reader) reader
reads_whole_example =
    reads_whole lib 1000 (replicate 30 3) reader (positive 30)
      (omega (arith, repaired_length, length-replicate {A = ℕ} 30 3))
