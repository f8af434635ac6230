-- ===== src/Upstream/Sse/Lines.antt =====
-- backend/internal/upstream/sse_reader.go: all the bytes that come of a reader, and how many lines
-- of the stream they take.
use simple_up_manage.Prelude.{
  ℕ, zero, suc, ◌+◌, ◌≤◌, ◌<◌, ◌≡◌, refl, sym, ap, ◌∙◌, inl, inr, Bool, true, false, Option, none,
  some, List, [], ◌∷◌, ◌++◌, length, ltb, if◌then◌else◌, Bool-cases, arith, ◌-◌,
}
use mathlib.Core.List.{append_assoc, append-nil}
use simple_up_manage.Upstream.Sse.{
  ByteLib, ReadError, Slice, full_buffer, whole_line, last_bytes, LineRead, got, overflow,
  read_line, SseReader, accept_line, keep_line, note_line, take_line, on_err, refill, must_repair,
  cleared,
}

-- What readLine leaves: fewer slices, or an error.
abbrev ReadsOn : ℕ → LineRead → Type 0
ReadsOn n overflow = Unit
ReadsOn n (got l none rest) = length rest < n
ReadsOn n (got l (some e) rest) = Unit

ReadsOn-le : (m n : ℕ) (x : LineRead) → m ≤ n → ReadsOn m x → ReadsOn n x
ReadsOn-le m n overflow h r = tt
ReadsOn-le m n (got l none rest) h r = omega arith
ReadsOn-le m n (got l (some e) rest) h r = tt

read_line-ReadsOn :
    (max : ℕ) (acc : List ℕ) (slices : List Slice)
    → ReadsOn (length slices) (read_line max acc slices)
unfolding read_line
read_line-ReadsOn max acc [] = tt
read_line-ReadsOn max acc (full_buffer b ∷ slices) =
    elim (Bool-cases (ltb max (length acc + length b))) [
      | inl over ↦ rw over tt
      | inr fits ↦ rw fits (
          ReadsOn-le (length slices) (suc (length slices)) _ (omega arith)
            (read_line-ReadsOn max (acc ++ b) slices))
    ]
read_line-ReadsOn max acc (whole_line b ∷ slices) =
    elim (Bool-cases (ltb max (length acc + length b))) [
      | inl over ↦ rw over tt
      | inr fits ↦ rw fits (omega arith)
    ]
read_line-ReadsOn max acc (last_bytes b e ∷ slices) =
    elim (Bool-cases (ltb max (length acc + length b))) [
      | inl over ↦ rw over tt
      | inr fits ↦ rw fits tt
    ]

-- The lines that can come.
abbrev pub lines_after : Option ReadError → List Slice → ℕ
lines_after none slices = suc (length slices)
lines_after (some e) slices = 0

abbrev pub lines_left : SseReader → ℕ
lines_left r = lines_after r.err r.slices

module _ (lib : ByteLib) (max : ℕ) where
  note_line-lines : (l : List ℕ) (r : SseReader) → lines_left (note_line lib l r) ≡ lines_left r
  unfolding note_line
  note_line-lines l r = ground arith

  keep_line-lines :
      (repair : Bool) (l : List ℕ) (r : SseReader)
      → lines_left (keep_line lib max repair l r) ≤ lines_left r
  unfolding keep_line
  keep_line-lines repair l r = elim (Bool-cases (ltb max (r.event_bytes + length l))) [
    | inl over ↦ rw over (omega arith)
    | inr fits ↦
        rw fits
          (omega (arith, note_line-lines l (record r { event_bytes = r.event_bytes + length l })))
  ]

  cleared-lines :
      (b : Bool) (r : SseReader) → lines_left (if b then cleared r else r) ≡ lines_left r
  cleared-lines true r = refl
  cleared-lines false r = refl

  -- The lines that are left do not grow by accepting one.
  accept_line-lines :
      (l : List ℕ) (r : SseReader) → lines_left (accept_line lib max l r) ≤ lines_left r
  unfolding accept_line
  accept_line-lines l r =
      let repair = must_repair lib r l in
      omega
        (arith, cleared-lines repair r, keep_line-lines repair l (if repair then cleared r else r))

  take_line-lines :
      (n : ℕ) (x : LineRead) (r : SseReader) → ReadsOn n x → lines_left (take_line lib max x r) ≤ n
  take_line-lines n overflow r h = omega arith
  take_line-lines n (got [] none rest) r h = omega arith
  take_line-lines n (got [] (some e) rest) r h = omega arith
  take_line-lines n (got (b ∷ l) none rest) r h =
      omega (arith, accept_line-lines (b ∷ l) (record r { err = none; slices = rest }))
  take_line-lines n (got (b ∷ l) (some e) rest) r h =
      omega (arith, accept_line-lines (b ∷ l) (record r { err = some e; slices = rest }))

  lines_at :
      (e : Option ReadError) (r : SseReader) (n : ℕ)
      → r.err ≡ e
      → lines_after e r.slices ≤ suc n
      → lines_left (on_err e r (take_line lib max (read_line max [] r.slices) r)) ≤ n
  lines_at none r n q h = omega (
    arith,
    take_line-lines (length r.slices) (read_line max [] r.slices) r
        (read_line-ReadsOn max [] r.slices),
  )
  lines_at (some e) r n q h = omega (arith, ap (λ x. lines_after x r.slices) q)

  -- Looking for bytes uses a line up, while there is no error.
  pub refill-lines :
      (r : SseReader) (n : ℕ) → lines_left r ≤ suc n → lines_left (refill lib max r) ≤ n
  unfolding refill
  refill-lines r n h = lines_at r.err r n refl h

  -- All the bytes that come, within a number of lines.
  abbrev pub all_within : ℕ → SseReader → List ℕ
  all_within zero r = r.pending
  all_within (suc f) r = r.pending ++ all_within f (refill lib max (record r { pending = [] }))

  -- All the bytes that come.
  abbrev pub all_of : SseReader → List ℕ
  all_of r = all_within (lines_left r) r

  on_err-at_end :
      (e : Option ReadError) (r r' : SseReader) → lines_after e r.slices ≤ 0 → on_err e r r' ≡ r
  on_err-at_end none r r' h = absurd (omega arith)
  on_err-at_end (some e) r r' h = refl

  pub refill-at_end : (r : SseReader) → lines_left r ≤ 0 → refill lib max r ≡ r
  unfolding refill
  refill-at_end r h = on_err-at_end r.err r (take_line lib max (read_line max [] r.slices) r) h

  -- Further lines give nothing.
  all_within-enough :
      (f : ℕ) (r : SseReader) → lines_left r ≤ f → all_within (suc f) r ≡ all_within f r
  all_within-enough zero r h =
      ap (λ s. r.pending ++ s.pending) (refill-at_end (record r { pending = [] }) h)
      ∙ append-nil r.pending
  all_within-enough (suc f) r h =
      ap (λ bytes. r.pending ++ bytes)
        (all_within-enough f (refill lib max (record r { pending = [] }))
          (refill-lines (record r { pending = [] }) f h))

  all_within-all : (k f : ℕ) (r : SseReader) → f ≡ k + lines_left r → all_within f r ≡ all_of r
  all_within-all zero f r e = ap (λ n. all_within n r) (omega (arith, e))
  all_within-all (suc k) f r e =
      let q : f ≡ suc (k + lines_left r) = omega (arith, e) in
      ap (λ n. all_within n r) q
      ∙ (all_within-enough (k + lines_left r) r (omega arith)
          ∙ all_within-all k (k + lines_left r) r refl)

  -- The first bytes that are pending come first.
  pub all_within-split :
      (f : ℕ) (r : SseReader) (a b : List ℕ)
      → a ++ b ≡ r.pending
      → a ++ all_within f (record r { pending = b }) ≡ all_within f r
  all_within-split zero r a b e = e
  all_within-split (suc f) r a b e =
      sym (append_assoc a b (all_within f (refill lib max (record r { pending = [] }))))
      ∙ ap (λ p. p ++ all_within f (refill lib max (record r { pending = [] }))) e

  pub all_of-refill : (r : SseReader) → r.pending ≡ [] → all_of (refill lib max r) ≡ all_of r
  all_of-refill r e =
      sym (
        all_within-all (lines_left r - lines_left (refill lib max r)) (lines_left r)
          (refill lib max r) (omega (arith, refill-lines r (lines_left r) (omega arith))))
      ∙ (ap (λ p. all_within (lines_left r) (refill lib max (record r { pending = p }))) e
          ∙ (ap (λ p. p ++ all_within (lines_left r) (refill lib max (record r { pending = [] })))
                (sym e)
              ∙ all_within-enough (lines_left r) r (omega arith)))
