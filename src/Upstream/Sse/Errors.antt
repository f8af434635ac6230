-- ===== src/Upstream/Sse/Errors.antt =====
-- backend/internal/upstream/sse_reader.go: the error that ends a stream, when all its lines are read.
use simple_up_manage.Prelude.{
  ℕ, zero, suc, ◌+◌, ◌≤◌, ◌<◌, ◌≡◌, refl, sym, ap, ◌∙◌, ◌⊎◌, inl, inr, true, Option, none, some,
  List, [], ◌∷◌, is_empty, take, drop, ◌==◌, if◌then◌else◌, Bool-cases, arith, ◌-◌,
}
use simple_up_manage.Upstream.Sse.{ByteLib, ReadError, SseReader, refill, read}
use simple_up_manage.Upstream.Sse.Lines.{lines_after, lines_left, refill-lines, refill-at_end}

pub is_empty-nil : (l : List ℕ) → is_empty l ≡ true → l ≡ []
is_empty-nil [] e = refl
is_empty-nil (b ∷ l) e = absurd (ground (arith, e))

module _ (lib : ByteLib) (max : ℕ) where
  -- The error of the reader when this many lines have been looked for.
  abbrev pub err_within : ℕ → SseReader → Option ReadError
  err_within zero r = r.err
  err_within (suc f) r = err_within f (refill lib max (record r { pending = [] }))

  -- The error behind the last line.
  abbrev pub err_of : SseReader → Option ReadError
  err_of r = err_within (lines_left r) r

  err_within-enough :
      (f : ℕ) (r : SseReader) → lines_left r ≤ f → err_within (suc f) r ≡ err_within f r
  err_within-enough zero r h = ap (λ s. s.err) (refill-at_end lib max (record r { pending = [] }) h)
  err_within-enough (suc f) r h =
      err_within-enough f (refill lib max (record r { pending = [] }))
        (refill-lines lib max (record r { pending = [] }) f h)

  err_within-all : (k f : ℕ) (r : SseReader) → f ≡ k + lines_left r → err_within f r ≡ err_of r
  err_within-all zero f r e =
      let q : f ≡ lines_left r = omega (arith, e) in ap (λ n. err_within n r) q
  err_within-all (suc k) f r e =
      let q : f ≡ suc (k + lines_left r) = omega (arith, e) in
      ap (λ n. err_within n r) q
      ∙ (err_within-enough (k + lines_left r) r (omega arith)
          ∙ err_within-all k (k + lines_left r) r refl)

  -- The error does not depend on what is pending.
  err_within-pending :
      (f : ℕ) (r : SseReader) (b : List ℕ)
      → err_within f (record r { pending = b }) ≡ err_within f r
  err_within-pending zero r b = refl
  err_within-pending (suc f) r b = refl

  err_of-refill : (r : SseReader) → r.pending ≡ [] → err_of (refill lib max r) ≡ err_of r
  err_of-refill r e =
      sym (
        err_within-all (lines_left r - lines_left (refill lib max r)) (lines_left r)
          (refill lib max r) (omega (arith, refill-lines lib max r (lines_left r) (omega arith))))
      ∙ (ap (λ p. err_within (lines_left r) (refill lib max (record r { pending = p }))) e
          ∙ err_within-enough (lines_left r) r (omega arith))

  err_of-end : (e : Option ReadError) (r : SseReader) → r.err ≡ e → (e ≡ none) ⊎ (e ≡ err_of r)
  err_of-end none r q = inl refl
  err_of-end (some e) r q = inr (sym (ap (λ x. err_within (lines_after x r.slices) r) q ∙ q))

  -- What a result leaves keeps the error of the stream, and the error of the result is that one.
  abbrev pub Errs : SseReader → SseReader × List ℕ × Option ReadError → Type 0
  Errs r x = (err_of x.0 ≡ err_of r) × ((x.2 ≡ none) ⊎ (x.2 ≡ err_of r))

  hand_out-Errs :
      (size : ℕ) (s : SseReader)
      → Errs s (
          if is_empty s.pending
          then (s, [], s.err)
          else (record s { pending = drop size s.pending }, take size s.pending, none))
  hand_out-Errs size s = elim (Bool-cases (is_empty s.pending)) [
    | inl e ↦ rw e (refl, err_of-end s.err s refl)
    | inr more ↦ rw more (err_within-pending (lines_left s) s (drop size s.pending), inl refl)
  ]

  pub read-Errs : (size : ℕ) (r : SseReader) → 0 < size → Errs r (read lib max size r)
  unfolding read
  read-Errs size r pos = elim (Bool-cases (size == 0)) [
    | inl nothing ↦ absurd (ground arith)
    | inr room ↦ rw room (elim (Bool-cases (is_empty r.pending)) [
      | inl e ↦ rw e (
          let same = err_of-refill r (is_empty-nil r.pending e) in
          let h = hand_out-Errs size (refill lib max r) in
          (h.0 ∙ same, elim h.1 [ inl q ↦ inl q | inr q ↦ inr (q ∙ same) ]))
      | inr more ↦ rw more (hand_out-Errs size r)
    ])
  ]
