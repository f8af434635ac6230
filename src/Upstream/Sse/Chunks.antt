-- ===== src/Upstream/Sse/Chunks.antt =====
-- backend/internal/upstream/sse_reader.go: what is read does not depend on the sizes of the reads.
use simple_up_manage.Prelude.{
  ℕ, zero, suc, ◌+◌, ◌≤◌, ◌<◌, ◌≡◌, refl, sym, ap, ◌∙◌, ◌⊎◌, inl, inr, false, Option, none, some,
  List, [], ◌∷◌, ◌++◌, All, length, length-append, is_empty, take, drop, ◌==◌, if◌then◌else◌,
  Bool-cases, arith, HasSome, ◌-◌,
}
use mathlib.Core.List.{append-nil}
use simple_up_manage.Upstream.Sse.{ByteLib, ReadError, SseReader, refill, read}
use simple_up_manage.Upstream.Sse.Lines.{
  lines_after, lines_left, all_within, all_of, refill-lines, all_within-split, all_of-refill,
}
use simple_up_manage.Upstream.Sse.Errors.{is_empty-nil, err_of, Errs, read-Errs}

take-drop : (n : ℕ) (l : List ℕ) → take n l ++ drop n l ≡ l
take-drop zero l = refl
take-drop (suc n) [] = refl
take-drop (suc n) (b ∷ l) = ap (λ t. b ∷ t) (take-drop n l)

take_some : (n : ℕ) (l : List ℕ) → 0 < n → is_empty l ≡ false → 0 < length (take n l)
take_some n [] h e = absurd (ground (arith, e))
take_some zero (b ∷ l) h e = absurd (omega arith)
take_some (suc n) (b ∷ l) h e = omega arith

module _ (lib : ByteLib) (max : ℕ) where
  -- What the pending bytes of a reader give.
  record HandsOut (s : SseReader) (x : SseReader × List ℕ × Option ReadError) : Type 0 where
    bytes : x.1 ++ all_of lib max x.0 ≡ all_of lib max s
    lines : lines_left x.0 ≤ lines_left s
    ended :
        HasSome (λ e. all_of lib max x.0 ≡ []) x.2
        ⊎ ((x.2 ≡ none) × ((0 < length x.1) ⊎ (0 < lines_left x.0)))

  all_of-ended :
      (e : Option ReadError) (r : SseReader)
      → r.err ≡ e
      → r.pending ≡ []
      → HasSome (λ x. all_of lib max r ≡ []) e
        ⊎ ((e ≡ none) × ((0 < length {A = ℕ} []) ⊎ (0 < lines_left r)))
  all_of-ended none r q h = inr (refl, inr (omega (arith, ap (λ x. lines_after x r.slices) q)))
  all_of-ended (some e) r q h = inl (ap (λ x. all_within lib max (lines_after x r.slices) r) q ∙ h)

  hand_out :
      (size : ℕ) (s : SseReader)
      → 0 < size
      → HandsOut s (
          if is_empty s.pending
          then (s, [], s.err)
          else (record s { pending = drop size s.pending }, take size s.pending, none))
  hand_out size s pos = elim (Bool-cases (is_empty s.pending)) [
    | inl e ↦ rw e (record {
      bytes = refl;
      lines = omega arith;
      ended = all_of-ended s.err s refl (is_empty-nil s.pending e);
    })
    | inr more ↦ rw more (record {
      bytes =
          all_within-split lib max (lines_left s) s (take size s.pending) (drop size s.pending)
            (take-drop size s.pending);
      lines = omega arith;
      ended = inr (refl, inl (take_some size s.pending pos more));
    })
  ]

  -- What a read does: it gives the next bytes, and there is less to come or nothing.
  record Reads (r : SseReader) (x : SseReader × List ℕ × Option ReadError) : Type 0 where
    bytes : x.1 ++ all_of lib max x.0 ≡ all_of lib max r
    ended :
        HasSome (λ e. all_of lib max x.0 ≡ []) x.2
        ⊎ ((x.2 ≡ none)
            × (length (all_of lib max x.0) + lines_left x.0
                < length (all_of lib max r) + lines_left r))

  HandsOut-Reads :
      (r s : SseReader) (x : SseReader × List ℕ × Option ReadError)
      → HandsOut s x
      → all_of lib max s ≡ all_of lib max r
      → lines_left s ≤ lines_left r
      → (0 < lines_left s → (length x.1 ≡ 0) → lines_left s < lines_left r)
      → Reads r x
  HandsOut-Reads r s x h e le less = record {
    bytes = h.bytes ∙ e;
    ended = elim h.ended [
      | inl over ↦ inl over
      | inr (q, inl some_bytes) ↦ inr (
        q,
        omega (arith, length-append x.1 (all_of lib max x.0), ap length (h.bytes ∙ e), h.lines),
      )
      | inr (q, inr some_lines) ↦ inr (
        q,
        ground
            (arith, length-append x.1 (all_of lib max x.0), ap length (h.bytes ∙ e), h.lines, less),
      )
    ];
  }

  hand_out_pending :
      (size : ℕ) (s : SseReader)
      → 0 < size
      → is_empty s.pending ≡ false
      → Reads s (
          if is_empty s.pending
          then (s, [], s.err)
          else (record s { pending = drop size s.pending }, take size s.pending, none))
  hand_out_pending size s pos more =
      let given =
        all_within-split lib max (lines_left s) s (take size s.pending) (drop size s.pending)
          (take-drop size s.pending) in
      rw more (record {
        bytes = given;
        ended = inr (
          refl,
          omega (
            arith,
            length-append (take size s.pending)
                (all_of lib max (record s { pending = drop size s.pending })),
            ap length given,
            take_some size s.pending pos more,
          ),
        );
      })

  read-Reads : (size : ℕ) (r : SseReader) → 0 < size → Reads r (read lib max size r)
  unfolding read
  read-Reads size r pos = elim (Bool-cases (size == 0)) [
    | inl nothing ↦ absurd (ground arith)
    | inr room ↦ rw room (elim (Bool-cases (is_empty r.pending)) [
      | inl e ↦ rw e (
          HandsOut-Reads r (refill lib max r) _ (hand_out size (refill lib max r) pos)
            (all_of-refill lib max r (is_empty-nil r.pending e))
            (refill-lines lib max r (lines_left r) (omega arith))
            (λ lines none_given.
              omega (arith, refill-lines lib max r (lines_left r - 1) (omega arith))))
      | inr more ↦ rw more (hand_out_pending size r pos more)
    ])
  ]

  -- A client goes on reading unless there was an error.
  abbrev pub read_on :
      SseReader × List ℕ × Option ReadError
      → SseReader × List ℕ × Option ReadError
      → SseReader × List ℕ × Option ReadError
  read_on (r, bytes, some e) rest = (r, bytes, some e)
  read_on (r, bytes, none) rest = (rest.0, bytes ++ rest.1, rest.2)

  -- A client that reads into buffers of these sizes, until an error.
  unfoldable pub reads : List ℕ → SseReader → SseReader × List ℕ × Option ReadError
  reads [] r = (r, [], none)
  reads (size ∷ sizes) r = let x = read lib max size r in read_on x (reads sizes x.0)

  -- These bytes, and an error behind them.
  abbrev GivesAll : SseReader × List ℕ × Option ReadError → List ℕ → Type 0
  GivesAll x bytes = (x.1 ≡ bytes) × HasSome (λ e. Unit) x.2

  read_on-GivesAll :
      (r : SseReader) (x rest : SseReader × List ℕ × Option ReadError)
      → Reads r x
      → (length (all_of lib max x.0) + lines_left x.0 < length (all_of lib max r) + lines_left r
          → GivesAll rest (all_of lib max x.0))
      → GivesAll (read_on x rest) (all_of lib max r)
  read_on-GivesAll r (s, bytes, some e) rest h k = elim h.ended [
    | inl over ↦ (sym (append-nil bytes) ∙ (ap (λ t. bytes ++ t) (sym over) ∙ h.bytes), tt)
    | inr (q, less) ↦ absurd (ground (arith, q))
  ]
  read_on-GivesAll r (s, bytes, none) rest h k = elim h.ended [
    | inl over ↦ absurd over
    | inr (q, less) ↦ (ap (λ t. bytes ++ t) (k less).0 ∙ h.bytes, (k less).1)
  ]

  reads-GivesAll :
      (sizes : List ℕ) (r : SseReader)
      → All (λ size. 0 < size) sizes
      → length (all_of lib max r) + lines_left r < length sizes
      → GivesAll (reads sizes r) (all_of lib max r)
  unfolding reads
  reads-GivesAll [] r pos h = absurd (omega arith)
  reads-GivesAll (size ∷ sizes) r (p, pos) h =
      let x = read lib max size r in
      read_on-GivesAll r x (reads sizes x.0) (read-Reads size r p)
        (λ less. reads-GivesAll sizes x.0 pos (omega (arith, less)))

  read_on-Errs :
      (r : SseReader) (x rest : SseReader × List ℕ × Option ReadError)
      → Errs lib max r x
      → Errs lib max x.0 rest
      → Errs lib max r (read_on x rest)
  read_on-Errs r (s, bytes, some e) rest h k = h
  read_on-Errs r (s, bytes, none) rest (same, q) (same', inl e) = (same' ∙ same, inl e)
  read_on-Errs r (s, bytes, none) rest (same, q) (same', inr e) = (same' ∙ same, inr (e ∙ same))

  reads-Errs :
      (sizes : List ℕ) (r : SseReader)
      → All (λ size. 0 < size) sizes
      → Errs lib max r (reads sizes r)
  unfolding reads
  reads-Errs [] r pos = (refl, inl refl)
  reads-Errs (size ∷ sizes) r (p, pos) =
      let x = read lib max size r in
      read_on-Errs r x (reads sizes x.0) (read-Errs lib max size r p) (reads-Errs sizes x.0 pos)

  -- A result: the bytes of the stream, and then the error that ends it.
  abbrev pub Gives : SseReader × List ℕ × Option ReadError → SseReader → Type 0
  Gives x r = (x.1 ≡ all_of lib max r) × (x.2 ≡ err_of lib max r) × HasSome (λ e. Unit) x.2

  both :
      (e : Option ReadError) (r : SseReader)
      → HasSome (λ x. Unit) e
      → (e ≡ none) ⊎ (e ≡ err_of lib max r)
      → (e ≡ err_of lib max r) × HasSome (λ x. Unit) e
  both none r h q = absurd h
  both (some e) r h (inl q) = absurd (ground (arith, q))
  both (some e) r h (inr q) = (q, tt)

  -- Whatever the sizes of its buffers are, none of them 0, a client that reads often enough gets the
  -- same bytes, all that the reader's lines give, and then the same error, the one that the reader
  -- has behind its last line; as often as there are bytes and lines to come, and once more, is enough.
  pub reads_whole :
      (sizes : List ℕ) (r : SseReader)
      → All (λ size. 0 < size) sizes
      → length (all_of lib max r) + lines_left r < length sizes
      → Gives (reads sizes r) r
  reads_whole sizes r pos h =
      let given = reads-GivesAll sizes r pos h in
      let ended = both (reads sizes r).2 r given.1 (reads-Errs sizes r pos).1 in
      (given.0, ended.0, ended.1)
