-- ===== src/Tcp/Fragments.antt =====
-- Where the stream is cut into pieces does not matter, and the frames that were encoded come out.
use mathlib.Core.List.{flatten}
use authentication_transmiss.Tcp.Loop.{
  consume_loop-append_fail, consume_loop-Behind, consume_loop-append, Behind,
}
use authentication_transmiss.Tcp.Stream.{consume_loop, DecodeBatch, consume, StreamDecoder}
use authentication_transmiss.Prelude.{
  inr, some, append-nil, inl, Option-cases, ◌∷◌, subst, ◌∙◌, arith, [], length, append_assoc, ap,
  ◌++◌, none, ◌≡◌, Bool, List, ℕ,
}

module _ (is_json_object : List ℕ → Bool) where
  -- The loop over all the bytes since the last frame, with fuel for each of them.
  abbrev pub run : ℕ → List ℕ → DecodeBatch × List ℕ
  run maximum xs = consume_loop is_json_object maximum (length xs) [] xs

  resumed :
      (maximum : ℕ) (p xs ys : List ℕ)
      → (run maximum (p ++ xs)).0.error ≡ none
      → run maximum (p ++ (xs ++ ys))
        ≡ Behind is_json_object
            (run maximum (p ++ xs)).0.frames
            (run maximum ((run maximum (p ++ xs)).1 ++ ys))
  resumed maximum p xs ys e =
      let first = run maximum (p ++ xs) in
      let stopped_at : run maximum (p ++ xs)
          ≡ (record { frames = first.0.frames; error = none }, first.1) =
        λ i. (record { frames = first.0.frames; error = e i }, first.1) in
      rw (← append_assoc p xs ys) (
        consume_loop-append is_json_object maximum _ (length (p ++ xs ++ ys))
          (length (first.1 ++ ys)) [] first.0.frames (p ++ xs) ys first.1 (omega arith)
          (omega arith) stopped_at
        ∙ subst
            (λ t.
              consume_loop is_json_object maximum (length (first.1 ++ ys)) t (first.1 ++ ys)
              ≡ Behind is_json_object first.0.frames (run maximum (first.1 ++ ys)))
            (append-nil first.0.frames)
            (consume_loop-Behind is_json_object maximum (length (first.1 ++ ys)) first.0.frames []
              (first.1 ++ ys)))

  -- If `consume` reports no error on `xs`, then consuming `xs` followed by `ys` at once gives the
  -- frames of `xs` and then those of consuming `ys` next, the same error and the same decoder.
  pub consume-append :
      (s : StreamDecoder) (xs ys : List ℕ)
      → (consume is_json_object s xs).0.error ≡ none
      → consume is_json_object s (xs ++ ys) ≡ (
        record {
          frames =
              (consume is_json_object s xs).0.frames
              ++ (consume is_json_object (consume is_json_object s xs).1 ys).0.frames;
          error = (consume is_json_object (consume is_json_object s xs).1 ys).0.error;
        },
        (consume is_json_object (consume is_json_object s xs).1 ys).1,
      )
  unfolding consume
  consume-append s xs ys e =
      ap (λ t. (t.0, record s { pending = t.1 })) (resumed s.maximum_frame_length s.pending xs ys e)

  -- An error that `consume` reports on `xs` it also reports with more bytes behind them.
  pub consume-append_none :
      (s : StreamDecoder) (xs ys : List ℕ)
      → (consume is_json_object s (xs ++ ys)).0.error ≡ none
      → (consume is_json_object s xs).0.error ≡ none
  unfolding consume
  consume-append_none s xs ys e = elim (Option-cases (consume is_json_object s xs).0.error) [
    | inl good ↦ good
    | inr (x, bad) ↦ cc (
        rw (append_assoc s.pending xs ys) at (
          consume_loop-append_fail is_json_object s.maximum_frame_length (length (s.pending ++ xs))
            (length (s.pending ++ xs ++ ys)) [] (s.pending ++ xs) ys x (omega arith) bad))
  ]

  -- The receiver of a connection hands each piece to the decoder and stops at an error.
  unfoldable pub feed : StreamDecoder → List ℕ → List (List ℕ) → DecodeBatch × StreamDecoder
  feed s piece [] = consume is_json_object s piece
  feed s piece (next ∷ more) =
      let (batch, t) = consume is_json_object s piece in
      let rest = feed t next more in
      elim batch.error [
        | none ↦ (record { frames = batch.frames ++ rest.0.frames; error = rest.0.error }, rest.1)
        | some x ↦ (batch, t)
      ]

  pub feed-consume :
      (s : StreamDecoder) (piece : List ℕ) (more : List (List ℕ))
      → (consume is_json_object s (piece ++ flatten more)).0.error ≡ none
      → feed s piece more ≡ consume is_json_object s (piece ++ flatten more)
  unfolding feed flatten
  feed-consume s piece [] e = rw (append-nil piece)
  feed-consume s piece (next ∷ more) e =
      let good = consume-append_none s piece (next ++ flatten more) e in
      let joined = consume-append s piece (next ++ flatten more) good in
      let t = (consume is_json_object s piece).1 in
      let ih = feed-consume t next more (cc (ap (λ r. r.0.error) joined)) in
      rw (good, ih, feed, joined)
