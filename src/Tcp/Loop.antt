-- ===== src/Tcp/Loop.antt =====
-- The loop of the stream decoder on an append.
use Prim.Native.Nat.{zero}
use authentication_transmiss.Tcp.Rounds.{round-append_fail, round-append, Round-cases}
use authentication_transmiss.Tcp.Frame.{TcpFrame}
use authentication_transmiss.Tcp.Stream.{wait, round, DecodeBatch, StreamError, consume_loop}
use authentication_transmiss.Prelude.{
  length-append, ◌∙◌, [], refl, ◌∷◌, append_assoc, inr, lt→ltb, inl, ap, arith, suc, none, some,
  sym, ◌<◌, ◌≡◌, ◌≤◌, length, ◌++◌, Bool, List, ℕ,
}

module _ (is_json_object : List ℕ → Bool) where
  pub consume_loop-short :
      (maximum n : ℕ) (frames : List TcpFrame) (xs : List ℕ)
      → length xs < 4
      → consume_loop is_json_object maximum n frames xs
        ≡ (record { frames = frames; error = none }, xs)
  unfolding consume_loop
  consume_loop-short maximum zero frames xs h = refl
  consume_loop-short maximum (suc n) frames xs h =
      let e : round is_json_object maximum xs ≡ wait =
        unfold round in rw (lt→ltb (length xs) 4 h) in
      rw (e, consume_loop)

  -- More fuel than bytes changes nothing.
  pub consume_loop-fuel :
      (maximum n m : ℕ) (frames : List TcpFrame) (xs : List ℕ)
      → length xs ≤ n
      → length xs ≤ m
      → consume_loop is_json_object maximum n frames xs
        ≡ consume_loop is_json_object maximum m frames xs
  unfolding consume_loop
  consume_loop-fuel maximum zero m frames xs h k =
      sym (consume_loop-short maximum m frames xs (omega arith))
  consume_loop-fuel maximum (suc n) zero frames xs h k =
      consume_loop-short maximum (suc n) frames xs (omega arith)
  consume_loop-fuel maximum (suc n) (suc m) frames xs h k =
      elim (Round-cases (round is_json_object maximum xs)) [
        | inl e ↦ rw (e, consume_loop)
        | inr (inl (x, e)) ↦ rw (e, consume_loop)
        | inr (inr (f, rest, e)) ↦
            rw (e, consume_loop)
              (consume_loop-fuel maximum n m (frames ++ (f ∷ [])) rest
                (omega (arith, round-append is_json_object maximum xs [] f rest e))
                (omega (arith, round-append is_json_object maximum xs [] f rest e)))
      ]

  -- The frames found so far are only put in front.
  abbrev pub Behind : List TcpFrame → DecodeBatch × List ℕ → DecodeBatch × List ℕ
  Behind frames (batch, pending) =
      (record { frames = frames ++ batch.frames; error = batch.error }, pending)

  pub consume_loop-Behind :
      (maximum n : ℕ) (before frames : List TcpFrame) (xs : List ℕ)
      → consume_loop is_json_object maximum n (before ++ frames) xs
        ≡ Behind before (consume_loop is_json_object maximum n frames xs)
  unfolding consume_loop
  consume_loop-Behind maximum zero before frames xs = refl
  consume_loop-Behind maximum (suc n) before frames xs =
      elim (Round-cases (round is_json_object maximum xs)) [
        | inl e ↦ rw (e, consume_loop)
        | inr (inl (x, e)) ↦ rw (e, consume_loop)
        | inr (inr (f, rest, e)) ↦
            rw (e, consume_loop, append_assoc before frames (f ∷ []))
              (consume_loop-Behind maximum n before (frames ++ (f ∷ [])) rest)
      ]

  stopped :
      (maximum m k : ℕ) (frames out : List TcpFrame) (xs ys left : List ℕ)
      → length (xs ++ ys) ≤ m
      → length (left ++ ys) ≤ k
      → ◌≡◌ {A = DecodeBatch × List ℕ}
          (record { frames = frames; error = none }, xs)
          (record { frames = out; error = none }, left)
      → consume_loop is_json_object maximum m frames (xs ++ ys)
        ≡ consume_loop is_json_object maximum k out (left ++ ys)
  stopped maximum m k frames out xs ys left hm hk e =
      let same_frames : frames ≡ out = ap (λ r. r.0.frames) e in
      let same_left : xs ≡ left = ap (λ r. r.1) e in
      rw (same_frames, same_left)
        (consume_loop-fuel maximum m k out (left ++ ys) (rw (← same_left) hm) hk)

  -- If the loop finds no error in `xs`, then on `xs ++ ys` it goes on where it stopped.
  pub consume_loop-append :
      (maximum n m k : ℕ) (frames out : List TcpFrame) (xs ys left : List ℕ)
      → length (xs ++ ys) ≤ m
      → length (left ++ ys) ≤ k
      → consume_loop is_json_object maximum n frames xs
        ≡ (record { frames = out; error = none }, left)
      → consume_loop is_json_object maximum m frames (xs ++ ys)
        ≡ consume_loop is_json_object maximum k out (left ++ ys)
  unfolding consume_loop
  consume_loop-append maximum zero m k frames out xs ys left hm hk e =
      stopped maximum m k frames out xs ys left hm hk e
  consume_loop-append maximum (suc n) m k frames out xs ys left hm hk e =
      elim (Round-cases (round is_json_object maximum xs)) [
        | inl w ↦ stopped maximum m k frames out xs ys left hm hk (rw (w, consume_loop) at e)
        | inr (inl (x, w)) ↦ cc (ap (λ r. r.0.error) (rw (w, consume_loop) at e))
        | inr (inr (f, rest, w)) ↦
            let (more, less) = round-append is_json_object maximum xs ys f rest w in
            consume_loop-fuel maximum m (suc (length (xs ++ ys))) frames (xs ++ ys) hm (omega arith)
            ∙ rw (more, consume_loop)
                (consume_loop-append maximum n (length (xs ++ ys)) k (frames ++ (f ∷ [])) out rest
                  ys left (omega (arith, length-append xs ys, length-append rest ys)) hk
                  (rw (w, consume_loop) at e))
      ]

  pub consume_loop-append_fail :
      (maximum n m : ℕ) (frames : List TcpFrame) (xs ys : List ℕ) (x : StreamError)
      → length (xs ++ ys) ≤ m
      → (consume_loop is_json_object maximum n frames xs).0.error ≡ some x
      → (consume_loop is_json_object maximum m frames (xs ++ ys)).0.error ≡ some x
  unfolding consume_loop
  consume_loop-append_fail maximum zero m frames xs ys x hm e = cc
  consume_loop-append_fail maximum (suc n) m frames xs ys x hm e =
      rw (consume_loop-fuel maximum m (suc (length (xs ++ ys))) frames (xs ++ ys) hm (omega arith))
        (elim (Round-cases (round is_json_object maximum xs)) [
          | inl w ↦ cc (rw (w, consume_loop) at e)
          | inr (inl (y, w)) ↦
              rw (round-append_fail is_json_object maximum xs ys y w, consume_loop)
                (rw (w, consume_loop) at e)
          | inr (inr (f, rest, w)) ↦
              rw ((round-append is_json_object maximum xs ys f rest w).0, consume_loop)
                (consume_loop-append_fail maximum n (length (xs ++ ys)) (frames ++ (f ∷ [])) rest ys
                  x
                  (omega (
                    arith,
                    length-append xs ys,
                    length-append rest ys,
                    (round-append is_json_object maximum xs ys f rest w).1,
                  ))
                  (rw (w, consume_loop) at e))
        ])
