-- ===== src/Tcp/Rounds.antt =====
-- One round of the stream decoder, when more bytes stand behind those it looks at.
use mathlib.Core.Option.{none}
use authentication_transmiss.Wire.{BinaryReader}
use authentication_transmiss.Tcp.Frame.{TcpFrame}
use authentication_transmiss.Wire.Failure.{Decoded}
use authentication_transmiss.Tcp.Stream.{
  emit, fail, StreamError, sized_round, prefix_round, round, complete_round, wait, Round,
  frame_round,
}
use authentication_transmiss.Prelude.{
  length-drop, le→ltb-false, ltb-false→le, length-append, ap, ◌+◌, ltb, drop-append_le, refl,
  take-append_le, arith, err, ok, Bool-cases, inr, length, some, inl, ◌++◌, ◌<◌, ◌≤◌, Throws, ◌⊎◌,
  Option, Bool, ◌≡◌, List, ℕ,
}

pub Round-cases :
    (r : Round)
    → (r ≡ wait)
      ⊎ ((e : StreamError) × (r ≡ fail e))
      ⊎ ((f : TcpFrame) × (rest : List ℕ) × (r ≡ emit f rest))
Round-cases wait = inl refl
Round-cases (fail e) = inr (inl (e, refl))
Round-cases (emit f rest) = inr (inr (f, rest, refl))

frame_round-emit :
    (o : Option (Decoded TcpFrame)) (xs : List ℕ) (f : TcpFrame) (rest : List ℕ)
    → frame_round o xs ≡ emit f rest
    → (o ≡ some (ok f)) × (xs ≡ rest)
unfolding frame_round
frame_round-emit none xs f rest e = cc
frame_round-emit (some (err code)) xs f rest e = cc
frame_round-emit (some (ok g)) xs f rest e = ground arith

frame_round-fail :
    (o : Option (Decoded TcpFrame)) (xs ys : List ℕ) (x : StreamError)
    → frame_round o xs ≡ fail x
    → frame_round o ys ≡ fail x
unfolding frame_round
frame_round-fail none xs ys x e = e
frame_round-fail (some (err code)) xs ys x e = e
frame_round-fail (some (ok g)) xs ys x e = cc

module _ (is_json_object : List ℕ → Bool) where
  complete_round-append :
      (total : ℕ) (xs ys : List ℕ) (f : TcpFrame) (rest : List ℕ)
      → 0 < total
      → total ≤ length xs
      → complete_round is_json_object total xs ≡ emit f rest
      → (complete_round is_json_object total (xs ++ ys) ≡ emit f (rest ++ ys))
        × (length rest < length xs)
  unfolding complete_round frame_round
  complete_round-append total xs ys f rest pos le e =
      let (o, r) = frame_round-emit _ _ f rest e in
      (
        rw (take-append_le total xs ys le, drop-append_le total xs ys le, o, r),
        omega (arith, ap length r, length-drop total xs),
      )

  sized_round-append :
      (maximum n : ℕ) (xs ys : List ℕ) (f : TcpFrame) (rest : List ℕ)
      → sized_round is_json_object maximum n xs ≡ emit f rest
      → (sized_round is_json_object maximum n (xs ++ ys) ≡ emit f (rest ++ ys))
        × (length rest < length xs)
  unfolding sized_round
  sized_round-append maximum n xs ys f rest e =
      ground (arith, complete_round-append (4 + n) xs ys f rest, length-append xs ys)

  prefix_round-append :
      (p : Throws (ℕ × BinaryReader)) (maximum : ℕ) (xs ys : List ℕ) (f : TcpFrame) (rest : List ℕ)
      → prefix_round is_json_object p maximum xs ≡ emit f rest
      → (prefix_round is_json_object p maximum (xs ++ ys) ≡ emit f (rest ++ ys))
        × (length rest < length xs)
  unfolding prefix_round
  prefix_round-append (err x) maximum xs ys f rest e = cc
  prefix_round-append (ok (n, r)) maximum xs ys f rest e =
      sized_round-append maximum n xs ys f rest e

  -- A round that goes on takes bytes off, and with more bytes behind it does the same.
  pub round-append :
      (maximum : ℕ) (xs ys : List ℕ) (f : TcpFrame) (rest : List ℕ)
      → round is_json_object maximum xs ≡ emit f rest
      → (round is_json_object maximum (xs ++ ys) ≡ emit f (rest ++ ys)) × (length rest < length xs)
  unfolding round
  round-append maximum xs ys f rest e = elim (Bool-cases (ltb (length xs) 4)) [
    | inl short ↦ cc (rw short at e)
    | inr long ↦
        let le = ltb-false→le (length xs) 4 long in
        rw
          (
            take-append_le 4 xs ys le,
            le→ltb-false (length (xs ++ ys)) 4 (omega (arith, length-append xs ys)),
          )
          (prefix_round-append _ maximum xs ys f rest (rw long at e))
  ]

  complete_round-append_fail :
      (total : ℕ) (xs ys : List ℕ) (x : StreamError)
      → total ≤ length xs
      → complete_round is_json_object total xs ≡ fail x
      → complete_round is_json_object total (xs ++ ys) ≡ fail x
  unfolding complete_round
  complete_round-append_fail total xs ys x le e =
      rw (take-append_le total xs ys le) (frame_round-fail _ _ _ x e)

  sized_round-append_fail :
      (maximum n : ℕ) (xs ys : List ℕ) (x : StreamError)
      → sized_round is_json_object maximum n xs ≡ fail x
      → sized_round is_json_object maximum n (xs ++ ys) ≡ fail x
  unfolding sized_round
  sized_round-append_fail maximum n xs ys x e =
      ground (arith, complete_round-append_fail (4 + n) xs ys x, length-append xs ys)

  prefix_round-append_fail :
      (p : Throws (ℕ × BinaryReader)) (maximum : ℕ) (xs ys : List ℕ) (x : StreamError)
      → prefix_round is_json_object p maximum xs ≡ fail x
      → prefix_round is_json_object p maximum (xs ++ ys) ≡ fail x
  unfolding prefix_round
  prefix_round-append_fail (err y) maximum xs ys x e = e
  prefix_round-append_fail (ok (n, r)) maximum xs ys x e =
      sized_round-append_fail maximum n xs ys x e

  -- An error stays one when more bytes follow.
  pub round-append_fail :
      (maximum : ℕ) (xs ys : List ℕ) (x : StreamError)
      → round is_json_object maximum xs ≡ fail x
      → round is_json_object maximum (xs ++ ys) ≡ fail x
  unfolding round
  round-append_fail maximum xs ys x e = elim (Bool-cases (ltb (length xs) 4)) [
    | inl short ↦ cc (rw short at e)
    | inr long ↦
        let le = ltb-false→le (length xs) 4 long in
        rw
          (
            take-append_le 4 xs ys le,
            le→ltb-false (length (xs ++ ys)) 4 (omega (arith, length-append xs ys)),
          )
          (prefix_round-append_fail _ maximum xs ys x (rw long at e))
  ]
