-- ===== src/Workload/Recovery.antt =====
-- A file survives being cut into messages.
use Prim.Native.Nat.{zero}
use native.Mathlib.Decide.{dec_le}
use mathlib.Core.List.{flatten}
use authentication_transmiss.Workload.File.{
  packet_count_for, message_at, resize, original_byte_count, recover, create_file_workload,
  FileWorkload, zero_filled,
}
use authentication_transmiss.Prelude.{
  ==_refl, true, take-append_eq, append_assoc, take-append-drop, append-nil, length-drop,
  length-replicate, ltb, false, replicate, take_all, drop_all, sym, length-take, length-append, ◌∙◌,
  ◌==◌, refl, ◌*◌, ◌++◌, ◌∷◌, ◌-◌, ap, ◌>>=◌, arith, ◌+◌, min, ◌≤◌, ◌≡◌, ok, suc, drop, length, [],
  take, Throws, ◌<◌, List, ℕ,
}

-- The messages from `packet_index` on, `n` of them.
abbrev pub messages_from : FileWorkload → ℕ → ℕ → Throws (List (List ℕ))
messages_from w zero packet_index = ok []
messages_from w (suc n) packet_index = do
  m ← message_at w packet_index
  ms ← messages_from w n (packet_index + 1)
  ok (m ∷ ms)

abbrev blocks : ℕ → List ℕ → List (List ℕ)
blocks zero bs = []
blocks (suc n) bs = zero_filled (take 32 bs) ∷ blocks n (drop 32 bs)

take-min-length : (n : ℕ) (xs : List ℕ) → take (min n (length xs)) xs ≡ take n xs
take-min-length n xs = elim (dec_le n (length xs)) [
  | yes le ↦ let e : min n (length xs) ≡ n = omega arith in ap (λ k. take k xs) e
  | no gt ↦
      let e : min n (length xs) ≡ length xs = omega arith in
      ap (λ k. take k xs) e
      ∙ (take_all (length xs) xs (omega arith) ∙ sym (take_all n xs (omega arith)))
]

drop-drop : (m n : ℕ) (xs : List ℕ) → drop m (drop n xs) ≡ drop (n + m) xs
drop-drop m zero xs = let e : m ≡ 0 + m = omega arith in ap (λ k. drop k xs) e
drop-drop m (suc n) [] = drop_all m [] (omega arith) ∙ sym (drop_all (suc n + m) [] (omega arith))
drop-drop m (suc n) (x ∷ xs) =
    let e : suc (n + m) ≡ suc n + m = omega arith in drop-drop m n xs ∙ ap (λ k. drop k (x ∷ xs)) e

length-zero_filled : (xs : List ℕ) → length xs ≤ 32 → length (zero_filled xs) ≡ 32
unfolding zero_filled
length-zero_filled xs h =
    let zeros : length (replicate {A = ℕ} (32 - length xs) 0) ≡ 32 - length xs =
      length-replicate (32 - length xs) 0 in
    omega (arith, length-append xs (replicate (32 - length xs) 0), zeros)

length-blocks : (n : ℕ) (bs : List ℕ) → length (blocks n bs) ≡ n
length-blocks zero bs = refl
length-blocks (suc n) bs = ap suc (length-blocks n (drop 32 bs))

length-flatten-blocks : (n : ℕ) (bs : List ℕ) → length (flatten (blocks n bs)) ≡ n * 32
unfolding flatten
length-flatten-blocks zero bs = refl
length-flatten-blocks (suc n) bs =
    let first = length-zero_filled (take 32 bs) (omega (arith, length-take 32 bs)) in
    omega (
      arith,
      first,
      length-append (zero_filled (take 32 bs)) (flatten (blocks n (drop 32 bs))),
      length-flatten-blocks n (drop 32 bs),
    )

message_at_lem :
    (w : FileWorkload) (i : ℕ)
    → 0 < i
    → i ≤ w.packet_count
    → message_at w i ≡ ok (zero_filled (take 32 (drop ((i - 1) * 32) w.file_bytes)))
unfolding message_at
message_at_lem w i lo hi =
    let t : (i == 0) ≡ false = ground arith in
    let u : ltb w.packet_count i ≡ false = ground arith in
    let n = length-drop ((i - 1) * 32) w.file_bytes in
    let cut = take-min-length 32 (drop ((i - 1) * 32) w.file_bytes) in rw (t, u, ← n, cut)

messages_from_lem :
    (w : FileWorkload) (n i : ℕ)
    → 0 < i
    → i + n ≤ w.packet_count + 1
    → messages_from w n i ≡ ok (blocks n (drop ((i - 1) * 32) w.file_bytes))
messages_from_lem w zero i lo hi = refl
messages_from_lem w (suc n) i lo hi =
    let here = message_at_lem w i lo (omega arith) in
    let there = messages_from_lem w n (i + 1) (omega arith) (omega arith) in
    let e : (i - 1) * 32 + 32 ≡ (i + 1 - 1) * 32 = omega arith in
    let next : drop ((i + 1 - 1) * 32) w.file_bytes ≡ drop 32 (drop ((i - 1) * 32) w.file_bytes) =
      sym (drop-drop 32 ((i - 1) * 32) w.file_bytes ∙ ap (λ k. drop k w.file_bytes) e) in
    rw (here, there, next)

take-append_ge : (xs ys : List ℕ) (k : ℕ) → take (length xs + k) (xs ++ ys) ≡ xs ++ take k ys
take-append_ge [] ys k = let e : 0 + k ≡ k = omega arith in ap (λ m. take m ys) e
take-append_ge (x ∷ xs) ys k =
    let e : suc (length xs) + k ≡ suc (length xs + k) = omega arith in
    ap (λ m. take m (x ∷ (xs ++ ys))) e ∙ ap (◌∷◌ x) (take-append_ge xs ys k)

zero_filled_full : (xs : List ℕ) → length xs ≡ 32 → zero_filled xs ≡ xs
unfolding zero_filled
zero_filled_full xs h =
    let e : 32 - length xs ≡ 0 = omega arith in ap (λ k. xs ++ replicate k 0) e ∙ append-nil xs

take-zero_filled :
    (bs rest : List ℕ) → length bs ≤ 32 → take (length bs) (zero_filled (take 32 bs) ++ rest) ≡ bs
unfolding zero_filled
take-zero_filled bs rest h =
    ap (λ t. take (length bs) (zero_filled t ++ rest)) (take_all 32 bs h)
    ∙ (ap (take (length bs)) (append_assoc bs (replicate (32 - length bs) 0) rest)
        ∙ take-append_eq bs (replicate (32 - length bs) 0 ++ rest))

take_over :
    (bs rest : List ℕ)
    → 32 ≤ length bs
    → take (length bs) (zero_filled (take 32 bs) ++ rest)
      ≡ take 32 bs ++ take (length (drop 32 bs)) rest
take_over bs rest h =
    let n : length (take 32 bs) ≡ 32 = omega (arith, length-take 32 bs) in
    let k : length bs ≡ length (take 32 bs) + length (drop 32 bs) =
      omega (arith, length-take 32 bs, length-drop 32 bs) in
    ap (λ t. take (length bs) (t ++ rest)) (zero_filled_full (take 32 bs) n)
    ∙ (ap (λ m. take m (take 32 bs ++ rest)) k
        ∙ take-append_ge (take 32 bs) rest (length (drop 32 bs)))

take-flatten-blocks :
    (n : ℕ) (bs : List ℕ) → length bs ≤ n * 32 → take (length bs) (flatten (blocks n bs)) ≡ bs
unfolding flatten
take-flatten-blocks zero [] h = refl
take-flatten-blocks zero (b ∷ bs) h = absurd (omega arith)
take-flatten-blocks (suc n) bs h = elim (dec_le (length bs) 32) [
  | yes le ↦ take-zero_filled bs (flatten (blocks n (drop 32 bs))) le
  | no gt ↦
      take_over bs (flatten (blocks n (drop 32 bs))) (omega arith)
      ∙ (ap (λ t. take 32 bs ++ t)
            (take-flatten-blocks n (drop 32 bs) (omega (arith, length-drop 32 bs)))
          ∙ take-append-drop 32 bs)
]

pub create_inv :
    (bytes : List ℕ) (w : FileWorkload)
    → create_file_workload bytes ≡ ok w
    → (w.file_bytes ≡ bytes)
      × (packet_count_for (length bytes) ≡ ok w.packet_count)
      × (length bytes ≤ w.packet_count * 32)
unfolding create_file_workload packet_count_for
create_inv bytes w e = ground arith

-- Of a file that the constructor accepts, every message up to the packet count exists, and
-- `recover` of these messages and the original size returns the file.
pub recover-messages_from :
    (bytes : List ℕ) (w : FileWorkload)
    → create_file_workload bytes ≡ ok w
    → (ms : List (List ℕ)) × (messages_from w w.packet_count 1 ≡ ok ms)
      × (recover ms (original_byte_count w) ≡ ok bytes)
unfolding recover resize original_byte_count
recover-messages_from bytes w e =
    let (same, count, enough) = create_inv bytes w e in
    let n = length-blocks w.packet_count bytes in
    let t : (length (blocks w.packet_count bytes) == w.packet_count) ≡ true =
      rw n (==_refl w.packet_count) in
    let whole = take-flatten-blocks w.packet_count bytes enough in
    let size = length-flatten-blocks w.packet_count bytes in
    let exact : length bytes - length (flatten (blocks w.packet_count bytes)) ≡ 0 =
      omega (arith, size) in
    (
      blocks w.packet_count bytes,
      messages_from_lem w w.packet_count 1 (omega arith) (omega arith) ∙ rw same,
      rw (same, count, t, whole, exact) (ap ok (append-nil bytes)),
    )
