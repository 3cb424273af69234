-- ===== src/Wire/RoundTrip.antt =====
-- What the integer writers write, and that the readers read it back.
use authentication_transmiss.Prelude.{
  append-nil, subst, ℕ, ◌+◌, ◌/◌, ◌%◌, ◌^◌, ◌≡◌, refl, List, [], ◌∷◌, ◌++◌, append_assoc, length,
  length-append, take, drop, drop-append_eq, take-append_eq, All, arith, ltb, ok, le→ltb-false,
  false,
}
use authentication_transmiss.Wire.{
  IsByte, IsU32, IsU64, append_uint32, append_uint64, BinaryReader, word_of, u32_read, u64_read,
  bytes_read, remaining,
}

-- The big-endian bytes of a word.
abbrev pub bytes32 : ℕ → List ℕ
bytes32 v = (v / 2 ^ 24 % 256) ∷ (v / 2 ^ 16 % 256) ∷ (v / 2 ^ 8 % 256) ∷ (v % 256) ∷ []

abbrev pub bytes64 : ℕ → List ℕ
bytes64 v =
    (v / 2 ^ 56 % 256)
    ∷ (v / 2 ^ 48 % 256)
    ∷ (v / 2 ^ 40 % 256)
    ∷ (v / 2 ^ 32 % 256)
    ∷ (v / 2 ^ 24 % 256)
    ∷ (v / 2 ^ 16 % 256)
    ∷ (v / 2 ^ 8 % 256)
    ∷ (v % 256)
    ∷ []

pub append_uint32_lem : (out : List ℕ) (v : ℕ) → append_uint32 out v ≡ out ++ bytes32 v
unfolding append_uint32
append_uint32_lem out v = refl

pub append_uint64_lem : (out : List ℕ) (v : ℕ) → append_uint64 out v ≡ out ++ bytes64 v
unfolding append_uint64
append_uint64_lem out v = simp append_assoc (ground arith)

pub word_of-bytes32 : (v : ℕ) → IsU32 v → word_of 32 (bytes32 v) ≡ v
unfolding word_of
word_of-bytes32 v h = omega arith

pub word_of-bytes64 : (v : ℕ) → IsU64 v → word_of 64 (bytes64 v) ≡ v
unfolding word_of
word_of-bytes64 v h = omega arith

-- A word is read from a field of its width, and its bytes are the field again.
pub bytes32-word_of :
    (xs : List ℕ)
    → length xs ≡ 4
    → All IsByte xs
    → IsU32 (word_of 32 xs) × (bytes32 (word_of 32 xs) ≡ xs)
unfolding word_of
bytes32-word_of (a ∷ b ∷ c ∷ d ∷ []) e h = (omega arith, ground arith)
bytes32-word_of [] e h = absurd (omega arith)
bytes32-word_of (a ∷ []) e h = absurd (omega arith)
bytes32-word_of (a ∷ b ∷ []) e h = absurd (omega arith)
bytes32-word_of (a ∷ b ∷ c ∷ []) e h = absurd (omega arith)
bytes32-word_of (a ∷ b ∷ c ∷ d ∷ x ∷ xs) e h = absurd (omega arith)

pub bytes64-word_of :
    (xs : List ℕ)
    → length xs ≡ 8
    → All IsByte xs
    → IsU64 (word_of 64 xs) × (bytes64 (word_of 64 xs) ≡ xs)
unfolding word_of
bytes64-word_of (a ∷ b ∷ c ∷ d ∷ x ∷ y ∷ z ∷ w ∷ []) e h = (omega arith, ground arith)
bytes64-word_of [] e h = absurd (omega arith)
bytes64-word_of (a ∷ []) e h = absurd (omega arith)
bytes64-word_of (a ∷ b ∷ []) e h = absurd (omega arith)
bytes64-word_of (a ∷ b ∷ c ∷ []) e h = absurd (omega arith)
bytes64-word_of (a ∷ b ∷ c ∷ d ∷ []) e h = absurd (omega arith)
bytes64-word_of (a ∷ b ∷ c ∷ d ∷ x ∷ []) e h = absurd (omega arith)
bytes64-word_of (a ∷ b ∷ c ∷ d ∷ x ∷ y ∷ []) e h = absurd (omega arith)
bytes64-word_of (a ∷ b ∷ c ∷ d ∷ x ∷ y ∷ z ∷ []) e h = absurd (omega arith)
bytes64-word_of (a ∷ b ∷ c ∷ d ∷ x ∷ y ∷ z ∷ w ∷ v ∷ xs) e h = absurd (omega arith)

-- A reader that has consumed `front` and has `back` before it.
abbrev pub between : List ℕ → List ℕ → BinaryReader
between front back = record { input = front ++ back; offset = length front }

pub remaining-between : (front back : List ℕ) → remaining (between front back) ≡ length back
unfolding remaining
remaining-between front back = omega (arith, length-append front back)

between_fits :
    (front xs back : List ℕ) → ltb (remaining (between front (xs ++ back))) (length xs) ≡ false
between_fits front xs back =
    le→ltb-false _ _ (omega (arith, remaining-between front (xs ++ back), length-append xs back))

between_field :
    (front xs back : List ℕ) → take (length xs) (drop (length front) (front ++ (xs ++ back))) ≡ xs
between_field front xs back = rw drop-append_eq (take-append_eq xs back)

between_moved :
    (front xs back : List ℕ)
    → between (front ++ xs) back
      ≡ record { input = front ++ (xs ++ back); offset = length front + length xs }
between_moved front xs back = rw (length-append, append_assoc)

module _ (front xs back : List ℕ) where
  pub bytes_read-between :
      bytes_read (length xs) (between front (xs ++ back)) ≡ ok (xs, between (front ++ xs) back)
  unfolding bytes_read
  bytes_read-between =
      rw (between_moved, between_fits front xs back, between_field front xs back, bytes_read)

  pub u32_read-between :
      length xs ≡ 4
      → u32_read (between front (xs ++ back)) ≡ ok (word_of 32 xs, between (front ++ xs) back)
  unfolding u32_read
  u32_read-between e =
      rw (between_moved, ← e, between_fits front xs back, between_field front xs back, u32_read)

  pub u64_read-between :
      length xs ≡ 8
      → u64_read (between front (xs ++ back)) ≡ ok (word_of 64 xs, between (front ++ xs) back)
  unfolding u64_read
  u64_read-between e =
      rw (between_moved, ← e, between_fits front xs back, between_field front xs back, u64_read)

-- A field that ends the input.
pub bytes_read-end :
    (front xs : List ℕ)
    → bytes_read (length xs) (between front xs) ≡ ok (xs, between (front ++ xs) [])
bytes_read-end front xs =
    subst (λ t. bytes_read (length xs) (between front t) ≡ ok (xs, between (front ++ xs) []))
      (append-nil xs) (bytes_read-between front xs [])
