-- ===== src/Wire.antt =====
-- common/protocol/src/BinaryCodecUtilities.h: network-order integers and the bounds-checked reader.
-- A byte is a number; `IsByte` is what the type `uint8_t` promises of it. As the low byte of
-- `v << 8` is zero and the other operand is a byte, `|` there is `+`.
use authentication_transmiss.Prelude.{
  arith, ◌&&◌, and_inv, true, Bool, ℕ, zero, suc, ◌+◌, ◌-◌, ◌*◌, ◌/◌, ◌%◌, ◌^◌, ◌<◌, ◌≡◌, List, [],
  ◌∷◌, ◌++◌, length, take, drop, All, ltb, Throws, ok, err, fail_if, out_of_range, ◌>>=◌, ◌>>◌,
}
use mathlib.Core.List.{foldl}
pub mod RoundTrip
pub mod Failure

abbrev pub IsByte : ℕ → Type 0
IsByte b = b < 256

abbrev pub IsU32 : ℕ → Type 0
IsU32 v = v < 2 ^ 32

abbrev pub IsU64 : ℕ → Type 0
IsU64 v = v < 2 ^ 64

-- ProtocolTypes.h and CryptoTypes.h: a block of 32 bytes.
abbrev pub block_size : ℕ
block_size = 32

abbrev pub IsBlock : List ℕ → Type 0
IsBlock b = (length b ≡ 32) × All IsByte b

unfoldable pub append_uint32 : List ℕ → ℕ → List ℕ
append_uint32 out v =
    out ++ ((v / 2 ^ 24 % 256) ∷ (v / 2 ^ 16 % 256) ∷ (v / 2 ^ 8 % 256) ∷ (v % 256) ∷ [])

-- `for (shift = 56; shift >= 0; shift -= 8)`: the number counts the rounds left.
unfoldable pub shift_loop : ℕ → List ℕ → ℕ → List ℕ
shift_loop zero out v = out
shift_loop (suc k) out v = shift_loop k (out ++ ((v / 2 ^ (8 * k) % 256) ∷ [])) v

unfoldable pub append_uint64 : List ℕ → ℕ → List ℕ
unfolding shift_loop
append_uint64 out v = shift_loop 8 out v

pub record BinaryReader : Type 0 where
  pub input : List ℕ
  pub offset : ℕ

abbrev pub reader : List ℕ → BinaryReader
reader input = record { input = input; offset = 0 }

unfoldable pub remaining : BinaryReader → ℕ
remaining r = length r.input - r.offset

ensure_available : BinaryReader → ℕ → Throws (Unit {0})
unfolding remaining
ensure_available r n = fail_if (ltb (remaining r) n) out_of_range

-- The bytes that a field of `n` bytes covers, once they are known to be there.
field_bytes : BinaryReader → ℕ → List ℕ
field_bytes r n = take n (drop r.offset r.input)

advance : BinaryReader → ℕ → BinaryReader
advance r n = record r { offset = r.offset + n }

unfoldable pub word_of : ℕ → List ℕ → ℕ
word_of width = foldl (λ v b. (v * 256 + b) % 2 ^ width) 0

unfoldable pub u32_read : BinaryReader → Throws (ℕ × BinaryReader)
unfolding ensure_available field_bytes advance word_of
u32_read r = do ensure_available r 4; ok (word_of 32 (field_bytes r 4), advance r 4)

unfoldable pub u64_read : BinaryReader → Throws (ℕ × BinaryReader)
unfolding ensure_available field_bytes advance word_of
u64_read r = do ensure_available r 8; ok (word_of 64 (field_bytes r 8), advance r 8)

-- `vecRead`, and `arrRead` at a fixed size.
unfoldable pub bytes_read : ℕ → BinaryReader → Throws (List ℕ × BinaryReader)
unfolding ensure_available field_bytes advance
bytes_read n r = do ensure_available r n; ok (field_bytes r n, advance r n)

-- A test of the bytes of a list.
abbrev pub all_bytes : List ℕ → Bool
all_bytes [] = true
all_bytes (x ∷ xs) = ltb x 256 && all_bytes xs

pub All-all_bytes : (xs : List ℕ) → all_bytes xs ≡ true → All IsByte xs
All-all_bytes [] e = tt
All-all_bytes (x ∷ xs) e =
    let (here, there) = and_inv (ltb x 256) (all_bytes xs) e in
    (ground arith, All-all_bytes xs there)
