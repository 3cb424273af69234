-- ===== src/Workload/File.antt =====
-- FileWorkload.cpp: message i of a file is its i-th block of 32 bytes, the last one filled up with
-- zeros. The bytes of `vecRecover` are joined and cut to the original size.
use mathlib.Core.List.{flatten}
use authentication_transmiss.Prelude.{
  drop, ◌^◌, min, ◌%◌, ◌/◌, ◌*◌, ◌+◌, out_of_range, ltb, ◌||◌, invalid_argument, ◌-◌, ◌==◌, not,
  fail_if, ok, replicate, ◌++◌, ◌>>=◌, ◌>>◌, take, length, List, Throws, ℕ,
}

abbrev pub message_size : ℕ
message_size = 32

abbrev pub maximum_file_size : ℕ
maximum_file_size = 6_400_000

unfoldable pub packet_count_for : ℕ → Throws ℕ
packet_count_for byte_count = do
  fail_if (byte_count == 0) invalid_argument
  fail_if (ltb maximum_file_size byte_count) invalid_argument
  ok ((byte_count + message_size - 1) / message_size % 2 ^ 32)

pub record FileWorkload : Type 0 where
  pub file_bytes : List ℕ
  pub packet_count : ℕ

unfoldable pub create_file_workload : List ℕ → Throws FileWorkload
create_file_workload file_bytes = do
  packet_count ← packet_count_for (length file_bytes)
  ok (record { file_bytes = file_bytes; packet_count = packet_count })

unfoldable pub original_byte_count : FileWorkload → ℕ
original_byte_count w = length w.file_bytes

-- `Message arrResult{}` with bytes copied to its front.
unfoldable pub zero_filled : List ℕ → List ℕ
zero_filled bytes = bytes ++ replicate (message_size - length bytes) 0

unfoldable pub message_at : FileWorkload → ℕ → Throws (List ℕ)
message_at w packet_index = do
  fail_if (packet_index == 0 || ltb w.packet_count packet_index) out_of_range
  let offset = (packet_index - 1) * message_size
  let copy_size = min message_size (length w.file_bytes - offset)
  ok (zero_filled (take copy_size (drop offset w.file_bytes)))

-- `std::vector::resize`.
unfoldable pub resize : ℕ → List ℕ → List ℕ
resize n bytes = take n bytes ++ replicate (n - length bytes) 0

unfoldable pub recover : List (List ℕ) → ℕ → Throws (List ℕ)
recover messages byte_count = do
  expected ← packet_count_for byte_count
  fail_if (not (length messages == expected)) invalid_argument
  ok (resize byte_count (flatten messages))
