-- ===== src/Tcp/Frame.antt =====
-- JsonControlFramePayload, FileBinaryChunk, TcpFrame and TcpFrameCodec.
use authentication_transmiss.Udp.Context.{u32_max}
use mathlib.Core.List.{[]}
use authentication_transmiss.Wire.{
  bytes_read, remaining, u64_read, reader, u32_read, append_uint64, append_uint32,
}
use authentication_transmiss.Wire.Failure.{
  unsupported_frame_type, invalid_file_chunk, invalid_json_payload, attempt, invalid_frame_length,
  thrown, rejected, Decoded, Failure, DecodeErrorCode,
}
use authentication_transmiss.Prelude.{
  length_error, ◌||◌, ◌-◌, not, fail_if, ◌>>◌, ◌>>=◌, out_of_range, none, ◌++◌, invalid_argument,
  ◌+◌, ◌^◌, ◌%◌, ltb, some, err, length, ◌==◌, Option, if◌then◌else◌, ok, Bool, ◌∷◌, List, Result,
  Throws, ℕ,
}

pub record FileBinaryChunk : Type 0 where
  pub chain_id : ℕ
  pub chunk_index : ℕ
  pub content : List ℕ

-- `std::variant<JsonControlFramePayload, FileBinaryChunk>`; the frame's type is read off it.
pub data TcpFrame : Type 0 where
  json_control : List ℕ → TcpFrame
  file_binary_chunk : FileBinaryChunk → TcpFrame

unfoldable pub create_file_chunk : FileBinaryChunk → Throws FileBinaryChunk
create_file_chunk k = do
  fail_if (k.chain_id == 0) invalid_argument
  fail_if (k.chunk_index == 0) invalid_argument
  fail_if (length k.content == 0) invalid_argument
  fail_if (ltb u32_max (length k.content)) invalid_argument
  ok k

abbrev pub length_prefix_size : ℕ
length_prefix_size = 4

abbrev pub type_size : ℕ
type_size = 1

abbrev pub file_chunk_header_size : ℕ
file_chunk_header_size = 16

unfoldable pub frame_type : TcpFrame → ℕ
frame_type (json_control json) = 1
frame_type (file_binary_chunk k) = 2

unfoldable pub encode_payload : TcpFrame → List ℕ
encode_payload (json_control json) = json
encode_payload (file_binary_chunk k) =
    append_uint32 (append_uint32 (append_uint64 [] k.chain_id) k.chunk_index)
      (length k.content % 2 ^ 32)
    ++ k.content

unfoldable pub encode_frame : TcpFrame → Throws (List ℕ)
unfolding encode_payload frame_type
encode_frame f = do
  let payload = encode_payload f
  fail_if (ltb (u32_max - type_size) (length payload)) length_error
  ok (append_uint32 [] ((type_size + length payload) % 2 ^ 32) ++ (frame_type f ∷ []) ++ payload)

-- `catch (const std::invalid_argument&)` round one constructor.
unfoldable pub catch_invalid_argument {ℓ} :
    {A : Type ℓ} → DecodeErrorCode → Throws A → Result Failure A
catch_invalid_argument code (ok a) = ok a
catch_invalid_argument code (err invalid_argument) = err (rejected code)
catch_invalid_argument code (err e) = err (thrown e)

unfoldable pub decode_file_chunk : List ℕ → Result Failure TcpFrame
unfolding catch_invalid_argument
decode_file_chunk payload = do
  fail_if (ltb (length payload) file_chunk_header_size) (rejected invalid_file_chunk)
  (chain_id, r1) ← attempt (u64_read (reader payload))
  (chunk_index, r2) ← attempt (u32_read r1)
  (data_length, r3) ← attempt (u32_read r2)
  fail_if (not (data_length == remaining r3)) (rejected invalid_file_chunk)
  (content, r4) ← attempt (bytes_read data_length r3)
  k ← catch_invalid_argument invalid_file_chunk (
      create_file_chunk
        (record { chain_id = chain_id; chunk_index = chunk_index; content = content }))
  ok (file_binary_chunk k)

-- The outer handler, `catch (const std::out_of_range&)`; `none` is an exception that leaves.
unfoldable pub catch_out_of_range : Result Failure TcpFrame → Option (Decoded TcpFrame)
catch_out_of_range (ok f) = some (ok f)
catch_out_of_range (err (rejected code)) = some (err code)
catch_out_of_range (err (thrown out_of_range)) = some (err invalid_frame_length)
catch_out_of_range (err (thrown other)) = none

-- `arrRead<1>()[0]`.
unfoldable pub first_byte : List ℕ → ℕ
first_byte [] = 0
first_byte (b ∷ bs) = b

module _ (is_json_object : List ℕ → Bool) where
  unfoldable pub create_json_payload : List ℕ → Throws (List ℕ)
  create_json_payload json = do fail_if (not (is_json_object json)) invalid_argument; ok json

  unfoldable pub decode_payload : ℕ → List ℕ → Result Failure TcpFrame
  unfolding create_json_payload decode_file_chunk
  decode_payload type payload =
      if type == 1
      then (do
        json ← catch_invalid_argument invalid_json_payload (create_json_payload payload)
        ok (json_control json))
      else if not (type == 2)
      then err (rejected unsupported_frame_type)
      else decode_file_chunk payload

  -- The bytes behind the length prefix.
  unfoldable pub decode_frame_body : List ℕ → Result Failure TcpFrame
  unfolding decode_payload first_byte
  decode_frame_body frame = do
    (frame_length, r1) ← attempt (u32_read (reader frame))
    fail_if (ltb frame_length type_size || not (frame_length == length frame - length_prefix_size))
        (rejected invalid_frame_length)
    (type, r2) ← attempt (bytes_read 1 r1)
    (payload, r3) ← attempt (bytes_read (remaining r2) r2)
    decode_payload (first_byte type) payload

  unfoldable pub decode_frame : List ℕ → Option (Decoded TcpFrame)
  unfolding decode_frame_body catch_out_of_range
  decode_frame frame =
      if ltb (length frame) (length_prefix_size + type_size)
      then some (err invalid_frame_length)
      else catch_out_of_range (decode_frame_body frame)
