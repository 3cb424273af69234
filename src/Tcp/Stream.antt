-- ===== src/Tcp/Stream.antt =====
-- TcpFrameStreamDecoder: whole frames out of a byte stream that arrives in arbitrary pieces.
use Prim.Native.Nat.{zero}
use authentication_transmiss.Wire.{reader, u32_read, BinaryReader}
use authentication_transmiss.Tcp.Frame.{type_size, length_prefix_size, decode_frame, TcpFrame}
use authentication_transmiss.Wire.Failure.{
  frame_too_large, invalid_frame_length, Decoded, DecodeErrorCode,
}
use authentication_transmiss.Prelude.{
  ◌+◌, ◌∷◌, invalid_argument, [], ok, drop, suc, ltb, take, length, err, if◌then◌else◌, fail_if,
  ◌++◌, some, none, Bool, ◌>>◌, Throws, List, Option, ℕ,
}

pub record StreamDecoder : Type 0 where
  pub maximum_frame_length : ℕ
  pub pending : List ℕ

-- TcpFrameStreamDecodeBatch. `leaked` is an exception that leaves `batConsume`.
pub data StreamError : Type 0 where
  decode_error : DecodeErrorCode → StreamError
  leaked : StreamError

pub record DecodeBatch : Type 0 where
  pub frames : List TcpFrame
  pub error : Option StreamError

unfoldable pub create_stream_decoder : ℕ → Throws StreamDecoder
create_stream_decoder maximum_frame_length = do
  fail_if (ltb maximum_frame_length type_size) invalid_argument
  ok (record { maximum_frame_length = maximum_frame_length; pending = [] })

-- What one round of the loop does with the pending bytes.
pub data Round : Type 0 where
  wait : Round
  fail : StreamError → Round
  emit : TcpFrame → List ℕ → Round

unfoldable pub frame_round : Option (Decoded TcpFrame) → List ℕ → Round
frame_round none rest = fail leaked
frame_round (some (err code)) rest = fail (decode_error code)
frame_round (some (ok f)) rest = emit f rest

module _ (is_json_object : List ℕ → Bool) where
  unfoldable pub complete_round : ℕ → List ℕ → Round
  complete_round total pending =
      frame_round (decode_frame is_json_object (take total pending)) (drop total pending)

  unfoldable pub sized_round : ℕ → ℕ → List ℕ → Round
  sized_round maximum frame_length pending =
      if ltb frame_length type_size
      then fail (decode_error invalid_frame_length)
      else if ltb maximum frame_length
      then fail (decode_error frame_too_large)
      else if ltb (length pending) (length_prefix_size + frame_length)
      then wait
      else complete_round (length_prefix_size + frame_length) pending

  -- The length is read with a reader of its own over the first four bytes.
  unfoldable pub prefix_round : Throws (ℕ × BinaryReader) → ℕ → List ℕ → Round
  prefix_round (err e) maximum pending = fail leaked
  prefix_round (ok (frame_length, r)) maximum pending = sized_round maximum frame_length pending

  unfoldable pub round : ℕ → List ℕ → Round
  round maximum pending =
      if ltb (length pending) length_prefix_size
      then wait
      else prefix_round (u32_read (reader (take length_prefix_size pending))) maximum pending

  -- The loop, on fuel, with the frames found so far; `reset()` drops the pending bytes.
  unfoldable pub consume_loop : ℕ → ℕ → List TcpFrame → List ℕ → DecodeBatch × List ℕ
  consume_loop maximum zero frames pending = (record { frames = frames; error = none }, pending)
  consume_loop maximum (suc fuel) frames pending = elim (round maximum pending) [
    | wait ↦ (record { frames = frames; error = none }, pending)
    | fail e ↦ (record { frames = frames; error = some e }, [])
    | emit f rest ↦ consume_loop maximum fuel (frames ++ (f ∷ [])) rest
  ]

  -- Each round that goes on takes five bytes at least, so `length` many rounds are enough.
  unfoldable pub consume : StreamDecoder → List ℕ → DecodeBatch × StreamDecoder
  consume s bytes =
      let buffer = s.pending ++ bytes in
      let (batch, pending) = consume_loop s.maximum_frame_length (length buffer) [] buffer in
      (batch, record s { pending = pending })
