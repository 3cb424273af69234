-- ===== src/Tcp/RoundTrip.antt =====
-- `decode_frame` undoes `encode_frame`.
use authentication_transmiss.Wire.{IsU32, IsU64}
use authentication_transmiss.Wire.RoundTrip.{
  bytes_read-between, bytes_read-end, remaining-between, word_of-bytes32, word_of-bytes64,
  u32_read-between, u64_read-between, append_uint64_lem, append_uint32_lem, bytes64, bytes32,
}
use authentication_transmiss.Tcp.Frame.{
  catch_out_of_range, decode_frame, create_json_payload, first_byte, decode_frame_body,
  decode_payload, FileBinaryChunk, catch_invalid_argument, create_file_chunk, decode_file_chunk,
  frame_type, file_binary_chunk, json_control, TcpFrame, encode_frame, encode_payload,
}
use authentication_transmiss.Prelude.{
  some, ◌-◌, ==_iff, ==_refl, [], ltb-false→le, inr, inl, Bool-cases, le→ltb-false, refl,
  append_assoc, ok, ◌<◌, arith, ◌∷◌, ◌^◌, ◌≢◌, ◌++◌, ◌%◌, ltb, length, true, ◌≡◌, ◌+◌, Bool, List,
  ℕ,
}

-- What the types and constructors promise of a frame object.
abbrev pub FrameFits : (List ℕ → Bool) → TcpFrame → Type 0
FrameFits is_json_object (json_control json) = is_json_object json ≡ true
FrameFits is_json_object (file_binary_chunk k) =
    IsU64 k.chain_id
    × (k.chain_id ≢ 0)
    × IsU32 k.chunk_index
    × (k.chunk_index ≢ 0)
    × (0 < length k.content)
    × IsU32 (length k.content)

abbrev pub payload_bytes : TcpFrame → List ℕ
payload_bytes (json_control json) = json
payload_bytes (file_binary_chunk k) =
    bytes64 k.chain_id ++ (bytes32 k.chunk_index ++ (bytes32 (length k.content) ++ k.content))

abbrev pub frame_bytes : TcpFrame → List ℕ
frame_bytes f = bytes32 (1 + length (payload_bytes f)) ++ (frame_type f ∷ payload_bytes f)

encode_payload_lem :
    (is_json_object : List ℕ → Bool) (f : TcpFrame)
    → FrameFits is_json_object f
    → encode_payload f ≡ payload_bytes f
unfolding encode_payload
encode_payload_lem is_json_object (json_control json) w = refl
encode_payload_lem is_json_object (file_binary_chunk k) w =
    let e : length k.content % 2 ^ 32 ≡ length k.content = omega arith in
    rw e (simp (append_uint32_lem, append_uint64_lem, append_assoc))

module _ (is_json_object : List ℕ → Bool) where
  -- A frame whose type and payload fit the 32-bit length is encoded as its bytes.
  pub encode_frame-fits :
      (f : TcpFrame)
      → FrameFits is_json_object f
      → length (payload_bytes f) < 0xffff_ffff
      → encode_frame f ≡ ok (frame_bytes f)
  unfolding encode_frame
  encode_frame-fits f w fits =
      let small : (1 + length (payload_bytes f)) % 2 ^ 32 ≡ 1 + length (payload_bytes f) =
        omega arith in
      rw (
        encode_payload_lem is_json_object f w,
        le→ltb-false 0xffff_fffe (length (payload_bytes f)) (omega arith),
        small,
        append_uint32_lem,
      )

  -- No other frame is encoded.
  pub encode_frame-ok :
      (f : TcpFrame) (d : List ℕ)
      → FrameFits is_json_object f
      → encode_frame f ≡ ok d
      → (length (payload_bytes f) < 0xffff_ffff) × (d ≡ frame_bytes f)
  encode_frame-ok f d w e = elim (Bool-cases (ltb 0xffff_fffe (length (payload_bytes f)))) [
    | inl long ↦
        unfold encode_frame in
        cc (rw (encode_payload_lem is_json_object f w, long, encode_frame) at e)
    | inr short ↦
        let fits = ltb-false→le _ _ short in (omega arith, cc (encode_frame-fits f w (omega arith)))
  ]

  decode_file_chunk-bytes :
      (k : FileBinaryChunk)
      → FrameFits is_json_object (file_binary_chunk k)
      → decode_file_chunk (payload_bytes (file_binary_chunk k)) ≡ ok (file_binary_chunk k)
  unfolding decode_file_chunk create_file_chunk catch_invalid_argument
  decode_file_chunk-bytes k w =
      rw
        (
          le→ltb-false (length (payload_bytes (file_binary_chunk k))) 16 (omega arith),
          u64_read-between [] (bytes64 k.chain_id) _ refl,
          u32_read-between (bytes64 k.chain_id) (bytes32 k.chunk_index) _ refl,
          u32_read-between _ (bytes32 (length k.content)) k.content refl,
          word_of-bytes64 k.chain_id w.0,
          word_of-bytes32 k.chunk_index w.2,
          word_of-bytes32 (length k.content) w.5,
          remaining-between,
          ==_refl,
          bytes_read-end,
        )
        (ground arith)

  decode_payload-bytes :
      (f : TcpFrame)
      → FrameFits is_json_object f
      → decode_payload is_json_object (frame_type f) (payload_bytes f) ≡ ok f
  unfolding decode_payload frame_type create_json_payload catch_invalid_argument
  decode_payload-bytes (json_control json) w = rw w
  decode_payload-bytes (file_binary_chunk k) w = decode_file_chunk-bytes k w

  decode_frame_body-bytes :
      (f : TcpFrame)
      → FrameFits is_json_object f
      → length (payload_bytes f) < 0xffff_ffff
      → decode_frame_body is_json_object (frame_bytes f) ≡ ok f
  unfolding decode_frame_body first_byte
  decode_frame_body-bytes f w fits =
      let size = 1 + length (payload_bytes f) in
      rw (
        u32_read-between [] (bytes32 size) (frame_type f ∷ payload_bytes f) refl,
        word_of-bytes32 size (omega arith),
        le→ltb-false size 1 (omega arith),
        (==_iff size (length (frame_bytes f) - 4)).1 (omega arith),
        bytes_read-between (bytes32 size) (frame_type f ∷ []) (payload_bytes f),
        remaining-between,
        bytes_read-end,
        decode_payload-bytes f w,
      )

  -- Whatever `encode_frame` returns for a frame that its constructors accept, `decode_frame` turns
  -- back into that frame.
  pub decode_frame-encode_frame :
      (f : TcpFrame) (d : List ℕ)
      → FrameFits is_json_object f
      → encode_frame f ≡ ok d
      → decode_frame is_json_object d ≡ some (ok f)
  unfolding decode_frame catch_out_of_range
  decode_frame-encode_frame f d w e =
      let (fits, same) = encode_frame-ok f d w e in
      rw (
        same,
        le→ltb-false (length (frame_bytes f)) 5 (omega arith),
        decode_frame_body-bytes f w fits,
      )
