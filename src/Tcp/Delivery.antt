-- ===== src/Tcp/Delivery.antt =====
-- The frames that a peer encodes come out of the decoder, however the stream was cut.
use Prim.Native.Nat.{zero}
use authentication_transmiss.Tcp.Loop.{consume_loop-short}
use authentication_transmiss.Tcp.Fragments.{run, feed-consume, feed}
use mathlib.Core.List.{flatten}
use authentication_transmiss.Wire.RoundTrip.{word_of-bytes32, u32_read-between, between, bytes32}
use authentication_transmiss.Wire.{reader, u32_read}
use authentication_transmiss.Tcp.Stream.{
  consume, emit, frame_round, complete_round, sized_round, prefix_round, StreamDecoder,
  consume_loop, round,
}
use authentication_transmiss.Tcp.RoundTrip.{
  encode_frame-fits, decode_frame-encode_frame, payload_bytes, frame_bytes, FrameFits,
}
use authentication_transmiss.Tcp.Frame.{TcpFrame}
use authentication_transmiss.Prelude.{
  sym, drop-append_eq, ◌∙◌, refl, take-append_eq, append_assoc, ap, le→ltb-false, suc,
  length-append, arith, append-nil, ok, none, All, ◌+◌, [], ◌++◌, ◌≤◌, length, ◌≡◌, ◌^◌, ◌<◌, ◌∷◌,
  Bool, List, ℕ,
}

abbrev pub stream_bytes : List TcpFrame → List ℕ
stream_bytes [] = []
stream_bytes (f ∷ fs) = frame_bytes f ++ stream_bytes fs

-- The frame can be built, and its type and payload are within the decoder's limit.
abbrev pub Deliverable : (List ℕ → Bool) → ℕ → TcpFrame → Type 0
Deliverable is_json_object maximum f =
    FrameFits is_json_object f
    × (length (payload_bytes f) < 0xffff_ffff)
    × (1 + length (payload_bytes f) ≤ maximum)

module _ (is_json_object : List ℕ → Bool) where
  prefix_read :
      (size : ℕ)
      → size < 2 ^ 32
      → u32_read (reader (bytes32 size)) ≡ ok (size, between (bytes32 size) [])
  prefix_read size h = rw (u32_read-between [] (bytes32 size) [] refl, word_of-bytes32 size h)

  round-frame :
      (maximum : ℕ) (f : TcpFrame) (rest : List ℕ)
      → Deliverable is_json_object maximum f
      → round is_json_object maximum (frame_bytes f ++ rest) ≡ emit f rest
  unfolding round prefix_round sized_round complete_round frame_round
  round-frame maximum f rest (w, fits, within) =
      let size = 1 + length (payload_bytes f) in
      let whole : 4 + size ≡ length (frame_bytes f) = omega arith in
      let all = length-append (frame_bytes f) rest in
      rw (
        le→ltb-false (length (frame_bytes f ++ rest)) 4 (omega arith),
        prefix_read size (omega arith),
        le→ltb-false size 1 (omega arith),
        le→ltb-false maximum size within,
        le→ltb-false (length (frame_bytes f ++ rest)) (4 + size) (omega arith),
        whole,
        take-append_eq (frame_bytes f) rest,
        drop-append_eq (frame_bytes f) rest,
        decode_frame-encode_frame is_json_object f (frame_bytes f) w
            (encode_frame-fits is_json_object f w fits),
      )

  consume_loop-stream :
      (maximum n : ℕ) (before fs : List TcpFrame)
      → length (stream_bytes fs) ≤ n
      → All (Deliverable is_json_object maximum) fs
      → consume_loop is_json_object maximum n before (stream_bytes fs)
        ≡ (record { frames = before ++ fs; error = none }, [])
  unfolding consume_loop
  consume_loop-stream maximum n before [] h d =
      rw append-nil (consume_loop-short is_json_object maximum n before [] (omega arith))
  consume_loop-stream maximum zero before (f ∷ fs) h d = absurd (omega arith)
  consume_loop-stream maximum (suc n) before (f ∷ fs) h d =
      rw (round-frame maximum f (stream_bytes fs) d.0, consume_loop)
        (rw (← append_assoc before (f ∷ []) fs) (
          consume_loop-stream maximum n (before ++ (f ∷ [])) fs
            (omega (arith, length-append (payload_bytes f) (stream_bytes fs))) d.1))

  pub consume-stream :
      (s : StreamDecoder) (fs : List TcpFrame) (bytes : List ℕ)
      → s.pending ≡ []
      → All (Deliverable is_json_object s.maximum_frame_length) fs
      → bytes ≡ stream_bytes fs
      → consume is_json_object s bytes ≡ (record { frames = fs; error = none }, s)
  unfolding consume
  consume-stream s fs bytes empty d cut =
      let looped : run is_json_object s.maximum_frame_length (s.pending ++ bytes)
          ≡ (record { frames = fs; error = none }, []) =
        rw (empty, cut)
          (consume_loop-stream s.maximum_frame_length (length (stream_bytes fs)) [] fs (omega arith)
            d) in
      ap (λ t. (t.0, record s { pending = t.1 })) looped
      ∙ (λ i. (record { frames = fs; error = none }, record s { pending = sym empty i }))

  -- A decoder with nothing pending that receives the bytes of frames, each well formed and within 32 bits and the decoder's maximum frame length, cut into pieces anywhere, returns exactly the frames in order, no error, and is left as it was.
  pub feed-stream :
      (s : StreamDecoder) (fs : List TcpFrame) (piece : List ℕ) (more : List (List ℕ))
      → s.pending ≡ []
      → All (Deliverable is_json_object s.maximum_frame_length) fs
      → piece ++ flatten more ≡ stream_bytes fs
      → feed is_json_object s piece more ≡ (record { frames = fs; error = none }, s)
  feed-stream s fs piece more empty d cut =
      let whole = consume-stream s fs (piece ++ flatten more) empty d cut in
      feed-consume is_json_object s piece more (ap (λ r. r.0.error) whole) ∙ whole
