-- ===== src/Tcp/Examples.antt =====
-- Concrete frames and streams at which the theorems on TCP frames apply.
use authentication_transmiss.Wire.{shift_loop, append_uint64, append_uint32}
use authentication_transmiss.Tcp.Delivery.{consume-stream, Deliverable, feed-stream, stream_bytes}
use authentication_transmiss.Tcp.Fragments.{consume-append_none, consume-append, feed}
use mathlib.Core.List.{flatten}
use authentication_transmiss.Tcp.Stream.{consume, StreamDecoder}
use authentication_transmiss.Tcp.RoundTrip.{decode_frame-encode_frame, frame_bytes, FrameFits}
use authentication_transmiss.Tcp.Frame.{
  encode_payload, json_control, frame_type, file_binary_chunk, TcpFrame, encode_frame, decode_frame,
}
use authentication_transmiss.Prelude.{
  ap, take-append-drop, All, ok, some, ◌==◌, none, false, drop, refl, ◌≡◌, ◌∷◌, ◌++◌, [], Bool,
  arith, take, List, ℕ,
}

-- A parser that takes texts between braces for objects.
abbrev braced : List ℕ → Bool
braced [] = false
braced (x ∷ xs) = x == b'{'

abbrev hello : TcpFrame
hello = json_control (b'{' ∷ b'}' ∷ [])

abbrev chunk : TcpFrame
chunk = file_binary_chunk (record { chain_id = 9; chunk_index = 1; content = 4 ∷ 5 ∷ 6 ∷ [] })

hello-FrameFits : FrameFits braced hello
hello-FrameFits = refl

chunk-FrameFits : FrameFits braced chunk
chunk-FrameFits = (omega arith, omega arith, omega arith, omega arith, omega arith, omega arith)

abbrev fresh : StreamDecoder
fresh = record { maximum_frame_length = 100; pending = [] }

chunk-encoded : encode_frame chunk ≡ ok (frame_bytes chunk)
unfolding encode_frame encode_payload append_uint32 append_uint64 shift_loop frame_type
chunk-encoded = refl

decode_frame-encode_frame_example : decode_frame braced (frame_bytes chunk) ≡ some (ok chunk)
decode_frame-encode_frame_example =
    decode_frame-encode_frame braced chunk (frame_bytes chunk) chunk-FrameFits chunk-encoded

-- The stream of the two frames, cut inside the first one's length and inside the second one.
abbrev two_frames : List ℕ
two_frames = stream_bytes (hello ∷ chunk ∷ [])

two_frames-cut :
    take 2 two_frames ++ flatten (take 10 (drop 2 two_frames) ∷ drop 12 two_frames ∷ [])
    ≡ two_frames
unfolding flatten frame_type
two_frames-cut = refl

two_frames-Deliverable : All (Deliverable braced 100) (hello ∷ chunk ∷ [])
two_frames-Deliverable =
    ((hello-FrameFits, omega arith, omega arith), ((chunk-FrameFits, omega arith, omega arith), tt))

feed-stream_example :
    feed braced fresh (take 2 two_frames) (take 10 (drop 2 two_frames) ∷ drop 12 two_frames ∷ [])
    ≡ (record { frames = hello ∷ chunk ∷ []; error = none }, fresh)
feed-stream_example =
    feed-stream braced fresh (hello ∷ chunk ∷ []) (take 2 two_frames)
      (take 10 (drop 2 two_frames) ∷ drop 12 two_frames ∷ []) refl two_frames-Deliverable
      two_frames-cut

first_piece-waits : (consume braced fresh (take 12 two_frames)).0.error ≡ none
first_piece-waits =
    let cut = take-append-drop 12 two_frames in
    let whole : (consume braced fresh (take 12 two_frames ++ drop 12 two_frames)).0.error ≡ none =
      ap (λ t. t.0.error)
        (consume-stream braced fresh (hello ∷ chunk ∷ []) (take 12 two_frames ++ drop 12 two_frames)
          refl two_frames-Deliverable cut) in
    consume-append_none braced fresh (take 12 two_frames) (drop 12 two_frames) whole

consume-append_example : consume braced fresh (take 12 two_frames ++ drop 12 two_frames) ≡ (
  record {
    frames =
        (consume braced fresh (take 12 two_frames)).0.frames
        ++ (consume braced
            (consume braced fresh (take 12 two_frames)).1
            (drop 12 two_frames)).0.frames;
    error =
        (consume braced (consume braced fresh (take 12 two_frames)).1 (drop 12 two_frames)).0.error;
  },
  (consume braced (consume braced fresh (take 12 two_frames)).1 (drop 12 two_frames)).1,
)
consume-append_example =
    consume-append braced fresh (take 12 two_frames) (drop 12 two_frames) first_piece-waits
