-- ===== src/Wire/Failure.antt =====
-- ProtocolTypes.h: the structured decode errors, and how a decoder's `try` block ends: by a
-- value, by `return errCreate(…)`, or by an exception that a handler turns into such an error.
use authentication_transmiss.Prelude.{Exception, Result, Throws, ok, err}

pub data DecodeErrorCode : Type 0 where
  invalid_frame_length frame_too_large unsupported_frame_type : DecodeErrorCode
  invalid_json_payload invalid_file_chunk : DecodeErrorCode
  invalid_control_message invalid_discovery_message : DecodeErrorCode
  datagram_too_short datagram_length_mismatch : DecodeErrorCode
  invalid_authentication_context invalid_packet_index : DecodeErrorCode
  invalid_interval_index invalid_authentication_fields : DecodeErrorCode

pub data Failure : Type 0 where
  rejected : DecodeErrorCode → Failure
  thrown : Exception → Failure

abbrev pub Decoded {ℓ} : Type ℓ → Type ℓ
Decoded A = Result DecodeErrorCode A

-- A call inside the `try` block whose exception leaves the block.
abbrev pub attempt {ℓ} : {A : Type ℓ} → Throws A → Result Failure A
attempt (ok a) = ok a
attempt (err e) = err (thrown e)
