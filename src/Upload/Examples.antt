-- ===== src/Upload/Examples.antt =====
-- A file of three bytes, uploaded in one chunk; the session before its end.
use authentication_transmiss.Tesla.Input.{same_text}
use authentication_transmiss.Workload.File.{packet_count_for, create_file_workload}
use authentication_transmiss.Upload.Invariant.{append_step, begin_step, start, next, Reach}
use authentication_transmiss.Upload.Transfer.{complete_sound, upload-chunks, chunk_count_of, upload}
use authentication_transmiss.Tcp.Frame.{create_file_chunk, FileBinaryChunk}
use authentication_transmiss.Upload.Session.{
  idle, received_chunk_count, check_complete, append_chunk, FileUploadSession, complete, begin,
}
use authentication_transmiss.Prelude.{length, refl, arith, [], true, ok, ◌∷◌, ◌≡◌, List, ℕ}

abbrev request : List ℕ
request = 114 ∷ 49 ∷ []

abbrev file : List ℕ
file = 7 ∷ 8 ∷ 9 ∷ []

abbrev started : FileUploadSession
started = record {
  active = true;
  request_id = request;
  chain_id = 5;
  original_byte_count = 3;
  next_chunk_index = 1;
  file_bytes = [];
}

abbrev filled : FileUploadSession
filled = record {
  active = true;
  request_id = request;
  chain_id = 5;
  original_byte_count = 3;
  next_chunk_index = 2;
  file_bytes = file;
}

abbrev chunk : FileBinaryChunk
chunk = record { chain_id = 5; chunk_index = 1; content = file }

filled-Reach : Reach filled
unfolding begin append_chunk create_file_chunk
filled-Reach =
    next (next start (begin_step request 5 3 refl))
      (append_step {s = started} {s' = filled} chunk chunk refl refl)

upload-chunks_example :
    upload request 5 file ≡ ok (ok (record { file_bytes = file; packet_count = 1 }), idle)
upload-chunks_example =
    upload-chunks request 5 file (omega arith) (omega arith) (omega arith) (omega arith)

filled_complete :
    complete filled request 5 1 3 ≡ (ok (record { file_bytes = file; packet_count = 1 }), idle)
unfolding complete check_complete received_chunk_count create_file_workload packet_count_for
    same_text
filled_complete = refl

complete_sound_example :
    (file ≡ file)
    × (length file ≡ filled.original_byte_count)
    × (length file ≡ filled.original_byte_count)
    × (received_chunk_count filled ≡ chunk_count_of (length file))
    × (request ≡ request)
    × (filled.chain_id ≡ started.chain_id)
    × (idle ≡ idle)
unfolding received_chunk_count
complete_sound_example =
    complete_sound filled-Reach request 5 1 3 (record { file_bytes = file; packet_count = 1 }) idle
      filled_complete
