-- ===== src/Upload/Session.antt =====
-- FileUploadSession.cpp. Every check of `begin` and `append` stands before the first write, so a
-- call that throws leaves the session as it was; `complete` resets the session before it makes
-- the workload, and so returns the session beside its result.
use authentication_transmiss.Tesla.Input.{same_text}
use authentication_transmiss.Workload.File.{maximum_file_size, create_file_workload, FileWorkload}
use authentication_transmiss.Tcp.Frame.{FileBinaryChunk}
use authentication_transmiss.Prelude.{
  ◌++◌, ◌^◌, true, ◌%◌, ◌+◌, min, ltb, invalid_argument, ◌||◌, length, ◌==◌, ok, not, logic_error,
  err, fail_if, ◌>>◌, Throws, [], Bool, false, ◌-◌, List, ℕ,
}

pub record FileUploadSession : Type 0 where
  pub active : Bool
  pub request_id : List ℕ
  pub chain_id : ℕ
  pub original_byte_count : ℕ
  pub next_chunk_index : ℕ
  pub file_bytes : List ℕ

-- `MAXIMUM_CHUNK_SIZE`, 64 KiB.
abbrev pub maximum_chunk_size : ℕ
maximum_chunk_size = 65_536

-- The members' initial values, which `reset` restores.
abbrev pub idle : FileUploadSession
idle = record {
  active = false;
  request_id = [];
  chain_id = 0;
  original_byte_count = 0;
  next_chunk_index = 1;
  file_bytes = [];
}

unfoldable pub begin : FileUploadSession → List ℕ → ℕ → ℕ → Throws FileUploadSession
begin s request_id chain_id original_byte_count = do
  fail_if s.active logic_error
  fail_if (length request_id == 0 || chain_id == 0) invalid_argument
  fail_if (original_byte_count == 0 || ltb maximum_file_size original_byte_count) invalid_argument
  ok (record {
    active = true;
    request_id = request_id;
    chain_id = chain_id;
    original_byte_count = original_byte_count;
    next_chunk_index = 1;
    file_bytes = [];
  })

unfoldable pub append_chunk : FileUploadSession → FileBinaryChunk → Throws FileUploadSession
append_chunk s k = do
  fail_if (not s.active) logic_error
  fail_if (not (k.chain_id == s.chain_id)) invalid_argument
  fail_if (not (k.chunk_index == s.next_chunk_index)) invalid_argument
  let remaining_byte_count = s.original_byte_count - length s.file_bytes
  let expected_chunk_size = min maximum_chunk_size remaining_byte_count
  fail_if (not (length k.content == expected_chunk_size)) invalid_argument
  ok (record s {
    next_chunk_index = (s.next_chunk_index + 1) % 2 ^ 32;
    file_bytes = s.file_bytes ++ k.content;
  })

-- `m_u32NextChunkIndex - 1U`; the index is never 0.
unfoldable pub received_chunk_count : FileUploadSession → ℕ
received_chunk_count s = s.next_chunk_index - 1

-- The checks of `wrkComplete`, in order.
unfoldable pub check_complete : FileUploadSession → List ℕ → ℕ → ℕ → ℕ → Throws (Unit {0})
check_complete s request_id chain_id chunk_count transferred_byte_count = do
  fail_if (not s.active) logic_error
  fail_if (not (same_text request_id s.request_id) || not (chain_id == s.chain_id)) invalid_argument
  fail_if (not (chunk_count == received_chunk_count s)) invalid_argument
  fail_if
      (not (transferred_byte_count == length s.file_bytes)
        || not (transferred_byte_count == s.original_byte_count))
      invalid_argument

unfoldable pub complete :
    FileUploadSession → List ℕ → ℕ → ℕ → ℕ → Throws FileWorkload × FileUploadSession
complete s request_id chain_id chunk_count transferred_byte_count =
    elim (check_complete s request_id chain_id chunk_count transferred_byte_count) [
      | err e ↦ (err e, s)
      | ok done ↦ (create_file_workload s.file_bytes, idle)
    ]
