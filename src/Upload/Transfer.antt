-- ===== src/Upload/Transfer.antt =====
-- The upload of a file from its first call to its last, and what a completed upload returns.
use authentication_transmiss.Tesla.Input.{same_text→eq, same_text, same_text_refl}
use authentication_transmiss.Workload.File.{
  packet_count_for, message_size, create_file_workload, FileWorkload, maximum_file_size,
}
use Prim.Native.Nat.{zero}
use authentication_transmiss.Tcp.Frame.{FileBinaryChunk, create_file_chunk}
use authentication_transmiss.Upload.Session.{
  FileUploadSession, idle, begin, append_chunk, complete, check_complete, received_chunk_count,
  maximum_chunk_size,
}
use authentication_transmiss.Upload.Invariant.{Reach, Reach-IsValid, IsUploading}
use authentication_transmiss.Workload.Recovery.{create_inv}
use authentication_transmiss.Upload.Invariant.{IsValid}
use authentication_transmiss.Prelude.{
  inr, subst, inl, take-append-drop, append_assoc, ap, ◌∙◌, append-nil, sym, refl, length-append,
  length-drop, drop, length-take, ◌>>=◌, arith, take, ◌∷◌, ◌++◌, min, suc, ok, length, Throws, ◌/◌,
  true, [], ◌-◌, ◌≡◌, ◌≤◌, List, ◌+◌, ℕ,
}

-- The chunks of a file as a client sends them, `n` many from an index on.
pub chunks : ℕ → ℕ → ℕ → List ℕ → List FileBinaryChunk
chunks zero chain_id index bytes = []
chunks (suc n) chain_id index bytes =
    record { chain_id = chain_id; chunk_index = index; content = take maximum_chunk_size bytes }
    ∷ chunks n chain_id (index + 1) (drop maximum_chunk_size bytes)

pub append_all : FileUploadSession → List FileBinaryChunk → Throws FileUploadSession
append_all s [] = ok s
append_all s (k ∷ ks) = do k' ← create_file_chunk k; s' ← append_chunk s k'; append_all s' ks

pub chunk_count_of : ℕ → ℕ
chunk_count_of n = (n + maximum_chunk_size - 1) / maximum_chunk_size

-- A chunk as it should be is made and appended.
append_next :
    (s : FileUploadSession) (content : List ℕ)
    → s.active ≡ true
    → 1 ≤ s.chain_id
    → 1 ≤ s.next_chunk_index
    → s.next_chunk_index ≤ 99
    → 1 ≤ length content
    → length content ≡ min maximum_chunk_size (s.original_byte_count - length s.file_bytes)
    → append_chunk s
        (record { chain_id = s.chain_id; chunk_index = s.next_chunk_index; content = content })
      ≡ ok (record s {
        next_chunk_index = s.next_chunk_index + 1;
        file_bytes = s.file_bytes ++ content;
      })
unfolding append_chunk
append_next s content active chain low high nonempty fits = ground arith

make_next :
    (chain_id index : ℕ) (content : List ℕ)
    → 1 ≤ chain_id
    → 1 ≤ index
    → 1 ≤ length content
    → length content ≤ maximum_chunk_size
    → create_file_chunk (record { chain_id = chain_id; chunk_index = index; content = content })
      ≡ ok (record { chain_id = chain_id; chunk_index = index; content = content })
unfolding create_file_chunk
make_next chain_id index content chain i low high = ground arith

length_zero : (bytes : List ℕ) → length bytes ≡ 0 → bytes ≡ []
length_zero [] e = refl
length_zero (x ∷ xs) e = absurd (omega arith)

-- The rest of a file, appended chunk by chunk.
append_all-chunks :
    (n : ℕ) (s : FileUploadSession) (bytes : List ℕ)
    → s.active ≡ true
    → 1 ≤ s.chain_id
    → 1 ≤ s.next_chunk_index
    → s.next_chunk_index + n ≤ 99
    → s.original_byte_count ≡ length s.file_bytes + length bytes
    → n ≡ chunk_count_of (length bytes)
    → append_all s (chunks n s.chain_id s.next_chunk_index bytes)
      ≡ ok (record s {
        next_chunk_index = s.next_chunk_index + n;
        file_bytes = s.file_bytes ++ bytes;
      })
unfolding append_all chunks chunk_count_of
append_all-chunks zero s bytes active chain low high size count =
    let empty : bytes ≡ [] = length_zero bytes (omega arith) in
    let same : s.file_bytes ≡ s.file_bytes ++ bytes =
      sym (append-nil s.file_bytes) ∙ ap (λ x. s.file_bytes ++ x) (sym empty) in
    let index : s.next_chunk_index ≡ s.next_chunk_index + 0 = omega arith in
    λ i. ok (record s { next_chunk_index = index i; file_bytes = same i })
append_all-chunks (suc n) s bytes active chain low high size count =
    let content = take maximum_chunk_size bytes in
    let l = length-take maximum_chunk_size bytes in
    let d = length-drop maximum_chunk_size bytes in
    let made =
      make_next s.chain_id s.next_chunk_index content chain low (omega arith) (omega arith) in
    let appended =
      append_next s content active chain low (omega arith) (omega arith) (omega arith) in
    let rest =
      append_all-chunks n
        (record s {
          next_chunk_index = s.next_chunk_index + 1;
          file_bytes = s.file_bytes ++ content;
        })
        (drop maximum_chunk_size bytes) active chain (omega arith) (omega arith)
        (omega (arith, length-append s.file_bytes content)) (omega arith) in
    let same : s.file_bytes ++ content ++ drop maximum_chunk_size bytes ≡ s.file_bytes ++ bytes =
      append_assoc s.file_bytes content (drop maximum_chunk_size bytes)
      ∙ ap (λ x. s.file_bytes ++ x) (take-append-drop maximum_chunk_size bytes) in
    let left = s.next_chunk_index + 1 + n in
    let index : left ≡ s.next_chunk_index + suc n = omega arith in
    ap
      (λ r. r >>= (λ k. append_chunk s k >>= (λ s'.
        append_all s'
          (chunks n s.chain_id (s.next_chunk_index + 1) (drop maximum_chunk_size bytes)))))
      made
    ∙ ap
        (λ r. r >>= (λ s'.
          append_all s'
            (chunks n s.chain_id (s.next_chunk_index + 1) (drop maximum_chunk_size bytes))))
        appended
    ∙ rest
    ∙ (λ i. ok (record s { next_chunk_index = index i; file_bytes = same i }))

chunk_count_of_le : (n : ℕ) → n ≤ maximum_file_size → 1 + chunk_count_of n ≤ 99
unfolding chunk_count_of
chunk_count_of_le n h = omega arith

-- A whole upload on an idle session.
pub upload : List ℕ → ℕ → List ℕ → Throws (Throws FileWorkload × FileUploadSession)
upload request_id chain_id bytes = do
  s ← begin idle request_id chain_id (length bytes)
  let count = chunk_count_of (length bytes)
  s' ← append_all s (chunks count chain_id 1 bytes)
  ok (complete s' request_id chain_id count (length bytes))

opened : List ℕ → ℕ → ℕ → FileUploadSession
opened request_id chain_id n = record {
  active = true;
  request_id = request_id;
  chain_id = chain_id;
  original_byte_count = n;
  next_chunk_index = 1;
  file_bytes = [];
}

module _ (request_id : List ℕ) (chain_id : ℕ) (bytes : List ℕ) (r : 1 ≤ length request_id)
    (c : 1 ≤ chain_id) (low : 1 ≤ length bytes) (high : length bytes ≤ maximum_file_size) where
  begin_ok :
      begin idle request_id chain_id (length bytes) ≡ ok (opened request_id chain_id (length bytes))
  unfolding begin opened
  begin_ok = ground arith

  checked :
      check_complete
        (record (opened request_id chain_id (length bytes)) {
          next_chunk_index = 1 + chunk_count_of (length bytes);
          file_bytes = bytes;
        })
        request_id
        chain_id
        (chunk_count_of (length bytes))
        (length bytes)
      ≡ ok tt
  unfolding check_complete received_chunk_count opened
  checked = let t = same_text_refl request_id in ground arith

  created :
      create_file_workload bytes
      ≡ ok (record {
        file_bytes = bytes;
        packet_count = (length bytes + message_size - 1) / message_size;
      })
  unfolding create_file_workload packet_count_for
  created = ground arith

  completed :
      complete
        (record (opened request_id chain_id (length bytes)) {
          next_chunk_index = 1 + chunk_count_of (length bytes);
          file_bytes = bytes;
        })
        request_id
        chain_id
        (chunk_count_of (length bytes))
        (length bytes)
      ≡ (
        ok (record {
          file_bytes = bytes;
          packet_count = (length bytes + message_size - 1) / message_size;
        }),
        idle,
      )
  unfolding complete
  completed = rw (complete, checked, created)

  -- A file of 1 to 6,400,000 bytes, begun on an idle session under a request that is not empty and a chain that is not 0, cut into chunks of 64 KiB and completed, is taken by every call, and the result is the workload of that very file and an idle session.
  pub upload-chunks :
      upload request_id chain_id bytes
      ≡ ok (
        ok (record {
          file_bytes = bytes;
          packet_count = (length bytes + message_size - 1) / message_size;
        }),
        idle,
      )
  unfolding upload opened
  upload-chunks =
      let count = chunk_count_of (length bytes) in
      let small : 1 + count ≤ 99 = chunk_count_of_le (length bytes) high in
      let appended =
        append_all-chunks count (opened request_id chain_id (length bytes)) bytes refl c
          (omega arith) small (omega arith) refl in
      ap
        (λ b. b >>= (λ s.
          append_all s (chunks count chain_id 1 bytes)
          >>= (λ s'. ok (complete s' request_id chain_id count (length bytes)))))
        begin_ok
      ∙ ap (λ b. b >>= (λ s'. ok (complete s' request_id chain_id count (length bytes)))) appended
      ∙ ap ok completed

complete_inv :
    (s : FileUploadSession) (request_id : List ℕ) (chain_id chunk_count byte_count : ℕ)
    (w : FileWorkload) (s' : FileUploadSession)
    → complete s request_id chain_id chunk_count byte_count ≡ (ok w, s')
    → (check_complete s request_id chain_id chunk_count byte_count ≡ ok tt)
      × (create_file_workload s.file_bytes ≡ ok w)
      × (s' ≡ idle)
unfolding complete
complete_inv s request_id chain_id chunk_count byte_count w s' e = ground arith

check_inv :
    (s : FileUploadSession) (request_id : List ℕ) (chain_id chunk_count byte_count : ℕ)
    → check_complete s request_id chain_id chunk_count byte_count ≡ ok tt
    → (s.active ≡ true)
      × (same_text request_id s.request_id ≡ true)
      × (chain_id ≡ s.chain_id)
      × (chunk_count ≡ s.next_chunk_index - 1)
      × (byte_count ≡ length s.file_bytes)
      × (byte_count ≡ s.original_byte_count)
unfolding check_complete received_chunk_count
check_inv s request_id chain_id chunk_count byte_count e = ground arith

-- A session that is full holds the number of chunks that its size asks for.
full_count :
    (s : FileUploadSession)
    → IsUploading s
    → length s.file_bytes ≡ s.original_byte_count
    → s.next_chunk_index - 1 ≡ chunk_count_of s.original_byte_count
unfolding chunk_count_of
full_count s u full =
    let a = u.received in
    let b = u.useful in
    let c = u.index.0 in
    let c' = u.index.1 in let d = u.declared.0 in let d' = u.declared.1 in omega arith

active-IsUploading : (s : FileUploadSession) → IsValid s → s.active ≡ true → IsUploading s
active-IsUploading s (inl i) e =
    let t : idle.active ≡ true = subst (λ x. x.active ≡ true) i e in absurd (cc t)
active-IsUploading s (inr u) e = u

-- What a completed upload is, from any session that calls lead to: the declared bytes, all of them, in the number of chunks that its size asks for, under the request and chain that began it; and the session is idle again.
pub complete_sound :
    {s : FileUploadSession}
    → Reach s
    → (request_id : List ℕ) (chain_id chunk_count byte_count : ℕ) (w : FileWorkload)
      (s' : FileUploadSession)
    → complete s request_id chain_id chunk_count byte_count ≡ (ok w, s')
    → (w.file_bytes ≡ s.file_bytes)
      × (length w.file_bytes ≡ s.original_byte_count)
      × (byte_count ≡ s.original_byte_count)
      × (chunk_count ≡ chunk_count_of byte_count)
      × (request_id ≡ s.request_id)
      × (chain_id ≡ s.chain_id)
      × (s' ≡ idle)
complete_sound {s} r request_id chain_id chunk_count byte_count w s' e =
    let (checked, created, reset) =
      complete_inv s request_id chain_id chunk_count byte_count w s' e in
    let (active, text, chain, count, received, declared) =
      check_inv s request_id chain_id chunk_count byte_count checked in
    let full =
      full_count s (active-IsUploading s (Reach-IsValid r) active) (sym received ∙ declared) in
    let bytes = (create_inv s.file_bytes w created).0 in
    (
      bytes,
      ap length bytes ∙ sym received ∙ declared,
      declared,
      count ∙ full ∙ ap chunk_count_of (sym declared),
      same_text→eq request_id s.request_id text,
      chain,
      reset,
    )
