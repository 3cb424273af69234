-- ===== src/Upload/Invariant.antt =====
-- What holds of every session that calls can lead to, and what a completed upload then is.
use authentication_transmiss.Workload.File.{FileWorkload, maximum_file_size}
use authentication_transmiss.Tcp.Frame.{create_file_chunk, FileBinaryChunk}
use authentication_transmiss.Upload.Session.{
  FileUploadSession, idle, begin, append_chunk, complete, check_complete, maximum_chunk_size,
}
use authentication_transmiss.Prelude.{
  ap, ◌∙◌, Result-cases, length-append, ◌++◌, ◌^◌, refl, ◌%◌, sym, [], subst, arith, inr, inl, ◌+◌,
  ◌<◌, ◌*◌, ◌-◌, min, Throws, length, ◌≤◌, ok, true, ◌⊎◌, ◌≡◌, List, ℕ,
}

-- A session between `begin` and `complete`: all chunks before the next are complete, and the
-- chunk index is small, so that its 32-bit counter does not wrap.
pub record IsUploading (s : FileUploadSession) : Type 0 where
  pub active : s.active ≡ true
  pub request : 1 ≤ length s.request_id
  pub chain : 1 ≤ s.chain_id
  pub declared : (1 ≤ s.original_byte_count) × (s.original_byte_count ≤ maximum_file_size)
  pub index : (1 ≤ s.next_chunk_index) × (s.next_chunk_index ≤ 99)
  pub received :
      length s.file_bytes
      ≡ min s.original_byte_count ((s.next_chunk_index - 1) * maximum_chunk_size)
  pub useful : (s.next_chunk_index - 2) * maximum_chunk_size < s.original_byte_count

abbrev pub IsValid : FileUploadSession → Type 0
IsValid s = (s ≡ idle) ⊎ IsUploading s

-- A call that returns, whatever its arguments: a chunk that arrives is one that the constructor
-- of FileBinaryChunk made.
pub data Step : FileUploadSession → FileUploadSession → Type 0 where
  begin_step :
      {s s' : FileUploadSession} (request_id : List ℕ) (chain_id byte_count : ℕ)
      → begin s request_id chain_id byte_count ≡ ok s'
      → Step s s'
  append_step :
      {s s' : FileUploadSession} (k k' : FileBinaryChunk)
      → create_file_chunk k ≡ ok k'
      → append_chunk s k' ≡ ok s'
      → Step s s'
  complete_step :
      {s s' : FileUploadSession} (request_id : List ℕ) (chain_id chunk_count byte_count : ℕ)
      (r : Throws FileWorkload)
      → complete s request_id chain_id chunk_count byte_count ≡ (r, s')
      → Step s s'
  reset_step : {s : FileUploadSession} → Step s idle

pub data Reach : FileUploadSession → Type 0 where
  start : Reach idle
  next : {s s' : FileUploadSession} → Reach s → Step s s' → Reach s'

begin_inv :
    (s : FileUploadSession) (request_id : List ℕ) (chain_id n : ℕ) (s' : FileUploadSession)
    → begin s request_id chain_id n ≡ ok s'
    → (s' ≡ record {
      active = true;
      request_id = request_id;
      chain_id = chain_id;
      original_byte_count = n;
      next_chunk_index = 1;
      file_bytes = [];
    })
      × (1 ≤ length request_id)
      × (1 ≤ chain_id)
      × (1 ≤ n)
      × (n ≤ maximum_file_size)
unfolding begin
begin_inv s request_id chain_id n s' e = ground arith

pub begin-IsUploading :
    (s : FileUploadSession) (request_id : List ℕ) (chain_id n : ℕ) (s' : FileUploadSession)
    → begin s request_id chain_id n ≡ ok s'
    → IsUploading s'
begin-IsUploading s request_id chain_id n s' e =
    let (same, r, c, low, high) = begin_inv s request_id chain_id n s' e in
    subst IsUploading (sym same) (record {
      active = refl;
      request = r;
      chain = c;
      declared = (low, high);
      index = (omega arith, omega arith);
      received = omega arith;
      useful = omega arith;
    })

append_inv :
    (s : FileUploadSession) (k : FileBinaryChunk) (s' : FileUploadSession)
    → append_chunk s k ≡ ok s'
    → (s' ≡ record s {
      next_chunk_index = (s.next_chunk_index + 1) % 2 ^ 32;
      file_bytes = s.file_bytes ++ k.content;
    })
      × (s.active ≡ true)
      × (length k.content ≡ min maximum_chunk_size (s.original_byte_count - length s.file_bytes))
unfolding append_chunk
append_inv s k s' e = ground arith

create_file_chunk_inv :
    (k k' : FileBinaryChunk) → create_file_chunk k ≡ ok k' → 1 ≤ length k'.content
unfolding create_file_chunk
create_file_chunk_inv k k' e = ground arith

appended-IsUploading :
    (s : FileUploadSession) (content : List ℕ)
    → IsUploading s
    → 1 ≤ length content
    → length content ≡ min maximum_chunk_size (s.original_byte_count - length s.file_bytes)
    → IsUploading (record s {
      next_chunk_index = (s.next_chunk_index + 1) % 2 ^ 32;
      file_bytes = s.file_bytes ++ content;
    })
appended-IsUploading s content u nonempty fits =
    let a = u.declared.1 in
    let b = u.index.0 in
    let c = u.index.1 in
    let d = u.received in
    let f = u.useful in
    record {
      active = u.active;
      request = u.request;
      chain = u.chain;
      declared = u.declared;
      index = (omega arith, omega arith);
      received = omega (arith, length-append s.file_bytes content);
      useful = omega arith;
    }

-- `complete` leaves the session as it was, or resets it.
complete-cases :
    (s : FileUploadSession) (request_id : List ℕ) (chain_id chunk_count n : ℕ)
    → ((complete s request_id chain_id chunk_count n).1 ≡ s)
      ⊎ ((complete s request_id chain_id chunk_count n).1 ≡ idle)
unfolding complete
complete-cases s request_id chain_id chunk_count n =
    elim (Result-cases (check_complete s request_id chain_id chunk_count n)) [
      | inl (done, e) ↦ inr (rw (complete, e))
      | inr (f, e) ↦ inl (rw (complete, e))
    ]

append_chunk-IsValid :
    (s : FileUploadSession) (k k' : FileBinaryChunk) (s' : FileUploadSession)
    → create_file_chunk k ≡ ok k'
    → append_chunk s k' ≡ ok s'
    → IsValid s
    → IsUploading s'
append_chunk-IsValid s k k' s' made e (inl i) =
    let (same, active, fits) = append_inv s k' s' e in
    let t : idle.active ≡ true = subst (λ x. x.active ≡ true) i active in absurd (cc t)
append_chunk-IsValid s k k' s' made e (inr u) =
    let (same, active, fits) = append_inv s k' s' e in
    subst IsUploading (sym same)
      (appended-IsUploading s k'.content u (create_file_chunk_inv k k' made) fits)

pub Step-IsValid : {s s' : FileUploadSession} → Step s s' → IsValid s → IsValid s'
Step-IsValid {s} {s'} (begin_step request_id chain_id n e) v =
    inr (begin-IsUploading s request_id chain_id n s' e)
Step-IsValid {s} {s'} (append_step k k' made e) v = inr (append_chunk-IsValid s k k' s' made e v)
Step-IsValid {s} {s'} (complete_step request_id chain_id chunk_count n r e) v =
    elim (complete-cases s request_id chain_id chunk_count n) [
      | inl same ↦ subst IsValid (sym same ∙ ap (λ x. x.1) e) v
      | inr same ↦ inl (sym (ap (λ x. x.1) e) ∙ same)
    ]
Step-IsValid reset_step v = inl refl

pub Reach-IsValid : {s : FileUploadSession} → Reach s → IsValid s
Reach-IsValid start = inl refl
Reach-IsValid (next r t) = Step-IsValid t (Reach-IsValid r)
