-- ===== src/Receiver/Finish.antt =====
-- The end of a round: what the slots say, the payload that they hold, and the result
-- (`finalizeLocked` and what it calls).
use authentication_transmiss.Receiver.Steps.{and_then, if_valid, returned, Ended}
use authentication_transmiss.Udp.Context.{native, improved}
use authentication_transmiss.Udp.Context.{interval_of}
use authentication_transmiss.Workload.File.{recover}
use authentication_transmiss.Receiver.Native.{map_data_packet}
use authentication_transmiss.Tesla.Input.{same_text}
use Prim.Native.Nat.{zero}
use mathlib.Core.List.{[]}
use authentication_transmiss.Receiver.Observe.{set_incomplete, failure_of, queue_failure, slot}
use authentication_transmiss.Udp.Packet.{DataPacket}
use authentication_transmiss.Round.Parameters.{RoundParameters}
use authentication_transmiss.Round.Context.{file_details, text_details, is_text, PayloadDetails}
use authentication_transmiss.Receiver.State.{
  empty, pending, completed, missing_packet_type, error, authentication_failed_result, file_result,
  text_result, protocol_incomplete_result, ResultDetails, ResultStatus, Work, RuntimeResult,
  PacketRecord, ReceiverState, PacketStatus, passed, failed,
}
use authentication_transmiss.Prelude.{
  leb, ◌/◌, ◌||◌, runtime_error, logic_error, not, ◌-◌, err, length, some, ◌%◌, ◌&&◌, ok, ◌>>=◌,
  none, ◌==◌, true, ◌^◌, [], drop, ◌++◌, Bool, if◌then◌else◌, Throws, ◌+◌, false, suc, ◌∷◌, Option,
  List, ℕ,
}

unfoldable pub same_status : PacketStatus → PacketStatus → Bool
same_status empty empty = true
same_status pending pending = true
same_status passed passed = true
same_status failed failed = true
same_status s t = false

unfoldable pub count_records : PacketStatus → List PacketRecord → ℕ
count_records s [] = 0
count_records s (r ∷ rs) =
    let rest = count_records s rs in if same_status r.status s then rest + 1 else rest

-- `nCountStatus`: slot 0 is no packet's.
unfoldable pub count_status : ReceiverState → PacketStatus → ℕ
count_status r s = count_records s (drop 1 r.packet_records) % 2 ^ 32

-- `strDecodeText`: a message without the zeros at its end.
unfoldable pub drop_zero : ℕ → List ℕ → List ℕ
drop_zero zero [] = []
drop_zero zero (b ∷ bs) = zero ∷ b ∷ bs
drop_zero (suc n) bs = suc n ∷ bs

unfoldable pub decode_text : List ℕ → List ℕ
decode_text [] = []
decode_text (b ∷ bs) = drop_zero b (decode_text bs)

-- One round of `strRecoveredText`, from the text so far; none is an early `return ""`.
unfoldable pub join_text : List ℕ → List ℕ → Option (List ℕ)
join_text found current =
    if length found == 0 then some current else if same_text found current then some found else none

-- The packet of a slot that has passed.
unfoldable pub passed_packet : PacketRecord → Option DataPacket
passed_packet r = if same_status r.status passed then r.packet else none

unfoldable pub recovered_text : List ℕ → List PacketRecord → List ℕ → Throws (List ℕ)
recovered_text sender_id [] found = ok found
recovered_text sender_id (r ∷ rs) found = elim (passed_packet r) [
  | none ↦ recovered_text sender_id rs found
  | some p ↦ do
    q ← map_data_packet sender_id p
    (elim (join_text found (decode_text q.message)) [
      | none ↦ ok []
      | some next ↦ recovered_text sender_id rs next
    ])
]

unfoldable pub passed_messages : List ℕ → List PacketRecord → Throws (List (List ℕ))
passed_messages sender_id [] = ok []
passed_messages sender_id (r ∷ rs) = elim (passed_packet r) [
  | none ↦ err logic_error
  | some p ↦ do
    q ← map_data_packet sender_id p
    rest ← passed_messages sender_id rs
    ok (q.message ∷ rest)
]

-- `std::get<FileReceiverPayloadDetails>(…)`, which throws std::bad_variant_access on a text.
unfoldable pub file_byte_count : PayloadDetails → Throws ℕ
file_byte_count (text_details n) = err runtime_error
file_byte_count (file_details n) = ok n

unfoldable pub incomplete_details : ReceiverState → Throws ResultDetails
incomplete_details r =
    if is_text r.context.round.payload_mode
    then (do
      t ← recovered_text r.context.sender_id (drop 1 r.packet_records) []
      ok (text_result t))
    else (do n ← file_byte_count r.context.payload; ok (file_result n [] none))

unfoldable pub recover_file_details : (List ℕ → List ℕ) → ReceiverState → Throws ResultDetails
recover_file_details sha256 r = do
  n ← file_byte_count r.context.payload
  messages ← passed_messages r.context.sender_id (drop 1 r.packet_records)
  bytes ← recover messages n
  ok (file_result n bytes (some (sha256 bytes)))

-- The `try` block of `finalizeLocked`: the details, and whether the payload is recovered.
unfoldable pub recover_details : (List ℕ → List ℕ) → ReceiverState → Throws (ResultDetails × Bool)
recover_details sha256 r =
    if is_text r.context.round.payload_mode
    then (do
      t ← recovered_text r.context.sender_id (drop 1 r.packet_records) []
      ok (text_result t, not (length t == 0)))
    else (do d ← recover_file_details sha256 r; ok (d, true))

unfoldable pub missing_group : RoundParameters → ℕ → Option ℕ
missing_group p i = elim p.mode [
  | native ↦ none
  | improved ↦ elim p.improved_parameters [
    | none ↦ none
    | some q ↦ some ((i - 1) / q.group_size + 1)
  ]
]

unfoldable pub report_if_missing : Option DataPacket → ℕ → Work → Ended
report_if_missing (some p) i w = returned w
report_if_missing none i w =
    queue_failure
      (record (failure_of error missing_packet_type
        (interval_of i w.receiver.context.round.packets_per_interval) i) {
          group_index = missing_group w.receiver.context.round i;
        })
      w

unfoldable pub report_missing : ℕ → ℕ → Work → Ended
report_missing zero i w = returned w
report_missing (suc n) i w =
    and_then (report_if_missing (slot w i).packet i w) (report_missing n (i + 1))

unfoldable pub close : Work → Work
close w = record w { receiver = record (w.receiver) { active = false; result_reported = true } }

-- `u32Expected - u32ReceivedPacketCount`, in 32 bits.
unfoldable pub missing_count_of : ReceiverState → ℕ
missing_count_of r =
    (r.context.round.total_packet_count + 2 ^ 32 - r.received_packet_count) % 2 ^ 32

unfoldable pub all_authenticated : ReceiverState → Bool
all_authenticated r =
    count_status r passed == r.context.round.total_packet_count
    && count_status r failed == 0
    && missing_count_of r == 0

unfoldable pub result_status : ReceiverState → Bool → ResultStatus
result_status r payload_recovered =
    if r.protocol_incomplete
    then protocol_incomplete_result
    else if not (all_authenticated r) || not payload_recovered
    then authentication_failed_result
    else completed

unfoldable pub result_of : ReceiverState → ResultStatus → ResultDetails → RuntimeResult
result_of r status details = record {
  status = status;
  expected_count = r.context.round.total_packet_count;
  received_count = r.received_packet_count;
  authenticated_count = count_status r passed;
  failed_count = count_status r failed;
  missing_count = missing_count_of r;
  details = details;
}

-- The checks of the AuthenticationRuntimeResult constructor; its message is a constant text.
unfoldable pub is_result_valid : ReceiverState → RuntimeResult → Bool
is_result_valid r result =
    not (length r.round_id == 0 || length r.context.sender_id == 0 || r.context.chain_id == 0)
    && not (result.expected_count == 0)
    && leb result.received_count result.expected_count
    && leb result.authenticated_count result.received_count
    && leb result.failed_count result.received_count
    && leb result.missing_count result.expected_count

-- The result is made of a context, and kept for the handler.
unfoldable pub push_result : RuntimeResult → Work → Ended
push_result result w =
    if_valid (is_result_valid w.receiver result) w
      (record w { results = w.results ++ (result ∷ []) })

-- The result where the slots are all judged; a recovery that throws makes the round incomplete.
unfoldable pub conclude_with : Throws (ResultDetails × Bool) → ResultDetails → Work → Ended
conclude_with (ok (found, recovered)) details w =
    push_result (result_of w.receiver (result_status w.receiver recovered) found) w
conclude_with (err e) details w =
    let w' = set_incomplete w in
    push_result (result_of w'.receiver (result_status w'.receiver false) details) w'

unfoldable pub conclude : (List ℕ → List ℕ) → ResultDetails → Work → Ended
conclude sha256 details w =
    if all_authenticated w.receiver && not w.receiver.protocol_incomplete
    then conclude_with (recover_details sha256 w.receiver) details w
    else push_result (result_of w.receiver (result_status w.receiver false) details) w
