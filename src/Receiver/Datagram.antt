-- ===== src/Receiver/Datagram.antt =====
-- `processDatagramLocked`, from a queued datagram of a context to its slots, candidates and keys. An
-- exception that it lets out ends the worker thread, and with it the process.
use authentication_transmiss.Receiver.Steps.{returned, and_then, leave, Ended}
use authentication_transmiss.Udp.Decode.{decode}
use authentication_transmiss.Round.Parameters.{create_packet_context}
use authentication_transmiss.Receiver.Timeline.{is_packet_time_safe}
use authentication_transmiss.Receiver.Native.{is_attack}
use authentication_transmiss.Receiver.Keys.{process_disclosed_key}
use authentication_transmiss.Tesla.Input.{same_text}
use authentication_transmiss.Wire.Failure.{Decoded}
use authentication_transmiss.Tesla.KsRs.{KsRsMatrix}
use authentication_transmiss.Receiver.Observe.{
  set_incomplete, candidate_hash_of, set_slot, status_map, take_event_id, slot_observation,
  failure_of, candidate_observation, candidates_at, queue_packet_observation, slot, set_candidates,
  queue_failure,
}
use authentication_transmiss.Crypto.{CryptoProvider}
use authentication_transmiss.Udp.Packet.{
  disclosure_packet, DisclosurePacket, data_packet, DataPacket, Packet,
}
use authentication_transmiss.Receiver.State.{
  replay_late, replay_duplicate, tampered_variant, protocol_error, warning, error, PacketFailure,
  PacketObservation, FailureType, PacketStatus, QueuedDatagram, PacketRecord, CandidateRecord, Work,
  Severity, pending, passed, failed,
}
use authentication_transmiss.Prelude.{
  ◌>>=◌, ◌||◌, runtime_error, ok, not, ◌^◌, length, err, [], none, leb, ◌%◌, if◌then◌else◌, ◌++◌,
  Throws, ◌∷◌, Bool, Option, some, ◌+◌, List, ℕ,
}

-- `MAX_CANDIDATE_VERSIONS_PER_PACKET`, the baseline counted in.
abbrev pub max_candidate_versions : ℕ
max_candidate_versions = 4

unfoldable pub find_candidate : List ℕ → List CandidateRecord → Option CandidateRecord
find_candidate hash [] = none
find_candidate hash (r ∷ rs) =
    if same_text r.candidate_hash hash then some r else find_candidate hash rs

unfoldable pub bump : CandidateRecord → CandidateRecord
bump r = record r { duplicate_count = (r.duplicate_count + 1) % 2 ^ 32 }

unfoldable pub bump_candidate : List ℕ → List CandidateRecord → List CandidateRecord
bump_candidate hash [] = []
bump_candidate hash (r ∷ rs) =
    if same_text r.candidate_hash hash then bump r ∷ rs else r ∷ bump_candidate hash rs

-- What is known of a data packet when it is sorted into its slot.
pub record Arrival : Type 0 where
  pub packet : DataPacket
  pub datagram : QueuedDatagram
  pub hash : List ℕ

-- The observation of the datagram itself, under an event number.
unfoldable pub datagram_observation : Packet → QueuedDatagram → ℕ → PacketStatus → PacketObservation
datagram_observation p q id status = record {
  event_id = id;
  receive_timestamp = q.receive_timestamp;
  actual_source_ip = q.actual_source_ip;
  source = q.source;
  packet = p;
  status = status;
  duplicate_count = 1;
  raw_datagram = q.datagram;
}

unfoldable pub arrival_failure : Severity → FailureType → Arrival → PacketFailure
arrival_failure severity failure a =
    record (failure_of severity failure a.packet.interval_index a.packet.packet_index) {
      candidate_hash = a.hash;
    }

unfoldable pub new_candidate : Arrival → ℕ → CandidateRecord
new_candidate a id = record {
  candidate = a.packet;
  status = pending;
  raw_datagram = a.datagram.datagram;
  receive_timestamp = a.datagram.receive_timestamp;
  observation_event_id = id;
  candidate_hash = a.hash;
  duplicate_count = 1;
  actual_source_ip = a.datagram.actual_source_ip;
  source = a.datagram.source;
}

-- A new version beside the baseline, where the limit leaves room for one.
unfoldable pub push_candidate : Arrival → Work → Ended
push_candidate a w =
    let id = w.next_event_id in
    let w1 =
      set_candidates a.packet.packet_index
        (candidates_at w a.packet.packet_index ++ (new_candidate a id ∷ [])) (take_event_id w) in
    queue_packet_observation (datagram_observation (data_packet a.packet) a.datagram id pending) w1

unfoldable pub is_full : List CandidateRecord → Bool
is_full cs = leb max_candidate_versions (length cs + 1)

unfoldable pub refuse_candidate : Arrival → Work → Ended
refuse_candidate a w = queue_failure (arrival_failure error tampered_variant a) w

-- The datagram of the baseline again.
unfoldable pub repeat_baseline : Arrival → DataPacket → Work → Ended
repeat_baseline a p w =
    let r = record (slot w a.packet.packet_index) {
      duplicate_count = ((slot w a.packet.packet_index).duplicate_count + 1) % 2 ^ 32;
    } in
    and_then (queue_packet_observation (slot_observation p r) (set_slot a.packet.packet_index r w))
      (queue_failure (record (arrival_failure warning replay_duplicate a) {
        packet_event_id = r.observation_event_id;
        duplicate_count = r.duplicate_count;
        actual_source_ip = r.actual_source_ip;
      }))

-- The datagram of a candidate again, beside a baseline and before there is one.
unfoldable pub repeat_conflict : Arrival → CandidateRecord → Work → Ended
repeat_conflict a r w =
    let i = a.packet.packet_index in
    let w1 = set_candidates i (bump_candidate a.hash (candidates_at w i)) w in
    and_then (queue_packet_observation (candidate_observation (bump r) failed) w1) (
      queue_failure (record (arrival_failure warning replay_duplicate a) {
        packet_event_id = r.observation_event_id;
        duplicate_count = (bump r).duplicate_count;
        actual_source_ip = r.actual_source_ip;
      }))

unfoldable pub repeat_early : Arrival → CandidateRecord → Work → Ended
repeat_early a r w =
    let i = a.packet.packet_index in
    queue_packet_observation (candidate_observation (bump r) (status_map r.status))
      (set_candidates i (bump_candidate a.hash (candidates_at w i)) w)

unfoldable pub keep_conflict : Arrival → Work → Ended
keep_conflict a w = and_then (push_candidate a w) (
    queue_failure
      (record (arrival_failure error tampered_variant a) { packet_event_id = w.next_event_id }))

unfoldable pub sort_conflict : Arrival → Work → Ended
sort_conflict a w =
    let cs = candidates_at w a.packet.packet_index in
    elim (find_candidate a.hash cs) [
      | some r ↦ repeat_conflict a r w
      | none ↦ if is_full cs then refuse_candidate a w else keep_conflict a w
    ]

unfoldable pub sort_early : Arrival → Work → Ended
sort_early a w =
    let cs = candidates_at w a.packet.packet_index in
    elim (find_candidate a.hash cs) [
      | some r ↦ repeat_early a r w
      | none ↦ if is_full cs then refuse_candidate a w else push_candidate a w
    ]

unfoldable pub new_record : Arrival → ℕ → PacketRecord
new_record a id = record {
  packet = some a.packet;
  status = pending;
  raw_datagram = a.datagram.datagram;
  receive_timestamp = a.datagram.receive_timestamp;
  observation_event_id = id;
  candidate_hash = a.hash;
  duplicate_count = 1;
  actual_source_ip = a.datagram.actual_source_ip;
  source = a.datagram.source;
}

unfoldable pub count_received : Work → Work
count_received w = record w {
  receiver = record (w.receiver) {
    received_packet_count = (w.receiver.received_packet_count + 1) % 2 ^ 32;
  };
}

unfoldable pub fill_slot : Arrival → Work → Ended
fill_slot a w =
    let r = new_record a w.next_event_id in
    queue_packet_observation (slot_observation a.packet r)
      (count_received (set_slot a.packet.packet_index r (take_event_id w)))

unfoldable pub reject_late : Arrival → Work → Ended
reject_late a w =
    let id = w.next_event_id in
    and_then
      (queue_packet_observation (datagram_observation (data_packet a.packet) a.datagram id failed)
        (take_event_id (set_incomplete w)))
      (queue_failure (record (arrival_failure error replay_late a) {
        packet_event_id = id;
        actual_source_ip = a.datagram.actual_source_ip;
      }))

unfoldable pub reject_undecodable : QueuedDatagram → Work → Ended
reject_undecodable q w =
    queue_failure
      (record (failure_of error protocol_error 0 0) { actual_source_ip = q.actual_source_ip })
      (set_incomplete w)

module _ (c : CryptoProvider) (m : KsRsMatrix) (sha256 : List ℕ → List ℕ) where
  unfoldable pub process_carried_key : Option (List ℕ) → ℕ → Work → Throws Work
  process_carried_key none interval w = ok w
  process_carried_key (some key) interval w =
      let (accepted, w') = process_disclosed_key c m sha256 interval key w in
      accepted >>= (λ b. ok w')

  -- A data packet in time, by what its slot holds.
  unfoldable pub sort_packet : PacketRecord → Option DataPacket → Arrival → Work → Throws Work
  sort_packet r (some p) a w =
      if same_text r.candidate_hash a.hash
      then leave (repeat_baseline a p w)
      else leave (sort_conflict a w)
  sort_packet r none a w =
      if is_attack a.datagram.source
      then leave (sort_early a w)
      else leave (fill_slot a w)
        >>= process_carried_key a.packet.disclosed_key a.packet.interval_index

  unfoldable pub process_data : Arrival → Work → Throws Work
  process_data a w =
      if not (is_packet_time_safe w.receiver a.packet.interval_index a.datagram.receive_timestamp)
      then leave (reject_late a w)
      else sort_packet (slot w a.packet.packet_index) (slot w a.packet.packet_index).packet a w

  unfoldable pub report_disclosure : DisclosurePacket → QueuedDatagram → Bool → Work → Ended
  report_disclosure p q accepted w =
      let id = w.next_event_id in
      and_then
        (queue_packet_observation
          (datagram_observation (disclosure_packet p) q id (if accepted then passed else failed))
          (take_event_id w))
        (λ w1.
          if accepted
          then returned w1
          else queue_failure
              (record (failure_of error protocol_error p.interval_index 0) {
                packet_event_id = id;
                candidate_hash = candidate_hash_of sha256 q.datagram;
              })
              w1)

  unfoldable pub process_disclosure : DisclosurePacket → QueuedDatagram → Work → Throws Work
  process_disclosure p q w =
      let (accepted, w') = process_disclosed_key c m sha256 p.interval_index p.disclosed_key w in
      accepted >>= (λ b. leave (report_disclosure p q b w'))

  unfoldable pub process_decoded : Option (Decoded Packet) → QueuedDatagram → Work → Throws Work
  process_decoded none q w = err runtime_error
  process_decoded (some (err e)) q w = leave (reject_undecodable q w)
  process_decoded (some (ok (disclosure_packet p))) q w = process_disclosure p q w
  process_decoded (some (ok (data_packet p))) q w =
      process_data (record { packet = p; datagram = q; hash = candidate_hash_of sha256 q.datagram })
        w

  unfoldable pub process_datagram : QueuedDatagram → Work → Throws Work
  process_datagram q w = if not w.receiver.active || w.receiver.result_reported then ok w else (do
    pc ← create_packet_context w.receiver.context.round
    process_decoded (decode q.datagram pc) q w)
