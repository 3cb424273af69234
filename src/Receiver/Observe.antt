-- ===== src/Receiver/Observe.antt =====
-- How the receiver reads and writes its slots and candidates, and how it queues what it reports.
use authentication_transmiss.Receiver.Steps.{returned, if_valid, Ended}
use Prim.Native.Nat.{zero}
use mathlib.Core.List.{[]}
use authentication_transmiss.Udp.Packet.{disclosure_packet, Packet, data_packet, DataPacket}
use authentication_transmiss.Receiver.State.{
  ReceiverState, failed, passed, packet_failure, empty, packet_observation, empty_record, pending,
  FailureType, PacketObservation, Severity, PacketFailure, PacketRecord, CandidateRecord,
  PacketStatus, Work,
}
use authentication_transmiss.Prelude.{
  ◌||◌, length, leb, not, ◌&&◌, Bool, some, none, ◌==◌, ◌^◌, ◌/◌, [], suc, ◌%◌, ◌++◌, assign, ltb,
  find, ◌∷◌, List, ◌+◌, if◌then◌else◌, true, ℕ,
}

-- `HEX_DIGITS[n]` in ASCII.
unfoldable pub hex_digit : ℕ → ℕ
hex_digit n = if ltb n 10 then 48 + n else 87 + n

unfoldable pub hex : List ℕ → List ℕ
hex [] = []
hex (b ∷ bs) = hex_digit (b / 16) ∷ hex_digit (b % 16) ∷ hex bs

-- `strCandidateHash`, with SHA-256 as its parameter.
unfoldable pub candidate_hash_of : (List ℕ → List ℕ) → List ℕ → List ℕ
candidate_hash_of sha256 raw_datagram = hex (sha256 raw_datagram)

-- `vecPacketRecords[i]`; the decoder and the loops keep the index within the round.
unfoldable pub record_at : List PacketRecord → ℕ → PacketRecord
record_at [] i = empty_record
record_at (r ∷ rs) zero = r
record_at (r ∷ rs) (suc i) = record_at rs i

unfoldable pub set_record : ℕ → PacketRecord → List PacketRecord → List PacketRecord
set_record i r [] = []
set_record zero r (old ∷ rs) = r ∷ rs
set_record (suc i) r (old ∷ rs) = old ∷ set_record i r rs

unfoldable pub slot : Work → ℕ → PacketRecord
slot w i = record_at w.receiver.packet_records i

unfoldable pub set_slot : ℕ → PacketRecord → Work → Work
set_slot i r w = record w {
  receiver = record (w.receiver) { packet_records = set_record i r w.receiver.packet_records };
}

-- The candidates of a packet, none where the map has no entry.
unfoldable pub candidates_at : Work → ℕ → List CandidateRecord
candidates_at w i = elim (find ◌==◌ i w.receiver.additional_candidates) [ none ↦ [] | some cs ↦ cs ]

unfoldable pub set_candidates : ℕ → List CandidateRecord → Work → Work
set_candidates i cs w = record w {
  receiver = record (w.receiver) {
    additional_candidates = assign ◌==◌ i cs w.receiver.additional_candidates;
  };
}

unfoldable pub set_incomplete : Work → Work
set_incomplete w = record w { receiver = record (w.receiver) { protocol_incomplete = true } }

-- The result of `statusMap`, in the words of PacketStatus.
unfoldable pub status_map : PacketStatus → PacketStatus
status_map empty = pending
status_map pending = pending
status_map passed = passed
status_map failed = failed

-- A number is taken for every event that calls this, whether it is then reported or not.
unfoldable pub take_event_id : Work → Work
take_event_id w = record w { next_event_id = (w.next_event_id + 1) % 2 ^ 64 }

-- An empty source address stands for the sender's.
unfoldable pub source_or_sender : Work → List ℕ → List ℕ
source_or_sender w [] = w.receiver.context.sender_ip_address
source_or_sender w (x ∷ xs) = x ∷ xs

-- `validateText`, where an empty text is allowed and where it is not.
unfoldable pub is_short : List ℕ → Bool
is_short text = leb (length text) 2048

unfoldable pub is_text_valid : List ℕ → Bool
is_text_valid text = not (length text == 0) && is_short text

-- The indexes that an observation has of a packet: a disclosure has no packet index.
unfoldable pub indexes_valid : Packet → Bool
indexes_valid (data_packet p) = not (p.interval_index == 0) && not (p.packet_index == 0)
indexes_valid (disclosure_packet p) = not (p.interval_index == 0)

-- The members of the context that every observation repeats.
unfoldable pub identity_valid : ReceiverState → Bool
identity_valid r =
    is_text_valid r.round_id && is_text_valid r.context.sender_id && not (r.context.chain_id == 0)

-- The checks of the PacketObservationControlDetails constructor. The reason is a constant text, the
-- hash is the 64 digits of a SHA-256, and the peer is the source address.
unfoldable pub is_observation_valid : ReceiverState → PacketObservation → Bool
is_observation_valid r o =
    identity_valid r
    && is_short r.context.sender_ip_address
    && is_text_valid o.actual_source_ip
    && not (length o.raw_datagram == 0)
    && indexes_valid o.packet
    && not (o.event_id == 0 || o.receive_timestamp == 0 || o.duplicate_count == 0)
    && not (r.context.round.packets_per_interval == 0 || r.context.round.disclosure_delay == 0)

unfoldable pub queue_packet_observation : PacketObservation → Work → Ended
queue_packet_observation o w =
    let o' = record o { actual_source_ip = source_or_sender w o.actual_source_ip } in
    if w.observing
    then if_valid (is_observation_valid w.receiver o') w
        (record w { observations = w.observations ++ (packet_observation o' ∷ []) })
    else returned w

-- The checks of the PacketFailureControlDetails constructor. The reason and the digests of tags are
-- short texts, and the time of the report is not 0.
unfoldable pub is_failure_valid : ReceiverState → PacketFailure → Bool
is_failure_valid r f =
    is_short r.round_id
    && is_short r.context.sender_id
    && is_short r.context.sender_ip_address
    && is_short f.actual_source_ip
    && is_short f.candidate_hash
    && not (f.event_id == 0 || f.duplicate_count == 0)

unfoldable pub queue_failure : PacketFailure → Work → Ended
queue_failure f w =
    let f' = record f {
      event_id = w.next_event_id;
      actual_source_ip = source_or_sender w f.actual_source_ip;
    } in
    if w.observing
    then if_valid (is_failure_valid w.receiver f') (take_event_id w)
        (take_event_id (record w { observations = w.observations ++ (packet_failure f' ∷ []) }))
    else returned w

-- The failure of a call with the default arguments; its number is given when it is queued.
abbrev pub failure_of : Severity → FailureType → ℕ → ℕ → PacketFailure
failure_of severity failure interval_index packet_index = record {
  event_id = 0;
  packet_event_id = 0;
  severity = severity;
  failure = failure;
  actual_source_ip = [];
  interval_index = interval_index;
  packet_index = packet_index;
  group_index = none;
  candidate_hash = [];
  located = [];
  duplicate_count = 1;
}

-- The observation of a slot's packet and that of a candidate, from the record's members.
unfoldable pub slot_observation : DataPacket → PacketRecord → PacketObservation
slot_observation p r = record {
  event_id = r.observation_event_id;
  receive_timestamp = r.receive_timestamp;
  actual_source_ip = r.actual_source_ip;
  source = r.source;
  packet = data_packet p;
  status = status_map r.status;
  duplicate_count = r.duplicate_count;
  raw_datagram = r.raw_datagram;
}

unfoldable pub candidate_observation : CandidateRecord → PacketStatus → PacketObservation
candidate_observation r status = record {
  event_id = r.observation_event_id;
  receive_timestamp = r.receive_timestamp;
  actual_source_ip = r.actual_source_ip;
  source = r.source;
  packet = data_packet r.candidate;
  status = status;
  duplicate_count = r.duplicate_count;
  raw_datagram = r.raw_datagram;
}
