-- ===== src/Receiver/Examples.antt =====
-- A round of two packets, one to an interval, of which the first arrives twice.
use authentication_transmiss.Receiver.Steps.{and_then, leave, if_valid}
use authentication_transmiss.Receiver.Tidy.{Reach}
use authentication_transmiss.Tesla.Input.{same_text}
use authentication_transmiss.Receiver.Native.{is_attack}
use authentication_transmiss.Udp.Decode.{decode}
use authentication_transmiss.Receiver.Baseline.{baseline_kept}
use authentication_transmiss.Receiver.Observe.{
  indexes_valid, identity_valid, is_text_valid, is_short, is_failure_valid, is_observation_valid,
  queue_failure, hex_digit, hex, candidate_hash_of, source_or_sender, status_map, slot_observation,
  queue_packet_observation, set_record, set_slot, take_event_id, record_at, slot,
}
use authentication_transmiss.Wire.{All-all_bytes, IsU32, bytes_read, u32_read, u64_read, IsByte}
use authentication_transmiss.Receiver.Finish.{missing_count_of}
use authentication_transmiss.Receiver.Tidy.{
  started, missing_count-Reach, received, Reach-Tidy, Tidy,
}
use authentication_transmiss.Receiver.Frame.{SameOrigin}
use authentication_transmiss.Udp.Packet.{create_data_packet, native_details, DataPacket}
use authentication_transmiss.Receiver.Timeline.{
  is_beyond_pause, segment_of, interval_start, is_packet_time_safe, start_round,
}
use authentication_transmiss.Receiver.Datagram.{
  arrival_failure, repeat_baseline, process_carried_key, count_received, new_record, fill_slot,
  sort_packet, process_data, process_decoded, process_datagram,
}
use authentication_transmiss.Receiver.State.{normal_sender, Work, ReceiverState, QueuedDatagram}
use authentication_transmiss.Round.Context.{text_details, ReceiverContext}
use authentication_transmiss.Tesla.KsRs.{KsRsMatrix}
use authentication_transmiss.Crypto.{sha256, CryptoProvider}
use authentication_transmiss.Udp.Context.{
  packet_carries_disclosed_key, expected_interval, create_context, native,
}
use authentication_transmiss.Round.Parameters.{create_packet_context, RoundParameters, text}
use authentication_transmiss.Prelude.{
  some, arith, ◌+◌, All, err, refl, false, replicate, none, ◌++◌, true, ok, take, [], Throws, ◌≡◌,
  ◌∷◌, List, ℕ,
}

abbrev pub toy : CryptoProvider
toy = record { algorithm = sha256; hash = λ xs. 1 ∷ xs; hmac = λ k xs. k ++ xs }

abbrev pub matrix : KsRsMatrix
matrix = record { group_size = 0; detection_threshold = 0; rows = [] }

abbrev pub first_bytes : List ℕ → List ℕ
first_bytes xs = take 40 xs

abbrev pub two_packets : RoundParameters
two_packets = record {
  algorithm = sha256;
  mode = native;
  total_packet_count = 2;
  packets_per_interval = 1;
  disclosure_delay = 1;
  interval_milliseconds = 100;
  start_timestamp_milliseconds = 0;
  data_interval_count = 2;
  improved_parameters = none;
  payload_mode = text;
}

abbrev pub context : ReceiverContext
context = record {
  sender_id = 65 ∷ [];
  sender_ip_address = 49 ∷ [];
  chain_id = 7;
  commitment_key = [];
  round = two_packets;
  payload = text_details 2;
}

abbrev pub idle_state : ReceiverState
idle_state = record {
  context = context;
  round_id = [];
  packet_records = [];
  additional_candidates = [];
  disclosed_keys = [];
  verified_intervals = [];
  timeline = [];
  pause_after_interval = none;
  pause_timestamp = 0;
  clock_tolerance = 0;
  received_packet_count = 0;
  active = false;
  paused = false;
  protocol_incomplete = false;
  result_reported = false;
}

abbrev beginning : Work
beginning = record {
  receiver = start_round idle_state (82 ∷ []) 1000 10;
  observing = true;
  next_event_id = 1;
  observations = [];
  results = [];
}

abbrev datagram : List ℕ
datagram =
    0 ∷ 0 ∷ 0 ∷ 0 ∷ 0 ∷ 0 ∷ 0 ∷ 7 ∷ 0 ∷ 0 ∷ 0 ∷ 1 ∷ 0 ∷ 0 ∷ 0 ∷ 1 ∷ replicate 32 72
    ++ replicate 32 9

abbrev arrival : QueuedDatagram
arrival = record {
  datagram = datagram;
  receive_timestamp = 1005;
  actual_source_ip = 49 ∷ [];
  source = normal_sender;
}

abbrev result_or : Work → Throws Work → Work
result_or w (ok w') = w'
result_or w (err e) = w

once : Work
once = result_or beginning (process_datagram toy matrix first_bytes arrival beginning)

once_ok : process_datagram toy matrix first_bytes arrival beginning ≡ ok once
unfolding once start_round process_datagram create_packet_context create_context process_decoded
    decode u64_read u32_read expected_interval packet_carries_disclosed_key bytes_read
    create_data_packet process_data is_packet_time_safe interval_start segment_of is_beyond_pause
    sort_packet slot record_at fill_slot new_record take_event_id set_slot set_record count_received
    queue_packet_observation slot_observation status_map source_or_sender process_carried_key
    is_attack candidate_hash_of hex hex_digit same_text repeat_baseline queue_failure
    arrival_failure if_valid leave and_then is_observation_valid is_failure_valid is_short
    is_text_valid identity_valid indexes_valid
once_ok = refl

twice : Work
twice = result_or once (process_datagram toy matrix first_bytes arrival once)

twice_ok : process_datagram toy matrix first_bytes arrival once ≡ ok twice
unfolding once twice start_round process_datagram create_packet_context create_context
    process_decoded decode u64_read u32_read expected_interval packet_carries_disclosed_key
    bytes_read create_data_packet process_data is_packet_time_safe interval_start segment_of
    is_beyond_pause sort_packet slot record_at fill_slot new_record take_event_id set_slot
    set_record count_received queue_packet_observation slot_observation status_map source_or_sender
    process_carried_key is_attack candidate_hash_of hex hex_digit same_text repeat_baseline
    queue_failure arrival_failure if_valid leave and_then is_observation_valid is_failure_valid
    is_short is_text_valid identity_valid indexes_valid
twice_ok = refl

-- The packet that the datagram holds.
abbrev sent : DataPacket
sent = record {
  header = record { chain_id = 7; interval_index = 1; packet_index = 1 };
  message = replicate 32 72;
  disclosed_key = none;
  details = native_details (replicate 32 9);
}

stored : (slot once 1).packet ≡ some sent
unfolding once start_round process_datagram create_packet_context create_context process_decoded
    decode u64_read u32_read expected_interval packet_carries_disclosed_key bytes_read
    create_data_packet process_data is_packet_time_safe interval_start segment_of is_beyond_pause
    sort_packet slot record_at fill_slot new_record take_event_id set_slot set_record count_received
    queue_packet_observation slot_observation status_map source_or_sender process_carried_key
    is_attack candidate_hash_of hex hex_digit same_text repeat_baseline queue_failure
    arrival_failure if_valid leave and_then is_observation_valid is_failure_valid is_short
    is_text_valid identity_valid indexes_valid
stored = refl

-- The second copy is counted.
counted : (slot twice 1).duplicate_count ≡ 2
unfolding once twice start_round process_datagram create_packet_context create_context
    process_decoded decode u64_read u32_read expected_interval packet_carries_disclosed_key
    bytes_read create_data_packet process_data is_packet_time_safe interval_start segment_of
    is_beyond_pause sort_packet slot record_at fill_slot new_record take_event_id set_slot
    set_record count_received queue_packet_observation slot_observation status_map source_or_sender
    process_carried_key is_attack candidate_hash_of hex hex_digit same_text repeat_baseline
    queue_failure arrival_failure if_valid leave and_then is_observation_valid is_failure_valid
    is_short is_text_valid identity_valid indexes_valid
counted = refl

datagram_bytes : All IsByte datagram
datagram_bytes = All-all_bytes datagram refl

once-IsU32 : IsU32 once.receiver.context.round.total_packet_count
unfolding once start_round process_datagram create_packet_context create_context process_decoded
    decode u64_read u32_read expected_interval packet_carries_disclosed_key bytes_read
    create_data_packet process_data is_packet_time_safe interval_start segment_of is_beyond_pause
    sort_packet slot record_at fill_slot new_record take_event_id set_slot set_record count_received
    queue_packet_observation slot_observation status_map source_or_sender process_carried_key
    is_attack candidate_hash_of hex hex_digit same_text repeat_baseline queue_failure
    arrival_failure if_valid leave and_then is_observation_valid is_failure_valid is_short
    is_text_valid identity_valid indexes_valid
once-IsU32 = omega arith

baseline_kept_example : SameOrigin (slot once 1) (slot twice 1)
baseline_kept_example =
    baseline_kept toy matrix first_bytes arrival once twice datagram_bytes once-IsU32 twice_ok 1
      sent stored

twice_reached : Reach toy matrix first_bytes twice
twice_reached =
    received arrival datagram_bytes
      (received arrival datagram_bytes (started idle_state (82 ∷ []) 1000 10 true 1 (omega arith))
        once_ok)
      twice_ok

Reach-Tidy_example : Tidy twice
Reach-Tidy_example = Reach-Tidy toy matrix first_bytes twice twice_reached

missing_count-Reach_example :
    missing_count_of twice.receiver + twice.receiver.received_packet_count
    ≡ twice.receiver.context.round.total_packet_count
missing_count-Reach_example = missing_count-Reach toy matrix first_bytes twice twice_reached
