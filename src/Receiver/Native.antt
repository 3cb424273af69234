-- ===== src/Receiver/Native.antt =====
-- `grpCreateReceived` and `verifyNativeIntervalLocked`, with the mapping of a data packet to an
-- input of the algorithms (UdpAuthenticationInputMapper.cpp).
use Prim.Native.Nat.{zero}
use mathlib.Core.Option.{none}
use authentication_transmiss.Tesla.Mac.{compute_packet_mac}
use authentication_transmiss.Round.Intervals.{last_packet, first_packet}
use authentication_transmiss.Receiver.Observe.{
  set_slot, slot_observation, failure_of, candidates_at, status_map, slot, record_at, queue_failure,
  set_candidates, candidate_observation, queue_packet_observation,
}
use authentication_transmiss.Tesla.Native.{
  is_passed, verify_native, create_native_details, NativeVerification,
}
use authentication_transmiss.Tesla.Input.{
  create_group_input, create_packet_input, GroupInput, PacketInput,
}
use authentication_transmiss.Crypto.{digest_equals, CryptoProvider}
use authentication_transmiss.Udp.Packet.{
  improved_details, DataPacket, native_details, AuthenticationDetails,
}
use authentication_transmiss.Receiver.Steps.{and_then, returned, with_value, Ended}
use authentication_transmiss.Tesla.Native
use authentication_transmiss.Receiver.State.{
  mac_failed_type, tampered_variant, error, normal_sender, attack_injection, Work, PacketRecord,
  CandidateRecord, PacketSource, ReceiverState, passed, failed,
}
use authentication_transmiss.Prelude.{
  ◌-◌, ◌++◌, ◌+◌, if◌then◌else◌, ◌>>=◌, false, ◌∷◌, true, suc, some, ok, Throws, Bool, [], Option,
  List, ℕ,
}

unfoldable pub map_data_packet : List ℕ → DataPacket → Throws PacketInput
map_data_packet sender_id p = create_packet_input (record {
  sender_id = sender_id;
  chain_id = p.chain_id;
  interval_index = p.interval_index;
  packet_index = p.packet_index;
  message = p.message;
})

unfoldable pub map_slot : List ℕ → Option DataPacket → Throws (Option PacketInput)
map_slot sender_id none = ok none
map_slot sender_id (some p) = do q ← map_data_packet sender_id p; ok (some q)

-- The slots of n packets from one on.
unfoldable pub received_slots :
    List ℕ → List PacketRecord → ℕ → ℕ → Throws (List (Option PacketInput))
received_slots sender_id records zero i = ok []
received_slots sender_id records (suc n) i = do
  q ← map_slot sender_id (record_at records i).packet
  rest ← received_slots sender_id records n (i + 1)
  ok (q ∷ rest)

unfoldable pub create_received : ReceiverState → ℕ → ℕ → ℕ → ℕ → Throws GroupInput
create_received r interval_index group_index first last = do
  slots ← received_slots r.context.sender_id r.packet_records (last + 1 - first) first
  create_group_input (record {
    sender_id = r.context.sender_id;
    chain_id = r.context.chain_id;
    interval_index = interval_index;
    group_index = group_index;
    first_packet_index = first;
    packet_slots = slots;
  })

unfoldable pub native_mac : AuthenticationDetails → Option (List ℕ)
native_mac (native_details mac) = some mac
native_mac (improved_details group) = none

unfoldable pub slot_mac : Option DataPacket → Option (List ℕ)
slot_mac none = none
slot_mac (some p) = native_mac p.details

unfoldable pub received_macs : List PacketRecord → ℕ → ℕ → List (Option (List ℕ))
received_macs records zero i = []
received_macs records (suc n) i =
    slot_mac (record_at records i).packet ∷ received_macs records n (i + 1)

unfoldable pub native_result :
    CryptoProvider → ReceiverState → ℕ → List ℕ → Throws NativeVerification
native_result c r interval_index data_key = do
  let first = first_packet r.context.round interval_index
  let last = last_packet r.context.round interval_index
  g ← create_received r interval_index interval_index first last
  d ← create_native_details (received_macs r.packet_records (last + 1 - first) first)
  verify_native c g d data_key

unfoldable pub report_mac_failure : ℕ → ℕ → PacketRecord → DataPacket → Work → Ended
report_mac_failure interval_index i r p w =
    with_value w (map_data_packet w.receiver.context.sender_id p) (λ q.
      queue_failure
        (record (failure_of error mac_failed_type interval_index p.packet_index) {
          packet_event_id = r.observation_event_id;
          candidate_hash = r.candidate_hash;
          duplicate_count = r.duplicate_count;
          actual_source_ip = r.actual_source_ip;
        })
        w)

-- One round of the loop over the statuses, for the slot i; an empty slot is passed over.
unfoldable pub apply_to : Option DataPacket → ℕ → ℕ → Bool → Work → Ended
apply_to none interval_index i ok? w = returned w
apply_to (some p) interval_index i ok? w =
    let r = record (slot w i) { status = if ok? then passed else failed } in
    and_then (queue_packet_observation (slot_observation p r) (set_slot i r w))
      (λ w'. if ok? then returned w' else report_mac_failure interval_index i r p w')

unfoldable pub apply_statuses : ℕ → ℕ → List Native.PacketStatus → Work → Ended
apply_statuses interval_index i [] w = returned w
apply_statuses interval_index i (s ∷ statuses) w =
    and_then (apply_to (slot w i).packet interval_index i (is_passed s) w)
      (apply_statuses interval_index (i + 1) statuses)

-- A candidate's MAC against the one computed with the disclosed key.
unfoldable pub candidate_passes :
    CryptoProvider → List ℕ → AuthenticationDetails → PacketInput → Bool
candidate_passes c data_key (native_details mac) q =
    digest_equals mac (compute_packet_mac c data_key q)
candidate_passes c data_key (improved_details group) q = false

unfoldable pub is_attack : PacketSource → Bool
is_attack attack_injection = true
is_attack normal_sender = false

unfoldable pub report_candidate : ℕ → ℕ → CandidateRecord → Bool → Work → Ended
report_candidate interval_index i r passes w =
    and_then (queue_packet_observation (candidate_observation r (status_map r.status)) w) (λ w'.
      if passes
      then returned w'
      else queue_failure
          (record (failure_of error
            (if is_attack r.source then tampered_variant else mac_failed_type) interval_index i) {
              packet_event_id = r.observation_event_id;
              candidate_hash = r.candidate_hash;
              duplicate_count = r.duplicate_count;
              actual_source_ip = r.actual_source_ip;
            })
          w')

-- The candidates of packet i in order, with those already judged, which stay so if one throws.
unfoldable pub judge_candidates :
    CryptoProvider → List ℕ → ℕ → ℕ → List CandidateRecord → List CandidateRecord → Work → Ended
judge_candidates c data_key interval_index i judged [] w = returned (set_candidates i judged w)
judge_candidates c data_key interval_index i judged (r ∷ rs) w =
    with_value (set_candidates i (judged ++ (r ∷ rs)) w)
      (map_data_packet w.receiver.context.sender_id r.candidate)
      (λ q.
        let passes = candidate_passes c data_key r.candidate.details q in
        let r' = record r { status = if passes then passed else failed } in
        and_then
          (report_candidate interval_index i r' passes (set_candidates i (judged ++ (r' ∷ rs)) w))
          (judge_candidates c data_key interval_index i (judged ++ (r' ∷ [])) rs))

unfoldable pub judge_slot : CryptoProvider → List ℕ → ℕ → ℕ → List CandidateRecord → Work → Ended
judge_slot c data_key interval_index i [] w = returned w
judge_slot c data_key interval_index i (r ∷ rs) w =
    judge_candidates c data_key interval_index i [] (r ∷ rs) w

unfoldable pub judge_slots : CryptoProvider → List ℕ → ℕ → ℕ → ℕ → Work → Ended
judge_slots c data_key interval_index zero i w = returned w
judge_slots c data_key interval_index (suc n) i w =
    and_then (judge_slot c data_key interval_index i (candidates_at w i) w)
      (judge_slots c data_key interval_index n (i + 1))

unfoldable pub verify_native_interval : CryptoProvider → ℕ → List ℕ → Work → Ended
verify_native_interval c interval_index data_key w =
    with_value w (native_result c w.receiver interval_index data_key) (λ v.
      let first = first_packet w.receiver.context.round interval_index in
      let last = last_packet w.receiver.context.round interval_index in
      and_then (apply_statuses interval_index first v.packet_statuses w)
        (judge_slots c data_key interval_index (last + 1 - first) first))
