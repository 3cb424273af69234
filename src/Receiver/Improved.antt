-- ===== src/Receiver/Improved.antt =====
-- `verifyImprovedIntervalLocked` up to the attack candidates: a group's slots are judged as a whole,
-- then the group is reported.
use authentication_transmiss.Receiver.Steps.{returned, if_valid, and_then, Ended}
use authentication_transmiss.Round.Parameters.{ImprovedParameters}
use mathlib.Core.Option.{none}
use Prim.Native.Nat.{zero}
use mathlib.Core.List.{[]}
use authentication_transmiss.Tesla.KsRs.{LocationStep}
use authentication_transmiss.Receiver.Observe.{
  identity_valid, failure_of, slot_observation, queue_packet_observation, set_slot, queue_failure,
  slot, take_event_id,
}
use authentication_transmiss.Tesla.Improved.{
  ks_rs_fallback, fast_group_pass, incomplete_group_tags, iota, VerificationPath,
  ImprovedVerification,
}
use authentication_transmiss.Udp.Packet.{
  improved_details, DataPacket, native_details, AuthenticationDetails,
}
use authentication_transmiss.Receiver.State.{
  ReceiverState, incomplete_group_tags_type, fast_group_failed, detection_threshold_exceeded_type,
  PacketFailure, group_observation, warning, error, PacketRecord, FailureType, GroupObservation,
  Work, Severity, PacketStatus, passed, failed,
}
use authentication_transmiss.Prelude.{
  ltb, ◌||◌, ◌==◌, not, ◌&&◌, length, false, none, ◌-◌, ◌++◌, true, [], some, suc, map, Bool,
  if◌then◌else◌, ◌+◌, ◌∷◌, List, Option, ℕ,
}

-- The tags that the group's last packet carries.
unfoldable pub tags_of : AuthenticationDetails → List (List ℕ) × Option (List ℕ)
tags_of (native_details mac) = ([], none)
tags_of (improved_details none) = ([], none)
tags_of (improved_details (some g)) = (g.samd_tau, some g.fast_group_tag)

unfoldable pub group_tags : Option DataPacket → List (List ℕ) × Option (List ℕ)
group_tags none = ([], none)
group_tags (some p) = tags_of p.details

-- A slot's status, where it holds a packet.
unfoldable pub mark_filled : Option DataPacket → ℕ → PacketStatus → Work → Work
mark_filled none i status w = w
mark_filled (some p) i status w = set_slot i (record (slot w i) { status = status }) w

unfoldable pub mark_slot : ℕ → PacketStatus → Work → Work
mark_slot i status w = mark_filled (slot w i).packet i status w

unfoldable pub mark_positions : ℕ → PacketStatus → List ℕ → Work → Work
mark_positions first status [] w = w
mark_positions first status (p ∷ ps) w =
    mark_positions first status ps (mark_slot (first + p) status w)

unfoldable pub mark_range : PacketStatus → ℕ → ℕ → Work → Work
mark_range status zero i w = w
mark_range status (suc n) i w = mark_range status n (i + 1) (mark_slot i status w)

unfoldable pub apply_group : ImprovedVerification → ℕ → ℕ → Work → Work
apply_group v n first w =
    let w1 = mark_positions first passed v.authenticated_positions w in
    let w2 = mark_positions first failed v.rejected_positions w1 in
    if v.passed then mark_range passed n first w2 else w2

unfoldable pub is_incomplete : VerificationPath → Bool
is_incomplete incomplete_group_tags = true
is_incomplete fast_group_pass = false
is_incomplete ks_rs_fallback = false

unfoldable pub is_fallback : VerificationPath → Bool
is_fallback ks_rs_fallback = true
is_fallback fast_group_pass = false
is_fallback incomplete_group_tags = false

unfoldable pub is_fast : VerificationPath → Bool
is_fast fast_group_pass = true
is_fast ks_rs_fallback = false
is_fast incomplete_group_tags = false

-- Positions of a group as packet indexes.
unfoldable pub indexes_of : ℕ → List ℕ → List ℕ
indexes_of first positions = map (λ p. first + p) positions

-- The steps of the verifier as packet indexes, numbered from one on.
unfoldable pub located_steps : ℕ → ℕ → List LocationStep → List LocationStep
located_steps first number [] = []
located_steps first number (s ∷ steps) =
    record {
      scan_step = number;
      new_good_positions = indexes_of first s.new_good_positions;
      remaining_candidate_positions = indexes_of first s.remaining_candidate_positions;
    }
    ∷ located_steps first (number + 1) steps

-- With a first step in which every packet is a candidate and a last one with those that remain.
unfoldable pub fallback_steps : ℕ → ℕ → ImprovedVerification → List LocationStep
fallback_steps first n v =
    record { scan_step = 1; new_good_positions = []; remaining_candidate_positions = iota n first }
      ∷ located_steps first 2 v.location_steps
    ++ (record {
      scan_step = 2 + length v.location_steps;
      new_good_positions = [];
      remaining_candidate_positions = indexes_of first v.rejected_positions;
    }
        ∷ [])

unfoldable pub detection_threshold_of : Option ImprovedParameters → ℕ
detection_threshold_of none = 0
detection_threshold_of (some q) = q.detection_threshold

-- The checks of the ImprovedGroupObservationControlDetails constructor; the time is not 0.
unfoldable pub is_group_valid : ReceiverState → GroupObservation → Bool
is_group_valid r o =
    identity_valid r
    && not (o.event_id == 0 || o.group_index == 0)
    && not (o.first_packet == 0 || ltb o.last_packet o.first_packet)
    && not (detection_threshold_of r.context.round.improved_parameters == 0)
    && not (is_fast o.path && (not (length o.located == 0) || not (length o.steps == 0)))

-- A group's observation is queued whether or not there is a handler.
unfoldable pub queue_group_observation : GroupObservation → Work → Ended
queue_group_observation o w =
    let o' = record o { event_id = w.next_event_id } in
    if_valid (is_group_valid w.receiver o') (take_event_id w)
      (take_event_id (record w { observations = w.observations ++ (group_observation o' ∷ []) }))

unfoldable pub report_filled : Option DataPacket → ℕ → Work → Ended
report_filled none i w = returned w
report_filled (some p) i w = queue_packet_observation (slot_observation p (slot w i)) w

unfoldable pub report_range : ℕ → ℕ → Work → Ended
report_range zero i w = returned w
report_range (suc n) i w = and_then (report_filled (slot w i).packet i w) (report_range n (i + 1))

-- A failure of the group is reported at its first packet, with its last packet's event.
unfoldable pub group_failure :
    Severity → FailureType → ℕ → ℕ → ℕ → PacketRecord → List ℕ → PacketFailure
group_failure severity failure interval_index group_index first end located =
    record (failure_of severity failure interval_index first) {
      packet_event_id = end.observation_event_id;
      group_index = some group_index;
      candidate_hash = end.candidate_hash;
      located = located;
    }

unfoldable pub report_path : ℕ → ℕ → ℕ → ℕ → ImprovedVerification → Work → Ended
report_path interval_index group_index first last v w =
    if is_fallback v.path
    then queue_failure
        (group_failure error fast_group_failed interval_index group_index first (slot w last)
          (indexes_of first v.rejected_positions))
        w
    else if is_incomplete v.path
    then queue_failure
        (group_failure error incomplete_group_tags_type interval_index group_index first
          (slot w last) [])
        w
    else returned w

unfoldable pub report_threshold : ℕ → ℕ → ℕ → ℕ → ImprovedVerification → Work → Ended
report_threshold interval_index group_index first last v w =
    if v.detection_threshold_exceeded
    then queue_failure
        (group_failure warning detection_threshold_exceeded_type interval_index group_index first
          (slot w last) (indexes_of first v.rejected_positions))
        w
    else returned w

unfoldable pub report_group : ℕ → ℕ → ℕ → ℕ → ImprovedVerification → Work → Ended
report_group interval_index group_index first last v w =
    let n = last + 1 - first in
    and_then
      (queue_group_observation
        (record {
          event_id = 0;
          group_index = group_index;
          first_packet = first;
          last_packet = last;
          path = v.path;
          fast_group_tag_matched = v.fast_group_tag_matched;
          threshold_exceeded = v.detection_threshold_exceeded;
          located = indexes_of first v.rejected_positions;
          steps = if is_fallback v.path then fallback_steps first n v else [];
        })
        w)
      (λ w1. and_then (report_range n first w1) (λ w2.
        and_then (report_path interval_index group_index first last v w2)
          (report_threshold interval_index group_index first last v)))
