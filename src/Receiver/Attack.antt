-- ===== src/Receiver/Attack.antt =====
-- The second half of `verifyImprovedIntervalLocked`: the group as the attack candidates would have
-- it, and the loop over the groups of an interval. The matrix is the strategy's, of the round's
-- group size and threshold.
use authentication_transmiss.Round.Parameters.{ImprovedParameters}
use authentication_transmiss.Round.Intervals.{last_packet, first_packet}
use Prim.Native.Nat.{zero}
use authentication_transmiss.Receiver.Native.{map_slot, is_attack, create_received}
use authentication_transmiss.Tesla.Native.{improved_authentication, TeslaAuthenticationDetails}
use authentication_transmiss.Receiver.Observe.{
  candidate_observation, queue_failure, slot, set_incomplete, failure_of, queue_packet_observation,
  candidates_at, set_candidates,
}
use authentication_transmiss.Tesla.Input.{create_group_input, PacketInput, GroupInput}
use authentication_transmiss.Udp.Packet.{DataPacket}
use authentication_transmiss.Tesla.KsRs.{KsRsMatrix}
use authentication_transmiss.Receiver.Improved.{
  is_fast, report_group, apply_group, located_steps, is_incomplete, group_tags,
  queue_group_observation, indexes_of,
}
use authentication_transmiss.Crypto.{CryptoProvider}
use authentication_transmiss.Tesla.Improved.{
  verify_improved, VerificationPath, ks_rs_fallback, ImprovedVerification,
}
use authentication_transmiss.Receiver.Steps.{and_then, returned, with_value, Ended}
use authentication_transmiss.Receiver.State.{
  unverifiable_missing_baseline, tampered_variant, error, warning, PacketFailure, FailureType,
  CandidateRecord, Work, Severity, failed,
}
use authentication_transmiss.Prelude.{
  ◌/◌, not, ◌^◌, ◌==◌, ◌%◌, length, runtime_error, min, ◌-◌, ◌+◌, ltb, some, err, ok, suc, ◌>>=◌,
  none, if◌then◌else◌, Throws, ◌∷◌, Option, [], List, ℕ,
}

-- The first candidate of an attack, and the list with that one failed.
unfoldable pub first_attack : List CandidateRecord → Option CandidateRecord
first_attack [] = none
first_attack (r ∷ rs) = if is_attack r.source then some r else first_attack rs

unfoldable pub fail_first_attack : List CandidateRecord → List CandidateRecord
fail_first_attack [] = []
fail_first_attack (r ∷ rs) =
    if is_attack r.source then record r { status = failed } ∷ rs else r ∷ fail_first_attack rs

unfoldable pub replaced_slot :
    List ℕ → Option CandidateRecord → Option DataPacket → Throws (Option PacketInput)
replaced_slot sender_id (some r) baseline = map_slot sender_id (some r.candidate)
replaced_slot sender_id none baseline = map_slot sender_id baseline

-- The slots of `grpCreateAttackCandidate`, and the indexes that it replaces.
unfoldable pub attack_slots : Work → ℕ → ℕ → Throws (List (Option PacketInput))
attack_slots w zero i = ok []
attack_slots w (suc n) i = do
  q ←
      replaced_slot w.receiver.context.sender_id (first_attack (candidates_at w i))
        (slot w i).packet
  rest ← attack_slots w n (i + 1)
  ok (q ∷ rest)

unfoldable pub replaced_indexes : Work → ℕ → ℕ → List ℕ
replaced_indexes w zero i = []
replaced_indexes w (suc n) i =
    let rest = replaced_indexes w n (i + 1) in
    elim (first_attack (candidates_at w i)) [ none ↦ rest | some r ↦ i ∷ rest ]

unfoldable pub create_attack_candidate : Work → ℕ → ℕ → ℕ → ℕ → Throws GroupInput
create_attack_candidate w interval_index group_index first last = do
  slots ← attack_slots w (last + 1 - first) first
  create_group_input (record {
    sender_id = w.receiver.context.sender_id;
    chain_id = w.receiver.context.chain_id;
    interval_index = interval_index;
    group_index = group_index;
    first_packet_index = first;
    packet_slots = slots;
  })

unfoldable pub attack_failure :
    Severity → FailureType → ℕ → ℕ → ℕ → CandidateRecord → List ℕ → PacketFailure
attack_failure severity failure interval_index group_index i r located =
    record (failure_of severity failure interval_index i) {
      packet_event_id = r.observation_event_id;
      group_index = some group_index;
      candidate_hash = r.candidate_hash;
      located = located;
      duplicate_count = r.duplicate_count;
      actual_source_ip = r.actual_source_ip;
    }

-- The group did not pass without the candidates: no judgement on them.
unfoldable pub report_unverifiable : ℕ → ℕ → List ℕ → Work → Ended
report_unverifiable interval_index group_index [] w = returned w
report_unverifiable interval_index group_index (i ∷ is) w =
    and_then
      (elim (first_attack (candidates_at w i)) [
        | none ↦ returned w
        | some r ↦
            queue_failure
              (attack_failure error unverifiable_missing_baseline interval_index group_index i r [])
              w
      ])
      (report_unverifiable interval_index group_index is)

-- The group passed without them: each is failed and reported.
unfoldable pub fail_attack :
    ℕ → ℕ → ImprovedVerification → List ℕ → ℕ → CandidateRecord → Work → Ended
fail_attack interval_index group_index v located i r w =
    let w1 = set_candidates i (fail_first_attack (candidates_at w i)) w in
    and_then (queue_packet_observation (candidate_observation r failed) w1) (
      queue_failure (
        attack_failure (if v.detection_threshold_exceeded then warning else error) tampered_variant
          interval_index group_index i r located))

unfoldable pub fail_attacks : ℕ → ℕ → ImprovedVerification → List ℕ → List ℕ → Work → Ended
fail_attacks interval_index group_index v located [] w = returned w
fail_attacks interval_index group_index v located (i ∷ is) w =
    and_then
      (elim (first_attack (candidates_at w i)) [
        | none ↦ returned w
        | some r ↦ fail_attack interval_index group_index v located i r w
      ])
      (fail_attacks interval_index group_index v located is)

unfoldable pub report_attack : ℕ → ℕ → ℕ → ℕ → ImprovedVerification → List ℕ → Work → Ended
report_attack interval_index group_index first last v replaced w =
    let located = indexes_of first v.rejected_positions in
    and_then
      (queue_group_observation
        (record {
          event_id = 0;
          group_index = group_index;
          first_packet = first;
          last_packet = last;
          path = ks_rs_fallback;
          fast_group_tag_matched = v.fast_group_tag_matched;
          threshold_exceeded = v.detection_threshold_exceeded;
          located = located;
          steps = located_steps first 1 v.location_steps;
        })
        w)
      (fail_attacks interval_index group_index v located replaced)

module _ (c : CryptoProvider) (m : KsRsMatrix) (data_key : List ℕ) where
  unfoldable pub judge_attack :
      ℕ → ℕ → ℕ → ℕ → TeslaAuthenticationDetails → VerificationPath → Work → Ended
  judge_attack interval_index group_index first last tags path w =
      with_value w (create_attack_candidate w interval_index group_index first last) (λ g.
        let replaced = replaced_indexes w (last + 1 - first) first in
        if length replaced == 0
        then returned w
        else if not (is_fast path)
        then report_unverifiable interval_index group_index replaced w
        else with_value w (verify_improved c m g tags data_key)
            (λ v. report_attack interval_index group_index first last v replaced w))

  unfoldable pub group_details : Work → ℕ → TeslaAuthenticationDetails
  group_details w last =
      let (taus, tag) = group_tags (slot w last).packet in improved_authentication taus tag

  unfoldable pub group_result : Work → ℕ → ℕ → ℕ → ℕ → Throws ImprovedVerification
  group_result w interval_index group_index first last = do
    g ← create_received w.receiver interval_index group_index first last
    verify_improved c m g (group_details w last) data_key

  unfoldable pub verify_group : ℕ → ℕ → ℕ → ℕ → Work → Ended
  verify_group interval_index group_index first last w =
      with_value w (group_result w interval_index group_index first last) (λ v.
        let w1 = if is_incomplete v.path then set_incomplete w else w in
        let w2 = apply_group v (last + 1 - first) first w1 in
        and_then (report_group interval_index group_index first last v w2)
          (judge_attack interval_index group_index first last (group_details w last) v.path))

  -- The groups from one on, on fuel: one for each packet that is left is enough.
  unfoldable pub verify_groups : ℕ → ℕ → ℕ → ℕ → ℕ → Work → Ended
  verify_groups group_size interval_index last zero first w = returned w
  verify_groups group_size interval_index last (suc fuel) first w =
      if ltb last first
      then returned w
      else let group_last = min last ((first + group_size - 1) % 2 ^ 32) in
        and_then (verify_group interval_index ((first - 1) / group_size + 1) first group_last w)
          (verify_groups group_size interval_index last fuel ((group_last + 1) % 2 ^ 32))

  unfoldable pub verify_improved_with : Option ImprovedParameters → ℕ → Work → Ended
  verify_improved_with none interval_index w = (w, err runtime_error)
  verify_improved_with (some q) interval_index w =
      let first = first_packet w.receiver.context.round interval_index in
      let last = last_packet w.receiver.context.round interval_index in
      verify_groups q.group_size interval_index last (last + 1 - first) first w

  unfoldable pub verify_improved_interval : ℕ → Work → Ended
  verify_improved_interval interval_index w =
      verify_improved_with w.receiver.context.round.improved_parameters interval_index w
