-- ===== src/Receiver/Frame/Improved.antt =====
-- The improved judgement of an interval leaves the frame alone, where it throws too.
use authentication_transmiss.Round.Parameters.{ImprovedParameters}
use authentication_transmiss.Receiver.Steps.{returned, Ended}
use Prim.Native.Nat.{zero}
use mathlib.Core.List.{[]}
use mathlib.Core.Option.{none}
use authentication_transmiss.Receiver.State.{passed}
use authentication_transmiss.Receiver.Observe.{take_event_id}
use authentication_transmiss.Receiver.Native.{is_attack}
use authentication_transmiss.Receiver.State.{
  GroupObservation, unverifiable_missing_baseline, error, failed,
}
use authentication_transmiss.Tesla.Native.{TeslaAuthenticationDetails}
use authentication_transmiss.Tesla.Improved.{VerificationPath, ImprovedVerification}
use authentication_transmiss.Crypto.{CryptoProvider}
use authentication_transmiss.Receiver.Attack.{
  verify_improved_with, attack_failure, replaced_indexes, first_attack, judge_attack,
  verify_improved_interval, verify_group, verify_groups, report_attack, fail_attack, fail_attacks,
  report_unverifiable, fail_first_attack,
}
use authentication_transmiss.Tesla.KsRs.{KsRsMatrix}
use authentication_transmiss.Receiver.Improved.{
  mark_slot, is_fast, is_incomplete, is_fallback, mark_positions, mark_range, apply_group,
  report_range, report_group, mark_filled, report_threshold, report_path, report_filled,
  queue_group_observation,
}
use authentication_transmiss.Receiver.Frame.{
  if_valid-Judged, same_state-Judged, queue_failure, set_incomplete-Judged, set_incomplete,
  queue_packet_observation-Judged, set_slot-Judged, candidates_at, queue_failure-Judged,
  set_candidates-Judged, Judged-trans, CandidateRecord, DataPacket, Judged-refl, PacketStatus, Work,
  take_event_id, Judged,
}
use authentication_transmiss.Receiver.Frame.Native.{and_then-Judged, with_value-Judged}
use authentication_transmiss.Prelude.{
  refl, not, ◌==◌, ap, ◌-◌, ◌≡◌, ◌+◌, ltb, length, ◌∷◌, suc, if◌then◌else◌, some, if_ind, Option,
  List, ℕ,
}

mark_filled-Judged :
    (o : Option DataPacket) (i : ℕ) (s : PacketStatus) (w : Work) → Judged w (mark_filled o i s w)
unfolding mark_filled
mark_filled-Judged none i s w = Judged-refl w
mark_filled-Judged (some p) i s w = set_slot-Judged i _ w refl

mark_slot-Judged : (i : ℕ) (s : PacketStatus) (w : Work) → Judged w (mark_slot i s w)
unfolding mark_slot
mark_slot-Judged i s w = mark_filled-Judged _ i s w

mark_positions-Judged :
    (first : ℕ) (s : PacketStatus) (ps : List ℕ) (w : Work) → Judged w (mark_positions first s ps w)
unfolding mark_positions
mark_positions-Judged first s [] w = Judged-refl w
mark_positions-Judged first s (p ∷ ps) w =
    Judged-trans (mark_slot-Judged (first + p) s w) (mark_positions-Judged first s ps _)

mark_range-Judged : (s : PacketStatus) (n i : ℕ) (w : Work) → Judged w (mark_range s n i w)
unfolding mark_range
mark_range-Judged s zero i w = Judged-refl w
mark_range-Judged s (suc n) i w =
    Judged-trans (mark_slot-Judged i s w) (mark_range-Judged s n (i + 1) _)

apply_group-Judged :
    (v : ImprovedVerification) (n first : ℕ) (w : Work) → Judged w (apply_group v n first w)
unfolding apply_group
apply_group-Judged v n first w =
    let a =
      Judged-trans (mark_positions-Judged first passed v.authenticated_positions w)
        (mark_positions-Judged first failed v.rejected_positions _) in
    if_ind (λ x. Judged w x) v.passed _ _ (λ e. Judged-trans a (mark_range-Judged passed n first _))
      (λ e. a)

queue_group_observation-Judged :
    (o : GroupObservation) (w : Work) → Judged w (queue_group_observation o w).0
unfolding queue_group_observation take_event_id
queue_group_observation-Judged o w =
    if_valid-Judged w _ _ _ (same_state-Judged w _ refl refl refl refl)
      (same_state-Judged w _ refl refl refl refl)

report_filled-Judged : (o : Option DataPacket) (i : ℕ) (w : Work) → Judged w (report_filled o i w).0
unfolding report_filled
report_filled-Judged none i w = Judged-refl w
report_filled-Judged (some p) i w = queue_packet_observation-Judged _ w

report_range-Judged : (n i : ℕ) (w : Work) → Judged w (report_range n i w).0
unfolding report_range
report_range-Judged zero i w = Judged-refl w
report_range-Judged (suc n) i w =
    and_then-Judged w _ _ (report_filled-Judged _ i w) (report_range-Judged n (i + 1))

report_path-Judged :
    (i g first last : ℕ) (v : ImprovedVerification) (w : Work)
    → Judged w (report_path i g first last v w).0
unfolding report_path
report_path-Judged i g first last v w =
    if_ind {A = Ended} (λ x. Judged w x.0) (is_fallback v.path) _ _ (λ e. queue_failure-Judged _ w)
      (λ e.
        if_ind {A = Ended} (λ x. Judged w x.0) (is_incomplete v.path) _ _
          (λ e'. queue_failure-Judged _ w) (λ e'. Judged-refl w))

report_threshold-Judged :
    (i g first last : ℕ) (v : ImprovedVerification) (w : Work)
    → Judged w (report_threshold i g first last v w).0
unfolding report_threshold
report_threshold-Judged i g first last v w =
    if_ind {A = Ended} (λ x. Judged w x.0) v.detection_threshold_exceeded _ _
      (λ e. queue_failure-Judged _ w) (λ e. Judged-refl w)

report_group-Judged :
    (i g first last : ℕ) (v : ImprovedVerification) (w : Work)
    → Judged w (report_group i g first last v w).0
unfolding report_group
report_group-Judged i g first last v w =
    and_then-Judged w _ _ (queue_group_observation-Judged _ w) (λ w1.
      and_then-Judged w1 _ _ (report_range-Judged _ first w1) (λ w2.
        and_then-Judged w2 _ _ (report_path-Judged i g first last v w2)
          (report_threshold-Judged i g first last v)))

report_unverifiable-Judged :
    (i g : ℕ) (is : List ℕ) (w : Work) → Judged w (report_unverifiable i g is w).0
unfolding report_unverifiable
report_unverifiable-Judged i g [] w = Judged-refl w
report_unverifiable-Judged i g (n ∷ is) w =
    and_then-Judged w _ _
      (elim (first_attack (candidates_at w n))
        as (λ o.
          Judged w
            (elim o as (λ x. Ended) [
              | none ↦ returned w
              | some r ↦
                  queue_failure (attack_failure error unverifiable_missing_baseline i g n r []) w
            ]).0) [ none ↦ Judged-refl w | some r ↦ queue_failure-Judged _ w ])
      (report_unverifiable-Judged i g is)

length-fail_first_attack : (rs : List CandidateRecord) → length (fail_first_attack rs) ≡ length rs
unfolding fail_first_attack
length-fail_first_attack [] = refl
length-fail_first_attack (r ∷ rs) =
    let rest = length-fail_first_attack rs in
    if_ind {A = List CandidateRecord} (λ x. length x ≡ suc (length rs)) (is_attack r.source) _ _
      (λ e. refl) (λ e. ap suc rest)

fail_attack-Judged :
    (i g : ℕ) (v : ImprovedVerification) (located : List ℕ) (n : ℕ) (r : CandidateRecord) (w : Work)
    → Judged w (fail_attack i g v located n r w).0
unfolding fail_attack
fail_attack-Judged i g v located n r w =
    Judged-trans (set_candidates-Judged n _ w (length-fail_first_attack (candidates_at w n)))
      (and_then-Judged _ _ _ (queue_packet_observation-Judged _ _) (queue_failure-Judged _))

fail_attacks-Judged :
    (i g : ℕ) (v : ImprovedVerification) (located is : List ℕ) (w : Work)
    → Judged w (fail_attacks i g v located is w).0
unfolding fail_attacks
fail_attacks-Judged i g v located [] w = Judged-refl w
fail_attacks-Judged i g v located (n ∷ is) w =
    and_then-Judged w _ _
      (elim (first_attack (candidates_at w n))
        as (λ o.
          Judged w
            (elim o as (λ x. Ended) [
              | none ↦ returned w
              | some r ↦ fail_attack i g v located n r w
            ]).0) [ none ↦ Judged-refl w | some r ↦ fail_attack-Judged i g v located n r w ])
      (fail_attacks-Judged i g v located is)

report_attack-Judged :
    (i g first last : ℕ) (v : ImprovedVerification) (is : List ℕ) (w : Work)
    → Judged w (report_attack i g first last v is w).0
unfolding report_attack
report_attack-Judged i g first last v is w =
    and_then-Judged w _ _ (queue_group_observation-Judged _ w) (fail_attacks-Judged i g v _ is)

module _ (c : CryptoProvider) (m : KsRsMatrix) (data_key : List ℕ) where
  judge_attack-Judged :
      (i g first last : ℕ) (tags : TeslaAuthenticationDetails) (path : VerificationPath) (w : Work)
      → Judged w (judge_attack c m data_key i g first last tags path w).0
  unfolding judge_attack
  judge_attack-Judged i g first last tags path w = with_value-Judged w _ _ (λ a.
      if_ind {A = Ended} (λ x. Judged w x.0)
        (length (replaced_indexes w (last + 1 - first) first) == 0) _ _ (λ e. Judged-refl w)
        (λ e.
          if_ind {A = Ended} (λ x. Judged w x.0) (not (is_fast path)) _ _
            (λ e'. report_unverifiable-Judged i g _ w)
            (λ e'. with_value-Judged w _ _ (λ v. report_attack-Judged i g first last v _ w))))

  verify_group-Judged :
      (i g first last : ℕ) (w : Work) → Judged w (verify_group c m data_key i g first last w).0
  unfolding verify_group
  verify_group-Judged i g first last w = with_value-Judged w _ _ (λ v.
      let a : Judged w (if is_incomplete v.path then set_incomplete w else w) =
        if_ind (λ x. Judged w x) (is_incomplete v.path) _ _ (λ e. set_incomplete-Judged w)
          (λ e. Judged-refl w) in
      Judged-trans a (
        Judged-trans (apply_group-Judged v _ first _) (
          and_then-Judged _ _ _ (report_group-Judged i g first last v _)
            (judge_attack-Judged i g first last _ v.path))))

  verify_groups-Judged :
      (size i last fuel first : ℕ) (w : Work)
      → Judged w (verify_groups c m data_key size i last fuel first w).0
  unfolding verify_groups
  verify_groups-Judged size i last zero first w = Judged-refl w
  verify_groups-Judged size i last (suc fuel) first w =
      if_ind {A = Ended} (λ x. Judged w x.0) (ltb last first) _ _ (λ e. Judged-refl w)
        (λ e.
          and_then-Judged w _ _ (verify_group-Judged i _ first _ w)
            (verify_groups-Judged size i last fuel _))

  verify_improved_with-Judged :
      (o : Option ImprovedParameters) (i : ℕ) (w : Work)
      → Judged w (verify_improved_with c m data_key o i w).0
  unfolding verify_improved_with
  verify_improved_with-Judged none i w = Judged-refl w
  verify_improved_with-Judged (some q) i w = verify_groups-Judged q.group_size i _ _ _ w

  pub verify_improved_interval-Judged :
      (i : ℕ) (w : Work) → Judged w (verify_improved_interval c m data_key i w).0
  unfolding verify_improved_interval
  verify_improved_interval-Judged i w = verify_improved_with-Judged _ i w
