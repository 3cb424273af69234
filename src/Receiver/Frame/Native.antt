-- ===== src/Receiver/Frame/Native.antt =====
-- The native judgement of an interval leaves the frame alone, where it throws too.
use mathlib.Core.Option.{none}
use authentication_transmiss.Receiver.State.{failed, passed}
use Prim.Native.Nat.{zero}
use mathlib.Core.Bool.{false, true}
use mathlib.Core.List.{[]}
use authentication_transmiss.Crypto.{CryptoProvider}
use authentication_transmiss.Receiver.Native.{
  candidate_passes, judge_slots, judge_candidates, verify_native_interval, judge_slot,
  report_candidate, apply_to, apply_statuses, report_mac_failure,
}
use authentication_transmiss.Receiver.Steps.{Ended, and_then, with_value}
use authentication_transmiss.Receiver.Frame.{
  slot, set_candidates-Judged, set_slot-Judged, Judged-trans, candidates_at, queue_failure-Judged,
  queue_packet_observation-Judged, Judged-refl, DataPacket, Work, CandidateRecord, PacketRecord,
  Judged,
}
use authentication_transmiss.Tesla.Native
use authentication_transmiss.Prelude.{
  length-append, arith, if◌then◌else◌, ◌∙◌, append-nil, sym, refl, ap, [], ◌+◌, ok, ◌++◌, err, ◌≡◌,
  ◌∷◌, some, length, suc, Throws, Bool, Option, List, ℕ,
}

pub and_then-Judged :
    (w : Work) (e : Ended) (next : Work → Ended)
    → Judged w e.0
    → ((v : Work) → Judged v (next v).0)
    → Judged w (and_then e next).0
unfolding and_then
and_then-Judged w (v, err x) next a b = a
and_then-Judged w (v, ok done) next a b = Judged-trans a (b v)

-- Where what follows is known only of the work that the call leaves.
and_then_from-Judged :
    (w : Work) (e : Ended) (next : Work → Ended)
    → Judged w e.0
    → Judged e.0 (next e.0).0
    → Judged w (and_then e next).0
unfolding and_then
and_then_from-Judged w (v, err x) next a b = a
and_then_from-Judged w (v, ok done) next a b = Judged-trans a b

pub with_value-Judged {ℓ} :
    {A : Type ℓ} (w : Work) (t : Throws A) (next : A → Ended)
    → ((a : A) → Judged w (next a).0)
    → Judged w (with_value w t next).0
unfolding with_value
with_value-Judged w (err e) next b = Judged-refl w
with_value-Judged w (ok a) next b = b a

pub with_value_from-Judged {ℓ} :
    {A : Type ℓ} (w u : Work) (t : Throws A) (next : A → Ended)
    → Judged w u
    → ((a : A) → Judged w (next a).0)
    → Judged w (with_value u t next).0
unfolding with_value
with_value_from-Judged w u (err e) next a b = a
with_value_from-Judged w u (ok x) next a b = b x

report_mac_failure-Judged :
    (i n : ℕ) (r : PacketRecord) (p : DataPacket) (w : Work)
    → Judged w (report_mac_failure i n r p w).0
unfolding report_mac_failure
report_mac_failure-Judged i n r p w = with_value-Judged w _ _ (λ q. queue_failure-Judged _ w)

apply_to-Judged :
    (o : Option DataPacket) (i n : ℕ) (ok? : Bool) (w : Work) → Judged w (apply_to o i n ok? w).0
unfolding apply_to
apply_to-Judged none i n ok? w = Judged-refl w
apply_to-Judged (some p) i n true w =
    Judged-trans (set_slot-Judged n (record (slot w n) { status = passed }) w refl)
      (and_then-Judged _ _ _ (queue_packet_observation-Judged _ _) Judged-refl)
apply_to-Judged (some p) i n false w =
    Judged-trans (set_slot-Judged n (record (slot w n) { status = failed }) w refl) (
      and_then-Judged _ _ _ (queue_packet_observation-Judged _ _)
        (report_mac_failure-Judged i n _ p))

apply_statuses-Judged :
    (i n : ℕ) (ss : List Native.PacketStatus) (w : Work) → Judged w (apply_statuses i n ss w).0
unfolding apply_statuses
apply_statuses-Judged i n [] w = Judged-refl w
apply_statuses-Judged i n (s ∷ ss) w =
    and_then-Judged w _ _ (apply_to-Judged _ i n _ w) (apply_statuses-Judged i (n + 1) ss)

report_candidate-Judged :
    (i n : ℕ) (r : CandidateRecord) (passes : Bool) (w : Work)
    → Judged w (report_candidate i n r passes w).0
unfolding report_candidate
report_candidate-Judged i n r true w =
    and_then-Judged w _ _ (queue_packet_observation-Judged _ w) Judged-refl
report_candidate-Judged i n r false w =
    and_then-Judged w _ _ (queue_packet_observation-Judged _ w) (queue_failure-Judged _)

module _ (c : CryptoProvider) (data_key : List ℕ) (i n : ℕ) where
  judge_candidates-Judged :
      (judged rs : List CandidateRecord) (w : Work)
      → length (judged ++ rs) ≡ length (candidates_at w n)
      → Judged w (judge_candidates c data_key i n judged rs w).0
  unfolding judge_candidates
  judge_candidates-Judged judged [] w e =
      set_candidates-Judged n judged w (ap length (sym (append-nil judged)) ∙ e)
  judge_candidates-Judged judged (r ∷ rs) w e =
      with_value_from-Judged w _ _ _ (set_candidates-Judged n (judged ++ (r ∷ rs)) w e) (λ q.
        let passes = candidate_passes c data_key r.candidate.details q in
        let r' = record r { status = if passes then passed else failed } in
        let size : length (judged ++ (r' ∷ rs)) ≡ length (candidates_at w n) =
          omega (arith, length-append judged (r' ∷ rs), length-append judged (r ∷ rs), e) in
        let j = set_candidates-Judged n (judged ++ (r' ∷ rs)) w size in
        let k = Judged-trans j (report_candidate-Judged i n r' passes _) in
        and_then_from-Judged w _ _ k (
          judge_candidates-Judged (judged ++ (r' ∷ [])) rs _ (
            omega (
              arith,
              length-append judged (r' ∷ []),
              length-append (judged ++ (r' ∷ [])) rs,
              length-append judged (r ∷ rs),
              e,
              k.same_versions n,
            ))))

  judge_slot-Judged :
      (rs : List CandidateRecord) (w : Work)
      → rs ≡ candidates_at w n
      → Judged w (judge_slot c data_key i n rs w).0
  unfolding judge_slot
  judge_slot-Judged [] w e = Judged-refl w
  judge_slot-Judged (r ∷ rs) w e = judge_candidates-Judged [] (r ∷ rs) w (ap length e)

module _ (c : CryptoProvider) (data_key : List ℕ) (i : ℕ) where
  judge_slots-Judged : (k n : ℕ) (w : Work) → Judged w (judge_slots c data_key i k n w).0
  unfolding judge_slots
  judge_slots-Judged zero n w = Judged-refl w
  judge_slots-Judged (suc k) n w =
      and_then-Judged w _ _ (judge_slot-Judged c data_key i n _ w refl)
        (judge_slots-Judged k (n + 1))

  pub verify_native_interval-Judged :
      (w : Work) → Judged w (verify_native_interval c i data_key w).0
  unfolding verify_native_interval
  verify_native_interval-Judged w = with_value-Judged w _ _ (λ v.
      and_then-Judged w _ _ (apply_statuses-Judged i _ v.packet_statuses w)
        (judge_slots-Judged _ _))
