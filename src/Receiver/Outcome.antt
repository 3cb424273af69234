-- ===== src/Receiver/Outcome.antt =====
-- What a datagram can do to the state of its context: only judge, keep one more version of a packet
-- beside the baseline, or fill the empty slot of a packet and then judge.
use authentication_transmiss.Receiver.Frame.Timeout.{leave_inv}
use authentication_transmiss.Receiver.Steps.{Ended, leave}
use authentication_transmiss.Receiver.Frame.Native.{and_then-Judged}
use authentication_transmiss.Round.Configuration.{configuration-IsValid}
use authentication_transmiss.Udp.Layout.{Admits-encode}
use authentication_transmiss.Udp.Canonical.{encode-decode}
use authentication_transmiss.Udp.Decode.{decode}
use authentication_transmiss.Wire.{IsByte, IsU32}
use authentication_transmiss.Round.Parameters.{create_packet_context}
use authentication_transmiss.Udp.Context.{IsValid, PacketContext}
use mathlib.Core.Bool.{true}
use authentication_transmiss.Receiver.Timeline.{is_packet_time_safe}
use authentication_transmiss.Wire.Failure.{Decoded}
use authentication_transmiss.Receiver.Native.{is_attack}
use authentication_transmiss.Receiver.Keys.{process_disclosed_key}
use authentication_transmiss.Tesla.Input.{same_text}
use authentication_transmiss.Receiver.Observe.{
  slot, candidates_at, take_event_id, set_candidates, set_slot,
}
use authentication_transmiss.Udp.Packet.{
  disclosure_packet, data_packet, DisclosurePacket, Packet, DataPacket,
}
use authentication_transmiss.Tesla.KsRs.{KsRsMatrix}
use authentication_transmiss.Crypto.{CryptoProvider}
use authentication_transmiss.Receiver.Datagram.{
  process_datagram, process_disclosure, report_disclosure, process_data, process_decoded,
  new_record, new_candidate, find_candidate, sort_packet, process_carried_key, is_full,
  count_received, keep_conflict, Arrival, fill_slot, repeat_early, bump_candidate,
  reject_undecodable, repeat_conflict, sort_conflict, reject_late, sort_early, repeat_baseline,
  push_candidate, refuse_candidate,
}
use authentication_transmiss.Receiver.State.{
  attack_injection, PacketSource, normal_sender, PacketRecord, CandidateRecord, QueuedDatagram,
  Work,
}
use authentication_transmiss.Receiver.Frame.{
  same_state-Judged, Judged-refl, queue_packet_observation-Judged, take_event_id-Judged,
  set_incomplete-Judged, set_slot-Judged, set_candidates-Judged, queue_failure-Judged, Judged-trans,
  Judged,
}
use authentication_transmiss.Receiver.Frame.Keys.{process_disclosed_key-Judged}
use authentication_transmiss.Prelude.{
  sym, ◌||◌, All, err, Bool, not, Throws, length-append, arith, ap, [], >>=-eq-ok, suc,
  ok-injective, subst, inl, if_ind, some, none, ◌++◌, refl, inr, ◌∷◌, false, ok, ◌≤◌, ◌≡◌, Option,
  length, Option-cases, List, ℕ,
}

pub data Outcome (total : ℕ) (w w' : Work) : Type 0 where
  only_judged : Judged w w' → Outcome total w w'
  version_kept :
      (i : ℕ) (cs : List CandidateRecord)
      → length cs ≤ 3
      → Judged (set_candidates i cs w) w'
      → Outcome total w w'
  slot_filled :
      (a : Arrival) (id : ℕ)
      → (1 ≤ a.packet.packet_index) × (a.packet.packet_index ≤ total)
      → (slot w a.packet.packet_index).packet ≡ none
      → a.datagram.source ≡ normal_sender
      → Judged (count_received (set_slot a.packet.packet_index (new_record a id) w)) w'
      → Outcome total w w'

length-bump_candidate :
    (hash : List ℕ) (rs : List CandidateRecord) → length (bump_candidate hash rs) ≡ length rs
unfolding bump_candidate
length-bump_candidate hash [] = refl
length-bump_candidate hash (r ∷ rs) =
    let rest = length-bump_candidate hash rs in
    if_ind {A = List CandidateRecord} (λ x. length x ≡ suc (length rs))
      (same_text r.candidate_hash hash) _ _ (λ e. refl) (λ e. ap suc rest)

repeat_baseline-Judged :
    (a : Arrival) (p : DataPacket) (w : Work) → Judged w (repeat_baseline a p w).0
unfolding repeat_baseline
repeat_baseline-Judged a p w =
    Judged-trans (set_slot-Judged _ _ w refl)
      (and_then-Judged _ _ _ (queue_packet_observation-Judged _ _) (queue_failure-Judged _))

repeat_conflict-Judged :
    (a : Arrival) (r : CandidateRecord) (w : Work) → Judged w (repeat_conflict a r w).0
unfolding repeat_conflict
repeat_conflict-Judged a r w =
    Judged-trans (set_candidates-Judged _ _ w (length-bump_candidate a.hash _))
      (and_then-Judged _ _ _ (queue_packet_observation-Judged _ _) (queue_failure-Judged _))

repeat_early-Judged :
    (a : Arrival) (r : CandidateRecord) (w : Work) → Judged w (repeat_early a r w).0
unfolding repeat_early
repeat_early-Judged a r w =
    Judged-trans (set_candidates-Judged _ _ w (length-bump_candidate a.hash _))
      (queue_packet_observation-Judged _ _)

refuse_candidate-Judged : (a : Arrival) (w : Work) → Judged w (refuse_candidate a w).0
unfolding refuse_candidate
refuse_candidate-Judged a w = queue_failure-Judged _ w

reject_late-Judged : (a : Arrival) (w : Work) → Judged w (reject_late a w).0
unfolding reject_late
reject_late-Judged a w = Judged-trans (set_incomplete-Judged w) (
    Judged-trans (take_event_id-Judged _)
      (and_then-Judged _ _ _ (queue_packet_observation-Judged _ _) (queue_failure-Judged _)))

reject_undecodable-Judged : (q : QueuedDatagram) (w : Work) → Judged w (reject_undecodable q w).0
unfolding reject_undecodable
reject_undecodable-Judged q w = Judged-trans (set_incomplete-Judged w) (queue_failure-Judged _ _)

module _ (total : ℕ) where
  push_candidate-Outcome :
      (a : Arrival) (w w' : Work)
      → is_full (candidates_at w a.packet.packet_index) ≡ false
      → Judged (push_candidate a w).0 w'
      → Outcome total w w'
  unfolding push_candidate is_full set_candidates take_event_id
  push_candidate-Outcome a w w' e j =
      let cs = candidates_at w a.packet.packet_index ++ (new_candidate a w.next_event_id ∷ []) in
      version_kept a.packet.packet_index cs
        (ground (
          arith,
          length-append (candidates_at w a.packet.packet_index)
              (new_candidate a w.next_event_id ∷ []),
        ))
        (Judged-trans (same_state-Judged _ _ refl refl refl refl)
          (Judged-trans (queue_packet_observation-Judged _ _) j))

  sort_conflict-Outcome : (a : Arrival) (w : Work) → Outcome total w (sort_conflict a w).0
  unfolding sort_conflict keep_conflict
  sort_conflict-Outcome a w =
      elim (Option-cases (find_candidate a.hash (candidates_at w a.packet.packet_index))) [
        | inr (r, e) ↦ rw (sort_conflict, e) (only_judged (repeat_conflict-Judged a r w))
        | inl e ↦
            rw (sort_conflict, e)
              (if_ind {A = Ended} (λ x. Outcome total w x.0)
                (is_full (candidates_at w a.packet.packet_index)) _ _
                (λ f. only_judged (refuse_candidate-Judged a w))
                (λ f.
                  push_candidate-Outcome a w _ f
                    (and_then-Judged _ _ _ (Judged-refl _) (queue_failure-Judged _))))
      ]

  sort_early-Outcome : (a : Arrival) (w : Work) → Outcome total w (sort_early a w).0
  unfolding sort_early
  sort_early-Outcome a w =
      elim (Option-cases (find_candidate a.hash (candidates_at w a.packet.packet_index))) [
        | inr (r, e) ↦ rw (sort_early, e) (only_judged (repeat_early-Judged a r w))
        | inl e ↦
            rw (sort_early, e)
              (if_ind {A = Ended} (λ x. Outcome total w x.0)
                (is_full (candidates_at w a.packet.packet_index)) _ _
                (λ f. only_judged (refuse_candidate-Judged a w))
                (λ f. push_candidate-Outcome a w _ f (Judged-refl _)))
      ]

  fill_slot-Outcome :
      (a : Arrival) (w w' : Work)
      → (1 ≤ a.packet.packet_index) × (a.packet.packet_index ≤ total)
      → (slot w a.packet.packet_index).packet ≡ none
      → a.datagram.source ≡ normal_sender
      → Judged (fill_slot a w).0 w'
      → Outcome total w w'
  unfolding fill_slot count_received set_slot take_event_id
  fill_slot-Outcome a w w' range free normal j = slot_filled a w.next_event_id range free normal (
      Judged-trans (same_state-Judged _ _ refl refl refl refl)
        (Judged-trans (queue_packet_observation-Judged _ _) j))

  -- What the decoder has made sure of a data packet.
  InRange : Option (Decoded Packet) → Type 0
  InRange (some (ok (data_packet p))) = (1 ≤ p.packet_index) × (p.packet_index ≤ total)
  InRange (some (ok (disclosure_packet p))) = Unit {0}
  InRange (some (err e)) = Unit {0}
  InRange none = Unit {0}

  module _ (c : CryptoProvider) (m : KsRsMatrix) (sha256 : List ℕ → List ℕ) where
    process_carried_key-Judged :
        (o : Option (List ℕ)) (i : ℕ) (w w' : Work)
        → process_carried_key c m sha256 o i w ≡ ok w'
        → Judged w w'
    unfolding process_carried_key
    process_carried_key-Judged none i w w' e =
        subst (λ x. Judged w x) (ok-injective (ok w) refl e) (Judged-refl w)
    process_carried_key-Judged (some key) i w w' e =
        let (b, f, g) = >>=-eq-ok (process_disclosed_key c m sha256 i key w).0 _ e in
        subst (λ x. Judged w x) (ok-injective (ok _) refl g)
          (process_disclosed_key-Judged c m sha256 i key w)

    -- Each way on which a call returns, by what holds of the work that it returns.
    Returns : Work → Throws Work → Type 0
    Returns w t = (w' : Work) → t ≡ ok w' → Outcome total w w'

    ok-Returns : (w u : Work) → Outcome total w u → Returns w (ok u)
    unfolding Returns
    ok-Returns w u o w' e = subst (λ x. Outcome total w x) (ok-injective (ok u) refl e) o

    leave-Returns : (w : Work) (e : Ended) → Outcome total w e.0 → Returns w (leave e)
    unfolding Returns
    leave-Returns w e o w' f = subst (λ x. Outcome total w x) (leave_inv e w' f) o

    not_attack : (s : PacketSource) → is_attack s ≡ false → s ≡ normal_sender
    unfolding is_attack
    not_attack normal_sender e = refl
    not_attack attack_injection e = cc

    sort_packet-Returns :
        (r : PacketRecord) (o : Option DataPacket) (a : Arrival) (w : Work)
        → (1 ≤ a.packet.packet_index) × (a.packet.packet_index ≤ total)
        → (slot w a.packet.packet_index).packet ≡ o
        → Returns w (sort_packet c m sha256 r o a w)
    unfolding sort_packet
    sort_packet-Returns r (some p) a w range e =
        if_ind {A = Throws Work} (λ x. Returns w x) (same_text r.candidate_hash a.hash) _ _
          (λ f. leave-Returns w _ (only_judged (repeat_baseline-Judged a p w)))
          (λ f. leave-Returns w _ (sort_conflict-Outcome a w))
    sort_packet-Returns r none a w range e =
        if_ind {A = Throws Work} (λ x. Returns w x) (is_attack a.datagram.source) _ _
          (λ f. leave-Returns w _ (sort_early-Outcome a w))
          (λ f.
            unfold Returns in
            λ w' s.
              let (v, g, h) = >>=-eq-ok (leave (fill_slot a w)) _ s in
              fill_slot-Outcome a w w' range e (not_attack a.datagram.source f) (
                subst (λ x. Judged x w') (sym (leave_inv (fill_slot a w) v g))
                  (process_carried_key-Judged a.packet.disclosed_key a.packet.interval_index v w'
                    h)))

    process_data-Returns :
        (a : Arrival) (w : Work)
        → (1 ≤ a.packet.packet_index) × (a.packet.packet_index ≤ total)
        → Returns w (process_data c m sha256 a w)
    unfolding process_data
    process_data-Returns a w range =
        if_ind {A = Throws Work} (λ x. Returns w x)
          (not
            (is_packet_time_safe w.receiver a.packet.interval_index a.datagram.receive_timestamp))
          _ _ (λ f. leave-Returns w _ (only_judged (reject_late-Judged a w)))
          (λ f.
            sort_packet-Returns (slot w a.packet.packet_index) (slot w a.packet.packet_index).packet
              a w range refl)

    report_disclosure-Judged :
        (p : DisclosurePacket) (q : QueuedDatagram) (b : Bool) (w : Work)
        → Judged w (report_disclosure c m sha256 p q b w).0
    unfolding report_disclosure
    report_disclosure-Judged p q true w =
        Judged-trans (take_event_id-Judged w)
          (and_then-Judged _ _ _ (queue_packet_observation-Judged _ _) Judged-refl)
    report_disclosure-Judged p q false w =
        Judged-trans (take_event_id-Judged w)
          (and_then-Judged _ _ _ (queue_packet_observation-Judged _ _) (queue_failure-Judged _))

    process_disclosure-Returns :
        (p : DisclosurePacket) (q : QueuedDatagram) (w : Work)
        → Returns w (process_disclosure c m sha256 p q w)
    unfolding process_disclosure Returns
    process_disclosure-Returns p q w w' e =
        let (b, f, g) =
          >>=-eq-ok (process_disclosed_key c m sha256 p.interval_index p.disclosed_key w).0 _ e in
        subst (λ x. Outcome total w x) (leave_inv _ w' g)
          (only_judged (
            Judged-trans
              (process_disclosed_key-Judged c m sha256 p.interval_index p.disclosed_key w)
              (report_disclosure-Judged p q b _)))

    process_decoded-Returns :
        (o : Option (Decoded Packet)) (q : QueuedDatagram) (w : Work)
        → InRange o
        → Returns w (process_decoded c m sha256 o q w)
    unfolding process_decoded InRange
    process_decoded-Returns none q w h = unfold Returns in λ w' e. cc
    process_decoded-Returns (some (err e)) q w h =
        leave-Returns w _ (only_judged (reject_undecodable-Judged q w))
    process_decoded-Returns (some (ok (disclosure_packet p))) q w h =
        process_disclosure-Returns p q w
    process_decoded-Returns (some (ok (data_packet p))) q w h = process_data-Returns _ w h

decode-InRange :
    (total : ℕ) (d : List ℕ) (pc : PacketContext) (o : Option (Decoded Packet))
    → All IsByte d
    → IsValid pc
    → pc.total_packet_count ≡ total
    → decode d pc ≡ o
    → InRange total o
unfolding InRange
decode-InRange total d pc none b v t e = tt
decode-InRange total d pc (some (err x)) b v t e = tt
decode-InRange total d pc (some (ok (disclosure_packet p))) b v t e = tt
decode-InRange total d pc (some (ok (data_packet p))) b v t e =
    let (w, encoded) = encode-decode d pc (data_packet p) b v e in
    let (pos, le, interval, key, details) = Admits-encode (data_packet p) pc d v encoded in
    (pos, subst (λ x. p.packet_index ≤ x) t le)

module _ (c : CryptoProvider) (m : KsRsMatrix) (sha256 : List ℕ → List ℕ) where
  pub process_datagram-Outcome :
      (q : QueuedDatagram) (w w' : Work)
      → All IsByte q.datagram
      → IsU32 w.receiver.context.round.total_packet_count
      → process_datagram c m sha256 q w ≡ ok w'
      → Outcome w.receiver.context.round.total_packet_count w w'
  unfolding process_datagram Returns
  process_datagram-Outcome q w w' b u e =
      if_ind {A = Throws Work}
        (λ x. Returns w.receiver.context.round.total_packet_count c m sha256 w x)
        (not w.receiver.active || w.receiver.result_reported) _ _
        (λ f. ok-Returns _ c m sha256 w w (only_judged (Judged-refl w)))
        (λ f w'' g.
          let (pc, made, rest) = >>=-eq-ok (create_packet_context w.receiver.context.round) _ g in
          let (v, t) = configuration-IsValid w.receiver.context.round pc u made in
          process_decoded-Returns _ c m sha256 (decode q.datagram pc) q w
            (decode-InRange _ q.datagram pc _ b v t refl) w'' rest)
        w' e
