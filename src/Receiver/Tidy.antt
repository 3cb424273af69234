-- ===== src/Receiver/Tidy.antt =====
-- An invariant of a round: the counts and the kept versions, from its start through every datagram.
use authentication_transmiss.Receiver.Frame.Timeout.{check_pause_and_timeout-Judged}
use authentication_transmiss.Receiver.Finish.{missing_count_of}
use Prim.Native.Nat.{zero}
use authentication_transmiss.Receiver.Timeout.{check_pause_and_timeout}
use authentication_transmiss.Receiver.Timeline.{resume, request_pause, start_round}
use authentication_transmiss.Tesla.KsRs.{KsRsMatrix}
use authentication_transmiss.Crypto.{CryptoProvider}
use authentication_transmiss.Receiver.Baseline.{
  at-set_record-cases, count_le, same_packet, count-fill,
}
use authentication_transmiss.Udp.Packet.{DataPacket}
use authentication_transmiss.Wire.{IsByte}
use authentication_transmiss.Receiver.Observe.{
  record_at, set_record, candidates_at, set_candidates, slot, set_slot,
}
use authentication_transmiss.Receiver.Frame.{
  same_state-Judged, length-set_record, filled, candidates-set_candidates, count_filled, Judged,
}
use authentication_transmiss.Receiver.Datagram.{
  process_datagram, new_record, Arrival, count_received,
}
use authentication_transmiss.Receiver.State.{
  PacketRecord, empty_record, QueuedDatagram, ReceiverState, normal_sender, CandidateRecord, Work,
}
use authentication_transmiss.Receiver.Outcome.{
  process_datagram-Outcome, slot_filled, version_kept, only_judged, Outcome,
}
use authentication_transmiss.Prelude.{
  Option-cases, ◌∷◌, ◌-◌, ◌≢◌, fail_if-eq-ok, ok-injective, suc, not, Throws, length-replicate,
  replicate, if_ind, ok, refl, All, some-injective, [], Bool, arith, inr, subst, some, inl, ap, sym,
  none, ◌≤◌, ◌+◌, ◌∙◌, ◌≡◌, length, List, ℕ,
}

pub record Tidy (w : Work) : Type 0 where
  pub size : length w.receiver.packet_records ≡ w.receiver.context.round.total_packet_count + 1
  pub small : w.receiver.context.round.total_packet_count ≤ 200_000
  pub count : w.receiver.received_packet_count ≡ count_filled w.receiver.packet_records
  pub origin :
      (i : ℕ) (p : DataPacket)
      → (slot w i).packet ≡ some p
      → (1 ≤ i) × (p.packet_index ≡ i) × ((slot w i).source ≡ normal_sender)
  pub versions : (i : ℕ) → length (candidates_at w i) ≤ 3

-- What only judges keeps the invariant.
pub Judged-Tidy : (w w' : Work) → Judged w w' → Tidy w → Tidy w'
Judged-Tidy w w' j t = record {
  size = j.same_size ∙ t.size ∙ sym (ap (λ x. x.round.total_packet_count + 1) j.same_context);
  small = subst (λ x. x.round.total_packet_count ≤ 200_000) (sym j.same_context) t.small;
  count = j.same_count ∙ t.count ∙ sym j.same_filled;
  origin = λ i p e.
      let (packet, source) = same_packet (slot w i) (slot w' i) (j.same_slots i) in
      let (pos, index, normal) = t.origin i p (sym packet ∙ e) in (pos, index, source ∙ normal);
  versions = λ i. subst (λ n. n ≤ 3) (sym (j.same_versions i)) (t.versions i);
}

version-Tidy :
    (i : ℕ) (cs : List CandidateRecord) (w : Work)
    → length cs ≤ 3
    → Tidy w
    → Tidy (set_candidates i cs w)
version-Tidy i cs w le t = record {
  size = unfold set_candidates in t.size;
  small = unfold set_candidates in t.small;
  count = unfold set_candidates in t.count;
  origin = unfold set_candidates slot in t.origin;
  versions = λ j. elim (candidates-set_candidates i cs w j) [
    | inl (same, e) ↦ subst (λ x. length x ≤ 3) (sym e) le
    | inr (other, e) ↦ subst (λ x. length x ≤ 3) (sym e) (t.versions j)
  ];
}

-- The work with the slot of a packet filled by it.
placed : Arrival → ℕ → Work → Work
placed a id w = count_received (set_slot a.packet.packet_index (new_record a id) w)

fill-Tidy :
    (a : Arrival) (id : ℕ) (w : Work)
    → (1 ≤ a.packet.packet_index)
      × (a.packet.packet_index ≤ w.receiver.context.round.total_packet_count)
    → (slot w a.packet.packet_index).packet ≡ none
    → a.datagram.source ≡ normal_sender
    → Tidy w
    → Tidy (placed a id w)
unfolding new_record placed count_received set_slot slot
fill-Tidy a id w range free normal t =
    let i = a.packet.packet_index in
    let r = new_record a id in
    let rs = w.receiver.packet_records in
    let le = range.1 in
    let size = t.size in
    let one : filled r.packet ≡ 1 = unfold filled in refl in
    let more = count-fill rs i r (omega arith) free one in
    let most = count_le (set_record i r rs) in
    record {
      size = length-set_record rs i r ∙ t.size;
      small = t.small;
      count = omega (arith, more, most, length-set_record rs i r, t.count, t.size, t.small);
      origin = λ j p e. elim (at-set_record-cases rs i r j) [
        | inl same ↦
            subst (λ x. (1 ≤ j) × (p.packet_index ≡ j) × (x.source ≡ normal_sender)) (sym same)
              (t.origin j p (sym (ap (λ x. x.packet) same) ∙ e))
        | inr (k, same) ↦
            let here : some a.packet ≡ some p = sym (ap (λ x. x.packet) same) ∙ e in
            let p' : a.packet ≡ p = some-injective here in
            (
              subst (λ x. 1 ≤ x) k range.0,
              sym (ap (λ x. x.packet_index) p') ∙ k,
              ap (λ x. x.source) same ∙ (normal),
            )
      ];
      versions = unfold candidates_at in t.versions;
    }

Outcome-Tidy :
    (w w' : Work) → Outcome w.receiver.context.round.total_packet_count w w' → Tidy w → Tidy w'
Outcome-Tidy w w' (only_judged j) t = Judged-Tidy w w' j t
Outcome-Tidy w w' (version_kept i cs le j) t = Judged-Tidy _ w' j (version-Tidy i cs w le t)
Outcome-Tidy w w' (slot_filled a id range free normal j) t =
    Judged-Tidy (placed a id w) w' (unfold placed in j) (fill-Tidy a id w range free normal t)

module _ (c : CryptoProvider) (m : KsRsMatrix) (sha256 : List ℕ → List ℕ) where
  -- The works of a context in one round: from its start, by datagrams of bytes, by pauses and resumptions, and by the checks of the clock, each of which returns.
  pub data Reach : Work → Type 0 where
    started :
        (r : ReceiverState) (round_id : List ℕ) (start tolerance : ℕ) (observing : Bool) (id : ℕ)
        → r.context.round.total_packet_count ≤ 200_000
        → Reach (record {
          receiver = start_round r round_id start tolerance;
          observing = observing;
          next_event_id = id;
          observations = [];
          results = [];
        })
    received :
        {w w' : Work} (q : QueuedDatagram)
        → All IsByte q.datagram
        → Reach w
        → process_datagram c m sha256 q w ≡ ok w'
        → Reach w'
    paused :
        {w : Work} (r : ReceiverState) (after time : ℕ)
        → Reach w
        → request_pause w.receiver after time ≡ ok r
        → Reach (record w { receiver = r })
    resumed :
        {w : Work} (now : ℕ) (r : ReceiverState) (interval time : ℕ)
        → Reach w
        → resume now w.receiver interval time ≡ ok r
        → Reach (record w { receiver = r })
    checked : {w w' : Work} (now : ℕ) → Reach w → check_pause_and_timeout now w ≡ ok w' → Reach w'

  request_pause-Judged :
      (w : Work) (r : ReceiverState) (after time : ℕ)
      → request_pause w.receiver after time ≡ ok r
      → Judged w (record w { receiver = r })
  unfolding request_pause
  request_pause-Judged w r after time e =
      if_ind {A = Throws ReceiverState} (λ x. x ≡ ok r → Judged w (record w { receiver = r }))
        (not w.receiver.active) _ _
        (λ f g.
          subst (λ x. Judged w (record w { receiver = x })) (ok-injective (ok w.receiver) refl g)
            (same_state-Judged w _ refl refl refl refl))
        (λ f g.
          subst (λ x. Judged w (record w { receiver = x }))
            (ok-injective (ok _) refl (fail_if-eq-ok _ _ _ g).1)
            (same_state-Judged w _ refl refl refl refl))
        e

  resume-Judged :
      (w : Work) (r : ReceiverState) (now interval time : ℕ)
      → resume now w.receiver interval time ≡ ok r
      → Judged w (record w { receiver = r })
  unfolding resume
  resume-Judged w r now interval time e =
      if_ind {A = Throws ReceiverState} (λ x. x ≡ ok r → Judged w (record w { receiver = r }))
        (not w.receiver.active) _ _
        (λ f g.
          subst (λ x. Judged w (record w { receiver = x })) (ok-injective (ok w.receiver) refl g)
            (same_state-Judged w _ refl refl refl refl))
        (λ f g.
          subst (λ x. Judged w (record w { receiver = x }))
            (ok-injective (ok _) refl (fail_if-eq-ok _ _ _ g).1)
            (same_state-Judged w _ refl refl refl refl))
        e

  count-replicate : (n : ℕ) → count_filled (replicate n empty_record) ≡ 0
  unfolding count_filled filled
  count-replicate zero = refl
  count-replicate (suc n) = omega (arith, count-replicate n)

  at-replicate : (n i : ℕ) → (record_at (replicate n empty_record) i).packet ≡ none
  unfolding record_at
  at-replicate zero i = refl
  at-replicate (suc n) zero = refl
  at-replicate (suc n) (suc i) = at-replicate n i

  start-Tidy :
      (r : ReceiverState) (round_id : List ℕ) (start tolerance : ℕ) (observing : Bool) (id : ℕ)
      → r.context.round.total_packet_count ≤ 200_000
      → Tidy (record {
        receiver = start_round r round_id start tolerance;
        observing = observing;
        next_event_id = id;
        observations = [];
        results = [];
      })
  unfolding start_round slot candidates_at
  start-Tidy r round_id start tolerance observing id h = record {
    size = length-replicate (r.context.round.total_packet_count + 1) empty_record;
    small = h;
    count = sym (count-replicate (r.context.round.total_packet_count + 1));
    origin = λ i p e.
        let n = at-replicate (r.context.round.total_packet_count + 1) i in absurd (cc (e, n));
    versions = λ i. omega arith;
  }

  -- In every state of a round that its start, datagrams of bytes, pauses, resumptions and checks of the clock lead to: there is a slot for every packet; the count of the received packets is the number of slots that are filled; a filled slot holds the packet of its own index, and never one of an attack injection; and of no packet are more than three versions kept beside its slot.
  pub Reach-Tidy : (w : Work) → Reach w → Tidy w
  Reach-Tidy w (started r round_id start tolerance observing id h) =
      start-Tidy r round_id start tolerance observing id h
  Reach-Tidy w (received {w = v} q b reach e) =
      let t = Reach-Tidy v reach in
      let small = t.small in
      Outcome-Tidy v w (process_datagram-Outcome c m sha256 q v w b (omega arith) e) t
  Reach-Tidy w (paused {w = v} r after time reach e) =
      Judged-Tidy v _ (request_pause-Judged v r after time e) (Reach-Tidy v reach)
  Reach-Tidy w (resumed {w = v} now r interval time reach e) =
      Judged-Tidy v _ (resume-Judged v r now interval time e) (Reach-Tidy v reach)
  Reach-Tidy w (checked {w = v} now reach e) =
      Judged-Tidy v w (check_pause_and_timeout-Judged now v w e) (Reach-Tidy v reach)

count-empty_first :
    (rs : List PacketRecord)
    → ((p : DataPacket) → (record_at rs 0).packet ≢ some p)
    → count_filled rs ≤ length rs - 1
unfolding record_at count_filled filled
count-empty_first [] h = omega arith
count-empty_first (x ∷ xs) h = elim (Option-cases x.packet) [
  | inl e ↦ let z : filled x.packet ≡ 0 = ap filled e in omega (arith, z, count_le xs)
  | inr (p, e) ↦ absurd (h p e)
]

module _ (c : CryptoProvider) (m : KsRsMatrix) (sha256 : List ℕ → List ℕ) where
  -- In every such state the number of missing packets, which is a difference in 32 bits, does not wrap: with the number of received ones it makes the number of packets of the round.
  pub missing_count-Reach :
      (w : Work)
      → Reach c m sha256 w
      → missing_count_of w.receiver + w.receiver.received_packet_count
        ≡ w.receiver.context.round.total_packet_count
  unfolding missing_count_of slot
  missing_count-Reach w reach =
      let t = Reach-Tidy c m sha256 w reach in
      let first : (p : DataPacket) → (record_at w.receiver.packet_records 0).packet ≢ some p =
        λ p e. absurd (omega (arith, (t.origin 0 p e).0)) in
      omega (arith, count-empty_first w.receiver.packet_records first, t.size, t.small, t.count)
