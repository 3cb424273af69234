-- ===== src/Receiver/Frame.antt =====
-- What judging packets leaves alone: where a slot's packet came from, how many slots are filled, how
-- many versions of a packet are kept, and the context. The children prove it of each handler.
use mathlib.Core.Bool.{false}
use authentication_transmiss.Receiver.Steps.{Ended, if_valid}
use Prim.Native.Nat.{zero}
use mathlib.Core.List.{[]}
use mathlib.Core.Option.{none}
use authentication_transmiss.Udp.Packet.{DataPacket}
use authentication_transmiss.Receiver.State.{
  PacketStatus, PacketFailure, CandidateRecord, PacketObservation, PacketRecord, Work,
}
use authentication_transmiss.Receiver.Observe.{
  record_at, candidates_at, set_record, set_slot, queue_failure, queue_packet_observation,
  set_candidates, take_event_id, set_incomplete, slot,
}
use authentication_transmiss.Prelude.{
  Bool, find-assign_ne, assign, find, subst, true, sym, inr, Bool-cases, inl, ◌≢◌, ==_refl, suc,
  refl, length, ap, ◌+◌, some, ==_iff, if_ind, ◌⊎◌, ◌==◌, ◌≡◌, ◌∷◌, ◌∙◌, Option, List,
  DecidesEquality, ℕ,
}
pub mod Native
pub mod Improved
pub mod Keys
pub mod Timeout

abbrev pub restamp : PacketStatus → ℕ → PacketRecord → PacketRecord
restamp status duplicates r = record r { status = status; duplicate_count = duplicates }

-- The same record but for its status and the count of its duplicates.
abbrev pub SameOrigin : PacketRecord → PacketRecord → Type 0
SameOrigin r r' = r' ≡ restamp r'.status r'.duplicate_count r

eq-SameOrigin : (r r' : PacketRecord) → r' ≡ r → SameOrigin r r'
eq-SameOrigin r r' e = subst (λ x. SameOrigin r x) (sym e) refl

unfoldable pub filled : Option DataPacket → ℕ
filled none = 0
filled (some p) = 1

unfoldable pub count_filled : List PacketRecord → ℕ
count_filled [] = 0
count_filled (r ∷ rs) = filled r.packet + count_filled rs

pub record Judged (w w' : Work) : Type 0 where
  pub same_context : w'.receiver.context ≡ w.receiver.context
  pub same_count : w'.receiver.received_packet_count ≡ w.receiver.received_packet_count
  pub same_filled : count_filled w'.receiver.packet_records ≡ count_filled w.receiver.packet_records
  pub same_size : length w'.receiver.packet_records ≡ length w.receiver.packet_records
  pub same_slots : (i : ℕ) → SameOrigin (slot w i) (slot w' i)
  pub same_versions : (i : ℕ) → length (candidates_at w' i) ≡ length (candidates_at w i)

pub Judged-refl : (w : Work) → Judged w w
Judged-refl w = record {
  same_context = refl;
  same_count = refl;
  same_filled = refl;
  same_size = refl;
  same_slots = λ i. refl;
  same_versions = λ i. refl;
}

SameOrigin-trans : (r s t : PacketRecord) → SameOrigin r s → SameOrigin s t → SameOrigin r t
SameOrigin-trans r s t e f = f ∙ ap (restamp t.status t.duplicate_count) e

pub Judged-trans : {u v w : Work} → Judged u v → Judged v w → Judged u w
Judged-trans {u} {v} {w} a b = record {
  same_context = b.same_context ∙ a.same_context;
  same_count = b.same_count ∙ a.same_count;
  same_filled = b.same_filled ∙ a.same_filled;
  same_size = b.same_size ∙ a.same_size;
  same_slots =
      λ i. SameOrigin-trans (slot u i) (slot v i) (slot w i) (a.same_slots i) (b.same_slots i);
  same_versions = λ i. b.same_versions i ∙ a.same_versions i;
}

-- A handler that writes what is emitted, or members of the state that the relation leaves out.
pub same_state-Judged :
    (w w' : Work)
    → w'.receiver.context ≡ w.receiver.context
    → w'.receiver.received_packet_count ≡ w.receiver.received_packet_count
    → w'.receiver.packet_records ≡ w.receiver.packet_records
    → w'.receiver.additional_candidates ≡ w.receiver.additional_candidates
    → Judged w w'
unfolding slot candidates_at
same_state-Judged w w' a b c d = record {
  same_context = a;
  same_count = b;
  same_filled = ap count_filled c;
  same_size = ap length c;
  same_slots = λ i. eq-SameOrigin (slot w i) (slot w' i) (ap (λ x. record_at x i) c);
  same_versions = λ i. ap (λ x. length (elim (find ◌==◌ i x) [ none ↦ [] | some cs ↦ cs ])) d;
}

pub set_incomplete-Judged : (w : Work) → Judged w (set_incomplete w)
unfolding set_incomplete
set_incomplete-Judged w = same_state-Judged w _ refl refl refl refl

pub if_valid-Judged :
    (u w w' : Work) (b : Bool) → Judged u w → Judged u w' → Judged u (if_valid b w w').0
unfolding if_valid
if_valid-Judged u w w' true j k = k
if_valid-Judged u w w' false j k = j

pub queue_failure-Judged : (f : PacketFailure) (w : Work) → Judged w (queue_failure f w).0
unfolding queue_failure take_event_id
queue_failure-Judged f w =
    if_ind {A = Ended} (λ x. Judged w x.0) w.observing _ _
      (λ e.
        if_valid-Judged w _ _ _ (same_state-Judged w _ refl refl refl refl)
          (same_state-Judged w _ refl refl refl refl))
      (λ e. Judged-refl w)

pub take_event_id-Judged : (w : Work) → Judged w (take_event_id w)
unfolding take_event_id
take_event_id-Judged w = same_state-Judged w _ refl refl refl refl

pub queue_packet_observation-Judged :
    (o : PacketObservation) (w : Work) → Judged w (queue_packet_observation o w).0
unfolding queue_packet_observation
queue_packet_observation-Judged o w =
    if_ind {A = Ended} (λ x. Judged w x.0) w.observing _ _
      (λ e. if_valid-Judged w _ _ _ (Judged-refl w) (same_state-Judged w _ refl refl refl refl))
      (λ e. Judged-refl w)

filled-SameOrigin : (r r' : PacketRecord) → SameOrigin r r' → filled r'.packet ≡ filled r.packet
filled-SameOrigin r r' e = ap (λ x. filled x.packet) e

count-set_record :
    (rs : List PacketRecord) (i : ℕ) (r : PacketRecord)
    → SameOrigin (record_at rs i) r
    → count_filled (set_record i r rs) ≡ count_filled rs
unfolding set_record record_at count_filled
count-set_record [] i r e = refl
count-set_record (x ∷ xs) zero r e = ap (λ n. n + count_filled xs) (filled-SameOrigin x r e)
count-set_record (x ∷ xs) (suc i) r e = ap (λ n. filled x.packet + n) (count-set_record xs i r e)

pub length-set_record :
    (rs : List PacketRecord) (i : ℕ) (r : PacketRecord) → length (set_record i r rs) ≡ length rs
unfolding set_record
length-set_record [] i r = refl
length-set_record (x ∷ xs) zero r = refl
length-set_record (x ∷ xs) (suc i) r = ap suc (length-set_record xs i r)

at-set_record :
    (rs : List PacketRecord) (i : ℕ) (r : PacketRecord) (j : ℕ)
    → SameOrigin (record_at rs i) r
    → SameOrigin (record_at rs j) (record_at (set_record i r rs) j)
unfolding set_record record_at
at-set_record [] i r j e = refl
at-set_record (x ∷ xs) zero r zero e = e
at-set_record (x ∷ xs) zero r (suc j) e = refl
at-set_record (x ∷ xs) (suc i) r zero e = refl
at-set_record (x ∷ xs) (suc i) r (suc j) e = at-set_record xs i r j e

pub set_slot-Judged :
    (i : ℕ) (r : PacketRecord) (w : Work) → SameOrigin (slot w i) r → Judged w (set_slot i r w)
unfolding set_slot slot candidates_at
set_slot-Judged i r w e = record {
  same_context = refl;
  same_count = refl;
  same_filled = count-set_record w.receiver.packet_records i r e;
  same_size = length-set_record w.receiver.packet_records i r;
  same_slots = λ j. at-set_record w.receiver.packet_records i r j e;
  same_versions = λ j. refl;
}

index-DecidesEquality : DecidesEquality ◌==◌
index-DecidesEquality = record { sound = λ a b e. (==_iff a b).0 e; complete = ==_refl }

-- The candidates of one packet are replaced, those of the others stay.
pub candidates-set_candidates :
    (i : ℕ) (cs : List CandidateRecord) (w : Work) (j : ℕ)
    → ((i ≡ j) × (candidates_at (set_candidates i cs w) j ≡ cs))
      ⊎ ((i ≢ j) × (candidates_at (set_candidates i cs w) j ≡ candidates_at w j))
unfolding candidates_at set_candidates
candidates-set_candidates i cs w j = elim (Bool-cases (j == i)) [
  | inl e ↦ inl (sym ((==_iff j i).0 e), rw (candidates_at, e))
  | inr e ↦
      let m = w.receiver.additional_candidates in
      let other : j ≢ i = λ same.
        let t : (j == i) ≡ true = subst (λ x. (j == x) ≡ true) same (==_refl j) in
        absurd (cc (t, e)) in
      let f : find ◌==◌ j (assign ◌==◌ i cs m) ≡ find ◌==◌ j m =
        find-assign_ne ◌==◌ index-DecidesEquality j i cs m other in
      inr (
        (λ same. other (sym same)),
        ap (λ (o : Option (List CandidateRecord)). elim o [ none ↦ [] | some found ↦ found ]) f,
      )
]

pub set_candidates-Judged :
    (i : ℕ) (cs : List CandidateRecord) (w : Work)
    → length cs ≡ length (candidates_at w i)
    → Judged w (set_candidates i cs w)
unfolding set_candidates slot
set_candidates-Judged i cs w e = record {
  same_context = refl;
  same_count = refl;
  same_filled = refl;
  same_size = refl;
  same_slots = λ j. refl;
  same_versions = λ j. elim (candidates-set_candidates i cs w j) [
    | inl (same, c) ↦ ap length c ∙ e ∙ ap (λ x. length (candidates_at w x)) same
    | inr (other, c) ↦ ap length c
  ];
}
