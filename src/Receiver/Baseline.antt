-- ===== src/Receiver/Baseline.antt =====
-- The slots of a round: a packet that stands in one stays, attack injections never do, every count
-- is right, and the versions that are kept of a packet are few.
use authentication_transmiss.Receiver.Frame.{filled}
use Prim.Native.Nat.{zero}
use authentication_transmiss.Receiver.Datagram.{new_record, count_received, process_datagram}
use mathlib.Core.List.{[]}
use authentication_transmiss.Wire.{IsU32, IsByte}
use authentication_transmiss.Udp.Packet.{DataPacket}
use authentication_transmiss.Tesla.KsRs.{KsRsMatrix}
use authentication_transmiss.Crypto.{CryptoProvider}
use authentication_transmiss.Receiver.State.{Work, QueuedDatagram, PacketRecord}
use authentication_transmiss.Receiver.Frame.{SameOrigin, count_filled}
use authentication_transmiss.Receiver.Observe.{
  set_slot, set_candidates, slot, record_at, set_record,
}
use authentication_transmiss.Receiver.Outcome.{
  slot_filled, version_kept, only_judged, process_datagram-Outcome, Outcome,
}
use authentication_transmiss.Prelude.{
  refl, inr, subst, ok, suc, ◌+◌, some, All, none, ◌∷◌, inl, ◌⊎◌, arith, ap, length, ◌<◌, ◌≡◌, ◌≤◌,
  List, Option, ℕ,
}

pub at-set_record-cases :
    (rs : List PacketRecord) (i : ℕ) (r : PacketRecord) (j : ℕ)
    → (record_at (set_record i r rs) j ≡ record_at rs j)
      ⊎ ((i ≡ j) × (record_at (set_record i r rs) j ≡ r))
unfolding set_record record_at
at-set_record-cases [] i r j = inl refl
at-set_record-cases (x ∷ xs) zero r zero = inr (refl, refl)
at-set_record-cases (x ∷ xs) zero r (suc j) = inl refl
at-set_record-cases (x ∷ xs) (suc i) r zero = inl refl
at-set_record-cases (x ∷ xs) (suc i) r (suc j) = elim (at-set_record-cases xs i r j) [
  | inl e ↦ inl e
  | inr (e, f) ↦ inr (ap suc e, f)
]

-- A slot that is filled adds one to the count.
pub count-fill :
    (rs : List PacketRecord) (i : ℕ) (r : PacketRecord)
    → i < length rs
    → (record_at rs i).packet ≡ none
    → filled r.packet ≡ 1
    → count_filled (set_record i r rs) ≡ count_filled rs + 1
unfolding set_record record_at count_filled filled
count-fill [] i r h e f = absurd (omega arith)
count-fill (x ∷ xs) zero r h e f = let g : filled x.packet ≡ 0 = ap filled e in omega (arith, f, g)
count-fill (x ∷ xs) (suc i) r h e f = omega (arith, count-fill xs i r (omega arith) e f)

filled_le : (o : Option DataPacket) → filled o ≤ 1
unfolding filled
filled_le none = omega arith
filled_le (some p) = omega arith

pub count_le : (rs : List PacketRecord) → count_filled rs ≤ length rs
unfolding count_filled
count_le [] = omega arith
count_le (x ∷ xs) = omega (arith, filled_le x.packet, count_le xs)

-- The packet of a record and of what a judgement makes of it.
pub same_packet :
    (r r' : PacketRecord) → SameOrigin r r' → (r'.packet ≡ r.packet) × (r'.source ≡ r.source)
same_packet r r' e = (ap (λ x. x.packet) e, ap (λ x. x.source) e)

module _ (c : CryptoProvider) (m : KsRsMatrix) (sha256 : List ℕ → List ℕ) (q : QueuedDatagram)
    (w w' : Work) (bytes : All IsByte q.datagram)
    (u32 : IsU32 w.receiver.context.round.total_packet_count)
    (returns : process_datagram c m sha256 q w ≡ ok w') where
  kept :
      Outcome w.receiver.context.round.total_packet_count w w'
      → (i : ℕ) (p : DataPacket) → (slot w i).packet ≡ some p
      → SameOrigin (slot w i) (slot w' i)
  unfolding slot set_candidates count_received set_slot
  kept (only_judged j) i p e = j.same_slots i
  kept (version_kept k cs le j) i p e = j.same_slots i
  kept (slot_filled a id range free normal j) i p e =
      elim (at-set_record-cases w.receiver.packet_records a.packet.packet_index (new_record a id)
        i) [
          | inl same ↦ subst (λ r. SameOrigin r (slot w' i)) same (j.same_slots i)
          | inr (k, same) ↦
              let free' : (record_at w.receiver.packet_records i).packet ≡ none =
                subst (λ x. (record_at w.receiver.packet_records x).packet ≡ none) k free in
              absurd (cc e)
        ]

  -- Whatever datagram is processed next, a slot that holds a packet keeps it, with its raw bytes, its time and number, its hash and its source: nothing but its status and the count of its duplicates changes.
  pub baseline_kept :
      (i : ℕ) (p : DataPacket) → (slot w i).packet ≡ some p → SameOrigin (slot w i) (slot w' i)
  baseline_kept i p e = kept (process_datagram-Outcome c m sha256 q w w' bytes u32 returns) i p e
