-- ===== src/Tesla/GroupInjective.antt =====
-- The input of the fast group tag determines the whole group and the SAMD tags.
use authentication_transmiss.Udp.Layout.{foldl-flatten}
use mathlib.Core.Option.{none}
use authentication_transmiss.Wire.RoundTrip.{append_uint64_lem, bytes32, bytes64}
use authentication_transmiss.Wire.{IsU64, IsBlock, IsU32}
use mathlib.Core.List.{[], flatten}
use authentication_transmiss.Tesla.Encoder.{append_uint32, encode_fast_group_input, append_slots}
use authentication_transmiss.Tesla.Input.{
  IsPacketInput, SlotsFit, PacketInput, has_missing_packets, GroupInput, any_missing,
}
use authentication_transmiss.Prelude.{
  ap, ◌+◌, ◌∙◌, le→ltb-false, append-injective, append_assoc, refl, ◌^◌, arith, append-nil, ◌<◌,
  ◌%◌, false, sym, ok, All, ◌++◌, some, ◌≤◌, ◌∷◌, length, ◌≡◌, List, Option, ℕ,
}
use authentication_transmiss.Tesla.Injective.{
  field64, sender_bytes-injective, append_sender_id_lem, field32, sender_bytes, append_uint32_lem,
}

abbrev pub slot_bytes : List (Option PacketInput) → List ℕ
slot_bytes [] = []
slot_bytes (none ∷ slots) = slot_bytes slots
slot_bytes (some p ∷ slots) = bytes32 p.packet_index ++ (p.message ++ slot_bytes slots)

abbrev pub group_bytes : GroupInput → List (List ℕ) → List ℕ
group_bytes g taus =
    sender_bytes g.sender_id
    ++ (bytes64 g.chain_id
        ++ (bytes32 g.interval_index
            ++ (bytes32 g.group_index
                ++ (bytes32 (length g.packet_slots)
                    ++ (slot_bytes g.packet_slots ++ (bytes32 (length taus) ++ flatten taus))))))

abbrev pub IsFilledSlot : Option PacketInput → Type 0
IsFilledSlot none = ⊥
IsFilledSlot (some p) = IsPacketInput p

-- A group input that the constructor accepts, none of whose packets is missing.
pub record IsCompleteGroup (g : GroupInput) : Type 0 where
  pub sender_short : length g.sender_id ≤ 0xffff
  pub chain_u64 : IsU64 g.chain_id
  pub interval_u32 : IsU32 g.interval_index
  pub group_u32 : IsU32 g.group_index
  pub slots_some : 0 < length g.packet_slots
  pub slots_u32 : IsU32 (length g.packet_slots)
  pub filled : All IsFilledSlot g.packet_slots
  pub fit : SlotsFit g 0 g.packet_slots

pub any_missing-filled :
    (slots : List (Option PacketInput)) → All IsFilledSlot slots → any_missing slots ≡ false
unfolding any_missing
any_missing-filled [] h = refl
any_missing-filled (none ∷ slots) h = absurd h.0
any_missing-filled (some p ∷ slots) h = any_missing-filled slots h.1

append_slots_lem :
    (out : List ℕ) (slots : List (Option PacketInput))
    → append_slots out slots ≡ out ++ slot_bytes slots
unfolding append_slots
append_slots_lem out [] = sym (append-nil out)
append_slots_lem out (none ∷ slots) = append_slots_lem out slots
append_slots_lem out (some p ∷ slots) =
    append_slots_lem (append_uint32 out p.packet_index ++ p.message) slots
    ∙ simp (append_uint32_lem, append_assoc)

-- The encoder accepts a complete group with at most 2^32 - 1 tags, and writes these bytes.
pub encode_fast_group_input_lem :
    (g : GroupInput) (taus : List (List ℕ))
    → IsCompleteGroup g
    → IsU32 (length taus)
    → encode_fast_group_input g taus ≡ ok (group_bytes g taus)
unfolding encode_fast_group_input has_missing_packets
encode_fast_group_input_lem g taus v h =
    let n : length g.packet_slots % 2 ^ 32 ≡ length g.packet_slots = omega (arith, v.slots_u32) in
    let m : length taus % 2 ^ 32 ≡ length taus = omega arith in
    rw
      (
        any_missing-filled g.packet_slots v.filled,
        le→ltb-false 0xffff_ffff (length taus) (omega arith),
        n,
        m,
        append_sender_id_lem g.sender_id v.sender_short,
        append_slots_lem,
        foldl-flatten,
      )
      (ap ok (simp (append_uint32_lem, append_uint64_lem, append_assoc)))

flatten-injective :
    (ts us : List (List ℕ))
    → length ts ≡ length us
    → All IsBlock ts
    → All IsBlock us
    → flatten ts ≡ flatten us
    → ts ≡ us
unfolding flatten
flatten-injective [] [] n h k e = refl
flatten-injective [] (u ∷ us) n h k e = absurd (omega arith)
flatten-injective (t ∷ ts) [] n h k e = absurd (omega arith)
flatten-injective (t ∷ ts) (u ∷ us) n h k e =
    let (p, q) = append-injective t u (omega (arith, h.0.0, k.0.0)) e in
    λ i. p i ∷ flatten-injective ts us (omega arith) h.1 k.1 q i

module _ (g h : GroupInput) (same_sender : g.sender_id ≡ h.sender_id)
    (same_chain : g.chain_id ≡ h.chain_id)
    (same_interval : g.interval_index ≡ h.interval_index) where
  slot_bytes-injective :
      (position : ℕ) (ps qs : List (Option PacketInput)) {ys zs : List ℕ}
      → length ps ≡ length qs
      → All IsFilledSlot ps
      → All IsFilledSlot qs
      → SlotsFit g position ps
      → SlotsFit h position qs
      → slot_bytes ps ++ ys ≡ slot_bytes qs ++ zs
      → (ps ≡ qs) × (ys ≡ zs)
  slot_bytes-injective position [] [] n a b c d e = (refl, e)
  slot_bytes-injective position [] (q ∷ qs) n a b c d e = absurd (omega arith)
  slot_bytes-injective position (p ∷ ps) [] n a b c d e = absurd (omega arith)
  slot_bytes-injective position (none ∷ ps) (q ∷ qs) n a b c d e = absurd a.0
  slot_bytes-injective position (some p ∷ ps) (none ∷ qs) n a b c d e = absurd b.0
  slot_bytes-injective position (some p ∷ ps) (some q ∷ qs) {ys = ys} {zs = zs} n a b c d e =
      let shifted =
        (sym (append_assoc (bytes32 p.packet_index) (p.message ++ slot_bytes ps) ys) ∙ e)
        ∙ append_assoc (bytes32 q.packet_index) (q.message ++ slot_bytes qs) zs in
      let (index, e1) =
        field32 p.packet_index q.packet_index a.0.packet_u32 b.0.packet_u32 shifted in
      let (message, e2) =
        append-injective p.message q.message (a.0.message_block.0 ∙ sym b.0.message_block.0) (
          sym (append_assoc p.message (slot_bytes ps) ys)
          ∙ e1
          ∙ append_assoc q.message (slot_bytes qs) zs) in
      let (rest, e3) = slot_bytes-injective (position + 1) ps qs (omega arith) a.1 b.1 c.1 d.1 e2 in
      let sender : p.sender_id ≡ q.sender_id = c.0.0 ∙ same_sender ∙ sym d.0.0 in
      let chain : p.chain_id ≡ q.chain_id = c.0.1 ∙ same_chain ∙ sym d.0.1 in
      let interval : p.interval_index ≡ q.interval_index = c.0.2 ∙ same_interval ∙ sym d.0.2 in
      (
        (λ i.
            some (record {
              sender_id = sender i;
              chain_id = chain i;
              interval_index = interval i;
              packet_index = index i;
              message = message i;
            })
            ∷ rest i),
        e3,
      )

first_index :
    (g h : GroupInput) (ps qs : List (Option PacketInput))
    → 0 < length ps
    → All IsFilledSlot ps
    → ps ≡ qs
    → SlotsFit g 0 ps
    → SlotsFit h 0 qs
    → g.first_packet_index ≡ h.first_packet_index
first_index g h [] qs n a e c d = absurd (omega arith)
first_index g h (none ∷ ps) qs n a e c d = absurd a.0
first_index g h (some p ∷ ps) [] n a e c d = cc
first_index g h (some p ∷ ps) (none ∷ qs) n a e c d = cc
first_index g h (some p ∷ ps) (some q ∷ qs) n a e c d =
    let same : p.packet_index ≡ q.packet_index = cc in omega (arith, c.0.3, d.0.3)

-- Two complete groups with SAMD tags of 32 bytes have one fast group input only if they are the
-- same group with the same tags.
pub encode_fast_group_input-injective :
    (g h : GroupInput) (ts us : List (List ℕ))
    → IsCompleteGroup g
    → IsCompleteGroup h
    → IsU32 (length ts)
    → IsU32 (length us)
    → All IsBlock ts
    → All IsBlock us
    → encode_fast_group_input g ts ≡ encode_fast_group_input h us
    → (g ≡ h) × (ts ≡ us)
encode_fast_group_input-injective g h ts us v w nt nu bt bu e =
    let whole : group_bytes g ts ≡ group_bytes h us =
      cc (encode_fast_group_input_lem g ts v nt, encode_fast_group_input_lem h us w nu) in
    let (s, e1) =
      sender_bytes-injective g.sender_id h.sender_id v.sender_short w.sender_short whole in
    let (c, e2) = field64 g.chain_id h.chain_id v.chain_u64 w.chain_u64 e1 in
    let (i, e3) = field32 g.interval_index h.interval_index v.interval_u32 w.interval_u32 e2 in
    let (k, e4) = field32 g.group_index h.group_index v.group_u32 w.group_u32 e3 in
    let (n, e5) =
      field32 (length g.packet_slots) (length h.packet_slots) v.slots_u32 w.slots_u32 e4 in
    let (slots, e6) =
      slot_bytes-injective g h s c i 0 g.packet_slots h.packet_slots n v.filled w.filled v.fit w.fit
        e5 in
    let (m, e7) = field32 (length ts) (length us) nt nu e6 in
    let first =
      first_index g h g.packet_slots h.packet_slots v.slots_some v.filled slots v.fit w.fit in
    (
      (λ j. record {
        sender_id = s j;
        chain_id = c j;
        interval_index = i j;
        group_index = k j;
        first_packet_index = first j;
        packet_slots = slots j;
      }),
      flatten-injective ts us m bt bu e7,
    )
