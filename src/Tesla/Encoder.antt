-- ===== src/Tesla/Encoder.antt =====
-- AuthenticationInputEncoder.cpp: the bytes that the MACs are computed over.
use mathlib.Core.List.{foldl}
use authentication_transmiss.Udp.Context.{u32_max}
use mathlib.Core.Option.{none}
use authentication_transmiss.Tesla.Input.{has_missing_packets, PacketInput, GroupInput}
use authentication_transmiss.Wire.{append_uint64, shift_loop}
use authentication_transmiss.Prelude.{
  ok, ltb, invalid_argument, ◌^◌, some, fail_if, ◌∷◌, [], ◌/◌, ◌%◌, ◌>>◌, length, Option, Throws,
  ◌++◌, List, ℕ,
}

unfoldable pub append_uint16 : List ℕ → ℕ → List ℕ
append_uint16 out v = out ++ ((v / 2 ^ 8 % 256) ∷ (v % 256) ∷ [])

-- This class writes both widths by the loop over the shifts.
unfoldable pub append_uint32 : List ℕ → ℕ → List ℕ
unfolding shift_loop
append_uint32 out v = shift_loop 4 out v

unfoldable pub append_sender_id : List ℕ → List ℕ → List ℕ
append_sender_id out sender_id = append_uint16 out (length sender_id % 2 ^ 16) ++ sender_id

unfoldable pub encode_packet_mac_input : PacketInput → List ℕ
encode_packet_mac_input p =
    append_uint32
      (append_uint32 (append_uint64 (append_sender_id [] p.sender_id) p.chain_id) p.interval_index)
      p.packet_index
    ++ p.message

-- The loop over the slots of a group without empty ones (`optPacket.value()`).
unfoldable pub append_slots : List ℕ → List (Option PacketInput) → List ℕ
append_slots out [] = out
append_slots out (none ∷ slots) = append_slots out slots
append_slots out (some p ∷ slots) =
    append_slots (append_uint32 out p.packet_index ++ p.message) slots

unfoldable pub encode_fast_group_input : GroupInput → List (List ℕ) → Throws (List ℕ)
encode_fast_group_input g samd_tau = do
  fail_if (has_missing_packets g) invalid_argument
  fail_if (ltb u32_max (length samd_tau)) invalid_argument
  let head =
      append_uint32
        (append_uint32
          (append_uint32 (append_uint64 (append_sender_id [] g.sender_id) g.chain_id)
            g.interval_index)
          g.group_index)
        (length g.packet_slots % 2 ^ 32)
  let body = append_slots head g.packet_slots
  ok (foldl ◌++◌ (append_uint32 body (length samd_tau % 2 ^ 32)) samd_tau)
