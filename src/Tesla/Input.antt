-- ===== src/Tesla/Input.antt =====
-- AuthenticationPacketInput.cpp: the packet and group inputs of the algorithms. A group keeps one
-- slot for each packet, empty where the packet was lost.
use authentication_transmiss.Udp.Context.{u32_max}
use mathlib.Core.Option.{none}
use authentication_transmiss.Wire.{IsBlock, IsU32, IsU64}
use mathlib.Core.List.{[]}
use authentication_transmiss.Prelude.{
  ltb, ◌&&◌, invalid_argument, ◌||◌, not, ==_refl, refl, ◌==◌, true, ◌+◌, ◌≤◌, fail_if, >>=-eq-ok,
  arith, ◌∷◌, length, ok, some, ◌>>◌, false, ◌≡◌, ◌<◌, Option, Throws, Bool, List, ℕ,
}

pub record PacketInput : Type 0 where
  pub sender_id : List ℕ
  pub chain_id : ℕ
  pub interval_index : ℕ
  pub packet_index : ℕ
  pub message : List ℕ

pub record GroupInput : Type 0 where
  pub sender_id : List ℕ
  pub chain_id : ℕ
  pub interval_index : ℕ
  pub group_index : ℕ
  pub first_packet_index : ℕ
  pub packet_slots : List (Option PacketInput)

-- `std::numeric_limits<std::uint16_t>::max()`.
abbrev pub u16_max : ℕ
u16_max = 0xffff

unfoldable pub create_packet_input : PacketInput → Throws PacketInput
create_packet_input p = do
  fail_if (length p.sender_id == 0) invalid_argument
  fail_if (ltb u16_max (length p.sender_id)) invalid_argument
  fail_if (p.interval_index == 0 || p.packet_index == 0) invalid_argument
  ok p

-- Equality of two `std::string`s.
unfoldable pub same_text : List ℕ → List ℕ → Bool
same_text [] [] = true
same_text (x ∷ xs) (y ∷ ys) = x == y && same_text xs ys
same_text [] (y ∷ ys) = false
same_text (x ∷ xs) [] = false

-- One round of `validatePacketSlots`. The sum is taken in 64 bits, so it does not wrap.
unfoldable pub check_slot : GroupInput → ℕ → Option PacketInput → Throws (Unit {0})
unfolding same_text
check_slot g position none = ok tt
check_slot g position (some p) = do
  fail_if
      (not (same_text p.sender_id g.sender_id)
        || not (p.chain_id == g.chain_id)
        || not (p.interval_index == g.interval_index))
      invalid_argument
  fail_if
      (ltb u32_max (g.first_packet_index + position)
        || not (p.packet_index == g.first_packet_index + position))
      invalid_argument

unfoldable pub validate_packet_slots :
    GroupInput → ℕ → List (Option PacketInput) → Throws (Unit {0})
unfolding check_slot
validate_packet_slots g position [] = ok tt
validate_packet_slots g position (slot ∷ slots) = do
  check_slot g position slot
  validate_packet_slots g (position + 1) slots

unfoldable pub create_group_input : GroupInput → Throws GroupInput
unfolding validate_packet_slots
create_group_input g = do
  fail_if (length g.sender_id == 0) invalid_argument
  fail_if (ltb u16_max (length g.sender_id)) invalid_argument
  fail_if (g.interval_index == 0 || g.group_index == 0 || g.first_packet_index == 0)
      invalid_argument
  fail_if (length g.packet_slots == 0) invalid_argument
  fail_if (ltb u32_max (length g.packet_slots)) invalid_argument
  validate_packet_slots g 0 g.packet_slots
  ok g

unfoldable pub any_missing : List (Option PacketInput) → Bool
any_missing [] = false
any_missing (none ∷ slots) = true
any_missing (some p ∷ slots) = any_missing slots

unfoldable pub has_missing_packets : GroupInput → Bool
unfolding any_missing
has_missing_packets g = any_missing g.packet_slots

-- What the C++ types and the constructor promise of a packet input.
pub record IsPacketInput (p : PacketInput) : Type 0 where
  pub sender_nonempty : 0 < length p.sender_id
  pub sender_short : length p.sender_id ≤ 0xffff
  pub chain_u64 : IsU64 p.chain_id
  pub interval_u32 : IsU32 p.interval_index
  pub packet_u32 : IsU32 p.packet_index
  pub interval_pos : 0 < p.interval_index
  pub packet_pos : 0 < p.packet_index
  pub message_block : IsBlock p.message

abbrev pub SlotFits : GroupInput → ℕ → Option PacketInput → Type 0
SlotFits g position none = Unit {0}
SlotFits g position (some p) =
    (p.sender_id ≡ g.sender_id)
    × (p.chain_id ≡ g.chain_id)
    × (p.interval_index ≡ g.interval_index)
    × (p.packet_index ≡ g.first_packet_index + position)
    × IsU32 p.packet_index

abbrev pub SlotsFit : GroupInput → ℕ → List (Option PacketInput) → Type 0
SlotsFit g position [] = Unit {0}
SlotsFit g position (slot ∷ slots) = SlotFits g position slot × SlotsFit g (position + 1) slots

pub same_text→eq : (xs ys : List ℕ) → same_text xs ys ≡ true → xs ≡ ys
unfolding same_text
same_text→eq [] [] e = refl
same_text→eq (x ∷ xs) (y ∷ ys) e = ground (arith, same_text→eq xs ys)
same_text→eq [] (y ∷ ys) e = cc
same_text→eq (x ∷ xs) [] e = cc

pub same_text_refl : (xs : List ℕ) → same_text xs xs ≡ true
unfolding same_text
same_text_refl [] = refl
same_text_refl (x ∷ xs) = rw (==_refl, same_text_refl xs)

check_slot→SlotFits :
    (g : GroupInput) (position : ℕ) (slot : Option PacketInput)
    → check_slot g position slot ≡ ok tt
    → SlotFits g position slot
unfolding check_slot
check_slot→SlotFits g position none e = tt
check_slot→SlotFits g position (some p) e = ground (arith, same_text→eq p.sender_id g.sender_id)

pub validate_packet_slots→SlotsFit :
    (g : GroupInput) (position : ℕ) (slots : List (Option PacketInput))
    → validate_packet_slots g position slots ≡ ok tt
    → SlotsFit g position slots
unfolding validate_packet_slots
validate_packet_slots→SlotsFit g position [] e = tt
validate_packet_slots→SlotsFit g position (slot ∷ slots) e =
    let (u, here, there) = >>=-eq-ok (check_slot g position slot) _ e in
    (
      check_slot→SlotFits g position slot here,
      validate_packet_slots→SlotsFit g (position + 1) slots there,
    )
