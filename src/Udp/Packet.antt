-- ===== src/Udp/Packet.antt =====
-- The packet model: what a datagram says, without the fields that the context supplies.
use authentication_transmiss.Prelude.{
  ℕ, Bool, true, false, ◌||◌, ◌==◌, Option, none, some, List, [], ◌∷◌, All, Throws, ok, fail_if,
  ◌>>◌, invalid_argument, ◌≢◌,
}
use authentication_transmiss.Wire.{IsBlock, IsU32, IsU64}

pub record PacketHeader : Type 0 where
  pub chain_id : ℕ
  pub interval_index : ℕ
  pub packet_index : ℕ

unfoldable pub create_header : PacketHeader → Throws PacketHeader
create_header h = do fail_if (h.chain_id == 0 || h.interval_index == 0) invalid_argument; ok h

pub record GroupDetails : Type 0 where
  pub samd_tau : List (List ℕ)
  pub fast_group_tag : List ℕ

unfoldable pub is_empty {ℓ} : {A : Type ℓ} → List A → Bool
is_empty [] = true
is_empty (x ∷ xs) = false

unfoldable pub create_group_details : GroupDetails → Throws GroupDetails
unfolding is_empty
create_group_details g = do fail_if (is_empty g.samd_tau) invalid_argument; ok g

-- `std::variant<NativeUdpAuthenticationDetails, ImprovedUdpAuthenticationDetails>`.
pub data AuthenticationDetails : Type 0 where
  native_details : List ℕ → AuthenticationDetails
  improved_details : Option GroupDetails → AuthenticationDetails

pub record DataPacket : Type 0 where
  pub header : PacketHeader
  pub open header use *
  pub message : List ℕ
  pub disclosed_key : Option (List ℕ)
  pub details : AuthenticationDetails

unfoldable pub create_data_packet : DataPacket → Throws DataPacket
create_data_packet p = do
  fail_if (p.chain_id == 0) invalid_argument
  fail_if (p.interval_index == 0 || p.packet_index == 0) invalid_argument
  ok p

pub record DisclosurePacket : Type 0 where
  pub chain_id : ℕ
  pub interval_index : ℕ
  pub disclosed_key : List ℕ

unfoldable pub create_disclosure_packet : DisclosurePacket → Throws DisclosurePacket
create_disclosure_packet p = do
  fail_if (p.chain_id == 0 || p.interval_index == 0) invalid_argument
  ok p

pub data Packet : Type 0 where
  data_packet : DataPacket → Packet
  disclosure_packet : DisclosurePacket → Packet

-- What the C++ types and the constructors promise of a packet object.
abbrev pub OptionalBlock : Option (List ℕ) → Type 0
OptionalBlock none = Unit {0}
OptionalBlock (some b) = IsBlock b

abbrev pub DetailsFit : AuthenticationDetails → Type 0
DetailsFit (native_details mac) = IsBlock mac
DetailsFit (improved_details none) = Unit {0}
DetailsFit (improved_details (some g)) =
    (g.samd_tau ≢ []) × All IsBlock g.samd_tau × IsBlock g.fast_group_tag

abbrev pub WellFormed : Packet → Type 0
WellFormed (data_packet p) =
    IsU64 p.chain_id
    × (p.chain_id ≢ 0)
    × IsU32 p.interval_index
    × (p.interval_index ≢ 0)
    × IsU32 p.packet_index
    × (p.packet_index ≢ 0)
    × IsBlock p.message
    × OptionalBlock p.disclosed_key
    × DetailsFit p.details
WellFormed (disclosure_packet p) =
    IsU64 p.chain_id
    × (p.chain_id ≢ 0)
    × IsU32 p.interval_index
    × (p.interval_index ≢ 0)
    × IsBlock p.disclosed_key
