-- ===== src/Udp/Context.antt =====
-- UdpAuthenticationPacketContext: the trusted round configuration that says which conditional
-- fields a datagram carries.
use authentication_transmiss.Prelude.{
  ℕ, ◌+◌, ◌-◌, ◌/◌, ◌%◌, ◌≤◌, ◌<◌, ◌≡◌, Bool, true, false, not, ◌&&◌, ◌||◌, ltb, ◌==◌,
  if◌then◌else◌, Throws, ok, fail_if, ◌>>◌, invalid_argument, out_of_range, arith,
}
use authentication_transmiss.Wire.{IsU32}

pub data AuthenticationMode : Type 0 where
  native improved : AuthenticationMode

pub record PacketContext : Type 0 where
  pub mode : AuthenticationMode
  pub packets_per_interval : ℕ
  pub disclosure_delay : ℕ
  pub total_packet_count : ℕ
  pub group_size : ℕ
  pub tau_count : ℕ

-- `std::numeric_limits<std::uint32_t>::max()`.
abbrev pub u32_max : ℕ
u32_max = 0xffff_ffff

abbrev pub max_safe_tau_count : ℕ
max_safe_tau_count = 2043

-- ((n - 1) / p) + 1 for n ≥ 1: the interval of packet n.
abbrev pub interval_of : ℕ → ℕ → ℕ
interval_of packet_index packets_per_interval = (packet_index - 1) / packets_per_interval + 1

unfoldable pub check_mode : PacketContext → Throws PacketContext
check_mode c = elim c.mode [
  | native ↦ do fail_if (not (c.group_size == 0) || not (c.tau_count == 0)) invalid_argument; ok c
  | improved ↦ do
    fail_if (c.group_size == 0 || c.tau_count == 0) invalid_argument
    fail_if (not (c.packets_per_interval % c.group_size == 0)) invalid_argument
    fail_if (ltb max_safe_tau_count c.tau_count) invalid_argument
    ok c
]

-- The constructor.
unfoldable pub create_context : PacketContext → Throws PacketContext
unfolding check_mode
create_context c = do
  fail_if (c.packets_per_interval == 0 || c.total_packet_count == 0) invalid_argument
  fail_if (c.disclosure_delay == 0) invalid_argument
  let final_interval = interval_of c.total_packet_count c.packets_per_interval
  fail_if (ltb (u32_max - final_interval) c.disclosure_delay) invalid_argument
  check_mode c

unfoldable pub expected_interval : PacketContext → ℕ → Throws ℕ
expected_interval c packet_index = do
  fail_if (packet_index == 0 || ltb c.total_packet_count packet_index) out_of_range
  ok (interval_of packet_index c.packets_per_interval)

unfoldable pub packet_carries_disclosed_key : PacketContext → ℕ → ℕ → Bool
packet_carries_disclosed_key c interval_index packet_index =
    ltb 0 packet_index
    && ltb c.disclosure_delay interval_index
    && ((packet_index - 1) % c.packets_per_interval == 0)

unfoldable pub is_mode_improved : AuthenticationMode → Bool
is_mode_improved native = false
is_mode_improved improved = true

unfoldable pub is_improved_group_end : PacketContext → ℕ → Bool
unfolding is_mode_improved
is_improved_group_end c packet_index =
    if not (is_mode_improved c.mode) || packet_index == 0
    then false
    else (packet_index % c.group_size == 0) || packet_index == c.total_packet_count

abbrev pub ModeFields : AuthenticationMode → PacketContext → Type 0
ModeFields native c = (c.group_size ≡ 0) × (c.tau_count ≡ 0)
ModeFields improved c =
    (0 < c.group_size)
    × (0 < c.tau_count)
    × (c.packets_per_interval % c.group_size ≡ 0)
    × (c.tau_count ≤ 2043)

-- What the constructor establishes, and the ranges of the field types.
pub record IsValid (c : PacketContext) : Type 0 where
  pub per_interval : 0 < c.packets_per_interval
  pub total : 0 < c.total_packet_count
  pub delay : 0 < c.disclosure_delay
  pub total_u32 : IsU32 c.total_packet_count
  pub schedule :
      interval_of c.total_packet_count c.packets_per_interval + c.disclosure_delay ≤ u32_max
  pub mode_fields : ModeFields c.mode c

-- A context that the constructor returns has the fields it was given, and is valid.
pub create_context-IsValid :
    (c d : PacketContext)
    → IsU32 c.total_packet_count
    → create_context c ≡ ok d
    → (d ≡ c) × IsValid c
unfolding create_context
create_context-IsValid c d u h = ground arith

pub IsValid-create_context : (c : PacketContext) → IsValid c → create_context c ≡ ok c
unfolding create_context
IsValid-create_context c v = ground arith
