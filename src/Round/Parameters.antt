-- ===== src/Round/Parameters.antt =====
-- AuthenticationRoundParameters.cpp, and the codec's configuration that the sender and the receiver
-- runtime make from it. The number of tags of the improved mode comes from the KS+RS matrix of the
-- group size and threshold; it is a member here, as it is there.
use mathlib.Core.Option.{none}
use authentication_transmiss.Prelude.{
  leb, runtime_error, ◌/◌, not, ◌-◌, ◌||◌, invalid_argument, ◌==◌, err, some, ◌^◌, fail_if, ok, ◌%◌,
  ◌>>◌, ◌+◌, Option, Throws, ℕ,
}
use authentication_transmiss.Crypto.{CryptoAlgorithm}
use authentication_transmiss.Udp.Context.{
  u32_max, create_context, AuthenticationMode, native, improved, PacketContext,
}

pub data PayloadMode : Type 0 where
  text file : PayloadMode

pub record ImprovedParameters : Type 0 where
  pub group_size : ℕ
  pub detection_threshold : ℕ
  pub tau_count : ℕ

pub record RoundParameters : Type 0 where
  pub algorithm : CryptoAlgorithm
  pub mode : AuthenticationMode
  pub total_packet_count : ℕ
  pub packets_per_interval : ℕ
  pub disclosure_delay : ℕ
  pub interval_milliseconds : ℕ
  pub start_timestamp_milliseconds : ℕ
  pub data_interval_count : ℕ
  pub improved_parameters : Option ImprovedParameters
  pub payload_mode : PayloadMode

-- The checks after the interval count, which depend on the mode.
unfoldable pub check_improved :
    AuthenticationMode → ℕ → Option ImprovedParameters → Throws (Unit {0})
check_improved native packets_per_interval none = ok tt
check_improved native packets_per_interval (some p) = err invalid_argument
check_improved improved packets_per_interval none = err invalid_argument
check_improved improved packets_per_interval (some p) =
    fail_if (not (packets_per_interval % p.group_size == 0)) invalid_argument

-- The constructor, of the members that its arguments set; the interval count is set by the body.
unfoldable pub create_round : RoundParameters → Throws RoundParameters
create_round p = do
  fail_if (p.total_packet_count == 0 || p.packets_per_interval == 0) invalid_argument
  fail_if (p.disclosure_delay == 0 || p.interval_milliseconds == 0) invalid_argument
  let count = (p.total_packet_count - 1) / p.packets_per_interval + 1
  fail_if (leb u32_max count) invalid_argument
  check_improved p.mode p.packets_per_interval p.improved_parameters
  ok (record p { data_interval_count = count })

unfoldable pub chain_length : RoundParameters → ℕ
chain_length p = (p.data_interval_count + 1) % 2 ^ 32

-- `ctxCreatePacketContext`, whose `optImprovedParameters().value()` throws where there are none
-- (std::bad_optional_access, of no class that the code names; the constructor rules it out).
unfoldable pub create_packet_context : RoundParameters → Throws PacketContext
create_packet_context p = elim p.mode [
  | native ↦ create_context (record {
    mode = native;
    packets_per_interval = p.packets_per_interval;
    disclosure_delay = p.disclosure_delay;
    total_packet_count = p.total_packet_count;
    group_size = 0;
    tau_count = 0;
  })
  | improved ↦ elim p.improved_parameters [
    | none ↦ err runtime_error
    | some q ↦ create_context (record {
      mode = improved;
      packets_per_interval = p.packets_per_interval;
      disclosure_delay = p.disclosure_delay;
      total_packet_count = p.total_packet_count;
      group_size = q.group_size;
      tau_count = q.tau_count;
    })
  ]
]
