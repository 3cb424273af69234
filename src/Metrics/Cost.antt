-- ===== src/Metrics/Cost.antt =====
-- CommunicationCost.cpp, and the summary's constructor of AuthenticationMetrics.cpp.
use authentication_transmiss.Udp.Context.{improved, native, AuthenticationMode}
use authentication_transmiss.Prelude.{
  ◌*◌, overflow_error, invalid_argument, length, ◌/◌, ◌||◌, if◌then◌else◌, ◌-◌, ltb, ok, ◌^◌, ◌==◌,
  ◌%◌, logic_error, fail_if, Bool, err, ◌>>=◌, List, ◌+◌, ◌>>◌, Throws,
}
use Prim.Native.Nat.{ℕ}

abbrev pub algorithm_field_size : ℕ
algorithm_field_size = 32

unfoldable pub multiply_field_count : ℕ → Throws ℕ
multiply_field_count field_count = do
  fail_if (ltb ((2 ^ 64 - 1) / algorithm_field_size) field_count) overflow_error
  ok (field_count * algorithm_field_size)

-- The bytes of messages and keys, and those of MACs, or of tags and fast group tags.
pub data CostDetails : Type 0 where
  native_cost : ℕ → ℕ → ℕ → CostDetails
  improved_cost : ℕ → ℕ → ℕ → ℕ → CostDetails

pub record CostHeader : Type 0 where
  pub timestamp_milliseconds : ℕ
  pub round_id : List ℕ
  pub sender_id : List ℕ
  pub chain_id : ℕ

pub record CostSummary : Type 0 where
  pub header : CostHeader
  pub details : CostDetails

unfoldable pub create_summary : CostHeader → CostDetails → Throws CostSummary
create_summary h d = do
  fail_if (h.timestamp_milliseconds == 0 || length h.round_id == 0 || length h.sender_id == 0)
      invalid_argument
  ok (record { header = h; details = d })

unfoldable pub sum_native : CostHeader → ℕ → ℕ → Throws CostSummary
sum_native h packet_count data_interval_count = do
  message ← multiply_field_count packet_count
  key ← multiply_field_count data_interval_count
  mac ← multiply_field_count packet_count
  create_summary h (native_cost message key mac)

unfoldable pub sum_improved : CostHeader → ℕ → ℕ → ℕ → ℕ → Throws CostSummary
sum_improved h packet_count data_interval_count tau_count group_count = do
  message ← multiply_field_count packet_count
  key ← multiply_field_count data_interval_count
  tau ← multiply_field_count tau_count
  fast ← multiply_field_count group_count
  create_summary h (improved_cost message key tau fast)

pub record Accumulator : Type 0 where
  pub mode : AuthenticationMode
  pub message_bytes : ℕ
  pub key_bytes : ℕ
  pub mac_bytes : ℕ
  pub tau_bytes : ℕ
  pub fast_group_tag_bytes : ℕ

abbrev pub empty_accumulator : AuthenticationMode → Accumulator
empty_accumulator mode = record {
  mode = mode;
  message_bytes = 0;
  key_bytes = 0;
  mac_bytes = 0;
  tau_bytes = 0;
  fast_group_tag_bytes = 0;
}

-- `+=` on a uint64_t.
abbrev pub add_u64 : ℕ → ℕ → ℕ
add_u64 a b = (a + b) % 2 ^ 64

-- `addNativeDataPacket`, for the mode of the accumulator.
unfoldable pub add_native : AuthenticationMode → Accumulator → Throws Accumulator
add_native improved a = err logic_error
add_native native a = ok (record a {
  message_bytes = add_u64 a.message_bytes algorithm_field_size;
  mac_bytes = add_u64 a.mac_bytes algorithm_field_size;
})

-- The rest of `addImprovedDataPacket`, from the bytes of the tags.
unfoldable pub add_tags : Throws ℕ → Bool → Accumulator → Accumulator × Throws (Unit {0})
add_tags (err e) has_fast_group_tag a = (a, err e)
add_tags (ok tau) has_fast_group_tag a = (
  record a {
    tau_bytes = add_u64 a.tau_bytes tau;
    fast_group_tag_bytes =
        if has_fast_group_tag
        then add_u64 a.fast_group_tag_bytes algorithm_field_size
        else a.fast_group_tag_bytes;
  },
  ok tt,
)

-- `addImprovedDataPacket`, which counts the message before the number of tags may be refused.
unfoldable pub add_improved :
    AuthenticationMode → ℕ → Bool → Accumulator → Accumulator × Throws (Unit {0})
add_improved native tau_count has_fast_group_tag a = (a, err logic_error)
add_improved improved tau_count has_fast_group_tag a =
    add_tags (multiply_field_count tau_count) has_fast_group_tag
      (record a { message_bytes = add_u64 a.message_bytes algorithm_field_size })

unfoldable pub add_disclosed_key : Accumulator → Accumulator
add_disclosed_key a = record a { key_bytes = add_u64 a.key_bytes algorithm_field_size }

unfoldable pub details_of : AuthenticationMode → Accumulator → CostDetails
details_of native a = native_cost a.message_bytes a.key_bytes a.mac_bytes
details_of improved a = improved_cost a.message_bytes a.key_bytes a.tau_bytes a.fast_group_tag_bytes

unfoldable pub sum_create : Accumulator → CostHeader → Throws CostSummary
sum_create a h = create_summary h (details_of a.mode a)
