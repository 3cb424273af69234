-- ===== src/Round/Context.antt =====
-- ReceiverAuthenticationContext and its payload details, of ReceiverAuthenticationContextStore.cpp.
use authentication_transmiss.Workload.File.{maximum_file_size, message_size}
use authentication_transmiss.Round.Parameters.{RoundParameters, PayloadMode, text, file}
use authentication_transmiss.Prelude.{
  ◌/◌, ◌-◌, ◌+◌, ok, ltb, ◌||◌, invalid_argument, not, ◌==◌, false, length, true, ◌>>◌, fail_if,
  List, Bool, Throws, ℕ,
}

-- `std::variant<TextReceiverPayloadDetails, FileReceiverPayloadDetails>`: the repeat count of a
-- text, or the byte count of a file.
pub data PayloadDetails : Type 0 where
  text_details file_details : ℕ → PayloadDetails

unfoldable pub create_text_details : ℕ → Throws PayloadDetails
create_text_details repeat_count = do
  fail_if (repeat_count == 0) invalid_argument
  ok (text_details repeat_count)

unfoldable pub create_file_details : ℕ → Throws PayloadDetails
create_file_details byte_count = do
  fail_if (byte_count == 0 || ltb maximum_file_size byte_count) invalid_argument
  ok (file_details byte_count)

pub record ReceiverContext : Type 0 where
  pub sender_id : List ℕ
  pub sender_ip_address : List ℕ
  pub chain_id : ℕ
  pub commitment_key : List ℕ
  pub round : RoundParameters
  pub payload : PayloadDetails

unfoldable pub is_text : PayloadMode → Bool
is_text text = true
is_text file = false

unfoldable pub check_payload : RoundParameters → PayloadDetails → Throws (Unit {0})
check_payload r (text_details repeat_count) =
    fail_if (not (is_text r.payload_mode) || not (repeat_count == r.total_packet_count))
      invalid_argument
check_payload r (file_details byte_count) =
    fail_if
      (is_text r.payload_mode
        || not ((byte_count + message_size - 1) / message_size == r.total_packet_count))
      invalid_argument

unfoldable pub create_receiver_context : ReceiverContext → Throws ReceiverContext
create_receiver_context c = do
  fail_if (length c.sender_id == 0) invalid_argument
  fail_if (length c.sender_ip_address == 0) invalid_argument
  fail_if (c.chain_id == 0) invalid_argument
  check_payload c.round c.payload
  ok c
