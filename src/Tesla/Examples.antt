-- ===== src/Tesla/Examples.antt =====
-- A concrete group, matrix and provider at which the theorems on the algorithms apply.
use authentication_transmiss.Tesla.NativeStatus.{verify_native_lem, StatusesOf}
use authentication_transmiss.Tesla.Genuine.{verify_sound}
use authentication_transmiss.Crypto.Chains.{Collision}
use authentication_transmiss.Tesla.Location.{verify_lem}
use authentication_transmiss.Tesla.Mac.{
  append_marked, compute_fast_group_tag, aggregate_mac_list, derive_fast_group_key,
}
use authentication_transmiss.Tesla.ImprovedLaws.{verify_improved_sound, verify_improved-create}
use authentication_transmiss.Tesla.NativeLaws.{verify_native-create, verify_native_sound}
use authentication_transmiss.Wire.{IsByte, IsBlock}
use authentication_transmiss.Tesla.Injective.{encode_packet_mac_input-injective}
use authentication_transmiss.Tesla.Located.{vouched, contains}
use authentication_transmiss.Tesla.Improved.{
  compute_packet_mac_slots, values_of, fast_pass, create_improved_authentication, verify_improved,
}
use authentication_transmiss.Tesla.GroupInjective.{
  encode_fast_group_input_lem, group_bytes, encode_fast_group_input-injective, IsCompleteGroup,
}
use authentication_transmiss.Tesla.Native.{
  NativeVerification, native_macs, passed, create_native_details, improved_authentication,
  native_authentication, TeslaAuthenticationDetails, create_native_authentication, verify_native,
}
use authentication_transmiss.Tesla.KsRs.{
  select_macs, classify, positions_with, record_step, flag_at, set_flag, mark, accept_row,
  row_count, scan_row, verify_row, verify_rows, aggregate_rows, aggregate, KsRsMatrix,
  VerificationResult, verify,
}
use authentication_transmiss.Tesla.Input.{
  any_missing, has_missing_packets, PacketInput, IsPacketInput, GroupInput,
}
use authentication_transmiss.Crypto.{digest_equals, sm3, CryptoProvider}
use authentication_transmiss.Prelude.{
  ◌↔◌, length, false, ◌⊎◌, All-replicate, none, [], some, refl, not, ◌++◌, replicate, arith, Option,
  ok, map, true, ◌∷◌, get_elem?, ◌≡◌, All, List, ℕ,
}

-- The hash puts a mark in front of its input, and the MAC puts the key in front of the message.
abbrev plain : CryptoProvider
plain = record { algorithm = sm3; hash = λ x. 1 ∷ x; hmac = λ k m. k ++ m }

abbrev first_packet : PacketInput
first_packet = record {
  sender_id = b'S' ∷ [];
  chain_id = 7;
  interval_index = 1;
  packet_index = 1;
  message = replicate 32 9;
}

abbrev second_packet : PacketInput
second_packet = record first_packet { packet_index = 2; message = replicate 32 8 }

abbrev pair_group : GroupInput
pair_group = record {
  sender_id = b'S' ∷ [];
  chain_id = 7;
  interval_index = 1;
  group_index = 1;
  first_packet_index = 1;
  packet_slots = some first_packet ∷ some second_packet ∷ [];
}

abbrev pair_matrix : KsRsMatrix
pair_matrix = record {
  group_size = 2;
  detection_threshold = 1;
  rows = (true ∷ true ∷ []) ∷ (true ∷ false ∷ []) ∷ [];
}

abbrev secret : List ℕ
secret = 5 ∷ []

abbrev native_pair : TeslaAuthenticationDetails
native_pair = native_authentication (native_macs plain secret pair_group.packet_slots)

native_pair-created : create_native_authentication plain pair_group secret ≡ ok native_pair
unfolding create_native_authentication create_native_details has_missing_packets any_missing
    native_macs
native_pair-created = refl

verify_native-create_example :
    verify_native plain pair_group native_pair secret
    ≡ ok (record { all_passed = true; packet_statuses = replicate 2 passed })
verify_native-create_example =
    verify_native-create plain secret pair_group native_pair native_pair-created

verify_native_sound_example : create_native_authentication plain pair_group secret ≡ ok native_pair
verify_native_sound_example =
    verify_native_sound plain secret pair_group native_pair
      (record { all_passed = true; packet_statuses = replicate 2 passed })
      (verify_native-create plain secret pair_group native_pair native_pair-created) refl

verify_native_example :
    (v : NativeVerification) × (verify_native plain pair_group
        (native_authentication (none ∷ none ∷ []))
        secret
      ≡ ok v)
    × StatusesOf plain secret pair_group.packet_slots (none ∷ none ∷ []) v.packet_statuses
    × ((v.all_passed ≡ true) ↔ All (λ s. s ≡ passed) v.packet_statuses)
verify_native_example =
    verify_native_lem plain secret pair_group (none ∷ none ∷ []) refl (omega arith)

abbrev pair_macs : List (List ℕ)
pair_macs = values_of (compute_packet_mac_slots plain secret pair_group.packet_slots)

abbrev pair_taus : List (List ℕ)
pair_taus = aggregate_rows plain pair_matrix.rows pair_macs

abbrev improved_pair : TeslaAuthenticationDetails
improved_pair =
    improved_authentication pair_taus
      (some (plain.hmac (derive_fast_group_key plain secret) (group_bytes pair_group pair_taus)))

first_packet-IsPacketInput : IsPacketInput first_packet
first_packet-IsPacketInput = record {
  sender_nonempty = omega arith;
  sender_short = omega arith;
  chain_u64 = omega arith;
  interval_u32 = omega arith;
  packet_u32 = omega arith;
  interval_pos = omega arith;
  packet_pos = omega arith;
  message_block = (refl, All-replicate IsByte 32 9 (omega arith));
}

second_packet-IsPacketInput : IsPacketInput second_packet
second_packet-IsPacketInput = record {
  sender_nonempty = omega arith;
  sender_short = omega arith;
  chain_u64 = omega arith;
  interval_u32 = omega arith;
  packet_u32 = omega arith;
  interval_pos = omega arith;
  packet_pos = omega arith;
  message_block = (refl, All-replicate IsByte 32 8 (omega arith));
}

pair_group-IsCompleteGroup : IsCompleteGroup pair_group
pair_group-IsCompleteGroup = record {
  sender_short = omega arith;
  chain_u64 = omega arith;
  interval_u32 = omega arith;
  group_u32 = omega arith;
  slots_some = omega arith;
  slots_u32 = omega arith;
  filled = (first_packet-IsPacketInput, (second_packet-IsPacketInput, tt));
  fit = ((refl, refl, refl, refl, omega arith), ((refl, refl, refl, refl, omega arith), tt));
}

encode_packet_mac_input-injective_example : first_packet ≡ first_packet
encode_packet_mac_input-injective_example =
    encode_packet_mac_input-injective first_packet first_packet first_packet-IsPacketInput
      first_packet-IsPacketInput refl

abbrev two_tags : List (List ℕ)
two_tags = replicate 32 1 ∷ replicate 32 2 ∷ []

two_tags-blocks : All IsBlock two_tags
two_tags-blocks = (
  (refl, All-replicate IsByte 32 1 (omega arith)),
  ((refl, All-replicate IsByte 32 2 (omega arith)), tt),
)

encode_fast_group_input-injective_example : (pair_group ≡ pair_group) × (two_tags ≡ two_tags)
encode_fast_group_input-injective_example =
    encode_fast_group_input-injective pair_group pair_group two_tags two_tags
      pair_group-IsCompleteGroup pair_group-IsCompleteGroup (omega arith) (omega arith)
      two_tags-blocks two_tags-blocks refl

improved_pair-created :
    create_improved_authentication plain pair_matrix pair_group secret ≡ ok improved_pair
unfolding create_improved_authentication compute_packet_mac_slots values_of aggregate
    compute_fast_group_tag has_missing_packets any_missing aggregate_rows select_macs
improved_pair-created =
    rw (encode_fast_group_input_lem pair_group pair_taus pair_group-IsCompleteGroup (omega arith))

verify_improved-create_example :
    verify_improved plain pair_matrix pair_group improved_pair secret ≡ ok (fast_pass 2)
verify_improved-create_example =
    verify_improved-create plain pair_matrix pair_group secret improved_pair improved_pair-created

verify_improved_sound_example :
    (taus : List (List ℕ)) × (tag : List ℕ) × (improved_pair
      ≡ improved_authentication taus (some tag))
    × (has_missing_packets pair_group ≡ false)
    × (length taus ≡ row_count pair_matrix)
    × (compute_fast_group_tag plain secret pair_group taus ≡ ok tag)
    × (fast_pass 2 ≡ fast_pass 2)
unfolding fast_pass
verify_improved_sound_example =
    verify_improved_sound plain pair_matrix pair_group secret improved_pair (fast_pass 2)
      (verify_improved-create plain pair_matrix pair_group secret improved_pair
        improved_pair-created)
      refl

-- The receiver lost the second packet: the row of the first one alone still matches.
abbrev received_slots : List (Option (List ℕ))
received_slots = some (replicate 32 1) ∷ none ∷ []

abbrev sent_taus : List (List ℕ)
sent_taus = aggregate_rows plain pair_matrix.rows two_tags

abbrev located : VerificationResult
located = record {
  good_positions = 0 ∷ [];
  bad_positions = 1 ∷ [];
  detection_threshold_exceeded = false;
  location_steps =
      record { scan_step = 2; new_good_positions = 0 ∷ []; remaining_candidate_positions = 1 ∷ [] }
      ∷ [];
}

sent_taus-aggregated : aggregate plain pair_matrix two_tags ≡ ok sent_taus
unfolding aggregate
sent_taus-aggregated = refl

located-verified : verify plain pair_matrix received_slots sent_taus ≡ ok located
unfolding verify verify_rows verify_row scan_row digest_equals aggregate_mac_list append_marked
    accept_row mark set_flag flag_at record_step positions_with classify row_count aggregate_rows
    select_macs
located-verified = refl

verify_example :
    (contains located.good_positions 0 ≡ vouched plain pair_matrix.rows received_slots sent_taus 0)
    × (contains located.bad_positions 0
        ≡ not (vouched plain pair_matrix.rows received_slots sent_taus 0))
verify_example =
    verify_lem plain pair_matrix received_slots sent_taus located located-verified 0 (omega arith)

verify_sound_example :
    (get_elem? received_slots 0 ≡ get_elem? (map some two_tags) 0) ⊎ Collision plain.hash
verify_sound_example =
    verify_sound plain pair_matrix received_slots two_tags sent_taus located sent_taus-aggregated
      located-verified refl ((refl, All-replicate IsByte 32 1 (omega arith)), tt) two_tags-blocks 0
      (omega arith) refl
