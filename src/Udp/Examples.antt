-- ===== src/Udp/Examples.antt =====
-- Concrete packets and contexts at which the theorems on datagrams apply.
use authentication_transmiss.Udp.Total.{decode_total}
use authentication_transmiss.Udp.Header.{decode_header-decode}
use mathlib.Core.List.{flatten}
use authentication_transmiss.Udp.Canonical.{encode-decode}
use authentication_transmiss.Udp.RoundTrip.{decode-encode}
use authentication_transmiss.Udp.Layout.{encode_lem, encode-Admits, Admits, packet_bytes}
use authentication_transmiss.Wire.{All-all_bytes, IsByte, IsBlock}
use authentication_transmiss.Udp.Decode.{decode_header, decode}
use authentication_transmiss.Udp.Encode.{has_value, encode}
use authentication_transmiss.Udp.Packet.{improved_details, data_packet, WellFormed, Packet}
use authentication_transmiss.Udp.Context.{
  is_improved_group_end, improved, packet_carries_disclosed_key, PacketContext, IsValid,
}
use authentication_transmiss.Prelude.{
  ◌≢◌, [], ◌∷◌, ◌↔◌, All-replicate, ok, length-replicate, none, refl, some, ◌≡◌, replicate, arith,
  ◌<◌, All, List, ℕ,
}

abbrev block : ℕ → List ℕ
block v = replicate 32 v

block-IsBlock : (v : ℕ) → v < 256 → IsBlock (block v)
block-IsBlock v h = (length-replicate 32 v, All-replicate IsByte 32 v h)

-- Groups of 2 packets, 4 packets in an interval, 8 packets in the round, keys disclosed one
-- interval later, two SAMD tags.
abbrev round_context : PacketContext
round_context = record {
  mode = improved;
  packets_per_interval = 4;
  disclosure_delay = 1;
  total_packet_count = 8;
  group_size = 2;
  tau_count = 2;
}

round_context-IsValid : IsValid round_context
round_context-IsValid = record {
  per_interval = omega arith;
  total = omega arith;
  delay = omega arith;
  total_u32 = omega arith;
  schedule = omega arith;
  mode_fields = (omega arith, omega arith, refl, omega arith);
}

-- Packet 6 ends a group in interval 2, and packet 5 before it has disclosed the key.
abbrev group_end : Packet
group_end = data_packet (record {
  header = record { chain_id = 77; interval_index = 2; packet_index = 6 };
  message = block 5;
  disclosed_key = none;
  details =
      improved_details
        (some (record { samd_tau = block 1 ∷ block 2 ∷ []; fast_group_tag = block 3 }));
})

group_end-WellFormed : WellFormed group_end
group_end-WellFormed = (
  omega arith,
  omega arith,
  omega arith,
  omega arith,
  omega arith,
  omega arith,
  block-IsBlock 5 (omega arith),
  tt,
  (
    (λ e. cc),
    (block-IsBlock 1 (omega arith), (block-IsBlock 2 (omega arith), tt)),
    block-IsBlock 3 (omega arith),
  ),
)

group_end-Admits : Admits round_context group_end
unfolding has_value packet_carries_disclosed_key is_improved_group_end
group_end-Admits = (omega arith, omega arith, refl, refl, (refl, refl))

group_end-encoded : encode group_end round_context ≡ ok (packet_bytes group_end)
group_end-encoded = encode-Admits group_end round_context round_context-IsValid group_end-Admits

encode_example :
    (encode group_end round_context ≡ ok (packet_bytes group_end))
    ↔ (Admits round_context group_end × (packet_bytes group_end ≡ packet_bytes group_end))
encode_example = encode_lem group_end round_context (packet_bytes group_end) round_context-IsValid

decode-encode_example : decode (packet_bytes group_end) round_context ≡ some (ok group_end)
decode-encode_example =
    decode-encode group_end round_context (packet_bytes group_end) round_context-IsValid
      group_end-WellFormed group_end-encoded

group_end-decoded : decode (packet_bytes group_end) round_context ≡ some (ok group_end)
group_end-decoded =
    decode-encode group_end round_context (packet_bytes group_end) round_context-IsValid
      group_end-WellFormed group_end-encoded

group_end-bytes : All IsByte (packet_bytes group_end)
unfolding flatten
group_end-bytes = All-all_bytes (packet_bytes group_end) refl

encode-decode_example :
    WellFormed group_end × (encode group_end round_context ≡ ok (packet_bytes group_end))
encode-decode_example =
    encode-decode (packet_bytes group_end) round_context group_end group_end-bytes
      round_context-IsValid group_end-decoded

decode_header-decode_example :
    decode_header (packet_bytes group_end)
    ≡ ok (record { chain_id = 77; interval_index = 2; packet_index = 6 })
decode_header-decode_example =
    decode_header-decode (packet_bytes group_end) round_context group_end group_end-bytes
      round_context-IsValid group_end-decoded

decode_total_example : decode (packet_bytes group_end) round_context ≢ none
decode_total_example = decode_total (packet_bytes group_end) round_context
