-- ===== src/Udp/Layout.antt =====
-- The wire format as a specification: the bytes of a packet, and the packets that a context
-- admits. `encode` is proved to be exactly this.
use authentication_transmiss.Prelude.{
  ap, ok-injective, ◌↔◌, >>=-eq-ok, ℕ, ◌+◌, ◌≤◌, ◌<◌, ◌≡◌, List, [], ◌∷◌, ◌++◌, append_assoc,
  append-nil, Option, none, some, length, arith, sym, ◌∙◌, refl, ok,
}
use authentication_transmiss.Wire.RoundTrip.{bytes32, bytes64, append_uint32_lem, append_uint64_lem}
use authentication_transmiss.Udp.Context.{
  IsValid, AuthenticationMode, native, improved, PacketContext, interval_of,
  packet_carries_disclosed_key, is_improved_group_end, expected_interval,
}
use authentication_transmiss.Udp.Packet.{
  DisclosurePacket, PacketHeader, GroupDetails, AuthenticationDetails, native_details,
  improved_details, DataPacket, Packet, data_packet, disclosure_packet,
}
use authentication_transmiss.Udp.Encode.{
  add_u32, disclosure_interval_outside, encode_data, encode_disclosure, encode, has_value,
  check_details, validate_data_packet_for_encoding, append_header, append_key, append_details,
}
use mathlib.Core.List.{flatten, foldl}
use mathlib.Core.Bool.{xor}

abbrev pub header_bytes : PacketHeader → List ℕ
header_bytes h = bytes64 h.chain_id ++ (bytes32 h.interval_index ++ bytes32 h.packet_index)

abbrev pub key_bytes : Option (List ℕ) → List ℕ
key_bytes none = []
key_bytes (some key) = key

abbrev pub details_bytes : AuthenticationDetails → List ℕ
details_bytes (native_details mac) = mac
details_bytes (improved_details none) = []
details_bytes (improved_details (some g)) = flatten g.samd_tau ++ g.fast_group_tag

abbrev pub packet_bytes : Packet → List ℕ
packet_bytes (data_packet p) =
    header_bytes p.header ++ (p.message ++ (key_bytes p.disclosed_key ++ details_bytes p.details))
packet_bytes (disclosure_packet p) =
    header_bytes
      (record { chain_id = p.chain_id; interval_index = p.interval_index; packet_index = 0 })
    ++ p.disclosed_key

abbrev pub TauCount : PacketContext → Option GroupDetails → Type 0
TauCount c none = Unit {0}
TauCount c (some g) = length g.samd_tau ≡ c.tau_count

abbrev pub DetailsMatch : AuthenticationMode → AuthenticationDetails → PacketContext → ℕ → Type 0
DetailsMatch native (native_details mac) c i = Unit {0}
DetailsMatch improved (improved_details g) c i =
    (has_value g ≡ is_improved_group_end c i) × TauCount c g
DetailsMatch native (improved_details g) c i = ⊥
DetailsMatch improved (native_details mac) c i = ⊥

-- The packets that belong to the round that `c` describes.
abbrev pub Admits : PacketContext → Packet → Type 0
Admits c (data_packet p) =
    (0 < p.packet_index)
    × (p.packet_index ≤ c.total_packet_count)
    × (p.interval_index ≡ interval_of p.packet_index c.packets_per_interval)
    × (has_value p.disclosed_key ≡ packet_carries_disclosed_key c p.interval_index p.packet_index)
    × DetailsMatch c.mode p.details c p.packet_index
Admits c (disclosure_packet p) =
    (c.disclosure_delay < p.interval_index)
    × (p.interval_index
        ≤ interval_of c.total_packet_count c.packets_per_interval + c.disclosure_delay)

append_header_lem :
    (chain_id interval_index packet_index : ℕ)
    → append_header chain_id interval_index packet_index
      ≡ header_bytes (record {
        chain_id = chain_id;
        interval_index = interval_index;
        packet_index = packet_index;
      })
unfolding append_header
append_header_lem a b c = simp (append_uint32_lem, append_uint64_lem, append_assoc)

pub foldl-flatten : (out : List ℕ) (xss : List (List ℕ)) → foldl ◌++◌ out xss ≡ out ++ flatten xss
unfolding flatten
foldl-flatten out [] = sym (append-nil out)
foldl-flatten out (xs ∷ xss) = foldl-flatten (out ++ xs) xss ∙ append_assoc out xs (flatten xss)

append_key_lem : (out : List ℕ) (k : Option (List ℕ)) → append_key out k ≡ out ++ key_bytes k
unfolding append_key
append_key_lem out none = sym (append-nil out)
append_key_lem out (some k) = refl

append_details_lem :
    (out : List ℕ) (d : AuthenticationDetails) → append_details out d ≡ out ++ details_bytes d
unfolding append_details
append_details_lem out (native_details mac) = refl
append_details_lem out (improved_details none) = sym (append-nil out)
append_details_lem out (improved_details (some g)) =
    rw foldl-flatten (append_assoc out (flatten g.samd_tau) g.fast_group_tag)

check_details_lem :
    (m : AuthenticationMode) (d : AuthenticationDetails) (c : PacketContext) (i : ℕ)
    → (check_details m d c i ≡ ok tt → DetailsMatch m d c i)
      × (DetailsMatch m d c i → check_details m d c i ≡ ok tt)
unfolding check_details xor
check_details_lem native (native_details mac) c i = (λ e. tt, λ h. refl)
check_details_lem native (improved_details g) c i = (λ e. cc, λ h. absurd h)
check_details_lem improved (native_details mac) c i = (λ e. cc, λ h. absurd h)
check_details_lem improved (improved_details none) c i = (λ e. ground arith, λ h. ground arith)
check_details_lem improved (improved_details (some g)) c i = (λ e. ground arith, λ h. ground arith)

validate_lem :
    (p : DataPacket) (c : PacketContext)
    → (validate_data_packet_for_encoding p c ≡ ok tt → Admits c (data_packet p))
      × (Admits c (data_packet p) → validate_data_packet_for_encoding p c ≡ ok tt)
unfolding validate_data_packet_for_encoding expected_interval xor
validate_lem p c = (
  λ e. ground (arith, (check_details_lem c.mode p.details c p.packet_index).0),
  λ h. ground (arith, (check_details_lem c.mode p.details c p.packet_index).1),
)

encode_data_lem :
    (p : DataPacket) (c : PacketContext)
    → Admits c (data_packet p)
    → encode_data p c ≡ ok (packet_bytes (data_packet p))
unfolding encode_data
encode_data_lem p c h =
    rw
      (
        (validate_lem p c).1 h,
        append_key_lem,
        append_details_lem,
        append_header_lem p.chain_id p.interval_index p.packet_index,
      )
      (simp append_assoc)

encode_disclosure_lem :
    (p : DisclosurePacket) (c : PacketContext)
    → IsValid c
    → Admits c (disclosure_packet p)
    → encode_disclosure p c ≡ ok (packet_bytes (disclosure_packet p))
unfolding encode_disclosure expected_interval disclosure_interval_outside add_u32
encode_disclosure_lem p c v h = ground (arith, append_header_lem p.chain_id p.interval_index 0)

-- A packet that the context admits is encoded, and as its bytes in wire order.
pub encode-Admits :
    (p : Packet) (c : PacketContext) → IsValid c → Admits c p → encode p c ≡ ok (packet_bytes p)
unfolding encode
encode-Admits (data_packet p) c v h = encode_data_lem p c h
encode-Admits (disclosure_packet p) c v h = encode_disclosure_lem p c v h

encode_data-ok :
    (p : DataPacket) (c : PacketContext) {d : List ℕ}
    → encode_data p c ≡ ok d
    → Admits c (data_packet p)
unfolding encode_data
encode_data-ok p c e =
    (validate_lem p c).0 (>>=-eq-ok (validate_data_packet_for_encoding p c) _ e).1

-- Only a packet that the context admits is encoded.
pub Admits-encode :
    (p : Packet) (c : PacketContext) (d : List ℕ) → IsValid c → encode p c ≡ ok d → Admits c p
unfolding encode encode_disclosure expected_interval disclosure_interval_outside add_u32
Admits-encode (data_packet p) c d v e = encode_data-ok p c e
Admits-encode (disclosure_packet p) c d v e = ground arith

-- Under a valid context, `encode` returns a datagram exactly for the packets that the context
-- admits, and that datagram is the packet's bytes in wire order.
pub encode_lem :
    (p : Packet) (c : PacketContext) (d : List ℕ)
    → IsValid c
    → (encode p c ≡ ok d) ↔ (Admits c p × (d ≡ packet_bytes p))
encode_lem p c d v = (
  λ e.
      let h = Admits-encode p c d v e in
      let same : packet_bytes p ≡ d = ok-injective (encode p c) (encode-Admits p c v h) e in
      (h, sym same),
  λ h. encode-Admits p c v h.0 ∙ ap ok (sym h.1),
)
