-- ===== src/Udp/Total.antt =====
-- No exception leaves resDecode: every class that its callees throw has a handler.
use Prim.Native.Nat.{zero}
use mathlib.Core.Bool.{true, false}
use authentication_transmiss.Wire.Failure.{
  invalid_authentication_context, datagram_length_mismatch, invalid_interval_index, thrown,
  rejected, attempt, DecodeErrorCode, Failure,
}
use authentication_transmiss.Udp.Packet.{
  PacketHeader, Packet, GroupDetails, DisclosurePacket, DataPacket, create_group_details,
  create_data_packet, create_disclosure_packet,
}
use authentication_transmiss.Udp.Decode.{
  expected_length, decode, decode_data, catch_handlers, decode_body, decode_disclosure, read_key,
  read_header, read_group_details, read_data, read_details, read_taus,
}
use authentication_transmiss.Udp.Context.{
  packet_carries_disclosed_key, improved, native, is_improved_group_end, PacketContext,
  AuthenticationMode, expected_interval,
}
use authentication_transmiss.Wire.{block_size, reader, BinaryReader, bytes_read, u64_read, u32_read}
use authentication_transmiss.Prelude.{
  not, length, ltb, ◌==◌, if_ind, ◌>>◌, none, suc, ◌≢◌, err, out_of_range, invalid_argument, ◌>>=◌,
  List, fail_if, ok, Throws, Bool, Result, ℕ,
}

-- A result, or an exception of one of the two classes that `resDecode` catches.
data Caught {ℓ} {A : Type ℓ} : Throws A → Type ℓ where
  returned : (a : A) → Caught (ok a)
  caught_range : Caught (err out_of_range)
  caught_invalid : Caught (err invalid_argument)

Caught->>= {ℓ κ} :
    {A : Type ℓ} {B : Type κ} (m : Throws A) (f : A → Throws B)
    → Caught m
    → ((a : A) → Caught (f a))
    → Caught (m >>= f)
Caught->>= _ f (returned a) hf = hf a
Caught->>= _ f caught_range hf = caught_range
Caught->>= _ f caught_invalid hf = caught_invalid

Caught-fail_invalid {ℓ} :
    {B : Type ℓ} (t : Bool) (k : Throws B) → Caught k → Caught (fail_if t invalid_argument >> k)
Caught-fail_invalid true k h = caught_invalid
Caught-fail_invalid false k h = h

Caught-fail_range {ℓ} :
    {B : Type ℓ} (t : Bool) (k : Throws B) → Caught k → Caught (fail_if t out_of_range >> k)
Caught-fail_range true k h = caught_range
Caught-fail_range false k h = h

bytes_read-Caught : (n : ℕ) (r : BinaryReader) → Caught (bytes_read n r)
unfolding bytes_read
bytes_read-Caught n r = Caught-fail_range _ _ (returned _)

u32_read-Caught : (r : BinaryReader) → Caught (u32_read r)
unfolding u32_read
u32_read-Caught r = Caught-fail_range _ _ (returned _)

u64_read-Caught : (r : BinaryReader) → Caught (u64_read r)
unfolding u64_read
u64_read-Caught r = Caught-fail_range _ _ (returned _)

expected_interval-Caught : (c : PacketContext) (i : ℕ) → Caught (expected_interval c i)
unfolding expected_interval
expected_interval-Caught c i = Caught-fail_range _ _ (returned _)

read_header-Caught : (r : BinaryReader) → Caught (read_header r)
unfolding read_header
read_header-Caught r = Caught->>= (u64_read r) _ (u64_read-Caught r) (λ a.
    Caught->>= (u32_read a.1) _ (u32_read-Caught a.1)
      (λ b. Caught->>= (u32_read b.1) _ (u32_read-Caught b.1) (λ c. returned _)))

read_key-Caught : (b : Bool) (r : BinaryReader) → Caught (read_key b r)
unfolding read_key
read_key-Caught false r = returned _
read_key-Caught true r =
    Caught->>= (bytes_read block_size r) _ (bytes_read-Caught block_size r) (λ a. returned _)

read_taus-Caught : (n : ℕ) (r : BinaryReader) → Caught (read_taus n r)
unfolding read_taus
read_taus-Caught zero r = returned _
read_taus-Caught (suc n) r =
    Caught->>= (bytes_read block_size r) _ (bytes_read-Caught block_size r)
      (λ a. Caught->>= (read_taus n a.1) _ (read_taus-Caught n a.1) (λ b. returned _))

create_group_details-Caught : (g : GroupDetails) → Caught (create_group_details g)
unfolding create_group_details
create_group_details-Caught g = Caught-fail_invalid _ _ (returned _)

read_group_details-Caught :
    (b : Bool) (c : PacketContext) (r : BinaryReader) → Caught (read_group_details b c r)
unfolding read_group_details
read_group_details-Caught false c r = returned _
read_group_details-Caught true c r =
    Caught->>= (read_taus c.tau_count r) _ (read_taus-Caught c.tau_count r) (λ a.
      Caught->>= (bytes_read block_size a.1) _ (bytes_read-Caught block_size a.1) (λ b.
        Caught->>= (create_group_details (record { samd_tau = a.0; fast_group_tag = b.0 })) _
          (create_group_details-Caught _) (λ g. returned _)))

read_details-Caught :
    (m : AuthenticationMode) (c : PacketContext) (i : ℕ) (r : BinaryReader)
    → Caught (read_details m c i r)
unfolding read_details
read_details-Caught native c i r =
    Caught->>= (bytes_read block_size r) _ (bytes_read-Caught block_size r) (λ a. returned _)
read_details-Caught improved c i r =
    Caught->>= (read_group_details (is_improved_group_end c i) c r) _
      (read_group_details-Caught _ c r) (λ a. returned _)

create_data_packet-Caught : (p : DataPacket) → Caught (create_data_packet p)
unfolding create_data_packet
create_data_packet-Caught p = Caught-fail_invalid _ _ (Caught-fail_invalid _ _ (returned _))

create_disclosure_packet-Caught : (p : DisclosurePacket) → Caught (create_disclosure_packet p)
unfolding create_disclosure_packet
create_disclosure_packet-Caught p = Caught-fail_invalid _ _ (returned _)

read_data-Caught :
    (c : PacketContext) (h : PacketHeader) (b : Bool) (r : BinaryReader)
    → Caught (read_data c h b r)
unfolding read_data
read_data-Caught c h b r =
    Caught->>= (bytes_read block_size r) _ (bytes_read-Caught block_size r) (λ m.
      Caught->>= (read_key b m.1) _ (read_key-Caught b m.1) (λ k.
        Caught->>= (read_details c.mode c h.packet_index k.1) _
          (read_details-Caught c.mode c h.packet_index k.1)
          (λ d.
            Caught->>=
              (create_data_packet
                (record { header = h; message = m.0; disclosed_key = k.0; details = d }))
              _ (create_data_packet-Caught _) (λ p. returned _))))

-- The same of a function whose failures are codes or exceptions.
data Handled {ℓ} {A : Type ℓ} : Result Failure A → Type ℓ where
  decoded : (a : A) → Handled (ok a)
  refused : (code : DecodeErrorCode) → Handled (err (rejected code))
  handled_range : Handled (err (thrown out_of_range))
  handled_invalid : Handled (err (thrown invalid_argument))

attempt-Handled {ℓ} : {A : Type ℓ} (m : Throws A) → Caught m → Handled (attempt m)
attempt-Handled _ (returned a) = decoded a
attempt-Handled _ caught_range = handled_range
attempt-Handled _ caught_invalid = handled_invalid

Handled->>= {ℓ κ} :
    {A : Type ℓ} {B : Type κ} (m : Result Failure A) (f : A → Result Failure B)
    → Handled m
    → ((a : A) → Handled (f a))
    → Handled (m >>= f)
Handled->>= _ f (decoded a) hf = hf a
Handled->>= _ f (refused code) hf = refused code
Handled->>= _ f handled_range hf = handled_range
Handled->>= _ f handled_invalid hf = handled_invalid

Handled-rejected {ℓ} :
    {B : Type ℓ} (t : Bool) (code : DecodeErrorCode) (k : Result Failure B)
    → Handled k
    → Handled (fail_if t (rejected code) >> k)
Handled-rejected true code k h = refused code
Handled-rejected false code k h = h

decode_disclosure-Handled :
    (c : PacketContext) (size : ℕ) (h : PacketHeader) (r : BinaryReader)
    → Handled (decode_disclosure c size h r)
unfolding decode_disclosure
decode_disclosure-Handled c size h r = Handled-rejected _ _ _ (
    Handled->>= (attempt (expected_interval c c.total_packet_count)) _
      (attempt-Handled _ (expected_interval-Caught c _))
      (λ n. Handled-rejected _ _ _ (
        Handled->>= (attempt (bytes_read block_size r)) _
          (attempt-Handled _ (bytes_read-Caught block_size r))
          (λ k.
            Handled->>=
              (attempt (
                create_disclosure_packet (record {
                  chain_id = h.chain_id;
                  interval_index = h.interval_index;
                  disclosed_key = k.0;
                })))
              _ (attempt-Handled _ (create_disclosure_packet-Caught _)) (λ p. decoded _)))))

decode_data-Handled :
    (c : PacketContext) (size : ℕ) (h : PacketHeader) (r : BinaryReader)
    → Handled (decode_data c size h r)
unfolding decode_data
decode_data-Handled c size h r =
    let has_key = packet_carries_disclosed_key c h.interval_index h.packet_index in
    Handled-rejected _ _ _ (
      Handled->>= (attempt (expected_interval c h.packet_index)) _
        (attempt-Handled _ (expected_interval-Caught c _))
        (λ n. Handled-rejected (not (h.interval_index == n)) invalid_interval_index _ (
          Handled-rejected (not (size == expected_length c h.packet_index has_key))
            datagram_length_mismatch _ (attempt-Handled _ (read_data-Caught c h has_key r)))))

decode_body-Handled : (d : List ℕ) (c : PacketContext) → Handled (decode_body d c)
unfolding decode_body
decode_body-Handled d c =
    Handled->>= (attempt (read_header (reader d))) _ (attempt-Handled _ (read_header-Caught _))
      (λ a. Handled-rejected (a.0.chain_id == 0) invalid_authentication_context _ (
        Handled-rejected (a.0.interval_index == 0) invalid_interval_index _ (
          if_ind Handled (a.0.packet_index == 0) _ _
            (λ z. decode_disclosure-Handled c (length d) a.0 a.1)
            (λ z. decode_data-Handled c (length d) a.0 a.1))))

catch_handlers-Handled : (r : Result Failure Packet) → Handled r → catch_handlers r ≢ none
unfolding catch_handlers
catch_handlers-Handled _ (decoded p) e = cc
catch_handlers-Handled _ (refused code) e = cc
catch_handlers-Handled _ handled_range e = cc
catch_handlers-Handled _ handled_invalid e = cc

-- `decode` returns a packet or an error code on every datagram and context: no exception leaves it.
pub decode_total : (d : List ℕ) (c : PacketContext) → decode d c ≢ none
unfolding decode
decode_total d c =
    if_ind (λ r. r ≢ none) (ltb (length d) 16) _ _ (λ t e. cc)
      (λ t. catch_handlers-Handled (decode_body d c) (decode_body-Handled d c))
