-- ===== src/Tesla/Native.antt =====
-- NativeTeslaStrategy.cpp and NativeTeslaDetails.cpp: one MAC for each packet. The optional
-- measurement of the time a check takes changes no result and is left out.
use mathlib.Core.Option.{none}
use mathlib.Core.List.{[]}
use authentication_transmiss.Tesla.Mac.{compute_packet_mac}
use authentication_transmiss.Tesla.Input.{has_missing_packets, PacketInput, GroupInput}
use authentication_transmiss.Crypto.{digest_equals, CryptoProvider}
use authentication_transmiss.Prelude.{
  err, ok, invalid_argument, ◌==◌, not, length, ◌++◌, if◌then◌else◌, fail_if, ◌&&◌, ◌>>◌, ◌∷◌, some,
  false, Throws, Option, true, Bool, List, ℕ,
}

pub data PacketStatus : Type 0 where
  passed missing_packet missing_mac mac_failed : PacketStatus

pub record NativeVerification : Type 0 where
  pub all_passed : Bool
  pub packet_statuses : List PacketStatus

-- `std::variant<NativeAuthenticationDetails, ImprovedAuthenticationDetails>`.
pub data TeslaAuthenticationDetails : Type 0 where
  native_authentication : List (Option (List ℕ)) → TeslaAuthenticationDetails
  improved_authentication : List (List ℕ) → Option (List ℕ) → TeslaAuthenticationDetails

-- NativeAuthenticationDetails: the received MAC slots, of which there is one at least.
unfoldable pub create_native_details : List (Option (List ℕ)) → Throws TeslaAuthenticationDetails
create_native_details macs = do
  fail_if (length macs == 0) invalid_argument
  ok (native_authentication macs)

unfoldable pub native_macs :
    CryptoProvider → List ℕ → List (Option PacketInput) → List (Option (List ℕ))
native_macs c data_key [] = []
native_macs c data_key (none ∷ slots) = native_macs c data_key slots
native_macs c data_key (some p ∷ slots) =
    some (compute_packet_mac c data_key p) ∷ native_macs c data_key slots

unfoldable pub create_native_authentication :
    CryptoProvider → GroupInput → List ℕ → Throws TeslaAuthenticationDetails
create_native_authentication c g data_key = do
  fail_if (has_missing_packets g) invalid_argument
  create_native_details (native_macs c data_key g.packet_slots)

unfoldable pub packet_status :
    CryptoProvider → List ℕ → Option PacketInput → Option (List ℕ) → PacketStatus
packet_status c data_key none mac = missing_packet
packet_status c data_key (some p) none = missing_mac
packet_status c data_key (some p) (some mac) =
    if digest_equals (compute_packet_mac c data_key p) mac then passed else mac_failed

unfoldable pub is_passed : PacketStatus → Bool
is_passed passed = true
is_passed missing_packet = false
is_passed missing_mac = false
is_passed mac_failed = false

-- The loop over the positions, with `bAllPassed` and the statuses so far.
unfoldable pub native_loop :
    CryptoProvider
    → List ℕ
    → List (Option PacketInput)
    → List (Option (List ℕ))
    → NativeVerification
    → NativeVerification
native_loop c data_key [] macs v = v
native_loop c data_key (slot ∷ slots) [] v = v
native_loop c data_key (slot ∷ slots) (mac ∷ macs) v =
    let status = packet_status c data_key slot mac in
    native_loop c data_key slots macs (record {
      all_passed = v.all_passed && is_passed status;
      packet_statuses = v.packet_statuses ++ (status ∷ []);
    })

unfoldable pub verify_native :
    CryptoProvider → GroupInput → TeslaAuthenticationDetails → List ℕ → Throws NativeVerification
verify_native c g (improved_authentication samd_tau fast_group_tag) data_key = err invalid_argument
verify_native c g (native_authentication macs) data_key = do
  fail_if (not (length macs == length g.packet_slots)) invalid_argument
  let v =
      native_loop c data_key g.packet_slots macs
        (record { all_passed = true; packet_statuses = [] })
  fail_if (length v.packet_statuses == 0) invalid_argument
  ok v
