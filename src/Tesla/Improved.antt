-- ===== src/Tesla/Improved.antt =====
-- ImprovedTeslaStrategy.cpp and ImprovedTeslaDetails.cpp: a fast tag for the whole group, and the
-- KS+RS location where it does not match. The measurement callback changes no result and is left
-- out.
use Prim.Native.Nat.{zero}
use mathlib.Core.Option.{none}
use authentication_transmiss.Tesla.Mac.{compute_fast_group_tag, compute_packet_mac}
use authentication_transmiss.Tesla.Native.{
  improved_authentication, native_authentication, TeslaAuthenticationDetails,
}
use authentication_transmiss.Tesla.Input.{has_missing_packets, PacketInput, GroupInput}
use authentication_transmiss.Tesla.KsRs.{aggregate, row_count, verify, LocationStep, KsRsMatrix}
use authentication_transmiss.Crypto.{digest_equals, CryptoProvider}
use authentication_transmiss.Prelude.{
  ◌==◌, ltb, invalid_argument, length, not, fail_if, err, ◌>>◌, ok, some, if◌then◌else◌, ◌>>=◌, ◌+◌,
  ◌∷◌, Throws, suc, Option, [], List, false, Bool, true, ℕ,
}

pub data VerificationPath : Type 0 where
  fast_group_pass ks_rs_fallback incomplete_group_tags : VerificationPath

-- TeslaVerificationResult with ImprovedVerificationDetails.
pub record ImprovedVerification : Type 0 where
  pub passed : Bool
  pub path : VerificationPath
  pub fast_group_tag_matched : Bool
  pub authenticated_positions : List ℕ
  pub rejected_positions : List ℕ
  pub detection_threshold_exceeded : Bool
  pub location_steps : List LocationStep

unfoldable pub compute_packet_mac_slots :
    CryptoProvider → List ℕ → List (Option PacketInput) → List (Option (List ℕ))
compute_packet_mac_slots c data_key [] = []
compute_packet_mac_slots c data_key (none ∷ slots) =
    none ∷ compute_packet_mac_slots c data_key slots
compute_packet_mac_slots c data_key (some p ∷ slots) =
    some (compute_packet_mac c data_key p) ∷ compute_packet_mac_slots c data_key slots

-- `optPacketMac.value()` of every slot of a group without empty ones.
unfoldable pub values_of : List (Option (List ℕ)) → List (List ℕ)
values_of [] = []
values_of (none ∷ slots) = values_of slots
values_of (some mac ∷ slots) = mac ∷ values_of slots

unfoldable pub create_improved_authentication :
    CryptoProvider → KsRsMatrix → GroupInput → List ℕ → Throws TeslaAuthenticationDetails
create_improved_authentication c m g data_key = do
  fail_if (has_missing_packets g) invalid_argument
  fail_if (ltb m.group_size (length g.packet_slots)) invalid_argument
  samd_tau ← aggregate c m (values_of (compute_packet_mac_slots c data_key g.packet_slots))
  tag ← compute_fast_group_tag c data_key g samd_tau
  ok (improved_authentication samd_tau (some tag))

-- `std::iota` from 0.
unfoldable pub iota : ℕ → ℕ → List ℕ
iota zero start = []
iota (suc n) start = start ∷ iota n (start + 1)

abbrev pub incomplete_tags : ImprovedVerification
incomplete_tags = record {
  passed = false;
  path = incomplete_group_tags;
  fast_group_tag_matched = false;
  authenticated_positions = [];
  rejected_positions = [];
  detection_threshold_exceeded = false;
  location_steps = [];
}

unfoldable pub fast_pass : ℕ → ImprovedVerification
fast_pass n = record {
  passed = true;
  path = fast_group_pass;
  fast_group_tag_matched = true;
  authenticated_positions = iota n 0;
  rejected_positions = [];
  detection_threshold_exceeded = false;
  location_steps = [];
}

unfoldable pub fallback :
    CryptoProvider → KsRsMatrix → GroupInput → List (List ℕ) → List ℕ → Throws ImprovedVerification
fallback c m g samd_tau data_key = do
  r ← verify c m (compute_packet_mac_slots c data_key g.packet_slots) samd_tau
  ok (record {
    passed = false;
    path = ks_rs_fallback;
    fast_group_tag_matched = false;
    authenticated_positions = r.good_positions;
    rejected_positions = r.bad_positions;
    detection_threshold_exceeded = r.detection_threshold_exceeded;
    location_steps = r.location_steps;
  })

unfoldable pub fast_tag_matches :
    CryptoProvider → GroupInput → List (List ℕ) → List ℕ → List ℕ → Throws Bool
fast_tag_matches c g samd_tau tag data_key = if has_missing_packets g then ok false else (do
  calculated ← compute_fast_group_tag c data_key g samd_tau
  ok (digest_equals calculated tag))

unfoldable pub verify_tagged :
    CryptoProvider
    → KsRsMatrix
    → GroupInput
    → List (List ℕ)
    → Option (List ℕ)
    → List ℕ
    → Throws ImprovedVerification
verify_tagged c m g samd_tau none data_key = ok incomplete_tags
verify_tagged c m g samd_tau (some tag) data_key =
    if not (length samd_tau == row_count m) then ok incomplete_tags else (do
      matched ← fast_tag_matches c g samd_tau tag data_key
      (if matched
          then ok (fast_pass (length g.packet_slots))
          else fallback c m g samd_tau data_key))

unfoldable pub verify_improved :
    CryptoProvider
    → KsRsMatrix
    → GroupInput
    → TeslaAuthenticationDetails
    → List ℕ
    → Throws ImprovedVerification
verify_improved c m g (native_authentication macs) data_key = err invalid_argument
verify_improved c m g (improved_authentication samd_tau tag) data_key = do
  fail_if (ltb m.group_size (length g.packet_slots)) invalid_argument
  verify_tagged c m g samd_tau tag data_key
