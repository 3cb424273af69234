-- ===== src/Tesla/NativeStatus.antt =====
-- What each status of the native check says of its packet and its MAC.
use authentication_transmiss.Tesla.Mac.{compute_packet_mac}
use authentication_transmiss.Tesla.Input.{PacketInput, GroupInput}
use authentication_transmiss.Tesla.NativeLaws.{verify_native-statuses, statuses, all_of}
use authentication_transmiss.Prelude.{
  ◌↔◌, ok, subst, ◌≢◌, and_inv, if_ind, arith, some, [], refl, ◌<◌, ◌∷◌, none, length, true, ◌≡◌,
  Option, All, ℕ, List,
}
use authentication_transmiss.Tesla.Native.{
  native_authentication, verify_native, mac_failed, missing_mac, NativeVerification, missing_packet,
  passed, packet_status, PacketStatus, is_passed,
}
use authentication_transmiss.Crypto.{
  digest_equals→ne, digest_equals→eq, digest_equals, CryptoProvider,
}

-- The four cases of a position, from the packet there and the MAC received for it.
pub data StatusOf (c : CryptoProvider) (data_key : List ℕ)
    : Option PacketInput → Option (List ℕ) → PacketStatus → Type 0 where
  no_packet : (mac : Option (List ℕ)) → StatusOf c data_key none mac missing_packet
  no_mac : (p : PacketInput) → StatusOf c data_key (some p) none missing_mac
  right_mac :
      (p : PacketInput)
      → StatusOf c data_key (some p) (some (compute_packet_mac c data_key p)) passed
  wrong_mac :
      (p : PacketInput) (mac : List ℕ)
      → compute_packet_mac c data_key p ≢ mac
      → StatusOf c data_key (some p) (some mac) mac_failed

-- One status for each position, in order.
pub data StatusesOf (c : CryptoProvider) (data_key : List ℕ)
    : List (Option PacketInput) → List (Option (List ℕ)) → List PacketStatus → Type 0 where
  no_more : StatusesOf c data_key [] [] []
  one_more :
      {slot : Option PacketInput} {slots : List (Option PacketInput)} {mac : Option (List ℕ)}
      {macs : List (Option (List ℕ))} {s : PacketStatus} {ss : List PacketStatus}
      → StatusOf c data_key slot mac s
      → StatusesOf c data_key slots macs ss
      → StatusesOf c data_key (slot ∷ slots) (mac ∷ macs) (s ∷ ss)

is_passed→eq : (s : PacketStatus) → is_passed s ≡ true → s ≡ passed
unfolding is_passed
is_passed→eq passed e = refl
is_passed→eq missing_packet e = cc
is_passed→eq missing_mac e = cc
is_passed→eq mac_failed e = cc

is_passed_refl : (s : PacketStatus) → s ≡ passed → is_passed s ≡ true
unfolding is_passed
is_passed_refl s e = rw e refl

module _ (c : CryptoProvider) (data_key : List ℕ) where
  all_of→All : (ss : List PacketStatus) → all_of c data_key ss ≡ true → All (λ s. s ≡ passed) ss
  all_of→All [] e = tt
  all_of→All (s ∷ ss) e =
      let (here, there) = and_inv _ _ e in (is_passed→eq s here, all_of→All ss there)

  All→all_of : (ss : List PacketStatus) → All (λ s. s ≡ passed) ss → all_of c data_key ss ≡ true
  All→all_of [] a = refl
  All→all_of (s ∷ ss) (e, a) = rw (is_passed_refl s e) (All→all_of ss a)

  packet_status-StatusOf :
      (slot : Option PacketInput) (mac : Option (List ℕ))
      → StatusOf c data_key slot mac (packet_status c data_key slot mac)
  unfolding packet_status
  packet_status-StatusOf none mac = no_packet mac
  packet_status-StatusOf (some p) none = no_mac p
  packet_status-StatusOf (some p) (some mac) =
      if_ind {A = PacketStatus} (λ s. StatusOf c data_key (some p) (some mac) s)
        (digest_equals (compute_packet_mac c data_key p) mac) _ _
        (λ e.
          subst (λ m. StatusOf c data_key (some p) (some m) passed) (digest_equals→eq _ _ e)
            (right_mac p))
        (λ e. wrong_mac p mac (digest_equals→ne _ _ e))

  statuses-StatusesOf :
      (slots : List (Option PacketInput)) (macs : List (Option (List ℕ)))
      → length macs ≡ length slots
      → StatusesOf c data_key slots macs (statuses c data_key slots macs)
  statuses-StatusesOf [] [] e = no_more
  statuses-StatusesOf [] (mac ∷ macs) e = absurd (omega arith)
  statuses-StatusesOf (slot ∷ slots) [] e = absurd (omega arith)
  statuses-StatusesOf (slot ∷ slots) (mac ∷ macs) e =
      one_more (packet_status-StatusOf slot mac) (statuses-StatusesOf slots macs (omega arith))

  -- On as many MAC slots as packet slots, and one at least, the native check returns a status for each position in order, which says whether the packet is missing, the MAC is missing, the MAC is the one computed of the packet, or it is another one; and it has passed exactly if every status is the passed one.
  pub verify_native_lem :
      (g : GroupInput) (macs : List (Option (List ℕ)))
      → length macs ≡ length g.packet_slots
      → 0 < length g.packet_slots
      → (v : NativeVerification) × (verify_native c g (native_authentication macs) data_key ≡ ok v)
        × StatusesOf c data_key g.packet_slots macs v.packet_statuses
        × ((v.all_passed ≡ true) ↔ All (λ s. s ≡ passed) v.packet_statuses)
  verify_native_lem g macs e pos =
      let ss = statuses c data_key g.packet_slots macs in
      (
        record { all_passed = all_of c data_key ss; packet_statuses = ss },
        verify_native-statuses c data_key g macs e pos,
        statuses-StatusesOf g.packet_slots macs e,
        (all_of→All ss, All→all_of ss),
      )
