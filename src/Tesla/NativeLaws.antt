-- ===== src/Tesla/NativeLaws.antt =====
-- What the native strategy accepts.
use Prim.Native.Nat.{zero}
use mathlib.Core.Option.{none}
use authentication_transmiss.Tesla.Mac.{compute_packet_mac}
use mathlib.Core.Bool.{false}
use mathlib.Core.List.{[]}
use authentication_transmiss.Tesla.Input.{has_missing_packets, any_missing, GroupInput, PacketInput}
use authentication_transmiss.Tesla.Native.{
  improved_authentication, create_native_details, native_macs, create_native_authentication, passed,
  TeslaAuthenticationDetails, native_authentication, verify_native, is_passed, packet_status,
  NativeVerification, PacketStatus, native_loop,
}
use authentication_transmiss.Crypto.{
  digest_equals→eq, digest_equals, digest_equals_refl, CryptoProvider,
}
use authentication_transmiss.Prelude.{
  and_inv, ◌≢◌, inr, inl, suc, Bool-cases, ap, ==_refl, ◌==◌, some, replicate, ok, append_assoc,
  ◌∙◌, append-nil, arith, refl, ◌<◌, sym, length, ◌++◌, ◌&&◌, ◌≡◌, ◌∷◌, true, Bool, Option, List, ℕ,
}

and-true : (b : Bool) → b && true ≡ b
and-true true = refl
and-true false = refl

and_assoc : (a b c : Bool) → (a && b) && c ≡ a && (b && c)
and_assoc true b c = refl
and_assoc false b c = refl

module _ (c : CryptoProvider) (data_key : List ℕ) where
  -- The status of every position, slot by slot.
  abbrev pub statuses : List (Option PacketInput) → List (Option (List ℕ)) → List PacketStatus
  statuses [] macs = []
  statuses (slot ∷ slots) [] = []
  statuses (slot ∷ slots) (mac ∷ macs) = packet_status c data_key slot mac ∷ statuses slots macs

  abbrev pub all_of : List PacketStatus → Bool
  all_of [] = true
  all_of (s ∷ ss) = is_passed s && all_of ss

  native_loop_lem :
      (slots : List (Option PacketInput)) (macs : List (Option (List ℕ))) (v : NativeVerification)
      → native_loop c data_key slots macs v ≡ record {
        all_passed = v.all_passed && all_of (statuses slots macs);
        packet_statuses = v.packet_statuses ++ statuses slots macs;
      }
  unfolding native_loop
  native_loop_lem [] macs v = λ i. record {
    all_passed = sym (and-true v.all_passed) i;
    packet_statuses = sym (append-nil v.packet_statuses) i;
  }
  native_loop_lem (slot ∷ slots) [] v = λ i. record {
    all_passed = sym (and-true v.all_passed) i;
    packet_statuses = sym (append-nil v.packet_statuses) i;
  }
  native_loop_lem (slot ∷ slots) (mac ∷ macs) v =
      let s = packet_status c data_key slot mac in
      let rest = native_loop_lem slots macs (record {
        all_passed = v.all_passed && is_passed s;
        packet_statuses = v.packet_statuses ++ (s ∷ []);
      }) in
      rest ∙ (λ i. record {
        all_passed = and_assoc v.all_passed (is_passed s) (all_of (statuses slots macs)) i;
        packet_statuses = append_assoc v.packet_statuses (s ∷ []) (statuses slots macs) i;
      })

  length-statuses :
      (slots : List (Option PacketInput)) (macs : List (Option (List ℕ)))
      → length macs ≡ length slots
      → length (statuses slots macs) ≡ length slots
  length-statuses [] macs e = refl
  length-statuses (slot ∷ slots) [] e = e
  length-statuses (slot ∷ slots) (mac ∷ macs) e =
      omega (arith, length-statuses slots macs (omega arith))

  -- On as many MAC slots as packet slots, and one at least, the native check returns the status of
  -- every position in order, and has passed exactly if all of them have.
  pub verify_native-statuses :
      (g : GroupInput) (macs : List (Option (List ℕ)))
      → length macs ≡ length g.packet_slots
      → 0 < length g.packet_slots
      → verify_native c g (native_authentication macs) data_key
        ≡ ok (record {
          all_passed = all_of (statuses g.packet_slots macs);
          packet_statuses = statuses g.packet_slots macs;
        })
  unfolding verify_native
  verify_native-statuses g macs e pos =
      let loop =
        native_loop_lem g.packet_slots macs (record { all_passed = true; packet_statuses = [] }) in
      let n = length-statuses g.packet_slots macs e in
      let t : (length macs == length g.packet_slots) ≡ true =
        rw e (==_refl (length g.packet_slots)) in
      let u : (length (statuses g.packet_slots macs) == 0) ≡ false = rw n (ground arith) in
      rw (t, loop, u)

  statuses-native_macs :
      (slots : List (Option PacketInput))
      → any_missing slots ≡ false
      → statuses slots (native_macs c data_key slots) ≡ replicate (length slots) passed
  unfolding any_missing native_macs packet_status
  statuses-native_macs [] e = refl
  statuses-native_macs (none ∷ slots) e = cc
  statuses-native_macs (some p ∷ slots) e =
      rw (digest_equals_refl (compute_packet_mac c data_key p), statuses-native_macs slots e)

  length-native_macs :
      (slots : List (Option PacketInput))
      → any_missing slots ≡ false
      → length (native_macs c data_key slots) ≡ length slots
  unfolding any_missing native_macs
  length-native_macs [] e = refl
  length-native_macs (none ∷ slots) e = cc
  length-native_macs (some p ∷ slots) e = ap suc (length-native_macs slots e)

  all_of-replicate : (n : ℕ) → all_of (replicate n passed) ≡ true
  unfolding is_passed
  all_of-replicate zero = refl
  all_of-replicate (suc n) = all_of-replicate n

  packet_status-passed :
      (slot : Option PacketInput) (mac : Option (List ℕ))
      → is_passed (packet_status c data_key slot mac) ≡ true
      → (p : PacketInput) × (slot ≡ some p) × (mac ≡ some (compute_packet_mac c data_key p))
  unfolding is_passed packet_status
  packet_status-passed none mac e = cc
  packet_status-passed (some p) none e = cc
  packet_status-passed (some p) (some mac) e =
      elim (Bool-cases (digest_equals (compute_packet_mac c data_key p) mac)) [
        | inl same ↦ (p, refl, ap some (sym (digest_equals→eq _ _ same)))
        | inr other ↦ ground arith
      ]

  statuses-all_passed :
      (slots : List (Option PacketInput)) (macs : List (Option (List ℕ)))
      → length macs ≡ length slots
      → all_of (statuses slots macs) ≡ true
      → (any_missing slots ≡ false) × (macs ≡ native_macs c data_key slots)
  unfolding any_missing native_macs
  statuses-all_passed [] [] e all = (refl, refl)
  statuses-all_passed [] (mac ∷ macs) e all = absurd (omega arith)
  statuses-all_passed (slot ∷ slots) [] e all = absurd (omega arith)
  statuses-all_passed (slot ∷ slots) (mac ∷ macs) e all =
      let (here, there) = and_inv _ _ all in
      let (p, filled, same) = packet_status-passed slot mac here in
      let (complete, rest) = statuses-all_passed slots macs (omega arith) there in
      rw (filled, same) (complete, ap (◌∷◌ (some (compute_packet_mac c data_key p))) rest)

  create_inv :
      (g : GroupInput) (d : TeslaAuthenticationDetails)
      → create_native_authentication c g data_key ≡ ok d
      → (any_missing g.packet_slots ≡ false)
        × (0 < length (native_macs c data_key g.packet_slots))
        × (d ≡ native_authentication (native_macs c data_key g.packet_slots))
  unfolding create_native_authentication create_native_details has_missing_packets
  create_inv g d e = ground arith

  -- The details that the native sender makes of a group pass at a receiver that has the whole
  -- group and the same data key, every position with the status passed.
  pub verify_native-create :
      (g : GroupInput) (d : TeslaAuthenticationDetails)
      → create_native_authentication c g data_key ≡ ok d
      → verify_native c g d data_key
        ≡ ok (record {
          all_passed = true;
          packet_statuses = replicate (length g.packet_slots) passed;
        })
  verify_native-create g d e =
      let (complete, pos, shape) = create_inv g d e in
      let n = length-native_macs g.packet_slots complete in
      let same = statuses-native_macs g.packet_slots complete in
      rw
        (
          shape,
          verify_native-statuses g (native_macs c data_key g.packet_slots) n (omega arith),
          same,
        )
        (rw (all_of-replicate (length g.packet_slots)))

  verify_native_inv :
      (g : GroupInput) (macs : List (Option (List ℕ))) (v : NativeVerification)
      → verify_native c g (native_authentication macs) data_key ≡ ok v
      → (length macs ≡ length g.packet_slots)
        × (0 < length v.packet_statuses)
        × (v
            ≡ native_loop c data_key g.packet_slots macs
                (record { all_passed = true; packet_statuses = [] }))
  unfolding verify_native
  verify_native_inv g macs v e = ground arith

  verify_native_improved :
      (g : GroupInput) (taus : List (List ℕ)) (tag : Option (List ℕ)) (v : NativeVerification)
      → verify_native c g (improved_authentication taus tag) data_key ≢ ok v
  unfolding verify_native
  verify_native_improved g taus tag v e = cc

  -- Where the native check passes, whatever the details received, the group is complete and the
  -- details are the ones that the sender makes of these packets with this data key.
  pub verify_native_sound :
      (g : GroupInput) (d : TeslaAuthenticationDetails) (v : NativeVerification)
      → verify_native c g d data_key ≡ ok v
      → v.all_passed ≡ true
      → create_native_authentication c g data_key ≡ ok d
  verify_native_sound g (improved_authentication taus tag) v e pass =
      absurd (verify_native_improved g taus tag v e)
  verify_native_sound g (native_authentication macs) v e pass =
      let (n, pos, shape) = verify_native_inv g macs v e in
      let loop =
        shape
        ∙ native_loop_lem g.packet_slots macs
            (record { all_passed = true; packet_statuses = [] }) in
      let all : all_of (statuses g.packet_slots macs) ≡ true =
        sym (λ i. (loop i).all_passed) ∙ pass in
      let (complete, same) = statuses-all_passed g.packet_slots macs n all in
      let m = length-statuses g.packet_slots macs n in
      let k : length v.packet_statuses ≡ length (statuses g.packet_slots macs) =
        λ i. length ((loop i).packet_statuses) in
      let nonempty : (length macs == 0) ≡ false = ground arith in
      unfold create_native_authentication create_native_details has_missing_packets in
      rw (complete, sym same) (rw nonempty)
