-- ===== src/Round/Configuration.antt =====
-- The codec's configuration that the runtimes make from a round: when there is one.
use mathlib.Core.Option.{none}
use authentication_transmiss.Wire.{IsU32}
use authentication_transmiss.Round.Parameters.{
  check_improved, create_packet_context, ImprovedParameters, create_round, RoundParameters,
}
use authentication_transmiss.Round.Intervals.{create_round_inv}
use authentication_transmiss.Udp.Context.{
  create_context-IsValid, native, AuthenticationMode, interval_of, PacketContext, u32_max, improved,
  create_context, IsValid-create_context, IsValid,
}
use authentication_transmiss.Prelude.{
  ap, sym, Option-cases, subst, ◌≢◌, refl, inr, inl, ◌⊎◌, ◌%◌, arith, ◌+◌, ◌≤◌, ok, ◌<◌, some, ◌≡◌,
  Option, ℕ,
}

-- The tags of a group fit a datagram, which no check of a round asks for.
abbrev pub TagsFit : Option ImprovedParameters → Type 0
TagsFit none = Unit {0}
TagsFit (some q) = (0 < q.group_size) × (0 < q.tau_count) × (q.tau_count ≤ 2043)

-- The sizes that the codec has of a round: none in the native mode, its own ones in the improved.
abbrev pub SameSizes : Option ImprovedParameters → PacketContext → Type 0
SameSizes none c = (c.group_size ≡ 0) × (c.tau_count ≡ 0)
SameSizes (some q) c = (c.group_size ≡ q.group_size) × (c.tau_count ≡ q.tau_count)

pub AuthenticationMode-cases : (m : AuthenticationMode) → (m ≡ native) ⊎ (m ≡ improved)
AuthenticationMode-cases native = inl refl
AuthenticationMode-cases improved = inr refl

abbrev configuration : RoundParameters → ℕ → ℕ → PacketContext
configuration r group_size tau_count = record {
  mode = r.mode;
  packets_per_interval = r.packets_per_interval;
  disclosure_delay = r.disclosure_delay;
  total_packet_count = r.total_packet_count;
  group_size = group_size;
  tau_count = tau_count;
}

improved_inv :
    (n : ℕ) (q : ImprovedParameters)
    → check_improved improved n (some q) ≡ ok tt
    → n % q.group_size ≡ 0
unfolding check_improved
improved_inv n q e = ground arith

native_inv : (n : ℕ) (q : ImprovedParameters) → check_improved native n (some q) ≢ ok tt
unfolding check_improved
native_inv n q e = cc

missing_inv : (n : ℕ) → check_improved improved n none ≢ ok tt
unfolding check_improved
missing_inv n e = cc

created :
    (x pc : PacketContext)
    → IsU32 x.total_packet_count
    → create_context x ≡ ok pc
    → IsValid pc × (pc.total_packet_count ≡ x.total_packet_count)
created x pc u e =
    let (same, v) = create_context-IsValid x pc u e in
    (subst IsValid (sym same) v, ap (λ y. y.total_packet_count) same)

-- A configuration that is made is valid, of the round's number of packets.
pub configuration-IsValid :
    (r : RoundParameters) (pc : PacketContext)
    → IsU32 r.total_packet_count
    → create_packet_context r ≡ ok pc
    → IsValid pc × (pc.total_packet_count ≡ r.total_packet_count)
unfolding create_packet_context
configuration-IsValid r pc u e = elim (AuthenticationMode-cases r.mode) [
  | inl m ↦ created _ pc u (rw (m, create_packet_context) at e)
  | inr m ↦ elim (Option-cases r.improved_parameters) [
    | inl i ↦ let f = rw (m, create_packet_context, i) at e in absurd (cc f)
    | inr (q, i) ↦ created _ pc u (rw (m, create_packet_context, i) at e)
  ]
]

module _ (p r : RoundParameters) (made : create_round p ≡ ok r) where
  mode_checked : check_improved r.mode r.packets_per_interval r.improved_parameters ≡ ok tt
  mode_checked =
      let (same, total, pos, delay, period, group) = create_round_inv p r made in
      subst (λ s. check_improved s.mode s.packets_per_interval s.improved_parameters ≡ ok tt)
        (sym same) group

  counts :
      (1 ≤ r.total_packet_count)
      × (1 ≤ r.packets_per_interval)
      × (1 ≤ r.disclosure_delay)
      × (interval_of r.total_packet_count r.packets_per_interval ≡ r.data_interval_count)
  counts =
      let (same, total, pos, delay, period, group) = create_round_inv p r made in
      subst
        (λ s.
          (1 ≤ s.total_packet_count)
          × (1 ≤ s.packets_per_interval)
          × (1 ≤ s.disclosure_delay)
          × (interval_of s.total_packet_count s.packets_per_interval ≡ s.data_interval_count))
        (sym same) (total, pos, delay, refl)

  module _ (u32 : IsU32 r.total_packet_count)
      (late : r.data_interval_count + r.disclosure_delay ≤ u32_max) where
    native_configuration :
        r.mode ≡ native
        → (create_packet_context r ≡ ok (configuration r 0 0)) × IsValid (configuration r 0 0)
    unfolding create_packet_context
    native_configuration m =
        let (total, pos, delay, count) = counts in
        let v : IsValid (record (configuration r 0 0) { mode = native }) = record {
          per_interval = pos;
          total = total;
          delay = delay;
          total_u32 = u32;
          schedule = omega (arith, count);
          mode_fields = (refl, refl);
        } in
        (
          rw (create_packet_context, m) (IsValid-create_context _ v),
          subst (λ x. IsValid (record (configuration r 0 0) { mode = x })) (sym m) v,
        )

    improved_configuration :
        (q : ImprovedParameters)
        → r.mode ≡ improved
        → r.improved_parameters ≡ some q
        → TagsFit (some q)
        → (create_packet_context r ≡ ok (configuration r q.group_size q.tau_count))
          × IsValid (configuration r q.group_size q.tau_count)
    unfolding create_packet_context
    improved_configuration q m i fit =
        let (total, pos, delay, count) = counts in
        let checked =
          subst (λ o. check_improved improved r.packets_per_interval o ≡ ok tt) i
            (subst (λ x. check_improved x r.packets_per_interval r.improved_parameters ≡ ok tt) m
              mode_checked) in
        let v : IsValid (record (configuration r q.group_size q.tau_count) { mode = improved }) =
          record {
            per_interval = pos;
            total = total;
            delay = delay;
            total_u32 = u32;
            schedule = omega (arith, count);
            mode_fields = (fit.0, fit.1, improved_inv r.packets_per_interval q checked, fit.2);
          } in
        (
          rw (create_packet_context, m, i) (IsValid-create_context _ v),
          subst (λ x. IsValid (record (configuration r q.group_size q.tau_count) { mode = x }))
              (sym m) v,
        )

    native_sizes : r.mode ≡ native → SameSizes r.improved_parameters (configuration r 0 0)
    native_sizes m = elim (Option-cases r.improved_parameters) [
      | inl i ↦ subst (λ o. SameSizes o (configuration r 0 0)) (sym i) (refl, refl)
      | inr (q, i) ↦ absurd (
          native_inv r.packets_per_interval q (
            subst (λ o. check_improved native r.packets_per_interval o ≡ ok tt) i
              (subst (λ x. check_improved x r.packets_per_interval r.improved_parameters ≡ ok tt) m
                mode_checked)))
    ]

    -- A round that the constructor made, whose last disclosure is in the range of 32 bits and, in the improved mode, whose tags fit a datagram, has a configuration of the codec, which is valid, has its mode, its counts of packets, its disclosure delay and, in the improved mode, its group size and number of tags, and has as many intervals.
    pub create_packet_context-IsValid :
        TagsFit r.improved_parameters
        → (c : PacketContext) × (create_packet_context r ≡ ok c)
          × IsValid c
          × (c.mode ≡ r.mode)
          × (c.total_packet_count ≡ r.total_packet_count)
          × (c.packets_per_interval ≡ r.packets_per_interval)
          × (c.disclosure_delay ≡ r.disclosure_delay)
          × SameSizes r.improved_parameters c
          × (interval_of c.total_packet_count c.packets_per_interval ≡ r.data_interval_count)
    create_packet_context-IsValid fit =
        let (total, pos, delay, count) = counts in
        elim (AuthenticationMode-cases r.mode) [
          | inl m ↦
              let (e, v) = native_configuration m in
              (configuration r 0 0, e, v, refl, refl, refl, refl, native_sizes m, count)
          | inr m ↦ elim (Option-cases r.improved_parameters) [
            | inl i ↦ absurd (
                missing_inv r.packets_per_interval (
                  subst (λ o. check_improved improved r.packets_per_interval o ≡ ok tt) i
                    (subst
                      (λ x. check_improved x r.packets_per_interval r.improved_parameters ≡ ok tt) m
                      mode_checked)))
            | inr (q, i) ↦
                let (e, v) = improved_configuration q m i (subst TagsFit i fit) in
                let c = configuration r q.group_size q.tau_count in
                let sizes = subst (λ o. SameSizes o c) (sym i) (refl, refl) in
                (c, e, v, refl, refl, refl, refl, sizes, count)
          ]
        ]
