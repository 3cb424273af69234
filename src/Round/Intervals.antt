-- ===== src/Round/Intervals.antt =====
-- The packets of an interval, which the runtimes compute in 32 bits, and the codec's configuration
-- of a round that the constructor made.
use native.Mathlib.Nat.{div-lt_iff_lt-mul, le-div_iff_mul-le}
use Prim.Native.Nat.{zero}
use authentication_transmiss.Udp.Context.{interval_of}
use authentication_transmiss.Round.Parameters.{check_improved, RoundParameters, create_round}
use authentication_transmiss.Prelude.{
  ◌∙◌, refl, ap, ◌↔◌, suc, ◌%◌, ◌^◌, ◌<◌, ◌*◌, min, ℕ, arith, ◌≤◌, ◌+◌, ◌/◌, ◌-◌, ok, ◌≡◌,
}

pub create_round_inv :
    (p r : RoundParameters)
    → create_round p ≡ ok r
    → (r ≡ record p {
      data_interval_count = (p.total_packet_count - 1) / p.packets_per_interval + 1;
    })
      × (1 ≤ p.total_packet_count)
      × (1 ≤ p.packets_per_interval)
      × (1 ≤ p.disclosure_delay)
      × (1 ≤ p.interval_milliseconds)
      × (check_improved p.mode p.packets_per_interval p.improved_parameters ≡ ok tt)
unfolding create_round
create_round_inv p r e = ground arith

-- The bounds of an interval's packets, in 32 bits: `(i - 1) * p + 1` and `min(total, i * p)`.
unfoldable pub first_packet : RoundParameters → ℕ → ℕ
first_packet r interval_index = ((interval_index - 1) * r.packets_per_interval + 1) % 2 ^ 32

unfoldable pub last_packet : RoundParameters → ℕ → ℕ
last_packet r interval_index =
    min r.total_packet_count (interval_index * r.packets_per_interval % 2 ^ 32)

module _ (p : ℕ) (pos : 1 ≤ p) where
  -- `interval_of` without division.
  interval_of→bounds :
      (k j : ℕ) → 1 ≤ k → interval_of k p ≡ j + 1 → (j * p + 1 ≤ k) × (k ≤ j * p + p)
  interval_of→bounds k j low e =
      let lower : j ≤ (k - 1) / p = omega arith in
      let upper : (k - 1) / p < j + 1 = omega arith in
      let a : j * p ≤ k - 1 = (le-div_iff_mul-le pos).0 lower in
      let b : k - 1 < (j + 1) * p = (div-lt_iff_lt-mul pos).0 upper in (omega arith, omega arith)

  bounds→interval_of : (k j : ℕ) → j * p + 1 ≤ k → k ≤ j * p + p → interval_of k p ≡ j + 1
  bounds→interval_of k j low high =
      let a : j ≤ (k - 1) / p = (le-div_iff_mul-le pos).1 (omega arith) in
      let b : (k - 1) / p < j + 1 = (div-lt_iff_lt-mul pos).1 (omega arith) in omega arith

  -- The last packet before interval j + 1 where there are at least that many intervals.
  started : (total j : ℕ) → j < (total - 1) / p + 1 → j * p ≤ total - 1
  started total j h = (le-div_iff_mul-le pos).0 (omega arith)

  -- No interval but the first is longer than the round.
  small :
      (total j : ℕ) → j < (total - 1) / p + 1 → p < 2 ^ 32 → total ≤ 200_000 → j * p + p < 2 ^ 32
  small total zero h w t = omega arith
  small total (suc j) h w t =
      let a = started total (suc j) h in let b = started total 1 (omega arith) in omega arith

module _ (total q : ℕ) (pos : 1 ≤ q) (nonempty : 1 ≤ total) (short : total ≤ 200_000)
    (u32 : q < 2 ^ 32) where
  bounds_lem :
      (j : ℕ)
      → j < (total - 1) / q + 1
      → ((suc j - 1) * q + 1 ≡ ((suc j - 1) * q + 1) % 2 ^ 32)
        × (min total (suc j * q) ≡ min total (suc j * q % 2 ^ 32))
        × ((suc j - 1) * q + 1 ≤ min total (suc j * q))
  bounds_lem j h =
      let a = small q pos total j h u32 short in
      let b = started q pos total j h in
      let next : suc j ≡ j + 1 = omega arith in
      let c : suc j * q ≡ j * q + q = ap (λ x. x * q) next ∙ omega arith in
      let back : suc j - 1 ≡ j = omega arith in
      let d : (suc j - 1) * q ≡ j * q = ap (λ x. x * q) back in
      rw (c, d) (omega arith, omega arith, omega arith)

  packets_lem :
      (j k : ℕ)
      → (((suc j - 1) * q + 1 ≤ k) × (k ≤ min total (suc j * q)))
        ↔ ((1 ≤ k) × (k ≤ total) × (interval_of k q ≡ suc j))
  packets_lem j k =
      let next : suc j ≡ j + 1 = omega arith in
      let c : suc j * q ≡ j * q + q = ap (λ x. x * q) next ∙ omega arith in
      let back : suc j - 1 ≡ j = omega arith in
      let d : (suc j - 1) * q ≡ j * q = ap (λ x. x * q) back in
      rw (c, d)
        (
          (λ h.
              let l = h.0 in
              let u = h.1 in
              (
                omega arith,
                omega arith,
                omega (arith, bounds→interval_of q pos k j l (omega arith)),
              )),
          (λ h.
              let l = h.0 in
              let u = h.1 in
              let b = interval_of→bounds q pos k j l (omega (arith, h.2)) in
              let b0 = b.0 in let b1 = b.1 in (omega arith, omega arith)),
        )

module _ (p r : RoundParameters) (made : create_round p ≡ ok r)
    (short : p.total_packet_count ≤ 200_000) (u32 : p.packets_per_interval < 2 ^ 32) where
  -- In a round that the constructor made, of at most 200,000 packets, and an interval of it, the 32-bit bounds do not wrap, the interval has a packet, and the packets from its first to its last are those packets of the round that the codec puts into that interval.
  pub interval_packets :
      (interval_index : ℕ)
      → 1 ≤ interval_index
      → interval_index ≤ r.data_interval_count
      → (first_packet r interval_index ≡ (interval_index - 1) * r.packets_per_interval + 1)
        × (last_packet r interval_index
            ≡ min r.total_packet_count (interval_index * r.packets_per_interval))
        × (first_packet r interval_index ≤ last_packet r interval_index)
        × ((k : ℕ)
            → ((first_packet r interval_index ≤ k) × (k ≤ last_packet r interval_index)) ↔ (
                (1 ≤ k)
                × (k ≤ r.total_packet_count)
                × (interval_of k r.packets_per_interval ≡ interval_index)))
  unfolding first_packet last_packet
  interval_packets zero low high = absurd (omega arith)
  interval_packets (suc j) low high =
      let (same, total, pos, delay, period, group) = create_round_inv p r made in
      let t : r.total_packet_count ≡ p.total_packet_count = ap (λ x. x.total_packet_count) same in
      let q : r.packets_per_interval ≡ p.packets_per_interval =
        ap (λ x. x.packets_per_interval) same in
      let n : r.data_interval_count ≡ (p.total_packet_count - 1) / p.packets_per_interval + 1 =
        ap (λ x. x.data_interval_count) same in
      let (first, last, order) =
        bounds_lem p.total_packet_count p.packets_per_interval pos total short u32 j
          (omega arith) in
      rw (t, q, ← first, ← last)
        (
          refl,
          refl,
          order,
          packets_lem p.total_packet_count p.packets_per_interval pos total short u32 j,
        )
