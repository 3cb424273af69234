-- ===== src/Udp/Canonical.antt =====
-- What `decode` accepts is the encoding of what it returns, so a packet has one wire form and
-- nothing is accepted that `encode` would not have written.
use authentication_transmiss.Wire.Failure.{thrown, rejected, Failure}
use authentication_transmiss.Udp.Fields.{read_header-front}
use authentication_transmiss.Udp.Encode.{encode}
use authentication_transmiss.Udp.Pieces.{
  decode_data-checks, decode_disclosure-checks, header_of, details_of, key_of, split_bytes,
}
use authentication_transmiss.Udp.RoundTrip.{decode_lem, decode-encode}
use authentication_transmiss.Udp.Layout.{encode-Admits, header_bytes, packet_bytes, Admits}
use authentication_transmiss.Udp.Decode.{
  decode_data, decode_disclosure, read_header, decode_body, catch_handlers, mode_length, key_length,
  decode, expected_length,
}
use authentication_transmiss.Wire.{reader, BinaryReader, IsU32, IsByte, IsU64}
use authentication_transmiss.Udp.Packet.{
  data_packet, disclosure_packet, WellFormed, Packet, PacketHeader,
}
use authentication_transmiss.Udp.Context.{
  packet_carries_disclosed_key, interval_of, IsValid, PacketContext,
}
use authentication_transmiss.Prelude.{
  invalid_argument, out_of_range, ◌⊎◌, sym, ltb-false→le, err, inr, inl, ltb, Result, ◌-◌,
  Bool-cases, subst, ap, arith, ◌∙◌, ◌+◌, ◌++◌, ok, some, ◌≤◌, length, ◌≡◌, ◌<◌, ◌≢◌, All, List, ℕ,
}

abbrev Explains : List ℕ → PacketContext → Packet → Type 0
Explains d c p = WellFormed p × Admits c p × (packet_bytes p ≡ d)

-- A datagram that some admitted packet explains is decoded to that packet.
decode-Explains :
    (d : List ℕ) (c : PacketContext) (p q : Packet)
    → IsValid c
    → Explains d c p
    → decode d c ≡ some (ok q)
    → Explains d c q
decode-Explains d c p q v (w, a, b) e =
    let r : decode d c ≡ some (ok p) = decode-encode p c d v w (encode-Admits p c v a ∙ ap ok b) in
    let same : p ≡ q = cc in subst (Explains d c) same (w, a, b)

module _ (c : PacketContext) (h : PacketHeader) (back : List ℕ) where
  abbrev HeaderFits : Type 0
  HeaderFits =
      IsU64 h.chain_id
      × (h.chain_id ≢ 0)
      × IsU32 h.interval_index
      × (h.interval_index ≢ 0)
      × IsU32 h.packet_index

  data_explained :
      IsValid c
      → HeaderFits
      → All IsByte back
      → 0 < h.packet_index
      → h.packet_index ≤ c.total_packet_count
      → h.interval_index ≡ interval_of h.packet_index c.packets_per_interval
      → length (header_bytes h ++ back)
        ≡ expected_length c h.packet_index
            (packet_carries_disclosed_key c h.interval_index h.packet_index)
      → (p : Packet) × Explains (header_bytes h ++ back) c p
  unfolding expected_length
  data_explained v f hb pos le int size =
      let has_key = packet_carries_disclosed_key c h.interval_index h.packet_index in
      let (message, r1, p1, l1, m1, h1, k1) =
        split_bytes 32 (key_length has_key + mode_length c.mode c h.packet_index) back hb
          (omega arith) in
      let (key, r2, p2, l2, m2, h2, k2) =
        split_bytes (key_length has_key) (mode_length c.mode c h.packet_index) r1 k1 m1 in
      let (k, bk, ok_k, has_k) = key_of has_key key h2 l2 in
      let (d, bd, fit_d, match_d) = details_of c.mode c h.packet_index r2 v.mode_fields k2 m2 in
      (
        data_packet (record { header = h; message = message; disclosed_key = k; details = d }),
        (
          (f.0, f.1, f.2, f.3, f.4, (λ z. omega arith), (l1, h1), ok_k, fit_d),
          (pos, le, int, has_k, match_d),
          rw (bk, bd, ← p2, ← p1),
        ),
      )

  disclosure_explained :
      HeaderFits
      → All IsByte back
      → h.packet_index ≡ 0
      → length (header_bytes h ++ back) ≡ 48
      → c.disclosure_delay < h.interval_index
      → h.interval_index
        ≤ interval_of c.total_packet_count c.packets_per_interval + c.disclosure_delay
      → (p : Packet) × Explains (header_bytes h ++ back) c p
  disclosure_explained f hb zero_index size lo hi = (
    disclosure_packet
        (record { chain_id = h.chain_id; interval_index = h.interval_index; disclosed_key = back }),
    ((f.0, f.1, f.2, f.3, (omega arith, hb)), (lo, hi), rw zero_index),
  )

catch_handlers-ok :
    (r : Result Failure Packet) (q : Packet) → catch_handlers r ≡ some (ok q) → r ≡ ok q
unfolding catch_handlers
catch_handlers-ok (ok p) q e = cc
catch_handlers-ok (err (rejected code)) q e = cc
catch_handlers-ok (err (thrown out_of_range)) q e = cc
catch_handlers-ok (err (thrown invalid_argument)) q e = cc
catch_handlers-ok (err (thrown other)) q e = cc

decode-ok :
    (d : List ℕ) (c : PacketContext) (q : Packet)
    → decode d c ≡ some (ok q)
    → (16 ≤ length d) × (decode_body d c ≡ ok q)
decode-ok d c q e = elim (Bool-cases (ltb (length d) 16)) [
  | inl short ↦ unfold decode in cc (short, e)
  | inr long ↦
      let le = ltb-false→le _ _ long in
      (le, catch_handlers-ok (decode_body d c) q (sym (decode_lem d c le) ∙ e))
]

decode_body-cases :
    (d : List ℕ) (c : PacketContext) (h : PacketHeader) (r : BinaryReader) (q : Packet)
    → read_header (reader d) ≡ ok (h, r)
    → decode_body d c ≡ ok q
    → (h.chain_id ≢ 0)
      × (h.interval_index ≢ 0)
      × (((h.packet_index ≡ 0) × (decode_disclosure c (length d) h r ≡ ok q))
          ⊎ (decode_data c (length d) h r ≡ ok q))
unfolding decode_body
decode_body-cases d c h r q e f = let g = rw (e, decode_body) at f in ground arith

body_explained :
    (c : PacketContext) (h : PacketHeader) (back : List ℕ) (q : Packet)
    → IsValid c
    → IsU64 h.chain_id
    → IsU32 h.interval_index
    → IsU32 h.packet_index
    → All IsByte back
    → decode_body (header_bytes h ++ back) c ≡ ok q
    → (p : Packet) × Explains (header_bytes h ++ back) c p
body_explained c h back q v hc hi hp hb e =
    let (nc, ni, which) = decode_body-cases _ c h _ q (read_header-front h back hc hi hp) e in
    elim which [
      | inl (zero_index, f) ↦
          let (size, lo, hi') = decode_disclosure-checks c _ h _ q v f in
          disclosure_explained c h back (hc, nc, hi, ni, hp) hb zero_index size lo hi'
      | inr f ↦
          let (pos, le, int, size) = decode_data-checks c _ h _ q f in
          data_explained c h back v (hc, nc, hi, ni, hp) hb pos le int size
    ]

-- Under a valid context, if `decode` turns a datagram of bytes into a packet, then the packet is
-- well formed, `encode` accepts it, and what `encode` writes is that datagram.
pub encode-decode :
    (d : List ℕ) (c : PacketContext) (q : Packet)
    → All IsByte d
    → IsValid c
    → decode d c ≡ some (ok q)
    → WellFormed q × (encode q c ≡ ok d)
encode-decode d c q hd v e =
    let (long, body) = decode-ok d c q e in
    let (front, back, p, lf, lb, hf, hb) = split_bytes 16 (length d - 16) d hd (omega arith) in
    let (h, bh, hc, hi, hp) = header_of front hf lf in
    let same : header_bytes h ++ back ≡ d = ap (λ t. t ++ back) bh ∙ sym p in
    let (p', ex) =
      body_explained c h back q v hc hi hp hb
        (subst (λ t. decode_body t c ≡ ok q) (sym same) body) in
    let (w, a, b) = decode-Explains d c p' q v (subst (λ t. Explains t c p') same ex) e in
    (w, encode-Admits q c v a ∙ ap ok b)
