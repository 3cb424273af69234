-- ===== src/Tesla/Mac.antt =====
-- TeslaMac.cpp and SamdAggregator.cpp: the keys and tags derived from a data key, and the SAMD tag
-- of a list of packet MACs.
use authentication_transmiss.Tesla.Encoder.{encode_fast_group_input, encode_packet_mac_input}
use authentication_transmiss.Tesla.Input.{GroupInput, PacketInput}
use authentication_transmiss.Crypto.{CryptoProvider}
use authentication_transmiss.Prelude.{ok, ◌>>=◌, Throws, ◌++◌, [], ◌∷◌, List, ℕ}

-- F'(K) = H(K).
unfoldable pub derive_packet_mac_key : CryptoProvider → List ℕ → List ℕ
derive_packet_mac_key c data_key = c.hash data_key

-- The domain text "FAST_GROUP_TAG".
abbrev pub fast_group_domain : List ℕ
fast_group_domain =
    b'F' ∷ b'A' ∷ b'S' ∷ b'T' ∷ b'_' ∷ b'G' ∷ b'R' ∷ b'O' ∷ b'U' ∷ b'P' ∷ b'_' ∷ b'T' ∷ b'A' ∷ b'G'
    ∷ []

unfoldable pub derive_fast_group_key : CryptoProvider → List ℕ → List ℕ
derive_fast_group_key c data_key = c.hmac (derive_packet_mac_key c data_key) fast_group_domain

unfoldable pub compute_packet_mac : CryptoProvider → List ℕ → PacketInput → List ℕ
compute_packet_mac c data_key p =
    c.hmac (derive_packet_mac_key c data_key) (encode_packet_mac_input p)

unfoldable pub compute_fast_group_tag :
    CryptoProvider → List ℕ → GroupInput → List (List ℕ) → Throws (List ℕ)
compute_fast_group_tag c data_key g samd_tau = do
  input ← encode_fast_group_input g samd_tau
  ok (c.hmac (derive_fast_group_key c data_key) input)

-- Each MAC behind the mark 0x01.
unfoldable pub append_marked : List ℕ → List (List ℕ) → List ℕ
append_marked out [] = out
append_marked out (mac ∷ macs) = append_marked (out ++ (1 ∷ mac)) macs

unfoldable pub aggregate_mac_list : CryptoProvider → List (List ℕ) → List ℕ
aggregate_mac_list c macs = c.hash (append_marked [] macs)
