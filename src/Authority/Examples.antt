-- ===== src/Authority/Examples.antt =====
-- An authority of which the random provider repeats a chain identifier.
use authentication_transmiss.Tesla.Input.{same_text}
use authentication_transmiss.Wire.{word_of}
use authentication_transmiss.Udp.Context.{native}
use authentication_transmiss.Authority.Accepted.{create_verified-issue}
use authentication_transmiss.Round.Parameters.{text, RoundParameters}
use authentication_transmiss.Crypto.KeyChain.{key_at, commitment_key, chain_loop, create, KeyChain}
use authentication_transmiss.Authority.Unique.{start, accepted, Reach-AllApart, AllApart}
use authentication_transmiss.Authority.Issue.{
  SenderContext, create_material, decode_chain_id, has, remember, attempt_key, attempt_seed,
  attempt_chain, none_issued, attempt, settle, Issued, issue_loop, SenderMaterial, create_verified,
  issue,
}
use authentication_transmiss.Prelude.{
  ◌↔◌, none, ◌+◌, ◌/◌, ◌-◌, replicate, ok, [], ◌++◌, refl, ◌≡◌, ◌∷◌, List, Throws,
}
use authentication_transmiss.Crypto.{sha256, CryptoProvider, CryptoAlgorithm}
use Prim.Native.Nat.{ℕ}

abbrev issued_round : RoundParameters
issued_round = record {
  algorithm = sha256;
  mode = native;
  total_packet_count = 2;
  packets_per_interval = 1;
  disclosure_delay = 1;
  interval_milliseconds = 100;
  start_timestamp_milliseconds = 0;
  data_interval_count = 2;
  improved_parameters = none;
  payload_mode = text;
}

-- The numbers drawn: the bytes of the state's number, halved, and one more.
abbrev draw : ℕ → ℕ → Throws (List ℕ) × ℕ
draw r n = (ok (replicate (n - 1) 0 ++ ((r / 2 + 1) ∷ [])), r + 1)

abbrev toy_of : CryptoAlgorithm → CryptoProvider
toy_of a = record { algorithm = a; hash = λ xs. 1 ∷ xs; hmac = λ k xs. k ++ xs }

abbrev toy_names : (a : CryptoAlgorithm) → (toy_of a).algorithm ≡ a
toy_names a = refl

abbrev first_call : Throws SenderMaterial × (Issued × ℕ)
first_call = issue draw toy_of none_issued (65 ∷ []) issued_round 0

abbrev sets_of : Throws SenderMaterial × (Issued × ℕ) → Issued
sets_of x = x.1.0

-- The second call starts from the same random state, so that its first two rounds repeat.
abbrev second_call : Throws SenderMaterial × (Issued × ℕ)
second_call = issue draw toy_of (sets_of first_call) (66 ∷ []) issued_round 0

abbrev material_of : ℕ → ℕ → SenderMaterial
material_of n id = record {
  sender_id = id ∷ [];
  chain_id = n;
  chain_seed = replicate 31 0 ++ (n ∷ []);
  commitment_key = 1 ∷ 1 ∷ 1 ∷ replicate 31 0 ++ (n ∷ []);
  round = issued_round;
}

first_ok : first_call ≡ (ok (material_of 1 65), (sets_of first_call, 2))
unfolding issue issue_loop settle attempt attempt_chain attempt_seed attempt_key remember has
    decode_chain_id create_material word_of create chain_loop commitment_key key_at same_text
first_ok = refl

second_ok : second_call ≡ (ok (material_of 2 66), (sets_of second_call, 4))
unfolding issue issue_loop settle attempt attempt_chain attempt_seed attempt_key remember has
    decode_chain_id create_material word_of create chain_loop commitment_key key_at same_text
second_ok = refl

Reach-AllApart_example : AllApart (material_of 2 66 ∷ material_of 1 65 ∷ [])
Reach-AllApart_example = Reach-AllApart draw toy_of (
    accepted (66 ∷ []) issued_round 0 4 second_ok
      (accepted (65 ∷ []) issued_round 0 2 first_ok start))

-- The commitment of the first material with the seed of the second is refused.
abbrev first_commitment : List ℕ
first_commitment = (material_of 1 65).commitment_key

abbrev taken : KeyChain → SenderContext
taken chain = record { material = material_of 2 66; key_chain = chain }

abbrev empty_chain : KeyChain
empty_chain = record { keys = [] }

create_verified-issue_example :
    (chain : KeyChain) × (create (toy_of sha256) (material_of 2 66).chain_seed 2 ≡ ok chain)
    × (commitment_key chain ≡ (material_of 2 66).commitment_key)
    × (create_verified (material_of 2 66) (toy_of sha256) ≡ ok (taken chain))
    × ((create_verified
            (record (material_of 2 66) { commitment_key = first_commitment })
            (toy_of sha256)
          ≡ ok (taken empty_chain))
        ↔ ((first_commitment ≡ (material_of 2 66).commitment_key)
            × (taken empty_chain ≡ taken chain)))
create_verified-issue_example =
    create_verified-issue draw toy_of toy_names issued_round (sets_of first_call)
      (sets_of second_call) (66 ∷ []) 0 4 (material_of 2 66) first_commitment (taken empty_chain)
      second_ok
