-- ===== src/Crypto/Examples.antt =====
-- A concrete chain at which the theorems on key chains apply.
use authentication_transmiss.Crypto.Chains.{
  create_lem, verify_disclosed_key_sound, verify-data_key, Collision,
}
use authentication_transmiss.Crypto.KeyChain.{
  key_at, commitment_key, hash_times, chain_loop, KeyChain, data_key, create, verify_disclosed_key,
  data_interval_count,
}
use authentication_transmiss.Crypto.{arith, digest_equals, true, [], sha256, CryptoProvider}
use authentication_transmiss.Prelude.{◌+◌, ◌-◌, ◌⊎◌, refl, ok, ◌++◌, ◌≤◌, ◌∷◌, ◌≡◌, List, ℕ}

-- A provider whose hash puts a mark in front of its input.
abbrev marking : CryptoProvider
marking = record { algorithm = sha256; hash = λ x. 1 ∷ x; hmac = λ k m. k ++ m }

abbrev short_chain : KeyChain
short_chain = record {
  keys = (1 ∷ 1 ∷ 1 ∷ 1 ∷ 5 ∷ []) ∷ (1 ∷ 1 ∷ 1 ∷ 5 ∷ []) ∷ (1 ∷ 1 ∷ 5 ∷ []) ∷ (1 ∷ 5 ∷ []) ∷ [];
}

short_chain-created : create marking (5 ∷ []) 3 ≡ ok short_chain
unfolding create chain_loop
short_chain-created = refl

create_example :
    (data_interval_count short_chain ≡ 3)
    × ((i : ℕ) → i ≤ 3 → key_at short_chain.keys i ≡ hash_times marking.hash (3 - i + 1) (5 ∷ []))
create_example = create_lem marking (5 ∷ []) 3 short_chain short_chain-created

verify-data_key_example :
    (k : List ℕ) × (data_key short_chain 2 ≡ ok k)
    × (verify_disclosed_key marking k 2 (commitment_key short_chain) ≡ true)
verify-data_key_example =
    verify-data_key marking (5 ∷ []) 3 short_chain short_chain-created 2 (omega arith) (omega arith)

second_key-verifies :
    verify_disclosed_key marking (1 ∷ 1 ∷ 5 ∷ []) 2 (commitment_key short_chain) ≡ true
unfolding verify_disclosed_key hash_times commitment_key key_at digest_equals
second_key-verifies = refl

verify_disclosed_key_sound_example :
    (data_key short_chain 2 ≡ ok (1 ∷ 1 ∷ 5 ∷ [])) ⊎ Collision marking.hash
verify_disclosed_key_sound_example =
    verify_disclosed_key_sound marking (5 ∷ []) 3 short_chain short_chain-created 2 (1 ∷ 1 ∷ 5 ∷ [])
      (omega arith) (omega arith) second_key-verifies
