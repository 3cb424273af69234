-- ===== src/Crypto/Chains.antt =====
-- The keys of a chain hash down to the commitment, and only they verify at their index.
use native.Mathlib.Decide.{dec_le}
use authentication_transmiss.Crypto.{
  digest_equals-cases, inr, inl, digest_equals_refl, digest_equals→eq, true, CryptoProvider,
}
use mathlib.Core.List.{[]}
use Prim.Native.Nat.{zero}
use authentication_transmiss.Crypto.KeyChain.{
  commitment_key, verify_disclosed_key, data_key, data_interval_count, create, KeyChain, key_at,
  chain_loop, hash_times,
}
use authentication_transmiss.Prelude.{
  ◌≢◌, ◌⊎◌, ◌<◌, ok, ◌-◌, sym, ◌∙◌, arith, refl, ◌≤◌, ◌+◌, ◌≡◌, suc, length, ◌∷◌, List, ℕ,
}

-- Two inputs with one digest.
abbrev pub Collision : (List ℕ → List ℕ) → Type 0
Collision hash = (a : List ℕ) × (b : List ℕ) × (a ≢ b) × (hash a ≡ hash b)

module _ (hash : List ℕ → List ℕ) where
  hash_times-add :
      (m k j : ℕ) (x : List ℕ)
      → j ≡ k + m
      → hash_times hash m (hash_times hash k x) ≡ hash_times hash j x
  unfolding hash_times
  hash_times-add m zero j x e = let e' : j ≡ m = omega arith in rw e'
  hash_times-add m (suc k) zero x e = absurd (omega arith)
  hash_times-add m (suc k) (suc j) x e = hash_times-add m k j (hash x) (omega arith)

  length-chain_loop :
      (n : ℕ) (key : List ℕ) (higher : List (List ℕ))
      → length (chain_loop hash n key higher) ≡ n + 1 + length higher
  unfolding chain_loop
  length-chain_loop zero key higher = omega arith
  length-chain_loop (suc n) key higher =
      omega (arith, length-chain_loop n (hash key) (key ∷ higher))

  -- Behind the keys that the loop computes stand the ones it was given.
  key_at-higher :
      (n : ℕ) (key : List ℕ) (higher : List (List ℕ)) (i j : ℕ)
      → j ≡ n + 1 + i
      → key_at (chain_loop hash n key higher) j ≡ key_at higher i
  unfolding chain_loop key_at
  key_at-higher zero key higher i zero e = absurd (omega arith)
  key_at-higher zero key higher i (suc j) e = let e' : j ≡ i = omega arith in rw e'
  key_at-higher (suc n) key higher i j e =
      key_at-higher n (hash key) (key ∷ higher) (suc i) j (omega arith)

  key_at-chain_loop :
      (n : ℕ) (key : List ℕ) (higher : List (List ℕ)) (i : ℕ)
      → i ≤ n
      → key_at (chain_loop hash n key higher) i ≡ hash_times hash (n - i) key
  unfolding chain_loop hash_times key_at
  key_at-chain_loop zero key higher i le = let e : i ≡ 0 = omega arith in rw e
  key_at-chain_loop (suc n) key higher i le = elim (dec_le i n) [
    | yes below ↦
        let e : suc n - i ≡ suc (n - i) = omega arith in
        rw e (key_at-chain_loop n (hash key) (key ∷ higher) i below)
    | no above ↦
        let e : suc n - i ≡ 0 = omega arith in
        rw e (key_at-higher n (hash key) (key ∷ higher) 0 i (omega arith) ∙ refl)
  ]

  hash_times-Collision :
      (n : ℕ) (a b : List ℕ) → hash_times hash n a ≡ hash_times hash n b → (a ≡ b) ⊎ Collision hash
  unfolding hash_times
  hash_times-Collision zero a b e = inl e
  hash_times-Collision (suc n) a b e = elim (hash_times-Collision n (hash a) (hash b) e) [
    | inl same ↦ elim (digest_equals-cases a b) [ inl e' ↦ inl e' | inr ne ↦ inr (a, b, ne, same) ]
    | inr clash ↦ inr clash
  ]

verified :
    (p : CryptoProvider) (k : List ℕ) (i : ℕ) (commitment : List ℕ)
    → verify_disclosed_key p k i commitment ≡ true
    → hash_times p.hash i k ≡ commitment
unfolding verify_disclosed_key
verified p k i commitment e = digest_equals→eq _ _ e

module _ (p : CryptoProvider) (seed : List ℕ) (n : ℕ) (c : KeyChain)
    (made : create p seed n ≡ ok c) where
  create_inv : (0 < n) × (c.keys ≡ chain_loop p.hash n (p.hash seed) [])
  unfolding create
  create_inv = ground arith

  -- Key i of a chain over n intervals is the seed hashed n - i + 1 times, so that the commitment
  -- has n + 1 hashes and the last data key one; the chain has one key for each interval besides
  -- the commitment.
  pub create_lem :
      (data_interval_count c ≡ n)
      × ((i : ℕ) → i ≤ n → key_at c.keys i ≡ hash_times p.hash (n - i + 1) seed)
  unfolding data_interval_count
  create_lem = (
    rw create_inv.1 (omega (arith, length-chain_loop p.hash n (p.hash seed) [])),
    λ i le.
        let e : n - i + 1 ≡ suc (n - i) = omega arith in
        rw (create_inv.1, e)
          (unfold hash_times in key_at-chain_loop p.hash n (p.hash seed) [] i le),
  )

  data_key-in_range : (i : ℕ) → 1 ≤ i → i ≤ n → data_key c i ≡ ok (key_at c.keys i)
  unfolding data_key
  data_key-in_range i lo hi =
      let size : length c.keys ≡ n + 1 =
        rw create_inv.1 (omega (arith, length-chain_loop p.hash n (p.hash seed) [])) in
      ground arith

  commitment-hash_times : (i : ℕ) → i ≤ n → hash_times p.hash i (key_at c.keys i) ≡ commitment_key c
  unfolding commitment_key
  commitment-hash_times i hi =
      rw (create_lem.1 i hi, create_lem.1 0 (omega arith))
        (hash_times-add p.hash i (n - i + 1) (n - 0 + 1) seed (omega arith))

  -- Every index from 1 to n has a data key, and that key verifies at its index against the
  -- chain's commitment.
  pub verify-data_key :
      (i : ℕ)
      → 1 ≤ i
      → i ≤ n
      → (k : List ℕ) × (data_key c i ≡ ok k)
        × (verify_disclosed_key p k i (commitment_key c) ≡ true)
  verify-data_key i lo hi = (
    key_at c.keys i,
    data_key-in_range i lo hi,
    unfold verify_disclosed_key in
        rw (commitment-hash_times i hi) (digest_equals_refl (commitment_key c)),
  )

  -- A digest that verifies at an index from 1 to n is the data key of that index, or else the hash
  -- has a collision.
  pub verify_disclosed_key_sound :
      (i : ℕ) (k : List ℕ)
      → 1 ≤ i
      → i ≤ n
      → verify_disclosed_key p k i (commitment_key c) ≡ true
      → (data_key c i ≡ ok k) ⊎ Collision p.hash
  verify_disclosed_key_sound i k lo hi e =
      let same : hash_times p.hash i k ≡ hash_times p.hash i (key_at c.keys i) =
        verified p k i (commitment_key c) e ∙ sym (commitment-hash_times i hi) in
      elim (hash_times-Collision p.hash i k (key_at c.keys i) same) [
        | inl eq ↦ inl (rw eq (data_key-in_range i lo hi))
        | inr clash ↦ inr clash
      ]
