-- ===== src/Authority/Issue.antt =====
-- AuthenticationAuthority.cpp and SenderAuthenticationContext.cpp. The random provider and the
-- crypto provider of an algorithm are parameters; the provider's state is passed along.
use authentication_transmiss.Round.Context.{
  create_text_details, create_receiver_context, is_text, PayloadDetails, ReceiverContext,
}
use authentication_transmiss.Crypto.{sha256, sm3, sha3_256}
use Prim.Native.Nat.{zero}
use authentication_transmiss.Tesla.Input.{same_text}
use authentication_transmiss.Wire.{word_of}
use authentication_transmiss.Round.Parameters.{RoundParameters}
use authentication_transmiss.Crypto.{digest_equals, CryptoAlgorithm, CryptoProvider}
use authentication_transmiss.Crypto.KeyChain.{commitment_key, create, KeyChain}
use authentication_transmiss.Prelude.{
  true, invalid_argument, suc, if◌then◌else◌, ◌==◌, ◌||◌, runtime_error, length, not, ok, err, ◌∷◌,
  fail_if, ◌>>=◌, false, ℕ, ◌>>◌, Bool, List, [], Exception, Throws,
}

pub record SenderMaterial : Type 0 where
  pub sender_id : List ℕ
  pub chain_id : ℕ
  pub chain_seed : List ℕ
  pub commitment_key : List ℕ
  pub round : RoundParameters

abbrev pub chain_seed_size : ℕ
chain_seed_size = 32

abbrev pub chain_id_byte_count : ℕ
chain_id_byte_count = 8

abbrev pub max_random_attempts : ℕ
max_random_attempts = 128

-- The constructor, of the members that its arguments set.
unfoldable pub create_material : SenderMaterial → Throws SenderMaterial
create_material m = do
  fail_if (length m.sender_id == 0) invalid_argument
  fail_if (m.chain_id == 0) invalid_argument
  fail_if (not (length m.chain_seed == chain_seed_size)) invalid_argument
  ok m

-- The three sets of what has been issued.
pub record Issued : Type 0 where
  pub chain_ids : List ℕ
  pub seeds : List (List ℕ)
  pub commitment_keys : List (List ℕ)

abbrev pub none_issued : Issued
none_issued = record { chain_ids = []; seeds = []; commitment_keys = [] }

-- `count(k) != 0` of a std::set.
unfoldable pub has {ℓ} : {A : Type ℓ} → (A → A → Bool) → A → List A → Bool
has same k [] = false
has same k (x ∷ xs) = same k x || has same k xs

-- `u64DecodeChainId`.
unfoldable pub decode_chain_id : List ℕ → Throws ℕ
decode_chain_id bytes = do
  fail_if (not (length bytes == chain_id_byte_count)) runtime_error
  ok (word_of 64 bytes)

-- How one round of the loop ends: with `continue`, with an exception, or with fresh values.
pub data Attempt : Type 0 where
  repeated : Attempt
  thrown : Exception → Attempt
  fresh : ℕ → List ℕ → List ℕ → Attempt

unfoldable pub attempt_key : Issued → ℕ → List ℕ → Throws KeyChain → Attempt
attempt_key s chain_id seed (err e) = thrown e
attempt_key s chain_id seed (ok chain) =
    if has same_text (commitment_key chain) s.commitment_keys
    then repeated
    else fresh chain_id seed (commitment_key chain)

-- The material made of fresh values, which are in the sets before the constructor may throw.
unfoldable pub remember : Issued → ℕ → List ℕ → List ℕ → Issued
remember s chain_id seed key = record {
  chain_ids = chain_id ∷ s.chain_ids;
  seeds = seed ∷ s.seeds;
  commitment_keys = key ∷ s.commitment_keys;
}

module _ {R : Type 0} (generate : R → ℕ → Throws (List ℕ) × R)
    (provider_of : CryptoAlgorithm → CryptoProvider) where
  unfoldable pub attempt_seed : Issued → RoundParameters → ℕ → Throws (List ℕ) × R → Attempt × R
  attempt_seed s p chain_id (err e, r) = (thrown e, r)
  attempt_seed s p chain_id (ok seed, r) =
      if not (length seed == chain_seed_size)
      then (thrown runtime_error, r)
      else if has same_text seed s.seeds
      then (repeated, r)
      else (
        attempt_key s chain_id seed (create (provider_of p.algorithm) seed p.data_interval_count),
        r,
      )

  unfoldable pub attempt_chain : Issued → RoundParameters → Throws ℕ → R → Attempt × R
  attempt_chain s p (err e) r = (thrown e, r)
  attempt_chain s p (ok chain_id) r =
      if chain_id == 0 || has ◌==◌ chain_id s.chain_ids
      then (repeated, r)
      else attempt_seed s p chain_id (generate r chain_seed_size)

  unfoldable pub attempt : Issued → RoundParameters → R → Attempt × R
  attempt s p r =
      let (bytes, r') = generate r chain_id_byte_count in
      attempt_chain s p (bytes >>= decode_chain_id) r'

  -- What follows a round: the next one, or the end of the call, with what it leaves.
  unfoldable pub settle :
      Issued
      → List ℕ
      → RoundParameters
      → (R → Throws SenderMaterial × (Issued × R))
      → Attempt × R
      → Throws SenderMaterial × (Issued × R)
  settle s sender_id p next (repeated, r) = next r
  settle s sender_id p next (thrown e, r) = (err e, (s, r))
  settle s sender_id p next (fresh chain_id seed key, r) = (
    create_material (record {
      sender_id = sender_id;
      chain_id = chain_id;
      chain_seed = seed;
      commitment_key = key;
      round = p;
    }),
    (remember s chain_id seed key, r),
  )

  unfoldable pub issue_loop :
      ℕ → Issued → List ℕ → RoundParameters → R → Throws SenderMaterial × (Issued × R)
  issue_loop zero s sender_id p r = (err runtime_error, (s, r))
  issue_loop (suc n) s sender_id p r =
      settle s sender_id p (issue_loop n s sender_id p) (attempt s p r)

  unfoldable pub issue :
      Issued → List ℕ → RoundParameters → R → Throws SenderMaterial × (Issued × R)
  issue s sender_id p r = issue_loop max_random_attempts s sender_id p r

pub record SenderContext : Type 0 where
  pub material : SenderMaterial
  pub key_chain : KeyChain

unfoldable pub same_algorithm : CryptoAlgorithm → CryptoAlgorithm → Bool
same_algorithm sha256 sha256 = true
same_algorithm sm3 sm3 = true
same_algorithm sha3_256 sha3_256 = true
same_algorithm a b = false

-- `ctxCreateVerified`: the chain is made again, and has to end in the commitment.
unfoldable pub create_verified : SenderMaterial → CryptoProvider → Throws SenderContext
create_verified m c = do
  fail_if (not (same_algorithm c.algorithm m.round.algorithm)) invalid_argument
  chain ← create c m.chain_seed m.round.data_interval_count
  fail_if (not (digest_equals (commitment_key chain) m.commitment_key)) invalid_argument
  ok (record { material = m; key_chain = chain })

-- The two overloads of `ctxCreateReceiverContext`: with the details of the payload, and for a text.
unfoldable pub context_for : SenderMaterial → List ℕ → PayloadDetails → Throws ReceiverContext
context_for m sender_ip_address payload = create_receiver_context (record {
  sender_id = m.sender_id;
  sender_ip_address = sender_ip_address;
  chain_id = m.chain_id;
  commitment_key = m.commitment_key;
  round = m.round;
  payload = payload;
})

unfoldable pub text_context_for : SenderMaterial → List ℕ → Throws ReceiverContext
text_context_for m sender_ip_address = do
  fail_if (not (is_text m.round.payload_mode)) invalid_argument
  payload ← create_text_details m.round.total_packet_count
  context_for m sender_ip_address payload
