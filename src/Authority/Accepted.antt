-- ===== src/Authority/Accepted.antt =====
-- The authority and the sender together: what the one hands out, the other takes.
use authentication_transmiss.Authority.Unique.{
  create_material-eq, issue_loop-IssueEnd, handed_out, nothing_new, IssueEnd,
}
use authentication_transmiss.Crypto.KeyChain.{commitment_key, create, KeyChain}
use authentication_transmiss.Round.Parameters.{RoundParameters}
use authentication_transmiss.Prelude.{
  ok-injective, ◌>>◌, ap, invalid_argument, false, sym, not, ◌↔◌, fail_if-eq-ok, ◌∙◌, fail_if, Bool,
  subst, refl, err, ok, true, ◌≡◌, List, Throws,
}
use authentication_transmiss.Crypto.{
  digest_equals→eq, digest_equals, digest_equals_refl, sha3_256, sm3, sha256, CryptoProvider,
  CryptoAlgorithm,
}
use authentication_transmiss.Authority.Issue.{
  SenderContext, max_random_attempts, create_material, Issued, issue, create_verified,
  SenderMaterial, same_algorithm,
}
use Prim.Native.Nat.{ℕ}

same_algorithm_refl : (a : CryptoAlgorithm) → same_algorithm a a ≡ true
unfolding same_algorithm
same_algorithm_refl sha256 = refl
same_algorithm_refl sm3 = refl
same_algorithm_refl sha3_256 = refl

not-false_inv : (b : Bool) → not b ≡ false → b ≡ true
not-false_inv true e = refl
not-false_inv false e = absurd (cc e)

module _ {R : Type 0} (generate : R → ℕ → Throws (List ℕ) × R)
    (provider_of : CryptoAlgorithm → CryptoProvider) where
  -- The chain of a material's seed, and what the sender makes of the material under any commitment.
  Accepted :
      Throws SenderMaterial × (Issued × R) → RoundParameters → List ℕ → SenderContext → Type 0
  Accepted (err e, x) p key y = Unit
  Accepted (ok m, x) p key y =
      (chain : KeyChain) × (create (provider_of p.algorithm) m.chain_seed p.data_interval_count
        ≡ ok chain)
      × (commitment_key chain ≡ m.commitment_key)
      × (create_verified m (provider_of p.algorithm)
          ≡ ok (record { material = m; key_chain = chain }))
      × ((create_verified (record m { commitment_key = key }) (provider_of p.algorithm) ≡ ok y)
          ↔ ((key ≡ m.commitment_key) × (y ≡ record { material = m; key_chain = chain })))

  module _ (named : (a : CryptoAlgorithm) → (provider_of a).algorithm ≡ a)
      (p : RoundParameters) where
    module _ (m : SenderMaterial) (chain : KeyChain) (same : m.round ≡ p)
        (made : create (provider_of p.algorithm) m.chain_seed p.data_interval_count
          ≡ ok chain) where
      -- The check that is left where the algorithm is right and the chain is made.
      create_verified_made : create_verified m (provider_of p.algorithm) ≡ (
          fail_if (not (digest_equals (commitment_key chain) m.commitment_key)) invalid_argument
          >> ok (record { material = m; key_chain = chain }))
      unfolding create_verified create
      create_verified_made =
          rw (same, named p.algorithm, same_algorithm_refl p.algorithm, made) refl

      verified :
          commitment_key chain ≡ m.commitment_key
          → create_verified m (provider_of p.algorithm)
            ≡ ok (record { material = m; key_chain = chain })
      verified ends = create_verified_made ∙ rw (ends, digest_equals_refl m.commitment_key) refl

      verified_inv :
          (y : SenderContext)
          → create_verified m (provider_of p.algorithm) ≡ ok y
          → (commitment_key chain ≡ m.commitment_key)
            × (y ≡ record { material = m; key_chain = chain })
      verified_inv y e =
          let (tested, t) = fail_if-eq-ok _ _ _ (sym create_verified_made ∙ e) in
          (
            digest_equals→eq _ _ (not-false_inv _ tested),
            ok-injective (ok (record { material = m; key_chain = chain })) t refl,
          )

    module _ (key : List ℕ) (y : SenderContext) where
      only_commitment :
          (m : SenderMaterial) (chain : KeyChain)
          → m.round ≡ p
          → create (provider_of p.algorithm) m.chain_seed p.data_interval_count ≡ ok chain
          → commitment_key chain ≡ m.commitment_key
          → (create_verified (record m { commitment_key = key }) (provider_of p.algorithm) ≡ ok y)
            ↔ ((key ≡ m.commitment_key) × (y ≡ record { material = m; key_chain = chain }))
      only_commitment m chain same made ends = (
        λ e.
            let (k, t) = verified_inv (record m { commitment_key = key }) chain same made y e in
            let k' : key ≡ m.commitment_key = sym k ∙ ends in
            (
              k',
              t ∙ (λ i. record {
                material = record m { commitment_key = k' i };
                key_chain = chain;
              }),
            ),
        λ (k, t).
            subst
              (λ x.
                create_verified (record m { commitment_key = x }) (provider_of p.algorithm) ≡ ok y)
              (sym k) (verified m chain same made ends ∙ ap ok (sym t)),
      )

      Accepted-create :
          (m : SenderMaterial) (t : Throws SenderMaterial) (x : Issued × R) (chain : KeyChain)
          → create_material m ≡ t
          → m.round ≡ p
          → create (provider_of p.algorithm) m.chain_seed p.data_interval_count ≡ ok chain
          → commitment_key chain ≡ m.commitment_key
          → Accepted (t, x) p key y
      unfolding Accepted
      Accepted-create m (err e) x chain made round created ends = tt
      Accepted-create m (ok m') x chain made round created ends =
          subst (λ n. Accepted (ok n, x) p key y) (create_material-eq m m' made)
            (
              chain,
              created,
              ends,
              verified m chain round created ends,
              only_commitment m chain round created ends,
            )

      IssueEnd-Accepted :
          (s : Issued) (sender_id : List ℕ) (t : Throws SenderMaterial × (Issued × R))
          → IssueEnd generate provider_of s sender_id p t
          → Accepted t p key y
      unfolding Accepted
      IssueEnd-Accepted s sender_id _ (nothing_new e r) = tt
      IssueEnd-Accepted s sender_id _ (handed_out chain_id seed k r f) =
          Accepted-create _ _ _ f.chain refl refl f.made f.ends

    -- Where the crypto provider of an algorithm names that algorithm, the key chain of the seed of a material that the authority hands out for a round is made and ends in the material's commitment; the sender takes the material with that chain; and of the same material with any commitment, the sender takes that with this commitment, and no other.
    pub create_verified-issue :
        (s s' : Issued) (sender_id : List ℕ) (r r' : R) (m : SenderMaterial) (key : List ℕ)
        (y : SenderContext)
        → issue generate provider_of s sender_id p r ≡ (ok m, (s', r'))
        → (chain : KeyChain) × (create (provider_of p.algorithm) m.chain_seed p.data_interval_count
            ≡ ok chain)
          × (commitment_key chain ≡ m.commitment_key)
          × (create_verified m (provider_of p.algorithm)
              ≡ ok (record { material = m; key_chain = chain }))
          × ((create_verified (record m { commitment_key = key }) (provider_of p.algorithm) ≡ ok y)
              ↔ ((key ≡ m.commitment_key) × (y ≡ record { material = m; key_chain = chain })))
    unfolding issue Accepted
    create_verified-issue s s' sender_id r r' m key y e =
        subst (λ t. Accepted t p key y) e
          (IssueEnd-Accepted key y s sender_id _
            (issue_loop-IssueEnd generate provider_of max_random_attempts s sender_id p r))
