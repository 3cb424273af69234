-- ===== src/Tesla/ImprovedLaws.antt =====
-- What the improved strategy accepts without falling back on the location of bad packets.
use mathlib.Core.Option.{none}
use mathlib.Core.List.{[]}
use authentication_transmiss.Tesla.Mac.{compute_fast_group_tag}
use authentication_transmiss.Tesla.Native.{
  native_authentication, improved_authentication, TeslaAuthenticationDetails,
}
use authentication_transmiss.Tesla.Improved.{
  incomplete_tags, fallback, compute_packet_mac_slots, values_of, fast_pass, fast_tag_matches,
  verify_tagged, ImprovedVerification, verify_improved, create_improved_authentication,
}
use authentication_transmiss.Tesla.Input.{has_missing_packets, GroupInput}
use authentication_transmiss.Crypto.{
  digest_equals, digest_equals→eq, digest_equals_refl, CryptoProvider,
}
use authentication_transmiss.Tesla.KsRs.{verify, row_count, KsRsMatrix, aggregate_rows, aggregate}
use authentication_transmiss.Prelude.{
  ok-injective, sym, subst, if◌then◌else◌, Throws, ◌≢◌, not, invalid_argument, fail_if, >>=-eq-ok,
  refl, ==_refl, some, ◌==◌, suc, ◌∙◌, ltb, false, true, ap, arith, ◌∷◌, length, ok, Bool, ◌≡◌,
  List, ℕ,
}

length-aggregate_rows :
    (c : CryptoProvider) (rows : List (List Bool)) (macs : List (List ℕ))
    → length (aggregate_rows c rows macs) ≡ length rows
unfolding aggregate_rows
length-aggregate_rows c [] macs = refl
length-aggregate_rows c (row ∷ rows) macs = ap suc (length-aggregate_rows c rows macs)

true≢false : true ≢ false
true≢false e = cc

digest-true :
    (a b : List ℕ)
    → ◌≡◌ {A = Throws Bool} (ok (digest_equals a b)) (ok true)
    → digest_equals a b ≡ true
digest-true a b e = ok-injective (ok (digest_equals a b)) refl e

-- An early return of a value other than the result was not taken.
guard-false {ℓ} :
    {A : Type ℓ} (t : Bool) (early : A) (late : A) (rest : Throws A)
    → (if t then ok early else rest) ≡ ok late
    → early ≢ late
    → (t ≡ false) × (rest ≡ ok late)
guard-false true early late rest e ne = absurd (ne (ok-injective (ok early) refl e))
guard-false false early late rest e ne = (refl, e)

aggregate_inv :
    (c : CryptoProvider) (m : KsRsMatrix) (macs taus : List (List ℕ))
    → aggregate c m macs ≡ ok taus
    → length taus ≡ row_count m
unfolding aggregate row_count
aggregate_inv c m macs taus e =
    let n = length-aggregate_rows c m.rows macs in
    let same : taus ≡ aggregate_rows c m.rows macs = ground arith in ap length same ∙ n

module _ (c : CryptoProvider) (m : KsRsMatrix) (g : GroupInput) (data_key : List ℕ) where
  create_inv :
      (d : TeslaAuthenticationDetails)
      → create_improved_authentication c m g data_key ≡ ok d
      → (taus : List (List ℕ)) × (tag : List ℕ) × (has_missing_packets g ≡ false)
        × (ltb m.group_size (length g.packet_slots) ≡ false)
        × (length taus ≡ row_count m)
        × (compute_fast_group_tag c data_key g taus ≡ ok tag)
        × (d ≡ improved_authentication taus (some tag))
  unfolding create_improved_authentication
  create_inv d e =
      let (u1, complete, e1) = >>=-eq-ok (fail_if (has_missing_packets g) invalid_argument) _ e in
      let (u2, small, e2) =
        >>=-eq-ok (fail_if (ltb m.group_size (length g.packet_slots)) invalid_argument) _ e1 in
      let (taus, agg, e3) =
        >>=-eq-ok (aggregate c m (values_of (compute_packet_mac_slots c data_key g.packet_slots))) _
          e2 in
      let (tag, fast, e4) = >>=-eq-ok (compute_fast_group_tag c data_key g taus) _ e3 in
      (taus, tag, ground arith, ground arith, aggregate_inv c m _ taus agg, fast, ground arith)

  -- The details that the improved sender makes of a group pass on the fast path at a receiver that
  -- has the whole group, the same matrix and the same data key: every position is authenticated
  -- and none is rejected.
  pub verify_improved-create :
      (d : TeslaAuthenticationDetails)
      → create_improved_authentication c m g data_key ≡ ok d
      → verify_improved c m g d data_key ≡ ok (fast_pass (length g.packet_slots))
  unfolding verify_improved verify_tagged fast_tag_matches
  verify_improved-create d e =
      let (taus, tag, complete, small, n, fast, shape) = create_inv d e in
      let rows : (length taus == row_count m) ≡ true = rw n (==_refl (row_count m)) in
      rw shape (rw (small, rows, complete, fast) (rw (digest_equals_refl tag)))

  fallback-passed :
      (taus : List (List ℕ)) (v : ImprovedVerification)
      → fallback c m g taus data_key ≡ ok v
      → v.passed ≡ false
  unfolding fallback
  fallback-passed taus v e =
      let (r, located, e') =
        >>=-eq-ok (verify c m (compute_packet_mac_slots c data_key g.packet_slots) taus) _ e in
      ground arith

  fast_tag_matches-true :
      (taus : List (List ℕ)) (tag : List ℕ)
      → fast_tag_matches c g taus tag data_key ≡ ok true
      → (has_missing_packets g ≡ false) × (compute_fast_group_tag c data_key g taus ≡ ok tag)
  unfolding fast_tag_matches
  fast_tag_matches-true taus tag e =
      let (complete, e') = guard-false (has_missing_packets g) false true _ e (λ h. cc) in
      let (calculated, fast, same) = >>=-eq-ok (compute_fast_group_tag c data_key g taus) _ e' in
      let eq : calculated ≡ tag =
        digest_equals→eq calculated tag (digest-true calculated tag same) in
      (complete, subst (λ t. compute_fast_group_tag c data_key g taus ≡ ok t) eq fast)

  matched-passed :
      (taus : List (List ℕ)) (v : ImprovedVerification) (matched : Bool)
      → (if matched then ok (fast_pass (length g.packet_slots)) else fallback c m g taus data_key)
        ≡ ok v
      → v.passed ≡ true
      → (matched ≡ true) × (v ≡ fast_pass (length g.packet_slots))
  matched-passed taus v true e pass = (refl, sym (ok-injective _ refl e))
  matched-passed taus v false e pass = absurd (true≢false (sym pass ∙ fallback-passed taus v e))

  verify_tagged-none :
      (taus : List (List ℕ)) (v : ImprovedVerification)
      → verify_tagged c m g taus none data_key ≡ ok v
      → v.passed ≢ true
  unfolding verify_tagged
  verify_tagged-none taus v e pass = ground arith

  verify_tagged-passed :
      (taus : List (List ℕ)) (tag : List ℕ) (v : ImprovedVerification)
      → verify_tagged c m g taus (some tag) data_key ≡ ok v
      → v.passed ≡ true
      → (length taus ≡ row_count m)
        × (fast_tag_matches c g taus tag data_key ≡ ok true)
        × (v ≡ fast_pass (length g.packet_slots))
  unfolding verify_tagged
  verify_tagged-passed taus tag v e pass =
      let (rows, e') =
        guard-false (not (length taus == row_count m)) incomplete_tags v _ e
          (λ h. absurd (true≢false (sym pass ∙ sym (λ i. (h i).passed)))) in
      let (matched, tag_check, rest) = >>=-eq-ok (fast_tag_matches c g taus tag data_key) _ e' in
      let (yes_matched, shape) = matched-passed taus v matched rest pass in
      (
        ground arith,
        subst (λ b. fast_tag_matches c g taus tag data_key ≡ ok b) yes_matched tag_check,
        shape,
      )

  -- The improved check passes only on the fast path: the group is complete, there is one received
  -- SAMD tag for each row of the matrix, and the received group tag is the one of this group, these
  -- SAMD tags and this data key.
  pub verify_improved_sound :
      (d : TeslaAuthenticationDetails) (v : ImprovedVerification)
      → verify_improved c m g d data_key ≡ ok v
      → v.passed ≡ true
      → (taus : List (List ℕ)) × (tag : List ℕ) × (d ≡ improved_authentication taus (some tag))
        × (has_missing_packets g ≡ false)
        × (length taus ≡ row_count m)
        × (compute_fast_group_tag c data_key g taus ≡ ok tag)
        × (v ≡ fast_pass (length g.packet_slots))
  unfolding verify_improved
  verify_improved_sound (native_authentication macs) v e pass = cc
  verify_improved_sound (improved_authentication taus none) v e pass =
      let (u, small, e') =
        >>=-eq-ok (fail_if (ltb m.group_size (length g.packet_slots)) invalid_argument) _ e in
      absurd (verify_tagged-none taus v e' pass)
  verify_improved_sound (improved_authentication taus (some tag)) v e pass =
      let (u, small, e') =
        >>=-eq-ok (fail_if (ltb m.group_size (length g.packet_slots)) invalid_argument) _ e in
      let (n, matched, shape) = verify_tagged-passed taus tag v e' pass in
      let (complete, fast) = fast_tag_matches-true taus tag matched in
      (taus, tag, refl, complete, n, fast, shape)
