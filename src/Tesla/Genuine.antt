-- ===== src/Tesla/Genuine.antt =====
-- What a good position means: the slot holds the MAC that the sender aggregated there, unless the
-- hash has a collision.
use Prim.Native.Nat.{zero}
use authentication_transmiss.Tesla.Location.{verify_lem}
use mathlib.Core.Option.{none}
use authentication_transmiss.Crypto.Chains.{Collision}
use mathlib.Core.Bool.{false}
use authentication_transmiss.Tesla.Located.{
  contains, matches, vouched, lacks_slot, covers, selected,
}
use authentication_transmiss.Wire.{IsBlock}
use authentication_transmiss.Crypto.{digest_equals→eq, digest_equals-cases, CryptoProvider}
use authentication_transmiss.Tesla.Mac.{aggregate_mac_list, append_marked}
use authentication_transmiss.Tesla.KsRs.{
  aggregate_rows, verify, VerificationResult, KsRsMatrix, aggregate, select_macs,
}
use authentication_transmiss.Prelude.{
  subst, head-eq_of_cons-eq, ap, and_inv, append-injective, inr, append_assoc, suc, ◌&&◌, ◌<◌,
  tail-eq_of_cons-eq, arith, map, inl, append-nil, refl, ◌⊎◌, false, sym, get_elem?, ◌∙◌, some, ok,
  length, ◌≢◌, true, ◌++◌, ◌∷◌, not, ◌||◌, [], All, Option, ◌≡◌, Bool, List, ℕ,
}

nil≢cons {ℓ} : {A : Type ℓ} {x : A} {xs : List A} → [] ≢ x ∷ xs
nil≢cons e = cc

not-true→false : {b : Bool} → not b ≡ true → b ≡ false
not-true→false {b = true} e = cc
not-true→false {b = false} e = refl

or_inv : (a b : Bool) → a || b ≡ true → (a ≡ true) ⊎ (b ≡ true)
or_inv true b e = inl refl
or_inv false b e = inr e

aggregate_inv :
    (c : CryptoProvider) (m : KsRsMatrix) (macs taus : List (List ℕ))
    → aggregate c m macs ≡ ok taus
    → taus ≡ aggregate_rows c m.rows macs
unfolding aggregate
aggregate_inv c m macs taus e = ground arith

append_marked_lem :
    (out : List ℕ) (macs : List (List ℕ)) → append_marked out macs ≡ out ++ append_marked [] macs
unfolding append_marked
append_marked_lem out [] = sym (append-nil out)
append_marked_lem out (mac ∷ macs) =
    let step : append_marked (1 ∷ mac) macs ≡ (1 ∷ mac) ++ append_marked [] macs =
      append_marked_lem (1 ∷ mac) macs in
    let whole : append_marked (out ++ (1 ∷ mac)) macs
        ≡ (out ++ (1 ∷ mac)) ++ append_marked [] macs =
      append_marked_lem (out ++ (1 ∷ mac)) macs in
    whole ∙ (append_assoc out (1 ∷ mac) (append_marked [] macs) ∙ ap (λ t. out ++ t) (sym step))

append_marked-cons :
    (mac : List ℕ) (macs : List (List ℕ))
    → append_marked [] (mac ∷ macs) ≡ 1 ∷ (mac ++ append_marked [] macs)
append_marked-cons mac macs = (unfold append_marked in append_marked_lem ((1 ∷ []) ++ mac) macs)

append_marked-injective :
    (xs ys : List (List ℕ))
    → All IsBlock xs
    → All IsBlock ys
    → append_marked [] xs ≡ append_marked [] ys
    → xs ≡ ys
append_marked-injective [] [] hx hy e = refl
append_marked-injective [] (y ∷ ys) hx hy e =
    let e' : [] ≡ append_marked [] (y ∷ ys) = unfold append_marked in e in
    absurd (nil≢cons (e' ∙ append_marked-cons y ys))
append_marked-injective (x ∷ xs) [] hx hy e =
    let e' : [] ≡ append_marked [] (x ∷ xs) = unfold append_marked in sym e in
    absurd (nil≢cons (e' ∙ append_marked-cons x xs))
append_marked-injective (x ∷ xs) (y ∷ ys) hx hy e =
    let tails =
      tail-eq_of_cons-eq (sym (append_marked-cons x xs) ∙ (e ∙ append_marked-cons y ys)) in
    let (here, there) = append-injective x y (hx.0.0 ∙ sym hy.0.0) tails in
    (λ i. here i ∷ append_marked-injective xs ys hx.1 hy.1 there i)

aligned :
    (row : List Bool) (slots : List (Option (List ℕ))) (macs : List (List ℕ)) (i : ℕ)
    → length macs ≡ length slots
    → lacks_slot row slots ≡ false
    → selected row slots ≡ select_macs row macs
    → covers row slots i ≡ true
    → get_elem? slots i ≡ get_elem? (map some macs) i
unfolding select_macs
aligned [] slots macs i n full same cov = cc
aligned (b ∷ bs) [] macs i n full same cov = cc
aligned (b ∷ bs) (slot ∷ slots) [] i n full same cov = absurd (omega arith)
aligned (false ∷ bs) (slot ∷ slots) (mac ∷ macs) zero n full same cov = cc
aligned (false ∷ bs) (slot ∷ slots) (mac ∷ macs) (suc i) n full same cov =
    aligned bs slots macs i (omega arith) full same cov
aligned (true ∷ bs) (none ∷ slots) (mac ∷ macs) i n full same cov = cc
aligned (true ∷ bs) (some x ∷ slots) (mac ∷ macs) zero n full same cov =
    ap (λ t. some (some t)) (head-eq_of_cons-eq same)
aligned (true ∷ bs) (some x ∷ slots) (mac ∷ macs) (suc i) n full same cov =
    aligned bs slots macs i (omega arith) full (tail-eq_of_cons-eq same) cov

-- Every MAC that the slots hold is a digest.
abbrev pub SlotBlocks : List (Option (List ℕ)) → Type 0
SlotBlocks [] = Unit {0}
SlotBlocks (none ∷ slots) = SlotBlocks slots
SlotBlocks (some mac ∷ slots) = IsBlock mac × SlotBlocks slots

selected-blocks :
    (row : List Bool) (slots : List (Option (List ℕ)))
    → SlotBlocks slots
    → All IsBlock (selected row slots)
selected-blocks [] slots h = tt
selected-blocks (b ∷ bs) [] h = tt
selected-blocks (false ∷ bs) (none ∷ slots) h = selected-blocks bs slots h
selected-blocks (false ∷ bs) (some mac ∷ slots) h = selected-blocks bs slots h.1
selected-blocks (true ∷ bs) (none ∷ slots) h = selected-blocks bs slots h
selected-blocks (true ∷ bs) (some mac ∷ slots) h = (h.0, selected-blocks bs slots h.1)

select_macs-blocks :
    (row : List Bool) (macs : List (List ℕ)) → All IsBlock macs → All IsBlock (select_macs row macs)
unfolding select_macs
select_macs-blocks [] macs h = tt
select_macs-blocks (b ∷ bs) [] h = tt
select_macs-blocks (false ∷ bs) (mac ∷ macs) h = select_macs-blocks bs macs h.1
select_macs-blocks (true ∷ bs) (mac ∷ macs) h = (h.0, select_macs-blocks bs macs h.1)

-- Equal tags of two lists of digests are tags of one list, or show a collision.
aggregate_mac_list-injective :
    (c : CryptoProvider) (xs ys : List (List ℕ))
    → All IsBlock xs
    → All IsBlock ys
    → aggregate_mac_list c xs ≡ aggregate_mac_list c ys
    → (xs ≡ ys) ⊎ Collision c.hash
unfolding aggregate_mac_list
aggregate_mac_list-injective c xs ys hx hy e =
    elim (digest_equals-cases (append_marked [] xs) (append_marked [] ys)) [
      | inl same ↦ inl (append_marked-injective xs ys hx hy same)
      | inr differ ↦ inr (append_marked [] xs, append_marked [] ys, differ, e)
    ]

module _ (c : CryptoProvider) (slots : List (Option (List ℕ))) (macs : List (List ℕ))
    (n : length macs ≡ length slots) (hs : SlotBlocks slots) (hm : All IsBlock macs) (i : ℕ) where
  abbrev Genuine : Type 0
  Genuine = (get_elem? slots i ≡ get_elem? (map some macs) i) ⊎ Collision c.hash

  matched-Genuine :
      (row : List Bool)
      → covers row slots i && matches c row slots (aggregate_mac_list c (select_macs row macs))
        ≡ true
      → Genuine
  matched-Genuine row e =
      let (cov, hit) = and_inv _ _ e in
      let (full, same) = and_inv _ _ hit in
      elim (aggregate_mac_list-injective c (selected row slots) (select_macs row macs)
        (selected-blocks row slots hs) (select_macs-blocks row macs hm)
        (digest_equals→eq _ _ same)) [
          | inl eq ↦ inl (aligned row slots macs i n (not-true→false full) eq cov)
          | inr clash ↦ inr clash
        ]

  vouched-Genuine :
      (rows : List (List Bool))
      → vouched c rows slots (aggregate_rows c rows macs) i ≡ true
      → Genuine
  unfolding aggregate_rows
  vouched-Genuine [] e = cc
  vouched-Genuine (row ∷ rows) e = elim (or_inv _ _ e) [
    | inl here ↦ matched-Genuine row here
    | inr there ↦ vouched-Genuine rows there
  ]

-- Against the SAMD tags that the sender aggregates from its MACs, a position that the receiver's
-- verifier calls good holds the MAC that the sender has there, or else the hash has a collision;
-- there are as many slots as MACs, and all are digests.
pub verify_sound :
    (c : CryptoProvider) (m : KsRsMatrix) (slots : List (Option (List ℕ)))
    (macs taus : List (List ℕ)) (r : VerificationResult)
    → aggregate c m macs ≡ ok taus
    → verify c m slots taus ≡ ok r
    → length macs ≡ length slots
    → SlotBlocks slots
    → All IsBlock macs
    → (i : ℕ) → i < length slots
    → contains r.good_positions i ≡ true
    → (get_elem? slots i ≡ get_elem? (map some macs) i) ⊎ Collision c.hash
verify_sound c m slots macs taus r agg ver n hs hm i h good =
    let (good_lem, bad_lem) = verify_lem c m slots taus r ver i h in
    vouched-Genuine c slots macs n hs hm i m.rows (
      subst (λ t. vouched c m.rows slots t i ≡ true) (aggregate_inv c m macs taus agg)
        (sym good_lem ∙ good))
