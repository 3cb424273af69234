-- ===== src/Tesla/Location.antt =====
-- KsRsVerifier::resVerify computes the good and the bad positions of the independent reading.
use Prim.Native.Nat.{zero}
use authentication_transmiss.Tesla.Mac.{aggregate_mac_list}
use authentication_transmiss.Tesla.Located.{
  vouched, contains-row_positions, scan_row_complete, selected, flag_at-mark, matches, contains,
  covers, row_positions, scan_row_missing, length-mark, lacks_slot,
}
use authentication_transmiss.Tesla.KsRs.{
  classify, verify, VerificationResult, KsRsMatrix, positions_with, verify_rows, empty_scan,
  flag_at, accept_row, verify_row, Location,
}
use authentication_transmiss.Crypto.{digest_equals, CryptoProvider}
use authentication_transmiss.Prelude.{
  ap, length-replicate, suc, replicate, ok, if_ind, subst, sym, ◌+◌, inr, inl, ◌∙◌, Bool-cases, ◌∷◌,
  ◌==◌, ◌||◌, arith, ◌&&◌, if◌then◌else◌, [], refl, ◌<◌, length, true, false, Option, ◌≡◌, List,
  not, Bool, ℕ,
}

or-false : (b : Bool) → b || false ≡ b
or-false true = refl
or-false false = refl

and-false : (b : Bool) → b && false ≡ false
and-false true = refl
and-false false = refl

and-true : (b : Bool) → b && true ≡ b
and-true true = refl
and-true false = refl

or-rotate : (a b c : Bool) → a || (b || c) ≡ (b || a) || c
or-rotate true true c = refl
or-rotate true false c = refl
or-rotate false true c = refl
or-rotate false false c = refl

contains-empty : (ps : List ℕ) (j : ℕ) → (length ps == 0) ≡ true → contains ps j ≡ false
contains-empty [] j e = refl
contains-empty (p ∷ ps) j e = absurd (ground arith)

module _ (c : CryptoProvider) (index : ℕ) (row : List Bool) (slots : List (Option (List ℕ)))
    (tau : List ℕ) (l : Location) where
  verify_row-lacking : lacks_slot row slots ≡ true → verify_row c index row slots tau l ≡ l
  unfolding verify_row
  verify_row-lacking e = let missing = scan_row_missing 0 row slots empty_scan e in ground arith

  verify_row-covering :
      lacks_slot row slots ≡ false
      → verify_row c index row slots tau l ≡ (
          if length (row_positions 0 row slots) == 0
          then l
          else if digest_equals (aggregate_mac_list c (selected row slots)) tau
          then accept_row index (row_positions 0 row slots) l
          else l)
  unfolding verify_row
  verify_row-covering e =
      rw (scan_row_complete 0 row slots empty_scan e)
        (rw (or-false (length (row_positions 0 row slots) == 0)))

  length-accept_row : (ps : List ℕ) → length ((accept_row index ps l).is_good) ≡ length l.is_good
  unfolding accept_row
  length-accept_row ps = length-mark ps l.is_good []

  flag_at-accept_row :
      (ps : List ℕ) (j : ℕ)
      → j < length l.is_good
      → flag_at ((accept_row index ps l).is_good) j ≡ (contains ps j || flag_at l.is_good j)
  unfolding accept_row
  flag_at-accept_row ps j h = flag_at-mark ps l.is_good [] j h

  -- What a row does to the flags.
  abbrev RowEffect : Location → Type 0
  RowEffect l' =
      (length l'.is_good ≡ length l.is_good)
      × ((j : ℕ)
          → j < length l.is_good
          → flag_at l'.is_good j
            ≡ ((covers row slots j && matches c row slots tau) || flag_at l.is_good j))

  unmatched-RowEffect : matches c row slots tau ≡ false → RowEffect l
  unmatched-RowEffect e = (refl, λ j h. rw (e, and-false (covers row slots j)))

  uncovered-RowEffect : ((j : ℕ) → covers row slots j ≡ false) → RowEffect l
  uncovered-RowEffect e = (refl, λ j h. rw (e j))

  covered : (j : ℕ) → contains (row_positions 0 row slots) j ≡ covers row slots j
  covered j = contains-row_positions 0 row slots j j (omega arith)

  matched-RowEffect :
      matches c row slots tau ≡ true → RowEffect (accept_row index (row_positions 0 row slots) l)
  matched-RowEffect e = (
    length-accept_row (row_positions 0 row slots),
    λ j h.
        flag_at-accept_row (row_positions 0 row slots) j h
        ∙ rw (covered j, e, and-true (covers row slots j)),
  )

  covering-RowEffect :
      lacks_slot row slots ≡ false
      → RowEffect (
          if length (row_positions 0 row slots) == 0
          then l
          else if digest_equals (aggregate_mac_list c (selected row slots)) tau
          then accept_row index (row_positions 0 row slots) l
          else l)
  covering-RowEffect e =
      if_ind RowEffect (length (row_positions 0 row slots) == 0) _ _
        (λ none_covered.
          uncovered-RowEffect (λ j. sym (covered j) ∙ contains-empty _ j none_covered))
        (λ some_covered.
          if_ind RowEffect (digest_equals (aggregate_mac_list c (selected row slots)) tau) _ _
            (λ same. matched-RowEffect (rw (e, same)))
            (λ other. unmatched-RowEffect (rw (e, other))))

  -- A row keeps the number of flags, and adds to them the positions that it covers where it
  -- matches.
  verify_row_lem : RowEffect (verify_row c index row slots tau l)
  verify_row_lem = elim (Bool-cases (lacks_slot row slots)) [
    | inl e ↦ subst RowEffect (sym (verify_row-lacking e)) (unmatched-RowEffect (rw e))
    | inr e ↦ subst RowEffect (sym (verify_row-covering e)) (covering-RowEffect e)
  ]

verify_rows_lem :
    (c : CryptoProvider) (index : ℕ) (rows : List (List Bool)) (slots : List (Option (List ℕ)))
    (taus : List (List ℕ)) (l : Location)
    → (length ((verify_rows c index rows slots taus l).is_good) ≡ length l.is_good)
      × ((j : ℕ)
          → j < length l.is_good
          → flag_at ((verify_rows c index rows slots taus l).is_good) j
            ≡ (vouched c rows slots taus j || flag_at l.is_good j))
unfolding verify_rows
verify_rows_lem c index [] slots taus l = (refl, λ j h. refl)
verify_rows_lem c index (row ∷ rows) slots [] l = (refl, λ j h. refl)
verify_rows_lem c index (row ∷ rows) slots (tau ∷ taus) l =
    let (n, here) = verify_row_lem c index row slots tau l in
    let (m, there) =
      verify_rows_lem c (index + 1) rows slots taus (verify_row c index row slots tau l) in
    (m ∙ n, λ j h. there j (omega (arith, n)) ∙ rw (here j h) (or-rotate _ _ (flag_at l.is_good j)))

contains-if :
    (t : Bool) (p : ℕ) (rest : List ℕ) (j : ℕ)
    → contains (if t then p ∷ rest else rest) j ≡ ((t && p == j) || contains rest j)
contains-if true p rest j = refl
contains-if false p rest j = refl

contains-positions_below :
    (b : Bool) (position : ℕ) (fs : List Bool) (j : ℕ)
    → j < position
    → contains (positions_with b position fs) j ≡ false
unfolding positions_with
contains-positions_below b position [] j h = refl
contains-positions_below b position (f ∷ fs) j h =
    let rest = contains-positions_below b (position + 1) fs j (omega arith) in
    let ne : (position == j) ≡ false = ground arith in
    contains-if ((f && b) || (not f && not b)) position (positions_with b (position + 1) fs) j
    ∙ rw (ne, rest, and-false ((f && b) || (not f && not b)))

hit : (b f : Bool) → ((f && b) || (not f && not b)) && true || false ≡ (if b then f else not f)
hit true true = refl
hit true false = refl
hit false true = refl
hit false false = refl

contains-positions_with :
    (b : Bool) (position : ℕ) (fs : List Bool) (i j : ℕ)
    → j ≡ position + i
    → i < length fs
    → contains (positions_with b position fs) j ≡ (if b then flag_at fs i else not (flag_at fs i))
unfolding positions_with flag_at
contains-positions_with b position [] i j e h = absurd (omega arith)
contains-positions_with b position (f ∷ fs) zero j e h =
    let rest = contains-positions_below b (position + 1) fs j (omega arith) in
    let eq : (position == j) ≡ true = ground arith in
    contains-if ((f && b) || (not f && not b)) position (positions_with b (position + 1) fs) j
    ∙ rw (eq, rest) (hit b f)
contains-positions_with b position (f ∷ fs) (suc i) j e h =
    let rest = contains-positions_with b (position + 1) fs i j (omega arith) (omega arith) in
    let ne : (position == j) ≡ false = ground arith in
    contains-if ((f && b) || (not f && not b)) position (positions_with b (position + 1) fs) j
    ∙ rw (ne, and-false ((f && b) || (not f && not b))) rest

flag_at-replicate : (n i : ℕ) → flag_at (replicate n false) i ≡ false
unfolding flag_at
flag_at-replicate zero i = refl
flag_at-replicate (suc n) zero = refl
flag_at-replicate (suc n) (suc i) = flag_at-replicate n i

-- The flags as the loop starts.
abbrev unlocated : ℕ → Location
unlocated n = record { is_good = replicate n false; location_steps = [] }

verify_inv :
    (c : CryptoProvider) (m : KsRsMatrix) (slots : List (Option (List ℕ))) (taus : List (List ℕ))
    (r : VerificationResult)
    → verify c m slots taus ≡ ok r
    → r ≡ classify m (verify_rows c 0 m.rows slots taus (unlocated (length slots)))
unfolding verify
verify_inv c m slots taus r e = ground arith

-- KsRsVerifier::resVerify returns a position as good exactly where some row of the matrix covers
-- it, has all the slots it selects and matches the tag received for the row, and as bad exactly
-- where none does.
pub verify_lem :
    (c : CryptoProvider) (m : KsRsMatrix) (slots : List (Option (List ℕ))) (taus : List (List ℕ))
    (r : VerificationResult)
    → verify c m slots taus ≡ ok r
    → (i : ℕ) → i < length slots
    → (contains r.good_positions i ≡ vouched c m.rows slots taus i)
      × (contains r.bad_positions i ≡ not (vouched c m.rows slots taus i))
unfolding classify
verify_lem c m slots taus r e i h =
    let shape = verify_inv c m slots taus r e in
    let (n, flags) = verify_rows_lem c 0 m.rows slots taus (unlocated (length slots)) in
    let size = length-replicate (length slots) false in
    let start : i ≡ 0 + i = omega arith in
    let within : i
        < length ((verify_rows c 0 m.rows slots taus (unlocated (length slots))).is_good) =
      omega (arith, n, size) in
    let flag =
      flags i (subst (λ k. i < k) (sym size) h)
      ∙ rw (flag_at-replicate (length slots) i) (or-false (vouched c m.rows slots taus i)) in
    (
      (λ k. contains ((shape k).good_positions) i)
          ∙ (contains-positions_with true 0 _ i i start within ∙ flag),
      (λ k. contains ((shape k).bad_positions) i)
          ∙ (contains-positions_with false 0 _ i i start within ∙ ap not flag),
    )
