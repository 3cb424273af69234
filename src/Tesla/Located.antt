-- ===== src/Tesla/Located.antt =====
-- Which positions the KS+RS verifier calls good: an independent reading of the matrix, row by row,
-- and the proof that the loop with its flags computes it.
use Prim.Native.Nat.{zero}
use mathlib.Core.List.{[]}
use authentication_transmiss.Tesla.Mac.{aggregate_mac_list}
use authentication_transmiss.Tesla.KsRs.{RowScan, flag_at, scan_row, mark, set_flag}
use authentication_transmiss.Crypto.{digest_equals, CryptoProvider}
use authentication_transmiss.Prelude.{
  append_assoc, append-nil, sym, not, refl, ap, arith, true, ◌+◌, ◌==◌, suc, ◌∙◌, ◌||◌, ◌&&◌, ◌++◌,
  none, ◌≡◌, false, ◌∷◌, length, ◌<◌, some, Bool, Option, List, ℕ,
}

-- The MACs in the slots that a row selects, and whether one of those slots is empty.
abbrev pub selected : List Bool → List (Option (List ℕ)) → List (List ℕ)
selected [] slots = []
selected (b ∷ bs) [] = []
selected (false ∷ bs) (slot ∷ slots) = selected bs slots
selected (true ∷ bs) (none ∷ slots) = selected bs slots
selected (true ∷ bs) (some mac ∷ slots) = mac ∷ selected bs slots

abbrev pub lacks_slot : List Bool → List (Option (List ℕ)) → Bool
lacks_slot [] slots = false
lacks_slot (b ∷ bs) [] = false
lacks_slot (false ∷ bs) (slot ∷ slots) = lacks_slot bs slots
lacks_slot (true ∷ bs) (none ∷ slots) = true
lacks_slot (true ∷ bs) (some mac ∷ slots) = lacks_slot bs slots

-- A row covers a position where it selects it and there is a slot.
abbrev pub covers : List Bool → List (Option (List ℕ)) → ℕ → Bool
covers [] slots i = false
covers (b ∷ bs) [] i = false
covers (b ∷ bs) (slot ∷ slots) zero = b
covers (b ∷ bs) (slot ∷ slots) (suc i) = covers bs slots i

abbrev pub matches : CryptoProvider → List Bool → List (Option (List ℕ)) → List ℕ → Bool
matches c row slots tau =
    not (lacks_slot row slots) && digest_equals (aggregate_mac_list c (selected row slots)) tau

-- Some row covers the position, has all the slots that it selects, and matches its tag.
abbrev pub vouched :
    CryptoProvider → List (List Bool) → List (Option (List ℕ)) → List (List ℕ) → ℕ → Bool
vouched c [] slots taus i = false
vouched c (row ∷ rows) slots [] i = false
vouched c (row ∷ rows) slots (tau ∷ taus) i =
    (covers row slots i && matches c row slots tau) || vouched c rows slots taus i

abbrev pub contains : List ℕ → ℕ → Bool
contains [] i = false
contains (x ∷ xs) i = x == i || contains xs i

abbrev pub row_positions : ℕ → List Bool → List (Option (List ℕ)) → List ℕ
row_positions column [] slots = []
row_positions column (b ∷ bs) [] = []
row_positions column (false ∷ bs) (slot ∷ slots) = row_positions (column + 1) bs slots
row_positions column (true ∷ bs) (slot ∷ slots) = column ∷ row_positions (column + 1) bs slots

pub scan_row_missing :
    (column : ℕ) (row : List Bool) (slots : List (Option (List ℕ))) (scan : RowScan)
    → lacks_slot row slots ≡ true
    → (scan_row column row slots scan).missing ≡ true
unfolding scan_row
scan_row_missing column [] slots scan e = cc
scan_row_missing column (b ∷ bs) [] scan e = cc
scan_row_missing column (false ∷ bs) (slot ∷ slots) scan e =
    scan_row_missing (column + 1) bs slots scan e
scan_row_missing column (true ∷ bs) (none ∷ slots) scan e = refl
scan_row_missing column (true ∷ bs) (some mac ∷ slots) scan e =
    scan_row_missing (column + 1) bs slots _ e

pub scan_row_complete :
    (column : ℕ) (row : List Bool) (slots : List (Option (List ℕ))) (scan : RowScan)
    → lacks_slot row slots ≡ false
    → scan_row column row slots scan ≡ record scan {
      positions = scan.positions ++ row_positions column row slots;
      macs = scan.macs ++ selected row slots;
    }
unfolding scan_row
scan_row_complete column [] slots scan e = λ i. record {
  positions = sym (append-nil scan.positions) i;
  macs = sym (append-nil scan.macs) i;
  missing = scan.missing;
}
scan_row_complete column (b ∷ bs) [] scan e = λ i. record {
  positions = sym (append-nil scan.positions) i;
  macs = sym (append-nil scan.macs) i;
  missing = scan.missing;
}
scan_row_complete column (false ∷ bs) (slot ∷ slots) scan e =
    scan_row_complete (column + 1) bs slots scan e
scan_row_complete column (true ∷ bs) (none ∷ slots) scan e = cc
scan_row_complete column (true ∷ bs) (some mac ∷ slots) scan e =
    scan_row_complete (column + 1) bs slots _ e ∙ (λ i. record {
      positions = append_assoc scan.positions (column ∷ []) (row_positions (column + 1) bs slots) i;
      macs = append_assoc scan.macs (mac ∷ []) (selected bs slots) i;
      missing = scan.missing;
    })

length-set_flag : (fs : List Bool) (i : ℕ) → length (set_flag fs i) ≡ length fs
unfolding set_flag
length-set_flag [] i = refl
length-set_flag (f ∷ fs) zero = refl
length-set_flag (f ∷ fs) (suc i) = ap suc (length-set_flag fs i)

suc-== : (i j : ℕ) → (suc i == suc j) ≡ (i == j)
suc-== i j = ground arith

flag_at-set_flag :
    (fs : List Bool) (i j : ℕ)
    → j < length fs
    → flag_at (set_flag fs i) j ≡ (i == j || flag_at fs j)
unfolding set_flag flag_at
flag_at-set_flag [] i j h = absurd (omega arith)
flag_at-set_flag (f ∷ fs) zero zero h = refl
flag_at-set_flag (f ∷ fs) zero (suc j) h = ground arith
flag_at-set_flag (f ∷ fs) (suc i) zero h = ground arith
flag_at-set_flag (f ∷ fs) (suc i) (suc j) h =
    rw (suc-== i j) (flag_at-set_flag fs i j (omega arith))

pub length-mark :
    (ps : List ℕ) (fs : List Bool) (ng : List ℕ) → length ((mark ps fs ng).1) ≡ length fs
unfolding mark
length-mark [] fs ng = refl
length-mark (p ∷ ps) fs ng = length-mark ps (set_flag fs p) _ ∙ length-set_flag fs p

or-swap : (a b c : Bool) → a || (b || c) ≡ (b || a) || c
or-swap true true c = refl
or-swap true false c = refl
or-swap false true c = refl
or-swap false false c = refl

pub flag_at-mark :
    (ps : List ℕ) (fs : List Bool) (ng : List ℕ) (j : ℕ)
    → j < length fs
    → flag_at ((mark ps fs ng).1) j ≡ (contains ps j || flag_at fs j)
unfolding mark
flag_at-mark [] fs ng j h = refl
flag_at-mark (p ∷ ps) fs ng j h =
    flag_at-mark ps (set_flag fs p) _ j (omega (arith, length-set_flag fs p))
    ∙ rw (flag_at-set_flag fs p j h) (or-swap (contains ps j) (p == j) (flag_at fs j))

contains-below :
    (column : ℕ) (row : List Bool) (slots : List (Option (List ℕ))) (j : ℕ)
    → j < column
    → contains (row_positions column row slots) j ≡ false
contains-below column [] slots j h = refl
contains-below column (b ∷ bs) [] j h = refl
contains-below column (false ∷ bs) (slot ∷ slots) j h =
    contains-below (column + 1) bs slots j (omega arith)
contains-below column (true ∷ bs) (slot ∷ slots) j h =
    let rest = contains-below (column + 1) bs slots j (omega arith) in
    let ne : (column == j) ≡ false = ground arith in rw (ne, rest)

pub contains-row_positions :
    (column : ℕ) (row : List Bool) (slots : List (Option (List ℕ))) (i j : ℕ)
    → j ≡ column + i
    → contains (row_positions column row slots) j ≡ covers row slots i
contains-row_positions column [] slots i j e = refl
contains-row_positions column (b ∷ bs) [] i j e = refl
contains-row_positions column (false ∷ bs) (slot ∷ slots) zero j e =
    contains-below (column + 1) bs slots j (omega arith)
contains-row_positions column (false ∷ bs) (slot ∷ slots) (suc i) j e =
    contains-row_positions (column + 1) bs slots i j (omega arith)
contains-row_positions column (true ∷ bs) (slot ∷ slots) zero j e =
    let eq : (column == j) ≡ true = ground arith in rw eq
contains-row_positions column (true ∷ bs) (slot ∷ slots) (suc i) j e =
    let ne : (column == j) ≡ false = ground arith in
    rw ne (contains-row_positions (column + 1) bs slots i j (omega arith))
