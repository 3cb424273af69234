-- ===== src/Tesla/KsRs.antt =====
-- KsRsMatrix.h and KsRsVerifier::resVerify, and SamdAggregator::vecAggregate, which share the
-- matrix. A row is walked beside the slots that it selects from: the callers check that there are
-- no more slots than columns, so every `bRowContains` is within the matrix.
use mathlib.Core.Option.{none}
use Prim.Native.Nat.{zero}
use authentication_transmiss.Tesla.Mac.{aggregate_mac_list}
use authentication_transmiss.Crypto.{digest_equals, CryptoProvider}
use authentication_transmiss.Prelude.{
  replicate, ok, not, invalid_argument, ◌&&◌, fail_if, some, ◌||◌, suc, ◌>>◌, ltb, ◌+◌, ◌==◌, ◌++◌,
  if◌then◌else◌, false, ◌∷◌, Option, Throws, length, [], List, Bool, true, ℕ,
}

pub record KsRsMatrix : Type 0 where
  pub group_size : ℕ
  pub detection_threshold : ℕ
  pub rows : List (List Bool)

unfoldable pub row_count : KsRsMatrix → ℕ
row_count m = length m.rows

-- The MACs of a row at the sender, where every slot is filled.
unfoldable pub select_macs : List Bool → List (List ℕ) → List (List ℕ)
select_macs [] macs = []
select_macs (b ∷ bs) [] = []
select_macs (b ∷ bs) (mac ∷ macs) = let rest = select_macs bs macs in if b then mac ∷ rest else rest

unfoldable pub aggregate_rows : CryptoProvider → List (List Bool) → List (List ℕ) → List (List ℕ)
aggregate_rows c [] macs = []
aggregate_rows c (row ∷ rows) macs =
    aggregate_mac_list c (select_macs row macs) ∷ aggregate_rows c rows macs

unfoldable pub aggregate : CryptoProvider → KsRsMatrix → List (List ℕ) → Throws (List (List ℕ))
aggregate c m macs = do
  fail_if (length macs == 0 || ltb m.group_size (length macs)) invalid_argument
  ok (aggregate_rows c m.rows macs)

-- What the inner loop has found when it ends; `missing` is set as it breaks.
pub record RowScan : Type 0 where
  pub positions : List ℕ
  pub macs : List (List ℕ)
  pub missing : Bool

unfoldable pub scan_row : ℕ → List Bool → List (Option (List ℕ)) → RowScan → RowScan
scan_row column [] slots scan = scan
scan_row column (b ∷ bs) [] scan = scan
scan_row column (false ∷ bs) (slot ∷ slots) scan = scan_row (column + 1) bs slots scan
scan_row column (true ∷ bs) (none ∷ slots) scan = record scan {
  positions = scan.positions ++ (column ∷ []);
  missing = true;
}
scan_row column (true ∷ bs) (some mac ∷ slots) scan =
    scan_row (column + 1) bs slots
      (record scan { positions = scan.positions ++ (column ∷ []); macs = scan.macs ++ (mac ∷ []) })

abbrev pub empty_scan : RowScan
empty_scan = record { positions = []; macs = []; missing = false }

pub record LocationStep : Type 0 where
  pub scan_step : ℕ
  pub new_good_positions : List ℕ
  pub remaining_candidate_positions : List ℕ

pub record Location : Type 0 where
  pub is_good : List Bool
  pub location_steps : List LocationStep

unfoldable pub flag_at : List Bool → ℕ → Bool
flag_at [] i = false
flag_at (b ∷ bs) zero = b
flag_at (b ∷ bs) (suc i) = flag_at bs i

unfoldable pub set_flag : List Bool → ℕ → List Bool
set_flag [] i = []
set_flag (b ∷ bs) zero = true ∷ bs
set_flag (b ∷ bs) (suc i) = b ∷ set_flag bs i

-- The loop that marks a row's positions, with the new ones among them.
unfoldable pub mark : List ℕ → List Bool → List ℕ → List ℕ × List Bool
mark [] is_good new_good = (new_good, is_good)
mark (i ∷ is) is_good new_good =
    mark is (set_flag is_good i) (if flag_at is_good i then new_good else new_good ++ (i ∷ []))

-- The positions from `position` on whose flag is `b`.
unfoldable pub positions_with : Bool → ℕ → List Bool → List ℕ
positions_with b position [] = []
positions_with b position (f ∷ fs) =
    let rest = positions_with b (position + 1) fs in
    if (f && b) || (not f && not b) then position ∷ rest else rest

unfoldable pub record_step : ℕ → List ℕ → List Bool → List LocationStep → List LocationStep
record_step row_index new_good is_good steps =
    if length new_good == 0
    then steps
    else steps
      ++ (record {
        scan_step = row_index + 1;
        new_good_positions = new_good;
        remaining_candidate_positions = positions_with false 0 is_good;
      }
          ∷ [])

unfoldable pub accept_row : ℕ → List ℕ → Location → Location
accept_row row_index positions l =
    let (new_good, is_good) = mark positions l.is_good [] in
    record {
      is_good = is_good;
      location_steps = record_step row_index new_good is_good l.location_steps;
    }

unfoldable pub verify_row :
    CryptoProvider → ℕ → List Bool → List (Option (List ℕ)) → List ℕ → Location → Location
verify_row c row_index row slots tau l =
    let scan = scan_row 0 row slots empty_scan in
    if length scan.positions == 0 || scan.missing
    then l
    else if digest_equals (aggregate_mac_list c scan.macs) tau
    then accept_row row_index scan.positions l
    else l

-- The loop over the rows; the tags received are as many as the rows.
unfoldable pub verify_rows :
    CryptoProvider
    → ℕ
    → List (List Bool)
    → List (Option (List ℕ))
    → List (List ℕ)
    → Location
    → Location
verify_rows c i [] slots taus l = l
verify_rows c i (row ∷ rows) slots [] l = l
verify_rows c i (row ∷ rows) slots (tau ∷ taus) l =
    verify_rows c (i + 1) rows slots taus (verify_row c i row slots tau l)

pub record VerificationResult : Type 0 where
  pub good_positions : List ℕ
  pub bad_positions : List ℕ
  pub detection_threshold_exceeded : Bool
  pub location_steps : List LocationStep

unfoldable pub classify : KsRsMatrix → Location → VerificationResult
classify m l = record {
  good_positions = positions_with true 0 l.is_good;
  bad_positions = positions_with false 0 l.is_good;
  detection_threshold_exceeded =
      ltb m.detection_threshold (length (positions_with false 0 l.is_good));
  location_steps = l.location_steps;
}

unfoldable pub verify :
    CryptoProvider → KsRsMatrix → List (Option (List ℕ)) → List (List ℕ) → Throws VerificationResult
verify c m slots taus = do
  fail_if (length slots == 0 || ltb m.group_size (length slots)) invalid_argument
  fail_if (not (length taus == row_count m)) invalid_argument
  ok (
      classify m (
        verify_rows c 0 m.rows slots taus
          (record { is_good = replicate (length slots) false; location_steps = [] })))
