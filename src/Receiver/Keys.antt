-- ===== src/Receiver/Keys.antt =====
-- `verifyIntervalLocked`, `finalizeLocked` and `processDisclosedKeyLocked`. The provider is that of
-- the round's algorithm, the matrix that of its group size and threshold.
use authentication_transmiss.Receiver.Attack.{verify_improved_interval}
use authentication_transmiss.Receiver.Native.{verify_native_interval}
use authentication_transmiss.Udp.Context.{AuthenticationMode, native, improved}
use authentication_transmiss.Crypto.KeyChain.{verify_disclosed_key}
use Prim.Native.Nat.{zero}
use mathlib.Core.List.{[]}
use mathlib.Core.Option.{none}
use authentication_transmiss.Receiver.Observe.{set_incomplete}
use authentication_transmiss.Receiver.Finish.{conclude, incomplete_details, report_missing, close}
use authentication_transmiss.Tesla.KsRs.{KsRsMatrix}
use authentication_transmiss.Crypto.{digest_equals, CryptoProvider}
use authentication_transmiss.Receiver.State.{Work}
use authentication_transmiss.Receiver.Steps.{and_then, with_value, Ended}
use authentication_transmiss.Prelude.{
  ltb, leb, ◌||◌, find, ◌-◌, ◌+◌, not, Throws, err, false, suc, if◌then◌else◌, true, ◌==◌, some,
  emplace, Bool, ok, ◌∷◌, Option, List, ℕ,
}

unfoldable pub contains : ℕ → List ℕ → Bool
contains i [] = false
contains i (j ∷ js) = i == j || contains i js

unfoldable pub add_verified : ℕ → Work → Work
add_verified i w = record w {
  receiver = record (w.receiver) { verified_intervals = i ∷ w.receiver.verified_intervals };
}

unfoldable pub add_key : ℕ → List ℕ → Work → Work
add_key i key w = record w {
  receiver = record (w.receiver) {
    disclosed_keys = (emplace ◌==◌ i key w.receiver.disclosed_keys).1;
  };
}

-- An entry under the index that is another key.
unfoldable pub key_conflicts : Option (List ℕ) → List ℕ → Bool
key_conflicts none key = false
key_conflicts (some known) key = not (digest_equals known key)

-- `return true;` after a call that may throw.
unfoldable pub answer : Ended → Throws Bool × Work
answer (w, ok done) = (ok true, w)
answer (w, err e) = (err e, w)

-- `catch (...)`.
unfoldable pub catch_all : Ended → Work
catch_all (w, ok done) = w
catch_all (w, err e) = set_incomplete w

module _ (c : CryptoProvider) (m : KsRsMatrix) (sha256 : List ℕ → List ℕ) where
  unfoldable pub verify_mode : AuthenticationMode → ℕ → List ℕ → Work → Ended
  verify_mode native i key w = verify_native_interval c i key w
  verify_mode improved i key w = verify_improved_interval c m key i w

  unfoldable pub verify_with : Option (List ℕ) → ℕ → Work → Work
  verify_with none i w = w
  verify_with (some key) i w =
      add_verified i (catch_all (verify_mode w.receiver.context.round.mode i key w))

  unfoldable pub verify_interval : ℕ → Work → Work
  verify_interval i w =
      if contains i w.receiver.verified_intervals
      then w
      else verify_with (find ◌==◌ i w.receiver.disclosed_keys) i w

  unfoldable pub verify_intervals : ℕ → ℕ → Work → Work
  verify_intervals zero i w = w
  verify_intervals (suc n) i w = verify_intervals n (i + 1) (verify_interval i w)

  unfoldable pub finalize : Work → Ended
  finalize w =
      let w1 = verify_intervals w.receiver.context.round.data_interval_count 1 w in
      and_then (report_missing w1.receiver.context.round.total_packet_count 1 w1) (λ v.
        with_value (close v) (incomplete_details (close v).receiver)
          (λ details. conclude sha256 details (close v)))

  -- The key of the index and those below it, which are its hashes; false on a conflict.
  unfoldable pub walk_keys : ℕ → List ℕ → Work → Bool × Work
  walk_keys zero key w = (true, w)
  walk_keys (suc n) key w =
      if key_conflicts (find ◌==◌ (suc n) w.receiver.disclosed_keys) key
      then (false, set_incomplete w)
      else walk_keys n (c.hash key) (verify_interval (suc n) (add_key (suc n) key w))

  unfoldable pub finish_walk : ℕ → Bool × Work → Throws Bool × Work
  finish_walk i (false, w) = (ok false, w)
  finish_walk i (true, w) =
      if not (i == w.receiver.context.round.data_interval_count)
      then (ok true, w)
      else answer (finalize w)

  unfoldable pub process_disclosed_key : ℕ → List ℕ → Work → Throws Bool × Work
  process_disclosed_key disclosure_interval key w =
      let round = w.receiver.context.round in
      let i = disclosure_interval - round.disclosure_delay in
      if leb disclosure_interval round.disclosure_delay
      then (ok false, set_incomplete w)
      else if ltb round.data_interval_count i
      then (ok false, set_incomplete w)
      else if not (verify_disclosed_key c key i w.receiver.context.commitment_key)
      then (ok false, set_incomplete w)
      else finish_walk i (walk_keys i key w)
