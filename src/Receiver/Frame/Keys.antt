-- ===== src/Receiver/Frame/Keys.antt =====
-- A disclosed key, the intervals that it judges and the end of a round leave the frame alone.
use authentication_transmiss.Crypto.KeyChain.{verify_disclosed_key}
use mathlib.Core.Bool.{true, false}
use Prim.Native.Nat.{zero}
use mathlib.Core.Option.{none}
use authentication_transmiss.Receiver.Steps.{Ended}
use authentication_transmiss.Tesla.KsRs.{KsRsMatrix}
use authentication_transmiss.Receiver.State.{ResultDetails, RuntimeResult}
use authentication_transmiss.Crypto.{CryptoProvider}
use authentication_transmiss.Receiver.Finish.{
  all_authenticated, conclude_with, report_missing, report_if_missing, push_result, conclude, close,
}
use authentication_transmiss.Receiver.Keys.{
  contains, key_conflicts, verify_mode, finish_walk, verify_interval, finalize, verify_with,
  process_disclosed_key, verify_intervals, answer, walk_keys, catch_all, add_verified, add_key,
}
use authentication_transmiss.Receiver.Frame.{
  if_valid-Judged, set_incomplete-Judged, queue_failure-Judged, Judged-trans, Judged-refl,
  same_state-Judged, DataPacket, Work, Judged,
}
use authentication_transmiss.Receiver.Frame.Native.{
  and_then-Judged, with_value_from-Judged, verify_native_interval-Judged,
}
use authentication_transmiss.Receiver.Frame.Improved.{verify_improved_interval-Judged}
use authentication_transmiss.Udp.Context.{AuthenticationMode, native, improved}
use authentication_transmiss.Prelude.{
  ◌-◌, ltb, ◌&&◌, find, ◌==◌, not, ◌+◌, err, leb, suc, some, ok, if_ind, refl, Bool, List, Throws,
  Option, ℕ,
}

add_verified-Judged : (i : ℕ) (w : Work) → Judged w (add_verified i w)
unfolding add_verified
add_verified-Judged i w = same_state-Judged w _ refl refl refl refl

add_key-Judged : (i : ℕ) (key : List ℕ) (w : Work) → Judged w (add_key i key w)
unfolding add_key
add_key-Judged i key w = same_state-Judged w _ refl refl refl refl

pub push_result-Judged : (r : RuntimeResult) (w : Work) → Judged w (push_result r w).0
unfolding push_result
push_result-Judged r w =
    if_valid-Judged w _ _ _ (Judged-refl w) (same_state-Judged w _ refl refl refl refl)

pub close-Judged : (w : Work) → Judged w (close w)
unfolding close
close-Judged w = same_state-Judged w _ refl refl refl refl

catch_all-Judged : (w : Work) (e : Ended) → Judged w e.0 → Judged w (catch_all e)
unfolding catch_all
catch_all-Judged w (v, ok done) j = j
catch_all-Judged w (v, err e) j = Judged-trans j (set_incomplete-Judged v)

report_if_missing-Judged :
    (o : Option DataPacket) (i : ℕ) (w : Work) → Judged w (report_if_missing o i w).0
unfolding report_if_missing
report_if_missing-Judged (some p) i w = Judged-refl w
report_if_missing-Judged none i w = queue_failure-Judged _ w

pub report_missing-Judged : (n i : ℕ) (w : Work) → Judged w (report_missing n i w).0
unfolding report_missing
report_missing-Judged zero i w = Judged-refl w
report_missing-Judged (suc n) i w =
    and_then-Judged w _ _ (report_if_missing-Judged _ i w) (report_missing-Judged n (i + 1))

conclude_with-Judged :
    (t : Throws (ResultDetails × Bool)) (details : ResultDetails) (w : Work)
    → Judged w (conclude_with t details w).0
unfolding conclude_with
conclude_with-Judged (ok (found, recovered)) details w = push_result-Judged _ w
conclude_with-Judged (err e) details w =
    Judged-trans (set_incomplete-Judged w) (push_result-Judged _ _)

conclude-Judged :
    (sha256 : List ℕ → List ℕ) (details : ResultDetails) (w : Work)
    → Judged w (conclude sha256 details w).0
unfolding conclude
conclude-Judged sha256 details w =
    if_ind {A = Ended} (λ x. Judged w x.0)
      (all_authenticated w.receiver && not w.receiver.protocol_incomplete) _ _
      (λ e. conclude_with-Judged _ details w) (λ e. push_result-Judged _ w)

module _ (c : CryptoProvider) (m : KsRsMatrix) (sha256 : List ℕ → List ℕ) where
  verify_mode-Judged :
      (mode : AuthenticationMode) (i : ℕ) (key : List ℕ) (w : Work)
      → Judged w (verify_mode c m sha256 mode i key w).0
  unfolding verify_mode
  verify_mode-Judged native i key w = verify_native_interval-Judged c key i w
  verify_mode-Judged improved i key w = verify_improved_interval-Judged c m key i w

  verify_with-Judged :
      (o : Option (List ℕ)) (i : ℕ) (w : Work) → Judged w (verify_with c m sha256 o i w)
  unfolding verify_with
  verify_with-Judged none i w = Judged-refl w
  verify_with-Judged (some key) i w =
      Judged-trans (catch_all-Judged w _ (verify_mode-Judged _ i key w)) (add_verified-Judged i _)

  verify_interval-Judged : (i : ℕ) (w : Work) → Judged w (verify_interval c m sha256 i w)
  unfolding verify_interval
  verify_interval-Judged i w =
      if_ind {A = Work} (λ x. Judged w x) (contains i w.receiver.verified_intervals) _ _
        (λ e. Judged-refl w) (λ e. verify_with-Judged _ i w)

  verify_intervals-Judged : (n i : ℕ) (w : Work) → Judged w (verify_intervals c m sha256 n i w)
  unfolding verify_intervals
  verify_intervals-Judged zero i w = Judged-refl w
  verify_intervals-Judged (suc n) i w =
      Judged-trans (verify_interval-Judged i w) (verify_intervals-Judged n (i + 1) _)

  pub finalize-Judged : (w : Work) → Judged w (finalize c m sha256 w).0
  unfolding finalize
  finalize-Judged w =
      Judged-trans (verify_intervals-Judged w.receiver.context.round.data_interval_count 1 w) (
        and_then-Judged _ _ _ (report_missing-Judged _ 1 _) (λ v.
          with_value_from-Judged v _ _ _ (close-Judged v)
            (λ details. Judged-trans (close-Judged v) (conclude-Judged sha256 details _))))

  walk_keys-Judged : (n : ℕ) (key : List ℕ) (w : Work) → Judged w (walk_keys c m sha256 n key w).1
  unfolding walk_keys
  walk_keys-Judged zero key w = Judged-refl w
  walk_keys-Judged (suc n) key w =
      if_ind {A = Bool × Work} (λ x. Judged w x.1)
        (key_conflicts (find ◌==◌ (suc n) w.receiver.disclosed_keys) key) _ _
        (λ e. set_incomplete-Judged w)
        (λ e.
          Judged-trans (add_key-Judged (suc n) key w)
            (Judged-trans (verify_interval-Judged (suc n) _) (walk_keys-Judged n (c.hash key) _)))

  answer-Judged : (w : Work) (e : Ended) → Judged w e.0 → Judged w (answer e).1
  unfolding answer
  answer-Judged w (v, ok done) j = j
  answer-Judged w (v, err e) j = j

  finish_walk-Judged :
      (w : Work) (i : ℕ) (r : Bool × Work) → Judged w r.1 → Judged w (finish_walk c m sha256 i r).1
  unfolding finish_walk
  finish_walk-Judged w i (false, v) j = j
  finish_walk-Judged w i (true, v) j =
      if_ind {A = Throws Bool × Work} (λ x. Judged w x.1)
        (not (i == v.receiver.context.round.data_interval_count)) _ _ (λ e. j)
        (λ e. answer-Judged w _ (Judged-trans j (finalize-Judged v)))

  -- Processing a disclosed key, whether it is accepted or not, and through the end of the round.
  pub process_disclosed_key-Judged :
      (interval : ℕ) (key : List ℕ) (w : Work)
      → Judged w (process_disclosed_key c m sha256 interval key w).1
  unfolding process_disclosed_key
  process_disclosed_key-Judged interval key w =
      if_ind {A = Throws Bool × Work} (λ x. Judged w x.1)
        (leb interval w.receiver.context.round.disclosure_delay) _ _ (λ e. set_incomplete-Judged w)
        (λ e.
          if_ind {A = Throws Bool × Work} (λ x. Judged w x.1)
            (ltb w.receiver.context.round.data_interval_count
              (interval - w.receiver.context.round.disclosure_delay))
            _ _ (λ e. set_incomplete-Judged w)
            (λ e.
              if_ind {A = Throws Bool × Work} (λ x. Judged w x.1)
                (not (
                  verify_disclosed_key c key (interval - w.receiver.context.round.disclosure_delay)
                    w.receiver.context.commitment_key))
                _ _ (λ e. set_incomplete-Judged w)
                (λ e. finish_walk-Judged w _ _ (walk_keys-Judged _ key w))))
