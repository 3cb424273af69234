-- ===== src/Receiver/Completion.antt =====
-- What a round's result of `Completed` vouches for.
use authentication_transmiss.Receiver.Frame.Keys.{finalize-Judged}
use authentication_transmiss.Receiver.Frame.{Judged}
use authentication_transmiss.Receiver.Steps.{if_valid, and_then, Ended, with_value}
use authentication_transmiss.Receiver.Keys.{finalize}
use authentication_transmiss.Receiver.Tidy.{Judged-Tidy, Tidy}
use authentication_transmiss.Tesla.KsRs.{KsRsMatrix}
use authentication_transmiss.Crypto.{CryptoProvider}
use authentication_transmiss.Receiver.Observe.{set_incomplete}
use mathlib.Core.List.{[]}
use authentication_transmiss.Receiver.Finish.{
  is_result_valid, conclude, result_of, push_result, recover_details, conclude_with, result_status,
  count_status, all_authenticated, count_records, same_status,
}
use authentication_transmiss.Receiver.State.{
  completed, Work, RuntimeResult, ResultDetails, PacketRecord, PacketStatus, ReceiverState, passed,
  failed, empty, pending,
}
use authentication_transmiss.Prelude.{
  invalid_argument, sym, not, false, ◌&&◌, err, ◌∙◌, Throws, append-injective, head-eq_of_cons-eq,
  ok, length-drop, length-append, ap, ◌^◌, Bool, ◌++◌, ◌%◌, inr, if◌then◌else◌, subst, drop, inl,
  suc, Bool-cases, if_ind, ◌∷◌, arith, refl, ◌≤◌, All, ◌+◌, true, List, ◌≡◌, length, ℕ,
}

same_status→eq : (s t : PacketStatus) → same_status s t ≡ true → s ≡ t
unfolding same_status
same_status→eq empty empty e = refl
same_status→eq pending pending e = refl
same_status→eq passed passed e = refl
same_status→eq failed failed e = refl
same_status→eq empty pending e = cc
same_status→eq empty passed e = cc
same_status→eq empty failed e = cc
same_status→eq pending empty e = cc
same_status→eq pending passed e = cc
same_status→eq pending failed e = cc
same_status→eq passed empty e = cc
same_status→eq passed pending e = cc
same_status→eq passed failed e = cc
same_status→eq failed empty e = cc
same_status→eq failed pending e = cc
same_status→eq failed passed e = cc

count-records_le : (s : PacketStatus) (rs : List PacketRecord) → count_records s rs ≤ length rs
unfolding count_records
count-records_le s [] = omega arith
count-records_le s (r ∷ rs) =
    let rest = count-records_le s rs in
    if_ind {A = ℕ} (λ n. n ≤ suc (length rs)) (same_status r.status s) _ _ (λ e. omega arith)
      (λ e. omega arith)

-- Where the count is the length, every record has the status.
count_all :
    (s : PacketStatus) (rs : List PacketRecord)
    → count_records s rs ≡ length rs
    → All (λ r. r.status ≡ s) rs
unfolding count_records
count_all s [] e = tt
count_all s (r ∷ rs) e = elim (Bool-cases (same_status r.status s)) [
  | inl t ↦
      let f : count_records s rs + 1 ≡ suc (length rs) =
        subst (λ b. (if b then count_records s rs + 1 else count_records s rs) ≡ suc (length rs)) t
          e in
      (same_status→eq r.status s t, count_all s rs (omega arith))
  | inr t ↦
      let f : count_records s rs ≡ suc (length rs) =
        subst (λ b. (if b then count_records s rs + 1 else count_records s rs) ≡ suc (length rs)) t
          e in
      absurd (omega (arith, count-records_le s rs))
]

module _ (r : ReceiverState)
    (size : length r.packet_records ≡ r.context.round.total_packet_count + 1)
    (small : r.context.round.total_packet_count ≤ 200_000) where
  -- The test that opens the recovery of a payload.
  all_passed : all_authenticated r ≡ true → All (λ x. x.status ≡ passed) (drop 1 r.packet_records)
  unfolding all_authenticated count_status
  all_passed e =
      let n : count_records passed (drop 1 r.packet_records) % 2 ^ 32
          ≡ r.context.round.total_packet_count =
        ground arith in
      count_all passed (drop 1 r.packet_records) (
        omega (
          arith,
          n,
          length-drop 1 r.packet_records,
          count-records_le passed (drop 1 r.packet_records),
        ))

last-append {ℓ} : {A : Type ℓ} (xs ys : List A) (x y : A) → xs ++ (x ∷ []) ≡ ys ++ (y ∷ []) → x ≡ y
last-append xs ys x y e =
    let n : length (xs ++ (x ∷ [])) ≡ length (ys ++ (y ∷ [])) = ap length e in
    let same : length xs ≡ length ys =
      omega (arith, length-append xs (x ∷ []), length-append ys (y ∷ [])) in
    head-eq_of_cons-eq (append-injective xs ys same e).1

completed_inv :
    (r : ReceiverState) (b : Bool)
    → result_status r b ≡ completed
    → (b ≡ true) × (all_authenticated r ≡ true)
unfolding result_status
completed_inv r b e = ground arith

-- What the result of a concluded round says where it is `completed`.
data Vouched (sha256 : List ℕ → List ℕ) (res : RuntimeResult) (w : Work) : Type 0 where
  vouched :
      all_authenticated w.receiver ≡ true
      → recover_details sha256 w.receiver ≡ ok (res.details, true)
      → Vouched sha256 res w

push_result_inv :
    (r : RuntimeResult) (w w' : Work)
    → push_result r w ≡ (w', ok tt)
    → w' ≡ record w { results = w.results ++ (r ∷ []) }
unfolding push_result if_valid
push_result_inv r w w' e = elim (Bool-cases (is_result_valid w.receiver r)) [
  | inl t ↦
      let f : (record w { results = w.results ++ (r ∷ []) }, ok tt) ≡ (w', ok tt) = rw t at e in
      sym (ap (λ x. x.0) f)
  | inr t ↦
      let f : (w, err invalid_argument) ≡ (w', ok tt) = rw t at e in absurd (cc (ap (λ x. x.1) f))
]

module _ (sha256 : List ℕ → List ℕ) (details : ResultDetails) (old : List RuntimeResult)
    (res : RuntimeResult) (done : res.status ≡ completed) where
  -- The result that is appended is the one that was pushed.
  pushed :
      (r : RuntimeResult) (w w' : Work)
      → push_result r w ≡ (w', ok tt)
      → w'.results ≡ old ++ (res ∷ [])
      → (w' ≡ record w { results = w.results ++ (r ∷ []) }) × (r ≡ res)
  pushed r w w' e f =
      let same = push_result_inv r w w' e in
      (same, last-append w.results old r res (sym (ap (λ x. x.results) same) ∙ f))

  not_completed :
      (w w' : Work) (found : ResultDetails)
      → push_result (result_of w.receiver (result_status w.receiver false) found) w ≡ (w', ok tt)
      → w'.results ≡ old ++ (res ∷ [])
      → Vouched sha256 res w'
  unfolding result_of
  not_completed w w' found e f =
      let (same, r) = pushed _ w w' e f in
      let (b, a) = completed_inv w.receiver false (ap (λ x. x.status) r ∙ done) in absurd (cc b)

  conclude_with-Vouched :
      (t : Throws (ResultDetails × Bool)) (w w' : Work)
      → recover_details sha256 w.receiver ≡ t
      → conclude_with t details w ≡ (w', ok tt)
      → w'.results ≡ old ++ (res ∷ [])
      → Vouched sha256 res w'
  unfolding conclude_with result_of
  conclude_with-Vouched (ok (found, recovered)) w w' t e f =
      let (same, r) = pushed _ w w' e f in
      let (b, a) = completed_inv w.receiver recovered (ap (λ x. x.status) r ∙ done) in
      let found' : found ≡ res.details = ap (λ x. x.details) r in
      subst (λ x. Vouched sha256 res x) (sym same) (vouched a (t ∙ (λ i. ok (found' i, b i))))
  conclude_with-Vouched (err x) w w' t e f = not_completed (set_incomplete w) w' details e f

  conclude-Vouched :
      (w w' : Work)
      → conclude sha256 details w ≡ (w', ok tt)
      → w'.results ≡ old ++ (res ∷ [])
      → Vouched sha256 res w'
  unfolding conclude
  conclude-Vouched w w' e f =
      if_ind {A = Ended} (λ x. x ≡ (w', ok tt) → Vouched sha256 res w')
        (all_authenticated w.receiver && not w.receiver.protocol_incomplete) _ _
        (λ t g. conclude_with-Vouched (recover_details sha256 w.receiver) w w' refl g f)
        (λ t g. not_completed w w' details g f) e

with_value_inv {ℓ} :
    {A : Type ℓ} (u : Work) (t : Throws A) (f : A → Ended) (w' : Work)
    → with_value u t f ≡ (w', ok tt)
    → (a : A) × (f a ≡ (w', ok tt))
unfolding with_value
with_value_inv u (ok a) f w' e = (a, e)
with_value_inv u (err x) f w' e = absurd (cc (ap (λ x. x.1) e))

and_then_inv :
    (u : Ended) (f : Work → Ended) (w' : Work) → and_then u f ≡ (w', ok tt) → f u.0 ≡ (w', ok tt)
unfolding and_then
and_then_inv (v, ok done) f w' e = e
and_then_inv (v, err x) f w' e = absurd (cc (ap (λ x. x.1) e))

module _ (c : CryptoProvider) (m : KsRsMatrix) (sha256 : List ℕ → List ℕ) (w w' : Work)
    (tidy : Tidy w) (old : List RuntimeResult) (res : RuntimeResult) where
  finalize_inv :
      finalize c m sha256 w ≡ (w', ok tt)
      → (v : Work) × (details : ResultDetails) × (conclude sha256 details v ≡ (w', ok tt))
  unfolding finalize
  finalize_inv e =
      let (details, f) = with_value_inv _ _ _ w' (and_then_inv _ _ w' e) in (_, details, f)

  -- Where the end of a round, from a state with the round's invariant, returns and has appended a result that says `Completed`, every slot of a packet has passed, and the result carries the payload that is recovered from those slots.
  pub finalize_sound :
      finalize c m sha256 w ≡ (w', ok tt)
      → w'.results ≡ old ++ (res ∷ [])
      → res.status ≡ completed
      → All (λ r. r.status ≡ passed) (drop 1 w'.receiver.packet_records)
        × (recover_details sha256 w'.receiver ≡ ok (res.details, true))
  finalize_sound e appended done =
      let (v, details, f) = finalize_inv e in
      let j : Judged w w' = subst (λ x. Judged w x.0) e (finalize-Judged c m sha256 w) in
      let t = Judged-Tidy w w' j tidy in
      elim (conclude-Vouched sha256 details old res done v w' f appended) [
        | vouched a g ↦ (all_passed w'.receiver t.size t.small a, g)
      ]
