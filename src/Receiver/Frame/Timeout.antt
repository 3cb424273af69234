-- ===== src/Receiver/Frame/Timeout.antt =====
-- The checks of the clock leave the frame alone.
use authentication_transmiss.Receiver.Steps.{leave}
use mathlib.Core.Option.{none}
use authentication_transmiss.Receiver.Finish.{report_missing, incomplete_details}
use authentication_transmiss.Receiver.State.{ResultStatus}
use authentication_transmiss.Receiver.Timeout.{
  is_pause_due, deadline, create_result, check_pause_and_timeout, time_out, check_deadline,
  mark_paused,
}
use authentication_transmiss.Receiver.Frame.{
  Ended, Judged-refl, Judged-trans, same_state-Judged, Work, Judged,
}
use authentication_transmiss.Receiver.Frame.Keys.{
  push_result-Judged, close-Judged, report_missing-Judged,
}
use authentication_transmiss.Prelude.{
  err, if◌then◌else◌, ltb, ◌||◌, some, not, ok-injective, subst, if_ind, >>=-eq-ok, refl, Option,
  ◌≡◌, ok, Throws, ℕ,
}

abbrev Keeps : Work → Throws Work → Type 0
Keeps w t = (w' : Work) → t ≡ ok w' → Judged w w'

ok-Keeps : (w u : Work) → Judged w u → Keeps w (ok u)
ok-Keeps w u j w' e = subst (λ x. Judged w x) (ok-injective (ok u) refl e) j

pub leave_inv : (e : Ended) (w' : Work) → leave e ≡ ok w' → e.0 ≡ w'
unfolding leave
leave_inv (v, ok done) w' e = ok-injective (ok v) refl e
leave_inv (v, err x) w' e = absurd (cc e)

pub leave-Keeps : (w : Work) (e : Ended) → Judged w e.0 → Keeps w (leave e)
leave-Keeps w e j w' f = subst (λ x. Judged w x) (leave_inv e w' f) j

create_result-Keeps : (s : ResultStatus) (w : Work) → Keeps w (create_result s w)
unfolding create_result
create_result-Keeps s w w' e =
    let (d, f, g) = >>=-eq-ok (incomplete_details w.receiver) _ e in
    leave-Keeps w _ (push_result-Judged _ w) w' g

time_out-Keeps : (w : Work) → Keeps w (time_out w)
unfolding time_out
time_out-Keeps w w' e =
    let (v, f, g) =
      >>=-eq-ok (leave (report_missing w.receiver.context.round.total_packet_count 1 w)) _ e in
    Judged-trans (leave-Keeps w _ (report_missing-Judged _ 1 w) v f)
      (Judged-trans (close-Judged v) (create_result-Keeps _ _ w' g))

check_deadline-Keeps : (now : ℕ) (o : Option ℕ) (w : Work) → Keeps w (check_deadline now o w)
unfolding check_deadline
check_deadline-Keeps now none w = ok-Keeps w w (Judged-refl w)
check_deadline-Keeps now (some start) w =
    if_ind {A = Throws Work} (λ x. Keeps w x) (ltb (deadline w.receiver start) now) _ _
      (λ e. time_out-Keeps w) (λ e. ok-Keeps w w (Judged-refl w))

mark_paused-Judged : (w : Work) → Judged w (mark_paused w)
unfolding mark_paused
mark_paused-Judged w = same_state-Judged w _ refl refl refl refl

pub check_pause_and_timeout-Judged :
    (now : ℕ) (w w' : Work) → check_pause_and_timeout now w ≡ ok w' → Judged w w'
unfolding check_pause_and_timeout
check_pause_and_timeout-Judged now w w' e =
    if_ind {A = Throws Work} (λ x. Keeps w x) (not w.receiver.active || w.receiver.result_reported)
      _ _ (λ f. ok-Keeps w w (Judged-refl w))
      (λ f v g.
        let a : Judged w (
            if is_pause_due now w.receiver w.receiver.pause_after_interval
            then mark_paused w
            else w) =
          if_ind {A = Work} (λ x. Judged w x)
            (is_pause_due now w.receiver w.receiver.pause_after_interval) _ _
            (λ h. mark_paused-Judged w) (λ h. Judged-refl w) in
        Judged-trans a (check_deadline-Keeps now _ _ v g))
      w' e
