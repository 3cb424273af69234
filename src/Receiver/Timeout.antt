-- ===== src/Receiver/Timeout.antt =====
-- `checkPauseAndTimeoutsLocked` for one context, `resCreateResult`, and the part of `stop` that
-- concerns a context.
use authentication_transmiss.Receiver.Steps.{leave}
use mathlib.Core.Option.{none}
use authentication_transmiss.Receiver.Timeline.{last_logical_interval, interval_start}
use mathlib.Core.List.{[]}
use authentication_transmiss.Receiver.Finish.{
  result_of, push_result, report_missing, incomplete_details, close,
}
use authentication_transmiss.Receiver.State.{
  stopped, verification_timeout, ReceiverState, ResultStatus, TimelineSegment, Work,
}
use authentication_transmiss.Prelude.{
  ltb, ◌||◌, ◌^◌, leb, ◌%◌, not, ◌&&◌, some, if◌then◌else◌, ◌>>=◌, ◌+◌, ok, ◌∷◌, false, List, Bool,
  true, Throws, Option, ℕ,
}

unfoldable pub create_result : ResultStatus → Work → Throws Work
create_result status w = do
  details ← incomplete_details w.receiver
  leave (push_result (result_of w.receiver status details) w)

unfoldable pub last_segment : TimelineSegment → List TimelineSegment → TimelineSegment
last_segment s [] = s
last_segment s (t ∷ ts) = last_segment t ts

-- `vecTimeline.back().u32FirstLogicalInterval`; a started round has a segment.
unfoldable pub last_first_interval : List TimelineSegment → ℕ
last_first_interval [] = 0
last_first_interval (s ∷ ss) = (last_segment s ss).first_logical_interval

unfoldable pub is_pause_due : ℕ → ReceiverState → Option ℕ → Bool
is_pause_due now r none = false
is_pause_due now r (some pause) =
    leb (last_first_interval r.timeline) pause && leb r.pause_timestamp now

unfoldable pub mark_paused : Work → Work
mark_paused w = record w { receiver = record (w.receiver) { paused = true } }

unfoldable pub deadline : ReceiverState → ℕ → ℕ
deadline r last_start =
    (last_start + r.context.round.interval_milliseconds + r.clock_tolerance) % 2 ^ 64

-- The missing packets are reported and the round is closed before its result is made.
unfoldable pub time_out : Work → Throws Work
time_out w = do
  v ← leave (report_missing w.receiver.context.round.total_packet_count 1 w)
  create_result verification_timeout (close v)

unfoldable pub check_deadline : ℕ → Option ℕ → Work → Throws Work
check_deadline now none w = ok w
check_deadline now (some last_start) w =
    if ltb (deadline w.receiver last_start) now then time_out w else ok w

unfoldable pub check_pause_and_timeout : ℕ → Work → Throws Work
check_pause_and_timeout now w =
    if not w.receiver.active || w.receiver.result_reported
    then ok w
    else let w' =
        if is_pause_due now w.receiver w.receiver.pause_after_interval then mark_paused w else w in
      check_deadline now (interval_start w'.receiver (last_logical_interval w'.receiver)) w'

unfoldable pub report_stop : Bool → Work → Throws Work
report_stop report w =
    if report && w.receiver.active && not w.receiver.result_reported
    then (do
      w' ← create_result stopped w
      ok (record w' { receiver = record (w'.receiver) { result_reported = true } }))
    else ok w

unfoldable pub stop : Bool → Work → Throws Work
stop report w = do
  w' ← report_stop report w
  ok (record w' { receiver = record (w'.receiver) { active = false; paused = false } })
