-- ===== src/Receiver/Timeline.antt =====
-- When an interval starts, as far as the receiver knows the pauses, and whether a packet arrived
-- before its key could be known to others.
use authentication_transmiss.Receiver.State.{empty_record, ReceiverState, TimelineSegment}
use authentication_transmiss.Prelude.{
  ◌++◌, ◌||◌, invalid_argument, leb, fail_if, ◌>>◌, ◌*◌, ◌&&◌, [], true, ◌-◌, ◌==◌, ok, ltb, some,
  ◌^◌, not, ◌%◌, none, false, if◌then◌else◌, replicate, ◌∷◌, Throws, Bool, ◌+◌, Option, List, ℕ,
}

-- The loop over the segments, with the last one that starts no later than the interval.
unfoldable pub segment_of :
    List TimelineSegment → ℕ → Option TimelineSegment → Option TimelineSegment
segment_of [] interval found = found
segment_of (s ∷ segments) interval found =
    let later = segment_of segments interval (some s) in
    if ltb interval s.first_logical_interval then found else later

unfoldable pub is_beyond_pause : Option ℕ → ℕ → TimelineSegment → Bool
is_beyond_pause none interval s = false
is_beyond_pause (some pause) interval s = ltb pause interval && leb s.first_logical_interval pause

unfoldable pub interval_start : ReceiverState → ℕ → Option ℕ
interval_start r interval = elim (segment_of r.timeline interval none) [
  | none ↦ none
  | some s ↦
      if is_beyond_pause r.pause_after_interval interval s
      then none
      else some (
          (s.start_timestamp
            + (interval - s.first_logical_interval) * r.context.round.interval_milliseconds)
          % 2 ^ 64)
]

unfoldable pub is_packet_time_safe : ReceiverState → ℕ → ℕ → Bool
is_packet_time_safe r data_interval receive_timestamp =
    elim (interval_start r ((data_interval + r.context.round.disclosure_delay) % 2 ^ 32)) [
      | none ↦ true
      | some disclosure ↦ ltb ((receive_timestamp + r.clock_tolerance) % 2 ^ 64) disclosure
    ]

-- The bodies of the loops of `requestPause` and `resume`, for a context that is active.
unfoldable pub last_logical_interval : ReceiverState → ℕ
last_logical_interval r =
    (r.context.round.data_interval_count + r.context.round.disclosure_delay) % 2 ^ 32

unfoldable pub request_pause : ReceiverState → ℕ → ℕ → Throws ReceiverState
request_pause r pause_after_interval pause_timestamp = if not r.active then ok r else (do
  fail_if (leb (last_logical_interval r) pause_after_interval) invalid_argument
  ok (record r {
    pause_after_interval = some pause_after_interval;
    pause_timestamp = pause_timestamp;
  }))

unfoldable pub follows_pause : Option ℕ → ℕ → Bool
follows_pause none resume_interval = false
follows_pause (some pause) resume_interval = resume_interval == (pause + 1) % 2 ^ 32

unfoldable pub resume : ℕ → ReceiverState → ℕ → ℕ → Throws ReceiverState
resume now r resume_interval resume_timestamp = if not r.active then ok r else (do
  fail_if
      (not (follows_pause r.pause_after_interval resume_interval)
        || leb resume_timestamp r.pause_timestamp
        || leb resume_timestamp (now + 100))
      invalid_argument
  ok (record r {
    timeline =
        r.timeline
        ++ (record { first_logical_interval = resume_interval; start_timestamp = resume_timestamp }
            ∷ []);
    paused = false;
  }))

-- The body of the loop of `start`.
unfoldable pub start_round : ReceiverState → List ℕ → ℕ → ℕ → ReceiverState
start_round r round_id start_timestamp clock_tolerance = record r {
  round_id = round_id;
  packet_records = replicate (r.context.round.total_packet_count + 1) empty_record;
  additional_candidates = [];
  disclosed_keys = [];
  verified_intervals = [];
  timeline = record { first_logical_interval = 1; start_timestamp = start_timestamp } ∷ [];
  pause_after_interval = none;
  pause_timestamp = 0;
  clock_tolerance = clock_tolerance;
  received_packet_count = 0;
  active = true;
  paused = false;
  protocol_incomplete = false;
  result_reported = false;
}
