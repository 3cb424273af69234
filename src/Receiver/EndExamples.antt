-- ===== src/Receiver/EndExamples.antt =====
-- A round of one text packet that has passed, and its end.
use authentication_transmiss.Tesla.Input.{create_packet_input}
use authentication_transmiss.Receiver.Native.{map_data_packet}
use Prim.Native.Nat.{zero}
use authentication_transmiss.Receiver.Frame.{filled, count_filled}
use authentication_transmiss.Round.Context.{is_text, text_details}
use authentication_transmiss.Receiver.Finish.{
  is_result_valid, close, report_if_missing, report_missing, incomplete_details, drop_zero,
  decode_text, join_text, passed_packet, recovered_text, missing_count_of, same_status,
  count_records, count_status, all_authenticated, result_status, recover_details, result_of,
  push_result, conclude_with, conclude,
}
use authentication_transmiss.Prelude.{
  refl, some-injective, sym, ap, ok, suc, drop, none, ◌≤◌, some, replicate, [], ℕ, true, ◌∷◌, false,
  ◌≡◌, All, arith,
}
use authentication_transmiss.Receiver.Observe.{candidates_at, record_at, slot}
use authentication_transmiss.Receiver.State.{
  normal_sender, passed, text_result, completed, empty_record, Work, PacketRecord, RuntimeResult,
}
use authentication_transmiss.Udp.Packet.{native_details, DataPacket}
use authentication_transmiss.Receiver.Completion.{finalize_sound}
use authentication_transmiss.Receiver.Tidy.{Tidy}
use authentication_transmiss.Receiver.Keys.{finalize, verify_intervals, verify_interval, contains}
use authentication_transmiss.Receiver.Examples.{
  toy, matrix, first_bytes, two_packets, context, idle_state,
}
use authentication_transmiss.Receiver.Steps.{
  if_valid, if_valid, if_valid, if_valid, if_valid, if_valid, if_valid, if_valid, if_valid,
  if_valid, if_valid, if_valid, if_valid, if_valid, if_valid, if_valid, if_valid, if_valid,
  if_valid, if_valid, if_valid, if_valid, if_valid, if_valid, if_valid, if_valid, if_valid,
  if_valid, if_valid, if_valid, if_valid, if_valid, if_valid, if_valid, if_valid, if_valid,
  if_valid, and_then, if_valid, if_valid, if_valid, with_value,
}

abbrev greeting : DataPacket
greeting = record {
  header = record { chain_id = 7; interval_index = 1; packet_index = 1 };
  message = 72 ∷ replicate 31 0;
  disclosed_key = none;
  details = native_details (replicate 32 9);
}

abbrev passed_greeting : PacketRecord
passed_greeting = record empty_record { packet = some greeting; status = passed }

abbrev judged : Work
judged = record {
  receiver = record idle_state {
    round_id = 82 ∷ [];
    context = record context {
      round = record two_packets { total_packet_count = 1; data_interval_count = 1 };
      payload = text_details 1;
    };
    packet_records = empty_record ∷ passed_greeting ∷ [];
    verified_intervals = 1 ∷ [];
    received_packet_count = 1;
    active = true;
  };
  observing = false;
  next_event_id = 1;
  observations = [];
  results = [];
}

origin-judged :
    (i : ℕ) (p : DataPacket)
    → (slot judged i).packet ≡ some p
    → (1 ≤ i) × (p.packet_index ≡ i) × ((slot judged i).source ≡ normal_sender)
unfolding slot record_at
origin-judged zero p e = absurd (cc e)
origin-judged (suc zero) p e =
    (omega arith, ap (λ q. q.packet_index) (sym (some-injective e)), refl)
origin-judged (suc (suc n)) p e = absurd (cc e)

judged-Tidy : Tidy judged
judged-Tidy = record {
  size = refl;
  small = omega arith;
  count = unfold count_filled filled in refl;
  origin = origin-judged;
  versions = λ i. unfold candidates_at in omega arith;
}

abbrev delivered : RuntimeResult
delivered = record {
  status = completed;
  expected_count = 1;
  received_count = 1;
  authenticated_count = 1;
  failed_count = 0;
  missing_count = 0;
  details = text_result (72 ∷ []);
}

abbrev ended : Work
ended = record judged {
  receiver = record (judged.receiver) { active = false; result_reported = true };
  results = delivered ∷ [];
}

judged_ends : finalize toy matrix first_bytes judged ≡ (ended, ok tt)
unfolding finalize verify_intervals verify_interval contains with_value conclude conclude_with
    push_result if_valid is_result_valid and_then result_of result_status all_authenticated
    count_status count_records same_status missing_count_of recover_details recovered_text
    passed_packet map_data_packet create_packet_input join_text decode_text drop_zero
    incomplete_details report_missing report_if_missing slot record_at close is_text
judged_ends = refl

finalize_sound_example :
    All (λ r. r.status ≡ passed) (drop 1 ended.receiver.packet_records)
    × (recover_details first_bytes ended.receiver ≡ ok (text_result (72 ∷ []), true))
finalize_sound_example =
    finalize_sound toy matrix first_bytes judged ended judged-Tidy [] delivered judged_ends refl
      refl
