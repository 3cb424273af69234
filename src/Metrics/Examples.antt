-- ===== src/Metrics/Examples.antt =====
-- A native round of one packet and one key.
use authentication_transmiss.Udp.Context.{native}
use authentication_transmiss.Prelude.{refl, ok, [], ◌≡◌, ◌∷◌}
use authentication_transmiss.Metrics.Counting.{
  start, native_packet, disclosed_key, sum_create-sum_of, sum_of, Counts,
}
use authentication_transmiss.Metrics.Cost.{
  native_cost, create_summary, multiply_field_count, empty_accumulator, sum_native,
  add_disclosed_key, Accumulator, CostHeader, sum_create, add_native,
}

abbrev header : CostHeader
header = record {
  timestamp_milliseconds = 1;
  round_id = 82 ∷ [];
  sender_id = 65 ∷ [];
  chain_id = 7;
}

abbrev one_packet : Accumulator
one_packet = record (empty_accumulator native) { message_bytes = 32; mac_bytes = 32 }

one_packet_ok : add_native native (empty_accumulator native) ≡ ok one_packet
unfolding add_native
one_packet_ok = refl

abbrev counts : Counts
counts = record { packets = 1; keys = 1; taus = 0; fasts = 0 }

counts_ok :
    sum_of native header counts ≡ ok (record { header = header; details = native_cost 32 32 32 })
unfolding sum_of sum_native multiply_field_count create_summary
counts_ok = refl

sum_create-sum_of_example :
    sum_create (add_disclosed_key one_packet) header
    ≡ ok (record { header = header; details = native_cost 32 32 32 })
sum_create-sum_of_example =
    sum_create-sum_of native (add_disclosed_key one_packet) counts header
      (record { header = header; details = native_cost 32 32 32 })
      (disclosed_key (native_packet one_packet_ok start)) counts_ok
