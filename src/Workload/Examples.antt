-- ===== src/Workload/Examples.antt =====
-- A concrete file at which the round trip applies.
use authentication_transmiss.Workload.Recovery.{recover-messages_from, messages_from}
use authentication_transmiss.Workload.File.{
  recover, packet_count_for, original_byte_count, create_file_workload,
}
use authentication_transmiss.Prelude.{refl, ok, ◌≡◌, replicate, List, ℕ}

abbrev short_file : List ℕ
short_file = replicate 40 7

short_file-created :
    create_file_workload short_file ≡ ok (record { file_bytes = short_file; packet_count = 2 })
unfolding create_file_workload packet_count_for
short_file-created = refl

recover-messages_from_example :
    (ms : List (List ℕ)) × (messages_from (record { file_bytes = short_file; packet_count = 2 }) 2 1
      ≡ ok ms)
    × (recover ms 40 ≡ ok short_file)
unfolding original_byte_count
recover-messages_from_example =
    recover-messages_from short_file (record { file_bytes = short_file; packet_count = 2 })
      short_file-created
