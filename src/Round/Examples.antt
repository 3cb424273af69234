-- ===== src/Round/Examples.antt =====
-- A round of ten text packets, four to an interval, two contexts and the store that holds them.
use authentication_transmiss.Tesla.Input.{same_text}
use authentication_transmiss.Round.Lookup.{find-replace_all}
use authentication_transmiss.Udp.Context.{IsValid, PacketContext, interval_of, improved}
use authentication_transmiss.Crypto.{sha256}
use authentication_transmiss.Round.Store.{
  same_key, empty_store, is_inserted, conflicts, add_context, add_contexts, replace_all,
  ContextStore, find_context,
}
use authentication_transmiss.Round.Context.{text_details, ReceiverContext}
use authentication_transmiss.Round.Configuration.{SameSizes, create_packet_context-IsValid}
use authentication_transmiss.Round.Intervals.{interval_packets, last_packet, first_packet}
use authentication_transmiss.Round.Parameters.{
  text, check_improved, RoundParameters, create_packet_context, create_round,
}
use mathlib.Core.List.{Memᴰ}
use authentication_transmiss.Prelude.{
  ◌≤◌, min, arith, ◌+◌, ◌*◌, invalid_argument, ◌↔◌, refl, ◌-◌, ok, err, [], some, ◌≡◌, ◌∷◌, List, ℕ,
}

abbrev given : RoundParameters
given = record {
  algorithm = sha256;
  mode = improved;
  total_packet_count = 10;
  packets_per_interval = 4;
  disclosure_delay = 2;
  interval_milliseconds = 500;
  start_timestamp_milliseconds = 9000;
  data_interval_count = 0;
  improved_parameters = some (record { group_size = 2; detection_threshold = 1; tau_count = 6 });
  payload_mode = text;
}

abbrev made : RoundParameters
made = record given { data_interval_count = 3 }

given-made : create_round given ≡ ok made
unfolding create_round check_improved
given-made = refl

interval_packets_example :
    (first_packet made 3 ≡ (3 - 1) * made.packets_per_interval + 1)
    × (last_packet made 3 ≡ min made.total_packet_count (3 * made.packets_per_interval))
    × (first_packet made 3 ≤ last_packet made 3)
    × ((k : ℕ)
        → ((first_packet made 3 ≤ k) × (k ≤ last_packet made 3)) ↔ (
            (1 ≤ k)
            × (k ≤ made.total_packet_count)
            × (interval_of k made.packets_per_interval ≡ 3)))
interval_packets_example =
    interval_packets given made given-made (omega arith) (omega arith) 3 (omega arith) (omega arith)

create_packet_context-IsValid_example :
    (c : PacketContext) × (create_packet_context made ≡ ok c)
    × IsValid c
    × (c.mode ≡ made.mode)
    × (c.total_packet_count ≡ made.total_packet_count)
    × (c.packets_per_interval ≡ made.packets_per_interval)
    × (c.disclosure_delay ≡ made.disclosure_delay)
    × SameSizes made.improved_parameters c
    × (interval_of c.total_packet_count c.packets_per_interval ≡ made.data_interval_count)
create_packet_context-IsValid_example =
    create_packet_context-IsValid given made given-made (omega arith) (omega arith)
      (omega arith, omega arith, omega arith)

abbrev first_context : ReceiverContext
first_context = record {
  sender_id = 65 ∷ [];
  sender_ip_address = 49 ∷ [];
  chain_id = 7;
  commitment_key = [];
  round = made;
  payload = text_details 10;
}

abbrev second_context : ReceiverContext
second_context = record {
  sender_id = 66 ∷ [];
  sender_ip_address = 50 ∷ [];
  chain_id = 7;
  commitment_key = [];
  round = made;
  payload = text_details 10;
}

abbrev both : List ReceiverContext
both = first_context ∷ second_context ∷ []

abbrev filled : ContextStore
filled = record {
  sender_by_ip = (50 ∷ [], 66 ∷ []) ∷ (49 ∷ [], 65 ∷ []) ∷ [];
  ip_by_sender = (66 ∷ [], 50 ∷ []) ∷ (65 ∷ [], 49 ∷ []) ∷ [];
  context_by_sender_chain = ((66 ∷ [], 7), second_context) ∷ ((65 ∷ [], 7), first_context) ∷ [];
}

both_stored : replace_all empty_store both ≡ (ok tt, filled)
unfolding replace_all add_contexts add_context conflicts is_inserted same_key same_text
both_stored = refl

find-replace_all_example : (find_context filled (50 ∷ []) 7 ≡ ok second_context) ↔ (
    Memᴰ second_context both
    × (second_context.sender_ip_address ≡ (50 ∷ []))
    × (second_context.chain_id ≡ second_context.chain_id))
find-replace_all_example =
    find-replace_all empty_store filled both both_stored (50 ∷ []) 7 second_context

abbrev clashing : List ReceiverContext
clashing = first_context ∷ record second_context { sender_ip_address = 49 ∷ [] } ∷ []

clashing_refused : replace_all filled clashing ≡ (err invalid_argument, filled)
unfolding replace_all add_contexts add_context conflicts is_inserted same_key same_text
clashing_refused = refl
