-- ===== src/Examples/Slots.antt =====
-- Examples of a time slot of MCSOTDMA_Mac: a node that logs nothing, in a state that lists the
-- reservations of the current slot.
use ldacs_mcsotdma.Prelude.{
  ◌==◌, if◌then◌else◌, ℕ, ◌+◌, ◌≡◌, refl, true, false, List, [], ◌∷◌, some,
}
use ldacs_mcsotdma.Prelude.Result.{ok, err, runtime_error, invalid_argument}
use ldacs_mcsotdma.Prelude.Calls.{returns, throws}
use ldacs_mcsotdma.Reservation.{reserve, busy, rx, tx_beacon}
use ldacs_mcsotdma.Channel.{channel}
use ldacs_mcsotdma.McsotdmaMac.Slot.{Packet, Current, Node, for_each, execute}
use ldacs_mcsotdma.McsotdmaMac.Executed.{CountsSlot, num_sent, num_received, execute-counted}
use ldacs_mcsotdma.Examples.{test_ids}
use ldacs_mcsotdma.Examples.ShLinks.{thousandths}

abbrev beacon_packet : Packet
beacon_packet = record {
  origin = 9;
  destination = 1;
  is_dme = false;
  has_channel_error = false;
  snr = 0;
}

-- The state of a node: the reservations of the slot, and how many packets have been sent.
abbrev State : Type 0
State = List Current × ℕ

abbrev test_node : Node State
test_node = record {
  own_id = 9;
  num_transmitters = 1;
  num_receivers = 2;
  silent = false;
  learn_dme_activity = false;
  reservations = λ s. ok s.0;
  link_ids = λ s. 1 ∷ [];
  third_party_links = λ s. [];
  update_tables = λ n. returns tt;
  update_lower = λ n. returns tt;
  tune_receiver = λ f. returns tt;
  lower_receive = λ p f. returns tt;
  notify_link_outgoing = λ id. returns tt;
  on_reception_reservation = λ id. if id == 9 then throws invalid_argument else returns tt;
  on_transmission_reservation =
      λ id. if id == 9 then throws invalid_argument else returns (some beacon_packet);
  on_packet_reception = λ id p. returns tt;
  link_slot_start = λ n id. returns tt;
  link_slot_end = λ id. returns tt;
  third_party_slot_start = λ n l. returns tt;
  third_party_slot_end = λ l. returns tt;
  report_neighbor_activity = λ id. returns tt;
  observer_slot_end = λ s. s;
  report_num_transmissions = λ n. returns tt;
  note_signal = λ f s. s;
  clear_signals = λ s. s;
  count_sent = λ s. (s.0, s.1 + 1);
}

-- A beacon is sent on the shared channel, while something is received on another.
abbrev a_slot : List Current
a_slot =
    (reserve 2 tx_beacon, channel false 957 500)
    ∷ (reserve 5 rx, channel true 960 500)
    ∷ (reserve 6 busy, channel true 964 500)
    ∷ []

execute-counted_example :
    CountsSlot test_node
      (num_sent a_slot)
      (num_received a_slot)
      (a_slot, 1)
      (execute test_node (a_slot, 0))
unfolding for_each channel
execute-counted_example = execute-counted test_node (a_slot, 0) (a_slot, 1) a_slot refl refl

-- No manager has the identifier of the node itself: its calls throw.
test_no_manager :
    (execute test_node ((reserve 9 rx, channel true 960 500) ∷ [], 0)).0 ≡ err invalid_argument
unfolding execute channel
test_no_manager = refl

-- The beacon is counted as a reception, so that there are two.
test_beacon_received : (execute test_node (a_slot, 0)).0 ≡ ok (record { num_txs = 1; num_rxs = 2 })
unfolding execute channel
test_beacon_received = refl

-- With a second reception to follow there is none left for it, although there are two receivers.
test_too_many_receptions :
    (execute test_node ((reserve 7 rx, channel true 968 500) ∷ a_slot, 0)).0 ≡ err runtime_error
unfolding execute channel
test_too_many_receptions = refl
