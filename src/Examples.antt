-- ===== src/Examples.antt =====
-- Test data that the example modules share: identifiers, and a heap as the program sets one up,
-- where table 0 is that of a channel and tables 1 and 2 are those of the hardware.
pub mod Bursts
pub mod Tables
pub mod Links
pub mod PpLinks
pub mod ShLinks
pub mod Slots
pub mod Peers
pub mod Observers
use ldacs_mcsotdma.Prelude.{
  ℕ, true, ◌==◌, List, [], ◌∷◌, Option, none, some, replicate, if◌then◌else◌,
}
use ldacs_mcsotdma.Reservation.{MacIds, Reservation, unreserved}
use ldacs_mcsotdma.Channel.{channel}
use ldacs_mcsotdma.Table.{Table, TableId, Heap}

instance abbrev pub test_ids : MacIds
test_ids = record { unset = 0; broadcast = 1; beacon = 2; dme = 3 }

-- A table with eight slots to either side.
abbrev pub fresh : Option TableId → List TableId → Table
fresh tx_table rx_tables = record {
  planning_horizon = 8;
  slot_utilization_vec = replicate 17 unreserved;
  last_updated = 0;
  num_idle_future_slots = 9;
  freq_channel = none;
  transmitter_reservation_table = tx_table;
  receiver_reservation_tables = rx_tables;
  default_reservation = unreserved;
}

abbrev pub linked_heap : Heap
linked_heap = record {
  tables = λ i. if i == 0 then fresh (some 1) (2 ∷ []) else fresh none [];
  channels = λ _. channel true 960 500;
}
