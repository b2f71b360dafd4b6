-- ===== src/ReservationManager/Searched.antt =====
-- From the search for a link to its schedule: ReservationTable.cpp and ReservationManager.cpp.
use ldacs_mcsotdma.Prelude.{ℕ, suc, ◌+◌, ◌*◌, ◌<◌, ◌≡◌, true, Option, some, ℤ, pos, u32_mod}
use ldacs_mcsotdma.Prelude.Result.{ok}
use ldacs_mcsotdma.Reservation.{MacId}
use ldacs_mcsotdma.Table.{TableId, ChannelId, Heap}
use ldacs_mcsotdma.Table.Find.{Demand, find_earliest_idle_slots_pp}
use ldacs_mcsotdma.Table.Search.{find_pp_earliest}
use ldacs_mcsotdma.ReservationManager.{ReservationManager, get_reservation_table}
use ldacs_mcsotdma.ReservationManager.Schedule.{Link, schedule_bursts}
use ldacs_mcsotdma.ReservationManager.Scheduled.{IsReadyFor}
use ldacs_mcsotdma.ReservationManager.Open.{IsWired}
use ldacs_mcsotdma.ReservationManager.Complete.{IsComplete, schedule_bursts-IsComplete}

-- The link that a user initiates at the slot that was found.
abbrev pub link_at : Demand → ℤ → MacId → MacId → Link
link_at d z own peer = record {
  start_slot_offset = z;
  num_forward_bursts = d.num_forward_bursts;
  num_reverse_bursts = d.num_reverse_bursts;
  period = d.period;
  timeout = d.timeout;
  initiator_id = own;
  recipient_id = peer;
  is_link_initiator = true;
}

-- If the search for a link with bursts of both users finds a slot on a channel whose table is
-- linked to the manager's hardware and ready at all slots of the link, then the initiator that
-- schedules the link there, before the tables change, gets all of its slots: each holds the
-- reservation of its direction.
pub found_scheduled :
    (depth : ℕ) (m : ReservationManager) (channel : Option ChannelId) (i : TableId) (d : Demand)
    (own peer : MacId) (n : ℕ) (z : ℤ) (h : Heap)
    → n < u32_mod
    → find_earliest_idle_slots_pp h i d (pos n) ≡ ok z
    → get_reservation_table h m channel ≡ ok (some i)
    → IsReadyFor (link_at d z own peer) i h
    → IsWired m i h
    → 0 < d.timeout * d.num_forward_bursts
    → 0 < d.timeout * d.num_reverse_bursts
    → IsComplete
        (link_at d z own peer)
        i
        (schedule_bursts (suc (suc depth)) m channel (link_at d z own peer) h)
found_scheduled depth m channel i d own peer n z h small searched found ready wired forward
      reverse =
    let (k, same, _, usable, _) = find_pp_earliest h i d n z small searched in
    schedule_bursts-IsComplete depth m channel i (link_at d z own peer) (n + k) h found ready wired
      usable same forward reverse
