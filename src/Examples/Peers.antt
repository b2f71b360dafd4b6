-- ===== src/Examples/Peers.antt =====
-- Examples of links that are scheduled: at both ends, the recipient two slots before the initiator;
-- where all slots are free; and where the search has found them.
use ldacs_mcsotdma.Prelude.{ℕ, ◌+◌, arith, refl, inl, true, false, [], ◌∷◌, some, pos, ◌+ℤ◌}
use ldacs_mcsotdma.SlotCalculator.{calculate_alternating_bursts}
use ldacs_mcsotdma.ReservationMap.{ReservationMap}
use ldacs_mcsotdma.ReservationManager.{get_reservation_table}
use ldacs_mcsotdma.ReservationManager.Schedule.{Link, schedule_bursts}
use ldacs_mcsotdma.ReservationManager.Recorded.{resource}
use ldacs_mcsotdma.ReservationManager.Peers.{User, IsMirrored, call_at, ends-IsMirrored}
use ldacs_mcsotdma.ReservationManager.Complete.{IsComplete, schedule_bursts-IsComplete}
use ldacs_mcsotdma.ReservationManager.Searched.{link_at, found_scheduled}
use ldacs_mcsotdma.Reservation.{unreserved}
use ldacs_mcsotdma.Table.Find.{Demand, find_earliest_idle_slots_pp}
use ldacs_mcsotdma.Examples.{test_ids}
use ldacs_mcsotdma.Examples.Links.{test_manager, managed_heap, short_link, ready}

abbrev user_at : ℕ → ℕ → User
user_at now first_burst = record {
  now = now;
  first_burst = first_burst;
  manager = test_manager;
  channel = some 1;
  table = 0;
  heap = managed_heap;
}

abbrev bursts_at : ℕ → ReservationMap
bursts_at first_burst = record {
  scheduled_resources = resource 0 (pos first_burst) ∷ resource 0 (pos (first_burst + 5)) ∷ [];
  locked_resources = [];
  num_slots_since_creation = 0;
}

ends-IsMirrored_example :
    IsMirrored short_link 0 0
      (call_at 0 short_link true (user_at 10 1)).1
      (call_at 0 short_link false (user_at 8 3)).1
      1
      3
unfolding get_reservation_table ◌+ℤ◌ calculate_alternating_bursts schedule_bursts
ends-IsMirrored_example =
    ends-IsMirrored 0 short_link (user_at 10 1) (user_at 8 3) (bursts_at 1) (bursts_at 3) 1 3 refl
      (refl, ((ready (pos 1) refl, tt), (ready (pos 6) refl, tt)))
      (refl, ((ready (pos 3) refl, tt), (ready (pos 8) refl, tt))) refl refl refl (inl refl)
      (inl refl)

abbrev as_recipient : Link
as_recipient = record short_link { is_link_initiator = false }

-- The recipient listens first, and sends second.
schedule_bursts-IsComplete_example :
    IsComplete as_recipient 0 (schedule_bursts 2 test_manager (some 1) as_recipient managed_heap)
unfolding get_reservation_table ◌+ℤ◌ calculate_alternating_bursts
schedule_bursts-IsComplete_example =
    schedule_bursts-IsComplete 0 test_manager (some 1) 0 as_recipient 1 managed_heap refl
      ((ready (pos 1) refl, tt), (ready (pos 6) refl, tt)) (refl, refl)
      (
        (((unreserved, refl, refl), inl (unreserved, refl, refl)), tt),
        (((unreserved, refl, refl), (1, refl, (unreserved, refl, refl))), tt),
      )
      refl (omega arith) (omega arith)

abbrev one_each : Demand
one_each = record { num_forward_bursts = 1; num_reverse_bursts = 1; period = 0; timeout = 1 }

found_scheduled_example :
    IsComplete
      (link_at one_each (pos 1) 5 7)
      0
      (schedule_bursts 2 test_manager (some 1) (link_at one_each (pos 1) 5 7) managed_heap)
unfolding find_earliest_idle_slots_pp get_reservation_table ◌+ℤ◌ calculate_alternating_bursts
found_scheduled_example =
    found_scheduled 0 test_manager (some 1) 0 one_each 5 7 1 (pos 1) managed_heap (omega arith) refl
      refl ((ready (pos 1) refl, tt), (ready (pos 6) refl, tt)) (refl, refl) (omega arith)
      (omega arith)
