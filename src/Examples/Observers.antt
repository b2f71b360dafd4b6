-- ===== src/Examples/Observers.antt =====
-- Examples of MovingAverage and NeighborObserver.
use ldacs_mcsotdma.Prelude.{◌≡◌, refl, false, some, [], ◌∷◌, arith}
use ldacs_mcsotdma.Prelude.Result.{ok}
use ldacs_mcsotdma.Prelude.Maps.{entry, find}
use ldacs_mcsotdma.MovingAverage.{moving_average, get, sum}
use ldacs_mcsotdma.MovingAverage.Window.{put_all, IsWindow, put_all-window}
use ldacs_mcsotdma.NeighborObserver.{
  NeighborObserver, neighbor_observer, is_active, report_activity,
  get_next_expected_broadcast_slot_offset,
}
use ldacs_mcsotdma.NeighborObserver.Activity.{
  slots_pass, IsWaiting, broadcast_countdown, report_activity-is_active,
}
use ldacs_mcsotdma.Examples.{test_ids}

put_all-window_example :
    let m = put_all (5 ∷ 9 ∷ 4 ∷ []) (moving_average 2) in
    IsWindow 2 (9 ∷ 4 ∷ []) m × (get m ≡ record { numerator = 13; denominator = 2 })
unfolding sum
put_all-window_example = put_all-window 2 (5 ∷ 9 ∷ 4 ∷ []) (omega arith)

-- Neighbor 7 was seen a slot ago, and broadcasts in 3.
abbrev heard : NeighborObserver
heard = record (neighbor_observer 50) {
  active_neighbors = entry 6 4 ∷ entry 7 1 ∷ [];
  advertised_broadcast_slots = entry 7 3 ∷ [];
}

broadcast_countdown_example :
    IsWaiting 7 3 1 (slots_pass 2 heard)
    × (get_next_expected_broadcast_slot_offset 7 (slots_pass 2 heard) ≡ ok 1)
unfolding find
broadcast_countdown_example =
    broadcast_countdown 7 2 1 1 heard
      ((((λ e. absurd (omega (arith, e))), tt), (tt, tt)), refl, refl) (omega arith) (omega arith)

report_activity-is_active_example :
    let o' = (report_activity 7 heard).1 in
    (find 7 o'.active_neighbors ≡ some 0) × (is_active 7 o' ≡ false)
report_activity-is_active_example = report_activity-is_active 7 heard
