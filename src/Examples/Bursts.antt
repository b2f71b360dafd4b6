-- ===== src/Examples/Bursts.antt =====
-- Examples of SlotCalculator: links that have started in the past.
use ldacs_mcsotdma.Prelude.{◌≡◌, ◌≢◌, pos, negsuc, ◌+ℤ◌, refl, [], ◌∷◌, arith, int_laws, All}
use ldacs_mcsotdma.SlotCalculator.{Slots, calculate_alternating_bursts, calculate_tx_rx_slots}
use ldacs_mcsotdma.SlotCalculator.Places.{numbers, present, places, alternating_bursts_closed}
use ldacs_mcsotdma.SlotCalculator.Apart.{alternating_bursts_apart}
use ldacs_mcsotdma.SlotCalculator.Shared.{tx_rx_slots_closed}

abbrev from_past : Slots
from_past = calculate_alternating_bursts (negsuc 2) 2 1 1 2

alternating_bursts_closed_example : from_past ≡ record {
  tx_slots = present (places (negsuc 2) 10 (numbers 3 0 2 0 2));
  rx_slots = present (places (negsuc 2) 10 (numbers 3 2 1 0 2));
}
alternating_bursts_closed_example = alternating_bursts_closed (negsuc 2) 2 1 1 2

-- The first slot is three slots ago.
test_from_past :
    from_past
    ≡ record { tx_slots = pos 7 ∷ (pos 27 ∷ (pos 37 ∷ [])); rx_slots = pos 17 ∷ (pos 47 ∷ []) }
unfolding calculate_alternating_bursts ◌+ℤ◌
test_from_past = refl

alternating_bursts_apart_example : All (λ z. All (λ y. z ≢ y) from_past.rx_slots) from_past.tx_slots
alternating_bursts_apart_example = alternating_bursts_apart (negsuc 2) 2 1 1 2

abbrev shared_from_past : Slots
shared_from_past = calculate_tx_rx_slots (negsuc 9) 2 1 1 5 3

tx_rx_slots_closed_example : shared_from_past ≡ record {
  tx_slots = present (places (negsuc 9) 1 (numbers 5 0 1 0 3));
  rx_slots = places (negsuc 9) 1 (numbers 5 1 1 0 3);
}
tx_rx_slots_closed_example = tx_rx_slots_closed (negsuc 9) 2 1 1 5 3 (omega arith) (omega int_laws)

-- Reception slots in the past are returned.
test_shared_from_past :
    shared_from_past
    ≡ record { tx_slots = pos 0 ∷ []; rx_slots = negsuc 8 ∷ (negsuc 3 ∷ (pos 1 ∷ [])) }
unfolding calculate_tx_rx_slots ◌+ℤ◌
test_shared_from_past = refl
