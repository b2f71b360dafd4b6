-- ===== src/NeighborObserver/Delays.antt =====
-- NeighborObserver.cpp: the averages of the slots between two beacons.
use ldacs_mcsotdma.Prelude.{ℕ, ◌+◌, List, [], ◌∷◌, if◌then◌else◌}
use ldacs_mcsotdma.Prelude.Maps.{Entry}
use ldacs_mcsotdma.MovingAverage.{MovingAverage, Quotient, get}
use ldacs_mcsotdma.DutyCycle.{Numbers, Double}
use ldacs_mcsotdma.NeighborObserver.{NeighborObserver}

module _ ⦃numbers : Numbers⦄ where
  -- What `MovingAverage::get` returns.
  abbrev pub to_double : Quotient → Double
  to_double q = numbers.divide (numbers.of_nat q.numerator) (numbers.of_nat q.denominator)

  -- The sum of the averages above 0, and their number.
  unfoldable pub sum_delays : Double → ℕ → List (Entry MovingAverage) → Double × ℕ
  unfolding get
  sum_delays avg i [] = (avg, i)
  sum_delays avg i (e ∷ es) =
      let counted = sum_delays (numbers.add avg (to_double (get e.value))) (i + 1) es in
      let skipped = sum_delays avg i es in
      if numbers.is_less (numbers.of_nat 0) (to_double (get e.value)) then counted else skipped

  -- `getAvgBeaconDelay`: with no average above 0, 0 is divided by 0.
  unfoldable pub get_avg_beacon_delay : NeighborObserver → Double
  unfolding sum_delays
  get_avg_beacon_delay o =
      let (avg, i) = sum_delays (numbers.of_nat 0) 0 o.avg_last_seen in
      numbers.divide avg (numbers.of_nat i)

  abbrev pub get_avg_first_neighbor_beacon_delay : NeighborObserver → Double
  get_avg_first_neighbor_beacon_delay o = to_double (get o.first_neighbor_avg_last_seen)
