-- ===== src/Table/Counter.antt =====
-- The counter of idle slots after a slot is written, current, future or past.
use ldacs_mcsotdma.Prelude.{
  ℕ, zero, suc, ◌<◌, ◌≡◌, ◌≢◌, refl, sym, ap, ◌∙◌, Bool, true, false, List, [], ◌∷◌, ℤ, pos, negsuc,
  arith, set, drop,
}
use ldacs_mcsotdma.Prelude.Result.{ok}
use ldacs_mcsotdma.Reservation.{Reservation, is_idle}
use ldacs_mcsotdma.Table.{Table, is_valid, convert_offset_to_index, get_reservation}
use ldacs_mcsotdma.Table.Mark.{write, count_idle_change}
use ldacs_mcsotdma.Table.Index.{IsWellFormed, convert_lem}
use ldacs_mcsotdma.Table.Idle.{count_idle, future, IsCounted, future_bound, write-IsCounted}

-- Of a current or future slot the counter stays right; of a past one only where the slot is as idle
-- as before.
abbrev pub CountsWrite : ℤ → Reservation → Reservation → Table → Type 0
CountsWrite (pos n) current r t = IsCounted (write (pos n) current r t)
CountsWrite (negsuc n) current r t =
    (count_idle (future (write (negsuc n) current r t)) ≡ count_idle (future t))
    × (is_idle current ≡ is_idle r → IsCounted (write (negsuc n) current r t))
    × (is_idle current ≢ is_idle r → ¬ IsCounted (write (negsuc n) current r t))

drop-set_before :
    (n : ℕ) (xs : List Reservation) (i : ℕ) (r : Reservation)
    → i < n
    → drop n (set xs i r) ≡ drop n xs
drop-set_before zero xs i r lt = absurd (omega (arith, lt))
drop-set_before (suc n) [] i r lt = refl
drop-set_before (suc n) (x ∷ xs) zero r lt = refl
drop-set_before (suc n) (x ∷ xs) (suc i) r lt = drop-set_before n xs i r (omega (arith, lt))

no_change : (a b : Bool) (n : ℕ) → a ≡ b → count_idle_change a b n ≡ n
no_change true true n e = refl
no_change false false n e = refl
no_change true false n e = cc e
no_change false true n e = cc e

some_change : (a b : Bool) (n : ℕ) → n < 2147483649 → a ≢ b → count_idle_change a b n ≢ n
some_change true true n lt ne e = absurd (ne refl)
some_change false false n lt ne e = absurd (ne refl)
some_change true false n lt ne e = omega (arith, e, lt)
some_change false true n lt ne e = omega (arith, e, lt)

-- The write of `mark` on a well-formed table whose counter of idle slots is the number of idle slots
-- from the current one on: at a valid current or future offset, the counter is that number again; at
-- a valid past offset, that number stays as it is, and the counter is it afterwards exactly if the
-- slot is as idle as before.
pub write_counts :
    (z : ℤ) (t : Table) (current r : Reservation)
    → IsWellFormed t
    → is_valid t z ≡ true
    → get_reservation t z ≡ ok current
    → IsCounted t
    → CountsWrite z current r t
write_counts (pos n) t current r w v e c = write-IsCounted t n current r w v e c
write_counts (negsuc n) t current r w v e c = (
  kept,
  λ same. no_change (is_idle current) (is_idle r) t.num_idle_future_slots same ∙ c ∙ sym kept,
  λ ne counted.
      some_change (is_idle current) (is_idle r) t.num_idle_future_slots
        (omega (arith, future_bound t w, w.short, c)) ne (counted ∙ kept ∙ sym c),
)
  where
    kept : count_idle (future (write (negsuc n) current r t)) ≡ count_idle (future t)
    kept = ap count_idle (
        drop-set_before t.planning_horizon t.slot_utilization_vec
          (convert_offset_to_index t (negsuc n)) r
          (omega (arith, convert_lem t (negsuc n) w.short v)))
