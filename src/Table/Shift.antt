-- ===== src/Table/Shift.antt =====
-- `update` moves the table on in time; the other methods here copy reservations between tables.
use ldacs_mcsotdma.Prelude.{
  ℕ, zero, suc, ◌+◌, ◌%◌, ◌&&◌, ◌==◌, List, [], ◌∷◌, ◌++◌, pos, u64_mod, drop, length, ltb,
  replicate, if◌then◌else◌,
}
use ldacs_mcsotdma.Prelude.Result.{Result, ok, err, ◌>>=◌, invalid_argument, out_of_range}
use ldacs_mcsotdma.Reservation.{Reservation, MacId, MacIds, unreserved, is_idle, is_any_tx}
use ldacs_mcsotdma.Table.{Table, TableId, table, get_reservation}
use ldacs_mcsotdma.Table.State.{M, store}

-- `for (size_t t = 0; t < num_slots; t++) if (!getReservation(t).isIdle()) num_busy_slots++;`
unfoldable pub count_busy : Table → ℕ → ℕ → Result ℕ
count_busy t zero offset = ok 0
count_busy t (suc rounds) offset =
    let rest = count_busy t rounds (offset + 1) in
    get_reservation t (pos offset) >>= λ r. rest >>= λ n. ok (if is_idle r then n else n + 1)

-- `std::move` to the front, then the loop from the back that fills in the default.
abbrev pub shift : ℕ → Reservation → List Reservation → List Reservation
shift n default slots = drop n slots ++ replicate n default

unfoldable pub updated : Table → ℕ → Result Table
unfolding count_busy
updated t num_slots = do
  busy ← count_busy t num_slots 0
  ok (record t {
    num_idle_future_slots = (t.num_idle_future_slots + busy) % u64_mod;
    slot_utilization_vec = shift num_slots t.default_reservation t.slot_utilization_vec;
    last_updated = t.last_updated + num_slots;
  })

abbrev pub put_result : TableId → Result Table → M (Unit {0})
put_result i (ok t) h = (ok tt, store i t h)
put_result i (err e) h = (err e, h)

-- `ReservationTable::update`: the exception of the count leaves the table as it was.
unfoldable pub update : TableId → ℕ → M (Unit {0})
unfolding updated
update i num_slots h = put_result i (updated (h.tables i) num_slots) h

-- The loop of `getTxReservations`: the copy starts with unreserved slots.
unfoldable pub keep_tx : ⦃ids : MacIds⦄ → MacId → List Reservation → List Reservation
keep_tx id [] = []
keep_tx id (r ∷ rs) = (if (r.target == id) && is_any_tx r then r else unreserved) ∷ keep_tx id rs

unfoldable pub get_tx_reservations : ⦃ids : MacIds⦄ → Table → MacId → Result Table
unfolding keep_tx table
get_tx_reservations t id = do
  copy ← table t.planning_horizon
  ok (record copy { slot_utilization_vec = keep_tx id t.slot_utilization_vec })

-- The loop of `integrateTxReservations`; it ends early where `other`'s vector does.
unfoldable pub overlay_tx : List Reservation → List Reservation → List Reservation
overlay_tx (r ∷ rs) (o ∷ os) = (if is_any_tx o then o else r) ∷ overlay_tx rs os
overlay_tx rs [] = rs
overlay_tx [] os = []

-- A shorter `other` makes `at` throw, after the slots before are written.
unfoldable pub integrate_tx_reservations : TableId → Table → M (Unit {0})
unfolding overlay_tx
integrate_tx_reservations i other h =
    if other.planning_horizon == this.planning_horizon
    then (
      if ltb (length other.slot_utilization_vec) (length this.slot_utilization_vec)
          then err out_of_range
          else ok tt,
      store i
          (record this {
            slot_utilization_vec = overlay_tx this.slot_utilization_vec other.slot_utilization_vec;
          })
          h,
    )
    else (err invalid_argument, h)
  where
    this : Table
    this = h.tables i
