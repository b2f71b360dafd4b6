-- ===== src/Table/Query.antt =====
-- The `const` methods of ReservationTable that read slots.
use ldacs_mcsotdma.Prelude.{
  ℕ, zero, suc, ◌+◌, ◌-◌, Bool, true, false, not, ◌&&◌, ◌||◌, List, [], ◌∷◌, ℤ, pos, ◌+ℤ◌, pos_part,
  to_u32, to_i32, ◌==◌, if◌then◌else◌,
}
use ldacs_mcsotdma.Prelude.Result.{Result, ok, err, guard, ◌>>=◌, invalid_argument, runtime_error}
use ldacs_mcsotdma.Reservation.{
  Reservation, MacId, is_idle, is_locked, is_any_tx, is_any_rx, res_eq,
}
use ldacs_mcsotdma.Table.{Table, TableId, Heap, is_valid, is_valid_range, get_reservation}

-- Each of the four single-slot tests checks the offset, then reads the slot.
abbrev pub test_slot : (Reservation → Bool) → Table → ℤ → Result Bool
test_slot p t slot_offset = do
  _ ← guard (is_valid t slot_offset) invalid_argument
  r ← get_reservation t slot_offset
  ok (p r)

unfoldable pub is_utilized : Table → ℤ → Result Bool
is_utilized t slot_offset = test_slot (λ r. not (is_idle r)) t slot_offset

unfoldable pub is_slot_locked : Table → ℤ → Result Bool
is_slot_locked t slot_offset = test_slot is_locked t slot_offset

unfoldable pub any_tx_reservation : Table → ℤ → Result Bool
any_tx_reservation t slot_offset = test_slot is_any_tx t slot_offset

unfoldable pub any_rx_reservation : Table → ℤ → Result Bool
any_rx_reservation t slot_offset = test_slot is_any_rx t slot_offset

-- `isIdle(int32_t)`
unfoldable pub is_slot_idle : Table → ℤ → Result Bool
unfolding is_utilized
is_slot_idle t slot_offset = do utilized ← is_utilized t slot_offset; ok (not utilized)

-- `for (slot = start; slot < start + int32_t(length); slot++) if (test(slot)) return true;`
unfoldable pub any_slot : (Table → ℤ → Result Bool) → Table → ℕ → ℤ → Result Bool
any_slot test t zero slot = ok false
any_slot test t (suc rounds) slot =
    let rest = any_slot test t rounds (slot +ℤ pos 1) in
    test t slot >>= λ hit. if hit then ok true else rest

abbrev pub any_in_range : (Table → ℤ → Result Bool) → Table → ℤ → ℕ → Result Bool
any_in_range test t start length = do
  _ ← guard (is_valid_range t start length) invalid_argument
  any_slot test t (pos_part (to_i32 length)) start

unfoldable pub any_tx_reservations : Table → ℤ → ℕ → Result Bool
unfolding any_tx_reservation any_slot
any_tx_reservations t start length =
    if length == 1
    then any_tx_reservation t start
    else any_in_range any_tx_reservation t start length

unfoldable pub any_rx_reservations : Table → ℤ → ℕ → Result Bool
unfolding any_rx_reservation any_slot
any_rx_reservations t start length =
    if length == 1
    then any_rx_reservation t start
    else any_in_range any_rx_reservation t start length

-- `isIdle(int32_t, uint32_t)`
unfoldable pub is_range_idle : Table → ℤ → ℕ → Result Bool
unfolding is_slot_idle is_utilized any_slot
is_range_idle t start length =
    if length == 1
    then is_slot_idle t start
    else do busy ← any_in_range is_utilized t start length; ok (not busy)

unfoldable pub is_range_utilized : Table → ℤ → ℕ → Result Bool
unfolding is_range_idle
is_range_utilized t start length = do idle ← is_range_idle t start length; ok (not idle)

-- `canLock(unsigned int)`: no check of the offset but that of the vector.
unfoldable pub can_lock : Table → ℕ → Result Bool
can_lock t slot_offset = do
  r ← get_reservation t (to_i32 slot_offset)
  ok (is_idle r || is_locked r)

-- `std::any_of` over the tables that pointers lead to: it stops at the first that passes.
unfoldable pub any_table : (Table → Result Bool) → Heap → List TableId → Result Bool
any_table test h [] = ok false
any_table test h (i ∷ is) =
    let rest = any_table test h is in test (h.tables i) >>= λ hit. if hit then ok true else rest

-- The loop of `findEarliestOffset`, with the number of rounds left.
unfoldable pub find_offset_from : Table → Reservation → ℕ → ℕ → Result ℤ
find_offset_from t reservation zero i = err runtime_error
find_offset_from t reservation (suc rounds) i =
    let rest = find_offset_from t reservation rounds (i + 1) in
    get_reservation t (to_i32 i) >>= λ r. if res_eq reservation r then ok (to_i32 i) else rest

unfoldable pub find_earliest_offset : Table → ℤ → Reservation → Result ℤ
unfolding find_offset_from
find_earliest_offset t start_offset reservation =
    let i = to_u32 start_offset in find_offset_from t reservation (t.planning_horizon - i) i

-- `countReservedTxSlots`
unfoldable pub count_tx : MacId → List Reservation → ℕ
count_tx id [] = 0
count_tx id (r ∷ rs) = (if (r.target == id) && is_any_tx r then 1 else 0) + count_tx id rs

unfoldable pub count_reserved_tx_slots : Table → MacId → ℕ
unfolding count_tx
count_reserved_tx_slots t id = count_tx id t.slot_utilization_vec

-- `operator==`: the horizons and the slots, one by one.
unfoldable pub slots_eq : List Reservation → List Reservation → Bool
slots_eq [] [] = true
slots_eq (r ∷ rs) (s ∷ ss) = res_eq r s && slots_eq rs ss
slots_eq _ _ = false

unfoldable pub table_eq : Table → Table → Bool
unfolding slots_eq
table_eq t other =
    (other.planning_horizon == t.planning_horizon)
    && slots_eq t.slot_utilization_vec other.slot_utilization_vec
