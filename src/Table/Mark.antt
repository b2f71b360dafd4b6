-- ===== src/Table/Mark.antt =====
-- `ReservationTable::mark`: it writes one slot, keeps the count of idle slots, and forwards what
-- concerns the hardware to the linked tables. A linked table's own links make the call recur: it
-- takes a depth, and `too_deep` stands for a recursion through more links than that.
use ldacs_mcsotdma.Prelude.{
  ℕ, zero, suc, ◌+◌, ◌-◌, ◌%◌, Bool, true, false, not, ◌&&◌, ◌||◌, List, [], ◌∷◌, none, some, ℤ,
  u64_mod, if◌then◌else◌,
}
use ldacs_mcsotdma.Prelude.Result.{
  Result, ok, err, invalid_argument, no_tx_available, no_rx_available, too_deep,
}
use ldacs_mcsotdma.Prelude.Result
use ldacs_mcsotdma.Reservation.{Reservation, is_idle, is_any_tx, is_any_rx, res_eq}
use ldacs_mcsotdma.Table.{Table, TableId, Heap, is_valid, convert_offset_to_index, get_reservation}
use ldacs_mcsotdma.Table.State.{M, pure, throw, ◌>>=◌, ◌>>◌, reads, guard, modify, put_slot}
use ldacs_mcsotdma.Table.Query.{is_slot_idle, is_slot_locked, any_table}

-- `table->isIdle(slot_offset) || table->isLocked(slot_offset)`
unfoldable pub idle_or_locked : ℤ → Table → Result Bool
unfolding is_slot_idle is_slot_locked
idle_or_locked slot_offset t =
    Result.◌>>=◌ (is_slot_idle t slot_offset)
      (λ idle. if idle then ok true else is_slot_locked t slot_offset)

-- Whether the linked transmitter can take the reservation; with none linked it always can.
unfoldable pub transmitter_has_capacity : Heap → TableId → ℤ → Reservation → Result Bool
unfolding idle_or_locked
transmitter_has_capacity h i slot_offset r =
    if is_any_tx r
    then elim (h.tables i).transmitter_reservation_table [
      | none ↦ ok true
      | some tx_table ↦ idle_or_locked slot_offset (h.tables tx_table)
    ]
    else ok true

-- Whether one of the linked receivers can take it.
unfoldable pub receiver_has_capacity : Heap → TableId → ℤ → Reservation → Result Bool
unfolding idle_or_locked any_table
receiver_has_capacity h i slot_offset r =
    if is_any_rx r
    then elim (h.tables i).receiver_reservation_tables [
      | [] ↦ ok true
      | j ∷ js ↦ any_table (idle_or_locked slot_offset) h (j ∷ js)
    ]
    else ok true

-- The number of idle slots is a `uint64_t`.
abbrev pub count_idle_change : Bool → Bool → ℕ → ℕ
count_idle_change true false n = (n + (u64_mod - 1)) % u64_mod
count_idle_change false true n = (n + 1) % u64_mod
count_idle_change _ _ n = n

-- The local write: the slot, and the count.
abbrev pub write : ℤ → Reservation → Reservation → Table → Table
write slot_offset current r t = record (put_slot slot_offset r t) {
  num_idle_future_slots = count_idle_change (is_idle current) (is_idle r) t.num_idle_future_slots;
}

abbrev pub Recur : Type 0
Recur = TableId → ℤ → Reservation → M ℕ

unfoldable pub forward_tx : Recur → TableId → ℤ → Reservation → Reservation → M (Unit {0})
forward_tx mark i slot_offset current r h = elim (h.tables i).transmitter_reservation_table [
  | none ↦ (ok tt, h)
  | some tx_table ↦
      (if is_any_tx r || (not (is_idle current) && (is_idle r && is_any_tx current))
          then (mark tx_table slot_offset r >> pure tt)
          else pure tt)
        h
]

-- The loop over the receivers: the first whose slot is idle is marked, then it ends.
unfoldable pub mark_first_idle : Recur → List TableId → ℤ → Reservation → M (Unit {0})
mark_first_idle mark [] slot_offset r = pure tt
mark_first_idle mark (j ∷ js) slot_offset r = do
  let rest = mark_first_idle mark js slot_offset r
  there ← reads (λ h. get_reservation (h.tables j) slot_offset)
  if is_idle there then (mark j slot_offset r >> pure tt) else rest

unfoldable pub forward_rx : Recur → TableId → ℤ → Reservation → Reservation → M (Unit {0})
unfolding mark_first_idle
forward_rx mark i slot_offset current r h =
    (if is_any_rx r || (not (is_idle current) && (is_idle r && is_any_rx current))
        then mark_first_idle mark (h.tables i).receiver_reservation_tables slot_offset r
        else pure tt)
      h

-- What follows once the slot is known to hold something else.
unfoldable pub mark_changed : Recur → TableId → ℤ → Reservation → Reservation → M ℕ
unfolding transmitter_has_capacity receiver_has_capacity forward_tx forward_rx
mark_changed mark i slot_offset current r = do
  tx_free ← reads (λ h. transmitter_has_capacity h i slot_offset r)
  guard tx_free no_tx_available
  rx_free ← reads (λ h. receiver_has_capacity h i slot_offset r)
  guard rx_free no_rx_available
  modify i (write slot_offset current r)
  forward_tx mark i slot_offset current r
  forward_rx mark i slot_offset current r
  reads (λ h. ok (convert_offset_to_index (h.tables i) slot_offset))

unfoldable pub mark_step : Recur → Recur
unfolding mark_changed
mark_step mark i slot_offset r = do
  valid ← reads (λ h. ok (is_valid (h.tables i) slot_offset))
  guard valid invalid_argument
  current ← reads (λ h. get_reservation (h.tables i) slot_offset)
  if res_eq current r
      then reads (λ h. ok (convert_offset_to_index (h.tables i) slot_offset))
      else mark_changed mark i slot_offset current r

-- The result is the index of the slot that the returned pointer leads to.
unfoldable pub mark : ℕ → Recur
unfolding mark_step
mark zero i slot_offset r = throw too_deep
mark (suc depth) i slot_offset r = mark_step (mark depth) i slot_offset r
