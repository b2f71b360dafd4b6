-- ===== src/Table/Lock.antt =====
-- Locks: a slot that a link proposal has named is held for one identifier until the negotiation
-- ends. `slot_offset` is an `unsigned int` that each use converts to `int32_t`.
use ldacs_mcsotdma.Prelude.{ℕ, Bool, true, false, ◌&&◌, ◌||◌, ◌==◌, to_i32, if◌then◌else◌}
use ldacs_mcsotdma.Prelude.Result.{invalid_argument, id_mismatch, cannot_lock, is_id_mismatch}
use ldacs_mcsotdma.Reservation.{MacId, MacIds, locked, reserve, unreserved}
use ldacs_mcsotdma.Table.{TableId, get_reservation}
use ldacs_mcsotdma.Table.State.{
  M, pure, throw, ◌>>=◌, ◌>>◌, reads, guard, modify, put_slot, try_catch,
}
use ldacs_mcsotdma.Table.Query.{is_slot_idle, is_slot_locked}

-- True: the slot is locked now; false: it was locked to `id` before.
unfoldable pub lock : TableId → ℕ → MacId → M Bool
unfolding is_slot_idle is_slot_locked
lock i slot_offset id = do
  res ← reads (λ h. get_reservation (h.tables i) (to_i32 slot_offset))
  held ← reads (λ h. is_slot_locked (h.tables i) (to_i32 slot_offset))
  if held && res.target == id then pure false else if held then throw id_mismatch else do
    free ← reads (λ h. is_slot_idle (h.tables i) (to_i32 slot_offset))
    guard free cannot_lock
    modify i (put_slot (to_i32 slot_offset) (reserve id locked))
    pure true

unfoldable pub lock_either_id : TableId → ℕ → MacId → MacId → M Bool
unfolding lock
lock_either_id i slot_offset id1 id2 =
    try_catch (lock i slot_offset id1) is_id_mismatch
      (try_catch (lock i slot_offset id2) is_id_mismatch (throw id_mismatch))

module _ ⦃ids : MacIds⦄ where
  unfoldable pub unlock : TableId → ℕ → MacId → M (Unit {0})
  unfolding is_slot_idle is_slot_locked
  unlock i slot_offset id = do
    held ← reads (λ h. is_slot_locked (h.tables i) (to_i32 slot_offset))
    free ← if held then pure false else reads (λ h. is_slot_idle (h.tables i) (to_i32 slot_offset))
    guard (held || free) invalid_argument
    res ← reads (λ h. get_reservation (h.tables i) (to_i32 slot_offset))
    guard ((res.target == id) || (res.target == ids.unset)) id_mismatch
    modify i (put_slot (to_i32 slot_offset) unreserved)

  unfoldable pub unlock_either_id : TableId → ℕ → MacId → MacId → M (Unit {0})
  unfolding unlock
  unlock_either_id i slot_offset id1 id2 =
      try_catch (unlock i slot_offset id1) is_id_mismatch
        (try_catch (unlock i slot_offset id2) is_id_mismatch (throw id_mismatch))
