-- ===== src/Table/Marked.antt =====
-- What `mark` does on a table whose linked hardware tables have no links of their own, which is
-- how the program sets its tables up: one level of forwarding.
use ldacs_mcsotdma.Prelude.{
  ℕ, suc, ◌≡◌, ◌≢◌, refl, ap, ◌∙◌, true, inl, inr, none, [], ℤ, arith, ◌==◌, ==_iff, if◌then◌else◌,
  Bool-cases,
}
use ldacs_mcsotdma.Prelude.Result.{ok}
use ldacs_mcsotdma.Reservation.{Reservation, is_any_tx, res_eq}
use ldacs_mcsotdma.Table.{Table, TableId, Heap, is_valid, convert_offset_to_index, get_reservation}
use ldacs_mcsotdma.Table.State.{store}
use ldacs_mcsotdma.Table.Mark.{
  Recur, mark, mark_changed, write, transmitter_has_capacity, receiver_has_capacity, forward_tx,
  forward_rx,
}
use ldacs_mcsotdma.Table.Index.{IsWellFormed}

-- A table that forwards nothing, at an offset that it has.
pub record IsLeaf (offset : ℤ) (t : Table) : Type 0 where
  pub well_formed : IsWellFormed t
  pub valid : is_valid t offset ≡ true
  pub no_transmitter : t.transmitter_reservation_table ≡ none
  pub no_receivers : t.receiver_reservation_tables ≡ []

-- The heap after a table without links is marked; `current` is what its slot held.
abbrev pub marked : TableId → ℤ → Reservation → Reservation → Heap → Heap
marked i offset current r h =
    if res_eq current r then h else store i (write offset current r (h.tables i)) h

pub store_self : (i : TableId) (t : Table) (h : Heap) → (store i t h).tables i ≡ t
store_self i t h = rw ((==_iff i i).1 refl)

pub store_other :
    (i j : TableId) (t : Table) (h : Heap) → j ≢ i → (store i t h).tables j ≡ h.tables j
store_other i j t h ne = elim (Bool-cases (j == i)) [
  | inl e ↦ absurd (ne ((==_iff j i).0 e))
  | inr e ↦ rw e
]

capacity_tx-leaf :
    (h : Heap) (i : TableId) (offset : ℤ) (r : Reservation)
    → IsLeaf offset (h.tables i)
    → transmitter_has_capacity h i offset r ≡ ok true
unfolding transmitter_has_capacity
capacity_tx-leaf h i offset r leaf = elim (Bool-cases (is_any_tx r)) [
  | inl e ↦ rw (e, leaf.no_transmitter, transmitter_has_capacity)
  | inr e ↦ rw e
]

capacity_rx-leaf :
    (h : Heap) (i : TableId) (offset : ℤ) (r : Reservation)
    → IsLeaf offset (h.tables i)
    → receiver_has_capacity h i offset r ≡ ok true
unfolding receiver_has_capacity
capacity_rx-leaf h i offset r leaf = ground (arith, leaf)

-- Once both capacities are there, `mark` is the write and the two forwarding steps.
pub mark_changed_steps :
    (recur : Recur) (i : TableId) (offset : ℤ) (r current : Reservation) (h h' h'' : Heap)
    → transmitter_has_capacity h i offset r ≡ ok true
    → receiver_has_capacity h i offset r ≡ ok true
    → forward_tx recur i offset current r (store i (write offset current r (h.tables i)) h)
      ≡ (ok tt, h')
    → forward_rx recur i offset current r h' ≡ (ok tt, h'')
    → mark_changed recur i offset current r h
      ≡ (ok (convert_offset_to_index (h''.tables i) offset), h'')
unfolding mark_changed
mark_changed_steps recur i offset r current h h' h'' a b c d = rw (a, b, c, d)

pub forward_tx-none :
    (recur : Recur) (i : TableId) (offset : ℤ) (r current : Reservation) (h : Heap)
    → (h.tables i).transmitter_reservation_table ≡ none
    → forward_tx recur i offset current r h ≡ (ok tt, h)
unfolding forward_tx
forward_tx-none recur i offset r current h e = rw (e, forward_tx)

forward_rx_none :
    (recur : Recur) (i : TableId) (offset : ℤ) (r current : Reservation) (h : Heap)
    → (h.tables i).receiver_reservation_tables ≡ []
    → forward_rx recur i offset current r h ≡ (ok tt, h)
unfolding forward_rx
forward_rx_none recur i offset r current h e = ground arith

mark_changed-leaf :
    (recur : Recur) (i : TableId) (offset : ℤ) (r current : Reservation) (h : Heap)
    → IsLeaf offset (h.tables i)
    → mark_changed recur i offset current r h ≡ (
      ok (convert_offset_to_index (h.tables i) offset),
      store i (write offset current r (h.tables i)) h,
    )
mark_changed-leaf recur i offset r current h leaf =
    mark_changed_steps recur i offset r current h _ _ (capacity_tx-leaf h i offset r leaf)
      (capacity_rx-leaf h i offset r leaf)
      (forward_tx-none recur i offset r current _
        (ap (λ (t : Table). t.transmitter_reservation_table) self ∙ leaf.no_transmitter))
      (forward_rx_none recur i offset r current _
        (ap (λ (t : Table). t.receiver_reservation_tables) self ∙ leaf.no_receivers))
    ∙ ap (λ (t : Table). (ok (convert_offset_to_index t offset), store i written h)) self
  where
    written : Table
    written = write offset current r (h.tables i)

    self : (store i written h).tables i ≡ written
    self = store_self i written h

pub mark-leaf :
    (depth : ℕ) (i : TableId) (offset : ℤ) (r current : Reservation) (h : Heap)
    → IsLeaf offset (h.tables i)
    → get_reservation (h.tables i) offset ≡ ok current
    → mark (suc depth) i offset r h
      ≡ (ok (convert_offset_to_index (h.tables i) offset), marked i offset current r h)
unfolding mark
mark-leaf depth i offset r current h leaf e = elim (Bool-cases (res_eq current r)) [
  | inl same ↦ rw (leaf.valid, e, same)
  | inr new ↦ rw (leaf.valid, e, new) (mark_changed-leaf (mark depth) i offset r current h leaf)
]
