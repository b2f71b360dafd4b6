-- ===== src/Table/Atomic.antt =====
-- `mark` as a whole: all or nothing, and what the two kinds of hardware do to it.
use ldacs_mcsotdma.Prelude.{
  ℕ, suc, ◌≡◌, refl, sym, ap, subst, ◌∙◌, Bool, true, false, inl, inr, ◌⊎◌, some, List, [], ◌∷◌, ℤ,
  arith, Bool-cases, Option-cases, All, ◌||◌,
}
use ldacs_mcsotdma.Prelude.Result.{Result, ok, err, Error, no_tx_available, no_rx_available}
use ldacs_mcsotdma.Reservation.{Reservation, is_idle, is_locked, is_any_tx, is_any_rx, res_eq}
use ldacs_mcsotdma.Table.{Table, TableId, Heap, is_valid, convert_offset_to_index, get_reservation}
use ldacs_mcsotdma.Table.State.{store}
use ldacs_mcsotdma.Table.Query.{any_table}
use ldacs_mcsotdma.Table.Mark.{
  mark, mark_changed, write, idle_or_locked, transmitter_has_capacity, receiver_has_capacity,
  forward_tx, forward_rx,
}
use ldacs_mcsotdma.Table.Index.{IsWellFormed, get_reservation-valid, get_reservation-put_slot_self}
use ldacs_mcsotdma.Table.Marked.{IsLeaf, mark_changed_steps, store_self}
use ldacs_mcsotdma.Table.Forwarding.{
  SameShape-refl, IsFrame, SameShape-IsLeaf, Forwards, forward_tx-Forwards, forward_rx-Forwards,
  IsElsewhere, IsElsewhere-trans, write-IsElsewhere, IsFrame-trans, store-IsFrame, write-SameShape,
}

-- The table has a slot at the offset, and its hardware tables have one too and no links.
pub record IsReady (offset : ℤ) (i : TableId) (h : Heap) : Type 0 where
  pub well_formed : IsWellFormed (h.tables i)
  pub valid : is_valid (h.tables i) offset ≡ true
  pub transmitter :
      (j : TableId)
      → (h.tables i).transmitter_reservation_table ≡ some j
      → IsLeaf offset (h.tables j)
  pub receivers : All (λ k. IsLeaf offset (h.tables k)) (h.tables i).receiver_reservation_tables

pub idle_or_locked_lem :
    (offset : ℤ) (t : Table) (c : Reservation)
    → is_valid t offset ≡ true
    → get_reservation t offset ≡ ok c
    → idle_or_locked offset t ≡ ok (is_idle c || is_locked c)
unfolding idle_or_locked
idle_or_locked_lem offset t c v e = elim (Bool-cases (is_idle c)) [
  | inl i ↦ rw (v, e, i)
  | inr i ↦ rw (v, e, i)
]

any_table_total :
    (offset : ℤ) (h : Heap) (ks : List TableId)
    → All (λ k. IsLeaf offset (h.tables k)) ks
    → (b : Bool) × (any_table (idle_or_locked offset) h ks ≡ ok b)
unfolding any_table
any_table_total offset h [] a = (false, refl)
any_table_total offset h (k ∷ ks) a =
    let (c, e) = get_reservation-valid (h.tables k) offset a.0.well_formed a.0.valid in
    let l = idle_or_locked_lem offset (h.tables k) c a.0.valid e in
    let (b, rest) = any_table_total offset h ks a.1 in
    elim (Bool-cases (is_idle c || is_locked c)) [
      | inl t ↦ (true, rw (l, t))
      | inr f ↦ (b, rw (l, f) rest)
    ]

tx_capacity_total :
    (offset : ℤ) (i : TableId) (r : Reservation) (h : Heap)
    → IsReady offset i h
    → (b : Bool) × (transmitter_has_capacity h i offset r ≡ ok b)
unfolding transmitter_has_capacity
tx_capacity_total offset i r h ready =
    elim (Option-cases (h.tables i).transmitter_reservation_table) [
      | inl e ↦ (
        true,
        elim (Bool-cases (is_any_tx r)) [
          | inl t ↦ rw (t, e, transmitter_has_capacity)
          | inr f ↦ rw f
        ],
      )
      | inr (j, e) ↦ linked j e
    ]
  where
    linked :
        (j : TableId)
        → (h.tables i).transmitter_reservation_table ≡ some j
        → (b : Bool) × (transmitter_has_capacity h i offset r ≡ ok b)
    linked j e =
        let leaf = ready.transmitter j e in
        let (c, there) = get_reservation-valid (h.tables j) offset leaf.well_formed leaf.valid in
        let l = idle_or_locked_lem offset (h.tables j) c leaf.valid there in
        elim (Bool-cases (is_any_tx r)) [
          | inl t ↦ (is_idle c || is_locked c, rw (t, e, transmitter_has_capacity) l)
          | inr f ↦ (true, rw f)
        ]

rx_capacity_total :
    (offset : ℤ) (i : TableId) (r : Reservation) (h : Heap) (ks : List TableId)
    → (h.tables i).receiver_reservation_tables ≡ ks
    → All (λ k. IsLeaf offset (h.tables k)) ks
    → (b : Bool) × (receiver_has_capacity h i offset r ≡ ok b)
unfolding receiver_has_capacity
rx_capacity_total offset i r h [] e a = (
  true,
  elim (Bool-cases (is_any_rx r)) [ inl t ↦ rw (t, e, receiver_has_capacity) | inr f ↦ rw f ],
)
rx_capacity_total offset i r h (k ∷ ks) e a =
    let (b, l) = any_table_total offset h (k ∷ ks) a in
    elim (Bool-cases (is_any_rx r)) [
      | inl t ↦ (b, rw (t, e, receiver_has_capacity) l)
      | inr f ↦ (true, rw f)
    ]

pub res_eq→eq : (r s : Reservation) → res_eq r s ≡ true → r ≡ s
res_eq→eq r s h = ground arith

-- What a call of `mark` that returns has done: the slot is written, and no table differs but in
-- slots at this offset and in counters.
pub record IsMarked (offset : ℤ) (i : TableId) (r : Reservation) (h h' : Heap) : Type 0 where
  pub holds : get_reservation (h'.tables i) offset ≡ ok r
  pub frame : IsFrame h h'
  pub elsewhere : IsElsewhere offset h h'

pub unchanged_IsMarked :
    (z : ℤ) (i : TableId) (r c : Reservation) (h : Heap)
    → get_reservation (h.tables i) z ≡ ok c
    → c ≡ r
    → IsMarked z i r h h
unchanged_IsMarked z i r c h e same = record {
  holds = e ∙ ap ok same;
  frame = λ k. SameShape-refl (h.tables k);
  elsewhere = λ k y v ne. refl;
}

abbrev pub IsGranted : ℤ → TableId → Reservation → Heap → Result ℕ × Heap → Type 0
IsGranted offset i r h outcome = (n : ℕ) × (outcome.0 ≡ ok n) × IsMarked offset i r h outcome.1

-- The call returns, or throws and has changed nothing.
abbrev pub AllOrNothing : ℤ → TableId → Reservation → Heap → Result ℕ × Heap → Type 0
AllOrNothing offset i r h outcome =
    IsGranted offset i r h outcome ⊎ ((e : Error) × (outcome ≡ (err e, h)))

module _ (depth : ℕ) (offset : ℤ) (i : TableId) (r current : Reservation) (h : Heap) where
  written : Heap
  written = store i (write offset current r (h.tables i)) h

  module _ (ready : IsReady offset i h) where
    IsFrame-written : IsFrame h written
    unfolding written
    IsFrame-written = store-IsFrame i _ h (write-SameShape offset current r (h.tables i))

    self_written : written.tables i ≡ write offset current r (h.tables i)
    unfolding written
    self_written = store_self i _ h

    IsLeaf-written :
        (h' : Heap)
        → IsFrame h h'
        → (k : TableId) → IsLeaf offset (h.tables k)
        → IsLeaf offset (h'.tables k)
    IsLeaf-written h' f k leaf = SameShape-IsLeaf offset (h.tables k) (h'.tables k) (f k) leaf

    All-leaves :
        (h' : Heap)
        → IsFrame h h'
        → (ks : List TableId) → All (λ k. IsLeaf offset (h.tables k)) ks
        → All (λ k. IsLeaf offset (h'.tables k)) ks
    All-leaves h' f [] a = tt
    All-leaves h' f (k ∷ ks) a = (IsLeaf-written h' f k a.0, All-leaves h' f ks a.1)

    to_tx : Forwards offset i written (forward_tx (mark (suc depth)) i offset current r written)
    to_tx = forward_tx-Forwards depth i offset r current written λ j e.
        IsLeaf-written written IsFrame-written j
          (ready.transmitter j (sym (IsFrame-written i).transmitter ∙ e))

    after_tx : Heap
    after_tx = (forward_tx (mark (suc depth)) i offset current r written).1

    to_rx : Forwards offset i after_tx (forward_rx (mark (suc depth)) i offset current r after_tx)
    unfolding after_tx
    to_rx =
        let f = IsFrame-trans h written after_tx IsFrame-written to_tx.frame in
        forward_rx-Forwards depth i offset r current after_tx
          (h.tables i).receiver_reservation_tables (f i).receivers
          (All-leaves after_tx f (h.tables i).receiver_reservation_tables ready.receivers)

    IsElsewhere-all :
        IsElsewhere offset h (forward_rx (mark (suc depth)) i offset current r after_tx).1
    unfolding written after_tx
    IsElsewhere-all =
        IsElsewhere-trans offset h after_tx
          (forward_rx (mark (suc depth)) i offset current r after_tx).1
          (IsFrame-trans h written after_tx IsFrame-written to_tx.frame)
          (IsElsewhere-trans offset h written after_tx IsFrame-written
            (write-IsElsewhere i offset current r h ready.well_formed ready.valid) to_tx.elsewhere)
          to_rx.elsewhere

    pub changed :
        transmitter_has_capacity h i offset r ≡ ok true
        → receiver_has_capacity h i offset r ≡ ok true
        → IsGranted offset i r h (mark_changed (mark (suc depth)) i offset current r h)
    unfolding after_tx written
    changed a b =
        let last = (forward_rx (mark (suc depth)) i offset current r after_tx).1 in
        let steps =
          mark_changed_steps (mark (suc depth)) i offset r current h after_tx last a b
            (λ j. (to_tx.ends j, after_tx)) (λ j. (to_rx.ends j, last)) in
        (
          convert_offset_to_index (last.tables i) offset,
          ap (λ (o : Result ℕ × Heap). o.0) steps,
          subst (IsMarked offset i r h) (sym (ap (λ (o : Result ℕ × Heap). o.1) steps)) (record {
            holds =
                ap (λ (t : Table). get_reservation t offset)
                  (to_rx.kept ∙ to_tx.kept ∙ self_written)
                ∙ get_reservation-put_slot_self (h.tables i) offset r ready.well_formed ready.valid;
            frame =
                IsFrame-trans h after_tx last
                  (IsFrame-trans h written after_tx IsFrame-written to_tx.frame) to_rx.frame;
            elsewhere = IsElsewhere-all;
          }),
        )

    changed_or_not :
        AllOrNothing offset i r h (mark_changed (mark (suc depth)) i offset current r h)
    changed_or_not =
        let (a, ca) = tx_capacity_total offset i r h ready in
        let (b, cb) = rx_capacity_total offset i r h _ refl ready.receivers in split a b ca cb
      where
        split :
            (a b : Bool)
            → transmitter_has_capacity h i offset r ≡ ok a
            → receiver_has_capacity h i offset r ≡ ok b
            → AllOrNothing offset i r h (mark_changed (mark (suc depth)) i offset current r h)
        split true true ca cb = inl (changed ca cb)
        split true false ca cb = inr (no_rx_available, unfold mark_changed in rw (ca, cb))
        split false b ca cb = inr (no_tx_available, unfold mark_changed in rw ca)

-- On a table that is ready at the offset (well-formed, with linked hardware tables that have the
-- slot and no links) `mark` either returns, its slot then holds the reservation, and no table
-- differs but in slots at this offset and in counters; or it throws, and no table has changed.
pub mark-AllOrNothing :
    (depth : ℕ) (offset : ℤ) (i : TableId) (r : Reservation) (h : Heap)
    → IsReady offset i h
    → AllOrNothing offset i r h (mark (suc (suc depth)) i offset r h)
unfolding mark
mark-AllOrNothing depth offset i r h ready =
    let (c, e) = get_reservation-valid (h.tables i) offset ready.well_formed ready.valid in
    elim (Bool-cases (res_eq c r)) [
      | inl same ↦
          rw (ready.valid, e, same)
            (inl (_, refl, unchanged_IsMarked offset i r c h e (res_eq→eq c r same)))
      | inr new ↦ rw (ready.valid, e, new) (changed_or_not depth offset i r c h ready)
    ]
