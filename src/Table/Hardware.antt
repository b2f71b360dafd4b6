-- ===== src/Table/Hardware.antt =====
-- What reaches the linked transmitter and the linked receivers.
use ldacs_mcsotdma.Prelude.{
  ℕ, suc, ◌≡◌, ◌≢◌, refl, sym, ap, subst, ◌∙◌, Bool, true, false, inl, inr, ◌⊎◌, none, some, List,
  [], ◌∷◌, ℤ, arith, Bool-cases, All, ◌||◌, ◌&&◌, not, Option-cases,
}
use ldacs_mcsotdma.Prelude.Result.{Result, ok, err, no_tx_available}
use ldacs_mcsotdma.Reservation.{Reservation, is_idle, is_locked, is_any_tx, is_any_rx, res_eq}
use ldacs_mcsotdma.Table.{Table, TableId, Heap, convert_offset_to_index, get_reservation}
use ldacs_mcsotdma.Table.State.{store}
use ldacs_mcsotdma.Table.Mark.{
  Recur, mark, mark_changed, write, transmitter_has_capacity, receiver_has_capacity, forward_tx,
  forward_rx, mark_first_idle,
}
use ldacs_mcsotdma.Table.Marked.{
  IsLeaf, marked, mark-leaf, mark_changed_steps, store_self, store_other,
}
use ldacs_mcsotdma.Table.Forwarding.{marked_other, All-apart}
use ldacs_mcsotdma.Table.Index.{get_reservation-put_slot_self}
use ldacs_mcsotdma.Table.Atomic.{res_eq→eq, IsReady, idle_or_locked_lem}

-- A reservation that is no reception finds the receivers' capacity without a question.
rx_capacity_free :
    (h : Heap) (i : TableId) (offset : ℤ) (r : Reservation)
    → is_any_rx r ≡ false
    → receiver_has_capacity h i offset r ≡ ok true
unfolding receiver_has_capacity
rx_capacity_free h i offset r e = rw e

tx_capacity_free :
    (h : Heap) (i : TableId) (offset : ℤ) (r : Reservation)
    → is_any_tx r ≡ false
    → transmitter_has_capacity h i offset r ≡ ok true
unfolding transmitter_has_capacity
tx_capacity_free h i offset r e = rw e

and_false : (b : Bool) → (b && false) ≡ false
and_false true = refl
and_false false = refl

tx_excludes : (r : Reservation) → is_any_tx r ≡ true → (is_any_rx r ≡ false) × (is_idle r ≡ false)
tx_excludes r e = ground arith

marked_holds :
    (j : TableId) (offset : ℤ) (there r : Reservation) (h : Heap)
    → IsLeaf offset (h.tables j)
    → get_reservation (h.tables j) offset ≡ ok there
    → get_reservation ((marked j offset there r h).tables j) offset ≡ ok r
marked_holds j offset there r h leaf e = elim (Bool-cases (res_eq there r)) [
  | inl same ↦ rw same (e ∙ ap ok (res_eq→eq there r same))
  | inr new ↦ rw new (
      ap (λ (t : Table). get_reservation t offset) (store_self j _ h)
      ∙ get_reservation-put_slot_self (h.tables j) offset r leaf.well_formed leaf.valid)
]

module _ (depth : ℕ) (offset : ℤ) (i j : TableId) (r current there : Reservation) (h : Heap)
    (ready : IsReady offset i h) (linked : (h.tables i).transmitter_reservation_table ≡ some j)
    (here : get_reservation (h.tables i) offset ≡ ok current)
    (at_transmitter : get_reservation (h.tables j) offset ≡ ok there) (sends : is_any_tx r ≡ true)
    (new : res_eq current r ≡ false) where
  local : Heap
  local = store i (write offset current r (h.tables i)) h

  leaf : IsLeaf offset (h.tables j)
  leaf = ready.transmitter j linked

  apart : j ≢ i
  apart same =
      cc (subst (λ k. (h.tables k).transmitter_reservation_table ≡ none) same leaf.no_transmitter)

  untouched : local.tables j ≡ h.tables j
  unfolding local
  untouched = store_other i j _ h apart

  self : local.tables i ≡ write offset current r (h.tables i)
  unfolding local
  self = store_self i _ h

  capacity : transmitter_has_capacity h i offset r ≡ ok (is_idle there || is_locked there)
  unfolding transmitter_has_capacity
  capacity =
      rw (sends, linked, transmitter_has_capacity)
        (idle_or_locked_lem offset (h.tables j) there leaf.valid at_transmitter)

  to_tx :
      forward_tx (mark (suc depth)) i offset current r local
      ≡ (ok tt, marked j offset there r local)
  unfolding forward_tx
  to_tx =
      rw (ap (λ (t : Table). t.transmitter_reservation_table) self ∙ linked, sends, forward_tx)
        (rw (
          mark-leaf depth j offset r there local (subst (IsLeaf offset) (sym untouched) leaf)
            (ap (λ (t : Table). get_reservation t offset) untouched ∙ at_transmitter)))

  to_rx : (h' : Heap) → forward_rx (mark (suc depth)) i offset current r h' ≡ (ok tt, h')
  unfolding forward_rx
  to_rx h' =
      rw ((tx_excludes r sends).0, (tx_excludes r sends).1, and_false (not (is_idle current)))

  -- With capacity the transmitter's slot is marked too; `local` has the local write.
  forwarded :
      is_idle there || is_locked there ≡ true
      → mark (suc (suc depth)) i offset r h ≡ (
        ok (convert_offset_to_index ((marked j offset there r local).tables i) offset),
        marked j offset there r local,
      )
  unfolding mark local
  forwarded free =
      rw (ready.valid, here, new)
        (mark_changed_steps (mark (suc depth)) i offset r current h _ _ (capacity ∙ ap ok free)
          (rx_capacity_free h i offset r (tx_excludes r sends).0) to_tx (to_rx _))

  refused :
      is_idle there || is_locked there ≡ false
      → mark (suc (suc depth)) i offset r h ≡ (err no_tx_available, h)
  unfolding mark mark_changed
  refused busy = rw (ready.valid, here, new) (rw (capacity ∙ ap ok busy))

  -- A new transmission or beacon transmission of a table that is ready at the offset, with a
  -- linked transmitter: if the transmitter's slot is idle or locked, both slots hold the
  -- reservation afterwards; otherwise `no_tx_available` is thrown and nothing has changed.
  pub mark_transmission :
      let outcome = mark (suc (suc depth)) i offset r h in
      ((is_idle there || is_locked there ≡ true)
        × (get_reservation (outcome.1.tables i) offset ≡ ok r)
        × (get_reservation (outcome.1.tables j) offset ≡ ok r))
      ⊎ ((is_idle there || is_locked there ≡ false) × (outcome ≡ (err no_tx_available, h)))
  mark_transmission = elim (Bool-cases (is_idle there || is_locked there)) [
    | inl free ↦ rw (forwarded free) (
        inl (
          free,
          ap (λ (t : Table). get_reservation t offset)
                (marked_other j i offset there r local (λ same. apart (sym same)) ∙ self)
              ∙ get_reservation-put_slot_self (h.tables i) offset r ready.well_formed ready.valid,
          marked_holds j offset there r local (subst (IsLeaf offset) (sym untouched) leaf)
              (ap (λ (t : Table). get_reservation t offset) untouched ∙ at_transmitter),
        ))
    | inr busy ↦ inr (busy, refused busy)
  ]

-- The loop over the receivers passes over each whose slot is taken.
skips :
    (recur : Recur) (offset : ℤ) (r : Reservation) (h : Heap) (ks : List TableId)
    → All
        (λ k.
          (c : Reservation) × (get_reservation (h.tables k) offset ≡ ok c) × (is_idle c ≡ false))
        ks
    → mark_first_idle recur ks offset r h ≡ (ok tt, h)
unfolding mark_first_idle
skips recur offset r h [] a = refl
skips recur offset r h (k ∷ ks) a = rw (a.0.1, a.0.2) (skips recur offset r h ks a.1)

abbrev pub IsTaken : ℤ → Table → Type 0
IsTaken offset t = (c : Reservation) × (get_reservation t offset ≡ ok c) × (is_idle c ≡ false)

IsTaken-after :
    (i : TableId) (t : Table) (offset : ℤ) (h : Heap) (ks : List TableId)
    → All (λ k. IsLeaf offset (h.tables k) × (i ≢ k)) ks
    → All (λ k. IsTaken offset (h.tables k)) ks
    → All (λ k. IsTaken offset ((store i t h).tables k)) ks
IsTaken-after i t offset h [] far taken = tt
IsTaken-after i t offset h (k ∷ ks) far taken = (
  subst (IsTaken offset) (sym (store_other i k t h (λ same. far.0.1 (sym same)))) taken.0,
  IsTaken-after i t offset h ks far.1 taken.1,
)

forward_tx_silent :
    (recur : Recur) (i : TableId) (offset : ℤ) (r current : Reservation) (h : Heap)
    → is_any_tx r ≡ false
    → is_any_tx current ≡ false
    → forward_tx recur i offset current r h ≡ (ok tt, h)
unfolding forward_tx
forward_tx_silent recur i offset r current h a b =
    elim (Option-cases (h.tables i).transmitter_reservation_table) [
      | inl e ↦ rw (e, forward_tx)
      | inr (j, e) ↦
          rw (e, a, b, forward_tx) (rw (and_false (is_idle r), and_false (not (is_idle current))))
    ]

forward_rx_taken :
    (recur : Recur) (i : TableId) (offset : ℤ) (r current : Reservation) (h : Heap)
    (ks : List TableId)
    → (h.tables i).receiver_reservation_tables ≡ ks
    → All (λ k. IsTaken offset (h.tables k)) ks
    → forward_rx recur i offset current r h ≡ (ok tt, h)
unfolding forward_rx
forward_rx_taken recur i offset r current h ks e taken =
    elim (Bool-cases (is_any_rx r || (not (is_idle current) && (is_idle r && is_any_rx current)))) [
      | inl t ↦ rw (t, e) (skips recur offset r h ks taken)
      | inr f ↦ rw f
    ]

reception_facts :
    (r current : Reservation)
    → is_any_rx current ≡ true
    → is_idle r ≡ true
    → (is_any_tx r ≡ false)
      × (is_any_rx r ≡ false)
      × (res_eq current r ≡ false)
      × (is_any_tx current ≡ false)
reception_facts r current listens frees = ground arith

-- The linked receivers at the local write, where all are taken.
receivers_after :
    (offset : ℤ) (i : TableId) (t : Table) (h : Heap) (ks : List TableId)
    → (h.tables i).receiver_reservation_tables ≡ ks
    → All (λ k. IsLeaf offset (h.tables k)) ks
    → All (λ k. IsTaken offset (h.tables k)) ks
    → All (λ k. IsTaken offset ((store i t h).tables k)) ks
receivers_after offset i t h [] e leaves taken = tt
receivers_after offset i t h (k ∷ ks) e leaves taken =
    IsTaken-after i t offset h (k ∷ ks) (All-apart offset i h (k ∷ ks) (λ none'. cc) leaves) taken

-- A reception that is marked idle again stays reserved at the receivers: where every linked
-- receiver has its slot taken, the call writes the table's own slot and no other table.
pub release_keeps_receivers :
    (depth : ℕ) (offset : ℤ) (i : TableId) (r current : Reservation) (h : Heap)
    → IsReady offset i h
    → get_reservation (h.tables i) offset ≡ ok current
    → is_any_rx current ≡ true
    → is_idle r ≡ true
    → All (λ k. IsTaken offset (h.tables k)) (h.tables i).receiver_reservation_tables
    → (mark (suc (suc depth)) i offset r h).1 ≡ store i (write offset current r (h.tables i)) h
unfolding mark
release_keeps_receivers depth offset i r current h ready here listens frees taken =
    let facts = reception_facts r current listens frees in
    let local = store i (write offset current r (h.tables i)) h in
    rw (ready.valid, here, facts.2)
      (ap (λ (o : Result ℕ × Heap). o.1)
        (mark_changed_steps (mark (suc depth)) i offset r current h local local
          (tx_capacity_free h i offset r facts.0) (rx_capacity_free h i offset r facts.1)
          (forward_tx_silent (mark (suc depth)) i offset r current local facts.0 facts.3)
          (forward_rx_taken (mark (suc depth)) i offset r current local
            (h.tables i).receiver_reservation_tables
            (ap (λ (t : Table). t.receiver_reservation_tables) (store_self i _ h))
            (receivers_after offset i _ h _ refl ready.receivers taken))))
