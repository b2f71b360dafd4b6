-- ===== src/Table/Granted.antt =====
-- A slot that is free in a table and at its hardware can be marked there.
use ldacs_mcsotdma.Prelude.{
  ℕ, suc, ◌≡◌, refl, ap, ◌∙◌, inl, inr, Bool, true, false, ◌||◌, List, [], ◌∷◌, ℤ, All, All-mono,
  Bool-cases,
}
use ldacs_mcsotdma.Prelude.Result.{Result, ok}
use ldacs_mcsotdma.Reservation.{MacId, Reservation, reserve, tx, rx, is_idle, is_locked, res_eq}
use ldacs_mcsotdma.Table.{Table, TableId, Heap}
use ldacs_mcsotdma.Table.Index.{get_reservation-valid}
use ldacs_mcsotdma.Table.Query.{any_table}
use ldacs_mcsotdma.Table.Mark.{
  mark, idle_or_locked, transmitter_has_capacity, receiver_has_capacity,
}
use ldacs_mcsotdma.Table.Marked.{IsLeaf}
use ldacs_mcsotdma.Table.Free.{Any, IsFree, CanSend, CanListen}
use ldacs_mcsotdma.Table.Atomic.{
  IsReady, IsGranted, idle_or_locked_lem, changed, res_eq→eq, unchanged_IsMarked,
}

-- A test that passes for one table and throws for none finds it.
pub any_table_hit :
    (test : Table → Result Bool) (h : Heap) (ks : List TableId)
    → All (λ k. (b : Bool) × (test (h.tables k) ≡ ok b)) ks
    → Any (λ k. test (h.tables k) ≡ ok true) ks
    → any_table test h ks ≡ ok true
unfolding any_table
any_table_hit test h [] total found = absurd found
any_table_hit test h (k ∷ ks) total (inl here) = rw here refl
any_table_hit test h (k ∷ ks) ((true, e), total) (inr rest) = rw e refl
any_table_hit test h (k ∷ ks) ((false, e), total) (inr rest) =
    rw e (any_table_hit test h ks total rest)

pub Any-map :
    {P Q : TableId → Type 0} (R : TableId → Type 0) (ks : List TableId)
    → ((k : TableId) → R k → P k → Q k)
    → All R ks
    → Any P ks
    → Any Q ks
Any-map R [] f all found = absurd found
Any-map R (k ∷ ks) f all (inl here) = inl (f k all.0 here)
Any-map R (k ∷ ks) f all (inr rest) = inr (Any-map R ks f all.1 rest)

idle_or_locked_total : (z : ℤ) (t : Table) → IsLeaf z t → (b : Bool) × (idle_or_locked z t ≡ ok b)
idle_or_locked_total z t leaf =
    let (c, e) = get_reservation-valid t z leaf.well_formed leaf.valid in
    (is_idle c || is_locked c, idle_or_locked_lem z t c leaf.valid e)

idle_or_locked_free : (z : ℤ) (t : Table) → IsLeaf z t → IsFree t z → idle_or_locked z t ≡ ok true
idle_or_locked_free z t leaf (c, e, idle) =
    idle_or_locked_lem z t c leaf.valid e ∙ ap (λ b. ok (b || is_locked c)) idle

mark-IsGranted :
    (depth : ℕ) (z : ℤ) (i : TableId) (r : Reservation) (h : Heap)
    → IsReady z i h
    → transmitter_has_capacity h i z r ≡ ok true
    → receiver_has_capacity h i z r ≡ ok true
    → IsGranted z i r h (mark (suc (suc depth)) i z r h)
unfolding mark
mark-IsGranted depth z i r h ready sends listens =
    let (c, e) = get_reservation-valid (h.tables i) z ready.well_formed ready.valid in
    elim (Bool-cases (res_eq c r)) [
      | inl same ↦
          rw (ready.valid, e, same) (_, refl, unchanged_IsMarked z i r c h e (res_eq→eq c r same))
      | inr new ↦ rw (ready.valid, e, new) (changed depth z i r c h ready sends listens)
    ]

pub CanSend-IsGranted :
    (depth : ℕ) (z : ℤ) (i : TableId) (target : MacId) (h : Heap)
    → IsReady z i h
    → CanSend h i z
    → IsGranted z i (reserve target tx) h (mark (suc (suc depth)) i z (reserve target tx) h)
unfolding transmitter_has_capacity receiver_has_capacity
CanSend-IsGranted depth z i target h ready (here, (j, linked, free)) =
    mark-IsGranted depth z i (reserve target tx) h ready
      (rw linked (idle_or_locked_free z (h.tables j) (ready.transmitter j linked) free)) refl

free_capacity :
    (z : ℤ) (i : TableId) (target : MacId) (h : Heap) (ks : List TableId)
    → (h.tables i).receiver_reservation_tables ≡ ks
    → All (λ k. IsLeaf z (h.tables k)) ks
    → Any (λ k. IsFree (h.tables k) z) ks
    → receiver_has_capacity h i z (reserve target rx) ≡ ok true
unfolding receiver_has_capacity
free_capacity z i target h [] e leaves free = absurd free
free_capacity z i target h (k ∷ ks) e leaves free = rw e (
    any_table_hit (idle_or_locked z) h (k ∷ ks)
      (All-mono (k ∷ ks) (λ j leaf. idle_or_locked_total z (h.tables j) leaf) leaves)
      (Any-map _ (k ∷ ks) (λ j leaf f. idle_or_locked_free z (h.tables j) leaf f) leaves free))

pub CanListen-IsGranted :
    (depth : ℕ) (z : ℤ) (i : TableId) (target : MacId) (h : Heap)
    → IsReady z i h
    → CanListen h i z
    → IsGranted z i (reserve target rx) h (mark (suc (suc depth)) i z (reserve target rx) h)
unfolding transmitter_has_capacity
CanListen-IsGranted depth z i target h ready (here, free) =
    mark-IsGranted depth z i (reserve target rx) h ready refl
      (free_capacity z i target h _ refl ready.receivers free)
