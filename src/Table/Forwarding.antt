-- ===== src/Table/Forwarding.antt =====
-- `mark` on a table with linked hardware tables: it either changes nothing and throws, or writes
-- the slot and forwards without an exception.
use ldacs_mcsotdma.Prelude.{
  ℕ, suc, ◌≡◌, ◌≢◌, refl, sym, ap, subst, ◌∙◌, true, inl, inr, none, some, List, [], ◌∷◌, ℤ, arith,
  length, if◌then◌else◌, Bool-cases, All, length-set, ◌||◌, not,
}
use ldacs_mcsotdma.Prelude.{Option-cases, ℕ_discrete, ◌&&◌}
use ldacs_mcsotdma.Prelude.Result.{Result, ok}
use ldacs_mcsotdma.Reservation.{Reservation, is_idle, is_any_tx, is_any_rx, res_eq}
use ldacs_mcsotdma.Table.{Table, TableId, Heap, is_valid, get_reservation}
use ldacs_mcsotdma.Table.State.{store, ◌>>◌, pure}
use ldacs_mcsotdma.Table.Mark.{mark, write, forward_tx, forward_rx, mark_first_idle}
use ldacs_mcsotdma.Table.Index.{IsWellFormed, get_reservation-valid, get_reservation-put_slot_ne}
use ldacs_mcsotdma.Table.Marked.{IsLeaf, marked, mark-leaf, store_self, store_other}

-- Nothing but slots and counters differs.
pub record SameShape (t t' : Table) : Type 0 where
  pub horizon : t'.planning_horizon ≡ t.planning_horizon
  pub transmitter : t'.transmitter_reservation_table ≡ t.transmitter_reservation_table
  pub receivers : t'.receiver_reservation_tables ≡ t.receiver_reservation_tables
  pub size : length t'.slot_utilization_vec ≡ length t.slot_utilization_vec

abbrev pub IsFrame : Heap → Heap → Type 0
IsFrame h h' = (k : TableId) → SameShape (h.tables k) (h'.tables k)

pub SameShape-refl : (t : Table) → SameShape t t
SameShape-refl t = record { horizon = refl; transmitter = refl; receivers = refl; size = refl }

pub IsFrame-trans : (h h' h'' : Heap) → IsFrame h h' → IsFrame h' h'' → IsFrame h h''
IsFrame-trans h h' h'' f g k = record {
  horizon = (g k).horizon ∙ (f k).horizon;
  transmitter = (g k).transmitter ∙ (f k).transmitter;
  receivers = (g k).receivers ∙ (f k).receivers;
  size = (g k).size ∙ (f k).size;
}

pub SameShape-IsLeaf :
    (offset : ℤ) (t t' : Table) → SameShape t t' → IsLeaf offset t → IsLeaf offset t'
SameShape-IsLeaf offset t t' s leaf = record {
  well_formed = record {
    short = omega (arith, s.horizon, leaf.well_formed.short);
    sized = omega (arith, s.horizon, s.size, leaf.well_formed.sized);
  };
  valid = rw (s.horizon) leaf.valid;
  no_transmitter = s.transmitter ∙ leaf.no_transmitter;
  no_receivers = s.receivers ∙ leaf.no_receivers;
}

pub write-SameShape :
    (offset : ℤ) (current r : Reservation) (t : Table) → SameShape t (write offset current r t)
write-SameShape offset current r t = record {
  horizon = refl;
  transmitter = refl;
  receivers = refl;
  size = length-set t.slot_utilization_vec _ r;
}

pub store-IsFrame :
    (i : TableId) (t : Table) (h : Heap) → SameShape (h.tables i) t → IsFrame h (store i t h)
store-IsFrame i t h s k = elim (ℕ_discrete k i) [
  | yes e ↦
      subst (λ j. SameShape (h.tables j) ((store i t h).tables j)) (sym e)
        (subst (SameShape (h.tables i)) (sym (store_self i t h)) s)
  | no ne ↦
      subst (SameShape (h.tables k)) (sym (store_other i k t h ne)) (SameShape-refl (h.tables k))
]

-- No slot at another offset differs.
abbrev pub IsElsewhere : ℤ → Heap → Heap → Type 0
IsElsewhere offset h h' =
    (k : TableId) (z : ℤ)
    → is_valid (h.tables k) z ≡ true
    → offset ≢ z
    → get_reservation (h'.tables k) z ≡ get_reservation (h.tables k) z

pub IsElsewhere-trans :
    (offset : ℤ) (h h' h'' : Heap)
    → IsFrame h h'
    → IsElsewhere offset h h'
    → IsElsewhere offset h' h''
    → IsElsewhere offset h h''
IsElsewhere-trans offset h h' h'' f a b k z v ne = b k z (rw ((f k).horizon) v) ne ∙ a k z v ne

pub write-IsElsewhere :
    (i : TableId) (offset : ℤ) (current r : Reservation) (h : Heap)
    → IsWellFormed (h.tables i)
    → is_valid (h.tables i) offset ≡ true
    → IsElsewhere offset h (store i (write offset current r (h.tables i)) h)
write-IsElsewhere i offset current r h w valid k z v ne = elim (ℕ_discrete k i) [
  | yes e ↦
      let there : is_valid (h.tables i) z ≡ true =
        subst (λ j. is_valid (h.tables j) z ≡ true) e v in
      subst
        (λ (j : TableId).
          get_reservation ((store i (write offset current r (h.tables i)) h).tables j) z
          ≡ get_reservation (h.tables j) z)
        (sym e)
        (ap (λ (t : Table). get_reservation t z) (store_self i _ h)
          ∙ get_reservation-put_slot_ne (h.tables i) offset z r w valid there ne)
  | no other ↦ ap (λ (t : Table). get_reservation t z) (store_other i k _ h other)
]

marked-IsElsewhere :
    (i : TableId) (offset : ℤ) (current r : Reservation) (h : Heap)
    → IsWellFormed (h.tables i)
    → is_valid (h.tables i) offset ≡ true
    → IsElsewhere offset h (marked i offset current r h)
marked-IsElsewhere i offset current r h w v = elim (Bool-cases (res_eq current r)) [
  | inl e ↦ rw e (λ k z u ne. refl)
  | inr e ↦ rw e (write-IsElsewhere i offset current r h w v)
]

marked-IsFrame :
    (i : TableId) (offset : ℤ) (current r : Reservation) (h : Heap)
    → IsFrame h (marked i offset current r h)
marked-IsFrame i offset current r h = elim (Bool-cases (res_eq current r)) [
  | inl e ↦ rw e (λ k. SameShape-refl (h.tables k))
  | inr e ↦ rw e (store-IsFrame i _ h (write-SameShape offset current r (h.tables i)))
]

pub marked_other :
    (i j : TableId) (offset : ℤ) (current r : Reservation) (h : Heap)
    → j ≢ i
    → (marked i offset current r h).tables j ≡ h.tables j
marked_other i j offset current r h ne = elim (Bool-cases (res_eq current r)) [
  | inl e ↦ rw e
  | inr e ↦ rw e (store_other i j _ h ne)
]

-- A step that ends well, leaves table `i` alone and keeps the shape of the others.
pub record Forwards (offset : ℤ) (i : TableId) (h : Heap) (outcome : Result (Unit {0}) × Heap)
    : Type 0 where
  pub ends : outcome.0 ≡ ok tt
  pub frame : IsFrame h outcome.1
  pub elsewhere : IsElsewhere offset h outcome.1
  pub kept : outcome.1.tables i ≡ h.tables i

idle-Forwards : (offset : ℤ) (i : TableId) (h : Heap) → Forwards offset i h (ok tt, h)
idle-Forwards offset i h = record {
  ends = refl;
  frame = λ k. SameShape-refl (h.tables k);
  elsewhere = λ k z v ne. refl;
  kept = refl;
}

mark-Forwards :
    (depth : ℕ) (i j : TableId) (offset : ℤ) (r : Reservation) (h : Heap)
    → IsLeaf offset (h.tables j)
    → i ≢ j
    → Forwards offset i h ((mark (suc depth) j offset r >> pure tt) h)
mark-Forwards depth i j offset r h leaf ne =
    let (c, e) = get_reservation-valid (h.tables j) offset leaf.well_formed leaf.valid in
    rw (mark-leaf depth j offset r c h leaf e) (record {
      ends = refl;
      frame = marked-IsFrame j offset c r h;
      elsewhere = marked-IsElsewhere j offset c r h leaf.well_formed leaf.valid;
      kept = marked_other j i offset c r h ne;
    })

pub forward_tx-Forwards :
    (depth : ℕ) (i : TableId) (offset : ℤ) (r current : Reservation) (h : Heap)
    → ((j : TableId)
        → (h.tables i).transmitter_reservation_table ≡ some j
        → IsLeaf offset (h.tables j))
    → Forwards offset i h (forward_tx (mark (suc depth)) i offset current r h)
unfolding forward_tx
forward_tx-Forwards depth i offset r current h ready =
    elim (Option-cases (h.tables i).transmitter_reservation_table) [
      | inl e ↦ rw (e, forward_tx) (idle-Forwards offset i h)
      | inr (j, e) ↦ rw (e, forward_tx) (choose j e)
    ]
  where
    apart : (j : TableId) → (h.tables i).transmitter_reservation_table ≡ some j → i ≢ j
    apart j e same = cc (
        subst (λ k. (h.tables k).transmitter_reservation_table ≡ none) (sym same)
          (ready j e).no_transmitter)

    choose :
        (j : TableId)
        → (h.tables i).transmitter_reservation_table ≡ some j
        → Forwards offset i h (
            (if is_any_tx r || (not (is_idle current) && (is_idle r && is_any_tx current))
                then (mark (suc depth) j offset r >> pure tt)
                else pure tt)
              h)
    choose j e =
        elim (Bool-cases
          (is_any_tx r || (not (is_idle current) && (is_idle r && is_any_tx current)))) [
            | inl yes' ↦ rw yes' (mark-Forwards depth i j offset r h (ready j e) (apart j e))
            | inr no' ↦ rw no' (idle-Forwards offset i h)
          ]

mark_first_idle-Forwards :
    (depth : ℕ) (i : TableId) (offset : ℤ) (r : Reservation) (h : Heap) (ks : List TableId)
    → All (λ k. IsLeaf offset (h.tables k) × (i ≢ k)) ks
    → Forwards offset i h (mark_first_idle (mark (suc depth)) ks offset r h)
unfolding mark_first_idle
mark_first_idle-Forwards depth i offset r h [] a = idle-Forwards offset i h
mark_first_idle-Forwards depth i offset r h (k ∷ ks) a =
    let leaf = a.0.0 in
    let (c, e) = get_reservation-valid (h.tables k) offset leaf.well_formed leaf.valid in
    elim (Bool-cases (is_idle c)) [
      | inl free ↦ rw (e, free) (mark-Forwards depth i k offset r h leaf a.0.1)
      | inr busy ↦ rw (e, busy) (mark_first_idle-Forwards depth i offset r h ks a.1)
    ]

pub All-apart :
    (offset : ℤ) (i : TableId) (h : Heap) (ks : List TableId)
    → (h.tables i).receiver_reservation_tables ≢ []
    → All (λ k. IsLeaf offset (h.tables k)) ks
    → All (λ k. IsLeaf offset (h.tables k) × (i ≢ k)) ks
All-apart offset i h [] some_linked a = tt
All-apart offset i h (k ∷ ks) some_linked a = (
  (
    a.0,
    λ same.
        some_linked
          (subst (λ j. (h.tables j).receiver_reservation_tables ≡ []) (sym same) a.0.no_receivers),
  ),
  All-apart offset i h ks some_linked a.1,
)

pub forward_rx-Forwards :
    (depth : ℕ) (i : TableId) (offset : ℤ) (r current : Reservation) (h : Heap) (ks : List TableId)
    → (h.tables i).receiver_reservation_tables ≡ ks
    → All (λ k. IsLeaf offset (h.tables k)) ks
    → Forwards offset i h (forward_rx (mark (suc depth)) i offset current r h)
unfolding forward_rx
forward_rx-Forwards depth i offset r current h [] e a =
    elim (Bool-cases (is_any_rx r || (not (is_idle current) && (is_idle r && is_any_rx current)))) [
      | inl yes' ↦ rw (yes', e, mark_first_idle) (idle-Forwards offset i h)
      | inr no' ↦ rw no' (idle-Forwards offset i h)
    ]
forward_rx-Forwards depth i offset r current h (k ∷ ks) e a =
    elim (Bool-cases (is_any_rx r || (not (is_idle current) && (is_idle r && is_any_rx current)))) [
      | inl yes' ↦
          rw (yes', e)
            (mark_first_idle-Forwards depth i offset r h (k ∷ ks)
              (All-apart offset i h (k ∷ ks) (λ none'. cc) a))
      | inr no' ↦ rw no' (idle-Forwards offset i h)
    ]
