-- ===== src/PpLinkManager/Locked.antt =====
-- What `lockProposedResources` locks: the slots of the channel and of the transmitter, and none of
-- a receiver.
use ldacs_mcsotdma.Prelude.{
  ℕ, ◌≡◌, ◌≢◌, sym, ap, subst, ◌∙◌, inl, inr, Bool, List, [], ◌∷◌, Option, none, some, pos, to_i32,
  All, All-mono,
}
use ldacs_mcsotdma.Prelude.Result.{Result, ok, Result-cases}
use ldacs_mcsotdma.Reservation.{MacId}
use ldacs_mcsotdma.Table.{TableId, Heap, found}
use ldacs_mcsotdma.Table.State.{store, put_slot, deref}
use ldacs_mcsotdma.Table.State
use ldacs_mcsotdma.ReservationMap.Released.{IsFormedHeap}
use ldacs_mcsotdma.ReservationMap.{ReservationMap, empty_map, add_locked_resource}
use ldacs_mcsotdma.ReservationManager.{ReservationManager}
use ldacs_mcsotdma.PpLinkManager.Locking.{
  lock_all, LockSets, first_lockable, lock_receiver, lock_receivers, lock_sets,
}
use ldacs_mcsotdma.PpLinkManager.KeepsLocks.{
  HeldFor, KeepsLocks, KeepsLocks-refl, KeepsLocks-trans, lock_outcome,
}

-- A run of locks in one table: what it leaves, and what it has locked if it ends well.
abbrev pub LocksOutcome : TableId → MacId → List ℕ → Heap → Result ReservationMap × Heap → Type 0
LocksOutcome i id slots h o =
    KeepsLocks i h o.1
    × ((m : ReservationMap) → o.0 ≡ ok m → All (λ s. HeldFor id i (to_i32 s) o.1) slots)

lock_all_outcome :
    (i : TableId) (id : MacId) (slots : List ℕ) (m : ReservationMap) (h : Heap)
    → IsFormedHeap h
    → LocksOutcome i id slots h (lock_all (some i) id slots m h)
unfolding lock_all
lock_all_outcome i id [] m h w = (KeepsLocks-refl i h, λ m e. tt)
lock_all_outcome i id (slot ∷ slots) m h w = elim (lock_outcome i slot id h (w i)) [
  | inl (e, bad) ↦
      subst (LocksOutcome i id (slot ∷ slots) h) (sym (ap (State.then_with next) bad))
        (KeepsLocks-refl i h, λ m f. cc f)
  | inr (b, h1, fine, held, kept) ↦
      let (later, all) =
        lock_all_outcome i id slots (add_locked_resource i (pos slot) m) h1 (kept.formed w) in
      subst (LocksOutcome i id (slot ∷ slots) h) (sym (ap (State.then_with next) fine)) (
        KeepsLocks-trans i h h1 _ kept later,
        λ m' e. (later.keeps id i (to_i32 slot) held, all m' e),
      )
]
  where
    next : Bool → State.M ReservationMap
    next b = lock_all (some i) id slots (add_locked_resource i (pos slot) m)

lock_receiver_keeps :
    (i : TableId) (id : MacId) (slot : ℕ) (m : ReservationMap) (found : Option TableId) (h : Heap)
    → IsFormedHeap h
    → KeepsLocks i h (lock_receiver (some i) id slot m found h).1
unfolding lock_receiver
lock_receiver_keeps i id slot m none h w = KeepsLocks-refl i h
lock_receiver_keeps i id slot m (some k) h w = elim (lock_outcome i slot id h (w i)) [
  | inl (e, bad) ↦
      subst (λ o. KeepsLocks i h o.1) (sym (ap (State.then_with next) bad)) (KeepsLocks-refl i h)
  | inr (b, h1, fine, held, kept) ↦
      subst (λ o. KeepsLocks i h o.1) (sym (ap (State.then_with next) fine)) kept
]
  where
    next : Bool → State.M ReservationMap
    next b = State.pure (add_locked_resource k (pos slot) m)

-- The receivers' loop changes the channel's table at most, and no lock that is held.
lock_receivers_keeps :
    (i : TableId) (rx_tables : List TableId) (id : MacId) (slots : List ℕ) (m : ReservationMap)
    (h : Heap)
    → IsFormedHeap h
    → KeepsLocks i h (lock_receivers (some i) rx_tables id slots m h).1
unfolding lock_receivers
lock_receivers_keeps i rx_tables id [] m h w = KeepsLocks-refl i h
lock_receivers_keeps i rx_tables id (slot ∷ slots) m h w =
    elim (Result-cases (first_lockable h slot rx_tables)) [
      | inr (e, bad) ↦
          subst (λ o. KeepsLocks i h o.1) (sym (ap (λ r. State.then_with next (r, h)) bad))
            (KeepsLocks-refl i h)
      | inl (found, fine) ↦
          let one = lock_receiver (some i) id slot m found h in
          let kept = lock_receiver_keeps i id slot m found h w in
          subst (λ o. KeepsLocks i h o.1) (sym (ap (λ r. State.then_with next (r, h)) fine))
            (elim (Result-cases one.0) [
              | inr (e, bad) ↦
                  subst (λ o. KeepsLocks i h o.1)
                    (sym (ap (λ r. State.then_with rest (r, one.1)) bad)) kept
              | inl (m', good) ↦
                  subst (λ o. KeepsLocks i h o.1)
                    (sym (ap (λ r. State.then_with rest (r, one.1)) good))
                    (KeepsLocks-trans i h one.1 _ kept
                      (lock_receivers_keeps i rx_tables id slots m' one.1 (kept.formed w)))
            ])
    ]
  where
    rest : ReservationMap → State.M ReservationMap
    rest m' = lock_receivers (some i) rx_tables id slots m'

    next : Option TableId → State.M ReservationMap
    next found = State.◌>>=◌ (lock_receiver (some i) id slot m found) rest

-- Two tables at most change.
abbrev pub KeepsOthers : TableId → TableId → Heap → Heap → Type 0
KeepsOthers i j h h' = (k : TableId) → k ≢ i → k ≢ j → h'.tables k ≡ h.tables k

abbrev pub SetsOutcome :
    TableId → TableId → MacId → LockSets → Heap → Result ReservationMap × Heap → Type 0
SetsOutcome i j id sets h o =
    KeepsOthers i j h o.1
    × ((m : ReservationMap)
        → o.0 ≡ ok m
        → All (λ s. HeldFor id i (to_i32 s) o.1) sets.local
          × All (λ s. HeldFor id j (to_i32 s) o.1) sets.transmitter)

pub lock_sets_outcome :
    (i j : TableId) (m : ReservationManager) (id : MacId) (sets : LockSets) (h : Heap)
    → IsFormedHeap h
    → m.hardware_tx_table ≡ some j
    → SetsOutcome i j id sets h (lock_sets (some i) m id sets h)
unfolding lock_sets
lock_sets_outcome i j m id sets h w e = elim (Result-cases one.0) [
  | inr (x, bad) ↦
      subst (SetsOutcome i j id sets h) (sym (ap (λ r. State.then_with first (r, one.1)) bad))
        ((λ k ni nj. kept.others k ni), λ m' f. cc f)
  | inl (m1, good) ↦
      subst (SetsOutcome i j id sets h) (sym (ap (λ r. State.then_with first (r, one.1)) good))
        (second m1 good)
]
  where
    one : Result ReservationMap × Heap
    one = lock_all (some i) id sets.local empty_map h

    first : ReservationMap → State.M ReservationMap
    first m1 =
        State.◌>>=◌ (lock_all m.hardware_tx_table id sets.transmitter m1)
          (lock_receivers (some i) m.hardware_rx_tables id sets.receiver)

    kept : KeepsLocks i h one.1
    kept = (lock_all_outcome i id sets.local empty_map h w).0

    locals :
        (m1 : ReservationMap) → one.0 ≡ ok m1 → All (λ s. HeldFor id i (to_i32 s) one.1) sets.local
    locals = (lock_all_outcome i id sets.local empty_map h w).1

    second : (m1 : ReservationMap) → one.0 ≡ ok m1 → SetsOutcome i j id sets h (first m1 one.1)
    second m1 good =
        let two = lock_all (some j) id sets.transmitter m1 one.1 in
        let (kept2, held2) = lock_all_outcome j id sets.transmitter m1 one.1 (kept.formed w) in
        let third = lock_receivers (some i) m.hardware_rx_tables id sets.receiver in
        rw e (elim (Result-cases two.0) [
          | inr (x, bad) ↦
              subst (SetsOutcome i j id sets h)
                (sym (ap (λ r. State.then_with third (r, two.1)) bad))
                ((λ k ni nj. kept2.others k nj ∙ kept.others k ni), λ m' f. cc f)
          | inl (m2, fine) ↦
              let kept3 =
                lock_receivers_keeps i m.hardware_rx_tables id sets.receiver m2 two.1
                  (kept2.formed (kept.formed w)) in
              subst (SetsOutcome i j id sets h)
                (sym (ap (λ r. State.then_with third (r, two.1)) fine))
                (
                  (λ k ni nj. kept3.others k ni ∙ kept2.others k nj ∙ kept.others k ni),
                  λ m' f. (
                    All-mono sets.local
                        (λ s p. kept3.keeps id i (to_i32 s) (kept2.keeps id i (to_i32 s) p))
                        (locals m1 good),
                    All-mono sets.transmitter (λ s p. kept3.keeps id j (to_i32 s) p)
                        (held2 m2 fine),
                  ),
                )
        ])
