-- ===== src/Table/Held.antt =====
-- Locks: what `lock` and `unlock` do, and that a lock is held for one identifier.
use ldacs_mcsotdma.Prelude.{
  ℕ, ◌≡◌, ◌≢◌, refl, sym, ap, subst, ◌∙◌, Bool, true, false, inl, inr, ◌||◌, not, ℤ, arith, ◌==◌,
  ==_iff, if◌then◌else◌, Bool-cases, to_i32,
}
use ldacs_mcsotdma.Prelude.Result.{Result, ok, err, id_mismatch, cannot_lock, invalid_argument}
use ldacs_mcsotdma.Reservation.{
  Reservation, MacId, MacIds, locked, reserve, unreserved, is_idle, is_locked,
}
use ldacs_mcsotdma.Table.{Table, TableId, Heap, is_valid, get_reservation}
use ldacs_mcsotdma.Table.State.{store, put_slot, guard, modify, ◌>>◌}
use ldacs_mcsotdma.Table.Query.{is_slot_idle, is_slot_locked}
use ldacs_mcsotdma.Table.Lock.{lock, unlock}
use ldacs_mcsotdma.Table.Index.{IsWellFormed, get_reservation-put_slot_self, put_slot-IsWellFormed}
use ldacs_mcsotdma.Table.Marked.{store_self}

not-not : (b : Bool) → ok (not (not b)) ≡ ok b
not-not true = refl
not-not false = refl

slot_locked_lem :
    (t : Table) (slot : ℤ) (r : Reservation)
    → is_valid t slot ≡ true
    → get_reservation t slot ≡ ok r
    → is_slot_locked t slot ≡ ok (is_locked r)
unfolding is_slot_locked
slot_locked_lem t slot r v e = rw (v, e)

slot_idle_lem :
    (t : Table) (slot : ℤ) (r : Reservation)
    → is_valid t slot ≡ true
    → get_reservation t slot ≡ ok r
    → is_slot_idle t slot ≡ ok (is_idle r)
unfolding is_slot_idle
slot_idle_lem t slot r v e = rw (v, e) (not-not (is_idle r))

-- What `lock` comes to, by what the slot holds.
abbrev pub lock_spec : TableId → ℕ → MacId → Reservation → Heap → Result Bool × Heap
lock_spec i slot_offset id r h =
    if is_locked r
    then (if r.target == id then (ok false, h) else (err id_mismatch, h))
    else if is_idle r
    then (ok true, store i (put_slot (to_i32 slot_offset) (reserve id locked) (h.tables i)) h)
    else (err cannot_lock, h)

-- At a valid offset, with `r` in the slot: a slot locked for the identifier is left as it is, one
-- locked for another is refused with `id_mismatch`, an idle one is locked, and any other one is
-- refused with `cannot_lock`; a refusal changes nothing.
pub lock_cases :
    (i : TableId) (slot_offset : ℕ) (id : MacId) (r : Reservation) (h : Heap)
    → is_valid (h.tables i) (to_i32 slot_offset) ≡ true
    → get_reservation (h.tables i) (to_i32 slot_offset) ≡ ok r
    → lock i slot_offset id h ≡ lock_spec i slot_offset id r h
unfolding lock
lock_cases i slot_offset id r h v e = elim (Bool-cases (is_locked r)) [
  | inl l ↦ elim (Bool-cases (r.target == id)) [
    | inl mine ↦ rw (e, slot_locked_lem (h.tables i) (to_i32 slot_offset) r v e) (rw (l, mine))
    | inr other ↦ rw (e, slot_locked_lem (h.tables i) (to_i32 slot_offset) r v e) (rw (l, other))
  ]
  | inr f ↦
      rw
        (
          e,
          slot_locked_lem (h.tables i) (to_i32 slot_offset) r v e,
          f,
          slot_idle_lem (h.tables i) (to_i32 slot_offset) r v e,
        )
        (elim (Bool-cases (is_idle r)) [ inl free ↦ rw free | inr busy ↦ rw busy ])
]

guard-modify :
    (b : Bool) (i : TableId) (f : Table → Table) (h : Heap)
    → (guard b id_mismatch >> modify i f) h
      ≡ (if b then (ok tt, store i (f (h.tables i)) h) else (err id_mismatch, h))
guard-modify true i f h = refl
guard-modify false i f h = refl

-- What `unlock` comes to, by what the slot holds.
abbrev pub unlock_spec :
    ⦃ids : MacIds⦄ → TableId → ℕ → MacId → Reservation → Heap → Result (Unit {0}) × Heap
unlock_spec ⦃ids⦄ i slot_offset id r h =
    if is_locked r || is_idle r
    then (if (r.target == id) || (r.target == ids.unset)
        then (ok tt, store i (put_slot (to_i32 slot_offset) unreserved (h.tables i)) h)
        else (err id_mismatch, h))
    else (err invalid_argument, h)

-- At a valid offset, with `r` in the slot: `unlock` makes an idle slot of a locked or an idle one
-- whose target is the identifier or unset, refuses the others of these with `id_mismatch`, and
-- any further one with `invalid_argument`; a refusal changes nothing.
pub unlock_cases :
    ⦃ids : MacIds⦄
    → (i : TableId) (slot_offset : ℕ) (id : MacId) (r : Reservation) (h : Heap)
    → is_valid (h.tables i) (to_i32 slot_offset) ≡ true
    → get_reservation (h.tables i) (to_i32 slot_offset) ≡ ok r
    → unlock i slot_offset id h ≡ unlock_spec i slot_offset id r h
unfolding unlock
unlock_cases ⦃ids⦄ i slot_offset id r h v e = elim (Bool-cases (is_locked r)) [
  | inl l ↦
      rw (slot_locked_lem (h.tables i) (to_i32 slot_offset) r v e, l)
        (rw e (guard-modify _ i (put_slot (to_i32 slot_offset) unreserved) h))
  | inr f ↦
      rw
        (
          slot_locked_lem (h.tables i) (to_i32 slot_offset) r v e,
          f,
          slot_idle_lem (h.tables i) (to_i32 slot_offset) r v e,
        )
        (elim (Bool-cases (is_idle r)) [
          | inl free ↦ rw (free, e) (guard-modify _ i (put_slot (to_i32 slot_offset) unreserved) h)
          | inr busy ↦ rw busy
        ])
]

idle_not_locked : (r : Reservation) → is_idle r ≡ true → is_locked r ≡ false
idle_not_locked r e = ground arith

beq_self : (a : ℕ) → (a == a) ≡ true
beq_self a = (==_iff a a).1 refl

beq_ne : (a b : ℕ) → a ≢ b → (a == b) ≡ false
beq_ne a b ne = ground arith

-- A lock on an idle slot.
module _ ⦃ids : MacIds⦄ (i : TableId) (slot_offset : ℕ) (id : MacId) (r : Reservation) (h : Heap)
    (w : IsWellFormed (h.tables i)) (v : is_valid (h.tables i) (to_i32 slot_offset) ≡ true)
    (e : get_reservation (h.tables i) (to_i32 slot_offset) ≡ ok r) (free : is_idle r ≡ true) where
  held : Heap
  held = store i (put_slot (to_i32 slot_offset) (reserve id locked) (h.tables i)) h

  self : held.tables i ≡ put_slot (to_i32 slot_offset) (reserve id locked) (h.tables i)
  unfolding held
  self = store_self i _ h

  held_valid : is_valid (held.tables i) (to_i32 slot_offset) ≡ true
  held_valid = ap (λ (t : Table). is_valid t (to_i32 slot_offset)) self ∙ v

  held_read : get_reservation (held.tables i) (to_i32 slot_offset) ≡ ok (reserve id locked)
  held_read =
      ap (λ (t : Table). get_reservation t (to_i32 slot_offset)) self
      ∙ get_reservation-put_slot_self (h.tables i) (to_i32 slot_offset) (reserve id locked) w v

  locks : lock i slot_offset id h ≡ (ok true, held)
  unfolding held
  locks = lock_cases i slot_offset id r h v e ∙ rw (idle_not_locked r free, free)

  held_formed : IsWellFormed (held.tables i)
  held_formed = subst IsWellFormed (sym self) (put_slot-IsWellFormed (h.tables i) _ _ w)

  unlocks :
      unlock i slot_offset id held
      ≡ (ok tt, store i (put_slot (to_i32 slot_offset) unreserved (held.tables i)) held)
  unlocks =
      unlock_cases i slot_offset id (reserve id locked) held held_valid held_read ∙ rw (beq_self id)

  -- An idle slot that is locked for an identifier is refused to any other with `id_mismatch`, is
  -- reported as held to the identifier itself, and is given back by its `unlock` alone: another
  -- identifier, if the lock's is not the unset one, gets `id_mismatch`, and the slot is unreserved
  -- after its own.
  pub lock_excludes :
      (other : MacId)
      → other ≢ id
      → id ≢ ids.unset
      → let h' = (lock i slot_offset id h).1 in
        ((lock i slot_offset id h).0 ≡ ok true)
        × (lock i slot_offset other h' ≡ (err id_mismatch, h'))
        × (lock i slot_offset id h' ≡ (ok false, h'))
        × (unlock i slot_offset other h' ≡ (err id_mismatch, h'))
        × (get_reservation ((unlock i slot_offset id h').1.tables i) (to_i32 slot_offset)
            ≡ ok unreserved)
  lock_excludes other ne set = rw locks (
    refl,
    lock_cases i slot_offset other (reserve id locked) held held_valid held_read
        ∙ rw (beq_ne id other (λ same. ne (sym same))),
    lock_cases i slot_offset id (reserve id locked) held held_valid held_read ∙ rw (beq_self id),
    unlock_cases i slot_offset other (reserve id locked) held held_valid held_read
        ∙ rw (beq_ne id other (λ same. ne (sym same)), beq_ne id ids.unset set),
    ap (λ (o : Result (Unit {0}) × Heap). get_reservation (o.1.tables i) (to_i32 slot_offset))
          unlocks
        ∙ ap (λ (t : Table). get_reservation t (to_i32 slot_offset))
            (store_self i (put_slot (to_i32 slot_offset) unreserved (held.tables i)) held)
        ∙ get_reservation-put_slot_self (held.tables i) (to_i32 slot_offset) unreserved held_formed
            held_valid,
  )
