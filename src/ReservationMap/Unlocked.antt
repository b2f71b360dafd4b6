-- ===== src/ReservationMap/Unlocked.antt =====
-- What unlocking the entries of a map does: the entries in order, and the map as a whole.
use ldacs_mcsotdma.Prelude.{
  ℕ, ◌+◌, ◌≤◌, ◌<ℤ◌, ◌≡◌, refl, sym, ap, subst, ◌∙◌, inl, inr, Bool, true, false, not, ◌&&◌, List,
  [], ◌∷◌, ℤ, pos, pos_part, ltb_ℤ, to_i32, arith, length, All, All-mono, Bool-cases,
}
use ldacs_mcsotdma.Prelude.Result.{Result, ok, err, Error}
use ldacs_mcsotdma.Reservation.{Reservation, MacId, MacIds, unreserved}
use ldacs_mcsotdma.Table.{Table, Heap, is_valid, get_reservation}
use ldacs_mcsotdma.Table.State.{store, put_slot}
use ldacs_mcsotdma.Table.Lock.{unlock_either_id}
use ldacs_mcsotdma.Table.Index.{IsWellFormed, get_reservation-put_slot_self}
use ldacs_mcsotdma.Table.Marked.{store_self}
use ldacs_mcsotdma.ReservationMap.{
  Resource, ReservationMap, current_offset, on_sh, unlock_resource, unlock_resources, unlock_map,
}
use ldacs_mcsotdma.ReservationMap.Released.{
  IsFormedHeap, IsReleased, IsReleased-refl, IsReleased-trans, IsReleased-formed, IsMine,
  both_outcome, mine_frees,
}

ok_not_err : {A : Type 0} (a : A) (e : Error) → ok a ≡ err e → ⊥
ok_not_err a e same = cc

module _ ⦃ids : MacIds⦄ where
  -- An entry that is looked at: not on the shared channel, and still to come.
  pub record IsDue (since : ℕ) (r : Resource) (h : Heap) : Type 0 where
    pub on_pp : on_sh h r.table ≡ false
    pub later : pos 0 <ℤ current_offset since r
    pub valid : is_valid (h.tables r.table) (current_offset since r) ≡ true

  -- Its slot holds a lock of one of the two, or nothing.
  abbrev pub HoldsMine : MacId → MacId → ℕ → Resource → Heap → Type 0
  HoldsMine id1 id2 since r h =
      (res : Reservation) × (get_reservation (h.tables r.table) (current_offset since r) ≡ ok res)
      × IsMine id1 id2 res

  abbrev pub IsFreed : ℕ → Resource → Heap → Type 0
  IsFreed since r h = get_reservation (h.tables r.table) (current_offset since r) ≡ ok unreserved

  valid_offset :
      (t : Table) (z : ℤ)
      → IsWellFormed t
      → pos 0 <ℤ z
      → is_valid t z ≡ true
      → to_i32 (pos_part z) ≡ z
  valid_offset t z w p v = ground (arith, w.short)

  abbrev ResourceOutcome : MacId → MacId → ℕ → Resource → Heap → Result ℕ × Heap → Type 0
  ResourceOutcome id1 id2 since r h o =
      ((n : ℕ) × (o.0 ≡ ok n) × (n ≤ 1))
      × IsReleased h o.1
      × (IsDue since r h → HoldsMine id1 id2 since r h → IsFreed since r o.1)

  pp_now : (sh : Bool) (z : ℤ) → not sh && ltb_ℤ (pos 0) z ≡ false → sh ≡ false → pos 0 <ℤ z → ⊥
  pp_now sh z f e p = ground arith

  due_frees :
      (id1 id2 : MacId) (since : ℕ) (r : Resource) (h : Heap)
      → IsFormedHeap h
      → IsDue since r h
      → HoldsMine id1 id2 since r h
      → unlock_either_id r.table (pos_part (current_offset since r)) id1 id2 h
        ≡ (ok tt, store r.table (put_slot (current_offset since r) unreserved (h.tables r.table)) h)
  due_frees id1 id2 since r h w due (res, e, mine) =
      let z =
        valid_offset (h.tables r.table) (current_offset since r) (w r.table) due.later due.valid in
      subst
        (λ (u : ℤ).
          unlock_either_id r.table (pos_part (current_offset since r)) id1 id2 h
          ≡ (ok tt, store r.table (put_slot u unreserved (h.tables r.table)) h))
        z
        (mine_frees r.table (pos_part (current_offset since r)) id1 id2 res h
          (ap (is_valid (h.tables r.table)) z ∙ due.valid)
          (ap (get_reservation (h.tables r.table)) z ∙ e) mine)

  IsFreed-after :
      (since : ℕ) (r : Resource) (h : Heap)
      → IsFormedHeap h
      → IsDue since r h
      → IsFreed since r
          (store r.table (put_slot (current_offset since r) unreserved (h.tables r.table)) h)
  IsFreed-after since r h w due =
      ap (λ (t : Table). get_reservation t (current_offset since r)) (store_self r.table _ h)
      ∙ get_reservation-put_slot_self (h.tables r.table) (current_offset since r) unreserved
          (w r.table) due.valid

  resource_outcome :
      (id1 id2 : MacId) (since : ℕ) (r : Resource) (h : Heap)
      → IsFormedHeap h
      → ResourceOutcome id1 id2 since r h (unlock_resource id1 id2 since r h)
  unfolding unlock_resource
  resource_outcome id1 id2 since r h w =
      elim (Bool-cases (not (on_sh h r.table) && ltb_ℤ (pos 0) (current_offset since r))) [
        | inr f ↦ rw f (
          (0, refl, omega arith),
          IsReleased-refl h,
          λ due mine.
              absurd (pp_now (on_sh h r.table) (current_offset since r) f due.on_pp due.later),
        )
        | inl t ↦
            rw t (elim (both_outcome r.table (pos_part (current_offset since r)) id1 id2 h w) [
              | inl (fine, freed) ↦
                  let whole : unlock_either_id r.table (pos_part (current_offset since r)) id1 id2 h
                      ≡ (
                        ok tt,
                        (unlock_either_id r.table (pos_part (current_offset since r)) id1 id2 h).1,
                      ) =
                    ap
                      (λ x. (
                        x,
                        (unlock_either_id r.table (pos_part (current_offset since r)) id1 id2 h).1,
                      ))
                      fine in
                  rw whole (
                    (1, refl, omega arith),
                    freed,
                    λ due mine.
                        subst (IsFreed since r)
                          (sym (
                            ap (λ (o : Result (Unit {0}) × Heap). o.1)
                              (due_frees id1 id2 since r h w due mine)))
                          (IsFreed-after since r h w due),
                  )
              | inr (e, kind, whole) ↦
                  rw (whole, kind)
                    (
                      (0, refl, omega arith),
                      IsReleased-refl h,
                      λ due mine. absurd (
                          ok_not_err tt e (
                            ap (λ (o : Result (Unit {0}) × Heap). o.0)
                              (sym (due_frees id1 id2 since r h w due mine) ∙ whole))),
                    )
            ])
      ]

  -- What holds of the whole list.
  abbrev pub ListOutcome : MacId → MacId → ℕ → List Resource → Heap → Result ℕ × Heap → Type 0
  ListOutcome id1 id2 since rs h o =
      ((n : ℕ) × (o.0 ≡ ok n) × (n ≤ length rs))
      × IsReleased h o.1
      × All (λ r. IsDue since r h → HoldsMine id1 id2 since r h → IsFreed since r o.1) rs

  pub IsDue-later :
      (since : ℕ) (r : Resource) (h h' : Heap)
      → IsReleased h h'
      → IsDue since r h
      → IsDue since r h'
  IsDue-later since r h h' f due = record {
    on_pp = f.channels r.table ∙ due.on_pp;
    later = due.later;
    valid = rw ((f.frame r.table).horizon) due.valid;
  }

  pub mine_later :
      (id1 id2 : MacId) (since : ℕ) (r : Resource) (h h' : Heap)
      → IsReleased h h'
      → IsDue since r h
      → HoldsMine id1 id2 since r h
      → HoldsMine id1 id2 since r h'
  mine_later id1 id2 since r h h' f due (res, e, mine) =
      elim (f.slots r.table (current_offset since r) due.valid) [
        | inl kept ↦ (res, kept ∙ e, mine)
        | inr freed ↦ (unreserved, freed.3, inr refl)
      ]

  pub IsFreed-later :
      (since : ℕ) (r : Resource) (h h' : Heap)
      → IsReleased h h'
      → is_valid (h.tables r.table) (current_offset since r) ≡ true
      → IsFreed since r h
      → IsFreed since r h'
  IsFreed-later since r h h' f v e = elim (f.slots r.table (current_offset since r) v) [
    | inl kept ↦ kept ∙ e
    | inr freed ↦ freed.3
  ]

  unlock_resources_steps :
      (id1 id2 : MacId) (since : ℕ) (r : Resource) (rs : List Resource) (h h' h'' : Heap) (n m : ℕ)
      → unlock_resource id1 id2 since r h ≡ (ok n, h')
      → unlock_resources id1 id2 since rs h' ≡ (ok m, h'')
      → unlock_resources id1 id2 since (r ∷ rs) h ≡ (ok (n + m), h'')
  unfolding unlock_resources
  unlock_resources_steps id1 id2 since r rs h h' h'' n m a b = rw (a, b)

  list_outcome :
      (id1 id2 : MacId) (since : ℕ) (rs : List Resource) (h : Heap)
      → IsFormedHeap h
      → ListOutcome id1 id2 since rs h (unlock_resources id1 id2 since rs h)
  unfolding unlock_resources
  list_outcome id1 id2 since [] h w = ((0, refl, omega arith), IsReleased-refl h, tt)
  list_outcome id1 id2 since (r ∷ rs) h w =
      let ((n, fine, small), freed, post) = resource_outcome id1 id2 since r h w in
      let h' = (unlock_resource id1 id2 since r h).1 in
      let whole : unlock_resource id1 id2 since r h ≡ (ok n, h') = ap (λ x. (x, h')) fine in
      let ((m, fine2, small2), freed2, posts) =
        list_outcome id1 id2 since rs h' (IsReleased-formed h h' freed w) in
      let h'' = (unlock_resources id1 id2 since rs h').1 in
      let whole2 : unlock_resources id1 id2 since rs h' ≡ (ok m, h'') = ap (λ x. (x, h'')) fine2 in
      subst (ListOutcome id1 id2 since (r ∷ rs) h)
        (sym (unlock_resources_steps id1 id2 since r rs h h' h'' n m whole whole2))
        (
          (n + m, refl, omega arith),
          IsReleased-trans h h' h'' freed freed2,
          (
            (λ due mine.
                IsFreed-later since r h' h'' freed2 (IsDue-later since r h h' freed due).valid
                  (post due mine)),
            All-mono rs
                (λ r' p due mine.
                  p (IsDue-later since r' h h' freed due)
                    (mine_later id1 id2 since r' h h' freed due mine))
                posts,
          ),
        )

  -- On well-formed tables, unlocking a map's entries throws nothing and unlocks as many entries as
  -- there are at most; no table changes but in slots that were locked or idle, which become
  -- unreserved; and the slot of every entry that is off the shared channel and still to come is
  -- unreserved afterwards, if it was locked for one of the two identifiers or unreserved.
  pub unlock_map_frees :
      (id1 id2 : MacId) (m : ReservationMap) (h : Heap)
      → IsFormedHeap h
      → ListOutcome id1 id2 m.num_slots_since_creation m.locked_resources h (unlock_map id1 id2 m h)
  unfolding unlock_map
  unlock_map_frees id1 id2 m h w =
      list_outcome id1 id2 m.num_slots_since_creation m.locked_resources h w
