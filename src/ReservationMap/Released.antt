-- ===== src/ReservationMap/Released.antt =====
-- What unlocking the entries of a map does to the tables: it ends without an exception, frees the
-- slots that are locked for one of the two identifiers, and leaves every reservation alone.
use ldacs_mcsotdma.Prelude.{
  ℕ, ◌≡◌, ◌≢◌, refl, sym, ap, subst, ◌∙◌, ◌⊎◌, inl, inr, Bool, true, false, ◌||◌, ◌==◌, ==_iff,
  eqb_ℤ, length-set, none, some, ℤ, to_i32, arith, Bool-cases, ℕ_discrete,
}
use ldacs_mcsotdma.Prelude.Result.{
  Result, ok, err, Error, id_mismatch, invalid_argument, is_invalid_argument, is_id_mismatch,
}
use ldacs_mcsotdma.Reservation.{Reservation, MacId, MacIds, unreserved, is_idle, is_locked}
use ldacs_mcsotdma.Channel.{is_sh}
use ldacs_mcsotdma.Table.{Table, TableId, Heap, is_valid, get_reservation}
use ldacs_mcsotdma.Table.State.{store, put_slot}
use ldacs_mcsotdma.Table.Lock.{unlock, unlock_either_id}
use ldacs_mcsotdma.Table.Index.{
  IsWellFormed, get_reservation-valid, get_reservation-put_slot_self, get_reservation-put_slot_ne,
}
use ldacs_mcsotdma.Table.Marked.{store_self, store_other}
use ldacs_mcsotdma.Table.Forwarding.{SameShape-refl, IsFrame, IsFrame-trans, store-IsFrame}
use ldacs_mcsotdma.Table.Held.{unlock_cases, unlock_spec}
use ldacs_mcsotdma.ReservationMap.{on_sh}

abbrev pub IsFormedHeap : Heap → Type 0
IsFormedHeap h = (k : TableId) → IsWellFormed (h.tables k)

on_sh_of : Heap → Table → Bool
on_sh_of h t = elim t.freq_channel [ none ↦ false | some c ↦ is_sh (h.channels c) ]

module _ ⦃ids : MacIds⦄ where
  -- A slot reads as before, or it was locked or idle before and is unreserved now.
  abbrev pub KeptOrFreed : Table → Table → ℤ → Type 0
  KeptOrFreed t t' z =
      (get_reservation t' z ≡ get_reservation t z)
      ⊎ ((r : Reservation) × (get_reservation t z ≡ ok r)
          × (is_locked r || is_idle r ≡ true)
          × (get_reservation t' z ≡ ok unreserved))

  -- No table changes but in locked or idle slots, which become unreserved.
  pub record IsReleased (h h' : Heap) : Type 0 where
    pub frame : IsFrame h h'
    pub channels : (k : TableId) → on_sh h' k ≡ on_sh h k
    pub slots :
        (k : TableId) (z : ℤ)
        → is_valid (h.tables k) z ≡ true
        → KeptOrFreed (h.tables k) (h'.tables k) z

  pub IsReleased-refl : (h : Heap) → IsReleased h h
  IsReleased-refl h = record {
    frame = λ k. SameShape-refl (h.tables k);
    channels = λ k. refl;
    slots = λ k z v. inl refl;
  }

  pub IsReleased-trans : (h h' h'' : Heap) → IsReleased h h' → IsReleased h' h'' → IsReleased h h''
  IsReleased-trans h h' h'' f g = record {
    frame = IsFrame-trans h h' h'' f.frame g.frame;
    channels = λ k. g.channels k ∙ f.channels k;
    slots = λ k z v. both k z (f.slots k z v) (g.slots k z (rw ((f.frame k).horizon) v));
  }
    where
      both :
          (k : TableId) (z : ℤ)
          → KeptOrFreed (h.tables k) (h'.tables k) z
          → KeptOrFreed (h'.tables k) (h''.tables k) z
          → KeptOrFreed (h.tables k) (h''.tables k) z
      both k z (inl a) (inl b) = inl (b ∙ a)
      both k z (inr (r, e, free, now)) (inl b) = inr (r, e, free, b ∙ now)
      both k z (inl a) (inr (r, e, free, now)) = inr (r, sym a ∙ e, free, now)
      both k z (inr (r, e, free, _)) (inr (_, _, _, now)) = inr (r, e, free, now)

  pub IsReleased-formed : (h h' : Heap) → IsReleased h h' → IsFormedHeap h → IsFormedHeap h'
  IsReleased-formed h h' f w k = record {
    short = rw ((f.frame k).horizon) (w k).short;
    sized = omega (arith, (f.frame k).size, (w k).sized, (f.frame k).horizon);
  }

  ℤ_cases : (a b : ℤ) → (a ≡ b) ⊎ (a ≢ b)
  ℤ_cases a b = elim (Bool-cases (eqb_ℤ a b)) [
    | inl e ↦ inl (ground arith)
    | inr f ↦ inr (λ same. ground arith)
  ]

  -- Freeing one slot.
  free_slot :
      (i : TableId) (z : ℤ) (r : Reservation) (h : Heap)
      → IsFormedHeap h
      → is_valid (h.tables i) z ≡ true
      → get_reservation (h.tables i) z ≡ ok r
      → is_locked r || is_idle r ≡ true
      → IsReleased h (store i (put_slot z unreserved (h.tables i)) h)
  unfolding on_sh_of
  free_slot i z r h w v e free = record {
    frame = store-IsFrame i _ h (record {
      horizon = refl;
      transmitter = refl;
      receivers = refl;
      size = length-set (h.tables i).slot_utilization_vec _ unreserved;
    });
    channels = λ k. channel_of k (ℕ_discrete k i);
    slots = λ k z' v'. at_table k z' v' (ℕ_discrete k i);
  }
    where
      channel_of :
          (k : TableId)
          → Dec (k ≡ i)
          → on_sh (store i (put_slot z unreserved (h.tables i)) h) k ≡ on_sh h k
      channel_of k (yes e) =
          subst
            (λ (j : TableId). on_sh (store i (put_slot z unreserved (h.tables i)) h) j ≡ on_sh h j)
            (sym e) (ap (λ (t : Table). on_sh_of h t) (store_self i _ h))
      channel_of k (no ne) = ap (on_sh_of h) (store_other i k _ h ne)

      at_slot :
          (z' : ℤ)
          → is_valid (h.tables i) z' ≡ true
          → KeptOrFreed (h.tables i) (put_slot z unreserved (h.tables i)) z'
      at_slot z' v' = elim (ℤ_cases z z') [
        | inl same ↦
            subst (KeptOrFreed (h.tables i) (put_slot z unreserved (h.tables i))) same
              (inr (r, e, free, get_reservation-put_slot_self (h.tables i) z unreserved (w i) v))
        | inr ne ↦ inl (get_reservation-put_slot_ne (h.tables i) z z' unreserved (w i) v v' ne)
      ]

      at_table :
          (k : TableId) (z' : ℤ)
          → is_valid (h.tables k) z' ≡ true
          → Dec (k ≡ i)
          → KeptOrFreed (h.tables k) ((store i (put_slot z unreserved (h.tables i)) h).tables k) z'
      at_table k z' v' (yes e) =
          subst
            (λ (j : TableId).
              is_valid (h.tables j) z' ≡ true
              → KeptOrFreed (h.tables j) ((store i (put_slot z unreserved (h.tables i)) h).tables j)
                  z')
            (sym e)
            (λ u.
              subst (λ (t : Table). KeptOrFreed (h.tables i) t z') (sym (store_self i _ h))
                (at_slot z' u))
            v'
      at_table k z' v' (no ne) =
          inl (ap (λ (t : Table). get_reservation t z') (store_other i k _ h ne))

  -- `unlock` frees its slot, or throws and changes nothing.
  abbrev UnlockOutcome : Heap → Result (Unit {0}) × Heap → Type 0
  UnlockOutcome h o =
      ((o.0 ≡ ok tt) × IsReleased h o.1)
      ⊎ ((e : Error) × (is_invalid_argument e ≡ true) × (o ≡ (err e, h)))

  unlock_invalid :
      (i : TableId) (slot_offset : ℕ) (id : MacId) (h : Heap)
      → is_valid (h.tables i) (to_i32 slot_offset) ≡ false
      → unlock i slot_offset id h ≡ (err invalid_argument, h)
  unfolding unlock
  unlock_invalid i slot_offset id h bad = rw bad

  unlock_outcome :
      (i : TableId) (slot_offset : ℕ) (id : MacId) (h : Heap)
      → IsFormedHeap h
      → UnlockOutcome h (unlock i slot_offset id h)
  unlock_outcome i slot_offset id h w =
      elim (Bool-cases (is_valid (h.tables i) (to_i32 slot_offset))) [
        | inr bad ↦ inr (invalid_argument, refl, unlock_invalid i slot_offset id h bad)
        | inl v ↦
            let (r, e) = get_reservation-valid (h.tables i) (to_i32 slot_offset) (w i) v in
            rw (unlock_cases i slot_offset id r h v e) (valid r e v)
      ]
    where
      valid :
          (r : Reservation)
          → get_reservation (h.tables i) (to_i32 slot_offset) ≡ ok r
          → is_valid (h.tables i) (to_i32 slot_offset) ≡ true
          → UnlockOutcome h (unlock_spec i slot_offset id r h)
      valid r e v = elim (Bool-cases (is_locked r || is_idle r)) [
        | inr f ↦ rw f (inr (invalid_argument, refl, refl))
        | inl t ↦ elim (Bool-cases ((r.target == id) || (r.target == ids.unset))) [
          | inr f ↦ rw (t, f) (inr (id_mismatch, refl, refl))
          | inl g ↦ rw (t, g) (inl (refl, free_slot i (to_i32 slot_offset) r h w v e t))
        ]
      ]

  pub both_outcome :
      (i : TableId) (slot_offset : ℕ) (id1 id2 : MacId) (h : Heap)
      → IsFormedHeap h
      → UnlockOutcome h (unlock_either_id i slot_offset id1 id2 h)
  unfolding unlock_either_id
  both_outcome i slot_offset id1 id2 h w = elim (unlock_outcome i slot_offset id1 h w) [
    | inl (fine, freed) ↦
        let whole : unlock i slot_offset id1 h ≡ (ok tt, (unlock i slot_offset id1 h).1) =
          ap (λ x. (x, (unlock i slot_offset id1 h).1)) fine in
        rw whole (inl (refl, freed))
    | inr (e, kind, whole) ↦ elim (Bool-cases (is_id_mismatch e)) [
      | inr other ↦ rw (whole, other) (inr (e, kind, refl))
      | inl same ↦
          rw (whole, same)
            (elim (unlock_outcome i slot_offset id2 h w) [
              | inl (fine, freed) ↦
                  let whole2 : unlock i slot_offset id2 h
                      ≡ (ok tt, (unlock i slot_offset id2 h).1) =
                    ap (λ x. (x, (unlock i slot_offset id2 h).1)) fine in
                  rw whole2 (inl (refl, freed))
              | inr (e2, kind2, whole2) ↦ elim (Bool-cases (is_id_mismatch e2)) [
                | inr other2 ↦ rw (whole2, other2) (inr (e2, kind2, refl))
                | inl same2 ↦ rw (whole2, same2) (inr (id_mismatch, refl, refl))
              ]
            ])
    ]
  ]

  -- What an entry's slot holds until it is freed: a lock of one of the two, or nothing.
  abbrev pub IsMine : MacId → MacId → Reservation → Type 0
  IsMine id1 id2 r =
      ((is_locked r ≡ true) × ((r.target == id1) || (r.target == id2) ≡ true)) ⊎ (r ≡ unreserved)

  mine_free :
      (id1 id2 : MacId) (r : Reservation) → IsMine id1 id2 r → is_locked r || is_idle r ≡ true
  mine_free id1 id2 r (inl (l, _)) = rw l
  mine_free id1 id2 r (inr e) = rw e

  same_true : (a : ℕ) → (a == a) ≡ true
  same_true a = (==_iff a a).1 refl

  mine_target :
      (id1 id2 : MacId) (r : Reservation)
      → IsMine id1 id2 r
      → (r.target == id1) || (r.target == ids.unset) ≡ false
      → (r.target == id2) || (r.target == ids.unset) ≡ true
  mine_target id1 id2 r (inl (_, t)) f = ground arith
  mine_target id1 id2 r (inr e) f =
      let unset : (r.target == ids.unset) ≡ true = rw e (same_true ids.unset) in
      ground (arith, unset)

  pub mine_frees :
      (i : TableId) (slot_offset : ℕ) (id1 id2 : MacId) (r : Reservation) (h : Heap)
      → is_valid (h.tables i) (to_i32 slot_offset) ≡ true
      → get_reservation (h.tables i) (to_i32 slot_offset) ≡ ok r
      → IsMine id1 id2 r
      → unlock_either_id i slot_offset id1 id2 h
        ≡ (ok tt, store i (put_slot (to_i32 slot_offset) unreserved (h.tables i)) h)
  unfolding unlock_either_id
  mine_frees i slot_offset id1 id2 r h v e mine =
      let free = mine_free id1 id2 r mine in
      elim (Bool-cases ((r.target == id1) || (r.target == ids.unset))) [
        | inl t ↦ rw (unlock_cases i slot_offset id1 r h v e, free, t)
        | inr f ↦ rw (
          unlock_cases i slot_offset id1 r h v e,
          free,
          f,
          unlock_cases i slot_offset id2 r h v e,
          free,
          mine_target id1 id2 r mine f,
        )
      ]
