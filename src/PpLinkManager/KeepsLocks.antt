-- ===== src/PpLinkManager/KeepsLocks.antt =====
-- The locks of one table: what a lock takes, and what it leaves alone.
use ldacs_mcsotdma.Prelude.{
  ℕ, ◌≡◌, ◌≢◌, refl, sym, ap, subst, ◌∙◌, ◌⊎◌, inl, inr, Bool, true, false, ◌==◌, Option, ℤ, to_i32,
  arith, Bool-cases, get_elem?, get_elem?-set_ne, ℕ_discrete,
}
use ldacs_mcsotdma.Prelude.Result.{
  Result, ok, err, Error, Result-cases, id_mismatch, cannot_lock, invalid_argument,
}
use ldacs_mcsotdma.Reservation.{Reservation, MacId, reserve, locked, is_locked, is_idle}
use ldacs_mcsotdma.Table.{
  Table, TableId, Heap, is_valid, get_reservation, found, convert_offset_to_index,
}
use ldacs_mcsotdma.Table.State.{store, put_slot}
use ldacs_mcsotdma.Table.Lock.{lock}
use ldacs_mcsotdma.Table.Index.{
  IsWellFormed, get_reservation-valid, get_reservation-put_slot_self, put_slot-IsWellFormed,
}
use ldacs_mcsotdma.Table.Marked.{store_self, store_other}
use ldacs_mcsotdma.Table.Held.{lock_cases}

-- The slot is locked for the user.
abbrev pub HeldFor : MacId → TableId → ℤ → Heap → Type 0
HeldFor id i z h = get_reservation (h.tables i) z ≡ ok (reserve id locked)

-- Locks that are held stay held, and no table but the one changes.
pub record KeepsLocks (i : TableId) (h h' : Heap) : Type 0 where
  pub keeps : (id : MacId) (k : TableId) (z : ℤ) → HeldFor id k z h → HeldFor id k z h'
  pub others : (k : TableId) → k ≢ i → h'.tables k ≡ h.tables k
  pub formed :
      ((k : TableId) → IsWellFormed (h.tables k)) → (k : TableId) → IsWellFormed (h'.tables k)

pub KeepsLocks-refl : (i : TableId) (h : Heap) → KeepsLocks i h h
KeepsLocks-refl i h = record { keeps = λ id k z e. e; others = λ k ne. refl; formed = λ w. w }

pub KeepsLocks-trans :
    (i : TableId) (h h1 h2 : Heap) → KeepsLocks i h h1 → KeepsLocks i h1 h2 → KeepsLocks i h h2
KeepsLocks-trans i h h1 h2 f g = record {
  keeps = λ id k z e. g.keeps id k z (f.keeps id k z e);
  others = λ k ne. g.others k ne ∙ f.others k ne;
  formed = λ w. g.formed (f.formed w);
}

found-injective :
    (x y : Option Reservation) (r s : Reservation) → found x ≡ ok r → found y ≡ ok s → x ≡ y → r ≡ s
found-injective x y r s e f same = ground arith

not_both : (r : Reservation) (id : MacId) → is_idle r ≡ true → r ≡ reserve id locked → ⊥
not_both r id free e = ground arith

-- The write of a lock over an idle slot.
write_keeps :
    (i : TableId) (z : ℤ) (id : MacId) (r : Reservation) (h : Heap)
    → get_reservation (h.tables i) z ≡ ok r
    → is_idle r ≡ true
    → KeepsLocks i h (store i (put_slot z (reserve id locked) (h.tables i)) h)
write_keeps i z id r h e free = record {
  keeps = λ own k y held. elim (ℕ_discrete k i) [
    | no ne ↦ ap (λ (t : Table). get_reservation t y) (store_other i k _ h ne) ∙ held
    | yes same ↦
        subst (λ j. HeldFor own j y (store i (put_slot z (reserve id locked) (h.tables i)) h))
          (sym same)
          (ap (λ (t : Table). get_reservation t y) (store_self i _ h)
            ∙ ap found (
                get_elem?-set_ne (h.tables i).slot_utilization_vec (reserve id locked)
                  (apart own y (subst (λ j. HeldFor own j y h) same held)))
            ∙ subst (λ j. HeldFor own j y h) same held)
  ];
  others = λ k ne. store_other i k _ h ne;
  formed = λ w k. elim (ℕ_discrete k i) [
    | no ne ↦ subst IsWellFormed (sym (store_other i k _ h ne)) (w k)
    | yes same ↦
        subst
          (λ j. IsWellFormed ((store i (put_slot z (reserve id locked) (h.tables i)) h).tables j))
          (sym same)
          (subst IsWellFormed (sym (store_self i _ h))
            (put_slot-IsWellFormed (h.tables i) z _ (w i)))
  ];
}
  where
    apart :
        (own : MacId) (y : ℤ)
        → HeldFor own i y h
        → convert_offset_to_index (h.tables i) z ≢ convert_offset_to_index (h.tables i) y
    apart own y held same = not_both r own free (
        found-injective _ _ r (reserve own locked) e held
          (ap (get_elem? (h.tables i).slot_utilization_vec) same))

target_locked :
    (r : Reservation) (id : MacId)
    → is_locked r ≡ true
    → (r.target == id) ≡ true
    → r ≡ reserve id locked
target_locked r id l t = ground arith

-- A lock that is granted is held, and one that is refused changes nothing.
abbrev LockOutcome : TableId → ℕ → MacId → Heap → Result Bool × Heap → Type 0
LockOutcome i slot id h o =
    ((e : Error) × (o ≡ (err e, h)))
    ⊎ ((b : Bool) × (h' : Heap) × (o ≡ (ok b, h'))
        × HeldFor id i (to_i32 slot) h'
        × KeepsLocks i h h')

lock_valid :
    (i : TableId) (slot : ℕ) (id : MacId) (h : Heap)
    → IsWellFormed (h.tables i)
    → is_valid (h.tables i) (to_i32 slot) ≡ true
    → LockOutcome i slot id h (lock i slot id h)
lock_valid i slot id h w v =
    let (r, e) = get_reservation-valid (h.tables i) (to_i32 slot) w v in
    let done = lock_cases i slot id r h v e in
    elim (Bool-cases (is_locked r)) [
      | inl l ↦ elim (Bool-cases (r.target == id)) [
        | inl mine ↦ inr (
          false,
          h,
          done ∙ rw (l, mine),
          e ∙ ap ok (target_locked r id l mine),
          KeepsLocks-refl i h,
        )
        | inr other ↦ inl (id_mismatch, done ∙ rw (l, other))
      ]
      | inr f ↦ elim (Bool-cases (is_idle r)) [
        | inr busy ↦ inl (cannot_lock, done ∙ rw (f, busy))
        | inl free ↦
            let h' = store i (put_slot (to_i32 slot) (reserve id locked) (h.tables i)) h in
            inr (
              true,
              h',
              done ∙ rw (f, free),
              ap (λ (t : Table). get_reservation t (to_i32 slot)) (store_self i _ h)
                  ∙ get_reservation-put_slot_self (h.tables i) (to_i32 slot) (reserve id locked) w
                      v,
              write_keeps i (to_i32 slot) id r h e free,
            )
      ]
    ]

lock_invalid :
    (i : TableId) (slot : ℕ) (id : MacId) (h : Heap)
    → is_valid (h.tables i) (to_i32 slot) ≡ false
    → (e : Error) × (lock i slot id h ≡ (err e, h))
unfolding lock
lock_invalid i slot id h v = elim (Result-cases (get_reservation (h.tables i) (to_i32 slot))) [
  | inr (e, bad) ↦ (e, rw bad)
  | inl (r, fine) ↦ (invalid_argument, rw (fine, v))
]

pub lock_outcome :
    (i : TableId) (slot : ℕ) (id : MacId) (h : Heap)
    → IsWellFormed (h.tables i)
    → LockOutcome i slot id h (lock i slot id h)
lock_outcome i slot id h w = elim (Bool-cases (is_valid (h.tables i) (to_i32 slot))) [
  | inl v ↦ lock_valid i slot id h w v
  | inr v ↦ inl (lock_invalid i slot id h v)
]
