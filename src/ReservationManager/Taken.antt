-- ===== src/ReservationManager/Taken.antt =====
-- What a round of `scheduleBursts` takes, and what it leaves alone.
use ldacs_mcsotdma.Prelude.{
  ℕ, suc, ◌≡◌, ◌≢◌, refl, sym, ap, subst, ◌∙◌, ◌⊎◌, inl, inr, Bool, true, false, ◌||◌, some, ℤ,
  arith, All-mono, Bool-cases, eqb_ℤ,
}
use ldacs_mcsotdma.Prelude.Result.{Result, ok, err, Error, Result-cases}
use ldacs_mcsotdma.Reservation.{MacId, Action, tx, rx, Reservation, reserve, is_idle}
use ldacs_mcsotdma.Table.{TableId, Heap, is_valid, get_reservation}
use ldacs_mcsotdma.Table.Mark.{mark}
use ldacs_mcsotdma.Table.Index.{get_reservation-valid}
use ldacs_mcsotdma.Table.Forwarding.{SameShape-refl, IsFrame, IsFrame-trans, SameShape-IsLeaf}
use ldacs_mcsotdma.Table.Atomic.{IsReady, IsMarked, mark-AllOrNothing}
use ldacs_mcsotdma.ReservationManager.{ReservationManager}
use ldacs_mcsotdma.ReservationManager.Schedule.{
  Progress, can_overwrite, hardware_available, recorded, write_slot, schedule_slot,
}

pub ok-injective : {A : Type 0} (a b : A) → ok a ≡ ok b → a ≡ b
ok-injective a b e = ground arith

true_not_false : true ≢ false
true_not_false e = cc

ℤ_cases : (a b : ℤ) → (a ≡ b) ⊎ (a ≢ b)
ℤ_cases a b = elim (Bool-cases (eqb_ℤ a b)) [
  | inl e ↦ inl (ground arith)
  | inr f ↦ inr (λ same. ground arith)
]

-- The link may take the slot: it is idle, or busy for the link's target.
abbrev pub is_open : MacId → Reservation → Bool
is_open target_id res = is_idle res || can_overwrite target_id res

-- Of table `i`, every slot that is not open to the link is as before.
pub record IsKept (target_id : MacId) (i : TableId) (h h' : Heap) : Type 0 where
  pub frame : IsFrame h h'
  pub kept :
      (z : ℤ) (r : Reservation)
      → is_valid (h.tables i) z ≡ true
      → get_reservation (h.tables i) z ≡ ok r
      → is_open target_id r ≡ false
      → get_reservation (h'.tables i) z ≡ ok r

pub IsKept-refl : (target_id : MacId) (i : TableId) (h : Heap) → IsKept target_id i h h
IsKept-refl target_id i h = record {
  frame = λ k. SameShape-refl (h.tables k);
  kept = λ z r v e o. e;
}

pub IsKept-trans :
    (target_id : MacId) (i : TableId) (h h' h'' : Heap)
    → IsKept target_id i h h'
    → IsKept target_id i h' h''
    → IsKept target_id i h h''
IsKept-trans target_id i h h' h'' f g = record {
  frame = IsFrame-trans h h' h'' f.frame g.frame;
  kept = λ z r v e o. g.kept z r (rw ((f.frame i).horizon) v) (f.kept z r v e o) o;
}

-- Readiness depends on the shape of the tables alone.
pub IsReady-later :
    (z : ℤ) (i : TableId) (h h' : Heap) → IsFrame h h' → IsReady z i h → IsReady z i h'
IsReady-later z i h h' f ready = record {
  well_formed = record {
    short = rw ((f i).horizon) ready.well_formed.short;
    sized = omega (arith, (f i).size, ready.well_formed.sized, (f i).horizon);
  };
  valid = rw ((f i).horizon) ready.valid;
  transmitter = λ j e.
      SameShape-IsLeaf z (h.tables j) (h'.tables j) (f j)
        (ready.transmitter j (sym (f i).transmitter ∙ e));
  receivers = rw ((f i).receivers) (
      All-mono (h.tables i).receiver_reservation_tables
        (λ k leaf. SameShape-IsLeaf z (h.tables k) (h'.tables k) (f k) leaf) ready.receivers);
}

-- A round writes nothing, or the takes slot it was called for.
abbrev pub SlotOutcome :
    MacId → Action → TableId → ℤ → Progress → Heap → Result Progress × Heap → Type 0
SlotOutcome target_id action i z p h o =
    ((o.1 ≡ h) × ((o.0 ≡ ok p) ⊎ ((e : Error) × (o.0 ≡ err e))))
    ⊎ ((o.0 ≡ ok (recorded i action z p))
        × IsMarked z i (reserve target_id action) h o.1
        × ((res : Reservation) × (get_reservation (h.tables i) z ≡ ok res)
            × (is_open target_id res ≡ true)))

write_outcome :
    (depth : ℕ) (i : TableId) (target_id : MacId) (action : Action) (z : ℤ) (p : Progress)
    (b : Bool) (res : Reservation) (h : Heap)
    → IsReady z i h
    → get_reservation (h.tables i) z ≡ ok res
    → is_open target_id res ≡ true
    → SlotOutcome target_id action i z p h (write_slot (suc (suc depth)) i target_id action z p b h)
unfolding write_slot
write_outcome depth i target_id action z p false res h ready e takes = inl (refl, inl refl)
write_outcome depth i target_id action z p true res h ready e takes =
    elim (mark-AllOrNothing depth z i (reserve target_id action) h ready) [
      | inl (n, fine, marked) ↦
          let whole : mark (suc (suc depth)) i z (reserve target_id action) h
              ≡ (ok n, (mark (suc (suc depth)) i z (reserve target_id action) h).1) =
            ap (λ x. (x, (mark (suc (suc depth)) i z (reserve target_id action) h).1)) fine in
          rw whole (inr (refl, marked, (res, e, takes)))
      | inr (x, whole) ↦ rw whole (inl (refl, inr (x, refl)))
    ]

pub schedule_slot_writes :
    (depth : ℕ) (m : ReservationManager) (i : TableId) (target_id : MacId) (action : Action) (z : ℤ)
    (p : Progress) (b : Bool) (res : Reservation) (h : Heap)
    → get_reservation (h.tables i) z ≡ ok res
    → is_open target_id res ≡ true
    → hardware_available m action (is_idle res) target_id z h ≡ ok b
    → schedule_slot depth m (some i) target_id action z p h
      ≡ write_slot depth i target_id action z p b h
unfolding schedule_slot
schedule_slot_writes depth m i target_id action z p b res h e takes eq = rw (e, takes, eq)

pub slot_outcome :
    (depth : ℕ) (m : ReservationManager) (i : TableId) (target_id : MacId) (action : Action) (z : ℤ)
    (p : Progress) (h : Heap)
    → IsReady z i h
    → SlotOutcome target_id action i z p h
        (schedule_slot (suc (suc depth)) m (some i) target_id action z p h)
unfolding schedule_slot
slot_outcome depth m i target_id action z p h ready =
    let (res, e) = get_reservation-valid (h.tables i) z ready.well_formed ready.valid in
    elim (Bool-cases (is_open target_id res)) [
      | inr shut ↦ rw (e, shut, write_slot) (inl (refl, inl refl))
      | inl takes ↦ elim (Result-cases (hardware_available m action (is_idle res) target_id z h)) [
        | inr (x, eq) ↦ rw (e, takes, eq) (inl (refl, inr (x, refl)))
        | inl (b, eq) ↦
            subst (SlotOutcome target_id action i z p h)
              (sym (
                schedule_slot_writes (suc (suc depth)) m i target_id action z p b res h e takes eq))
              (write_outcome depth i target_id action z p b res h ready e takes)
      ]
    ]

pub slot-IsKept :
    (target_id : MacId) (action : Action) (i : TableId) (z : ℤ) (p : Progress) (h : Heap)
    (o : Result Progress × Heap)
    → SlotOutcome target_id action i z p h o
    → IsKept target_id i h o.1
slot-IsKept target_id action i z p h o (inl (same, _)) =
    subst (IsKept target_id i h) (sym same) (IsKept-refl target_id i h)
slot-IsKept target_id action i z p h o (inr (_, marked, (res, e, takes))) = record {
  frame = marked.frame;
  kept = λ z' r v e' shut. other z' r v e' shut (ℤ_cases z z');
}
  where
    other :
        (z' : ℤ) (r : Reservation)
        → is_valid (h.tables i) z' ≡ true
        → get_reservation (h.tables i) z' ≡ ok r
        → is_open target_id r ≡ false
        → (z ≡ z') ⊎ (z ≢ z')
        → get_reservation (o.1.tables i) z' ≡ ok r
    other z' r v e' shut (inl same) = absurd (
        clash res r (ok-injective res r (sym e ∙ ap (get_reservation (h.tables i)) same ∙ e')) takes
          shut)
      where
        clash :
            (a b : Reservation)
            → a ≡ b
            → is_open target_id a ≡ true
            → is_open target_id b ≡ false
            → ⊥
        clash a b same' t f = true_not_false (sym t ∙ ap (is_open target_id) same' ∙ f)
    other z' r v e' shut (inr ne) = marked.elsewhere i z' v ne ∙ e'

-- A slot that the link has taken is closed to it from then on.
taken_shut :
    (target_id : MacId) (action : Action)
    → (action ≡ tx) ⊎ (action ≡ rx)
    → is_open target_id (reserve target_id action) ≡ false
taken_shut target_id action (inl e) = rw e
taken_shut target_id action (inr e) = rw e

abbrev pub Holds : MacId → Action → TableId → Heap → ℤ → Type 0
Holds target_id action i h z =
    (is_valid (h.tables i) z ≡ true)
    × (get_reservation (h.tables i) z ≡ ok (reserve target_id action))

pub Holds-later :
    (target_id : MacId) (action : Action) (i : TableId) (h h' : Heap) (z : ℤ)
    → (action ≡ tx) ⊎ (action ≡ rx)
    → IsKept target_id i h h'
    → Holds target_id action i h z
    → Holds target_id action i h' z
Holds-later target_id action i h h' z a k (v, e) = (
  rw ((k.frame i).horizon) v,
  k.kept z (reserve target_id action) v e (taken_shut target_id action a),
)
