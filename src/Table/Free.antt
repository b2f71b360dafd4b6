-- ===== src/Table/Free.antt =====
-- Slots that are free in a table and at its hardware, by the tests of ReservationTable.
use ldacs_mcsotdma.Prelude.{
  ◌≡◌, refl, Bool, true, false, not, inl, inr, ◌⊎◌, Option, none, some, List, [], ◌∷◌, ℤ, arith,
  All, All-mono, Bool-cases, if◌then◌else◌,
}
use ldacs_mcsotdma.Prelude.Result.{Result, ok, err, Error, guard, ◌>>=◌, invalid_argument}
use ldacs_mcsotdma.Reservation.{Reservation, is_idle}
use ldacs_mcsotdma.Table.{Table, TableId, Heap, is_valid, get_reservation}
use ldacs_mcsotdma.Table.State.{deref}
use ldacs_mcsotdma.Table.Query.{is_slot_idle, any_table}
use ldacs_mcsotdma.Table.Find.{
  and_then, is_tx_valid, is_rx_valid, all_slots, slots_valid, Demand, demand_slots, pp_test,
}

-- `and_then` and `all_slots` pass when all their tests do.
pub and_then-true : (a b : Result Bool) → and_then a b ≡ ok true → (a ≡ ok true) × (b ≡ ok true)
and_then-true (ok true) b h = (refl, h)
and_then-true (ok false) b h = cc
and_then-true (err e) b h = cc

all_slots-true :
    (test : ℤ → Result Bool) (slots : List ℤ)
    → all_slots test slots ≡ ok true
    → All (λ z. test z ≡ ok true) slots
unfolding all_slots
all_slots-true test [] h = tt
all_slots-true test (z ∷ zs) h =
    let (first, rest) = and_then-true (test z) (all_slots test zs) h in
    (first, all_slots-true test zs rest)

-- An idle slot, read from the vector.
abbrev pub IsFree : Table → ℤ → Type 0
IsFree t slot = (r : Reservation) × (get_reservation t slot ≡ ok r) × (is_idle r ≡ true)

idle_of_read :
    (t : Table) (slot : ℤ) (o : Result Reservation)
    → get_reservation t slot ≡ o
    → ((o >>= λ r. ok (not (is_idle r))) >>= λ u. ok (not u)) ≡ ok true
    → IsFree t slot
idle_of_read t slot (ok r) e g = (r, e, ground arith)
idle_of_read t slot (err x) e g = cc

pub is_slot_idle-true : (t : Table) (slot : ℤ) → is_slot_idle t slot ≡ ok true → IsFree t slot
unfolding is_slot_idle
is_slot_idle-true t slot h = elim (Bool-cases (is_valid t slot)) [
  | inl v ↦ idle_of_read t slot (get_reservation t slot) refl (rw v at h)
  | inr v ↦ cc (rw v at h)
]

-- The slot is free in the table itself and at its transmitter.
abbrev pub CanSend : Heap → TableId → ℤ → Type 0
CanSend h i slot =
    IsFree (h.tables i) slot
    × ((j : TableId) × ((h.tables i).transmitter_reservation_table ≡ some j)
        × IsFree (h.tables j) slot)

abbrev pub Any {ℓ} : {A : Type ℓ} → (A → Type 0) → List A → Type 0
Any P [] = ⊥
Any P (x ∷ xs) = P x ⊎ Any P xs

-- The slot is free in the table itself and at one of its receivers.
abbrev pub CanListen : Heap → TableId → ℤ → Type 0
CanListen h i slot =
    IsFree (h.tables i) slot
    × Any (λ k. IsFree (h.tables k) slot) (h.tables i).receiver_reservation_tables

deref-ok : (o : Option TableId) (j : TableId) → deref o ≡ ok j → o ≡ some j
deref-ok (some k) j h = ground arith
deref-ok none j h = cc

pub linked_idle :
    (h : Heap) (o : Option TableId) (slot : ℤ)
    → (deref o >>= λ j. is_slot_idle (h.tables j) slot) ≡ ok true
    → (j : TableId) × (o ≡ some j) × IsFree (h.tables j) slot
linked_idle h none slot e = cc
linked_idle h (some j) slot e = (j, refl, is_slot_idle-true (h.tables j) slot e)

is_tx_valid-CanSend :
    (h : Heap) (i : TableId) (slot : ℤ) → is_tx_valid h i slot ≡ ok true → CanSend h i slot
unfolding is_tx_valid
is_tx_valid-CanSend h i slot e =
    let (here, there) = and_then-true (is_slot_idle (h.tables i) slot) _ e in
    (
      is_slot_idle-true (h.tables i) slot here,
      linked_idle h (h.tables i).transmitter_reservation_table slot there,
    )

any_first :
    (a : Result Bool) (rest : Result Bool)
    → (a >>= λ hit. if hit then ok true else rest) ≡ ok true
    → (a ≡ ok true) ⊎ (rest ≡ ok true)
any_first (ok true) rest h = inl refl
any_first (ok false) rest h = inr h
any_first (err e) rest h = cc

any_table-Any :
    (h : Heap) (slot : ℤ) (ks : List TableId)
    → any_table (λ t. is_slot_idle t slot) h ks ≡ ok true
    → Any (λ k. IsFree (h.tables k) slot) ks
unfolding any_table
any_table-Any h slot [] e = cc
any_table-Any h slot (k ∷ ks) e =
    elim (any_first (is_slot_idle (h.tables k) slot) (any_table (λ t. is_slot_idle t slot) h ks)
      e) [
        | inl here ↦ inl (is_slot_idle-true (h.tables k) slot here)
        | inr rest ↦ inr (any_table-Any h slot ks rest)
      ]

is_rx_valid-CanListen :
    (h : Heap) (i : TableId) (slot : ℤ) → is_rx_valid h i slot ≡ ok true → CanListen h i slot
unfolding is_rx_valid
is_rx_valid-CanListen h i slot e =
    let (here, there) = and_then-true (is_slot_idle (h.tables i) slot) _ e in
    (is_slot_idle-true (h.tables i) slot here, any_table-Any h slot _ there)

-- Each transmission slot can be sent in, and each reception slot listened in.
abbrev pub IsUsable : Heap → TableId → List ℤ → List ℤ → Type 0
IsUsable h i tx_slots rx_slots = All (CanSend h i) tx_slots × All (CanListen h i) rx_slots

pub slots_valid-IsUsable :
    (h : Heap) (i : TableId) (tx_slots rx_slots : List ℤ)
    → slots_valid h i tx_slots rx_slots ≡ ok true
    → IsUsable h i tx_slots rx_slots
unfolding slots_valid
slots_valid-IsUsable h i tx_slots rx_slots e =
    let (sends, listens) = and_then-true (all_slots (is_tx_valid h i) tx_slots) _ e in
    (
      All-mono tx_slots (is_tx_valid-CanSend h i) (all_slots-true _ tx_slots sends),
      All-mono rx_slots (is_rx_valid-CanListen h i) (all_slots-true _ rx_slots listens),
    )

guards-true :
    (a b : Bool) (e : Error) (m : Result Bool)
    → (guard a e >>= λ _. guard b e >>= λ _. m) ≡ ok true
    → m ≡ ok true
guards-true true true e m h = h
guards-true true false e m h = cc
guards-true false b e m h = cc

pub pp_test-slots_valid :
    (h : Heap) (i : TableId) (d : Demand) (t : ℤ)
    → pp_test h i d t ≡ ok true
    → slots_valid h i (demand_slots d t).tx_slots (demand_slots d t).rx_slots ≡ ok true
unfolding pp_test
pp_test-slots_valid h i d t e = guards-true _ _ invalid_argument _ e
