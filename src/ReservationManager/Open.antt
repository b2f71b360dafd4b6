-- ===== src/ReservationManager/Open.antt =====
-- A slot that is free: a round of `scheduleBursts` takes it, and the others stay free.
use ldacs_mcsotdma.Prelude.{
  ℕ, suc, ◌≡◌, refl, sym, ap, subst, ◌∙◌, Bool, true, false, List, some, ℤ, All, All-mono,
  if◌then◌else◌,
}
use ldacs_mcsotdma.Prelude.Result.{Result, ok, err, invalid_argument}
use ldacs_mcsotdma.Prelude.Result
use ldacs_mcsotdma.Reservation.{MacId, Action, tx, rx, reserve, is_idle}
use ldacs_mcsotdma.Table.{Table, TableId, Heap, is_valid, get_reservation}
use ldacs_mcsotdma.Table.Mark.{mark}
use ldacs_mcsotdma.Table.Marked.{IsLeaf}
use ldacs_mcsotdma.Table.Index.{get_reservation-valid}
use ldacs_mcsotdma.Table.Forwarding.{IsFrame}
use ldacs_mcsotdma.Table.Free.{Any, IsFree, CanSend, CanListen}
use ldacs_mcsotdma.Table.Atomic.{IsReady, IsMarked, IsGranted}
use ldacs_mcsotdma.Table.Granted.{any_table_hit, Any-map, CanSend-IsGranted, CanListen-IsGranted}
use ldacs_mcsotdma.ReservationManager.{ReservationManager}
use ldacs_mcsotdma.ReservationManager.Schedule.{
  Progress, serves, hardware_available, recorded, write_slot, schedule_slot,
}
use ldacs_mcsotdma.ReservationManager.Taken.{schedule_slot_writes}

abbrev pub direction : Bool → Action
direction b = if b then tx else rx

-- The slot is free for its direction.
abbrev pub IsOpen : Bool → Heap → TableId → ℤ → Type 0
IsOpen true = CanSend
IsOpen false = CanListen

-- The table is linked to the hardware of the manager.
abbrev pub IsWired : ReservationManager → TableId → Heap → Type 0
IsWired m i h =
    (m.hardware_tx_table ≡ (h.tables i).transmitter_reservation_table)
    × (m.hardware_rx_tables ≡ (h.tables i).receiver_reservation_tables)

-- What `scheduleBursts` asks of the hardware for a slot that is idle.
abbrev test_at : MacId → ℤ → Table → Result Bool
test_at target z t = Result.◌>>=◌ (get_reservation t z) (λ res. ok (serves true target res))

free_serves : (target : MacId) (z : ℤ) (t : Table) → IsFree t z → test_at target z t ≡ ok true
free_serves target z t (r, e, idle) = rw (e, idle) refl

leaf_serves :
    (target : MacId) (z : ℤ) (t : Table) → IsLeaf z t → (b : Bool) × (test_at target z t ≡ ok b)
leaf_serves target z t leaf =
    let (r, e) = get_reservation-valid t z leaf.well_formed leaf.valid in (is_idle r, rw e refl)

receiver_available :
    (m : ReservationManager) (i : TableId) (target : MacId) (z : ℤ) (h : Heap) (ks : List TableId)
    → m.hardware_rx_tables ≡ ks
    → All (λ k. IsLeaf z (h.tables k)) ks
    → Any (λ k. IsFree (h.tables k) z) ks
    → hardware_available m rx true target z h ≡ ok true
unfolding hardware_available
receiver_available m i target z h ks e leaves free = rw e (
    any_table_hit (test_at target z) h ks
      (All-mono ks (λ k leaf. leaf_serves target z (h.tables k) leaf) leaves)
      (Any-map _ ks (λ k leaf f. free_serves target z (h.tables k) f) leaves free))

open_available :
    (b : Bool) (m : ReservationManager) (i : TableId) (target : MacId) (z : ℤ) (h : Heap)
    → IsReady z i h
    → IsWired m i h
    → IsOpen b h i z
    → hardware_available m (direction b) true target z h ≡ ok true
unfolding hardware_available
open_available true m i target z h ready wired (here, (j, linked, free)) =
    rw (wired.0, linked) (free_serves target z (h.tables j) free)
open_available false m i target z h ready wired (here, free) =
    receiver_available m i target z h _ wired.1 ready.receivers free

open-IsGranted :
    (depth : ℕ) (b : Bool) (z : ℤ) (i : TableId) (target : MacId) (h : Heap)
    → IsReady z i h
    → IsOpen b h i z
    → IsGranted z i
        (reserve target (direction b))
        h
        (mark (suc (suc depth)) i z (reserve target (direction b)) h)
open-IsGranted depth true = CanSend-IsGranted depth
open-IsGranted depth false = CanListen-IsGranted depth

open_idle : (b : Bool) (h : Heap) (i : TableId) (z : ℤ) → IsOpen b h i z → IsFree (h.tables i) z
open_idle true h i z o = o.0
open_idle false h i z o = o.0

-- A round that schedules its slot.
abbrev pub IsDone : Bool → TableId → MacId → ℤ → Progress → Heap → Result Progress × Heap → Type 0
IsDone b i target z p h o =
    (o.0 ≡ ok (recorded i (direction b) z p)) × IsMarked z i (reserve target (direction b)) h o.1

pub slot-IsDone :
    (depth : ℕ) (b : Bool) (m : ReservationManager) (i : TableId) (target : MacId) (z : ℤ)
    (p : Progress) (h : Heap)
    → IsReady z i h
    → IsWired m i h
    → IsOpen b h i z
    → IsDone b i target z p h
        (schedule_slot (suc (suc depth)) m (some i) target (direction b) z p h)
unfolding write_slot
slot-IsDone depth b m i target z p h ready wired opened =
    let (res, e, idle) = open_idle b h i z opened in
    let available : hardware_available m (direction b) (is_idle res) target z h ≡ ok true =
      ap (λ c. hardware_available m (direction b) c target z h) idle
      ∙ open_available b m i target z h ready wired opened in
    let (n, fine, marked) = open-IsGranted depth b z i target h ready opened in
    let outcome = mark (suc (suc depth)) i z (reserve target (direction b)) h in
    let whole : outcome ≡ (ok n, outcome.1) = ap (λ x. (x, outcome.1)) fine in
    subst (IsDone b i target z p h)
      (sym (
        schedule_slot_writes (suc (suc depth)) m i target (direction b) z p true res h e
          (rw idle refl) available))
      (rw whole (refl, marked))

-- A slot that reads as before in all tables is still free.
pub IsOpen-later :
    (b : Bool) (h h' : Heap) (i : TableId) (z : ℤ)
    → IsFrame h h'
    → ((k : TableId)
        → is_valid (h.tables k) z ≡ true
        → get_reservation (h'.tables k) z ≡ get_reservation (h.tables k) z)
    → IsReady z i h
    → IsOpen b h i z
    → IsOpen b h' i z
IsOpen-later true h h' i z frame same ready ((r, e, idle), (j, linked, (r', e', idle'))) = (
  (r, same i ready.valid ∙ e, idle),
  (j, (frame i).transmitter ∙ linked, (r', same j (ready.transmitter j linked).valid ∙ e', idle')),
)
IsOpen-later false h h' i z frame same ready ((r, e, idle), free) = (
  (r, same i ready.valid ∙ e, idle),
  rw ((frame i).receivers) (
      Any-map _ (h.tables i).receiver_reservation_tables
        (λ k leaf (r', e', idle'). (r', same k leaf.valid ∙ e', idle')) ready.receivers free),
)

pub IsWired-later :
    (m : ReservationManager) (i : TableId) (h h' : Heap)
    → IsFrame h h'
    → IsWired m i h
    → IsWired m i h'
IsWired-later m i h h' frame wired =
    (wired.0 ∙ sym (frame i).transmitter, wired.1 ∙ sym (frame i).receivers)
