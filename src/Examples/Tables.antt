-- ===== src/Examples/Tables.antt =====
-- Examples of ReservationTable: reservations and searches on a table with free hardware.
use ldacs_mcsotdma.Prelude.{
  negsuc, ℕ, zero, suc, ◌+◌, ◌≡◌, ◌≢◌, ◌<◌, ◌≤◌, refl, subst, Bool, true, false, ◌⊎◌, Option, none,
  some, List, [], ◌∷◌, pos, ◌+ℤ◌, arith, All, length, get_elem?,
}
use ldacs_mcsotdma.Prelude.Result.{Result, ok, err, Error, no_tx_available, id_mismatch}
use ldacs_mcsotdma.Reservation.{reserve, unreserved, busy, rx, tx}
use ldacs_mcsotdma.Table.{Table, TableId, Heap, get_reservation}
use ldacs_mcsotdma.Table.State.{put_slot, store}
use ldacs_mcsotdma.Table.Mark.{mark, write}
use ldacs_mcsotdma.Table.Lock.{lock, unlock}
use ldacs_mcsotdma.Table.Find.{
  Demand, demand_slots, pp_test, find_earliest_idle_slots_pp, find_pp_candidates,
  find_earliest_idle_slots_bc, is_burst_valid,
}
use ldacs_mcsotdma.Table.Shift.{updated, get_tx_reservations, integrate_tx_reservations}
use ldacs_mcsotdma.Prelude.Maps.{entry}
use ldacs_mcsotdma.Reservation.{tx_beacon}
use ldacs_mcsotdma.BeaconPayload.Copied.{local_reservations-copied}
use ldacs_mcsotdma.BeaconPayload.{Payload, encode, local_reservations, copied}
use ldacs_mcsotdma.BeaconPayload.Encoded.{EncodeOutcome, encode-transmissions}
use ldacs_mcsotdma.Table.Integrated.{integrate_sent, integrated_at}
use ldacs_mcsotdma.Table.Index.{IsWellFormed}
use ldacs_mcsotdma.Table.Idle.{count_idle}
use ldacs_mcsotdma.Table.Counter.{CountsWrite, write_counts}
use ldacs_mcsotdma.Table.Elapse.{IsElapsed, updated-IsElapsed}
use ldacs_mcsotdma.Table.Marked.{IsLeaf}
use ldacs_mcsotdma.Table.Atomic.{IsReady, AllOrNothing, mark-AllOrNothing}
use ldacs_mcsotdma.Table.Hardware.{mark_transmission, release_keeps_receivers}
use ldacs_mcsotdma.Table.Held.{lock_excludes}
use ldacs_mcsotdma.Table.Free.{IsUsable, CanSend}
use ldacs_mcsotdma.Table.Search.{find_pp_earliest, find_pp_complete, Ascends}
use ldacs_mcsotdma.Table.Candidates.{find_pp_candidates-IsUsable, find_bc_earliest}
use ldacs_mcsotdma.Examples.{test_ids, fresh, linked_heap}

fresh-IsWellFormed : (o : Option TableId) (ks : List TableId) → IsWellFormed (fresh o ks)
fresh-IsWellFormed o ks = record { short = omega arith; sized = refl }

leaf : IsLeaf (pos 2) (fresh none [])
leaf = record {
  well_formed = fresh-IsWellFormed none [];
  valid = refl;
  no_transmitter = refl;
  no_receivers = refl;
}

some-injective : (a b : TableId) → some a ≡ some b → a ≡ b
some-injective a b e = ground arith

ready : IsReady (pos 2) 0 linked_heap
ready = record {
  well_formed = fresh-IsWellFormed (some 1) (2 ∷ []);
  valid = refl;
  transmitter =
      λ j e. subst (λ k. IsLeaf (pos 2) (linked_heap.tables k)) (some-injective 1 j e) leaf;
  receivers = (leaf, tt);
}

mark-AllOrNothing_example :
    AllOrNothing (pos 2) 0 (reserve 7 tx) linked_heap (mark 2 0 (pos 2) (reserve 7 tx) linked_heap)
mark-AllOrNothing_example = mark-AllOrNothing 0 (pos 2) 0 (reserve 7 tx) linked_heap ready

mark_transmission_example :
    let outcome = mark 2 0 (pos 2) (reserve 7 tx) linked_heap in
    ((true ≡ true)
      × (get_reservation (outcome.1.tables 0) (pos 2) ≡ ok (reserve 7 tx))
      × (get_reservation (outcome.1.tables 1) (pos 2) ≡ ok (reserve 7 tx)))
    ⊎ ((true ≡ false) × (outcome ≡ (err no_tx_available, linked_heap)))
mark_transmission_example =
    mark_transmission 0 (pos 2) 0 1 (reserve 7 tx) unreserved unreserved linked_heap ready refl refl
      refl refl refl

-- The channel and its receiver listen for user 7 in slot 2.
abbrev listening : Option TableId → List TableId → Table
listening o ks = put_slot (pos 2) (reserve 7 rx) (fresh o ks)

abbrev listening_heap : Heap
listening_heap = store 2 (listening none []) (store 0 (listening (some 1) (2 ∷ [])) linked_heap)

listening-IsLeaf : IsLeaf (pos 2) (listening none [])
listening-IsLeaf = record {
  well_formed = record { short = omega arith; sized = refl };
  valid = refl;
  no_transmitter = refl;
  no_receivers = refl;
}

listening-IsReady : IsReady (pos 2) 0 listening_heap
listening-IsReady = record {
  well_formed = record { short = omega arith; sized = refl };
  valid = refl;
  transmitter =
      λ j e. subst (λ k. IsLeaf (pos 2) (listening_heap.tables k)) (some-injective 1 j e) leaf;
  receivers = (listening-IsLeaf, tt);
}

release_keeps_receivers_example :
    (mark 2 0 (pos 2) unreserved listening_heap).1
    ≡ store 0 (write (pos 2) (reserve 7 rx) unreserved (listening (some 1) (2 ∷ []))) listening_heap
release_keeps_receivers_example =
    release_keeps_receivers 0 (pos 2) 0 unreserved (reserve 7 rx) listening_heap listening-IsReady
      refl refl refl ((reserve 7 rx, refl, refl), tt)

lock_excludes_example :
    let h' = (lock 0 3 7 linked_heap).1 in
    ((lock 0 3 7 linked_heap).0 ≡ ok true)
    × (lock 0 3 9 h' ≡ (err id_mismatch, h'))
    × (lock 0 3 7 h' ≡ (ok false, h'))
    × (unlock 0 3 9 h' ≡ (err id_mismatch, h'))
    × (get_reservation ((unlock 0 3 7 h').1.tables 0) (pos 3) ≡ ok unreserved)
lock_excludes_example =
    lock_excludes 0 3 7 unreserved linked_heap (fresh-IsWellFormed (some 1) (2 ∷ [])) refl refl refl
      9 (λ e. absurd (omega (arith, e))) (λ e. absurd (omega (arith, e)))

-- A transmission in a slot that is over: the counter is wrong afterwards.
write_counts_example : CountsWrite (negsuc 1) unreserved (reserve 7 tx) (fresh none [])
unfolding count_idle
write_counts_example =
    write_counts (negsuc 1) (fresh none []) unreserved (reserve 7 tx) (fresh-IsWellFormed none [])
      refl refl refl

updated-IsElapsed_example :
    (t' : Table) × (updated (listening none []) 2 ≡ ok t') × IsElapsed (listening none []) 2 t'
updated-IsElapsed_example =
    updated-IsElapsed (listening none []) 2 listening-IsLeaf.well_formed (omega arith)

-- One burst each way, five slots apart; the channel is busy in slot 1.
abbrev one_each : Demand
one_each = record { num_forward_bursts = 1; num_reverse_bursts = 1; period = 0; timeout = 1 }

abbrev busy_heap : Heap
busy_heap = store 0 (put_slot (pos 1) (reserve 7 busy) (fresh (some 1) (2 ∷ []))) linked_heap

find_pp_earliest_example :
    (k : ℕ) × (pos 2 ≡ pos (1 + k))
    × (1 + k < 8)
    × IsUsable busy_heap 0 (pos 2 ∷ []) (pos 7 ∷ [])
    × ((j : ℕ) → j < k → pp_test busy_heap 0 one_each (pos (1 + j)) ≡ ok false)
unfolding find_earliest_idle_slots_pp ◌+ℤ◌
find_pp_earliest_example = find_pp_earliest busy_heap 0 one_each 1 (pos 2) (omega arith) refl

ok_false_not_err : (r : Result Bool) → r ≡ ok false → (e : Error) → r ≢ err e
ok_false_not_err r h e q = cc

one_does_not_throw :
    (j : ℕ) (e : Error) → 1 + j < 2 → pp_test busy_heap 0 one_each (pos (1 + j)) ≢ err e
unfolding pp_test ◌+ℤ◌
one_does_not_throw zero e h = ok_false_not_err _ refl e
one_does_not_throw (suc j) e h = absurd (omega arith)

find_pp_complete_example :
    (k : ℕ) × (1 + k ≤ 2)
    × (find_earliest_idle_slots_pp busy_heap 0 one_each (pos 1) ≡ ok (pos (1 + k)))
unfolding pp_test ◌+ℤ◌
find_pp_complete_example =
    find_pp_complete busy_heap 0 one_each 1 2 (omega arith) (omega arith) (omega arith) refl
      one_does_not_throw

find_pp_candidates-IsUsable_example :
    (length (pos 2 ∷ pos 3 ∷ []) ≤ 3)
    × Ascends (pos 1) (pos 2 ∷ pos 3 ∷ [])
    × All
        (λ z.
          IsUsable busy_heap 0
            (demand_slots one_each z).tx_slots
            (demand_slots one_each z).rx_slots)
        (pos 2 ∷ pos 3 ∷ [])
unfolding find_pp_candidates ◌+ℤ◌
find_pp_candidates-IsUsable_example =
    find_pp_candidates-IsUsable busy_heap 0 3 1 one_each (pos 2 ∷ pos 3 ∷ []) refl

find_bc_earliest_example :
    (k : ℕ) × (pos 2 ≡ pos (1 + k))
    × (1 + k < 8)
    × CanSend busy_heap 0 (pos 2)
    × ((j : ℕ) → j < k → is_burst_valid busy_heap 0 (pos (1 + j)) 1 1 false ≡ ok false)
unfolding find_earliest_idle_slots_bc ◌+ℤ◌
find_bc_earliest_example = find_bc_earliest busy_heap 0 1 (pos 2) (omega arith) refl

-- Slot 3 is used to send to user 7, slot 4 to receive from it.
abbrev sending : Table
sending = put_slot (pos 3) (reserve 7 tx) (put_slot (pos 4) (reserve 7 rx) (fresh none []))

abbrev sent_to_7 : Table
sent_to_7 = put_slot (pos 3) (reserve 7 tx) (fresh none [])

integrate_sent_example :
    let new = (integrate_tx_reservations 0 sent_to_7 linked_heap).1.tables 0 in
    ((integrate_tx_reservations 0 sent_to_7 linked_heap).0 ≡ ok tt)
    × ((k : ℕ)
        → get_elem? new.slot_utilization_vec k
          ≡ integrated_at 7
              (get_elem? (linked_heap.tables 0).slot_utilization_vec k)
              (get_elem? sending.slot_utilization_vec k))
    × (new.num_idle_future_slots ≡ (linked_heap.tables 0).num_idle_future_slots)
    × ((j : TableId)
        → j ≢ 0
        → (integrate_tx_reservations 0 sent_to_7 linked_heap).1.tables j ≡ linked_heap.tables j)
unfolding get_tx_reservations
integrate_sent_example = integrate_sent 0 sending sent_to_7 7 linked_heap refl refl refl

encode-transmissions_example :
    (p' : Payload) × (encode 960 sending [] ≡ ok p') × EncodeOutcome sending 960 1 8 [] p'
encode-transmissions_example =
    encode-transmissions 960 sending [] (record { short = omega arith; sized = refl }) (omega arith)

abbrev two_listed : Payload
two_listed =
    entry 960
      (record { slot_offset = 3; action = tx } ∷ record { slot_offset = 5; action = tx } ∷ [])
    ∷ entry 961 (record { slot_offset = 4; action = tx_beacon } ∷ [])
    ∷ []

local_reservations-copied_example :
    local_reservations 960 (copied two_listed) ≡ local_reservations 960 two_listed
local_reservations-copied_example =
    local_reservations-copied 960 two_listed (((λ e. absurd (omega (arith, e))), tt), (tt, tt))
