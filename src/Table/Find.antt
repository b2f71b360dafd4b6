-- ===== src/Table/Find.antt =====
-- The searches of ReservationTable: which slots a burst, a broadcast or a point-to-point link can
-- use. A loop over `t` takes the number of rounds left; both `t` and the horizon are compared as
-- unsigned numbers.
use ldacs_mcsotdma.Prelude.{
  ℕ, zero, suc, ◌+◌, ◌-◌, ◌%◌, Bool, true, false, not, ◌&&◌, List, [], ◌∷◌, ◌++◌, Option, none,
  some, ℤ, pos, ◌+ℤ◌, to_u32, to_i32, u32_mod, ◌==◌, if◌then◌else◌,
}
use ldacs_mcsotdma.Prelude.Result.{
  Result, ok, err, guard, ◌>>=◌, invalid_argument, runtime_error, range_error, is_invalid_argument,
  is_range_error,
}
use ldacs_mcsotdma.Prelude.{◌||◌}
use ldacs_mcsotdma.Table.{Table, TableId, Heap, is_valid}
use ldacs_mcsotdma.Table.State.{deref}
use ldacs_mcsotdma.Table.Query.{is_slot_idle, is_range_idle, any_table}
use ldacs_mcsotdma.SlotCalculator.{Slots, calculate_alternating_bursts}

-- `a && b`: the second test is made only if the first passes.
abbrev pub and_then : Result Bool → Result Bool → Result Bool
and_then a b = a >>= λ first. if first then b else ok false

-- `std::any_of` over the linked receivers; with none linked the source takes them for idle.
unfoldable pub any_receiver : (Table → Result Bool) → Heap → List TableId → Result Bool
unfolding any_table
any_receiver test h [] = ok true
any_receiver test h (j ∷ js) = any_table test h (j ∷ js)

-- Whether a receiver is idle for the slots behind the transmission.
unfoldable pub trailing_receiver_idle : Heap → List TableId → ℤ → ℕ → ℕ → Result Bool
unfolding any_receiver is_range_idle
trailing_receiver_idle h rx_tables start_slot burst_length burst_length_tx =
    let burst_length_rx = (burst_length + u32_mod - burst_length_tx) % u32_mod in
    let slot_rx = (to_u32 start_slot + burst_length_tx) % u32_mod in
    if burst_length_rx == 0
    then ok true
    else any_receiver (λ t. is_range_idle t (to_i32 slot_rx) burst_length_rx) h rx_tables

-- The test of the first slot: its answer goes into `receiver_idle = receiver_idle && true`.
unfoldable pub first_slot_receiver_idle : Heap → List TableId → ℤ → Bool → Result Bool
unfolding any_receiver is_slot_idle
first_slot_receiver_idle h rx_tables start_slot rx_idle_during_first_slot =
    if rx_idle_during_first_slot
    then any_receiver (λ t. is_slot_idle t start_slot) h rx_tables
    else ok true

-- What is asked of the hardware once the table itself is idle.
unfoldable pub hardware_idle : Heap → Table → ℤ → ℕ → ℕ → Bool → Result Bool
unfolding is_range_idle trailing_receiver_idle first_slot_receiver_idle
hardware_idle h this start_slot burst_length burst_length_tx rx_idle_during_first_slot = do
  tx_table ← deref this.transmitter_reservation_table
  transmitter_idle ← is_range_idle (h.tables tx_table) start_slot burst_length_tx
  receiver_idle ←
      trailing_receiver_idle h this.receiver_reservation_tables start_slot burst_length
        burst_length_tx
  _ ←
      first_slot_receiver_idle h this.receiver_reservation_tables start_slot
        rx_idle_during_first_slot
  ok (transmitter_idle && receiver_idle)

unfoldable pub is_burst_valid : Heap → TableId → ℤ → ℕ → ℕ → Bool → Result Bool
unfolding is_range_idle hardware_idle
is_burst_valid h i start_slot burst_length burst_length_tx rx_idle_during_first_slot =
    and_then (is_range_idle (h.tables i) start_slot burst_length) (
      hardware_idle h (h.tables i) start_slot burst_length burst_length_tx
        rx_idle_during_first_slot)

unfoldable pub is_tx_valid : Heap → TableId → ℤ → Result Bool
unfolding is_slot_idle
is_tx_valid h i slot = and_then (is_slot_idle (h.tables i) slot) (
    deref (h.tables i).transmitter_reservation_table >>= λ tx_table.
    is_slot_idle (h.tables tx_table) slot)

unfoldable pub is_rx_valid : Heap → TableId → ℤ → Result Bool
unfolding is_slot_idle any_table
is_rx_valid h i slot =
    and_then (is_slot_idle (h.tables i) slot)
      (any_table (λ t. is_slot_idle t slot) h (h.tables i).receiver_reservation_tables)

-- `std::all_of` over slots
unfoldable pub all_slots : (ℤ → Result Bool) → List ℤ → Result Bool
all_slots test [] = ok true
all_slots test (slot ∷ slots) = let rest = all_slots test slots in and_then (test slot) rest

unfoldable pub slots_valid : Heap → TableId → List ℤ → List ℤ → Result Bool
unfolding is_tx_valid is_rx_valid all_slots
slots_valid h i tx_slots rx_slots =
    and_then (all_slots (is_tx_valid h i) tx_slots) (all_slots (is_rx_valid h i) rx_slots)

unfoldable pub is_link_valid : Heap → TableId → ℤ → ℕ → ℕ → ℕ → ℕ → Bool → Result Bool
unfolding slots_valid calculate_alternating_bursts
is_link_valid h i start period num_tx_initiator num_tx_recipient timeout is_link_initiator =
    if is_link_initiator
    then slots_valid h i slots.tx_slots slots.rx_slots
    else slots_valid h i slots.rx_slots slots.tx_slots
  where
    slots : Slots
    slots = calculate_alternating_bursts start num_tx_initiator num_tx_recipient period timeout

-- What a search for a point-to-point link is asked for.
pub record Demand : Type 0 where
  pub num_forward_bursts : ℕ
  pub num_reverse_bursts : ℕ
  pub period : ℕ
  pub timeout : ℕ

abbrev pub demand_slots : Demand → ℤ → Slots
demand_slots d t =
    calculate_alternating_bursts t d.num_forward_bursts d.num_reverse_bursts d.period d.timeout

abbrev pub is_empty : List ℤ → Bool
is_empty [] = true
is_empty (_ ∷ _) = false

-- One round of the search.
unfoldable pub pp_test : Heap → TableId → Demand → ℤ → Result Bool
unfolding slots_valid calculate_alternating_bursts
pp_test h i d t = do
  _ ← guard (not (is_empty (demand_slots d t).tx_slots)) invalid_argument
  _ ← guard (not (is_empty (demand_slots d t).rx_slots)) invalid_argument
  slots_valid h i (demand_slots d t).tx_slots (demand_slots d t).rx_slots

-- The first `t` that passes; `range_error` if none does.
unfoldable pub first_slot_from : (ℤ → Result Bool) → ℕ → ℤ → Result ℤ
first_slot_from test zero t = err range_error
first_slot_from test (suc rounds) t =
    let rest = first_slot_from test rounds (t +ℤ pos 1) in
    test t >>= λ hit. if hit then ok t else rest

unfoldable pub find_earliest_idle_slots_pp : Heap → TableId → Demand → ℤ → Result ℤ
unfolding pp_test first_slot_from
find_earliest_idle_slots_pp h i d start =
    first_slot_from (pp_test h i d) ((h.tables i).planning_horizon - to_u32 start) start

abbrev pub is_linked : Option TableId → Bool
is_linked none = false
is_linked (some _) = true

unfoldable pub find_earliest_idle_slots_bc : Heap → TableId → ℕ → Result ℤ
unfolding is_burst_valid first_slot_from
find_earliest_idle_slots_bc h i start_offset = do
  _ ← guard (is_valid (h.tables i) (to_i32 start_offset)) invalid_argument
  _ ← guard (is_linked (h.tables i).transmitter_reservation_table) runtime_error
  first_slot_from (λ t. is_burst_valid h i t 1 1 false)
      ((h.tables i).planning_horizon - start_offset) (to_i32 start_offset)

-- The loops of `findSHCandidates` and `findPPCandidates`: each next search starts after the slot
-- found last; the first that throws ends the loop, if its exception is one of the two caught.
unfoldable pub candidates : (ℤ → Result ℤ) → ℕ → ℤ → List ℤ → Result (List ℤ)
candidates find zero last_offset found = ok found
candidates find (suc rounds) last_offset found = elim (find last_offset) [
  | ok start_slot ↦ candidates find rounds (start_slot +ℤ pos 1) (found ++ start_slot ∷ [])
  | err e ↦ if is_range_error e || is_invalid_argument e then ok found else err e
]

unfoldable pub find_sh_candidates : Heap → TableId → ℕ → ℤ → Result (List ℤ)
unfolding find_earliest_idle_slots_bc candidates
find_sh_candidates h i num_candidates min_offset =
    candidates (λ t. find_earliest_idle_slots_bc h i (to_u32 t)) num_candidates min_offset []

unfoldable pub find_pp_candidates : Heap → TableId → ℕ → ℕ → Demand → Result (List ℤ)
unfolding find_earliest_idle_slots_pp candidates
find_pp_candidates h i num_proposal_slots min_offset d =
    candidates (find_earliest_idle_slots_pp h i d) num_proposal_slots (to_i32 min_offset) []
