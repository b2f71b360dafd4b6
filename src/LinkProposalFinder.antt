-- ===== src/LinkProposalFinder.antt =====
-- LinkProposalFinder.cpp: which links a user proposes. It goes through the point-to-point channels
-- from the one with the most idle slots on, as `getSortedP2PReservationTables` of
-- ReservationManager.cpp orders them; of two with as many, the order is not specified by the
-- standard library, and the one that was added first comes first here.
pub mod Proposals
pub mod Queue
use ldacs_mcsotdma.Prelude.{
  ℕ, zero, suc, Bool, true, false, ltb, List, [], ◌∷◌, Option, none, some, ℤ, to_u32, length,
  if◌then◌else◌,
}
use ldacs_mcsotdma.Prelude.Result.{Result, ok, err, ◌>>=◌}
use ldacs_mcsotdma.Table.{TableId, Heap}
use ldacs_mcsotdma.Table.State.{deref}
use ldacs_mcsotdma.Table.Find.{Demand, find_pp_candidates}
use ldacs_mcsotdma.Channel.{is_blocked}
use ldacs_mcsotdma.ReservationManager.{ReservationManager}

-- `top` and `pop` of the queue: the table with the most idle slots, and the others.
pub record Popped : Type 0 where
  pub top : TableId
  pub others : List TableId

abbrev pub fewer_idle : Heap → TableId → TableId → Bool
fewer_idle h i j = ltb (h.tables i).num_idle_future_slots (h.tables j).num_idle_future_slots

abbrev pub with_other : TableId → Popped → Popped
with_other i p = record p { others = i ∷ p.others }

unfoldable pub pop_most_idle : Heap → TableId → List TableId → Popped
pop_most_idle h i [] = record { top = i; others = [] }
pop_most_idle h i (j ∷ js) =
    let later = pop_most_idle h j js in
    let same = pop_most_idle h i js in
    if fewer_idle h i j then with_other i later else with_other j same

-- The tables in the order the queue gives them out; `n` is their number.
unfoldable pub popped_in_order : Heap → ℕ → List TableId → List TableId
unfolding pop_most_idle
popped_in_order h zero is = []
popped_in_order h (suc n) [] = []
popped_in_order h (suc n) (i ∷ is) =
    (pop_most_idle h i is).top ∷ popped_in_order h n (pop_most_idle h i is).others

unfoldable pub get_sorted_p2p_reservation_tables : Heap → ReservationManager → List TableId
unfolding popped_in_order
get_sorted_p2p_reservation_tables h m =
    popped_in_order h (length m.p2p_reservation_tables) m.p2p_reservation_tables

-- The fields of a proposal that are set here.
pub record Proposal : Type 0 where
  pub center_frequency : ℕ
  pub period : ℕ
  pub slot_offset : ℤ

-- One table: its first candidate, unless the channel is blocked or there is none.
abbrev pub first_of : ℕ → ℕ → List ℤ → Option Proposal
first_of f period [] = none
first_of f period (z ∷ zs) =
    some (record { center_frequency = f; period = period; slot_offset = z })

unfoldable pub propose_on : Heap → ℤ → Demand → TableId → Result (Option Proposal)
unfolding find_pp_candidates
propose_on h min_offset d i = deref (h.tables i).freq_channel >>= λ c.
    if is_blocked (h.channels c)
    then ok none
    else find_pp_candidates h i 1 (to_u32 min_offset) d >>= λ zs.
        ok (first_of (h.channels c).center_frequency d.period zs)

abbrev pub kept_going :
    Option Proposal → Result (List Proposal) → Result (List Proposal) → Result (List Proposal)
kept_going none same fewer = same
kept_going (some p) same fewer = fewer >>= λ ps. ok (p ∷ ps)

-- The loop over the queue; `num_proposals` is the number of those still wanted.
unfoldable pub propose_from : Heap → ℤ → Demand → List TableId → ℕ → Result (List Proposal)
unfolding propose_on
propose_from h min_offset d [] num_proposals = ok []
propose_from h min_offset d (i ∷ is) zero = ok []
propose_from h min_offset d (i ∷ is) (suc num_proposals) =
    let same = propose_from h min_offset d is (suc num_proposals) in
    let fewer = propose_from h min_offset d is num_proposals in
    propose_on h min_offset d i >>= λ found. kept_going found same fewer

unfoldable pub find_link_proposals :
    Heap → ReservationManager → ℕ → ℤ → Demand → Result (List Proposal)
unfolding propose_from get_sorted_p2p_reservation_tables
find_link_proposals h m num_proposals min_offset d =
    propose_from h min_offset d (get_sorted_p2p_reservation_tables h m) num_proposals
