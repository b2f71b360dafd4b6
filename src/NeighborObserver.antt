-- ===== src/NeighborObserver.antt =====
-- NeighborObserver.hpp and NeighborObserver.cpp: which neighbors were heard of lately, when their
-- next broadcasts are due, and which links they have advertised. Identifiers are ordered by number.
pub mod Activity
pub mod Delays
use ldacs_mcsotdma.Prelude.{
  ℕ, zero, suc, ◌+◌, ◌-◌, ◌%◌, Bool, true, false, not, ◌&&◌, ◌==◌, ltb, leb, List, [], ◌∷◌, ◌++◌,
  length, Option, none, some, ℤ, pos, negsuc, to_i32, ltb_ℤ, u32_mod, u64_mod, if◌then◌else◌,
}
use ldacs_mcsotdma.Prelude.Result.{Result, ok, err, runtime_error, invalid_argument}
use ldacs_mcsotdma.Prelude.Maps.{Entry, entry, find, put, erase, keys}
use ldacs_mcsotdma.Reservation.{MacId, MacIds}
use ldacs_mcsotdma.MovingAverage.{MovingAverage, moving_average}
use ldacs_mcsotdma.MovingAverage
use ldacs_mcsotdma.ThirdPartyLink.{LinkProposal}

-- An advertised link, with the slot it was saved in.
pub record Advertised : Type 0 where
  pub saved_in : ℕ
  pub proposal : LinkProposal

pub record NeighborObserver : Type 0 where
  pub active_neighbors : List (Entry ℕ)
  pub advertised_broadcast_slots : List (Entry ℕ)
  pub advertised_link_proposals : List (Entry (List Advertised))
  pub avg_last_seen : List (Entry MovingAverage)
  pub first_neighbor_avg_last_seen : MovingAverage
  pub first_neighbor_id : MacId
  pub max_last_seen_val : ℕ

abbrev num_time_slots_to_average : ℕ
num_time_slots_to_average = 10

abbrev pub neighbor_observer : ⦃ids : MacIds⦄ → ℕ → NeighborObserver
neighbor_observer ⦃ids⦄ max_last_seen_val = record {
  active_neighbors = [];
  advertised_broadcast_slots = [];
  advertised_link_proposals = [];
  avg_last_seen = [];
  first_neighbor_avg_last_seen = moving_average num_time_slots_to_average;
  first_neighbor_id = ids.unset;
  max_last_seen_val = max_last_seen_val;
}

abbrev or_zero : Option ℕ → ℕ
or_zero none = 0
or_zero (some n) = n

-- `updateLastSeenCounter`: the slots since the neighbor was last seen, and the observer.
unfoldable pub update_last_seen_counter : MacId → NeighborObserver → ℕ × NeighborObserver
unfolding find put
update_last_seen_counter id o = (
  or_zero (find id o.active_neighbors),
  record o { active_neighbors = put id 0 o.active_neighbors },
)

-- A fallible step on the observer.
abbrev pub Step : Type 0
Step = Result (Unit {0}) × NeighborObserver

-- The average of the first neighbor that was heard of; an exception becomes a `runtime_error`.
abbrev pub first_put : NeighborObserver → Result (Unit {0}) × MovingAverage → Step
first_put o (ok _, m) = (ok tt, record o { first_neighbor_avg_last_seen = m })
first_put o (err e, m) = (err runtime_error, record o { first_neighbor_avg_last_seen = m })

abbrev pub first_id : ⦃ids : MacIds⦄ → MacId → NeighborObserver → MacId
first_id ⦃ids⦄ id o = if o.first_neighbor_id == ids.unset then id else o.first_neighbor_id

unfoldable pub update_first : ⦃ids : MacIds⦄ → MacId → ℕ → NeighborObserver → Step
unfolding MovingAverage.put
update_first id n o =
    if (id == first_id id o) && ltb 0 n
    then first_put (record o { first_neighbor_id = first_id id o })
        (MovingAverage.put n o.first_neighbor_avg_last_seen)
    else (ok tt, record o { first_neighbor_id = first_id id o })

abbrev own_put : MacId → NeighborObserver → Result (Unit {0}) × MovingAverage → Step
own_put id o (r, m) = (r, record o { avg_last_seen = put id m o.avg_last_seen })

-- The neighbor's own average: a new one takes no value that is 0.
unfoldable pub update_own : MacId → ℕ → NeighborObserver → Step
unfolding MovingAverage.put find put
update_own id n o = elim (find id o.avg_last_seen) [
  | none ↦
      if ltb 0 n
      then own_put id o (MovingAverage.put n (moving_average num_time_slots_to_average))
      else own_put id o (ok tt, moving_average num_time_slots_to_average)
  | some m ↦ own_put id o (MovingAverage.put n m)
]

abbrev pub and_then : Step → (NeighborObserver → Step) → Step
and_then (ok _, o) f = f o
and_then (err e, o) f = (err e, o)

-- `updateAvgLastSeen`
unfoldable pub update_avg_last_seen : ⦃ids : MacIds⦄ → MacId → ℕ → NeighborObserver → Step
unfolding update_first update_own
update_avg_last_seen id n o = and_then (update_first id n o) (update_own id n)

unfoldable pub report_activity : ⦃ids : MacIds⦄ → MacId → NeighborObserver → Step
unfolding update_last_seen_counter update_avg_last_seen
report_activity id o = let (n, o') = update_last_seen_counter id o in update_avg_last_seen id n o'

-- One slot less until a broadcast; at 0 the entry is erased.
abbrev ticked : MacId → Option ℕ → List (Entry ℕ) → List (Entry ℕ)
ticked id none slots = slots
ticked id (some n) slots = if ltb 0 n then put id (n - 1) slots else erase id slots

unfoldable pub tick : MacId → List (Entry ℕ) → List (Entry ℕ)
unfolding find put erase
tick id slots = ticked id (find id slots) slots

-- The loop of `onSlotEnd`: the neighbors that stay, and the broadcast slots. What is erased with a
-- neighbor is whatever entry is left of it.
unfoldable pub age_all : ℕ → List (Entry ℕ) → List (Entry ℕ) → List (Entry ℕ) × List (Entry ℕ)
unfolding tick
age_all max_last_seen [] slots = ([], slots)
age_all max_last_seen (e ∷ es) slots =
    let stays = age_all max_last_seen es (tick e.key slots) in
    let goes = age_all max_last_seen es (erase e.key (tick e.key slots)) in
    if leb max_last_seen ((e.value + 1) % u32_mod)
    then goes
    else (entry e.key ((e.value + 1) % u32_mod) ∷ stays.0, stays.1)

unfoldable pub on_slot_end : NeighborObserver → NeighborObserver
unfolding age_all
on_slot_end o =
    let (active, slots) =
      age_all o.max_last_seen_val o.active_neighbors o.advertised_broadcast_slots in
    record o { active_neighbors = active; advertised_broadcast_slots = slots }

abbrev pub get_num_active_neighbors : NeighborObserver → ℕ
get_num_active_neighbors o = length o.active_neighbors

abbrev is_end : Option ℕ → Bool
is_end none = true
is_end (some _) = false

unfoldable pub is_active : MacId → NeighborObserver → Bool
unfolding find
is_active id o = is_end (find id o.active_neighbors)

abbrev pub get_active_neighbors : NeighborObserver → List MacId
get_active_neighbors o = keys o.active_neighbors

unfoldable pub report_broadcast_slot_advertisement : MacId → ℕ → NeighborObserver → NeighborObserver
unfolding put
report_broadcast_slot_advertisement id n o = record o {
  advertised_broadcast_slots = put id n o.advertised_broadcast_slots;
}

abbrev or_throw : Option ℕ → Result ℕ
or_throw none = err invalid_argument
or_throw (some n) = ok n

unfoldable pub get_next_expected_broadcast_slot_offset : MacId → NeighborObserver → Result ℕ
unfolding find
get_next_expected_broadcast_slot_offset id o = or_throw (find id o.advertised_broadcast_slots)

abbrev or_empty : Option (List Advertised) → List Advertised
or_empty none = []
or_empty (some ps) = ps

abbrev cleared : MacId → Option (List Advertised) → NeighborObserver → NeighborObserver
cleared id none o = o
cleared id (some _) o = record o {
  advertised_link_proposals = put id [] o.advertised_link_proposals;
}

unfoldable pub clear_advertised_link_proposals : MacId → NeighborObserver → NeighborObserver
unfolding find put
clear_advertised_link_proposals id o = cleared id (find id o.advertised_link_proposals) o

unfoldable pub add_advertised_link_proposal :
    MacId → ℕ → LinkProposal → NeighborObserver → NeighborObserver
unfolding find put
add_advertised_link_proposal id current_slot proposal o = record o {
  advertised_link_proposals =
      put id
        (or_empty (find id o.advertised_link_proposals)
          ++ record { saved_in = current_slot; proposal = proposal } ∷ [])
        o.advertised_link_proposals;
}

-- `slot_offset -= num_elapsed_slots`, computed in `unsigned long` and converted back to `int`.
abbrev pub to_u64 : ℤ → ℕ
to_u64 (pos n) = n % u64_mod
to_u64 (negsuc n) = u64_mod - 1 - n % u64_mod

abbrev pub normalized_offset : ℕ → Advertised → ℤ
normalized_offset current_slot a = to_i32 (
    (to_u64 a.proposal.slot_offset + (u64_mod - (current_slot + (u64_mod - a.saved_in)) % u64_mod))
    % u64_mod
    % u32_mod)

unfoldable pub valid_proposals : ℕ → List Advertised → List LinkProposal
valid_proposals current_slot [] = []
valid_proposals current_slot (a ∷ as') =
    let rest = valid_proposals current_slot as' in
    if ltb_ℤ (pos 0) (normalized_offset current_slot a)
    then record (a.proposal) { slot_offset = normalized_offset current_slot a } ∷ rest
    else rest

unfoldable pub get_advertised_link_proposals : MacId → ℕ → NeighborObserver → List LinkProposal
unfolding find valid_proposals
get_advertised_link_proposals id current_slot o =
    valid_proposals current_slot (or_empty (find id o.advertised_link_proposals))
