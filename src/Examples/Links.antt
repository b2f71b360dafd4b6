-- ===== src/Examples/Links.antt =====
-- Examples of ReservationMap, ReservationManager and ThirdPartyLink.
use mathlib.Core.List.{Perm}
use ldacs_mcsotdma.Prelude.{
  ◌+◌, ◌≡◌, ◌≤◌, length, refl, inl, inr, subst, true, false, Option, none, some, List, [], ◌∷◌, ℤ,
  pos, ◌-ℤ◌, ◌+ℤ◌, ◌-◌, if◌then◌else◌, arith, All, Bool-cases, ◌==◌,
}
use ldacs_mcsotdma.Prelude.Result.{ok}
use ldacs_mcsotdma.Prelude.Maps.{entry}
use ldacs_mcsotdma.Reservation.{reserve, tx, locked, is_tx}
use ldacs_mcsotdma.SlotCalculator.{calculate_alternating_bursts}
use ldacs_mcsotdma.Table.{Table, TableId, Heap, table, is_valid}
use ldacs_mcsotdma.Table.State.{put_slot, store}
use ldacs_mcsotdma.Table.Index.{IsWellFormed}
use ldacs_mcsotdma.Table.Marked.{IsLeaf}
use ldacs_mcsotdma.Table.Atomic.{IsReady}
use ldacs_mcsotdma.ReservationMap.{
  Resource, ReservationMap, Match, no_match, get_next_tx_reservation, unlock_map,
}
use ldacs_mcsotdma.ReservationMap.Next.{NotLater, ComesFrom, next_tx_earliest}
use ldacs_mcsotdma.ReservationMap.Released.{IsFormedHeap, IsReleased}
use ldacs_mcsotdma.ReservationMap.Unlocked.{ListOutcome, unlock_map_frees}
use ldacs_mcsotdma.ReservationManager.{find_index, ReservationManager, get_reservation_table}
use ldacs_mcsotdma.ReservationManager.Schedule.{Link, schedule_bursts}
use ldacs_mcsotdma.ReservationManager.Scheduled.{BurstsOutcome, schedule_bursts_holds}
use ldacs_mcsotdma.ReservationManager.{Remote}
use ldacs_mcsotdma.ReservationManager.Sent.{
  all_tx_reservations, AllSent, all_tx_reservations-AllSent,
}
use ldacs_mcsotdma.ThirdPartyLink.{
  ThirdPartyLink, LinkProposal, Mac, received_request_awaiting_reply, third_party_link, normalized,
  on_link_slot_start,
}
use ldacs_mcsotdma.ThirdPartyLink.Handlers.{reset}
use ldacs_mcsotdma.ThirdPartyLink.Reset.{IsGivenBack, reset_releases}
use ldacs_mcsotdma.ThirdPartyLink.Countdown.{slot_start_split}
use ldacs_mcsotdma.Table.State.{pure}
use ldacs_mcsotdma.Table.Find.{Demand}
use ldacs_mcsotdma.LinkProposalFinder.{
  Proposal, find_link_proposals, get_sorted_p2p_reservation_tables,
}
use ldacs_mcsotdma.LinkProposalFinder.Proposals.{
  AllProposable, IsSorted, find_link_proposals-AllProposable,
  get_sorted_p2p_reservation_tables-IsSorted,
}
use ldacs_mcsotdma.Examples.{test_ids, fresh, linked_heap}

-- Slot 4 of the channel is used to send to user 7, slot 2 is locked for user 5.
abbrev used : Table
used =
    put_slot (pos 2) (reserve 5 locked) (put_slot (pos 4) (reserve 7 tx) (fresh (some 1) (2 ∷ [])))

abbrev pub used_heap : Heap
used_heap = store 0 used linked_heap

abbrev pub at_table : ℤ → Resource
at_table z = record { table = 0; slot_offset = z }

-- A map made one slot ago.
abbrev pub used_map : ReservationMap
used_map = record {
  scheduled_resources = at_table (pos 6) ∷ at_table (pos 5) ∷ at_table (pos 0) ∷ [];
  locked_resources = at_table (pos 3) ∷ [];
  num_slots_since_creation = 1;
}

abbrev next_match : Match
next_match = record { closest = pos 4; best = some 0; best_offset = pos 4 }

next_tx_earliest_example :
    All (NotLater is_tx used_heap 1 (pos 4)) used_map.scheduled_resources
    × ComesFrom is_tx used_heap 1 used_map.scheduled_resources no_match next_match
unfolding get_next_tx_reservation ◌-ℤ◌
next_tx_earliest_example = next_tx_earliest used_heap used_map next_match refl

used-IsWellFormed : IsWellFormed used
used-IsWellFormed = record { short = omega arith; sized = refl }

pub fresh-IsWellFormed : (o : Option TableId) (ks : List TableId) → IsWellFormed (fresh o ks)
fresh-IsWellFormed o ks = record { short = omega arith; sized = refl }

pub used-IsFormedHeap : IsFormedHeap used_heap
used-IsFormedHeap k = elim (Bool-cases (k == 0)) [
  | inl e ↦ rw e used-IsWellFormed
  | inr e ↦ rw e (fresh-IsWellFormed none [])
]

unlock_map_frees_example :
    ListOutcome 5 6 1 (at_table (pos 3) ∷ []) used_heap (unlock_map 5 6 used_map used_heap)
unlock_map_frees_example = unlock_map_frees 5 6 used_map used_heap used-IsFormedHeap

-- Channel 0 with table 0 is the shared one, channel 1 with table 3 a point-to-point one.
abbrev pub test_manager : ReservationManager
test_manager = record {
  planning_horizon = 8;
  broadcast_frequency_channel = some 0;
  broadcast_reservation_table = some 3;
  p2p_frequency_channels = 1 ∷ [];
  p2p_reservation_tables = 0 ∷ [];
  p2p_channel_map = record { center_frequency = 960; index = 0 } ∷ [];
  p2p_table_map = entry 0 0 ∷ [];
  hardware_tx_table = some 1;
  hardware_rx_tables = 2 ∷ [];
}

abbrev pub managed_heap : Heap
managed_heap = record {
  tables = linked_heap.tables;
  channels = λ c. record {
    is_p2p = if c == 0 then false else true;
    center_frequency = 960 + c - 1;
    bandwidth = 500;
    is_blacklisted = false;
  };
}

abbrev pub short_link : Link
short_link = record {
  start_slot_offset = pos 1;
  num_forward_bursts = 1;
  num_reverse_bursts = 1;
  period = 0;
  timeout = 1;
  initiator_id = 5;
  recipient_id = 7;
  is_link_initiator = true;
}

leaf : (z : ℤ) → is_valid (fresh none []) z ≡ true → IsLeaf z (fresh none [])
leaf z v = record {
  well_formed = fresh-IsWellFormed none [];
  valid = v;
  no_transmitter = refl;
  no_receivers = refl;
}

some-injective : (a b : TableId) → some a ≡ some b → a ≡ b
some-injective a b e = ground arith

pub ready : (z : ℤ) → is_valid (fresh none []) z ≡ true → IsReady z 0 managed_heap
ready z v = record {
  well_formed = fresh-IsWellFormed (some 1) (2 ∷ []);
  valid = v;
  transmitter =
      λ j e. subst (λ k. IsLeaf z (managed_heap.tables k)) (some-injective 1 j e) (leaf z v);
  receivers = (leaf z v, tt);
}

schedule_bursts_holds_example :
    BurstsOutcome short_link 0 managed_heap
      (schedule_bursts 2 test_manager (some 1) short_link managed_heap)
unfolding get_reservation_table ◌+ℤ◌ calculate_alternating_bursts
schedule_bursts_holds_example =
    schedule_bursts_holds 0 test_manager (some 1) 0 short_link managed_heap refl
      ((ready (pos 1) refl, tt), (ready (pos 6) refl, tt))

abbrev new_table : Table
new_table = fresh none []

abbrev pub a_proposal : LinkProposal
a_proposal = record {
  center_frequency = 960;
  period = 0;
  slot_offset = pos 2;
  num_tx_initiator = 1;
  num_tx_recipient = 1;
}

abbrev test_mac : Mac
test_mac = record {
  reservation_manager = test_manager;
  default_pp_link_timeout = 1;
  next_expected_broadcast = λ id. ok 6;
  report_expected_reply = λ z id. pure tt;
  no_proposal = a_proposal;
}

-- The link of users 5 and 6, whose reply is due in six slots.
abbrev waiting_link : ThirdPartyLink
waiting_link = record (third_party_link test_mac 5 6) {
  status = received_request_awaiting_reply;
  locked_resources_for_initiator = record {
    scheduled_resources = [];
    locked_resources = at_table (pos 3) ∷ [];
    num_slots_since_creation = 1;
  };
  num_slots_until_expected_link_reply = pos 6;
  normalization_offset = pos 1;
}

reset_releases_example :
    (h' : Heap) × (reset 2 test_mac waiting_link used_heap
      ≡ (ok tt, (third_party_link test_mac 5 6, h')))
    × IsReleased used_heap h'
    × All (IsGivenBack 5 6 1 used_heap h') (at_table (pos 3) ∷ [])
    × All (IsGivenBack 6 5 0 used_heap h') []
reset_releases_example = reset_releases 2 test_mac waiting_link used_heap used-IsFormedHeap refl

slot_start_split_example :
    let one = on_link_slot_start 2 waiting_link in
    let two = on_link_slot_start 3 one.1 in
    let whole = on_link_slot_start 5 waiting_link in
    (one.0 ≡ ok tt)
    × (two.0 ≡ ok tt)
    × (whole.0 ≡ ok tt)
    × (whole.1 ≡ record two.1 { normalization_offset = normalized (pos 1) })
    × (two.1.normalization_offset ≡ normalized (normalized (pos 1)))
slot_start_split_example = slot_start_split 2 3 waiting_link (inr (6, refl, omega arith), inl refl)

-- Tables 0 and 3 are those of the channels 1 and 2; table 3 has fewer idle slots.
abbrev offered_heap : Heap
offered_heap = record managed_heap {
  tables = λ i.
      if i == 0
      then record (fresh (some 1) (2 ∷ [])) { freq_channel = some 1 }
      else if i == 3
      then record (fresh (some 1) (2 ∷ [])) { freq_channel = some 2; num_idle_future_slots = 7 }
      else fresh none [];
}

abbrev two_channels : ReservationManager
two_channels = record test_manager {
  p2p_frequency_channels = 2 ∷ 1 ∷ [];
  p2p_reservation_tables = 3 ∷ 0 ∷ [];
}

abbrev small_demand : Demand
small_demand = record { num_forward_bursts = 1; num_reverse_bursts = 1; period = 0; timeout = 1 }

abbrev offered : List Proposal
offered =
    record { center_frequency = 960; period = 0; slot_offset = pos 1 }
    ∷ record { center_frequency = 961; period = 0; slot_offset = pos 1 }
    ∷ []

find_link_proposals-AllProposable_example :
    (length offered ≤ 3) × AllProposable offered_heap (pos 1) small_demand (3 ∷ 0 ∷ []) offered
unfolding find_link_proposals ◌+ℤ◌
find_link_proposals-AllProposable_example =
    find_link_proposals-AllProposable offered_heap two_channels 3 (pos 1) small_demand offered refl

get_sorted_p2p_reservation_tables-IsSorted_example :
    Perm (get_sorted_p2p_reservation_tables offered_heap two_channels) (3 ∷ 0 ∷ [])
    × IsSorted offered_heap (get_sorted_p2p_reservation_tables offered_heap two_channels)
get_sorted_p2p_reservation_tables-IsSorted_example =
    get_sorted_p2p_reservation_tables-IsSorted offered_heap two_channels

-- User 7 is sent to in slot 4 of the point-to-point channel; slot 2 there is no transmission.
abbrev sending_heap : Heap
sending_heap = record managed_heap { tables = used_heap.tables }

abbrev two_sent : List Remote
two_sent =
    record { channel = managed_heap.channels 0; table = fresh none [] }
    ∷ record {
      channel = managed_heap.channels 1;
      table = put_slot (pos 4) (reserve 7 tx) (fresh none []);
    }
    ∷ []

all_tx_reservations-AllSent_example :
    (rs : List Remote) × (all_tx_reservations sending_heap test_manager 7 ≡ ok rs)
    × AllSent sending_heap 7 (0 ∷ 1 ∷ []) (3 ∷ 0 ∷ []) rs
unfolding find_index
all_tx_reservations-AllSent_example =
    all_tx_reservations-AllSent sending_heap test_manager 7 0 3
      (record { broadcast_channel = refl; broadcast_table = refl; is_shared = refl; paired = refl })
      (refl, tt) (omega arith, (omega arith, tt))

test_two_sent : all_tx_reservations sending_heap test_manager 7 ≡ ok two_sent
unfolding all_tx_reservations
test_two_sent = refl
