-- ===== src/ReservationManager/Schedule.antt =====
-- `ReservationManager::scheduleBursts`: it writes the bursts of an agreed link into the table of
-- the link's channel, as far as the slots and the hardware are free.
use ldacs_mcsotdma.Prelude.{
  ℕ, ◌+◌, Bool, false, not, ◌&&◌, ◌||◌, ◌==◌, List, [], ◌∷◌, Option, ℤ, if◌then◌else◌,
}
use ldacs_mcsotdma.Prelude.Result.{Result, ok, err, invalid_argument}
use ldacs_mcsotdma.Prelude.Result
use ldacs_mcsotdma.Reservation.{
  MacId, Action, tx, rx, action_eq, Reservation, reserve, is_idle, is_busy,
}
use ldacs_mcsotdma.Table.{TableId, ChannelId, Heap, get_reservation}
use ldacs_mcsotdma.Table.State.{M, pure, ◌>>=◌, ◌>>◌, reads, guard, deref}
use ldacs_mcsotdma.Table.Query.{any_table}
use ldacs_mcsotdma.Table.Mark.{mark}
use ldacs_mcsotdma.SlotCalculator.{Slots, calculate_alternating_bursts}
use ldacs_mcsotdma.ReservationMap.{ReservationMap, empty_map, add_scheduled_resource}
use ldacs_mcsotdma.ReservationManager.{ReservationManager, get_reservation_table}

-- What the loops carry: the map that is returned, `num_tx_scheduled` and `num_rx_scheduled`.
pub record Progress : Type 0 where
  pub reservation_map : ReservationMap
  pub num_tx_scheduled : ℕ
  pub num_rx_scheduled : ℕ

abbrev pub can_overwrite : MacId → Reservation → Bool
can_overwrite target_id res = not (is_idle res) && (is_busy res && res.target == target_id)

-- Whether a hardware slot serves: an idle one always, one that is busy for the target when the
-- link's own slot is, too.
abbrev pub serves : Bool → MacId → Reservation → Bool
serves can_write target_id res =
    if can_write then is_idle res else is_idle res || (is_busy res && res.target == target_id)

abbrev pub receiver_serves : Bool → MacId → ℤ → Heap → List TableId → Result Bool
receiver_serves can_write target_id slot_offset h rx_tables =
    any_table
      (λ t. Result.◌>>=◌ (get_reservation t slot_offset) λ res. ok (serves can_write target_id res))
      h rx_tables

abbrev pub transmitter_serves : Bool → MacId → ℤ → Heap → Option TableId → Result Bool
transmitter_serves can_write target_id slot_offset h tx_table = Result.◌>>=◌ (deref tx_table) λ j.
    Result.◌>>=◌ (get_reservation (h.tables j) slot_offset)
      λ res. ok (serves can_write target_id res)

-- `transmitter_available` or `receiver_available`, by the action.
unfoldable pub hardware_available :
    ReservationManager → Action → Bool → MacId → ℤ → Heap → Result Bool
unfolding any_table
hardware_available m action can_write target_id slot_offset h =
    if action_eq action tx
    then transmitter_serves can_write target_id slot_offset h m.hardware_tx_table
    else receiver_serves can_write target_id slot_offset h m.hardware_rx_tables

abbrev pub recorded : TableId → Action → ℤ → Progress → Progress
recorded i action slot_offset p = record {
  reservation_map = add_scheduled_resource i slot_offset p.reservation_map;
  num_tx_scheduled = if action_eq action tx then p.num_tx_scheduled + 1 else p.num_tx_scheduled;
  num_rx_scheduled = if action_eq action tx then p.num_rx_scheduled else p.num_rx_scheduled + 1;
}

unfoldable pub write_slot : ℕ → TableId → MacId → Action → ℤ → Progress → Bool → M Progress
unfolding mark
write_slot depth i target_id action slot_offset p available =
    if available
    then (mark depth i slot_offset (reserve target_id action)
        >> pure (recorded i action slot_offset p))
    else pure p

-- One round of either loop; the two differ in the action only.
unfoldable pub schedule_slot :
    ℕ → ReservationManager → Option TableId → MacId → Action → ℤ → Progress → M Progress
unfolding hardware_available write_slot
schedule_slot depth m tbl target_id action slot_offset p = do
  i ← reads (λ h. deref tbl)
  res ← reads (λ h. get_reservation (h.tables i) slot_offset)
  available ←
      if is_idle res || can_overwrite target_id res
      then reads (hardware_available m action (is_idle res) target_id slot_offset)
      else pure false
  write_slot depth i target_id action slot_offset p available

unfoldable pub schedule_slots :
    ℕ → ReservationManager → Option TableId → MacId → Action → List ℤ → Progress → M Progress
unfolding schedule_slot
schedule_slots depth m tbl target_id action [] p = pure p
schedule_slots depth m tbl target_id action (z ∷ zs) p =
    schedule_slot depth m tbl target_id action z p
    >>= schedule_slots depth m tbl target_id action zs

-- What `scheduleBursts` is called with, but for the manager and the channel.
pub record Link : Type 0 where
  pub start_slot_offset : ℤ
  pub num_forward_bursts : ℕ
  pub num_reverse_bursts : ℕ
  pub period : ℕ
  pub timeout : ℕ
  pub initiator_id : MacId
  pub recipient_id : MacId
  pub is_link_initiator : Bool

abbrev pub link_slots : Link → Slots
link_slots l =
    calculate_alternating_bursts l.start_slot_offset l.num_forward_bursts l.num_reverse_bursts
      l.period l.timeout

-- `action_1`, `action_2` and `target_id`
abbrev pub first_action : Link → Action
first_action l = if l.is_link_initiator then tx else rx

abbrev pub second_action : Link → Action
second_action l = if l.is_link_initiator then rx else tx

abbrev pub link_target : Link → MacId
link_target l = if l.is_link_initiator then l.recipient_id else l.initiator_id

abbrev pub nothing_yet : Progress
nothing_yet = record { reservation_map = empty_map; num_tx_scheduled = 0; num_rx_scheduled = 0 }

-- The two loops, one after the other.
unfoldable pub schedule_both : ℕ → ReservationManager → Option TableId → Link → M Progress
unfolding schedule_slots calculate_alternating_bursts
schedule_both depth m tbl l = do
  p ←
      schedule_slots depth m tbl (link_target l) (first_action l) (link_slots l).tx_slots
        nothing_yet
  schedule_slots depth m tbl (link_target l) (second_action l) (link_slots l).rx_slots p

unfoldable pub schedule_bursts : ℕ → ReservationManager → Option ChannelId → Link → M ReservationMap
unfolding get_reservation_table schedule_both
schedule_bursts depth m channel l = do
  tbl ← reads (λ h. get_reservation_table h m channel)
  p ← schedule_both depth m tbl l
  guard (not ((p.num_tx_scheduled == 0) || (p.num_rx_scheduled == 0))) invalid_argument
  pure p.reservation_map
