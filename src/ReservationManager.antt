-- ===== src/ReservationManager.antt =====
-- ReservationManager.hpp and ReservationManager.cpp: the channels of a user with their reservation
-- tables, the tables of its transmitter and its receivers, and the scheduling of a link's bursts.
pub mod Schedule
pub mod Scheduled
pub mod Channels
pub mod Sent
pub mod Recorded
pub mod Peers
pub mod Complete
pub mod Searched
pub mod Taken
pub mod Open
pub mod Loops
pub mod Looped
use ldacs_mcsotdma.Prelude.{
  ℕ, zero, suc, ◌+◌, Bool, true, false, not, ◌&&◌, ◌||◌, ◌==◌, ltb, List, [], ◌∷◌, ◌++◌, Option,
  none, some, ℤ, pos, to_i32, get_elem?, length, if◌then◌else◌, map,
}
use ldacs_mcsotdma.Prelude.Result.{
  Result, ok, err, ◌>>=◌, invalid_argument, out_of_range, null_pointer, is_exception,
}
use ldacs_mcsotdma.Prelude.Maps.{Entry, find, put}
use ldacs_mcsotdma.Reservation.{
  MacId, MacIds, Action, tx, rx, Reservation, reserve, is_idle, is_busy,
}
use ldacs_mcsotdma.Channel.{FrequencyChannel, channel, channel_eq}
use ldacs_mcsotdma.Table.{Table, TableId, ChannelId, Heap, table, get_reservation}
use ldacs_mcsotdma.Table.State.{M, pure, throw, ◌>>◌, reads, guard, deref, store, try_catch}
use ldacs_mcsotdma.Table.State
use ldacs_mcsotdma.Table.Query.{any_table}
use ldacs_mcsotdma.Table.Mark.{mark}
use ldacs_mcsotdma.Table.Shift.{update, integrate_tx_reservations}
use ldacs_mcsotdma.SlotCalculator.{Slots, calculate_alternating_bursts}
use ldacs_mcsotdma.ReservationMap.{ReservationMap, empty_map, add_scheduled_resource}

-- An entry of `p2p_channel_map`, whose keys are compared by their frequency alone.
pub record Indexed : Type 0 where
  pub center_frequency : ℕ
  pub index : ℕ

pub record ReservationManager : Type 0 where
  pub planning_horizon : ℕ
  pub broadcast_frequency_channel : Option ChannelId
  pub broadcast_reservation_table : Option TableId
  pub p2p_frequency_channels : List ChannelId
  pub p2p_reservation_tables : List TableId
  pub p2p_channel_map : List Indexed
  pub p2p_table_map : List (Entry ℕ)
  pub hardware_tx_table : Option TableId
  pub hardware_rx_tables : List TableId

abbrev pub manager : ℕ → ReservationManager
manager planning_horizon = record {
  planning_horizon = planning_horizon;
  broadcast_frequency_channel = none;
  broadcast_reservation_table = none;
  p2p_frequency_channels = [];
  p2p_reservation_tables = [];
  p2p_channel_map = [];
  p2p_table_map = [];
  hardware_tx_table = none;
  hardware_rx_tables = [];
}

-- `p2p_channel_map[channel] = index`: a second channel on the same frequency takes the entry over.
unfoldable pub put_index : ℕ → ℕ → List Indexed → List Indexed
put_index f index [] = record { center_frequency = f; index = index } ∷ []
put_index f index (e ∷ es) =
    if e.center_frequency == f
    then record { center_frequency = f; index = index } ∷ es
    else e ∷ put_index f index es

unfoldable pub find_index : ℕ → List Indexed → Option ℕ
find_index f [] = none
find_index f (e ∷ es) = if e.center_frequency == f then some e.index else find_index f es

abbrev is_null : Option ℕ → Bool
is_null none = true
is_null (some _) = false

abbrev pub put_channel : ChannelId → FrequencyChannel → Heap → Heap
put_channel c ch h = record h { channels = λ d. if d == c then ch else h.channels d }

-- The new table with its links.
abbrev pub linked_table : ReservationManager → Bool → ChannelId → Table → Table
linked_table m is_p2p c t = record t {
  freq_channel = some c;
  transmitter_reservation_table = m.hardware_tx_table;
  receiver_reservation_tables = if is_p2p then m.hardware_rx_tables else [];
}

abbrev pub with_channel :
    ReservationManager → Bool → ℕ → TableId → ChannelId → Result ReservationManager
with_channel m is_p2p f i c =
    if is_p2p
    then ok (record m {
      p2p_frequency_channels = m.p2p_frequency_channels ++ c ∷ [];
      p2p_reservation_tables = m.p2p_reservation_tables ++ i ∷ [];
      p2p_channel_map = put_index f (length m.p2p_frequency_channels) m.p2p_channel_map;
      p2p_table_map = put i (length m.p2p_reservation_tables) m.p2p_table_map;
    })
    else if is_null m.broadcast_frequency_channel && is_null m.broadcast_reservation_table
    then ok
        (record m { broadcast_frequency_channel = some c; broadcast_reservation_table = some i })
    else err invalid_argument

-- The constructor of the new table may throw.
unfoldable pub add_table :
    ReservationManager → Bool → ℕ → ℕ → TableId → ChannelId → Result Table → M ReservationManager
unfolding channel put_index put
add_table m is_p2p center_frequency bandwidth i c (err e) h = (err e, h)
add_table m is_p2p center_frequency bandwidth i c (ok t) h = (
  with_channel m is_p2p center_frequency i c,
  put_channel c (channel is_p2p center_frequency bandwidth) (store i (linked_table m is_p2p c t) h),
)

-- `addFrequencyChannel`; `i` and `c` are the addresses that the two `new` return.
unfoldable pub add_frequency_channel :
    ⦃ids : MacIds⦄ → ReservationManager → Bool → ℕ → ℕ → TableId → ChannelId → M ReservationManager
unfolding table add_table
add_frequency_channel m is_p2p center_frequency bandwidth i c =
    add_table m is_p2p center_frequency bandwidth i c (table m.planning_horizon)

unfoldable pub update_all : List TableId → ℕ → M (Unit {0})
unfolding update
update_all [] num_slots = pure tt
update_all (i ∷ is) num_slots = let rest = update_all is num_slots in (update i num_slots >> rest)

-- `ReservationManager::update`
unfoldable pub update_manager : ReservationManager → ℕ → M (Unit {0})
unfolding update_all
update_manager m num_slots = elim m.broadcast_reservation_table [
  | none ↦ update_all m.p2p_reservation_tables num_slots
  | some i ↦ update_all (i ∷ m.p2p_reservation_tables) num_slots
]

-- The loop of `getLeastUtilizedP2PReservationTable`.
unfoldable pub least_utilized : Heap → TableId → List TableId → TableId
least_utilized h best [] = best
least_utilized h best (i ∷ is) =
    least_utilized h
      (if ltb (h.tables best).num_idle_future_slots (h.tables i).num_idle_future_slots
        then i
        else best)
      is

unfoldable pub get_least_utilized_p2p_reservation_table : Heap → ReservationManager → Result TableId
unfolding least_utilized
get_least_utilized_p2p_reservation_table h m = elim m.p2p_reservation_tables [
  | [] ↦ err out_of_range
  | i ∷ is ↦ ok (least_utilized h i is)
]

-- What `collectReservations` pairs up: a reservation and the channel its table is linked to.
pub record Collected : Type 0 where
  pub reservation : Reservation
  pub channel : Option ChannelId

unfoldable pub collect_from : Heap → ℤ → List TableId → Result (List Collected)
collect_from h slot_offset [] = ok []
collect_from h slot_offset (i ∷ is) = do
  let rest = collect_from h slot_offset is
  r ← get_reservation (h.tables i) slot_offset
  rs ← rest
  ok (record { reservation = r; channel = (h.tables i).freq_channel } ∷ rs)

unfoldable pub collect_reservations : Heap → ReservationManager → ℕ → Result (List Collected)
unfolding collect_from
collect_reservations h m slot_offset = do
  i ← deref m.broadcast_reservation_table
  r ← get_reservation (h.tables i) (to_i32 slot_offset)
  rs ← collect_from h (to_i32 slot_offset) m.p2p_reservation_tables
  ok (record { reservation = r; channel = m.broadcast_frequency_channel } ∷ rs)

abbrev pub collect_current_reservations : Heap → ReservationManager → Result (List Collected)
collect_current_reservations h m = collect_reservations h m 0

abbrev pub elem_at : List TableId → ℕ → Result (Option TableId)
elem_at is n = elim (get_elem? is n) [ none ↦ err out_of_range | some i ↦ ok (some i) ]

-- Whether two pointers are the same.
abbrev pub is_pointer : Option TableId → Option TableId → Bool
is_pointer none none = true
is_pointer (some i) (some j) = i == j
is_pointer _ _ = false

abbrev table_index : ReservationManager → Option TableId → Option ℕ
table_index m none = none
table_index m (some i) = find i m.p2p_table_map

-- `getFreqChannel`: the channel of a table.
unfoldable pub get_freq_channel : ReservationManager → Option TableId → Result (Option ChannelId)
unfolding find
get_freq_channel m tbl =
    if is_pointer tbl m.broadcast_reservation_table
    then ok m.broadcast_frequency_channel
    else elim (table_index m tbl) [
      | none ↦ err out_of_range
      | some n ↦ elem_at m.p2p_frequency_channels n
    ]

abbrev pub p2p_table : Heap → ReservationManager → ChannelId → Result (Option TableId)
p2p_table h m c = elim (find_index (h.channels c).center_frequency m.p2p_channel_map) [
  | none ↦ err invalid_argument
  | some n ↦ elem_at m.p2p_reservation_tables n
]

abbrev pub on_broadcast : Heap → Option ChannelId → ChannelId → Result Bool
on_broadcast h none c = err null_pointer
on_broadcast h (some b) c = ok (channel_eq (h.channels c) (h.channels b))

-- `getReservationTable`: a null pointer for a null pointer.
unfoldable pub get_reservation_table :
    Heap → ReservationManager → Option ChannelId → Result (Option TableId)
unfolding find_index
get_reservation_table h m none = ok none
get_reservation_table h m (some c) = elim m.broadcast_reservation_table [
  | none ↦ p2p_table h m c
  | some i ↦ on_broadcast h m.broadcast_frequency_channel c >>= λ same.
      if same then ok (some i) else p2p_table h m c
]

-- The first of the channels that passes.
unfoldable pub first_channel : (FrequencyChannel → Bool) → Heap → List ChannelId → Option ChannelId
first_channel test h [] = none
first_channel test h (c ∷ cs) = if test (h.channels c) then some c else first_channel test h cs

unfoldable pub match_frequency_channel :
    Heap → ReservationManager → FrequencyChannel → Result (Option ChannelId)
unfolding first_channel
match_frequency_channel h m other = do
  b ← deref m.broadcast_frequency_channel
  ok (first_channel (λ ch. channel_eq ch other) h (b ∷ m.p2p_frequency_channels))

unfoldable pub get_freq_channel_by_center_freq :
    Heap → ReservationManager → ℕ → Result (Option ChannelId)
unfolding first_channel
get_freq_channel_by_center_freq h m center_frequency = do
  b ← deref m.broadcast_frequency_channel
  ok (
      first_channel (λ ch. ch.center_frequency == center_frequency) h
        (b ∷ m.p2p_frequency_channels))

-- A remote channel with its table.
pub record Remote : Type 0 where
  pub channel : FrequencyChannel
  pub table : Table

-- One round of `updateTables`.
unfoldable pub update_from : ReservationManager → Remote → M (Unit {0})
unfolding match_frequency_channel get_reservation_table integrate_tx_reservations
update_from m remote =
    State.◌>>=◌ (reads (λ h. match_frequency_channel h m remote.channel)) λ local.
      State.◌>>=◌ (guard (not (is_null local)) invalid_argument) λ _.
        State.◌>>=◌ (reads (λ h. get_reservation_table h m local)) λ found.
          State.◌>>=◌ (reads (λ h. deref found)) λ i.
            try_catch (integrate_tx_reservations i remote.table) is_exception
              (throw invalid_argument)

unfoldable pub update_tables : ReservationManager → List Remote → M (Unit {0})
unfolding update_from
update_tables m [] = pure tt
update_tables m (r ∷ rs) = let rest = update_tables m rs in (update_from m r >> rest)
