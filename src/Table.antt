-- ===== src/Table.antt =====
-- ReservationTable.hpp and ReservationTable.cpp: the slots of one frequency channel, or of one
-- hardware transmitter or receiver, around the current time. This file has the object, its
-- constructors and its index arithmetic; the children have the methods and what they satisfy.
-- A pointer to a table or to a channel is its number in a `Heap`; a null pointer is `none`.
pub mod State
pub mod Query
pub mod Mark
pub mod Lock
pub mod Find
pub mod Shift
pub mod Index
pub mod Idle
pub mod Counter
pub mod Elapse
pub mod Marked
pub mod Forwarding
pub mod Atomic
pub mod Hardware
pub mod Search
pub mod Held
pub mod Candidates
pub mod Integrated
pub mod Free
pub mod Granted
use ldacs_mcsotdma.Prelude.{
  ℕ, ◌+◌, ◌-◌, ◌*◌, ◌%◌, Bool, ◌&&◌, List, Option, none, some, ℤ, abs, to_u32, to_i32, u32_mod, leb,
  ◌==◌, if◌then◌else◌, get_elem?, replicate, map,
}
use ldacs_mcsotdma.Prelude.Result.{Result, ok, err, invalid_argument, out_of_range}
use ldacs_mcsotdma.Reservation.{Reservation, MacIds, unreserved}
use ldacs_mcsotdma.Channel.{FrequencyChannel}

abbrev pub TableId : Type 0
TableId = ℕ

abbrev pub ChannelId : Type 0
ChannelId = ℕ

pub record Table : Type 0 where
  pub planning_horizon : ℕ
  pub slot_utilization_vec : List Reservation
  pub last_updated : ℕ
  pub num_idle_future_slots : ℕ
  pub freq_channel : Option ChannelId
  pub transmitter_reservation_table : Option TableId
  pub receiver_reservation_tables : List TableId
  pub default_reservation : Reservation

-- The objects that pointers lead to.
pub record Heap : Type 0 where
  pub tables : TableId → Table
  pub channels : ChannelId → FrequencyChannel

-- The length of the vector is computed in `uint32_t`, before the conversion to `uint64_t`.
abbrev pub num_slots : ℕ → ℕ
num_slots planning_horizon = (planning_horizon * 2 + 1) % u32_mod

-- `ReservationTable(uint32_t)`
unfoldable pub table : ⦃ids : MacIds⦄ → ℕ → Result Table
table planning_horizon =
    if planning_horizon == u32_mod - 1
    then err invalid_argument
    else ok (record {
      planning_horizon = planning_horizon;
      slot_utilization_vec = replicate (num_slots planning_horizon) unreserved;
      last_updated = 0;
      num_idle_future_slots = (planning_horizon + 1) % u32_mod;
      freq_channel = none;
      transmitter_reservation_table = none;
      receiver_reservation_tables = List.[];
      default_reservation = unreserved;
    })

-- `ReservationTable(uint32_t, const Reservation&)`
unfoldable pub table_with_default : ⦃ids : MacIds⦄ → ℕ → Reservation → Result Table
unfolding table
table_with_default planning_horizon default = elim (table planning_horizon) [
  | err e ↦ err e
  | ok t ↦ ok (record t {
    default_reservation = default;
    slot_utilization_vec = map (λ _. default) t.slot_utilization_vec;
  })
]

-- `isValid(int32_t)`
abbrev pub is_valid : Table → ℤ → Bool
is_valid t slot_offset = leb (abs slot_offset) t.planning_horizon

-- `isValid(int32_t, uint32_t)`: the last slot is computed in `uint32_t` and converted back.
abbrev pub is_valid_range : Table → ℤ → ℕ → Bool
is_valid_range t start length =
    if length == 1
    then is_valid t start
    else is_valid t start && is_valid t (to_i32 ((to_u32 start + length + (u32_mod - 1)) % u32_mod))

abbrev pub convert_offset_to_index : Table → ℤ → ℕ
convert_offset_to_index t slot_offset = (t.planning_horizon + to_u32 slot_offset) % u32_mod

abbrev pub found : Option Reservation → Result Reservation
found none = err out_of_range
found (some r) = ok r

-- `std::vector::at`
abbrev pub at : List Reservation → ℕ → Result Reservation
at xs i = found (get_elem? xs i)

-- `getReservation(int)`
abbrev pub get_reservation : Table → ℤ → Result Reservation
get_reservation t offset = at t.slot_utilization_vec (convert_offset_to_index t offset)
