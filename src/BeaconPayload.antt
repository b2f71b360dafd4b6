-- ===== src/BeaconPayload.antt =====
-- BeaconPayload.hpp: the transmissions of a user that its beacon tells of, by the center frequency
-- of their channel. `std::map::operator[]` makes an empty vector for a new key.
pub mod Encoded
pub mod Copied
use ldacs_mcsotdma.Prelude.{
  ℕ, zero, suc, ◌+◌, ◌-◌, ◌*◌, ◌%◌, ◌||◌, List, [], ◌∷◌, ◌++◌, Option, none, some, pos, length,
  u32_mod, if◌then◌else◌,
}
use ldacs_mcsotdma.Prelude.Result.{Result, ok, err, ◌>>=◌, invalid_argument}
use ldacs_mcsotdma.Prelude.Maps.{Entry, find, put}
use ldacs_mcsotdma.Reservation.{Action, is_beacon_tx, is_tx}
use ldacs_mcsotdma.Table.{Table, TableId, ChannelId, Heap, get_reservation}

pub record SlotAction : Type 0 where
  pub slot_offset : ℕ
  pub action : Action

abbrev pub Payload : Type 0
Payload = List (Entry (List SlotAction))

abbrev pub bits_per_slot : ℕ
bits_per_slot = 9

abbrev pub bits_per_channel : ℕ
bits_per_channel = 9

abbrev pub bits_per_action : ℕ
bits_per_action = 3

abbrev or_empty : Option (List SlotAction) → List SlotAction
or_empty none = []
or_empty (some es) = es

-- `local_reservations[center_freq]`
abbrev pub local_reservations : ℕ → Payload → List SlotAction
local_reservations center_freq p = or_empty (find center_freq p)

abbrev pub push_back : ℕ → SlotAction → Payload → Payload
push_back center_freq e p = put center_freq (local_reservations center_freq p ++ e ∷ []) p

-- The loop of `encode` from `t` on; `rounds` are left.
unfoldable pub encode_from : Table → ℕ → ℕ → ℕ → Payload → Result Payload
unfolding find put
encode_from table center_freq zero t p = ok p
encode_from table center_freq (suc rounds) t p = get_reservation table (pos t) >>= λ res.
    encode_from table center_freq rounds (t + 1) (
      if is_beacon_tx res || is_tx res
      then push_back center_freq (record { slot_offset = t; action = res.action }) p
      else p)

unfoldable pub encode : ℕ → Table → Payload → Result Payload
unfolding encode_from
encode center_freq table p = encode_from table center_freq (table.planning_horizon - 1) 1 p

abbrev pub linked_channel : Option ChannelId → Result ChannelId
linked_channel none = err invalid_argument
linked_channel (some c) = ok c

-- The loop of the constructor that encodes tables.
unfoldable pub encode_all : Heap → List TableId → Payload → Result Payload
unfolding encode
encode_all h [] p = ok p
encode_all h (i ∷ is) p = do
  c ← linked_channel (h.tables i).freq_channel
  q ← encode (h.channels c).center_frequency (h.tables i) p
  encode_all h is q

abbrev pub beacon_payload : Heap → List TableId → Result Payload
beacon_payload h is = encode_all h is []

-- `getBits`, from the bits that are counted already.
unfoldable pub bits_from : ℕ → Payload → ℕ
bits_from bits [] = bits
bits_from bits (e ∷ es) =
    bits_from
      ((bits + bits_per_channel + length e.value * (bits_per_slot + bits_per_action)) % u32_mod) es

abbrev pub get_bits : Payload → ℕ
get_bits p = bits_from 0 p

-- The loops of the copy constructor.
unfoldable pub push_all : ℕ → List SlotAction → Payload → Payload
unfolding find put
push_all center_freq [] p = p
push_all center_freq (e ∷ es) p = push_all center_freq es (push_back center_freq e p)

unfoldable pub copy_onto : Payload → Payload → Payload
unfolding push_all
copy_onto [] p = p
copy_onto (e ∷ es) p = copy_onto es (push_all e.key e.value p)

-- The copy constructor, which `copy` calls.
abbrev pub copied : Payload → Payload
copied p = copy_onto p []
