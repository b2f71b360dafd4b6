-- ===== src/ReservationManager/Channels.antt =====
-- `addFrequencyChannel` and `getReservationTable`: which table a channel leads to.
use ldacs_mcsotdma.Prelude.{ℕ, ◌≡◌, ◌≢◌, true, false, some, length}
use ldacs_mcsotdma.Prelude.Result.{Result, ok}
use ldacs_mcsotdma.Channel.{channel}
use ldacs_mcsotdma.Table.{Table, TableId, ChannelId, Heap}
use ldacs_mcsotdma.Table.State.{store}
use ldacs_mcsotdma.ReservationManager.{
  ReservationManager, find_index, get_reservation_table, get_freq_channel, put_channel,
  linked_table,
}

-- A manager that is set up: a broadcast channel with its table, and a table for each other channel.
pub record IsSetUp (m : ReservationManager) (h : Heap) (b : ChannelId) (i : TableId) : Type 0 where
  pub broadcast_channel : m.broadcast_frequency_channel ≡ some b
  pub broadcast_table : m.broadcast_reservation_table ≡ some i
  pub is_shared : (h.channels b).is_p2p ≡ false
  pub paired : length m.p2p_frequency_channels ≡ length m.p2p_reservation_tables

-- The heap after the two objects are made.
added : ReservationManager → ℕ → ℕ → TableId → ChannelId → Table → Heap → Heap
unfolding channel
added m f bandwidth i c t h =
    put_channel c (channel true f bandwidth) (store i (linked_table m true c t) h)

-- What adding a channel comes to.
abbrev pub AddOutcome :
    ReservationManager
    → ℕ
    → ChannelId
    → TableId
    → TableId
    → ChannelId
    → Result ReservationManager × Heap
    → Type 0
AddOutcome m f b j i c o =
    (m' : ReservationManager) × (o.0 ≡ ok m')
    × IsSetUp m' o.1 b j
    × (get_reservation_table o.1 m' (some c) ≡ ok (some i))
    × (get_freq_channel m' (some i) ≡ ok (some c))
    × ((g : ℕ) → f ≢ g → find_index g m'.p2p_channel_map ≡ find_index g m.p2p_channel_map)
