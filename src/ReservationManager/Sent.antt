-- ===== src/ReservationManager/Sent.antt =====
-- `ReservationManager::getTxReservations`: copies of all channels, each with a new table that has
-- only the transmissions to one user.
use mathlib.Core.List.{append_assoc}
use ldacs_mcsotdma.Prelude.{
  ◌≡◌, inl, inr, refl, sym, subst, false, ◌==◌, ◌&&◌, if◌then◌else◌, All, arith, List, [], ◌∷◌,
  Option, none, some, ℕ, get_elem?, map, ◌+◌, ◌++◌, ◌<◌, ap, ◌∙◌, length, length-append,
}
use ldacs_mcsotdma.Prelude.Result.{Result, ok, err, out_of_range, ◌>>=◌, Result-cases}
use ldacs_mcsotdma.Reservation.{MacId, MacIds, Reservation, is_any_tx, unreserved}
use ldacs_mcsotdma.Table.{Table, table, TableId, ChannelId, Heap}
use ldacs_mcsotdma.Table.State.{deref}
use ldacs_mcsotdma.Table.Shift.{keep_tx, get_tx_reservations}
use ldacs_mcsotdma.Table.Integrated.{sent_fields}
use ldacs_mcsotdma.ReservationManager.{ReservationManager, Remote, find_index}
use ldacs_mcsotdma.ReservationManager.Channels.{IsSetUp}

-- `p2p_reservation_tables.at(p2p_channel_map.at(*p2p_channel))`
abbrev pub index_at : Option ℕ → Result ℕ
index_at none = err out_of_range
index_at (some n) = ok n

abbrev pub table_of : Heap → ReservationManager → ChannelId → Result TableId
table_of h m c = do
  n ← index_at (find_index (h.channels c).center_frequency m.p2p_channel_map)
  index_at (get_elem? m.p2p_reservation_tables n)

abbrev pub sent_on : ⦃ids : MacIds⦄ → Heap → ChannelId → TableId → MacId → Result Remote
sent_on h c i id = do
  t ← get_tx_reservations (h.tables i) id
  ok (record { channel = h.channels c; table = t })

-- The loop over the point-to-point channels.
unfoldable pub sent_from :
    ⦃ids : MacIds⦄ → Heap → ReservationManager → MacId → List ChannelId → Result (List Remote)
unfolding get_tx_reservations find_index
sent_from h m id [] = ok []
sent_from h m id (c ∷ cs) = do
  let rest = sent_from h m id cs
  i ← table_of h m c
  r ← sent_on h c i id
  rs ← rest
  ok (r ∷ rs)

-- The assertion that the broadcast channel and table are set fails as a null pointer.
unfoldable pub all_tx_reservations :
    ⦃ids : MacIds⦄ → Heap → ReservationManager → MacId → Result (List Remote)
unfolding sent_from
all_tx_reservations h m id = do
  c ← deref m.broadcast_frequency_channel
  i ← deref m.broadcast_reservation_table
  r ← sent_on h c i id
  rs ← sent_from h m id m.p2p_frequency_channels
  ok (r ∷ rs)

-- What is kept of a slot: a transmission to the user.
abbrev pub sent_to : ⦃ids : MacIds⦄ → MacId → Reservation → Reservation
sent_to id r = if (r.target == id) && is_any_tx r then r else unreserved

keep_tx-map :
    ⦃ids : MacIds⦄ (id : MacId) (rs : List Reservation) → keep_tx id rs ≡ map (sent_to id) rs
unfolding keep_tx
keep_tx-map id [] = refl
keep_tx-map id (r ∷ rs) = ap (λ xs. sent_to id r ∷ xs) (keep_tx-map id rs)

-- A copy of the channel, with a table that has the transmissions to the user of table `i` in their
-- slots, and nothing else.
abbrev pub IsSent : ⦃ids : MacIds⦄ → Heap → MacId → ChannelId → TableId → Remote → Type 0
IsSent h id c i r =
    (r.channel ≡ h.channels c)
    × (r.table.planning_horizon ≡ (h.tables i).planning_horizon)
    × (r.table.slot_utilization_vec ≡ map (sent_to id) (h.tables i).slot_utilization_vec)

-- The table of the copy can be made.
abbrev pub IsCopyable : Heap → TableId → Type 0
IsCopyable h i = (h.tables i).planning_horizon < 4294967295

get_tx_reservations_ok :
    ⦃ids : MacIds⦄ (t : Table) (id : MacId)
    → t.planning_horizon < 4294967295
    → (sent : Table) × (get_tx_reservations t id ≡ ok sent)
unfolding get_tx_reservations table
get_tx_reservations_ok t id small =
    let fits : (t.planning_horizon == 4294967295) ≡ false = not_largest t.planning_horizon small in
    elim (Result-cases (get_tx_reservations t id)) [
      | inl made ↦ made
      | inr (x, bad) ↦ cc (rw fits at bad)
    ]
  where
    not_largest : (n : ℕ) → n < 4294967295 → (n == 4294967295) ≡ false
    not_largest n lt = ground arith

sent_on-IsSent :
    ⦃ids : MacIds⦄ (h : Heap) (c : ChannelId) (i : TableId) (id : MacId)
    → IsCopyable h i
    → (r : Remote) × (sent_on h c i id ≡ ok r) × IsSent h id c i r
sent_on-IsSent h c i id small =
    let (t, fine) = get_tx_reservations_ok (h.tables i) id small in
    let (horizon, vec) = sent_fields (h.tables i) t id fine in
    (
      record { channel = h.channels c; table = t },
      ap (λ o. o >>= λ t'. ok (record { channel = h.channels c; table = t' })) fine,
      (refl, horizon, vec ∙ keep_tx-map id _),
    )

-- Channel by channel, each with its table.
abbrev pub AllSent :
    ⦃ids : MacIds⦄ → Heap → MacId → List ChannelId → List TableId → List Remote → Type 0
AllSent h id [] [] [] = Unit {0}
AllSent h id (c ∷ cs) (i ∷ is) (r ∷ rs) = IsSent h id c i r × AllSent h id cs is rs
AllSent h id cs is rs = ⊥

-- The map leads from the frequency of the `n`-th channel to `n`.
abbrev pub IsMapped : Heap → ReservationManager → ℕ → List ChannelId → Type 0
IsMapped h m n [] = Unit {0}
IsMapped h m n (c ∷ cs) =
    (find_index (h.channels c).center_frequency m.p2p_channel_map ≡ some n)
    × IsMapped h m (n + 1) cs

at_prefix :
    (before : List TableId) (i : TableId) (is : List TableId)
    → get_elem? (before ++ i ∷ is) (length before) ≡ some i
at_prefix [] i is = refl
at_prefix (j ∷ before) i is = at_prefix before i is

-- The channels that are left have the tables that are left.
sent_from-AllSent :
    ⦃ids : MacIds⦄ (h : Heap) (m : ReservationManager) (id : MacId) (before : List TableId)
    (cs : List ChannelId) (is : List TableId)
    → m.p2p_reservation_tables ≡ before ++ is
    → length cs ≡ length is
    → IsMapped h m (length before) cs
    → All (IsCopyable h) is
    → (rs : List Remote) × (sent_from h m id cs ≡ ok rs) × AllSent h id cs is rs
unfolding sent_from
sent_from-AllSent h m id before [] [] tables paired mapped small = ([], refl, tt)
sent_from-AllSent h m id before [] (i ∷ is) tables paired mapped small =
    absurd (omega (arith, paired))
sent_from-AllSent h m id before (c ∷ cs) [] tables paired mapped small =
    absurd (omega (arith, paired))
sent_from-AllSent h m id before (c ∷ cs) (i ∷ is) tables paired mapped small =
    let found : table_of h m c ≡ ok i =
      ap (λ o. index_at o >>= λ n. index_at (get_elem? m.p2p_reservation_tables n)) mapped.0
      ∙ ap (λ js. index_at (get_elem? js (length before))) tables
      ∙ ap index_at (at_prefix before i is) in
    let len = length-append {0} before (i ∷ []) in
    let size : length before + 1 ≡ length (before ++ i ∷ []) = omega (arith, len) in
    let (r, fine, sent) = sent_on-IsSent h c i id small.0 in
    let (rs, rest, all) =
      sent_from-AllSent h m id (before ++ i ∷ []) cs is
        (tables ∙ sym (append_assoc before (i ∷ []) is)) (omega (arith, paired))
        (subst (λ n. IsMapped h m n cs) size mapped.1) small.1 in
    (r ∷ rs, rw (found, fine, rest) refl, (sent, all))

-- On a manager whose channels and tables are paired, so that its map leads from the frequency of
-- each point-to-point channel to its place, and with horizons of less than 2 ^ 32 - 1 slots, the call
-- returns: the broadcast channel and then the point-to-point channels in order, each with a table
-- that has exactly the transmissions to the user of that channel's own table, in their slots.
pub all_tx_reservations-AllSent :
    ⦃ids : MacIds⦄ (h : Heap) (m : ReservationManager) (id : MacId) (c : ChannelId) (i : TableId)
    → IsSetUp m h c i
    → IsMapped h m 0 m.p2p_frequency_channels
    → All (IsCopyable h) (i ∷ m.p2p_reservation_tables)
    → (rs : List Remote) × (all_tx_reservations h m id ≡ ok rs)
      × AllSent h id (c ∷ m.p2p_frequency_channels) (i ∷ m.p2p_reservation_tables) rs
unfolding all_tx_reservations
all_tx_reservations-AllSent h m id c i w mapped small =
    let (r, fine, sent) = sent_on-IsSent h c i id small.0 in
    let (rs, rest, all) =
      sent_from-AllSent h m id [] m.p2p_frequency_channels m.p2p_reservation_tables refl w.paired
        mapped small.1 in
    let at_channel : deref m.broadcast_frequency_channel ≡ ok c = ap deref w.broadcast_channel in
    let at_table : deref m.broadcast_reservation_table ≡ ok i = ap deref w.broadcast_table in
    (r ∷ rs, rw (at_channel, at_table, fine, rest) refl, (sent, all))
