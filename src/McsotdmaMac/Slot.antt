-- ===== src/McsotdmaMac/Slot.antt =====
-- MCSOTDMA_Mac.cpp: what happens in a time slot. The managers, the third-party links and the layers
-- are known by the calls that are made of them; the managers that a loop goes through are those
-- at its start.
use ldacs_mcsotdma.Prelude.{
  ℕ, ◌+◌, Bool, not, ◌&&◌, ◌||◌, ◌==◌, leb, List, [], ◌∷◌, Option, none, some, if◌then◌else◌,
}
use ldacs_mcsotdma.Prelude.Result.{
  Result, ok, err, Error, runtime_error, invalid_argument, is_runtime_error,
}
use ldacs_mcsotdma.Prelude.Calls.{
  Call, returns, throws, ◌>>=◌, ◌>>◌, asks, changes, requires, when, try_call,
}
use ldacs_mcsotdma.Prelude.Maps.{Entry, find, put}
use ldacs_mcsotdma.Reservation.{
  MacId, MacIds, Reservation, idle, busy, rx, rx_beacon, tx, tx_beacon, locked, is_any_rx,
}
use ldacs_mcsotdma.Channel.{FrequencyChannel, is_sh}
use ldacs_mcsotdma.DutyCycle.{Numbers, Double}
use ldacs_mcsotdma.LinkManager.{or_runtime_error}

module _ ⦃numbers : Numbers⦄ ⦃ids : MacIds⦄ where
  -- The fields of `L2Packet` that are read.
  pub record Packet : Type 0 where
    pub origin : MacId
    pub destination : MacId
    pub is_dme : Bool
    pub has_channel_error : Bool
    pub snr : Double

  -- A reservation of the current slot with its channel.
  abbrev pub Current : Type 0
  Current = Reservation × FrequencyChannel

  -- Calls of the managers by identifier, of the third-party links by number, and of the layers.
  pub record Node (S : Type 0) : Type 0 where
    pub own_id : MacId
    pub num_transmitters : ℕ
    pub num_receivers : ℕ
    pub silent : Bool
    pub learn_dme_activity : Bool
    pub reservations : S → Result (List Current)
    pub link_ids : S → List MacId
    pub third_party_links : S → List ℕ
    pub update_tables : ℕ → Call S (Unit {0})
    pub update_lower : ℕ → Call S (Unit {0})
    pub tune_receiver : ℕ → Call S (Unit {0})
    pub lower_receive : Packet → ℕ → Call S (Unit {0})
    pub notify_link_outgoing : MacId → Call S (Unit {0})
    pub on_reception_reservation : MacId → Call S (Unit {0})
    pub on_transmission_reservation : MacId → Call S (Option Packet)
    pub on_packet_reception : MacId → Packet → Call S (Unit {0})
    pub link_slot_start : ℕ → MacId → Call S (Unit {0})
    pub link_slot_end : MacId → Call S (Unit {0})
    pub third_party_slot_start : ℕ → ℕ → Call S (Unit {0})
    pub third_party_slot_end : ℕ → Call S (Unit {0})
    pub report_neighbor_activity : MacId → Call S (Unit {0})
    pub observer_slot_end : S → S
    pub report_num_transmissions : ℕ → Call S (Unit {0})
    pub note_signal : ℕ → S → S
    pub clear_signals : S → S
    pub count_sent : S → S

  module _ {S : Type 0} (node : Node S) where
    unfoldable pub for_each : {A : Type 0} → (A → Call S (Unit {0})) → List A → Call S (Unit {0})
    for_each f [] = returns tt
    for_each f (x ∷ xs) = f x >> for_each f xs

    -- `notifyOutgoing`: data for the user itself is not sent.
    abbrev pub notify_mac_outgoing : MacId → Call S (Unit {0})
    notify_mac_outgoing mac_id =
        when (not (mac_id == node.own_id)) (node.notify_link_outgoing mac_id)

    -- `passToLower`: a silent user sends nothing, and a packet for nobody is deleted.
    abbrev pub pass_to_lower : Packet → ℕ → Call S (Unit {0})
    pass_to_lower packet center_frequency =
        when (not node.silent && not (packet.destination == ids.unset))
          (node.lower_receive packet center_frequency >> changes node.count_sent)

    abbrev start_other : ℕ → MacId → Call S (Unit {0})
    start_other num_slots id = when (not (id == ids.broadcast)) (node.link_slot_start num_slots id)

    -- One receiver is tuned to each channel in which something is received.
    abbrev tune : Current → Call S (Unit {0})
    tune (r, channel) = when (is_any_rx r) (
        try_call is_runtime_error (throws runtime_error)
          (node.tune_receiver channel.center_frequency))

    -- `update`
    unfoldable pub update : ℕ → Call S (Unit {0})
    unfolding for_each
    update num_slots =
        node.update_tables num_slots
        >> node.update_lower num_slots
        >> node.link_slot_start num_slots ids.broadcast
        >> (asks (λ s. ok (node.link_ids s)) >>= for_each (start_other num_slots))
        >> (asks (λ s. ok (node.third_party_links s))
            >>= for_each (node.third_party_slot_start num_slots))
        >> (asks node.reservations >>= for_each tune)
        >> when node.learn_dme_activity (changes node.clear_signals)

    -- How many transmissions and receptions a slot has had.
    pub record Counts : Type 0 where
      pub num_txs : ℕ
      pub num_rxs : ℕ

    abbrev pub count_rx : Counts → Call S Counts
    count_rx c =
        requires (leb (c.num_rxs + 1) node.num_receivers) runtime_error
        >> returns (record c { num_rxs = c.num_rxs + 1 })

    abbrev count_tx : Counts → Call S Counts
    count_tx c =
        requires (leb (c.num_txs + 1) node.num_transmitters) runtime_error
        >> returns (record c { num_txs = c.num_txs + 1 })

    abbrev pub send_if_any : ℕ → Option Packet → Call S (Unit {0})
    send_if_any f none = returns tt
    send_if_any f (some packet) = pass_to_lower packet f

    -- A null packet of a beacon is read.
    abbrev pub send_beacon : ℕ → Option Packet → Call S (Unit {0})
    send_beacon f none = if node.silent then returns tt else throws Error.null_pointer
    send_beacon f (some packet) = pass_to_lower packet f

    -- A reception on the shared channel is for its manager, whoever sends.
    abbrev receiver_of : Current → MacId
    receiver_of (r, channel) = if is_sh channel then ids.broadcast else r.target

    abbrev pub receive_beacon : Counts → Call S Counts
    receive_beacon c =
        count_rx c >>= λ c'. node.on_reception_reservation ids.broadcast >> returns c'

    -- One reservation: a beacon that is sent is also received, since its case has no `break`.
    unfoldable pub execute_one : Current → Counts → Call S Counts
    execute_one (r, channel) c = elim r.action [
      | idle ↦ returns c
      | busy ↦ returns c
      | locked ↦ returns c
      | rx ↦ count_rx c >>= λ c'.
          node.on_reception_reservation (receiver_of (r, channel)) >> returns c'
      | tx ↦ count_tx c >>= λ c'. node.on_transmission_reservation r.target >>= λ packet.
          send_if_any channel.center_frequency packet >> returns c'
      | tx_beacon ↦ count_tx c >>= λ c'.
          node.on_transmission_reservation ids.broadcast >>= λ packet.
          send_beacon channel.center_frequency packet >> receive_beacon c'
      | rx_beacon ↦ receive_beacon c
    ]

    unfoldable pub execute_all : List Current → Counts → Call S Counts
    unfolding execute_one
    execute_all [] c = returns c
    execute_all (r ∷ rs) c = execute_one r c >>= execute_all rs

    -- `execute`
    unfoldable pub execute : Call S Counts
    unfolding execute_all
    execute = asks node.reservations >>= λ rs.
        execute_all rs (record { num_txs = 0; num_rxs = 0 }) >>= λ c.
        node.report_num_transmissions c.num_txs >> returns c

    -- `storePacket` on a frequency on which packets have been received.
    abbrev stored : Packet → List Packet → List Packet
    stored packet [] = packet ∷ []
    stored packet (p ∷ ps) = p ∷ stored packet ps

    -- `receiveFromLower`: own packets are deleted, others are stored until the end of the slot.
    unfoldable pub receive_from_lower :
        Packet → ℕ → List (Entry (List Packet)) → Result (List (Entry (List Packet)))
    unfolding find put
    receive_from_lower packet center_frequency received =
        if packet.origin == node.own_id
        then ok received
        else if (packet.destination == ids.unset) && not (packet.origin == ids.dme)
        then err invalid_argument
        else ok (elim (find center_frequency received) [
          | none ↦ put center_frequency (packet ∷ []) received
          | some packets ↦ put center_frequency (stored packet packets) received
        ])

    -- Packets of DME are noted and dropped.
    unfoldable pub without_dme : ℕ → List Packet → Call S (List Packet)
    without_dme f [] = returns []
    without_dme f (p ∷ ps) =
        when (p.is_dme && node.learn_dme_activity) (changes (node.note_signal f))
        >> without_dme f ps
        >>= λ rest. returns (if p.is_dme then rest else p ∷ rest)

    abbrev manager_of : Packet → MacId
    manager_of p =
        if (p.destination == ids.broadcast) || (p.destination == ids.beacon)
        then ids.broadcast
        else p.origin

    abbrev pub process : Packet → Call S (Unit {0})
    process p =
        or_runtime_error
          (node.report_neighbor_activity p.origin >> node.on_packet_reception (manager_of p) p)

    -- The first of the packets with the largest ratio above 0, if there is one.
    unfoldable pub strongest : Option Packet → Double → List Packet → Option Packet
    strongest best largest [] = best
    strongest best largest (p ∷ ps) =
        let rest = strongest (some p) p.snr ps in
        let same = strongest best largest ps in if numbers.is_less largest p.snr then rest else same

    -- A single packet, if it has no error, or the strongest of several.
    unfoldable pub process_packets : List Packet → Call S (Unit {0})
    unfolding strongest
    process_packets [] = returns tt
    process_packets (p ∷ []) = when (not p.has_channel_error) (process p)
    process_packets (p ∷ (q ∷ ps)) = elim (strongest none (numbers.of_nat 0) (p ∷ (q ∷ ps))) [
      | none ↦ returns tt
      | some best ↦ process best
    ]

    abbrev process_channel : Entry (List Packet) → Call S (Unit {0})
    process_channel e = without_dme e.key e.value >>= process_packets

    -- `onSlotEnd`, after which no packets are stored.
    unfoldable pub on_mac_slot_end : List (Entry (List Packet)) → Call S (Unit {0})
    unfolding for_each without_dme process_packets
    on_mac_slot_end received =
        for_each process_channel received
        >> or_runtime_error (asks (λ s. ok (node.link_ids s)) >>= for_each node.link_slot_end)
        >> or_runtime_error
            (asks (λ s. ok (node.third_party_links s)) >>= for_each node.third_party_slot_end)
        >> changes node.observer_slot_end
