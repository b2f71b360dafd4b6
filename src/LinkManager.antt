-- ===== src/LinkManager.antt =====
-- LinkManager.hpp and LinkManager.cpp: what the managers of the shared channel and of the
-- point-to-point links have in common. Packets and their headers are those of the glue library: of
-- a packet its origin and destination are read and of a header its frame type, with the header of
-- the shared channel as a parameter.
use ldacs_mcsotdma.Prelude.{
  ℕ, ◌+◌, ◌-◌, ◌%◌, Bool, true, false, not, ◌&&◌, ◌||◌, ◌==◌, List, [], ◌∷◌, Option, none, some,
  u32_mod, if◌then◌else◌,
}
use ldacs_mcsotdma.Prelude.Result.{
  Result, ok, err, Error, invalid_argument, runtime_error, is_exception,
}
use ldacs_mcsotdma.Prelude.Calls.{Call, returns, throws, ◌>>=◌, ◌>>◌, changes, requires, try_call}
use ldacs_mcsotdma.Reservation.{MacId, MacIds}
use ldacs_mcsotdma.Table.{TableId, ChannelId, Heap}
use ldacs_mcsotdma.ReservationManager.{ReservationManager, get_reservation_table}

-- `LinkManager::Status`
pub data LinkStatus : Type 0 where
  link_established link_not_established awaiting_request_generation : LinkStatus
  awaiting_reply awaiting_data_tx : LinkStatus

abbrev pub is_established : LinkStatus → Bool
is_established link_established = true
is_established _ = false

pub record LinkManager : Type 0 where
  pub link_id : MacId
  pub current_channel : Option ChannelId
  pub current_reservation_table : Option TableId
  pub link_status : LinkStatus
  pub time_slot_of_last_channel_access : ℕ
  pub expected_reception_this_slot : Bool
  pub received_packet_this_slot : Bool
  pub reported_missing_packet_to_arq : Bool
  pub should_report_missing_packets_to_arq : Bool

module _ ⦃ids : MacIds⦄ where
  abbrev pub initial_status : MacId → LinkStatus
  initial_status link_id =
      if (link_id == ids.broadcast) || (link_id == ids.beacon)
      then link_established
      else link_not_established

  abbrev pub link_manager : MacId → LinkManager
  link_manager link_id = record {
    link_id = link_id;
    current_channel = none;
    current_reservation_table = none;
    link_status = initial_status link_id;
    time_slot_of_last_channel_access = 0;
    expected_reception_this_slot = false;
    received_packet_this_slot = false;
    reported_missing_packet_to_arq = false;
    should_report_missing_packets_to_arq = true;
  }

abbrev is_null : Option ℕ → Bool
is_null none = true
is_null (some _) = false

-- The channel is set before its table is looked up, which may throw.
abbrev pub assign_table :
    Option ChannelId → LinkManager → Result (Option TableId) → Result (Unit {0}) × LinkManager
assign_table channel lm (err e) = (err e, record lm { current_channel = channel })
assign_table channel lm (ok tbl) =
    (ok tt, record lm { current_channel = channel; current_reservation_table = tbl })

-- `assign`: a manager that has a channel or a table takes no other channel, but a null pointer.
unfoldable pub assign : Heap → ReservationManager → Option ChannelId → Call LinkManager (Unit {0})
unfolding get_reservation_table
assign h m channel lm =
    if (is_null lm.current_channel && is_null lm.current_reservation_table) || is_null channel
    then assign_table channel lm (get_reservation_table h m channel)
    else (ok tt, lm)

-- `LinkManager::onSlotStart`
abbrev pub reset_flags : LinkManager → LinkManager
reset_flags lm = record lm {
  expected_reception_this_slot = false;
  received_packet_this_slot = false;
  reported_missing_packet_to_arq = false;
}

abbrev pub is_packet_missing : LinkManager → Bool
is_packet_missing lm =
    lm.should_report_missing_packets_to_arq
    && (lm.expected_reception_this_slot && not lm.received_packet_this_slot)

-- `LinkManager::onSlotEnd`, but for the report to the ARQ, which is made if the test passes.
abbrev pub note_missing_packet : LinkManager → LinkManager
note_missing_packet lm =
    if is_packet_missing lm then record lm { reported_missing_packet_to_arq = true } else lm

abbrev pub on_reception_reservation : LinkManager → LinkManager
on_reception_reservation lm = record lm { expected_reception_this_slot = true }

-- `receivedPacketThisSlot`
abbrev pub note_received_packet : LinkManager → LinkManager
note_received_packet lm = record lm { received_packet_this_slot = true }

-- `measureMacDelay` at the slot `now`, in `unsigned int`.
abbrev pub measure_mac_delay : ℕ → LinkManager → ℕ × LinkManager
measure_mac_delay now lm = (
  (now % u32_mod + (u32_mod - lm.time_slot_of_last_channel_access)) % u32_mod,
  record lm { time_slot_of_last_channel_access = now % u32_mod },
)

-- A header by its frame type; `H` is the header of the shared channel, and of the one of a
-- point-to-point link the sender is read.
pub data Header (H : Type 0) : Type 0 where
  broadcast_header : H → Header H
  unicast_header : MacId → Header H
  dme_request dme_response : Header H
  unexpected : Header H

pub record Packet (H : Type 0) : Type 0 where
  pub origin : MacId
  pub destination : MacId
  pub headers : List (Header H)

-- The virtual methods that process a header, on the state of the manager and what it refers to.
pub record Processing (H S : Type 0) : Type 1 where
  pub process_broadcast_message : H → Call S (Unit {0})
  pub process_unicast_message : MacId → Call S (Unit {0})
  pub received_packet_this_slot : S → S

-- A handler that throws a `runtime_error` for any exception.
abbrev pub or_runtime_error : {S A : Type 0} → Call S A → Call S A
or_runtime_error m = try_call is_exception (throws runtime_error) m

module _ {H S : Type 0} (p : Processing H S) where
  -- One header: true if it contains data.
  abbrev pub process_header : Header H → Call S Bool
  process_header (broadcast_header header) =
      or_runtime_error (p.process_broadcast_message header) >> returns true
  process_header (unicast_header src_id) =
      or_runtime_error (p.process_unicast_message src_id) >> returns true
  process_header dme_request = returns false
  process_header dme_response = returns false
  process_header unexpected = throws invalid_argument

  unfoldable pub process_headers : List (Header H) → Call S Bool
  process_headers [] = returns false
  process_headers (header ∷ headers) = process_header header >>= λ data1.
      process_headers headers >>= λ data2. returns (data1 || data2)

  abbrev pub is_destination : ⦃ids : MacIds⦄ → MacId → MacId → Bool
  is_destination ⦃ids⦄ own_id destination =
      not (destination == ids.unset)
      && ((destination == own_id)
          || ((destination == ids.broadcast) || (destination == ids.beacon)))

  -- `onPacketReception`: true if the packet is passed to the upper layer, false if it is deleted.
  -- The assertion that there are headers fails as a null pointer.
  unfoldable pub on_packet_reception : ⦃ids : MacIds⦄ → MacId → Packet H → Call S Bool
  unfolding process_headers
  on_packet_reception own_id packet =
      requires (is_destination own_id packet.destination) invalid_argument
      >> requires (not (has_none packet.headers)) Error.null_pointer
      >> changes p.received_packet_this_slot
      >> process_headers packet.headers
    where
      has_none : List (Header H) → Bool
      has_none [] = true
      has_none (_ ∷ _) = false
