-- ===== src/PpLinkManager/Handlers.antt =====
-- The methods of PPLinkManager.cpp.
use ldacs_mcsotdma.Prelude.{
  ℕ, ◌+◌, Bool, true, false, not, [], ◌∷◌, none, ℤ, pos, ◌-ℤ◌, ltb_ℤ, leb_ℤ, eqb_ℤ, leb,
  if◌then◌else◌,
}
use ldacs_mcsotdma.Prelude.Result.{
  Result, ok, err, Error, runtime_error, is_exception, is_runtime_error,
}
use ldacs_mcsotdma.Prelude.Result
use ldacs_mcsotdma.Prelude.Calls.{returns, ◌>>=◌, ◌>>◌, asks, changes, when}
use ldacs_mcsotdma.Reservation.{MacId, MacIds, tx, rx}
use ldacs_mcsotdma.Table.{Heap}
use ldacs_mcsotdma.ReservationMap.{empty_map, on_slot_start, unlock_map, unschedule}
use ldacs_mcsotdma.LinkManager.{
  LinkStatus, link_not_established, awaiting_request_generation, awaiting_reply, is_established,
  reset_flags, is_packet_missing, note_missing_packet, measure_mac_delay, or_runtime_error,
}
use ldacs_mcsotdma.PpLinkManager.{
  PpLinkManager, Mac, Site, Pp, on_world, on_heap, on_rest, set_link, set_rest, set_base,
  set_status, get_next_tx_slot, get_next_rx_slot, is_next, is_start_of_tx_burst,
}

abbrev pub is_not_established : LinkStatus → Bool
is_not_established link_not_established = true
is_not_established _ = false

abbrev pub is_awaiting_reply : LinkStatus → Bool
is_awaiting_reply awaiting_reply = true
is_awaiting_reply _ = false

module _ ⦃ids : MacIds⦄ {S : Type 0} (mac : Mac S) where
  abbrev pub link_id : Site S → MacId
  link_id s = s.link.base.link_id

  -- The calls of the shared channel's manager at the end of `cancelLink` and of `acceptLink`.
  abbrev pub cancel_messages : Pp S (Unit {0})
  cancel_messages s =
      (set_rest (mac.cancel_link_request (link_id s))
          >> set_rest (mac.cancel_link_reply (link_id s)))
        s

  abbrev pub closed : PpLinkManager → PpLinkManager
  closed link = record (set_status link_not_established link) {
    reserved_resources = empty_map;
    base = record (link.base) {
      link_status = link_not_established;
      current_reservation_table = none;
    };
  }

  unfoldable pub unlock_own : Pp S ℕ
  unfolding unlock_map
  unlock_own s = on_heap (unlock_map mac.own_id (link_id s) s.link.reserved_resources) s

  unfoldable pub unschedule_own : Pp S ℕ
  unfolding unschedule
  unschedule_own s = on_heap (unschedule mac.depth (tx ∷ rx ∷ []) s.link.reserved_resources) s

  unfoldable pub cancel_link : Pp S (Unit {0})
  unfolding unlock_own unschedule_own
  cancel_link = unlock_own >> unschedule_own >> set_link closed >> cancel_messages

  abbrev pub count_attempt : PpLinkManager → PpLinkManager
  count_attempt link = record link { establishment_attempts = link.establishment_attempts + 1 }

  abbrev pub no_attempts : PpLinkManager → PpLinkManager
  no_attempts link = record link { establishment_attempts = 0 }

  unfoldable pub request_link : Pp S (Unit {0})
  request_link s =
      (on_world (mac.send_link_request s.link (link_id s))
          >> set_link (set_status awaiting_request_generation))
        s

  unfoldable pub attempt_link : Pp S (Unit {0})
  unfolding cancel_link request_link
  attempt_link s =
      (if leb s.link.max_establishment_attempts s.link.establishment_attempts
          then cancel_link >> set_link no_attempts
          else if is_established s.link.base.link_status
          then returns tt
          else request_link)
        s

  -- `establishLink`
  unfoldable pub establish_link : Pp S (Unit {0})
  unfolding attempt_link
  establish_link = set_link count_attempt >> attempt_link

  -- `notifyOutgoing`, which does not read the number of bits.
  unfoldable pub notify_outgoing : Pp S (Unit {0})
  unfolding establish_link
  notify_outgoing s =
      (if is_not_established s.link.base.link_status
          then set_link no_attempts >> establish_link
          else returns tt)
        s

  abbrev pub new_slot : PpLinkManager → PpLinkManager
  new_slot link = record link {
    base = reset_flags link.base;
    reserved_resources = on_slot_start link.reserved_resources;
    transmission_this_slot = false;
    reception_this_slot = false;
    reported_start_tx_burst_to_arq = false;
    reported_end_tx_burst_to_arq = false;
  }

  -- `onSlotStart`: one slot, whatever the number of slots.
  abbrev pub on_pp_slot_start : ℕ → Pp S (Unit {0})
  on_pp_slot_start num_slots = set_link new_slot

  -- `decrementTimeout`
  abbrev pub is_exchange_end : Heap → PpLinkManager → Result Bool
  is_exchange_end h link =
      Result.◌>>=◌
        (if link.is_link_initiator then get_next_rx_slot h link else get_next_tx_slot h link)
        λ z. ok (eqb_ℤ z (pos 0))

  abbrev pub count_exchange : Bool → PpLinkManager → PpLinkManager
  count_exchange b link = if b then record link { timeout = link.timeout -ℤ pos 1 } else link

  unfoldable pub count_down : Pp S (Unit {0})
  unfolding get_next_tx_slot get_next_rx_slot
  count_down = or_runtime_error (asks (λ s. is_exchange_end s.world.heap s.link)) >>= λ ends.
      set_link (count_exchange ends)

  unfoldable pub decrement_timeout : Pp S Bool
  unfolding count_down
  decrement_timeout = asks (λ s. ok s.link.base.link_status) >>= λ status.
      when (is_established status) count_down >> asks (λ s. ok (leb_ℤ s.link.timeout (pos 0)))

  unfoldable pub on_timeout_expiry : Pp S (Unit {0})
  unfolding cancel_link notify_outgoing
  on_timeout_expiry =
      set_link (λ link. record link { reserved_resources = empty_map })
      >> cancel_link
      >> set_link no_attempts
      >> asks (λ s. ok (mac.is_there_more_data (link_id s) s.world.rest))
      >>= λ more. when more notify_outgoing

  -- The ARQ is told of the last transmission of a burst.
  unfoldable pub report_end_of_burst : Pp S (Unit {0})
  unfolding get_next_tx_slot
  report_end_of_burst =
      asks (λ s. is_next (pos 1) (get_next_tx_slot s.world.heap s.link)) >>= λ again.
      when (not again) (
        set_link (λ link. record link { reported_end_tx_burst_to_arq = true })
        >> asks (λ s. ok (link_id s))
        >>= λ id. set_rest (mac.report_end_of_tx_burst id))

  unfoldable pub end_established_slot : Pp S (Unit {0})
  unfolding report_end_of_burst decrement_timeout on_timeout_expiry
  end_established_slot = asks (λ s. ok s.link.transmission_this_slot) >>= λ sent.
      when sent report_end_of_burst >> decrement_timeout >>= λ expired.
      when expired on_timeout_expiry

  abbrev pub count_down_reply : PpLinkManager → PpLinkManager
  count_down_reply link = record link {
    expected_link_request_confirmation_slot = link.expected_link_request_confirmation_slot -ℤ pos 1;
  }

  -- A reply that is overdue: the link is set up anew.
  unfoldable pub await_reply : Pp S (Unit {0})
  unfolding cancel_link establish_link
  await_reply =
      set_link count_down_reply
      >> asks (λ s. ok (ltb_ℤ s.link.expected_link_request_confirmation_slot (pos 0)))
      >>= λ overdue. when overdue (cancel_link >> establish_link)

  unfoldable pub report_missing : Pp S (Unit {0})
  report_missing s =
      (set_base note_missing_packet
          >> when (is_packet_missing s.link.base)
              (set_rest (mac.report_missing_packet (link_id s))))
        s

  -- `onSlotEnd`
  unfoldable pub on_pp_slot_end : Pp S (Unit {0})
  unfolding report_missing await_reply end_established_slot
  on_pp_slot_end = report_missing >> asks (λ s. ok s.link.base.link_status) >>= λ before.
      when (is_awaiting_reply before) await_reply
      >> asks (λ s. ok s.link.base.link_status)
      >>= λ after. when (is_established after) (or_runtime_error end_established_slot)

  abbrev pub note_transmission : Site S → Site S
  note_transmission s = record s {
    link = record (s.link) {
      base = (measure_mac_delay (mac.current_slot s.world.rest) s.link.base).1;
      transmission_this_slot = true;
    };
  }

  abbrev pub report_start : MacId → Pp S (Unit {0})
  report_start id =
      set_link (λ link. record link { reported_start_tx_burst_to_arq = true })
      >> set_rest (mac.report_start_of_tx_burst id)

  unfoldable pub transmit : MacId → Bool → Pp S (MacId × MacId)
  transmit id starts =
      when starts (report_start id)
      >> on_rest (mac.request_segment id)
      >> changes note_transmission
      >> returns (mac.own_id, id)

  -- `onTransmissionReservation`: the source and the destination that are written into the header of
  -- the packet.
  unfoldable pub on_pp_transmission : Pp S (MacId × MacId)
  unfolding get_next_tx_slot transmit
  on_pp_transmission s =
      (asks (λ t. is_start_of_tx_burst t.world.heap t.link) >>= transmit (link_id s)) s

  abbrev pub requested : ℕ → ℕ → ℕ → ℤ → PpLinkManager → PpLinkManager
  requested num_forward num_recipient period expected_confirming_slot link =
      record (set_status awaiting_reply link) {
        num_initiator_tx = num_forward;
        num_recipient_tx = num_recipient;
        period = period;
        timeout = pos mac.default_pp_link_timeout;
        expected_link_request_confirmation_slot = expected_confirming_slot;
      }

  -- `notifyLinkRequestSent`
  unfoldable pub notify_link_request_sent : ℕ → ℕ → ℕ → ℤ → Pp S (Unit {0})
  unfolding cancel_link
  notify_link_request_sent num_forward num_recipient period expected_confirming_slot =
      cancel_link >> set_link (requested num_forward num_recipient period expected_confirming_slot)

  -- `processUnicastMessage`
  abbrev pub process_unicast_message : MacId → Pp S (Unit {0})
  process_unicast_message src_id = on_rest (mac.report_neighbor_activity src_id)
