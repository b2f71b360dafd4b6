-- ===== src/PpLinkManager/Accepting.antt =====
-- PPLinkManager.cpp: how a proposal that has been agreed on becomes a link.
use ldacs_mcsotdma.Prelude.{Bool, not, Option, pos, if◌then◌else◌}
use ldacs_mcsotdma.Prelude.Result.{
  Result, ok, err, Error, runtime_error, is_exception, is_runtime_error,
}
use ldacs_mcsotdma.Prelude.Result
use ldacs_mcsotdma.Prelude.Calls.{◌>>=◌, ◌>>◌, asks}
use ldacs_mcsotdma.Reservation.{MacId, MacIds}
use ldacs_mcsotdma.Table.{TableId, ChannelId, Heap}
use ldacs_mcsotdma.ReservationMap.{ReservationMap, merge}
use ldacs_mcsotdma.ReservationManager.{get_freq_channel_by_center_freq, get_reservation_table}
use ldacs_mcsotdma.ReservationManager.Schedule.{Link, schedule_bursts}
use ldacs_mcsotdma.ThirdPartyLink.{LinkProposal}
use ldacs_mcsotdma.LinkManager.{link_established, or_runtime_error}
use ldacs_mcsotdma.PpLinkManager.Handlers.{link_id, cancel_messages, cancel_link, no_attempts}
use ldacs_mcsotdma.PpLinkManager.{PpLinkManager, Mac, Pp, on_heap, set_link, set_status}

module _ ⦃ids : MacIds⦄ {S : Type 0} (mac : Mac S) where
  -- The bursts of an accepted proposal.
  abbrev pub accepted_link : MacId → Bool → LinkProposal → Link
  accepted_link id is_link_initiator proposal = record {
    start_slot_offset = proposal.slot_offset;
    num_forward_bursts = proposal.num_tx_initiator;
    num_reverse_bursts = proposal.num_tx_recipient;
    period = proposal.period;
    timeout = mac.default_pp_link_timeout;
    initiator_id = if is_link_initiator then mac.own_id else id;
    recipient_id = if is_link_initiator then id else mac.own_id;
    is_link_initiator = is_link_initiator;
  }

  abbrev pub find_channel : LinkProposal → Heap → Result (Option ChannelId)
  find_channel proposal h =
      get_freq_channel_by_center_freq h mac.reservation_manager proposal.center_frequency

  abbrev pub find_table : LinkProposal → Heap → Result (Option TableId)
  find_table proposal h =
      Result.◌>>=◌ (find_channel proposal h) (get_reservation_table h mac.reservation_manager)

  -- The link keeps the channel and its role before its bursts are scheduled.
  abbrev pub take_bursts : ReservationMap → PpLinkManager → PpLinkManager
  take_bursts m link = record link { reserved_resources = merge link.reserved_resources m }

  abbrev pub take_channel : Bool → Option ChannelId → PpLinkManager → PpLinkManager
  take_channel is_link_initiator channel link = record link {
    channel = channel;
    is_link_initiator = is_link_initiator;
  }

  unfoldable pub schedule_link : LinkProposal → Bool → Option ChannelId → Pp S (Unit {0})
  unfolding schedule_bursts
  schedule_link proposal is_link_initiator channel s =
      (set_link (take_channel is_link_initiator channel)
          >> or_runtime_error (
              on_heap (
                schedule_bursts mac.depth mac.reservation_manager channel
                  (accepted_link (link_id mac s) is_link_initiator proposal)))
          >>= λ m. set_link (take_bursts m))
        s

  abbrev pub established : PpLinkManager → PpLinkManager
  established link = record (set_status link_established link) {
    timeout = pos mac.default_pp_link_timeout;
  }

  abbrev pub take_table : Option TableId → PpLinkManager → PpLinkManager
  take_table tbl link = record link {
    base = record (link.base) { current_reservation_table = tbl };
  }

  -- The end of `acceptLink`.
  unfoldable pub settle : Option TableId → Pp S (Unit {0})
  settle tbl =
      set_link (take_table tbl)
      >> set_link established
      >> cancel_messages mac
      >> set_link (no_attempts mac)

  unfoldable pub accept_on : LinkProposal → Bool → Option ChannelId → Pp S (Unit {0})
  unfolding schedule_link get_freq_channel_by_center_freq get_reservation_table settle
  accept_on proposal through_request channel =
      schedule_link proposal (not through_request) channel
      >> asks (λ s. find_table proposal s.world.heap)
      >>= settle

  abbrev pub take_period : LinkProposal → PpLinkManager → PpLinkManager
  take_period proposal link = record link { period = proposal.period }

  -- `acceptLink`
  unfoldable pub accept_link : LinkProposal → Bool → Pp S (Unit {0})
  unfolding cancel_link get_freq_channel_by_center_freq accept_on
  accept_link proposal through_request =
      cancel_link mac
      >> set_link (take_period proposal)
      >> asks (λ s. find_channel proposal s.world.heap)
      >>= accept_on proposal through_request
