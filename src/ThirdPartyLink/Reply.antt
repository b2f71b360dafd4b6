-- ===== src/ThirdPartyLink/Reply.antt =====
-- The link reply of ThirdPartyLink.cpp, the slots it schedules, and what follows the end of a link.
use ldacs_mcsotdma.Prelude.{
  ℕ, ◌*◌, ◌^◌, Bool, true, not, List, [], ◌∷◌, ◌++◌, Option, ℤ, pos, negsuc, ◌+ℤ◌, ◌-ℤ◌, eqb_ℤ,
  if◌then◌else◌, map,
}
use ldacs_mcsotdma.Prelude.Result.{Result, ok, err, guard, ◌>>=◌, runtime_error}
use ldacs_mcsotdma.Reservation.{MacId, MacIds, Reservation, reserve, busy}
use ldacs_mcsotdma.Table.{TableId, ChannelId, Heap}
use ldacs_mcsotdma.Table.State.{M, pure, throw, ◌>>◌, reads, deref}
use ldacs_mcsotdma.Table.State
use ldacs_mcsotdma.Table.Query.{is_slot_idle}
use ldacs_mcsotdma.Table.Mark.{mark}
use ldacs_mcsotdma.SlotCalculator.{Slots, calculate_alternating_bursts}
use ldacs_mcsotdma.ReservationMap.{ReservationMap, empty_map, add_scheduled_resource}
use ldacs_mcsotdma.ReservationManager.{get_freq_channel_by_center_freq, get_reservation_table}
use ldacs_mcsotdma.ThirdPartyLink.{
  LinkProposal, uninitialized, received_request_awaiting_reply, received_reply_link_established,
  LinkDescription, ThirdPartyLink, Mac, unset_counter, L, ◌then_do◌, set_link,
}
use ldacs_mcsotdma.ThirdPartyLink.Handlers.{
  as_runtime_error, lock_if_possible, unlock_initiator, unlock_recipient, reset,
}

-- `std::pair<int, Reservation>`
pub record Planned : Type 0 where
  pub slot_offset : ℤ
  pub reservation : Reservation

abbrev pub planned : MacId → ℤ → Planned
planned id z = record { slot_offset = z; reservation = reserve id busy }

abbrev pub link_reservations : LinkDescription → Slots → List Planned
link_reservations d slots =
    map (planned d.id_link_initiator) slots.tx_slots
    ++ map (planned d.id_link_recipient) slots.rx_slots

-- `LinkDescription::getRemainingLinkReservations`
unfoldable pub get_remaining_link_reservations : LinkDescription → Result (List Planned)
unfolding calculate_alternating_bursts
get_remaining_link_reservations d = do
  _ ← guard d.link_established runtime_error
  _ ← guard (not (eqb_ℤ d.first_burst_slot_offset (negsuc 0))) runtime_error
  ok (
      link_reservations d (
        calculate_alternating_bursts d.first_burst_slot_offset d.link_proposal.num_tx_initiator
          d.link_proposal.num_tx_recipient d.link_proposal.period d.timeout))

unfoldable pub schedule_if_idle : ℕ → TableId → Planned → ReservationMap → Bool → M ReservationMap
unfolding mark
schedule_if_idle depth i p m idle =
    if idle
    then (mark depth i p.slot_offset p.reservation
        >> pure (add_scheduled_resource i p.slot_offset m))
    else pure m

-- The loop of `scheduleIfPossible`.
unfoldable pub schedule_each : ℕ → Option TableId → List Planned → ReservationMap → M ReservationMap
unfolding schedule_if_idle is_slot_idle
schedule_each depth tbl [] m = pure m
schedule_each depth tbl (p ∷ ps) m = State.◌>>=◌ (reads (λ h. deref tbl)) λ i.
    State.◌>>=◌ (reads (λ h. is_slot_idle (h.tables i) p.slot_offset))
      λ idle. State.◌>>=◌ (schedule_if_idle depth i p m idle) (schedule_each depth tbl ps)

unfoldable pub schedule_if_possible : ℕ → Option TableId → List Planned → M ReservationMap
unfolding schedule_each
schedule_if_possible depth tbl ps = schedule_each depth tbl ps empty_map

-- The three steps that follow in `processLinkReplyMessage` and in `onAnotherThirdLinkReset`, with
-- the exception of each made a `runtime_error`.
unfoldable pub schedule_remaining : ℕ → Mac → LinkDescription → M ReservationMap
unfolding get_remaining_link_reservations schedule_if_possible
schedule_remaining depth mac d =
    State.◌>>=◌ (reads (λ h. as_runtime_error (get_remaining_link_reservations d))) λ ps.
      State.◌>>=◌
        (reads (λ h.
          as_runtime_error (get_reservation_table h mac.reservation_manager d.selected_channel)))
        λ tbl h. rethrow (schedule_if_possible depth tbl ps h)
  where
    rethrow : Result ReservationMap × Heap → Result ReservationMap × Heap
    rethrow (r, h) = (as_runtime_error r, h)

abbrev pub put_scheduled :
    ThirdPartyLink → Result ReservationMap × Heap → Result (Unit {0}) × (ThirdPartyLink × Heap)
put_scheduled link (ok m, h) = (ok tt, (record link { scheduled_resources = m }, h))
put_scheduled link (err e, h) = (err e, (link, h))

-- `this->scheduled_resources = scheduleIfPossible(…)`
unfoldable pub reschedule : ℕ → Mac → L (Unit {0})
unfolding schedule_remaining
reschedule depth mac link h =
    put_scheduled link (schedule_remaining depth mac link.link_description h)

-- The header of a link reply: whom it is for, and the link that was selected.
pub record LinkReply : Type 0 where
  pub dest_id : MacId
  pub proposed_link : LinkProposal

abbrev pub established :
    Mac → LinkReply → MacId → Option ChannelId → ThirdPartyLink → ThirdPartyLink
established mac header origin_id channel link = record link {
  normalization_offset = pos 0;
  link_description = record {
    link_proposal = header.proposed_link;
    timeout = mac.default_pp_link_timeout;
    selected_channel = channel;
    first_burst_slot_offset = header.proposed_link.slot_offset;
    link_established = true;
    id_link_initiator = header.dest_id;
    id_link_recipient = origin_id;
  };
}

-- `first_burst_slot_offset + timeout*10*std::pow(2, period) - 5*std::pow(2, period)`
abbrev pub expiry : Mac → LinkProposal → ℤ
expiry mac proposal =
    proposal.slot_offset
    +ℤ pos (mac.default_pp_link_timeout * 10 * 2 ^ proposal.period)
    -ℤ pos (5 * 2 ^ proposal.period)

unfoldable pub establish : ℕ → Mac → LinkReply → MacId → Result (Option ChannelId) → L (Unit {0})
unfolding reschedule
establish depth mac header origin_id (err e) link h = (err e, (link, h))
establish depth mac header origin_id (ok channel) link h =
    (set_link (established mac header origin_id channel)
        then_do reschedule depth mac
        then_do set_link (λ l. record l {
          num_slots_until_expected_link_reply = unset_counter;
          link_expiry_offset = expiry mac header.proposed_link;
        }))
      link h

module _ ⦃ids : MacIds⦄ where
  -- `processLinkReplyMessage`
  unfoldable pub process_link_reply_message : ℕ → Mac → LinkReply → MacId → L (Unit {0})
  unfolding unlock_initiator unlock_recipient establish get_freq_channel_by_center_freq
  process_link_reply_message depth mac header origin_id =
      unlock_initiator
      then_do set_link (λ l. record l { locked_resources_for_initiator = empty_map })
      then_do unlock_recipient
      then_do set_link (λ l. record l {
        locked_resources_for_recipient = empty_map;
        status = received_reply_link_established;
      })
      then_do (λ link h.
          establish depth mac header origin_id
            (get_freq_channel_by_center_freq h mac.reservation_manager
              header.proposed_link.center_frequency)
            link h)

  -- `onAnotherThirdLinkReset`
  unfoldable pub on_another_third_link_reset : ℕ → Mac → L (Unit {0})
  unfolding lock_if_possible reschedule
  on_another_third_link_reset depth mac link h = elim link.status [
    | uninitialized ↦ (ok tt, (link, h))
    | received_request_awaiting_reply ↦
        lock_if_possible mac link.link_description.link_proposal link.normalization_offset
          link.link_description.timeout link h
    | received_reply_link_established ↦ reschedule depth mac link h
  ]

  abbrev is_due : ℤ → Bool
  is_due counter = eqb_ℤ counter (pos 0)

  -- `reset(); mac->onThirdPartyLinkReset(this);` the second call works on the other links.
  abbrev pub reset_and_notify : ℕ → Mac → L (Unit {0}) → L (Unit {0})
  reset_and_notify depth mac notify = reset depth mac then_do notify

  abbrev pub when : (ThirdPartyLink → Bool) → L (Unit {0}) → L (Unit {0})
  when test m link h = if test link then m link h else (ok tt, (link, h))

  -- `onSlotEnd`; `notify` is `MCSOTDMA_Mac::onThirdPartyLinkReset` for this link.
  unfoldable pub on_link_slot_end : ℕ → Mac → L (Unit {0}) → L (Unit {0})
  unfolding reset
  on_link_slot_end depth mac notify =
      when (λ link. is_due link.num_slots_until_expected_link_reply)
        (reset_and_notify depth mac notify)
      then_do when (λ link. is_due link.link_expiry_offset) (reset_and_notify depth mac notify)
