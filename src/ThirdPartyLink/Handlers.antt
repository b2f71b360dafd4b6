-- ===== src/ThirdPartyLink/Handlers.antt =====
-- The handlers of ThirdPartyLink.cpp: reset, the request, the reply, and the reset of another link.
use ldacs_mcsotdma.Prelude.{
  ℕ, Bool, true, false, ◌||◌, List, [], ◌∷◌, Option, none, some, ℤ, pos, negsuc, ◌-ℤ◌, to_u32,
  if◌then◌else◌,
}
use ldacs_mcsotdma.Prelude.Result.{
  Result, ok, err, Error, runtime_error, is_exception, is_id_mismatch, is_cannot_lock,
  is_invalid_argument,
}
use ldacs_mcsotdma.Prelude.Result
use ldacs_mcsotdma.Reservation.{MacId, MacIds, busy}
use ldacs_mcsotdma.Table.{TableId, Heap}
use ldacs_mcsotdma.Table.Lock.{lock_either_id}
use ldacs_mcsotdma.SlotCalculator.{Slots, calculate_alternating_bursts}
use ldacs_mcsotdma.ReservationMap.{
  ReservationMap, empty_map, add_locked_resource, unlock_map, unschedule,
}
use ldacs_mcsotdma.ReservationManager.{get_freq_channel_by_center_freq, get_reservation_table}
use ldacs_mcsotdma.ThirdPartyLink.{
  LinkProposal, uninitialized, received_request_awaiting_reply, ThirdPartyLink, Mac, unset_counter,
  no_description, L, ◌then_do◌, on_heap, set_link,
}

-- What the loops of `lockIfPossible` carry: the map that they fill, and how they end.
abbrev pub Locking : Type 0
Locking = ReservationMap → Heap → Result (Unit {0}) × (ReservationMap × Heap)

-- `could_lock`, or the exception: two of them are passed over, any other is a `runtime_error`.
abbrev pub after_lock :
    TableId
    → ℤ
    → ReservationMap
    → Locking
    → Result Bool × Heap
    → Result (Unit {0}) × (ReservationMap × Heap)
after_lock i slot_offset m rest (ok true, h) = rest (add_locked_resource i slot_offset m) h
after_lock i slot_offset m rest (ok false, h) = rest m h
after_lock i slot_offset m rest (err e, h) =
    if is_id_mismatch e || is_cannot_lock e
    then rest m h
    else (err (if is_exception e then runtime_error else e), (m, h))

-- A loop of `lockIfPossible`; the table is looked at in the first round.
unfoldable pub lock_slots : Option TableId → MacId → MacId → List ℤ → Locking
unfolding lock_either_id
lock_slots tbl id1 id2 [] m h = (ok tt, (m, h))
lock_slots none id1 id2 (z ∷ zs) m h = (err Error.null_pointer, (m, h))
lock_slots (some i) id1 id2 (z ∷ zs) m h =
    after_lock i z m (lock_slots (some i) id1 id2 zs) (lock_either_id i (to_u32 z) id1 id2 h)

-- `catch (const std::exception&)` that throws a `runtime_error`.
abbrev pub as_runtime_error : {A : Type 0} → Result A → Result A
as_runtime_error (ok a) = ok a
as_runtime_error (err e) = err (if is_exception e then runtime_error else e)

abbrev pub put_initiator :
    ThirdPartyLink
    → Result (Unit {0}) × (ReservationMap × Heap)
    → Result (Unit {0}) × (ThirdPartyLink × Heap)
put_initiator link (r, (m, h)) = (r, (record link { locked_resources_for_initiator = m }, h))

abbrev pub put_recipient :
    ThirdPartyLink
    → Result (Unit {0}) × (ReservationMap × Heap)
    → Result (Unit {0}) × (ThirdPartyLink × Heap)
put_recipient link (r, (m, h)) = (r, (record link { locked_resources_for_recipient = m }, h))

unfoldable pub lock_initiator : Option TableId → List ℤ → L (Unit {0})
unfolding lock_slots
lock_initiator tbl zs link h = put_initiator link (
    lock_slots tbl link.id_link_initiator link.id_link_recipient zs
      link.locked_resources_for_initiator h)

unfoldable pub lock_recipient : Option TableId → List ℤ → L (Unit {0})
unfolding lock_slots
lock_recipient tbl zs link h = put_recipient link (
    lock_slots tbl link.id_link_recipient link.id_link_initiator zs
      link.locked_resources_for_recipient h)

-- The table of the proposal's frequency.
unfoldable pub proposed_table : Mac → LinkProposal → Heap → Result (Option TableId)
unfolding get_freq_channel_by_center_freq get_reservation_table
proposed_table mac proposal h =
    Result.◌>>=◌
      (as_runtime_error
        (get_freq_channel_by_center_freq h mac.reservation_manager proposal.center_frequency))
      (get_reservation_table h mac.reservation_manager)

abbrev pub proposed_slots : LinkProposal → ℤ → ℕ → Slots
proposed_slots proposal normalization_offset timeout =
    calculate_alternating_bursts (proposal.slot_offset -ℤ normalization_offset)
      proposal.num_tx_initiator proposal.num_tx_recipient proposal.period timeout

unfoldable pub lock_both : Slots → Result (Option TableId) → L (Unit {0})
unfolding lock_initiator lock_recipient
lock_both slots (err e) link h = (err e, (link, h))
lock_both slots (ok tbl) link h =
    (lock_initiator tbl slots.tx_slots then_do lock_recipient tbl slots.rx_slots) link h

-- `lockIfPossible`, called with the link's own two maps as the source does.
unfoldable pub lock_if_possible : Mac → LinkProposal → ℤ → ℕ → L (Unit {0})
unfolding proposed_table lock_both calculate_alternating_bursts
lock_if_possible mac proposal normalization_offset timeout link h =
    lock_both (proposed_slots proposal normalization_offset timeout) (proposed_table mac proposal h)
      link h

module _ ⦃ids : MacIds⦄ where
  -- The releases of `reset` and of `processLinkReplyMessage`.
  unfoldable pub unlock_initiator : L ℕ
  unfolding unlock_map
  unlock_initiator link =
      on_heap
        (unlock_map link.id_link_initiator link.id_link_recipient
          link.locked_resources_for_initiator)
        link

  unfoldable pub unlock_recipient : L ℕ
  unfolding unlock_map
  unlock_recipient link =
      on_heap
        (unlock_map link.id_link_recipient link.id_link_initiator
          link.locked_resources_for_recipient)
        link

  unfoldable pub unschedule_busy : ℕ → L ℕ
  unfolding unschedule
  unschedule_busy depth link = on_heap (unschedule depth (busy ∷ []) link.scheduled_resources) link

  -- The end of `reset`.
  abbrev pub cleared : Mac → ThirdPartyLink → ThirdPartyLink
  cleared mac link = record link {
    locked_resources_for_initiator = empty_map;
    locked_resources_for_recipient = empty_map;
    scheduled_resources = empty_map;
    num_slots_until_expected_link_reply = unset_counter;
    link_expiry_offset = unset_counter;
    normalization_offset = unset_counter;
    link_description = no_description mac.no_proposal;
  }

  unfoldable pub reset : ℕ → Mac → L (Unit {0})
  unfolding unlock_initiator unlock_recipient unschedule_busy
  reset depth mac =
      set_link (λ link. record link { status = uninitialized })
      then_do unlock_initiator
      then_do unlock_recipient
      then_do unschedule_busy depth
      then_do set_link (cleared mac)

  -- `num_slots_until_expected_link_reply`: the recipient's next broadcast, or the initiator's.
  unfoldable pub expected_reply : Mac → ThirdPartyLink → Result ℕ
  expected_reply mac link = elim (mac.next_expected_broadcast link.id_link_recipient) [
    | ok n ↦ ok n
    | err e ↦
        if is_invalid_argument e
        then as_runtime_error (mac.next_expected_broadcast link.id_link_initiator)
        else err e
  ]

  abbrev pub requested : Mac → LinkProposal → ThirdPartyLink → ThirdPartyLink
  requested mac proposal link = record link {
    normalization_offset = pos 0;
    link_description = record {
      link_proposal = proposal;
      timeout = mac.default_pp_link_timeout;
      selected_channel = none;
      first_burst_slot_offset = negsuc 0;
      link_established = false;
      id_link_initiator = link.id_link_initiator;
      id_link_recipient = link.id_link_recipient;
    };
  }

  unfoldable pub request_with : Mac → LinkProposal → Result ℕ → L (Unit {0})
  unfolding lock_if_possible
  request_with mac proposal (err e) link h = (err e, (link, h))
  request_with mac proposal (ok n) link h =
      (set_link (λ l. record l { num_slots_until_expected_link_reply = pos n })
          then_do on_heap (mac.report_expected_reply (pos n) link.id_link_recipient)
          then_do set_link (requested mac proposal)
          then_do lock_if_possible mac proposal (pos 0) mac.default_pp_link_timeout)
        link h

  -- `processLinkRequestMessage`
  unfoldable pub process_link_request_message : Mac → LinkProposal → L (Unit {0})
  unfolding expected_reply request_with
  process_link_request_message mac proposal link =
      request_with mac proposal (expected_reply mac link)
        (record link { status = received_request_awaiting_reply })
