-- ===== src/ThirdPartyLink.antt =====
-- ThirdPartyLink.hpp and ThirdPartyLink.cpp: what a user does about the links of others. It locks
-- the slots that a link request proposes, and marks those that a link reply selects as busy.
-- The calls of MCSOTDMA_Mac, NeighborObserver and SHLinkManager are the operations of `Mac`.
pub mod Handlers
pub mod Reply
pub mod Reset
pub mod Countdown
use ldacs_mcsotdma.Prelude.{
  ℕ, zero, suc, ◌+◌, ◌-◌, ◌*◌, ◌^◌, Bool, true, false, not, ◌&&◌, ◌==◌, List, [], ◌∷◌, ◌++◌, Option,
  none, some, ℤ, pos, negsuc, ◌+ℤ◌, ◌-ℤ◌, leb_ℤ, ltb_ℤ, eqb_ℤ, to_u32, if◌then◌else◌, map,
}
use ldacs_mcsotdma.Prelude.Result.{
  Result, ok, err, Error, ◌>>=◌, runtime_error, is_exception, is_id_mismatch, is_cannot_lock,
  is_invalid_argument,
}
use ldacs_mcsotdma.Reservation.{MacId, MacIds, Reservation, reserve, busy}
use ldacs_mcsotdma.Table.{TableId, ChannelId, Heap}
use ldacs_mcsotdma.Table.State.{M, deref}
use ldacs_mcsotdma.Table.Query.{is_slot_idle}
use ldacs_mcsotdma.Table.Mark.{mark}
use ldacs_mcsotdma.Table.Lock.{lock_either_id}
use ldacs_mcsotdma.SlotCalculator.{Slots, calculate_alternating_bursts}
use ldacs_mcsotdma.ReservationMap.{
  ReservationMap, empty_map, add_locked_resource, add_scheduled_resource, on_slot_start, unlock_map,
  unschedule,
}
use ldacs_mcsotdma.ReservationManager.{
  ReservationManager, get_freq_channel_by_center_freq, get_reservation_table,
}

-- The fields of `LinkProposal` that are read.
pub record LinkProposal : Type 0 where
  pub center_frequency : ℕ
  pub period : ℕ
  pub slot_offset : ℤ
  pub num_tx_initiator : ℕ
  pub num_tx_recipient : ℕ

pub data Status : Type 0 where
  uninitialized received_request_awaiting_reply received_reply_link_established : Status

pub record LinkDescription : Type 0 where
  pub link_proposal : LinkProposal
  pub timeout : ℕ
  pub selected_channel : Option ChannelId
  pub first_burst_slot_offset : ℤ
  pub link_established : Bool
  pub id_link_initiator : MacId
  pub id_link_recipient : MacId

pub record ThirdPartyLink : Type 0 where
  pub status : Status
  pub id_link_initiator : MacId
  pub id_link_recipient : MacId
  pub locked_resources_for_initiator : ReservationMap
  pub locked_resources_for_recipient : ReservationMap
  pub scheduled_resources : ReservationMap
  pub num_slots_until_expected_link_reply : ℤ
  pub link_expiry_offset : ℤ
  pub normalization_offset : ℤ
  pub link_description : LinkDescription

-- What the link asks of the rest of the program.
pub record Mac : Type 0 where
  pub reservation_manager : ReservationManager
  pub default_pp_link_timeout : ℕ
  -- `getNextExpectedBroadcastSlotOffset`, which throws for an unknown neighbor
  pub next_expected_broadcast : MacId → Result ℕ
  -- `reportThirdPartyExpectedLinkReply`
  pub report_expected_reply : ℤ → MacId → M (Unit {0})
  -- the default of `LinkProposal`
  pub no_proposal : LinkProposal

abbrev pub unset_counter : ℤ
unset_counter = negsuc 1

module _ ⦃ids : MacIds⦄ where
  abbrev pub no_description : LinkProposal → LinkDescription
  no_description proposal = record {
    link_proposal = proposal;
    timeout = 0;
    selected_channel = none;
    first_burst_slot_offset = negsuc 0;
    link_established = false;
    id_link_initiator = ids.unset;
    id_link_recipient = ids.unset;
  }

  abbrev pub third_party_link : Mac → MacId → MacId → ThirdPartyLink
  third_party_link mac id_link_initiator id_link_recipient = record {
    status = uninitialized;
    id_link_initiator = id_link_initiator;
    id_link_recipient = id_link_recipient;
    locked_resources_for_initiator = empty_map;
    locked_resources_for_recipient = empty_map;
    scheduled_resources = empty_map;
    num_slots_until_expected_link_reply = unset_counter;
    link_expiry_offset = unset_counter;
    normalization_offset = unset_counter;
    link_description = no_description mac.no_proposal;
  }

-- A counter that is set is decremented; `num_slots` is unsigned, so a negative counter passes.
abbrev pub decrement : ℕ → ℤ → Result ℤ
decrement num_slots counter =
    if eqb_ℤ counter unset_counter
    then ok counter
    else if leb_ℤ (pos 0) counter && ltb_ℤ counter (pos num_slots)
    then err runtime_error
    else ok (counter -ℤ pos num_slots)

unfoldable pub elapse : ℕ → ReservationMap → ReservationMap
elapse zero m = m
elapse (suc n) m = elapse n (on_slot_start m)

abbrev pub aged : ℕ → ThirdPartyLink → ThirdPartyLink
aged num_slots link = record link {
  locked_resources_for_initiator = elapse num_slots link.locked_resources_for_initiator;
  locked_resources_for_recipient = elapse num_slots link.locked_resources_for_recipient;
  scheduled_resources = elapse num_slots link.scheduled_resources;
}

abbrev pub normalized : ℤ → ℤ
normalized offset = if eqb_ℤ offset unset_counter then offset else offset +ℤ pos 1

-- What follows the two decrements. Where one throws, the maps have moved on and the counter before
-- it has been decremented.
abbrev pub counted_down :
    ℕ → ThirdPartyLink → Result ℤ → Result ℤ → Result (Unit {0}) × ThirdPartyLink
counted_down num_slots link (err e) expiry = (err e, aged num_slots link)
counted_down num_slots link (ok reply) (err e) =
    (err e, record (aged num_slots link) { num_slots_until_expected_link_reply = reply })
counted_down num_slots link (ok reply) (ok expiry) = (
  ok tt,
  record (aged num_slots link) {
    num_slots_until_expected_link_reply = reply;
    link_expiry_offset = expiry;
    normalization_offset = normalized link.normalization_offset;
  },
)

-- `onSlotStart`
unfoldable pub on_link_slot_start : ℕ → ThirdPartyLink → Result (Unit {0}) × ThirdPartyLink
unfolding elapse
on_link_slot_start num_slots link =
    counted_down num_slots link (decrement num_slots link.num_slots_until_expected_link_reply)
      (decrement num_slots link.link_expiry_offset)

-- A method that changes the link and the heap. An exception leaves both as they are by then.
abbrev pub L : Type 0 → Type 0
L A = ThirdPartyLink → Heap → Result A × (ThirdPartyLink × Heap)

abbrev pub continue_with :
    {A B : Type 0}
    → (A → L B)
    → Result A × (ThirdPartyLink × Heap)
    → Result B × (ThirdPartyLink × Heap)
continue_with f (ok a, (link, h)) = f a link h
continue_with f (err e, rest) = (err e, rest)

infixl 5 ◌then_do◌
abbrev pub ◌then_do◌ : {A B : Type 0} → L A → L B → L B
(m then_do k) link h = continue_with (λ _. k) (m link h)

abbrev pub with_link :
    {A : Type 0} → ThirdPartyLink → Result A × Heap → Result A × (ThirdPartyLink × Heap)
with_link link (r, h) = (r, (link, h))

-- A call that leaves the link alone.
abbrev pub on_heap : {A : Type 0} → M A → L A
on_heap m link h = with_link link (m h)

abbrev pub set_link : (ThirdPartyLink → ThirdPartyLink) → L (Unit {0})
set_link f link h = (ok tt, (f link, h))
