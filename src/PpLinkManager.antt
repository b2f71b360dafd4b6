-- ===== src/PpLinkManager.antt =====
-- PPLinkManager.hpp and PPLinkManager.cpp: one end of a point-to-point link. This file has its
-- state and what it asks of the rest of the program; Handlers has the methods, Locking
-- `lockProposedResources`, and the other children have proofs. Statistics, and the time that the
-- establishment of a link has taken, are not kept.
pub mod Handlers
pub mod Locking
pub mod Locked
pub mod Proposed
pub mod Ensures
pub mod Attempts
pub mod Tracked
pub mod Accepted
pub mod Runs
pub mod Cancelled
pub mod Agreed
pub mod Awaited
pub mod Unanswered
pub mod Utilization
pub mod KeepsLocks
pub mod Accepting
use ldacs_mcsotdma.Prelude.{
  ℕ, ◌+◌, Bool, true, false, Option, none, some, ℤ, pos, eqb_ℤ, if◌then◌else◌,
}
use ldacs_mcsotdma.Prelude.Result.{Result, ok, err, runtime_error, is_runtime_error}
use ldacs_mcsotdma.Prelude.Result
use ldacs_mcsotdma.Prelude.Calls.{Call, within, changes, asks}
use ldacs_mcsotdma.Reservation.{MacId, MacIds}
use ldacs_mcsotdma.Table.{ChannelId, Heap}
use ldacs_mcsotdma.Table.State.{M}
use ldacs_mcsotdma.ReservationMap.{
  ReservationMap, empty_map, Match, get_next_tx_reservation, get_next_rx_reservation,
}
use ldacs_mcsotdma.ReservationManager.{ReservationManager}
use ldacs_mcsotdma.LinkManager.{LinkManager, link_manager, LinkStatus, is_established}

-- `period`, the two numbers of transmissions, `timeout` and `channel` have no value until a link is
-- requested or accepted: the constructor leaves them as they are in memory.
pub record PpLinkManager : Type 0 where
  pub base : LinkManager
  pub is_link_initiator : Bool
  pub period : ℕ
  pub num_initiator_tx : ℕ
  pub num_recipient_tx : ℕ
  pub timeout : ℤ
  pub channel : Option ChannelId
  pub reserved_resources : ReservationMap
  pub expected_link_request_confirmation_slot : ℤ
  pub max_establishment_attempts : ℕ
  pub establishment_attempts : ℕ
  pub transmission_this_slot : Bool
  pub reception_this_slot : Bool
  pub reported_start_tx_burst_to_arq : Bool
  pub reported_end_tx_burst_to_arq : Bool

-- What the constructor does not set.
pub record Uninitialized : Type 0 where
  pub is_link_initiator : Bool
  pub period : ℕ
  pub num_initiator_tx : ℕ
  pub num_recipient_tx : ℕ
  pub timeout : ℤ
  pub channel : Option ChannelId

abbrev pub pp_link_manager : ⦃ids : MacIds⦄ → MacId → Uninitialized → PpLinkManager
pp_link_manager link_id memory = record {
  base = link_manager link_id;
  is_link_initiator = memory.is_link_initiator;
  period = memory.period;
  num_initiator_tx = memory.num_initiator_tx;
  num_recipient_tx = memory.num_recipient_tx;
  timeout = memory.timeout;
  channel = memory.channel;
  reserved_resources = empty_map;
  expected_link_request_confirmation_slot = pos 0;
  max_establishment_attempts = 5;
  establishment_attempts = 0;
  transmission_this_slot = false;
  reception_this_slot = false;
  reported_start_tx_burst_to_arq = false;
  reported_end_tx_burst_to_arq = false;
}

-- The tables, and the rest of the program's state.
pub record World (S : Type 0) : Type 0 where
  pub heap : Heap
  pub rest : S

-- What a link asks of MCSOTDMA_Mac and SHLinkManager. They read the link, and leave it alone.
pub record Mac (S : Type 0) : Type 0 where
  pub own_id : MacId
  pub reservation_manager : ReservationManager
  pub default_pp_link_timeout : ℕ
  -- bounds the recursion of `mark`
  pub depth : ℕ
  pub current_slot : S → ℕ
  pub is_there_more_data : MacId → S → Bool
  pub request_segment : MacId → Call S (Unit {0})
  pub report_start_of_tx_burst : MacId → S → S
  pub report_end_of_tx_burst : MacId → S → S
  pub report_missing_packet : MacId → S → S
  pub report_neighbor_activity : MacId → Call S (Unit {0})
  pub send_link_request : PpLinkManager → MacId → Call (World S) (Unit {0})
  pub cancel_link_request : MacId → S → S
  pub cancel_link_reply : MacId → S → S

-- A link and what it works on.
pub record Site (S : Type 0) : Type 0 where
  pub link : PpLinkManager
  pub world : World S

abbrev pub Pp : Type 0 → Type 0 → Type 0
Pp S A = Call (Site S) A

module _ {S : Type 0} where
  abbrev pub on_world : {A : Type 0} → Call (World S) A → Pp S A
  on_world m = within (λ s. s.world) (λ w s. record s { world = w }) m

  abbrev pub on_heap : {A : Type 0} → M A → Pp S A
  on_heap m =
      within (λ s. s.world.heap)
        (λ h s. record s { world = record { heap = h; rest = s.world.rest } }) m

  abbrev pub on_rest : {A : Type 0} → Call S A → Pp S A
  on_rest m =
      within (λ s. s.world.rest)
        (λ r s. record s { world = record { heap = s.world.heap; rest = r } }) m

  abbrev pub set_link : (PpLinkManager → PpLinkManager) → Pp S (Unit {0})
  set_link f = changes (λ s. record s { link = f s.link })

  abbrev pub set_rest : (S → S) → Pp S (Unit {0})
  set_rest f = on_rest (changes f)

  abbrev pub set_base : (LinkManager → LinkManager) → Pp S (Unit {0})
  set_base f = set_link (λ link. record link { base = f link.base })

abbrev pub set_status : LinkStatus → PpLinkManager → PpLinkManager
set_status status link = record link { base = record (link.base) { link_status = status } }

abbrev pub is_active : PpLinkManager → Bool
is_active link = is_established link.base.link_status

-- The offset of the match; `runtime_error` where there is none.
abbrev pub matched : Match → Result ℤ
matched m = elim m.best [ none ↦ err runtime_error | some _ ↦ ok m.best_offset ]

unfoldable pub get_next_tx_slot : Heap → PpLinkManager → Result ℤ
unfolding get_next_tx_reservation
get_next_tx_slot h link = Result.◌>>=◌ (get_next_tx_reservation h link.reserved_resources) matched

unfoldable pub get_next_rx_slot : Heap → PpLinkManager → Result ℤ
unfolding get_next_rx_reservation
get_next_rx_slot h link = Result.◌>>=◌ (get_next_rx_reservation h link.reserved_resources) matched

-- Whether the next transmission is in that slot; a `runtime_error` means that there is none.
abbrev pub is_next : ℤ → Result ℤ → Result Bool
is_next slot (ok z) = ok (eqb_ℤ z slot)
is_next slot (err e) = if is_runtime_error e then ok false else err e

abbrev pub is_start_of_tx_burst : Heap → PpLinkManager → Result Bool
is_start_of_tx_burst h link = is_next (pos 0) (get_next_tx_slot h link)
