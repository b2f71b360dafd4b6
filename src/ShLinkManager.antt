-- ===== src/ShLinkManager.antt =====
-- SHLinkManager.hpp and SHLinkManager.cpp: the manager of the shared channel, on which every user
-- broadcasts its next slot, its link requests and replies, and what it proposes. This file has its
-- state and what it asks of the rest of the program. Statistics are not kept. Broadcast schedules
-- the broadcasts, Request is what a broadcast is made of, Reception what is done about one.
pub mod Broadcast
pub mod Request
pub mod Reception
pub mod Selected
pub mod Scheduled
pub mod Candidates
use ldacs_mcsotdma.Prelude.{
  ℕ, zero, ◌+◌, Bool, true, false, not, ◌&&◌, ◌||◌, ◌==◌, leb, List, [], ◌∷◌, ◌++◌, Option, none,
  some, ℤ, pos, to_i32, if◌then◌else◌,
}
use ldacs_mcsotdma.Prelude.Result.{Result, ok, err, ◌>>=◌, guard, invalid_argument}
use ldacs_mcsotdma.Prelude.Calls.{Call, within, changes}
use ldacs_mcsotdma.Reservation.{MacId, MacIds}
use ldacs_mcsotdma.Table.{Heap}
use ldacs_mcsotdma.Table.State.{M}
use ldacs_mcsotdma.MovingAverage.{MovingAverage, moving_average}
use ldacs_mcsotdma.NeighborObserver.{NeighborObserver, get_num_active_neighbors}
use ldacs_mcsotdma.ReservationManager.{ReservationManager}
use ldacs_mcsotdma.ThirdPartyLink.{LinkProposal}
use ldacs_mcsotdma.ThirdPartyLink.Reply.{LinkReply}
use ldacs_mcsotdma.DutyCycle.{
  Numbers, Double, DutyCycle, get_sh_budget, get_periodicity_pp, get_offset_sh,
}
use ldacs_mcsotdma.LinkManager.{LinkManager, link_manager}
use ldacs_mcsotdma.PpLinkManager.Utilization.{LinkUtilization}

-- The methods of contention; the first two are no longer supported.
pub data ContentionMethod : Type 0 where
  binomial_estimate poisson_binomial_estimate : ContentionMethod
  randomized_slotted_aloha naive_random_access : ContentionMethod
  unknown_method : ContentionMethod

-- A request that waits to be sent: whom it is for, and the slot in which it was made.
pub record PendingRequest : Type 0 where
  pub dest_id : MacId
  pub generation_time : ℕ

-- `L2HeaderSH::LinkRequest`
pub record LinkRequest : Type 0 where
  pub dest_id : MacId
  pub proposed_link : LinkProposal
  pub generation_time : ℕ

-- What is read and written of `L2HeaderSH`.
pub record Header : Type 0 where
  pub src_id : MacId
  pub slot_offset : ℤ
  pub link_requests : List LinkRequest
  pub link_reply : Option LinkReply
  pub link_proposals : List LinkProposal
  pub link_utilizations : List LinkUtilization

module _ ⦃numbers : Numbers⦄ where
  pub record ShLinkManager : Type 0 where
    pub base : LinkManager
    pub link_requests : List PendingRequest
    pub link_replies : List LinkReply
    pub broadcast_target_collision_prob : Double
    pub next_broadcast_scheduled : Bool
    pub next_broadcast_slot : ℕ
    pub advertise_slot_in_header : Bool
    pub do_transmit : Bool
    pub min_candidates : ℕ
    pub max_candidates : ℕ
    pub avg_num_slots_inbetween_packet_generations : MovingAverage
    pub num_slots_since_last_packet_generation : ℕ
    pub packet_generated_this_slot : Bool
    pub contention_method : ContentionMethod
    pub num_proposals_unadvertised_link_requests : ℕ

  abbrev pub sh_link_manager : ⦃ids : MacIds⦄ → ShLinkManager
  sh_link_manager ⦃ids⦄ = record {
    base = record (link_manager ids.broadcast) { should_report_missing_packets_to_arq = false };
    link_requests = [];
    link_replies = [];
    broadcast_target_collision_prob = numbers.default_collision_prob;
    next_broadcast_scheduled = false;
    next_broadcast_slot = 0;
    advertise_slot_in_header = true;
    do_transmit = true;
    min_candidates = 3;
    max_candidates = 10000;
    avg_num_slots_inbetween_packet_generations = moving_average 100;
    num_slots_since_last_packet_generation = 0;
    packet_generated_this_slot = false;
    contention_method = randomized_slotted_aloha;
    num_proposals_unadvertised_link_requests = 3;
  }

  -- The manager and what it works on; `rest` is the rest of the program's state.
  pub record Station (S : Type 0) : Type 0 where
    pub manager : ShLinkManager
    pub heap : Heap
    pub observer : NeighborObserver
    pub rest : S

  abbrev pub Sh : Type 0 → Type 0 → Type 0
  Sh S A = Call (Station S) A

  -- What the manager asks of MCSOTDMA_Mac, the links and the upper layer. The links call back, and
  -- so get the whole station.
  pub record Mac (S : Type 0) : Type 0 where
    pub own_id : MacId
    pub reservation_manager : ReservationManager
    pub default_pp_link_timeout : ℕ
    -- bounds the recursion of `mark`
    pub depth : ℕ
    pub should_consider_duty_cycle : Bool
    pub fixed_pp_period : Option ℕ
    -- the default of `LinkProposal`
    pub no_proposal : LinkProposal
    -- the offset in the header of a segment in which nothing is set
    pub no_slot_offset : ℤ
    pub current_slot : S → ℕ
    pub duty_cycle : S → DutyCycle
    pub used_pp_duty_cycle_budget : S → List Double × List ℤ
    pub pp_link_utilizations : Station S → Result (List LinkUtilization)
    pub request_segment : Call S (Unit {0})
    pub random_int : ℕ → Call S ℕ
    pub report_missing_packet : MacId → S → S
    pub on_beacon_reception : MacId → S → S
    pub notify_link_request_sent : MacId → ℕ → ℕ → ℕ → ℤ → Sh S (Unit {0})
    pub lock_proposed_resources : MacId → LinkProposal → Sh S (Unit {0})
    pub accept_link : MacId → LinkProposal → Bool → Sh S (Unit {0})
    pub notify_pp_outgoing : MacId → Sh S (Unit {0})
    pub reset_third_party_link : MacId → MacId → Sh S (Unit {0})
    pub process_link_request_message : MacId → MacId → LinkRequest → Sh S (Unit {0})
    pub process_link_reply_message : MacId → MacId → LinkReply → Sh S (Unit {0})

  module _ {S : Type 0} where
    abbrev pub on_heap : {A : Type 0} → M A → Sh S A
    on_heap m = within (λ s. s.heap) (λ h s. record s { heap = h }) m

    abbrev pub on_rest : {A : Type 0} → Call S A → Sh S A
    on_rest m = within (λ s. s.rest) (λ r s. record s { rest = r }) m

    abbrev pub on_observer : {A : Type 0} → Call NeighborObserver A → Sh S A
    on_observer m = within (λ s. s.observer) (λ o s. record s { observer = o }) m

    abbrev pub set_manager : (ShLinkManager → ShLinkManager) → Sh S (Unit {0})
    set_manager f = changes (λ s. record s { manager = f s.manager })

  abbrev pub set_target_collision_prob : Double → ShLinkManager → ShLinkManager
  set_target_collision_prob value lm = record lm { broadcast_target_collision_prob = value }

  abbrev pub set_min_num_candidate_slots : ℕ → ShLinkManager → ShLinkManager
  set_min_num_candidate_slots value lm = record lm { min_candidates = value }

  abbrev pub set_max_num_candidate_slots : ℕ → ShLinkManager → ShLinkManager
  set_max_num_candidate_slots value lm = record lm { max_candidates = value }

  abbrev pub set_use_contention_method : ContentionMethod → ShLinkManager → ShLinkManager
  set_use_contention_method method lm = record lm { contention_method = method }

  abbrev pub set_advertise_next_slot_in_current_header : Bool → ShLinkManager → ShLinkManager
  set_advertise_next_slot_in_current_header flag lm = record lm { advertise_slot_in_header = flag }

  abbrev pub set_should_transmit : Bool → ShLinkManager → ShLinkManager
  set_should_transmit value lm = record lm { do_transmit = value }

  -- `getNumTxPerTimeSlot`
  abbrev pub get_sh_num_tx_per_time_slot : ShLinkManager → Double
  get_sh_num_tx_per_time_slot lm =
      if lm.next_broadcast_scheduled && not (lm.next_broadcast_slot == 0)
      then numbers.divide (numbers.of_nat 1) (numbers.of_nat lm.next_broadcast_slot)
      else numbers.of_nat 0

  -- `cancelLinkRequest` and `cancelLinkReply`: how many were removed, and what is left.
  unfoldable pub without_requests : MacId → List PendingRequest → ℕ × List PendingRequest
  without_requests id [] = (0, [])
  without_requests id (r ∷ rs) =
      let (n, rest) = without_requests id rs in
      if r.dest_id == id then (n + 1, rest) else (n, r ∷ rest)

  unfoldable pub without_replies : MacId → List LinkReply → ℕ × List LinkReply
  without_replies id [] = (0, [])
  without_replies id (r ∷ rs) =
      let (n, rest) = without_replies id rs in
      if r.dest_id == id then (n + 1, rest) else (n, r ∷ rest)

  abbrev pub cancel_link_request : {S : Type 0} → MacId → Sh S ℕ
  cancel_link_request id s =
      let (n, rest) = without_requests id s.manager.link_requests in
      (ok n, record s { manager = record (s.manager) { link_requests = rest } })

  abbrev pub cancel_link_reply : {S : Type 0} → MacId → Sh S ℕ
  cancel_link_reply id s =
      let (n, rest) = without_replies id s.manager.link_replies in
      (ok n, record s { manager = record (s.manager) { link_replies = rest } })

  -- `getNumCandidateSlots`
  abbrev clamped : ℕ → ℕ → ℕ → ℕ
  clamped min max k =
      let least = if leb min k then k else min in if leb least max then least else max

  abbrev num_candidates : ShLinkManager → NeighborObserver → Result ℕ
  num_candidates lm o = elim lm.contention_method [
    | binomial_estimate ↦ err invalid_argument
    | poisson_binomial_estimate ↦ err invalid_argument
    | randomized_slotted_aloha ↦
        ok
          (numbers.aloha_candidates lm.broadcast_target_collision_prob (get_num_active_neighbors o))
    | naive_random_access ↦ ok lm.min_candidates
    | unknown_method ↦ err invalid_argument
  ]

  abbrev is_inside : Double → Bool
  is_inside p = numbers.is_less (numbers.of_nat 0) p && numbers.is_less p (numbers.of_nat 1)

  unfoldable pub get_num_candidate_slots : ShLinkManager → NeighborObserver → Result ℕ
  get_num_candidate_slots lm o =
      guard (is_inside lm.broadcast_target_collision_prob) invalid_argument >>= λ _.
      num_candidates lm o >>= λ k. ok (clamped lm.min_candidates lm.max_candidates k)

  module _ {S : Type 0} (mac : Mac S) where
    abbrev budgets : Station S → List Double
    budgets s = (mac.used_pp_duty_cycle_budget s.rest).0

    abbrev pub sh_budget : Station S → Result Double
    sh_budget s =
        if mac.should_consider_duty_cycle
        then get_sh_budget (mac.duty_cycle s.rest) (budgets s)
        else ok (numbers.of_nat 1)

    -- What `getPeriodicityPP` returns for the links of the user.
    unfoldable pub periodicity : Station S → Result (ℤ × ℕ)
    unfolding get_sh_budget get_periodicity_pp
    periodicity s = sh_budget s >>= λ sh.
        get_periodicity_pp (mac.duty_cycle s.rest) (budgets s)
          (mac.used_pp_duty_cycle_budget s.rest).1 sh (to_i32 s.manager.next_broadcast_slot)

    abbrev used_period : ℕ → ℕ
    used_period period = elim mac.fixed_pp_period [ none ↦ period | some fixed ↦ fixed ]

    -- `getPPMinOffsetAndPeriod`
    unfoldable pub get_pp_min_offset_and_period : Station S → Result (ℤ × ℕ)
    unfolding periodicity
    get_pp_min_offset_and_period s = periodicity s >>= λ p. ok (p.0, used_period p.1)

    unfoldable pub add_all : Double → List Double → Double
    add_all sum [] = sum
    add_all sum (b ∷ bs) = add_all (numbers.add sum b) bs

    -- `isPPLinkDutyCycleConformant`
    unfoldable pub is_pp_link_duty_cycle_conformant : LinkProposal → Station S → Result Bool
    unfolding get_sh_budget add_all
    is_pp_link_duty_cycle_conformant proposal s =
        if mac.should_consider_duty_cycle
        then (get_sh_budget (mac.duty_cycle s.rest) (budgets s) >>= λ sh. ok (
            not (
              numbers.is_less (mac.duty_cycle s.rest).max_duty_cycle
                (numbers.add (add_all sh (budgets s)) (numbers.burst_share proposal.period)))))
        else ok true

    -- The least offset of the next broadcast.
    abbrev pub min_broadcast_offset : Station S → Result ℤ
    min_broadcast_offset s =
        if mac.should_consider_duty_cycle
        then get_offset_sh (mac.duty_cycle s.rest) (budgets s)
        else ok (pos 1)
