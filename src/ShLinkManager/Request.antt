-- ===== src/ShLinkManager/Request.antt =====
-- SHLinkManager.cpp: what a broadcast is made of. The request loop goes through the requests that
-- are pending at its start.
use ldacs_mcsotdma.Prelude.{
  ℕ, Bool, true, false, ◌==◌, List, [], ◌∷◌, ◌++◌, map, Option, none, some, ℤ, pos, ◌+ℤ◌, ltb_ℤ,
  to_i32, if◌then◌else◌,
}
use ldacs_mcsotdma.Prelude.Result.{Result, ok, err, Error, runtime_error, is_exception}
use ldacs_mcsotdma.Prelude.Result
use ldacs_mcsotdma.Prelude.Calls.{returns, throws, ◌>>=◌, ◌>>◌, asks, changes, when, try_call}
use ldacs_mcsotdma.Reservation.{MacId, MacIds}
use ldacs_mcsotdma.Table.State.{deref}
use ldacs_mcsotdma.Table.Find.{is_link_valid}
use ldacs_mcsotdma.NeighborObserver.{
  get_advertised_link_proposals, get_next_expected_broadcast_slot_offset,
}
use ldacs_mcsotdma.ReservationManager.{get_freq_channel_by_center_freq, get_reservation_table}
use ldacs_mcsotdma.ThirdPartyLink.{LinkProposal}
use ldacs_mcsotdma.ThirdPartyLink.Reply.{LinkReply}
use ldacs_mcsotdma.LinkProposalFinder.{Proposal, find_link_proposals}
use ldacs_mcsotdma.DutyCycle.{Numbers}
use ldacs_mcsotdma.LinkManager.{measure_mac_delay, or_runtime_error}
use ldacs_mcsotdma.ShLinkManager.{
  PendingRequest, LinkRequest, Header, Station, Sh, Mac, on_rest, cancel_link_request, periodicity,
  get_pp_min_offset_and_period,
}
use ldacs_mcsotdma.ShLinkManager.Broadcast.{schedule_broadcast_slot}

-- `std::max`
abbrev pub max_ℤ : ℤ → ℤ → ℤ
max_ℤ a b = if ltb_ℤ a b then b else a

abbrev is_no_budget : Error → Bool
is_no_budget Error.no_duty_cycle_budget_left = true
is_no_budget _ = false

module _ ⦃numbers : Numbers⦄ ⦃ids : MacIds⦄ {S : Type 0} (mac : Mac S) where
  abbrev pub advertised : MacId → Station S → List LinkProposal
  advertised dest_id s = get_advertised_link_proposals dest_id (mac.current_slot s.rest) s.observer

  -- That no budget is left becomes a `runtime_error`.
  abbrev or_no_budget : {A : Type 0} → Sh S A → Sh S A
  or_no_budget m = try_call is_no_budget (throws runtime_error) m

  abbrev as_link_proposal : Proposal → LinkProposal
  as_link_proposal p = record (mac.no_proposal) {
    center_frequency = p.center_frequency;
    period = p.period;
    slot_offset = p.slot_offset;
  }

  unfoldable pub found_proposals : ℕ → ℤ → ℕ → Sh S (List LinkProposal)
  unfolding find_link_proposals
  found_proposals num_proposals min_offset period s = (
    Result.◌>>=◌
        (find_link_proposals s.heap mac.reservation_manager num_proposals min_offset (record {
          num_forward_bursts = 1;
          num_reverse_bursts = 1;
          period = period;
          timeout = mac.default_pp_link_timeout;
        }))
        λ ps. ok (map as_link_proposal ps),
    s,
  )

  -- The proposals start after the next broadcast of the other user.
  abbrev after_their_broadcast : MacId → ℤ → Station S → Result ℤ
  after_their_broadcast dest_id min_offset s =
      Result.◌>>=◌ (get_next_expected_broadcast_slot_offset dest_id s.observer)
        λ n. ok (max_ℤ min_offset (to_i32 n +ℤ pos 1))

  -- Where that is not known, at the user's own.
  unfoldable pub after_own_broadcast : ℤ → Sh S ℤ
  unfolding schedule_broadcast_slot
  after_own_broadcast min_offset = asks (λ s. ok s.manager.next_broadcast_slot) >>= λ slot.
      when (slot == 0) (schedule_broadcast_slot mac)
      >> asks (λ s. ok (max_ℤ min_offset (to_i32 s.manager.next_broadcast_slot)))

  -- `proposeLocalLinks`, for one burst each way
  unfoldable pub propose_local_links : MacId → ℕ → Sh S (List LinkProposal × ℤ)
  unfolding periodicity get_next_expected_broadcast_slot_offset after_own_broadcast found_proposals
  propose_local_links dest_id num_proposals = or_no_budget (asks (periodicity mac)) >>= λ p.
      try_call is_exception (after_own_broadcast p.0) (asks (after_their_broadcast dest_id p.0))
      >>= λ min_offset.
          found_proposals num_proposals min_offset p.1 >>= λ links. returns (links, min_offset)

  abbrev is_valid_here : LinkProposal → Station S → Result Bool
  is_valid_here link s =
      Result.◌>>=◌
        (get_freq_channel_by_center_freq s.heap mac.reservation_manager link.center_frequency)
        λ c. Result.◌>>=◌ (get_reservation_table s.heap mac.reservation_manager c) λ tbl.
          Result.◌>>=◌ (deref tbl) λ i.
            is_link_valid s.heap i link.slot_offset link.period 1 1 mac.default_pp_link_timeout true

  unfoldable pub valid_links : List LinkProposal → Station S → Result (List LinkProposal)
  unfolding is_link_valid get_freq_channel_by_center_freq get_reservation_table
  valid_links [] s = ok []
  valid_links (link ∷ links) s =
      Result.◌>>=◌ (is_valid_here link s)
        λ b. Result.◌>>=◌ (valid_links links s) λ rest. ok (if b then link ∷ rest else rest)

  -- The first of the earliest links before an offset, or the one at hand.
  unfoldable pub earliest : LinkProposal → ℤ → List LinkProposal → LinkProposal
  earliest best offset [] = best
  earliest best offset (link ∷ links) =
      let rest = earliest link link.slot_offset links in
      let same = earliest best offset links in if ltb_ℤ link.slot_offset offset then rest else same

  abbrev has_none : {A : Type 0} → List A → Bool
  has_none [] = true
  has_none (_ ∷ _) = false

  -- `proposeRemoteLinks`
  unfoldable pub propose_remote_links : MacId → Station S → Result LinkProposal
  unfolding get_advertised_link_proposals valid_links earliest
  propose_remote_links dest_id s = Result.◌>>=◌ (valid_links (advertised dest_id s) s) λ links.
      if has_none links
      then err runtime_error
      else ok (earliest mac.no_proposal (to_i32 mac.reservation_manager.planning_horizon) links)

  abbrev remote : MacId → Station S → Result (List LinkProposal × ℤ)
  remote dest_id s = Result.◌>>=◌ (propose_remote_links dest_id s) λ link.
      Result.◌>>=◌ (get_next_expected_broadcast_slot_offset dest_id s.observer)
        λ n. ok (link ∷ [], to_i32 n)

  abbrev local : MacId → Sh S (List LinkProposal × ℤ)
  local dest_id s = propose_local_links dest_id s.manager.num_proposals_unadvertised_link_requests s

  -- The links of one request: advertised ones, if some are known and fit.
  unfoldable pub propose_links : MacId → Sh S (List LinkProposal × ℤ)
  unfolding propose_local_links propose_remote_links
  propose_links dest_id s =
      (if has_none (advertised dest_id s)
          then local dest_id
          else try_call is_exception (local dest_id) (asks (remote dest_id)))
        s

  -- The resources of all proposals are locked.
  unfoldable pub lock_proposals : MacId → List LinkProposal → Sh S (Unit {0})
  lock_proposals dest_id [] = returns tt
  lock_proposals dest_id (link ∷ links) =
      mac.lock_proposed_resources dest_id link >> lock_proposals dest_id links

  -- The link is told of its request before the first lock.
  unfoldable pub notify_and_lock : MacId → ℕ → ℤ → List LinkProposal → Sh S (Unit {0})
  unfolding lock_proposals
  notify_and_lock dest_id period min_offset [] = returns tt
  notify_and_lock dest_id period min_offset (link ∷ links) =
      mac.notify_link_request_sent dest_id 1 1 period min_offset
      >> lock_proposals dest_id (link ∷ links)

  abbrev request_for : PendingRequest → LinkProposal → LinkRequest
  request_for r link = record {
    dest_id = r.dest_id;
    proposed_link = link;
    generation_time = r.generation_time;
  }

  -- One pending request: what is added to the header.
  unfoldable pub add_request : PendingRequest → Sh S (List LinkRequest)
  unfolding get_pp_min_offset_and_period propose_links notify_and_lock
  add_request r = or_no_budget (asks (get_pp_min_offset_and_period mac)) >>= λ p.
      propose_links r.dest_id >>= λ found.
      notify_and_lock r.dest_id p.1 found.1 found.0 >> returns (map (request_for r) found.0)

  unfoldable pub add_requests : List PendingRequest → Sh S (List LinkRequest)
  unfolding add_request
  add_requests [] = returns []
  add_requests (r ∷ rs) = add_request r >>= λ one. add_requests rs >>= λ more. returns (one ++ more)

  -- The requests that are in the header are no longer pending.
  unfoldable pub cancel_added : List LinkRequest → Sh S (Unit {0})
  cancel_added [] = returns tt
  cancel_added (r ∷ rs) = cancel_link_request r.dest_id >> cancel_added rs

  -- The next broadcast is scheduled, unless that has been done; the offset that is advertised.
  unfoldable pub schedule_next : Sh S ℤ
  unfolding schedule_broadcast_slot
  schedule_next = asks (λ s. ok s.manager.next_broadcast_slot) >>= λ slot.
      when (slot == 0) (or_runtime_error (schedule_broadcast_slot mac))
      >> asks (λ s. ok (
          if s.manager.advertise_slot_in_header
          then to_i32 s.manager.next_broadcast_slot
          else mac.no_slot_offset))

  -- The first of the replies.
  abbrev take_reply : Sh S (Option LinkReply)
  take_reply s = elim s.manager.link_replies [
    | [] ↦ (ok none, s)
    | r ∷ rs ↦ (ok (some r), record s { manager = record (s.manager) { link_replies = rs } })
  ]

  abbrev note_access : Sh S (Unit {0})
  note_access = changes (λ s. record s {
    manager = record (s.manager) {
      base = (measure_mac_delay (mac.current_slot s.rest) s.manager.base).1;
    };
  })

  -- Three links that others may request.
  unfoldable pub advertise_links : Sh S (List LinkProposal)
  unfolding get_pp_min_offset_and_period found_proposals
  advertise_links = or_no_budget (asks (get_pp_min_offset_and_period mac)) >>= λ p.
      asks (λ s. ok s.manager.next_broadcast_slot) >>= λ slot. found_proposals 3 (to_i32 slot) p.1

  -- `onTransmissionReservation`: the header of the packet. The segment that the upper layer gives
  -- comes with a header in which nothing is set. The pending requests are those at the start: the
  -- source goes through its vector of them while notifyLinkRequestSent erases from it, which C++
  -- leaves undefined from the second on.
  unfoldable pub on_sh_transmission : Sh S Header
  unfolding add_requests cancel_added schedule_next advertise_links
  on_sh_transmission =
      on_rest mac.request_segment >> asks (λ s. ok s.manager.link_requests) >>= λ pending.
      add_requests pending >>= λ requests. cancel_added requests >> schedule_next >>= λ slot_offset.
      take_reply >>= λ reply. advertise_links >>= λ links.
      asks mac.pp_link_utilizations >>= λ utilizations.
      note_access
      >> returns (record {
        src_id = mac.own_id;
        slot_offset = slot_offset;
        link_requests = requests;
        link_reply = reply;
        link_proposals = links;
        link_utilizations = utilizations;
      })
