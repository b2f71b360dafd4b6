-- ===== src/ShLinkManager/Reception.antt =====
-- SHLinkManager.cpp: what is done about a broadcast of another user.
use ldacs_mcsotdma.Prelude.{
  ℕ, ◌+◌, ◌-◌, ◌%◌, Bool, true, false, not, ◌||◌, ◌==◌, leb, List, [], ◌∷◌, ◌++◌, Option, none,
  some, ℤ, pos, ltb_ℤ, to_u32, to_i32, u32_mod, if◌then◌else◌,
}
use ldacs_mcsotdma.Prelude.Result.{Result, ok, err}
use ldacs_mcsotdma.Prelude.Result
use ldacs_mcsotdma.Prelude.Calls.{returns, ◌>>=◌, ◌>>◌, asks, changes, when}
use ldacs_mcsotdma.Reservation.{MacId, MacIds, reserve, rx, is_idle, is_tx}
use ldacs_mcsotdma.Table.{get_reservation}
use ldacs_mcsotdma.Table.State.{deref}
use ldacs_mcsotdma.Table.Find.{is_link_valid}
use ldacs_mcsotdma.NeighborObserver.{
  NeighborObserver, report_activity, report_broadcast_slot_advertisement,
  clear_advertised_link_proposals, add_advertised_link_proposal,
}
use ldacs_mcsotdma.ReservationManager.{get_freq_channel_by_center_freq, get_reservation_table}
use ldacs_mcsotdma.ThirdPartyLink.{LinkProposal}
use ldacs_mcsotdma.ThirdPartyLink.Reply.{LinkReply}
use ldacs_mcsotdma.DutyCycle.{Numbers}
use ldacs_mcsotdma.ShLinkManager.{
  LinkRequest, Header, Station, Sh, Mac, on_rest, on_observer, set_manager, cancel_link_request,
  is_pp_link_duty_cycle_conformant,
}
use ldacs_mcsotdma.ShLinkManager.Broadcast.{
  current_table, mark_current, broadcast_collision_detected,
}
use ldacs_mcsotdma.ShLinkManager.Request.{earliest}

module _ ⦃numbers : Numbers⦄ ⦃ids : MacIds⦄ {S : Type 0} (mac : Mac S) where
  -- The slot of the advertised broadcast: listened to where it is idle, and a collision where the
  -- user itself sends.
  unfoldable pub take_advertised_slot : MacId → ℤ → Sh S (Unit {0})
  unfolding mark_current broadcast_collision_detected
  take_advertised_slot src_id slot_offset =
      asks
        (λ s. Result.◌>>=◌ (current_table mac s) λ i. get_reservation (s.heap.tables i) slot_offset)
      >>= λ res.
          if is_idle res
          then mark_current mac slot_offset (reserve src_id rx)
          else if is_tx res
          then broadcast_collision_detected mac src_id rx
          else returns tt

  unfoldable pub process_slot_offset : MacId → Header → Sh S (Unit {0})
  unfolding report_broadcast_slot_advertisement take_advertised_slot
  process_slot_offset origin header = when (ltb_ℤ (pos 0) header.slot_offset) (
      on_observer (changes (report_broadcast_slot_advertisement origin (to_u32 header.slot_offset)))
      >> take_advertised_slot header.src_id header.slot_offset)

  unfoldable pub add_proposals : MacId → ℕ → List LinkProposal → NeighborObserver → NeighborObserver
  unfolding add_advertised_link_proposal
  add_proposals src_id slot [] o = o
  add_proposals src_id slot (p ∷ ps) o =
      add_proposals src_id slot ps (add_advertised_link_proposal src_id slot p o)

  abbrev has_none : {A : Type 0} → List A → Bool
  has_none [] = true
  has_none (_ ∷ _) = false

  -- The advertised links replace those of before, if there are any.
  unfoldable pub save_proposals : Header → Sh S (Unit {0})
  unfolding clear_advertised_link_proposals add_proposals
  save_proposals header = when (not (has_none header.link_proposals)) (
      changes (λ s. record s {
        observer =
            add_proposals header.src_id (mac.current_slot s.rest) header.link_proposals
              (clear_advertised_link_proposals header.src_id s.observer);
      }))

  -- What the loop over the requests gathers: the links that can be accepted, whether a request was
  -- for this user, and the users whose third-party link has had a request.
  pub record Requests : Type 0 where
    pub acceptable_links : List LinkProposal
    pub received_request : Bool
    pub already_processed : List MacId

  abbrev pub no_requests : Requests
  no_requests = record { acceptable_links = []; received_request = false; already_processed = [] }

  abbrev is_valid_for_recipient : LinkProposal → Station S → Result Bool
  is_valid_for_recipient p s =
      Result.◌>>=◌
        (get_freq_channel_by_center_freq s.heap mac.reservation_manager p.center_frequency)
        λ c. Result.◌>>=◌ (get_reservation_table s.heap mac.reservation_manager c) λ tbl.
          Result.◌>>=◌ (deref tbl) λ i.
            is_link_valid s.heap i p.slot_offset p.period p.num_tx_initiator p.num_tx_recipient
              mac.default_pp_link_timeout false

  unfoldable pub is_acceptable : LinkProposal → Station S → Result Bool
  unfolding is_link_valid get_freq_channel_by_center_freq get_reservation_table
      is_pp_link_duty_cycle_conformant
  is_acceptable p s =
      Result.◌>>=◌ (is_valid_for_recipient p s)
        λ b. if b then is_pp_link_duty_cycle_conformant mac p s else ok false

  -- A request to this user: too early for its reply, acceptable, or not.
  unfoldable pub consider_request : LinkProposal → Requests → Sh S Requests
  unfolding is_acceptable
  consider_request p found s =
      (if leb (to_u32 p.slot_offset) s.manager.next_broadcast_slot
          then returns (record found { received_request = true })
          else (asks (is_acceptable p) >>= λ b. returns (record found {
            received_request = true;
            acceptable_links =
                if b then found.acceptable_links ++ p ∷ [] else found.acceptable_links;
          })))
        s

  unfoldable pub is_listed : MacId → List MacId → Bool
  is_listed id [] = false
  is_listed id (x ∷ xs) = x == id || is_listed id xs

  -- A request to another user: the third-party link is reset at the first one.
  unfoldable pub pass_request_on : MacId → LinkRequest → Requests → Sh S Requests
  unfolding is_listed
  pass_request_on src_id r found =
      when (not (is_listed r.dest_id found.already_processed))
        (mac.reset_third_party_link src_id r.dest_id)
      >> mac.process_link_request_message src_id r.dest_id r
      >> returns (record found { already_processed = r.dest_id ∷ found.already_processed })

  unfoldable pub process_requests : MacId → List LinkRequest → Requests → Sh S Requests
  unfolding consider_request pass_request_on
  process_requests src_id [] found = returns found
  process_requests src_id (r ∷ rs) found =
      (if r.dest_id == mac.own_id
        then consider_request r.proposed_link found
        else pass_request_on src_id r found)
      >>= process_requests src_id rs

  -- `slot_offset -= next_broadcast_slot`, in `unsigned int`.
  abbrev pub normalized_to : ℕ → LinkProposal → LinkProposal
  normalized_to slot p = record p {
    slot_offset = to_i32 ((to_u32 p.slot_offset + (u32_mod - slot % u32_mod)) % u32_mod);
  }

  -- The earliest acceptable link is accepted, and its reply is sent with the next broadcast.
  unfoldable pub accept_request : MacId → LinkProposal → Sh S (Unit {0})
  accept_request src_id link =
      mac.accept_link src_id link true
      >> cancel_link_request src_id
      >> set_manager (λ lm. record lm {
        link_replies =
            lm.link_replies
            ++ record {
              dest_id = src_id;
              proposed_link = normalized_to lm.next_broadcast_slot link;
            }
              ∷ [];
      })

  unfoldable pub answer_requests : MacId → Requests → Sh S (Unit {0})
  unfolding earliest accept_request
  answer_requests src_id found = when found.received_request (
      if has_none found.acceptable_links
      then mac.notify_pp_outgoing src_id
      else accept_request src_id (
          earliest mac mac.no_proposal (to_i32 mac.reservation_manager.planning_horizon)
            found.acceptable_links))

  unfoldable pub process_reply : MacId → Option LinkReply → Sh S (Unit {0})
  unfolding is_pp_link_duty_cycle_conformant
  process_reply src_id none = returns tt
  process_reply src_id (some reply) =
      if reply.dest_id == mac.own_id
      then (asks (is_pp_link_duty_cycle_conformant mac reply.proposed_link) >>= λ b.
          when b (mac.accept_link src_id reply.proposed_link false))
      else mac.process_link_reply_message src_id reply.dest_id reply

  -- `processBroadcastMessage`; link utilizations are counted only.
  unfoldable pub process_broadcast_message : MacId → Header → Sh S (Unit {0})
  unfolding report_activity process_slot_offset save_proposals process_requests answer_requests
      process_reply
  process_broadcast_message origin header =
      on_observer (report_activity origin)
      >> process_slot_offset origin header
      >> save_proposals header
      >> process_requests header.src_id header.link_requests no_requests
      >>= answer_requests header.src_id
      >> process_reply header.src_id header.link_reply
      >> on_rest (changes (mac.on_beacon_reception origin))
