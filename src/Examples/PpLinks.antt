-- ===== src/Examples/PpLinks.antt =====
-- Examples of PPLinkManager.
use ldacs_mcsotdma.Prelude.{
  subst, ℤ, true, some, ◌-ℤ◌, ◌+ℤ◌, ℕ, ◌+◌, ◌≡◌, refl, true, false, none, some, [], ◌∷◌, pos, ◌+ℤ◌,
  arith, All, Bool-cases, inl, inr, ◌==◌,
}
use ldacs_mcsotdma.Prelude.Result.{ok}
use ldacs_mcsotdma.SlotCalculator.{calculate_alternating_bursts}
use ldacs_mcsotdma.ReservationMap.Released.{IsFormedHeap, IsReleased}
use ldacs_mcsotdma.ReservationMap.{unlock_map}
use ldacs_mcsotdma.Table.{TableId, is_valid}
use ldacs_mcsotdma.Table.Marked.{IsLeaf}
use ldacs_mcsotdma.Table.Atomic.{IsReady}
use ldacs_mcsotdma.ReservationManager.{get_reservation_table, get_freq_channel_by_center_freq}
use ldacs_mcsotdma.ReservationManager.Schedule.{schedule_bursts}
use ldacs_mcsotdma.ThirdPartyLink.Reset.{IsGivenBack}
use ldacs_mcsotdma.LinkManager.{awaiting_request_generation}
use ldacs_mcsotdma.PpLinkManager.{Uninitialized, pp_link_manager, Mac, Site, set_status}
use ldacs_mcsotdma.PpLinkManager.Accepting.{accepted_link, accept_link}
use ldacs_mcsotdma.PpLinkManager.Handlers.{notify_outgoing, notify_link_request_sent}
use ldacs_mcsotdma.PpLinkManager.Locking.{lock_proposal, lock_proposed_resources}
use ldacs_mcsotdma.PpLinkManager.Proposed.{ProposalOutcome, lock_proposal_holds}
use ldacs_mcsotdma.PpLinkManager.Attempts.{IsTracked}
use ldacs_mcsotdma.PpLinkManager.Runs.{here, next, outgoing, request_sent, Reach-IsTracked}
use ldacs_mcsotdma.PpLinkManager.Agreed.{given_back, AcceptOutcome, accept_link_holds}
use ldacs_mcsotdma.PpLinkManager.Unanswered.{Request}
use ldacs_mcsotdma.PpLinkManager.Awaited.{slot}
use ldacs_mcsotdma.Examples.{test_ids, fresh}
use ldacs_mcsotdma.Examples.Links.{
  used_heap, used_map, at_table, test_manager, managed_heap, a_proposal, used-IsFormedHeap,
  fresh-IsWellFormed,
}

-- The rest of the program counts its calls, and always has more data.
abbrev test_mac : Mac ℕ
test_mac = record {
  own_id = 5;
  reservation_manager = test_manager;
  default_pp_link_timeout = 1;
  depth = 2;
  current_slot = λ n. n;
  is_there_more_data = λ id n. true;
  request_segment = λ id n. (ok tt, n + 1);
  report_start_of_tx_burst = λ id n. n + 1;
  report_end_of_tx_burst = λ id n. n + 1;
  report_missing_packet = λ id n. n + 1;
  report_neighbor_activity = λ id n. (ok tt, n + 1);
  send_link_request = λ link id w. (ok tt, record w { rest = w.rest + 1 });
  cancel_link_request = λ id n. n + 1;
  cancel_link_reply = λ id n. n + 1;
}

abbrev memory : Uninitialized
memory = record {
  is_link_initiator = false;
  period = 0;
  num_initiator_tx = 0;
  num_recipient_tx = 0;
  timeout = pos 0;
  channel = none;
}

-- The link to user 6, as it is made.
abbrev new_link : Site ℕ
new_link = record {
  link = pp_link_manager 6 memory;
  world = record { heap = managed_heap; rest = 0 };
}

managed-IsFormedHeap : IsFormedHeap managed_heap
managed-IsFormedHeap k = elim (Bool-cases (k == 0)) [
  | inl e ↦ rw e (fresh-IsWellFormed (some 1) (2 ∷ []))
  | inr e ↦ rw e (fresh-IsWellFormed none [])
]

lock_proposal_holds_example :
    ProposalOutcome 0 1 6
      (calculate_alternating_bursts (pos 2) 1 1 0 1)
      managed_heap
      (lock_proposal test_manager 1 6 a_proposal managed_heap)
unfolding get_freq_channel_by_center_freq get_reservation_table
lock_proposal_holds_example =
    lock_proposal_holds 0 1 test_manager 1 6 a_proposal managed_heap managed-IsFormedHeap refl refl

abbrev asked : Site ℕ
asked = (notify_outgoing test_mac new_link).1

abbrev waiting : Site ℕ
waiting = (notify_link_request_sent test_mac 1 1 0 (pos 6) asked).1

asked_once : notify_outgoing test_mac new_link ≡ (ok tt, asked)
unfolding notify_outgoing
asked_once = refl

sent_once : notify_link_request_sent test_mac 1 1 0 (pos 6) asked ≡ (ok tt, waiting)
unfolding notify_link_request_sent notify_outgoing
sent_once = refl

Reach-IsTracked_example : IsTracked 5 waiting.link
Reach-IsTracked_example =
    Reach-IsTracked test_mac 5 (omega arith) new_link waiting
      (record {
        max = refl;
        below = omega arith;
        at_rest = λ e. refl;
        asked = λ e. cc e;
        no_data = refl;
      })
      (next (next here (outgoing asked_once)) (request_sent 1 1 0 (pos 6) sent_once))

-- A link that has locked slot 2 of the used table.
abbrev locked_link : Site ℕ
locked_link = record {
  link = record (pp_link_manager 6 memory) {
    reserved_resources = record used_map { scheduled_resources = [] };
  };
  world = record { heap = used_heap; rest = 0 };
}

-- The same link, with the channels of the manager.
abbrev proposing : Site ℕ
proposing = record locked_link {
  world = record { heap = record managed_heap { tables = used_heap.tables }; rest = 0 };
}

fresh-IsLeaf : (z : ℤ) → is_valid (fresh none []) z ≡ true → IsLeaf z (fresh none [])
fresh-IsLeaf z v = record {
  well_formed = fresh-IsWellFormed none [];
  valid = v;
  no_transmitter = refl;
  no_receivers = refl;
}

proposing-IsReady :
    (z : ℤ) → is_valid (fresh none []) z ≡ true → IsReady z 0 (given_back test_mac proposing)
unfolding unlock_map ◌-ℤ◌
proposing-IsReady z v = record {
  well_formed = record { short = omega arith; sized = refl };
  valid = v;
  transmitter = λ j e.
      subst (λ k. IsLeaf z ((given_back test_mac proposing).tables k)) (same 1 j e)
        (fresh-IsLeaf z v);
  receivers = (fresh-IsLeaf z v, tt);
}
  where
    same : (a b : TableId) → some a ≡ some b → a ≡ b
    same a b e = ground arith

accept_link_holds_example :
    IsReleased proposing.world.heap (given_back test_mac proposing)
    × All
        (IsGivenBack 5 6 1 proposing.world.heap (given_back test_mac proposing))
        (at_table (pos 3) ∷ [])
    × AcceptOutcome test_mac a_proposal true 1 0
        (accepted_link test_mac 6 true a_proposal)
        (given_back test_mac proposing)
        (schedule_bursts 2 test_manager
          (some 1)
          (accepted_link test_mac 6 true a_proposal)
          (given_back test_mac proposing))
        (accept_link test_mac a_proposal false proposing)
unfolding get_freq_channel_by_center_freq get_reservation_table ◌+ℤ◌ calculate_alternating_bursts
    unlock_map ◌-ℤ◌
accept_link_holds_example =
    accept_link_holds test_mac a_proposal false 0 1 0 proposing refl used-IsFormedHeap refl refl
      refl ((proposing-IsReady (pos 2) refl, tt), (proposing-IsReady (pos 7) refl, tt))

-- Two requests of a link after its third attempt: the resources that they propose are locked, and
-- the replies are overdue after the first slot.
abbrev a_request : Request
a_request = record {
  num_forward_bursts = 1;
  num_recipient_bursts = 1;
  period = 0;
  due = 0;
  proposals = a_proposal ∷ [];
}

abbrev third_try : Site ℕ
third_try = record new_link {
  link = record (set_status awaiting_request_generation new_link.link) {
    establishment_attempts = 3;
  };
}

abbrev request_sent_by : Site ℕ → Site ℕ
request_sent_by s = (notify_link_request_sent test_mac 1 1 0 (pos 0) s).1

abbrev locked_by : Site ℕ → Site ℕ
locked_by s = (lock_proposed_resources test_mac a_proposal s).1

abbrev overdue_after : Site ℕ → Site ℕ
overdue_after s = (slot test_mac s).1

abbrev fourth_try : Site ℕ
fourth_try = overdue_after (locked_by (request_sent_by third_try))

abbrev last_try : Site ℕ
last_try = overdue_after (locked_by (request_sent_by fourth_try))
