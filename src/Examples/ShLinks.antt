-- ===== src/Examples/ShLinks.antt =====
-- Examples of DutyCycle, SHLinkManager and MCSOTDMA_Mac.
use ldacs_mcsotdma.Prelude.{
  ℕ, ◌+◌, ◌-◌, ◌*◌, ◌/◌, ◌^◌, ◌≡◌, refl, false, ltb, ◌+ℤ◌, none, some, [], ◌∷◌, pos, arith,
  if◌then◌else◌, inl, List,
}
use ldacs_mcsotdma.Prelude.Result.{ok}
use ldacs_mcsotdma.NeighborObserver.{neighbor_observer}
use ldacs_mcsotdma.DutyCycle.{
  Numbers, DutyCycle, duty_cycle_of, set_strategy, dynamic, budget_left, all_releases,
  get_periodicity_pp_dynamic,
}
use ldacs_mcsotdma.DutyCycle.Waiting.{WaitOutcome, dynamic_waits}
use ldacs_mcsotdma.ShLinkManager.{sh_link_manager, Station, Mac}
use ldacs_mcsotdma.ShLinkManager.Broadcast.{schedule_broadcast_slot}
use ldacs_mcsotdma.ShLinkManager.Scheduled.{BroadcastOutcome, schedule_broadcast_holds}
use ldacs_mcsotdma.McsotdmaMac.ThirdParty.{
  LinkEntry, find_link, get_third_party_link, IsPaired, IsLookedUp, get_third_party_link-IsLookedUp,
}
use ldacs_mcsotdma.Examples.{test_ids}
use ldacs_mcsotdma.Examples.Links.{
  test_manager, managed_heap, a_proposal, ready, fresh-IsWellFormed,
}

-- Thousandths, rounded down, with a period and a number of candidates that do not depend on them.
instance abbrev pub thousandths : Numbers
thousandths = record {
  Double = ℕ;
  of_nat = λ n. 1000 * n;
  hundredth = 10;
  tenth = 100;
  default_collision_prob = 626;
  add = λ a b. a + b;
  subtract = λ a b. a - b;
  divide = λ a b. if ltb 0 b then 1000 * a / b else 0;
  is_less = ltb;
  is_infinite = λ _. false;
  burst_period = λ b. if ltb b 50 then 2 else 1;
  slot_interval = λ b. pos (if ltb 0 b then 1000 / b else 1);
  burst_share = λ n. 100 / 2 ^ n;
  aloha_candidates = λ p m. 3;
}

-- A tenth of the time, for two links at least.
abbrev a_tenth : DutyCycle
a_tenth = set_strategy dynamic (duty_cycle_of 100 100 2)

-- Two links and the shared channel use all of it.
dynamic_waits_example :
    WaitOutcome
      (budget_left a_tenth (30 ∷ (45 ∷ [])) 25)
      (all_releases
        (budget_left a_tenth (30 ∷ (45 ∷ [])) 25)
        (30 ∷ (45 ∷ []))
        (pos 7 ∷ (pos 3 ∷ []))
        25
        (pos 5))
      (get_periodicity_pp_dynamic a_tenth (30 ∷ (45 ∷ [])) (pos 7 ∷ (pos 3 ∷ [])) 25 (pos 5))
dynamic_waits_example =
    dynamic_waits a_tenth (30 ∷ (45 ∷ [])) (pos 7 ∷ (pos 3 ∷ [])) 25 (pos 5) (omega arith)

test_waits :
    get_periodicity_pp_dynamic a_tenth (30 ∷ (45 ∷ [])) (pos 7 ∷ (pos 3 ∷ [])) 25 (pos 5)
    ≡ ok (pos 4, 2)
unfolding get_periodicity_pp_dynamic ◌+ℤ◌
test_waits = refl

abbrev test_mac : Mac ℕ
test_mac = record {
  own_id = 5;
  reservation_manager = test_manager;
  default_pp_link_timeout = 1;
  depth = 2;
  should_consider_duty_cycle = false;
  fixed_pp_period = none;
  no_proposal = a_proposal;
  no_slot_offset = pos 0;
  current_slot = λ n. n;
  duty_cycle = λ n. a_tenth;
  used_pp_duty_cycle_budget = λ n. ([], []);
  pp_link_utilizations = λ s. ok [];
  request_segment = λ n. (ok tt, n + 1);
  random_int = λ k n. (ok 1, n + 1);
  report_missing_packet = λ id n. n + 1;
  on_beacon_reception = λ id n. n + 1;
  notify_link_request_sent = λ id a b c z s. (ok tt, s);
  lock_proposed_resources = λ id p s. (ok tt, s);
  accept_link = λ id p b s. (ok tt, s);
  notify_pp_outgoing = λ id s. (ok tt, s);
  reset_third_party_link = λ a b s. (ok tt, s);
  process_link_request_message = λ a b r s. (ok tt, s);
  process_link_reply_message = λ a b r s. (ok tt, s);
}

-- A manager on the table of a channel, with nothing scheduled.
abbrev silent : Station ℕ
silent = record {
  manager = record sh_link_manager {
    base = record (sh_link_manager.base) { current_reservation_table = some 0 };
  };
  heap = managed_heap;
  observer = neighbor_observer 50;
  rest = 0;
}

schedule_broadcast_holds_example :
    BroadcastOutcome test_mac 0 silent (schedule_broadcast_slot test_mac silent)
schedule_broadcast_holds_example =
    schedule_broadcast_holds test_mac 0 0 silent refl (omega arith) refl refl
      (fresh-IsWellFormed (some 1) (2 ∷ [])) ready

-- The second of three candidates is taken.
test_broadcast : (schedule_broadcast_slot test_mac silent).1.manager.next_broadcast_slot ≡ 2
unfolding schedule_broadcast_slot ◌+ℤ◌
test_broadcast = refl

-- A link is known by the sum of its users. One link is there.
abbrev sum_of : ℕ → ℕ → ℕ
sum_of a b = a + b

no_links-IsPaired : IsPaired {L = ℕ} []
unfolding find_link
no_links-IsPaired a b ne = inl refl

abbrev one_link : List (LinkEntry ℕ)
one_link = (get_third_party_link sum_of 7 5 []).1

get_third_party_link-IsLookedUp_example :
    IsLookedUp sum_of 5 9 one_link
      (get_third_party_link sum_of 5 9 one_link).0
      (get_third_party_link sum_of 5 9 one_link).1
get_third_party_link-IsLookedUp_example =
    get_third_party_link-IsLookedUp sum_of 5 9 one_link
      (get_third_party_link-IsLookedUp sum_of 7 5 [] no_links-IsPaired).paired

-- The link of users 7 and 5 is that of 5 and 7.
test_swapped : (get_third_party_link sum_of 5 7 one_link).1 ≡ one_link
unfolding get_third_party_link
test_swapped = refl
