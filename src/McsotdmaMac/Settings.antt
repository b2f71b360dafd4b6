-- ===== src/McsotdmaMac/Settings.antt =====
-- MCSOTDMA_Mac.cpp: the settings of a user, and those of the manager of its shared channel.
use ldacs_mcsotdma.Prelude.{ℕ, Bool, Option, none, some, ℤ}
use ldacs_mcsotdma.Prelude.Result.{Result, ok}
use ldacs_mcsotdma.Prelude.Calls.{Call, ◌>>=◌}
use ldacs_mcsotdma.Prelude.Maps.{find, put}
use ldacs_mcsotdma.Reservation.{MacId, MacIds}
use ldacs_mcsotdma.Table.{Heap}
use ldacs_mcsotdma.NeighborObserver.{report_activity, report_broadcast_slot_advertisement}
use ldacs_mcsotdma.NeighborObserver
use ldacs_mcsotdma.DutyCycle.{Numbers, Double, DutyCycleBudgetStrategy, duty_cycle_of, set_strategy}
use ldacs_mcsotdma.DutyCycle
use ldacs_mcsotdma.PpLinkManager.{Uninitialized}
use ldacs_mcsotdma.ShLinkManager.{
  ShLinkManager, ContentionMethod, set_target_collision_prob, set_min_num_candidate_slots,
  set_max_num_candidate_slots, set_use_contention_method, set_advertise_next_slot_in_current_header,
}
use ldacs_mcsotdma.McsotdmaMac.{McsotdmaMac, Manager, sh, pp, get_link_manager}

module _ ⦃numbers : Numbers⦄ ⦃ids : MacIds⦄ where
  abbrev set_sh : (ShLinkManager → ShLinkManager) → Manager → Manager
  set_sh f (sh lm) = sh (f lm)
  set_sh f (pp link) = pp link

  abbrev set_found :
      (ShLinkManager → ShLinkManager) → MacId → Option Manager → McsotdmaMac → McsotdmaMac
  set_found f id none mac = mac
  set_found f id (some m) mac = record mac { link_managers = put id (set_sh f m) mac.link_managers }

  -- A setter of the manager of the shared channel, which is made if there is none.
  unfoldable pub set_on_sh :
      Heap → Uninitialized → (ShLinkManager → ShLinkManager) → Call McsotdmaMac (Unit {0})
  unfolding get_link_manager find put
  set_on_sh h memory f = get_link_manager h memory ids.broadcast >>= λ id mac.
      (ok tt, set_found f id (find id mac.link_managers) mac)

  abbrev pub set_broadcast_target_collision_prob :
      Heap → Uninitialized → Double → Call McsotdmaMac (Unit {0})
  set_broadcast_target_collision_prob h memory value =
      set_on_sh h memory (set_target_collision_prob value)

  abbrev pub set_bc_slot_selection_min_num_candidate_slots :
      Heap → Uninitialized → ℕ → Call McsotdmaMac (Unit {0})
  set_bc_slot_selection_min_num_candidate_slots h memory value =
      set_on_sh h memory (set_min_num_candidate_slots value)

  abbrev pub set_bc_slot_selection_max_num_candidate_slots :
      Heap → Uninitialized → ℕ → Call McsotdmaMac (Unit {0})
  set_bc_slot_selection_max_num_candidate_slots h memory value =
      set_on_sh h memory (set_max_num_candidate_slots value)

  abbrev pub set_contention_method :
      Heap → Uninitialized → ContentionMethod → Call McsotdmaMac (Unit {0})
  set_contention_method h memory method = set_on_sh h memory (set_use_contention_method method)

  abbrev pub set_advertise_next_broadcast_slot_in_current_header :
      Heap → Uninitialized → Bool → Call McsotdmaMac (Unit {0})
  set_advertise_next_broadcast_slot_in_current_header h memory flag =
      set_on_sh h memory (set_advertise_next_slot_in_current_header flag)

  abbrev observed : McsotdmaMac → NeighborObserver.Step → Result (Unit {0}) × McsotdmaMac
  observed mac (r, o) = (r, record mac { neighbor_observer = o })

  unfoldable pub report_neighbor_activity : MacId → Call McsotdmaMac (Unit {0})
  unfolding report_activity
  report_neighbor_activity id mac = observed mac (report_activity id mac.neighbor_observer)

  abbrev pub report_advertisement : MacId → ℕ → McsotdmaMac → McsotdmaMac
  report_advertisement id advertised_slot_offset mac = record mac {
    neighbor_observer =
        report_broadcast_slot_advertisement id advertised_slot_offset mac.neighbor_observer;
  }

  abbrev pub set_duty_cycle : ℕ → Double → ℕ → McsotdmaMac → McsotdmaMac
  set_duty_cycle period max min_num_supported_pp_links mac = record mac {
    duty_cycle = duty_cycle_of period max min_num_supported_pp_links;
  }

  abbrev pub set_min_num_supported_pp_links : ℕ → McsotdmaMac → McsotdmaMac
  set_min_num_supported_pp_links value mac = record mac {
    duty_cycle = DutyCycle.set_min_num_supported_pp_links value mac.duty_cycle;
  }

  abbrev pub set_duty_cycle_budget_computation_strategy :
      DutyCycleBudgetStrategy → McsotdmaMac → McsotdmaMac
  set_duty_cycle_budget_computation_strategy strategy mac = record mac {
    duty_cycle = set_strategy strategy mac.duty_cycle;
  }

  abbrev pub set_consider_duty_cycle : Bool → McsotdmaMac → McsotdmaMac
  set_consider_duty_cycle flag mac = record mac { use_duty_cycle = flag }

  abbrev pub set_learn_dme_activity : Bool → McsotdmaMac → McsotdmaMac
  set_learn_dme_activity value mac = record mac { learn_dme_activity = value }

  abbrev pub set_force_pp_period : Bool → ℤ → McsotdmaMac → McsotdmaMac
  set_force_pp_period flag value mac = record mac {
    should_force_pp_period = flag;
    forced_pp_period = value;
  }

  abbrev pub set_silent : Bool → McsotdmaMac → McsotdmaMac
  set_silent is_silent mac = record mac { silent = is_silent }
