-- ===== src/McsotdmaMac.antt =====
-- MCSOTDMA_Mac.hpp and MCSOTDMA_Mac.cpp: the link managers and the third-party links of a user, and
-- what is computed over all of them. Slot is what happens in a time slot. Statistics,
-- positions, plain getters, and the matrix of the upper layer's prediction are not kept.
pub mod Slot
pub mod ThirdParty
pub mod Executed
pub mod Settings
pub mod Resets
use ldacs_mcsotdma.Prelude.{
  ℕ, ◌+◌, Bool, true, false, not, ◌&&◌, ◌||◌, ◌==◌, ltb, List, [], ◌∷◌, ◌++◌, map, Option, none,
  some, ℤ, negsuc, pos, if◌then◌else◌,
}
use ldacs_mcsotdma.Prelude.Result.{
  Result, ok, err, ◌>>=◌, invalid_argument, out_of_range, runtime_error,
}
use ldacs_mcsotdma.Prelude.Calls.{Call}
use ldacs_mcsotdma.Prelude.Maps.{Entry, entry, find, put}
use ldacs_mcsotdma.Reservation.{MacId, MacIds, is_any_tx}
use ldacs_mcsotdma.Table.{ChannelId, Heap}
use ldacs_mcsotdma.Table.State.{deref}
use ldacs_mcsotdma.ReservationManager.{ReservationManager, Collected, collect_current_reservations}
use ldacs_mcsotdma.NeighborObserver.{NeighborObserver, neighbor_observer}
use ldacs_mcsotdma.DutyCycle.{Numbers, Double, DutyCycle, duty_cycle_of}
use ldacs_mcsotdma.LinkManager.{LinkManager, assign}
use ldacs_mcsotdma.PpLinkManager.{PpLinkManager, Uninitialized, pp_link_manager, is_active}
use ldacs_mcsotdma.PpLinkManager.Utilization.{
  LinkUtilization, get_utilization, set_max_no_pp_link_establishment_attempts,
}
use ldacs_mcsotdma.ShLinkManager.{ShLinkManager, sh_link_manager, get_sh_num_tx_per_time_slot}

module _ ⦃numbers : Numbers⦄ where
  pub data Manager : Type 0 where
    sh : ShLinkManager → Manager
    pp : PpLinkManager → Manager

  -- `link_managers` is ordered by the identifiers.
  pub record McsotdmaMac : Type 0 where
    pub id : MacId
    pub reservation_manager : ReservationManager
    pub link_managers : List (Entry Manager)
    pub max_no_pp_link_establishment_attempts : ℕ
    pub learn_dme_activity : Bool
    pub channel_sensing_observation : List (Entry Bool)
    pub neighbor_observer : NeighborObserver
    pub duty_cycle : DutyCycle
    pub use_duty_cycle : Bool
    pub should_force_pp_period : Bool
    pub forced_pp_period : ℤ
    pub silent : Bool

  -- The constructor; `reservation_manager` is new.
  abbrev pub mcsotdma_mac : ⦃ids : MacIds⦄ → MacId → ReservationManager → McsotdmaMac
  mcsotdma_mac id reservation_manager = record {
    id = id;
    reservation_manager = reservation_manager;
    link_managers = [];
    max_no_pp_link_establishment_attempts = 5;
    learn_dme_activity = false;
    channel_sensing_observation = [];
    neighbor_observer = neighbor_observer 50000;
    duty_cycle = duty_cycle_of 100 numbers.tenth 1;
    use_duty_cycle = true;
    should_force_pp_period = false;
    forced_pp_period = pos 1;
    silent = false;
  }

  -- Beacons are treated like broadcasts.
  abbrev pub internal_id : ⦃ids : MacIds⦄ → MacId → MacId
  internal_id ⦃ids⦄ id = if id == ids.beacon then ids.broadcast else id

  abbrev assigned : ShLinkManager → Result (Unit {0}) × LinkManager → Result Manager
  assigned lm (ok u, base) = ok (sh (record lm { base = base }))
  assigned lm (err e, base) = err e

  -- A manager that there is none of yet; `memory` is what its constructor does not set.
  unfoldable pub new_manager :
      ⦃ids : MacIds⦄ → Heap → Uninitialized → MacId → McsotdmaMac → Result Manager
  unfolding assign
  new_manager ⦃ids⦄ h memory id mac =
      if id == ids.broadcast
      then assigned sh_link_manager (
          assign h mac.reservation_manager mac.reservation_manager.broadcast_frequency_channel
            sh_link_manager.base)
      else ok (
          pp (
            set_max_no_pp_link_establishment_attempts mac.max_no_pp_link_establishment_attempts
              (pp_link_manager id memory)))

  abbrev inserted : MacId → McsotdmaMac → Result Manager → Result MacId × McsotdmaMac
  inserted id mac (ok m) = (ok id, record mac { link_managers = put id m mac.link_managers })
  inserted id mac (err e) = (err e, mac)

  -- `getLinkManager`: the key of a manager, which is made if there is none.
  unfoldable pub get_link_manager :
      ⦃ids : MacIds⦄ → Heap → Uninitialized → MacId → Call McsotdmaMac MacId
  unfolding find put new_manager
  get_link_manager h memory id mac =
      if id == mac.id
      then (err invalid_argument, mac)
      else elim (find (internal_id id) mac.link_managers) [
        | some m ↦ (ok (internal_id id), mac)
        | none ↦ inserted (internal_id id) mac (new_manager h memory (internal_id id) mac)
      ]

  -- The keys of links between two users.
  abbrev pub is_own_channel : ⦃ids : MacIds⦄ → MacId → Bool
  is_own_channel ⦃ids⦄ id = not (id == ids.broadcast) && not (id == ids.beacon)

  abbrev pub is_link_of_two : ⦃ids : MacIds⦄ → MacId → Bool
  is_link_of_two ⦃ids⦄ id = is_own_channel id && not (id == ids.dme)

  unfoldable pub active_links : (MacId → Bool) → List (Entry Manager) → List PpLinkManager
  active_links is_link [] = []
  active_links is_link (e ∷ es) =
      let rest = active_links is_link es in
      elim e.value [
        | sh lm ↦ rest
        | pp link ↦ if is_link e.key && is_active link then link ∷ rest else rest
      ]

  -- `getUsedPPDutyCycleBudget`: what each active link uses, and the exchanges that it has left.
  unfoldable pub get_used_pp_duty_cycle_budget : ⦃ids : MacIds⦄ → McsotdmaMac → List Double × List ℤ
  unfolding active_links
  get_used_pp_duty_cycle_budget mac = (
    map (λ (l : PpLinkManager). numbers.burst_share l.period)
        (active_links is_link_of_two mac.link_managers),
    map (λ (l : PpLinkManager). l.timeout) (active_links is_link_of_two mac.link_managers),
  )

  unfoldable pub count_links : List PpLinkManager → ℕ
  count_links [] = 0
  count_links (l ∷ ls) = count_links ls + 1

  unfoldable pub get_num_active_pp_links : ⦃ids : MacIds⦄ → McsotdmaMac → ℕ
  unfolding active_links count_links
  get_num_active_pp_links mac = count_links (active_links is_link_of_two mac.link_managers)

  -- The manager of the shared channel: `at` throws where there is none.
  unfoldable pub sh_manager : ⦃ids : MacIds⦄ → McsotdmaMac → Result ShLinkManager
  unfolding find
  sh_manager ⦃ids⦄ mac = elim (find ids.broadcast mac.link_managers) [
    | none ↦ err out_of_range
    | some m ↦ elim m [ sh lm ↦ ok lm | pp link ↦ err out_of_range ]
  ]

  unfoldable pub get_used_sh_duty_cycle_budget : ⦃ids : MacIds⦄ → McsotdmaMac → Result Double
  unfolding sh_manager
  get_used_sh_duty_cycle_budget mac = sh_manager mac >>= λ lm. ok (get_sh_num_tx_per_time_slot lm)

  unfoldable pub get_sh_slot_offset : ⦃ids : MacIds⦄ → McsotdmaMac → Result ℕ
  unfolding sh_manager
  get_sh_slot_offset mac = sh_manager mac >>= λ lm. ok lm.next_broadcast_slot

  -- `getPPLinkUtilizations`, by the message in which nothing is set and the comparison with it.
  unfoldable pub utilizations :
      LinkUtilization
      → (LinkUtilization → Bool)
      → Heap
      → List PpLinkManager
      → Result (List LinkUtilization)
  unfolding get_utilization
  utilizations message is_set h [] = ok []
  utilizations message is_set h (l ∷ ls) = get_utilization message h l >>= λ u.
      utilizations message is_set h ls >>= λ us. ok (if is_set u then u ∷ us else us)

  abbrev pub get_pp_link_utilizations :
      ⦃ids : MacIds⦄
      → LinkUtilization
      → (LinkUtilization → Bool)
      → Heap
      → McsotdmaMac
      → Result (List LinkUtilization)
  get_pp_link_utilizations message is_set h mac =
      utilizations message is_set h (active_links is_own_channel mac.link_managers)

  -- `setMaxNoPPLinkEstablishmentAttempts`, for the links that there are and for those to come
  unfoldable pub set_max_attempts : ⦃ids : MacIds⦄ → ℕ → List (Entry Manager) → List (Entry Manager)
  set_max_attempts value [] = []
  set_max_attempts value (e ∷ es) =
      let rest = set_max_attempts value es in
      elim e.value [
        | sh lm ↦ e ∷ rest
        | pp link ↦ entry e.key (pp (set_max_no_pp_link_establishment_attempts value link)) ∷ rest
      ]

  unfoldable pub set_max_no_attempts : ⦃ids : MacIds⦄ → ℕ → McsotdmaMac → McsotdmaMac
  unfolding set_max_attempts
  set_max_no_attempts value mac = record mac {
    max_no_pp_link_establishment_attempts = value;
    link_managers = set_max_attempts value mac.link_managers;
  }

  -- `isGoingToTransmitDuringCurrentSlot`
  unfoldable pub any_tx_at : Heap → ℕ → List Collected → Result Bool
  any_tx_at h center_frequency [] = ok false
  any_tx_at h center_frequency (c ∷ cs) = deref c.channel >>= λ ch.
      if ((h.channels ch).center_frequency == center_frequency) && is_any_tx c.reservation
      then ok true
      else any_tx_at h center_frequency cs

  unfoldable pub is_going_to_transmit_during_current_slot : Heap → ℕ → McsotdmaMac → Result Bool
  unfolding any_tx_at
  is_going_to_transmit_during_current_slot h center_frequency mac =
      collect_current_reservations h mac.reservation_manager >>= any_tx_at h center_frequency

  -- `notifyAboutDmeTransmission`
  unfoldable pub notify_about_dme_transmission : ℕ → McsotdmaMac → McsotdmaMac
  unfolding put
  notify_about_dme_transmission center_frequency mac =
      if mac.learn_dme_activity
      then record mac {
        channel_sensing_observation = put center_frequency true mac.channel_sensing_observation;
      }
      else mac

  -- The frequencies of the channels in ascending order.
  unfoldable pub insert_frequency : ℕ → List ℕ → List ℕ
  insert_frequency f [] = f ∷ []
  insert_frequency f (g ∷ gs) =
      let rest = insert_frequency f gs in if ltb g f then g ∷ rest else f ∷ g ∷ gs

  unfoldable pub sorted_frequencies : Heap → List ChannelId → List ℕ
  unfolding insert_frequency
  sorted_frequencies h [] = []
  sorted_frequencies h (c ∷ cs) =
      insert_frequency (h.channels c).center_frequency (sorted_frequencies h cs)

  -- -1 where a signal was sensed, 1 where not.
  abbrev observation : Option Bool → ℤ
  observation none = pos 1
  observation (some sensed) = if sensed then negsuc 0 else pos 1

  unfoldable pub get_channel_sensing_observation : Heap → McsotdmaMac → Result (List ℤ)
  unfolding sorted_frequencies find
  get_channel_sensing_observation h mac =
      if mac.learn_dme_activity
      then ok (
          map (λ f. observation (find f mac.channel_sensing_observation))
            (sorted_frequencies h mac.reservation_manager.p2p_frequency_channels))
      else err runtime_error
