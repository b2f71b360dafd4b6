-- ===== src/PpLinkManager/Locking.antt =====
-- `PPLinkManager::lockProposedResources`: first all slots are checked, then they are locked.
use ldacs_mcsotdma.Prelude.{
  ℕ, Bool, List, [], ◌∷◌, Option, none, some, ℤ, ltb, ◌==◌, to_u32, pos, if◌then◌else◌,
}
use ldacs_mcsotdma.Prelude.Result.{Result, ok, err, ◌>>=◌, guard, range_error}
use ldacs_mcsotdma.Prelude.Calls.{asks, ◌>>◌}
use ldacs_mcsotdma.Prelude.Calls
use ldacs_mcsotdma.Reservation.{MacId}
use ldacs_mcsotdma.Table.{TableId, Heap}
use ldacs_mcsotdma.Table.State.{M, pure, deref}
use ldacs_mcsotdma.Table.State
use ldacs_mcsotdma.Table.Query.{can_lock, any_table}
use ldacs_mcsotdma.Table.Lock.{lock}
use ldacs_mcsotdma.SlotCalculator.{Slots, calculate_alternating_bursts}
use ldacs_mcsotdma.ReservationMap.{ReservationMap, empty_map, merge, add_locked_resource}
use ldacs_mcsotdma.ReservationManager.{
  ReservationManager, get_freq_channel_by_center_freq, get_reservation_table,
}
use ldacs_mcsotdma.ThirdPartyLink.{LinkProposal}
use ldacs_mcsotdma.PpLinkManager.{Mac, Pp, on_heap, set_link}

-- `std::set<unsigned int>::emplace`
unfoldable pub emplace : ℕ → List ℕ → List ℕ
emplace x [] = x ∷ []
emplace x (y ∷ ys) =
    let rest = emplace x ys in if x == y then y ∷ ys else if ltb x y then x ∷ y ∷ ys else y ∷ rest

-- `locked_local`, `locked_tx` and `locked_rx`
pub record LockSets : Type 0 where
  pub local : List ℕ
  pub transmitter : List ℕ
  pub receiver : List ℕ

abbrev pub no_slots : LockSets
no_slots = record { local = []; transmitter = []; receiver = [] }

-- A test of a slot that throws where the slot cannot be locked.
abbrev pub must_lock : Result Bool → Result (Unit {0})
must_lock (ok b) = guard b range_error
must_lock (err e) = err e

abbrev pub add_tx : ℕ → LockSets → LockSets
add_tx slot sets = record sets {
  local = emplace slot sets.local;
  transmitter = emplace slot sets.transmitter;
}

abbrev pub add_rx : ℕ → LockSets → LockSets
add_rx slot sets = record sets {
  local = emplace slot sets.local;
  receiver = emplace slot sets.receiver;
}

-- The loops of the check; `tbl` is read in the first round.
unfoldable pub check_tx_slots :
    Heap → Option TableId → Option TableId → List ℤ → LockSets → Result LockSets
unfolding can_lock emplace
check_tx_slots h tbl tx_table [] sets = ok sets
check_tx_slots h tbl tx_table (z ∷ zs) sets = do
  i ← deref tbl
  _ ← must_lock (can_lock (h.tables i) (to_u32 z))
  j ← deref tx_table
  _ ← must_lock (can_lock (h.tables j) (to_u32 z))
  check_tx_slots h tbl tx_table zs (add_tx (to_u32 z) sets)

unfoldable pub check_rx_slots :
    Heap → Option TableId → List TableId → List ℤ → LockSets → Result LockSets
unfolding can_lock any_table emplace
check_rx_slots h tbl rx_tables [] sets = ok sets
check_rx_slots h tbl rx_tables (z ∷ zs) sets = do
  i ← deref tbl
  _ ← must_lock (can_lock (h.tables i) (to_u32 z))
  _ ← must_lock (any_table (λ t. can_lock t (to_u32 z)) h rx_tables)
  check_rx_slots h tbl rx_tables zs (add_rx (to_u32 z) sets)

-- A loop that locks slots of one table, and lists them.
unfoldable pub lock_all : Option TableId → MacId → List ℕ → ReservationMap → M ReservationMap
unfolding lock
lock_all tbl id [] m = pure m
lock_all tbl id (slot ∷ slots) m = State.◌>>=◌ (State.reads (λ h. deref tbl)) λ i.
    State.◌>>=◌ (lock i slot id) λ _. lock_all tbl id slots (add_locked_resource i (pos slot) m)

-- The first receiver in which the slot can be locked.
unfoldable pub first_lockable : Heap → ℕ → List TableId → Result (Option TableId)
unfolding can_lock
first_lockable h slot [] = ok none
first_lockable h slot (k ∷ ks) =
    let rest = first_lockable h slot ks in
    can_lock (h.tables k) slot >>= λ b. if b then ok (some k) else rest

-- What is done for a receiver: the lock is asked of the table of the channel, and the receiver is
-- listed.
unfoldable pub lock_receiver :
    Option TableId → MacId → ℕ → ReservationMap → Option TableId → M ReservationMap
unfolding lock
lock_receiver tbl id slot m none = pure m
lock_receiver tbl id slot m (some k) =
    State.◌>>=◌ (State.reads (λ h. deref tbl))
      λ i. State.◌>>=◌ (lock i slot id) λ _. pure (add_locked_resource k (pos slot) m)

unfoldable pub lock_receivers :
    Option TableId → List TableId → MacId → List ℕ → ReservationMap → M ReservationMap
unfolding first_lockable lock_receiver
lock_receivers tbl rx_tables id [] m = pure m
lock_receivers tbl rx_tables id (slot ∷ slots) m =
    State.◌>>=◌ (State.reads (λ h. first_lockable h slot rx_tables)) λ found.
      State.◌>>=◌ (lock_receiver tbl id slot m found) λ m'. lock_receivers tbl rx_tables id slots m'

unfoldable pub lock_sets : Option TableId → ReservationManager → MacId → LockSets → M ReservationMap
unfolding lock_all lock_receivers
lock_sets tbl m id sets = State.◌>>=◌ (lock_all tbl id sets.local empty_map) λ one.
    State.◌>>=◌ (lock_all m.hardware_tx_table id sets.transmitter one)
      λ two. lock_receivers tbl m.hardware_rx_tables id sets.receiver two

-- The check of all slots.
unfoldable pub check_slots : ReservationManager → Slots → Option TableId → Heap → Result LockSets
unfolding check_tx_slots check_rx_slots
check_slots m slots tbl h =
    check_tx_slots h tbl m.hardware_tx_table slots.tx_slots no_slots >>= λ sets.
    check_rx_slots h tbl m.hardware_rx_tables slots.rx_slots sets

-- The locks of a proposal, as a map.
unfoldable pub lock_proposal : ReservationManager → ℕ → MacId → LinkProposal → M ReservationMap
unfolding calculate_alternating_bursts get_freq_channel_by_center_freq get_reservation_table
    check_slots lock_sets
lock_proposal m timeout id proposal =
    State.◌>>=◌
      (State.reads (λ h.
        get_freq_channel_by_center_freq h m proposal.center_frequency
        >>= get_reservation_table h m))
      λ tbl.
        State.◌>>=◌
          (State.reads (
            check_slots m
              (calculate_alternating_bursts proposal.slot_offset proposal.num_tx_initiator
                proposal.num_tx_recipient proposal.period timeout)
              tbl))
          λ sets. lock_sets tbl m id sets

-- `lockProposedResources`
unfoldable pub lock_proposed_resources : {S : Type 0} → Mac S → LinkProposal → Pp S (Unit {0})
unfolding lock_proposal
lock_proposed_resources mac proposal = Calls.◌>>=◌ (asks (λ s. ok s.link.base.link_id)) λ id.
    Calls.◌>>=◌
      (on_heap (lock_proposal mac.reservation_manager mac.default_pp_link_timeout id proposal))
      λ m. set_link (λ link. record link { reserved_resources = merge link.reserved_resources m })
