-- ===== src/ReservationMap.antt =====
-- ReservationMap.hpp: the slots that were locked or scheduled while a link is set up. The offsets
-- are those of the slot the map was made in; `num_slots_since_creation` makes them current.
pub mod Released
pub mod Unlocked
pub mod Next
use ldacs_mcsotdma.Prelude.{
  ℕ, zero, suc, ◌+◌, Bool, true, false, not, ◌&&◌, ◌||◌, List, [], ◌∷◌, ◌++◌, Option, none, some, ℤ,
  pos, ◌-ℤ◌, pos_part, ltb_ℤ, leb_ℤ, if◌then◌else◌, length,
}
use ldacs_mcsotdma.Prelude.Result.{
  Result, ok, err, Error, invalid_argument, runtime_error, is_exception, is_invalid_argument,
}
use ldacs_mcsotdma.Prelude.Result
use ldacs_mcsotdma.Reservation.{
  MacId, MacIds, Action, action_eq, Reservation, unreserved, is_tx, is_rx,
}
use ldacs_mcsotdma.Channel.{is_sh}
use ldacs_mcsotdma.Table.{TableId, Heap, get_reservation}
use ldacs_mcsotdma.Table.State.{M, pure, throw, ◌>>=◌, ◌>>◌, reads, try_catch}
use ldacs_mcsotdma.Table.Mark.{mark}
use ldacs_mcsotdma.Table.Lock.{unlock_either_id}

-- `std::pair<ReservationTable*, int>`
pub record Resource : Type 0 where
  pub table : TableId
  pub slot_offset : ℤ

pub record ReservationMap : Type 0 where
  pub scheduled_resources : List Resource
  pub locked_resources : List Resource
  pub num_slots_since_creation : ℕ

abbrev pub empty_map : ReservationMap
empty_map = record { scheduled_resources = []; locked_resources = []; num_slots_since_creation = 0 }

unfoldable pub merge : ReservationMap → ReservationMap → ReservationMap
merge m other = record m {
  scheduled_resources = m.scheduled_resources ++ other.scheduled_resources;
  locked_resources = m.locked_resources ++ other.locked_resources;
}

abbrev pub add_scheduled_resource : TableId → ℤ → ReservationMap → ReservationMap
add_scheduled_resource i slot_offset m = record m {
  scheduled_resources =
      m.scheduled_resources ++ record { table = i; slot_offset = slot_offset } ∷ [];
}

abbrev pub add_locked_resource : TableId → ℤ → ReservationMap → ReservationMap
add_locked_resource i slot_offset m = record m {
  locked_resources = m.locked_resources ++ record { table = i; slot_offset = slot_offset } ∷ [];
}

abbrev pub on_slot_start : ReservationMap → ReservationMap
on_slot_start m = record m { num_slots_since_creation = suc m.num_slots_since_creation }

abbrev pub size_scheduled : ReservationMap → ℕ
size_scheduled m = length m.scheduled_resources

abbrev pub size_locked : ReservationMap → ℕ
size_locked m = length m.locked_resources

abbrev pub size : ReservationMap → ℕ
size m = size_scheduled m + size_locked m

-- `reset`
abbrev pub clear : ReservationMap → ReservationMap
clear m = empty_map

-- The offset of an entry now, `since` slots after the map was made.
abbrev pub current_offset : ℕ → Resource → ℤ
current_offset since r = r.slot_offset -ℤ pos since

-- `table->getLinkedChannel() != nullptr && table->getLinkedChannel()->isSH()`
abbrev pub on_sh : Heap → TableId → Bool
on_sh h i = elim (h.tables i).freq_channel [ none ↦ false | some c ↦ is_sh (h.channels c) ]

module _ ⦃ids : MacIds⦄ where
  -- One entry: 1 if it was unlocked. The two exceptions that are passed over have one handler
  -- here, since `id_mismatch` is an `invalid_argument`.
  unfoldable pub unlock_resource : MacId → MacId → ℕ → Resource → M ℕ
  unfolding unlock_either_id
  unlock_resource id1 id2 since r = do
    sh ← reads (λ h. ok (on_sh h r.table))
    if not sh && ltb_ℤ (pos 0) (current_offset since r)
        then try_catch
            (try_catch
              (unlock_either_id r.table (pos_part (current_offset since r)) id1 id2 >> pure 1)
              is_invalid_argument (pure 0))
            is_exception (throw runtime_error)
        else pure 0

  unfoldable pub unlock_resources : MacId → MacId → ℕ → List Resource → M ℕ
  unfolding unlock_resource
  unlock_resources id1 id2 since [] = pure 0
  unlock_resources id1 id2 since (r ∷ rs) = do
    let rest = unlock_resources id1 id2 since rs
    one ← unlock_resource id1 id2 since r
    more ← rest
    pure (one + more)

  -- `ReservationMap::unlock_either_id`
  unfoldable pub unlock_map : MacId → MacId → ReservationMap → M ℕ
  unfolding unlock_resources
  unlock_map id1 id2 m = unlock_resources id1 id2 m.num_slots_since_creation m.locked_resources

  -- `ReservationMap::unlock`, which returns nothing.
  abbrev pub unlock_map_id : MacId → ReservationMap → M (Unit {0})
  unlock_map_id id m = unlock_map id id m >>= λ _. pure tt

  abbrev pub is_expected : List Action → Action → Bool
  is_expected [] a = false
  is_expected (e ∷ es) a = action_eq e a || is_expected es a

  unfoldable pub unschedule_at : ℕ → List Action → TableId → ℤ → M ℕ
  unfolding mark
  unschedule_at depth expected i slot_offset = do
    res ← reads (λ h. get_reservation (h.tables i) slot_offset)
    if is_expected expected res.action
        then (mark depth i slot_offset unreserved >> pure 1)
        else throw invalid_argument

  -- One entry of `unschedule`; `depth` bounds the recursion of `mark`.
  unfoldable pub unschedule_resource : ℕ → List Action → ℕ → Resource → M ℕ
  unfolding unschedule_at
  unschedule_resource depth expected since r =
      if leb_ℤ (pos 0) (current_offset since r)
      then unschedule_at depth expected r.table (current_offset since r)
      else pure 0

  unfoldable pub unschedule_resources : ℕ → List Action → ℕ → List Resource → M ℕ
  unfolding unschedule_resource
  unschedule_resources depth expected since [] = pure 0
  unschedule_resources depth expected since (r ∷ rs) = do
    let rest = unschedule_resources depth expected since rs
    one ← unschedule_resource depth expected since r
    more ← rest
    pure (one + more)

  unfoldable pub unschedule : ℕ → List Action → ReservationMap → M ℕ
  unfolding unschedule_resources
  unschedule depth expected m =
      unschedule_resources depth expected m.num_slots_since_creation m.scheduled_resources

-- `closest_time_slot` and `best_match`
pub record Match : Type 0 where
  pub closest : ℤ
  pub best : Option TableId
  pub best_offset : ℤ

-- A round of the search: the slot is read also where its offset has passed.
abbrev pub better : (Reservation → Bool) → Heap → ℕ → Resource → Match → Result Match
better test h since r m =
    Result.◌>>=◌ (get_reservation (h.tables r.table) (current_offset since r)) λ res. ok (
      if leb_ℤ (pos 0) (current_offset since r)
        && (ltb_ℤ (current_offset since r) m.closest && test res)
      then record {
        closest = current_offset since r;
        best = some r.table;
        best_offset = current_offset since r;
      }
      else m)

unfoldable pub best_from : (Reservation → Bool) → Heap → ℕ → List Resource → Match → Result Match
best_from test h since [] m = ok m
best_from test h since (r ∷ rs) m =
    Result.◌>>=◌ (better test h since r m) (best_from test h since rs)

-- `std::numeric_limits<int>::max()`
abbrev pub no_match : Match
no_match = record { closest = pos 2147483647; best = none; best_offset = pos 0 }

unfoldable pub get_next_tx_reservation : Heap → ReservationMap → Result Match
unfolding best_from
get_next_tx_reservation h m =
    best_from is_tx h m.num_slots_since_creation m.scheduled_resources no_match

unfoldable pub get_next_rx_reservation : Heap → ReservationMap → Result Match
unfolding best_from
get_next_rx_reservation h m =
    best_from is_rx h m.num_slots_since_creation m.scheduled_resources no_match
