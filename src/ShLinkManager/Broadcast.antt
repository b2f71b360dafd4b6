-- ===== src/ShLinkManager/Broadcast.antt =====
-- SHLinkManager.cpp: when the next broadcast is sent, and what a collision does about it.
use ldacs_mcsotdma.Prelude.{
  ℕ, ◌+◌, ◌-◌, ◌%◌, Bool, true, false, not, ◌&&◌, ◌||◌, ◌==◌, leb, List, [], ◌∷◌, ◌++◌, length,
  Option, none, some, ℤ, pos, leb_ℤ, to_u32, to_i32, u32_mod, if◌then◌else◌,
}
use ldacs_mcsotdma.Prelude.Result.{Result, ok, err, Error, runtime_error}
use ldacs_mcsotdma.Prelude.Result
use ldacs_mcsotdma.Prelude.Calls.{returns, ◌>>=◌, ◌>>◌, asks, changes, requires, when}
use ldacs_mcsotdma.Reservation.{
  MacId, MacIds, Action, Reservation, reserve, idle, rx, tx, is_idle, is_busy, is_tx, is_beacon_tx,
}
use ldacs_mcsotdma.Table.{TableId, get_reservation}
use ldacs_mcsotdma.Table.State.{deref}
use ldacs_mcsotdma.Table.Mark.{mark}
use ldacs_mcsotdma.Table.Find.{find_sh_candidates}
use ldacs_mcsotdma.MovingAverage.{MovingAverage}
use ldacs_mcsotdma.MovingAverage
use ldacs_mcsotdma.DutyCycle.{Numbers, at, get_offset_sh}
use ldacs_mcsotdma.LinkManager.{
  reset_flags, is_packet_missing, note_missing_packet, or_runtime_error,
}
use ldacs_mcsotdma.ShLinkManager.{
  ShLinkManager, Station, Sh, Mac, on_heap, on_rest, set_manager, get_num_candidate_slots,
  min_broadcast_offset,
}

module _ ⦃numbers : Numbers⦄ ⦃ids : MacIds⦄ {S : Type 0} (mac : Mac S) where
  abbrev pub current_table : Station S → Result TableId
  current_table s = deref s.manager.base.current_reservation_table

  -- The table is set, or a `runtime_error` is thrown.
  abbrev pub set_table : Station S → Result TableId
  set_table s = elim s.manager.base.current_reservation_table [
    | none ↦ err runtime_error
    | some i ↦ ok i
  ]

  -- `mark` on the current table.
  unfoldable pub mark_current : ℤ → Reservation → Sh S (Unit {0})
  unfolding mark
  mark_current slot_offset r =
      asks current_table >>= λ i. on_heap (mark mac.depth i slot_offset r) >> returns tt

  abbrev pub is_none : List ℤ → Bool
  is_none [] = true
  is_none (_ ∷ _) = false

  -- One of the candidates at random, as an unsigned number.
  abbrev pub pick : List ℤ → Sh S ℕ
  pick slots =
      or_runtime_error (on_rest (mac.random_int (length slots)) >>= λ k. asks (λ s. at slots k))
      >>= λ z. returns (to_u32 z)

  abbrev pub select_from : List ℤ → Sh S ℕ
  select_from slots = requires (not (is_none slots)) runtime_error >> pick slots

  abbrev pub select_among : TableId → ℕ → ℕ → Sh S ℕ
  select_among i min_offset num_candidates =
      asks (λ s. find_sh_candidates s.heap i num_candidates (to_i32 min_offset)) >>= select_from

  abbrev pub select_in : ℕ → TableId → Sh S ℕ
  select_in min_offset i =
      asks (λ s. get_num_candidate_slots s.manager s.observer) >>= select_among i min_offset

  -- `broadcastSlotSelection`
  unfoldable pub broadcast_slot_selection : ℕ → Sh S ℕ
  unfolding get_num_candidate_slots find_sh_candidates at
  broadcast_slot_selection min_offset = asks set_table >>= select_in min_offset

  abbrev pub scheduled : Bool → ℕ → ShLinkManager → ShLinkManager
  scheduled b slot lm = record lm { next_broadcast_scheduled = b; next_broadcast_slot = slot }

  -- `unscheduleBroadcastSlot`
  unfoldable pub unschedule_broadcast_slot : Sh S (Unit {0})
  unfolding mark_current
  unschedule_broadcast_slot s =
      when s.manager.next_broadcast_scheduled
        (mark_current (to_i32 s.manager.next_broadcast_slot) (reserve ids.unset idle)
          >> set_manager (scheduled false 0))
        s

  abbrev pub is_in_horizon : ℤ → Bool
  is_in_horizon z = leb (to_u32 z) mac.reservation_manager.planning_horizon && leb_ℤ (pos 0) z

  -- The slot that was selected is written down, and then marked.
  abbrev pub take_slot : ℕ → Sh S (Unit {0})
  take_slot slot =
      set_manager (scheduled true slot) >> mark_current (to_i32 slot) (reserve ids.broadcast tx)

  unfoldable pub select_and_mark : Sh S (Unit {0})
  unfolding get_offset_sh broadcast_slot_selection mark_current
  select_and_mark = asks (min_broadcast_offset mac) >>= λ min_offset.
      requires (is_in_horizon min_offset) runtime_error
      >> broadcast_slot_selection (to_u32 min_offset)
      >>= take_slot

  -- `scheduleBroadcastSlot`
  unfoldable pub schedule_broadcast_slot : Sh S (Unit {0})
  unfolding unschedule_broadcast_slot select_and_mark
  schedule_broadcast_slot s =
      when s.manager.do_transmit (unschedule_broadcast_slot >> select_and_mark) s

  abbrev first_access : Station S → ShLinkManager → ShLinkManager
  first_access s lm =
      if lm.base.time_slot_of_last_channel_access == 0
      then record lm {
        base = record (lm.base) {
          time_slot_of_last_channel_access = mac.current_slot s.rest % u32_mod;
        };
      }
      else lm

  -- `notifyOutgoing`, which does not read the number of bits.
  unfoldable pub notify_sh_outgoing : Sh S (Unit {0})
  unfolding schedule_broadcast_slot
  notify_sh_outgoing =
      set_manager (λ lm. record lm { packet_generated_this_slot = true })
      >> asks (λ s. ok s.manager.next_broadcast_scheduled)
      >>= λ b.
          when (not b) (or_runtime_error schedule_broadcast_slot)
          >> changes (λ s. record s { manager = first_access s s.manager })

  -- `sendLinkRequest`
  unfoldable pub send_link_request : MacId → Sh S (Unit {0})
  unfolding notify_sh_outgoing
  send_link_request dest_id =
      changes (λ s. record s {
        manager = record (s.manager) {
          link_requests =
              s.manager.link_requests
              ++ record { dest_id = dest_id; generation_time = mac.current_slot s.rest } ∷ [];
        };
      })
      >> notify_sh_outgoing

  -- One slot less until the broadcast, which must not have passed.
  abbrev count_down_slot : Sh S (Unit {0})
  count_down_slot s =
      if s.manager.next_broadcast_scheduled
      then (if s.manager.next_broadcast_slot == 0 then (err runtime_error, s) else (
        ok tt,
        record s {
          manager = record (s.manager) { next_broadcast_slot = s.manager.next_broadcast_slot - 1 };
        },
      ))
      else (ok tt, record s { manager = record (s.manager) { next_broadcast_slot = 0 } })

  abbrev sends_at : Option TableId → Station S → Result Bool
  sends_at tbl s = Result.◌>>=◌ (deref tbl) λ i.
      Result.◌>>=◌ (get_reservation (s.heap.tables i) (to_i32 s.manager.next_broadcast_slot))
        λ r. ok (is_tx r)

  -- The broadcast that is scheduled is in both tables.
  unfoldable pub is_broadcast_marked : Station S → Result Bool
  is_broadcast_marked s =
      Result.◌>>=◌ (sends_at mac.reservation_manager.hardware_tx_table s)
        λ b. if b then sends_at mac.reservation_manager.broadcast_reservation_table s else ok false

  unfoldable pub check_or_schedule : Sh S (Unit {0})
  unfolding is_broadcast_marked schedule_broadcast_slot
  check_or_schedule s =
      (if s.manager.next_broadcast_scheduled
          then (asks is_broadcast_marked >>= λ b. requires b runtime_error)
          else schedule_broadcast_slot)
        s

  -- The current slot is one to listen in, if there is nothing else to do.
  unfoldable pub listen : Sh S (Unit {0})
  unfolding mark_current
  listen =
      asks (λ s. Result.◌>>=◌ (current_table s) λ i. get_reservation (s.heap.tables i) (pos 0))
      >>= λ r.
          when (is_idle r || is_busy r)
            (or_runtime_error (mark_current (pos 0) (reserve ids.broadcast rx)))

  -- `onSlotStart`
  unfoldable pub on_sh_slot_start : ℕ → Sh S (Unit {0})
  unfolding check_or_schedule listen
  on_sh_slot_start num_slots =
      set_manager (λ lm. record lm { base = reset_flags lm.base })
      >> count_down_slot
      >> check_or_schedule
      >> listen

  unfoldable pub report_missing_sh : Sh S (Unit {0})
  report_missing_sh s =
      (set_manager (λ lm. record lm { base = note_missing_packet lm.base })
          >> when (is_packet_missing s.manager.base)
              (on_rest (changes (mac.report_missing_packet s.manager.base.link_id))))
        s

  abbrev with_average :
      Station S → Result (Unit {0}) × MovingAverage → Result (Unit {0}) × Station S
  with_average s (ok u, average) = (
    ok tt,
    record s {
      manager = record (s.manager) {
        avg_num_slots_inbetween_packet_generations = average;
        num_slots_since_last_packet_generation = 0;
        packet_generated_this_slot = false;
      };
    },
  )
  with_average s (err e, average) = (
    err e,
    record s {
      manager = record (s.manager) {
        avg_num_slots_inbetween_packet_generations = average;
        packet_generated_this_slot = false;
      };
    },
  )

  unfoldable pub count_generation : Sh S (Unit {0})
  unfolding MovingAverage.put
  count_generation s =
      if s.manager.packet_generated_this_slot
      then with_average s (
          MovingAverage.put ((s.manager.num_slots_since_last_packet_generation + 1) % u32_mod)
            s.manager.avg_num_slots_inbetween_packet_generations)
      else (
        ok tt,
        record s {
          manager = record (s.manager) {
            num_slots_since_last_packet_generation =
                (s.manager.num_slots_since_last_packet_generation + 1) % u32_mod;
          };
        },
      )

  -- `onSlotEnd`, which calls that of `LinkManager` twice.
  unfoldable pub on_sh_slot_end : Sh S (Unit {0})
  unfolding report_missing_sh count_generation
  on_sh_slot_end = report_missing_sh >> count_generation >> report_missing_sh

  -- `broadcastCollisionDetected`
  unfoldable pub broadcast_collision_detected : MacId → Action → Sh S (Unit {0})
  unfolding unschedule_broadcast_slot mark_current schedule_broadcast_slot
  broadcast_collision_detected collider_id mark_as =
      asks (λ s. ok s.manager.next_broadcast_slot) >>= λ slot.
      unschedule_broadcast_slot
      >> mark_current (to_i32 slot) (reserve collider_id mark_as)
      >> or_runtime_error schedule_broadcast_slot

  -- `reportThirdPartyExpectedLinkReply`
  unfoldable pub report_third_party_expected_link_reply : ℤ → MacId → Sh S (Unit {0})
  unfolding broadcast_collision_detected mark_current
  report_third_party_expected_link_reply slot_offset sender_id =
      asks (λ s. Result.◌>>=◌ (current_table s) λ i. get_reservation (s.heap.tables i) slot_offset)
      >>= λ res.
          if is_tx res
          then broadcast_collision_detected sender_id rx
          else if is_beacon_tx res
          then returns tt
          else mark_current slot_offset (reserve sender_id rx)
