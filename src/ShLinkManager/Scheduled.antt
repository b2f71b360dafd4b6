-- ===== src/ShLinkManager/Scheduled.antt =====
-- The broadcast that is scheduled: which slot it gets, and what becomes of the tables.
use ldacs_mcsotdma.Prelude.{
  ℕ, suc, ◌<◌, ◌≤◌, ◌≡◌, refl, sym, ap, subst, ◌∙◌, ◌⊎◌, inl, inr, Bool, true, false, ◌&&◌, some, ℤ,
  pos, leb_ℤ, to_u32, to_i32, leb, arith, Bool-cases,
}
use ldacs_mcsotdma.Prelude.Result.{Result, ok, err, Error, runtime_error}
use ldacs_mcsotdma.Prelude.Calls.{proceed, put_back, returns, requires, when, ◌>>◌, ◌>>=◌}
use ldacs_mcsotdma.Reservation.{MacIds, Reservation, reserve, idle, tx}
use ldacs_mcsotdma.Table.{TableId, Heap, is_valid}
use ldacs_mcsotdma.Table.Index.{IsWellFormed}
use ldacs_mcsotdma.Table.State.{deref}
use ldacs_mcsotdma.Table.Mark.{mark}
use ldacs_mcsotdma.Table.Atomic.{IsReady, IsMarked, AllOrNothing, mark-AllOrNothing}
use ldacs_mcsotdma.DutyCycle.{Numbers}
use ldacs_mcsotdma.ShLinkManager.{
  ShLinkManager, Station, Mac, on_heap, set_manager, min_broadcast_offset,
}
use ldacs_mcsotdma.ShLinkManager.Broadcast.{
  mark_current, broadcast_slot_selection, scheduled, is_in_horizon, take_slot, select_and_mark,
  unschedule_broadcast_slot, schedule_broadcast_slot,
}
use ldacs_mcsotdma.ShLinkManager.Candidates.{IsSendable}
use ldacs_mcsotdma.ShLinkManager.Selected.{IsSelected, start, selection-IsSelected}

module _ ⦃numbers : Numbers⦄ ⦃ids : MacIds⦄ {S : Type 0} (mac : Mac S) where
  -- A broadcast that is scheduled: in a slot that could be sent in, which is marked in the table of
  -- the shared channel, while no slot at another offset has changed.
  pub record IsBroadcast (i : TableId) (s t : Station S) : Type 0 where
    pub scheduled : t.manager.next_broadcast_scheduled ≡ true
    pub sendable : IsSendable s.heap i t.manager.next_broadcast_slot
    pub marked :
        IsMarked (pos t.manager.next_broadcast_slot) i (reserve ids.broadcast tx) s.heap t.heap

  abbrev pub ScheduleOutcome : TableId → Station S → Result (Unit {0}) × Station S → Type 0
  ScheduleOutcome i s o =
      ((o.0 ≡ ok tt) × IsBroadcast i s o.1) ⊎ (e : Error) × (o.0 ≡ err e) × (o.1.heap ≡ s.heap)

  -- What the mark of the selected slot comes to.
  marked_outcome :
      (i : TableId) (n : ℕ) (s t : Station S) (o : Result ℕ × Heap)
      → t.manager.next_broadcast_scheduled ≡ true
      → t.manager.next_broadcast_slot ≡ n
      → IsSendable s.heap i n
      → AllOrNothing (pos n) i (reserve ids.broadcast tx) s.heap o
      → ScheduleOutcome i s
          (proceed {A = ℕ} (λ _. returns tt) (put_back (λ h. record t { heap = h }) o))
  marked_outcome i n s t (ok k, h) b at_n send (inl (k', e, m)) = inl (
    refl,
    record {
      scheduled = b;
      sendable = subst (IsSendable s.heap i) (sym at_n) send;
      marked = subst (λ k. IsMarked (pos k) i (reserve ids.broadcast tx) s.heap h) (sym at_n) m;
    },
  )
  marked_outcome i n s t (ok k, h) b at_n send (inr (e, bad)) =
      cc (ap (λ (o : Result ℕ × Heap). o.0) bad)
  marked_outcome i n s t (err x, h) b at_n send (inl (k, e, m)) = cc e
  marked_outcome i n s t (err x, h) b at_n send (inr (e, bad)) =
      inr (x, refl, ap (λ (o : Result ℕ × Heap). o.1) bad)

  mark_steps :
      (t : Station S) (i : TableId) (z : ℤ) (r : Reservation)
      → t.manager.base.current_reservation_table ≡ some i
      → mark_current mac z r t
        ≡ proceed {A = ℕ}
            (λ _. returns tt)
            (put_back (λ h. record t { heap = h }) (mark mac.depth i z r t.heap))
  unfolding mark_current
  mark_steps t i z r e =
      ap
        (λ o.
          proceed {A = TableId} (λ j. on_heap (mark mac.depth j z r) >> returns tt) (deref o, t))
        e

  in_table : (n k : ℕ) → n < k → leb n k ≡ true
  in_table n k lt = ground arith

  -- The slot that was selected is written down and marked.
  take_outcome :
      (depth : ℕ) (i : TableId) (s : Station S) (o : Result ℕ × Station S)
      → mac.depth ≡ suc (suc depth)
      → s.manager.base.current_reservation_table ≡ some i
      → IsWellFormed (s.heap.tables i)
      → ((z : ℤ) → is_valid (s.heap.tables i) z ≡ true → IsReady z i s.heap)
      → IsSelected mac i s o
      → ScheduleOutcome i s (proceed (take_slot mac) o)
  take_outcome depth i s (err e, t) deep table w ready k = inr (e, refl, k.heap)
  take_outcome depth i s (ok n, t) deep table w ready k =
      let send = k.slot n refl in
      let t1 = record t { manager = scheduled mac true n t.manager } in
      let r = reserve ids.broadcast tx in
      subst (ScheduleOutcome i s)
        (sym (
          mark_steps t1 i (to_i32 n) r
            (ap (λ (m : ShLinkManager). m.base.current_reservation_table) k.manager ∙ table)))
        (marked_outcome i n s t1 (mark mac.depth i (to_i32 n) r t.heap) refl refl send (
          subst (λ h. AllOrNothing (pos n) i r s.heap (mark mac.depth i (to_i32 n) r h))
            (sym k.heap)
            (subst (λ z. AllOrNothing (pos n) i r s.heap (mark mac.depth i z r s.heap))
              (sym (start mac n (omega (arith, send.0, w.short))))
              (subst (λ d. AllOrNothing (pos n) i r s.heap (mark d i (pos n) r s.heap)) (sym deep)
                (mark-AllOrNothing depth (pos n) i r s.heap
                  (ready (pos n) (in_table n _ send.0)))))))

  schedule_steps :
      (s : Station S)
      → s.manager.do_transmit ≡ true
      → s.manager.next_broadcast_scheduled ≡ false
      → schedule_broadcast_slot mac s ≡ select_and_mark mac s
  unfolding schedule_broadcast_slot unschedule_broadcast_slot
  schedule_steps s transmits unscheduled =
      ap (λ b. when b (unschedule_broadcast_slot mac >> select_and_mark mac) s) transmits
      ∙ ap
          (λ b.
            proceed {A = Unit {0}} (λ _. select_and_mark mac)
              (when b
                (mark_current mac (to_i32 s.manager.next_broadcast_slot) (reserve ids.unset idle)
                  >> set_manager (scheduled mac false 0))
                s))
          unscheduled

  in_range : (z : ℤ) (h : ℕ) → (leb (to_u32 z) h && leb_ℤ (pos 0) z) ≡ true → to_u32 z ≤ h
  in_range z h e = elim (Bool-cases (leb (to_u32 z) h)) [
    | inl le ↦ below (to_u32 z) h le
    | inr gt ↦ cc (rw gt at e)
  ]
    where
      below : (n k : ℕ) → leb n k ≡ true → n ≤ k
      below n k f = ground arith

  transmitted :
      (depth : ℕ) (i : TableId) (s : Station S)
      → mac.depth ≡ suc (suc depth)
      → mac.reservation_manager.planning_horizon < 2147483648
      → s.manager.do_transmit ≡ true
      → s.manager.next_broadcast_scheduled ≡ false
      → s.manager.base.current_reservation_table ≡ some i
      → IsWellFormed (s.heap.tables i)
      → ((z : ℤ) → is_valid (s.heap.tables i) z ≡ true → IsReady z i s.heap)
      → ScheduleOutcome i s (schedule_broadcast_slot mac s)
  unfolding select_and_mark
  transmitted depth i s deep short transmits unscheduled table w ready =
      subst (ScheduleOutcome i s) (sym (schedule_steps s transmits unscheduled))
        (from (min_broadcast_offset mac s))
    where
      checked :
          (z : ℤ) (b : Bool)
          → is_in_horizon mac z ≡ b
          → ScheduleOutcome i s (
              proceed (take_slot mac) (
                proceed {A = Unit {0}}
                  (λ _. broadcast_slot_selection mac (to_u32 z))
                  (requires b runtime_error s)))
      checked z false e = inr (runtime_error, refl, refl)
      checked z true e =
          take_outcome depth i s (broadcast_slot_selection mac (to_u32 z) s) deep table w ready (
            selection-IsSelected mac i (to_u32 z) s table w
              (omega (arith, short, in_range z mac.reservation_manager.planning_horizon e)))

      from :
          (r : Result ℤ)
          → ScheduleOutcome i s (
              proceed
                (λ z.
                  requires (is_in_horizon mac z) runtime_error
                  >> broadcast_slot_selection mac (to_u32 z)
                  >>= take_slot mac)
                (r, s))
      from (err e) = inr (e, refl, refl)
      from (ok z) = checked z (is_in_horizon mac z) refl

  -- A user that does not transmit has nothing scheduled, and nothing changes.
  abbrev pub BroadcastOutcome : TableId → Station S → Result (Unit {0}) × Station S → Type 0
  BroadcastOutcome i s o =
      ((s.manager.do_transmit ≡ true) × ScheduleOutcome i s o)
      ⊎ (s.manager.do_transmit ≡ false) × (o ≡ (ok tt, s))

  -- Scheduling a broadcast where none is scheduled, on a table that is ready at all of its slots and
  -- with a horizon of less than 2 ^ 31 slots. For a user that transmits, either the call returns, and
  -- the broadcast is in a slot in which the table and its transmitter were idle, which is now marked
  -- as a transmission in the table of the shared channel, while no slot at another offset has
  -- changed; or it throws, and no table has changed. For a user that does not transmit, it returns
  -- and nothing has changed.
  pub schedule_broadcast_holds :
      (depth : ℕ) (i : TableId) (s : Station S)
      → mac.depth ≡ suc (suc depth)
      → mac.reservation_manager.planning_horizon < 2147483648
      → s.manager.next_broadcast_scheduled ≡ false
      → s.manager.base.current_reservation_table ≡ some i
      → IsWellFormed (s.heap.tables i)
      → ((z : ℤ) → is_valid (s.heap.tables i) z ≡ true → IsReady z i s.heap)
      → BroadcastOutcome i s (schedule_broadcast_slot mac s)
  unfolding schedule_broadcast_slot
  schedule_broadcast_holds depth i s deep short unscheduled table w ready =
      elim (Bool-cases s.manager.do_transmit) [
        | inl yes' ↦ inl (yes', transmitted depth i s deep short yes' unscheduled table w ready)
        | inr no' ↦
            inr (no', ap (λ b. when b (unschedule_broadcast_slot mac >> select_and_mark mac) s) no')
      ]
