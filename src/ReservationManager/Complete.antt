-- ===== src/ReservationManager/Complete.antt =====
-- Where all slots of a link are free, `scheduleBursts` schedules all of them.
use ldacs_mcsotdma.Prelude.{
  ℕ, suc, ◌+◌, ◌*◌, ◌<◌, ◌≡◌, ◌≢◌, refl, sym, ap, subst, ◌∙◌, Bool, true, false, not, ◌||◌, ◌==◌,
  List, ◌++◌, map, Option, some, ℤ, pos, arith, length, All, if◌then◌else◌,
}
use ldacs_mcsotdma.Prelude.Result.{Result, ok}
use ldacs_mcsotdma.Reservation.{Action, tx, rx}
use ldacs_mcsotdma.Table.{TableId, ChannelId, Heap}
use ldacs_mcsotdma.Table.State.{◌>>=◌}
use ldacs_mcsotdma.SlotCalculator.{calculate_alternating_bursts}
use ldacs_mcsotdma.SlotCalculator.Distinct.{Distinct, alternating_bursts-Distinct}
use ldacs_mcsotdma.SlotCalculator.Bursts.{alternating_bursts_disjoint, alternating_bursts_places}
use ldacs_mcsotdma.ReservationMap.{ReservationMap}
use ldacs_mcsotdma.ReservationManager.{ReservationManager, get_reservation_table}
use ldacs_mcsotdma.ReservationManager.Schedule.{
  schedule_slots, Link, link_slots, first_action, second_action, link_target, nothing_yet,
  schedule_both, schedule_bursts,
}
use ldacs_mcsotdma.ReservationManager.Taken.{Holds}
use ldacs_mcsotdma.ReservationManager.Recorded.{record_all, record_all-tx, record_all-rx, resource}
use ldacs_mcsotdma.ReservationManager.Scheduled.{scheduled_map, IsReadyFor}
use ldacs_mcsotdma.ReservationManager.Open.{direction, IsOpen, IsWired}
use ldacs_mcsotdma.ReservationManager.Loops.{both-IsBothDone}

both_counted :
    (a b c d : ℕ) → a ≡ 0 + c → b ≡ 0 + d → 0 < c → 0 < d → not ((a == 0) || (b == 0)) ≡ true
both_counted a b c d e f p q = ground arith

enough :
    (b : Bool) (i : TableId) (xs ys : List ℤ)
    → 0 < length xs
    → 0 < length ys
    → let p = record_all i (direction (not b)) ys (record_all i (direction b) xs nothing_yet) in
      not ((p.num_tx_scheduled == 0) || (p.num_rx_scheduled == 0)) ≡ true
enough true i xs ys some_xs some_ys =
    let (t, r) = record_all-tx i xs nothing_yet in
    let (t', r') = record_all-rx i ys (record_all i tx xs nothing_yet) in
    both_counted _ _ (length xs) (length ys) (t' ∙ t) (r' ∙ ap (λ n. n + length ys) r) some_xs
      some_ys
enough false i xs ys some_xs some_ys =
    let (t, r) = record_all-rx i xs nothing_yet in
    let (t', r') = record_all-tx i ys (record_all i rx xs nothing_yet) in
    both_counted _ _ (length ys) (length xs) (t' ∙ ap (λ n. n + length ys) t) (r' ∙ r) some_ys
      some_xs

other_action : (b : Bool) → direction (not b) ≡ (if b then rx else tx)
other_action true = refl
other_action false = refl

-- Each slot of the link is free for what its user does there.
abbrev pub IsFreeFor : Link → TableId → Heap → Type 0
IsFreeFor l i h =
    All (IsOpen l.is_link_initiator h i) (link_slots l).tx_slots
    × All (IsOpen (not l.is_link_initiator) h i) (link_slots l).rx_slots

-- The map lists all slots of the link, and each holds the reservation of its direction.
abbrev pub IsComplete : Link → TableId → Result ReservationMap × Heap → Type 0
IsComplete l i o =
    (m : ReservationMap) × (o.0 ≡ ok m)
    × (m.scheduled_resources
        ≡ map (resource i) ((link_slots l).tx_slots ++ (link_slots l).rx_slots))
    × All (Holds (link_target l) (first_action l) i o.1) (link_slots l).tx_slots
    × All (Holds (link_target l) (second_action l) i o.1) (link_slots l).rx_slots

link_facts :
    (l : Link) (s : ℕ)
    → l.start_slot_offset ≡ pos s
    → Distinct (link_slots l).tx_slots
      × Distinct (link_slots l).rx_slots
      × All (λ x. All (λ y. x ≢ y) (link_slots l).rx_slots) (link_slots l).tx_slots
      × (length (link_slots l).tx_slots ≡ l.timeout * l.num_forward_bursts)
      × (length (link_slots l).rx_slots ≡ l.timeout * l.num_reverse_bursts)
link_facts l s starts =
    let f = l.num_forward_bursts in
    let r = l.num_reverse_bursts in
    let p = l.period in
    let t = l.timeout in
    let (d, d') = alternating_bursts-Distinct s f r p t in
    let (n, n', _, _) = alternating_bursts_places s f r p t in
    subst
      (λ z.
        let slots = calculate_alternating_bursts z f r p t in
        Distinct slots.tx_slots
        × Distinct slots.rx_slots
        × All (λ x. All (λ y. x ≢ y) slots.rx_slots) slots.tx_slots
        × (length slots.tx_slots ≡ t * f)
        × (length slots.rx_slots ≡ t * r))
      (sym starts) (d, d', alternating_bursts_disjoint s f r p t, n, n')

-- What the loops come to, by the action of the second.
abbrev LoopsDone : ℕ → ReservationManager → TableId → Link → Heap → Action → Type 0
LoopsDone depth m i l h second =
    let xs = (link_slots l).tx_slots in
    let ys = (link_slots l).rx_slots in
    let target = link_target l in
    let p = record_all i second ys (record_all i (first_action l) xs nothing_yet) in
    let o =
      (schedule_slots (suc (suc depth)) m (some i) target (first_action l) xs nothing_yet
          >>= schedule_slots (suc (suc depth)) m (some i) target second ys)
        h in
    (o.0 ≡ ok p)
    × All (Holds target (first_action l) i o.1) xs
    × All (Holds target second i o.1) ys
    × (not ((p.num_tx_scheduled == 0) || (p.num_rx_scheduled == 0)) ≡ true)

loops_done :
    (depth : ℕ) (m : ReservationManager) (i : TableId) (l : Link) (s : ℕ) (h : Heap)
    → IsReadyFor l i h
    → IsWired m i h
    → IsFreeFor l i h
    → l.start_slot_offset ≡ pos s
    → 0 < l.timeout * l.num_forward_bursts
    → 0 < l.timeout * l.num_reverse_bursts
    → LoopsDone depth m i l h (second_action l)
loops_done depth m i l s h ready wired free starts forward reverse =
    let xs = (link_slots l).tx_slots in
    let ys = (link_slots l).rx_slots in
    let (d, d', apart, n, n') = link_facts l s starts in
    let done =
      both-IsBothDone depth l.is_link_initiator (not l.is_link_initiator) m i (link_target l) xs ys
        h d d' apart wired ready.0 ready.1 free.0 free.1 in
    subst (LoopsDone depth m i l h) (other_action l.is_link_initiator) (
      done.returned,
      done.firsts,
      done.seconds,
      enough l.is_link_initiator i xs ys (omega arith) (omega arith),
    )

-- For a link with bursts of both users that starts now or later, on a channel whose table is linked
-- to the manager's hardware and ready at all slots of the link: if each slot of the link is idle
-- in the table and at the hardware that it takes, `scheduleBursts` returns a map that lists all of
-- them, and each holds the reservation of its direction.
pub schedule_bursts-IsComplete :
    (depth : ℕ) (m : ReservationManager) (channel : Option ChannelId) (i : TableId) (l : Link)
    (s : ℕ) (h : Heap)
    → get_reservation_table h m channel ≡ ok (some i)
    → IsReadyFor l i h
    → IsWired m i h
    → IsFreeFor l i h
    → l.start_slot_offset ≡ pos s
    → 0 < l.timeout * l.num_forward_bursts
    → 0 < l.timeout * l.num_reverse_bursts
    → IsComplete l i (schedule_bursts (suc (suc depth)) m channel l h)
unfolding schedule_bursts schedule_both
schedule_bursts-IsComplete depth m channel i l s h found ready wired free starts forward reverse =
    let (fine, firsts, seconds, both) =
      loops_done depth m i l s h ready wired free starts forward reverse in
    let o = schedule_both (suc (suc depth)) m (some i) l h in
    let p =
      record_all i (second_action l) (link_slots l).rx_slots
        (record_all i (first_action l) (link_slots l).tx_slots nothing_yet) in
    let whole : o ≡ (ok p, o.1) = ap (λ x. (x, o.1)) fine in
    rw found (
      rw whole (
        rw both (
          p.reservation_map,
          refl,
          scheduled_map i l o.1 p (link_slots l).tx_slots (link_slots l).rx_slots refl,
          firsts,
          seconds,
        )))
