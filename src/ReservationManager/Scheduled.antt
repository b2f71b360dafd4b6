-- ===== src/ReservationManager/Scheduled.antt =====
-- What `scheduleBursts` writes, and what it leaves alone.
use mathlib.Core.List.{map-append}
use ldacs_mcsotdma.Prelude.{
  ℕ, suc, ◌<◌, ◌≡◌, sym, ap, subst, ◌∙◌, ◌⊎◌, inl, inr, not, ◌||◌, ◌==◌, List, ◌++◌, map, Option,
  some, ℤ, length, All, All-mono, Bool-cases,
}
use ldacs_mcsotdma.Prelude.Result.{Result, ok, err, Error, Result-cases, invalid_argument}
use ldacs_mcsotdma.Table.{TableId, ChannelId, Heap}
use ldacs_mcsotdma.Table.State.{◌>>=◌, guard, pure}
use ldacs_mcsotdma.Table.State
use ldacs_mcsotdma.Table.Atomic.{IsReady}
use ldacs_mcsotdma.ReservationMap.{Resource, ReservationMap}
use ldacs_mcsotdma.ReservationManager.{ReservationManager, get_reservation_table}
use ldacs_mcsotdma.ReservationManager.Schedule.{
  Progress, schedule_slots, Link, link_slots, first_action, second_action, link_target, nothing_yet,
  schedule_both, schedule_bursts,
}
use ldacs_mcsotdma.ReservationManager.Recorded.{record_all, resource, record_all-resources, counted}
use ldacs_mcsotdma.ReservationManager.Taken.{
  ok-injective, IsKept, IsKept-trans, IsReady-later, Holds, Holds-later,
}
use ldacs_mcsotdma.ReservationManager.Looped.{
  IsFrom, LoopOutcome, loop_outcome, action_direction, other_direction,
}

-- What the two loops together do.
abbrev BothOutcome : Link → TableId → Heap → Result Progress × Heap → Type 0
BothOutcome l i h o =
    IsKept (link_target l) i h o.1
    × ((p : Progress)
        → o.0 ≡ ok p
        → (firsts seconds : List ℤ) × (p
            ≡ record_all i (second_action l) seconds
                (record_all i (first_action l) firsts nothing_yet))
          × All (Holds (link_target l) (first_action l) i o.1) firsts
          × All (Holds (link_target l) (second_action l) i o.1) seconds
          × All (IsFrom (link_slots l).tx_slots) firsts
          × All (IsFrom (link_slots l).rx_slots) seconds)

-- Every slot of the link can be marked.
abbrev pub IsReadyFor : Link → TableId → Heap → Type 0
IsReadyFor l i h =
    All (λ z. IsReady z i h) (link_slots l).tx_slots
    × All (λ z. IsReady z i h) (link_slots l).rx_slots

both_outcome :
    (depth : ℕ) (m : ReservationManager) (i : TableId) (l : Link) (h : Heap)
    → IsReadyFor l i h
    → BothOutcome l i h (schedule_both (suc (suc depth)) m (some i) l h)
unfolding schedule_both
both_outcome depth m i l h ready = split (Result-cases one.0)
  where
    one : Result Progress × Heap
    one =
        schedule_slots (suc (suc depth)) m (some i) (link_target l) (first_action l)
          (link_slots l).tx_slots nothing_yet h

    first : LoopOutcome (link_target l) (first_action l) i (link_slots l).tx_slots nothing_yet h one
    first =
        loop_outcome depth m i (link_target l) (first_action l) (link_slots l).tx_slots nothing_yet
          h (action_direction l.is_link_initiator) ready.0

    split :
        ((p : Progress) × (one.0 ≡ ok p)) ⊎ ((e : Error) × (one.0 ≡ err e))
        → BothOutcome l i h (schedule_both (suc (suc depth)) m (some i) l h)
    split (inr (e, bad)) =
        let whole : one ≡ (err e, one.1) = ap (λ x. (x, one.1)) bad in
        rw whole (first.0, λ p' e'. cc)
    split (inl (p, fine)) =
        let whole : one ≡ (ok p, one.1) = ap (λ x. (x, one.1)) fine in
        let (firsts, eq, holds, from) = first.1 p fine in
        let (kept, rest) =
          loop_outcome depth m i (link_target l) (second_action l) (link_slots l).rx_slots p one.1
            (other_direction l.is_link_initiator)
            (All-mono (link_slots l).rx_slots (λ y r. IsReady-later y i h one.1 first.0.frame r)
              ready.1) in
        let h'' =
          (schedule_slots (suc (suc depth)) m (some i) (link_target l) (second_action l)
            (link_slots l).rx_slots p one.1).1 in
        rw whole (
          IsKept-trans (link_target l) i h one.1 h'' first.0 kept,
          λ p' e.
              let (seconds, eq', holds', from') = rest p' e in
              (
                firsts,
                seconds,
                eq' ∙ ap (record_all i (second_action l) seconds) eq,
                All-mono firsts
                    (λ z x.
                      Holds-later (link_target l) (first_action l) i one.1 h'' z
                        (action_direction l.is_link_initiator) kept x)
                    holds,
                holds',
                from,
                from',
              ),
        )

-- The entries of the map that is returned: some of the link's slots of each direction, at least
-- one of each, in the channel's table, where each holds the link's reservation of its direction.
abbrev pub IsScheduled : Link → TableId → Heap → ReservationMap → Type 0
IsScheduled l i h' map' =
    (firsts seconds : List ℤ) × (map'.scheduled_resources ≡ map (resource i) (firsts ++ seconds))
    × (0 < length firsts)
    × (0 < length seconds)
    × All (Holds (link_target l) (first_action l) i h') firsts
    × All (Holds (link_target l) (second_action l) i h') seconds
    × All (IsFrom (link_slots l).tx_slots) firsts
    × All (IsFrom (link_slots l).rx_slots) seconds

abbrev pub BurstsOutcome : Link → TableId → Heap → Result ReservationMap × Heap → Type 0
BurstsOutcome l i h o =
    IsKept (link_target l) i h o.1
    × ((map' : ReservationMap) → o.0 ≡ ok map' → IsScheduled l i o.1 map')

pub scheduled_map :
    (i : TableId) (l : Link) (h' : Heap) (p : Progress) (firsts seconds : List ℤ)
    → p ≡ record_all i (second_action l) seconds (record_all i (first_action l) firsts nothing_yet)
    → p.reservation_map.scheduled_resources ≡ map (resource i) (firsts ++ seconds)
scheduled_map i l h' p firsts seconds same =
    ap (λ (q : Progress). q.reservation_map.scheduled_resources) same
    ∙ record_all-resources i (second_action l) seconds
        (record_all i (first_action l) firsts nothing_yet)
    ∙ ap (λ (rs : List Resource). rs ++ map (resource i) seconds)
        (record_all-resources i (first_action l) firsts nothing_yet)
    ∙ sym (map-append (resource i) firsts seconds)

-- Where the link's channel has table `i`, and the table is ready at all slots of the link: whatever
-- the outcome, a slot of the table that is neither idle nor busy for the link's target reads as
-- before; and a map that is returned lists some of the link's slots of each direction, at least
-- one of each, each of which holds the link's reservation of that direction.
pub schedule_bursts_holds :
    (depth : ℕ) (m : ReservationManager) (channel : Option ChannelId) (i : TableId) (l : Link)
    (h : Heap)
    → get_reservation_table h m channel ≡ ok (some i)
    → IsReadyFor l i h
    → BurstsOutcome l i h (schedule_bursts (suc (suc depth)) m channel l h)
unfolding schedule_bursts
schedule_bursts_holds depth m channel i l h found ready = rw found (split (Result-cases both.0))
  where
    both : Result Progress × Heap
    both = schedule_both (suc (suc depth)) m (some i) l h

    outcome : BothOutcome l i h both
    outcome = both_outcome depth m i l h ready

    rest : Progress → State.M ReservationMap
    rest p =
        guard (not ((p.num_tx_scheduled == 0) || (p.num_rx_scheduled == 0))) invalid_argument
        >>= λ _. pure p.reservation_map

    split :
        ((p : Progress) × (both.0 ≡ ok p)) ⊎ ((e : Error) × (both.0 ≡ err e))
        → BurstsOutcome l i h (State.then_with rest both)
    split (inr (e, bad)) =
        let whole : both ≡ (err e, both.1) = ap (λ x. (x, both.1)) bad in
        rw whole (outcome.0, λ p' e'. cc)
    split (inl (p, fine)) =
        let whole : both ≡ (ok p, both.1) = ap (λ x. (x, both.1)) fine in
        let (firsts, seconds, eq, a, b, c, d) = outcome.1 p fine in
        rw whole (elim (Bool-cases (not ((p.num_tx_scheduled == 0) || (p.num_rx_scheduled == 0)))) [
          | inr none' ↦ rw none' (outcome.0, λ p' e'. cc)
          | inl enough ↦
              let (n1, n2) = counted i l.is_link_initiator firsts seconds p eq enough in
              rw enough (
                outcome.0,
                λ map' e'. subst (IsScheduled l i both.1) (ok-injective p.reservation_map map' e') (
                  firsts,
                  seconds,
                  scheduled_map i l both.1 p firsts seconds eq,
                  n1,
                  n2,
                  a,
                  b,
                  c,
                  d,
                ),
              )
        ])
