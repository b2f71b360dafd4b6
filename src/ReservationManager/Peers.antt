-- ===== src/ReservationManager/Peers.antt =====
-- The two ends of a link: what `scheduleBursts` makes of the same link at its initiator and at its
-- recipient, who call it in slots of their own.
use ldacs_mcsotdma.Prelude.{
  ℕ, suc, ◌+◌, ◌*◌, ◌≡◌, sym, ap, subst, ◌⊎◌, inl, inr, Bool, true, false, List, [], ◌∷◌, ◌++◌, map,
  Option, some, ℤ, pos, pos_part, arith, All, All-append, All-both, All-mono,
}
use ldacs_mcsotdma.Prelude.Result.{Result, ok}
use ldacs_mcsotdma.Reservation.{tx, rx, reserve, MacId, Action}
use ldacs_mcsotdma.Table.{TableId, ChannelId, Heap, get_reservation}
use ldacs_mcsotdma.Table.Free.{Any}
use ldacs_mcsotdma.SlotCalculator.{increment}
use ldacs_mcsotdma.SlotCalculator.Bursts.{IsBurst, alternating_bursts_places, bursts_apart, pow_pos}
use ldacs_mcsotdma.ReservationMap.{ReservationMap}
use ldacs_mcsotdma.ReservationManager.{ReservationManager, get_reservation_table}
use ldacs_mcsotdma.ReservationManager.Schedule.{
  Link, first_action, second_action, link_target, schedule_bursts,
}
use ldacs_mcsotdma.ReservationManager.Taken.{Holds}
use ldacs_mcsotdma.ReservationManager.Recorded.{resource}
use ldacs_mcsotdma.ReservationManager.Looped.{IsFrom}
use ldacs_mcsotdma.ReservationManager.Scheduled.{IsReadyFor, IsScheduled, schedule_bursts_holds}

-- The call for one end of the link, at a user for whom its first burst is `s` slots away.
abbrev pub end_of : Link → ℕ → Bool → Link
end_of l s is_initiator = record l { start_slot_offset = pos s; is_link_initiator = is_initiator }

abbrev pub IsListed : ReservationMap → ℤ → Type 0
IsListed m z = Any (λ r. r.slot_offset ≡ z) m.scheduled_resources

-- One end transmits to the other in its slot `a`, which the other receives in, its slot `b`; or
-- the other way round.
abbrev pub IsMirrored : Link → TableId → TableId → Heap → Heap → ℕ → ℕ → Type 0
IsMirrored l i i' h h' a b =
    ((get_reservation (h.tables i) (pos a) ≡ ok (reserve l.recipient_id tx))
      × (get_reservation (h'.tables i') (pos b) ≡ ok (reserve l.initiator_id rx)))
    ⊎ ((get_reservation (h.tables i) (pos a) ≡ ok (reserve l.recipient_id rx))
        × (get_reservation (h'.tables i') (pos b) ≡ ok (reserve l.initiator_id tx)))

-- A slot is the place of a burst of the initiator, or of one of the recipient, with the action.
abbrev IsPlaced : Link → ℕ → Action → Action → MacId → TableId → Heap → ℤ → Type 0
IsPlaced l s first second target i h z =
    (Holds target first i h z
      × IsBurst (increment l.period) (l.num_forward_bursts + l.num_reverse_bursts) 0
          l.num_forward_bursts l.timeout s z)
    ⊎ (Holds target second i h z
        × IsBurst (increment l.period) (l.num_forward_bursts + l.num_reverse_bursts)
            l.num_forward_bursts l.num_reverse_bursts l.timeout s z)

from_all : (P : ℤ → Type 0) (zs : List ℤ) (z : ℤ) → All P zs → IsFrom zs z → P z
from_all P (y ∷ ys) z all (inl e) = subst P (sym e) all.0
from_all P (y ∷ ys) z all (inr rest) = from_all P ys z all.1 rest
from_all P [] z all none_of = absurd none_of

listed_all :
    (P : ℤ → Type 0) (i : TableId) (zs : List ℤ) (z : ℤ)
    → All P zs
    → Any (λ r. r.slot_offset ≡ z) (map (resource i) zs)
    → P z
listed_all P i (y ∷ ys) z all (inl e) = subst P e all.0
listed_all P i (y ∷ ys) z all (inr rest) = listed_all P i ys z all.1 rest
listed_all P i [] z all none_of = absurd none_of

listed-IsPlaced :
    (l : Link) (s : ℕ) (is_initiator : Bool) (i : TableId) (h : Heap) (m : ReservationMap) (z : ℤ)
    → IsScheduled (end_of l s is_initiator) i h m
    → IsListed m z
    → IsPlaced l s
        (first_action (end_of l s is_initiator))
        (second_action (end_of l s is_initiator))
        (link_target (end_of l s is_initiator))
        i
        h
        z
listed-IsPlaced l s is_initiator i h m z (firsts, seconds, same, _, _, hold1, hold2, from1, from2)
      listed =
    let (_, _, places1, places2) =
      alternating_bursts_places s l.num_forward_bursts l.num_reverse_bursts l.period l.timeout in
    let e = end_of l s is_initiator in
    let Placed : ℤ → Type 0 = IsPlaced l s (first_action e) (second_action e) (link_target e) i h in
    listed_all Placed i (firsts ++ seconds) z
      (All-append Placed firsts seconds
        (All-mono firsts (λ y p. inl (p.0, from_all _ _ y places1 p.1))
          (All-both _ _ firsts hold1 from1))
        (All-mono seconds (λ y p. inr (p.0, from_all _ _ y places2 p.1))
          (All-both _ _ seconds hold2 from2)))
      (subst (λ rs. Any (λ r. r.slot_offset ≡ z) rs) same listed)

-- The same time is the same place in the link, seen from either end.
shifted :
    (inc per_exchange first count timeout s s' t t' a b : ℕ)
    → t + s ≡ t' + s'
    → t + a ≡ t' + b
    → IsBurst inc per_exchange first count timeout s' (pos b)
    → IsBurst inc per_exchange first count timeout s (pos a)
shifted inc per_exchange first count timeout s s' t t' a b starts same (e, n, he, hn, eq) =
    (e, n, he, hn, ap pos (shift (inc * (e * per_exchange + (first + n))) (ap pos_part eq)))
  where
    shift : (k : ℕ) → b ≡ s' + k → a ≡ s + k
    shift k at_b = omega arith

module _ (l : Link) (s s' t t' : ℕ) (i i' : TableId) (h h' : Heap) (a b : ℕ) where
  placed-IsMirrored :
      t + s ≡ t' + s'
      → t + a ≡ t' + b
      → IsPlaced l s tx rx l.recipient_id i h (pos a)
      → IsPlaced l s' rx tx l.initiator_id i' h' (pos b)
      → IsMirrored l i i' h h' a b
  placed-IsMirrored starts same (inl (holds, _)) (inl (holds', _)) = inl (holds.1, holds'.1)
  placed-IsMirrored starts same (inr (holds, _)) (inr (holds', _)) = inr (holds.1, holds'.1)
  placed-IsMirrored starts same (inl (_, burst)) (inr (_, burst')) = absurd (
      bursts_apart (increment l.period) l.num_forward_bursts l.num_reverse_bursts l.timeout s
        (pos a) (omega (arith, pow_pos l.period)) burst
        (shifted _ _ _ _ _ s s' t t' a b starts same burst'))
  placed-IsMirrored starts same (inr (_, burst)) (inl (_, burst')) = absurd (
      bursts_apart (increment l.period) l.num_forward_bursts l.num_reverse_bursts l.timeout s
        (pos a) (omega (arith, pow_pos l.period))
        (shifted _ _ _ _ _ s s' t t' a b starts same burst') burst)

-- A user at one end: the current slot, the first slot of the link counted from it, and what
-- `scheduleBursts` works on.
pub record User : Type 0 where
  pub now : ℕ
  pub first_burst : ℕ
  pub manager : ReservationManager
  pub channel : Option ChannelId
  pub table : TableId
  pub heap : Heap

abbrev pub call_at : ℕ → Link → Bool → User → Result ReservationMap × Heap
call_at depth l is_initiator u =
    schedule_bursts (suc (suc depth)) u.manager u.channel (end_of l u.first_burst is_initiator)
      u.heap

-- The table is that of the link's channel, and it can be marked at all slots of the link.
abbrev pub IsPrepared : Link → Bool → User → Type 0
IsPrepared l is_initiator u =
    (get_reservation_table u.heap u.manager u.channel ≡ ok (some u.table))
    × IsReadyFor (end_of l u.first_burst is_initiator) u.table u.heap

returned-IsPlaced :
    (depth : ℕ) (l : Link) (is_initiator : Bool) (u : User) (m : ReservationMap) (z : ℤ)
    → IsPrepared l is_initiator u
    → (call_at depth l is_initiator u).0 ≡ ok m
    → IsListed m z
    → IsPlaced l u.first_burst
        (first_action (end_of l u.first_burst is_initiator))
        (second_action (end_of l u.first_burst is_initiator))
        (link_target (end_of l u.first_burst is_initiator))
        u.table
        (call_at depth l is_initiator u).1
        z
returned-IsPlaced depth l is_initiator u m z (found, ready) returned =
    listed-IsPlaced l u.first_burst is_initiator u.table (call_at depth l is_initiator u).1 m z (
      (schedule_bursts_holds depth u.manager u.channel u.table (end_of l u.first_burst is_initiator)
          u.heap found ready).1
        m returned)

-- The initiator `u` and the recipient `v` call `scheduleBursts`, each at a time of its own, for the
-- same link with the same first slot, and at both ends the channel's table is ready at all slots of
-- the link. If both calls return, then in every slot that both maps list, one end transmits to the
-- other and the other receives from it: never do both transmit or both receive.
pub ends-IsMirrored :
    (depth : ℕ) (l : Link) (u v : User) (m n : ReservationMap) (a b : ℕ)
    → u.now + u.first_burst ≡ v.now + v.first_burst
    → IsPrepared l true u
    → IsPrepared l false v
    → (call_at depth l true u).0 ≡ ok m
    → (call_at depth l false v).0 ≡ ok n
    → u.now + a ≡ v.now + b
    → IsListed m (pos a)
    → IsListed n (pos b)
    → IsMirrored l u.table v.table (call_at depth l true u).1 (call_at depth l false v).1 a b
ends-IsMirrored depth l u v m n a b starts ready ready' returned returned' same listed listed' =
    placed-IsMirrored l u.first_burst v.first_burst u.now v.now u.table v.table
      (call_at depth l true u).1 (call_at depth l false v).1 a b starts same
      (returned-IsPlaced depth l true u m (pos a) ready returned listed)
      (returned-IsPlaced depth l false v n (pos b) ready' returned' listed')
