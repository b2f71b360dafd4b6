-- ===== src/PpLinkManager/Cancelled.antt =====
-- What `cancelLink` leaves behind.
use ldacs_mcsotdma.Prelude.{ℕ, ◌≡◌, refl, ap, ◌∙◌, [], ◌∷◌}
use ldacs_mcsotdma.Prelude.Result.{ok}
use ldacs_mcsotdma.Prelude.Calls.{proceed, put_back}
use ldacs_mcsotdma.Reservation.{MacIds, tx, rx}
use ldacs_mcsotdma.Table.{Heap}
use ldacs_mcsotdma.ReservationMap.{ReservationMap, unlock_map, unschedule}
use ldacs_mcsotdma.PpLinkManager.{Mac, Site, set_link}
use ldacs_mcsotdma.PpLinkManager.Handlers.{
  closed, unlock_own, unschedule_own, cancel_messages, cancel_link,
}

module _ ⦃ids : MacIds⦄ {S : Type 0} (mac : Mac S) where
  -- The state after the cancellation of a link, on the heap that its unlocking leaves.
  abbrev pub cancelled : Heap → Site S → Site S
  cancelled h s = record {
    link = closed mac s.link;
    world = record {
      heap = h;
      rest =
          mac.cancel_link_reply s.link.base.link_id
            (mac.cancel_link_request s.link.base.link_id s.world.rest);
    };
  }

  abbrev on_heap_of : Heap → Site S → Site S
  on_heap_of h s = record s { world = record { heap = h; rest = s.world.rest } }

  none_scheduled :
      (depth : ℕ) (m : ReservationMap) (h : Heap)
      → m.scheduled_resources ≡ []
      → unschedule depth (tx ∷ rx ∷ []) m h ≡ (ok 0, h)
  unfolding unschedule
  none_scheduled depth m h e = rw e refl

  unscheduled :
      (s : Site S)
      → s.link.reserved_resources.scheduled_resources ≡ []
      → unschedule_own mac s ≡ (ok 0, s)
  unfolding unschedule_own
  unscheduled s e =
      ap (put_back (λ h. on_heap_of h s))
        (none_scheduled mac.depth s.link.reserved_resources s.world.heap e)

  unlocked :
      (s : Site S) (h : Heap) (n : ℕ)
      → unlock_map mac.own_id s.link.base.link_id s.link.reserved_resources s.world.heap ≡ (ok n, h)
      → unlock_own mac s ≡ (ok n, on_heap_of h s)
  unfolding unlock_own
  unlocked s h n e = ap (put_back (λ h. on_heap_of h s)) e

  pub cancel_steps :
      (s : Site S) (h : Heap) (n : ℕ)
      → unlock_map mac.own_id s.link.base.link_id s.link.reserved_resources s.world.heap ≡ (ok n, h)
      → s.link.reserved_resources.scheduled_resources ≡ []
      → cancel_link mac s ≡ (ok tt, cancelled h s)
  unfolding cancel_link
  cancel_steps s h n e none' =
      let fourth = proceed {A = Unit {0}} {B = Unit {0}} (λ _. cancel_messages mac) in
      let third = proceed {A = ℕ} {B = Unit {0}} (λ _. set_link (closed mac)) in
      let second = proceed {A = ℕ} {B = ℕ} (λ _. unschedule_own mac) in
      ap (λ o. fourth (third (second o))) (unlocked s h n e)
      ∙ ap (λ o. fourth (third o)) (unscheduled (on_heap_of h s) none')
