-- ===== src/ThirdPartyLink/Reset.antt =====
-- What the reset of a link that awaits its reply leaves behind.
use ldacs_mcsotdma.Prelude.{ℕ, ◌≡◌, ap, ◌∙◌, [], All, All-mono}
use ldacs_mcsotdma.Prelude.Result.{ok}
use ldacs_mcsotdma.Reservation.{MacId, MacIds}
use ldacs_mcsotdma.Table.{Heap}
use ldacs_mcsotdma.ReservationMap.{Resource, unlock_map, unschedule_resources}
use ldacs_mcsotdma.ReservationMap.Released.{
  IsFormedHeap, IsReleased, IsReleased-trans, IsReleased-formed,
}
use ldacs_mcsotdma.ReservationMap.Unlocked.{
  IsDue, HoldsMine, IsFreed, IsDue-later, mine_later, IsFreed-later, unlock_map_frees,
}
use ldacs_mcsotdma.ThirdPartyLink.{
  ThirdPartyLink, Mac, uninitialized, third_party_link, with_link, continue_with, set_link,
}
use ldacs_mcsotdma.ThirdPartyLink.Handlers.{
  unlock_initiator, unlock_recipient, unschedule_busy, reset, cleared,
}

-- An entry that was due and held a lock of one of the two, or nothing, is unreserved afterwards.
abbrev pub IsGivenBack : ⦃ids : MacIds⦄ → MacId → MacId → ℕ → Heap → Heap → Resource → Type 0
IsGivenBack id1 id2 since h h' r =
    IsDue since r h → HoldsMine id1 id2 since r h → IsFreed since r h'

module _ ⦃ids : MacIds⦄ (depth : ℕ) (mac : Mac) where
  initiator_step :
      (link : ThirdPartyLink) (h h1 : Heap) (n : ℕ)
      → unlock_map link.id_link_initiator link.id_link_recipient link.locked_resources_for_initiator
          h
        ≡ (ok n, h1)
      → unlock_initiator link h ≡ (ok n, (link, h1))
  unfolding unlock_initiator
  initiator_step link h h1 n e = ap (with_link link) e

  recipient_step :
      (link : ThirdPartyLink) (h h1 : Heap) (n : ℕ)
      → unlock_map link.id_link_recipient link.id_link_initiator link.locked_resources_for_recipient
          h
        ≡ (ok n, h1)
      → unlock_recipient link h ≡ (ok n, (link, h1))
  unfolding unlock_recipient
  recipient_step link h h1 n e = ap (with_link link) e

  nothing_scheduled :
      (link : ThirdPartyLink) (h : Heap)
      → link.scheduled_resources.scheduled_resources ≡ []
      → unschedule_busy depth link h ≡ (ok 0, (link, h))
  unfolding unschedule_busy
  nothing_scheduled link h e = rw (e, unschedule_resources)

  -- With nothing scheduled, and both releases ending well, the reset is the three steps.
  reset_steps :
      (link : ThirdPartyLink) (h h1 h2 : Heap) (n1 n2 : ℕ)
      → unlock_map link.id_link_initiator link.id_link_recipient link.locked_resources_for_initiator
          h
        ≡ (ok n1, h1)
      → unlock_map link.id_link_recipient link.id_link_initiator link.locked_resources_for_recipient
          h1
        ≡ (ok n2, h2)
      → link.scheduled_resources.scheduled_resources ≡ []
      → reset depth mac link h
        ≡ (ok tt, (third_party_link mac link.id_link_initiator link.id_link_recipient, h2))
  unfolding reset
  reset_steps link h h1 h2 n1 n2 a b none' =
      let start = record link { status = uninitialized } in
      let last = continue_with {A = ℕ} {B = Unit {0}} (λ _. set_link (cleared mac)) in
      let third = continue_with {A = ℕ} {B = ℕ} (λ _. unschedule_busy depth) in
      let second = continue_with {A = ℕ} {B = ℕ} (λ _. unlock_recipient) in
      ap (λ o. last (third (second o))) (initiator_step start h h1 n1 a)
      ∙ ap (λ o. last (third o)) (recipient_step start h1 h2 n2 b)
      ∙ ap last (nothing_scheduled start h2 none')

  -- Resetting a link that has scheduled nothing, on well-formed tables, throws nothing: the link is
  -- as it was made; no table changes but in slots that were locked or idle, which become
  -- unreserved; and the slot of every locked entry of the link that is off the shared channel and
  -- still to come is unreserved, if it was locked for one of the link's two users or unreserved.
  pub reset_releases :
      (link : ThirdPartyLink) (h : Heap)
      → IsFormedHeap h
      → link.scheduled_resources.scheduled_resources ≡ []
      → (h' : Heap) × (reset depth mac link h
          ≡ (ok tt, (third_party_link mac link.id_link_initiator link.id_link_recipient, h')))
        × IsReleased h h'
        × All
            (IsGivenBack link.id_link_initiator link.id_link_recipient
              link.locked_resources_for_initiator.num_slots_since_creation h h')
            link.locked_resources_for_initiator.locked_resources
        × All
            (IsGivenBack link.id_link_recipient link.id_link_initiator
              link.locked_resources_for_recipient.num_slots_since_creation h h')
            link.locked_resources_for_recipient.locked_resources
  reset_releases link h w none' =
      let mi = link.locked_resources_for_initiator in
      let mr = link.locked_resources_for_recipient in
      let first = unlock_map link.id_link_initiator link.id_link_recipient mi h in
      let ((n1, fine1, _), freed1, posts1) =
        unlock_map_frees link.id_link_initiator link.id_link_recipient mi h w in
      let second = unlock_map link.id_link_recipient link.id_link_initiator mr first.1 in
      let ((n2, fine2, _), freed2, posts2) =
        unlock_map_frees link.id_link_recipient link.id_link_initiator mr first.1
          (IsReleased-formed h first.1 freed1 w) in
      (
        second.1,
        reset_steps link h first.1 second.1 n1 n2 (ap (λ x. (x, first.1)) fine1)
            (ap (λ x. (x, second.1)) fine2) none',
        IsReleased-trans h first.1 second.1 freed1 freed2,
        All-mono mi.locked_resources
            (λ r p due mine.
              IsFreed-later mi.num_slots_since_creation r first.1 second.1 freed2
                (IsDue-later mi.num_slots_since_creation r h first.1 freed1 due).valid (p due mine))
            posts1,
        All-mono mr.locked_resources
            (λ r p due mine. p (IsDue-later mr.num_slots_since_creation r h first.1 freed1 due) (
              mine_later link.id_link_recipient link.id_link_initiator mr.num_slots_since_creation r
                h first.1 freed1 due mine))
            posts2,
      )
