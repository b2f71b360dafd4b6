-- ===== src/PpLinkManager/Accepted.antt =====
-- The attempts of a link through its transmissions, requests and proposals.
use ldacs_mcsotdma.Prelude.{ℕ, ◌<◌, ◌≡◌, refl, sym, subst, Bool, true, not, ℤ, Option}
use ldacs_mcsotdma.Prelude.Result.{Result, ok, err}
use ldacs_mcsotdma.Prelude.Calls.{◌>>◌, when, returns, asks, changes}
use ldacs_mcsotdma.Reservation.{MacId, MacIds}
use ldacs_mcsotdma.ReservationMap.{ReservationMap, merge}
use ldacs_mcsotdma.Table.{TableId, ChannelId}
use ldacs_mcsotdma.Table.State.{M}
use ldacs_mcsotdma.ReservationManager.Schedule.{schedule_bursts}
use ldacs_mcsotdma.ThirdPartyLink.{LinkProposal}
use ldacs_mcsotdma.LinkManager.{or_runtime_error}
use ldacs_mcsotdma.PpLinkManager.{Mac, Site, Pp, on_heap, on_rest, set_link, is_start_of_tx_burst}
use ldacs_mcsotdma.PpLinkManager.Ensures.{
  Ensures, bind-Ensures, try-Ensures, heap-Ensures, rest-Ensures, when-Ensures,
}
use ldacs_mcsotdma.PpLinkManager.Accepting.{
  accept_link, take_bursts, take_channel, accepted_link, settle, take_period, find_channel,
  find_table, accept_on, schedule_link,
}
use ldacs_mcsotdma.PpLinkManager.Handlers.{
  closed, cancel_link, on_pp_transmission, notify_link_request_sent, transmit, report_start,
  note_transmission, requested,
}
use ldacs_mcsotdma.PpLinkManager.Locking.{lock_proposed_resources, lock_proposal}
use ldacs_mcsotdma.PpLinkManager.Attempts.{IsTracked, cancel-Ensures, closed-IsTracked}
use ldacs_mcsotdma.PpLinkManager.Tracked.{
  IsSame, IsSame-IsTracked, asks-Ensures, same_tracked, IsSame-as,
}

module _ ⦃ids : MacIds⦄ {S : Type 0} (mac : Mac S) (most : ℕ) where
  kept-IsSame :
      {A : Type 0} (m : Pp S A) (s t : Site S)
      → IsSame s.link t.link
      → Ensures (λ l. l ≡ t.link) (m t)
      → Ensures (IsSame s.link) (m t)
  kept-IsSame m s t same e = kept (m t) e
    where
      kept :
          {A : Type 0} (o : Result A × Site S)
          → Ensures (λ l. l ≡ t.link) o
          → Ensures (IsSame s.link) o
      kept (ok a, u) f = subst (λ l. IsSame s.link l) (sym f) same
      kept (err x, u) f = tt

  transmit-Ensures :
      (id : MacId) (starts : Bool) (s t : Site S)
      → t.link ≡ s.link
      → Ensures (IsSame s.link) (transmit mac id starts t)
  unfolding transmit
  transmit-Ensures id starts s t e =
      bind-Ensures (IsSame s.link) (IsSame s.link)
        (when starts (report_start mac id)
          >> on_rest (mac.request_segment id)
          >> changes (note_transmission mac))
        (λ _. returns (let r : MacId × MacId = (mac.own_id, id) in r)) t
        (bind-Ensures (IsSame s.link) (IsSame s.link)
          (when starts (report_start mac id) >> on_rest (mac.request_segment id))
          (λ _. changes (note_transmission mac)) t
          (bind-Ensures (IsSame s.link) (IsSame s.link) (when starts (report_start mac id))
            (λ _. on_rest (mac.request_segment id)) t
            (when-Ensures (IsSame s.link) starts (report_start mac id) t
              (λ b.
                IsSame-as mac most (record (t.link) { reported_start_tx_burst_to_arq = true }) s t e
                  (refl, refl, refl))
              (λ b. IsSame-as mac most t.link s t e (refl, refl, refl)))
            (λ u v k.
              kept-IsSame (on_rest (mac.request_segment id)) s v k
                (rest-Ensures (mac.request_segment id) v)))
          (λ u v k. k))
        (λ u v k. k)

  pub transmission-Ensures : (s : Site S) → Ensures (IsSame s.link) (on_pp_transmission mac s)
  unfolding on_pp_transmission
  transmission-Ensures s =
      bind-Ensures (λ l. l ≡ s.link) (IsSame s.link)
        (asks (λ t. is_start_of_tx_burst t.world.heap t.link)) (transmit mac s.link.base.link_id) s
        (asks-Ensures mac most (λ t. is_start_of_tx_burst t.world.heap t.link) s)
        (λ starts t e. transmit-Ensures s.link.base.link_id starts s t e)

  pub request-Ensures :
      (num_forward num_recipient period : ℕ) (slot : ℤ) (s : Site S)
      → IsTracked most s.link
      → Ensures
          (IsTracked most)
          (notify_link_request_sent mac num_forward num_recipient period slot s)
  unfolding notify_link_request_sent
  request-Ensures num_forward num_recipient period slot s t =
      bind-Ensures (λ l. l ≡ closed mac s.link) (IsTracked most) (cancel_link mac)
        (λ _. set_link (requested mac num_forward num_recipient period slot)) s
        (cancel-Ensures mac most s)
        (λ u v e.
          subst (λ l. IsTracked most (requested mac num_forward num_recipient period slot l))
            (sym e)
            (record {
              max = t.max;
              below = t.below;
              at_rest = λ f. cc f;
              asked = λ f. cc f;
              no_data = refl;
            }))

  pub lock-Ensures :
      (proposal : LinkProposal) (s : Site S)
      → Ensures (IsSame s.link) (lock_proposed_resources mac proposal s)
  unfolding lock_proposed_resources
  lock-Ensures proposal s =
      bind-Ensures (λ l. l ≡ s.link) (IsSame s.link) (on_heap locks)
        (λ m.
          set_link (λ link. record link { reserved_resources = merge link.reserved_resources m }))
        s (heap-Ensures locks s)
        (λ m t e.
          IsSame-as mac most
            (record (t.link) { reserved_resources = merge t.link.reserved_resources m }) s t e
            (refl, refl, refl))
    where
      locks : M ReservationMap
      locks =
          lock_proposal mac.reservation_manager mac.default_pp_link_timeout s.link.base.link_id
            proposal

  read-Ensures :
      {A : Type 0} (s : Site S)
      → IsTracked most s.link
      → (r : Result A) → Ensures (IsTracked most) (r, s)
  read-Ensures s t (ok a) = t
  read-Ensures s t (err e) = tt

  schedule-Ensures :
      (proposal : LinkProposal) (initiator : Bool) (channel : Option ChannelId) (s : Site S)
      → Ensures (IsSame s.link) (schedule_link mac proposal initiator channel s)
  unfolding schedule_link
  schedule-Ensures proposal initiator channel s =
      bind-Ensures (λ l. l ≡ taken.link) (IsSame s.link) (or_runtime_error (on_heap bursts))
        (λ m. set_link (take_bursts mac m)) taken
        (try-Ensures (λ l. l ≡ taken.link) (on_heap bursts taken) (heap-Ensures bursts taken))
        (λ m t e. IsSame-as mac most (take_bursts mac m t.link) taken t e (refl, refl, refl))
    where
      taken : Site S
      taken = record s { link = take_channel mac initiator channel s.link }

      bursts : M ReservationMap
      bursts =
          schedule_bursts mac.depth mac.reservation_manager channel
            (accepted_link mac s.link.base.link_id initiator proposal)

  -- The end of an acceptance: established, with no attempts.
  settle-Ensures :
      (tbl : Option TableId) (s : Site S)
      → 0 < most
      → s.link.max_establishment_attempts ≡ most
      → Ensures (IsTracked most) (settle mac tbl s)
  unfolding settle
  settle-Ensures tbl s positive e = record {
    max = e;
    below = positive;
    at_rest = λ f. refl;
    asked = λ f. cc f;
    no_data = refl;
  }

  pub accept-Ensures :
      (proposal : LinkProposal) (through_request : Bool) (s : Site S)
      → 0 < most
      → IsTracked most s.link
      → Ensures (IsTracked most) (accept_link mac proposal through_request s)
  unfolding accept_link accept_on
  accept-Ensures proposal through_request s positive t =
      bind-Ensures (IsTracked most) (IsTracked most)
        (cancel_link mac
          >> set_link (take_period mac proposal)
          >> asks (λ v. find_channel mac proposal v.world.heap))
        (accept_on mac proposal through_request) s
        (bind-Ensures (IsTracked most) (IsTracked most)
          (cancel_link mac >> set_link (take_period mac proposal))
          (λ _. asks (λ v. find_channel mac proposal v.world.heap)) s
          (bind-Ensures (λ l. l ≡ closed mac s.link) (IsTracked most) (cancel_link mac)
            (λ _. set_link (take_period mac proposal)) s (cancel-Ensures mac most s)
            (λ u v e.
              subst (λ l. IsTracked most (take_period mac proposal l)) (sym e)
                (IsSame-IsTracked most (closed mac s.link)
                  (take_period mac proposal (closed mac s.link)) (refl, refl, refl)
                  (closed-IsTracked mac most s.link t))))
          (λ u v k. read-Ensures v k (find_channel mac proposal v.world.heap)))
        (λ channel v k.
          bind-Ensures (IsTracked most) (IsTracked most)
            (schedule_link mac proposal (not through_request) channel
              >> asks (λ x. find_table mac proposal x.world.heap))
            (settle mac) v
            (bind-Ensures (IsTracked most) (IsTracked most)
              (schedule_link mac proposal (not through_request) channel)
              (λ _. asks (λ x. find_table mac proposal x.world.heap)) v
              (same_tracked mac most (schedule_link mac proposal (not through_request) channel) v k
                (schedule-Ensures proposal (not through_request) channel v))
              (λ u x j. read-Ensures x j (find_table mac proposal x.world.heap)))
            (λ tbl x j. settle-Ensures tbl x positive j.max))
