-- ===== src/PpLinkManager/Agreed.antt =====
-- What `acceptLink` leaves behind: the bursts of the manager's schedule are the link's resources.
use ldacs_mcsotdma.Prelude.{
  ℕ, suc, ◌≡◌, refl, sym, subst, ap, ◌∙◌, [], ◌++◌, Option, some, Bool, true, false, not, All, pos,
  inl, inr, Bool-cases,
}
use ldacs_mcsotdma.Prelude.Result.{
  Result, ok, err, Error, runtime_error, is_exception, Result-cases,
}
use ldacs_mcsotdma.Prelude.Calls.{proceed, put_back, handled, throws, asks}
use ldacs_mcsotdma.Reservation.{MacIds}
use ldacs_mcsotdma.Table.{Heap, TableId, ChannelId}
use ldacs_mcsotdma.ReservationMap.{ReservationMap, merge}
use ldacs_mcsotdma.ReservationMap.{unlock_map}
use ldacs_mcsotdma.ReservationMap.Released.{IsFormedHeap, IsReleased}
use ldacs_mcsotdma.ReservationMap.Unlocked.{unlock_map_frees}
use ldacs_mcsotdma.ThirdPartyLink.Reset.{IsGivenBack}
use ldacs_mcsotdma.ReservationManager.{get_reservation_table}
use ldacs_mcsotdma.ReservationManager.Schedule.{Link, link_target, schedule_bursts}
use ldacs_mcsotdma.ReservationManager.Taken.{IsKept}
use ldacs_mcsotdma.ReservationManager.Scheduled.{
  IsScheduled, IsReadyFor, BurstsOutcome, schedule_bursts_holds,
}
use ldacs_mcsotdma.ThirdPartyLink.{LinkProposal}
use ldacs_mcsotdma.LinkManager.{link_established, link_not_established}
use ldacs_mcsotdma.PpLinkManager.{Mac, Site, set_link}
use ldacs_mcsotdma.PpLinkManager.Accepting.{
  accepted_link, find_channel, find_table, take_bursts, take_channel, take_period, schedule_link,
  settle, accept_on, accept_link,
}
use ldacs_mcsotdma.PpLinkManager.Cancelled.{cancelled, cancel_steps}

module _ ⦃ids : MacIds⦄ {S : Type 0} (mac : Mac S) (proposal : LinkProposal)
    (initiator : Bool) where
  -- A link that is established on a channel for a proposal, with its bursts in the table.
  pub record IsAccepted (c : ChannelId) (i : TableId) (l : Link) (t : Site S) : Type 0 where
    pub status : t.link.base.link_status ≡ link_established
    pub role : t.link.is_link_initiator ≡ initiator
    pub channel : t.link.channel ≡ some c
    pub period : t.link.period ≡ proposal.period
    pub timeout : t.link.timeout ≡ pos mac.default_pp_link_timeout
    pub attempts : t.link.establishment_attempts ≡ 0
    pub bursts : IsScheduled l i t.world.heap t.link.reserved_resources

  -- By what the schedule of the bursts returns.
  abbrev pub AcceptOutcome :
      ChannelId
      → TableId
      → Link
      → Heap
      → Result ReservationMap × Heap
      → Result (Unit {0}) × Site S
      → Type 0
  AcceptOutcome c i l h bursts o =
      IsKept (link_target l) i h o.1.world.heap
      × ((e : Error)
          → bursts.0 ≡ err e
          → is_exception e ≡ true
          → (o.0 ≡ err runtime_error) × (o.1.link.base.link_status ≡ link_not_established))
      × ((e : Error) → bursts.0 ≡ err e → is_exception e ≡ false → o.0 ≡ err e)
      × ((map' : ReservationMap) (tbl : Option TableId)
          → bursts.0 ≡ ok map'
          → find_table mac proposal bursts.1 ≡ ok tbl
          → (o.0 ≡ ok tt) × IsAccepted c i l o.1)
      × ((map' : ReservationMap) (e : Error)
          → bursts.0 ≡ ok map'
          → find_table mac proposal bursts.1 ≡ err e
          → o.0 ≡ err e)

  abbrev chosen : ChannelId → Site S → Site S
  chosen c s = record s {
    link = take_channel mac initiator (some c) (take_period mac proposal s.link);
  }

  abbrev with_bursts :
      ChannelId → Site S → Result ReservationMap × Heap → Result (Unit {0}) × Site S
  with_bursts c s o = proceed (settle mac) (
      proceed (λ _. asks (λ t. find_table mac proposal t.world.heap))
        (proceed (λ m. set_link (take_bursts mac m))
          (handled is_exception (throws runtime_error) (
            put_back (λ h. record (chosen c s) { world = record { heap = h; rest = s.world.rest } })
              o))))

  ends :
      (c : ChannelId) (i : TableId) (l : Link) (h : Heap) (s : Site S)
      (o : Result ReservationMap × Heap)
      → s.link.base.link_status ≡ link_not_established
      → s.link.reserved_resources.scheduled_resources ≡ []
      → BurstsOutcome l i h o
      → AcceptOutcome c i l h o (with_bursts c s o)
  unfolding settle merge
  ends c i l h s (err e, h') closed' none' (kept, _) = elim (Bool-cases (is_exception e)) [
    | inl caught ↦ rw caught (
      kept,
      (λ x f g. (refl, closed')),
      (λ x f g. cc (f, g, caught)),
      (λ m t f. cc f),
      λ m x f. cc f,
    )
    | inr not' ↦
        rw not' (kept, (λ x f g. cc (f, g, not')), (λ x f g. cc f), (λ m t f. cc f), λ m x f. cc f)
  ]
  ends c i l h s (ok m, h') closed' none' (kept, bursts) =
      elim (Result-cases (find_table mac proposal h')) [
        | inr (x, bad) ↦
            rw bad (kept, (λ e f g. cc f), (λ e f g. cc f), (λ m' tbl f g. cc g), λ m' e f g. cc g)
        | inl (tbl, fine) ↦
            let (firsts, seconds, e, a, b, d, j, f1, f2) = bursts m refl in
            rw fine (
              kept,
              (λ e f g. cc f),
              (λ e f g. cc f),
              (λ m' tbl' f g. (
                refl,
                record {
                  status = refl;
                  role = refl;
                  channel = refl;
                  period = refl;
                  timeout = refl;
                  attempts = refl;
                  bursts = (
                    firsts,
                    seconds,
                    ap (λ rs. rs ++ m.scheduled_resources) none' ∙ e,
                    a,
                    b,
                    d,
                    j,
                    f1,
                    f2,
                  );
                },
              )),
              λ m' e f g. cc g,
            )
      ]

module _ ⦃ids : MacIds⦄ {S : Type 0} (mac : Mac S) where
  -- The tables when the locks of the link have been given back.
  abbrev pub given_back : Site S → Heap
  given_back s =
      (unlock_map mac.own_id s.link.base.link_id s.link.reserved_resources s.world.heap).1

  -- Accepting a proposal on a link that has scheduled nothing, on well-formed tables, where, after
  -- the link's locks are given back, the proposal's channel is known and its table is ready at all
  -- slots of the bursts. The locks are given back, and no table changes thereby but in slots that
  -- were locked or idle. Then, whatever the outcome, a slot of the table that is neither idle nor
  -- busy for the link's target reads as before. If the bursts cannot be scheduled, a `runtime_error`
  -- is thrown (an error that is no exception is passed on) and the link stays closed. If they are,
  -- and the table is found again, the call returns with the link established on that channel and in
  -- its role, with the proposal's period, the default timeout, no attempts, and resources that list
  -- slots of each direction, each of which holds the link's reservation; if the table is not found
  -- again, that error is thrown.
  pub accept_link_holds :
      (proposal : LinkProposal) (through_request : Bool) (depth : ℕ) (c : ChannelId) (i : TableId)
      (s : Site S)
      → mac.depth ≡ suc (suc depth)
      → IsFormedHeap s.world.heap
      → s.link.reserved_resources.scheduled_resources ≡ []
      → find_channel mac proposal (given_back s) ≡ ok (some c)
      → get_reservation_table (given_back s) mac.reservation_manager (some c) ≡ ok (some i)
      → IsReadyFor
          (accepted_link mac s.link.base.link_id (not through_request) proposal)
          i
          (given_back s)
      → IsReleased s.world.heap (given_back s)
        × All
            (IsGivenBack mac.own_id s.link.base.link_id
              s.link.reserved_resources.num_slots_since_creation s.world.heap
              (given_back s))
            s.link.reserved_resources.locked_resources
        × AcceptOutcome mac proposal
            (not through_request)
            c
            i
            (accepted_link mac s.link.base.link_id (not through_request) proposal)
            (given_back s)
            (schedule_bursts mac.depth mac.reservation_manager
              (some c)
              (accepted_link mac s.link.base.link_id (not through_request) proposal)
              (given_back s))
            (accept_link mac proposal through_request s)
  unfolding accept_link accept_on schedule_link
  accept_link_holds proposal through_request depth c i s deep formed none' found table ready =
      let l = accepted_link mac s.link.base.link_id (not through_request) proposal in
      let h = given_back s in
      let ((n, fine, _), freed, posts) =
        unlock_map_frees mac.own_id s.link.base.link_id s.link.reserved_resources s.world.heap
          formed in
      (
        freed,
        posts,
        rw (cancel_steps mac s h n (ap (λ x. (x, h)) fine) none', found)
            (ends mac proposal (not through_request) c i l h (cancelled mac h s)
              (schedule_bursts mac.depth mac.reservation_manager (some c) l h) refl refl
              (subst
                (λ d. BurstsOutcome l i h (schedule_bursts d mac.reservation_manager (some c) l h))
                (sym deep)
                (schedule_bursts_holds depth mac.reservation_manager (some c) i l h table ready))),
      )
