-- ===== src/PpLinkManager/Awaited.antt =====
-- What the calls of a link that awaits its reply come to, where they return.
use ldacs_mcsotdma.Prelude.{
  ℕ, suc, ◌+◌, ◌≤◌, ◌<◌, ◌≡◌, refl, sym, ap, subst, ◌∙◌, true, false, pos, ◌-ℤ◌, ltb_ℤ, leb, arith,
  inl, inr, Bool-cases,
}
use ldacs_mcsotdma.Prelude.Result.{Result, ok, err}
use ldacs_mcsotdma.Prelude.Calls.{asks, proceed, ◌>>◌, when}
use ldacs_mcsotdma.Reservation.{MacIds}
use ldacs_mcsotdma.ReservationMap.{ReservationMap, merge}
use ldacs_mcsotdma.Table.State.{M}
use ldacs_mcsotdma.ThirdPartyLink.{LinkProposal}
use ldacs_mcsotdma.LinkManager.{
  LinkStatus, awaiting_reply, awaiting_request_generation, link_not_established, is_established,
  is_packet_missing, or_runtime_error,
}
use ldacs_mcsotdma.PpLinkManager.{PpLinkManager, Mac, Site, Pp, set_link, set_status, on_heap}
use ldacs_mcsotdma.PpLinkManager.Ensures.{
  Ensures, bind-Ensures, then-Ensures, when-Ensures, heap-Ensures, world-Ensures,
}
use ldacs_mcsotdma.PpLinkManager.Handlers.{
  new_slot, on_pp_slot_start, on_pp_slot_end, report_missing, await_reply, count_down_reply,
  cancel_link, establish_link, attempt_link, request_link, closed, count_attempt, no_attempts,
  is_awaiting_reply, end_established_slot, notify_link_request_sent, requested,
}
use ldacs_mcsotdma.PpLinkManager.Locking.{lock_proposal, lock_proposed_resources}
use ldacs_mcsotdma.PpLinkManager.Attempts.{cancel-Ensures}

abbrev pub slot : ⦃ids : MacIds⦄ {S : Type 0} → Mac S → Pp S (Unit {0})
slot mac = on_pp_slot_start mac 1 >> on_pp_slot_end mac

module _ ⦃ids : MacIds⦄ {S : Type 0} (mac : Mac S) (most : ℕ) where
  -- The reply is due in so many slots; so many attempts have been made.
  pub record IsWaiting (due attempts : ℕ) (link : PpLinkManager) : Type 0 where
    pub status : link.base.link_status ≡ awaiting_reply
    pub expected : link.expected_link_request_confirmation_slot ≡ pos due
    pub count : link.establishment_attempts ≡ attempts
    pub max : link.max_establishment_attempts ≡ most

  -- A request is to be sent, for the given time.
  pub record IsRequested (attempts : ℕ) (link : PpLinkManager) : Type 0 where
    pub status : link.base.link_status ≡ awaiting_request_generation
    pub count : link.establishment_attempts ≡ attempts
    pub max : link.max_establishment_attempts ≡ most

  -- The attempt is made once more, or the link is given up.
  pub record IsTriedAgain (attempts : ℕ) (link : PpLinkManager) : Type 0 where
    pub shut : is_established link.base.link_status ≡ false
    pub again : attempts + 1 < most → IsRequested (attempts + 1) link
    pub given_up :
        most ≤ attempts + 1
        → (link.base.link_status ≡ link_not_established) × (link.establishment_attempts ≡ 0)

  pub sent-IsWaiting :
      (num_forward num_recipient period due attempts : ℕ) (s : Site S)
      → IsRequested attempts s.link
      → Ensures
          (IsWaiting due attempts)
          (notify_link_request_sent mac num_forward num_recipient period (pos due) s)
  unfolding notify_link_request_sent
  sent-IsWaiting num_forward num_recipient period due attempts s q =
      bind-Ensures (λ l. l ≡ closed mac s.link) (IsWaiting due attempts) (cancel_link mac)
        (λ _. set_link (requested mac num_forward num_recipient period (pos due))) s
        (cancel-Ensures mac most s)
        (λ u v e.
          subst
            (λ l.
              IsWaiting due attempts (requested mac num_forward num_recipient period (pos due) l))
            (sym e) (record { status = refl; expected = refl; count = q.count; max = q.max }))

  pub locked-IsWaiting :
      (due attempts : ℕ) (proposal : LinkProposal) (s : Site S)
      → IsWaiting due attempts s.link
      → Ensures (IsWaiting due attempts) (lock_proposed_resources mac proposal s)
  unfolding lock_proposed_resources
  locked-IsWaiting due attempts proposal s w =
      bind-Ensures (λ l. l ≡ s.link) (IsWaiting due attempts) (on_heap locks)
        (λ m.
          set_link (λ link. record link { reserved_resources = merge link.reserved_resources m }))
        s (heap-Ensures locks s)
        (λ m t e.
          subst
            (λ (l : PpLinkManager).
              IsWaiting due attempts
                (record l { reserved_resources = merge l.reserved_resources m }))
            (sym e)
            (record { status = w.status; expected = w.expected; count = w.count; max = w.max }))
    where
      locks : M ReservationMap
      locks =
          lock_proposal mac.reservation_manager mac.default_pp_link_timeout s.link.base.link_id
            proposal

  missing-IsWaiting :
      (due attempts : ℕ) (s : Site S)
      → IsWaiting due attempts s.link
      → Ensures (IsWaiting due attempts) (report_missing mac s)
  unfolding report_missing
  missing-IsWaiting due attempts s w = elim (Bool-cases (is_packet_missing s.link.base)) [
    | inl e ↦
        rw e (record { status = w.status; expected = w.expected; count = w.count; max = w.max })
    | inr e ↦
        rw e (record { status = w.status; expected = w.expected; count = w.count; max = w.max })
  ]

  spent_or_left : (m a : ℕ) → leb m a ≡ true → a < m → ⊥
  spent_or_left m a e lt = ground arith

  left_or_spent : (m a : ℕ) → leb m a ≡ false → m ≤ a → ⊥
  left_or_spent m a e le = ground arith

  given_up-IsTriedAgain :
      (attempts : ℕ) (l : PpLinkManager)
      → leb most (attempts + 1) ≡ true
      → IsTriedAgain attempts (no_attempts mac (closed mac l))
  given_up-IsTriedAgain attempts l spent = record {
    shut = refl;
    again = λ lt. absurd (spent_or_left most (attempts + 1) spent lt);
    given_up = λ le. (refl, refl);
  }

  asked-IsTriedAgain :
      (attempts : ℕ) (l : PpLinkManager)
      → leb most (attempts + 1) ≡ false
      → l.establishment_attempts ≡ attempts + 1
      → l.max_establishment_attempts ≡ most
      → IsTriedAgain attempts (set_status awaiting_request_generation l)
  asked-IsTriedAgain attempts l left count max = record {
    shut = refl;
    again = λ lt. record { status = refl; count = count; max = max };
    given_up = λ le. absurd (left_or_spent most (attempts + 1) left le);
  }

  attempt-IsTriedAgain :
      (attempts : ℕ) (s : Site S)
      → s.link.base.link_status ≡ link_not_established
      → s.link.establishment_attempts ≡ attempts + 1
      → s.link.max_establishment_attempts ≡ most
      → Ensures (IsTriedAgain attempts) (attempt_link mac s)
  unfolding attempt_link request_link
  attempt-IsTriedAgain attempts s shut count max =
      let test : leb s.link.max_establishment_attempts s.link.establishment_attempts
          ≡ leb most (attempts + 1) =
        ap (λ m. leb m s.link.establishment_attempts) max ∙ ap (leb most) count in
      let closed' : is_established s.link.base.link_status ≡ false = ap is_established shut in
      elim (Bool-cases (leb most (attempts + 1))) [
        | inl spent ↦
            rw (test, spent)
              (then-Ensures (λ l. l ≡ closed mac s.link) (IsTriedAgain attempts) _ _
                (cancel-Ensures mac most s)
                (λ u t f.
                  subst (λ l. IsTriedAgain attempts (no_attempts mac l)) (sym f)
                    (given_up-IsTriedAgain attempts s.link spent)))
        | inr left ↦
            rw (test, left, closed')
              (then-Ensures (λ l. l ≡ s.link) (IsTriedAgain attempts) _ _
                (world-Ensures (mac.send_link_request s.link s.link.base.link_id) s)
                (λ u t f.
                  subst (λ l. IsTriedAgain attempts (set_status awaiting_request_generation l))
                    (sym f) (asked-IsTriedAgain attempts s.link left count max)))
      ]

  one_less : (n : ℕ) → pos (suc n) -ℤ pos 1 ≡ pos n
  unfolding ◌-ℤ◌
  one_less n = ground arith

  due_now : ltb_ℤ (pos 0 -ℤ pos 1) (pos 0) ≡ true
  unfolding ◌-ℤ◌
  due_now = refl

  not_negative : (n : ℕ) → ltb_ℤ (pos n) (pos 0) ≡ false
  not_negative n = ground arith

  await_more :
      (due attempts : ℕ) (s : Site S)
      → IsWaiting (suc due) attempts s.link
      → Ensures (IsWaiting due attempts) (await_reply mac s)
  unfolding await_reply
  await_more due attempts s w =
      let less = ap (λ z. z -ℤ pos 1) w.expected ∙ one_less due in
      when-Ensures (IsWaiting due attempts)
        (ltb_ℤ (count_down_reply mac s.link).expected_link_request_confirmation_slot (pos 0))
        (cancel_link mac >> establish_link mac) (record s { link = count_down_reply mac s.link })
        (λ e. cc (rw (less, not_negative due) at e))
        (λ e. record { status = w.status; expected = less; count = w.count; max = w.max })

  await_no_more :
      (attempts : ℕ) (s : Site S)
      → IsWaiting 0 attempts s.link
      → Ensures (IsTriedAgain attempts) (await_reply mac s)
  unfolding await_reply establish_link
  await_no_more attempts s w =
      let t = record s { link = count_down_reply mac s.link } in
      when-Ensures (IsTriedAgain attempts)
        (ltb_ℤ t.link.expected_link_request_confirmation_slot (pos 0))
        (cancel_link mac >> establish_link mac) t
        (λ e.
          bind-Ensures (λ l. l ≡ closed mac t.link) (IsTriedAgain attempts) (cancel_link mac)
            (λ _. establish_link mac) t (cancel-Ensures mac most t)
            (λ u v f.
              attempt-IsTriedAgain attempts (record v { link = count_attempt mac v.link })
                (ap (λ (l : PpLinkManager). l.base.link_status) f)
                (ap (λ (l : PpLinkManager). l.establishment_attempts + 1) f
                  ∙ ap (λ n. n + 1) w.count)
                (ap (λ (l : PpLinkManager). l.max_establishment_attempts) f ∙ w.max)))
        (λ e. cc (ap (λ z. ltb_ℤ (z -ℤ pos 1) (pos 0)) w.expected, due_now, e))

  -- A call that reads the status and goes on with it.
  read_status :
      (P Q : PpLinkManager → Type 0) (f : LinkStatus → Pp S (Unit {0}))
      (o : Result (Unit {0}) × Site S)
      → Ensures P o
      → ((t : Site S) → P t.link → Ensures Q (f t.link.base.link_status t))
      → Ensures Q (proceed f (proceed (λ _. asks (λ v. ok v.link.base.link_status)) o))
  read_status P Q f (ok a, t) p next = next t p
  read_status P Q f (err e, t) p next = tt

  -- The end of a slot of a link that awaits its reply, by what `await_reply` comes to.
  slot_awaiting :
      (due attempts : ℕ) (Q : PpLinkManager → Type 0) (s : Site S)
      → ((l : PpLinkManager) → Q l → is_established l.base.link_status ≡ false)
      → ((t : Site S) → IsWaiting due attempts t.link → Ensures Q (await_reply mac t))
      → IsWaiting due attempts s.link
      → Ensures Q (slot mac s)
  unfolding on_pp_slot_end
  slot_awaiting due attempts Q s shut waits w =
      read_status (IsWaiting due attempts) Q _ (report_missing mac s1)
        (missing-IsWaiting due attempts s1
          (record { status = w.status; expected = w.expected; count = w.count; max = w.max }))
        (λ t k.
          read_status Q Q _ (when (is_awaiting_reply t.link.base.link_status) (await_reply mac) t)
            (when-Ensures Q (is_awaiting_reply t.link.base.link_status) (await_reply mac) t
              (λ e. waits t k) (λ e. cc (ap is_awaiting_reply k.status, e)))
            (λ u q.
              when-Ensures Q (is_established u.link.base.link_status)
                (or_runtime_error (end_established_slot mac)) u (λ e. cc (shut u.link q, e))
                (λ e. q)))
    where
      s1 : Site S
      s1 = record s { link = new_slot mac s.link }

  pub slot_not_due :
      (due attempts : ℕ) (s : Site S)
      → IsWaiting (suc due) attempts s.link
      → Ensures (IsWaiting due attempts) (slot mac s)
  slot_not_due due attempts s w =
      slot_awaiting (suc due) attempts (IsWaiting due attempts) s
        (λ l k. ap is_established k.status) (await_more due attempts) w

  pub slot_due :
      (attempts : ℕ) (s : Site S)
      → IsWaiting 0 attempts s.link
      → Ensures (IsTriedAgain attempts) (slot mac s)
  slot_due attempts s w =
      slot_awaiting 0 attempts (IsTriedAgain attempts) s (λ l k. k.shut) (await_no_more attempts) w
