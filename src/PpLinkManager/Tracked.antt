-- ===== src/PpLinkManager/Tracked.antt =====
-- The attempts of a link through the ends of its slots.
use ldacs_mcsotdma.Prelude.{
  ℕ, ◌≤◌, ◌<◌, ◌≡◌, refl, sym, ap, subst, ◌∙◌, inl, inr, Bool, true, false, not, pos, Bool-cases,
  ltb_ℤ,
}
use ldacs_mcsotdma.Prelude.Result.{Result, ok, err}
use ldacs_mcsotdma.Prelude.Calls.{◌>>=◌, ◌>>◌, when, asks}
use ldacs_mcsotdma.Reservation.{MacIds}
use ldacs_mcsotdma.ReservationMap.{empty_map}
use ldacs_mcsotdma.LinkManager.{LinkStatus, is_established, is_packet_missing, or_runtime_error}
use ldacs_mcsotdma.PpLinkManager.{PpLinkManager, Mac, Site, Pp, set_link, is_next, get_next_tx_slot}
use ldacs_mcsotdma.PpLinkManager.Ensures.{
  Ensures, then-Ensures, bind-Ensures, try-Ensures, when-Ensures,
}
use ldacs_mcsotdma.PpLinkManager.Handlers.{
  closed, cancel_link, no_attempts, notify_outgoing, on_pp_slot_end, decrement_timeout, count_down,
  count_exchange, is_exchange_end, on_timeout_expiry, report_end_of_burst, end_established_slot,
  await_reply, count_down_reply, report_missing, establish_link, is_awaiting_reply,
}
use ldacs_mcsotdma.PpLinkManager.Attempts.{
  IsTracked, is_generating, is_awaiting_data, cancel-Ensures, establish-Ensures, notify-Ensures,
  given_up-IsTracked,
}

-- The status, the attempts and their maximum are the same.
abbrev pub IsSame : PpLinkManager → PpLinkManager → Type 0
IsSame l l' =
    (l'.max_establishment_attempts ≡ l.max_establishment_attempts)
    × (l'.establishment_attempts ≡ l.establishment_attempts)
    × (l'.base.link_status ≡ l.base.link_status)

pub IsSame-IsTracked :
    (most : ℕ) (l l' : PpLinkManager) → IsSame l l' → IsTracked most l → IsTracked most l'
IsSame-IsTracked most l l' (m, a, st) t = record {
  max = m ∙ t.max;
  below = subst (λ n. n < most) (sym a) t.below;
  at_rest = λ e. a ∙ t.at_rest (ap is_established (sym st) ∙ e);
  asked = λ e. subst (λ n. 1 ≤ n) (sym a) (t.asked (ap is_generating (sym st) ∙ e));
  no_data = ap is_awaiting_data st ∙ t.no_data;
}

module _ ⦃ids : MacIds⦄ {S : Type 0} (mac : Mac S) (most : ℕ) where
  -- An exchange that ends is counted, and nothing else.
  count-IsSame : (b : Bool) (l l' : PpLinkManager) → l' ≡ l → IsSame l (count_exchange mac b l')
  count-IsSame true l l' e = (
    ap (λ (x : PpLinkManager). x.max_establishment_attempts) e,
    ap (λ (x : PpLinkManager). x.establishment_attempts) e,
    ap (λ (x : PpLinkManager). x.base.link_status) e,
  )
  count-IsSame false l l' e = (
    ap (λ (x : PpLinkManager). x.max_establishment_attempts) e,
    ap (λ (x : PpLinkManager). x.establishment_attempts) e,
    ap (λ (x : PpLinkManager). x.base.link_status) e,
  )

  pub asks-Ensures :
      {A : Type 0} (f : Site S → Result A) (s : Site S) → Ensures (λ l. l ≡ s.link) (asks f s)
  asks-Ensures f s = read (f s)
    where
      read : {A : Type 0} (r : Result A) → Ensures (λ l. l ≡ s.link) (r, s)
      read (ok a) = refl
      read (err e) = tt

  count_down-Ensures : (s : Site S) → Ensures (IsSame s.link) (count_down mac s)
  unfolding count_down
  count_down-Ensures s =
      then-Ensures (λ l. l ≡ s.link) (IsSame s.link) _ _
        (try-Ensures (λ l. l ≡ s.link) _
          (asks-Ensures (λ t. is_exchange_end mac t.world.heap t.link) s))
        (λ b t e. count-IsSame b s.link t.link e)

  decrement-Ensures : (s : Site S) → Ensures (IsSame s.link) (decrement_timeout mac s)
  unfolding decrement_timeout
  decrement-Ensures s =
      then-Ensures (IsSame s.link) (IsSame s.link) _ _
        (when-Ensures (IsSame s.link) (is_established s.link.base.link_status) (count_down mac) s
          (λ e. count_down-Ensures s) (λ e. (refl, refl, refl)))
        (λ u t same. same)

  report_burst-Ensures : (s : Site S) → Ensures (IsSame s.link) (report_end_of_burst mac s)
  unfolding report_end_of_burst
  report_burst-Ensures s =
      then-Ensures (λ l. l ≡ s.link) (IsSame s.link) _ _
        (asks-Ensures (λ t. is_next (pos 1) (get_next_tx_slot t.world.heap t.link)) s)
        (λ again t e.
          when-Ensures (IsSame s.link) (not again) _ t (λ n. rw e (refl, refl, refl))
            (λ n. rw e (refl, refl, refl)))

  timeout-Ensures :
      (s : Site S)
      → 0 < most
      → IsTracked most s.link
      → Ensures (IsTracked most) (on_timeout_expiry mac s)
  unfolding on_timeout_expiry
  timeout-Ensures s positive t =
      bind-Ensures (IsTracked most) (IsTracked most)
        (emptied >> cancel_link mac >> set_link (no_attempts mac) >> asks asked)
        (λ more. when more (notify_outgoing mac)) s
        (bind-Ensures (IsTracked most) (IsTracked most)
          (emptied >> cancel_link mac >> set_link (no_attempts mac)) (λ _. asks asked) s
          (bind-Ensures (λ l. l ≡ closed mac s.link) (IsTracked most) (emptied >> cancel_link mac)
            (λ _. set_link (no_attempts mac)) s
            (cancel-Ensures mac most
              (record s { link = record (s.link) { reserved_resources = empty_map } }))
            (λ u v e.
              subst (λ l. IsTracked most (no_attempts mac l)) (sym e)
                (given_up-IsTracked mac most s.link positive t.max)))
          (λ u v k. k))
        (λ more v k.
          when-Ensures (IsTracked most) more (notify_outgoing mac) v
            (λ e. notify-Ensures mac most v positive k) (λ e. k))
    where
      emptied : Pp S (Unit {0})
      emptied = set_link (λ link. record link { reserved_resources = empty_map })

      asked : Site S → Result Bool
      asked t = ok (mac.is_there_more_data t.link.base.link_id t.world.rest)

  pub same_tracked :
      {A : Type 0} (m : Pp S A) (s : Site S)
      → IsTracked most s.link
      → Ensures (IsSame s.link) (m s)
      → Ensures (IsTracked most) (m s)
  same_tracked m s t e = tracked (m s) e
    where
      tracked :
          {A : Type 0} (o : Result A × Site S)
          → Ensures (IsSame s.link) o
          → Ensures (IsTracked most) o
      tracked (ok a, u) same = IsSame-IsTracked most s.link u.link same t
      tracked (err x, u) same = tt

  pub IsSame-as :
      (l : PpLinkManager) (s t : Site S) → t.link ≡ s.link → IsSame t.link l → IsSame s.link l
  IsSame-as l s t e same = subst (λ k. IsSame k l) e same

  end-Ensures :
      (s : Site S)
      → 0 < most
      → IsTracked most s.link
      → Ensures (IsTracked most) (end_established_slot mac s)
  unfolding end_established_slot
  end-Ensures s positive t =
      bind-Ensures (IsTracked most) (IsTracked most)
        (when s.link.transmission_this_slot (report_end_of_burst mac) >> decrement_timeout mac)
        (λ expired. when expired (on_timeout_expiry mac)) s
        (bind-Ensures (IsTracked most) (IsTracked most)
          (when s.link.transmission_this_slot (report_end_of_burst mac))
          (λ _. decrement_timeout mac) s
          (when-Ensures (IsTracked most) s.link.transmission_this_slot (report_end_of_burst mac) s
            (λ e. same_tracked (report_end_of_burst mac) s t (report_burst-Ensures s)) (λ e. t))
          (λ u v k. same_tracked (decrement_timeout mac) v k (decrement-Ensures v)))
        (λ expired v k.
          when-Ensures (IsTracked most) expired (on_timeout_expiry mac) v
            (λ e. timeout-Ensures v positive k) (λ e. k))

  await-Ensures :
      (s : Site S) → 0 < most → IsTracked most s.link → Ensures (IsTracked most) (await_reply mac s)
  unfolding await_reply
  await-Ensures s positive t =
      when-Ensures (IsTracked most)
        (ltb_ℤ (count_down_reply mac s.link).expected_link_request_confirmation_slot (pos 0))
        (cancel_link mac >> establish_link mac) (record s { link = count_down_reply mac s.link })
        (λ e.
          bind-Ensures (λ l. l ≡ closed mac (count_down_reply mac s.link)) (IsTracked most)
            (cancel_link mac) (λ _. establish_link mac)
            (record s { link = count_down_reply mac s.link })
            (cancel-Ensures mac most (record s { link = count_down_reply mac s.link }))
            (λ u v f.
              establish-Ensures mac most v positive
                (ap (λ (x : PpLinkManager). x.max_establishment_attempts) f ∙ t.max)
                (ap (λ (x : PpLinkManager). is_established x.base.link_status) f)))
        (λ e. IsSame-IsTracked most s.link (count_down_reply mac s.link) (refl, refl, refl) t)

  missing-Ensures : (s : Site S) → Ensures (IsSame s.link) (report_missing mac s)
  unfolding report_missing
  missing-Ensures s = elim (Bool-cases (is_packet_missing s.link.base)) [
    | inl e ↦ rw e (refl, refl, refl)
    | inr e ↦ rw e (refl, refl, refl)
  ]

  pub slot_end-Ensures :
      (s : Site S)
      → 0 < most
      → IsTracked most s.link
      → Ensures (IsTracked most) (on_pp_slot_end mac s)
  unfolding on_pp_slot_end
  slot_end-Ensures s positive t =
      bind-Ensures (IsTracked most) (IsTracked most)
        (report_missing mac >> asks (λ v. ok v.link.base.link_status)) after_missing s
        (bind-Ensures (IsTracked most) (IsTracked most) (report_missing mac)
          (λ _. asks (λ v. ok v.link.base.link_status)) s
          (same_tracked (report_missing mac) s t (missing-Ensures s)) (λ u v k. k))
        (λ before v k.
          bind-Ensures (IsTracked most) (IsTracked most)
            (when (is_awaiting_reply before) (await_reply mac)
              >> asks (λ u. ok u.link.base.link_status))
            after_waiting v
            (bind-Ensures (IsTracked most) (IsTracked most)
              (when (is_awaiting_reply before) (await_reply mac))
              (λ _. asks (λ u. ok u.link.base.link_status)) v
              (when-Ensures (IsTracked most) (is_awaiting_reply before) (await_reply mac) v
                (λ e. await-Ensures v positive k) (λ e. k))
              (λ u x j. j))
            (λ after x j.
              when-Ensures (IsTracked most) (is_established after)
                (or_runtime_error (end_established_slot mac)) x
                (λ e.
                  try-Ensures (IsTracked most) (end_established_slot mac x)
                    (end-Ensures x positive j))
                (λ e. j)))
    where
      after_waiting : LinkStatus → Pp S (Unit {0})
      after_waiting after =
          when (is_established after) (or_runtime_error (end_established_slot mac))

      after_missing : LinkStatus → Pp S (Unit {0})
      after_missing before =
          when (is_awaiting_reply before) (await_reply mac)
          >> asks (λ v. ok v.link.base.link_status)
          >>= after_waiting
