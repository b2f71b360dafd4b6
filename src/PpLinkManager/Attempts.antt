-- ===== src/PpLinkManager/Attempts.antt =====
-- How often a link is requested: an invariant of all handlers that return.
use ldacs_mcsotdma.Prelude.{
  ℕ, ◌≤◌, ◌<◌, ◌≡◌, refl, sym, ap, subst, inl, inr, Bool, true, false, leb, arith, Bool-cases, [],
  ◌∷◌,
}
use ldacs_mcsotdma.Reservation.{MacIds, tx, rx}
use ldacs_mcsotdma.ReservationMap.{unlock_map, unschedule}
use ldacs_mcsotdma.LinkManager.{
  LinkStatus, awaiting_request_generation, awaiting_data_tx, is_established,
}
use ldacs_mcsotdma.PpLinkManager.{PpLinkManager, Mac, Site, set_status}
use ldacs_mcsotdma.PpLinkManager.Ensures.{Ensures, then-Ensures, heap-Ensures, world-Ensures}
use ldacs_mcsotdma.PpLinkManager.Handlers.{
  closed, unlock_own, unschedule_own, cancel_link, count_attempt, no_attempts, request_link,
  attempt_link, establish_link, notify_outgoing, is_not_established,
}

abbrev pub is_generating : LinkStatus → Bool
is_generating awaiting_request_generation = true
is_generating _ = false

abbrev pub is_awaiting_data : LinkStatus → Bool
is_awaiting_data awaiting_data_tx = true
is_awaiting_data _ = false

-- Fewer attempts than the maximum: none on an established link, one at least where a request is to
-- be sent; and the first data burst is never awaited.
pub record IsTracked (most : ℕ) (link : PpLinkManager) : Type 0 where
  pub max : link.max_establishment_attempts ≡ most
  pub below : link.establishment_attempts < most
  pub at_rest : is_established link.base.link_status ≡ true → link.establishment_attempts ≡ 0
  pub asked : is_generating link.base.link_status ≡ true → 1 ≤ link.establishment_attempts
  pub no_data : is_awaiting_data link.base.link_status ≡ false

module _ ⦃ids : MacIds⦄ {S : Type 0} (mac : Mac S) (most : ℕ) where
  unlock-Ensures : (s : Site S) → Ensures (λ l. l ≡ s.link) (unlock_own mac s)
  unfolding unlock_own
  unlock-Ensures s =
      heap-Ensures (unlock_map mac.own_id s.link.base.link_id s.link.reserved_resources) s

  unschedule-Ensures : (s : Site S) → Ensures (λ l. l ≡ s.link) (unschedule_own mac s)
  unfolding unschedule_own
  unschedule-Ensures s =
      heap-Ensures (unschedule mac.depth (tx ∷ rx ∷ []) s.link.reserved_resources) s

  -- A link that has been cancelled.
  pub cancel-Ensures : (s : Site S) → Ensures (λ l. l ≡ closed mac s.link) (cancel_link mac s)
  unfolding cancel_link
  cancel-Ensures s =
      then-Ensures (λ l. l ≡ closed mac s.link) (λ l. l ≡ closed mac s.link) _ _
        (then-Ensures (λ l. l ≡ s.link) (λ l. l ≡ closed mac s.link) _ _
          (then-Ensures (λ l. l ≡ s.link) (λ l. l ≡ s.link) _ _ (unlock-Ensures s)
            (λ n t e.
              subst (λ x. Ensures (λ l. l ≡ x) (unschedule_own mac t)) e (unschedule-Ensures t)))
          (λ n t e. ap (closed mac) e))
        (λ n t e. e)

  -- Closing a link loses no attempt.
  pub closed-IsTracked : (l : PpLinkManager) → IsTracked most l → IsTracked most (closed mac l)
  closed-IsTracked l t = record {
    max = t.max;
    below = t.below;
    at_rest = λ e. cc e;
    asked = λ e. cc e;
    no_data = refl;
  }

  -- A link that is given up, and one that is requested.
  pub given_up-IsTracked :
      (l : PpLinkManager)
      → 0 < most
      → l.max_establishment_attempts ≡ most
      → IsTracked most (no_attempts mac (closed mac l))
  given_up-IsTracked l positive e = record {
    max = e;
    below = positive;
    at_rest = λ f. refl;
    asked = λ f. cc f;
    no_data = refl;
  }

  asked-IsTracked :
      (l : PpLinkManager)
      → l.max_establishment_attempts ≡ most
      → 1 ≤ l.establishment_attempts
      → l.establishment_attempts < most
      → IsTracked most (set_status awaiting_request_generation l)
  asked-IsTracked l e one lt = record {
    max = e;
    below = lt;
    at_rest = λ f. cc f;
    asked = λ f. one;
    no_data = refl;
  }

  attempts_left : (a m : ℕ) → leb m a ≡ false → a < m
  attempts_left a m f = ground arith

  attempt-Ensures :
      (s : Site S)
      → 0 < most
      → s.link.max_establishment_attempts ≡ most
      → 1 ≤ s.link.establishment_attempts
      → is_established s.link.base.link_status ≡ false
      → Ensures (IsTracked most) (attempt_link mac s)
  unfolding attempt_link request_link
  attempt-Ensures s positive e one closed' =
      elim (Bool-cases (leb s.link.max_establishment_attempts s.link.establishment_attempts)) [
        | inl spent ↦ rw spent (
            then-Ensures (λ l. l ≡ closed mac s.link) (IsTracked most) _ _ (cancel-Ensures s)
              (λ u t f.
                subst (λ l. IsTracked most (no_attempts mac l)) (sym f)
                  (given_up-IsTracked s.link positive e)))
        | inr left ↦
            rw (left, closed')
              (then-Ensures (λ l. l ≡ s.link) (IsTracked most) _ _
                (world-Ensures (mac.send_link_request s.link s.link.base.link_id) s)
                (λ u t f.
                  subst (λ l. IsTracked most (set_status awaiting_request_generation l)) (sym f)
                    (asked-IsTracked s.link e one
                      (subst (λ m. s.link.establishment_attempts < m) e (attempts_left _ _ left)))))
      ]

  pub establish-Ensures :
      (s : Site S)
      → 0 < most
      → s.link.max_establishment_attempts ≡ most
      → is_established s.link.base.link_status ≡ false
      → Ensures (IsTracked most) (establish_link mac s)
  unfolding establish_link
  establish-Ensures s positive e closed' =
      attempt-Ensures (record s { link = count_attempt mac s.link }) positive e (omega arith)
        closed'

  pub notify-Ensures :
      (s : Site S)
      → 0 < most
      → IsTracked most s.link
      → Ensures (IsTracked most) (notify_outgoing mac s)
  unfolding notify_outgoing
  notify-Ensures s positive t = elim (Bool-cases (is_not_established s.link.base.link_status)) [
    | inl open' ↦ rw open' (
        establish-Ensures (record s { link = no_attempts mac s.link }) positive t.max
          (other_status s.link.base.link_status open'))
    | inr shut ↦ rw shut t
  ]
    where
      other_status : (x : LinkStatus) → is_not_established x ≡ true → is_established x ≡ false
      other_status x e = ground arith
