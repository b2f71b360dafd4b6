-- ===== src/PpLinkManager/Runs.antt =====
-- The handlers of a point-to-point link as steps, and what holds in every state they reach.
use ldacs_mcsotdma.Prelude.{ℕ, ◌<◌, ◌≡◌, refl, sym, subst, Bool, ℤ}
use ldacs_mcsotdma.Prelude.Result.{Result, ok}
use ldacs_mcsotdma.Reservation.{MacId, MacIds}
use ldacs_mcsotdma.ThirdPartyLink.{LinkProposal}
use ldacs_mcsotdma.PpLinkManager.{Mac, Site}
use ldacs_mcsotdma.PpLinkManager.Ensures.{Ensures, weaken}
use ldacs_mcsotdma.PpLinkManager.Accepting.{accept_link}
use ldacs_mcsotdma.PpLinkManager.Handlers.{
  notify_outgoing, on_pp_slot_start, on_pp_slot_end, on_pp_transmission, notify_link_request_sent,
  new_slot, closed, cancel_link,
}
use ldacs_mcsotdma.PpLinkManager.Locking.{lock_proposed_resources}
use ldacs_mcsotdma.PpLinkManager.Attempts.{
  IsTracked, notify-Ensures, cancel-Ensures, closed-IsTracked,
}
use ldacs_mcsotdma.PpLinkManager.Tracked.{IsSame-IsTracked, same_tracked, slot_end-Ensures}
use ldacs_mcsotdma.PpLinkManager.Accepted.{
  transmission-Ensures, request-Ensures, lock-Ensures, accept-Ensures,
}

-- A call of the link that returns, or anything that leaves the link alone.
pub data Step ⦃ids : MacIds⦄ {S : Type 0} (mac : Mac S) (s t : Site S) : Type 0 where
  outgoing : notify_outgoing mac s ≡ (ok tt, t) → Step mac s t
  slot_start : (num_slots : ℕ) → on_pp_slot_start mac num_slots s ≡ (ok tt, t) → Step mac s t
  slot_end : on_pp_slot_end mac s ≡ (ok tt, t) → Step mac s t
  transmission : (packet : MacId × MacId) → on_pp_transmission mac s ≡ (ok packet, t) → Step mac s t
  request_sent :
      (num_forward num_recipient period : ℕ) (slot : ℤ)
      → notify_link_request_sent mac num_forward num_recipient period slot s ≡ (ok tt, t)
      → Step mac s t
  accepted :
      (proposal : LinkProposal) (through_request : Bool)
      → accept_link mac proposal through_request s ≡ (ok tt, t)
      → Step mac s t
  locked :
      (proposal : LinkProposal) → lock_proposed_resources mac proposal s ≡ (ok tt, t) → Step mac s t
  cancelled : cancel_link mac s ≡ (ok tt, t) → Step mac s t
  elsewhere : t.link ≡ s.link → Step mac s t

pub data Reach ⦃ids : MacIds⦄ {S : Type 0} (mac : Mac S) (s : Site S) : Site S → Type 0 where
  here : Reach mac s s
  next : {t u : Site S} → Reach mac s t → Step mac t u → Reach mac s u

module _ ⦃ids : MacIds⦄ {S : Type 0} (mac : Mac S) (most : ℕ) (positive : 0 < most) where
  after :
      {A : Type 0} (o : Result A × Site S) (a : A) (t : Site S)
      → Ensures (IsTracked most) o
      → o ≡ (ok a, t)
      → IsTracked most t.link
  after o a t k e = subst (Ensures (IsTracked most)) e k

  closed-Ensures :
      (s : Site S) → IsTracked most s.link → Ensures (IsTracked most) (cancel_link mac s)
  closed-Ensures s k =
      weaken (λ l. l ≡ closed mac s.link) (IsTracked most) (cancel_link mac s)
        (cancel-Ensures mac most s)
        (λ l e. subst (IsTracked most) (sym e) (closed-IsTracked mac most s.link k))

  Step-IsTracked : (s t : Site S) → IsTracked most s.link → Step mac s t → IsTracked most t.link
  Step-IsTracked s t k (outgoing e) = after _ tt t (notify-Ensures mac most s positive k) e
  Step-IsTracked s t k (slot_start n e) =
      after _ tt t (IsSame-IsTracked most s.link (new_slot mac s.link) (refl, refl, refl) k) e
  Step-IsTracked s t k (slot_end e) = after _ tt t (slot_end-Ensures mac most s positive k) e
  Step-IsTracked s t k (transmission p e) =
      after _ p t
        (same_tracked mac most (on_pp_transmission mac) s k (transmission-Ensures mac most s)) e
  Step-IsTracked s t k (request_sent a b c d e) =
      after _ tt t (request-Ensures mac most a b c d s k) e
  Step-IsTracked s t k (accepted p b e) = after _ tt t (accept-Ensures mac most p b s positive k) e
  Step-IsTracked s t k (locked p e) =
      after _ tt t
        (same_tracked mac most (lock_proposed_resources mac p) s k (lock-Ensures mac most p s)) e
  Step-IsTracked s t k (cancelled e) = after _ tt t (closed-Ensures s k) e
  Step-IsTracked s t k (elsewhere e) = subst (IsTracked most) (sym e) k

  -- An invariant of every state that the handlers of a link reach.
  pub Reach-IsTracked :
      (s t : Site S) → IsTracked most s.link → Reach mac s t → IsTracked most t.link
  Reach-IsTracked s t k here = k
  Reach-IsTracked s t k (next r step) = Step-IsTracked _ t (Reach-IsTracked s _ k r) step
