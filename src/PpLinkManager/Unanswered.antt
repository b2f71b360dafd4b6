-- ===== src/PpLinkManager/Unanswered.antt =====
-- A link whose requests are never answered: runs of its calls, in between of which anything else may
-- happen to the rest of the program.
use ldacs_mcsotdma.Prelude.{ℕ, zero, suc, ◌≡◌, List, [], ◌∷◌, pos}
use ldacs_mcsotdma.Prelude.Result.{Result, ok}
use ldacs_mcsotdma.Reservation.{MacIds}
use ldacs_mcsotdma.ThirdPartyLink.{LinkProposal}
use ldacs_mcsotdma.PpLinkManager.{PpLinkManager, Mac, World, Site, Pp}
use ldacs_mcsotdma.PpLinkManager.Ensures.{Ensures}
use ldacs_mcsotdma.PpLinkManager.Handlers.{notify_link_request_sent}
use ldacs_mcsotdma.PpLinkManager.Locking.{lock_proposed_resources}
use ldacs_mcsotdma.PpLinkManager.Awaited.{slot}

-- What a request announces: the bursts, the period, the slots until the reply is due, and the links
-- that it proposes.
pub record Request : Type 0 where
  pub num_forward_bursts : ℕ
  pub num_recipient_bursts : ℕ
  pub period : ℕ
  pub due : ℕ
  pub proposals : List LinkProposal

module _ ⦃ids : MacIds⦄ {S : Type 0} (mac : Mac S) where
  -- The call is made in a world in which anything may have changed meanwhile, and returns.
  abbrev pub Returns : Pp S (Unit {0}) → Site S → Site S → Type 0
  Returns m s t = (w : World S) × (m (record s { world = w }) ≡ (ok tt, t))

  -- The resources of the proposals are locked.
  abbrev pub Locks : List LinkProposal → Site S → Site S → Type 0
  Locks [] s u = s ≡ u
  Locks (p ∷ ps) s u = (t : Site S) × Returns (lock_proposed_resources mac p) s t × Locks ps t u

  abbrev pub Passes : ℕ → Site S → Site S → Type 0
  Passes zero s u = s ≡ u
  Passes (suc n) s u = (t : Site S) × Returns (slot mac) s t × Passes n t u

  -- Each request is sent and its proposals are locked, and its reply is awaited in vain.
  abbrev pub AskedInVain : List Request → Site S → Site S → Type 0
  AskedInVain [] s v = s ≡ v
  AskedInVain (r ∷ rs) s v =
      (t : Site S) × Returns
        (notify_link_request_sent mac r.num_forward_bursts r.num_recipient_bursts r.period
          (pos r.due))
        s t
      × ((u : Site S) × Locks r.proposals t u
          × ((x : Site S) × Passes (suc r.due) u x × AskedInVain rs x v))
