-- ===== src/McsotdmaMac/Resets.antt =====
-- MCSOTDMA_Mac.cpp: what the reset of a third-party link does to the others.
use ldacs_mcsotdma.Prelude.{ℕ, Bool, not, ◌&&◌, ◌==◌, List, [], ◌∷◌, if◌then◌else◌}
use ldacs_mcsotdma.Prelude.Result.{Result, ok, err}
use ldacs_mcsotdma.Reservation.{MacIds}
use ldacs_mcsotdma.Table.{Heap}
use ldacs_mcsotdma.ThirdPartyLink.{ThirdPartyLink, Mac}
use ldacs_mcsotdma.ThirdPartyLink.Reply.{on_another_third_link_reset}
use ldacs_mcsotdma.McsotdmaMac.ThirdParty.{LinkEntry}

-- `ThirdPartyLink::operator==`
abbrev pub is_link : ThirdPartyLink → ThirdPartyLink → Bool
is_link link other =
    (link.id_link_initiator == other.id_link_initiator)
    && (link.id_link_recipient == other.id_link_recipient)

module _ ⦃ids : MacIds⦄ where
  -- The links and the tables.
  abbrev Links : Type 0
  Links = List (LinkEntry ThirdPartyLink) × Heap

  abbrev in_front : LinkEntry ThirdPartyLink → Result (Unit {0}) × Links → Result (Unit {0}) × Links
  in_front e (r, (es, h)) = (r, (e ∷ es, h))

  abbrev go_on :
      LinkEntry ThirdPartyLink
      → List (LinkEntry ThirdPartyLink)
      → (Heap → Result (Unit {0}) × Links)
      → Result (Unit {0}) × (ThirdPartyLink × Heap)
      → Result (Unit {0}) × Links
  go_on e es rest (ok u, (link, h)) = in_front (record e { link = link }) (rest h)
  go_on e es rest (err x, (link, h)) = (err x, (record e { link = link } ∷ es, h))

  -- `onThirdPartyLinkReset`: an exception leaves the links that follow as they are.
  unfoldable pub on_third_party_link_reset :
      ℕ → Mac → ThirdPartyLink → List (LinkEntry ThirdPartyLink) → Heap → Result (Unit {0}) × Links
  unfolding on_another_third_link_reset
  on_third_party_link_reset depth mac caller [] h = (ok tt, ([], h))
  on_third_party_link_reset depth mac caller (e ∷ es) h =
      if not (is_link e.link caller)
      then go_on e es (on_third_party_link_reset depth mac caller es)
          (on_another_third_link_reset depth mac e.link h)
      else in_front e (on_third_party_link_reset depth mac caller es h)
