-- ===== src/BeaconPayload/Copied.antt =====
-- The copy of a payload tells of the same transmissions.
use ldacs_mcsotdma.Prelude.{
  ℕ, ◌≡◌, ◌≢◌, refl, sym, ap, subst, ◌∙◌, inl, inr, ◌==◌, false, List, [], ◌∷◌, ◌++◌, All, arith,
  Bool-cases,
}
use mathlib.Core.List.{append-nil, append_assoc}
use ldacs_mcsotdma.Prelude.Maps.{Entry, IsMap, find, find-absent, equal}
use ldacs_mcsotdma.BeaconPayload.{
  SlotAction, Payload, local_reservations, push_back, push_all, copy_onto, copied,
}
use ldacs_mcsotdma.BeaconPayload.Encoded.{push_back_self, push_back_ne}

push_all_self :
    (f : ℕ) (es : List SlotAction) (p : Payload)
    → local_reservations f (push_all f es p) ≡ local_reservations f p ++ es
unfolding push_all
push_all_self f [] p = sym (append-nil (local_reservations f p))
push_all_self f (e ∷ es) p =
    push_all_self f es (push_back f e p)
    ∙ ap (λ xs. xs ++ es) (push_back_self f e p)
    ∙ append_assoc (local_reservations f p) (e ∷ []) es

push_all_ne :
    (f g : ℕ) (es : List SlotAction) (p : Payload)
    → f ≢ g
    → local_reservations g (push_all f es p) ≡ local_reservations g p
unfolding push_all
push_all_ne f g [] p ne = refl
push_all_ne f g (e ∷ es) p ne = push_all_ne f g es (push_back f e p) ne ∙ push_back_ne f g e p ne

apart : (a b : ℕ) → (a == b) ≡ false → a ≢ b
apart a b f e = absurd (ground arith)

absent :
    (g k : ℕ) (es : Payload)
    → k ≡ g
    → All (λ (d : Entry (List SlotAction)). k ≢ d.key) es
    → local_reservations g es ≡ []
absent g k es e a =
    rw (find-absent g es (subst (λ j. All (λ (d : Entry (List SlotAction)). j ≢ d.key) es) e a))

copy_onto_lem :
    (g : ℕ) (p q : Payload)
    → IsMap p
    → local_reservations g (copy_onto p q) ≡ local_reservations g q ++ local_reservations g p
unfolding copy_onto find
copy_onto_lem g [] q distinct = sym (append-nil (local_reservations g q))
copy_onto_lem g (e ∷ es) q distinct = elim (Bool-cases (e.key == g)) [
  | inl t ↦ rw t (
      copy_onto_lem g es (push_all e.key e.value q) distinct.1
      ∙ ap (λ xs. local_reservations g (push_all e.key e.value q) ++ xs)
          (absent g e.key es (equal e.key g t) distinct.0)
      ∙ append-nil (local_reservations g (push_all e.key e.value q))
      ∙ subst (λ k. local_reservations g (push_all k e.value q) ≡ local_reservations g q ++ e.value)
          (sym (equal e.key g t)) (push_all_self g e.value q))
  | inr f ↦ rw f (
      copy_onto_lem g es (push_all e.key e.value q) distinct.1
      ∙ ap (λ xs. xs ++ local_reservations g es) (push_all_ne e.key g e.value q (apart e.key g f)))
]

-- In a payload in which no channel is listed twice, every channel has the same slots in the copy.
pub local_reservations-copied :
    (g : ℕ) (p : Payload) → IsMap p → local_reservations g (copied p) ≡ local_reservations g p
unfolding find
local_reservations-copied g p distinct = copy_onto_lem g p [] distinct
