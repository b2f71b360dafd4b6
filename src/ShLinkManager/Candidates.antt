-- ===== src/ShLinkManager/Candidates.antt =====
-- The slots that a broadcast may be sent in.
use ldacs_mcsotdma.Prelude.{
  ℕ, zero, suc, ◌+◌, ◌%◌, ◌<◌, ◌≡◌, ap, subst, ◌∙◌, inl, inr, ◌||◌, List, [], ◌∷◌, ◌++◌, ℤ, pos,
  ◌+ℤ◌, to_u32, u32_mod, arith, All, All-append, Bool-cases, if◌then◌else◌,
}
use ldacs_mcsotdma.Prelude.Result.{
  ok, err, Error, Result-cases, is_range_error, is_invalid_argument,
}
use ldacs_mcsotdma.Table.{TableId, Heap}
use ldacs_mcsotdma.Table.Index.{IsWellFormed}
use ldacs_mcsotdma.Table.Find.{candidates, find_earliest_idle_slots_bc}
use ldacs_mcsotdma.Table.Free.{CanSend}
use ldacs_mcsotdma.Table.Candidates.{find_bc_earliest}
use ldacs_mcsotdma.DutyCycle.{at}

-- A slot from now to the horizon in which the table and its transmitter are idle.
abbrev pub IsSendable : Heap → TableId → ℕ → Type 0
IsSendable h i n = (n < (h.tables i).planning_horizon) × CanSend h i (pos n)

abbrev pub IsCandidate : Heap → TableId → ℤ → Type 0
IsCandidate h i z = (n : ℕ) × (z ≡ pos n) × IsSendable h i n

pub ok-injective : {A : Type 0} (a b : A) → ok a ≡ ok b → a ≡ b
ok-injective a b e = ground arith

pub small : (n : ℕ) → n < 2147483648 → n % u32_mod ≡ n
small n b = ground arith

one_more : (n : ℕ) → pos n +ℤ pos 1 ≡ pos (suc n)
unfolding ◌+ℤ◌
one_more n = ground arith

pub candidates-AllCandidates :
    (h : Heap) (i : TableId) (rounds last : ℕ) (found out : List ℤ)
    → IsWellFormed (h.tables i)
    → last < 2147483648
    → All (IsCandidate h i) found
    → candidates (λ t. find_earliest_idle_slots_bc h i (to_u32 t)) rounds (pos last) found ≡ ok out
    → All (IsCandidate h i) out
unfolding candidates
candidates-AllCandidates h i zero last found out w b all e =
    subst (All (IsCandidate h i)) (ok-injective found out e) all
candidates-AllCandidates h i (suc rounds) last found out w b all e =
    elim (Result-cases (find_earliest_idle_slots_bc h i (last % u32_mod))) [
      | inl (z, hit) ↦
          let (k, at_k, lt, can, _) =
            find_bc_earliest h i last z b
              (subst (λ n. find_earliest_idle_slots_bc h i n ≡ ok z) (small last b) hit) in
          let next : z +ℤ pos 1 ≡ pos (suc (last + k)) =
            ap (λ x. x +ℤ pos 1) at_k ∙ one_more (last + k) in
          let new : IsCandidate h i z = (last + k, at_k, (lt, subst (CanSend h i) at_k can)) in
          candidates-AllCandidates h i rounds (suc (last + k)) (found ++ z ∷ []) out w
            (omega (arith, lt, w.short)) (All-append (IsCandidate h i) found (z ∷ []) all (new, tt))
            (subst
              (λ x.
                candidates (λ t. find_earliest_idle_slots_bc h i (to_u32 t)) rounds x
                  (found ++ z ∷ [])
                ≡ ok out)
              next (rw (candidates, hit) at e))
      | inr (x, miss) ↦ missed x found out all (rw (candidates, miss) at e)
    ]
  where
    missed :
        (x : Error) (found out : List ℤ)
        → All (IsCandidate h i) found
        → (if is_range_error x || is_invalid_argument x then ok found else err x) ≡ ok out
        → All (IsCandidate h i) out
    missed x found out all e = elim (Bool-cases (is_range_error x || is_invalid_argument x)) [
      | inl caught ↦ subst (All (IsCandidate h i)) (ok-injective found out (rw caught at e)) all
      | inr other ↦ cc (rw other at e)
    ]

-- An element that `at` returns is one of the list.
pub at_all : (P : ℤ → Type 0) (zs : List ℤ) (k : ℕ) (z : ℤ) → All P zs → at zs k ≡ ok z → P z
unfolding at
at_all P [] k z all e = cc e
at_all P (x ∷ xs) zero z all e = subst P (ok-injective x z e) all.0
at_all P (x ∷ xs) (suc k) z all e = at_all P xs k z all.1 e
