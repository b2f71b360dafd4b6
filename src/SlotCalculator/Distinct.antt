-- ===== src/SlotCalculator/Distinct.antt =====
-- No slot of an alternating link is given twice to the same user.
use ldacs_mcsotdma.Prelude.{
  ℕ, zero, suc, ◌+◌, ◌*◌, ◌<◌, ◌≤◌, ◌≢◌, sym, ap, ◌∙◌, List, [], ◌∷◌, ◌++◌, ℤ, pos, pos_part, arith,
  All, All-append, All-mono,
}
use ldacs_mcsotdma.SlotCalculator.{increment, calculate_alternating_bursts}
use ldacs_mcsotdma.SlotCalculator.Bursts.{
  run, run_places, forward_spec, reverse_spec, IsBurst, forward_positions, reverse_positions,
  pow_pos, calculate_alternating_bursts_closed,
}

abbrev pub Distinct : List ℤ → Type 0
Distinct [] = Unit
Distinct (z ∷ zs) = All (λ y. y ≢ z) zs × Distinct zs

Distinct-append :
    (xs ys : List ℤ)
    → Distinct xs
    → Distinct ys
    → All (λ x. All (λ y. y ≢ x) ys) xs
    → Distinct (xs ++ ys)
Distinct-append [] ys dx dy apart = dy
Distinct-append (x ∷ xs) ys dx dy apart =
    (All-append _ xs ys dx.0 apart.0, Distinct-append xs ys dx.1 dy apart.1)

run-Distinct : (inc n s : ℕ) → 0 < inc → Distinct (run inc n s)
unfolding run
run-Distinct inc zero s positive = tt
run-Distinct inc (suc n) s positive = (
  All-mono (run inc n (s + inc)) (λ z p same. omega (arith, ap pos_part (sym p.2 ∙ same)))
      (run_places inc n (s + inc)),
  run-Distinct inc n (s + inc) positive,
)

before : (inc k n : ℕ) → 0 < inc → k < n → inc * k < inc * n
before inc k n h lt = grind arith

-- A run that ends where the bursts of the next exchange start has none of them.
apart_later :
    (inc per_exchange first count timeout from n s : ℕ) (ys : List ℤ)
    → 0 < inc
    → from + inc * n ≤ s
    → All (IsBurst inc per_exchange first count timeout s) ys
    → All (λ x. All (λ y. y ≢ x) ys) (run inc n from)
apart_later inc per_exchange first count timeout from n s ys positive ends bursts =
    All-mono (run inc n from)
      (λ x p.
        All-mono ys
          (λ y (e, m, he, hm, at_y) same.
            omega (arith, before inc p.0 n positive p.1, ap pos_part (sym at_y ∙ same ∙ p.2), ends))
          bursts)
      (run_places inc n from)

forward-Distinct : (inc f r timeout s : ℕ) → 0 < inc → Distinct (forward_spec inc f r timeout s)
unfolding forward_spec
forward-Distinct inc f r zero s positive = tt
forward-Distinct inc f r (suc timeout) s positive =
    Distinct-append (run inc f s) _ (run-Distinct inc f s positive)
      (forward-Distinct inc f r timeout (s + inc * f + inc * r) positive)
      (apart_later inc _ _ _ timeout s f (s + inc * f + inc * r) _ positive (omega arith)
        (forward_positions inc f r timeout (s + inc * f + inc * r)))

reverse-Distinct : (inc f r timeout s : ℕ) → 0 < inc → Distinct (reverse_spec inc f r timeout s)
unfolding reverse_spec
reverse-Distinct inc f r zero s positive = tt
reverse-Distinct inc f r (suc timeout) s positive =
    Distinct-append (run inc r (s + inc * f)) _ (run-Distinct inc r (s + inc * f) positive)
      (reverse-Distinct inc f r timeout (s + inc * f + inc * r) positive)
      (apart_later inc _ _ _ timeout (s + inc * f) r (s + inc * f + inc * r) _ positive
        (omega arith) (reverse_positions inc f r timeout (s + inc * f + inc * r)))

-- From a start slot that is not in the past, no slot is given twice to the same user.
pub alternating_bursts-Distinct :
    (s f r period timeout : ℕ)
    → let slots = calculate_alternating_bursts (pos s) f r period timeout in
      Distinct slots.tx_slots × Distinct slots.rx_slots
alternating_bursts-Distinct s f r period timeout =
    rw (calculate_alternating_bursts_closed s f r period timeout) (
      forward-Distinct (increment period) f r timeout s (omega (arith, pow_pos period)),
      reverse-Distinct (increment period) f r timeout s (omega (arith, pow_pos period)),
    )
