-- ===== src/SlotCalculator/Apart.antt =====
-- No slot of an alternating link is given to both of its users, whatever the start slot.
use ldacs_mcsotdma.Prelude.{
  ℕ, zero, suc, ◌+◌, ◌*◌, ◌<◌, ◌≡◌, ◌≢◌, ap, ◌∙◌, List, [], ◌∷◌, ℤ, pos, ◌+ℤ◌, leb_ℤ, pos_part,
  neg_part, arith, int_laws, dec_lt, All, All-append, All-mono, Bool-cases, inl, inr,
}
use ldacs_mcsotdma.SlotCalculator.{increment, calculate_alternating_bursts}
use ldacs_mcsotdma.SlotCalculator.Bursts.{lt_multiple, mul_cancel, pow_pos}
use ldacs_mcsotdma.SlotCalculator.Places.{
  count_from, numbers, present, places, alternating_bursts_closed,
}

-- `k` is the `n`-th number, of those from `first` on, of a round.
abbrev IsNumber : ℕ → ℕ → ℕ → ℕ → Type 0
IsNumber per_round first count k = (e n : ℕ) × (n < count) × (k ≡ e * per_round + (first + n))

count_from_lem : (k n : ℕ) → All (λ j. (m : ℕ) × (m < n) × (j ≡ k + m)) (count_from k n)
unfolding count_from
count_from_lem k zero = tt
count_from_lem k (suc n) = (
  (0, omega arith, omega arith),
  All-mono (count_from (suc k) n) (λ j p. (suc p.0, omega arith, omega (arith, p.2)))
      (count_from_lem (suc k) n),
)

numbers_lem :
    (per_round first count e rounds : ℕ)
    → All (IsNumber per_round first count) (numbers per_round first count e rounds)
unfolding numbers
numbers_lem per_round first count e zero = tt
numbers_lem per_round first count e (suc rounds) =
    All-append _ (count_from (e * per_round + first) count) _
      (All-mono (count_from (e * per_round + first) count)
        (λ j p. (e, p.0, p.1, omega (arith, p.2))) (count_from_lem (e * per_round + first) count))
      (numbers_lem per_round first count (suc e) rounds)

numbers_apart : (f r k : ℕ) → IsNumber (f + r) 0 f k → IsNumber (f + r) f r k → ⊥
numbers_apart f r k (e, n, hn, p) (e', n', hn', q) = elim (dec_lt e e') [
  | yes lt ↦ omega (arith, p, q, lt_multiple e e' (f + r) (0 + n) (f + n') lt (omega arith))
  | no ge ↦ elim (dec_lt e' e) [
    | yes gt ↦ omega (arith, p, q, lt_multiple e' e (f + r) (f + n') (0 + n) gt (omega arith))
    | no le ↦ let eq : e ≡ e' = omega arith in omega (arith, p, q, ap (λ (j : ℕ). j * (f + r)) eq)
  ]
]

shift_cancel : (z : ℤ) (a b : ℕ) → z +ℤ pos a ≡ z +ℤ pos b → a ≡ b
shift_cancel z a b e = omega (int_laws, ap pos_part e, ap neg_part e)

-- What holds of all places holds of those that are not in the past.
present-All :
    (P : ℤ → Type 0) (start : ℤ) (inc : ℕ) (ks : List ℕ)
    → All (λ k. P (start +ℤ pos (inc * k))) ks
    → All P (present (places start inc ks))
unfolding present
present-All P start inc [] a = tt
present-All P start inc (k ∷ ks) a = elim (Bool-cases (leb_ℤ (pos 0) (start +ℤ pos (inc * k)))) [
  | inl e ↦ rw e (a.0, present-All P start inc ks a.1)
  | inr e ↦ rw e (present-All P start inc ks a.1)
]

-- No slot is given to both users, whatever the start slot, also one in the past.
pub alternating_bursts_apart :
    (start : ℤ) (f r period timeout : ℕ)
    → let slots = calculate_alternating_bursts start f r period timeout in
      All (λ z. All (λ y. z ≢ y) slots.rx_slots) slots.tx_slots
alternating_bursts_apart start f r period timeout =
    let inc = increment period in
    rw (alternating_bursts_closed start f r period timeout) (
      present-All _ start inc (numbers (f + r) 0 f 0 timeout) (
        All-mono _
          (λ k p.
            present-All (λ y. (start +ℤ pos (inc * k)) ≢ y) start inc
              (numbers (f + r) f r 0 timeout)
              (All-mono _
                (λ j q same.
                  let eq : k ≡ j =
                    mul_cancel inc k j (omega (arith, pow_pos period))
                      (shift_cancel start _ _ same) in
                  numbers_apart f r k p (q.0, q.1, q.2, eq ∙ q.3))
                (numbers_lem (f + r) f r 0 timeout)))
          (numbers_lem (f + r) 0 f 0 timeout)))
