-- ===== src/SlotCalculator/Bursts.antt =====
-- The slots of an alternating link in closed form: the `n`-th burst of exchange `e` starts
-- `increment * (e * (forward + reverse) + n)` slots after the first.
use native.Mathlib.Nat.{pow-suc}
use mathlib.Core.List.{append-nil, append_assoc}
use ldacs_mcsotdma.Prelude.{
  ℕ, zero, suc, ◌+◌, ◌*◌, ◌^◌, ◌<◌, ◌≡◌, ◌≢◌, refl, sym, ap, subst, ◌∙◌, List, [], ◌∷◌, ◌++◌, ℤ,
  pos, ◌+ℤ◌, pos_part, arith, dec_lt, length, length-append, All, All-append, All-mono,
}
use ldacs_mcsotdma.SlotCalculator.{
  increment, push_if, forward_bursts, reverse_bursts, exchanges, result,
  calculate_alternating_bursts,
}

-- `n` slots from `s` on, `inc` apart.
unfoldable pub run : ℕ → ℕ → ℕ → List ℤ
run inc zero s = []
run inc (suc n) s = pos s ∷ run inc n (s + inc)

pub length-run : (inc n s : ℕ) → length (run inc n s) ≡ n
unfolding run
length-run inc zero s = refl
length-run inc (suc n) s = ap suc (length-run inc n (s + inc))

shift_pos : (s inc : ℕ) → pos s +ℤ pos inc ≡ pos (s + inc)
unfolding ◌+ℤ◌
shift_pos s inc = ground arith

push_pos : (s : ℕ) (slots : List ℤ) → push_if (pos s) slots ≡ slots ++ pos s ∷ []
push_pos s slots = ground arith

forward_bursts_lem :
    (inc n s : ℕ) (txs rxs : List ℤ)
    → forward_bursts inc n (record { slot = pos s; tx_slots = txs; rx_slots = rxs })
      ≡ record { slot = pos (s + inc * n); tx_slots = txs ++ run inc n s; rx_slots = rxs }
unfolding forward_bursts run
forward_bursts_lem inc zero s txs rxs = let e : s + inc * 0 ≡ s = omega arith in rw (e, append-nil)
forward_bursts_lem inc (suc n) s txs rxs =
    let e : s + inc + inc * n ≡ s + inc * suc n = omega arith in
    rw (
      shift_pos s inc,
      push_pos s txs,
      forward_bursts_lem inc n (s + inc) (txs ++ pos s ∷ []) rxs,
      e,
      append_assoc,
    )

reverse_bursts_lem :
    (inc n s : ℕ) (txs rxs : List ℤ)
    → reverse_bursts inc n (record { slot = pos s; tx_slots = txs; rx_slots = rxs })
      ≡ record { slot = pos (s + inc * n); tx_slots = txs; rx_slots = rxs ++ run inc n s }
unfolding reverse_bursts run
reverse_bursts_lem inc zero s txs rxs = let e : s + inc * 0 ≡ s = omega arith in rw (e, append-nil)
reverse_bursts_lem inc (suc n) s txs rxs =
    let e : s + inc + inc * n ≡ s + inc * suc n = omega arith in
    rw (
      shift_pos s inc,
      push_pos s rxs,
      reverse_bursts_lem inc n (s + inc) txs (rxs ++ pos s ∷ []),
      e,
      append_assoc,
    )

-- The transmission slots of the initiator over `timeout` exchanges, and those of the recipient.
unfoldable pub forward_spec : ℕ → ℕ → ℕ → ℕ → ℕ → List ℤ
unfolding run
forward_spec inc f r zero s = []
forward_spec inc f r (suc timeout) s =
    run inc f s ++ forward_spec inc f r timeout (s + inc * f + inc * r)

unfoldable pub reverse_spec : ℕ → ℕ → ℕ → ℕ → ℕ → List ℤ
unfolding run
reverse_spec inc f r zero s = []
reverse_spec inc f r (suc timeout) s =
    run inc r (s + inc * f) ++ reverse_spec inc f r timeout (s + inc * f + inc * r)

exchange_lem :
    (inc f r s : ℕ) (txs rxs : List ℤ)
    → reverse_bursts inc r
        (forward_bursts inc f (record { slot = pos s; tx_slots = txs; rx_slots = rxs }))
      ≡ record {
        slot = pos (s + inc * f + inc * r);
        tx_slots = txs ++ run inc f s;
        rx_slots = rxs ++ run inc r (s + inc * f);
      }
exchange_lem inc f r s txs rxs =
    ap (reverse_bursts inc r) (forward_bursts_lem inc f s txs rxs)
    ∙ reverse_bursts_lem inc r (s + inc * f) (txs ++ run inc f s) rxs

exchanges_lem :
    (inc f r timeout s : ℕ) (txs rxs : List ℤ)
    → result (exchanges inc f r timeout (record { slot = pos s; tx_slots = txs; rx_slots = rxs }))
      ≡ record {
        tx_slots = txs ++ forward_spec inc f r timeout s;
        rx_slots = rxs ++ reverse_spec inc f r timeout s;
      }
unfolding exchanges forward_spec reverse_spec
exchanges_lem inc f r zero s txs rxs = simp append-nil
exchanges_lem inc f r (suc timeout) s txs rxs =
    ap (λ c. result (exchanges inc f r timeout c)) (exchange_lem inc f r s txs rxs)
    ∙ exchanges_lem inc f r timeout (s + inc * f + inc * r) (txs ++ run inc f s)
        (rxs ++ run inc r (s + inc * f))
    ∙ simp append_assoc

-- From a start slot that is not in the past, the loops produce the closed form.
pub calculate_alternating_bursts_closed :
    (s f r period timeout : ℕ)
    → calculate_alternating_bursts (pos s) f r period timeout ≡ record {
      tx_slots = forward_spec (increment period) f r timeout s;
      rx_slots = reverse_spec (increment period) f r timeout s;
    }
unfolding calculate_alternating_bursts
calculate_alternating_bursts_closed s f r period timeout =
    exchanges_lem (increment period) f r timeout s [] []

length-forward_spec :
    (inc f r timeout s : ℕ) → length (forward_spec inc f r timeout s) ≡ timeout * f
unfolding forward_spec
length-forward_spec inc f r zero s = omega arith
length-forward_spec inc f r (suc timeout) s = omega (
  arith,
  length-append {0} (run inc f s) (forward_spec inc f r timeout (s + inc * f + inc * r)),
  length-run inc f s,
  length-forward_spec inc f r timeout (s + inc * f + inc * r),
)

length-reverse_spec :
    (inc f r timeout s : ℕ) → length (reverse_spec inc f r timeout s) ≡ timeout * r
unfolding reverse_spec
length-reverse_spec inc f r zero s = omega arith
length-reverse_spec inc f r (suc timeout) s = omega (
  arith,
  length-append {0} (run inc r (s + inc * f))
      (reverse_spec inc f r timeout (s + inc * f + inc * r)),
  length-run inc r (s + inc * f),
  length-reverse_spec inc f r timeout (s + inc * f + inc * r),
)

-- `z` is the `n`-th burst, of those from `first` on, in exchange `e`.
abbrev pub IsBurst : ℕ → ℕ → ℕ → ℕ → ℕ → ℕ → ℤ → Type 0
IsBurst inc per_exchange first count timeout s z =
    (e n : ℕ) × (e < timeout) × (n < count) × (z ≡ pos (s + inc * (e * per_exchange + (first + n))))

-- The slots of a run, by their numbers.
pub run_places :
    (inc n from : ℕ) → All (λ z. (k : ℕ) × (k < n) × (z ≡ pos (from + inc * k))) (run inc n from)
unfolding run
run_places inc zero from = tt
run_places inc (suc n) from = (
  (0, omega arith, ap pos (omega arith)),
  All-mono (run inc n (from + inc)) (λ z p. (suc p.0, omega arith, p.2 ∙ ap pos (omega arith)))
      (run_places inc n (from + inc)),
)

run_positions :
    (inc per_exchange first count timeout s : ℕ)
    → All (IsBurst inc per_exchange first count (suc timeout) s) (run inc count (s + inc * first))
unfolding run
run_positions inc per_exchange first count timeout s =
    All-mono (run inc count (s + inc * first))
      (λ z p. (0, p.0, omega arith, p.1, p.2 ∙ ap pos (omega arith)))
      (run_places inc count (s + inc * first))

later :
    (inc f r first count timeout s : ℕ) (z : ℤ)
    → IsBurst inc (f + r) first count timeout (s + inc * f + inc * r) z
    → IsBurst inc (f + r) first count (suc timeout) s z
later inc f r first count timeout s z (e, n, he, hn, eq) =
    (suc e, n, omega arith, hn, eq ∙ ap pos (omega arith))

pub forward_positions :
    (inc f r timeout s : ℕ)
    → All (IsBurst inc (f + r) 0 f timeout s) (forward_spec inc f r timeout s)
unfolding forward_spec
forward_positions inc f r zero s = tt
forward_positions inc f r (suc timeout) s =
    let z : s + inc * 0 ≡ s = omega arith in
    All-append _ (run inc f s) _ (rw z at (run_positions inc (f + r) 0 f timeout s)) (
      All-mono _ (later inc f r 0 f timeout s)
        (forward_positions inc f r timeout (s + inc * f + inc * r)))

pub reverse_positions :
    (inc f r timeout s : ℕ)
    → All (IsBurst inc (f + r) f r timeout s) (reverse_spec inc f r timeout s)
unfolding reverse_spec
reverse_positions inc f r zero s = tt
reverse_positions inc f r (suc timeout) s =
    All-append _ (run inc r (s + inc * f)) _ (run_positions inc (f + r) f r timeout s) (
      All-mono _ (later inc f r f r timeout s)
        (reverse_positions inc f r timeout (s + inc * f + inc * r)))

pub lt_multiple : (e e' p a b : ℕ) → e < e' → a < p → e * p + a < e' * p + b
lt_multiple e e' p a b h k = grind arith

pub mul_cancel : (inc a b : ℕ) → 0 < inc → inc * a ≡ inc * b → a ≡ b
mul_cancel inc a b h e = grind arith

-- A burst of the initiator and one of the recipient never share a slot.
pub bursts_apart :
    (inc f r timeout s : ℕ) (z : ℤ)
    → 0 < inc
    → IsBurst inc (f + r) 0 f timeout s z
    → IsBurst inc (f + r) f r timeout s z
    → ⊥
bursts_apart inc f r timeout s z h (e, n, _, hn, p) (e', n', _, hn', q) = elim (dec_lt e e') [
  | yes lt ↦ omega (arith, same, lt_multiple e e' (f + r) (0 + n) (f + n') lt (omega arith))
  | no ge ↦ elim (dec_lt e' e) [
    | yes gt ↦ omega (arith, same, lt_multiple e' e (f + r) (f + n') (0 + n) gt (omega arith))
    | no le ↦ let eq : e ≡ e' = omega arith in omega (arith, same, ap (λ (k : ℕ). k * (f + r)) eq)
  ]
]
  where
    same : e * (f + r) + (0 + n) ≡ e' * (f + r) + (f + n')
    same = mul_cancel inc _ _ h (omega (arith, ap pos_part (sym p ∙ q)))

-- From a start slot `s` that is not in the past, both users get as many slots as there are
-- exchanges times their bursts, and each slot is the place of one burst of one exchange, at
-- multiples of the increment behind the start: the initiator's first in an exchange, then the
-- recipient's.
pub alternating_bursts_places :
    (s f r period timeout : ℕ)
    → let slots = calculate_alternating_bursts (pos s) f r period timeout in
      (length slots.tx_slots ≡ timeout * f)
      × (length slots.rx_slots ≡ timeout * r)
      × All (IsBurst (increment period) (f + r) 0 f timeout s) slots.tx_slots
      × All (IsBurst (increment period) (f + r) f r timeout s) slots.rx_slots
alternating_bursts_places s f r period timeout =
    rw (calculate_alternating_bursts_closed s f r period timeout) (
      length-forward_spec (increment period) f r timeout s,
      length-reverse_spec (increment period) f r timeout s,
      forward_positions (increment period) f r timeout s,
      reverse_positions (increment period) f r timeout s,
    )

pub pow_pos : (n : ℕ) → 0 < 2 ^ n
pow_pos zero = omega arith
pow_pos (suc n) = rw (pow-suc 2 n) (omega (arith, pow_pos n))

-- No slot is given to both users.
pub alternating_bursts_disjoint :
    (s f r period timeout : ℕ)
    → let slots = calculate_alternating_bursts (pos s) f r period timeout in
      All (λ z. All (λ y. z ≢ y) slots.rx_slots) slots.tx_slots
alternating_bursts_disjoint s f r period timeout =
    rw (calculate_alternating_bursts_closed s f r period timeout) (
      All-mono _
        (λ z p.
          All-mono _
            (λ y q same.
              bursts_apart (increment period) f r timeout s z (omega (arith, pow_pos period)) p
                (subst (IsBurst (increment period) (f + r) f r timeout s) (sym same) q))
            (reverse_positions (increment period) f r timeout s))
        (forward_positions (increment period) f r timeout s))
