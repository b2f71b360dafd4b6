-- ===== src/SlotCalculator/Places.antt =====
-- The slots of both calculations in closed form, from any start slot: the places of the bursts, of
-- which those in the past are left out where the source tests for them.
use mathlib.Core.List.{map-append, append-nil, append_assoc}
use ldacs_mcsotdma.Prelude.{
  ℕ, zero, suc, ◌+◌, ◌*◌, ◌≡◌, refl, sym, ap, ◌∙◌, List, [], ◌∷◌, ◌++◌, map, ℤ, pos, ◌+ℤ◌, leb_ℤ,
  arith, int_laws, Bool-cases, inl, inr, if◌then◌else◌,
}
use ldacs_mcsotdma.SlotCalculator.{
  Cursor, increment, push_if, forward_bursts, reverse_bursts, exchanges, result,
  calculate_alternating_bursts,
}

-- `n` numbers from `k` on.
unfoldable pub count_from : ℕ → ℕ → List ℕ
count_from k zero = []
count_from k (suc n) = k ∷ count_from (suc k) n

-- For each of `rounds` rounds from `e` on, which are `per_round` apart, `count` numbers from
-- `first` on.
unfoldable pub numbers : ℕ → ℕ → ℕ → ℕ → ℕ → List ℕ
unfolding count_from
numbers per_round first count e zero = []
numbers per_round first count e (suc rounds) =
    count_from (e * per_round + first) count ++ numbers per_round first count (suc e) rounds

-- The slots that are not in the past.
unfoldable pub present : List ℤ → List ℤ
present [] = []
present (z ∷ zs) = if leb_ℤ (pos 0) z then z ∷ present zs else present zs

abbrev pub places : ℤ → ℕ → List ℕ → List ℤ
places start inc ks = map (λ k. start +ℤ pos (inc * k)) ks

pub present-append : (xs ys : List ℤ) → present (xs ++ ys) ≡ present xs ++ present ys
unfolding present
present-append [] ys = refl
present-append (z ∷ zs) ys = elim (Bool-cases (leb_ℤ (pos 0) z)) [
  | inl e ↦ rw e (ap (λ ws. z ∷ ws) (present-append zs ys))
  | inr e ↦ rw e (present-append zs ys)
]

pub push_present : (z : ℤ) (slots : List ℤ) → push_if z slots ≡ slots ++ present (z ∷ [])
unfolding present
push_present z slots = elim (Bool-cases (leb_ℤ (pos 0) z)) [
  | inl e ↦ rw e refl
  | inr e ↦ rw e (sym (append-nil slots))
]

pub shift_twice : (z : ℤ) (a b : ℕ) → (z +ℤ pos a) +ℤ pos b ≡ z +ℤ pos (a + b)
shift_twice z a b = omega int_laws

next_place : (z : ℤ) (inc k : ℕ) → (z +ℤ pos (inc * k)) +ℤ pos inc ≡ z +ℤ pos (inc * suc k)
next_place z inc k = shift_twice z (inc * k) inc ∙ ap (λ n. z +ℤ pos n) (omega arith)

pub from_start : (z : ℤ) → z ≡ z +ℤ pos 0
from_start z = omega int_laws

-- The cursor at the `k`-th place.
abbrev cursor : ℤ → ℕ → ℕ → List ℤ → List ℤ → Cursor
cursor start inc k txs rxs = record {
  slot = start +ℤ pos (inc * k);
  tx_slots = txs;
  rx_slots = rxs;
}

forward_places :
    (start : ℤ) (inc n k : ℕ) (txs rxs : List ℤ)
    → forward_bursts inc n (cursor start inc k txs rxs)
      ≡ cursor start inc (k + n) (txs ++ present (places start inc (count_from k n))) rxs
unfolding forward_bursts count_from present
forward_places start inc zero k txs rxs = let e : k + 0 ≡ k = omega arith in rw (e, append-nil) refl
forward_places start inc (suc n) k txs rxs =
    let z = start +ℤ pos (inc * k) in
    let e : suc k + n ≡ k + suc n = omega arith in
    ap (λ c. forward_bursts inc n c)
      (ap (λ w. record { slot = w; tx_slots = push_if z txs; rx_slots = rxs })
          (next_place start inc k)
        ∙ ap (λ ts. cursor start inc (suc k) ts rxs) (push_present z txs))
    ∙ forward_places start inc n (suc k) (txs ++ present (z ∷ [])) rxs
    ∙ ap
        (λ j.
          cursor start inc j
            ((txs ++ present (z ∷ [])) ++ present (places start inc (count_from (suc k) n))) rxs)
        e
    ∙ ap (λ ts. cursor start inc (k + suc n) ts rxs)
        (append_assoc txs (present (z ∷ [])) _
          ∙ ap (λ ys. txs ++ ys)
              (sym (present-append (z ∷ []) (places start inc (count_from (suc k) n)))))

reverse_places :
    (start : ℤ) (inc n k : ℕ) (txs rxs : List ℤ)
    → reverse_bursts inc n (cursor start inc k txs rxs)
      ≡ cursor start inc (k + n) txs (rxs ++ present (places start inc (count_from k n)))
unfolding reverse_bursts count_from present
reverse_places start inc zero k txs rxs = let e : k + 0 ≡ k = omega arith in rw (e, append-nil) refl
reverse_places start inc (suc n) k txs rxs =
    let z = start +ℤ pos (inc * k) in
    let e : suc k + n ≡ k + suc n = omega arith in
    ap (λ c. reverse_bursts inc n c)
      (ap (λ w. record { slot = w; tx_slots = txs; rx_slots = push_if z rxs })
          (next_place start inc k)
        ∙ ap (λ rs. cursor start inc (suc k) txs rs) (push_present z rxs))
    ∙ reverse_places start inc n (suc k) txs (rxs ++ present (z ∷ []))
    ∙ ap
        (λ j.
          cursor start inc j txs
            ((rxs ++ present (z ∷ [])) ++ present (places start inc (count_from (suc k) n))))
        e
    ∙ ap (λ rs. cursor start inc (k + suc n) txs rs)
        (append_assoc rxs (present (z ∷ [])) _
          ∙ ap (λ ys. rxs ++ ys)
              (sym (present-append (z ∷ []) (places start inc (count_from (suc k) n)))))

pub more_present :
    (start : ℤ) (inc : ℕ) (slots : List ℤ) (xs ys : List ℕ)
    → (slots ++ present (places start inc xs)) ++ present (places start inc ys)
      ≡ slots ++ present (places start inc (xs ++ ys))
more_present start inc slots xs ys =
    append_assoc slots _ _
    ∙ ap (λ zs. slots ++ zs)
        (sym (present-append (places start inc xs) (places start inc ys))
          ∙ ap present (sym (map-append (λ k. start +ℤ pos (inc * k)) xs ys)))

exchanges-places :
    (start : ℤ) (inc f r timeout e : ℕ) (txs rxs : List ℤ)
    → result (exchanges inc f r timeout (cursor start inc (e * (f + r)) txs rxs)) ≡ record {
      tx_slots = txs ++ present (places start inc (numbers (f + r) 0 f e timeout));
      rx_slots = rxs ++ present (places start inc (numbers (f + r) f r e timeout));
    }
unfolding exchanges numbers present
exchanges-places start inc f r zero e txs rxs = simp append-nil
exchanges-places start inc f r (suc timeout) e txs rxs =
    let k = e * (f + r) in
    let k0 : k + 0 ≡ k = omega arith in
    let next : k + f + r ≡ suc e * (f + r) = omega arith in
    let ts = txs ++ present (places start inc (count_from k f)) in
    let rs = rxs ++ present (places start inc (count_from (k + f) r)) in
    ap (λ c. result (exchanges inc f r timeout (reverse_bursts inc r c)))
      (forward_places start inc f k txs rxs)
    ∙ ap (λ c. result (exchanges inc f r timeout c)) (reverse_places start inc r (k + f) ts rxs)
    ∙ ap (λ j. result (exchanges inc f r timeout (cursor start inc j ts rs))) next
    ∙ exchanges-places start inc f r timeout (suc e) ts rs
    ∙ ap
        (λ j. record {
          tx_slots =
              (txs ++ present (places start inc (count_from j f)))
              ++ present (places start inc (numbers (f + r) 0 f (suc e) timeout));
          rx_slots = rs ++ present (places start inc (numbers (f + r) f r (suc e) timeout));
        })
        (sym k0)
    ∙ ap
        (λ ts'. record {
          tx_slots = ts';
          rx_slots = rs ++ present (places start inc (numbers (f + r) f r (suc e) timeout));
        })
        (more_present start inc txs (count_from (k + 0) f) (numbers (f + r) 0 f (suc e) timeout))
    ∙ ap
        (λ rs'. record {
          tx_slots = txs ++ present (places start inc (numbers (f + r) 0 f e (suc timeout)));
          rx_slots = rs';
        })
        (more_present start inc rxs (count_from (k + f) r) (numbers (f + r) f r (suc e) timeout))

-- From any start slot, also one in the past, the initiator gets the first places of each exchange
-- and the recipient the places that follow, all of them `5 * 2 ^ period` slots apart; those in the
-- past are left out. In the order of the lists: exchange by exchange, burst by burst.
pub alternating_bursts_closed :
    (start : ℤ) (f r period timeout : ℕ)
    → calculate_alternating_bursts start f r period timeout ≡ record {
      tx_slots = present (places start (increment period) (numbers (f + r) 0 f 0 timeout));
      rx_slots = present (places start (increment period) (numbers (f + r) f r 0 timeout));
    }
unfolding calculate_alternating_bursts
alternating_bursts_closed start f r period timeout =
    let inc = increment period in
    let zero' : inc * (0 * (f + r)) ≡ 0 = omega arith in
    ap (λ z. result (exchanges inc f r timeout (record { slot = z; tx_slots = []; rx_slots = [] })))
      (from_start start ∙ ap (λ n. start +ℤ pos n) (sym zero'))
    ∙ exchanges-places start inc f r timeout 0 [] []
