-- ===== src/SlotCalculator/Shared.antt =====
-- The slots of `calculateTxRxSlots` in closed form: transmission slots in the past are left out, but
-- not reception slots, since the test in their loop is made on an unsigned number.
use mathlib.Core.List.{map-append, append-nil, append_assoc}
use ldacs_mcsotdma.Prelude.{
  ℕ, zero, suc, ◌+◌, ◌*◌, ◌%◌, ◌≡◌, sym, ap, ◌∙◌, List, [], ◌∷◌, ◌++◌, ℤ, pos, negsuc, ◌+ℤ◌, ◌≤ℤ◌,
  to_u32, to_i32, u32_mod, arith, int_laws,
}
use ldacs_mcsotdma.SlotCalculator.{push_if, tx_loop, rx_loop, burst_loop, calculate_tx_rx_slots}
use ldacs_mcsotdma.SlotCalculator.Places.{
  count_from, numbers, present, places, push_present, shift_twice, from_start, more_present,
}

-- The `k`-th slot from the start.
same_place : (start : ℤ) (a k : ℕ) → (start +ℤ pos a) +ℤ pos k ≡ start +ℤ pos (1 * (a + k))
same_place start a k = shift_twice start a k ∙ ap (λ n. start +ℤ pos n) (omega arith)

tx_places :
    (start : ℤ) (a k n : ℕ) (slots : List ℤ)
    → tx_loop (start +ℤ pos a) k n slots ≡ slots ++ present (places start 1 (count_from (a + k) n))
unfolding tx_loop count_from present
tx_places start a k zero slots = sym (append-nil slots)
tx_places start a k (suc n) slots =
    let z = start +ℤ pos (1 * (a + k)) in
    let e : a + suc k ≡ suc (a + k) = omega arith in
    ap (λ w. tx_loop (start +ℤ pos a) (suc k) n (push_if w slots)) (same_place start a k)
    ∙ ap (tx_loop (start +ℤ pos a) (suc k) n) (push_present z slots)
    ∙ tx_places start a (suc k) n (slots ++ present (z ∷ []))
    ∙ ap (λ j. (slots ++ present (z ∷ [])) ++ present (places start 1 (count_from j n))) e
    ∙ more_present start 1 slots ((a + k) ∷ []) (count_from (suc (a + k)) n)

-- The conversions there and back cancel out where the slot is an `int`.
wrapped :
    (z : ℤ) (k : ℕ)
    → negsuc 2147483647 ≤ℤ z
    → z +ℤ pos k ≤ℤ pos 2147483647
    → to_i32 ((to_u32 z + k) % u32_mod) ≡ z +ℤ pos k
unfolding ◌+ℤ◌
wrapped (pos n) k low high = ground arith
wrapped (negsuc n) k low high = ground arith

rx_places :
    (start : ℤ) (a k n : ℕ) (slots : List ℤ)
    → negsuc 2147483647 ≤ℤ start +ℤ pos a
    → start +ℤ pos (a + (k + n)) ≤ℤ pos 2147483648
    → rx_loop (start +ℤ pos a) k n slots ≡ slots ++ places start 1 (count_from (a + k) n)
unfolding rx_loop count_from
rx_places start a k zero slots low high = sym (append-nil slots)
rx_places start a k (suc n) slots low high =
    let z = start +ℤ pos (1 * (a + k)) in
    let e : a + suc k ≡ suc (a + k) = omega arith in
    ap (λ w. rx_loop (start +ℤ pos a) (suc k) n (slots ++ w ∷ []))
      (wrapped (start +ℤ pos a) k low (omega (int_laws, high)) ∙ same_place start a k)
    ∙ rx_places start a (suc k) n (slots ++ z ∷ []) low (omega (int_laws, high))
    ∙ ap (λ j. (slots ++ z ∷ []) ++ places start 1 (count_from j n)) e
    ∙ append_assoc slots (z ∷ []) _

more_places :
    (start : ℤ) (slots : List ℤ) (xs ys : List ℕ)
    → (slots ++ places start 1 xs) ++ places start 1 ys ≡ slots ++ places start 1 (xs ++ ys)
more_places start slots xs ys =
    append_assoc slots _ _
    ∙ ap (λ zs. slots ++ zs) (sym (map-append (λ k. start +ℤ pos (1 * k)) xs ys))

bursts_places :
    (start : ℤ) (len_tx len_rx burst_offset rounds e : ℕ) (txs rxs : List ℤ)
    → negsuc 2147483647 ≤ℤ start
    → start +ℤ pos ((e + rounds) * burst_offset + (len_tx + len_rx)) ≤ℤ pos 2147483648
    → burst_loop len_tx len_rx burst_offset rounds
        (start +ℤ pos (e * burst_offset))
        (record { tx_slots = txs; rx_slots = rxs })
      ≡ record {
        tx_slots = txs ++ present (places start 1 (numbers burst_offset 0 len_tx e rounds));
        rx_slots = rxs ++ places start 1 (numbers burst_offset len_tx len_rx e rounds);
      }
unfolding burst_loop numbers present
bursts_places start len_tx len_rx burst_offset zero e txs rxs low high = simp append-nil
bursts_places start len_tx len_rx burst_offset (suc rounds) e txs rxs low high =
    let a = e * burst_offset in
    let step : a + burst_offset ≡ suc e * burst_offset = omega arith in
    let room : a + burst_offset + rounds * burst_offset ≡ (e + suc rounds) * burst_offset =
      omega arith in
    let k : a + len_tx + 0 ≡ a + len_tx = omega arith in
    let ts = txs ++ present (places start 1 (count_from (a + 0) len_tx)) in
    let rs = rxs ++ places start 1 (count_from (a + len_tx) len_rx) in
    ap
      (λ ts'.
        burst_loop len_tx len_rx burst_offset rounds ((start +ℤ pos a) +ℤ pos burst_offset)
          (record {
            tx_slots = ts';
            rx_slots = rx_loop ((start +ℤ pos a) +ℤ pos len_tx) 0 len_rx rxs;
          }))
      (tx_places start a 0 len_tx txs)
    ∙ ap
        (λ rs'.
          burst_loop len_tx len_rx burst_offset rounds ((start +ℤ pos a) +ℤ pos burst_offset)
            (record { tx_slots = ts; rx_slots = rs' }))
        (ap (λ z. rx_loop z 0 len_rx rxs) (shift_twice start a len_tx)
          ∙ rx_places start (a + len_tx) 0 len_rx rxs (omega (int_laws, low))
              (omega (int_laws, high, room))
          ∙ ap (λ j. rxs ++ places start 1 (count_from j len_rx)) k)
    ∙ ap
        (λ z.
          burst_loop len_tx len_rx burst_offset rounds z (record { tx_slots = ts; rx_slots = rs }))
        (shift_twice start a burst_offset ∙ ap (λ n. start +ℤ pos n) step)
    ∙ bursts_places start len_tx len_rx burst_offset rounds (suc e) ts rs low
        (omega (int_laws, high, room, step))
    ∙ ap
        (λ ts'. record {
          tx_slots = ts';
          rx_slots = rs ++ places start 1 (numbers burst_offset len_tx len_rx (suc e) rounds);
        })
        (more_present start 1 txs (count_from (a + 0) len_tx)
          (numbers burst_offset 0 len_tx (suc e) rounds))
    ∙ ap
        (λ rs'. record {
          tx_slots = txs ++ present (places start 1 (numbers burst_offset 0 len_tx e (suc rounds)));
          rx_slots = rs';
        })
        (more_places start rxs (count_from (a + len_tx) len_rx)
          (numbers burst_offset len_tx len_rx (suc e) rounds))

-- Where all slots are within an `int`: each burst starts `burst_offset` slots after the one before,
-- with its transmission slots and then its reception slots, and the lists have them burst by burst.
-- Transmission slots in the past are left out; reception slots in the past are returned.
pub tx_rx_slots_closed :
    (start : ℤ) (burst_length len_tx len_rx burst_offset timeout : ℕ)
    → negsuc 2147483647 ≤ℤ start
    → start +ℤ pos (timeout * burst_offset + (len_tx + len_rx)) ≤ℤ pos 2147483648
    → calculate_tx_rx_slots start burst_length len_tx len_rx burst_offset timeout ≡ record {
      tx_slots = present (places start 1 (numbers burst_offset 0 len_tx 0 timeout));
      rx_slots = places start 1 (numbers burst_offset len_tx len_rx 0 timeout);
    }
unfolding calculate_tx_rx_slots
tx_rx_slots_closed start burst_length len_tx len_rx burst_offset timeout low high =
    let zero' : 0 * burst_offset ≡ 0 = omega arith in
    let same : 0 + timeout ≡ timeout = omega arith in
    ap
      (λ z.
        burst_loop len_tx len_rx burst_offset timeout z (record { tx_slots = []; rx_slots = [] }))
      (from_start start ∙ ap (λ n. start +ℤ pos n) (sym zero'))
    ∙ bursts_places start len_tx len_rx burst_offset timeout 0 [] [] low
        (omega (int_laws, high, ap (λ (n : ℕ). n * burst_offset) same))
