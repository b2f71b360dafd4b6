-- ===== src/SlotCalculator.antt =====
-- SlotCalculator.cpp: which slots the bursts of a link fall into. The counters of the loops are
-- the numbers of rounds left; `slot` and the two vectors are the state.
pub mod Bursts
pub mod Places
pub mod Apart
pub mod Shared
pub mod Distinct
use ldacs_mcsotdma.Prelude.{
  ℕ, zero, suc, ◌+◌, ◌*◌, ◌^◌, ◌%◌, List, [], ◌∷◌, ◌++◌, ℤ, pos, ◌+ℤ◌, leb_ℤ, to_u32, to_i32,
  u32_mod, if◌then◌else◌,
}

pub record Slots : Type 0 where
  pub tx_slots : List ℤ
  pub rx_slots : List ℤ

-- `if (slot >= 0) slots.push_back(slot)`
abbrev pub push_if : ℤ → List ℤ → List ℤ
push_if slot slots = if leb_ℤ (pos 0) slot then slots ++ slot ∷ [] else slots

-- `int increment = 5*std::pow(2, period)`
abbrev pub increment : ℕ → ℕ
increment period = 5 * 2 ^ period

pub record Cursor : Type 0 where
  pub slot : ℤ
  pub tx_slots : List ℤ
  pub rx_slots : List ℤ

-- The loop over `fw_burst`.
unfoldable pub forward_bursts : ℕ → ℕ → Cursor → Cursor
forward_bursts inc zero c = c
forward_bursts inc (suc n) c =
    forward_bursts inc n
      (record c { slot = c.slot +ℤ pos inc; tx_slots = push_if c.slot c.tx_slots })

-- The loop over `rv_burst`.
unfoldable pub reverse_bursts : ℕ → ℕ → Cursor → Cursor
reverse_bursts inc zero c = c
reverse_bursts inc (suc n) c =
    reverse_bursts inc n
      (record c { slot = c.slot +ℤ pos inc; rx_slots = push_if c.slot c.rx_slots })

-- The loop over `exchange`.
unfoldable pub exchanges : ℕ → ℕ → ℕ → ℕ → Cursor → Cursor
unfolding forward_bursts reverse_bursts
exchanges inc num_forward num_reverse zero c = c
exchanges inc num_forward num_reverse (suc timeout) c =
    exchanges inc num_forward num_reverse timeout
      (reverse_bursts inc num_reverse (forward_bursts inc num_forward c))

abbrev pub result : Cursor → Slots
result c = record { tx_slots = c.tx_slots; rx_slots = c.rx_slots }

-- `start` is `int`; the other arguments are `int` counts that are not negative.
unfoldable pub calculate_alternating_bursts : ℤ → ℕ → ℕ → ℕ → ℕ → Slots
unfolding exchanges
calculate_alternating_bursts start_slot_offset num_forward_bursts num_reverse_bursts period
      timeout =
    result (
      exchanges (increment period) num_forward_bursts num_reverse_bursts timeout
        (record { slot = start_slot_offset; tx_slots = []; rx_slots = [] }))

-- The loop over `tx_slot` of `calculateTxRxSlots`: `slot_offset` is an `int`.
unfoldable pub tx_loop : ℤ → ℕ → ℕ → List ℤ → List ℤ
tx_loop base k zero slots = slots
tx_loop base k (suc n) slots = tx_loop base (suc k) n (push_if (base +ℤ pos k) slots)

-- The loop over `rx_slot`: `slot_offset` is an `unsigned int`, so its test always passes, and
-- `push_back` converts it to `int`.
unfoldable pub rx_loop : ℤ → ℕ → ℕ → List ℤ → List ℤ
rx_loop base k zero slots = slots
rx_loop base k (suc n) slots =
    rx_loop base (suc k) n (slots ++ to_i32 ((to_u32 base + k) % u32_mod) ∷ [])

-- The loop over `burst`; `base` is `start_slot_offset + burst*burst_offset`.
unfoldable pub burst_loop : ℕ → ℕ → ℕ → ℕ → ℤ → Slots → Slots
unfolding tx_loop rx_loop
burst_loop len_tx len_rx burst_offset zero base s = s
burst_loop len_tx len_rx burst_offset (suc n) base s =
    burst_loop len_tx len_rx burst_offset n (base +ℤ pos burst_offset) (record {
      tx_slots = tx_loop base 0 len_tx s.tx_slots;
      rx_slots = rx_loop (base +ℤ pos len_tx) 0 len_rx s.rx_slots;
    })

-- `burst_length` is not read by the source.
unfoldable pub calculate_tx_rx_slots : ℤ → ℕ → ℕ → ℕ → ℕ → ℕ → Slots
unfolding burst_loop
calculate_tx_rx_slots start_slot_offset burst_length len_tx len_rx burst_offset timeout =
    burst_loop len_tx len_rx burst_offset timeout start_slot_offset
      (record { tx_slots = []; rx_slots = [] })
