-- ===== src/Table/Candidates.antt =====
-- The lists of candidate slots that link requests and broadcasts choose from.
use ldacs_mcsotdma.Prelude.{
  ℕ, zero, suc, ◌+◌, ◌-◌, ◌≤◌, ◌<◌, ◌≡◌, refl, sym, ap, ◌∙◌, Bool, true, false, inl, inr, ◌&&◌,
  Option-cases, some, List, [], ℤ, pos, pos_part, neg_part, ◌+ℤ◌, ◌≤ℤ◌, +ℤ_parts, arith, length,
  All, All-mono, to_i32,
}
use ldacs_mcsotdma.Prelude.Result.{
  Result, ok, Error, guard, ◌>>=◌, Result-cases, invalid_argument, runtime_error,
}
use ldacs_mcsotdma.Table.{Table, TableId, Heap, is_valid}
use ldacs_mcsotdma.Table.Query.{is_slot_idle, is_range_idle}
use ldacs_mcsotdma.Table.Find.{
  is_burst_valid, hardware_idle, is_linked, Demand, demand_slots, pp_test, first_slot_from,
  find_earliest_idle_slots_pp, find_earliest_idle_slots_bc, find_pp_candidates,
}
use ldacs_mcsotdma.Table.Free.{
  and_then-true, IsFree, CanSend, IsUsable, is_slot_idle-true, slots_valid-IsUsable,
  pp_test-slots_valid,
}
use ldacs_mcsotdma.Table.Search.{
  Searched, hit, missed, broken, first_slot_from-Searched, Ascends, candidates_lem,
}

-- What a search returns passes, and does not lie before its start.
first_slot_from_forward :
    (test : ℤ → Result Bool) (rounds : ℕ) (t z : ℤ)
    → first_slot_from test rounds t ≡ ok z
    → (t ≤ℤ z) × (test z ≡ ok true)
unfolding first_slot_from
first_slot_from_forward test zero t z e = cc
first_slot_from_forward test (suc rounds) t z e = elim (Result-cases (test t)) [
  | inl (true, eq) ↦
      let same : t ≡ z = cc (rw eq at e) in
      (omega (arith, ap pos_part same, ap neg_part same), ap test (sym same) ∙ eq)
  | inl (false, eq) ↦
      let (le, passes) = first_slot_from_forward test rounds (t +ℤ pos 1) z (rw eq at e) in
      (omega (arith, +ℤ_parts t (pos 1)), passes)
  | inr (x, eq) ↦ cc (rw eq at e)
]

-- Of the point-to-point candidates there are as many as asked for at most; each lies behind the
-- one before, the first not before the minimum offset; and from each the link's transmission
-- slots are idle in the table and at the transmitter, its reception slots in the table and at
-- a receiver.
pub find_pp_candidates-IsUsable :
    (h : Heap) (i : TableId) (num min_offset : ℕ) (d : Demand) (out : List ℤ)
    → find_pp_candidates h i num min_offset d ≡ ok out
    → (length out ≤ num)
      × Ascends (to_i32 min_offset) out
      × All (λ z. IsUsable h i (demand_slots d z).tx_slots (demand_slots d z).rx_slots) out
unfolding find_pp_candidates find_earliest_idle_slots_pp
find_pp_candidates-IsUsable h i num min_offset d out e =
    let found = λ (t z : ℤ) (eq : find_earliest_idle_slots_pp h i d t ≡ ok z).
      first_slot_from_forward (pp_test h i d) _ t z eq in
    let (new, split, short, up, from) =
      candidates_lem (find_earliest_idle_slots_pp h i d) num (to_i32 min_offset) [] out
        (λ t z eq. (found t z eq).0) e in
    rw split (
      short,
      up,
      All-mono new
          (λ z f. slots_valid-IsUsable h i _ _ (pp_test-slots_valid h i d z (found f.0 z f.1).1))
          from,
    )

single_idle : (t : Table) (slot : ℤ) → is_range_idle t slot 1 ≡ is_slot_idle t slot
unfolding is_range_idle
single_idle t slot = refl

drop_true : (b : Bool) → ok (b && true) ≡ ok true → ok b ≡ ok true
drop_true true h = refl
drop_true false h = cc

-- With a burst of one transmission slot only the transmitter is asked.
hardware_single :
    (h : Heap) (i : TableId) (slot : ℤ)
    → hardware_idle h (h.tables i) slot 1 1 false ≡ ok true
    → (j : TableId) × ((h.tables i).transmitter_reservation_table ≡ some j)
      × IsFree (h.tables j) slot
unfolding hardware_idle
hardware_single h i slot e = elim (Option-cases (h.tables i).transmitter_reservation_table) [
  | inl eq ↦ cc (rw eq at e)
  | inr (j, eq) ↦ elim (Result-cases (is_slot_idle (h.tables j) slot)) [
    | inl (b, r) ↦
        let yes' : ok (b && true) ≡ ok true = rw r at (rw eq at e) in
        (j, eq, is_slot_idle-true (h.tables j) slot (r ∙ drop_true b yes'))
    | inr (x, r) ↦ cc (rw r at (rw eq at e))
  ]
]

burst_valid-CanSend :
    (h : Heap) (i : TableId) (slot : ℤ)
    → is_burst_valid h i slot 1 1 false ≡ ok true
    → CanSend h i slot
unfolding is_burst_valid
burst_valid-CanSend h i slot e =
    let (here, there) = and_then-true (is_range_idle (h.tables i) slot 1) _ e in
    (
      is_slot_idle-true (h.tables i) slot (sym (single_idle (h.tables i) slot) ∙ here),
      hardware_single h i slot there,
    )

guard-ok :
    {A : Type 0} (b : Bool) (x : Error) {m : Result A} (a : A)
    → (guard b x >>= λ _. m) ≡ ok a
    → m ≡ ok a
guard-ok true x a h = h
guard-ok false x a h = cc

-- A slot that the broadcast search returns is at or after `n` and before the horizon, idle in the
-- table and at its transmitter; and each slot from `n` on that is earlier was tested and is not.
pub find_bc_earliest :
    (h : Heap) (i : TableId) (n : ℕ) (z : ℤ)
    → n < 2147483648
    → find_earliest_idle_slots_bc h i n ≡ ok z
    → (k : ℕ) × (z ≡ pos (n + k))
      × (n + k < (h.tables i).planning_horizon)
      × CanSend h i z
      × ((j : ℕ) → j < k → is_burst_valid h i (pos (n + j)) 1 1 false ≡ ok false)
unfolding find_earliest_idle_slots_bc
find_bc_earliest h i n z b found = go (first_slot_from-Searched test rounds n)
  where
    test : ℤ → Result Bool
    test t = is_burst_valid h i t 1 1 false

    rounds : ℕ
    rounds = (h.tables i).planning_horizon - n

    start : to_i32 n ≡ pos n
    start = ground arith

    loop : first_slot_from test rounds (pos n) ≡ ok z
    loop =
        ap (first_slot_from test rounds) (sym start)
        ∙ guard-ok (is_linked (h.tables i).transmitter_reservation_table) runtime_error z
            (guard-ok (is_valid (h.tables i) (to_i32 n)) invalid_argument z found)

    go :
        Searched test rounds n (first_slot_from test rounds (pos n))
        → (k : ℕ) × (z ≡ pos (n + k))
          × (n + k < (h.tables i).planning_horizon)
          × CanSend h i z
          × ((j : ℕ) → j < k → is_burst_valid h i (pos (n + j)) 1 1 false ≡ ok false)
    go (hit k lt before passes eq) =
        let same : z ≡ pos (n + k) = cc loop in
        (k, same, omega arith, burst_valid-CanSend h i z (ap test same ∙ passes), before)
    go (missed all eq) = cc loop
    go (broken k e lt before throws eq) = cc loop
