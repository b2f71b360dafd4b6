-- ===== src/Table/Search.antt =====
-- What the searches of ReservationTable return.
use ldacs_mcsotdma.Prelude.{
  ℕ, zero, suc, ◌+◌, ◌-◌, ◌≤◌, ◌<◌, ◌≡◌, ◌≢◌, refl, sym, ap, subst, ◌∙◌, Bool, true, false, inl,
  inr, u32_mod, ◌%◌, List, [], ◌∷◌, ◌++◌, ℤ, pos, ◌+ℤ◌, ◌≤ℤ◌, arith, length, All, Bool-cases,
  dec_lt, if◌then◌else◌,
}
use mathlib.Core.List.{append-nil, append_assoc}
use ldacs_mcsotdma.Prelude.Result.{
  Result, ok, err, Error, Result-cases, ◌>>=◌, range_error, is_range_error, is_invalid_argument,
}
use ldacs_mcsotdma.Prelude.{◌||◌}
use ldacs_mcsotdma.Table.{TableId, Heap}
use ldacs_mcsotdma.Table.Find.{
  Demand, demand_slots, pp_test, first_slot_from, find_earliest_idle_slots_pp, candidates,
}
use ldacs_mcsotdma.Table.Free.{IsUsable, slots_valid-IsUsable, pp_test-slots_valid}

-- The three ways a search over `rounds` slots from `n` on can end: at the first slot that passes,
-- at none, or with the exception of the first test that throws.
pub data Searched (test : ℤ → Result Bool) (rounds n : ℕ) (outcome : Result ℤ) : Type 0 where
  hit :
      (k : ℕ)
      → k < rounds
      → ((j : ℕ) → j < k → test (pos (n + j)) ≡ ok false)
      → test (pos (n + k)) ≡ ok true
      → outcome ≡ ok (pos (n + k))
      → Searched test rounds n outcome
  missed :
      ((j : ℕ) → j < rounds → test (pos (n + j)) ≡ ok false)
      → outcome ≡ err range_error
      → Searched test rounds n outcome
  broken :
      (k : ℕ) (e : Error)
      → k < rounds
      → ((j : ℕ) → j < k → test (pos (n + j)) ≡ ok false)
      → test (pos (n + k)) ≡ err e
      → outcome ≡ err e
      → Searched test rounds n outcome

pos_plus : (n : ℕ) → pos n +ℤ pos 1 ≡ pos (n + 1)
unfolding ◌+ℤ◌
pos_plus n = ground arith

-- One more slot that does not pass, in front.
below_suc :
    (test : ℤ → Result Bool) (n k : ℕ)
    → test (pos n) ≡ ok false
    → ((j : ℕ) → j < k → test (pos (n + 1 + j)) ≡ ok false)
    → (j : ℕ) → j < suc k
    → test (pos (n + j)) ≡ ok false
below_suc test n k first rest zero h = ap (λ m. test (pos m)) (omega arith) ∙ first
below_suc test n k first rest (suc j) h =
    ap (λ m. test (pos m)) (omega arith) ∙ rest j (omega arith)

at_next : (n k : ℕ) → pos (n + 1 + k) ≡ pos (n + suc k)
at_next n k = ap pos (omega arith)

at_zero : (n : ℕ) → pos n ≡ pos (n + 0)
at_zero n = ap pos (omega arith)

later :
    (test : ℤ → Result Bool) (rounds n : ℕ) (outcome : Result ℤ)
    → test (pos n) ≡ ok false
    → Searched test rounds (n + 1) outcome
    → Searched test (suc rounds) n outcome
later test rounds n outcome first (hit k h before passes eq) =
    hit (suc k) (omega arith) (below_suc test n k first before)
      (ap test (sym (at_next n k)) ∙ passes) (eq ∙ ap ok (at_next n k))
later test rounds n outcome first (missed all eq) = missed (below_suc test n rounds first all) eq
later test rounds n outcome first (broken k e h before throws eq) =
    broken (suc k) e (omega arith) (below_suc test n k first before)
      (ap test (sym (at_next n k)) ∙ throws) eq

search_step :
    (test : ℤ → Result Bool) (rounds n : ℕ) (rest : Result ℤ) (b : Result Bool)
    → test (pos n) ≡ b
    → Searched test rounds (n + 1) rest
    → Searched test (suc rounds) n (b >>= λ passes. if passes then ok (pos n) else rest)
search_step test rounds n rest (ok true) e s =
    hit 0 (omega arith) (λ j h. absurd (omega arith)) (ap test (sym (at_zero n)) ∙ e)
      (ap ok (at_zero n))
search_step test rounds n rest (ok false) e s = later test rounds n rest e s
search_step test rounds n rest (err x) e s =
    broken 0 x (omega arith) (λ j h. absurd (omega arith)) (ap test (sym (at_zero n)) ∙ e) refl

-- The search as a loop is the search as a specification.
pub first_slot_from-Searched :
    (test : ℤ → Result Bool) (rounds n : ℕ)
    → Searched test rounds n (first_slot_from test rounds (pos n))
unfolding first_slot_from
first_slot_from-Searched test zero n = missed (λ j h. absurd (omega arith)) refl
first_slot_from-Searched test (suc rounds) n = search_step test rounds n _ (test (pos n)) refl (
    subst (λ z. Searched test rounds (n + 1) (first_slot_from test rounds z)) (sym (pos_plus n))
      (first_slot_from-Searched test rounds (n + 1)))

-- The search for a link goes through the start slots from `n` to the horizon, in order.
find_pp-Searched :
    (h : Heap) (i : TableId) (d : Demand) (n : ℕ)
    → n < u32_mod
    → Searched
        (pp_test h i d)
        ((h.tables i).planning_horizon - n)
        n
        (find_earliest_idle_slots_pp h i d (pos n))
unfolding find_earliest_idle_slots_pp
find_pp-Searched h i d n b =
    let e : n % u32_mod ≡ n = omega arith in
    rw e (first_slot_from-Searched (pp_test h i d) ((h.tables i).planning_horizon - n) n)

-- A start slot that the search returns is at or after `n` and before the horizon; every
-- transmission slot of the link that starts there is idle in the table and at its transmitter,
-- and every reception slot is idle in the table and at one of its receivers; and each start slot
-- from `n` on that is earlier was tested and did not pass.
pub find_pp_earliest :
    (h : Heap) (i : TableId) (d : Demand) (n : ℕ) (z : ℤ)
    → n < u32_mod
    → find_earliest_idle_slots_pp h i d (pos n) ≡ ok z
    → (k : ℕ) × (z ≡ pos (n + k))
      × (n + k < (h.tables i).planning_horizon)
      × IsUsable h i (demand_slots d z).tx_slots (demand_slots d z).rx_slots
      × ((j : ℕ) → j < k → pp_test h i d (pos (n + j)) ≡ ok false)
find_pp_earliest h i d n z b found = go (find_pp-Searched h i d n b)
  where
    go :
        Searched
          (pp_test h i d)
          ((h.tables i).planning_horizon - n)
          n
          (find_earliest_idle_slots_pp h i d (pos n))
        → (k : ℕ) × (z ≡ pos (n + k))
          × (n + k < (h.tables i).planning_horizon)
          × IsUsable h i (demand_slots d z).tx_slots (demand_slots d z).rx_slots
          × ((j : ℕ) → j < k → pp_test h i d (pos (n + j)) ≡ ok false)
    go (hit k lt before passes eq) =
        let same : z ≡ pos (n + k) = cc in
        (
          k,
          same,
          omega arith,
          slots_valid-IsUsable h i _ _
              (pp_test-slots_valid h i d z (ap (pp_test h i d) same ∙ passes)),
          before,
        )
    go (missed all eq) = cc
    go (broken k e lt before throws eq) = cc

-- If the start slot `m` between `n` and the horizon passes, and the test of no slot from `n` to
-- before `m` throws, the search returns a slot from `n` to `m`.
pub find_pp_complete :
    (h : Heap) (i : TableId) (d : Demand) (n m : ℕ)
    → n < u32_mod
    → n ≤ m
    → m < (h.tables i).planning_horizon
    → pp_test h i d (pos m) ≡ ok true
    → ((j : ℕ) (e : Error) → n + j < m → pp_test h i d (pos (n + j)) ≢ err e)
    → (k : ℕ) × (n + k ≤ m) × (find_earliest_idle_slots_pp h i d (pos n) ≡ ok (pos (n + k)))
find_pp_complete h i d n m b le lt passes safe = go (find_pp-Searched h i d n b)
  where
    at_m : n + (m - n) ≡ m
    at_m = omega arith

    not_before : (k : ℕ) → ((j : ℕ) → j < k → pp_test h i d (pos (n + j)) ≡ ok false) → n + k ≤ m
    not_before k before = elim (dec_lt m (n + k)) [
      | yes late ↦
          let fails : pp_test h i d (pos m) ≡ ok false =
            rw at_m at (before (m - n) (omega arith)) in
          cc
      | no early ↦ omega arith
    ]

    go :
        Searched
          (pp_test h i d)
          ((h.tables i).planning_horizon - n)
          n
          (find_earliest_idle_slots_pp h i d (pos n))
        → (k : ℕ) × (n + k ≤ m) × (find_earliest_idle_slots_pp h i d (pos n) ≡ ok (pos (n + k)))
    go (hit k _ before _ eq) = (k, not_before k before, eq)
    go (missed all eq) =
        let fails : pp_test h i d (pos m) ≡ ok false = rw at_m at (all (m - n) (omega arith)) in cc
    go (broken k e _ before throws eq) = elim (dec_lt (n + k) m) [
      | yes early ↦ absurd (safe k e early throws)
      | no late ↦
          let here : n + k ≡ m = omega (arith, not_before k before) in
          let fails : pp_test h i d (pos m) ≡ err e = rw here at throws in cc
    ]

-- Each element lies at or after the one before it, plus one; the first at or after `lo`.
abbrev pub Ascends : ℤ → List ℤ → Type 0
Ascends lo [] = Unit {0}
Ascends lo (z ∷ zs) = (lo ≤ℤ z) × Ascends (z +ℤ pos 1) zs

abbrev pub NewSlots : (ℤ → Result ℤ) → ℕ → ℤ → List ℤ → List ℤ → Type 0
NewSlots find rounds last found out =
    (new : List ℤ) × (out ≡ found ++ new)
    × (length new ≤ rounds)
    × Ascends last new
    × All (λ z. (t : ℤ) × (find t ≡ ok z)) new

no_more :
    (find : ℤ → Result ℤ) (rounds : ℕ) (last : ℤ) (found out : List ℤ)
    → ok found ≡ ok out
    → NewSlots find rounds last found out
no_more find rounds last found out e = ([], cc (append-nil found), omega arith, tt, tt)

pub candidates_lem :
    (find : ℤ → Result ℤ) (rounds : ℕ) (last : ℤ) (found out : List ℤ)
    → ((t z : ℤ) → find t ≡ ok z → t ≤ℤ z)
    → candidates find rounds last found ≡ ok out
    → NewSlots find rounds last found out
unfolding candidates
candidates_lem find zero last found out forward e = no_more find zero last found out e
candidates_lem find (suc rounds) last found out forward e = elim (Result-cases (find last)) [
  | inl (z, eq) ↦
      let (new, split, short, up, from) =
        candidates_lem find rounds (z +ℤ pos 1) (found ++ z ∷ []) out forward
          (rw (eq, candidates) at e) in
      (
        z ∷ new,
        split ∙ append_assoc found (z ∷ []) new,
        omega arith,
        (forward last z eq, up),
        ((last, eq), from),
      )
  | inr (x, eq) ↦ elim (Bool-cases (is_range_error x || is_invalid_argument x)) [
    | inl t ↦ no_more find (suc rounds) last found out (rw t at (rw (eq, candidates) at e))
    | inr f ↦ cc (rw f at (rw (eq, candidates) at e))
  ]
]
