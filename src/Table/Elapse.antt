-- ===== src/Table/Elapse.antt =====
-- What `update` does to a table: every slot moves nearer by the slots that have passed, and the
-- counter of idle slots stays right.
use ldacs_mcsotdma.Prelude.{
  ℕ, zero, suc, ◌+◌, ◌-◌, ◌%◌, ◌≤◌, ◌≡◌, refl, sym, ap, ◌∙◌, true, List, [], ◌∷◌, ◌++◌, ℤ, pos,
  arith, length, get_elem?, drop, replicate, if◌then◌else◌, u64_mod, length-drop, length-append,
  length-replicate, get_elem?-drop, drop-cons, get_elem?-lt, ◌+ℤ◌, +ℤ_parts, ◌<ℤ◌,
  get_elem?-append_left, get_elem?-append_right, get_elem?-replicate,
}
use native.Mathlib.Nat.{add_comm}
use ldacs_mcsotdma.Prelude.Result.{ok}
use ldacs_mcsotdma.Reservation.{Reservation, is_idle}
use ldacs_mcsotdma.Table.{Table, is_valid, convert_offset_to_index, found, get_reservation}
use ldacs_mcsotdma.Table.Shift.{count_busy, shift, updated}
use ldacs_mcsotdma.Table.Index.{IsWellFormed, convert_lem, convert-lt}
use ldacs_mcsotdma.Table.Idle.{count_idle, future, IsCounted, count_idle-append, future_bound}

-- The busy slots among `n` that follow one another, counted in the vector.
busy_in : ℕ → List Reservation → ℕ
busy_in zero xs = 0
busy_in (suc n) [] = 0
busy_in (suc n) (x ∷ xs) = (if is_idle x then busy_in n xs else busy_in n xs + 1)

-- Within the horizon the count succeeds.
count_busy_lem :
    (t : Table) (n offset : ℕ)
    → IsWellFormed t
    → offset + n ≤ t.planning_horizon + 1
    → count_busy t n offset
      ≡ ok (busy_in n (drop (t.planning_horizon + offset) t.slot_utilization_vec))
unfolding count_busy busy_in
count_busy_lem t zero offset w h = refl
count_busy_lem t (suc n) offset w h =
    let (r, e) =
      get_elem?-lt t.slot_utilization_vec (t.planning_horizon + offset) (omega (arith, w.sized)) in
    let i : convert_offset_to_index t (pos offset) ≡ t.planning_horizon + offset =
      omega (arith, w.short) in
    let g : get_reservation t (pos offset) ≡ ok r =
      ap (λ j. found (get_elem? t.slot_utilization_vec j)) i ∙ ap found e in
    let s : suc (t.planning_horizon + offset) ≡ t.planning_horizon + (offset + 1) = omega arith in
    rw (
      g,
      drop-cons _ t.slot_utilization_vec r e,
      s,
      count_busy_lem t n (offset + 1) w (omega arith),
    )

count_idle-busy_in :
    (n : ℕ) (xs : List Reservation)
    → n ≤ length xs
    → count_idle xs + busy_in n xs ≡ count_idle (drop n xs) + n
unfolding count_idle busy_in
count_idle-busy_in zero xs h = refl
count_idle-busy_in (suc n) [] h = absurd (omega arith)
count_idle-busy_in (suc n) (x ∷ xs) h = ground (arith, count_idle-busy_in n xs)

busy_in-le : (n : ℕ) (xs : List Reservation) → busy_in n xs ≤ n
unfolding busy_in
busy_in-le zero xs = omega arith
busy_in-le (suc n) [] = omega arith
busy_in-le (suc n) (x ∷ xs) = ground (arith, busy_in-le n xs)

count_idle-replicate : (n : ℕ) (r : Reservation) → is_idle r ≡ true → count_idle (replicate n r) ≡ n
unfolding count_idle
count_idle-replicate zero r h = refl
count_idle-replicate (suc n) r h = rw (h, count_idle-replicate n r h) (omega arith)

drop-append :
    (n : ℕ) (xs ys : List Reservation) → n ≤ length xs → drop n (xs ++ ys) ≡ drop n xs ++ ys
drop-append zero xs ys h = refl
drop-append (suc n) [] ys h = absurd (omega arith)
drop-append (suc n) (x ∷ xs) ys h = drop-append n xs ys (omega arith)

drop-nil : (n : ℕ) → drop {A = Reservation} n [] ≡ []
drop-nil zero = refl
drop-nil (suc n) = refl

drop-drop : (m n : ℕ) (xs : List Reservation) → drop m (drop n xs) ≡ drop (n + m) xs
drop-drop m zero xs = ap (λ k. drop k xs) (omega arith)
drop-drop m (suc n) [] = drop-nil m ∙ sym (drop-nil (suc n + m))
drop-drop m (suc n) (x ∷ xs) =
    let e : suc n + m ≡ suc (n + m) = omega arith in rw e (drop-drop m n xs)

-- The future after the shift: what is left of the old one, then the default slots.
future-shift :
    (t : Table) (n : ℕ)
    → IsWellFormed t
    → n ≤ t.planning_horizon + 1
    → drop t.planning_horizon (shift n t.default_reservation t.slot_utilization_vec)
      ≡ drop n (future t) ++ replicate n t.default_reservation
future-shift t n w h =
    drop-append t.planning_horizon (drop n t.slot_utilization_vec) _
      (omega (arith, length-drop n t.slot_utilization_vec, w.sized))
    ∙ ap (λ xs. xs ++ replicate n t.default_reservation)
        (drop-drop t.planning_horizon n t.slot_utilization_vec
          ∙ ap (λ k. drop k t.slot_utilization_vec) (add_comm n t.planning_horizon)
          ∙ sym (drop-drop n t.planning_horizon t.slot_utilization_vec))

elapsed : Table → ℕ → Table
elapsed t n = record t {
  num_idle_future_slots = (t.num_idle_future_slots + busy_in n (future t)) % u64_mod;
  slot_utilization_vec = shift n t.default_reservation t.slot_utilization_vec;
  last_updated = t.last_updated + n;
}

updated_lem :
    (t : Table) (n : ℕ)
    → IsWellFormed t
    → n ≤ t.planning_horizon + 1
    → updated t n ≡ ok (elapsed t n)
unfolding updated elapsed
updated_lem t n w h =
    let z : t.planning_horizon + 0 ≡ t.planning_horizon = omega arith in
    rw (count_busy_lem t n 0 w (omega arith), z)

elapsed-IsWellFormed :
    (t : Table) (n : ℕ) → IsWellFormed t → n ≤ t.planning_horizon + 1 → IsWellFormed (elapsed t n)
unfolding elapsed
elapsed-IsWellFormed t n w h = record {
  short = w.short;
  sized = omega (
    arith,
    length-append {0} (drop n t.slot_utilization_vec) (replicate n t.default_reservation),
    length-drop {0} n t.slot_utilization_vec,
    length-replicate {0} n t.default_reservation,
    w.sized,
  );
}

elapsed-IsCounted :
    (t : Table) (n : ℕ)
    → IsWellFormed t
    → n ≤ t.planning_horizon + 1
    → is_idle t.default_reservation ≡ true
    → IsCounted t
    → IsCounted (elapsed t n)
unfolding elapsed
elapsed-IsCounted t n w h d c =
    let len = length-drop {0} t.planning_horizon t.slot_utilization_vec in
    rw (future-shift t n w h) (
      omega (
        arith,
        count_idle-append (drop n (future t)) (replicate n t.default_reservation),
        count_idle-replicate n t.default_reservation d,
        count_idle-busy_in n (future t) (omega (arith, len, w.sized)),
        busy_in-le n (future t),
        future_bound t w,
        w.short,
        w.sized,
        len,
        c,
      ))

-- A slot that was `n` further off.
read_near :
    (t : Table) (n : ℕ) (offset : ℤ)
    → IsWellFormed t
    → is_valid t offset ≡ true
    → is_valid t (offset +ℤ pos n) ≡ true
    → get_reservation (elapsed t n) offset ≡ get_reservation t (offset +ℤ pos n)
unfolding elapsed
read_near t n offset w v v' =
    let i = convert_lem t offset w.short v in
    let j = convert_lem t (offset +ℤ pos n) w.short v' in
    let s : convert_offset_to_index t (offset +ℤ pos n) ≡ n + convert_offset_to_index t offset =
      omega (arith, i, j, +ℤ_parts offset (pos n)) in
    ap found (
      get_elem?-append_left (drop n t.slot_utilization_vec) _ _ (
        omega
          (arith, s, convert-lt t (offset +ℤ pos n) w v', length-drop {0} n t.slot_utilization_vec))
      ∙ get_elem?-drop n t.slot_utilization_vec (convert_offset_to_index t offset)
      ∙ ap (get_elem? t.slot_utilization_vec) (sym s))

-- A slot that has come into reach.
read_new :
    (t : Table) (n : ℕ) (offset : ℤ)
    → IsWellFormed t
    → n ≤ t.planning_horizon + 1
    → is_valid t offset ≡ true
    → pos t.planning_horizon <ℤ offset +ℤ pos n
    → get_reservation (elapsed t n) offset ≡ ok t.default_reservation
unfolding elapsed
read_new t n offset w h v far =
    let i = convert_lem t offset w.short v in
    let kept = length {A = Reservation} (drop n t.slot_utilization_vec) in
    let len = length-drop {0} n t.slot_utilization_vec in
    let s : convert_offset_to_index t offset ≡ kept + (convert_offset_to_index t offset - kept) =
      omega (arith, i, len, w.sized, +ℤ_parts offset (pos n)) in
    ap found (
      ap (get_elem? (shift n t.default_reservation t.slot_utilization_vec)) s
      ∙ get_elem?-append_right (drop n t.slot_utilization_vec) _ _
      ∙ get_elem?-replicate n t.default_reservation _
          (omega (arith, convert-lt t offset w v, len, w.sized)))

-- What a table is after `n` slots have passed.
pub record IsElapsed (t : Table) (n : ℕ) (t' : Table) : Type 0 where
  pub well_formed : IsWellFormed t'
  pub counted : is_idle t.default_reservation ≡ true → IsCounted t → IsCounted t'
  pub near :
      (offset : ℤ)
      → is_valid t offset ≡ true
      → is_valid t (offset +ℤ pos n) ≡ true
      → get_reservation t' offset ≡ get_reservation t (offset +ℤ pos n)
  pub new :
      (offset : ℤ)
      → is_valid t offset ≡ true
      → pos t.planning_horizon <ℤ offset +ℤ pos n
      → get_reservation t' offset ≡ ok t.default_reservation

-- On a well-formed table `update` by at most one slot more than the horizon throws nothing. Each
-- offset then reads what was as many slots further off, or the default reservation where that was
-- beyond the horizon; the table stays well-formed; and if the default is idle and the counter
-- held the number of idle slots from the current one on, it does so afterwards.
pub updated-IsElapsed :
    (t : Table) (n : ℕ)
    → IsWellFormed t
    → n ≤ t.planning_horizon + 1
    → (t' : Table) × (updated t n ≡ ok t') × IsElapsed t n t'
updated-IsElapsed t n w h = (
  elapsed t n,
  updated_lem t n w h,
  record {
    well_formed = elapsed-IsWellFormed t n w h;
    counted = elapsed-IsCounted t n w h;
    near = λ offset v v'. read_near t n offset w v v';
    new = λ offset v far. read_new t n offset w h v far;
  },
)
