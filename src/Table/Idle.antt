-- ===== src/Table/Idle.antt =====
-- `num_idle_future_slots` against what it counts: the idle slots from the current one on.
use ldacs_mcsotdma.Prelude.{
  ℕ, zero, suc, ◌+◌, ◌≤◌, ◌<◌, ◌≡◌, refl, sym, ap, ◌∙◌, Bool, true, false, Option, some, List, [],
  ◌∷◌, ◌++◌, ℤ, pos, arith, length, get_elem?, set, drop, length-drop, get_elem?-drop,
}
use ldacs_mcsotdma.Prelude.Result.{ok}
use ldacs_mcsotdma.Reservation.{Reservation, is_idle}
use ldacs_mcsotdma.Table.{Table, is_valid, convert_offset_to_index, found, get_reservation}
use ldacs_mcsotdma.Table.Mark.{write, count_idle_change}
use ldacs_mcsotdma.Table.Index.{IsWellFormed, convert_lem}

abbrev pub one_if : Bool → ℕ
one_if true = 1
one_if false = 0

unfoldable pub count_idle : List Reservation → ℕ
count_idle [] = 0
count_idle (r ∷ rs) = one_if (is_idle r) + count_idle rs

abbrev pub future : Table → List Reservation
future t = drop t.planning_horizon t.slot_utilization_vec

-- The counter is right.
abbrev pub IsCounted : Table → Type 0
IsCounted t = t.num_idle_future_slots ≡ count_idle (future t)

pub count_idle-append :
    (xs ys : List Reservation) → count_idle (xs ++ ys) ≡ count_idle xs + count_idle ys
unfolding count_idle
count_idle-append [] ys = omega arith
count_idle-append (x ∷ xs) ys = omega (arith, count_idle-append xs ys)

pub count_idle-le-length : (xs : List Reservation) → count_idle xs ≤ length xs
unfolding count_idle
count_idle-le-length [] = omega arith
count_idle-le-length (x ∷ xs) = ground (arith, count_idle-le-length xs)

pub count_idle-set :
    (xs : List Reservation) (i : ℕ) (old r : Reservation)
    → get_elem? xs i ≡ some old
    → count_idle (set xs i r) + one_if (is_idle old) ≡ count_idle xs + one_if (is_idle r)
unfolding count_idle
count_idle-set [] i old r h = cc
count_idle-set (x ∷ xs) zero old r h = ground arith
count_idle-set (x ∷ xs) (suc i) old r h = omega (arith, count_idle-set xs i old r h)

drop-set :
    (n : ℕ) (xs : List Reservation) (i : ℕ) (r : Reservation)
    → drop n (set xs (n + i) r) ≡ set (drop n xs) i r
drop-set zero xs i r = ap (λ j. set xs j r) (omega arith)
drop-set (suc n) [] i r = refl
drop-set (suc n) (x ∷ xs) i r =
    let e : suc n + i ≡ suc (n + i) = omega arith in rw e (drop-set n xs i r)

found-eq-ok : (o : Option Reservation) (r : Reservation) → found o ≡ ok r → o ≡ some r
found-eq-ok (some s) r h = ground arith
found-eq-ok _ r h = cc

pub get_elem?-of_ok :
    (t : Table) (offset : ℤ) (r : Reservation)
    → get_reservation t offset ≡ ok r
    → get_elem? t.slot_utilization_vec (convert_offset_to_index t offset) ≡ some r
get_elem?-of_ok t offset r h = found-eq-ok _ r h

pub future_bound : (t : Table) → IsWellFormed t → count_idle (future t) ≤ t.planning_horizon + 1
future_bound t w = omega (
  arith,
  count_idle-le-length (future t),
  length-drop t.planning_horizon t.slot_utilization_vec,
  w.sized,
)

change_lem :
    (before after : Bool) (n m : ℕ)
    → n < 2147483649
    → m + one_if before ≡ n + one_if after
    → count_idle_change before after n ≡ m
change_lem true true n m b h = omega arith
change_lem true false n m b h = omega arith
change_lem false true n m b h = omega arith
change_lem false false n m b h = omega arith

-- Writing one current or future slot keeps the counter right.
pub write-IsCounted :
    (t : Table) (n : ℕ) (current r : Reservation)
    → IsWellFormed t
    → is_valid t (pos n) ≡ true
    → get_reservation t (pos n) ≡ ok current
    → IsCounted t
    → IsCounted (write (pos n) current r t)
write-IsCounted t n current r w v e c =
    change_lem (is_idle current) (is_idle r) t.num_idle_future_slots _
      (omega (arith, future_bound t w, w.short, c))
      (moved ∙ ap (λ k. k + one_if (is_idle r)) (sym c))
  where
    position : convert_offset_to_index t (pos n) ≡ t.planning_horizon + n
    position = omega (arith, convert_lem t (pos n) w.short v)

    there : get_elem? (future t) n ≡ some current
    there =
        get_elem?-drop t.planning_horizon t.slot_utilization_vec n
        ∙ ap (get_elem? t.slot_utilization_vec) (sym position)
        ∙ get_elem?-of_ok t (pos n) current e

    moved :
        count_idle (future (write (pos n) current r t)) + one_if (is_idle current)
        ≡ count_idle (future t) + one_if (is_idle r)
    moved =
        ap
          (λ i.
            count_idle (drop t.planning_horizon (set t.slot_utilization_vec i r))
            + one_if (is_idle current))
          position
        ∙ ap (λ xs. count_idle xs + one_if (is_idle current))
            (drop-set t.planning_horizon t.slot_utilization_vec n r)
        ∙ count_idle-set (future t) n current r there
