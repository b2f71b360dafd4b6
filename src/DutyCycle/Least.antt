-- ===== src/DutyCycle/Least.antt =====
-- The least of the timeouts that a link waits for.
use mathlib.Core.List.{append_assoc}
use ldacs_mcsotdma.Prelude.{
  ◌++◌, subst, length-append, ℕ, zero, suc, ◌+◌, ◌<◌, ◌≡◌, refl, sym, ◌⊎◌, inl, inr, List, [], ◌∷◌,
  length, ℤ, ◌≤ℤ◌, ltb_ℤ, arith, All, Bool-cases,
}
use ldacs_mcsotdma.Prelude.Result.{ok}
use ldacs_mcsotdma.Table.Free.{Any}
use ldacs_mcsotdma.DutyCycle.{min_from, at, erase_at}

pub record IsLeast (i best : ℕ) (least : ℤ) (ts : List ℤ) (found : ℕ × ℤ) : Type 0 where
  pub below : found.1 ≤ℤ least
  pub least_of : All (λ t. found.1 ≤ℤ t) ts
  pub member : (found.1 ≡ least) ⊎ Any (λ t. t ≡ found.1) ts
  pub bound : best < i → found.0 < i + length ts

least_trans : (a b c : ℤ) → a ≤ℤ b → b ≤ℤ c → a ≤ℤ c
least_trans a b c p q = ground arith

pub min_from-IsLeast :
    (i best : ℕ) (least : ℤ) (ts : List ℤ) → IsLeast i best least ts (min_from i best least ts)
unfolding min_from
min_from-IsLeast i best least [] = record {
  below = ground arith;
  least_of = tt;
  member = inl refl;
  bound = λ lt. omega (arith, lt);
}
min_from-IsLeast i best least (t ∷ ts) = elim (Bool-cases (ltb_ℤ t least)) [
  | inl lt ↦
      let r = min_from-IsLeast (suc i) i t ts in
      rw lt (record {
        below = least_trans _ t least r.below (ground arith);
        least_of = (r.below, r.least_of);
        member = inr (elim r.member [ inl e ↦ inl (sym e) | inr a ↦ inr a ]);
        bound = λ b. omega (arith, r.bound (omega arith));
      })
  | inr ge ↦
      let r = min_from-IsLeast (suc i) best least ts in
      rw ge (record {
        below = r.below;
        least_of = (least_trans _ least t r.below (ground arith), r.least_of);
        member = elim r.member [ inl e ↦ inl e | inr a ↦ inr (inr a) ];
        bound = λ b. omega (arith, r.bound (omega (arith, b)));
      })
]

pub length-erase_at :
    {A : Type 0} (i : ℕ) (xs : List A) → i < length xs → length (erase_at i xs) + 1 ≡ length xs
unfolding erase_at
length-erase_at i [] lt = absurd (omega (arith, lt))
length-erase_at zero (x ∷ xs) lt = omega arith
length-erase_at (suc i) (x ∷ xs) lt = omega (arith, length-erase_at i xs (omega (arith, lt)))

pub at_found : {A : Type 0} (i : ℕ) (xs : List A) → i < length xs → (a : A) × (at xs i ≡ ok a)
unfolding at
at_found i [] lt = absurd (omega (arith, lt))
at_found zero (x ∷ xs) lt = (x, refl)
at_found (suc i) (x ∷ xs) lt = at_found i xs (omega (arith, lt))

at_append : (xs : List ℤ) (y : ℤ) (ys : List ℤ) → at (xs ++ (y ∷ ys)) (length xs) ≡ ok y
unfolding at
at_append [] y ys = refl
at_append (x ∷ xs) y ys = at_append xs y ys

-- The index that is found is that of the least.
from_index :
    (i best : ℕ) (least : ℤ) (before ts : List ℤ)
    → length before ≡ i
    → at (before ++ ts) best ≡ ok least
    → at (before ++ ts) (min_from i best least ts).0 ≡ ok (min_from i best least ts).1
unfolding min_from
from_index i best least before [] e found = found
from_index i best least before (t ∷ ts) e found =
    let len = length-append {0} before (t ∷ []) in
    let same : (before ++ t ∷ []) ++ ts ≡ before ++ (t ∷ ts) = append_assoc before (t ∷ []) ts in
    elim (Bool-cases (ltb_ℤ t least)) [
      | inl lt ↦ rw lt (
          subst (λ xs. at xs (min_from (suc i) i t ts).0 ≡ ok (min_from (suc i) i t ts).1) same
            (from_index (suc i) i t (before ++ t ∷ []) ts (omega (arith, e, len)) (
              subst (λ xs. at xs i ≡ ok t) (sym same)
                (subst (λ k. at (before ++ (t ∷ ts)) k ≡ ok t) e (at_append before t ts)))))
      | inr ge ↦ rw ge (
          subst
            (λ xs. at xs (min_from (suc i) best least ts).0 ≡ ok (min_from (suc i) best least ts).1)
            same
            (from_index (suc i) best least (before ++ t ∷ []) ts (omega (arith, e, len))
              (subst (λ xs. at xs best ≡ ok least) (sym same) found)))
    ]

pub min_from-at :
    (t : ℤ) (ts : List ℤ) → at (t ∷ ts) (min_from 1 0 t ts).0 ≡ ok (min_from 1 0 t ts).1
unfolding at
min_from-at t ts = from_index 1 0 t (t ∷ []) ts refl refl
