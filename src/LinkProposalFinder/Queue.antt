-- ===== src/LinkProposalFinder/Queue.antt =====
-- What the queue of tables gives out: the tables that were put in.
use mathlib.Core.List.{Perm}
use mathlib.Core.List.Perm
use ldacs_mcsotdma.Prelude.{
  ℕ, zero, suc, ◌≡◌, refl, ap, inl, inr, List, [], ◌∷◌, arith, length, All, Bool-cases,
}
use ldacs_mcsotdma.Table.{TableId, Heap}
use ldacs_mcsotdma.Table.Free.{Any}
use ldacs_mcsotdma.LinkProposalFinder.{fewer_idle, pop_most_idle, popped_in_order}

abbrev pub idle_slots : Heap → TableId → ℕ
idle_slots h i = (h.tables i).num_idle_future_slots

-- The table that the queue gives out, and those that it keeps, are those that were put in.
pop_most_idle-All :
    (P : TableId → Type 0) (h : Heap) (i : TableId) (is : List TableId)
    → All P (i ∷ is)
    → All P ((pop_most_idle h i is).top ∷ (pop_most_idle h i is).others)
unfolding pop_most_idle
pop_most_idle-All P h i [] a = a
pop_most_idle-All P h i (j ∷ js) a = elim (Bool-cases (fewer_idle h i j)) [
  | inl t ↦ let (top, others) = pop_most_idle-All P h j js a.1 in rw t (top, (a.0, others))
  | inr f ↦
      let (top, others) = pop_most_idle-All P h i js (a.0, a.1.1) in rw f (top, (a.1.0, others))
]

pop_most_idle-Any :
    (P : TableId → Type 0) (h : Heap) (i : TableId) (is : List TableId)
    → Any P ((pop_most_idle h i is).top ∷ (pop_most_idle h i is).others)
    → Any P (i ∷ is)
unfolding pop_most_idle
pop_most_idle-Any P h i [] a = a
pop_most_idle-Any P h i (j ∷ js) a = elim (Bool-cases (fewer_idle h i j)) [
  | inl t ↦ elim (rw t at a) [
    | inl top ↦ inr (pop_most_idle-Any P h j js (inl top))
    | inr (inl here) ↦ inl here
    | inr (inr others) ↦ inr (pop_most_idle-Any P h j js (inr others))
  ]
  | inr f ↦ elim (rw f at a) [
    | inl top ↦ swap P i j js (pop_most_idle-Any P h i js (inl top))
    | inr (inl here) ↦ inr (inl here)
    | inr (inr others) ↦ swap P i j js (pop_most_idle-Any P h i js (inr others))
  ]
]
  where
    swap :
        (P : TableId → Type 0) (i j : TableId) (js : List TableId)
        → Any P (i ∷ js)
        → Any P (i ∷ j ∷ js)
    swap P i j js (inl here) = inl here
    swap P i j js (inr there) = inr (inr there)

pub popped_in_order-Any :
    (P : TableId → Type 0) (h : Heap) (n : ℕ) (is : List TableId)
    → Any P (popped_in_order h n is)
    → Any P is
unfolding popped_in_order
popped_in_order-Any P h zero is a = elim a [ ]
popped_in_order-Any P h (suc n) [] a = a
popped_in_order-Any P h (suc n) (i ∷ is) (inl top) = pop_most_idle-Any P h i is (inl top)
popped_in_order-Any P h (suc n) (i ∷ is) (inr others) =
    pop_most_idle-Any P h i is
      (inr (popped_in_order-Any P h n (pop_most_idle h i is).others others))

pub popped_in_order-All :
    (P : TableId → Type 0) (h : Heap) (n : ℕ) (is : List TableId)
    → All P is
    → All P (popped_in_order h n is)
unfolding popped_in_order
popped_in_order-All P h zero is a = tt
popped_in_order-All P h (suc n) [] a = tt
popped_in_order-All P h (suc n) (i ∷ is) a =
    let (top, others) = pop_most_idle-All P h i is a in
    (top, popped_in_order-All P h n (pop_most_idle h i is).others others)

length-popped :
    (h : Heap) (i : TableId) (is : List TableId) → length (pop_most_idle h i is).others ≡ length is
unfolding pop_most_idle
length-popped h i [] = refl
length-popped h i (j ∷ js) = elim (Bool-cases (fewer_idle h i j)) [
  | inl t ↦ rw t (ap suc (length-popped h j js))
  | inr f ↦ rw f (ap suc (length-popped h i js))
]

-- The table that the queue gives out and those that it keeps are those that were put in, each as
-- often as before.
pub pop_most_idle-Perm :
    (h : Heap) (i : TableId) (is : List TableId)
    → Perm ((pop_most_idle h i is).top ∷ (pop_most_idle h i is).others) (i ∷ is)
unfolding pop_most_idle
pop_most_idle-Perm h i [] = Perm.refl _
pop_most_idle-Perm h i (j ∷ js) = elim (Bool-cases (fewer_idle h i j)) [
  | inl t ↦ rw t (Perm.trans (Perm.swap _ _ _) (Perm.cons i (pop_most_idle-Perm h j js)))
  | inr f ↦ rw f (
      Perm.trans (Perm.swap _ _ _)
        (Perm.trans (Perm.cons j (pop_most_idle-Perm h i js)) (Perm.swap _ _ _)))
]

pub popped_in_order-Perm :
    (h : Heap) (n : ℕ) (is : List TableId) → length is ≡ n → Perm (popped_in_order h n is) is
unfolding popped_in_order
popped_in_order-Perm h zero [] e = Perm.refl _
popped_in_order-Perm h zero (i ∷ is) e = absurd (omega (arith, e))
popped_in_order-Perm h (suc n) [] e = Perm.refl _
popped_in_order-Perm h (suc n) (i ∷ is) e =
    Perm.trans
      (Perm.cons _ (
        popped_in_order-Perm h n (pop_most_idle h i is).others
          (omega (arith, length-popped h i is, e))))
      (pop_most_idle-Perm h i is)
