-- ===== src/MovingAverage/Window.antt =====
-- The window holds the values put last, and the average is theirs.
use ldacs_mcsotdma.Prelude.{
  ℕ, zero, suc, ◌+◌, ◌-◌, ◌≤◌, ◌<◌, ◌≡◌, refl, sym, subst, ap, ◌∙◌, true, false, ltb, leb, ◌==◌,
  List, [], ◌∷◌, ◌++◌, arith, length, length-append, length-replicate, length-drop, set, drop,
  replicate, dec_lt, if◌then◌else◌,
}
use mathlib.Core.List.{append-nil, append_assoc}
use ldacs_mcsotdma.MovingAverage.{MovingAverage, Quotient, moving_average, put, sum, get}

-- The values put one after the other.
unfoldable pub put_all : List ℕ → MovingAverage → MovingAverage
unfolding put
put_all [] m = m
put_all (x ∷ xs) m = put_all xs (put x m).1

-- The last `n` of the values.
abbrev pub window : ℕ → List ℕ → List ℕ
window n xs = drop (length xs - n) xs

-- The vector of `n` values has `recorded` in front and zeros behind.
pub record IsWindow (n : ℕ) (recorded : List ℕ) (m : MovingAverage) : Type 0 where
  pub values : m.values ≡ recorded ++ replicate (n - length recorded) 0
  pub index : m.index ≡ length recorded
  pub fits : length recorded ≤ n

length_values : (n : ℕ) (r : List ℕ) → length r ≤ n → length (r ++ replicate (n - length r) 0) ≡ n
length_values n r le =
    omega (
      arith,
      length-append {0} r (replicate (n - length r) 0),
      length-replicate (n - length r) zero,
    )

not_zero : (a : ℕ) → 0 < a → (a == 0) ≡ false
not_zero a h = ground arith

room_left : (i a : ℕ) → i < a → leb i (a - 1) ≡ true
room_left i a h = ground arith

no_room : (i a : ℕ) → i ≡ a → 0 < a → leb i (a - 1) ≡ false
no_room i a e h = ground arith

pub set_next :
    (r : List ℕ) (k v : ℕ)
    → set (r ++ replicate (suc k) 0) (length r) v ≡ (r ++ v ∷ []) ++ replicate k 0
set_next [] k v = refl
set_next (x ∷ r) k v = ap (λ ys. x ∷ ys) (set_next r k v)

put_room :
    (n v : ℕ) (r : List ℕ) (m : MovingAverage)
    → IsWindow n r m
    → length r < n
    → IsWindow n (r ++ v ∷ []) (put v m).1
unfolding put
put_room n v r m w lt =
    let len : length m.values ≡ n = ap length w.values ∙ length_values n r w.fits in
    let len' = length-append {0} r (v ∷ []) in
    let k : n - length r ≡ suc (n - length (r ++ v ∷ [])) = omega arith in
    rw
      (
        not_zero (length m.values) (omega arith),
        room_left m.index (length m.values) (omega (arith, w.index)),
      )
      (record {
        values =
            ap (λ i. set m.values i v) w.index
            ∙ ap (λ xs. set xs (length r) v) w.values
            ∙ ap (λ j. set (r ++ replicate j 0) (length r) v) k
            ∙ set_next r (n - length (r ++ v ∷ [])) v;
        index = omega (arith, w.index, len');
        fits = omega arith;
      })

put_full :
    (n v : ℕ) (r : List ℕ) (m : MovingAverage)
    → IsWindow n r m
    → length r ≡ n
    → 0 < n
    → IsWindow n (drop 1 r ++ v ∷ []) (put v m).1
unfolding put
put_full n v r m w full pos_n =
    let len : length m.values ≡ n = ap length w.values ∙ length_values n r w.fits in
    let none_left : n - length r ≡ 0 = omega arith in
    let same : m.values ≡ r = w.values ∙ ap (λ j. r ++ replicate j 0) none_left ∙ append-nil r in
    let len' = length-append {0} (drop 1 r) (v ∷ []) in
    let dropped = length-drop {0} 1 r in
    let none_left' : n - length (drop 1 r ++ v ∷ []) ≡ 0 = omega arith in
    rw
      (
        not_zero (length m.values) (omega arith),
        no_room m.index (length m.values) (omega (arith, w.index)) (omega arith),
      )
      (record {
        values =
            ap (λ xs. drop 1 xs ++ v ∷ []) same
            ∙ sym (append-nil (drop 1 r ++ v ∷ []))
            ∙ ap (λ j. (drop 1 r ++ v ∷ []) ++ replicate j 0) (sym none_left');
        index = omega (arith, w.index);
        fits = omega arith;
      })

drop_all : (n : ℕ) (xs ys : List ℕ) → n ≤ length xs → drop n (xs ++ ys) ≡ drop n xs ++ ys
drop_all zero xs ys h = refl
drop_all (suc n) [] ys h = absurd (omega arith)
drop_all (suc n) (x ∷ xs) ys h = drop_all n xs ys (omega arith)

drop_more : (n : ℕ) (xs : List ℕ) → drop (n + 1) xs ≡ drop 1 (drop n xs)
drop_more zero xs = refl
drop_more (suc n) [] = let e : suc n + 1 ≡ suc (n + 1) = omega arith in rw e
drop_more (suc n) (x ∷ xs) = let e : suc n + 1 ≡ suc (n + 1) = omega arith in rw e (drop_more n xs)

-- One value more: the window of the longer list.
put_next :
    (n v : ℕ) (xs : List ℕ) (m : MovingAverage)
    → 0 < n
    → IsWindow n (window n xs) m
    → IsWindow n (window n (xs ++ v ∷ [])) (put v m).1
put_next n v xs m pos_n w = elim (dec_lt (length xs) n) [
  | yes room ↦
      let zero1 : length xs - n ≡ 0 = omega arith in
      let len = length-append {0} xs (v ∷ []) in
      let zero2 : length (xs ++ v ∷ []) - n ≡ 0 = omega arith in
      subst (λ j. IsWindow n (drop j (xs ++ v ∷ [])) (put v m).1) (sym zero2)
        (put_room n v xs m (subst (λ j. IsWindow n (drop j xs) m) zero1 w) room)
  | no full ↦
      let len = length-append {0} xs (v ∷ []) in
      let k : length (xs ++ v ∷ []) - n ≡ (length xs - n) + 1 = omega arith in
      let size = length-drop {0} (length xs - n) xs in
      let tail : window n (xs ++ v ∷ []) ≡ drop 1 (window n xs) ++ v ∷ [] =
        ap (λ j. drop j (xs ++ v ∷ [])) k
        ∙ drop_all (length xs - n + 1) xs (v ∷ []) (omega arith)
        ∙ ap (λ ys. ys ++ v ∷ []) (drop_more (length xs - n) xs) in
      subst (λ ys. IsWindow n ys (put v m).1) (sym tail)
        (put_full n v (window n xs) m w (omega arith) pos_n)
]

put_all_from :
    (n : ℕ) (before xs : List ℕ) (m : MovingAverage)
    → 0 < n
    → IsWindow n (window n before) m
    → IsWindow n (window n (before ++ xs)) (put_all xs m)
unfolding put_all
put_all_from n before [] m pos_n w =
    subst (λ ys. IsWindow n (window n ys) m) (sym (append-nil before)) w
put_all_from n before (x ∷ xs) m pos_n w =
    subst (λ ys. IsWindow n (window n ys) (put_all xs (put x m).1))
      (append_assoc before (x ∷ []) xs)
      (put_all_from n (before ++ x ∷ []) xs (put x m).1 pos_n (put_next n x before m pos_n w))

sum-append : (xs ys : List ℕ) → sum (xs ++ ys) ≡ sum xs + sum ys
unfolding sum
sum-append [] ys = omega arith
sum-append (x ∷ xs) ys = omega (arith, sum-append xs ys)

sum-replicate : (n : ℕ) → sum (replicate n 0) ≡ 0
unfolding sum
sum-replicate zero = refl
sum-replicate (suc n) = omega (arith, sum-replicate n)

same_size : (i a n r : ℕ) → i ≡ r → a ≡ n → r ≤ n → (if ltb i a then i else a) ≡ r
same_size i a n r e f le = ground arith

pub get_window :
    (n : ℕ) (r : List ℕ) (m : MovingAverage)
    → IsWindow n r m
    → 0 < length r
    → get m ≡ record { numerator = sum r; denominator = length r }
unfolding get
get_window n r m w some_put =
    let len : length m.values ≡ n = ap length w.values ∙ length_values n r w.fits in
    let total : sum m.values ≡ sum r =
      ap sum w.values
      ∙ sum-append r (replicate (n - length r) 0)
      ∙ omega (arith, sum-replicate (n - length r)) in
    rw (
      not_zero m.index (omega (arith, w.index)),
      total,
      same_size m.index (length m.values) n (length r) w.index len w.fits,
    )

starts : (n : ℕ) → IsWindow n (window n []) (moving_average n)
starts n =
    let e : 0 - n ≡ 0 = omega arith in
    let same : n ≡ n - 0 = omega arith in
    subst (λ j. IsWindow n (drop j []) (moving_average n)) (sym e)
      (record { values = ap (λ j. replicate j 0) same; index = refl; fits = omega arith })

-- What `get` returns of values: their sum over their number, or 0 where there are none.
abbrev pub average : List ℕ → Quotient
average [] = record { numerator = 0; denominator = 1 }
average (x ∷ xs) = record { numerator = sum (x ∷ xs); denominator = length (x ∷ xs) }

get-average : (n : ℕ) (r : List ℕ) (m : MovingAverage) → IsWindow n r m → get m ≡ average r
unfolding get
get-average n [] m w =
    let unused : (m.index == 0) ≡ true = is_zero m.index w.index in rw unused refl
  where
    is_zero : (i : ℕ) → i ≡ 0 → (i == 0) ≡ true
    is_zero i e = ground arith
get-average n (x ∷ xs) m w = get_window n (x ∷ xs) m w (omega arith)

-- After values are put into a new average over `n > 0` values, its vector has the last `n` of them
-- (all, while there are fewer) in order, then zeros; and the average is their sum over their
-- number, or 0 where nothing was put.
pub put_all-window :
    (n : ℕ) (xs : List ℕ)
    → 0 < n
    → let m = put_all xs (moving_average n) in
      IsWindow n (window n xs) m × (get m ≡ average (window n xs))
put_all-window n xs pos_n =
    let w = put_all_from n [] xs (moving_average n) pos_n (starts n) in
    (w, get-average n (window n xs) (put_all xs (moving_average n)) w)
