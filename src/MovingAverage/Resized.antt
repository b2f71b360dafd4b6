-- ===== src/MovingAverage/Resized.antt =====
-- The constructor that copies another average keeps the oldest values of its window.
use Prim.Native.Nat.{min}
use ldacs_mcsotdma.Prelude.{
  length-take, take-append-drop, ℕ, suc, ◌+◌, ◌-◌, ◌≤◌, ◌<◌, ◌≡◌, refl, sym, subst, ap, ◌∙◌, List,
  [], ◌∷◌, ◌++◌, arith, length, length-append, replicate, take, set, get_elem?, some, ltb, drop,
  if◌then◌else◌,
}
use ldacs_mcsotdma.Prelude.Result.{ok}
use mathlib.Core.List.{append-nil, append_assoc}
use ldacs_mcsotdma.MovingAverage.{MovingAverage, moving_average, copy_values, resized, get, sum}
use ldacs_mcsotdma.MovingAverage.Window.{IsWindow, set_next, get_window}

get_elem?-append : (xs ys : List ℕ) (v : ℕ) → get_elem? (xs ++ v ∷ ys) (length xs) ≡ some v
get_elem?-append [] ys v = refl
get_elem?-append (x ∷ xs) ys v = get_elem?-append xs ys v

next_copied :
    (n v : ℕ) (r : List ℕ) (m : MovingAverage)
    → IsWindow n r m
    → length r < n
    → IsWindow n (r ++ v ∷ []) (record m { values = set m.values m.index v; index = m.index + 1 })
next_copied n v r m w lt =
    let len' = length-append {0} r (v ∷ []) in
    let k : n - length r ≡ suc (n - length (r ++ v ∷ [])) = omega arith in
    record {
      values =
          ap (λ i. set m.values i v) w.index
          ∙ ap (λ xs. set xs (length r) v) w.values
          ∙ ap (λ j. set (r ++ replicate j 0) (length r) v) k
          ∙ set_next r (n - length (r ++ v ∷ [])) v;
      index = omega (arith, w.index, len');
      fits = omega arith;
    }

copy_values-IsWindow :
    (n : ℕ) (done todo rest : List ℕ) (m : MovingAverage)
    → IsWindow n done m
    → length done + length todo ≤ n
    → (m' : MovingAverage) × (copy_values (done ++ (todo ++ rest)) (length todo) m ≡ ok m')
      × IsWindow n (done ++ todo) m'
unfolding copy_values
copy_values-IsWindow n done [] rest m w le =
    (m, refl, subst (λ xs. IsWindow n xs m) (sym (append-nil done)) w)
copy_values-IsWindow n done (v ∷ todo) rest m w le =
    let read : get_elem? (done ++ (v ∷ (todo ++ rest))) m.index ≡ some v =
      ap (λ i. get_elem? (done ++ (v ∷ (todo ++ rest))) i) w.index
      ∙ get_elem?-append done (todo ++ rest) v in
    let len = length-append {0} done (v ∷ []) in
    let (m', same, window') =
      copy_values-IsWindow n (done ++ v ∷ []) todo rest
        (record m { values = set m.values m.index v; index = m.index + 1 })
        (next_copied n v done m w (omega arith)) (omega arith) in
    (
      m',
      rw (copy_values, read) (rw (append_assoc done (v ∷ []) (todo ++ rest)) at same),
      subst (λ xs. IsWindow n xs m') (append_assoc done (v ∷ []) todo) window',
    )

rounds_done : (i k l t : ℕ) → i ≡ l → t ≡ min k l → (if ltb i k then i else k) ≡ t
rounds_done i k l t e f = ground arith

starts_empty : (k : ℕ) → IsWindow k [] (moving_average k)
starts_empty k =
    let same : k ≡ k - 0 = omega arith in
    record { values = ap (λ j. replicate j 0) same; index = refl; fits = omega arith }

-- Copying an average of which `recorded` is the window into one over `k > 0` values keeps the first
-- `k` of them, which are the oldest: the copy's average is theirs.
pub resized-IsWindow :
    (n k : ℕ) (recorded : List ℕ) (old : MovingAverage)
    → IsWindow n recorded old
    → 0 < length recorded
    → 0 < k
    → (m : MovingAverage) × (resized old k ≡ ok m)
      × IsWindow k (take k recorded) m
      × (get m
          ≡ record { numerator = sum (take k recorded); denominator = length (take k recorded) })
unfolding resized
resized-IsWindow n k recorded old w some_put positive =
    let taken = length-take {0} k recorded in
    let rounds = rounds_done old.index k (length recorded) _ w.index taken in
    let padding = replicate (n - length recorded) 0 in
    let split : take k recorded ++ (drop k recorded ++ padding) ≡ old.values =
      sym (append_assoc (take k recorded) (drop k recorded) padding)
      ∙ ap (λ xs. xs ++ padding) (take-append-drop k recorded)
      ∙ sym w.values in
    let (m, same, window') =
      copy_values-IsWindow k [] (take k recorded) (drop k recorded ++ padding) (moving_average k)
        (starts_empty k) (omega arith) in
    (
      m,
      ap (λ j. copy_values old.values j (moving_average k)) rounds
          ∙ ap (λ xs. copy_values xs (length (take k recorded)) (moving_average k)) (sym split)
          ∙ same,
      window',
      get_window k (take k recorded) m window' (omega arith),
    )
