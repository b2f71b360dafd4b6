-- ===== src/ReservationManager/Loops.antt =====
-- The loops of `scheduleBursts` over slots that are free.
use ldacs_mcsotdma.Prelude.{
  ℕ, suc, ◌≡◌, ◌≢◌, refl, sym, ap, ◌∙◌, Bool, true, List, [], ◌∷◌, some, ℤ, All, All-both, All-mono,
}
use ldacs_mcsotdma.Prelude.Result.{Result, ok}
use ldacs_mcsotdma.Reservation.{MacId, Reservation}
use ldacs_mcsotdma.Table.{TableId, Heap, is_valid, get_reservation}
use ldacs_mcsotdma.Table.State.{◌>>=◌}
use ldacs_mcsotdma.Table.Forwarding.{IsFrame, IsFrame-trans, SameShape-refl}
use ldacs_mcsotdma.Table.Atomic.{IsReady, IsMarked}
use ldacs_mcsotdma.SlotCalculator.Distinct.{Distinct}
use ldacs_mcsotdma.ReservationManager.{ReservationManager}
use ldacs_mcsotdma.ReservationManager.Schedule.{
  Progress, recorded, schedule_slot, schedule_slots, nothing_yet,
}
use ldacs_mcsotdma.ReservationManager.Taken.{IsReady-later, Holds}
use ldacs_mcsotdma.ReservationManager.Recorded.{record_all}
use ldacs_mcsotdma.ReservationManager.Open.{
  direction, IsOpen, IsWired, IsDone, slot-IsDone, IsOpen-later, IsWired-later,
}

-- A loop that schedules all of its slots.
pub record IsLoopDone (b : Bool) (i : TableId) (target : MacId) (zs : List ℤ) (p : Progress)
    (h : Heap) (o : Result Progress × Heap) : Type 0 where
  pub returned : o.0 ≡ ok (record_all i (direction b) zs p)
  pub frame : IsFrame h o.1
  pub apart :
      (k : TableId) (y : ℤ)
      → is_valid (h.tables k) y ≡ true
      → All (λ z. y ≢ z) zs
      → get_reservation (o.1.tables k) y ≡ get_reservation (h.tables k) y
  pub holds : All (Holds target (direction b) i o.1) zs

-- One more slot in front of a loop.
step-IsLoopDone :
    (b : Bool) (i : TableId) (target : MacId) (z : ℤ) (zs : List ℤ) (p : Progress) (h : Heap)
    (one others : Result Progress × Heap)
    → All (λ y. y ≢ z) zs
    → IsReady z i h
    → IsDone b i target z p h one
    → IsLoopDone b i target zs (recorded i (direction b) z p) one.1 others
    → IsLoopDone b i target (z ∷ zs) p h others
unfolding record_all
step-IsLoopDone b i target z zs p h one others distinct ready (_, marked) rest =
    let here : is_valid (one.1.tables i) z ≡ true = rw ((marked.frame i).horizon) ready.valid in
    record {
      returned = rest.returned;
      frame = IsFrame-trans h one.1 others.1 marked.frame rest.frame;
      apart = λ k y v ne.
          rest.apart k y (rw ((marked.frame k).horizon) v) ne.1
          ∙ marked.elsewhere k y v (λ e. ne.0 (sym e));
      holds = (
        (
          rw ((rest.frame i).horizon) here,
          rest.apart i z here (All-mono zs (λ y ne e. ne (sym e)) distinct) ∙ marked.holds,
        ),
        rest.holds,
      );
    }

-- The slots that follow are still free after the first has been taken.
still-IsOpen :
    (b : Bool) (i : TableId) (z : ℤ) (zs : List ℤ) (r : Reservation) (h h' : Heap)
    → IsMarked z i r h h'
    → All (λ y. y ≢ z) zs
    → All (λ y. IsReady y i h) zs
    → All (IsOpen b h i) zs
    → All (IsOpen b h' i) zs
still-IsOpen b i z zs r h h' marked distinct ready opened =
    All-mono zs
      (λ y (ne, (r', o)).
        IsOpen-later b h h' i y marked.frame (λ k v. marked.elsewhere k y v (λ e. ne (sym e))) r' o)
      (All-both _ _ zs distinct (All-both _ _ zs ready opened))

loop-IsLoopDone :
    (depth : ℕ) (b : Bool) (m : ReservationManager) (i : TableId) (target : MacId) (zs : List ℤ)
    (p : Progress) (h : Heap)
    → Distinct zs
    → IsWired m i h
    → All (λ z. IsReady z i h) zs
    → All (IsOpen b h i) zs
    → IsLoopDone b i target zs p h
        (schedule_slots (suc (suc depth)) m (some i) target (direction b) zs p h)
unfolding schedule_slots record_all
loop-IsLoopDone depth b m i target [] p h distinct wired ready opened = record {
  returned = refl;
  frame = λ k. SameShape-refl (h.tables k);
  apart = λ k y v ne. refl;
  holds = tt;
}
loop-IsLoopDone depth b m i target (z ∷ zs) p h distinct wired ready opened =
    let one = schedule_slot (suc (suc depth)) m (some i) target (direction b) z p h in
    let done = slot-IsDone depth b m i target z p h ready.0 wired opened.0 in
    let whole : one ≡ (ok (recorded i (direction b) z p), one.1) = ap (λ x. (x, one.1)) done.0 in
    let rest =
      loop-IsLoopDone depth b m i target zs (recorded i (direction b) z p) one.1 distinct.1
        (IsWired-later m i h one.1 done.1.frame wired)
        (All-mono zs (λ y r. IsReady-later y i h one.1 done.1.frame r) ready.1)
        (still-IsOpen b i z zs _ h one.1 done.1 distinct.0 ready.1 opened.1) in
    rw whole (step-IsLoopDone b i target z zs p h one _ distinct.0 ready.0 done rest)

-- The two loops, one after the other.
pub record IsBothDone (b c : Bool) (i : TableId) (target : MacId) (xs ys : List ℤ)
    (o : Result Progress × Heap) : Type 0 where
  pub returned :
      o.0 ≡ ok (record_all i (direction c) ys (record_all i (direction b) xs nothing_yet))
  pub firsts : All (Holds target (direction b) i o.1) xs
  pub seconds : All (Holds target (direction c) i o.1) ys

swap-All : (xs ys : List ℤ) → All (λ x. All (λ y. x ≢ y) ys) xs → All (λ y. All (λ x. y ≢ x) xs) ys
swap-All xs [] apart = tt
swap-All xs (y ∷ ys) apart =
    (All-mono xs (λ x ne e. ne.0 (sym e)) apart, swap-All xs ys (All-mono xs (λ x ne. ne.1) apart))

pub both-IsBothDone :
    (depth : ℕ) (b c : Bool) (m : ReservationManager) (i : TableId) (target : MacId)
    (xs ys : List ℤ) (h : Heap)
    → Distinct xs
    → Distinct ys
    → All (λ x. All (λ y. x ≢ y) ys) xs
    → IsWired m i h
    → All (λ z. IsReady z i h) xs
    → All (λ z. IsReady z i h) ys
    → All (IsOpen b h i) xs
    → All (IsOpen c h i) ys
    → IsBothDone b c i target xs ys (
        (schedule_slots (suc (suc depth)) m (some i) target (direction b) xs nothing_yet
            >>= schedule_slots (suc (suc depth)) m (some i) target (direction c) ys)
          h)
both-IsBothDone depth b c m i target xs ys h distinct distinct' apart wired ready ready' opened
      opened' =
    let one = schedule_slots (suc (suc depth)) m (some i) target (direction b) xs nothing_yet h in
    let first = loop-IsLoopDone depth b m i target xs nothing_yet h distinct wired ready opened in
    let p = record_all i (direction b) xs nothing_yet in
    let whole : one ≡ (ok p, one.1) = ap (λ x. (x, one.1)) first.returned in
    let second =
      loop-IsLoopDone depth c m i target ys p one.1 distinct'
        (IsWired-later m i h one.1 first.frame wired)
        (All-mono ys (λ y r. IsReady-later y i h one.1 first.frame r) ready')
        (All-mono ys
          (λ y (ne, (r, o)).
            IsOpen-later c h one.1 i y first.frame (λ k v. first.apart k y v ne) r o)
          (All-both _ _ ys (swap-All xs ys apart) (All-both _ _ ys ready' opened'))) in
    rw whole (record {
      returned = second.returned;
      firsts =
          All-mono xs
            (λ x (ne, (v, e)). (rw ((second.frame i).horizon) v, second.apart i x v ne ∙ e))
            (All-both _ _ xs apart first.holds);
      seconds = second.holds;
    })
