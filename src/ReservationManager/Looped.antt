-- ===== src/ReservationManager/Looped.antt =====
-- What a loop of `scheduleBursts` records, and what it leaves alone.
use ldacs_mcsotdma.Prelude.{
  ℕ, suc, ◌≡◌, refl, sym, ap, ◌∙◌, ◌⊎◌, inl, inr, Bool, true, false, List, [], ◌∷◌, some, ℤ, All,
  All-mono, if◌then◌else◌,
}
use ldacs_mcsotdma.Prelude.Result.{Result, ok, err}
use ldacs_mcsotdma.Reservation.{MacId, Action, tx, rx}
use ldacs_mcsotdma.Table.{TableId, Heap}
use ldacs_mcsotdma.Table.Atomic.{IsReady}
use ldacs_mcsotdma.Table.Free.{Any}
use ldacs_mcsotdma.ReservationManager.{ReservationManager}
use ldacs_mcsotdma.ReservationManager.Schedule.{Progress, recorded, schedule_slot, schedule_slots}
use ldacs_mcsotdma.ReservationManager.Recorded.{record_all}
use ldacs_mcsotdma.ReservationManager.Taken.{
  ok-injective, IsKept, IsKept-refl, IsKept-trans, IsReady-later, SlotOutcome, slot_outcome,
  slot-IsKept, Holds, Holds-later,
}

abbrev pub IsFrom : List ℤ → ℤ → Type 0
IsFrom zs z = Any (λ y. z ≡ y) zs

-- What a loop does: it keeps what is closed; and if it ends, some of its slots are recorded, all
-- of which hold the link's reservation.
abbrev pub LoopOutcome :
    MacId → Action → TableId → List ℤ → Progress → Heap → Result Progress × Heap → Type 0
LoopOutcome target_id action i zs p h o =
    IsKept target_id i h o.1
    × ((p' : Progress)
        → o.0 ≡ ok p'
        → (new : List ℤ) × (p' ≡ record_all i action new p)
          × All (Holds target_id action i o.1) new
          × All (IsFrom zs) new)

-- What is known of the rounds that follow the first, which ends in `h'`.
abbrev RestOutcome :
    ℕ → ReservationManager → MacId → Action → TableId → List ℤ → Heap → Heap → Type 0
RestOutcome depth m target_id action i zs h h' =
    (p : Progress)
    → IsKept target_id i h h'
    → LoopOutcome target_id action i zs p h'
        (schedule_slots (suc (suc depth)) m (some i) target_id action zs p h')

pub loop_outcome :
    (depth : ℕ) (m : ReservationManager) (i : TableId) (target_id : MacId) (action : Action)
    (zs : List ℤ) (p : Progress) (h : Heap)
    → (action ≡ tx) ⊎ (action ≡ rx)
    → All (λ z. IsReady z i h) zs
    → LoopOutcome target_id action i zs p h
        (schedule_slots (suc (suc depth)) m (some i) target_id action zs p h)
unfolding schedule_slots record_all
loop_outcome depth m i target_id action [] p h a ready =
    (IsKept-refl target_id i h, λ p' e. ([], sym (ok-injective p p' e), tt, tt))
loop_outcome depth m i target_id action (z ∷ zs) p h a ready =
    go (slot_outcome depth m i target_id action z p h ready.0) (λ p1 k.
      loop_outcome depth m i target_id action zs p1 one.1 a
        (All-mono zs (λ y r. IsReady-later y i h one.1 k.frame r) ready.1))
  where
    one : Result Progress × Heap
    one = schedule_slot (suc (suc depth)) m (some i) target_id action z p h

    kept : SlotOutcome target_id action i z p h one → IsKept target_id i h one.1
    kept = slot-IsKept target_id action i z p h one

    next :
        (p1 : Progress)
        → RestOutcome depth m target_id action i zs h one.1
        → IsKept target_id i h one.1
        → one.0 ≡ ok p1
        → ((h'' : Heap) (new : List ℤ)
            → IsKept target_id i one.1 h''
            → All (Holds target_id action i h'') new
            → All (IsFrom zs) new
            → (more : List ℤ) × (record_all i action new p1 ≡ record_all i action more p)
              × All (Holds target_id action i h'') more
              × All (IsFrom (z ∷ zs)) more)
        → LoopOutcome target_id action i
            (z ∷ zs)
            p
            h
            (schedule_slots (suc (suc depth)) m (some i) target_id action (z ∷ zs) p h)
    next p1 others k fine extend =
        let whole : one ≡ (ok p1, one.1) = ap (λ x. (x, one.1)) fine in
        let (k2, rest) = others p1 k in
        let h'' = (schedule_slots (suc (suc depth)) m (some i) target_id action zs p1 one.1).1 in
        rw whole (
          IsKept-trans target_id i h one.1 h'' k k2,
          λ p' e.
              let (new, same, holds, from) = rest p' e in
              let (more, eq, holds', from') = extend h'' new k2 holds from in
              (more, same ∙ eq, holds', from'),
        )

    go :
        SlotOutcome target_id action i z p h one
        → RestOutcome depth m target_id action i zs h one.1
        → LoopOutcome target_id action i
            (z ∷ zs)
            p
            h
            (schedule_slots (suc (suc depth)) m (some i) target_id action (z ∷ zs) p h)
    go (inl (same, inl fine)) others =
        next p others (kept (inl (same, inl fine))) fine
          λ h'' new k holds from. (new, refl, holds, All-mono new (λ y f. inr f) from)
    go (inl (same, inr (e, bad))) others =
        let whole : one ≡ (err e, one.1) = ap (λ x. (x, one.1)) bad in
        rw whole (kept (inl (same, inr (e, bad))), λ p' e'. cc)
    go (inr (fine, marked, was)) others =
        next (recorded i action z p) others (kept (inr (fine, marked, was))) fine
          λ h'' new k holds from. (
            z ∷ new,
            refl,
            (
              Holds-later target_id action i one.1 h'' z a k
                  (rw ((marked.frame i).horizon) ready.0.valid, marked.holds),
              holds,
            ),
            (inl refl, All-mono new (λ y f. inr f) from),
          )

pub action_direction : (b : Bool) → ((if b then tx else rx) ≡ tx) ⊎ ((if b then tx else rx) ≡ rx)
action_direction true = inl refl
action_direction false = inr refl

pub other_direction : (b : Bool) → ((if b then rx else tx) ≡ tx) ⊎ ((if b then rx else tx) ≡ rx)
other_direction true = inr refl
other_direction false = inl refl
