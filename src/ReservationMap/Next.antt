-- ===== src/ReservationMap/Next.antt =====
-- The next reservation of a map is the earliest that does not lie in the past.
use ldacs_mcsotdma.Prelude.{
  ℕ, ◌≡◌, refl, sym, subst, ap, ◌∙◌, ◌⊎◌, inl, inr, Bool, true, false, ◌&&◌, List, [], ◌∷◌, some, ℤ,
  pos, ◌≤ℤ◌, leb_ℤ, ltb_ℤ, arith, All, Bool-cases,
}
use ldacs_mcsotdma.Prelude.Result.{ok, Result-cases}
use ldacs_mcsotdma.Reservation.{Reservation, is_tx}
use ldacs_mcsotdma.Table.{Heap, get_reservation}
use ldacs_mcsotdma.Table.Free.{Any}
use ldacs_mcsotdma.ReservationMap.{
  Resource, ReservationMap, current_offset, Match, better, best_from, no_match,
  get_next_tx_reservation,
}

-- The entry's slot is now or later, and its reservation passes the test.
abbrev pub IsNext : (Reservation → Bool) → Heap → ℕ → Resource → Type 0
IsNext test h since r =
    (pos 0 ≤ℤ current_offset since r)
    × ((res : Reservation) × (get_reservation (h.tables r.table) (current_offset since r) ≡ ok res)
        × (test res ≡ true))

-- The match is the given one, or leads to an entry of the list.
abbrev pub ComesFrom : (Reservation → Bool) → Heap → ℕ → List Resource → Match → Match → Type 0
ComesFrom test h since rs m m' =
    (m' ≡ m)
    ⊎ Any
        (λ r.
          IsNext test h since r
          × (m'.best ≡ some r.table)
          × (m'.best_offset ≡ current_offset since r)
          × (m'.closest ≡ current_offset since r))
        rs

abbrev pub NotLater : (Reservation → Bool) → Heap → ℕ → ℤ → Resource → Type 0
NotLater test h since z r = IsNext test h since r → z ≤ℤ current_offset since r

abbrev StepOutcome : (Reservation → Bool) → Heap → ℕ → Resource → Match → Match → Type 0
StepOutcome test h since r m m' =
    (m'.closest ≤ℤ m.closest)
    × NotLater test h since m'.closest r
    × ((m' ≡ m)
        ⊎ (IsNext test h since r
            × (m'.best ≡ some r.table)
            × (m'.best_offset ≡ current_offset since r)
            × (m'.closest ≡ current_offset since r)))

ok-injective : {A : Type 0} (a b : A) → ok a ≡ ok b → a ≡ b
ok-injective a b e = ground arith

hit_facts :
    (z c : ℤ) (b : Bool)
    → leb_ℤ (pos 0) z && (ltb_ℤ z c && b) ≡ true
    → (pos 0 ≤ℤ z) × (z ≤ℤ c) × (b ≡ true)
hit_facts z c b e = ground arith

miss_facts :
    (z c : ℤ) (b : Bool)
    → leb_ℤ (pos 0) z && (ltb_ℤ z c && b) ≡ false
    → pos 0 ≤ℤ z
    → b ≡ true
    → c ≤ℤ z
miss_facts z c b e f g = ground arith

le_refl : (z : ℤ) → z ≤ℤ z
le_refl z = omega arith

better_step :
    (test : Reservation → Bool) (h : Heap) (since : ℕ) (r : Resource) (m m' : Match)
    → better test h since r m ≡ ok m'
    → StepOutcome test h since r m m'
better_step test h since r m m' e =
    elim (Result-cases (get_reservation (h.tables r.table) (current_offset since r))) [
      | inr (x, eq) ↦ cc (rw eq at e)
      | inl (res, eq) ↦
          elim (Bool-cases (
            leb_ℤ (pos 0) (current_offset since r)
            && (ltb_ℤ (current_offset since r) m.closest && test res))) [
              | inl t ↦
                  let (now, sooner, passes) =
                    hit_facts (current_offset since r) m.closest (test res) t in
                  subst (StepOutcome test h since r m) (ok-injective _ m' (rw t at (rw eq at e))) (
                    sooner,
                    (λ _. le_refl (current_offset since r)),
                    inr ((now, (res, eq, passes)), refl, refl, refl),
                  )
              | inr f ↦
                  subst (StepOutcome test h since r m) (ok-injective _ m' (rw f at (rw eq at e))) (
                    le_refl m.closest,
                    (λ n.
                        miss_facts (current_offset since r) m.closest (test res) f n.0
                          (ap test (ok-injective res n.1.0 (sym eq ∙ n.1.1)) ∙ n.1.2)),
                    inl refl,
                  )
            ]
    ]

best_from_lem :
    (test : Reservation → Bool) (h : Heap) (since : ℕ) (rs : List Resource) (m m' : Match)
    → best_from test h since rs m ≡ ok m'
    → (m'.closest ≤ℤ m.closest)
      × All (NotLater test h since m'.closest) rs
      × ComesFrom test h since rs m m'
unfolding best_from
best_from_lem test h since [] m m' e = (ground arith, tt, inl (sym (ok-injective m m' e)))
best_from_lem test h since (r ∷ rs) m m' e = elim (Result-cases (better test h since r m)) [
  | inr (x, eq) ↦ cc (rw eq at e)
  | inl (one, eq) ↦
      let (le1, first, from) = better_step test h since r m one eq in
      let (le2, rest, origin) = best_from_lem test h since rs one m' (rw eq at e) in
      (
        omega arith,
        ((λ n. le_trans m'.closest one.closest (current_offset since r) le2 (first n)), rest),
        combine r rs m one m' from origin,
      )
]
  where
    le_trans : (a b c : ℤ) → a ≤ℤ b → b ≤ℤ c → a ≤ℤ c
    le_trans a b c p q = omega arith

    combine :
        (r : Resource) (rs : List Resource) (m one m' : Match)
        → (one ≡ m)
          ⊎ (IsNext test h since r
              × (one.best ≡ some r.table)
              × (one.best_offset ≡ current_offset since r)
              × (one.closest ≡ current_offset since r))
        → ComesFrom test h since rs one m'
        → ComesFrom test h since (r ∷ rs) m m'
    combine r rs m one m' (inl a) (inl b) = inl (b ∙ a)
    combine r rs m one m' (inr a) (inl b) = inr (
        inl (
          a.0,
          ap (λ (x : Match). x.best) b ∙ a.1,
          ap (λ (x : Match). x.best_offset) b ∙ a.2,
          ap (λ (x : Match). x.closest) b ∙ a.3,
        ))
    combine r rs m one m' a (inr b) = inr (inr b)

-- What the search for the next transmission returns is either no match, or a scheduled entry that
-- is now or later and whose slot holds a transmission; and no scheduled entry that is now or
-- later, within the largest `int`, and holds a transmission is earlier.
pub next_tx_earliest :
    (h : Heap) (m : ReservationMap) (out : Match)
    → get_next_tx_reservation h m ≡ ok out
    → All (NotLater is_tx h m.num_slots_since_creation out.closest) m.scheduled_resources
      × ComesFrom is_tx h m.num_slots_since_creation m.scheduled_resources no_match out
unfolding get_next_tx_reservation
next_tx_earliest h m out e =
    let (_, earliest, origin) =
      best_from_lem is_tx h m.num_slots_since_creation m.scheduled_resources no_match out e in
    (earliest, origin)
