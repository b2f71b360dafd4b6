-- ===== src/LinkProposalFinder/Proposals.antt =====
-- What is proposed: links on channels that are not blocked, at slots that are free.
use mathlib.Core.List.{Perm}
use ldacs_mcsotdma.Prelude.{
  ℕ, zero, suc, ◌≤◌, ◌≡◌, refl, subst, inl, inr, false, List, [], ◌∷◌, none, some, ℤ, ◌≤ℤ◌, to_u32,
  to_i32, arith, length, All, All-mono, Bool-cases, ltb, ltb→lt, Option-cases,
}
use ldacs_mcsotdma.Prelude.Result.{ok, Result-cases}
use ldacs_mcsotdma.Table.{TableId, ChannelId, Heap}
use ldacs_mcsotdma.Table.Find.{Demand, demand_slots, find_pp_candidates}
use ldacs_mcsotdma.Table.Free.{Any, IsUsable}
use ldacs_mcsotdma.Table.Candidates.{find_pp_candidates-IsUsable}
use ldacs_mcsotdma.Channel.{is_blocked}
use ldacs_mcsotdma.ReservationManager.{ReservationManager}
use ldacs_mcsotdma.LinkProposalFinder.{
  fewer_idle, pop_most_idle, popped_in_order, get_sorted_p2p_reservation_tables, Proposal, first_of,
  propose_on, propose_from, find_link_proposals, kept_going,
}
use ldacs_mcsotdma.LinkProposalFinder.Queue.{
  popped_in_order-Perm, idle_slots, popped_in_order-Any, popped_in_order-All,
}

-- The proposal is for the table's channel, which is not blocked, and its link's slots are free.
abbrev pub IsProposable : Heap → ℤ → Demand → Proposal → TableId → Type 0
IsProposable h min_offset d p i =
    (c : ChannelId) × ((h.tables i).freq_channel ≡ some c)
    × (is_blocked (h.channels c) ≡ false)
    × (p.center_frequency ≡ (h.channels c).center_frequency)
    × (to_i32 (to_u32 min_offset) ≤ℤ p.slot_offset)
    × IsUsable h i (demand_slots d p.slot_offset).tx_slots (demand_slots d p.slot_offset).rx_slots

ok-injective : {A : Type 0} (a b : A) → ok a ≡ ok b → a ≡ b
ok-injective a b e = ground arith

some-injective : {A : Type 0} (a b : A) → some a ≡ some b → a ≡ b
some-injective a b e = ground arith

first_of-IsProposable :
    (h : Heap) (min_offset : ℤ) (d : Demand) (i : TableId) (c : ChannelId) (zs : List ℤ)
    (p : Proposal)
    → (h.tables i).freq_channel ≡ some c
    → is_blocked (h.channels c) ≡ false
    → find_pp_candidates h i 1 (to_u32 min_offset) d ≡ ok zs
    → first_of (h.channels c).center_frequency d.period zs ≡ some p
    → IsProposable h min_offset d p i
first_of-IsProposable h min_offset d i c [] p at_channel clear e f = cc
first_of-IsProposable h min_offset d i c (z ∷ zs) p at_channel clear e f =
    let (_, up, usable) = find_pp_candidates-IsUsable h i 1 (to_u32 min_offset) d (z ∷ zs) e in
    subst (λ (q : Proposal). IsProposable h min_offset d q i)
      (some-injective
        (record {
          center_frequency = (h.channels c).center_frequency;
          period = d.period;
          slot_offset = z;
        })
        p f)
      (c, at_channel, clear, refl, up.0, usable.0)

propose_on-IsProposable :
    (h : Heap) (min_offset : ℤ) (d : Demand) (i : TableId) (p : Proposal)
    → propose_on h min_offset d i ≡ ok (some p)
    → IsProposable h min_offset d p i
unfolding propose_on
propose_on-IsProposable h min_offset d i p e = elim (Option-cases (h.tables i).freq_channel) [
  | inl none' ↦ cc (rw none' at e)
  | inr (c, at_channel) ↦ elim (Bool-cases (is_blocked (h.channels c))) [
    | inl shut ↦ cc (rw shut at (rw at_channel at e))
    | inr clear ↦ elim (Result-cases (find_pp_candidates h i 1 (to_u32 min_offset) d)) [
      | inr (x, bad) ↦ cc (rw bad at (rw clear at (rw at_channel at e)))
      | inl (zs, fine) ↦
          first_of-IsProposable h min_offset d i c zs p at_channel clear fine
            (ok-injective _ (some p) (rw fine at (rw clear at (rw at_channel at e))))
    ]
  ]
]

-- Each proposal is for one of the tables.
abbrev pub AllProposable : Heap → ℤ → Demand → List TableId → List Proposal → Type 0
AllProposable h min_offset d is ps = All (λ p. Any (IsProposable h min_offset d p) is) ps

nothing_proposed :
    (h : Heap) (min_offset : ℤ) (d : Demand) (is : List TableId) (n : ℕ) (ps : List Proposal)
    → ok [] ≡ ok ps
    → (length ps ≤ n) × AllProposable h min_offset d is ps
nothing_proposed h min_offset d is n ps e =
    subst (λ qs. (length qs ≤ n) × AllProposable h min_offset d is qs) (ok-injective [] ps e)
      (omega arith, tt)

propose_from-AllProposable :
    (h : Heap) (min_offset : ℤ) (d : Demand) (is : List TableId) (n : ℕ) (ps : List Proposal)
    → propose_from h min_offset d is n ≡ ok ps
    → (length ps ≤ n) × AllProposable h min_offset d is ps
unfolding propose_from
propose_from-AllProposable h min_offset d [] n ps e = nothing_proposed h min_offset d [] n ps e
propose_from-AllProposable h min_offset d (i ∷ is) zero ps e =
    nothing_proposed h min_offset d (i ∷ is) zero ps e
propose_from-AllProposable h min_offset d (i ∷ is) (suc n) ps e =
    elim (Result-cases (propose_on h min_offset d i)) [
      | inr (x, bad) ↦ cc (rw bad at e)
      | inl (none, fine) ↦
          let (short, each) =
            propose_from-AllProposable h min_offset d is (suc n) ps (rw fine at e) in
          (short, All-mono ps (λ p a. inr a) each)
      | inl (some p, fine) ↦ elim (Result-cases (propose_from h min_offset d is n)) [
        | inr (x, bad) ↦ cc (rw (bad, kept_going) at (rw fine at e))
        | inl (rest, good) ↦
            let (short, each) = propose_from-AllProposable h min_offset d is n rest good in
            subst (λ qs. (length qs ≤ suc n) × AllProposable h min_offset d (i ∷ is) qs)
              (ok-injective (p ∷ rest) ps (rw (good, kept_going) at (rw fine at e)))
              (
                omega arith,
                (
                  inl (propose_on-IsProposable h min_offset d i p fine),
                  All-mono rest (λ q a. inr a) each,
                ),
              )
      ]
    ]

-- There are as many proposals as asked for at most. Each is for one of the manager's
-- point-to-point tables, on its channel, which is not blocked; and starts at or after the minimum
-- offset, in a slot from where the link's transmission slots are idle in the table and at the
-- transmitter, its reception slots in the table and at a receiver.
pub find_link_proposals-AllProposable :
    (h : Heap) (m : ReservationManager) (n : ℕ) (min_offset : ℤ) (d : Demand) (ps : List Proposal)
    → find_link_proposals h m n min_offset d ≡ ok ps
    → (length ps ≤ n) × AllProposable h min_offset d m.p2p_reservation_tables ps
unfolding find_link_proposals
find_link_proposals-AllProposable h m n min_offset d ps e =
    let (short, each) =
      propose_from-AllProposable h min_offset d (get_sorted_p2p_reservation_tables h m) n ps e in
    (
      short,
      All-mono ps
          (λ p a.
            popped_in_order-Any (IsProposable h min_offset d p) h (length m.p2p_reservation_tables)
              m.p2p_reservation_tables a)
          each,
    )

-- No table comes after one with fewer idle slots.
abbrev pub IsSorted : Heap → List TableId → Type 0
IsSorted h [] = Unit {0}
IsSorted h (i ∷ is) = All (λ j. idle_slots h j ≤ idle_slots h i) is × IsSorted h is

pop_most_idle-top :
    (h : Heap) (i : TableId) (is : List TableId)
    → (idle_slots h i ≤ idle_slots h (pop_most_idle h i is).top)
      × All
          (λ j. idle_slots h j ≤ idle_slots h (pop_most_idle h i is).top)
          (pop_most_idle h i is).others
unfolding pop_most_idle
pop_most_idle-top h i [] = (omega arith, tt)
pop_most_idle-top h i (j ∷ js) = elim (Bool-cases (fewer_idle h i j)) [
  | inl t ↦
      let (more, others) = pop_most_idle-top h j js in
      let less = ltb→lt (idle_slots h i) (idle_slots h j) t in
      rw t (omega arith, (omega arith, others))
  | inr f ↦
      let (more, others) = pop_most_idle-top h i js in
      let not_less = not_fewer (idle_slots h i) (idle_slots h j) f in
      rw f (more, (omega arith, others))
]
  where
    not_fewer : (a b : ℕ) → ltb a b ≡ false → b ≤ a
    not_fewer a b f = ground arith

popped_in_order-IsSorted :
    (h : Heap) (n : ℕ) (is : List TableId) → IsSorted h (popped_in_order h n is)
unfolding popped_in_order
popped_in_order-IsSorted h zero is = tt
popped_in_order-IsSorted h (suc n) [] = tt
popped_in_order-IsSorted h (suc n) (i ∷ is) = (
  popped_in_order-All (λ j. idle_slots h j ≤ idle_slots h (pop_most_idle h i is).top) h n
      (pop_most_idle h i is).others (pop_most_idle-top h i is).1,
  popped_in_order-IsSorted h n (pop_most_idle h i is).others,
)

-- The queue gives out the manager's point-to-point tables, each as often as the manager has it, and
-- none after one with fewer idle slots.
pub get_sorted_p2p_reservation_tables-IsSorted :
    (h : Heap) (m : ReservationManager)
    → Perm (get_sorted_p2p_reservation_tables h m) m.p2p_reservation_tables
      × IsSorted h (get_sorted_p2p_reservation_tables h m)
unfolding get_sorted_p2p_reservation_tables
get_sorted_p2p_reservation_tables-IsSorted h m = (
  popped_in_order-Perm h (length m.p2p_reservation_tables) m.p2p_reservation_tables refl,
  popped_in_order-IsSorted h (length m.p2p_reservation_tables) m.p2p_reservation_tables,
)
