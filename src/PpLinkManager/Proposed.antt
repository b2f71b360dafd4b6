-- ===== src/PpLinkManager/Proposed.antt =====
-- The slots of a proposal are those that are locked.
use ldacs_mcsotdma.Prelude.{
  ℕ, ◌≡◌, refl, sym, subst, inl, inr, true, ◌==◌, ltb, List, [], ◌∷◌, Option, some, ℤ, to_u32,
  to_i32, arith, All, All-mono, Bool-cases,
}
use ldacs_mcsotdma.Prelude.Result.{Result, ok, ◌>>=◌, Result-cases}
use ldacs_mcsotdma.Reservation.{MacId}
use ldacs_mcsotdma.Table.{TableId, Heap}
use ldacs_mcsotdma.Table.State.{deref}
use ldacs_mcsotdma.Table.Query.{can_lock, any_table}
use ldacs_mcsotdma.Table.Free.{Any}
use ldacs_mcsotdma.SlotCalculator.{Slots, calculate_alternating_bursts}
use ldacs_mcsotdma.ReservationMap.{ReservationMap}
use ldacs_mcsotdma.ReservationMap.Released.{IsFormedHeap}
use ldacs_mcsotdma.ReservationManager.{
  ReservationManager, get_freq_channel_by_center_freq, get_reservation_table,
}
use ldacs_mcsotdma.ThirdPartyLink.{LinkProposal}
use ldacs_mcsotdma.PpLinkManager.Locking.{
  emplace, LockSets, no_slots, must_lock, add_tx, add_rx, check_tx_slots, check_rx_slots,
  check_slots, lock_sets, lock_proposal,
}
use ldacs_mcsotdma.PpLinkManager.KeepsLocks.{HeldFor}
use ldacs_mcsotdma.PpLinkManager.Locked.{KeepsOthers, lock_sets_outcome}

abbrev In : ℕ → List ℕ → Type 0
In x xs = Any (λ y. y ≡ x) xs

equal : (a b : ℕ) → (a == b) ≡ true → b ≡ a
equal a b e = ground arith

In-emplace_self : (x : ℕ) (xs : List ℕ) → In x (emplace x xs)
unfolding emplace
In-emplace_self x [] = inl refl
In-emplace_self x (y ∷ ys) = elim (Bool-cases (x == y)) [
  | inl same ↦ rw same (inl (equal x y same))
  | inr ne ↦ elim (Bool-cases (ltb x y)) [
    | inl lt ↦ rw (ne, lt) (inl refl)
    | inr ge ↦ rw (ne, ge) (inr (In-emplace_self x ys))
  ]
]

In-emplace : (x s : ℕ) (xs : List ℕ) → In x xs → In x (emplace s xs)
unfolding emplace
In-emplace x s [] h = elim h [ ]
In-emplace x s (y ∷ ys) h = elim (Bool-cases (s == y)) [
  | inl same ↦ rw same h
  | inr ne ↦ elim (Bool-cases (ltb s y)) [
    | inl lt ↦ rw (ne, lt) (inr h)
    | inr ge ↦ rw (ne, ge) (elim h [ inl e ↦ inl e | inr e ↦ inr (In-emplace x s ys e) ])
  ]
]

ok-injective : (a b : LockSets) → ok a ≡ ok b → a ≡ b
ok-injective a b e = ground arith

-- A check that passes has put every slot into its two sets, and has left none out.
record TxChecked (zs : List ℤ) (sets out : LockSets) : Type 0 where
  listed : All (λ z. In (to_u32 z) out.local × In (to_u32 z) out.transmitter) zs
  local : (x : ℕ) → In x sets.local → In x out.local
  transmitter : (x : ℕ) → In x sets.transmitter → In x out.transmitter

check_tx_listed :
    (h : Heap) (tbl tx_table : Option TableId) (zs : List ℤ) (sets out : LockSets)
    → check_tx_slots h tbl tx_table zs sets ≡ ok out
    → TxChecked zs sets out
unfolding check_tx_slots
check_tx_listed h tbl tx_table [] sets out e =
    subst (TxChecked [] sets) (ok-injective sets out e)
      (record { listed = tt; local = λ x p. p; transmitter = λ x p. p })
check_tx_listed h tbl tx_table (z ∷ zs) sets out e = elim (Result-cases (deref tbl)) [
  | inr (x, bad) ↦ cc (rw bad at e)
  | inl (i, at_i) ↦ elim (Result-cases (must_lock (can_lock (h.tables i) (to_u32 z)))) [
    | inr (x, bad) ↦ cc (rw bad at (rw at_i at e))
    | inl (u, pass_i) ↦ elim (Result-cases (deref tx_table)) [
      | inr (x, bad) ↦ cc (rw bad at (rw pass_i at (rw at_i at e)))
      | inl (j, at_j) ↦ elim (Result-cases (must_lock (can_lock (h.tables j) (to_u32 z)))) [
        | inr (x, bad) ↦ cc (rw bad at (rw at_j at (rw pass_i at (rw at_i at e))))
        | inl (v, pass_j) ↦
            let c =
              check_tx_listed h tbl tx_table zs (add_tx (to_u32 z) sets) out
                (rw pass_j at (rw at_j at (rw pass_i at (rw at_i at e)))) in
            record {
              listed = (
                (
                  c.local (to_u32 z) (In-emplace_self (to_u32 z) sets.local),
                  c.transmitter (to_u32 z) (In-emplace_self (to_u32 z) sets.transmitter),
                ),
                c.listed,
              );
              local = λ x p. c.local x (In-emplace x (to_u32 z) sets.local p);
              transmitter = λ x p. c.transmitter x (In-emplace x (to_u32 z) sets.transmitter p);
            }
      ]
    ]
  ]
]

record RxChecked (zs : List ℤ) (sets out : LockSets) : Type 0 where
  listed : All (λ z. In (to_u32 z) out.local) zs
  local : (x : ℕ) → In x sets.local → In x out.local
  transmitter : out.transmitter ≡ sets.transmitter

check_rx_listed :
    (h : Heap) (tbl : Option TableId) (rx_tables : List TableId) (zs : List ℤ) (sets out : LockSets)
    → check_rx_slots h tbl rx_tables zs sets ≡ ok out
    → RxChecked zs sets out
unfolding check_rx_slots
check_rx_listed h tbl rx_tables [] sets out e =
    subst (RxChecked [] sets) (ok-injective sets out e)
      (record { listed = tt; local = λ x p. p; transmitter = refl })
check_rx_listed h tbl rx_tables (z ∷ zs) sets out e = elim (Result-cases (deref tbl)) [
  | inr (x, bad) ↦ cc (rw bad at e)
  | inl (i, at_i) ↦ elim (Result-cases (must_lock (can_lock (h.tables i) (to_u32 z)))) [
    | inr (x, bad) ↦ cc (rw bad at (rw at_i at e))
    | inl (u, pass_i) ↦
        elim (Result-cases (must_lock (any_table (λ t. can_lock t (to_u32 z)) h rx_tables))) [
          | inr (x, bad) ↦ cc (rw bad at (rw pass_i at (rw at_i at e)))
          | inl (v, pass_k) ↦
              let c =
                check_rx_listed h tbl rx_tables zs (add_rx (to_u32 z) sets) out
                  (rw pass_k at (rw pass_i at (rw at_i at e))) in
              record {
                listed = (c.local (to_u32 z) (In-emplace_self (to_u32 z) sets.local), c.listed);
                local = λ x p. c.local x (In-emplace x (to_u32 z) sets.local p);
                transmitter = c.transmitter;
              }
        ]
  ]
]

all_in : (P : ℕ → Type 0) (x : ℕ) (xs : List ℕ) → All P xs → In x xs → P x
all_in P x [] a h = elim h [ ]
all_in P x (y ∷ ys) a (inl e) = subst P e a.0
all_in P x (y ∷ ys) a (inr h) = all_in P x ys a.1 h

-- What a proposal's slots hold afterwards.
abbrev pub ProposalOutcome :
    TableId → TableId → MacId → Slots → Heap → Result ReservationMap × Heap → Type 0
ProposalOutcome i j id slots h o =
    KeepsOthers i j h o.1
    × ((m : ReservationMap)
        → o.0 ≡ ok m
        → All (λ z. HeldFor id i (to_i32 (to_u32 z)) o.1 × HeldFor id j (to_i32 (to_u32 z)) o.1)
            slots.tx_slots
          × All (λ z. HeldFor id i (to_i32 (to_u32 z)) o.1) slots.rx_slots)

checked_outcome :
    (i j : TableId) (m : ReservationManager) (id : MacId) (slots : Slots) (sets : LockSets)
    (h : Heap)
    → IsFormedHeap h
    → m.hardware_tx_table ≡ some j
    → check_slots m slots (some i) h ≡ ok sets
    → ProposalOutcome i j id slots h (lock_sets (some i) m id sets h)
unfolding check_slots
checked_outcome i j m id slots sets h w e checked =
    elim (Result-cases (check_tx_slots h (some i) m.hardware_tx_table slots.tx_slots no_slots)) [
      | inr (x, bad) ↦ cc (rw bad at checked)
      | inl (one, fine) ↦
          let t = check_tx_listed h (some i) m.hardware_tx_table slots.tx_slots no_slots one fine in
          let r =
            check_rx_listed h (some i) m.hardware_rx_tables slots.rx_slots one sets
              (rw fine at checked) in
          let (others, held) = lock_sets_outcome i j m id sets h w e in
          (
            others,
            λ lm good.
                let (local, transmitter) = held lm good in
                (
                  All-mono slots.tx_slots
                      (λ z p. (
                        all_in _ (to_u32 z) sets.local local (r.local (to_u32 z) p.0),
                        all_in _ (to_u32 z) sets.transmitter transmitter
                            (subst (In (to_u32 z)) (sym r.transmitter) p.1),
                      ))
                      t.listed,
                  All-mono slots.rx_slots (λ z p. all_in _ (to_u32 z) sets.local local p) r.listed,
                ),
          )
    ]

-- Locking the resources of a proposal, on well-formed tables with a linked transmitter, changes the
-- table of the proposal's channel and that of the transmitter at most, so no receiver's, whatever
-- the result. If it returns, every transmission slot is locked for the link in both, and every
-- reception slot in the table of the channel.
pub lock_proposal_holds :
    (i j : TableId) (m : ReservationManager) (timeout : ℕ) (id : MacId) (proposal : LinkProposal)
    (h : Heap)
    → IsFormedHeap h
    → m.hardware_tx_table ≡ some j
    → (get_freq_channel_by_center_freq h m proposal.center_frequency >>= get_reservation_table h m)
      ≡ ok (some i)
    → ProposalOutcome i j id
        (calculate_alternating_bursts proposal.slot_offset proposal.num_tx_initiator
          proposal.num_tx_recipient proposal.period timeout)
        h
        (lock_proposal m timeout id proposal h)
unfolding lock_proposal
lock_proposal_holds i j m timeout id proposal h w e at_i =
    rw at_i (elim (Result-cases (check_slots m slots (some i) h)) [
      | inr (x, bad) ↦ rw bad ((λ k ni nj. refl), λ lm f. cc f)
      | inl (sets, fine) ↦ rw fine (checked_outcome i j m id slots sets h w e fine)
    ])
  where
    slots : Slots
    slots =
        calculate_alternating_bursts proposal.slot_offset proposal.num_tx_initiator
          proposal.num_tx_recipient proposal.period timeout
