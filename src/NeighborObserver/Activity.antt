-- ===== src/NeighborObserver/Activity.antt =====
-- Slot by slot: how long a neighbor stays active, and when its broadcast is due.
use ldacs_mcsotdma.Prelude.{
  ℕ, zero, suc, ◌+◌, ◌-◌, ◌%◌, ◌≤◌, ◌<◌, ◌≡◌, ◌≢◌, refl, sym, ap, ◌∙◌, inl, inr, true, false, ◌==◌,
  ◌&&◌, ltb, leb, List, [], ◌∷◌, some, arith, All, All-mono, Option-cases, Bool-cases, u32_mod,
}
use ldacs_mcsotdma.Prelude.Result.{Result, ok, err}
use ldacs_mcsotdma.Prelude.Maps.{
  Entry, find, erase, IsMap, find-put_self, find-put_ne, find-erase_ne, equal,
}
use ldacs_mcsotdma.Reservation.{MacId, MacIds}
use ldacs_mcsotdma.MovingAverage.{MovingAverage}
use ldacs_mcsotdma.MovingAverage
use ldacs_mcsotdma.NeighborObserver.{
  NeighborObserver, Step, first_id, first_put, update_first, update_own, and_then,
  update_last_seen_counter, report_activity, tick, age_all, on_slot_end, is_active,
  get_next_expected_broadcast_slot_offset,
}

tick-ne : (id j : MacId) (slots : List (Entry ℕ)) → id ≢ j → find j (tick id slots) ≡ find j slots
unfolding tick
tick-ne id j slots ne = elim (Option-cases (find id slots)) [
  | inl e ↦ rw e
  | inr (n, e) ↦ rw e (elim (Bool-cases (ltb 0 n)) [
    | inl t ↦ rw t (find-put_ne id j (n - 1) slots ne)
    | inr f ↦ rw f (find-erase_ne id j slots ne)
  ])
]

tick_self :
    (id : MacId) (n : ℕ) (slots : List (Entry ℕ))
    → find id slots ≡ some (suc n)
    → find id (tick id slots) ≡ some n
unfolding tick
tick_self id n slots e =
    let less : suc n - 1 ≡ n = omega arith in
    let more : ltb 0 (suc n) ≡ true = ground arith in
    rw (e, more) (find-put_self id (suc n - 1) slots ∙ ap some less)

-- What holds of every key holds of every key that is left.
age_keys :
    (P : MacId → Type 0) (m : ℕ) (es slots : List (Entry ℕ))
    → All (λ (d : Entry ℕ). P d.key) es
    → All (λ (d : Entry ℕ). P d.key) (age_all m es slots).0
unfolding age_all
age_keys P m [] slots h = tt
age_keys P m (e ∷ es) slots h = elim (Bool-cases (leb m ((e.value + 1) % u32_mod))) [
  | inl t ↦ rw t (age_keys P m es (erase e.key (tick e.key slots)) h.1)
  | inr f ↦ rw f (h.0, age_keys P m es (tick e.key slots) h.1)
]

age-IsMap : (m : ℕ) (es slots : List (Entry ℕ)) → IsMap es → IsMap (age_all m es slots).0
unfolding age_all
age-IsMap m [] slots h = tt
age-IsMap m (e ∷ es) slots h = elim (Bool-cases (leb m ((e.value + 1) % u32_mod))) [
  | inl t ↦ rw t (age-IsMap m es (erase e.key (tick e.key slots)) h.1)
  | inr f ↦
      rw f (
        age_keys (λ k. e.key ≢ k) m es (tick e.key slots) h.0,
        age-IsMap m es (tick e.key slots) h.1,
      )
]

-- The loop leaves the broadcast of a neighbor that it does not come to alone.
age-absent :
    (m : ℕ) (id : MacId) (es slots : List (Entry ℕ))
    → All (λ (d : Entry ℕ). id ≢ d.key) es
    → find id (age_all m es slots).1 ≡ find id slots
unfolding age_all
age-absent m id [] slots h = refl
age-absent m id (e ∷ es) slots h = elim (Bool-cases (leb m ((e.value + 1) % u32_mod))) [
  | inl t ↦ rw t (
      age-absent m id es (erase e.key (tick e.key slots)) h.1
      ∙ find-erase_ne e.key id (tick e.key slots) (λ s. h.0 (sym s))
      ∙ tick-ne e.key id slots (λ s. h.0 (sym s)))
  | inr f ↦
      rw f (age-absent m id es (tick e.key slots) h.1 ∙ tick-ne e.key id slots (λ s. h.0 (sym s)))
]

-- A neighbor that stays: its counter grows, and its broadcast comes nearer.
age-stays :
    (m : ℕ) (id : MacId) (v n : ℕ) (es slots : List (Entry ℕ))
    → IsMap es
    → find id es ≡ some v
    → v + 1 < m
    → m ≤ u32_mod
    → find id slots ≡ some (suc n)
    → (find id (age_all m es slots).0 ≡ some (v + 1)) × (find id (age_all m es slots).1 ≡ some n)
unfolding age_all find
age-stays m id v n [] slots h e lt le at_slot = cc
age-stays m id v n (d ∷ es) slots h e lt le at_slot = elim (Bool-cases (d.key == id)) [
  | inl t ↦
      let k : d.key ≡ id = equal d.key id t in
      let here : d.value ≡ v = some-injective d.value v (rw t at e) in
      let young : leb m ((d.value + 1) % u32_mod) ≡ false = stays m d.value v here lt le in
      let next : (d.value + 1) % u32_mod ≡ v + 1 = omega arith in
      rw (young, t)
        (
          ap some next,
          age-absent m id es (tick d.key slots) (All-mono es (λ x ne s. ne (k ∙ s)) h.0)
              ∙ ap (λ j. find id (tick j slots)) k
              ∙ tick_self id n slots at_slot,
        )
  | inr f ↦
      let other : find id es ≡ some v = rw f at e in
      let ne : d.key ≢ id = λ s. clash d.key id f s in
      elim (Bool-cases (leb m ((d.value + 1) % u32_mod))) [
        | inl old ↦ rw old (
            age-stays m id v n es (erase d.key (tick d.key slots)) h.1 other lt le
              (find-erase_ne d.key id (tick d.key slots) ne ∙ tick-ne d.key id slots ne ∙ at_slot))
        | inr young ↦
            rw (young, f)
              (age-stays m id v n es (tick d.key slots) h.1 other lt le
                (tick-ne d.key id slots ne ∙ at_slot))
      ]
]
  where
    some-injective : (a b : ℕ) → some a ≡ some b → a ≡ b
    some-injective a b e = ground arith

    stays : (m a v : ℕ) → a ≡ v → v + 1 < m → m ≤ u32_mod → leb m ((a + 1) % u32_mod) ≡ false
    stays m a v e lt le =
        let next : (a + 1) % u32_mod ≡ v + 1 = omega arith in rw next (ground arith)

    clash : (a b : ℕ) → (a == b) ≡ false → a ≡ b → ⊥
    clash a b f s = ground arith

-- `n` slots pass.
unfoldable pub slots_pass : ℕ → NeighborObserver → NeighborObserver
unfolding on_slot_end
slots_pass zero o = o
slots_pass (suc n) o = slots_pass n (on_slot_end o)

abbrev pub IsWaiting : MacId → ℕ → ℕ → NeighborObserver → Type 0
IsWaiting id v n o =
    IsMap o.active_neighbors
    × (find id o.active_neighbors ≡ some v)
    × (find id o.advertised_broadcast_slots ≡ some n)

one_slot :
    (id : MacId) (v n : ℕ) (o : NeighborObserver)
    → IsWaiting id v (suc n) o
    → v + 1 < o.max_last_seen_val
    → o.max_last_seen_val ≤ u32_mod
    → IsWaiting id (v + 1) n (on_slot_end o)
unfolding on_slot_end
one_slot id v n o (is_map, active, slot) lt le =
    let (a, b) =
      age-stays o.max_last_seen_val id v n o.active_neighbors o.advertised_broadcast_slots is_map
        active lt le slot in
    (age-IsMap o.max_last_seen_val o.active_neighbors o.advertised_broadcast_slots is_map, a, b)

-- A neighbor that was last seen `v` slots ago, and whose next broadcast is due in `k + n` slots: if
-- it stays active for `k` more slots, it was then last seen `v + k` slots ago, and its broadcast is
-- due in `n` slots.
pub broadcast_countdown :
    (id : MacId) (k v n : ℕ) (o : NeighborObserver)
    → IsWaiting id v (k + n) o
    → v + k < o.max_last_seen_val
    → o.max_last_seen_val ≤ u32_mod
    → IsWaiting id (v + k) n (slots_pass k o)
      × (get_next_expected_broadcast_slot_offset id (slots_pass k o) ≡ ok n)
unfolding slots_pass get_next_expected_broadcast_slot_offset
broadcast_countdown id zero v n o (is_map, active, slot) lt le =
    let z : v + 0 ≡ v = omega arith in
    let z' : 0 + n ≡ n = omega arith in
    let slot' : find id o.advertised_broadcast_slots ≡ some n = slot ∙ ap some z' in
    rw (z, slot') ((is_map, active, refl), refl)
broadcast_countdown id (suc k) v n o w lt le =
    let e : suc k + n ≡ suc (k + n) = omega arith in
    let e' : v + suc k ≡ v + 1 + k = omega arith in
    rw e' (
      broadcast_countdown id k (v + 1) n (on_slot_end o)
        (one_slot id v (k + n) o (w.0, w.1, w.2 ∙ ap some e) (omega arith) le) (omega arith) le)

first_put_keeps :
    (o : NeighborObserver) (r : Result (Unit {0}) × MovingAverage)
    → (first_put o r).1.active_neighbors ≡ o.active_neighbors
first_put_keeps o (ok _, m) = refl
first_put_keeps o (err e, m) = refl

first_keeps :
    ⦃ids : MacIds⦄
    → (id : MacId) (n : ℕ) (o : NeighborObserver)
    → (update_first id n o).1.active_neighbors ≡ o.active_neighbors
unfolding update_first
first_keeps id n o = elim (Bool-cases ((id == first_id id o) && ltb 0 n)) [
  | inl t ↦ rw t (
      first_put_keeps (record o { first_neighbor_id = first_id id o })
        (MovingAverage.put n o.first_neighbor_avg_last_seen))
  | inr f ↦ rw f
]

own_keeps :
    (id : MacId) (n : ℕ) (o : NeighborObserver)
    → (update_own id n o).1.active_neighbors ≡ o.active_neighbors
unfolding update_own
own_keeps id n o = elim (Option-cases (find id o.avg_last_seen)) [
  | inl e ↦ rw (e, update_own) (elim (Bool-cases (ltb 0 n)) [ inl t ↦ rw t | inr f ↦ rw f ])
  | inr (m, e) ↦ rw (e, update_own)
]

both_keep :
    (id : MacId) (n : ℕ) (s : Step)
    → (and_then s (update_own id n)).1.active_neighbors ≡ s.1.active_neighbors
both_keep id n (ok _, o) = own_keeps id n o
both_keep id n (err e, o) = refl

report_activity_finds :
    ⦃ids : MacIds⦄
    → (id : MacId) (o : NeighborObserver)
    → find id (report_activity id o).1.active_neighbors ≡ some 0
unfolding report_activity
report_activity_finds id o =
    ap (find id) (
      both_keep id _
        (update_first id (update_last_seen_counter id o).0 (update_last_seen_counter id o).1)
      ∙ first_keeps id (update_last_seen_counter id o).0 (update_last_seen_counter id o).1)
    ∙ find-put_self id 0 o.active_neighbors

-- When the activity of a neighbor has been reported, also where the report throws, the neighbor is
-- listed with 0 slots since it was seen, and `isActive` is false of it.
pub report_activity-is_active :
    ⦃ids : MacIds⦄
    → (id : MacId) (o : NeighborObserver)
    → let o' = (report_activity id o).1 in
      (find id o'.active_neighbors ≡ some 0) × (is_active id o' ≡ false)
unfolding is_active
report_activity-is_active id o = (report_activity_finds id o, rw (report_activity_finds id o))
