-- ===== src/Table/Integrated.antt =====
-- What a table learns from the transmissions that `getTxReservations` has copied out of another.
use ldacs_mcsotdma.Prelude.{
  ◌≢◌, u32_mod, ◌-◌, ℕ, zero, suc, ◌≡◌, refl, sym, ap, ◌∙◌, inl, inr, Bool, true, false, ◌==◌, ◌&&◌,
  ltb, List, [], ◌∷◌, Option, none, some, arith, length, get_elem?, Bool-cases, if◌then◌else◌,
}
use ldacs_mcsotdma.Prelude.Result.{ok}
use ldacs_mcsotdma.Reservation.{MacId, MacIds, Reservation, is_any_tx, unreserved}
use ldacs_mcsotdma.Table.{Table, TableId, Heap, table}
use ldacs_mcsotdma.Table.Marked.{store_self, store_other}
use ldacs_mcsotdma.Table.Shift.{keep_tx, get_tx_reservations, overlay_tx, integrate_tx_reservations}

-- The slot of the table afterwards, from its own reservation and the one in the other table.
abbrev pub integrated : MacId → Reservation → Reservation → Reservation
integrated id own other = if (other.target == id) && is_any_tx other then other else own

abbrev pub integrated_at : MacId → Option Reservation → Option Reservation → Option Reservation
integrated_at id (some own) (some other) = some (integrated id own other)
integrated_at id own other = own

chosen :
    (test : Reservation → Bool) (r o kept : Reservation) (b : Bool)
    → test kept ≡ false
    → (if test (if b && test o then o else kept) then (if b && test o then o else kept) else r)
      ≡ (if b && test o then o else r)
chosen test r o kept false e = rw e refl
chosen test r o kept true e = elim (Bool-cases (test o)) [
  | inl t ↦ rw (t, t) refl
  | inr f ↦ rw (f, e) refl
]

none_there : (id : MacId) (x : Option Reservation) → x ≡ integrated_at id x none
none_there id none = refl
none_there id (some r) = refl

overlay-keep_tx :
    ⦃ids : MacIds⦄ (id : MacId) (rs os : List Reservation) (k : ℕ)
    → get_elem? (overlay_tx rs (keep_tx id os)) k
      ≡ integrated_at id (get_elem? rs k) (get_elem? os k)
unfolding overlay_tx keep_tx
overlay-keep_tx id [] [] k = refl
overlay-keep_tx id [] (o ∷ os) k = refl
overlay-keep_tx id (r ∷ rs) [] k = none_there id (get_elem? (r ∷ rs) k)
overlay-keep_tx id (r ∷ rs) (o ∷ os) zero =
    ap some (chosen is_any_tx r o unreserved (o.target == id) refl)
overlay-keep_tx id (r ∷ rs) (o ∷ os) (suc k) = overlay-keep_tx id rs os k

length-keep_tx :
    ⦃ids : MacIds⦄ (id : MacId) (rs : List Reservation) → length (keep_tx id rs) ≡ length rs
unfolding keep_tx
length-keep_tx id [] = refl
length-keep_tx id (r ∷ rs) = ap suc (length-keep_tx id rs)

ok-injective : (a b : Table) → ok a ≡ ok b → a ≡ b
ok-injective a b e = ground arith

-- What the copy is: the horizon and the transmissions to the user.
pub sent_fields :
    ⦃ids : MacIds⦄ (t sent : Table) (id : MacId)
    → get_tx_reservations t id ≡ ok sent
    → (sent.planning_horizon ≡ t.planning_horizon)
      × (sent.slot_utilization_vec ≡ keep_tx id t.slot_utilization_vec)
unfolding get_tx_reservations table
sent_fields t sent id e = elim (Bool-cases (t.planning_horizon == u32_mod - 1)) [
  | inl big ↦ cc (rw big at e)
  | inr fine ↦
      let same = ok-injective _ sent (rw fine at e) in
      (
        sym (ap (λ (x : Table). x.planning_horizon) same),
        sym (ap (λ (x : Table). x.slot_utilization_vec) same),
      )
]

equal : (a b : ℕ) → a ≡ b → (a == b) ≡ true
equal a b e = ground arith

not_short : (a b : ℕ) → a ≡ b → ltb a b ≡ false
not_short a b e = ground arith

-- Of two tables with the same horizon and as many slots, the first learns from the copy that
-- `getTxReservations` makes of the second: each slot in which the second sends to the user takes
-- that reservation over, no other slot and no other table changes, and nothing is thrown. The
-- counter of idle slots is left as it was, also where an idle slot has been taken.
pub integrate_sent :
    ⦃ids : MacIds⦄ (i : TableId) (t sent : Table) (id : MacId) (h : Heap)
    → get_tx_reservations t id ≡ ok sent
    → t.planning_horizon ≡ (h.tables i).planning_horizon
    → length t.slot_utilization_vec ≡ length (h.tables i).slot_utilization_vec
    → let new = (integrate_tx_reservations i sent h).1.tables i in
      ((integrate_tx_reservations i sent h).0 ≡ ok tt)
      × ((k : ℕ)
          → get_elem? new.slot_utilization_vec k
            ≡ integrated_at id
                (get_elem? (h.tables i).slot_utilization_vec k)
                (get_elem? t.slot_utilization_vec k))
      × (new.num_idle_future_slots ≡ (h.tables i).num_idle_future_slots)
      × ((j : TableId) → j ≢ i → (integrate_tx_reservations i sent h).1.tables j ≡ h.tables j)
unfolding integrate_tx_reservations
integrate_sent i t sent id h e same_horizon same_length =
    let (horizon, vec) = sent_fields t sent id e in
    let len : length sent.slot_utilization_vec ≡ length (h.tables i).slot_utilization_vec =
      ap length vec ∙ length-keep_tx id t.slot_utilization_vec ∙ same_length in
    rw
      (
        equal sent.planning_horizon (h.tables i).planning_horizon (horizon ∙ same_horizon),
        not_short _ _ len,
        vec,
      )
      (
        refl,
        (λ k.
            ap (λ (x : Table). get_elem? x.slot_utilization_vec k) (store_self i _ h)
            ∙ overlay-keep_tx id (h.tables i).slot_utilization_vec t.slot_utilization_vec k),
        ap (λ (x : Table). x.num_idle_future_slots) (store_self i _ h),
        λ j ne. store_other i j _ h ne,
      )
