-- ===== src/BeaconPayload/Encoded.antt =====
-- A beacon tells of every transmission in the table, and of nothing else.
use ldacs_mcsotdma.Prelude.{
  ℕ, zero, suc, ◌+◌, ◌-◌, ◌≤◌, ◌<◌, ◌≡◌, ◌≢◌, refl, sym, ap, ◌∙◌, subst, ◌⊎◌, inl, inr, true, false,
  ◌||◌, List, [], ◌∷◌, ◌++◌, pos, leb, arith, All, All-mono, Bool-cases, dec_lt,
}
use mathlib.Core.List.{append-nil, append_assoc}
use ldacs_mcsotdma.Prelude.Result.{ok}
use ldacs_mcsotdma.Prelude.Maps.{find-put_self, find-put_ne}
use ldacs_mcsotdma.Reservation.{Reservation, is_beacon_tx, is_tx}
use ldacs_mcsotdma.Table.{Table, get_reservation}
use ldacs_mcsotdma.Table.Index.{IsWellFormed, get_reservation-valid}
use ldacs_mcsotdma.Table.Free.{Any}
use ldacs_mcsotdma.BeaconPayload.{
  SlotAction, Payload, local_reservations, push_back, encode_from, encode,
}

-- The slot holds a transmission with that action.
abbrev pub IsTransmission : Table → ℕ → SlotAction → Type 0
IsTransmission t z e =
    (r : Reservation) × (get_reservation t (pos z) ≡ ok r)
    × ((is_beacon_tx r || is_tx r) ≡ true)
    × (e.slot_offset ≡ z)
    × (e.action ≡ r.action)

-- From slot `first` to before `last`, all transmissions are among `new`, and nothing else is.
pub record AreTransmissions (t : Table) (first last : ℕ) (new : List SlotAction) : Type 0 where
  pub only : All (λ (e : SlotAction). (z : ℕ) × (first ≤ z) × (z < last) × IsTransmission t z e) new
  pub every :
      (z : ℕ)
      → first ≤ z
      → z < last
      → (r : Reservation) → get_reservation t (pos z) ≡ ok r
      → (is_beacon_tx r || is_tx r) ≡ true
      → Any (IsTransmission t z) new

-- The payload with the transmissions after those that it had on the channel; it is as it was on
-- all other channels.
pub record EncodeOutcome (t : Table) (f first last : ℕ) (p p' : Payload) : Type 0 where
  pub new : List SlotAction
  pub appended : local_reservations f p' ≡ local_reservations f p ++ new
  pub transmissions : AreTransmissions t first last new
  pub others : (g : ℕ) → f ≢ g → local_reservations g p' ≡ local_reservations g p

ok-injective : (a b : Reservation) → ok a ≡ ok b → a ≡ b
ok-injective a b e = ground arith

first_or_later : (z s : ℕ) → z ≤ s → (z ≡ s) ⊎ (z + 1 ≤ s)
first_or_later z s le = elim (dec_lt z s) [ yes lt ↦ inr (omega arith) | no ge ↦ inl (omega arith) ]

add_transmission :
    (t : Table) (z last : ℕ) (e : SlotAction) (new : List SlotAction)
    → z < last
    → IsTransmission t z e
    → AreTransmissions t (z + 1) last new
    → AreTransmissions t z last (e ∷ new)
add_transmission t z last e new lt sent a = record {
  only = (
    (z, omega arith, lt, sent),
    All-mono new (λ d (y, from, to, is). (y, omega arith, to, is)) a.only,
  );
  every = λ s from to r at tx. elim (first_or_later z s from) [
    | inl here ↦ inl (subst (λ y. IsTransmission t y e) here sent)
    | inr later ↦ inr (a.every s later to r at tx)
  ];
}

skip_slot :
    (t : Table) (z last : ℕ) (r : Reservation) (new : List SlotAction)
    → get_reservation t (pos z) ≡ ok r
    → (is_beacon_tx r || is_tx r) ≡ false
    → AreTransmissions t (z + 1) last new
    → AreTransmissions t z last new
skip_slot t z last r new at none' a = record {
  only = All-mono new (λ d (y, from, to, is). (y, omega arith, to, is)) a.only;
  every = λ s from to q at_s tx. elim (first_or_later z s from) [
    | inl here ↦
        absurd
          (not_both r q at none' (subst (λ y. get_reservation t (pos y) ≡ ok q) (sym here) at_s) tx)
    | inr later ↦ a.every s later to q at_s tx
  ];
}
  where
    not_both :
        (r q : Reservation)
        → get_reservation t (pos z) ≡ ok r
        → (is_beacon_tx r || is_tx r) ≡ false
        → get_reservation t (pos z) ≡ ok q
        → (is_beacon_tx q || is_tx q) ≡ true
        → ⊥
    not_both r q a f b g =
        let same = ok-injective r q (sym a ∙ b) in
        let clash : true ≡ false =
          sym g ∙ ap (λ (x : Reservation). is_beacon_tx x || is_tx x) (sym same) ∙ f in
        cc clash

pub push_back_self :
    (f : ℕ) (e : SlotAction) (p : Payload)
    → local_reservations f (push_back f e p) ≡ local_reservations f p ++ e ∷ []
push_back_self f e p = rw (find-put_self f (local_reservations f p ++ e ∷ []) p)

pub push_back_ne :
    (f g : ℕ) (e : SlotAction) (p : Payload)
    → f ≢ g
    → local_reservations g (push_back f e p) ≡ local_reservations g p
push_back_ne f g e p ne = rw (find-put_ne f g (local_reservations f p ++ e ∷ []) p ne)

slot_valid : (z last horizon : ℕ) → z < last → last ≤ horizon → leb z horizon ≡ true
slot_valid z last horizon lt le = ground arith

encode_from_lem :
    (t : Table) (f rounds z last : ℕ) (p : Payload)
    → IsWellFormed t
    → z + rounds ≡ last
    → last ≤ t.planning_horizon
    → (p' : Payload) × (encode_from t f rounds z p ≡ ok p') × EncodeOutcome t f z last p p'
unfolding encode_from
encode_from_lem t f zero z last p w e le = (
  p,
  refl,
  record {
    new = [];
    appended = sym (append-nil (local_reservations f p));
    transmissions = record { only = tt; every = λ s from to r at tx. absurd (omega arith) };
    others = λ g ne. refl;
  },
)
encode_from_lem t f (suc rounds) z last p w e le =
    let (r, at) =
      get_reservation-valid t (pos z) w (slot_valid z last t.planning_horizon (omega arith) le) in
    elim (Bool-cases (is_beacon_tx r || is_tx r)) [
      | inr none' ↦
          let (p', same, o) = encode_from_lem t f rounds (z + 1) last p w (omega arith) le in
          (
            p',
            rw at (rw none' same),
            record {
              new = o.new;
              appended = o.appended;
              transmissions = skip_slot t z last r o.new at none' o.transmissions;
              others = o.others;
            },
          )
      | inl sent ↦
          let d : SlotAction = record { slot_offset = z; action = r.action } in
          let (p', same, o) =
            encode_from_lem t f rounds (z + 1) last (push_back f d p) w (omega arith) le in
          (
            p',
            rw at (rw sent same),
            record {
              new = d ∷ o.new;
              appended =
                  o.appended
                  ∙ ap (λ xs. xs ++ o.new) (push_back_self f d p)
                  ∙ append_assoc (local_reservations f p) (d ∷ []) o.new;
              transmissions =
                  add_transmission t z last d o.new (omega arith) (r, at, sent, refl, refl)
                    o.transmissions;
              others = λ g ne. o.others g ne ∙ push_back_ne f g d p ne;
            },
          )
    ]

-- Encoding a well-formed table throws nothing. The payload has, after what it had on the channel,
-- all transmissions from the next slot to the one before the planning horizon, with their actions,
-- and no other slots; the other channels are as they were.
pub encode-transmissions :
    (f : ℕ) (t : Table) (p : Payload)
    → IsWellFormed t
    → 0 < t.planning_horizon
    → (p' : Payload) × (encode f t p ≡ ok p') × EncodeOutcome t f 1 t.planning_horizon p p'
unfolding encode
encode-transmissions f t p w positive =
    encode_from_lem t f (t.planning_horizon - 1) 1 t.planning_horizon p w (omega arith)
      (omega arith)
