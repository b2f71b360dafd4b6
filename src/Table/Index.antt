-- ===== src/Table/Index.antt =====
-- Offsets and vector positions: on a well-formed table every valid offset has its own slot.
use ldacs_mcsotdma.Prelude.{
  ◌+◌, ◌*◌, ◌<◌, ◌≡◌, ◌≢◌, ap, ◌∙◌, true, ℤ, pos, negsuc, pos_part, neg_part, arith, length,
  get_elem?-lt, length-set, get_elem?-set_self, get_elem?-set_ne, eq_of_parts,
}
use ldacs_mcsotdma.Prelude.Result.{ok}
use ldacs_mcsotdma.Reservation.{Reservation}
use ldacs_mcsotdma.Table.{Table, is_valid, convert_offset_to_index, found, get_reservation}
use ldacs_mcsotdma.Table.State.{put_slot}

-- The vector has a slot for each offset up to the horizon, both ways; the bound keeps `int32_t`
-- offsets and the `uint32_t` size from wrapping.
pub record IsWellFormed (t : Table) : Type 0 where
  pub short : t.planning_horizon < 2147483648
  pub sized : length t.slot_utilization_vec ≡ 2 * t.planning_horizon + 1

pub convert_lem :
    (t : Table) (offset : ℤ)
    → t.planning_horizon < 2147483648
    → is_valid t offset ≡ true
    → convert_offset_to_index t offset + neg_part offset ≡ t.planning_horizon + pos_part offset
convert_lem t (pos n) b v = ground arith
convert_lem t (negsuc n) b v = ground arith

pub convert-lt :
    (t : Table) (offset : ℤ)
    → IsWellFormed t
    → is_valid t offset ≡ true
    → convert_offset_to_index t offset < length t.slot_utilization_vec
convert-lt t (pos n) w v = ground (arith, convert_lem t (pos n) w.short v)
convert-lt t (negsuc n) w v = ground (arith, convert_lem t (negsuc n) w.short v)

pub convert-injective :
    (t : Table) (a b : ℤ)
    → t.planning_horizon < 2147483648
    → is_valid t a ≡ true
    → is_valid t b ≡ true
    → convert_offset_to_index t a ≡ convert_offset_to_index t b
    → a ≡ b
convert-injective t a b w va vb e =
    eq_of_parts a b (omega (arith, convert_lem t a w va, convert_lem t b w vb))

-- A valid offset is read without an exception.
pub get_reservation-valid :
    (t : Table) (offset : ℤ)
    → IsWellFormed t
    → is_valid t offset ≡ true
    → (r : Reservation) × (get_reservation t offset ≡ ok r)
get_reservation-valid t offset w v =
    let (r, e) = get_elem?-lt t.slot_utilization_vec _ (convert-lt t offset w v) in (r, ap found e)

pub put_slot-IsWellFormed :
    (t : Table) (offset : ℤ) (r : Reservation) → IsWellFormed t → IsWellFormed (put_slot offset r t)
put_slot-IsWellFormed t offset r w = record {
  short = w.short;
  sized = length-set t.slot_utilization_vec (convert_offset_to_index t offset) r ∙ w.sized;
}

pub get_reservation-put_slot_self :
    (t : Table) (offset : ℤ) (r : Reservation)
    → IsWellFormed t
    → is_valid t offset ≡ true
    → get_reservation (put_slot offset r t) offset ≡ ok r
get_reservation-put_slot_self t offset r w v =
    ap found (get_elem?-set_self t.slot_utilization_vec _ r (convert-lt t offset w v))

pub get_reservation-put_slot_ne :
    (t : Table) (a b : ℤ) (r : Reservation)
    → IsWellFormed t
    → is_valid t a ≡ true
    → is_valid t b ≡ true
    → a ≢ b
    → get_reservation (put_slot a r t) b ≡ get_reservation t b
get_reservation-put_slot_ne t a b r w va vb ne =
    ap found (
      get_elem?-set_ne t.slot_utilization_vec r (λ e. ne (convert-injective t a b w.short va vb e)))
