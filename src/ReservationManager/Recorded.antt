-- ===== src/ReservationManager/Recorded.antt =====
-- The slots that the loops of `scheduleBursts` record, and their numbers.
use mathlib.Core.List.{append-nil, append_assoc}
use ldacs_mcsotdma.Prelude.{
  ℕ, ◌+◌, ◌<◌, ◌≡◌, refl, sym, ap, ◌∙◌, Bool, true, false, not, ◌||◌, ◌==◌, List, [], ◌∷◌, ◌++◌,
  map, ℤ, arith, length, if◌then◌else◌,
}
use ldacs_mcsotdma.Reservation.{Action, tx, rx}
use ldacs_mcsotdma.Table.{TableId}
use ldacs_mcsotdma.ReservationMap.{Resource}
use ldacs_mcsotdma.ReservationManager.Schedule.{Progress, recorded, nothing_yet}

-- The slots of a loop, recorded in order.
unfoldable pub record_all : TableId → Action → List ℤ → Progress → Progress
record_all i action [] p = p
record_all i action (z ∷ zs) p = record_all i action zs (recorded i action z p)

abbrev pub resource : TableId → ℤ → Resource
resource i z = record { table = i; slot_offset = z }

pub record_all-resources :
    (i : TableId) (action : Action) (zs : List ℤ) (p : Progress)
    → (record_all i action zs p).reservation_map.scheduled_resources
      ≡ p.reservation_map.scheduled_resources ++ map (resource i) zs
unfolding record_all
record_all-resources i action [] p = sym (append-nil p.reservation_map.scheduled_resources)
record_all-resources i action (z ∷ zs) p =
    record_all-resources i action zs (recorded i action z p)
    ∙ append_assoc p.reservation_map.scheduled_resources (resource i z ∷ []) (map (resource i) zs)

-- The count of the loop's own direction grows by the slots, the other stays.
pub record_all-tx :
    (i : TableId) (zs : List ℤ) (p : Progress)
    → ((record_all i tx zs p).num_tx_scheduled ≡ p.num_tx_scheduled + length zs)
      × ((record_all i tx zs p).num_rx_scheduled ≡ p.num_rx_scheduled)
unfolding record_all
record_all-tx i [] p = (omega arith, refl)
record_all-tx i (z ∷ zs) p =
    let (a, b) = record_all-tx i zs (recorded i tx z p) in (a ∙ omega arith, b)

pub record_all-rx :
    (i : TableId) (zs : List ℤ) (p : Progress)
    → ((record_all i rx zs p).num_tx_scheduled ≡ p.num_tx_scheduled)
      × ((record_all i rx zs p).num_rx_scheduled ≡ p.num_rx_scheduled + length zs)
unfolding record_all
record_all-rx i [] p = (refl, omega arith)
record_all-rx i (z ∷ zs) p =
    let (a, b) = record_all-rx i zs (recorded i rx z p) in (a, b ∙ omega arith)

both_positive : (a b : ℕ) → not ((a == 0) || (b == 0)) ≡ true → (0 < a) × (0 < b)
both_positive a b e = ground arith

pub counted :
    (i : TableId) (initiator : Bool) (firsts seconds : List ℤ) (p : Progress)
    → p
      ≡ record_all i
          (if initiator then rx else tx)
          seconds
          (record_all i (if initiator then tx else rx) firsts nothing_yet)
    → not ((p.num_tx_scheduled == 0) || (p.num_rx_scheduled == 0)) ≡ true
    → (0 < length firsts) × (0 < length seconds)
counted i true firsts seconds p same enough =
    let (t, r) = both_positive p.num_tx_scheduled p.num_rx_scheduled enough in
    let (a, b) = record_all-tx i firsts nothing_yet in
    let (c, d) = record_all-rx i seconds (record_all i tx firsts nothing_yet) in
    let num_tx : p.num_tx_scheduled ≡ length firsts =
      ap (λ (q : Progress). q.num_tx_scheduled) same ∙ c ∙ a ∙ omega arith in
    let num_rx : p.num_rx_scheduled ≡ length seconds =
      ap (λ (q : Progress). q.num_rx_scheduled) same
      ∙ d
      ∙ ap (λ n. n + length seconds) b
      ∙ omega arith in
    (omega arith, omega arith)
counted i false firsts seconds p same enough =
    let (t, r) = both_positive p.num_tx_scheduled p.num_rx_scheduled enough in
    let (a, b) = record_all-rx i firsts nothing_yet in
    let (c, d) = record_all-tx i seconds (record_all i rx firsts nothing_yet) in
    let num_tx : p.num_tx_scheduled ≡ length seconds =
      ap (λ (q : Progress). q.num_tx_scheduled) same
      ∙ c
      ∙ ap (λ n. n + length seconds) a
      ∙ omega arith in
    let num_rx : p.num_rx_scheduled ≡ length firsts =
      ap (λ (q : Progress). q.num_rx_scheduled) same ∙ d ∙ b ∙ omega arith in
    (omega arith, omega arith)
