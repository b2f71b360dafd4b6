-- ===== src/PpLinkManager/Utilization.antt =====
-- PPLinkManager.cpp: what a link reports of itself.
use ldacs_mcsotdma.Prelude.{ℕ, ◌*◌, ◌^◌, none, some, ℤ, pos, ltb_ℤ, if◌then◌else◌}
use ldacs_mcsotdma.Prelude.Result.{
  Result, ok, err, Error, runtime_error, is_exception, is_runtime_error,
}
use ldacs_mcsotdma.Prelude.Result
use ldacs_mcsotdma.Table.{Heap}
use ldacs_mcsotdma.MovingAverage.{Quotient}
use ldacs_mcsotdma.PpLinkManager.{PpLinkManager, is_active, get_next_tx_slot}

-- `getNumTxPerTimeSlot`: the quotient that the source computes in `double`.
abbrev pub get_num_tx_per_time_slot : PpLinkManager → Result Quotient
get_num_tx_per_time_slot link =
    if is_active link
    then ok (record { numerator = 1; denominator = 10 * 2 ^ link.period })
    else err runtime_error

-- `LinkUtilizationMessage`, but for the duration of a slot, which is never set.
pub record LinkUtilization : Type 0 where
  pub center_frequency : ℕ
  pub num_bursts_forward : ℕ
  pub num_bursts_reverse : ℕ
  pub period : ℕ
  pub slot_offset : ℤ
  pub timeout : ℤ

abbrev pub utilized_slot : Heap → PpLinkManager → Result ℤ
utilized_slot h link = if ltb_ℤ (pos 1) link.timeout then get_next_tx_slot h link else ok (pos 0)

-- `getUtilization`, by the message as it is made. The assertion that the link has a channel fails
-- as a null pointer.
unfoldable pub get_utilization : LinkUtilization → Heap → PpLinkManager → Result LinkUtilization
unfolding get_next_tx_slot
get_utilization message h link =
    if is_active link
    then (elim link.channel [
      | none ↦ err Error.null_pointer
      | some c ↦ Result.◌>>=◌ (utilized_slot h link) λ z. ok (record {
        center_frequency = (h.channels c).center_frequency;
        num_bursts_forward = link.num_initiator_tx;
        num_bursts_reverse = link.num_recipient_tx;
        period = link.period;
        slot_offset = z;
        timeout = link.timeout;
      })
    ])
    else ok message

-- `setMaxNoPPLinkEstablishmentAttempts`
abbrev pub set_max_no_pp_link_establishment_attempts : ℕ → PpLinkManager → PpLinkManager
set_max_no_pp_link_establishment_attempts value link = record link {
  max_establishment_attempts = value;
}
