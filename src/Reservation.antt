-- ===== src/Reservation.antt =====
-- Reservation.hpp and Reservation.cpp: what a time slot is used for, and by whom. `MacId` is a
-- class of the glue library: an identifier is known by the number that `getId` returns, and the
-- symbolic identifiers of that library are the parameter `MacIds`.
use ldacs_mcsotdma.Prelude.{ℕ, Bool, true, false, ◌&&◌, ◌||◌, ◌==◌}

abbrev pub MacId : Type 0
MacId = ℕ

-- SYMBOLIC_ID_UNSET, SYMBOLIC_LINK_ID_BROADCAST, SYMBOLIC_LINK_ID_BEACON and SYMBOLIC_LINK_ID_DME
pub record MacIds : Type 0 where
  pub unset : MacId
  pub broadcast : MacId
  pub beacon : MacId
  pub dme : MacId

pub data Action : Type 0 where
  idle busy rx rx_beacon tx tx_beacon locked : Action

-- The comparison of two values of the enumeration.
abbrev pub action_eq : Action → Action → Bool
action_eq idle idle = true
action_eq busy busy = true
action_eq rx rx = true
action_eq rx_beacon rx_beacon = true
action_eq tx tx = true
action_eq tx_beacon tx_beacon = true
action_eq locked locked = true
action_eq _ _ = false

pub record Reservation : Type 0 where
  pub target : MacId
  pub action : Action

abbrev pub reserve : MacId → Action → Reservation
reserve id a = record { target = id; action = a }

-- `Reservation::Reservation()`
abbrev pub unreserved : ⦃ids : MacIds⦄ → Reservation
unreserved ⦃ids⦄ = reserve ids.unset idle

abbrev pub res_eq : Reservation → Reservation → Bool
res_eq r other = action_eq other.action r.action && other.target == r.target

abbrev pub is_idle : Reservation → Bool
is_idle r = action_eq r.action idle

abbrev pub is_busy : Reservation → Bool
is_busy r = action_eq r.action busy

abbrev pub is_tx : Reservation → Bool
is_tx r = action_eq r.action tx

abbrev pub is_beacon_tx : Reservation → Bool
is_beacon_tx r = action_eq r.action tx_beacon

abbrev pub is_any_tx : Reservation → Bool
is_any_tx r = is_tx r || is_beacon_tx r

abbrev pub is_rx : Reservation → Bool
is_rx r = action_eq r.action rx

abbrev pub is_beacon_rx : Reservation → Bool
is_beacon_rx r = action_eq r.action rx_beacon

abbrev pub is_any_rx : Reservation → Bool
is_any_rx r = is_rx r || is_beacon_rx r

abbrev pub is_beacon : Reservation → Bool
is_beacon r = is_beacon_rx r || is_beacon_tx r

abbrev pub is_locked : Reservation → Bool
is_locked r = action_eq r.action locked
