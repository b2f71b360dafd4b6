-- ===== src/ThirdPartyLink/Countdown.antt =====
-- `onSlotStart` of several slots at once, against the same slots one after the other.
use ldacs_mcsotdma.Prelude.{
  ℕ, zero, suc, ◌+◌, ◌-◌, ◌≤◌, ◌≡◌, refl, sym, ap, ◌∙◌, ◌⊎◌, inl, inr, false, ◌&&◌, ℤ, pos, ◌-ℤ◌,
  leb_ℤ, ltb_ℤ, eqb_ℤ, int_laws, arith, if◌then◌else◌,
}
use ldacs_mcsotdma.Prelude.Result.{Result, ok, err, runtime_error}
use ldacs_mcsotdma.ReservationMap.{ReservationMap, on_slot_start}
use ldacs_mcsotdma.ThirdPartyLink.{
  ThirdPartyLink, unset_counter, decrement, elapse, counted_down, aged, normalized,
  on_link_slot_start,
}

-- A counter that is not set, or has at least `n` slots to go.
abbrev pub IsLive : ℕ → ℤ → Type 0
IsLive n c = (c ≡ unset_counter) ⊎ ((k : ℕ) × (c ≡ pos k) × (n ≤ k))

-- What it is `n` slots on.
abbrev pub left : ℕ → ℤ → ℤ
left n c = if eqb_ℤ c unset_counter then c else c -ℤ pos n

decrement_live : (n : ℕ) (c : ℤ) → IsLive n c → decrement n c ≡ ok (left n c)
decrement_live n c (inl e) = rw e
decrement_live n c (inr (k, e, le)) =
    rw e (ap (λ b. if b then err runtime_error else ok (pos k -ℤ pos n)) (not_past k n le))
  where
    not_past : (k n : ℕ) → n ≤ k → leb_ℤ (pos 0) (pos k) && ltb_ℤ (pos k) (pos n) ≡ false
    not_past k n le = ground arith

minus : (k n : ℕ) → n ≤ k → pos k -ℤ pos n ≡ pos (k - n)
minus k n le = omega int_laws

-- A live counter stays live for the rest, and loses both parts.
left_split :
    (a b : ℕ) (c : ℤ)
    → IsLive (a + b) c
    → IsLive a c × IsLive b (left a c) × (left b (left a c) ≡ left (a + b) c)
left_split a b c (inl e) = rw e (inl refl, inl refl, refl)
left_split a b c (inr (k, e, le)) =
    let one : left a c ≡ pos (k - a) = ap (left a) e ∙ minus k a (omega arith) in
    (
      inr (k, e, omega arith),
      inr (k - a, one, omega arith),
      ap (left b) one
          ∙ minus (k - a) b (omega arith)
          ∙ ap pos (omega arith)
          ∙ sym (ap (left (a + b)) e ∙ minus k (a + b) le),
    )

elapse_add : (a b : ℕ) (m : ReservationMap) → elapse b (elapse a m) ≡ elapse (a + b) m
unfolding elapse
elapse_add zero b m = let e : 0 + b ≡ b = omega arith in rw e
elapse_add (suc a) b m =
    let e : suc a + b ≡ suc (a + b) = omega arith in rw e (elapse_add a b (on_slot_start m))

-- A link both of whose counters are live.
abbrev pub IsLiveLink : ℕ → ThirdPartyLink → Type 0
IsLiveLink n link =
    IsLive n link.num_slots_until_expected_link_reply × IsLive n link.link_expiry_offset

-- The link `n` slots on.
abbrev pub advanced : ℕ → ThirdPartyLink → ThirdPartyLink
advanced n link = record (aged n link) {
  num_slots_until_expected_link_reply = left n link.num_slots_until_expected_link_reply;
  link_expiry_offset = left n link.link_expiry_offset;
  normalization_offset = normalized link.normalization_offset;
}

slot_start_live :
    (n : ℕ) (link : ThirdPartyLink)
    → IsLiveLink n link
    → on_link_slot_start n link ≡ (ok tt, advanced n link)
unfolding on_link_slot_start
slot_start_live n link (reply, expiry) =
    ap (λ (r : Result ℤ). counted_down n link r (decrement n link.link_expiry_offset))
      (decrement_live n link.num_slots_until_expected_link_reply reply)
    ∙ ap (counted_down n link (ok (left n link.num_slots_until_expected_link_reply)))
        (decrement_live n link.link_expiry_offset expiry)

-- While neither counter runs out, starting `a + b` slots at once throws nothing and gives the link
-- that starting `a` and then `b` slots gives, but for the normalization offset: that grows by one
-- for each call, however many slots the call is for.
pub slot_start_split :
    (a b : ℕ) (link : ThirdPartyLink)
    → IsLiveLink (a + b) link
    → let one = on_link_slot_start a link in
      let two = on_link_slot_start b one.1 in
      let whole = on_link_slot_start (a + b) link in
      (one.0 ≡ ok tt)
      × (two.0 ≡ ok tt)
      × (whole.0 ≡ ok tt)
      × (whole.1 ≡ record two.1 { normalization_offset = normalized link.normalization_offset })
      × (two.1.normalization_offset ≡ normalized (normalized link.normalization_offset))
slot_start_split a b link live =
    let (reply_a, reply_b, reply) =
      left_split a b link.num_slots_until_expected_link_reply live.0 in
    let (expiry_a, expiry_b, expiry) = left_split a b link.link_expiry_offset live.1 in
    rw
      (
        slot_start_live a link (reply_a, expiry_a),
        slot_start_live b (advanced a link) (reply_b, expiry_b),
        slot_start_live (a + b) link live,
      )
      (
        refl,
        refl,
        refl,
        rw (
          elapse_add a b link.locked_resources_for_initiator,
          elapse_add a b link.locked_resources_for_recipient,
          elapse_add a b link.scheduled_resources,
          reply,
          expiry,
        ),
        refl,
      )
