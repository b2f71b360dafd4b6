-- ===== src/McsotdmaMac/Executed.antt =====
-- MCSOTDMA_Mac.cpp: how many transmissions and receptions `execute` lets a time slot have.
use ldacs_mcsotdma.Prelude.{
  subst, ℕ, ◌+◌, ◌≡◌, refl, sym, ap, ◌∙◌, inl, inr, Bool, true, false, ◌&&◌, ◌||◌, leb, List, [],
  ◌∷◌, arith, Bool-cases, if◌then◌else◌,
}
use ldacs_mcsotdma.Prelude.Result.{Result, ok, err, runtime_error}
use ldacs_mcsotdma.Prelude.Calls.{Call, proceed, requires, returns, ◌>>=◌, ◌>>◌}
use ldacs_mcsotdma.Prelude.Outcomes.{proceed_err}
use ldacs_mcsotdma.Reservation.{
  MacId, MacIds, Action, Reservation, reserve, idle, busy, rx, rx_beacon, tx, tx_beacon, locked,
  is_any_rx, is_any_tx, is_beacon_tx,
}
use ldacs_mcsotdma.Channel.{FrequencyChannel, is_sh}
use ldacs_mcsotdma.DutyCycle.{Numbers}
use ldacs_mcsotdma.McsotdmaMac.Slot.{
  Current, Node, Counts, count_rx, send_if_any, send_beacon, receive_beacon, execute_one,
  execute_all, execute, for_each,
}

abbrev weight : Bool → ℕ
weight b = if b then 1 else 0

abbrev bump : Bool → ℕ → ℕ
bump b n = if b then n + 1 else n

bump_add : (b : Bool) (m n : ℕ) → bump b m + n ≡ m + (weight b + n)
bump_add true m n = omega arith
bump_add false m n = omega arith

add_zero : (n : ℕ) → n ≡ n + 0
add_zero n = omega arith

zero_add : (n : ℕ) → 0 + n ≡ n
zero_add n = omega arith

none_within : (t r : ℕ) → (leb 0 t && leb 0 r) ≡ true
none_within t r = ground arith

both_hold : (b c : Bool) → (b && c) ≡ true → (b ≡ true) × (c ≡ true)
both_hold true c e = (refl, e)
both_hold false c e = cc e

stays_exceeded :
    (a b m n t r : ℕ) → (leb a t && leb b r) ≡ false → (leb (a + m) t && leb (b + n) r) ≡ false
stays_exceeded a b m n t r e = ground arith

both_true : (b c : Bool) → c ≡ true → b ≡ (b && c)
both_true true c e = sym e
both_true false c e = refl

module _ ⦃numbers : Numbers⦄ ⦃ids : MacIds⦄ where
  -- A reception takes place in a reservation to receive, and where a beacon is sent.
  abbrev receives_in : Reservation → Bool
  receives_in r = is_any_rx r || is_beacon_tx r

  -- The transmissions among reservations.
  unfoldable pub num_sent : List Current → ℕ
  num_sent [] = 0
  num_sent ((r, channel) ∷ rs) = weight (is_any_tx r) + num_sent rs

  unfoldable pub num_received : List Current → ℕ
  num_received [] = 0
  num_received ((r, channel) ∷ rs) = weight (receives_in r) + num_received rs

  module _ {S : Type 0} (node : Node S) where
    -- The calls that are made for a reservation, without the numbers.
    abbrev pub call_for : Current → Call S (Unit {0})
    call_for (r, channel) = elim r.action [
      | idle ↦ returns tt
      | busy ↦ returns tt
      | locked ↦ returns tt
      | rx ↦ node.on_reception_reservation (if is_sh channel then ids.broadcast else r.target)
      | tx ↦ node.on_transmission_reservation r.target >>= send_if_any node channel.center_frequency
      | tx_beacon ↦
          node.on_transmission_reservation ids.broadcast
          >>= send_beacon node channel.center_frequency
          >> node.on_reception_reservation ids.broadcast
      | rx_beacon ↦ node.on_reception_reservation ids.broadcast
    ]

    -- Those of a slot, and the report that ends it.
    abbrev pub calls_of_slot : List Current → Call S (Unit {0})
    calls_of_slot rs = for_each node call_for rs >> node.report_num_transmissions (num_sent rs)

    abbrev pub is_within : ℕ → ℕ → Bool
    is_within txs rxs = leb txs node.num_transmitters && leb rxs node.num_receivers

    abbrev counts : ℕ → ℕ → Counts node
    counts txs rxs = record { num_txs = txs; num_rxs = rxs }

    -- The numbers, in the state that the calls leave, if they are within those of the hardware; a
    -- runtime_error otherwise.
    pub record CountsSlot (txs rxs : ℕ) (t : S) (o : Result (Counts node) × S) : Type 0 where
      pub within : is_within txs rxs ≡ true → o ≡ (ok (record { num_txs = txs; num_rxs = rxs }), t)
      pub exceeds : is_within txs rxs ≡ false → o.0 ≡ err runtime_error

    tested :
        (b : Bool) (txs rxs : ℕ) (t : S) (o : Result (Counts node) × S)
        → b ≡ is_within txs rxs
        → (b ≡ true → o ≡ (ok (counts txs rxs), t))
        → (b ≡ false → o.0 ≡ err runtime_error)
        → CountsSlot txs rxs t o
    tested b txs rxs t o same yes' no' = record {
      within = λ e. yes' (same ∙ e);
      exceeds = λ e. no' (same ∙ e);
    }

    -- A call after a test.
    guarded_call :
        (b : Bool) (c : Counts node) (k : Counts node → Call S (Counts node)) (s : S)
        → (b ≡ true → ((requires b runtime_error >> returns c) >>= k) s ≡ k c s)
          × (b ≡ false → ((requires b runtime_error >> returns c) >>= k) s ≡ (err runtime_error, s))
    guarded_call true c k s = (λ e. refl, λ e. cc e)
    guarded_call false c k s = (λ e. cc e, λ e. refl)

    then_returns :
        (m : Call S (Unit {0})) (c : Counts node) (s t : S)
        → m s ≡ (ok tt, t)
        → (m >> returns c) s ≡ (ok c, t)
    then_returns m c s t e = ap (proceed {A = Unit {0}} (λ _. returns c)) e

    abbrev Passed : {A : Type 0} → (A → Call S (Unit {0})) → Result A × S → S → Type 0
    Passed {A} f x t = (a : A) × (u : S) × (x ≡ (ok a, u)) × (f a u ≡ (ok tt, t))

    -- What a call that returns is made of.
    both_return :
        {A : Type 0} (f : A → Call S (Unit {0})) (x : Result A × S) (t : S)
        → proceed f x ≡ (ok tt, t)
        → Passed f x t
    both_return f (ok a, u) t e = (a, u, refl, e)
    both_return f (err x, u) t e = cc (ap (λ (o : Result (Unit {0}) × S). o.0) e)

    received :
        (id : MacId) (txs rxs : ℕ) (s t : S)
        → leb txs node.num_transmitters ≡ true
        → node.on_reception_reservation id s ≡ (ok tt, t)
        → CountsSlot txs (rxs + 1) t (
            (count_rx node (counts txs rxs) >>= λ c. node.on_reception_reservation id >> returns c)
              s)
    received id txs rxs s t fits e =
        let k : Counts node → Call S (Counts node) =
          λ c. node.on_reception_reservation id >> returns c in
        let g = guarded_call (leb (rxs + 1) node.num_receivers) (counts txs (rxs + 1)) k s in
        tested (leb (rxs + 1) node.num_receivers) txs (rxs + 1) t _
          (sym (ap (λ b. b && leb (rxs + 1) node.num_receivers) fits))
          (λ b. g.0 b ∙ then_returns (node.on_reception_reservation id) _ s t e)
          (λ b. ap (λ (o : Result (Counts node) × S). o.0) (g.1 b))

    quiet :
        (txs rxs : ℕ) (s t : S)
        → is_within txs rxs ≡ true
        → returns {A = Unit {0}} tt s ≡ (ok tt, t)
        → CountsSlot txs rxs t (returns (counts txs rxs) s)
    quiet txs rxs s t w e = record {
      within = λ _. ap (λ (o : Result (Unit {0}) × S). (ok (counts txs rxs), o.1)) e;
      exceeds = λ f. cc (w, f);
    }

    execute_one-CountsSlot :
        (g : MacId) (a : Action) (channel : FrequencyChannel) (txs rxs : ℕ) (s t : S)
        → leb txs node.num_transmitters ≡ true
        → leb rxs node.num_receivers ≡ true
        → call_for (reserve g a, channel) s ≡ (ok tt, t)
        → CountsSlot
            (bump (is_any_tx (reserve g a)) txs)
            (bump (receives_in (reserve g a)) rxs)
            t
            (execute_one node (reserve g a, channel) (counts txs rxs) s)
    unfolding execute_one
    execute_one-CountsSlot g idle channel txs rxs s t le_t le_r e =
        quiet txs rxs s t (rw (le_t, le_r) refl) e
    execute_one-CountsSlot g busy channel txs rxs s t le_t le_r e =
        quiet txs rxs s t (rw (le_t, le_r) refl) e
    execute_one-CountsSlot g locked channel txs rxs s t le_t le_r e =
        quiet txs rxs s t (rw (le_t, le_r) refl) e
    execute_one-CountsSlot g rx channel txs rxs s t le_t le_r e = received _ txs rxs s t le_t e
    execute_one-CountsSlot g rx_beacon channel txs rxs s t le_t le_r e =
        received ids.broadcast txs rxs s t le_t e
    execute_one-CountsSlot g tx channel txs rxs s t le_t le_r e =
        let f = channel.center_frequency in
        let k : Counts node → Call S (Counts node) = λ c.
          node.on_transmission_reservation g >>= λ packet. send_if_any node f packet >> returns c in
        let c = counts (txs + 1) rxs in
        let (packet, u, sent, passed) =
          both_return (send_if_any node f) (node.on_transmission_reservation g s) t e in
        let test = guarded_call (leb (txs + 1) node.num_transmitters) c k s in
        tested (leb (txs + 1) node.num_transmitters) (txs + 1) rxs t _ (both_true _ _ le_r)
          (λ b.
            test.0 b
            ∙ ap (proceed (λ packet. send_if_any node f packet >> returns c)) sent
            ∙ then_returns (send_if_any node f packet) c u t passed)
          (λ b. ap (λ (o : Result (Counts node) × S). o.0) (test.1 b))
    execute_one-CountsSlot g tx_beacon channel txs rxs s t le_t le_r e =
        let f = channel.center_frequency in
        let c = counts (txs + 1) rxs in
        let k : Counts node → Call S (Counts node) = λ c'.
          node.on_transmission_reservation ids.broadcast >>= λ packet.
          send_beacon node f packet >> receive_beacon node c' in
        let (_, v, sent_all, heard) =
          both_return (λ (_ : Unit {0}). node.on_reception_reservation ids.broadcast)
            ((node.on_transmission_reservation ids.broadcast >>= send_beacon node f) s) t e in
        let (packet, u, sent, passed) =
          both_return (send_beacon node f) (node.on_transmission_reservation ids.broadcast s) v
            sent_all in
        let test = guarded_call (leb (txs + 1) node.num_transmitters) c k s in
        elim (Bool-cases (leb (txs + 1) node.num_transmitters)) [
          | inl fits ↦
              subst (CountsSlot (txs + 1) (rxs + 1) t)
                (sym (
                  test.0 fits
                  ∙ ap (proceed (λ packet. send_beacon node f packet >> receive_beacon node c)) sent
                  ∙ ap (proceed {A = Unit {0}} (λ _. receive_beacon node c)) passed))
                (received ids.broadcast (txs + 1) rxs v t fits heard)
          | inr full ↦ record {
            within = λ w. cc (
              full,
              (both_hold (leb (txs + 1) node.num_transmitters) (leb (rxs + 1) node.num_receivers)
                  w).0,
            );
            exceeds = λ _. ap (λ (o : Result (Counts node) × S). o.0) (test.1 full);
          }
        ]

    recount :
        (txs txs' rxs rxs' : ℕ) (t : S) (o : Result (Counts node) × S)
        → txs ≡ txs'
        → rxs ≡ rxs'
        → CountsSlot txs rxs t o
        → CountsSlot txs' rxs' t o
    recount txs txs' rxs rxs' t o e f k =
        subst (λ n. CountsSlot txs' n t o) f (subst (λ m. CountsSlot m rxs t o) e k)

    execute_all-CountsSlot :
        (rs : List Current) (txs rxs : ℕ) (s t : S)
        → is_within txs rxs ≡ true
        → for_each node call_for rs s ≡ (ok tt, t)
        → CountsSlot
            (txs + num_sent rs)
            (rxs + num_received rs)
            t
            (execute_all node rs (counts txs rxs) s)
    unfolding execute_all num_sent num_received for_each
    execute_all-CountsSlot [] txs rxs s t w e =
        recount txs (txs + 0) rxs (rxs + 0) t _ (add_zero txs) (add_zero rxs)
          (quiet txs rxs s t w e)
    execute_all-CountsSlot ((r, channel) ∷ rs) txs rxs s t w e =
        let txs' = bump (is_any_tx r) txs in
        let rxs' = bump (receives_in r) rxs in
        let both = both_hold _ _ w in
        let (_, u, one, rest) =
          both_return (λ (_ : Unit {0}). for_each node call_for rs) (call_for (r, channel) s) t e in
        let here = execute_one-CountsSlot r.target r.action channel txs rxs s u both.0 both.1 one in
        recount (txs' + num_sent rs) _ (rxs' + num_received rs) _ t _
          (bump_add (is_any_tx r) txs (num_sent rs))
          (bump_add (receives_in r) rxs (num_received rs))
          (elim (Bool-cases (is_within txs' rxs')) [
            | inl fits ↦
                subst (CountsSlot (txs' + num_sent rs) (rxs' + num_received rs) t)
                  (sym (ap (proceed (execute_all node rs)) (here.within fits)))
                  (execute_all-CountsSlot rs txs' rxs' u t fits rest)
            | inr over ↦ record {
              within = λ f. cc (
                f,
                stays_exceeded txs' rxs' (num_sent rs) (num_received rs) node.num_transmitters
                    node.num_receivers over,
              );
              exceeds = λ _. proceed_err (execute_all node rs) _ runtime_error (here.exceeds over);
            }
          ])

    -- Where the calls for the reservations of the slot, made one after the other, and the report
    -- return: `execute` makes them and returns the numbers of transmissions and receptions, if there
    -- are not more of either than there are transmitters and receivers; otherwise it throws a
    -- runtime_error. A beacon that is sent counts as both.
    pub execute-counted :
        (s t : S) (rs : List Current)
        → node.reservations s ≡ ok rs
        → calls_of_slot rs s ≡ (ok tt, t)
        → CountsSlot (num_sent rs) (num_received rs) t (execute node s)
    unfolding execute
    execute-counted s t rs e calls =
        let txs = num_sent rs in
        let rxs = num_received rs in
        let report : Counts node → Call S (Counts node) =
          λ c. node.report_num_transmissions c.num_txs >> returns c in
        let (_, u, made, reported) =
          both_return (λ (_ : Unit {0}). node.report_num_transmissions txs)
            (for_each node call_for rs s) t calls in
        let all = recount _ txs _ rxs u _ (zero_add txs) (zero_add rxs) (
          execute_all-CountsSlot rs 0 0 s u (none_within node.num_transmitters node.num_receivers)
            made) in
        subst (CountsSlot txs rxs t)
          (sym (
            ap
              (λ q.
                proceed {A = List Current} (λ rs'. execute_all node rs' (counts 0 0) >>= report)
                  (q, s))
              e))
          (record {
            within = λ w.
                ap (proceed report) (all.within w)
                ∙ then_returns (node.report_num_transmissions txs) (counts txs rxs) u t reported;
            exceeds = λ x. proceed_err report _ runtime_error (all.exceeds x);
          })
