-- ===== src/ShLinkManager/Selected.antt =====
-- What `broadcastSlotSelection` returns: a slot in which a broadcast can be sent.
use ldacs_mcsotdma.Prelude.{
  ℕ, ◌<◌, ◌≡◌, refl, sym, ap, subst, ◌∙◌, inl, inr, Bool, true, false, length, not, List, [], ◌∷◌,
  some, none, ℤ, pos, to_u32, to_i32, arith, All, if◌then◌else◌,
}
use ldacs_mcsotdma.Prelude.Result.{
  Result, ok, err, Error, Result-cases, is_exception, runtime_error,
}
use ldacs_mcsotdma.Prelude.Calls.{proceed, put_back, handled, throws, asks, returns, requires}
use ldacs_mcsotdma.Reservation.{MacIds}
use ldacs_mcsotdma.Table.{TableId}
use ldacs_mcsotdma.Table.Index.{IsWellFormed}
use ldacs_mcsotdma.Table.Find.{candidates, find_earliest_idle_slots_bc, find_sh_candidates}
use ldacs_mcsotdma.DutyCycle.{Numbers, at}
use ldacs_mcsotdma.ShLinkManager.{Station, Sh, Mac, get_num_candidate_slots}
use ldacs_mcsotdma.ShLinkManager.Broadcast.{
  pick, is_none, set_table, select_from, select_among, select_in, broadcast_slot_selection,
}
use ldacs_mcsotdma.ShLinkManager.Candidates.{
  IsSendable, IsCandidate, ok-injective, small, candidates-AllCandidates, at_all,
}

module _ ⦃numbers : Numbers⦄ ⦃ids : MacIds⦄ {S : Type 0} (mac : Mac S) where
  -- Nothing but the rest of the program has changed, and a slot that is returned is sendable.
  pub record IsSelected (i : TableId) (s : Station S) (o : Result ℕ × Station S) : Type 0 where
    pub heap : o.1.heap ≡ s.heap
    pub manager : o.1.manager ≡ s.manager
    pub slot : (n : ℕ) → o.0 ≡ ok n → IsSendable s.heap i n

  refused :
      (i : TableId) (s t : Station S) (e : Error)
      → t.heap ≡ s.heap
      → t.manager ≡ s.manager
      → IsSelected i s (err e, t)
  refused i s t e h m = record { heap = h; manager = m; slot = λ n f. cc f }

  thrown :
      (i : TableId) (s t : Station S) (e : Error) (b : Bool)
      → t.heap ≡ s.heap
      → t.manager ≡ s.manager
      → IsSelected i s (
          proceed {A = ℤ}
            (λ z. returns (to_u32 z))
            (if b then throws runtime_error t else (err e, t)))
  thrown i s t e true h m = refused i s t runtime_error h m
  thrown i s t e false h m = refused i s t e h m

  abbrev picked : List ℤ → Station S → Result ℕ × S → Result ℕ × Station S
  picked slots s o =
      proceed {A = ℤ} (λ z. returns (to_u32 z))
        (handled is_exception (throws runtime_error)
          (proceed (λ k. asks (λ t. at slots k)) (put_back (λ r. record s { rest = r }) o)))

  picked-IsSelected :
      (i : TableId) (slots : List ℤ) (s : Station S) (o : Result ℕ × S)
      → IsWellFormed (s.heap.tables i)
      → All (IsCandidate s.heap i) slots
      → IsSelected i s (picked slots s o)
  picked-IsSelected i slots s (err e, r) w all =
      thrown i s (record s { rest = r }) e (is_exception e) refl refl
  picked-IsSelected i slots s (ok k, r) w all = elim (Result-cases (at slots k)) [
    | inr (e, bad) ↦ rw bad (thrown i s (record s { rest = r }) e (is_exception e) refl refl)
    | inl (z, hit) ↦
        let (n, at_n, send) = at_all (IsCandidate s.heap i) slots k z all hit in
        rw (hit, at_n)
          (record {
            heap = refl;
            manager = refl;
            slot = λ m e.
                subst (IsSendable s.heap i)
                  (sym (small n (omega (arith, send.0, w.short))) ∙ ok-injective _ _ e) send;
          })
  ]

  asked :
      {A : Type 0} (i : TableId) (s : Station S) (r : Result A) (k : A → Sh S ℕ)
      → ((a : A) → r ≡ ok a → IsSelected i s (k a s))
      → IsSelected i s (proceed k (r, s))
  asked i s (ok a) k next = next a refl
  asked i s (err e) k next = refused i s s e refl refl

  -- An empty list is refused.
  nonempty :
      (i : TableId) (slots : List ℤ) (s : Station S)
      → IsSelected i s (pick mac slots s)
      → IsSelected i s (
          proceed {A = Unit {0}}
            (λ _. pick mac slots)
            (requires (not (is_none mac slots)) runtime_error s))
  nonempty i [] s k = refused i s s runtime_error refl refl
  nonempty i (z ∷ zs) s k = k

  set_is :
      (s : Station S) (i j : TableId)
      → s.manager.base.current_reservation_table ≡ some i
      → set_table mac s ≡ ok j
      → j ≡ i
  set_is s i j table e = ok-injective j i (
      sym e
      ∙ ap (λ o. elim o as (λ _. Result TableId) [ none ↦ err runtime_error | some k ↦ ok k ])
          table)

  pub start : (m : ℕ) → m < 2147483648 → to_i32 m ≡ pos m
  start m b = ground arith

  pub selection-IsSelected :
      (i : TableId) (m : ℕ) (s : Station S)
      → s.manager.base.current_reservation_table ≡ some i
      → IsWellFormed (s.heap.tables i)
      → m < 2147483648
      → IsSelected i s (broadcast_slot_selection mac m s)
  unfolding broadcast_slot_selection find_sh_candidates
  selection-IsSelected i m s table w b = asked i s (set_table mac s) (select_in mac m) λ j at_j.
      let same : j ≡ i = set_is s i j table at_j in
      asked i s (get_num_candidate_slots s.manager s.observer) (select_among mac j m) λ num fine.
        asked i s (find_sh_candidates s.heap j num (to_i32 m)) (select_from mac) λ slots hit.
          nonempty i slots s (
            picked-IsSelected i slots s (mac.random_int (length slots) s.rest) w (
              candidates-AllCandidates s.heap i num m [] slots w b tt (
                subst
                  (λ x.
                    candidates (λ t. find_earliest_idle_slots_bc s.heap i (to_u32 t)) num x []
                    ≡ ok slots)
                  (start m b)
                  (subst (λ k. find_sh_candidates s.heap k num (to_i32 m) ≡ ok slots) same hit))))
