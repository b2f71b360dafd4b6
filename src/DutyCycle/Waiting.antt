-- ===== src/DutyCycle/Waiting.antt =====
-- Which links the loop of the dynamic strategy waits for.
use ldacs_mcsotdma.Prelude.{
  ℕ, zero, suc, ◌<◌, ◌≤◌, ◌≡◌, refl, sym, ap, subst, ◌∙◌, ◌⊎◌, inl, inr, Bool, true, false, not,
  List, [], ◌∷◌, length, length-append, Option, none, some, ℤ, pos, ◌+ℤ◌, ◌≤ℤ◌, leb_ℤ, arith, All,
  Bool-cases, if◌then◌else◌,
}
use ldacs_mcsotdma.Prelude.Result.{Result, ok, err, ◌>>=◌, no_duty_cycle_budget_left}
use ldacs_mcsotdma.DutyCycle.{
  Numbers, Double, DutyCycle, Release, min_from, at, erase_at, release_next, release_until,
  is_sufficient, all_releases, budget_left, offset_and_period, get_periodicity_pp_dynamic,
}
use ldacs_mcsotdma.DutyCycle.Least.{min_from-IsLeast, min_from-at, length-erase_at, at_found}

module _ ⦃numbers : Numbers⦄ where
  -- What is waited for: while the budget does not suffice, a link of which the timeout is the least
  -- of those that are left. Its budget is added, and it is no longer waited for; the offset is the
  -- slot after its timeout.
  pub data Waits : Release → Release → Type 0 where
    stop : {r : Release} → Waits r r
    wait :
        {r last : Release} (i : ℕ) (t : ℤ) (b : Double)
        → is_sufficient r.avail_budget ≡ false
        → at r.timeouts i ≡ ok t
        → All (λ u. t ≤ℤ u) r.timeouts
        → at r.budgets i ≡ ok b
        → Waits
            (record {
              avail_budget = numbers.add r.avail_budget b;
              min_offset = some (t +ℤ pos 1);
              timeouts = erase_at i r.timeouts;
              budgets = erase_at i r.budgets;
            })
            last
        → Waits r last

  abbrev state : Double → Option ℤ → List ℤ → List Double → Release
  state b m ts bs = record { avail_budget = b; min_offset = m; timeouts = ts; budgets = bs }

  -- The loop ends as soon as the budget suffices, or nothing is left to wait for.
  abbrev IsOver : Release → Type 0
  IsOver r = (is_sufficient r.avail_budget ≡ true) ⊎ (r.timeouts ≡ [])

  released :
      (rounds : ℕ) (b : Double) (m : Option ℤ) (ts : List ℤ) (bs : List Double)
      → length ts ≡ rounds
      → length ts ≤ length bs
      → (r' : Release) × (release_until rounds (state b m ts bs) ≡ ok r')
        × (Waits (state b m ts bs) r' × IsOver r')
  unfolding release_until release_next
  released zero b m [] bs e enough = (state b m [] bs, refl, (stop, inr refl))
  released zero b m (t ∷ ts) bs e enough = absurd (omega (arith, e))
  released (suc rounds) b m [] bs e enough = absurd (omega (arith, e))
  released (suc rounds) b m (t ∷ ts) bs e enough =
      elim (Bool-cases (numbers.is_less b numbers.hundredth)) [
        | inr fine ↦ rw fine (state b m (t ∷ ts) bs, refl, (stop, inl (ap not fine)))
        | inl less ↦
            let (j, least) = min_from 1 0 t ts in
            let l = min_from-IsLeast 1 0 t ts in
            let bound : j < suc (length ts) = omega (arith, l.bound (omega arith)) in
            let (x, found) = at_found j bs (omega (arith, bound, enough)) in
            let (r', whole, (waits, over)) =
              released rounds (numbers.add b x) (some (least +ℤ pos 1)) (erase_at j (t ∷ ts))
                (erase_at j bs) (omega (arith, e, length-erase_at j (t ∷ ts) bound))
                (omega (
                  arith,
                  enough,
                  length-erase_at j (t ∷ ts) bound,
                  length-erase_at j bs (omega (arith, bound, enough)),
                )) in
            rw (less, found)
              (
                r',
                whole,
                (
                  wait j least x (ap not less) (min_from-at t ts) (l.below, l.least_of) found waits,
                  over,
                ),
              )
      ]

  -- The result of the dynamic strategy, from the state in which its loop starts.
  abbrev pub WaitOutcome : Double → Release → Result (ℤ × ℕ) → Type 0
  WaitOutcome budget r o =
      ((is_sufficient budget ≡ true) × (o ≡ ok (pos 0, numbers.burst_period budget)))
      ⊎ (is_sufficient budget ≡ false)
        × (last : Release) × Waits r last
        × (((z : ℤ) × (last.min_offset ≡ some z)
              × (is_sufficient last.avail_budget ≡ true)
              × (o ≡ ok (z, numbers.burst_period last.avail_budget)))
            ⊎ (is_sufficient last.avail_budget ≡ false)
              × (last.timeouts ≡ [])
              × (o ≡ err no_duty_cycle_budget_left))

  length-all_releases :
      (budget : Double) (used_pp_budgets : List Double) (timeouts : List ℤ) (sh : Double) (off : ℤ)
      → length timeouts ≤ length used_pp_budgets
      → length (all_releases budget used_pp_budgets timeouts sh off).timeouts
        ≤ length (all_releases budget used_pp_budgets timeouts sh off).budgets
  length-all_releases budget used_pp_budgets timeouts sh off le =
      elim (Bool-cases (leb_ℤ (pos 0) off)) [
        | inl e ↦ rw e (
            omega (
              arith,
              le,
              length-append timeouts (off ∷ []),
              length-append used_pp_budgets (sh ∷ []),
            ))
        | inr e ↦ rw e le
      ]

  all_releases-budget :
      (budget : Double) (used_pp_budgets : List Double) (timeouts : List ℤ) (sh : Double) (off : ℤ)
      → ((all_releases budget used_pp_budgets timeouts sh off).avail_budget ≡ budget)
        × ((all_releases budget used_pp_budgets timeouts sh off).min_offset ≡ none)
  all_releases-budget budget used_pp_budgets timeouts sh off =
      elim (Bool-cases (leb_ℤ (pos 0) off)) [
        | inl e ↦ rw e (refl, refl)
        | inr e ↦ rw e (refl, refl)
      ]

  sufficient_offset :
      (b : Double) (m : Option ℤ) (z : ℤ)
      → m ≡ some z
      → is_sufficient b ≡ true
      → offset_and_period b m ≡ ok (z, numbers.burst_period b)
  sufficient_offset b m z e fine = rw (e, fine) refl

  or_none : (b : Bool) (A : Type 0) → (b ≡ true) ⊎ A → b ≡ false → A
  or_none b A (inl e) f = cc (e, f)
  or_none b A (inr a) f = a

  -- Whoever has waited has an offset.
  Waits-offset :
      {r last : Release}
      → Waits r last
      → ((z : ℤ) × (r.min_offset ≡ some z)) ⊎ (is_sufficient r.avail_budget ≡ false)
      → ((z : ℤ) × (last.min_offset ≡ some z)) ⊎ (is_sufficient last.avail_budget ≡ false)
  Waits-offset stop h = h
  Waits-offset (wait i t b low at_t least at_b more) h = Waits-offset more (inl (t +ℤ pos 1, refl))

  no_budget :
      (b : Double) (m : Option ℤ)
      → is_sufficient b ≡ false
      → offset_and_period b m ≡ err no_duty_cycle_budget_left
  no_budget b none e = refl
  no_budget b (some z) e = rw e refl

  ends :
      (budget : Double) (r last : Release)
      → is_sufficient budget ≡ false
      → r.avail_budget ≡ budget
      → Waits r last
      → IsOver last
      → WaitOutcome budget r (offset_and_period last.avail_budget last.min_offset)
  ends budget r last low same waits over = inr (
    low,
    last,
    waits,
    elim (Bool-cases (is_sufficient last.avail_budget)) [
      | inr bad ↦ inr (bad, or_none _ _ over bad, no_budget _ last.min_offset bad)
      | inl fine ↦ elim (Waits-offset waits (inr (ap is_sufficient same ∙ low))) [
        | inl (z, at_z) ↦ inl (z, at_z, fine, sufficient_offset _ _ z at_z fine)
        | inr bad ↦ cc (fine, bad)
      ]
    ],
  )

  -- With a budget for every timeout, the dynamic strategy throws no other exception than that no
  -- budget is left. If the budget suffices at once, the offset is 0. If not, it waits for the links
  -- and the shared channel, one after the other, in each round while the budget does not suffice for
  -- one of the least timeout, of which it adds the budget: until the budget suffices, where the
  -- offset is the slot after the last timeout and the period that of the budget; or, where the budget
  -- of all of them does not suffice, it throws.
  pub dynamic_waits :
      (d : DutyCycle) (used_pp_budgets : List Double) (timeouts : List ℤ) (used_sh_budget : Double)
      (sh_slot_offset : ℤ)
      → length timeouts ≤ length used_pp_budgets
      → WaitOutcome
          (budget_left d used_pp_budgets used_sh_budget)
          (all_releases
            (budget_left d used_pp_budgets used_sh_budget)
            used_pp_budgets
            timeouts
            used_sh_budget
            sh_slot_offset)
          (get_periodicity_pp_dynamic d used_pp_budgets timeouts used_sh_budget sh_slot_offset)
  unfolding get_periodicity_pp_dynamic
  dynamic_waits d used_pp_budgets timeouts used_sh_budget sh_slot_offset enough =
      let budget = budget_left d used_pp_budgets used_sh_budget in
      let r = all_releases budget used_pp_budgets timeouts used_sh_budget sh_slot_offset in
      let (last, whole, (waits, over)) =
        released (length r.timeouts) r.avail_budget r.min_offset r.timeouts r.budgets refl (
          length-all_releases budget used_pp_budgets timeouts used_sh_budget sh_slot_offset
            enough) in
      let (same, _) =
        all_releases-budget budget used_pp_budgets timeouts used_sh_budget sh_slot_offset in
      elim (Bool-cases (is_sufficient budget)) [
        | inl fine ↦ inl (
          fine,
          ap (λ b. if b then ok (pos 0, numbers.burst_period budget) else waited_for r) fine,
        )
        | inr low ↦
            subst (WaitOutcome budget r)
              (sym (
                ap (λ b. if b then ok (pos 0, numbers.burst_period budget) else waited_for r) low
                ∙ ap (λ o. o >>= λ last. offset_and_period last.avail_budget last.min_offset)
                    whole))
              (ends budget r last low same waits over)
      ]
    where
      waited_for : Release → Result (ℤ × ℕ)
      waited_for r = release_until (length r.timeouts) r >>= λ last.
          offset_and_period last.avail_budget last.min_offset
