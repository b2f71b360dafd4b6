-- ===== src/DutyCycle.antt =====
-- DutyCycle.hpp and DutyCycle.cpp: how much of the time a user may transmit, and what is left of it
-- for a new link. The code computes in `double`; what it uses of that type is the record `Numbers`.
-- The recent transmissions are a `MovingAverage`.
pub mod Waiting
pub mod Least
use ldacs_mcsotdma.Prelude.{
  ℕ, zero, suc, ◌+◌, ◌-◌, Bool, true, false, not, ◌&&◌, List, [], ◌∷◌, ◌++◌, length, Option, none,
  some, ℤ, pos, negsuc, ◌+ℤ◌, leb_ℤ, ltb_ℤ, leb, ltb, ◌%◌, u32_mod, if◌then◌else◌,
}
use ldacs_mcsotdma.Prelude.Result.{
  Result, ok, err, ◌>>=◌, guard, runtime_error, out_of_range, no_duty_cycle_budget_left,
}
use ldacs_mcsotdma.MovingAverage.{MovingAverage, moving_average}
use ldacs_mcsotdma.MovingAverage

-- `double`, with the conversions that the code makes: `burst_period b` is
-- `(unsigned int) std::max(0.0, std::ceil(std::log2(1.0 / (10.0 * b))))`, `slot_interval b` is
-- `(int) std::max(1.0, 1.0 / b)`, `burst_share n` is `1.0 / (10.0 * std::pow(2.0, n))`, and
-- `aloha_candidates p m` is `std::ceil(1.0 / (1.0 - std::pow(1.0 - p, 1.0 / m)))`.
pub record Numbers : Type 1 where
  pub Double : Type 0
  pub of_nat : ℕ → Double
  pub hundredth : Double
  pub default_collision_prob : Double
  pub tenth : Double
  pub add : Double → Double → Double
  pub subtract : Double → Double → Double
  pub divide : Double → Double → Double
  pub is_less : Double → Double → Bool
  pub is_infinite : Double → Bool
  pub burst_period : Double → ℕ
  pub slot_interval : Double → ℤ
  pub burst_share : ℕ → Double
  pub aloha_candidates : Double → ℕ → ℕ

pub data DutyCycleBudgetStrategy : Type 0 where
  static dynamic : DutyCycleBudgetStrategy

-- `std::min_element`: the index of the first of the least.
unfoldable pub min_from : ℕ → ℕ → ℤ → List ℤ → ℕ × ℤ
min_from i best least [] = (best, least)
min_from i best least (t ∷ ts) =
    let rest = min_from (suc i) i t ts in
    let same = min_from (suc i) best least ts in if ltb_ℤ t least then rest else same

-- `std::vector::at`
unfoldable pub at {ℓ} : {A : Type ℓ} → List A → ℕ → Result A
at [] i = err out_of_range
at (b ∷ bs) zero = ok b
at (b ∷ bs) (suc i) = at bs i

unfoldable pub erase_at {ℓ} : {A : Type ℓ} → ℕ → List A → List A
erase_at i [] = []
erase_at zero (x ∷ xs) = xs
erase_at (suc i) (x ∷ xs) = x ∷ erase_at i xs

module _ ⦃numbers : Numbers⦄ where
  abbrev pub Double : Type 0
  Double = numbers.Double

  pub record DutyCycle : Type 0 where
    pub period : ℕ
    pub max_duty_cycle : Double
    pub min_num_supported_pp_links : ℕ
    pub duty_cycle : MovingAverage
    pub strategy : DutyCycleBudgetStrategy

  abbrev pub duty_cycle_of : ℕ → Double → ℕ → DutyCycle
  duty_cycle_of period max_duty_cycle min_num_supported_pp_links = record {
    period = period;
    max_duty_cycle = max_duty_cycle;
    min_num_supported_pp_links = min_num_supported_pp_links;
    duty_cycle = moving_average period;
    strategy = static;
  }

  -- `DutyCycle()`
  abbrev pub default_duty_cycle : DutyCycle
  default_duty_cycle = duty_cycle_of 100 numbers.tenth 4

  abbrev with_average :
      DutyCycle → Result (Unit {0}) × MovingAverage → Result (Unit {0}) × DutyCycle
  with_average d (r, average) = (r, record d { duty_cycle = average })

  abbrev pub report_num_transmissions : ℕ → DutyCycle → Result (Unit {0}) × DutyCycle
  report_num_transmissions num_txs d = with_average d (MovingAverage.put num_txs d.duty_cycle)

  abbrev pub should_emit_statistic : DutyCycle → Bool
  should_emit_statistic d = MovingAverage.has_reached_num_values d.duty_cycle

  -- `setMinNumSupportedPPLinks`: one link at least.
  abbrev pub set_min_num_supported_pp_links : ℕ → DutyCycle → DutyCycle
  set_min_num_supported_pp_links n d = record d {
    min_num_supported_pp_links = if ltb 1 n then n else 1;
  }

  -- The share of each of the links and of the shared channel.
  abbrev pub fair_share : DutyCycle → Double
  fair_share d = numbers.divide d.max_duty_cycle (numbers.of_nat (d.min_num_supported_pp_links + 1))

  unfoldable pub subtract_all : Double → List Double → Double
  subtract_all budget [] = budget
  subtract_all budget (b ∷ bs) = subtract_all (numbers.subtract budget b) bs

  abbrev pub is_sufficient : Double → Bool
  is_sufficient budget = not (numbers.is_less budget numbers.hundredth)

  abbrev pub get_periodicity_pp_static : DutyCycle → ℤ × ℕ
  get_periodicity_pp_static d = (pos 0, numbers.burst_period (fair_share d))

  -- What the loop of the dynamic strategy changes; `min_offset` has no value before its first round.
  pub record Release : Type 0 where
    pub avail_budget : Double
    pub min_offset : Option ℤ
    pub timeouts : List ℤ
    pub budgets : List Double

  -- A round: the budget of the link that ends next is added.
  unfoldable pub release_next : ℤ → List ℤ → Release → Result Release
  unfolding min_from at erase_at
  release_next t ts r =
      let (i, least) = min_from 1 0 t ts in
      at r.budgets i >>= λ b. ok (record {
        avail_budget = numbers.add r.avail_budget b;
        min_offset = some (least +ℤ pos 1);
        timeouts = erase_at i (t ∷ ts);
        budgets = erase_at i r.budgets;
      })

  -- The loop, with as many rounds as there are timeouts at most.
  unfoldable pub release_until : ℕ → Release → Result Release
  unfolding release_next
  release_until zero r = ok r
  release_until (suc rounds) r = elim r.timeouts [
    | [] ↦ ok r
    | t ∷ ts ↦
        if numbers.is_less r.avail_budget numbers.hundredth
        then release_next t ts r >>= release_until rounds
        else ok r
  ]

  -- What is left of the maximum before any link ends.
  abbrev pub after_sh : DutyCycle → ℕ → Double → Double
  after_sh d num_active_links used_sh_budget =
      if leb ((d.min_num_supported_pp_links + (u32_mod - 1)) % u32_mod) num_active_links
        && numbers.is_less used_sh_budget (fair_share d)
      then numbers.subtract d.max_duty_cycle (fair_share d)
      else numbers.subtract d.max_duty_cycle used_sh_budget

  unfoldable pub budget_left : DutyCycle → List Double → Double → Double
  unfolding subtract_all
  budget_left d used_pp_budgets used_sh_budget =
      subtract_all (after_sh d (length used_pp_budgets) used_sh_budget) used_pp_budgets

  -- The links, and the next access of the shared channel as one more.
  abbrev pub all_releases : Double → List Double → List ℤ → Double → ℤ → Release
  all_releases budget used_pp_budgets timeouts used_sh_budget sh_slot_offset =
      if leb_ℤ (pos 0) sh_slot_offset
      then record {
        avail_budget = budget;
        min_offset = none;
        timeouts = timeouts ++ sh_slot_offset ∷ [];
        budgets = used_pp_budgets ++ used_sh_budget ∷ [];
      }
      else record {
        avail_budget = budget;
        min_offset = none;
        timeouts = timeouts;
        budgets = used_pp_budgets;
      }

  -- The result, where the budget suffices and the offset has a value.
  abbrev pub offset_and_period : Double → Option ℤ → Result (ℤ × ℕ)
  offset_and_period budget none = err no_duty_cycle_budget_left
  offset_and_period budget (some min_offset) =
      guard (is_sufficient budget) no_duty_cycle_budget_left >>= λ _.
      ok (min_offset, numbers.burst_period budget)

  unfoldable pub get_periodicity_pp_dynamic :
      DutyCycle → List Double → List ℤ → Double → ℤ → Result (ℤ × ℕ)
  unfolding budget_left release_until
  get_periodicity_pp_dynamic d used_pp_budgets timeouts used_sh_budget sh_slot_offset =
      let budget = budget_left d used_pp_budgets used_sh_budget in
      let r = all_releases budget used_pp_budgets timeouts used_sh_budget sh_slot_offset in
      if is_sufficient budget
      then ok (pos 0, numbers.burst_period budget)
      else release_until (length r.timeouts) r >>= λ last.
          offset_and_period last.avail_budget last.min_offset

  unfoldable pub get_periodicity_pp : DutyCycle → List Double → List ℤ → Double → ℤ → Result (ℤ × ℕ)
  unfolding get_periodicity_pp_dynamic
  get_periodicity_pp d used_pp_budgets timeouts used_sh_budget sh_slot_offset = elim d.strategy [
    | static ↦ ok (get_periodicity_pp_static d)
    | dynamic ↦ get_periodicity_pp_dynamic d used_pp_budgets timeouts used_sh_budget sh_slot_offset
  ]

  -- One share is kept back for the next link, unless all links are there.
  abbrev pub without_next_link : DutyCycle → ℕ → Double → Double
  without_next_link d num_active_pp_links budget =
      if ltb num_active_pp_links d.min_num_supported_pp_links
      then numbers.subtract budget (fair_share d)
      else budget

  unfoldable pub get_sh_budget_dynamic : DutyCycle → List Double → Result Double
  unfolding subtract_all
  get_sh_budget_dynamic d used_budget =
      let budget = subtract_all d.max_duty_cycle used_budget in
      let kept = without_next_link d (length used_budget) budget in
      guard (numbers.is_less numbers.hundredth budget) runtime_error >>= λ _.
      guard (not (numbers.is_infinite kept)) runtime_error >>= λ _. ok kept

  unfoldable pub get_sh_budget : DutyCycle → List Double → Result Double
  unfolding get_sh_budget_dynamic
  get_sh_budget d used_budget = elim d.strategy [
    | static ↦ ok (fair_share d)
    | dynamic ↦ get_sh_budget_dynamic d used_budget
  ]

  unfoldable pub get_offset_sh : DutyCycle → List Double → Result ℤ
  unfolding get_sh_budget
  get_offset_sh d used_budget =
      get_sh_budget d used_budget >>= λ budget. ok (numbers.slot_interval budget)

  abbrev pub set_strategy : DutyCycleBudgetStrategy → DutyCycle → DutyCycle
  set_strategy strategy d = record d { strategy = strategy }
