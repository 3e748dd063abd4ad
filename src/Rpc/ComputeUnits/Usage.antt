-- ===== src/Rpc/ComputeUnits/Usage.antt =====
-- What a sequence of calls costs.
use chainkit.Prelude.{
  Bool-cases, List, String, [], ap, arith, if◌then◌else◌, inl, inr, or_zero, refl, u64, u64_max, ℕ,
  ◌+◌, ◌-◌, ◌==◌, ◌∙◌, ◌∷◌, ◌≡◌, ◌≤◌, nat_eq, string_eq, pair_eq,
}
use chainkit.HashMap
use chainkit.HashMap.Laws.{get-insert}
use chainkit.Rpc.ComputeUnits.{
  CuTracker, CuCostTable, CuBudgetConfig, new, cost_for, record_call, remaining, is_exhausted,
}

-- the cost of the calls, and of those of one method
abbrev pub total_cost : CuCostTable → List String → ℕ
total_cost table [] = 0
total_cost table (m ∷ ms) = cost_for table m + total_cost table ms

abbrev method_cost : CuCostTable → String → List String → ℕ
method_cost table method [] = 0
method_cost table method (m ∷ ms) =
    (if m == method then cost_for table m else 0) + method_cost table method ms

method-le-total :
    (table : CuCostTable) (method : String) (ms : List String)
    → method_cost table method ms ≤ total_cost table ms
method-le-total table method [] = omega arith
method-le-total table method (m ∷ ms) = elim (Bool-cases (m == method)) [
  | inl x ↦ rw x (omega (arith, method-le-total table method ms))
  | inr x ↦ rw x (omega (arith, method-le-total table method ms))
]

module _ {F : Type 0} where
  abbrev record_calls : CuTracker F → List String → CuTracker F
  record_calls t [] = t
  record_calls t (m ∷ ms) = record_calls (record_call t m) ms

  -- what a method used
  abbrev usage : CuTracker F → String → ℕ
  usage t method = or_zero (HashMap.get t.per_method method)

  usage-record_call :
      (t : CuTracker F) (m method : String)
      → usage (record_call t m) method
        ≡ (if m == method then u64 (usage t method + cost_for t.cost_table m) else usage t method)
  unfolding record_call
  usage-record_call t m method =
      ap or_zero (get-insert t.per_method m method _) ∙ elim (Bool-cases (m == method)) [
        | inl x ↦
            let same : m ≡ method = (string_eq.same_iff m method).0 x in
            rw x (ap (λ k. u64 (usage t k + cost_for t.cost_table m)) same)
        | inr x ↦ rw x refl
      ]

  record_calls-usage :
      (t : CuTracker F) (ms : List String) (method : String)
      → usage t method + method_cost t.cost_table method ms ≤ u64_max
      → usage (record_calls t ms) method ≡ usage t method + method_cost t.cost_table method ms
  unfolding record_call
  record_calls-usage t [] method h = omega arith
  record_calls-usage t (m ∷ ms) method h =
      let next = usage-record_call t m method in
      elim (Bool-cases (m == method)) [
        | inl x ↦
            let cost : usage (record_call t m) method ≡ usage t method + cost_for t.cost_table m =
              ground (arith, next, x, h) in
            record_calls-usage (record_call t m) ms method (ground (arith, cost, x, h))
            ∙ ground (arith, cost, x)
        | inr x ↦
            let cost : usage (record_call t m) method ≡ usage t method = ground (arith, next, x) in
            record_calls-usage (record_call t m) ms method (ground (arith, cost, x, h))
            ∙ ground (arith, cost, x)
      ]

  record_calls-consumed :
      (t : CuTracker F) (ms : List String)
      → t.consumed + total_cost t.cost_table ms ≤ u64_max
      → ((record_calls t ms).consumed ≡ t.consumed + total_cost t.cost_table ms)
        × ((record_calls t ms).config ≡ t.config)
  unfolding record_call
  record_calls-consumed t [] h = (omega arith, refl)
  record_calls-consumed t (m ∷ ms) h =
      let (c, k) = record_calls-consumed (record_call t m) ms (omega (arith, h)) in
      (omega (arith, c, h), k)

  -- After calls whose costs together fit a word, the tracker has consumed these costs and each method
  -- those of its own calls; the budget that remains is what they leave of it, all of the word for an
  -- unlimited one, and it is exhausted exactly where it is limited and nothing remains.
  record_calls_lem :
      (url : String) (table : CuCostTable) (config : CuBudgetConfig F) (ms : List String)
      (method : String)
      → total_cost table ms ≤ u64_max
      → let t = record_calls (new url table config) ms in
        (t.consumed ≡ total_cost table ms)
        × (usage t method ≡ method_cost table method ms)
        × (remaining t ≡ (
            if config.monthly_budget == 0
            then u64_max
            else config.monthly_budget - total_cost table ms))
        × (is_exhausted t ≡ (remaining t == 0))
  unfolding new remaining is_exhausted HashMap.get
  record_calls_lem url table config ms method h =
      let fresh = new url table config in
      let (all, kept) = record_calls-consumed fresh ms (omega (arith, h)) in
      let consumed : (record_calls fresh ms).consumed ≡ total_cost table ms = omega (arith, all) in
      let budget = ap (λ c. c.monthly_budget) kept in
      let unused : usage fresh method ≡ 0 = refl in
      let used =
        record_calls-usage fresh ms method
          (omega (arith, h, unused, method-le-total table method ms)) in
      (
        consumed,
        omega (arith, used),
        ground (arith, consumed, budget),
        ground (arith, consumed, budget, h),
      )
