-- ===== src/Index/Backfill/Spans.antt =====
-- The events of a range of blocks, joined from parts of the range.
use chainkit.Prelude.{List, [], ap, arith, suc, zero, ℕ, ◌++◌, ◌+◌, ◌-◌, ◌∙◌, ◌≡◌, ◌≤◌}
use mathlib.Core.List.{append_assoc}

module _ {A : Type 0} (events_of : ℕ → List A) where
  -- The events of `n` blocks from `from` on.
  abbrev pub span : ℕ → ℕ → List A
  span from zero = []
  span from (suc n) = events_of from ++ span (from + 1) n

  span-append : (m from n : ℕ) → span from m ++ span (from + m) n ≡ span from (m + n)
  span-append zero from n =
      ap (λ a. span a n) (let e : from + 0 ≡ from = omega arith in e)
      ∙ ap (span from) (let e : n ≡ 0 + n = omega arith in e)
  span-append (suc m) from n =
      let next : from + suc m ≡ from + 1 + m = omega arith in
      let total : suc (m + n) ≡ suc m + n = omega arith in
      append_assoc (events_of from) (span (from + 1) m) (span (from + suc m) n)
      ∙ ap (λ a. events_of from ++ (span (from + 1) m ++ span a n)) next
      ∙ ap (λ l. events_of from ++ l) (span-append m (from + 1) n)
      ∙ ap (span from) total

  pub span-split :
      (a last b : ℕ)
      → a ≤ last + 1
      → last ≤ b
      → span a (last + 1 - a) ++ span (last + 1) (b + 1 - (last + 1)) ≡ span a (b + 1 - a)
  span-split a last b h k =
      let middle : last + 1 ≡ a + (last + 1 - a) = omega arith in
      let total : last + 1 - a + (b + 1 - (last + 1)) ≡ b + 1 - a = omega arith in
      ap (λ n. span a (last + 1 - a) ++ span n (b + 1 - (last + 1))) middle
      ∙ span-append (last + 1 - a) a (b + 1 - (last + 1))
      ∙ ap (span a) total
