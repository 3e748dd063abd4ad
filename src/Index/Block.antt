-- ===== src/Index/Block.antt =====
-- chainindex-core/src/types.rs: block summaries.
use chainkit.Prelude.{
  Bool, String, arith, true, u64, ℕ, ◌&&◌, ◌+◌, ◌==◌, ◌≡◌, nat_eq, string_eq, pair_eq,
}
use chainkit.Prelude.Int.{ℤ}

pub record Block : Type 0 where
  pub number : ℕ
  pub hash : String
  pub parent_hash : String
  pub timestamp : ℤ
  pub tx_count : ℕ

-- `BlockSummary::extends`
unfoldable pub extends : Block → Block → Bool
extends b parent = b.number == u64 (parent.number + 1) && b.parent_hash == parent.hash

pub extends-number : (b p : Block) → extends b p ≡ true → b.number ≡ u64 (p.number + 1)
unfolding extends
extends-number b p h = ground arith
