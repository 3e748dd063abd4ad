-- ===== src/Index/Solana/Summaries.antt =====
-- The summaries of slots in the window of the block tracker.
use chainkit.Prelude.{String, arith, concat, false, ℕ, ◌≡◌, ◌≢◌}
use text.Mathlib.TextEquality.{eq_iff}
use chainkit.Index.Block.{extends}
use chainkit.Index.Solana.{SolanaSlot, to_block_summary}

-- The summary of a slot extends that of another one only if the other's block hash is the text
-- `parent:` with a slot number behind it: the block hashes of the chain are no such texts, so that no
-- summary extends that of its parent.
summary-extends :
    (display : ℕ → String) (child parent : SolanaSlot)
    → parent.block_hash ≢ concat "parent:" (display child.parent_slot)
    → extends (to_block_summary display child) (to_block_summary display parent) ≡ false
unfolding extends to_block_summary
summary-extends display child parent h =
    ground (arith, h, eq_iff (concat "parent:" (display child.parent_slot)) parent.block_hash)
