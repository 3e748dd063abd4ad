-- ===== src/Index/Reorg.antt =====
-- chainindex-core/src/reorg.rs: what a reorg drops, and its class.
pub mod Dropped
use chainkit.Prelude.{
  List, Option, String, [], filter, if◌then◌else◌, leb, length, ltb, none, not, reverse, some, ℕ,
  ◌-◌, ◌==◌, ◌∷◌, nat_eq, string_eq, pair_eq,
}
use chainkit.Index.Block.{Block, extends}

pub data ReorgType : Type 0 where
  short_reorg deep_reorg rpc_inconsistency : ReorgType

pub record ReorgEvent : Type 0 where
  pub detected_at : ℕ
  pub dropped_blocks : List Block
  pub depth : ℕ
  pub reorg_type : ReorgType

pub record ReorgDetector : Type 0 where
  pub last_finalized : Option ℕ
  pub confirmation_depth : ℕ

unfoldable pub new : ℕ → ReorgDetector
new depth = record { last_finalized = none; confirmation_depth = depth }

-- The loop over the blocks newest first, which breaks at the fork point.
unfoldable pub collect : String → List Block → List Block
collect parent [] = []
collect parent (b ∷ older) = if b.hash == parent then [] else b ∷ collect parent older

unfoldable pub find_dropped_blocks : Block → List Block → List Block × ℕ
unfolding collect
find_dropped_blocks new_block window =
    let dropped = collect new_block.parent_hash (reverse window) in (dropped, length dropped)

unfoldable pub check :
    ReorgDetector → Block → Block → List Block → Option ReorgEvent × ReorgDetector
check d new_block previous_head window =
    let (dropped, depth) = find_dropped_blocks new_block window in
    if not (extends new_block previous_head)
    then (
      some (record {
        detected_at = new_block.number;
        dropped_blocks = dropped;
        depth = depth;
        reorg_type = if leb depth 3 then short_reorg else deep_reorg;
      }),
      d,
    )
    else (none, d)

-- The report of a finalized block below the last one. `last - new` does not wrap: it is only
-- computed where `new` is the smaller.
unfoldable pub regression : ℕ → ℕ → List Block → ReorgEvent
regression last new_finalized window = record {
  detected_at = new_finalized;
  dropped_blocks = filter (λ b. ltb new_finalized b.number) window;
  depth = last - new_finalized;
  reorg_type = rpc_inconsistency;
}

unfoldable pub check_finalized : ReorgDetector → ℕ → List Block → Option ReorgEvent × ReorgDetector
unfolding regression
check_finalized d new_finalized window =
    let seen = record d { last_finalized = some new_finalized } in
    elim d.last_finalized [
      | none ↦ (none, seen)
      | some last ↦
          if ltb new_finalized last
          then (some (regression last new_finalized window), seen)
          else (none, seen)
    ]
