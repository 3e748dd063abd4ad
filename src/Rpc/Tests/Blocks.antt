-- ===== src/Rpc/Tests/Blocks.antt =====
-- The window of hashes after the blocks 10 and 11.
use chainkit.Prelude.{[], false, none, some, ℕ, ◌∷◌, ◌≡◌, nat_eq, string_eq, pair_eq}
use chainkit.HashMap
use chainkit.Rpc.ReorgWindow.{ReorgDetector, check_block}
use chainkit.Rpc.ReorgWindow.Lookup.{get-check_block}

abbrev d : ReorgDetector ℕ
d = record {
  config = record { window_size = 4; safe_depth = 2; use_finalized_tag = false };
  window = (9, "i") ∷ (10, "j") ∷ (11, "k") ∷ [];
  last_tip = some 11;
  callbacks = 1 ∷ 2 ∷ [];
  reorg_history = [];
}

get-check_block_example : HashMap.get (check_block d 10 "j'").2.window 11 ≡ none
unfolding HashMap.get
get-check_block_example = get-check_block d 10 11 "j'"
