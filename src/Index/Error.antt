-- ===== src/Index/Error.antt =====
-- chainindex-core/src/error.rs
use chainkit.Prelude.{Bool, String, false, true, ℕ}

pub data IndexerError : Type 0 where
  rpc storage other : String → IndexerError
  handler : String → String → IndexerError
  reorg_detected : ℕ → String → String → IndexerError
  checkpoint_mismatch : ℕ → IndexerError
  aborted : String → IndexerError

-- `IndexerError::is_reorg`
unfoldable pub is_reorg : IndexerError → Bool
is_reorg (reorg_detected block_number expected actual) = true
is_reorg _ = false
