-- ===== src/Index/Config.antt =====
-- chainindex-core/src/indexer.rs, the configuration of an indexer, with the event filter of types.rs.
use chainkit.Prelude.{List, Option, String, ℕ}

pub record EventFilter : Type 0 where
  pub addresses : List String
  pub topic0_values : List String
  pub from_block : Option ℕ
  pub to_block : Option ℕ

pub record IndexerConfig : Type 0 where
  pub id : String
  pub chain : String
  pub from_block : ℕ
  pub to_block : Option ℕ
  pub confirmation_depth : ℕ
  pub batch_size : ℕ
  pub checkpoint_interval : ℕ
  pub poll_interval_ms : ℕ
  pub filter : EventFilter
