-- ===== src/Index/Event.antt =====
-- chainindex-core/src/handler.rs: the event that the handlers, the streams and the queue share. The
-- JSON value of its fields is one of `J`, the type of another library.
use chainkit.Prelude.{String, ℕ}

pub record DecodedEvent (J : Type 0) : Type 0 where
  pub chain : String
  pub schema : String
  pub address : String
  pub tx_hash : String
  pub block_number : ℕ
  pub log_index : ℕ
  pub fields_json : J
