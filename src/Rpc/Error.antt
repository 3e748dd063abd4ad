-- ===== src/Rpc/Error.antt =====
-- chainrpc-core/src/error.rs. An error of the JSON library is its text.
use chainkit.Prelude.{Bool, String, false, true, ℕ}
use chainkit.Rpc.Request.{JsonRpcError}

pub data TransportError (J : Type 0) : Type 0 where
  http web_socket deserialization other : String → TransportError J
  rpc : JsonRpcError J → TransportError J
  rate_limited circuit_open : String → TransportError J
  all_providers_down cancelled : TransportError J
  timeout overloaded : ℕ → TransportError J

module _ {J : Type 0} where
  abbrev pub is_retryable : TransportError J → Bool
  is_retryable (http m) = true
  is_retryable (web_socket m) = true
  is_retryable (timeout ms) = true
  is_retryable (rate_limited provider) = true
  is_retryable _ = false

  abbrev pub is_execution_error : TransportError J → Bool
  is_execution_error (rpc e) = true
  is_execution_error _ = false
