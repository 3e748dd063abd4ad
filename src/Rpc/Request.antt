-- ===== src/Rpc/Request.antt =====
-- chainrpc-core/src/request.rs: the JSON-RPC messages. A JSON value is one of `J`, a type of another
-- library, and `Value` has the operations of that library that the transport uses.
use chainkit.Prelude.{Bool, List, Option, Result, String, err, false, none, ok, some, true, ℕ}
use chainkit.Prelude.Int.{ℤ}

pub data RpcId : Type 0 where
  number : ℕ → RpcId
  text : String → RpcId
  null_id : RpcId

pub record Value (J : Type 0) : Type 0 where
  pub as_str : J → Option String
  pub is_number : J → Bool
  pub null : J

pub record JsonRpcRequest (J : Type 0) : Type 0 where
  pub jsonrpc : String
  pub method : String
  pub params : List J
  pub id : RpcId

pub record JsonRpcError (J : Type 0) : Type 0 where
  pub code : ℤ
  pub message : String
  pub details : Option J

pub record JsonRpcResponse (J : Type 0) : Type 0 where
  pub jsonrpc : String
  pub id : RpcId
  pub result : Option J
  pub error : Option (JsonRpcError J)

module _ {J : Type 0} where
  -- `JsonRpcRequest::new`
  unfoldable pub new_request : ℕ → String → List J → JsonRpcRequest J
  new_request id method params = record {
    jsonrpc = "2.0";
    method = method;
    params = params;
    id = number id;
  }

  unfoldable pub is_ok : JsonRpcResponse J → Bool
  is_ok r = elim r.error [ none ↦ elim r.result [ none ↦ false | some v ↦ true ] | some e ↦ false ]

  unfoldable pub into_result : Value J → JsonRpcResponse J → Result J (JsonRpcError J)
  into_result ops r = elim r.error [
    | none ↦ elim r.result [ none ↦ ok ops.null | some v ↦ ok v ]
    | some e ↦ err e
  ]
