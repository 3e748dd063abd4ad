-- ===== src/Rpc/Dedup.antt =====
-- chainrpc-core/src/dedup.rs, `DedupTransport`, shared by any number of tasks. What a task does between
-- two points where another may come in between is one step: where it takes the lock, where the inner
-- transport answers, where it is woken. The hash of method and parameters is the key of a request, and
-- the text of an error is an argument, as is what a receiver of a watch channel finds, of which the model
-- holds only what this code has done to it.
pub mod Steps
pub mod Single
pub mod Entries
pub mod Senders
pub mod Lost
use chainkit.Prelude.{
  List, Result, String, [], err, get_elem?, length, none, ok, set, some, ℕ, ◌++◌, ◌∷◌, nat_eq,
  string_eq, pair_eq,
}
use chainkit.HashMap
use chainkit.HashMap.{HashMap}
use chainkit.Rpc.Request.{JsonRpcResponse}
use chainkit.Rpc.Error.{TransportError, other}

-- what was done to a channel: it was made, its sender was dropped before it had sent, it was sent a result
pub data Channel (J : Type 0) : Type 0 where
  empty closed : Channel J
  sent : Result (JsonRpcResponse J) String → Channel J

-- what a receiver finds: a channel to wait on, that its sender is dropped, or a result
pub data Found (J : Type 0) : Type 0 where
  no_change no_sender : Found J
  a_result : Result (JsonRpcResponse J) String → Found J

pub record Outside (J : Type 0) : Type 0 where
  pub display : TransportError J → String
  pub read : Channel J → Found J

-- A call of `send`: after its first look at the pending requests found none, while it asks the inner
-- transport, after it has sent the answer to its channel, while it waits for one, when it has returned,
-- and when its future was dropped.
pub data Task (J : Type 0) : Type 0 where
  looked : ℕ → Task J
  asking : ℕ → ℕ → Task J
  answered : ℕ → Result (JsonRpcResponse J) (TransportError J) → Task J
  waiting : ℕ → Task J
  returned : Result (JsonRpcResponse J) (TransportError J) → Task J
  gone : Task J

pub record DedupTransport (J : Type 0) : Type 0 where
  pub pending : HashMap ℕ ℕ
  pub channels : List (Channel J)
  pub tasks : List (Task J)

pub data Step (J : Type 0) : Type 0 where
  looks : ℕ → Step J
  enters wakes cleans drops : ℕ → Step J
  answers : ℕ → Result (JsonRpcResponse J) (TransportError J) → Step J

module _ {J : Type 0} where
  abbrev pub new : DedupTransport J
  new = record { pending = []; channels = []; tasks = [] }

  unfoldable pub in_flight_count : DedupTransport J → ℕ
  in_flight_count d = length d.pending

  -- the result that the waiters share, and what each of them returns for it
  abbrev pub shared :
      (TransportError J → String)
      → Result (JsonRpcResponse J) (TransportError J)
      → Result (JsonRpcResponse J) String
  shared display (ok resp) = ok resp
  shared display (err e) = err (display e)

  abbrev pub received :
      Result (JsonRpcResponse J) String → Result (JsonRpcResponse J) (TransportError J)
  received (ok resp) = ok resp
  received (err msg) = err (other msg)

  abbrev pub sender_dropped : Result (JsonRpcResponse J) (TransportError J)
  sender_dropped = err (other "dedup: sender dropped without result")

  -- the first look under the lock
  unfoldable pub look : DedupTransport J → ℕ → DedupTransport J
  look d key = record d {
    tasks =
        d.tasks
        ++ (elim (HashMap.get d.pending key) [ none ↦ looked key | some c ↦ waiting c ]) ∷ [];
  }

  -- the second look, which puts a new channel in where there still is none
  unfoldable pub enter : DedupTransport J → ℕ → ℕ → DedupTransport J
  enter d i key = elim (HashMap.get d.pending key) [
    | some c ↦ record d { tasks = set d.tasks i (waiting c) }
    | none ↦ record d {
      pending = HashMap.insert d.pending key (length d.channels);
      channels = d.channels ++ empty ∷ [];
      tasks = set d.tasks i (asking key (length d.channels));
    }
  ]

  unfoldable pub answer :
      Outside J
      → DedupTransport J
      → ℕ
      → ℕ
      → ℕ
      → Result (JsonRpcResponse J) (TransportError J)
      → DedupTransport J
  answer outside d i key c result = record d {
    channels = set d.channels c (sent (shared outside.display result));
    tasks = set d.tasks i (answered key result);
  }

  unfoldable pub clean :
      DedupTransport J → ℕ → ℕ → Result (JsonRpcResponse J) (TransportError J) → DedupTransport J
  clean d i key result = record d {
    pending = HashMap.remove d.pending key;
    tasks = set d.tasks i (returned result);
  }

  -- `wait_for_result`, once around its loop
  unfoldable pub wake : Outside J → DedupTransport J → ℕ → ℕ → DedupTransport J
  wake outside d i c = elim (get_elem? d.channels c) [
    | none ↦ d
    | some channel ↦ elim (outside.read channel) [
      | no_change ↦ d
      | no_sender ↦ record d { tasks = set d.tasks i (returned sender_dropped) }
      | a_result result ↦ record d { tasks = set d.tasks i (returned (received result)) }
    ]
  ]

  -- the future of a call is dropped, and its sender with it where it has one
  unfoldable pub drop_asking : DedupTransport J → ℕ → ℕ → DedupTransport J
  drop_asking d i c = record d { channels = set d.channels c closed; tasks = set d.tasks i gone }

  -- A step that does not fit the state of its task does nothing.
  unfoldable pub step : Outside J → DedupTransport J → Step J → DedupTransport J
  unfolding look enter answer clean wake drop_asking
  step outside d (looks key) = look d key
  step outside d (enters i) = elim (get_elem? d.tasks i) [
    | some (looked key) ↦ enter d i key
    | _ ↦ d
  ]
  step outside d (answers i result) = elim (get_elem? d.tasks i) [
    | some (asking key c) ↦ answer outside d i key c result
    | _ ↦ d
  ]
  step outside d (cleans i) = elim (get_elem? d.tasks i) [
    | some (answered key result) ↦ clean d i key result
    | _ ↦ d
  ]
  step outside d (wakes i) = elim (get_elem? d.tasks i) [
    | some (waiting c) ↦ wake outside d i c
    | _ ↦ d
  ]
  step outside d (drops i) = elim (get_elem? d.tasks i) [
    | some (looked key) ↦ record d { tasks = set d.tasks i gone }
    | some (asking key c) ↦ drop_asking d i c
    | some (waiting c) ↦ record d { tasks = set d.tasks i gone }
    | _ ↦ d
  ]

  abbrev pub run : Outside J → DedupTransport J → List (Step J) → DedupTransport J
  run outside d [] = d
  run outside d (s ∷ ss) = run outside (step outside d s) ss
