-- ===== src/Rpc/Pool.antt =====
-- chainrpc-core/src/pool.rs: the providers behind their circuit breakers. A slot is its circuit breaker:
-- what its transport answers is an argument, and its metrics are not modelled. The time `now` is when
-- the slot is picked, and `later` when its answer is there.
pub mod Picks
pub mod Outcomes
pub mod Timeouts
use chainkit.Prelude.{
  Bool, List, Option, Result, [], count, err, get_or, if◌then◌else◌, length, none, ok, set, some,
  suc, u64, zero, ℕ, ◌%◌, ◌+◌, ◌==◌, ◌∷◌, nat_eq, string_eq, pair_eq,
}
use chainkit.Rpc.Request.{JsonRpcResponse}
use chainkit.Rpc.Error.{TransportError, all_providers_down, timeout, is_retryable}
use chainkit.Rpc.Circuit
use chainkit.Rpc.Circuit.{
  CircuitBreaker, CircuitBreakerConfig, is_allowed, record_success, record_failure,
}

-- in milliseconds
pub record ProviderPoolConfig : Type 0 where
  pub circuit_breaker : CircuitBreakerConfig
  pub request_timeout : ℕ

abbrev pub default_config : ProviderPoolConfig
default_config = record { circuit_breaker = Circuit.default_config; request_timeout = 30_000 }

pub record ProviderPool : Type 0 where
  pub slots : List CircuitBreaker
  pub cursor : ℕ
  pub config : ProviderPoolConfig

-- transport.rs
pub data HealthStatus : Type 0 where
  healthy degraded unhealthy unknown : HealthStatus

closed_slots : ℕ → CircuitBreakerConfig → List CircuitBreaker
closed_slots zero config = []
closed_slots (suc n) config = Circuit.new config ∷ closed_slots n config

-- `ProviderPool::new`, over a number of transports
unfoldable pub new : ℕ → ProviderPoolConfig → ProviderPool
unfolding closed_slots
new transports config = record {
  slots = closed_slots transports config.circuit_breaker;
  cursor = 0;
  config = config;
}

unfoldable pub len : ProviderPool → ℕ
len p = length p.slots

unfoldable pub is_empty : ProviderPool → Bool
is_empty p = length p.slots == 0

-- `is_allowed()` of every slot, each of which may turn half-open
unfoldable pub allowed_now : ℕ → List CircuitBreaker → List Bool
allowed_now now [] = []
allowed_now now (c ∷ cs) = (is_allowed c now).0 ∷ allowed_now now cs

unfoldable pub ask_all : ℕ → List CircuitBreaker → List CircuitBreaker
ask_all now [] = []
ask_all now (c ∷ cs) = (is_allowed c now).1 ∷ ask_all now cs

unfoldable pub healthy_count : ProviderPool → ℕ → ℕ × ProviderPool
unfolding allowed_now ask_all
healthy_count p now =
    (count (λ b. b) (allowed_now now p.slots), record p { slots = ask_all now p.slots })

unfoldable pub health : ProviderPool → ℕ → HealthStatus × ProviderPool
unfolding healthy_count
health p now =
    let (n, p') = healthy_count p now in
    (if n == 0 then unhealthy else if n == length p.slots then healthy else degraded, p')

-- the loop of `next_slot`: the circuit at `(start + i) % len` is asked, until one allows a request
unfoldable pub scan :
    ℕ → ℕ → ℕ → ℕ → List CircuitBreaker → CircuitBreaker → Option ℕ × List CircuitBreaker
scan zero start i now slots spare = (none, slots)
scan (suc rounds) start i now slots spare =
    let idx = u64 (start + i) % length slots in
    let (allowed, asked) = is_allowed (get_or slots idx spare) now in
    let rest = scan rounds start (i + 1) now (set slots idx asked) spare in
    if allowed then (some idx, set slots idx asked) else rest

-- `self.slots[idx]` is in range, so that the slot `spare` of the look-up is never taken
unfoldable pub next_slot : ProviderPool → ℕ → Option ℕ × ProviderPool
unfolding scan
next_slot p now =
    if length p.slots == 0
    then (none, p)
    else (let (picked, slots) =
          scan (length p.slots) (p.cursor % length p.slots) 0 now p.slots
            (Circuit.new p.config.circuit_breaker) in
        (picked, record p { slots = slots; cursor = u64 (p.cursor + 1) }))

-- What comes of a request to a transport, within the time limit or not.
pub data Attempt (J : Type 0) : Type 0 where
  timed_out : Attempt J
  answered : Result (JsonRpcResponse J) (TransportError J) → Attempt J

module _ {J : Type 0} where
  -- what the answer makes of the circuit
  unfoldable pub settle : Attempt J → ℕ → CircuitBreaker → CircuitBreaker
  settle timed_out later c = c
  settle (answered (ok response)) later c = record_success c
  settle (answered (err e)) later c = if is_retryable e then record_failure c later else c

  unfoldable pub answer_of :
      ProviderPool → Attempt J → Result (JsonRpcResponse J) (TransportError J)
  answer_of p timed_out = err (timeout p.config.request_timeout)
  answer_of p (answered r) = r

  -- `send`, where each transport is given the attempt that comes of asking it
  unfoldable pub send :
      ProviderPool
      → ℕ
      → ℕ
      → (ℕ → Attempt J)
      → Result (JsonRpcResponse J) (TransportError J) × ProviderPool
  unfolding next_slot settle answer_of
  send p now later transports =
      let (picked, q) = next_slot p now in
      elim picked [
        | none ↦ (err all_providers_down, q)
        | some idx ↦ (
          answer_of p (transports idx),
          record q {
            slots = set q.slots idx (
                settle (transports idx) later
                  (get_or q.slots idx (Circuit.new p.config.circuit_breaker)));
          },
        )
      ]
