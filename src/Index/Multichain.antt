-- ===== src/Index/Multichain.antt =====
-- chainindex-core/src/multichain.rs: the state that is kept for the indexer of each of several chains,
-- and its health. A clock reading `now` is in seconds.
pub mod Coordinator
pub mod Sync
use chainkit.Prelude.{
  Bool, List, Option, String, [], concat, count, false, if◌then◌else◌, none, some, true, ℕ, ◌&&◌,
  ◌+◌, ◌-◌, ◌==◌, ◌∷◌, nat_eq, string_eq, pair_eq,
}
use Prim.Native.Nat.{min}
use chainkit.Prelude.Int.{ℤ, pos_part, neg_part}
use chainkit.HashMap.{HashMap}
use chainkit.Index.Config.{IndexerConfig}
use chainkit.Index.LiveLoop.{
  IndexerState, idle, backfilling, live, reorg_recovery, stopping, stopped, error,
}

pub record ChainInstance : Type 0 where
  pub config : IndexerConfig
  pub state : IndexerState
  pub head_block : ℕ
  pub events_processed : ℕ
  pub last_error : Option String
  pub started_at : Option ℤ

pub record MultiChainConfig : Type 0 where
  pub chains : List IndexerConfig
  pub max_concurrent_chains : ℕ
  pub health_check_interval : ℕ
  pub restart_on_error : Bool
  pub restart_delay : ℕ

pub record ChainHealth : Type 0 where
  pub chain : String
  pub state : IndexerState
  pub head_block : ℕ
  pub events_processed : ℕ
  pub block_lag : ℕ
  pub uptime : ℕ
  pub last_error : Option String
  pub is_healthy : Bool

pub record MultiChainCoordinator : Type 0 where
  pub config : MultiChainConfig
  pub instances : HashMap String ChainInstance
  pub started : ℕ

-- `IndexerState`'s `Display`
abbrev pub display_state : IndexerState → String
display_state idle = "idle"
display_state backfilling = "backfilling"
display_state live = "live"
display_state reorg_recovery = "reorg-recovery"
display_state stopping = "stopping"
display_state stopped = "stopped"
display_state error = "error"

-- `MultiChainConfig::default`, in seconds
abbrev pub default_config : MultiChainConfig
default_config = record {
  chains = [];
  max_concurrent_chains = 0;
  health_check_interval = 30;
  restart_on_error = true;
  restart_delay = 5;
}

-- the first chain whose id was seen before
unfoldable pub duplicate : List String → List IndexerConfig → Option String
duplicate seen [] = none
duplicate seen (c ∷ cs) =
    if count (λ i. i == c.id) seen == 0 then duplicate (c.id ∷ seen) cs else some c.id

unfoldable pub validate : MultiChainConfig → Option String
unfolding duplicate
validate c =
    if c.health_check_interval == 0
    then some "health_check_interval must be non-zero"
    else elim (duplicate [] c.chains) [
      | none ↦ none
      | some id ↦ some (concat "duplicate chain id '" (concat id "'"))
    ]

-- `ChainInstance::new`
unfoldable pub instance_of : IndexerConfig → ChainInstance
instance_of config = record {
  config = config;
  state = idle;
  head_block = 0;
  events_processed = 0;
  last_error = none;
  started_at = none;
}

abbrev pub active_state : IndexerState → Bool
active_state backfilling = true
active_state live = true
active_state reorg_recovery = true
active_state _ = false

abbrev pub is_active : ChainInstance → Bool
is_active i = active_state i.state

abbrev pub is_error_state : IndexerState → Bool
is_error_state error = true
is_error_state _ = false

abbrev pub is_error : ChainInstance → Bool
is_error i = is_error_state i.state

abbrev pub has_none {ℓ} : {A : Type ℓ} → Option A → Bool
has_none none = true
has_none (some a) = false

unfoldable pub transition : ChainInstance → IndexerState → Option String → ChainInstance
transition i new_state message =
    if is_error_state new_state
    then record i { state = new_state; last_error = message }
    else if has_none message
    then record i { state = new_state; last_error = none }
    else record i { state = new_state }

-- `now_secs.saturating_sub(s).max(0)`
abbrev seconds_since : ℤ → ℤ → ℕ
seconds_since now s =
    min (pos_part now + neg_part s - (pos_part s + neg_part now)) 9223372036854775807

-- `is_active() && last_error.is_none()`
abbrev pub is_healthy : ChainInstance → Bool
is_healthy i = is_active i && has_none i.last_error

unfoldable pub from_instance : ChainInstance → ℤ → ChainHealth
from_instance i now = record {
  chain = i.config.id;
  state = i.state;
  head_block = i.head_block;
  events_processed = i.events_processed;
  block_lag = 0;
  uptime = elim i.started_at [ none ↦ 0 | some s ↦ seconds_since now s ];
  last_error = i.last_error;
  is_healthy = is_healthy i;
}
