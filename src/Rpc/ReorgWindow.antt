-- ===== src/Rpc/ReorgWindow.antt =====
-- chainrpc-core/src/reorg.rs: the window of block hashes at the transport layer. What stands behind
-- the locks is one record; a callback is a value of `C`, and a call returns the callbacks it fires.
pub mod Lookup
pub mod Depth
use chainkit.Prelude.{
  Bool, List, Option, String, [], false, filter, if◌then◌else◌, leb, length, ltb, map, none, not,
  some, sub64, true, u64, ℕ, ◌++◌, ◌+◌, ◌-◌, ◌==◌, ◌∷◌, nat_eq, string_eq, pair_eq,
}
use chainkit.HashMap
use chainkit.HashMap.{HashMap}

pub record ReorgConfig : Type 0 where
  pub window_size : ℕ
  pub safe_depth : ℕ
  pub use_finalized_tag : Bool

abbrev pub default_config : ReorgConfig
default_config = record { window_size = 128; safe_depth = 64; use_finalized_tag = true }

pub record ReorgEvent : Type 0 where
  pub fork_block : ℕ
  pub depth : ℕ
  pub old_hash : String
  pub new_hash : String
  pub current_tip : ℕ

pub record ReorgDetector (C : Type 0) : Type 0 where
  pub config : ReorgConfig
  pub window : HashMap ℕ String
  pub last_tip : Option ℕ
  pub callbacks : List C
  pub reorg_history : List ReorgEvent

-- `trim_window_inner`
unfoldable pub trim_window : ReorgConfig → HashMap ℕ String → ℕ → HashMap ℕ String
trim_window config window current_tip =
    if leb config.window_size current_tip
    then filter (λ b. ltb (current_tip - config.window_size) b.0) window
    else window

-- `unwrap_or` on the last tip
abbrev pub tip_or : Option ℕ → ℕ → ℕ
tip_or none n = n
tip_or (some t) n = t

module _ {C : Type 0} where
  unfoldable pub new : ReorgConfig → ReorgDetector C
  new config = record {
    config = config;
    window = [];
    last_tip = none;
    callbacks = [];
    reorg_history = [];
  }

  unfoldable pub on_reorg : ReorgDetector C → C → ReorgDetector C
  on_reorg d callback = record d { callbacks = d.callbacks ++ callback ∷ [] }

  -- insert the block, move the tip and trim
  unfoldable pub store : ReorgDetector C → HashMap ℕ String → ℕ → String → ReorgDetector C
  unfolding trim_window
  store d window number hash = record d {
    window = trim_window d.config (HashMap.insert window number hash) number;
    last_tip = some number;
  }

  -- The difference is one of `u64`, and wraps if the last tip is below the block.
  unfoldable pub event_at : ReorgDetector C → ℕ → String → String → ReorgEvent
  event_at d number stored hash = record {
    fork_block = number;
    depth = u64 (sub64 (tip_or d.last_tip number) number + 1);
    old_hash = stored;
    new_hash = hash;
    current_tip = number;
  }

  -- the branch of a changed hash
  unfoldable pub invalidate :
      ReorgDetector C
      → ℕ
      → String
      → String
      → Option ReorgEvent × List (C × ReorgEvent) × ReorgDetector C
  unfolding store event_at
  invalidate d number stored hash =
      let event = event_at d number stored hash in
      let kept = store d (filter (λ b. not (leb number b.0)) d.window) number hash in
      (
        some event,
        map (λ cb. (cb, event)) d.callbacks,
        record kept { reorg_history = d.reorg_history ++ event ∷ [] },
      )

  -- The event, the callbacks that are fired with it, and the new state.
  unfoldable pub check_block :
      ReorgDetector C → ℕ → String → Option ReorgEvent × List (C × ReorgEvent) × ReorgDetector C
  unfolding invalidate store
  check_block d number hash = elim (HashMap.get d.window number) [
    | none ↦ (none, [], store d d.window number hash)
    | some stored ↦
        if not (stored == hash)
        then invalidate d number stored hash
        else (none, [], store d d.window number hash)
  ]

  unfoldable pub safe_block : ReorgDetector C → Option ℕ
  safe_block d = elim d.last_tip [
    | none ↦ none
    | some t ↦ if ltb t d.config.safe_depth then none else some (t - d.config.safe_depth)
  ]

  unfoldable pub is_block_safe : ReorgDetector C → ℕ → Bool
  unfolding safe_block
  is_block_safe d number = elim (safe_block d) [ none ↦ false | some safe ↦ leb number safe ]

  unfoldable pub window_size : ReorgDetector C → ℕ
  window_size d = length d.window
