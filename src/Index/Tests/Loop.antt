-- ===== src/Index/Tests/Loop.antt =====
-- The live loop against a node that replaced the only block that the tracker holds.
use chainkit.Prelude.{String, [], arith, err, false, length, none, ok, refl, some, ℕ, ◌+◌, ◌∷◌, ◌≡◌}
use chainkit.Prelude.Int.{pos}
use chainkit.Index.Block.{Block, extends}
use chainkit.Index.Checkpoint.{MemoryCheckpoints, memory_store, CheckpointManager}
use chainkit.Index.Tracker.{Tracker, head, push, find_reorg_depth}
use chainkit.Index.Tracker.Window.{IsValid}
use chainkit.Index.Error.{other}
use chainkit.Index.LiveLoop.{reorg_recovery, IndexLoop, Environment, live, recover, poll, live_loop}
use chainkit.Index.LiveLoop.Recovery.{recovery_keeps_one_more}
use chainkit.Index.LiveLoop.Polls.{poll-IsValid, live_loop-IsValid}
use chainkit.Index.LiveLoop.Stuck.{Replaced, live_loop_stuck}

abbrev block : ℕ → String → String → Block
block number hash parent = record {
  number = number;
  hash = hash;
  parent_hash = parent;
  timestamp = pos 0;
  tx_count = 0;
}

abbrev three : Tracker
three = record {
  window = block 10 "a" "z" ∷ block 11 "b" "a" ∷ block 12 "c" "b" ∷ [];
  window_size = 128;
}

three-IsValid : IsValid three
unfolding extends
three-IsValid = record { linked = (refl, (refl, tt)); bounded = omega arith }

three_refuses : push three (block 13 "d'" "c'") ≡ (err 3, three)
unfolding push extends find_reorg_depth
three_refuses = refl

recovery_keeps_one_more_example : length (recover three (block 13 "d'" "c'") 3).window + 3 ≡ 3 + 1
recovery_keeps_one_more_example =
    recovery_keeps_one_more three (block 12 "c" "b") (block 13 "d'" "c'") 3 three-IsValid
      (omega arith) (unfold head in refl) refl three_refuses

abbrev manager : CheckpointManager MemoryCheckpoints
manager = record {
  store = [];
  chain_id = "ethereum";
  indexer_id = "usdc";
  save_interval = 100;
  counter = 0;
}

abbrev loop : IndexLoop MemoryCheckpoints
loop = record {
  confirmation_depth = 2;
  to_block = none;
  tracker = record { window = block 10 "a" "z" ∷ []; window_size = 128 };
  checkpoint = manager;
  state = live;
}

-- A node whose block 11 has a parent that is not "a".
abbrev environment : Environment ℕ
environment = record {
  node = record {
    head_block_number = ok 15;
    block = λ n. ok (some (block n "x'" "a'"));
    logs = λ n. ok [];
    is_removed = λ log. false;
  };
  handlers = record {
    dispatch_reorg = λ dropped b. ok tt;
    dispatch_block = λ b. ok tt;
    dispatch_event = λ log b. ok tt;
  };
  now = pos 0;
}

loop-IsValid : IsValid loop.tracker
loop-IsValid = record { linked = tt; bounded = omega arith }

poll-IsValid_example :
    IsValid (poll memory_store environment.node environment.handlers loop (pos 0)).1.tracker
poll-IsValid_example =
    poll-IsValid memory_store environment.node environment.handlers loop (pos 0) loop-IsValid

live_loop-IsValid_example :
    IsValid (live_loop memory_store loop (environment ∷ environment ∷ [])).1.tracker
live_loop-IsValid_example =
    live_loop-IsValid memory_store loop (environment ∷ environment ∷ []) loop-IsValid

environment-Replaced : Replaced 2 (block 10 "a" "z") environment
environment-Replaced = record {
  number = 15;
  block = block 11 "x'" "a'";
  tip = refl;
  due = omega arith;
  found = refl;
  next = refl;
  foreign = refl;
}

-- The same, with handlers that fail.
abbrev failing : Environment ℕ
failing = record environment {
  handlers = record {
    dispatch_reorg = λ dropped b. err (other "stop");
    dispatch_block = λ b. ok tt;
    dispatch_event = λ log b. ok tt;
  };
}

failing-Replaced : Replaced 2 (block 10 "a" "z") failing
failing-Replaced = record {
  number = 15;
  block = block 11 "x'" "a'";
  tip = refl;
  due = omega arith;
  found = refl;
  next = refl;
  foreign = refl;
}

live_loop_stuck_example :
    live_loop memory_store loop (environment ∷ environment ∷ failing ∷ [])
    ≡ (err (other "stop"), record loop { state = reorg_recovery })
live_loop_stuck_example =
    live_loop_stuck memory_store loop (block 10 "a" "z") (environment ∷ environment ∷ failing ∷ [])
      refl (omega arith) refl (environment-Replaced, (environment-Replaced, (failing-Replaced, tt)))
