-- ===== src/Index/Tests/Chains.antt =====
-- A coordinator of two chains.
use chainkit.Prelude.{List, String, [], none, ◌∷◌}
use chainkit.Prelude.Int.{pos}
use chainkit.Index.LiveLoop.{live}
use chainkit.Index.Multichain.{MultiChainConfig, MultiChainCoordinator, default_config}
use chainkit.Index.Config.{IndexerConfig}
use chainkit.Index.Multichain.Coordinator
use chainkit.Index.Multichain.Coordinator.{chain_state}
use chainkit.Index.Multichain.Coordinator.Lifecycle.{
  Operation, adds, pauses, resumes, updates, records, apply, allowed, Settles, apply-Settles,
}
use chainkit.Index.Multichain.Coordinator.Started.{run, AllSound, run-AllSound}

abbrev indexer : String → IndexerConfig
indexer id = record {
  id = id;
  chain = "ethereum";
  from_block = 0;
  to_block = none;
  confirmation_depth = 12;
  batch_size = 1000;
  checkpoint_interval = 100;
  poll_interval_ms = 2000;
  filter = record { addresses = []; topic0_values = []; from_block = none; to_block = none };
}

abbrev two_chains : MultiChainConfig
two_chains = record default_config { chains = indexer "eth" ∷ indexer "arb" ∷ [] }

abbrev coordinator : MultiChainCoordinator
coordinator = Coordinator.new two_chains 0

apply-Settles_example :
    Settles "eth"
      (allowed (pauses "eth") (chain_state coordinator "eth"))
      coordinator
      (apply (pauses "eth") coordinator)
apply-Settles_example = apply-Settles (pauses "eth") coordinator

abbrev operations : List Operation
operations =
    resumes "eth" (pos 9)
    ∷ updates "arb" live none (pos 10)
    ∷ records "eth" 7 2
    ∷ pauses "eth"
    ∷ adds (indexer "base")
    ∷ []

run-AllSound_example : AllSound (run operations (Coordinator.new two_chains 0)).instances
run-AllSound_example = run-AllSound two_chains 0 operations
