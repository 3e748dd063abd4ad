-- ===== src/Index/Tests/Reloads.antt =====
-- Two versions of a configuration, and the calls of a transaction.
use chainkit.Prelude.{
  List, Option, String, [], arith, false, length, none, refl, some, ℕ, ◌++◌, ◌+◌, ◌↔◌, ◌∷◌, ◌≡◌,
  nat_eq, string_eq, pair_eq,
}
use chainkit.Prelude.Int.{ℤ, pos}
use chainkit.HashMap
use chainkit.HashMap.{HashMap}
use chainkit.Index.HotReload.{Watch, ManagedConfig, ReloadRecord, new_config}
use chainkit.Index.HotReload.Config.{ToValue, diff_configs}
use chainkit.Index.Config.{IndexerConfig}
use chainkit.Index.HotReload.Diffs.{diff_configs_iff}
use chainkit.Index.HotReload.Updates.{run, run_keeps, send_all, Numbered}
use chainkit.Index.Trace.{Fields, CallNode, node, nil, cons, flatten_geth_call}
use chainkit.Index.Trace.Paths.{paths, paths_calls, numbered, flatten_geth_call_lem}

abbrev config : ℕ → IndexerConfig
config batch_size = record {
  id = "usdc";
  chain = "ethereum";
  from_block = 5;
  to_block = none;
  confirmation_depth = 12;
  batch_size = batch_size;
  checkpoint_interval = 100;
  poll_interval_ms = 2000;
  filter = record { addresses = []; topic0_values = []; from_block = none; to_block = none };
}

abbrev json : ToValue ℕ
json = record { text = λ s. 0; number = λ n. n; option = λ o. 0; texts = λ ss. length ss }

diff_configs_iff_example : (diff_configs json (config 7) (config 8) ≡ []) ↔ (config 7 ≡ config 8)
diff_configs_iff_example = diff_configs_iff json (config 7) (config 8)

abbrev message : String → IndexerConfig → IndexerConfig → String
message field old new = field

-- what was sent, the last one first
abbrev watch : Watch (List ℕ)
watch = record { channel = λ v. v ∷ []; send = λ vs v. v ∷ vs }

abbrev managed : ManagedConfig ℕ (List ℕ)
managed = record { config = new_config (config 7) (pos 0); sender = 1 ∷ []; history = [] }

abbrev configs : HashMap String (ManagedConfig ℕ (List ℕ))
configs = ("usdc", managed) ∷ []

abbrev updates : List (String × IndexerConfig × ℤ)
updates = ("usdc", config 8, pos 1) ∷ ("dai", config 9, pos 2) ∷ []

run_keeps_example :
    (n : ManagedConfig ℕ (List ℕ)) × (HashMap.get (run watch json message configs updates) "usdc"
      ≡ some n)
    × (n.config.inner.chain ≡ managed.config.inner.chain)
    × (n.config.inner.from_block ≡ managed.config.inner.from_block)
    × (added : List (ReloadRecord ℕ)) × (n.history ≡ [] ++ added)
    × (n.config.version ≡ managed.config.version + length added)
    × Numbered watch json message managed.config.version added
    × (n.sender ≡ send_all watch json message (1 ∷ []) added)
run_keeps_example =
    run_keeps watch json message configs "usdc" managed updates (unfold HashMap.get in refl)
      (unfold new_config in omega arith)

-- A call that fails, and two calls that it makes.
abbrev fields : Option String → Fields
fields error = record {
  call_type = some "CALL";
  sender = some "0xa";
  to = some "0xb";
  value = none;
  gas_used = some "0x10";
  input = some "0x";
  output = none;
  error = error;
}

abbrev tree : CallNode
tree =
    node (fields (some "out of gas"))
      (cons (node (fields none) nil) (cons (node (fields none) nil) nil))

three_calls : length (paths [] tree) ≡ 3
unfolding paths paths_calls
three_calls = refl

flatten_geth_call_lem_example :
    flatten_geth_call (λ s. s) (λ s. s) 10 "0x1" 0 tree 0 false 0 []
    ≡ (length (paths [] tree), numbered (λ s. s) (λ s. s) 10 "0x1" 0 0 (paths [] tree))
flatten_geth_call_lem_example =
    flatten_geth_call_lem (λ s. s) (λ s. s) 10 "0x1" 0 tree (omega (arith, three_calls))
