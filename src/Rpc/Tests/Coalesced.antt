-- ===== src/Rpc/Tests/Coalesced.antt =====
-- Two calls with the key 7, of which the first one asks the inner transport.
use chainkit.Prelude.{
  List, [], count, get_elem?, length, none, ok, refl, some, ℕ, ◌++◌, ◌∷◌, ◌≡◌, ◌≤◌, nat_eq,
  string_eq, pair_eq,
}
use chainkit.HashMap
use chainkit.Rpc.Request.{JsonRpcResponse, number}
use chainkit.Rpc.Dedup
use chainkit.Rpc.Dedup.{
  Channel, empty, closed, Found, no_change, no_sender, a_result, Outside, Step, looks, enters,
  wakes, answers, cleans, drops, step, run, new, asking, returned, sender_dropped, look, enter,
  wake, answer, clean,
}
use chainkit.Rpc.Dedup.Single.{holds, asked_once}
use chainkit.Rpc.Dedup.Lost.{dropped_for_good}

abbrev read : Channel ℕ → Found ℕ
read empty = no_change
read closed = no_sender
read (Dedup.sent result) = a_result result

abbrev outside : Outside ℕ
outside = record { display = λ e. "error"; read = read }

abbrev two_calls : List (Step ℕ)
two_calls = looks 7 ∷ looks 7 ∷ enters 1 ∷ enters 0 ∷ []

asked_once_example :
    (count (holds 7) (run outside new two_calls).tasks ≤ 1)
    × (HashMap.get (run outside new two_calls).pending 7 ≡ none
        → count (holds 7) (run outside new two_calls).tasks ≡ 0)
asked_once_example = asked_once outside two_calls 7

response : JsonRpcResponse ℕ
response = record { jsonrpc = "2.0"; id = number 1; result = some 5; error = none }

-- Both calls return the answer, and the entry is taken away.
both_return :
    run outside new (two_calls ++ answers 1 (ok response) ∷ wakes 0 ∷ cleans 1 ∷ []) ≡ record {
      pending = [];
      channels = Dedup.sent (ok response) ∷ [];
      tasks = returned (ok response) ∷ returned (ok response) ∷ [];
    }
unfolding step look enter answer wake clean HashMap.get HashMap.insert HashMap.remove
both_return = refl

second_asks : get_elem? (run outside new two_calls).tasks 1 ≡ some (asking 7 0)
unfolding step look enter HashMap.get HashMap.insert
second_asks = refl

dropped_for_good_example :
    let d =
      run outside (step outside (run outside new two_calls) (drops 1)) (looks 9 ∷ wakes 0 ∷ []) in
    (HashMap.get d.pending 7 ≡ some 0)
    × (count (holds 7) d.tasks ≡ 0)
    × (get_elem? (run outside d (looks 7 ∷ wakes (length d.tasks) ∷ [])).tasks (length d.tasks)
        ≡ some (returned sender_dropped))
dropped_for_good_example =
    dropped_for_good outside refl two_calls (looks 9 ∷ wakes 0 ∷ []) 1 7 0 second_asks
