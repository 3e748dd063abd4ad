-- ===== src/Index/Trace/Paths.antt =====
-- The traces of a tree of calls, by the way from the root to each of them.
use chainkit.Prelude.{
  Bool, List, String, [], ap, arith, false, length, length-append, refl, suc, sym, u32, ℕ, ◌++◌,
  ◌+◌, ◌||◌, ◌∙◌, ◌∷◌, ◌≡◌, ◌≤◌,
}
use mathlib.Core.List.{append-nil, append_assoc}
use chainkit.Index.Trace.{
  CallTrace, Fields, CallNode, node, Calls, nil, cons, is_some, trace_of, flatten_geth_call,
  flatten_calls,
}

-- The calls of a tree, each before those that it makes, with the calls that it stands under, the nearest
-- first.
unfoldable mutual
  pub paths : List Fields → CallNode → List (Fields × List Fields)
  paths up (node f calls) = (f, up) ∷ paths_calls (f ∷ up) calls

  pub paths_calls : List Fields → Calls → List (Fields × List Fields)
  paths_calls up nil = []
  paths_calls up (cons child rest) = paths up child ++ paths_calls up rest

-- whether one of the calls has failed
abbrev pub fails : List Fields → Bool
fails [] = false
fails (f ∷ up) = fails up || is_some f.error

module _ (lower upper : String → String) (block_number : ℕ) (tx_hash : String) (tx_index : ℕ) where
  -- the traces of calls, numbered from a number on
  abbrev pub numbered : ℕ → List (Fields × List Fields) → List CallTrace
  numbered i [] = []
  numbered i (p ∷ ps) =
      trace_of lower upper block_number tx_hash tx_index p.0 (length p.1) (fails (p.0 ∷ p.1)) i
      ∷ numbered (i + 1) ps

  numbered-append :
      (i : ℕ) (ps qs : List (Fields × List Fields))
      → numbered i (ps ++ qs) ≡ numbered i ps ++ numbered (i + length ps) qs
  numbered-append i [] qs = ap (λ n. numbered n qs) (omega arith)
  numbered-append i (p ∷ ps) qs =
      let e : i + 1 + length ps ≡ i + suc (length ps) = omega arith in
      rw (numbered-append (i + 1) ps qs, e) refl

  same_pair :
      (i j : ℕ) (xs ys : List CallTrace)
      → i ≡ j
      → xs ≡ ys
      → ◌≡◌ {A = ℕ × List CallTrace} (i, xs) (j, ys)
  same_pair i j xs ys e f = cc

  mutual
    unfolding flatten_geth_call flatten_calls paths paths_calls

    flatten-paths :
        (n : CallNode) (up : List Fields) (i : ℕ) (out : List CallTrace)
        → length up + length (paths up n) ≤ 4294967295
        → i + length (paths up n) ≤ 4294967295
        → flatten_geth_call lower upper block_number tx_hash tx_index n (length up) (fails up) i out
          ≡ (i + length (paths up n), out ++ numbered i (paths up n))
    flatten-paths (node f calls) up i out h k =
        let t =
          trace_of lower upper block_number tx_hash tx_index f (length up) (fails (f ∷ up)) i in
        let below = paths_calls (f ∷ up) calls in
        let depth : u32 (length up + 1) ≡ length (f ∷ up) = omega arith in
        let index : u32 (i + 1) ≡ i + 1 = omega arith in
        rw (depth, index)
          (flatten_calls-paths calls (f ∷ up) (i + 1) (out ++ t ∷ []) (omega arith) (omega arith)
            ∙ same_pair _ _ _ _ (omega arith) (append_assoc out (t ∷ []) (numbered (i + 1) below)))

    flatten_calls-paths :
        (c : Calls) (up : List Fields) (i : ℕ) (out : List CallTrace)
        → length up + length (paths_calls up c) ≤ 4294967295
        → i + length (paths_calls up c) ≤ 4294967295
        → flatten_calls lower upper block_number tx_hash tx_index c (length up) (fails up) i out
          ≡ (i + length (paths_calls up c), out ++ numbered i (paths_calls up c))
    flatten_calls-paths nil up i out h k = same_pair _ _ _ _ (omega arith) (sym (append-nil out))
    flatten_calls-paths (cons child rest) up i out h k =
        let ps = paths up child in
        let qs = paths_calls up rest in
        let n = length-append ps qs in
        rw (flatten-paths child up i out (omega arith) (omega arith)) (
          flatten_calls-paths rest up (i + length ps) (out ++ numbered i ps) (omega arith)
            (omega arith)
          ∙ same_pair _ _ _ _ (omega arith) (
              append_assoc out (numbered i ps) (numbered (i + length ps) qs)
              ∙ ap (λ l. out ++ l) (sym (numbered-append i ps qs))))

  -- The traces of a transaction whose tree has fewer nodes than there are words of 32 bits are those of
  -- its calls, each before the calls that it makes, numbered from 0 without a gap: the depth of a trace is
  -- the number of the calls that it stands under, and it counts as reverted exactly where it or one of
  -- those has failed.
  pub flatten_geth_call_lem :
      (n : CallNode)
      → length (paths [] n) ≤ 4294967295
      → flatten_geth_call lower upper block_number tx_hash tx_index n 0 false 0 []
        ≡ (length (paths [] n), numbered 0 (paths [] n))
  flatten_geth_call_lem n h =
      flatten-paths n [] 0 [] (omega arith) (omega arith) ∙ same_pair _ _ _ _ (omega arith) refl
