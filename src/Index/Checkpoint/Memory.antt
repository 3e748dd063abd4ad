-- ===== src/Index/Checkpoint/Memory.antt =====
-- The in-memory checkpoint store and its keys.
use Prim.Native.String.{◌++◌ as concat}
use text.Mathlib.TextLemmas.{append_assoc}
use chainkit.Prelude.{
  String, arith, beq_refl, if◌then◌else◌, none, ok, some, ◌==◌, ◌≡◌, nat_eq, string_eq, pair_eq,
}
use chainkit.HashMap.Laws.{get-insert, get-remove}
use chainkit.Index.Checkpoint.{
  Checkpoint, MemoryCheckpoints, key, memory_load, memory_save, memory_delete,
}

-- A load after a save: the saved checkpoint under its own key, what was there under any other.
memory_load-save :
    (m : MemoryCheckpoints) (cp : Checkpoint) (chain indexer : String)
    → memory_load (memory_save m cp).1 chain indexer ≡ (
        if key cp.chain_id cp.indexer_id == key chain indexer
        then ok (some cp)
        else memory_load m chain indexer)
unfolding memory_load memory_save
memory_load-save m cp chain indexer = rw get-insert (ground arith)

-- A load after a delete finds nothing under that key, and what was there under any other.
pub memory_load-delete :
    (m : MemoryCheckpoints) (c i chain indexer : String)
    → memory_load (memory_delete m c i).1 chain indexer
      ≡ (if key c i == key chain indexer then ok none else memory_load m chain indexer)
unfolding memory_load memory_delete
memory_load-delete m c i chain indexer = rw get-remove (ground arith)

-- The separator of the key may stand in its parts: the checkpoint of indexer `b:c` of chain `a` is
-- what chain `a:b` loads for its indexer `c`.
pub memory_load-collision :
    (m : MemoryCheckpoints) (cp : Checkpoint) (a b c : String)
    → cp.chain_id ≡ a
    → cp.indexer_id ≡ concat b (concat ":" c)
    → memory_load (memory_save m cp).1 (concat a (concat ":" b)) c ≡ ok (some cp)
unfolding key
memory_load-collision m cp a b c p q =
    let same : key cp.chain_id cp.indexer_id ≡ key (concat a (concat ":" b)) c =
      rw (p, q, key) (rw (append_assoc, append_assoc)) in
    rw (memory_load-save, same, beq_refl (key (concat a (concat ":" b)) c))
