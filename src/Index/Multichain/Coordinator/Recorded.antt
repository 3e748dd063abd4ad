-- ===== src/Index/Multichain/Coordinator/Recorded.antt =====
-- What the blocks that are recorded for a chain, in any order, make of its instance.
use chainkit.Prelude.{
  List, String, [], ap, arith, if◌then◌else◌, ltb, refl, some, u64, u64_max, ℕ, ◌+◌, ◌∙◌, ◌∷◌, ◌≡◌,
  ◌≤◌, nat_eq, string_eq, pair_eq,
}
use Prim.Native.Nat.{max}
use chainkit.HashMap.Laws.{get-insert}
use chainkit.Index.Multichain.{ChainInstance, MultiChainCoordinator}
use chainkit.Index.Multichain.Coordinator.{
  record_block, recorded, with_instance, settle, chain_state,
}

-- the blocks, each with the number of its events
abbrev pub record_all : MultiChainCoordinator → String → List (ℕ × ℕ) → MultiChainCoordinator
record_all c id [] = c
record_all c id (b ∷ bs) = record_all (record_block c id b.0 b.1).1 id bs

abbrev pub highest : ℕ → List (ℕ × ℕ) → ℕ
highest n [] = n
highest n (b ∷ bs) = highest (max n b.0) bs

abbrev pub events_of : List (ℕ × ℕ) → ℕ
events_of [] = 0
events_of (b ∷ bs) = b.1 + events_of bs

recorded-block :
    (c : MultiChainCoordinator) (id : String) (i : ChainInstance) (number events : ℕ)
    → chain_state c id ≡ some i
    → chain_state (record_block c id number events).1 id ≡ some (recorded number events i)
unfolding chain_state record_block with_instance settle
recorded-block c id i number events h =
    rw (h, settle)
      (get-insert c.instances id id (recorded number events i)
        ∙ rw ((string_eq.same_iff id id).1 refl) refl)

-- The blocks that are recorded for a registered chain leave its head at the highest of them and of
-- what it was, and add all their events, as a word; the rest of the instance stays.
pub record_all_lem :
    (c : MultiChainCoordinator) (id : String) (i : ChainInstance) (blocks : List (ℕ × ℕ))
    → chain_state c id ≡ some i
    → i.events_processed ≤ u64_max
    → chain_state (record_all c id blocks) id
      ≡ some (record i {
        head_block = highest i.head_block blocks;
        events_processed = u64 (i.events_processed + events_of blocks);
      })
unfolding recorded
record_all_lem c id i [] h w =
    h
    ∙ ap (λ n. some (record i { head_block = i.head_block; events_processed = n }))
        (omega (arith, w))
record_all_lem c id i (b ∷ bs) h w =
    let next : ChainInstance = recorded b.0 b.1 i in
    let head : (if ltb i.head_block b.0 then b.0 else i.head_block) ≡ max i.head_block b.0 =
      ground arith in
    let sum : u64 (u64 (i.events_processed + b.1) + events_of bs)
        ≡ u64 (i.events_processed + (b.1 + events_of bs)) =
      omega arith in
    record_all_lem (record_block c id b.0 b.1).1 id next bs (recorded-block c id i b.0 b.1 h)
      (omega arith)
    ∙ ap
        (λ n. some (record i {
          head_block = highest n bs;
          events_processed = u64 (u64 (i.events_processed + b.1) + events_of bs);
        }))
        head
    ∙ ap
        (λ n.
          some (record i { head_block = highest (max i.head_block b.0) bs; events_processed = n }))
        sum
