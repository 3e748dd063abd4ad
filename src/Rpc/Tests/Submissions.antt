-- ===== src/Rpc/Tests/Submissions.antt =====
-- Nonces of one account.
use chainkit.Prelude.{String, [], arith, false, ◌==◌, ◌∷◌, ◌≡◌, nat_eq, string_eq, pair_eq}
use chainkit.HashMap
use chainkit.Rpc.Nonces.{NonceLedger, next}
use chainkit.Rpc.Nonces.Allocation.{allocate, allocate-eq-range}

abbrev ledger : NonceLedger
ledger = record { confirmed = ("a", 3) ∷ []; pending = ("a", 7) ∷ [] }

allocate-eq-range_example :
    ((allocate 3 ledger "a").0 ≡ 8 ∷ 9 ∷ 10 ∷ [])
    × (next (allocate 3 ledger "a").1 "a" ≡ 11)
    × ((b : String) → ("a" == b) ≡ false → next (allocate 3 ledger "a").1 b ≡ next ledger b)
unfolding HashMap.get next
allocate-eq-range_example = allocate-eq-range 3 ledger "a" (omega arith) (omega arith)
