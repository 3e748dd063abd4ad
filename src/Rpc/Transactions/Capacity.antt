-- ===== src/Rpc/Transactions/Capacity.antt =====
-- The tracker under any sequence of calls.
use chainkit.Prelude.{
  All, Bool-cases, List, Option, Option-cases, String, [], arith, false, if◌then◌else◌, inl, inr,
  leb, length, none, refl, some, ℕ, ◌==◌, ◌∙◌, ◌∷◌, ◌≡◌, ◌≤◌, nat_eq, string_eq, pair_eq,
}
use mathlib.Core.Path.{subst}
use chainkit.HashMap
use chainkit.HashMap.{HashMap}
use chainkit.HashMap.Laws.{
  get-insert, get-remove, All-insert, All-remove, get-All, length-insert_le, length-replace,
  length-remove_le,
}
use chainkit.Rpc.Transactions.{
  TxStatus, TrackedTx, TxTrackerConfig, TxTracker, new, track, untrack, update_status, set_nonce,
  get,
}

-- A call that changes the tracker.
pub data Change : Type 0 where
  tracks : TrackedTx → Change
  untracks : String → Change
  updates : String → TxStatus → Change
  sets_nonce : String → ℕ → Change

pub apply : TxTracker → Change → TxTracker
apply t (tracks tx) = track t tx
apply t (untracks tx_hash) = untrack t tx_hash
apply t (updates tx_hash status) = update_status t tx_hash status
apply t (sets_nonce address nonce) = set_nonce t address nonce

pub run_changes : TxTracker → List Change → TxTracker
run_changes t [] = t
run_changes t (e ∷ es) = run_changes (apply t e) es

-- The tracker is within its capacity, and every transaction stands under its own hash.
pub record IsValid (t : TxTracker) : Type 0 where
  pub bounded : length t.transactions ≤ t.config.max_tracked
  pub keyed : All (λ b. b.1.tx_hash ≡ b.0) t.transactions

track-IsValid : (t : TxTracker) (tx : TrackedTx) → IsValid t → IsValid (track t tx)
unfolding track
track-IsValid t tx v = elim (Bool-cases (leb t.config.max_tracked (length t.transactions))) [
  | inl e ↦ rw e v
  | inr e ↦ rw e (record {
    bounded = ground (arith, e, v.bounded, length-insert_le t.transactions tx.tx_hash tx);
    keyed = All-insert _ t.transactions tx.tx_hash tx refl v.keyed;
  })
]

update_status-IsValid :
    (t : TxTracker) (tx_hash : String) (status : TxStatus)
    → IsValid t
    → IsValid (update_status t tx_hash status)
unfolding update_status
update_status-IsValid t tx_hash status v =
    elim (Option-cases (HashMap.get t.transactions tx_hash)) [
      | inl e ↦ rw (e, update_status) v
      | inr (tx, e) ↦
          let updated : TrackedTx = record tx { status = status } in
          rw (e, update_status)
            (record {
              bounded =
                  omega (arith, v.bounded, length-replace t.transactions tx_hash updated tx e);
              keyed =
                  All-insert _ t.transactions tx_hash updated
                    (get-All _ t.transactions tx_hash tx v.keyed e) v.keyed;
            })
    ]

apply-IsValid : (t : TxTracker) (e : Change) → IsValid t → IsValid (apply t e)
unfolding apply untrack set_nonce
apply-IsValid t (tracks tx) v = track-IsValid t tx v
apply-IsValid t (untracks tx_hash) v = record {
  bounded = omega (arith, v.bounded, length-remove_le t.transactions tx_hash);
  keyed = All-remove _ t.transactions tx_hash v.keyed;
}
apply-IsValid t (updates tx_hash status) v = update_status-IsValid t tx_hash status v
apply-IsValid t (sets_nonce address nonce) v = record { bounded = v.bounded; keyed = v.keyed }

run_from-IsValid : (t : TxTracker) (es : List Change) → IsValid t → IsValid (run_changes t es)
unfolding run_changes
run_from-IsValid t [] v = v
run_from-IsValid t (e ∷ es) v = run_from-IsValid (apply t e) es (apply-IsValid t e v)

-- After any calls from an empty tracker: no more transactions are tracked than the capacity allows,
-- and every transaction stands under its own hash.
run_changes-IsValid :
    (config : TxTrackerConfig) (es : List Change) → IsValid (run_changes (new config) es)
unfolding new
run_changes-IsValid config es =
    run_from-IsValid (new config) es (record { bounded = omega arith; keyed = tt })

-- The transaction under a hash once its status is set.
abbrev pub with_status : Option TrackedTx → TxStatus → Option TrackedTx
with_status none status = none
with_status (some tx) status = some (record tx { status = status })

-- What a lookup finds after a change.
pub found : TxTracker → Change → String → Option TrackedTx
found t (tracks tx) h =
    if leb t.config.max_tracked (length t.transactions)
    then get t h
    else if tx.tx_hash == h
    then some tx
    else get t h
found t (untracks tx_hash) h = if tx_hash == h then none else get t h
found t (updates tx_hash status) h = if tx_hash == h then with_status (get t h) status else get t h
found t (sets_nonce address nonce) h = get t h

update_self :
    (t : TxTracker) (h : String) (status : TxStatus)
    → get (update_status t h status) h ≡ with_status (get t h) status
unfolding update_status get
update_self t h status = elim (Option-cases (HashMap.get t.transactions h)) [
  | inl e ↦ rw (e, update_status) e
  | inr (tx, e) ↦
      rw (e, update_status)
        (get-insert t.transactions h h (record tx { status = status })
          ∙ ground (arith, string_eq.same_iff h h))
]

update_other :
    (t : TxTracker) (tx_hash h : String) (status : TxStatus)
    → (tx_hash == h) ≡ false
    → get (update_status t tx_hash status) h ≡ get t h
unfolding update_status get
update_other t tx_hash h status n = elim (Option-cases (HashMap.get t.transactions tx_hash)) [
  | inl e ↦ rw (e, update_status) refl
  | inr (tx, e) ↦
      rw (e, update_status)
        (get-insert t.transactions tx_hash h (record tx { status = status }) ∙ ground (arith, n))
]

found_updated :
    (t : TxTracker) (tx_hash h : String) (status : TxStatus)
    → get (update_status t tx_hash status) h ≡ found t (updates tx_hash status) h
unfolding found
found_updated t tx_hash h status = elim (Bool-cases (tx_hash == h)) [
  | inl x ↦ rw x (
      subst (λ k. get (update_status t tx_hash status) k ≡ with_status (get t k) status)
        ((string_eq.same_iff tx_hash h).0 x) (update_self t tx_hash status))
  | inr x ↦ rw x (update_other t tx_hash h status x)
]

-- A change is seen by lookups exactly so: a new transaction replaces the one with its hash, and is
-- dropped if the tracker is full, even if its hash is tracked; an update changes the status of the
-- transaction with that hash and nothing else; a removal removes that one; a nonce removes none.
pub get-apply : (t : TxTracker) (e : Change) (h : String) → get (apply t e) h ≡ found t e h
unfolding apply found get track untrack set_nonce
get-apply t (tracks tx) h = ground (arith, get-insert t.transactions tx.tx_hash h tx)
get-apply t (untracks tx_hash) h = get-remove t.transactions tx_hash h
get-apply t (updates tx_hash status) h = found_updated t tx_hash h status
get-apply t (sets_nonce address nonce) h = refl
