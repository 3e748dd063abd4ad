-- ===== src/Rpc/TxLifecycle/Senders.antt =====
-- The nonces that a search for stuck transactions leaves.
use chainkit.Prelude.{
  Bool, Bool-cases, List, Option, Option-cases, Result, String, [], ap, arith, contains, false,
  if◌then◌else◌, inl, inr, none, not, refl, some, sym, true, u64, ℕ, ◌&&◌, ◌+◌, ◌==◌, ◌||◌, ◌∙◌,
  ◌∷◌, ◌≡◌, nat_eq, string_eq, pair_eq,
}
use chainkit.HashMap
use chainkit.HashMap.Laws.{get-insert}
use chainkit.Rpc.Error.{TransportError}
use chainkit.Rpc.Request.{Value, JsonRpcResponse}
use chainkit.Rpc.Transactions.{TxTracker, TrackedTx, next_nonce, set_nonce, stuck}
use chainkit.Rpc.TxLifecycle.{count_of, refresh_senders, detect_stuck}

-- whether a transaction of the sender is in the list
abbrev pub sends : String → List TrackedTx → Bool
sends a [] = false
sends a (tx ∷ txs) = (tx.sender == a) || sends a txs

module _ {J : Type 0} (ops : Value J)
    (reply : String → Result (JsonRpcResponse J) (TransportError J)) where
  -- the nonce of an address that was asked for
  abbrev asked : Option ℕ → String → Option ℕ
  asked old a = elim (count_of ops (reply a)) [ none ↦ old | some n ↦ some n ]

  same_sender : (tx : TrackedTx) (a : String) → (tx.sender == a) ≡ true → tx.sender ≡ a
  same_sender tx a e = (string_eq.same_iff tx.sender a).0 e

  seen_before :
      (tx : TrackedTx) (txs : List TrackedTx) (seen : List String) (a : String) (u v : Option ℕ)
      → contains seen tx.sender ≡ true
      → (if sends a txs && not (contains seen a) then u else v)
        ≡ (if sends a (tx ∷ txs) && not (contains seen a) then u else v)
  seen_before tx txs seen a u v x = elim (Bool-cases (tx.sender == a)) [
    | inr e ↦ ground (arith, e)
    | inl e ↦
        let there : contains seen a ≡ true = ap (contains seen) (sym (same_sender tx a e)) ∙ x in
        ground (arith, e, there)
  ]

  no_answer :
      (tx : TrackedTx) (txs : List TrackedTx) (seen : List String) (t : TxTracker) (a : String)
      → contains seen tx.sender ≡ false
      → count_of ops (reply tx.sender) ≡ none
      → (if sends a txs && not (contains (tx.sender ∷ seen) a)
          then asked (HashMap.get t.nonce_tracker a) a
          else HashMap.get t.nonce_tracker a)
        ≡ (if sends a (tx ∷ txs) && not (contains seen a)
            then asked (HashMap.get t.nonce_tracker a) a
            else HashMap.get t.nonce_tracker a)
  no_answer tx txs seen t a x y = elim (Bool-cases (tx.sender == a)) [
    | inr e ↦ ground (arith, e)
    | inl e ↦
        let f : count_of ops (reply a) ≡ none =
          ap (λ s. count_of ops (reply s)) (sym (same_sender tx a e)) ∙ y in
        ground (arith, e, f)
  ]

  an_answer :
      (tx : TrackedTx) (txs : List TrackedTx) (seen : List String) (t : TxTracker) (a : String)
      (n : ℕ)
      → contains seen tx.sender ≡ false
      → count_of ops (reply tx.sender) ≡ some n
      → (if sends a txs && not (contains (tx.sender ∷ seen) a)
          then asked (HashMap.get (set_nonce t tx.sender n).nonce_tracker a) a
          else HashMap.get (set_nonce t tx.sender n).nonce_tracker a)
        ≡ (if sends a (tx ∷ txs) && not (contains seen a)
            then asked (HashMap.get t.nonce_tracker a) a
            else HashMap.get t.nonce_tracker a)
  unfolding set_nonce
  an_answer tx txs seen t a n x y = elim (Bool-cases (tx.sender == a)) [
    | inr e ↦ ground (arith, e, get-insert t.nonce_tracker tx.sender a n)
    | inl e ↦
        let f : count_of ops (reply a) ≡ some n =
          ap (λ s. count_of ops (reply s)) (sym (same_sender tx a e)) ∙ y in
        let c : contains seen a ≡ false = ap (contains seen) (sym (same_sender tx a e)) ∙ x in
        ground (arith, e, f, c, get-insert t.nonce_tracker tx.sender a n)
  ]

  refresh_senders-nonce :
      (txs : List TrackedTx) (seen : List String) (t : TxTracker) (a : String)
      → (HashMap.get (refresh_senders ops reply txs seen t).nonce_tracker a ≡ (
          if sends a txs && not (contains seen a)
          then asked (HashMap.get t.nonce_tracker a) a
          else HashMap.get t.nonce_tracker a))
        × ((refresh_senders ops reply txs seen t).transactions ≡ t.transactions)
  unfolding refresh_senders set_nonce
  refresh_senders-nonce [] seen t a = (refl, refl)
  refresh_senders-nonce (tx ∷ txs) seen t a = elim (Bool-cases (contains seen tx.sender)) [
    | inl x ↦
        let (ih, same) = refresh_senders-nonce txs seen t a in
        rw (refresh_senders, x) (ih ∙ seen_before tx txs seen a _ _ x, same)
    | inr x ↦ elim (Option-cases (count_of ops (reply tx.sender))) [
      | inl y ↦
          let (ih, same) = refresh_senders-nonce txs (tx.sender ∷ seen) t a in
          rw (refresh_senders, x, y) (ih ∙ no_answer tx txs seen t a x y, same)
      | inr (n, y) ↦
          let (ih, same) =
            refresh_senders-nonce txs (tx.sender ∷ seen) (set_nonce t tx.sender n) a in
          rw (refresh_senders, x, y) (ih ∙ an_answer tx txs seen t a n x y, same)
    ]
  ]

  -- The search returns the stuck transactions and changes none. For the sender of one that the node
  -- answers a count for, the next nonce is one above the count; for any other address it is as before.
  pub detect_stuck_lem :
      (t : TxTracker) (now : ℕ) (a : String)
      → ((detect_stuck ops reply t now).0 ≡ stuck t now)
        × ((detect_stuck ops reply t now).1.transactions ≡ t.transactions)
        × (next_nonce (detect_stuck ops reply t now).1 a ≡ (
            if sends a (stuck t now)
            then elim (count_of ops (reply a)) [
              | none ↦ next_nonce t a
              | some n ↦ some (u64 (n + 1))
            ]
            else next_nonce t a))
  unfolding detect_stuck next_nonce
  detect_stuck_lem t now a =
      let (nonce, same) = refresh_senders-nonce (stuck t now) [] t a in
      (refl, same, ground (arith, nonce))
