-- ===== src/Rpc/GasBumper/Replacement.antt =====
-- What a replacement leaves in the tracker.
use chainkit.Prelude.{
  Bool, Bool-cases, List, Option, Option-cases, Result, Result-cases, String, ap, err,
  if◌then◌else◌, inl, inr, leb, length, none, not, ok, refl, some, unwrap_or, ℕ, ◌&&◌, ◌==◌, ◌∙◌,
  ◌≡◌, ◌⊎◌, nat_eq, string_eq, pair_eq,
}
use chainkit.HashMap.Laws.{get-insert, length-replace}
use chainkit.Rpc.Error.{TransportError, rpc, other}
use chainkit.Rpc.Request.{Value, JsonRpcResponse, JsonRpcError, into_result}
use chainkit.Rpc.Gas.{Floats}
use chainkit.Rpc.Transactions
use chainkit.Rpc.Transactions.{
  TxTracker, TrackedTx, TxStatus, TxTrackerConfig, replaced, pending, track, update_status,
}
use chainkit.Rpc.GasBumper.{
  compute_bump, new_hash, replacement, BumpStrategy, BumpConfig, BumpResult, Texts, bump_and_send,
}

-- a pending transaction in the place of another one, with the fees of a bump
abbrev pub IsReplacement : TrackedTx → BumpResult → TrackedTx → Type 0
IsReplacement old bump new =
    (new.nonce ≡ old.nonce)
    × (new.sender ≡ old.sender)
    × (new.status ≡ pending)
    × (new.max_fee ≡ some bump.new_max_fee)
    × (new.max_priority_fee ≡ some bump.new_max_priority_fee)

update_status-get :
    (t : TxTracker) (h j : String) (s : TxStatus) (tx : TrackedTx)
    → Transactions.get t h ≡ some tx
    → (Transactions.get (update_status t h s) j
        ≡ (if h == j then some (record tx { status = s }) else Transactions.get t j))
      × (length (update_status t h s).transactions ≡ length t.transactions)
      × ((update_status t h s).config ≡ t.config)
unfolding update_status Transactions.get
update_status-get t h j s tx e =
    rw (update_status, e)
      (
        get-insert t.transactions h j (record tx { status = s }),
        length-replace t.transactions h _ tx e,
        refl,
      )

track-get :
    (t : TxTracker) (tx : TrackedTx) (j : String)
    → Transactions.get (track t tx) j ≡ (
        if leb t.config.max_tracked (length t.transactions)
        then Transactions.get t j
        else if tx.tx_hash == j
        then some tx
        else Transactions.get t j)
unfolding track Transactions.get
track-get t tx j = elim (Bool-cases (leb t.config.max_tracked (length t.transactions))) [
  | inl e ↦ rw (track, e) refl
  | inr e ↦ rw (track, e) (get-insert t.transactions tx.tx_hash j tx)
]

module _ {J : Type 0} (ops : Value J) where
  -- an answer of the node that is a hash
  abbrev pub Answers : Result (JsonRpcResponse J) (TransportError J) → String → Type 0
  Answers r h =
      (response : JsonRpcResponse J) × (r ≡ ok response)
      × (response.error ≡ none)
      × (ops.as_str (unwrap_or response.result ops.null) ≡ some h)

  -- an error of the transport or of the node, or an answer that is no text
  abbrev pub Refuses : Result (JsonRpcResponse J) (TransportError J) → TransportError J → Type 0
  Refuses r e =
      (r ≡ err e)
      ⊎ ((response : JsonRpcResponse J) × (r ≡ ok response)
          × (((x : JsonRpcError J) × (response.error ≡ some x) × (e ≡ rpc x))
              ⊎ ((response.error ≡ none)
                  × (ops.as_str (unwrap_or response.result ops.null) ≡ none))))

  into_result-ok :
      (response : JsonRpcResponse J)
      → response.error ≡ none
      → into_result ops response ≡ ok (unwrap_or response.result ops.null)
  unfolding into_result
  into_result-ok response p = elim (Option-cases response.result) [
    | inl q ↦ rw (into_result, p, q) refl
    | inr (v, q) ↦ rw (into_result, p, q) refl
  ]

  into_result-err :
      (response : JsonRpcResponse J) (x : JsonRpcError J)
      → response.error ≡ some x
      → into_result ops response ≡ err x
  unfolding into_result
  into_result-err response x p = rw (into_result, p) refl

  new_hash-cases :
      (r : Result (JsonRpcResponse J) (TransportError J))
      → ((h : String) × (new_hash ops r ≡ ok h) × Answers r h)
        ⊎ ((e : TransportError J) × (new_hash ops r ≡ err e) × Refuses r e)
  unfolding new_hash
  new_hash-cases (err e) = inr (e, refl, inl refl)
  new_hash-cases (ok response) = elim (Option-cases response.error) [
    | inr (x, p) ↦ inr (
      rpc x,
      rw (new_hash, into_result-err response x p) refl,
      inr (response, refl, inl (x, p, refl)),
    )
    | inl p ↦ elim (Option-cases (ops.as_str (unwrap_or response.result ops.null))) [
      | inl q ↦ inr (
        other "eth_sendRawTransaction did not return a hash",
        rw (new_hash, into_result-ok response p, q) refl,
        inr (response, refl, inr (p, q)),
      )
      | inr (h, q) ↦
          inl (h, rw (new_hash, into_result-ok response p, q) refl, (response, refl, p, q))
    ]
  ]

module _ {J : Type 0} (floats : Floats) (texts : Texts) (ops : Value J)
    (submit : String → Result (JsonRpcResponse J) (TransportError J))
    (raw_tx_builder : ℕ → ℕ → ℕ → String) (now : ℕ) (t : TxTracker) (tx_hash : String)
    (strategy : BumpStrategy) (config : BumpConfig) (bump_count : ℕ) (base : Option ℕ)
    (samples : List ℕ) where
  abbrev pub sends : Result BumpResult (TransportError J) × TxTracker
  sends =
      bump_and_send floats texts ops submit raw_tx_builder now t tx_hash strategy config bump_count
        base samples

  -- what the node answers to the raw transaction of a bump
  abbrev pub answer_to : TrackedTx → BumpResult → Result (JsonRpcResponse J) (TransportError J)
  answer_to tx bump = submit (raw_tx_builder tx.nonce bump.new_max_fee bump.new_max_priority_fee)

  -- why a call fails: nothing is tracked under the hash, there is no bump, or the node refuses it
  abbrev pub Fails : TransportError J → Type 0
  Fails e =
      (Transactions.get t tx_hash ≡ none)
      ⊎ ((tx : TrackedTx) × (Transactions.get t tx_hash ≡ some tx)
          × ((compute_bump floats texts {J = J} tx strategy config bump_count base samples ≡ err e)
              ⊎ ((bump : BumpResult) × (compute_bump floats texts {J = J} tx strategy config
                      bump_count base samples
                    ≡ ok bump)
                  × Refuses ops (answer_to tx bump) e)))

  -- whether the tracker has no room for another transaction
  abbrev pub full : Bool
  full = leb t.config.max_tracked (length t.transactions)

  tracked :
      (tx : TrackedTx) (bump : BumpResult) (h j : String)
      → Transactions.get t tx_hash ≡ some tx
      → Transactions.get
          (track (update_status t tx_hash (replaced h)) (replacement tx bump h now))
          j
        ≡ (if not full && h == j
            then some (replacement tx bump h now)
            else if tx_hash == j
            then some (record tx { status = replaced h })
            else Transactions.get t j)
  unfolding replacement
  tracked tx bump h j e =
      let updated = update_status t tx_hash (replaced h) in
      let (a, n, c) = update_status-get t tx_hash j (replaced h) tx e in
      let b = track-get updated (replacement tx bump h now) j in
      let same : leb updated.config.max_tracked (length updated.transactions) ≡ full =
        ap (leb updated.config.max_tracked) n
        ∙ ap (λ (k : TxTrackerConfig). leb k.max_tracked (length t.transactions)) c in
      elim (Bool-cases full) [ inl x ↦ b ∙ rw (same, x) a | inr x ↦ b ∙ rw (same, x, a) refl ]

  -- A call either fails, and leaves the tracker as it was, because nothing is tracked under the hash, or
  -- with the error of `compute_bump`, or with the error of the transport or of the node, or because the
  -- node's answer to the raw transaction is no text. Or it returns the bump of the tracked transaction: then this one stands
  -- as replaced by the hash that the node answered to the raw transaction with the nonce of the old one and
  -- the new fees; the replacement stands under this hash, pending, with this nonce and these fees, where
  -- the tracker has room for another transaction, and nothing else changes. In a full tracker the
  -- replacement is lost.
  pub bump_and_send_lem :
      (j : String)
      → ((e : TransportError J) × (sends.0 ≡ err e) × (sends.1 ≡ t) × Fails e)
        ⊎ ((tx : TrackedTx) × (bump : BumpResult) × (h : String) × (new : TrackedTx)
            × (Transactions.get t tx_hash ≡ some tx)
            × (compute_bump floats texts {J = J} tx strategy config bump_count base samples
                ≡ ok bump)
            × Answers ops (answer_to tx bump) h
            × IsReplacement tx bump new
            × (sends.0 ≡ ok bump)
            × (Transactions.get sends.1 j ≡ (
                if not full && h == j
                then some new
                else if tx_hash == j
                then some (record tx { status = replaced h })
                else Transactions.get t j)))
  unfolding bump_and_send replacement
  bump_and_send_lem j = elim (Option-cases (Transactions.get t tx_hash)) [
    | inl e ↦ rw (e, bump_and_send) (inl (_, refl, refl, inl refl))
    | inr (tx, e) ↦
        elim (Result-cases
          (compute_bump floats texts {J = J} tx strategy config bump_count base samples)) [
            | inr (f, b) ↦ rw (e, bump_and_send, b) (inl (f, refl, refl, inr (tx, refl, inl b)))
            | inl (bump, b) ↦ elim (new_hash-cases ops (answer_to tx bump)) [
              | inr (f, n, refused) ↦
                  rw (e, bump_and_send, b, n)
                    (inl (f, refl, refl, inr (tx, refl, inr (bump, b, refused))))
              | inl (h, n, given) ↦
                  let k = tracked tx bump h j e in
                  let new = replacement tx bump h now in
                  let shaped : IsReplacement tx bump new = (refl, refl, refl, refl, refl) in
                  rw (bump_and_send, e, b, n)
                    (inr (tx, bump, h, new, refl, b, given, shaped, refl, k))
            ]
          ]
  ]
