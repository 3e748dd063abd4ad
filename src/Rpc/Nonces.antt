-- ===== src/Rpc/Nonces.antt =====
-- chainrpc-core/src/tx.rs: the ledger of confirmed and pending nonces. Each locked map is a field.
pub mod Allocation
pub mod Confirmation
use chainkit.Prelude.{
  List, Option, String, [], count, if◌then◌else◌, leb, ltb, none, or_zero, some, suc, u64, zero, ℕ,
  ◌+◌, ◌-◌, ◌∷◌, nat_eq, string_eq, pair_eq,
}
use Prim.Native.Nat.{max}
use chainkit.HashMap
use chainkit.HashMap.{HashMap}

pub record NonceLedger : Type 0 where
  pub confirmed : HashMap String ℕ
  pub pending : HashMap String ℕ

unfoldable pub new : NonceLedger
new = record { confirmed = []; pending = [] }

unfoldable pub set_confirmed : NonceLedger → String → ℕ → NonceLedger
set_confirmed l address nonce = record l { confirmed = HashMap.insert l.confirmed address nonce }

-- `map(|n| n + 1).unwrap_or(0)`
abbrev pub successor : Option ℕ → ℕ
successor none = 0
successor (some n) = u64 (n + 1)

unfoldable pub next : NonceLedger → String → ℕ
next l address =
    max (successor (HashMap.get l.confirmed address)) (successor (HashMap.get l.pending address))

-- the value of `entry(..).or_insert(0)`
unfoldable pub mark_pending : NonceLedger → String → ℕ → NonceLedger
mark_pending l address nonce =
    let entry = or_zero (HashMap.get l.pending address) in
    record l {
      pending = HashMap.insert l.pending address (if ltb entry nonce then nonce else entry);
    }

unfoldable pub confirm : NonceLedger → String → ℕ → NonceLedger
confirm l address nonce =
    let confirmed = HashMap.insert l.confirmed address nonce in
    elim (HashMap.get l.pending address) [
      | none ↦ record l { confirmed = confirmed }
      | some p ↦
          if leb p nonce
          then record { confirmed = confirmed; pending = HashMap.remove l.pending address }
          else record l { confirmed = confirmed }
    ]

unfoldable pub confirmed_nonce : NonceLedger → String → Option ℕ
confirmed_nonce l address = HashMap.get l.confirmed address

unfoldable pub pending_nonce : NonceLedger → String → Option ℕ
pending_nonce l address = HashMap.get l.pending address

-- `count` numbers from `from` on
abbrev pub range : ℕ → ℕ → List ℕ
range from zero = []
range from (suc count) = from ∷ range (from + 1) count

unfoldable pub gaps : NonceLedger → String → List ℕ
gaps l address = elim (HashMap.get l.confirmed address) [
  | none ↦ []
  | some c ↦ elim (HashMap.get l.pending address) [
    | none ↦ []
    | some p ↦ if leb p (u64 (c + 1)) then [] else range (u64 (c + 1)) (p - u64 (c + 1))
  ]
]
