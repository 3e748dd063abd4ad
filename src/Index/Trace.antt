-- ===== src/Index/Trace.antt =====
-- chainindex-core/src/trace.rs. A node of the tree that Geth returns is what the accessors of the JSON
-- library read of it: the text of each field, where it is one, and the nodes under "calls", none where
-- there is no array. An entry of Parity likewise. `to_lowercase` and `to_uppercase` are arguments, and a
-- text is cut by characters, which are its bytes where it is ASCII, as a hexadecimal text is.
pub mod Paths
use chainkit.Prelude.{
  Bool, List, Option, String, [], concat, contains, err, false, filter, if◌then◌else◌, leb, length,
  map, none, not, ok, some, suc, true, u32, unwrap_or, zero, ℕ, ◌&&◌, ◌++◌, ◌+◌, ◌==◌, ◌||◌, ◌∷◌,
  nat_eq, string_eq, pair_eq,
}
use Prim.Native.Char.{code}
use chainkit.Prelude.Hex.{codes, from_str_radix_16}
use chainkit.Index.Error.{IndexerError, handler}
use chainkit.Index.Handlers.{Step, IndexContext, each}

pub data CallType : Type 0 where
  call delegate_call static_call create create2 self_destruct : CallType

abbrev pub type_index : CallType → ℕ
type_index call = 0
type_index delegate_call = 1
type_index static_call = 2
type_index create = 3
type_index create2 = 4
type_index self_destruct = 5

pub record CallTrace : Type 0 where
  pub call_type : CallType
  pub sender : String
  pub to : String
  pub value : String
  pub gas_used : ℕ
  pub input : String
  pub output : String
  pub function_selector : Option String
  pub depth : ℕ
  pub block_number : ℕ
  pub tx_hash : String
  pub tx_index : ℕ
  pub trace_index : ℕ
  pub error : Option String
  pub reverted : Bool

pub record TraceFilter : Type 0 where
  pub addresses : List String
  pub selectors : List String
  pub call_types : List CallType
  pub exclude_reverted : Bool
  pub min_depth : Option ℕ
  pub max_depth : Option ℕ

-- A handler with its filter.
pub record TraceEntry (W : Type 0) : Type 0 where
  pub handle_trace : CallTrace → IndexContext → Step W
  pub name : String
  pub filter : TraceFilter

-- what the accessors read of a node
pub record Fields : Type 0 where
  pub call_type : Option String
  pub sender : Option String
  pub to : Option String
  pub value : Option String
  pub gas_used : Option String
  pub input : Option String
  pub output : Option String
  pub error : Option String

mutual
  pub data CallNode : Type 0 where
    node : Fields → Calls → CallNode

  pub data Calls : Type 0 where
    nil : Calls
    cons : CallNode → Calls → Calls

unfoldable pub is_some : Option String → Bool
is_some none = false
is_some (some s) = true

-- `strip_prefix("0x").unwrap_or(s)`
unfoldable pub strip_0x : String → String
strip_0x (String.◌∷◌ c (String.◌∷◌ d s)) =
    if code c == 48 && code d == 120 then s else String.◌∷◌ c (String.◌∷◌ d s)
strip_0x s = s

unfoldable pub take_text : ℕ → String → String
take_text zero s = ""
take_text (suc n) String.[] = ""
take_text (suc n) (String.◌∷◌ c s) = String.◌∷◌ c (take_text n s)

unfoldable pub has_type : List CallType → CallType → Bool
has_type [] t = false
has_type (u ∷ us) t = (type_index u == type_index t) || has_type us t

unfoldable pub parse_gas : Option String → ℕ
unfolding strip_0x from_str_radix_16
parse_gas none = 0
parse_gas (some s) = elim (from_str_radix_16 (codes (strip_0x s))) [ none ↦ 0 | some n ↦ n ]

module _ (lower upper : String → String) where
  unfoldable pub from_geth : String → Option CallType
  from_geth s =
      let u = upper s in
      if u == "CALL"
      then some call
      else if u == "DELEGATECALL"
      then some delegate_call
      else if u == "STATICCALL"
      then some static_call
      else if u == "CREATE"
      then some create
      else if u == "CREATE2"
      then some create2
      else if u == "SELFDESTRUCT"
      then some self_destruct
      else none

  unfoldable pub extract_selector : String → Option String
  unfolding strip_0x take_text
  extract_selector input =
      let hex = strip_0x input in
      if leb 8 (length (codes hex)) then some (concat "0x" (lower (take_text 8 hex))) else none

  unfoldable pub matches : TraceFilter → CallTrace → Bool
  unfolding has_type
  matches f trace =
      not (f.exclude_reverted && trace.reverted)
      && ((length f.call_types == 0) || has_type f.call_types trace.call_type)
      && ((length f.addresses == 0)
          || contains f.addresses (lower trace.sender)
          || contains f.addresses (lower trace.to))
      && ((length f.selectors == 0) || elim trace.function_selector [
        | none ↦ false
        | some s ↦ contains f.selectors (lower s)
      ])
      && elim f.min_depth [ none ↦ true | some m ↦ leb m trace.depth ]
      && elim f.max_depth [ none ↦ true | some m ↦ leb trace.depth m ]

  module _ {W : Type 0} (display : IndexerError → String) where
    -- one turn of the loop of `dispatch`
    unfoldable pub entry_step : CallTrace → IndexContext → TraceEntry W → Step W
    unfolding matches
    entry_step trace ctx e w =
        if matches e.filter trace
        then (let (answer, w') = e.handle_trace trace ctx w in
            elim answer [ ok u ↦ (ok u, w') | err x ↦ (err (handler e.name (display x)), w') ])
        else (ok tt, w)

    unfoldable pub dispatch : List (TraceEntry W) → CallTrace → IndexContext → Step W
    unfolding entry_step each
    dispatch entries trace ctx = each (map (entry_step trace ctx) entries)

    unfoldable pub dispatch_batch : List (TraceEntry W) → List CallTrace → IndexContext → Step W
    unfolding dispatch each
    dispatch_batch entries traces ctx = each (map (λ t. dispatch entries t ctx) traces)

  module _ (block_number : ℕ) (tx_hash : String) (tx_index : ℕ) where
    -- the trace of a node
    unfoldable pub trace_of : Fields → ℕ → Bool → ℕ → CallTrace
    unfolding parse_gas from_geth extract_selector
    trace_of f depth reverted trace_index = record {
      call_type = elim (from_geth (unwrap_or f.call_type "CALL")) [ none ↦ call | some t ↦ t ];
      sender = lower (unwrap_or f.sender "");
      to = lower (unwrap_or f.to "");
      value = unwrap_or f.value "0x0";
      gas_used = parse_gas f.gas_used;
      input = unwrap_or f.input "0x";
      output = unwrap_or f.output "0x";
      function_selector = extract_selector (unwrap_or f.input "0x");
      depth = depth;
      block_number = block_number;
      tx_hash = tx_hash;
      tx_index = tx_index;
      trace_index = trace_index;
      error = f.error;
      reverted = reverted;
    }

    -- `flatten_geth_call` and its loop, with the counter and the traces before and after
    unfoldable mutual
      unfolding is_some trace_of

      pub flatten_geth_call : CallNode → ℕ → Bool → ℕ → List CallTrace → ℕ × List CallTrace
      flatten_geth_call (node f calls) depth parent_reverted trace_index out =
          let reverted = parent_reverted || is_some f.error in
          flatten_calls calls (u32 (depth + 1)) reverted (u32 (trace_index + 1))
            (out ++ trace_of f depth reverted trace_index ∷ [])

      pub flatten_calls : Calls → ℕ → Bool → ℕ → List CallTrace → ℕ × List CallTrace
      flatten_calls nil depth reverted trace_index out = (trace_index, out)
      flatten_calls (cons child rest) depth reverted trace_index out =
          let (next, traces) = flatten_geth_call child depth reverted trace_index out in
          flatten_calls rest depth reverted next traces
