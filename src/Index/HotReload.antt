-- ===== src/Index/HotReload.antt =====
-- chainindex-core/src/hotreload.rs, the validation and the manager. The JSON of a value, the text of a
-- message and the time are arguments, as is the watch channel of a configuration.
pub mod Config
pub mod Diffs
pub mod Updates
use chainkit.Prelude.{
  Bool, List, Result, String, [], concat, err, false, if◌then◌else◌, ltb, none, not, ok, some, true,
  u64, ℕ, ◌*◌, ◌++◌, ◌+◌, ◌==◌, ◌∷◌, nat_eq, string_eq, pair_eq,
}
use chainkit.Prelude.Int.{ℤ}
use chainkit.HashMap
use chainkit.Index.HotReload.Config.{ConfigDiff, ToValue, diff_configs}
use chainkit.Index.Config.{IndexerConfig}
use chainkit.HashMap.{HashMap}
use chainkit.Index.Error.{IndexerError, other}

pub data ConfigSource : Type 0 where
  default environment api manual : ConfigSource
  file : String → ConfigSource

pub data WarningSeverity : Type 0 where
  info warning critical : WarningSeverity

pub record ConfigWarning : Type 0 where
  pub field : String
  pub message : String
  pub severity : WarningSeverity

-- a warning where a test holds
unfoldable pub warn_if : Bool → String → String → WarningSeverity → List ConfigWarning
warn_if test field message severity =
    if test then (record { field = field; message = message; severity = severity }) ∷ [] else []

-- `message` is the text of a warning, or of an error, about a field and its two values.
module _ (message : String → IndexerConfig → IndexerConfig → String) where
  unfoldable pub validate : IndexerConfig → IndexerConfig → Result (List ConfigWarning) IndexerError
  unfolding warn_if
  validate old new =
      if not (old.chain == new.chain)
      then err (other (message "chain" old new))
      else if not (old.from_block == new.from_block)
      then err (other (message "from_block" old new))
      else ok (
          warn_if (ltb new.confirmation_depth old.confirmation_depth) "confirmation_depth"
            (message "confirmation_depth" old new) warning
          ++ warn_if (ltb (u64 (old.batch_size * 10)) new.batch_size) "batch_size"
              (message "batch_size" old new) warning
          ++ warn_if (ltb new.poll_interval_ms 500) "poll_interval_ms"
              (message "poll_interval_ms" old new) warning
          ++ warn_if (new.checkpoint_interval == 0) "checkpoint_interval"
              (message "checkpoint_interval" old new) critical
          ++ warn_if (not (old.id == new.id)) "id" (message "id" old new) critical)

  some_critical : List ConfigWarning → Bool
  some_critical [] = false
  some_critical (w ∷ ws) = elim w.severity [
    | critical ↦ true
    | info ↦ some_critical ws
    | warning ↦ some_critical ws
  ]

  unfoldable pub is_safe_reload : IndexerConfig → IndexerConfig → Bool
  unfolding validate some_critical
  is_safe_reload old new = elim (validate old new) [
    | err e ↦ false
    | ok warnings ↦ not (some_critical warnings)
  ]

pub record ReloadableConfig (T : Type 0) : Type 0 where
  pub inner : T
  pub version : ℕ
  pub updated_at : ℤ
  pub source : ConfigSource

module _ {T : Type 0} where
  unfoldable pub new_config : T → ℤ → ReloadableConfig T
  new_config inner now = record { inner = inner; version = 1; updated_at = now; source = default }

  unfoldable pub update_with_source : ReloadableConfig T → T → ConfigSource → ℤ → ReloadableConfig T
  update_with_source r inner source now = record {
    inner = inner;
    version = u64 (r.version + 1);
    updated_at = now;
    source = source;
  }

pub record ReloadRecord (J : Type 0) : Type 0 where
  pub version : ℕ
  pub diffs : List (ConfigDiff J)
  pub applied_at : ℤ
  pub source : ConfigSource

pub record ReloadResult (J : Type 0) : Type 0 where
  pub version : ℕ
  pub diffs : List (ConfigDiff J)
  pub warnings : List ConfigWarning
  pub applied_at : ℤ

-- the sender of a watch channel, of the channel library: of a new one, and after it has sent a version,
-- which has no effect where nobody listens
pub record Watch (C : Type 0) : Type 0 where
  pub channel : ℕ → C
  pub send : C → ℕ → C

pub record ManagedConfig (J C : Type 0) : Type 0 where
  pub config : ReloadableConfig IndexerConfig
  pub sender : C
  pub history : List (ReloadRecord J)

module _ {J C : Type 0} (watch : Watch C) (json : ToValue J)
    (message : String → IndexerConfig → IndexerConfig → String) where
  unfoldable pub register_config :
      HashMap String (ManagedConfig J C)
      → String
      → IndexerConfig
      → ℤ
      → HashMap String (ManagedConfig J C)
  unfolding new_config
  register_config configs id config now =
      HashMap.insert configs id
        (record { config = new_config config now; sender = watch.channel 1; history = [] })

  -- the state of a configuration after an update that is permitted
  unfoldable pub updated : ManagedConfig J C → IndexerConfig → ℤ → ManagedConfig J C
  unfolding update_with_source diff_configs
  updated m new now =
      let config = update_with_source m.config new manual now in
      record {
        config = config;
        sender = watch.send m.sender config.version;
        history =
            m.history
            ++ (record {
              version = config.version;
              diffs = diff_configs json m.config.inner new;
              applied_at = now;
              source = manual;
            })
              ∷ [];
      }

  unfoldable pub update_config :
      HashMap String (ManagedConfig J C)
      → String
      → IndexerConfig
      → ℤ
      → Result (ReloadResult J) IndexerError × HashMap String (ManagedConfig J C)
  unfolding validate updated
  update_config configs id new now = elim (HashMap.get configs id) [
    | none ↦
        (err (other (concat "hot-reload: no config registered for id '" (concat id "'"))), configs)
    | some m ↦ elim (validate message m.config.inner new) [
      | err e ↦ (err e, configs)
      | ok warnings ↦
          let m' = updated m new now in
          (
            ok (record {
              version = m'.config.version;
              diffs = diff_configs json m.config.inner new;
              warnings = warnings;
              applied_at = now;
            }),
            HashMap.insert configs id m',
          )
    ]
  ]
