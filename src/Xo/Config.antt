-- ===== src/Xo/Config.antt =====
-- examples/xo_python/sawtooth_xo/processor/config/xo.py, and the loading of the configuration in
-- processor/main.py.
pub mod Priority
mod Tests
use sci_ledger_sawtooth.Prelude.{
  Bool, true, false, not, Option, none, some, List, [], ◌∷◌, ◌++◌, if◌then◌else◌, map,
}
use sci_ledger_sawtooth.Text.{Text, codes, text_eq, truthy}
use sci_ledger_sawtooth.Dict.{Dict, get}
use sci_ledger_sawtooth.Errors.{
  Exn, Arg, texts, cause, format, Result, ok, err, os_error, local_configuration_error,
}
use sci_ledger_sawtooth.Action.{Action, pure, raise, raise_if, lift, try, ◌>>=◌, ◌>>◌}
use sci_ledger_sawtooth.Processor.Config.{Environment, get_config_dir}
use sci_ledger_sawtooth.Xo.Game.{sorted}

-- `connect` is None, or what was given: a text, or any value of the file.
pub record XoConfig (V : Type 0) : Type 0 where
  pub connect : Option V

abbrev key_connect : Text
key_connect = codes "connect"

-- `set(toml_config.keys()).difference(['connect'])`
unfoldable pub invalid_keys : {V : Type 0} → Dict V → List Text
invalid_keys [] = []
invalid_keys ((k, v) ∷ rest) =
    let others = invalid_keys rest in if text_eq k key_connect then others else k ∷ others

-- the loop over `reversed(configs)`: what stands further left is set later
unfoldable pub merged : {V : Type 0} → List (XoConfig V) → Option V → Option V
merged [] connect = connect
merged (config ∷ reversed) connect = elim (config.connect) [
  | none ↦ merged reversed connect
  | some c ↦ merged reversed (some c)
]

unfoldable pub reversed : {A : Type 0} → List A → List A
reversed [] = []
reversed (a ∷ as_list) = reversed as_list ++ a ∷ []

unfoldable pub merge_xo_config : {V : Type 0} → List (XoConfig V) → XoConfig V
unfolding merged reversed
merge_xo_config configs = record { connect = merged (reversed configs) none }

abbrev unreadable : Exn → Exn
unreadable os_error =
    local_configuration_error
      (format "Unable to load transaction processor configuration file: {}" cause)
unreadable e = e

module _ {W V : Type 0} (env : Environment W V) where
  abbrev pub load_default_xo_config : XoConfig V
  load_default_xo_config = record { connect = some (env.value_of (codes "tcp://localhost:4004")) }

  unfoldable pub load_toml_xo_config : Text → Action W (XoConfig V)
  unfolding invalid_keys
  load_toml_xo_config filename = do
    there ← env.exists filename
    (if not there then pure (record { connect = none }) else (do
      raw_config ← try (env.read_file filename) (λ e. raise (unreadable e))
      toml_config ← lift (env.toml_loads raw_config)
      raise_if (truthy (invalid_keys toml_config)) (
          local_configuration_error (
            format "Invalid keys in transaction processor config: {}"
              (texts (sorted (invalid_keys toml_config)))))
      pure (record { connect = get toml_config key_connect })))

  -- `load_xo_config` of main.py
  unfoldable pub load_xo_config : XoConfig V → Action W (XoConfig V)
  unfolding load_toml_xo_config merge_xo_config
  load_xo_config first_config = do
    toml_config ← load_toml_xo_config (env.path_join (get_config_dir env) (codes "xo.toml"))
    pure (merge_xo_config (first_config ∷ toml_config ∷ load_default_xo_config ∷ []))

  -- `create_xo_config` of main.py
  abbrev pub create_xo_config : Option V → XoConfig V
  create_xo_config connect = record { connect = connect }
