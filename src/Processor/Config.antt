-- ===== src/Processor/Config.antt =====
-- sawtooth_sdk/processor/config.py: the directories and files of a transaction processor. The operating
-- system and the readers of TOML and YAML are the parameter `env`.
use sci_ledger_sawtooth.Prelude.{Bool, Option, none, some, if◌then◌else◌}
use sci_ledger_sawtooth.Text.{Text, codes, ends_with}
use sci_ledger_sawtooth.Dict.{Dict, get}
use sci_ledger_sawtooth.Errors.{Result}
use sci_ledger_sawtooth.Action.{Action, pure, lift, ◌>>=◌}

-- `base_dir` is the directory above that of `sys.argv[0]`; V are the values of a file.
pub record Environment (W V : Type 0) : Type 0 where
  pub environ : Text → Option Text
  pub is_nt : Bool
  pub base_dir : Text
  pub path_join : Text → Text → Text
  pub exists : Text → Action W Bool
  pub read_file : Text → Action W Text
  pub toml_loads : Text → Result (Dict V)
  pub yaml_load : Text → Result (Dict V)
  pub value_of : Text → V

module _ {W V : Type 0} (env : Environment W V) where
  abbrev sawtooth_home : Option Text
  sawtooth_home = env.environ (codes "SAWTOOTH_HOME")

  unfoldable pub get_config_dir : Text
  get_config_dir = elim sawtooth_home [
    | some home ↦ env.path_join home (codes "etc")
    | none ↦ if env.is_nt then env.path_join env.base_dir (codes "conf") else codes "/etc/sawtooth"
  ]

  -- the directory by the environment, where no file sets it
  unfoldable pub default_of : Text → Text → Text → Text
  default_of sawtooth_home_dir windows_dir default_dir = elim sawtooth_home [
    | some home ↦ env.path_join home sawtooth_home_dir
    | none ↦ if env.is_nt then env.path_join env.base_dir windows_dir else default_dir
  ]

  unfoldable pub get_dir : Text → Text → Text → Text → Action W V
  unfolding get_config_dir default_of
  get_dir toml_config_setting sawtooth_home_dir windows_dir default_dir =
      let otherwise = pure (env.value_of (default_of sawtooth_home_dir windows_dir default_dir)) in
      let conf_file = env.path_join get_config_dir (codes "path.toml") in
      (do
        there ← env.exists conf_file
        (if there
            then (do
              raw_config ← env.read_file conf_file
              toml_config ← lift (env.toml_loads raw_config)
              elim (get toml_config toml_config_setting) [ some v ↦ pure v | none ↦ otherwise ])
            else otherwise))

  -- `_get_log_config` and `_get_processor_config`, which differ in the reader
  abbrev config_with : (Text → Result (Dict V)) → Text → Action W (Option (Dict V))
  config_with loads filename = do
    there ← env.exists (env.path_join get_config_dir filename)
    (if there
        then (do
          raw_config ← env.read_file (env.path_join get_config_dir filename)
          config ← lift (loads raw_config)
          pure (some config))
        else pure none)

  unfoldable pub get_log_config : Option Text → Action W (Option (Dict V))
  unfolding get_config_dir
  get_log_config none = pure none
  get_log_config (some filename) =
      config_with (if ends_with filename (codes ".yaml") then env.yaml_load else env.toml_loads)
        filename

  unfoldable pub get_processor_config : Option Text → Action W (Option (Dict V))
  unfolding get_config_dir
  get_processor_config none = pure none
  get_processor_config (some filename) = config_with env.toml_loads filename

  unfoldable pub get_log_dir : Action W V
  unfolding get_dir
  get_log_dir = get_dir (codes "log_dir") (codes "logs") (codes "logs") (codes "/var/log/sawtooth")
