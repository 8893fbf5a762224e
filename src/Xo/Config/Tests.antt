-- ===== src/Xo/Config/Tests.antt =====
-- A run of the loading of the xo configuration.
use sci_ledger_sawtooth.Prelude.{◌≡◌, refl, true, false, none, some, [], ◌∷◌, ◌++◌}
use sci_ledger_sawtooth.Text.{Text, codes, text_eq}
use sci_ledger_sawtooth.Dict.{get}
use sci_ledger_sawtooth.Errors.{ok}
use sci_ledger_sawtooth.Processor.Config.{Environment}
use sci_ledger_sawtooth.Xo.Config.{
  XoConfig, load_toml_xo_config, load_xo_config, merge_xo_config, merged, reversed, invalid_keys,
}

-- A file that sets `connect` to its own text.
abbrev env : Environment (Unit {0}) Text
env = record {
  environ = λ name. some (codes "/home");
  is_nt = false;
  base_dir = [];
  path_join = λ a b. a ++ codes "/" ++ b;
  exists = λ name w. (ok true, w);
  read_file = λ name w. (ok (codes "tcp://file"), w);
  toml_loads = λ t. ok ((codes "connect", t) ∷ []);
  yaml_load = λ t. ok [];
  value_of = λ t. t;
}

abbrev unset : XoConfig Text
unset = record { connect = none }

load_xo_config_test :
    (load_xo_config env unset tt).0 ≡ ok (record { connect = some (codes "tcp://file") })
unfolding load_xo_config load_toml_xo_config merge_xo_config merged reversed invalid_keys get
    text_eq
load_xo_config_test = refl
