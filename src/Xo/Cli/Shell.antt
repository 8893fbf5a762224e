-- ===== src/Xo/Cli/Shell.antt =====
-- What the commands of xo_cli.py take from their arguments and print. The terminal, the environment
-- and argparse are the parameter `shell`.
use sci_ledger_sawtooth.Prelude.{ℕ, zero, suc, Option, none, some, List, [], ◌∷◌, ◌++◌, ◌⊎◌}
use sci_ledger_sawtooth.Text.{Text, codes}
use sci_ledger_sawtooth.Errors.{Exn, Result, ok, err}
use sci_ledger_sawtooth.Action.{Action, pure, lift, ◌>>=◌}
use sci_ledger_sawtooth.Xo.Payload.{ℤ, pos}
use sci_ledger_sawtooth.Xo.Client.World.{Libraries, Auth}
use sci_ledger_sawtooth.Xo.Cli.Arguments.{
  Namespace, option_text_at, k_url, k_username, k_auth_user, k_auth_password,
}

pub data Level : Type 0 where
  warn : Level
  info : Level
  debug : Level

-- `write` prints with no new line at the end; `parse_args` gives a namespace or the status to exit with.
pub record Shell (W : Type 0) : Type 0 where
  pub write : Text → Action W (Unit {0})
  pub getuser : Action W Text
  pub getpass : Text → Action W Text
  pub expanduser : Text → Text
  pub path_join : List Text → Text
  pub parse_args : List Text → Action W (Namespace ⊎ ℕ)
  pub add_console_handler : Level → Action W (Unit {0})
  pub print_error : Exn → W → W

-- the level that `create_console_handler` sets
abbrev pub level_of : ℤ → Level
level_of (pos zero) = warn
level_of (pos (suc zero)) = info
level_of _ = debug

abbrev pub default_url : Text
default_url = codes "http://rest-api-2:8008"

abbrev pub or_default : Option Text → Text → Text
or_default none d = d
or_default (some t) d = t

module _ {W Y : Type 0} (io : Libraries W Y) (shell : Shell W) where
  unfoldable pub get_url : Namespace → Result Text
  get_url args = elim (option_text_at args k_url) [
    | err e ↦ err e
    | ok url ↦ ok (or_default url default_url)
  ]

  unfoldable pub get_keyfile : Namespace → Action W Text
  get_keyfile args = do
    given ← lift (option_text_at args k_username)
    username ← elim given [ none ↦ shell.getuser | some username ↦ pure username ]
    let home = shell.expanduser (codes "~") in
        let key_dir = shell.path_join (home ∷ codes ".sawtooth" ∷ codes "keys" ∷ []) in
        pure (key_dir ++ codes "/" ++ username ++ codes ".priv")

  -- `if auth_user is not None and auth_password is None`
  abbrev pub asked : Option Text → Option Text → Action W (Option Text)
  asked none auth_password = pure auth_password
  asked (some auth_user) none = shell.getpass (codes "Auth Password: ") >>= λ p. pure (some p)
  asked (some auth_user) (some p) = pure (some p)

  unfoldable pub get_auth_info : Namespace → Action W Auth
  get_auth_info args = do
    auth_user ← lift (option_text_at args k_auth_user)
    auth_password ← lift (option_text_at args k_auth_password)
    password ← asked auth_user auth_password
    pure (record { auth_user = auth_user; auth_password = password })
