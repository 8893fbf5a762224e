-- ===== src/Xo/Cli/Running.antt =====
-- The commands of xo_cli.py over the values of their arguments.
use sci_ledger_sawtooth.Prelude.{ℕ, ◌≡◌, refl, Option, none, some, [], ◌∷◌, ◌++◌, arith}
use sci_ledger_sawtooth.Text.{Text, codes}
use sci_ledger_sawtooth.Errors.{ok, text, format, xo_exception, type_error}
use sci_ledger_sawtooth.Action.{Action, pure, lift, or_raise, ◌>>=◌, ◌>>◌}
use sci_ledger_sawtooth.Signing.Keys.{Secp256k1}
use sci_ledger_sawtooth.Xo.Payload.{CharTable}
use sci_ledger_sawtooth.Xo.State.{Sha512}
use sci_ledger_sawtooth.Xo.Client.{XoClient, new_client, list, show}
use sci_ledger_sawtooth.Xo.Client.World.{Libraries, Auth}
use sci_ledger_sawtooth.Xo.Client.Batches.{Protobuf}
use sci_ledger_sawtooth.Xo.Client.Transactions.{create, delete, take}
use sci_ledger_sawtooth.Xo.Cli.{with_client, respond, passed_wait, ended}
use sci_ledger_sawtooth.Xo.Cli.Arguments.{
  Namespace, option_text_at, k_url, k_username, k_auth_user, k_auth_password,
}
use sci_ledger_sawtooth.Xo.Cli.Shell
use sci_ledger_sawtooth.Xo.Cli.Shell.{
  asked, or_default, default_url, get_url, get_keyfile, get_auth_info,
}
use sci_ledger_sawtooth.Xo.Cli.Listing.{all_game_lists, find_game, line_of}
use sci_ledger_sawtooth.Xo.Cli.Drawing.{for_each, print_line, print_game}
use sci_ledger_sawtooth.Xo.Cli.Parsed.{
  Options, Command, creating, listing, showing, taking, deleting,
}

module _ {W Y : Type 0} (io : Libraries W Y) (shell : Shell.Shell W) where
  abbrev pub keyfile_of : Options → Action W Text
  keyfile_of o = do
    username ← elim (o.username) [ none ↦ shell.getuser | some username ↦ pure username ]
    pure (
        shell.path_join (shell.expanduser (codes "~") ∷ codes ".sawtooth" ∷ codes "keys" ∷ [])
        ++ codes "/"
        ++ username
        ++ codes ".priv")

  abbrev pub auth_of : Options → Action W Auth
  auth_of o = do
    password ← asked io shell o.auth_user o.auth_password
    pure (record { auth_user = o.auth_user; auth_password = password })

  pub get_url_lem :
      (args : Namespace) (t : Option Text)
      → option_text_at args k_url ≡ ok t
      → get_url io shell args ≡ ok (or_default t default_url)
  unfolding get_url
  get_url_lem args t h = ground (arith, h)

  pub get_keyfile_lem :
      (args : Namespace) (o : Options)
      → option_text_at args k_username ≡ ok o.username
      → get_keyfile io shell args ≡ keyfile_of o
  unfolding get_keyfile
  get_keyfile_lem args o h = rw h refl

  pub get_auth_info_lem :
      (args : Namespace) (o : Options)
      → option_text_at args k_auth_user ≡ ok o.auth_user
      → option_text_at args k_auth_password ≡ ok o.auth_password
      → get_auth_info io shell args ≡ auth_of o
  unfolding get_auth_info
  get_auth_info_lem args o h h' = rw (h, h') refl

module _ {W Y K P S : Type 0} (lib : Secp256k1 W K P S) (io : Libraries W Y) (pb : Protobuf)
    (sha512 : Sha512) (u : CharTable) (shell : Shell.Shell W) where
  -- The commands that send a transaction, over the values of the arguments.
  unfoldable pub sending :
      Options → (Auth → Action (XoClient W K P × W) (Option Text)) → Action W (Option (Unit {0}))
  sending o m = do
    keyfile ← keyfile_of io shell o
    auth ← auth_of io shell o
    client ← new_client io lib u (or_default o.url default_url) (some keyfile)
    response ← with_client client (m auth)
    respond io response

  -- The commands over the values of their arguments.
  unfoldable pub run : ℕ → Command → Options → Action W (Option (Unit {0}))
  unfolding sending
  run fuel (creating name dimensions wait) o =
      sending o (create lib io pb sha512 fuel name dimensions (passed_wait wait))
  run fuel (taking name space wait) o =
      sending o (take lib io pb sha512 fuel name space (passed_wait wait))
  run fuel (deleting name wait) o = sending o (delete lib io pb sha512 fuel name (passed_wait wait))
  run fuel listing o = ended (do
    auth ← auth_of io shell o
    client ← new_client io lib u (or_default o.url default_url) none
    answer ← list io sha512 client auth
    games ← or_raise answer type_error
    game_list ← lift (all_game_lists games)
    io.print (
        line_of (codes "GAME") (codes "PLAYER 1") (codes "PLAYER 2") (codes "BOARD")
          (codes "STATE"))
    for_each io shell game_list (print_line io shell))
  run fuel (showing name) o = ended (do
    auth ← auth_of io shell o
    client ← new_client io lib u (or_default o.url default_url) none
    answer ← show io sha512 client name auth
    data_bytes ← or_raise answer (xo_exception (format "Game not found: {}" (text name)))
    game ← lift (find_game name data_bytes)
    print_game io shell name game)
