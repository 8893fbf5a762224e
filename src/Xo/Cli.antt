-- ===== src/Xo/Cli.antt =====
-- examples/xo_python/sawtooth_xo/xo_cli.py: the commands, `main` and `main_wrapper`.
pub mod Arguments
pub mod Listing
pub mod Shell
pub mod Drawing
pub mod Parsed
pub mod Running
pub mod Reads
pub mod Showing
pub mod Printing
mod Tests
use sci_ledger_sawtooth.Prelude.{
  ℕ, zero, suc, ◌+◌, ◌*◌, ◌-◌, Bool, true, false, Option, none, some, List, [], ◌∷◌, ◌++◌, map,
  length, if◌then◌else◌, ◌⊎◌, inl, inr,
}
use sci_ledger_sawtooth.Text.{Text, Bytes, codes, prefix, text_eq}
use sci_ledger_sawtooth.Text.Numbers.{str}
use sci_ledger_sawtooth.Errors.{
  Exn, Arg, text, Message, plain, format, Result, ok, err, type_error, index_error,
  keyboard_interrupt, xo_exception,
}
use sci_ledger_sawtooth.Action.{Action, pure, raise, lift, or_raise, ◌>>=◌, ◌>>◌}
use sci_ledger_sawtooth.Signing.Keys.{Secp256k1}
use sci_ledger_sawtooth.Xo.Payload.{CharTable, ℤ, pos, negsuc}
use sci_ledger_sawtooth.Xo.State.{Sha512}
use sci_ledger_sawtooth.Xo.Client.{XoClient, new_client, list, show}
use sci_ledger_sawtooth.Xo.Client.World.{Libraries, Auth}
use sci_ledger_sawtooth.Xo.Client.Batches.{Protobuf}
use sci_ledger_sawtooth.Xo.Client.Transactions.{create, delete, take, waiting_of}
use sci_ledger_sawtooth.Xo.Cli.Arguments.{
  Namespace, text_at, int_at, option_text_at, option_int_at, k_name, k_dimensions, k_space, k_url,
  k_username, k_auth_user, k_auth_password, k_wait,
}
use sci_ledger_sawtooth.Xo.Cli.Listing.{
  Shown, all_game_lists, five, find_game, blanked, int_sqrt, item_at, range_from, line_of,
}
use sci_ledger_sawtooth.Xo.Cli.Shell
use sci_ledger_sawtooth.Xo.Cli.Shell.{level_of, get_url, get_keyfile, get_auth_info}
use sci_ledger_sawtooth.Xo.Cli.Drawing.{for_each, print_game, print_line}

-- How the program ends; `unfinished` is that the fuel of the waiting has run out.
pub data Exit : Type 0 where
  returned : Exit
  exited : ℕ → Exit
  unfinished : Exit

abbrev exit_of : Option (Unit {0}) → Exit
exit_of none = unfinished
exit_of (some t) = returned

-- A command ends, or the fuel of its waiting runs out.
abbrev pub Ending : Type 0
Ending = Option (Unit {0})

-- `if args.wait and args.wait > 0: ... wait=args.wait`
abbrev pub passed_wait : Option ℤ → Option ℤ
passed_wait wait = elim (waiting_of wait) [ none ↦ none | some n ↦ wait ]

module _ {W K P : Type 0} where
  -- a method of the client, whose changes to the client end with the command
  abbrev pub with_client :
      {A : Type 0} → XoClient W K P → Action (XoClient W K P × W) A → Action W A
  with_client client m w = let (r, s') = m (client, w) in (r, s'.1)

module _ {W : Type 0} where
  abbrev pub ended : Action W (Unit {0}) → Action W Ending
  ended m = m >> pure (some tt)

module _ {W Y : Type 0} (io : Libraries W Y) where
  abbrev pub respond : Option Text → Action W Ending
  respond none = pure none
  respond (some response) = io.print (codes "Response: " ++ response) >> pure (some tt)

module _ {W Y K P S : Type 0} (lib : Secp256k1 W K P S) (io : Libraries W Y) (pb : Protobuf)
    (sha512 : Sha512) (u : CharTable) (shell : Shell.Shell W) where
  unfoldable pub do_list : Namespace → Action W (Unit {0})
  unfolding for_each print_line
  do_list args = do
    url ← lift (get_url io shell args)
    auth ← get_auth_info io shell args
    client ← new_client io lib u url none
    answer ← list io sha512 client auth
    games ← or_raise answer type_error
    game_list ← lift (all_game_lists games)
    io.print (
        line_of (codes "GAME") (codes "PLAYER 1") (codes "PLAYER 2") (codes "BOARD")
          (codes "STATE"))
    for_each io shell game_list (print_line io shell)

  unfoldable pub do_show : Namespace → Action W (Unit {0})
  unfolding print_game
  do_show args = do
    name ← lift (text_at args k_name)
    url ← lift (get_url io shell args)
    auth ← get_auth_info io shell args
    client ← new_client io lib u url none
    answer ← show io sha512 client name auth
    data_bytes ← or_raise answer (xo_exception (format "Game not found: {}" (text name)))
    game ← lift (find_game name data_bytes)
    print_game io shell name game

  unfoldable pub do_create : ℕ → Namespace → Action W Ending
  do_create fuel args = do
    name ← lift (text_at args k_name)
    dimensions ← lift (int_at args k_dimensions)
    url ← lift (get_url io shell args)
    keyfile ← get_keyfile io shell args
    auth ← get_auth_info io shell args
    client ← new_client io lib u url (some keyfile)
    wait ← lift (option_int_at args k_wait)
    response ←
        with_client client (create lib io pb sha512 fuel name dimensions (passed_wait wait) auth)
    respond io response

  unfoldable pub do_take : ℕ → Namespace → Action W Ending
  do_take fuel args = do
    name ← lift (text_at args k_name)
    space ← lift (int_at args k_space)
    url ← lift (get_url io shell args)
    keyfile ← get_keyfile io shell args
    auth ← get_auth_info io shell args
    client ← new_client io lib u url (some keyfile)
    wait ← lift (option_int_at args k_wait)
    response ← with_client client (take lib io pb sha512 fuel name space (passed_wait wait) auth)
    respond io response

  unfoldable pub do_delete : ℕ → Namespace → Action W Ending
  do_delete fuel args = do
    name ← lift (text_at args k_name)
    url ← lift (get_url io shell args)
    keyfile ← get_keyfile io shell args
    auth ← get_auth_info io shell args
    client ← new_client io lib u url (some keyfile)
    wait ← lift (option_int_at args k_wait)
    response ← with_client client (delete lib io pb sha512 fuel name (passed_wait wait) auth)
    respond io response

  -- the choice of `main` by `args.command`
  unfoldable pub run_command : ℕ → Text → Namespace → Action W Ending
  unfolding do_create do_list do_show do_take do_delete
  run_command fuel command args =
      if text_eq command (codes "create")
      then do_create fuel args
      else if text_eq command (codes "list")
      then ended (do_list args)
      else if text_eq command (codes "show")
      then ended (do_show args)
      else if text_eq command (codes "take")
      then do_take fuel args
      else if text_eq command (codes "delete")
      then do_delete fuel args
      else raise (xo_exception (format "invalid command: {}" (text command)))

  -- `main`: argparse has put the command and the count of -v into the namespace, or ends the program
  unfoldable pub main : ℕ → List Text → Action W Exit
  unfolding run_command
  main fuel argv = do
    parsed ← shell.parse_args argv
    elim parsed [
      | inr status ↦ pure (exited status)
      | inl args ↦ lift (option_int_at args (codes "verbose")) >>= λ verbose.
          (shell.add_console_handler
              (elim verbose [ none ↦ level_of (pos 0) | some n ↦ level_of n ])
            >> (lift (text_at args (codes "command")) >>= λ command.
                (run_command fuel command args >>= λ end. pure (exit_of end))))
    ]

  -- `main_wrapper`
  abbrev wrapper_exit : Result Exit × W → Exit × W
  wrapper_exit (ok e, w) = (e, w)
  wrapper_exit (err keyboard_interrupt, w) = (returned, w)
  wrapper_exit (err e, w) = (exited 1, shell.print_error e w)

  unfoldable pub main_wrapper : ℕ → List Text → W → Exit × W
  unfolding main
  main_wrapper fuel argv w = wrapper_exit (main fuel argv w)
