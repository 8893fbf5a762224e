-- ===== src/Xo/Cli/Tests.antt =====
-- Runs of the command line, and the theorems on them.
use sci_ledger_sawtooth.Prelude.{ℕ, ◌≡◌, refl, none, [], ◌∷◌, inr}
use sci_ledger_sawtooth.Text.{codes, text_eq}
use sci_ledger_sawtooth.Dict.{get}
use sci_ledger_sawtooth.Errors.{ok}
use sci_ledger_sawtooth.Example.{ascii, sha512}
use sci_ledger_sawtooth.Example.Library.{toy}
use sci_ledger_sawtooth.Example.Web.{web, protobuf}
use sci_ledger_sawtooth.Xo.Payload.{pos}
use sci_ledger_sawtooth.Xo.Game.{deserialize}
use sci_ledger_sawtooth.Xo.Cli.{run_command}
use sci_ledger_sawtooth.Xo.Cli.Arguments.{
  Namespace, missing, string, integer, Conforms, take_arguments,
}
use sci_ledger_sawtooth.Xo.Cli.Shell
use sci_ledger_sawtooth.Xo.Cli.Listing.{Shown, find_game}
use sci_ledger_sawtooth.Xo.Cli.Parsed.{c_take, word_of}
use sci_ledger_sawtooth.Xo.Cli.Reads.{Ran, run_command-Ran}
use sci_ledger_sawtooth.Xo.Cli.Showing.{shown_in, find_game-deserialize}
use sci_ledger_sawtooth.Xo.Cli.Printing.{Prints}

abbrev terminal : Shell.Shell ℕ
terminal = record {
  write = λ t w. (ok tt, w);
  getuser = λ w. (ok (codes "me"), w);
  getpass = λ prompt w. (ok (codes "secret"), w);
  expanduser = λ path. codes "/home/me";
  path_join = λ parts. [];
  parse_args = λ argv w. (ok (inr 0), w);
  add_console_handler = λ level w. (ok tt, w);
  print_error = λ e w. w;
}

-- The namespace of `xo take ab 5`.
abbrev args : Namespace
args =
    (codes "command", string (codes "take"))
    ∷ (codes "name", string (codes "ab"))
    ∷ (codes "space", integer (pos 5))
    ∷ (codes "url", missing)
    ∷ (codes "username", missing)
    ∷ (codes "key_dir", missing)
    ∷ (codes "auth_user", missing)
    ∷ (codes "auth_password", missing)
    ∷ (codes "wait", missing)
    ∷ (codes "verbose", missing)
    ∷ []

args-Conforms : Conforms take_arguments args
unfolding get text_eq
args-Conforms = (
  (_, refl, (_, refl)),
  (
    (_, refl, (_, refl)),
    (
      (_, refl, (none, refl)),
      (
        (_, refl, (none, refl)),
        (
          (_, refl, (none, refl)),
          (
            (_, refl, (none, refl)),
            ((_, refl, (none, refl)), ((_, refl, (none, refl)), ((_, refl, (none, refl)), tt))),
          ),
        ),
      ),
    ),
  ),
)

run_command-Ran_example :
    Ran toy web protobuf sha512 ascii terminal c_take args 5
      (run_command toy web protobuf sha512 ascii terminal 5 (word_of c_take) args)
run_command-Ran_example =
    run_command-Ran toy web protobuf sha512 ascii terminal 5 args c_take args-Conforms

find_game-deserialize_example :
    find_game (codes "b") (codes "a,---------,P1-NEXT,,|b,X--------,P2-NEXT,1,")
    ≡ shown_in (codes "b") (deserialize (codes "a,---------,P1-NEXT,,|b,X--------,P2-NEXT,1,"))
find_game-deserialize_example =
    find_game-deserialize (codes "b") (codes "a,---------,P1-NEXT,,|b,X--------,P2-NEXT,1,")

abbrev shown : Shown
shown = record {
  board = codes "X--------";
  game_state = codes "P2-NEXT";
  player1 = codes "1";
  player2 = [];
}

terminal-Prints : Prints web terminal
terminal-Prints = record { printing = λ t w. refl; writing = λ t w. refl }
