-- ===== src/Xo/Cli/Reads.antt =====
-- A command of xo_cli.py on a namespace that conforms to its parser runs on the values in it: every
-- attribute that it reads is declared, with the type at which it is used.
use sci_ledger_sawtooth.Prelude.{ℕ, ◌≡◌, refl, ap, ◌∙◌, Option, some}
use sci_ledger_sawtooth.Text.{Text, text_eq}
use sci_ledger_sawtooth.Dict.{get}
use sci_ledger_sawtooth.Errors.{ok}
use sci_ledger_sawtooth.Action.{Action}
use sci_ledger_sawtooth.Signing.Keys.{Secp256k1}
use sci_ledger_sawtooth.Xo.Payload.{CharTable, ℤ}
use sci_ledger_sawtooth.Xo.State.{Sha512}
use sci_ledger_sawtooth.Xo.Client.World.{Libraries}
use sci_ledger_sawtooth.Xo.Client.Batches.{Protobuf}
use sci_ledger_sawtooth.Xo.Cli.{do_list, do_show, do_create, do_take, do_delete, run_command, ended}
use sci_ledger_sawtooth.Xo.Cli.Arguments.{
  Value, string, integer, Namespace, Conforms, text_at, int_at, option_int_at, k_name, k_dimensions,
  k_space, k_url, k_username, k_auth_user, k_auth_password, k_wait, create_arguments,
  list_arguments, show_arguments, take_arguments, delete_arguments,
}
use sci_ledger_sawtooth.Xo.Cli.Shell
use sci_ledger_sawtooth.Xo.Cli.Shell.{
  asked, or_default, default_url, get_url, get_keyfile, get_auth_info,
}
use sci_ledger_sawtooth.Xo.Cli.Parsed.{
  waits_of, Given, GivenOptions, name_of, Options, Command, creating, listing, showing, taking,
  deleting, CommandName, c_create, c_list, c_show, c_take, c_delete, word_of, arguments_of,
  text_at_lem, int_at_lem, option_text_at_lem, option_int_at_lem,
}
use sci_ledger_sawtooth.Xo.Cli.Arguments.{
  Kind, positional_text, positional_int, optional_text, optional_int, Fits, Value, string, integer,
  text_at, int_at, option_int_at,
}
use sci_ledger_sawtooth.Xo.Payload.{ℤ}
use sci_ledger_sawtooth.Dict.{get}
use sci_ledger_sawtooth.Xo.Cli.Running.{
  keyfile_of, auth_of, get_url_lem, get_keyfile_lem, get_auth_info_lem, run,
}

module _ {W Y K P S : Type 0} (lib : Secp256k1 W K P S) (io : Libraries W Y) (pb : Protobuf)
    (sha512 : Sha512) (u : CharTable) (shell : Shell.Shell W) where
  -- What a command runs on: the values that the namespace has.
  pub record Ran (c : CommandName) (args : Namespace) (fuel : ℕ) (m : Action W (Option (Unit {0})))
      : Type 0 where
    pub command : Command
    pub options : Options
    pub given : Given args command
    pub shared : GivenOptions args options
    pub named : name_of command ≡ c
    pub same : m ≡ run lib io pb sha512 u shell fuel command options

  module _ (args : Namespace) where
    -- What `Conforms` has of one argument.
    abbrev Has : Text → Kind → Type 0
    Has k kind = (v : Value) × (get args k ≡ some v) × Fits kind v

    record HasText (k : Text) : Type 0 where
      value : Text
      present : get args k ≡ some (string value)
      read : text_at args k ≡ ok value

    has_text : (k : Text) → Has k positional_text → HasText k
    has_text k (v, g, (t, e)) = record {
      value = t;
      present = g ∙ ap some e;
      read = text_at_lem args k v g t e;
    }

    record HasInt (k : Text) : Type 0 where
      value : ℤ
      present : get args k ≡ some (integer value)
      read : int_at args k ≡ ok value

    has_int : (k : Text) → Has k positional_int → HasInt k
    has_int k (v, g, (n, e)) = record {
      value = n;
      present = g ∙ ap some e;
      read = int_at_lem args k v g n e;
    }

    record HasWait (k : Text) : Type 0 where
      value : Option ℤ
      present : get args k ≡ some (waits_of value)
      read : option_int_at args k ≡ ok value

    has_wait : (k : Text) → Has k optional_int → HasWait k
    has_wait k (v, g, (n, e)) = record {
      value = n;
      present = g ∙ ap some e;
      read = option_int_at_lem args k v g n e;
    }

    -- The options that all commands share, and what the helpers make of them.
    record HasOptions : Type 0 where
      options : Options
      present : GivenOptions args options
      url : get_url io shell args ≡ ok (or_default options.url default_url)
      keyfile : get_keyfile io shell args ≡ keyfile_of io shell options
      auth : get_auth_info io shell args ≡ auth_of io shell options

    has_options :
        Has k_url optional_text
        → Has k_username optional_text
        → Has k_auth_user optional_text
        → Has k_auth_password optional_text
        → HasOptions
    has_options (v1, g1, (url, e1)) (v2, g2, (username, e2)) (v3, g3, (user, e3))
          (v4, g4, (password, e4)) =
        let o : Options = record {
          url = url;
          username = username;
          auth_user = user;
          auth_password = password;
        } in
        record {
          options = o;
          present = (g1 ∙ ap some e1, g2 ∙ ap some e2, g3 ∙ ap some e3, g4 ∙ ap some e4);
          url = get_url_lem io shell args url (option_text_at_lem args k_url v1 g1 url e1);
          keyfile =
              get_keyfile_lem io shell args o
                (option_text_at_lem args k_username v2 g2 username e2);
          auth =
              get_auth_info_lem io shell args o (option_text_at_lem args k_auth_user v3 g3 user e3)
                (option_text_at_lem args k_auth_password v4 g4 password e4);
        }

  module _ (fuel : ℕ) (args : Namespace) where
    do_create_lem :
        Conforms create_arguments args
        → Ran c_create args fuel (do_create lib io pb sha512 u shell fuel args)
    unfolding do_create run
    do_create_lem (h1, (h2, (h3, (h4, (_, (h6, (h7, (_, (h9, _))))))))) =
        let name = has_text args k_name h1 in
        let dimensions = has_int args k_dimensions h2 in
        let o = has_options args h3 h4 h6 h7 in
        let wait = has_wait args k_wait h9 in
        record {
          command = creating name.value dimensions.value wait.value;
          options = o.options;
          given = (name.present, dimensions.present, wait.present);
          shared = o.present;
          named = refl;
          same = rw (name.read, dimensions.read, o.url, o.keyfile, o.auth, wait.read) refl;
        }

    do_take_lem :
        Conforms take_arguments args
        → Ran c_take args fuel (do_take lib io pb sha512 u shell fuel args)
    unfolding do_take run
    do_take_lem (h1, (h2, (h3, (h4, (_, (h6, (h7, (h9, _)))))))) =
        let name = has_text args k_name h1 in
        let space = has_int args k_space h2 in
        let o = has_options args h3 h4 h6 h7 in
        let wait = has_wait args k_wait h9 in
        record {
          command = taking name.value space.value wait.value;
          options = o.options;
          given = (name.present, space.present, wait.present);
          shared = o.present;
          named = refl;
          same = rw (name.read, space.read, o.url, o.keyfile, o.auth, wait.read) refl;
        }

    do_delete_lem :
        Conforms delete_arguments args
        → Ran c_delete args fuel (do_delete lib io pb sha512 u shell fuel args)
    unfolding do_delete run
    do_delete_lem (h1, (h3, (h4, (_, (h6, (h7, (h9, _))))))) =
        let name = has_text args k_name h1 in
        let o = has_options args h3 h4 h6 h7 in
        let wait = has_wait args k_wait h9 in
        record {
          command = deleting name.value wait.value;
          options = o.options;
          given = (name.present, wait.present);
          shared = o.present;
          named = refl;
          same = rw (name.read, o.url, o.keyfile, o.auth, wait.read) refl;
        }

    do_list_lem :
        Conforms list_arguments args
        → Ran c_list args fuel (ended (do_list lib io pb sha512 u shell args))
    unfolding do_list run
    do_list_lem (h3, (h4, (_, (h6, (h7, _))))) =
        let o = has_options args h3 h4 h6 h7 in
        record {
          command = listing;
          options = o.options;
          given = tt;
          shared = o.present;
          named = refl;
          same = rw (o.url, o.auth) refl;
        }

    do_show_lem :
        Conforms show_arguments args
        → Ran c_show args fuel (ended (do_show lib io pb sha512 u shell args))
    unfolding do_show run
    do_show_lem (h1, (h3, (h4, (_, (h6, (h7, _)))))) =
        let name = has_text args k_name h1 in
        let o = has_options args h3 h4 h6 h7 in
        record {
          command = showing name.value;
          options = o.options;
          given = name.present;
          shared = o.present;
          named = refl;
          same = rw (name.read, o.url, o.auth) refl;
        }

    -- Each of the five commands, on a namespace that conforms to its parser, finds every attribute that
    -- it reads, with the type at which it is used: it runs as the command over the values that the
    -- namespace has.
    pub run_command-Ran :
        (c : CommandName)
        → Conforms (arguments_of c) args
        → Ran c args fuel (run_command lib io pb sha512 u shell fuel (word_of c) args)
    unfolding run_command text_eq
    run_command-Ran c_create h = do_create_lem h
    run_command-Ran c_list h = do_list_lem h
    run_command-Ran c_show h = do_show_lem h
    run_command-Ran c_take h = do_take_lem h
    run_command-Ran c_delete h = do_delete_lem h
