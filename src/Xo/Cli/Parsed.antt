-- ===== src/Xo/Cli/Parsed.antt =====
-- The commands of xo_cli.py, and the attributes of a namespace that conforms to a parser.
use sci_ledger_sawtooth.Prelude.{◌≡◌, Option, none, some, List, arith}
use sci_ledger_sawtooth.Text.{Text, codes}
use sci_ledger_sawtooth.Dict.{get}
use sci_ledger_sawtooth.Errors.{ok}
use sci_ledger_sawtooth.Xo.Payload.{ℤ}
use sci_ledger_sawtooth.Xo.Cli.Arguments.{
  Value, missing, string, integer, Argument, Namespace, attribute, text_at, int_at, option_text_at,
  option_int_at, k_name, k_dimensions, k_space, k_url, k_username, k_auth_user, k_auth_password,
  k_wait, create_arguments, list_arguments, show_arguments, take_arguments, delete_arguments,
}

-- The options that all commands share.
pub record Options : Type 0 where
  pub url : Option Text
  pub username : Option Text
  pub auth_user : Option Text
  pub auth_password : Option Text

-- A command with its arguments.
pub data Command : Type 0 where
  creating : Text → ℤ → Option ℤ → Command
  listing : Command
  showing : Text → Command
  taking : Text → ℤ → Option ℤ → Command
  deleting : Text → Option ℤ → Command

pub data CommandName : Type 0 where
  c_create : CommandName
  c_list : CommandName
  c_show : CommandName
  c_take : CommandName
  c_delete : CommandName

abbrev pub word_of : CommandName → Text
word_of c_create = codes "create"
word_of c_list = codes "list"
word_of c_show = codes "show"
word_of c_take = codes "take"
word_of c_delete = codes "delete"

abbrev pub arguments_of : CommandName → List Argument
arguments_of c_create = create_arguments
arguments_of c_list = list_arguments
arguments_of c_show = show_arguments
arguments_of c_take = take_arguments
arguments_of c_delete = delete_arguments

abbrev pub name_of : Command → CommandName
name_of (creating name dimensions wait) = c_create
name_of listing = c_list
name_of (showing name) = c_show
name_of (taking name space wait) = c_take
name_of (deleting name wait) = c_delete

abbrev pub waits_of : Option ℤ → Value
waits_of none = missing
waits_of (some n) = integer n

-- The namespace has the values of the command.
abbrev pub Given : Namespace → Command → Type 0
Given args (creating name dimensions wait) =
    (get args k_name ≡ some (string name))
    × (get args k_dimensions ≡ some (integer dimensions))
    × (get args k_wait ≡ some (waits_of wait))
Given args listing = Unit
Given args (showing name) = get args k_name ≡ some (string name)
Given args (taking name space wait) =
    (get args k_name ≡ some (string name))
    × (get args k_space ≡ some (integer space))
    × (get args k_wait ≡ some (waits_of wait))
Given args (deleting name wait) =
    (get args k_name ≡ some (string name)) × (get args k_wait ≡ some (waits_of wait))

abbrev text_or_none : Option Text → Value
text_or_none none = missing
text_or_none (some t) = string t

-- The namespace has the values of the options.
abbrev pub GivenOptions : Namespace → Options → Type 0
GivenOptions args o =
    (get args k_url ≡ some (text_or_none o.url))
    × (get args k_username ≡ some (text_or_none o.username))
    × (get args k_auth_user ≡ some (text_or_none o.auth_user))
    × (get args k_auth_password ≡ some (text_or_none o.auth_password))

module _ (args : Namespace) (k : Text) (v : Value) (g : get args k ≡ some v) where
  pub text_at_lem : (t : Text) → v ≡ string t → text_at args k ≡ ok t
  unfolding text_at attribute
  text_at_lem t e = ground (arith, g, e)

  pub int_at_lem : (n : ℤ) → v ≡ integer n → int_at args k ≡ ok n
  unfolding int_at attribute
  int_at_lem n e = ground (arith, g, e)

  pub option_text_at_lem :
      (t : Option Text)
      → v ≡ elim t [ none ↦ missing | some s ↦ string s ]
      → option_text_at args k ≡ ok t
  unfolding option_text_at attribute
  option_text_at_lem none e = ground (arith, g, e)
  option_text_at_lem (some s) e = ground (arith, g, e)

  pub option_int_at_lem :
      (n : Option ℤ)
      → v ≡ elim n [ none ↦ missing | some m ↦ integer m ]
      → option_int_at args k ≡ ok n
  unfolding option_int_at attribute
  option_int_at_lem none e = ground (arith, g, e)
  option_int_at_lem (some m) e = ground (arith, g, e)
