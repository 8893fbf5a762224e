-- ===== src/Xo/Cli/Arguments.antt =====
-- The parsers of examples/xo_python/sawtooth_xo/xo_cli.py as lists of the arguments that they declare,
-- and the namespace that argparse makes of a command line.
use sci_ledger_sawtooth.Prelude.{ℕ, Bool, Option, none, some, List, [], ◌∷◌, ◌≡◌, All}
use sci_ledger_sawtooth.Text.{Text, codes}
use sci_ledger_sawtooth.Dict.{Dict, get}
use sci_ledger_sawtooth.Errors.{Result, ok, err, attribute_error, type_error, ◌>>=◌}
use sci_ledger_sawtooth.Xo.Payload.{ℤ, pos}

-- A value of a namespace; `missing` is None.
pub data Value : Type 0 where
  missing : Value
  string : Text → Value
  integer : ℤ → Value
  flag : Bool → Value

pub data Kind : Type 0 where
  positional_text : Kind
  positional_int : Kind
  optional_text : Kind
  optional_int : Kind
  store_true : Kind
  count : Kind

-- An argument under the name of the attribute that argparse gives it.
pub record Argument : Type 0 where
  pub dest : Text
  pub kind : Kind

abbrev argument : Text → Kind → Argument
argument d k = record { dest = d; kind = k }

abbrev pub k_name : Text
k_name = codes "name"

abbrev pub k_dimensions : Text
k_dimensions = codes "dimensions"

abbrev pub k_space : Text
k_space = codes "space"

abbrev pub k_url : Text
k_url = codes "url"

abbrev pub k_username : Text
k_username = codes "username"

abbrev pub k_auth_user : Text
k_auth_user = codes "auth_user"

abbrev pub k_auth_password : Text
k_auth_password = codes "auth_password"

abbrev pub k_wait : Text
k_wait = codes "wait"

-- `create_parent_parser`: --version ends the program and leaves no attribute
abbrev pub parent_arguments : List Argument
parent_arguments = argument (codes "verbose") count ∷ []

abbrev pub create_arguments : List Argument
create_arguments =
    argument k_name positional_text
    ∷ argument k_dimensions positional_int
    ∷ argument k_url optional_text
    ∷ argument k_username optional_text
    ∷ argument (codes "key_dir") optional_text
    ∷ argument k_auth_user optional_text
    ∷ argument k_auth_password optional_text
    ∷ argument (codes "disable_client_validation") store_true
    ∷ argument k_wait optional_int
    ∷ parent_arguments

abbrev pub list_arguments : List Argument
list_arguments =
    argument k_url optional_text
    ∷ argument k_username optional_text
    ∷ argument (codes "key_dir") optional_text
    ∷ argument k_auth_user optional_text
    ∷ argument k_auth_password optional_text
    ∷ parent_arguments

abbrev pub show_arguments : List Argument
show_arguments = argument k_name positional_text ∷ list_arguments

abbrev pub take_arguments : List Argument
take_arguments =
    argument k_name positional_text
    ∷ argument k_space positional_int
    ∷ argument k_url optional_text
    ∷ argument k_username optional_text
    ∷ argument (codes "key_dir") optional_text
    ∷ argument k_auth_user optional_text
    ∷ argument k_auth_password optional_text
    ∷ argument k_wait optional_int
    ∷ parent_arguments

abbrev pub delete_arguments : List Argument
delete_arguments =
    argument k_name positional_text
    ∷ argument k_url optional_text
    ∷ argument k_username optional_text
    ∷ argument (codes "key_dir") optional_text
    ∷ argument k_auth_user optional_text
    ∷ argument k_auth_password optional_text
    ∷ argument k_wait optional_int
    ∷ parent_arguments

-- The values that argparse gives to an argument of a kind.
abbrev pub Fits : Kind → Value → Type 0
Fits positional_text v = (t : Text) × (v ≡ string t)
Fits positional_int v = (n : ℤ) × (v ≡ integer n)
Fits optional_text v = (t : Option Text) × (v ≡ elim t [ none ↦ missing | some s ↦ string s ])
Fits optional_int v = (n : Option ℤ) × (v ≡ elim n [ none ↦ missing | some k ↦ integer k ])
Fits store_true v = (b : Bool) × (v ≡ flag b)
Fits count v = (n : Option ℕ) × (v ≡ elim n [ none ↦ missing | some k ↦ integer (pos k) ])

abbrev pub Namespace : Type 0
Namespace = Dict Value

-- What `parse_args` documents: every argument that the parser declares is an attribute.
abbrev pub Conforms : List Argument → Namespace → Type 0
Conforms arguments args =
    All (λ a. (v : Value) × (get args a.dest ≡ some v) × Fits a.kind v) arguments

-- `args.name`
unfoldable pub attribute : Namespace → Text → Result Value
attribute args k = elim (get args k) [ none ↦ err attribute_error | some v ↦ ok v ]

-- A value where a text, or None or a text, is wanted.
abbrev as_text : Value → Result Text
as_text (string t) = ok t
as_text _ = err type_error

abbrev as_int : Value → Result ℤ
as_int (integer n) = ok n
as_int _ = err type_error

abbrev as_option_text : Value → Result (Option Text)
as_option_text missing = ok none
as_option_text (string t) = ok (some t)
as_option_text _ = err type_error

abbrev as_option_int : Value → Result (Option ℤ)
as_option_int missing = ok none
as_option_int (integer n) = ok (some n)
as_option_int _ = err type_error

module _ (args : Namespace) (k : Text) where
  unfoldable pub text_at : Result Text
  unfolding attribute
  text_at = attribute args k >>= as_text

  unfoldable pub int_at : Result ℤ
  unfolding attribute
  int_at = attribute args k >>= as_int

  unfoldable pub option_text_at : Result (Option Text)
  unfolding attribute
  option_text_at = attribute args k >>= as_option_text

  unfoldable pub option_int_at : Result (Option ℤ)
  unfolding attribute
  option_int_at = attribute args k >>= as_option_int
