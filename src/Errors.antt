-- ===== src/Errors.antt =====
-- The exceptions of sawtooth_sdk/processor/exceptions.py, sawtooth_sdk/messaging/exceptions.py,
-- sawtooth_sdk/consensus/exceptions.py, sawtooth_signing/core.py and
-- examples/xo_python/sawtooth_xo/xo_exceptions.py with those of Python and of libraries that the code
-- lets through or catches, and the result of a pure function that may raise.
use sci_ledger_sawtooth.Prelude.{ℕ, ◌≡◌, refl, ◌⊎◌, inl, inr, String, Option, none, List, [], ◌∷◌}
use sci_ledger_sawtooth.Text.{Text, Bytes}

-- What `format` puts into a template; `cause` is the text of the exception that was caught.
pub data Arg : Type 0 where
  text : Text → Arg
  texts : List Text → Arg
  number : ℕ → Arg
  pairs : List (Text × Text) → Arg
  optional : Option Bytes → Arg
  cause : Arg

-- An exception's message: the template and the arguments that `format` is called with.
pub record Message : Type 0 where
  pub template : String
  pub args : List Arg

abbrev pub plain : String → Message
plain s = record { template = s; args = [] }

abbrev pub format : String → Arg → Message
format s a = record { template = s; args = a ∷ [] }

pub data Exn : Type 0 where
  invalid_transaction : Message → Option Bytes → Exn
  internal_error : Message → Option Bytes → Exn
  authorization_exception : Message → Exn
  validator_connection_error : Exn
  validator_version_error : Exn
  future_timeout_error : Exn
  concurrent_timeout_error : Exn
  cancelled_error : Exn
  keyboard_interrupt : Exn
  future_collection_key_error : Message → Exn
  runtime_error : Message → Exn
  decode_error : Exn
  value_error : Exn
  key_error : Exn
  index_error : Exn
  name_error : Exn
  type_error : Exn
  attribute_error : Exn
  invalid_state : Message → Exn
  unknown_block : Exn
  block_not_ready : Message → Exn
  no_chain_head : Exn
  receive_error : Message → Exn
  signing_error : Message → Exn
  parse_error : Message → Exn
  no_such_algorithm_error : Message → Exn
  xo_exception : Message → Exn
  local_configuration_error : Message → Exn
  connection_error : Exn
  os_error : Exn
  library_error : Exn

-- `raise InvalidTransaction(message)`, with no extended data.
abbrev pub invalid : Message → Exn
invalid m = invalid_transaction m none

abbrev pub internal : Message → Exn
internal m = internal_error m none

pub data Result {ℓ} (A : Type ℓ) : Type ℓ where
  ok : A → Result A
  err : Exn → Result A

-- A pure function that may raise.
infixl 5 ◌>>=◌
abbrev pub ◌>>=◌ {ℓ κ} : {A : Type ℓ} {B : Type κ} → Result A → (A → Result B) → Result B
ok a >>= f = f a
err e >>= f = err e

-- `try: r except Exception`, of which KeyboardInterrupt is none.
abbrev pub rescue {ℓ} : {A : Type ℓ} → Result A → (Exn → Result A) → Result A
rescue (ok a) h = ok a
rescue (err keyboard_interrupt) h = err keyboard_interrupt
rescue (err e) h = h e

pub Result-cases {ℓ} :
    {A : Type ℓ} (r : Result A) → ((a : A) × (r ≡ ok a)) ⊎ ((e : Exn) × (r ≡ err e))
Result-cases (ok a) = inl (a, refl)
Result-cases (err e) = inr (e, refl)
