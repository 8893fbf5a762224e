-- ===== src/Xo/Handler.antt =====
-- `XoTransactionHandler.apply` of examples/xo_python/sawtooth_xo/processor/handler.py.
pub mod Transactions
pub mod Refinement
pub mod Rules
use sci_ledger_sawtooth.Prelude.{Option, none, some, [], if◌then◌else◌}
use sci_ledger_sawtooth.Text.{Text, Bytes, text_eq}
use sci_ledger_sawtooth.Errors.{ok, err, plain, format, text, invalid}
use sci_ledger_sawtooth.Action.{Action, raise, lift, ◌>>=◌}
use sci_ledger_sawtooth.Processor.Access.{Access}
use sci_ledger_sawtooth.Xo.Payload.{
  CharTable, XoPayload, Space, act_create, act_take, act_delete, from_bytes,
}
use sci_ledger_sawtooth.Xo.Rules.{take, new_game}
use sci_ledger_sawtooth.Xo.State.{Sha512, Cache, get_game, set_game, delete_game}

-- The parts of a TpProcessRequest that the handler reads.
pub record Transaction : Type 0 where
  pub signer_public_key : Text
  pub payload : Bytes

module _ {S : Type 0} (access : Access S) (sha512 : Sha512) where
  unfoldable pub apply_delete : Text → Action (Cache × S) (Unit {0})
  apply_delete name = do
    game ← get_game access sha512 name
    elim game [
      | none ↦ raise (invalid (plain "Invalid action: game does not exist"))
      | some g ↦ delete_game access sha512 name
    ]

  unfoldable pub apply_create : Text → Action (Cache × S) (Unit {0})
  apply_create name = do
    game ← get_game access sha512 name
    elim game [
      | some g ↦ raise (invalid (format "Invalid action: Game already exists: {}" (text name)))
      | none ↦ set_game access sha512 name (new_game name)
    ]

  unfoldable pub apply_take : Text → Text → Space → Action (Cache × S) (Unit {0})
  apply_take signer name space = do
    game ← get_game access sha512 name
    updated ← lift (take signer space game)
    set_game access sha512 name updated

  unfoldable pub apply_payload : Text → XoPayload → Action (Cache × S) (Unit {0})
  apply_payload signer p =
      if text_eq p.action act_delete
      then apply_delete p.name
      else if text_eq p.action act_create
      then apply_create p.name
      else if text_eq p.action act_take
      then apply_take signer p.name p.space
      else raise (invalid (format "Unhandled action: {}" (text p.action)))

  -- A new `XoState` has an empty cache; it is dropped when `apply` ends.
  unfoldable pub apply : CharTable → Transaction → Action S (Unit {0})
  apply u transaction s = elim (from_bytes u transaction.payload) [
    | err e ↦ (err e, s)
    | ok p ↦ let (r, w) = apply_payload transaction.signer_public_key p ([], s) in (r, w.1)
  ]
