-- ===== src/Signing/Core.antt =====
-- `Context` of sawtooth_signing/core.py: what a signer asks of an algorithm, over the types of its
-- keys, a private and a public one, and the state of the source of random numbers.
use sci_ledger_sawtooth.Prelude.{Bool, true, ◌≡◌}
use sci_ledger_sawtooth.Text.{Text, Bytes}
use sci_ledger_sawtooth.Errors.{Result, ok}
use sci_ledger_sawtooth.Action.{Action}

pub record Context (Source PrivateKey PublicKey : Type 0) : Type 0 where
  pub algorithm_name : Text
  pub sign : Bytes → PrivateKey → Result Text
  pub verify : Text → Bytes → PublicKey → Result Bool
  pub new_random_private_key : Action Source PrivateKey
  pub get_public_key : PrivateKey → PublicKey

-- What `verify` documents: it recognises what `sign` made with the key.
unfoldable pub IsSound : {W K P : Type 0} → Context W K P → Type 0
IsSound {K = K} context =
    (key : K) (message : Bytes) (signature : Text)
    → context.sign message key ≡ ok signature
    → context.verify signature message (context.get_public_key key) ≡ ok true
