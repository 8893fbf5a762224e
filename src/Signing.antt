-- ===== src/Signing.antt =====
-- sawtooth_signing/__init__.py: `Signer`, `CryptoFactory` and `create_context`.
pub mod Core
pub mod Keys
pub mod Errors
pub mod Signatures
pub mod Soundness
mod Tests
use sci_ledger_sawtooth.Prelude.{Option, none, some, if◌then◌else◌}
use sci_ledger_sawtooth.Text.{Text, Bytes, text_eq}
use sci_ledger_sawtooth.Errors.{Arg, text, format, Result, ok, err, no_such_algorithm_error}
use sci_ledger_sawtooth.Signing.Core.{Context}
use sci_ledger_sawtooth.Signing.Keys.{
  Secp256k1, Secp256k1PrivateKey, Secp256k1PublicKey, secp256k1_context, secp256k1_name,
}

pub record Signer (W K P : Type 0) : Type 0 where
  pub context : Context W K P
  pub private_key : K
  pub public_key : Option P

pub record CryptoFactory (W K P : Type 0) : Type 0 where
  pub context : Context W K P

module _ {W K P : Type 0} where
  unfoldable pub new_signer : CryptoFactory W K P → K → Signer W K P
  new_signer factory private_key = record {
    context = factory.context;
    private_key = private_key;
    public_key = none;
  }

  unfoldable pub sign : Signer W K P → Bytes → Result Text
  sign signer message = signer.context.sign message signer.private_key

  -- the public key, with the signer that remembers it
  unfoldable pub get_public_key : Signer W K P → P × Signer W K P
  get_public_key signer = elim (signer.public_key) [
    | none ↦
        let public_key = signer.context.get_public_key signer.private_key in
        (public_key, record signer { public_key = some public_key })
    | some public_key ↦ (public_key, signer)
  ]

module _ {W K P S : Type 0} (lib : Secp256k1 W K P S) where
  unfoldable pub create_context :
      Text → Result (Context W (Secp256k1PrivateKey K) (Secp256k1PublicKey P))
  create_context algorithm_name =
      if text_eq algorithm_name secp256k1_name
      then ok (secp256k1_context lib)
      else err (no_such_algorithm_error (format "no such algorithm: {}" (text algorithm_name)))
