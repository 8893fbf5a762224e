-- ===== src/Signing/Tests.antt =====
-- Runs of signing over the stand-in for the library, and the theorems on them.
use sci_ledger_sawtooth.Prelude.{ℕ, ◌≡◌, refl, Bool, true, [], ◌∷◌}
use sci_ledger_sawtooth.Text.{codes, text_eq}
use sci_ledger_sawtooth.Text.Hex.{hexlify, unhexlify, hex_digit, hex_value}
use sci_ledger_sawtooth.Errors.{ok, err, keyboard_interrupt}
use sci_ledger_sawtooth.Signing.{Signer, new_signer, create_context, sign, get_public_key}
use sci_ledger_sawtooth.Example.Library.{key_of, all_bytes, toy, toy-IsSecp256k1}
use sci_ledger_sawtooth.Signing.Core.{Context}
use sci_ledger_sawtooth.Signing.Keys
use sci_ledger_sawtooth.Signing.Keys.{
  Secp256k1, IsSecp256k1, Secp256k1PrivateKey, Secp256k1PublicKey, private_from_hex,
  private_from_bytes, private_as_hex, public_from_hex, public_as_hex, secp256k1_name,
  secp256k1_context,
}
use sci_ledger_sawtooth.Signing.Soundness.{IsSigned}
use sci_ledger_sawtooth.Signing.Errors.{
  Raises, IsRead, IsValid, bad_private, bad_public, unsigned, exceptions_lem,
}
use sci_ledger_sawtooth.Signing.Signatures.{Uses, unused, public_key_got, sign-create_context}

abbrev key : Secp256k1PrivateKey Bool
key = record { secp256k1_private_key = true }

abbrev context : Context ℕ (Secp256k1PrivateKey Bool) (Secp256k1PublicKey Bool)
context = secp256k1_context toy

abbrev signer : Signer ℕ (Secp256k1PrivateKey Bool) (Secp256k1PublicKey Bool)
signer = (get_public_key (new_signer (record { context = context }) key)).1

abbrev signer-Uses : Uses (new_signer (record { context = context }) key) signer
signer-Uses = public_key_got unused

sign_test : sign signer (7 ∷ []) ≡ ok (codes "0207")
unfolding sign get_public_key new_signer secp256k1_context Keys.sign hexlify hex_digit all_bytes
sign_test = refl

private_from_hex_test : private_from_hex toy (codes "05") ≡ err bad_private
unfolding private_from_hex private_from_bytes unhexlify hex_value key_of
private_from_hex_test = refl

exceptions_lem_example :
    Raises bad_private
      (IsRead toy.private_of (λ k. k.secp256k1_private_key) (codes "05"))
      (private_from_hex toy (codes "05"))
    × Raises bad_public
        (IsRead toy.public_of (λ k. k.secp256k1_public_key) (codes "05"))
        (public_from_hex toy (codes "05"))
    × Raises unsigned (IsSigned toy true (7 ∷ [])) (Keys.sign toy (7 ∷ []) key)
    × Raises keyboard_interrupt
        (λ t.
          (t ≡ true) → IsValid toy (record { secp256k1_public_key = true }) (7 ∷ []) (codes "05"))
        (Keys.verify toy (codes "05") (7 ∷ []) (record { secp256k1_public_key = true }))
exceptions_lem_example =
    exceptions_lem toy (codes "05") (7 ∷ []) key (record { secp256k1_public_key = true })

created_test : create_context toy secp256k1_name ≡ ok context
unfolding create_context text_eq
created_test = refl

sign-create_context_example :
    (public_key : Secp256k1PublicKey Bool) × (public_from_hex toy
        (public_as_hex toy (get_public_key signer).0)
      ≡ ok public_key)
    × (context.verify (codes "0207") (7 ∷ []) public_key ≡ ok true)
sign-create_context_example =
    sign-create_context toy toy-IsSecp256k1 context key signer (7 ∷ []) (codes "0207") created_test
      signer-Uses sign_test
