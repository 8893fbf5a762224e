-- ===== src/Signing/Soundness.antt =====
-- What a signer signs is recognised by whoever reads its public key, keys are read back from their
-- hexadecimal form, and which exceptions there are.
use sci_ledger_sawtooth.Prelude.{◌≡◌, inl, inr, arith}
use sci_ledger_sawtooth.Text.{Text, Bytes}
use sci_ledger_sawtooth.Text.Hex.{hexlify, unhexlify-hexlify, fromhex-hexlify}
use sci_ledger_sawtooth.Errors.{ok, Result-cases}
use sci_ledger_sawtooth.Signing.Core.{IsSound}
use sci_ledger_sawtooth.Signing.Keys.{
  Secp256k1, IsSecp256k1, Secp256k1PrivateKey, Secp256k1PublicKey, private_as_hex,
  private_from_bytes, private_from_hex, public_as_hex, public_from_bytes, public_from_hex,
  secp256k1_context, sign, verify, get_public_key,
}

module _ {W K P S : Type 0} (lib : Secp256k1 W K P S) where
  -- What is known of the context's signature of a message.
  pub record IsSigned (k : K) (message : Bytes) (signature : Text) : Type 0 where
    pub s : S
    pub b : Bytes
    pub signed : lib.ecdsa_sign k message ≡ ok s
    pub compact : lib.ecdsa_serialize_compact k s ≡ ok b
    pub written : signature ≡ hexlify b

  pub sign-IsSigned :
      (key : Secp256k1PrivateKey K) (message : Bytes) (signature : Text)
      → sign lib message key ≡ ok signature
      → IsSigned key.secp256k1_private_key message signature
  unfolding sign
  sign-IsSigned key message signature h =
      elim (Result-cases (lib.ecdsa_sign key.secp256k1_private_key message)) [
        | inr (e, u) ↦ absurd (ground arith)
        | inl (s, u) ↦
            elim (Result-cases (lib.ecdsa_serialize_compact key.secp256k1_private_key s)) [
              | inr (e, v) ↦ absurd (ground arith)
              | inl (b, v) ↦ record {
                s = s;
                b = b;
                signed = u;
                compact = v;
                written = ground arith;
              }
            ]
      ]

module _ {W K P S : Type 0} (lib : Secp256k1 W K P S) (law : IsSecp256k1 lib) where
  -- What `as_hex` writes of a private key `from_hex` reads back.
  pub private_from_hex-private_as_hex :
      (key : Secp256k1PrivateKey K) → private_from_hex lib (private_as_hex lib key) ≡ ok key
  unfolding private_from_hex private_as_hex private_from_bytes
  private_from_hex-private_as_hex key = ground (
    arith,
    law.private_again key.secp256k1_private_key,
    unhexlify-hexlify (lib.private_bytes key.secp256k1_private_key)
        (law.private_is_bytes key.secp256k1_private_key),
  )

  pub public_from_hex-public_as_hex :
      (key : Secp256k1PublicKey P) → public_from_hex lib (public_as_hex lib key) ≡ ok key
  unfolding public_from_hex public_as_hex public_from_bytes
  public_from_hex-public_as_hex key = ground (
    arith,
    law.public_again key.secp256k1_public_key,
    unhexlify-hexlify (lib.public_bytes key.secp256k1_public_key)
        (law.public_is_bytes key.secp256k1_public_key),
  )

  pub secp256k1_context-IsSound : IsSound (secp256k1_context lib)
  unfolding IsSound secp256k1_context verify get_public_key
  secp256k1_context-IsSound key message signature h =
      let k = key.secp256k1_private_key in
      let r = sign-IsSigned lib key message signature h in
      ground (
        arith,
        r.written,
        fromhex-hexlify r.b (law.compact_is_bytes k r.s r.b r.compact),
        law.compact_again k (lib.pubkey k) r.s r.b r.compact,
        law.verifies k message r.s r.signed,
      )
