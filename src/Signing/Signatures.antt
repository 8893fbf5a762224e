-- ===== src/Signing/Signatures.antt =====
-- The signer of sawtooth_signing/__init__.py: what it signs is recognised by whoever reads its public
-- key, at every use.
use sci_ledger_sawtooth.Prelude.{◌≡◌, refl, ◌⊎◌, inl, inr, true, none, some, arith, Option-cases}
use sci_ledger_sawtooth.Text.{Text, Bytes, text_eq_iff}
use sci_ledger_sawtooth.Errors.{ok}
use sci_ledger_sawtooth.Signing.Core.{Context, IsSound}
use sci_ledger_sawtooth.Signing.{
  Signer, CryptoFactory, new_signer, create_context, sign, get_public_key,
}
use sci_ledger_sawtooth.Signing.Keys.{
  Secp256k1, IsSecp256k1, Secp256k1PrivateKey, Secp256k1PublicKey, secp256k1_name, public_as_hex,
  public_from_hex, secp256k1_context,
}
use sci_ledger_sawtooth.Signing.Soundness.{public_from_hex-public_as_hex, secp256k1_context-IsSound}

module _ {W K P : Type 0} where
  -- The key that a signer remembers is that of its private key.
  unfoldable pub IsFaithful : Signer W K P → Type 0
  IsFaithful signer =
      (signer.public_key ≡ none)
      ⊎ (signer.public_key ≡ some (signer.context.get_public_key signer.private_key))

  -- The uses of a signer, of which only the last changes it.
  pub data Uses : Signer W K P → Signer W K P → Type 0 where
    unused : {signer : Signer W K P} → Uses signer signer
    public_key_got :
        {signer end : Signer W K P} → Uses (get_public_key signer).1 end → Uses signer end

  pub record IsKept (signer end : Signer W K P) : Type 0 where
    pub context : end.context ≡ signer.context
    pub private_key : end.private_key ≡ signer.private_key
    pub faithful : IsFaithful end

  pub get_public_key-IsKept :
      (signer : Signer W K P) → IsFaithful signer → IsKept signer (get_public_key signer).1
  unfolding get_public_key IsFaithful
  get_public_key-IsKept signer f = elim (Option-cases (signer.public_key)) [
    | inl e ↦ record { context = ground arith; private_key = ground arith; faithful = ground arith }
    | inr (p, e) ↦ record {
      context = ground arith;
      private_key = ground arith;
      faithful = ground arith;
    }
  ]

  Uses-IsKept :
      {signer end : Signer W K P} → Uses signer end → IsFaithful signer → IsKept signer end
  Uses-IsKept unused f = record { context = refl; private_key = refl; faithful = f }
  Uses-IsKept {signer = signer} (public_key_got u) f =
      let k = get_public_key-IsKept signer f in
      let r = Uses-IsKept u k.faithful in
      record {
        context = ground (arith, k.context, r.context);
        private_key = ground (arith, k.private_key, r.private_key);
        faithful = r.faithful;
      }

  pub get_public_key_same :
      (signer : Signer W K P)
      → IsFaithful signer
      → (get_public_key signer).0 ≡ signer.context.get_public_key signer.private_key
  unfolding get_public_key IsFaithful
  get_public_key_same signer f = ground arith

  -- A signer of a sound context that the factory made and that has been asked for its public key any
  -- number of times gives the same public key as at first, and the context recognises with it what
  -- the signer signs.
  pub sign-Uses :
      (factory : CryptoFactory W K P) (private_key : K) (signer : Signer W K P) (message : Bytes)
      (signature : Text)
      → IsSound factory.context
      → Uses (new_signer factory private_key) signer
      → sign signer message ≡ ok signature
      → ((get_public_key signer).0 ≡ (get_public_key (new_signer factory private_key)).0)
        × (factory.context.verify signature message (get_public_key signer).0 ≡ ok true)
  unfolding new_signer sign IsFaithful IsSound
  sign-Uses factory private_key signer message signature sound u s =
      let k = Uses-IsKept u (inl refl) in
      let p = get_public_key_same signer k.faithful in
      let q = get_public_key_same (new_signer factory private_key) (inl refl) in
      (
        ground (arith, p, q, k.context, k.private_key),
        ground (
          arith,
          p,
          k.context,
          k.private_key,
          sound private_key message signature (ground (arith, k.context, k.private_key)),
        ),
      )

module _ {W K P S : Type 0} (lib : Secp256k1 W K P S) (law : IsSecp256k1 lib) where
  -- `create_context("secp256k1")` gives a context. With a signer that the factory of it made, at any
  -- use, whose public key is passed on in hexadecimal: whoever reads that text has a key, and with it
  -- the context recognises every signature that the signer makes.
  pub sign-create_context :
      (context : Context W (Secp256k1PrivateKey K) (Secp256k1PublicKey P))
      (private_key : Secp256k1PrivateKey K)
      (signer : Signer W (Secp256k1PrivateKey K) (Secp256k1PublicKey P)) (message : Bytes)
      (signature : Text)
      → create_context lib secp256k1_name ≡ ok context
      → Uses (new_signer (record { context = context }) private_key) signer
      → sign signer message ≡ ok signature
      → (public_key : Secp256k1PublicKey P) × (public_from_hex lib
            (public_as_hex lib (get_public_key signer).0)
          ≡ ok public_key)
        × (context.verify signature message public_key ≡ ok true)
  unfolding create_context
  sign-create_context context private_key signer message signature c u s =
      let e : secp256k1_context lib ≡ context =
        ground (arith, text_eq_iff secp256k1_name secp256k1_name) in
      let sound : IsSound context = rw (← e) (secp256k1_context-IsSound lib law) in
      let r =
        sign-Uses (record { context = context }) private_key signer message signature sound u s in
      (
        (get_public_key signer).0,
        public_from_hex-public_as_hex lib law (get_public_key signer).0,
        r.1,
      )
