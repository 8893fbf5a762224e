-- ===== src/Signing/Keys.antt =====
-- sawtooth_signing/secp256k1.py: keys and the context. The library secp256k1 is the parameter `lib`.
use sci_ledger_sawtooth.Prelude.{◌≡◌, Bool, true, false, Option, none, some, All}
use sci_ledger_sawtooth.Text.{Text, Bytes, codes}
use sci_ledger_sawtooth.Text.Hex.{hexlify, unhexlify, fromhex, IsByte}
use sci_ledger_sawtooth.Errors.{
  cause, format, Result, ok, err, value_error, parse_error, signing_error, ◌>>=◌, rescue,
}
use sci_ledger_sawtooth.Action.{Action}
use sci_ledger_sawtooth.Signing.Core.{Context}

-- The calls of the library: `PrivateKey(bytes)`, `PrivateKey()`, `private_key`, `pubkey`,
-- `PublicKey(bytes, raw=True)`, `serialize` and the four of ECDSA.
pub record Secp256k1 (Source Private Public Signature : Type 0) : Type 0 where
  pub private_of : Bytes → Result Private
  pub random_private : Action Source Private
  pub private_bytes : Private → Bytes
  pub pubkey : Private → Public
  pub public_of : Bytes → Result Public
  pub public_bytes : Public → Bytes
  pub ecdsa_sign : Private → Bytes → Result Signature
  pub ecdsa_serialize_compact : Private → Signature → Result Bytes
  pub ecdsa_deserialize_compact : Public → Bytes → Result Signature
  pub ecdsa_verify : Public → Bytes → Signature → Result Bool

-- What the library documents: a key is read back from its bytes, a signature from its compact form,
-- and a signature verifies under the public key of the private key that made it.
pub record IsSecp256k1 {W K P S : Type 0} (lib : Secp256k1 W K P S) : Type 0 where
  pub private_is_bytes : (k : K) → All IsByte (lib.private_bytes k)
  pub private_again : (k : K) → lib.private_of (lib.private_bytes k) ≡ ok k
  pub public_is_bytes : (p : P) → All IsByte (lib.public_bytes p)
  pub public_again : (p : P) → lib.public_of (lib.public_bytes p) ≡ ok p
  pub compact_is_bytes :
      (k : K) (s : S) (b : Bytes) → lib.ecdsa_serialize_compact k s ≡ ok b → All IsByte b
  pub compact_again :
      (k : K) (p : P) (s : S) (b : Bytes)
      → lib.ecdsa_serialize_compact k s ≡ ok b
      → lib.ecdsa_deserialize_compact p b ≡ ok s
  pub verifies :
      (k : K) (message : Bytes) (s : S)
      → lib.ecdsa_sign k message ≡ ok s
      → lib.ecdsa_verify (lib.pubkey k) message s ≡ ok true

pub record Secp256k1PrivateKey (K : Type 0) : Type 0 where
  pub secp256k1_private_key : K

pub record Secp256k1PublicKey (P : Type 0) : Type 0 where
  pub secp256k1_public_key : P

abbrev pub or_value_error {ℓ} : {A : Type ℓ} → Option A → Result A
or_value_error none = err value_error
or_value_error (some a) = ok a

abbrev pub secp256k1_name : Text
secp256k1_name = codes "secp256k1"

module _ {W K P S : Type 0} (lib : Secp256k1 W K P S) where
  unfoldable pub private_as_hex : Secp256k1PrivateKey K → Text
  private_as_hex key = hexlify (lib.private_bytes key.secp256k1_private_key)

  unfoldable pub private_from_bytes : Bytes → Result (Secp256k1PrivateKey K)
  private_from_bytes byte_str =
      lib.private_of byte_str >>= λ k. ok (record { secp256k1_private_key = k })

  unfoldable pub private_from_hex : Text → Result (Secp256k1PrivateKey K)
  unfolding private_from_bytes
  private_from_hex hex_str =
      rescue (or_value_error (unhexlify hex_str) >>= private_from_bytes)
        (λ e. err (parse_error (format "Unable to parse hex private key: {}" cause)))

  unfoldable pub new_random : Action W (Secp256k1PrivateKey K)
  new_random w =
      let (r, w') = lib.random_private w in
      (r >>= (λ k. ok (record { secp256k1_private_key = k })), w')

  unfoldable pub public_as_hex : Secp256k1PublicKey P → Text
  public_as_hex key = hexlify (lib.public_bytes key.secp256k1_public_key)

  unfoldable pub public_from_bytes : Bytes → Result (Secp256k1PublicKey P)
  public_from_bytes byte_str =
      lib.public_of byte_str >>= λ p. ok (record { secp256k1_public_key = p })

  unfoldable pub public_from_hex : Text → Result (Secp256k1PublicKey P)
  unfolding public_from_bytes
  public_from_hex hex_str =
      rescue (or_value_error (unhexlify hex_str) >>= public_from_bytes)
        (λ e. err (parse_error (format "Unable to parse hex public key: {}" cause)))

  unfoldable pub sign : Bytes → Secp256k1PrivateKey K → Result Text
  sign message key =
      rescue
        (lib.ecdsa_sign key.secp256k1_private_key message
          >>= (λ s. lib.ecdsa_serialize_compact key.secp256k1_private_key s)
          >>= λ b. ok (hexlify b))
        (λ e. err (signing_error (format "Unable to sign message: {}" cause)))

  -- `signature` is a text, as the callers give it
  unfoldable pub verify : Text → Bytes → Secp256k1PublicKey P → Result Bool
  verify signature message key =
      rescue
        (or_value_error (fromhex signature)
          >>= (λ b. lib.ecdsa_deserialize_compact key.secp256k1_public_key b)
          >>= λ s. lib.ecdsa_verify key.secp256k1_public_key message s)
        (λ e. ok false)

  unfoldable pub get_public_key : Secp256k1PrivateKey K → Secp256k1PublicKey P
  get_public_key key = record { secp256k1_public_key = lib.pubkey key.secp256k1_private_key }

  unfoldable pub secp256k1_context : Context W (Secp256k1PrivateKey K) (Secp256k1PublicKey P)
  secp256k1_context = record {
    algorithm_name = secp256k1_name;
    sign = sign;
    verify = verify;
    new_random_private_key = new_random;
    get_public_key = get_public_key;
  }
