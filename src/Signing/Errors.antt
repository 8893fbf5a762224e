-- ===== src/Signing/Errors.antt =====
-- The exceptions of the calls on keys and signatures.
use sci_ledger_sawtooth.Prelude.{◌≡◌, refl, inl, inr, Bool, true, false, some, arith, Option-cases}
use sci_ledger_sawtooth.Text.{Text, Bytes}
use sci_ledger_sawtooth.Text.Hex.{unhexlify, fromhex}
use sci_ledger_sawtooth.Errors.{
  Exn, Result, ok, err, cause, format, parse_error, signing_error, keyboard_interrupt, ◌>>=◌,
  rescue, Result-cases,
}
use sci_ledger_sawtooth.Signing.Soundness.{IsSigned, sign-IsSigned}
use sci_ledger_sawtooth.Signing.Keys.{
  Secp256k1, Secp256k1PrivateKey, Secp256k1PublicKey, or_value_error, private_from_bytes,
  private_from_hex, public_from_bytes, public_from_hex, sign, verify,
}

-- A call that is done, raises one exception, or is interrupted.
pub data Raises {A : Type 0} (e : Exn) (Done : A → Type 0) : Result A → Type 0 where
  done : (a : A) → Done a → Raises e Done (ok a)
  raised : Raises e Done (err e)
  interrupted : Raises e Done (err keyboard_interrupt)

module _ {A : Type 0} (e : Exn) (Done : A → Type 0) (caught : (e' : Exn) → Result A) where
  rescue-Raises :
      (r : Result A)
      → ((a : A) → r ≡ ok a → Done a)
      → ((e' : Exn) → Raises e Done (caught e'))
      → Raises e Done (rescue r caught)
  rescue-Raises (ok a) d h = done a (d a refl)
  rescue-Raises (err keyboard_interrupt) d h = interrupted
  rescue-Raises (err e') d h = h e'

-- A key whose bytes a hexadecimal text gives, and which the library accepts.
pub record IsRead {Key Raw : Type 0} (raw_of : Bytes → Result Raw) (raw : Key → Raw) (s : Text)
    (key : Key) : Type 0 where
  b : Bytes
  bytes : unhexlify s ≡ some b
  accepted : raw_of b ≡ ok (raw key)

abbrev pub bad_private : Exn
bad_private = parse_error (format "Unable to parse hex private key: {}" cause)

abbrev pub bad_public : Exn
bad_public = parse_error (format "Unable to parse hex public key: {}" cause)

abbrev pub unsigned : Exn
unsigned = signing_error (format "Unable to sign message: {}" cause)

module _ {Key Raw : Type 0} (raw_of : Bytes → Result Raw) (make : Raw → Key) (raw : Key → Raw) where
  from_hex-IsRead :
      (same : (r : Raw) → raw (make r) ≡ r) (s : Text) (key : Key)
      → (or_value_error (unhexlify s) >>= λ b. raw_of b >>= λ r. ok (make r)) ≡ ok key
      → IsRead raw_of raw s key
  from_hex-IsRead same s key h = elim (Option-cases (unhexlify s)) [
    | inl u ↦ absurd (ground arith)
    | inr (b, u) ↦ elim (Result-cases (raw_of b)) [
      | inr (e, v) ↦ absurd (ground arith)
      | inl (r, v) ↦ record { b = b; bytes = u; accepted = ground (arith, same r) }
    ]
  ]

module _ {W K P S : Type 0} (lib : Secp256k1 W K P S) where
  private_from_hex-Raises :
      (s : Text)
      → Raises bad_private
          (IsRead lib.private_of (λ k. k.secp256k1_private_key) s)
          (private_from_hex lib s)
  unfolding private_from_hex private_from_bytes
  private_from_hex-Raises s =
      rescue-Raises _ _ _ _ (from_hex-IsRead lib.private_of _ _ (λ r. refl) s) (λ e'. raised)

  public_from_hex-Raises :
      (s : Text)
      → Raises bad_public
          (IsRead lib.public_of (λ k. k.secp256k1_public_key) s)
          (public_from_hex lib s)
  unfolding public_from_hex public_from_bytes
  public_from_hex-Raises s =
      rescue-Raises _ _ _ _ (from_hex-IsRead lib.public_of _ _ (λ r. refl) s) (λ e'. raised)

  sign-Raises :
      (key : Secp256k1PrivateKey K) (message : Bytes)
      → Raises unsigned (IsSigned lib key.secp256k1_private_key message) (sign lib message key)
  unfolding sign
  sign-Raises key message =
      rescue-Raises _ _ _ _ (λ signature h. sign-IsSigned lib key message signature (ground arith))
        (λ e'. raised)

  -- The text is bytes, they are a signature, and the library recognises it.
  pub record IsValid (key : Secp256k1PublicKey P) (message : Bytes) (signature : Text)
      : Type 0 where
    s : S
    b : Bytes
    bytes : fromhex signature ≡ some b
    compact : lib.ecdsa_deserialize_compact key.secp256k1_public_key b ≡ ok s
    pub verified : lib.ecdsa_verify key.secp256k1_public_key message s ≡ ok true

  recognised-IsValid :
      (key : Secp256k1PublicKey P) (message : Bytes) (signature : Text) (t : Bool)
      → (or_value_error (fromhex signature)
          >>= (λ b. lib.ecdsa_deserialize_compact key.secp256k1_public_key b)
          >>= λ s. lib.ecdsa_verify key.secp256k1_public_key message s)
        ≡ ok t
      → t ≡ true
      → IsValid key message signature
  recognised-IsValid key message signature t h e = elim (Option-cases (fromhex signature)) [
    | inl u ↦ absurd (ground arith)
    | inr (b, u) ↦ elim (Result-cases (lib.ecdsa_deserialize_compact key.secp256k1_public_key b)) [
      | inr (e', v) ↦ absurd (ground arith)
      | inl (s, v) ↦ record { s = s; b = b; bytes = u; compact = v; verified = ground arith }
    ]
  ]

  verify-Raises :
      (key : Secp256k1PublicKey P) (message : Bytes) (signature : Text)
      → Raises keyboard_interrupt
          (λ t. (t ≡ true) → IsValid key message signature)
          (verify lib signature message key)
  unfolding verify
  verify-Raises key message signature =
      rescue-Raises _ _ _ _ (recognised-IsValid key message signature)
        (λ e'. done false (λ e. absurd (ground arith)))

-- Reading a private or a public key from a text lets pass, beside an interrupt, only the ParseError
-- of that kind of key, and accepts only hexadecimal text whose bytes the library accepts. Signing lets
-- pass only the SigningError, and what it makes is the compact form of the library's signature.
-- Verifying lets nothing but an interrupt pass, and answers true only for the hexadecimal text of a
-- signature that the library recognises.
pub exceptions_lem :
    {W K P S : Type 0} (lib : Secp256k1 W K P S) (s : Text) (message : Bytes)
    (key : Secp256k1PrivateKey K) (public_key : Secp256k1PublicKey P)
    → Raises bad_private
        (IsRead lib.private_of (λ k. k.secp256k1_private_key) s)
        (private_from_hex lib s)
      × Raises bad_public
          (IsRead lib.public_of (λ k. k.secp256k1_public_key) s)
          (public_from_hex lib s)
      × Raises unsigned (IsSigned lib key.secp256k1_private_key message) (sign lib message key)
      × Raises keyboard_interrupt
          (λ t. (t ≡ true) → IsValid lib public_key message s)
          (verify lib s message public_key)
exceptions_lem lib s message key public_key = (
  private_from_hex-Raises lib s,
  public_from_hex-Raises lib s,
  sign-Raises lib key message,
  verify-Raises lib public_key message s,
)
