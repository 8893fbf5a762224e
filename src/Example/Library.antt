-- ===== src/Example/Library.antt =====
-- A small stand-in for the library secp256k1: a key is one of two, and a signature is the key's number
-- and the message's first byte. The world is a number, the time of its clock.
use sci_ledger_sawtooth.Prelude.{
  ℕ, ◌≡◌, refl, Bool, true, false, ◌&&◌, [], ◌∷◌, arith, ◌==◌, ◌%◌, All, if◌then◌else◌, ltb,
}
use sci_ledger_sawtooth.Text.{Bytes, text_eq, text_eq_iff}
use sci_ledger_sawtooth.Text.Hex.{IsByte}
use sci_ledger_sawtooth.Errors.{Result, ok, err, value_error}
use sci_ledger_sawtooth.Signing.Keys.{Secp256k1, IsSecp256k1}

abbrev pub number_of : Bool → ℕ
number_of true = 2
number_of false = 1

unfoldable pub key_of : Bytes → Result Bool
key_of [] = err value_error
key_of (b ∷ []) = if b == 2 then ok true else if b == 1 then ok false else err value_error
key_of (b ∷ c ∷ bs) = err value_error

abbrev pub first : Bytes → ℕ
first [] = 0
first (b ∷ bs) = b

abbrev pub signed_by : Bool → Bytes → Bytes
signed_by k message = number_of k ∷ (first message % 256) ∷ []

unfoldable pub all_bytes : Bytes → Bool
all_bytes [] = true
all_bytes (b ∷ bs) = ltb b 256 && all_bytes bs

abbrev pub toy : Secp256k1 ℕ Bool Bool Bytes
toy = record {
  private_of = key_of;
  random_private = λ w. (ok true, w);
  private_bytes = λ k. number_of k ∷ [];
  pubkey = λ k. k;
  public_of = key_of;
  public_bytes = λ k. number_of k ∷ [];
  ecdsa_sign = λ k message. ok (signed_by k message);
  ecdsa_serialize_compact = λ k s. if all_bytes s then ok s else err value_error;
  ecdsa_deserialize_compact = λ p b. ok b;
  ecdsa_verify = λ p message s. ok (text_eq s (signed_by p message));
}

all_bytes-IsByte : (b : Bytes) → all_bytes b ≡ true → All IsByte b
unfolding all_bytes
all_bytes-IsByte [] h = tt
all_bytes-IsByte (c ∷ b) h = (ground arith, all_bytes-IsByte b (ground arith))

number-IsByte : (k : Bool) → All IsByte (number_of k ∷ [])
number-IsByte true = (omega arith, tt)
number-IsByte false = (omega arith, tt)

again : (k : Bool) → key_of (number_of k ∷ []) ≡ ok k
unfolding key_of
again true = refl
again false = refl

compact :
    (s b : Bytes)
    → (if all_bytes s then ok s else err value_error) ≡ ok b
    → (s ≡ b) × (all_bytes s ≡ true)
compact s b h = ground arith

pub toy-IsSecp256k1 : IsSecp256k1 toy
toy-IsSecp256k1 = record {
  private_is_bytes = number-IsByte;
  private_again = again;
  public_is_bytes = number-IsByte;
  public_again = again;
  compact_is_bytes = λ k s b h. let q = compact s b h in rw (← q.0) (all_bytes-IsByte s q.1);
  compact_again = λ k p s b h. ground (arith, compact s b h);
  verifies = λ k message s h. ground (arith, text_eq_iff s (signed_by k message));
}
