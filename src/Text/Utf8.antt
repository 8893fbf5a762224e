-- ===== src/Text/Utf8.antt =====
-- `str.encode()` and `bytes.decode()`: strict UTF-8. `none` is UnicodeEncodeError and
-- UnicodeDecodeError, which are ValueErrors. The decoder reads one byte at a time.
pub mod Scalar
use Prim.Native.Nat.{◌/◌, ◌%◌}
use sci_ledger_sawtooth.Prelude.{
  ℕ, ◌+◌, ◌-◌, ◌*◌, ◌≡◌, ◌&&◌, [], ◌∷◌, ◌++◌, Option, none, some, arith, ltb, leb, ◌==◌,
  if◌then◌else◌, refl,
}
use sci_ledger_sawtooth.Text.{Text, Bytes}

pub encode_char : ℕ → Option Bytes
encode_char c =
    if ltb c 128
    then some (c ∷ [])
    else if ltb c 2048
    then some ((192 + c / 64) ∷ (128 + c % 64) ∷ [])
    else if ltb c 65536
    then (if leb 55296 c && leb c 57343
        then none
        else some ((224 + c / 4096) ∷ (128 + c / 64 % 64) ∷ (128 + c % 64) ∷ []))
    else if ltb c 1114112
    then some
        ((240 + c / 262144) ∷ (128 + c / 4096 % 64) ∷ (128 + c / 64 % 64) ∷ (128 + c % 64) ∷ [])
    else none

abbrev pub append_char : Option Bytes → Option Bytes → Option Bytes
append_char none r = none
append_char (some b) none = none
append_char (some b) (some r) = some (b ++ r)

appended :
    (bc br : Option Bytes) (b : Bytes)
    → append_char bc br ≡ some b
    → (x y : Bytes) × (bc ≡ some x) × (br ≡ some y) × (b ≡ x ++ y)
appended none br b h = cc
appended (some x) none b h = cc
appended (some x) (some y) b h = (x, y, refl, refl, ground arith)

unfoldable pub encode : Text → Option Bytes
unfolding encode_char
encode [] = some []
encode (c ∷ s) = append_char (encode_char c) (encode s)

-- `need n lo hi acc`: n more bytes, the next between lo and hi; acc is what was read so far.
pub data Pending : Type 0 where
  ready : Pending
  need : ℕ → ℕ → ℕ → ℕ → Pending

abbrev pub begin : ℕ → Option (Pending × Text)
begin b =
    if ltb b 128
    then some (ready, b ∷ [])
    else if leb 194 b && leb b 223
    then some (need 1 128 191 (b - 192), [])
    else if leb 224 b && leb b 239
    then some (need 2 (if b == 224 then 160 else 128) (if b == 237 then 159 else 191) (b - 224), [])
    else if leb 240 b && leb b 244
    then some (need 3 (if b == 240 then 144 else 128) (if b == 244 then 143 else 191) (b - 240), [])
    else none

abbrev pub feed : Pending → ℕ → Option (Pending × Text)
feed ready b = begin b
feed (need n lo hi acc) b =
    if leb lo b && leb b hi
    then (if n == 1
        then some (ready, (acc * 64 + (b - 128)) ∷ [])
        else some (need (n - 1) 128 191 (acc * 64 + (b - 128)), []))
    else none

abbrev pub emit : Text → Option Text → Option Text
emit out none = none
emit out (some s) = some (out ++ s)

pub decode_from : Pending → Bytes → Option Text
decode_from ready [] = some []
decode_from (need _ _ _ _) [] = none
decode_from p (b ∷ r) = elim (feed p b) [
  | none ↦ none
  | some (p', out) ↦ emit out (decode_from p' r)
]

unfoldable pub decode : Bytes → Option Text
unfolding decode_from
decode b = decode_from ready b

decode_from-encode_char :
    (c : ℕ) (b r : Bytes)
    → encode_char c ≡ some b
    → decode_from ready (b ++ r) ≡ emit (c ∷ []) (decode_from ready r)
unfolding decode_from encode_char
decode_from-encode_char c b r h = ground arith

encode-nil : (b : Bytes) → encode [] ≡ some b → decode b ≡ some []
unfolding encode decode
encode-nil b h = ground arith

-- An encoding of a nonempty text has the encoding of its first character in front.
encode-cons :
    (c : ℕ) (s : Text) (b : Bytes)
    → encode (c ∷ s) ≡ some b
    → (bc r : Bytes) × (encode_char c ≡ some bc) × (encode s ≡ some r) × (b ≡ bc ++ r)
unfolding encode
encode-cons c s b h = appended (encode_char c) (encode s) b h

decode-append :
    (c : ℕ) (bc r : Bytes) → encode_char c ≡ some bc → decode (bc ++ r) ≡ emit (c ∷ []) (decode r)
unfolding decode
decode-append = decode_from-encode_char

-- Decoding what was encoded gives the text back.
pub decode-encode : (s : Text) (b : Bytes) → encode s ≡ some b → decode b ≡ some s
decode-encode [] b h = encode-nil b h
decode-encode (c ∷ s) b h =
    let (bc, r, ec, es, eb) = encode-cons c s b h in
    rw eb (rw (decode-append c bc r ec, decode-encode s r es) refl)
