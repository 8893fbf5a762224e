-- ===== src/Text/Hex.antt =====
-- Hexadecimal text: `binascii.hexlify`, `bytes.hex`, `binascii.unhexlify` and `bytes.fromhex`.
use sci_ledger_sawtooth.Prelude.{
  ℕ, ◌+◌, ◌-◌, ◌*◌, ◌/◌, ◌%◌, ◌<◌, ◌≡◌, refl, Bool, true, false, ◌&&◌, Option, none, some, [], ◌∷◌,
  arith, leb, ltb, All, if◌then◌else◌, ◌==◌, ◌||◌,
}
use sci_ledger_sawtooth.Text.{Text, Bytes}

unfoldable pub hex_digit : ℕ → ℕ
hex_digit n = if ltb n 10 then 48 + n else 87 + n

unfoldable pub hex_value : ℕ → Option ℕ
hex_value c =
    if leb 48 c && leb c 57
    then some (c - 48)
    else if leb 97 c && leb c 102
    then some (c - 87)
    else if leb 65 c && leb c 70
    then some (c - 55)
    else none

-- `binascii.hexlify(b).decode()` and `b.hex()`
unfoldable pub hexlify : Bytes → Text
unfolding hex_digit
hexlify [] = []
hexlify (b ∷ bs) = hex_digit (b / 16) ∷ hex_digit (b % 16) ∷ hexlify bs

abbrev byte_of : Option ℕ → Option ℕ → Option Bytes → Option Bytes
byte_of (some h) (some l) (some bs) = some ((h * 16 + l) ∷ bs)
byte_of _ _ _ = none

-- `binascii.unhexlify(s)`; `none` is binascii.Error or ValueError
unfoldable pub unhexlify : Text → Option Bytes
unfolding hex_value
unhexlify [] = some []
unhexlify (c ∷ []) = none
unhexlify (c ∷ d ∷ s) = byte_of (hex_value c) (hex_value d) (unhexlify s)

-- The white space that `fromhex` skips between two bytes.
abbrev is_white : ℕ → Bool
is_white c = (c == 32) || (leb 9 c && leb c 13)

-- `bytes.fromhex(s)`; `none` is ValueError
unfoldable pub fromhex : Text → Option Bytes
unfolding hex_value
fromhex [] = some []
fromhex (c ∷ []) = if is_white c then some [] else none
fromhex (c ∷ d ∷ s) = elim (is_white c) [
  | true ↦ fromhex (d ∷ s)
  | false ↦ byte_of (hex_value c) (hex_value d) (fromhex s)
]

abbrev pub IsByte : ℕ → Type 0
IsByte b = b < 256

hex_value-hex_digit : (n : ℕ) → n < 16 → hex_value (hex_digit n) ≡ some n
unfolding hex_value hex_digit
hex_value-hex_digit n h = ground arith

hex_digit-is_white : (n : ℕ) → is_white (hex_digit n) ≡ false
unfolding hex_digit
hex_digit-is_white n = ground arith

-- What `hexlify` writes, `unhexlify` and `fromhex` read back.
pub unhexlify-hexlify : (b : Bytes) → All IsByte b → unhexlify (hexlify b) ≡ some b
unfolding hexlify unhexlify
unhexlify-hexlify [] h = refl
unhexlify-hexlify (b ∷ bs) h = ground (
  arith,
  unhexlify-hexlify bs h.1,
  hex_value-hex_digit (b / 16) (omega arith),
  hex_value-hex_digit (b % 16) (omega arith),
)

pub fromhex-hexlify : (b : Bytes) → All IsByte b → fromhex (hexlify b) ≡ some b
unfolding hexlify fromhex
fromhex-hexlify [] h = refl
fromhex-hexlify (b ∷ bs) h = ground (
  arith,
  hex_digit-is_white (b / 16),
  fromhex-hexlify bs h.1,
  hex_value-hex_digit (b / 16) (omega arith),
  hex_value-hex_digit (b % 16) (omega arith),
)
