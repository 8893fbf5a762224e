-- ===== src/Text/Numbers.antt =====
-- Numbers as text: `str(n)` and `hex(n)` of a number that is not negative.
use sci_ledger_sawtooth.Prelude.{
  ℕ, zero, suc, ◌+◌, ◌*◌, ◌-◌, Bool-cases, inl, inr, ◌/◌, ◌%◌, ◌<◌, ◌≤◌, ◌≡◌, ◌≢◌, refl, [], ◌∷◌,
  ◌++◌, arith, ltb, if◌then◌else◌, All, All-append,
}
use sci_ledger_sawtooth.Text.{Text, codes}
use sci_ledger_sawtooth.Text.Hex.{hex_digit}

-- The digits of n, most significant first; each step divides by the base, so fuel above n is enough.
digits : ℕ → ℕ → ℕ → Text
unfolding hex_digit
digits base zero n = []
digits base (suc fuel) n =
    let rest = digits base fuel (n / base) in
    if ltb n base then hex_digit n ∷ [] else rest ++ hex_digit (n % base) ∷ []

unfoldable pub str : ℕ → Text
unfolding digits
str n = digits 10 (suc n) n

unfoldable pub hex : ℕ → Text
unfolding digits
hex n = codes "0x" ++ digits 16 (suc n) n

str_test : str 2048 ≡ codes "2048"
unfolding str digits hex_digit
str_test = refl

hex_test : hex 2748 ≡ codes "0xabc"
unfolding hex digits hex_digit
hex_test = refl

abbrev pub IsDigit : ℕ → Type 0
IsDigit c = (48 ≤ c) × (c < 58)

-- What a text of decimal digits stands for.
unfoldable pub value : ℕ → Text → ℕ
value acc [] = acc
value acc (c ∷ s) = value (acc * 10 + (c - 48)) s

value-append : (s t : Text) (acc : ℕ) → value acc (s ++ t) ≡ value (value acc s) t
unfolding value
value-append [] t acc = refl
value-append (c ∷ s) t acc = value-append s t (acc * 10 + (c - 48))

module _ (fuel n : ℕ) where
  digits_small : n < 10 → digits 10 (suc fuel) n ≡ (48 + n) ∷ []
  unfolding digits hex_digit
  digits_small h = ground arith

  digits_large : 10 ≤ n → digits 10 (suc fuel) n ≡ digits 10 fuel (n / 10) ++ (48 + n % 10) ∷ []
  unfolding digits hex_digit
  digits_large h = ground arith

digits_lem :
    (fuel n : ℕ) → n < fuel → All IsDigit (digits 10 fuel n) × (value 0 (digits 10 fuel n) ≡ n)
unfolding value
digits_lem zero n h = absurd (omega arith)
digits_lem (suc fuel) n h = elim (Bool-cases (ltb n 10)) [
  | inl e ↦
      rw (digits_small fuel n (ground arith), All) (((ground arith, ground arith), tt), omega arith)
  | inr e ↦
      let r = digits_lem fuel (n / 10) (ground arith) in
      rw (digits_large fuel n (ground arith)) (
        All-append IsDigit _ _ r.0 ((ground arith, ground arith), tt),
        ground (arith, value-append (digits 10 fuel (n / 10)) ((48 + n % 10) ∷ []) 0, r.1),
      )
]

append-ne-nil : (s : Text) (c : ℕ) → s ++ c ∷ [] ≢ []
append-ne-nil [] c = cc
append-ne-nil (d ∷ s) c = cc

digits-ne-nil : (fuel n : ℕ) → digits 10 (suc fuel) n ≢ []
digits-ne-nil fuel n = elim (Bool-cases (ltb n 10)) [
  | inl e ↦ rw (digits_small fuel n (ground arith)) (cc)
  | inr e ↦
      rw (digits_large fuel n (ground arith))
        (append-ne-nil (digits 10 fuel (n / 10)) (48 + n % 10))
]

-- `str(n)` is decimal digits that stand for n.
pub str_lem : (n : ℕ) → All IsDigit (str n) × (value 0 (str n) ≡ n) × (str n ≢ [])
unfolding str
str_lem n = let r = digits_lem (suc n) n (omega arith) in (r.0, r.1, digits-ne-nil n n)
