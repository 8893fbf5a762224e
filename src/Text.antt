-- ===== src/Text.antt =====
-- Python's `str` and `bytes` as the source uses them: a text is the list of its code points, and
-- bytes are a list of numbers below 256. `==`, truth value, slices, `split` and `join`.
pub mod Parts
pub mod Utf8
pub mod Hex
pub mod Numbers
use Prim.Native.Char.{code}
use sci_ledger_sawtooth.Prelude.{
  ℕ, zero, suc, String, ◌≡◌, refl, ◌≢◌, ◌↔◌, Bool, true, false, ◌&&◌, List, [], ◌∷◌, arith, ◌==◌,
  All, ◌||◌,
}

abbrev pub Text : Type 0
Text = List ℕ

abbrev pub Bytes : Type 0
Bytes = List ℕ

-- The code points of a literal.
abbrev pub codes : String → Text
codes String.[] = []
codes (String.◌∷◌ c s) = code c ∷ codes s

unfoldable pub text_eq : Text → Text → Bool
text_eq [] [] = true
text_eq [] (d ∷ t) = false
text_eq (c ∷ s) [] = false
text_eq (c ∷ s) (d ∷ t) = c == d && text_eq s t

text_eq_refl : (s : Text) → text_eq s s ≡ true
unfolding text_eq
text_eq_refl [] = refl
text_eq_refl (c ∷ s) = ground (arith, text_eq_refl s)

text_eq→eq : (s t : Text) → text_eq s t ≡ true → s ≡ t
unfolding text_eq
text_eq→eq [] [] h = refl
text_eq→eq [] (d ∷ t) h = cc
text_eq→eq (c ∷ s) [] h = cc
text_eq→eq (c ∷ s) (d ∷ t) h = ground (arith, text_eq→eq s t)

-- `==` of two texts is equality.
pub text_eq_iff : (s t : Text) → (text_eq s t ≡ true) ↔ (s ≡ t)
text_eq_iff s t = (text_eq→eq s t, λ e. ground (arith, text_eq_refl s, e))

-- `if text:`
abbrev pub truthy {ℓ} : {A : Type ℓ} → List A → Bool
truthy [] = false
truthy (c ∷ s) = true

-- `c in text`, for one character.
unfoldable pub contains : ℕ → Text → Bool
contains c [] = false
contains c (d ∷ s) = c == d || contains c s

-- `text[:n]`
unfoldable pub prefix : ℕ → Text → Text
prefix zero s = []
prefix (suc n) [] = []
prefix (suc n) (c ∷ s) = c ∷ prefix n s

abbrev pub Lacks : ℕ → Text → Type 0
Lacks b = All (λ c. c ≢ b)

pub contains-Lacks : (c : ℕ) (s : Text) → contains c s ≡ false → Lacks c s
unfolding contains
contains-Lacks c [] h = tt
contains-Lacks c (d ∷ s) h = ground (arith, contains-Lacks c s)

-- `text.startswith(head)`
unfoldable pub starts_with : Text → Text → Bool
starts_with s [] = true
starts_with [] (d ∷ head) = false
starts_with (c ∷ s) (d ∷ head) = c == d && starts_with s head

-- `text.endswith(tail)`
unfoldable pub ends_with : Text → Text → Bool
ends_with [] tail = text_eq [] tail
ends_with (c ∷ s) tail = text_eq (c ∷ s) tail || ends_with s tail
