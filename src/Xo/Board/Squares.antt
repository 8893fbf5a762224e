-- ===== src/Xo/Board/Squares.antt =====
-- What placing a mark does to the squares and their counts.
use native.Mathlib.Nat.{zero-add}
use sci_ledger_sawtooth.Prelude.{
  ℕ, zero, suc, ◌+◌, ◌<◌, ◌≡◌, ◌≢◌, refl, ◌⊎◌, [], ◌∷◌, none, some, arith, ◌==◌, length, get_elem?,
  if◌then◌else◌, All,
}
use sci_ledger_sawtooth.Text.{Text}
use sci_ledger_sawtooth.Xo.Board.{empty_square, mark_x, mark_o, replace_from}

-- How often a mark stands on the board.
unfoldable pub count : ℕ → Text → ℕ
count m [] = 0
count m (c ∷ b) = if c == m then suc (count m b) else count m b

abbrev pub IsSquare : ℕ → Type 0
IsSquare c = (c ≡ empty_square) ⊎ ((c ≡ mark_x) ⊎ (c ≡ mark_o))

pub length-replace_from : (s i m : ℕ) (b : Text) → length (replace_from s i m b) ≡ length b
unfolding replace_from
length-replace_from s i m [] = refl
length-replace_from s i m (c ∷ b) = ground (arith, length-replace_from (suc s) i m b)

pub get_elem?-replace_from :
    (s i m : ℕ) (b : Text) (j : ℕ)
    → get_elem? (replace_from s i m b) j ≡ (
        if s + j == i
        then elim (get_elem? b j) [ none ↦ none | some _ ↦ some m ]
        else get_elem? b j)
unfolding replace_from
get_elem?-replace_from s i m [] j = ground arith
get_elem?-replace_from s i m (c ∷ b) zero = ground arith
get_elem?-replace_from s i m (c ∷ b) (suc j) =
    ground (arith, get_elem?-replace_from (suc s) i m b j)

pub replace_from-IsSquare :
    (s i m : ℕ) (b : Text) → IsSquare m → All IsSquare b → All IsSquare (replace_from s i m b)
unfolding replace_from
replace_from-IsSquare s i m [] h k = tt
replace_from-IsSquare s i m (c ∷ b) h k = ground (arith, replace_from-IsSquare (suc s) i m b h k.1)

-- left of the square nothing changes
replace_from_below : (s i m : ℕ) (b : Text) → i < s → replace_from s i m b ≡ b
unfolding replace_from
replace_from_below s i m [] h = refl
replace_from_below s i m (c ∷ b) h = ground (arith, replace_from_below (suc s) i m b)

-- Placing a mark on an empty square adds one to its count.
count-replace_from_self :
    (s k m : ℕ) (b : Text)
    → m ≢ empty_square
    → get_elem? b k ≡ some empty_square
    → count m (replace_from s (s + k) m b) ≡ suc (count m b)
unfolding replace_from count
count-replace_from_self s k m [] ne h = cc
count-replace_from_self s zero m (c ∷ b) ne h =
    ground (arith, replace_from_below (suc s) (s + 0) m b)
count-replace_from_self s (suc k) m (c ∷ b) ne h =
    ground (arith, count-replace_from_self (suc s) k m b ne h)

-- It leaves the count of the other mark alone.
count-replace_from_other :
    (s k m n : ℕ) (b : Text)
    → n ≢ m
    → n ≢ empty_square
    → get_elem? b k ≡ some empty_square
    → count n (replace_from s (s + k) m b) ≡ count n b
unfolding replace_from count
count-replace_from_other s k m n [] ne nn h = cc
count-replace_from_other s zero m n (c ∷ b) ne nn h =
    ground (arith, replace_from_below (suc s) (s + 0) m b)
count-replace_from_other s (suc k) m n (c ∷ b) ne nn h =
    ground (arith, count-replace_from_other (suc s) k m n b ne nn h)

-- The same on a whole board.
pub count-place_self :
    (k m : ℕ) (b : Text)
    → m ≢ empty_square
    → get_elem? b k ≡ some empty_square
    → count m (replace_from 0 k m b) ≡ suc (count m b)
count-place_self k m b ne h = rw zero-add at (count-replace_from_self 0 k m b ne h)

pub count-place_other :
    (k m n : ℕ) (b : Text)
    → n ≢ m
    → n ≢ empty_square
    → get_elem? b k ≡ some empty_square
    → count n (replace_from 0 k m b) ≡ count n b
count-place_other k m n b ne nn h = rw zero-add at (count-replace_from_other 0 k m n b ne nn h)

-- Numbering the squares from one more, and the square to mark too, changes nothing.
pub replace_from-suc :
    (s i m : ℕ) (b : Text) → replace_from (suc s) (suc i) m b ≡ replace_from s i m b
unfolding replace_from
replace_from-suc s i m [] = refl
replace_from-suc s i m (c ∷ b) = ground (arith, replace_from-suc (suc s) i m b)
