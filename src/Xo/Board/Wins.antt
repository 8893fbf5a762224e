-- ===== src/Xo/Board/Wins.antt =====
-- `_is_win` against a plain description: some line holds the letter three times.
use sci_ledger_sawtooth.Prelude.{
  ℕ, ◌-◌, ◌<◌, ◌≡◌, refl, ◌≢◌, Bool, true, false, ◌&&◌, ◌||◌, List, [], ◌∷◌, none, some, arith,
  ◌==◌, length, get_elem?, All,
}
use sci_ledger_sawtooth.Text.{Text}
use sci_ledger_sawtooth.Errors.{ok}
use sci_ledger_sawtooth.Xo.Board.{replace_from, Line, wins, square_is, line_is, is_win_in, is_win}
use sci_ledger_sawtooth.Xo.Board.Squares.{get_elem?-replace_from}

-- Square n, counted from 1, holds the letter.
unfoldable pub has : Text → ℕ → ℕ → Bool
has board letter n = elim (get_elem? board (n - 1)) [ none ↦ false | some c ↦ c == letter ]

unfoldable pub line_has : Text → ℕ → Line → Bool
line_has board letter (a, b, c) = has board letter a && (has board letter b && has board letter c)

unfoldable pub any_line : Text → ℕ → List Line → Bool
any_line board letter [] = false
any_line board letter (win ∷ rest) = line_has board letter win || any_line board letter rest

unfoldable pub won : Text → ℕ → Bool
won board letter = any_line board letter wins

abbrev IsOnBoard : ℕ → Text → Type 0
IsOnBoard n board = n - 1 < length board

abbrev IsLine : Text → Line → Type 0
IsLine board (a, b, c) = IsOnBoard a board × IsOnBoard b board × IsOnBoard c board

pub get_elem?_some : (b : Text) (n : ℕ) → n < length b → get_elem? b n ≢ none
get_elem?_some [] n h = absurd (omega arith)
get_elem?_some (c ∷ b) ℕ.zero h = cc
get_elem?_some (c ∷ b) (ℕ.suc n) h = get_elem?_some b n (omega arith)

square_is-has : (b : Text) (l n : ℕ) → IsOnBoard n b → square_is b l n ≡ ok (has b l n)
unfolding square_is has
square_is-has b l n h = ground (arith, get_elem?_some b (n - 1) h)

line_is-line_has : (b : Text) (l : ℕ) (w : Line) → IsLine b w → line_is b l w ≡ ok (line_has b l w)
unfolding line_is line_has
line_is-line_has b l (x, y, z) h =
    ground (arith, square_is-has b l x h.0, square_is-has b l y h.1, square_is-has b l z h.2)

is_win_in-any_line :
    (b : Text) (l : ℕ) (ws : List Line)
    → All (IsLine b) ws
    → is_win_in b l ws ≡ ok (any_line b l ws)
unfolding is_win_in any_line
is_win_in-any_line b l [] h = refl
is_win_in-any_line b l (w ∷ ws) h =
    ground (arith, line_is-line_has b l w h.0, is_win_in-any_line b l ws h.1)

-- On a board of nine squares `_is_win` never raises, and says whether some line is the letter's.
pub is_win-won : (b : Text) (l : ℕ) → length b ≡ 9 → is_win b l ≡ ok (won b l)
unfolding is_win won
is_win-won b l h = is_win_in-any_line b l wins (omega arith)

has-replace_from :
    (b : Text) (i m l n : ℕ) → l ≢ m → has (replace_from 0 i m b) l n ≡ true → has b l n ≡ true
unfolding has
has-replace_from b i m l n ne h = ground (arith, get_elem?-replace_from 0 i m b (n - 1))

line_has-replace_from :
    (b : Text) (i m l : ℕ) (w : Line)
    → l ≢ m
    → line_has (replace_from 0 i m b) l w ≡ true
    → line_has b l w ≡ true
unfolding line_has
line_has-replace_from b i m l (x, y, z) ne h =
    ground
      (arith, has-replace_from b i m l x, has-replace_from b i m l y, has-replace_from b i m l z)

any_line-replace_from :
    (b : Text) (i m l : ℕ) (ws : List Line)
    → l ≢ m
    → any_line (replace_from 0 i m b) l ws ≡ true
    → any_line b l ws ≡ true
unfolding any_line
any_line-replace_from b i m l [] ne h = h
any_line-replace_from b i m l (w ∷ ws) ne h =
    ground (arith, line_has-replace_from b i m l w ne, any_line-replace_from b i m l ws ne)

-- A mark gives no line to another letter.
pub won-replace_from :
    (b : Text) (i m l : ℕ) → l ≢ m → won (replace_from 0 i m b) l ≡ true → won b l ≡ true
unfolding won
won-replace_from b i m l = any_line-replace_from b i m l wins
