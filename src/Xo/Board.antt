-- ===== src/Xo/Board.antt =====
-- The board of examples/xo_python/sawtooth_xo/processor/handler.py: `_update_board`, `_is_win` and
-- `_update_game_state`. A board is a text; a square holds `-`, `X` or `O`.
pub mod Squares
pub mod Wins
pub mod Status
use sci_ledger_sawtooth.Prelude.{
  ℕ, zero, suc, ◌-◌, Bool, true, false, ◌&&◌, ◌||◌, not, List, [], ◌∷◌, Option, none, some, ltb,
  ◌==◌, length, get_elem?, if◌then◌else◌,
}
use sci_ledger_sawtooth.Text.{Text, codes, text_eq, contains}
use sci_ledger_sawtooth.Errors.{
  Result, ok, err, name_error, index_error, plain, format, text, internal, ◌>>=◌,
}

abbrev pub empty_square : ℕ
empty_square = b'-'

abbrev pub mark_x : ℕ
mark_x = b'X'

abbrev pub mark_o : ℕ
mark_o = b'O'

abbrev pub p1_next : Text
p1_next = codes "P1-NEXT"

abbrev pub p2_next : Text
p2_next = codes "P2-NEXT"

abbrev pub p1_win : Text
p1_win = codes "P1-WIN"

abbrev pub p2_win : Text
p2_win = codes "P2-WIN"

abbrev pub tie : Text
tie = codes "TIE"

-- the comprehension over `enumerate(board)`, from the number of the first square on
unfoldable pub replace_from : ℕ → ℕ → ℕ → Text → Text
replace_from square index mark [] = []
replace_from square index mark (current ∷ board) =
    (if square == index then mark else current) ∷ replace_from (suc square) index mark board

-- `mark` is bound in two states only
unfoldable pub mark_of : Text → Option ℕ
mark_of state =
    if text_eq state p1_next
    then some mark_x
    else if text_eq state p2_next
    then some mark_o
    else none

-- Where `mark` is unbound, the square that would take it raises NameError. Space 0 is index -1,
-- which is no square.
unfoldable pub update_board : Text → ℕ → Text → Result Text
update_board board zero state = ok board
update_board board (suc index) state = elim (mark_of state) [
  | none ↦ if ltb index (length board) then err name_error else ok board
  | some mark ↦ ok (replace_from 0 index mark board)
]

abbrev pub Line : Type 0
Line = ℕ × ℕ × ℕ

abbrev pub wins : List Line
wins =
    (1, 2, 3)
    ∷ (4, 5, 6)
    ∷ (7, 8, 9)
    ∷ (1, 4, 7)
    ∷ (2, 5, 8)
    ∷ (3, 6, 9)
    ∷ (1, 5, 9)
    ∷ (3, 5, 7)
    ∷ []

-- `board[n - 1] == letter`
unfoldable pub square_is : Text → ℕ → ℕ → Result Bool
square_is board letter n = elim (get_elem? board (n - 1)) [
  | none ↦ err index_error
  | some c ↦ ok (c == letter)
]

-- `and` reads no further square once one differs
unfoldable pub line_is : Text → ℕ → Line → Result Bool
line_is board letter (a, b, c) = do
  first ← square_is board letter a
  if first
      then (do
        second ← square_is board letter b
        if second then square_is board letter c else ok false)
      else ok false

unfoldable pub is_win_in : Text → ℕ → List Line → Result Bool
is_win_in board letter [] = ok false
is_win_in board letter (win ∷ rest) = elim (line_is board letter win) [
  | err e ↦ err e
  | ok true ↦ ok true
  | ok false ↦ is_win_in board letter rest
]

unfoldable pub is_win : Text → ℕ → Result Bool
is_win board letter = is_win_in board letter wins

-- the decision that `_update_game_state` makes once it knows who has a line
unfoldable pub next_state : Text → Text → Bool → Bool → Result Text
next_state game_state board x_wins o_wins =
    if x_wins && o_wins
    then err (internal (plain "Two winners (there can be only one)"))
    else if x_wins
    then ok p1_win
    else if o_wins
    then ok p2_win
    else if not (contains empty_square board)
    then ok tie
    else if text_eq game_state p1_next
    then ok p2_next
    else if text_eq game_state p2_next
    then ok p1_next
    else if text_eq game_state (codes "P1-WINS")
        || text_eq game_state (codes "P2-WINS")
        || text_eq game_state tie
    then ok game_state
    else err (internal (format "Unhandled state: {}" (text game_state)))

unfoldable pub update_game_state : Text → Text → Result Text
update_game_state game_state board = do
  x_wins ← is_win board mark_x
  o_wins ← is_win board mark_o
  next_state game_state board x_wins o_wins
