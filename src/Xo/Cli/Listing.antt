-- ===== src/Xo/Cli/Listing.antt =====
-- What `do_list` and `do_show` of xo_cli.py read from the data of the state and how they print it.
use sci_ledger_sawtooth.Prelude.{
  ℕ, zero, suc, ◌*◌, ◌-◌, none, some, List, [], ◌∷◌, ◌++◌, map, length, leb, ◌==◌, if◌then◌else◌,
}
use sci_ledger_sawtooth.Text.{Text, Bytes, prefix}
use sci_ledger_sawtooth.Text.Parts.{split}
use sci_ledger_sawtooth.Text.Utf8.{decode}
use sci_ledger_sawtooth.Dict.{Dict, get, put}
use sci_ledger_sawtooth.Errors.{Result, ok, err, value_error, key_error, index_error, ◌>>=◌}

-- `data.decode()`; UnicodeDecodeError is a ValueError
abbrev decoded : Bytes → Result Text
decoded b = elim (decode b) [ none ↦ err value_error | some t ↦ ok t ]

-- `game.split(',') for game in data.decode().split('|')`
unfoldable pub game_lists : Bytes → Result (List (List Text))
game_lists b = do t ← decoded b; ok (map (split b',') (split b'|' t))

-- The nested comprehension of `do_list`.
unfoldable pub all_game_lists : List Bytes → Result (List (List Text))
unfolding game_lists
all_game_lists [] = ok []
all_game_lists (games ∷ rest) = do
  first ← game_lists games
  others ← all_game_lists rest
  ok (first ++ others)

-- A board, a state and two players.
pub record Shown : Type 0 where
  pub board : Text
  pub game_state : Text
  pub player1 : Text
  pub player2 : Text

-- The assignment to five names.
unfoldable pub five : List Text → Result (Text × Shown)
five (name ∷ board ∷ state ∷ player_1 ∷ player_2 ∷ []) =
    ok (name, record { board = board; game_state = state; player1 = player_1; player2 = player_2 })
five _ = err value_error

-- The dictionary comprehension of `do_show`.
unfoldable pub by_name : List (List Text) → Dict Shown → Result (Dict Shown)
unfolding five
by_name [] games = ok games
by_name (fields ∷ rest) games = elim (five fields) [
  | err e ↦ err e
  | ok (name, shown) ↦ by_name rest (put games name shown)
]

-- The game that `do_show` shows.
unfoldable pub find_game : Text → Bytes → Result Shown
unfolding game_lists by_name
find_game name b = do
  lists ← game_lists b
  games ← by_name lists []
  elim (get games name) [ none ↦ err key_error | some g ↦ ok g ]

-- `board_str.replace("-", " ")`
abbrev pub blanked : Text → Text
blanked board_str = map (λ c. if c == b'-' then b' ' else c) board_str

-- `int(math.sqrt(n))`, for numbers that a float holds: the largest d with d * d at most n
unfoldable pub root_below : ℕ → ℕ → ℕ
root_below zero n = zero
root_below (suc d) n = if leb (suc d * suc d) n then suc d else root_below d n

unfoldable pub int_sqrt : ℕ → ℕ
unfolding root_below
int_sqrt n = root_below n n

-- `board[i]` for an index that is not negative
unfoldable pub item_at : Text → ℕ → Result ℕ
item_at [] i = err index_error
item_at (c ∷ s) zero = ok c
item_at (c ∷ s) (suc i) = item_at s i

-- `range(n)`
unfoldable pub range_from : ℕ → ℕ → List ℕ
range_from k zero = []
range_from k (suc n) = k ∷ range_from (suc k) n

-- `"%-15s"` and `"%-15.15s"`
unfoldable pub spaces : ℕ → Text
spaces zero = []
spaces (suc n) = b' ' ∷ spaces n

unfoldable pub padded : ℕ → Text → Text
unfolding spaces
padded n s = s ++ spaces (n - length s)

-- `fmt % (...)`
unfoldable pub line_of : Text → Text → Text → Text → Text → Text
unfolding padded
line_of name player1 player2 board state =
    padded 15 name
    ++ b' ' ∷ padded 15 (prefix 15 player1)
    ++ b' ' ∷ padded 15 (prefix 15 player2)
    ++ b' ' ∷ padded 9 board
    ++ b' ' ∷ state
