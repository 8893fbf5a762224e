-- ===== src/Xo/Rules.antt =====
-- The rules of the game: the `take` branch of `XoTransactionHandler.apply` in
-- examples/xo_python/sawtooth_xo/processor/handler.py, between `get_game` and `set_game`.
pub mod Moves
pub mod Turns
pub mod Play
pub mod Storing
use sci_ledger_sawtooth.Prelude.{
  ℕ, zero, suc, Bool, true, false, not, ◌&&◌, ◌||◌, Option, none, some, [], ◌∷◌, ◌==◌, get_elem?,
  if◌then◌else◌,
}
use sci_ledger_sawtooth.Text.{Text, text_eq, prefix, truthy}
use sci_ledger_sawtooth.Errors.{
  Result, ok, err, index_error, type_error, plain, format, text, invalid, ◌>>=◌,
}
use sci_ledger_sawtooth.Xo.Board.{
  empty_square, p1_next, p2_next, p1_win, p2_win, tie, update_board, update_game_state,
}
use sci_ledger_sawtooth.Xo.Game.{Game}
use sci_ledger_sawtooth.Xo.Payload.{Space, raw, number}

-- `board[space - 1]`: at space 0 this is index -1, the last square
unfoldable pub square_at : Text → ℕ → Option ℕ
square_at board (suc index) = get_elem? board index
square_at [] zero = none
square_at (c ∷ []) zero = some c
square_at (c ∷ d ∷ board) zero = square_at (d ∷ board) zero

abbrev pub has_ended : Text → Bool
has_ended state = text_eq state p1_win || (text_eq state p2_win || text_eq state tie)

-- the condition of "Not this player's turn"
abbrev pub not_turn_of : Text → Game → Bool
not_turn_of signer game =
    (truthy game.player1 && (text_eq game.state p1_next && not (text_eq game.player1 signer)))
    || (truthy game.player2 && (text_eq game.state p2_next && not (text_eq game.player2 signer)))

-- the first two who move are the players
unfoldable pub seat : Text → Game → Game
seat signer game =
    if text_eq game.player1 []
    then record game { player1 = signer }
    else if text_eq game.player2 []
    then record game { player2 = signer }
    else game

-- the writes to the game object, from the seats on
unfoldable pub move : Text → ℕ → Game → Result Game
unfolding seat
move signer space game = do
  upd_board ← update_board game.board space game.state
  upd_game_state ← update_game_state game.state upd_board
  ok (record (seat signer game) { board = upd_board; state = upd_game_state })

-- the test of the square, and the move
unfoldable pub take_square : Text → ℕ → Game → Result Game
unfolding square_at
take_square signer space game = elim (square_at game.board space) [
  | none ↦ err index_error
  | some c ↦
      if not (c == empty_square)
      then err (invalid (plain "Invalid Action: space {} already taken"))
      else move signer space game
]

-- `space - 1` of a text is a TypeError; the payload of a `take` has a number
abbrev pub take_space : Text → Space → Game → Result Game
take_space signer (raw t) game = err type_error
take_space signer (number space) game = take_square signer space game

unfoldable pub take : Text → Space → Option Game → Result Game
take signer space none = err (invalid (plain "Invalid action: Take requires an existing game"))
take signer space (some game) =
    if has_ended game.state
    then err (invalid (plain "Invalid Action: Game has ended"))
    else if not_turn_of signer game
    then err (invalid (format "Not this player's turn: {}" (text (prefix 6 signer))))
    else take_space signer space game

-- `-` * 9
abbrev pub empty_board : Text
empty_board = b'-' ∷ b'-' ∷ b'-' ∷ b'-' ∷ b'-' ∷ b'-' ∷ b'-' ∷ b'-' ∷ b'-' ∷ []

abbrev pub new_game : Text → Game
new_game name = record {
  name = name;
  board = empty_board;
  state = p1_next;
  player1 = [];
  player2 = [];
}
