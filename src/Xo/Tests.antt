-- ===== src/Xo/Tests.antt =====
-- The xo theorems at concrete games, payloads and states.
mod Transactions
use sci_ledger_sawtooth.Prelude.{
  ℕ, ◌+◌, ◌≡◌, ◌≢◌, refl, Bool, true, false, Option, none, some, List, [], ◌∷◌, ◌++◌, arith, All,
  ◌≤◌, length,
}
use sci_ledger_sawtooth.Text.{Text, Bytes, codes, text_eq, truthy, contains}
use sci_ledger_sawtooth.Text.Utf8.{encode, decode}
use sci_ledger_sawtooth.Text.Parts.{split, join}
use sci_ledger_sawtooth.Dict.{get, put, remove, IsDistinct}
use sci_ledger_sawtooth.Errors.{Result, ok, err}
use sci_ledger_sawtooth.Xo.Board.{
  p1_next, p2_next, mark_x, mark_o, is_win, update_game_state, empty_square, update_board, mark_of,
  is_win_in, line_is, square_is, replace_from, next_state,
}
use sci_ledger_sawtooth.Xo.Board.Wins.{is_win-won}
use sci_ledger_sawtooth.Xo.Game.{Game, Games, serialize, deserialize, read_games, unpack}
use sci_ledger_sawtooth.Xo.Game.RoundTrip.{IsPlain, IsClean, deserialize-serialize}
use sci_ledger_sawtooth.Xo.Game.Reading.{deserialize-IsClean}
use sci_ledger_sawtooth.Xo.Game.Order.{serialize-Perm}
use mathlib.Core.List.{Permᴰ}
use sci_ledger_sawtooth.Xo.Payload.{from_bytes, number}
use sci_ledger_sawtooth.Xo.Payload.Checks.{Read, from_bytes-Read}
use sci_ledger_sawtooth.Xo.Rules.{take, new_game, has_ended, not_turn_of, take_square, move}
use sci_ledger_sawtooth.Xo.Rules.Moves.{IsGame, new_game-IsGame}
use sci_ledger_sawtooth.Xo.Rules.Turns.{Took, marks, take_lem}
use sci_ledger_sawtooth.Xo.Rules.Play.{play, play_at_most_nine, running_goes_on}
use sci_ledger_sawtooth.Example.{ascii, sha512, states, link, link-Serves, read, State}

-- X has moved last and won.
abbrev won_board : Text
won_board = codes "XXX-O-O--"

abbrev signer : Text
signer = codes "ab12"

abbrev game : Game
game = new_game (codes "g1")

take_lem_example : Took signer 5 game (take signer (number 5) (some game))
take_lem_example =
    take_lem signer 5 game refl (new_game-IsGame (codes "g1")) (omega arith) (omega arith)

running_goes_on_example :
    (n : ℕ) × (1 ≤ n) × (n ≤ 9) × (g' : Game) × (take signer (number n) (some game) ≡ ok g')
unfolding text_eq
running_goes_on_example = running_goes_on game signer (new_game-IsGame (codes "g1")) refl refl refl

-- Player 1 takes the middle, and player 2 a corner.
abbrev second_game : Game
second_game = record {
  name = codes "g1";
  board = codes "O---X----";
  state = p1_next;
  player1 = signer;
  player2 = codes "cd34";
}

two_moves : play ((signer, 5) ∷ (codes "cd34", 1) ∷ []) game ≡ ok second_game
unfolding play take text_eq take_square move update_board mark_of update_game_state is_win is_win_in
    line_is square_is replace_from next_state contains
two_moves = refl

play_at_most_nine_example : IsGame second_game × (marks game + 2 ≤ 9)
play_at_most_nine_example =
    play_at_most_nine ((signer, 5) ∷ (codes "cd34", 1) ∷ []) game second_game
      (new_game-IsGame (codes "g1"))
      ((refl, omega arith, omega arith), ((refl, omega arith, omega arith), tt)) two_moves

game-IsClean : IsClean (codes "g1", game)
game-IsClean = record { named = refl; fields = ground arith }

deserialize-serialize_example :
    (data_bytes : Bytes) × (games' : Games) × (serialize ((codes "g1", game) ∷ []) ≡ ok data_bytes)
    × (deserialize data_bytes ≡ ok games')
    × ((k : Text) → get games' k ≡ get ((codes "g1", game) ∷ []) k)
unfolding get
deserialize-serialize_example =
    deserialize-serialize ((codes "g1", game) ∷ []) (λ p. cc) (game-IsClean, tt) (refl, tt)

from_bytes-Read_example : Read (from_bytes ascii (codes "g1,take,5"))
from_bytes-Read_example = from_bytes-Read ascii (codes "g1,take,5")

serialize-Perm_example :
    serialize ((codes "g1", game) ∷ (codes "g2", game) ∷ [])
    ≡ serialize ((codes "g2", game) ∷ (codes "g1", game) ∷ [])
serialize-Perm_example =
    serialize-Perm ((codes "g1", game) ∷ (codes "g2", game) ∷ [])
      ((codes "g2", game) ∷ (codes "g1", game) ∷ []) ∣ Permᴰ.swap refl refl ∣₁
