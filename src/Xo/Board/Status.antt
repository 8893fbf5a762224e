-- ===== src/Xo/Board/Status.antt =====
-- The state of a game as a function of its board, and that `_update_game_state` computes it.
use sci_ledger_sawtooth.Prelude.{
  ℕ, suc, ◌≡◌, false, ◌&&◌, not, ◌⊎◌, some, arith, ◌==◌, length, get_elem?, if◌then◌else◌, All,
}
use sci_ledger_sawtooth.Text.{Text, text_eq, contains}
use sci_ledger_sawtooth.Errors.{ok}
use sci_ledger_sawtooth.Xo.Board.{
  empty_square, mark_x, mark_o, p1_next, p2_next, p1_win, p2_win, tie, replace_from, next_state,
  update_game_state,
}
use sci_ledger_sawtooth.Xo.Board.Squares.{
  IsSquare, count, length-replace_from, replace_from-IsSquare, count-place_self, count-place_other,
}
use sci_ledger_sawtooth.Xo.Board.Wins.{won, is_win-won, won-replace_from}

unfoldable pub status : Text → Text
status b =
    if won b mark_x
    then p1_win
    else if won b mark_o
    then p2_win
    else if not (contains empty_square b)
    then tie
    else if count mark_x b == count mark_o b
    then p1_next
    else p2_next

-- What a board in play satisfies: nine squares, each empty or marked, X as often as O or once
-- more, and never two winners.
pub record IsBoard (b : Text) : Type 0 where
  pub nine : length b ≡ 9
  pub squares : All IsSquare b
  pub turns : (count mark_x b ≡ count mark_o b) ⊎ (count mark_x b ≡ suc (count mark_o b))
  pub one_winner : (won b mark_x && won b mark_o) ≡ false

pub p1_next-status :
    (b : Text)
    → status b ≡ p1_next
    → (won b mark_x ≡ false) × (won b mark_o ≡ false) × (count mark_x b ≡ count mark_o b)
unfolding status
p1_next-status b h = ground arith

pub update_game_state-status :
    (gs b : Text)
    → IsBoard b
    → ((gs ≡ p1_next) × (count mark_x b ≡ suc (count mark_o b)))
      ⊎ ((gs ≡ p2_next) × (count mark_x b ≡ count mark_o b))
    → update_game_state gs b ≡ ok (status b)
unfolding update_game_state next_state status text_eq
update_game_state-status gs b v turn =
    ground (arith, is_win-won b mark_x v.nine, is_win-won b mark_o v.nine, v.one_winner)

pub p2_next-status :
    (b : Text)
    → IsBoard b
    → status b ≡ p2_next
    → (won b mark_x ≡ false) × (won b mark_o ≡ false) × (count mark_x b ≡ suc (count mark_o b))
unfolding status
p2_next-status b v h = ground (arith, v.turns)

-- One mark on an empty square, where the other mark had no line.
pub place-IsBoard :
    (b : Text) (k m n : ℕ)
    → IsBoard b
    → get_elem? b k ≡ some empty_square
    → ((m ≡ mark_x) × (n ≡ mark_o) × (count mark_x b ≡ count mark_o b))
      ⊎ ((m ≡ mark_o) × (n ≡ mark_x) × (count mark_x b ≡ suc (count mark_o b)))
    → won b n ≡ false
    → IsBoard (replace_from 0 k m b)
      × (count m (replace_from 0 k m b) ≡ suc (count m b))
      × (count n (replace_from 0 k m b) ≡ count n b)
place-IsBoard b k m n v free turn lost = (
  record {
    nine = ground (arith, length-replace_from 0 k m b, v.nine);
    squares = replace_from-IsSquare 0 k m b (ground arith) v.squares;
    turns = ground (arith, count-place_self k m b, count-place_other k m n b);
    one_winner = ground (arith, won-replace_from b k m n);
  },
  count-place_self k m b (ground arith) free,
  count-place_other k m n b (ground arith) (ground arith) free,
)
