-- ===== src/Xo/Cli/Drawing.antt =====
-- How `do_list` and `do_show` of xo_cli.py print games.
use sci_ledger_sawtooth.Prelude.{ℕ, zero, suc, ◌+◌, ◌*◌, List, [], ◌∷◌, ◌++◌, length}
use sci_ledger_sawtooth.Text.{Text, codes, prefix}
use sci_ledger_sawtooth.Text.Numbers.{str}
use sci_ledger_sawtooth.Errors.{index_error}
use sci_ledger_sawtooth.Action.{Action, pure, raise, lift, ◌>>=◌, ◌>>◌}
use sci_ledger_sawtooth.Xo.Client.World.{Libraries}
use sci_ledger_sawtooth.Xo.Cli.Listing.{
  Shown, five, blanked, int_sqrt, item_at, range_from, line_of,
}
use sci_ledger_sawtooth.Xo.Cli.Shell.{Shell}

module _ {W Y : Type 0} (io : Libraries W Y) (shell : Shell W) where
  -- `for x in xs:`
  unfoldable pub for_each : {A : Type 0} → List A → (A → Action W (Unit {0})) → Action W (Unit {0})
  for_each [] f = pure tt
  for_each (x ∷ xs) f = do f x; for_each xs f

  -- `print(" {} |".format(board[i]), end='')`
  unfoldable pub write_cell : Text → ℕ → Action W (Unit {0})
  write_cell board i = do c ← lift (item_at board i); shell.write (codes " " ++ c ∷ codes " |")

  -- `print("---|".format(board[i]), end='')`: the index is looked up, and the text has no place for it
  unfoldable pub write_dashes : Text → ℕ → Action W (Unit {0})
  write_dashes board i = do c ← lift (item_at board i); shell.write (codes "---|")

  -- One pass of the outer loop: a row, and the line below it; m is `dimensions - 1`.
  unfoldable pub draw_row : Text → ℕ → ℕ → Action W (Unit {0})
  unfolding for_each write_cell write_dashes
  draw_row board m x = do
    for_each (range_from 0 m) (λ y. write_cell board (y + x * suc m))
    last ← lift (item_at board (m + x * suc m))
    io.print (codes " " ++ last ∷ codes " ")
    for_each (range_from 0 m) (λ y. write_dashes board (y + x * suc m))
    below ← lift (item_at board (m + x * suc m))
    io.print (codes "---")

  -- The board; with no dimension the first index is that of the last square of an empty board.
  unfoldable pub draw_board : Text → ℕ → Action W (Unit {0})
  unfolding for_each write_cell draw_row
  draw_board board zero = raise index_error
  draw_board board (suc m) = do
    for_each (range_from 0 m) (draw_row board m)
    for_each (range_from 0 m) (λ y. write_cell board (y + m * suc m))
    last ← lift (item_at board (m + m * suc m))
    io.print (codes " " ++ last ∷ codes " ")

  unfoldable pub print_game : Text → Shown → Action W (Unit {0})
  unfolding draw_board
  print_game name g = do
    io.print (str (length g.board))
    io.print (codes "GAME:     : " ++ name)
    io.print (codes "PLAYER 1  : " ++ prefix 6 g.player1)
    io.print (codes "PLAYER 2  : " ++ prefix 6 g.player2)
    io.print (codes "STATE     : " ++ g.game_state)
    io.print []
    draw_board (blanked g.board) (int_sqrt (length g.board))
    io.print []

  -- one line of `do_list`
  unfoldable pub print_line : List Text → Action W (Unit {0})
  print_line game_data = do
    entry ← lift (five game_data)
    io.print (
        line_of entry.0 (prefix 6 entry.1.player1) (prefix 6 entry.1.player2) entry.1.board
          entry.1.game_state)
