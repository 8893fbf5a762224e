-- ===== src/Xo/Display.antt =====
-- `_game_data_to_str` and `_display` of examples/xo_python/sawtooth_xo/processor/handler.py: what the
-- handler logs of a game.
pub mod Box
mod Tests
use sci_ledger_sawtooth.Prelude.{
  ℕ, zero, suc, ◌+◌, ◌-◌, ◌*◌, ◌/◌, ◌%◌, Bool, true, false, List, [], ◌∷◌, ◌++◌, length, map, ltb,
  leb, ◌==◌, if◌then◌else◌,
}
use sci_ledger_sawtooth.Text.{Text, codes, prefix}
use sci_ledger_sawtooth.Text.Parts.{split}
use sci_ledger_sawtooth.Errors.{Result, ok, ◌>>=◌}
use sci_ledger_sawtooth.Xo.Cli.Listing.{blanked, item_at}

abbrev newline : Text
newline = 10 ∷ []

-- `"{} | {} | {}".format(board[i], board[i + 1], board[i + 2])`
unfoldable pub row_str : Text → ℕ → Result Text
row_str board i = do
  a ← item_at board i
  b ← item_at board (i + 1)
  c ← item_at board (i + 2)
  ok (a ∷ codes " | " ++ b ∷ codes " | " ++ c ∷ [])

unfoldable pub game_data_to_str : Text → Text → Text → Text → Text → Result Text
unfolding row_str
game_data_to_str board_str game_state player1 player2 name = do
  row1 ← row_str (blanked board_str) 0
  row2 ← row_str (blanked board_str) 3
  row3 ← row_str (blanked board_str) 6
  ok (
      codes "GAME: "
      ++ name
      ++ newline
      ++ codes "PLAYER 1: "
      ++ prefix 6 player1
      ++ newline
      ++ codes "PLAYER 2: "
      ++ prefix 6 player2
      ++ newline
      ++ codes "STATE: "
      ++ game_state
      ++ newline
      ++ newline
      ++ row1
      ++ newline
      ++ codes "---|---|---"
      ++ newline
      ++ row2
      ++ newline
      ++ codes "---|---|---"
      ++ newline
      ++ row3)

-- `msg.count("\n")`
unfoldable pub count_newlines : Text → ℕ
count_newlines [] = 0
count_newlines (c ∷ s) = let n = count_newlines s in if c == 10 then suc n else n

unfoldable pub longest : List Text → ℕ
longest [] = 0
longest (line ∷ lines) = let n = longest lines in if leb n (length line) then length line else n

-- `n * c`
unfoldable pub times : ℕ → ℕ → Text
times zero c = []
times (suc n) c = c ∷ times n c

-- `line.center(width)`: the odd space goes to the left if the width is odd
unfoldable pub center : ℕ → Text → Text
unfolding times
center width line =
    let pad = width - length line in
    let left = pad / 2 + (pad % 2) * (width % 2) in
    times left b' ' ++ line ++ times (pad - left) b' '

unfoldable pub lines_of : Text → List Text
unfolding count_newlines
lines_of msg = if ltb 0 (count_newlines msg) then split 10 msg else msg ∷ []

unfoldable pub box_width : Text → ℕ
unfolding count_newlines longest
box_width msg = if ltb 0 (count_newlines msg) then longest (split 10 msg) else length msg

-- The lines that `_display` logs.
unfoldable pub display : Text → List Text
unfolding lines_of box_width center times
display msg =
    let edge = b'+' ∷ times (box_width msg + 2) b'-' ++ b'+' ∷ [] in
    edge
    ∷ (map (λ line. codes "+ " ++ center (box_width msg) line ++ codes " +") (lines_of msg)
        ++ edge ∷ [])
