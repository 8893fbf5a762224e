-- ===== src/Xo/Rules/Moves.antt =====
-- A move in a game that was played by the rules: what it does, and that the game stays one.
use sci_ledger_sawtooth.Prelude.{
  ℕ, suc, ◌≡◌, refl, ◌∙◌, sym, inl, inr, true, not, some, [], ◌∷◌, arith, ltb, get_elem?,
}
use sci_ledger_sawtooth.Text.{Text, text_eq, truthy, contains}
use sci_ledger_sawtooth.Errors.{ok}
use sci_ledger_sawtooth.Xo.Board.{
  empty_square, mark_x, mark_o, p1_next, p2_next, replace_from, mark_of, update_board,
}
use sci_ledger_sawtooth.Xo.Board.Squares.{count}
use sci_ledger_sawtooth.Xo.Board.Wins.{won, any_line, line_has, has}
use sci_ledger_sawtooth.Xo.Board.Status.{
  status, IsBoard, p1_next-status, p2_next-status, place-IsBoard, update_game_state-status,
}
use sci_ledger_sawtooth.Xo.Game.{Game}
use sci_ledger_sawtooth.Xo.Rules.{seat, move, new_game}

-- A game that was played by the rules: its state is the state of its board, and a player has a seat
-- exactly when the player's mark is on the board.
pub record IsGame (g : Game) : Type 0 where
  pub legal : IsBoard g.board
  pub state_of_board : g.state ≡ status g.board
  pub seat1 : truthy g.player1 ≡ ltb 0 (count mark_x g.board)
  pub seat2 : truthy g.player2 ≡ ltb 0 (count mark_o g.board)

pub new_game-IsGame : (name : Text) → IsGame (new_game name)
unfolding status count won contains any_line line_has has
new_game-IsGame name = record {
  legal = record { nine = refl; squares = omega arith; turns = inl refl; one_winner = refl };
  state_of_board = refl;
  seat1 = refl;
  seat2 = refl;
}

-- the game after mark m on square k
abbrev pub moved : Text → ℕ → ℕ → Game → Game
moved signer k m g =
    let b = replace_from 0 k m g.board in record (seat signer g) { board = b; state = status b }

pub text_eq-nil : (t : Text) → text_eq t [] ≡ not (truthy t)
unfolding text_eq
text_eq-nil [] = refl
text_eq-nil (c ∷ t) = refl

seat_x :
    (signer : Text) (g : Game)
    → truthy signer ≡ true
    → IsGame g
    → count mark_x g.board ≡ count mark_o g.board
    → (truthy (seat signer g).player1 ≡ true)
      × (truthy (seat signer g).player2 ≡ ltb 0 (count mark_o g.board))
unfolding seat
seat_x signer g st h even =
    ground (arith, text_eq-nil g.player1, text_eq-nil g.player2, h.seat1, h.seat2)

seat_o :
    (signer : Text) (g : Game)
    → truthy signer ≡ true
    → IsGame g
    → count mark_x g.board ≡ suc (count mark_o g.board)
    → (truthy (seat signer g).player1 ≡ true) × (truthy (seat signer g).player2 ≡ true)
unfolding seat
seat_o signer g st h odd =
    ground (arith, text_eq-nil g.player1, text_eq-nil g.player2, h.seat1, h.seat2)

module _ (signer : Text) (k : ℕ) (g : Game) (st : truthy signer ≡ true) (h : IsGame g)
    (free : get_elem? g.board k ≡ some empty_square) where
  -- X moves.
  pub move_x :
      g.state ≡ p1_next
      → (move signer (suc k) g ≡ ok (moved signer k mark_x g)) × IsGame (moved signer k mark_x g)
  unfolding move update_board mark_of text_eq
  move_x e =
      let (no_x, no_o, even) = p1_next-status g.board (sym h.state_of_board ∙ e) in
      let (v, x, o) =
        place-IsBoard g.board k mark_x mark_o h.legal free (inl (refl, refl, even)) no_o in
      let u =
        update_game_state-status g.state (replace_from 0 k mark_x g.board) v
          (inl (e, omega arith)) in
      let (s1, s2) = seat_x signer g st h even in
      (
        ground (arith, u),
        record {
          legal = v;
          state_of_board = refl;
          seat1 = ground (arith, s1, x);
          seat2 = ground (arith, s2, o);
        },
      )

  -- O moves.
  pub move_o :
      g.state ≡ p2_next
      → (move signer (suc k) g ≡ ok (moved signer k mark_o g)) × IsGame (moved signer k mark_o g)
  unfolding move update_board mark_of text_eq
  move_o e =
      let (no_x, no_o, odd) = p2_next-status g.board h.legal (sym h.state_of_board ∙ e) in
      let (v, o, x) =
        place-IsBoard g.board k mark_o mark_x h.legal free (inr (refl, refl, odd)) no_x in
      let u =
        update_game_state-status g.state (replace_from 0 k mark_o g.board) v
          (inr (e, omega arith)) in
      let (s1, s2) = seat_o signer g st h odd in
      (
        ground (arith, u),
        record {
          legal = v;
          state_of_board = refl;
          seat1 = ground (arith, s1, x);
          seat2 = ground (arith, s2, o);
        },
      )
