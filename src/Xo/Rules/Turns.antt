-- ===== src/Xo/Rules/Turns.antt =====
-- What `take` does to a game that was played by the rules, on every branch.
use sci_ledger_sawtooth.Prelude.{
  ℕ, zero, suc, ◌+◌, ◌≤◌, ◌<◌, ◌≡◌, ◌≢◌, ◌∙◌, sym, ◌⊎◌, inl, inr, true, false, none, some, arith,
  ◌==◌, length, get_elem?, Option-cases, Bool-cases,
}
use sci_ledger_sawtooth.Text.{Text, text_eq, text_eq_iff, truthy}
use sci_ledger_sawtooth.Errors.{Result, ok, err, plain, invalid, invalid_transaction}
use sci_ledger_sawtooth.Xo.Board.{empty_square, mark_x, mark_o, p1_next, p2_next, replace_from}
use sci_ledger_sawtooth.Xo.Board.Squares.{
  count, count-place_self, count-place_other, replace_from-suc,
}
use sci_ledger_sawtooth.Xo.Board.Wins.{get_elem?_some}
use sci_ledger_sawtooth.Xo.Board.Status.{status, p1_next-status, p2_next-status}
use sci_ledger_sawtooth.Xo.Game.{Game}
use sci_ledger_sawtooth.Xo.Payload.{number}
use sci_ledger_sawtooth.Xo.Rules.{square_at, has_ended, not_turn_of, seat, move, take_square, take}
use sci_ledger_sawtooth.Xo.Rules.Moves.{IsGame, moved, move_x, move_o, text_eq-nil}

-- How many marks the board has.
abbrev pub marks : Game → ℕ
marks g = count mark_x g.board + count mark_o g.board

pub running_state :
    (g : Game) → IsGame g → has_ended g.state ≡ false → (g.state ≡ p1_next) ⊎ (g.state ≡ p2_next)
unfolding status text_eq
running_state g h e = ground (arith, h.state_of_board)

-- Who moved: the one whose turn it was has the seat of the mark, the other seat is as before, and the
-- mark stands on square n and nothing else has changed on the board.
abbrev pub MovedBy : Text → ℕ → Game → Game → Type 0
MovedBy signer n g g' =
    ((g.state ≡ p1_next)
      × (g'.player1 ≡ signer)
      × (g'.player2 ≡ g.player2)
      × (g'.board ≡ replace_from 1 n mark_x g.board))
    ⊎ ((g.state ≡ p2_next)
        × (g'.player2 ≡ signer)
        × (g'.player1 ≡ g.player1)
        × (g'.board ≡ replace_from 1 n mark_o g.board))

-- Why `take` refuses.
abbrev Refuses : Text → ℕ → Game → Type 0
Refuses signer n g =
    (has_ended g.state ≡ true)
    ⊎ ((not_turn_of signer g ≡ true) ⊎ (square_at g.board n ≢ some empty_square))

-- What `take` has done, by how it ended: a move that leaves a game with one more mark, or
-- InvalidTransaction for a reason that holds, and no other exception.
abbrev pub Took : Text → ℕ → Game → Result Game → Type 0
Took signer n g (ok g') =
    IsGame g' × (marks g' ≡ suc (marks g)) × (g'.name ≡ g.name) × MovedBy signer n g g'
Took signer n g (err (invalid_transaction m none)) = Refuses signer n g
Took signer n g (err _) = ⊥

module _ (signer : Text) (k : ℕ) (g : Game) (st : truthy signer ≡ true) (h : IsGame g) where
  marks-move_x :
      get_elem? g.board k ≡ some empty_square → marks (moved signer k mark_x g) ≡ suc (marks g)
  marks-move_x free = omega (
    arith,
    count-place_self k mark_x g.board (omega arith) free,
    count-place_other k mark_x mark_o g.board (omega arith) (omega arith) free,
  )

  marks-move_o :
      get_elem? g.board k ≡ some empty_square → marks (moved signer k mark_o g) ≡ suc (marks g)
  marks-move_o free = omega (
    arith,
    count-place_self k mark_o g.board (omega arith) free,
    count-place_other k mark_o mark_x g.board (omega arith) (omega arith) free,
  )

  name-seat : (seat signer g).name ≡ g.name
  unfolding seat
  name-seat = ground arith

  turn_of_x :
      g.state ≡ p1_next
      → not_turn_of signer g ≡ false
      → ((seat signer g).player1 ≡ signer) × ((seat signer g).player2 ≡ g.player2)
  unfolding seat text_eq
  turn_of_x e turn =
      let even = p1_next-status g.board (sym h.state_of_board ∙ e) in
      ground (
        arith,
        e,
        turn,
        text_eq_iff g.player1 signer,
        text_eq-nil g.player1,
        text_eq-nil g.player2,
        h.seat1,
        h.seat2,
        even.2,
      )

  turn_of_o :
      g.state ≡ p2_next
      → not_turn_of signer g ≡ false
      → ((seat signer g).player2 ≡ signer) × ((seat signer g).player1 ≡ g.player1)
  unfolding seat text_eq
  turn_of_o e turn =
      let odd = p2_next-status g.board h.legal (sym h.state_of_board ∙ e) in
      ground (
        arith,
        e,
        turn,
        text_eq_iff g.player2 signer,
        text_eq-nil g.player1,
        text_eq-nil g.player2,
        h.seat1,
        h.seat2,
        odd.2,
      )

  -- a move on an empty square, by whoever moves next
  Took-move :
      has_ended g.state ≡ false
      → not_turn_of signer g ≡ false
      → get_elem? g.board k ≡ some empty_square
      → Took signer (suc k) g (move signer (suc k) g)
  Took-move run turn free = elim (running_state g h run) [
    | inl e ↦
        let (m, v) = move_x signer k g st h free e in
        let (mine, others) = turn_of_x e turn in
        rw m (
          v,
          marks-move_x free,
          name-seat,
          inl (e, mine, others, sym (replace_from-suc 0 k mark_x g.board)),
        )
    | inr e ↦
        let (m, v) = move_o signer k g st h free e in
        let (mine, others) = turn_of_o e turn in
        rw m (
          v,
          marks-move_o free,
          name-seat,
          inr (e, mine, others, sym (replace_from-suc 0 k mark_o g.board)),
        )
  ]

  Took-square :
      has_ended g.state ≡ false
      → not_turn_of signer g ≡ false
      → k < length g.board
      → Took signer (suc k) g (take_square signer (suc k) g)
  unfolding take_square
  Took-square run turn inside = elim (Option-cases (get_elem? g.board k)) [
    | inl none_there ↦ absurd (get_elem?_some g.board k inside none_there)
    | inr (c, there) ↦ elim (Bool-cases (c == empty_square)) [
      | inl free ↦
          let here : get_elem? g.board k ≡ some empty_square = ground (arith, there, free) in
          let q : take_square signer (suc k) g ≡ move signer (suc k) g = ground (arith, here) in
          rw q (Took-move run turn here)
      | inr taken ↦
          let q : take_square signer (suc k) g
              ≡ err (invalid (plain "Invalid Action: space {} already taken")) =
            ground (arith, there, taken) in
          rw q (inr (inr (ground (arith, there, taken))))
    ]
  ]

-- In a game that was played by the rules, a take of a space from 1 to 9 by a signer with a key either
-- is a move of the player whose turn it is on the square of that number, which leaves a game played by
-- the rules with one more mark under the same name, or is
-- refused with InvalidTransaction, because the game has ended, it is not the signer's turn, or the
-- square is taken. It raises nothing else.
pub take_lem :
    (signer : Text) (n : ℕ) (g : Game)
    → truthy signer ≡ true
    → IsGame g
    → 1 ≤ n
    → n ≤ 9
    → Took signer n g (take signer (number n) (some g))
unfolding take
take_lem signer zero g st h lo hi = absurd (omega arith)
take_lem signer (suc k) g st h lo hi = elim (Bool-cases (has_ended g.state)) [
  | inl ended ↦ rw ended (inl ended)
  | inr run ↦ elim (Bool-cases (not_turn_of signer g)) [
    | inl wrong ↦ rw (run, wrong) (inr (inl wrong))
    | inr turn ↦
        rw (run, turn) (Took-square signer k g st h run turn (let e = h.legal.nine in omega arith))
  ]
]
