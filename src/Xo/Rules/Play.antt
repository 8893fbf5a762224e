-- ===== src/Xo/Rules/Play.antt =====
-- Whole games: who moved, how long a game can be, and that a running game can go on.
use sci_ledger_sawtooth.Prelude.{
  ℕ, suc, ◌+◌, ◌≤◌, ◌<◌, ◌≡◌, refl, ◌⊎◌, inl, inr, true, false, some, List, [], ◌∷◌, arith, ◌==◌,
  length, get_elem?, Bool-cases, All,
}
use sci_ledger_sawtooth.Text.{Text, text_eq, truthy, contains}
use sci_ledger_sawtooth.Errors.{Exn, Result, ok, err, ◌>>=◌}
use sci_ledger_sawtooth.Xo.Board.{empty_square, mark_x, mark_o}
use sci_ledger_sawtooth.Xo.Board.Squares.{count}
use sci_ledger_sawtooth.Xo.Board.Status.{status}
use sci_ledger_sawtooth.Xo.Game.{Game}
use sci_ledger_sawtooth.Xo.Payload.{number}
use sci_ledger_sawtooth.Xo.Rules.{has_ended, not_turn_of, take_square, take}
use sci_ledger_sawtooth.Xo.Rules.Moves.{IsGame, moved, move_x, move_o}
use sci_ledger_sawtooth.Xo.Rules.Turns.{marks, running_state, MovedBy, take_lem}

Result-cases : {A : Type 0} (r : Result A) → ((a : A) × (r ≡ ok a)) ⊎ ((e : Exn) × (r ≡ err e))
Result-cases (ok a) = inl (a, refl)
Result-cases (err e) = inr (e, refl)

-- A take that is given: the signer and the space.
abbrev pub IsAsked : Text × ℕ → Type 0
IsAsked m = (truthy m.0 ≡ true) × (1 ≤ m.1) × (m.1 ≤ 9)

-- The accepted takes of a game, one after the other.
unfoldable pub play : List (Text × ℕ) → Game → Result Game
play [] g = ok g
play ((signer, n) ∷ rest) g = do g' ← take signer (number n) (some g); play rest g'

count_le : (b : Text) → count mark_x b + count mark_o b ≤ length b
unfolding count
count_le [] = omega arith
count_le (c ∷ b) = ground (arith, count_le b)

took_ok :
    (signer : Text) (n : ℕ) (g g' : Game)
    → IsGame g
    → IsAsked (signer, n)
    → take signer (number n) (some g) ≡ ok g'
    → IsGame g' × (marks g' ≡ suc (marks g)) × (g'.name ≡ g.name) × MovedBy signer n g g'
took_ok signer n g g' h a e = rw e at (take_lem signer n g a.0 h a.1 a.2)

play_lem :
    (ms : List (Text × ℕ)) (g g' : Game)
    → IsGame g
    → All IsAsked ms
    → play ms g ≡ ok g'
    → IsGame g' × (marks g' ≡ marks g + length ms)
unfolding play
play_lem [] g g' h a e = let p : g ≡ g' = ground arith in rw (← p) (h, omega arith)
play_lem ((signer, n) ∷ ms) g g' h a e = elim (Result-cases (take signer (number n) (some g))) [
  | inr (x, t) ↦ absurd (ground (arith, t))
  | inl (g1, t) ↦
      let (h1, m1, n1, b1) = took_ok signer n g g1 h a.0 t in
      let (h', m') = play_lem ms g1 g' h1 a.1 (ground (arith, t)) in (h', omega arith)
]

-- A game that was played by the rules stays one under any sequence of accepted takes, by signers with
-- keys of spaces from 1 to 9, and the takes and the marks that it had are together at most nine.
pub play_at_most_nine :
    (ms : List (Text × ℕ)) (g g' : Game)
    → IsGame g
    → All IsAsked ms
    → play ms g ≡ ok g'
    → IsGame g' × (marks g + length ms ≤ 9)
play_at_most_nine ms g g' h a e =
    let (h', m) = play_lem ms g g' h a e in
    (h', let c = count_le g'.board in let nine = h'.legal.nine in omega arith)

free_square :
    (b : Text)
    → contains empty_square b ≡ true
    → (k : ℕ) × (k < length b) × (get_elem? b k ≡ some empty_square)
unfolding contains
free_square [] h = cc
free_square (c ∷ b) h = elim (Bool-cases (empty_square == c)) [
  | inl e ↦ (0, omega arith, ground (arith, e))
  | inr e ↦ let (k, l, p) = free_square b (ground (arith, e)) in (suc k, omega arith, p)
]

running_has_free :
    (g : Game) → IsGame g → has_ended g.state ≡ false → contains empty_square g.board ≡ true
unfolding status text_eq
running_has_free g h run = ground (arith, h.state_of_board)

accepted :
    (g : Game) (k : ℕ) (signer : Text)
    → IsGame g
    → has_ended g.state ≡ false
    → get_elem? g.board k ≡ some empty_square
    → truthy signer ≡ true
    → not_turn_of signer g ≡ false
    → (g' : Game) × (take signer (number (suc k)) (some g) ≡ ok g')
unfolding take take_square
accepted g k signer h run free st turn = elim (running_state g h run) [
  | inl e ↦
      let (m, v) = move_x signer k g st h free e in
      (moved signer k mark_x g, rw (run, turn) (ground (arith, free, m)))
  | inr e ↦
      let (m, v) = move_o signer k g st h free e in
      (moved signer k mark_o g, rw (run, turn) (ground (arith, free, m)))
]

-- While a game that was played by the rules has not ended, a signer with a key whose turn it is can take
-- some space from 1 to 9: the game never gets stuck.
pub running_goes_on :
    (g : Game) (signer : Text)
    → IsGame g
    → has_ended g.state ≡ false
    → truthy signer ≡ true
    → not_turn_of signer g ≡ false
    → (n : ℕ) × (1 ≤ n) × (n ≤ 9) × (g' : Game) × (take signer (number n) (some g) ≡ ok g')
running_goes_on g signer h run st turn =
    let (k, l, free) = free_square g.board (running_has_free g h run) in
    let (g', e) = accepted g k signer h run free st turn in
    (suc k, omega arith, let nine = h.legal.nine in omega arith, g', e)
