-- ===== src/Xo/Display/Box.antt =====
-- What `_display` logs is a box, and the handler's text of a game is always there.
use sci_ledger_sawtooth.Prelude.{
  ℕ, zero, suc, ◌+◌, ◌-◌, ◌*◌, ◌/◌, ◌%◌, ◌≤◌, ◌<◌, ◌≡◌, refl, List, [], ◌∷◌, ◌++◌, length,
  length-append, map, ltb, arith, All, All-append, Bool-cases, inl, inr,
}
use sci_ledger_sawtooth.Text.{Text, codes}
use sci_ledger_sawtooth.Text.Parts.{split}
use sci_ledger_sawtooth.Errors.{ok, Result-cases}
use sci_ledger_sawtooth.Xo.Cli.Listing.{blanked}
use sci_ledger_sawtooth.Xo.Cli.Printing.{item_at_lem, length-blanked}
use sci_ledger_sawtooth.Xo.Game.{Game}
use sci_ledger_sawtooth.Xo.Rules.Moves.{IsGame}
use sci_ledger_sawtooth.Xo.Display.{
  row_str, game_data_to_str, count_newlines, longest, times, center, lines_of, box_width, display,
}

length-times : (n c : ℕ) → length (times n c) ≡ n
unfolding times
length-times zero c = refl
length-times (suc n) c = ground (arith, length-times n c)

length-around :
    (left width : ℕ) (line : Text)
    → length line ≤ width
    → left ≤ width - length line
    → length (times left b' ' ++ line ++ times (width - length line - left) b' ') ≡ width
length-around left width line h k = ground (
  arith,
  length-append (times left b' ' ++ line) (times (width - length line - left) b' '),
  length-append (times left b' ') line,
  length-times left b' ',
  length-times (width - length line - left) b' ',
)

left_le : (pad w : ℕ) → w < 2 → pad / 2 + (pad % 2) * w ≤ pad
left_le pad zero h = omega arith
left_le pad (suc zero) h = omega arith
left_le pad (suc (suc w)) h = absurd (omega arith)

length-center : (width : ℕ) (line : Text) → length line ≤ width → length (center width line) ≡ width
unfolding center
length-center width line h =
    length-around ((width - length line) / 2 + ((width - length line) % 2) * (width % 2)) width line
      h (left_le (width - length line) (width % 2) (omega arith))

AtMost : ℕ → List Text → Type 0
AtMost n = All (λ line. length line ≤ n)

AtMost-le : (n m : ℕ) (lines : List Text) → n ≤ m → AtMost n lines → AtMost m lines
unfolding AtMost
AtMost-le n m [] h a = tt
AtMost-le n m (line ∷ lines) h a = (omega (arith, a.0), AtMost-le n m lines h a.1)

longest-AtMost : (lines : List Text) → AtMost (longest lines) lines
unfolding longest AtMost
longest-AtMost [] = tt
longest-AtMost (line ∷ lines) = (
  ground arith,
  AtMost-le (longest lines) (longest (line ∷ lines)) lines (ground arith) (longest-AtMost lines),
)

lines_of-AtMost : (msg : Text) → AtMost (box_width msg) (lines_of msg)
unfolding lines_of box_width AtMost
lines_of-AtMost msg = elim (Bool-cases (ltb 0 (count_newlines msg))) [
  | inl e ↦ rw (e, lines_of, box_width, AtMost) (longest-AtMost (split 10 msg))
  | inr e ↦ rw (e, lines_of, box_width, AtMost, All) (ground (arith, e), tt)
]

-- Every line is as long as the box is wide, with its two ends.
abbrev pub IsBox : ℕ → List Text → Type 0
IsBox n = All (λ line. length line ≡ n + 4)

centered-IsBox :
    (n : ℕ) (lines : List Text)
    → AtMost n lines
    → IsBox n (map (λ line. codes "+ " ++ center n line ++ codes " +") lines)
unfolding AtMost
centered-IsBox n [] h = tt
centered-IsBox n (line ∷ lines) h = (
  ground
      (arith, length-center n line h.0, length-append (codes "+ " ++ center n line) (codes " +")),
  centered-IsBox n lines h.1,
)

edge_lem : (n : ℕ) → length (b'+' ∷ times (n + 2) b'-' ++ b'+' ∷ []) ≡ n + 4
edge_lem n =
    ground (arith, length-append (times (n + 2) b'-') (b'+' ∷ []), length-times (n + 2) b'-')

-- Whatever the message, the lines that are logged are of one length.
display-IsBox : (msg : Text) → IsBox (box_width msg) (display msg)
unfolding display
display-IsBox msg = (
  edge_lem (box_width msg),
  All-append _
      (map (λ line. codes "+ " ++ center (box_width msg) line ++ codes " +") (lines_of msg)) _
      (centered-IsBox (box_width msg) (lines_of msg) (lines_of-AtMost msg))
      (edge_lem (box_width msg), tt),
)

row_str_total :
    (board : Text) (i : ℕ) → i + 2 < length board → (t : Text) × (row_str board i ≡ ok t)
unfolding row_str
row_str_total board i h =
    let (a, ea) = item_at_lem board i (omega arith) in
    let (b, eb) = item_at_lem board (i + 1) (omega arith) in
    let (c, ec) = item_at_lem board (i + 2) (omega arith) in
    (a ∷ codes " | " ++ b ∷ codes " | " ++ c ∷ [], ground (arith, ea, eb, ec))

game_data_to_str_total :
    (board state player1 player2 name : Text)
    → length board ≡ 9
    → (t : Text) × (game_data_to_str board state player1 player2 name ≡ ok t)
unfolding game_data_to_str
game_data_to_str_total board state player1 player2 name h =
    let (t1, e1) = row_str_total (blanked board) 0 (ground (arith, h, length-blanked board)) in
    let (t2, e2) = row_str_total (blanked board) 3 (ground (arith, h, length-blanked board)) in
    let (t3, e3) = row_str_total (blanked board) 6 (ground (arith, h, length-blanked board)) in
    elim (Result-cases (game_data_to_str board state player1 player2 name)) [
      | inl r ↦ r
      | inr (x, e) ↦ absurd (ground (arith, e1, e2, e3, e))
    ]

-- The text that the handler logs of a game that was played by the rules is made with no exception, and
-- under any heading `_display` logs it as lines of one length.
pub display-game_data_to_str :
    (g : Game) (name heading : Text)
    → IsGame g
    → (t : Text) × (game_data_to_str g.board g.state g.player1 g.player2 name ≡ ok t)
      × IsBox (box_width (heading ++ t)) (display (heading ++ t))
display-game_data_to_str g name heading h =
    let (t, e) = game_data_to_str_total g.board g.state g.player1 g.player2 name h.legal.nine in
    (t, e, display-IsBox (heading ++ t))
