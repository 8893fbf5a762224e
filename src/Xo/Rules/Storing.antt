-- ===== src/Xo/Rules/Storing.antt =====
-- The games that the handler writes can be stored.
use sci_ledger_sawtooth.Prelude.{
  ℕ, zero, suc, ◌≡◌, refl, ◌∙◌, sym, ◌⊎◌, inl, inr, Bool, some, [], ◌∷◌, arith, All,
}
use sci_ledger_sawtooth.Text.{Text}
use sci_ledger_sawtooth.Errors.{Exn, Result, ok, err}
use sci_ledger_sawtooth.Xo.Board.{
  mark_x, mark_o, p1_next, p2_next, p1_win, p2_win, tie, replace_from, mark_of, update_board,
  is_win, next_state, update_game_state,
}
use sci_ledger_sawtooth.Xo.Game.{Game}
use sci_ledger_sawtooth.Xo.Game.RoundTrip.{IsPlain, IsClean}
use sci_ledger_sawtooth.Xo.Payload.{Space, raw, number}
use sci_ledger_sawtooth.Xo.Rules.{seat, move, take_square, take, new_game}

pub Result-cases : {A : Type 0} (r : Result A) → ((a : A) × (r ≡ ok a)) ⊎ ((e : Exn) × (r ≡ err e))
Result-cases (ok a) = inl (a, refl)
Result-cases (err e) = inr (e, refl)

replace_from-IsPlain :
    (s i m : ℕ) (b : Text) → IsPlain m → All IsPlain b → All IsPlain (replace_from s i m b)
unfolding replace_from
replace_from-IsPlain s i m [] h k = tt
replace_from-IsPlain s i m (c ∷ b) h k = ground (arith, replace_from-IsPlain (suc s) i m b h k.1)

update_board-IsPlain :
    (b : Text) (n : ℕ) (state b' : Text)
    → All IsPlain b
    → update_board b n state ≡ ok b'
    → All IsPlain b'
unfolding update_board mark_of
update_board-IsPlain b zero state b' h e = let p : b ≡ b' = ground arith in rw (← p) h
update_board-IsPlain b (suc k) state b' h e = ground (
  arith,
  replace_from-IsPlain 0 k mark_x b (omega arith) h,
  replace_from-IsPlain 0 k mark_o b (omega arith) h,
)

next_state_cases :
    (gs b : Text) (x o : Bool) (s : Text)
    → next_state gs b x o ≡ ok s
    → (s ≡ gs) ⊎ ((s ≡ p1_win) ⊎ ((s ≡ p2_win) ⊎ ((s ≡ tie) ⊎ ((s ≡ p1_next) ⊎ (s ≡ p2_next)))))
unfolding next_state
next_state_cases gs b x o s e = ground arith

next_state-IsPlain :
    (gs b : Text) (x o : Bool) (s : Text)
    → All IsPlain gs
    → next_state gs b x o ≡ ok s
    → All IsPlain s
next_state-IsPlain gs b x o s h e = elim (next_state_cases gs b x o s e) [
  | inl p ↦ rw p h
  | inr (inl p) ↦ rw p (omega arith)
  | inr (inr (inl p)) ↦ rw p (omega arith)
  | inr (inr (inr (inl p))) ↦ rw p (omega arith)
  | inr (inr (inr (inr (inl p)))) ↦ rw p (omega arith)
  | inr (inr (inr (inr (inr p)))) ↦ rw p (omega arith)
]

update_game_state-IsPlain :
    (gs b s : Text) → All IsPlain gs → update_game_state gs b ≡ ok s → All IsPlain s
unfolding update_game_state
update_game_state-IsPlain gs b s h e = elim (Result-cases (is_win b mark_x)) [
  | inr (x, p) ↦ absurd (ground (arith, p))
  | inl (x, p) ↦ elim (Result-cases (is_win b mark_o)) [
    | inr (o, q) ↦ absurd (ground (arith, p, q))
    | inl (o, q) ↦ next_state-IsPlain gs b x o s h (ground (arith, p, q))
  ]
]

-- The fields of a game, to be stored under a name.
record IsStorable (g : Game) : Type 0 where
  board : All IsPlain g.board
  state : All IsPlain g.state
  player1 : All IsPlain g.player1
  player2 : All IsPlain g.player2

seat-IsStorable :
    (signer : Text) (g : Game)
    → IsStorable g
    → All IsPlain signer
    → ((seat signer g).name ≡ g.name) × IsStorable (seat signer g)
unfolding seat
seat-IsStorable signer g h p = ground arith

move-IsClean :
    (name signer : Text) (n : ℕ) (g g' : Game)
    → All IsPlain signer
    → IsClean (name, g)
    → move signer n g ≡ ok g'
    → IsClean (name, g')
unfolding move
move-IsClean name signer n g g' p h e = elim (Result-cases (update_board g.board n g.state)) [
  | inr (x, q) ↦ absurd (ground (arith, q))
  | inl (b, q) ↦ elim (Result-cases (update_game_state g.state b)) [
    | inr (x, r) ↦ absurd (ground (arith, q, r))
    | inl (s, r) ↦
        let (same, st) =
          seat-IsStorable signer g
            (record {
              board = h.fields.1.0;
              state = h.fields.1.1.0;
              player1 = h.fields.1.1.1.0;
              player2 = h.fields.1.1.1.1.0;
            })
            p in
        let eq : record (seat signer g) { board = b; state = s } ≡ g' = ground (arith, q, r) in
        rw (← eq) (record {
          named = h.named ∙ sym same;
          fields = (
            h.fields.0,
            (
              update_board-IsPlain g.board n g.state b h.fields.1.0 q,
              (
                update_game_state-IsPlain g.state b s h.fields.1.1.0 r,
                (st.player1, (st.player2, tt)),
              ),
            ),
          );
        })
  ]
]

-- A take in a game that is stored clean gives a game that can be stored.
pub take-IsClean :
    (name signer : Text) (sp : Space) (g g' : Game)
    → All IsPlain signer
    → IsClean (name, g)
    → take signer sp (some g) ≡ ok g'
    → IsClean (name, g')
unfolding take take_square
take-IsClean name signer (raw t) g g' p h e = absurd (ground arith)
take-IsClean name signer (number n) g g' p h e = move-IsClean name signer n g g' p h (ground arith)

pub new_game-IsClean : (name : Text) → All IsPlain name → IsClean (name, new_game name)
new_game-IsClean name h = record {
  named = refl;
  fields = (h, (omega arith, (omega arith, (tt, (tt, tt)))));
}
