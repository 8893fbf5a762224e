-- ===== src/Xo/Cli/Showing.antt =====
-- `do_show` of xo_cli.py reads the data of the state as the processor's `_deserialize` does, and draws
-- every board that is there.
use sci_ledger_sawtooth.Prelude.{
  ◌≡◌, refl, Option, none, some, List, [], ◌∷◌, map, arith, Option-cases, inl, inr,
}
use sci_ledger_sawtooth.Text.{Text, Bytes}
use sci_ledger_sawtooth.Text.Parts.{split}
use sci_ledger_sawtooth.Text.Utf8.{decode}
use sci_ledger_sawtooth.Dict.{Dict, get, put}
use sci_ledger_sawtooth.Errors.{Result, ok, err, value_error, key_error, Result-cases}
use sci_ledger_sawtooth.Xo.Game.{Game, Games, comma, bar, unpack, read_games, deserialize}
use sci_ledger_sawtooth.Xo.Cli.Listing.{Shown, game_lists, five, by_name, find_game}

abbrev pub shown_of : Game → Shown
shown_of g = record {
  board = g.board;
  game_state = g.state;
  player1 = g.player1;
  player2 = g.player2;
}

all_shown : Games → Dict Shown
all_shown [] = []
all_shown ((k, g) ∷ games) = (k, shown_of g) ∷ all_shown games

-- What `do_show` makes of what the processor reads.
abbrev pub shown_in : Text → Result Games → Result Shown
shown_in name (ok games) = elim (get games name) [ none ↦ err key_error | some g ↦ ok (shown_of g) ]
shown_in name (err e) = err value_error

abbrev all_read : Result Games → Result (Dict Shown)
all_read (ok games) = ok (all_shown games)
all_read (err e) = err value_error

abbrev five_of : Option Game → Result (Text × Shown)
five_of none = err value_error
five_of (some g) = ok (g.name, shown_of g)

five-unpack : (ts : List Text) → five ts ≡ five_of (unpack ts)
unfolding five unpack
five-unpack [] = refl
five-unpack (a ∷ []) = refl
five-unpack (a ∷ b ∷ []) = refl
five-unpack (a ∷ b ∷ c ∷ []) = refl
five-unpack (a ∷ b ∷ c ∷ d ∷ []) = refl
five-unpack (a ∷ b ∷ c ∷ d ∷ e ∷ []) = refl
five-unpack (a ∷ b ∷ c ∷ d ∷ e ∷ f ∷ ts) = refl

put-all_shown :
    (games : Games) (k : Text) (g : Game)
    → put (all_shown games) k (shown_of g) ≡ all_shown (put games k g)
unfolding put all_shown
put-all_shown [] k g = refl
put-all_shown ((j, f) ∷ games) k g = ground (arith, put-all_shown games k g)

get-all_shown :
    (games : Games) (k : Text)
    → get (all_shown games) k ≡ elim (get games k) [ none ↦ none | some g ↦ some (shown_of g) ]
unfolding get all_shown
get-all_shown [] k = refl
get-all_shown ((j, f) ∷ games) k = ground (arith, get-all_shown games k)

by_name-read_games :
    (parts : List Text) (games : Games)
    → by_name (map (split comma) parts) (all_shown games) ≡ all_read (read_games parts games)
unfolding by_name read_games
by_name-read_games [] games = refl
by_name-read_games (part ∷ parts) games = elim (Option-cases (unpack (split comma part))) [
  | inl u ↦ ground (arith, u, five-unpack (split comma part))
  | inr (g, u) ↦ ground (
    arith,
    u,
    five-unpack (split comma part),
    put-all_shown games g.name g,
    by_name-read_games parts (put games g.name g),
  )
]

-- Whatever the data: where the processor's `_deserialize` accepts it, `do_show` finds the board, the
-- state and the players of the game that it has under the name, or raises KeyError if it has none; where
-- `_deserialize` refuses the data, `do_show` raises ValueError.
pub find_game-deserialize :
    (name : Text) (b : Bytes) → find_game name b ≡ shown_in name (deserialize b)
unfolding find_game game_lists deserialize all_shown
find_game-deserialize name b = elim (Option-cases (decode b)) [
  | inl u ↦ ground (arith, u)
  | inr (t, u) ↦
      let q : by_name (map (split b',') (split b'|' t)) []
          ≡ all_read (read_games (split bar t) []) =
        by_name-read_games (split bar t) [] in
      elim (Result-cases (read_games (split bar t) [])) [
        | inr (e, r) ↦ ground (arith, u, r, q)
        | inl (games, r) ↦ ground (arith, u, r, q, get-all_shown games name)
      ]
]
