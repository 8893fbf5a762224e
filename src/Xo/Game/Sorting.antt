-- ===== src/Xo/Game/Sorting.antt =====
-- Sorting the lines of games sorts the games, and keeps what is found under a name.
use sci_ledger_sawtooth.Prelude.{
  ◌≡◌, refl, ◌≢◌, ◌∙◌, none, some, [], ◌∷◌, arith, if◌then◌else◌, All,
}
use sci_ledger_sawtooth.Text.{Text, text_eq, text_eq_iff}
use sci_ledger_sawtooth.Text.Parts.{join}
use sci_ledger_sawtooth.Dict.{get, IsDistinct}
use sci_ledger_sawtooth.Xo.Game.{
  Game, Games, comma, game_fields, text_le, insert, sorted, game_strs,
}

abbrev pub line : Text × Game → Text
line e = join comma (game_fields e)

pub insert_game : Text × Game → Games → Games
insert_game e [] = e ∷ []
insert_game e (f ∷ games) =
    if text_le (line e) (line f) then e ∷ f ∷ games else f ∷ insert_game e games

unfoldable pub sorted_games : Games → Games
sorted_games [] = []
sorted_games (e ∷ games) = insert_game e (sorted_games games)

insert-game_strs :
    (e : Text × Game) (games : Games)
    → insert (line e) (game_strs games) ≡ game_strs (insert_game e games)
unfolding insert game_strs insert_game
insert-game_strs e [] = refl
insert-game_strs e (f ∷ games) = ground (arith, insert-game_strs e games)

pub sorted-game_strs : (games : Games) → sorted (game_strs games) ≡ game_strs (sorted_games games)
unfolding sorted game_strs sorted_games
sorted-game_strs [] = refl
sorted-game_strs (e ∷ games) =
    ground (arith, sorted-game_strs games, insert-game_strs e (sorted_games games))

get-insert_game :
    (e : Text × Game) (games : Games) (k : Text)
    → get games e.0 ≡ none
    → get (insert_game e games) k ≡ (if text_eq e.0 k then some e.1 else get games k)
unfolding get insert_game
get-insert_game e [] k h = refl
get-insert_game e (f ∷ games) k h =
    ground
      (arith, get-insert_game e games k, text_eq_iff e.0 k, text_eq_iff f.0 k, text_eq_iff f.0 e.0)

insert_game-IsDistinct :
    (e : Text × Game) (games : Games)
    → get games e.0 ≡ none
    → IsDistinct games
    → IsDistinct (insert_game e games)
unfolding get insert_game
insert_game-IsDistinct e [] h d = (refl, tt)
insert_game-IsDistinct e (f ∷ games) h d = ground (
  arith,
  insert_game-IsDistinct e games,
  get-insert_game e games f.0,
  text_eq_iff e.0 f.0,
  text_eq_iff f.0 e.0,
)

pub get-sorted_games :
    (games : Games) (k : Text) → IsDistinct games → get (sorted_games games) k ≡ get games k
unfolding get sorted_games
get-sorted_games [] k d = refl
get-sorted_games (e ∷ games) k d = ground (
  arith,
  get-insert_game e (sorted_games games) k,
  get-sorted_games games e.0 d.1,
  get-sorted_games games k d.1,
)

pub sorted_games-IsDistinct : (games : Games) → IsDistinct games → IsDistinct (sorted_games games)
unfolding sorted_games
sorted_games-IsDistinct [] d = tt
sorted_games-IsDistinct (e ∷ games) d =
    insert_game-IsDistinct e (sorted_games games) (get-sorted_games games e.0 d.1 ∙ d.0)
      (sorted_games-IsDistinct games d.1)

module _ (P : Text × Game → Type 0) where
  All-insert_game :
      (e : Text × Game) (games : Games) → P e → All P games → All P (insert_game e games)
  unfolding insert_game
  All-insert_game e [] p h = (p, tt)
  All-insert_game e (f ∷ games) p h = ground (arith, All-insert_game e games p h.1)

  pub All-sorted_games : (games : Games) → All P games → All P (sorted_games games)
  unfolding sorted_games
  All-sorted_games [] h = tt
  All-sorted_games (e ∷ games) h =
      All-insert_game e (sorted_games games) h.0 (All-sorted_games games h.1)

pub insert_game-ne-nil : (e : Text × Game) (games : Games) → insert_game e games ≢ []
unfolding insert_game
insert_game-ne-nil e [] = cc
insert_game-ne-nil e (f ∷ games) = ground arith
