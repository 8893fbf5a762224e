-- ===== src/Xo/Game.antt =====
-- `Game`, `_serialize` and `_deserialize` of examples/xo_python/sawtooth_xo/processor/xo_state.py.
pub mod Sorting
pub mod RoundTrip
pub mod Reading
pub mod Order
use sci_ledger_sawtooth.Prelude.{
  Bool, true, false, Option, none, some, List, [], ◌∷◌, ltb, ◌==◌, if◌then◌else◌, ℕ,
}
use sci_ledger_sawtooth.Text.{Text, Bytes}
use sci_ledger_sawtooth.Text.Parts.{join, split}
use sci_ledger_sawtooth.Text.Utf8.{encode, decode}
use sci_ledger_sawtooth.Dict.{Dict, put}
use sci_ledger_sawtooth.Errors.{Result, ok, err, value_error, plain, internal}

pub record Game : Type 0 where
  pub name : Text
  pub board : Text
  pub state : Text
  pub player1 : Text
  pub player2 : Text

abbrev pub comma : ℕ
comma = b','

abbrev pub bar : ℕ
bar = b'|'

abbrev pub Games : Type 0
Games = Dict Game

-- Python orders texts by code points.
unfoldable pub text_le : Text → Text → Bool
text_le [] t = true
text_le (c ∷ s) [] = false
text_le (c ∷ s) (d ∷ t) = if ltb c d then true else if c == d then text_le s t else false

unfoldable pub insert : Text → List Text → List Text
insert s [] = s ∷ []
insert s (t ∷ ts) = if text_le s t then s ∷ t ∷ ts else t ∷ insert s ts

-- `sorted(texts)`: the order is total and tells texts apart, so every sort has this result
unfoldable pub sorted : List Text → List Text
unfolding insert
sorted [] = []
sorted (s ∷ ss) = insert s (sorted ss)

abbrev pub game_fields : Text × Game → List Text
game_fields (name, g) = name ∷ g.board ∷ g.state ∷ g.player1 ∷ g.player2 ∷ []

-- the loop over `games.items()`
unfoldable pub game_strs : Games → List Text
game_strs [] = []
game_strs (e ∷ games) = join comma (game_fields e) ∷ game_strs games

unfoldable pub serialize : Games → Result Bytes
serialize games = elim (encode (join bar (sorted (game_strs games)))) [
  | none ↦ err value_error
  | some data_bytes ↦ ok data_bytes
]

-- the tuple assignment of `game.split(",")`: five parts, or ValueError
unfoldable pub unpack : List Text → Option Game
unpack (name ∷ board ∷ state ∷ player1 ∷ player2 ∷ []) =
    some
      (record { name = name; board = board; state = state; player1 = player1; player2 = player2 })
unpack _ = none

abbrev pub failed_to_deserialize : Result Games
failed_to_deserialize = err (internal (plain "Failed to deserialize game data"))

-- the loop over `data.decode().split("|")`
unfoldable pub read_games : List Text → Games → Result Games
read_games [] games = ok games
read_games (part ∷ parts) games = elim (unpack (split comma part)) [
  | none ↦ failed_to_deserialize
  | some g ↦ read_games parts (put games g.name g)
]

unfoldable pub deserialize : Bytes → Result Games
deserialize data_bytes = elim (decode data_bytes) [
  | none ↦ failed_to_deserialize
  | some t ↦ read_games (split bar t) []
]
