-- ===== src/Xo/State.antt =====
-- `XoState` of examples/xo_python/sawtooth_xo/processor/xo_state.py: the games of the validator's
-- state behind a cache of addresses. SHA-512 is a parameter.
pub mod Loading
pub mod Refinement
use sci_ledger_sawtooth.Prelude.{
  ℕ, Bool, true, false, Option, none, some, List, [], ◌∷◌, ◌++◌, if◌then◌else◌,
}
use sci_ledger_sawtooth.Text.{Text, Bytes, codes, prefix, truthy}
use sci_ledger_sawtooth.Text.Utf8.{encode}
use sci_ledger_sawtooth.Dict.{Dict, get, put, remove, has_key}
use sci_ledger_sawtooth.Errors.{Result, ok, err, value_error, key_error}
use sci_ledger_sawtooth.Action.{
  Action, pure, raise, lift, gets, modify, or_raise, raise_if, ◌>>=◌, ◌>>◌,
}
use sci_ledger_sawtooth.Processor.Access.{Access, Entry}
use sci_ledger_sawtooth.Xo.Game.{Game, Games, serialize, deserialize}

abbrev pub timeout : Option ℕ
timeout = some 3

-- `hashlib.sha512(_).hexdigest()`
abbrev pub Sha512 : Type 0
Sha512 = Bytes → Text

-- `XO_NAMESPACE`: the literal is ASCII
unfoldable pub xo_namespace : Sha512 → Text
xo_namespace sha512 = prefix 6 (sha512 (codes "xo"))

unfoldable pub make_xo_address : Sha512 → Text → Result Text
make_xo_address sha512 name = elim (encode name) [
  | none ↦ err value_error
  | some b ↦ ok (xo_namespace sha512 ++ prefix 64 (sha512 b))
]

-- `_address_cache`: None stands for an address that is known to be empty.
abbrev pub Cache : Type 0
Cache = Dict (Option Bytes)

module _ {S : Type 0} where
  -- a call of the context from within `XoState`
  abbrev pub below : {A : Type 0} → Action S A → Action (Cache × S) A
  below m (cache, s) = let (r, s') = m s in (r, (cache, s'))

  abbrev pub remember : Text → Option Bytes → Action (Cache × S) (Unit {0})
  remember address content (cache, s) = (ok tt, (put cache address content, s))

-- `if self._address_cache[address]:` and what follows
abbrev pub cached_games : Option Bytes → Result Games
cached_games none = ok []
cached_games (some b) = if truthy b then deserialize b else ok []

module _ {S : Type 0} (access : Access S) (sha512 : Sha512) where
  -- the branch of `_load_games` for what `get_state` returned
  unfoldable pub fetched_games : Text → List Entry → Action (Cache × S) Games
  fetched_games address [] = do remember address none; pure []
  fetched_games address (e ∷ rest) = do
    remember address (some e.content)
    lift (deserialize e.content)

  unfoldable pub load_games : Text → Action (Cache × S) Games
  unfolding fetched_games
  load_games name = do
    address ← lift (make_xo_address sha512 name)
    known ← gets (λ w. get w.0 address)
    elim known [
      | some content ↦ lift (cached_games content)
      | none ↦ below (access.get_state (address ∷ []) timeout) >>= fetched_games address
    ]

  unfoldable pub store_game : Text → Games → Action (Cache × S) (Unit {0})
  store_game name games = do
    address ← lift (make_xo_address sha512 name)
    state_data ← lift (serialize games)
    remember address (some state_data)
    below (access.set_state ((address, state_data) ∷ []) timeout)
    pure tt

  -- `_delete_game`
  unfoldable pub delete_address : Text → Action (Cache × S) (Unit {0})
  delete_address name = do
    address ← lift (make_xo_address sha512 name)
    below (access.delete_state (address ∷ []) timeout)
    remember address none

  unfoldable pub get_game : Text → Action (Cache × S) (Option Game)
  get_game name = do games ← load_games name; pure (get games name)

  unfoldable pub set_game : Text → Game → Action (Cache × S) (Unit {0})
  set_game name game = do games ← load_games name; store_game name (put games name game)

  -- `if games:`
  unfoldable pub store_left : Text → Games → Action (Cache × S) (Unit {0})
  store_left name left = if truthy left then store_game name left else delete_address name

  -- `del games[game_name]` raises KeyError where the name is not there
  unfoldable pub delete_game : Text → Action (Cache × S) (Unit {0})
  unfolding store_left
  delete_game name = do
    games ← load_games name
    if has_key games name then store_left name (remove games name) else raise key_error
