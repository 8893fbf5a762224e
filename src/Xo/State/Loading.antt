-- ===== src/Xo/State/Loading.antt =====
-- `_load_games` returns what the validator's state holds at the name's address, through the cache.
use sci_ledger_sawtooth.Prelude.{
  ◌≡◌, refl, Option, none, some, [], ◌∷◌, arith, Option-cases, inl, inr, if◌then◌else◌,
}
use sci_ledger_sawtooth.Text.{Text, Bytes, text_eq, text_eq_iff}
use sci_ledger_sawtooth.Text.Utf8.{decode}
use sci_ledger_sawtooth.Text.Parts.{split}
use sci_ledger_sawtooth.Dict.{get, put, get-put}
use sci_ledger_sawtooth.Errors.{Result, ok}
use sci_ledger_sawtooth.Processor.Access.{Access, IsStore}
use sci_ledger_sawtooth.Xo.Game.{Games, deserialize, read_games, unpack}
use sci_ledger_sawtooth.Xo.State.{
  Sha512, Cache, make_xo_address, cached_games, load_games, get_game, timeout,
}

-- The data that a cache entry stands for.
abbrev pub content_of : Option Bytes → Bytes
content_of none = []
content_of (some b) = b

cached_games-content_of : (o : Option Bytes) → cached_games o ≡ cached_games (some (content_of o))
cached_games-content_of none = refl
cached_games-content_of (some b) = refl

-- Data that can be read is not empty, so the test of `if self._address_cache[address]` passes.
pub cached_games-deserialize :
    (b : Bytes) (games : Games) → deserialize b ≡ ok games → cached_games (some b) ≡ ok games
unfolding deserialize decode split read_games unpack
cached_games-deserialize [] games e = cc
cached_games-deserialize (x ∷ b) games e = e

module _ {S : Type 0} (read : S → Text → Bytes) where
  -- The cache holds what the state holds.
  pub record IsCoherent (w : Cache × S) : Type 0 where
    pub agrees : (a : Text) (o : Option Bytes) → get w.0 a ≡ some o → read w.1 a ≡ content_of o

  -- The games at an address.
  abbrev pub stored : S → Text → Result Games
  stored s a = cached_games (some (read s a))

  -- A write of one address through the cache.
  pub put-IsCoherent :
      (c : Cache) (s s' : S) (a : Text) (o : Option Bytes)
      → IsCoherent (c, s)
      → ((j : Text) → read s' j ≡ (if text_eq a j then content_of o else read s j))
      → IsCoherent (put c a o, s')
  put-IsCoherent c s s' a o h e = record {
    agrees = λ b p q. ground (arith, get-put c a b o, h.agrees b p, text_eq_iff a b, e b);
  }

module _ {S : Type 0} (access : Access S) (sha512 : Sha512) (read : S → Text → Bytes)
    (store : IsStore access read) where
  note_read :
      (s : S) (a : Text) (b : Bytes)
      → read s a ≡ b
      → (j : Text) → read s j ≡ (if text_eq a j then b else read s j)
  note_read s a b r j = ground (arith, text_eq_iff a j, r)

  -- an address that the cache does not know
  fetch_games_at :
      (name a : Text) (c : Cache) (s : S) (b : Bytes)
      → make_xo_address sha512 name ≡ ok a
      → IsCoherent read (c, s)
      → get c a ≡ none
      → read s a ≡ b
      → (c' : Cache) × (load_games access sha512 name (c, s) ≡ (stored read s a, (c', s)))
        × IsCoherent read (c', s)
  unfolding load_games
  fetch_games_at name a c s [] e h p r = (
    put c a none,
    ground (arith, e, p, r, store.get_lem s a timeout),
    put-IsCoherent read c s s a none h (note_read s a [] r),
  )
  fetch_games_at name a c s (x ∷ b) e h p r = (
    put c a (some (x ∷ b)),
    ground (arith, e, p, r, store.get_lem s a timeout),
    put-IsCoherent read c s s a (some (x ∷ b)) h (note_read s a (x ∷ b) r),
  )

  -- `_load_games` has the games at the address for its result, keeps the validator's state, and
  -- leaves a cache that still agrees with it.
  pub load_games_at :
      (name a : Text) (c : Cache) (s : S)
      → make_xo_address sha512 name ≡ ok a
      → IsCoherent read (c, s)
      → (c' : Cache) × (load_games access sha512 name (c, s) ≡ (stored read s a, (c', s)))
        × IsCoherent read (c', s)
  unfolding load_games
  load_games_at name a c s e h = elim (Option-cases (get c a)) [
    | inr (o, p) ↦ (c, ground (arith, e, p, h.agrees a o p, cached_games-content_of o), h)
    | inl p ↦ fetch_games_at name a c s (read s a) e h p refl
  ]

  -- Where the games at the name's address can be read, `get_game` finds what they hold under it.
  pub get_game_at :
      (name a : Text) (c : Cache) (s : S) (games : Games)
      → make_xo_address sha512 name ≡ ok a
      → IsCoherent read (c, s)
      → stored read s a ≡ ok games
      → (c' : Cache) × (get_game access sha512 name (c, s) ≡ (ok (get games name), (c', s)))
        × IsCoherent read (c', s)
  unfolding get_game
  get_game_at name a c s games e h q =
      let (c', p, h') = load_games_at name a c s e h in (c', ground (arith, p, q), h')
