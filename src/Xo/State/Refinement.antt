-- ===== src/Xo/State/Refinement.antt =====
-- `XoState` implements a map from names to games, also where two names share an address.
use sci_ledger_sawtooth.Prelude.{
  ◌≡◌, ◌≢◌, refl, ◌∙◌, true, false, Option, none, some, [], ◌∷◌, arith, Bool-cases, inl, inr,
  if◌then◌else◌, All,
}
use sci_ledger_sawtooth.Text.{Text, Bytes, text_eq, text_eq_iff}
use sci_ledger_sawtooth.Dict.{
  get, put, remove, has_key, get-put, get-remove, IsDistinct, put-IsDistinct, remove-IsDistinct,
  All-put, All-remove, All-get,
}
use sci_ledger_sawtooth.Errors.{ok, err, key_error}
use sci_ledger_sawtooth.Processor.Access.{Access, IsStore}
use sci_ledger_sawtooth.Xo.Game.{Game, Games}
use sci_ledger_sawtooth.Xo.Game.RoundTrip.{IsClean, deserialize-serialize}
use sci_ledger_sawtooth.Xo.Game.Reading.{deserialize-IsClean, put-ne-nil}
use sci_ledger_sawtooth.Xo.State.{
  Sha512, Cache, make_xo_address, cached_games, store_game, delete_address, get_game, set_game,
  store_left, delete_game, timeout,
}
use sci_ledger_sawtooth.Xo.State.Loading.{
  IsCoherent, stored, load_games_at, get_game_at, put-IsCoherent, cached_games-deserialize,
}

-- The games of stored data are clean and under distinct names.
cached_games-IsClean :
    (b : Bytes) (games : Games)
    → cached_games (some b) ≡ ok games
    → All IsClean games × IsDistinct games
cached_games-IsClean [] [] e = (tt, tt)
cached_games-IsClean [] (g ∷ games) e = cc
cached_games-IsClean (x ∷ b) games e = let r = deserialize-IsClean (x ∷ b) games e in (r.1, r.2)

renamed-IsClean :
    {name : Text} (k : Text) (g : Game) → IsClean (name, g) → text_eq k name ≡ true → IsClean (k, g)
renamed-IsClean {name} k g h e = rw ((text_eq_iff k name).0 e) h

-- The map with one name bound anew.
abbrev pub bind : (Text → Option Game) → Text → Option Game → Text → Option Game
bind found name o k = if text_eq name k then o else found k

module _ {S : Type 0} (sha512 : Sha512) (read : S → Text → Bytes) where
  -- The validator's state holds the map: at the address of every name that has one there are games
  -- that can be read, and the name finds its game among them.
  pub record Represents (found : Text → Option Game) (s : S) : Type 0 where
    pub at :
        (name a : Text)
        → make_xo_address sha512 name ≡ ok a
        → (games : Games) × (stored read s a ≡ ok games) × (get games name ≡ found name)

  -- A state that differs at one address, where each name finds what it found but for one name.
  bind-Represents :
      (found : Text → Option Game) (name a : Text) (o : Option Game) (s s' : S)
      (games games' : Games)
      → make_xo_address sha512 name ≡ ok a
      → Represents found s
      → stored read s a ≡ ok games
      → stored read s' a ≡ ok games'
      → ((k : Text) → get games' k ≡ (if text_eq name k then o else get games k))
      → ((j : Text) → text_eq a j ≡ false → read s' j ≡ read s j)
      → Represents (bind found name o) s'
  bind-Represents found name a o s s' games games' e h g g' new others = record {
    at = λ k b eb.
        let (old, p, q) = h.at k b eb in
        elim (Bool-cases (text_eq a b)) [
          | inl same ↦
              let ab = (text_eq_iff a b).0 same in
              (games', rw (← ab) g', ground (arith, ab, new k, p, q, g))
          | inr other ↦ (
            old,
            ground (arith, others b other, p),
            ground (arith, text_eq_iff name k, text_eq_iff a b, e, eb, q),
          )
        ];
  }

module _ {S : Type 0} (access : Access S) (sha512 : Sha512) (read : S → Text → Bytes)
    (store : IsStore access read) where
  -- What a write of games at one address leaves behind.
  record IsWritten (a : Text) (s : S) (games : Games) (c' : Cache) (s' : S) (games' : Games)
      : Type 0 where
    coherent : IsCoherent read (c', s')
    holds : stored read s' a ≡ ok games'
    finds : (k : Text) → get games' k ≡ get games k
    others : (j : Text) → text_eq a j ≡ false → read s' j ≡ read s j

  store_game_at :
      (name a : Text) (c : Cache) (s : S) (games : Games)
      → make_xo_address sha512 name ≡ ok a
      → IsCoherent read (c, s)
      → games ≢ []
      → All IsClean games
      → IsDistinct games
      → (c' : Cache) × (s' : S) × (games' : Games) × (store_game access sha512 name games (c, s)
          ≡ (ok tt, (c', s')))
        × IsWritten a s games c' s' games'
  unfolding store_game
  store_game_at name a c s games e h ne cl d =
      let (b, games', es, ed, eg) = deserialize-serialize games ne cl d in
      let (s', changed, ew, er) = store.set_lem s a b timeout in
      (
        put c a (some b),
        s',
        games',
        ground (arith, e, es, ew),
        record {
          coherent = put-IsCoherent read c s s' a (some b) h er;
          holds = ground (arith, er a, text_eq_iff a a, cached_games-deserialize b games' ed);
          finds = eg;
          others = λ j o. ground (arith, er j, o);
        },
      )

  delete_address_at :
      (name a : Text) (c : Cache) (s : S)
      → make_xo_address sha512 name ≡ ok a
      → IsCoherent read (c, s)
      → (c' : Cache) × (s' : S) × (delete_address access sha512 name (c, s) ≡ (ok tt, (c', s')))
        × IsWritten a s [] c' s' []
  unfolding delete_address
  delete_address_at name a c s e h =
      let (s', changed, ew, er) = store.delete_lem s a timeout in
      (
        put c a none,
        s',
        ground (arith, e, ew),
        record {
          coherent = put-IsCoherent read c s s' a none h er;
          holds = ground (arith, er a, text_eq_iff a a);
          finds = λ k. refl;
          others = λ j o. ground (arith, er j, o);
        },
      )

  -- `if games:` after the deletion
  store_left_at :
      (name a : Text) (c : Cache) (s : S) (games : Games)
      → make_xo_address sha512 name ≡ ok a
      → IsCoherent read (c, s)
      → All IsClean games
      → IsDistinct games
      → (c' : Cache) × (s' : S) × (games' : Games) × (store_left access sha512 name games (c, s)
          ≡ (ok tt, (c', s')))
        × IsWritten a s games c' s' games'
  unfolding store_left
  store_left_at name a c s [] e h cl d =
      let (c', s', p, w) = delete_address_at name a c s e h in (c', s', [], p, w)
  store_left_at name a c s (g ∷ games) e h cl d = store_game_at name a c s (g ∷ games) e h (cc) cl d

  module _ (found : Text → Option Game) (name a : Text) (c : Cache) (s : S)
      (e : make_xo_address sha512 name ≡ ok a) (h : IsCoherent read (c, s))
      (r : Represents sha512 read found s) where
    -- A game of the map is stored clean.
    pub found-IsClean : (g : Game) → found name ≡ some g → IsClean (name, g)
    found-IsClean g there =
        let (games, p, q) = r.at name a e in
        let (clean, distinct) = cached_games-IsClean (read s a) games p in
        All-get IsClean games name g clean (q ∙ there)

    -- `get_game` of a name returns the game that the map has under it and changes no state.
    pub get_game_found :
        (c' : Cache) × (get_game access sha512 name (c, s) ≡ (ok (found name), (c', s)))
        × IsCoherent read (c', s)
    get_game_found =
        let (games, p, q) = r.at name a e in
        let (c', g, h') = get_game_at access sha512 read store name a c s games e h p in
        (c', ground (arith, g, q), h')

    -- On a store, where the cache agrees with the state and the state represents a map from names to
    -- games, `set_game` of a clean game under its own name ends without an error, binds the name in
    -- the map, and nothing else, and the cache agrees again.
    pub set_game_binds :
        (g : Game)
        → IsClean (name, g)
        → (c' : Cache) × (s' : S) × (set_game access sha512 name g (c, s) ≡ (ok tt, (c', s')))
          × IsCoherent read (c', s')
          × Represents sha512 read (bind found name (some g)) s'
    unfolding set_game
    set_game_binds g cl =
        let (games, p, q) = r.at name a e in
        let (c1, l, h1) = load_games_at access sha512 read store name a c s e h in
        let (clean, distinct) = cached_games-IsClean (read s a) games p in
        let (c', s', games', st, w) =
          store_game_at name a c1 s (put games name g) e h1 (put-ne-nil games name g)
            (All-put IsClean games name g (λ j t. renamed-IsClean j g cl t) cl clean)
            (put-IsDistinct games name g distinct) in
        (
          c',
          s',
          ground (arith, l, p, st),
          w.coherent,
          bind-Represents sha512 read found name a (some g) s s' games games' e r p w.holds
              (λ k. w.finds k ∙ get-put games name k g) w.others,
        )

    -- On a store, where the cache agrees with the state and the state represents a map from names to
    -- games, `delete_game` of a name that is in the map ends without an error, takes the name out of
    -- the map, and nothing else, and the cache agrees again.
    pub delete_game_unbinds :
        (g : Game)
        → found name ≡ some g
        → (c' : Cache) × (s' : S) × (delete_game access sha512 name (c, s) ≡ (ok tt, (c', s')))
          × IsCoherent read (c', s')
          × Represents sha512 read (bind found name none) s'
    unfolding delete_game has_key
    delete_game_unbinds g there =
        let (games, p, q) = r.at name a e in
        let (c1, l, h1) = load_games_at access sha512 read store name a c s e h in
        let (clean, distinct) = cached_games-IsClean (read s a) games p in
        let (c', s', games', st, w) =
          store_left_at name a c1 s (remove games name) e h1 (All-remove IsClean games name clean)
            (remove-IsDistinct games name distinct) in
        (
          c',
          s',
          ground (arith, l, p, q, there, st),
          w.coherent,
          bind-Represents sha512 read found name a none s s' games games' e r p w.holds
              (λ k. w.finds k ∙ get-remove games name k) w.others,
        )

    -- `delete_game` of a name that is not there raises KeyError and changes no state.
    pub delete_game_missing :
        found name ≡ none
        → (c' : Cache) × (delete_game access sha512 name (c, s) ≡ (err key_error, (c', s)))
    unfolding delete_game has_key
    delete_game_missing missing =
        let (games, p, q) = r.at name a e in
        let (c1, l, h1) = load_games_at access sha512 read store name a c s e h in
        (c1, ground (arith, l, p, q, missing))
