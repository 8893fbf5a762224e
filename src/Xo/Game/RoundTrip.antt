-- ===== src/Xo/Game/RoundTrip.antt =====
-- `_deserialize` after `_serialize`, and what `_deserialize` lets through.
use sci_ledger_sawtooth.Prelude.{ℕ, ◌≡◌, ◌≢◌, refl, none, some, List, [], ◌∷◌, arith, All, inl}
use sci_ledger_sawtooth.Text.{Text, Bytes, Lacks, text_eq_iff}
use sci_ledger_sawtooth.Text.Parts.{join, split, split-join, All-join}
use sci_ledger_sawtooth.Text.Utf8.{encode, decode-encode}
use sci_ledger_sawtooth.Text.Utf8.Scalar.{IsScalar, encode_total}
use sci_ledger_sawtooth.Dict.{get, put, get-put, IsDistinct}
use sci_ledger_sawtooth.Errors.{ok}
use sci_ledger_sawtooth.Xo.Game.{
  Game, Games, comma, bar, game_fields, sorted, game_strs, serialize, unpack, read_games,
  deserialize,
}
use sci_ledger_sawtooth.Xo.Game.Sorting.{
  line, sorted_games, sorted-game_strs, get-sorted_games, sorted_games-IsDistinct, All-sorted_games,
  insert_game-ne-nil,
}

-- A character that a field may hold: no separator and no surrogate.
abbrev pub IsPlain : ℕ → Type 0
IsPlain c = (c ≢ comma) × (c ≢ bar) × IsScalar c

-- An entry that survives being written: it stands under its own name, and its five fields hold
-- neither separators nor surrogates.
pub record IsClean (e : Text × Game) : Type 0 where
  pub named : e.0 ≡ e.1.name
  pub fields : All (All IsPlain) (game_fields e)

IsPlain-Lacks-comma : (t : Text) → All IsPlain t → Lacks comma t
IsPlain-Lacks-comma [] h = tt
IsPlain-Lacks-comma (c ∷ t) h = (h.0.0, IsPlain-Lacks-comma t h.1)

IsPlain-Lacks-bar : (t : Text) → All IsPlain t → Lacks bar t
IsPlain-Lacks-bar [] h = tt
IsPlain-Lacks-bar (c ∷ t) h = (h.0.1, IsPlain-Lacks-bar t h.1)

pub IsPlain-IsScalar : (t : Text) → All IsPlain t → All IsScalar t
IsPlain-IsScalar [] h = tt
IsPlain-IsScalar (c ∷ t) h = (h.0.2, IsPlain-IsScalar t h.1)

module _ {P : ℕ → Type 0} (weaken : (t : Text) → All IsPlain t → All P t) where
  All-weaken : (ps : List Text) → All (All IsPlain) ps → All (All P) ps
  All-weaken [] h = tt
  All-weaken (p ∷ ps) h = (weaken p h.0, All-weaken ps h.1)

split-line : (e : Text × Game) → IsClean e → split comma (line e) ≡ game_fields e
split-line e h =
    split-join comma (game_fields e) (cc) (All-weaken IsPlain-Lacks-comma (game_fields e) h.fields)

unpack-game_fields : (e : Text × Game) → IsClean e → unpack (game_fields e) ≡ some e.1
unfolding unpack
unpack-game_fields e h = ground (arith, h.named)

put_all : Games → Games → Games
put_all [] games = games
put_all (e ∷ es) games = put_all es (put games e.0 e.1)

read_games-game_strs :
    (es games : Games) → All IsClean es → read_games (game_strs es) games ≡ ok (put_all es games)
unfolding read_games game_strs put_all
read_games-game_strs [] games h = refl
read_games-game_strs (e ∷ es) games h = ground (
  arith,
  split-line e h.0,
  unpack-game_fields e h.0,
  h.0.named,
  read_games-game_strs es (put games e.0 e.1) h.1,
)

get-put_all :
    (es games : Games) (k : Text)
    → IsDistinct es
    → get (put_all es games) k ≡ elim (get es k) [ none ↦ get games k | some g ↦ some g ]
unfolding put_all get
get-put_all [] games k d = refl
get-put_all (e ∷ es) games k d =
    ground
      (arith, get-put_all es (put games e.0 e.1) k d.1, get-put games e.0 k e.1, text_eq_iff e.0 k)

game_strs-ne-nil : (es : Games) → es ≢ [] → game_strs es ≢ []
unfolding game_strs
game_strs-ne-nil [] h = absurd (h refl)
game_strs-ne-nil (e ∷ es) h = cc

sorted_games-ne-nil : (es : Games) → es ≢ [] → sorted_games es ≢ []
unfolding sorted_games
sorted_games-ne-nil [] h = absurd (h refl)
sorted_games-ne-nil (e ∷ es) h = insert_game-ne-nil e (sorted_games es)

module _ (P : ℕ → Type 0) (at_comma : P comma) (weaken : (t : Text) → All IsPlain t → All P t) where
  All-game_strs : (es : Games) → All IsClean es → All (All P) (game_strs es)
  unfolding game_strs
  All-game_strs [] h = tt
  All-game_strs (e ∷ es) h = (
    All-join P comma at_comma (game_fields e) (All-weaken weaken (game_fields e) h.0.fields),
    All-game_strs es h.1,
  )

written : Games → Text
written games = join bar (sorted (game_strs games))

written-sorted_games : (games : Games) → written games ≡ join bar (game_strs (sorted_games games))
unfolding written
written-sorted_games games = rw sorted-game_strs

written-IsScalar : (games : Games) → All IsClean games → All IsScalar (written games)
written-IsScalar games h = rw written-sorted_games (
    All-join IsScalar bar (inl (omega arith)) (game_strs (sorted_games games)) (
      All-game_strs IsScalar (inl (omega arith)) IsPlain-IsScalar (sorted_games games)
        (All-sorted_games IsClean games h)))

split-written :
    (games : Games)
    → games ≢ []
    → All IsClean games
    → split bar (written games) ≡ game_strs (sorted_games games)
split-written games ne h = rw written-sorted_games (
    split-join bar (game_strs (sorted_games games))
      (game_strs-ne-nil (sorted_games games) (sorted_games-ne-nil games ne))
      (All-game_strs (λ c. c ≢ bar) (omega arith) IsPlain-Lacks-bar (sorted_games games)
        (All-sorted_games IsClean games h)))

serialize-written :
    (games : Games) (b : Bytes) → encode (written games) ≡ some b → serialize games ≡ ok b
unfolding serialize written
serialize-written games b e = ground arith

deserialize-written :
    (games : Games) (b : Bytes)
    → games ≢ []
    → All IsClean games
    → encode (written games) ≡ some b
    → deserialize b ≡ ok (put_all (sorted_games games) [])
unfolding deserialize
deserialize-written games b ne h e = ground (
  arith,
  decode-encode (written games) b e,
  split-written games ne h,
  read_games-game_strs (sorted_games games) [] (All-sorted_games IsClean games h),
)

get-written :
    (games : Games) (k : Text)
    → IsDistinct games
    → get (put_all (sorted_games games) []) k ≡ get games k
unfolding get
get-written games k d = ground (
  arith,
  get-put_all (sorted_games games) [] k (sorted_games-IsDistinct games d),
  get-sorted_games games k d,
)

-- Games that are there, clean and under distinct names are written without an error; what is
-- written is read back without an error, and each name finds the game that it found before.
pub deserialize-serialize :
    (games : Games)
    → games ≢ []
    → All IsClean games
    → IsDistinct games
    → (data_bytes : Bytes) × (games' : Games) × (serialize games ≡ ok data_bytes)
      × (deserialize data_bytes ≡ ok games')
      × ((k : Text) → get games' k ≡ get games k)
deserialize-serialize games ne h d =
    let (b, e) = encode_total (written games) (written-IsScalar games h) in
    (
      b,
      put_all (sorted_games games) [],
      serialize-written games b e,
      deserialize-written games b ne h e,
      λ k. get-written games k d,
    )
