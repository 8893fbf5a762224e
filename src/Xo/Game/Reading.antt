-- ===== src/Xo/Game/Reading.antt =====
-- What `_deserialize` lets through: games that could have been written.
use sci_ledger_sawtooth.Prelude.{
  true, ℕ, ◌≡◌, ◌≢◌, refl, some, List, [], ◌∷◌, arith, All, Option-cases, inl, inr,
}
use sci_ledger_sawtooth.Text.{Text, Bytes, text_eq, text_eq_iff}
use sci_ledger_sawtooth.Text.Parts.{split, split-Lacks, split-ne-nil, All-split}
use sci_ledger_sawtooth.Text.Utf8.{decode}
use sci_ledger_sawtooth.Text.Utf8.Scalar.{IsScalar, decode-IsScalar}
use sci_ledger_sawtooth.Dict.{put, IsDistinct, put-IsDistinct, All-put}
use sci_ledger_sawtooth.Errors.{ok}
use sci_ledger_sawtooth.Xo.Game.{Game, Games, comma, bar, unpack, read_games, deserialize}
use sci_ledger_sawtooth.Xo.Game.RoundTrip.{IsPlain, IsClean}

-- A character that stands in a part of stored data.
abbrev IsPart : ℕ → Type 0
IsPart c = (c ≢ bar) × IsScalar c

All-both : (P Q : ℕ → Type 0) (t : Text) → All P t → All Q t → All (λ c. P c × Q c) t
All-both P Q [] hp hq = tt
All-both P Q (c ∷ t) hp hq = ((hp.0, hq.0), All-both P Q t hp.1 hq.1)

All-both_parts :
    (P Q : ℕ → Type 0) (ts : List Text)
    → All (All P) ts
    → All (All Q) ts
    → All (All (λ c. P c × Q c)) ts
All-both_parts P Q [] hp hq = tt
All-both_parts P Q (t ∷ ts) hp hq = (All-both P Q t hp.0 hq.0, All-both_parts P Q ts hp.1 hq.1)

to_plain : (t : Text) → All (λ c. (c ≢ comma) × IsPart c) t → All IsPlain t
to_plain [] h = tt
to_plain (c ∷ t) h = ((h.0.0, h.0.1.0, h.0.1.1), to_plain t h.1)

to_plain_parts :
    (ts : List Text) → All (All (λ c. (c ≢ comma) × IsPart c)) ts → All (All IsPlain) ts
to_plain_parts [] h = tt
to_plain_parts (t ∷ ts) h = (to_plain t h.0, to_plain_parts ts h.1)

parts-IsPlain : (part : Text) → All IsPart part → All (All IsPlain) (split comma part)
parts-IsPlain part h =
    to_plain_parts (split comma part) (
      All-both_parts _ _ (split comma part) (split-Lacks comma part)
        (All-split IsPart comma part h))

unpack-IsClean :
    (ts : List Text) (g : Game) → All (All IsPlain) ts → unpack ts ≡ some g → IsClean (g.name, g)
unfolding unpack
unpack-IsClean (a ∷ b ∷ c ∷ d ∷ e ∷ []) g h u = ground arith
unpack-IsClean ts g h u = cc

pub put-ne-nil : (games : Games) (k : Text) (g : Game) → put games k g ≢ []
unfolding put
put-ne-nil [] k g = cc
put-ne-nil (e ∷ games) k g = ground arith

-- What is known of the games that are read so far.
record IsRead (games : Games) : Type 0 where
  clean : All IsClean games
  distinct : IsDistinct games

renamed-IsClean :
    (k : Text) (g : Game) → IsClean (g.name, g) → text_eq k g.name ≡ true → IsClean (k, g)
renamed-IsClean k g h e = rw ((text_eq_iff k g.name).0 e) h

put-IsRead :
    (games : Games) (g : Game) → IsClean (g.name, g) → IsRead games → IsRead (put games g.name g)
put-IsRead games g c h = record {
  clean = All-put IsClean games g.name g (λ j e. renamed-IsClean j g c e) c h.clean;
  distinct = put-IsDistinct games g.name g h.distinct;
}

read_games-IsRead :
    (parts : List Text) (games end : Games)
    → All (All IsPart) parts
    → IsRead games
    → read_games parts games ≡ ok end
    → IsRead end
unfolding read_games
read_games-IsRead [] games end hp h e = let p : games ≡ end = ground arith in rw (← p) h
read_games-IsRead (part ∷ parts) games end hp h e =
    elim (Option-cases (unpack (split comma part))) [
      | inl u ↦ absurd (ground arith)
      | inr (g, u) ↦
          read_games-IsRead parts (put games g.name g) end hp.1
            (put-IsRead games g (unpack-IsClean (split comma part) g (parts-IsPlain part hp.0) u) h)
            (ground arith)
    ]

read_games-ne-nil :
    (parts : List Text) (games end : Games)
    → games ≢ []
    → read_games parts games ≡ ok end
    → end ≢ []
unfolding read_games
read_games-ne-nil [] games end ne e = ground arith
read_games-ne-nil (part ∷ parts) games end ne e = elim (Option-cases (unpack (split comma part))) [
  | inl u ↦ absurd (ground arith)
  | inr (g, u) ↦
      read_games-ne-nil parts (put games g.name g) end (put-ne-nil games g.name g) (ground arith)
]

first-ne-nil :
    (parts : List Text) (end : Games) → parts ≢ [] → read_games parts [] ≡ ok end → end ≢ []
unfolding read_games
first-ne-nil [] end ne e = absurd (ne refl)
first-ne-nil (part ∷ parts) end ne e = elim (Option-cases (unpack (split comma part))) [
  | inl u ↦ absurd (ground arith)
  | inr (g, u) ↦
      read_games-ne-nil parts (put [] g.name g) end (put-ne-nil [] g.name g) (ground arith)
]

bar_parts-IsPart : (t : Text) → All IsScalar t → All (All IsPart) (split bar t)
bar_parts-IsPart t h =
    All-both_parts _ _ (split bar t) (split-Lacks bar t) (All-split IsScalar bar t h)

-- Whatever data `_deserialize` accepts, the games are there, clean and under distinct names.
pub deserialize-IsClean :
    (b : Bytes) (games : Games)
    → deserialize b ≡ ok games
    → (games ≢ []) × All IsClean games × IsDistinct games
unfolding deserialize
deserialize-IsClean b games e = elim (Option-cases (decode b)) [
  | inl u ↦ absurd (ground arith)
  | inr (t, u) ↦
      let e' : read_games (split bar t) [] ≡ ok games = ground arith in
      let r =
        read_games-IsRead (split bar t) [] games (bar_parts-IsPart t (decode-IsScalar b t u))
          (record { clean = tt; distinct = tt }) e' in
      (first-ne-nil (split bar t) games (split-ne-nil bar t) e', r.clean, r.distinct)
]
