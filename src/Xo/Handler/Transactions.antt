-- ===== src/Xo/Handler/Transactions.antt =====
-- `apply` implements a transition on a map from names to games: the validator's state, the addresses,
-- the cache and the encoding do not show.
use sci_ledger_sawtooth.Prelude.{
  ◌≡◌, refl, ◌∙◌, sym, ap, inl, inr, Option, none, some, ◌++◌, arith, Option-cases, All,
  if◌then◌else◌,
}
use sci_ledger_sawtooth.Text.{Text, Bytes, text_eq, prefix}
use sci_ledger_sawtooth.Text.Utf8.Scalar.{encode_total}
use sci_ledger_sawtooth.Errors.{Result, ok, err, plain, format, text, invalid}
use sci_ledger_sawtooth.Processor.Access.{Access, IsStore}
use sci_ledger_sawtooth.Xo.Game.{Game}
use sci_ledger_sawtooth.Xo.Game.RoundTrip.{IsPlain, IsPlain-IsScalar}
use sci_ledger_sawtooth.Xo.Payload.{XoPayload, Space, act_create, act_take, act_delete}
use sci_ledger_sawtooth.Xo.Rules.{take, new_game}
use sci_ledger_sawtooth.Xo.Rules.Storing.{take-IsClean, new_game-IsClean, Result-cases}
use sci_ledger_sawtooth.Xo.State.{Sha512, Cache, make_xo_address, xo_namespace}
use sci_ledger_sawtooth.Xo.State.Loading.{IsCoherent}
use sci_ledger_sawtooth.Xo.State.Refinement.{
  Represents, bind, get_game_found, found-IsClean, set_game_binds, delete_game_unbinds,
}
use sci_ledger_sawtooth.Xo.Handler.{apply_delete, apply_create, apply_take}

abbrev pub Ledger : Type 0
Ledger = Text → Option Game

-- The transition: what an accepted payload does to the games, and how it ends.
abbrev pub deletes : Ledger → Text → Result (Unit {0}) × Ledger
deletes games name = elim (games name) [
  | none ↦ (err (invalid (plain "Invalid action: game does not exist")), games)
  | some g ↦ (ok tt, bind games name none)
]

abbrev pub creates : Ledger → Text → Result (Unit {0}) × Ledger
creates games name = elim (games name) [
  | some g ↦ (err (invalid (format "Invalid action: Game already exists: {}" (text name))), games)
  | none ↦ (ok tt, bind games name (some (new_game name)))
]

-- What a take's result makes of the games.
abbrev pub settles : Ledger → Text → Result Game → Result (Unit {0}) × Ledger
settles games name (err e) = (err e, games)
settles games name (ok g) = (ok tt, bind games name (some g))

abbrev pub takes : Ledger → Text → Text → Space → Result (Unit {0}) × Ledger
takes games signer name space = settles games name (take signer space (games name))

unfoldable pub transition : Ledger → Text → XoPayload → Result (Unit {0}) × Ledger
transition games signer p =
    if text_eq p.action act_delete
    then deletes games p.name
    else if text_eq p.action act_create
    then creates games p.name
    else if text_eq p.action act_take
    then takes games signer p.name p.space
    else (err (invalid (format "Unhandled action: {}" (text p.action))), games)

took_nothing : (signer : Text) (sp : Space) (g : Game) → ¬ (take signer sp none ≡ ok g)
unfolding take
took_nothing signer sp g e = cc

pub address_of :
    (sha512 : Sha512) (name : Text)
    → All IsPlain name
    → (a : Text) × (make_xo_address sha512 name ≡ ok a)
unfolding make_xo_address
address_of sha512 name h =
    let (b, e) = encode_total name (IsPlain-IsScalar name h) in
    (xo_namespace sha512 ++ prefix 64 (sha512 b), ground (arith, e))

module _ {S : Type 0} (access : Access S) (sha512 : Sha512) (read : S → Text → Bytes)
    (store : IsStore access read) where
  -- A call in the handler has ended as the transition did, and the state holds the new map.
  abbrev pub EndsAs : Result (Unit {0}) × Ledger → Result (Unit {0}) × (Cache × S) → Type 0
  EndsAs (r, games) (r', (c', s')) = (r' ≡ r) × Represents sha512 read games s'

  ends_as :
      (t : Result (Unit {0}) × Ledger) (act : Result (Unit {0}) × (Cache × S))
      (end : Result (Unit {0})) (games : Ledger) (c : Cache) (s : S)
      → t ≡ (end, games)
      → act ≡ (end, (c, s))
      → Represents sha512 read games s
      → EndsAs t act
  ends_as t act end games c s p q r = rw (p, q) (refl, r)

  module _ (games : Ledger) (name a : Text) (c : Cache) (s : S) (storable : All IsPlain name)
      (e : make_xo_address sha512 name ≡ ok a) (h : IsCoherent read (c, s))
      (r : Represents sha512 read games s) where
    pub deletes_lem : EndsAs (deletes games name) (apply_delete access sha512 name (c, s))
    unfolding apply_delete
    deletes_lem =
        let (c1, g, h1) = get_game_found access sha512 read store games name a c s e h r in
        elim (Option-cases (games name)) [
          | inl missing ↦
              ends_as (deletes games name) (apply_delete access sha512 name (c, s))
                (err (invalid (plain "Invalid action: game does not exist"))) games c1 s
                (ground (arith, missing)) (ground (arith, g, missing)) r
          | inr (old, there) ↦
              let (c2, s2, d, h2, r2) =
                delete_game_unbinds access sha512 read store games name a c1 s e h1 r old there in
              ends_as (deletes games name) (apply_delete access sha512 name (c, s)) (ok tt)
                (bind games name none) c2 s2 (ground (arith, there)) (ground (arith, g, there, d))
                r2
        ]

    pub creates_lem : EndsAs (creates games name) (apply_create access sha512 name (c, s))
    unfolding apply_create
    creates_lem =
        let (c1, g, h1) = get_game_found access sha512 read store games name a c s e h r in
        elim (Option-cases (games name)) [
          | inr (old, there) ↦
              ends_as (creates games name) (apply_create access sha512 name (c, s))
                (err (invalid (format "Invalid action: Game already exists: {}" (text name)))) games
                c1 s (ground (arith, there)) (ground (arith, g, there)) r
          | inl missing ↦
              let (c2, s2, d, h2, r2) =
                set_game_binds access sha512 read store games name a c1 s e h1 r (new_game name)
                  (new_game-IsClean name storable) in
              ends_as (creates games name) (apply_create access sha512 name (c, s)) (ok tt)
                (bind games name (some (new_game name))) c2 s2 (ground (arith, missing))
                (ground (arith, g, missing, d)) r2
        ]

    pub takes_lem :
        (signer : Text) (sp : Space)
        → All IsPlain signer
        → EndsAs (takes games signer name sp) (apply_take access sha512 signer name sp (c, s))
    unfolding apply_take
    takes_lem signer sp ps =
        let (c1, g, h1) = get_game_found access sha512 read store games name a c s e h r in
        elim (Result-cases (take signer sp (games name))) [
          | inr (x, t) ↦
              ends_as (takes games signer name sp) (apply_take access sha512 signer name sp (c, s))
                (err x) games c1 s (ground (arith, t)) (ground (arith, g, t)) r
          | inl (new, t) ↦ elim (Option-cases (games name)) [
            | inl missing ↦
                absurd (took_nothing signer sp new (ap (take signer sp) (sym missing) ∙ t))
            | inr (old, there) ↦
                let clean =
                  take-IsClean name signer sp old new ps
                    (found-IsClean access sha512 read store games name a c s e h r old there)
                    (ap (take signer sp) (sym there) ∙ t) in
                let (c2, s2, d, h2, r2) =
                  set_game_binds access sha512 read store games name a c1 s e h1 r new clean in
                ends_as (takes games signer name sp)
                  (apply_take access sha512 signer name sp (c, s)) (ok tt)
                  (bind games name (some new)) c2 s2 (ground (arith, t)) (ground (arith, g, t, d))
                  r2
          ]
        ]
