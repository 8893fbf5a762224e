-- ===== src/Xo/Handler/Rules.antt =====
-- The transition keeps games that were played by the rules, and so does `apply`.
use sci_ledger_sawtooth.Prelude.{
  ℕ, ◌≤◌, ◌≡◌, refl, ap, inl, inr, true, Option, none, some, arith, Bool-cases, Option-cases, All,
}
use sci_ledger_sawtooth.Text.{Text, Bytes, text_eq, text_eq_iff, truthy}
use sci_ledger_sawtooth.Errors.{
  Exn, Result, ok, err, plain, format, text, invalid, invalid_transaction,
}
use sci_ledger_sawtooth.Processor.Access.{Access, IsStore}
use sci_ledger_sawtooth.Xo.Game.{Game}
use sci_ledger_sawtooth.Xo.Game.RoundTrip.{IsPlain}
use sci_ledger_sawtooth.Xo.Payload.{
  CharTable, XoPayload, Space, raw, number, act_create, act_take, act_delete, from_bytes,
}
use sci_ledger_sawtooth.Xo.Payload.Checks.{IsPayload, SpaceFits, Read, from_bytes-Read}
use sci_ledger_sawtooth.Xo.Rules.{take, new_game}
use sci_ledger_sawtooth.Xo.Rules.Moves.{IsGame, new_game-IsGame}
use sci_ledger_sawtooth.Xo.Rules.Turns.{Took, take_lem}
use sci_ledger_sawtooth.Xo.Rules.Storing.{Result-cases}
use sci_ledger_sawtooth.Xo.State.{Sha512}
use sci_ledger_sawtooth.Xo.State.Refinement.{Represents, bind}
use sci_ledger_sawtooth.Xo.Handler.{Transaction, apply}
use sci_ledger_sawtooth.Xo.Handler.Refinement.{apply-transition, from_bytes-IsPayload}
use sci_ledger_sawtooth.Xo.Handler.Transactions.{
  Ledger, settles, transition, deletes, creates, takes,
}

-- A ledger whose games were all played by the rules.
abbrev pub IsLedger : Ledger → Type 0
IsLedger games = (name : Text) (g : Game) → games name ≡ some g → IsGame g

-- How a transaction may end: with such a ledger, or refused with InvalidTransaction and the games as
-- they were.
abbrev pub IsVerdict : Ledger → Result (Unit {0}) × Ledger → Type 0
IsVerdict games (ok tt, games') = IsLedger games'
IsVerdict games (err (invalid_transaction m none), games') = games' ≡ games
IsVerdict games (err _, games') = ⊥

bind-IsLedger :
    (games : Ledger) (name : Text) (o : Option Game)
    → IsLedger games
    → ((g : Game) → o ≡ some g → IsGame g)
    → IsLedger (bind games name o)
bind-IsLedger games name o l h k g e = elim (Bool-cases (text_eq name k)) [
  | inl q ↦ h g (rw q at e)
  | inr q ↦ l k g (rw q at e)
]

eq-IsVerdict :
    (games : Ledger) (t t' : Result (Unit {0}) × Ledger)
    → t ≡ t'
    → IsVerdict games t'
    → IsVerdict games t
eq-IsVerdict games t t' e h = rw e h

deletes-IsVerdict :
    (games : Ledger) (name : Text) → IsLedger games → IsVerdict games (deletes games name)
deletes-IsVerdict games name l = elim (Option-cases (games name)) [
  | inl e ↦
      eq-IsVerdict games (deletes games name)
        (err (invalid (plain "Invalid action: game does not exist")), games) (ground (arith, e))
        refl
  | inr (g, e) ↦
      eq-IsVerdict games (deletes games name) (ok tt, bind games name none) (ground (arith, e))
        (bind-IsLedger games name none l (λ g q. cc))
]

creates-IsVerdict :
    (games : Ledger) (name : Text) → IsLedger games → IsVerdict games (creates games name)
creates-IsVerdict games name l = elim (Option-cases (games name)) [
  | inr (g, e) ↦
      eq-IsVerdict games (creates games name)
        (err (invalid (format "Invalid action: Game already exists: {}" (text name))), games)
        (ground (arith, e)) refl
  | inl e ↦
      eq-IsVerdict games (creates games name) (ok tt, bind games name (some (new_game name)))
        (ground (arith, e))
        (bind-IsLedger games name (some (new_game name)) l
          (λ g q. let p : new_game name ≡ g = cc in rw (← p) (new_game-IsGame name)))
]

settles-IsVerdict :
    (games : Ledger) (name signer : Text) (n : ℕ) (g : Game) (r : Result Game)
    → IsLedger games
    → Took signer n g r
    → IsVerdict games (settles games name r)
settles-IsVerdict games name signer n g (ok g') l t =
    bind-IsLedger games name (some g') l (λ k q. let p : g' ≡ k = cc in rw (← p) t.0)
settles-IsVerdict games name signer n g (err (invalid_transaction m none)) l t = refl
settles-IsVerdict games name signer n g (err e) l t = t

takes-IsVerdict :
    (games : Ledger) (signer name : Text) (n : ℕ)
    → truthy signer ≡ true
    → IsLedger games
    → 1 ≤ n
    → n ≤ 9
    → IsVerdict games (takes games signer name (number n))
unfolding take
takes-IsVerdict games signer name n st l lo hi = elim (Option-cases (games name)) [
  | inl e ↦
      eq-IsVerdict games (takes games signer name (number n))
        (err (invalid (plain "Invalid action: Take requires an existing game")), games)
        (ground (arith, e)) refl
  | inr (g, e) ↦
      eq-IsVerdict games (takes games signer name (number n))
        (settles games name (take signer (number n) (some g)))
        (ap (λ o. settles games name (take signer (number n) o)) e)
        (settles-IsVerdict games name signer n g (take signer (number n) (some g)) l
          (take_lem signer n g st (l name g e) lo hi))
]

-- The space of an accepted take is a number.
fitting_take :
    (games : Ledger) (signer name action : Text) (sp : Space)
    → truthy signer ≡ true
    → SpaceFits action sp
    → action ≡ act_take
    → IsLedger games
    → IsVerdict games (takes games signer name sp)
unfolding text_eq
fitting_take games signer name action (number n) st f t l =
    takes-IsVerdict games signer name n st l f.1 f.2
fitting_take games signer name action (raw x) st (inl f) t l = absurd cc
fitting_take games signer name action (raw x) st (inr f) t l = absurd cc

transition-IsVerdict :
    (games : Ledger) (signer : Text) (p : XoPayload)
    → truthy signer ≡ true
    → IsPayload p
    → IsLedger games
    → IsVerdict games (transition games signer p)
unfolding transition
transition-IsVerdict games signer p st h l = elim (Bool-cases (text_eq p.action act_delete)) [
  | inl d ↦
      eq-IsVerdict games (transition games signer p) (deletes games p.name) (rw d refl)
        (deletes-IsVerdict games p.name l)
  | inr d ↦ elim (Bool-cases (text_eq p.action act_create)) [
    | inl c ↦
        eq-IsVerdict games (transition games signer p) (creates games p.name) (rw (d, c) refl)
          (creates-IsVerdict games p.name l)
    | inr c ↦ elim (Bool-cases (text_eq p.action act_take)) [
      | inr t ↦
          eq-IsVerdict games (transition games signer p)
            (err (invalid (format "Unhandled action: {}" (text p.action))), games)
            (rw (d, c, t) refl) refl
      | inl t ↦
          eq-IsVerdict games (transition games signer p) (takes games signer p.name p.space)
            (rw (d, c, t) refl)
            (fitting_take games signer p.name p.action p.space st h.fits
              ((text_eq_iff p.action act_take).0 t) l)
    ]
  ]
]

refused-IsVerdict : (games : Ledger) (x : Exn) → Read (err x) → IsVerdict games (err x, games)
refused-IsVerdict games (invalid_transaction m none) h = refl
refused-IsVerdict games x h = h

module _ {S : Type 0} (access : Access S) (sha512 : Sha512) (read : S → Text → Bytes)
    (store : IsStore access read) where
  -- On a store whose state represents games that were played by the rules, a transaction of a signer
  -- with a key without separators, whatever its payload, leaves a state that again represents such games; or it is refused with
  -- InvalidTransaction and the state represents the games that it did. Nothing else is raised.
  pub apply-IsVerdict :
      (u : CharTable) (t : Transaction) (games : Ledger) (s : S)
      → truthy t.signer_public_key ≡ true
      → All IsPlain t.signer_public_key
      → Represents sha512 read games s
      → IsLedger games
      → (games' : Ledger) × IsVerdict games ((apply access sha512 u t s).0, games')
        × Represents sha512 read games' (apply access sha512 u t s).1
  unfolding apply
  apply-IsVerdict u t games s st ps r l = elim (Result-cases (from_bytes u t.payload)) [
    | inr (x, e) ↦
        let q : apply access sha512 u t s ≡ (err x, s) = rw (e, apply) refl in
        let v = refused-IsVerdict games x (rw e at (from_bytes-Read u t.payload)) in
        (games, rw q v, rw q r)
    | inl (p, e) ↦
        let (ends, r') = apply-transition access sha512 read store u t p games s e ps r in
        let v =
          transition-IsVerdict games t.signer_public_key p st (from_bytes-IsPayload u t.payload p e)
            l in
        ((transition games t.signer_public_key p).1, rw ends v, r')
  ]
