-- ===== src/Action.antt =====
-- Calls that change a state and may raise. The state comes back beside an exception, since what was
-- written before a raise stays written.
use sci_ledger_sawtooth.Prelude.{Bool, true, false, Option, none, some}
use sci_ledger_sawtooth.Errors.{Exn, Result, ok, err}

abbrev pub Action : Type 0 → Type 0 → Type 0
Action S A = S → Result A × S

module _ {S A : Type 0} where
  abbrev pub pure : A → Action S A
  pure a s = (ok a, s)

  abbrev pub raise : Exn → Action S A
  raise e s = (err e, s)

  abbrev pub lift : Result A → Action S A
  lift r s = (r, s)

  abbrev pub gets : (S → A) → Action S A
  gets f s = (ok (f s), s)

  abbrev pub or_raise : Option A → Exn → Action S A
  or_raise none e s = (err e, s)
  or_raise (some a) e s = (ok a, s)

  abbrev handled : Result A → (Exn → Action S A) → Action S A
  handled (ok a) h s = (ok a, s)
  handled (err e) h s = h e s

  -- `try: m except ...`; what the handler does not name it raises again
  abbrev pub try : Action S A → (Exn → Action S A) → Action S A
  try m h s = let (r, s') = m s in handled r h s'

module _ {S : Type 0} where
  abbrev pub raise_if : Bool → Exn → Action S (Unit {0})
  raise_if true e s = (err e, s)
  raise_if false e s = (ok tt, s)

  abbrev pub modify : (S → S) → Action S (Unit {0})
  modify f s = (ok tt, f s)

module _ {S A B : Type 0} where
  abbrev pub continue : Result A → (A → Action S B) → Action S B
  continue (ok a) f s = f a s
  continue (err e) f s = (err e, s)

  infixl 5 ◌>>=◌ ◌>>◌
  abbrev pub ◌>>=◌ : Action S A → (A → Action S B) → Action S B
  ◌>>=◌ m f s = let (r, s') = m s in continue r f s'

  abbrev pub ◌>>◌ : Action S A → Action S B → Action S B
  m >> k = m >>= λ _. k
