-- ===== src/Xo/Payload.antt =====
-- examples/xo_python/sawtooth_xo/processor/xo_payload.py. `int(text)` reads Unicode digits and
-- strips Unicode white space: the two tables of the character database are a parameter.
pub mod Checks
use sci_ledger_sawtooth.Prelude.{
  ℕ, zero, suc, ◌+◌, ◌*◌, ◌-◌, Bool, true, false, not, ◌&&◌, ◌||◌, Option, none, some, List, [],
  ◌∷◌, ◌++◌, leb, ◌==◌, if◌then◌else◌,
}
use sci_ledger_sawtooth.Text.{Text, Bytes, codes, text_eq, contains, truthy}
use sci_ledger_sawtooth.Text.Parts.{split}
use sci_ledger_sawtooth.Text.Utf8.{decode}
use sci_ledger_sawtooth.Errors.{Result, ok, err, plain, format, text, invalid, ◌>>=◌}
use sci_ledger_sawtooth.Xo.Game.{comma, bar}

pub record CharTable : Type 0 where
  pub decimal : ℕ → Option ℕ
  pub is_space : ℕ → Bool

-- `negsuc n` is -(n + 1).
pub data ℤ : Type 0 where
  pos : ℕ → ℤ
  negsuc : ℕ → ℤ

-- `space` is a text until a `take` has turned it into a number.
pub data Space : Type 0 where
  raw : Text → Space
  number : ℕ → Space

pub record XoPayload : Type 0 where
  pub name : Text
  pub action : Text
  pub space : Space

abbrev pub negate : ℕ → ℤ
negate zero = pos zero
negate (suc n) = negsuc n

module _ (u : CharTable) where
  unfoldable pub drop_space : Text → Text
  drop_space [] = []
  drop_space (c ∷ s) = let rest = drop_space s in if u.is_space c then rest else c ∷ s

  -- white space at the end ends the number; nothing else may follow it
  unfoldable pub all_space : Text → Bool
  all_space [] = true
  all_space (c ∷ s) = u.is_space c && all_space s

  -- digits, with single underscores between them; `after` tells that a digit was just read
  unfoldable pub read_digits : Text → Bool → ℕ → Option ℕ
  unfolding all_space
  read_digits [] after acc = if after then some acc else none
  read_digits (c ∷ s) after acc = elim (u.decimal c) [
    | some d ↦ read_digits s true (acc * 10 + d)
    | none ↦
        let rest = read_digits s false acc in
        if c == b'_' && after
        then rest
        else if after && (u.is_space c && all_space s)
        then some acc
        else none
  ]

  -- `int(text)`; `none` is ValueError
  unfoldable pub int_of : Text → Option ℤ
  unfolding drop_space read_digits
  int_of s = elim (drop_space s) [
    | [] ↦ none
    | c ∷ r ↦
        if c == b'-'
        then elim (read_digits r false 0) [ none ↦ none | some n ↦ some (negate n) ]
        else elim (read_digits (if c == b'+' then r else c ∷ r) false 0) [
          | none ↦ none
          | some n ↦ some (pos n)
        ]
  ]

abbrev pub act_create : Text
act_create = codes "create"

abbrev pub act_take : Text
act_take = codes "take"

abbrev pub act_delete : Text
act_delete = codes "delete"

-- `name, action, space = ...`: three parts, or ValueError
unfoldable pub unpack_payload : List Text → Option (Text × Text × Text)
unpack_payload (name ∷ action ∷ space ∷ []) = some (name, action, space)
unpack_payload _ = none

unfoldable pub known_action : Text → Bool
known_action action =
    text_eq action act_create || (text_eq action act_take || text_eq action act_delete)

-- `number in range(1, 10)`
abbrev pub space_of : Option ℤ → Result Space
space_of none = err (invalid (plain "Space must be an integer from 1 to 9"))
space_of (some (negsuc n)) = err (invalid (plain "Space must be an integer from 1 to 9"))
space_of (some (pos n)) =
    if leb 1 n && leb n 9
    then ok (number n)
    else err (invalid (plain "Space must be an integer from 1 to 9"))

module _ (u : CharTable) where
  unfoldable pub check_payload : Text × Text × Text → Result XoPayload
  unfolding known_action
  check_payload (name, action, space) =
      if not (truthy name)
      then err (invalid (plain "Name is required"))
      else if contains bar name
      then err (invalid (plain "Name cannot contain \"|\""))
      else if not (truthy action)
      then err (invalid (plain "Action is required"))
      else if not (known_action action)
      then err (invalid (format "Invalid action: {}" (text action)))
      else if text_eq action act_take
      then (do
        n ← space_of (int_of u space)
        ok (record { name = name; action = action; space = n }))
      else ok (record { name = name; action = action; space = raw space })

  -- `XoPayload.from_bytes`
  unfoldable pub from_bytes : Bytes → Result XoPayload
  from_bytes payload = elim (decode payload) [
    | none ↦ err (invalid (plain "Invalid payload serialization"))
    | some t ↦ elim (unpack_payload (split comma t)) [
      | none ↦ err (invalid (plain "Invalid payload serialization"))
      | some fields ↦ check_payload fields
    ]
  ]
