-- ===== src/Xo/Client/Payloads.antt =====
-- What the processor's `XoPayload.from_bytes` reads of a payload that `XoClient` writes.
use sci_ledger_sawtooth.Prelude.{
  ℕ, suc, ◌-◌, ◌*◌, ◌+◌, ◌≡◌, ◌≢◌, refl, Bool, true, false, ◌&&◌, Option, none, some, List, [], ◌∷◌,
  arith, leb, ltb, ◌==◌, not, ◌⊎◌, All, if◌then◌else◌, inl, inr,
}
use sci_ledger_sawtooth.Text.{Text, Bytes, truthy, text_eq, contains, Lacks}
use sci_ledger_sawtooth.Text.Parts.{join, split-join, All-join}
use sci_ledger_sawtooth.Text.Utf8.{decode-encode}
use sci_ledger_sawtooth.Text.Utf8.Scalar.{IsScalar, encode_total}
use sci_ledger_sawtooth.Text.Numbers.{str, str_lem, IsDigit, value}
use sci_ledger_sawtooth.Errors.{Result, ok, err, plain, invalid}
use sci_ledger_sawtooth.Xo.Game.{comma, bar}
use sci_ledger_sawtooth.Xo.Game.RoundTrip.{IsPlain, IsPlain-IsScalar}
use sci_ledger_sawtooth.Xo.Payload.{
  CharTable, ℤ, pos, negsuc, raw, number, XoPayload, act_create, act_take, act_delete,
  unpack_payload, known_action, drop_space, read_digits, int_of, negate, check_payload, from_bytes,
}
use sci_ledger_sawtooth.Xo.Client.Batches.{str_of, space_text, payload_of}

-- What the character database says of ASCII: the ten digits, and that they and `-` are no white space.
pub record IsAscii (u : CharTable) : Type 0 where
  pub digit : (c : ℕ) → IsDigit c → u.decimal c ≡ some (c - 48)
  pub digit_not_space : (c : ℕ) → IsDigit c → u.is_space c ≡ false
  pub minus_not_space : u.is_space b'-' ≡ false

module _ (u : CharTable) (law : IsAscii u) where
  read_digits-IsDigit :
      (s : Text) (acc : ℕ) → All IsDigit s → read_digits u s true acc ≡ some (value acc s)
  unfolding read_digits value
  read_digits-IsDigit [] acc h = refl
  read_digits-IsDigit (c ∷ s) acc h =
      ground (arith, law.digit c h.0, read_digits-IsDigit s (acc * 10 + (c - 48)) h.1)

  read_digits_lem : (s : Text) → All IsDigit s → s ≢ [] → read_digits u s false 0 ≡ some (value 0 s)
  unfolding read_digits value
  read_digits_lem [] h ne = absurd (ne refl)
  read_digits_lem (c ∷ s) h ne = ground (arith, law.digit c h.0, read_digits-IsDigit s (c - 48) h.1)

  int_of-IsDigit : (s : Text) → All IsDigit s → s ≢ [] → int_of u s ≡ some (pos (value 0 s))
  unfolding int_of drop_space
  int_of-IsDigit [] h ne = absurd (ne refl)
  int_of-IsDigit (c ∷ s) h ne =
      ground (arith, law.digit_not_space c h.0, read_digits_lem (c ∷ s) h ne)

  int_of-minus :
      (s : Text) → All IsDigit s → s ≢ [] → int_of u (b'-' ∷ s) ≡ some (negate (value 0 s))
  unfolding int_of drop_space
  int_of-minus s h ne = ground (arith, law.minus_not_space, read_digits_lem s h ne)

  -- `int(str(n))` is n.
  pub int_of-str_of : (n : ℤ) → int_of u (str_of n) ≡ some n
  int_of-str_of (pos n) =
      let (d, v, ne) = str_lem n in ground (arith, int_of-IsDigit (str n) d ne, v)
  int_of-str_of (negsuc n) =
      let (d, v, ne) = str_lem (suc n) in ground (arith, int_of-minus (str (suc n)) d ne, v)

-- What `create`, `delete` and `take` of the client send.
pub data Order : Type 0 where
  creating : ℤ → Order
  deleting : Order
  taking : ℤ → Order

abbrev pub action_of : Order → Text
action_of (creating n) = act_create
action_of deleting = act_delete
action_of (taking n) = act_take

abbrev pub space_arg : Order → Option ℤ
space_arg (creating n) = some n
space_arg deleting = none
space_arg (taking n) = some n

-- What the processor makes of it.
abbrev pub understood : Text → Order → Result XoPayload
understood name (creating n) =
    ok (record { name = name; action = act_create; space = raw (str_of n) })
understood name deleting = ok (record { name = name; action = act_delete; space = raw [] })
understood name (taking (pos n)) =
    if leb 1 n && leb n 9
    then ok (record { name = name; action = act_take; space = number n })
    else err (invalid (plain "Space must be an integer from 1 to 9"))
understood name (taking (negsuc n)) = err (invalid (plain "Space must be an integer from 1 to 9"))

digit-IsPlain : (s : Text) → All IsDigit s → All IsPlain s
digit-IsPlain [] h = tt
digit-IsPlain (c ∷ s) h = ((omega arith, omega arith, inl (omega arith)), digit-IsPlain s h.1)

str_of-IsPlain : (n : ℤ) → All IsPlain (str_of n)
str_of-IsPlain (pos n) = digit-IsPlain (str n) (str_lem n).0
str_of-IsPlain (negsuc n) =
    ((omega arith, omega arith, inl (omega arith)), digit-IsPlain (str (suc n)) (str_lem (suc n)).0)

space-IsPlain : (o : Order) → All IsPlain (space_text (space_arg o))
space-IsPlain (creating n) = str_of-IsPlain n
space-IsPlain deleting = tt
space-IsPlain (taking n) = str_of-IsPlain n

all_plain : Text → Bool
all_plain [] = true
all_plain (c ∷ s) = (not (c == comma) && (not (c == bar) && ltb c 128)) && all_plain s

all_plain-IsPlain : (s : Text) → all_plain s ≡ true → All IsPlain s
unfolding all_plain
all_plain-IsPlain [] h = tt
all_plain-IsPlain (c ∷ s) h =
    ((ground arith, ground arith, inl (ground arith)), all_plain-IsPlain s (ground arith))

action-IsPlain : (o : Order) → All IsPlain (action_of o)
unfolding all_plain
action-IsPlain (creating n) = all_plain-IsPlain act_create refl
action-IsPlain deleting = all_plain-IsPlain act_delete refl
action-IsPlain (taking n) = all_plain-IsPlain act_take refl

plain-Lacks : (b : ℕ) (s : Text) → (b ≡ comma) ⊎ (b ≡ bar) → All IsPlain s → Lacks b s
plain-Lacks b [] e h = tt
plain-Lacks b (c ∷ s) e h = (ground (arith, h.0), plain-Lacks b s e h.1)

Lacks-contains : (b : ℕ) (s : Text) → Lacks b s → contains b s ≡ false
unfolding contains
Lacks-contains b [] h = refl
Lacks-contains b (c ∷ s) h = ground (arith, Lacks-contains b s h.1, h.0)

module _ (u : CharTable) (law : IsAscii u) where
  check_payload-understood :
      (name : Text) (o : Order)
      → truthy name ≡ true
      → contains bar name ≡ false
      → check_payload u (name, action_of o, space_text (space_arg o)) ≡ understood name o
  unfolding check_payload known_action text_eq
  check_payload-understood name (creating n) t b = ground (arith, t, b)
  check_payload-understood name deleting t b = ground (arith, t, b)
  check_payload-understood name (taking (pos n)) t b =
      ground (arith, t, b, int_of-str_of u law (pos n))
  check_payload-understood name (taking (negsuc n)) t b =
      ground (arith, t, b, int_of-str_of u law (negsuc n))

  -- For a name that is there and holds no comma, no bar and no surrogate, the client's payload can be
  -- encoded, and `from_bytes` reads from it the same name and action, with the number as text for a
  -- create, nothing for a delete, and for a take the number itself if it is from 1 to 9; any other
  -- number it refuses.
  pub from_bytes-payload_of :
      (name : Text) (o : Order)
      → truthy name ≡ true
      → All IsPlain name
      → (payload : Bytes) × (payload_of name (action_of o) (space_arg o) ≡ ok payload)
        × (from_bytes u payload ≡ understood name o)
  unfolding payload_of from_bytes unpack_payload
  from_bytes-payload_of name o t h =
      let fields : List Text = name ∷ action_of o ∷ space_text (space_arg o) ∷ [] in
      let (payload, e) = encode_total (join comma fields) (
        All-join IsScalar comma (inl (omega arith)) fields (
          IsPlain-IsScalar name h,
          (
            IsPlain-IsScalar (action_of o) (action-IsPlain o),
            (IsPlain-IsScalar (space_text (space_arg o)) (space-IsPlain o), tt),
          ),
        )) in
      (
        payload,
        ground (arith, e),
        ground (
          arith,
          decode-encode (join comma fields) payload e,
          split-join comma fields (cc) (
            plain-Lacks comma name (inl refl) h,
            (
              plain-Lacks comma (action_of o) (inl refl) (action-IsPlain o),
              (plain-Lacks comma (space_text (space_arg o)) (inl refl) (space-IsPlain o), tt),
            ),
          ),
          check_payload-understood name o t
              (Lacks-contains bar name (plain-Lacks bar name (inr refl) h)),
        ),
      )
