-- ===== src/Xo/Payload/Checks.antt =====
-- What a payload that was accepted satisfies, and how one is refused.
use sci_ledger_sawtooth.Prelude.{
  ◌≤◌, ◌≡◌, ◌≢◌, ◌⊎◌, inl, inr, true, false, ◌&&◌, Option, none, some, List, [], ◌∷◌, arith, leb,
  Bool-cases, Option-cases, All,
}
use sci_ledger_sawtooth.Text.{
  Text, Bytes, text_eq, text_eq_iff, contains, contains-Lacks, truthy, Lacks,
}
use sci_ledger_sawtooth.Text.Parts.{split, split-Lacks, All-split}
use sci_ledger_sawtooth.Text.Utf8.{decode}
use sci_ledger_sawtooth.Text.Utf8.Scalar.{IsScalar, decode-IsScalar}
use sci_ledger_sawtooth.Errors.{Result, ok, err, invalid_transaction, ◌>>=◌}
use sci_ledger_sawtooth.Xo.Game.{comma, bar}
use sci_ledger_sawtooth.Xo.Game.RoundTrip.{IsPlain}
use sci_ledger_sawtooth.Xo.Payload.{
  CharTable, ℤ, pos, negsuc, Space, raw, number, XoPayload, act_create, act_take, act_delete,
  unpack_payload, known_action, space_of, int_of, check_payload, from_bytes,
}

-- The space of a `take` is a number from 1 to 9, that of any other action is a text.
abbrev pub SpaceFits : Text → Space → Type 0
SpaceFits action (number n) = (action ≡ act_take) × (1 ≤ n) × (n ≤ 9)
SpaceFits action (raw t) = (action ≡ act_create) ⊎ (action ≡ act_delete)

-- A payload that was accepted: the name is there and can be stored, and the action is known.
pub record IsPayload (p : XoPayload) : Type 0 where
  pub named : truthy p.name ≡ true
  pub storable : All IsPlain p.name
  pub fits : SpaceFits p.action p.space

abbrev pub Read : Result XoPayload → Type 0
Read (ok p) = IsPayload p
Read (err (invalid_transaction m none)) = Unit
Read (err _) = ⊥

space_of-Read :
    (name action : Text) (o : Option ℤ)
    → truthy name ≡ true
    → All IsPlain name
    → action ≡ act_take
    → Read (space_of o >>= λ n. ok (record { name = name; action = action; space = n }))
space_of-Read name action none t n a = tt
space_of-Read name action (some (negsuc k)) t n a = tt
space_of-Read name action (some (pos k)) t n a = elim (Bool-cases (leb 1 k && leb k 9)) [
  | inl e ↦
      rw e (record { named = t; storable = n; fits = (a, ground (arith, e), ground (arith, e)) })
  | inr e ↦ rw e tt
]

IsPlain-name :
    (name : Text) → All (λ c. (c ≢ comma) × IsScalar c) name → Lacks bar name → All IsPlain name
IsPlain-name [] h b = tt
IsPlain-name (c ∷ name) h b = ((h.0.0, b.0, h.0.1), IsPlain-name name h.1 b.1)

other_action :
    (action : Text)
    → known_action action ≡ true
    → text_eq action act_take ≡ false
    → (action ≡ act_create) ⊎ (action ≡ act_delete)
unfolding known_action
other_action action k t =
    ground (arith, text_eq_iff action act_create, text_eq_iff action act_delete)

check_payload-Read :
    (u : CharTable) (name action space : Text)
    → All (λ c. (c ≢ comma) × IsScalar c) name
    → Read (check_payload u (name, action, space))
unfolding check_payload
check_payload-Read u name action space h = elim (Bool-cases (truthy name)) [
  | inr e ↦ rw e tt
  | inl e ↦ elim (Bool-cases (contains bar name)) [
    | inl b ↦ rw (e, b) tt
    | inr b ↦ elim (Bool-cases (truthy action)) [
      | inr a ↦ rw (e, b, a) tt
      | inl a ↦ elim (Bool-cases (known_action action)) [
        | inr k ↦ rw (e, b, a, k) tt
        | inl k ↦ elim (Bool-cases (text_eq action act_take)) [
          | inl t ↦
              let q : check_payload u (name, action, space) ≡ (
                  space_of (int_of u space) >>= λ n.
                  ok (record { name = name; action = action; space = n })) =
                ground (arith, e, b, a, k, t) in
              rw q (
                space_of-Read name action (int_of u space) e
                  (IsPlain-name name h (contains-Lacks bar name b))
                  ((text_eq_iff action act_take).0 t))
          | inr t ↦
              let q : check_payload u (name, action, space)
                  ≡ ok (record { name = name; action = action; space = raw space }) =
                ground (arith, e, b, a, k, t) in
              rw q (record {
                named = e;
                storable = IsPlain-name name h (contains-Lacks bar name b);
                fits = other_action action k t;
              })
        ]
      ]
    ]
  ]
]

first_part :
    (ts : List Text) (a b c : Text)
    → All (All (λ c. (c ≢ comma) × IsScalar c)) ts
    → unpack_payload ts ≡ some (a, b, c)
    → All (λ c. (c ≢ comma) × IsScalar c) a
unfolding unpack_payload
first_part (x ∷ y ∷ z ∷ []) a b c h e = ground arith
first_part ts a b c h e = cc

both : (t : Text) → Lacks comma t → All IsScalar t → All (λ c. (c ≢ comma) × IsScalar c) t
both [] l s = tt
both (c ∷ t) l s = ((l.0, s.0), both t l.1 s.1)

both_parts :
    (ts : List Text)
    → All (Lacks comma) ts
    → All (All IsScalar) ts
    → All (All (λ c. (c ≢ comma) × IsScalar c)) ts
both_parts [] l s = tt
both_parts (t ∷ ts) l s = (both t l.0 s.0, both_parts ts l.1 s.1)

-- Whatever the bytes, the payload is accepted with a name that can be stored, a known action and, for a
-- `take`, a space from 1 to 9; or it is refused with InvalidTransaction, and nothing else is raised.
pub from_bytes-Read : (u : CharTable) (b : Bytes) → Read (from_bytes u b)
unfolding from_bytes
from_bytes-Read u b = elim (Option-cases (decode b)) [
  | inl e ↦ rw (e, from_bytes) tt
  | inr (t, e) ↦ elim (Option-cases (unpack_payload (split comma t))) [
    | inl f ↦ rw (e, from_bytes, f) tt
    | inr ((name, action, space), f) ↦
        rw (e, from_bytes, f)
          (check_payload-Read u name action space (
            first_part (split comma t) name action space
              (both_parts (split comma t) (split-Lacks comma t)
                (All-split IsScalar comma t (decode-IsScalar b t e)))
              f))
  ]
]
