-- ===== src/Text/Utf8/Scalar.antt =====
-- Which texts `encode` accepts, and that `decode` gives only such texts.
use sci_ledger_sawtooth.Prelude.{
  ℕ, zero, suc, ◌+◌, ◌-◌, ◌*◌, ◌≤◌, ◌<◌, ◌≡◌, ◌≢◌, refl, ◌⊎◌, [], ◌∷◌, ◌++◌, none, some, Option,
  arith, All, All-append, Option-cases, inl, inr,
}
use sci_ledger_sawtooth.Text.{Text, Bytes}
use sci_ledger_sawtooth.Text.Utf8.{
  encode_char, encode, Pending, ready, need, feed, begin, emit, decode_from, decode,
}

-- A code point that is no surrogate.
abbrev pub IsScalar : ℕ → Type 0
IsScalar c = (c < 55296) ⊎ ((57343 < c) × (c < 1114112))

-- What is true of the bytes read so far: every next byte that is accepted leads to a scalar.
abbrev Last : ℕ → Type 0
Last acc = (acc * 64 + 63 < 55296) ⊎ ((57343 < acc * 64) × (acc * 64 + 63 < 1114112))

abbrev IsFair : Pending → Type 0
IsFair ready = Unit
IsFair (need zero lo hi acc) = ⊥
IsFair (need (suc zero) lo hi acc) = (128 ≤ lo) × (hi ≤ 191) × Last acc
IsFair (need (suc (suc zero)) lo hi acc) =
    (128 ≤ lo)
    × (((acc * 64 + (hi - 128)) * 64 + 63 < 55296)
        ⊎ ((57343 < (acc * 64 + (lo - 128)) * 64) × ((acc * 64 + (hi - 128)) * 64 + 63 < 1114112)))
IsFair (need (suc (suc (suc zero))) lo hi acc) =
    (128 ≤ lo)
    × (57343 < (acc * 64 + (lo - 128)) * 4096)
    × ((acc * 64 + (hi - 128)) * 4096 + 4095 < 1114112)
IsFair (need (suc (suc (suc (suc n)))) lo hi acc) = ⊥

abbrev IsFed : Option (Pending × Text) → Type 0
IsFed none = Unit
IsFed (some (p, out)) = IsFair p × All IsScalar out

encode_char-some : (c : ℕ) → IsScalar c → encode_char c ≢ none
unfolding encode_char
encode_char-some c h = ground arith

-- A text of scalars is encoded.
pub encode_total : (s : Text) → All IsScalar s → (b : Bytes) × (encode s ≡ some b)
unfolding encode
encode_total [] h = ([], refl)
encode_total (c ∷ s) h = elim (Option-cases (encode_char c)) [
  | inl e ↦ absurd (encode_char-some c h.0 e)
  | inr (bc, e) ↦ let (r, f) = encode_total s h.1 in (bc ++ r, ground arith)
]

begin-IsFed : (b : ℕ) → IsFed (begin b)
begin-IsFed b = ground arith

feed-IsFed : (p : Pending) (b : ℕ) → IsFair p → IsFed (feed p b)
feed-IsFed ready b h = begin-IsFed b
feed-IsFed (need zero lo hi acc) b h = absurd h
feed-IsFed (need (suc zero) lo hi acc) b h = ground arith
feed-IsFed (need (suc (suc zero)) lo hi acc) b h = ground arith
feed-IsFed (need (suc (suc (suc zero))) lo hi acc) b h = ground arith
feed-IsFed (need (suc (suc (suc (suc n)))) lo hi acc) b h = absurd h

emit-some :
    (out : Text) (r : Option Text) (s : Text)
    → emit out r ≡ some s
    → (t : Text) × (r ≡ some t) × (s ≡ out ++ t)
emit-some out none s h = cc
emit-some out (some t) s h = (t, refl, ground arith)

fed-IsScalar :
    (b : Bytes)
    → ((p : Pending) (t : Text) → IsFair p → decode_from p b ≡ some t → All IsScalar t)
    → (o : Option (Pending × Text)) (s : Text) → IsFed o
    → elim o [ none ↦ none | some (p, out) ↦ emit out (decode_from p b) ] ≡ some s
    → All IsScalar s
fed-IsScalar b rest none s f h = cc
fed-IsScalar b rest (some (p, out)) s f h =
    let (t, e, se) = emit-some out (decode_from p b) s h in
    rw se (All-append IsScalar out t f.1 (rest p t f.0 e))

decode_from-IsScalar :
    (p : Pending) (b : Bytes) (s : Text) → IsFair p → decode_from p b ≡ some s → All IsScalar s
unfolding decode_from
decode_from-IsScalar ready [] [] f h = tt
decode_from-IsScalar ready [] (x ∷ s) f h = cc
decode_from-IsScalar (need n lo hi acc) [] s f h = cc
decode_from-IsScalar ready (c ∷ b) s f h =
    fed-IsScalar b (λ p t. decode_from-IsScalar p b t) (feed ready c) s (begin-IsFed c) h
decode_from-IsScalar (need n lo hi acc) (c ∷ b) s f h =
    fed-IsScalar b (λ p t. decode_from-IsScalar p b t) (feed (need n lo hi acc) c) s
      (feed-IsFed (need n lo hi acc) c f) h

-- Decoded text is a text of scalars, so it can be encoded again.
pub decode-IsScalar : (b : Bytes) (s : Text) → decode b ≡ some s → All IsScalar s
unfolding decode
decode-IsScalar b s h = decode_from-IsScalar ready b s tt h
