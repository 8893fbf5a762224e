-- ===== src/Dict.antt =====
-- Python's `dict` with texts for keys, in insertion order. `d[k] = v` keeps the place of a key that
-- is there.
use sci_ledger_sawtooth.Prelude.{
  ◌≡◌, refl, Bool, true, false, Option, none, some, List, [], ◌∷◌, arith, All, if◌then◌else◌,
}
use sci_ledger_sawtooth.Text.{Text, text_eq, text_eq_iff}

abbrev pub Dict {ℓ} : Type ℓ → Type ℓ
Dict V = List (Text × V)

module _ {ℓ} {V : Type ℓ} where
  -- `d.get(k)`
  unfoldable pub get : Dict V → Text → Option V
  get [] k = none
  get ((j, v) ∷ d) k = if text_eq j k then some v else get d k

  -- `k in d`
  unfoldable pub has_key : Dict V → Text → Bool
  unfolding get
  has_key d k = elim (get d k) [ none ↦ false | some _ ↦ true ]

  -- `d[k] = v`
  unfoldable pub put : Dict V → Text → V → Dict V
  put [] k v = (k, v) ∷ []
  put ((j, w) ∷ d) k v = if text_eq j k then (j, v) ∷ d else (j, w) ∷ put d k v

  -- `del d[k]` of a key that is there
  unfoldable pub remove : Dict V → Text → Dict V
  remove [] k = []
  remove ((j, w) ∷ d) k = let rest = remove d k in if text_eq j k then rest else (j, w) ∷ rest

  pub get-put :
      (d : Dict V) (k j : Text) (v : V)
      → get (put d k v) j ≡ (if text_eq k j then some v else get d j)
  unfolding get put
  get-put [] k j v = refl
  get-put ((i, w) ∷ d) k j v =
      ground (arith, get-put d k j v, text_eq_iff i k, text_eq_iff i j, text_eq_iff k j)

  pub get-remove :
      (d : Dict V) (k j : Text) → get (remove d k) j ≡ (if text_eq k j then none else get d j)
  unfolding get remove
  get-remove [] k j = ground arith
  get-remove ((i, w) ∷ d) k j =
      ground (arith, get-remove d k j, text_eq_iff i k, text_eq_iff i j, text_eq_iff k j)

  -- No key stands twice.
  abbrev pub IsDistinct : Dict V → Type ℓ
  IsDistinct [] = Unit
  IsDistinct (e ∷ d) = (get d e.0 ≡ none) × IsDistinct d

  pub put-IsDistinct : (d : Dict V) (k : Text) (v : V) → IsDistinct d → IsDistinct (put d k v)
  unfolding put get
  put-IsDistinct [] k v h = (refl, tt)
  put-IsDistinct ((j, w) ∷ d) k v h =
      ground (arith, put-IsDistinct d k v h.1, get-put d k j v, text_eq_iff j k, text_eq_iff k j)

  pub remove-IsDistinct : (d : Dict V) (k : Text) → IsDistinct d → IsDistinct (remove d k)
  unfolding remove
  remove-IsDistinct [] k h = tt
  remove-IsDistinct ((j, w) ∷ d) k h = ground (arith, remove-IsDistinct d k h.1, get-remove d k j)

module _ {ℓ κ} {V : Type ℓ} (P : Text × V → Type κ) where
  pub All-put :
      (d : Dict V) (k : Text) (v : V)
      → ((j : Text) → text_eq j k ≡ true → P (j, v))
      → P (k, v)
      → All P d
      → All P (put d k v)
  unfolding put
  All-put [] k v same new h = (new, tt)
  All-put ((j, w) ∷ d) k v same new h = ground (arith, All-put d k v same new h.1, same j)

  pub All-remove : (d : Dict V) (k : Text) → All P d → All P (remove d k)
  unfolding remove
  All-remove [] k h = tt
  All-remove ((j, w) ∷ d) k h = ground (arith, All-remove d k h.1)

  -- What holds of all entries holds of the entry that is found.
  pub All-get : (d : Dict V) (k : Text) (v : V) → All P d → get d k ≡ some v → P (k, v)
  unfolding get
  All-get [] k v h e = cc
  All-get ((j, w) ∷ d) k v h e = ground (arith, All-get d k v h.1, text_eq_iff j k)
