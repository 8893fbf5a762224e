-- ===== src/Text/Parts.antt =====
-- `sep.join(parts)` and `text.split(sep)` for a separator of one character, with the two round trips.
use sci_ledger_sawtooth.Prelude.{
  ℕ, ◌≡◌, refl, ◌≢◌, ◌∙◌, List, [], ◌∷◌, ◌++◌, arith, ◌==◌, true, false, All, All-append,
  Bool-cases, inl, inr, append_assoc, append-nil,
}
use sci_ledger_sawtooth.Text.{Text, Lacks}

module _ (sep : ℕ) where
  joined : List Text → Text
  joined [] = []
  joined (p ∷ ps) = sep ∷ (p ++ joined ps)

unfoldable pub join : ℕ → List Text → Text
unfolding joined
join sep [] = []
join sep (p ∷ ps) = p ++ joined sep ps

module _ (sep : ℕ) where
  -- `head` is the part that is being read.
  cut : Text → Text → List Text
  cut [] head = head ∷ []
  cut (c ∷ s) head = elim (c == sep) [ true ↦ head ∷ cut s [] | false ↦ cut s (head ++ c ∷ []) ]

unfoldable pub split : ℕ → Text → List Text
unfolding cut
split sep s = cut sep s []

module _ (sep : ℕ) where
  cut-append :
      (p rest head : Text) → Lacks sep p → cut sep (p ++ rest) head ≡ cut sep rest (head ++ p)
  unfolding cut
  cut-append [] rest head h = rw append-nil
  cut-append (c ∷ p) rest head h =
      ground (arith, cut-append p rest (head ++ c ∷ []) h.1, append_assoc head (c ∷ []) p)

  cut-joined :
      (ps : List Text) (head : Text) → All (Lacks sep) ps → cut sep (joined sep ps) head ≡ head ∷ ps
  unfolding cut joined
  cut-joined [] head h = refl
  cut-joined (p ∷ ps) head h =
      ground (arith, cut-append p (joined sep ps) [] h.0, cut-joined ps p h.1)

  -- Splitting a join gives the parts back, if there is a part and none holds the separator.
  pub split-join : (ps : List Text) → ps ≢ [] → All (Lacks sep) ps → split sep (join sep ps) ≡ ps
  unfolding split join
  split-join [] h _ = absurd (h refl)
  split-join (p ∷ ps) _ h = cut-append p (joined sep ps) [] h.0 ∙ cut-joined ps p h.1

  cut-ne-nil : (s head : Text) → cut sep s head ≢ []
  unfolding cut
  cut-ne-nil [] head = cc
  cut-ne-nil (c ∷ s) head = ground (arith, cut-ne-nil s (head ++ c ∷ []))

  -- A split has at least one part.
  pub split-ne-nil : (s : Text) → split sep s ≢ []
  unfolding split
  split-ne-nil s = cut-ne-nil s []

  cut-Lacks : (s head : Text) → Lacks sep head → All (Lacks sep) (cut sep s head)
  unfolding cut
  cut-Lacks [] head h = (h, tt)
  cut-Lacks (c ∷ s) head h = elim (Bool-cases (c == sep)) [
    | inl e ↦ rw (e, All) (h, cut-Lacks s [] tt)
    | inr e ↦
        rw (e, All) (cut-Lacks s (head ++ c ∷ []) (All-append _ head (c ∷ []) h (ground arith, tt)))
  ]

  -- No part of a split holds the separator.
  pub split-Lacks : (s : Text) → All (Lacks sep) (split sep s)
  unfolding split
  split-Lacks s = cut-Lacks s [] tt

module _ {ℓ} (P : ℕ → Type ℓ) (sep : ℕ) (ps : P sep) where
  All-joined : (parts : List Text) → All (All P) parts → All P (joined sep parts)
  unfolding joined
  All-joined [] h = tt
  All-joined (p ∷ parts) h = (ps, All-append P p (joined sep parts) h.0 (All-joined parts h.1))

  -- What holds of the separator and of every part holds of the join.
  pub All-join : (parts : List Text) → All (All P) parts → All P (join sep parts)
  unfolding join
  All-join [] h = tt
  All-join (p ∷ parts) h = All-append P p (joined sep parts) h.0 (All-joined parts h.1)

module _ {ℓ} (P : ℕ → Type ℓ) (sep : ℕ) where
  All-cut : (s head : Text) → All P s → All P head → All (All P) (cut sep s head)
  unfolding cut
  All-cut [] head hs hh = (hh, tt)
  All-cut (c ∷ s) head hs hh = elim (Bool-cases (c == sep)) [
    | inl e ↦ rw (e, All) (hh, All-cut s [] hs.1 tt)
    | inr e ↦
        rw (e, All) (All-cut s (head ++ c ∷ []) hs.1 (All-append P head (c ∷ []) hh (hs.0, tt)))
  ]

  -- What holds of every character holds of every character of every part.
  pub All-split : (s : Text) → All P s → All (All P) (split sep s)
  unfolding split
  All-split s h = All-cut s [] h tt
