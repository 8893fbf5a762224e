-- ===== src/Xo/Game/Order.antt =====
-- Python's order of texts is total, and so sorting forgets the order of its input.
use sci_ledger_sawtooth.Prelude.{◌≡◌, refl, ◌∙◌, ap, true, false, List, [], ◌∷◌, arith}
use sci_ledger_sawtooth.Text.{Text}
use sci_ledger_sawtooth.Text.Parts.{join}
use sci_ledger_sawtooth.Xo.Game.{
  Games, comma, game_fields, text_le, insert, sorted, game_strs, serialize,
}
use mathlib.Core.List.{Perm, Permᴰ}
use mathlib.Core.Logic.{∥∥₁_elim}

text_le_total : (s t : Text) → text_le s t ≡ false → text_le t s ≡ true
unfolding text_le
text_le_total [] t h = ground arith
text_le_total (c ∷ s) [] h = refl
text_le_total (c ∷ s) (d ∷ t) h = ground (arith, text_le_total s t)

text_le_antisym : (s t : Text) → text_le s t ≡ true → text_le t s ≡ true → s ≡ t
unfolding text_le
text_le_antisym [] [] h k = refl
text_le_antisym [] (d ∷ t) h k = absurd (ground arith)
text_le_antisym (c ∷ s) [] h k = absurd (ground arith)
text_le_antisym (c ∷ s) (d ∷ t) h k = ground (arith, text_le_antisym s t)

text_le_trans : (r s t : Text) → text_le r s ≡ true → text_le s t ≡ true → text_le r t ≡ true
unfolding text_le
text_le_trans [] s t h k = refl
text_le_trans (b ∷ r) [] t h k = absurd (ground arith)
text_le_trans (b ∷ r) (c ∷ s) [] h k = absurd (ground arith)
text_le_trans (b ∷ r) (c ∷ s) (d ∷ t) h k = ground (arith, text_le_trans r s t)

insert_comm : (s t : Text) (ts : List Text) → insert s (insert t ts) ≡ insert t (insert s ts)
unfolding insert
insert_comm s t [] = ground (arith, text_le_total s t, text_le_antisym s t)
insert_comm s t (r ∷ ts) = ground (
  arith,
  insert_comm s t ts,
  text_le_total s t,
  text_le_antisym s t,
  text_le_trans s t r,
  text_le_trans t s r,
  text_le_total r s,
  text_le_total r t,
  text_le_total s r,
  text_le_total t r,
)

sorted-Permᴰ :
    (games games' : Games)
    → Permᴰ games games'
    → sorted (game_strs games) ≡ sorted (game_strs games')
unfolding sorted game_strs
sorted-Permᴰ _ _ Permᴰ.nil = refl
sorted-Permᴰ _ _ (Permᴰ.cons {a = a} {b = b} {l₁ = l} {l₂ = m} e p) =
    ap (λ x. insert (join comma (game_fields x)) (sorted (game_strs l))) e
    ∙ ap (insert (join comma (game_fields b))) (sorted-Permᴰ l m p)
sorted-Permᴰ _ _ (Permᴰ.swap {a = a} {b = b} {a' = a'} {b' = b'} {l = l} e f) =
    insert_comm (join comma (game_fields a)) (join comma (game_fields b)) (sorted (game_strs l))
    ∙ ap
        (λ x.
          insert (join comma (game_fields b))
            (insert (join comma (game_fields x)) (sorted (game_strs l))))
        e
    ∙ ap
        (λ x.
          insert (join comma (game_fields x))
            (insert (join comma (game_fields b')) (sorted (game_strs l))))
        f
sorted-Permᴰ _ _ (Permᴰ.trans {l₁ = l} {l₂ = m} {l₃ = n} p q) =
    sorted-Permᴰ l m p ∙ sorted-Permᴰ m n q

-- `_serialize` does not depend on the order in which the dictionary holds its games: any permutation of
-- the entries is written as the same bytes, or refused alike.
pub serialize-Perm : (games games' : Games) → Perm games games' → serialize games ≡ serialize games'
unfolding serialize
serialize-Perm games games' h =
    let e : sorted (game_strs games) ≡ sorted (game_strs games') =
      ∥∥₁_elim h (hlevel) (sorted-Permᴰ games games') in
    rw (e, serialize) refl
