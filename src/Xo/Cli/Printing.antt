-- ===== src/Xo/Cli/Printing.antt =====
-- Printing a game in `do_show` of xo_cli.py never fails on a board that is there.
use sci_ledger_sawtooth.Prelude.{
  ℕ, zero, suc, ◌+◌, ◌*◌, ◌<◌, ◌≤◌, ◌≡◌, ◌≢◌, refl, List, [], ◌∷◌, length, arith, leb, Bool-cases,
  All, inl, inr,
}
use sci_ledger_sawtooth.Text.{Text}
use sci_ledger_sawtooth.Errors.{Result, ok}
use sci_ledger_sawtooth.Action.{Action, lift, ◌>>=◌, ◌>>◌}
use sci_ledger_sawtooth.Xo.Client.World.{Libraries}
use sci_ledger_sawtooth.Xo.Cli.Shell
use sci_ledger_sawtooth.Xo.Cli.Listing.{Shown, blanked, int_sqrt, root_below, item_at, range_from}
use sci_ledger_sawtooth.Xo.Cli.Drawing.{
  for_each, write_cell, write_dashes, draw_row, draw_board, print_game,
}

root_below_lem : (d n : ℕ) → root_below d n * root_below d n ≤ n
unfolding root_below
root_below_lem zero n = omega arith
root_below_lem (suc d) n = elim (Bool-cases (leb (suc d * suc d) n)) [
  | inl e ↦ rw e (ground (arith, e))
  | inr e ↦ rw e (root_below_lem d n)
]

root_below_positive : (d n : ℕ) → 0 < n → 1 ≤ root_below (suc d) n
unfolding root_below
root_below_positive zero n h = ground arith
root_below_positive (suc d) n h = ground (arith, root_below_positive d n h)

int_sqrt_lem : (n : ℕ) → 0 < n → (m : ℕ) × (int_sqrt n ≡ suc m) × (suc m * suc m ≤ n)
unfolding int_sqrt
int_sqrt_lem zero h = absurd (omega arith)
int_sqrt_lem (suc n) h = go (root_below (suc n) (suc n)) refl
  where
    go :
        (d : ℕ)
        → root_below (suc n) (suc n) ≡ d
        → (m : ℕ) × (root_below (suc n) (suc n) ≡ suc m) × (suc m * suc m ≤ suc n)
    go zero e = absurd (ground (arith, root_below_positive n (suc n) h))
    go (suc m) e = (m, e, rw (← e) (root_below_lem (suc n) (suc n)))

pub item_at_lem : (s : Text) (i : ℕ) → i < length s → (c : ℕ) × (item_at s i ≡ ok c)
unfolding item_at
item_at_lem [] i h = absurd (ground arith)
item_at_lem (c ∷ s) zero h = (c, refl)
item_at_lem (c ∷ s) (suc i) h = item_at_lem s i (ground arith)

scaled : (x m k : ℕ) → x ≤ m → x * k ≤ m * k
scaled zero m k h = omega arith
scaled (suc x) zero k h = absurd (omega arith)
scaled (suc x) (suc m) k h = let r = scaled x m k (omega arith) in ground (arith, r)

on_board : (x y m n : ℕ) → x ≤ m → y ≤ m → suc m * suc m ≤ n → y + x * suc m < n
on_board x y m n hx hy h = let r = scaled x m (suc m) hx in ground (arith, r)

pub length-blanked : (s : Text) → length (blanked s) ≡ length s
length-blanked [] = refl
length-blanked (c ∷ s) = ground (arith, length-blanked s)

length_positive : (s : Text) → s ≢ [] → 0 < length s
length_positive [] h = absurd (h refl)
length_positive (c ∷ s) h = ground arith

range_from_lem : (k n m : ℕ) → k + n ≤ m → All (λ y. y ≤ m) (range_from k n)
unfolding range_from
range_from_lem k zero m h = tt
range_from_lem k (suc n) m h = (ground arith, range_from_lem (suc k) n m (ground arith))

module _ {W Y : Type 0} (io : Libraries W Y) (shell : Shell.Shell W) where
  -- The terminal takes what is printed.
  pub record Prints : Type 0 where
    pub printing : (t : Text) (w : W) → (io.print t w).0 ≡ ok tt
    pub writing : (t : Text) (w : W) → (shell.write t w).0 ≡ ok tt

  -- A call that does not raise.
  abbrev IsTotal : Action W (Unit {0}) → Type 0
  IsTotal m = (w : W) → (m w).0 ≡ ok tt

  then-IsTotal : (m k : Action W (Unit {0})) → IsTotal m → IsTotal k → IsTotal (m >> k)
  then-IsTotal m k hm hk w = ground (arith, hm w, hk (m w).1)

  lift-IsTotal :
      (r : Result ℕ) (c : ℕ) (k : ℕ → Action W (Unit {0}))
      → r ≡ ok c
      → IsTotal (k c)
      → IsTotal (lift r >>= k)
  lift-IsTotal r c k e h w = ground (arith, e, h w)

  for_each-IsTotal :
      {A : Type 0} (P : A → Type 0) (f : A → Action W (Unit {0})) (xs : List A)
      → ((x : A) → P x → IsTotal (f x))
      → All P xs
      → IsTotal (for_each io shell xs f)
  unfolding for_each
  for_each-IsTotal P f [] h p w = refl
  for_each-IsTotal P f (x ∷ xs) h p w =
      ground (arith, h x p.0 w, for_each-IsTotal P f xs h p.1 (f x w).1)

  module _ (prints : Prints) where
    at_index :
        (board : Text) (i : ℕ) (k : ℕ → Action W (Unit {0}))
        → i < length board
        → ((c : ℕ) → IsTotal (k c))
        → IsTotal (lift (item_at board i) >>= k)
    at_index board i k h t =
        let (c, e) = item_at_lem board i h in lift-IsTotal (item_at board i) c k e (t c)

    module _ (board : Text) (m : ℕ) (square : suc m * suc m ≤ length board) where
      cells-IsTotal :
          (x : ℕ)
          → x ≤ m
          → IsTotal
              (for_each io shell (range_from 0 m) (λ y. write_cell io shell board (y + x * suc m)))
      unfolding write_cell
      cells-IsTotal x h =
          for_each-IsTotal (λ y. y ≤ m) _ (range_from 0 m)
            (λ y hy.
              at_index board (y + x * suc m) _ (on_board x y m (length board) h hy square)
                (λ c. prints.writing _))
            (range_from_lem 0 m m (omega arith))

      dashes-IsTotal :
          (x : ℕ)
          → x ≤ m
          → IsTotal (
              for_each io shell (range_from 0 m) (λ y. write_dashes io shell board (y + x * suc m)))
      unfolding write_dashes
      dashes-IsTotal x h =
          for_each-IsTotal (λ y. y ≤ m) _ (range_from 0 m)
            (λ y hy.
              at_index board (y + x * suc m) _ (on_board x y m (length board) h hy square)
                (λ c. prints.writing _))
            (range_from_lem 0 m m (omega arith))

      corner : (x : ℕ) → x ≤ m → m + x * suc m < length board
      corner x h = on_board x m m (length board) h (omega arith) square

      draw_row-IsTotal : (x : ℕ) → x ≤ m → IsTotal (draw_row io shell board m x)
      unfolding draw_row
      draw_row-IsTotal x h = then-IsTotal _ _ (cells-IsTotal x h) (
          at_index board (m + x * suc m) _ (corner x h) (λ last.
            then-IsTotal _ _ (prints.printing _) (
              then-IsTotal _ _ (dashes-IsTotal x h)
                (at_index board (m + x * suc m) _ (corner x h) (λ below. prints.printing _)))))

      draw_board-IsTotal : IsTotal (draw_board io shell board (suc m))
      unfolding draw_board
      draw_board-IsTotal =
          then-IsTotal _ _
            (for_each-IsTotal (λ y. y ≤ m) _ (range_from 0 m) draw_row-IsTotal
              (range_from_lem 0 m m (omega arith)))
            (then-IsTotal _ _ (cells-IsTotal m (omega arith)) (
              at_index board (m + m * suc m) _ (corner m (omega arith))
                (λ last. prints.printing _)))

    print_game-IsTotal :
        (name : Text) (g : Shown) → g.board ≢ [] → IsTotal (print_game io shell name g)
    unfolding print_game
    print_game-IsTotal name g ne =
        let (m, d, q) = int_sqrt_lem (length g.board) (length_positive g.board ne) in
        let drawn = draw_board-IsTotal (blanked g.board) m (rw length-blanked q) in
        rw d (
          then-IsTotal _ _ (prints.printing _) (
            then-IsTotal _ _ (prints.printing _) (
              then-IsTotal _ _ (prints.printing _) (
                then-IsTotal _ _ (prints.printing _) (
                  then-IsTotal _ _ (prints.printing _) (
                    then-IsTotal _ _ (prints.printing _)
                      (then-IsTotal _ _ drawn (prints.printing _))))))))

    -- Where the terminal takes what is printed, `do_show` prints a game with a board that is not empty
    -- with no exception.
    pub print_game_total :
        (name : Text) (g : Shown) (w : W) → g.board ≢ [] → (print_game io shell name g w).0 ≡ ok tt
    print_game_total name g w ne = print_game-IsTotal name g ne w
