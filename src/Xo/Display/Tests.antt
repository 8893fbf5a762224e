-- ===== src/Xo/Display/Tests.antt =====
-- A run of what the handler logs, and the theorem on it.
use sci_ledger_sawtooth.Prelude.{◌≡◌, refl, [], ◌∷◌}
use sci_ledger_sawtooth.Text.{codes}
use sci_ledger_sawtooth.Xo.Rules.{new_game}
use sci_ledger_sawtooth.Xo.Game.{Game}
use sci_ledger_sawtooth.Xo.Display.{center, display}

abbrev game : Game
game = new_game (codes "g1")

center_test : center 5 (codes "ab") ≡ codes "  ab "
unfolding center
center_test = refl

display_test : display (codes "ab") ≡ codes "+----+" ∷ codes "+ ab +" ∷ codes "+----+" ∷ []
unfolding display
display_test = refl
