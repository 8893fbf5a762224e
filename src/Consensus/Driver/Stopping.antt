-- ===== src/Consensus/Driver/Stopping.antt =====
-- The end of `ZmqDriver.start`: the loop's thread ends and the caller's join returns.
use sci_ledger_sawtooth.Prelude.{ℕ, zero, suc, ◌≡◌, ◌⊎◌, true, some, List, [], ◌∷◌}
use sci_ledger_sawtooth.Messaging.{Link}
use sci_ledger_sawtooth.Consensus.Notifications.{Codec}
use sci_ledger_sawtooth.Consensus.Driver.{Engine, Driver}
use sci_ledger_sawtooth.Consensus.Driver.Start.{
  Running, Move, loops, joins, run, joined, over, is_in_engine,
}

-- That many moves of the loop, and then the join.
abbrev pub then_joins : {S : Type 0} → ℕ → List (Move S)
then_joins zero = joins ∷ []
then_joins (suc n) = loops ∷ then_joins n

module _ {S : Type 0} (link : Link S) (codec : Codec) (engine : Engine S) where
  -- The caller is past `stop` only with the flag to exit set.
  HasStopped : Running S → Type 0
  HasStopped s = (is_in_engine s.main ≡ true) ⊎ (s.driver.exit ≡ true)

  -- The caller's join returns after n moves of the loop.
  abbrev pub JoinsAfter : ℕ → Running S → Type 0
  JoinsAfter n s =
      (u : Running S) × (run link codec engine (then_joins n) s ≡ some u)
      × (u.main ≡ joined)
      × (u.loop ≡ over)
      × (u.driver.updates ≡ s.driver.updates)
