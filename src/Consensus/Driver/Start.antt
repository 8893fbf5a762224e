-- ===== src/Consensus/Driver/Start.antt =====
-- `ZmqDriver.start` of sawtooth_sdk/consensus/zmq_driver.py: the thread of the caller, which registers,
-- runs the engine, stops and joins, and the thread of the driver's loop. A round of the loop, `stop` and
-- what the engine does at once are moves; either thread may move next.
use sci_ledger_sawtooth.Prelude.{
  ℕ, Bool, true, false, Option, none, some, List, [], ◌∷◌, ◌++◌, if◌then◌else◌, split_first,
}
use sci_ledger_sawtooth.Errors.{Exn, Result, ok, err}
use sci_ledger_sawtooth.Action.{Action, pure, ◌>>=◌}
use sci_ledger_sawtooth.Messaging.{Link}
use sci_ledger_sawtooth.Consensus.Notifications.{StartupState, Update, Codec}
use sci_ledger_sawtooth.Consensus.Driver.{
  Engine, Driver, outward, stop, register, wait_until_active, driver_step,
}

-- Where the loop's thread stands: before its first future, waiting for a future, or at its end.
pub data Loop : Type 0 where
  beginning : Loop
  waiting : ℕ → Loop
  over : Loop

-- Where the caller's thread stands: in the engine, in `driver_thread.join()`, or past it; `raised` is an
-- exception of `stop`.
pub data Main : Type 0 where
  in_engine : Main
  joining : Main
  joined : Main
  raised : Exn → Main

-- `taken` is what the engine has taken from the queue of updates.
pub record Running (S : Type 0) : Type 0 where
  pub driver : Driver S
  pub loop : Loop
  pub main : Main
  pub taken : List (ℕ × Update)

-- `works` is whatever the engine makes of the world outside.
pub data Move (S : Type 0) : Type 0 where
  loops : Move S
  takes : Move S
  works : (S → S) → Move S
  engine_ends : Move S
  joins : Move S

abbrev pub is_in_engine : Main → Bool
is_in_engine in_engine = true
is_in_engine _ = false

abbrev pub is_joining : Main → Bool
is_joining joining = true
is_joining _ = false

abbrev pub is_over : Loop → Bool
is_over over = true
is_over _ = false

-- the future for which the next round waits
abbrev pub loop_of : Result (Option ℕ) → Loop
loop_of (ok (some future)) = waiting future
loop_of (ok none) = over
loop_of (err e) = over

abbrev pub first_loop_of : Result ℕ → Loop
first_loop_of (ok future) = waiting future
first_loop_of (err e) = over

abbrev pub main_of : Result (Unit {0}) → Main
main_of (ok _) = joining
main_of (err e) = raised e

module _ {S : Type 0} (link : Link S) (codec : Codec) (engine : Engine S) where
  -- `start` up to the queue of updates; the first `none` stands for rounds that are used up
  unfoldable pub startup : ℕ → Action S (Option (Option StartupState))
  startup n = do
    settled ← register link codec engine n
    elim settled [
      | none ↦ pure none
      | some none ↦ do
        future ← link.receive
        activated ← wait_until_active link codec engine n future
        elim activated [ none ↦ pure none | some state ↦ pure (some (some state)) ]
      | some (some state) ↦ pure (some (some state))
    ]

  -- the two threads once `driver_thread.start()` has been called
  unfoldable pub started : Driver S → Running S
  started d = record {
    driver = record d { updates = [] };
    loop = beginning;
    main = in_engine;
    taken = [];
  }

  -- `future = self._stream.receive()`, and a round of `while True`
  unfoldable pub loop_move : Running S → Option (Running S)
  loop_move s = elim (s.loop) [
    | beginning ↦
        let (r, d) = outward link.receive s.driver in
        some (record s { driver = d; loop = first_loop_of r })
    | waiting future ↦
        let (r, d) = driver_step link codec engine future s.driver in
        some (record s { driver = d; loop = loop_of r })
    | over ↦ none
  ]

  -- the engine takes the first update from the queue
  unfoldable pub take_update : Running S → Option (Running S)
  take_update s =
      if is_in_engine s.main
      then elim (split_first s.driver.updates) [
        | none ↦ none
        | some (u, us) ↦
            some
              (record s { driver = record s.driver { updates = us }; taken = s.taken ++ (u ∷ []) })
      ]
      else none

  unfoldable pub work : (S → S) → Running S → Option (Running S)
  work f s =
      if is_in_engine s.main
      then some (record s { driver = record s.driver { outside = f s.driver.outside } })
      else none

  -- `self._engine.start` returns, or raises an Exception, and `self.stop()` is called
  unfoldable pub end_engine : Running S → Option (Running S)
  end_engine s =
      if is_in_engine s.main
      then (let (r, d) = stop link codec engine s.driver in
          some (record s { driver = d; main = main_of r }))
      else none

  -- `driver_thread.join()`
  unfoldable pub join : Running S → Option (Running S)
  join s =
      if is_joining s.main
      then (if is_over s.loop then some (record s { main = joined }) else none)
      else none

  unfoldable pub move : Move S → Running S → Option (Running S)
  move loops = loop_move
  move takes = take_update
  move (works f) = work f
  move engine_ends = end_engine
  move joins = join

  unfoldable pub run : List (Move S) → Running S → Option (Running S)
  run [] s = some s
  run (x ∷ xs) s = elim (move x s) [ none ↦ none | some u ↦ run xs u ]
