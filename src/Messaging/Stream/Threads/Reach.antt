-- ===== src/Messaging/Stream/Threads/Reach.antt =====
-- What holds in every state that the threads of a stream reach, in whatever order they move.
use sci_ledger_sawtooth.Prelude.{◌≡◌, inl, inr, some, List, [], ◌∷◌, arith, Option-cases}
use sci_ledger_sawtooth.Dict.{get}
use sci_ledger_sawtooth.Messaging.Stream.Threads.{
  Threads, Move, begins, answers, puts, enters, schedules, shuts, opens, fails_to_open, readies,
  starts_task, runs_task, sends_next, receives, disconnects, fails_next, ends, init, asks,
  starts_get, gets_next,
}
use sci_ledger_sawtooth.Messaging.Stream.Threads.Clients.{ask}
use sci_ledger_sawtooth.Messaging.Stream.Threads.EventLoop.{
  open_queues, fail_to_open, get_ready, start_task, run_task, send_next, begin_disconnect, end_loop,
  start_get, get_next,
}
use sci_ledger_sawtooth.Messaging.Stream.Threads.Moves.{move, run}
use sci_ledger_sawtooth.Messaging.Stream.Threads.Safe.{IsSafe, same-IsSafe}
use sci_ledger_sawtooth.Messaging.Stream.Threads.Sending.{
  begin-IsSafe, answer-IsSafe, put_call-IsSafe, enter-IsSafe, schedule-IsSafe,
}
use sci_ledger_sawtooth.Messaging.Stream.Threads.Serving.{
  receive_next-eq, fail_next-IsSafe, receive-IsSafe,
}

-- A move that leaves the futures, the calls and the inbox as they are.
record Leaves (s u : Threads) : Type 0 where
  results : u.conn.results ≡ s.conn.results
  futures : u.conn.futures ≡ s.conn.futures
  calls : u.calls ≡ s.calls
  inbox : u.inbox ≡ s.inbox

Leaves-IsSafe : (s u : Threads) → Leaves s u → IsSafe s → IsSafe u
Leaves-IsSafe s u l = same-IsSafe s u l.results l.futures l.calls l.inbox

pub move-IsSafe : (x : Move) (s u : Threads) → move x s ≡ some u → IsSafe s → IsSafe u
unfolding move open_queues fail_to_open get_ready start_task run_task send_next begin_disconnect ask
    start_get get_next end_loop
move-IsSafe (begins who m) s u e h = begin-IsSafe who m s u e h
move-IsSafe (answers who m) s u e h = answer-IsSafe who m s u e h
move-IsSafe (puts who) s u e h = put_call-IsSafe who s u e h
move-IsSafe (enters who) s u e h = enter-IsSafe who s u e h
move-IsSafe (schedules who) s u e h = schedule-IsSafe who s u e h
move-IsSafe shuts s u e h =
    same-IsSafe s u (ground (arith, e)) (ground (arith, e)) (ground (arith, e)) (ground (arith, e))
      h
move-IsSafe opens s u e h = Leaves-IsSafe s u (ground (arith, e)) h
move-IsSafe (fails_to_open x) s u e h = Leaves-IsSafe s u (ground (arith, e)) h
move-IsSafe readies s u e h = Leaves-IsSafe s u (ground (arith, e)) h
move-IsSafe starts_task s u e h = Leaves-IsSafe s u (ground (arith, e)) h
move-IsSafe runs_task s u e h = Leaves-IsSafe s u (ground (arith, e)) h
move-IsSafe sends_next s u e h = Leaves-IsSafe s u (ground (arith, e)) h
move-IsSafe (receives m) s u e h = receive-IsSafe m s u (receive_next-eq m s u e) h
move-IsSafe disconnects s u e h = Leaves-IsSafe s u (ground (arith, e)) h
move-IsSafe fails_next s u e h = fail_next-IsSafe s u e h
move-IsSafe ends s u e h = Leaves-IsSafe s u (ground (arith, e)) h
move-IsSafe asks s u e h = Leaves-IsSafe s u (ground (arith, e)) h
move-IsSafe starts_get s u e h = Leaves-IsSafe s u (ground (arith, e)) h
move-IsSafe (gets_next k) s u e h = Leaves-IsSafe s u (ground (arith, e)) h

init-IsSafe : IsSafe init
unfolding get
init-IsSafe = record { keyed = λ k f e. cc; waited = λ k e. cc; genuine = λ k t b e. cc }

pub run-cons :
    (x : Move) (s u : Threads) (xs : List Move) → move x s ≡ some u → run (x ∷ xs) s ≡ run xs u
unfolding run
run-cons x s u xs e = ground (arith, e)

-- What every move keeps, every run keeps.
module _ (P : Threads → Type 0)
    (kept : (x : Move) (s u : Threads) → move x s ≡ some u → P s → P u) where
  pub run-keeps : (xs : List Move) (s u : Threads) → run xs s ≡ some u → P s → P u
  unfolding run
  run-keeps [] s u e h = let same : u ≡ s = ground (arith, e) in rw (same) h
  run-keeps (x ∷ xs) s u e h = elim (Option-cases (move x s)) [
    | inl g ↦ absurd (ground (arith, g, e))
    | inr (v, g) ↦ run-keeps xs v u (ground (arith, g, e)) (kept x s v g h)
  ]

-- In every state that the threads reach, every future stands in the collection under its own id, every
-- future without a result is in the collection or in the hands of the thread that has just made it, and
-- a future with a content has it from a message of the validator with its id: no interleaving of sends,
-- messages, disconnects and reconnects loses a future or resolves it with the response to another.
pub run-IsSafe : (xs : List Move) (s : Threads) → run xs init ≡ some s → IsSafe s
run-IsSafe xs s e = run-keeps IsSafe move-IsSafe xs init s e init-IsSafe
