-- ===== src/Messaging/Stream/Threads/Moves.antt =====
-- The moves of all threads in sawtooth_sdk/messaging/stream.py, and runs of them.
use sci_ledger_sawtooth.Messaging.Stream.Threads.Clients.{
  answer, ask, begin, enter, put_call, schedule,
}
use sci_ledger_sawtooth.Messaging.Stream.Threads.EventLoop.{
  begin_disconnect, end_loop, fail_next, fail_to_open, get_next, get_ready, open_queues,
  receive_next, run_task, send_next, start_get, start_task,
}
use sci_ledger_sawtooth.Prelude.{true, Option, none, some, List, [], ◌∷◌}
use sci_ledger_sawtooth.Messaging.Stream.Threads.{
  Threads, Move, begins, answers, puts, enters, schedules, shuts, opens, fails_to_open, readies,
  starts_task, runs_task, sends_next, receives, disconnects, fails_next, ends, asks, starts_get,
  gets_next,
}

unfoldable pub move : Move → Threads → Option Threads
move (begins who m) = begin who m
move (answers who m) = answer who m
move (puts who) = put_call who
move (enters who) = enter who
move (schedules who) = schedule who
move shuts = λ s. some (record s { shutdown = true })
move opens = open_queues
move (fails_to_open e) = fail_to_open e
move readies = get_ready
move starts_task = start_task
move runs_task = run_task
move sends_next = send_next
move (receives m) = receive_next m
move disconnects = begin_disconnect
move fails_next = fail_next
move ends = end_loop
move asks = ask
move starts_get = start_get
move (gets_next k) = get_next k

unfoldable pub run : List Move → Threads → Option Threads
run [] s = some s
run (x ∷ xs) s = elim (move x s) [ none ↦ none | some u ↦ run xs u ]
