-- ===== src/Messaging/Stream/Threads/Constructor.antt =====
-- What the constructor of the stream tells its caller.
use sci_ledger_sawtooth.Prelude.{◌≡◌, false, none, some, List, arith}
use sci_ledger_sawtooth.Errors.{Exn}
use sci_ledger_sawtooth.Messaging.Stream.Threads.{
  Threads, Phase, ended, Move, begins, answers, puts, enters, schedules, shuts, opens,
  fails_to_open, readies, starts_task, runs_task, sends_next, receives, disconnects, fails_next,
  ends, init, asks, starts_get, gets_next,
}
use sci_ledger_sawtooth.Messaging.Stream.Threads.Clients.{
  begin, answer, put_call, enter, schedule, ask,
}
use sci_ledger_sawtooth.Messaging.Stream.Threads.EventLoop.{
  receive_next, fail_next, stop_loop, is_running, failing_of, open_queues, fail_to_open, get_ready,
  start_task, run_task, send_next, begin_disconnect, end_loop, is_connecting, is_opened, is_serving,
  start_get, get_next,
}
use sci_ledger_sawtooth.Messaging.Stream.Threads.Moves.{move, run}
use sci_ledger_sawtooth.Messaging.Stream.Threads.Reach.{run-keeps}
use sci_ledger_sawtooth.Errors.{err}
use sci_ledger_sawtooth.Messaging.Stream.Threads.{constructed}

-- What `Stream.__init__` raises is the exception of a thread that has ended.
IsTold : Exn → Threads → Type 0
IsTold x s = constructed s ≡ some (err x) → s.phase ≡ ended

phase_of-ended :
    (p : Phase)
    → p ≡ ended
    → (is_connecting p ≡ false)
      × (is_opened p ≡ false)
      × (is_serving p ≡ false)
      × (failing_of p ≡ none)
      × (is_running p ≡ false)
phase_of-ended p e = ground (arith, e)

move-IsTold : (y : Exn) (x : Move) (s u : Threads) → move x s ≡ some u → IsTold y s → IsTold y u
unfolding move constructed IsTold begin answer put_call enter schedule open_queues fail_to_open
    get_ready start_task run_task send_next receive_next begin_disconnect end_loop ask start_get
    get_next fail_next stop_loop
move-IsTold y (begins who m) s u e h = λ c. ground (arith, e, h, c, phase_of-ended s.phase)
move-IsTold y (answers who m) s u e h = λ c. ground (arith, e, h, c, phase_of-ended s.phase)
move-IsTold y (puts who) s u e h = λ c. ground (arith, e, h, c, phase_of-ended s.phase)
move-IsTold y (enters who) s u e h = λ c. ground (arith, e, h, c, phase_of-ended s.phase)
move-IsTold y (schedules who) s u e h = λ c. ground (arith, e, h, c, phase_of-ended s.phase)
move-IsTold y shuts s u e h = λ c. ground (arith, e, h, c, phase_of-ended s.phase)
move-IsTold y opens s u e h = λ c. ground (arith, e, h, c, phase_of-ended s.phase)
move-IsTold y (fails_to_open x) s u e h = λ c. ground (arith, e, h, c, phase_of-ended s.phase)
move-IsTold y readies s u e h = λ c. ground (arith, e, h, c, phase_of-ended s.phase)
move-IsTold y starts_task s u e h = λ c. ground (arith, e, h, c, phase_of-ended s.phase)
move-IsTold y runs_task s u e h = λ c. ground (arith, e, h, c, phase_of-ended s.phase)
move-IsTold y sends_next s u e h = λ c. ground (arith, e, h, c, phase_of-ended s.phase)
move-IsTold y (receives m) s u e h = λ c. ground (arith, e, h, c, phase_of-ended s.phase)
move-IsTold y disconnects s u e h = λ c. ground (arith, e, h, c, phase_of-ended s.phase)
move-IsTold y fails_next s u e h = λ c. ground (arith, e, h, c, phase_of-ended s.phase)
move-IsTold y ends s u e h = λ c. ground (arith, e, h, c, phase_of-ended s.phase)
move-IsTold y asks s u e h = λ c. ground (arith, e, h, c, phase_of-ended s.phase)
move-IsTold y starts_get s u e h = λ c. ground (arith, e, h, c, phase_of-ended s.phase)
move-IsTold y (gets_next k) s u e h = λ c. ground (arith, e, h, c, phase_of-ended s.phase)

-- The exception was told, and the thread has ended.
IsRefused : Exn → Threads → Type 0
IsRefused x s = (constructed s ≡ some (err x)) × (s.phase ≡ ended)

move-IsRefused :
    (y : Exn) (x : Move) (s u : Threads) → move x s ≡ some u → IsRefused y s → IsRefused y u
unfolding move constructed IsRefused begin answer put_call enter schedule open_queues fail_to_open
    get_ready start_task run_task send_next receive_next begin_disconnect end_loop ask start_get
    get_next fail_next stop_loop
move-IsRefused y (begins who m) s u e h = ground (arith, e, h, phase_of-ended s.phase h.1)
move-IsRefused y (answers who m) s u e h = ground (arith, e, h, phase_of-ended s.phase h.1)
move-IsRefused y (puts who) s u e h = ground (arith, e, h, phase_of-ended s.phase h.1)
move-IsRefused y (enters who) s u e h = ground (arith, e, h, phase_of-ended s.phase h.1)
move-IsRefused y (schedules who) s u e h = ground (arith, e, h, phase_of-ended s.phase h.1)
move-IsRefused y shuts s u e h = ground (arith, e, h, phase_of-ended s.phase h.1)
move-IsRefused y opens s u e h = ground (arith, e, h, phase_of-ended s.phase h.1)
move-IsRefused y (fails_to_open x) s u e h = ground (arith, e, h, phase_of-ended s.phase h.1)
move-IsRefused y readies s u e h = ground (arith, e, h, phase_of-ended s.phase h.1)
move-IsRefused y starts_task s u e h = ground (arith, e, h, phase_of-ended s.phase h.1)
move-IsRefused y runs_task s u e h = ground (arith, e, h, phase_of-ended s.phase h.1)
move-IsRefused y sends_next s u e h = ground (arith, e, h, phase_of-ended s.phase h.1)
move-IsRefused y (receives m) s u e h = ground (arith, e, h, phase_of-ended s.phase h.1)
move-IsRefused y disconnects s u e h = ground (arith, e, h, phase_of-ended s.phase h.1)
move-IsRefused y fails_next s u e h = ground (arith, e, h, phase_of-ended s.phase h.1)
move-IsRefused y ends s u e h = ground (arith, e, h, phase_of-ended s.phase h.1)
move-IsRefused y asks s u e h = ground (arith, e, h, phase_of-ended s.phase h.1)
move-IsRefused y starts_get s u e h = ground (arith, e, h, phase_of-ended s.phase h.1)
move-IsRefused y (gets_next k) s u e h = ground (arith, e, h, phase_of-ended s.phase h.1)

init-IsTold : (x : Exn) → IsTold x init
unfolding IsTold constructed
init-IsTold x e = cc

-- Where the constructor raises an exception in a state that the threads reach, the thread of the event
-- loop has ended; after any further moves it has still ended, and the exception is the same.
pub run-constructed :
    (before xs : List Move) (x : Exn) (s u : Threads)
    → run before init ≡ some s
    → constructed s ≡ some (err x)
    → run xs s ≡ some u
    → (constructed u ≡ some (err x)) × (s.phase ≡ ended) × (u.phase ≡ ended)
unfolding IsTold IsRefused
run-constructed before xs x s u reached told e =
    let over = run-keeps (IsTold x) (move-IsTold x) before init s reached (init-IsTold x) told in
    let (still, now) = run-keeps (IsRefused x) (move-IsRefused x) xs s u e (told, over) in
    (still, over, now)
