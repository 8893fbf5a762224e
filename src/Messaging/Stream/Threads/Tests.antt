-- ===== src/Messaging/Stream/Threads/Tests.antt =====
-- The theorems on the threads of the stream at runs with one send.
use sci_ledger_sawtooth.Prelude.{ℕ, ◌≡◌, refl, true, false, some, none, [], ◌∷◌, List}
use mathlib.Core.List.{Sublist}
use sci_ledger_sawtooth.Text.{codes, text_eq}
use sci_ledger_sawtooth.Dict.{get, put, remove, has_key}
use sci_ledger_sawtooth.Messaging.{ValidatorMessage, future_error}
use sci_ledger_sawtooth.Messaging.Stream.{reconnect, disconnect, put_future}
use sci_ledger_sawtooth.Messaging.Stream.Threads.{
  Threads, begins, made, entering, serving, broken, Move, puts, enters, opens, readies, disconnects,
  fails_next, init, sends_next, asks, starts_get, gets_next, receives, init, opens, readies,
}
use sci_ledger_sawtooth.Messaging.Stream.Threads.Clients.{begin, put_call, enter, schedule, ask}
use sci_ledger_sawtooth.Messaging.Stream.Threads.EventLoop.{
  send_next, start_task, run_task, begin_disconnect, fail_next, open_queues, get_ready, start_get,
  get_next, take_at, receive_next,
}
use sci_ledger_sawtooth.Messaging.Stream.Threads.Moves.{run, move}
use sci_ledger_sawtooth.Messaging.Stream.Threads.Safe.{IsSafe, response}
use sci_ledger_sawtooth.Messaging.Stream.Threads.Reach.{run-IsSafe}
use sci_ledger_sawtooth.Messaging.Stream.Threads.Broken.{overlap-IsDead, IsDead}
use sci_ledger_sawtooth.Messaging.Stream.Threads.Recovery.{
  recovery, recovery-reconnect, recovery-put_message,
}
use sci_ledger_sawtooth.Messaging.{arrived}
use sci_ledger_sawtooth.Messaging.Stream.{receive_message, set_result, get_future, queue_message}
use mathlib.Core.List.{Perm}
use sci_ledger_sawtooth.Messaging.Stream.Threads.Handing.{run-received}
use sci_ledger_sawtooth.Messaging.Stream.Threads.Order.{run-Sublist}
use sci_ledger_sawtooth.Messaging.Stream.Threads.Calls.{
  may_resolve, IsUnresolved, run-IsUnresolved, sending,
}

abbrev message : ValidatorMessage
message = response (codes "r1") 7 []

abbrev idle : Threads
idle = record init {
  conn = record { ready = true; results = []; futures = []; send_queue = []; recv_queue = [] };
  phase = serving;
  has_queues = true;
  sending = true;
  receiving = true;
  errors = none ∷ [];
}

abbrev began : Threads
began = record idle {
  conn = record {
    ready = true;
    results = (codes "r1", none) ∷ [];
    futures = [];
    send_queue = [];
    recv_queue = [];
  };
  calls = (codes "a", made message) ∷ [];
}

abbrev waiting : Threads
waiting = record idle {
  conn = record {
    ready = true;
    results = (codes "r1", none) ∷ [];
    futures = (codes "r1", codes "r1") ∷ [];
    send_queue = message ∷ [];
    recv_queue = [];
  };
  log = message ∷ [];
}

abbrev to_waiting : List Move
to_waiting = opens ∷ readies ∷ sending (codes "a") message

to_waiting_lem : run to_waiting init ≡ some waiting
unfolding run move open_queues get_ready begin put_call enter has_key get put remove put_future
    schedule start_task run_task text_eq
to_waiting_lem = refl

run-IsSafe_example : IsSafe waiting
run-IsSafe_example = run-IsSafe to_waiting waiting to_waiting_lem

run-Sublist_example : Sublist (message ∷ []) (message ∷ [])
run-Sublist_example = run-Sublist to_waiting waiting to_waiting_lem

run-IsUnresolved_example :
    IsUnresolved
      (codes "r1")
      (record waiting { conn = record waiting.conn { send_queue = [] }; sent = message ∷ [] })
unfolding run move send_next get text_eq may_resolve
run-IsUnresolved_example =
    run-IsUnresolved to_waiting (sends_next ∷ []) (codes "r1") waiting _ to_waiting_lem refl
      (refl, tt) refl

abbrev overlapped : Threads
overlapped = record began {
  conn = record began.conn { ready = false; futures = (codes "r1", codes "r1") ∷ [] };
  phase = broken;
  calls = (codes "a", entering message) ∷ [];
}

overlap-IsDead_example :
    ((u : Threads) × (run (disconnects ∷ puts (codes "a") ∷ fails_next ∷ []) began ≡ some u)
      × (u.phase ≡ broken))
    × IsDead overlapped
unfolding run move begin_disconnect put_call put_future put get text_eq fail_next
overlap-IsDead_example = overlap-IsDead (codes "a") message began overlapped [] refl refl refl refl

recovery-reconnect_example :
    (u : Threads) × (run (recovery waiting (opens ∷ readies ∷ [])) waiting ≡ some u)
    × (u.conn ≡ reconnect (disconnect waiting.conn))
    × (u.phase ≡ serving)
    × (get u.conn.results (codes "r1") ≡ some (some future_error))
unfolding get text_eq
recovery-reconnect_example = recovery-reconnect waiting (codes "r1") (codes "r1") refl refl refl

recovery-put_message_example :
    (u : Threads) × (run
        (recovery began (puts (codes "a") ∷ enters (codes "a") ∷ opens ∷ readies ∷ []))
        began
      ≡ some u)
    × (u.phase ≡ serving)
    × (u.conn.ready ≡ true)
    × (get u.calls (codes "a") ≡ none)
    × (get u.conn.futures (codes "r1") ≡ some (codes "r1"))
    × (get u.conn.results (codes "r1") ≡ some none)
    × (u.conn.send_queue ≡ [])
    × (u.tasks ≡ [])
    × (u.scheduled ≡ [])
    × (u.sent ≡ [])
unfolding get text_eq
recovery-put_message_example =
    recovery-put_message (codes "a") message began refl refl refl refl refl tt

-- A message that is no response.
abbrev request : ValidatorMessage
request = response (codes "q1") 5 []

abbrev asked_twice : Threads
asked_twice = record idle {
  got = (1, some (arrived request)) ∷ [];
  getting = 0 ∷ [];
  asked = 2 ∷ [];
  next_get = 3;
  inbox = request ∷ [];
}

abbrev to_asked_twice : List Move
to_asked_twice =
    opens
    ∷ readies
    ∷ asks
    ∷ asks
    ∷ starts_get
    ∷ starts_get
    ∷ receives request
    ∷ gets_next 1
    ∷ asks
    ∷ []

to_asked_twice_lem : run to_asked_twice init ≡ some asked_twice
unfolding run move open_queues get_ready ask start_get receive_next get_next take_at get
    receive_message set_result get_future queue_message
to_asked_twice_lem = refl

run-received_example :
    Perm {A = ℕ} (1 ∷ 0 ∷ 2 ∷ []) (0 ∷ 1 ∷ 2 ∷ []) × Sublist (request ∷ []) (request ∷ [])
run-received_example = run-received to_asked_twice asked_twice to_asked_twice_lem

-- The state in which a future is made is reached.
to_began_lem : run (opens ∷ readies ∷ begins (codes "a") message ∷ []) init ≡ some began
unfolding run move open_queues get_ready begin has_key get put
to_began_lem = refl
