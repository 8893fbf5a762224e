-- ===== src/Messaging/Stream/Threads/EventLoop.antt =====
-- What the moves of the thread of the event loop do, in sawtooth_sdk/messaging/stream.py; `none` where
-- the thread is not there, or waits.
use sci_ledger_sawtooth.Prelude.{
  zero, suc, map, split_first, ℕ, Bool, true, false, Option, none, some, List, [], ◌∷◌, ◌++◌,
  if◌then◌else◌, ◌&&◌, length, ◌==◌,
}
use sci_ledger_sawtooth.Text.{Text}
use sci_ledger_sawtooth.Dict.{Dict, put}
use sci_ledger_sawtooth.Errors.{Exn}
use sci_ledger_sawtooth.Messaging.{ValidatorMessage, future_error, reconnect_event}
use sci_ledger_sawtooth.Messaging.Stream.{receive_message}
use sci_ledger_sawtooth.Messaging.Stream.Threads.{
  Threads, Phase, connecting, opened, serving, failing, broken, ended,
}

abbrev pub is_connecting : Phase → Bool
is_connecting connecting = true
is_connecting _ = false

abbrev pub is_opened : Phase → Bool
is_opened opened = true
is_opened _ = false

abbrev pub is_serving : Phase → Bool
is_serving serving = true
is_serving _ = false

-- the event loop takes up tasks
abbrev pub is_running : Phase → Bool
is_running serving = true
is_running broken = true
is_running _ = false

abbrev pub failing_of : Phase → Option (Dict Text × ℕ)
failing_of (failing rest size) = some (rest, size)
failing_of _ = none

-- `run` up to the three coroutines
unfoldable pub open_queues : Threads → Option Threads
open_queues s =
    if is_connecting s.phase
    then some (record s {
      conn = record s.conn {
        send_queue = [];
        recv_queue = if s.first_time then [] else reconnect_event ∷ [];
      };
      phase = opened;
      has_queues = true;
      sending = true;
      receiving = true;
    })
    else none

-- `except Exception` of `run`, for an exception before the queues are made
unfoldable pub fail_to_open : Exn → Threads → Option Threads
fail_to_open e s =
    if is_connecting s.phase
    then some (record s { phase = ended; errors = s.errors ++ (some e ∷ []) })
    else none

-- `put_nowait(_NO_ERROR)` and `self._ready_event.set()` of `run`
unfoldable pub get_ready : Threads → Option Threads
get_ready s =
    if is_opened s.phase
    then some (record s {
      conn = record s.conn { ready = true };
      phase = serving;
      errors = s.errors ++ (none ∷ []);
    })
    else none

-- the event loop makes a task of what was scheduled first
unfoldable pub start_task : Threads → Option Threads
start_task s =
    if is_running s.phase
    then elim (split_first s.scheduled) [
      | none ↦ none
      | some (m, rest) ↦ some (record s { scheduled = rest; tasks = s.tasks ++ (m ∷ []) })
    ]
    else none

-- `_put_message`
unfoldable pub run_task : Threads → Option Threads
run_task s =
    if is_running s.phase
    then elim (split_first s.tasks) [
      | none ↦ none
      | some (m, rest) ↦ some (record s {
        tasks = rest;
        conn = record s.conn { send_queue = s.conn.send_queue ++ (m ∷ []) };
      })
    ]
    else none

-- one round of `_send_message`, with the test that begins the next
unfoldable pub send_next : Threads → Option Threads
send_next s =
    if is_running s.phase && s.sending
    then elim (split_first s.conn.send_queue) [
      | none ↦ none
      | some (m, rest) ↦ some (record s {
        conn = record s.conn { send_queue = rest };
        sent = s.sent ++ (m ∷ []);
        sending = s.conn.ready;
      })
    ]
    else none

-- one round of `_receive_message`, with the test that begins the next
unfoldable pub receive_next : ValidatorMessage → Threads → Option Threads
receive_next m s =
    if is_running s.phase && s.receiving
    then some (record s {
      conn = (receive_message m s.conn).1;
      inbox = s.inbox ++ (m ∷ []);
      receiving = s.conn.ready;
    })
    else none

-- `_monitor_disconnects` up to the loop over the futures
unfoldable pub begin_disconnect : Threads → Option Threads
begin_disconnect s =
    if is_serving s.phase
    then some (record s {
      conn = record s.conn { ready = false };
      phase = failing s.conn.futures (length s.conn.futures);
    })
    else none

-- the end of `_monitor_disconnects`: the tasks are cancelled and the event loop stops
unfoldable pub stop_loop : Threads → Threads
stop_loop s = record s {
  conn = record s.conn { send_queue = []; recv_queue = [] };
  phase = if s.shutdown then ended else connecting;
  first_time = false;
  has_queues = false;
  sending = false;
  receiving = false;
  tasks = [];
  getting = [];
  got = s.got ++ map (λ n. (n, none)) s.getting;
}

-- one round of the loop over the futures; the iteration over a live view raises where the size of the
-- collection has changed
unfoldable pub fail_next : Threads → Option Threads
fail_next s = elim (failing_of s.phase) [
  | none ↦ none
  | some (rest, size) ↦
      if length s.conn.futures == size
      then elim (split_first rest) [
        | none ↦ some (stop_loop s)
        | some ((id, future), rest') ↦ some (record s {
          conn = record s.conn { results = put s.conn.results future (some future_error) };
          phase = failing rest' size;
        })
      ]
      else some (record s { phase = broken })
]

-- `_cancel_tasks_yet_to_be_done`, `_done_callback` and the end of `run`, after `shutdown`
unfoldable pub end_loop : Threads → Option Threads
end_loop s =
    if is_running s.phase && s.shutdown
    then some (record s {
      phase = ended;
      sending = false;
      receiving = false;
      tasks = [];
      getting = [];
      got = s.got ++ map (λ n. (n, none)) s.getting;
    })
    else none

-- the event loop makes a task of the call of `receive` that was first
unfoldable pub start_get : Threads → Option Threads
start_get s =
    if is_running s.phase
    then elim (split_first s.asked) [
      | none ↦ none
      | some (n, rest) ↦ some (record s { asked = rest; getting = s.getting ++ (n ∷ []) })
    ]
    else none

-- the element at a place, and the others
unfoldable pub take_at {ℓ} : {A : Type ℓ} → ℕ → List A → Option (A × List A)
take_at k [] = none
take_at zero (x ∷ xs) = some (x, xs)
take_at (suc k) (x ∷ xs) = elim (take_at k xs) [ none ↦ none | some (y, ys) ↦ some (y, x ∷ ys) ]

-- `_get_message`: one of the tasks that wait takes the first of the queue
unfoldable pub get_next : ℕ → Threads → Option Threads
get_next k s =
    if is_running s.phase
    then elim (take_at k s.getting) [
      | none ↦ none
      | some (n, rest) ↦ elim (split_first s.conn.recv_queue) [
        | none ↦ none
        | some (event, events) ↦ some (record s {
          conn = record s.conn { recv_queue = events };
          getting = rest;
          got = s.got ++ ((n, some event) ∷ []);
        })
      ]
    ]
    else none
