-- ===== src/Messaging/Stream/Threads/Clients.antt =====
-- What the moves of the threads that call the stream do, in sawtooth_sdk/messaging/stream.py; `none`
-- where the thread is not there, or waits.
use sci_ledger_sawtooth.Prelude.{suc, not, Option, none, some, [], ◌∷◌, ◌++◌, if◌then◌else◌, ◌||◌}
use sci_ledger_sawtooth.Text.{Text}
use sci_ledger_sawtooth.Dict.{get, put, remove, has_key}
use sci_ledger_sawtooth.Messaging.{ValidatorMessage}
use sci_ledger_sawtooth.Messaging.Stream.{put_future}
use sci_ledger_sawtooth.Messaging.Stream.Threads.{Threads, Call, made, entering, admitted}

abbrev pub made_of : Option Call → Option ValidatorMessage
made_of (some (made m)) = some m
made_of _ = none

abbrev pub entering_of : Option Call → Option ValidatorMessage
entering_of (some (entering m)) = some m
entering_of _ = none

abbrev pub admitted_of : Option Call → Option ValidatorMessage
admitted_of (some (admitted m)) = some m
admitted_of _ = none

-- `Stream.send` up to the new future; it raises where the stream is not ready
unfoldable pub begin : Text → ValidatorMessage → Threads → Option Threads
begin who m s =
    if not s.conn.ready
    then some s
    else if has_key s.calls who || has_key s.conn.results m.correlation_id
    then none
    else some (record s {
      conn = record s.conn { results = put s.conn.results m.correlation_id none };
      calls = put s.calls who (made m);
    })

-- `Stream.send_back` up to `put_message`
unfoldable pub answer : Text → ValidatorMessage → Threads → Option Threads
answer who m s =
    if not s.conn.ready
    then some s
    else if has_key s.calls who
    then none
    else some (record s { calls = put s.calls who (entering m) })

-- `self._futures.put(future)`
unfoldable pub put_call : Text → Threads → Option Threads
put_call who s = elim (made_of (get s.calls who)) [
  | none ↦ none
  | some m ↦ some (record s {
    conn = (put_future m.correlation_id s.conn).1;
    calls = put s.calls who (entering m);
  })
]

-- `if not self._ready_event.is_set(): return` of `put_message`
unfoldable pub enter : Text → Threads → Option Threads
enter who s = elim (entering_of (get s.calls who)) [
  | none ↦ none
  | some m ↦ some (
      if not s.conn.ready
      then record s { calls = remove s.calls who }
      else record s { calls = put s.calls who (admitted m) })
]

-- the rest of `put_message`, which waits for the queue
unfoldable pub schedule : Text → Threads → Option Threads
schedule who s = elim (admitted_of (get s.calls who)) [
  | none ↦ none
  | some m ↦
      if s.has_queues
      then some (record s {
        calls = remove s.calls who;
        scheduled = s.scheduled ++ (m ∷ []);
        log = s.log ++ (m ∷ []);
      })
      else none
]

-- `Stream.receive` and `get_message`
unfoldable pub ask : Threads → Option Threads
ask s = some (record s { asked = s.asked ++ (s.next_get ∷ []); next_get = suc s.next_get })
