-- ===== src/Messaging/Stream/Threads/Calls.antt =====
-- A send that nothing divides, and how long its future waits.
use sci_ledger_sawtooth.Prelude.{
  ℕ, ◌≡◌, refl, inl, inr, Bool, true, false, none, some, List, [], ◌∷◌, arith, Bool-cases,
  Option-cases, All, ◌++◌,
}
use sci_ledger_sawtooth.Dict.{get}
use sci_ledger_sawtooth.Messaging.{ValidatorMessage}
use sci_ledger_sawtooth.Messaging.Stream.{put_future}
use sci_ledger_sawtooth.Messaging.Stream.Threads.{
  Threads, made, entering, admitted, serving, Move, begins, answers, puts, enters, schedules, shuts,
  opens, fails_to_open, readies, starts_task, runs_task, sends_next, receives, disconnects,
  fails_next, ends, init, asks, starts_get, gets_next,
}
use sci_ledger_sawtooth.Messaging.Stream.Threads.Clients.{
  begin, answer, put_call, enter, schedule, ask,
}
use sci_ledger_sawtooth.Messaging.Stream.Threads.EventLoop.{
  receive_next, open_queues, fail_to_open, get_ready, start_task, run_task, send_next,
  begin_disconnect, end_loop, start_get, get_next,
}
use sci_ledger_sawtooth.Messaging.Stream.Threads.Moves.{move, run}
use sci_ledger_sawtooth.Messaging.Stream.Threads.Reach.{move-IsSafe, run-IsSafe}
use sci_ledger_sawtooth.Messaging.Stream.Threads.Sending.{begin_cases}
use sci_ledger_sawtooth.Messaging.Stream.Threads.Serving.{receive_cases, receive_next-eq}
use sci_ledger_sawtooth.Dict.{put, remove, get-put, has_key, get-remove}
use sci_ledger_sawtooth.Text.{Text, text_eq, text_eq_iff}
use sci_ledger_sawtooth.Prelude.{ℕ}
use sci_ledger_sawtooth.Text.{Bytes}
use sci_ledger_sawtooth.Messaging.{future_result}
use sci_ledger_sawtooth.Messaging.Stream.{send_message, put_message}
use sci_ledger_sawtooth.Messaging.Stream.Threads.Safe.{IsSafe, response}

-- The moves that may resolve the future id: a round of a disconnect, and a message with its id.
unfoldable pub may_resolve : Text → Move → Bool
may_resolve id (receives m) = text_eq m.correlation_id id
may_resolve id fails_next = true
may_resolve id x = false

-- The results of the futures are as they were.
abbrev Settled : Threads → Threads → Type 0
Settled s u = u.conn.results ≡ s.conn.results

abbrev pub IsUnresolved : Text → Threads → Type 0
IsUnresolved id s = get s.conn.results id ≡ some none

begin-IsUnresolved :
    (who : Text) (m : ValidatorMessage) (id : Text) (s u : Threads)
    → begin who m s ≡ some u
    → IsUnresolved id s
    → IsUnresolved id u
begin-IsUnresolved who m id s u e h = elim (begin_cases who m s u e) [
  | inl same ↦ rw (same) h
  | inr (free, fresh, new) ↦ ground (arith, new, h, get-put s.conn.results m.correlation_id id none)
]

receive-IsUnresolved :
    (m : ValidatorMessage) (id : Text) (s u : Threads)
    → receive_next m s ≡ some u
    → text_eq m.correlation_id id ≡ false
    → IsSafe s
    → IsUnresolved id s
    → IsUnresolved id u
receive-IsUnresolved m id s u e other safe h =
    let new = receive_next-eq m s u e in
    elim (receive_cases m s.conn) [
      | inl (f, g, c) ↦
          let same = safe.keyed m.correlation_id f g in
          let reply = future_result m.message_type m.content in
          ground (arith, new, c, other, h, same, get-put s.conn.results f id (some reply))
      | inr (g, c) ↦ elim (Bool-cases (s.conn.ready)) [
        | inl y ↦ ground (arith, new, c, y, h)
        | inr n ↦ ground (arith, new, c, n, h)
      ]
    ]

Settled-IsUnresolved :
    (id : Text) (s u : Threads) → Settled s u → IsUnresolved id s → IsUnresolved id u
Settled-IsUnresolved id s u e h = rw (e) h

move-IsUnresolved :
    (x : Move) (id : Text) (s u : Threads)
    → may_resolve id x ≡ false
    → move x s ≡ some u
    → IsSafe s
    → IsUnresolved id s
    → IsUnresolved id u
unfolding move answer put_call enter schedule open_queues fail_to_open get_ready start_task run_task
    send_next begin_disconnect end_loop ask start_get get_next put_future may_resolve
move-IsUnresolved (begins who m) id s u o e safe h = begin-IsUnresolved who m id s u e h
move-IsUnresolved (receives m) id s u o e safe h = receive-IsUnresolved m id s u e o safe h
move-IsUnresolved fails_next id s u o e safe h = cc
move-IsUnresolved shuts id s u o e safe h = ground (arith, e, h)
move-IsUnresolved (answers who m) id s u o e safe h =
    Settled-IsUnresolved id s u (ground (arith, e)) h
move-IsUnresolved (puts who) id s u o e safe h = Settled-IsUnresolved id s u (ground (arith, e)) h
move-IsUnresolved (enters who) id s u o e safe h = Settled-IsUnresolved id s u (ground (arith, e)) h
move-IsUnresolved (schedules who) id s u o e safe h =
    Settled-IsUnresolved id s u (ground (arith, e)) h
move-IsUnresolved opens id s u o e safe h = Settled-IsUnresolved id s u (ground (arith, e)) h
move-IsUnresolved (fails_to_open x) id s u o e safe h =
    Settled-IsUnresolved id s u (ground (arith, e)) h
move-IsUnresolved readies id s u o e safe h = Settled-IsUnresolved id s u (ground (arith, e)) h
move-IsUnresolved starts_task id s u o e safe h = Settled-IsUnresolved id s u (ground (arith, e)) h
move-IsUnresolved runs_task id s u o e safe h = Settled-IsUnresolved id s u (ground (arith, e)) h
move-IsUnresolved sends_next id s u o e safe h = Settled-IsUnresolved id s u (ground (arith, e)) h
move-IsUnresolved disconnects id s u o e safe h = Settled-IsUnresolved id s u (ground (arith, e)) h
move-IsUnresolved ends id s u o e safe h = Settled-IsUnresolved id s u (ground (arith, e)) h
move-IsUnresolved asks id s u o e safe h = Settled-IsUnresolved id s u (ground (arith, e)) h
move-IsUnresolved starts_get id s u o e safe h = Settled-IsUnresolved id s u (ground (arith, e)) h
move-IsUnresolved (gets_next k) id s u o e safe h =
    Settled-IsUnresolved id s u (ground (arith, e)) h

run_from :
    (xs : List Move) (id : Text) (s u : Threads)
    → IsSafe s
    → IsUnresolved id s
    → All (λ x. may_resolve id x ≡ false) xs
    → run xs s ≡ some u
    → IsUnresolved id u
unfolding run
run_from [] id s u safe h quiet e = let same : u ≡ s = ground (arith, e) in rw (same) h
run_from (x ∷ xs) id s u safe h quiet e = elim (Option-cases (move x s)) [
  | inl g ↦ absurd (ground (arith, g, e))
  | inr (v, g) ↦
      run_from xs id v u (move-IsSafe x s v g safe) (move-IsUnresolved x id s v quiet.0 g safe h)
        quiet.1 (ground (arith, g, e))
]

-- The moves of one send, and of the loop thread with its message.
abbrev pub sending : Text → ValidatorMessage → List Move
sending who m = begins who m ∷ puts who ∷ enters who ∷ schedules who ∷ starts_task ∷ runs_task ∷ []

-- In a state that the threads reach, a future without a result has none after any further moves, so
-- long as no message with its id is received and no round of a disconnect is among them.
pub run-IsUnresolved :
    (before xs : List Move) (id : Text) (s u : Threads)
    → run before init ≡ some s
    → IsUnresolved id s
    → All (λ x. may_resolve id x ≡ false) xs
    → run xs s ≡ some u
    → IsUnresolved id u
run-IsUnresolved before xs id s u reached h quiet e =
    run_from xs id s u (run-IsSafe before s reached) h quiet e

-- Where the stream is serving and idle, the moves of one send that nothing divides are all possible, and
-- do to the connection what `send_message` does; the thread is then free, and the loop has no task left.
pub run-send_message :
    (who id : Text) (t : ℕ) (b : Bytes) (s : Threads)
    → s.phase ≡ serving
    → s.conn.ready ≡ true
    → s.has_queues ≡ true
    → s.scheduled ≡ []
    → s.tasks ≡ []
    → get s.calls who ≡ none
    → get s.conn.results id ≡ none
    → (u : Threads) × (run (sending who (response id t b)) s ≡ some u)
      × (u.conn ≡ (send_message id t b s.conn).1)
      × (get u.calls who ≡ none)
      × (u.scheduled ≡ [])
      × (u.tasks ≡ [])
      × (u.log ≡ s.log ++ (response id t b ∷ []))
unfolding run move begin put_call enter schedule start_task run_task put_future send_message
    put_message has_key
run-send_message who id t b s p ready queues none_scheduled none_running free fresh =
    let m = response id t b in
    let c1 = put s.calls who (made m) in
    let c2 = put c1 who (entering m) in
    let c3 = put c2 who (admitted m) in
    let here = text_eq_iff who who in
    let g1 : get c1 who ≡ some (made m) = ground (arith, here, get-put s.calls who who (made m)) in
    let g2 : get c2 who ≡ some (entering m) =
      ground (arith, here, get-put c1 who who (entering m)) in
    let g3 : get c3 who ≡ some (admitted m) =
      ground (arith, here, get-put c2 who who (admitted m)) in
    (
      record s {
        conn = record s.conn {
          results = put s.conn.results id none;
          futures = put s.conn.futures id id;
          send_queue = s.conn.send_queue ++ (m ∷ []);
        };
        calls = remove c3 who;
        scheduled = [];
        tasks = [];
        log = s.log ++ (m ∷ []);
      },
      ground (arith, p, ready, queues, none_scheduled, none_running, free, fresh, g1, g2, g3),
      ground (arith, ready),
      ground (arith, here, get-remove c3 who who),
      refl,
      refl,
      refl,
    )
