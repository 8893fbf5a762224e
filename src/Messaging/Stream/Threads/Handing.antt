-- ===== src/Messaging/Stream/Threads/Handing.antt =====
-- The messages that `receive` hands out, in the order in which they came.
use mathlib.Core.List.{Perm, Sublist, Sublistᴰ}
use mathlib.Core.List.Sublistᴰ
use sci_ledger_sawtooth.Prelude.{
  ℕ, ◌≡◌, refl, sym, ap, ◌∙◌, inl, inr, Option, none, some, List, [], ◌∷◌, ◌++◌, arith,
  Option-cases, Bool-cases, map, split_first, split_first-eq, append_assoc, append-nil, length,
  ◌==◌,
}
use sci_ledger_sawtooth.Messaging.{ValidatorMessage, Event, reconnect_event, arrived}
use sci_ledger_sawtooth.Messaging.Stream.{put_future}
use sci_ledger_sawtooth.Messaging.Stream.Threads.{
  Threads, Move, begins, answers, puts, enters, schedules, shuts, opens, fails_to_open, readies,
  starts_task, runs_task, sends_next, receives, disconnects, fails_next, ends, init, asks,
  starts_get, gets_next,
}
use sci_ledger_sawtooth.Messaging.Stream.Threads.Clients.{
  begin, answer, put_call, enter, schedule, ask,
}
use sci_ledger_sawtooth.Messaging.Stream.Threads.EventLoop.{
  receive_next, fail_next, stop_loop, open_queues, fail_to_open, get_ready, start_task, run_task,
  send_next, begin_disconnect, end_loop, start_get, get_next, take_at, failing_of,
}
use sci_ledger_sawtooth.Messaging.Stream.Threads.Moves.{move, run}
use sci_ledger_sawtooth.Messaging.Stream.Threads.Reach.{run-keeps}
use sci_ledger_sawtooth.Messaging.Stream.Threads.Serving.{receive_cases, receive_next-eq}
use sci_ledger_sawtooth.Messaging.Stream.Threads.Receiving.{all_calls, upto, run-Perm}

-- The messages among events, and among what the calls of `receive` have come to.
abbrev pub messages : List Event → List ValidatorMessage
messages [] = []
messages (reconnect_event ∷ events) = messages events
messages (arrived m ∷ events) = m ∷ messages events

abbrev pub handed : List (ℕ × Option Event) → List ValidatorMessage
handed [] = []
handed ((n, none) ∷ done) = handed done
handed ((n, some reconnect_event) ∷ done) = handed done
handed ((n, some (arrived m)) ∷ done) = m ∷ handed done

messages-append : (xs ys : List Event) → messages (xs ++ ys) ≡ messages xs ++ messages ys
messages-append [] ys = refl
messages-append (reconnect_event ∷ xs) ys = messages-append xs ys
messages-append (arrived m ∷ xs) ys = ap (λ l. m ∷ l) (messages-append xs ys)

handed-append : (xs ys : List (ℕ × Option Event)) → handed (xs ++ ys) ≡ handed xs ++ handed ys
handed-append [] ys = refl
handed-append ((n, none) ∷ xs) ys = handed-append xs ys
handed-append ((n, some reconnect_event) ∷ xs) ys = handed-append xs ys
handed-append ((n, some (arrived m)) ∷ xs) ys = ap (λ l. m ∷ l) (handed-append xs ys)

handed-cancelled : (ns : List ℕ) → handed (map (λ n. (n, none)) ns) ≡ []
handed-cancelled [] = refl
handed-cancelled (n ∷ ns) = handed-cancelled ns

-- What was handed out, and then what waits in the queue.
abbrev pub taken_in : Threads → List ValidatorMessage
taken_in s = handed s.got ++ messages s.conn.recv_queue

InTurn : Threads → Type 0
InTurn s = Sublistᴰ (taken_in s) s.inbox

same-InTurn : (s u : Threads) → taken_in u ≡ taken_in s → u.inbox ≡ s.inbox → InTurn s → InTurn u
unfolding InTurn
same-InTurn s u t i h = rw (t, i) h

-- The queue, the calls and the inbox are as they were.
record Leaves (s u : Threads) : Type 0 where
  queue : u.conn.recv_queue ≡ s.conn.recv_queue
  got : u.got ≡ s.got
  inbox : u.inbox ≡ s.inbox

Leaves-InTurn : (s u : Threads) → Leaves s u → InTurn s → InTurn u
Leaves-InTurn s u l h = same-InTurn s u (rw (l.got, l.queue) refl) l.inbox h

-- The queue is emptied of its messages.
dropped-InTurn :
    (s u : Threads)
    → handed u.got ≡ handed s.got
    → messages u.conn.recv_queue ≡ []
    → u.inbox ≡ s.inbox
    → InTurn s
    → InTurn u
unfolding InTurn
dropped-InTurn s u g q i h =
    rw (g, q, i)
      (Sublistᴰ.trans
        (Sublistᴰ.append (Sublistᴰ.refl (handed s.got))
          (Sublistᴰ.nil-sublist (messages s.conn.recv_queue)))
        h)

open_queues-InTurn : (s u : Threads) → open_queues s ≡ some u → InTurn s → InTurn u
unfolding open_queues
open_queues-InTurn s u e h = elim (Bool-cases (s.first_time)) [
  | inl y ↦
      dropped-InTurn s u (ground (arith, y, e)) (ground (arith, y, e)) (ground (arith, y, e)) h
  | inr n ↦
      dropped-InTurn s u (ground (arith, n, e)) (ground (arith, n, e)) (ground (arith, n, e)) h
]

cancelled-handed :
    (s u : Threads) → u.got ≡ s.got ++ map (λ n. (n, none)) s.getting → handed u.got ≡ handed s.got
cancelled-handed s u g =
    rw (g, handed-append s.got (map (λ n. (n, none)) s.getting), handed-cancelled s.getting)
      (append-nil (handed s.got))

end_loop-InTurn : (s u : Threads) → end_loop s ≡ some u → InTurn s → InTurn u
unfolding end_loop
end_loop-InTurn s u e h =
    let queue : u.conn.recv_queue ≡ s.conn.recv_queue = ground (arith, e) in
    let got = cancelled-handed s u (ground (arith, e)) in
    same-InTurn s u (rw (got, queue) refl) (ground (arith, e)) h

fail_next-InTurn : (s u : Threads) → fail_next s ≡ some u → InTurn s → InTurn u
unfolding fail_next stop_loop
fail_next-InTurn s u e h = elim (Option-cases (failing_of s.phase)) [
  | inl g ↦ absurd (ground (arith, g, e))
  | inr ((rest, size), g) ↦ elim (Bool-cases (length s.conn.futures == size)) [
    | inr n ↦ Leaves-InTurn s u (ground (arith, g, n, e)) h
    | inl y ↦ elim (Option-cases (split_first rest)) [
      | inl z ↦
          let got = cancelled-handed s u (ground (arith, g, y, z, e)) in
          dropped-InTurn s u got (ground (arith, g, y, z, e)) (ground (arith, g, y, z, e)) h
      | inr (((id, f), rest'), z) ↦ Leaves-InTurn s u (ground (arith, g, y, z, e)) h
    ]
  ]
]

-- A message that is not queued.
passed-InTurn :
    (m : ValidatorMessage) (s u : Threads)
    → u.got ≡ s.got
    → u.conn.recv_queue ≡ s.conn.recv_queue
    → u.inbox ≡ s.inbox ++ (m ∷ [])
    → InTurn s
    → InTurn u
unfolding InTurn
passed-InTurn m s u g q i h =
    rw (g, q, i, sym (append-nil (handed s.got ++ messages s.conn.recv_queue)))
      (Sublistᴰ.append h (Sublistᴰ.nil-sublist (m ∷ [])))

receive_next-InTurn :
    (m : ValidatorMessage) (s u : Threads) → receive_next m s ≡ some u → InTurn s → InTurn u
unfolding InTurn
receive_next-InTurn m s u e h =
    let new = receive_next-eq m s u e in
    let got : u.got ≡ s.got = ground (arith, new) in
    let inbox : u.inbox ≡ s.inbox ++ (m ∷ []) = ground (arith, new) in
    elim (receive_cases m s.conn) [
      | inl (f, g, c) ↦ passed-InTurn m s u got (ground (arith, new, c)) inbox h
      | inr (g, c) ↦ elim (Bool-cases (s.conn.ready)) [
        | inr n ↦ passed-InTurn m s u got (ground (arith, new, c, n)) inbox h
        | inl y ↦
            let queue : u.conn.recv_queue ≡ s.conn.recv_queue ++ (arrived m ∷ []) =
              ground (arith, new, c, y) in
            rw
              (
                got,
                queue,
                inbox,
                messages-append s.conn.recv_queue (arrived m ∷ []),
                sym (append_assoc (handed s.got) (messages s.conn.recv_queue) (m ∷ [])),
              )
              (Sublistᴰ.append h (Sublistᴰ.refl (m ∷ [])))
      ]
    ]

-- The first event of the queue is the last that was handed out.
first_event :
    (done : List (ℕ × Option Event)) (n : ℕ) (event : Event) (events : List Event)
    → handed (done ++ ((n, some event) ∷ [])) ++ messages events
      ≡ handed done ++ messages (event ∷ events)
first_event done n reconnect_event events =
    rw (handed-append done ((n, some reconnect_event) ∷ []), append-nil (handed done)) refl
first_event done n (arrived m) events =
    rw (handed-append done ((n, some (arrived m)) ∷ []))
      (append_assoc (handed done) (m ∷ []) (messages events))

get_next-InTurn : (k : ℕ) (s u : Threads) → get_next k s ≡ some u → InTurn s → InTurn u
unfolding get_next
get_next-InTurn k s u e h = elim (Option-cases (take_at k s.getting)) [
  | inl g ↦ absurd (ground (arith, g, e))
  | inr ((n, rest), g) ↦ elim (Option-cases (split_first s.conn.recv_queue)) [
    | inl q ↦ absurd (ground (arith, g, q, e))
    | inr ((event, events), q) ↦
        let here = split_first-eq s.conn.recv_queue event events q in
        let way : taken_in u ≡ handed (s.got ++ ((n, some event) ∷ [])) ++ messages events =
          ground (arith, g, q, e) in
        same-InTurn s u (way ∙ rw (here) (first_event s.got n event events))
          (ground (arith, g, q, e)) h
  ]
]

move-InTurn : (x : Move) (s u : Threads) → move x s ≡ some u → InTurn s → InTurn u
unfolding move begin answer put_call enter schedule ask fail_to_open get_ready start_task run_task
    send_next begin_disconnect start_get put_future
move-InTurn (begins who m) s u e h = Leaves-InTurn s u (ground (arith, e)) h
move-InTurn (answers who m) s u e h = Leaves-InTurn s u (ground (arith, e)) h
move-InTurn (puts who) s u e h = Leaves-InTurn s u (ground (arith, e)) h
move-InTurn (enters who) s u e h = Leaves-InTurn s u (ground (arith, e)) h
move-InTurn (schedules who) s u e h = Leaves-InTurn s u (ground (arith, e)) h
move-InTurn shuts s u e h = Leaves-InTurn s u (ground (arith, e)) h
move-InTurn (fails_to_open x) s u e h = Leaves-InTurn s u (ground (arith, e)) h
move-InTurn readies s u e h = Leaves-InTurn s u (ground (arith, e)) h
move-InTurn starts_task s u e h = Leaves-InTurn s u (ground (arith, e)) h
move-InTurn runs_task s u e h = Leaves-InTurn s u (ground (arith, e)) h
move-InTurn sends_next s u e h = Leaves-InTurn s u (ground (arith, e)) h
move-InTurn disconnects s u e h = Leaves-InTurn s u (ground (arith, e)) h
move-InTurn asks s u e h = Leaves-InTurn s u (ground (arith, e)) h
move-InTurn starts_get s u e h = Leaves-InTurn s u (ground (arith, e)) h
move-InTurn opens s u e h = open_queues-InTurn s u e h
move-InTurn (receives m) s u e h = receive_next-InTurn m s u e h
move-InTurn fails_next s u e h = fail_next-InTurn s u e h
move-InTurn ends s u e h = end_loop-InTurn s u e h
move-InTurn (gets_next k) s u e h = get_next-InTurn k s u e h

init-InTurn : InTurn init
unfolding InTurn
init-InTurn = Sublistᴰ.slnil

-- In every state that the threads reach, each call of `receive` that was made is either done, with what
-- was received or cancelled, or waits, or is scheduled, and it is only one of these and only once; and
-- the messages that the calls have handed out, followed by those that wait in the queue, are a part of
-- those that came from the validator, in the order in which they came.
pub run-received :
    (xs : List Move) (s : Threads)
    → run xs init ≡ some s
    → Perm (all_calls s) (upto s.next_get) × Sublist (taken_in s) s.inbox
unfolding InTurn
run-received xs s e = (run-Perm xs s e, ∣ run-keeps InTurn move-InTurn xs init s e init-InTurn ∣₁)
