-- ===== src/Messaging/Stream/Threads/Order.antt =====
-- The order in which messages are scheduled, and in which they are sent.
use mathlib.Core.List.{Sublist, Sublistᴰ}
use mathlib.Core.List.Sublistᴰ
use sci_ledger_sawtooth.Prelude.{
  split_first, split_first-eq, ◌≡◌, refl, sym, ◌∙◌, ◌⊎◌, inl, inr, some, List, [], ◌∷◌, arith,
  Bool-cases, Option-cases, ◌++◌, append_assoc,
}
use sci_ledger_sawtooth.Dict.{get}
use sci_ledger_sawtooth.Messaging.{ValidatorMessage}
use sci_ledger_sawtooth.Messaging.Stream.{Connection, receive_message, put_future}
use sci_ledger_sawtooth.Messaging.Stream.Threads.{
  Threads, Move, begins, answers, puts, enters, schedules, shuts, opens, fails_to_open, readies,
  starts_task, runs_task, sends_next, receives, disconnects, fails_next, ends, init, asks,
  starts_get, gets_next,
}
use sci_ledger_sawtooth.Messaging.Stream.Threads.Clients.{
  begin, answer, put_call, enter, schedule, admitted_of, ask,
}
use sci_ledger_sawtooth.Messaging.Stream.Threads.EventLoop.{
  receive_next, fail_next, stop_loop, failing_of, open_queues, fail_to_open, get_ready, start_task,
  run_task, send_next, begin_disconnect, end_loop, start_get, get_next,
}
use sci_ledger_sawtooth.Messaging.Stream.Threads.Moves.{move, run}
use sci_ledger_sawtooth.Messaging.Stream.Threads.Reach.{run-keeps}
use sci_ledger_sawtooth.Messaging.Stream.Threads.Serving.{receive_cases, receive_next-eq}
use sci_ledger_sawtooth.Text.{Text}

-- The messages on their way out, those that are furthest first.
abbrev pub on_the_way : Threads → List ValidatorMessage
on_the_way s = s.sent ++ (s.conn.send_queue ++ (s.tasks ++ s.scheduled))

abbrev InOrder : Threads → Type 0
InOrder s = Sublistᴰ (on_the_way s) s.log

-- Every stage keeps its messages, or loses some.
fewer-InOrder :
    (s u : Threads)
    → Sublistᴰ u.sent s.sent
    → Sublistᴰ u.conn.send_queue s.conn.send_queue
    → Sublistᴰ u.tasks s.tasks
    → u.scheduled ≡ s.scheduled
    → u.log ≡ s.log
    → InOrder s
    → InOrder u
fewer-InOrder s u a b c d e h =
    rw (e, d)
      (Sublistᴰ.trans
        (Sublistᴰ.append a (Sublistᴰ.append b (Sublistᴰ.append c (Sublistᴰ.refl s.scheduled)))) h)

-- All stages are as they were.
record Rests (s u : Threads) : Type 0 where
  sent : u.sent ≡ s.sent
  send_queue : u.conn.send_queue ≡ s.conn.send_queue
  tasks : u.tasks ≡ s.tasks
  scheduled : u.scheduled ≡ s.scheduled
  log : u.log ≡ s.log

Rests-InOrder : (s u : Threads) → Rests s u → InOrder s → InOrder u
Rests-InOrder s u r h = rw (r.sent, r.send_queue, r.tasks, r.scheduled, r.log) h

-- A message goes from one stage to the next.
shift-InOrder :
    (s u : Threads) → on_the_way u ≡ on_the_way s → u.log ≡ s.log → InOrder s → InOrder u
shift-InOrder s u e l h = rw (e, l) h

receive-send_queue :
    (m : ValidatorMessage) (c : Connection) → (receive_message m c).1.send_queue ≡ c.send_queue
receive-send_queue m c = elim (receive_cases m c) [
  | inl (f, g, e) ↦ ground (arith, e)
  | inr (g, e) ↦ elim (Bool-cases (c.ready)) [
    | inl y ↦ ground (arith, e, y)
    | inr n ↦ ground (arith, e, n)
  ]
]

receive_next-Rests : (m : ValidatorMessage) (s u : Threads) → receive_next m s ≡ some u → Rests s u
receive_next-Rests m s u e =
    let new = receive_next-eq m s u e in
    let q = receive-send_queue m s.conn in ground (arith, new, q)

schedule-InOrder : (who : Text) (s u : Threads) → schedule who s ≡ some u → InOrder s → InOrder u
unfolding schedule
schedule-InOrder who s u e h = elim (Option-cases (admitted_of (get s.calls who))) [
  | inl g ↦ absurd (ground (arith, g, e))
  | inr (m, g) ↦
      let q = s.conn.send_queue in
      let way : on_the_way u ≡ s.sent ++ (q ++ (s.tasks ++ (s.scheduled ++ (m ∷ [])))) =
        ground (arith, g, e) in
      let log : u.log ≡ s.log ++ (m ∷ []) = ground (arith, g, e) in
      rw
        (
          way,
          log,
          sym (append_assoc s.tasks s.scheduled (m ∷ [])),
          sym (append_assoc q (s.tasks ++ s.scheduled) (m ∷ [])),
          sym (append_assoc s.sent (q ++ (s.tasks ++ s.scheduled)) (m ∷ [])),
        )
        (Sublistᴰ.append h (Sublistᴰ.refl (m ∷ [])))
]

start_task-InOrder : (s u : Threads) → start_task s ≡ some u → InOrder s → InOrder u
unfolding start_task
start_task-InOrder s u e h = elim (Option-cases (split_first s.scheduled)) [
  | inl g ↦ absurd (ground (arith, g, e))
  | inr ((m, rest), g) ↦
      let here = split_first-eq s.scheduled m rest g in
      let way : on_the_way u ≡ s.sent ++ (s.conn.send_queue ++ ((s.tasks ++ (m ∷ [])) ++ rest)) =
        ground (arith, g, e) in
      shift-InOrder s u (way ∙ rw (append_assoc s.tasks (m ∷ []) rest, here) refl)
        (ground (arith, g, e)) h
]

run_task-InOrder : (s u : Threads) → run_task s ≡ some u → InOrder s → InOrder u
unfolding run_task
run_task-InOrder s u e h = elim (Option-cases (split_first s.tasks)) [
  | inl g ↦ absurd (ground (arith, g, e))
  | inr ((m, rest), g) ↦
      let here = split_first-eq s.tasks m rest g in
      let way : on_the_way u
          ≡ s.sent ++ ((s.conn.send_queue ++ (m ∷ [])) ++ (rest ++ s.scheduled)) =
        ground (arith, g, e) in
      shift-InOrder s u
        (way ∙ rw (append_assoc s.conn.send_queue (m ∷ []) (rest ++ s.scheduled), here) refl)
        (ground (arith, g, e)) h
]

send_next-InOrder : (s u : Threads) → send_next s ≡ some u → InOrder s → InOrder u
unfolding send_next
send_next-InOrder s u e h = elim (Option-cases (split_first s.conn.send_queue)) [
  | inl g ↦ absurd (ground (arith, g, e))
  | inr ((m, rest), g) ↦
      let here = split_first-eq s.conn.send_queue m rest g in
      let way : on_the_way u ≡ (s.sent ++ (m ∷ [])) ++ (rest ++ (s.tasks ++ s.scheduled)) =
        ground (arith, g, e) in
      shift-InOrder s u
        (way ∙ rw (append_assoc s.sent (m ∷ []) (rest ++ (s.tasks ++ s.scheduled)), here) refl)
        (ground (arith, g, e)) h
]

-- The two queues of the loop are dropped with what is in them.
Drops : Threads → Threads → Type 0
Drops s u =
    (u.sent ≡ s.sent)
    × ((u.conn.send_queue ≡ []) ⊎ (u.conn.send_queue ≡ s.conn.send_queue))
    × ((u.tasks ≡ []) ⊎ (u.tasks ≡ s.tasks))
    × (u.scheduled ≡ s.scheduled)
    × (u.log ≡ s.log)

emptied : (xs ys : List ValidatorMessage) → (xs ≡ []) ⊎ (xs ≡ ys) → Sublistᴰ xs ys
emptied xs ys (inl e) = rw (e) (Sublistᴰ.nil-sublist ys)
emptied xs ys (inr e) = rw (e) (Sublistᴰ.refl ys)

Drops-InOrder : (s u : Threads) → Drops s u → InOrder s → InOrder u
unfolding Drops
Drops-InOrder s u (a, b, c, d, e) h =
    fewer-InOrder s u (emptied u.sent s.sent (inr a))
      (emptied u.conn.send_queue s.conn.send_queue b) (emptied u.tasks s.tasks c) d e h

open_queues-Drops : (s u : Threads) → open_queues s ≡ some u → Drops s u
unfolding open_queues Drops
open_queues-Drops s u e = ground (arith, e)

end_loop-Drops : (s u : Threads) → end_loop s ≡ some u → Drops s u
unfolding end_loop Drops
end_loop-Drops s u e = ground (arith, e)

fail_next-Drops : (s u : Threads) → fail_next s ≡ some u → Drops s u
unfolding fail_next stop_loop Drops
fail_next-Drops s u e = elim (Option-cases (failing_of s.phase)) [
  | inl g ↦ absurd (ground (arith, g, e))
  | inr ((rest, size), g) ↦ elim (Option-cases (split_first rest)) [
    | inl z ↦ ground (arith, g, z, e)
    | inr (((id, f), rest'), z) ↦ ground (arith, g, z, e)
  ]
]

move-InOrder : (x : Move) (s u : Threads) → move x s ≡ some u → InOrder s → InOrder u
unfolding move begin answer put_call enter fail_to_open get_ready begin_disconnect ask start_get
    get_next put_future
move-InOrder (begins who m) s u e h = Rests-InOrder s u (ground (arith, e)) h
move-InOrder (answers who m) s u e h = Rests-InOrder s u (ground (arith, e)) h
move-InOrder (puts who) s u e h = Rests-InOrder s u (ground (arith, e)) h
move-InOrder (enters who) s u e h = Rests-InOrder s u (ground (arith, e)) h
move-InOrder (schedules who) s u e h = schedule-InOrder who s u e h
move-InOrder shuts s u e h = Rests-InOrder s u (ground (arith, e)) h
move-InOrder opens s u e h = Drops-InOrder s u (open_queues-Drops s u e) h
move-InOrder (fails_to_open x) s u e h = Rests-InOrder s u (ground (arith, e)) h
move-InOrder readies s u e h = Rests-InOrder s u (ground (arith, e)) h
move-InOrder starts_task s u e h = start_task-InOrder s u e h
move-InOrder runs_task s u e h = run_task-InOrder s u e h
move-InOrder sends_next s u e h = send_next-InOrder s u e h
move-InOrder (receives m) s u e h = Rests-InOrder s u (receive_next-Rests m s u e) h
move-InOrder disconnects s u e h = Rests-InOrder s u (ground (arith, e)) h
move-InOrder fails_next s u e h = Drops-InOrder s u (fail_next-Drops s u e) h
move-InOrder ends s u e h = Drops-InOrder s u (end_loop-Drops s u e) h
move-InOrder asks s u e h = Rests-InOrder s u (ground (arith, e)) h
move-InOrder starts_get s u e h = Rests-InOrder s u (ground (arith, e)) h
move-InOrder (gets_next k) s u e h = Rests-InOrder s u (ground (arith, e)) h

-- In every state that the threads reach, what was sent, what stands in the queue to send, the tasks and
-- what is scheduled are together a part of what was ever scheduled, in the order of the scheduling: a
-- message may be lost at a disconnect, and none is sent twice or overtakes another.
pub run-Sublist :
    (xs : List Move) (s : Threads) → run xs init ≡ some s → Sublist (on_the_way s) s.log
run-Sublist xs s e = ∣ run-keeps InOrder move-InOrder xs init s e Sublistᴰ.slnil ∣₁
