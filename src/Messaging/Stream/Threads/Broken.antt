-- ===== src/Messaging/Stream/Threads/Broken.antt =====
-- The event loop after an exception in `_monitor_disconnects`, and what brings it there.
use sci_ledger_sawtooth.Prelude.{
  ◌≡◌, refl, sym, ◌∙◌, suc, inl, inr, Bool, true, false, none, some, List, [], ◌∷◌, arith,
  Bool-cases, length,
}
use sci_ledger_sawtooth.Dict.{get}
use sci_ledger_sawtooth.Messaging.{ValidatorMessage}
use sci_ledger_sawtooth.Messaging.Stream.{Connection, receive_message, put_future}
use sci_ledger_sawtooth.Messaging.Stream.Threads.{
  Threads, made, entering, Phase, connecting, opened, serving, failing, broken, ended, Move, begins,
  answers, puts, enters, schedules, shuts, opens, fails_to_open, readies, starts_task, runs_task,
  sends_next, receives, disconnects, fails_next, ends, asks, starts_get, gets_next,
}
use sci_ledger_sawtooth.Messaging.Stream.Threads.Clients.{
  begin, answer, put_call, enter, schedule, ask,
}
use sci_ledger_sawtooth.Messaging.Stream.Threads.EventLoop.{
  receive_next, fail_next, failing_of, open_queues, fail_to_open, get_ready, start_task, run_task,
  send_next, begin_disconnect, end_loop, is_connecting, is_opened, is_serving, start_get, get_next,
}
use sci_ledger_sawtooth.Messaging.Stream.Threads.Moves.{move, run}
use sci_ledger_sawtooth.Messaging.Stream.Threads.Reach.{run-keeps}
use sci_ledger_sawtooth.Messaging.Stream.Threads.Serving.{receive_cases, receive_next-eq}
use sci_ledger_sawtooth.Dict.{put, Dict}
use sci_ledger_sawtooth.Text.{Text}

abbrev is_over : Phase → Bool
is_over broken = true
is_over ended = true
is_over _ = false

-- The stream is not ready, and the thread of the event loop is past the places that would make it so.
abbrev pub IsDead : Threads → Type 0
IsDead s = (is_over s.phase ≡ true) × (s.conn.ready ≡ false)

over_phase :
    (p : Phase)
    → is_over p ≡ true
    → (is_connecting p ≡ false)
      × (is_opened p ≡ false)
      × (is_serving p ≡ false)
      × (failing_of p ≡ none)
over_phase connecting h = cc
over_phase opened h = cc
over_phase serving h = cc
over_phase (failing rest size) h = cc
over_phase broken h = (refl, refl, refl, refl)
over_phase ended h = (refl, refl, refl, refl)

receive-ready : (m : ValidatorMessage) (c : Connection) → (receive_message m c).1.ready ≡ c.ready
receive-ready m c = elim (receive_cases m c) [
  | inl (f, g, e) ↦ ground (arith, e)
  | inr (g, e) ↦ elim (Bool-cases (c.ready)) [
    | inl y ↦ ground (arith, e, y)
    | inr n ↦ ground (arith, e, n)
  ]
]

receive_next-IsDead :
    (m : ValidatorMessage) (s u : Threads) → receive_next m s ≡ some u → IsDead s → IsDead u
receive_next-IsDead m s u e h =
    let new = receive_next-eq m s u e in rw (new) (h.0, rw (receive-ready m s.conn) h.1)

move-IsDead : (x : Move) (s u : Threads) → move x s ≡ some u → IsDead s → IsDead u
unfolding move begin answer put_call enter schedule open_queues fail_to_open get_ready start_task
    run_task send_next begin_disconnect end_loop ask start_get get_next fail_next put_future
move-IsDead (begins who m) s u e h = ground (arith, e, h, over_phase s.phase h.0)
move-IsDead (answers who m) s u e h = ground (arith, e, h, over_phase s.phase h.0)
move-IsDead (puts who) s u e h = ground (arith, e, h, over_phase s.phase h.0)
move-IsDead (enters who) s u e h = ground (arith, e, h, over_phase s.phase h.0)
move-IsDead (schedules who) s u e h = ground (arith, e, h, over_phase s.phase h.0)
move-IsDead shuts s u e h = ground (arith, e, h, over_phase s.phase h.0)
move-IsDead opens s u e h = ground (arith, e, h, over_phase s.phase h.0)
move-IsDead (fails_to_open x) s u e h = ground (arith, e, h, over_phase s.phase h.0)
move-IsDead readies s u e h = ground (arith, e, h, over_phase s.phase h.0)
move-IsDead starts_task s u e h = ground (arith, e, h, over_phase s.phase h.0)
move-IsDead runs_task s u e h = ground (arith, e, h, over_phase s.phase h.0)
move-IsDead sends_next s u e h = ground (arith, e, h, over_phase s.phase h.0)
move-IsDead disconnects s u e h = ground (arith, e, h, over_phase s.phase h.0)
move-IsDead fails_next s u e h = ground (arith, e, h, over_phase s.phase h.0)
move-IsDead ends s u e h = ground (arith, e, h, over_phase s.phase h.0)
move-IsDead asks s u e h = ground (arith, e, h, over_phase s.phase h.0)
move-IsDead starts_get s u e h = ground (arith, e, h, over_phase s.phase h.0)
move-IsDead (gets_next k) s u e h = ground (arith, e, h, over_phase s.phase h.0)
move-IsDead (receives m) s u e h = receive_next-IsDead m s u e h

length-put :
    {V : Type 0} (d : Dict V) (k : Text) (v : V)
    → get d k ≡ none
    → length (put d k v) ≡ suc (length d)
unfolding get put
length-put [] k v e = refl
length-put ((j, w) ∷ d) k v e = ground (arith, e, length-put d k v)

overlap_lem :
    (who : Text) (m : ValidatorMessage) (s : Threads)
    → s.phase ≡ serving
    → get s.calls who ≡ some (made m)
    → get s.conn.futures m.correlation_id ≡ none
    → (u : Threads) × ((xs : List Move)
        → run (disconnects ∷ puts who ∷ fails_next ∷ xs) s ≡ run xs u)
      × (u.phase ≡ broken)
      × (u.conn.ready ≡ false)
unfolding run move begin_disconnect put_call put_future fail_next
overlap_lem who m s p c f =
    let id = m.correlation_id in
    let longer = length-put s.conn.futures id id f in
    (
      record s {
        conn = record s.conn { ready = false; futures = put s.conn.futures id id };
        phase = broken;
        calls = put s.calls who (entering m);
      },
      (λ xs. ground (arith, p, c, longer)),
      refl,
      refl,
    )

-- Where the stream is serving and a thread has made a future that is not yet in the collection, the
-- thread puts it there after the disconnect began and before the next future is failed: the event loop
-- then stands in the phase of the exception, and in every state that any moves reach from there, the
-- stream is not ready and the event loop is past the places that would make it ready again.
pub overlap-IsDead :
    (who : Text) (m : ValidatorMessage) (s v : Threads) (xs : List Move)
    → s.phase ≡ serving
    → get s.calls who ≡ some (made m)
    → get s.conn.futures m.correlation_id ≡ none
    → run (disconnects ∷ puts who ∷ fails_next ∷ xs) s ≡ some v
    → ((u : Threads) × (run (disconnects ∷ puts who ∷ fails_next ∷ []) s ≡ some u)
        × (u.phase ≡ broken))
      × IsDead v
unfolding run
overlap-IsDead who m s v xs p c f e =
    let (u, to, phase, ready) = overlap_lem who m s p c f in
    let dead : is_over u.phase ≡ true = ground (arith, phase) in
    ((u, to [], phase), run-keeps IsDead move-IsDead xs u v (sym (to xs) ∙ e) (dead, ready))
