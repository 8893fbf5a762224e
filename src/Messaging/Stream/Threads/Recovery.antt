-- ===== src/Messaging/Stream/Threads/Recovery.antt =====
-- A disconnect while no thread puts a future into the collection, and what becomes of a send that is
-- divided by it.
use sci_ledger_sawtooth.Prelude.{
  ℕ, ◌≡◌, refl, ◌∙◌, suc, zero, true, false, Option, none, some, List, [], ◌∷◌, ◌++◌, arith, All,
  length,
}
use sci_ledger_sawtooth.Dict.{get}
use sci_ledger_sawtooth.Messaging.{ValidatorMessage}
use sci_ledger_sawtooth.Messaging.Stream.{put_future}
use sci_ledger_sawtooth.Messaging.Stream.Threads.{
  Threads, made, entering, connecting, serving, failing, Move, puts, enters, opens, readies,
  disconnects, fails_next,
}
use sci_ledger_sawtooth.Messaging.Stream.Threads.Clients.{put_call, enter}
use sci_ledger_sawtooth.Messaging.Stream.Threads.EventLoop.{
  fail_next, stop_loop, open_queues, get_ready, begin_disconnect,
}
use sci_ledger_sawtooth.Messaging.Stream.Threads.Moves.{move, run}
use sci_ledger_sawtooth.Messaging.Stream.Threads.Reach.{run-cons}
use sci_ledger_sawtooth.Dict.{put, Dict, remove, get-put, get-remove}
use sci_ledger_sawtooth.Text.{Text, text_eq_iff}
use sci_ledger_sawtooth.Messaging.{Reply, future_error, reconnect_event}
use sci_ledger_sawtooth.Messaging.Stream.{fail_all, disconnect, reconnect}
use sci_ledger_sawtooth.Messaging.Stream.Responses.{get-disconnect}

-- That many rounds of the loop over the futures, and then the moves given.
abbrev pub fails : ℕ → List Move → List Move
fails zero xs = xs
fails (suc n) xs = fails_next ∷ fails n xs

-- The state at the end of `_monitor_disconnects`, with the futures of `rest` failed.
abbrev pub failed : Dict Text → Threads → Threads
failed rest s =
    stop_loop (record s { conn = record s.conn { results = fail_all rest s.conn.results } })

fails-failed :
    (rest : Dict Text) (s : Threads) (xs : List Move)
    → s.phase ≡ failing rest (length s.conn.futures)
    → run (fails (suc (length rest)) xs) s ≡ run xs (failed rest s)
unfolding run move fail_next stop_loop fail_all
fails-failed [] s xs p = ground (arith, p)
fails-failed ((id, f) ∷ rest) s xs p =
    let next : Threads = record s {
      conn = record s.conn { results = put s.conn.results f (some future_error) };
      phase = failing rest (length s.conn.futures);
    } in
    let q : move fails_next s ≡ some next = ground (arith, p) in
    run-cons fails_next s next (fails (suc (length rest)) xs) q ∙ fails-failed rest next xs refl

-- The moves of the loop thread from a disconnect to the next round of `run`.
abbrev pub recovery : Threads → List Move → List Move
recovery s xs = disconnects ∷ fails (suc (length s.conn.futures)) xs

recovery-disconnect :
    (s : Threads) (xs : List Move)
    → s.phase ≡ serving
    → s.shutdown ≡ false
    → (u : Threads) × (run (recovery s xs) s ≡ run xs u)
      × (u.conn ≡ disconnect s.conn)
      × (u.phase ≡ connecting)
      × (u.first_time ≡ false)
      × (u.tasks ≡ [])
      × (u.calls ≡ s.calls)
      × (u.scheduled ≡ s.scheduled)
      × (u.sent ≡ s.sent)
unfolding run move begin_disconnect disconnect stop_loop
recovery-disconnect s xs p d =
    let next : Threads = record s {
      conn = record s.conn { ready = false };
      phase = failing s.conn.futures (length s.conn.futures);
    } in
    let q : move disconnects s ≡ some next = ground (arith, p) in
    (
      failed s.conn.futures next,
      run-cons disconnects s next (fails (suc (length s.conn.futures)) xs) q
          ∙ fails-failed s.conn.futures next xs refl,
      refl,
      ground (arith, d),
      refl,
      refl,
      refl,
      refl,
      refl,
    )

-- Where the stream is serving, is not shut down, and has a future in its collection, and no thread puts
-- a future there while a disconnect is handled, the thread of the event loop comes back to serving: its
-- moves are all possible, they do to the connection what an undivided disconnect and reconnect do, and
-- the future is resolved with the error.
pub recovery-reconnect :
    (s : Threads) (k f : Text)
    → s.phase ≡ serving
    → s.shutdown ≡ false
    → get s.conn.futures k ≡ some f
    → (u : Threads) × (run (recovery s (opens ∷ readies ∷ [])) s ≡ some u)
      × (u.conn ≡ reconnect (disconnect s.conn))
      × (u.phase ≡ serving)
      × (get u.conn.results f ≡ some (some future_error))
unfolding run move open_queues get_ready reconnect
recovery-reconnect s k f p d e =
    let (u, to, conn, phase, first, _, _, _, _) =
      recovery-disconnect s (opens ∷ readies ∷ []) p d in
    (
      record u {
        conn = reconnect (disconnect s.conn);
        phase = serving;
        has_queues = true;
        sending = true;
        receiving = true;
        errors = u.errors ++ (none ∷ []);
      },
      ground (arith, to, conn, phase, first),
      refl,
      refl,
      get-disconnect s.conn k f e,
    )

fail_all-other :
    (futures : Dict Text) (results : Dict (Option Reply)) (id : Text)
    → All (λ e. e.1 ≡ e.0) futures
    → get futures id ≡ none
    → get (fail_all futures results) id ≡ get results id
unfolding fail_all get
fail_all-other [] results id h e = refl
fail_all-other ((k, f) ∷ futures) results id h e = ground (
  arith,
  h.0,
  e,
  get-put results f id (some future_error),
  fail_all-other futures (put results f (some future_error)) id h.1,
)

-- Where the stream is serving and not shut down, the futures of the collection stand under their own
-- ids, and a thread has made a future that has no result and is not yet in the collection, a disconnect
-- may pass before the thread puts it there: the send then returns, the stream serves again and is
-- ready, the future is in the collection without a result, and its message is nowhere: the queue and
-- the tasks are empty, and nothing was scheduled or sent.
pub recovery-put_message :
    (who : Text) (m : ValidatorMessage) (s : Threads)
    → s.phase ≡ serving
    → s.shutdown ≡ false
    → get s.calls who ≡ some (made m)
    → get s.conn.results m.correlation_id ≡ some none
    → get s.conn.futures m.correlation_id ≡ none
    → All (λ e. e.1 ≡ e.0) s.conn.futures
    → (u : Threads) × (run (recovery s (puts who ∷ enters who ∷ opens ∷ readies ∷ [])) s ≡ some u)
      × (u.phase ≡ serving)
      × (u.conn.ready ≡ true)
      × (get u.calls who ≡ none)
      × (get u.conn.futures m.correlation_id ≡ some m.correlation_id)
      × (get u.conn.results m.correlation_id ≡ some none)
      × (u.conn.send_queue ≡ [])
      × (u.tasks ≡ [])
      × (u.scheduled ≡ s.scheduled)
      × (u.sent ≡ s.sent)
unfolding run move open_queues get_ready put_call enter put_future disconnect
recovery-put_message who m s p d c r f paired =
    let id = m.correlation_id in
    let (u, to, conn, phase, first, tasks, calls, scheduled, sent) =
      recovery-disconnect s (puts who ∷ enters who ∷ opens ∷ readies ∷ []) p d in
    let here = text_eq_iff who who in
    let v : Threads = record u {
      conn = record (disconnect s.conn) {
        ready = true;
        futures = put s.conn.futures id id;
        send_queue = [];
        recv_queue = reconnect_event ∷ [];
      };
      calls = remove (put u.calls who (entering m)) who;
      phase = serving;
      has_queues = true;
      sending = true;
      receiving = true;
      errors = u.errors ++ (none ∷ []);
    } in
    (
      v,
      ground (arith, to, conn, phase, first, calls, c, here, get-put u.calls who who (entering m)),
      refl,
      refl,
      ground (arith, here, get-remove (put u.calls who (entering m)) who who),
      ground (arith, get-put s.conn.futures id id id, text_eq_iff id id),
      ground (arith, r, fail_all-other s.conn.futures s.conn.results id paired f),
      refl,
      tasks,
      scheduled,
      sent,
    )
