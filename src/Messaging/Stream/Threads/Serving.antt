-- ===== src/Messaging/Stream/Threads/Serving.antt =====
-- The moves of the thread of the event loop keep the futures of the stream safe.
use sci_ledger_sawtooth.Prelude.{
  split_first, ◌≡◌, sym, ◌⊎◌, inl, inr, none, some, [], ◌∷◌, ◌++◌, arith, Bool-cases, Option-cases,
  if◌then◌else◌, length, ◌==◌,
}
use mathlib.Core.List.{mem-append_left, mem-append_right, mem-cons_self}
use sci_ledger_sawtooth.Text.{Text, text_eq, text_eq_iff}
use sci_ledger_sawtooth.Dict.{get, put, remove, has_key, get-put, get-remove}
use sci_ledger_sawtooth.Messaging.{ValidatorMessage, future_result, future_error, arrived}
use sci_ledger_sawtooth.Messaging.Stream.{
  Connection, get_future, set_result, remove_future, receive_message, queue_message,
}
use sci_ledger_sawtooth.Messaging.Stream.Threads.{Threads, failing}
use sci_ledger_sawtooth.Messaging.Stream.Threads.EventLoop.{
  receive_next, fail_next, stop_loop, failing_of,
}
use sci_ledger_sawtooth.Messaging.Stream.Threads.Safe.{response, IsSafe, same-IsSafe}

pub fail_next-IsSafe : (s u : Threads) → fail_next s ≡ some u → IsSafe s → IsSafe u
unfolding fail_next stop_loop
fail_next-IsSafe s u e h = elim (Option-cases (failing_of s.phase)) [
  | inl g ↦ absurd (ground (arith, g, e))
  | inr ((rest, size), g) ↦ elim (Bool-cases (length s.conn.futures == size)) [
    | inr n ↦
        same-IsSafe s u (ground (arith, g, n, e)) (ground (arith, g, n, e))
          (ground (arith, g, n, e)) (ground (arith, g, n, e)) h
    | inl y ↦ elim (Option-cases (split_first rest)) [
      | inl z ↦
          same-IsSafe s u (ground (arith, g, y, z, e)) (ground (arith, g, y, z, e))
            (ground (arith, g, y, z, e)) (ground (arith, g, y, z, e)) h
      | inr (((id, f), rest'), z) ↦
          let new : u ≡ record s {
            conn = record s.conn { results = put s.conn.results f (some future_error) };
            phase = failing rest' size;
          } =
            ground (arith, g, y, z, e) in
          rw (new) (record {
            keyed = h.keyed;
            waited = λ k p.
                h.waited k (ground (arith, p, get-put s.conn.results f k (some future_error)));
            genuine = λ k t b p.
                h.genuine k t b (ground (arith, p, get-put s.conn.results f k (some future_error)));
          })
    ]
  ]
]

-- What a message makes of the connection: it resolves its future, or is queued, or is passed over.
pub receive_cases :
    (m : ValidatorMessage) (c : Connection)
    → ((f : Text) × (get c.futures m.correlation_id ≡ some f)
        × ((receive_message m c).1 ≡ record c {
          results = put c.results f (some (future_result m.message_type m.content));
          futures = remove c.futures m.correlation_id;
        }))
      ⊎ ((get c.futures m.correlation_id ≡ none)
          × ((receive_message m c).1 ≡ (
              if c.ready then record c { recv_queue = c.recv_queue ++ (arrived m ∷ []) } else c)))
unfolding receive_message set_result get_future remove_future queue_message has_key
receive_cases m c = elim (Option-cases (get c.futures m.correlation_id)) [
  | inr (f, e) ↦ inl (f, e, ground (arith, e))
  | inl e ↦ inr (
    e,
    elim (Bool-cases (c.ready)) [ inl y ↦ ground (arith, e, y) | inr n ↦ ground (arith, e, n) ],
  )
]

pub receive-IsSafe :
    (m : ValidatorMessage) (s u : Threads)
    → u ≡ record s {
      conn = (receive_message m s.conn).1;
      inbox = s.inbox ++ (m ∷ []);
      receiving = s.conn.ready;
    }
    → IsSafe s
    → IsSafe u
receive-IsSafe m s u e h = elim (receive_cases m s.conn) [
  | inl (f, g, c) ↦
      let same = h.keyed m.correlation_id f g in
      let reply = future_result m.message_type m.content in
      let inbox : u.inbox ≡ s.inbox ++ (m ∷ []) = ground (arith, e) in
      let calls : u.calls ≡ s.calls = ground (arith, e) in
      let results : u.conn.results ≡ put s.conn.results f (some reply) = ground (arith, e, c) in
      let futures : u.conn.futures ≡ remove s.conn.futures m.correlation_id =
        ground (arith, e, c) in
      record {
        keyed = λ k x p.
            h.keyed k x (ground (arith, p, futures, get-remove s.conn.futures m.correlation_id k));
        waited = λ k p.
            elim (h.waited k
              (ground (arith, p, results, get-put s.conn.results f k (some reply)))) [
                | inl q ↦ inl (
                    ground (
                      arith,
                      p,
                      q,
                      same,
                      results,
                      futures,
                      get-put s.conn.results f k (some reply),
                      get-remove s.conn.futures m.correlation_id k,
                      text_eq_iff m.correlation_id k,
                    ))
                | inr q ↦ inr (rw (calls) q)
              ];
        genuine = λ k t b p. rw (inbox) (elim (Bool-cases (text_eq f k)) [
          | inl y ↦
              let new : response k t b ≡ m = ground (
                arith,
                y,
                p,
                same,
                results,
                get-put s.conn.results f k (some reply),
                text_eq_iff f k,
              ) in
              rw (new) (mem-append_right s.inbox mem-cons_self)
          | inr n ↦ mem-append_left (m ∷ []) (
              h.genuine k t b
                (ground (arith, n, p, results, get-put s.conn.results f k (some reply))))
        ]);
      }
  | inr (g, c) ↦
      let inbox : u.inbox ≡ s.inbox ++ (m ∷ []) = ground (arith, e) in
      let calls : u.calls ≡ s.calls = ground (arith, e) in
      let results : u.conn.results ≡ s.conn.results = elim (Bool-cases (s.conn.ready)) [
        | inl y ↦ ground (arith, e, c, y)
        | inr n ↦ ground (arith, e, c, n)
      ] in
      let futures : u.conn.futures ≡ s.conn.futures = elim (Bool-cases (s.conn.ready)) [
        | inl y ↦ ground (arith, e, c, y)
        | inr n ↦ ground (arith, e, c, n)
      ] in
      record {
        keyed = λ k x p. h.keyed k x (rw (sym futures) p);
        waited = λ k p. rw (futures, calls) (h.waited k (rw (sym results) p));
        genuine =
            λ k t b p. rw (inbox) (mem-append_left (m ∷ []) (h.genuine k t b (rw (sym results) p)));
      }
]

pub receive_next-eq :
    (m : ValidatorMessage) (s u : Threads)
    → receive_next m s ≡ some u
    → u ≡ record s {
      conn = (receive_message m s.conn).1;
      inbox = s.inbox ++ (m ∷ []);
      receiving = s.conn.ready;
    }
unfolding receive_next
receive_next-eq m s u e = ground (arith, e)
