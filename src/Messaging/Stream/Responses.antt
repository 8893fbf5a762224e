-- ===== src/Messaging/Stream/Responses.antt =====
-- What a message of the validator, and a disconnect, make of the futures.
use sci_ledger_sawtooth.Prelude.{
  ℕ, ◌≡◌, ◌≢◌, refl, ◌⊎◌, inl, inr, true, false, Option, none, some, [], ◌∷◌, ◌++◌, arith,
  Bool-cases, Option-cases, if◌then◌else◌,
}
use sci_ledger_sawtooth.Text.{Text, Bytes, text_eq, text_eq_iff}
use sci_ledger_sawtooth.Dict.{Dict, get, put, remove, has_key, get-put, get-remove}
use sci_ledger_sawtooth.Errors.{ok}
use sci_ledger_sawtooth.Messaging.{ValidatorMessage, Reply, future_result, future_error, arrived}
use sci_ledger_sawtooth.Messaging.Stream.{
  Connection, get_future, set_result, remove_future, put_future, put_message, send_message,
  queue_message, receive_message, fail_all, disconnect,
}

-- Every future stands in the collection under its own correlation id.
abbrev pub IsKeyed : Connection → Type 0
IsKeyed c = (k f : Text) → get c.futures k ≡ some f → f ≡ k

-- The message was a response: its future has its content, and no other future, and no queue, has changed.
pub record Resolves (m : ValidatorMessage) (c c' : Connection) : Type 0 where
  pub resolved :
      get c'.results m.correlation_id ≡ some (some (future_result m.message_type m.content))
  pub others : (k : Text) → text_eq m.correlation_id k ≡ false → get c'.results k ≡ get c.results k
  pub taken :
      (k : Text) → get c'.futures k ≡ (if text_eq m.correlation_id k then none else get c.futures k)
  pub queue : c'.recv_queue ≡ c.recv_queue

-- The message was none: it stands at the end of the queue, and nothing else has changed.
abbrev pub Queues : ValidatorMessage → Connection → Connection → Type 0
Queues m c c' = c' ≡ record c { recv_queue = c.recv_queue ++ (arrived m ∷ []) }

-- Where the connection is ready and the futures stand under their ids, a message is never an error: if
-- its correlation id is that of a future of the collection, it resolves that future alone and takes it
-- out of the collection; else it is put at the end of the queue of received messages.
pub receive_message_lem :
    (m : ValidatorMessage) (c : Connection)
    → c.ready ≡ true
    → IsKeyed c
    → (c' : Connection) × (receive_message m c ≡ (ok tt, c'))
      × (((get c.futures m.correlation_id ≢ none) × Resolves m c c')
          ⊎ ((get c.futures m.correlation_id ≡ none) × Queues m c c'))
unfolding receive_message set_result get_future remove_future queue_message has_key
receive_message_lem m c ready keyed = elim (Option-cases (get c.futures m.correlation_id)) [
  | inl e ↦ (
    record c { recv_queue = c.recv_queue ++ (arrived m ∷ []) },
    ground (arith, ready, e),
    inr (e, refl),
  )
  | inr (f, e) ↦
      let same = keyed m.correlation_id f e in
      let reply = future_result m.message_type m.content in
      (
        record c {
          results = put c.results f (some reply);
          futures = remove c.futures m.correlation_id;
        },
        ground (arith, ready, e),
        inl (
          (λ p. ground (arith, e, p)),
          record {
            resolved = ground (
              arith,
              same,
              get-put c.results f m.correlation_id (some reply),
              text_eq_iff f m.correlation_id,
            );
            others = λ k d. ground (arith, same, d, get-put c.results f k (some reply));
            taken = λ k. get-remove c.futures m.correlation_id k;
            queue = refl;
          },
        ),
      )
]

fail_all-keeps :
    (futures : Dict Text) (results : Dict (Option Reply)) (k : Text)
    → get results k ≡ some (some future_error)
    → get (fail_all futures results) k ≡ some (some future_error)
unfolding fail_all
fail_all-keeps [] results k e = e
fail_all-keeps ((id, f) ∷ futures) results k e =
    fail_all-keeps futures (put results f (some future_error)) k
      (ground (arith, get-put results f k (some future_error), e))

fail_all-get :
    (futures : Dict Text) (results : Dict (Option Reply)) (k f : Text)
    → get futures k ≡ some f
    → get (fail_all futures results) f ≡ some (some future_error)
unfolding fail_all get
fail_all-get [] results k f e = cc
fail_all-get ((id, g) ∷ futures) results k f e = elim (Bool-cases (text_eq id k)) [
  | inl s ↦
      let same : g ≡ f = ground (arith, s) in
      fail_all-keeps futures (put results g (some future_error)) f
        (ground (arith, same, get-put results g f (some future_error), text_eq_iff g f))
  | inr s ↦ fail_all-get futures (put results g (some future_error)) k f (ground (arith, s))
]

-- After a disconnect every future of the collection is resolved, with the error that raises when its
-- content is read: none is waited for without end.
pub get-disconnect :
    (c : Connection) (k f : Text)
    → get c.futures k ≡ some f
    → get (disconnect c).results f ≡ some (some future_error)
unfolding disconnect
get-disconnect c k f e = fail_all-get c.futures c.results k f e

keyed_put :
    (futures : Dict Text) (id k f : Text)
    → ((j g : Text) → get futures j ≡ some g → g ≡ j)
    → get (put futures id id) k ≡ some f
    → f ≡ k
keyed_put futures id k f h e = elim (Bool-cases (text_eq id k)) [
  | inl s ↦ ground (arith, s, e, get-put futures id k id, text_eq_iff id k)
  | inr s ↦ h k f (ground (arith, s, e, get-put futures id k id))
]

-- Where the connection is ready, a send makes an unresolved future under the given correlation id, puts
-- it into the collection and the message at the end of the queue to send, and keeps the futures under
-- their ids.
pub send_message_lem :
    (id : Text) (t : ℕ) (b : Bytes) (c : Connection)
    → c.ready ≡ true
    → IsKeyed c
    → (c' : Connection) × (send_message id t b c ≡ (ok id, c'))
      × (get c'.results id ≡ some none)
      × (get c'.futures id ≡ some id)
      × (c'.send_queue
          ≡ c.send_queue ++ (record { message_type = t; correlation_id = id; content = b } ∷ []))
      × IsKeyed c'
unfolding send_message put_future put_message
send_message_lem id t b c ready keyed = (
  record c {
    results = put c.results id none;
    futures = put c.futures id id;
    send_queue =
        c.send_queue ++ (record { message_type = t; correlation_id = id; content = b } ∷ []);
  },
  ground (arith, ready),
  ground (arith, get-put c.results id id none, text_eq_iff id id),
  ground (arith, get-put c.futures id id id, text_eq_iff id id),
  refl,
  λ k f e. keyed_put c.futures id k f keyed e,
)
