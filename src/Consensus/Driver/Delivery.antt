-- ===== src/Consensus/Driver/Delivery.antt =====
-- What messages the driver is sent, and one round of its loop on each kind of them.
use sci_ledger_sawtooth.Prelude.{ℕ, ◌<◌, ◌≡◌, ◌≢◌, ◌⊎◌, false, some, List, [], ◌∷◌, ◌++◌, arith}
use sci_ledger_sawtooth.Text.{Text, Bytes}
use sci_ledger_sawtooth.Errors.{ok, err, Message, receive_error, format, number}
use sci_ledger_sawtooth.Messaging.{Link, ValidatorMessage, arrived}
use sci_ledger_sawtooth.Consensus.Service.{Block}
use sci_ledger_sawtooth.Consensus.Notifications.{
  PeerInfo, PeerHeader, Update, peer_connected, peer_disconnected, peer_sent, block_new,
  block_update, no_data, SentMessage, Codec,
}
use sci_ledger_sawtooth.Consensus.Driver.{
  Engine, Driver, ping_request, notify_deactivated, notify_ack, update_of, process, take_event,
  message_and_next, driver_step,
}

-- What a link hands out one after the other, and the acknowledgements that it has taken.
pub record IsQueue {S : Type 0} (link : Link S) (pending : S → List ValidatorMessage)
    (acks : S → List Text) : Type 0 where
  pub next_lem :
      (s : S) (f : ℕ) (m : ValidatorMessage) (ms : List ValidatorMessage)
      → pending s ≡ m ∷ ms
      → (s' : S) × (link.received f (some 1) s ≡ (ok (arrived m), s'))
        × (pending s' ≡ ms)
        × (acks s' ≡ acks s)
  pub receive_lem :
      (s : S)
      → (f : ℕ) × (s' : S) × (link.receive s ≡ (ok f, s'))
        × (pending s' ≡ pending s)
        × (acks s' ≡ acks s)
  pub ack_lem :
      (s : S) (id : Text) (b : Bytes)
      → (s' : S) × (link.send_back notify_ack id b s ≡ (ok tt, s'))
        × (pending s' ≡ pending s)
        × (acks s' ≡ acks s ++ (id ∷ []))

module _ (codec : Codec) where
  -- The update that a notification carries.
  pub data Notifies (m : ValidatorMessage) : Update → Type 0 where
    connected :
        (i : PeerInfo)
        → m.message_type ≡ 900
        → codec.peer_connected_of m.content ≡ ok i
        → Notifies m (peer_connected i)
    disconnected :
        (i : Bytes)
        → m.message_type ≡ 901
        → codec.peer_disconnected_of m.content ≡ ok i
        → Notifies m (peer_disconnected i)
    sent_by :
        (p : SentMessage) (i : Bytes) (h : PeerHeader)
        → m.message_type ≡ 902
        → codec.peer_message_of m.content ≡ ok (p, i)
        → codec.peer_header_of p.header ≡ ok h
        → Notifies m (
            peer_sent
              (record {
                header = h;
                header_bytes = p.header;
                header_signature = p.header_signature;
                content = p.content;
              })
              i)
    new_block :
        (b : Block)
        → m.message_type ≡ 903
        → codec.block_new_of m.content ≡ ok b
        → Notifies m (block_new b)
    valid_block :
        (i : Bytes)
        → m.message_type ≡ 904
        → codec.block_valid_of m.content ≡ ok i
        → Notifies m (block_update i)
    invalid_block :
        (i : Bytes)
        → m.message_type ≡ 905
        → codec.block_invalid_of m.content ≡ ok i
        → Notifies m (block_update i)
    committed_block :
        (i : Bytes)
        → m.message_type ≡ 906
        → codec.block_commit_of m.content ≡ ok i
        → Notifies m (block_update i)

  -- Messages with the updates that they carry and the correlation ids to acknowledge. A ping is
  -- acknowledged and carries none; a message of a type that the driver does not know has neither.
  pub data Delivers : List ValidatorMessage → List (ℕ × Update) → List Text → Type 0 where
    all_done : Delivers [] [] []
    pinged :
        (m : ValidatorMessage) (ms : List ValidatorMessage) (us : List (ℕ × Update))
        (ids : List Text)
        → m.message_type ≡ ping_request
        → Delivers ms us ids
        → Delivers (m ∷ ms) us (m.correlation_id ∷ ids)
    ignored :
        (m : ValidatorMessage) (ms : List ValidatorMessage) (us : List (ℕ × Update))
        (ids : List Text)
        → m.message_type ≢ ping_request
        → m.message_type ≢ notify_deactivated
        → (m.message_type < 900) ⊎ (906 < m.message_type)
        → Delivers ms us ids
        → Delivers (m ∷ ms) us ids
    notified :
        (m : ValidatorMessage) (u : Update) (ms : List ValidatorMessage) (us : List (ℕ × Update))
        (ids : List Text)
        → Notifies m u
        → Delivers ms us ids
        → Delivers (m ∷ ms) ((m.message_type, u) ∷ us) (m.correlation_id ∷ ids)

module _ {S : Type 0} (link : Link S) (codec : Codec) (engine : Engine S) where
  pub notified_update :
      (m : ValidatorMessage) (u : Update) (d : Driver S)
      → Notifies codec m u
      → (update_of link codec engine m d ≡ (ok u, d))
        × (899 < m.message_type)
        × (m.message_type < 907)
  unfolding update_of
  notified_update m u d (connected i t e) = ground (arith, t, e)
  notified_update m u d (disconnected i t e) = ground (arith, t, e)
  notified_update m u d (sent_by p i h t e g) = ground (arith, t, e, g)
  notified_update m u d (new_block b t e) = ground (arith, t, e)
  notified_update m u d (valid_block i t e) = ground (arith, t, e)
  notified_update m u d (invalid_block i t e) = ground (arith, t, e)
  notified_update m u d (committed_block i t e) = ground (arith, t, e)

  pub ping_update :
      (m : ValidatorMessage) (d : Driver S)
      → m.message_type ≡ ping_request
      → update_of link codec engine m d ≡ (ok no_data, d)
  unfolding update_of
  ping_update m d t = ground (arith, t)

  pub ignored_update :
      (m : ValidatorMessage) (d : Driver S)
      → m.message_type ≢ ping_request
      → m.message_type ≢ notify_deactivated
      → (m.message_type < 900) ⊎ (906 < m.message_type)
      → update_of link codec engine m d ≡ (
        err (receive_error (format "Received unexpected message type: {}" (number m.message_type))),
        d,
      )
  unfolding update_of
  ignored_update m d p q r = ground arith

  module _ (pending : S → List ValidatorMessage) (acks : S → List Text)
      (queue : IsQueue link pending acks) where
    -- The future that is waited for brings the first message.
    pub first_message :
        (f : ℕ) (s : S) (m : ValidatorMessage) (ms : List ValidatorMessage)
        → pending s ≡ m ∷ ms
        → (f' : ℕ) × (s' : S) × (pending s' ≡ ms)
          × (acks s' ≡ acks s)
          × (message_and_next link codec engine f s ≡ (ok (some (arrived m, f')), s'))
    unfolding message_and_next
    first_message f s m ms e =
        let (s1, r1, p1, a1) = queue.next_lem s f m ms e in
        let (f', s2, r2, p2, a2) = queue.receive_lem s1 in
        (f', s2, ground (arith, p1, p2), ground (arith, a1, a2), ground (arith, r1, r2))

    pub round_lem :
        (f f' : ℕ) (d d' : Driver S) (s : S) (m : ValidatorMessage)
        → d.exit ≡ false
        → message_and_next link codec engine f d.outside ≡ (ok (some (arrived m, f')), s)
        → take_event link codec engine (arrived m) (record d { outside = s }) ≡ (ok tt, d')
        → driver_step link codec engine f d ≡ (ok (some f'), d')
    unfolding driver_step
    round_lem f f' d d' s m run got taken = ground (arith, run, got, taken)

    -- A message that is known is acknowledged.
    pub process_lem :
        (m : ValidatorMessage) (u : Update) (d : Driver S)
        → update_of link codec engine m d ≡ (ok u, d)
        → (s : S) × (pending s ≡ pending d.outside)
          × (acks s ≡ acks d.outside ++ (m.correlation_id ∷ []))
          × (process link codec engine m d ≡ (ok (m.message_type, u), record d { outside = s }))
    unfolding process
    process_lem m u d e =
        let (s, b, p, a) = queue.ack_lem d.outside m.correlation_id codec.ack in
        (s, p, a, ground (arith, e, b))

    pub take_ping :
        (m : ValidatorMessage) (d d' : Driver S) (u : Update)
        → m.message_type ≡ ping_request
        → process link codec engine m d ≡ (ok (m.message_type, u), d')
        → take_event link codec engine (arrived m) d ≡ (ok tt, d')
    unfolding take_event
    take_ping m d d' u t e = ground (arith, t, e)

    pub take_notice :
        (m : ValidatorMessage) (d d' : Driver S) (u : Update)
        → m.message_type < 907
        → 899 < m.message_type
        → process link codec engine m d ≡ (ok (m.message_type, u), d')
        → take_event link codec engine (arrived m) d
          ≡ (ok tt, record d' { updates = d'.updates ++ ((m.message_type, u) ∷ []) })
    unfolding take_event
    take_notice m d d' u t v e = ground (arith, t, e)

    pub take_unknown :
        (m : ValidatorMessage) (d : Driver S) (t : Message)
        → update_of link codec engine m d ≡ (err (receive_error t), d)
        → take_event link codec engine (arrived m) d ≡ (ok tt, d)
    unfolding take_event process
    take_unknown m d t e = ground (arith, e)
