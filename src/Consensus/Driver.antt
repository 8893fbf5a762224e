-- ===== src/Consensus/Driver.antt =====
-- `ZmqDriver` of sawtooth_sdk/consensus/zmq_driver.py over the link to the validator. The engine and
-- the generated encoding are parameters. A loop runs for a number of rounds.
pub mod Delivery
pub mod Rounds
pub mod Registration
pub mod Start
pub mod Activation
pub mod Updates
pub mod Stopping
use sci_ledger_sawtooth.Prelude.{
  ℕ, zero, suc, Bool, true, false, Option, none, some, List, [], ◌∷◌, ◌++◌, ◌==◌, if◌then◌else◌,
  ◌&&◌,
}
use sci_ledger_sawtooth.Text.{Text, Bytes}
use sci_ledger_sawtooth.Errors.{
  Exn, Result, ok, err, format, number, receive_error, concurrent_timeout_error, keyboard_interrupt,
  attribute_error,
}
use sci_ledger_sawtooth.Action.{Action, pure, raise, lift, try, modify, ◌>>=◌, ◌>>◌}
use sci_ledger_sawtooth.Messaging.{
  Link, ValidatorMessage, Event, reconnect_event, arrived, content_of,
}
use sci_ledger_sawtooth.Consensus.Notifications.{
  PeerInfo, PeerHeader, PeerMessage, StartupState, Update, peer_connected, peer_disconnected,
  peer_sent, block_new, block_update, no_data, SentMessage, Registered, Codec,
}

pub record Engine (S : Type 0) : Type 0 where
  pub name : Text
  pub version : Text
  pub additional_protocols : List (Text × Text)
  pub stop_engine : Action S (Unit {0})

-- The driver's own fields beside the connection and the engine.
pub record Driver (S : Type 0) : Type 0 where
  pub exit : Bool
  pub updates : List (ℕ × Update)
  pub outside : S

abbrev pub ping_request : ℕ
ping_request = 700

abbrev pub notify_activated : ℕ
notify_activated = 907

abbrev pub notify_deactivated : ℕ
notify_deactivated = 908

abbrev pub notify_ack : ℕ
notify_ack = 999

-- A call of the stream or of the engine.
abbrev pub outward : {S A : Type 0} → Action S A → Action (Driver S) A
outward m d = let (r, s) = m d.outside in (r, record d { outside = s })

-- Reading an attribute of RECONNECT_EVENT, which is a number, raises.
abbrev pub message_of : Event → Result ValidatorMessage
message_of reconnect_event = err attribute_error
message_of (arrived m) = ok m

-- `except concurrent.futures.TimeoutError`
abbrev pub timed_out : {S A : Type 0} → A → Exn → Action S A
timed_out a concurrent_timeout_error = pure a
timed_out a e = raise e

-- `except exceptions.ReceiveError`
abbrev pub refused : {S : Type 0} → Exn → Action S (Unit {0})
refused (receive_error m) = pure tt
refused e = raise e

-- `except Exception`, of which KeyboardInterrupt is none
abbrev pub thread_ends : {S : Type 0} → Exn → Action S (Option ℕ)
thread_ends keyboard_interrupt = raise keyboard_interrupt
thread_ends e = pure none

module _ {S : Type 0} (link : Link S) (codec : Codec) (engine : Engine S) where
  -- `stop`
  unfoldable pub stop : Action (Driver S) (Unit {0})
  stop = do modify (λ d. record d { exit = true }); outward engine.stop_engine; outward link.close

  -- the response to one registration, of which `none` is NOT_READY
  unfoldable pub registered : Registered → Result (Option (Option StartupState))
  registered r =
      if r.status == 4
      then ok none
      else if r.status == 1
      then elim (r.chain_head) [
        | none ↦ ok (some none)
        | some head ↦ elim (r.local_peer_info) [
          | none ↦ ok (some none)
          | some info ↦
              ok (
                some (some (record { chain_head = head; peers = r.peers; local_peer_info = info })))
        ]
      ]
      else err (receive_error (format "Registration failed with status {}" (number r.status)))

  -- one round of the loop of `_register`
  unfoldable pub register_once : Action S (Option (Option StartupState))
  register_once = do
    future ←
        link.send 800
          (codec.register_request engine.name engine.version engine.additional_protocols)
    reply ← link.result future (some 300)
    content ← lift (content_of reply)
    response ← lift (codec.register_response content)
    lift (registered response)

  -- `none` when the rounds are used up
  unfoldable pub register_loop : ℕ → Action S (Option (Option StartupState))
  register_loop zero = pure none
  register_loop (suc n) = do
    settled ← register_once
    elim settled [ none ↦ register_loop n | some startup ↦ pure (some startup) ]

  -- `_register`
  unfoldable pub register : ℕ → Action S (Option (Option StartupState))
  register n = link.wait_for_ready >> register_loop n

  -- `_wait_until_active`, with the future that is waited for
  unfoldable pub wait_until_active : ℕ → ℕ → Action S (Option StartupState)
  wait_until_active zero future = pure none
  wait_until_active (suc n) future = do
    event ← try (link.received future (some 1) >>= (λ event. pure (some event))) (timed_out none)
    elim event [
      | none ↦ wait_until_active n future
      | some event ↦ do
        message ← lift (message_of event)
        (if message.message_type == notify_activated
            then (do
              startup ← lift (codec.activated message.content)
              link.send_back notify_ack message.correlation_id codec.ack
              pure (some startup))
            else (link.receive >>= λ next. wait_until_active n next))
    ]

  -- the branches of `_process` before the acknowledgement
  unfoldable pub update_of : ValidatorMessage → Action (Driver S) Update
  update_of message =
      if message.message_type == 900
      then (lift (codec.peer_connected_of message.content) >>= (λ info. pure (peer_connected info)))
      else if message.message_type == 901
      then (lift (codec.peer_disconnected_of message.content)
          >>= (λ id. pure (peer_disconnected id)))
      else if message.message_type == 902
      then (do
        notification ← lift (codec.peer_message_of message.content)
        header ← lift (codec.peer_header_of notification.0.header)
        pure (
            peer_sent
              (record {
                header = header;
                header_bytes = notification.0.header;
                header_signature = notification.0.header_signature;
                content = notification.0.content;
              })
              notification.1))
      else if message.message_type == 903
      then (lift (codec.block_new_of message.content) >>= (λ block. pure (block_new block)))
      else if message.message_type == 904
      then (lift (codec.block_valid_of message.content) >>= (λ id. pure (block_update id)))
      else if message.message_type == 905
      then (lift (codec.block_invalid_of message.content) >>= (λ id. pure (block_update id)))
      else if message.message_type == 906
      then (lift (codec.block_commit_of message.content) >>= (λ id. pure (block_update id)))
      else if message.message_type == notify_deactivated
      then stop >> pure no_data
      else if message.message_type == ping_request
      then pure no_data
      else raise (
          receive_error
            (format "Received unexpected message type: {}" (number message.message_type)))

  -- `_process`
  unfoldable pub process : ValidatorMessage → Action (Driver S) (ℕ × Update)
  process message = do
    update ← update_of message
    outward (link.send_back notify_ack message.correlation_id codec.ack)
    pure (message.message_type, update)

  -- a message is processed and put on the queue, unless it is a ping
  unfoldable pub take_event : Event → Action (Driver S) (Unit {0})
  take_event event =
      try
        (do
          message ← lift (message_of event)
          result ← process message
          (if result.0 == ping_request
              then pure tt
              else modify (λ d. record d { updates = d.updates ++ (result ∷ []) })))
        refused

  -- `message = future.result(1)` and `future = self._stream.receive()`
  unfoldable pub message_and_next : ℕ → Action S (Option (Event × ℕ))
  message_and_next future = do
    event ← link.received future (some 1)
    next ← link.receive
    lift (ok (some (event, next)))

  -- one round of the loop: `none` is the break, else the future to wait for
  unfoldable pub driver_step : ℕ → Action (Driver S) (Option ℕ)
  driver_step future d =
      if d.exit
      then (outward engine.stop_engine >> pure none) d
      else (do
        got ← try (outward (message_and_next future)) (timed_out none)
        elim got [
          | none ↦ pure (some future)
          | some (event, next) ↦ take_event event >> pure (some next)
        ])
          d

  unfoldable pub driver_rounds : ℕ → ℕ → Action (Driver S) (Option ℕ)
  driver_rounds zero future = pure (some future)
  driver_rounds (suc n) future = do
    next ← driver_step future
    elim next [ none ↦ pure none | some future' ↦ driver_rounds n future' ]

  -- `_driver_loop`: `except Exception` ends the thread
  unfoldable pub driver_loop : ℕ → Action (Driver S) (Option ℕ)
  driver_loop n = try (outward link.receive >>= λ future. driver_rounds n future) thread_ends
